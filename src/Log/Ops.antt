-- ===== src/Log/Ops.antt =====
-- The operations of a transaction: begin_op, lwrite and end_op.
use os_cpp.Base.{
  ltb, leb, ◌==◌, if◌then◌else◌, ==_iff, Bool-cases, update, update_self, update_ne, Ensures,
  Returns, ℕ, zero, suc, ◌+◌, ◌≤◌, ◌<◌, ◌≡◌, refl, ap, ◌≢◌, ◌⊎◌, inl, inr, Bool, true, false, ◌||◌,
  arith,
}
use os_cpp.Log.{log_size, Log, absorb, lwrite}
use native.Mathlib.Decide.{dec_lt}

-- The first `n` entries of the log name no block twice.
abbrev pub IsDistinct : (ℕ → ℕ) → ℕ → Type 0
IsDistinct block n = (i j : ℕ) → i < j → j < n → block i ≢ block j

absorb_bounds :
    (b : ℕ) (block : ℕ → ℕ) (i left : ℕ)
    → (i ≤ absorb b block i left) × (absorb b block i left ≤ i + left)
unfolding absorb
absorb_bounds b block i zero = omega arith
absorb_bounds b block i (suc left) = ground (arith, absorb_bounds b block (i + 1) left)

absorb_found :
    (b : ℕ) (block : ℕ → ℕ) (i left : ℕ)
    → absorb b block i left < i + left
    → block (absorb b block i left) ≡ b
unfolding absorb
absorb_found b block i zero lt = absurd (omega arith)
absorb_found b block i (suc left) lt = ground (arith, absorb_found b block (i + 1) left)

absorb_before :
    (b : ℕ) (block : ℕ → ℕ) (i left j : ℕ) → i ≤ j → j < absorb b block i left → block j ≢ b
unfolding absorb
absorb_before b block i zero j le lt = absurd (omega arith)
absorb_before b block i (suc left) j le lt = elim (dec_lt i j) [
  | yes p ↦ ground (arith, absorb_before b block (i + 1) left j)
  | no p ↦
      let here : i ≡ j = omega arith in
      ground (arith, ap block here, absorb_bounds b block (i + 1) left)
]

-- What lwrite of the block `b` does to the log: `b` is named, every block that was named still is,
-- no block is named twice, at most one entry is new, and the buffer is pinned exactly with it.
pub record Logged (b : ℕ) (l : Log) (r : Log × Bool) : Type 0 where
  pub named : (i : ℕ) × (i < r.0.n) × (r.0.block i ≡ b)
  pub kept : (i : ℕ) → i < l.n → r.0.block i ≡ l.block i
  pub distinct : IsDistinct r.0.block r.0.n
  pub pinned : r.0.n ≡ (if r.1 then l.n + 1 else l.n)
  pub others :
      (r.0.start ≡ l.start)
      × (r.0.size ≡ l.size)
      × (r.0.outstanding ≡ l.outstanding)
      × (r.0.committing ≡ l.committing)

add_block :
    (b : ℕ) (l : Log)
    → IsDistinct l.block l.n
    → absorb b l.block 0 l.n ≡ l.n
    → Logged b l (record l { block = update l.block (absorb b l.block 0 l.n) b; n = l.n + 1 }, true)
add_block b l dis e = record {
  named = (l.n, omega arith, ground arith);
  kept = λ i lt. update_ne l.block _ i b (omega arith);
  distinct = λ i j lt lt'. ground (arith, dis i j lt, absorb_before b l.block 0 l.n i);
  pinned = refl;
  others = (refl, refl, refl, refl);
}

absorb_block :
    (b : ℕ) (l : Log)
    → IsDistinct l.block l.n
    → absorb b l.block 0 l.n < l.n
    → Logged b l (record l { block = update l.block (absorb b l.block 0 l.n) b }, false)
absorb_block b l dis lt = record {
  named = (absorb b l.block 0 l.n, lt, update_self l.block (absorb b l.block 0 l.n) b);
  kept = same;
  distinct = λ i j p q. rw (same i (omega arith), same j q) (dis i j p q);
  pinned = refl;
  others = (refl, refl, refl, refl);
}
  where
    same : (i : ℕ) → i < l.n → update l.block (absorb b l.block 0 l.n) b i ≡ l.block i
    same i q = ground (arith, absorb_found b l.block 0 l.n, ap l.block)

-- Inside a transaction, with room in the log and no block in it twice, lwrite returns and logs the
-- block.
pub lwrite-Logged :
    (b : ℕ) (l : Log)
    → IsDistinct l.block l.n
    → l.n < log_size
    → l.n + 1 < l.size
    → 0 < l.outstanding
    → Returns (Logged b l) (lwrite b l)
unfolding lwrite
lwrite-Logged b l dis room fits inside =
    let small : (leb log_size l.n || leb l.size (l.n + 1)) ≡ false = ground arith in
    let busy : ltb l.outstanding 1 ≡ false = ground arith in
    rw (small, busy, Returns)
      (elim (Bool-cases (absorb b l.block 0 l.n == l.n)) [
        | inl e ↦ rw (e, Returns) (add_block b l dis ((==_iff _ _).0 e))
        | inr e ↦
            rw (e, Returns) (absorb_block b l dis (ground (arith, absorb_bounds b l.block 0 l.n)))
      ])

-- Outside a transaction, or with the log full, lwrite panics.
pub lwrite_refused :
    (b : ℕ) (l : Log)
    → (log_size ≤ l.n) ⊎ ((l.size ≤ l.n + 1) ⊎ (l.outstanding ≡ 0))
    → Ensures (λ r. ⊥) (lwrite b l)
unfolding lwrite
lwrite_refused b l bad = ground arith
