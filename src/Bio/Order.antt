-- ===== src/Bio/Order.antt =====
-- Which buffer bget recycles, and how many buffers hold a block.
use os_cpp.Base.{
  ◌==◌, if◌then◌else◌, Bool-cases, Option-cases, get_elem?, set, ok, ◌>>=◌, Ensures, Returns, ℕ,
  zero, suc, ◌+◌, ◌≤◌, ◌≡◌, refl, ap, ◌∙◌, inl, inr, Bool, true, false, not, ◌&&◌, Option, none,
  some, List, [], ◌∷◌, arith,
}
use os_cpp.Bio.{
  Block, Buf, Cache, holds_block, is_free, one_further, find_buf, is_owner, lock_buf, bget,
  remove_at, has_id, fewer, brelse,
}
use mathlib.Core.Path.{ap₂}

-- What a search has found stands at its position and passes the test.
pub find_buf_lem :
    (test : Buf → Bool) (bs : List Buf) (i : ℕ) (b : Buf)
    → find_buf test bs ≡ some (i, b)
    → (get_elem? bs i ≡ some b) × (test b ≡ true)
unfolding find_buf
find_buf_lem test [] i b e = cc
find_buf_lem test (x ∷ bs) i b e = elim (Bool-cases (test x)) [
  | inl q ↦ here i (rw q at e) q
  | inr q ↦ further (find_buf test bs) (λ j c. find_buf_lem test bs j c) i (rw q at e)
]
  where
    here :
        (j : ℕ)
        → ◌≡◌ {A = Option (ℕ × Buf)} (some (0, x)) (some (j, b))
        → test x ≡ true
        → (get_elem? (x ∷ bs) j ≡ some b) × (test b ≡ true)
    here zero f q = ground arith
    here (suc j) f q = ground arith

    further :
        (o : Option (ℕ × Buf))
        → ((j : ℕ) (c : Buf) → o ≡ some (j, c) → (get_elem? bs j ≡ some c) × (test c ≡ true))
        → (j : ℕ) → one_further o ≡ some (j, b)
        → (get_elem? (x ∷ bs) j ≡ some b) × (test b ≡ true)
    further none h j f = cc
    further (some (l, c)) h zero f = ground arith
    further (some (l, c)) h (suc j) f = h j b (ground arith)

brelse_last :
    (me k i : ℕ) (b : Buf) (c : Cache)
    → find_buf (has_id k) c.bufs ≡ some (i, b)
    → b.owner ≡ some me
    → b.refcnt ≡ 1
    → brelse me k c
      ≡ ok (record c { bufs = record b { owner = none; refcnt = 0 } ∷ remove_at i c.bufs })
unfolding brelse
brelse_last me k i b c e own one =
    let mine : not (is_owner me b) ≡ false = ground arith in
    let gone : fewer b.refcnt ≡ 0 = ap fewer one in rw (e, brelse) (rw mine (rw gone refl))

bget_front :
    (me dev blockno : ℕ) (b : Buf) (bs : List Buf) (disk : ℕ → ℕ → Block)
    → b.owner ≡ none
    → b.refcnt ≡ 0
    → find_buf (holds_block dev blockno) (b ∷ bs) ≡ none
    → Returns
        (λ (r : ℕ × Buf × Cache).
          (r.1.id ≡ b.id) × (r.1.dev ≡ dev) × (r.1.blockno ≡ blockno) × (r.1.owner ≡ some me))
        (bget me dev blockno (record { bufs = b ∷ bs; disk = disk }))
unfolding bget lock_buf
bget_front me dev blockno b bs disk own free_buf miss =
    let found : find_buf is_free (b ∷ bs) ≡ some (0, b) = unfold find_buf in ground arith in
    rw (miss, bget, Returns) (rw (found, Returns) (rw (own, Returns) (refl, refl, refl, refl)))

-- A buffer released by its only user is the next one to be recycled: bget of a block that is then not
-- cached takes it, whatever free buffers have been unused for longer.
pub bget_recycles_released :
    (me you k i dev blockno : ℕ) (b : Buf) (c : Cache)
    → find_buf (has_id k) c.bufs ≡ some (i, b)
    → b.owner ≡ some me
    → b.refcnt ≡ 1
    → find_buf
        (holds_block dev blockno)
        (record b { owner = none; refcnt = 0 } ∷ remove_at i c.bufs)
      ≡ none
    → Returns
        (λ (r : ℕ × Buf × Cache).
          (r.1.id ≡ b.id) × (r.1.dev ≡ dev) × (r.1.blockno ≡ blockno) × (r.1.owner ≡ some you))
        (brelse me k c >>= bget you dev blockno)
bget_recycles_released me you k i dev blockno b c e own one absent_block =
    rw (brelse_last me k i b c e own one, Returns)
      (bget_front you dev blockno (record b { owner = none; refcnt = 0 }) (remove_at i c.bufs)
        c.disk refl refl absent_block)

-- How many buffers hold a block.
abbrev pub copies : ℕ → ℕ → List Buf → ℕ
copies dev blockno [] = 0
copies dev blockno (b ∷ bs) =
    if holds_block dev blockno b then suc (copies dev blockno bs) else copies dev blockno bs

copies-set :
    (dev blockno i : ℕ) (b b' : Buf) (bs : List Buf)
    → get_elem? bs i ≡ some b
    → copies dev blockno (set bs i b') + (if holds_block dev blockno b then 1 else 0)
      ≡ copies dev blockno bs + (if holds_block dev blockno b' then 1 else 0)
copies-set dev blockno i b b' [] e = cc
copies-set dev blockno zero b b' (x ∷ bs) e = ground arith
copies-set dev blockno (suc i) b b' (x ∷ bs) e = ground (arith, copies-set dev blockno i b b' bs e)

copies_absent :
    (dev blockno : ℕ) (bs : List Buf)
    → find_buf (holds_block dev blockno) bs ≡ none
    → copies dev blockno bs ≡ 0
unfolding find_buf
copies_absent dev blockno [] e = refl
copies_absent dev blockno (x ∷ bs) e = elim (Bool-cases (holds_block dev blockno x)) [
  | inl q ↦ absurd (none_some (rw q at e))
  | inr q ↦
      rw q (copies_absent dev blockno bs (rest (find_buf (holds_block dev blockno) bs) (rw q at e)))
]
  where
    none_some : ◌≡◌ {A = Option (ℕ × Buf)} (some (0, x)) none → ⊥
    none_some f = cc

    rest : (o : Option (ℕ × Buf)) → one_further o ≡ none → o ≡ none
    rest none f = refl
    rest (some p) f = cc

lock_buf-copies :
    (me d blockno i : ℕ) (b b' : Buf) (c : Cache)
    → get_elem? c.bufs i ≡ some b
    → copies d blockno c.bufs + (if holds_block d blockno b' then 1 else 0)
      ≤ 1 + (if holds_block d blockno b then 1 else 0)
    → Ensures (λ (r : ℕ × Buf × Cache). copies d blockno r.2.bufs ≤ 1) (lock_buf me i b' c)
unfolding lock_buf
lock_buf-copies me d blockno i b b' c e small = elim (Option-cases b'.owner) [
  | inl q ↦
      rw (q, Ensures)
        (omega (arith, small, copies-set d blockno i b (record b' { owner = some me }) c.bufs e))
  | inr (p, q) ↦ rw (q, Ensures) tt
]

-- A bget that returns has made no second copy of a block: a block that at most one buffer held is
-- held by at most one afterwards, the requested block and all others.
pub bget-copies :
    (me dev blockno d bn : ℕ) (c : Cache)
    → copies d bn c.bufs ≤ 1
    → Ensures (λ (r : ℕ × Buf × Cache). copies d bn r.2.bufs ≤ 1) (bget me dev blockno c)
unfolding bget
bget-copies me dev blockno d bn c one =
    elim (Option-cases (find_buf (holds_block dev blockno) c.bufs)) [
      | inr ((i, b), e) ↦
          rw (e, bget, Ensures)
            (lock_buf-copies me d bn i b _ c (find_buf_lem _ c.bufs i b e).0 (omega arith))
      | inl e ↦ elim (Option-cases (find_buf is_free c.bufs)) [
        | inl f ↦ rw (e, bget, Ensures) (rw (f, Ensures) tt)
        | inr ((i, b), f) ↦
            rw (e, bget, Ensures)
              (rw (f, Ensures)
                (lock_buf-copies me d bn i b _ c (find_buf_lem _ c.bufs i b f).0
                  (recycled d bn dev blockno c.bufs b one (copies_absent dev blockno c.bufs e))))
      ]
    ]
  where
    recycled :
        (d bn dev blockno : ℕ) (bs : List Buf) (b : Buf)
        → copies d bn bs ≤ 1
        → copies dev blockno bs ≡ 0
        → copies d bn bs + (if dev == d && blockno == bn then 1 else 0)
          ≤ 1 + (if holds_block d bn b then 1 else 0)
    recycled d bn dev blockno bs b le none_yet = elim (Bool-cases (dev == d && blockno == bn)) [
      | inl q ↦
          let same : copies d bn bs ≡ 0 =
            ap₂ (λ x y. copies x y bs) (ground arith) (ground arith) ∙ none_yet in
          rw q (omega arith)
      | inr q ↦ rw q (omega arith)
    ]
