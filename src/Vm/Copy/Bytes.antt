-- ===== src/Vm/Copy/Bytes.antt =====
-- What the copies between a process and the kernel move.
use os_cpp.Base.{
  ltb, leb, ◌==◌, if◌then◌else◌, le→ltb_false, ==_iff, Bool-cases, Returns, Returns-mono, ℕ, zero,
  suc, ◌+◌, ◌-◌, ◌*◌, ◌/◌, ◌%◌, ◌^◌, ◌≤◌, ◌<◌, ◌≡◌, refl, sym, ap, ◌∙◌, subst, ◌≢◌, ◌⊎◌, inl, inr,
  Bool, true, false, ◌&&◌, none, some, arith,
}
use os_cpp.Arch.{pgsize, pg_round_down, pte2pa, px, va_max}
use os_cpp.Arch.Pages.{pg_round_down_low}
use os_cpp.Vm.{Mem, has_v, has_u, walk_from}
use os_cpp.Vm.Leaf.{px_page}
use os_cpp.Vm.Copy.{sub64, walkaddr, chunk, take_bytes, copyin_loop, copyin}
use native.Mathlib.Decide.{dec_lt}

-- A walk looks at the page of the address only.
walk_from_page :
    (l pt va va' : ℕ) (s : Mem)
    → l < 3
    → va / pgsize ≡ va' / pgsize
    → (walk_from l pt va false s).0 ≡ (walk_from l pt va' false s).0
unfolding walk_from
walk_from_page zero pt va va' s lt e = ap (λ i. some (pt + 8 * i)) (px_page 0 va va' lt e)
walk_from_page (suc l) pt va va' s lt e =
    let same : px (suc l) va ≡ px (suc l) va' = px_page (suc l) va va' lt e in
    elim (Bool-cases (has_v (s.word (pt + 8 * px (suc l) va')))) [
      | inl v ↦
          rw (walk_from, same, v)
            (ap (λ i. (walk_from l (pte2pa (s.word (pt + 8 * i))) va false s).0) same
              ∙ walk_from_page l (pte2pa (s.word (pt + 8 * px (suc l) va'))) va va' s (omega arith)
                  e)
      | inr v ↦ rw (walk_from, same, v) refl
    ]

walkaddr_page :
    (pt va va' : ℕ) (s : Mem)
    → va ≤ va_max
    → va' ≤ va_max
    → va / pgsize ≡ va' / pgsize
    → walkaddr pt va s ≡ walkaddr pt va' s
unfolding walkaddr
walkaddr_page pt va va' s le le' e =
    rw (le→ltb_false va_max va le, le→ltb_false va_max va' le')
      (ap
        (λ o. elim o [
          | none ↦ 0
          | some a ↦ if has_v (s.word a) && has_u (s.word a) then pte2pa (s.word a) else 0
        ])
        (walk_from_page 2 pt va va' s (omega arith) e))

-- The parts of a copy's round: where the page starts, how far into it, how many bytes.
pub record IsRound (va len va0 n : ℕ) : Type 0 where
  pub offset : sub64 va va0 ≡ va % pgsize
  pub some_bytes : 0 < n
  pub few : n ≤ len
  pub in_page : va % pgsize + n ≤ pgsize
  pub next : n < len → va0 + pgsize ≡ va + n
  pub low : va0 + pgsize ≤ 2 ^ 32
  pub page : va0 / pgsize ≡ va / pgsize

round_lem :
    (va len : ℕ)
    → va + len ≤ 2 ^ 32
    → 0 < len
    → IsRound va len (pg_round_down va) (chunk va (pg_round_down va) len)
unfolding chunk
round_lem va len low some_len =
    let (al, le, lt) = pg_round_down_low va (omega arith) in
    let va0 : ℕ = pg_round_down va in
    let off : sub64 va va0 ≡ va % pgsize = omega (arith, al, le, lt) in
    let left : sub64 pgsize (sub64 va va0) ≡ pgsize - va % pgsize = omega (arith, al, le, lt) in
    record {
      offset = off;
      some_bytes = ground (arith, left);
      few = ground (arith, left);
      in_page = ground (arith, left);
      next = λ more. ground (arith, left, al, le, lt, more);
      low = omega (arith, al, le, lt);
      page = omega (arith, al, le, lt);
    }

-- What a copy of `len` bytes from the process at `va` makes of the array, from `k` on: if it
-- succeeds, each byte of the range can be read and stands in the array, and the other elements are as
-- before; if not, a byte of the range cannot be read.
pub record Copied (pt va len k : ℕ) (dst : ℕ → ℕ) (s : Mem) (r : Bool × (ℕ → ℕ)) : Type 0 where
  pub mapped : (j : ℕ) → r.0 ≡ true → j < len → walkaddr pt (va + j) s ≢ 0
  pub bytes :
      (j : ℕ)
      → r.0 ≡ true
      → j < len
      → r.1 (k + j) ≡ s.byte (walkaddr pt (va + j) s + (va + j) % pgsize)
  pub others : (i : ℕ) → r.0 ≡ true → (i < k) ⊎ (k + len ≤ i) → r.1 i ≡ dst i
  pub fails : r.0 ≡ false → (j : ℕ) × (j < len) × (walkaddr pt (va + j) s ≡ 0)

-- The bytes of one round are read from its page.
same_walk :
    (pt va va0 len n j : ℕ) (s : Mem)
    → va + len ≤ 2 ^ 32
    → IsRound va len va0 n
    → j < n
    → (walkaddr pt (va + j) s ≡ walkaddr pt va0 s) × ((va + j) % pgsize ≡ va % pgsize + j)
same_walk pt va va0 len n j s low h lt = (
  walkaddr_page pt (va + j) va0 s (omega (arith, h.few)) (omega (arith, h.low))
      (omega (arith, h.page, h.in_page)),
  omega (arith, h.in_page),
)

Copied-round :
    (pt va len k va0 n : ℕ) (dst : ℕ → ℕ) (s : Mem) (r : Bool × (ℕ → ℕ))
    → va + len ≤ 2 ^ 32
    → IsRound va len va0 n
    → walkaddr pt va0 s ≢ 0
    → Copied pt
        (va0 + pgsize)
        (len - n)
        (k + n)
        (take_bytes k (walkaddr pt va0 s + va % pgsize) n s dst)
        s
        r
    → Copied pt va len k dst s r
Copied-round pt va len k va0 n dst s r low h there c = record {
  mapped = λ j e lt. elim (dec_lt j n) [
    | yes p ↦ λ q. there (sym (same_walk pt va va0 len n j s low h p).0 ∙ q)
    | no np ↦ subst (λ a. walkaddr pt a s ≢ 0) (later j np lt) (c.mapped (j - n) e (omega arith))
  ];
  bytes = λ j e lt. elim (dec_lt j n) [
    | yes p ↦ c.others (k + j) e (inl (omega arith)) ∙ from_page j p
    | no np ↦
        let at : k + n + (j - n) ≡ k + j = omega arith in
        subst (λ i. r.1 i ≡ s.byte (walkaddr pt (va + j) s + (va + j) % pgsize)) at
          (subst (λ a. r.1 (k + n + (j - n)) ≡ s.byte (walkaddr pt a s + a % pgsize))
            (later j np lt) (c.bytes (j - n) e (omega arith)))
  ];
  others = λ i e out. before i e out ∙ untouched i out;
  fails = λ e.
      let (j, lt, q) = c.fails e in
      let there' : va0 + pgsize + j ≡ va + (n + j) = omega (arith, h.next (omega (arith, lt))) in
      (n + j, omega (arith, lt), subst (λ a. walkaddr pt a s ≡ 0) there' q);
}
  where
    page : ℕ
    page = walkaddr pt va0 s + va % pgsize

    later : (j : ℕ) → ¬ (j < n) → j < len → va0 + pgsize + (j - n) ≡ va + j
    later j np lt = omega (arith, h.next (omega arith))

    from_page :
        (j : ℕ)
        → j < n
        → take_bytes k (walkaddr pt va0 s + va % pgsize) n s dst (k + j)
          ≡ s.byte (walkaddr pt (va + j) s + (va + j) % pgsize)
    from_page j lt =
        let (addr, off) = same_walk pt va va0 len n j s low h lt in
        let inside : (leb k (k + j) && ltb (k + j) (k + n)) ≡ true = ground arith in
        rw inside (ap s.byte (omega (arith, addr, off)))

    before :
        (i : ℕ)
        → r.0 ≡ true
        → (i < k) ⊎ (k + len ≤ i)
        → r.1 i ≡ take_bytes k (walkaddr pt va0 s + va % pgsize) n s dst i
    before i e (inl lt) = c.others i e (inl (omega arith))
    before i e (inr le) = c.others i e (inr (omega (arith, h.few)))

    untouched :
        (i : ℕ)
        → (i < k) ⊎ (k + len ≤ i)
        → take_bytes k (walkaddr pt va0 s + va % pgsize) n s dst i ≡ dst i
    untouched i out =
        let outside_block : (leb k i && ltb i (k + n)) ≡ false = ground (arith, h.few, out) in
        rw outside_block refl

Copied-none :
    (pt va len k : ℕ) (dst : ℕ → ℕ) (s : Mem) → len ≡ 0 → Copied pt va len k dst s (true, dst)
Copied-none pt va len k dst s e = record {
  mapped = λ j t lt. absurd (omega arith);
  bytes = λ j t lt. absurd (omega arith);
  others = λ i t out. refl;
  fails = λ t. absurd (ground (arith, t));
}

copyin_loop-Copied :
    (fuel pt va len k : ℕ) (dst : ℕ → ℕ) (s : Mem)
    → va + len ≤ 2 ^ 32
    → len ≤ fuel
    → Returns (Copied pt va len k dst s) (copyin_loop fuel pt va len k dst s)
unfolding copyin_loop
copyin_loop-Copied zero pt va len k dst s low enough =
    let none_left : (len == 0) ≡ true = ground arith in
    rw (copyin_loop, none_left) (Copied-none pt va len k dst s (omega arith))
copyin_loop-Copied (suc fuel) pt va len k dst s low enough = elim (Bool-cases (len == 0)) [
  | inl none_left ↦
      rw (copyin_loop, none_left) (Copied-none pt va len k dst s (ground (arith, none_left)))
  | inr some_left ↦
      let va0 : ℕ = pg_round_down va in
      let n : ℕ = chunk va va0 len in
      let h : IsRound va len va0 n = round_lem va len low (ground (arith, some_left)) in
      let wrap : (va0 + pgsize) % 2 ^ 64 ≡ va0 + pgsize = omega (arith, h.low) in
      let fits : va0 + pgsize + (len - n) ≤ 2 ^ 32 = elim (dec_lt n len) [
        | yes p ↦ omega (arith, h.next p)
        | no p ↦ omega (arith, h.low)
      ] in
      elim (Bool-cases (walkaddr pt va0 s == 0)) [
        | inl q ↦
            rw (copyin_loop, some_left, q)
              (record {
                mapped = λ j e lt. absurd (ground (arith, e));
                bytes = λ j e lt. absurd (ground (arith, e));
                others = λ i e out. absurd (ground (arith, e));
                fails = λ e. (
                  0,
                  omega (arith, h.some_bytes, h.few),
                  (same_walk pt va va0 len n 0 s low h h.some_bytes).0 ∙ (==_iff _ _).0 q,
                );
              })
        | inr q ↦
            rw (copyin_loop, some_left, q, wrap, h.offset)
              (Returns-mono
                (Copied pt (va0 + pgsize) (len - n) (k + n)
                  (take_bytes k (walkaddr pt va0 s + va % pgsize) n s dst) s)
                (Copied pt va len k dst s) _
                (λ r c. Copied-round pt va len k va0 n dst s r low h (ground (arith, q)) c)
                (copyin_loop-Copied fuel pt (va0 + pgsize) (len - n) (k + n)
                  (take_bytes k (walkaddr pt va0 s + va % pgsize) n s dst) s fits
                  (omega (arith, enough, h.some_bytes))))
      ]
]

-- A range below 4 GiB. copyin returns: true exactly if each of its pages may be read by the process,
-- and then each byte of the range stands in the kernel's array, which is otherwise as it was. Its
-- loop makes a round for each byte at most.
pub copyin-Copied :
    (pt va len : ℕ) (dst : ℕ → ℕ) (s : Mem)
    → va + len ≤ 2 ^ 32
    → Returns (Copied pt va len 0 dst s) (copyin pt dst va len s)
unfolding copyin
copyin-Copied pt va len dst s low = copyin_loop-Copied len pt va len 0 dst s low (omega arith)
