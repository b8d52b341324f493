-- ===== src/Virtio/Descs.antt =====
-- Descriptors are given out once and come back.
use os_cpp.Base.{
  leb, Bool-cases, update, update_ne, ok, Returns, ℕ, zero, suc, ◌+◌, ◌<◌, ◌≡◌, refl, ap, ◌∙◌, ◌≢◌,
  inl, inr, Bool, true, false, Option, none, some, arith,
}
use os_cpp.Virtio.{
  num, Disk, zero_desc, alloc_loop, alloc_desc, free_desc, Triple, third_desc, second_desc,
  alloc3_desc,
}
use native.Mathlib.Decide.{ℕ_discrete}

-- The descriptor is no longer free, and the others are as before.
abbrev pub Taken : Disk → Option (ℕ × Disk) → Type 0
Taken d none = (i : ℕ) → i < num → d.free i ≡ false
Taken d (some r) =
    (r.0 < num) × (d.free r.0 ≡ true) × (r.1.free ≡ update d.free r.0 false) × (r.1.desc ≡ d.desc)

alloc_loop-Taken :
    (i left : ℕ) (d : Disk)
    → i + left ≡ num
    → ((j : ℕ) → j < i → d.free j ≡ false)
    → Taken d (alloc_loop i left d)
unfolding alloc_loop
alloc_loop-Taken i zero d e before = λ j lt. before j (omega arith)
alloc_loop-Taken i (suc left) d e before = elim (Bool-cases (d.free i)) [
  | inl q ↦ rw (alloc_loop, q) (omega arith, q, refl, refl)
  | inr q ↦
      rw (alloc_loop, q)
        (alloc_loop-Taken (i + 1) left d (omega arith)
          (λ j lt. elim (ℕ_discrete j i) [ yes p ↦ rw p q | no ne ↦ before j (omega arith) ]))
]

alloc_desc-Taken : (d : Disk) → Taken d (alloc_desc d)
unfolding alloc_desc
alloc_desc-Taken d = alloc_loop-Taken 0 num d refl (λ j lt. absurd (omega arith))

-- The free descriptors once a request has its three.
abbrev pub without : Triple → (ℕ → Bool) → ℕ → Bool
without (i, j, k) free = update (update (update free i false) j false) k false

-- Three different descriptors that were free are given out, or none is.
abbrev pub Given : Disk → Option Triple × Disk → Type 0
Given d (none, d') = (n : ℕ) → d'.free n ≡ d.free n
Given d (some (i, j, k), d') =
    ((i < num) × (j < num) × (k < num))
    × ((d.free i ≡ true) × (d.free j ≡ true) × (d.free k ≡ true))
    × ((i ≢ j) × (i ≢ k) × (j ≢ k))
    × ((n : ℕ) → d'.free n ≡ without (i, j, k) d.free n)

pub free_desc_lem :
    (i : ℕ) (d : Disk)
    → i < num
    → d.free i ≡ false
    → free_desc i d
      ≡ ok (record d { desc = update d.desc i zero_desc; free = update d.free i true })
unfolding free_desc
free_desc_lem i d lt q = let low : leb num i ≡ false = ground arith in rw (free_desc, low, q) refl

third-Given :
    (d d1 : Disk) (i j : ℕ) (o : Option (ℕ × Disk))
    → i < num
    → j < num
    → i ≢ j
    → d.free i ≡ true
    → d.free j ≡ true
    → ((n : ℕ) → d1.free n ≡ update (update d.free i false) j false n)
    → Taken d1 o
    → Returns (Given d) (third_desc i j d1 o)
unfolding third_desc
third-Given d d1 i j none li lj ne fi fj e all_taken =
    let ti : d1.free i ≡ false = all_taken i li in
    let tj : update d1.free i true j ≡ false = update_ne d1.free i j true ne ∙ all_taken j lj in
    rw (third_desc, free_desc_lem i d1 li ti)
      (rw
        (free_desc_lem j
          (record d1 { desc = update d1.desc i zero_desc; free = update d1.free i true }) lj tj)
        (λ n. elim (ℕ_discrete j n) [
          | yes p ↦ ground (arith, fj, ap d.free p)
          | no p ↦ elim (ℕ_discrete i n) [
            | yes q ↦ ground (arith, fi, ap d.free q)
            | no q ↦ ground (arith, e n)
          ]
        ]))
third-Given d d1 i j (some (k, d2)) li lj ne fi fj e (lk, fk, free_eq, desc_eq) =
    let ik : i ≢ k = λ q. ground (arith, e k, fk, q) in
    let jk : j ≢ k = λ q. ground (arith, e k, fk, q) in
    (
      (li, lj, lk),
      (fi, fj, ground (arith, e k, fk, ik, jk)),
      (ne, ik, jk),
      λ n.
          ap (λ f. f n) free_eq
          ∙ elim (ℕ_discrete k n) [ yes p ↦ ground arith | no p ↦ ground (arith, e n) ],
    )

second-Given :
    (d d0 : Disk) (i : ℕ) (o : Option (ℕ × Disk))
    → i < num
    → d.free i ≡ true
    → ((n : ℕ) → d0.free n ≡ update d.free i false n)
    → Taken d0 o
    → Returns (Given d) (second_desc i d0 o)
unfolding second_desc
second-Given d d0 i none li fi e all_taken =
    rw (second_desc, free_desc_lem i d0 li (all_taken i li))
      (λ n. elim (ℕ_discrete i n) [
        | yes q ↦ ground (arith, fi, ap d.free q)
        | no q ↦ ground (arith, e n)
      ])
second-Given d d0 i (some (j, d1)) li fi e (lj, fj, free_eq, desc_eq) =
    let ij : i ≢ j = λ q. ground (arith, e j, fj, q) in
    third-Given d d1 i j (alloc_desc d1) li lj ij fi (ground (arith, e j, fj, ij))
      (λ n.
        ap (λ f. f n) free_eq
        ∙ elim (ℕ_discrete j n) [ yes p ↦ ground arith | no p ↦ ground (arith, e n) ])
      (alloc_desc-Taken d1)

-- alloc3_desc gives three different descriptors that were free and are no longer, or leaves the free
-- descriptors as they were; the panics of free_desc are not reached.
pub alloc3_desc-Given : (d : Disk) → Returns (Given d) (alloc3_desc d)
unfolding alloc3_desc
alloc3_desc-Given d = go (alloc_desc d) (alloc_desc-Taken d)
  where
    go :
        (o : Option (ℕ × Disk))
        → Taken d o
        → Returns
            (Given d)
            (elim o [ none ↦ ok (none, d) | some (i, d') ↦ second_desc i d' (alloc_desc d') ])
    go none all_taken = λ n. refl
    go (some (i, d')) (li, fi, free_eq, desc_eq) =
        second-Given d d' i (alloc_desc d') li fi (λ n. ap (λ f. f n) free_eq) (alloc_desc-Taken d')
