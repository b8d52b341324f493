-- ===== src/Fs/Inodes.antt =====
-- The table of inodes holds each inode once.
use os_cpp.Base.{
  ◌==◌, Bool-cases, update, ok, Ensures, ℕ, zero, suc, ◌+◌, ◌≤◌, ◌<◌, ◌≡◌, refl, sym, ap, ◌∙◌, ◌≢◌,
  inl, inr, false, Option, none, some, arith,
}
use os_cpp.Fs.{Inode, Itable, ninode, is_inode, or_slot, recycle, iget_loop, iget}
use native.Mathlib.Decide.{ℕ_discrete}

abbrev pub Same : Inode → Inode → Type 0
Same p q = (p.dev ≡ q.dev) × (p.inum ≡ q.inum)

-- No two slots in use stand for the same inode.
abbrev pub Single : Itable → Type 0
Single t =
    (i j : ℕ) → i < ninode → j < ninode → 0 < (t i).ref → 0 < (t j).ref → Same (t i) (t j) → i ≡ j

-- The slot stands for the inode and is in use.
abbrev pub Holds : ℕ → ℕ → ℕ → Itable → Type 0
Holds dev inum i t = (i < ninode) × (0 < (t i).ref) × ((t i).dev ≡ dev) × ((t i).inum ≡ inum)

abbrev pub Got : ℕ → ℕ → ℕ × Itable → Type 0
Got dev inum r = Single r.1 × Holds dev inum r.0 r.1

-- What the loop of iget keeps of the slot for a new inode.
abbrev pub IsEmpty : Itable → Option ℕ → Type 0
IsEmpty t none = Unit
IsEmpty t (some k) = (k < ninode) × ((t k).ref ≡ 0)

more_refs :
    (t : Itable) (i : ℕ)
    → 0 < (t i).ref
    → Single t
    → Single (update t i (record (t i) { ref = (t i).ref + 1 }))
more_refs t i used single a b la lb ra rb same = elim (ℕ_discrete i a) [
  | yes p ↦ elim (ℕ_discrete i b) [
    | yes q ↦ sym p ∙ q
    | no q ↦ sym p ∙ single i b (rw p la) lb used (ground arith) (ground arith)
  ]
  | no p ↦ elim (ℕ_discrete i b) [
    | yes q ↦ single a i la (rw q lb) (ground arith) used (ground arith) ∙ q
    | no q ↦ single a b la lb (ground arith) (ground arith) (ground arith)
  ]
]

new_slot :
    (dev inum k : ℕ) (t : Itable)
    → Single t
    → ((j : ℕ) → j < ninode → is_inode dev inum (t j) ≡ false)
    → Single (update t k (record { dev = dev; inum = inum; ref = 1; valid = false }))
new_slot dev inum k t single absent a b la lb ra rb same = elim (ℕ_discrete k a) [
  | yes p ↦ elim (ℕ_discrete k b) [
    | yes q ↦ sym p ∙ q
    | no q ↦ absurd (ground (arith, absent b lb))
  ]
  | no p ↦ elim (ℕ_discrete k b) [
    | yes q ↦ absurd (ground (arith, absent a la))
    | no q ↦ single a b la lb (ground arith) (ground arith) (ground arith)
  ]
]

iget_loop-Got :
    (dev inum i left : ℕ) (spare : Option ℕ) (t : Itable)
    → i + left ≡ ninode
    → Single t
    → ((j : ℕ) → j < i → is_inode dev inum (t j) ≡ false)
    → IsEmpty t spare
    → Ensures (Got dev inum) (iget_loop dev inum i left spare t)
unfolding iget_loop recycle
iget_loop-Got dev inum i zero none t e single absent empty = tt
iget_loop-Got dev inum i zero (some k) t e single absent empty = (
  new_slot dev inum k t single (λ j lt. absent j (omega arith)),
  (empty.0, ground arith, ground arith, ground arith),
)
iget_loop-Got dev inum i (suc left) spare t e single absent empty =
    elim (Bool-cases (is_inode dev inum (t i))) [
      | inl hit ↦
          rw (iget_loop, hit, Ensures)
            (
              more_refs t i (ground arith) single,
              (omega arith, ground arith, ground arith, ground arith),
            )
      | inr miss ↦
          rw (iget_loop, miss)
            (iget_loop-Got dev inum (i + 1) left (or_slot spare i (t i)) t (omega arith) single
              (λ j lt. elim (ℕ_discrete j i) [ yes q ↦ rw q miss | no ne ↦ absent j (omega arith) ])
              (or_slot-IsEmpty spare i t (omega arith) empty))
    ]
  where
    or_slot-IsEmpty :
        (spare : Option ℕ) (i : ℕ) (t : Itable)
        → i < ninode
        → IsEmpty t spare
        → IsEmpty t (or_slot spare i (t i))
    or_slot-IsEmpty (some k) i t lt h = h
    or_slot-IsEmpty none i t lt h = elim (Bool-cases ((t i).ref == 0)) [
      | inl q ↦ rw q (lt, ground arith)
      | inr q ↦ rw q tt
    ]

iget_loop_hit :
    (dev inum i left k : ℕ) (spare : Option ℕ) (t : Itable)
    → i + left ≡ ninode
    → i ≤ k
    → Single t
    → Holds dev inum k t
    → iget_loop dev inum i left spare t ≡ ok (k, update t k (record (t k) { ref = (t k).ref + 1 }))
unfolding iget_loop
iget_loop_hit dev inum i zero k spare t e le single (lt, used, d, m) = absurd (omega arith)
iget_loop_hit dev inum i (suc left) k spare t e le single (lt, used, d, m) =
    elim (Bool-cases (is_inode dev inum (t i))) [
      | inl hit ↦
          let here : i ≡ k =
            single i k (omega arith) lt (ground arith) used (ground arith, ground arith) in
          rw (iget_loop, hit)
            (ap (λ n. ok (n, update t n (record (t n) { ref = (t n).ref + 1 }))) here)
      | inr miss ↦
          let other : i ≢ k = λ q. ground arith in
          rw (iget_loop, miss)
            (iget_loop_hit dev inum (i + 1) left k (or_slot spare i (t i)) t (omega arith)
              (omega arith) single (lt, used, d, m))
    ]

-- In a table that holds each inode once, an iget that returns gives a slot in use that stands for the inode, and
-- the table holds each inode once again. If a slot stands for the inode already, the result is that
-- slot, with one reference more.
pub iget_lem :
    (dev inum : ℕ) (t : Itable)
    → Single t
    → Ensures (Got dev inum) (iget dev inum t)
      × ((k : ℕ)
          → Holds dev inum k t
          → iget dev inum t ≡ ok (k, update t k (record (t k) { ref = (t k).ref + 1 })))
unfolding iget
iget_lem dev inum t single = (
  iget_loop-Got dev inum 0 ninode none t refl single (λ j lt. absurd (omega arith)) tt,
  λ k holds. iget_loop_hit dev inum 0 ninode k none t refl (omega arith) single holds,
)
