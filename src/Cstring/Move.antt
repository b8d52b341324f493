-- ===== src/Cstring/Move.antt =====
-- memset, memmove and memcpy against the block that each should leave.
use os_cpp.Base.{
  ltb, leb, ◌==◌, if◌then◌else◌, Bool-cases, update, ℕ, zero, suc, ◌+◌, ◌-◌, ◌%◌, ◌≤◌, ◌≡◌, refl,
  sym, ap, ◌∙◌, ◌≢◌, ◌⊎◌, inl, inr, Bool, true, false, ◌&&◌, ◌||◌, arith,
}
use os_cpp.Cstring.{Memory, memset_loop, memset, copy_up, copy_down, memmove, memcpy}
use native.Mathlib.Decide.{ℕ_discrete}

-- Whether an address lies in the block of `n` bytes at `d`.
abbrev pub in_block : ℕ → ℕ → ℕ → Bool
in_block d n a = leb d a && ltb a (d + n)

memset_loop_lem :
    (dest ch i left : ℕ) (m : Memory) (a : ℕ)
    → memset_loop dest ch i left m a ≡ (if in_block (dest + i) left a then ch % 256 else m a)
unfolding memset_loop
memset_loop_lem dest ch i zero m a = ground arith
memset_loop_lem dest ch i (suc left) m a =
    ground (arith, memset_loop_lem dest ch (i + 1) left (update m (dest + i) (ch % 256)) a)

-- memset fills exactly its block.
pub memset_lem :
    (dest ch count : ℕ) (m : Memory) (a : ℕ)
    → memset dest ch count m a ≡ (if in_block dest count a then ch % 256 else m a)
unfolding memset
memset_lem dest ch count m a = ground (arith, memset_loop_lem dest ch 0 count m a)

copy_up_lem :
    (d s i left : ℕ) (m : Memory) (a : ℕ)
    → (d ≤ s) ⊎ (s + (i + left) ≤ d)
    → copy_up d s i left m a ≡ (if in_block (d + i) left a then m (s + (a - d)) else m a)
unfolding copy_up
copy_up_lem d s i zero m a h = ground arith
copy_up_lem d s i (suc left) m a h =
    copy_up_lem d s (i + 1) left (update m (d + i) (m (s + i))) a (omega arith)
    ∙ (elim (ℕ_discrete (d + i) a) [
      | yes e ↦ let back : s + (a - d) ≡ s + i = omega arith in ground (arith, ap m back)
      | no ne ↦
          let apart : in_block (d + (i + 1)) left a ≡ true → d + i ≢ s + (a - d) =
            λ q. ground arith in
          ground (arith, apart)
    ])

copy_down_lem :
    (d s i : ℕ) (m : Memory) (a : ℕ)
    → s ≤ d
    → copy_down d s i m a ≡ (if in_block d i a then m (s + (a - d)) else m a)
unfolding copy_down
copy_down_lem d s zero m a h = ground arith
copy_down_lem d s (suc i) m a h =
    copy_down_lem d s i (update m (d + i) (m (s + i))) a h ∙ (elim (ℕ_discrete (d + i) a) [
      | yes e ↦ let back : s + (a - d) ≡ s + i = omega arith in ground (arith, ap m back)
      | no ne ↦
          let apart : in_block d i a ≡ true → d + i ≢ s + (a - d) = λ q. ground arith in
          ground (arith, apart)
    ])

-- memmove leaves in its block the bytes that the source held before the call, also where the blocks
-- overlap, and changes nothing outside.
pub memmove_lem :
    (d s count : ℕ) (m : Memory) (a : ℕ)
    → memmove d s count m a ≡ (if in_block d count a then m (s + (a - d)) else m a)
unfolding memmove
memmove_lem d s count m a = elim (Bool-cases (d == s || count == 0)) [
  | inl e ↦ rw e (elim (ℕ_discrete d s) [
    | yes q ↦ elim (Bool-cases (in_block d count a)) [
      | inl b ↦ let back : a ≡ s + (a - d) = ground arith in rw b (ap m back)
      | inr b ↦ rw b refl
    ]
    | no q ↦ let none_in : in_block d count a ≡ false = ground arith in rw none_in refl
  ])
  | inr e ↦ rw e (elim (Bool-cases (ltb d s)) [
    | inl q ↦ rw q (
        copy_up_lem d s 0 count m a (inl (ground arith))
        ∙ ap (λ (k : ℕ). if in_block k count a then m (s + (a - d)) else m a) (omega arith))
    | inr q ↦ rw q (copy_down_lem d s count m a (ground arith))
  ])
]

-- memcpy does the same where the destination does not start inside the source.
pub memcpy_lem :
    (d s count : ℕ) (m : Memory) (a : ℕ)
    → (d ≤ s) ⊎ (s + count ≤ d)
    → memcpy d s count m a ≡ memmove d s count m a
unfolding memcpy
memcpy_lem d s count m a h =
    copy_up_lem d s 0 count m a (omega arith)
    ∙ ap (λ (k : ℕ). if in_block k count a then m (s + (a - d)) else m a) (omega arith)
    ∙ sym (memmove_lem d s count m a)
