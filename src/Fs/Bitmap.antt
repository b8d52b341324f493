-- ===== src/Fs/Bitmap.antt =====
-- The block that `balloc` takes, and what `bfree` tests.
use os_cpp.Base.{
  ltb, ltb→lt, lt→ltb, Bool-cases, ℕ, zero, suc, ◌+◌, ◌-◌, ◌*◌, ◌/◌, ◌%◌, ◌≤◌, ◌<◌, ◌≡◌, refl, sym,
  ap, ◌∙◌, inl, inr, true, false, none, some, arith,
}
use os_cpp.Fs.{
  bpb, Superblock, Disk, bblock, set_bit, get_bit, bzero, find_bit, balloc_loop, balloc,
}
use native.Mathlib.Decide.{dec_lt, ℕ_discrete}
use mathlib.Core.Path.{ap₂}

-- A block number whose bit in the map is set.
abbrev pub Taken : Superblock → Disk → ℕ → Type 0
Taken sb d b = get_bit d (bblock sb b) (b % bpb) ≡ true

find_bit_hit :
    (sb : Superblock) (b bi left k : ℕ) (d : Disk)
    → bi ≤ k
    → k < bi + left
    → b + k < sb.size
    → get_bit d (bblock sb b) k ≡ false
    → ((j : ℕ) → bi ≤ j → j < k → get_bit d (bblock sb b) j ≡ true)
    → find_bit sb b bi left d ≡ some k
unfolding find_bit
find_bit_hit sb b bi zero k d le lt size clear before = absurd (omega arith)
find_bit_hit sb b bi (suc left) k d le lt size clear before =
    rw (find_bit, lt→ltb (b + bi) sb.size (omega arith))
      (elim (ℕ_discrete bi k) [
        | yes here ↦ rw (ap (λ m. get_bit d (bblock sb b) m) here ∙ clear) (ap some here)
        | no ne ↦ rw (before bi (omega arith) (omega arith)) (
            find_bit_hit sb b (bi + 1) left k d (omega arith) (omega arith) size clear
              (λ j le' lt'. before j (omega arith) lt'))
      ])

find_bit_miss :
    (sb : Superblock) (b bi left : ℕ) (d : Disk)
    → ((j : ℕ) → bi ≤ j → j < bi + left → b + j < sb.size → get_bit d (bblock sb b) j ≡ true)
    → find_bit sb b bi left d ≡ none
unfolding find_bit
find_bit_miss sb b bi zero d set_bits = refl
find_bit_miss sb b bi (suc left) d set_bits = elim (Bool-cases (ltb (b + bi) sb.size)) [
  | inr out ↦ rw (find_bit, out) refl
  | inl inside ↦
      rw
        (find_bit, inside, set_bits bi (omega arith) (omega arith) (ltb→lt (b + bi) sb.size inside))
        (find_bit_miss sb b (bi + 1) left d
          (λ j le lt size. set_bits j (omega arith) (omega arith) size))
]

-- The place of a block number in the block of the map that starts at a multiple of BPB.
same_block : (sb : Superblock) (q j : ℕ) → j < bpb → bblock sb (q * bpb + j) ≡ bblock sb (q * bpb)
same_block sb q j lt = omega arith

same_place : (q j : ℕ) → j < bpb → (q * bpb + j) % bpb ≡ j
same_place q j lt = omega arith

Taken-bit :
    (sb : Superblock) (d : Disk) (q j : ℕ)
    → j < bpb
    → Taken sb d (q * bpb + j)
    → get_bit d (bblock sb (q * bpb)) j ≡ true
Taken-bit sb d q j lt h = sym (ap₂ (get_bit d) (same_block sb q j lt) (same_place q j lt)) ∙ h

balloc_loop_hit :
    (sb : Superblock) (q blocks b : ℕ) (d : Disk)
    → q * bpb ≤ b
    → b < (q + blocks) * bpb
    → b < sb.size
    → get_bit d (bblock sb b) (b % bpb) ≡ false
    → ((j : ℕ) → j < b → Taken sb d j)
    → balloc_loop sb (q * bpb) blocks d ≡ (b, bzero b (set_bit d (bblock sb b) (b % bpb) true))
unfolding balloc_loop
balloc_loop_hit sb q zero b d le lt size clear before = absurd (omega arith)
balloc_loop_hit sb q (suc blocks) b d le lt size clear before =
    rw (balloc_loop, lt→ltb (q * bpb) sb.size (omega arith))
      (elim (dec_lt b ((q + 1) * bpb)) [
        | yes here ↦
            let k : ℕ = b - q * bpb in
            let small : k < bpb = omega arith in
            let sum : q * bpb + k ≡ b = omega arith in
            let block : bblock sb b ≡ bblock sb (q * bpb) =
              ap (bblock sb) (sym sum) ∙ same_block sb q k small in
            let place : b % bpb ≡ k = ap (λ m. m % bpb) (sym sum) ∙ same_place q k small in
            let hit : find_bit sb (q * bpb) 0 bpb d ≡ some k =
              find_bit_hit sb (q * bpb) 0 bpb k d (omega arith) (omega arith) (omega arith)
                (sym (ap₂ (get_bit d) block place) ∙ clear)
                (λ j le' lt'.
                  Taken-bit sb d q j (omega arith) (before (q * bpb + j) (omega arith))) in
            rw (hit, sum, block, place) refl
        | no far ↦
            let miss : find_bit sb (q * bpb) 0 bpb d ≡ none =
              find_bit_miss sb (q * bpb) 0 bpb d (λ j le' lt' size'.
                Taken-bit sb d q j (omega arith) (before (q * bpb + j) (omega arith))) in
            let next : q * bpb + bpb ≡ (q + 1) * bpb = omega arith in
            rw (miss, next)
              (balloc_loop_hit sb (q + 1) blocks b d (omega arith) (omega arith) size clear before)
      ])

balloc_loop_full :
    (sb : Superblock) (q blocks : ℕ) (d : Disk)
    → ((j : ℕ) → j < sb.size → Taken sb d j)
    → balloc_loop sb (q * bpb) blocks d ≡ (0, d)
unfolding balloc_loop
balloc_loop_full sb q zero d all = refl
balloc_loop_full sb q (suc blocks) d all = elim (Bool-cases (ltb (q * bpb) sb.size)) [
  | inr out ↦ rw (balloc_loop, out) refl
  | inl inside ↦
      let miss : find_bit sb (q * bpb) 0 bpb d ≡ none =
        find_bit_miss sb (q * bpb) 0 bpb d
          (λ j le lt size. Taken-bit sb d q j (omega arith) (all (q * bpb + j) size)) in
      let next : q * bpb + bpb ≡ (q + 1) * bpb = omega arith in
      rw (balloc_loop, inside, miss, next) (balloc_loop_full sb (q + 1) blocks d all)
]

-- balloc takes the first block whose bit in the map is clear, sets that bit and zeroes the block;
-- if no bit of a block of the device is clear, it returns 0 and changes nothing.
pub balloc_lem :
    (sb : Superblock) (d : Disk)
    → ((b : ℕ)
        → b < sb.size
        → get_bit d (bblock sb b) (b % bpb) ≡ false
        → ((j : ℕ) → j < b → Taken sb d j)
        → balloc sb d ≡ (b, bzero b (set_bit d (bblock sb b) (b % bpb) true)))
      × (((j : ℕ) → j < sb.size → Taken sb d j) → balloc sb d ≡ (0, d))
unfolding balloc
balloc_lem sb d = (
  λ b size clear before.
      balloc_loop_hit sb 0 (sb.size / bpb + 1) b d (omega arith) (omega arith) size clear before,
  λ all. balloc_loop_full sb 0 (sb.size / bpb + 1) d all,
)
