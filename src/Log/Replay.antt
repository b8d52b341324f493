-- ===== src/Log/Replay.antt =====
-- The specification of the log: what a block holds once the first `n` log blocks are installed.
use os_cpp.Base.{◌==◌, if◌then◌else◌, ℕ, zero, suc, ◌+◌, ◌≤◌, ◌<◌, ◌≡◌, refl, ap, ◌⊎◌, arith}
use os_cpp.Log.{Disk}
use native.Mathlib.Decide.{dec_le}

module _ (start : ℕ) (block : ℕ → ℕ) where
  abbrev pub replay : Disk → ℕ → Disk → Disk
  replay log zero base b = base b
  replay log (suc n) base b = if block n == b then log (start + n + 1) else replay log n base b

  -- A block outside the header and the first `n` log blocks.
  abbrev pub IsHome : ℕ → ℕ → Type 0
  IsHome n b = (b < start) ⊎ (start + n < b)

  pub replay_cong :
      (log log' base base' : Disk) (n b : ℕ)
      → ((i : ℕ) → i < n → log (start + i + 1) ≡ log' (start + i + 1))
      → base b ≡ base' b
      → replay log n base b ≡ replay log' n base' b
  replay_cong log log' base base' zero b h e = e
  replay_cong log log' base base' (suc n) b h e =
      ground (arith, h n, replay_cong log log' base base' n b (λ i lt. h i (omega arith)) e)

  -- Installing again over a partly installed log changes nothing more.
  pub replay-replay :
      (log base : Disk) (k n b : ℕ)
      → k ≤ n
      → replay log n (replay log k base) b ≡ replay log n base b
  replay-replay log base k zero b le =
      let none_yet : k ≡ 0 = omega arith in ap (λ j. replay log j base b) none_yet
  replay-replay log base k (suc n) b le = elim (dec_le k n) [
    | yes p ↦ ground (arith, replay-replay log base k n b p)
    | no p ↦
        let all : k ≡ suc n = omega arith in
        rw all (
          ground (
            arith,
            λ (e : replay log (suc n) base b ≡ replay log n base b).
                replay_cong log log (replay log (suc n) base) (replay log n base) n b (λ i lt. refl)
                  e,
            replay-replay log base n n b (omega arith),
          ))
  ]

-- Only the first `n` block numbers matter.
pub replay_block_cong :
    (start : ℕ) (block block' : ℕ → ℕ) (log base : Disk) (n b : ℕ)
    → ((i : ℕ) → i < n → block i ≡ block' i)
    → replay start block log n base b ≡ replay start block' log n base b
replay_block_cong start block block' log base zero b h = refl
replay_block_cong start block block' log base (suc n) b h =
    ground
      (arith, h n, replay_block_cong start block block' log base n b (λ i lt. h i (omega arith)))
