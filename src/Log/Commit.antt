-- ===== src/Log/Commit.antt =====
-- The first phase of a commit: write_log copies the cached blocks to the log, and leaves the rest.
use os_cpp.Base.{◌==◌, if◌then◌else◌, ℕ, zero, suc, ◌+◌, ◌<◌, ◌≡◌, refl, subst, arith}
use os_cpp.Log.{Disk, Machine, Log, store, bwrite, write_loop}
use os_cpp.Log.Replay.{replay, IsHome}
use os_cpp.Log.Install.{All}

-- What a block is to become: the cached contents if one of the first `n` entries names it.
abbrev pub committed : (ℕ → ℕ) → Disk → Disk → ℕ → Disk
committed block cache disk zero b = disk b
committed block cache disk (suc n) b =
    if block n == b then cache b else committed block cache disk n b

-- The log in memory names home blocks only.
abbrev pub LogTargets : Log → Type 0
LogTargets l = (i : ℕ) → i < l.n → IsHome l.start l.block l.n (l.block i)

pub replay-committed :
    (start : ℕ) (block : ℕ → ℕ) (log cache disk : Disk) (n b : ℕ)
    → ((i : ℕ) → i < n → log (start + i + 1) ≡ cache (block i))
    → replay start block log n disk b ≡ committed block cache disk n b
replay-committed start block log cache disk zero b h = refl
replay-committed start block log cache disk (suc n) b h = ground (
  arith,
  h n (omega arith),
  replay-committed start block log cache disk n b (λ i lt. h i (omega arith)),
)

-- While write_log copies the blocks to the log: the first `k` slots are written.
pub record Written (l : Log) (m : Machine) (P : Disk → Type 0) (k : ℕ) (w : Machine) : Type 0 where
  pub header : w.disk l.start ≡ m.disk l.start
  pub home : (b : ℕ) → IsHome l.start l.block l.n b → w.disk b ≡ m.disk b
  pub cached_home : (b : ℕ) → IsHome l.start l.block l.n b → w.cache b ≡ m.cache b
  pub slots : (i : ℕ) → i < k → w.disk (l.start + i + 1) ≡ m.cache (l.block i)
  pub cached_slots : (i : ℕ) → i < k → w.cache (l.start + i + 1) ≡ m.cache (l.block i)
  pub safe : All P w.crashes

-- The disk as it was before, but for the slots of the log.
abbrev pub Before : Log → Disk → Disk → Type 0
Before l d e = (e l.start ≡ d l.start) × ((b : ℕ) → IsHome l.start l.block l.n b → e b ≡ d b)

module _ (l : Log) (m : Machine) (t : LogTargets l) where
  write_round : ℕ → Machine → Machine
  write_round k w = bwrite (l.start + k + 1) (store (l.start + k + 1) (w.cache (l.block k)) w)

  write_one :
      (P : Disk → Type 0) (keep : (e : Disk) → Before l m.disk e → P e) (k : ℕ) (w : Machine)
      → k < l.n
      → Written l m P k w
      → Written l m P (suc k) (write_round k w)
  unfolding write_round bwrite store
  write_one P keep k w lt wr = record {
    header = header';
    home = home';
    cached_home = λ b h. ground (arith, wr.cached_home b h);
    slots = λ i h. ground (arith, wr.slots i, wr.cached_home (l.block k) (t k lt));
    cached_slots = λ i h. ground (arith, wr.cached_slots i, wr.cached_home (l.block k) (t k lt));
    safe = (keep _ (header', home'), wr.safe);
  }
    where
      header' : (write_round k w).disk l.start ≡ m.disk l.start
      header' = ground (arith, wr.header)

      home' : (b : ℕ) → IsHome l.start l.block l.n b → (write_round k w).disk b ≡ m.disk b
      home' b h = ground (arith, wr.home b h)

  pub write_loop-Written :
      (P : Disk → Type 0) (keep : (e : Disk) → Before l m.disk e → P e) (k left : ℕ) (w : Machine)
      → k + left ≡ l.n
      → Written l m P k w
      → Written l m P l.n (write_loop l.start l.block k left w)
  unfolding write_loop write_round
  write_loop-Written P keep k zero w e wr =
      let all : k ≡ l.n = omega arith in subst (λ j. Written l m P j w) all wr
  write_loop-Written P keep k (suc left) w e wr =
      write_loop-Written P keep (k + 1) left (write_round k w) (omega arith) (
        let next : suc k ≡ k + 1 = omega arith in
        subst (λ j. Written l m P j (write_round k w)) next (write_one P keep k w (omega arith) wr))
