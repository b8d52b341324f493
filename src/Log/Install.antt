-- ===== src/Log/Install.antt =====
-- What install_trans, write_log and whead leave on the disk, at the end and after every write.
use os_cpp.Base.{
  update, update_self, ℕ, zero, suc, ◌+◌, ◌≤◌, ◌<◌, ◌≡◌, ◌∙◌, subst, Bool, true, false, List, [],
  ◌∷◌, arith,
}
use os_cpp.Log.{Disk, Machine, store, bwrite, install_loop}
use os_cpp.Log.Replay.{replay, IsHome}

-- Every disk that a crash may leave so far.
abbrev pub All : (Disk → Type 0) → List Disk → Type 0
All P [] = Unit
All P (d ∷ ds) = P d × All P ds

pub All-mono :
    (P Q : Disk → Type 0) (ds : List Disk) → ((d : Disk) → P d → Q d) → All P ds → All Q ds
All-mono P Q [] f h = tt
All-mono P Q (d ∷ ds) f h = (f d h.0, All-mono P Q ds f h.1)

-- The disk during an installation: the log is whole, and the home blocks are installed up to `k`.
pub record Installed (start : ℕ) (block : ℕ → ℕ) (n : ℕ) (log base : Disk) (k : ℕ) (d : Disk)
    : Type 0 where
  pub header : d start ≡ log start
  pub slots : (i : ℕ) → i < n → d (start + i + 1) ≡ log (start + i + 1)
  pub home : (b : ℕ) → IsHome start block n b → d b ≡ replay start block log k base b

module _ (start : ℕ) (block : ℕ → ℕ) (n : ℕ) (log base : Disk) where
  -- All home blocks of the log lie outside the log.
  abbrev pub Targets : Type 0
  Targets = (i : ℕ) → i < n → IsHome start block n (block i)

  install_one :
      (k : ℕ) (d : Disk)
      → k < n
      → IsHome start block n (block k)
      → Installed start block n log base k d
      → Installed start block n log base (suc k) (update d (block k) (log (start + k + 1)))
  install_one k d lt t inst = record {
    header = ground (arith, inst.header);
    slots = λ i l. ground (arith, inst.slots i l);
    home = λ b h. ground (arith, inst.home b h);
  }

  -- The same disk, once more written with the same block.
  install_again :
      (k : ℕ) (d : Disk)
      → k < n
      → IsHome start block n (block k)
      → Installed start block n log base (suc k) d
      → Installed start block n log base (suc k) (update d (block k) (log (start + k + 1)))
  install_again k d lt t inst = record {
    header = ground (arith, inst.header);
    slots = λ i l. ground (arith, inst.slots i l);
    home = λ b h. ground (arith, inst.home b h);
  }

  abbrev pub CacheSlots : Machine → Type 0
  CacheSlots m = (i : ℕ) → i < n → m.cache (start + i + 1) ≡ log (start + i + 1)

  -- What an installation up to `k` has established, for a property of the disks that a crash leaves.
  pub record Progress (P : Disk → Type 0) (k : ℕ) (m : Machine) : Type 0 where
    pub cached : CacheSlots m
    pub on_disk : Installed start block n log base k m.disk
    pub safe : All P m.crashes

  -- One round of the loop.
  abbrev round : ℕ → Machine → Machine
  round k m = bwrite (block k) (store (block k) (m.cache (start + k + 1)) m)

  step_once :
      (P : Disk → Type 0)
      (keep : (k : ℕ) (d : Disk) → k ≤ n → Installed start block n log base k d → P d) (k : ℕ)
      (m : Machine)
      → k < n
      → IsHome start block n (block k)
      → Progress P k m
      → Progress P (suc k) (round k m)
  unfolding bwrite store
  step_once P keep k m lt t pr = record {
    cached = λ i l. ground (arith, pr.cached i l);
    on_disk = after;
    safe = (keep (suc k) _ lt after, pr.safe);
  }
    where
      value : update m.cache (block k) (m.cache (start + k + 1)) (block k) ≡ log (start + k + 1)
      value = update_self m.cache (block k) _ ∙ pr.cached k lt

      after :
          Installed start block n log base
            (suc k)
            (update m.disk (block k) (update m.cache (block k) (m.cache (start + k + 1)) (block k)))
      after = rw value (install_one k m.disk lt t pr.on_disk)

  step_again :
      (P : Disk → Type 0)
      (keep : (k : ℕ) (d : Disk) → k ≤ n → Installed start block n log base k d → P d) (k : ℕ)
      (m : Machine)
      → k < n
      → IsHome start block n (block k)
      → m.cache (block k) ≡ log (start + k + 1)
      → Progress P (suc k) m
      → Progress P (suc k) (bwrite (block k) m)
  unfolding bwrite
  step_again P keep k m lt t value pr = record {
    cached = pr.cached;
    on_disk = after;
    safe = (keep (suc k) _ lt after, pr.safe);
  }
    where
      after : Installed start block n log base (suc k) (update m.disk (block k) (m.cache (block k)))
      after = rw value (install_again k m.disk lt t pr.on_disk)

  stored_value :
      (P : Disk → Type 0) (k : ℕ) (m : Machine)
      → k < n
      → Progress P k m
      → (round k m).cache (block k) ≡ log (start + k + 1)
  unfolding bwrite store
  stored_value P k m lt pr = update_self m.cache (block k) _ ∙ pr.cached k lt

  pub install_loop-Progress :
      (P : Disk → Type 0)
      (keep : (k : ℕ) (d : Disk) → k ≤ n → Installed start block n log base k d → P d)
      (recovering : Bool) (k left : ℕ) (m : Machine)
      → k + left ≡ n
      → Targets
      → Progress P k m
      → Progress P n (install_loop recovering start block k left m)
  unfolding install_loop
  install_loop-Progress P keep r k zero m e t pr =
      let all : k ≡ n = omega arith in subst (λ j. Progress P j m) all pr
  install_loop-Progress P keep true k (suc left) m e t pr =
      install_loop-Progress P keep true (k + 1) left (bwrite (block k) (round k m)) (omega arith) t
        (let next : suc k ≡ k + 1 = omega arith in
          subst (λ j. Progress P j (bwrite (block k) (round k m))) next
            (step_again P keep k (round k m) (omega arith) (t k (omega arith))
              (stored_value P k m (omega arith) pr)
              (step_once P keep k m (omega arith) (t k (omega arith)) pr)))
  install_loop-Progress P keep false k (suc left) m e t pr =
      install_loop-Progress P keep false (k + 1) left (round k m) (omega arith) t (
        let next : suc k ≡ k + 1 = omega arith in
        subst (λ j. Progress P j (round k m)) next
          (step_once P keep k m (omega arith) (t k (omega arith)) pr))
