-- ===== src/Log/Recover.antt =====
-- What recovery makes of a disk, and that a crash during recovery does no harm.
use os_cpp.Base.{
  ltb, leb, if◌then◌else◌, update, ℕ, zero, suc, ◌+◌, ◌≤◌, ◌<◌, ◌≡◌, refl, sym, ap, ◌∙◌, subst, ◌≢◌,
  true, ◌&&◌, arith,
}
use os_cpp.Log.{Block, Disk, Log, reboot, read_blocks, rhead, install_loop, install_trans, recover}
use os_cpp.Log.Replay.{replay, IsHome, replay_cong, replay-replay, replay_block_cong}
use os_cpp.Log.Install.{All, Installed, Progress, install_loop-Progress}
use os_cpp.Log.Header.{whead_count, whead-disk, whead-crashes}

read_blocks_lem :
    (h : Block) (i left : ℕ) (block : ℕ → ℕ) (j : ℕ)
    → read_blocks h i left block j ≡ (if leb i j && ltb j (i + left) then h (j + 1) else block j)
unfolding read_blocks
read_blocks_lem h i zero block j = ground arith
read_blocks_lem h i (suc left) block j =
    ground (arith, read_blocks_lem h (i + 1) left (update block i (h (i + 1))) j)

-- The log header on a disk: how many blocks, and which.
abbrev pub count_on : Log → Disk → ℕ
count_on l d = d l.start 0

abbrev pub block_on : Log → Disk → ℕ → ℕ
block_on l d i = d l.start (i + 1)

-- The block numbers in the header lie outside the log.
abbrev pub HasTargets : Log → Disk → Type 0
HasTargets l d =
    (i : ℕ) → i < count_on l d → IsHome l.start (block_on l d) (count_on l d) (block_on l d i)

pub rhead_block :
    (l : Log) (d : Disk) (i : ℕ) → i < count_on l d → (rhead l (reboot d)).block i ≡ block_on l d i
unfolding rhead reboot
rhead_block l d i lt = read_blocks_lem (d l.start) 0 (d l.start 0) l.block i ∙ ground arith

-- The disk as the log prescribes it.
abbrev pub prescribed_by : ℕ → Block → Disk → Disk
prescribed_by start h d = replay start (λ i. h (i + 1)) d (h 0) d

abbrev pub prescribed : Log → Disk → Disk
prescribed l d = prescribed_by l.start (d l.start) d

-- The disk after a crash that left `d`, once recovery is through.
pub recovered : Log → Disk → Disk
unfolding recover
recovered l d = (recover l (reboot d)).1.disk

module _ (l : Log) (d : Disk) (targets : HasTargets l d) where
  block' : ℕ → ℕ
  block' = (rhead l (reboot d)).block

  n' : ℕ
  n' = count_on l d

  replayed : (b : ℕ) → replay l.start block' d n' d b ≡ prescribed l d b
  unfolding block' n'
  replayed b = replay_block_cong l.start block' (block_on l d) d d n' b (rhead_block l d)

  targets' : (i : ℕ) → i < n' → IsHome l.start block' n' (block' i)
  unfolding block' n'
  targets' i lt = rw (rhead_block l d i lt) (targets i lt)

  starting : (P : Disk → Type 0) → Progress l.start block' n' d d P 0 (reboot d)
  unfolding reboot
  starting P = record {
    cached = λ i lt. refl;
    on_disk = record { header = refl; slots = λ i lt. refl; home = λ b h. refl };
    safe = tt;
  }

pub home_ne_start : (start : ℕ) (block : ℕ → ℕ) (n b : ℕ) → IsHome start block n b → b ≢ start
home_ne_start start block n b h = omega arith

-- Recovery leaves every block outside the log as the log header on the disk prescribes it.
pub recovered_home :
    (l : Log) (d : Disk)
    → HasTargets l d
    → (b : ℕ) → IsHome l.start (block_on l d) (count_on l d) b
    → recovered l d b ≡ prescribed l d b
unfolding recovered recover install_trans block' n' rhead reboot
recovered_home l d t b h =
    whead-disk (record (rhead l (reboot d)) { n = 0 }) _ b
      (home_ne_start l.start (block_on l d) (count_on l d) b h)
    ∙ done.on_disk.home b h
    ∙ replayed l d t b
  where
    done :
        Progress l.start
          (block' l d t)
          (n' l d t)
          d
          d
          (λ e. Unit)
          (n' l d t)
          (install_loop true l.start (block' l d t) 0 (n' l d t) (reboot d))
    done =
        install_loop-Progress l.start (block' l d t) (n' l d t) d d (λ e. Unit) (λ k e le i. tt)
          true 0 (n' l d t) (reboot d) (omega arith) (targets' l d t) (starting l d t (λ e. Unit))

-- A disk on which the log of the disk `log` is partly installed recovers to that log installed.
pub Installed-recovered :
    (l : Log) (log base d : Disk) (k : ℕ)
    → HasTargets l log
    → k ≤ count_on l log
    → Installed l.start (block_on l log) (count_on l log) log base k d
    → (b : ℕ) → IsHome l.start (block_on l log) (count_on l log) b
    → recovered l d b ≡ replay l.start (block_on l log) log (count_on l log) base b
Installed-recovered l log base d k t le inst b h =
    recovered_home l d
      (subst
        (λ (hd : Block). (i : ℕ) → i < hd 0 → IsHome l.start (λ j. hd (j + 1)) (hd 0) (hd (i + 1)))
        (sym inst.header) t)
      b (subst (λ (hd : Block). IsHome l.start (λ j. hd (j + 1)) (hd 0) b) (sym inst.header) h)
    ∙ ap (λ hd. prescribed_by l.start hd d b) inst.header
    ∙ replay_cong l.start (block_on l log) d log d (replay l.start (block_on l log) log k base)
        (count_on l log) b inst.slots (inst.home b h)
    ∙ replay-replay l.start (block_on l log) log base k (count_on l log) b le

pub Installed-block :
    (start : ℕ) (block block2 : ℕ → ℕ) (n : ℕ) (log base : Disk) (k : ℕ) (d : Disk)
    → ((i : ℕ) → i < n → block i ≡ block2 i)
    → k ≤ n
    → Installed start block n log base k d
    → Installed start block2 n log base k d
Installed-block start block block2 n log base k d e le inst = record {
  header = inst.header;
  slots = inst.slots;
  home = λ b h.
      inst.home b h ∙ replay_block_cong start block block2 log base k b (λ i lt. e i (omega arith));
}

-- What recovery of a crashed disk promises: the same home blocks as recovery of `d`.
abbrev pub Agrees : Log → Disk → Disk → Type 0
Agrees l d e =
    (b : ℕ) → IsHome l.start (block_on l d) (count_on l d) b → recovered l e b ≡ recovered l d b

pub recovered-cleared :
    (l : Log) (d : Disk) (b : ℕ) → d l.start 0 ≡ 0 → b ≢ l.start → recovered l d b ≡ d b
recovered-cleared l d b z ne =
    recovered_home l d (λ i lt. absurd (omega (arith, z))) b (omega (arith, z))
    ∙ ap (λ n. replay l.start (block_on l d) d n d b) z

install_safe :
    (l : Log) (d : Disk) (t : HasTargets l d)
    → All (Agrees l d) (install_loop true l.start (block' l d t) 0 (n' l d t) (reboot d)).crashes
unfolding block' n'
install_safe l d t =
    (install_loop-Progress l.start (block' l d t) (n' l d t) d d (Agrees l d) keep true 0 (n' l d t)
      (reboot d) (omega arith) (targets' l d t) (starting l d t (Agrees l d))).safe
  where
    keep :
        (k : ℕ) (e : Disk)
        → k ≤ n' l d t
        → Installed l.start (block' l d t) (n' l d t) d d k e
        → Agrees l d e
    keep k e le inst b h =
        Installed-recovered l d d e k t le
          (Installed-block l.start (block' l d t) (block_on l d) (n' l d t) d d k e
            (rhead_block l d) le inst)
          b h
        ∙ sym (recovered_home l d t b h)

-- Where the header on the disk names home blocks, a crash at any write of recovery is harmless:
-- recovering once more gives the same home blocks.
pub recover_crash_safe :
    (l : Log) (d : Disk) → HasTargets l d → All (Agrees l d) (recover l (reboot d)).1.crashes
unfolding recover install_trans rhead reboot recovered block' n'
recover_crash_safe l d t =
    whead-crashes (Agrees l d) cleared _
      (λ b h.
        recovered-cleared l (recovered l d) b (whead_count cleared _)
          (home_ne_start l.start (block_on l d) (count_on l d) b h))
      (install_safe l d t)
  where
    cleared : Log
    cleared = record (rhead l (reboot d)) { n = 0 }
