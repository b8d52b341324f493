-- ===== src/Log/Tests.antt =====
-- Runs of the log, and its theorems at concrete logs and disks.
use os_cpp.Base.{
  ◌==◌, if◌then◌else◌, ok, panic, Ensures, Returns, ℕ, zero, suc, ◌≤◌, ◌≡◌, refl, inr, true, false,
  [], ◌∷◌, map, arith,
}
use os_cpp.Log.{
  log_size, Disk, Machine, Log, store, bwrite, reboot, read_blocks, rhead, write_blocks, whead,
  install_loop, install_trans, recover, write_loop, write_log, commit, begin_op, end_op, lwrite,
}
use os_cpp.Log.Replay.{IsHome}
use os_cpp.Log.Install.{All}
use os_cpp.Log.Recover.{
  HasTargets, prescribed, recovered, recovered_home, Agrees, recover_crash_safe,
}
use os_cpp.Log.Commit.{committed, LogTargets}
use os_cpp.Log.Atomic.{IsAtomic, commit-IsAtomic, commit_lem}
use os_cpp.Log.Ops.{Logged, lwrite-Logged, lwrite_refused}
use os_cpp.Log.Reserve.{here, begins, start, step, System, Reach, Reserved, lwrite_fits}

-- One block, 40, is logged; the cache has a new version of it.
abbrev one_entry : Log
one_entry = record {
  start = 2;
  size = 30;
  outstanding = 1;
  committing = false;
  n = 1;
  block = λ i. 40;
}

abbrev dirty : Machine
dirty = record { cache = λ b w. if b == 40 then 7 else 0; disk = λ b w. 0; crashes = [] }

-- A disk that was left with block 40 logged in slot 3 and not yet installed.
abbrev pending : Disk
pending b w =
    if b == 2 then (if w == 0 then 1 else if w == 1 then 40 else 0) else if b == 3 then 9 else 0

targets : LogTargets one_entry
targets i lt = inr (omega arith)

pending_targets : HasTargets one_entry pending
pending_targets zero lt = inr (omega arith)
pending_targets (suc i) lt = absurd (omega arith)

recovery_installs : (recover one_entry (reboot pending)).1.disk 40 5 ≡ 9
unfolding recover install_trans install_loop rhead read_blocks whead write_blocks bwrite store
    reboot
recovery_installs = refl

commit_writes_five_times :
    map (λ (d : Disk). d 40 0) (commit one_entry dirty).1.crashes ≡ 7 ∷ 7 ∷ 0 ∷ 0 ∷ []
unfolding commit write_log write_loop install_trans install_loop whead write_blocks bwrite store
commit_writes_five_times = refl

recovered_home_example : recovered one_entry pending 40 ≡ prescribed one_entry pending 40
recovered_home_example = recovered_home one_entry pending pending_targets 40 (inr (omega arith))

recover_crash_safe_example :
    All (Agrees one_entry pending) (recover one_entry (reboot pending)).1.crashes
recover_crash_safe_example = recover_crash_safe one_entry pending pending_targets

commit-IsAtomic_example : All (IsAtomic one_entry dirty) (commit one_entry dirty).1.crashes
commit-IsAtomic_example = commit-IsAtomic one_entry dirty targets refl refl

commit_lem_example :
    ((b : ℕ)
      → IsHome 2 one_entry.block 1 b
      → (commit one_entry dirty).1.disk b ≡ committed one_entry.block dirty.cache dirty.disk 1 b)
    × ((commit one_entry dirty).0.n ≡ 0)
    × ((commit one_entry dirty).1.disk 2 0 ≡ 0)
commit_lem_example = commit_lem one_entry dirty targets refl refl

lwrite-Logged_example : Returns (Logged 41 one_entry) (lwrite 41 one_entry)
lwrite-Logged_example =
    lwrite-Logged 41 one_entry (λ i j p q. absurd (omega arith)) (omega arith) (omega arith)
      (omega arith)

lwrite_refused_example : Ensures (λ r. ⊥) (lwrite 41 (record one_entry { outstanding = 0 }))
lwrite_refused_example = lwrite_refused 41 (record one_entry { outstanding = 0 }) (inr (inr refl))

-- The last operation commits.
last_end_op :
    let (l', m') = commit (record one_entry { outstanding = 0; committing = true }) dirty in
    end_op one_entry dirty ≡ ok (record l' { committing = false }, m', 1)
unfolding end_op
last_end_op = refl

-- A log of 31 blocks without operations, and after a first begin_op.
abbrev idle : System
idle = record {
  log = record { start = 2; size = 31; outstanding = 0; committing = false; n = 0; block = λ i. 0 };
  machine = dirty;
  left = [];
}

abbrev one_begun : System
one_begun = record idle { log = record (idle.log) { outstanding = 1 }; left = 10 ∷ [] }

idle-Reserved : Reserved idle.log idle.left
idle-Reserved = record {
  count = refl;
  room = omega arith;
  few = omega arith;
  small = tt;
  size = omega arith;
}

idle-Reach : Reach idle one_begun
unfolding begin_op
idle-Reach = step idle one_begun start (begins idle (record (idle.log) { outstanding = 1 }) refl)

lwrite_fits_example :
    Returns (λ r. Reserved r.0 (9 ∷ []) × (r.0.n ≤ log_size)) (lwrite 40 one_begun.log)
lwrite_fits_example = lwrite_fits idle one_begun 40 (9 ∷ []) idle-Reserved idle-Reach (here 9 [])

-- The log that mkfs makes has 30 blocks, one of them the header: the thirtieth block of three
-- operations does not fit.
thirty_blocks :
    lwrite 41 (record one_entry { n = 29; outstanding = 3 }) ≡ panic "too big a transaction"
unfolding lwrite
thirty_blocks = refl
