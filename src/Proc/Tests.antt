-- ===== src/Proc/Tests.antt =====
-- Runs of the process table, and its theorems at concrete tables.
use os_cpp.Base.{
  ◌==◌, if◌then◌else◌, ok, Returns, ℕ, ◌<◌, ◌≡◌, refl, ◌≢◌, true, false, none, some, [], arith,
}
use os_cpp.Proc.{
  unused, sleeping, runnable, zombie, nowhere, on_object, nproc, Process, Table, put, free,
  alloc_pid, claim, alloc_loop, alloc_proc, kill_one, kill, exit, wait_scan, wait, fork_child, fork,
  dispatch,
}
use os_cpp.Proc.Scan.{kill_lem, alloc_proc_first}
use os_cpp.Proc.Ids.{IsValid}
use os_cpp.Proc.Wait.{IsZombieChild, wait_reaps}
use os_cpp.Proc.History.{killed, ran, here, next_step, Reach-IsValid}
use os_cpp.Proc.Family.{new_parent, exit_lem}

abbrev empty_slot : Process
empty_slot = record {
  status = unused;
  pid = 0;
  chan = nowhere;
  killed = false;
  xstate = 0;
  parent = none;
  kernel_stack = 0;
  sz = 0;
  pagetable = none;
  trapframe = none;
  context_sp = 0;
}

abbrev empty_table : Table
empty_table = record { procs = λ i. empty_slot; next_pid = 1; init_proc = 0 }

-- init, with a zombie child in slot 1 and a sleeping child of that child in slot 2.
abbrev family : Table
family = record {
  procs = λ i.
      if i == 0
      then record empty_slot { status = runnable; pid = 1 }
      else if i == 1
      then record empty_slot { status = zombie; pid = 2; parent = some 0 }
      else if i == 2
      then record empty_slot { status = sleeping; pid = 3; parent = some 1; chan = on_object 9 }
      else empty_slot;
  next_pid = 4;
  init_proc = 0;
}

first_fork :
    Returns
      (λ r. (r.0 ≡ some 4) × ((r.1.procs 3).parent ≡ some 0))
      (fork (some 0x1000) (some 0x2000) true 0 family)
unfolding fork alloc_proc alloc_loop claim alloc_pid fork_child
first_fork = (refl, refl)

-- With no child, wait returns at once.
childless : wait [] 2 true family ≡ ok (none, family)
unfolding wait wait_scan
childless = refl

empty_IsValid : IsValid empty_table
empty_IsValid = record { issued = λ i e. cc e; distinct = λ i j e f p. cc e; started = omega arith }

kill_lem_run : kill 3 family ≡ (some tt, put family 2 (kill_one (family.procs 2)))
kill_lem_run = (kill_lem 3 family).0 2 (omega arith) refl before
  where
    before : (j : ℕ) → j < 2 → (family.procs j).pid ≢ 3
    before j lt = ground arith

alloc_proc_first_example :
    alloc_proc (some 1) (some 2) empty_table ≡ ok (claim (some 1) (some 2) 0 empty_table)
alloc_proc_first_example =
    alloc_proc_first (some 1) (some 2) 0 empty_table (omega arith) refl
      (λ j lt. absurd (omega arith))

wait_reaps_example :
    (i : ℕ) × IsZombieChild 0 family i
    × (wait [] 0 true family ≡ ok (some (family.procs i).pid, put family i (free (family.procs i))))
wait_reaps_example = wait_reaps [] 0 1 family (omega arith) (refl, refl)

Reach-IsValid_example : IsValid (kill 7 (dispatch 3 empty_table)).1
Reach-IsValid_example =
    Reach-IsValid {s = empty_table} empty_IsValid (next_step (next_step here (ran 3)) (killed 7))

exit_lem_example :
    Returns
      (λ u.
        ((u.procs 1).status ≡ zombie)
        × ((u.procs 1).xstate ≡ 5)
        × ((j : ℕ) → j < nproc → (u.procs j).parent ≡ new_parent 1 0 (family.procs j).parent))
      (exit 1 5 family)
exit_lem_example = exit_lem 1 5 family (λ e. ground arith)
