-- ===== src/Proc/History.antt =====
-- Every history of the process table, as steps of its routines.
use os_cpp.Base.{
  ◌==◌, Bool-cases, ok, Outcome, Ensures, ℕ, zero, suc, ◌+◌, ◌^◌, ◌<◌, ◌≡◌, refl, sym, subst, inl,
  inr, Bool, true, false, Option, [], arith,
}
use os_cpp.Proc.{
  nproc, Status, Chan, Process, Table, is_unused, is_runnable, wakeup, kill_one, kill_loop, kill,
  exit, wait, fork, dispatch, yield_cpu, fall_asleep, woken_up,
}
use os_cpp.Proc.Ids.{IsValid, SameIds, SameIds-IsValid, put-SameIds, wakeup-SameIds}
use os_cpp.Proc.Life.{fork-IsValid, exit-IsValid}
use os_cpp.Proc.Wait.{wait-IsValid}

-- One routine of the kernel on the table. A process that is run, or that acts itself, is not free.
pub data Step : Table → Table → Type 0 where
  forked :
      {t u : Table} (frame pagetable : Option ℕ) (copied : Bool) (me : ℕ) (r : Option ℕ)
      → t.next_pid + 1 < 2 ^ 32
      → fork frame pagetable copied me t ≡ ok (r, u)
      → Step t u
  exited :
      {t u : Table} (p code : ℕ)
      → is_unused (t.procs p).status ≡ false
      → exit p code t ≡ ok u
      → Step t u
  waited :
      {t u : Table} (me : ℕ) (copied : Bool) (r : Option ℕ)
      → wait [] me copied t ≡ ok (r, u)
      → Step t u
  killed : {t : Table} (pid : ℕ) → Step t (kill pid t).1
  woke : {t : Table} (me : Option ℕ) (c : Chan) → Step t (wakeup me c t)
  ran : {t : Table} (i : ℕ) → Step t (dispatch i t)
  yielded : {t : Table} (me : ℕ) → is_unused (t.procs me).status ≡ false → Step t (yield_cpu me t)
  slept :
      {t : Table} (me : ℕ) (c : Chan)
      → is_unused (t.procs me).status ≡ false
      → Step t (fall_asleep me c t)
  resumed : {t : Table} (me : ℕ) → Step t (woken_up me t)

pub data Reach (s : Table) : Table → Type 0 where
  here : Reach s s
  next_step : {t u : Table} → Reach s t → Step t u → Reach s u

Ensures_ok {ℓ} :
    {A : Type ℓ} (P : A → Type 0) (o : Outcome A) {a : A} → o ≡ ok a → Ensures P o → P a
Ensures_ok P o e h = subst (Ensures P) e h

not_unused : (s : Status) → is_runnable s ≡ true → is_unused s ≡ false
not_unused s e = ground arith

dispatch-SameIds : (i : ℕ) (t : Table) → SameIds t (dispatch i t)
unfolding dispatch
dispatch-SameIds i t = elim (Bool-cases (is_runnable (t.procs i).status)) [
  | inl e ↦ rw e (put-SameIds t i _ refl (sym (not_unused (t.procs i).status e)))
  | inr e ↦ rw e (record { pids = λ j. refl; uses = λ j. refl; next = refl; first = refl })
]

kill_one_ids :
    (p : Process)
    → ((kill_one p).pid ≡ p.pid) × (is_unused (kill_one p).status ≡ is_unused p.status)
kill_one_ids p = ground arith

kill_loop-SameIds : (pid i left : ℕ) (t : Table) → SameIds t (kill_loop pid i left t).1
unfolding kill_loop
kill_loop-SameIds pid i zero t = record {
  pids = λ j. refl;
  uses = λ j. refl;
  next = refl;
  first = refl;
}
kill_loop-SameIds pid i (suc left) t = elim (Bool-cases ((t.procs i).pid == pid)) [
  | inl e ↦ rw e (
      put-SameIds t i (kill_one (t.procs i)) (kill_one_ids (t.procs i)).0
        (kill_one_ids (t.procs i)).1)
  | inr e ↦ rw e (kill_loop-SameIds pid (i + 1) left t)
]

kill-SameIds : (pid : ℕ) (t : Table) → SameIds t (kill pid t).1
unfolding kill
kill-SameIds pid t = kill_loop-SameIds pid 0 nproc t

Step-IsValid : {t u : Table} → Step t u → IsValid t → IsValid u
Step-IsValid (forked {t} frame pagetable copied me r lt e) v =
    Ensures_ok (λ (q : Option ℕ × Table). IsValid q.1) _ e
      (fork-IsValid frame pagetable copied me t lt v)
Step-IsValid (exited {t} p code live e) v = Ensures_ok IsValid _ e (exit-IsValid p code t live v)
Step-IsValid (waited {t} me copied r e) v =
    Ensures_ok (λ (q : Option ℕ × Table). IsValid q.1) _ e (wait-IsValid me copied t v)
Step-IsValid (killed {t} pid) v = SameIds-IsValid (kill-SameIds pid t) v
Step-IsValid (woke {t} me c) v = SameIds-IsValid (wakeup-SameIds me c t) v
Step-IsValid (ran {t} i) v = SameIds-IsValid (dispatch-SameIds i t) v
Step-IsValid (yielded {t} me live) v = SameIds-IsValid (put-SameIds t me _ refl (sym live)) v
Step-IsValid (slept {t} me c live) v = SameIds-IsValid (put-SameIds t me _ refl (sym live)) v
Step-IsValid (resumed {t} me) v = SameIds-IsValid (put-SameIds t me _ refl refl) v

-- Whatever the kernel does to a valid table, in whatever order, no two slots in use ever share a
-- pid, each pid was handed out, and none is 0, as long as the pids stay below 2^32.
pub Reach-IsValid : {s t : Table} → IsValid s → Reach s t → IsValid t
Reach-IsValid v here = v
Reach-IsValid v (next_step r st) = Step-IsValid st (Reach-IsValid v r)
