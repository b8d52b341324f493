-- ===== src/Proc.antt =====
-- kernel/proc.cpp: the process table and the life of a process.
-- A process is an index below NPROC. Each routine is run with the locks that it takes held, and
-- what others do while a process sleeps is a list of turns. The results of `vm::kalloc`,
-- `alloc_pagetable`, `vm::uvm_copy` and `vm::copyout` are arguments of the routines that call them.
pub mod Scan
pub mod Ids
pub mod Life
pub mod Wait
pub mod History
pub mod Family
mod Tests
use os_cpp.Base.{
  ◌==◌, if◌then◌else◌, update, ok, panic, blocked, Outcome, ◌>>=◌, ℕ, zero, suc, ◌+◌, ◌%◌, ◌^◌,
  Bool, true, false, not, ◌&&◌, ◌||◌, Option, none, some, List, [], ◌∷◌,
}

abbrev pub nproc : ℕ
nproc = 64

pub data Status : Type 0 where
  unused allocated sleeping runnable running zombie : Status

-- What a process sleeps on: nothing, a process, or another object of the kernel.
pub data Chan : Type 0 where
  nowhere : Chan
  on_process : ℕ → Chan
  on_object : ℕ → Chan

-- `struct process`, less its name, saved registers and open files. A null pointer is `none`.
pub record Process : Type 0 where
  pub status : Status
  pub pid : ℕ
  pub chan : Chan
  pub killed : Bool
  pub xstate : ℕ
  pub parent : Option ℕ
  pub kernel_stack : ℕ
  pub sz : ℕ
  pub pagetable : Option ℕ
  pub trapframe : Option ℕ
  pub context_sp : ℕ

pub record Table : Type 0 where
  pub procs : ℕ → Process
  pub next_pid : ℕ
  pub init_proc : ℕ

abbrev pub is_unused : Status → Bool
is_unused unused = true
is_unused _ = false

abbrev pub is_sleeping : Status → Bool
is_sleeping sleeping = true
is_sleeping _ = false

abbrev pub is_zombie : Status → Bool
is_zombie zombie = true
is_zombie _ = false

abbrev pub is_runnable : Status → Bool
is_runnable runnable = true
is_runnable _ = false

abbrev pub chan_eq : Chan → Chan → Bool
chan_eq nowhere nowhere = true
chan_eq (on_process i) (on_process j) = i == j
chan_eq (on_object a) (on_object b) = a == b
chan_eq _ _ = false

abbrev pub is_some : Option ℕ → ℕ → Bool
is_some none i = false
is_some (some j) i = j == i

abbrev pub put : Table → ℕ → Process → Table
put t i p = record t { procs = update t.procs i p }

-- `proc::free`: the frame and the page table are given back, and the slot is unused.
abbrev pub free : Process → Process
free p = record p {
  trapframe = none;
  pagetable = none;
  sz = 0;
  pid = 0;
  parent = none;
  chan = nowhere;
  killed = false;
  status = unused;
}

-- `alloc_pid`, its `uint32_t` written out.
pub alloc_pid : Table → ℕ × Table
alloc_pid t = (t.next_pid, record t { next_pid = (t.next_pid + 1) % 2 ^ 32 })

-- What `alloc_proc` does with the first unused slot.
pub claim : Option ℕ → Option ℕ → ℕ → Table → Option ℕ × Table
unfolding alloc_pid
claim frame pagetable i t =
    let (pid, t') = alloc_pid t in
    let p = record (t'.procs i) { pid = pid; status = allocated } in
    elim frame [
      | none ↦ (none, put t' i (free p))
      | some f ↦ elim pagetable [
        | none ↦ (none, put t' i (free (record p { trapframe = some f })))
        | some pt ↦ (
          some i,
          put t' i (record p {
            trapframe = some f;
            pagetable = some pt;
            context_sp = p.kernel_stack + 4096;
          }),
        )
      ]
    ]

-- The loop of `alloc_proc`, for `left` slots from `i` on.
pub alloc_loop : Option ℕ → Option ℕ → ℕ → ℕ → Table → Outcome (Option ℕ × Table)
alloc_loop frame pagetable i zero t = panic "proc::alloc: no proc"
alloc_loop frame pagetable i (suc left) t =
    let rest = alloc_loop frame pagetable (i + 1) left t in
    if is_unused (t.procs i).status then ok (claim frame pagetable i t) else rest

pub alloc_proc : Option ℕ → Option ℕ → Table → Outcome (Option ℕ × Table)
alloc_proc frame pagetable t = alloc_loop frame pagetable 0 nproc t

-- The loop of `wakeup`, called by the process `me` (none in the scheduler).
abbrev pub wake_one : Chan → Process → Process
wake_one c p =
    if is_sleeping p.status && chan_eq p.chan c then record p { status = runnable } else p

pub wakeup_loop : Option ℕ → Chan → ℕ → ℕ → Table → Table
wakeup_loop me c i zero t = t
wakeup_loop me c i (suc left) t =
    wakeup_loop me c (i + 1) left (if is_some me i then t else put t i (wake_one c (t.procs i)))

pub wakeup : Option ℕ → Chan → Table → Table
wakeup me c t = wakeup_loop me c 0 nproc t

-- The loop of `reparent`, called by the process `p` itself.
pub reparent_loop : ℕ → ℕ → ℕ → Table → Table
reparent_loop p i zero t = t
reparent_loop p i (suc left) t = reparent_loop p (i + 1) left (
    if is_some (t.procs i).parent p
    then wakeup (some p) (on_process t.init_proc)
        (put t i (record (t.procs i) { parent = some t.init_proc }))
    else t)

pub reparent : ℕ → Table → Table
reparent p t = reparent_loop p 0 nproc t

abbrev pub kill_one : Process → Process
kill_one p =
    if is_sleeping p.status
    then record p { killed = true; status = runnable }
    else record p { killed = true }

-- The loop of `kill`; the result is 0, or -1 as `none`.
pub kill_loop : ℕ → ℕ → ℕ → Table → Option (Unit {0}) × Table
kill_loop pid i zero t = (none, t)
kill_loop pid i (suc left) t =
    let rest = kill_loop pid (i + 1) left t in
    if (t.procs i).pid == pid then (some tt, put t i (kill_one (t.procs i))) else rest

pub kill : ℕ → Table → Option (Unit {0}) × Table
kill pid t = kill_loop pid 0 nproc t

abbrev pub parent_chan : Option ℕ → Chan
parent_chan none = nowhere
parent_chan (some q) = on_process q

-- `exit` of the process `p`: its children go to init, its parent is woken.
pub leave_family : ℕ → Table → Table
leave_family p t = let t' = reparent p t in wakeup (some p) (parent_chan (t'.procs p).parent) t'

-- `exit` of the process `p`, from `wait_lock.acquire` to the call of `sched`, with the test for init
-- above. The closing of files and the release of the directory before it are left out. It does not
-- return.
pub exit : ℕ → ℕ → Table → Outcome Table
exit p code t =
    if p == t.init_proc
    then panic "proc::exit: init exiting"
    else (let u = leave_family p t in
        ok (put u p (record (u.procs p) { xstate = code; status = zombie })))

-- What one pass of `wait` over the table finds: a zombie child, or whether there are children.
pub data Found : Type 0 where
  child : ℕ → Found
  children : Bool → Found

pub wait_scan : ℕ → ℕ → ℕ → Bool → Table → Found
wait_scan me i zero have t = children have
wait_scan me i (suc left) have t =
    let mine = is_some (t.procs i).parent me in
    let next = wait_scan me (i + 1) left (have || mine) t in
    if mine && is_zombie (t.procs i).status then child i else next

-- What `wait` does with a zombie child: `copied` is false if `vm::copyout` is called and fails.
pub reap : Bool → ℕ → Table → Outcome (Option ℕ × Table)
reap true i t = ok (some (t.procs i).pid, put t i (free (t.procs i)))
reap false i t = ok (none, t)

-- `wait`: the result is a pid, or -1 as `none`.
pub wait : List (Table → Table) → ℕ → Bool → Table → Outcome (Option ℕ × Table)
wait [] me copied t = elim (wait_scan me 0 nproc false t) [
  | child i ↦ reap copied i t
  | children have ↦ if not have || (t.procs me).killed then ok (none, t) else blocked
]
wait (turn ∷ turns) me copied t = elim (wait_scan me 0 nproc false t) [
  | child i ↦ reap copied i t
  | children have ↦ elim (not have || (t.procs me).killed) [
    | true ↦ ok (none, t)
    | false ↦ wait turns me copied (turn t)
  ]
]

-- What `fork` does once `alloc_proc` has returned. -1 is `none`. The copying of the registers, the
-- user, the files, the directory and the name is left out.
pub fork_child : Bool → ℕ → Option ℕ → Table → Outcome (Option ℕ × Table)
fork_child copied me none t = ok (none, t)
fork_child true me (some np) t = ok (
  some (t.procs np).pid,
  put t np (record (t.procs np) { sz = (t.procs me).sz; parent = some me; status = runnable }),
)
fork_child false me (some np) t = ok (none, put t np (free (t.procs np)))

-- `fork` of the process `me`; `copied` is the result of `vm::uvm_copy`.
pub fork : Option ℕ → Option ℕ → Bool → ℕ → Table → Outcome (Option ℕ × Table)
fork frame pagetable copied me t =
    alloc_proc frame pagetable t >>= λ r. fork_child copied me r.0 r.1

-- One step of the scheduler's loop: the process is run if it may run.
pub dispatch : ℕ → Table → Table
dispatch i t =
    if is_runnable (t.procs i).status then put t i (record (t.procs i) { status = running }) else t

-- `yield` up to the call of `sched`.
abbrev pub yield_cpu : ℕ → Table → Table
yield_cpu me t = put t me (record (t.procs me) { status = runnable })

-- `sleep` up to the call of `sched`, and from there on.
abbrev pub fall_asleep : ℕ → Chan → Table → Table
fall_asleep me c t = put t me (record (t.procs me) { chan = c; status = sleeping })

abbrev pub woken_up : ℕ → Table → Table
woken_up me t = put t me (record (t.procs me) { chan = nowhere })
