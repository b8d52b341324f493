-- ===== src/Lock.antt =====
-- kernel/lock.cpp and lock.h: spin locks, sleep locks and the nesting of interrupt masking.
pub mod Nesting
pub mod Mutex
mod Tests
use os_cpp.Base.{
  ltb, ◌==◌, if◌then◌else◌, ok, panic, blocked, Outcome, ◌>>=◌, ℕ, ◌+◌, ◌-◌, ◌%◌, ◌^◌, Bool, true,
  false, not, ◌&&◌, Option, none, some, List, [], ◌∷◌,
}

-- The fields of `struct cpu` that the locks use, and whether interrupts are on (`sstatus.SIE`).
pub record Cpu : Type 0 where
  pub noff : ℕ
  pub intena : Bool
  pub intr : Bool

-- `class spinlock`; a CPU is its index.
pub record Spinlock : Type 0 where
  pub locked : Bool
  pub cpu : Option ℕ

-- `class sleeplock`, without the spin lock that guards it: each routine is one critical section.
pub record Sleeplock : Type 0 where
  pub is_locked : Bool
  pub pid : ℕ

abbrev pub is_cpu : Option ℕ → ℕ → Bool
is_cpu none me = false
is_cpu (some c) me = c == me

pub holding : ℕ → Spinlock → Bool
holding me l = l.locked && is_cpu l.cpu me

pub push_off : Cpu → Cpu
push_off c = record c {
  intr = false;
  intena = if c.noff == 0 then c.intr else c.intena;
  noff = (c.noff + 1) % 2 ^ 32;
}

pub pop_off : Cpu → Outcome Cpu
pop_off c =
    if c.intr
    then panic "pop_off - interruptible"
    else if ltb c.noff 1
    then panic "pop_off"
    else ok (record c {
      noff = c.noff - 1;
      intr = if c.noff - 1 == 0 && c.intena then true else c.intr;
    })

-- `spinlock::acquire` by a CPU that finds the lock free; while another holds it, it spins.
pub acquire : ℕ → Spinlock → Cpu → Outcome (Spinlock × Cpu)
acquire me l c =
    let c' = push_off c in
    if holding me l
    then panic "lock::acquire: already holding the lock"
    else if l.locked
    then blocked
    else ok (record { locked = true; cpu = some me }, c')

pub release : ℕ → Spinlock → Cpu → Outcome (Spinlock × Cpu)
release me l c =
    if not (holding me l)
    then panic "lock::release: no lock"
    else (pop_off c >>= λ c'. ok (record { locked = false; cpu = none }, c'))

-- `sleeplock::acquire`; a turn is what the others do to the lock while the caller sleeps.
pub sleep_acquire : List (Sleeplock → Sleeplock) → ℕ → Sleeplock → Outcome Sleeplock
sleep_acquire [] me l = if l.is_locked then blocked else ok (record { is_locked = true; pid = me })
sleep_acquire (t ∷ turns) me l =
    let again = sleep_acquire turns me (t l) in
    if l.is_locked then again else ok (record { is_locked = true; pid = me })

pub sleep_release : Sleeplock → Sleeplock
sleep_release l = record { is_locked = false; pid = 0 }

pub sleep_holding : ℕ → Sleeplock → Bool
sleep_holding me l = l.is_locked && l.pid == me
