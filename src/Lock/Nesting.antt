-- ===== src/Lock/Nesting.antt =====
-- push_off and pop_off nest, and locks are given back as they were taken.
use os_cpp.Base.{
  ◌==◌, Bool-cases, panic, ◌>>=◌, Ensures, Returns, Returns-bind, ℕ, ◌+◌, ◌^◌, ◌<◌, ◌≡◌, refl, ◌≢◌,
  inl, inr, true, false, List, [], ◌∷◌, arith,
}
use os_cpp.Lock.{
  Cpu, Spinlock, Sleeplock, holding, push_off, pop_off, acquire, release, sleep_acquire,
  sleep_release, sleep_holding,
}
use native.Mathlib.Decide.{ℕ_discrete}

-- Interrupts are off while the count is not 0.
abbrev pub IsMasked : Cpu → Type 0
IsMasked c = (c.noff ≢ 0 → c.intr ≡ false) × (c.noff + 1 < 2 ^ 32)

-- What pop_off undoes: the count and the interrupts are as they were, and so is the saved flag while
-- a section is still open.
abbrev pub Restores : Cpu → Cpu → Type 0
Restores c d = (d.noff ≡ c.noff) × (d.intr ≡ c.intr) × (c.noff ≢ 0 → d.intena ≡ c.intena)

-- push_off turns interrupts off, and the matching pop_off restores the state before it.
pub pop_off-push_off :
    (c : Cpu)
    → IsMasked c
    → ((push_off c).intr ≡ false) × Returns (Restores c) (pop_off (push_off c))
unfolding pop_off push_off
pop_off-push_off c m = (
  refl,
  elim (ℕ_discrete c.noff 0) [ yes e ↦ ground (arith, e) | no ne ↦ ground (arith, m.0 ne) ],
)

-- On a CPU that masks interrupts while locks nest, fewer than 2^32 deep, a free spin lock can be taken
-- and given back: neither call panics, the lock is free again, and the count and the interrupts of the
-- CPU are as they were.
pub release-acquire :
    (me : ℕ) (l : Spinlock) (c : Cpu)
    → IsMasked c
    → l.locked ≡ false
    → Returns
        (λ r. (r.0.locked ≡ false) × Restores c r.1)
        (acquire me l c >>= λ r. release me r.0 r.1)
unfolding acquire release holding
release-acquire me l c m free =
    rw (free, Returns)
      (let own : (me == me) ≡ true = ground arith in
        rw (own, Returns)
          (Returns-bind (Restores c) _ (pop_off (push_off c)) _ (pop_off-push_off c m).1
            λ d r. (refl, r)))

-- Taking a lock twice on one CPU panics, and so does giving back a lock that the CPU does not hold.
pub acquire_twice :
    (me : ℕ) (l : Spinlock) (c : Cpu)
    → (holding me l ≡ true → acquire me l c ≡ panic "lock::acquire: already holding the lock")
      × (holding me l ≡ false → release me l c ≡ panic "lock::release: no lock")
unfolding acquire release
acquire_twice me l c = (λ e. rw e, λ e. rw e)

-- Whoever returns from sleeplock::acquire holds the lock, and nobody else does; once it is given back
-- nobody does.
pub sleep_acquire_holds :
    (turns : List (Sleeplock → Sleeplock)) (me : ℕ) (l : Sleeplock)
    → Ensures
        (λ r.
          (sleep_holding me r ≡ true)
          × ((other : ℕ) → other ≢ me → sleep_holding other r ≡ false)
          × ((p : ℕ) → sleep_holding p (sleep_release r) ≡ false))
        (sleep_acquire turns me l)
unfolding sleep_acquire sleep_holding sleep_release
sleep_acquire_holds [] me l = elim (Bool-cases l.is_locked) [
  | inl e ↦ rw (e, Ensures) tt
  | inr e ↦ rw (e, Ensures) (ground arith, λ other ne. ground arith, λ p. refl)
]
sleep_acquire_holds (t ∷ turns) me l = elim (Bool-cases l.is_locked) [
  | inl e ↦ simp e (sleep_acquire_holds turns me (t l))
  | inr e ↦ rw (e, Ensures) (ground arith, λ other ne. ground arith, λ p. refl)
]
