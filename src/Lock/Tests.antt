-- ===== src/Lock/Tests.antt =====
-- Runs of the locks, and their theorems at concrete states.
use os_cpp.Base.{
  panic, ◌>>=◌, Ensures, Returns, ℕ, ◌≡◌, refl, ◌≢◌, ◌↔◌, true, false, none, some, [], ◌∷◌, arith,
}
use os_cpp.Lock.{
  Cpu, Spinlock, holding, push_off, pop_off, acquire, release, sleep_acquire, sleep_release,
  sleep_holding,
}
use os_cpp.Lock.Nesting.{
  Restores, pop_off-push_off, release-acquire, acquire_twice, sleep_acquire_holds,
}
use os_cpp.Lock.Mutex.{
  spinning, won, inside, enter, set_locked, set_cpu, start, later, System, go, initial, Reach,
  mutual_exclusion, holding_iff,
}

abbrev cpu : Cpu
cpu = record { noff = 0; intena = false; intr = true }

abbrev free_lock : Spinlock
free_lock = record { locked = false; cpu = none }

nested : Returns (λ d. (d.noff ≡ 1) × (d.intr ≡ false)) (pop_off (push_off (push_off cpu)))
unfolding pop_off push_off
nested = (refl, refl)

pop_off-push_off_example : Returns (Restores cpu) (pop_off (push_off cpu))
pop_off-push_off_example = (pop_off-push_off cpu (λ ne. absurd (ne refl), omega arith)).1

release-acquire_run :
    Returns
      (λ r. (r.0.locked ≡ false) × Restores cpu r.1)
      (acquire 2 free_lock cpu >>= λ r. release 2 r.0 r.1)
release-acquire_run = release-acquire 2 free_lock cpu (λ ne. absurd (ne refl), omega arith) refl

acquire_twice_example : release 2 free_lock cpu ≡ panic "lock::release: no lock"
unfolding holding
acquire_twice_example = (acquire_twice 2 free_lock cpu).1 refl

sleep_acquire_holds_example :
    Ensures
      (λ r.
        (sleep_holding 4 r ≡ true)
        × ((other : ℕ) → other ≢ 4 → sleep_holding other r ≡ false)
        × ((p : ℕ) → sleep_holding p (sleep_release r) ≡ false))
      (sleep_acquire (sleep_release ∷ []) 4 (record { is_locked = true; pid = 3 }))
sleep_acquire_holds_example =
    sleep_acquire_holds (sleep_release ∷ []) 4 (record { is_locked = true; pid = 3 })

-- CPU 0 holds the lock, and CPU 1 spins.
abbrev crowded : System
crowded = record {
  lock = record { locked = true; cpu = some 0 };
  place =
      go
        (record {
          lock = free_lock;
          place =
              go
                (record {
                  lock = free_lock;
                  place =
                      go (record { lock = free_lock; place = go initial 0 spinning }) 1 spinning;
                })
                0 won;
        })
        0 inside;
}

crowded_reached : Reach crowded
unfolding holding
crowded_reached =
    later
      (later (later (later start (enter 0 refl refl)) (enter 1 refl refl)) (set_locked 0 refl refl))
      (set_cpu 0 refl)

mutual_exclusion_example : ◌≡◌ {A = ℕ} 0 0
mutual_exclusion_example = mutual_exclusion {s = crowded} 0 0 crowded_reached refl refl

holding_iff_example : (holding 1 crowded.lock ≡ true) ↔ (crowded.place 1 ≡ inside)
holding_iff_example = holding_iff {s = crowded} 1 crowded_reached
