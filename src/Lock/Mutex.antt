-- ===== src/Lock/Mutex.antt =====
-- Any number of CPUs take and give back one spin lock, interleaved at each access to its fields.
use os_cpp.Base.{update, ℕ, ◌≡◌, refl, ap, ◌↔◌, Bool, true, false, none, some, arith}
use os_cpp.Lock.{Spinlock, is_cpu, holding}

-- Where a CPU is: outside; in the loop of `acquire`; past its test-and-set; holding the lock, `cpu`
-- set; in `release`, `cpu` cleared.
pub data Place : Type 0 where
  outside spinning won inside clearing : Place

pub record System : Type 0 where
  pub lock : Spinlock
  pub place : ℕ → Place

abbrev pub go : System → ℕ → Place → ℕ → Place
go s i p = update s.place i p

pub data Step (s : System) : System → Type 0 where
  enter :
      (i : ℕ)
      → s.place i ≡ outside
      → holding i s.lock ≡ false
      → Step s (record s { place = go s i spinning })
  spin : (i : ℕ) → s.place i ≡ spinning → s.lock.locked ≡ true → Step s s
  set_locked :
      (i : ℕ)
      → s.place i ≡ spinning
      → s.lock.locked ≡ false
      → Step s (record { lock = record { locked = true; cpu = s.lock.cpu }; place = go s i won })
  set_cpu :
      (i : ℕ)
      → s.place i ≡ won
      → Step s
          (record { lock = record { locked = s.lock.locked; cpu = some i }; place = go s i inside })
  clear_cpu :
      (i : ℕ)
      → s.place i ≡ inside
      → holding i s.lock ≡ true
      → Step s
          (record { lock = record { locked = s.lock.locked; cpu = none }; place = go s i clearing })
  clear_locked :
      (i : ℕ)
      → s.place i ≡ clearing
      → Step s
          (record { lock = record { locked = false; cpu = s.lock.cpu }; place = go s i outside })

abbrev pub initial : System
initial = record { lock = record { locked = false; cpu = none }; place = λ i. outside }

pub data Reach : System → Type 0 where
  start : Reach initial
  later : {s t : System} → Reach s → Step s t → Reach t

-- Between the test-and-set and the clearing of `locked`.
abbrev pub owns : Place → Bool
owns outside = false
owns spinning = false
owns won = true
owns inside = true
owns clearing = true

abbrev pub is_inside : Place → Bool
is_inside inside = true
is_inside _ = false

pub record Inv (s : System) : Type 0 where
  pub held : (i : ℕ) → owns (s.place i) ≡ true → s.lock.locked ≡ true
  pub single : (i j : ℕ) → owns (s.place i) ≡ true → owns (s.place j) ≡ true → i ≡ j
  pub named : (i : ℕ) → is_inside (s.place i) ≡ true → is_cpu s.lock.cpu i ≡ true
  pub named_only : (i : ℕ) → is_cpu s.lock.cpu i ≡ true → is_inside (s.place i) ≡ true

Step-Inv : {s t : System} → Step s t → Inv s → Inv t
Step-Inv {s} (enter i p q) v = record {
  held = λ j e. ground (arith, v.held j);
  single = λ j k e f. ground (arith, v.single j k);
  named = λ j e. ground (arith, v.named j);
  named_only = λ j e. ground (arith, v.named_only j, ap s.place, v.named_only i);
}
Step-Inv (spin i p q) v = v
Step-Inv {s} (set_locked i p q) v = record {
  held = λ j e. refl;
  single = λ j k e f. ground (arith, v.single j k, v.held j, v.held k);
  named = λ j e. ground (arith, v.named j);
  named_only = λ j e. ground (arith, v.named_only j, v.named_only i);
}
Step-Inv {s} (set_cpu i p) v = record {
  held = λ j e. ground (arith, v.held j, v.held i);
  single = λ j k e f. ground (arith, v.single j k, v.single i k, v.single j i);
  named = λ j e. ground (arith, v.named j, v.single i j);
  named_only = λ j e. ground arith;
}
Step-Inv {s} (clear_cpu i p q) v = record {
  held = λ j e. ground (arith, v.held j, v.held i);
  single = λ j k e f. ground (arith, v.single j k, v.single i k, v.single j i);
  named = λ j e. ground (arith, v.named j, v.single i j);
  named_only = λ j e. ground arith;
}
Step-Inv {s} (clear_locked i p) v = record {
  held = λ j e. ground (arith, v.single i j);
  single = λ j k e f. ground (arith, v.single j k);
  named = λ j e. ground (arith, v.named j);
  named_only = λ j e. ground (arith, v.named_only j, v.named_only i);
}

pub Reach-Inv : {s : System} → Reach s → Inv s
Reach-Inv start = record {
  held = λ i e. cc;
  single = λ i j e f. cc;
  named = λ i e. cc;
  named_only = λ i e. cc;
}
Reach-Inv (later r st) = Step-Inv st (Reach-Inv r)

-- Whatever the interleaving, two CPUs are never between taking a lock and giving it back at once.
pub mutual_exclusion :
    {s : System} (i j : ℕ) → Reach s → owns (s.place i) ≡ true → owns (s.place j) ≡ true → i ≡ j
mutual_exclusion i j r p q = (Reach-Inv r).single i j p q

-- `holding` is exact: it is true on the CPU that holds the lock, and on no other.
pub holding_iff : {s : System} (i : ℕ) → Reach s → (holding i s.lock ≡ true) ↔ (s.place i ≡ inside)
unfolding holding
holding_iff {s} i r = (
  λ e. ground (arith, (Reach-Inv r).named_only i),
  λ e. ground (arith, (Reach-Inv r).held i, (Reach-Inv r).named i),
)
