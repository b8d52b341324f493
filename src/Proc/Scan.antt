-- ===== src/Proc/Scan.antt =====
-- What the loops over the process table do to each slot.
use os_cpp.Base.{
  ltb, leb, ◌==◌, if◌then◌else◌, ==_iff, Bool-cases, ok, ℕ, zero, suc, ◌+◌, ◌≤◌, ◌<◌, ◌≡◌, refl, ap,
  ◌∙◌, subst, ◌≢◌, inl, inr, Bool, true, false, not, ◌&&◌, Option, none, some, arith,
}
use os_cpp.Proc.{
  nproc, Chan, Table, is_unused, is_zombie, is_some, put, claim, alloc_loop, alloc_proc, wake_one,
  wakeup_loop, wakeup, kill_one, kill_loop, kill,
}
use native.Mathlib.Decide.{ℕ_discrete}

abbrev pub within : ℕ → ℕ → ℕ → Bool
within i left j = leb i j && ltb j (i + left)

wake_slot :
    (me : Option ℕ) (c : Chan) (i : ℕ) (t : Table) (j : ℕ)
    → (if is_some me i then t else put t i (wake_one c (t.procs i))).procs j
      ≡ (if i == j && not (is_some me j) then wake_one c (t.procs j) else t.procs j)
wake_slot me c i t j = elim (ℕ_discrete i j) [
  | yes e ↦
      subst
        (λ k.
          (if is_some me i then t else put t i (wake_one c (t.procs i))).procs k
          ≡ (if i == k && not (is_some me k) then wake_one c (t.procs k) else t.procs k))
        e
        (elim (Bool-cases (is_some me i)) [
          | inl q ↦ rw q (ground arith)
          | inr q ↦ rw q (ground arith)
        ])
  | no ne ↦
      let apart : (i == j) ≡ false = ground arith in
      elim (Bool-cases (is_some me i)) [ inl q ↦ rw (q, apart) refl | inr q ↦ rw (q, apart) refl ]
]

wakeup_loop_procs :
    (me : Option ℕ) (c : Chan) (i left : ℕ) (t : Table) (j : ℕ)
    → (wakeup_loop me c i left t).procs j
      ≡ (if within i left j && not (is_some me j) then wake_one c (t.procs j) else t.procs j)
unfolding wakeup_loop
wakeup_loop_procs me c i zero t j = let out : within i 0 j ≡ false = ground arith in rw out refl
wakeup_loop_procs me c i (suc left) t j =
    wakeup_loop_procs me c (i + 1) left _ j
    ∙ (rw (wake_slot me c i t j) (elim (ℕ_discrete i j) [
      | yes e ↦
          let here : (i == j) ≡ true = ground arith in
          let out : within (i + 1) left j ≡ false = ground arith in
          let in_range : within i (suc left) j ≡ true = ground arith in
          rw (here, out, in_range) refl
      | no ne ↦
          let apart : (i == j) ≡ false = ground arith in
          let same : within (i + 1) left j ≡ within i (suc left) j = ground arith in
          rw (apart, same) refl
    ]))

pub wakeup_ids :
    (me : Option ℕ) (c : Chan) (t : Table) (j : ℕ)
    → ((((wakeup me c t).procs j).pid ≡ (t.procs j).pid)
        × (is_unused ((wakeup me c t).procs j).status ≡ is_unused (t.procs j).status)
        × (is_zombie ((wakeup me c t).procs j).status ≡ is_zombie (t.procs j).status)
        × (((wakeup me c t).procs j).parent ≡ (t.procs j).parent))
unfolding wakeup
wakeup_ids me c t j =
    rw (wakeup_loop_procs me c 0 nproc t j)
      (elim (Bool-cases (within 0 nproc j && not (is_some me j))) [
        | inl e ↦ rw e (ground arith)
        | inr e ↦ rw e (refl, refl, refl, refl)
      ])

pub wakeup_loop_globals :
    (me : Option ℕ) (c : Chan) (i left : ℕ) (t : Table)
    → ((wakeup_loop me c i left t).next_pid ≡ t.next_pid)
      × ((wakeup_loop me c i left t).init_proc ≡ t.init_proc)
unfolding wakeup_loop
wakeup_loop_globals me c i zero t = (refl, refl)
wakeup_loop_globals me c i (suc left) t = elim (Bool-cases (is_some me i)) [
  | inl q ↦ rw (q, wakeup_loop) (wakeup_loop_globals me c (i + 1) left t)
  | inr q ↦
      rw (q, wakeup_loop) (wakeup_loop_globals me c (i + 1) left (put t i (wake_one c (t.procs i))))
]

kill_loop_hit :
    (pid i left k : ℕ) (t : Table)
    → i ≤ k
    → k < i + left
    → (t.procs k).pid ≡ pid
    → ((j : ℕ) → j < k → (t.procs j).pid ≢ pid)
    → kill_loop pid i left t ≡ (some tt, put t k (kill_one (t.procs k)))
unfolding kill_loop
kill_loop_hit pid i zero k t le lt e before = absurd (omega arith)
kill_loop_hit pid i (suc left) k t le lt e before = elim (ℕ_discrete i k) [
  | yes here ↦
      let found : ((t.procs i).pid == pid) ≡ true = rw here ((==_iff _ _).1 e) in
      rw found (ap (λ (m : ℕ). (some tt, put t m (kill_one (t.procs m)))) here)
  | no ne ↦
      let miss : ((t.procs i).pid == pid) ≡ false = ground (arith, before i (omega arith)) in
      rw miss (kill_loop_hit pid (i + 1) left k t (omega arith) (omega arith) e before)
]

kill_loop_miss :
    (pid i left : ℕ) (t : Table)
    → ((j : ℕ) → j < i + left → (t.procs j).pid ≢ pid)
    → kill_loop pid i left t ≡ (none, t)
unfolding kill_loop
kill_loop_miss pid i zero t h = refl
kill_loop_miss pid i (suc left) t h =
    let miss : ((t.procs i).pid == pid) ≡ false = ground (arith, h i (omega arith)) in
    rw miss (kill_loop_miss pid (i + 1) left t (λ j lt. h j (omega arith)))

-- kill marks the first slot with the pid, makes it runnable if it sleeps, leaves the other slots
-- alone, and returns 0; with no such slot it changes nothing and returns -1.
pub kill_lem :
    (pid : ℕ) (t : Table)
    → ((k : ℕ)
        → k < nproc
        → (t.procs k).pid ≡ pid
        → ((j : ℕ) → j < k → (t.procs j).pid ≢ pid)
        → kill pid t ≡ (some tt, put t k (kill_one (t.procs k))))
      × (((j : ℕ) → j < nproc → (t.procs j).pid ≢ pid) → kill pid t ≡ (none, t))
unfolding kill
kill_lem pid t = (
  λ k lt e before. kill_loop_hit pid 0 nproc k t (omega arith) lt e before,
  λ h. kill_loop_miss pid 0 nproc t h,
)

alloc_loop_hit :
    (frame pagetable : Option ℕ) (i left k : ℕ) (t : Table)
    → i ≤ k
    → k < i + left
    → is_unused (t.procs k).status ≡ true
    → ((j : ℕ) → j < k → is_unused (t.procs j).status ≡ false)
    → alloc_loop frame pagetable i left t ≡ ok (claim frame pagetable k t)
unfolding alloc_loop
alloc_loop_hit frame pagetable i zero k t le lt e before = absurd (omega arith)
alloc_loop_hit frame pagetable i (suc left) k t le lt e before = elim (ℕ_discrete i k) [
  | yes here ↦
      let found : is_unused (t.procs i).status ≡ true = rw here e in
      rw found (ap (λ (m : ℕ). ok (claim frame pagetable m t)) here)
  | no ne ↦
      rw (before i (omega arith))
        (alloc_loop_hit frame pagetable (i + 1) left k t (omega arith) (omega arith) e before)
]

-- alloc_proc claims the first unused slot.
pub alloc_proc_first :
    (frame pagetable : Option ℕ) (k : ℕ) (t : Table)
    → k < nproc
    → is_unused (t.procs k).status ≡ true
    → ((j : ℕ) → j < k → is_unused (t.procs j).status ≡ false)
    → alloc_proc frame pagetable t ≡ ok (claim frame pagetable k t)
unfolding alloc_proc
alloc_proc_first frame pagetable k t lt e before =
    alloc_loop_hit frame pagetable 0 nproc k t (omega arith) lt e before
