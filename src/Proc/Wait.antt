-- ===== src/Proc/Wait.antt =====
-- What wait finds, and what it does with it.
use os_cpp.Base.{
  Bool-cases, ok, Ensures, ℕ, zero, suc, ◌+◌, ◌≤◌, ◌<◌, ◌≡◌, refl, sym, subst, ◌≢◌, ◌⊎◌, inl, inr,
  Bool, true, false, not, ◌&&◌, ◌||◌, Option, some, List, [], ◌∷◌, arith,
}
use os_cpp.Proc.{
  child, children, nproc, Table, is_zombie, is_some, put, free, Found, wait_scan, reap, wait,
}
use os_cpp.Proc.Ids.{IsValid}
use os_cpp.Proc.Life.{put_free-IsValid}

-- A zombie child of `me`.
abbrev pub IsZombieChild : ℕ → Table → ℕ → Type 0
IsZombieChild me t i =
    (is_some (t.procs i).parent me ≡ true) × (is_zombie (t.procs i).status ≡ true)

pub Found-cases : (f : Found) → ((i : ℕ) × (f ≡ child i)) ⊎ ((have : Bool) × (f ≡ children have))
Found-cases (child i) = inl (i, refl)
Found-cases (children have) = inr (have, refl)

-- The slot that the scan finds is a zombie child.
wait_scan_found :
    (me i left : ℕ) (have : Bool) (t : Table) (k : ℕ)
    → wait_scan me i left have t ≡ child k
    → IsZombieChild me t k
unfolding wait_scan
wait_scan_found me i zero have t k e = absurd (cc e)
wait_scan_found me i (suc left) have t k e =
    elim (Bool-cases (is_some (t.procs i).parent me && is_zombie (t.procs i).status)) [
      | inl q ↦ let here : i ≡ k = ground arith in subst (IsZombieChild me t) here (ground arith)
      | inr q ↦
          wait_scan_found me (i + 1) left (have || is_some (t.procs i).parent me) t k (ground arith)
    ]

-- If a slot in the range is a zombie child, the scan finds one.
wait_scan_finds :
    (me i left : ℕ) (have : Bool) (t : Table) (k : ℕ)
    → i ≤ k
    → k < i + left
    → IsZombieChild me t k
    → (j : ℕ) × (wait_scan me i left have t ≡ child j)
unfolding wait_scan
wait_scan_finds me i zero have t k le lt z = absurd (omega arith)
wait_scan_finds me i (suc left) have t k le lt z =
    elim (Bool-cases (is_some (t.procs i).parent me && is_zombie (t.procs i).status)) [
      | inl q ↦ (i, rw q)
      | inr q ↦
          let ne : i ≢ k = λ e. let zi = subst (IsZombieChild me t) (sym e) z in ground arith in
          let (j, found) =
            wait_scan_finds me (i + 1) left (have || is_some (t.procs i).parent me) t k
              (omega arith) (omega arith) z in
          (j, rw q found)
    ]

-- With a zombie child in the table, and if the child's status can be copied out or is not asked for,
-- wait does not sleep: it returns the pid of such a child, and
-- exactly that child's slot is freed.
pub wait_reaps :
    (turns : List (Table → Table)) (me k : ℕ) (t : Table)
    → k < nproc
    → IsZombieChild me t k
    → (i : ℕ) × IsZombieChild me t i
      × (wait turns me true t ≡ ok (some (t.procs i).pid, put t i (free (t.procs i))))
unfolding wait reap
wait_reaps [] me k t lt z =
    let (i, e) = wait_scan_finds me 0 nproc false t k (omega arith) (omega arith) z in
    (i, wait_scan_found me 0 nproc false t i e, rw (e, wait))
wait_reaps (turn ∷ turns) me k t lt z =
    let (i, e) = wait_scan_finds me 0 nproc false t k (omega arith) (omega arith) z in
    (i, wait_scan_found me 0 nproc false t i e, rw (e, wait))

reap-IsValid :
    (copied : Bool) (i : ℕ) (t : Table)
    → IsValid t
    → Ensures (λ (r : Option ℕ × Table). IsValid r.1) (reap copied i t)
unfolding reap
reap-IsValid true i t v = put_free-IsValid t i _ refl v
reap-IsValid false i t v = v

pub wait-IsValid :
    (me : ℕ) (copied : Bool) (t : Table)
    → IsValid t
    → Ensures (λ (r : Option ℕ × Table). IsValid r.1) (wait [] me copied t)
unfolding wait
wait-IsValid me copied t v = elim (Found-cases (wait_scan me 0 nproc false t)) [
  | inl (i, e) ↦ rw (e, Ensures, wait) (reap-IsValid copied i t v)
  | inr (have, e) ↦
      rw (e, Ensures, wait)
        (elim (Bool-cases (not have || (t.procs me).killed)) [
          | inl q ↦ rw (q, Ensures) v
          | inr q ↦ rw (q, Ensures) tt
        ])
]
