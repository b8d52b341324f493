-- ===== src/Proc/Family.antt =====
-- What exit does to the exiting process and to its children.
use os_cpp.Base.{
  ◌==◌, if◌then◌else◌, Bool-cases, update, update_ne, panic, Returns, ℕ, zero, suc, ◌+◌, ◌<◌, ◌≡◌,
  refl, ap, ◌∙◌, subst, ◌≢◌, inl, inr, true, false, Option, some, arith,
}
use os_cpp.Proc.{
  zombie, on_process, nproc, Process, Table, is_some, put, wakeup, reparent_loop, reparent,
  leave_family, exit,
}
use os_cpp.Proc.Scan.{within, wakeup_ids}
use os_cpp.Proc.Ids.{wakeup-SameIds}
use native.Mathlib.Decide.{ℕ_discrete}

-- The parent of a slot once the loop has passed over it.
abbrev pub new_parent : ℕ → ℕ → Option ℕ → Option ℕ
new_parent p init q = if is_some q p then some init else q

reparent_round :
    (p i : ℕ) (t : Table) (j : ℕ)
    → ((if is_some (t.procs i).parent p
          then wakeup
              (some p)
              (on_process t.init_proc)
              (put t i (record (t.procs i) { parent = some t.init_proc }))
          else t).procs
        j).parent
      ≡ (if i == j then new_parent p t.init_proc (t.procs j).parent else (t.procs j).parent)
reparent_round p i t j = elim (Bool-cases (is_some (t.procs i).parent p)) [
  | inl e ↦ rw e (
      (wakeup_ids (some p) (on_process t.init_proc)
        (put t i (record (t.procs i) { parent = some t.init_proc })) j).3
      ∙ (elim (ℕ_discrete i j) [
        | yes h ↦
            subst
              (λ k.
                ((update t.procs i (record (t.procs i) { parent = some t.init_proc })) k).parent ≡ (
                  if i == k
                  then new_parent p t.init_proc (t.procs k).parent
                  else (t.procs k).parent))
              h (ground arith)
        | no h ↦ ground arith
      ]))
  | inr e ↦ rw e (elim (ℕ_discrete i j) [
    | yes h ↦
        subst
          (λ k.
            (t.procs k).parent
            ≡ (if i == k then new_parent p t.init_proc (t.procs k).parent else (t.procs k).parent))
          h (ground arith)
    | no h ↦ ground arith
  ])
]

reparent_init :
    (p i : ℕ) (t : Table)
    → (if is_some (t.procs i).parent p
        then wakeup
            (some p)
            (on_process t.init_proc)
            (put t i (record (t.procs i) { parent = some t.init_proc }))
        else t).init_proc
      ≡ t.init_proc
reparent_init p i t = elim (Bool-cases (is_some (t.procs i).parent p)) [
  | inl e ↦
      rw e
        (wakeup-SameIds (some p) (on_process t.init_proc)
          (put t i (record (t.procs i) { parent = some t.init_proc }))).first
  | inr e ↦ rw e refl
]

reparent_loop_parent :
    (p i left : ℕ) (t : Table) (j : ℕ)
    → ((reparent_loop p i left t).procs j).parent ≡ (
        if within i left j then new_parent p t.init_proc (t.procs j).parent else (t.procs j).parent)
unfolding reparent_loop
reparent_loop_parent p i zero t j = let out : within i 0 j ≡ false = ground arith in rw out refl
reparent_loop_parent p i (suc left) t j =
    reparent_loop_parent p (i + 1) left _ j
    ∙ rw (reparent_init p i t, reparent_round p i t j)
        (elim (ℕ_discrete i j) [
          | yes e ↦
              let here : (i == j) ≡ true = ground arith in
              let out : within (i + 1) left j ≡ false = ground arith in
              let in_range : within i (suc left) j ≡ true = ground arith in
              rw (here, out, in_range) refl
          | no ne ↦
              let apart : (i == j) ≡ false = ground arith in
              let same : within (i + 1) left j ≡ within i (suc left) j = ground arith in
              rw (apart, same) refl
        ])

leave_family_parent :
    (p : ℕ) (t : Table) (j : ℕ)
    → j < nproc
    → ((leave_family p t).procs j).parent ≡ new_parent p t.init_proc (t.procs j).parent
unfolding leave_family reparent
leave_family_parent p t j lt =
    let in_range : within 0 nproc j ≡ true = ground arith in
    (wakeup_ids (some p) _ (reparent_loop p 0 nproc t) j).3
    ∙ reparent_loop_parent p 0 nproc t j
    ∙ rw in_range refl

-- exit of a process other than init makes it a zombie with its exit status, gives each of its
-- children to init, and changes no other process's parent.
pub exit_lem :
    (p code : ℕ) (t : Table)
    → p ≢ t.init_proc
    → Returns
        (λ u.
          ((u.procs p).status ≡ zombie)
          × ((u.procs p).xstate ≡ code)
          × ((j : ℕ)
              → j < nproc
              → (u.procs j).parent ≡ new_parent p t.init_proc (t.procs j).parent))
        (exit p code t)
unfolding exit
exit_lem p code t ne =
    let miss : (p == t.init_proc) ≡ false = ground arith in
    rw (miss, Returns) (ground arith, ground arith, λ j lt. kept j ∙ leave_family_parent p t j lt)
  where
    gone : Process
    gone = record ((leave_family p t).procs p) { xstate = code; status = zombie }

    kept :
        (j : ℕ)
        → (update (leave_family p t).procs p gone j).parent ≡ ((leave_family p t).procs j).parent
    kept j = elim (ℕ_discrete p j) [
      | yes e ↦
          subst
            (λ k.
              (update (leave_family p t).procs p gone k).parent
              ≡ ((leave_family p t).procs k).parent)
            e (ground arith)
      | no h ↦ ap (λ (q : Process). q.parent) (update_ne (leave_family p t).procs p j gone h)
    ]

-- init itself may not exit.
pub exit-init : (code : ℕ) (t : Table) → exit t.init_proc code t ≡ panic "proc::exit: init exiting"
unfolding exit
exit-init code t = ground arith
