-- ===== src/Proc/Ids.antt =====
-- Process identifiers: every slot in use has its own, and it was handed out.
use os_cpp.Base.{
  Bool-cases, update, update_self, update_ne, ℕ, zero, suc, ◌+◌, ◌<◌, ◌≡◌, refl, sym, ap, ◌∙◌, inl,
  inr, false, Option, some, arith,
}
use os_cpp.Proc.{
  on_process, nproc, Chan, Process, Table, is_unused, is_some, put, wakeup, reparent_loop, reparent,
}
use os_cpp.Proc.Scan.{wakeup_ids, wakeup_loop_globals}
use native.Mathlib.Decide.{ℕ_discrete}

pub record IsValid (t : Table) : Type 0 where
  pub issued :
      (i : ℕ)
      → is_unused (t.procs i).status ≡ false
      → (0 < (t.procs i).pid) × ((t.procs i).pid < t.next_pid)
  pub distinct :
      (i j : ℕ)
      → is_unused (t.procs i).status ≡ false
      → is_unused (t.procs j).status ≡ false
      → (t.procs i).pid ≡ (t.procs j).pid
      → i ≡ j
  pub started : 0 < t.next_pid

-- The table after a routine that neither claims nor frees a slot.
pub record SameIds (t u : Table) : Type 0 where
  pub pids : (i : ℕ) → (u.procs i).pid ≡ (t.procs i).pid
  pub uses : (i : ℕ) → is_unused (u.procs i).status ≡ is_unused (t.procs i).status
  pub next : u.next_pid ≡ t.next_pid
  pub first : u.init_proc ≡ t.init_proc

pub SameIds-trans : {t u w : Table} → SameIds t u → SameIds u w → SameIds t w
SameIds-trans a b = record {
  pids = λ i. b.pids i ∙ a.pids i;
  uses = λ i. b.uses i ∙ a.uses i;
  next = b.next ∙ a.next;
  first = b.first ∙ a.first;
}

pub SameIds-IsValid : {t u : Table} → SameIds t u → IsValid t → IsValid u
SameIds-IsValid {t} {u} s v = record {
  issued = λ i e.
      let old = v.issued i (sym (s.uses i) ∙ e) in
      (omega (arith, s.pids i), omega (arith, s.pids i, s.next));
  distinct = λ i j e f p.
      v.distinct i j (sym (s.uses i) ∙ e) (sym (s.uses j) ∙ f) (sym (s.pids i) ∙ p ∙ s.pids j);
  started = omega (arith, s.next, v.started);
}

-- One slot rewritten, its pid and its use kept.
pub put-SameIds :
    (t : Table) (i : ℕ) (p : Process)
    → p.pid ≡ (t.procs i).pid
    → is_unused p.status ≡ is_unused (t.procs i).status
    → SameIds t (put t i p)
put-SameIds t i p e f = record {
  pids = λ j. elim (ℕ_discrete i j) [
    | yes h ↦
        ap (λ (q : Process). q.pid) (ap (update t.procs i p) (sym h) ∙ update_self t.procs i p)
        ∙ e
        ∙ ap (λ (k : ℕ). (t.procs k).pid) h
    | no h ↦ ap (λ (q : Process). q.pid) (update_ne t.procs i j p h)
  ];
  uses = λ j. elim (ℕ_discrete i j) [
    | yes h ↦
        ap (λ (q : Process). is_unused q.status)
          (ap (update t.procs i p) (sym h) ∙ update_self t.procs i p)
        ∙ f
        ∙ ap (λ (k : ℕ). is_unused (t.procs k).status) h
    | no h ↦ ap (λ (q : Process). is_unused q.status) (update_ne t.procs i j p h)
  ];
  next = refl;
  first = refl;
}

pub wakeup-SameIds : (me : Option ℕ) (c : Chan) (t : Table) → SameIds t (wakeup me c t)
wakeup-SameIds me c t = record {
  pids = λ i. (wakeup_ids me c t i).0;
  uses = λ i. (wakeup_ids me c t i).1;
  next = unfold wakeup in (wakeup_loop_globals me c 0 nproc t).0;
  first = unfold wakeup in (wakeup_loop_globals me c 0 nproc t).1;
}

reparent_loop-SameIds : (p i left : ℕ) (t : Table) → SameIds t (reparent_loop p i left t)
unfolding reparent_loop
reparent_loop-SameIds p i zero t = record {
  pids = λ j. refl;
  uses = λ j. refl;
  next = refl;
  first = refl;
}
reparent_loop-SameIds p i (suc left) t = elim (Bool-cases (is_some (t.procs i).parent p)) [
  | inl e ↦
      let u = put t i (record (t.procs i) { parent = some t.init_proc }) in
      rw (e, reparent_loop)
        (SameIds-trans
          (SameIds-trans
            (put-SameIds t i (record (t.procs i) { parent = some t.init_proc }) refl refl)
            (wakeup-SameIds (some p) (on_process t.init_proc) u))
          (reparent_loop-SameIds p (i + 1) left (wakeup (some p) (on_process t.init_proc) u)))
  | inr e ↦ rw (e, reparent_loop) (reparent_loop-SameIds p (i + 1) left t)
]

pub reparent-SameIds : (p : ℕ) (t : Table) → SameIds t (reparent p t)
unfolding reparent
reparent-SameIds p t = reparent_loop-SameIds p 0 nproc t
