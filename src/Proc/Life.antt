-- ===== src/Proc/Life.antt =====
-- What claiming a slot, fork and exit do to the process identifiers.
use os_cpp.Base.{
  ◌==◌, Bool-cases, Ensures, Ensures-bind, ℕ, zero, suc, ◌+◌, ◌%◌, ◌^◌, ◌<◌, ◌≡◌, refl, sym, ◌∙◌,
  inl, inr, Bool, true, false, Option, none, some, arith,
}
use os_cpp.Proc.{
  unused, zombie, nproc, Process, Table, is_unused, put, alloc_pid, claim, alloc_loop, alloc_proc,
  reparent, parent_chan, leave_family, exit, fork_child, fork,
}
use os_cpp.Proc.Ids.{
  IsValid, SameIds, SameIds-trans, SameIds-IsValid, put-SameIds, wakeup-SameIds, reparent-SameIds,
}

-- A slot is left free.
pub put_free-IsValid :
    (t : Table) (i : ℕ) (p : Process) → p.status ≡ unused → IsValid t → IsValid (put t i p)
put_free-IsValid t i p e v = record {
  issued = λ j f. ground (arith, v.issued j, e);
  distinct = λ j k f g. ground (arith, v.distinct j k, e);
  started = v.started;
}

-- A free slot is taken under the next pid.
put_claimed-IsValid :
    (t : Table) (i : ℕ) (p : Process)
    → p.pid ≡ t.next_pid
    → IsValid t
    → IsValid (put (record t { next_pid = t.next_pid + 1 }) i p)
put_claimed-IsValid t i p e v = record {
  issued = λ j f. ground (arith, v.issued j, v.started, e);
  distinct = λ j k f g h. ground (arith, v.distinct j k, v.issued j, v.issued k, e);
  started = omega arith;
}

more-IsValid : (t : Table) → IsValid t → IsValid (record t { next_pid = t.next_pid + 1 })
more-IsValid t v = record {
  issued = λ j f. (omega (arith, v.issued j f), omega (arith, v.issued j f));
  distinct = λ j k f g h. v.distinct j k f g h;
  started = omega arith;
}

-- What a claim leaves: a valid table; the slot is in use under the old `next_pid`, or free again.
claim_lem :
    (frame pagetable : Option ℕ) (i : ℕ) (t : Table)
    → t.next_pid + 1 < 2 ^ 32
    → IsValid t
    → IsValid (claim frame pagetable i t).1
      × ((np : ℕ)
          → (claim frame pagetable i t).0 ≡ some np
          → (np ≡ i)
            × (((claim frame pagetable i t).1.procs np).pid ≡ t.next_pid)
            × (is_unused ((claim frame pagetable i t).1.procs np).status ≡ false))
unfolding claim alloc_pid
claim_lem none pagetable i t lt v =
    let exact : (t.next_pid + 1) % 2 ^ 32 ≡ t.next_pid + 1 = omega arith in
    rw exact (
      put_free-IsValid (record t { next_pid = t.next_pid + 1 }) i _ refl (more-IsValid t v),
      λ np e. cc,
    )
claim_lem (some f) none i t lt v =
    let exact : (t.next_pid + 1) % 2 ^ 32 ≡ t.next_pid + 1 = omega arith in
    rw exact (
      put_free-IsValid (record t { next_pid = t.next_pid + 1 }) i _ refl (more-IsValid t v),
      λ np e. cc,
    )
claim_lem (some f) (some pt) i t lt v =
    let exact : (t.next_pid + 1) % 2 ^ 32 ≡ t.next_pid + 1 = omega arith in
    rw exact (put_claimed-IsValid t i _ refl v, λ np e. ground arith)

alloc_loop_lem :
    (frame pagetable : Option ℕ) (i left : ℕ) (t : Table)
    → t.next_pid + 1 < 2 ^ 32
    → IsValid t
    → Ensures
        (λ r. IsValid r.1 × ((np : ℕ) → r.0 ≡ some np → is_unused (r.1.procs np).status ≡ false))
        (alloc_loop frame pagetable i left t)
unfolding alloc_loop
alloc_loop_lem frame pagetable i zero t lt v = tt
alloc_loop_lem frame pagetable i (suc left) t lt v =
    elim (Bool-cases (is_unused (t.procs i).status)) [
      | inl e ↦
          let done = claim_lem frame pagetable i t lt v in
          rw (e, Ensures) (done.0, λ np h. (done.1 np h).2)
      | inr e ↦ rw (e, Ensures) (alloc_loop_lem frame pagetable (i + 1) left t lt v)
    ]

fork_child-IsValid :
    (copied : Bool) (me : ℕ) (o : Option ℕ) (t : Table)
    → IsValid t
    → ((np : ℕ) → o ≡ some np → is_unused (t.procs np).status ≡ false)
    → Ensures (λ (r : Option ℕ × Table). IsValid r.1) (fork_child copied me o t)
unfolding fork_child
fork_child-IsValid copied me none t v used = v
fork_child-IsValid true me (some np) t v used =
    SameIds-IsValid (put-SameIds t np _ refl (sym (used np refl))) v
fork_child-IsValid false me (some np) t v used = put_free-IsValid t np _ refl v

pub fork-IsValid :
    (frame pagetable : Option ℕ) (copied : Bool) (me : ℕ) (t : Table)
    → t.next_pid + 1 < 2 ^ 32
    → IsValid t
    → Ensures (λ (r : Option ℕ × Table). IsValid r.1) (fork frame pagetable copied me t)
unfolding fork alloc_proc
fork-IsValid frame pagetable copied me t lt v =
    Ensures-bind _ (λ r. IsValid r.1) (alloc_loop frame pagetable 0 nproc t) _
      (alloc_loop_lem frame pagetable 0 nproc t lt v)
      λ r h. fork_child-IsValid copied me r.0 r.1 h.0 h.1

pub leave_family-SameIds : (p : ℕ) (t : Table) → SameIds t (leave_family p t)
unfolding leave_family
leave_family-SameIds p t =
    SameIds-trans (reparent-SameIds p t)
      (wakeup-SameIds (some p) (parent_chan ((reparent p t).procs p).parent) (reparent p t))

pub exit-IsValid :
    (p code : ℕ) (t : Table)
    → is_unused (t.procs p).status ≡ false
    → IsValid t
    → Ensures IsValid (exit p code t)
unfolding exit
exit-IsValid p code t live v = elim (Bool-cases (p == t.init_proc)) [
  | inl e ↦ rw (e, Ensures) tt
  | inr e ↦
      let same = leave_family-SameIds p t in
      rw (e, Ensures)
        (SameIds-IsValid
          (put-SameIds (leave_family p t) p
            (record ((leave_family p t).procs p) { xstate = code; status = zombie }) refl
            (sym (same.uses p ∙ live)))
          (SameIds-IsValid same v))
]
