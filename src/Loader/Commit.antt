-- ===== src/Loader/Commit.antt =====
-- What `exec` leaves of the process when it fails.
use os_cpp.Base.{
  leb, ◌==◌, length, ok, panic, blocked, fault, Outcome, ◌>>=◌, Ensures, Ensures-bind,
  Ensures-after, Ensures-call, Ensures-option, Ensures-bool, Ensures-if, Ensures-pair, ℕ, ◌+◌, ◌*◌,
  ◌%◌, ◌^◌, ◌≤◌, ◌≡◌, refl, sym, ap, ◌∙◌, subst, ◌⊎◌, inl, inr, true, false, Option, none, some,
  List, arith,
}
use os_cpp.Arch.{pgsize, pg_round_up}
use os_cpp.Vm.{Mem}
use os_cpp.Vm.User.{uvm_alloc, uvm_clear}
use os_cpp.Vm.Copy.{sub64}
use os_cpp.Content.{Volume, iunlockput}
use os_cpp.Sysfile.{Sys, begin_op, end_op, set_volume}
use os_cpp.Loader.{Task, alloc_pagetable, free_pagetable, field, fail_work, failed, load_segments}
use os_cpp.Loader.Exec.{push_all, last_name, commit, build_stack, exec}
use os_cpp.Loader.Segments.{Same, Same-trans, read_header-mem, load_segments-Same}

-- What `alloc_pagetable` gives for the process: a page table or none, and the memory after it.
abbrev Allocates : Task → Option ℕ × Mem → Type 0
Allocates t r = alloc_pagetable t.trampoline_page t.trapframe_page t.sys.mem ≡ ok r

-- The memory is left by freeing a page table that was allocated for the process.
pub record NewFreed (t : Task) (m : Mem) : Type 0 where
  pub table : ℕ
  pub size : ℕ
  pub allocated : Mem
  pub before : Mem
  pub made : Allocates t (some table, allocated)
  pub freed : free_pagetable table size before ≡ ok m

-- The memory after a failed call: the old one, or that after a page table that could not be
-- allocated, or that after the new page table is freed.
abbrev pub Undone : Task → Mem → Type 0
Undone t m = (m ≡ t.sys.mem) ⊎ (Allocates t (none, m) ⊎ NewFreed t m)

-- The process has a page table that was allocated for it, and its old one is freed.
pub record Replaced (t t' : Task) : Type 0 where
  pub allocated : Mem
  pub before : Mem
  pub made : Allocates t (some t'.sys.pagetable, allocated)
  pub freed : free_pagetable t.sys.pagetable t.sys.sz before ≡ ok t'.sys.mem

-- The transaction is over, and the call is done or undone.
pub record Commits (t : Task) (r : Option ℕ × Task) : Type 0 where
  pub ops : r.1.sys.ops ≡ t.sys.ops
  pub memory : r.0 ≡ none → (r.1.sys.pagetable ≡ t.sys.pagetable) × (r.1.sys.sz ≡ t.sys.sz)
  pub registers :
      r.0 ≡ none → (r.1.a1 ≡ t.a1) × (r.1.epc ≡ t.epc) × (r.1.sp ≡ t.sp) × (r.1.name ≡ t.name)
  pub undone : r.0 ≡ none → Undone t r.1.sys.mem
  pub replaced : (n : ℕ) → r.0 ≡ some n → Replaced t r.1

-- The transactions that `fail_work` ends.
abbrev ended : Option ℕ → ℕ
ended none = 0
ended (some i) = 1

-- The new page table given back, if there is one.
abbrev given_back : Option ℕ → ℕ → Mem → Outcome Mem
given_back pt sz m = elim pt [ none ↦ ok m | some p ↦ free_pagetable p sz m ]

-- `fail_work` frees the new page table, and gives up the inode if there is one.
abbrev Fails : Option ℕ → ℕ → ℕ → Sys → Sys → Type 0
Fails pt sz n s s' = Same n s s' × (given_back pt sz s.mem ≡ ok s'.mem)

fail_work-Fails :
    (pt ip : Option ℕ) (sz : ℕ) (s : Sys)
    → ended ip ≤ s.ops
    → Ensures (Fails pt sz (ended ip) s) (fail_work pt ip sz s)
unfolding fail_work
fail_work-Fails pt none sz s le =
    Ensures-call {A = Mem} {B = Sys} (Fails pt sz 0 s) (given_back pt sz s.mem)
      (λ m. ok (record s { mem = m })) (λ m e. (same_mem m, e))
  where
    same_mem : (m : Mem) → Same 0 s (record s { mem = m })
    same_mem m = record { ops = omega arith; pagetable = refl; sz = refl }
fail_work-Fails pt (some i) sz s le =
    Ensures-call {A = Mem} {B = Sys} (Fails pt sz 1 s) (given_back pt sz s.mem) _ (λ m e.
      Ensures-after {B = Sys} (Fails pt sz 1 s) (iunlockput i s.volume)
        (λ v. ok (end_op (record s { mem = m; volume = v }))) (λ v. (one_less m v, e)))
  where
    one_less : (m : Mem) (v : Volume) → Same 1 s (end_op (record s { mem = m; volume = v }))
    one_less m v = record { ops = omega arith; pagetable = refl; sz = refl }

contradiction : {n : ℕ} → none ≡ some n → ⊥
contradiction q = ground (arith, q)

failed-Commits :
    (pt ip : Option ℕ) (sz : ℕ) (s : Sys) (t : Task)
    → s.ops ≡ t.sys.ops + ended ip
    → s.pagetable ≡ t.sys.pagetable
    → s.sz ≡ t.sys.sz
    → ((m : Mem) → given_back pt sz s.mem ≡ ok m → Undone t m)
    → Ensures (Commits t) (failed pt ip sz s t)
unfolding failed
failed-Commits pt ip sz s t e p z undo =
    Ensures-bind (Fails pt sz (ended ip) s) (Commits t) _ _
      (fail_work-Fails pt ip sz s (omega (arith, e)))
      (λ s' (h, back). record {
        ops = omega (arith, h.ops, e);
        memory = λ q. (h.pagetable ∙ p, h.sz ∙ z);
        registers = λ q. (refl, refl, refl, refl);
        undone = λ q. undo s'.mem back;
        replaced = λ n q. absurd (contradiction q);
      })

-- Nothing is given back.
kept : (s : Sys) (sz : ℕ) (m : Mem) → given_back none sz s.mem ≡ ok m → m ≡ s.mem
kept s sz m e =
    sym (ap (λ o. elim o [ ok x ↦ x | panic c ↦ s.mem | blocked ↦ s.mem | fault ↦ s.mem ]) e)

module _ (t : Task) (pt : ℕ) (m0 : Mem) (made : Allocates t (some pt, m0)) where
  -- The page table that is freed is the new one.
  undo_new : (sz : ℕ) (before m : Mem) → free_pagetable pt sz before ≡ ok m → Undone t m
  undo_new sz before m e = inr (
      inr
        (record { table = pt; size = sz; allocated = m0; before = before; made = made; freed = e }))

  commit-Commits :
      (sz entry sp argc : ℕ) (path : List ℕ) (s : Sys)
      → s.ops ≡ t.sys.ops
      → s.pagetable ≡ t.sys.pagetable
      → s.sz ≡ t.sys.sz
      → Ensures (Commits t) (commit pt sz entry sp argc path s t)
  unfolding commit
  commit-Commits sz entry sp argc path s e p z =
      Ensures-if (Commits t) (leb 32 (length (last_name path path))) _ _ tt (
        Ensures-call (Commits t) (free_pagetable s.pagetable s.sz s.mem) _ (λ m f. record {
          ops = e;
          memory = λ q. absurd (contradiction (sym q));
          registers = λ q. absurd (contradiction (sym q));
          undone = λ q. absurd (contradiction (sym q));
          replaced = λ n q. record {
            allocated = m0;
            before = s.mem;
            made = made;
            freed =
                sym (
                  ap (λ x. free_pagetable x s.sz s.mem) p
                  ∙ ap (λ x. free_pagetable t.sys.pagetable x s.mem) z)
                ∙ f;
          };
        }))

  build_stack-Commits :
      (size entry : ℕ) (path argv : List ℕ) (s : Sys)
      → Same 0 t.sys s
      → Ensures (Commits t) (build_stack pt size entry path argv s t)
  unfolding build_stack
  build_stack-Commits size entry path argv s h =
      let before : s.ops ≡ t.sys.ops = omega (arith, h.ops) in
      let sz : ℕ = pg_round_up size in
      Ensures-after (Commits t) (uvm_alloc pt sz ((sz + 2 * pgsize) % 2 ^ 64) 4 s.mem) _ (λ a.
        Ensures-bool (Commits t) (a.0 == 0) _ _
          (Ensures-after (Commits t) (uvm_clear pt (sub64 a.0 (2 * pgsize)) a.1) _ (λ m1.
            Ensures-after (Commits t) (push_all pt a.0 argv m1) _ (λ p.
              Ensures-option (Commits t) p.0 _ _ (give_up a.0 p.1) (λ r.
                commit-Commits a.0 entry r.0 r.1 path (record s { mem = p.1 }) before h.pagetable
                  h.sz))))
          (give_up sz a.1))
    where
      give_up :
          (sz : ℕ) (m : Mem)
          → Ensures (Commits t) (failed (some pt) none sz (record s { mem = m }) t)
      give_up sz m =
          failed-Commits (some pt) none sz _ t (omega (arith, h.ops)) h.pagetable h.sz
            (undo_new sz m)

  -- The segments and what follows.
  load-Commits :
      (count ip off entry : ℕ) (path argv : List ℕ) (s : Sys)
      → Same 0 (begin_op t.sys) s
      → Ensures (Commits t) (
          load_segments count pt ip off 0 s >>= λ l. elim l.0 [
            | false ↦ failed (some pt) (some ip) l.1 l.2 t
            | true ↦ iunlockput ip l.2.volume >>= λ v.
                build_stack pt l.1 entry path argv (end_op (set_volume v l.2)) t
          ])
  load-Commits count ip off entry path argv s e =
      Ensures-bind (λ r. Same 0 s r.2) (Commits t) _ _ (load_segments-Same count pt ip off 0 s)
        (λ l k.
          let g : Same 0 (begin_op t.sys) l.2 = Same-trans _ _ l.2 e k in
          Ensures-bool (Commits t) l.0 _ _
            (failed-Commits (some pt) (some ip) l.1 l.2 t (omega (arith, g.ops)) g.pagetable g.sz
              (undo_new l.1 l.2.mem))
            (Ensures-after (Commits t) (iunlockput ip l.2.volume) _ (λ v.
              build_stack-Commits l.1 entry path argv _
                (record { ops = omega (arith, g.ops); pagetable = g.pagetable; sz = g.sz }))))

-- However exec returns, the transaction that it has begun is ended. If it returns -1, the process
-- has the page table, the size, the program counter, the stack pointer and the name that it had, and
-- the memory is as before, or as a failed alloc_pagetable left it, or as free_pagetable leaves it
-- when called with the page table that alloc_pagetable gave. If exec succeeds, the process has the
-- page table that alloc_pagetable gave, and the last thing done to the memory is that free_pagetable
-- frees the old page table with the old size.
pub exec-Commits :
    (ip : ℕ) (path argv : List ℕ) (t : Task) → Ensures (Commits t) (exec ip path argv t)
unfolding exec
exec-Commits ip path argv t =
    Ensures-bind (λ r. Same 0 (begin_op t.sys) r.1 × (r.1.mem ≡ t.sys.mem)) (Commits t) _ _
      (read_header-mem ip 0 64 (begin_op t.sys))
      (λ h (e, kept_mem).
        Ensures-option (Commits t) h.0 _ _ (no_table 0 h.1 e (inl kept_mem)) (λ elf.
          Ensures-bool (Commits t) (field elf 0 4 == 0x464c457f) _ _
            (no_table 0 h.1 e (inl kept_mem))
            (Ensures-call (Commits t) (alloc_pagetable t.trampoline_page t.trapframe_page h.1.mem) _
              (λ a made.
                Ensures-pair (Allocates t) (Commits t) a
                  (λ m. failed none (some ip) 0 (record h.1 { mem = m }) t) _
                  (sym (ap (alloc_pagetable t.trampoline_page t.trapframe_page) kept_mem) ∙ made)
                  (λ m none_made. no_table 0 _ (with_mem m e) (inr (inl none_made)))
                  (λ pt m done.
                    load-Commits t pt m done (field elf 56 2) ip (field elf 32 8) (field elf 24 8)
                      path argv _ (with_mem m e))))))
  where
    with_mem :
        {s : Sys} (m : Mem)
        → Same 0 (begin_op t.sys) s
        → Same 0 (begin_op t.sys) (record s { mem = m })
    with_mem m e = record { ops = e.ops; pagetable = e.pagetable; sz = e.sz }

    no_table :
        (sz : ℕ) (s : Sys)
        → Same 0 (begin_op t.sys) s
        → Undone t s.mem
        → Ensures (Commits t) (failed none (some ip) sz s t)
    no_table sz s e u =
        failed-Commits none (some ip) sz s t (omega (arith, e.ops)) e.pagetable e.sz
          (λ m q. subst (Undone t) (sym (kept s sz m q)) u)
