-- ===== src/Vm/User/Unmap.antt =====
-- What `uvm_unmap` leaves of the map.
use os_cpp.Base.{
  ltb, ◌==◌, if◌then◌else◌, le→ltb_false, Bool-cases, ok, panic, blocked, fault, Outcome, Ensures,
  Returns, Ensures-mono, ℕ, zero, suc, ◌+◌, ◌-◌, ◌*◌, ◌/◌, ◌%◌, ◌^◌, ◌≤◌, ◌<◌, ◌≡◌, refl, sym, ap,
  ◌∙◌, subst, ◌≢◌, inl, inr, true, false, Option, none, some, arith,
}
use os_cpp.Arch.{pgsize, pte_flags, px, va_max}
use os_cpp.Vm.{Mem, set_word, has_v, walk_from, walk}
use os_cpp.Vm.Tables.{Owner, prefix, IsTree, lookup}
use os_cpp.Vm.Walk.{LeadsTo}
use os_cpp.Vm.Leaf.{
  read_from-LeadsTo, stored-IsTree, read-stored_same, read-stored_other, Found, walk_from-Found,
  lookup_page,
}
use os_cpp.Vm.Maps.{top_owner}
use os_cpp.Vm.User.{unmap_loop, uvm_unmap}
use native.Mathlib.Decide.{ℕ_discrete}

abbrev pub InRange : ℕ → ℕ → ℕ → Type 0
InRange va n x = (va / pgsize ≤ x / pgsize) × (x / pgsize < va / pgsize + n)

-- The pages of the range lead to no valid entry, and other addresses to what they led to.
pub record Unmaps (own : Owner) (root va n : ℕ) (s s' : Mem) : Type 0 where
  pub tree : IsTree own root s'
  pub gone : (x : ℕ) → x < 2 ^ 39 → InRange va n x → has_v (lookup root s' x) ≡ false
  pub kept : (x : ℕ) → x < 2 ^ 39 → ¬ InRange va n x → lookup root s' x ≡ lookup root s x

-- One page, and then the others.
Unmaps-cons :
    (own : Owner) (root va left : ℕ) (s s2 s' : Mem)
    → va % pgsize ≡ 0
    → ((x : ℕ) → x < 2 ^ 39 → x / pgsize ≡ va / pgsize → has_v (lookup root s2 x) ≡ false)
    → ((x : ℕ) → x < 2 ^ 39 → x / pgsize ≢ va / pgsize → lookup root s2 x ≡ lookup root s x)
    → Unmaps own root (va + pgsize) left s2 s'
    → Unmaps own root va (suc left) s s'
Unmaps-cons own root va left s s2 s' al here there h =
    let next : (va + pgsize) / pgsize ≡ va / pgsize + 1 = omega arith in
    record {
      tree = h.tree;
      gone = λ x lt r. elim (ℕ_discrete (x / pgsize) (va / pgsize)) [
        | yes p ↦ ap has_v (h.kept x lt (λ q. omega (arith, q.0, next, p))) ∙ here x lt p
        | no np ↦ h.gone x lt (omega (arith, r.0, next, np), omega (arith, r.1, next))
      ];
      kept = λ x lt out.
          let np : x / pgsize ≢ va / pgsize = λ p. out (omega (arith, p), omega (arith, p)) in
          h.kept x lt (λ q. out (omega (arith, q.0, next), omega (arith, q.1, next)))
          ∙ there x lt np;
    }

-- What `unmap_loop` does with the entry that `walk` found.
abbrev unmap_here : ℕ → ℕ → ℕ → Mem → Option ℕ → Outcome Mem
unmap_here pt a left s none = panic "vm::uvm_unmap: walk"
unmap_here pt a left s (some at) = elim (has_v (s.word at)) [
  | false ↦ unmap_loop pt (a + pgsize) left false s
  | true ↦ elim (pte_flags (s.word at) == 1) [
    | true ↦ panic "vm::uvm_unmap: not a leaf"
    | false ↦ unmap_loop pt (a + pgsize) left false (set_word at 0 s)
  ]
]

unmap_loop_step :
    (pt a left : ℕ) (s : Mem)
    → a ≤ va_max
    → unmap_loop pt a (suc left) false s ≡ unmap_here pt a left s (walk_from 2 pt a false s).0
unfolding unmap_loop walk
unmap_loop_step pt a left s le =
    rw (le→ltb_false va_max a le) (by_entry (walk_from 2 pt a false s).0)
  where
    by_entry :
        (o : Option ℕ)
        → elim o [
          | none ↦ panic "vm::uvm_unmap: walk"
          | some at ↦ elim (has_v (s.word at)) [
            | false ↦ unmap_loop pt (a + pgsize) left false s
            | true ↦ elim (pte_flags (s.word at) == 1) [
              | true ↦ panic "vm::uvm_unmap: not a leaf"
              | false ↦ unmap_loop pt (a + pgsize) left false (set_word at 0 s)
            ]
          ]
        ]
          ≡ unmap_here pt a left s o
    by_entry none = refl
    by_entry (some at) = refl

unmap_loop-Unmaps :
    (own : Owner) (root va n : ℕ) (s : Mem)
    → IsTree own root s
    → va % pgsize ≡ 0
    → va + n * pgsize ≤ va_max + pgsize
    → Ensures (Unmaps own root va n s) (unmap_loop root va n false s)
unfolding unmap_loop lookup
unmap_loop-Unmaps own root va zero s t al room = record {
  tree = t;
  gone = λ x lt r. absurd (omega (arith, r.0, r.1));
  kept = λ x lt out. refl;
}
unmap_loop-Unmaps own root va (suc left) s t al room =
    let start : own root ≡ some (2, prefix 2 va) = top_owner own root s va t (omega arith) in
    subst (Ensures (Unmaps own root va (suc left) s))
      (sym (unmap_loop_step root va left s (omega arith)))
      (go (λ z tz. unmap_loop-Unmaps own root (va + pgsize) left z tz (omega arith) (omega arith))
        start (walk_from 2 root va false s).0
        (walk_from-Found own root 2 root va s (omega arith) t start).0)
  where
    Rest : Type 0
    Rest =
        (z : Mem)
        → IsTree own root z
        → Ensures (Unmaps own root (va + pgsize) left z)
            (unmap_loop root (va + pgsize) left false z)

    go :
        Rest
        → own root ≡ some (2, prefix 2 va)
        → (o : Option ℕ) → Found own 2 root va s o
        → Ensures (Unmaps own root va (suc left) s) (unmap_here root va left s o)
    go rest start none found = tt
    go rest start (some at) ((q, mine, e), leads) =
        let to_q : set_word (q + 8 * px 0 va) 0 s ≡ set_word at 0 s =
          ap (λ n. set_word n 0 s) (sym e) in
        let leads_q : LeadsTo 2 root va s (q + 8 * px 0 va) = subst (LeadsTo 2 root va s) e leads in
        let entry : (x : ℕ) → x / pgsize ≡ va / pgsize → lookup root s x ≡ s.word at =
          λ x p. lookup_page root s x va p ∙ read_from-LeadsTo 2 root va s at leads in
        elim (Bool-cases (has_v (s.word at))) [
          | inr v ↦
              rw (unmap_here, v)
                (Ensures-mono (Unmaps own root (va + pgsize) left s)
                  (Unmaps own root va (suc left) s) _
                  (λ s' h.
                    Unmaps-cons own root va left s s s' al (λ x lt p. ap has_v (entry x p) ∙ v)
                      (λ x lt ne. refl) h)
                  (rest s t))
          | inl v ↦ elim (Bool-cases (pte_flags (s.word at) == 1)) [
            | inl f ↦ rw (unmap_here, v, f) tt
            | inr f ↦
                rw (unmap_here, v, f)
                  (Ensures-mono (Unmaps own root (va + pgsize) left (set_word at 0 s))
                    (Unmaps own root va (suc left) s) _
                    (λ s' h.
                      Unmaps-cons own root va left s (set_word at 0 s) s' al
                        (λ x lt p. ap has_v (
                          subst (λ z. lookup root z x ≡ 0) to_q
                            (read-stored_same own root q va 0 s t mine 2 root x (omega arith) start
                              leads_q p)))
                        (λ x lt ne.
                          subst (λ z. lookup root z x ≡ lookup root s x) to_q
                            (read-stored_other own root q va 0 s t mine 2 root x (omega arith)
                              (top_owner own root s x t lt) ne))
                        h)
                    (rest (set_word at 0 s)
                      (subst (IsTree own root) to_q (stored-IsTree own root q va 0 s t mine))))
          ]
        ]

-- Each page of the range has an entry of the last level that is valid and not a table.
abbrev pub Mapped : (ℕ → ℕ) → ℕ → ℕ → Type 0
Mapped old va n =
    (x : ℕ)
    → x < 2 ^ 39
    → InRange va n x
    → (has_v (old x) ≡ true) × ((pte_flags (old x) == 1) ≡ false)

unmap_loop-Returns :
    (own : Owner) (root va n : ℕ) (s : Mem)
    → IsTree own root s
    → va % pgsize ≡ 0
    → va + n * pgsize ≤ va_max + pgsize
    → Mapped (lookup root s) va n
    → Returns (λ s'. Unit {0}) (unmap_loop root va n false s)
unfolding unmap_loop lookup
unmap_loop-Returns own root va zero s t al room mapped_all = tt
unmap_loop-Returns own root va (suc left) s t al room mapped_all =
    let start : own root ≡ some (2, prefix 2 va) = top_owner own root s va t (omega arith) in
    subst (Returns (λ s'. Unit {0})) (sym (unmap_loop_step root va left s (omega arith))) (
      go
        (λ z tz m.
          unmap_loop-Returns own root (va + pgsize) left z tz (omega arith) (omega arith) m)
        start (walk_from 2 root va false s).0
        (walk_from-Found own root 2 root va s (omega arith) t start).0)
  where
    here : (has_v (lookup root s va) ≡ true) × ((pte_flags (lookup root s va) == 1) ≡ false)
    here = mapped_all va (omega arith) (omega arith, omega arith)

    Rest : Type 0
    Rest =
        (z : Mem)
        → IsTree own root z
        → Mapped (lookup root z) (va + pgsize) left
        → Returns (λ s'. Unit {0}) (unmap_loop root (va + pgsize) left false z)

    go :
        Rest
        → own root ≡ some (2, prefix 2 va)
        → (o : Option ℕ) → Found own 2 root va s o
        → Returns (λ s'. Unit {0}) (unmap_here root va left s o)
    go rest start none found =
        let no_entry : has_v (lookup root s va) ≡ false = ap has_v found in
        absurd (ground (arith, here.0, no_entry))
    go rest start (some at) ((q, mine, e), leads) =
        let to_q : set_word (q + 8 * px 0 va) 0 s ≡ set_word at 0 s =
          ap (λ n. set_word n 0 s) (sym e) in
        let entry : lookup root s va ≡ s.word at = read_from-LeadsTo 2 root va s at leads in
        let valid : has_v (s.word at) ≡ true = sym (ap has_v entry) ∙ here.0 in
        let leaf : (pte_flags (s.word at) == 1) ≡ false =
          sym (ap (λ w. pte_flags w == 1) entry) ∙ here.1 in
        let other : (x : ℕ)
            → x < 2 ^ 39
            → x / pgsize ≢ va / pgsize
            → lookup root (set_word at 0 s) x ≡ lookup root s x =
          λ x lt ne.
            subst (λ z. lookup root z x ≡ lookup root s x) to_q
              (read-stored_other own root q va 0 s t mine 2 root x (omega arith)
                (top_owner own root s x t lt) ne) in
        rw (unmap_here, valid, leaf)
          (rest (set_word at 0 s)
            (subst (IsTree own root) to_q (stored-IsTree own root q va 0 s t mine))
            (λ x lt r.
              subst (λ w. (has_v w ≡ true) × ((pte_flags w == 1) ≡ false))
                (sym (other x lt (omega (arith, r.0))))
                (mapped_all x lt (omega (arith, r.0), omega (arith, r.1)))))

-- Take page tables that form a tree, and a range of whole pages within the addresses that walk
-- accepts. Where uvm_unmap of the range returns, without freeing the memory, no page of the range is
-- mapped, every other address leads to what it led to, and the tables form the tree that they formed.
-- If each page of the range is mapped, it returns.
pub uvm_unmap-Unmaps :
    (own : Owner) (root va n : ℕ) (s : Mem)
    → IsTree own root s
    → va % pgsize ≡ 0
    → va + n * pgsize ≤ va_max + pgsize
    → Ensures (Unmaps own root va n s) (uvm_unmap root va n false s)
      × (Mapped (lookup root s) va n
          → Returns (Unmaps own root va n s) (uvm_unmap root va n false s))
unfolding uvm_unmap
uvm_unmap-Unmaps own root va n s t al room =
    let aligned : (va % pgsize == 0) ≡ true = ground arith in
    let no_wrap : (va + n * pgsize) % 2 ^ 64 ≡ va + n * pgsize = omega arith in
    let rounds : (if ltb va (va + n * pgsize) then (va + n * pgsize - va) / pgsize else 0) ≡ n =
      ground arith in
    let right : Ensures (Unmaps own root va n s) (unmap_loop root va n false s) =
      unmap_loop-Unmaps own root va n s t al room in
    rw (aligned, no_wrap, rounds)
      (
        right,
        λ m.
            both (unmap_loop root va n false s) right
              (unmap_loop-Returns own root va n s t al room m),
      )
  where
    both :
        (o : Outcome Mem)
        → Ensures (Unmaps own root va n s) o
        → Returns (λ s'. Unit {0}) o
        → Returns (Unmaps own root va n s) o
    both (ok s') h r = h
    both (panic m) h r = r
    both blocked h r = r
    both fault h r = r
