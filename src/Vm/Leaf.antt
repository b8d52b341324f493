-- ===== src/Vm/Leaf.antt =====
-- A write to an entry of the last level changes what its page leads to, and nothing else.
use os_cpp.Base.{
  if◌then◌else◌, Bool-cases, update_self, update_ne, ℕ, zero, suc, ◌+◌, ◌*◌, ◌/◌, ◌<◌, ◌≡◌, refl,
  sym, ap, ◌∙◌, subst, ◌≢◌, inl, inr, true, false, Option, none, some, arith,
}
use os_cpp.Arch.{pgsize, pte2pa, px}
use os_cpp.Vm.{Mem, set_word, has_v, walk_from}
use os_cpp.Vm.Tables.{
  Owner, prefix, IsTree, read_from, lookup, px_bound, same_entry, child_owner, owner_unique,
}
use os_cpp.Vm.Walk.{LeadsTo, Reaches}
use mathlib.Core.Path.{ap₂}

pub px_page : (l va va' : ℕ) → l < 3 → va / pgsize ≡ va' / pgsize → px l va ≡ px l va'
unfolding px
px_page zero va va' lt e = omega (arith, e)
px_page (suc zero) va va' lt e = omega (arith, e)
px_page (suc (suc zero)) va va' lt e = omega (arith, e)
px_page (suc (suc (suc l))) va va' lt e = absurd (omega arith)

page_parts : (va : ℕ) → va / pgsize ≡ prefix 0 va * 512 + px 0 va
unfolding px
page_parts va = omega arith

pub read_from-LeadsTo :
    (l pt va : ℕ) (s : Mem) (a : ℕ) → LeadsTo l pt va s a → read_from l pt va s ≡ s.word a
unfolding read_from
read_from-LeadsTo zero pt va s a e = ap s.word (sym e)
read_from-LeadsTo (suc l) pt va s a (v, leads) =
    rw (read_from, v) (read_from-LeadsTo l (pte2pa (s.word (pt + 8 * px (suc l) va))) va s a leads)

-- All addresses of a page lead to one entry.
read_page :
    (l pt va va' : ℕ) (s : Mem)
    → l < 3
    → va / pgsize ≡ va' / pgsize
    → read_from l pt va s ≡ read_from l pt va' s
unfolding read_from
read_page zero pt va va' s lt e = ap (λ i. s.word (pt + 8 * i)) (px_page 0 va va' lt e)
read_page (suc l) pt va va' s lt e =
    let same : px (suc l) va ≡ px (suc l) va' = px_page (suc l) va va' lt e in
    rw (read_from, same)
      (ap (λ n. if has_v (s.word (pt + 8 * px (suc l) va')) then n else 0)
        (read_page l (pte2pa (s.word (pt + 8 * px (suc l) va'))) va va' s (omega arith) e))

module _ (own : Owner) (root q va v : ℕ) (s : Mem) (t : IsTree own root s)
    (mine : own q ≡ some (0, prefix 0 va)) where
  abbrev pub stored : Mem
  stored = set_word (q + 8 * px 0 va) v s

  -- Entries of inner tables are others.
  inner_kept :
      (r l m j : ℕ)
      → own r ≡ some (suc l, m)
      → j < 512
      → stored.word (r + 8 * j) ≡ s.word (r + 8 * j)
  inner_kept r l m j o lt = update_ne s.word (q + 8 * px 0 va) (r + 8 * j) v (λ e.
      let same : q ≡ r =
        (same_entry q r (px 0 va) j (t.aligned q _ mine) (t.aligned r _ o) (px_bound 0 va) lt
          e).0 in
      let levels : 0 ≡ suc l = (owner_unique own q r 0 (suc l) (prefix 0 va) m mine o same).0 in
      absurd (omega (arith, levels)))

  pub stored-IsTree : IsTree own root stored
  stored-IsTree = record {
    top = t.top;
    child = λ r l m j o lt there.
        let same : stored.word (r + 8 * j) ≡ s.word (r + 8 * j) = inner_kept r l m j o lt in
        ap (λ w. own (pte2pa w)) same ∙ t.child r l m j o lt (sym (ap has_v same) ∙ there);
    aligned = t.aligned;
    pages = t.pages;
  }

  LeadsTo-stored :
      (l pt a : ℕ)
      → l < 3
      → own pt ≡ some (l, prefix l va)
      → LeadsTo l pt va s a
      → LeadsTo l pt va stored a
  LeadsTo-stored zero pt a lt o leads = leads
  LeadsTo-stored (suc l) pt a lt o (there, leads) =
      let same : stored.word (pt + 8 * px (suc l) va) ≡ s.word (pt + 8 * px (suc l) va) =
        inner_kept pt l _ (px (suc l) va) o (px_bound (suc l) va) in
      (
        ap has_v same ∙ there,
        subst (λ w. LeadsTo l (pte2pa w) va stored a) (sym same)
            (LeadsTo-stored l (pte2pa (s.word (pt + 8 * px (suc l) va))) a (omega arith)
              (child_owner l pt va t (omega arith) o there) leads),
      )

  pub read-stored_same :
      (l pt va' : ℕ)
      → l < 3
      → own pt ≡ some (l, prefix l va)
      → LeadsTo l pt va s (q + 8 * px 0 va)
      → va' / pgsize ≡ va / pgsize
      → read_from l pt va' stored ≡ v
  read-stored_same l pt va' lt o leads e =
      read_page l pt va' va stored lt e
      ∙ read_from-LeadsTo l pt va stored (q + 8 * px 0 va)
          (LeadsTo-stored l pt (q + 8 * px 0 va) lt o leads)
      ∙ update_self s.word (q + 8 * px 0 va) v

  pub read-stored_other :
      (l pt va' : ℕ)
      → l < 3
      → own pt ≡ some (l, prefix l va')
      → va' / pgsize ≢ va / pgsize
      → read_from l pt va' stored ≡ read_from l pt va' s
  unfolding read_from
  read-stored_other zero pt va' lt o ne =
      update_ne s.word (q + 8 * px 0 va) (pt + 8 * px 0 va') v (λ e.
        let entry : (q ≡ pt) × (px 0 va ≡ px 0 va') =
          same_entry q pt (px 0 va) (px 0 va') (t.aligned q _ mine) (t.aligned pt _ o)
            (px_bound 0 va) (px_bound 0 va') e in
        let who : (0 ≡ 0) × (prefix 0 va ≡ prefix 0 va') =
          owner_unique own q pt 0 0 (prefix 0 va) (prefix 0 va') mine o entry.0 in
        ne (
          page_parts va'
          ∙ ap₂ (λ x y. x * 512 + y) (sym who.1) (sym entry.1)
          ∙ sym (page_parts va)))
  read-stored_other (suc l) pt va' lt o ne =
      let same : stored.word (pt + 8 * px (suc l) va') ≡ s.word (pt + 8 * px (suc l) va') =
        inner_kept pt l _ (px (suc l) va') o (px_bound (suc l) va') in
      elim (Bool-cases (has_v (s.word (pt + 8 * px (suc l) va')))) [
        | inl there ↦
            rw (read_from, same, there)
              (read-stored_other l (pte2pa (s.word (pt + 8 * px (suc l) va'))) va' (omega arith)
                (child_owner l pt va' t (omega arith) o there) ne)
        | inr there ↦ rw (read_from, same, there) refl
      ]

-- What `walk` without `alloc` finds, the memory being as it was.
abbrev pub Found : Owner → ℕ → ℕ → ℕ → Mem → Option ℕ → Type 0
Found own l pt va s none = read_from l pt va s ≡ 0
Found own l pt va s (some a) = Reaches own l pt va s (some a)

Found-up :
    (own : Owner) (l pt va : ℕ) (s : Mem) (o : Option ℕ)
    → has_v (s.word (pt + 8 * px (suc l) va)) ≡ true
    → Found own l (pte2pa (s.word (pt + 8 * px (suc l) va))) va s o
    → Found own (suc l) pt va s o
unfolding read_from
Found-up own l pt va s none v e = rw (read_from, v) e
Found-up own l pt va s (some a) v (last, leads) = (last, (v, leads))

pub walk_from-Found :
    (own : Owner) (root l pt va : ℕ) (s : Mem)
    → l < 3
    → IsTree own root s
    → own pt ≡ some (l, prefix l va)
    → Found own l pt va s (walk_from l pt va false s).0 × ((walk_from l pt va false s).1 ≡ s)
unfolding walk_from read_from
walk_from-Found own root zero pt va s lt t o = (((pt, o, refl), refl), refl)
walk_from-Found own root (suc l) pt va s lt t o =
    elim (Bool-cases (has_v (s.word (pt + 8 * px (suc l) va)))) [
      | inl v ↦
          let (found, same) =
            walk_from-Found own root l (pte2pa (s.word (pt + 8 * px (suc l) va))) va s (omega arith)
              t (child_owner l pt va t (omega arith) o v) in
          rw (walk_from, v) (Found-up own l pt va s _ v found, same)
      | inr v ↦ rw (walk_from, v) (rw (read_from, v) refl, refl)
    ]

pub lookup_page :
    (root : ℕ) (s : Mem) (x va : ℕ) → x / pgsize ≡ va / pgsize → lookup root s x ≡ lookup root s va
unfolding lookup
lookup_page root s x va e = read_page 2 root x va s (omega arith) e
