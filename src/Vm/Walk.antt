-- ===== src/Vm/Walk.antt =====
-- `walk` finds the entry of an address, and with `alloc` makes the tables on the way.
use os_cpp.Base.{
  Bool-cases, update_self, ℕ, zero, suc, ◌+◌, ◌*◌, ◌<◌, ◌≡◌, refl, sym, ap, ◌∙◌, subst, ◌⊎◌, inl,
  inr, true, false, Option, none, some, List, [], ◌∷◌, arith,
}
use os_cpp.Arch.{pte2pa, pa2pte, px}
use os_cpp.Vm.{Mem, fill, kalloc, has_v, new_table, walk_from}
use os_cpp.Vm.Tables.{
  Owner, prefix, IsPage, AllPages, IsTree, read_from, px_bound, prefix-px, child_owner,
}
use os_cpp.Vm.Growth.{
  owned, grown, IsVacant, word_new, new_valid, new_child, read-grown, owned_kept, grown-IsTree,
  entry_kept,
}

-- The tables after a while of allocating: more owners, the same entries to be read.
pub record Grows (root : ℕ) (own : Owner) (s : Mem) (own' : Owner) (s' : Mem) : Type 0 where
  pub extends : (r : ℕ) (y : ℕ × ℕ) → own r ≡ some y → own' r ≡ some y
  pub tree : IsTree own' root s'
  pub reads :
      (l pt va : ℕ)
      → l < 3
      → own pt ≡ some (l, prefix l va)
      → read_from l pt va s' ≡ read_from l pt va s
  pub entries :
      (r l m j : ℕ)
      → own r ≡ some (suc l, m)
      → j < 512
      → has_v (s.word (r + 8 * j)) ≡ true
      → s'.word (r + 8 * j) ≡ s.word (r + 8 * j)

Grows-refl : (root : ℕ) (own : Owner) (s : Mem) → IsTree own root s → Grows root own s own s
Grows-refl root own s t = record {
  extends = λ r y o. o;
  tree = t;
  reads = λ l pt va lt o. refl;
  entries = λ r l m j o lt v. refl;
}

Grows-trans :
    (root : ℕ) (own own' own'' : Owner) (s s' s'' : Mem)
    → Grows root own s own' s'
    → Grows root own' s' own'' s''
    → Grows root own s own'' s''
Grows-trans root own own' own'' s s' s'' g h = record {
  extends = λ r y o. h.extends r y (g.extends r y o);
  tree = h.tree;
  reads = λ l pt va lt o. h.reads l pt va lt (g.extends pt _ o) ∙ g.reads l pt va lt o;
  entries = λ r l m j o lt v.
      h.entries r l m j (g.extends r _ o) lt (ap has_v (g.entries r l m j o lt v) ∙ v)
      ∙ g.entries r l m j o lt v;
}

-- From this table the entries lead to the last one at this address.
abbrev pub LeadsTo : ℕ → ℕ → ℕ → Mem → ℕ → Type 0
LeadsTo zero pt va s a = a ≡ pt + 8 * px 0 va
LeadsTo (suc l) pt va s a =
    (has_v (s.word (pt + 8 * px (suc l) va)) ≡ true)
    × LeadsTo l (pte2pa (s.word (pt + 8 * px (suc l) va))) va s a

-- The last entry that `walk` returns, in a table of the last level.
abbrev pub Reaches : Owner → ℕ → ℕ → ℕ → Mem → Option ℕ → Type 0
Reaches own l pt va s none = Unit
Reaches own l pt va s (some a) =
    ((q : ℕ) × (own q ≡ some (0, prefix 0 va)) × (a ≡ q + 8 * px 0 va)) × LeadsTo l pt va s a

abbrev pub Walked : ℕ → Owner → ℕ → ℕ → ℕ → Mem → Option ℕ × Mem → Type 0
Walked root own l pt va s r =
    (own' : Owner) × Grows root own s own' r.1 × Reaches own' l pt va r.1 r.0

-- One entry further up.
Walked-up :
    (root : ℕ) (own own1 : Owner) (l pt va : ℕ) (s s1 : Mem) (r : Option ℕ × Mem)
    → Grows root own s own1 s1
    → own pt ≡ some (suc l, prefix (suc l) va)
    → has_v (s1.word (pt + 8 * px (suc l) va)) ≡ true
    → Walked root own1 l (pte2pa (s1.word (pt + 8 * px (suc l) va))) va s1 r
    → Walked root own (suc l) pt va s r
Walked-up root own own1 l pt va s s1 (none, s') g o v (own', h, reach) =
    (own', Grows-trans root own own1 own' s s1 s' g h, tt)
Walked-up root own own1 l pt va s s1 (some a, s') g o v (own', h, (last, leads)) =
    let same : s'.word (pt + 8 * px (suc l) va) ≡ s1.word (pt + 8 * px (suc l) va) =
      h.entries pt l _ (px (suc l) va) (g.extends pt _ o) (px_bound (suc l) va) v in
    (
      own',
      Grows-trans root own own1 own' s s1 s' g h,
      (last, (ap has_v same ∙ v, subst (λ w. LeadsTo l (pte2pa w) va s' a) (sym same) leads)),
    )

grown-Grows :
    (own : Owner) (root q i level k p : ℕ) (ps : List ℕ) (s : Mem)
    → IsTree own root s
    → IsVacant own q i level k s
    → s.free ≡ p ∷ ps
    → Grows root own s (owned own p (level, k * 512 + i)) (grown (q + 8 * i) p ps s)
grown-Grows own root q i level k p ps s t v e =
    let (fresh, once, rest) : AllPages own (p ∷ ps) = subst (AllPages own) e t.pages in
    record {
      extends = λ r y o. owned_kept own root q i level k p ps s t fresh v r y _ o;
      tree = grown-IsTree own root q i level k p ps s t fresh v once rest;
      reads = read-grown own root q i level k p ps s t fresh v;
      entries = entry_kept own root q i level k p ps s t fresh v;
    }

List-cases : (xs : List ℕ) → (xs ≡ []) ⊎ ((p : ℕ) × (ps : List ℕ) × (xs ≡ p ∷ ps))
List-cases [] = inl refl
List-cases (p ∷ ps) = inr (p, ps, refl)

kalloc-none : (s : Mem) → s.free ≡ [] → kalloc s ≡ (none, s)
unfolding kalloc
kalloc-none s e =
    ap (λ xs. elim xs [ [] ↦ (none, s) | (p ∷ ps) ↦ (some p, fill p 5 (record s { free = ps })) ]) e

kalloc-some :
    (s : Mem) (p : ℕ) (ps : List ℕ)
    → s.free ≡ p ∷ ps
    → kalloc s ≡ (some p, fill p 5 (record s { free = ps }))
unfolding kalloc
kalloc-some s p ps e =
    ap (λ xs. elim xs [ [] ↦ (none, s) | (p ∷ ps) ↦ (some p, fill p 5 (record s { free = ps })) ]) e

abbrev pub after_kalloc : ℕ → ℕ → ℕ → Option ℕ × Mem → Option ℕ × Mem
after_kalloc l a va (none, s) = (none, s)
after_kalloc l a va (some p, s) = walk_from l p va true (new_table a p s)

walk_from_empty :
    (l pt va : ℕ) (s : Mem)
    → has_v (s.word (pt + 8 * px (suc l) va)) ≡ false
    → walk_from (suc l) pt va true s ≡ after_kalloc l (pt + 8 * px (suc l) va) va (kalloc s)
unfolding walk_from
walk_from_empty l pt va s v = rw (walk_from, v) (by_page (kalloc s))
  where
    by_page :
        (k : Option ℕ × Mem)
        → elim k.0 [
          | none ↦ (none, k.1)
          | some p ↦ walk_from l p va true (new_table (pt + 8 * px (suc l) va) p k.1)
        ]
          ≡ after_kalloc l (pt + 8 * px (suc l) va) va k
    by_page (none, s') = refl
    by_page (some p, s') = refl

-- What `walk` finds with leave to allocate, from each level.
pub walk_from-Walked :
    (root : ℕ) (own : Owner) (l pt va : ℕ) (s : Mem)
    → l < 3
    → IsTree own root s
    → own pt ≡ some (l, prefix l va)
    → Walked root own l pt va s (walk_from l pt va true s)
unfolding walk_from
walk_from-Walked root own zero pt va s lt t o =
    (own, Grows-refl root own s t, ((pt, o, refl), refl))
walk_from-Walked root own (suc l) pt va s lt t o =
    let a : ℕ = pt + 8 * px (suc l) va in
    elim (Bool-cases (has_v (s.word (pt + 8 * px (suc l) va)))) [
      | inl v ↦
          rw (walk_from, v)
            (Walked-up root own own l pt va s s _ (Grows-refl root own s t) o v (
              walk_from-Walked root own l (pte2pa (s.word (pt + 8 * px (suc l) va))) va s
                (omega arith) t (child_owner l pt va t (omega arith) o v)))
      | inr v ↦ elim (List-cases s.free) [
        | inl e ↦
            rw (walk_from_empty l pt va s v, kalloc-none s e) (own, Grows-refl root own s t, tt)
        | inr (p, ps, e) ↦
            let own1 : Owner = owned own p (l, prefix (suc l) va * 512 + px (suc l) va) in
            let s1 : Mem = grown (pt + 8 * px (suc l) va) p ps s in
            let fresh : IsPage own p = (subst (AllPages own) e t.pages).0 in
            let vacant : IsVacant own pt (px (suc l) va) l (prefix (suc l) va) s = record {
              owner = o;
              index = px_bound (suc l) va;
              empty = v;
            } in
            let g : Grows root own s own1 s1 =
              grown-Grows own root pt (px (suc l) va) l (prefix (suc l) va) p ps s t vacant e in
            let new : s1.word (pt + 8 * px (suc l) va) ≡ pa2pte p + 1 =
              word_new own root pt (px (suc l) va) l (prefix (suc l) va) p ps s t fresh vacant in
            let there : has_v (pa2pte p + 1) ≡ true =
              new_valid own root pt (px (suc l) va) l (prefix (suc l) va) p ps s t fresh vacant in
            let page : pte2pa (pa2pte p + 1) ≡ p =
              new_child own root pt (px (suc l) va) l (prefix (suc l) va) p ps s t fresh vacant in
            let mine : own1 p ≡ some (l, prefix l va) =
              update_self own p _ ∙ ap (λ k. some (l, k)) (sym (prefix-px l va (omega arith))) in
            rw (walk_from_empty l pt va s v, kalloc-some s p ps e)
              (Walked-up root own own1 l pt va s s1 _ g o (ap has_v new ∙ there) (
                subst (λ n. Walked root own1 l n va s1 (walk_from l p va true s1))
                  (sym (ap pte2pa new ∙ page))
                  (walk_from-Walked root own1 l p va s1 (omega arith) g.tree mine)))
      ]
    ]
