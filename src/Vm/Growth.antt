-- ===== src/Vm/Growth.antt =====
-- A new table changes no entry that an address leads to.
use os_cpp.Base.{
  Bool-cases, update, update_self, update_ne, ℕ, zero, suc, ◌+◌, ◌*◌, ◌<◌, ◌≡◌, refl, sym, ap, ◌∙◌,
  ◌≢◌, inl, inr, true, false, none, some, List, [], ◌∷◌, arith,
}
use os_cpp.Arch.{pte2pa, pa2pte, px}
use os_cpp.Arch.Pages.{pte_parts, pte_valid}
use os_cpp.Vm.{Mem, fill, has_v, new_table}
use os_cpp.Vm.Tables.{
  Owner, prefix, IsPage, NotIn, AllPages, IsTree, read_from, px_bound, same_entry, outside, inside,
  child_owner, owner_unique,
}
use native.Mathlib.Decide.{ℕ_discrete}
use mathlib.Core.Path.{ap₂}

-- The owners once the page is the table of an entry.
abbrev pub owned : Owner → ℕ → ℕ × ℕ → Owner
owned own p x = update own p (some x)

pub owner_apart : (own : Owner) (p q : ℕ) (y : ℕ × ℕ) → own p ≡ none → own q ≡ some y → p ≢ q
owner_apart own p q y free o e = cc

-- The memory after `walk` has allocated the page `p`, the first of the free ones.
abbrev pub grown : ℕ → ℕ → List ℕ → Mem → Mem
grown a p ps s = new_table a p (fill p 5 (record s { free = ps }))

-- The entry `i` of the inner table `q` is free for a new table.
pub record IsVacant (own : Owner) (q i level k : ℕ) (s : Mem) : Type 0 where
  pub owner : own q ≡ some (suc level, k)
  pub index : i < 512
  pub empty : has_v (s.word (q + 8 * i)) ≡ false

module _ (own : Owner) (root q i level k p : ℕ) (ps : List ℕ) (s : Mem) (t : IsTree own root s)
    (fresh : IsPage own p) (v : IsVacant own q i level k s) where
  abbrev filled : ℕ → ℕ
  filled = (fill p 0 (fill p 5 (record s { free = ps }))).word

  pub word_kept :
      (r j : ℕ) (y : ℕ × ℕ)
      → own r ≡ some y
      → j < 512
      → q + 8 * i ≢ r + 8 * j
      → (grown (q + 8 * i) p ps s).word (r + 8 * j) ≡ s.word (r + 8 * j)
  word_kept r j y o lt ne =
      update_ne filled (q + 8 * i) (r + 8 * j) _ ne
      ∙ rw
          (outside p r j fresh.aligned (t.aligned r y o) lt (owner_apart own p r y fresh.unowned o))
          refl

  pub word_new : (grown (q + 8 * i) p ps s).word (q + 8 * i) ≡ pa2pte p + 1
  word_new = update_self filled (q + 8 * i) _

  word_zero : (j : ℕ) → j < 512 → (grown (q + 8 * i) p ps s).word (p + 8 * j) ≡ 0
  word_zero j lt =
      let ne : q + 8 * i ≢ p + 8 * j = λ e.
        owner_apart own p q _ fresh.unowned v.owner
          (sym (same_entry q p i j (t.aligned q _ v.owner) fresh.aligned v.index lt e).0) in
      update_ne filled (q + 8 * i) (p + 8 * j) _ ne ∙ rw (inside p j lt) refl

  read_zero : (l va : ℕ) → read_from l p va (grown (q + 8 * i) p ps s) ≡ 0
  unfolding read_from
  read_zero zero va = word_zero (px 0 va) (px_bound 0 va)
  read_zero (suc l) va =
      let none_there : has_v ((grown (q + 8 * i) p ps s).word (p + 8 * px (suc l) va)) ≡ false =
        rw (word_zero (px (suc l) va) (px_bound (suc l) va)) refl in
      rw (read_from, none_there) refl

  pub new_valid : has_v (pa2pte p + 1) ≡ true
  new_valid = ground (arith, pte_valid p 1 refl)

  pub new_child : pte2pa (pa2pte p + 1) ≡ p
  new_child = (pte_parts p 1 fresh.aligned fresh.small (omega arith)).0

  levels : (r j l m : ℕ) → own r ≡ some (l, m) → j < 512 → q + 8 * i ≡ r + 8 * j → l ≡ suc level
  levels r j l m o lt e =
      (owner_unique own r q l (suc level) m k o v.owner
        (sym (same_entry q r i j (t.aligned q _ v.owner) (t.aligned r _ o) v.index lt e).0)).0

  -- Every address still leads to the entry that it led to.
  pub read-grown :
      (l pt va : ℕ)
      → l < 3
      → own pt ≡ some (l, prefix l va)
      → read_from l pt va (grown (q + 8 * i) p ps s) ≡ read_from l pt va s
  unfolding read_from
  read-grown zero pt va lt o =
      word_kept pt (px 0 va) _ o (px_bound 0 va)
        (λ e. absurd (omega (arith, (levels pt (px 0 va) 0 _ o (px_bound 0 va) e))))
  read-grown (suc l) pt va lt o = elim (ℕ_discrete (q + 8 * i) (pt + 8 * px (suc l) va)) [
    | yes e ↦
        let vacant : has_v (s.word (pt + 8 * px (suc l) va)) ≡ false = rw (sym e) v.empty in
        let new : (grown (q + 8 * i) p ps s).word (pt + 8 * px (suc l) va) ≡ pa2pte p + 1 =
          ap (grown (q + 8 * i) p ps s).word (sym e) ∙ word_new in
        rw (read_from, vacant, new, new_valid, new_child) (read_zero l va)
    | no ne ↦
        let same : (grown (q + 8 * i) p ps s).word (pt + 8 * px (suc l) va)
            ≡ s.word (pt + 8 * px (suc l) va) =
          word_kept pt (px (suc l) va) _ o (px_bound (suc l) va) ne in
        elim (Bool-cases (has_v (s.word (pt + 8 * px (suc l) va)))) [
          | inl there ↦
              rw (read_from, same, there)
                (read-grown l (pte2pa (s.word (pt + 8 * px (suc l) va))) va (omega arith)
                  (child_owner l pt va t (omega arith) o there))
          | inr there ↦ rw (read_from, same, there) refl
        ]
  ]

  -- Owners stay when the free page gets one.
  pub owned_kept : (r : ℕ) (y z : ℕ × ℕ) → own r ≡ some y → owned own p z r ≡ some y
  owned_kept r y z o = update_ne own p r (some z) (owner_apart own p r y fresh.unowned o) ∙ o

  child_grown :
      (r l m j : ℕ)
      → own r ≡ some (suc l, m)
      → j < 512
      → has_v ((grown (q + 8 * i) p ps s).word (r + 8 * j)) ≡ true
      → owned own p (level, k * 512 + i) (pte2pa ((grown (q + 8 * i) p ps s).word (r + 8 * j)))
        ≡ some (l, m * 512 + j)
  child_grown r l m j o lt there = elim (ℕ_discrete (q + 8 * i) (r + 8 * j)) [
    | yes e ↦
        let entry : (q ≡ r) × (i ≡ j) =
          same_entry q r i j (t.aligned q _ v.owner) (t.aligned r _ o) v.index lt e in
        let who : (suc level ≡ suc l) × (k ≡ m) =
          owner_unique own q r (suc level) (suc l) k m v.owner o entry.0 in
        let new : (grown (q + 8 * i) p ps s).word (r + 8 * j) ≡ pa2pte p + 1 =
          ap (grown (q + 8 * i) p ps s).word (sym e) ∙ word_new in
        let address : pte2pa ((grown (q + 8 * i) p ps s).word (r + 8 * j)) ≡ p =
          ap pte2pa new ∙ new_child in
        ap (owned own p (level, k * 512 + i)) address
        ∙ update_self own p (some (level, k * 512 + i))
        ∙ ap₂ (λ x y. some (x, y)) (omega (arith, who.0)) (omega (arith, who.1, entry.1))
    | no ne ↦
        let same : (grown (q + 8 * i) p ps s).word (r + 8 * j) ≡ s.word (r + 8 * j) =
          word_kept r j _ o lt ne in
        ap (λ w. owned own p (level, k * 512 + i) (pte2pa w)) same
        ∙ owned_kept _ _ _ (t.child r l m j o lt (sym (ap has_v same) ∙ there))
  ]

  -- The new table has its place in the tree.
  pub grown-IsTree :
      NotIn p ps
      → AllPages own ps
      → IsTree (owned own p (level, k * 512 + i)) root (grown (q + 8 * i) p ps s)
  grown-IsTree once rest = record {
    top = owned_kept root _ _ t.top;
    child = λ r l m j o lt there. elim (ℕ_discrete p r) [
      | yes e ↦ absurd (
          ground
            (arith, ap (λ n. (grown (q + 8 * i) p ps s).word (n + 8 * j)) e, word_zero j lt, there))
      | no ne ↦ child_grown r l m j (sym (update_ne own p r _ ne) ∙ o) lt there
    ];
    aligned = λ r y o. elim (ℕ_discrete p r) [
      | yes e ↦ rw (sym e) fresh.aligned
      | no ne ↦ t.aligned r y (sym (update_ne own p r _ ne) ∙ o)
    ];
    pages = still ps once rest;
  }
    where
      still :
          (qs : List ℕ)
          → NotIn p qs
          → AllPages own qs
          → AllPages (owned own p (level, k * 512 + i)) qs
      still [] out all = tt
      still (r ∷ rs) (ne, out) (page, distinct, all) = (
        record {
          unowned = update_ne own p r _ ne ∙ page.unowned;
          aligned = page.aligned;
          small = page.small;
        },
        distinct,
        still rs out all,
      )

  -- A new table is put where there was no entry, so the entries stay.
  pub entry_kept :
      (r l m j : ℕ)
      → own r ≡ some (suc l, m)
      → j < 512
      → has_v (s.word (r + 8 * j)) ≡ true
      → (grown (q + 8 * i) p ps s).word (r + 8 * j) ≡ s.word (r + 8 * j)
  entry_kept r l m j o lt there =
      word_kept r j _ o lt (λ e. absurd (ground (arith, ap s.word e, v.empty, there)))
