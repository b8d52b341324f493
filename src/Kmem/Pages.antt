-- ===== src/Kmem/Pages.antt =====
-- The free list as the list of its pages.
use os_cpp.Base.{
  leb, ◌==◌, update, update_self, update_ne, ℕ, zero, suc, ◌+◌, ◌-◌, ◌*◌, ◌/◌, ◌≤◌, ◌<◌, ◌≡◌, refl,
  sym, ap, subst, ◌≢◌, true, false, none, some, List, [], ◌∷◌, arith,
}
use os_cpp.Arch.{pgsize, pg_round_up}
use os_cpp.Kmem.{Kmem, ones, fives, phy_end, kfree, kalloc, kinit_loop, kinit}
use native.Mathlib.Decide.{dec_le}

abbrev pub NotIn : ℕ → List ℕ → Type 0
NotIn p [] = Unit
NotIn p (q ∷ qs) = (p ≢ q) × NotIn p qs

-- From this address the words lead through these pages, each once, to the null pointer.
abbrev pub Linked : (ℕ → ℕ) → ℕ → List ℕ → Type 0
Linked word head [] = head ≡ 0
Linked word head (p ∷ ps) = (head ≡ p) × (p ≢ 0) × NotIn p ps × Linked word (word p) ps

abbrev pub Free : Kmem → List ℕ → Type 0
Free k ps = Linked k.word k.freelist ps

Linked-update :
    (word : ℕ → ℕ) (a v head : ℕ) (ps : List ℕ)
    → NotIn a ps
    → Linked word head ps
    → Linked (update word a v) head ps
Linked-update word a v head [] out h = h
Linked-update word a v head (p ∷ ps) (ne, out) (e, np, once, h) = (
  e,
  np,
  once,
  subst (λ n. Linked (update word a v) n ps) (sym (update_ne word a p v ne))
      (Linked-update word a v (word p) ps out h),
)

-- kfree puts a page that is not free in front of the free pages.
kfree-Free :
    (a : ℕ) (k : Kmem) (ps : List ℕ) → a ≢ 0 → NotIn a ps → Free k ps → Free (kfree a k) (a ∷ ps)
unfolding kfree
kfree-Free a k ps ne out h =
    let word' : ℕ → ℕ = update (update k.word a ones) a k.freelist in
    (
      refl,
      ne,
      out,
      subst (λ n. Linked word' n ps) (sym (update_self (update k.word a ones) a k.freelist))
          (Linked-update (update k.word a ones) a k.freelist k.freelist ps out
            (Linked-update k.word a ones k.freelist ps out h)),
    )

-- What `kalloc` does, by the free pages.
abbrev pub Allocates : List ℕ → Kmem → Type 0
Allocates [] k = kalloc k ≡ (none, k)
Allocates (p ∷ qs) k = ((kalloc k).0 ≡ some p) × Free (kalloc k).1 qs × NotIn p qs

-- kalloc takes the first free page, which is then in the list no more, and finds none exactly if
-- there is none.
pub kalloc-Free : (k : Kmem) (ps : List ℕ) → Free k ps → Allocates ps k
unfolding kalloc
kalloc-Free k [] h =
    let null : (k.freelist == 0) ≡ true = ground (arith, h) in rw (kalloc, null) refl
kalloc-Free k (p ∷ qs) (e, ne, out, h) =
    let page : (k.freelist == 0) ≡ false = ground (arith, e, ne) in
    rw (kalloc, page)
      (
        ap some e,
        subst (λ n. Linked (update k.word n fives) (k.word n) qs) (sym e)
            (Linked-update k.word p fives (k.word p) qs out h),
        out,
      )

-- A page that is freed is the next to be allocated, and the rest of the list is as before.
pub kalloc-kfree :
    (a : ℕ) (k : Kmem) (ps : List ℕ)
    → a ≢ 0
    → NotIn a ps
    → Free k ps
    → ((kalloc (kfree a k)).0 ≡ some a) × Free (kalloc (kfree a k)).1 ps
kalloc-kfree a k ps ne out h =
    let (page, rest, once) = kalloc-Free (kfree a k) (a ∷ ps) (kfree-Free a k ps ne out h) in
    (page, rest)

-- The `n` pages from an address on, the last one first.
abbrev pub pages : ℕ → ℕ → List ℕ
pages first zero = []
pages first (suc n) = (first + n * pgsize) ∷ pages first n

pages-NotIn : (first a n : ℕ) → first + n * pgsize ≤ a → NotIn a (pages first n)
pages-NotIn first a zero le = tt
pages-NotIn first a (suc n) le = (λ q. omega arith, pages-NotIn first a n (omega arith))

kinit_loop-Free :
    (fuel first n : ℕ) (k : Kmem)
    → 0 < first
    → phy_end < first + (n + fuel) * pgsize + pgsize
    → first + n * pgsize ≤ phy_end
    → Free k (pages first n)
    → Free (kinit_loop fuel (first + n * pgsize) k) (pages first ((phy_end - first) / pgsize))
unfolding kinit_loop
kinit_loop-Free zero first n k pos enough le h =
    let all : n ≡ (phy_end - first) / pgsize = omega arith in
    subst (λ m. Free k (pages first m)) all h
kinit_loop-Free (suc fuel) first n k pos enough le h =
    elim (dec_le (first + n * pgsize + pgsize) phy_end) [
      | yes fits ↦
          let inside : leb (first + n * pgsize + pgsize) phy_end ≡ true = ground arith in
          let one_page : suc n ≡ n + 1 = omega arith in
          let next : first + n * pgsize + pgsize ≡ first + (n + 1) * pgsize = omega arith in
          rw (kinit_loop, inside, next)
            (kinit_loop-Free fuel first (n + 1) (kfree (first + n * pgsize) k) pos (omega arith)
              (omega arith)
              (subst (λ m. Free (kfree (first + n * pgsize) k) (pages first m)) one_page
                (kfree-Free (first + n * pgsize) k (pages first n) (λ q. omega arith)
                  (pages-NotIn first (first + n * pgsize) n (omega arith)) h)))
      | no over ↦
          let outside : leb (first + n * pgsize + pgsize) phy_end ≡ false = ground arith in
          rw (kinit_loop, outside)
            (let all : n ≡ (phy_end - first) / pgsize = omega arith in
              subst (λ m. Free k (pages first m)) all h)
    ]

-- kinit, on an empty list and a kernel that ends below the end of memory, makes a list of exactly
-- the whole pages between the two, each once; the bound on its loop is enough.
pub kinit_lem :
    (kernel_end : ℕ) (k : Kmem)
    → pg_round_up kernel_end ≤ phy_end
    → 0 < pg_round_up kernel_end
    → k.freelist ≡ 0
    → Free
        (kinit kernel_end k)
        (pages (pg_round_up kernel_end) ((phy_end - pg_round_up kernel_end) / pgsize))
unfolding kinit
kinit_lem kernel_end k below round_pos empty =
    let start : pg_round_up kernel_end + 0 * pgsize ≡ pg_round_up kernel_end = omega arith in
    subst
      (λ m.
        Free (kinit_loop (phy_end / pgsize) m k)
          (pages (pg_round_up kernel_end) ((phy_end - pg_round_up kernel_end) / pgsize)))
      start
      (kinit_loop-Free (phy_end / pgsize) (pg_round_up kernel_end) 0 k round_pos (omega arith)
        (omega arith) empty)
