-- ===== src/Files/Fresh.antt =====
-- What `alloc` and `fd_alloc` give.
use os_cpp.Base.{
  ◌==◌, Bool-cases, get_elem?, update, ℕ, zero, suc, ◌+◌, ◌<◌, ◌≡◌, refl, inl, inr, Option, none,
  some, List, [], ◌∷◌, arith,
}
use os_cpp.Files.{Ftable, nfile, alloc_loop, alloc, Files, further, fd_alloc}
use os_cpp.Files.Counts.{count, Counted}
use native.Mathlib.Decide.{ℕ_discrete}

-- What `alloc` gives under the counts: a file that nobody refers to, now counted for the caller.
abbrev pub Fresh : (ℕ → ℕ) → Files → Option (ℕ × Ftable) → Type 0
Fresh others s none = (f : ℕ) → f < nfile → 0 < others f + count f s.ofile
Fresh others s (some r) =
    (others r.0 + count r.0 s.ofile ≡ 0) × Counted (update others r.0 1) (record s { table = r.1 })

alloc_loop-Fresh :
    (others : ℕ → ℕ) (s : Files) (i left : ℕ)
    → i + left ≡ nfile
    → Counted others s
    → ((f : ℕ) → f < i → 0 < others f + count f s.ofile)
    → Fresh others s (alloc_loop i left s.table)
unfolding alloc_loop
alloc_loop-Fresh others s i zero e counted before = λ f lt. before f (omega arith)
alloc_loop-Fresh others s i (suc left) e counted before = elim (Bool-cases ((s.table i).ref == 0)) [
  | inl q ↦
      rw (alloc_loop, q)
        (
          ground (arith, q, counted i),
          λ g. elim (ℕ_discrete i g) [
            | yes p ↦ ground (arith, q, counted g, counted i)
            | no p ↦ ground (arith, counted g)
          ],
        )
  | inr q ↦
      rw (alloc_loop, q)
        (alloc_loop-Fresh others s (i + 1) left (omega arith) counted (λ f lt.
          elim (ℕ_discrete f i) [
            | yes p ↦ rw p (ground (arith, q, counted i))
            | no p ↦ before f (omega arith)
          ]))
]

-- alloc gives a file that nobody refers to, with a count of one for the caller's reference, and
-- keeps the other counts; it returns a null pointer only if each of the NFILE files has a reference.
pub alloc-Fresh : (others : ℕ → ℕ) (s : Files) → Counted others s → Fresh others s (alloc s.table)
unfolding alloc
alloc-Fresh others s counted =
    alloc_loop-Fresh others s 0 nfile refl counted (λ f lt. absurd (omega arith))

-- Where `fd_alloc` puts the file.
abbrev pub Puts : ℕ → List (Option ℕ) → Option (ℕ × List (Option ℕ)) → Type 0
Puts f fds none = Unit
Puts f fds (some r) = (get_elem? fds r.0 ≡ some none) × (get_elem? r.1 r.0 ≡ some (some f))

Puts-cons :
    (f h : ℕ) (fds : List (Option ℕ)) (o : Option (ℕ × List (Option ℕ)))
    → Puts f fds o
    → Puts f (some h ∷ fds) (further h o)
Puts-cons f h fds none p = tt
Puts-cons f h fds (some r) p = p

pub fd_alloc-Puts : (f : ℕ) (fds : List (Option ℕ)) → Puts f fds (fd_alloc f fds)
unfolding fd_alloc
fd_alloc-Puts f [] = tt
fd_alloc-Puts f (none ∷ fds) = (refl, refl)
fd_alloc-Puts f (some h ∷ fds) = Puts-cons f h fds (fd_alloc f fds) (fd_alloc-Puts f fds)
