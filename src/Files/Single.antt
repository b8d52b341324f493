-- ===== src/Files/Single.antt =====
-- A file with one reference: what `alloc` gives, and what `close` then does.
use os_cpp.Base.{
  ltb, ◌==◌, le→ltb_false, Bool-cases, Returns, ℕ, zero, suc, ◌+◌, ◌-◌, ◌<◌, ◌≡◌, inl, inr, false,
  Option, none, some, arith,
}
use os_cpp.Files.{Ftable, nfile, alloc_loop, alloc, close}

-- A file that `alloc` gives has one reference.
abbrev pub One : Option (ℕ × Ftable) → Type 0
One none = Unit
One (some r) = (r.1 r.0).ref ≡ 1

alloc_loop-One : (i left : ℕ) (t : Ftable) → One (alloc_loop i left t)
unfolding alloc_loop
alloc_loop-One i zero t = tt
alloc_loop-One i (suc left) t = elim (Bool-cases ((t i).ref == 0)) [
  | inl q ↦ rw (alloc_loop, q) (ground arith)
  | inr q ↦ rw (alloc_loop, q) (alloc_loop-One (i + 1) left t)
]

pub alloc-One : (t : Ftable) → One (alloc t)
unfolding alloc
alloc-One t = alloc_loop-One 0 nfile t

-- Closing a file that is referred to returns.
pub close-Returns : (f : ℕ) (t : Ftable) → 0 < (t f).ref → Returns (λ r. Unit {0}) (close f t)
unfolding close
close-Returns f t used =
    let some_ref : ltb (t f).ref 1 ≡ false = le→ltb_false _ 1 (omega arith) in
    elim (Bool-cases (ltb 0 ((t f).ref - 1))) [
      | inl q ↦ rw (close, some_ref, q) tt
      | inr q ↦ rw (close, some_ref, q) tt
    ]
