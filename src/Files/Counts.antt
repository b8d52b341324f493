-- ===== src/Files/Counts.antt =====
-- The reference counts are the numbers of references.
use os_cpp.Base.{
  ltb, ◌==◌, if◌then◌else◌, le→ltb_false, Bool-cases, get_elem?, set, update, ok, ◌>>=◌, Returns,
  Returns-bind, ℕ, zero, suc, ◌+◌, ◌-◌, ◌%◌, ◌^◌, ◌<◌, ◌≡◌, refl, ap, subst, ◌⊎◌, inl, inr, false,
  Option, none, some, List, [], ◌∷◌, arith,
}
use os_cpp.Files.{
  fd_none, fd_pipe, fd_inode, fd_device, kept, gone, close_pipe, put_inode, File, Ftable, nofile,
  dup, Released, release_file, close, Files, further, fd_alloc, get_fd, sys_dup, sys_close,
}
use native.Mathlib.Decide.{ℕ_discrete}

-- The descriptors that name a file.
abbrev pub refers : ℕ → Option ℕ → ℕ
refers f none = 0
refers f (some g) = if f == g then 1 else 0

abbrev pub count : ℕ → List (Option ℕ) → ℕ
count f [] = 0
count f (fd ∷ fds) = refers f fd + count f fds

-- Each file's count is the number of the process's descriptors that name it and of the references
-- that others have.
abbrev pub Counted : (ℕ → ℕ) → Files → Type 0
Counted others s = (f : ℕ) → (s.table f).ref ≡ others f + count f s.ofile

-- What `fd_alloc` does to the counts, when it finds a place.
abbrev pub Placed : ℕ → List (Option ℕ) → Option (ℕ × List (Option ℕ)) → Type 0
Placed f fds none = Unit
Placed f fds (some r) = (g : ℕ) → count g r.1 ≡ refers g (some f) + count g fds

Placed-cons :
    (f h : ℕ) (fds : List (Option ℕ)) (o : Option (ℕ × List (Option ℕ)))
    → Placed f fds o
    → Placed f (some h ∷ fds) (further h o)
Placed-cons f h fds none p = tt
Placed-cons f h fds (some r) p = λ g. omega (arith, p g)

pub fd_alloc-Placed : (f : ℕ) (fds : List (Option ℕ)) → Placed f fds (fd_alloc f fds)
unfolding fd_alloc
fd_alloc-Placed f [] = tt
fd_alloc-Placed f (none ∷ fds) = λ g. omega arith
fd_alloc-Placed f (some h ∷ fds) = Placed-cons f h fds (fd_alloc f fds) (fd_alloc-Placed f fds)

-- What `get_fd` finds.
abbrev pub Names : List (Option ℕ) → Option (ℕ × ℕ) → Type 0
Names fds none = Unit
Names fds (some r) = get_elem? fds r.0 ≡ some (some r.1)

get_fd-Names : (argu : ℕ) (fds : List (Option ℕ)) → Names fds (get_fd argu fds)
unfolding get_fd
get_fd-Names argu fds = elim (Bool-cases (ltb (argu % 2 ^ 32) nofile)) [
  | inr q ↦ rw (get_fd, q) tt
  | inl q ↦ rw (get_fd, q) (found (get_elem? fds (argu % 2 ^ 32)) refl)
]
  where
    found :
        (o : Option (Option ℕ))
        → get_elem? fds (argu % 2 ^ 32) ≡ o
        → Names fds
            (elim o [ some (some f) ↦ some (argu % 2 ^ 32, f) | some none ↦ none | none ↦ none ])
    found none e = tt
    found (some none) e = tt
    found (some (some f)) e = e

-- Emptying a descriptor takes one reference away.
count_set :
    (g : ℕ) (fds : List (Option ℕ)) (i f : ℕ)
    → get_elem? fds i ≡ some (some f)
    → count g fds ≡ refers g (some f) + count g (set fds i none)
count_set g [] i f e = absurd (nothing e)
  where
    nothing : get_elem? {A = Option ℕ} [] i ≡ some (some f) → ⊥
    nothing q = ground (arith, q)
count_set g (x ∷ fds) zero f e =
    let here : x ≡ some f = ap (λ o. elim o [ none ↦ x | some y ↦ y ]) e in rw here (omega arith)
count_set g (x ∷ fds) (suc i) f e = omega (arith, count_set g fds i f e)

dup-Counted :
    (others : ℕ → ℕ) (s : Files) (f fd : ℕ) (ofile : List (Option ℕ))
    → Counted others s
    → 0 < (s.table f).ref
    → ((g : ℕ) → count g ofile ≡ refers g (some f) + count g s.ofile)
    → Returns (λ t. Counted others (record { table = t; ofile = ofile })) (dup f s.table)
unfolding dup
dup-Counted others s f fd ofile counted used more =
    let some_ref : ltb (s.table f).ref 1 ≡ false = le→ltb_false _ 1 (omega arith) in
    rw (dup, some_ref, Returns)
      (λ g. elim (ℕ_discrete f g) [
        | yes p ↦
            subst
              (λ k.
                (update s.table f (record (s.table f) { ref = (s.table f).ref + 1 }) k).ref
                ≡ others k + count k ofile)
              p (ground (arith, more f, counted f))
        | no p ↦ ground (arith, more g, counted g)
      ])

-- What `close` is to release of a file: its end of a pipe, or its inode.
abbrev pub Due : File → Released → Type 0
Due ff kept = ⊥
Due ff gone = ff.kind ≡ fd_none
Due ff (close_pipe p w) = (ff.kind ≡ fd_pipe) × (p ≡ ff.object) × (w ≡ ff.writable)
Due ff (put_inode ip) = ((ff.kind ≡ fd_inode) ⊎ (ff.kind ≡ fd_device)) × (ip ≡ ff.object)

-- What `close` releases of the file, against the references that are left.
abbrev pub Last : File → ℕ → Released → Type 0
Last ff refs kept = 0 < refs
Last ff refs gone = (refs ≡ 0) × Due ff gone
Last ff refs (close_pipe p w) = (refs ≡ 0) × Due ff (close_pipe p w)
Last ff refs (put_inode ip) = (refs ≡ 0) × Due ff (put_inode ip)

release_file-Last : (ff : File) (refs : ℕ) → refs ≡ 0 → Last ff refs (release_file ff)
release_file-Last ff refs e =
    elim ff.kind
      as (λ k. Last (record ff { kind = k }) refs (release_file (record ff { kind = k }))) [
        | fd_none ↦ (e, refl)
        | fd_pipe ↦ (e, (refl, refl, refl))
        | fd_inode ↦ (e, (inl refl, refl))
        | fd_device ↦ (e, (inr refl, refl))
      ]

abbrev pub Closed : (ℕ → ℕ) → File → ℕ → List (Option ℕ) → Released × Ftable → Type 0
Closed others ff f ofile r =
    Counted others (record { table = r.1; ofile = ofile }) × Last ff (others f + count f ofile) r.0

pub close-Counted :
    (others : ℕ → ℕ) (s : Files) (f : ℕ) (ofile : List (Option ℕ))
    → Counted others s
    → ((g : ℕ) → count g s.ofile ≡ refers g (some f) + count g ofile)
    → Returns (Closed others (s.table f) f ofile) (close f s.table)
unfolding close
close-Counted others s f ofile counted less =
    let one : refers f (some f) ≡ 1 = ground arith in
    let some_ref : ltb (s.table f).ref 1 ≡ false =
      le→ltb_false _ 1 (omega (arith, counted f, less f, one)) in
    elim (Bool-cases (ltb 0 ((s.table f).ref - 1))) [
      | inl q ↦
          rw (close, some_ref, q, Returns)
            (
              after_others (record (s.table f) { ref = (s.table f).ref - 1 }) refl,
              ground (arith, counted f, less f, one, q),
            )
      | inr q ↦
          rw (close, some_ref, q, Returns)
            (
              after_others (record (s.table f) { ref = 0; kind = fd_none }) (ground (arith, q)),
              release_file-Last (record (s.table f) { ref = (s.table f).ref - 1 })
                  (others f + count f ofile) (ground (arith, counted f, less f, one, q)),
            )
    ]
  where
    after_others :
        (ff : File)
        → ff.ref ≡ (s.table f).ref - 1
        → Counted others (record { table = update s.table f ff; ofile = ofile })
    after_others ff e g = elim (ℕ_discrete f g) [
      | yes p ↦
          subst (λ k. (update s.table f ff k).ref ≡ others k + count k ofile) p
            (ground (arith, less f, counted f, e))
      | no p ↦ ground (arith, less g, counted g)
    ]

held_once :
    (others : ℕ → ℕ) (s : Files) (fd f : ℕ)
    → Counted others s
    → get_elem? s.ofile fd ≡ some (some f)
    → 0 < (s.table f).ref
held_once others s fd f counted e =
    let one : refers f (some f) ≡ 1 = ground arith in
    omega (arith, counted f, count_set f s.ofile fd f e, one)

-- sys_dup keeps every reference count equal to the number of references, and returns: the panic of
-- file::dup is not reached.
pub sys_dup-Counted :
    (others : ℕ → ℕ) (argu : ℕ) (s : Files)
    → Counted others s
    → Returns (λ r. Counted others r.1) (sys_dup argu s)
unfolding sys_dup
sys_dup-Counted others argu s counted = go (get_fd argu s.ofile) (get_fd-Names argu s.ofile)
  where
    copy :
        (f : ℕ)
        → 0 < (s.table f).ref
        → (o : Option (ℕ × List (Option ℕ))) → Placed f s.ofile o
        → Returns
            (λ (r : Option ℕ × Files). Counted others r.1)
            (elim o [
              | none ↦ ok (none, s)
              | some (fd, ofile) ↦
                  dup f s.table >>= λ t. ok (some fd, record { table = t; ofile = ofile })
            ])
    copy f used none placed = counted
    copy f used (some (fd, ofile)) placed =
        Returns-bind (λ t. Counted others (record { table = t; ofile = ofile })) _ (dup f s.table) _
          (dup-Counted others s f fd ofile counted used placed) (λ t h. h)

    go :
        (o : Option (ℕ × ℕ))
        → Names s.ofile o
        → Returns
            (λ (r : Option ℕ × Files). Counted others r.1)
            (elim o [
              | none ↦ ok (none, s)
              | some (old, f) ↦ elim (fd_alloc f s.ofile) [
                | none ↦ ok (none, s)
                | some (fd, ofile) ↦
                    dup f s.table >>= λ t. ok (some fd, record { table = t; ofile = ofile })
              ]
            ])
    go none named = counted
    go (some (old, f)) named =
        copy f (held_once others s old f counted named) (fd_alloc f s.ofile)
          (fd_alloc-Placed f s.ofile)

-- What `sys_close` answers: -1 for a number that is no open descriptor; else the file is given up
-- exactly if no reference to it is left.
abbrev pub Answers : (ℕ → ℕ) → Ftable → Option (ℕ × ℕ) → Option Released → List (Option ℕ) → Type 0
Answers others t none none ofile = Unit
Answers others t none (some rel) ofile = ⊥
Answers others t (some r) none ofile = ⊥
Answers others t (some r) (some rel) ofile = Last (t r.1) (others r.1 + count r.1 ofile) rel

-- sys_close keeps every reference count equal to the number of references, and returns: the panic of
-- file::close is not reached. On a number that is no open descriptor it returns -1; else if references to
-- the file are left, nothing is given up, and if none is left, exactly what the file refers to is: a
-- pipe's end, which is the writing one if the file is writable, the inode of a file or a device, or
-- nothing for a file without a type.
pub sys_close-Counted :
    (others : ℕ → ℕ) (argu : ℕ) (s : Files)
    → Counted others s
    → Returns
        (λ r. Counted others r.1 × Answers others s.table (get_fd argu s.ofile) r.0 r.1.ofile)
        (sys_close argu s)
unfolding sys_close
sys_close-Counted others argu s counted = go (get_fd argu s.ofile) (get_fd-Names argu s.ofile)
  where
    go :
        (o : Option (ℕ × ℕ))
        → Names s.ofile o
        → Returns
            (λ (r : Option Released × Files).
              Counted others r.1 × Answers others s.table o r.0 r.1.ofile)
            (elim o [
              | none ↦ ok (none, s)
              | some (fd, f) ↦ close f s.table >>= λ r.
                  ok (some r.0, record { table = r.1; ofile = set s.ofile fd none })
            ])
    go none named = (counted, tt)
    go (some (fd, f)) named =
        Returns-bind (Closed others (s.table f) f (set s.ofile fd none)) _ (close f s.table) _
          (close-Counted others s f (set s.ofile fd none) counted
            (λ g. count_set g s.ofile fd f named))
          (λ r h. h)
