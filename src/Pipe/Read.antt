-- ===== src/Pipe/Read.antt =====
-- What piperead delivers, and a pipewrite followed by a piperead.
use os_cpp.Base.{
  Bool-cases, length, length-append, update, update_self, ◌>>=◌, Returns, Returns-mono,
  Returns-bind, ℕ, zero, suc, ◌+◌, ◌%◌, ◌≤◌, ◌<◌, min, ◌≡◌, refl, sym, ap, ◌∙◌, ◌≢◌, ◌⊎◌, inl, inr,
  Bool, true, false, some, List, [], ◌∷◌, ◌++◌, arith,
}
use os_cpp.Base.Ring.{window}
use os_cpp.Pipe.{
  on_nwrite, pipe_size, Pipe, Turn, is_empty, drop_one, pipewrite, Dest, copyout, copy_loop,
  read_available, piperead,
}
use os_cpp.Pipe.Queue.{
  used, contents, IsValid, is_empty-used, not_empty_used, drop_one-IsValid, used-drop_one,
  contents-drop_one, length-contents, segment, wakeup-IsValid,
}
use os_cpp.Pipe.Write.{pipewrite_appends}
use mathlib.Core.Path.{ap₂}

abbrev stored : ℕ → Dest → Pipe → Dest
stored i d p = record d { bytes = update d.bytes i (p.buf (p.nread % pipe_size)) }

piperead_ready :
    (ts : List Turn) (n : ℕ) (killed : Bool) (d : Dest) (p : Pipe)
    → IsValid p
    → (0 < used p) ⊎ (p.writeopen ≡ false)
    → piperead ts n killed d p ≡ read_available n d p
unfolding piperead
piperead_ready [] n killed d p v ready = ground (arith, is_empty-used p v)
piperead_ready (t ∷ ts) n killed d p v ready = ground (arith, is_empty-used p v)

copy_loop_below :
    (left i : ℕ) (d : Dest) (p : Pipe) (j : ℕ)
    → j < i
    → (copy_loop left i d p).1.bytes j ≡ d.bytes j
unfolding copy_loop copyout
copy_loop_below zero i d p j lt = refl
copy_loop_below (suc left) i d p j lt =
    ground (arith, copy_loop_below left (i + 1) (stored i d p) (drop_one p) j)

-- What the copying loop has done after `k` bytes, all of the buffer being writable.
record Copied (k i : ℕ) (p : Pipe) (r : ℕ × Dest × Pipe) : Type 0 where
  count : r.0 ≡ i + k
  bytes : contents p ≡ segment r.1.bytes i k ++ contents r.2
  valid : IsValid r.2

Copied-suc :
    (k i : ℕ) (p : Pipe) (r : ℕ × Dest × Pipe)
    → IsValid p
    → used p ≢ 0
    → r.1.bytes i ≡ p.buf (p.nread % pipe_size)
    → Copied k (i + 1) (drop_one p) r
    → Copied (suc k) i p r
Copied-suc k i p r v ne first c = record {
  count = omega (arith, c.count);
  bytes = contents-drop_one p v ne ∙ ap₂ (λ x ys. x ∷ ys) (sym first) c.bytes;
  valid = c.valid;
}

copy_loop-Copied :
    (left k i : ℕ) (d : Dest) (p : Pipe)
    → IsValid p
    → ((j : ℕ) → d.allowed j ≡ true)
    → k ≡ min left (used p)
    → Copied k i p (copy_loop left i d p)
unfolding copy_loop copyout
copy_loop-Copied zero zero i d p v al e = record { count = omega arith; bytes = refl; valid = v }
copy_loop-Copied zero (suc k) i d p v al e = absurd (omega arith)
copy_loop-Copied (suc left) zero i d p v al e = elim (Bool-cases (is_empty p)) [
  | inl t ↦ rw (t, copy_loop) (record { count = omega arith; bytes = refl; valid = v })
  | inr t ↦ absurd (omega (arith, not_empty_used p v t))
]
copy_loop-Copied (suc left) (suc k) i d p v al e = elim (Bool-cases (is_empty p)) [
  | inl t ↦ absurd (omega (arith, is_empty-used p v t))
  | inr t ↦
      let ne = not_empty_used p v t in
      rw (t, al i, copy_loop)
        (Copied-suc k i p _ v ne
          (copy_loop_below left (i + 1) (stored i d p) (drop_one p) i (omega arith)
            ∙ update_self d.bytes i _)
          (copy_loop-Copied left k (i + 1) (stored i d p) (drop_one p) (drop_one-IsValid p v ne) al
            (omega (arith, used-drop_one p v ne))))
]

-- A piperead that need not wait, since the ring has bytes or the writing end is closed, and that can
-- copy each byte to the caller, returns as many bytes as it asks for or the pipe holds, whichever is
-- less; they are the oldest ones, in order, and the rest stays in the pipe. The indices of the ring
-- are in order, at most its size apart, before and after.
pub piperead_delivers :
    (ts : List Turn) (n : ℕ) (killed : Bool) (d : Dest) (p : Pipe)
    → IsValid p
    → ((j : ℕ) → d.allowed j ≡ true)
    → (0 < used p) ⊎ (p.writeopen ≡ false)
    → Returns
        (λ r.
          (r.0 ≡ min n (used p))
          × (contents p ≡ segment r.1.bytes 0 (min n (used p)) ++ contents r.2)
          × IsValid r.2)
        (piperead ts n killed d p)
piperead_delivers ts n killed d p v al ready =
    rw (piperead_ready ts n killed d p v ready, Returns)
      (omega (arith, done.count), done.bytes, wakeup-IsValid _ on_nwrite done.valid)
  where
    done : Copied (min n (used p)) 0 p (copy_loop n 0 d p)
    done = copy_loop-Copied n (min n (used p)) 0 d p v al refl

contents_none : (p : Pipe) → used p ≡ 0 → contents p ≡ []
contents_none p e = ap (window pipe_size p.buf p.nread) e

length-segment : (src : ℕ → ℕ) (i n : ℕ) → length (segment src i n) ≡ n
length-segment src i zero = refl
length-segment src i (suc n) = ap suc (length-segment src (i + 1) n)

segment_eq :
    (a b : ℕ → ℕ) (i n : ℕ) (ys : List ℕ)
    → segment a i n ++ ys ≡ segment b i n
    → segment a i n ≡ segment b i n
segment_eq a b i zero ys e = refl
segment_eq a b i (suc n) ys e = cc (segment_eq a b (i + 1) n ys (cc))

-- What is written to an empty pipe whose reading end is open, one byte at least and at most what the
-- ring holds, is read back: if neither caller is killed and their memory can be accessed, the reader
-- gets all `n` bytes, unchanged and in order, and neither call sleeps.
pub piperead-pipewrite :
    (src : ℕ → ℕ) (ts us : List Turn) (n : ℕ) (d : Dest) (p : Pipe)
    → IsValid p
    → used p ≡ 0
    → p.readopen ≡ true
    → 0 < n
    → n ≤ pipe_size
    → ((j : ℕ) → d.allowed j ≡ true)
    → Returns
        (λ s. (s.0 ≡ n) × (segment s.1.bytes 0 n ≡ segment src 0 n))
        (pipewrite (λ j. some (src j)) ts n false p >>= λ r. piperead us n false d r.1)
piperead-pipewrite src ts us n d p v empty o pos room al =
    Returns-bind _ _ (pipewrite (λ j. some (src j)) ts n false p) _
      (pipewrite_appends src ts n p v o (omega arith))
      λ r w.
        Returns-mono _ _ _ (λ s g. finish r s w.1 g.0 g.1)
          (piperead_delivers us n false d r.1 w.2 al (inl (omega (arith, filled r w.1))))
  where
    filled : (r : ℕ × Pipe) → contents r.1 ≡ contents p ++ segment src 0 n → used r.1 ≡ n
    filled r e = omega (
      arith,
      length-contents r.1,
      ap length e,
      length-append (contents p) (segment src 0 n),
      length-segment src 0 n,
      length-contents p,
    )

    finish :
        (r : ℕ × Pipe) (s : ℕ × Dest × Pipe)
        → contents r.1 ≡ contents p ++ segment src 0 n
        → s.0 ≡ min n (used r.1)
        → contents r.1 ≡ segment s.1.bytes 0 (min n (used r.1)) ++ contents s.2
        → (s.0 ≡ n) × (segment s.1.bytes 0 n ≡ segment src 0 n)
    finish r s e c g =
        let all : min n (used r.1) ≡ n = omega (arith, filled r e) in
        (
          omega (arith, all),
          segment_eq s.1.bytes src 0 n (contents s.2) (
              ap (λ k. segment s.1.bytes 0 k ++ contents s.2) (sym all)
              ∙ sym g
              ∙ e
              ∙ ap (λ ys. ys ++ segment src 0 n) (contents_none p empty)),
        )
