-- ===== src/Pipe/Write.antt =====
-- What pipewrite does on every branch, under interference and without.
use os_cpp.Base.{
  Option-cases, ok, Ensures, Returns, Returns-mono, ℕ, zero, suc, ◌+◌, ◌≤◌, ◌<◌, ◌≡◌, sym, ap, ◌∙◌,
  ◌⊎◌, inl, inr, Bool, true, false, Option, some, List, [], ◌∷◌, ◌++◌, arith,
}
use os_cpp.Pipe.{
  on_nread, pipe_size, Pipe, Turn, wakeup, failed, is_full, put, write_loop, pipewrite,
}
use os_cpp.Pipe.Queue.{
  used, contents, IsValid, not_full_used, used_not_full, readopen-put, put-IsValid, used-put,
  contents-put, segment, wakeup-IsValid,
}
use mathlib.Core.List.{append-nil, append_assoc}

-- The others keep the pipe valid while the caller sleeps.
abbrev pub Polite : List Turn → Type 0
Polite [] = Unit
Polite (t ∷ ts) = ((p : Pipe) → IsValid p → IsValid (t.act p)) × Polite ts

write_loop-IsValid :
    (user : ℕ → Option ℕ) (ts : List Turn) (left i : ℕ) (killed : Bool) (p : Pipe)
    → Polite ts
    → IsValid p
    → Ensures (λ r. IsValid r.1) (write_loop user ts left i killed p)
unfolding write_loop
write_loop-IsValid user ts zero i killed p pol v = wakeup-IsValid p on_nread v
write_loop-IsValid user [] (suc left) i killed p pol v = elim (Option-cases (user i)) [
  | inl e ↦ ground arith
  | inr (ch, e) ↦ ground (
    arith,
    not_full_used p v,
    put-IsValid p ch v,
    write_loop-IsValid user [] left (i + 1) killed (put p ch) pol,
  )
]
write_loop-IsValid user (t ∷ ts) (suc left) i killed p pol v =
    let asleep =
      write_loop-IsValid user ts (suc left) i t.killed (t.act (wakeup on_nread p)) pol.1
        (pol.0 (wakeup on_nread p) (wakeup-IsValid p on_nread v)) in
    elim (Option-cases (user i)) [
      | inl e ↦ ground (arith, asleep)
      | inr (ch, e) ↦ ground (
        arith,
        asleep,
        not_full_used p v,
        put-IsValid p ch v,
        write_loop-IsValid user (t ∷ ts) left (i + 1) killed (put p ch) pol,
      )
    ]

-- Whatever the caller's memory and whatever valid changes others make while it sleeps, a pipewrite
-- that returns leaves the indices in range and at most 512 bytes in the pipe.
pub pipewrite-IsValid :
    (user : ℕ → Option ℕ) (ts : List Turn) (n : ℕ) (killed : Bool) (p : Pipe)
    → Polite ts
    → IsValid p
    → Ensures (λ r. IsValid r.1) (pipewrite user ts n killed p)
unfolding pipewrite
pipewrite-IsValid user ts n killed p pol v = write_loop-IsValid user ts n 0 killed p pol v

write_loop_step :
    (src : ℕ → ℕ) (ts : List Turn) (left i : ℕ) (p : Pipe)
    → p.readopen ≡ true
    → is_full p ≡ false
    → write_loop (λ j. some (src j)) ts (suc left) i false p
      ≡ write_loop (λ j. some (src j)) ts left (i + 1) false (put p (src i))
unfolding write_loop
write_loop_step src [] left i p o room = ground arith
write_loop_step src (t ∷ ts) left i p o room = ground arith

-- What a pipewrite of `left` bytes that fit has done when it returns.
abbrev Wrote : (ℕ → ℕ) → ℕ → ℕ → Pipe → ℕ × Pipe → Type 0
Wrote src left i p r =
    (r.0 ≡ i + left) × (contents r.1 ≡ contents p ++ segment src i left) × IsValid r.1

Wrote-suc :
    (src : ℕ → ℕ) (left i : ℕ) (p : Pipe)
    → IsValid p
    → used p < pipe_size
    → (r : ℕ × Pipe) → Wrote src left (i + 1) (put p (src i)) r
    → Wrote src (suc left) i p r
Wrote-suc src left i p v lt r (count, bytes, w) = (
  omega arith,
  bytes
      ∙ ap (λ ys. ys ++ segment src (i + 1) left) (contents-put p (src i) v lt)
      ∙ append_assoc (contents p) (src i ∷ []) (segment src (i + 1) left),
  w,
)

write_loop_appends :
    (src : ℕ → ℕ) (ts : List Turn) (left i : ℕ) (p : Pipe)
    → IsValid p
    → p.readopen ≡ true
    → left + used p ≤ pipe_size
    → Returns (Wrote src left i p) (write_loop (λ j. some (src j)) ts left i false p)
write_loop_appends src ts zero i p v o room =
    unfold write_loop in (omega arith, sym (append-nil (contents p)), wakeup-IsValid p on_nread v)
write_loop_appends src ts (suc left) i p v o room =
    rw (write_loop_step src ts left i p o (used_not_full p v lt), Returns)
      (Returns-mono (Wrote src left (i + 1) (put p (src i))) (Wrote src (suc left) i p) _
        (Wrote-suc src left i p v lt)
        (write_loop_appends src ts left (i + 1) (put p (src i)) (put-IsValid p (src i) v lt)
          (readopen-put p (src i) o) (omega (arith, used-put p (src i) v lt))))
  where
    lt : used p < pipe_size
    lt = omega arith

-- A pipewrite of bytes that all fit, to a pipe whose read end is open, never sleeps: it returns
-- their number and appends exactly those bytes, in order.
pub pipewrite_appends :
    (src : ℕ → ℕ) (ts : List Turn) (n : ℕ) (p : Pipe)
    → IsValid p
    → p.readopen ≡ true
    → n + used p ≤ pipe_size
    → Returns
        (λ r. (r.0 ≡ n) × (contents r.1 ≡ contents p ++ segment src 0 n) × IsValid r.1)
        (pipewrite (λ j. some (src j)) ts n false p)
unfolding pipewrite
pipewrite_appends src ts n p v o room =
    Returns-mono (Wrote src n 0 p) _ _ (λ r h. (omega arith, h.1, h.2))
      (write_loop_appends src ts n 0 p v o room)

-- Once the read end is closed, or the caller is killed, a pipewrite of at least one byte returns -1
-- and writes nothing.
pub pipewrite_closed :
    (user : ℕ → Option ℕ) (ts : List Turn) (n : ℕ) (killed : Bool) (p : Pipe)
    → 0 < n
    → (p.readopen ≡ false) ⊎ (killed ≡ true)
    → pipewrite user ts n killed p ≡ ok (failed, p)
unfolding pipewrite write_loop
pipewrite_closed user ts zero killed p pos c = absurd (omega arith)
pipewrite_closed user [] (suc n) killed p pos c = ground arith
pipewrite_closed user (t ∷ ts) (suc n) killed p pos c = ground arith
