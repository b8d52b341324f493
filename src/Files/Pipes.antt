-- ===== src/Files/Pipes.antt =====
-- kernel/pipe.cpp: `pipealloc`, as far as it works on the table of open files.
-- The memory of the pipe is a third file of the table: the first field of `struct pipe` that is set
-- lies behind its ring of 512 bytes, outside of the `struct file`.
use os_cpp.Base.{
  ok, fault, Outcome, ◌>>=◌, Ensures, Ensures-after, Ensures-option, ◌≡◌, refl, Bool, false, none,
  some,
}
use os_cpp.Files.{Ftable, alloc, close}

pub pipealloc : Ftable → Outcome (Bool × Ftable)
pipealloc t = elim (alloc t) [
  | none ↦ ok (false, t)
  | some (f0, t0) ↦ elim (alloc t0) [
    | none ↦ close f0 t0 >>= λ r. ok (false, r.1)
    | some (f1, t1) ↦ elim (alloc t1) [
      | none ↦ close f0 t1 >>= λ r. close f1 r.1 >>= λ q. ok (false, q.1)
      | some pi ↦ fault
    ]
  ]
]

-- No call of pipealloc returns a pipe.
pipealloc_fails : (t : Ftable) → Ensures (λ r. r.0 ≡ false) (pipealloc t)
unfolding pipealloc
pipealloc_fails t = Ensures-option _ (alloc t) _ _ refl (λ a.
    Ensures-option _ (alloc a.1) _ _ (Ensures-after _ (close a.0 a.1) _ (λ r. refl)) (λ b.
      Ensures-option _ (alloc b.1) _ _
        (Ensures-after _ (close a.0 b.1) _ (λ r. Ensures-after _ (close b.0 r.1) _ (λ q. refl)))
        (λ c. tt)))
