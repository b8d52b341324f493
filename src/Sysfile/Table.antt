-- ===== src/Sysfile/Table.antt =====
-- kernel/syscall.cpp: the table of the system calls.
-- The entries of the table are an argument. A number past the end of the table reads what lies behind it.
use os_cpp.Base.{
  leb, if◌then◌else◌, length, ok, fault, Outcome, ◌>>=◌, ℕ, zero, suc, ◌*◌, Option, none, some,
  List, [], ◌∷◌,
}

abbrev pub entry {ℓ} : {A : Type ℓ} → List A → ℕ → Option A
entry [] k = none
entry (x ∷ xs) zero = some x
entry (x ∷ xs) (suc k) = entry xs k

-- `a0` is what the call returned, and `none` if its number is not known.
unfoldable pub syscall {ℓ} :
    {S : Type ℓ} → List (S → Outcome (ℕ × S)) → ℕ → S → Outcome (Option ℕ × S)
syscall calls num s =
    if leb num (8 * length calls)
    then elim (entry calls num) [ none ↦ fault | some call ↦ call s >>= λ r. ok (some r.0, r.1) ]
    else ok (none, s)
