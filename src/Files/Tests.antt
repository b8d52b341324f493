-- ===== src/Files/Tests.antt =====
-- Runs of the descriptors.
use os_cpp.Base.{
  ◌==◌, if◌then◌else◌, Returns, ℕ, ◌≡◌, refl, true, false, none, some, [], ◌∷◌, arith,
}
use os_cpp.Files.{fd_pipe, kept, alloc, dup, close, Files, fd_alloc, get_fd, sys_dup, sys_close}
use os_cpp.Files.Counts.{Counted, sys_dup-Counted, Answers, sys_close-Counted}
use os_cpp.Files.Fresh.{Fresh, alloc-Fresh}

-- Descriptors 0 and 1 name file 3, a pipe's writing end, and file 5 is another process's.
abbrev two_names : Files
two_names = record {
  table = λ i. record {
    kind = fd_pipe;
    ref = if i == 3 then 2 else if i == 5 then 1 else 0;
    readable = false;
    writable = true;
    object = 9;
    off = 0;
    major = 0;
  };
  ofile = some 3 ∷ some 3 ∷ none ∷ none ∷ [];
}

abbrev others_hold : ℕ → ℕ
others_hold f = if f == 5 then 1 else 0

two_names-Counted : Counted others_hold two_names
two_names-Counted f = ground arith

sys_dup-Counted_example : Returns (λ r. Counted others_hold r.1) (sys_dup 0 two_names)
sys_dup-Counted_example = sys_dup-Counted others_hold 0 two_names two_names-Counted

dup_takes_the_first_place : Returns (λ r. r.0 ≡ some 2) (sys_dup 0 two_names)
unfolding sys_dup get_fd fd_alloc dup
dup_takes_the_first_place = refl

sys_close-Counted_example :
    Returns
      (λ r.
        Counted others_hold r.1
        × Answers others_hold two_names.table (get_fd 1 two_names.ofile) r.0 r.1.ofile)
      (sys_close 1 two_names)
sys_close-Counted_example = sys_close-Counted others_hold 1 two_names two_names-Counted

first_close_keeps : Returns (λ r. r.0 ≡ some kept) (sys_close 1 two_names)
unfolding sys_close get_fd close
first_close_keeps = refl

alloc-Fresh_example : Fresh others_hold two_names (alloc two_names.table)
alloc-Fresh_example = alloc-Fresh others_hold two_names two_names-Counted
