-- ===== src/Pipe/Tests.antt =====
-- Runs of the pipe, and its theorems at concrete pipes.
use os_cpp.Base.{
  ok, blocked, ◌>>=◌, Ensures, Returns, ℕ, ◌+◌, min, ◌≡◌, refl, inl, inr, true, false, none, some,
  [], ◌∷◌, ◌++◌, arith,
}
use os_cpp.Pipe.{on_nread, Pipe, failed, put, write_loop, pipewrite, Dest, piperead, pipeclose}
use os_cpp.Pipe.Queue.{contents, IsValid, segment}
use os_cpp.Pipe.Write.{pipewrite-IsValid, pipewrite_appends, pipewrite_closed}
use os_cpp.Pipe.Read.{piperead_delivers, piperead-pipewrite}
use os_cpp.Pipe.Close.{pipeclose_lem, pipeclose_twice}

abbrev fresh : Pipe
fresh = record {
  buf = λ i. 0;
  nread = 0xffffffff;
  nwrite = 0xffffffff;
  readopen = true;
  writeopen = true;
  woken = [];
}

abbrev buffer : Dest
buffer = record { allowed = λ i. true; bytes = λ i. 0 }

abbrev word : ℕ → ℕ
word i = i + 65

fresh-IsValid : IsValid fresh
fresh-IsValid = record { read_word = omega arith; write_word = omega arith; fits = omega arith }

-- The index wraps between the two bytes.
wraps : Returns (λ r. r.1.nwrite ≡ 1) (pipewrite (λ i. some (word i)) [] 2 false fresh)
unfolding pipewrite write_loop put
wraps = refl

empty_blocks : piperead [] 1 false buffer fresh ≡ blocked
unfolding piperead
empty_blocks = refl

pipewrite-IsValid_example :
    Ensures (λ r. IsValid r.1) (pipewrite (λ i. some (word i)) [] 3 false fresh)
pipewrite-IsValid_example = pipewrite-IsValid (λ i. some (word i)) [] 3 false fresh tt fresh-IsValid

pipewrite_appends_example :
    Returns
      (λ r. (r.0 ≡ 2) × (contents r.1 ≡ contents fresh ++ segment word 0 2) × IsValid r.1)
      (pipewrite (λ i. some (word i)) [] 2 false fresh)
pipewrite_appends_example = pipewrite_appends word [] 2 fresh fresh-IsValid refl (omega arith)

pipewrite_closed_example :
    pipewrite (λ i. none) [] 2 false (record fresh { readopen = false })
    ≡ ok (failed, record fresh { readopen = false })
pipewrite_closed_example =
    pipewrite_closed (λ i. none) [] 2 false (record fresh { readopen = false }) (omega arith)
      (inl refl)

piperead_delivers_example :
    Returns
      (λ r.
        (r.0 ≡ min 3 0)
        × (contents fresh ≡ segment r.1.bytes 0 (min 3 0) ++ contents r.2)
        × IsValid r.2)
      (piperead [] 3 false buffer (record fresh { writeopen = false }))
piperead_delivers_example =
    piperead_delivers [] 3 false buffer (record fresh { writeopen = false })
      (record { read_word = omega arith; write_word = omega arith; fits = omega arith }) (λ j. refl)
      (inr refl)

piperead-pipewrite_example :
    Returns
      (λ s. (s.0 ≡ 2) × (segment s.1.bytes 0 2 ≡ segment word 0 2))
      (pipewrite (λ j. some (word j)) [] 2 false fresh >>= λ r. piperead [] 2 false buffer r.1)
piperead-pipewrite_example =
    piperead-pipewrite word [] [] 2 buffer fresh fresh-IsValid refl refl (omega arith) (omega arith)
      (λ j. refl)

pipeclose_lem_example : (pipeclose true fresh).0.woken ≡ on_nread ∷ []
pipeclose_lem_example = (pipeclose_lem true fresh).1

pipeclose_twice_example :
    ((pipeclose true fresh).1 ≡ false) × ((pipeclose false (pipeclose true fresh).0).1 ≡ true)
pipeclose_twice_example = pipeclose_twice true fresh refl refl
