-- ===== src/Pipe/Close.antt =====
-- When pipeclose frees the pipe.
use os_cpp.Base.{if◌then◌else◌, ◌≡◌, ◌↔◌, Bool, true, false, not, ◌∷◌, arith}
use os_cpp.Pipe.{on_nread, on_nwrite, Pipe, pipeclose}

-- pipeclose frees the pipe exactly when the other end is closed already, wakes the sleepers of the
-- other end, and leaves the bytes alone.
pub pipeclose_lem :
    (writable : Bool) (p : Pipe)
    → let (q, freed) = pipeclose writable p in
      ((freed ≡ true) ↔ ((if writable then p.readopen else p.writeopen) ≡ false))
      × (q.woken ≡ (if writable then on_nread else on_nwrite) ∷ p.woken)
      × (q.nread ≡ p.nread)
      × (q.nwrite ≡ p.nwrite)
unfolding pipeclose
pipeclose_lem true p = ground arith
pipeclose_lem false p = ground arith

-- Of a pipe with both ends open, the two calls of pipeclose free it once, at the second, whichever
-- end goes first.
pub pipeclose_twice :
    (first : Bool) (p : Pipe)
    → p.readopen ≡ true
    → p.writeopen ≡ true
    → ((pipeclose first p).1 ≡ false) × ((pipeclose (not first) (pipeclose first p).0).1 ≡ true)
unfolding pipeclose
pipeclose_twice true p r w = ground arith
pipeclose_twice false p r w = ground arith
