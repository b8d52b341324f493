-- ===== src/Pipe.antt =====
-- kernel/pipe.cpp and pipe.h: pipewrite, piperead and pipeclose over one `struct pipe`.
-- The pipe's lock is held through each routine but in `proc::sleep`: what other processes do to
-- the pipe while this one sleeps is a `Turn`, and a call takes the list of its turns. User memory
-- is what `vm::copyin` and `vm::copyout` of one byte see of it.
pub mod Queue
pub mod Write
pub mod Read
pub mod Close
mod Tests
use os_cpp.Base.{
  ◌==◌, if◌then◌else◌, update, ok, blocked, Outcome, ℕ, zero, suc, ◌+◌, ◌%◌, ◌^◌, Bool, true, false,
  not, ◌&&◌, ◌||◌, Option, none, some, List, [], ◌∷◌,
}

abbrev pub pipe_size : ℕ
pipe_size = 512

-- The channels that `proc::wakeup` is called on: `&pi->nread` and `&pi->nwrite`.
pub data Chan : Type 0 where
  on_nread on_nwrite : Chan

-- `struct pipe`; `woken` records the calls of `proc::wakeup`, the latest first.
pub record Pipe : Type 0 where
  pub buf : ℕ → ℕ
  pub nread : ℕ
  pub nwrite : ℕ
  pub readopen : Bool
  pub writeopen : Bool
  pub woken : List Chan

-- What happens while the caller sleeps: the pipe that it finds, and whether it was killed.
pub record Turn : Type 0 where
  pub act : Pipe → Pipe
  pub killed : Bool

abbrev pub wakeup : Chan → Pipe → Pipe
wakeup c p = record p { woken = c ∷ p.woken }

-- `-1`, returned as a `uint32_t`.
abbrev pub failed : ℕ
failed = 0xffffffff

-- `uint32_t` addition.
abbrev pub add32 : ℕ → ℕ → ℕ
add32 a b = (a + b) % 2 ^ 32

abbrev pub is_full : Pipe → Bool
is_full p = p.nwrite == add32 p.nread pipe_size

abbrev pub is_empty : Pipe → Bool
is_empty p = p.nread == p.nwrite

-- `pi->data[pi->nwrite++ % PIPESIZE] = ch`
pub put : Pipe → ℕ → Pipe
put p ch = record p { buf = update p.buf (p.nwrite % pipe_size) ch; nwrite = add32 p.nwrite 1 }

-- `pi->nread++`
pub drop_one : Pipe → Pipe
drop_one p = record p { nread = add32 p.nread 1 }

-- The loop of `pipewrite` with `left` bytes to go: `user` is the caller's memory from `addr` on.
pub write_loop : (ℕ → Option ℕ) → List Turn → ℕ → ℕ → Bool → Pipe → Outcome (ℕ × Pipe)
write_loop user turns zero i killed p = ok (i, wakeup on_nread p)
write_loop user [] (suc left) i killed p = elim (not p.readopen || killed) [
  | true ↦ ok (failed, p)
  | false ↦ elim (is_full p) [
    | true ↦ blocked
    | false ↦ elim (user i) [
      | none ↦ ok (i, wakeup on_nread p)
      | some ch ↦ write_loop user [] left (i + 1) killed (put p ch)
    ]
  ]
]
write_loop user (t ∷ turns) (suc left) i killed p = elim (not p.readopen || killed) [
  | true ↦ ok (failed, p)
  | false ↦ elim (is_full p) [
    | true ↦ write_loop user turns (suc left) i t.killed (t.act (wakeup on_nread p))
    | false ↦ elim (user i) [
      | none ↦ ok (i, wakeup on_nread p)
      | some ch ↦ write_loop user (t ∷ turns) left (i + 1) killed (put p ch)
    ]
  ]
]

-- A negative `n` acts as 0. `user i` is the byte at `addr + i`, if it can be copied in.
pub pipewrite : (ℕ → Option ℕ) → List Turn → ℕ → Bool → Pipe → Outcome (ℕ × Pipe)
pipewrite user turns n killed p = write_loop user turns n 0 killed p

-- The caller's buffer: which bytes can be copied out to, and what was.
pub record Dest : Type 0 where
  pub allowed : ℕ → Bool
  pub bytes : ℕ → ℕ

-- `vm::copyout` of one byte to `addr + i`
pub copyout : Dest → ℕ → ℕ → Option Dest
copyout d i ch = if d.allowed i then some (record d { bytes = update d.bytes i ch }) else none

-- The copying loop of `piperead`. A byte that cannot be copied out has left the pipe.
pub copy_loop : ℕ → ℕ → Dest → Pipe → ℕ × Dest × Pipe
copy_loop zero i d p = (i, d, p)
copy_loop (suc left) i d p = elim (is_empty p) [
  | true ↦ (i, d, p)
  | false ↦ elim (copyout d i (p.buf (p.nread % pipe_size))) [
    | none ↦ (i, d, drop_one p)
    | some d' ↦ copy_loop left (i + 1) d' (drop_one p)
  ]
]

-- After the wait: copy, wake the writers, return the count.
abbrev pub read_available : ℕ → Dest → Pipe → Outcome (ℕ × Dest × Pipe)
read_available n d p = let (i, d', p') = copy_loop n 0 d p in ok (i, d', wakeup on_nwrite p')

pub piperead : List Turn → ℕ → Bool → Dest → Pipe → Outcome (ℕ × Dest × Pipe)
piperead [] n killed d p = elim (is_empty p && p.writeopen) [
  | false ↦ read_available n d p
  | true ↦ if killed then ok (failed, d, p) else blocked
]
piperead (t ∷ turns) n killed d p = elim (is_empty p && p.writeopen) [
  | false ↦ read_available n d p
  | true ↦ elim killed [ true ↦ ok (failed, d, p) | false ↦ piperead turns n t.killed d (t.act p) ]
]

abbrev close_end : Bool → Pipe → Pipe
close_end true p = wakeup on_nread (record p { writeopen = false })
close_end false p = wakeup on_nwrite (record p { readopen = false })

-- The pipe after one end closes, and whether `vm::kfree` was called on it.
pub pipeclose : Bool → Pipe → Pipe × Bool
pipeclose writable p = let q = close_end writable p in (q, not q.readopen && not q.writeopen)
