-- ===== src/Console.antt =====
-- kernel/console.cpp: the ring of typed characters between `intr`, which edits its last line, and
-- `read`, which takes whole lines.
-- Each routine is run with `cons.lock` held but where `read` sleeps: what happens then is a turn.
-- `uart::kputc` is the list of echoed characters. The indices are `uint32_t`.
pub mod Editing
pub mod Reading
mod Tests
use os_cpp.Base.{
  ltb, ◌==◌, if◌then◌else◌, update, ok, blocked, Outcome, ℕ, zero, suc, ◌+◌, ◌-◌, ◌%◌, ◌^◌, Bool,
  true, false, not, ◌&&◌, ◌||◌, Option, none, some, List, [], ◌∷◌,
}

-- INPUT_BUF_SIZE
abbrev pub input_buf_size : ℕ
input_buf_size = 128

abbrev pub newline : ℕ
newline = 10

-- C('D'), C('U'), C('H') and the delete key
abbrev pub end_of_file : ℕ
end_of_file = 4

abbrev pub kill_key : ℕ
kill_key = 21

abbrev pub backspace_key : ℕ
backspace_key = 8

abbrev pub delete_key : ℕ
delete_key = 127

-- `cons`; `echoed` has what was put on the screen, the latest first, and `wakeups` counts the calls
-- of `proc::wakeup`.
pub record Cons : Type 0 where
  pub buf : ℕ → ℕ
  pub r : ℕ
  pub w : ℕ
  pub e : ℕ
  pub echoed : List ℕ
  pub wakeups : ℕ

-- `uint32_t` addition and subtraction.
abbrev pub add32 : ℕ → ℕ → ℕ
add32 a b = (a + b) % 2 ^ 32

abbrev pub sub32 : ℕ → ℕ → ℕ
sub32 a b = (a + 2 ^ 32 - b) % 2 ^ 32

-- `putc(BACKSPACE)`: back, space, back.
abbrev pub rub_out : List ℕ → List ℕ
rub_out shown = 8 ∷ 32 ∷ 8 ∷ shown

-- `cons.e--; putc(BACKSPACE);`
abbrev pub erase : Cons → Cons
erase c = record c { e = sub32 c.e 1; echoed = rub_out c.echoed }

-- The loop that kills the line, for at most `fuel` characters.
pub kill_line : ℕ → Cons → Cons
kill_line zero c = c
kill_line (suc fuel) c =
    let rest = kill_line fuel (erase c) in
    if not (c.e == c.w) && not (c.buf (sub32 c.e 1 % input_buf_size) == newline) then rest else c

abbrev pub translate : ℕ → ℕ
translate ch = if ch == 13 then newline else ch

-- The default case of `intr` past its test.
pub store_char : ℕ → Cons → Cons
store_char ch c =
    let c' = record c {
      buf = update c.buf (c.e % input_buf_size) ch;
      e = add32 c.e 1;
      echoed = ch ∷ c.echoed;
    } in
    if ch == newline || (ch == end_of_file || sub32 c'.e c'.r == input_buf_size)
    then record c' { w = c'.e; wakeups = c'.wakeups + 1 }
    else c'

-- `intr`; the line has at most `e - w` characters, which bounds the killing.
pub intr : ℕ → Cons → Cons
intr ch c =
    if ch == kill_key
    then kill_line (sub32 c.e c.w) c
    else if ch == backspace_key || ch == delete_key
    then (if c.e == c.w then c else erase c)
    else if not (ch == 0) && ltb (sub32 c.e c.r) input_buf_size
    then store_char (translate ch) c
    else c

-- What happens while `read` sleeps: the state that it finds, and whether it was killed.
pub record Turn : Type 0 where
  pub act : Cons → Cons
  pub killed : Bool

-- What one round of `read` comes to: the result, or a character more.
pub data Round : Type 0 where
  done : List ℕ → Cons → Round
  more : List ℕ → Cons → Round

-- The loop's body past the wait. `first` tells whether this is the first character, `allowed`
-- whether `either_copyout` does not give -1; `taken` has the bytes so far, the latest first.
pub take_char : Bool → Bool → List ℕ → Cons → Round
take_char first allowed taken c =
    let ch = c.buf (c.r % input_buf_size) in
    let c' = record c { r = add32 c.r 1 } in
    if ch == end_of_file
    then done taken (if first then c' else c)
    else if allowed
    then (if ch == newline then done (ch ∷ taken) c' else more (ch ∷ taken) c')
    else done taken c'

-- `read` with `left` bytes to go of `target`; -1 is `none`.
pub read_loop :
    (ℕ → Bool) → List Turn → ℕ → ℕ → Bool → List ℕ → Cons → Outcome (Option (List ℕ) × Cons)
read_loop allowed turns target zero killed taken c = ok (some taken, c)
read_loop allowed [] target (suc left) killed taken c = elim (c.r == c.w) [
  | true ↦ if killed then ok (none, c) else blocked
  | false ↦ elim (take_char (not (ltb (suc left) target)) (allowed (target - suc left)) taken c) [
    | done taken' c' ↦ ok (some taken', c')
    | more taken' c' ↦ read_loop allowed [] target left killed taken' c'
  ]
]
read_loop allowed (t ∷ turns) target (suc left) killed taken c = elim (c.r == c.w) [
  | true ↦ elim killed [
    | true ↦ ok (none, c)
    | false ↦ read_loop allowed turns target (suc left) t.killed taken (t.act c)
  ]
  | false ↦ elim (take_char (not (ltb (suc left) target)) (allowed (target - suc left)) taken c) [
    | done taken' c' ↦ ok (some taken', c')
    | more taken' c' ↦ read_loop allowed (t ∷ turns) target left killed taken' c'
  ]
]

pub read : (ℕ → Bool) → List Turn → ℕ → Bool → Cons → Outcome (Option (List ℕ) × Cons)
read allowed turns n killed c = read_loop allowed turns n n killed [] c
