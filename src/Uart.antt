-- ===== src/Uart.antt =====
-- kernel/uart.cpp: the ring of characters that wait for the serial port.
-- The answers of the port's status register, whether it can take a character, are a list; past its
-- end the port is busy. What happens while `putc` sleeps is a turn. `kputc`, `getc` and the set-up
-- only use registers and are left out.
pub mod Order
mod Tests
use os_cpp.Base.{
  ◌==◌, if◌then◌else◌, update, ok, blocked, Outcome, ℕ, ◌+◌, ◌-◌, ◌%◌, ◌^◌, Bool, true, false, List,
  [], ◌∷◌, ◌++◌,
}

-- UART_TX_BUF_SIZE
abbrev pub tx_size : ℕ
tx_size = 32

-- `uart_tx_buf`, `uart_tx_w` and `uart_tx_r`; `sent` has what was written to THR, the oldest first,
-- and `wakeups` counts the calls of `proc::wakeup`.
pub record Uart : Type 0 where
  pub buf : ℕ → ℕ
  pub w : ℕ
  pub r : ℕ
  pub sent : List ℕ
  pub wakeups : ℕ

-- `uint64_t` addition and subtraction.
abbrev pub add64 : ℕ → ℕ → ℕ
add64 a b = (a + b) % 2 ^ 64

abbrev pub sub64 : ℕ → ℕ → ℕ
sub64 a b = (a + 2 ^ 64 - b) % 2 ^ 64

-- One round of `start` past its tests.
abbrev pub send : Uart → Uart
send u = record u {
  r = add64 u.r 1;
  sent = u.sent ++ (u.buf (u.r % tx_size) ∷ []);
  wakeups = u.wakeups + 1;
}

pub start : List Bool → Uart → Uart
start [] u = u
start (idle ∷ answers) u =
    let rest = start answers (send u) in if u.w == u.r then u else if idle then rest else u

-- `putc` past its wait.
abbrev pub push : ℕ → Uart → Uart
push c u = record u { buf = update u.buf (u.w % tx_size) c; w = add64 u.w 1 }

pub putc : List (Uart → Uart) → List Bool → ℕ → Uart → Outcome Uart
putc [] answers c u = elim (u.w == add64 u.r tx_size) [
  | true ↦ blocked
  | false ↦ ok (start answers (push c u))
]
putc (act ∷ turns) answers c u = elim (u.w == add64 u.r tx_size) [
  | true ↦ putc turns answers c (act u)
  | false ↦ ok (start answers (push c u))
]
