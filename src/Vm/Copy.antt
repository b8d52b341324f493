-- ===== src/Vm/Copy.antt =====
-- kernel/vm.cpp: `walkaddr`, `copyin`, `copyout` and `copyinstr`.
-- What the kernel copies to or from is an array. `dstva - va0` and `PGSIZE - …` wrap around as they
-- do in 64 bits. Each round of the loops copies a byte at least, so `len` rounds are enough.
pub mod Bytes
mod Tests
use os_cpp.Base.{
  ltb, leb, ◌==◌, if◌then◌else◌, update, ok, blocked, Outcome, ℕ, zero, suc, ◌+◌, ◌-◌, ◌%◌, ◌^◌,
  Bool, true, false, ◌&&◌, Option, none, some,
}
use os_cpp.Arch.{pgsize, pg_round_down, pte2pa, va_max}
use os_cpp.Vm.{Mem, has_v, has_w, has_u, walk_from}
use os_cpp.Vm.User.{put_bytes}

abbrev pub sub64 : ℕ → ℕ → ℕ
sub64 a b = (a + 2 ^ 64 - b) % 2 ^ 64

unfoldable pub walkaddr : ℕ → ℕ → Mem → ℕ
walkaddr pt va s = if ltb va_max va then 0 else elim (walk_from 2 pt va false s).0 [
  | none ↦ 0
  | some a ↦ if has_v (s.word a) && has_u (s.word a) then pte2pa (s.word a) else 0
]

-- How many bytes of the page are copied.
unfoldable pub chunk : ℕ → ℕ → ℕ → ℕ
chunk va va0 len =
    if ltb len (sub64 pgsize (sub64 va va0)) then len else sub64 pgsize (sub64 va va0)

-- `memmove` of `n` bytes from a physical address to the array, from `k` on.
abbrev pub take_bytes : ℕ → ℕ → ℕ → Mem → (ℕ → ℕ) → ℕ → ℕ
take_bytes k pa n s dst j = if leb k j && ltb j (k + n) then s.byte (pa + (j - k)) else dst j

-- The loop of `copyin`, with `k` bytes copied.
unfoldable pub copyin_loop : ℕ → ℕ → ℕ → ℕ → ℕ → (ℕ → ℕ) → Mem → Outcome (Bool × (ℕ → ℕ))
copyin_loop zero pt srcva len k dst s = if len == 0 then ok (true, dst) else blocked
copyin_loop (suc fuel) pt srcva len k dst s =
    let va0 = pg_round_down srcva in
    let pa0 = walkaddr pt va0 s in
    let n = chunk srcva va0 len in
    let rest =
      copyin_loop fuel pt ((va0 + pgsize) % 2 ^ 64) (len - n) (k + n)
        (take_bytes k (pa0 + sub64 srcva va0) n s dst) s in
    if len == 0 then ok (true, dst) else if pa0 == 0 then ok (false, dst) else rest

unfoldable pub copyin : ℕ → (ℕ → ℕ) → ℕ → ℕ → Mem → Outcome (Bool × (ℕ → ℕ))
copyin pt dst srcva len s = copyin_loop len pt srcva len 0 dst s

-- The physical page that `copyout` writes to, if it may.
unfoldable pub writable : ℕ → ℕ → Mem → Option ℕ
writable pt va0 s = if ltb va_max va0 then none else elim (walk_from 2 pt va0 false s).0 [
  | none ↦ none
  | some a ↦
      if has_v (s.word a) && (has_u (s.word a) && has_w (s.word a))
      then some (pte2pa (s.word a))
      else none
]

unfoldable pub copyout_loop : ℕ → ℕ → ℕ → ℕ → ℕ → (ℕ → ℕ) → Mem → Outcome (Bool × Mem)
copyout_loop zero pt dstva len k src s = if len == 0 then ok (true, s) else blocked
copyout_loop (suc fuel) pt dstva len k src s = elim (len == 0) [
  | true ↦ ok (true, s)
  | false ↦
      let va0 = pg_round_down dstva in
      let n = chunk dstva va0 len in
      elim (writable pt va0 s) [
        | none ↦ ok (false, s)
        | some pa0 ↦
            copyout_loop fuel pt ((va0 + pgsize) % 2 ^ 64) (len - n) (k + n) src
              (put_bytes (pa0 + sub64 dstva va0) n (λ j. src (k + j)) s)
      ]
]

unfoldable pub copyout : ℕ → ℕ → (ℕ → ℕ) → ℕ → Mem → Outcome (Bool × Mem)
copyout pt dstva src len s = copyout_loop len pt dstva len 0 src s

-- The inner loop of `copyinstr`: up to `n` bytes of the page, with whether the NUL was met.
unfoldable pub copy_chars : ℕ → ℕ → ℕ → (ℕ → ℕ) → Mem → Bool × (ℕ → ℕ)
copy_chars zero p k dst s = (false, dst)
copy_chars (suc n) p k dst s =
    let rest = copy_chars n (p + 1) (k + 1) (update dst k (s.byte p)) s in
    if s.byte p == 0 then (true, update dst k 0) else rest

unfoldable pub copyinstr_loop : ℕ → ℕ → ℕ → ℕ → ℕ → (ℕ → ℕ) → Mem → Outcome (Bool × (ℕ → ℕ))
copyinstr_loop zero pt srcva len k dst s = if len == 0 then ok (false, dst) else blocked
copyinstr_loop (suc fuel) pt srcva len k dst s = elim (len == 0) [
  | true ↦ ok (false, dst)
  | false ↦
      let va0 = pg_round_down srcva in
      let pa0 = walkaddr pt va0 s in
      let n = chunk srcva va0 len in
      elim (pa0 == 0) [
        | true ↦ ok (false, dst)
        | false ↦
            let (done, dst') = copy_chars n (pa0 + sub64 srcva va0) k dst s in
            elim done [
              | true ↦ ok (true, dst')
              | false ↦ copyinstr_loop fuel pt ((va0 + pgsize) % 2 ^ 64) (len - n) (k + n) dst' s
            ]
      ]
]

unfoldable pub copyinstr : ℕ → (ℕ → ℕ) → ℕ → ℕ → Mem → Outcome (Bool × (ℕ → ℕ))
copyinstr pt dst srcva len s = copyinstr_loop len pt srcva len 0 dst s
