-- ===== src/Cstring.antt =====
-- kernel/micro_libcxx/src/cstring.cpp: the byte and string routines that the kernel uses.
-- A memory is a function from addresses to bytes; addresses do not wrap.
pub mod Move
pub mod Strings
mod Tests
use os_cpp.Base.{
  ltb, ◌==◌, if◌then◌else◌, update, ok, fault, Outcome, ℕ, zero, suc, ◌+◌, ◌%◌, not, ◌&&◌, ◌||◌,
}

abbrev pub Memory : Type 0
Memory = ℕ → ℕ

-- The loop of `memset`, for `left` bytes from index `i` on. `ch` is cut to a byte.
pub memset_loop : ℕ → ℕ → ℕ → ℕ → Memory → Memory
memset_loop dest ch i zero m = m
memset_loop dest ch i (suc left) m =
    memset_loop dest ch (i + 1) left (update m (dest + i) (ch % 256))

pub memset : ℕ → ℕ → ℕ → Memory → Memory
memset dest ch count m = memset_loop dest ch 0 count m

-- `for (i = 0; i < count; ++i) d[i] = s[i]`, from index `i` on.
pub copy_up : ℕ → ℕ → ℕ → ℕ → Memory → Memory
copy_up d s i zero m = m
copy_up d s i (suc left) m = copy_up d s (i + 1) left (update m (d + i) (m (s + i)))

-- `for (i = count; i > 0; --i) d[i - 1] = s[i - 1]`
pub copy_down : ℕ → ℕ → ℕ → Memory → Memory
copy_down d s zero m = m
copy_down d s (suc i) m = copy_down d s i (update m (d + i) (m (s + i)))

pub memmove : ℕ → ℕ → ℕ → Memory → Memory
memmove d s count m =
    if d == s || count == 0
    then m
    else if ltb d s
    then copy_up d s 0 count m
    else copy_down d s count m

pub memcpy : ℕ → ℕ → ℕ → Memory → Memory
memcpy d s count m = copy_up d s 0 count m

-- The first loop of `strncpy`: where it stops, and the `uint32_t` count with which it does. The test
-- `count-- > 0` takes the count from 0 to 2^32 - 1.
unfoldable pub copy_string : ℕ → ℕ → ℕ → Memory → ℕ × ℕ × Memory
copy_string d s zero m = (0xffffffff, d, m)
copy_string d s (suc count) m =
    let rest = copy_string (d + 1) (s + 1) count (update m d (m s)) in
    if m s == 0 then (count, d + 1, update m d (m s)) else rest

-- The second loop of `strncpy`.
unfoldable pub pad : ℕ → ℕ → Memory → Memory
pad d zero m = m
pad d (suc count) m = pad (d + 1) count (update m d 0)

pub strncpy : ℕ → ℕ → ℕ → Memory → Memory
strncpy d s count m = let (left, d', m') = copy_string d s count m in pad d' left m'

-- `strncmp`: the difference of two bytes, as the pair of them; 0 is the pair of zeros.
unfoldable pub strncmp : ℕ → ℕ → ℕ → Memory → ℕ × ℕ
strncmp a b zero m = (0, 0)
strncmp a b (suc count) m =
    let rest = strncmp (a + 1) (b + 1) count m in
    if not (m a == 0) && m a == m b then rest else (m a, m b)

-- The loop of `strlen`, on fuel: `fault` if no terminator is met.
unfoldable pub scan : ℕ → ℕ → ℕ → Memory → Outcome ℕ
scan zero s n m = fault
scan (suc fuel) s n m = let rest = scan fuel (s + 1) (n + 1) m in if m s == 0 then ok n else rest

-- `strlen`; the null pointer is the address 0.
unfoldable pub strlen : ℕ → ℕ → Memory → Outcome ℕ
strlen fuel s m = if s == 0 then ok 0 else scan fuel s 0 m
