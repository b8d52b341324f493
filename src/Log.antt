-- ===== src/Log.antt =====
-- kernel/log.cpp: the write-ahead log of the file system.
-- A block is an array of 32-bit words. `Machine` is what the buffer cache and the disk show of the
-- log's device: `bio::bread` yields the cached contents, `bio::bwrite` copies them to the disk, and
-- a pinned or dirty buffer is not evicted. `crashes` collects the disk after each write, which is
-- what a crash at that moment leaves. A header on the disk that counts more than LOGSIZE blocks, which
-- the code would read past its array, is outside the model.
pub mod Replay
pub mod Install
pub mod Header
pub mod Recover
pub mod Commit
pub mod Atomic
pub mod Ops
pub mod Reserve
mod Tests
use os_cpp.Base.{
  ltb, leb, ◌==◌, if◌then◌else◌, update, ok, panic, blocked, Outcome, ℕ, zero, suc, ◌+◌, ◌-◌, ◌*◌,
  ◌%◌, ◌^◌, Bool, true, false, ◌||◌, List, [], ◌∷◌,
}

abbrev pub log_size : ℕ
log_size = 30

abbrev pub max_op_blocks : ℕ
max_op_blocks = 10

abbrev pub Block : Type 0
Block = ℕ → ℕ

abbrev pub Disk : Type 0
Disk = ℕ → Block

pub record Machine : Type 0 where
  pub cache : Disk
  pub disk : Disk
  pub crashes : List Disk

-- `struct log` with its `struct logheader` opened: `n` and `block`.
pub record Log : Type 0 where
  pub start : ℕ
  pub size : ℕ
  pub outstanding : ℕ
  pub committing : Bool
  pub n : ℕ
  pub block : ℕ → ℕ

-- A write to the data of a locked buffer.
pub store : ℕ → Block → Machine → Machine
store b v m = record m { cache = update m.cache b v }

pub bwrite : ℕ → Machine → Machine
bwrite b m = let d = update m.disk b (m.cache b) in record m { disk = d; crashes = d ∷ m.crashes }

-- After a crash the cache is empty, so it shows the disk.
pub reboot : Disk → Machine
reboot d = record { cache = d; disk = d; crashes = [] }

-- `log.lh.block[i] = lh->block[i]`, for `left` indices from `i` on.
pub read_blocks : Block → ℕ → ℕ → (ℕ → ℕ) → ℕ → ℕ
read_blocks h i zero block = block
read_blocks h i (suc left) block = read_blocks h (i + 1) left (update block i (h (i + 1)))

pub rhead : Log → Machine → Log
rhead l m = let h = m.cache l.start in record l { n = h 0; block = read_blocks h 0 (h 0) l.block }

-- `hb->block[i] = log.lh.block[i]`, for `left` indices from `i` on.
pub write_blocks : (ℕ → ℕ) → ℕ → ℕ → Block → Block
write_blocks block i zero h = h
write_blocks block i (suc left) h = write_blocks block (i + 1) left (update h (i + 1) (block i))

pub whead : Log → Machine → Machine
whead l m =
    bwrite l.start (store l.start (write_blocks l.block 0 l.n (update (m.cache l.start) 0 l.n)) m)

-- The loop of `install_trans`, for `left` blocks from `i` on.
pub install_loop : Bool → ℕ → (ℕ → ℕ) → ℕ → ℕ → Machine → Machine
install_loop recovering start block i zero m = m
install_loop recovering start block i (suc left) m =
    let w = bwrite (block i) (store (block i) (m.cache (start + i + 1)) m) in
    install_loop recovering start block (i + 1) left (if recovering then bwrite (block i) w else w)

pub install_trans : Bool → Log → Machine → Machine
install_trans recovering l m = install_loop recovering l.start l.block 0 l.n m

pub recover : Log → Machine → Log × Machine
recover l m =
    let l' = rhead l m in
    let cleared = record l' { n = 0 } in (cleared, whead cleared (install_trans true l' m))

abbrev pub init : Log → ℕ → ℕ → Machine → Log × Machine
init l logstart nlog m = recover (record l { start = logstart; size = nlog }) m

-- The loop of `write_log`, for `left` blocks from `tail` on.
pub write_loop : ℕ → (ℕ → ℕ) → ℕ → ℕ → Machine → Machine
write_loop start block tail zero m = m
write_loop start block tail (suc left) m =
    write_loop start block (tail + 1) left
      (bwrite (start + tail + 1) (store (start + tail + 1) (m.cache (block tail)) m))

pub write_log : Log → Machine → Machine
write_log l m = write_loop l.start l.block 0 l.n m

pub commit : Log → Machine → Log × Machine
commit l m =
    if ltb 0 l.n
    then (let cleared = record l { n = 0 } in
        (cleared, whead cleared (install_trans false l (whead l (write_log l m)))))
    else (l, m)

-- `begin_op`, in numbers of 32 bits; a turn is what the others do to the log while this process sleeps.
pub begin_op : List (Log → Log) → Log → Outcome Log
begin_op [] l =
    if l.committing || ltb log_size ((l.n + (l.outstanding + 1) * max_op_blocks) % 2 ^ 32)
    then blocked
    else ok (record l { outstanding = (l.outstanding + 1) % 2 ^ 32 })
begin_op (t ∷ turns) l =
    let again = begin_op turns (t l) in
    if l.committing || ltb log_size ((l.n + (l.outstanding + 1) * max_op_blocks) % 2 ^ 32)
    then again
    else ok (record l { outstanding = (l.outstanding + 1) % 2 ^ 32 })

-- `end_op`, with the number of its calls of `proc::wakeup`. `outstanding` is a `uint32_t`.
pub end_op : Log → Machine → Outcome (Log × Machine × ℕ)
end_op l m =
    let left = (l.outstanding + 2 ^ 32 - 1) % 2 ^ 32 in
    if l.committing
    then panic "log::end_op: log committing"
    else if left == 0
    then (let (l', m') = commit (record l { outstanding = left; committing = true }) m in
        ok (record l' { committing = false }, m', 1))
    else ok (record l { outstanding = left }, m, 1)

-- The first index below `i + left` and from `i` on that holds the block, or `i + left`.
pub absorb : ℕ → (ℕ → ℕ) → ℕ → ℕ → ℕ
absorb b block i zero = i
absorb b block i (suc left) =
    let rest = absorb b block (i + 1) left in if block i == b then i else rest

-- `lwrite` of the block `b`, with whether it called `bio::bpin`.
pub lwrite : ℕ → Log → Outcome (Log × Bool)
lwrite b l =
    if leb log_size l.n || leb l.size (l.n + 1)
    then panic "too big a transaction"
    else if ltb l.outstanding 1
    then panic "log_write outside of trans"
    else (let i = absorb b l.block 0 l.n in
        let block' = update l.block i b in
        if i == l.n
        then ok (record l { block = block'; n = l.n + 1 }, true)
        else ok (record l { block = block' }, false))
