-- ===== src/Log/Header.antt =====
-- What whead puts into the header block.
use os_cpp.Base.{
  ltb, leb, if◌then◌else◌, update, update_self, update_ne, ℕ, zero, suc, ◌+◌, ◌-◌, ◌<◌, ◌≡◌, sym,
  ap, ◌∙◌, ◌≢◌, ◌&&◌, arith,
}
use os_cpp.Log.{Block, Disk, Machine, Log, store, bwrite, write_blocks, whead}
use os_cpp.Log.Install.{All}

write_blocks_lem :
    (block : ℕ → ℕ) (i left : ℕ) (h : Block) (w : ℕ)
    → write_blocks block i left h w ≡ (if ltb i w && leb w (i + left) then block (w - 1) else h w)
unfolding write_blocks
write_blocks_lem block i zero h w = ground arith
write_blocks_lem block i (suc left) h w =
    ground (arith, write_blocks_lem block (i + 1) left (update h (i + 1) (block i)) w)

-- After whead the header on the disk counts the log's blocks.
pub whead_count : (l : Log) (m : Machine) → (whead l m).disk l.start 0 ≡ l.n
unfolding whead bwrite store
whead_count l m =
    ap (λ (h : Block). h 0) (update_self m.disk l.start _ ∙ update_self m.cache l.start _)
    ∙ write_blocks_lem l.block 0 l.n (update (m.cache l.start) 0 l.n) 0
    ∙ ground arith

-- It names them too.
pub whead_block :
    (l : Log) (m : Machine) (i : ℕ) → i < l.n → (whead l m).disk l.start (i + 1) ≡ l.block i
unfolding whead bwrite store
whead_block l m i lt =
    ap (λ (h : Block). h (i + 1)) (update_self m.disk l.start _ ∙ update_self m.cache l.start _)
    ∙ write_blocks_lem l.block 0 l.n (update (m.cache l.start) 0 l.n) (i + 1)
    ∙ ground (arith, ap l.block (let e : i + 1 - 1 ≡ i = omega arith in e))

pub whead-disk : (l : Log) (m : Machine) (b : ℕ) → b ≢ l.start → (whead l m).disk b ≡ m.disk b
unfolding whead bwrite store
whead-disk l m b h = update_ne m.disk l.start b _ (λ e. h (sym e))

pub whead-cache : (l : Log) (m : Machine) (b : ℕ) → b ≢ l.start → (whead l m).cache b ≡ m.cache b
unfolding whead bwrite store
whead-cache l m b h = update_ne m.cache l.start b _ (λ e. h (sym e))

pub whead-crashes :
    (P : Disk → Type 0) (l : Log) (m : Machine)
    → P (whead l m).disk
    → All P m.crashes
    → All P (whead l m).crashes
unfolding whead bwrite store
whead-crashes P l m new old = (new, old)
