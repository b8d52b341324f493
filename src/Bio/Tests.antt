-- ===== src/Bio/Tests.antt =====
-- Runs of the buffer cache, and its theorems at concrete caches.
use os_cpp.Base.{
  panic, blocked, ◌>>=◌, Ensures, Returns, ℕ, ◌+◌, ◌≤◌, ◌≡◌, refl, true, some, [], ◌∷◌, map, arith,
}
use os_cpp.Bio.{
  Block, Buf, Cache, fresh_buf, init_loop, find_buf, lock_buf, bget, fill, bread, remove_at, brelse,
  bwrite,
}
use os_cpp.Bio.Order.{bget_recycles_released, copies, bget-copies}
use os_cpp.Bio.Contents.{shown, IsRead, bread-IsRead, bwrite_lem}

abbrev disk : ℕ → ℕ → Block
disk dev blockno w = blockno + w

-- Buffer 5 holds block 7, once, by process 1; buffers 3 and 4 are free.
abbrev busy : Buf
busy = record {
  id = 5;
  valid = true;
  dev = 1;
  blockno = 7;
  refcnt = 1;
  owner = some 1;
  content = λ w. 0;
}

abbrev cache : Cache
cache = record { bufs = fresh_buf 3 ∷ busy ∷ fresh_buf 4 ∷ []; disk = disk }

init_order : map (λ (b : Buf). b.id) (init_loop 0 3 []) ≡ 2 ∷ 1 ∷ 0 ∷ []
unfolding init_loop
init_order = refl

read_fills : Returns (λ r. (r.0.id ≡ 3) × (r.0.content 4 ≡ 13)) (bread 2 1 9 cache)
unfolding bread bget find_buf lock_buf fill
read_fills = (refl, refl)

contended_blocks : bget 2 1 7 cache ≡ blocked
unfolding bget find_buf lock_buf
contended_blocks = refl

-- Buffer 5, released last, is recycled before buffers 3 and 4, which were never used.
bget_recycles_released_run :
    Returns
      (λ (r : ℕ × Buf × Cache).
        (r.1.id ≡ 5) × (r.1.dev ≡ 1) × (r.1.blockno ≡ 8) × (r.1.owner ≡ some 2))
      (brelse 1 5 cache >>= bget 2 1 8)
unfolding find_buf remove_at
bget_recycles_released_run = bget_recycles_released 1 2 5 1 1 8 busy cache refl refl refl refl

bget-copies_example : Ensures (λ (r : ℕ × Buf × Cache). copies 1 7 r.2.bufs ≤ 1) (bget 2 1 8 cache)
bget-copies_example = bget-copies 2 1 8 1 7 cache (omega arith)

bread-IsRead_example :
    Ensures (λ (r : Buf × Cache). IsRead 2 1 9 (shown cache 1 9) r.0) (bread 2 1 9 cache)
bread-IsRead_example = bread-IsRead 2 1 9 cache

bwrite_lem_example : bwrite 2 busy cache ≡ panic "bio::bwrite: no lock"
bwrite_lem_example = (bwrite_lem 2 busy cache).1 (λ e. ground arith)
