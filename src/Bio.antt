-- ===== src/Bio.antt =====
-- kernel/bio.cpp and bio.h: the buffer cache.
-- The buffers are a list in the order from `head.next` on; a buffer's `id` is its index in the array
-- and stands for its address. `me` is the pid of the caller. A sleep lock held by another process
-- blocks the caller.
pub mod Order
pub mod Contents
mod Tests
use os_cpp.Base.{
  ◌==◌, if◌then◌else◌, set, ok, panic, blocked, fault, Outcome, ◌>>=◌, ℕ, zero, suc, ◌+◌, ◌-◌, ◌%◌,
  ◌^◌, Bool, true, false, not, ◌&&◌, Option, none, some, List, [], ◌∷◌,
}

abbrev pub Block : Type 0
Block = ℕ → ℕ

-- `class buf`: `owner` is the pid that holds the buffer's sleep lock.
pub record Buf : Type 0 where
  pub id : ℕ
  pub valid : Bool
  pub dev : ℕ
  pub blockno : ℕ
  pub refcnt : ℕ
  pub owner : Option ℕ
  pub content : Block

pub record Cache : Type 0 where
  pub bufs : List Buf
  pub disk : ℕ → ℕ → Block

abbrev pub fresh_buf : ℕ → Buf
fresh_buf i = record {
  id = i;
  valid = false;
  dev = 0;
  blockno = 0;
  refcnt = 0;
  owner = none;
  content = λ w. 0;
}

-- The loop of `init`: each buffer is put behind `head`.
pub init_loop : ℕ → ℕ → List Buf → List Buf
init_loop i zero bs = bs
init_loop i (suc left) bs = init_loop (i + 1) left (fresh_buf i ∷ bs)

abbrev pub init : (ℕ → ℕ → Block) → Cache
init disk = record { bufs = init_loop 0 30 []; disk = disk }

abbrev pub holds_block : ℕ → ℕ → Buf → Bool
holds_block dev blockno b = b.dev == dev && b.blockno == blockno

abbrev pub is_free : Buf → Bool
is_free b = b.refcnt == 0

abbrev pub one_further : Option (ℕ × Buf) → Option (ℕ × Buf)
one_further none = none
one_further (some (i, b)) = some (suc i, b)

-- The first buffer from the front that passes a test, with its position.
pub find_buf : (Buf → Bool) → List Buf → Option (ℕ × Buf)
find_buf test [] = none
find_buf test (b ∷ bs) = if test b then some (0, b) else one_further (find_buf test bs)

abbrev pub is_owner : ℕ → Buf → Bool
is_owner me b = elim b.owner [ none ↦ false | some p ↦ p == me ]

-- `rs->lock.acquire()` on the buffer at position `i`, with its other fields as given.
pub lock_buf : ℕ → ℕ → Buf → Cache → Outcome (ℕ × Buf × Cache)
lock_buf me i b c = elim b.owner [
  | none ↦ let b' = record b { owner = some me } in ok (i, b', record c { bufs = set c.bufs i b' })
  | some p ↦ blocked
]

-- `bget`: the buffer, and its position.
pub bget : ℕ → ℕ → ℕ → Cache → Outcome (ℕ × Buf × Cache)
bget me dev blockno c = elim (find_buf (holds_block dev blockno) c.bufs) [
  | some (i, b) ↦ lock_buf me i (record b { refcnt = (b.refcnt + 1) % 2 ^ 32 }) c
  | none ↦ elim (find_buf is_free c.bufs) [
    | some (i, b) ↦
        lock_buf me i (record b { dev = dev; blockno = blockno; valid = false; refcnt = 1 }) c
    | none ↦ panic "no buffers"
  ]
]

-- What `bread` does with the buffer at position `i`: unless it is valid, `virtio_disk::disk_rw` fills
-- it from the disk.
pub fill : Bool → ℕ → Buf → Cache → Outcome (Buf × Cache)
fill true i b c = ok (b, c)
fill false i b c =
    let b' = record b { content = c.disk b.dev b.blockno; valid = true } in
    ok (b', record c { bufs = set c.bufs i b' })

pub bread : ℕ → ℕ → ℕ → Cache → Outcome (Buf × Cache)
bread me dev blockno c = bget me dev blockno c >>= λ r. fill r.1.valid r.0 r.1 r.2

pub remove_at : ℕ → List Buf → List Buf
remove_at i [] = []
remove_at zero (b ∷ bs) = bs
remove_at (suc i) (b ∷ bs) = b ∷ remove_at i bs

abbrev pub has_id : ℕ → Buf → Bool
has_id k b = b.id == k

abbrev pub fewer : ℕ → ℕ
fewer n = (n + 2 ^ 32 - 1) % 2 ^ 32

-- `brelse` of the buffer `k`: the last user puts it behind `head`.
pub brelse : ℕ → ℕ → Cache → Outcome Cache
brelse me k c = elim (find_buf (has_id k) c.bufs) [
  | none ↦ fault
  | some (i, b) ↦
      if not (is_owner me b)
      then panic "bio::brelse: no lock"
      else (let b' = record b { owner = none; refcnt = fewer b.refcnt } in
          if b'.refcnt == 0
          then ok (record c { bufs = b' ∷ remove_at i c.bufs })
          else ok (record c { bufs = set c.bufs i b' }))
]

pub bwrite : ℕ → Buf → Cache → Outcome Cache
bwrite me b c =
    if not (is_owner me b)
    then panic "bio::bwrite: no lock"
    else ok (record c {
      disk = λ dev blockno.
          if dev == b.dev && blockno == b.blockno then b.content else c.disk dev blockno;
    })

-- `bpin` and `bupin` of the buffer `k`.
abbrev pub bpin : ℕ → Cache → Outcome Cache
bpin k c = elim (find_buf (has_id k) c.bufs) [
  | none ↦ fault
  | some (i, b) ↦
      ok (record c { bufs = set c.bufs i (record b { refcnt = (b.refcnt + 1) % 2 ^ 32 }) })
]

abbrev pub bupin : ℕ → Cache → Outcome Cache
bupin k c = elim (find_buf (has_id k) c.bufs) [
  | none ↦ fault
  | some (i, b) ↦ ok (record c { bufs = set c.bufs i (record b { refcnt = fewer b.refcnt }) })
]
