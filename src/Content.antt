-- ===== src/Content.antt =====
-- kernel/fs.cpp from `ialloc` to `itrunc`: the inodes on the disk, and the blocks of a file.
-- A pointer to an inode is its slot in `itable`. The free map, the inodes on the disk and the data
-- blocks are kept apart: the dinode at `IBLOCK(inum)`, `inum % IPB` is `dinode inum`. No other
-- process has the lock of an inode: taking a lock that is held blocks.
pub mod Data
pub mod Dirs
pub mod Blocks
pub mod Reading
pub mod Writing
pub mod Roundtrip
mod Tests
use os_cpp.Base.{
  ltb, leb, ◌==◌, if◌then◌else◌, update, ok, panic, blocked, fault, Outcome, ◌>>=◌, ℕ, zero, suc,
  ◌+◌, ◌-◌, ◌*◌, ◌/◌, ◌%◌, ◌^◌, Bool, true, false, not, ◌&&◌, ◌||◌, Option, none, some,
}
use os_cpp.Fs.{Superblock, Disk, balloc, bfree, Itable, iget}

-- `struct dinode`, and the fields of `struct inode` that are copies of it.
pub record Dinode : Type 0 where
  pub type : ℕ
  pub major : ℕ
  pub minor : ℕ
  pub nlink : ℕ
  pub size : ℕ
  pub uid : ℕ
  pub gid : ℕ
  pub mask_user : ℕ
  pub mask_group : ℕ
  pub mask_other : ℕ
  pub addrs : ℕ → ℕ

-- The file system: `table` and `copy` are the two halves of the inodes in memory.
pub record Volume : Type 0 where
  pub sb : Superblock
  pub ninodes : ℕ
  pub bitmap : Disk
  pub dinode : ℕ → Dinode
  pub block : ℕ → ℕ → ℕ
  pub table : Itable
  pub copy : ℕ → Dinode
  pub locked : ℕ → Bool

abbrev pub bsize : ℕ
bsize = 1024

-- NDIRECT
abbrev pub ndirect : ℕ
ndirect = 12

-- NINDIRECT
abbrev pub nindirect : ℕ
nindirect = 256

abbrev pub set_copy : ℕ → Dinode → Volume → Volume
set_copy i c v = record v { copy = update v.copy i c }

abbrev pub set_valid : ℕ → Bool → Volume → Volume
set_valid i b v = record v { table = update v.table i (record (v.table i) { valid = b }) }

abbrev pub set_addr : ℕ → ℕ → ℕ → Volume → Volume
set_addr i k addr v = set_copy i (record (v.copy i) { addrs = update (v.copy i).addrs k addr }) v

-- `std::memmove` of `n` bytes to the place `off` of a data block.
abbrev pub put_block : ℕ → ℕ → ℕ → (ℕ → ℕ) → Volume → Volume
put_block addr off n src v = record v {
  block =
      update v.block addr
        (λ j. if leb off j && ltb j (off + n) then src (j - off) else v.block addr j);
}

-- Entry `k` of a block of `uint32_t`s, whose bytes have the lowest first.
abbrev pub word_at : Volume → ℕ → ℕ → ℕ
word_at v b k =
    let a = v.block b in
    a (4 * k) + 2 ^ 8 * a (4 * k + 1) + 2 ^ 16 * a (4 * k + 2) + 2 ^ 24 * a (4 * k + 3)

abbrev pub byte_of : ℕ → ℕ → ℕ
byte_of x j = x / 2 ^ (8 * j) % 2 ^ 8

abbrev pub set_block_word : ℕ → ℕ → ℕ → Volume → Volume
set_block_word b k x v = put_block b (4 * k) 4 (byte_of x) v

-- `balloc`, which zeroes the block that it takes.
unfoldable pub take_block : Volume → ℕ × Volume
take_block v =
    let (addr, m) = balloc v.sb v.bitmap in
    elim (addr == 0) [
      | true ↦ (0, record v { bitmap = m })
      | false ↦ (addr, record v { bitmap = m; block = update v.block addr (λ j. 0) })
    ]

pub give_block : ℕ → Volume → Outcome Volume
give_block b v = bfree v.sb b v.bitmap >>= λ m. ok (record v { bitmap = m })

-- A dinode after `std::memset`, with its type set.
abbrev pub blank_dinode : ℕ → Dinode
blank_dinode type = record {
  type = type;
  major = 0;
  minor = 0;
  nlink = 0;
  size = 0;
  uid = 0;
  gid = 0;
  mask_user = 0;
  mask_group = 0;
  mask_other = 0;
  addrs = λ k. 0;
}

-- `ialloc`, from the inode `inum` on; the result is null or a slot.
unfoldable pub ialloc_loop : ℕ → ℕ → ℕ → ℕ → Volume → Outcome (Option ℕ × Volume)
ialloc_loop dev type inum zero v = ok (none, v)
ialloc_loop dev type inum (suc left) v = elim ((v.dinode inum).type == 0) [
  | false ↦ ialloc_loop dev type (inum + 1) left v
  | true ↦ iget dev inum v.table >>= λ r.
      ok (some r.0, record v { dinode = update v.dinode inum (blank_dinode type); table = r.1 })
]

unfoldable pub ialloc : ℕ → ℕ → Volume → Outcome (Option ℕ × Volume)
ialloc dev type v = ialloc_loop dev type 1 (v.ninodes - 1) v

unfoldable pub iupdate : ℕ → Volume → Volume
iupdate i v = record v { dinode = update v.dinode (v.table i).inum (v.copy i) }

unfoldable pub ilock : ℕ → Volume → Outcome Volume
ilock i v =
    if ltb (v.table i).ref 1
    then panic "fs::ilock"
    else if v.locked i
    then blocked
    else (let taken = record v { locked = update v.locked i true } in
        if (v.table i).valid
        then ok taken
        else (let d = v.dinode (v.table i).inum in
            if d.type == 0
            then panic "fs::ilock: no type"
            else ok (set_valid i true (set_copy i d taken))))

unfoldable pub iunlock : ℕ → Volume → Outcome Volume
iunlock i v =
    if not (v.locked i) || ltb (v.table i).ref 1
    then panic "fs::iunlock"
    else ok (record v { locked = update v.locked i false })

-- Block `addrs[k]` of the file, allocated if there is none.
unfoldable pub addr_of : ℕ → ℕ → Volume → ℕ × Volume
addr_of i k v = elim ((v.copy i).addrs k == 0) [
  | false ↦ ((v.copy i).addrs k, v)
  | true ↦
      let (addr, v') = take_block v in if addr == 0 then (0, v') else (addr, set_addr i k addr v')
]

-- `bmap`, whose first test lets `bn` leave the array of NDIRECT + 1 addresses.
unfoldable pub bmap : ℕ → ℕ → Volume → Outcome (ℕ × Volume)
bmap i bn v = elim (ltb bn nindirect) [
  | true ↦ if ltb ndirect bn then fault else ok (addr_of i bn v)
  | false ↦
      let k = bn - ndirect in
      elim (ltb k ndirect) [
        | false ↦ panic "fs::bmap: out of range"
        | true ↦
            (let (at, v') = addr_of i ndirect v in
              elim (at == 0) [
                | true ↦ ok (0, v')
                | false ↦ elim (word_at v' at k == 0) [
                  | false ↦ ok (word_at v' at k, v')
                  | true ↦
                      let (addr, w) = take_block v' in
                      if addr == 0 then ok (0, w) else ok (addr, set_block_word at k addr w)
                ]
              ])
      ]
]

-- The first loop of `itrunc`, for the `left` addresses from `k` on.
pub free_direct : ℕ → ℕ → ℕ → Volume → Outcome Volume
free_direct i k zero v = ok v
free_direct i k (suc left) v = elim ((v.copy i).addrs k == 0) [
  | true ↦ free_direct i (k + 1) left v
  | false ↦
      give_block ((v.copy i).addrs k) v >>= λ v'. free_direct i (k + 1) left (set_addr i k 0 v')
]

-- The second loop, which frees the indirect block `at` for each entry.
pub free_indirect : ℕ → ℕ → ℕ → Volume → Outcome Volume
free_indirect at k zero v = ok v
free_indirect at k (suc left) v = elim (word_at v at k == 0) [
  | true ↦ free_indirect at (k + 1) left v
  | false ↦ give_block at v >>= λ v'. free_indirect at (k + 1) left v'
]

pub itrunc : ℕ → Volume → Outcome Volume
itrunc i v = free_direct i 0 ndirect v >>= λ v1.
    let at = (v1.copy i).addrs ndirect in
    (if at == 0
      then ok v1
      else free_indirect at 0 ndirect v1 >>= λ v2.
          give_block at v2 >>= λ v3. ok (set_addr i ndirect 0 v3))
    >>= λ w. ok (iupdate i (set_copy i (record (w.copy i) { size = 0 }) w))

abbrev pub drop_ref : ℕ → Volume → Volume
drop_ref i v = record v {
  table = update v.table i (record (v.table i) { ref = (v.table i).ref - 1 });
}

-- `iput`, of an inode with a reference.
unfoldable pub iput : ℕ → Volume → Outcome Volume
iput i v = elim ((v.table i).ref == 1 && ((v.table i).valid && (v.copy i).nlink == 0)) [
  | false ↦ ok (drop_ref i v)
  | true ↦
      if v.locked i
      then blocked
      else itrunc i (record v { locked = update v.locked i true }) >>= λ w.
          let u = set_valid i false (iupdate i (set_copy i (record (w.copy i) { type = 0 }) w)) in
          ok (drop_ref i (record u { locked = update u.locked i false }))
]

unfoldable pub iunlockput : ℕ → Volume → Outcome Volume
iunlockput i v = iunlock i v >>= λ w. iput i w
