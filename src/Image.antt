-- ===== src/Image.antt =====
-- mkfs/mkfs.cpp: the image of a file system.
-- The sectors of inodes, of the free map and of data are kept apart as in Content. A number is itself
-- after `xint` and `xshort`: on the disk it has its lowest byte first.
pub mod Bitmap
mod Tests
use os_cpp.Base.{
  ltb, leb, ◌==◌, if◌then◌else◌, update, ok, panic, blocked, Outcome, ◌>>=◌, ℕ, zero, suc, ◌+◌, ◌-◌,
  ◌*◌, ◌/◌, ◌%◌, ◌^◌, min, true, false, ◌&&◌,
}
use os_cpp.Fs.{bpb, Bits, Disk}
use os_cpp.Content.{Dinode, bsize, ndirect, nindirect, byte_of, blank_dinode}

pub record Image : Type 0 where
  pub dinode : ℕ → Dinode
  pub block : ℕ → ℕ → ℕ
  pub bitmap : Disk
  pub bmapstart : ℕ
  pub freeblock : ℕ
  pub freeinode : ℕ

pub winode : ℕ → Dinode → Image → Image
winode inum din im = record im { dinode = update im.dinode inum din }

-- `ialloc`, with the owner of the inode (0 for `root`) and its masks.
pub ialloc : ℕ → ℕ → ℕ → ℕ → ℕ → Image → ℕ × Image
ialloc owner type user group other im =
    let din = record (blank_dinode type) {
      nlink = 1;
      uid = owner;
      gid = owner;
      mask_user = user;
      mask_group = group;
      mask_other = other;
    } in
    (im.freeinode, record (winode im.freeinode din im) { freeinode = im.freeinode + 1 })

-- The loop of `balloc`, for `left` bits from `i` on.
pub mark_loop : ℕ → ℕ → Bits → Bits
mark_loop i zero buf = buf
mark_loop i (suc left) buf =
    mark_loop (i + 1) left (update buf (i / 8) (update (buf (i / 8)) (i % 8) true))

pub balloc : ℕ → Image → Outcome Image
balloc used im =
    if ltb used bpb
    then ok (record im {
      bitmap = update im.bitmap im.bmapstart (mark_loop 0 used (λ byte bit. false));
    })
    else panic "used < static_cast<int>(fs::BPB)"

abbrev pub take_block : Image → ℕ × Image
take_block im = (im.freeblock, record im { freeblock = im.freeblock + 1 })

-- The address `k` of the inode, a new block if there is none.
pub addr_of : ℕ → Dinode → Image → ℕ × Dinode × Image
addr_of k din im =
    if din.addrs k == 0
    then (im.freeblock, record din { addrs = update din.addrs k im.freeblock }, (take_block im).1)
    else (din.addrs k, din, im)

-- Entry `k` of a block of numbers.
abbrev pub word_of : (ℕ → ℕ) → ℕ → ℕ
word_of a k = a (4 * k) + 2 ^ 8 * a (4 * k + 1) + 2 ^ 16 * a (4 * k + 2) + 2 ^ 24 * a (4 * k + 3)

-- `bcopy` of `n` bytes to the place `at` of a block.
abbrev pub put : ℕ → ℕ → ℕ → (ℕ → ℕ) → Image → Image
put b at n src im = record im {
  block =
      update im.block b (λ j. if leb at j && ltb j (at + n) then src (j - at) else im.block b j);
}

-- FSSIZE: the sectors of the image, all written when the image is made.
abbrev pub fssize : ℕ
fssize = 2000

-- `rsect` or `wsect` of a sector, and what follows: past the end of the image the program exits.
abbrev pub at_sector {ℓ} : {A : Type ℓ} → ℕ → Outcome A → Outcome A
at_sector sec rest = if ltb sec fssize then rest else panic "exit(-1)"

-- The block `fbn` of the file, from `iappend`.
pub block_of : ℕ → Dinode → Image → Outcome (ℕ × Dinode × Image)
block_of fbn din im =
    if ltb fbn ndirect
    then ok (addr_of fbn din im)
    else (let (at, din', im') = addr_of ndirect din im in
        let k = fbn - ndirect in
        at_sector at (
          if word_of (im'.block at) k == 0
          then ok (im'.freeblock, din', put at (4 * k) 4 (byte_of im'.freeblock) (take_block im').1)
          else ok (word_of (im'.block at) k, din', im')))

-- The loop of `iappend` from the offset `off` on, with `n` bytes to go, the next at `p` of the array:
-- the offset that it ends at, the inode and the image. Each round appends a byte at least.
pub append_loop : ℕ → (ℕ → ℕ) → ℕ → ℕ → ℕ → Dinode → Image → Outcome (ℕ × Dinode × Image)
append_loop fuel xp p off zero din im = ok (off, din, im)
append_loop zero xp p off (suc n) din im = blocked
append_loop (suc fuel) xp p off (suc n) din im =
    let fbn = off / bsize in
    let n1 = min (suc n) ((fbn + 1) * bsize - off) in
    elim (ltb fbn (ndirect + nindirect)) [
      | false ↦ panic "fbn < fs::MAXFILE"
      | true ↦ block_of fbn din im >>= λ r.
          let (x, din', im') = r in
          at_sector x (
            append_loop fuel xp (p + n1) (off + n1) (suc n - n1) din'
              (put x (off - fbn * bsize) n1 (λ j. xp (p + j)) im'))
    ]

pub iappend : ℕ → (ℕ → ℕ) → ℕ → Image → Outcome Image
iappend inum xp n im = append_loop n xp 0 (im.dinode inum).size n (im.dinode inum) im >>= λ r.
    let (off, din, im') = r in ok (winode inum (record din { size = off }) im')
