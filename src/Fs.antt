-- ===== src/Fs.antt =====
-- kernel/fs.cpp and kernel/include/kernel/fs: the free map, the table of inodes in memory, and the
-- elements of a path.
-- Each routine is run with the locks that it takes held. A block of the free map is its bits, by
-- byte and by place in the byte; the calls of `log::lwrite` are what Log is about.
pub mod Bitmap
pub mod Inodes
pub mod Paths
mod Tests
use os_cpp.Base.{
  ltb, ◌==◌, if◌then◌else◌, length, take, update, ok, panic, fault, Outcome, ◌>>=◌, ℕ, zero, suc,
  ◌+◌, ◌/◌, ◌%◌, Bool, true, false, ◌&&◌, Option, none, some, List, [], ◌∷◌, ◌++◌,
}

-- BPB, the bits of a block.
abbrev pub bpb : ℕ
bpb = 8192

pub record Superblock : Type 0 where
  pub size : ℕ
  pub bmapstart : ℕ

abbrev pub Bits : Type 0
Bits = ℕ → ℕ → Bool

abbrev pub Disk : Type 0
Disk = ℕ → Bits

-- BBLOCK
abbrev pub bblock : Superblock → ℕ → ℕ
bblock sb b = b / bpb + sb.bmapstart

abbrev pub set_bit : Disk → ℕ → ℕ → Bool → Disk
set_bit d block bi v =
    update d block (update (d block) (bi / 8) (update (d block (bi / 8)) (bi % 8) v))

abbrev pub get_bit : Disk → ℕ → ℕ → Bool
get_bit d block bi = d block (bi / 8) (bi % 8)

unfoldable pub bzero : ℕ → Disk → Disk
bzero bno d = update d bno (λ byte bit. false)

-- The inner loop of `balloc`, for the `left` bits from `bi` on of the block for `b`.
unfoldable pub find_bit : Superblock → ℕ → ℕ → ℕ → Disk → Option ℕ
find_bit sb b bi zero d = none
find_bit sb b bi (suc left) d = elim (ltb (b + bi) sb.size) [
  | false ↦ none
  | true ↦ elim (get_bit d (bblock sb b) bi) [
    | false ↦ some bi
    | true ↦ find_bit sb b (bi + 1) left d
  ]
]

-- The outer loop of `balloc`, for `blocks` blocks of the map from that of `b` on.
unfoldable pub balloc_loop : Superblock → ℕ → ℕ → Disk → ℕ × Disk
balloc_loop sb b zero d = (0, d)
balloc_loop sb b (suc blocks) d = elim (ltb b sb.size) [
  | false ↦ (0, d)
  | true ↦ elim (find_bit sb b 0 bpb d) [
    | some bi ↦ (b + bi, bzero (b + bi) (set_bit d (bblock sb b) bi true))
    | none ↦ balloc_loop sb (b + bpb) blocks d
  ]
]

unfoldable pub balloc : Superblock → Disk → ℕ × Disk
balloc sb d = balloc_loop sb 0 (sb.size / bpb + 1) d

-- `bfree`, whose test reads the byte `bi % 8`.
unfoldable pub bfree : Superblock → ℕ → Disk → Outcome Disk
bfree sb b d =
    let bi = b % bpb in
    if d (bblock sb b) (bi % 8) (bi % 8)
    then ok (set_bit d (bblock sb b) bi false)
    else panic "fs::bfree: it's free"

-- The fields of `struct inode` that the table is searched by.
pub record Inode : Type 0 where
  pub dev : ℕ
  pub inum : ℕ
  pub ref : ℕ
  pub valid : Bool

abbrev pub Itable : Type 0
Itable = ℕ → Inode

-- NINODE
abbrev pub ninode : ℕ
ninode = 50

abbrev pub is_inode : ℕ → ℕ → Inode → Bool
is_inode dev inum p = ltb 0 p.ref && (p.dev == dev && p.inum == inum)

abbrev pub or_slot : Option ℕ → ℕ → Inode → Option ℕ
or_slot (some k) i p = some k
or_slot none i p = if p.ref == 0 then some i else none

-- The code of `iget` after its loop.
unfoldable pub recycle : ℕ → ℕ → Option ℕ → Itable → Outcome (ℕ × Itable)
recycle dev inum none t = panic "fs::iget: no inode"
recycle dev inum (some k) t =
    ok (k, update t k (record { dev = dev; inum = inum; ref = 1; valid = false }))

-- The loop of `iget`, for `left` slots from `i` on, with the empty slot seen so far.
unfoldable pub iget_loop : ℕ → ℕ → ℕ → ℕ → Option ℕ → Itable → Outcome (ℕ × Itable)
iget_loop dev inum i zero spare t = recycle dev inum spare t
iget_loop dev inum i (suc left) spare t = elim (is_inode dev inum (t i)) [
  | true ↦ ok (i, update t i (record (t i) { ref = (t i).ref + 1 }))
  | false ↦ iget_loop dev inum (i + 1) left (or_slot spare i (t i)) t
]

unfoldable pub iget : ℕ → ℕ → Itable → Outcome (ℕ × Itable)
iget dev inum t = iget_loop dev inum 0 ninode none t

unfoldable pub idup : ℕ → Itable → ℕ × Itable
idup i t = (i, update t i (record (t i) { ref = (t i).ref + 1 }))

-- The character '/' and DIRSIZ.
abbrev pub slash : ℕ
slash = 47

abbrev pub dirsiz : ℕ
dirsiz = 14

abbrev pub drop : ℕ → List ℕ → List ℕ
drop zero xs = xs
drop (suc n) [] = []
drop (suc n) (x ∷ xs) = drop n xs

-- A path is its characters before the NUL.
unfoldable pub skip_slashes : List ℕ → List ℕ
skip_slashes [] = []
skip_slashes (c ∷ path) = if c == slash then skip_slashes path else c ∷ path

unfoldable pub split_elem : List ℕ → List ℕ × List ℕ
split_elem [] = ([], [])
split_elem (c ∷ path) =
    let (s, rest) = split_elem path in if c == slash then ([], c ∷ path) else (c ∷ s, rest)

-- What `skipelem` writes into `char name[DIRSIZ]`: at the length DIRSIZ itself, the NUL goes out of
-- the array.
unfoldable pub store_name : List ℕ → List ℕ → Outcome (List ℕ)
store_name s name =
    if ltb dirsiz (length s)
    then ok (take dirsiz s)
    else if ltb (length s) dirsiz
    then ok (s ++ (0 ∷ drop (length s + 1) name))
    else fault

unfoldable pub skipelem : List ℕ → List ℕ → Outcome (Option (List ℕ × List ℕ))
skipelem path name = elim (skip_slashes path) [
  | [] ↦ ok none
  | (c ∷ cs) ↦
      let (s, rest) = split_elem (c ∷ cs) in
      store_name s name >>= λ name'. ok (some (skip_slashes rest, name'))
]
