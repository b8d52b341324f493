-- ===== src/Content/Dirs.antt =====
-- kernel/fs.cpp: `namecmp`, `dir_lookup`, `dir_link` and `namex`.
-- A `struct dirent` is its 32 bytes: inum at 0, uid at 4, gid at 8, the masks from 12, the name from
-- 15. A name is the array `char[DIRSIZ]`. A path starts at the root or the directory of the process.
use os_cpp.Base.{
  ltb, leb, ◌==◌, if◌then◌else◌, length, set, ok, panic, blocked, fault, Outcome, ◌>>=◌, ℕ, zero,
  suc, ◌+◌, ◌-◌, ◌*◌, ◌/◌, ◌^◌, Bool, true, false, not, ◌&&◌, Option, none, some, List, [], ◌∷◌,
  String,
}
use os_cpp.Fs.{iget, idup, slash, dirsiz, skipelem}
use os_cpp.Cstring.{copy_string, pad, strncmp}
use os_cpp.Content.{Dinode, Volume, byte_of, ilock, iunlock, iput, iunlockput}
use os_cpp.Content.Data.{CopyOut, CopyIn, readi, writei}

abbrev pub dirent_size : ℕ
dirent_size = 32

abbrev pub Dirent : Type 0
Dirent = ℕ → ℕ

abbrev pub inum_of : Dirent → ℕ
inum_of de = de 0 + 2 ^ 8 * de 1

-- The elements of an array, 0 past its end.
abbrev pub char_at : List ℕ → ℕ → ℕ
char_at [] k = 0
char_at (c ∷ cs) zero = c
char_at (c ∷ cs) (suc k) = char_at cs k

-- Copies to and from a variable of the kernel, an array of its own.
abbrev pub to_array : CopyOut (ℕ → ℕ)
to_array dst src len s = ok (0, λ j. if leb dst j && ltb j (dst + len) then src (j - dst) else s j)

abbrev pub from_array : CopyIn (ℕ → ℕ)
from_array dst src len s = ok (0, λ j. if ltb j len then s (src + j) else dst j)

-- `namecmp(name, de.name) == 0`, in a memory that has the entry at 0 and the name at 32.
unfoldable pub same_name : List ℕ → Dirent → Bool
same_name name de =
    let (a, b) = strncmp 32 15 dirsiz (λ j. if ltb j 32 then de j else char_at name (j - 32)) in
    a == b

-- `readi(dp, false, &de, offset, sizeof(de))`
unfoldable pub read_entry : String → ℕ → ℕ → Volume → Outcome (Dirent × Volume)
read_entry message dp offset v = readi to_array dp 0 offset dirent_size v (λ j. 0) >>= λ r.
    let (n, w, de) = r in if n == dirent_size then ok (de, w) else panic message

-- The loop of `dir_lookup`: the entry's offset and the inode's slot, or null.
unfoldable pub lookup_loop : ℕ → ℕ → List ℕ → ℕ → Volume → Outcome (Option (ℕ × ℕ) × Volume)
lookup_loop zero dp name offset v = if ltb offset (v.copy dp).size then blocked else ok (none, v)
lookup_loop (suc fuel) dp name offset v = elim (ltb offset (v.copy dp).size) [
  | false ↦ ok (none, v)
  | true ↦ read_entry "fs::dir_lookup: read error" dp offset v >>= λ r.
      let (de, w) = r in
      elim (not (inum_of de == 0) && same_name name de) [
        | false ↦ lookup_loop fuel dp name (offset + dirent_size) w
        | true ↦ iget (v.table dp).dev (inum_of de) w.table >>= λ q.
            ok (some (offset, q.0), record w { table = q.1 })
      ]
]

unfoldable pub dir_lookup : ℕ → List ℕ → Volume → Outcome (Option (ℕ × ℕ) × Volume)
dir_lookup dp name v =
    if not ((v.copy dp).type == 1)
    then panic "fs::dir_lookup: it's not a dir"
    else lookup_loop ((v.copy dp).size / dirent_size + 1) dp name 0 v

-- The loop of `dir_link`: the entry that is free, or past the end, with its offset.
unfoldable pub free_entry : ℕ → ℕ → ℕ → Dirent → Volume → Outcome (ℕ × Dirent × Volume)
free_entry zero dp off de v = if ltb off (v.copy dp).size then blocked else ok (off, de, v)
free_entry (suc fuel) dp off de v = elim (ltb off (v.copy dp).size) [
  | false ↦ ok (off, de, v)
  | true ↦ read_entry "fs::dir_link: read" dp off v >>= λ r. elim (inum_of r.0 == 0) [
    | true ↦ ok (off, r.0, r.1)
    | false ↦ free_entry fuel dp (off + dirent_size) r.0 r.1
  ]
]

-- `std::strncpy(de.name, name, DIRSIZ)`, which without a NUL in the name writes far past `de`.
unfoldable pub link_name : List ℕ → Dirent → Outcome Dirent
link_name name de =
    let (left, d, m) =
      copy_string 15 32 dirsiz (λ j. if ltb j 32 then de j else char_at name (j - 32)) in
    if left == 0xffffffff then fault else ok (pad d left m)

-- The fields of `other`, by their places in the entry.
unfoldable pub set_fields : Dinode → ℕ → Dirent → Dirent
set_fields c inum de j =
    if ltb j 2
    then byte_of inum j
    else if leb 4 j && ltb j 8
    then byte_of c.uid (j - 4)
    else if leb 8 j && ltb j 12
    then byte_of c.gid (j - 8)
    else if j == 12
    then c.mask_user
    else if j == 13
    then c.mask_group
    else if j == 14
    then c.mask_other
    else de j

-- The two `dir_link`: true is 0, false is -1. `set` fills in the entry but for its name.
unfoldable pub dir_link_with : (Dirent → Dirent) → ℕ → List ℕ → Volume → Outcome (Bool × Volume)
dir_link_with set dp name v = dir_lookup dp name v >>= λ r. elim r.0 [
  | some (off, ip) ↦ iput ip r.1 >>= λ w. ok (false, w)
  | none ↦ free_entry ((r.1.copy dp).size / dirent_size + 1) dp 0 (λ j. 0) r.1 >>= λ q.
      let (off, de, w) = q in
      link_name name de >>= λ named. writei from_array dp 0 off dirent_size w (set named) >>= λ u.
      ok (elim u.0 [ some n ↦ n == dirent_size | none ↦ false ], u.1)
]

unfoldable pub dir_link : ℕ → List ℕ → ℕ → Volume → Outcome (Bool × Volume)
dir_link dp name other v = dir_link_with (set_fields (v.copy other) (v.table other).inum) dp name v

unfoldable pub dir_link_inum : ℕ → List ℕ → ℕ → Volume → Outcome (Bool × Volume)
dir_link_inum dp name inum v =
    dir_link_with (λ de j. if ltb j 2 then byte_of inum j else de j) dp name v

-- The loop of `namex` on the inode `ip`: the inode of the path or null, with the last name.
unfoldable pub namex_loop :
    ℕ → ℕ → List ℕ → Bool → List ℕ → Volume → Outcome (Option ℕ × List ℕ × Volume)
namex_loop zero ip path parent name v = blocked
namex_loop (suc fuel) ip path parent name v = skipelem path name >>= λ r. elim r [
  | none ↦ if parent then (iput ip v >>= λ w. ok (none, name, w)) else ok (some ip, name, v)
  | some (rest, name') ↦ ilock ip v >>= λ v1. elim ((v1.copy ip).type == 1) [
    | false ↦ iunlockput ip v1 >>= λ w. ok (none, name', w)
    | true ↦ elim (parent && length rest == 0) [
      | true ↦ iunlock ip v1 >>= λ w. ok (some ip, name', w)
      | false ↦ dir_lookup ip name' v1 >>= λ q. iunlockput ip q.1 >>= λ w. elim q.0 [
        | none ↦ ok (none, name', w)
        | some (off, next) ↦ namex_loop fuel next rest parent name' w
      ]
    ]
  ]
]

-- A name is taken off in each round.
unfoldable pub namex : ℕ → List ℕ → Bool → List ℕ → Volume → Outcome (Option ℕ × List ℕ × Volume)
namex cwd path parent name v =
    (if char_at path 0 == slash then iget 1 1 v.table else ok (idup cwd v.table)) >>= λ r.
    namex_loop (length path + 1) r.0 path parent name (record v { table = r.1 })
