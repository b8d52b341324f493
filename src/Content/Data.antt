-- ===== src/Content/Data.antt =====
-- kernel/fs.cpp: `stati`, `readi` and `writei`.
-- The other side of the copying is a memory of any type, with what `proc::either_copyout` and
-- `proc::either_copyin` do to it as an argument. The memory of a process is Vm's.
use os_cpp.Base.{
  ltb, ◌==◌, if◌then◌else◌, ok, blocked, Outcome, ◌>>=◌, ℕ, zero, suc, ◌+◌, ◌-◌, ◌*◌, ◌/◌, ◌%◌, ◌^◌,
  Bool, true, false, ◌||◌, Option, none, some,
}
use os_cpp.Vm.{Mem}
use os_cpp.Vm.User.{put_bytes}
use os_cpp.Vm.Copy.{take_bytes, copyin, copyout}
use os_cpp.Content.{Volume, bsize, ndirect, nindirect, set_copy, put_block, iupdate, bmap}

pub record Stat : Type 0 where
  pub dev : ℕ
  pub ino : ℕ
  pub type : ℕ
  pub nlink : ℕ
  pub size : ℕ
  pub uid : ℕ
  pub gid : ℕ

unfoldable pub stati : ℕ → Volume → Stat
stati i v = record {
  dev = (v.table i).dev;
  ino = (v.table i).inum;
  type = (v.copy i).type;
  nlink = (v.copy i).nlink;
  size = (v.copy i).size;
  uid = (v.copy i).uid;
  gid = (v.copy i).gid;
}

-- The result of a copy is an `int`, by its 32 bits; -1 is what the loops test for.
abbrev pub minus_one : ℕ
minus_one = 0xffffffff

abbrev pub CopyOut {ℓ} : Type ℓ → Type ℓ
CopyOut M = ℕ → (ℕ → ℕ) → ℕ → M → Outcome (ℕ × M)

-- The array to be filled, the source and the number of bytes.
abbrev pub CopyIn {ℓ} : Type ℓ → Type ℓ
CopyIn M = (ℕ → ℕ) → ℕ → ℕ → M → Outcome (ℕ × (ℕ → ℕ))

-- The `bool` of `vm::copyout` and `vm::copyin`, as an `int`.
abbrev pub as_int : Bool → ℕ
as_int b = if b then 1 else 0

-- `proc::either_copyout` and `proc::either_copyin`, in a process with the page table `pt`. Neither
-- ever returns -1.
unfoldable pub either_copyout : Bool → ℕ → CopyOut Mem
either_copyout user pt dst src len s =
    if user
    then (copyout pt dst src len s >>= λ r. ok (as_int r.0, r.1))
    else ok (0, put_bytes dst len src s)

unfoldable pub either_copyin : Bool → ℕ → CopyIn Mem
either_copyin user pt dst src len s =
    if user
    then (copyin pt dst src len s >>= λ r. ok (as_int r.0, r.1))
    else ok (0, take_bytes 0 src len s dst)

-- How many bytes of the block a round copies.
abbrev pub piece : ℕ → ℕ → ℕ
piece left offset = if ltb left (bsize - offset % bsize) then left else bsize - offset % bsize

-- The loop of `readi`, with `left` bytes to go; each round copies a byte at least. The result is
-- `tot`.
unfoldable pub readi_loop {ℓ} :
    {M : Type ℓ} → CopyOut M → ℕ → ℕ → ℕ → ℕ → ℕ → ℕ → Volume → M → Outcome (ℕ × Volume × M)
readi_loop copy fuel i dst offset tot zero v s = ok (tot, v, s)
readi_loop copy zero i dst offset tot (suc left) v s = blocked
readi_loop copy (suc fuel) i dst offset tot (suc left) v s = bmap i (offset / bsize) v >>= λ r.
    elim (r.0 == 0) [
      | true ↦ ok (tot, r.1, s)
      | false ↦
          let m = piece (suc left) offset in
          copy dst (λ j. r.1.block r.0 (offset % bsize + j)) m s >>= λ q. elim (q.0 == minus_one) [
            | true ↦ ok (0xffffffff, r.1, q.1)
            | false ↦ readi_loop copy fuel i (dst + m) (offset + m) (tot + m) (suc left - m) r.1 q.1
          ]
    ]

-- A read of more than the file has is cut.
unfoldable pub readi {ℓ} :
    {M : Type ℓ} → CopyOut M → ℕ → ℕ → ℕ → ℕ → Volume → M → Outcome (ℕ × Volume × M)
readi copy i dst offset n v s =
    let size = (v.copy i).size in
    let end = (offset + n) % 2 ^ 32 in
    let n' = if ltb size end then size - offset else n in
    if ltb size offset || ltb end offset
    then ok (0, v, s)
    else readi_loop copy n' i dst offset 0 n' v s

-- The loop of `writei`; the result is `tot` and the offset that it leaves. A copy that fails has
-- changed the block as far as it came.
unfoldable pub writei_loop {ℓ} :
    {M : Type ℓ} → CopyIn M → ℕ → ℕ → ℕ → ℕ → ℕ → ℕ → Volume → M → Outcome (ℕ × ℕ × Volume)
writei_loop copy fuel i src offset tot zero v s = ok (tot, offset, v)
writei_loop copy zero i src offset tot (suc left) v s = blocked
writei_loop copy (suc fuel) i src offset tot (suc left) v s = bmap i (offset / bsize) v >>= λ r.
    elim (r.0 == 0) [
      | true ↦ ok (tot, offset, r.1)
      | false ↦
          let m = piece (suc left) offset in
          copy (λ j. r.1.block r.0 (offset % bsize + j)) src m s >>= λ q.
          let w = put_block r.0 (offset % bsize) m q.1 r.1 in
          elim (q.0 == minus_one) [
            | true ↦ ok (tot, offset, w)
            | false ↦ writei_loop copy fuel i (src + m) (offset + m) (tot + m) (suc left - m) w s
          ]
    ]

-- `writei`; `none` is -1.
unfoldable pub writei {ℓ} :
    {M : Type ℓ} → CopyIn M → ℕ → ℕ → ℕ → ℕ → Volume → M → Outcome (Option ℕ × Volume)
writei copy i src offset n v s =
    let end = (offset + n) % 2 ^ 32 in
    if (ltb (v.copy i).size offset || ltb end offset) || ltb ((ndirect + nindirect) * bsize) end
    then ok (none, v)
    else writei_loop copy n i src offset 0 n v s >>= λ r.
        let (tot, off, w) = r in
        let c = w.copy i in
        ok (
          some tot,
          iupdate i (if ltb c.size off then set_copy i (record c { size = off }) w else w),
        )
