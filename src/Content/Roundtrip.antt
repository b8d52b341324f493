-- ===== src/Content/Roundtrip.antt =====
-- `writei` as a whole, and what `readi` gives after it.
use os_cpp.Base.{ltb, if◌then◌else◌, ℕ, ◌+◌, ◌*◌, ◌/◌, ◌≤◌, ◌<◌, ◌≡◌, ◌≢◌, ◌⊎◌, Option, some}
use os_cpp.Content.{Volume, bsize, ndirect, set_copy, iupdate}
use os_cpp.Content.Blocks.{content}
use Prim.Native.Nat.{max}

-- What `writei` leaves: the bytes in the file, the others as they were, a file that reaches at least
-- as far, and its inode on the disk.
pub record Written (v : Volume) (i src offset n : ℕ) (s : ℕ → ℕ) (r : Option ℕ × Volume)
    : Type 0 where
  pub count : r.0 ≡ some n
  pub size : (r.1.copy i).size ≡ max (v.copy i).size (offset + n)
  pub same_addrs : (r.1.copy i).addrs ≡ (v.copy i).addrs
  pub updated : r.1.dinode (r.1.table i).inum ≡ r.1.copy i
  pub bytes : (j : ℕ) → j < n → content r.1 i (offset + j) ≡ s (src + j)
  pub others :
      (x : ℕ)
      → (x < offset) ⊎ (offset + n ≤ x)
      → x < ndirect * bsize
      → (v.copy i).addrs (x / bsize) ≢ 0
      → content r.1 i x ≡ content v i x

-- The code of `writei` after its loop.
grow : ℕ → ℕ → Volume → Volume
grow i off w =
    let c = w.copy i in
    iupdate i (if ltb c.size off then set_copy i (record c { size = off }) w else w)
