-- ===== src/Content/Blocks.antt =====
-- The bytes of a file whose blocks are allocated.
use os_cpp.Base.{
  ltb, ◌==◌, ok, ℕ, ◌+◌, ◌*◌, ◌/◌, ◌%◌, ◌≤◌, ◌<◌, ◌≡◌, refl, ◌≢◌, ◌⊎◌, true, false, arith,
}
use os_cpp.Content.{Volume, bsize, ndirect, nindirect, addr_of, bmap}
use os_cpp.Content.Data.{piece}

-- The byte at `x` of the file in slot `i`.
abbrev pub content : Volume → ℕ → ℕ → ℕ
content v i x = v.block ((v.copy i).addrs (x / bsize)) (x % bsize)

-- Each block of the file below `end` is allocated, and none is the indirect one.
pub record HasBlocks (v : Volume) (i end : ℕ) : Type 0 where
  pub direct : end ≤ ndirect * bsize
  pub there : (k : ℕ) → k * bsize < end → (v.copy i).addrs k ≢ 0

pub below : (v : Volume) (i a end : ℕ) → HasBlocks v i end → a ≤ end → HasBlocks v i a
below v i a end h le = record {
  direct = omega (arith, h.direct);
  there = λ k lt. h.there k (omega arith);
}

is_zero_no : {a : ℕ} → a ≢ 0 → (a == 0) ≡ false
is_zero_no ne = ground arith

pub allocated :
    (v : Volume) (i end x : ℕ)
    → HasBlocks v i end
    → x < end
    → ((v.copy i).addrs (x / bsize) == 0) ≡ false
allocated v i end x h lt = is_zero_no (h.there (x / bsize) (omega arith))

pub bmap-HasBlocks :
    (v : Volume) (i end x : ℕ)
    → HasBlocks v i end
    → x < end
    → bmap i (x / bsize) v ≡ ok ((v.copy i).addrs (x / bsize), v)
unfolding bmap addr_of
bmap-HasBlocks v i end x h lt =
    let low : ltb (x / bsize) nindirect ≡ true = ground (arith, h.direct) in
    let first : ltb ndirect (x / bsize) ≡ false = ground (arith, h.direct) in
    rw (bmap, low, first, addr_of, allocated v i end x h lt) refl

-- The part of a block that a round of a loop copies.
pub record IsPiece (left offset m : ℕ) : Type 0 where
  pub some_bytes : 0 < m
  pub few : m ≤ left
  pub inside : offset % bsize + m ≤ bsize

pub piece-IsPiece : (left offset : ℕ) → 0 < left → IsPiece left offset (piece left offset)
piece-IsPiece left offset lt = record {
  some_bytes = ground arith;
  few = ground arith;
  inside = ground arith;
}

-- What a read of `n` bytes from `offset` makes of the array: the bytes of the file stand in it from
-- `dst` on, `tot` more are counted, and the file system is as before.
pub record Reads (v : Volume) (i offset n dst tot : ℕ) (s : ℕ → ℕ) (r : ℕ × Volume × (ℕ → ℕ))
    : Type 0 where
  pub count : r.0 ≡ tot + n
  pub same : r.1 ≡ v
  pub bytes : (j : ℕ) → j < n → r.2 (dst + j) ≡ content v i (offset + j)
  pub others : (j : ℕ) → (j < dst) ⊎ (dst + n ≤ j) → r.2 j ≡ s j
