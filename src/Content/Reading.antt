-- ===== src/Content/Reading.antt =====
-- `readi` of a file whose blocks are allocated, into an array.
use os_cpp.Base.{
  ltb, leb, ◌==◌, if◌then◌else◌, Returns, Returns-mono, Returns-ok, ℕ, zero, suc, ◌+◌, ◌-◌, ◌/◌,
  ◌%◌, ◌^◌, ◌≤◌, ◌<◌, min, ◌≡◌, refl, sym, ap, ◌∙◌, subst, ◌⊎◌, inl, inr, true, false, ◌&&◌, arith,
}
use os_cpp.Content.{Volume, bsize}
use os_cpp.Content.Data.{piece, readi_loop, readi}
use os_cpp.Content.Dirs.{to_array}
use os_cpp.Content.Blocks.{
  content, HasBlocks, below, allocated, bmap-HasBlocks, IsPiece, piece-IsPiece, Reads,
}
use native.Mathlib.Decide.{dec_lt}
use mathlib.Core.Path.{ap₂}

module _ (v : Volume) (i : ℕ) where
  -- The array after one round.
  one_round : ℕ → ℕ → ℕ → (ℕ → ℕ) → ℕ → ℕ
  one_round offset m dst s j =
      if leb dst j && ltb j (dst + m)
      then v.block ((v.copy i).addrs (offset / bsize)) (offset % bsize + (j - dst))
      else s j

  round_byte :
      (offset m dst j : ℕ) (s : ℕ → ℕ)
      → offset % bsize + m ≤ bsize
      → j < m
      → one_round offset m dst s (dst + j) ≡ content v i (offset + j)
  unfolding one_round
  round_byte offset m dst j s fits lt =
      let inside : (leb dst (dst + j) && ltb (dst + j) (dst + m)) ≡ true = ground arith in
      let page : offset / bsize ≡ (offset + j) / bsize = omega arith in
      let place : offset % bsize + (dst + j - dst) ≡ (offset + j) % bsize = omega arith in
      rw (inside) (ap₂ (λ k x. v.block ((v.copy i).addrs k) x) page place)

  round_other :
      (offset m dst j : ℕ) (s : ℕ → ℕ)
      → (j < dst) ⊎ (dst + m ≤ j)
      → one_round offset m dst s j ≡ s j
  unfolding one_round
  round_other offset m dst j s out =
      let outside_round : (leb dst j && ltb j (dst + m)) ≡ false = ground (arith, out) in
      rw outside_round refl

  Reads-round :
      (offset n m dst tot : ℕ) (s : ℕ → ℕ) (r : ℕ × Volume × (ℕ → ℕ))
      → IsPiece n offset m
      → Reads v i (offset + m) (n - m) (dst + m) (tot + m) (one_round offset m dst s) r
      → Reads v i offset n dst tot s r
  Reads-round offset n m dst tot s r h c = record {
    count = omega (arith, c.count, h.few);
    same = c.same;
    bytes = λ j lt. elim (dec_lt j m) [
      | yes p ↦ c.others (dst + j) (inl (omega arith)) ∙ round_byte offset m dst j s h.inside p
      | no p ↦
          let at : dst + m + (j - m) ≡ dst + j = omega arith in
          let from : offset + m + (j - m) ≡ offset + j = omega arith in
          sym (ap r.2 at) ∙ c.bytes (j - m) (omega arith) ∙ ap (content v i) from
    ];
    others = λ j out. elim out [
      | inl lt ↦ c.others j (inl (omega arith)) ∙ round_other offset m dst j s (inl lt)
      | inr le ↦
          c.others j (inr (omega (arith, h.few)))
          ∙ round_other offset m dst j s (inr (omega (arith, h.few)))
    ];
  }

  Reads-none : (offset dst tot : ℕ) (s : ℕ → ℕ) → Reads v i offset 0 dst tot s (tot, v, s)
  Reads-none offset dst tot s = record {
    count = omega arith;
    same = refl;
    bytes = λ j lt. absurd (omega arith);
    others = λ j out. refl;
  }

  pub readi_loop-Reads :
      (fuel offset n dst tot : ℕ) (s : ℕ → ℕ)
      → HasBlocks v i (offset + n)
      → n ≤ fuel
      → Returns (Reads v i offset n dst tot s) (readi_loop to_array fuel i dst offset tot n v s)
  unfolding readi_loop one_round
  readi_loop-Reads zero offset zero dst tot s h enough = Reads-none offset dst tot s
  readi_loop-Reads (suc fuel) offset zero dst tot s h enough = Reads-none offset dst tot s
  readi_loop-Reads zero offset (suc n) dst tot s h enough = absurd (omega arith)
  readi_loop-Reads (suc fuel) offset (suc n) dst tot s h enough =
      let m : ℕ = piece (suc n) offset in
      let p : IsPiece (suc n) offset m = piece-IsPiece (suc n) offset (omega arith) in
      let ne : ((v.copy i).addrs (offset / bsize) == 0) ≡ false =
        allocated v i (offset + suc n) offset h (omega arith) in
      let blocks : HasBlocks v i (offset + m + (suc n - m)) =
        subst (HasBlocks v i) (omega (arith, p.few)) h in
      Returns-ok (Reads v i offset (suc n) dst tot s) _ _ _
        (bmap-HasBlocks v i (offset + suc n) offset h (omega arith))
        (rw (ne) (
          Returns-mono
            (Reads v i (offset + m) (suc n - m) (dst + m) (tot + m) (one_round offset m dst s))
            (Reads v i offset (suc n) dst tot s) _
            (λ r c. Reads-round offset (suc n) m dst tot s r p c)
            (readi_loop-Reads fuel (offset + m) (suc n - m) (dst + m) (tot + m)
              (one_round offset m dst s) blocks (omega (arith, p.some_bytes)))))

pub readi_range :
    (v : Volume) (i offset n dst : ℕ) (s : ℕ → ℕ)
    → HasBlocks v i (offset + min n ((v.copy i).size - offset))
    → offset ≤ (v.copy i).size
    → offset + n < 2 ^ 32
    → Returns
        (Reads v i offset (min n ((v.copy i).size - offset)) dst 0 s)
        (readi to_array i dst offset n v s)
unfolding readi
readi_range v i offset n dst s h le small =
    let size : ℕ = (v.copy i).size in
    let no_wrap : (offset + n) % 2 ^ 32 ≡ offset + n = omega arith in
    let before : ltb size offset ≡ false = ground arith in
    let after : ltb (offset + n) offset ≡ false = ground arith in
    let cut : (if ltb size (offset + n) then size - offset else n) ≡ min n (size - offset) =
      ground arith in
    rw (no_wrap, before, after, cut)
      (readi_loop-Reads v i (min n (size - offset)) offset (min n (size - offset)) dst 0 s h
        (omega arith))

-- Let the blocks of a file of at most twelve blocks be allocated. readi of it into the kernel's
-- memory, from within the file and with a range that ends below 2^32, returns: it reads as many bytes as it was asked for or the file has
-- left, whichever is less, exactly the file's, changes nothing else of the array, and leaves the file
-- system as it was.
pub readi-Reads :
    (v : Volume) (i offset n dst : ℕ) (s : ℕ → ℕ)
    → HasBlocks v i (v.copy i).size
    → offset ≤ (v.copy i).size
    → offset + n < 2 ^ 32
    → Returns
        (Reads v i offset (min n ((v.copy i).size - offset)) dst 0 s)
        (readi to_array i dst offset n v s)
readi-Reads v i offset n dst s h le small =
    let size : ℕ = (v.copy i).size in
    readi_range v i offset n dst s
      (below v i (offset + min n (size - offset)) size h (ground arith)) le small
