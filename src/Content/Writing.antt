-- ===== src/Content/Writing.antt =====
-- `writei` from an array, into a file whose blocks are allocated.
use os_cpp.Base.{
  ltb, leb, if◌then◌else◌, update_self, update_ne, Returns, Returns-mono, Returns-ok, ℕ, zero, suc,
  ◌+◌, ◌-◌, ◌*◌, ◌/◌, ◌%◌, ◌≤◌, ◌<◌, ◌≡◌, refl, sym, ap, ◌∙◌, ◌≢◌, ◌⊎◌, inl, inr, true, false, ◌&&◌,
  arith,
}
use os_cpp.Content.{Volume, bsize, ndirect, put_block}
use os_cpp.Content.Data.{piece, writei_loop}
use os_cpp.Content.Dirs.{from_array}
use os_cpp.Content.Blocks.{content, HasBlocks, allocated, bmap-HasBlocks, IsPiece, piece-IsPiece}
use native.Mathlib.Decide.{dec_lt, ℕ_discrete}
use mathlib.Core.Path.{ap₂}

-- The direct blocks of the file are different.
abbrev pub Distinct : Volume → ℕ → Type 0
Distinct v i =
    (k l : ℕ)
    → k < ndirect
    → l < ndirect
    → (v.copy i).addrs k ≢ 0
    → (v.copy i).addrs k ≡ (v.copy i).addrs l
    → k ≡ l

-- What a write of `n` bytes of the array, from `src` on, makes of the file.
pub record Writes (v : Volume) (i src offset n tot : ℕ) (s : ℕ → ℕ) (r : ℕ × ℕ × Volume)
    : Type 0 where
  pub count : r.0 ≡ tot + n
  pub end : r.1 ≡ offset + n
  pub same_copy : r.2.copy ≡ v.copy
  pub bytes : (j : ℕ) → j < n → content r.2 i (offset + j) ≡ s (src + j)
  pub others :
      (x : ℕ)
      → (x < offset) ⊎ (offset + n ≤ x)
      → x < ndirect * bsize
      → (v.copy i).addrs (x / bsize) ≢ 0
      → content r.2 i x ≡ content v i x

module _ (i : ℕ) (s : ℕ → ℕ) where
  -- The file system after one round.
  after_round : Volume → ℕ → ℕ → ℕ → Volume
  after_round v offset m src =
      put_block ((v.copy i).addrs (offset / bsize)) (offset % bsize) m
        (λ j.
          if ltb j m
          then s (src + j)
          else v.block ((v.copy i).addrs (offset / bsize)) (offset % bsize + j))
        v

  written_byte :
      (v : Volume) (offset m src j : ℕ)
      → offset % bsize + m ≤ bsize
      → j < m
      → content (after_round v offset m src) i (offset + j) ≡ s (src + j)
  unfolding after_round
  written_byte v offset m src j fits lt =
      let page : (offset + j) / bsize ≡ offset / bsize = omega arith in
      let place : (offset + j) % bsize ≡ offset % bsize + j = omega arith in
      let inside : (leb (offset % bsize) (offset % bsize + j)
            && ltb (offset % bsize + j) (offset % bsize + m))
          ≡ true =
        ground arith in
      let here : ltb (offset % bsize + j - offset % bsize) m ≡ true = ground arith in
      let from : src + (offset % bsize + j - offset % bsize) ≡ src + j = omega arith in
      ap₂ (λ k x. (after_round v offset m src).block ((v.copy i).addrs k) x) page place
      ∙ ap (λ f. f (offset % bsize + j)) (update_self v.block ((v.copy i).addrs (offset / bsize)) _)
      ∙ rw (inside, here, from) refl

  kept_byte :
      (v : Volume) (offset m src x : ℕ)
      → offset % bsize + m ≤ bsize
      → Distinct v i
      → offset < ndirect * bsize
      → x < ndirect * bsize
      → (v.copy i).addrs (x / bsize) ≢ 0
      → (x < offset) ⊎ (offset + m ≤ x)
      → content (after_round v offset m src) i x ≡ content v i x
  unfolding after_round
  kept_byte v offset m src x fits d low low' there out =
      elim (ℕ_discrete (x / bsize) (offset / bsize)) [
        | yes e ↦
            let outside_piece : (leb (offset % bsize) (x % bsize)
                  && ltb (x % bsize) (offset % bsize + m))
                ≡ false =
              ground (arith, e, out) in
            ap (λ k. (after_round v offset m src).block ((v.copy i).addrs k) (x % bsize)) e
            ∙ ap (λ f. f (x % bsize)) (update_self v.block ((v.copy i).addrs (offset / bsize)) _)
            ∙ rw outside_piece (ap (λ k. v.block ((v.copy i).addrs k) (x % bsize)) (sym e))
        | no ne ↦
            ap (λ f. f (x % bsize))
              (update_ne v.block ((v.copy i).addrs (offset / bsize)) ((v.copy i).addrs (x / bsize))
                _
                (λ e.
                  ne (d (x / bsize) (offset / bsize) (omega arith) (omega arith) there (sym e))))
      ]

  Writes-round :
      (v : Volume) (offset n m src tot : ℕ) (r : ℕ × ℕ × Volume)
      → IsPiece n offset m
      → HasBlocks v i (offset + n)
      → Distinct v i
      → Writes (after_round v offset m src) i (src + m) (offset + m) (n - m) (tot + m) s r
      → Writes v i src offset n tot s r
  unfolding after_round
  Writes-round v offset n m src tot r h b d c = record {
    count = omega (arith, c.count, h.few);
    end = omega (arith, c.end, h.few);
    same_copy = c.same_copy;
    bytes = λ j lt. elim (dec_lt j m) [
      | yes p ↦
          c.others (offset + j) (inl (omega arith)) (omega (arith, b.direct, lt))
            (b.there ((offset + j) / bsize) (omega arith))
          ∙ written_byte v offset m src j h.inside p
      | no p ↦
          let at : offset + m + (j - m) ≡ offset + j = omega arith in
          let from : src + m + (j - m) ≡ src + j = omega arith in
          sym (ap (content r.2 i) at) ∙ c.bytes (j - m) (omega arith) ∙ ap s from
    ];
    others = λ x out low there.
        c.others x (far x out) low there
        ∙ kept_byte v offset m src x h.inside d (omega (arith, b.direct, h.some_bytes, h.few)) low
            there (near x out);
  }
    where
      far :
          (x : ℕ) → (x < offset) ⊎ (offset + n ≤ x) → (x < offset + m) ⊎ (offset + m + (n - m) ≤ x)
      far x (inl lt) = inl (omega arith)
      far x (inr le) = inr (omega (arith, h.few))

      near : (x : ℕ) → (x < offset) ⊎ (offset + n ≤ x) → (x < offset) ⊎ (offset + m ≤ x)
      near x (inl lt) = inl lt
      near x (inr le) = inr (omega (arith, h.few))

  Writes-none : (v : Volume) (src offset tot : ℕ) → Writes v i src offset 0 tot s (tot, offset, v)
  Writes-none v src offset tot = record {
    count = omega arith;
    end = omega arith;
    same_copy = refl;
    bytes = λ j lt. absurd (omega arith);
    others = λ x out low there. refl;
  }

  pub writei_loop-Writes :
      (fuel : ℕ) (v : Volume) (offset n src tot : ℕ)
      → HasBlocks v i (offset + n)
      → Distinct v i
      → n ≤ fuel
      → Returns (Writes v i src offset n tot s) (writei_loop from_array fuel i src offset tot n v s)
  unfolding writei_loop after_round
  writei_loop-Writes zero v offset zero src tot h d enough = Writes-none v src offset tot
  writei_loop-Writes (suc fuel) v offset zero src tot h d enough = Writes-none v src offset tot
  writei_loop-Writes zero v offset (suc n) src tot h d enough = absurd (omega arith)
  writei_loop-Writes (suc fuel) v offset (suc n) src tot h d enough =
      let m : ℕ = piece (suc n) offset in
      let p : IsPiece (suc n) offset m = piece-IsPiece (suc n) offset (omega arith) in
      let w : Volume = after_round v offset m src in
      let e : offset + suc n ≡ offset + m + (suc n - m) = omega (arith, p.few) in
      let blocks : HasBlocks w i (offset + m + (suc n - m)) = record {
        direct = omega (arith, h.direct, e);
        there = λ k lt. h.there k (omega (arith, e));
      } in
      Returns-ok (Writes v i src offset (suc n) tot s) _ _ _
        (bmap-HasBlocks v i (offset + suc n) offset h (omega arith))
        (rw (allocated v i (offset + suc n) offset h (omega arith)) (
          Returns-mono (Writes w i (src + m) (offset + m) (suc n - m) (tot + m) s)
            (Writes v i src offset (suc n) tot s) _
            (λ r c. Writes-round v offset (suc n) m src tot r p h d c)
            (writei_loop-Writes fuel w (offset + m) (suc n - m) (src + m) (tot + m) blocks d
              (omega (arith, p.some_bytes)))))
