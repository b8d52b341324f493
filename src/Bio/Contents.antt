-- ===== src/Bio/Contents.antt =====
-- What a reader sees of a block.
use os_cpp.Base.{
  if◌then◌else◌, Option-cases, panic, Ensures, Returns, Ensures-bind, ℕ, ◌+◌, ◌%◌, ◌^◌, ◌≡◌, refl,
  sym, ap, ◌∙◌, subst, ◌≢◌, ◌⊎◌, inl, inr, Bool, true, false, not, Option, none, some, arith,
}
use os_cpp.Bio.{
  Block, Buf, Cache, holds_block, is_free, find_buf, is_owner, lock_buf, bget, fill, bread, bwrite,
}
use os_cpp.Bio.Order.{find_buf_lem}
use mathlib.Core.Path.{ap₂}

-- The contents of a block as the cache shows them: those of the first buffer that holds it, if they
-- were read, and those of the disk otherwise.
abbrev pub shown_by : Cache → ℕ → ℕ → Option (ℕ × Buf) → Block
shown_by c dev blockno none = c.disk dev blockno
shown_by c dev blockno (some (i, b)) = if b.valid then b.content else c.disk dev blockno

abbrev pub shown : Cache → ℕ → ℕ → Block
shown c dev blockno = shown_by c dev blockno (find_buf (holds_block dev blockno) c.bufs)

-- What bread hands out.
pub record IsRead (me dev blockno : ℕ) (v : Block) (b : Buf) : Type 0 where
  pub device : b.dev ≡ dev
  pub number : b.blockno ≡ blockno
  pub locked : b.owner ≡ some me
  pub filled : b.valid ≡ true
  pub bytes : b.content ≡ v

-- The contents that a buffer stands for.
abbrev content_of : Cache → Buf → Block
content_of c b = if b.valid then b.content else c.disk b.dev b.blockno

fill-IsRead :
    (v : Bool) (me dev blockno i : ℕ) (b : Buf) (c : Cache)
    → b.valid ≡ v
    → b.dev ≡ dev
    → b.blockno ≡ blockno
    → b.owner ≡ some me
    → Ensures (λ (r : Buf × Cache). IsRead me dev blockno (content_of c b) r.0) (fill v i b c)
unfolding fill
fill-IsRead true me dev blockno i b c e d n own = record {
  device = d;
  number = n;
  locked = own;
  filled = e;
  bytes = ground arith;
}
fill-IsRead false me dev blockno i b c e d n own = record {
  device = d;
  number = n;
  locked = own;
  filled = refl;
  bytes = ground arith;
}

-- What bget hands out, for the view `v` of the block.
record IsGot (me dev blockno : ℕ) (v : Block) (r : ℕ × Buf × Cache) : Type 0 where
  device : r.1.dev ≡ dev
  number : r.1.blockno ≡ blockno
  locked : r.1.owner ≡ some me
  bytes : content_of r.2 r.1 ≡ v

lock_buf-IsGot :
    (me i dev blockno : ℕ) (b : Buf) (c : Cache)
    → b.dev ≡ dev
    → b.blockno ≡ blockno
    → Ensures (IsGot me dev blockno (content_of c b)) (lock_buf me i b c)
unfolding lock_buf
lock_buf-IsGot me i dev blockno b c d n = elim (Option-cases b.owner) [
  | inl e ↦ rw (e, Ensures) (record { device = d; number = n; locked = refl; bytes = refl })
  | inr (p, e) ↦ rw (e, Ensures) tt
]

bget-IsGot :
    (me dev blockno : ℕ) (c : Cache)
    → Ensures (IsGot me dev blockno (shown c dev blockno)) (bget me dev blockno c)
unfolding bget
bget-IsGot me dev blockno c = elim (Option-cases (find_buf (holds_block dev blockno) c.bufs)) [
  | inr ((i, b), e) ↦
      let found = (find_buf_lem (holds_block dev blockno) c.bufs i b e).1 in
      let d : b.dev ≡ dev = ground arith in
      let n : b.blockno ≡ blockno = ground arith in
      let same : shown c dev blockno ≡ content_of c b =
        ap (shown_by c dev blockno) e
        ∙ ap₂ (λ x y. if b.valid then b.content else c.disk x y) (sym d) (sym n) in
      subst (λ v. Ensures (IsGot me dev blockno v) (bget me dev blockno c)) (sym same)
        (rw (e, bget, Ensures)
          (lock_buf-IsGot me i dev blockno (record b { refcnt = (b.refcnt + 1) % 2 ^ 32 }) c d n))
  | inl e ↦ elim (Option-cases (find_buf is_free c.bufs)) [
    | inl f ↦ rw (e, bget, Ensures) (rw (f, Ensures) tt)
    | inr ((i, b), f) ↦
        subst (λ v. Ensures (IsGot me dev blockno v) (bget me dev blockno c))
          (sym (ap (shown_by c dev blockno) e))
          (rw (e, bget, Ensures)
            (rw (f, Ensures)
              (lock_buf-IsGot me i dev blockno
                (record b { dev = dev; blockno = blockno; valid = false; refcnt = 1 }) c refl
                refl)))
  ]
]

-- A bread that returns gives a buffer for the block that it was asked for, locked by the caller and
-- filled, with the contents that the cache shows of that block.
pub bread-IsRead :
    (me dev blockno : ℕ) (c : Cache)
    → Ensures
        (λ (r : Buf × Cache). IsRead me dev blockno (shown c dev blockno) r.0)
        (bread me dev blockno c)
unfolding bread
bread-IsRead me dev blockno c =
    Ensures-bind (IsGot me dev blockno (shown c dev blockno)) _ (bget me dev blockno c) _
      (bget-IsGot me dev blockno c)
      λ r g.
        subst
          (λ v.
            Ensures (λ (q : Buf × Cache). IsRead me dev blockno v q.0) (fill r.1.valid r.0 r.1 r.2))
          g.bytes (fill-IsRead r.1.valid me dev blockno r.0 r.1 r.2 refl g.device g.number g.locked)

-- bwrite by the holder of the buffer's lock makes the disk block what the buffer holds and changes no
-- other block; by anybody else it panics.
pub bwrite_lem :
    (me : ℕ) (b : Buf) (c : Cache)
    → (b.owner ≡ some me
        → Returns
            (λ r.
              (r.disk b.dev b.blockno ≡ b.content)
              × ((dev blockno : ℕ)
                  → (dev ≢ b.dev) ⊎ (blockno ≢ b.blockno)
                  → r.disk dev blockno ≡ c.disk dev blockno)
              × (r.bufs ≡ c.bufs))
            (bwrite me b c))
      × (b.owner ≢ some me → bwrite me b c ≡ panic "bio::bwrite: no lock")
unfolding bwrite
bwrite_lem me b c = (mine, other)
  where
    mine :
        b.owner ≡ some me
        → Returns
            (λ r.
              (r.disk b.dev b.blockno ≡ b.content)
              × ((dev blockno : ℕ)
                  → (dev ≢ b.dev) ⊎ (blockno ≢ b.blockno)
                  → r.disk dev blockno ≡ c.disk dev blockno)
              × (r.bufs ≡ c.bufs))
            (bwrite me b c)
    mine e =
        let own : not (is_owner me b) ≡ false = ground arith in
        rw (own, Returns) (ground arith, λ dev blockno ne. ground arith, refl)

    other : b.owner ≢ some me → bwrite me b c ≡ panic "bio::bwrite: no lock"
    other ne = ground arith
