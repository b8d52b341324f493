-- ===== src/Image/Bitmap.antt =====
-- The free map that mkfs writes, as the kernel reads it.
use os_cpp.Base.{
  ltb, leb, if◌then◌else◌, update, update_self, update_ne, Returns, ℕ, zero, suc, ◌+◌, ◌*◌, ◌/◌,
  ◌%◌, ◌<◌, ◌≡◌, refl, sym, ap, ◌∙◌, subst, ◌≢◌, true, false, ◌&&◌, arith,
}
use os_cpp.Image.{Image, mark_loop, balloc}
use os_cpp.Fs.{bpb, Superblock, Bits, Disk, bblock, get_bit}
use os_cpp.Fs.Bitmap.{balloc_lem}
use native.Mathlib.Decide.{ℕ_discrete}
use mathlib.Core.Path.{ap₂}

mark_loop_lem :
    (left i byte bit : ℕ) (buf : Bits)
    → bit < 8
    → mark_loop i left buf byte bit
      ≡ (if leb i (8 * byte + bit) && ltb (8 * byte + bit) (i + left) then true else buf byte bit)
unfolding mark_loop
mark_loop_lem zero i byte bit buf lt =
    let none_left : (leb i (8 * byte + bit) && ltb (8 * byte + bit) (i + 0)) ≡ false =
      ground arith in
    rw none_left refl
mark_loop_lem (suc left) i byte bit buf lt =
    mark_loop_lem left (i + 1) byte bit _ lt ∙ one_bit (ℕ_discrete i (8 * byte + bit))
  where
    other_bit :
        Dec (i / 8 ≡ byte)
        → i ≢ 8 * byte + bit
        → update buf (i / 8) (update (buf (i / 8)) (i % 8) true) byte bit ≡ buf byte bit
    other_bit (yes e) ne = rw e (
        ap (λ f. f bit) (update_self buf byte _)
        ∙ update_ne (buf byte) (i % 8) bit true (λ q. ne (omega arith)))
    other_bit (no np) ne = ap (λ f. f bit) (update_ne buf (i / 8) byte _ np)

    one_bit :
        Dec (i ≡ 8 * byte + bit)
        → (if leb (i + 1) (8 * byte + bit) && ltb (8 * byte + bit) (i + 1 + left)
            then true
            else update buf (i / 8) (update (buf (i / 8)) (i % 8) true) byte bit)
          ≡ (if leb i (8 * byte + bit) && ltb (8 * byte + bit) (i + suc left)
              then true
              else buf byte bit)
    one_bit (yes e) =
        let after : (leb (i + 1) (8 * byte + bit) && ltb (8 * byte + bit) (i + 1 + left)) ≡ false =
          ground arith in
        let here : (leb i (8 * byte + bit) && ltb (8 * byte + bit) (i + suc left)) ≡ true =
          ground arith in
        let row : i / 8 ≡ byte = omega arith in
        let col : i % 8 ≡ bit = omega arith in
        rw (after, here, row, col)
          (ap (λ f. f bit) (update_self buf byte _) ∙ update_self (buf byte) bit true)
    one_bit (no ne) =
        let same : (leb (i + 1) (8 * byte + bit) && ltb (8 * byte + bit) (i + 1 + left))
            ≡ (leb i (8 * byte + bit) && ltb (8 * byte + bit) (i + suc left)) =
          ground (arith, ne) in
        ap₂ (λ b x. if b then true else x) same (other_bit (ℕ_discrete (i / 8) byte) ne)

-- The bits of the map: those of the first blocks.
marked_bit :
    (used b : ℕ) → b < bpb → mark_loop 0 used (λ byte bit. false) (b / 8) (b % 8) ≡ ltb b used
marked_bit used b lt =
    let place : 8 * (b / 8) + b % 8 ≡ b = omega arith in
    mark_loop_lem used 0 (b / 8) (b % 8) (λ byte bit. false) (omega arith)
    ∙ subst (λ x. (if leb 0 x && ltb x (0 + used) then true else false) ≡ ltb b used) (sym place)
        (ground arith)

-- The image that mkfs has written with its first `used` blocks taken, fewer than a block of the map
-- has bits and than the image has blocks: the kernel's first balloc takes the first block that mkfs
-- has left.
pub balloc_first :
    (used : ℕ) (im : Image) (sb : Superblock)
    → used < bpb
    → used < sb.size
    → sb.bmapstart ≡ im.bmapstart
    → Returns (λ im'. (os_cpp.Fs.balloc sb im'.bitmap).0 ≡ used) (balloc used im)
unfolding balloc
balloc_first used im sb lt small e =
    let fits : ltb used bpb ≡ true = ground arith in
    rw (balloc, fits)
      (ap (λ r. r.0)
        ((balloc_lem sb map).0 used small (bit used lt ∙ ground arith)
          (λ j less. bit j (omega arith) ∙ ground arith)))
  where
    map : Disk
    map = update im.bitmap im.bmapstart (mark_loop 0 used (λ byte bit. false))

    bit : (b : ℕ) → b < bpb → get_bit map (bblock sb b) (b % bpb) ≡ ltb b used
    bit b less =
        let low : b % bpb ≡ b = omega arith in
        let block : b / bpb + sb.bmapstart ≡ im.bmapstart = omega arith in
        rw (low, block)
          (ap (λ f. f (b / 8) (b % 8)) (update_self im.bitmap im.bmapstart _)
            ∙ marked_bit used b less)
