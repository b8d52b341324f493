-- ===== src/Cstring/Strings.antt =====
-- strncmp as equality of strings, and strncpy with a source that ends in time and one that does not.
use os_cpp.Base.{
  ◌==◌, if◌then◌else◌, Bool-cases, update, update_ne, ok, ℕ, zero, suc, ◌+◌, ◌-◌, ◌≤◌, ◌<◌, ◌≡◌,
  refl, sym, ap, ◌∙◌, ◌≢◌, ◌↔◌, ◌⊎◌, inl, inr, true, false, List, [], ◌∷◌, arith,
}
use os_cpp.Cstring.{Memory, copy_string, pad, strncpy, strncmp, scan, strlen}
use os_cpp.Cstring.Move.{in_block}
use native.Mathlib.Decide.{ℕ_discrete}

-- The string at an address, cut to `n` bytes.
abbrev pub string_at : Memory → ℕ → ℕ → List ℕ
string_at m a zero = []
string_at m a (suc n) = if m a == 0 then [] else m a ∷ string_at m (a + 1) n

-- strncmp returns 0 exactly if the strings, cut to `n` bytes, are the same.
pub strncmp_iff :
    (a b n : ℕ) (m : Memory)
    → ((strncmp a b n m).0 ≡ (strncmp a b n m).1) ↔ (string_at m a n ≡ string_at m b n)
unfolding strncmp
strncmp_iff a b zero m = (λ e. refl, λ e. refl)
strncmp_iff a b (suc n) m =
    let ih = strncmp_iff (a + 1) (b + 1) n m in
    (λ e. ground (arith, ih.0), λ e. ground (arith, ih.1))

-- The source has a first terminator at index `k`.
abbrev pub EndsAt : Memory → ℕ → ℕ → Type 0
EndsAt m s k = (m (s + k) ≡ 0) × ((j : ℕ) → j < k → m (s + j) ≢ 0)

pad_lem :
    (d left : ℕ) (m : Memory) (a : ℕ) → pad d left m a ≡ (if in_block d left a then 0 else m a)
unfolding pad
pad_lem d zero m a = ground arith
pad_lem d (suc left) m a = ground (arith, pad_lem (d + 1) left (update m d 0) a)

-- The two blocks of `n` bytes do not overlap, as the `restrict` qualifiers ask.
abbrev pub Disjoint : ℕ → ℕ → ℕ → Type 0
Disjoint d s n = (s + n ≤ d) ⊎ (d + n ≤ s)

-- The first byte is copied; the rest of the source is as it was.
rest_same :
    (d s n : ℕ) (m : Memory) (j : ℕ)
    → Disjoint d s (suc n)
    → j < n
    → update m d (m s) (s + 1 + j) ≡ m (s + suc j)
rest_same d s n m j apart lt = update_ne m d (s + 1 + j) (m s) (omega arith) ∙ ap m (omega arith)

copied_byte :
    (d s n : ℕ) (m : Memory) (a : ℕ)
    → Disjoint d s (suc n)
    → (if in_block (d + 1) n a
        then update m d (m s) (s + 1 + (a - (d + 1)))
        else update m d (m s) a)
      ≡ (if in_block d (suc n) a then m (s + (a - d)) else m a)
copied_byte d s n m a apart = elim (ℕ_discrete d a) [
  | yes e ↦ let back : s + (a - d) ≡ s = omega arith in ground (arith, ap m back)
  | no ne ↦ elim (Bool-cases (in_block (d + 1) n a)) [
    | inl q ↦
        let inside : in_block d (suc n) a ≡ true = ground arith in
        let same : s + suc (a - (d + 1)) ≡ s + (a - d) = ground arith in
        rw (q, inside) (rest_same d s n m (a - (d + 1)) apart (ground arith) ∙ ap m same)
    | inr q ↦
        let outside : in_block d (suc n) a ≡ false = ground arith in
        rw (q, outside) (update_ne m d a (m s) ne)
  ]
]

copy_full :
    (d s n : ℕ) (m : Memory) (a : ℕ)
    → ((j : ℕ) → j < n → m (s + j) ≢ 0)
    → Disjoint d s n
    → ((copy_string d s n m).0 ≡ 0xffffffff)
      × ((copy_string d s n m).1 ≡ d + n)
      × ((copy_string d s n m).2 a ≡ (if in_block d n a then m (s + (a - d)) else m a))
unfolding copy_string
copy_full d s zero m a full apart = (refl, omega arith, ground arith)
copy_full d s (suc n) m a full apart =
    let more : (m s == 0) ≡ false =
      ground (arith, full 0 (omega arith), ap m (let e : s + 0 ≡ s = omega arith in e)) in
    let (left, stop, bytes) =
      copy_full (d + 1) (s + 1) n (update m d (m s)) a
        (λ j lt z. full (suc j) (omega arith) (sym (rest_same d s n m j apart lt) ∙ z))
        (omega arith) in
    rw more (left, stop ∙ omega arith, bytes ∙ copied_byte d s n m a apart)

-- With the first terminator at index `k`, it stops behind it, with the rest of the count.
copy_ended :
    (d s n k : ℕ) (m : Memory) (a : ℕ)
    → k < n
    → EndsAt m s k
    → Disjoint d s n
    → ((copy_string d s n m).0 ≡ n - k - 1)
      × ((copy_string d s n m).1 ≡ d + k + 1)
      × ((copy_string d s n m).2 a ≡ (if in_block d (k + 1) a then m (s + (a - d)) else m a))
unfolding copy_string
copy_ended d s zero k m a lt e apart = absurd (omega arith)
copy_ended d s (suc n) zero m a lt e apart =
    let here : s + 0 ≡ s = omega arith in
    let last : (m s == 0) ≡ true = ground (arith, e.0, ap m here) in
    rw last (
      omega arith,
      omega arith,
      elim (ℕ_discrete d a) [
        | yes q ↦ let back : s + (a - d) ≡ s = omega arith in ground (arith, ap m back)
        | no q ↦ ground arith
      ],
    )
copy_ended d s (suc n) (suc k) m a lt e apart =
    let here : s + 0 ≡ s = omega arith in
    let more : (m s == 0) ≡ false = ground (arith, e.1 0 (omega arith), ap m here) in
    let (left, stop, bytes) =
      copy_ended (d + 1) (s + 1) n k (update m d (m s)) a (omega arith)
        (
          rest_same d s n m k apart (omega arith) ∙ e.0,
          λ j q z. e.1 (suc j) (omega arith) (sym (rest_same d s n m j apart (omega arith)) ∙ z),
        )
        (omega arith) in
    rw more (
      left ∙ omega arith,
      stop ∙ omega arith,
      bytes
          ∙ copied_byte d s (k + 1) m a (omega arith)
          ∙ ap (λ (r : ℕ). if in_block d r a then m (s + (a - d)) else m a) (omega arith),
    )

-- With a terminator among the first `n` bytes of the source, strncpy copies the string, fills the
-- destination up to `n` bytes with zeros, and writes nothing else.
pub strncpy_terminated :
    (d s n k : ℕ) (m : Memory) (a : ℕ)
    → k < n
    → EndsAt m s k
    → Disjoint d s n
    → strncpy d s n m a
      ≡ (if in_block d (k + 1) a then m (s + (a - d)) else if in_block d n a then 0 else m a)
unfolding strncpy
strncpy_terminated d s n k m a lt e apart =
    let (left, stop, bytes) = copy_ended d s n k m a lt e apart in
    rw (left, stop)
      (pad_lem (d + k + 1) (n - k - 1) (copy_string d s n m).2 a ∙ rw bytes (ground arith))

scan_lem : (fuel s n k : ℕ) (m : Memory) → k < fuel → EndsAt m s k → scan fuel s n m ≡ ok (n + k)
unfolding scan
scan_lem zero s n k m lt e = absurd (omega arith)
scan_lem (suc fuel) s n zero m lt e =
    let here : s + 0 ≡ s = omega arith in
    let last : (m s == 0) ≡ true = ground (arith, e.0, ap m here) in rw last (ap ok (omega arith))
scan_lem (suc fuel) s n (suc k) m lt e =
    let here : s + 0 ≡ s = omega arith in
    let more : (m s == 0) ≡ false = ground (arith, e.1 0 (omega arith), ap m here) in
    let next : (j : ℕ) → s + 1 + j ≡ s + suc j = λ j. omega arith in
    rw more (
      scan_lem fuel (s + 1) (n + 1) k m (omega arith)
        (ap m (next k) ∙ e.0, λ j q z. e.1 (suc j) (omega arith) (sym (ap m (next j)) ∙ z))
      ∙ ap ok (omega arith))

-- strlen of a string at an address other than 0 returns the index of its first terminator; as many
-- steps as the string has bytes suffice.
pub strlen_lem :
    (fuel s k : ℕ) (m : Memory) → s ≢ 0 → k < fuel → EndsAt m s k → strlen fuel s m ≡ ok k
unfolding strlen
strlen_lem fuel s k m ne lt e =
    let live : (s == 0) ≡ false = ground arith in
    rw live (scan_lem fuel s 0 k m lt e ∙ ap ok (omega arith))

-- Without a terminator in its first `n` bytes, strncpy copies them and then, its counter having gone
-- below 0, writes zeros over the 2^32 - 1 bytes that follow the destination.
pub strncpy_unterminated :
    (d s n : ℕ) (m : Memory) (a : ℕ)
    → ((j : ℕ) → j < n → m (s + j) ≢ 0)
    → (s + n ≤ d) ⊎ (d + n ≤ s)
    → strncpy d s n m a ≡ (
        if in_block (d + n) 0xffffffff a
        then 0
        else if in_block d n a
        then m (s + (a - d))
        else m a)
unfolding strncpy
strncpy_unterminated d s n m a full apart =
    let (left, stop, bytes) = copy_full d s n m a full apart in
    rw (left, stop) (pad_lem (d + n) 0xffffffff (copy_string d s n m).2 a ∙ rw bytes refl)
