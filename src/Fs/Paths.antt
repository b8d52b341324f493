-- ===== src/Fs/Paths.antt =====
-- The elements that `skipelem` takes off a path.
use os_cpp.Base.{
  ltb, ◌==◌, if◌then◌else◌, lt→ltb, le→ltb_false, Bool-cases, length, take, ok, blocked, fault,
  Outcome, ◌>>=◌, ℕ, zero, suc, ◌+◌, ◌<◌, ◌≡◌, refl, ◌≢◌, inl, inr, false, none, some, List, [],
  ◌∷◌, ◌++◌, arith,
}
use os_cpp.Fs.{slash, dirsiz, drop, skip_slashes, split_elem, store_name, skipelem}

-- The characters of a name of a directory entry: no slash and no NUL.
abbrev pub Plain : List ℕ → Type 0
Plain [] = Unit
Plain (c ∷ cs) = (c ≢ slash) × (c ≢ 0) × Plain cs

-- The path `/a/b/c` of a list of names.
abbrev pub render : List (List ℕ) → List ℕ
render [] = []
render (s ∷ ss) = slash ∷ (s ++ render ss)

abbrev pub IsName : List ℕ → Type 0
IsName s = Plain s × (0 < length s) × (length s < dirsiz)

abbrev pub AllNames : List (List ℕ) → Type 0
AllNames [] = Unit
AllNames (s ∷ ss) = IsName s × AllNames ss

-- A buffer's string: its characters before the first NUL, or the whole of it.
abbrev pub string : List ℕ → List ℕ
string [] = []
string (c ∷ cs) = if c == 0 then [] else c ∷ string cs

-- What the loop of `namex` reads: the name in the buffer after each call of `skipelem`.
pub elements : ℕ → List ℕ → List ℕ → Outcome (List (List ℕ))
elements zero path name = blocked
elements (suc fuel) path name = skipelem path name >>= λ r. elim r [
  | none ↦ ok []
  | some (rest, name') ↦ elements fuel rest name' >>= λ names. ok (string name' ∷ names)
]

split_elem-append :
    (s : List ℕ) (ss : List (List ℕ)) → Plain s → split_elem (s ++ render ss) ≡ (s, render ss)
unfolding split_elem
split_elem-append [] [] p = refl
split_elem-append [] (r ∷ rs) p = refl
split_elem-append (c ∷ cs) ss (ne, nn, p) =
    let other : (c == slash) ≡ false = ground arith in rw (split_elem-append cs ss p, other) refl

skip_slashes_plain : (c : ℕ) (cs : List ℕ) → c ≢ slash → skip_slashes (c ∷ cs) ≡ c ∷ cs
unfolding skip_slashes
skip_slashes_plain c cs ne = let other : (c == slash) ≡ false = ground arith in rw other refl

-- skipelem takes the first name off an absolute path: it returns the rest of the path after the
-- slashes that follow, and leaves the name in the buffer, ended by a NUL, if the name is shorter than
-- DIRSIZ; a name of DIRSIZ characters makes it write past the buffer.
pub skipelem_lem :
    (s : List ℕ) (ss : List (List ℕ)) (name : List ℕ)
    → Plain s
    → 0 < length s
    → (length s < dirsiz
        → skipelem (render (s ∷ ss)) name
          ≡ ok (some (skip_slashes (render ss), s ++ (0 ∷ drop (length s + 1) name))))
      × (length s ≡ dirsiz → skipelem (render (s ∷ ss)) name ≡ fault)
      × (dirsiz < length s
          → skipelem (render (s ∷ ss)) name ≡ ok (some (skip_slashes (render ss), take dirsiz s)))
unfolding skipelem store_name skip_slashes
skipelem_lem [] ss name p l = absurd (omega arith)
skipelem_lem (c ∷ cs) ss name (ne, nn, p) l = (
  λ short.
      let long : ltb dirsiz (length (c ∷ cs)) ≡ false = le→ltb_false dirsiz _ (omega arith) in
      rw (skipelem, start, split, long, lt→ltb _ dirsiz short) refl,
  λ full.
      let long : ltb dirsiz (length (c ∷ cs)) ≡ false = le→ltb_false dirsiz _ (omega arith) in
      let short : ltb (length (c ∷ cs)) dirsiz ≡ false = le→ltb_false _ dirsiz (omega arith) in
      rw (skipelem, start, split, long, short) refl,
  λ over. rw (skipelem, start, split, lt→ltb dirsiz _ over) refl,
)
  where
    start : skip_slashes (render ((c ∷ cs) ∷ ss)) ≡ c ∷ (cs ++ render ss)
    start = skip_slashes_plain c (cs ++ render ss) ne

    split : split_elem (c ∷ (cs ++ render ss)) ≡ (c ∷ cs, render ss)
    split = split_elem-append (c ∷ cs) ss (ne, nn, p)

skip_slashes_twice : (path : List ℕ) → skip_slashes (skip_slashes path) ≡ skip_slashes path
unfolding skip_slashes
skip_slashes_twice [] = refl
skip_slashes_twice (c ∷ cs) = elim (Bool-cases (c == slash)) [
  | inl q ↦ rw q (skip_slashes_twice cs)
  | inr q ↦ rw (skip_slashes, q, skip_slashes, q) refl
]

skipelem-skip_slashes :
    (path name : List ℕ) → skipelem (skip_slashes path) name ≡ skipelem path name
unfolding skipelem
skipelem-skip_slashes path name = rw (skipelem, skip_slashes_twice path) refl

string_append : (s rest : List ℕ) → Plain s → string (s ++ (0 ∷ rest)) ≡ s
string_append [] rest h = refl
string_append (c ∷ cs) rest (ns, ne, h) =
    let other : (c == 0) ≡ false = ground arith in rw (other, string_append cs rest h) refl

elements-skip_slashes :
    (fuel : ℕ) (path name : List ℕ)
    → elements (suc fuel) (skip_slashes path) name ≡ elements (suc fuel) path name
unfolding elements
elements-skip_slashes fuel path name = rw (elements, skipelem-skip_slashes path name) refl

-- A path of names, each without slashes and NULs, not empty and shorter than DIRSIZ, is read back
-- by skipelem as those names, in order, whatever the buffer held before: with a call for each name
-- and one more, the loop ends.
pub elements-render :
    (ss : List (List ℕ)) (name : List ℕ)
    → AllNames ss
    → elements (suc (length ss)) (render ss) name ≡ ok ss
unfolding elements skipelem skip_slashes
elements-render [] name h = refl
elements-render (s ∷ ss) name ((plain, some_char, short), h) =
    let name' : List ℕ = s ++ (0 ∷ drop (length s + 1) name) in
    rw (elements, (skipelem_lem s ss name plain some_char).0 short)
      (rw
        (
          elements-skip_slashes (length ss) (render ss) name',
          elements-render ss name' h,
          string_append s (drop (length s + 1) name) plain,
        )
        refl)
