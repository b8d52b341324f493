-- ===== src/Pipe/Queue.antt =====
-- The pipe's buffer as a queue of bytes, oldest first, over `uint32_t` indices that wrap.
use os_cpp.Base.{
  length, ℕ, zero, suc, ◌+◌, ◌-◌, ◌%◌, ◌^◌, ◌≤◌, ◌<◌, ◌≡◌, refl, sym, ap, ◌∙◌, ◌≢◌, true, false,
  List, [], ◌∷◌, ◌++◌, arith,
}
use os_cpp.Base.Ring.{Apart, window, window_mod, window-push, window_pop}
use os_cpp.Pipe.{pipe_size, Chan, Pipe, wakeup, is_full, is_empty, put, drop_one}

abbrev pub used : Pipe → ℕ
used p = (p.nwrite + 2 ^ 32 - p.nread) % 2 ^ 32

abbrev pub contents : Pipe → List ℕ
contents p = window pipe_size p.buf p.nread (used p)

pub record IsValid (p : Pipe) : Type 0 where
  pub read_word : p.nread < 2 ^ 32
  pub write_word : p.nwrite < 2 ^ 32
  pub fits : used p ≤ pipe_size

apart : Apart pipe_size
apart h k pos lt = omega arith

pub is_empty-used : (p : Pipe) → IsValid p → is_empty p ≡ true → used p ≡ 0
is_empty-used p v e = ground arith

pub not_empty_used : (p : Pipe) → IsValid p → is_empty p ≡ false → used p ≢ 0
not_empty_used p v e = ground arith

pub not_full_used : (p : Pipe) → IsValid p → is_full p ≡ false → used p < pipe_size
not_full_used p v e = ground arith

pub used_not_full : (p : Pipe) → IsValid p → used p < pipe_size → is_full p ≡ false
used_not_full p v lt = ground arith

pub readopen-put : (p : Pipe) (ch : ℕ) → p.readopen ≡ true → (put p ch).readopen ≡ true
unfolding put
readopen-put p ch o = o

pub put-IsValid : (p : Pipe) (ch : ℕ) → IsValid p → used p < pipe_size → IsValid (put p ch)
unfolding put
put-IsValid p ch v lt = ground arith

pub used-put : (p : Pipe) (ch : ℕ) → IsValid p → used p < pipe_size → used (put p ch) ≡ used p + 1
unfolding put
used-put p ch v lt = ground arith

pub contents-put :
    (p : Pipe) (ch : ℕ)
    → IsValid p
    → used p < pipe_size
    → contents (put p ch) ≡ contents p ++ (ch ∷ [])
unfolding put
contents-put p ch v lt =
    ap (window pipe_size (put p ch).buf p.nread) grown
    ∙ window-push pipe_size apart p.buf p.nread (used p) (p.nwrite % pipe_size) ch lt
        (omega (arith, v.write_word, v.read_word))
  where
    grown : used (put p ch) ≡ suc (used p)
    grown = omega (arith, used-put p ch v lt)

pub drop_one-IsValid : (p : Pipe) → IsValid p → used p ≢ 0 → IsValid (drop_one p)
unfolding drop_one
drop_one-IsValid p v ne = ground arith

pub used-drop_one : (p : Pipe) → IsValid p → used p ≢ 0 → used (drop_one p) ≡ used p - 1
unfolding drop_one
used-drop_one p v ne = ground arith

pub contents-drop_one :
    (p : Pipe)
    → IsValid p
    → used p ≢ 0
    → contents p ≡ p.buf (p.nread % pipe_size) ∷ contents (drop_one p)
unfolding drop_one
contents-drop_one p v ne =
    window_pop pipe_size p.buf p.nread (used p) ne
    ∙ ap (λ ys. p.buf (p.nread % pipe_size) ∷ ys)
        (window_mod pipe_size p.buf (p.nread + 1) (drop_one p).nread (used p - 1) (omega arith)
          ∙ ap (window pipe_size p.buf (drop_one p).nread) (sym (used-drop_one p v ne)))

pub length-window : (buf : ℕ → ℕ) (h n : ℕ) → length (window pipe_size buf h n) ≡ n
length-window buf h zero = refl
length-window buf h (suc n) = ap suc (length-window buf (h + 1) n)

pub length-contents : (p : Pipe) → length (contents p) ≡ used p
length-contents p = length-window p.buf p.nread (used p)

-- The bytes of an array from an index on.
abbrev pub segment : (ℕ → ℕ) → ℕ → ℕ → List ℕ
segment src i zero = []
segment src i (suc n) = src i ∷ segment src (i + 1) n

pub wakeup-IsValid : (p : Pipe) (c : Chan) → IsValid p → IsValid (wakeup c p)
wakeup-IsValid p c v = ground arith
