-- ===== src/Console/Reading.antt =====
-- What `read` takes.
use os_cpp.Base.{
  ◌==◌, ok, ℕ, zero, suc, ◌+◌, ◌-◌, ◌%◌, ◌^◌, ◌<◌, ◌≡◌, refl, ap, ◌∙◌, subst, ◌≢◌, Bool, true,
  false, some, List, [], ◌∷◌, arith,
}
use os_cpp.Base.Ring.{window, window_mod}
use os_cpp.Console.{
  done, more, input_buf_size, newline, end_of_file, Cons, add32, sub32, Turn, take_char, read_loop,
  read,
}
use mathlib.Core.Path.{ap₂}

-- A character that read passes on and goes on after.
abbrev pub Ordinary : ℕ → Type 0
Ordinary ch = (ch ≢ end_of_file) × (ch ≢ newline)

-- From the next character on there are `k` ordinary ones and a newline, and read may take them.
pub record HasLine (k : ℕ) (c : Cons) : Type 0 where
  pub r_bound : c.r < 2 ^ 32
  pub w_bound : c.w < 2 ^ 32
  pub ready : k < sub32 c.w c.r
  pub before : (i : ℕ) → i < k → Ordinary (c.buf ((c.r + i) % input_buf_size))
  pub last : c.buf ((c.r + k) % input_buf_size) ≡ newline

-- A list in reverse before another.
abbrev pub onto : List ℕ → List ℕ → List ℕ
onto [] ys = ys
onto (x ∷ xs) ys = onto xs (x ∷ ys)

abbrev pub took : ℕ → Cons → Cons
took n c = record c { r = add32 c.r n }

took-took : (k : ℕ) (c : Cons) → c.r < 2 ^ 32 → took (suc k) (took 1 c) ≡ took (suc (suc k)) c
took-took k c h = ap (λ n. record c { r = n }) (omega arith)

next-HasLine : (k : ℕ) (c : Cons) → HasLine (suc k) c → HasLine k (took 1 c)
next-HasLine k c h = record {
  r_bound = omega arith;
  w_bound = h.w_bound;
  ready = omega (arith, h.ready, h.r_bound, h.w_bound);
  before = λ i lt. subst (λ n. Ordinary (c.buf n)) (omega arith) (h.before (suc i) (omega arith));
  last = ap c.buf (omega arith) ∙ h.last;
}

take_char_newline :
    (first : Bool) (taken : List ℕ) (c : Cons)
    → HasLine 0 c
    → take_char first true taken c ≡ done (c.buf (c.r % input_buf_size) ∷ taken) (took 1 c)
unfolding take_char
take_char_newline first taken c h =
    let here : c.buf (c.r % input_buf_size) ≡ newline = ap c.buf (omega arith) ∙ h.last in
    let no_end : (c.buf (c.r % input_buf_size) == end_of_file) ≡ false = ground (arith, here) in
    let line : (c.buf (c.r % input_buf_size) == newline) ≡ true = ground (arith, here) in
    rw (take_char, no_end, line) refl

take_char_ordinary :
    (k : ℕ) (first : Bool) (taken : List ℕ) (c : Cons)
    → HasLine (suc k) c
    → take_char first true taken c ≡ more (c.buf (c.r % input_buf_size) ∷ taken) (took 1 c)
unfolding take_char
take_char_ordinary k first taken c h =
    let here : Ordinary (c.buf (c.r % input_buf_size)) =
      subst (λ n. Ordinary (c.buf n)) (omega arith) (h.before 0 (omega arith)) in
    let no_end : (c.buf (c.r % input_buf_size) == end_of_file) ≡ false = ground (arith, here.0) in
    let line : (c.buf (c.r % input_buf_size) == newline) ≡ false = ground (arith, here.1) in
    rw (take_char, no_end, line) refl

-- The line's characters are those of the line that starts one later, after the first.
taken_on :
    (k : ℕ) (taken : List ℕ) (c : Cons)
    → onto
        (window input_buf_size c.buf (add32 c.r 1) (suc k))
        (c.buf (c.r % input_buf_size) ∷ taken)
      ≡ onto (window input_buf_size c.buf c.r (suc (suc k))) taken
taken_on k taken c =
    ap (λ xs. onto xs (c.buf (c.r % input_buf_size) ∷ taken))
      (window_mod input_buf_size c.buf (add32 c.r 1) (c.r + 1) (suc k) (omega arith))

read_loop_line :
    (allowed : ℕ → Bool) (turns : List Turn) (target left k : ℕ) (killed : Bool) (taken : List ℕ)
    (c : Cons)
    → ((i : ℕ) → allowed i ≡ true)
    → k < left
    → HasLine k c
    → read_loop allowed turns target left killed taken c
      ≡ ok (some (onto (window input_buf_size c.buf c.r (suc k)) taken), took (suc k) c)
unfolding read_loop
read_loop_line allowed turns target zero k killed taken c all lt h = absurd (omega arith)
read_loop_line allowed [] target (suc left) zero killed taken c all lt h =
    let some_ready : (c.r == c.w) ≡ false = ground (arith, h.ready) in
    rw (read_loop, some_ready, all (target - suc left), take_char_newline _ taken c h) refl
read_loop_line allowed (t ∷ turns) target (suc left) zero killed taken c all lt h =
    let some_ready : (c.r == c.w) ≡ false = ground (arith, h.ready) in
    rw (read_loop, some_ready, all (target - suc left), take_char_newline _ taken c h) refl
read_loop_line allowed [] target (suc left) (suc k) killed taken c all lt h =
    let some_ready : (c.r == c.w) ≡ false = ground (arith, h.ready) in
    rw (read_loop, some_ready, all (target - suc left), take_char_ordinary k _ taken c h)
      (read_loop_line allowed [] target left k killed _ (took 1 c) all (omega arith)
          (next-HasLine k c h)
        ∙ ap₂ (λ xs c'. ok (some xs, c')) (taken_on k taken c) (took-took k c h.r_bound))
read_loop_line allowed (t ∷ turns) target (suc left) (suc k) killed taken c all lt h =
    let some_ready : (c.r == c.w) ≡ false = ground (arith, h.ready) in
    rw (read_loop, some_ready, all (target - suc left), take_char_ordinary k _ taken c h)
      (read_loop_line allowed (t ∷ turns) target left k killed _ (took 1 c) all (omega arith)
          (next-HasLine k c h)
        ∙ ap₂ (λ xs c'. ok (some xs, c')) (taken_on k taken c) (took-took k c h.r_bound))

-- When a line of `k` characters and its newline are ready, with none that ends the file among them,
-- the caller asks for more than `k` bytes and its memory takes them, read returns the line with its
-- newline at once and leaves what follows.
pub read_line :
    (allowed : ℕ → Bool) (turns : List Turn) (n k : ℕ) (killed : Bool) (c : Cons)
    → ((i : ℕ) → allowed i ≡ true)
    → k < n
    → HasLine k c
    → read allowed turns n killed c
      ≡ ok (some (onto (window input_buf_size c.buf c.r (suc k)) []), took (suc k) c)
unfolding read
read_line allowed turns n k killed c all lt h =
    read_loop_line allowed turns n n k killed [] c all lt h
