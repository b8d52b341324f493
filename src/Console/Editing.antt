-- ===== src/Console/Editing.antt =====
-- What `intr` does to the characters that nobody has read.
use os_cpp.Base.{
  ltb, ◌==◌, if◌then◌else◌, Bool-cases, update, ℕ, zero, suc, ◌+◌, ◌%◌, ◌^◌, ◌≤◌, ◌<◌, ◌≡◌, refl,
  ap, ◌∙◌, subst, ◌≢◌, ◌⊎◌, inl, inr, not, ◌&&◌, ◌||◌, List, [], ◌∷◌, ◌++◌, arith,
}
use os_cpp.Base.Ring.{Apart, window, window-push}
use os_cpp.Console.{
  input_buf_size, newline, end_of_file, kill_key, backspace_key, delete_key, Cons, add32, sub32,
  erase, kill_line, translate, store_char, intr,
}
use native.Mathlib.Decide.{ℕ_discrete}

-- The indices are in the order r, w, e, on the circle of 32-bit numbers, and the ring is not overrun.
pub record IsValid (c : Cons) : Type 0 where
  pub r_bound : c.r < 2 ^ 32
  pub w_bound : c.w < 2 ^ 32
  pub e_bound : c.e < 2 ^ 32
  pub order : sub32 c.w c.r ≤ sub32 c.e c.r
  pub room : sub32 c.e c.r ≤ input_buf_size

-- The characters that nobody has read, and how many of them `read` may take.
abbrev pub unread : Cons → List ℕ
unread c = window input_buf_size c.buf c.r (sub32 c.e c.r)

abbrev pub committed : Cons → ℕ
committed c = sub32 c.w c.r

erase-IsValid : (c : Cons) → IsValid c → c.e ≢ c.w → IsValid (erase c)
erase-IsValid c v ne = record {
  r_bound = v.r_bound;
  w_bound = v.w_bound;
  e_bound = omega (arith, v.e_bound);
  order = omega (arith, v.r_bound, v.w_bound, v.e_bound, v.order, v.room, ne);
  room = omega (arith, v.r_bound, v.w_bound, v.e_bound, v.order, v.room, ne);
}

kill_line-IsValid : (fuel : ℕ) (c : Cons) → IsValid c → IsValid (kill_line fuel c)
unfolding kill_line
kill_line-IsValid zero c v = v
kill_line-IsValid (suc fuel) c v =
    elim (Bool-cases (not (c.e == c.w) && not (c.buf (sub32 c.e 1 % input_buf_size) == newline))) [
      | inl q ↦
          rw (kill_line, q)
            (kill_line-IsValid fuel (erase c) (erase-IsValid c v (ground (arith, q))))
      | inr q ↦ rw (kill_line, q) v
    ]

store_char-IsValid :
    (ch : ℕ) (c : Cons) → IsValid c → sub32 c.e c.r < input_buf_size → IsValid (store_char ch c)
unfolding store_char
store_char-IsValid ch c v room =
    elim (Bool-cases
      (ch == newline || (ch == end_of_file || sub32 (add32 c.e 1) c.r == input_buf_size))) [
        | inl q ↦
            rw (store_char, q)
              (record {
                r_bound = v.r_bound;
                w_bound = omega arith;
                e_bound = omega arith;
                order = omega arith;
                room = omega (arith, v.r_bound, v.e_bound, room);
              })
        | inr q ↦
            rw (store_char, q)
              (record {
                r_bound = v.r_bound;
                w_bound = v.w_bound;
                e_bound = omega arith;
                order = omega (arith, v.r_bound, v.w_bound, v.e_bound, v.order, room);
                room = omega (arith, v.r_bound, v.e_bound, room);
              })
      ]

-- intr keeps the three indices in order and the ring within its size, for every character.
pub intr-IsValid : (ch : ℕ) (c : Cons) → IsValid c → IsValid (intr ch c)
unfolding intr
intr-IsValid ch c v = elim (Bool-cases (ch == kill_key)) [
  | inl q ↦ rw (intr, q) (kill_line-IsValid (sub32 c.e c.w) c v)
  | inr q ↦ elim (Bool-cases (ch == backspace_key || ch == delete_key)) [
    | inl p ↦ elim (Bool-cases (c.e == c.w)) [
      | inl s ↦ rw (intr, q, p, s) v
      | inr s ↦ rw (intr, q, p, s) (erase-IsValid c v (ground (arith, s)))
    ]
    | inr p ↦ elim (Bool-cases (not (ch == 0) && ltb (sub32 c.e c.r) input_buf_size)) [
      | inl s ↦ rw (intr, q, p, s) (store_char-IsValid (translate ch) c v (ground (arith, s)))
      | inr s ↦ rw (intr, q, p, s) v
    ]
  ]
]

apart : Apart input_buf_size
apart h k pos lt = omega arith

one_more :
    (c : Cons)
    → IsValid c
    → sub32 c.e c.r < input_buf_size
    → sub32 (add32 c.e 1) c.r ≡ suc (sub32 c.e c.r)
one_more c v room = omega (arith, v.r_bound, v.e_bound, room)

appended :
    (ch : ℕ) (c : Cons)
    → IsValid c
    → sub32 c.e c.r < input_buf_size
    → window input_buf_size (update c.buf (c.e % input_buf_size) ch) c.r (sub32 (add32 c.e 1) c.r)
      ≡ unread c ++ (ch ∷ [])
appended ch c v room =
    let place : c.e % input_buf_size ≡ (c.r + sub32 c.e c.r) % input_buf_size =
      omega (arith, v.r_bound, v.e_bound, room) in
    ap (window input_buf_size (update c.buf (c.e % input_buf_size) ch) c.r) (one_more c v room)
    ∙ window-push input_buf_size apart c.buf c.r (sub32 c.e c.r) (c.e % input_buf_size) ch room
        place

-- A character that is not an editing key is appended to what nobody has read, if the ring has room;
-- it makes all of it ready for read if it is a newline, ends the file or fills the ring, and leaves
-- what was ready alone otherwise.
pub store_char_lem :
    (ch : ℕ) (c : Cons)
    → IsValid c
    → sub32 c.e c.r < input_buf_size
    → (unread (store_char ch c) ≡ unread c ++ (ch ∷ []))
      × (committed (store_char ch c) ≡ (
          if ch == newline || (ch == end_of_file || suc (sub32 c.e c.r) == input_buf_size)
          then suc (sub32 c.e c.r)
          else committed c))
unfolding store_char
store_char_lem ch c v room =
    subst
      (λ n.
        (unread (store_char ch c) ≡ unread c ++ (ch ∷ []))
        × (committed (store_char ch c) ≡ (
            if ch == newline || (ch == end_of_file || n == input_buf_size)
            then n
            else committed c)))
      (one_more c v room)
      (elim (Bool-cases
        (ch == newline || (ch == end_of_file || sub32 (add32 c.e 1) c.r == input_buf_size))) [
          | inl q ↦ rw (store_char, q) (appended ch c v room, refl)
          | inr q ↦ rw (store_char, q) (appended ch c v room, refl)
        ])

kill_line_stops :
    (fuel : ℕ) (c : Cons)
    → IsValid c
    → sub32 c.e c.w ≤ fuel
    → (((kill_line fuel c).e ≡ c.w)
        ⊎ (c.buf (sub32 (kill_line fuel c).e 1 % input_buf_size) ≡ newline))
unfolding kill_line
kill_line_stops zero c v le = inl (omega (arith, v.e_bound, v.w_bound, le))
kill_line_stops (suc fuel) c v le =
    elim (Bool-cases (not (c.e == c.w) && not (c.buf (sub32 c.e 1 % input_buf_size) == newline))) [
      | inl q ↦
          let ne : c.e ≢ c.w = ground (arith, q) in
          rw (kill_line, q)
            (kill_line_stops fuel (erase c) (erase-IsValid c v ne)
              (omega (arith, v.e_bound, v.w_bound, le, ne)))
      | inr q ↦
          rw (kill_line, q)
            (elim (ℕ_discrete c.e c.w) [ yes p ↦ inl p | no ne ↦ inr (ground (arith, q)) ])
    ]

-- The line is killed back to a newline or to what is ready for read: the loop ends because no
-- further character is to be taken.
pub kill_line_ends :
    (c : Cons)
    → IsValid c
    → (((intr kill_key c).e ≡ c.w)
        ⊎ (c.buf (sub32 (intr kill_key c).e 1 % input_buf_size) ≡ newline))
unfolding intr
kill_line_ends c v = kill_line_stops (sub32 c.e c.w) c v (omega arith)
