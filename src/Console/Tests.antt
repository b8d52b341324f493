-- ===== src/Console/Tests.antt =====
-- Runs of the console.
use os_cpp.Base.{
  ◌==◌, if◌then◌else◌, ok, ◌+◌, ◌%◌, ◌≡◌, refl, subst, ◌⊎◌, true, false, some, [], ◌∷◌, arith,
}
use os_cpp.Console.{
  input_buf_size, newline, kill_key, Cons, sub32, store_char, intr, take_char, read_loop, read,
}
use os_cpp.Console.Editing.{
  IsValid, unread, committed, intr-IsValid, store_char_lem, kill_line_ends,
}
use os_cpp.Console.Reading.{Ordinary, HasLine, read_line}

abbrev nothing_typed : Cons
nothing_typed = record { buf = λ i. 0; r = 0; w = 0; e = 0; echoed = []; wakeups = 0 }

-- 'l', then 's', at the wrap of the indices.
abbrev ls_typed : Cons
ls_typed = record {
  buf = λ i. if i == 127 then 108 else 115;
  r = 0xffffffff;
  w = 0xffffffff;
  e = 1;
  echoed = 115 ∷ 108 ∷ [];
  wakeups = 0;
}

ls_typed-IsValid : IsValid ls_typed
ls_typed-IsValid = record {
  r_bound = omega arith;
  w_bound = omega arith;
  e_bound = omega arith;
  order = omega arith;
  room = omega arith;
}

intr-IsValid_example : IsValid (intr 127 ls_typed)
intr-IsValid_example = intr-IsValid 127 ls_typed ls_typed-IsValid

delete_steps_back : (intr 127 ls_typed).e ≡ 0
unfolding intr
delete_steps_back = refl

store_char_lem_run :
    (unread (store_char 10 ls_typed) ≡ 108 ∷ 115 ∷ 10 ∷ [])
    × (committed (store_char 10 ls_typed) ≡ 3)
store_char_lem_run = store_char_lem 10 ls_typed ls_typed-IsValid (omega arith)

kill_line_ends_example :
    ((intr kill_key ls_typed).e ≡ 0xffffffff)
    ⊎ (ls_typed.buf (sub32 (intr kill_key ls_typed).e 1 % input_buf_size) ≡ newline)
kill_line_ends_example = kill_line_ends ls_typed ls_typed-IsValid

-- The line "l" is ready, and "s" is left.
abbrev line_ready : Cons
line_ready = record {
  buf = λ i. if i == 1 then 10 else 108;
  r = 0;
  w = 2;
  e = 3;
  echoed = [];
  wakeups = 1;
}

line_ready-HasLine : HasLine 1 line_ready
line_ready-HasLine = record {
  r_bound = omega arith;
  w_bound = omega arith;
  ready = omega arith;
  before = λ i lt.
      let first : 0 ≡ (0 + i) % input_buf_size = omega (arith, lt) in
      subst (λ n. Ordinary (line_ready.buf n)) first (omega arith, omega arith);
  last = refl;
}

read_line_example :
    read (λ i. true) [] 5 false line_ready ≡ ok (some (10 ∷ 108 ∷ []), record line_ready { r = 2 })
read_line_example =
    read_line (λ i. true) [] 5 1 false line_ready (λ i. refl) (omega arith) line_ready-HasLine

typed_and_read :
    read (λ i. true) [] 5 false (intr 13 (intr 115 (intr 8 (intr 108 nothing_typed))))
    ≡ ok (
      some (10 ∷ 115 ∷ []),
      record (intr 13 (intr 115 (intr 8 (intr 108 nothing_typed)))) { r = 2 },
    )
unfolding intr store_char read read_loop take_char
typed_and_read = refl
