-- ===== src/Cstring/Tests.antt =====
-- Runs of the string routines, and their theorems at concrete memories.
use os_cpp.Base.{ltb, ◌==◌, if◌then◌else◌, ok, ◌≡◌, refl, ◌↔◌, inl, inr, [], ◌∷◌, map, arith}
use os_cpp.Cstring.{
  Memory, memset, copy_down, memmove, memcpy, copy_string, pad, strncpy, strncmp, strlen,
}
use os_cpp.Cstring.Move.{memset_lem, memmove_lem, memcpy_lem}
use os_cpp.Cstring.Strings.{
  string_at, strncmp_iff, EndsAt, strncpy_terminated, strlen_lem, strncpy_unterminated,
}

-- "ab", its terminator, and bytes 9 from address 20 on.
abbrev memory : Memory
memory a = if a == 10 then 97 else if a == 11 then 98 else if ltb a 20 then 0 else 9

overlap : memmove 11 10 3 memory 12 ≡ 98
unfolding memmove copy_down
overlap = refl

padded : map (strncpy 20 10 5 memory) (20 ∷ 21 ∷ 22 ∷ 24 ∷ 25 ∷ []) ≡ 97 ∷ 98 ∷ 0 ∷ 0 ∷ 9 ∷ []
unfolding strncpy copy_string pad
padded = refl

memory_ends : EndsAt memory 10 2
memory_ends = (refl, λ j lt. ground arith)

memmove_lem_example : memmove 11 10 3 memory 12 ≡ 98
memmove_lem_example = memmove_lem 11 10 3 memory 12

memset_lem_example : memset 30 0x105 4 memory 33 ≡ 5
memset_lem_example = memset_lem 30 0x105 4 memory 33

memcpy_lem_example : memcpy 30 10 3 memory 31 ≡ memmove 30 10 3 memory 31
memcpy_lem_example = memcpy_lem 30 10 3 memory 31 (inr (omega arith))

strncmp_iff_example :
    ((strncmp 10 13 4 memory).0 ≡ (strncmp 10 13 4 memory).1)
    ↔ (string_at memory 10 4 ≡ string_at memory 13 4)
strncmp_iff_example = strncmp_iff 10 13 4 memory

strncpy_terminated_example : strncpy 20 10 5 memory 24 ≡ 0
strncpy_terminated_example =
    strncpy_terminated 20 10 5 2 memory 24 (omega arith) memory_ends (inl (omega arith))

-- Two bytes of a longer string: the byte behind the destination is overwritten.
strncpy_unterminated_run : strncpy 20 10 2 memory 22 ≡ 0
strncpy_unterminated_run =
    strncpy_unterminated 20 10 2 memory 22 (λ j lt. ground arith) (inl (omega arith))

strlen_lem_example : strlen 9 10 memory ≡ ok 2
strlen_lem_example = strlen_lem 9 10 2 memory (omega arith) (omega arith) memory_ends
