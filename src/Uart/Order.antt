-- ===== src/Uart/Order.antt =====
-- No character is lost or overtaken on its way to the port.
use os_cpp.Base.{
  ◌==◌, Bool-cases, update, Returns, ℕ, suc, ◌+◌, ◌-◌, ◌%◌, ◌^◌, ◌≤◌, ◌<◌, ◌≡◌, refl, sym, ap, ◌∙◌,
  ◌≢◌, inl, inr, Bool, false, List, [], ◌∷◌, ◌++◌, arith,
}
use os_cpp.Base.Ring.{Apart, window, window_mod, window-push, window_pop}
use os_cpp.Uart.{tx_size, Uart, add64, sub64, send, start, push, putc}
use mathlib.Core.List.{append_assoc}

pub record IsValid (u : Uart) : Type 0 where
  pub w_bound : u.w < 2 ^ 64
  pub r_bound : u.r < 2 ^ 64
  pub room : sub64 u.w u.r ≤ tx_size

-- What was sent, and then what waits.
abbrev pub stream : Uart → List ℕ
stream u = u.sent ++ window tx_size u.buf u.r (sub64 u.w u.r)

send-IsValid : (u : Uart) → IsValid u → u.w ≢ u.r → IsValid (send u)
send-IsValid u v ne = record {
  w_bound = v.w_bound;
  r_bound = omega arith;
  room = omega (arith, v.w_bound, v.r_bound, v.room, ne);
}

stream-send : (u : Uart) → IsValid u → u.w ≢ u.r → stream (send u) ≡ stream u
stream-send u v ne =
    let some_wait : sub64 u.w u.r ≢ 0 = λ q. omega (arith, v.w_bound, v.r_bound, ne) in
    let fewer : sub64 u.w (add64 u.r 1) ≡ sub64 u.w u.r - 1 =
      omega (arith, v.w_bound, v.r_bound, v.room, ne) in
    append_assoc u.sent (u.buf (u.r % tx_size) ∷ []) _
    ∙ ap (λ xs. u.sent ++ (u.buf (u.r % tx_size) ∷ xs))
        (ap (window tx_size u.buf (add64 u.r 1)) fewer
          ∙ window_mod tx_size u.buf (add64 u.r 1) (u.r + 1) (sub64 u.w u.r - 1) (omega arith))
    ∙ ap (λ xs. u.sent ++ xs) (sym (window_pop tx_size u.buf u.r (sub64 u.w u.r) some_wait))

start_lem :
    (answers : List Bool) (u : Uart)
    → IsValid u
    → IsValid (start answers u) × (stream (start answers u) ≡ stream u)
unfolding start
start_lem [] u v = (v, refl)
start_lem (idle ∷ answers) u v = elim (Bool-cases (u.w == u.r)) [
  | inl q ↦ rw (start, q) (v, refl)
  | inr q ↦
      let ne : u.w ≢ u.r = ground (arith, q) in
      elim (Bool-cases idle) [
        | inl p ↦
            let (v', e) = start_lem answers (send u) (send-IsValid u v ne) in
            rw (start, q, p) (v', e ∙ stream-send u v ne)
        | inr p ↦ rw (start, q, p) (v, refl)
      ]
]

apart : Apart tx_size
apart h k pos lt = omega arith

push-IsValid : (c : ℕ) (u : Uart) → IsValid u → sub64 u.w u.r < tx_size → IsValid (push c u)
push-IsValid c u v lt = record {
  w_bound = omega arith;
  r_bound = v.r_bound;
  room = omega (arith, v.w_bound, v.r_bound, lt);
}

stream-push :
    (c : ℕ) (u : Uart)
    → IsValid u
    → sub64 u.w u.r < tx_size
    → stream (push c u) ≡ stream u ++ (c ∷ [])
stream-push c u v lt =
    let one_more : sub64 (add64 u.w 1) u.r ≡ suc (sub64 u.w u.r) =
      omega (arith, v.w_bound, v.r_bound, lt) in
    let place : u.w % tx_size ≡ (u.r + sub64 u.w u.r) % tx_size =
      omega (arith, v.w_bound, v.r_bound, lt) in
    ap (λ xs. u.sent ++ xs)
      (ap (window tx_size (update u.buf (u.w % tx_size) c) u.r) one_more
        ∙ window-push tx_size apart u.buf u.r (sub64 u.w u.r) (u.w % tx_size) c lt place)
    ∙ sym (append_assoc u.sent (window tx_size u.buf u.r (sub64 u.w u.r)) (c ∷ []))

-- With room in the ring, putc does not sleep: what was sent and what waits, taken together, is as
-- before with the new character last, whatever the port answers, and the ring is not overrun.
pub putc_lem :
    (turns : List (Uart → Uart)) (answers : List Bool) (c : ℕ) (u : Uart)
    → IsValid u
    → sub64 u.w u.r < tx_size
    → Returns (λ u'. IsValid u' × (stream u' ≡ stream u ++ (c ∷ []))) (putc turns answers c u)
unfolding putc
putc_lem turns answers c u v lt = go turns
  where
    has_room : (u.w == add64 u.r tx_size) ≡ false
    has_room = ground (arith, v.w_bound, v.r_bound, lt)

    done :
        IsValid (start answers (push c u))
        × (stream (start answers (push c u)) ≡ stream u ++ (c ∷ []))
    done =
        let (v', e) = start_lem answers (push c u) (push-IsValid c u v lt) in
        (v', e ∙ stream-push c u v lt)

    go :
        (ts : List (Uart → Uart))
        → Returns (λ u'. IsValid u' × (stream u' ≡ stream u ++ (c ∷ []))) (putc ts answers c u)
    go [] = rw (putc, has_room) done
    go (act ∷ ts) = rw (putc, has_room) done
