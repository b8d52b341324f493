-- ===== src/Uart/Tests.antt =====
-- Runs of the serial port.
use os_cpp.Base.{Returns, ◌≡◌, true, false, [], ◌∷◌, arith}
use os_cpp.Uart.{Uart, putc}
use os_cpp.Uart.Order.{IsValid, stream, putc_lem}

abbrev one_waits : Uart
one_waits = record { buf = λ i. 104; w = 0; r = 0xffffffffffffffff; sent = 111 ∷ []; wakeups = 0 }

one_waits-IsValid : IsValid one_waits
one_waits-IsValid = record { w_bound = omega arith; r_bound = omega arith; room = omega arith }

putc_lem_example :
    Returns
      (λ u'. IsValid u' × (stream u' ≡ 111 ∷ 104 ∷ 105 ∷ []))
      (putc [] (true ∷ false ∷ []) 105 one_waits)
putc_lem_example = putc_lem [] (true ∷ false ∷ []) 105 one_waits one_waits-IsValid (omega arith)
