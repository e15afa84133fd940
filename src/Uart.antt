-- ===== src/Uart.antt =====
-- uart.rs and debug.rs: the serial port. What is written to its registers is a trace, the oldest write
-- first; a formatted text is the concatenation of its parts.
pub mod Sent
mod Tests
use corrosion.Prelude.{ℕ, zero, suc, ◌+◌, ◌/◌, ◌%◌, List, [], ◌∷◌, ◌++◌, ltb, if◌then◌else◌}
use corrosion.Config.{
  Text, ascii, banner, debug, info, main, platform, step, test, test_passed, version,
}

abbrev pub Trace : Type 0
Trace = List (ℕ × ℕ)

pub record Uart : Type 0 where
  pub base_address : ℕ

abbrev pub uart : Uart
uart = record { base_address = 0x1000_0000 }

abbrev pub base : ℕ
base = 0

abbrev pub ier : ℕ
ier = 1

abbrev pub fcr : ℕ
fcr = 2

abbrev pub lcr : ℕ
lcr = 3

abbrev pub bi0 : ℕ
bi0 = 1

abbrev pub bi0a1 : ℕ
bi0a1 = 3

unfoldable pub put : Uart → ℕ → Trace → Trace
put self c w = w ++ (self.base_address + base, c) ∷ []

unfoldable pub write_str : Uart → Text → Trace → Trace
unfolding put
write_str self [] w = w
write_str self (c ∷ cs) w = write_str self cs (put self c w)

abbrev pub get_uart : Uart
get_uart = uart

-- The macros `print` and `println`, on a formatted text.
unfoldable pub print : Text → Trace → Trace
unfolding write_str
print txt w = write_str get_uart txt w

unfoldable pub println : Text → Trace → Trace
unfolding print
println txt w = print (txt ++ ascii "\r\n") w

-- `{}` of a `usize`: its decimal digits.
digits : ℕ → ℕ → Text
digits zero n = []
digits (suc fuel) n =
    let rest = digits fuel (n / 10) in
    if ltb n 10 then (48 + n) ∷ [] else rest ++ (48 + n % 10) ∷ []

-- There are fewer digits than the number and one more.
unfoldable pub decimal : ℕ → Text
unfolding digits
decimal n = digits (n + 1) n

unfoldable pub serial_info : Text → Trace → Trace
unfolding println
serial_info txt = println (ascii "  " ++ (info ++ (ascii " " ++ txt)))

unfoldable pub serial_main : Text → Trace → Trace
unfolding println
serial_main txt = println (main ++ (ascii " " ++ txt))

unfoldable pub serial_step : Text → Trace → Trace
unfolding println
serial_step txt = println (ascii "\n" ++ (step ++ (ascii " " ++ txt)))

unfoldable pub serial_test : Text → Trace → Trace
unfolding println
serial_test txt = println (ascii "  " ++ (test ++ (ascii " " ++ txt)))

unfoldable pub serial_debug : Text → Trace → Trace
unfolding println
serial_debug txt = println (ascii "\n  " ++ (debug ++ (ascii " " ++ txt)))

unfoldable pub serial_debug_text : Text → Text → Trace → Trace
unfolding println
serial_debug_text label txt =
    println (ascii "\n  " ++ (debug ++ (ascii " " ++ (label ++ (ascii ":" ++ txt)))))

unfoldable pub serial_debug_number : Text → ℕ → Trace → Trace
unfolding println decimal
serial_debug_number label num =
    println (ascii "\n  " ++ (debug ++ (ascii " " ++ (label ++ (ascii ":" ++ decimal num)))))

unfoldable pub serial_test_passed : Trace → Trace
unfolding println
serial_test_passed = println test_passed

unfoldable pub print_banner : Trace → Trace
unfolding println
print_banner = println banner

-- `Uart::init`, which the function `init` calls on the static.
unfoldable pub init : Uart → Trace → Trace
unfolding print_banner serial_main serial_step
init self w =
    let ptr = self.base_address in
    let w₁ = w ++ (ptr + lcr, bi0a1) ∷ (ptr + fcr, bi0) ∷ (ptr + ier, bi0) ∷ [] in
    serial_step (ascii "Booting...") (serial_main platform (serial_main version (print_banner w₁)))

-- `dbg`, `number` and `text` of debug.rs
unfoldable pub dbg : Text → Trace → Trace
unfolding serial_debug
dbg txt = serial_debug txt

unfoldable pub number : Text → ℕ → Trace → Trace
unfolding serial_debug_number
number label n = serial_debug_number label n

unfoldable pub text : Text → Text → Trace → Trace
unfolding serial_debug_text
text label txt = serial_debug_text label txt
