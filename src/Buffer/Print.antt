-- ===== src/Buffer/Print.antt =====
-- The three functions of buffer.rs that print a buffer, whose output goes to the trace of uart.rs.
pub mod Shown
mod Tests
use corrosion.Prelude.{ℕ, zero, suc, ◌+◌, ◌/◌, ◌%◌, [], ◌∷◌, ◌++◌, ltb, if◌then◌else◌}
use corrosion.Machine.{Memory}
use corrosion.Config.{Text, ascii}
use corrosion.Uart
use corrosion.Uart.{Trace, println, decimal}
use corrosion.Buffer.{Buffer}

-- `as char`, in UTF-8: two bytes from 128 on.
abbrev pub char : ℕ → Text
char c = if ltb c 128 then c ∷ [] else (192 + c / 64) ∷ (128 + c % 64) ∷ []

abbrev pub digit : ℕ → ℕ
digit d = if ltb d 10 then 48 + d else 87 + d

-- `{:02x} ` and `{:08b} ` of a byte
abbrev pub hex : ℕ → Text
hex b = digit (b / 16) ∷ digit (b % 16) ∷ 32 ∷ []

abbrev pub binary : ℕ → Text
binary b =
    digit (b / 128)
    ∷ digit (b / 64 % 2)
    ∷ digit (b / 32 % 2)
    ∷ digit (b / 16 % 2)
    ∷ digit (b / 8 % 2)
    ∷ digit (b / 4 % 2)
    ∷ digit (b / 2 % 2)
    ∷ digit (b % 2)
    ∷ 32
    ∷ []

-- The loop of the three, over the bytes from `p` on.
unfoldable pub each : (ℕ → Text) → (p n : ℕ) → Memory → Trace → Trace
each format p zero m w = w
each format p (suc n) m w = each format (p + 1) n m (Uart.print (format (m p)) w)

unfoldable pub print_as : (ℕ → Text) → Buffer → Memory → Trace → Trace
unfolding each
print_as format self m w =
    println [] (each format self.buffer self.len m (println (ascii "len: " ++ decimal self.len) w))

unfoldable pub print : Buffer → Memory → Trace → Trace
unfolding print_as
print = print_as char

unfoldable pub print_hex : Buffer → Memory → Trace → Trace
unfolding print_as
print_hex = print_as hex

unfoldable pub print_binary : Buffer → Memory → Trace → Trace
unfolding print_as
print_binary = print_as binary
