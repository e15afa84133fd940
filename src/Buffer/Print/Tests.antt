-- ===== src/Buffer/Print/Tests.antt =====
-- A buffer of three bytes at 0x100: 0x4f, 0xe9 and 0x0a.
use corrosion.Prelude.{◌≡◌, refl, arith, [], ◌++◌}
use corrosion.Machine.{Memory, write8}
use corrosion.Machine.Words.{IsBytes, write8-IsBytes}
use corrosion.Config.{ascii}
use corrosion.Uart.Sent.{sent}
use corrosion.Buffer.{Buffer}
use corrosion.Buffer.Print.{char, hex, binary, print, print_hex, print_binary}
use corrosion.Buffer.Print.Shown.{bytes_at, shown, chars, numbers, report, print-read_back}

abbrev three : Buffer
three = record { buffer = 0x100; len = 3 }

abbrev memory : Memory
memory = write8 0x100 0x4f (write8 0x101 0xe9 (write8 0x102 0x0a (λ q. 0)))

memory-IsBytes : IsBytes memory
memory-IsBytes = write8-IsBytes 0x100 0x4f _ (omega arith) (
    write8-IsBytes 0x101 0xe9 _ (omega arith)
      (write8-IsBytes 0x102 0x0a (λ q. 0) (omega arith) (λ q. omega arith)))

hex_text : shown hex 0x100 3 memory ≡ ascii "4f e9 0a "
unfolding write8
hex_text = refl

binary_text : shown binary 0x100 2 memory ≡ ascii "01001111 11101001 "
unfolding write8
binary_text = refl

print-read_back_example :
    ((print three memory [] ≡ [] ++ sent (report char three memory))
      × (chars 0 (shown char 0x100 3 memory) ≡ bytes_at 0x100 3 memory))
    × ((print_hex three memory [] ≡ [] ++ sent (report hex three memory))
        × (numbers 16 0 (shown hex 0x100 3 memory) ≡ bytes_at 0x100 3 memory))
    × ((print_binary three memory [] ≡ [] ++ sent (report binary three memory))
        × (numbers 2 0 (shown binary 0x100 3 memory) ≡ bytes_at 0x100 3 memory))
print-read_back_example = print-read_back three memory [] memory-IsBytes
