-- ===== src/Alloc/Bytes/Print/Tests.antt =====
-- What is printed of an arena of one page with a taken and a free chunk.
use corrosion.Prelude.{ℕ, ◌*◌, ◌<◌, ◌≡◌, refl, arith, true, false, [], ◌∷◌}
use corrosion.Machine.{Memory, ok, write64, read_le, write_le}
use corrosion.Alloc.Bytes.{ByteGrainAllocator}
use corrosion.Alloc.Bytes.Chunks.{chunk, Heap}
use corrosion.Alloc.Bytes.Malloc.{Arena}
use corrosion.Alloc.Bytes.Used.{used}
use corrosion.Alloc.Bytes.Print.{print}
use corrosion.Alloc.Bytes.Print.Report.{byte_rows, block_bytes, byte_print_ends}

abbrev page : ByteGrainAllocator
page = record { head = 0x2000; alloc = 1; start = 0x2000 }

abbrev two : Heap
two = chunk true 0x800 ∷ chunk false 0x800 ∷ []

abbrev memory : Memory
memory = write64 0x2000 (0x8000_0000_0000_0800) (write64 0x2800 0x800 (λ q. 0xff))

memory-Arena : Arena page two memory
unfolding read_le write_le
memory-Arena = record {
  chunks = (refl, omega arith, omega arith, (refl, omega arith, omega arith, refl));
  bounded = omega arith;
}

byte_print_ends_example :
    (percent : ℕ) × (print page memory
      ≡ ok
          (record {
            rows = byte_rows 0x2000 two;
            used_bytes = block_bytes (used 0x2000 two);
            total_bytes = 1 * 4096;
            percent = percent;
          })
          memory)
    × (block_bytes (used 0x2000 two) < 1 * 4096 → percent ≡ 0)
byte_print_ends_example = byte_print_ends page two memory memory-Arena (omega arith)
