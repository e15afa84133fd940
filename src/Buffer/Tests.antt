-- ===== src/Buffer/Tests.antt =====
-- A buffer of 10 bytes in an arena of one page.
use corrosion.Prelude.{refl, arith, false, [], ◌∷◌}
use corrosion.Machine.{Memory, write64, ◌>>=◌}
use corrosion.Machine.Words.{read_le-write_le}
use corrosion.Alloc.Bytes.{ByteGrainAllocator}
use corrosion.Alloc.Bytes.Chunks.{chunk}
use corrosion.Alloc.Bytes.Malloc.{Arena}
use corrosion.Buffer.{new, drop}
use corrosion.Buffer.Lifetime.{Dropped, drop-new}

abbrev page : ByteGrainAllocator
page = record { head = 0x2000; alloc = 1; start = 0x2000 }

abbrev blank : Memory
blank = write64 0x2000 4096 (λ q. 0xff)

blank-Arena : Arena page (chunk false 4096 ∷ []) blank
blank-Arena = record {
  chunks =
      (read_le-write_le 8 0x2000 4096 (λ q. 0xff) (omega arith), omega arith, omega arith, refl);
  bounded = omega arith;
}

drop-new_example : Dropped page 10 (chunk false 4096 ∷ []) blank ((new page 10 >>= drop page) blank)
drop-new_example = drop-new 10 blank-Arena (omega arith)
