-- ===== src/Alloc/Bytes/Tests.antt =====
-- Runs of the byte-grain allocator on an arena of one page, and its theorems there.
use corrosion.Prelude.{◌+◌, ◌-◌, ◌^◌, ◌≡◌, refl, arith, true, false, [], ◌∷◌}
use corrosion.Machine.{Memory, Run, ok, panic, out_of_fuel, write64, read_le, write_le}
use corrosion.Machine.Words.{read_le-write_le}
use corrosion.Memory.{align_val}
use corrosion.Alloc.Flags.{is_free, set_taken, set_free, set_size, get_size}
use corrosion.Alloc.Bytes.{ByteGrainAllocator, kmalloc, kzmalloc, kfree, coalesce}
use corrosion.Alloc.Bytes.Chunks.{chunk, Heap, Spares, total}
use corrosion.Alloc.Bytes.Malloc.{Arena, Outcome, kmalloc-Outcome, kmalloc_panics}
use corrosion.Alloc.Bytes.Coalesce.{Merged, coalesce-Merged}
use corrosion.Alloc.Bytes.Free.{Freed, kfree-Freed}
use corrosion.Alloc.Bytes.Used.{OneMore, kmalloc-OneMore, used, kfree-OneLess}
use corrosion.Alloc.Bytes.RoundTrip.{Restored, kfree-kmalloc}
use corrosion.Alloc.Bytes.Zeroed.{ZeroedOutcome, kzmalloc-ZeroedOutcome}

abbrev page : ByteGrainAllocator
page = record { head = 0x2000; alloc = 1; start = 0x2000 }

abbrev blank : Memory
blank = write64 0x2000 4096 (λ q. 0xff)

abbrev all_free : Heap
all_free = chunk false 4096 ∷ []

blank-Arena : Arena page all_free blank
blank-Arena = record {
  chunks =
      (read_le-write_le 8 0x2000 4096 (λ q. 0xff) (omega arith), omega arith, omega arith, refl);
  bounded = omega arith;
}

abbrev memory_of : {A : Type 0} → Run A → Memory
memory_of (ok a m) = m
memory_of panic = λ q. 0
memory_of out_of_fuel = λ q. 0

abbrev first : Memory
first = memory_of (kmalloc page 10 blank)

-- A request of 10 bytes is served behind the first header.
first_returns : kmalloc page 10 blank ≡ ok 0x2008 first
unfolding kmalloc align_val is_free get_size set_taken set_free set_size read_le write_le
first_returns = refl

kmalloc-Outcome_example : Outcome 24 0x2000 0x3000 all_free blank (kmalloc page 10 blank)
kmalloc-Outcome_example = kmalloc-Outcome blank-Arena 10 (omega arith)

kmalloc_panics_example : kmalloc page (2 ^ 64 - 10) blank ≡ panic
kmalloc_panics_example = kmalloc_panics page (2 ^ 64 - 10) blank (omega arith) (omega arith)

kmalloc-OneMore_example : OneMore page 24 all_free blank first 0x2008
kmalloc-OneMore_example = kmalloc-OneMore 10 blank-Arena (omega arith) first_returns (omega arith)

kfree-kmalloc_example : Restored page all_free blank (kfree page 0x2008 first)
kfree-kmalloc_example = kfree-kmalloc 10 blank-Arena (omega arith) first_returns (omega arith)

kzmalloc-ZeroedOutcome_example :
    ZeroedOutcome 10 0x2000 0x3000 all_free blank (kzmalloc page 10 blank)
kzmalloc-ZeroedOutcome_example = kzmalloc-ZeroedOutcome 10 blank-Arena (omega arith)

-- Three chunks, of which the middle one is taken.
abbrev three : Memory
three = write64 0x2000 64 (write64 0x2040 (2 ^ 63 + 128) (write64 0x20c0 3904 (λ q. 0xff)))

abbrev three_chunks : Heap
three_chunks = chunk false 64 ∷ chunk true 128 ∷ chunk false 3904 ∷ []

three-Arena : Arena page three_chunks three
unfolding read_le write_le
three-Arena = record {
  chunks = (
    refl,
    omega arith,
    omega arith,
    (refl, omega arith, omega arith, (refl, omega arith, omega arith, refl)),
  );
  bounded = omega arith;
}

kfree-Freed_example :
    Freed page
      (chunk false 64 ∷ [])
      (chunk true 128)
      (chunk false 3904 ∷ [])
      three
      (kfree page 0x2048 three)
kfree-Freed_example =
    kfree-Freed page (chunk false 64 ∷ []) (chunk true 128) (chunk false 3904 ∷ []) three
      three-Arena

kfree-OneLess_example :
    (cs : Heap) × (g : Memory) × (kfree page 0x2048 three ≡ ok tt g)
    × Arena page cs g
    × (used 0x2000 three_chunks ≡ (0x2040, 128) ∷ [])
    × (used 0x2000 cs ≡ [])
    × (total cs ≡ 4096)
    × Spares 0x2000 (chunk false 64 ∷ chunk false 128 ∷ chunk false 3904 ∷ []) three g
kfree-OneLess_example =
    kfree-OneLess page (chunk false 64 ∷ []) 128 (chunk false 3904 ∷ []) three three-Arena

coalesce-Merged_example : Merged 0x2000 0x3000 three_chunks three (coalesce page three)
coalesce-Merged_example = coalesce-Merged three-Arena
