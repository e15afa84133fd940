-- ===== src/Alloc/Init/Tests.antt =====
-- The boot of the allocators with the machine's 128 MiB.
use corrosion.Prelude.{◌≡◌, arith}
use corrosion.Machine.{Memory, ok}
use corrosion.Alloc.Bytes.{ByteGrainAllocator}
use corrosion.Alloc.Bytes.Print.{ByteReport}
use corrosion.Alloc.Pages.{Layout}
use corrosion.Alloc.Pages.Print.{PageReport}
use corrosion.Alloc.Init.{init, debug_heap}
use corrosion.Alloc.Init.Boot.{IsLayout, Booted, init-Booted}
use corrosion.Alloc.Init.Debug.{FreshMap, init-FreshMap}

-- A kernel image and stack of 1 MiB at the start of the memory.
abbrev virt : Layout
virt = record { heap_start = 0x8010_0000; heap_size = 0x07f0_0000; memory_end = 0x8800_0000 }

virt-IsLayout : IsLayout virt
virt-IsLayout = omega arith

init-Booted_example :
    (a : ByteGrainAllocator) × (g : Memory) × (init virt (λ q. 0xff) ≡ ok a g)
    × Booted virt (λ q. 0xff) a g
init-Booted_example = init-Booted virt (λ q. 0xff) virt-IsLayout

init-FreshMap_example :
    (a : ByteGrainAllocator) × (g : Memory) × (pages : PageReport) × (bytes : ByteReport) × (init
        virt
        (λ q. 0xff)
      ≡ ok a g)
    × (debug_heap virt a 40000 g ≡ ok (pages, bytes) g)
    × FreshMap virt pages bytes
init-FreshMap_example =
    init-FreshMap virt (λ q. 0xff) 40000 virt-IsLayout (omega arith) (omega arith)
