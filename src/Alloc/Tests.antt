-- ===== src/Alloc/Tests.antt =====
-- The laws of the allocators' flags at concrete words.
use corrosion.Prelude.{◌≡◌, arith, true, false}
use corrosion.Alloc.Flags.{is_taken, get_size, set_taken, set_free, set_size, flags_independent}

flags_independent_example :
    (is_taken (set_taken 64) ≡ true)
    × (get_size (set_taken 64) ≡ get_size 64)
    × (is_taken (set_free 64) ≡ false)
    × (get_size (set_free 64) ≡ get_size 64)
    × (is_taken (set_size 80 64) ≡ is_taken 64)
    × (get_size (set_size 80 64) ≡ 80)
flags_independent_example = flags_independent 64 80 (omega arith) (omega arith)
