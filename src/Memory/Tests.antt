-- ===== src/Memory/Tests.antt =====
-- `align_val` and `memcpy` at concrete values.
use mathlib.Core.Logic.{◌↔◌}
use corrosion.Prelude.{ℕ, ◌+◌, ◌-◌, ◌*◌, ◌%◌, ◌^◌, ◌≤◌, ◌≡◌, refl, ◌⊎◌, arith, some, none}
use corrosion.Machine.{Memory, ok}
use corrosion.Memory.{align_val, memcpy}
use corrosion.Memory.Align.{align_val-least, align_val-none_iff}
use corrosion.Memory.Copy.{Copied, memcpy-Copied}

aligned : (align_val 13 3 ≡ some 16) × (align_val 16 3 ≡ some 16) × (align_val 1 64 ≡ none)
unfolding align_val
aligned = (refl, refl, refl)

align_val-least_example :
    (r : ℕ) × (align_val 13 3 ≡ some r)
    × (r % 8 ≡ 0)
    × (13 ≤ r)
    × ((q : ℕ) → 13 ≤ q * 8 → r ≤ q * 8)
align_val-least_example = align_val-least 13 3 (omega arith) (omega arith)

align_val-none_iff_example : (align_val 13 64 ≡ none) ↔ ((64 ≤ 64) ⊎ (2 ^ 64 ≤ 13 + (2 ^ 64 - 1)))
align_val-none_iff_example = align_val-none_iff 13 64

abbrev sevens : Memory
sevens q = 7

-- Of ten bytes only the first eight arrive.
memcpy-Copied_example :
    (g : Memory) × (memcpy 100 200 10 sevens ≡ ok tt g) × Copied 100 200 0 8 sevens g
memcpy-Copied_example =
    memcpy-Copied 100 200 10 sevens (omega arith) (omega arith) (λ x lo hi. omega arith)
