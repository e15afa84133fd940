-- ===== src/Plic/Enabled.antt =====
-- What `init` leaves in the controller's registers.
use corrosion.Prelude.{
  ℕ, zero, suc, ◌+◌, ◌-◌, ◌*◌, ◌/◌, ◌%◌, ◌^◌, ◌≤◌, ◌<◌, ◌≡◌, ◌≢◌, refl, ◌∙◌, arith, some, bit_or,
  bit_or-bit, lt→leb, inl, inr, lt-or-le,
}
use corrosion.Plic.{
  Registers, set_register, plic_priority, plic_int_enable, plic_threshold, enable, set_priority,
  set_threshold, init_loop, init,
}
use mathlib.Core.Option

-- The bits from `i` on set, one after the other.
set_bits : (left i v : ℕ) → ℕ
set_bits zero i v = v
set_bits (suc left) i v = set_bits left (i + 1) (bit_or v (2 ^ i))

-- What the rounds from `i` up to `j` do.
record Rounds (i j : ℕ) (r r' : Registers) : Type 0 where
  bits : r' plic_int_enable ≡ set_bits (j - i) i (r plic_int_enable)
  priority : (k : ℕ) → i ≤ k → k < j → r' (plic_priority + 4 * k) ≡ 1
  others :
      (q : ℕ)
      → q ≢ plic_int_enable
      → ((k : ℕ) → i ≤ k → k < j → q ≢ plic_priority + 4 * k)
      → r' q ≡ r q

init_loop-Rounds :
    (left i j : ℕ) (r : Registers)
    → i + left ≡ j
    → j ≤ 32
    → (r' : Registers) × (init_loop left i r ≡ some r') × Rounds i j r r'
unfolding init_loop enable Option.bind set_bits
init_loop-Rounds zero i j r e small =
    let none_left : j - i ≡ 0 = omega arith in
    (
      r,
      refl,
      record {
        bits = rw none_left;
        priority = λ k lo hi. absurd (omega arith);
        others = λ q ne out. refl;
      },
    )
init_loop-Rounds (suc left) i j r e small =
    let r₁ = set_register plic_int_enable (bit_or (r plic_int_enable) (2 ^ i)) r in
    let r₂ = set_priority i 1 r₁ in
    let (r', returns, rest) = init_loop-Rounds left (i + 1) j r₂ (omega arith) small in
    let more : j - i ≡ suc (j - (i + 1)) = omega arith in
    let test = lt→leb 32 i (omega arith) in
    let kept : r₂ plic_int_enable ≡ bit_or (r plic_int_enable) (2 ^ i) = ground arith in
    (
      r',
      rw test returns,
      record {
        bits = rw more (rest.bits ∙ rw kept);
        priority = λ k lo hi. elim (lt-or-le i k) [
          | inl above ↦ rest.priority k (omega arith) hi
          | inr here ↦
              let at : k ≡ i = omega arith in
              rw at (
                rest.others (plic_priority + 4 * i) (omega arith) (λ k' lo' hi' same. omega arith)
                ∙ ground arith)
        ];
        others = λ q ne out.
            rest.others q ne (λ k lo hi. out k (omega arith) hi)
            ∙ ground (arith, out i (omega arith) (omega arith));
      },
    )

set_bits-eight : (a : ℕ) → set_bits 8 1 a ≡ a / 512 * 512 + 510 + a % 2
unfolding set_bits
set_bits-eight a =
    let v₁ = bit_or a 2 in
    let v₂ = bit_or v₁ 4 in
    let v₃ = bit_or v₂ 8 in
    let v₄ = bit_or v₃ 16 in
    let v₅ = bit_or v₄ 32 in
    let v₆ = bit_or v₅ 64 in
    let v₇ = bit_or v₆ 128 in
    let e₁ : v₁ ≡ a / 4 * 4 + 2 + a % 2 = omega (arith, bit_or-bit 1 a) in
    let e₂ : v₂ ≡ a / 8 * 8 + 6 + a % 2 = omega (arith, bit_or-bit 2 v₁, e₁) in
    let e₃ : v₃ ≡ a / 16 * 16 + 14 + a % 2 = omega (arith, bit_or-bit 3 v₂, e₂) in
    let e₄ : v₄ ≡ a / 32 * 32 + 30 + a % 2 = omega (arith, bit_or-bit 4 v₃, e₃) in
    let e₅ : v₅ ≡ a / 64 * 64 + 62 + a % 2 = omega (arith, bit_or-bit 5 v₄, e₄) in
    let e₆ : v₆ ≡ a / 128 * 128 + 126 + a % 2 = omega (arith, bit_or-bit 6 v₅, e₅) in
    let e₇ : v₇ ≡ a / 256 * 256 + 254 + a % 2 = omega (arith, bit_or-bit 7 v₆, e₆) in
    omega (arith, bit_or-bit 8 v₇, e₇)

-- The eight sources are enabled at priority 1, the threshold is 0, and no other register and no
-- other bit of the enable register has changed.
pub record Ready (r r' : Registers) : Type 0 where
  pub enabled : r' plic_int_enable ≡ r plic_int_enable / 512 * 512 + 510 + r plic_int_enable % 2
  pub threshold : r' plic_threshold ≡ 0
  pub priority : (k : ℕ) → 1 ≤ k → k ≤ 8 → r' (plic_priority + 4 * k) ≡ 1
  pub others :
      (q : ℕ)
      → q ≢ plic_int_enable
      → q ≢ plic_threshold
      → ((k : ℕ) → 1 ≤ k → k ≤ 8 → q ≢ plic_priority + 4 * k)
      → r' q ≡ r q

-- `init` of the controller returns: the sources 1 to 8 are enabled at priority 1, the threshold is
-- 0, and no other register and no other bit of the enable register has changed.
pub init-Ready : (r : Registers) → (r' : Registers) × (init r ≡ some r') × Ready r r'
unfolding init
init-Ready r =
    let r₀ = set_threshold 0 r in
    let (r', returns, rounds) = init_loop-Rounds 8 1 9 r₀ (omega arith) (omega arith) in
    (
      r',
      returns,
      record {
        enabled = rounds.bits ∙ set_bits-eight (r plic_int_enable);
        threshold = rounds.others plic_threshold (omega arith) (λ k lo hi same. omega arith);
        priority = λ k lo hi. rounds.priority k lo (omega arith);
        others =
            λ q ne ne' out. rounds.others q ne (λ k lo hi. out k lo (omega arith)) ∙ ground arith;
      },
    )
