-- ===== src/Machine.antt =====
-- What the kernel's code runs on: byte-addressed memory, little-endian words in it, panics, and the
-- checked `usize` arithmetic of the dev profile that the Makefile builds.
pub mod Words
use corrosion.Prelude.{
  ℕ, zero, suc, ◌+◌, ◌-◌, ◌*◌, ◌/◌, ◌%◌, ◌^◌, Bool, Option, none, some, ltb, leb, ◌==◌,
  if◌then◌else◌,
}

abbrev pub Memory : Type 0
Memory = ℕ → ℕ

abbrev pub null : ℕ
null = 0

-- `panic` is an assertion or an overflow; `out_of_fuel` means that the model's fuel ran out.
pub data Run (A : Type 0) : Type 0 where
  ok : A → Memory → Run A
  panic : Run A
  out_of_fuel : Run A

abbrev pub Cmd : Type 0 → Type 0
Cmd A = Memory → Run A

abbrev pub pure : {A : Type 0} → A → Cmd A
pure = ok

abbrev pub lift : {A : Type 0} → Option A → Cmd A
lift none = λ m. panic
lift (some a) = ok a

module _ {A B : Type 0} where
  abbrev pub after : Run A → (A → Cmd B) → Run B
  after (ok a m) k = k a m
  after panic k = panic
  after out_of_fuel k = out_of_fuel

  infixl 5 ◌>>=◌ ◌>>◌
  abbrev pub ◌>>=◌ : Cmd A → (A → Cmd B) → Cmd B
  c >>= k = λ m. after (c m) k

  abbrev pub ◌>>◌ : Cmd A → Cmd B → Cmd B
  c >> d = c >>= λ _. d

-- A change of memory that cannot fail.
abbrev pub change : (Memory → Memory) → Cmd (Unit {0})
change f m = ok tt (f m)

unfoldable pub write8 : ℕ → ℕ → Memory → Memory
write8 a v m q = if q == a then v else m q

-- The number in `n` bytes from `a`, the lowest byte first.
unfoldable pub read_le : ℕ → ℕ → Memory → ℕ
read_le zero a m = 0
read_le (suc n) a m = m a + 256 * read_le n (a + 1) m

unfoldable pub write_le : ℕ → ℕ → ℕ → Memory → Memory
unfolding write8
write_le zero a v m = m
write_le (suc n) a v m = write8 a (v % 256) (write_le n (a + 1) (v / 256) m)

-- A `usize` or `u64` in memory.
abbrev pub read64 : ℕ → Memory → ℕ
read64 = read_le 8

abbrev pub write64 : ℕ → ℕ → Memory → Memory
write64 = write_le 8

abbrev pub u64_mod : ℕ
u64_mod = 2 ^ 64

abbrev pub not64 : ℕ → ℕ
not64 x = 2 ^ 64 - 1 - x

abbrev pub add_usize : ℕ → ℕ → Option ℕ
add_usize a b = if ltb (a + b) (2 ^ 64) then some (a + b) else none

abbrev pub sub_usize : ℕ → ℕ → Option ℕ
sub_usize a b = if leb b a then some (a - b) else none

abbrev pub mul_usize : ℕ → ℕ → Option ℕ
mul_usize a b = if ltb (a * b) (2 ^ 64) then some (a * b) else none

-- `/`, which panics on a division by zero.
abbrev pub div_usize : ℕ → ℕ → Option ℕ
div_usize a b = if b == 0 then none else some (a / b)
