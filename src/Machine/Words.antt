-- ===== src/Machine/Words.antt =====
-- Reads after writes of words, and what a write leaves alone.
use corrosion.Prelude.{
  ℕ, zero, suc, ◌+◌, ◌*◌, ◌/◌, ◌^◌, ◌≤◌, ◌<◌, ◌≡◌, refl, ◌≢◌, ◌⊎◌, inl, inr, arith, lt-or-le, ◌-◌,
}
use corrosion.Machine.{Memory, write8, read_le, write_le}
use native.Mathlib.Nat.{pow-suc, add-zero, add_assoc}

-- `g` and `m` hold the same bytes outside `[lo, hi)`.
abbrev pub SameOutside : ℕ → ℕ → Memory → Memory → Type 0
SameOutside lo hi m g = (q : ℕ) → (q < lo) ⊎ (hi ≤ q) → g q ≡ m q

pub write8_self : (a v : ℕ) (m : Memory) → write8 a v m a ≡ v
unfolding write8
write8_self a v m = ground arith

pub write8-ne : (a v : ℕ) (m : Memory) (q : ℕ) → q ≢ a → write8 a v m q ≡ m q
unfolding write8
write8-ne a v m q ne = ground arith

pub read_le-same :
    (n a : ℕ) (m g : Memory)
    → ((q : ℕ) → a ≤ q → q < a + n → g q ≡ m q)
    → read_le n a g ≡ read_le n a m
unfolding read_le
read_le-same zero a m g same = refl
read_le-same (suc n) a m g same =
    ground
      (arith, same a, read_le-same n (a + 1) m g (λ q lo hi. same q (omega arith) (omega arith)))

-- A word whose bytes have been copied.
pub read_le-moved :
    (n a b : ℕ) (m g : Memory)
    → ((j : ℕ) → j < n → g (a + j) ≡ m (b + j))
    → read_le n a g ≡ read_le n b m
unfolding read_le
read_le-moved zero a b m g same = refl
read_le-moved (suc n) a b m g same =
    let first : g (a + 0) ≡ m (b + 0) = same 0 (omega arith) in
    let rest =
      read_le-moved n (a + 1) (b + 1) m g
        λ j lt. rw (add_assoc a 1 j, add_assoc b 1 j) (same (1 + j) (omega arith)) in
    ground (arith, first, rest, add-zero a, add-zero b)

pub write_le-outside : (n a v : ℕ) (m : Memory) → SameOutside a (a + n) m (write_le n a v m)
unfolding write_le
write_le-outside zero a v m q out = refl
write_le-outside (suc n) a v m q (inl lo) =
    ground (arith, write_le-outside n (a + 1) (v / 256) m q (inl (omega arith)))
write_le-outside (suc n) a v m q (inr hi) =
    ground (arith, write_le-outside n (a + 1) (v / 256) m q (inr (omega arith)))

pub read_le-write_le : (n a v : ℕ) (m : Memory) → v < 256 ^ n → read_le n a (write_le n a v m) ≡ v
unfolding read_le write_le
read_le-write_le zero a v m fits = omega arith
read_le-write_le (suc n) a v m fits = ground (
  arith,
  read_le-same n (a + 1) (write_le n (a + 1) (v / 256) m) (write_le (suc n) a v m)
      (λ q lo hi. ground arith),
  read_le-write_le n (a + 1) (v / 256) m (omega (arith, pow-suc 256 n)),
)

-- Words that do not overlap are independent.
pub read_le-write_le_apart :
    (n k a b v : ℕ) (m : Memory)
    → (b + n ≤ a) ⊎ (a + k ≤ b)
    → read_le n b (write_le k a v m) ≡ read_le n b m
read_le-write_le_apart n k a b v m (inl lo) =
    read_le-same n b m (write_le k a v m) (λ q p r. write_le-outside k a v m q (inl (omega arith)))
read_le-write_le_apart n k a b v m (inr hi) =
    read_le-same n b m (write_le k a v m) (λ q p r. write_le-outside k a v m q (inr (omega arith)))

-- Memory of bytes: every word read is within its width.
abbrev pub IsBytes : Memory → Type 0
IsBytes m = (q : ℕ) → m q < 256

pub read_le-lt : (n a : ℕ) (m : Memory) → IsBytes m → read_le n a m < 256 ^ n
unfolding read_le
read_le-lt zero a m bytes = omega arith
read_le-lt (suc n) a m bytes = omega (arith, bytes a, pow-suc 256 n, read_le-lt n (a + 1) m bytes)

pub write8-IsBytes : (a v : ℕ) (m : Memory) → v < 256 → IsBytes m → IsBytes (write8 a v m)
unfolding write8
write8-IsBytes a v m fits bytes q = ground (arith, bytes q)

pub write_le-IsBytes : (n a v : ℕ) (m : Memory) → IsBytes m → IsBytes (write_le n a v m)
unfolding write_le
write_le-IsBytes zero a v m bytes = bytes
write_le-IsBytes (suc n) a v m bytes =
    write8-IsBytes a _ _ (omega arith) (write_le-IsBytes n (a + 1) (v / 256) m bytes)

-- A word read at `b` and written at `a` moves each of its bytes.
pub write_le-read_le :
    (n a b : ℕ) (m g : Memory) (q : ℕ)
    → ((x : ℕ) → b ≤ x → x < b + n → m x < 256)
    → a ≤ q
    → q < a + n
    → write_le n a (read_le n b m) g q ≡ m (b + (q - a))
unfolding read_le write_le
write_le-read_le zero a b m g q bytes lo hi = absurd (omega arith)
write_le-read_le (suc n) a b m g q bytes lo hi =
    let first : m b < 256 = bytes b (omega arith) (omega arith) in
    let tail : (m b + 256 * read_le n (b + 1) m) / 256 ≡ read_le n (b + 1) m =
      omega (arith, first) in
    elim (lt-or-le a q) [
      | inl more ↦
          let rest =
            write_le-read_le n (a + 1) (b + 1) m g q
              (λ x lo' hi'. bytes x (omega arith) (omega arith)) (omega arith) (omega arith) in
          ground (arith, tail, rest)
      | inr here ↦ ground (arith, first)
    ]
