-- ===== src/Alloc/Bytes/Chunks.antt =====
-- What the headers of an arena stand for: a list of chunks.
use native.Mathlib.Nat.{add-zero, add_assoc}
use mathlib.Core.Bool.{or_assoc}
use corrosion.Prelude.{
  ℕ, suc, ◌+◌, ◌*◌, ◌^◌, ◌≤◌, ◌<◌, ◌≡◌, refl, ◌∙◌, inl, inr, arith, Bool, false, not, ◌&&◌, ◌||◌,
  List, [], ◌∷◌, ◌++◌, ltb, leb,
}
use corrosion.Machine.{Memory, read64}
use corrosion.Machine.Words.{SameOutside, read_le-same}
use corrosion.Alloc.Flags.{header}

pub record Chunk : Type 0 where
  pub taken : Bool
  pub size : ℕ

abbrev pub chunk : Bool → ℕ → Chunk
chunk taken size = record { taken = taken; size = size }

abbrev pub Heap : Type 0
Heap = List Chunk

abbrev pub length : Heap → ℕ
length [] = 0
length (c ∷ cs) = suc (length cs)

abbrev pub total : Heap → ℕ
total [] = 0
total (c ∷ cs) = c.size + total cs

-- From `p` on, memory holds the headers of the chunks `cs`, and the last chunk ends at `t`.
abbrev pub Chunks : Memory → ℕ → ℕ → Heap → Type 0
Chunks m p t [] = p ≡ t
Chunks m p t (c ∷ cs) =
    (read64 p m ≡ header c.taken c.size)
    × (8 ≤ c.size)
    × (c.size < 2 ^ 63)
    × Chunks m (p + c.size) t cs

-- Whether the byte at `q` belongs to a free chunk.
abbrev pub in_free : ℕ → Heap → ℕ → Bool
in_free p [] q = false
in_free p (c ∷ cs) q = (not c.taken && leb p q && ltb q (p + c.size)) || in_free (p + c.size) cs q

-- Outside the free chunks, `g` has the bytes of `m`: no user's byte, and no header of a taken chunk.
abbrev pub Spares : ℕ → Heap → Memory → Memory → Type 0
Spares p cs m g = (q : ℕ) → in_free p cs q ≡ false → g q ≡ m q

pub total-Chunks : (m : Memory) (p t : ℕ) (cs : Heap) → Chunks m p t cs → p + total cs ≡ t
total-Chunks m p t [] h = omega arith
total-Chunks m p t (c ∷ cs) (_, _, _, rest) = omega (arith, total-Chunks m (p + c.size) t cs rest)

pub length-le-total :
    (m : Memory) (p t : ℕ) (cs : Heap) → Chunks m p t cs → 8 * length cs ≤ total cs
length-le-total m p t [] h = omega arith
length-le-total m p t (c ∷ cs) (_, fits, _, rest) =
    omega (arith, length-le-total m (p + c.size) t cs rest)

pub frame :
    (m g : Memory) (p t : ℕ) (cs : Heap)
    → ((q : ℕ) → p ≤ q → g q ≡ m q)
    → Chunks m p t cs
    → Chunks g p t cs
frame m g p t [] same h = h
frame m g p t (c ∷ cs) same (head, fits, small, rest) = (
  read_le-same 8 p m g (λ q lo hi. same q lo) ∙ head,
  fits,
  small,
  frame m g (p + c.size) t cs (λ q lo. same q (omega arith)) rest,
)

-- A byte before the chunks is in none of them.
pub in_free_before : (p : ℕ) (cs : Heap) (q : ℕ) → q < p → in_free p cs q ≡ false
in_free_before p [] q h = refl
in_free_before p (c ∷ cs) q h = ground (arith, in_free_before (p + c.size) cs q)

pub Chunks-append :
    (m : Memory) (p n t : ℕ) (cs ds : Heap)
    → Chunks m p n cs
    → Chunks m n t ds
    → Chunks m p t (cs ++ ds)
Chunks-append m p n t [] ds h k = rw h k
Chunks-append m p n t (c ∷ cs) ds (head, fits, small, rest) k =
    (head, fits, small, Chunks-append m (p + c.size) n t cs ds rest k)

pub Chunks-split :
    (m : Memory) (p t : ℕ) (cs ds : Heap)
    → Chunks m p t (cs ++ ds)
    → Chunks m p (p + total cs) cs × Chunks m (p + total cs) t ds
Chunks-split m p t [] ds h = (omega arith, rw (add-zero p) h)
Chunks-split m p t (c ∷ cs) ds (head, fits, small, rest) =
    let (left, right) = Chunks-split m (p + c.size) t cs ds rest in
    rw (← add_assoc p c.size (total cs)) ((head, fits, small, left), right)

-- There is room before the end where a chunk is left.
pub Chunks-lt : (m : Memory) (p t : ℕ) (c : Chunk) (cs : Heap) → Chunks m p t (c ∷ cs) → p < t
Chunks-lt m p t c cs (head, fits, small, rest) =
    omega (arith, total-Chunks m (p + c.size) t cs rest)

-- Another header for one chunk, of the same size, leaves the others as they are.
pub Chunks-reheaded :
    (m g : Memory) (p n t : ℕ) (taken : Bool) (before : Heap) (c : Chunk) (after : Heap)
    → n ≡ p + total before
    → read64 n g ≡ header taken c.size
    → SameOutside n (n + 8) m g
    → Chunks m p t (before ++ c ∷ after)
    → Chunks g p t (before ++ chunk taken c.size ∷ after)
Chunks-reheaded m g p n t taken [] c after at head same (_, large, small, rest) =
    let here : n ≡ p = omega arith in
    (
      rw (← here) head,
      large,
      small,
      frame m g (p + c.size) t after (λ q lo. same q (inr (omega arith))) rest,
    )
Chunks-reheaded m g p n t taken (b ∷ bs) c after at head same (old, large, small, rest) = (
  read_le-same 8 p m g (λ q lo hi. same q (inl (omega arith))) ∙ old,
  large,
  small,
  Chunks-reheaded m g (p + b.size) n t taken bs c after (omega arith) head same rest,
)

-- The header of a chunk in the middle.
pub Chunks-header :
    (m : Memory) (p t : ℕ) (before : Heap) (c : Chunk) (after : Heap)
    → Chunks m p t (before ++ c ∷ after)
    → read64 (p + total before) m ≡ header c.taken c.size
Chunks-header m p t before c after h = (Chunks-split m p t before (c ∷ after) h).1.0

pub Chunks-size :
    (m : Memory) (p t : ℕ) (before : Heap) (c : Chunk) (after : Heap)
    → Chunks m p t (before ++ c ∷ after)
    → (8 ≤ c.size) × (c.size < 2 ^ 63)
Chunks-size m p t before c after h =
    let (_, large, small, _) = (Chunks-split m p t before (c ∷ after) h).1 in (large, small)

pub in_free-append :
    (p : ℕ) (cs ds : Heap) (q : ℕ)
    → in_free p (cs ++ ds) q ≡ (in_free p cs q || in_free (p + total cs) ds q)
in_free-append p [] ds q = rw (add-zero p)
in_free-append p (c ∷ cs) ds q =
    rw (in_free-append (p + c.size) cs ds q, add_assoc p c.size (total cs), or_assoc)

pub total-append : (cs ds : Heap) → total (cs ++ ds) ≡ total cs + total ds
total-append [] ds = omega arith
total-append (c ∷ cs) ds = omega (arith, total-append cs ds)

-- Bytes behind a chunk's header are no part of any header.
pub Chunks-payload :
    (m g : Memory) (p n t : ℕ) (before : Heap) (c : Chunk) (after : Heap)
    → n ≡ p + total before
    → SameOutside (n + 8) (n + c.size) m g
    → Chunks m p t (before ++ c ∷ after)
    → Chunks g p t (before ++ c ∷ after)
Chunks-payload m g p n t [] c after at same (head, large, small, rest) = (
  read_le-same 8 p m g (λ q lo hi. same q (inl (omega arith))) ∙ head,
  large,
  small,
  frame m g (p + c.size) t after (λ q lo. same q (inr (omega arith))) rest,
)
Chunks-payload m g p n t (b ∷ bs) c after at same (head, large, small, rest) = (
  read_le-same 8 p m g (λ q lo hi. same q (inl (omega arith))) ∙ head,
  large,
  small,
  Chunks-payload m g (p + b.size) n t bs c after (omega arith) same rest,
)
