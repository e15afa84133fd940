-- ===== src/Alloc/Bytes/Data.antt =====
-- The bytes that the users of the arena of alloc.rs may write: those behind the headers of the blocks
-- in use.
use mathlib.Core.Bool.{or_assoc}
use corrosion.Prelude.{
  ℕ, ◌+◌, ◌≤◌, ◌<◌, ◌≡◌, ◌⊎◌, refl, ◌∙◌, inl, inr, arith, Bool, true, false, ◌&&◌, ◌||◌, List, [],
  ◌∷◌, ◌++◌, ltb, leb, Bool-cases,
}
use corrosion.Machine.{Memory}
use corrosion.Machine.Words.{read_le-same}
use corrosion.Alloc.Bytes.Chunks.{total, Heap, Chunks, in_free, in_free_before, total-Chunks}
use corrosion.Alloc.Bytes.Used.{used}

-- Whether the byte at `q` is behind the header of one of the blocks.
abbrev pub holds : List (ℕ × ℕ) → ℕ → Bool
holds [] q = false
holds ((p, n) ∷ bs) q = (leb (p + 8) q && ltb q (p + n)) || holds bs q

pub holds-append : (xs ys : List (ℕ × ℕ)) (q : ℕ) → holds (xs ++ ys) q ≡ (holds xs q || holds ys q)
holds-append [] ys q = refl
holds-append ((p, n) ∷ xs) ys q =
    rw (holds-append xs ys q, or_assoc (leb (p + 8) q && ltb q (p + n)) (holds xs q) (holds ys q))

-- One more block takes no byte from the others.
pub holds_more :
    (xs ys : List (ℕ × ℕ)) (p n q : ℕ)
    → holds (xs ++ ys) q ≡ true
    → holds (xs ++ (p, n) ∷ ys) q ≡ true
holds_more xs ys p n q h = ground (arith, holds-append xs ys q, holds-append xs ((p, n) ∷ ys) q, h)

pub holds_new :
    (xs ys : List (ℕ × ℕ)) (p n q : ℕ) → p + 8 ≤ q → q < p + n → holds (xs ++ (p, n) ∷ ys) q ≡ true
holds_new xs ys p n q lo hi = ground (arith, holds-append xs ((p, n) ∷ ys) q)

-- A byte that is held is behind the first header of the arena.
pub holds_from : (p : ℕ) (cs : Heap) (q : ℕ) → holds (used p cs) q ≡ true → p + 8 ≤ q
holds_from p [] q h = absurd (ground (arith, h))
holds_from p (c ∷ cs) q h = elim (Bool-cases c.taken) [
  | inl taken ↦ elim (Bool-cases (leb (p + 8) q)) [
    | inl le ↦ ground arith
    | inr gt ↦
        let later : holds (used (p + c.size) cs) q ≡ true = ground (arith, h, taken) in
        omega (arith, holds_from (p + c.size) cs q later)
  ]
  | inr free ↦
      let later : holds (used (p + c.size) cs) q ≡ true = ground (arith, h, free) in
      omega (arith, holds_from (p + c.size) cs q later)
]

-- No byte that is held is free.
pub holds-spared : (p : ℕ) (cs : Heap) (q : ℕ) → holds (used p cs) q ≡ true → in_free p cs q ≡ false
holds-spared p [] q h = refl
holds-spared p (c ∷ cs) q h = elim (Bool-cases (holds (used (p + c.size) cs) q)) [
  | inl later ↦
      let from = holds_from (p + c.size) cs q later in
      ground (arith, holds-spared (p + c.size) cs q later, from)
  | inr here ↦ elim (Bool-cases c.taken) [
    | inl taken ↦
        let inside : q < p + c.size = ground (arith, h, taken, here) in
        ground (arith, taken, in_free_before (p + c.size) cs q inside)
    | inr free ↦ absurd (ground (arith, h, free, here))
  ]
]

-- Writing the bytes that are held changes no header.
pub Chunks-data :
    (m g : Memory) (p t : ℕ) (cs : Heap)
    → ((q : ℕ) → p ≤ q → q < t → holds (used p cs) q ≡ false → g q ≡ m q)
    → Chunks m p t cs
    → Chunks g p t cs
Chunks-data m g p t [] same h = h
Chunks-data m g p t (c ∷ cs) same (head, large, small, rest) =
    let end = total-Chunks m (p + c.size) t cs rest in
    (
      read_le-same 8 p m g (λ q lo hi.
            same q lo (omega (arith, end, large)) (elim (Bool-cases (holds (used p (c ∷ cs)) q)) [
              | inl held ↦ absurd (omega (arith, holds_from p (c ∷ cs) q held))
              | inr none ↦ none
            ]))
          ∙ head,
      large,
      small,
      Chunks-data m g (p + c.size) t cs
          (λ q lo hi out. same q (omega arith) hi (elim (Bool-cases c.taken) [
            | inl taken ↦ ground (arith, taken, out)
            | inr free ↦ ground (arith, free, out)
          ]))
          rest,
    )

-- A byte that is held is before the end of the arena.
pub holds_below : (p : ℕ) (cs : Heap) (q : ℕ) → holds (used p cs) q ≡ true → q < p + total cs
holds_below p [] q h = absurd (ground (arith, h))
holds_below p (c ∷ cs) q h = elim (Bool-cases (holds (used (p + c.size) cs) q)) [
  | inl later ↦ omega (arith, holds_below (p + c.size) cs q later)
  | inr here ↦ elim (Bool-cases c.taken) [
    | inl taken ↦
        let inside : q < p + c.size = ground (arith, h, taken, here) in omega (arith, inside)
    | inr free ↦ absurd (ground (arith, h, free, here))
  ]
]

-- A byte held by the blocks on both sides of a chunk is not in the chunk.
pub holds_beside :
    (p : ℕ) (before : Heap) (n : ℕ) (rest : Heap) (q : ℕ)
    → holds (used p before ++ used (p + total before + n) rest) q ≡ true
    → (q < p + total before) ⊎ (p + total before + n ≤ q)
holds_beside p before n rest q h = elim (Bool-cases (holds (used p before) q)) [
  | inl left ↦ inl (holds_below p before q left)
  | inr right ↦
      let behind : holds (used (p + total before + n) rest) q ≡ true =
        ground
          (arith, holds-append (used p before) (used (p + total before + n) rest) q, h, right) in
      inr (omega (arith, holds_from (p + total before + n) rest q behind))
]
