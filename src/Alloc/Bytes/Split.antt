-- ===== src/Alloc/Bytes/Split.antt =====
-- What a chunk becomes when it serves a request.
use corrosion.Prelude.{
  ℕ, ◌+◌, ◌-◌, ◌≤◌, ◌≡◌, refl, arith, true, false, ◌&&◌, ltb, leb, [], ◌∷◌, Bool-cases, inl, inr,
}
use corrosion.Alloc.Bytes.TakeChunk.{split}
use corrosion.Alloc.Bytes.Used.{used}
use corrosion.Alloc.Bytes.Chunks.{chunk, Heap, total, in_free}

-- A split begins with the taken chunk; with that free again it covers what it was made of.
pub record Shape (size s : ℕ) : Type 0 where
  pub n : ℕ
  pub rest : Heap
  pub shape : split size s ≡ chunk true n ∷ rest
  pub no_block : (p : ℕ) → used p rest ≡ []
  pub enough : size ≤ n
  pub whole : n + total rest ≡ s
  pub cover : (p q : ℕ) → in_free p (chunk false n ∷ rest) q ≡ (leb p q && ltb q (p + s))

pub split-Shape : (size s : ℕ) → size ≤ s → Shape size s
split-Shape size s fits = elim (Bool-cases (ltb 8 (s - size))) [
  | inl splits ↦ record {
    n = size;
    rest = chunk false (s - size) ∷ [];
    shape = rw splits;
    no_block = λ p. refl;
    enough = omega arith;
    whole = omega arith;
    cover = λ p q. ground arith;
  }
  | inr whole ↦ record {
    n = s;
    rest = [];
    shape = rw whole;
    no_block = λ p. refl;
    enough = omega arith;
    whole = omega arith;
    cover = λ p q. ground arith;
  }
]
