-- ===== src/Alloc/Bytes/Find.antt =====
-- The chunk of a block in use.
use corrosion.Prelude.{
  ℕ, ◌+◌, ◌≡◌, refl, sym, ap, ◌∙◌, arith, Bool, true, false, if◌then◌else◌, Bool-cases, inl, inr,
  List, [], ◌∷◌, ◌++◌,
}
use corrosion.Alloc.Bytes.Chunks.{Chunk, chunk, Heap, total}
use corrosion.Alloc.Bytes.Used.{used}

-- The heap has the chunk of the block `(h, n)` between those before and behind it.
pub record Found (p : ℕ) (cs : Heap) (xs : List (ℕ × ℕ)) (h n : ℕ) (ys : List (ℕ × ℕ))
    : Type 0 where
  pub before : Heap
  pub after : Heap
  pub chunks : cs ≡ before ++ chunk true n ∷ after
  pub place : p + total before ≡ h
  pub blocks : used p before ++ used (h + n) after ≡ xs ++ ys

Found-cons :
    (p : ℕ) (c : Chunk) (cs : Heap) (xs xs' : List (ℕ × ℕ)) (h n : ℕ) (ys : List (ℕ × ℕ))
    → Found (p + c.size) cs xs h n ys
    → ((bs : List (ℕ × ℕ)) → bs ≡ xs ++ ys → (if c.taken then (p, c.size) ∷ bs else bs) ≡ xs' ++ ys)
    → Found p (c ∷ cs) xs' h n ys
Found-cons p c cs xs xs' h n ys r first = record {
  before = c ∷ r.before;
  after = r.after;
  chunks = ap (λ t. c ∷ t) r.chunks;
  place = omega (arith, r.place);
  blocks = by_taken c.taken ∙ first _ r.blocks;
}
  where
    by_taken :
        (taken : Bool)
        → (let rest = used (p + c.size) r.before in if taken then (p, c.size) ∷ rest else rest)
            ++ used (h + n) r.after
          ≡ (let rest = used (p + c.size) r.before ++ used (h + n) r.after in
              if taken then (p, c.size) ∷ rest else rest)
    by_taken true = refl
    by_taken false = refl

used_cons :
    (p : ℕ) (c : Chunk) (cs : Heap)
    → c.taken ≡ true
    → used p (c ∷ cs) ≡ (p, c.size) ∷ used (p + c.size) cs
used_cons p c cs taken = rw taken refl

used_skip :
    (p : ℕ) (c : Chunk) (cs : Heap) → c.taken ≡ false → used p (c ∷ cs) ≡ used (p + c.size) cs
used_skip p c cs free = rw free refl

pub used-Found :
    (p : ℕ) (cs : Heap) (xs : List (ℕ × ℕ)) (h n : ℕ) (ys : List (ℕ × ℕ))
    → used p cs ≡ xs ++ (h, n) ∷ ys
    → Found p cs xs h n ys
used-Found p [] [] h n ys e = absurd cc
used-Found p [] (x ∷ xs) h n ys e = absurd cc
used-Found p (c ∷ cs) [] h n ys e = elim (Bool-cases c.taken) [
  | inr free ↦
      let rest = sym (used_skip p c cs free) ∙ e in
      Found-cons p c cs [] [] h n ys (used-Found (p + c.size) cs [] h n ys rest)
        (λ bs same. rw free same)
  | inl taken ↦
      let both : (p, c.size) ∷ used (p + c.size) cs ≡ (h, n) ∷ ys =
        sym (used_cons p c cs taken) ∙ e in
      let place : p ≡ h = cc in
      let size : c.size ≡ n = cc in
      let rest : used (p + c.size) cs ≡ ys = cc in
      let is : c ≡ chunk true n =
        ap (λ t. record { taken = t; size = c.size }) taken ∙ ap (λ t. chunk true t) size in
      record {
        before = [];
        after = cs;
        chunks = ap (λ t. t ∷ cs) is;
        place = omega (arith, place);
        blocks = rw (sym place, sym size) rest;
      }
]
used-Found p (c ∷ cs) (x ∷ xs) h n ys e = elim (Bool-cases c.taken) [
  | inr free ↦
      let rest = sym (used_skip p c cs free) ∙ e in
      Found-cons p c cs (x ∷ xs) (x ∷ xs) h n ys (used-Found (p + c.size) cs (x ∷ xs) h n ys rest)
        (λ bs same. rw free same)
  | inl taken ↦
      let both : (p, c.size) ∷ used (p + c.size) cs ≡ x ∷ (xs ++ (h, n) ∷ ys) =
        sym (used_cons p c cs taken) ∙ e in
      let first : (p, c.size) ≡ x = cc in
      let rest : used (p + c.size) cs ≡ xs ++ (h, n) ∷ ys = cc in
      Found-cons p c cs xs (x ∷ xs) h n ys (used-Found (p + c.size) cs xs h n ys rest)
        (λ bs same. rw taken (ap (λ t. (p, c.size) ∷ t) same ∙ ap (λ t. t ∷ (xs ++ ys)) first))
]
