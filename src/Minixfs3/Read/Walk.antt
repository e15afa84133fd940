-- ===== src/Minixfs3/Read/Walk.antt =====
-- The zones that are present, and what a visit of one runs.
use corrosion.Prelude.{
  ℕ, zero, suc, ◌+◌, ◌^◌, ◌≤◌, ◌<◌, ◌≡◌, arith, false, ◌==◌, if◌then◌else◌, le→leb, lt→ltb, lt→leb,
  List, [], ◌∷◌,
}
use corrosion.Machine.{Memory, Cmd, ok}
use corrosion.Minixfs3.Read.{ReadState, visit, seen_block}

-- The zones that are present, in the order in which they are read.
abbrev pub present : (left i : ℕ) → (ℕ → ℕ) → List ℕ
present zero i zones = []
present (suc left) i zones =
    let rest = present left (i + 1) zones in if zones i == 0 then rest else zones i ∷ rest

abbrev pub length : List ℕ → ℕ
length [] = 0
length (z ∷ zs) = 1 + length zs

pub length-present : (left i : ℕ) (zones : ℕ → ℕ) → length (present left i zones) ≤ left
length-present zero i zones = omega arith
length-present (suc left) i zones = ground (arith, length-present left (i + 1) zones)

module _ (read_it : ReadState → Cmd ReadState) (rs : ReadState)
    (go_on : ReadState → Cmd (ℕ × ReadState)) (m : Memory) where
  pub visit-last :
      (rs₁ : ReadState) (m₁ : Memory)
      → rs.offset_block ≤ rs.blocks_seen
      → read_it rs m ≡ ok rs₁ m₁
      → rs₁.bytes_left ≡ 0
      → visit read_it rs go_on m ≡ ok (rs₁.bytes_read, rs₁) m₁
  unfolding visit
  visit-last rs₁ m₁ window step none_left =
      rw (visit, le→leb rs.offset_block rs.blocks_seen window, step, none_left)

  pub visit-more :
      (rs₁ : ReadState) (m₁ : Memory)
      → rs.offset_block ≤ rs.blocks_seen
      → read_it rs m ≡ ok rs₁ m₁
      → 0 < rs₁.bytes_left
      → rs₁.blocks_seen + 1 < 2 ^ 32
      → visit read_it rs go_on m ≡ go_on (record rs₁ { blocks_seen = rs₁.blocks_seen + 1 }) m₁
  unfolding visit seen_block
  visit-more rs₁ m₁ window step some_left fits =
      let test : (rs₁.bytes_left == 0) ≡ false = ground arith in
      rw (
        visit,
        le→leb rs.offset_block rs.blocks_seen window,
        step,
        test,
        lt→ltb (rs₁.blocks_seen + 1) (2 ^ 32) fits,
      )

  pub visit-skip :
      rs.blocks_seen < rs.offset_block
      → rs.blocks_seen + 1 < 2 ^ 32
      → visit read_it rs go_on m ≡ go_on (record rs { blocks_seen = rs.blocks_seen + 1 }) m
  unfolding visit seen_block
  visit-skip before fits = rw (
    visit,
    lt→leb rs.offset_block rs.blocks_seen before,
    lt→ltb (rs.blocks_seen + 1) (2 ^ 32) fits,
  )
