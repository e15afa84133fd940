-- ===== src/Minixfs3/Read/Chain.antt =====
-- Which zones a file has, and where the four buffers of a read are.
use mathlib.Core.List.{flat_map}
use corrosion.Minixfs3.Read.Driver.{Driver}
use corrosion.Prelude.{
  ℕ, ◌+◌, ◌*◌, ◌^◌, ◌≤◌, ◌<◌, ◌≡◌, ◌⊎◌, inl, inr, ◌∙◌, arith, Bool, true, false, ◌&&◌, ◌||◌, leb,
  ltb, ◌==◌, List, [], ◌∷◌, ◌++◌, if◌then◌else◌, lt-or-le,
}
use corrosion.Machine.{Memory}
use corrosion.Minixfs3.{Inode}
use corrosion.Minixfs3.Read.{BlockRead, ReadState}
use corrosion.Minixfs3.Read.Data.{Reads}
use corrosion.Minixfs3.Read.Serve.{Apart, Touched}
use corrosion.Minixfs3.Read.Loops.{zone_number, Holds}
use corrosion.Minixfs3.Read.Walk.{present}

abbrev pub Small : ℕ → Type 0
Small z = z * 1024 < 2 ^ 32

-- What the inode's `n`th zone leads to, if it is present.
abbrev pub of : Inode → ℕ → (ℕ → List ℕ) → List ℕ
of inode n leads = if inode.zones n == 0 then [] else leads (inode.zones n)

-- `P` holds of each number in a list.
abbrev pub All : (ℕ → Type 0) → List ℕ → Type 0
All P [] = Unit {0}
All P (z ∷ zs) = P z × All P zs

pub All-of :
    (P : ℕ → Type 0) (inode : Inode) (n : ℕ) (leads : ℕ → List ℕ)
    → (inode.zones n == 0) ≡ false
    → All P (of inode n leads)
    → All P (leads (inode.zones n))
All-of P inode n leads there all = rw there at all

-- The data zones that a block of zone numbers leads to, and those of blocks of such blocks.
module _ (disk : ℕ → ℕ) where
  unfoldable pub single : ℕ → List ℕ
  single z = present 256 0 (zone_number disk z)

  unfoldable pub double : ℕ → List ℕ
  unfolding single
  double z = flat_map single (single z)

  unfoldable pub triple : ℕ → List ℕ
  unfolding double
  triple z = flat_map double (single z)

  -- The file's data zones, in order.
  abbrev pub file_zones : Inode → List ℕ
  file_zones inode =
      present 7 0 inode.zones ++ (of inode 7 single ++ (of inode 8 double ++ of inode 9 triple))

  -- The blocks of zone numbers are on the disk.
  pub record Linked (inode : Inode) : Type 0 where
    pub first : (n : ℕ) → 7 ≤ n → n ≤ 9 → Small (inode.zones n)
    pub double_indirect : All Small (of inode 8 single)
    pub triple_indirect : All (λ z. Small z × All Small (single z)) (of inode 9 single)

abbrev pub in_block : ℕ → ℕ → Bool
in_block p q = leb p q && ltb q (p + 1024)

-- The bytes of the four buffers of a read.
abbrev pub scratch : ReadState → ℕ → Bool
scratch rs q =
    in_block rs.direct_buffer.buffer q
    || (in_block rs.indirect_buffer.buffer q
        || (in_block rs.double_indirect_buffer.buffer q
            || in_block rs.triple_indirect_buffer.buffer q))

abbrev Around : ℕ → ℕ → Type 0
Around p q = (q < p) ⊎ (p + 1024 ≤ q)

-- What is none of the four is outside each of them.
pub spare_direct :
    (rs : ReadState) (q : ℕ) → scratch rs q ≡ false → Around rs.direct_buffer.buffer q
spare_direct rs q h = ground arith

pub spare_indirect :
    (rs : ReadState) (q : ℕ) → scratch rs q ≡ false → Around rs.indirect_buffer.buffer q
spare_indirect rs q h = ground arith

pub spare_double :
    (rs : ReadState) (q : ℕ) → scratch rs q ≡ false → Around rs.double_indirect_buffer.buffer q
spare_double rs q h = ground arith

pub spare_triple :
    (rs : ReadState) (q : ℕ) → scratch rs q ≡ false → Around rs.triple_indirect_buffer.buffer q
spare_triple rs q h = ground arith

-- The buffers that hold zone numbers are among the four.
pub mine_indirect :
    (rs : ReadState) (q : ℕ)
    → rs.indirect_buffer.buffer ≤ q
    → q < rs.indirect_buffer.buffer + 1024
    → scratch rs q ≡ true
mine_indirect rs q lo hi = ground arith

pub mine_double :
    (rs : ReadState) (q : ℕ)
    → rs.double_indirect_buffer.buffer ≤ q
    → q < rs.double_indirect_buffer.buffer + 1024
    → scratch rs q ≡ true
mine_double rs q lo hi = ground arith

pub mine_triple :
    (rs : ReadState) (q : ℕ)
    → rs.triple_indirect_buffer.buffer ≤ q
    → q < rs.triple_indirect_buffer.buffer + 1024
    → scratch rs q ≡ true
mine_triple rs q lo hi = ground arith

abbrev pub Disjoint : ℕ → ℕ → Type 0
Disjoint p q = (p + 1024 ≤ q) ⊎ (q + 1024 ≤ p)

-- Four buffers that do not overlap and are no memory of the driver's, nor of the reader's buffer.
pub record Separate (own : Driver) (buffer total : ℕ) (rs : ReadState) : Type 0 where
  pub izones : rs.izones ≡ rs.indirect_buffer.buffer
  pub iizones : rs.iizones ≡ rs.double_indirect_buffer.buffer
  pub iiizones : rs.iiizones ≡ rs.triple_indirect_buffer.buffer
  pub direct_indirect : Disjoint rs.direct_buffer.buffer rs.indirect_buffer.buffer
  pub direct_double : Disjoint rs.direct_buffer.buffer rs.double_indirect_buffer.buffer
  pub direct_triple : Disjoint rs.direct_buffer.buffer rs.triple_indirect_buffer.buffer
  pub indirect_double : Disjoint rs.indirect_buffer.buffer rs.double_indirect_buffer.buffer
  pub indirect_triple : Disjoint rs.indirect_buffer.buffer rs.triple_indirect_buffer.buffer
  pub double_triple : Disjoint rs.double_indirect_buffer.buffer rs.triple_indirect_buffer.buffer
  pub not_own : (q : ℕ) → scratch rs q ≡ true → own.writes q ≡ false
  pub reader : (q : ℕ) → buffer ≤ q → q < buffer + total → scratch rs q ≡ false

module _ (disk : ℕ → ℕ) (own : Driver) (buffer total : ℕ) (rs₀ : ReadState) (block_read : BlockRead)
    (reads : Reads disk own block_read) (separate : Separate own buffer total rs₀) where
  pub apart : Apart (scratch rs₀) buffer rs₀.bytes_read total rs₀.direct_buffer.buffer
  apart = record {
    reader = λ q lo hi. separate.reader q (omega arith) hi;
    direct = spare_direct rs₀;
  }

  outside_reader : (q : ℕ) → scratch rs₀ q ≡ true → (q < buffer) ⊎ (buffer + total ≤ q)
  outside_reader q owned = elim (lt-or-le q buffer) [
    | inl before ↦ inl before
    | inr from ↦ elim (lt-or-le q (buffer + total)) [
      | inl inside ↦ let free = separate.reader q from inside in cc
      | inr behind ↦ inr behind
    ]
  ]

  -- A block in a buffer stays as long as only other memory changes.
  pub Holds-Touched :
      (p z : ℕ)
      → ((q : ℕ) → p ≤ q → q < p + 1024 → scratch rs₀ q ≡ true)
      → Disjoint rs₀.direct_buffer.buffer p
      → (m g : Memory) → Touched disk own (scratch rs₀) buffer total rs₀ m g
      → Holds disk p z m
      → Holds disk p z g
  Holds-Touched p z mine apart_from m g touched holds j lt =
      let owned = mine (p + j) (omega arith) (omega arith) in
      touched (p + j) (outside_reader (p + j) owned) (ground arith) (separate.not_own (p + j) owned)
      ∙ holds j lt

  pub Holds-Into :
      (p p' z : ℕ)
      → ((q : ℕ) → p ≤ q → q < p + 1024 → scratch rs₀ q ≡ true)
      → Disjoint p p'
      → (m g : Memory) → ((q : ℕ) → (q < p') ⊎ (p' + 1024 ≤ q) → own.writes q ≡ false → g q ≡ m q)
      → Holds disk p z m
      → Holds disk p z g
  Holds-Into p p' z mine apart_from m g into holds j lt =
      into (p + j) (ground arith)
        (separate.not_own (p + j) (mine (p + j) (omega arith) (omega arith)))
      ∙ holds j lt
