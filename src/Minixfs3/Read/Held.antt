-- ===== src/Minixfs3/Read/Held.antt =====
-- The blocks of zone numbers that a read holds in its buffers.
use corrosion.Minixfs3.Read.Driver.{Driver}
use corrosion.Prelude.{ℕ, ◌+◌, ◌≤◌, ◌<◌, ◌≡◌, ◌⊎◌, false}
use corrosion.Machine.{Memory}
use corrosion.Minixfs3.Read.{BlockRead, ReadState}
use corrosion.Minixfs3.Read.Data.{Reads}
use corrosion.Minixfs3.Read.Serve.{Touched}
use corrosion.Minixfs3.Read.Loops.{Holds}
use corrosion.Minixfs3.Read.Chain.{
  scratch, Separate, mine_indirect, mine_double, mine_triple, Holds-Touched, Holds-Into,
}

module _ (disk : ℕ → ℕ) (own : Driver) (buffer total : ℕ) (rs₀ : ReadState) (block_read : BlockRead)
    (reads : Reads disk own block_read) (separate : Separate own buffer total rs₀) where
  -- The block in the indirect buffer between two visits.
  pub kept_indirect :
      (z : ℕ) (m g : Memory)
      → Touched disk own (scratch rs₀) buffer total rs₀ m g
      → Holds disk rs₀.indirect_buffer.buffer z m
      → Holds disk rs₀.indirect_buffer.buffer z g
  kept_indirect z =
      Holds-Touched disk own buffer total rs₀ block_read reads separate rs₀.indirect_buffer.buffer z
        (mine_indirect rs₀) separate.direct_indirect

  pub kept_double :
      (z : ℕ) (m g : Memory)
      → Touched disk own (scratch rs₀) buffer total rs₀ m g
      → Holds disk rs₀.double_indirect_buffer.buffer z m
      → Holds disk rs₀.double_indirect_buffer.buffer z g
  kept_double z =
      Holds-Touched disk own buffer total rs₀ block_read reads separate
        rs₀.double_indirect_buffer.buffer z (mine_double rs₀) separate.direct_double

  -- The blocks in the first two buffers between two visits.
  abbrev pub Two : ℕ → ℕ → Memory → Type 0
  Two z z' m =
      Holds disk rs₀.indirect_buffer.buffer z m × Holds disk rs₀.double_indirect_buffer.buffer z' m

  pub Two-enter :
      (z z' : ℕ) (m g : Memory)
      → Holds disk rs₀.indirect_buffer.buffer z m
      → ((q : ℕ)
          → (q < rs₀.double_indirect_buffer.buffer) ⊎ (rs₀.double_indirect_buffer.buffer + 1024 ≤ q)
          → own.writes q ≡ false
          → g q ≡ m q)
      → Holds disk rs₀.double_indirect_buffer.buffer z' g
      → Two z z' g
  Two-enter z z' m g held changed held' = (
    Holds-Into disk own buffer total rs₀ block_read reads separate rs₀.indirect_buffer.buffer
        rs₀.double_indirect_buffer.buffer z (mine_indirect rs₀) separate.indirect_double m g changed
        held,
    held',
  )

  pub kept_triple :
      (z : ℕ) (m g : Memory)
      → Touched disk own (scratch rs₀) buffer total rs₀ m g
      → Holds disk rs₀.triple_indirect_buffer.buffer z m
      → Holds disk rs₀.triple_indirect_buffer.buffer z g
  kept_triple z =
      Holds-Touched disk own buffer total rs₀ block_read reads separate
        rs₀.triple_indirect_buffer.buffer z (mine_triple rs₀) separate.direct_triple

  -- The blocks in all three buffers of zone numbers.
  abbrev pub Three : ℕ → ℕ → ℕ → Memory → Type 0
  Three z z' z'' m = Two z z' m × Holds disk rs₀.triple_indirect_buffer.buffer z'' m

  pub Three-enter :
      (z z' z'' : ℕ) (m g : Memory)
      → Two z z' m
      → ((q : ℕ)
          → (q < rs₀.triple_indirect_buffer.buffer) ⊎ (rs₀.triple_indirect_buffer.buffer + 1024 ≤ q)
          → own.writes q ≡ false
          → g q ≡ m q)
      → Holds disk rs₀.triple_indirect_buffer.buffer z'' g
      → Three z z' z'' g
  Three-enter z z' z'' m g (held, held') changed held'' = (
    (
      Holds-Into disk own buffer total rs₀ block_read reads separate rs₀.indirect_buffer.buffer
          rs₀.triple_indirect_buffer.buffer z (mine_indirect rs₀) separate.indirect_triple m g
          changed held,
      Holds-Into disk own buffer total rs₀ block_read reads separate
          rs₀.double_indirect_buffer.buffer rs₀.triple_indirect_buffer.buffer z' (mine_double rs₀)
          separate.double_triple m g changed held',
    ),
    held'',
  )
