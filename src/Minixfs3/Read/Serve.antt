-- ===== src/Minixfs3/Read/Serve.antt =====
-- What a read in progress owes, over the zones to come.
use corrosion.Minixfs3.Read.Driver.{Driver}
use corrosion.Prelude.{ℕ, ◌+◌, ◌-◌, ◌*◌, ◌≤◌, ◌<◌, ◌≡◌, ◌⊎◌, refl, arith, Bool, false, List, []}
use corrosion.Machine.{Memory, Run, ok}
use corrosion.Minixfs3.Read.{ReadState}
use corrosion.Minixfs3.Read.Reading.{file_byte, Reading}
use corrosion.Minixfs3.Read.Walk.{length}

-- The states of one read: the buffers are those of the state `rs₀`, and of `total` bytes all that have
-- not been read are left.
pub record Uses (rs₀ : ReadState) (total : ℕ) (rs : ReadState) : Type 0 where
  pub direct : rs.direct_buffer ≡ rs₀.direct_buffer
  pub indirect : rs.indirect_buffer ≡ rs₀.indirect_buffer
  pub double_indirect : rs.double_indirect_buffer ≡ rs₀.double_indirect_buffer
  pub triple_indirect : rs.triple_indirect_buffer ≡ rs₀.triple_indirect_buffer
  pub izones : rs.izones ≡ rs₀.izones
  pub iizones : rs.iizones ≡ rs₀.iizones
  pub iiizones : rs.iiizones ≡ rs₀.iiizones
  pub from : rs₀.bytes_read ≤ rs.bytes_read
  pub sum : rs.bytes_read + rs.bytes_left ≡ total

pub Uses-first :
    (total : ℕ) (rs₀ : ReadState) → rs₀.bytes_read + rs₀.bytes_left ≡ total → Uses rs₀ total rs₀
Uses-first total rs₀ sum = record {
  direct = refl;
  indirect = refl;
  double_indirect = refl;
  triple_indirect = refl;
  izones = refl;
  iizones = refl;
  iiizones = refl;
  from = omega arith;
  sum = sum;
}

-- Where the read begins in the zones that are left.
abbrev pub position : ReadState → ℕ
position rs = (rs.offset_block - rs.blocks_seen) * 1024 + rs.offset_byte

-- The reader's buffer is no part of the read's own memory, of which the direct buffer is one.
pub record Apart (scratch : ℕ → Bool) (buffer begun total zone_buffer : ℕ) : Type 0 where
  pub reader : (q : ℕ) → buffer + begun ≤ q → q < buffer + total → scratch q ≡ false
  pub direct : (q : ℕ) → scratch q ≡ false → (q < zone_buffer) ⊎ (zone_buffer + 1024 ≤ q)

module _ (disk : ℕ → ℕ) (own : Driver) (scratch : ℕ → Bool) (buffer total : ℕ)
    (rs₀ : ReadState) where
  -- The read has returned, with `n` bytes more from `pos` on.
  pub record Served (zs : List ℕ) (pos n : ℕ) (rs : ReadState) (m : Memory)
      (r : Run (ℕ × ReadState)) : Type 0 where
    pub rs' : ReadState
    pub g : Memory
    pub returns : r ≡ ok (rs.bytes_read + n, rs') g
    pub uses : Uses rs₀ total rs'
    pub bytes : own.ready g
    pub arrived : (i : ℕ) → i < n → g (buffer + rs.bytes_read + i) ≡ file_byte disk zs (pos + i)
    pub kept :
        (q : ℕ)
        → (q < buffer + rs.bytes_read) ⊎ (buffer + rs.bytes_read + n ≤ q)
        → scratch q ≡ false
        → own.writes q ≡ false
        → g q ≡ m q

  -- `r` is the rest of a read with the zones `zs` to come: if they hold what is left, it is served.
  abbrev pub Serves : List ℕ → ReadState → Memory → Run (ℕ × ReadState) → Type 0
  Serves zs rs m r =
      Reading own buffer zs rs m
      → position rs + rs.bytes_left ≤ 1024 * length zs
      → Served zs (position rs) rs.bytes_left rs m r

  -- Between two visits, only the reader's buffer, the direct buffer and the driver's memory change.
  abbrev pub Touched : Memory → Memory → Type 0
  Touched m g =
      (q : ℕ)
      → (q < buffer) ⊎ (buffer + total ≤ q)
      → (q < rs₀.direct_buffer.buffer) ⊎ (rs₀.direct_buffer.buffer + 1024 ≤ q)
      → own.writes q ≡ false
      → g q ≡ m q

  -- No bytes are left to serve where no zones are.
  pub Serves-nil : (rs : ReadState) (m : Memory) (r : Run (ℕ × ReadState)) → Serves [] rs m r
  Serves-nil rs m r reading within = absurd (omega (arith, reading.some_left))
