-- ===== src/Minixfs3/Read/Data.antt =====
-- The bytes of a zone on their way to the reader's buffer.
use corrosion.Minixfs3.Read.Driver.{Driver}
use corrosion.Prelude.{
  ℕ, ◌+◌, ◌-◌, ◌*◌, ◌%◌, ◌^◌, ◌≤◌, ◌<◌, ◌≡◌, ◌⊎◌, inl, inr, ap, ◌∙◌, arith, true, false, ltb,
  if◌then◌else◌, le→leb, lt→ltb, lt-or-le,
}
use corrosion.Machine.{Memory, ok}
use corrosion.Memory.Copy.{Copied, copied, memcpy-Copied}
use corrosion.Minixfs3.Read.{BlockRead, ReadState, read_data, next, read_block}

-- A driver that is ready returns from a block read into memory that is not its own, ready again and
-- with the disk's bytes in the buffer; it leaves all other bytes but its own as they are, and stays
-- ready as long as those do not change.
pub record Reads (disk : ℕ → ℕ) (own : Driver) (block_read : BlockRead) : Type 0 where
  pub is_bytes : (m : Memory) → own.ready m → (q : ℕ) → own.writes q ≡ false → m q < 256
  pub stays :
      (m g : Memory)
      → own.ready m
      → ((q : ℕ) → own.writes q ≡ false → g q < 256)
      → ((q : ℕ) → own.writes q ≡ true → g q ≡ m q)
      → own.ready g
  pub reads :
      (buffer offset : ℕ) (m : Memory)
      → own.ready m
      → offset % 512 ≡ 0
      → offset < 2 ^ 32
      → ((q : ℕ) → buffer ≤ q → q < buffer + 1024 → own.writes q ≡ false)
      → (g : Memory) × (block_read buffer 1024 offset m ≡ ok tt g)
        × own.ready g
        × ((i : ℕ) → i < 1024 → g (buffer + i) ≡ disk (offset + i))
        × ((q : ℕ) → (q < buffer) ⊎ (buffer + 1024 ≤ q) → own.writes q ≡ false → g q ≡ m q)

-- After a copy of bytes, a byte is one if it was one.
Copied-byte :
    (dest src hi : ℕ) (m g : Memory) (q : ℕ)
    → Copied dest src 0 hi m g
    → ((x : ℕ) → src ≤ x → x < src + hi → m x < 256)
    → m q < 256
    → g q < 256
Copied-byte dest src hi m g q copy bytes here = elim (lt-or-le q dest) [
  | inl below ↦ ground (arith, copy.outside q (inl (omega arith)), here)
  | inr above ↦ elim (lt-or-le q (dest + hi)) [
    | inl within ↦
        let at : dest + (q - dest) ≡ q = omega arith in
        ground (
          arith,
          copy.inside (q - dest) (omega arith) (omega arith),
          ap g at,
          bytes (src + (q - dest)) (omega arith) (omega arith),
        )
    | inr behind ↦ ground (arith, copy.outside q (inr (omega arith)), here)
  ]
]

-- How many bytes are read of the present zone.
abbrev pub to_read : ReadState → ℕ
to_read rs =
    if ltb rs.bytes_left (1024 - rs.offset_byte) then rs.bytes_left else 1024 - rs.offset_byte

-- The state after a zone.
abbrev pub advanced : ReadState → ReadState
advanced rs = record rs {
  offset_byte = 0;
  bytes_read = rs.bytes_read + to_read rs;
  bytes_left = rs.bytes_left - to_read rs;
}

module _ (disk : ℕ → ℕ) (own : Driver) (block_read : BlockRead) (reads : Reads disk own block_read)
    (zone buffer : ℕ) (rs : ReadState) (m : Memory) where
  -- Over a driver that is ready, with a reader's buffer apart from the direct buffer, reading a zone
  -- returns: the reader has gone on by the lesser of what is left to read and what is left of the
  -- block, the memory is one of bytes, the bytes that memcpy copies of so many are the disk's, and no other byte has changed but
  -- those of the direct buffer and of the driver.
  pub read_block-Copied :
      own.ready m
      → rs.offset_byte < 1024
      → rs.bytes_read + rs.bytes_left < 2 ^ 32
      → zone * 1024 < 2 ^ 32
      → (buffer + rs.bytes_read + 1024 ≤ rs.direct_buffer.buffer)
        ⊎ (rs.direct_buffer.buffer + 1024 ≤ buffer + rs.bytes_read)
      → ((q : ℕ)
          → rs.direct_buffer.buffer ≤ q
          → q < rs.direct_buffer.buffer + 1024
          → own.writes q ≡ false)
      → ((q : ℕ)
          → buffer + rs.bytes_read ≤ q
          → q < buffer + rs.bytes_read + copied (to_read rs)
          → own.writes q ≡ false)
      → (g : Memory) × (read_block block_read zone buffer rs m ≡ ok (advanced rs) g)
        × own.ready g
        × ((i : ℕ)
            → i < copied (to_read rs)
            → g (buffer + rs.bytes_read + i) ≡ disk (zone * 1024 + rs.offset_byte + i))
        × ((q : ℕ)
            → (q < buffer + rs.bytes_read) ⊎ (buffer + rs.bytes_read + copied (to_read rs) ≤ q)
            → (q < rs.direct_buffer.buffer) ⊎ (rs.direct_buffer.buffer + 1024 ≤ q)
            → own.writes q ≡ false
            → g q ≡ m q)
  unfolding read_block read_data next
  read_block-Copied ready small fits zone_fits apart direct clear =
      let (m₁, step₁, ready₁, inside₁, outside₁) =
        reads.reads rs.direct_buffer.buffer (zone * 1024) m ready (omega arith) zone_fits direct in
      let bytes₁ = reads.is_bytes m₁ ready₁ in
      let source : (x : ℕ)
          → rs.direct_buffer.buffer + rs.offset_byte ≤ x
          → x < rs.direct_buffer.buffer + rs.offset_byte + to_read rs
          → m₁ x < 256 =
        λ x lo hi. bytes₁ x (direct x (omega arith) (ground arith)) in
      let n = to_read rs in
      let (g, step₂, copy) =
        memcpy-Copied (buffer + rs.bytes_read) (rs.direct_buffer.buffer + rs.offset_byte) n m₁
          (ground arith) (ground arith) source in
      (
        g,
        rw (
          lt→ltb (zone * 1024) (2 ^ 32) zone_fits,
          step₁,
          le→leb rs.offset_byte 1024 (omega arith),
          step₂,
          lt→ltb (rs.bytes_read + n) (2 ^ 32) (ground arith),
          le→leb n rs.bytes_left (ground arith),
        ),
        reads.stays m₁ g ready₁
            (λ q not_own.
              Copied-byte (buffer + rs.bytes_read) (rs.direct_buffer.buffer + rs.offset_byte)
                (copied n) m₁ g q copy (λ x lo hi. source x lo (ground arith)) (bytes₁ q not_own))
            (λ q owned. copy.outside q (elim (lt-or-le q (buffer + rs.bytes_read)) [
              | inl before ↦ inl (omega (arith, before))
              | inr from ↦ elim (lt-or-le q (buffer + rs.bytes_read + copied n)) [
                | inl within ↦ let free = clear q from within in cc
                | inr behind ↦ inr behind
              ]
            ])),
        λ i lo.
            let src : rs.direct_buffer.buffer + rs.offset_byte + i
                ≡ rs.direct_buffer.buffer + (rs.offset_byte + i) =
              omega arith in
            let from : zone * 1024 + (rs.offset_byte + i) ≡ zone * 1024 + rs.offset_byte + i =
              omega arith in
            copy.inside i (omega arith) lo
            ∙ ap m₁ src
            ∙ inside₁ (rs.offset_byte + i) (ground arith)
            ∙ ap disk from,
        λ q out out' not_own. copy.outside q (ground arith) ∙ outside₁ q out' not_own,
      )
