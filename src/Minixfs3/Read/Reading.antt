-- ===== src/Minixfs3/Read/Reading.antt =====
-- The bytes of a file, and a read in progress.
use corrosion.Minixfs3.Read.Driver.{Driver}
use corrosion.Prelude.{
  ℕ, ◌+◌, ◌-◌, ◌*◌, ◌%◌, ◌^◌, ◌≤◌, ◌<◌, ◌≡◌, ◌⊎◌, false, ltb, if◌then◌else◌, List, [], ◌∷◌,
}
use corrosion.Machine.{Memory}
use corrosion.Minixfs3.Read.{ReadState}
use corrosion.Minixfs3.Read.Walk.{length}

-- The byte at position `i` of a file whose blocks are in the zones `zs`.
abbrev pub file_byte : (ℕ → ℕ) → List ℕ → ℕ → ℕ
file_byte disk [] i = 0
file_byte disk (z ∷ zs) i =
    let rest = file_byte disk zs (i - 1024) in if ltb i 1024 then disk (z * 1024 + i) else rest

-- The blocks of a chain are on the disk.
abbrev pub OnDisk : List ℕ → Type 0
OnDisk [] = Unit {0}
OnDisk (z ∷ zs) = (z * 1024 < 2 ^ 32) × OnDisk zs

-- Where a read of `n` bytes more goes: the rest of the reader's buffer is apart from the direct
-- buffer and, as this is, from what is the driver's.
pub record Room (own : Driver) (buffer n : ℕ) (rs : ReadState) : Type 0 where
  pub apart :
      (buffer + rs.bytes_read + n + 1024 ≤ rs.direct_buffer.buffer)
      ⊎ (rs.direct_buffer.buffer + 1024 ≤ buffer + rs.bytes_read)
  pub not_own :
      (q : ℕ) → buffer + rs.bytes_read ≤ q → q < buffer + rs.bytes_read + n → own.writes q ≡ false
  pub direct :
      (q : ℕ)
      → rs.direct_buffer.buffer ≤ q
      → q < rs.direct_buffer.buffer + 1024
      → own.writes q ≡ false

-- A read in progress, with the zones `zs` to come: it has something left, in whole words, and all
-- its numbers are within their widths.
pub record Reading (own : Driver) (buffer : ℕ) (zs : List ℕ) (rs : ReadState) (m : Memory)
    : Type 0 where
  pub on_disk : OnDisk zs
  pub bytes : own.ready m
  pub seen : rs.blocks_seen + length zs < 2 ^ 32
  pub some_left : 0 < rs.bytes_left
  pub whole_left : rs.bytes_left % 8 ≡ 0
  pub whole_offset : rs.offset_byte % 8 ≡ 0
  pub small : rs.offset_byte < 1024
  pub fits : rs.bytes_read + rs.bytes_left < 2 ^ 32
  pub room : Room own buffer rs.bytes_left rs
