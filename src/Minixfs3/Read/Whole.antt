-- ===== src/Minixfs3/Read/Whole.antt =====
-- A read through direct, indirect, double and triple indirect zones.
use mathlib.Core.List.{append-nil}
use mathlib.Core.Path.{subst}
use corrosion.Minixfs3.Read.Driver.{Driver}
use corrosion.Prelude.{ℕ, ◌+◌, ◌*◌, ◌≤◌, ◌≡◌, arith, List, []}
use corrosion.Machine.{Memory, Cmd}
use corrosion.Minixfs3.{Inode}
use corrosion.Minixfs3.Read.{BlockRead, ReadState, or_go_on, triple_indirect_zones, read_zones}
use corrosion.Minixfs3.Read.Data.{Reads}
use corrosion.Minixfs3.Read.Reading.{Reading}
use corrosion.Minixfs3.Read.Serve.{Uses-first, Served, position, Serves-nil}
use corrosion.Minixfs3.Read.Walk.{length}
use corrosion.Minixfs3.Read.Chain.{
  All, single, triple, of, file_zones, Small, Linked, scratch, Separate,
}
use corrosion.Minixfs3.Read.Stage.{Continues, ServesHere, direct-Serves}
use corrosion.Minixfs3.Read.Levels.{double-Serves, single-Serves, triple-Serves}

module _ (disk : ℕ → ℕ) (own : Driver) (buffer total : ℕ) (rs₀ : ReadState) (block_read : BlockRead)
    (reads : Reads disk own block_read) (separate : Separate own buffer total rs₀) where
  -- Behind the last loop no zones are left.
  last-Serves :
      (inode : Inode) (k : ReadState → Cmd (ℕ × ReadState))
      → Small (inode.zones 9)
      → All (λ z. Small z × All Small (single disk z)) (of inode 9 (single disk))
      → (Continues disk own buffer total rs₀ block_read reads separate)
          (of inode 9 (triple disk))
          (λ rs. or_go_on (triple_indirect_zones block_read inode buffer rs) k)
  last-Serves inode k small linked rs m uses =
      subst
        (λ (zs : List ℕ).
          (ServesHere disk own buffer total rs₀ block_read reads separate) zs rs m
            (or_go_on (triple_indirect_zones block_read inode buffer rs) k m))
        (append-nil (of inode 9 (triple disk)))
        ((triple-Serves disk own buffer total rs₀ block_read reads separate) inode [] k small linked
          (λ rs' g u. Serves-nil disk own (scratch rs₀) buffer total rs₀ rs' g (k rs' g)) rs m uses)

  -- Over a driver that satisfies `Reads`, from a state at its start, with the four buffers apart from each
  -- other, from the reader's buffer and from what the driver writes, and with the blocks of zone
  -- numbers on the disk: a read of some whole words at an offset of whole words, that lies within the
  -- zones that are present in the file, direct or behind one, two or three blocks of zone numbers,
  -- returns the number of bytes asked for. The reader's buffer then holds the file's bytes from that
  -- offset on, and no other byte has changed but those of the four buffers and of the driver.
  pub read_zones-Served :
      (inode : Inode) (m : Memory)
      → Linked disk inode
      → Reading own buffer (file_zones disk inode) rs₀ m
      → rs₀.blocks_seen ≡ 0
      → rs₀.bytes_read + rs₀.bytes_left ≡ total
      → rs₀.offset_block * 1024 + rs₀.offset_byte + rs₀.bytes_left
        ≤ 1024 * length (file_zones disk inode)
      → Served disk own
          (scratch rs₀)
          buffer
          total
          rs₀
          (file_zones disk inode)
          (rs₀.offset_block * 1024 + rs₀.offset_byte)
          rs₀.bytes_left
          rs₀
          m
          (read_zones block_read inode buffer rs₀ m)
  unfolding read_zones
  read_zones-Served inode m linked reading none_seen sum within =
      let start : position rs₀ ≡ rs₀.offset_block * 1024 + rs₀.offset_byte = omega arith in
      subst
        (λ (pos : ℕ).
          Served disk own (scratch rs₀) buffer total rs₀ (file_zones disk inode) pos rs₀.bytes_left
            rs₀ m (read_zones block_read inode buffer rs₀ m))
        start
        ((direct-Serves disk own buffer total rs₀ block_read reads separate) inode _ _
          ((single-Serves disk own buffer total rs₀ block_read reads separate) inode _ _
            (linked.first 7 (omega arith) (omega arith))
            ((double-Serves disk own buffer total rs₀ block_read reads separate) inode _ _
              (linked.first 8 (omega arith) (omega arith)) linked.double_indirect
              (last-Serves inode _ (linked.first 9 (omega arith) (omega arith))
                linked.triple_indirect)))
          rs₀ m (Uses-first total rs₀ sum) reading (omega arith))
