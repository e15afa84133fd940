-- ===== src/Minixfs3/Geometry.antt =====
-- The place of an inode on the disk, in terms of an array of 64-byte records behind the first four
-- areas.
use corrosion.Prelude.{ℕ, ◌+◌, ◌-◌, ◌*◌, ◌/◌, ◌%◌, ◌^◌, ◌≤◌, ◌<◌, ◌≡◌, arith, some, lt→ltb, le→leb}
use corrosion.Minixfs3.{
  SuperBlock, blocks_first_four_areas, inode_offset, inode_index, inode_offset_and_index,
  inode_size,
}
use mathlib.Core.Option

-- The first byte behind the boot block, the superblock and the two bitmaps.
abbrev pub inode_area : SuperBlock → ℕ
inode_area self = (2 + self.imap_blocks + self.zmap_blocks) * 1024

-- The inode's block on the disk and its index there.
pub record Located (self : SuperBlock) (inode_num offset index : ℕ) : Type 0 where
  pub aligned : offset % 1024 ≡ 0
  pub within : (index + 1) * inode_size ≤ 1024
  pub place : offset + index * inode_size ≡ inode_area self + (inode_num - 1) * inode_size

-- For an inode's number from 1 on, and bitmaps whose blocks sum up within 16 bits, the offset and the
-- index that are computed are a block's offset and an index in it, and together the place of that inode in
-- an array of 64-byte records behind the first four areas.
pub inode_offset_and_index-Located :
    (self : SuperBlock) (inode_num : ℕ)
    → 1 ≤ inode_num
    → inode_num < 2 ^ 32
    → 2 + self.imap_blocks + self.zmap_blocks < 2 ^ 16
    → (offset index : ℕ) × (inode_offset_and_index self inode_num ≡ some (offset, index))
      × Located self inode_num offset index
unfolding inode_offset_and_index blocks_first_four_areas inode_offset inode_index Option.bind
inode_offset_and_index-Located self inode_num least fits areas = (
  inode_area self + (inode_num - 1) / 16 * 1024,
  (inode_num - 1) % 16,
  rw (
    inode_offset_and_index,
    lt→ltb (2 + self.imap_blocks) (2 ^ 16) (omega arith),
    lt→ltb (2 + self.imap_blocks + self.zmap_blocks) (2 ^ 16) areas,
    lt→ltb (inode_area self) (2 ^ 64) (omega arith),
    le→leb 1 inode_num least,
    lt→ltb ((inode_num - 1) / 16 * 1024) (2 ^ 64) (omega arith),
    lt→ltb (inode_area self + (inode_num - 1) / 16 * 1024) (2 ^ 64) (omega arith),
  ),
  record { aligned = omega arith; within = omega arith; place = omega arith },
)
