-- ===== src/Minixfs3/Tests.antt =====
-- A file system with one block for each bitmap.
use corrosion.Prelude.{◌≡◌, arith, ℕ, some, if◌then◌else◌, ltb}
use corrosion.Machine.{Memory}
use corrosion.Minixfs3.{SuperBlock, inode_offset_and_index}
use corrosion.Minixfs3.Geometry.{Located, inode_offset_and_index-Located}
use corrosion.Minixfs3.Bitmap.{print_bitmap, find_first_free_inode, find_first_free_zone}
use corrosion.Minixfs3.Bitmap.Count.{print_bitmap-set_bits}
use corrosion.Minixfs3.Bitmap.FirstFree.{FirstClear, find_first_free-FirstClear}

abbrev small : SuperBlock
small = record {
  ninodes = 64;
  pad0 = 0;
  imap_blocks = 1;
  zmap_blocks = 1;
  first_data_zone = 8;
  log_zone_size = 0;
  pad1 = 0;
  max_size = 0;
  zones = 128;
  magic = 0x4d5a;
  pad2 = 0;
  block_size = 1024;
  disk_version = 0;
}

inode_offset_and_index-Located_example :
    (offset index : ℕ) × (inode_offset_and_index small 20 ≡ some (offset, index))
    × Located small 20 offset index
inode_offset_and_index-Located_example =
    inode_offset_and_index-Located small 20 (omega arith) (omega arith) (omega arith)

-- The bitmap's first byte is full, and all others hold 7.
abbrev bitmap : Memory
bitmap q = if ltb q 1 then 255 else 7

print_bitmap-set_bits_example : print_bitmap 2 0 bitmap ≡ some 11
print_bitmap-set_bits_example = print_bitmap-set_bits 2 0 bitmap (λ q. ground arith)

find_first_free-FirstClear_example :
    FirstClear 0 bitmap 0 64 (find_first_free_inode small 0 bitmap)
    × FirstClear 0 bitmap 0 128 (find_first_free_zone small 0 bitmap)
find_first_free-FirstClear_example = find_first_free-FirstClear 0 bitmap small
