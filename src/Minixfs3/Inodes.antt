-- ===== src/Minixfs3/Inodes.antt =====
-- minixfs3.rs, with `block::read` as an argument: how inodes, directories and the superblock come from
-- the disk through buffers, what is read of a file that the cache knows, and the numbers that
-- `debug_fs` prints. The static `MFS_SUPERBLOCK_CACHE` is an argument or a result.
pub mod Fetch
use corrosion.Prelude.{
  ℕ, ◌+◌, ◌-◌, ◌*◌, ◌/◌, ◌^◌, Bool, true, false, ◌&&◌, ◌==◌, if◌then◌else◌, Option, none, some,
  bit_and, List, [], ◌∷◌,
}
use corrosion.Machine.{Memory, Cmd, pure, lift, ◌>>=◌, ◌>>◌, read_le, div_usize}
use corrosion.Alloc.Bytes.{ByteGrainAllocator}
use corrosion.Buffer
use corrosion.Config.{Text}
use corrosion.Minixfs3.{
  SuperBlock, Inode, block_size, is_minixfs, inode_offset_and_index, read_inode,
}
use corrosion.Minixfs3.Bitmap.{print_bitmap, find_first_free_inode, find_first_free_zone}
use corrosion.Minixfs3.Read
use corrosion.Minixfs3.Read.{BlockRead, add_u32, sub_u32, mul_u32}

abbrev pub sector_size : ℕ
sector_size = 512

-- `size_of::<DirEntry>()`
abbrev pub dir_entry_size : ℕ
dir_entry_size = 64

-- `*super_block` for a superblock at `p`.
unfoldable pub read_super_block : ℕ → Memory → SuperBlock
read_super_block p m = record {
  ninodes = read_le 4 p m;
  pad0 = read_le 2 (p + 4) m;
  imap_blocks = read_le 2 (p + 6) m;
  zmap_blocks = read_le 2 (p + 8) m;
  first_data_zone = read_le 2 (p + 10) m;
  log_zone_size = read_le 2 (p + 12) m;
  pad1 = read_le 2 (p + 14) m;
  max_size = read_le 4 (p + 16) m;
  zones = read_le 4 (p + 20) m;
  magic = read_le 2 (p + 24) m;
  pad2 = read_le 2 (p + 26) m;
  block_size = read_le 2 (p + 28) m;
  disk_version = m (p + 30);
}

abbrev pub text_eq : Text → Text → Bool
text_eq [] [] = true
text_eq [] (d ∷ t) = false
text_eq (c ∷ s) [] = false
text_eq (c ∷ s) (d ∷ t) = (c == d) && text_eq s t

-- `MFS_INODE_CACHE`, and a lookup in it.
abbrev pub InodeCache : Type 0
InodeCache = List (Text × Inode)

abbrev pub get : InodeCache → Text → Option Inode
get [] file_name = none
get ((name, node) ∷ rest) file_name =
    if text_eq name file_name then some node else get rest file_name

-- What `debug_fs` prints: of each bitmap the bits that are set and their percentage, and the first free
-- number; and the first two inodes.
pub record FsReport : Type 0 where
  pub inodes : ℕ × ℕ
  pub free_inode : Option ℕ
  pub zones : ℕ × ℕ
  pub free_zone : Option ℕ
  pub root : Option Inode
  pub file : Option Inode

module _ (block_read : BlockRead) (alloc : ByteGrainAllocator) where
  -- A buffer of `size` bytes is read from `offset` on; what `f` makes of it is kept, and the buffer is
  -- dropped.
  unfoldable pub from_disk : {A : Type 0} → (size offset : ℕ) → (ℕ → Memory → A) → Cmd A
  from_disk size offset f = do
    buffer ← Buffer.new alloc size
    block_read buffer.buffer size offset
    value ← (λ m. pure (f buffer.buffer m) m)
    dropped ← Buffer.drop alloc buffer
    pure value

  unfoldable pub get_inode : SuperBlock → ℕ → Cmd (Option Inode)
  unfolding from_disk
  get_inode self inode_num =
      if is_minixfs self
      then (do
        (offset, index) ← lift (inode_offset_and_index self inode_num)
        inode ← from_disk block_size offset (λ p. read_inode (p + 64 * index))
        pure (some inode))
      else pure none

  unfoldable pub init_superblock_cache : Cmd SuperBlock
  unfolding from_disk
  init_superblock_cache = from_disk sector_size block_size read_super_block

  -- The buffer is dropped when the function returns: what is left is its address.
  unfoldable pub get_dirents : Inode → Cmd (ℕ × ℕ)
  get_dirents self = do
    sum ← lift (add_u32 self.size block_size)
    size ← lift (sub_u32 sum 1)
    buffer ← Buffer.new alloc (bit_and size (2 ^ 32 - 1 - block_size))
    sz ← Read.read block_read alloc self buffer.buffer block_size 0
    dropped ← Buffer.drop alloc buffer
    pure (buffer.buffer, sz / dir_entry_size)

  unfoldable pub read_file : InodeCache → Text → (buffer size offset : ℕ) → Cmd ℕ
  read_file cache file_name buffer size offset = elim (get cache file_name) [
    | some node ↦ Read.read block_read alloc node buffer size offset
    | none ↦ pure 0
  ]

  -- A bitmap as `debug_fs` prints it: the bits that are set, and their percentage of `total`.
  unfoldable pub bitmap_usage : (blocks offset items total : ℕ) → Cmd (ℕ × ℕ)
  unfolding from_disk
  bitmap_usage blocks offset items total = do
    read_size ← lift (mul_u32 block_size blocks)
    counted ← from_disk read_size offset (print_bitmap items)
    count ← lift counted
    hundredfold ← lift (mul_u32 count 100)
    percent ← lift (div_usize hundredfold total)
    pure (count, percent)

  -- The first free number of a bitmap of `blocks` blocks.
  unfoldable pub first_free :
      (SuperBlock → ℕ → Memory → Option ℕ) → SuperBlock → (blocks offset : ℕ) → Cmd (Option ℕ)
  unfolding from_disk
  first_free search self blocks offset = do
    read_size ← lift (mul_u32 block_size blocks)
    from_disk read_size offset (search self)

  -- What `debug_fs` computes of the superblock `self`.
  unfoldable pub debug_fs : SuperBlock → Cmd FsReport
  unfolding bitmap_usage first_free get_inode
  debug_fs self = do
    let inode_bits = block_size * 2
    let zone_bits = block_size * (2 + self.imap_blocks)
    inodes ← bitmap_usage self.imap_blocks inode_bits (self.ninodes / 8) self.ninodes
    free_inode ← first_free find_first_free_inode self self.imap_blocks inode_bits
    items ← lift (sub_u32 (self.zones / 8) self.first_data_zone)
    zones ← bitmap_usage self.zmap_blocks zone_bits items self.zones
    free_zone ← first_free find_first_free_zone self self.zmap_blocks zone_bits
    root ← get_inode self 1
    file ← get_inode self 2
    pure (record {
      inodes = inodes;
      free_inode = free_inode;
      zones = zones;
      free_zone = free_zone;
      root = root;
      file = file;
    })
