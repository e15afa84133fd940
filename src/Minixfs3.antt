-- ===== src/Minixfs3.antt =====
-- minixfs3.rs: where the file system's areas and inodes lie on the disk, and its bitmaps.
pub mod Geometry
pub mod Bitmap
pub mod Read
pub mod Inodes
mod Tests
use corrosion.Prelude.{
  ℕ, ◌+◌, ◌-◌, ◌*◌, ◌/◌, ◌%◌, ◌^◌, Bool, not, ◌==◌, ltb, if◌then◌else◌, bit_and, Option, none, some,
  List, [], ◌∷◌, ◌++◌,
}
use corrosion.Machine.{add_usize, sub_usize, mul_usize, read_le, Memory}
use corrosion.Block.{add_u16}
use corrosion.Buffer.Print.{char}
use mathlib.Core.Option

abbrev pub magic_number : ℕ
magic_number = 0x4d5a

abbrev pub block_size : ℕ
block_size = 1024

abbrev pub s_ifdir : ℕ
s_ifdir = 16384

-- `size_of::<Inode>()`
abbrev pub inode_size : ℕ
inode_size = 64

pub record SuperBlock : Type 0 where
  pub ninodes : ℕ
  pub pad0 : ℕ
  pub imap_blocks : ℕ
  pub zmap_blocks : ℕ
  pub first_data_zone : ℕ
  pub log_zone_size : ℕ
  pub pad1 : ℕ
  pub max_size : ℕ
  pub zones : ℕ
  pub magic : ℕ
  pub pad2 : ℕ
  pub block_size : ℕ
  pub disk_version : ℕ

abbrev pub is_minixfs : SuperBlock → Bool
is_minixfs self = self.magic == magic_number

-- `none` is an overflow of the `u16` sum.
unfoldable pub blocks_first_four_areas : SuperBlock → Option ℕ
unfolding Option.bind
blocks_first_four_areas self =
    Option.bind (add_u16 2 self.imap_blocks) (λ s. add_u16 s self.zmap_blocks)

-- `none` is the subtraction of 1 from 0.
unfoldable pub inode_offset : ℕ → Option ℕ
unfolding Option.bind
inode_offset inode_num =
    Option.bind (sub_usize inode_num 1) (λ i. some (i / (block_size / inode_size)))

unfoldable pub inode_index : ℕ → Option ℕ
unfolding Option.bind
inode_index inode_num =
    Option.bind (sub_usize inode_num 1) (λ i. some (i % (block_size / inode_size)))

unfoldable pub inode_offset_and_index : SuperBlock → ℕ → Option (ℕ × ℕ)
unfolding Option.bind blocks_first_four_areas inode_offset inode_index
inode_offset_and_index self inode_num = Option.bind (blocks_first_four_areas self) (λ blocks.
    Option.bind (mul_usize blocks block_size) (λ areas.
      Option.bind (inode_offset inode_num) (λ block.
        Option.bind (mul_usize block block_size) (λ bytes.
          Option.bind (add_usize areas bytes)
            (λ offset. Option.bind (inode_index inode_num) (λ index. some (offset, index)))))))

pub record Inode : Type 0 where
  pub mode : ℕ
  pub nlinks : ℕ
  pub uid : ℕ
  pub gid : ℕ
  pub size : ℕ
  pub atime : ℕ
  pub mtime : ℕ
  pub ctime : ℕ
  pub zones : ℕ → ℕ

unfoldable pub is_directory : Inode → Bool
is_directory self = not (bit_and self.mode s_ifdir == 0)

-- `*inode_ptr` for an inode at `p`; the ten zones are given by their index.
unfoldable pub read_inode : ℕ → Memory → Inode
read_inode p m = record {
  mode = read_le 2 p m;
  nlinks = read_le 2 (p + 2) m;
  uid = read_le 2 (p + 4) m;
  gid = read_le 2 (p + 6) m;
  size = read_le 4 (p + 8) m;
  atime = read_le 4 (p + 12) m;
  mtime = read_le 4 (p + 16) m;
  ctime = read_le 4 (p + 20) m;
  zones = λ i. read_le 4 (p + 24 + 4 * i) m;
}

-- A name is pushed up to its first zero byte, 60 at most.
push_name : List ℕ → List ℕ
push_name [] = []
push_name (c ∷ cs) = let rest = push_name cs in if c == 0 then [] else c ∷ rest

-- The bytes, each pushed as a `char`: from 128 on it takes two bytes in the string.
push_bytes : List ℕ → List ℕ
push_bytes [] = []
push_bytes (c ∷ cs) = char c ++ push_bytes cs

-- `name` holds the 60 bytes of the entry, `cwd` the bytes of the string; the result is a string's.
unfoldable pub abs_name : List ℕ → List ℕ → ℕ → List ℕ
unfolding push_bytes push_name
abs_name name cwd inode_num =
    let new_cwd = if inode_num == 1 then push_bytes cwd else push_bytes cwd ++ (47 ∷ []) in
    new_cwd ++ push_bytes (push_name name)
