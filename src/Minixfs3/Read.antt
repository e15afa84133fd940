-- ===== src/Minixfs3/Read.antt =====
-- `MinixFileSystem::read` of minixfs3.rs and its state. `block::read` is an argument.
pub mod Driver
pub mod Ready
pub mod Data
pub mod Walk
pub mod Reading
pub mod Serve
pub mod Visit
pub mod Loops
pub mod Chain
pub mod Blocks
pub mod Stage
pub mod Held
pub mod Levels
pub mod Whole
pub mod Driven
mod Tests
use corrosion.Prelude.{
  ℕ, zero, suc, ◌+◌, ◌-◌, ◌*◌, ◌/◌, ◌%◌, ◌^◌, Bool, true, false, not, ◌&&◌, ◌==◌, ltb, leb,
  if◌then◌else◌, Option, none, some,
}
use corrosion.Machine.{Memory, Cmd, pure, lift, ◌>>=◌, ◌>>◌, read_le}
use corrosion.Memory.{memcpy}
use corrosion.Alloc.Bytes.{ByteGrainAllocator}
use corrosion.Buffer
use corrosion.Buffer.{Buffer}
use corrosion.Minixfs3.{Inode, block_size}

-- `u32` arithmetic.
abbrev pub add_u32 : ℕ → ℕ → Option ℕ
add_u32 a b = if ltb (a + b) (2 ^ 32) then some (a + b) else none

abbrev pub sub_u32 : ℕ → ℕ → Option ℕ
sub_u32 a b = if leb b a then some (a - b) else none

abbrev pub mul_u32 : ℕ → ℕ → Option ℕ
mul_u32 a b = if ltb (a * b) (2 ^ 32) then some (a * b) else none

-- `block::read(buffer, size, offset)`.
abbrev pub BlockRead : Type 0
BlockRead = (buffer size offset : ℕ) → Cmd (Unit {0})

abbrev pub ptr_index_max : ℕ
ptr_index_max = block_size / 4

abbrev pub direct_zones_count : ℕ
direct_zones_count = 7

abbrev pub indirect_zone : ℕ
indirect_zone = 7

abbrev pub double_indirect_zone : ℕ
double_indirect_zone = 8

abbrev pub triple_indirect_zone : ℕ
triple_indirect_zone = 9

pub record ReadState : Type 0 where
  pub offset_byte : ℕ
  pub bytes_read : ℕ
  pub bytes_left : ℕ
  pub blocks_seen : ℕ
  pub offset_block : ℕ
  pub direct_buffer : Buffer
  pub indirect_buffer : Buffer
  pub double_indirect_buffer : Buffer
  pub triple_indirect_buffer : Buffer
  pub izones : ℕ
  pub iizones : ℕ
  pub iiizones : ℕ

unfoldable pub new : ByteGrainAllocator → (inode_size size offset : ℕ) → Cmd ReadState
new alloc inode_size size offset = do
  direct ← Buffer.default alloc
  indirect ← Buffer.default alloc
  double_indirect ← Buffer.default alloc
  triple_indirect ← Buffer.default alloc
  pure (record {
    offset_byte = offset % block_size;
    bytes_read = 0;
    bytes_left = if ltb inode_size size then inode_size else size;
    blocks_seen = 0;
    offset_block = offset / block_size;
    direct_buffer = direct;
    indirect_buffer = indirect;
    double_indirect_buffer = double_indirect;
    triple_indirect_buffer = triple_indirect;
    izones = indirect.buffer;
    iizones = double_indirect.buffer;
    iiizones = triple_indirect.buffer;
  })

unfoldable pub next : ReadState → ℕ → Cmd ReadState
next self bytes_to_read = do
  bytes_read ← lift (add_u32 self.bytes_read bytes_to_read)
  bytes_left ← lift (sub_u32 self.bytes_left bytes_to_read)
  pure (record self { offset_byte = 0; bytes_read = bytes_read; bytes_left = bytes_left })

unfoldable pub seen_block : ReadState → Cmd ReadState
seen_block self = do
  seen ← lift (add_u32 self.blocks_seen 1)
  pure (record self { blocks_seen = seen })

abbrev pub in_window : ReadState → Bool
in_window self = leb self.offset_block self.blocks_seen

-- `izones.add(i).read()`
abbrev pub zone_at : (izones i : ℕ) → Cmd ℕ
zone_at izones i = λ m. pure (read_le 4 (izones + 4 * i) m) m

unfoldable pub read_data : ℕ → ReadState → Cmd ReadState
unfolding next
read_data buffer rs = do
  room ← lift (sub_u32 block_size rs.offset_byte)
  let bytes_to_read = if ltb rs.bytes_left room then rs.bytes_left else room
  memcpy (buffer + rs.bytes_read) (rs.direct_buffer.buffer + rs.offset_byte) bytes_to_read
  next rs bytes_to_read

-- The body of the innermost `if`: the zone's bytes if the window has been reached, and the end of the
-- read once nothing is left; else the block counts as seen, and the loop goes on.
unfoldable pub visit :
    (ReadState → Cmd ReadState)
    → ReadState
    → (ReadState → Cmd (ℕ × ReadState))
    → Cmd (ℕ × ReadState)
unfolding seen_block
visit read_it rs go_on = do
  rs' ← if in_window rs then read_it rs else pure rs
  if in_window rs && (rs'.bytes_left == 0)
      then pure (rs'.bytes_read, rs')
      else (do rs'' ← seen_block rs'; go_on rs'')

abbrev pub none_left : ReadState → Cmd (ℕ × ReadState)
none_left rs = pure (0, rs)

-- `if br != 0 { return br; }` on what a loop has returned.
unfoldable pub or_go_on :
    Cmd (ℕ × ReadState) → (ReadState → Cmd (ℕ × ReadState)) → Cmd (ℕ × ReadState)
or_go_on c go_on = do (br, rs) ← c; if not (br == 0) then pure (br, rs) else go_on rs

module _ (block_read : BlockRead) where
  -- A zone into the direct buffer, and its bytes from there.
  unfoldable pub read_block : (zone buffer : ℕ) → ReadState → Cmd ReadState
  unfolding read_data
  read_block zone buffer rs = do
    zone_offset ← lift (mul_u32 zone block_size)
    block_read rs.direct_buffer.buffer block_size zone_offset
    read_data buffer rs

  unfoldable pub read_direct_data : Inode → (i buffer : ℕ) → ReadState → Cmd ReadState
  unfolding read_block
  read_direct_data inode i buffer rs = read_block (inode.zones i) buffer rs

  unfoldable pub read_indirect_data : (izones i buffer : ℕ) → ReadState → Cmd ReadState
  unfolding read_block
  read_indirect_data izones i buffer rs = do zone ← zone_at izones i; read_block zone buffer rs

  unfoldable pub read_zone : Inode → Buffer → ℕ → Cmd (Unit {0})
  read_zone inode buffer number = do
    zone_offset ← lift (mul_u32 block_size (inode.zones number))
    block_read buffer.buffer block_size zone_offset

  unfoldable pub read_izone : (izones : ℕ) → Buffer → ℕ → Cmd (Unit {0})
  read_izone izones buffer i = do
    zone ← zone_at izones i
    zone_offset ← lift (mul_u32 block_size zone)
    block_read buffer.buffer block_size zone_offset

  unfoldable pub direct_loop : Inode → (buffer left i : ℕ) → ReadState → Cmd (ℕ × ReadState)
  unfolding visit read_direct_data
  direct_loop inode buffer zero i rs = pure (0, rs)
  direct_loop inode buffer (suc left) i rs =
      if inode.zones i == 0
      then direct_loop inode buffer left (i + 1) rs
      else visit (read_direct_data inode i buffer) rs (direct_loop inode buffer left (i + 1))

  unfoldable pub direct_zones : Inode → ℕ → ReadState → Cmd (ℕ × ReadState)
  unfolding direct_loop
  direct_zones inode buffer rs = direct_loop inode buffer direct_zones_count 0 rs

  -- The innermost loop over a block of zone numbers; `go_on` is what follows it.
  unfoldable pub zones_loop :
      (izones buffer left i : ℕ)
      → ReadState
      → (ReadState → Cmd (ℕ × ReadState))
      → Cmd (ℕ × ReadState)
  unfolding visit read_indirect_data
  zones_loop izones buffer zero i rs go_on = go_on rs
  zones_loop izones buffer (suc left) i rs go_on = do
    zone ← zone_at izones i
    if zone == 0
        then zones_loop izones buffer left (i + 1) rs go_on
        else visit (read_indirect_data izones i buffer) rs
            (λ rs'. zones_loop izones buffer left (i + 1) rs' go_on)

  -- A loop over a block of zone numbers that reads each block into `into` and then runs `inner`.
  unfoldable pub blocks_loop :
      (ReadState → (ReadState → Cmd (ℕ × ReadState)) → Cmd (ℕ × ReadState))
      → (izones : ℕ) → Buffer
      → (left i : ℕ) → ReadState
      → (ReadState → Cmd (ℕ × ReadState))
      → Cmd (ℕ × ReadState)
  unfolding read_izone
  blocks_loop inner izones into zero i rs go_on = go_on rs
  blocks_loop inner izones into (suc left) i rs go_on = do
    zone ← zone_at izones i
    if zone == 0 then blocks_loop inner izones into left (i + 1) rs go_on else (do
      read_izone izones into i
      inner rs (λ rs'. blocks_loop inner izones into left (i + 1) rs' go_on))

  unfoldable pub indirect_zones : Inode → ℕ → ReadState → Cmd (ℕ × ReadState)
  unfolding zones_loop read_zone
  indirect_zones inode buffer rs = if inode.zones indirect_zone == 0 then pure (0, rs) else (do
    read_zone inode rs.indirect_buffer indirect_zone
    zones_loop rs.izones buffer ptr_index_max 0 rs none_left)

  unfoldable pub double_indirect_zones : Inode → ℕ → ReadState → Cmd (ℕ × ReadState)
  unfolding zones_loop blocks_loop read_zone
  double_indirect_zones inode buffer rs =
      if inode.zones double_indirect_zone == 0 then pure (0, rs) else (do
        read_zone inode rs.indirect_buffer double_indirect_zone
        blocks_loop (λ rs' go_on. zones_loop rs.iizones buffer ptr_index_max 0 rs' go_on) rs.izones
            rs.double_indirect_buffer ptr_index_max 0 rs none_left)

  unfoldable pub triple_indirect_zones : Inode → ℕ → ReadState → Cmd (ℕ × ReadState)
  unfolding zones_loop blocks_loop read_zone
  triple_indirect_zones inode buffer rs =
      if inode.zones triple_indirect_zone == 0 then pure (0, rs) else (do
        read_zone inode rs.indirect_buffer triple_indirect_zone
        blocks_loop
            (λ rs' go_on.
              blocks_loop (λ rs'' go_on'. zones_loop rs.iiizones buffer ptr_index_max 0 rs'' go_on')
                rs.iizones rs.triple_indirect_buffer ptr_index_max 0 rs' go_on)
            rs.izones rs.double_indirect_buffer ptr_index_max 0 rs none_left)

  -- `read` from the state that `new` has made, up to its result.
  unfoldable pub read_zones : Inode → ℕ → ReadState → Cmd (ℕ × ReadState)
  unfolding or_go_on
  read_zones inode buffer rs = or_go_on (direct_zones inode buffer rs) (λ rs₁.
      or_go_on (indirect_zones inode buffer rs₁) (λ rs₂.
        or_go_on (double_indirect_zones inode buffer rs₂) (λ rs₃.
          or_go_on (triple_indirect_zones inode buffer rs₃) (λ rs₄. pure (rs₄.bytes_read, rs₄)))))

  -- The four buffers are dropped, in the order of their fields, when the state goes.
  unfoldable pub read : ByteGrainAllocator → Inode → (buffer size offset : ℕ) → Cmd ℕ
  unfolding read_zones new
  read alloc inode buffer size offset = do
    rs ← new alloc inode.size size offset
    (br, rs') ← read_zones inode buffer rs
    direct ← Buffer.drop alloc rs'.direct_buffer
    indirect ← Buffer.drop alloc rs'.indirect_buffer
    double_indirect ← Buffer.drop alloc rs'.double_indirect_buffer
    triple_indirect ← Buffer.drop alloc rs'.triple_indirect_buffer
    pure br
