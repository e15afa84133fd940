-- ===== src/Minixfs3/Read/Tests.antt =====
-- A read through a block of zone numbers, and one of an inode, by way of the block driver.
mod Device
use mathlib.Core.Path.{subst, sym}
use corrosion.Prelude.{
  ℕ, ◌+◌, ◌-◌, ◌*◌, ◌/◌, ◌%◌, ◌^◌, ◌≤◌, ◌<◌, ◌≡◌, ◌⊎◌, inl, inr, refl, ap, ◌∙◌, arith, true, false,
  ◌==◌, ◌&&◌, leb, ltb, if◌then◌else◌, List, [], ◌∷◌, some,
}
use corrosion.Memory.{align_val}
use corrosion.Alloc.Flags.{is_free, set_taken, set_free, set_size, get_size}
use corrosion.Alloc.Bytes.{kmalloc}
use corrosion.Alloc.Bytes.Used.{used}
use corrosion.Machine.{Run, ok, panic, out_of_fuel}
use corrosion.Machine.Words.{IsBytes}
use corrosion.Minixfs3.{SuperBlock}
use corrosion.Minixfs3.Geometry.{inode_area}
use corrosion.Minixfs3.Inodes.{get_inode}
use corrosion.Minixfs3.Inodes.Fetch.{InodeAt, get_inode-InodeAt}
use corrosion.Machine.{Memory, write8, write64, read_le, write_le}
use corrosion.Machine.Words.{
  read_le-same, read_le-write_le, read_le-write_le_apart, write_le-outside, write8-ne,
  write_le-IsBytes,
}
use corrosion.Alloc.Bytes.{ByteGrainAllocator}
use corrosion.Alloc.Bytes.Chunks.{Heap, chunk}
use corrosion.Alloc.Bytes.Malloc.{Arena}
use corrosion.Block.{BlockDevice, desc_at, avail_idx_at, avail_ring_at, used_idx_at, used_ring_at}
use corrosion.Block.Descriptors.{after}
use corrosion.Block.Static.{read}
use corrosion.Block.Submit.{Submitted}
use corrosion.Block.Wait.{Event, device_writes, interrupted}
use corrosion.Block.Wait.Schedule.{serve, answer}
use corrosion.Block.Wait.Device.{Completes}
use corrosion.Buffer.{Buffer}
use corrosion.Minixfs3.{Inode}
use corrosion.Minixfs3.Read.{ReadState, read_zones}
use corrosion.Minixfs3.Read.Walk.{length}
use corrosion.Minixfs3.Read.Reading.{Reading}
use corrosion.Minixfs3.Read.Chain.{single, double, triple, file_zones, Linked, Separate, scratch}
use corrosion.Minixfs3.Read.Serve.{Served}
use corrosion.Minixfs3.Read.Ready.{DriverReady, block_driver, Placed}
use corrosion.Minixfs3.Read.Driven.{DeviceReads, read_zones-ServedByDevice}
use corrosion.Minixfs3.Read.Tests.Device.{linked_disk, disk_device, disk_device-Reads}

-- A one-page arena with a buffer in use, the queue and the static variable behind it.
abbrev page : ByteGrainAllocator
page = record { head = 0x2_0000; alloc = 1; start = 0x2_0000 }

abbrev base : BlockDevice
base = record {
  queue = 0x4_0000;
  dev = 0x1000_1000;
  idx = 0;
  ack_used_idx = 0;
  read_only = false;
  ready = λ i. true;
}

abbrev in_use : List (ℕ × ℕ)
in_use = (0x2_0000, 1032) ∷ []

abbrev started : Memory
started = write64 0x2_0000 (2 ^ 63 + 1032) (write64 0x2_0408 3064 (λ q. 0))

started-Arena : Arena page (chunk true 1032 ∷ chunk false 3064 ∷ []) started
unfolding read_le write_le
started-Arena = record {
  chunks = (refl, omega arith, omega arith, (refl, omega arith, omega arith, refl));
  bounded = omega arith;
}

started-Ready : DriverReady page base 0x5_0000 in_use started
unfolding read_le write_le
started-Ready = record {
  cs = chunk true 1032 ∷ chunk false 3064 ∷ [];
  arena = started-Arena;
  blocks = refl;
  room = refl;
  small = omega arith;
  acked = omega arith;
  used_up = refl;
  offered_up = refl;
  bytes = λ q out.
      write_le-IsBytes 8 0x2_0000 (2 ^ 63 + 1032) (write64 0x2_0408 3064 (λ p. 0))
        (write_le-IsBytes 8 0x2_0408 3064 (λ p. 0) (λ p. omega arith)) q;
}

base-Placed : Placed page base 0x5_0000 in_use
base-Placed = record {
  queue_arena = inr (omega arith);
  static_queue = inr (omega arith);
  static_arena = inr (omega arith);
}

abbrev events : List Event
events = device_writes (disk_device 0x4_0000) ∷ interrupted ∷ []

abbrev buffer_at : ℕ → Buffer
buffer_at p = record { buffer = p; len = 1024 }

-- A read of 2000 bytes from byte 1032 on, whose direct buffer is the block in use.
abbrev begun : ReadState
begun = record {
  offset_byte = 8;
  bytes_read = 0;
  bytes_left = 2000;
  blocks_seen = 0;
  offset_block = 1;
  direct_buffer = buffer_at 0x2_0008;
  indirect_buffer = buffer_at 0x3408;
  double_indirect_buffer = buffer_at 0x3810;
  triple_indirect_buffer = buffer_at 0x3c18;
  izones = 0x3408;
  iizones = 0x3810;
  iiizones = 0x3c18;
}

-- A file of two direct zones and one behind zone 20.
abbrev linked_file : Inode
linked_file = record {
  mode = 0x8000;
  nlinks = 1;
  uid = 0;
  gid = 0;
  size = 3072;
  atime = 0;
  mtime = 0;
  ctime = 0;
  zones = λ i. if i == 0 then 10 else if i == 3 then 11 else if i == 7 then 20 else 0;
}

linked_zones : file_zones linked_disk linked_file ≡ 10 ∷ 11 ∷ 30 ∷ []
unfolding single double triple read_le
linked_zones = refl

linked_file-Linked : Linked linked_disk linked_file
linked_file-Linked = record {
  first = λ n lo hi. ground arith;
  double_indirect = tt;
  triple_indirect = tt;
}

begun-Separate : Separate (block_driver page base 0x5_0000 in_use) 0x8000 2000 begun
begun-Separate = record {
  izones = refl;
  iizones = refl;
  iiizones = refl;
  direct_indirect = inr (omega arith);
  direct_double = inr (omega arith);
  direct_triple = inr (omega arith);
  indirect_double = inl (omega arith);
  indirect_triple = inl (omega arith);
  double_triple = inl (omega arith);
  not_own = λ q owned. ground arith;
  reader = λ q lo hi. ground arith;
}

three_zones-Reading :
    Reading (block_driver page base 0x5_0000 in_use) 0x8000 (10 ∷ 11 ∷ 30 ∷ []) begun started
three_zones-Reading = record {
  on_disk = (omega arith, (omega arith, (omega arith, tt)));
  bytes = started-Ready;
  seen = omega arith;
  some_left = omega arith;
  whole_left = refl;
  whole_offset = refl;
  small = omega arith;
  fits = omega arith;
  room = record {
    apart = inl (omega arith);
    not_own = λ q lo hi. ground arith;
    direct = λ q lo hi. ground arith;
  };
}

linked_zones-le : 3032 ≤ 1024 * length (file_zones linked_disk linked_file)
linked_zones-le = subst (λ (zs : List ℕ). 3032 ≤ 1024 * length zs) (sym linked_zones) (omega arith)

read_zones-ServedByDevice_example :
    Served linked_disk
      (block_driver page base 0x5_0000 in_use)
      (scratch begun)
      0x8000
      2000
      begun
      (file_zones linked_disk linked_file)
      1032
      2000
      begun
      started
      (read_zones (read page events (some base) 0x5_0000) linked_file 0x8000 begun started)
read_zones-ServedByDevice_example =
    read_zones-ServedByDevice page base 0x5_0000 in_use events (disk_device 0x4_0000) linked_disk
      base-Placed (disk_device-Reads 0x4_0000) (serve (answer [])) 0x8000 2000 begun linked_file
      started begun-Separate linked_file-Linked
      (subst
        (λ (zs : List ℕ). Reading (block_driver page base 0x5_0000 in_use) 0x8000 zs begun started)
        (sym linked_zones) three_zones-Reading)
      refl refl linked_zones-le

-- The superblock of a disk with inodes from block 4 on.
abbrev minix : SuperBlock
minix = record {
  ninodes = 64;
  pad0 = 0;
  imap_blocks = 1;
  zmap_blocks = 1;
  first_data_zone = 8;
  log_zone_size = 0;
  pad1 = 0;
  max_size = 0x7fff_ffff;
  zones = 1024;
  magic = 0x4d5a;
  pad2 = 0;
  block_size = 1024;
  disk_version = 0;
}

abbrev memory_of : {A : Type 0} → Run A → Memory
memory_of (ok a m) = m
memory_of panic = λ q. 0
memory_of out_of_fuel = λ q. 0

abbrev halved : Memory
halved = write64 0x2_0810 2032 (write64 0x2_0810 0 (write64 0x2_0408 (2 ^ 63 + 3064) started))

abbrev with_buffer : Memory
with_buffer = write64 0x2_0408 (2 ^ 63 + 1032) halved

abbrev with_request : Memory
with_request = memory_of (kmalloc page 32 with_buffer)

buffer_made : kmalloc page 1024 started ≡ ok 0x2_0410 with_buffer
unfolding kmalloc align_val is_free get_size set_taken set_free set_size read_le write_le
buffer_made = refl

request_made : kmalloc page 32 with_buffer ≡ ok 0x2_0818 with_request
unfolding kmalloc align_val is_free get_size set_taken set_free set_size read_le write_le
request_made = refl

started-IsBytes : IsBytes started
started-IsBytes =
    write_le-IsBytes 8 0x2_0000 (2 ^ 63 + 1032) (write64 0x2_0408 3064 (λ p. 0))
      (write_le-IsBytes 8 0x2_0408 3064 (λ p. 0) (λ p. omega arith))

with_buffer-IsBytes : IsBytes with_buffer
with_buffer-IsBytes = write_le-IsBytes 8 0x2_0408 (2 ^ 63 + 1032) halved (
    write_le-IsBytes 8 0x2_0810 2032 (write64 0x2_0810 0 (write64 0x2_0408 (2 ^ 63 + 3064) started))
      (write_le-IsBytes 8 0x2_0810 0 (write64 0x2_0408 (2 ^ 63 + 3064) started)
        (write_le-IsBytes 8 0x2_0408 (2 ^ 63 + 3064) started started-IsBytes)))

get_inode-InodeAt_example :
    (inode : Inode) × (h : Memory) × (cs : Heap) × (get_inode
        (read page events (some base) 0x5_0000)
        page
        minix
        18
        started
      ≡ ok (some inode) h)
    × InodeAt linked_disk (inode_area minix + (18 - 1) * 64) inode
    × Arena page cs h
    × (used 0x2_0000 cs ≡ in_use)
get_inode-InodeAt_example =
    get_inode-InodeAt page base 0x5_0000 in_use events (disk_device 0x4_0000) linked_disk
      base-Placed (disk_device-Reads 0x4_0000) (serve (answer [])) minix 18 started-Ready refl
      (omega arith) (omega arith) (omega arith) (omega arith) buffer_made (omega arith) request_made
      (omega arith) with_buffer-IsBytes
