-- ===== src/Minixfs3/Inodes/Fetch.antt =====
-- What comes from the disk through a buffer, and the memory of the buffer.
use corrosion.Prelude.{
  ℕ, ◌+◌, ◌-◌, ◌*◌, ◌%◌, ◌^◌, ◌≤◌, ◌<◌, ◌≡◌, ◌≢◌, ◌⊎◌, inl, refl, ap, sym, ◌∙◌, arith, true, false,
  List, ◌∷◌, ◌++◌, ◌==◌, some,
}
use corrosion.Machine.{Memory, null, Run, ok, read_le}
use corrosion.Machine.Words.{IsBytes, read_le-moved, read_le-same}
use corrosion.Alloc.Bytes.{ByteGrainAllocator, kmalloc, kfree, page_size}
use corrosion.Alloc.Bytes.Chunks.{Heap, chunk, total, total-Chunks, total-append}
use corrosion.Alloc.Bytes.Data.{holds_new}
use corrosion.Alloc.Bytes.Find.{used-Found}
use corrosion.Alloc.Bytes.Malloc.{Arena, Allocated, chunk_bytes, kmalloc-Outcome, Outcome-placed}
use corrosion.Alloc.Bytes.Room.{has_room, has_room-free}
use corrosion.Alloc.Bytes.RoundTrip.{shape, taken-Arena, same_blocks, after}
use corrosion.Alloc.Bytes.Used.{used, used-append, kfree-OneLess}
use corrosion.Alloc.Init.{alloc_bytes, free_bytes}
use corrosion.Block.{BlockDevice, avail_idx_at, used_idx_at}
use corrosion.Block.Static.{read}
use corrosion.Block.Wait.{Event}
use corrosion.Block.Wait.Schedule.{Serves}
use corrosion.Block.Wait.Served.{byte_spared}
use corrosion.Buffer
use corrosion.Minixfs3.{SuperBlock, Inode, inode_offset_and_index, is_minixfs, read_inode}
use corrosion.Minixfs3.Geometry.{inode_area, inode_offset_and_index-Located}
use corrosion.Minixfs3.Read.{BlockRead}
use corrosion.Minixfs3.Read.Ready.{driver_writes, DriverReady, Placed}
use corrosion.Minixfs3.Read.Driven.{DeviceReads, read_static-Reads}
use corrosion.Minixfs3.Inodes.{from_disk, get_inode}

-- Where a request has been placed, there was room.
placed_room :
    {a : ByteGrainAllocator} {cs : Heap} {m g : Memory} {p : ℕ}
    → Arena a cs m
    → kmalloc a 32 m ≡ ok p g
    → p ≢ null
    → has_room 40 cs ≡ true
placed_room {a} {cs} {m} {g} {p} arena made ne =
    let r : Allocated (chunk_bytes 32) a.head (a.head + a.alloc * page_size) cs m g p =
      Outcome-placed (kmalloc-Outcome arena 32 (omega arith)) made ne in
    rw r.splits (has_room-free 40 r.before r.s r.after r.fits)

module _ {A : Type 0} (a : ByteGrainAllocator) (block_read : BlockRead) (size offset : ℕ)
    (f : ℕ → Memory → A) where
  from_disk-steps :
      (p : ℕ) (m m₁ g h : Memory)
      → kmalloc a size m ≡ ok p m₁
      → p ≢ null
      → block_read p size offset m₁ ≡ ok tt g
      → kfree a p g ≡ ok tt h
      → from_disk block_read a size offset f m ≡ ok (f p g) h
  unfolding from_disk Buffer.new Buffer.drop alloc_bytes free_bytes
  from_disk-steps p m m₁ g h made ne step freed =
      let nonzero : (p == null) ≡ false = ground arith in rw (made, step, nonzero, freed) refl

module _ (alloc : ByteGrainAllocator) (base : BlockDevice) (at : ℕ) (bs : List (ℕ × ℕ))
    (events : List Event) (f : Memory → Memory) (disk : ℕ → ℕ) (placed : Placed alloc base at bs)
    (device : DeviceReads disk base.queue f) (serves : Serves f events) where
  -- The value has been computed from the disk's bytes at `p`, and the blocks in use are as before.
  record Fetched {A : Type 0} (offset : ℕ) (value : ℕ → Memory → A) (r : Run A) : Type 0 where
    pub p : ℕ
    pub g : Memory
    pub h : Memory
    pub cs' : Heap
    pub returns : r ≡ ok (value p g) h
    pub bytes : (i : ℕ) → i < 1024 → g (p + i) ≡ disk (offset + i)
    pub arena : Arena alloc cs' h
    pub blocks : used alloc.head cs' ≡ bs

  module _ {m m₁ m₂ : Memory} {p rq : ℕ} (ready : DriverReady alloc base at bs m)
      (made : kmalloc alloc 1024 m ≡ ok p m₁) (ne : p ≢ null)
      (room : kmalloc alloc 32 m₁ ≡ ok rq m₂) (found : rq ≢ null) (is_bytes : IsBytes m₁) where
    r :
        Allocated
          (chunk_bytes 1024)
          alloc.head
          (alloc.head + alloc.alloc * page_size)
          ready.cs
          m
          m₁
          p
    r = Outcome-placed (kmalloc-Outcome ready.arena 1024 (omega arith)) made ne

    abbrev n : ℕ
    n = (shape ready.arena r).n

    abbrev rest : Heap
    rest = after ready.arena r

    abbrev here : ℕ
    here = alloc.head + total r.before

    abbrev with_buffer : List (ℕ × ℕ)
    with_buffer = used alloc.head r.before ++ (here, n) ∷ used (here + n) rest

    end : here + (n + total rest) ≡ alloc.head + alloc.alloc * page_size
    end =
        let sum = total-append r.before (chunk true n ∷ rest) in
        omega (
          arith,
          sum,
          total-Chunks m₁ alloc.head (alloc.head + alloc.alloc * page_size)
              (r.before ++ chunk true n ∷ rest) (taken-Arena ready.arena r).chunks,
        )

    -- The allocation has changed nothing outside the arena.
    same_outside :
        (q : ℕ) → (q < alloc.head) ⊎ (alloc.head + alloc.alloc * page_size ≤ q) → m₁ q ≡ m q
    same_outside q out = r.spares q (
        byte_spared alloc ready.cs q (total-Chunks m alloc.head _ ready.cs ready.arena.chunks)
          (inl out))

    with_buffer-Ready : DriverReady alloc base at with_buffer m₁
    with_buffer-Ready =
        let same : (k : ℕ)
            → ((q : ℕ)
                → k ≤ q
                → q < k + 2
                → (q < alloc.head) ⊎ (alloc.head + alloc.alloc * page_size ≤ q))
            → read_le 2 k m₁ ≡ read_le 2 k m =
          λ k out. read_le-same 2 k m m₁ (λ q lo hi. same_outside q (out q lo hi)) in
        let index = same at (λ q lo hi. ground (arith, placed.static_arena)) in
        let count = same (at + 2) (λ q lo hi. ground (arith, placed.static_arena)) in
        record {
          cs = r.before ++ chunk true n ∷ rest;
          arena = taken-Arena ready.arena r;
          blocks = used-append alloc.head r.before (chunk true n ∷ rest);
          room = placed_room (taken-Arena ready.arena r) room found;
          small = rw index ready.small;
          acked = rw count ready.acked;
          used_up =
              same (used_idx_at base.queue) (λ q lo hi. ground (arith, placed.queue_arena))
              ∙ ready.used_up
              ∙ sym count;
          offered_up =
              same (avail_idx_at base.queue) (λ q lo hi. ground (arith, placed.queue_arena))
              ∙ ready.offered_up
              ∙ sym count;
          bytes = λ q out. is_bytes q;
        }

    buffer_free : (q : ℕ) → p ≤ q → q < p + 1024 → driver_writes alloc base at with_buffer q ≡ false
    buffer_free q lo hi =
        let enough : 1032 ≤ n = (shape ready.arena r).enough in
        let held =
          holds_new (used alloc.head r.before) (used (here + n) rest) here n q
            (omega (arith, r.address)) (omega (arith, r.address, enough)) in
        ground (
          arith, held, end, enough, r.address, ready.arena.bounded, placed.queue_arena,
          placed.static_arena,
        )

    from_disk-Fetched :
        {A : Type 0} (offset : ℕ) (value : ℕ → Memory → A)
        → offset % 512 ≡ 0
        → offset < 2 ^ 32
        → Fetched offset value
            (from_disk (read alloc events (some base) at) alloc 1024 offset value m)
    from_disk-Fetched offset value aligned small =
        let placed₁ : Placed alloc base at with_buffer = record {
          queue_arena = placed.queue_arena;
          static_queue = placed.static_queue;
          static_arena = placed.static_arena;
        } in
        let (g, step, ready₂, bytes, _) =
          (read_static-Reads alloc base at with_buffer events f disk placed₁ device serves).reads p
            offset m₁ with_buffer-Ready aligned small buffer_free in
        let chunk_at =
          used-Found alloc.head ready₂.cs (used alloc.head r.before) here n (used (here + n) rest)
            ready₂.blocks in
        let (cs', h, freed, arena', _, less, _, _) =
          kfree-OneLess alloc chunk_at.before n chunk_at.after g
            (rw chunk_at.chunks at ready₂.arena) in
        record {
          p = p;
          g = g;
          h = h;
          cs' = cs';
          returns =
              from_disk-steps alloc (read alloc events (some base) at) 1024 offset value p m m₁ g h
                made ne step
                (ap (λ (q : ℕ). kfree alloc q g) (omega (arith, r.address, chunk_at.place))
                  ∙ freed);
          bytes = bytes;
          arena = arena';
          blocks =
              less
              ∙ ap (λ t. used alloc.head chunk_at.before ++ used (t + n) chunk_at.after)
                  chunk_at.place
              ∙ chunk_at.blocks
              ∙ sym (used-append alloc.head r.before (chunk false n ∷ rest))
              ∙ same_blocks ready.arena r
              ∙ ready.blocks;
        }

-- The fields of the inode are the little-endian words of the 64 bytes at `pos`.
pub record InodeAt (disk : ℕ → ℕ) (pos : ℕ) (i : Inode) : Type 0 where
  pub mode : i.mode ≡ read_le 2 pos disk
  pub nlinks : i.nlinks ≡ read_le 2 (pos + 2) disk
  pub uid : i.uid ≡ read_le 2 (pos + 4) disk
  pub gid : i.gid ≡ read_le 2 (pos + 6) disk
  pub size : i.size ≡ read_le 4 (pos + 8) disk
  pub atime : i.atime ≡ read_le 4 (pos + 12) disk
  pub mtime : i.mtime ≡ read_le 4 (pos + 16) disk
  pub ctime : i.ctime ≡ read_le 4 (pos + 20) disk
  pub zones : (k : ℕ) → k < 10 → i.zones k ≡ read_le 4 (pos + 24 + 4 * k) disk

-- An inode whose 64 bytes have been copied.
read_inode-moved :
    (p q : ℕ) (m g : Memory)
    → ((i : ℕ) → i < 64 → g (p + i) ≡ m (q + i))
    → InodeAt m q (read_inode p g)
unfolding read_inode
read_inode-moved p q m g same = record {
  mode = read_le-moved 2 p q m g (λ j lt. same j (omega arith));
  nlinks = field 2 2 (omega arith);
  uid = field 2 4 (omega arith);
  gid = field 2 6 (omega arith);
  size = field 4 8 (omega arith);
  atime = field 4 12 (omega arith);
  mtime = field 4 16 (omega arith);
  ctime = field 4 20 (omega arith);
  zones = λ k lt.
      let to : p + 24 + 4 * k ≡ p + (24 + 4 * k) = omega arith in
      let from : q + 24 + 4 * k ≡ q + (24 + 4 * k) = omega arith in
      rw (to, from) (field 4 (24 + 4 * k) (omega arith));
}
  where
    field : (n o : ℕ) → o + n ≤ 64 → read_le n (p + o) g ≡ read_le n (q + o) m
    field n o fits = read_le-moved n (p + o) (q + o) m g (λ j lt.
        let at : p + o + j ≡ p + (o + j) = omega arith in
        let from : q + o + j ≡ q + (o + j) = omega arith in
        ap g at ∙ same (o + j) (omega arith) ∙ ap m (sym from))

module _ (a : ByteGrainAllocator) (block_read : BlockRead) where
  get_inode-steps :
      (self : SuperBlock) (inode_num offset index : ℕ) (m h : Memory) (inode : Inode)
      → is_minixfs self ≡ true
      → inode_offset_and_index self inode_num ≡ some (offset, index)
      → from_disk block_read a 1024 offset (λ p. read_inode (p + 64 * index)) m ≡ ok inode h
      → get_inode block_read a self inode_num m ≡ ok (some inode) h
  unfolding get_inode
  get_inode-steps self inode_num offset index m h inode minix located fetched =
      rw (minix, located, fetched) refl

module _ (alloc : ByteGrainAllocator) (base : BlockDevice) (at : ℕ) (bs : List (ℕ × ℕ))
    (events : List Event) (f : Memory → Memory) (disk : ℕ → ℕ) (placed : Placed alloc base at bs)
    (device : DeviceReads disk base.queue f) (serves : Serves f events) where
  -- While the device serves each request of `block::read` with the disk's bytes and interrupts after
  -- that, and the arena, the queue and the static variable of the driver do not overlap: where no
  -- request is under way, and the arena has room for a block and then for a request, `get_inode` on a
  -- MINIX superblock whose bitmaps sum up within 16 bits, for an inode's number from 1 on that lies
  -- within the first 4 GB of the disk, returns the inode whose fields are the words at its place in
  -- the array of 64-byte records on the disk, and leaves a well-formed arena with the same blocks in
  -- use.
  pub get_inode-InodeAt :
      {m m₁ m₂ : Memory} {p rq : ℕ} (self : SuperBlock) (inode_num : ℕ)
      → DriverReady alloc base at bs m
      → is_minixfs self ≡ true
      → 1 ≤ inode_num
      → inode_num < 2 ^ 32
      → 2 + self.imap_blocks + self.zmap_blocks < 2 ^ 16
      → inode_area self + inode_num * 64 < 2 ^ 32
      → kmalloc alloc 1024 m ≡ ok p m₁
      → p ≢ null
      → kmalloc alloc 32 m₁ ≡ ok rq m₂
      → rq ≢ null
      → IsBytes m₁
      → (inode : Inode) × (h : Memory) × (cs : Heap) × (get_inode
            (read alloc events (some base) at)
            alloc
            self
            inode_num
            m
          ≡ ok (some inode) h)
        × InodeAt disk (inode_area self + (inode_num - 1) * 64) inode
        × Arena alloc cs h
        × (used alloc.head cs ≡ bs)
  get_inode-InodeAt {m} self inode_num ready minix least fits areas near made ne room found
        is_bytes =
      let (offset, index, located, place) =
        inode_offset_and_index-Located self inode_num least fits areas in
      let fetched =
        from_disk-Fetched alloc base at bs events f disk placed device serves ready made ne room
          found is_bytes offset (λ p'. read_inode (p' + 64 * index)) (omega (arith, place.aligned))
          (omega (arith, place.place, near)) in
      (
        read_inode (fetched.p + 64 * index) fetched.g,
        fetched.h,
        fetched.cs',
        get_inode-steps alloc (read alloc events (some base) at) self inode_num offset index m
            fetched.h _ minix located fetched.returns,
        read_inode-moved (fetched.p + 64 * index) (inode_area self + (inode_num - 1) * 64) disk
            fetched.g
            (λ i lt.
              let here : fetched.p + 64 * index + i ≡ fetched.p + (64 * index + i) = omega arith in
              let there : offset + (64 * index + i) ≡ inode_area self + (inode_num - 1) * 64 + i =
                omega (arith, place.place) in
              ap fetched.g here
              ∙ fetched.bytes (64 * index + i) (omega (arith, place.within))
              ∙ ap disk there),
        fetched.arena,
        fetched.blocks,
      )
