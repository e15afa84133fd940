-- ===== src/Minixfs3/Read/Ready.antt =====
-- The states of memory in which `block::read` of block.rs can serve the reader of files.
use corrosion.Prelude.{
  ℕ, ◌+◌, ◌-◌, ◌*◌, ◌%◌, ◌^◌, ◌≤◌, ◌<◌, ◌≡◌, ◌⊎◌, inl, inr, sym, ap, ◌∙◌, arith, Bool, true, false,
  not, ◌&&◌, ◌||◌, leb, ltb, List, lt-or-le,
}
use corrosion.Machine.{Memory, Run, read_le}
use corrosion.Machine.Words.{read_le-same}
use corrosion.Alloc.Bytes.{ByteGrainAllocator, page_size}
use corrosion.Alloc.Bytes.Chunks.{Heap}
use corrosion.Alloc.Bytes.Malloc.{Arena}
use corrosion.Alloc.Bytes.Used.{used}
use corrosion.Alloc.Bytes.Data.{holds}
use corrosion.Alloc.Bytes.Room.{has_room}
use corrosion.Block.{BlockDevice, avail_idx_at, used_idx_at}
use corrosion.Block.Queue.{QueueApart, acknowledged}
use corrosion.Block.Static.{load, store, store-outside, store-idx, store-acked}
use corrosion.Block.Wait.Device.{Arena-data, waiting}
use corrosion.Block.Wait.Served.{Performed}
use corrosion.Minixfs3.Read.Driver.{Driver}

module _ (alloc : ByteGrainAllocator) (base : BlockDevice) (at : ℕ) (bs : List (ℕ × ℕ)) where
  abbrev pub limit : ℕ
  limit = alloc.head + alloc.alloc * page_size

  -- The bytes of the queue, of the arena's headers and free chunks, and of the static variable.
  abbrev pub driver_writes : ℕ → Bool
  driver_writes q =
      (leb base.queue q && ltb q (base.queue + 5128))
      || ((leb alloc.head q && ltb q limit && not (holds bs q))
          || ((leb at q && ltb q (at + 132)) || leb (2 ^ 64) q))

  -- No request is under way, `bs` are the blocks in use, and there is room for a request.
  pub record DriverReady (m : Memory) : Type 0 where
    pub cs : Heap
    pub arena : Arena alloc cs m
    pub blocks : used alloc.head cs ≡ bs
    pub room : has_room 40 cs ≡ true
    pub small : read_le 2 at m < 128
    pub acked : read_le 2 (at + 2) m < 2 ^ 16
    pub used_up : read_le 2 (used_idx_at base.queue) m ≡ read_le 2 (at + 2) m
    pub offered_up : read_le 2 (avail_idx_at base.queue) m ≡ read_le 2 (at + 2) m
    pub bytes : (q : ℕ) → driver_writes q ≡ false → m q < 256

  abbrev pub block_driver : Driver
  block_driver = record { writes = driver_writes; ready = DriverReady }

  -- Where a byte lies that is not the driver's.
  pub record NotOwn (q : ℕ) : Type 0 where
    pub queue : (q < base.queue) ⊎ (base.queue + 5128 ≤ q)
    pub arena : ((q < alloc.head) ⊎ (limit ≤ q)) ⊎ (holds bs q ≡ true)
    pub static : (q < at) ⊎ (at + 132 ≤ q)
    pub fits : q < 2 ^ 64

  pub not_own : (q : ℕ) → driver_writes q ≡ false → NotOwn q
  not_own q h = record {
    queue = ground (arith, h);
    arena = ground (arith, h);
    static = ground (arith, h);
    fits = ground (arith, h);
  }

  pub not_free :
      {m : Memory} (r : DriverReady m) (q : ℕ)
      → driver_writes q ≡ false
      → ((q < alloc.head) ⊎ (limit ≤ q)) ⊎ (holds (used alloc.head r.cs) q ≡ true)
  not_free r q out = rw (ap (λ bs'. holds bs' q) r.blocks) (not_own q out).arena

  -- The static variable, the queue and the arena do not overlap.
  pub record Placed : Type 0 where
    pub queue_arena : QueueApart alloc base.queue
    pub static_queue : (at + 132 ≤ base.queue) ⊎ (base.queue + 5128 ≤ at)
    pub static_arena : (at + 132 ≤ alloc.head) ⊎ (limit ≤ at)

  module _ (placed : Placed) where
    pub driver-stays :
        (m g : Memory)
        → DriverReady m
        → ((q : ℕ) → driver_writes q ≡ false → g q < 256)
        → ((q : ℕ) → driver_writes q ≡ true → g q ≡ m q)
        → DriverReady g
    driver-stays m g r bytes same =
        let static : (p : ℕ) → at ≤ p → p + 2 ≤ at + 132 → read_le 2 p g ≡ read_le 2 p m =
          λ p lo hi. read_le-same 2 p m g (λ q l h. same q (ground arith)) in
        let queue : (p : ℕ)
            → base.queue ≤ p
            → p + 2 ≤ base.queue + 5128
            → read_le 2 p g ≡ read_le 2 p m =
          λ p lo hi. read_le-same 2 p m g (λ q l h. same q (ground arith)) in
        let index = static at (omega arith) (omega arith) in
        let count = static (at + 2) (omega arith) (omega arith) in
        record {
          cs = r.cs;
          arena =
              Arena-data alloc r.cs m g
                (λ q lo hi out.
                  let free : holds bs q ≡ false = ap (λ t. holds t q) (sym r.blocks) ∙ out in
                  same q (ground (arith, free)))
                r.arena;
          blocks = r.blocks;
          room = r.room;
          small = rw index r.small;
          acked = rw count r.acked;
          used_up =
              queue (used_idx_at base.queue) (omega arith) (omega arith) ∙ r.used_up ∙ sym count;
          offered_up =
              queue (avail_idx_at base.queue) (omega arith) (omega arith)
              ∙ r.offered_up
              ∙ sym count;
          bytes = bytes;
        }

    -- After the request, the driver is ready again.
    pub served-DriverReady :
        (buffer offset : ℕ) (disk : ℕ → ℕ) (f : Memory → Memory) (rq : ℕ) (m₀ m : Memory)
        (r : DriverReady m₀) (x : Run BlockDevice)
        → ((i : ℕ) → disk i < 256)
        → ((q : ℕ) → driver_writes q ≡ false → m q ≡ m₀ q)
        → (p : Performed alloc (load base at m₀) buffer 1024 offset false f rq r.cs m x)
        → ((i : ℕ) → i < 1024 → f p.g (buffer + i) ≡ disk (offset + i))
        → DriverReady
            (store at (acknowledged (waiting (load base at m₀) (read_le 2 (at + 2) m₀ % 128))) p.h)
    served-DriverReady buffer offset disk f rq m₀ m r x disk_bytes spared p arrived =
        let self' = acknowledged (waiting (load base at m₀) (read_le 2 (at + 2) m₀ % 128)) in
        let g = store at self' p.h in
        let outside = store-outside at self' p.h in
        let queue : (a : ℕ)
            → base.queue ≤ a
            → a + 2 ≤ base.queue + 5128
            → read_le 2 a g ≡ read_le 2 a p.h =
          λ a lo hi.
            read_le-same 2 a p.h g (λ q l h. outside q (ground (arith, placed.static_queue))) in
        let index = store-idx at self' p.h (omega arith) in
        let count = store-acked at self' p.h (omega arith) in
        record {
          cs = p.cs';
          arena =
              Arena-data alloc p.cs' p.h g
                (λ q lo hi out. outside q (ground (arith, placed.static_arena))) p.arena;
          blocks = p.blocks ∙ r.blocks;
          room = p.room;
          small = rw index (omega arith);
          acked = rw count (omega arith);
          used_up =
              queue (used_idx_at base.queue) (omega arith) (omega arith) ∙ p.completed ∙ sym count;
          offered_up =
              queue (avail_idx_at base.queue) (omega arith) (omega arith) ∙ p.offered ∙ sym count;
          bytes = λ q out. ground (arith, outside q (not_own q out).static, byte q out);
        }
      where
        elsewhere :
            (q : ℕ) → driver_writes q ≡ false → (q < buffer) ⊎ (buffer + 1024 ≤ q) → p.h q < 256
        elsewhere q out off =
            let lies = not_own q out in
            let same : p.h q ≡ m q = p.kept q off lies.queue (not_free r q out) in
            ground (arith, same, spared q out, r.bytes q out)

        byte : (q : ℕ) → driver_writes q ≡ false → p.h q < 256
        byte q out = elim (lt-or-le q buffer) [
          | inl before ↦ elsewhere q out (inl before)
          | inr from ↦ elim (lt-or-le q (buffer + 1024)) [
            | inl inside ↦
                let here : buffer + (q - buffer) ≡ q = omega arith in
                ground (
                  arith,
                  p.answer q from inside,
                  ap (f p.g) here,
                  arrived (q - buffer) (omega arith),
                  disk_bytes (offset + (q - buffer)),
                )
            | inr behind ↦ elsewhere q out (inr behind)
          ]
        ]
