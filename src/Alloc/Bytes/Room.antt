-- ===== src/Alloc/Bytes/Room.antt =====
-- Arenas in which a request finds room.
use corrosion.Prelude.{
  ℕ, ◌+◌, ◌*◌, ◌≤◌, ◌<◌, ◌^◌, ◌≡◌, ◌≢◌, refl, arith, Bool, true, false, not, ◌&&◌, ◌||◌, leb, [],
  ◌∷◌, ◌++◌, Bool-cases, inl, inr,
}
use corrosion.Machine.{Memory, Run, ok, null}
use corrosion.Alloc.Bytes.{ByteGrainAllocator, kmalloc, page_size}
use corrosion.Alloc.Bytes.Chunks.{chunk, Heap}
use corrosion.Alloc.Bytes.Coalesce.{merge}
use corrosion.Alloc.Bytes.Malloc.{
  Arena, AllUnfit, Outcome, full, placed, chunk_bytes, kmalloc-Outcome,
}

-- Whether a free chunk has `size` bytes.
abbrev pub has_room : ℕ → Heap → Bool
has_room size [] = false
has_room size (c ∷ cs) = (not c.taken && leb size c.size) || has_room size cs

pub has_room-free :
    (size : ℕ) (before : Heap) (n : ℕ) (after : Heap)
    → size ≤ n
    → has_room size (before ++ chunk false n ∷ after) ≡ true
has_room-free size [] n after le = ground arith
has_room-free size (c ∷ cs) n after le = ground (arith, has_room-free size cs n after le)

-- Merging loses no room.
pub has_room-merge :
    (size : ℕ) (cs : Heap) → has_room size cs ≡ true → has_room size (merge cs) ≡ true
unfolding merge
has_room-merge size [] h = h
has_room-merge size (c ∷ []) h = h
has_room-merge size (c ∷ d ∷ cs) h = elim (Bool-cases (has_room size cs)) [
  | inl later ↦ ground (arith, has_room-merge size cs later, has_room-merge size (d ∷ cs), h)
  | inr none ↦ ground (arith, has_room-merge size (d ∷ cs), h, none)
]

AllUnfit-no_room : (size : ℕ) (cs : Heap) → AllUnfit size cs → has_room size cs ≡ false
AllUnfit-no_room size [] all = refl
AllUnfit-no_room size (c ∷ cs) (unfit, all) = ground (arith, unfit, AllUnfit-no_room size cs all)

Outcome-found :
    (a : ByteGrainAllocator) (size : ℕ) (cs : Heap) (m : Memory) (r : Run ℕ)
    → has_room size cs ≡ true
    → Outcome size a.head (a.head + a.alloc * page_size) cs m r
    → (ptr : ℕ) × (g : Memory) × (r ≡ ok ptr g) × (ptr ≢ null)
Outcome-found a size cs m r room (full all) =
    let none = AllUnfit-no_room size cs all in absurd (ground (arith, none, room))
Outcome-found a size cs m r room (placed {g} {ptr} allocated) =
    (ptr, g, refl, λ e. omega (arith, allocated.address, e))

-- Where there is room, `kmalloc` returns a pointer.
pub kmalloc-found :
    {a : ByteGrainAllocator} {cs : Heap} {m : Memory} (sz : ℕ)
    → Arena a cs m
    → chunk_bytes sz < 2 ^ 64
    → has_room (chunk_bytes sz) cs ≡ true
    → (ptr : ℕ) × (g : Memory) × (kmalloc a sz m ≡ ok ptr g) × (ptr ≢ null)
kmalloc-found {a} {cs} {m} sz arena fits room =
    Outcome-found a (chunk_bytes sz) cs m _ room (kmalloc-Outcome arena sz fits)
