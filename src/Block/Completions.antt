-- ===== src/Block/Completions.antt =====
-- `use_queue` when the device has completed any number of requests.
use mathlib.Core.List.{nil≢cons}
use corrosion.Prelude.{
  ℕ, zero, suc, ◌+◌, ◌%◌, ◌^◌, ◌<◌, ◌≡◌, ◌≢◌, refl, sym, ap, ◌∙◌, arith, Bool, true, false, ◌==◌,
  List, [], ◌∷◌, ◌++◌, lt→ltb,
}
use corrosion.Machine.{Memory, Run, ok, read_le}
use corrosion.Machine.Words.{read_le-same}
use corrosion.Alloc.Bytes.{ByteGrainAllocator}
use corrosion.Alloc.Bytes.Chunks.{chunk, Heap, total}
use corrosion.Alloc.Bytes.Malloc.{Arena}
use corrosion.Alloc.Bytes.Used.{used}
use corrosion.Alloc.Init.{free_bytes}
use corrosion.Block.{BlockDevice, desc_at, used_idx_at, used_ring_at, use_queue_loop, use_queue}
use corrosion.Block.Queue.{
  QueueApart, Idle, SameQueue, acknowledged, free_bytes-SameQueue, use_queue_loop-Idle,
}

-- Where the block `(q, n)` stands in the arena.
record Placed (p : ℕ) (cs : Heap) (xs : List (ℕ × ℕ)) (q n : ℕ) (ys : List (ℕ × ℕ)) : Type 0 where
  before : Heap
  after : Heap
  splits : cs ≡ before ++ chunk true n ∷ after
  address : q ≡ p + total before
  left : used p before ≡ xs
  right : used (q + n) after ≡ ys

cons-Placed :
    (p : ℕ) (taken : Bool) (s : ℕ) (cs : Heap) (xs : List (ℕ × ℕ)) (q n : ℕ) (ys : List (ℕ × ℕ))
    → ((zs : List (ℕ × ℕ)) → used (p + s) cs ≡ zs ++ (q, n) ∷ ys → Placed (p + s) cs zs q n ys)
    → used p (chunk taken s ∷ cs) ≡ xs ++ (q, n) ∷ ys
    → Placed p (chunk taken s ∷ cs) xs q n ys
cons-Placed p false s cs xs q n ys later e =
    let r = later xs e in
    record {
      before = chunk false s ∷ r.before;
      after = r.after;
      splits = ap (λ ds. chunk false s ∷ ds) r.splits;
      address = omega (arith, r.address);
      left = r.left;
      right = r.right;
    }
cons-Placed p true s cs [] q n ys later e =
    let head : p ≡ q = cc in
    let size : s ≡ n = cc in
    let rest : used (p + s) cs ≡ ys = cc in
    record {
      before = [];
      after = cs;
      splits = rw size;
      address = omega (arith, head);
      left = refl;
      right = rw (sym head, sym size, rest);
    }
cons-Placed p true s cs (x ∷ xs) q n ys later e =
    let rest : used (p + s) cs ≡ xs ++ (q, n) ∷ ys = cc in
    let first : (p, s) ≡ x = cc in
    let r = later xs rest in
    record {
      before = chunk true s ∷ r.before;
      after = r.after;
      splits = ap (λ ds. chunk true s ∷ ds) r.splits;
      address = omega (arith, r.address);
      left = rw (first, r.left);
      right = r.right;
    }

used-Placed :
    (p : ℕ) (cs : Heap) (xs : List (ℕ × ℕ)) (q n : ℕ) (ys : List (ℕ × ℕ))
    → used p cs ≡ xs ++ (q, n) ∷ ys
    → Placed p cs xs q n ys
used-Placed p [] [] q n ys e = absurd (nil≢cons e)
used-Placed p [] (x ∷ xs) q n ys e = absurd (nil≢cons e)
used-Placed p (c ∷ cs) xs q n ys e =
    cons-Placed p c.taken c.size cs xs q n ys (λ zs e'. used-Placed (p + c.size) cs zs q n ys e') e

-- The blocks `bs'` are `bs` without those behind whose headers the pointers are.
pub data Removed : List ℕ → List (ℕ × ℕ) → List (ℕ × ℕ) → Type 0 where
  none_more : {bs : List (ℕ × ℕ)} → Removed [] bs bs
  one_more :
      {p : ℕ} {ps : List ℕ} {bs bs' : List (ℕ × ℕ)} (xs : List (ℕ × ℕ)) (q n : ℕ)
      (ys : List (ℕ × ℕ))
      → p ≡ q + 8
      → bs ≡ xs ++ (q, n) ∷ ys
      → Removed ps (xs ++ ys) bs'
      → Removed (p ∷ ps) bs bs'

-- The next slot of the used ring names a descriptor whose address is `rq`.
pub record Next (self : BlockDevice) (rq : ℕ) (m : Memory) : Type 0 where
  pub more : read_le 2 (used_idx_at self.queue) m ≢ self.ack_used_idx
  pub id_small : read_le 4 (used_ring_at self.queue (self.ack_used_idx % 128)) m < 128
  pub request :
      read_le 8
        (desc_at self.queue (read_le 4 (used_ring_at self.queue (self.ack_used_idx % 128)) m))
        m
      ≡ rq

-- The device has completed the requests `rqs`, in this order.
abbrev pub Pending : BlockDevice → List ℕ → Memory → Type 0
Pending self [] m = Idle self m
Pending self (rq ∷ rqs) m = Next self rq m × Pending (acknowledged self) rqs m

abbrev pub acknowledged_all : BlockDevice → List ℕ → BlockDevice
acknowledged_all self [] = self
acknowledged_all self (rq ∷ rqs) = acknowledged_all (acknowledged self) rqs

abbrev pub length : List ℕ → ℕ
length [] = 0
length (rq ∷ rqs) = 1 + length rqs

Next-same :
    (self : BlockDevice) (rq : ℕ) (m g : Memory)
    → SameQueue self.queue m g
    → Next self rq m
    → Next self rq g
Next-same self rq m g same next =
    let i = self.ack_used_idx % 128 in
    let idx =
      read_le-same 2 (used_idx_at self.queue) m g (λ q lo hi. same q (omega arith) (omega arith)) in
    let id =
      read_le-same 4 (used_ring_at self.queue i) m g
        (λ q lo hi. same q (omega arith) (omega arith)) in
    let at =
      read_le-same 8 (desc_at self.queue (read_le 4 (used_ring_at self.queue i) m)) m g
        (λ q lo hi. same q (omega arith) (omega (arith, next.id_small))) in
    record {
      more = λ e. next.more (sym idx ∙ e);
      id_small = omega (arith, id, next.id_small);
      request = rw id (at ∙ next.request);
    }

Pending-same :
    (self : BlockDevice) (rqs : List ℕ) (m g : Memory)
    → SameQueue self.queue m g
    → Pending self rqs m
    → Pending self rqs g
Pending-same self [] m g same idle =
    read_le-same 2 (used_idx_at self.queue) m g (λ q lo hi. same q (omega arith) (omega arith))
    ∙ idle
Pending-same self (rq ∷ rqs) m g same (next, pending) =
    (Next-same self rq m g same next, Pending-same (acknowledged self) rqs m g same pending)

Next-step :
    (alloc : ByteGrainAllocator) (fuel : ℕ) (self : BlockDevice) (rq : ℕ) (m g : Memory)
    → Next self rq m
    → free_bytes alloc rq m ≡ ok tt g
    → use_queue_loop alloc (suc fuel) self m ≡ use_queue_loop alloc fuel (acknowledged self) g
unfolding use_queue_loop
Next-step alloc fuel self rq m g next returns =
    let test : (self.ack_used_idx == read_le 2 (used_idx_at self.queue) m) ≡ false =
      ground (arith, next.more) in
    let small =
      lt→ltb (read_le 4 (used_ring_at self.queue (self.ack_used_idx % 128)) m) 128 next.id_small in
    rw (test, small, next.request, returns)

-- What `use_queue` leaves: all requests acknowledged, their blocks no longer in use.
abbrev pub Drained :
    ByteGrainAllocator → BlockDevice → List ℕ → List (ℕ × ℕ) → Memory → Run BlockDevice → Type 0
Drained alloc self rqs bs m r =
    (cs : Heap) × (g : Memory) × (r ≡ ok (acknowledged_all self rqs) g)
    × Arena alloc cs g
    × (used alloc.head cs ≡ bs)
    × Idle (acknowledged_all self rqs) g
    × SameQueue self.queue m g

use_queue_loop-Drained :
    (alloc : ByteGrainAllocator) (rqs : List ℕ) (fuel : ℕ) (self : BlockDevice) (cs : Heap)
    (bs : List (ℕ × ℕ)) (m : Memory)
    → length rqs < fuel
    → Arena alloc cs m
    → QueueApart alloc self.queue
    → Pending self rqs m
    → Removed rqs (used alloc.head cs) bs
    → Drained alloc self rqs bs m (use_queue_loop alloc fuel self m)
use_queue_loop-Drained alloc rqs zero self cs bs m enough arena apart pending removed =
    absurd (omega arith)
use_queue_loop-Drained alloc [] (suc fuel) self cs bs m enough arena apart pending none_more =
    (cs, m, use_queue_loop-Idle alloc fuel self m pending, arena, refl, pending, λ q lo hi. refl)
use_queue_loop-Drained alloc (rq ∷ rqs) (suc fuel) self cs bs m enough arena apart (next, pending)
      (one_more xs q n ys at blocks removed) =
    let placed = used-Placed alloc.head cs xs q n ys blocks in
    let address : alloc.head + total placed.before + 8 ≡ rq = omega (arith, placed.address, at) in
    let behind : alloc.head + total placed.before + n ≡ q + n = omega (arith, placed.address) in
    let (cs', g, returns, arena', left, same, _, _) =
      free_bytes-SameQueue alloc self.queue placed.before n placed.after m
        (rw placed.splits at arena) apart in
    let left' : used alloc.head cs' ≡ xs ++ ys = left ∙ rw (behind, placed.left, placed.right) in
    let freed : free_bytes alloc rq m ≡ ok tt g = rw (sym address) returns in
    let (cs'', g', steps, arena'', blocks', idle, same') =
      use_queue_loop-Drained alloc rqs fuel (acknowledged self) cs' bs g (omega arith) arena' apart
        (Pending-same (acknowledged self) rqs m g same pending) (rw left' removed) in
    (
      cs'',
      g',
      Next-step alloc fuel self rq m g next freed ∙ steps,
      arena'',
      blocks',
      idle,
      λ q lo hi. same' q lo hi ∙ same q lo hi,
    )

-- When the device has completed any number of requests below 2^16, whose memory is that of distinct
-- blocks in use of a well-formed arena apart from the queue, `use_queue` returns: all are
-- acknowledged and their slots ready, exactly their blocks are no longer in use, the arena is
-- well-formed, nothing is left to acknowledge, and no byte of the queue has changed.
pub use_queue-Drained :
    (alloc : ByteGrainAllocator) (rqs : List ℕ) (self : BlockDevice) (cs : Heap) (bs : List (ℕ × ℕ))
    (m : Memory)
    → length rqs < 2 ^ 16
    → Arena alloc cs m
    → QueueApart alloc self.queue
    → Pending self rqs m
    → Removed rqs (used alloc.head cs) bs
    → Drained alloc self rqs bs m (use_queue alloc self m)
unfolding use_queue
use_queue-Drained alloc rqs self cs bs m enough =
    use_queue_loop-Drained alloc rqs (2 ^ 16) self cs bs m enough
