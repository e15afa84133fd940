-- ===== src/Alloc/Pages/Table.antt =====
-- Tables of flags in which the pages are taken in runs, each closed by a flag for its last page.
use corrosion.Prelude.{
  ℕ, ◌+◌, ◌-◌, ◌*◌, ◌^◌, ◌≤◌, ◌<◌, ◌≡◌, refl, ◌⊎◌, inl, inr, arith, true, false, lt-or-le,
}
use corrosion.Machine.{Memory, null, Run, ok}
use corrosion.Alloc.Bytes.{page_size}
use corrosion.Alloc.PageFlags.{is_taken, is_last}
use corrosion.Alloc.Pages.{Layout, num_pages, alloc}
use corrosion.Alloc.Pages.Search.{
  flags, PagesTaken, PagesOutcome, no_run, found, alloc-PagesOutcome,
}

module _ (l : Layout) where
  -- A free page is no last page, and behind a taken page that is not the last of its run comes another
  -- taken page.
  pub record IsTable (m : Memory) : Type 0 where
    pub free :
        (k : ℕ) → k < num_pages l → is_taken (flags l m k) ≡ false → is_last (flags l m k) ≡ false
    pub goes_on :
        (k : ℕ)
        → k < num_pages l
        → is_taken (flags l m k) ≡ true
        → is_last (flags l m k) ≡ false
        → (k + 1 < num_pages l) × (is_taken (flags l m (k + 1)) ≡ true)

  pub IsTable-empty : (m : Memory) → ((k : ℕ) → k < num_pages l → flags l m k ≡ 0) → IsTable m
  unfolding is_taken is_last
  IsTable-empty m empty = record {
    free = λ k lt free. rw (empty k lt) refl;
    goes_on = λ k lt taken more. absurd (ground (arith, empty k lt));
  }

  -- The invariant is one of the flags alone.
  pub IsTable-same :
      (m g : Memory)
      → ((k : ℕ) → k < num_pages l → flags l g k ≡ flags l m k)
      → IsTable m
      → IsTable g
  IsTable-same m g same table = record {
    free = λ k lt free. let e = same k lt in rw e (table.free k lt (rw (← e) free));
    goes_on = λ k lt taken more.
        let e = same k lt in
        let (room, next) = table.goes_on k lt (rw (← e) taken) (rw (← e) more) in
        (room, rw (same (k + 1) room) next);
  }

  module _ {start pages : ℕ} {m g : Memory} {ptr : ℕ} (some_pages : 0 < pages) (table : IsTable m)
      (t : PagesTaken l start pages m g ptr) where
    same : (k : ℕ) → (k < t.i) ⊎ (t.i + pages ≤ k) → flags l g k ≡ flags l m k
    same k (inl lo) = t.outside (l.heap_start + k) (inl (omega arith))
    same k (inr hi) = t.outside (l.heap_start + k) (inr (omega arith))

    still_taken : (k : ℕ) → is_taken (flags l m k) ≡ true → is_taken (flags l g k) ≡ true
    still_taken k taken = elim (lt-or-le k t.i) [
      | inl lo ↦ rw (same k (inl lo)) taken
      | inr hi ↦ elim (lt-or-le k (t.i + pages)) [
        | inl inside ↦ t.taken k hi inside
        | inr out ↦ rw (same k (inr out)) taken
      ]
    ]

    outside_goes_on :
        (k : ℕ)
        → flags l g k ≡ flags l m k
        → k < num_pages l
        → is_taken (flags l g k) ≡ true
        → is_last (flags l g k) ≡ false
        → (k + 1 < num_pages l) × (is_taken (flags l g (k + 1)) ≡ true)
    outside_goes_on k e lt taken more =
        let (room, next) = table.goes_on k lt (rw (← e) taken) (rw (← e) more) in
        (room, still_taken (k + 1) next)

    pub PagesTaken-IsTable : IsTable g
    PagesTaken-IsTable = record {
      free = λ k lt free. elim (lt-or-le k t.i) [
        | inl lo ↦ let e = same k (inl lo) in rw e (table.free k lt (rw (← e) free))
        | inr hi ↦ elim (lt-or-le k (t.i + pages)) [
          | inl inside ↦ cc (t.taken k hi inside)
          | inr out ↦ let e = same k (inr out) in rw e (table.free k lt (rw (← e) free))
        ]
      ];
      goes_on = λ k lt taken more. elim (lt-or-le k t.i) [
        | inl lo ↦ outside_goes_on k (same k (inl lo)) lt taken more
        | inr hi ↦ elim (lt-or-le k (t.i + pages)) [
          | inl inside ↦ elim (lt-or-le (k + 1) (t.i + pages)) [
            | inl next ↦ (omega (arith, t.room), t.taken (k + 1) (omega arith) next)
            | inr end ↦
                let at : t.i + pages - 1 ≡ k = omega arith in
                let closed : is_last (flags l g k) ≡ true = rw (← at) t.last in cc
          ]
          | inr out ↦ outside_goes_on k (same k (inr out)) lt taken more
        ]
      ];
    }

  -- If the request is not empty and not larger than the heap, and the addresses of the heap's pages do
  -- not overflow, `alloc` returns with the table well-formed if it was so before.
  pub alloc-IsTable :
      (start pages : ℕ) (m : Memory)
      → 0 < pages
      → pages ≤ num_pages l
      → start + page_size * num_pages l < 2 ^ 64
      → IsTable m
      → (ptr : ℕ) × (g : Memory) × (alloc l start pages m ≡ ok ptr g) × IsTable g
  alloc-IsTable start pages m some_pages room bounded table =
      by_outcome (alloc l start pages m)
        (alloc-PagesOutcome l start pages m some_pages room bounded)
    where
      by_outcome :
          (r : Run ℕ)
          → PagesOutcome l start pages m r
          → (ptr : ℕ) × (g : Memory) × (r ≡ ok ptr g) × IsTable g
      by_outcome _ (no_run all) = (null, m, refl, table)
      by_outcome _ (found {g} {ptr} t) = (ptr, g, refl, PagesTaken-IsTable some_pages table t)
