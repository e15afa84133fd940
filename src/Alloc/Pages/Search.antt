-- ===== src/Alloc/Pages/Search.antt =====
-- The search of `alloc`, in terms of the table of flags.
use corrosion.Prelude.{
  ℕ, zero, suc, ◌+◌, ◌-◌, ◌*◌, ◌^◌, ◌≤◌, ◌<◌, ◌≡◌, refl, ap, ◌∙◌, inl, inr, arith, true, false,
  ◌&&◌, ◌==◌, lt-or-le, Bool-cases, lt→ltb, le→leb,
}
use corrosion.Machine.{Memory, null, Run, ok}
use corrosion.Machine.Words.{SameOutside, write8_self, write8-ne}
use corrosion.Alloc.Bytes.{page_size}
use corrosion.Alloc.PageFlags.{
  page_flag_taken, page_flag_last, is_taken, is_free, is_last, set_flag, set_flag-taken,
  set_flag-last,
}
use corrosion.Alloc.Pages.{Layout, num_pages, change_flags, none_taken, mark, search, alloc}

module _ (l : Layout) where
  abbrev pub flags : Memory → ℕ → ℕ
  flags m i = m (l.heap_start + i)

  -- Pages `[i, j)` are free, and a page among them is taken.
  abbrev pub AllFree : ℕ → ℕ → Memory → Type 0
  AllFree i j m = (k : ℕ) → i ≤ k → k < j → is_taken (flags m k) ≡ false

  abbrev pub SomeTaken : ℕ → ℕ → Memory → Type 0
  SomeTaken i j m = (k : ℕ) × (i ≤ k) × (k < j) × (is_taken (flags m k) ≡ true)

  none_taken-AllFree :
      (left i j : ℕ) (m : Memory) → i + left ≡ j → none_taken l left i m ≡ true → AllFree i j m
  unfolding none_taken
  none_taken-AllFree zero i j m e h k lo hi = absurd (omega arith)
  none_taken-AllFree (suc left) i j m e h k lo hi = elim (lt-or-le i k) [
    | inl more ↦ none_taken-AllFree left (i + 1) j m (omega arith) (ground arith) k (omega arith) hi
    | inr here ↦ let at : k ≡ i = omega arith in rw at (ground arith)
  ]

  none_taken-SomeTaken :
      (left i j : ℕ) (m : Memory) → i + left ≡ j → none_taken l left i m ≡ false → SomeTaken i j m
  unfolding none_taken
  none_taken-SomeTaken zero i j m e h = cc
  none_taken-SomeTaken (suc left) i j m e h = elim (Bool-cases (is_taken (flags m i))) [
    | inl taken ↦ (i, omega arith, omega arith, taken)
    | inr free ↦
        let (k, lo, hi, taken) =
          none_taken-SomeTaken left (i + 1) j m (omega arith) (ground arith) in
        (k, omega arith, hi, taken)
  ]

  -- What marking does to the flags of the pages `[i, j)`.
  record Marked (i j : ℕ) (m g : Memory) : Type 0 where
    taken : (k : ℕ) → i ≤ k → k < j → is_taken (flags g k) ≡ true
    same_last : (k : ℕ) → i ≤ k → k < j → is_last (flags g k) ≡ is_last (flags m k)
    outside : SameOutside (l.heap_start + i) (l.heap_start + j) m g

  mark-Marked : (left i j : ℕ) (m : Memory) → i + left ≡ j → Marked i j m (mark l left i m)
  unfolding mark
  mark-Marked zero i j m e = record {
    taken = λ k lo hi. absurd (omega arith);
    same_last = λ k lo hi. absurd (omega arith);
    outside = λ q out. refl;
  }
  mark-Marked (suc left) i j m e =
      let rest =
        mark-Marked left (i + 1) j (change_flags l (set_flag page_flag_taken) i m) (omega arith) in
      let f = set_flag page_flag_taken (flags m i) in
      record {
        taken = λ k lo hi. elim (lt-or-le i k) [
          | inl more ↦ rest.taken k (omega arith) hi
          | inr here ↦
              let at : k ≡ i = omega arith in
              rw
                (
                  at,
                  rest.outside (l.heap_start + i) (inl (omega arith)),
                  write8_self (l.heap_start + i) f m,
                )
                (set_flag-taken (flags m i)).0
        ];
        same_last = λ k lo hi. elim (lt-or-le i k) [
          | inl more ↦
              rest.same_last k (omega arith) hi
              ∙ ap is_last (write8-ne (l.heap_start + i) f m (l.heap_start + k) (omega arith))
          | inr here ↦
              let at : k ≡ i = omega arith in
              rw
                (
                  at,
                  rest.outside (l.heap_start + i) (inl (omega arith)),
                  write8_self (l.heap_start + i) f m,
                )
                (set_flag-taken (flags m i)).1
        ];
        outside = λ q out.
            rest.outside q (ground arith) ∙ write8-ne (l.heap_start + i) f m q (ground arith);
      }

  -- A run of `pages` pages from page `i` on has been taken: the first that was free.
  pub record PagesTaken (start pages : ℕ) (m g : Memory) (ptr : ℕ) : Type 0 where
    pub i : ℕ
    pub room : i + pages ≤ num_pages l
    pub address : ptr ≡ start + page_size * i
    pub free : AllFree i (i + pages) m
    pub first : (j : ℕ) → j < i → SomeTaken j (j + pages) m
    pub taken : (k : ℕ) → i ≤ k → k < i + pages → is_taken (flags g k) ≡ true
    pub last : is_last (flags g (i + pages - 1)) ≡ true
    pub same_last : (k : ℕ) → i ≤ k → k + 1 < i + pages → is_last (flags g k) ≡ is_last (flags m k)
    pub outside : SameOutside (l.heap_start + i) (l.heap_start + (i + pages)) m g

  -- What a search for `pages` pages may return.
  pub data PagesOutcome (start pages : ℕ) (m : Memory) : Run ℕ → Type 0 where
    no_run :
        ((j : ℕ) → j + pages ≤ num_pages l → SomeTaken j (j + pages) m)
        → PagesOutcome start pages m (ok null m)
    found :
        {g : Memory} {ptr : ℕ}
        → PagesTaken start pages m g ptr
        → PagesOutcome start pages m (ok ptr g)

  module _ (start pages : ℕ) (m : Memory) (some_pages : 0 < pages) (room : pages ≤ num_pages l)
      (bounded : start + page_size * num_pages l < 2 ^ 64) where
    PagesTaken-at :
        (i : ℕ)
        → i + pages ≤ num_pages l
        → AllFree i (i + pages) m
        → ((j : ℕ) → j < i → SomeTaken j (j + pages) m)
        → PagesTaken start pages m
            (change_flags l (set_flag page_flag_last) (i + pages - 1) (mark l pages i m))
            (start + page_size * i)
    PagesTaken-at i fits free first =
        let marked = mark-Marked pages i (i + pages) m refl in
        let g = mark l pages i m in
        let e = i + pages - 1 in
        let f = set_flag page_flag_last (flags g e) in
        record {
          i = i;
          room = fits;
          address = refl;
          free = free;
          first = first;
          taken = λ k lo hi. elim (lt-or-le k e) [
            | inl before ↦
                rw (write8-ne (l.heap_start + e) f g (l.heap_start + k) (omega arith))
                  (marked.taken k lo hi)
            | inr here ↦
                let at : k ≡ e = omega arith in
                rw (at, write8_self (l.heap_start + e) f g)
                  ((set_flag-last (flags g e)).1 ∙ marked.taken e (omega arith) (omega arith))
          ];
          last = rw (write8_self (l.heap_start + e) f g) (set_flag-last (flags g e)).0;
          same_last = λ k lo hi.
              rw (write8-ne (l.heap_start + e) f g (l.heap_start + k) (omega arith))
                (marked.same_last k lo (omega arith));
          outside =
              λ q out. write8-ne (l.heap_start + e) f g q (ground arith) ∙ marked.outside q out;
        }

    SomeTaken-here :
        (i : ℕ)
        → (is_free (flags m i) && none_taken l pages i m) ≡ false
        → SomeTaken i (i + pages) m
    unfolding is_free
    SomeTaken-here i h = elim (Bool-cases (is_taken (flags m i))) [
      | inl taken ↦ (i, omega arith, omega arith, taken)
      | inr free ↦ none_taken-SomeTaken pages i (i + pages) m refl (ground arith)
    ]

    search-PagesOutcome :
        (left i : ℕ)
        → i + left ≡ num_pages l - pages + 1
        → ((j : ℕ) → j < i → SomeTaken j (j + pages) m)
        → PagesOutcome start pages m (search l start pages left i m)
    unfolding search
    search-PagesOutcome zero i e before = no_run (λ j fits. before j (omega arith))
    search-PagesOutcome (suc left) i e before =
        elim (Bool-cases (is_free (flags m i) && none_taken l pages i m)) [
          | inl hit ↦
              rw
                (
                  hit,
                  lt→ltb (page_size * i) (2 ^ 64) (omega arith),
                  lt→ltb (start + page_size * i) (2 ^ 64) (omega arith),
                )
                (found (
                  PagesTaken-at i (omega arith)
                    (none_taken-AllFree pages i (i + pages) m refl (ground arith)) before))
          | inr miss ↦ rw miss (
              search-PagesOutcome left (i + 1) (omega arith) λ j below. elim (lt-or-le j i) [
                | inl earlier ↦ before j earlier
                | inr here ↦ let at : j ≡ i = omega arith in rw at (SomeTaken-here i miss)
              ])
        ]

  -- If the request is not empty and not larger than the heap, and the addresses of the heap's pages do
  -- not overflow, `alloc` returns: null and no change of memory, if every run of that many pages has a
  -- taken page, and else the first free run, all taken and flagged as last at its end, with no other
  -- flag of the table changed.
  pub alloc-PagesOutcome :
      (start pages : ℕ) (m : Memory)
      → 0 < pages
      → pages ≤ num_pages l
      → start + page_size * num_pages l < 2 ^ 64
      → PagesOutcome start pages m (alloc l start pages m)
  unfolding alloc
  alloc-PagesOutcome start pages m some_pages room bounded =
      let nonzero : (pages == 0) ≡ false = ground arith in
      rw (nonzero, le→leb pages (num_pages l) room)
        (search-PagesOutcome start pages m some_pages room bounded (num_pages l - pages + 1) 0
          (omega arith) (λ j below. absurd (omega arith)))
