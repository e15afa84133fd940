-- ===== src/Minixfs3/Read/Loops.antt =====
-- The loops over zone numbers, in the inode and in blocks of the disk, as visits of the zones that are
-- present.
use mathlib.Core.Path.{subst}
use corrosion.Minixfs3.Read.Driver.{Driver}
use corrosion.Prelude.{
  ℕ, zero, suc, ◌+◌, ◌*◌, ◌≤◌, ◌<◌, ◌≡◌, inl, inr, refl, ap, ◌∙◌, arith, Bool, ◌==◌, List, ◌∷◌,
  ◌++◌, Bool-cases,
}
use corrosion.Machine.{Memory, Cmd, Run, ok, read_le}
use corrosion.Machine.Words.{read_le-moved}
use corrosion.Minixfs3.{Inode}
use corrosion.Minixfs3.Read.{
  BlockRead, ReadState, read_block, read_direct_data, read_indirect_data, visit, direct_loop,
  zones_loop, in_window,
}
use corrosion.Minixfs3.Read.Data.{Reads}
use corrosion.Minixfs3.Read.Serve.{Uses, Apart, Serves, Touched}
use corrosion.Minixfs3.Read.Visit.{visit-Serves}
use corrosion.Minixfs3.Read.Walk.{present}

-- The `i`th number in a block of zone numbers on the disk.
abbrev pub zone_number : (ℕ → ℕ) → ℕ → ℕ → ℕ
zone_number disk z i = read_le 4 (z * 1024 + 4 * i) disk

-- The block `z` stands in memory at `p`.
abbrev pub Holds : (ℕ → ℕ) → ℕ → ℕ → Memory → Type 0
Holds disk p z m = (j : ℕ) → j < 1024 → m (p + j) ≡ disk (z * 1024 + j)

pub Holds-zone_number :
    (disk : ℕ → ℕ) (p z : ℕ) (m : Memory) (i : ℕ)
    → Holds disk p z m
    → i < 256
    → read_le 4 (p + 4 * i) m ≡ zone_number disk z i
Holds-zone_number disk p z m i holds lt =
    read_le-moved 4 (p + 4 * i) (z * 1024 + 4 * i) disk m (λ j small.
      let at : p + 4 * i + j ≡ p + (4 * i + j) = omega arith in
      let from : z * 1024 + (4 * i + j) ≡ z * 1024 + 4 * i + j = omega arith in
      ap m at ∙ holds (4 * i + j) (omega arith) ∙ ap disk from)

-- Of what `visit` runs, only its outcome matters.
visit-same :
    (f f' : ReadState → Cmd ReadState) (rs : ReadState) (k : ReadState → Cmd (ℕ × ReadState))
    (m : Memory)
    → f rs m ≡ f' rs m
    → visit f rs k m ≡ visit f' rs k m
unfolding visit
visit-same f f' rs k m same = elim (Bool-cases (in_window rs)) [
  | inl within ↦ rw (visit, within, same) refl
  | inr before ↦ rw (visit, before) refl
]

module _ (disk : ℕ → ℕ) (own : Driver) (scratch : ℕ → Bool) (buffer total : ℕ) (rs₀ : ReadState)
    (block_read : BlockRead) (reads : Reads disk own block_read)
    (apart : Apart scratch buffer rs₀.bytes_read total rs₀.direct_buffer.buffer)
    (w : Run (ℕ × ReadState) → Run (ℕ × ReadState))
    (passes : (n : ℕ) (rs : ReadState) (g : Memory) → 0 < n → w (ok (n, rs) g) ≡ ok (n, rs) g) where
  -- An invariant of the memory between two visits.
  abbrev pub Stable : (Memory → Type 0) → Type 0
  Stable Inv = (m g : Memory) → Touched disk own scratch buffer total rs₀ m g → Inv m → Inv g

  abbrev pub GoesOn : (Memory → Type 0) → List ℕ → (ReadState → Cmd (ℕ × ReadState)) → Type 0
  GoesOn Inv zs k =
      (rs' : ReadState) (g : Memory)
      → Uses rs₀ total rs'
      → Inv g
      → Serves disk own scratch buffer total rs₀ zs rs' g (w (k rs' g))

  indirect_data :
      (p i : ℕ) (rs : ReadState) (m : Memory) (z : ℕ)
      → read_le 4 (p + 4 * i) m ≡ z
      → read_block block_read z buffer rs m ≡ read_indirect_data block_read p i buffer rs m
  unfolding read_indirect_data
  indirect_data p i rs m z number = rw (read_indirect_data, number) refl

  module _ (Inv : Memory → Type 0) (stable : Stable Inv) (zs : List ℕ) where
    pub direct_loop-Serves :
        (inode : Inode) (left i : ℕ)
        → GoesOn Inv zs (λ rs g. ok (0, rs) g)
        → GoesOn Inv (present left i inode.zones ++ zs) (direct_loop block_read inode buffer left i)
    unfolding direct_loop read_direct_data
    direct_loop-Serves inode zero i go_on rs m uses inv = go_on rs m uses inv
    direct_loop-Serves inode (suc left) i go_on rs m uses inv =
        let rest = direct_loop-Serves inode left (i + 1) go_on in
        elim (Bool-cases (inode.zones i == 0)) [
          | inl absent ↦ rw (direct_loop, absent) (rest rs m uses inv)
          | inr there ↦
              rw (direct_loop, there)
                (visit-Serves disk own scratch buffer total rs₀ block_read reads apart w passes
                  (inode.zones i) (present left (i + 1) inode.zones ++ zs)
                  (direct_loop block_read inode buffer left (i + 1)) rs m uses
                  (λ rs' g u touched. rest rs' g u (stable m g touched inv)))
        ]

    -- The loop over a block of zone numbers at `p`, as the block `z` of the disk.
    pub zones_loop-Serves :
        (p z : ℕ) (k : ReadState → Cmd (ℕ × ReadState)) (left i : ℕ)
        → ((m : Memory) → Inv m → Holds disk p z m)
        → i + left ≤ 256
        → GoesOn Inv zs k
        → GoesOn Inv
            (present left i (zone_number disk z) ++ zs)
            (λ rs. zones_loop block_read p buffer left i rs k)
    unfolding zones_loop
    zones_loop-Serves p z k zero i holds le go_on rs m uses inv = go_on rs m uses inv
    zones_loop-Serves p z k (suc left) i holds le go_on rs m uses inv =
        let number = Holds-zone_number disk p z m i (holds m inv) (omega arith) in
        let rest = zones_loop-Serves p z k left (i + 1) holds (omega arith) go_on in
        elim (Bool-cases (zone_number disk z i == 0)) [
          | inl absent ↦ rw (zones_loop, number, absent) (rest rs m uses inv)
          | inr there ↦
              let next : ReadState → Cmd (ℕ × ReadState) =
                λ rs'. zones_loop block_read p buffer left (i + 1) rs' k in
              rw (zones_loop, number, there)
                (subst
                  (Serves disk own scratch buffer total rs₀
                    (zone_number disk z i ∷ (present left (i + 1) (zone_number disk z) ++ zs)) rs m)
                  (ap w (
                    visit-same (read_block block_read (zone_number disk z i) buffer)
                      (read_indirect_data block_read p i buffer) rs next m
                      (indirect_data p i rs m (zone_number disk z i) number)))
                  (visit-Serves disk own scratch buffer total rs₀ block_read reads apart w passes
                    (zone_number disk z i) (present left (i + 1) (zone_number disk z) ++ zs) next rs
                    m uses (λ rs' g u touched. rest rs' g u (stable m g touched inv))))
        ]
