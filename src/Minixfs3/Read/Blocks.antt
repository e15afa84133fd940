-- ===== src/Minixfs3/Read/Blocks.antt =====
-- The loops that read a block of zone numbers and run another loop over it.
use mathlib.Core.List.{flat_map, append_assoc}
use mathlib.Core.Path.{subst, sym}
use corrosion.Minixfs3.Read.Driver.{Driver}
use corrosion.Prelude.{
  ℕ, zero, suc, ◌+◌, ◌*◌, ◌^◌, ◌≤◌, ◌<◌, ◌≡◌, ◌⊎◌, inl, inr, refl, ap, ◌∙◌, arith, Bool, false,
  ◌==◌, lt→ltb, List, ◌++◌, Bool-cases,
}
use corrosion.Machine.{Memory, Cmd, Run, ok, read_le}
use corrosion.Buffer.{Buffer}
use corrosion.Minixfs3.Read.{BlockRead, ReadState, read_izone, blocks_loop}
use corrosion.Minixfs3.Read.Data.{Reads}
use corrosion.Minixfs3.Read.Serve.{Apart, Served, Serves, position}
use corrosion.Minixfs3.Read.Walk.{present}
use corrosion.Minixfs3.Read.Chain.{All}
use corrosion.Minixfs3.Read.Loops.{zone_number, Holds, Holds-zone_number, GoesOn}

module _ (disk : ℕ → ℕ) (own : Driver) (scratch : ℕ → Bool) (buffer total : ℕ) (rs₀ : ReadState)
    (block_read : BlockRead) (reads : Reads disk own block_read)
    (apart : Apart scratch buffer rs₀.bytes_read total rs₀.direct_buffer.buffer)
    (w : Run (ℕ × ReadState) → Run (ℕ × ReadState))
    (passes : (n : ℕ) (rs : ReadState) (g : Memory) → 0 < n → w (ok (n, rs) g) ≡ ok (n, rs) g) where
  -- A block has been read into a buffer at `p`, which is the read's own.
  abbrev pub Into : ℕ → Memory → Memory → Type 0
  Into p m g = (q : ℕ) → (q < p) ⊎ (p + 1024 ≤ q) → own.writes q ≡ false → g q ≡ m q

  abbrev pub Spare : ℕ → Type 0
  Spare p =
      ((q : ℕ) → scratch q ≡ false → (q < p) ⊎ (p + 1024 ≤ q))
      × ((q : ℕ) → p ≤ q → q < p + 1024 → own.writes q ≡ false)

  pub Serves-Into :
      (p : ℕ) (zs : List ℕ) (rs : ReadState) (m g : Memory) (r : Run (ℕ × ReadState))
      → Spare p
      → Into p m g
      → own.ready g
      → Serves disk own scratch buffer total rs₀ zs rs g r
      → Serves disk own scratch buffer total rs₀ zs rs m r
  Serves-Into p zs rs m g r spare into bytes serves reading within =
      let served =
        serves
          (record {
            on_disk = reading.on_disk;
            bytes = bytes;
            seen = reading.seen;
            some_left = reading.some_left;
            whole_left = reading.whole_left;
            whole_offset = reading.whole_offset;
            small = reading.small;
            fits = reading.fits;
            room = reading.room;
          })
          within in
      record {
        rs' = served.rs';
        g = served.g;
        returns = served.returns;
        uses = served.uses;
        bytes = served.bytes;
        arrived = served.arrived;
        kept =
            λ q out free not_own. served.kept q out free not_own ∙ into q (spare.0 q free) not_own;
      }

  -- A block read of zone `z` into the buffer at `p`.
  pub block_read-Holds :
      (p z : ℕ) (m : Memory)
      → Spare p
      → z * 1024 < 2 ^ 32
      → own.ready m
      → (g : Memory) × (block_read p 1024 (1024 * z) m ≡ ok tt g)
        × own.ready g
        × Into p m g
        × Holds disk p z g
  block_read-Holds p z m spare fits bytes =
      let (g, step, bytes', inside, outside) =
        reads.reads p (1024 * z) m bytes (omega arith) (omega arith) spare.1 in
      (
        g,
        step,
        bytes',
        outside,
        λ j lt. let from : 1024 * z + j ≡ z * 1024 + j = omega arith in inside j lt ∙ ap disk from,
      )

  -- A loop over the numbers in the block `z` at `p`, that reads each block into `into` and runs `inner`
  -- over it.
  module _ (Inv : Memory → Type 0) (Inv' : ℕ → Memory → Type 0) (L : ℕ → List ℕ) (Good : ℕ → Type 0)
      (inner : ReadState → (ReadState → Cmd (ℕ × ReadState)) → Cmd (ℕ × ReadState)) (p z : ℕ)
      (into : Buffer) (holds : (m : Memory) → Inv m → Holds disk p z m)
      (leave : (z' : ℕ) (m : Memory) → Inv' z' m → Inv m)
      (enter : (z' : ℕ) (m g : Memory)
        → Inv m
        → Into into.buffer m g
        → Holds disk into.buffer z' g
        → Inv' z' g)
      (spare : Spare into.buffer) (small : (z' : ℕ) → Good z' → z' * 1024 < 2 ^ 32)
      (inner-Serves : (z' : ℕ) (more : List ℕ) (k : ReadState → Cmd (ℕ × ReadState))
        → Good z'
        → GoesOn disk own scratch buffer total rs₀ block_read reads apart w passes (Inv' z') more k
        → GoesOn disk own scratch buffer total rs₀ block_read reads apart w passes
            (Inv' z')
            (L z' ++ more)
            (λ rs. inner rs k))
      (zs : List ℕ) (k : ReadState → Cmd (ℕ × ReadState))
      (go_on : GoesOn disk own scratch buffer total rs₀ block_read reads apart w passes Inv zs
        k) where
    loop_step :
        (left i : ℕ) (rs : ReadState) (m g : Memory) (zn : ℕ)
        → read_le 4 (p + 4 * i) m ≡ zn
        → (zn == 0) ≡ false
        → zn * 1024 < 2 ^ 32
        → block_read into.buffer 1024 (1024 * zn) m ≡ ok tt g
        → blocks_loop block_read inner p into (suc left) i rs k m
          ≡ inner rs (λ rs'. blocks_loop block_read inner p into left (i + 1) rs' k) g
    unfolding blocks_loop read_izone
    loop_step left i rs m g zn number there fits step =
        rw
          (
            blocks_loop,
            number,
            there,
            read_izone,
            number,
            lt→ltb (1024 * zn) (2 ^ 32) (omega arith),
            step,
          )
          refl

    pub blocks_loop-Serves :
        (left i : ℕ)
        → i + left ≤ 256
        → All Good (present left i (zone_number disk z))
        → GoesOn disk own scratch buffer total rs₀ block_read reads apart w passes Inv
            (flat_map L (present left i (zone_number disk z)) ++ zs)
            (λ rs. blocks_loop block_read inner p into left i rs k)
    unfolding blocks_loop read_izone flat_map
    blocks_loop-Serves zero i le all rs m uses inv = go_on rs m uses inv
    blocks_loop-Serves (suc left) i le all rs m uses inv =
        let number = Holds-zone_number disk p z m i (holds m inv) (omega arith) in
        elim (Bool-cases (zone_number disk z i == 0)) [
          | inl absent ↦
              rw (blocks_loop, number, absent)
                (blocks_loop-Serves left (i + 1) (omega arith) (rw absent at all) rs m uses inv)
          | inr there ↦
              let zn = zone_number disk z i in
              let (good, rest_good) : Good zn
                  × All Good (present left (i + 1) (zone_number disk z)) =
                rw there at all in
              let rest = blocks_loop-Serves left (i + 1) (omega arith) rest_good in
              let next : ReadState → Cmd (ℕ × ReadState) =
                λ rs'. blocks_loop block_read inner p into left (i + 1) rs' k in
              let more = flat_map L (present left (i + 1) (zone_number disk z)) ++ zs in
              rw
                (
                  there,
                  append_assoc (L zn) (flat_map L (present left (i + 1) (zone_number disk z))) zs,
                )
                (λ reading within.
                  let (g, step, bytes', changed, held) =
                    block_read-Holds into.buffer zn m spare (small zn good) reading.bytes in
                  subst
                    (Served disk own scratch buffer total rs₀ (L zn ++ more) (position rs)
                      rs.bytes_left rs m)
                    (ap w (sym (loop_step left i rs m g zn number there (small zn good) step)))
                    (Serves-Into into.buffer (L zn ++ more) rs m g (w (inner rs next g)) spare
                      changed bytes'
                      (inner-Serves zn more next good
                        (λ rs' h u inv'. rest rs' h u (leave zn h inv')) rs g uses
                        (enter zn m g inv changed held))
                      reading within))
        ]
