-- ===== src/Minixfs3/Read/Visit.antt =====
-- One visit of a zone, with whatever runs afterwards.
use mathlib.Core.Path.{subst, sym}
use corrosion.Minixfs3.Read.Driver.{Driver}
use corrosion.Prelude.{
  ℕ, ◌+◌, ◌-◌, ◌*◌, ◌≤◌, ◌<◌, ◌≡◌, ◌⊎◌, inl, inr, refl, ap, ◌∙◌, arith, Bool, true, false, ltb,
  List, ◌∷◌, lt-or-le,
}
use corrosion.Machine.{Memory, Cmd, Run, ok}
use corrosion.Memory.Copy.{copied}
use corrosion.Buffer.{Buffer}
use corrosion.Minixfs3.Read.{BlockRead, ReadState, read_block, visit}
use corrosion.Minixfs3.Read.Data.{Reads, to_read, advanced, read_block-Copied}
use corrosion.Minixfs3.Read.Reading.{file_byte, Reading}
use corrosion.Minixfs3.Read.Walk.{length, visit-last, visit-more, visit-skip}
use corrosion.Minixfs3.Read.Serve.{Uses, Apart, Served, position, Serves, Touched}

module _ (disk : ℕ → ℕ) (own : Driver) (scratch : ℕ → Bool) (buffer total : ℕ)
    (rs₀ : ReadState) where
  module _ (block_read : BlockRead) (reads : Reads disk own block_read)
      (apart : Apart scratch buffer rs₀.bytes_read total rs₀.direct_buffer.buffer)
      (w : Run (ℕ × ReadState) → Run (ℕ × ReadState))
      (passes : (n : ℕ) (rs : ReadState) (g : Memory) → 0 < n → w (ok (n, rs) g) ≡ ok (n, rs) g)
      (z : ℕ) (zs : List ℕ) (k : ReadState → Cmd (ℕ × ReadState)) (rs : ReadState) (m : Memory)
      (uses : Uses rs₀ total rs)
      (go_on : (rs' : ReadState) (g : Memory)
        → Uses rs₀ total rs'
        → Touched disk own scratch buffer total rs₀ m g
        → Serves disk own scratch buffer total rs₀ zs rs' g (w (k rs' g))) where
    abbrev visited : Run (ℕ × ReadState)
    visited = w (visit (read_block block_read z buffer) rs k m)

    -- The state when a block has been read and more is to come.
    abbrev onwards : ReadState
    onwards = record (advanced rs) { blocks_seen = rs.blocks_seen + 1 }

    direct_is : rs.direct_buffer.buffer ≡ rs₀.direct_buffer.buffer
    direct_is = ap (λ (b : Buffer). b.buffer) uses.direct

    out_of_direct :
        (q : ℕ)
        → (q < rs₀.direct_buffer.buffer) ⊎ (rs₀.direct_buffer.buffer + 1024 ≤ q)
        → (q < rs.direct_buffer.buffer) ⊎ (rs.direct_buffer.buffer + 1024 ≤ q)
    out_of_direct q out = ground (arith, direct_is)

    Uses-advanced : Uses rs₀ total (advanced rs)
    Uses-advanced = record {
      direct = uses.direct;
      indirect = uses.indirect;
      double_indirect = uses.double_indirect;
      triple_indirect = uses.triple_indirect;
      izones = uses.izones;
      iizones = uses.iizones;
      iiizones = uses.iiizones;
      from = omega (arith, uses.from);
      sum = ground (arith, uses.sum);
    }

    Uses-seen :
        (rs' : ReadState)
        → Uses rs₀ total rs'
        → Uses rs₀ total (record rs' { blocks_seen = rs'.blocks_seen + 1 })
    Uses-seen rs' u = record {
      direct = u.direct;
      indirect = u.indirect;
      double_indirect = u.double_indirect;
      triple_indirect = u.triple_indirect;
      izones = u.izones;
      iizones = u.iizones;
      iiizones = u.iiizones;
      from = u.from;
      sum = u.sum;
    }

    module _ (reading : Reading own buffer (z ∷ zs) rs m) where
      skipped :
          rs.blocks_seen < rs.offset_block
          → position rs + rs.bytes_left ≤ 1024 * length (z ∷ zs)
          → Served disk own scratch buffer total rs₀
              (z ∷ zs)
              (position rs)
              rs.bytes_left
              rs
              m
              visited
      skipped before within =
          let rs₂ : ReadState = record rs { blocks_seen = rs.blocks_seen + 1 } in
          let rest =
            go_on rs₂ m (Uses-seen rs uses) (λ q out out' not_own. refl)
              (record {
                on_disk = reading.on_disk.1;
                bytes = reading.bytes;
                seen = omega (arith, reading.seen);
                some_left = reading.some_left;
                whole_left = reading.whole_left;
                whole_offset = reading.whole_offset;
                small = reading.small;
                fits = reading.fits;
                room = record {
                  apart = reading.room.apart;
                  not_own = reading.room.not_own;
                  direct = reading.room.direct;
                };
              })
              (omega arith) in
          record {
            rs' = rest.rs';
            g = rest.g;
            returns =
                ap w (
                  visit-skip (read_block block_read z buffer) rs k m before
                    (omega (arith, reading.seen)))
                ∙ rest.returns;
            uses = rest.uses;
            bytes = rest.bytes;
            arrived = λ i lo.
                let test : ltb (position rs + i) 1024 ≡ false = ground arith in
                let shifted : position rs₂ + i ≡ position rs + i - 1024 = omega arith in
                rw test (rest.arrived i lo ∙ ap (file_byte disk zs) shifted);
            kept = rest.kept;
          }

      module _ (window : rs.offset_block ≤ rs.blocks_seen) where
        room :
            (buffer + rs.bytes_read + 1024 ≤ rs.direct_buffer.buffer)
            ⊎ (rs.direct_buffer.buffer + 1024 ≤ buffer + rs.bytes_read)
        room = ground (arith, reading.room.apart)

        at_start : position rs ≡ rs.offset_byte
        at_start = omega arith

        module _ (m₁ : Memory) (step : read_block block_read z buffer rs m ≡ ok (advanced rs) m₁)
            (bytes₁ : own.ready m₁)
            (arrived : (i : ℕ)
              → i < copied (to_read rs)
              → m₁ (buffer + rs.bytes_read + i) ≡ disk (z * 1024 + rs.offset_byte + i))
            (kept : (q : ℕ)
              → (q < buffer + rs.bytes_read) ⊎ (buffer + rs.bytes_read + copied (to_read rs) ≤ q)
              → (q < rs.direct_buffer.buffer) ⊎ (rs.direct_buffer.buffer + 1024 ≤ q)
              → own.writes q ≡ false
              → m₁ q ≡ m q) where
          -- What has arrived is the file's.
          file_arrived :
              (i : ℕ)
              → i < copied (to_read rs)
              → rs.offset_byte + i < 1024
              → m₁ (buffer + rs.bytes_read + i) ≡ file_byte disk (z ∷ zs) (rs.offset_byte + i)
          file_arrived i lo small =
              let test : ltb (rs.offset_byte + i) 1024 ≡ true = ground arith in
              let from : z * 1024 + rs.offset_byte + i ≡ z * 1024 + (rs.offset_byte + i) =
                omega arith in
              rw test (arrived i lo ∙ ap disk from)

          last :
              rs.bytes_left ≤ 1024 - rs.offset_byte
              → Served disk own scratch buffer total rs₀
                  (z ∷ zs)
                  rs.offset_byte
                  rs.bytes_left
                  rs
                  m
                  visited
          last le =
              let n : to_read rs ≡ rs.bytes_left = ground arith in
              let all : copied (to_read rs) ≡ rs.bytes_left =
                ground (arith, n, reading.whole_left) in
              let done : rs.bytes_left - to_read rs ≡ 0 = ground (arith, n) in
              record {
                rs' = advanced rs;
                g = m₁;
                returns =
                    ap w (
                      visit-last (read_block block_read z buffer) rs k m (advanced rs) m₁ window
                        step done)
                    ∙ passes (rs.bytes_read + to_read rs) (advanced rs) m₁
                        (omega (arith, n, reading.some_left))
                    ∙ ap (λ (k : ℕ). ok (rs.bytes_read + k, advanced rs) m₁) n;
                uses = Uses-advanced;
                bytes = bytes₁;
                arrived = λ i lo. file_arrived i (omega (arith, all)) (omega arith);
                kept = λ q out spare not_own.
                    kept q (ground (arith, all)) (out_of_direct q (apart.direct q spare)) not_own;
              }

          -- What the rest of the read brings follows what this block holds.
          more :
              1024 - rs.offset_byte < rs.bytes_left
              → Served disk own scratch buffer total rs₀ zs 0
                  (rs.bytes_left - to_read rs)
                  onwards
                  m₁
                  (w (k onwards m₁))
              → Served disk own scratch buffer total rs₀
                  (z ∷ zs)
                  rs.offset_byte
                  rs.bytes_left
                  rs
                  m
                  visited
          more lt rest =
              let n : to_read rs ≡ 1024 - rs.offset_byte = ground arith in
              let all : copied (to_read rs) ≡ 1024 - rs.offset_byte =
                ground (arith, n, reading.whole_offset) in
              let sum : rs.bytes_read + to_read rs + (rs.bytes_left - to_read rs)
                  ≡ rs.bytes_read + rs.bytes_left =
                omega (arith, n) in
              record {
                rs' = rest.rs';
                g = rest.g;
                returns =
                    ap w (
                      visit-more (read_block block_read z buffer) rs k m (advanced rs) m₁ window
                        step (omega (arith, n)) (omega (arith, reading.seen)))
                    ∙ rest.returns
                    ∙ ap (λ (k : ℕ). ok (k, rest.rs') rest.g) sum;
                uses = rest.uses;
                bytes = rest.bytes;
                arrived = λ i lo. elim (lt-or-le i (1024 - rs.offset_byte)) [
                  | inl head ↦
                      rest.kept (buffer + rs.bytes_read + i) (inl (omega (arith, n)))
                        (apart.reader (buffer + rs.bytes_read + i) (omega (arith, uses.from))
                          (omega (arith, uses.sum)))
                        (reading.room.not_own (buffer + rs.bytes_read + i) (omega arith)
                          (omega arith))
                      ∙ file_arrived i (omega (arith, all)) (omega arith)
                  | inr tail ↦
                      let test : ltb (rs.offset_byte + i) 1024 ≡ false =
                        ground (arith, reading.small) in
                      let j : ℕ = i - (1024 - rs.offset_byte) in
                      let at : buffer + rs.bytes_read + i
                          ≡ buffer + (rs.bytes_read + to_read rs) + j =
                        omega (arith, n) in
                      let here : 0 + j ≡ rs.offset_byte + i - 1024 = omega (arith, reading.small) in
                      rw test (
                        ap rest.g at
                        ∙ rest.arrived j (omega (arith, n))
                        ∙ ap (file_byte disk zs) here)
                ];
                kept = λ q out spare not_own.
                    rest.kept q (ground (arith, n)) spare not_own
                    ∙ kept q (ground (arith, all)) (out_of_direct q (apart.direct q spare)) not_own;
              }

          Reading-onwards : 1024 - rs.offset_byte < rs.bytes_left → Reading own buffer zs onwards m₁
          Reading-onwards lt =
              let n : to_read rs ≡ 1024 - rs.offset_byte = ground arith in
              record {
                on_disk = reading.on_disk.1;
                bytes = bytes₁;
                seen = omega (arith, reading.seen);
                some_left = omega (arith, n);
                whole_left =
                    omega (arith, n, reading.whole_left, reading.whole_offset, reading.small);
                whole_offset = refl;
                small = omega arith;
                fits = omega (arith, n, reading.fits);
                room = record {
                  apart = ground (arith, reading.room.apart, n, reading.small);
                  not_own = λ q lo hi. reading.room.not_own q (omega (arith, n)) (omega (arith, n));
                  direct = reading.room.direct;
                };
              }

          read_on :
              rs.offset_byte + rs.bytes_left ≤ 1024 * length (z ∷ zs)
              → Served disk own scratch buffer total rs₀
                  (z ∷ zs)
                  rs.offset_byte
                  rs.bytes_left
                  rs
                  m
                  visited
          read_on within = elim (lt-or-le (1024 - rs.offset_byte) rs.bytes_left) [
            | inr le ↦ last le
            | inl lt ↦
                let n : to_read rs ≡ 1024 - rs.offset_byte = ground arith in
                let all : copied (to_read rs) ≡ 1024 - rs.offset_byte =
                  ground (arith, n, reading.whole_offset) in
                let start : position onwards ≡ 0 = omega arith in
                let touched : Touched disk own scratch buffer total rs₀ m m₁ = λ q out out' not_own.
                  kept q (ground (arith, all, uses.sum)) (out_of_direct q out') not_own in
                let rest =
                  go_on onwards m₁ (Uses-seen (advanced rs) Uses-advanced) touched
                    (Reading-onwards lt) (omega (arith, start, n, reading.small)) in
                more lt (
                  subst
                    (λ (p : ℕ).
                      Served disk own scratch buffer total rs₀ zs p (rs.bytes_left - to_read rs)
                        onwards m₁ (w (k onwards m₁)))
                    start rest)
          ]

    -- Visiting a zone, whether it comes before the window, within it or last in it, serves the read if
    -- what runs afterwards does.
    pub visit-Serves : Serves disk own scratch buffer total rs₀ (z ∷ zs) rs m visited
    visit-Serves reading within = elim (lt-or-le rs.blocks_seen rs.offset_block) [
      | inl before ↦ skipped reading before within
      | inr window ↦
          let (m₁, step, bytes₁, arrived, kept) =
            read_block-Copied disk own block_read reads z buffer rs m reading.bytes reading.small
              reading.fits reading.on_disk.0 (room reading window) reading.room.direct
              (λ q lo hi. reading.room.not_own q (omega arith) (ground arith)) in
          subst
            (λ (p : ℕ).
              Served disk own scratch buffer total rs₀ (z ∷ zs) p rs.bytes_left rs m visited)
            (sym (at_start reading window))
            (read_on reading window m₁ step bytes₁ arrived kept (omega arith))
    ]
