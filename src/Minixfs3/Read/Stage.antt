-- ===== src/Minixfs3/Read/Stage.antt =====
-- The loops of a read one after the other.
use mathlib.Core.Path.{subst, sym}
use corrosion.Minixfs3.Read.Driver.{Driver}
use corrosion.Prelude.{
  ℕ, ◌*◌, ◌^◌, ◌<◌, ◌≡◌, inl, inr, refl, ◌∙◌, arith, Bool, true, false, not, ◌==◌, List, ◌++◌,
  Bool-cases, if◌then◌else◌, lt→ltb,
}
use corrosion.Machine.{Memory, Cmd, Run, ok, after, pure, ◌>>◌}
use corrosion.Buffer.{Buffer}
use corrosion.Minixfs3.{Inode}
use corrosion.Minixfs3.Read.{BlockRead, ReadState, read_zone, or_go_on, direct_zones}
use corrosion.Minixfs3.Read.Data.{Reads}
use corrosion.Minixfs3.Read.Serve.{Uses, Served, Serves, position}
use corrosion.Minixfs3.Read.Loops.{Holds, direct_loop-Serves}
use corrosion.Minixfs3.Read.Blocks.{Serves-Into, block_read-Holds}
use corrosion.Minixfs3.Read.Walk.{present}
use corrosion.Minixfs3.Read.Chain.{
  of, Small, scratch, Separate, apart, spare_indirect, mine_indirect,
}

-- The rest of a read behind one of its loops.
abbrev pub then_on : (ReadState → Cmd (ℕ × ReadState)) → Run (ℕ × ReadState) → Run (ℕ × ReadState)
then_on k r = after r (λ (br, rs). if not (br == 0) then pure (br, rs) else k rs)

pub then_on-passes :
    (k : ReadState → Cmd (ℕ × ReadState)) (n : ℕ) (rs : ReadState) (g : Memory)
    → 0 < n
    → then_on k (ok (n, rs) g) ≡ ok (n, rs) g
then_on-passes k n rs g some_read = let test : (n == 0) ≡ false = ground arith in rw test refl

module _ {A : Type 0} (b : Bool) (c d : Cmd A) (m : Memory) where
  pub if_true : b ≡ true → (if b then c else d) m ≡ c m
  if_true h = rw h refl

  pub if_false : b ≡ false → (if b then c else d) m ≡ d m
  if_false h = rw h refl

pub or_go_on-then_on :
    (c : Cmd (ℕ × ReadState)) (k : ReadState → Cmd (ℕ × ReadState)) (m : Memory)
    → or_go_on c k m ≡ then_on k (c m)
unfolding or_go_on
or_go_on-then_on c k m = refl

module _ (disk : ℕ → ℕ) (own : Driver) (buffer total : ℕ) (rs₀ : ReadState) (block_read : BlockRead)
    (reads : Reads disk own block_read) (separate : Separate own buffer total rs₀) where
  abbrev pub ServesHere : List ℕ → ReadState → Memory → Run (ℕ × ReadState) → Type 0
  ServesHere = Serves disk own (scratch rs₀) buffer total rs₀

  -- What runs afterwards serves the zones `zs`.
  abbrev pub Continues : List ℕ → (ReadState → Cmd (ℕ × ReadState)) → Type 0
  Continues zs k = (rs : ReadState) (m : Memory) → Uses rs₀ total rs → ServesHere zs rs m (k rs m)

  pub direct-Serves :
      (inode : Inode) (zs : List ℕ) (k : ReadState → Cmd (ℕ × ReadState))
      → Continues zs k
      → Continues
          (present 7 0 inode.zones ++ zs)
          (λ rs. or_go_on (direct_zones block_read inode buffer rs) k)
  unfolding direct_zones
  direct-Serves inode zs k go_on rs m uses =
      rw (or_go_on-then_on (direct_zones block_read inode buffer rs) k m) (
        direct_loop-Serves disk own (scratch rs₀) buffer total rs₀ block_read reads
          (apart disk own buffer total rs₀ block_read reads separate) (then_on k) (then_on-passes k)
          (λ m. Unit {0}) (λ m g touched inv. tt) zs inode 7 0 (λ rs' g u inv. go_on rs' g u) rs m
          uses tt)

  zone_step :
      (inode : Inode) (n : ℕ) (rs : ReadState) (body : Cmd (ℕ × ReadState)) (m g : Memory)
      → Uses rs₀ total rs
      → Small (inode.zones n)
      → block_read rs₀.indirect_buffer.buffer 1024 (1024 * inode.zones n) m ≡ ok tt g
      → (read_zone block_read inode rs.indirect_buffer n >> body) m ≡ body g
  unfolding read_zone
  zone_step inode n rs body m g uses small step =
      rw (uses.indirect, lt→ltb (1024 * inode.zones n) (2 ^ 32) (omega arith), step) refl

  -- A block of zone numbers is read into the indirect buffer before `body` runs.
  read_zone-Serves :
      (inode : Inode) (n : ℕ) (zs : List ℕ) (k : ReadState → Cmd (ℕ × ReadState)) (rs : ReadState)
      (body : Cmd (ℕ × ReadState)) (m : Memory)
      → Small (inode.zones n)
      → Uses rs₀ total rs
      → ((g : Memory)
          → Holds disk rs₀.indirect_buffer.buffer (inode.zones n) g
          → ServesHere zs rs g (then_on k (body g)))
      → ServesHere zs rs m (then_on k ((read_zone block_read inode rs.indirect_buffer n >> body) m))
  unfolding read_zone
  read_zone-Serves inode n zs k rs body m small uses go_on reading within =
      let (g, step, bytes, changed, held) =
        block_read-Holds disk own (scratch rs₀) buffer total rs₀ block_read reads
          (apart disk own buffer total rs₀ block_read reads separate) (then_on k) (then_on-passes k)
          rs₀.indirect_buffer.buffer (inode.zones n) m
          (spare_indirect rs₀, λ q lo hi. separate.not_own q (mine_indirect rs₀ q lo hi)) small
          reading.bytes in
      subst
        (λ (r : Run (ℕ × ReadState)).
          Served disk own (scratch rs₀) buffer total rs₀ zs (position rs) rs.bytes_left rs m
            (then_on k r))
        (sym (zone_step inode n rs body m g uses small step))
        (Serves-Into disk own (scratch rs₀) buffer total rs₀ block_read reads
          (apart disk own buffer total rs₀ block_read reads separate) (then_on k) (then_on-passes k)
          rs₀.indirect_buffer.buffer zs rs m g (then_on k (body g))
          (spare_indirect rs₀, λ q lo hi. separate.not_own q (mine_indirect rs₀ q lo hi)) changed
          bytes (go_on g held) reading within)

  -- One loop of the read, over what the inode's `n`th zone leads to, if that is present.
  pub stage-Serves :
      (inode : Inode) (n : ℕ) (leads : ℕ → List ℕ) (zs : List ℕ)
      (k : ReadState → Cmd (ℕ × ReadState)) (rs : ReadState) (m : Memory)
      (c body : Cmd (ℕ × ReadState))
      → ((inode.zones n == 0) ≡ true → c m ≡ ok (0, rs) m)
      → ((inode.zones n == 0) ≡ false
          → c m ≡ (read_zone block_read inode rs.indirect_buffer n >> body) m)
      → Small (inode.zones n)
      → Uses rs₀ total rs
      → ServesHere zs rs m (k rs m)
      → ((inode.zones n == 0) ≡ false
          → (g : Memory) → Holds disk rs₀.indirect_buffer.buffer (inode.zones n) g
          → ServesHere (leads (inode.zones n) ++ zs) rs g (then_on k (body g)))
      → ServesHere (of inode n leads ++ zs) rs m (or_go_on c k m)
  stage-Serves inode n leads zs k rs m c body skips runs small uses go_on loops =
      elim (Bool-cases (inode.zones n == 0)) [
        | inl absent ↦ rw (or_go_on-then_on c k m, absent, skips absent) go_on
        | inr there ↦
            rw (or_go_on-then_on c k m, there, runs there)
              (read_zone-Serves inode n (leads (inode.zones n) ++ zs) k rs body m small uses
                (loops there))
      ]

  pub at_buffers :
      (P : ℕ → ℕ → ℕ → Buffer → Buffer → Type 0) (rs : ReadState)
      → Uses rs₀ total rs
      → P rs₀.indirect_buffer.buffer rs₀.double_indirect_buffer.buffer
          rs₀.triple_indirect_buffer.buffer rs₀.double_indirect_buffer rs₀.triple_indirect_buffer
      → P rs.izones rs.iizones rs.iiizones rs.double_indirect_buffer rs.triple_indirect_buffer
  at_buffers P rs uses h =
      subst
        (λ (p : ℕ). P p rs.iizones rs.iiizones rs.double_indirect_buffer rs.triple_indirect_buffer)
        (sym (uses.izones ∙ separate.izones))
        (subst
          (λ (p : ℕ).
            P rs₀.indirect_buffer.buffer p rs.iiizones rs.double_indirect_buffer
              rs.triple_indirect_buffer)
          (sym (uses.iizones ∙ separate.iizones))
          (subst
            (λ (p : ℕ).
              P rs₀.indirect_buffer.buffer rs₀.double_indirect_buffer.buffer p
                rs.double_indirect_buffer rs.triple_indirect_buffer)
            (sym (uses.iiizones ∙ separate.iiizones))
            (rw (uses.double_indirect, uses.triple_indirect) h)))
