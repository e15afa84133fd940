-- ===== src/Minixfs3/Read/Levels.antt =====
-- The loops over zones behind one, two and three blocks of zone numbers.
use corrosion.Minixfs3.Read.Driver.{Driver}
use corrosion.Prelude.{ℕ, arith, ◌==◌, List, ◌++◌}
use corrosion.Machine.{Memory, Cmd}
use corrosion.Buffer.{Buffer}
use corrosion.Minixfs3.{Inode}
use corrosion.Minixfs3.Read.{
  BlockRead, ReadState, none_left, or_go_on, zones_loop, blocks_loop, indirect_zones,
  double_indirect_zones, triple_indirect_zones,
}
use corrosion.Minixfs3.Read.Data.{Reads}
use corrosion.Minixfs3.Read.Loops.{Holds, GoesOn, zones_loop-Serves}
use corrosion.Minixfs3.Read.Blocks.{blocks_loop-Serves}
use corrosion.Minixfs3.Read.Chain.{
  All, All-of, single, double, triple, of, Small, scratch, Separate, apart, spare_double,
  spare_triple, mine_double, mine_triple,
}
use corrosion.Minixfs3.Read.Stage.{
  then_on, then_on-passes, if_true, if_false, Continues, ServesHere, at_buffers, stage-Serves,
}
use corrosion.Minixfs3.Read.Held.{
  Three, Three-enter, Two, Two-enter, kept_double, kept_indirect, kept_triple,
}

module _ (disk : ℕ → ℕ) (own : Driver) (buffer total : ℕ) (rs₀ : ReadState) (block_read : BlockRead)
    (reads : Reads disk own block_read) (separate : Separate own buffer total rs₀) where
  pub single-Serves :
      (inode : Inode) (zs : List ℕ) (k : ReadState → Cmd (ℕ × ReadState))
      → Small (inode.zones 7)
      → (Continues disk own buffer total rs₀ block_read reads separate) zs k
      → (Continues disk own buffer total rs₀ block_read reads separate)
          (of inode 7 (single disk) ++ zs)
          (λ rs. or_go_on (indirect_zones block_read inode buffer rs) k)
  unfolding indirect_zones single
  single-Serves inode zs k small go_on rs m uses =
      (stage-Serves disk own buffer total rs₀ block_read reads separate) inode 7 (single disk) zs k
        rs m (indirect_zones block_read inode buffer rs)
        (zones_loop block_read rs.izones buffer 256 0 rs none_left)
        (if_true (inode.zones 7 == 0) _ _ m) (if_false (inode.zones 7 == 0) _ _ m) small uses
        (go_on rs m uses)
        (λ there g held.
          (at_buffers disk own buffer total rs₀ block_read reads separate)
            (λ p _ _ _ _.
              (ServesHere disk own buffer total rs₀ block_read reads separate)
                (single disk (inode.zones 7) ++ zs) rs g
                (then_on k (zones_loop block_read p buffer 256 0 rs none_left g)))
            rs uses
            (zones_loop-Serves disk own (scratch rs₀) buffer total rs₀ block_read reads
              (apart disk own buffer total rs₀ block_read reads separate) (then_on k)
              (then_on-passes k) (Holds disk rs₀.indirect_buffer.buffer (inode.zones 7))
              ((kept_indirect disk own buffer total rs₀ block_read reads separate) (inode.zones 7))
              zs rs₀.indirect_buffer.buffer (inode.zones 7) none_left 256 0 (λ m inv. inv)
              (omega arith) (λ rs' g u inv. go_on rs' g u) rs g uses held))

  abbrev Loop : Type 0
  Loop = ReadState → (ReadState → Cmd (ℕ × ReadState)) → Cmd (ℕ × ReadState)

  -- The innermost loop over the numbers at `p`, and the loop around it over those at `p'`.
  abbrev zones_at : (p : ℕ) → Loop
  zones_at p rs go_on = zones_loop block_read p buffer 256 0 rs go_on

  abbrev blocks_at : (p p' : ℕ) → Buffer → Loop
  blocks_at p p' into rs go_on = blocks_loop block_read (zones_at p) p' into 256 0 rs go_on

  pub double-Serves :
      (inode : Inode) (zs : List ℕ) (k : ReadState → Cmd (ℕ × ReadState))
      → Small (inode.zones 8)
      → All Small (of inode 8 (single disk))
      → (Continues disk own buffer total rs₀ block_read reads separate) zs k
      → (Continues disk own buffer total rs₀ block_read reads separate)
          (of inode 8 (double disk) ++ zs)
          (λ rs. or_go_on (double_indirect_zones block_read inode buffer rs) k)
  unfolding double_indirect_zones single double
  double-Serves inode zs k small linked go_on rs m uses =
      let z = inode.zones 8 in
      let apart' = apart disk own buffer total rs₀ block_read reads separate in
      (stage-Serves disk own buffer total rs₀ block_read reads separate) inode 8 (double disk) zs k
        rs m (double_indirect_zones block_read inode buffer rs) _
        (if_true (inode.zones 8 == 0) _ _ m) (if_false (inode.zones 8 == 0) _ _ m) small uses
        (go_on rs m uses)
        (λ there g held.
          (at_buffers disk own buffer total rs₀ block_read reads separate)
            (λ p p' _ into _.
              (ServesHere disk own buffer total rs₀ block_read reads separate) (double disk z ++ zs)
                rs g (then_on k (blocks_loop block_read (zones_at p') p into 256 0 rs none_left g)))
            rs uses
            (blocks_loop-Serves disk own (scratch rs₀) buffer total rs₀ block_read reads apart'
              (then_on k) (then_on-passes k) (Holds disk rs₀.indirect_buffer.buffer z)
              ((Two disk own buffer total rs₀ block_read reads separate) z) (single disk) Small
              (zones_at rs₀.double_indirect_buffer.buffer) rs₀.indirect_buffer.buffer z
              rs₀.double_indirect_buffer (λ m inv. inv) (λ z' m inv. inv.0)
              ((Two-enter disk own buffer total rs₀ block_read reads separate) z)
              (spare_double rs₀, λ q lo hi. separate.not_own q (mine_double rs₀ q lo hi))
              (λ z' h. h)
              (λ z' more k' good go_on'.
                zones_loop-Serves disk own (scratch rs₀) buffer total rs₀ block_read reads apart'
                  (then_on k) (then_on-passes k)
                  ((Two disk own buffer total rs₀ block_read reads separate) z z')
                  (λ m g touched inv. (
                    (kept_indirect disk own buffer total rs₀ block_read reads separate) z m g
                        touched inv.0,
                    (kept_double disk own buffer total rs₀ block_read reads separate) z' m g touched
                        inv.1,
                  ))
                  more rs₀.double_indirect_buffer.buffer z' k' 256 0 (λ m inv. inv.1) (omega arith)
                  go_on')
              zs none_left (λ rs' g u inv. go_on rs' g u) 256 0 (omega arith)
              (All-of Small inode 8 (single disk) there linked) rs g uses held))

  -- The two inner loops of the third, with the zone `z'` in the second buffer.
  module _ (k : ReadState → Cmd (ℕ × ReadState)) (z : ℕ) where
    abbrev Goes : (Memory → Type 0) → List ℕ → (ReadState → Cmd (ℕ × ReadState)) → Type 0
    Goes =
        GoesOn disk own (scratch rs₀) buffer total rs₀ block_read reads
          (apart disk own buffer total rs₀ block_read reads separate) (then_on k) (then_on-passes k)

    inner_blocks-Serves :
        (z' : ℕ) (more : List ℕ) (k' : ReadState → Cmd (ℕ × ReadState))
        → Small z' × All Small (single disk z')
        → Goes ((Two disk own buffer total rs₀ block_read reads separate) z z') more k'
        → Goes
            ((Two disk own buffer total rs₀ block_read reads separate) z z')
            (double disk z' ++ more)
            (λ rs.
              blocks_loop block_read
                (zones_at rs₀.triple_indirect_buffer.buffer)
                rs₀.double_indirect_buffer.buffer
                rs₀.triple_indirect_buffer
                256
                0
                rs
                k')
    unfolding single double
    inner_blocks-Serves z' more k' (small, linked) go_on =
        let apart' = apart disk own buffer total rs₀ block_read reads separate in
        blocks_loop-Serves disk own (scratch rs₀) buffer total rs₀ block_read reads apart'
          (then_on k) (then_on-passes k)
          ((Two disk own buffer total rs₀ block_read reads separate) z z')
          ((Three disk own buffer total rs₀ block_read reads separate) z z') (single disk) Small
          (zones_at rs₀.triple_indirect_buffer.buffer) rs₀.double_indirect_buffer.buffer z'
          rs₀.triple_indirect_buffer (λ m inv. inv.1) (λ z'' m inv. inv.0)
          ((Three-enter disk own buffer total rs₀ block_read reads separate) z z')
          (spare_triple rs₀, λ q lo hi. separate.not_own q (mine_triple rs₀ q lo hi)) (λ z'' h. h)
          (λ z'' more' k'' good go_on'.
            zones_loop-Serves disk own (scratch rs₀) buffer total rs₀ block_read reads apart'
              (then_on k) (then_on-passes k)
              ((Three disk own buffer total rs₀ block_read reads separate) z z' z'')
              (λ m g touched inv. (
                (
                  (kept_indirect disk own buffer total rs₀ block_read reads separate) z m g touched
                      inv.0.0,
                  (kept_double disk own buffer total rs₀ block_read reads separate) z' m g touched
                      inv.0.1,
                ),
                (kept_triple disk own buffer total rs₀ block_read reads separate) z'' m g touched
                    inv.1,
              ))
              more' rs₀.triple_indirect_buffer.buffer z'' k'' 256 0 (λ m inv. inv.1) (omega arith)
              go_on')
          more k' go_on 256 0 (omega arith) linked

  pub triple-Serves :
      (inode : Inode) (zs : List ℕ) (k : ReadState → Cmd (ℕ × ReadState))
      → Small (inode.zones 9)
      → All (λ z. Small z × All Small (single disk z)) (of inode 9 (single disk))
      → (Continues disk own buffer total rs₀ block_read reads separate) zs k
      → (Continues disk own buffer total rs₀ block_read reads separate)
          (of inode 9 (triple disk) ++ zs)
          (λ rs. or_go_on (triple_indirect_zones block_read inode buffer rs) k)
  unfolding triple_indirect_zones single triple
  triple-Serves inode zs k small linked go_on rs m uses =
      let z = inode.zones 9 in
      let apart' = apart disk own buffer total rs₀ block_read reads separate in
      (stage-Serves disk own buffer total rs₀ block_read reads separate) inode 9 (triple disk) zs k
        rs m (triple_indirect_zones block_read inode buffer rs) _
        (if_true (inode.zones 9 == 0) _ _ m) (if_false (inode.zones 9 == 0) _ _ m) small uses
        (go_on rs m uses)
        (λ there g held.
          (at_buffers disk own buffer total rs₀ block_read reads separate)
            (λ p p' p'' into into'.
              (ServesHere disk own buffer total rs₀ block_read reads separate) (triple disk z ++ zs)
                rs g
                (then_on k
                  (blocks_loop block_read (blocks_at p'' p' into') p into 256 0 rs none_left g)))
            rs uses
            (blocks_loop-Serves disk own (scratch rs₀) buffer total rs₀ block_read reads apart'
              (then_on k) (then_on-passes k) (Holds disk rs₀.indirect_buffer.buffer z)
              ((Two disk own buffer total rs₀ block_read reads separate) z) (double disk)
              (λ z'. Small z' × All Small (single disk z'))
              (blocks_at rs₀.triple_indirect_buffer.buffer rs₀.double_indirect_buffer.buffer
                rs₀.triple_indirect_buffer)
              rs₀.indirect_buffer.buffer z rs₀.double_indirect_buffer (λ m inv. inv)
              (λ z' m inv. inv.0)
              ((Two-enter disk own buffer total rs₀ block_read reads separate) z)
              (spare_double rs₀, λ q lo hi. separate.not_own q (mine_double rs₀ q lo hi))
              (λ z' h. h.0) (inner_blocks-Serves k z) zs none_left (λ rs' g u inv. go_on rs' g u)
              256 0 (omega arith)
              (All-of (λ z'. Small z' × All Small (single disk z')) inode 9 (single disk) there
                linked)
              rs g uses held))
