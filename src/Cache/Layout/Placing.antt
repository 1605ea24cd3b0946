-- ===== src/Cache/Layout/Placing.antt =====
-- Placing and dropping blocks keep the layout.
use erofs_utils.Base.{
  ℕ, ◌+◌, ◌≤◌, ◌<◌, ◌≡◌, ap, subst, arith, ◌∙◌, refl, inl, inr, Option, List, [], ◌∷◌, ◌++◌, drop,
  All, ltb, ◌==◌, eq→==, Bool-cases, ltb→le,
}
use erofs_utils.Base.Words.{add32}
use erofs_utils.Geometry.{SbInfo, blk_round_up}
use erofs_utils.Cache.{BufferBlock, BufMgr, null_addr, bupdate_mapped}
use erofs_utils.Cache.Place.{
  placed, map_new, raise_tail, map_one, map_until, points_to, mapbh, blkaddr_of,
}
use erofs_utils.Cache.Layout.{IsBlock, IsLaidOut}
use erofs_utils.Cache.Layout.Lists.{IsChain-append, All-snoc}

-- The blocks that wait for a place need this many blocks of the device.
abbrev pub demand : SbInfo → List BufferBlock → ℕ
demand sbi [] = 0
demand sbi (b ∷ bs) = blk_round_up sbi b.off + demand sbi bs

raise_tail_lem :
    (x : ℕ) (m : BufMgr) → m.tail_blkaddr ≤ x → raise_tail x m ≡ record m { tail_blkaddr = x }
unfolding raise_tail
raise_tail_lem x m h = elim (Bool-cases (ltb m.tail_blkaddr x)) [
  | inl t ↦ rw t refl
  | inr f ↦
      let same : m.tail_blkaddr ≡ x = omega (arith, ltb→le m.tail_blkaddr x f) in
      rw f (λ i. record m { tail_blkaddr = same i })
]

bupdate_mapped-place :
    (b : BufferBlock) (m : BufMgr)
    → ((bupdate_mapped b m).mapped ≡ m.mapped)
      × ((bupdate_mapped b m).unmapped ≡ m.unmapped)
      × ((bupdate_mapped b m).tail_blkaddr ≡ m.tail_blkaddr)
      × ((bupdate_mapped b m).sbi ≡ m.sbi)
unfolding bupdate_mapped
bupdate_mapped-place b m = elim (Bool-cases (b.blkaddr == null_addr)) [
  | inl t ↦ rw t (refl, refl, refl, refl)
  | inr f ↦ rw f (refl, refl, refl, refl)
]

map_new-place :
    (m : BufMgr) (b : BufferBlock) (ts : List BufferBlock)
    → m.unmapped ≡ b ∷ ts
    → (c : BufferBlock)
    → ((map_new m c).mapped ≡ m.mapped ++ (c ∷ []))
      × ((map_new m c).unmapped ≡ ts)
      × ((map_new m c).tail_blkaddr ≡ m.tail_blkaddr)
      × ((map_new m c).sbi ≡ m.sbi)
unfolding map_new
map_new-place m b ts u c =
    let (x, y, z, w) =
      bupdate_mapped-place c
        (record m { mapped = m.mapped ++ (c ∷ []); unmapped = drop 1 m.unmapped }) in
    (x, y ∙ ap (drop 1) u, z, w)

-- __erofs_mapbh on a block without a place
pub map_one_new :
    (m : BufMgr) (b : BufferBlock) (ts : List BufferBlock)
    → m.unmapped ≡ b ∷ ts
    → b.blkaddr ≡ null_addr
    → m.tail_blkaddr + blk_round_up m.sbi b.off < null_addr
    → (map_one m b).1 ≡ record (map_new m (record b { blkaddr = m.tail_blkaddr })) {
      tail_blkaddr = m.tail_blkaddr + blk_round_up m.sbi b.off;
    }
unfolding map_one placed
map_one_new m b ts u n r =
    let c : BufferBlock = record b { blkaddr = m.tail_blkaddr } in
    let (x, y, z, w) = map_new-place m b ts u c in
    let end : add32 m.tail_blkaddr (blk_round_up m.sbi b.off)
        ≡ m.tail_blkaddr + blk_round_up m.sbi b.off =
      omega (arith, r) in
    rw (eq→== b.blkaddr null_addr n) (
      rw end (
        raise_tail_lem (m.tail_blkaddr + blk_round_up m.sbi b.off) (map_new m c)
          (omega (arith, z))))

-- The next block is placed at the tail, which moves behind it.
pub map_one-IsLaidOut :
    (m : BufMgr) (b : BufferBlock) (ts : List BufferBlock)
    → IsLaidOut m
    → m.unmapped ≡ b ∷ ts
    → m.tail_blkaddr + blk_round_up m.sbi b.off < null_addr
    → IsLaidOut (map_one m b).1
map_one-IsLaidOut m b ts l u r =
    let waits =
      subst (λ (x : List BufferBlock). All (λ (y : BufferBlock). y.blkaddr ≡ null_addr) x) u
        l.waiting in
    let within = subst (λ (x : List BufferBlock). All IsBlock x) u l.unmapped_blocks in
    let c : BufferBlock = record b { blkaddr = m.tail_blkaddr } in
    let k : IsBlock c = record { heads = within.0.heads; small = within.0.small } in
    let (x, y, z, w) = map_new-place m b ts u c in
    rw (map_one_new m b ts u waits.0 r) (record {
      smallest = rw w l.smallest;
      largest = rw w l.largest;
      chain =
          rw (x, w)
            (IsChain-append m.sbi 0 m.tail_blkaddr (m.tail_blkaddr + blk_round_up m.sbi b.off)
              m.mapped c l.chain (omega arith) (omega arith));
      waiting = rw y waits.1;
      mapped_blocks = rw x (All-snoc IsBlock c m.mapped k l.mapped_blocks);
      unmapped_blocks = rw y within.1;
      tail = r;
    })

pub map_one-place :
    (m : BufMgr) (b : BufferBlock) (ts : List BufferBlock)
    → m.unmapped ≡ b ∷ ts
    → b.blkaddr ≡ null_addr
    → m.tail_blkaddr + blk_round_up m.sbi b.off < null_addr
    → ((map_one m b).1.mapped ≡ m.mapped ++ (record b { blkaddr = m.tail_blkaddr } ∷ []))
      × ((map_one m b).1.unmapped ≡ ts)
      × ((map_one m b).1.tail_blkaddr ≡ m.tail_blkaddr + blk_round_up m.sbi b.off)
      × ((map_one m b).1.sbi ≡ m.sbi)
map_one-place m b ts u n r =
    let (x, y, z, w) = map_new-place m b ts u (record b { blkaddr = m.tail_blkaddr }) in
    rw (map_one_new m b ts u n r) (x, y, refl, w)

map_until-IsLaidOut :
    (bb : Option ℕ) (ts : List BufferBlock) (m : BufMgr)
    → IsLaidOut m
    → m.unmapped ≡ ts
    → m.tail_blkaddr + demand m.sbi ts < null_addr
    → IsLaidOut (map_until bb ts m)
unfolding map_until
map_until-IsLaidOut bb [] m l u r = l
map_until-IsLaidOut bb (t ∷ ts) m l u r =
    let waits =
      subst (λ (x : List BufferBlock). All (λ (y : BufferBlock). y.blkaddr ≡ null_addr) x) u
        l.waiting in
    let (x, y, z, w) = map_one-place m t ts u waits.0 (omega (arith, r)) in
    let k = map_one-IsLaidOut m t ts l u (omega (arith, r)) in
    let rest = map_until-IsLaidOut bb ts (map_one m t).1 k y (rw (z, w) (omega (arith, r))) in
    elim (Bool-cases (points_to bb t)) [ inl p ↦ rw p k | inr p ↦ rw p rest ]

pub mapbh-IsLaidOut :
    (m : BufMgr) (bb : Option ℕ)
    → IsLaidOut m
    → m.tail_blkaddr + demand m.sbi m.unmapped < null_addr
    → IsLaidOut (mapbh m bb).1
unfolding mapbh
mapbh-IsLaidOut m bb l r = elim (Bool-cases (blkaddr_of bb m == null_addr)) [
  | inl t ↦ rw t (map_until-IsLaidOut bb m.unmapped m l refl r)
  | inr f ↦ rw f l
]
