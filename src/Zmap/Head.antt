-- ===== src/Zmap/Head.antt =====
-- lib/zmap.c: the search back to the head of an extent, on an image that holds a table of indexes in the full
-- form.
use erofs_utils.Base.{
  ℕ, zero, suc, ◌+◌, ◌-◌, ◌^◌, ◌≤◌, ◌<◌, ◌≡◌, refl, ap, ◌∙◌, inl, inr, true, false, bit_and, Option,
  none, some, List, get_elem?, arith, ◌==◌, le→ltb, eq→==,
}
use erofs_utils.Geometry.{SbInfo}
use erofs_utils.Device.{Devices}
use erofs_utils.Inode.{Inode}
use erofs_utils.Compress.{LclusterIndex, head, body}
use erofs_utils.Compress.Extents.{zero_or_suc}
use erofs_utils.Zmap.{MapRecorder, nonhead}
use erofs_utils.Zmap.Compact.{load_cluster}
use erofs_utils.Zmap.Extent.{cluster_pos, is_head, extent_lookback}
use erofs_utils.Zmap.Page.{IsPage, IsIndexed}
use erofs_utils.Zmap.Load.{load_cluster-head, load_cluster-body}

-- What the table says of an extent of `d` blocks' ends: a head at `h`, and the distances to it.
pub record IsHeaded (ds : List LclusterIndex) (h d clusterofs type blkaddr : ℕ) : Type 0 where
  pub type_head : type < 2
  pub offset_small : clusterofs < 2 ^ 16
  pub block_small : blkaddr < 2 ^ 32
  pub start :
      (advise : ℕ) × (get_elem? ds h ≡ some (head advise clusterofs blkaddr))
      × (advise < 2 ^ 16)
      × (bit_and advise 3 ≡ type)
  pub inner :
      (j : ℕ)
      → 0 < j
      → j < d
      → (d0 : ℕ) × (d1 : ℕ) × (get_elem? ds (h + j) ≡ some (body nonhead clusterofs d0 d1))
        × (0 < d0)
        × (d0 ≤ j)
        × (d0 < 2 ^ 11)

pub is_head-lt : (type : ℕ) → type < 2 → (is_head type ≡ true) × ((type == nonhead) ≡ false)
is_head-lt type h = ground (arith, h)

module _ (sbi : SbInfo) (devices : Devices) (vi : Inode) where
  -- a round that finds the head
  extent_lookback-head :
      (fuel : ℕ) (m n : MapRecorder) (distance : ℕ)
      → distance ≤ m.lcn
      → load_cluster sbi devices vi m (m.lcn - distance) false ≡ (none, n)
      → n.type < 2
      → extent_lookback sbi devices vi (suc fuel) m distance
        ≡ some (
          none,
          record n {
            headtype = n.type;
            map = record n.map { m_la = cluster_pos vi (m.lcn - distance) n.clusterofs };
          },
        )
  unfolding extent_lookback
  extent_lookback-head fuel m n distance l e t =
      let (is, not_body) = is_head-lt n.type t in
      rw
        (
          extent_lookback,
          le→ltb m.lcn distance l,
          ap (λ (r : Option ℕ × MapRecorder). r.0) e,
          ap (λ (r : Option ℕ × MapRecorder). r.1) e,
          not_body,
          is,
        )
        refl

  -- a round that goes on
  extent_lookback-body :
      (fuel : ℕ) (m n : MapRecorder) (distance : ℕ)
      → distance ≤ m.lcn
      → load_cluster sbi devices vi m (m.lcn - distance) false ≡ (none, n)
      → n.type ≡ nonhead
      → 0 < n.delta.0
      → extent_lookback sbi devices vi (suc fuel) m distance
        ≡ extent_lookback sbi devices vi fuel n n.delta.0
  unfolding extent_lookback
  extent_lookback-body fuel m n distance l e t p =
      let nonzero : (n.delta.0 == 0) ≡ false = ground (arith, p) in
      rw
        (
          extent_lookback,
          le→ltb m.lcn distance l,
          ap (λ (r : Option ℕ × MapRecorder). r.0) e,
          ap (λ (r : Option ℕ × MapRecorder). r.1) e,
          eq→== n.type nonhead t,
          nonzero,
        )
        refl

module _ (sbi : SbInfo) (devices : Devices) (vi : Inode) (ds : List LclusterIndex)
    (h d c type blkaddr : ℕ) where
  -- what is known once the head is found
  pub record IsFound (n : MapRecorder) : Type 0 where
    pub headtype_is : n.headtype ≡ type
    pub m_la_is : n.map.m_la ≡ cluster_pos vi h c
    pub pblk_is : n.pblk ≡ blkaddr

  pub extent_lookback-IsFound :
      (fuel : ℕ) (m : MapRecorder) (distance j : ℕ)
      → IsIndexed sbi devices vi ds
      → IsHeaded ds h d c type blkaddr
      → IsPage sbi devices m
      → m.lcn ≡ h + j
      → j ≤ d
      → 0 < distance
      → distance ≤ j
      → j < fuel + 1
      → (n : MapRecorder) × (extent_lookback sbi devices vi fuel m distance ≡ some (none, n))
        × IsFound n
  extent_lookback-IsFound zero m distance j x t p l b s f k = absurd (omega (arith, k, s, f))
  extent_lookback-IsFound (suc fuel) m distance j x t p l b s f k =
      let reach : distance ≤ m.lcn = omega (arith, l, f) in
      elim (zero_or_suc (j - distance)) [
        | inl z ↦
            let there : m.lcn - distance ≡ h = omega (arith, l, z, f) in
            let (advise, at, small, is_type) = t.start in
            let (n, e, loaded, ty, co, pb) =
              load_cluster-head sbi devices vi ds m (m.lcn - distance) advise c blkaddr x p
                (ap (get_elem? ds) there ∙ at) small t.offset_small
                (omega (arith, is_type, t.type_head)) in
            (
              record n {
                headtype = n.type;
                map = record n.map { m_la = cluster_pos vi (m.lcn - distance) n.clusterofs };
              },
              extent_lookback-head sbi devices vi fuel m n distance reach e
                  (omega (arith, ty, is_type, t.type_head)),
              record {
                headtype_is = ty ∙ is_type;
                m_la_is =
                    ap (λ (y : ℕ). cluster_pos vi y n.clusterofs) there ∙ ap (cluster_pos vi h) co;
                pblk_is = pb t.block_small;
              },
            )
        | inr (i, z) ↦
            let there : m.lcn - distance ≡ h + suc i = omega (arith, l, z, f) in
            let (d0, d1, at, positive, most, small) =
              t.inner (suc i) (omega arith) (omega (arith, z, b, s, f)) in
            let (n, e, loaded, ty, de) =
              load_cluster-body sbi devices vi ds m (m.lcn - distance) c d0 d1 x p
                (ap (get_elem? ds) there ∙ at) t.offset_small small in
            let (r, g, found) =
              extent_lookback-IsFound fuel n n.delta.0 (suc i) x t loaded.page (loaded.here ∙ there)
                (omega (arith, z, b, s, f)) (omega (arith, de, positive)) (omega (arith, de, most))
                (omega (arith, z, k, s, f)) in
            (
              r,
              extent_lookback-body sbi devices vi fuel m n distance reach e ty
                    (omega (arith, de, positive))
                  ∙ g,
              found,
            )
      ]
