-- ===== src/Zmap/Found.antt =====
-- lib/zmap.c, lib/compress.c: z_erofs_do_map_blocks on the indexes that mkfs writes.
use erofs_utils.Base.{
  ℕ, suc, ◌+◌, ◌-◌, ◌*◌, ◌/◌, ◌^◌, ◌≤◌, ◌<◌, ◌≡◌, ap, ◌∙◌, inl, inr, true, false, bit_and, none,
  some, List, get_elem?, arith, eq→==,
}
use erofs_utils.Base.Bits.{two_pow-pos, two_pow_le, bit_and_mask}
use erofs_utils.Base.Words.{shl64}
use erofs_utils.Geometry.{SbInfo, blksiz}
use erofs_utils.Device.{Devices}
use erofs_utils.Inode.{Inode}
use erofs_utils.Compress.{LclusterIndex}
use erofs_utils.Compress.Extents.{zero_or_suc, block_cases}
use erofs_utils.Compress.Shape.{block_less}
use erofs_utils.Zmap.{nonhead}
use erofs_utils.Zmap.Extent.{PagedMap, cluster_pos, start_recorder, mapped_encoded, do_map_blocks}
use erofs_utils.Zmap.Page.{IsPage, IsIndexed, get_elem-lt}
use erofs_utils.Zmap.Load.{load_cluster-head, load_cluster-body}
use erofs_utils.Zmap.Head.{extent_lookback-IsFound}
use erofs_utils.Zmap.Branches.{IsSimple, find_head-here, find_head-body, find_head-before}
use erofs_utils.Zmap.Placed.{
  IsMapping, IsPlaced, shl64-mul, cluster_pos-add, lt_of_mul-lt-mul_suc, finished,
}
use native.Mathlib.Nat.{mul-le-mul, mod-lt, div-add-mod', add-mul}

module _ (sbi : SbInfo) (devices : Devices) (vi : Inode) (ds : List LclusterIndex)
    (x : IsIndexed sbi devices vi ds) (z : IsSimple vi) where
  module _ (s : PagedMap) (fuel h d c w type blkaddr at len : ℕ)
      (k : IsPlaced sbi devices vi ds h d c w type blkaddr at len)
      (page : IsPage sbi devices (start_recorder s)) where
    abbrev lcn : ℕ
    lcn = s.map.m_la / 2 ^ vi.z_logical_clusterbits

    abbrev endoff : ℕ
    endoff = bit_and s.map.m_la (2 ^ vi.z_logical_clusterbits - 1)

    abbrev IsDone : Type 0
    IsDone =
        (t : PagedMap) × (do_map_blocks sbi devices vi s false false fuel ≡ some (none, vi, t))
        × IsMapping sbi devices vi ds at len blkaddr s.map.m_la t

    whole_offset : (s.map.m_la ≡ lcn * blksiz sbi + endoff) × (endoff < blksiz sbi)
    whole_offset =
        let size : 2 ^ vi.z_logical_clusterbits ≡ blksiz sbi = ap (λ (b : ℕ). 2 ^ b) x.clusters in
        let rest = bit_and_mask vi.z_logical_clusterbits s.map.m_la in
        let low = mod-lt s.map.m_la (two_pow-pos vi.z_logical_clusterbits) in
        (
          omega (
            arith,
            div-add-mod' s.map.m_la (2 ^ vi.z_logical_clusterbits),
            rest,
            ap (λ (y : ℕ). lcn * y) size,
          ),
          omega (arith, rest, low, size),
        )

    -- the offset lies in the cluster that the extent starts in
    found_here : lcn ≡ h → at ≤ s.map.m_la → s.map.m_la < at + len → IsDone
    unfolding mapped_encoded
    found_here l low high =
        let (advise, entry, small, is_type) = k.headed.start in
        let (m, e, loaded, ty, co, pb) =
          load_cluster-head sbi devices vi ds (start_recorder s) lcn advise c blkaddr x page
            (ap (get_elem? ds) l ∙ entry) small k.headed.offset_small
            (omega (arith, is_type, k.headed.type_head)) in
        let (whole, rest) = whole_offset in
        let inside : lcn < 2 ^ 32 = omega (arith, x.small, l, get_elem-lt ds h _ entry) in
        let same = ap (λ (y : ℕ). y * blksiz sbi) l in
        let end : shl64 (m.lcn + 1) vi.z_logical_clusterbits ≡ h * blksiz sbi + blksiz sbi =
          shl64-mul sbi devices vi ds x z (m.lcn + 1) (omega (arith, loaded.here, inside))
          ∙ ap (λ (y : ℕ). (y + 1) * blksiz sbi) (loaded.here ∙ l)
          ∙ add-mul h 1 (blksiz sbi)
          ∙ omega arith in
        let most =
          mul-le-mul {n₁ = h} {m₁ = blksiz sbi} {n₂ = 2 ^ 32} {m₂ = 2 ^ 15}
            (omega (arith, inside, l)) (two_pow_le 15 sbi.blkszbits x.largest) in
        finished sbi devices vi ds x z s fuel h d c w type blkaddr at len
          (shl64 (m.lcn + 1) vi.z_logical_clusterbits) m _ k e
          (find_head-here sbi devices vi z (mapped_encoded m) endoff
            (omega (arith, ty, is_type, k.headed.type_head))
            (omega (arith, co, whole, rest, same, low, k.starts)))
          (record {
            headtype_is = ty ∙ is_type;
            m_la_is =
                ap (λ (y : ℕ). cluster_pos vi y m.clusterofs) (loaded.here ∙ l)
                ∙ ap (cluster_pos vi h) co;
            pblk_is = pb k.headed.block_small;
          })
          (omega (arith, inside, l))
          (omega (arith, end, most, two_pow_le 15 sbi.blkszbits x.largest)) low
          (omega (arith, end, whole, rest, same)) (λ p. omega (arith, end, k.starts))
          (elim (block_cases sbi (c + len)) [
            | inl y ↦ inr y
            | inr (i, y) ↦ inl (omega (arith, end, k.starts, (block_less sbi vi (c + len) i y).0))
          ])

    -- the offset lies in a later cluster of the extent, which is full
    found_later : (j : ℕ) → lcn ≡ h + j → 0 < j → j < d → at ≤ s.map.m_la → IsDone
    unfolding mapped_encoded
    found_later j l p b low =
        let (d0, d1, entry, positive, most, small) = k.headed.inner j p b in
        let (m, e, loaded, ty, de) =
          load_cluster-body sbi devices vi ds (start_recorder s) lcn c d0 d1 x page
            (ap (get_elem? ds) l ∙ entry) k.headed.offset_small small in
        let (n, f, found) =
          extent_lookback-IsFound sbi devices vi ds h d c type blkaddr (m.lcn + 2)
            (mapped_encoded m) m.delta.0 j x k.headed loaded.page (loaded.here ∙ l)
            (omega (arith, b)) (omega (arith, de, positive)) (omega (arith, de, most))
            (omega (arith, loaded.here, l)) in
        let (whole, rest) = whole_offset in
        let inside : lcn < 2 ^ 32 = omega (arith, x.small, l, get_elem-lt ds (h + j) _ entry) in
        let same : lcn * blksiz sbi ≡ h * blksiz sbi + j * blksiz sbi =
          ap (λ (y : ℕ). y * blksiz sbi) l ∙ add-mul h j (blksiz sbi) in
        let end : shl64 (m.lcn + 1) vi.z_logical_clusterbits ≡ lcn * blksiz sbi + blksiz sbi =
          shl64-mul sbi devices vi ds x z (m.lcn + 1) (omega (arith, loaded.here, inside))
          ∙ ap (λ (y : ℕ). (y + 1) * blksiz sbi) loaded.here
          ∙ add-mul lcn 1 (blksiz sbi)
          ∙ omega arith in
        let size = two_pow_le 15 sbi.blkszbits x.largest in
        let bound =
          mul-le-mul {n₁ = lcn} {m₁ = blksiz sbi} {n₂ = 2 ^ 32} {m₂ = 2 ^ 15}
            (omega (arith, inside)) size in
        let covered : (j + 1) * blksiz sbi ≤ d * blksiz sbi =
          mul-le-mul {n₁ = j + 1} {m₁ = blksiz sbi} {n₂ = d} {m₂ = blksiz sbi} (omega (arith, b))
            (omega arith) in
        let two : 2 * blksiz sbi ≤ d * blksiz sbi =
          mul-le-mul {n₁ = 2} {m₁ = blksiz sbi} {n₂ = d} {m₂ = blksiz sbi} (omega (arith, b, p))
            (omega arith) in
        let reach = add-mul j 1 (blksiz sbi) in
        finished sbi devices vi ds x z s fuel h d c w type blkaddr at len
          (shl64 (m.lcn + 1) vi.z_logical_clusterbits) m n k e
          (find_head-body sbi devices vi z (mapped_encoded m) n endoff (eq→== m.type nonhead ty) f)
          found (omega (arith, inside, l)) (omega (arith, end, bound, size)) low
          (omega (arith, end, whole, rest))
          (λ q. absurd (omega (arith, k.plain_small q, k.ends, two, k.first_small)))
          (inl (omega (arith, end, same, covered, reach, k.starts, k.ends)))

    -- the offset lies in the cluster that the next extent starts in
    found_before : lcn ≡ h + d → 0 < d → at ≤ s.map.m_la → s.map.m_la < at + len → IsDone
    unfolding mapped_encoded
    found_before l p low high =
        let (whole, rest) = whole_offset in
        let same : lcn * blksiz sbi ≡ h * blksiz sbi + d * blksiz sbi =
          ap (λ (y : ℕ). y * blksiz sbi) l ∙ add-mul h d (blksiz sbi) in
        let before : endoff < w = omega (arith, whole, same, high, k.starts, k.ends) in
        let size = two_pow_le 15 sbi.blkszbits x.largest in
        let (advise, other, block, (small, is_type), ty_small, entry) =
          k.next p (omega (arith, before)) in
        let (m, e, loaded, ty, co, pb) =
          load_cluster-head sbi devices vi ds (start_recorder s) lcn advise w block x page
            (ap (get_elem? ds) l ∙ entry) small (omega (arith, k.last_small, size))
            (omega (arith, is_type, ty_small)) in
        let start = mapped_encoded m in
        let back = record start {
          map = record start.map { m_flags = record start.map.m_flags { full_mapped = true } };
          delta = (1, start.delta.1);
        } in
        let (n, f, found) =
          extent_lookback-IsFound sbi devices vi ds h d c type blkaddr (m.lcn + 2) back 1 d x
            k.headed loaded.page (loaded.here ∙ l) (omega arith) (omega arith) (omega (arith, p))
            (omega (arith, loaded.here, l)) in
        let inside : lcn < 2 ^ 32 = omega (arith, x.small, l, get_elem-lt ds (h + d) _ entry) in
        let end : cluster_pos vi m.lcn m.clusterofs ≡ lcn * blksiz sbi + w =
          ap (cluster_pos vi m.lcn) co
          ∙ cluster_pos-add sbi devices vi ds x z m.lcn w (omega (arith, loaded.here, inside))
              k.last_small
          ∙ ap (λ (y : ℕ). y * blksiz sbi + w) loaded.here in
        let bound =
          mul-le-mul {n₁ = lcn} {m₁ = blksiz sbi} {n₂ = 2 ^ 32} {m₂ = 2 ^ 15}
            (omega (arith, inside)) size in
        finished sbi devices vi ds x z s fuel h d c w type blkaddr at len
          (cluster_pos vi m.lcn m.clusterofs) m n k e
          (find_head-before sbi devices vi z start n endoff (omega (arith, ty, is_type, ty_small))
            (omega (arith, co, before)) (omega (arith, loaded.here, l, p)) f)
          found (omega (arith, inside, l)) (omega (arith, end, bound, size, k.last_small)) low
          (omega (arith, end, whole, before))
          (λ q. omega (arith, end, same, k.starts, k.ends, k.plain_small q))
          (inl (omega (arith, end, same, k.starts, k.ends)))

    pub do_map_blocks-IsMapping : at ≤ s.map.m_la → s.map.m_la < at + len → IsDone
    do_map_blocks-IsMapping low high =
        let (whole, rest) = whole_offset in
        let after : h ≤ lcn =
          lt_of_mul-lt-mul_suc sbi devices vi ds x z h lcn
            (omega (arith, whole, rest, low, k.starts, add-mul lcn 1 (blksiz sbi))) in
        let inside : lcn ≤ h + d = lt_of_mul-lt-mul_suc sbi devices vi ds x z lcn (h + d) (
          omega (
            arith,
            whole,
            high,
            k.starts,
            k.ends,
            k.last_small,
            add-mul (h + d) 1 (blksiz sbi),
            add-mul h d (blksiz sbi),
          )) in
        elim (zero_or_suc (lcn - h)) [
          | inl y ↦ found_here (omega (arith, after, y)) low high
          | inr (i, y) ↦ elim (zero_or_suc (h + d - lcn)) [
            | inl v ↦ found_before (omega (arith, v, inside)) (omega (arith, y, inside)) low high
            | inr (v, u) ↦
                found_later (suc i) (omega (arith, y)) (omega arith) (omega (arith, y, u)) low
          ]
        ]
