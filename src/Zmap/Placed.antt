-- ===== src/Zmap/Placed.antt =====
-- lib/zmap.c: an extent in the table of indexes, and the last steps of z_erofs_do_map_blocks for it.
use erofs_utils.Base.{
  ℕ, ◌+◌, ◌-◌, ◌*◌, ◌/◌, ◌%◌, ◌^◌, ◌≤◌, ◌<◌, ◌≡◌, sym, ap, ◌∙◌, ◌⊎◌, inl, inr, false, bit_and,
  bit_or, none, some, List, get_elem?, arith,
}
use erofs_utils.Base.Bits.{two_pow_le, bit_or_disjoint}
use erofs_utils.Base.Words.{shl64, sub64}
use erofs_utils.Geometry.{SbInfo, blksiz, pos}
use erofs_utils.Device.{Devices}
use erofs_utils.Inode.{Inode}
use erofs_utils.Compress.{LclusterIndex, head}
use erofs_utils.Compress.Extents.{IsAdvise}
use erofs_utils.Zmap.{MapRecorder, plain}
use erofs_utils.Zmap.Compact.{load_cluster}
use erofs_utils.Zmap.Extent.{
  PagedMap, cluster_pos, start_recorder, mapped_encoded, find_head, do_map_blocks,
}
use erofs_utils.Zmap.Page.{IsIndexed}
use erofs_utils.Zmap.Head.{IsHeaded, IsFound}
use erofs_utils.Zmap.Branches.{IsSimple, finish_map-set_extent, do_map_blocks-finish_map}
use native.Mathlib.Nat.{mul-le-mul, lt_of_mul-lt-mul_right}

module _ (sbi : SbInfo) (devices : Devices) (vi : Inode) (ds : List LclusterIndex) where
  -- The mapping of the offset `o` is the extent of `len` bytes at `at`, in the block `blkaddr`. It ends
  -- before the extent does where the extent goes on in later blocks, and behind it only where the extent
  -- ends in the block that it starts in.
  abbrev pub IsMapping : ℕ → ℕ → ℕ → ℕ → PagedMap → Type 0
  IsMapping at len blkaddr o t =
      (t.map.m_la ≡ at)
      × (t.map.m_pa ≡ pos sbi blkaddr)
      × (t.map.m_plen ≡ blksiz sbi)
      × (o < at + t.map.m_llen)
      × ((t.map.m_llen ≤ len) ⊎ (at % blksiz sbi + len < blksiz sbi))

  -- Where the extent stands, and what the cluster that it ends in starts with.
  pub record IsPlaced (h d c w type blkaddr at len : ℕ) : Type 0 where
    pub headed : IsHeaded ds h d c type blkaddr
    pub starts : at ≡ h * blksiz sbi + c
    pub ends : c + len ≡ d * blksiz sbi + w
    pub first_small : c < blksiz sbi
    pub last_small : w < blksiz sbi
    pub first_is : at % blksiz sbi ≡ c
    pub plain_small : type ≡ plain → len ≤ blksiz sbi
    pub next :
        0 < d
        → 0 < w
        → (advise : ℕ) × (other : ℕ) × (block : ℕ) × IsAdvise advise other
          × (other < 2)
          × (get_elem? ds (h + d) ≡ some (head advise w block))

  module _ (x : IsIndexed sbi devices vi ds) (z : IsSimple vi) where
    pub shl64-mul : (k : ℕ) → k ≤ 2 ^ 32 → shl64 k vi.z_logical_clusterbits ≡ k * blksiz sbi
    shl64-mul k l =
        let size = two_pow_le 15 sbi.blkszbits x.largest in
        let most : k * blksiz sbi ≤ 2 ^ 32 * 2 ^ 15 =
          mul-le-mul {n₁ = k} {m₁ = blksiz sbi} {n₂ = 2 ^ 32} {m₂ = 2 ^ 15} l size in
        ap (shl64 k) x.clusters ∙ omega (arith, most)

    pub cluster_pos-add :
        (k c : ℕ) → k ≤ 2 ^ 32 → c < blksiz sbi → cluster_pos vi k c ≡ k * blksiz sbi + c
    unfolding cluster_pos
    cluster_pos-add k c l s =
        ap (λ (y : ℕ). bit_or y c) (shl64-mul k l) ∙ bit_or_disjoint sbi.blkszbits k c s

    pub lt_of_mul-lt-mul_suc : (a b : ℕ) → a * blksiz sbi < (b + 1) * blksiz sbi → a ≤ b
    lt_of_mul-lt-mul_suc a b l =
        let less : a < b + 1 = lt_of_mul-lt-mul_right (blksiz sbi) {m = a} {n = b + 1} l in
        omega (arith, less)

    -- the last steps, once the head and the end are found
    pub finished :
        (s : PagedMap) (fuel h d c w type blkaddr at len end : ℕ) (m n : MapRecorder)
        → IsPlaced h d c w type blkaddr at len
        → load_cluster sbi devices vi
            (start_recorder s)
            (s.map.m_la / 2 ^ vi.z_logical_clusterbits)
            false
          ≡ (none, m)
        → find_head sbi devices vi
            (mapped_encoded m)
            (bit_and s.map.m_la (2 ^ vi.z_logical_clusterbits - 1))
          ≡ some (none, n, end)
        → IsFound sbi devices vi ds h d c type blkaddr n
        → h ≤ 2 ^ 32
        → end < 2 ^ 64
        → at ≤ s.map.m_la
        → s.map.m_la < end
        → (type ≡ plain → end - at ≤ blksiz sbi)
        → ((end - at ≤ len) ⊎ (c + len < blksiz sbi))
        → (t : PagedMap) × (do_map_blocks sbi devices vi s false false fuel ≡ some (none, vi, t))
          × IsMapping at len blkaddr s.map.m_la t
    finished s fuel h d c w type blkaddr at len end m n k e f g small large low high p l =
        let size : 2 ^ vi.z_logical_clusterbits ≡ blksiz sbi = ap (λ (b : ℕ). 2 ^ b) x.clusters in
        let start : n.map.m_la ≡ at =
          g.m_la_is ∙ cluster_pos-add h c small k.first_small ∙ sym k.starts in
        let left : sub64 end n.map.m_la ≡ end - at = omega (arith, start, large, low, high) in
        let (t, done, la, pa, plen, llen) =
          finish_map-set_extent sbi devices vi z fuel n end
            (λ q. omega (arith, left, size, p (sym g.headtype_is ∙ q))) in
        (
          t,
          do_map_blocks-finish_map sbi devices vi z s t fuel end m n e f done,
          (
            la ∙ start,
            pa ∙ ap (pos sbi) g.pblk_is,
            plen ∙ size,
            omega (arith, llen, left, low, high),
            elim l [
              | inl a ↦ inl (omega (arith, llen, left, a))
              | inr b ↦ inr (omega (arith, k.first_is, b))
            ],
          ),
        )
