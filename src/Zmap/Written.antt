-- ===== src/Zmap/Written.antt =====
-- lib/compress.c, lib/zmap.c: the table that mkfs writes, as the search for a head needs it.
use erofs_utils.Base.{
  ℕ, zero, suc, ◌+◌, ◌-◌, ◌/◌, ◌%◌, ◌^◌, ◌≤◌, ◌<◌, ◌≡◌, refl, ap, ◌∙◌, inl, inr, false, ◌&&◌, some,
  List, arith, ◌==◌, leb, leb→le, leb→lt, Bool-cases, bit_or, if◌then◌else◌,
}
use erofs_utils.Base.Bits.{two_pow-pos}
use erofs_utils.Geometry.{SbInfo, blksiz}
use erofs_utils.Inode.{Inode}
use erofs_utils.Dedupe.{InmemExtent}
use erofs_utils.Compress.{
  LclusterIndex, head, body, head_type, head_blkaddr, partial_ref, cluster_index,
}
use erofs_utils.Compress.Extents.{head_type-lt, head_type-IsAdvise, partial_ref-IsAdvise}
use erofs_utils.Compress.Table.{IsTabled}
use erofs_utils.Zmap.{nonhead, d0_cblkcnt}
use erofs_utils.Zmap.Head.{IsHeaded}
use native.Mathlib.Nat.{mod-lt}

module _ (sbi : SbInfo) (inode : Inode) where
  cluster_index-body :
      (e : InmemExtent) (c j d1 : ℕ)
      → sbi.has_big_pcluster ≡ false
      → 0 < j
      → (d0 : ℕ) × (cluster_index sbi inode e c j d1 ≡ body nonhead c d0 d1)
        × (0 < d0)
        × (d0 ≤ j)
        × (d0 < 2 ^ 11)
  unfolding cluster_index
  cluster_index-body e c zero d1 b p = absurd (omega arith)
  cluster_index-body e c (suc j) d1 b p =
      let small_pcluster : (j == 0 && sbi.has_big_pcluster) ≡ false = elim (Bool-cases (j == 0)) [
        | inl t ↦ rw t b
        | inr f ↦ rw f refl
      ] in
      elim (Bool-cases (leb d0_cblkcnt (suc j))) [
        | inl t ↦ (
          d0_cblkcnt - 1,
          rw (cluster_index, small_pcluster, t) refl,
          omega arith,
          omega (arith, leb→le d0_cblkcnt (suc j) t),
          omega arith,
        )
        | inr f ↦ (
          suc j,
          rw (cluster_index, small_pcluster, f) refl,
          omega arith,
          omega arith,
          omega (arith, leb→lt d0_cblkcnt (suc j) f),
        )
      ]

  cluster_index-head :
      (e : InmemExtent) (c d1 : ℕ)
      → cluster_index sbi inode e c 0 d1
        ≡ head
            (bit_or (if e.partial then partial_ref else 0) (head_type e))
            c
            (head_blkaddr inode e)
  unfolding cluster_index
  cluster_index-head e c d1 = refl

  head_blkaddr-blkaddr : (e : InmemExtent) → e.compressedblks ≡ 1 → head_blkaddr inode e ≡ e.blkaddr
  unfolding head_blkaddr
  head_blkaddr-blkaddr e h =
      let nonzero : (e.compressedblks == 0) ≡ false = ground (arith, h) in
      elim (Bool-cases (inode.datalayout == 1)) [ inl t ↦ rw (t, nonzero) refl | inr f ↦ rw f refl ]

  pub IsTabled-IsHeaded :
      (ds : List LclusterIndex) (k at : ℕ) (e : InmemExtent)
      → IsTabled sbi inode ds k at e
      → blksiz sbi ≤ 2 ^ 16
      → sbi.has_big_pcluster ≡ false
      → e.compressedblks ≡ 1
      → e.blkaddr < 2 ^ 32
      → IsHeaded ds k
          ((at % blksiz sbi + e.length) / blksiz sbi)
          (at % blksiz sbi)
          (head_type e)
          e.blkaddr
  IsTabled-IsHeaded ds k at e t z b one small =
      let c = at % blksiz sbi in
      let d = (c + e.length) / blksiz sbi in
      let block = head_blkaddr-blkaddr e one in
      record {
        type_head = head_type-lt e;
        offset_small = omega (arith, z, mod-lt at (two_pow-pos sbi.blkszbits));
        block_small = small;
        start = elim t.first [
          | inl h ↦
              let (lt, is) = partial_ref-IsAdvise e in
              (
                bit_or (if e.partial then partial_ref else 0) (head_type e),
                h
                    ∙ ap some (
                        cluster_index-head e c d
                        ∙ ap (head (bit_or (if e.partial then partial_ref else 0) (head_type e)) c)
                            block),
                lt,
                is,
              )
          | inr h ↦
              let (lt, is) = head_type-IsAdvise e in
              (head_type e, h ∙ ap (λ (x : ℕ). some (head (head_type e) c x)) block, lt, is)
        ];
        inner = λ j p l.
            let (d0, f, positive, most, less) = cluster_index-body e c j (d - j) b p in
            (d0, d - j, t.inner j l ∙ ap some f, positive, most, less);
      }
