-- ===== src/Compress.antt =====
-- lib/compress.c: the indexes of the logical clusters, as mkfs writes them in the full form. An extent is
-- what lib/dedupe.c calls one, too.
pub mod Shape
pub mod Extents
pub mod Table
use erofs_utils.Base.{
  ℕ, zero, suc, ◌+◌, ◌-◌, ◌/◌, ◌^◌, min, bit_or, ◌&&◌, List, [], ◌∷◌, ◌++◌, leb, ◌==◌,
  if◌then◌else◌,
}
use erofs_utils.Base.Memory.{Buf, memset, memcpy, fields_bytes}
use erofs_utils.Base.Words.{add32}
use erofs_utils.Geometry.{SbInfo, blksiz}
use erofs_utils.Inode.{Inode, compressed_full}
use erofs_utils.Dedupe.{InmemExtent}
use erofs_utils.Zmap.{plain, head1, nonhead, d0_cblkcnt, interlaced_pcluster}

-- `struct z_erofs_lcluster_index`: a head with its block, or another cluster with two distances
pub data LclusterIndex : Type 0 where
  head : (advise clusterofs blkaddr : ℕ) → LclusterIndex
  body : (advise clusterofs delta0 delta1 : ℕ) → LclusterIndex

unfoldable pub index_bytes : LclusterIndex → List ℕ
index_bytes (head advise clusterofs blkaddr) =
    fields_bytes ((2, advise) ∷ (2, clusterofs) ∷ (4, blkaddr) ∷ [])
index_bytes (body advise clusterofs delta0 delta1) =
    fields_bytes ((2, advise) ∷ (2, clusterofs) ∷ (2, delta0) ∷ (2, delta1) ∷ [])

unfoldable pub head_type : InmemExtent → ℕ
head_type e = if e.raw then plain else head1

-- di_u.blkaddr: for data in the packed inode, the high half of the offset there
unfoldable pub head_blkaddr : Inode → InmemExtent → ℕ
head_blkaddr inode e =
    if inode.datalayout == compressed_full && e.compressedblks == 0
    then inode.fragmentoff / 2 ^ 32
    else e.blkaddr

-- Z_EROFS_LI_PARTIAL_REF
abbrev pub partial_ref : ℕ
partial_ref = 2 ^ 15

-- One round of the loop, for the cluster `d0` of an extent.
unfoldable pub cluster_index : SbInfo → Inode → InmemExtent → ℕ → ℕ → ℕ → LclusterIndex
cluster_index sbi inode e clusterofs zero d1 =
    head (bit_or (if e.partial then partial_ref else 0) (head_type e)) clusterofs
      (head_blkaddr inode e)
cluster_index sbi inode e clusterofs (suc d0) d1 =
    if d0 == 0 && sbi.has_big_pcluster
    then body nonhead clusterofs (bit_or e.compressedblks d0_cblkcnt) d1
    else body nonhead clusterofs (if leb d0_cblkcnt (suc d0) then d0_cblkcnt - 1 else suc d0) d1

-- The loop from cluster `d0` on; `d1` clusters are left, as many as its condition lets through. What is
-- left of `count`, with the first cluster's offset, is returned.
unfoldable pub extent_loop :
    SbInfo → Inode → InmemExtent → ℕ → ℕ → ℕ → ℕ → ℕ → List LclusterIndex × ℕ
extent_loop sbi inode e first d0 zero clusterofs count = ([], clusterofs + count)
extent_loop sbi inode e first d0 (suc d1) clusterofs count =
    let left = count - (blksiz sbi - clusterofs) in
    let di = cluster_index sbi inode e first d0 (suc d1) in
    let rest = extent_loop sbi inode e first (d0 + 1) d1 0 left in
    if leb (blksiz sbi) left then (di ∷ rest.0, rest.1) else (di ∷ [], left)

-- z_erofs_write_extent from ctx->clusterofs on: the indexes, and the new ctx->clusterofs
unfoldable pub write_extent : SbInfo → Inode → ℕ → InmemExtent → List LclusterIndex × ℕ
write_extent sbi inode clusterofs e =
    let d1 = add32 clusterofs e.length / blksiz sbi in
    if d1 == 0
    then (head (head_type e) clusterofs (head_blkaddr inode e) ∷ [], 0)
    else extent_loop sbi inode e clusterofs 0 d1 clusterofs e.length

-- z_erofs_write_indexes_final
unfoldable pub write_indexes_final : ℕ → List LclusterIndex
write_indexes_final clusterofs = if clusterofs == 0 then [] else head plain clusterofs 0 ∷ []

unfoldable pub write_extents : SbInfo → Inode → ℕ → List InmemExtent → List LclusterIndex
write_extents sbi inode clusterofs [] = write_indexes_final clusterofs
write_extents sbi inode clusterofs (ei ∷ n) =
    let w = write_extent sbi inode clusterofs ei in w.0 ++ write_extents sbi inode w.1 n

-- z_erofs_write_indexes
unfoldable pub write_indexes : SbInfo → Inode → List InmemExtent → List LclusterIndex
write_indexes sbi inode extents = write_extents sbi inode 0 extents

unfoldable pub indexes_bytes : List LclusterIndex → List ℕ
indexes_bytes [] = []
indexes_bytes (di ∷ dis) = index_bytes di ++ indexes_bytes dis

-- What write_uncompressed_extent puts into the block `dst` of at most `len` bytes at `queue + queue_head`, and how
-- many bytes these are.
unfoldable pub fill_uncompressed : SbInfo → Inode → ℕ → Buf → ℕ → ℕ → Buf → Buf × ℕ
fill_uncompressed sbi inode clusterofs queue queue_head len dst =
    let count = min (blksiz sbi) len in
    let interlaced_offset = if interlaced_pcluster inode then clusterofs else 0 in
    let rightpart = min (blksiz sbi - interlaced_offset) count in
    let right = memcpy (memset dst 0 0 (blksiz sbi)) interlaced_offset queue queue_head rightpart in
    (memcpy right 0 queue (queue_head + rightpart) (count - rightpart), count)
