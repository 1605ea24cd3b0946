-- ===== src/Zmap/Mapping.antt =====
-- lib/zmap.c, lib/compress.c: the mapping of a file against the extents that mkfs has written for it.
use erofs_utils.Base.{
  ℕ, ◌+◌, ◌-◌, ◌/◌, ◌%◌, ◌^◌, ◌≤◌, ◌<◌, ◌≡◌, refl, ap, subst, ◌∙◌, inl, inr, true, false, none,
  some, List, arith, Bool-cases,
}
use erofs_utils.Base.Bits.{two_pow-pos, two_pow_le}
use erofs_utils.Geometry.{SbInfo, blksiz}
use erofs_utils.Device.{Devices}
use erofs_utils.Inode.{Inode}
use erofs_utils.Dedupe.{InmemExtent}
use erofs_utils.Compress.{LclusterIndex, head, head_type, write_extents, write_indexes}
use erofs_utils.Compress.Extents.{Holds, IsExtents, zero_or_suc, end_of}
use erofs_utils.Compress.Table.{IsTabled, write_extents-IsTabled}
use erofs_utils.Compress.Shape.{block_less}
use erofs_utils.Zmap.{plain}
use erofs_utils.Zmap.Extent.{PagedMap, start_recorder, do_map_blocks}
use erofs_utils.Zmap.Page.{IsPage, IsIndexed}
use erofs_utils.Zmap.Branches.{IsSimple}
use erofs_utils.Zmap.Written.{IsTabled-IsHeaded}
use erofs_utils.Zmap.Placed.{IsMapping, IsPlaced}
use erofs_utils.Zmap.Found.{do_map_blocks-IsMapping}
use native.Mathlib.Nat.{mod-lt, div-add-mod', mod-eq_of_lt, div-eq_of_lt}

head_type-plain : (e : InmemExtent) → head_type e ≡ plain → e.raw ≡ true
unfolding head_type
head_type-plain e h = elim (Bool-cases e.raw) [
  | inl t ↦ t
  | inr f ↦ let one : head_type e ≡ 1 = rw f refl in absurd (omega (arith, h, one))
]

module _ (sbi : SbInfo) (inode : Inode) where
  -- the table of a file, which starts at byte 0
  write_indexes-IsTabled :
      (es : List InmemExtent) (at : ℕ) (e : InmemExtent)
      → blksiz sbi ≤ 2 ^ 16
      → IsExtents sbi 0 es
      → Holds 0 es at e
      → IsTabled sbi inode (write_indexes sbi inode es) (at / blksiz sbi) at e
  unfolding write_indexes
  write_indexes-IsTabled es at e b v h =
      let offset : 0 % blksiz sbi ≡ 0 = mod-eq_of_lt (two_pow-pos sbi.blkszbits) in
      let block : 0 / blksiz sbi ≡ 0 = div-eq_of_lt (two_pow-pos sbi.blkszbits) in
      let (le, t) = write_extents-IsTabled sbi inode es 0 at e b h v in
      subst (λ (k : ℕ). IsTabled sbi inode (write_extents sbi inode 0 es) k at e)
        {x = at / blksiz sbi - 0 / blksiz sbi} (omega (arith, block))
        (subst
          (λ (c : ℕ).
            IsTabled sbi inode (write_extents sbi inode c es) (at / blksiz sbi - 0 / blksiz sbi) at
              e)
          offset t)

  IsTabled-IsPlaced :
      (devices : Devices) (vi : Inode) (ds : List LclusterIndex) (at : ℕ) (e : InmemExtent)
      → IsTabled sbi inode ds (at / blksiz sbi) at e
      → blksiz sbi ≤ 2 ^ 16
      → sbi.has_big_pcluster ≡ false
      → e.compressedblks ≡ 1
      → e.blkaddr < 2 ^ 32
      → (e.raw ≡ true → e.length ≤ blksiz sbi)
      → IsPlaced sbi devices vi ds
          (at / blksiz sbi)
          ((at % blksiz sbi + e.length) / blksiz sbi)
          (at % blksiz sbi)
          ((at % blksiz sbi + e.length) % blksiz sbi)
          (head_type e)
          e.blkaddr
          at
          e.length
  IsTabled-IsPlaced devices vi ds at e t b big one small raw =
      let c = at % blksiz sbi in
      let (blocks, rest) = end_of sbi at e.length in
      record {
        headed = IsTabled-IsHeaded sbi inode ds (at / blksiz sbi) at e t b big one small;
        starts = omega (arith, div-add-mod' at (blksiz sbi));
        ends = omega (arith, div-add-mod' (c + e.length) (blksiz sbi));
        first_small = mod-lt at (two_pow-pos sbi.blkszbits);
        last_small = mod-lt (c + e.length) (two_pow-pos sbi.blkszbits);
        first_is = refl;
        plain_small = λ p. raw (head_type-plain e p);
        next = λ p q. elim (zero_or_suc ((c + e.length) / blksiz sbi)) [
          | inl y ↦ absurd (omega (arith, y, p))
          | inr (d, y) ↦
              let (advise, type, block, is, less, entry) =
                t.next (block_less sbi inode (c + e.length) d y).0 (omega (arith, rest, q)) in
              (
                advise,
                type,
                block,
                is,
                less,
                entry ∙ ap (λ (w : ℕ). some (head advise w block)) rest,
              )
        ];
      }

-- On an image with the table of indexes that mkfs writes for the extents `es` of a file, an offset is mapped
-- to the extent that it lies in: its start, its block, and a length that reaches behind the offset and not
-- behind the extent unless that ends in the block it starts in. The image is one device that reads without
-- errors, with blocks of 512 bytes to 32 KiB; the extent has one block, and at most a block of bytes if it is raw;
-- the file has no big pclusters, inline data or fragments, each of its extents is below 2 GiB and all but the
-- last reach the end of the block they start in; the table ends before byte 2 ^ 35; the page that the map has
-- cached is that of its index.
pub do_map_blocks-write_indexes :
    (sbi : SbInfo) (devices : Devices) (vi inode : Inode) (es : List InmemExtent) (at : ℕ)
    (e : InmemExtent) (s : PagedMap) (fuel : ℕ)
    → IsIndexed sbi devices vi (write_indexes sbi inode es)
    → IsSimple vi
    → sbi.has_big_pcluster ≡ false
    → IsExtents sbi 0 es
    → Holds 0 es at e
    → e.compressedblks ≡ 1
    → e.blkaddr < 2 ^ 32
    → (e.raw ≡ true → e.length ≤ blksiz sbi)
    → IsPage sbi devices (start_recorder s)
    → at ≤ s.map.m_la
    → s.map.m_la < at + e.length
    → (t : PagedMap) × (do_map_blocks sbi devices vi s false false fuel ≡ some (none, vi, t))
      × IsMapping sbi devices vi (write_indexes sbi inode es) at e.length e.blkaddr s.map.m_la t
do_map_blocks-write_indexes sbi devices vi inode es at e s fuel x z big v h one small raw page low
      high =
    let ds = write_indexes sbi inode es in
    let size : blksiz sbi ≤ 2 ^ 16 = omega (arith, two_pow_le 15 sbi.blkszbits x.largest) in
    let table = write_indexes-IsTabled sbi inode es at e size v h in
    do_map_blocks-IsMapping sbi devices vi ds x z s fuel _ _ _ _ _ _ at e.length
      (IsTabled-IsPlaced sbi inode devices vi ds at e table size big one small raw) page low high
