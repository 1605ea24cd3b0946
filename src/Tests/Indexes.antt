-- ===== src/Tests/Indexes.antt =====
-- A file of 1500 bytes in two extents, with the indexes that mkfs writes for it.
use erofs_utils.Base.{◌≡◌, refl, inl, inr, true, false, none, some, List, [], ◌∷◌, lt→ltb, arith}
use erofs_utils.Base.Memory.{store, At-store, At-frame}
use erofs_utils.Device.{Vfile, Devices}
use erofs_utils.Device.Primary.{dev_byte}
use erofs_utils.Inode.{Inode, compressed_full, iloc}
use erofs_utils.Geometry.{pos}
use erofs_utils.Dedupe.{InmemExtent}
use erofs_utils.Compress.{
  write_indexes, write_extents, write_extent, extent_loop, cluster_index, head_type, head_blkaddr,
  write_indexes_final, index_bytes, indexes_bytes,
}
use erofs_utils.Zmap.{round_up64, full_index_base, has_bit}
use erofs_utils.Zmap.Iter.{fresh_map}
use erofs_utils.Zmap.Extent.{PagedMap, do_map_blocks, start_recorder}
use erofs_utils.Zmap.Page.{IsIndexed}
use erofs_utils.Zmap.Branches.{IsSimple}
use erofs_utils.Zmap.Placed.{IsMapping}
use erofs_utils.Zmap.Mapping.{do_map_blocks-write_indexes}
use erofs_utils.Tests.Image.{sbi, vi, zeros}

abbrev indexed : Inode
indexed = record vi { datalayout = compressed_full; z_logical_clusterbits = 9 }

-- 1200 bytes that are compressed, and 300 that are not
abbrev packed : InmemExtent
packed = record {
  blkaddr = 5;
  compressedblks = 1;
  length = 1200;
  raw = false;
  partial = false;
  inlined = false;
}

abbrev stored : InmemExtent
stored = record {
  blkaddr = 6;
  compressedblks = 1;
  length = 300;
  raw = true;
  partial = false;
  inlined = false;
}

abbrev extents : List InmemExtent
extents = packed ∷ stored ∷ []

-- The indexes stand behind the inode and the header.
abbrev indexed_image : Vfile
indexed_image = record {
  size = 8192;
  byte = store zeros 1328 (indexes_bytes (write_indexes sbi indexed extents));
  error = λ offset len. none;
}

abbrev indexed_devices : Devices
indexed_devices id = indexed_image

abbrev asked : PagedMap
asked = let m = fresh_map zeros in record m { map = record m.map { m_la = 1100 } }

indexed-IsIndexed : IsIndexed sbi indexed_devices indexed (write_indexes sbi indexed extents)
unfolding full_index_base round_up64 iloc pos write_indexes write_extents write_extent extent_loop
    cluster_index head_type head_blkaddr write_indexes_final index_bytes indexes_bytes
indexed-IsIndexed = record {
  single = record { no_extra = refl; no_error = λ offset len. refl };
  full = refl;
  smallest = omega arith;
  largest = omega arith;
  clusters = refl;
  small = omega arith;
  table =
      let bytes = indexes_bytes (write_indexes sbi indexed extents) in
      At-frame (store zeros 1328 bytes) (dev_byte indexed_image) 1328 bytes
        (λ i lo hi. rw (lt→ltb i 8192 (omega (arith, hi))) refl) (At-store zeros 1328 bytes);
}

indexed-IsSimple : IsSimple indexed
unfolding has_bit
indexed-IsSimple = record { small_pclusters = refl; not_inline = refl; no_fragment = refl }

do_map_blocks-write_indexes_example :
    (t : PagedMap) × (do_map_blocks sbi indexed_devices indexed asked false false 1
      ≡ some (none, indexed, t))
    × IsMapping sbi indexed_devices indexed (write_indexes sbi indexed extents) 0 1200 5 1100 t
unfolding start_recorder
do_map_blocks-write_indexes_example =
    do_map_blocks-write_indexes sbi indexed_devices indexed indexed extents 0 packed asked 1
      indexed-IsIndexed indexed-IsSimple refl
      (omega arith, omega arith, inr (omega arith), (omega arith, omega arith, inl refl, tt))
      (inl (refl, refl)) refl (omega arith) (λ h. absurd cc) (λ j l h. absurd (omega (arith, h)))
      (omega arith) (omega arith)
