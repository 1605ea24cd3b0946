-- ===== src/Zmap/Load.antt =====
-- lib/zmap.c: what the load of an index finds, on an image that holds a table of indexes in the full form.
use erofs_utils.Base.{
  ℕ, ◌+◌, ◌*◌, ◌%◌, ◌^◌, ◌<◌, ◌≡◌, refl, ap, ◌∙◌, true, false, bit_and, Option, none, some, List,
  [], ◌∷◌, ◌++◌, get_elem?, arith, ◌==◌, if◌then◌else◌, eq→==,
}
use erofs_utils.Base.Memory.{Buf, le, le_bytes, At, At-append, fields_bytes, Reads-fields_bytes}
use erofs_utils.Base.Words.{add64}
use erofs_utils.Geometry.{SbInfo, blknr, blkoff}
use erofs_utils.Device.{Devices}
use erofs_utils.Inode.{Inode, compressed_full}
use erofs_utils.Compress.{LclusterIndex, head, body, index_bytes}
use erofs_utils.Zmap.{
  MapRecorder, nonhead, has_bit, reload_indexes, full_nonhead, full_head, full_index_base,
  legacy_load_cluster, legacy_index,
}
use erofs_utils.Zmap.Compact.{load_cluster}
use erofs_utils.Zmap.Page.{IsPage, IsIndexed, get_elem-lt, has_bit-none, reload_indexes-At}

module _ (sbi : SbInfo) (devices : Devices) where
  -- what every load that succeeds leaves
  pub record IsLoaded (m : MapRecorder) (lcn : ℕ) (n : MapRecorder) : Type 0 where
    pub here : n.lcn ≡ lcn
    pub map_kept : n.map ≡ m.map
    pub page : IsPage sbi devices n

  -- The fields of a head and of another cluster, as the load reads them.
  head_fields :
      (b : Buf) (q advise clusterofs blkaddr : ℕ)
      → At b q (index_bytes (head advise clusterofs blkaddr))
      → advise < 2 ^ 16
      → clusterofs < 2 ^ 16
      → (le 2 b q ≡ advise)
        × (le 2 b (q + 2) ≡ clusterofs)
        × (blkaddr < 2 ^ 32 → le 4 b (q + 4) ≡ blkaddr)
  unfolding index_bytes
  head_fields b q advise clusterofs blkaddr a f g =
      let fields : List (ℕ × ℕ) = (2, advise) ∷ (2, clusterofs) ∷ [] in
      let (first, rest) =
        At-append b q (q + 4) (fields_bytes fields) (le_bytes 4 blkaddr ++ []) (omega arith) a in
      let r = Reads-fields_bytes b q fields (f, (g, tt)) first in
      (r.0, r.1.0, λ h. (Reads-fields_bytes b (q + 4) ((4, blkaddr) ∷ []) (h, tt) rest).0)

  body_fields :
      (b : Buf) (q advise clusterofs d0 d1 : ℕ)
      → At b q (index_bytes (body advise clusterofs d0 d1))
      → advise < 2 ^ 16
      → clusterofs < 2 ^ 16
      → d0 < 2 ^ 16
      → (le 2 b q ≡ advise) × (le 2 b (q + 4) ≡ d0)
  unfolding index_bytes
  body_fields b q advise clusterofs d0 d1 a f g h =
      let fields : List (ℕ × ℕ) = (2, advise) ∷ (2, clusterofs) ∷ (2, d0) ∷ [] in
      let (first, rest) =
        At-append b q (q + 6) (fields_bytes fields) (le_bytes 2 d1 ++ []) (omega arith) a in
      let r = Reads-fields_bytes b q fields (f, (g, (h, tt))) first in
      (r.0, ap (le 2 b) {x = q + 4} {y = q + 2 + 2} (omega arith) ∙ r.1.1.0)

  load_cluster-legacy_load_cluster :
      (vi : Inode) (m : MapRecorder) (lcn : ℕ)
      → vi.datalayout ≡ compressed_full
      → lcn < 2 ^ 32
      → load_cluster sbi devices vi m lcn false ≡ legacy_load_cluster sbi devices vi m lcn
  unfolding load_cluster
  load_cluster-legacy_load_cluster vi m lcn f l =
      let is_full : (vi.datalayout == compressed_full) ≡ true = eq→== _ _ f in
      rw (load_cluster, is_full)
        (ap (legacy_load_cluster sbi devices vi m) {x = lcn % 2 ^ 32} {y = lcn} (omega (arith, l)))

  -- the index that is read from the page
  legacy_load_cluster-legacy_index :
      (vi : Inode) (m : MapRecorder) (lcn : ℕ) (b : Buf)
      → let place = add64 (full_index_base sbi vi) (lcn * 8 % 2 ^ 64) in
        reload_indexes sbi devices m (blknr sbi place % 2 ^ 32)
          ≡ (none, record m { index = blknr sbi place % 2 ^ 32; mpage = b })
        → legacy_load_cluster sbi devices vi m lcn
          ≡ legacy_index vi
              (record m {
                index = blknr sbi place % 2 ^ 32;
                mpage = b;
                nextpackoff = add64 place 8;
                lcn = lcn;
              })
              (blkoff sbi place)
  unfolding legacy_load_cluster
  legacy_load_cluster-legacy_index vi m lcn b e =
      let place = add64 (full_index_base sbi vi) (lcn * 8 % 2 ^ 64) in
      ap
        (λ (r : Option ℕ × MapRecorder). elim r.0 [
          | some e ↦ r
          | none ↦
              legacy_index vi (record r.1 { nextpackoff = add64 place 8; lcn = lcn })
                (blkoff sbi place)
        ])
        e

  -- A head is loaded with its type, its offset in the cluster and its block.
  pub load_cluster-head :
      (vi : Inode) (ds : List LclusterIndex) (m : MapRecorder) (lcn advise clusterofs blkaddr : ℕ)
      → IsIndexed sbi devices vi ds
      → IsPage sbi devices m
      → get_elem? ds lcn ≡ some (head advise clusterofs blkaddr)
      → advise < 2 ^ 16
      → clusterofs < 2 ^ 16
      → bit_and advise 3 < 2
      → (n : MapRecorder) × (load_cluster sbi devices vi m lcn false ≡ (none, n))
        × IsLoaded m lcn n
        × (n.type ≡ bit_and advise 3)
        × (n.clusterofs ≡ clusterofs)
        × (blkaddr < 2 ^ 32 → n.pblk ≡ blkaddr)
  unfolding legacy_index full_head
  load_cluster-head vi ds m lcn advise clusterofs blkaddr x p h a c t =
      let place = add64 (full_index_base sbi vi) (lcn * 8 % 2 ^ 64) in
      let q = blkoff sbi place in
      let (b, e, bytes, page) =
        reload_indexes-At sbi devices vi ds m lcn (head advise clusterofs blkaddr) x p h in
      let (f0, f1, f2) = head_fields b q advise clusterofs blkaddr bytes a c in
      let number : lcn % 2 ^ 32 ≡ lcn = omega (arith, x.small, get_elem-lt ds lcn _ h) in
      let start = record m {
        index = blknr sbi place % 2 ^ 32;
        mpage = b;
        nextpackoff = add64 place 8;
        lcn = lcn;
      } in
      let not_body : (bit_and advise 3 == nonhead) ≡ false = ground (arith, t) in
      let not_bad : (bit_and advise 3 == 3) ≡ false = ground (arith, t) in
      let loaded = record m {
        index = blknr sbi place % 2 ^ 32;
        mpage = b;
        nextpackoff = add64 place 8;
        lcn = lcn;
        partialref = if has_bit advise 15 then true else m.partialref;
        clusterofs = clusterofs;
        pblk = le 4 b (q + 4);
        type = bit_and advise 3;
      } in
      (
        loaded,
        load_cluster-legacy_load_cluster vi m lcn x.full (omega (arith, number))
            ∙ legacy_load_cluster-legacy_index vi m lcn b e
            ∙ rw (legacy_index, f0, not_body, not_bad, f1) refl,
        record { here = refl; map_kept = refl; page = page },
        refl,
        refl,
        f2,
      )

  -- Another cluster is loaded with its distance to the head.
  pub load_cluster-body :
      (vi : Inode) (ds : List LclusterIndex) (m : MapRecorder) (lcn clusterofs d0 d1 : ℕ)
      → IsIndexed sbi devices vi ds
      → IsPage sbi devices m
      → get_elem? ds lcn ≡ some (body nonhead clusterofs d0 d1)
      → clusterofs < 2 ^ 16
      → d0 < 2 ^ 11
      → (n : MapRecorder) × (load_cluster sbi devices vi m lcn false ≡ (none, n))
        × IsLoaded m lcn n
        × (n.type ≡ nonhead)
        × (n.delta.0 ≡ d0)
  unfolding legacy_index full_nonhead
  load_cluster-body vi ds m lcn clusterofs d0 d1 x p h c k =
      let place = add64 (full_index_base sbi vi) (lcn * 8 % 2 ^ 64) in
      let q = blkoff sbi place in
      let (b, e, bytes, page) =
        reload_indexes-At sbi devices vi ds m lcn (body nonhead clusterofs d0 d1) x p h in
      let (f0, f1) =
        body_fields b q nonhead clusterofs d0 d1 bytes (omega arith) c (omega (arith, k)) in
      let number : lcn % 2 ^ 32 ≡ lcn = omega (arith, x.small, get_elem-lt ds lcn _ h) in
      let plain_distance : has_bit d0 11 ≡ false = has_bit-none d0 k in
      let loaded = record m {
        index = blknr sbi place % 2 ^ 32;
        mpage = b;
        nextpackoff = add64 place 8;
        lcn = lcn;
        clusterofs = 2 ^ vi.z_logical_clusterbits % 2 ^ 16;
        delta = (d0, le 2 b (q + 6) % 2 ^ 16);
        type = nonhead;
      } in
      (
        loaded,
        load_cluster-legacy_load_cluster vi m lcn x.full (omega (arith, number))
            ∙ legacy_load_cluster-legacy_index vi m lcn b e
            ∙ rw (legacy_index, f0, f1, full_nonhead, plain_distance) refl,
        record { here = refl; map_kept = refl; page = page },
        refl,
        refl,
      )
