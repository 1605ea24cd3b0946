-- ===== src/Zmap/Branches.antt =====
-- lib/zmap.c: the ways through z_erofs_do_map_blocks for a file whose data is in pclusters of one block each.
use erofs_utils.Base.{
  ℕ, ◌+◌, ◌-◌, ◌/◌, ◌^◌, ◌≤◌, ◌<◌, ◌≡◌, refl, ap, ◌∙◌, inl, inr, true, false, bit_and, Option, none,
  some, arith, ◌==◌, le→ltb, le→leb, lt→leb, ==→eq, Bool-cases, if◌then◌else◌,
}
use erofs_utils.Base.Words.{shl64, sub64}
use erofs_utils.Geometry.{SbInfo, pos}
use erofs_utils.Device.{Devices}
use erofs_utils.Inode.{Inode}
use erofs_utils.Zmap.{
  MapRecorder, plain, nonhead, big_pcluster_1, inline_pcluster, interlaced_pcluster,
  fragment_pcluster,
}
use erofs_utils.Zmap.Compact.{load_cluster}
use erofs_utils.Zmap.Extent.{
  PagedMap, compression_max, cluster_pos, start_recorder, paged, with_plen, find_format, note_tail,
  set_extent, target_ofs, note_packoff, mapped_encoded, extent_lookback, get_extent_compressedlen,
  look_back, find_head, find_data, find_length, finish_map, do_map_blocks,
}
use erofs_utils.Zmap.Head.{is_head-lt}

-- The bits of z_advise that a file has none of: big pclusters, data behind the indexes and fragments.
pub record IsSimple (vi : Inode) : Type 0 where
  pub small_pclusters : big_pcluster_1 vi ≡ false
  pub not_inline : inline_pcluster vi ≡ false
  pub no_fragment : fragment_pcluster vi ≡ false

abbrev with_pa : MapRecorder → ℕ → MapRecorder
with_pa m pa = record m { map = record m.map { m_pa = pa } }

find_format-fits :
    (vi : Inode) (m : MapRecorder)
    → (m.headtype ≡ plain → m.map.m_llen ≤ m.map.m_plen)
    → (format : ℕ) × (find_format vi m
        ≡ (none, record m { map = record m.map { m_algorithmformat = format } }))
unfolding find_format
find_format-fits vi m f = elim (Bool-cases (m.headtype == plain)) [
  | inl t ↦ (
    if interlaced_pcluster vi then compression_max + 1 else compression_max,
    rw (find_format, t, le→ltb m.map.m_plen m.map.m_llen (f (==→eq _ _ t))) refl,
  )
  | inr n ↦ (vi.z_algorithmtype.0, rw (find_format, n) refl)
]

module _ (sbi : SbInfo) (devices : Devices) (vi : Inode) (z : IsSimple vi) where
  get_extent_compressedlen-one :
      (m : MapRecorder)
      → get_extent_compressedlen sbi devices vi m
        ≡ (none, with_plen m (2 ^ vi.z_logical_clusterbits))
  unfolding get_extent_compressedlen
  get_extent_compressedlen-one m = elim (Bool-cases (m.headtype == plain)) [
    | inl t ↦ rw (get_extent_compressedlen, t) refl
    | inr n ↦ rw (get_extent_compressedlen, n, z.small_pclusters) refl
  ]

  find_data-pos :
      (m : MapRecorder)
      → find_data sbi devices vi m
        ≡ (none, with_plen (with_pa m (pos sbi m.pblk)) (2 ^ vi.z_logical_clusterbits))
  unfolding find_data
  find_data-pos m =
      rw (find_data, z.not_inline, z.no_fragment)
        (get_extent_compressedlen-one (with_pa m (pos sbi m.pblk)))

  finish_map-paged :
      (fuel : ℕ) (m n o : MapRecorder)
      → find_data sbi devices vi m ≡ (none, n)
      → find_format vi n ≡ (none, o)
      → finish_map sbi devices vi false fuel m ≡ some (none, vi, paged o)
  unfolding finish_map find_length
  finish_map-paged fuel m n o d f =
      let format : find_format vi (find_data sbi devices vi m).1 ≡ (none, o) =
        ap (λ (r : Option ℕ × MapRecorder). find_format vi r.1) d ∙ f in
      rw
        (
          finish_map,
          ap (λ (r : Option ℕ × MapRecorder). r.0) d,
          ap (λ (r : Option ℕ × MapRecorder). r.0) format,
        )
        (ap (λ (r : Option ℕ × MapRecorder). some (none, vi, paged r.1)) format)

  note_packoff-false : (m : MapRecorder) → note_packoff vi false m ≡ vi
  unfolding note_packoff
  note_packoff-false m = rw z.not_inline refl

  -- The end of the mapping, once the head and the end of the extent are known.
  pub finish_map-set_extent :
      (fuel : ℕ) (m : MapRecorder) (end : ℕ)
      → (m.headtype ≡ plain → sub64 end m.map.m_la ≤ 2 ^ vi.z_logical_clusterbits)
      → (s : PagedMap) × (finish_map sbi devices vi false fuel (set_extent m end)
          ≡ some (none, vi, s))
        × (s.map.m_la ≡ m.map.m_la)
        × (s.map.m_pa ≡ pos sbi m.pblk)
        × (s.map.m_plen ≡ 2 ^ vi.z_logical_clusterbits)
        × (s.map.m_llen ≡ sub64 end m.map.m_la)
  unfolding set_extent
  finish_map-set_extent fuel m end f =
      let n =
        with_plen (with_pa (set_extent m end) (pos sbi m.pblk)) (2 ^ vi.z_logical_clusterbits) in
      let (format, e) = find_format-fits vi n f in
      let d = find_data-pos (set_extent m end) in
      (
        paged (record n { map = record n.map { m_algorithmformat = format } }),
        finish_map-paged fuel (set_extent m end) n _ d e,
        refl,
        refl,
        refl,
        refl,
      )

  -- the offset lies in the cluster of the head, and not before it
  pub find_head-here :
      (m : MapRecorder) (endoff : ℕ)
      → m.type < 2
      → m.clusterofs ≤ endoff
      → find_head sbi devices vi m endoff
        ≡ some (
          none,
          record m {
            headtype = m.type;
            map = record m.map { m_la = cluster_pos vi m.lcn m.clusterofs };
          },
          shl64 (m.lcn + 1) vi.z_logical_clusterbits,
        )
  unfolding find_head
  find_head-here m endoff t l =
      let (is, not_body) = is_head-lt m.type t in
      rw (find_head, not_body, is, le→leb _ _ l, z.not_inline) refl

  -- the offset lies in a cluster that has no head
  pub find_head-body :
      (m n : MapRecorder) (endoff : ℕ)
      → (m.type == nonhead) ≡ true
      → extent_lookback sbi devices vi (m.lcn + 2) m m.delta.0 ≡ some (none, n)
      → find_head sbi devices vi m endoff
        ≡ some (none, n, shl64 (m.lcn + 1) vi.z_logical_clusterbits)
  unfolding find_head look_back
  find_head-body m n endoff t e = rw (find_head, t, look_back, e) refl

  -- the offset lies before the head of its cluster
  pub find_head-before :
      (m n : MapRecorder) (endoff : ℕ)
      → m.type < 2
      → endoff < m.clusterofs
      → 0 < m.lcn
      → extent_lookback sbi devices vi
          (m.lcn + 2)
          (record m {
            map = record m.map { m_flags = record m.map.m_flags { full_mapped = true } };
            delta = (1, m.delta.1);
          })
          1
        ≡ some (none, n)
      → find_head sbi devices vi m endoff ≡ some (none, n, cluster_pos vi m.lcn m.clusterofs)
  unfolding find_head look_back
  find_head-before m n endoff t l p e =
      let (is, not_body) = is_head-lt m.type t in
      let nonzero : (m.lcn == 0) ≡ false = ground (arith, p) in
      rw (find_head, not_body, is, lt→leb _ _ l, nonzero, look_back, e) refl

  -- A mapping whose steps all succeed.
  pub do_map_blocks-finish_map :
      (s s' : PagedMap) (fuel end : ℕ) (m n : MapRecorder)
      → load_cluster sbi devices vi
          (start_recorder s)
          (s.map.m_la / 2 ^ vi.z_logical_clusterbits)
          false
        ≡ (none, m)
      → find_head sbi devices vi
          (mapped_encoded m)
          (bit_and s.map.m_la (2 ^ vi.z_logical_clusterbits - 1))
        ≡ some (none, n, end)
      → finish_map sbi devices vi false fuel (set_extent n end) ≡ some (none, vi, s')
      → do_map_blocks sbi devices vi s false false fuel ≡ some (none, vi, s')
  unfolding do_map_blocks target_ofs note_tail
  do_map_blocks-finish_map s s' fuel end m n e f g =
      let bits = vi.z_logical_clusterbits in
      let r = load_cluster sbi devices vi (start_recorder s) (s.map.m_la / 2 ^ bits) false in
      let endoff = bit_and s.map.m_la (2 ^ bits - 1) in
      let kept = note_packoff-false r.1 in
      let found : find_head sbi devices (note_packoff vi false r.1) (mapped_encoded r.1) endoff
          ≡ some (none, n, end) =
        ap (λ (w : Inode). find_head sbi devices w (mapped_encoded r.1) endoff) kept
        ∙ ap (λ (x : Option ℕ × MapRecorder). find_head sbi devices vi (mapped_encoded x.1) endoff)
            e
        ∙ f in
      rw (do_map_blocks, ap (λ (x : Option ℕ × MapRecorder). x.0) e, found)
        (ap (λ (w : Inode). finish_map sbi devices w false fuel (set_extent n end)) kept ∙ g)
