-- ===== src/Zmap/Extent.antt =====
-- lib/zmap.c: the extent of a compressed file that an offset lies in. A loop runs on fuel, and gives none
-- where that is used up. z_idataoff is the low half of fragmentoff.
use erofs_utils.Base.{
  ℕ, zero, suc, ◌+◌, ◌-◌, ◌*◌, ◌/◌, ◌%◌, ◌^◌, bit_and, bit_or, Bool, true, false, not, ◌&&◌, ◌||◌,
  Option, none, some, ltb, leb, ◌==◌, if◌then◌else◌,
}
use erofs_utils.Base.Memory.{Buf}
use erofs_utils.Base.Words.{add64, sub64, shl64}
use erofs_utils.Base.Errno.{eopnotsupp, efscorrupted}
use erofs_utils.Geometry.{SbInfo, pos}
use erofs_utils.Device.{Devices}
use erofs_utils.Inode.{Inode, compressed_full, z_idataoff, set_z_idataoff}
use erofs_utils.Data.{MapBlocks, no_flags}
use erofs_utils.Zmap.{
  MapRecorder, plain, head1, nonhead, big_pcluster_1, inline_pcluster, interlaced_pcluster,
  fragment_pcluster,
}
use erofs_utils.Zmap.Compact.{load_cluster}

-- `struct erofs_map_blocks` with the page of indexes that it caches
pub record PagedMap : Type 0 where
  pub map : MapBlocks
  pub index : ℕ
  pub mpage : Buf

-- Z_EROFS_COMPRESSION_MAX, Z_EROFS_COMPRESSION_SHIFTED, Z_EROFS_COMPRESSION_INTERLACED
abbrev pub compression_max : ℕ
compression_max = 4

abbrev pub is_head : ℕ → Bool
is_head type = type == plain || type == head1

-- (lcn << lclusterbits) | clusterofs
unfoldable pub cluster_pos : Inode → ℕ → ℕ → ℕ
cluster_pos vi lcn clusterofs = bit_or (shl64 lcn vi.z_logical_clusterbits) clusterofs

-- The recorder that z_erofs_do_map_blocks starts with.
unfoldable pub start_recorder : PagedMap → MapRecorder
start_recorder s = record {
  map = s.map;
  index = s.index;
  mpage = s.mpage;
  lcn = 0;
  type = 0;
  headtype = 0;
  clusterofs = 0;
  delta = (0, 0);
  pblk = 0;
  compressedblks = 0;
  nextpackoff = 0;
  partialref = false;
}

abbrev pub paged : MapRecorder → PagedMap
paged m = record { map = m.map; index = m.index; mpage = m.mpage }

abbrev pub with_llen : MapRecorder → ℕ → MapRecorder
with_llen m llen = record m { map = record m.map { m_llen = llen } }

abbrev pub with_plen : MapRecorder → ℕ → MapRecorder
with_plen m plen = record m { map = record m.map { m_plen = plen } }

-- the format, from the type of the head
unfoldable pub find_format : Inode → MapRecorder → Option ℕ × MapRecorder
find_format vi m =
    let format =
      if m.headtype == plain
      then if interlaced_pcluster vi then compression_max + 1 else compression_max
      else vi.z_algorithmtype.0 in
    if m.headtype == plain && ltb m.map.m_plen m.map.m_llen
    then (some efscorrupted, m)
    else (none, record m { map = record m.map { m_algorithmformat = format } })

-- EROFS_GET_BLOCKS_FINDTAIL notes the head of the last extent.
unfoldable pub note_tail : Inode → Bool → MapRecorder → Inode
note_tail vi findtail m = if not findtail then vi else record vi {
  z_tailextent_headlcn = m.lcn;
  fragmentoff =
      if fragment_pcluster vi && vi.datalayout == compressed_full
      then bit_or vi.fragmentoff (shl64 m.pblk 32)
      else vi.fragmentoff;
}

-- the flag of a pcluster that is used in part, and the length up to `end`
unfoldable pub set_extent : MapRecorder → ℕ → MapRecorder
set_extent m end = record m {
  map = record m.map {
    m_flags = record m.map.m_flags { partial_ref = m.partialref || m.map.m_flags.partial_ref };
    m_llen = sub64 end m.map.m_la;
  };
}

-- the offset to look for: the one asked for, or the last
unfoldable pub target_ofs : Inode → PagedMap → Bool → ℕ
target_ofs vi s findtail = if findtail then sub64 vi.i_size 1 else s.map.m_la

-- EROFS_GET_BLOCKS_FINDTAIL notes where the indexes end.
unfoldable pub note_packoff : Inode → Bool → MapRecorder → Inode
note_packoff vi findtail m =
    if inline_pcluster vi && findtail
    then record vi { fragmentoff = set_z_idataoff vi.fragmentoff (m.nextpackoff % 2 ^ 32) }
    else vi

-- EROFS_MAP_MAPPED | EROFS_MAP_ENCODED
unfoldable pub mapped_encoded : MapRecorder → MapRecorder
mapped_encoded m = record m {
  map = record m.map { m_flags = record no_flags { mapped = true; encoded = true } };
}

module _ (sbi : SbInfo) (devices : Devices) where
  unfoldable pub extent_lookback : Inode → ℕ → MapRecorder → ℕ → Option (Option ℕ × MapRecorder)
  extent_lookback vi zero m distance = none
  extent_lookback vi (suc fuel) m distance =
      let lcn = m.lcn - distance in
      let r = load_cluster sbi devices vi m lcn false in
      let rest = extent_lookback vi fuel r.1 r.1.delta.0 in
      if ltb m.lcn distance then some (some efscorrupted, m) else elim r.0 [
        | some e ↦ some r
        | none ↦
            if r.1.type == nonhead
            then if r.1.delta.0 == 0 then some (some efscorrupted, r.1) else rest
            else if is_head r.1.type
            then some (
              none,
              record r.1 {
                headtype = r.1.type;
                map = record r.1.map { m_la = cluster_pos vi lcn r.1.clusterofs };
              },
            )
            else some (some eopnotsupp, r.1)
      ]

  -- the size of the compressed data, once the blocks are known
  unfoldable pub counted_plen : MapRecorder → MapRecorder
  counted_plen m = with_plen m (m.compressedblks * 2 ^ sbi.blkszbits % 2 ^ 32)

  unfoldable pub get_extent_compressedlen : Inode → MapRecorder → Option ℕ × MapRecorder
  get_extent_compressedlen vi m =
      let r = load_cluster sbi devices vi m (m.lcn + 1) false in
      if m.headtype == plain || not (big_pcluster_1 vi)
      then (none, with_plen m (2 ^ vi.z_logical_clusterbits))
      else if not (m.compressedblks == 0)
      then (none, counted_plen m)
      else elim r.0 [
        | some e ↦ r
        | none ↦
            if is_head r.1.type
            then (
              none,
              counted_plen
                  (record r.1 { compressedblks = 2 ^ (vi.z_logical_clusterbits - sbi.blkszbits) }),
            )
            else if r.1.type == nonhead && r.1.delta.0 == 1 && not (r.1.compressedblks == 0)
            then (none, counted_plen r.1)
            else (some efscorrupted, r.1)
      ]

  -- the search for the next head, from `lcn` on
  unfoldable pub decompressed_loop :
      Inode → ℕ → ℕ → MapRecorder → ℕ → Option (Option ℕ × MapRecorder)
  decompressed_loop vi headlcn zero m lcn = none
  decompressed_loop vi headlcn (suc fuel) m lcn =
      let bits = vi.z_logical_clusterbits in
      let r = load_cluster sbi devices vi m lcn true in
      let d1 = if r.1.type == nonhead then r.1.delta.1 else 1 in
      let n = record r.1 { delta = (r.1.delta.0, d1) } in
      let next = add64 lcn d1 in
      let stop = λ (l : ℕ). with_llen n (sub64 (add64 (shl64 l bits) n.clusterofs) n.map.m_la) in
      let rest = decompressed_loop vi headlcn fuel n next in
      if leb vi.i_size (shl64 lcn bits)
      then some (none, with_llen m (sub64 vi.i_size m.map.m_la))
      else elim r.0 [
        | some e ↦ some r
        | none ↦
            if r.1.type == nonhead
            then if d1 == 0 then some (none, stop next) else rest
            else if is_head r.1.type
            then if lcn == headlcn
              then rest
              else some
                  (none, with_llen r.1 (sub64 (add64 (shl64 lcn bits) r.1.clusterofs) r.1.map.m_la))
            else some (some eopnotsupp, r.1)
      ]

  unfoldable pub get_extent_decompressedlen :
      Inode → ℕ → MapRecorder → Option (Option ℕ × MapRecorder)
  get_extent_decompressedlen vi fuel m =
      decompressed_loop vi (m.map.m_la / 2 ^ vi.z_logical_clusterbits) fuel m m.lcn

  -- from a cluster that is no head, or before its head: at most `lcn + 2` rounds
  unfoldable pub look_back : Inode → MapRecorder → ℕ → Option (Option ℕ × MapRecorder × ℕ)
  look_back vi m end = elim (extent_lookback vi (m.lcn + 2) m m.delta.0) [
    | none ↦ none
    | some r ↦ some (r.0, r.1, end)
  ]

  -- The head of the extent, and the end of what the cluster has of it.
  unfoldable pub find_head : Inode → MapRecorder → ℕ → Option (Option ℕ × MapRecorder × ℕ)
  find_head vi m endoff =
      let end = shl64 (m.lcn + 1) vi.z_logical_clusterbits in
      let head = cluster_pos vi m.lcn m.clusterofs in
      let here = record m { headtype = m.type; map = record m.map { m_la = head } } in
      let full = record m {
        map = record m.map { m_flags = record m.map.m_flags { full_mapped = true } };
        delta = (1, m.delta.1);
      } in
      if m.type == nonhead
      then look_back vi m end
      else if not (is_head m.type)
      then some (some eopnotsupp, m, end)
      else if leb m.clusterofs endoff
      then some (none, here, if inline_pcluster vi && ltb vi.i_size end then vi.i_size else end)
      else if m.lcn == 0
      then some (some efscorrupted, m, end)
      else look_back vi full head

  -- Where the compressed data is: behind the indexes, in the packed inode, or in blocks.
  unfoldable pub find_data : Inode → MapRecorder → Option ℕ × MapRecorder
  find_data vi m =
      let flags = m.map.m_flags in
      let tail = m.lcn == vi.z_tailextent_headlcn in
      if inline_pcluster vi && tail
      then (
        none,
        record m {
          map = record m.map {
            m_flags = record flags { meta = true };
            m_pa = z_idataoff vi;
            m_plen = vi.z_idata_size;
          };
        },
      )
      else if fragment_pcluster vi && tail
      then (none, record m { map = record m.map { m_flags = record flags { fragment = true } } })
      else get_extent_compressedlen vi (record m { map = record m.map { m_pa = pos sbi m.pblk } })

  -- EROFS_GET_BLOCKS_FIEMAP asks for the whole length of the extent.
  unfoldable pub find_length : Inode → Bool → ℕ → MapRecorder → Option (Option ℕ × MapRecorder)
  find_length vi fiemap fuel m =
      if not fiemap then some (none, m) else elim (get_extent_decompressedlen vi fuel m) [
        | none ↦ none
        | some r ↦ elim r.0 [
          | some e ↦ some r
          | none ↦ some (
            none,
            record r.1 {
              map = record r.1.map { m_flags = record r.1.map.m_flags { full_mapped = true } };
            },
          )
        ]
      ]

  -- the part of z_erofs_do_map_blocks once the head is found
  unfoldable pub finish_map : Inode → Bool → ℕ → MapRecorder → Option (Option ℕ × Inode × PagedMap)
  finish_map vi fiemap fuel m =
      let d = find_data vi m in
      let f = find_format vi d.1 in
      elim d.0 [
        | some e ↦ some (some e, vi, paged d.1)
        | none ↦ elim f.0 [
          | some e ↦ some (some e, vi, paged f.1)
          | none ↦ elim (find_length vi fiemap fuel f.1) [
            | none ↦ none
            | some l ↦ some (l.0, vi, paged l.1)
          ]
        ]
      ]

  -- z_erofs_do_map_blocks, with the two flags and the fuel of the search for the next head
  unfoldable pub do_map_blocks :
      Inode → PagedMap → Bool → Bool → ℕ → Option (Option ℕ × Inode × PagedMap)
  do_map_blocks vi s fiemap findtail fuel =
      let ofs = target_ofs vi s findtail in
      let lcn = ofs / 2 ^ vi.z_logical_clusterbits in
      let endoff = bit_and ofs (2 ^ vi.z_logical_clusterbits - 1) in
      let r = load_cluster sbi devices vi (start_recorder s) lcn false in
      let w = note_packoff vi findtail r.1 in
      elim r.0 [
        | some e ↦ some (some e, vi, paged r.1)
        | none ↦ elim (find_head w (mapped_encoded r.1) endoff) [
          | none ↦ none
          | some (some e, n, end) ↦ some (some e, w, paged n)
          | some (none, n, end) ↦ finish_map (note_tail w findtail n) fiemap fuel (set_extent n end)
        ]
      ]
