-- ===== src/Zmap/Iter.antt =====
-- lib/zmap.c: the header of a compressed file's indexes, and the mapping as its callers see it.
use erofs_utils.Base.{
  ℕ, ◌+◌, ◌-◌, ◌/◌, ◌^◌, bit_and, Bool, true, false, not, ◌&&◌, ◌||◌, Option, none, some, ltb, leb,
  ◌==◌, if◌then◌else◌,
}
use erofs_utils.Base.Memory.{Buf, le}
use erofs_utils.Base.Words.{add64, sub64}
use erofs_utils.Base.Errno.{done, fail, eio, eopnotsupp, efscorrupted}
use erofs_utils.Geometry.{SbInfo, blksiz, blkoff}
use erofs_utils.Device.{Devices, dev_read}
use erofs_utils.Inode.{Inode, iloc, compressed_compact}
use erofs_utils.Data.{no_flags}
use erofs_utils.Zmap.{
  has_bit, big_pcluster_1, big_pcluster_2, inline_pcluster, fragment_pcluster, round_up64,
}
use erofs_utils.Zmap.Extent.{PagedMap, compression_max, do_map_blocks}

-- an empty map, whose cached page is of no block
abbrev pub fresh_map : Buf → PagedMap
fresh_map stale = record {
  map = record {
    m_pa = 0;
    m_la = 0;
    m_plen = 0;
    m_llen = 0;
    m_deviceid = 0;
    m_algorithmformat = 0;
    m_flags = no_flags;
  };
  index = 2 ^ 32 - 1;
  mpage = stale;
}

module _ (sbi : SbInfo) (devices : Devices) where
  -- The header of a file that is not all in the packed inode, up to the two searches for the tail.
  unfoldable pub read_mapheader : Inode → Buf → Option ℕ × Inode
  read_mapheader vi h =
      let v = record vi { z_advise = le 2 h 4; z_algorithmtype = (bit_and (h 6) 15, h 6 / 16) } in
      let w = record v { z_logical_clusterbits = sbi.blkszbits + bit_and (h 7) 7 } in
      let unequal = if big_pcluster_1 v then not (big_pcluster_2 v) else big_pcluster_2 v in
      if leb compression_max (bit_and (h 6) 15)
      then (some eopnotsupp, v)
      else if v.datalayout == compressed_compact && unequal
      then (some efscorrupted, w)
      else (none, w)

  -- the size of the compressed data behind the indexes
  unfoldable pub find_inline : Inode → Buf → Buf → Option (Option ℕ × Inode)
  find_inline vi h stale =
      if not (inline_pcluster vi)
      then some (none, vi)
      else elim (do_map_blocks sbi devices (record vi { z_idata_size = le 2 h 2 }) (fresh_map stale)
          false true 0) [
            | none ↦ none
            | some (e, w, s) ↦
                if s.map.m_plen == 0
                  || ltb (blksiz sbi) (add64 (blkoff sbi s.map.m_pa) s.map.m_plen)
                then some (some efscorrupted, w)
                else some (e, w)
          ]

  -- the place in the packed inode
  unfoldable pub find_fragment : Inode → Buf → Buf → Option (Option ℕ × Inode)
  find_fragment vi h stale =
      if not (fragment_pcluster vi)
      then some (none, vi)
      else elim (do_map_blocks sbi devices (record vi { fragmentoff = le 4 h 0 }) (fresh_map stale)
          false true 0) [ none ↦ none | some (e, w, s) ↦ some (e, w) ]

  abbrev inited : Inode → Inode
  inited vi = record vi { z_inited = true }

  unfoldable pub fill_inode_lazy : Inode → Buf → Option (Option ℕ × Inode)
  fill_inode_lazy vi stale =
      let pos = round_up64 (add64 (add64 (iloc sbi vi) vi.inode_isize) vi.xattr_isize) 8 in
      if vi.z_inited then some (none, vi) else elim (dev_read sbi devices 0 pos 8) [
        | fail e ↦ some (some eio, vi)
        | done h ↦
            if has_bit (h 7) 7
            then some (
              none,
              inited (record vi {
                z_advise = 32;
                fragmentoff = le 8 h 0 - 2 ^ 63;
                z_tailextent_headlcn = 0;
              }),
            )
            else let r = read_mapheader vi h in
              elim r.0 [
                | some e ↦ some (some e, r.1)
                | none ↦ elim (find_inline r.1 h stale) [
                  | none ↦ none
                  | some (some e, w) ↦ some (some e, w)
                  | some (none, w) ↦ elim (find_fragment w h stale) [
                    | none ↦ none
                    | some (some e, x) ↦ some (some e, x)
                    | some (none, x) ↦ some (none, inited x)
                  ]
                ]
              ]
      ]

  -- z_erofs_map_blocks_iter; `stale` is what the pages on the stack hold before they are read
  unfoldable pub map_blocks_iter :
      Inode → PagedMap → Bool → Bool → Buf → ℕ → Option (Option ℕ × Inode × PagedMap)
  map_blocks_iter vi s fiemap findtail stale fuel =
      if leb vi.i_size s.map.m_la
      then some (
        none,
        vi,
        record s {
          map = record s.map {
            m_llen = sub64 (add64 s.map.m_la 1) vi.i_size;
            m_la = vi.i_size;
            m_flags = no_flags;
          };
        },
      )
      else elim (fill_inode_lazy vi stale) [
        | none ↦ none
        | some (some e, w) ↦ some (some e, w, s)
        | some (none, w) ↦
            if fragment_pcluster w && w.z_tailextent_headlcn == 0
            then some (
              none,
              w,
              record s {
                map = record s.map {
                  m_la = 0;
                  m_llen = w.i_size;
                  m_flags = record no_flags { mapped = true; full_mapped = true; fragment = true };
                };
              },
            )
            else do_map_blocks sbi devices w s fiemap findtail fuel
      ]
