-- ===== src/Data.antt =====
-- lib/data.c: from a file offset to a place on a device, for files that are not compressed, and the
-- read loop over it.
pub mod Loop
pub mod Extent
pub mod Flat
use erofs_utils.Base.{
  ℕ, zero, suc, ◌+◌, ◌-◌, ◌*◌, ◌/◌, ◌%◌, ◌^◌, ◌≤◌, ◌<◌, min, bit_and, Bool, true, false, not, ◌&&◌,
  ◌||◌, Option, none, some, List, [], ◌∷◌, ltb, leb, ◌==◌, if◌then◌else◌, take,
}
use erofs_utils.Base.Memory.{Buf, memset, le}
use erofs_utils.Base.Words.{add32, sub32, add64, sub64, shl64}
use erofs_utils.Base.Errno.{
  Result, done, fail, Ret, ok, found, err, eio, enodev, einval, efscorrupted,
}
use erofs_utils.Geometry.{SbInfo, DeviceInfo, blksiz, blknr, blkoff, pos, roundup, blk_round_up}
use erofs_utils.Device.{Devices, dev_read, blk_read, blit}
use erofs_utils.Inode.{
  Inode, i_blkaddr, chunkformat, chunkbits, flat_plain, flat_inline, chunk_based,
  is_data_compressed, iloc,
}

-- `m_flags`, a bit each
pub record MapFlags : Type 0 where
  pub mapped : Bool
  pub meta : Bool
  pub encoded : Bool
  pub full_mapped : Bool
  pub fragment : Bool
  pub partial_ref : Bool

abbrev pub no_flags : MapFlags
no_flags = record {
  mapped = false;
  meta = false;
  encoded = false;
  full_mapped = false;
  fragment = false;
  partial_ref = false;
}

-- `struct erofs_map_blocks`, less the page that the compressed reader caches
pub record MapBlocks : Type 0 where
  pub m_pa : ℕ
  pub m_la : ℕ
  pub m_plen : ℕ
  pub m_llen : ℕ
  pub m_deviceid : ℕ
  pub m_algorithmformat : ℕ
  pub m_flags : MapFlags

abbrev pub null_addr : ℕ
null_addr = 2 ^ 32 - 1

-- the end of a flat file's whole blocks
unfoldable pub last_block : SbInfo → Inode → ℕ
last_block sbi vi =
    sub32 (blk_round_up sbi vi.i_size % 2 ^ 32) (if vi.datalayout == flat_inline then 1 else 0)

-- where the inline tail of a flat file starts
unfoldable pub inode_end : SbInfo → Inode → ℕ
inode_end sbi vi = add64 (add64 (iloc sbi vi) vi.inode_isize) vi.xattr_isize

-- The flags of a mapping on the image: EROFS_MAP_MAPPED, and EROFS_MAP_META for inline data.
abbrev pub mapped_flags : Bool → MapFlags
mapped_flags inline = record no_flags { mapped = true; meta = inline }

unfoldable pub map_blocks_flatmode : SbInfo → Inode → MapBlocks → Ret × MapBlocks
map_blocks_flatmode sbi vi map =
    let lastblk = last_block sbi vi in
    let offset = map.m_la in
    let inline_pa = add64 (inode_end sbi vi) (blkoff sbi map.m_la) in
    let inline_plen = sub64 vi.i_size offset in
    let map' = record map { m_flags = mapped_flags false } in
    if ltb offset (pos sbi lastblk)
    then (
      ok,
      record map' {
        m_pa = add64 (pos sbi (i_blkaddr vi)) map.m_la;
        m_plen = sub64 (pos sbi lastblk) offset;
        m_llen = sub64 (pos sbi lastblk) offset;
      },
    )
    else if vi.datalayout == flat_inline
    then if ltb (blksiz sbi) (add64 (blkoff sbi inline_pa) inline_plen)
      then (err efscorrupted, record map' { m_pa = inline_pa; m_plen = inline_plen })
      else (
        ok,
        record map' {
          m_pa = inline_pa;
          m_plen = inline_plen;
          m_llen = inline_plen;
          m_flags = mapped_flags true;
        },
      )
    else (err eio, map')

-- EROFS_CHUNK_FORMAT_INDEXES
unfoldable pub has_indexes : Inode → Bool
has_indexes vi = not (bit_and (chunkformat vi) 0x20 == 0)

-- the size of an entry of the chunk table, and where the entry of a chunk lies
unfoldable pub chunk_unit : Inode → ℕ
chunk_unit vi = if has_indexes vi then 8 else 4

unfoldable pub chunk_pos : SbInfo → Inode → ℕ → ℕ
chunk_pos sbi vi chunknr =
    add64 (roundup (inode_end sbi vi) (chunk_unit vi)) (chunk_unit vi * chunknr % 2 ^ 64)

-- What the entry of a chunk says: a hole, or a place on a device.
unfoldable pub chunk_target : SbInfo → Inode → Buf → ℕ → MapBlocks → MapBlocks
chunk_target sbi vi b off map =
    let index_addr = le 4 b (off + 4) in
    let map_addr = le 4 b off in
    if not (has_indexes vi)
    then if map_addr == null_addr
      then record map { m_flags = no_flags }
      else record map { m_pa = pos sbi map_addr; m_flags = mapped_flags false }
    else if index_addr == null_addr
    then record map { m_flags = no_flags }
    else record map {
      m_deviceid = bit_and (le 2 b (off + 2)) sbi.device_id_mask;
      m_pa = pos sbi index_addr;
      m_flags = mapped_flags false;
    }

unfoldable pub map_blocks_chunk : SbInfo → Devices → Inode → MapBlocks → Ret × MapBlocks
map_blocks_chunk sbi devices vi map =
    let chunknr = map.m_la / 2 ^ chunkbits vi in
    let off = chunk_pos sbi vi chunknr in
    let la = shl64 chunknr (chunkbits vi) in
    let plen = min (2 ^ chunkbits vi) (roundup (sub64 vi.i_size la) (blksiz sbi)) in
    elim (blk_read sbi devices 0 (blknr sbi off) 1) [
      | fail e ↦ (err eio, map)
      | done b ↦ (
        ok,
        record (chunk_target sbi vi b (blkoff sbi off) (record map { m_la = la; m_plen = plen })) {
          m_llen = plen;
        },
      )
    ]

unfoldable pub map_blocks : SbInfo → Devices → Inode → MapBlocks → Ret × MapBlocks
map_blocks sbi devices vi map =
    let map' = record map { m_deviceid = 0 } in
    if leb vi.i_size map.m_la
    then (ok, record map' { m_flags = no_flags; m_plen = 0; m_llen = 0 })
    else if not (vi.datalayout == chunk_based)
    then map_blocks_flatmode sbi vi map'
    else map_blocks_chunk sbi devices vi map'

-- `struct erofs_map_dev`
pub record MapDev : Type 0 where
  pub m_pa : ℕ
  pub m_deviceid : ℕ

-- the loop over the extra devices
unfoldable pub map_dev_loop : SbInfo → List DeviceInfo → MapDev → MapDev
map_dev_loop sbi [] map = map
map_dev_loop sbi (dif ∷ difs) map =
    let rest = map_dev_loop sbi difs map in
    let startoff = pos sbi dif.mapped_blkaddr in
    let length = pos sbi dif.blocks in
    if dif.mapped_blkaddr == 0
    then rest
    else if leb startoff map.m_pa && ltb map.m_pa (add64 startoff length)
    then record map { m_pa = sub64 map.m_pa startoff }
    else rest

unfoldable pub map_dev : SbInfo → MapDev → Ret × MapDev
map_dev sbi map =
    if not (map.m_deviceid == 0)
    then if ltb sbi.extra_devices map.m_deviceid then (err enodev, map) else (ok, map)
    else (ok, map_dev_loop sbi (take sbi.extra_devices sbi.devs) map)

-- The bytes from `offset` on of what a mapping points to.
unfoldable pub read_one_data : SbInfo → Devices → MapBlocks → ℕ → ℕ → Result Buf
read_one_data sbi devices map offset len =
    let (ret, mdev) = map_dev sbi (record { m_pa = map.m_pa; m_deviceid = map.m_deviceid }) in
    elim ret [
      | ok ↦ elim (dev_read sbi devices mdev.m_deviceid (add64 mdev.m_pa offset) len) [
        | fail e ↦ fail eio
        | done b ↦ done b
      ]
      | found n ↦ fail n
      | err e ↦ fail e
    ]

module _ (sbi : SbInfo) (devices : Devices) (vi : Inode) (size offset : ℕ) where
  abbrev pub end : ℕ
  end = add64 offset size

  -- One round of the loop, at `ptr`: the new buffer, or an error. The round ends at `round_end`.
  unfoldable pub round_end : MapBlocks → ℕ
  round_end m =
      if not m.m_flags.mapped && m.m_llen == 0 then end else min end (add64 m.m_la m.m_llen)

  unfoldable pub read_round : Buf → ℕ → MapBlocks → Result Buf
  read_round b ptr m =
      let estart = ptr - offset in
      let moff = if ltb m.m_la ptr then ptr - m.m_la else 0 in
      let la = if ltb m.m_la ptr then ptr else m.m_la in
      let len = sub64 (round_end m) la in
      if not m.m_flags.mapped
      then done (memset b estart 0 (sub64 (round_end m) ptr))
      else elim (read_one_data sbi devices m moff len) [
        | fail e ↦ fail e
        | done f ↦ done (blit b estart f len)
      ]

  -- `none`: the fuel ran out.
  unfoldable pub read_raw_loop : ℕ → Buf → ℕ → MapBlocks → Option (Result Buf)
  read_raw_loop zero b ptr map = none
  read_raw_loop (suc fuel) b ptr map =
      let (ret, m) = map_blocks sbi devices vi (record map { m_la = ptr }) in
      elim (ltb ptr end) [
        | false ↦ some (done b)
        | true ↦ elim ret [
          | found n ↦ some (fail n)
          | err e ↦ some (fail e)
          | ok ↦ elim (read_round b ptr m) [
            | fail e ↦ some (fail e)
            | done b' ↦ read_raw_loop fuel b' (round_end m) m
          ]
        ]
      ]

abbrev pub fresh_map : MapBlocks
fresh_map = record {
  m_pa = 0;
  m_la = 0;
  m_plen = 0;
  m_llen = 0;
  m_deviceid = 0;
  m_algorithmformat = 0;
  m_flags = no_flags;
}

-- Each round takes a byte at least, so `size + 1` rounds are enough.
unfoldable pub read_raw_data : SbInfo → Devices → Inode → Buf → ℕ → ℕ → Option (Result Buf)
read_raw_data sbi devices vi b size offset =
    read_raw_loop sbi devices vi size offset (size + 1) b offset fresh_map

-- erofs_pread; z_erofs_read_data is an argument
unfoldable pub pread :
    (Inode → Buf → ℕ → ℕ → Option (Result Buf))
    → SbInfo
    → Devices
    → Inode
    → Buf
    → ℕ
    → ℕ
    → Option (Result Buf)
pread z_read_data sbi devices vi b count offset =
    if vi.datalayout == flat_plain || (vi.datalayout == flat_inline || vi.datalayout == chunk_based)
    then read_raw_data sbi devices vi b count offset
    else if is_data_compressed vi.datalayout
    then z_read_data vi b count offset
    else some (fail einval)
