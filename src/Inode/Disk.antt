-- ===== src/Inode/Disk.antt =====
-- On-disk inodes: lib/namei.c reads them (erofs_read_inode_from_disk), lib/inode.c writes them
-- (erofs_iflush). `makedev`, `major` and `minor` are the C library's, so they are parameters.
pub mod Flush
pub mod Reread
use erofs_utils.Base.{
  ℕ, zero, suc, ◌+◌, ◌-◌, ◌*◌, ◌/◌, ◌%◌, ◌^◌, bit_and, bit_or, Bool, true, false, not, ◌&&◌, ◌||◌,
  Option, none, some, List, [], ◌∷◌, ◌++◌, ltb, leb, ◌==◌, if◌then◌else◌, replicate,
}
use erofs_utils.Base.Memory.{Buf, le, le_bytes}
use erofs_utils.Base.Words.{add64, sub32, sub64}
use erofs_utils.Base.Errno.{Result, done, fail, eio, eopnotsupp, efscorrupted}
use erofs_utils.Geometry.{SbInfo}
use erofs_utils.Device.{Devices, dev_read, blit}
use erofs_utils.Inode.{
  Inode, chunkformat, set_chunkformat, set_chunkbits, compressed_full, chunk_based, datalayout_max,
  is_data_compressed, iloc,
}

-- S_IFMT and the file types
abbrev pub file_type : ℕ → ℕ
file_type mode = bit_and mode 0xf000

abbrev pub s_ifreg : ℕ
s_ifreg = 0x8000

abbrev pub s_ifdir : ℕ
s_ifdir = 0x4000

abbrev pub s_iflnk : ℕ
s_iflnk = 0xa000

abbrev pub s_ifchr : ℕ
s_ifchr = 0x2000

abbrev pub s_ifblk : ℕ
s_ifblk = 0x6000

abbrev pub s_ififo : ℕ
s_ififo = 0x1000

abbrev pub s_ifsock : ℕ
s_ifsock = 0xc000

-- erofs_bitrange, for i_format
unfoldable pub bitrange : ℕ → ℕ → ℕ → ℕ
bitrange value bit bits = bit_and (value / 2 ^ bit) (2 ^ bits - 1)

unfoldable pub xattr_ibody_size : ℕ → ℕ
xattr_ibody_size icount = if icount == 0 then 0 else 12 + 4 * (icount - 1)

unfoldable pub new_decode_dev : (ℕ → ℕ → ℕ) → ℕ → ℕ
new_decode_dev makedev dev =
    makedev (bit_and dev 0xfff00 / 2 ^ 8)
      (bit_or (bit_and dev 0xff) (bit_and (dev / 2 ^ 12) 0xfff00))

unfoldable pub new_encode_dev : ℕ → ℕ → ℕ
new_encode_dev major minor =
    bit_or (bit_or (bit_and minor 0xff) (major * 2 ^ 8 % 2 ^ 32))
      (bit_and minor (2 ^ 32 - 1 - 0xff) * 2 ^ 12 % 2 ^ 32)

-- The fields of the two on-disk forms that the reader takes over.
pub record Fields : Type 0 where
  pub isize : ℕ
  pub xattr_icount : ℕ
  pub mode : ℕ
  pub size : ℕ
  pub i_u : ℕ
  pub ino : ℕ
  pub uid : ℕ
  pub gid : ℕ
  pub mtime : ℕ
  pub mtime_nsec : ℕ
  pub nlink : ℕ

-- `struct erofs_inode_compact`; the times come from the superblock
unfoldable pub compact_fields : SbInfo → Buf → Fields
compact_fields sbi b = record {
  isize = 32;
  xattr_icount = le 2 b 2;
  mode = le 2 b 4;
  size = le 4 b 8;
  i_u = le 4 b 16;
  ino = le 4 b 20;
  uid = le 2 b 24;
  gid = le 2 b 26;
  mtime = sbi.build_time;
  mtime_nsec = sbi.build_time_nsec;
  nlink = le 2 b 6;
}

-- `struct erofs_inode_extended`
unfoldable pub extended_fields : Buf → Fields
extended_fields b = record {
  isize = 64;
  xattr_icount = le 2 b 2;
  mode = le 2 b 4;
  size = le 8 b 8;
  i_u = le 4 b 16;
  ino = le 4 b 20;
  uid = le 4 b 24;
  gid = le 4 b 28;
  mtime = le 8 b 32;
  mtime_nsec = le 4 b 40;
  nlink = le 4 b 44;
}

-- The switch on the file type: what the union `u` becomes, `none` for a bogus mode.
unfoldable pub union_of : (ℕ → ℕ → ℕ) → ℕ → ℕ → Option ℕ
union_of makedev mode i_u =
    let t = file_type mode in
    if t == s_ifreg || (t == s_ifdir || t == s_iflnk)
    then some i_u
    else if t == s_ifchr || t == s_ifblk
    then some (new_decode_dev makedev i_u % 2 ^ 32)
    else if t == s_ififo || t == s_ifsock
    then some 0
    else none

unfoldable pub z_fill_inode : SbInfo → Inode → Inode
z_fill_inode sbi vi =
    if not sbi.has_big_pcluster
      && not sbi.has_ztailpacking
      && not sbi.has_fragments
      && vi.datalayout == compressed_full
    then record vi {
      z_advise = 0;
      z_algorithmtype = (0, 0);
      z_logical_clusterbits = sbi.blkszbits;
      z_inited = true;
    }
    else vi

-- what follows the switch on the version; `vi` is filled in from the fields
unfoldable pub finish_inode : SbInfo → Inode → Result Inode
finish_inode sbi vi =
    if vi.datalayout == chunk_based
    then if not (bit_and (chunkformat vi) (2 ^ 32 - 1 - 0x3f) == 0)
      then fail eopnotsupp
      else done
          (record vi { u = set_chunkbits vi.u (sbi.blkszbits + bit_and (chunkformat vi) 0x1f) })
    else if is_data_compressed vi.datalayout
    then done (z_fill_inode sbi vi)
    else done vi

unfoldable pub fill_inode : Inode → ℕ → Fields → ℕ → Inode
fill_inode vi datalayout f u = record vi {
  datalayout = datalayout;
  inode_isize = f.isize;
  xattr_isize = xattr_ibody_size f.xattr_icount;
  i_mode = f.mode;
  i_ino = f.ino;
  u = if datalayout == chunk_based then set_chunkformat u (f.i_u % 2 ^ 16) else u;
  i_uid = f.uid;
  i_gid = f.gid;
  i_nlink = f.nlink;
  i_mtime = f.mtime;
  i_mtime_nsec = f.mtime_nsec;
  i_size = f.size;
  z_inited = false;
}

unfoldable pub decode_inode : (ℕ → ℕ → ℕ) → SbInfo → Inode → ℕ → Fields → Result Inode
decode_inode makedev sbi vi datalayout f = elim (union_of makedev f.mode f.i_u) [
  | none ↦ fail efscorrupted
  | some u ↦ finish_inode sbi (fill_inode vi datalayout f u)
]

-- Only `vi.nid` is read of the inode that is handed in.
unfoldable pub read_inode_from_disk : (ℕ → ℕ → ℕ) → SbInfo → Devices → Inode → Result Inode
read_inode_from_disk makedev sbi devices vi = elim (dev_read sbi devices 0 (iloc sbi vi) 32) [
  | fail e ↦ fail eio
  | done b ↦
      let ifmt = le 2 b 0 in
      let datalayout = bitrange ifmt 1 3 in
      if leb datalayout_max datalayout
      then fail eopnotsupp
      else if bitrange ifmt 0 1 == 1
      then elim (dev_read sbi devices 0 (add64 (iloc sbi vi) 32) 32) [
        | fail e ↦ fail eio
        | done rest ↦ decode_inode makedev sbi vi datalayout (extended_fields (blit b 32 rest 32))
      ]
      else decode_inode makedev sbi vi datalayout (compact_fields sbi b)
]

-- EROFS_INODE_XATTR_ICOUNT, cut to 16 bits: only the low 16 bits are tested for zero
unfoldable pub xattr_icount_of : ℕ → ℕ
xattr_icount_of xattr_isize =
    (if xattr_isize % 2 ^ 16 == 0 then 0 else sub64 xattr_isize 12 / 4 + 1) % 2 ^ 16

-- the union i_u as erofs_iflush writes it: device numbers, chunk format or a block address
unfoldable pub union_bytes : Inode → List ℕ
union_bytes inode =
    let t = file_type inode.i_mode in
    if t == s_ifchr || (t == s_ifblk || (t == s_ififo || t == s_ifsock))
    then le_bytes 4 inode.u
    else if is_data_compressed inode.datalayout
    then le_bytes 4 inode.u
    else if inode.datalayout == chunk_based
    then le_bytes 2 (chunkformat inode) ++ (0 ∷ 0 ∷ [])
    else le_bytes 4 inode.u

unfoldable pub compact_bytes : Inode → List ℕ
compact_bytes inode =
    le_bytes 2 (inode.datalayout * 2)
    ++ (le_bytes 2 (xattr_icount_of inode.xattr_isize)
        ++ (le_bytes 2 inode.i_mode
            ++ (le_bytes 2 inode.i_nlink
                ++ (le_bytes 4 inode.i_size
                    ++ (le_bytes 4 0
                        ++ (union_bytes inode
                            ++ (le_bytes 4 inode.i_ino
                                ++ (le_bytes 2 inode.i_uid
                                    ++ (le_bytes 2 inode.i_gid ++ le_bytes 4 0)))))))))

unfoldable pub extended_bytes : Inode → List ℕ
extended_bytes inode =
    le_bytes 2 (1 + inode.datalayout * 2)
    ++ (le_bytes 2 (xattr_icount_of inode.xattr_isize)
        ++ (le_bytes 2 inode.i_mode
            ++ (le_bytes 2 0
                ++ (le_bytes 8 inode.i_size
                    ++ (union_bytes inode
                        ++ (le_bytes 4 inode.i_ino
                            ++ (le_bytes 4 inode.i_uid
                                ++ (le_bytes 4 inode.i_gid
                                    ++ (le_bytes 8 inode.i_mtime
                                        ++ (le_bytes 4 inode.i_mtime_nsec
                                            ++ (le_bytes 4 inode.i_nlink ++ le_bytes 16 0)))))))))))

-- The inode's own bytes that erofs_iflush writes at its place; any other size is a bug of the caller.
unfoldable pub iflush_bytes : Inode → Option (List ℕ)
iflush_bytes inode =
    if inode.inode_isize == 32
    then some (compact_bytes inode)
    else if inode.inode_isize == 64
    then some (extended_bytes inode)
    else none
