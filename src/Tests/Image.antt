-- ===== src/Tests/Image.antt =====
-- A flat inode of 600 bytes with an inline tail on an image of 512-byte blocks.
use erofs_utils.Inode.Disk.{compact_bytes, iflush_bytes, read_inode_from_disk}
use erofs_utils.Inode.Disk.Flush.{IsFlushable, taken_over}
use erofs_utils.Inode.Disk.Reread.{finished, read_inode_from_disk-iflush_bytes}
use erofs_utils.Base.{inl, ◌+◌, ◌*◌, ◌%◌, ◌≡◌, refl, false, none, some, arith, [], inr}
use erofs_utils.Base.Memory.{Buf, store, At-store}
use erofs_utils.Base.Errno.{done}
use erofs_utils.Geometry.{SbInfo, pos, blk_round_up, roundup}
use erofs_utils.Device.{Vfile, Devices}
use erofs_utils.Inode.{Inode, iloc}
use erofs_utils.Data.{read_raw_data, last_block, inode_end}
use erofs_utils.Data.Loop.{Filled}
use erofs_utils.Device.Primary.{IsSingle}
use erofs_utils.Data.Flat.{IsFlat, flat_byte, read_raw_data-flat}

abbrev pub sbi : SbInfo
sbi = record {
  blkszbits = 9;
  islotbits = 5;
  meta_blkaddr = 0;
  root_nid = 36;
  packed_nid = 0;
  build_time = 0;
  build_time_nsec = 0;
  devs = [];
  extra_devices = 0;
  device_id_mask = 0;
  nblobs = 0;
  has_big_pcluster = false;
  has_ztailpacking = false;
  has_fragments = false;
}

-- The byte at x is x modulo 251.
abbrev image : Vfile
image = record { size = 8192; byte = λ x. x % 251; error = λ offset len. none }

abbrev pub devices : Devices
devices id = image

-- The inode stands at 40 * 32 = 1280, so its tail starts at 1312.
abbrev pub vi : Inode
vi = record {
  nid = 40;
  i_mode = 0x81a4;
  i_size = 600;
  i_ino = 1;
  i_uid = 0;
  i_gid = 0;
  i_mtime = 0;
  i_mtime_nsec = 0;
  i_nlink = 1;
  u = 5;
  datalayout = 2;
  inode_isize = 32;
  xattr_isize = 0;
  z_inited = false;
  z_advise = 0;
  z_algorithmtype = (0, 0);
  z_logical_clusterbits = 0;
  z_tailextent_headlcn = 0;
  fragmentoff = 0;
  z_idata_size = 0;
}

abbrev pub zeros : Buf
zeros i = 0

vi-IsFlat : IsFlat sbi vi
unfolding last_block inode_end iloc pos blk_round_up roundup
vi-IsFlat = record {
  layout = inr refl;
  size_fits = omega arith;
  size_64 = omega arith;
  data_fits = omega arith;
  inode_fits = omega arith;
  tail_inside = λ _. omega arith;
}

image-IsSingle : IsSingle sbi devices
image-IsSingle = record { no_extra = refl; no_error = λ offset len. refl }

read_raw_data-flat_example :
    (c : Buf) × (read_raw_data sbi devices vi zeros 20 500 ≡ some (done c))
    × Filled (flat_byte sbi devices vi) 500 500 520 zeros c
read_raw_data-flat_example =
    read_raw_data-flat sbi devices vi vi-IsFlat image-IsSingle 20 500 (omega arith) zeros

-- The same inode, written in the compact form at its place on a blank device.
abbrev written_image : Vfile
written_image = record {
  size = 8192;
  byte = store zeros 1280 (compact_bytes vi);
  error = λ offset len. none;
}

abbrev written : Devices
written id = written_image

vi-IsFlushable : IsFlushable sbi vi
vi-IsFlushable = record {
  layout = omega arith;
  kind = inl refl;
  mode = omega arith;
  nlink = omega arith;
  size = omega arith;
  union = omega arith;
  ino = omega arith;
  uid = omega arith;
  gid = omega arith;
  mtime = omega arith;
  mtime_nsec = omega arith;
  xattrs = inl refl;
  form = inr (refl, omega arith, omega arith, omega arith, omega arith, refl, refl);
}

read_inode_from_disk-iflush_bytes_example :
    read_inode_from_disk (λ major minor. major * 256 + minor) sbi written vi
    ≡ done (finished sbi (taken_over vi vi))
unfolding iflush_bytes iloc pos
read_inode_from_disk-iflush_bytes_example =
    read_inode_from_disk-iflush_bytes (λ major minor. major * 256 + minor) sbi written vi vi
      (record { no_extra = refl; no_error = λ offset len. refl }) vi-IsFlushable (compact_bytes vi)
      refl (At-store zeros 1280 (compact_bytes vi)) (omega arith) (omega arith)
