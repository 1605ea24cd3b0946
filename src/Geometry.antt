-- ===== src/Geometry.antt =====
-- include/erofs/internal.h and include/erofs/defs.h: block numbers, offsets and positions, and the
-- superblock's and inode's fields that the readers use.
pub mod Laws
pub mod Rounding
use erofs_utils.Base.{ℕ, ◌+◌, ◌-◌, ◌*◌, ◌/◌, ◌%◌, ◌^◌, ◌≤◌, ◌<◌, Bool, List, bit_and}
use erofs_utils.Base.Words.{add64, shl64}

-- `struct erofs_device_info`
pub record DeviceInfo : Type 0 where
  pub blocks : ℕ
  pub mapped_blkaddr : ℕ

-- `struct erofs_sb_info`, as far as the readers use it. The four flags are the feature bits that
-- z_erofs_fill_inode tests.
pub record SbInfo : Type 0 where
  pub blkszbits : ℕ
  pub islotbits : ℕ
  pub meta_blkaddr : ℕ
  pub root_nid : ℕ
  pub packed_nid : ℕ
  pub build_time : ℕ
  pub build_time_nsec : ℕ
  pub devs : List DeviceInfo
  pub extra_devices : ℕ
  pub device_id_mask : ℕ
  pub nblobs : ℕ
  pub has_big_pcluster : Bool
  pub has_ztailpacking : Bool
  pub has_fragments : Bool

-- erofs_blksiz, erofs_blknr, erofs_blkoff, erofs_pos
abbrev pub blksiz : SbInfo → ℕ
blksiz sbi = 2 ^ sbi.blkszbits

abbrev pub blknr : SbInfo → ℕ → ℕ
blknr sbi addr = addr / 2 ^ sbi.blkszbits

unfoldable pub blkoff : SbInfo → ℕ → ℕ
blkoff sbi addr = bit_and addr (blksiz sbi - 1)

unfoldable pub pos : SbInfo → ℕ → ℕ
pos sbi nr = shl64 nr sbi.blkszbits

-- roundup(x, y) on u64
unfoldable pub roundup : ℕ → ℕ → ℕ
roundup x y = add64 x (y - 1) / y * y

-- rounddown(x, y)
unfoldable pub rounddown : ℕ → ℕ → ℕ
rounddown x y = x - x % y

-- BLK_ROUND_UP on u64
unfoldable pub blk_round_up : SbInfo → ℕ → ℕ
blk_round_up sbi addr = roundup addr (blksiz sbi) / 2 ^ sbi.blkszbits
