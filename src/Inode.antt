-- ===== src/Inode.antt =====
-- include/erofs/internal.h and include/erofs_fs.h: `struct erofs_inode` as the readers fill it in.
pub mod Disk
use erofs_utils.Base.{ℕ, ◌+◌, ◌*◌, ◌/◌, ◌%◌, ◌^◌, Bool, ◌||◌, ◌==◌}
use erofs_utils.Base.Words.{add64, shl64}
use erofs_utils.Geometry.{SbInfo, pos}

-- `z_inited` is the flag EROFS_I_Z_INITED. The union of z_idataoff and fragmentoff is one 64-bit number,
-- of which z_idataoff is the low half. The union `u` is one 32-bit number, read as i_blkaddr or i_rdev, or by its members chunkformat (the
-- low 16 bits) and chunkbits (the 8 bits above), as it lies in memory on a little-endian machine.
pub record Inode : Type 0 where
  pub nid : ℕ
  pub i_mode : ℕ
  pub i_size : ℕ
  pub i_ino : ℕ
  pub i_uid : ℕ
  pub i_gid : ℕ
  pub i_mtime : ℕ
  pub i_mtime_nsec : ℕ
  pub i_nlink : ℕ
  pub u : ℕ
  pub datalayout : ℕ
  pub inode_isize : ℕ
  pub xattr_isize : ℕ
  pub z_inited : Bool
  pub z_advise : ℕ
  pub z_algorithmtype : ℕ × ℕ
  pub z_logical_clusterbits : ℕ
  pub z_tailextent_headlcn : ℕ
  pub fragmentoff : ℕ
  pub z_idata_size : ℕ

abbrev pub i_blkaddr : Inode → ℕ
i_blkaddr vi = vi.u

abbrev pub chunkformat : Inode → ℕ
chunkformat vi = vi.u % 2 ^ 16

abbrev pub chunkbits : Inode → ℕ
chunkbits vi = vi.u / 2 ^ 16 % 2 ^ 8

abbrev pub set_chunkformat : ℕ → ℕ → ℕ
set_chunkformat u v = u / 2 ^ 16 * 2 ^ 16 + v

abbrev pub set_chunkbits : ℕ → ℕ → ℕ
set_chunkbits u v = u / 2 ^ 24 * 2 ^ 24 + v % 2 ^ 8 * 2 ^ 16 + u % 2 ^ 16

abbrev pub z_idataoff : Inode → ℕ
z_idataoff vi = vi.fragmentoff % 2 ^ 32

abbrev pub set_z_idataoff : ℕ → ℕ → ℕ
set_z_idataoff fragmentoff v = fragmentoff / 2 ^ 32 * 2 ^ 32 + v

abbrev pub flat_plain : ℕ
flat_plain = 0

abbrev pub compressed_full : ℕ
compressed_full = 1

abbrev pub flat_inline : ℕ
flat_inline = 2

abbrev pub compressed_compact : ℕ
compressed_compact = 3

abbrev pub chunk_based : ℕ
chunk_based = 4

abbrev pub datalayout_max : ℕ
datalayout_max = 5

unfoldable pub is_data_compressed : ℕ → Bool
is_data_compressed datamode = datamode == compressed_compact || datamode == compressed_full

-- erofs_iloc
unfoldable pub iloc : SbInfo → Inode → ℕ
iloc sbi vi = add64 (pos sbi sbi.meta_blkaddr) (shl64 vi.nid sbi.islotbits)
