-- ===== src/Zmap.antt =====
-- lib/zmap.c: the indexes of a compressed file's logical clusters, in the full form, and the state of a
-- mapping. An int that is returned is none for 0, and some e for -e.
pub mod Compact
pub mod Extent
pub mod Iter
pub mod Ends
pub mod Small
pub mod Total
pub mod Halts
pub mod Page
pub mod Load
pub mod Head
pub mod Branches
pub mod Written
pub mod Placed
pub mod Found
pub mod Mapping
use erofs_utils.Base.{
  ℕ, suc, ◌+◌, ◌-◌, ◌*◌, ◌/◌, ◌%◌, ◌^◌, bit_and, bit_or, Bool, true, false, not, Option, none, some,
  ◌==◌, if◌then◌else◌,
}
use erofs_utils.Base.Memory.{Buf, le}
use erofs_utils.Base.Words.{add64, sub64}
use erofs_utils.Base.Errno.{Result, done, fail, eio, eopnotsupp, efscorrupted}
use erofs_utils.Geometry.{SbInfo, blksiz, blknr, blkoff}
use erofs_utils.Device.{Devices, blk_read}
use erofs_utils.Inode.{Inode, iloc}
use erofs_utils.Data.{MapBlocks}

-- the types of a logical cluster
abbrev pub plain : ℕ
plain = 0

abbrev pub head1 : ℕ
head1 = 1

abbrev pub nonhead : ℕ
nonhead = 2

-- Z_EROFS_LI_D0_CBLKCNT
abbrev pub d0_cblkcnt : ℕ
d0_cblkcnt = 2 ^ 11

-- x & (1 << k) as a test
unfoldable pub has_bit : ℕ → ℕ → Bool
has_bit x k = not (bit_and x (2 ^ k) == 0)

-- The bits of z_advise.
abbrev pub compacted_2b : Inode → Bool
compacted_2b vi = has_bit vi.z_advise 0

abbrev pub big_pcluster_1 : Inode → Bool
big_pcluster_1 vi = has_bit vi.z_advise 1

abbrev pub big_pcluster_2 : Inode → Bool
big_pcluster_2 vi = has_bit vi.z_advise 2

abbrev pub inline_pcluster : Inode → Bool
inline_pcluster vi = has_bit vi.z_advise 3

abbrev pub interlaced_pcluster : Inode → Bool
interlaced_pcluster vi = has_bit vi.z_advise 4

abbrev pub fragment_pcluster : Inode → Bool
fragment_pcluster vi = has_bit vi.z_advise 5

-- `struct z_erofs_maprecorder`, less the inode; `index` and `mpage` are those of the map: the number of
-- the block of indexes read last, and its bytes
pub record MapRecorder : Type 0 where
  pub map : MapBlocks
  pub index : ℕ
  pub mpage : Buf
  pub lcn : ℕ
  pub type : ℕ
  pub headtype : ℕ
  pub clusterofs : ℕ
  pub delta : ℕ × ℕ
  pub pblk : ℕ
  pub compressedblks : ℕ
  pub nextpackoff : ℕ
  pub partialref : Bool

-- round_up64(x, y) on u64
unfoldable pub round_up64 : ℕ → ℕ → ℕ
round_up64 x y = add64 (bit_or (sub64 x 1) (y - 1)) 1

-- where the indexes of the full form start: Z_EROFS_FULL_INDEX_ALIGN
unfoldable pub full_index_base : SbInfo → Inode → ℕ
full_index_base sbi vi =
    add64 (round_up64 (add64 (add64 (iloc sbi vi) vi.inode_isize) vi.xattr_isize) 8) 16

-- A logical cluster that is no head, from its two distances, which are u16.
unfoldable pub full_nonhead : Inode → MapRecorder → ℕ → ℕ → Option ℕ × MapRecorder
full_nonhead vi m d0 d1 =
    let n = record m {
      clusterofs = 2 ^ vi.z_logical_clusterbits % 2 ^ 16;
      delta = (d0, m.delta.1);
    } in
    if has_bit d0 11
    then if big_pcluster_1 vi
      then (
        none,
        record n { compressedblks = d0 - d0_cblkcnt; delta = (1, d1 % 2 ^ 16); type = nonhead },
      )
      else (some efscorrupted, n)
    else (none, record n { delta = (d0, d1 % 2 ^ 16); type = nonhead })

-- A head, from its bits, its offset in the cluster and its block.
unfoldable pub full_head : MapRecorder → ℕ → ℕ → ℕ → ℕ → Option ℕ × MapRecorder
full_head m advise clusterofs blkaddr type = (
  none,
  record m {
    partialref = if has_bit advise 15 then true else m.partialref;
    clusterofs = clusterofs;
    pblk = blkaddr;
    type = type;
  },
)

-- The index at byte `di` of the page that is loaded.
unfoldable pub legacy_index : Inode → MapRecorder → ℕ → Option ℕ × MapRecorder
legacy_index vi n di =
    let advise = le 2 n.mpage di in
    let type = bit_and advise 3 in
    if type == nonhead
    then full_nonhead vi n (le 2 n.mpage (di + 4)) (le 2 n.mpage (di + 6))
    else if type == 3
    then (some eopnotsupp, n)
    else full_head n advise (le 2 n.mpage (di + 2)) (le 4 n.mpage (di + 4)) type

module _ (sbi : SbInfo) (devices : Devices) where
  unfoldable pub reload_indexes : MapRecorder → ℕ → Option ℕ × MapRecorder
  reload_indexes m eblk =
      if m.index == eblk then (none, m) else elim (blk_read sbi devices 0 eblk 1) [
        | fail e ↦ (some eio, m)
        | done b ↦ (none, record m { index = eblk; mpage = b })
      ]

  unfoldable pub legacy_load_cluster : Inode → MapRecorder → ℕ → Option ℕ × MapRecorder
  legacy_load_cluster vi m lcn =
      let pos = add64 (full_index_base sbi vi) (lcn * 8 % 2 ^ 64) in
      let r = reload_indexes m (blknr sbi pos % 2 ^ 32) in
      elim r.0 [
        | some e ↦ r
        | none ↦
            legacy_index vi (record r.1 { nextpackoff = add64 pos 8; lcn = lcn }) (blkoff sbi pos)
      ]
