-- ===== src/Namei.antt =====
-- lib/namei.c: the lookup of a name in a directory and of a path from the root. A C string is the list of
-- its bytes in front of the NUL, and a pointer into it what is left of it.
pub mod Blocks
pub mod Packed
pub mod Paths
use erofs_utils.Base.{
  ℕ, zero, suc, ◌+◌, ◌-◌, min, Bool, true, false, ◌||◌, Option, none, some, List, [], ◌∷◌, ltb, leb,
  ◌==◌, if◌then◌else◌, length,
}
use erofs_utils.Base.Memory.{Buf, le}
use erofs_utils.Base.Errno.{Result, done, fail, enoent, efscorrupted}
use erofs_utils.Geometry.{SbInfo, blksiz}
use erofs_utils.Device.{Devices}
use erofs_utils.Inode.{Inode}
use erofs_utils.Inode.Disk.{read_inode_from_disk}
use erofs_utils.Data.{pread}
use erofs_utils.Dir.{
  dirent_size, Target, missing, corrupted, at, de_nid_at, nameoff_at, find_target_dirent,
}

-- `struct erofs_inode vi = { .nid = nid }`
abbrev pub new_inode : ℕ → Inode
new_inode nid = record {
  nid = nid;
  i_mode = 0;
  i_size = 0;
  i_ino = 0;
  i_uid = 0;
  i_gid = 0;
  i_mtime = 0;
  i_mtime_nsec = 0;
  i_nlink = 0;
  u = 0;
  datalayout = 0;
  inode_isize = 0;
  xattr_isize = 0;
  z_inited = false;
  z_advise = 0;
  z_algorithmtype = (0, 0);
  z_logical_clusterbits = 0;
  z_tailextent_headlcn = 0;
  fragmentoff = 0;
  z_idata_size = 0;
}

unfoldable pub skip_slashes : List ℕ → List ℕ
skip_slashes [] = []
skip_slashes (c ∷ name) = let rest = skip_slashes name in if c == 47 then rest else c ∷ name

-- do ++p while (*p != '\0' && *p != '/'): the bytes passed after the first, and what is left
unfoldable pub scan_component : List ℕ → List ℕ × List ℕ
scan_component [] = ([], [])
scan_component (c ∷ p) =
    let rest = scan_component p in if c == 47 then ([], c ∷ p) else (c ∷ rest.0, rest.1)

-- What becomes of one block: the nid found, an error, or `none` to go on.
unfoldable pub namei_block : SbInfo → Buf → ℕ → List ℕ → Option (Result ℕ)
namei_block sbi b maxsize name =
    let nameoff = nameoff_at b 0 in
    if ltb nameoff dirent_size || leb (blksiz sbi) nameoff
    then some (fail efscorrupted)
    else elim (find_target_dirent b name nameoff maxsize) [
      | corrupted ↦ some (fail efscorrupted)
      | at de ↦ some (done (de_nid_at b de))
      | missing ↦ none
    ]

module _ (z_read_data : Inode → Buf → ℕ → ℕ → Option (Result Buf)) (sbi : SbInfo)
    (devices : Devices) where
  -- The loop over the blocks. `none`: out of fuel, of which a round that goes on takes one; the outer
  -- function gives one more than there are bytes.
  unfoldable pub namei_loop : Inode → List ℕ → ℕ → Buf → ℕ → Option (Result ℕ)
  namei_loop vi name zero b offset = none
  namei_loop vi name (suc fuel) b offset =
      let maxsize = min (vi.i_size - offset) (blksiz sbi) in
      elim (ltb offset vi.i_size) [
        | false ↦ some (fail enoent)
        | true ↦ elim (pread z_read_data sbi devices vi b maxsize offset) [
          | none ↦ none
          | some (fail e) ↦ some (fail e)
          | some (done b') ↦ elim (namei_block sbi b' maxsize name) [
            | some r ↦ some r
            | none ↦ namei_loop vi name fuel b' (offset + maxsize)
          ]
        ]
      ]

module _ (makedev : ℕ → ℕ → ℕ) (z_read_data : Inode → Buf → ℕ → ℕ → Option (Result Buf))
    (sbi : SbInfo) (devices : Devices) where
  -- `b` is the buffer on the stack.
  unfoldable pub namei : Buf → ℕ → List ℕ → Option (Result ℕ)
  namei b nid name = elim (read_inode_from_disk makedev sbi devices (new_inode nid)) [
    | fail e ↦ some (fail e)
    | done vi ↦ namei_loop z_read_data sbi devices vi name (vi.i_size + 1) b 0
  ]

-- The walk, for any lookup of a component; a round takes a byte of the path at least.
module _ (lookup : ℕ → List ℕ → Option (Result ℕ)) where
  unfoldable pub walk_loop : ℕ → ℕ → List ℕ → Option (Result ℕ)
  walk_loop zero nid name = none
  walk_loop (suc fuel) nid [] = some (done nid)
  walk_loop (suc fuel) nid (c ∷ name) =
      let scan = scan_component name in
      elim (lookup nid (c ∷ scan.0)) [
        | none ↦ none
        | some (fail e) ↦ some (fail e)
        | some (done nid') ↦ walk_loop fuel nid' (skip_slashes scan.1)
      ]

  unfoldable pub link_path_walk : SbInfo → List ℕ → Option (Result ℕ)
  link_path_walk sbi name = walk_loop (length name + 1) sbi.root_nid (skip_slashes name)

unfoldable pub ilookup :
    (ℕ → ℕ → ℕ)
    → (Inode → Buf → ℕ → ℕ → Option (Result Buf))
    → SbInfo
    → Devices
    → Buf
    → List ℕ
    → Inode
    → Option (Result Inode)
ilookup makedev z_read_data sbi devices b path vi =
    elim (link_path_walk (namei makedev z_read_data sbi devices b) sbi path) [
      | none ↦ none
      | some (fail e) ↦ some (fail e)
      | some (done nid) ↦ some (read_inode_from_disk makedev sbi devices (record vi { nid = nid }))
    ]
