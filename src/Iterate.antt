-- ===== src/Iterate.antt =====
-- lib/dir.c: erofs_iterate_dir, the traversal of a whole directory.
pub mod Written
use erofs_utils.Base.{
  ℕ, zero, suc, ◌+◌, ◌-◌, min, Bool, true, false, not, ◌&&◌, ◌||◌, Option, none, some, ltb, leb,
  ◌==◌, if◌then◌else◌,
}
use erofs_utils.Base.Memory.{Buf}
use erofs_utils.Base.Errno.{Ret, ok, found, err, Result, done, fail, enotdir, efscorrupted}
use erofs_utils.Geometry.{SbInfo, blksiz}
use erofs_utils.Device.{Devices}
use erofs_utils.Inode.{Inode}
use erofs_utils.Inode.Disk.{file_type, s_ifdir}
use erofs_utils.Data.{pread}
use erofs_utils.Dir.{dirent_size, nameoff_at}
use erofs_utils.Readdir.{DirContext, traverse_dirents}

-- How the loop over the blocks ends: it returns from the function, or leaves the loop with `err` set.
pub data Outcome (S : Type 0) : Type 0 where
  returned : Ret → DirContext S → Outcome S
  left : Ret → DirContext S → Outcome S

module _ {S : Type 0} (z_read_data : Inode → Buf → ℕ → ℕ → Option (Result Buf)) (sbi : SbInfo)
    (devices : Devices) (dir : Inode) (fsck : Bool) (cb : DirContext S → Ret × DirContext S) where
  unfoldable pub iterate_block : Buf → ℕ → DirContext S → Outcome S
  iterate_block b maxsize ctx =
      let nameoff = nameoff_at b 0 in
      let (ret, c) = traverse_dirents fsck sbi.root_nid dir.nid cb b nameoff maxsize ctx in
      if ltb nameoff dirent_size || leb (blksiz sbi) nameoff
      then returned (err efscorrupted) ctx
      else left ret c

  -- `none`: out of fuel, of which a round that goes on takes one.
  unfoldable pub iterate_loop : ℕ → Buf → ℕ → DirContext S → Option (Outcome S)
  iterate_loop zero b pos ctx = none
  iterate_loop (suc fuel) b pos ctx =
      let maxsize = min (dir.i_size - pos) (blksiz sbi) in
      elim (ltb pos dir.i_size) [
        | false ↦ some (left ok ctx)
        | true ↦ elim (pread z_read_data sbi devices dir b maxsize pos) [
          | none ↦ none
          | some (fail e) ↦ some (returned (err e) ctx)
          | some (done b') ↦ elim (iterate_block b' maxsize ctx) [
            | returned ret c ↦ some (returned ret c)
            | left (err e) c ↦ some (left (err e) c)
            | left (found n) c ↦ some (left (found n) c)
            | left ok c ↦ iterate_loop fuel b' (pos + maxsize) c
          ]
        ]
      ]

  -- what follows the loop
  unfoldable pub check_special : Outcome S → Ret × DirContext S
  check_special (returned ret c) = (ret, c)
  check_special (left ret c) =
      if fsck && not (c.dot_found && c.dotdot_found) then (err efscorrupted, c) else (ret, c)

  -- `b` is the buffer on the stack.
  unfoldable pub iterate_dir : Buf → DirContext S → Option (Ret × DirContext S)
  iterate_dir b ctx =
      if not (file_type dir.i_mode == s_ifdir)
      then some (err enotdir, ctx)
      else elim (iterate_loop (dir.i_size + 1) b 0
          (record ctx { dot_found = false; dotdot_found = false })) [
            | none ↦ none
            | some o ↦ some (check_special o)
          ]
