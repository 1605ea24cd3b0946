-- ===== src/Dir/Pack.antt =====
-- lib/inode.c: how mkfs packs the dentries of a directory into blocks (erofs_prepare_dir_file after the
-- sorting, erofs_write_dir_file).
pub mod Blocks
pub mod Split
use erofs_utils.Base.{
  ℕ, zero, suc, ◌+◌, ◌-◌, ◌*◌, ◌%◌, ◌^◌, bit_or, Option, none, some, List, [], ◌∷◌, ◌++◌, ltb, ◌==◌,
  if◌then◌else◌, length,
}
use erofs_utils.Base.Words.{add32, sub32}
use erofs_utils.Geometry.{SbInfo, blksiz, blkoff}
use erofs_utils.Dir.{Dentry, dirent_size}

-- round_up(x, y) on unsigned int
unfoldable pub round_up : ℕ → ℕ → ℕ
round_up x y = add32 (bit_or (sub32 x 1) (y - 1)) 1

-- the size of the directory, a dentry at a time
unfoldable pub dir_size : SbInfo → ℕ → List Dentry → ℕ
dir_size sbi d_size [] = d_size
dir_size sbi d_size (d ∷ ds) =
    let len = length d.name + dirent_size in
    let start =
      if ltb (blksiz sbi) (add32 (blkoff sbi d_size) len)
      then round_up d_size (blksiz sbi)
      else d_size in
    dir_size sbi (add32 start len) ds

-- A call of write_dirblock, or what is kept in dir->idata: the offset of the names, and the dentries.
pub record Block : Type 0 where
  pub q : ℕ
  pub dentries : List Dentry

-- The blocks written, from the directory's first on, and the tail.
pub record Packed : Type 0 where
  pub written : List Block
  pub idata : Option Block
  pub idata_size : ℕ

-- what follows the loop
unfoldable pub pack_rest : SbInfo → List Dentry → ℕ → ℕ → Packed
pack_rest sbi head q used =
    let last : Block = record { q = q; dentries = head } in
    if used == blksiz sbi
    then record { written = last ∷ []; idata = none; idata_size = 0 }
    else if used == 0
    then record { written = []; idata = none; idata_size = 0 }
    else record { written = []; idata = some last; idata_size = used }

-- The loop: `head` are the dentries since the last write.
unfoldable pub pack_loop : SbInfo → List Dentry → ℕ → ℕ → List Dentry → Packed
pack_loop sbi head q used [] = pack_rest sbi head q used
pack_loop sbi head q used (d ∷ ds) =
    let len = length d.name + dirent_size in
    let after = pack_loop sbi (d ∷ []) dirent_size len ds in
    let on = pack_loop sbi (head ++ (d ∷ [])) (add32 q dirent_size) (add32 used len) ds in
    if ltb (blksiz sbi) (add32 used len)
    then record after { written = record { q = q; dentries = head } ∷ after.written }
    else on

unfoldable pub write_dir_file : SbInfo → List Dentry → Packed
write_dir_file sbi ds = pack_loop sbi [] 0 0 ds
