-- ===== src/Tests/Directory.antt =====
-- A directory block with ".", ".." and "ab": written, searched and traversed.
use erofs_utils.Base.{ℕ, ◌+◌, ◌≡◌, ◌≢◌, refl, List, [], ◌∷◌, true, false, arith}
use erofs_utils.Base.Memory.{Buf, IsBytes, store-IsBytes, memset, store, strnlen, strncmp}
use erofs_utils.Base.Errno.{Ret, ok}
use erofs_utils.Dir.{
  Dentry, fill_dirblock, fill_loop, find_target_dirent, find_loop, name_length, nameoff_at,
  de_nid_at, ftype_at, corrupted, at, dirent_count,
}
use erofs_utils.Dir.Lookup.{first_named, find_target_dirent-fill_dirblock}
use erofs_utils.Readdir.{
  DirContext, traverse_dirents, traverse_loop, bogus_dirent, wrong_order, see_name, see_dot,
  see_dotdot, fill_context, is_dot_dotdot_len, validate_filename,
}
use erofs_utils.Readdir.Written.{strcmp, visit, traverse_dirents-fill_dirblock}
use erofs_utils.Readdir.Sound.{Tiles, traverse_dirents-Tiles, find_target_dirent-traverse_dirents}

abbrev three : List Dentry
three =
    record { nid = 36; name = b'.' ∷ []; ftype = 2 }
    ∷ record { nid = 40; name = b'.' ∷ b'.' ∷ []; ftype = 2 }
    ∷ record { nid = 51; name = b'a' ∷ b'b' ∷ []; ftype = 1 }
    ∷ []

abbrev stale : Buf
stale i = 7

abbrev block : Buf
block = fill_dirblock stale 64 36 three

lookup_ab : find_target_dirent block (b'a' ∷ b'b' ∷ []) 36 64 ≡ at 24
unfolding fill_dirblock fill_loop store memset find_target_dirent find_loop name_length nameoff_at
    strnlen
lookup_ab = refl

find_target_dirent-fill_dirblock_example :
    find_target_dirent (fill_dirblock stale 64 36 three) (b'a' ∷ b'b' ∷ []) 36 64
    ≡ first_named (b'a' ∷ b'b' ∷ []) 0 three
find_target_dirent-fill_dirblock_example =
    find_target_dirent-fill_dirblock (b'a' ∷ b'b' ∷ []) three stale 64 (omega arith) (omega arith)
      (omega arith)

-- a callback that counts the dirents
abbrev count : DirContext ℕ → Ret × DirContext ℕ
count ctx = (ok, record ctx { user = ctx.user + 1 })

abbrev start : DirContext ℕ
start = record {
  pnid = 40;
  valid_pnid = true;
  dotdot_found = false;
  dot_found = false;
  dname = [];
  de_nid = 0;
  de_namelen = 0;
  de_ftype = 0;
  dot_dotdot = false;
  user = 0;
}

traverse_dirents-fill_dirblock_example :
    traverse_dirents true 1 36 count (fill_dirblock stale 64 36 three) 36 64 start
    ≡ visit true 1 36 count three start
unfolding strcmp
traverse_dirents-fill_dirblock_example =
    traverse_dirents-fill_dirblock true 1 36 count three stale 64 start (omega arith) (omega arith)
      (omega arith) (refl, (refl, tt)) (omega arith)

-- one dirent, for "x"
abbrev tiny : Buf
tiny = store stale 0 (9 ∷ 0 ∷ 0 ∷ 0 ∷ 0 ∷ 0 ∷ 0 ∷ 0 ∷ 12 ∷ 0 ∷ 1 ∷ 0 ∷ b'x' ∷ 0 ∷ [])

tiny-IsBytes : IsBytes tiny
tiny-IsBytes = store-IsBytes stale 0 _ (λ i. omega arith) (omega arith)

tiny_traversed : (traverse_dirents true 1 36 count tiny 12 32 start).0 ≡ ok
unfolding traverse_dirents traverse_loop bogus_dirent wrong_order see_name see_dot see_dotdot
    fill_context is_dot_dotdot_len validate_filename store name_length nameoff_at de_nid_at ftype_at
    strnlen strncmp
tiny_traversed = refl

traverse_dirents-Tiles_example : Tiles (dirent_count 12) tiny 12 32 0 12
traverse_dirents-Tiles_example =
    traverse_dirents-Tiles true 1 36 count tiny 12 32 start tiny-IsBytes tiny_traversed

find_target_dirent-traverse_dirents_example : find_target_dirent tiny (b'y' ∷ []) 12 32 ≢ corrupted
find_target_dirent-traverse_dirents_example =
    find_target_dirent-traverse_dirents true 1 36 count tiny 12 32 start (b'y' ∷ []) tiny-IsBytes
      tiny_traversed
