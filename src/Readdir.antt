-- ===== src/Readdir.antt =====
-- lib/dir.c: traversal of a directory, block by block, with a callback for each dirent.
pub mod Written
pub mod Sound
use Prim.Native.Nat.{Ordering}
use erofs_utils.Base.{
  ℕ, zero, suc, ◌+◌, ◌-◌, ◌*◌, ◌/◌, ◌%◌, ◌^◌, ◌≤◌, ◌<◌, min, ◌≡◌, Bool, true, false, not, ◌&&◌,
  ◌||◌, Option, none, some, List, [], ◌∷◌, ltb, leb, ◌==◌, if◌then◌else◌,
}
use erofs_utils.Base.Memory.{Buf, strncmp, bytes_at}
use erofs_utils.Base.Words.{add32, sub32, add64, sub64}
use erofs_utils.Base.Errno.{Ret, ok, found, err, enotdir, efscorrupted}
use erofs_utils.Dir.{
  dirent_size, name_max, ft_max, de_nid_at, nameoff_at, ftype_at, name_length, dirent_count,
}

-- `struct erofs_dir_context`. The flags are the bits EROFS_READDIR_VALID_PNID, _DOTDOT_FOUND and
-- _DOT_FOUND; `user` is what a wrapper of the context holds.
pub record DirContext (S : Type 0) : Type 0 where
  pub pnid : ℕ
  pub valid_pnid : Bool
  pub dotdot_found : Bool
  pub dot_found : Bool
  pub dname : List ℕ
  pub de_nid : ℕ
  pub de_namelen : ℕ
  pub de_ftype : ℕ
  pub dot_dotdot : Bool
  pub user : S

-- `name - dname < size && *name != '\0'`, with '/' refused on the way
unfoldable pub validate_filename : Buf → ℕ → ℕ → Bool
validate_filename b p zero = true
validate_filename b p (suc size) =
    let rest = validate_filename b (p + 1) size in
    if b p == 0 then true else if b p == b'/' then false else rest

unfoldable pub is_dot_dotdot_len : Buf → ℕ → ℕ → Bool
is_dot_dotdot_len b p len =
    if leb 1 len && not (b p == b'.') then false else len == 1 || (len == 2 && b (p + 1) == b'.')

-- `cmp > 0 || (cmp == 0 && prev_namelen >= de_namelen)`
abbrev pub not_after : Ordering → ℕ → ℕ → Bool
not_after Ordering.gt prev_namelen de_namelen = true
not_after Ordering.eq prev_namelen de_namelen = leb de_namelen prev_namelen
not_after Ordering.lt prev_namelen de_namelen = false

-- the test "wrong dirent name order", on the previous name where there is one
unfoldable pub wrong_order : Buf → Option (ℕ × ℕ) → ℕ → ℕ → Bool
wrong_order b none de_name de_namelen = false
wrong_order b (some (prev_name, prev_namelen)) de_name de_namelen =
    not_after (strncmp b prev_name de_name (min prev_namelen de_namelen)) prev_namelen de_namelen

-- the checks of a dirent before the context is filled in
unfoldable pub bogus_dirent : Bool → Buf → ℕ → ℕ → Option (ℕ × ℕ) → ℕ → ℕ → Bool
bogus_dirent fsck b maxsize next_nameoff prev de de_namelen =
    let nameoff = nameoff_at b de in
    not (nameoff == next_nameoff)
    || (ltb maxsize (add32 nameoff de_namelen) || (de_namelen == 0 || ltb name_max de_namelen))
    || (fsck && wrong_order b prev nameoff de_namelen)
    || (fsck && leb ft_max (ftype_at b de))

-- `if (ret) break;` after the callback
abbrev pub unless_stopped : {S : Type 0} → Ret → S → Ret × S → Ret × S
unless_stopped ok c rest = rest
unless_stopped (found n) c rest = (found n, c)
unless_stopped (err e) c rest = (err e, c)

unfoldable pub fill_context : {S : Type 0} → Buf → ℕ → ℕ → DirContext S → DirContext S
fill_context b de de_namelen ctx = record ctx {
  dname = bytes_at b (nameoff_at b de) de_namelen;
  de_nid = de_nid_at b de;
  de_namelen = de_namelen;
  de_ftype = ftype_at b de;
  dot_dotdot = is_dot_dotdot_len b (nameoff_at b de) de_namelen;
}

module _ {S : Type 0} (fsck : Bool) (root_nid dir_nid : ℕ) where
  -- the `case 2` of the switch; `false` stands for `goto out` with -EFSCORRUPTED
  unfoldable pub see_dotdot : DirContext S → Bool × DirContext S
  see_dotdot ctx =
      if fsck && ctx.dotdot_found
      then (false, ctx)
      else (let c = at_root (record ctx { dotdot_found = true }) in
          (not (fsck && c.valid_pnid && not (c.de_nid == c.pnid)), c))
    where
      at_root : DirContext S → DirContext S
      at_root c = if root_nid == dir_nid then record c { pnid = root_nid; valid_pnid = true } else c

  -- the `case 1` of the switch
  unfoldable pub see_dot : DirContext S → Bool × DirContext S
  see_dot ctx =
      if fsck && ctx.dot_found
      then (false, ctx)
      else (not (fsck && not (ctx.de_nid == dir_nid)), record ctx { dot_found = true })

  unfoldable pub see_name : Buf → ℕ → DirContext S → Bool × DirContext S
  see_name b de_name ctx =
      if ctx.dot_dotdot
      then if ctx.de_namelen == 2
        then see_dotdot ctx
        else if ctx.de_namelen == 1
        then see_dot ctx
        else (true, ctx)
      else (not (fsck && not (validate_filename b de_name ctx.de_namelen)), ctx)

  module _ (cb : DirContext S → Ret × DirContext S) where
    -- The first number counts the dirents from `de` on: `de < end` while it is not 0.
    unfoldable pub traverse_loop :
        ℕ → Buf → ℕ → ℕ → ℕ → ℕ → Option (ℕ × ℕ) → DirContext S → Ret × DirContext S
    traverse_loop zero b end maxsize de next_nameoff prev ctx = (ok, ctx)
    traverse_loop (suc k) b end maxsize de next_nameoff prev ctx =
        let de_namelen = name_length b end maxsize de in
        let ctx' = record ctx { de_nid = de_nid_at b de } in
        let (fine, c) = see_name b (nameoff_at b de) (fill_context b de de_namelen ctx') in
        let (ret, c') = cb c in
        let rest =
          traverse_loop k b end maxsize (de + dirent_size) (add32 next_nameoff de_namelen)
            (some (nameoff_at b de, de_namelen)) c' in
        if bogus_dirent fsck b maxsize next_nameoff prev de de_namelen
        then (err efscorrupted, ctx')
        else if fine
        then unless_stopped ret c' rest
        else (err efscorrupted, c)

    unfoldable pub traverse_dirents : Buf → ℕ → ℕ → DirContext S → Ret × DirContext S
    traverse_dirents b next_nameoff maxsize ctx =
        traverse_loop (dirent_count next_nameoff) b next_nameoff maxsize 0 next_nameoff none ctx
