-- ===== src/Dir.antt =====
-- Directory blocks: how mkfs writes them (lib/inode.c, fill_dirblock), how a directory is traversed
-- (lib/dir.c, traverse_dirents) and searched (lib/namei.c, find_target_dirent).
pub mod Layout
pub mod Lookup
pub mod Pack
use Prim.Native.Nat.{Ordering}
use erofs_utils.Base.{
  ℕ, zero, suc, ◌+◌, ◌-◌, ◌*◌, ◌/◌, ◌%◌, ◌^◌, ◌≤◌, ◌<◌, min, ◌≡◌, Bool, true, false, not, ◌&&◌,
  ◌||◌, Option, none, some, List, [], ◌∷◌, ◌++◌, ltb, leb, ◌==◌, if◌then◌else◌, length,
}
use erofs_utils.Base.Memory.{
  Buf, store, memset, le_bytes, le, strnlen, strncmp, bytes_at, memcmp_eq,
}
use erofs_utils.Base.Words.{add32, sub32}
use erofs_utils.Base.Errno.{Ret, ok, found, err, efscorrupted}

-- `struct erofs_dentry` of mkfs, as far as a block holds it; the name is without its NUL.
pub record Dentry : Type 0 where
  pub nid : ℕ
  pub name : List ℕ
  pub ftype : ℕ

abbrev pub dirent_size : ℕ
dirent_size = 12

abbrev pub name_max : ℕ
name_max = 255

abbrev pub ft_max : ℕ
ft_max = 8

-- `struct erofs_dirent`: nid, nameoff, file_type, reserved. C fills the member that the initialiser
-- leaves out with 0, and `cpu_to_le16` cuts the offset to 16 bits.
abbrev pub dirent_bytes : Dentry → ℕ → List ℕ
dirent_bytes d q = le_bytes 8 d.nid ++ (le_bytes 2 q ++ (d.ftype ∷ 0 ∷ []))

unfoldable pub fill_loop : List Dentry → Buf → ℕ → ℕ → Buf × ℕ
fill_loop [] b p q = (b, q)
fill_loop (d ∷ ds) b p q =
    fill_loop ds (store (store b p (dirent_bytes d q)) q d.name) (p + dirent_size)
      (q + length d.name)

-- The list is the dentries from `head` up to `end`.
unfoldable pub fill_dirblock : Buf → ℕ → ℕ → List Dentry → Buf
fill_dirblock b size q ds = let (b', q') = fill_loop ds b 0 q in memset b' q' 0 (sub32 size q')

-- `le64_to_cpu(de->nid)`, `le16_to_cpu(de->nameoff)`, `de->file_type` of the dirent at `de`
unfoldable pub de_nid_at : Buf → ℕ → ℕ
de_nid_at b de = le 8 b de

unfoldable pub nameoff_at : Buf → ℕ → ℕ
nameoff_at b de = le 2 b (de + 8)

unfoldable pub ftype_at : Buf → ℕ → ℕ
ftype_at b de = b (de + 10)

-- How both readers find the length of a name: up to the next name, or for the last dirent up to a NUL.
unfoldable pub name_length : Buf → ℕ → ℕ → ℕ → ℕ
name_length b end maxsize de =
    let nameoff = nameoff_at b de in
    if leb end (de + dirent_size)
    then strnlen b nameoff (sub32 maxsize nameoff)
    else sub32 (nameoff_at b (de + dirent_size)) nameoff

-- The dirents with `de < end` that a pointer 12 * i steps through.
abbrev pub dirent_count : ℕ → ℕ
dirent_count end = (end + 11) / dirent_size

-- What find_target_dirent returns: NULL, an error pointer, or the dirent at an offset.
pub data Target : Type 0 where
  missing : Target
  corrupted : Target
  at : ℕ → Target

-- The first number counts the dirents from `de` on, so that `de < end` while it is not 0.
unfoldable pub find_loop : ℕ → Buf → ℕ → ℕ → ℕ → List ℕ → Target
find_loop zero b end maxsize de name = missing
find_loop (suc k) b end maxsize de name =
    let rest = find_loop k b end maxsize (de + dirent_size) name in
    let de_namelen = name_length b end maxsize de in
    if ltb maxsize (add32 (nameoff_at b de) de_namelen) || ltb name_max de_namelen
    then corrupted
    else if length name == de_namelen && memcmp_eq b (nameoff_at b de) name
    then at de
    else rest

unfoldable pub find_target_dirent : Buf → List ℕ → ℕ → ℕ → Target
find_target_dirent b name nameoff maxsize =
    find_loop (dirent_count nameoff) b nameoff maxsize 0 name
