-- ===== src/Tests/Walk.antt =====
-- A directory of one entry besides the dots, with its data behind the inode, and a path.
use erofs_utils.Base.{
  ◌-◌, zero, suc, ◌<◌, ap, ◌∙◌, ltb, false, true, not, ◌&&◌, if◌then◌else◌, ℕ, ◌+◌, ◌≡◌, refl, none,
  some, Option, List, [], ◌∷◌, arith, inr,
}
use erofs_utils.Base.Memory.{At, At-store, Buf, store, memset, bytes_at, memcmp_eq_iff}
use erofs_utils.Base.Errno.{Result, done, Ret, ok, err, efscorrupted}
use erofs_utils.Geometry.{pos, blk_round_up, roundup, blkoff}
use erofs_utils.Device.{Vfile, Devices, dev_read, io_pread, pad, blit}
use erofs_utils.Device.Primary.{IsSingle}
use erofs_utils.Inode.{Inode, iloc, is_data_compressed}
use erofs_utils.Inode.Disk.{
  read_inode_from_disk, compact_bytes, bitrange, decode_inode, compact_fields, union_of,
  finish_inode, fill_inode, xattr_ibody_size, union_bytes, xattr_icount_of,
}
use erofs_utils.Data.{last_block, inode_end}
use erofs_utils.Data.Flat.{IsFlat, flat_byte}
use erofs_utils.Dir.{Dentry, dirent_bytes, fill_dirblock, fill_loop}
use erofs_utils.Dir.Layout.{Holds}
use erofs_utils.Namei.{new_inode, namei, link_path_walk}
use erofs_utils.Readdir.{DirContext}
use erofs_utils.Readdir.Written.{visit, strcmp}
use erofs_utils.Iterate.{iterate_dir}
use erofs_utils.Iterate.Written.{concat, iterate_dir-visit}
use erofs_utils.Dir.Pack.{write_dir_file, pack_loop, pack_rest}
use erofs_utils.Namei.Packed.{or_enoent, namei-write_dir_file}
use erofs_utils.Namei.Blocks.{nid_of, lookup_in, namei-lookup_in}
use erofs_utils.Namei.Paths.{descend, components, link_path_walk-descend}
use erofs_utils.Tests.Image.{sbi, zeros}

-- "//a/b" and a file system where every name is an entry of the next number
abbrev path : List ℕ
path = 47 ∷ 47 ∷ 97 ∷ 47 ∷ 98 ∷ []

abbrev lookup : ℕ → List ℕ → Option (Result ℕ)
lookup nid name = some (done (nid + 1))

link_path_walk-descend_example :
    link_path_walk lookup sbi path ≡ descend lookup 36 (components path)
link_path_walk-descend_example = link_path_walk-descend lookup sbi path

-- ".", ".." and "ab"
abbrev three : List Dentry
three =
    record { nid = 36; name = 46 ∷ []; ftype = 2 }
    ∷ record { nid = 36; name = 46 ∷ 46 ∷ []; ftype = 2 }
    ∷ record { nid = 51; name = 97 ∷ 98 ∷ []; ftype = 1 }
    ∷ []

-- a directory inode at 36 * 32 = 1152 with 41 bytes of inline data behind it
abbrev dir : Inode
dir = record (new_inode 36) {
  i_mode = 0x41ed;
  i_size = 41;
  i_ino = 2;
  i_nlink = 2;
  datalayout = 2;
  inode_isize = 32;
}

abbrev image : Vfile
image = record {
  size = 8192;
  byte =
      store (store zeros 1152 (compact_bytes dir)) 1184
        (bytes_at (fill_dirblock zeros 41 36 three) 0 41);
  error = λ offset len. none;
}

abbrev devices : Devices
devices id = image

abbrev makedev : ℕ → ℕ → ℕ
makedev major minor = 0

abbrev z_read_data : Inode → Buf → ℕ → ℕ → Option (Result Buf)
z_read_data vi b count offset = none

dir-IsFlat : IsFlat sbi dir
unfolding last_block inode_end iloc pos blk_round_up roundup
dir-IsFlat = record {
  layout = inr refl;
  size_fits = omega arith;
  size_64 = omega arith;
  data_fits = omega arith;
  inode_fits = omega arith;
  tail_inside = λ _. omega arith;
}

image-IsSingle : IsSingle sbi devices
image-IsSingle = record { no_extra = refl; no_error = λ offset len. refl }

abbrev file : Buf
file i = flat_byte sbi devices dir (0 + i)

file-Holds : Holds file 0 36 41 three
unfolding flat_byte inode_end iloc pos last_block blk_round_up roundup blkoff fill_dirblock
    fill_loop store memset compact_bytes union_bytes is_data_compressed xattr_icount_of
file-Holds = (
  memcmp_eq_iff file 0 (dirent_bytes record { nid = 36; name = 46 ∷ []; ftype = 2 } 36) refl,
  memcmp_eq_iff file 36 (46 ∷ []) refl,
  (
    memcmp_eq_iff file 12 (dirent_bytes record { nid = 36; name = 46 ∷ 46 ∷ []; ftype = 2 } 37)
        refl,
    memcmp_eq_iff file 37 (46 ∷ 46 ∷ []) refl,
    (
      memcmp_eq_iff file 24 (dirent_bytes record { nid = 51; name = 97 ∷ 98 ∷ []; ftype = 1 } 39)
          refl,
      memcmp_eq_iff file 39 (97 ∷ 98 ∷ []) refl,
      (λ i lo hi. absurd (omega (arith, lo, hi))),
    ),
  ),
)

read_dir : read_inode_from_disk makedev sbi devices (new_inode 36) ≡ done dir
unfolding read_inode_from_disk dev_read io_pread pad iloc pos bitrange decode_inode compact_fields
    union_of finish_inode fill_inode xattr_ibody_size is_data_compressed blit fill_dirblock
    fill_loop store memset compact_bytes union_bytes xattr_icount_of
read_dir = refl

namei-lookup_in_example :
    namei makedev z_read_data sbi devices zeros 36 (97 ∷ 98 ∷ [])
    ≡ some (lookup_in (97 ∷ 98 ∷ []) (three ∷ []))
namei-lookup_in_example =
    namei-lookup_in z_read_data sbi devices dir dir-IsFlat image-IsSingle (omega arith) makedev 36
      (97 ∷ 98 ∷ []) zeros (three ∷ []) read_dir
      (omega arith, omega arith, omega arith, file-Holds, omega arith)

-- a callback that counts the dirents
abbrev count : DirContext ℕ → Ret × DirContext ℕ
count ctx = (ok, record ctx { user = ctx.user + 1 })

abbrev start : DirContext ℕ
start = record {
  pnid = 36;
  valid_pnid = true;
  dotdot_found = true;
  dot_found = false;
  dname = [];
  de_nid = 0;
  de_namelen = 0;
  de_ftype = 0;
  dot_dotdot = false;
  user = 0;
}

iterate_dir-visit_example :
    iterate_dir z_read_data sbi devices dir true count zeros start
    ≡ some (
        let r =
          visit true 36 36 count
            (concat (three ∷ []))
            (record start { dot_found = false; dotdot_found = false }) in
        if true && not (r.1.dot_found && r.1.dotdot_found) then (err efscorrupted, r.1) else r)
unfolding strcmp
iterate_dir-visit_example =
    iterate_dir-visit z_read_data sbi devices dir dir-IsFlat image-IsSingle (omega arith) true count
      zeros start (three ∷ []) refl (omega arith, omega arith, omega arith, file-Holds, omega arith)
      (omega arith, (refl, (refl, tt)), tt)

bytes_at_lem : (c f : Buf) (p q n j : ℕ) → At c p (bytes_at f q n) → j < n → c (p + j) ≡ f (q + j)
bytes_at_lem c f p q zero j a h = absurd (omega (arith, h))
bytes_at_lem c f p q (suc n) zero (e, a) h =
    ap c {x = p + 0} {y = p} (omega arith) ∙ e ∙ ap f {x = q} {y = q + 0} (omega arith)
bytes_at_lem c f p q (suc n) (suc j) (e, a) h =
    ap c {x = p + suc j} {y = p + 1 + j} (omega arith)
    ∙ bytes_at_lem c f (p + 1) (q + 1) n j a (omega (arith, h))
    ∙ ap f {x = q + 1 + j} {y = q + suc j} (omega arith)

flat_byte_lem : (j : ℕ) → j < 41 → flat_byte sbi devices dir (0 + j) ≡ image.byte (1184 + j)
unfolding flat_byte inode_end iloc pos last_block blk_round_up roundup
flat_byte_lem j h =
    let e : 1184 + (0 + j - 0) ≡ 1184 + j = omega arith in
    let inside : ltb (1184 + (0 + j - 0)) 8192 ≡ true = ground (arith, h) in
    let body : ltb (0 + j) 0 ≡ false = ground arith in rw (body, inside) (ap image.byte e)

stored : (j : ℕ) → j < 41 → flat_byte sbi devices dir (0 + j) ≡ fill_dirblock zeros 41 36 three j
stored j h =
    let f = fill_dirblock zeros 41 36 three in
    let there : image.byte (1184 + j) ≡ f j =
      bytes_at_lem image.byte f 1184 0 41 j
        (At-store (store zeros 1152 (compact_bytes dir)) 1184 (bytes_at f 0 41)) h
      ∙ ap f {x = 0 + j} {y = j} (omega arith) in
    flat_byte_lem j h ∙ there

namei-write_dir_file_example :
    namei makedev z_read_data sbi devices zeros 36 (97 ∷ 98 ∷ [])
    ≡ some (or_enoent (nid_of (97 ∷ 98 ∷ []) three))
unfolding write_dir_file pack_loop pack_rest
namei-write_dir_file_example =
    namei-write_dir_file z_read_data sbi devices dir dir-IsFlat image-IsSingle (omega arith) zeros
      makedev 36 (97 ∷ 98 ∷ []) zeros three read_dir (omega arith) (omega arith) (refl, stored)
