-- ===== src/Readdir/Sound.antt =====
-- What a traversal that ends well says of a block of any bytes.
use erofs_utils.Base.{
  ℕ, zero, suc, ◌+◌, ◌^◌, ◌≤◌, ◌<◌, ◌≡◌, ◌≢◌, refl, List, if◌then◌else◌, arith, Bool, true, false,
  Option, none, some,
}
use erofs_utils.Base.Memory.{Buf, IsBytes}
use erofs_utils.Base.Words.{add32}
use erofs_utils.Base.Errno.{Ret, ok, found, err, efscorrupted}
use erofs_utils.Dir.{
  dirent_size, name_max, nameoff_at, name_length, dirent_count, corrupted, find_loop,
  find_target_dirent,
}
use erofs_utils.Readdir.{DirContext, bogus_dirent, unless_stopped, traverse_loop, traverse_dirents}

-- The names lie one behind the other from `next` on, each of 1 to 255 bytes and inside the block.
abbrev pub Tiles : ℕ → Buf → ℕ → ℕ → ℕ → ℕ → Type 0
Tiles zero b end maxsize de next = Unit {0}
Tiles (suc k) b end maxsize de next =
    (nameoff_at b de ≡ next)
    × (0 < name_length b end maxsize de)
    × (name_length b end maxsize de ≤ name_max)
    × (next + name_length b end maxsize de ≤ maxsize)
    × Tiles k b end maxsize (de + dirent_size) (next + name_length b end maxsize de)

nameoff_at-lt : (b : Buf) (de : ℕ) → IsBytes b → nameoff_at b de < 2 ^ 16
unfolding nameoff_at
nameoff_at-lt b de h = omega (arith, h (de + 8), h (de + 8 + 1))

not_bogus :
    (fsck : Bool) (b : Buf) (maxsize next de len : ℕ) (prev : Option (ℕ × ℕ))
    → IsBytes b
    → bogus_dirent fsck b maxsize next prev de len ≡ false
    → (nameoff_at b de ≡ next) × (0 < len) × (len ≤ name_max) × (next + len ≤ maxsize)
unfolding bogus_dirent
not_bogus fsck b maxsize next de len prev h e = ground (arith, nameoff_at-lt b de h)

ended_well :
    {S : Type 0} (bad fine : Bool) (ret : Ret) (x y c : S) (rest : Ret × S)
    → (if bad
        then (err efscorrupted, x)
        else if fine
        then unless_stopped ret c rest
        else (err efscorrupted, y)).0
      ≡ ok
    → (bad ≡ false) × (rest.0 ≡ ok)
ended_well true fine ret x y c rest e = cc
ended_well false false ret x y c rest e = cc
ended_well false true ok x y c rest e = (refl, e)
ended_well false true (found n) x y c rest e = cc
ended_well false true (err n) x y c rest e = cc

module _ {S : Type 0} (fsck : Bool) (root_nid dir_nid : ℕ)
    (cb : DirContext S → Ret × DirContext S) where
  -- One dirent: it is not bogus, and the rest ends well too.
  traverse_step :
      (k : ℕ) (b : Buf) (end maxsize de next : ℕ) (prev : Option (ℕ × ℕ)) (ctx : DirContext S)
      → (traverse_loop fsck root_nid dir_nid cb (suc k) b end maxsize de next prev ctx).0 ≡ ok
      → let len = name_length b end maxsize de in
        (bogus_dirent fsck b maxsize next prev de len ≡ false)
        × (c : DirContext S) × ((traverse_loop fsck root_nid dir_nid cb k b end maxsize
              (de + dirent_size)
              (add32 next len)
              (some (nameoff_at b de, len))
              c).0
            ≡ ok)
  unfolding traverse_loop
  traverse_step k b end maxsize de next prev ctx e =
      let (fine, rest) = ended_well _ _ _ _ _ _ _ e in (fine, _, rest)

  traverse_loop-Tiles :
      (k : ℕ) (b : Buf) (end maxsize de next : ℕ) (prev : Option (ℕ × ℕ)) (ctx : DirContext S)
      → IsBytes b
      → (traverse_loop fsck root_nid dir_nid cb k b end maxsize de next prev ctx).0 ≡ ok
      → Tiles k b end maxsize de next
  traverse_loop-Tiles zero b end maxsize de next prev ctx h e = tt
  traverse_loop-Tiles (suc k) b end maxsize de next prev ctx h e =
      let (fine, c, rest) = traverse_step k b end maxsize de next prev ctx e in
      let len = name_length b end maxsize de in
      let (off, pos, short, inside) = not_bogus fsck b maxsize next de len prev h fine in
      let wrap : add32 next len ≡ next + len = omega (arith, nameoff_at-lt b de h) in
      (
        off,
        pos,
        short,
        inside,
        rw wrap at (
            traverse_loop-Tiles k b end maxsize (de + dirent_size) (add32 next len)
              (some (nameoff_at b de, len)) c h rest),
      )

-- A traversal that ends well has met names of 1 to 255 bytes, one behind the other from the offset of
-- the first on, all inside the `maxsize` bytes of the block.
pub traverse_dirents-Tiles :
    {S : Type 0} (fsck : Bool) (root_nid dir_nid : ℕ) (cb : DirContext S → Ret × DirContext S)
    (b : Buf) (nameoff maxsize : ℕ) (ctx : DirContext S)
    → IsBytes b
    → (traverse_dirents fsck root_nid dir_nid cb b nameoff maxsize ctx).0 ≡ ok
    → Tiles (dirent_count nameoff) b nameoff maxsize 0 nameoff
unfolding traverse_dirents
traverse_dirents-Tiles fsck root_nid dir_nid cb b nameoff maxsize ctx h e =
    traverse_loop-Tiles fsck root_nid dir_nid cb (dirent_count nameoff) b nameoff maxsize 0 nameoff
      none ctx h e

find_loop-ne-corrupted :
    (k : ℕ) (b : Buf) (end maxsize de next : ℕ) (name : List ℕ)
    → IsBytes b
    → Tiles k b end maxsize de next
    → find_loop k b end maxsize de name ≢ corrupted
unfolding find_loop
find_loop-ne-corrupted zero b end maxsize de next name h t e = cc
find_loop-ne-corrupted (suc k) b end maxsize de next name h t e = ground (
  arith,
  nameoff_at-lt b de h,
  find_loop-ne-corrupted k b end maxsize (de + dirent_size) (next + name_length b end maxsize de)
      name h t.4,
)

-- After a traversal that ends well, no lookup in the same block reports it as corrupted.
pub find_target_dirent-traverse_dirents :
    {S : Type 0} (fsck : Bool) (root_nid dir_nid : ℕ) (cb : DirContext S → Ret × DirContext S)
    (b : Buf) (nameoff maxsize : ℕ) (ctx : DirContext S) (name : List ℕ)
    → IsBytes b
    → (traverse_dirents fsck root_nid dir_nid cb b nameoff maxsize ctx).0 ≡ ok
    → find_target_dirent b name nameoff maxsize ≢ corrupted
unfolding find_target_dirent
find_target_dirent-traverse_dirents fsck root_nid dir_nid cb b nameoff maxsize ctx name h e =
    find_loop-ne-corrupted (dirent_count nameoff) b nameoff maxsize 0 nameoff name h
      (traverse_dirents-Tiles fsck root_nid dir_nid cb b nameoff maxsize ctx h e)
