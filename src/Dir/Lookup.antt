-- ===== src/Dir/Lookup.antt =====
-- `find_target_dirent` on a block that `fill_dirblock` wrote.
use erofs_utils.Base.{
  ℕ, ◌+◌, ◌*◌, ◌/◌, ◌^◌, ◌≤◌, ◌<◌, ◌≡◌, refl, List, [], ◌∷◌, ◌++◌, ◌==◌, if◌then◌else◌, length,
  list_eq, All, arith, ◌&&◌,
}
use erofs_utils.Base.Memory.{Buf, le_bytes, At, At-append, le-le_bytes, memcmp_eq, strnlen-At}
use erofs_utils.Base.Words.{sub32}
use erofs_utils.Dir.{
  Dentry, dirent_size, dirent_bytes, fill_dirblock, de_nid_at, nameoff_at, ftype_at, name_length,
  Target, missing, at, find_loop, find_target_dirent,
}
use erofs_utils.Dir.Layout.{name_bytes, IsDentry, Holds, fill_dirblock-Holds}

-- The offset of the first dirent with a name, of dentries that stand from `p` on.
unfoldable pub first_named : List ℕ → ℕ → List Dentry → Target
first_named name p [] = missing
first_named name p (d ∷ ds) =
    let rest = first_named name (p + dirent_size) ds in if list_eq name d.name then at p else rest

pub header_lem :
    (b : Buf) (p q : ℕ) (d : Dentry)
    → d.nid < 2 ^ 64
    → q < 2 ^ 16
    → At b p (dirent_bytes d q)
    → (de_nid_at b p ≡ d.nid) × (nameoff_at b p ≡ q) × (ftype_at b p ≡ d.ftype)
unfolding de_nid_at nameoff_at ftype_at
header_lem b p q d hn hq a =
    let (nid_bytes, rest) =
      At-append b p (p + 8) (le_bytes 8 d.nid) (le_bytes 2 q ++ (d.ftype ∷ 0 ∷ [])) refl a in
    let (off_bytes, tail) =
      At-append b (p + 8) (p + 10) (le_bytes 2 q) (d.ftype ∷ 0 ∷ []) (omega arith) rest in
    (le-le_bytes 8 b p d.nid hn nid_bytes, le-le_bytes 2 b (p + 8) q hq off_bytes, tail.0)

memcmp_eq-list_eq :
    (b : Buf) (p : ℕ) (xs ys : List ℕ)
    → At b p ys
    → (length xs == length ys && memcmp_eq b p xs) ≡ list_eq xs ys
unfolding list_eq
memcmp_eq-list_eq b p [] [] a = refl
memcmp_eq-list_eq b p [] (y ∷ ys) a = ground arith
memcmp_eq-list_eq b p (x ∷ xs) [] a = ground arith
memcmp_eq-list_eq b p (x ∷ xs) (y ∷ ys) (e, a) = ground (arith, memcmp_eq-list_eq b (p + 1) xs ys a)

module _ (b : Buf) (size end : ℕ) (fits : size ≤ 2 ^ 16) where
  -- The readers' length of a name is the length of what was written.
  pub name_length-Holds :
      (d : Dentry) (ds : List Dentry) (p q : ℕ)
      → IsDentry d
      → All IsDentry ds
      → end ≡ p + dirent_size * length (d ∷ ds)
      → q + name_bytes (d ∷ ds) ≤ size
      → Holds b p q size (d ∷ ds)
      → name_length b end size p ≡ length d.name
  unfolding name_length
  name_length-Holds d [] p q v vs e h (hdr, nm, zeros) = ground (
    arith,
    header_lem b p q d v.nid_fits (omega arith) hdr,
    strnlen-At b q (sub32 size q) d.name nm v.name_no_nul (omega arith)
        (λ l. zeros (q + length d.name) (omega arith) (omega arith)),
  )
  name_length-Holds d (d' ∷ ds) p q v (v', vs) e h (hdr, nm, next) = ground (
    arith,
    header_lem b p q d v.nid_fits (omega arith) hdr,
    header_lem b (p + dirent_size) (q + length d.name) d' v'.nid_fits (omega arith) next.0,
  )

  find_loop-Holds :
      (name : List ℕ) (ds : List Dentry) (p q : ℕ)
      → All IsDentry ds
      → end ≡ p + dirent_size * length ds
      → q + name_bytes ds ≤ size
      → Holds b p q size ds
      → find_loop (length ds) b end size p name ≡ first_named name p ds
  unfolding find_loop first_named
  find_loop-Holds name [] p q vs e h a = refl
  find_loop-Holds name (d ∷ ds) p q (v, vs) e h a = ground (
    arith,
    header_lem b p q d v.nid_fits (omega arith) a.0,
    name_length-Holds d ds p q v vs e h a,
    memcmp_eq-list_eq b q name d.name a.1,
    find_loop-Holds name ds (p + dirent_size) (q + length d.name) vs (omega arith) (omega arith)
        a.2,
  )

-- The same of any block that holds the dentries.
pub find_target_dirent-Holds :
    (b : Buf) (name : List ℕ) (ds : List Dentry) (size : ℕ)
    → size ≤ 2 ^ 16
    → All IsDentry ds
    → dirent_size * length ds + name_bytes ds ≤ size
    → Holds b 0 (dirent_size * length ds) size ds
    → find_target_dirent b name (dirent_size * length ds) size ≡ first_named name 0 ds
unfolding find_target_dirent
find_target_dirent-Holds b name ds size fits vs h a =
    let count : (12 * length ds + 11) / 12 ≡ length ds = omega arith in
    rw count (
      find_loop-Holds b size (dirent_size * length ds) fits name ds 0 (dirent_size * length ds) vs
        (omega arith) h a)

-- In the block that mkfs writes for some dentries, `find_target_dirent` finds the dirent of the first
-- dentry with the name, and NULL if there is none: it never calls the block corrupted.
pub find_target_dirent-fill_dirblock :
    (name : List ℕ) (ds : List Dentry) (b : Buf) (size : ℕ)
    → size ≤ 2 ^ 16
    → All IsDentry ds
    → dirent_size * length ds + name_bytes ds ≤ size
    → find_target_dirent
        (fill_dirblock b size (dirent_size * length ds) ds)
        name
        (dirent_size * length ds)
        size
      ≡ first_named name 0 ds
find_target_dirent-fill_dirblock name ds b size fits vs h =
    find_target_dirent-Holds (fill_dirblock b size (dirent_size * length ds) ds) name ds size fits
      vs h (fill_dirblock-Holds size (omega arith) ds b h)
