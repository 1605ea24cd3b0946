-- ===== src/Readdir/Written.antt =====
-- Traversal of a block that `fill_dirblock` wrote: the callback sees the dentries, in order.
use Prim.Native.Nat.{Ordering, compare}
use erofs_utils.Base.{
  ℕ, zero, suc, ◌+◌, ◌*◌, ◌/◌, ◌^◌, ◌≤◌, ◌<◌, min, ◌≡◌, refl, List, [], ◌∷◌, ◌==◌, if◌then◌else◌,
  length, All, arith, Bool, true, false, not, ◌&&◌, Option, none, some,
}
use erofs_utils.Base.Memory.{Buf, At, strncmp, At-bytes_at}
use erofs_utils.Base.Words.{add32}
use erofs_utils.Base.Errno.{Ret, ok, err, efscorrupted}
use erofs_utils.Dir.{Dentry, dirent_size, dirent_bytes, ft_max, fill_dirblock, de_nid_at}
use erofs_utils.Dir.Layout.{name_bytes, IsDentry, Holds, fill_dirblock-Holds}
use erofs_utils.Dir.Lookup.{header_lem, name_length-Holds}
use erofs_utils.Readdir.{
  DirContext, validate_filename, is_dot_dotdot_len, not_after, wrong_order, bogus_dirent,
  unless_stopped, see_dotdot, see_dot, see_name, fill_context, traverse_loop, traverse_dirents,
}

-- strcmp on strings without their NUL, by which mkfs sorts a directory
unfoldable pub strcmp : List ℕ → List ℕ → Ordering
strcmp [] [] = Ordering.eq
strcmp [] (y ∷ ys) = Ordering.lt
strcmp (x ∷ xs) [] = Ordering.gt
strcmp (x ∷ xs) (y ∷ ys) = elim (compare x y) [
  | Ordering.lt ↦ Ordering.lt
  | Ordering.gt ↦ Ordering.gt
  | Ordering.eq ↦ strcmp xs ys
]

not_after-strncmp :
    (b : Buf) (p q n : ℕ) (xs ys : List ℕ)
    → n ≡ min (length xs) (length ys)
    → All (λ x. 0 < x) xs
    → At b p xs
    → At b q ys
    → strcmp xs ys ≡ Ordering.lt
    → not_after (strncmp b p q n) (length xs) (length ys) ≡ false
unfolding strncmp strcmp
not_after-strncmp b p q zero [] [] e nz a a' h = cc
not_after-strncmp b p q (suc n) [] ys e nz a a' h = absurd (omega arith)
not_after-strncmp b p q zero [] (y ∷ ys) e nz a a' h = ground arith
not_after-strncmp b p q n (x ∷ xs) [] e nz a a' h = cc
not_after-strncmp b p q zero (x ∷ xs) (y ∷ ys) e nz a a' h = absurd (omega arith)
not_after-strncmp b p q (suc n) (x ∷ xs) (y ∷ ys) e (nx, nz) (ax, a) (ay, a') h =
    ground (arith, not_after-strncmp b (p + 1) (q + 1) n xs ys (omega arith) nz a a')

-- "." or ".."
unfoldable pub is_dots : List ℕ → Bool
is_dots [] = false
is_dots (a ∷ []) = a == b'.'
is_dots (a ∷ c ∷ []) = a == b'.' && c == b'.'
is_dots (a ∷ c ∷ d ∷ rest) = false

unfoldable pub no_slash : List ℕ → Bool
no_slash [] = true
no_slash (x ∷ xs) = if x == b'/' then false else no_slash xs

is_dot_dotdot_len-At :
    (b : Buf) (p : ℕ) (name : List ℕ)
    → 0 < length name
    → At b p name
    → is_dot_dotdot_len b p (length name) ≡ is_dots name
unfolding is_dot_dotdot_len is_dots
is_dot_dotdot_len-At b p [] h a = absurd (omega arith)
is_dot_dotdot_len-At b p (x ∷ []) h a = ground arith
is_dot_dotdot_len-At b p (x ∷ y ∷ []) h a = ground arith
is_dot_dotdot_len-At b p (x ∷ y ∷ z ∷ r) h a = ground arith

validate_filename-At :
    (b : Buf) (p : ℕ) (name : List ℕ)
    → All (λ x. 0 < x) name
    → At b p name
    → validate_filename b p (length name) ≡ no_slash name
unfolding validate_filename no_slash
validate_filename-At b p [] nz a = refl
validate_filename-At b p (x ∷ xs) (nx, nz) (ax, a) =
    ground (arith, validate_filename-At b (p + 1) xs nz a)

-- The names stand in strictly ascending order.
abbrev pub Ascends : List Dentry → Type 0
Ascends [] = Unit {0}
Ascends (d ∷ []) = Unit {0}
Ascends (d ∷ d' ∷ ds) = (strcmp d.name d'.name ≡ Ordering.lt) × Ascends (d' ∷ ds)

-- The next name does not come out as misplaced.
abbrev Placed : Buf → Option (ℕ × ℕ) → ℕ → List Dentry → Type 0
Placed b prev q [] = Unit {0}
Placed b prev q (d ∷ ds) = wrong_order b prev q (length d.name) ≡ false

-- what the callback is shown of a dentry
unfoldable pub present : {S : Type 0} → Dentry → DirContext S → DirContext S
present d ctx = record ctx {
  dname = d.name;
  de_nid = d.nid;
  de_namelen = length d.name;
  de_ftype = d.ftype;
  dot_dotdot = is_dots d.name;
}

module _ {S : Type 0} (fsck : Bool) (root_nid dir_nid : ℕ) where
  unfoldable pub admit : Dentry → DirContext S → Bool × DirContext S
  admit d ctx =
      if is_dots d.name
      then if length d.name == 2
        then see_dotdot fsck root_nid dir_nid ctx
        else if length d.name == 1
        then see_dot fsck root_nid dir_nid ctx
        else (true, ctx)
      else (not (fsck && not (no_slash d.name)), ctx)

  see_name-At :
      (b : Buf) (q : ℕ) (d : Dentry) (ctx : DirContext S)
      → IsDentry d
      → At b q d.name
      → see_name fsck root_nid dir_nid b q (present d ctx) ≡ admit d (present d ctx)
  unfolding see_name admit present
  see_name-At b q d ctx v a = rw (validate_filename-At b q d.name v.name_no_nul a)

  module _ (cb : DirContext S → Ret × DirContext S) where
    -- The callback on each dentry in turn, until one is refused or the callback stops.
    unfoldable pub visit : List Dentry → DirContext S → Ret × DirContext S
    visit [] ctx = (ok, ctx)
    visit (d ∷ ds) ctx =
        let (fine, c) = admit d (present d ctx) in
        let (ret, c') = cb c in
        let rest = visit ds c' in if fine then unless_stopped ret c' rest else (err efscorrupted, c)

fill_context-At :
    {S : Type 0} (b : Buf) (p q : ℕ) (d : Dentry) (ctx : DirContext S)
    → IsDentry d
    → q < 2 ^ 16
    → At b p (dirent_bytes d q)
    → At b q d.name
    → fill_context b p (length d.name) (record ctx { de_nid = de_nid_at b p }) ≡ present d ctx
unfolding fill_context present
fill_context-At b p q d ctx v h hdr a = ground (
  arith,
  header_lem b p q d v.nid_fits h hdr,
  At-bytes_at b q d.name a,
  is_dot_dotdot_len-At b q d.name v.name_nonempty a,
)

bogus_dirent-At :
    (fsck : Bool) (b : Buf) (size p q : ℕ) (prev : Option (ℕ × ℕ)) (d : Dentry)
    → IsDentry d
    → size ≤ 2 ^ 16
    → q + length d.name ≤ size
    → d.ftype < ft_max
    → wrong_order b prev q (length d.name) ≡ false
    → At b p (dirent_bytes d q)
    → bogus_dirent fsck b size q prev p (length d.name) ≡ false
unfolding bogus_dirent
bogus_dirent-At fsck b size p q prev d v fits h t w a =
    ground (arith, header_lem b p q d v.nid_fits (omega arith) a)

Placed-after :
    (b : Buf) (q : ℕ) (d : Dentry) (ds : List Dentry)
    → IsDentry d
    → At b q d.name
    → Ascends (d ∷ ds)
    → (p size : ℕ) → Holds b p (q + length d.name) size ds
    → Placed b (some (q, length d.name)) (q + length d.name) ds
unfolding wrong_order
Placed-after b q d [] v a asc p size h = tt
Placed-after b q d (d' ∷ ds) v a asc p size h =
    not_after-strncmp b q (q + length d.name) _ d.name d'.name refl v.name_no_nul a h.1 asc.0

Ascends-tail : (d : Dentry) (ds : List Dentry) → Ascends (d ∷ ds) → Ascends ds
Ascends-tail d [] h = tt
Ascends-tail d (d' ∷ ds) h = h.1

module _ {S : Type 0} (fsck : Bool) (root_nid dir_nid : ℕ)
    (cb : DirContext S → Ret × DirContext S) where
  module _ (b : Buf) (size end : ℕ) (fits : size ≤ 2 ^ 16) where
    traverse_loop-Holds :
        (ds : List Dentry) (p q : ℕ) (prev : Option (ℕ × ℕ)) (ctx : DirContext S)
        → All IsDentry ds
        → All (λ d. d.ftype < ft_max) ds
        → Ascends ds
        → Placed b prev q ds
        → end ≡ p + dirent_size * length ds
        → q + name_bytes ds ≤ size
        → Holds b p q size ds
        → traverse_loop fsck root_nid dir_nid cb (length ds) b end size p q prev ctx
          ≡ visit fsck root_nid dir_nid cb ds ctx
    unfolding traverse_loop visit
    traverse_loop-Holds [] p q prev ctx vs ts asc pl e h a = refl
    traverse_loop-Holds (d ∷ ds) p q prev ctx (v, vs) (t, ts) asc pl e h a = rw (
      name_length-Holds b size end fits d ds p q v vs e h a,
      bogus_dirent-At fsck b size p q prev d v fits (omega arith) t pl a.0,
      fill_context-At b p q d ctx v (omega arith) a.0 a.1,
      (header_lem b p q d v.nid_fits (omega arith) a.0).1,
      see_name-At fsck root_nid dir_nid b q d ctx v a.1,
      wrap,
      traverse_loop-Holds ds (p + dirent_size) (q + length d.name) (some (q, length d.name))
          (cb (admit fsck root_nid dir_nid d (present d ctx)).1).1 vs ts (Ascends-tail d ds asc)
          (Placed-after b q d ds v a.1 asc (p + dirent_size) size a.2) (omega arith) (omega arith)
          a.2,
    )
      where
        wrap : add32 q (length d.name) ≡ q + length d.name
        wrap = omega arith

Placed-none : (b : Buf) (q : ℕ) (ds : List Dentry) → Placed b none q ds
unfolding wrong_order
Placed-none b q [] = tt
Placed-none b q (d ∷ ds) = refl

-- The same of any block that holds the dentries.
pub traverse_dirents-Holds :
    {S : Type 0} (fsck : Bool) (root_nid dir_nid : ℕ) (cb : DirContext S → Ret × DirContext S)
    (b : Buf) (ds : List Dentry) (size : ℕ) (ctx : DirContext S)
    → size ≤ 2 ^ 16
    → All IsDentry ds
    → All (λ d. d.ftype < ft_max) ds
    → Ascends ds
    → dirent_size * length ds + name_bytes ds ≤ size
    → Holds b 0 (dirent_size * length ds) size ds
    → traverse_dirents fsck root_nid dir_nid cb b (dirent_size * length ds) size ctx
      ≡ visit fsck root_nid dir_nid cb ds ctx
unfolding traverse_dirents
traverse_dirents-Holds fsck root_nid dir_nid cb b ds size ctx fits vs ts asc h a =
    let count : (12 * length ds + 11) / 12 ≡ length ds = omega arith in
    rw count (
      traverse_loop-Holds fsck root_nid dir_nid cb b size (dirent_size * length ds) fits ds 0
        (dirent_size * length ds) none ctx vs ts asc (Placed-none b (dirent_size * length ds) ds)
        (omega arith) h a)

-- On a block that mkfs writes for dentries in ascending order, traversal calls the callback on each
-- dentry in turn as `visit` does: no dirent comes out as bogus, whether or not fsck checks them.
pub traverse_dirents-fill_dirblock :
    {S : Type 0} (fsck : Bool) (root_nid dir_nid : ℕ) (cb : DirContext S → Ret × DirContext S)
    (ds : List Dentry) (b : Buf) (size : ℕ) (ctx : DirContext S)
    → size ≤ 2 ^ 16
    → All IsDentry ds
    → All (λ d. d.ftype < ft_max) ds
    → Ascends ds
    → dirent_size * length ds + name_bytes ds ≤ size
    → traverse_dirents fsck root_nid dir_nid cb
        (fill_dirblock b size (dirent_size * length ds) ds)
        (dirent_size * length ds)
        size
        ctx
      ≡ visit fsck root_nid dir_nid cb ds ctx
traverse_dirents-fill_dirblock fsck root_nid dir_nid cb ds b size ctx fits vs ts asc h =
    traverse_dirents-Holds fsck root_nid dir_nid cb
      (fill_dirblock b size (dirent_size * length ds) ds) ds size ctx fits vs ts asc h
      (fill_dirblock-Holds size (omega arith) ds b h)
