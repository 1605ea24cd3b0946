-- ===== src/Iterate/Written.antt =====
-- erofs_iterate_dir on a flat directory whose blocks hold dentries in order.
use erofs_utils.Base.{
  ℕ, zero, suc, ◌+◌, ◌-◌, ◌*◌, ◌^◌, ◌≤◌, ◌<◌, ◌≡◌, ◌⊎◌, refl, ap, ◌∙◌, inl, inr, min, Bool, true,
  false, not, ◌&&◌, Option, some, List, [], ◌∷◌, ◌++◌, ltb, ◌==◌, if◌then◌else◌, All, length,
  Bool-cases, arith,
}
use erofs_utils.Base.Memory.{Buf}
use erofs_utils.Base.Errno.{Ret, ok, found, err, Result, efscorrupted}
use erofs_utils.Geometry.{SbInfo, blksiz}
use erofs_utils.Device.{Devices}
use erofs_utils.Device.Primary.{IsSingle}
use erofs_utils.Inode.{Inode}
use erofs_utils.Inode.Disk.{file_type, s_ifdir}
use erofs_utils.Data.Flat.{IsFlat, flat_byte}
use erofs_utils.Dir.{Dentry, ft_max, dirent_size}
use erofs_utils.Dir.Layout.{name_bytes, IsDentry, Holds}
use erofs_utils.Namei.Blocks.{HoldBlocks, pread-flat, header-Holds, Holds-frame}
use erofs_utils.Readdir.{DirContext, unless_stopped}
use erofs_utils.Readdir.Written.{Ascends, admit, present, visit, traverse_dirents-Holds}
use erofs_utils.Iterate.{left, iterate_block, iterate_loop, check_special, iterate_dir}

unfoldable pub concat : List (List Dentry) → List Dentry
concat [] = []
concat (ds ∷ blocks) = ds ++ concat blocks

-- Within each block the names ascend and the types are those of the format.
abbrev pub InOrder : List (List Dentry) → Type 0
InOrder [] = Unit {0}
InOrder (ds ∷ blocks) = All (λ d. d.ftype < ft_max) ds × Ascends ds × InOrder blocks

unless_stopped_assoc :
    {S : Type 0} (ret : Ret) (c : DirContext S) (r : Ret × DirContext S)
    (rest : DirContext S → Ret × DirContext S)
    → unless_stopped ret c (unless_stopped r.0 r.1 (rest r.1))
      ≡ (let all = unless_stopped ret c r in unless_stopped all.0 all.1 (rest all.1))
unless_stopped_assoc ok c r rest = refl
unless_stopped_assoc (found n) c r rest = refl
unless_stopped_assoc (err e) c r rest = refl

Ret-cases : (ret : Ret) → (ret ≡ ok) ⊎ ((n : ℕ) × (ret ≡ found n)) ⊎ ((e : ℕ) × (ret ≡ err e))
Ret-cases ok = inl refl
Ret-cases (found n) = inr (inl (n, refl))
Ret-cases (err e) = inr (inr (e, refl))

module _ {S : Type 0} (z_read_data : Inode → Buf → ℕ → ℕ → Option (Result Buf)) (sbi : SbInfo)
    (devices : Devices) (dir : Inode) (flat : IsFlat sbi dir) (single : IsSingle sbi devices)
    (block : blksiz sbi ≤ 2 ^ 16) (fsck : Bool) (cb : DirContext S → Ret × DirContext S) where
  visit-append :
      (ds es : List Dentry) (ctx : DirContext S)
      → visit fsck sbi.root_nid dir.nid cb (ds ++ es) ctx ≡ (
          let r = visit fsck sbi.root_nid dir.nid cb ds ctx in
          unless_stopped r.0 r.1 (visit fsck sbi.root_nid dir.nid cb es r.1))
  unfolding visit
  visit-append [] es ctx = refl
  visit-append (d ∷ ds) es ctx =
      let admitted = admit fsck sbi.root_nid dir.nid d (present d ctx) in
      let (ret, c) = cb admitted.1 in
      elim (Bool-cases admitted.0) [
        | inr e ↦ rw e refl
        | inl e ↦ rw e (
            ap (unless_stopped ret c) (visit-append ds es c)
            ∙ unless_stopped_assoc ret c (visit fsck sbi.root_nid dir.nid cb ds c)
                (visit fsck sbi.root_nid dir.nid cb es))
      ]

  iterate_block-Holds :
      (b : Buf) (ds : List Dentry) (maxsize : ℕ) (ctx : DirContext S)
      → 0 < length ds
      → All IsDentry ds
      → dirent_size * length ds + name_bytes ds ≤ maxsize
      → maxsize ≤ blksiz sbi
      → Holds b 0 (dirent_size * length ds) maxsize ds
      → All (λ d. d.ftype < ft_max) ds
      → Ascends ds
      → iterate_block z_read_data sbi devices dir fsck cb b maxsize ctx
        ≡ (let r = visit fsck sbi.root_nid dir.nid cb ds ctx in left r.0 r.1)
  unfolding iterate_block
  iterate_block-Holds b ds maxsize ctx n v l m h t asc =
      let (nameoff, range) =
        header-Holds z_read_data sbi devices dir flat single block b ds maxsize n v l m h in
      let traversed =
        traverse_dirents-Holds fsck sbi.root_nid dir.nid cb b ds maxsize ctx
          (omega (arith, m, block)) v t asc l h in
      rw (nameoff, range, traversed) refl

  iterate_loop-visit :
      (fuel : ℕ) (b : Buf) (pos : ℕ) (ctx : DirContext S) (blocks : List (List Dentry))
      → HoldBlocks z_read_data sbi devices dir flat single block pos blocks
      → InOrder blocks
      → dir.i_size - pos < fuel
      → iterate_loop z_read_data sbi devices dir fsck cb fuel b pos ctx
        ≡ some (let r = visit fsck sbi.root_nid dir.nid cb (concat blocks) ctx in left r.0 r.1)
  unfolding iterate_loop concat visit
  iterate_loop-visit zero b pos ctx blocks h o l = absurd (omega (arith, l))
  iterate_loop-visit (suc fuel) b pos ctx [] h o l =
      let past : ltb pos dir.i_size ≡ false = ground (arith, h) in ground (arith, past)
  iterate_loop-visit (suc fuel) b pos ctx (ds ∷ blocks) (n, v, fit, h, more) (t, asc, o) l =
      let maxsize = min (dir.i_size - pos) (blksiz sbi) in
      let inside : ltb pos dir.i_size ≡ true = ground (arith, n, fit) in
      let (c, read, same) =
        pread-flat z_read_data sbi devices dir flat single block b maxsize pos
          (omega (arith, n, fit)) in
      let held =
        Holds-frame (λ i. flat_byte sbi devices dir (pos + i)) c 0 (dirent_size * length ds) maxsize
          ds (omega (arith, fit)) fit same h in
      let here = iterate_block-Holds c ds maxsize ctx n v fit (omega arith) held t asc in
      let r = visit fsck sbi.root_nid dir.nid cb ds ctx in
      let rest =
        iterate_loop-visit fuel c (pos + maxsize) r.1 blocks more o (omega (arith, l, n, fit)) in
      let whole = visit-append ds (concat blocks) ctx in
      elim (Ret-cases r.0) [
        | inl e ↦ ground (arith, inside, read, here, rest, whole, e)
        | inr (inl (k, e)) ↦ ground (arith, inside, read, here, whole, e)
        | inr (inr (k, e)) ↦ ground (arith, inside, read, here, whole, e)
      ]

  -- In a flat directory on an image of one device that reads without errors, with blocks of at most 65536
  -- bytes, whose blocks each hold some dentries in ascending order with valid types as fill_dirblock lays
  -- them out: erofs_iterate_dir ends, finds no block corrupted, and calls the callback on the dentries of
  -- all blocks in turn, as `visit` does, until one is refused or the callback stops; with fsck it then
  -- answers -EFSCORRUPTED if "." or ".." did not come by, else what the visit answered.
  pub iterate_dir-visit :
      (b : Buf) (ctx : DirContext S) (blocks : List (List Dentry))
      → file_type dir.i_mode ≡ s_ifdir
      → HoldBlocks z_read_data sbi devices dir flat single block 0 blocks
      → InOrder blocks
      → iterate_dir z_read_data sbi devices dir fsck cb b ctx
        ≡ some (
            let r =
              visit fsck sbi.root_nid dir.nid cb
                (concat blocks)
                (record ctx { dot_found = false; dotdot_found = false }) in
            if fsck && not (r.1.dot_found && r.1.dotdot_found) then (err efscorrupted, r.1) else r)
  unfolding iterate_dir check_special
  iterate_dir-visit b ctx blocks mode h o =
      let start = record ctx { dot_found = false; dotdot_found = false } in
      let loop = iterate_loop-visit (dir.i_size + 1) b 0 start blocks h o (omega arith) in
      let is_dir : not (file_type dir.i_mode == s_ifdir) ≡ false = ground (arith, mode) in
      ground (arith, is_dir, loop)
