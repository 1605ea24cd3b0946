-- ===== src/Namei/Blocks.antt =====
-- A lookup in a flat directory whose blocks hold dentries.
use erofs_utils.Base.{
  ℕ, zero, suc, ◌+◌, ◌-◌, ◌*◌, ◌^◌, ◌≤◌, ◌<◌, ◌≡◌, ◌⊎◌, refl, sym, ap, ◌∙◌, inl, inr, min, true,
  false, ◌||◌, Option, none, some, List, [], ◌∷◌, ltb, leb, ◌==◌, if◌then◌else◌, list_eq, All,
  length, Bool-cases, arith,
}
use erofs_utils.Base.Memory.{Buf, At-frame}
use erofs_utils.Base.Errno.{Result, done, fail, enoent}
use erofs_utils.Geometry.{SbInfo, blksiz}
use erofs_utils.Device.{Devices}
use erofs_utils.Device.Primary.{IsSingle}
use erofs_utils.Inode.{Inode, flat_plain, flat_inline, chunk_based}
use erofs_utils.Data.{pread}
use erofs_utils.Data.Flat.{IsFlat, flat_byte, read_raw_data-flat}
use erofs_utils.Dir.{Dentry, dirent_size, dirent_bytes, missing, at, de_nid_at, nameoff_at}
use erofs_utils.Dir.Layout.{name_bytes, IsDentry, Holds}
use erofs_utils.Dir.Lookup.{first_named, header_lem, find_target_dirent-Holds}
use erofs_utils.Inode.Disk.{read_inode_from_disk}
use erofs_utils.Namei.{new_inode, namei, namei_block, namei_loop}

-- The nid of the first dentry with a name.
unfoldable pub nid_of : List ℕ → List Dentry → Option ℕ
nid_of name [] = none
nid_of name (d ∷ ds) = let rest = nid_of name ds in if list_eq name d.name then some d.nid else rest

-- What a lookup finds: the first dentry of all blocks with the name.
unfoldable pub lookup_in : List ℕ → List (List Dentry) → Result ℕ
lookup_in name [] = fail enoent
lookup_in name (ds ∷ blocks) =
    let rest = lookup_in name blocks in elim (nid_of name ds) [ none ↦ rest | some nid ↦ done nid ]

first_named-nid_of :
    (b : Buf) (name : List ℕ) (ds : List Dentry) (p q size : ℕ)
    → All IsDentry ds
    → q + name_bytes ds ≤ size
    → size ≤ 2 ^ 16
    → Holds b p q size ds
    → ((first_named name p ds ≡ missing) × (nid_of name ds ≡ none))
      ⊎ ((de : ℕ) × (first_named name p ds ≡ at de) × (nid_of name ds ≡ some (de_nid_at b de)))
unfolding first_named nid_of
first_named-nid_of b name [] p q size v l s h = inl (refl, refl)
first_named-nid_of b name (d ∷ ds) p q size (v, vs) l s (hdr, nm, next) =
    elim (Bool-cases (list_eq name d.name)) [
      | inl e ↦
          let nid = (header_lem b p q d v.nid_fits (omega (arith, l, s, v.name_nonempty)) hdr).0 in
          inr (p, rw e refl, rw e (ap some (sym nid)))
      | inr e ↦ rw e (
          first_named-nid_of b name ds (p + dirent_size) (q + length d.name) size vs
            (omega (arith, l)) s next)
    ]

pub Holds-frame :
    (b c : Buf) (p q size : ℕ) (ds : List Dentry)
    → p + dirent_size * length ds ≤ size
    → q + name_bytes ds ≤ size
    → ((i : ℕ) → i < size → c i ≡ b i)
    → Holds b p q size ds
    → Holds c p q size ds
Holds-frame b c p q size [] l m same h = λ i lo hi. same i hi ∙ h i lo hi
Holds-frame b c p q size (d ∷ ds) l m same (hdr, nm, next) = (
  At-frame b c p (dirent_bytes d q)
      (λ i lo hi. let hi' : i < p + 12 = hi in same i (omega (arith, hi', l))) hdr,
  At-frame b c q d.name (λ i lo hi. same i (omega (arith, hi, m))) nm,
  Holds-frame b c (p + dirent_size) (q + length d.name) size ds (omega (arith, l))
      (omega (arith, m)) same next,
)

module _ (z_read_data : Inode → Buf → ℕ → ℕ → Option (Result Buf)) (sbi : SbInfo)
    (devices : Devices) (vi : Inode) (flat : IsFlat sbi vi) (single : IsSingle sbi devices)
    (block : blksiz sbi ≤ 2 ^ 16) where
  -- The file's blocks from `offset` to its end hold these dentries, some in each block.
  abbrev pub HoldBlocks : ℕ → List (List Dentry) → Type 0
  HoldBlocks offset [] = vi.i_size ≤ offset
  HoldBlocks offset (ds ∷ blocks) =
      let maxsize = min (vi.i_size - offset) (blksiz sbi) in
      (0 < length ds)
      × All IsDentry ds
      × (dirent_size * length ds + name_bytes ds ≤ maxsize)
      × Holds (λ i. flat_byte sbi devices vi (offset + i)) 0 (dirent_size * length ds) maxsize ds
      × HoldBlocks (offset + maxsize) blocks

  pub pread-flat :
      (b : Buf) (maxsize offset : ℕ)
      → offset + maxsize ≤ vi.i_size
      → (c : Buf) × (pread z_read_data sbi devices vi b maxsize offset ≡ some (done c))
        × ((i : ℕ) → i < maxsize → c i ≡ flat_byte sbi devices vi (offset + i))
  unfolding pread
  pread-flat b maxsize offset l =
      let (c, e, f) = read_raw_data-flat sbi devices vi flat single maxsize offset l b in
      let raw : (vi.datalayout == flat_plain
            || (vi.datalayout == flat_inline || vi.datalayout == chunk_based))
          ≡ true =
        ground (arith, flat.layout) in
      (c, rw raw e, λ i h. f.inside i (omega arith) (omega (arith, h)))

  -- The first dirent's name offset tells how many dirents there are, and passes the check.
  pub header-Holds :
      (b : Buf) (ds : List Dentry) (maxsize : ℕ)
      → 0 < length ds
      → All IsDentry ds
      → dirent_size * length ds + name_bytes ds ≤ maxsize
      → maxsize ≤ blksiz sbi
      → Holds b 0 (dirent_size * length ds) maxsize ds
      → (nameoff_at b 0 ≡ dirent_size * length ds)
        × ((ltb (dirent_size * length ds) dirent_size || leb (blksiz sbi) (dirent_size * length ds))
            ≡ false)
  header-Holds b [] maxsize n v l m h = absurd (omega (arith, n))
  header-Holds b (d ∷ ds) maxsize n (v, vs) l m h =
      let q = dirent_size * length (d ∷ ds) in
      (
        (header_lem b 0 q d v.nid_fits (omega (arith, l, m, block, v.name_nonempty)) h.0).1,
        ground (arith, l, m, v.name_nonempty),
      )

  namei_block-Holds :
      (b : Buf) (name : List ℕ) (ds : List Dentry) (maxsize : ℕ)
      → 0 < length ds
      → All IsDentry ds
      → dirent_size * length ds + name_bytes ds ≤ maxsize
      → maxsize ≤ blksiz sbi
      → Holds b 0 (dirent_size * length ds) maxsize ds
      → ((namei_block sbi b maxsize name ≡ none) × (nid_of name ds ≡ none))
        ⊎ ((nid : ℕ) × (namei_block sbi b maxsize name ≡ some (done nid))
            × (nid_of name ds ≡ some nid))
  unfolding namei_block
  namei_block-Holds b name ds maxsize n v l m h =
      let q = dirent_size * length ds in
      let (nameoff, range) = header-Holds b ds maxsize n v l m h in
      let find = find_target_dirent-Holds b name ds maxsize (omega (arith, m, block)) v l h in
      elim (first_named-nid_of b name ds 0 q maxsize v (omega (arith, l)) (omega (arith, m, block))
        h) [
          | inl (e, f) ↦ inl (ground (arith, nameoff, range, find, e), f)
          | inr (de, e, f) ↦ inr (de_nid_at b de, ground (arith, nameoff, range, find, e), f)
        ]

  namei_loop-lookup_in :
      (name : List ℕ) (fuel : ℕ) (b : Buf) (offset : ℕ) (blocks : List (List Dentry))
      → HoldBlocks offset blocks
      → vi.i_size - offset < fuel
      → namei_loop z_read_data sbi devices vi name fuel b offset ≡ some (lookup_in name blocks)
  unfolding namei_loop lookup_in
  namei_loop-lookup_in name zero b offset blocks h l = absurd (omega (arith, l))
  namei_loop-lookup_in name (suc fuel) b offset [] h l =
      let past : ltb offset vi.i_size ≡ false = ground (arith, h) in ground (arith, past)
  namei_loop-lookup_in name (suc fuel) b offset (ds ∷ blocks) (n, v, fit, h, more) l =
      let maxsize = min (vi.i_size - offset) (blksiz sbi) in
      let inside : ltb offset vi.i_size ≡ true = ground (arith, n, fit) in
      let (c, read, same) = pread-flat b maxsize offset (omega (arith, n, fit)) in
      let held =
        Holds-frame (λ i. flat_byte sbi devices vi (offset + i)) c 0 (dirent_size * length ds)
          maxsize ds (omega (arith, fit)) fit same h in
      let rest =
        namei_loop-lookup_in name fuel c (offset + maxsize) blocks more
          (omega (arith, l, n, fit)) in
      elim (namei_block-Holds c name ds maxsize n v fit (omega arith) held) [
        | inl (e, f) ↦ ground (arith, inside, read, e, f, rest)
        | inr (nid, e, f) ↦ ground (arith, inside, read, e, f)
      ]

  -- In a flat directory on an image of one device that reads without errors, with blocks of at most 65536
  -- bytes, whose blocks each hold some dentries as fill_dirblock lays them out: erofs_namei, which read
  -- the directory's inode, ends, reads no block as corrupted, and returns the nid of the first dentry with
  -- the name, -ENOENT if no block has one.
  pub namei-lookup_in :
      (makedev : ℕ → ℕ → ℕ) (nid : ℕ) (name : List ℕ) (b : Buf) (blocks : List (List Dentry))
      → read_inode_from_disk makedev sbi devices (new_inode nid) ≡ done vi
      → HoldBlocks 0 blocks
      → namei makedev z_read_data sbi devices b nid name ≡ some (lookup_in name blocks)
  unfolding namei
  namei-lookup_in makedev nid name b blocks e h =
      let loop = namei_loop-lookup_in name (vi.i_size + 1) b 0 blocks h (omega arith) in
      ground (arith, e, loop)
