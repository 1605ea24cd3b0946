-- ===== src/Namei/Packed.antt =====
-- A lookup in a directory as mkfs packs and writes it.
use erofs_utils.Base.{
  ℕ, ◌+◌, ◌-◌, ◌*◌, ◌^◌, ◌≤◌, ◌<◌, ◌≡◌, refl, ap, ◌∙◌, min, Option, none, some, List, [], ◌∷◌, ◌++◌,
  list_eq, All, length, Bool-cases, Option-cases, inl, inr, arith,
}
use mathlib.Core.List.{append_assoc}
use erofs_utils.Base.Memory.{Buf}
use erofs_utils.Base.Errno.{Result, done, fail, enoent}
use erofs_utils.Geometry.{SbInfo, blksiz}
use erofs_utils.Device.{Devices}
use erofs_utils.Device.Primary.{IsSingle}
use erofs_utils.Inode.{Inode}
use erofs_utils.Inode.Disk.{read_inode_from_disk}
use erofs_utils.Data.Flat.{IsFlat, flat_byte}
use erofs_utils.Dir.{Dentry, dirent_size, fill_dirblock}
use erofs_utils.Dir.Layout.{IsDentry, Holds, fill_dirblock-Holds}
use erofs_utils.Dir.Pack.{Block, write_dir_file}
use erofs_utils.Dir.Pack.Split.{IsBlock, written_dentries, packed_dentries, write_dir_file-IsPacked}
use erofs_utils.Namei.{new_inode, namei}
use erofs_utils.Namei.Blocks.{nid_of, lookup_in, HoldBlocks, Holds-frame, namei-lookup_in}

-- the dentries of each block, the tail last
unfoldable pub block_lists : List Block → Option Block → List (List Dentry)
block_lists [] none = []
block_lists [] (some k) = k.dentries ∷ []
block_lists (k ∷ ks) tail = k.dentries ∷ block_lists ks tail

-- the nid found, or -ENOENT
abbrev pub or_enoent : Option ℕ → Result ℕ
or_enoent none = fail enoent
or_enoent (some nid) = done nid

nid_of-append :
    (name : List ℕ) (ds es : List Dentry)
    → nid_of name (ds ++ es) ≡ elim (nid_of name ds) [ none ↦ nid_of name es | some nid ↦ some nid ]
unfolding nid_of
nid_of-append name [] es = refl
nid_of-append name (d ∷ ds) es = elim (Bool-cases (list_eq name d.name)) [
  | inl e ↦ ground (arith, e)
  | inr e ↦ ground (arith, e, nid_of-append name ds es)
]

lookup_in-nid_of :
    (name : List ℕ) (ks : List Block) (tail : Option Block)
    → lookup_in name (block_lists ks tail)
      ≡ or_enoent
          (nid_of name (written_dentries ks ++ elim tail [ none ↦ [] | some k ↦ k.dentries ]))
unfolding lookup_in block_lists written_dentries nid_of
lookup_in-nid_of name [] none = refl
lookup_in-nid_of name [] (some k) = elim (Option-cases (nid_of name k.dentries)) [
  | inl e ↦ rw (lookup_in, e) refl
  | inr (nid, e) ↦ rw (lookup_in, e) refl
]
lookup_in-nid_of name (k ∷ ks) tail =
    let last : List Dentry = elim tail [ none ↦ [] | some t ↦ t.dentries ] in
    let split =
      ap (nid_of name) (append_assoc k.dentries (written_dentries ks) last)
      ∙ nid_of-append name k.dentries (written_dentries ks ++ last) in
    let rest = lookup_in-nid_of name ks tail in
    elim (Option-cases (nid_of name k.dentries)) [
      | inl e ↦ ground (arith, split, e, rest)
      | inr (nid, e) ↦ ground (arith, split, e)
    ]

All-append : (ds es : List Dentry) → All IsDentry (ds ++ es) → All IsDentry ds × All IsDentry es
All-append [] es v = (tt, v)
All-append (d ∷ ds) es (v, vs) = let (l, r) = All-append ds es vs in ((v, l), r)

module _ (z_read_data : Inode → Buf → ℕ → ℕ → Option (Result Buf)) (sbi : SbInfo)
    (devices : Devices) (vi : Inode) (flat : IsFlat sbi vi) (single : IsSingle sbi devices)
    (block : blksiz sbi ≤ 2 ^ 16) (stale : Buf) where
  -- From `offset` on the file has the blocks as write_dirblock fills them, and then the tail, to its end.
  abbrev pub Stores : ℕ → List Block → Option Block → ℕ → Type 0
  Stores offset [] none size = vi.i_size ≡ offset
  Stores offset [] (some k) size =
      (vi.i_size ≡ offset + size)
      × ((j : ℕ)
          → j < size
          → flat_byte sbi devices vi (offset + j) ≡ fill_dirblock stale size k.q k.dentries j)
  Stores offset (k ∷ ks) tail size =
      (offset + blksiz sbi ≤ vi.i_size)
      × ((j : ℕ)
          → j < blksiz sbi
          → flat_byte sbi devices vi (offset + j)
            ≡ fill_dirblock stale (blksiz sbi) k.q k.dentries j)
      × Stores (offset + blksiz sbi) ks tail size

  block-Holds :
      (offset size : ℕ) (k : Block)
      → IsBlock size k
      → size ≤ 2 ^ 16
      → ((j : ℕ)
          → j < size
          → flat_byte sbi devices vi (offset + j) ≡ fill_dirblock stale size k.q k.dentries j)
      → Holds
          (λ i. flat_byte sbi devices vi (offset + i))
          0
          (dirent_size * length k.dentries)
          size
          k.dentries
  block-Holds offset size k ok l same =
      let q = dirent_size * length k.dentries in
      Holds-frame (fill_dirblock stale size q k.dentries)
        (λ i. flat_byte sbi devices vi (offset + i)) 0 q size k.dentries (omega (arith, ok.fits))
        ok.fits
        (λ i h. same i h ∙ ap (λ (t : ℕ). fill_dirblock stale size t k.dentries i) ok.header)
        (fill_dirblock-Holds size (omega (arith, l)) k.dentries stale ok.fits)

  Stores-HoldBlocks :
      (offset : ℕ) (ks : List Block) (tail : Option Block) (size : ℕ)
      → All (IsBlock (blksiz sbi)) ks
      → ((k : Block) → tail ≡ some k → IsBlock size k)
      → size < blksiz sbi
      → All IsDentry (written_dentries ks ++ elim tail [ none ↦ [] | some k ↦ k.dentries ])
      → Stores offset ks tail size
      → HoldBlocks z_read_data sbi devices vi flat single block offset (block_lists ks tail)
  unfolding block_lists written_dentries
  Stores-HoldBlocks offset [] none size full last short v s = omega (arith, s)
  Stores-HoldBlocks offset [] (some k) size full last short v (e, same) =
      let ok = last k refl in
      let whole : min (vi.i_size - offset) (blksiz sbi) ≡ size = omega (arith, e, short) in
      rw whole (
        ok.some_dentries,
        v,
        ok.fits,
        block-Holds offset size k ok (omega (arith, short, block)) same,
        omega (arith, e),
      )
  Stores-HoldBlocks offset (k ∷ ks) tail size (ok, full) last short v (inside, same, more) =
      let after : List Dentry = elim tail [ none ↦ [] | some t ↦ t.dentries ] in
      let (here, rest) =
        All-append k.dentries (written_dentries ks ++ after)
          (rw (append_assoc k.dentries (written_dentries ks) after) at v) in
      let whole : min (vi.i_size - offset) (blksiz sbi) ≡ blksiz sbi = omega (arith, inside) in
      rw whole (
        ok.some_dentries,
        here,
        ok.fits,
        block-Holds offset (blksiz sbi) k ok block same,
        Stores-HoldBlocks (offset + blksiz sbi) ks tail size full last short rest more,
      )

  -- In a flat directory on an image of one device that reads without errors, with blocks of 267 to 65536
  -- bytes, whose file is what erofs_write_dir_file makes of the dentries `ds` of mkfs, block for block as
  -- fill_dirblock fills it and then the tail: erofs_namei, which read the directory's inode, ends and
  -- returns the nid of the first of `ds` with the name, -ENOENT if there is none.
  pub namei-write_dir_file :
      (makedev : ℕ → ℕ → ℕ) (nid : ℕ) (name : List ℕ) (b : Buf) (ds : List Dentry)
      → read_inode_from_disk makedev sbi devices (new_inode nid) ≡ done vi
      → 267 ≤ blksiz sbi
      → All IsDentry ds
      → (let p = write_dir_file sbi ds in Stores 0 p.written p.idata p.idata_size)
      → namei makedev z_read_data sbi devices b nid name ≡ some (or_enoent (nid_of name ds))
  unfolding packed_dentries
  namei-write_dir_file makedev nid name b ds e large v s =
      let p = write_dir_file sbi ds in
      let (packed, all) = write_dir_file-IsPacked sbi ds v large block in
      let blocks = block_lists p.written p.idata in
      let held =
        Stores-HoldBlocks 0 p.written p.idata p.idata_size packed.full packed.tail packed.short
          (rw all v) s in
      namei-lookup_in z_read_data sbi devices vi flat single block makedev nid name b blocks e held
      ∙ ap some
          (lookup_in-nid_of name p.written p.idata ∙ ap (λ ds. or_enoent (nid_of name ds)) all)
