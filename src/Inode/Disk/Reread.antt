-- ===== src/Inode/Disk/Reread.antt =====
-- An inode that erofs_iflush wrote is read back by erofs_read_inode_from_disk.
use erofs_utils.Base.{
  length, ℕ, ◌+◌, ◌-◌, ◌*◌, ◌/◌, ◌%◌, ◌^◌, ◌≤◌, ◌<◌, ◌≡◌, min, ◌⊎◌, inl, inr, sym, ap, ap₂, ◌∙◌,
  some, List, [], ◌∷◌, ◌==◌, if◌then◌else◌, arith,
}
use erofs_utils.Base.Bits.{bit_and_mask}
use erofs_utils.Base.Memory.{Buf, le, At}
use erofs_utils.Base.Words.{add64}
use erofs_utils.Base.Errno.{done}
use erofs_utils.Geometry.{SbInfo}
use erofs_utils.Device.{Devices, dev_read, blit, pad}
use erofs_utils.Device.Primary.{IsSingle, dev_read-single}
use erofs_utils.Inode.{Inode, set_chunkformat, chunk_based, is_data_compressed, iloc}
use erofs_utils.Inode.Disk.Flush.{
  length-compact_bytes, length-extended_bytes, IsFlushable, taken_over, fields_of,
  compact_fields-bytes, extended_fields-bytes, xattr_ibody_size-xattr_icount_of,
}
use erofs_utils.Inode.Disk.{
  z_fill_inode, read_inode_from_disk, iflush_bytes, file_type, s_ifreg, s_ifdir, s_iflnk, bitrange,
  union_of, compact_bytes, extended_bytes, finish_inode, fill_inode, decode_inode,
}

-- z_erofs_fill_inode is called for a compressed inode only.
unfoldable pub finished : SbInfo → Inode → Inode
finished sbi vi = if is_data_compressed vi.datalayout then z_fill_inode sbi vi else vi

union_of-plain :
    (makedev : ℕ → ℕ → ℕ) (mode u : ℕ)
    → (file_type mode ≡ s_ifreg) ⊎ (file_type mode ≡ s_ifdir) ⊎ (file_type mode ≡ s_iflnk)
    → union_of makedev mode u ≡ some u
unfolding union_of
union_of-plain makedev mode u h = ground (arith, h)

fill_inode-fields_of :
    (sbi : SbInfo) (vi inode : Inode)
    → IsFlushable sbi inode
    → fill_inode vi inode.datalayout (fields_of inode) inode.u ≡ taken_over vi inode
unfolding fill_inode fields_of taken_over
fill_inode-fields_of sbi vi inode c =
    let x = xattr_ibody_size-xattr_icount_of inode.xattr_isize c.xattrs in
    let u : (if inode.datalayout == chunk_based
          then set_chunkformat inode.u (inode.u % 2 ^ 16)
          else inode.u)
        ≡ inode.u =
      ground (arith, c.layout) in
    λ i. record (taken_over vi inode) { xattr_isize = x i; u = u i }

finish_inode-plain :
    (sbi : SbInfo) (vi : Inode)
    → vi.datalayout < chunk_based
    → finish_inode sbi vi ≡ done (finished sbi vi)
unfolding finish_inode finished
finish_inode-plain sbi vi h = ground (arith, h)

decode_inode-fields_of :
    (makedev : ℕ → ℕ → ℕ) (sbi : SbInfo) (vi inode : Inode)
    → IsFlushable sbi inode
    → decode_inode makedev sbi vi inode.datalayout (fields_of inode)
      ≡ done (finished sbi (taken_over vi inode))
unfolding fields_of taken_over decode_inode finished
decode_inode-fields_of makedev sbi vi inode c = rw (
  decode_inode,
  union_of-plain makedev inode.i_mode inode.u c.kind,
  fill_inode-fields_of sbi vi inode c,
  finish_inode-plain sbi (taken_over vi inode) c.layout,
)

At-image :
    (b f : Buf) (p k q : ℕ) (bs : List ℕ)
    → p + k ≡ q
    → ((i : ℕ) → i < k + length bs → b i ≡ f (p + i))
    → At f q bs
    → At b k bs
At-image b f p k q [] e same a = tt
At-image b f p k q (x ∷ xs) e same (h, a) = (
  same k (omega arith) ∙ ap f e ∙ h,
  At-image b f p (k + 1) (q + 1) xs (omega arith) (λ i l. same i (omega arith)) a,
)

pad-inside : (f : Buf) (n i : ℕ) → i < n → pad n f i ≡ f i
unfolding pad
pad-inside f n i h = ground (arith, h)

-- (the two reads of the extended form, side by side)
blit-pad :
    (f : Buf) (p n i : ℕ)
    → i < 64
    → blit (pad 32 (λ j. f (p + j))) 32 (pad 32 (λ j. f (p + 32 + j))) 32 i ≡ f (p + i)
unfolding blit pad
blit-pad f p n i h =
    let e : 32 ≤ i → p + 32 + (i - 32) ≡ p + i = λ l. omega arith in
    ground (arith, h, λ (l : 32 ≤ i). ap f (e l))

format-compact : (d : ℕ) → d < 8 → (bitrange (d * 2) 1 3 ≡ d) × (bitrange (d * 2) 0 1 ≡ 0)
unfolding bitrange
format-compact d h = (
  bit_and_mask 3 (d * 2 / 2 ^ 1) ∙ omega (arith, h),
  bit_and_mask 1 (d * 2 / 2 ^ 0) ∙ omega arith,
)

format-extended : (d : ℕ) → d < 8 → (bitrange (1 + d * 2) 1 3 ≡ d) × (bitrange (1 + d * 2) 0 1 ≡ 1)
unfolding bitrange
format-extended d h = (
  bit_and_mask 3 ((1 + d * 2) / 2 ^ 1) ∙ omega (arith, h),
  bit_and_mask 1 ((1 + d * 2) / 2 ^ 0) ∙ omega arith,
)

module _ (makedev : ℕ → ℕ → ℕ) (sbi : SbInfo) (devices : Devices) (vi inode : Inode)
    (single : IsSingle sbi devices) (c : IsFlushable sbi inode) where
  dev_read-fits :
      (p : ℕ)
      → p + 32 ≤ (devices 0).size
      → dev_read sbi devices 0 p 32 ≡ done (pad 32 (λ i. (devices 0).byte (p + i)))
  dev_read-fits p fits =
      let e : min 32 ((devices 0).size - p) ≡ 32 = omega arith in
      dev_read-single sbi devices p 32 single
      ∙ ap (λ n. done (pad n (λ i. (devices 0).byte (p + i)))) e

  read_inode_from_disk-compact_bytes :
      inode.inode_isize ≡ 32
      → At (devices 0).byte (iloc sbi vi) (compact_bytes inode)
      → iloc sbi vi + 32 ≤ (devices 0).size
      → read_inode_from_disk makedev sbi devices vi ≡ done (finished sbi (taken_over vi inode))
  unfolding read_inode_from_disk
  read_inode_from_disk-compact_bytes e a fits =
      let p = iloc sbi vi in
      let b : Buf = pad 32 (λ i. (devices 0).byte (p + i)) in
      let e' = length-compact_bytes inode c.layout in
      let here : At b 0 (compact_bytes inode) =
        At-image b (devices 0).byte p 0 p (compact_bytes inode) (omega arith)
          (λ i h. pad-inside (λ j. (devices 0).byte (p + j)) 32 i (omega (arith, h, e'))) a in
      let (format, fields) = compact_fields-bytes sbi b inode c e here in
      let (layout, version) = format-compact inode.datalayout (omega (arith, c.layout)) in
      ground (
        arith,
        c.layout,
        dev_read-fits p fits,
        format,
        layout,
        version,
        fields,
        decode_inode-fields_of makedev sbi vi inode c,
      )

  read_inode_from_disk-extended_bytes :
      inode.inode_isize ≡ 64
      → At (devices 0).byte (iloc sbi vi) (extended_bytes inode)
      → iloc sbi vi + 64 ≤ (devices 0).size
      → iloc sbi vi + 64 < 2 ^ 64
      → read_inode_from_disk makedev sbi devices vi ≡ done (finished sbi (taken_over vi inode))
  unfolding read_inode_from_disk
  read_inode_from_disk-extended_bytes e a fits small =
      let p = iloc sbi vi in
      let f = (devices 0).byte in
      let b : Buf = pad 32 (λ i. f (p + i)) in
      let whole : Buf = blit b 32 (pad 32 (λ i. f (p + 32 + i))) 32 in
      let e' = length-extended_bytes inode c.layout in
      let here : At whole 0 (extended_bytes inode) =
        At-image whole f p 0 p (extended_bytes inode) (omega arith)
          (λ i h. blit-pad f p 32 i (omega (arith, h, e'))) a in
      let (format, fields) = extended_fields-bytes sbi whole inode c e here in
      let first : le 2 b 0 ≡ le 2 whole 0 =
        ap₂ (λ x y. x + 256 * (y + 0))
          (pad-inside (λ j. f (p + j)) 32 0 (omega arith) ∙ sym (blit-pad f p 32 0 (omega arith)))
          (pad-inside (λ j. f (p + j)) 32 1 (omega arith)
            ∙ sym (blit-pad f p 32 1 (omega arith))) in
      let (layout, version) = format-extended inode.datalayout (omega (arith, c.layout)) in
      let next : add64 p 32 ≡ p + 32 = omega (arith, small) in
      ground (
        arith,
        c.layout,
        dev_read-fits p (omega (arith, fits)),
        dev_read-fits (p + 32) (omega (arith, fits)),
        next,
        first ∙ format,
        layout,
        version,
        fields,
        decode_inode-fields_of makedev sbi vi inode c,
      )

  -- Of an inode of a regular file, a directory or a symbolic link, in a flat or compressed layout, whose
  -- fields fit its form (in the compact one the time is the build time) and whose inline xattrs, if there
  -- are any, take at least 12 bytes, a multiple of 4 below 256 KiB and not of 64 KiB: what erofs_iflush
  -- writes at the place of the inode `vi` is read back field by field. erofs_read_inode_from_disk on an image that reads without errors and holds
  -- those bytes, with 64 bytes to the end of the device, returns `vi` with the layout, size, mode, owner,
  -- link count, times, inode number, extended-attribute size and data address of the inode written, and
  -- with the compression header set up where the layout asks for it.
  pub read_inode_from_disk-iflush_bytes :
      (bs : List ℕ)
      → iflush_bytes inode ≡ some bs
      → At (devices 0).byte (iloc sbi vi) bs
      → iloc sbi vi + 64 ≤ (devices 0).size
      → iloc sbi vi + 64 < 2 ^ 64
      → read_inode_from_disk makedev sbi devices vi ≡ done (finished sbi (taken_over vi inode))
  unfolding iflush_bytes
  read_inode_from_disk-iflush_bytes bs written a fits small = elim c.form [
    | inl e ↦
        let w : bs ≡ extended_bytes inode = ground (arith, e, written) in
        read_inode_from_disk-extended_bytes e (rw w at a) fits small
    | inr (e, _, _, _, _, _, _) ↦
        let w : bs ≡ compact_bytes inode = ground (arith, e, written) in
        read_inode_from_disk-compact_bytes e (rw w at a) (omega (arith, fits))
  ]
