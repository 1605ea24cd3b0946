-- ===== src/Zmap/Page.antt =====
-- lib/zmap.c: the page of indexes that is read, on an image that holds a table of them in the full form.
use erofs_utils.Base.{
  ℕ, zero, suc, ◌+◌, ◌-◌, ◌*◌, ◌/◌, ◌%◌, ◌^◌, ◌≤◌, ◌<◌, ◌≡◌, refl, ap, subst, ◌∙◌, inl, inr, true,
  false, min, bit_and, none, some, List, [], ◌∷◌, length, get_elem?, arith, ◌==◌, ltb, ltb→lt,
  ltb→le, lt→ltb, le→ltb, Bool-cases, ==→eq,
}
use erofs_utils.Base.Bits.{two_pow-pos, two_pow_le, two_pow-split, bit_and_field, bit_or_mask}
use erofs_utils.Base.Memory.{Buf, At, At-append}
use erofs_utils.Base.Words.{add64, sub64}
use erofs_utils.Geometry.{SbInfo, blksiz, blknr, blkoff, pos}
use erofs_utils.Geometry.Laws.{blkoff-mod, pos-mul}
use erofs_utils.Device.{Vfile, Devices, blk_read, pad}
use erofs_utils.Device.Primary.{IsSingle, dev_byte, dev_read-single}
use erofs_utils.Inode.{Inode, iloc, compressed_full}
use erofs_utils.Compress.{LclusterIndex, head, body, index_bytes, indexes_bytes}
use erofs_utils.Zmap.{MapRecorder, has_bit, reload_indexes, full_index_base, round_up64}
use native.Mathlib.Nat.{mul_left_comm, mul-le-mul, mod-lt, div-add-mod'}

length-index_bytes : (di : LclusterIndex) → length (index_bytes di) ≡ 8
unfolding index_bytes
length-index_bytes (head advise clusterofs blkaddr) = refl
length-index_bytes (body advise clusterofs delta0 delta1) = refl

index-At :
    (b : Buf) (ds : List LclusterIndex) (base k : ℕ) (di : LclusterIndex)
    → At b base (indexes_bytes ds)
    → get_elem? ds k ≡ some di
    → At b (base + 8 * k) (index_bytes di)
unfolding indexes_bytes
index-At b [] base k di a h = cc
index-At b (d ∷ ds) base zero di a h =
    let (first, rest) =
      At-append b base (base + 8) (index_bytes d) (indexes_bytes ds)
        (omega (arith, length-index_bytes d)) a in
    let same : d ≡ di = cc in
    subst (λ (p : ℕ). At b p (index_bytes di)) {x = base} (omega arith)
      (subst (λ (x : LclusterIndex). At b base (index_bytes x)) same first)
index-At b (d ∷ ds) base (suc k) di a h =
    let (first, rest) =
      At-append b base (base + 8) (index_bytes d) (indexes_bytes ds)
        (omega (arith, length-index_bytes d)) a in
    subst (λ (p : ℕ). At b p (index_bytes di)) {x = base + 8 + 8 * k} (omega arith)
      (index-At b ds (base + 8) k di rest h)

-- bytes that are copied
At-copy :
    (b c : Buf) (p q : ℕ) (bs : List ℕ)
    → ((i : ℕ) → i < length bs → c (q + i) ≡ b (p + i))
    → At b p bs
    → At c q bs
At-copy b c p q [] f a = tt
At-copy b c p q (x ∷ bs) f a = (
  ap c {x = q} {y = q + 0} (omega arith)
      ∙ f 0 (omega arith)
      ∙ ap b {x = p + 0} {y = p} (omega arith)
      ∙ a.0,
  At-copy b c (p + 1) (q + 1) bs
      (λ i h.
        ap c {x = q + 1 + i} {y = q + (1 + i)} (omega arith)
        ∙ f (1 + i) (omega (arith, h))
        ∙ ap b {x = p + (1 + i)} {y = p + 1 + i} (omega arith))
      a.1,
)

pub has_bit-none : (d : ℕ) → d < 2 ^ 11 → has_bit d 11 ≡ false
unfolding has_bit
has_bit-none d h =
    let zero_bit : bit_and d (2 ^ 11) ≡ 0 = omega (arith, bit_and_field 1 11 d) in rw zero_bit refl

-- a byte of a read, which may reach past the end of the device
pad-dev_byte :
    (vf : Vfile) (offset len start j : ℕ)
    → offset ≡ start
    → j < len
    → pad (min len (vf.size - offset)) (λ i. vf.byte (offset + i)) j ≡ dev_byte vf (start + j)
unfolding pad
pad-dev_byte vf offset len start j e h = rw e (elim (Bool-cases (ltb (start + j) vf.size)) [
  | inl t ↦
      let inside : ltb j (min len (vf.size - start)) ≡ true =
        lt→ltb _ _ (omega (arith, h, ltb→lt _ _ t)) in
      rw (t, inside) refl
  | inr f ↦
      let outside : ltb j (min len (vf.size - start)) ≡ false =
        le→ltb _ _ (omega (arith, ltb→le _ _ f)) in
      rw (f, outside) refl
])

pub get_elem-lt :
    (ds : List LclusterIndex) (k : ℕ) (di : LclusterIndex)
    → get_elem? ds k ≡ some di
    → k < length ds
get_elem-lt [] k di h = cc
get_elem-lt (d ∷ ds) zero di h = omega arith
get_elem-lt (d ∷ ds) (suc k) di h = omega (arith, get_elem-lt ds k di h)

module _ (sbi : SbInfo) (devices : Devices) where
  -- The cached page holds the block of the image that the map says.
  abbrev pub IsPage : MapRecorder → Type 0
  IsPage m =
      (j : ℕ)
      → j < blksiz sbi
      → m.index < 2 ^ 32 - 1
      → m.mpage j ≡ dev_byte (devices 0) (m.index * blksiz sbi + j)

  reload_indexes-IsPage :
      (m : MapRecorder) (eblk : ℕ)
      → IsSingle sbi devices
      → IsPage m
      → sbi.blkszbits ≤ 16
      → eblk < 2 ^ 32 - 1
      → (b : Buf) × (reload_indexes sbi devices m eblk
          ≡ (none, record m { index = eblk; mpage = b }))
        × ((j : ℕ) → j < blksiz sbi → b j ≡ dev_byte (devices 0) (eblk * blksiz sbi + j))
  unfolding reload_indexes blk_read
  reload_indexes-IsPage m eblk s p z l = elim (Bool-cases (m.index == eblk)) [
    | inl t ↦
        let same = ==→eq m.index eblk t in
        (
          m.mpage,
          rw (reload_indexes, t) (λ i. (none, record m { index = same i })),
          λ j h.
              p j h (omega (arith, same, l))
              ∙ ap (λ (x : ℕ). dev_byte (devices 0) (x * blksiz sbi + j)) same,
        )
    | inr f ↦
        let offset = pos sbi (eblk % 2 ^ 32) in
        let len = pos sbi 1 in
        let size = two_pow_le 16 sbi.blkszbits z in
        let most : eblk * blksiz sbi ≤ 2 ^ 32 * 2 ^ 16 =
          mul-le-mul {n₁ = eblk} {m₁ = blksiz sbi} {n₂ = 2 ^ 32} {m₂ = 2 ^ 16} (omega (arith, l))
            size in
        let block : eblk % 2 ^ 32 ≡ eblk = omega (arith, l) in
        let start : offset ≡ eblk * blksiz sbi =
          ap (pos sbi) block ∙ pos-mul sbi eblk (omega (arith, most)) in
        let one : len ≡ blksiz sbi = pos-mul sbi 1 (omega (arith, size)) ∙ omega arith in
        let read = min len ((devices 0).size - offset) in
        (
          pad read (λ i. (devices 0).byte (offset + i)),
          rw (reload_indexes, f, blk_read, dev_read-single sbi devices offset len s) refl,
          λ j h.
              pad-dev_byte (devices 0) offset len (eblk * blksiz sbi) j start
                (omega (arith, one, h)),
        )
  ]

  full_index_base-aligned : (vi : Inode) → full_index_base sbi vi % 8 ≡ 0
  unfolding full_index_base round_up64
  full_index_base-aligned vi =
      let end = add64 (add64 (iloc sbi vi) vi.inode_isize) vi.xattr_isize in
      omega (arith, bit_or_mask 3 (sub64 end 1))

  -- an index does not cross the end of a block
  entry_fits : (place : ℕ) → 9 ≤ sbi.blkszbits → place % 8 ≡ 0 → place % blksiz sbi + 8 ≤ blksiz sbi
  entry_fits place z a =
      let eighth = 2 ^ (sbi.blkszbits - 3) in
      let q = place / blksiz sbi in
      let split : blksiz sbi ≡ 8 * eighth = two_pow-split sbi.blkszbits 3 (omega (arith, z)) in
      let whole : q * blksiz sbi ≡ 8 * (q * eighth) =
        ap (λ (t : ℕ). q * t) split ∙ mul_left_comm q 8 eighth in
      omega (
        arith,
        whole,
        split,
        div-add-mod' place (blksiz sbi),
        mod-lt place (two_pow-pos sbi.blkszbits),
        a,
      )

  -- An image with a table `ds` of indexes behind the inode, in blocks of 512 bytes to 32 KiB.
  pub record IsIndexed (vi : Inode) (ds : List LclusterIndex) : Type 0 where
    pub single : IsSingle sbi devices
    pub full : vi.datalayout ≡ compressed_full
    pub smallest : 9 ≤ sbi.blkszbits
    pub largest : sbi.blkszbits ≤ 15
    pub clusters : vi.z_logical_clusterbits ≡ sbi.blkszbits
    pub small : full_index_base sbi vi + 8 * length ds < 2 ^ 35
    pub table : At (dev_byte (devices 0)) (full_index_base sbi vi) (indexes_bytes ds)

  -- The bytes of an index in the page that is read for it.
  pub reload_indexes-At :
      (vi : Inode) (ds : List LclusterIndex) (m : MapRecorder) (lcn : ℕ) (di : LclusterIndex)
      → IsIndexed vi ds
      → IsPage m
      → get_elem? ds lcn ≡ some di
      → let place = add64 (full_index_base sbi vi) (lcn * 8 % 2 ^ 64) in
        (b : Buf) × (reload_indexes sbi devices m (blknr sbi place % 2 ^ 32)
          ≡ (none, record m { index = blknr sbi place % 2 ^ 32; mpage = b }))
        × At b (blkoff sbi place) (index_bytes di)
        × ((j : ℕ)
            → j < blksiz sbi
            → blknr sbi place % 2 ^ 32 < 2 ^ 32 - 1
            → b j ≡ dev_byte (devices 0) (blknr sbi place % 2 ^ 32 * blksiz sbi + j))
  reload_indexes-At vi ds m lcn di x p h =
      let base = full_index_base sbi vi in
      let place = add64 base (lcn * 8 % 2 ^ 64) in
      let inside = get_elem-lt ds lcn di h in
      let plain_sum : place ≡ base + 8 * lcn = omega (arith, x.small, inside) in
      let size : 2 ^ 9 ≤ blksiz sbi = two_pow_le sbi.blkszbits 9 x.smallest in
      let whole = div-add-mod' place (blksiz sbi) in
      let number : blknr sbi place * 2 ^ 9 ≤ blknr sbi place * blksiz sbi =
        mul-le-mul {n₁ = blknr sbi place} {m₁ = 2 ^ 9} {n₂ = blknr sbi place} {m₂ = blksiz sbi}
          (omega arith) size in
      let small : blknr sbi place < 2 ^ 32 - 1 =
        omega (arith, plain_sum, x.small, inside, whole, number) in
      let block : blknr sbi place % 2 ^ 32 ≡ blknr sbi place = omega (arith, small) in
      let (b, e, f) =
        reload_indexes-IsPage m (blknr sbi place % 2 ^ 32) x.single p (omega (arith, x.largest))
          (omega (arith, block, small)) in
      let entry = index-At (dev_byte (devices 0)) ds base lcn di x.table h in
      let off : blkoff sbi place ≡ place % blksiz sbi = blkoff-mod sbi place in
      let fits =
        entry_fits place x.smallest (omega (arith, plain_sum, full_index_base-aligned vi)) in
      (
        b,
        e,
        At-copy (dev_byte (devices 0)) b (base + 8 * lcn) (blkoff sbi place) (index_bytes di)
            (λ i l.
              f (blkoff sbi place + i) (omega (arith, off, fits, l, length-index_bytes di))
              ∙ ap (dev_byte (devices 0))
                  {x = blknr sbi place % 2 ^ 32 * blksiz sbi + (blkoff sbi place + i)}
                  {y = base + 8 * lcn + i}
                  (omega (arith, ap (λ (t : ℕ). t * blksiz sbi) block, whole, off, plain_sum)))
            entry,
        λ j l s. f j l,
      )
