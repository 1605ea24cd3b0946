-- ===== src/Data/Flat.antt =====
-- Flat files, with and without an inline tail: what a read returns.
use erofs_utils.Base.{
  ℕ, ◌+◌, ◌-◌, ◌*◌, ◌/◌, ◌%◌, ◌^◌, ◌≤◌, ◌<◌, ◌≡◌, refl, sym, ap, subst, ◌∙◌, ◌⊎◌, true, false, some,
  ltb, if◌then◌else◌, Bool-cases, inl, inr, arith, ltb→lt, ltb→le,
}
use erofs_utils.Base.Bits.{two_pow-pos}
use erofs_utils.Base.Memory.{Buf}
use erofs_utils.Base.Errno.{done, ok}
use erofs_utils.Geometry.{SbInfo, blksiz, blkoff, pos, blk_round_up}
use erofs_utils.Geometry.Laws.{blkoff-mod, blkoff-lt, pos-mul, blk_round_up_bounds}
use erofs_utils.Device.{Devices}
use erofs_utils.Inode.{Inode, i_blkaddr, flat_plain, flat_inline}
use erofs_utils.Data.{
  MapBlocks, last_block, inode_end, mapped_flags, map_blocks_flatmode, map_blocks, end,
  read_raw_data, fresh_map,
}
use erofs_utils.Data.Loop.{Filled, RoundFills, read_raw_loop-Filled}
use erofs_utils.Device.Primary.{dev_byte, IsSingle}
use erofs_utils.Data.Extent.{Covers, round_end-mapped, read_round-mapped}
use native.Mathlib.Nat.{mod-eq_of_lt, div-add-mod, mul-add-mod_self_left, mul-add-mod_self_right}

-- the end of the whole blocks, in bytes
abbrev pub body_end : SbInfo → Inode → ℕ
body_end sbi vi = last_block sbi vi * blksiz sbi

-- A flat inode on an image of one device, with nothing that wraps; an inline tail does not cross a
-- block of the image.
pub record IsFlat (sbi : SbInfo) (vi : Inode) : Type 0 where
  pub layout : (vi.datalayout ≡ flat_plain) ⊎ (vi.datalayout ≡ flat_inline)
  pub size_fits : vi.i_size + blksiz sbi ≤ 2 ^ 32 * blksiz sbi
  pub size_64 : vi.i_size + blksiz sbi < 2 ^ 63
  pub data_fits : i_blkaddr vi * blksiz sbi + vi.i_size + blksiz sbi < 2 ^ 64
  pub inode_fits : inode_end sbi vi + blksiz sbi < 2 ^ 64
  pub tail_inside :
      vi.datalayout ≡ flat_inline
      → inode_end sbi vi % blksiz sbi + (vi.i_size - body_end sbi vi) ≤ blksiz sbi

-- Where the byte `x` of a flat file lies on the image: in the whole blocks from i_blkaddr on, or in the
-- tail behind the inode.
unfoldable pub flat_addr : SbInfo → Inode → ℕ → ℕ
flat_addr sbi vi x =
    if ltb x (body_end sbi vi)
    then i_blkaddr vi * blksiz sbi + x
    else inode_end sbi vi + (x - body_end sbi vi)

unfoldable pub flat_byte : SbInfo → Devices → Inode → ℕ → ℕ
unfolding flat_addr
flat_byte sbi devices vi x = dev_byte (devices 0) (flat_addr sbi vi x)

add-mod_below : (a r m : ℕ) → a % m + r < m → (a + r) % m ≡ a % m + r
add-mod_below a r m h =
    let split : m * (a / m) + (a % m + r) ≡ a + r = omega (arith, div-add-mod a m) in
    ap (λ (t : ℕ). t % m) (sym split) ∙ mul-add-mod_self_left m (a / m) (a % m + r) ∙ mod-eq_of_lt h

module _ (sbi : SbInfo) (devices : Devices) (vi : Inode) (f : IsFlat sbi vi) where
  bs_pos : 0 < blksiz sbi
  bs_pos = two_pow-pos sbi.blkszbits

  blocks_lem :
      (vi.i_size ≤ blk_round_up sbi vi.i_size * blksiz sbi)
      × (blk_round_up sbi vi.i_size * blksiz sbi < vi.i_size + blksiz sbi)
      × (blk_round_up sbi vi.i_size < 2 ^ 32)
  blocks_lem =
      let (lo, hi) = blk_round_up_bounds sbi vi.i_size (omega (arith, f.size_64)) in
      (lo, hi, grind (arith, f.size_fits, bs_pos))

  blocks_pos : 0 < vi.i_size → 0 < blk_round_up sbi vi.i_size
  blocks_pos h = grind (arith, blocks_lem.0)

  last_block_lem :
      0 < vi.i_size
      → (vi.datalayout ≡ flat_plain → last_block sbi vi ≡ blk_round_up sbi vi.i_size)
        × (vi.datalayout ≡ flat_inline → last_block sbi vi + 1 ≡ blk_round_up sbi vi.i_size)
  unfolding last_block
  last_block_lem h = (
    λ e. ground (arith, e, blocks_lem, blocks_pos h),
    λ e. ground (arith, e, blocks_lem, blocks_pos h),
  )

  -- The whole blocks hold all of a plain file, and all but the last bytes of an inline one.
  body_end_lem :
      0 < vi.i_size
      → (vi.i_size ≤ body_end sbi vi + blksiz sbi)
        × (body_end sbi vi < vi.i_size + blksiz sbi)
        × (vi.datalayout ≡ flat_plain → vi.i_size ≤ body_end sbi vi)
        × (pos sbi (last_block sbi vi) ≡ body_end sbi vi)
  body_end_lem h = elim f.layout [
    | inl e ↦
        let same : body_end sbi vi ≡ blk_round_up sbi vi.i_size * blksiz sbi =
          ap (λ (t : ℕ). t * blksiz sbi) ((last_block_lem h).0 e) in
        (
          omega (arith, same, blocks_lem),
          omega (arith, same, blocks_lem),
          λ _. omega (arith, same, blocks_lem),
          pos-mul sbi (last_block sbi vi) (omega (arith, same, blocks_lem, f.size_64)),
        )
    | inr e ↦
        let same : (last_block sbi vi + 1) * blksiz sbi ≡ blk_round_up sbi vi.i_size * blksiz sbi =
          ap (λ (t : ℕ). t * blksiz sbi) ((last_block_lem h).1 e) in
        (
          omega (arith, same, blocks_lem),
          omega (arith, same, blocks_lem),
          λ e'. absurd (omega (arith, e, e')),
          pos-mul sbi (last_block sbi vi) (omega (arith, same, blocks_lem, f.size_64)),
        )
  ]

  -- the mapping of an offset in the whole blocks
  abbrev body_map : MapBlocks → ℕ → MapBlocks
  body_map map x = record map {
    m_la = x;
    m_deviceid = 0;
    m_pa = i_blkaddr vi * blksiz sbi + x;
    m_plen = body_end sbi vi - x;
    m_llen = body_end sbi vi - x;
    m_flags = mapped_flags false;
  }

  map_blocks-body :
      (map : MapBlocks) (x : ℕ)
      → x < vi.i_size
      → x < body_end sbi vi
      → map_blocks sbi devices vi (record map { m_la = x }) ≡ (ok, body_map map x)
  unfolding map_blocks map_blocks_flatmode
  map_blocks-body map x lt body = ground (
    arith,
    f.layout,
    body_end_lem (omega arith),
    pos-mul sbi (i_blkaddr vi) (omega (arith, f.data_fits)),
    f.data_fits,
    f.size_64,
  )

  flat_addr-body :
      (y : ℕ) → y < body_end sbi vi → flat_addr sbi vi y ≡ i_blkaddr vi * blksiz sbi + y
  unfolding flat_addr
  flat_addr-body y h = ground arith

  flat_addr-tail :
      (y : ℕ) → body_end sbi vi ≤ y → flat_addr sbi vi y ≡ inode_end sbi vi + (y - body_end sbi vi)
  unfolding flat_addr
  flat_addr-tail y h = ground arith

  body-Covers :
      (map : MapBlocks) (x size offset : ℕ) (fits : offset + size < 2 ^ 64)
      → x < vi.i_size
      → x < body_end sbi vi
      → Covers sbi devices vi size offset (flat_byte sbi devices vi) fits (body_map map x) x
  unfolding flat_byte
  body-Covers map x size offset fits lt body = record {
    is_mapped = refl;
    primary = refl;
    starts = omega arith;
    ends = omega arith;
    la_fits = omega (arith, body_end_lem (omega arith), f.size_64);
    pa_fits = omega (arith, body_end_lem (omega arith), f.data_fits);
    bytes = λ y lo hi. ap (dev_byte (devices 0)) (flat_addr-body y (omega arith) ∙ omega arith);
  }

  -- the mapping of an offset in the inline tail
  abbrev tail_map : MapBlocks → ℕ → MapBlocks
  tail_map map x = record map {
    m_la = x;
    m_deviceid = 0;
    m_pa = inode_end sbi vi + (x - body_end sbi vi);
    m_plen = vi.i_size - x;
    m_llen = vi.i_size - x;
    m_flags = mapped_flags true;
  }

  tail_inline : (x : ℕ) → x < vi.i_size → body_end sbi vi ≤ x → vi.datalayout ≡ flat_inline
  tail_inline x lt body = elim f.layout [
    | inl e ↦ absurd (omega (arith, (body_end_lem (omega arith)).2 e))
    | inr e ↦ e
  ]

  tail_offset : (x : ℕ) → x < vi.i_size → body_end sbi vi ≤ x → blkoff sbi x ≡ x - body_end sbi vi
  tail_offset x lt body =
      let split : last_block sbi vi * blksiz sbi + (x - body_end sbi vi) ≡ x = omega arith in
      blkoff-mod sbi x
      ∙ ap (λ (t : ℕ). t % blksiz sbi) (sym split)
      ∙ mul-add-mod_self_right (last_block sbi vi) (blksiz sbi) (x - body_end sbi vi)
      ∙ mod-eq_of_lt (omega (arith, body_end_lem (omega arith)))

  -- The tail stays in its block of the image.
  tail_fits :
      (x : ℕ)
      → x < vi.i_size
      → body_end sbi vi ≤ x
      → blkoff sbi (inode_end sbi vi + (x - body_end sbi vi)) + (vi.i_size - x) ≤ blksiz sbi
  tail_fits x lt body =
      let r : ℕ = x - body_end sbi vi in
      let here = f.tail_inside (tail_inline x lt body) in
      let off : (inode_end sbi vi + r) % blksiz sbi ≡ inode_end sbi vi % blksiz sbi + r =
        add-mod_below (inode_end sbi vi) r (blksiz sbi) (omega arith) in
      rw (blkoff-mod sbi (inode_end sbi vi + r)) (omega arith)

  map_blocks-tail :
      (map : MapBlocks) (x : ℕ)
      → x < vi.i_size
      → body_end sbi vi ≤ x
      → map_blocks sbi devices vi (record map { m_la = x }) ≡ (ok, tail_map map x)
  unfolding map_blocks map_blocks_flatmode
  map_blocks-tail map x lt body = ground (
    arith,
    tail_inline x lt body,
    body_end_lem (omega arith),
    tail_offset x lt body,
    tail_fits x lt body,
    blkoff-lt sbi (inode_end sbi vi + (x - body_end sbi vi)),
    f.inode_fits,
    f.size_64,
  )

  tail-Covers :
      (map : MapBlocks) (x size offset : ℕ) (fits : offset + size < 2 ^ 64)
      → x < vi.i_size
      → body_end sbi vi ≤ x
      → Covers sbi devices vi size offset (flat_byte sbi devices vi) fits (tail_map map x) x
  unfolding flat_byte
  tail-Covers map x size offset fits lt body = record {
    is_mapped = refl;
    primary = refl;
    starts = omega arith;
    ends = omega arith;
    la_fits = omega (arith, f.size_64);
    pa_fits = omega (arith, body_end_lem (omega arith), f.inode_fits);
    bytes = λ y lo hi. ap (dev_byte (devices 0)) (flat_addr-tail y (omega arith) ∙ omega arith);
  }

  module _ (s : IsSingle sbi devices) (size offset : ℕ) (inside : offset + size ≤ vi.i_size) where
    flat_fits : offset + size < 2 ^ 64
    flat_fits = omega (arith, f.size_64)

    flat_round :
        (b : Buf) (ptr : ℕ) (map : MapBlocks)
        → offset ≤ ptr
        → ptr < end sbi devices vi size offset
        → RoundFills sbi devices vi size offset (flat_byte sbi devices vi) b ptr map
    flat_round b ptr map lo hi = elim (Bool-cases (ltb ptr (body_end sbi vi))) [
      | inl e ↦
          round (body_map map ptr) (map_blocks-body map ptr lt (ltb→lt _ _ e))
            (body-Covers map ptr size offset flat_fits lt (ltb→lt _ _ e))
      | inr e ↦
          round (tail_map map ptr) (map_blocks-tail map ptr lt (ltb→le _ _ e))
            (tail-Covers map ptr size offset flat_fits lt (ltb→le _ _ e))
    ]
      where
        below : ptr < offset + size
        below = omega (arith, flat_fits)

        lt : ptr < vi.i_size
        lt = omega arith

        round :
            (m : MapBlocks)
            → map_blocks sbi devices vi (record map { m_la = ptr }) ≡ (ok, m)
            → Covers sbi devices vi size offset (flat_byte sbi devices vi) flat_fits m ptr
            → RoundFills sbi devices vi size offset (flat_byte sbi devices vi) b ptr map
        round m e c =
            let stop =
              round_end-mapped sbi devices vi size offset (flat_byte sbi devices vi) flat_fits m ptr
                c below in
            let (b', run, filled) =
              read_round-mapped sbi devices vi size offset (flat_byte sbi devices vi) flat_fits b m
                ptr s c lo below in
            record {
              next = m;
              buffer = b';
              mapped = e;
              round = run;
              grows = omega (arith, stop, c.ends);
              stays = omega (arith, stop, flat_fits);
              filled = filled;
            }

    -- Reading inside a flat file ends, and returns the file's bytes: of the blocks from i_blkaddr on, and
    -- of the inline tail. Nothing else of the buffer is written.
    pub read_raw_data-flat :
        (b : Buf)
        → (c : Buf) × (read_raw_data sbi devices vi b size offset ≡ some (done c))
          × Filled (flat_byte sbi devices vi) offset offset (offset + size) b c
    unfolding read_raw_data
    read_raw_data-flat b =
        let same : end sbi devices vi size offset ≡ offset + size = omega (arith, flat_fits) in
        let (c, run, filled) =
          read_raw_loop-Filled sbi devices vi size offset (flat_byte sbi devices vi) flat_round
            (size + 1) b offset fresh_map (omega arith) (omega (arith, same))
            (omega (arith, same)) in
        (c, run, subst (λ t. Filled (flat_byte sbi devices vi) offset offset t b c) same filled)
