-- ===== src/Data/Extent.antt =====
-- One round of the read loop over a mapping that the primary device alone serves, or that is a hole.
use erofs_utils.Base.{
  ℕ, ◌+◌, ◌-◌, ◌^◌, ◌≤◌, ◌<◌, ◌≡◌, ap, ◌⊎◌, true, false, min, ltb, if◌then◌else◌, inl, inr, arith,
}
use erofs_utils.Base.Memory.{Buf, memset}
use erofs_utils.Base.Words.{add64, sub64}
use erofs_utils.Base.Errno.{done, ok}
use erofs_utils.Geometry.{SbInfo}
use erofs_utils.Device.{Devices, pad, blit}
use erofs_utils.Device.Primary.{IsSingle, dev_byte, dev_read-single}
use erofs_utils.Inode.{Inode}
use erofs_utils.Data.{
  MapBlocks, MapDev, map_dev, map_dev_loop, read_one_data, round_end, read_round,
}
use erofs_utils.Data.Loop.{Filled}

map_dev-single :
    (sbi : SbInfo) (d : MapDev) → sbi.extra_devices ≡ 0 → d.m_deviceid ≡ 0 → map_dev sbi d ≡ (ok, d)
unfolding map_dev map_dev_loop
map_dev-single sbi d h e = simp (h, e)

read_one_data-single :
    (sbi : SbInfo) (devices : Devices) (m : MapBlocks) (moff len : ℕ)
    → IsSingle sbi devices
    → m.m_deviceid ≡ 0
    → read_one_data sbi devices m moff len
      ≡ done (
          pad
            (min len ((devices 0).size - add64 m.m_pa moff))
            (λ i. (devices 0).byte (add64 m.m_pa moff + i)))
unfolding read_one_data
read_one_data-single sbi devices m moff len s e = ground (
  arith,
  map_dev-single sbi (record { m_pa = m.m_pa; m_deviceid = m.m_deviceid }) s.no_extra e,
  dev_read-single sbi devices (add64 m.m_pa moff) len s,
)

module _ (sbi : SbInfo) (devices : Devices) (vi : Inode) (size offset : ℕ) (file : ℕ → ℕ)
    (fits : offset + size < 2 ^ 64) where
  -- What a round must know of its mapping: it starts at or before `ptr`, ends behind it, and its bytes
  -- are the file's.
  pub record Covers (m : MapBlocks) (ptr : ℕ) : Type 0 where
    pub is_mapped : m.m_flags.mapped ≡ true
    pub primary : m.m_deviceid ≡ 0
    pub starts : m.m_la ≤ ptr
    pub ends : ptr < m.m_la + m.m_llen
    pub la_fits : m.m_la + m.m_llen < 2 ^ 64
    pub pa_fits : m.m_pa + m.m_llen < 2 ^ 64
    pub bytes :
        (y : ℕ)
        → m.m_la ≤ y
        → y < m.m_la + m.m_llen
        → file y ≡ dev_byte (devices 0) (m.m_pa + (y - m.m_la))

  pub round_end-mapped :
      (m : MapBlocks) (ptr : ℕ)
      → Covers m ptr
      → ptr < offset + size
      → (round_end sbi devices vi size offset m ≡ min (offset + size) (m.m_la + m.m_llen))
  unfolding round_end
  round_end-mapped m ptr c h = ground (arith, c.is_mapped, c.la_fits)

  module _ (b : Buf) (m : MapBlocks) (ptr : ℕ) (c : Covers m ptr) (lo : offset ≤ ptr)
      (hi : ptr < offset + size) where
    -- the bytes that a round reads, and what it makes of the buffer
    abbrev round_len : ℕ
    round_len = sub64 (round_end sbi devices vi size offset m) ptr

    abbrev round_from : ℕ
    round_from = add64 m.m_pa (ptr - m.m_la)

    abbrev copied : Buf
    copied =
        blit b (ptr - offset)
          (pad (min round_len ((devices 0).size - round_from))
            (λ i. (devices 0).byte (round_from + i)))
          round_len

    round_len_lem : round_len + ptr ≡ min (offset + size) (m.m_la + m.m_llen)
    round_len_lem = omega (arith, round_end-mapped m ptr c hi, c.ends, c.la_fits)

    copied_outside :
        (i : ℕ)
        → (offset + i < ptr) ⊎ (round_end sbi devices vi size offset m ≤ offset + i)
        → copied i ≡ b i
    unfolding blit
    copied_outside i h = ground (arith, round_len_lem, round_end-mapped m ptr c hi)

    copied_inside :
        (i : ℕ)
        → ptr ≤ offset + i
        → offset + i < round_end sbi devices vi size offset m
        → copied i ≡ file (offset + i)
    unfolding blit pad
    copied_inside i le lt = ground (
      arith,
      round_len_lem,
      round_end-mapped m ptr c hi,
      c.bytes (offset + i) (omega (arith, c.starts)) (omega (arith, round_end-mapped m ptr c hi)),
      same,
      ap (devices 0).byte same,
    )
      where
        same : round_from + (i - (ptr - offset)) ≡ m.m_pa + (offset + i - m.m_la)
        same = omega (arith, c.starts, c.ends, c.pa_fits, round_end-mapped m ptr c hi)

  pub read_round-mapped :
      (b : Buf) (m : MapBlocks) (ptr : ℕ)
      → IsSingle sbi devices
      → Covers m ptr
      → offset ≤ ptr
      → ptr < offset + size
      → (c : Buf) × (read_round sbi devices vi size offset b ptr m ≡ done c)
        × Filled file offset ptr (round_end sbi devices vi size offset m) b c
  unfolding read_round
  read_round-mapped b m ptr s c lo hi = (
    copied b m ptr c lo hi,
    ground (
      arith,
      c.is_mapped,
      shift,
      start,
      read_one_data-single sbi devices m (ptr - m.m_la) (round_len b m ptr c lo hi) s c.primary,
    ),
    record {
      inside = λ i le lt. copied_inside b m ptr c lo hi i le lt;
      below = λ i lt. copied_outside b m ptr c lo hi i (inl lt);
      above = λ i le. copied_outside b m ptr c lo hi i (inr le);
    },
  )
    where
      shift : (if ltb m.m_la ptr then ptr - m.m_la else 0) ≡ ptr - m.m_la
      shift = ground (arith, c.starts)

      start : (if ltb m.m_la ptr then ptr else m.m_la) ≡ ptr
      start = ground (arith, c.starts)

  -- A round over what is not mapped: a hole, or what lies behind the end of the file.
  pub read_round-hole :
      (b : Buf) (m : MapBlocks) (ptr : ℕ)
      → m.m_flags.mapped ≡ false
      → offset ≤ ptr
      → ptr < round_end sbi devices vi size offset m
      → round_end sbi devices vi size offset m ≤ offset + size
      → ((y : ℕ) → ptr ≤ y → y < round_end sbi devices vi size offset m → file y ≡ 0)
      → (c : Buf) × (read_round sbi devices vi size offset b ptr m ≡ done c)
        × Filled file offset ptr (round_end sbi devices vi size offset m) b c
  unfolding read_round memset
  read_round-hole b m ptr e lo grows stays zeros = (
    memset b (ptr - offset) 0 (sub64 (round_end sbi devices vi size offset m) ptr),
    ground (arith, e),
    record {
      inside = λ i le lt. ground (arith, zeros (offset + i) le lt);
      below = λ i lt. ground arith;
      above = λ i le. ground arith;
    },
  )
