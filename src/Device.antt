-- ===== src/Device.antt =====
-- lib/io.c and include/erofs/internal.h: reads of the image and of its extra devices.
pub mod Primary
use erofs_utils.Base.{ℕ, ◌+◌, ◌-◌, ◌^◌, ◌%◌, min, Option, none, some, ltb, leb, if◌then◌else◌, ◌&&◌}
use erofs_utils.Base.Errno.{Result, done, fail, eio}
use erofs_utils.Base.Memory.{Buf}
use erofs_utils.Geometry.{SbInfo, pos}

-- An open file as `erofs_io_pread` sees it where each call of pread reads all there is up to the end of
-- the file (Io has the loop for any answers): the bytes up to its end, and where reading fails.
pub record Vfile : Type 0 where
  pub size : ℕ
  pub byte : ℕ → ℕ
  pub error : ℕ → ℕ → Option ℕ

-- Device 0 is the primary image, device `k + 1` the extra device `k`.
abbrev pub Devices : Type 0
Devices = ℕ → Vfile

-- How many bytes were read, and the bytes.
unfoldable pub io_pread : Vfile → ℕ → ℕ → Result (ℕ × Buf)
io_pread vf offset len = elim (vf.error offset len) [
  | some e ↦ fail e
  | none ↦ done (min len (vf.size - offset), λ i. vf.byte (offset + i))
]

-- A read past the end of the device is padded with zeros.
unfoldable pub pad : ℕ → Buf → Buf
pad read b i = if ltb i read then b i else 0

unfoldable pub dev_read : SbInfo → Devices → ℕ → ℕ → ℕ → Result Buf
unfolding io_pread pad
dev_read sbi devices device_id offset len =
    if ltb sbi.nblobs device_id then fail eio else elim (io_pread (devices device_id) offset len) [
      | fail e ↦ fail e
      | done (read, b) ↦ done (pad read b)
    ]

-- erofs_blk_read: `start` is a u32
unfoldable pub blk_read : SbInfo → Devices → ℕ → ℕ → ℕ → Result Buf
blk_read sbi devices device_id start nblocks =
    dev_read sbi devices device_id (pos sbi (start % 2 ^ 32)) (pos sbi nblocks)

-- memcpy(b + p, f, n)
unfoldable pub blit : Buf → ℕ → Buf → ℕ → Buf
blit b p f n i = if leb p i && ltb i (p + n) then f (i - p) else b i
