-- ===== src/Device/Primary.antt =====
-- An image on the primary device alone.
use erofs_utils.Base.{ℕ, ◌+◌, ◌-◌, ◌≡◌, none, min, ltb, if◌then◌else◌, arith}
use erofs_utils.Base.Errno.{done}
use erofs_utils.Geometry.{SbInfo}
use erofs_utils.Device.{Vfile, Devices, dev_read, pad}

-- A device's byte: zero past its end.
abbrev pub dev_byte : Vfile → ℕ → ℕ
dev_byte vf x = if ltb x vf.size then vf.byte x else 0

-- An image on one device that reads without errors.
pub record IsSingle (sbi : SbInfo) (devices : Devices) : Type 0 where
  pub no_extra : sbi.extra_devices ≡ 0
  pub no_error : (offset len : ℕ) → (devices 0).error offset len ≡ none

pub dev_read-single :
    (sbi : SbInfo) (devices : Devices) (offset len : ℕ)
    → IsSingle sbi devices
    → dev_read sbi devices 0 offset len
      ≡ done (pad (min len ((devices 0).size - offset)) (λ i. (devices 0).byte (offset + i)))
unfolding dev_read
dev_read-single sbi devices offset len s = ground (arith, s.no_error offset len)
