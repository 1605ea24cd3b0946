-- ===== src/Base/Errno.antt =====
-- The `int` that the library's functions return: 0, a positive answer of a callback, or minus an error
-- number (those of Linux; EFSCORRUPTED is EUCLEAN).
use Prim.Native.Nat.{ℕ}
use mathlib.Core.Path.{◌≡◌, refl}
use mathlib.Core.Logic.{◌⊎◌, inl, inr}

pub data Ret : Type 0 where
  ok : Ret
  found : ℕ → Ret
  err : ℕ → Ret

abbrev pub enoent : ℕ
enoent = 2

abbrev pub eio : ℕ
eio = 5

abbrev pub enomem : ℕ
enomem = 12

abbrev pub ebusy : ℕ
ebusy = 16

abbrev pub enodev : ℕ
enodev = 19

abbrev pub enotdir : ℕ
enotdir = 20

abbrev pub einval : ℕ
einval = 22

abbrev pub enospc : ℕ
enospc = 28

abbrev pub erange : ℕ
erange = 34

abbrev pub eopnotsupp : ℕ
eopnotsupp = 95

abbrev pub efscorrupted : ℕ
efscorrupted = 117

-- A value, or minus an error number.
pub data Result {ℓ} (A : Type ℓ) : Type ℓ where
  done : A → Result A
  fail : ℕ → Result A

pub Result-cases {ℓ} :
    {A : Type ℓ} (r : Result A) → ((e : ℕ) × (r ≡ fail e)) ⊎ ((a : A) × (r ≡ done a))
Result-cases (fail e) = inl (e, refl)
Result-cases (done a) = inr (a, refl)
