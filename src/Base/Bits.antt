-- ===== src/Base/Bits.antt =====
-- Masks at variables as arithmetic, for every width.
use Prim.Native.Nat.{
  ℕ, zero, suc, ◌+◌, ◌-◌, ◌*◌, ◌/◌, ◌%◌, ◌^◌, ◌≤◌, ◌<◌, min, max, bit_and, bit_or, digits,
  bit_and-bitwise, bit_or-bitwise,
}
use mathlib.Core.Path.{◌≡◌, refl, sym, ap, ap₂, ◌∙◌}
use native.Mathlib.Nat.{
  pow-suc, pow-succ', div-div-eq-div-mul, div-add-mod, mul-add-mod_self_left, mod-eq_of_lt, mod-lt,
  zero-mod, zero-div, mul_right_comm, mul-le-mul, mul-add,
}
use native.Mathlib.Omega.{arith}

pub two_pow-pos : (k : ℕ) → 0 < 2 ^ k
two_pow-pos zero = omega arith
two_pow-pos (suc k) = omega (arith, pow-suc 2 k, two_pow-pos k)

-- The lowest bit of a number splits off from its low bits.
mod_split : (a p : ℕ) → 0 < p → a % (p * 2) ≡ a / 2 % p * 2 + a % 2
mod_split a p h =
    let whole : a ≡ p * 2 * (a / 2 / p) + (a / 2 % p * 2 + a % 2) =
      omega (arith, div-add-mod (a / 2) p) in
    ap (λ (t : ℕ). t % (p * 2)) whole
    ∙ mul-add-mod_self_left (p * 2) (a / 2 / p) (a / 2 % p * 2 + a % 2)
    ∙ mod-eq_of_lt (omega (arith, mod-lt (a / 2) h))

-- The digits of `a` against `k` ones, lowest first.
mask_digits : (n k a : ℕ) → a ≤ n → digits (λ bit. zero) min n a (2 ^ k - 1) ≡ a % 2 ^ k
mask_digits zero k zero h = omega (arith, two_pow-pos k)
mask_digits zero k (suc a) h = absurd (omega arith)
mask_digits (suc n) k zero h = omega (arith, two_pow-pos k)
mask_digits (suc n) zero (suc a) h = omega (arith, mask_digits n zero (suc a / 2) (omega arith))
mask_digits (suc n) (suc k) (suc a) h =
    let half : (2 ^ suc k - 1) / 2 ≡ 2 ^ k - 1 = omega (arith, pow-suc 2 k, two_pow-pos k) in
    omega (
      arith,
      ap (digits (λ bit. zero) min n (suc a / 2)) half,
      mask_digits n k (suc a / 2) (omega arith),
      pow-suc 2 k,
      two_pow-pos k,
      mod_split (suc a) (2 ^ k) (two_pow-pos k),
      ap (λ (t : ℕ). suc a % t) (pow-suc 2 k),
    )

-- `x & ((1 << k) - 1)` keeps the low `k` bits.
pub bit_and_mask : (k a : ℕ) → bit_and a (2 ^ k - 1) ≡ a % 2 ^ k
bit_and_mask k a = bit_and-bitwise a (2 ^ k - 1) ∙ mask_digits a k a (omega arith)

zero_field : (k j : ℕ) → 0 ≡ 0 / 2 ^ k % 2 ^ j * 2 ^ k
zero_field k j =
    let low : 0 / 2 ^ k ≡ 0 = zero-div (2 ^ k) in
    omega (
      arith,
      ap (λ (t : ℕ). t % 2 ^ j * 2 ^ k) low,
      zero-mod (2 ^ j),
      ap (λ (t : ℕ). t * 2 ^ k) (zero-mod (2 ^ j)),
    )

-- The digits of `a` against `j` ones above `k` zeros.
field_digits :
    (k n j a m : ℕ)
    → a ≤ n
    → m ≡ (2 ^ j - 1) * 2 ^ k
    → digits (λ bit. zero) min n a m ≡ a / 2 ^ k % 2 ^ j * 2 ^ k
field_digits zero n j a m h e =
    let plain : m ≡ 2 ^ j - 1 = omega (arith, e) in
    ap (digits (λ bit. zero) min n a) plain
    ∙ mask_digits n j a h
    ∙ omega (arith, ap (λ (t : ℕ). t % 2 ^ j) {x = a / 1} {y = a} (omega arith))
field_digits (suc k) zero j zero m h e = zero_field (suc k) j
field_digits (suc k) (suc n) j zero m h e = zero_field (suc k) j
field_digits (suc k) zero j (suc a) m h e = absurd (omega arith)
field_digits (suc k) (suc n) j (suc a) m h e =
    let half : m ≡ (2 ^ j - 1) * 2 ^ k * 2 =
      omega (arith, e, ap (λ (t : ℕ). (2 ^ j - 1) * t) (pow-suc 2 k)) in
    let quotient : suc a / 2 ^ suc k ≡ suc a / 2 / 2 ^ k =
      ap (λ (t : ℕ). suc a / t) (pow-succ' 2 k) ∙ sym (div-div-eq-div-mul (suc a) 2 (2 ^ k)) in
    omega (
      arith,
      half,
      field_digits k n j (suc a / 2) (m / 2) (omega arith) (omega (arith, half)),
      ap₂ (λ (t u : ℕ). t % 2 ^ j * u) quotient (pow-succ' 2 k),
    )

-- `x & (((1 << j) - 1) << k)` keeps the field of `j` bits above bit `k`.
pub bit_and_field : (j k a : ℕ) → bit_and a ((2 ^ j - 1) * 2 ^ k) ≡ a / 2 ^ k % 2 ^ j * 2 ^ k
bit_and_field j k a = bit_and-bitwise a _ ∙ field_digits k a j a _ (omega arith) refl

or_zero_digits : (n a : ℕ) → a ≤ n → digits (λ bit. bit) max n a 0 ≡ a
or_zero_digits zero zero h = refl
or_zero_digits (suc n) zero h = refl
or_zero_digits zero (suc a) h = absurd (omega arith)
or_zero_digits (suc n) (suc a) h = omega (arith, or_zero_digits n (suc a / 2) (omega arith))

or_digits :
    (k n x a y : ℕ) → a ≤ n → a ≡ x * 2 ^ k → y < 2 ^ k → digits (λ bit. bit) max n a y ≡ a + y
or_digits zero n x a y h e l =
    let none_left : y ≡ 0 = omega arith in
    ap (digits (λ bit. bit) max n a) none_left ∙ or_zero_digits n a h ∙ omega arith
or_digits (suc k) zero x zero y h e l = omega arith
or_digits (suc k) (suc n) x zero y h e l = omega arith
or_digits (suc k) zero x (suc a) y h e l = absurd (omega arith)
or_digits (suc k) (suc n) x (suc a) y h e l =
    let half : suc a ≡ x * 2 ^ k * 2 = omega (arith, e, ap (λ (t : ℕ). x * t) (pow-suc 2 k)) in
    omega (
      arith,
      half,
      or_digits k n x (suc a / 2) (y / 2) (omega arith) (omega (arith, half))
          (omega (arith, pow-suc 2 k)),
    )

-- `(x << k) | y`, for `y` of `k` bits
pub bit_or_disjoint : (k x y : ℕ) → y < 2 ^ k → bit_or (x * 2 ^ k) y ≡ x * 2 ^ k + y
bit_or_disjoint k x y h = bit_or-bitwise _ y ∙ or_digits k _ x _ y (omega arith) refl h

or_mask_digits :
    (k n a : ℕ) → a ≤ n → digits (λ bit. bit) max n a (2 ^ k - 1) ≡ a / 2 ^ k * 2 ^ k + (2 ^ k - 1)
or_mask_digits zero n a h = omega (arith, or_zero_digits n a h)
or_mask_digits (suc k) zero zero h =
    omega (arith, ap (λ (t : ℕ). t * 2 ^ suc k) (zero-div (2 ^ suc k)))
or_mask_digits (suc k) (suc n) zero h =
    omega (arith, ap (λ (t : ℕ). t * 2 ^ suc k) (zero-div (2 ^ suc k)))
or_mask_digits (suc k) zero (suc a) h = absurd (omega arith)
or_mask_digits (suc k) (suc n) (suc a) h =
    let half : (2 ^ suc k - 1) / 2 ≡ 2 ^ k - 1 = omega (arith, pow-suc 2 k, two_pow-pos k) in
    let quotient : suc a / 2 ^ suc k ≡ suc a / 2 / 2 ^ k =
      ap (λ (t : ℕ). suc a / t) (pow-succ' 2 k) ∙ sym (div-div-eq-div-mul (suc a) 2 (2 ^ k)) in
    omega (
      arith,
      ap (digits (λ bit. bit) max n (suc a / 2)) half,
      or_mask_digits k n (suc a / 2) (omega arith),
      pow-suc 2 k,
      two_pow-pos k,
      ap₂ (λ (t u : ℕ). t * u) quotient (pow-succ' 2 k),
    )

-- `x | ((1 << k) - 1)` sets the low `k` bits.
pub bit_or_mask : (k a : ℕ) → bit_or a (2 ^ k - 1) ≡ a / 2 ^ k * 2 ^ k + (2 ^ k - 1)
bit_or_mask k a = bit_or-bitwise a (2 ^ k - 1) ∙ or_mask_digits k a a (omega arith)

pub two_pow-add : (j k : ℕ) → 2 ^ (j + k) ≡ 2 ^ j * 2 ^ k
two_pow-add zero k = omega (arith, ap (λ (t : ℕ). 2 ^ t) {x = 0 + k} {y = k} (omega arith))
two_pow-add (suc j) k =
    ap (λ (t : ℕ). 2 ^ t) {x = suc j + k} {y = suc (j + k)} (omega arith)
    ∙ pow-suc 2 (j + k)
    ∙ ap (λ (t : ℕ). t * 2) (two_pow-add j k)
    ∙ mul_right_comm (2 ^ j) (2 ^ k) 2
    ∙ ap (λ (t : ℕ). t * 2 ^ k) (sym (pow-suc 2 j))

-- a power of two as a product with a smaller one
pub two_pow-split : (n k : ℕ) → k ≤ n → 2 ^ n ≡ 2 ^ k * 2 ^ (n - k)
two_pow-split n k h =
    ap (λ (t : ℕ). 2 ^ t) {x = n} {y = k + (n - k)} (omega arith) ∙ two_pow-add k (n - k)

pub two_pow_le : (n k : ℕ) → k ≤ n → 2 ^ k ≤ 2 ^ n
two_pow_le n k h =
    let more : 2 ^ k * 1 ≤ 2 ^ k * 2 ^ (n - k) =
      mul-le-mul {n₁ = 2 ^ k} {m₁ = 1} {n₂ = 2 ^ k} {m₂ = 2 ^ (n - k)} (omega arith)
        (omega (arith, two_pow-pos (n - k))) in
    omega (arith, two_pow-split n k h, more)

-- the low bits of minus one
pub ones_mod : (n k : ℕ) → k ≤ n → (2 ^ n - 1) % 2 ^ k ≡ 2 ^ k - 1
ones_mod n k h =
    let q = 2 ^ (n - k) - 1 in
    let split : 2 ^ k * 2 ^ (n - k) ≡ 2 ^ k * q + 2 ^ k =
      ap (λ (t : ℕ). 2 ^ k * t) {x = 2 ^ (n - k)} {y = q + 1} (omega (arith, two_pow-pos (n - k)))
      ∙ mul-add (2 ^ k) q 1
      ∙ omega arith in
    let whole : 2 ^ n - 1 ≡ 2 ^ k * q + (2 ^ k - 1) =
      omega (arith, two_pow-split n k h, split, two_pow-pos k) in
    ap (λ (t : ℕ). t % 2 ^ k) whole
    ∙ mul-add-mod_self_left (2 ^ k) q (2 ^ k - 1)
    ∙ mod-eq_of_lt (omega (arith, two_pow-pos k))
