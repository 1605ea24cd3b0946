-- ===== src/Geometry/Rounding.antt =====
-- Rounding and blocks: least multiples, and what fits where a block's last bytes are still free.
use erofs_utils.Base.{ℕ, suc, ◌+◌, ◌-◌, ◌*◌, ◌/◌, ◌%◌, ◌^◌, ◌≤◌, ◌<◌, ◌≡◌, ap, arith, ◌∙◌, sym}
use erofs_utils.Geometry.{SbInfo, blksiz, roundup, blk_round_up}
use erofs_utils.Geometry.Laws.{roundup_lem, blk_round_up_bounds}
use native.Mathlib.Nat.{
  div-add-mod', div-lt_iff_lt-mul, mul-le-mul, lt_of_mul-lt-mul_right, add-mul, mul_assoc,
  mul-add-div_right,
}

-- No multiple of `y` from `x` on is less than `roundup x y`.
pub roundup_least : (x y m : ℕ) → 0 < y → x + y ≤ 2 ^ 64 → x ≤ m * y → roundup x y ≤ m * y
roundup_least x y m p fits h = rw (roundup_lem x y p fits) (
    let q : (x + (y - 1)) / y < m + 1 =
      (div-lt_iff_lt-mul {k = y} {x = x + (y - 1)} {y = m + 1} p).1
        (omega (arith, add-mul m 1 y)) in
    mul-le-mul {n₁ = (x + (y - 1)) / y} {m₁ = y} {n₂ = m} {m₂ = y} (omega (arith, q)) (omega arith))

pub blk_round_up_least :
    (sbi : SbInfo) (x n : ℕ) → x + blksiz sbi ≤ 2 ^ 64 → x ≤ n * blksiz sbi → blk_round_up sbi x ≤ n
blk_round_up_least sbi x n fits h =
    let (lo, hi) = blk_round_up_bounds sbi x fits in
    let lt : blk_round_up sbi x < suc n =
      lt_of_mul-lt-mul_right (blksiz sbi) {m = blk_round_up sbi x} {n = suc n}
        (omega (arith, hi)) in
    omega (arith, lt)

pub roundup_shift :
    (x y m : ℕ) → 0 < y → m * y + x + y ≤ 2 ^ 64 → roundup (m * y + x) y ≡ m * y + roundup x y
roundup_shift x y m p fits =
    rw (roundup_lem (m * y + x) y p fits, roundup_lem x y p (omega arith))
      (let q : (m * y + x + (y - 1)) / y ≡ m + (x + (y - 1)) / y =
          ap (λ (t : ℕ). t / y) {x = m * y + x + (y - 1)} {y = m * y + (x + (y - 1))} (omega arith)
          ∙ mul-add-div_right p m (x + (y - 1)) in
        ap (λ (t : ℕ). t * y) q ∙ add-mul m ((x + (y - 1)) / y) y)

-- the blocks before the last byte of `off` bytes
last_byte_block :
    (sbi : SbInfo) (off : ℕ)
    → 0 < off
    → off + blksiz sbi ≤ 2 ^ 64
    → (off - 1) / blksiz sbi < blk_round_up sbi off
last_byte_block sbi off o fits =
    lt_of_mul-lt-mul_right (blksiz sbi) {m = (off - 1) / blksiz sbi} {n = blk_round_up sbi off}
      (omega (arith, div-add-mod' (off - 1) (blksiz sbi), blk_round_up_bounds sbi off fits))

-- With an alignment `a` that divides the block size: where `incr` bytes fit behind the `off` bytes of a
-- block, all within the last block in use, they end within the blocks that are in use.
pub roundup_within :
    (sbi : SbInfo) (a c off incr : ℕ)
    → 0 < a
    → blksiz sbi ≡ suc c * a
    → 0 < off
    → off + 2 * blksiz sbi ≤ 2 ^ 64
    → roundup ((off - 1) % blksiz sbi + 1) a + incr ≤ blksiz sbi
    → roundup off a + incr ≤ blk_round_up sbi off * blksiz sbi
roundup_within sbi a c off incr p e o fits h =
    let n = (off - 1) / blksiz sbi in
    let r = (off - 1) % blksiz sbi + 1 in
    let multiple : n * blksiz sbi ≡ n * suc c * a =
      ap (λ (t : ℕ). n * t) e ∙ sym (mul_assoc n (suc c) a) in
    let whole : off ≡ n * suc c * a + r =
      omega (arith, multiple, div-add-mod' (off - 1) (blksiz sbi)) in
    let up : roundup off a ≡ n * suc c * a + roundup r a =
      ap (λ (t : ℕ). roundup t a) whole
      ∙ roundup_shift r a (n * suc c) p (omega (arith, whole, e)) in
    let least : (n + 1) * blksiz sbi ≤ blk_round_up sbi off * blksiz sbi =
      mul-le-mul {n₁ = n + 1} {m₁ = blksiz sbi} {n₂ = blk_round_up sbi off} {m₂ = blksiz sbi}
        (omega (arith, last_byte_block sbi off o (omega arith))) (omega arith) in
    omega (arith, up, multiple, least, add-mul n 1 (blksiz sbi), h)
