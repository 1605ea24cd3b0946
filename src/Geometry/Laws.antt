-- ===== src/Geometry/Laws.antt =====
-- What the rounding macros compute where nothing wraps.
use erofs_utils.Base.{ℕ, ◌+◌, ◌-◌, ◌*◌, ◌/◌, ◌%◌, ◌^◌, ◌≤◌, ◌<◌, ◌≡◌, ap, arith}
use erofs_utils.Base.Bits.{bit_and_mask, two_pow-pos}
use erofs_utils.Base.Words.{add64}
use erofs_utils.Geometry.{SbInfo, blksiz, blknr, blkoff, pos, roundup, blk_round_up}
use native.Mathlib.Nat.{mod-eq_of_lt, mod-lt, div-add-mod, div-add-mod', mul-div_left, mul-mod_left}

pub blkoff-mod : (sbi : SbInfo) (addr : ℕ) → blkoff sbi addr ≡ addr % blksiz sbi
unfolding blkoff
blkoff-mod sbi addr = bit_and_mask sbi.blkszbits addr

-- An address is its block's position plus its offset in the block.
pub pos-blknr :
    (sbi : SbInfo) (addr : ℕ) → addr < 2 ^ 64 → pos sbi (blknr sbi addr) + blkoff sbi addr ≡ addr
unfolding pos
pos-blknr sbi addr h = rw (blkoff-mod sbi addr) (
    omega (
      arith,
      div-add-mod addr (blksiz sbi),
      mod-eq_of_lt {n = blknr sbi addr * blksiz sbi} {m = 2 ^ 64}
          (omega (arith, div-add-mod addr (blksiz sbi))),
    ))

pub blkoff-lt : (sbi : SbInfo) (addr : ℕ) → blkoff sbi addr < blksiz sbi
blkoff-lt sbi addr = rw (blkoff-mod sbi addr) (mod-lt addr (two_pow-pos sbi.blkszbits))

pub roundup_lem : (x y : ℕ) → 0 < y → x + y ≤ 2 ^ 64 → roundup x y ≡ (x + (y - 1)) / y * y
unfolding roundup
roundup_lem x y h fits =
    ap (λ (t : ℕ). t / y * y) (mod-eq_of_lt {n = x + (y - 1)} {m = 2 ^ 64} (omega arith))

-- `roundup` gives the least multiple of `y` that is not below `x`.
pub roundup_bounds :
    (x y : ℕ)
    → 0 < y
    → x + y ≤ 2 ^ 64
    → (x ≤ roundup x y) × (roundup x y < x + y) × (roundup x y % y ≡ 0)
roundup_bounds x y h fits = rw (roundup_lem x y h fits) (
  omega (arith, div-add-mod' (x + (y - 1)) y, mod-lt (x + (y - 1)) h),
  omega (arith, div-add-mod' (x + (y - 1)) y, mod-lt (x + (y - 1)) h),
  mul-mod_left ((x + (y - 1)) / y) y,
)

pub pos-mul : (sbi : SbInfo) (nr : ℕ) → nr * blksiz sbi < 2 ^ 64 → pos sbi nr ≡ nr * blksiz sbi
unfolding pos
pos-mul sbi nr h = mod-eq_of_lt h

pub blk_round_up-mul :
    (sbi : SbInfo) (addr : ℕ)
    → addr + blksiz sbi ≤ 2 ^ 64
    → blk_round_up sbi addr * blksiz sbi ≡ roundup addr (blksiz sbi)
unfolding blk_round_up roundup
blk_round_up-mul sbi addr h =
    ap (λ (t : ℕ). t * blksiz sbi)
      (mul-div_left (add64 addr (blksiz sbi - 1) / blksiz sbi) (two_pow-pos sbi.blkszbits))

-- the blocks that `addr` bytes take
pub blk_round_up_bounds :
    (sbi : SbInfo) (addr : ℕ)
    → addr + blksiz sbi ≤ 2 ^ 64
    → (addr ≤ blk_round_up sbi addr * blksiz sbi)
      × (blk_round_up sbi addr * blksiz sbi < addr + blksiz sbi)
blk_round_up_bounds sbi addr h =
    let (lo, hi, r) = roundup_bounds addr (blksiz sbi) (two_pow-pos sbi.blkszbits) h in
    rw (blk_round_up-mul sbi addr h) (lo, hi)
