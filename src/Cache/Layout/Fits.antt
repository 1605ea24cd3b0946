-- ===== src/Cache/Layout/Fits.antt =====
-- The arithmetic of an attachment: where the new end of a block lies.
use erofs_utils.Base.{
  ℕ, zero, suc, ◌+◌, ◌-◌, ◌*◌, ◌/◌, ◌%◌, ◌^◌, ◌≤◌, ◌<◌, ◌≡◌, ap, arith, ◌∙◌, ◌⊎◌, inl, inr,
}
use erofs_utils.Base.Bits.{two_pow-pos, two_pow-split, two_pow_le, ones_mod}
use erofs_utils.Base.Words.{add64, sub64}
use erofs_utils.Base.Errno.{done}
use erofs_utils.Geometry.{SbInfo, blksiz, blkoff, roundup, blk_round_up}
use erofs_utils.Geometry.Laws.{blkoff-mod, roundup_bounds, blk_round_up_bounds}
use erofs_utils.Geometry.Rounding.{roundup_within, roundup_least, blk_round_up_least}
use erofs_utils.Cache.{get_alignsize}
use native.Mathlib.Nat.{mod-lt, div-add-mod', add-mul, mod-eq_of_lt, mul_comm}

-- Blocks are a multiple of the alignment.
pub record IsAlignment (sbi : SbInfo) (a : ℕ) : Type 0 where
  pub positive : 0 < a
  pub factor : ℕ
  pub multiple : blksiz sbi ≡ suc factor * a

pub two_pow-IsAlignment : (sbi : SbInfo) (k : ℕ) → k ≤ sbi.blkszbits → IsAlignment sbi (2 ^ k)
two_pow-IsAlignment sbi k h = record {
  positive = two_pow-pos k;
  factor = 2 ^ (sbi.blkszbits - k) - 1;
  multiple =
      two_pow-split sbi.blkszbits k h
      ∙ ap (λ (t : ℕ). 2 ^ k * t) {x = 2 ^ (sbi.blkszbits - k)}
          {y = suc (2 ^ (sbi.blkszbits - k) - 1)} (omega (arith, two_pow-pos (sbi.blkszbits - k)))
      ∙ mul_comm (2 ^ k) (suc (2 ^ (sbi.blkszbits - k) - 1));
}

blksiz-IsAlignment : (sbi : SbInfo) → IsAlignment sbi (blksiz sbi)
blksiz-IsAlignment sbi = record {
  positive = two_pow-pos sbi.blkszbits;
  factor = 0;
  multiple = omega arith;
}

alignment_cases :
    (sbi : SbInfo) (type a t : ℕ)
    → get_alignsize sbi type ≡ done (a, t)
    → (a ≡ blksiz sbi) ⊎ ((a ≡ 2 ^ 5) ⊎ ((a ≡ 2 ^ 2) ⊎ ((a ≡ 2 ^ 7) ⊎ (a ≡ 2 ^ 0))))
unfolding get_alignsize
alignment_cases sbi type a t h = ground arith

pub get_alignsize-IsAlignment :
    (sbi : SbInfo) (type a t : ℕ)
    → 9 ≤ sbi.blkszbits
    → get_alignsize sbi type ≡ done (a, t)
    → IsAlignment sbi a
get_alignsize-IsAlignment sbi type a t h e = elim (alignment_cases sbi type a t e) [
  | inl s ↦ rw s (blksiz-IsAlignment sbi)
  | inr (inl s) ↦ rw s (two_pow-IsAlignment sbi 5 (omega arith))
  | inr (inr (inl s)) ↦ rw s (two_pow-IsAlignment sbi 2 (omega arith))
  | inr (inr (inr (inl s))) ↦ rw s (two_pow-IsAlignment sbi 7 (omega arith))
  | inr (inr (inr (inr s))) ↦ rw s (two_pow-IsAlignment sbi 0 (omega arith))
]

pub alignment_le : (sbi : SbInfo) (a : ℕ) → IsAlignment sbi a → a ≤ blksiz sbi
alignment_le sbi a l = omega (arith, l.multiple)

module _ (sbi : SbInfo) (largest : sbi.blkszbits ≤ 16) where
  pub size_le : blksiz sbi ≤ 2 ^ 16
  size_le = two_pow_le 16 sbi.blkszbits largest

  -- where a block that held `off` bytes ends after an attachment
  pub new_end :
      (a off incr : ℕ)
      → IsAlignment sbi a
      → off + incr + 2 ^ 17 < 2 ^ 48
      → (add64 (roundup off a) incr ≡ roundup off a + incr)
        × (off ≤ roundup off a)
        × (roundup off a < off + 2 ^ 16)
  new_end a off incr l fits =
      let (lo, hi, z) =
        roundup_bounds off a l.positive (omega (arith, alignment_le sbi a l, size_le)) in
      (
        mod-eq_of_lt (omega (arith, hi, alignment_le sbi a l, size_le)),
        lo,
        omega (arith, hi, alignment_le sbi a l, size_le),
      )

  pub blk_round_up_mono : (x y : ℕ) → x ≤ y → y < 2 ^ 48 → blk_round_up sbi x ≤ blk_round_up sbi y
  blk_round_up_mono x y l fits =
      blk_round_up_least sbi x (blk_round_up sbi y) (omega (arith, size_le))
        (omega (arith, blk_round_up_bounds sbi y (omega (arith, size_le))))

  -- An attachment takes no more blocks than its bytes, and two, fill.
  pub new_end_blocks :
      (a off incr : ℕ)
      → IsAlignment sbi a
      → off + incr + 2 ^ 17 < 2 ^ 48
      → blk_round_up sbi (roundup off a + incr) ≤ blk_round_up sbi off + incr / blksiz sbi + 2
  new_end_blocks a off incr l fits =
      let (s, lo, hi) = new_end a off incr l fits in
      let n = blk_round_up sbi off in
      let products : (n + incr / blksiz sbi + 2) * blksiz sbi
          ≡ n * blksiz sbi + incr / blksiz sbi * blksiz sbi + 2 * blksiz sbi =
        omega (
          arith,
          add-mul (n + incr / blksiz sbi) 2 (blksiz sbi),
          add-mul n (incr / blksiz sbi) (blksiz sbi),
        ) in
      let (x, y, z) =
        roundup_bounds off a l.positive (omega (arith, alignment_le sbi a l, size_le)) in
      blk_round_up_least sbi (roundup off a + incr) (n + incr / blksiz sbi + 2)
        (omega (arith, size_le))
        (omega (
          arith,
          products,
          blk_round_up_bounds sbi off (omega (arith, size_le)),
          div-add-mod' incr (blksiz sbi),
          mod-lt incr (two_pow-pos sbi.blkszbits),
          alignment_le sbi a l,
          y,
        ))

  -- Where the last block has room, the blocks in use are enough.
  pub attach_within :
      (a off incr extra : ℕ)
      → IsAlignment sbi a
      → off + incr + 2 ^ 17 < 2 ^ 48
      → extra < 2 ^ 32
      → add64 (add64 (roundup (blkoff sbi (sub64 off 1) + 1) a) incr) extra ≤ blksiz sbi
      → blk_round_up sbi (roundup off a + incr) ≤ blk_round_up sbi off
  attach_within a zero incr extra l fits x h =
      let last : blkoff sbi (sub64 0 1) + 1 ≡ blksiz sbi = omega (
        arith,
        blkoff-mod sbi (2 ^ 64 - 1),
        ones_mod 64 sbi.blkszbits (omega arith),
        two_pow-pos sbi.blkszbits,
      ) in
      let (lo, hi, z) =
        roundup_bounds (blksiz sbi) a l.positive (omega (arith, alignment_le sbi a l, size_le)) in
      let used = ap (λ (t : ℕ). add64 (add64 (roundup t a) incr) extra) last in
      let none_more : incr ≡ 0 = omega (arith, lo, hi, used, h, alignment_le sbi a l, size_le) in
      let start : roundup 0 a ≤ 0 * a =
        roundup_least 0 a 0 l.positive (omega (arith, alignment_le sbi a l, size_le))
          (omega arith) in
      blk_round_up_mono (roundup 0 a + incr) 0 (omega (arith, start, none_more)) (omega arith)
  attach_within a (suc off) incr extra l fits x h =
      let before : sub64 (suc off) 1 ≡ suc off - 1 = omega arith in
      let last : blkoff sbi (sub64 (suc off) 1) ≡ (suc off - 1) % blksiz sbi =
        blkoff-mod sbi (sub64 (suc off) 1) ∙ ap (λ (t : ℕ). t % blksiz sbi) before in
      let r = (suc off - 1) % blksiz sbi in
      let (lo, hi, z) = roundup_bounds (r + 1) a l.positive (
        omega (
          arith,
          alignment_le sbi a l,
          size_le,
          mod-lt (suc off - 1) (two_pow-pos sbi.blkszbits),
        )) in
      let used = ap (λ (t : ℕ). add64 (add64 (roundup (t + 1) a) incr) extra) last in
      let fit : roundup (r + 1) a + incr ≤ blksiz sbi = omega (
        arith,
        lo,
        hi,
        used,
        h,
        alignment_le sbi a l,
        size_le,
        mod-lt (suc off - 1) (two_pow-pos sbi.blkszbits),
      ) in
      let (s, o, t) = new_end a (suc off) incr l fits in
      blk_round_up_least sbi (roundup (suc off) a + incr) (blk_round_up sbi (suc off))
        (omega (arith, size_le, t))
        (roundup_within sbi a l.factor (suc off) incr l.positive l.multiple (omega arith)
          (omega (arith, size_le)) fit)
