-- ===== src/Compress/Shape.antt =====
-- lib/compress.c: which index stands for which logical cluster.
use erofs_utils.Base.{
  ℕ, zero, suc, ◌+◌, ◌-◌, ◌*◌, ◌/◌, ◌%◌, ◌^◌, ◌≤◌, ◌<◌, ◌≡◌, refl, ap, ap₂, ◌∙◌, inl, inr, true,
  false, some, [], ◌∷◌, length, get_elem?, leb, ◌==◌, Bool-cases, lt→leb, le→leb, arith,
}
use erofs_utils.Base.Bits.{two_pow-pos}
use erofs_utils.Base.Words.{add32}
use erofs_utils.Geometry.{SbInfo, blksiz}
use erofs_utils.Inode.{Inode}
use erofs_utils.Dedupe.{InmemExtent}
use erofs_utils.Compress.{head, head_type, head_blkaddr, cluster_index, extent_loop, write_extent}
use native.Mathlib.Nat.{
  mod-lt, div-add-mod', mod-eq_of_lt, div-eq_of_lt, mul-add-div_right, mul-add-mod_self_right,
}

module _ (sbi : SbInfo) (inode : Inode) where
  -- one block less
  pub block_less :
      (x d : ℕ)
      → x / blksiz sbi ≡ suc d
      → (blksiz sbi ≤ x)
        × ((x - blksiz sbi) / blksiz sbi ≡ d)
        × ((x - blksiz sbi) % blksiz sbi ≡ x % blksiz sbi)
  block_less x d h =
      let size = blksiz sbi in
      let whole : x ≡ suc d * size + x % size =
        omega (arith, div-add-mod' x size, ap (λ (t : ℕ). t * size) h) in
      let rest : x - size ≡ d * size + x % size = omega (arith, whole) in
      (
        omega (arith, whole),
        ap (λ (t : ℕ). t / size) rest
            ∙ mul-add-div_right (two_pow-pos sbi.blkszbits) d (x % size)
            ∙ omega (arith, div-eq_of_lt (mod-lt x (two_pow-pos sbi.blkszbits))),
        ap (λ (t : ℕ). t % size) rest
            ∙ mul-add-mod_self_right d size (x % size)
            ∙ mod-eq_of_lt (mod-lt x (two_pow-pos sbi.blkszbits)),
      )

  below : (x : ℕ) → x / blksiz sbi ≡ 0 → x < blksiz sbi
  below x h = omega (
    arith,
    div-add-mod' x (blksiz sbi),
    mod-lt x (two_pow-pos sbi.blkszbits),
    ap (λ (t : ℕ). t * blksiz sbi) h,
  )

  remainder_small : (x : ℕ) → x / blksiz sbi ≡ 0 → x ≡ x % blksiz sbi
  remainder_small x h = omega (arith, div-add-mod' x (blksiz sbi), ap (λ (t : ℕ). t * blksiz sbi) h)

  extent_loop_length :
      (e : InmemExtent) (first d0 d1 co count : ℕ)
      → co < blksiz sbi
      → (co + count) / blksiz sbi ≡ suc d1
      → (length (extent_loop sbi inode e first d0 (suc d1) co count).0 ≡ suc d1)
        × ((extent_loop sbi inode e first d0 (suc d1) co count).1 ≡ (co + count) % blksiz sbi)
  unfolding extent_loop
  extent_loop_length e first d0 zero co count l h =
      let (some_left, quotient, remainder) = block_less (co + count) 0 h in
      let left : count - (blksiz sbi - co) ≡ co + count - blksiz sbi = omega (arith, some_left) in
      let last : leb (blksiz sbi) (count - (blksiz sbi - co)) ≡ false =
        lt→leb _ _ (omega (arith, left, below (co + count - blksiz sbi) quotient)) in
      rw last (refl, left ∙ remainder_small (co + count - blksiz sbi) quotient ∙ remainder)
  extent_loop_length e first d0 (suc d1) co count l h =
      let (some_left, quotient, remainder) = block_less (co + count) (suc d1) h in
      let left : count - (blksiz sbi - co) ≡ co + count - blksiz sbi = omega (arith, some_left) in
      let next : (0 + (count - (blksiz sbi - co))) / blksiz sbi ≡ suc d1 =
        ap (λ (t : ℕ). t / blksiz sbi) {x = 0 + (count - (blksiz sbi - co))}
          {y = co + count - blksiz sbi} (omega (arith, left))
        ∙ quotient in
      let more : leb (blksiz sbi) (count - (blksiz sbi - co)) ≡ true =
        le→leb _ _ (omega (arith, (block_less (0 + (count - (blksiz sbi - co))) d1 next).0)) in
      let (n, r) =
        extent_loop_length e first (d0 + 1) d1 0 (count - (blksiz sbi - co))
          (two_pow-pos sbi.blkszbits) next in
      rw more (
        ap suc n,
        r
            ∙ ap (λ (t : ℕ). t % blksiz sbi) {x = 0 + (count - (blksiz sbi - co))}
                {y = co + count - blksiz sbi} (omega (arith, left))
            ∙ remainder,
      )

  same_index :
      (e : InmemExtent) (first k k' d d' : ℕ)
      → k ≡ k'
      → d ≡ d'
      → some (cluster_index sbi inode e first k d) ≡ some (cluster_index sbi inode e first k' d')
  same_index e first k k' d d' x y =
      ap₂ (λ (t u : ℕ). some (cluster_index sbi inode e first t u)) x y

  extent_loop_at :
      (e : InmemExtent) (first d0 d1 co count k : ℕ)
      → co < blksiz sbi
      → (co + count) / blksiz sbi ≡ suc d1
      → k < suc d1
      → get_elem? (extent_loop sbi inode e first d0 (suc d1) co count).0 k
        ≡ some (cluster_index sbi inode e first (d0 + k) (suc d1 - k))
  unfolding extent_loop
  extent_loop_at e first d0 d1 co count zero l h b =
      let same = same_index e first d0 (d0 + 0) (suc d1) (suc d1 - 0) (omega arith) (omega arith) in
      elim (Bool-cases (leb (blksiz sbi) (count - (blksiz sbi - co)))) [
        | inl t ↦ rw t same
        | inr f ↦ rw f same
      ]
  extent_loop_at e first d0 zero co count (suc k) l h b = absurd (omega arith)
  extent_loop_at e first d0 (suc d1) co count (suc k) l h b =
      let (some_left, quotient, remainder) = block_less (co + count) (suc d1) h in
      let left : count - (blksiz sbi - co) ≡ co + count - blksiz sbi = omega (arith, some_left) in
      let next : (0 + (count - (blksiz sbi - co))) / blksiz sbi ≡ suc d1 =
        ap (λ (t : ℕ). t / blksiz sbi) {x = 0 + (count - (blksiz sbi - co))}
          {y = co + count - blksiz sbi} (omega (arith, left))
        ∙ quotient in
      let more : leb (blksiz sbi) (count - (blksiz sbi - co)) ≡ true =
        le→leb _ _ (omega (arith, (block_less (0 + (count - (blksiz sbi - co))) d1 next).0)) in
      rw more (
        extent_loop_at e first (d0 + 1) d1 0 (count - (blksiz sbi - co)) k
          (two_pow-pos sbi.blkszbits) next (omega arith)
        ∙ same_index e first (d0 + 1 + k) (d0 + suc k) (suc d1 - k) (suc (suc d1) - suc k)
            (omega arith) (omega arith))

  -- An extent that reaches a block's end is written by the loop.
  write_extent_loop :
      (co d : ℕ) (e : InmemExtent)
      → co + e.length < 2 ^ 32
      → (co + e.length) / blksiz sbi ≡ suc d
      → write_extent sbi inode co e ≡ extent_loop sbi inode e co 0 (suc d) co e.length
  unfolding write_extent
  write_extent_loop co d e s p =
      let quotient : add32 co e.length / blksiz sbi ≡ suc d =
        ap (λ (t : ℕ). t / blksiz sbi) {x = add32 co e.length} {y = co + e.length}
          (omega (arith, s))
        ∙ p in
      let nonzero : (suc d == 0) ≡ false = ground arith in rw (write_extent, quotient, nonzero) refl

  pub write_extent_length :
      (co d : ℕ) (e : InmemExtent)
      → co < blksiz sbi
      → co + e.length < 2 ^ 32
      → (co + e.length) / blksiz sbi ≡ suc d
      → (length (write_extent sbi inode co e).0 ≡ suc d)
        × ((write_extent sbi inode co e).1 ≡ (co + e.length) % blksiz sbi)
  write_extent_length co d e l s p =
      rw (write_extent_loop co d e s p) (extent_loop_length e co 0 d co e.length l p)

  pub write_extent_at :
      (co d k : ℕ) (e : InmemExtent)
      → co < blksiz sbi
      → co + e.length < 2 ^ 32
      → (co + e.length) / blksiz sbi ≡ suc d
      → k < suc d
      → get_elem? (write_extent sbi inode co e).0 k
        ≡ some (cluster_index sbi inode e co k (suc d - k))
  write_extent_at co d k e l s p b = rw (write_extent_loop co d e s p) (
      extent_loop_at e co 0 d co e.length k l p b
      ∙ same_index e co (0 + k) k (suc d - k) (suc d - k) (omega arith) refl)

  pub write_extent_short :
      (co : ℕ) (e : InmemExtent)
      → co + e.length < blksiz sbi
      → blksiz sbi ≤ 2 ^ 32
      → write_extent sbi inode co e ≡ (head (head_type e) co (head_blkaddr inode e) ∷ [], 0)
  unfolding write_extent
  write_extent_short co e s b =
      let quotient : add32 co e.length / blksiz sbi ≡ 0 =
        ap (λ (t : ℕ). t / blksiz sbi) {x = add32 co e.length} {y = co + e.length}
          (omega (arith, s, b))
        ∙ div-eq_of_lt s in
      rw (write_extent, quotient) refl
