-- ===== src/Dir/Pack/Blocks.antt =====
-- The blocks that a directory is packed into fill the size computed for it.
use erofs_utils.Base.{
  ℕ, ◌+◌, ◌-◌, ◌*◌, ◌%◌, ◌^◌, ◌≤◌, ◌<◌, ◌≡◌, refl, ◌⊎◌, inl, inr, ap, ◌∙◌, bit_or, List, [], ◌∷◌,
  ◌++◌, ltb, if◌then◌else◌, length, All, Bool-cases, ltb→le, arith,
}
use erofs_utils.Base.Words.{add32, sub32}
use erofs_utils.Base.Bits.{bit_or_mask, two_pow-pos}
use native.Mathlib.Nat.{mul-add-mod_self_left, mod-eq_of_lt, div-add-mod}
use erofs_utils.Geometry.{SbInfo, blksiz, blkoff}
use erofs_utils.Geometry.Laws.{blkoff-mod}
use erofs_utils.Dir.{Dentry}
use erofs_utils.Dir.Layout.{IsDentry}
use erofs_utils.Dir.Pack.{round_up, dir_size, Packed, pack_rest, pack_loop, write_dir_file}

-- the bytes of the whole blocks and of the tail
unfoldable pub packed_size : SbInfo → Packed → ℕ
packed_size sbi p = length p.written * blksiz sbi + p.idata_size

module _ (sbi : SbInfo) where
  offset_mod : (n r : ℕ) → r < blksiz sbi → (n * blksiz sbi + r) % blksiz sbi ≡ r
  offset_mod n r h =
      ap (λ (t : ℕ). t % blksiz sbi) {x = n * blksiz sbi + r} {y = blksiz sbi * n + r} (omega arith)
      ∙ mul-add-mod_self_left (blksiz sbi) n r
      ∙ mod-eq_of_lt h

  round_up-block :
      (n r : ℕ)
      → 0 < r
      → r ≤ blksiz sbi
      → n * blksiz sbi + blksiz sbi < 2 ^ 32
      → round_up (n * blksiz sbi + r) (blksiz sbi) ≡ n * blksiz sbi + blksiz sbi
  unfolding round_up
  round_up-block n r l h f =
      let x = n * blksiz sbi + (r - 1) in
      let less : sub32 (n * blksiz sbi + r) 1 ≡ x = omega (arith, l, h, f) in
      let mask = bit_or_mask sbi.blkszbits x in
      let parts = div-add-mod x (blksiz sbi) in
      let low = offset_mod n (r - 1) (omega (arith, l, h)) in
      let masked : bit_or (sub32 (n * blksiz sbi + r) 1) (blksiz sbi - 1)
          ≡ n * blksiz sbi + (blksiz sbi - 1) =
        ap (λ (t : ℕ). bit_or t (blksiz sbi - 1)) less ∙ mask ∙ omega (arith, parts, low) in
      omega (arith, masked, f, two_pow-pos sbi.blkszbits)

  -- Where the next dentry starts: in the same block if it fits, else in the next.
  next_start :
      (n used len : ℕ)
      → used ≤ blksiz sbi
      → 12 ≤ len
      → len ≤ blksiz sbi
      → n * blksiz sbi + blksiz sbi + blksiz sbi < 2 ^ 32
      → (if ltb (blksiz sbi) (add32 (blkoff sbi (n * blksiz sbi + used)) len)
          then round_up (n * blksiz sbi + used) (blksiz sbi)
          else n * blksiz sbi + used)
        ≡ (if ltb (blksiz sbi) (add32 used len)
            then n * blksiz sbi + blksiz sbi
            else n * blksiz sbi + used)
  next_start n used len h lo hi f =
      let d = n * blksiz sbi + used in
      let full_or_not : (used < blksiz sbi) ⊎ (used ≡ blksiz sbi) = ground (arith, h) in
      elim full_or_not [
        | inl part ↦
            let off : blkoff sbi d ≡ used = blkoff-mod sbi d ∙ offset_mod n used part in
            let up : (0 < used) → round_up d (blksiz sbi) ≡ n * blksiz sbi + blksiz sbi =
              λ some_used. round_up-block n used some_used h (omega (arith, f)) in
            ground (arith, off, up, hi, f)
        | inr full ↦
            let next : d ≡ (n + 1) * blksiz sbi + 0 = omega (arith, full) in
            let off : blkoff sbi d ≡ 0 =
              blkoff-mod sbi d
              ∙ ap (λ (t : ℕ). t % blksiz sbi) next
              ∙ offset_mod (n + 1) 0 (two_pow-pos sbi.blkszbits) in
            ground (arith, off, full, lo, hi, f)
      ]

  pack_loop-dir_size :
      (ds head : List Dentry) (n q used : ℕ)
      → All IsDentry ds
      → used ≤ blksiz sbi
      → 267 ≤ blksiz sbi
      → n * blksiz sbi + packed_size sbi (pack_loop sbi head q used ds) + blksiz sbi + blksiz sbi
        < 2 ^ 32
      → dir_size sbi (n * blksiz sbi + used) ds
        ≡ n * blksiz sbi + packed_size sbi (pack_loop sbi head q used ds)
  unfolding dir_size pack_loop pack_rest packed_size
  pack_loop-dir_size [] head n q used v h b f = ground (arith, h, b)
  pack_loop-dir_size (d ∷ ds) head n q used (v, vs) h b f =
      let len = length d.name + 12 in
      let start =
        next_start n used len h (omega arith) (omega (arith, v.name_short, b)) (omega (arith, f)) in
      elim (Bool-cases (ltb (blksiz sbi) (add32 used len))) [
        | inl e ↦
            let after : packed_size sbi (pack_loop sbi head q used (d ∷ ds))
                ≡ blksiz sbi + packed_size sbi (pack_loop sbi (d ∷ []) 12 len ds) =
              rw (pack_loop, e) (omega arith) in
            let rest =
              pack_loop-dir_size ds (d ∷ []) (n + 1) 12 len vs (omega (arith, v.name_short, b)) b
                (omega (arith, f, after)) in
            let shift : add32 (n * blksiz sbi + blksiz sbi) len ≡ (n + 1) * blksiz sbi + len =
              omega (arith, v.name_short, b, f) in
            rw (start, e, shift) (rest ∙ omega arith)
        | inr e ↦
            let after : packed_size sbi (pack_loop sbi head q used (d ∷ ds))
                ≡ packed_size sbi
                    (pack_loop sbi (head ++ (d ∷ [])) (add32 q 12) (add32 used len) ds) =
              rw (pack_loop, e) refl in
            let rest =
              pack_loop-dir_size ds (head ++ (d ∷ [])) n (add32 q 12) (add32 used len) vs
                (ltb→le (blksiz sbi) (add32 used len) e) b (omega (arith, f, after)) in
            let on : add32 used len ≡ used + len = omega (arith, h, v.name_short, b, f) in
            let shift : add32 (n * blksiz sbi + used) len ≡ n * blksiz sbi + add32 used len =
              omega (arith, on, ltb→le (blksiz sbi) (add32 used len) e, f) in
            rw (start, e, shift) rest
      ]

-- Of dentries of mkfs, blocks of at least 267 bytes and a directory whose blocks and tail stay two blocks below
-- 4 GiB: the size that erofs_prepare_dir_file computes is the size of the blocks that erofs_write_dir_file writes and of the
-- tail that it keeps.
pub dir_size-write_dir_file :
    (sbi : SbInfo) (ds : List Dentry)
    → All IsDentry ds
    → 267 ≤ blksiz sbi
    → packed_size sbi (write_dir_file sbi ds) + blksiz sbi + blksiz sbi < 2 ^ 32
    → dir_size sbi 0 ds ≡ packed_size sbi (write_dir_file sbi ds)
unfolding write_dir_file
dir_size-write_dir_file sbi ds v b f =
    let loop = pack_loop-dir_size sbi ds [] 0 0 0 v (omega arith) b (omega (arith, f)) in
    ap (λ (t : ℕ). dir_size sbi t ds) {x = 0} {y = 0 * blksiz sbi + 0} (omega arith)
    ∙ loop
    ∙ omega arith
