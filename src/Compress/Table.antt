-- ===== src/Compress/Table.antt =====
-- lib/compress.c: the table of indexes of a whole file, by the extents that its clusters belong to.
use erofs_utils.Base.{
  ℕ, suc, ◌+◌, ◌-◌, ◌/◌, ◌%◌, ◌^◌, ◌≤◌, ◌<◌, ◌≡◌, refl, sym, ap, subst, ◌∙◌, ◌⊎◌, inl, inr, false,
  bit_or, if◌then◌else◌, some, List, [], ◌∷◌, ◌++◌, length, get_elem?, arith, ◌==◌,
}
use erofs_utils.Base.Bits.{two_pow-pos}
use erofs_utils.Geometry.{SbInfo, blksiz}
use erofs_utils.Inode.{Inode}
use erofs_utils.Dedupe.{InmemExtent}
use erofs_utils.Compress.{
  LclusterIndex, head, head_type, head_blkaddr, partial_ref, cluster_index, write_extent,
  write_indexes_final, write_extents,
}
use erofs_utils.Compress.Shape.{write_extent_length, write_extent_at, write_extent_short}
use erofs_utils.Compress.Extents.{
  Holds, IsExtents, end_of, get_elem-append, get_elem-append_first, block_cases, div_mono, IsAdvise,
  head_type-lt, head_type-IsAdvise, partial_ref-IsAdvise,
}
use native.Mathlib.Nat.{mod-lt, div-eq_of_lt}

module _ (sbi : SbInfo) (inode : Inode) where
  -- What the table has of an extent: `k` is the index of its head.
  pub record IsTabled (ds : List LclusterIndex) (k at : ℕ) (e : InmemExtent) : Type 0 where
    pub first :
        (get_elem? ds k
          ≡ some (
              cluster_index sbi inode e
                (at % blksiz sbi)
                0
                ((at % blksiz sbi + e.length) / blksiz sbi)))
        ⊎ (get_elem? ds k ≡ some (head (head_type e) (at % blksiz sbi) (head_blkaddr inode e)))
    pub inner :
        (j : ℕ)
        → j < (at % blksiz sbi + e.length) / blksiz sbi
        → get_elem? ds (k + j)
          ≡ some (
              cluster_index sbi inode e
                (at % blksiz sbi)
                j
                ((at % blksiz sbi + e.length) / blksiz sbi - j))
    pub next :
        blksiz sbi ≤ at % blksiz sbi + e.length
        → 0 < (at + e.length) % blksiz sbi
        → (advise : ℕ) × (type : ℕ) × (blkaddr : ℕ) × IsAdvise advise type
          × (type < 2)
          × (get_elem? ds (k + (at % blksiz sbi + e.length) / blksiz sbi)
              ≡ some (head advise ((at + e.length) % blksiz sbi) blkaddr))

  IsTabled-append :
      (xs ds : List LclusterIndex) (k n at : ℕ) (e : InmemExtent)
      → length xs + k ≡ n
      → IsTabled ds k at e
      → IsTabled (xs ++ ds) n at e
  IsTabled-append xs ds k n at e l t =
      let shift = λ (j : ℕ).
        ap (get_elem? (xs ++ ds)) {x = n + j} {y = length xs + (k + j)} (omega (arith, l))
        ∙ get_elem-append xs ds (k + j) in
      let start =
        ap (get_elem? (xs ++ ds)) {x = n} {y = length xs + k} (omega (arith, l))
        ∙ get_elem-append xs ds k in
      record {
        first = elim t.first [ inl x ↦ inl (start ∙ x) | inr x ↦ inr (start ∙ x) ];
        inner = λ j h. shift j ∙ t.inner j h;
        next = λ b p.
            let (advise, type, blkaddr, i, l, h) = t.next b p in
            (advise, type, blkaddr, i, l, shift ((at % blksiz sbi + e.length) / blksiz sbi) ∙ h);
      }

  -- The cluster that the next extent starts in, or that the file ends in, has a head.
  first_entry :
      (co s : ℕ) (es : List InmemExtent)
      → co ≡ s % blksiz sbi
      → 0 < co
      → blksiz sbi ≤ 2 ^ 16
      → IsExtents sbi s es
      → (advise : ℕ) × (type : ℕ) × (blkaddr : ℕ) × IsAdvise advise type
        × (type < 2)
        × (get_elem? (write_extents sbi inode co es) 0 ≡ some (head advise co blkaddr))
  unfolding write_extents write_indexes_final cluster_index
  first_entry co s [] e p b v =
      let nonzero : (co == 0) ≡ false = ground (arith, p) in
      (
        0,
        0,
        0,
        (omega arith, refl),
        omega arith,
        rw (write_extents, write_indexes_final, nonzero) refl,
      )
  first_entry co s (x ∷ es) e p b v =
      let more = write_extents sbi inode (write_extent sbi inode co x).1 es in
      let small : co < blksiz sbi = rw e (mod-lt s (two_pow-pos sbi.blkszbits)) in
      elim (block_cases sbi (co + x.length)) [
        | inl l ↦ (
          head_type x,
          head_type x,
          head_blkaddr inode x,
          head_type-IsAdvise x,
          head_type-lt x,
          ap (λ (t : List LclusterIndex × ℕ). get_elem? (t.0 ++ write_extents sbi inode t.1 es) 0)
              (write_extent_short sbi inode co x l (omega (arith, b))),
        )
        | inr (d, q) ↦
            let long = write_extent_length sbi inode co d x small (omega (arith, v.1, e)) q in
            (
              bit_or (if x.partial then partial_ref else 0) (head_type x),
              head_type x,
              head_blkaddr inode x,
              partial_ref-IsAdvise x,
              head_type-lt x,
              get_elem-append_first (write_extent sbi inode co x).0 more 0 (omega (arith, long.0))
                  ∙ write_extent_at sbi inode co d 0 x small (omega (arith, v.1, e)) q
                      (omega arith),
            )
      ]

  -- the extent that the table starts with
  first-IsTabled :
      (x : InmemExtent) (es : List InmemExtent) (s : ℕ)
      → blksiz sbi ≤ 2 ^ 16
      → IsExtents sbi s (x ∷ es)
      → IsTabled
          ((write_extent sbi inode (s % blksiz sbi) x).0
            ++ write_extents sbi inode (write_extent sbi inode (s % blksiz sbi) x).1 es)
          0
          s
          x
  first-IsTabled x es s b v =
      let c = s % blksiz sbi in
      let w = write_extent sbi inode c x in
      let more = write_extents sbi inode w.1 es in
      let small = mod-lt s (two_pow-pos sbi.blkszbits) in
      elim (block_cases sbi (c + x.length)) [
        | inl l ↦ record {
          first = inr (
              ap
                (λ (t : List LclusterIndex × ℕ).
                  get_elem? (t.0 ++ write_extents sbi inode t.1 es) 0)
                (write_extent_short sbi inode c x l (omega (arith, b))));
          inner = λ j h. absurd (omega (arith, h, div-eq_of_lt l));
          next = λ y p. absurd (omega (arith, y, l));
        }
        | inr (d, q) ↦
            let (n, r) = write_extent_length sbi inode c d x small (omega (arith, v.1)) q in
            let at : (j : ℕ)
                → j < suc d
                → get_elem? (w.0 ++ more) j ≡ some (cluster_index sbi inode x c j (suc d - j)) =
              λ j h.
                get_elem-append_first w.0 more j (omega (arith, n))
                ∙ write_extent_at sbi inode c d j x small (omega (arith, v.1)) q h in
            record {
              first = inl (
                  at 0 (omega arith)
                  ∙ ap (λ (t : ℕ). some (cluster_index sbi inode x c 0 t)) {x = suc d - 0}
                      {y = (c + x.length) / blksiz sbi} (omega (arith, q)));
              inner = λ j h.
                  ap (get_elem? (w.0 ++ more)) {x = 0 + j} {y = j} (omega arith)
                  ∙ at j (omega (arith, h, q))
                  ∙ ap (λ (t : ℕ). some (cluster_index sbi inode x c j t)) {x = suc d - j}
                      {y = (c + x.length) / blksiz sbi - j} (omega (arith, q));
              next = λ y p.
                  let (blocks, rest) = end_of sbi s x.length in
                  let (advise, type, blkaddr, i, l, h) =
                    first_entry w.1 (s + x.length) es (r ∙ sym rest) (omega (arith, r, rest, p)) b
                      v.3 in
                  (
                    advise,
                    type,
                    blkaddr,
                    i,
                    l,
                    ap (get_elem? (w.0 ++ more)) {x = 0 + (c + x.length) / blksiz sbi}
                          {y = length w.0 + 0} (omega (arith, n, q))
                        ∙ get_elem-append w.0 more 0
                        ∙ h
                        ∙ ap (λ (t : ℕ). some (head advise t blkaddr)) (r ∙ sym rest),
                  );
            }
      ]

  pub write_extents-IsTabled :
      (es : List InmemExtent) (s at : ℕ) (e : InmemExtent)
      → blksiz sbi ≤ 2 ^ 16
      → Holds s es at e
      → IsExtents sbi s es
      → (s ≤ at)
        × IsTabled
            (write_extents sbi inode (s % blksiz sbi) es)
            (at / blksiz sbi - s / blksiz sbi)
            at
            e
  unfolding write_extents
  write_extents-IsTabled [] s at e b h v = absurd h
  write_extents-IsTabled (x ∷ es) s at e b (inl (p, q)) v =
      let c = s % blksiz sbi in
      let ds =
        (write_extent sbi inode c x).0
        ++ write_extents sbi inode (write_extent sbi inode c x).1 es in
      let start : IsTabled ds (s / blksiz sbi - s / blksiz sbi) s x =
        subst (λ (k : ℕ). IsTabled ds k s x) {x = 0} (omega arith) (first-IsTabled x es s b v) in
      (
        omega (arith, p),
        subst (λ (t : ℕ). IsTabled ds (t / blksiz sbi - s / blksiz sbi) t e) (sym p)
            (subst (λ (y : InmemExtent). IsTabled ds (s / blksiz sbi - s / blksiz sbi) s y) (sym q)
              start),
      )
  write_extents-IsTabled (x ∷ es) s at e b (inr h) v =
      let c = s % blksiz sbi in
      let full : blksiz sbi ≤ c + x.length = elim v.2 [
        | inl z ↦ absurd (subst (λ (t : List InmemExtent). Holds (s + x.length) t at e) z h)
        | inr z ↦ z
      ] in
      elim (block_cases sbi (c + x.length)) [
        | inl l ↦ absurd (omega (arith, l, full))
        | inr (d, q) ↦
            let small = mod-lt s (two_pow-pos sbi.blkszbits) in
            let (n, r) = write_extent_length sbi inode c d x small (omega (arith, v.1)) q in
            let (le, t) = write_extents-IsTabled es (s + x.length) at e b h v.3 in
            let (blocks, rest) = end_of sbi s x.length in
            let mono = div_mono sbi (s + x.length) at le in
            (
              omega (arith, le),
              rw (r ∙ sym rest) (
                  IsTabled-append (write_extent sbi inode c x).0 _
                    (at / blksiz sbi - (s + x.length) / blksiz sbi)
                    (at / blksiz sbi - s / blksiz sbi) at e (omega (arith, n, q, blocks, mono)) t),
            )
      ]
