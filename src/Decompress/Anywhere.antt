-- ===== src/Decompress/Anywhere.antt =====
-- lib/decompress.c: the copy of interlaced data, for any request.
use erofs_utils.Base.{
  ℕ, ◌+◌, ◌-◌, ◌%◌, ◌≤◌, ◌<◌, ◌≡◌, refl, sym, ap, subst, ◌∙◌, ◌⊎◌, inl, inr, min, Option, none,
  some, ltb, ltb→lt, ltb→le, le→ltb, Bool-cases, eq→==, arith,
}
use erofs_utils.Base.Memory.{Buf, memcpy}
use erofs_utils.Base.Words.{add32}
use erofs_utils.Base.Errno.{efscorrupted}
use erofs_utils.Geometry.{SbInfo, blksiz, blkoff}
use erofs_utils.Zmap.Extent.{compression_max}
use erofs_utils.Decompress.{DecompressReq, decompress_interlaced, decompress}
use erofs_utils.Decompress.Raw.{mod-wrap, IsCopy, interlaced-IsCopy}
use native.Mathlib.Nat.{mod-eq_of_lt}

module _ (sbi : SbInfo) (rq : DecompressReq) (out : Buf) where
  -- the input, rotated by the offset
  abbrev pub from_offset : Buf
  from_offset i = rq.input ((rq.interlaced_offset + i) % blksiz sbi)

  abbrev pub IsRefused : Type 0
  IsRefused =
      (blksiz sbi < rq.inputsize)
      ⊎ ((blksiz sbi < rq.decodedlength) ⊎ (rq.decodedlength < rq.decodedskip))

  abbrev pub IsAccepted : Type 0
  IsAccepted =
      (rq.inputsize ≤ blksiz sbi)
      × (rq.decodedlength ≤ blksiz sbi)
      × (rq.decodedskip ≤ rq.decodedlength)

  abbrev pub IsRotation : Buf → Type 0
  IsRotation c = IsCopy from_offset rq.decodedskip (rq.decodedlength - rq.decodedskip) out c

  decompress_interlaced-IsRotation :
      sbi.blkszbits ≤ 16
      → rq.interlaced_offset < blksiz sbi
      → IsAccepted
      → (c : Buf) × (decompress_interlaced sbi rq out ≡ (none, c)) × IsRotation c
  unfolding decompress_interlaced
  decompress_interlaced-IsRotation z s (size, length, skip) =
      let n = rq.decodedlength - rq.decodedskip in
      let place = blkoff sbi (add32 rq.interlaced_offset rq.decodedskip) in
      let right = min (blksiz sbi - place) n in
      let c = memcpy (memcpy out 0 rq.input place right) right rq.input 0 (n - right) in
      (
        c,
        rw
            (
              decompress_interlaced,
              le→ltb (blksiz sbi) rq.inputsize size,
              le→ltb (blksiz sbi) rq.decodedlength length,
              le→ltb rq.decodedlength rq.decodedskip skip,
            )
            refl,
        subst (λ (p : ℕ). IsCopy from_offset p n out c) {x = 0 + rq.decodedskip} (omega arith)
            (interlaced-IsCopy sbi from_offset rq.input out rq.interlaced_offset 0 rq.decodedlength
              rq.decodedskip rq.decodedlength z s length skip (omega arith)
              (λ i l r. ap rq.input (
                sym (
                  ap (λ (x : ℕ). x % blksiz sbi) {x = rq.interlaced_offset + (0 + i)}
                    {y = rq.interlaced_offset + i} (omega arith)
                  ∙ mod-eq_of_lt r)))
              (λ i l r. ap rq.input (
                sym (
                  ap (λ (x : ℕ). x % blksiz sbi) {x = rq.interlaced_offset + (0 + i)}
                    {y = rq.interlaced_offset + i} (omega arith)
                  ∙ elim (mod-wrap (rq.interlaced_offset + i) (blksiz sbi)
                      (omega (arith, s, l, length))) [
                        | inl (h, e) ↦ absurd (omega (arith, h, r))
                        | inr (h, e) ↦ e
                      ])))),
      )

  refused_or_accepted : IsRefused ⊎ IsAccepted
  refused_or_accepted = elim (Bool-cases (ltb (blksiz sbi) rq.inputsize)) [
    | inl t ↦ inl (inl (ltb→lt _ _ t))
    | inr f ↦ elim (Bool-cases (ltb (blksiz sbi) rq.decodedlength)) [
      | inl t ↦ inl (inr (inl (ltb→lt _ _ t)))
      | inr g ↦ elim (Bool-cases (ltb rq.decodedlength rq.decodedskip)) [
        | inl t ↦ inl (inr (inr (ltb→lt _ _ t)))
        | inr h ↦ inr (ltb→le _ _ f, ltb→le _ _ g, ltb→le _ _ h)
      ]
    ]
  ]

  decompress_interlaced-IsRefused :
      IsRefused → decompress_interlaced sbi rq out ≡ (some efscorrupted, out)
  unfolding decompress_interlaced
  decompress_interlaced-IsRefused h = ground (arith, h)

-- A request for interlaced data is refused or answered by its lengths alone.
pub decompress-IsRotation :
    (sbi : SbInfo) (codec : DecompressReq → Buf → Option ℕ × Buf) (rq : DecompressReq) (out : Buf)
    → sbi.blkszbits ≤ 16
    → rq.interlaced_offset < blksiz sbi
    → rq.alg ≡ compression_max + 1
    → (IsRefused sbi rq out × (decompress sbi codec rq out ≡ (some efscorrupted, out)))
      ⊎ (IsAccepted sbi rq out
          × ((c : Buf) × (decompress sbi codec rq out ≡ (none, c)) × IsRotation sbi rq out c))
unfolding decompress
decompress-IsRotation sbi codec rq out z s alg =
    let interlaced = eq→== rq.alg (compression_max + 1) alg in
    rw (decompress, interlaced)
      (elim (refused_or_accepted sbi rq out) [
        | inl h ↦ inl (h, decompress_interlaced-IsRefused sbi rq out h)
        | inr h ↦ inr (h, decompress_interlaced-IsRotation sbi rq out z s h)
      ])
