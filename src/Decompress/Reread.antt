-- ===== src/Decompress/Reread.antt =====
-- lib/decompress.c, lib/compress.c: z_erofs_decompress on a block of write_uncompressed_extent.
use erofs_utils.Base.{
  ℕ, ◌+◌, ◌-◌, ◌%◌, ◌^◌, ◌≤◌, ◌<◌, ◌≡◌, refl, sym, ap, ◌∙◌, inl, inr, false, min, Option, none,
  le→ltb, Bool-cases, ◌==◌, eq→==, if◌then◌else◌, arith,
}
use erofs_utils.Base.Bits.{two_pow-pos, two_pow_le}
use erofs_utils.Base.Memory.{Buf, memset, memcpy}
use erofs_utils.Geometry.{SbInfo, blksiz}
use erofs_utils.Inode.{Inode}
use erofs_utils.Zmap.{interlaced_pcluster}
use erofs_utils.Zmap.Extent.{compression_max}
use erofs_utils.Compress.{fill_uncompressed}
use erofs_utils.Decompress.{DecompressReq, decompress_interlaced, decompress_shifted, decompress}
use erofs_utils.Decompress.Raw.{
  rotated, rotated_right, rotated_left, IsCopy, memcpy-IsCopy, interlaced-IsCopy,
}

module _ (sbi : SbInfo) (codec : DecompressReq → Buf → Option ℕ × Buf) (queue : Buf)
    (queue_head count : ℕ) (base : Buf) (rq : DecompressReq) (out : Buf) where
  abbrev IsRead : Type 0
  IsRead =
      (c : Buf) × (decompress sbi codec rq out ≡ (none, c))
      × IsCopy queue (queue_head + rq.decodedskip) (rq.decodedlength - rq.decodedskip) out c

  decompress_interlaced-rotated :
      sbi.blkszbits ≤ 16
      → rq.interlaced_offset < blksiz sbi
      → count ≤ blksiz sbi
      → ((i : ℕ)
          → i < blksiz sbi
          → rq.input i ≡ rotated base (blksiz sbi) rq.interlaced_offset queue queue_head count i)
      → rq.alg ≡ compression_max + 1
      → rq.inputsize ≡ blksiz sbi
      → rq.decodedskip ≤ rq.decodedlength
      → rq.decodedlength ≤ count
      → IsRead
  unfolding decompress decompress_interlaced
  decompress_interlaced-rotated z s fits same alg size skip length = (
    _,
    rw
        (
          decompress,
          eq→== rq.alg (compression_max + 1) alg,
          le→ltb (blksiz sbi) rq.inputsize (omega (arith, size)),
          le→ltb (blksiz sbi) rq.decodedlength (omega (arith, length, fits)),
          le→ltb rq.decodedlength rq.decodedskip skip,
        )
        refl,
    interlaced-IsCopy sbi queue rq.input out rq.interlaced_offset queue_head count rq.decodedskip
        rq.decodedlength z s fits skip length
        (λ i l r.
          same (rq.interlaced_offset + i) r
          ∙ rotated_right base (blksiz sbi) rq.interlaced_offset queue queue_head count i s fits l
              r)
        (λ i l r.
          same (rq.interlaced_offset + i - blksiz sbi) (omega (arith, l, r, s, fits))
          ∙ rotated_left base (blksiz sbi) rq.interlaced_offset queue queue_head count i s l r),
  )

  decompress_shifted-rotated :
      sbi.blkszbits ≤ 16
      → count ≤ blksiz sbi
      → ((i : ℕ)
          → i < blksiz sbi
          → rq.input i ≡ rotated base (blksiz sbi) 0 queue queue_head count i)
      → rq.alg ≡ compression_max
      → rq.inputsize ≡ blksiz sbi
      → rq.decodedskip ≤ rq.decodedlength
      → rq.decodedlength ≤ count
      → IsRead
  unfolding decompress decompress_shifted
  decompress_shifted-rotated z fits same alg size skip length =
      let not_interlaced : (rq.alg == compression_max + 1) ≡ false = ground (arith, alg) in
      let small = two_pow_le 16 sbi.blkszbits z in
      let n : (rq.decodedlength + 2 ^ 32 - rq.decodedskip) % 2 ^ 32
          ≡ rq.decodedlength - rq.decodedskip =
        omega (arith, skip, length, fits, small) in
      (
        memcpy out 0 rq.input rq.decodedskip (rq.decodedlength - rq.decodedskip),
        rw
            (
              decompress,
              not_interlaced,
              eq→== rq.alg compression_max alg,
              le→ltb rq.inputsize rq.decodedlength (omega (arith, size, length, fits)),
              n,
            )
            refl,
        memcpy-IsCopy out rq.input queue rq.decodedskip (queue_head + rq.decodedskip)
            (rq.decodedlength - rq.decodedskip)
            (λ i l.
              ap rq.input {x = rq.decodedskip + i} {y = 0 + (rq.decodedskip + i)} (omega arith)
              ∙ same (0 + (rq.decodedskip + i)) (omega (arith, l, length, fits))
              ∙ rotated_right base (blksiz sbi) 0 queue queue_head count (rq.decodedskip + i)
                  (two_pow-pos sbi.blkszbits) fits (omega (arith, l, length))
                  (omega (arith, l, length, fits))
              ∙ ap queue {x = queue_head + (rq.decodedskip + i)}
                  {y = queue_head + rq.decodedskip + i} (omega arith)),
      )

-- Of a block that write_uncompressed_extent has filled, any part is read back.
pub decompress-fill_uncompressed :
    (sbi : SbInfo) (inode : Inode) (codec : DecompressReq → Buf → Option ℕ × Buf) (clusterofs : ℕ)
    (queue : Buf) (queue_head len : ℕ) (dst : Buf) (rq : DecompressReq) (out : Buf)
    → sbi.blkszbits ≤ 16
    → clusterofs < blksiz sbi
    → ((i : ℕ)
        → i < blksiz sbi
        → rq.input i ≡ (fill_uncompressed sbi inode clusterofs queue queue_head len dst).0 i)
    → rq.alg ≡ (if interlaced_pcluster inode then compression_max + 1 else compression_max)
    → rq.interlaced_offset ≡ (if interlaced_pcluster inode then clusterofs else 0)
    → rq.inputsize ≡ blksiz sbi
    → rq.decodedskip ≤ rq.decodedlength
    → rq.decodedlength ≤ (fill_uncompressed sbi inode clusterofs queue queue_head len dst).1
    → (c : Buf) × (decompress sbi codec rq out ≡ (none, c))
      × IsCopy queue (queue_head + rq.decodedskip) (rq.decodedlength - rq.decodedskip) out c
unfolding fill_uncompressed
decompress-fill_uncompressed sbi inode codec clusterofs queue queue_head len dst rq out z s same alg
      start size skip length =
    let base = memset dst 0 0 (blksiz sbi) in
    let count = min (blksiz sbi) len in
    let fill = λ (o i : ℕ). rotated base (blksiz sbi) o queue queue_head count i in
    elim (Bool-cases (interlaced_pcluster inode)) [
      | inl t ↦
          let offset : (if interlaced_pcluster inode then clusterofs else 0) ≡ clusterofs =
            rw t refl in
          decompress_interlaced-rotated sbi codec queue queue_head count base rq out z
            (omega (arith, start, offset, s)) (omega arith)
            (λ i l. same i l ∙ ap (λ (o : ℕ). fill o i) (sym start)) (alg ∙ rw t refl) size skip
            length
      | inr f ↦
          let offset : (if interlaced_pcluster inode then clusterofs else 0) ≡ 0 = rw f refl in
          decompress_shifted-rotated sbi codec queue queue_head count base rq out z (omega arith)
            (λ i l. same i l ∙ ap (λ (o : ℕ). fill o i) offset) (alg ∙ rw f refl) size skip length
    ]
