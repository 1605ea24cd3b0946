-- ===== src/Decompress.antt =====
-- lib/decompress.c: data that is stored raw, in the place of compressed data. An int that is returned is none
-- for 0, and some e for -e; the buffers `in` and `out` start at 0.
pub mod Raw
pub mod Reread
pub mod Anywhere
use erofs_utils.Base.{
  ℕ, ◌+◌, ◌-◌, ◌%◌, ◌^◌, min, Bool, Option, none, some, ltb, ◌==◌, if◌then◌else◌,
}
use erofs_utils.Base.Memory.{Buf, memcpy}
use erofs_utils.Base.Words.{add32}
use erofs_utils.Base.Errno.{efscorrupted}
use erofs_utils.Geometry.{SbInfo, blksiz, blkoff}
use erofs_utils.Zmap.Extent.{compression_max}

-- `struct z_erofs_decompress_req`, less the superblock and `out`
pub record DecompressReq : Type 0 where
  pub input : Buf
  pub decodedskip : ℕ
  pub inputsize : ℕ
  pub decodedlength : ℕ
  pub interlaced_offset : ℕ
  pub alg : ℕ
  pub partial_decoding : Bool

-- Z_EROFS_COMPRESSION_INTERLACED
unfoldable pub decompress_interlaced : SbInfo → DecompressReq → Buf → Option ℕ × Buf
decompress_interlaced sbi rq out =
    let count = rq.decodedlength - rq.decodedskip in
    let skip = blkoff sbi (add32 rq.interlaced_offset rq.decodedskip) in
    let rightpart = min (blksiz sbi - skip) count in
    if ltb (blksiz sbi) rq.inputsize
    then (some efscorrupted, out)
    else if ltb (blksiz sbi) rq.decodedlength
    then (some efscorrupted, out)
    else if ltb rq.decodedlength rq.decodedskip
    then (some efscorrupted, out)
    else (
      none,
      memcpy (memcpy out 0 rq.input skip rightpart) rightpart rq.input 0 (count - rightpart),
    )

-- Z_EROFS_COMPRESSION_SHIFTED
unfoldable pub decompress_shifted : DecompressReq → Buf → Option ℕ × Buf
decompress_shifted rq out =
    if ltb rq.inputsize rq.decodedlength then (some efscorrupted, out) else (
      none,
      memcpy out 0 rq.input rq.decodedskip ((rq.decodedlength + 2 ^ 32 - rq.decodedskip) % 2 ^ 32),
    )

-- z_erofs_decompress; `codec` is what it does with the libraries that the build has
unfoldable pub decompress :
    SbInfo → (DecompressReq → Buf → Option ℕ × Buf) → DecompressReq → Buf → Option ℕ × Buf
decompress sbi codec rq out =
    if rq.alg == compression_max + 1
    then decompress_interlaced sbi rq out
    else if rq.alg == compression_max
    then decompress_shifted rq out
    else codec rq out
