-- ===== src/Tests/Stored.antt =====
-- A block with 400 bytes of raw data, rotated by 300 bytes.
use erofs_utils.Base.{ℕ, ◌⊎◌, ◌≡◌, ◌%◌, refl, none, some, false, Option, arith}
use erofs_utils.Base.Memory.{Buf}
use erofs_utils.Base.Errno.{eopnotsupp, efscorrupted}
use erofs_utils.Inode.{Inode}
use erofs_utils.Zmap.{has_bit}
use erofs_utils.Compress.{fill_uncompressed}
use erofs_utils.Decompress.{DecompressReq, decompress}
use erofs_utils.Decompress.Raw.{IsCopy}
use erofs_utils.Decompress.Anywhere.{IsRefused, IsAccepted, IsRotation, decompress-IsRotation}
use erofs_utils.Decompress.Reread.{decompress-fill_uncompressed}
use erofs_utils.Tests.Image.{sbi, vi, zeros}

abbrev interlaced : Inode
interlaced = record vi { z_advise = 16 }

abbrev bytes : Buf
bytes i = i % 251

abbrev no_codec : DecompressReq → Buf → Option ℕ × Buf
no_codec rq out = (some eopnotsupp, out)

abbrev request : DecompressReq
request = record {
  input = (fill_uncompressed sbi interlaced 300 bytes 40 400 zeros).0;
  decodedskip = 100;
  inputsize = 512;
  decodedlength = 350;
  interlaced_offset = 300;
  alg = 5;
  partial_decoding = false;
}

decompress-fill_uncompressed_example :
    (c : Buf) × (decompress sbi no_codec request zeros ≡ (none, c)) × IsCopy bytes 140 250 zeros c
unfolding fill_uncompressed has_bit
decompress-fill_uncompressed_example =
    decompress-fill_uncompressed sbi interlaced no_codec 300 bytes 40 400 zeros request zeros
      (omega arith) (omega arith) (λ i l. refl) refl refl refl (omega arith) (omega arith)

-- ten bytes of input in the interlaced form, which are looked for at 300
abbrev short_request : DecompressReq
short_request = record {
  input = bytes;
  decodedskip = 0;
  inputsize = 10;
  decodedlength = 10;
  interlaced_offset = 300;
  alg = 5;
  partial_decoding = false;
}

decompress-IsRotation_example :
    (IsRefused sbi short_request zeros
      × (decompress sbi no_codec short_request zeros ≡ (some efscorrupted, zeros)))
    ⊎ (IsAccepted sbi short_request zeros
        × ((c : Buf) × (decompress sbi no_codec short_request zeros ≡ (none, c))
            × IsRotation sbi short_request zeros c))
decompress-IsRotation_example =
    decompress-IsRotation sbi no_codec short_request zeros (omega arith) (omega arith) refl
