-- ===== src/Tests/Calls.antt =====
-- Reads and writes of eight bytes.
use erofs_utils.Base.{◌+◌, ◌-◌, ◌≤◌, ◌≡◌, refl, some, [], ◌∷◌, ◌++◌, replicate, arith}
use erofs_utils.Base.Memory.{Buf}
use erofs_utils.Base.Errno.{done}
use erofs_utils.Device.{blit}
use erofs_utils.Io.{at_most, interrupted, pread_loop, io_pread_calls, io_pwrite}
use erofs_utils.Io.Copied.{Copied}
use erofs_utils.Io.Preads.{
  io_pread_calls-Copied, io_pread_calls-whole, io_pread_calls-short, io_pwrite-short,
}

abbrev file : Buf
file i = i + 1

abbrev memory : Buf
memory i = 0

io_pread_calls-whole_example :
    (c : Buf) × (io_pread_calls 0 file (replicate 2 interrupted ++ (at_most 9 ∷ [])) memory 100 4 8
      ≡ some (done 8, c))
    × Copied memory 100 (λ i. file (4 + 0 + i)) 8 c
io_pread_calls-whole_example =
    io_pread_calls-whole 0 file 2 9 [] memory 100 4 8 (omega arith) (omega arith)

io_pread_calls-short_example :
    (c : Buf) × (io_pread_calls 0 file (at_most 3 ∷ at_most 9 ∷ []) memory 100 4 8
      ≡ some (done (3 + 8), c))
    × Copied memory 100 (λ i. file (4 + 0 + i)) (3 + 8) c
io_pread_calls-short_example =
    io_pread_calls-short 0 file [] memory 100 4 8 3 9 (omega arith) (omega arith) (omega arith)

io_pread_calls-Copied_example :
    (8 ≤ 8 + 8 - 1)
    × Copied memory 100 (λ i. file (4 + 0 + i)) 8 (blit memory 100 (λ i. file (4 + i)) 8)
unfolding io_pread_calls pread_loop
io_pread_calls-Copied_example =
    io_pread_calls-Copied 0 file (interrupted ∷ at_most 9 ∷ []) memory 100 4 8 8
      (blit memory 100 (λ i. file (4 + i)) 8) refl

io_pwrite-short_example :
    (c : Buf) × (io_pwrite 0 memory (at_most 3 ∷ at_most 9 ∷ []) file 100 4 8
      ≡ some (done (3 + 8), c))
    × Copied file (4 + 0) (λ i. memory (100 + i)) (3 + 8) c
io_pwrite-short_example =
    io_pwrite-short 0 memory [] file 100 4 8 3 9 (omega arith) (omega arith) (omega arith)
