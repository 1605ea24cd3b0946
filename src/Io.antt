-- ===== src/Io.antt =====
-- lib/io.c: the loops of erofs_io_pread and erofs_io_pwrite over the system calls, for a
-- file with no operations of its own and no dry run. What each call answers is an argument.
pub mod Copied
pub mod Preads
use erofs_utils.Base.{
  ℕ, zero, suc, ◌+◌, ◌-◌, Bool, true, false, Option, none, some, List, [], ◌∷◌, ltb, min, ◌==◌,
  if◌then◌else◌,
}
use erofs_utils.Base.Memory.{Buf}
use erofs_utils.Base.Errno.{Result, done, fail}
use erofs_utils.Device.{blit}

-- What a call of pread or pwrite does: it moves as many bytes as it is asked for, but not more than there
-- are at the moment, or it gives -1 with EINTR, or -1 with another error.
pub data Answer : Type 0 where
  at_most : ℕ → Answer
  interrupted : Answer
  error : ℕ → Answer

-- The loop of erofs_io_pread: `b` is the memory, `buf` and `pos` the moving pointer and offset. Each round
-- asks for `len` bytes. `none`: no more answers are given.
unfoldable pub pread_loop : Buf → List Answer → Buf → ℕ → ℕ → ℕ → ℕ → Option (Result ℕ × Buf)
pread_loop byte [] b buf pos len read = none
pread_loop byte (error e ∷ answers) b buf pos len read = some (fail e, b)
pread_loop byte (interrupted ∷ answers) b buf pos len read =
    let rest = pread_loop byte answers b buf pos len read in
    if ltb read len then rest else some (done read, b)
pread_loop byte (at_most n ∷ answers) b buf pos len read =
    let ret = min n len in
    let b' = blit b buf (λ i. byte (pos + i)) ret in
    let rest = pread_loop byte answers b' (buf + ret) (pos + ret) len (read + ret) in
    if ret == 0
    then some (done read, b)
    else if ltb (read + ret) len
    then rest
    else some (done (read + ret), b')

-- The loop of erofs_io_pwrite: `file` are the bytes of the file, `b` the memory. Each round asks for `len`
-- bytes.
unfoldable pub pwrite_loop : Buf → List Answer → Buf → ℕ → ℕ → ℕ → ℕ → Option (Result ℕ × Buf)
pwrite_loop b [] file buf pos len written = none
pwrite_loop b (error e ∷ answers) file buf pos len written = some (fail e, file)
pwrite_loop b (interrupted ∷ answers) file buf pos len written =
    let rest = pwrite_loop b answers file buf pos len written in
    if ltb written len then rest else some (done written, file)
pwrite_loop b (at_most n ∷ answers) file buf pos len written =
    let ret = min n len in
    let file' = blit file pos (λ i. b (buf + i)) ret in
    let rest = pwrite_loop b answers file' (buf + ret) (pos + ret) len (written + ret) in
    if ret == 0
    then some (done written, file)
    else if ltb (written + ret) len
    then rest
    else some (done (written + ret), file')

-- erofs_io_pread and erofs_io_pwrite; `offset` is vf->offset
unfoldable pub io_pread_calls : ℕ → Buf → List Answer → Buf → ℕ → ℕ → ℕ → Option (Result ℕ × Buf)
io_pread_calls offset byte answers b buf pos len =
    pread_loop byte answers b buf (pos + offset) len 0

unfoldable pub io_pwrite : ℕ → Buf → List Answer → Buf → ℕ → ℕ → ℕ → Option (Result ℕ × Buf)
io_pwrite offset b answers file buf pos len = pwrite_loop b answers file buf (pos + offset) len 0
