-- ===== src/Io/Preads.antt =====
-- What the loops do when the calls answer in whole, and when one answers short.
use erofs_utils.Base.{
  ℕ, zero, suc, ◌+◌, ◌-◌, ◌≤◌, ◌<◌, ◌≡◌, ◌⊎◌, inl, inr, refl, ap, ◌∙◌, true, false, min, Option,
  some, List, [], ◌∷◌, ◌++◌, ltb, lt→ltb, le→ltb, ltb→lt, Bool-cases, subst, ◌==◌, replicate, arith,
}
use erofs_utils.Base.Memory.{Buf}
use erofs_utils.Base.Errno.{Result, done}
use erofs_utils.Device.{blit}
use erofs_utils.Io.{
  Answer, at_most, interrupted, error, pread_loop, pwrite_loop, io_pread_calls, io_pwrite,
}
use erofs_utils.Io.Copied.{Copied, blit-Copied, Copied-append, two_steps}

pread_loop-interrupted :
    (k : ℕ) (byte : Buf) (answers : List Answer) (b : Buf) (buf pos len read : ℕ)
    → read < len
    → pread_loop byte (replicate k interrupted ++ answers) b buf pos len read
      ≡ pread_loop byte answers b buf pos len read
unfolding pread_loop
pread_loop-interrupted zero byte answers b buf pos len read h = refl
pread_loop-interrupted (suc k) byte answers b buf pos len read h =
    let more : ltb read len ≡ true = ground (arith, h) in
    rw more (pread_loop-interrupted k byte answers b buf pos len read h)

pread_loop-more :
    (byte : Buf) (answers : List Answer) (b : Buf) (buf pos len read n next : ℕ)
    → 0 < n
    → n ≤ len
    → read + n ≡ next
    → next < len
    → pread_loop byte (at_most n ∷ answers) b buf pos len read
      ≡ pread_loop byte answers (blit b buf (λ i. byte (pos + i)) n) (buf + n) (pos + n) len next
unfolding pread_loop
pread_loop-more byte answers b buf pos len read n next h l s t =
    let moved : min n len ≡ n = omega (arith, l) in
    let nonzero : (n == 0) ≡ false = ground (arith, h) in
    rw (pread_loop, moved, nonzero, s, lt→ltb next len t) refl

pread_loop-last :
    (byte : Buf) (answers : List Answer) (b : Buf) (buf pos len read n total : ℕ)
    → 0 < len
    → len ≤ n
    → read + len ≡ total
    → len ≤ total
    → pread_loop byte (at_most n ∷ answers) b buf pos len read
      ≡ some (done total, blit b buf (λ i. byte (pos + i)) len)
unfolding pread_loop
pread_loop-last byte answers b buf pos len read n total h l s t =
    let moved : min n len ≡ len = omega (arith, l) in
    let nonzero : (len == 0) ≡ false = ground (arith, h) in
    rw (pread_loop, moved, nonzero, s, le→ltb total len t) refl

pwrite_loop-more :
    (b : Buf) (answers : List Answer) (file : Buf) (buf pos len written n next : ℕ)
    → 0 < n
    → n ≤ len
    → written + n ≡ next
    → next < len
    → pwrite_loop b (at_most n ∷ answers) file buf pos len written
      ≡ pwrite_loop b answers (blit file pos (λ i. b (buf + i)) n) (buf + n) (pos + n) len next
unfolding pwrite_loop
pwrite_loop-more b answers file buf pos len written n next h l s t =
    let moved : min n len ≡ n = omega (arith, l) in
    let nonzero : (n == 0) ≡ false = ground (arith, h) in
    rw (pwrite_loop, moved, nonzero, s, lt→ltb next len t) refl

pwrite_loop-last :
    (b : Buf) (answers : List Answer) (file : Buf) (buf pos len written n total : ℕ)
    → 0 < len
    → len ≤ n
    → written + len ≡ total
    → len ≤ total
    → pwrite_loop b (at_most n ∷ answers) file buf pos len written
      ≡ some (done total, blit file pos (λ i. b (buf + i)) len)
unfolding pwrite_loop
pwrite_loop-last b answers file buf pos len written n total h l s t =
    let moved : min n len ≡ len = omega (arith, l) in
    let nonzero : (len == 0) ≡ false = ground (arith, h) in
    rw (pwrite_loop, moved, nonzero, s, le→ltb total len t) refl

-- However often the call is interrupted first: when there are all the bytes that it asks for, erofs_io_pread
-- returns their count and has written those bytes of the file into the buffer and nothing else.
pub io_pread_calls-whole :
    (offset : ℕ) (byte : Buf) (k n : ℕ) (answers : List Answer) (b : Buf) (buf pos len : ℕ)
    → 0 < len
    → len ≤ n
    → (c : Buf) × (io_pread_calls offset byte
          (replicate k interrupted ++ (at_most n ∷ answers))
          b
          buf
          pos
          len
        ≡ some (done len, c))
      × Copied b buf (λ i. byte (pos + offset + i)) len c
unfolding io_pread_calls
io_pread_calls-whole offset byte k n answers b buf pos len h l = (
  blit b buf (λ i. byte (pos + offset + i)) len,
  pread_loop-interrupted k byte (at_most n ∷ answers) b buf (pos + offset) len 0 h
      ∙ pread_loop-last byte answers b buf (pos + offset) len 0 n len h l (omega arith)
          (omega arith),
  blit-Copied b buf (λ i. byte (pos + offset + i)) len,
)

-- After a call that reads only `n` of `len` bytes, the loop of erofs_io_pread asks for `len` bytes again: if
-- there are as many, it returns `n + len` and has written `n` bytes behind the `len` bytes of the buffer.
pub io_pread_calls-short :
    (offset : ℕ) (byte : Buf) (answers : List Answer) (b : Buf) (buf pos len n m : ℕ)
    → 0 < n
    → n < len
    → len ≤ m
    → (c : Buf) × (io_pread_calls offset byte (at_most n ∷ at_most m ∷ answers) b buf pos len
        ≡ some (done (n + len), c))
      × Copied b buf (λ i. byte (pos + offset + i)) (n + len) c
unfolding io_pread_calls
io_pread_calls-short offset byte answers b buf pos len n m h l g =
    let first = blit b buf (λ i. byte (pos + offset + i)) n in
    (
      blit first (buf + n) (λ i. byte (pos + offset + n + i)) len,
      pread_loop-more byte (at_most m ∷ answers) b buf (pos + offset) len 0 n n h (omega (arith, l))
            (omega arith) l
          ∙ pread_loop-last byte answers first (buf + n) (pos + offset + n) len n m (n + len)
              (omega (arith, l)) g refl (omega arith),
      two_steps b buf (pos + offset) byte n len,
    )

-- After a call that writes only `n` of `len` bytes, the loop of erofs_io_pwrite asks for `len` bytes to be
-- written again from there on: if there is room, it returns `n + len`, and the `n` bytes of the file behind
-- the `len` bytes asked for are overwritten with what lies behind the buffer in memory.
pub io_pwrite-short :
    (offset : ℕ) (b : Buf) (answers : List Answer) (file : Buf) (buf pos len n m : ℕ)
    → 0 < n
    → n < len
    → len ≤ m
    → (c : Buf) × (io_pwrite offset b (at_most n ∷ at_most m ∷ answers) file buf pos len
        ≡ some (done (n + len), c))
      × Copied file (pos + offset) (λ i. b (buf + i)) (n + len) c
unfolding io_pwrite
io_pwrite-short offset b answers file buf pos len n m h l g =
    let first = blit file (pos + offset) (λ i. b (buf + i)) n in
    (
      blit first (pos + offset + n) (λ i. b (buf + n + i)) len,
      pwrite_loop-more b (at_most m ∷ answers) file buf (pos + offset) len 0 n n h
            (omega (arith, l)) (omega arith) l
          ∙ pwrite_loop-last b answers first (buf + n) (pos + offset + n) len n m (n + len)
              (omega (arith, l)) g refl (omega arith),
      two_steps file (pos + offset) buf b n len,
    )

stop-Copied :
    (b d : Buf) (buf : ℕ) (f : Buf) (most read r : ℕ) (c : Buf)
    → Copied b buf f read d
    → read ≤ most
    → ◌≡◌ {A = Option (Result ℕ × Buf)} (some (done read, d)) (some (done r, c))
    → (r ≤ most) × Copied b buf f r c
stop-Copied b d buf f most read r c k l e =
    let number : read ≡ r = cc in
    let memory : d ≡ c = cc in
    (
      omega (arith, number, l),
      subst (λ (n : ℕ). Copied b buf f n c) number
          (subst (λ (x : Buf). Copied b buf f read x) memory k),
    )

-- The loop from where `read` bytes have been copied.
pread_loop-Copied :
    (answers : List Answer) (byte b d : Buf) (buf pos buf' pos' len read r : ℕ) (c : Buf)
    → buf' ≡ buf + read
    → pos' ≡ pos + read
    → Copied b buf (λ i. byte (pos + i)) read d
    → (read < len) ⊎ (read ≡ 0)
    → pread_loop byte answers d buf' pos' len read ≡ some (done r, c)
    → (r ≤ len + len - 1) × Copied b buf (λ i. byte (pos + i)) r c
unfolding pread_loop
pread_loop-Copied [] byte b d buf pos buf' pos' len read r c p q k l e = cc
pread_loop-Copied (error x ∷ answers) byte b d buf pos buf' pos' len read r c p q k l e = cc
pread_loop-Copied (interrupted ∷ answers) byte b d buf pos buf' pos' len read r c p q k l e =
    elim (Bool-cases (ltb read len)) [
      | inl t ↦
          pread_loop-Copied answers byte b d buf pos buf' pos' len read r c p q k l
            (rw (pread_loop, t) at e)
      | inr f ↦
          stop-Copied b d buf (λ i. byte (pos + i)) (len + len - 1) read r c k (omega (arith, l))
            (rw (pread_loop, f) at e)
    ]
pread_loop-Copied (at_most n ∷ answers) byte b d buf pos buf' pos' len read r c p q k l e =
    let ret = min n len in
    let d' = blit d buf' (λ i. byte (pos' + i)) ret in
    let copied : Copied b buf (λ i. byte (pos + i)) (read + ret) d' =
      Copied-append b d d' buf (λ i. byte (pos + i)) (λ i. byte (pos' + i)) read ret
        (λ i. ap byte {x = pos' + i} {y = pos + (read + i)} (omega (arith, q))) k
        (subst (λ (x : ℕ). Copied d x (λ i. byte (pos' + i)) ret d') p
          (blit-Copied d buf' (λ i. byte (pos' + i)) ret)) in
    elim (Bool-cases (ret == 0)) [
      | inl z ↦
          stop-Copied b d buf (λ i. byte (pos + i)) (len + len - 1) read r c k (omega (arith, l))
            (rw (pread_loop, z) at e)
      | inr y ↦ elim (Bool-cases (ltb (read + ret) len)) [
        | inl t ↦
            pread_loop-Copied answers byte b d' buf pos (buf' + ret) (pos' + ret) len (read + ret) r
              c (omega (arith, p)) (omega (arith, q)) copied (inl (ltb→lt _ _ t))
              (rw (pread_loop, y, t) at e)
        | inr f ↦
            stop-Copied b d' buf (λ i. byte (pos + i)) (len + len - 1) (read + ret) r c copied
              (omega (arith, l)) (rw (pread_loop, y, f) at e)
      ]
    ]

-- Whatever the calls do: when erofs_io_pread returns a count, it has written that many bytes of the file into
-- the buffer, from the offset on, and nothing else, and the count is less than two times what was asked for,
-- or 0.
pub io_pread_calls-Copied :
    (offset : ℕ) (byte : Buf) (answers : List Answer) (b : Buf) (buf pos len r : ℕ) (c : Buf)
    → io_pread_calls offset byte answers b buf pos len ≡ some (done r, c)
    → (r ≤ len + len - 1) × Copied b buf (λ i. byte (pos + offset + i)) r c
unfolding io_pread_calls
io_pread_calls-Copied offset byte answers b buf pos len r c e =
    pread_loop-Copied answers byte b b buf (pos + offset) buf (pos + offset) len 0 r c (omega arith)
      (omega arith) (record { inside = λ i h. absurd (omega (arith, h)); outside = λ i h. refl })
      (inr refl) e
