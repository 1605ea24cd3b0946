-- ===== src/Decompress/Raw.antt =====
-- lib/decompress.c, lib/compress.c: raw data is read as it was written.
use erofs_utils.Base.{
  ℕ, ◌+◌, ◌-◌, ◌*◌, ◌%◌, ◌≤◌, ◌<◌, ◌≡◌, ap, ◌∙◌, ◌⊎◌, inl, inr, min, ltb, ltb→lt, ltb→le,
  Bool-cases, arith,
}
use erofs_utils.Base.Bits.{two_pow_le}
use erofs_utils.Base.Memory.{Buf, memcpy, memcpy_inside, memcpy_outside}
use erofs_utils.Base.Words.{add32}
use erofs_utils.Geometry.{SbInfo, blksiz, blkoff}
use erofs_utils.Geometry.Laws.{blkoff-mod}
use native.Mathlib.Nat.{mod-eq_of_lt, mul-add-mod_self_right}

-- a block that is filled from `start` on, and goes on at its beginning
abbrev pub rotated : Buf → ℕ → ℕ → Buf → ℕ → ℕ → Buf
rotated b size start queue head count =
    let right = min (size - start) count in
    memcpy (memcpy b start queue head right) 0 queue (head + right) (count - right)

pub rotated_right :
    (b : Buf) (size start : ℕ) (queue : Buf) (head count i : ℕ)
    → start < size
    → count ≤ size
    → i < count
    → start + i < size
    → rotated b size start queue head count (start + i) ≡ queue (head + i)
rotated_right b size start queue head count i s c l r =
    let right = min (size - start) count in
    memcpy_outside (memcpy b start queue head right) 0 queue (head + right) (count - right)
      (start + i) (inr (ground (arith, s, c, l, r)))
    ∙ memcpy_inside b start queue head right (start + i) (omega arith) (ground (arith, s, c, l, r))
    ∙ ap queue {x = head + (start + i - start)} {y = head + i} (omega arith)

pub rotated_left :
    (b : Buf) (size start : ℕ) (queue : Buf) (head count i : ℕ)
    → start < size
    → i < count
    → size ≤ start + i
    → rotated b size start queue head count (start + i - size) ≡ queue (head + i)
rotated_left b size start queue head count i s l r =
    let right = min (size - start) count in
    let whole : right ≡ size - start = ground (arith, s, l, r) in
    memcpy_inside (memcpy b start queue head right) 0 queue (head + right) (count - right)
      (start + i - size) (omega arith) (omega (arith, whole, l, r, s))
    ∙ ap queue {x = head + right + (start + i - size - 0)} {y = head + i}
        (omega (arith, whole, l, r, s))

pub mod-wrap :
    (x size : ℕ)
    → x < size + size
    → ((x < size) × (x % size ≡ x)) ⊎ ((size ≤ x) × (x % size ≡ x - size))
mod-wrap x size h = elim (Bool-cases (ltb x size)) [
  | inl t ↦ inl (ltb→lt _ _ t, mod-eq_of_lt (ltb→lt _ _ t))
  | inr f ↦
      let more = ltb→le x size f in
      inr (
        more,
        ap (λ (y : ℕ). y % size) {x = x} {y = 1 * size + (x - size)} (omega (arith, more))
            ∙ mul-add-mod_self_right 1 size (x - size)
            ∙ mod-eq_of_lt (omega (arith, more, h)),
      )
]

-- `n` bytes are copied, and nothing else is written.
abbrev pub IsCopy : Buf → ℕ → ℕ → Buf → Buf → Type 0
IsCopy queue start n out c =
    ((i : ℕ) → i < n → c i ≡ queue (start + i)) × ((i : ℕ) → n ≤ i → c i ≡ out i)

pub memcpy-IsCopy :
    (out input queue : Buf) (skip start n : ℕ)
    → ((i : ℕ) → i < n → input (skip + i) ≡ queue (start + i))
    → IsCopy queue start n out (memcpy out 0 input skip n)
memcpy-IsCopy out input queue skip start n f = (
  λ i l.
      memcpy_inside out 0 input skip n i (omega arith) (omega (arith, l))
      ∙ ap input {x = skip + (i - 0)} {y = skip + i} (omega arith)
      ∙ f i l,
  λ i l. memcpy_outside out 0 input skip n i (inr (omega (arith, l))),
)

-- two copies, one behind the other
memcpy-memcpy-IsCopy :
    (out input queue : Buf) (skip start right n : ℕ)
    → right ≤ n
    → ((i : ℕ) → i < right → input (skip + i) ≡ queue (start + i))
    → ((i : ℕ) → right ≤ i → i < n → input (i - right) ≡ queue (start + i))
    → IsCopy queue start n out (memcpy (memcpy out 0 input skip right) right input 0 (n - right))
memcpy-memcpy-IsCopy out input queue skip start right n h f g =
    let first = memcpy out 0 input skip right in
    let (inside, outside) = memcpy-IsCopy out input queue skip start right f in
    (
      λ i l. elim (Bool-cases (ltb i right)) [
        | inl t ↦
            memcpy_outside first right input 0 (n - right) i (inl (ltb→lt _ _ t))
            ∙ inside i (ltb→lt _ _ t)
        | inr e ↦
            memcpy_inside first right input 0 (n - right) i (ltb→le _ _ e) (omega (arith, l, h))
            ∙ ap input {x = 0 + (i - right)} {y = i - right} (omega arith)
            ∙ g i (ltb→le _ _ e) l
      ],
      λ i l.
          memcpy_outside first right input 0 (n - right) i (inr (omega (arith, l, h)))
          ∙ outside i (omega (arith, l, h)),
    )

module _ (sbi : SbInfo) (queue input out : Buf) (start queue_head count skip length : ℕ)
    (small : sbi.blkszbits ≤ 16) (inside : start < blksiz sbi) (fits : count ≤ blksiz sbi)
    (some_left : skip ≤ length) (read : length ≤ count)
    (right_part : (i : ℕ)
      → i < count
      → start + i < blksiz sbi
      → input (start + i) ≡ queue (queue_head + i))
    (left_part : (i : ℕ)
      → i < count
      → blksiz sbi ≤ start + i
      → input (start + i - blksiz sbi) ≡ queue (queue_head + i)) where
  interlaced_skip :
      let place = blkoff sbi (add32 start skip) in
      ((start + skip < blksiz sbi) × (place ≡ start + skip))
      ⊎ ((blksiz sbi ≤ start + skip) × (place ≡ start + skip - blksiz sbi))
  interlaced_skip =
      let size = two_pow_le 16 sbi.blkszbits small in
      let no_wrap : add32 start skip ≡ start + skip =
        omega (arith, size, inside, fits, some_left, read) in
      let place : blkoff sbi (add32 start skip) ≡ (start + skip) % blksiz sbi =
        blkoff-mod sbi (add32 start skip) ∙ ap (λ (x : ℕ). x % blksiz sbi) no_wrap in
      elim (mod-wrap (start + skip) (blksiz sbi) (omega (arith, inside, fits, some_left, read))) [
        | inl (l, e) ↦ inl (l, place ∙ e)
        | inr (l, e) ↦ inr (l, place ∙ e)
      ]

  pub interlaced-IsCopy :
      let place = blkoff sbi (add32 start skip) in
      let n = length - skip in
      let right = min (blksiz sbi - place) n in
      IsCopy queue
        (queue_head + skip)
        n
        out
        (memcpy (memcpy out 0 input place right) right input 0 (n - right))
  interlaced-IsCopy =
      let place = blkoff sbi (add32 start skip) in
      let n = length - skip in
      let right = min (blksiz sbi - place) n in
      let shift = λ (i : ℕ).
        ap queue {x = queue_head + (skip + i)} {y = queue_head + skip + i} (omega arith) in
      memcpy-memcpy-IsCopy out input queue place (queue_head + skip) right n (omega arith)
        (λ i l. elim interlaced_skip [
          | inl (h, e) ↦
              ap input {x = place + i} {y = start + (skip + i)} (omega (arith, e))
              ∙ right_part (skip + i) (omega (arith, l, read, some_left)) (omega (arith, e, l, h))
              ∙ shift i
          | inr (h, e) ↦
              ap input {x = place + i} {y = start + (skip + i) - blksiz sbi} (omega (arith, e, h))
              ∙ left_part (skip + i) (omega (arith, l, read, some_left)) (omega (arith, h))
              ∙ shift i
        ])
        (λ i l k. elim interlaced_skip [
          | inl (h, e) ↦
              ap input {x = i - right} {y = start + (skip + i) - blksiz sbi}
                (omega (arith, e, l, k, h))
              ∙ left_part (skip + i) (omega (arith, k, read, some_left)) (omega (arith, e, l, k, h))
              ∙ shift i
          | inr (h, e) ↦ absurd (omega (arith, e, l, k, h, read, some_left, fits, inside))
        ])
