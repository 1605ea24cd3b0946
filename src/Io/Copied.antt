-- ===== src/Io/Copied.antt =====
-- Ranges of memory that are copied, one behind the other.
use erofs_utils.Base.{ℕ, ◌+◌, ◌-◌, ◌≤◌, ◌<◌, ◌≡◌, ◌⊎◌, inl, inr, ap, ◌∙◌, arith}
use erofs_utils.Base.Memory.{Buf}
use erofs_utils.Device.{blit}

-- `c` has the first `n` bytes of `f` from `p` on, and is `b` elsewhere.
pub record Copied (b : Buf) (p : ℕ) (f : Buf) (n : ℕ) (c : Buf) : Type 0 where
  pub inside : (i : ℕ) → i < n → c (p + i) ≡ f i
  pub outside : (i : ℕ) → (i < p) ⊎ (p + n ≤ i) → c i ≡ b i

pub blit-Copied : (b : Buf) (p : ℕ) (f : Buf) (n : ℕ) → Copied b p f n (blit b p f n)
unfolding blit
blit-Copied b p f n = record {
  inside = λ i h. ground (arith, h, ap f {x = p + i - p} {y = i} (omega arith));
  outside = λ i h. ground (arith, h);
}

pub Copied-append :
    (b c d : Buf) (p : ℕ) (f g : Buf) (n m : ℕ)
    → ((i : ℕ) → g i ≡ f (n + i))
    → Copied b p f n c
    → Copied c (p + n) g m d
    → Copied b p f (n + m) d
Copied-append b c d p f g n m same h k = record {
  inside = λ i l.
      let where_is : (i < n) ⊎ (n ≤ i) = ground arith in
      elim where_is [
        | inl before ↦ k.outside (p + i) (inl (omega (arith, before))) ∙ h.inside i before
        | inr behind ↦
            ap d {x = p + i} {y = p + n + (i - n)} (omega (arith, behind))
            ∙ k.inside (i - n) (omega (arith, behind, l))
            ∙ same (i - n)
            ∙ ap f {x = n + (i - n)} {y = i} (omega (arith, behind))
      ];
  outside = λ i l.
      k.outside i (elim l [ inl lo ↦ inl (omega (arith, lo)) | inr hi ↦ inr (omega (arith, hi)) ])
      ∙ h.outside i (elim l [ inl lo ↦ inl lo | inr hi ↦ inr (omega (arith, hi)) ]);
}

pub two_steps :
    (b : Buf) (p q : ℕ) (f : Buf) (n m : ℕ)
    → Copied b p
        (λ i. f (q + i))
        (n + m)
        (blit (blit b p (λ i. f (q + i)) n) (p + n) (λ i. f (q + n + i)) m)
two_steps b p q f n m =
    let c = blit b p (λ i. f (q + i)) n in
    Copied-append b c (blit c (p + n) (λ i. f (q + n + i)) m) p (λ i. f (q + i))
      (λ i. f (q + n + i)) n m (λ i. ap f {x = q + n + i} {y = q + (n + i)} (omega arith))
      (blit-Copied b p (λ i. f (q + i)) n) (blit-Copied c (p + n) (λ i. f (q + n + i)) m)
