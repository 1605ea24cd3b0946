-- ===== src/Compress/Extents.antt =====
-- lib/compress.c: the extents of a whole file, and the first field of their heads.
use erofs_utils.Base.{
  ℕ, zero, suc, ◌+◌, ◌*◌, ◌/◌, ◌%◌, ◌^◌, ◌≤◌, ◌<◌, ◌≡◌, refl, ap, ◌∙◌, ◌⊎◌, inl, inr, bit_and,
  bit_or, if◌then◌else◌, List, [], ◌∷◌, ◌++◌, length, get_elem?, arith, Bool-cases,
}
use erofs_utils.Base.Bits.{two_pow-pos}
use erofs_utils.Geometry.{SbInfo, blksiz}
use erofs_utils.Dedupe.{InmemExtent}
use erofs_utils.Compress.{head_type, partial_ref}
use native.Mathlib.Nat.{
  lt_of_mul-lt-mul_right, add-mul, mod-lt, div-add-mod', mul-add-div_right, mul-add-mod_self_right,
}

-- `e` is one of the extents, and starts at byte `at` of the file; the first one starts at `s`.
abbrev pub Holds : ℕ → List InmemExtent → ℕ → InmemExtent → Type 0
Holds s [] at e = ⊥
Holds s (x ∷ es) at e = ((at ≡ s) × (e ≡ x)) ⊎ Holds (s + x.length) es at e

module _ (sbi : SbInfo) where
  -- Extents as mkfs builds them: none is empty, and all but the last reach the end of the block that they
  -- start in.
  abbrev pub IsExtents : ℕ → List InmemExtent → Type 0
  IsExtents s [] = Unit
  IsExtents s (x ∷ es) =
      (0 < x.length)
      × (s % blksiz sbi + x.length < 2 ^ 31)
      × ((es ≡ []) ⊎ (blksiz sbi ≤ s % blksiz sbi + x.length))
      × IsExtents (s + x.length) es

  -- the block that an extent ends in, and the bytes of it that it takes
  pub end_of :
      (s len : ℕ)
      → ((s + len) / blksiz sbi ≡ s / blksiz sbi + (s % blksiz sbi + len) / blksiz sbi)
        × ((s + len) % blksiz sbi ≡ (s % blksiz sbi + len) % blksiz sbi)
  end_of s len =
      let whole : s + len ≡ s / blksiz sbi * blksiz sbi + (s % blksiz sbi + len) =
        omega (arith, div-add-mod' s (blksiz sbi)) in
      (
        ap (λ (t : ℕ). t / blksiz sbi) whole
            ∙ mul-add-div_right (two_pow-pos sbi.blkszbits) (s / blksiz sbi) (s % blksiz sbi + len),
        ap (λ (t : ℕ). t % blksiz sbi) whole
            ∙ mul-add-mod_self_right (s / blksiz sbi) (blksiz sbi) (s % blksiz sbi + len),
      )

pub get_elem-append {ℓ} :
    {A : Type ℓ} (xs ys : List A) (k : ℕ) → get_elem? (xs ++ ys) (length xs + k) ≡ get_elem? ys k
get_elem-append [] ys k = ap (get_elem? ys) {x = 0 + k} {y = k} (omega arith)
get_elem-append (x ∷ xs) ys k =
    ap (get_elem? (x ∷ (xs ++ ys))) {x = suc (length xs) + k} {y = suc (length xs + k)}
      (omega arith)
    ∙ get_elem-append xs ys k

pub get_elem-append_first {ℓ} :
    {A : Type ℓ} (xs ys : List A) (k : ℕ) → k < length xs → get_elem? (xs ++ ys) k ≡ get_elem? xs k
get_elem-append_first [] ys k h = absurd (omega arith)
get_elem-append_first (x ∷ xs) ys zero h = refl
get_elem-append_first (x ∷ xs) ys (suc k) h = get_elem-append_first xs ys k (omega arith)

pub zero_or_suc : (n : ℕ) → (n ≡ 0) ⊎ ((d : ℕ) × (n ≡ suc d))
zero_or_suc zero = inl refl
zero_or_suc (suc n) = inr (n, refl)

module _ (sbi : SbInfo) where
  pub block_cases : (x : ℕ) → (x < blksiz sbi) ⊎ ((d : ℕ) × (x / blksiz sbi ≡ suc d))
  block_cases x = elim (zero_or_suc (x / blksiz sbi)) [
    | inl z ↦ inl (
        omega (
          arith,
          div-add-mod' x (blksiz sbi),
          mod-lt x (two_pow-pos sbi.blkszbits),
          ap (λ (t : ℕ). t * blksiz sbi) z,
        ))
    | inr q ↦ inr q
  ]

  pub div_mono : (x y : ℕ) → x ≤ y → x / blksiz sbi ≤ y / blksiz sbi
  div_mono x y l =
      let less : x / blksiz sbi < y / blksiz sbi + 1 =
        lt_of_mul-lt-mul_right (blksiz sbi) {m = x / blksiz sbi} {n = y / blksiz sbi + 1} (
          omega (
            arith,
            add-mul (y / blksiz sbi) 1 (blksiz sbi),
            div-add-mod' x (blksiz sbi),
            div-add-mod' y (blksiz sbi),
            mod-lt y (two_pow-pos sbi.blkszbits),
          )) in
      omega (arith, less)

-- the first field of a head
abbrev pub IsAdvise : ℕ → ℕ → Type 0
IsAdvise advise type = (advise < 2 ^ 16) × (bit_and advise 3 ≡ type)

pub head_type-lt : (e : InmemExtent) → head_type e < 2
unfolding head_type
head_type-lt e = elim (Bool-cases e.raw) [ inl t ↦ rw t (omega arith) | inr f ↦ rw f (omega arith) ]

pub head_type-IsAdvise : (e : InmemExtent) → IsAdvise (head_type e) (head_type e)
unfolding head_type
head_type-IsAdvise e = elim (Bool-cases e.raw) [
  | inl t ↦ rw t (omega arith, refl)
  | inr f ↦ rw f (omega arith, refl)
]

pub partial_ref-IsAdvise :
    (e : InmemExtent)
    → IsAdvise (bit_or (if e.partial then partial_ref else 0) (head_type e)) (head_type e)
unfolding head_type
partial_ref-IsAdvise e = elim (Bool-cases e.partial) [
  | inl p ↦ elim (Bool-cases e.raw) [
    | inl t ↦ rw (p, t) (omega arith, refl)
    | inr f ↦ rw (p, f) (omega arith, refl)
  ]
  | inr p ↦ elim (Bool-cases e.raw) [
    | inl t ↦ rw (p, t) (omega arith, refl)
    | inr f ↦ rw (p, f) (omega arith, refl)
  ]
]
