-- ===== src/Base/Memory.antt =====
-- C memory as a function from byte offsets: what was never written keeps its stale value, so a read
-- past the end of what was read from disk needs no default. The C string functions that the sources
-- call on such a buffer, and little-endian fields.
use Prim.Native.Nat.{ℕ, zero, suc, ◌+◌, ◌-◌, ◌*◌, ◌/◌, ◌%◌, ◌^◌, ◌≤◌, ◌<◌, compare, Ordering}
use mathlib.Core.Path.{◌≡◌, refl, ap, ap₂, ◌∙◌}
use mathlib.Core.Logic.{◌⊎◌}
use mathlib.Core.Bool.{Bool, true, false, ◌&&◌}
use mathlib.Core.List.{List, [], ◌∷◌, ◌++◌}
use native.Mathlib.Nat.{pow-suc}
use native.Mathlib.Omega.{arith}
use erofs_utils.Base.Tests.{ltb, leb, ◌==◌, if◌then◌else◌}
use erofs_utils.Base.Lists.{length, All}

abbrev pub Buf : Type 0
Buf = ℕ → ℕ

-- memcpy(b + p, bs, length bs)
unfoldable pub store : Buf → ℕ → List ℕ → Buf
store b p [] i = b i
store b p (x ∷ xs) i = if i == p then x else store b (p + 1) xs i

-- memset(b + p, v, n)
unfoldable pub memset : Buf → ℕ → ℕ → ℕ → Buf
memset b p v n i = if leb p i && ltb i (p + n) then v else b i

-- memcpy(b + p, c + q, n)
unfoldable pub memcpy : Buf → ℕ → Buf → ℕ → ℕ → Buf
memcpy b p c q n i = if leb p i && ltb i (p + n) then c (q + (i - p)) else b i

-- the `w` bytes of a number, lowest first, and the number at an offset
abbrev pub le_bytes : ℕ → ℕ → List ℕ
le_bytes zero v = []
le_bytes (suc w) v = v % 256 ∷ le_bytes w (v / 256)

abbrev pub le : ℕ → Buf → ℕ → ℕ
le zero b p = 0
le (suc w) b p = b p + 256 * le w b (p + 1)

-- strnlen(b + p, n)
unfoldable pub strnlen : Buf → ℕ → ℕ → ℕ
strnlen b p zero = 0
strnlen b p (suc n) = elim (b p == 0) [ true ↦ 0 | false ↦ suc (strnlen b (p + 1) n) ]

-- The sign of strncmp(b + p, b + q, n): bytes compare as unsigned, and a NUL in both ends the strings.
unfoldable pub strncmp : Buf → ℕ → ℕ → ℕ → Ordering
strncmp b p q zero = Ordering.eq
strncmp b p q (suc n) = elim (compare (b p) (b q)) [
  | Ordering.lt ↦ Ordering.lt
  | Ordering.gt ↦ Ordering.gt
  | Ordering.eq ↦ elim (b p == 0) [ true ↦ Ordering.eq | false ↦ strncmp b (p + 1) (q + 1) n ]
]

-- the `n` bytes at `p`
abbrev pub bytes_at : Buf → ℕ → ℕ → List ℕ
bytes_at b p zero = []
bytes_at b p (suc n) = b p ∷ bytes_at b (p + 1) n

-- memcmp(b + p, bs, length bs) == 0
abbrev pub memcmp_eq : Buf → ℕ → List ℕ → Bool
memcmp_eq b p [] = true
memcmp_eq b p (x ∷ xs) = b p == x && memcmp_eq b (p + 1) xs

-- The bytes `bs` stand in the buffer from `p` on.
abbrev pub At : Buf → ℕ → List ℕ → Type 0
At b p [] = Unit {0}
At b p (x ∷ xs) = (b p ≡ x) × At b (p + 1) xs

pub At-append :
    (b : Buf) (p q : ℕ) (xs ys : List ℕ)
    → p + length xs ≡ q
    → At b p (xs ++ ys)
    → At b p xs × At b q ys
At-append b p q [] ys e h = let e' : p ≡ q = omega arith in (tt, rw (← e') h)
At-append b p q (x ∷ xs) ys e (h, hs) =
    let rest = At-append b (p + 1) q xs ys (omega arith) hs in ((h, rest.0), rest.1)

pub append-At :
    (b : Buf) (p q : ℕ) (xs ys : List ℕ)
    → p + length xs ≡ q
    → At b p xs
    → At b q ys
    → At b p (xs ++ ys)
append-At b p q [] ys e h k = let e' : p ≡ q = omega arith in rw e' k
append-At b p q (x ∷ xs) ys e (h, hs) k = (h, append-At b (p + 1) q xs ys (omega arith) hs k)

pub At-frame :
    (b c : Buf) (p : ℕ) (bs : List ℕ)
    → ((i : ℕ) → p ≤ i → i < p + length bs → c i ≡ b i)
    → At b p bs
    → At c p bs
At-frame b c p [] same h = tt
At-frame b c p (x ∷ xs) same (e, h) = (
  same p (omega arith) (omega arith) ∙ e,
  At-frame b c (p + 1) xs (λ i lo hi. same i (omega arith) (omega arith)) h,
)

pub store_outside :
    (b : Buf) (p : ℕ) (bs : List ℕ) (i : ℕ) → (i < p) ⊎ (p + length bs ≤ i) → store b p bs i ≡ b i
unfolding store
store_outside b p [] i h = refl
store_outside b p (x ∷ xs) i h = ground (arith, store_outside b (p + 1) xs i)

pub At-store : (b : Buf) (p : ℕ) (bs : List ℕ) → At (store b p bs) p bs
unfolding store
At-store b p [] = tt
At-store b p (x ∷ xs) = (
  ground arith,
  At-frame (store b (p + 1) xs) (store b p (x ∷ xs)) (p + 1) xs (λ i lo hi. ground arith)
      (At-store b (p + 1) xs),
)

pub le-le_bytes : (w : ℕ) (b : Buf) (p v : ℕ) → v < 256 ^ w → At b p (le_bytes w v) → le w b p ≡ v
le-le_bytes zero b p v h a = omega arith
le-le_bytes (suc w) b p v h (e, a) =
    omega (arith, pow-suc 256 w, le-le_bytes w b (p + 1) (v / 256) (omega (arith, pow-suc 256 w)) a)

pub memcmp_eq_iff : (b : Buf) (p : ℕ) (bs : List ℕ) → memcmp_eq b p bs ≡ true → At b p bs
memcmp_eq_iff b p [] h = tt
memcmp_eq_iff b p (x ∷ xs) h = ground (arith, memcmp_eq_iff b (p + 1) xs)

pub At→memcmp_eq : (b : Buf) (p : ℕ) (bs : List ℕ) → At b p bs → memcmp_eq b p bs ≡ true
At→memcmp_eq b p [] h = refl
At→memcmp_eq b p (x ∷ xs) (e, h) = ground (arith, At→memcmp_eq b (p + 1) xs h)

pub length-le_bytes : (w v : ℕ) → length (le_bytes w v) ≡ w
length-le_bytes zero v = refl
length-le_bytes (suc w) v = ap suc (length-le_bytes w (v / 256))

pub At-bytes_at : (b : Buf) (p : ℕ) (bs : List ℕ) → At b p bs → bytes_at b p (length bs) ≡ bs
At-bytes_at b p [] h = refl
At-bytes_at b p (x ∷ xs) (e, h) = ap₂ ◌∷◌ e (At-bytes_at b (p + 1) xs h)

-- A C string of nonzero bytes, ended by a NUL or by the bound.
pub strnlen-At :
    (b : Buf) (p n : ℕ) (bs : List ℕ)
    → At b p bs
    → All (λ x. 0 < x) bs
    → length bs ≤ n
    → ((length bs < n) → b (p + length bs) ≡ 0)
    → strnlen b p n ≡ length bs
unfolding strnlen
strnlen-At b p zero [] a nz h z = refl
strnlen-At b p (suc n) [] a nz h z =
    ground (arith, z (omega arith), ap b {x = p + 0} {y = p} (omega arith))
strnlen-At b p zero (x ∷ xs) a nz h z = absurd (omega arith)
strnlen-At b p (suc n) (x ∷ xs) (e, a) (nx, nz) h z = ground (
  arith,
  strnlen-At b (p + 1) n xs a nz (omega arith)
      (λ l. ap b {x = p + 1 + length xs} {y = p + suc (length xs)} (omega arith) ∙ z (omega arith)),
)

abbrev pub IsBytes : Buf → Type 0
IsBytes b = (i : ℕ) → b i < 256

pub memcpy_inside :
    (b : Buf) (p : ℕ) (c : Buf) (q n i : ℕ)
    → p ≤ i
    → i < p + n
    → memcpy b p c q n i ≡ c (q + (i - p))
unfolding memcpy
memcpy_inside b p c q n i lo hi = ground arith

pub memcpy_outside :
    (b : Buf) (p : ℕ) (c : Buf) (q n i : ℕ) → (i < p) ⊎ (p + n ≤ i) → memcpy b p c q n i ≡ b i
unfolding memcpy
memcpy_outside b p c q n i h = ground arith

pub store-IsBytes :
    (b : Buf) (p : ℕ) (bs : List ℕ) → IsBytes b → All (λ x. x < 256) bs → IsBytes (store b p bs)
unfolding store
store-IsBytes b p [] h a = h
store-IsBytes b p (x ∷ xs) h a = λ i. ground (arith, store-IsBytes b (p + 1) xs h a.1 i, a.0)

-- A field of a structure and what lies behind it.
pub At-field :
    (w : ℕ) (b : Buf) (p q v : ℕ) (rest : List ℕ)
    → p + w ≡ q
    → v < 256 ^ w
    → At b p (le_bytes w v ++ rest)
    → (le w b p ≡ v) × At b q rest
At-field w b p q v rest e h a =
    let (here, next) =
      At-append b p q (le_bytes w v) rest (omega (arith, length-le_bytes w v, e)) a in
    (le-le_bytes w b p v h here, next)

-- Little-endian fields in a row, as widths and values, and the reads of them.
abbrev pub fields_bytes : List (ℕ × ℕ) → List ℕ
fields_bytes [] = []
fields_bytes ((w, v) ∷ fs) = le_bytes w v ++ fields_bytes fs

abbrev pub Reads : Buf → ℕ → List (ℕ × ℕ) → Type 0
Reads b p [] = Unit {0}
Reads b p ((w, v) ∷ fs) = (le w b p ≡ v) × Reads b (p + w) fs

abbrev pub Fit : List (ℕ × ℕ) → Type 0
Fit [] = Unit {0}
Fit ((w, v) ∷ fs) = (v < 256 ^ w) × Fit fs

pub Reads-fields_bytes :
    (b : Buf) (p : ℕ) (fs : List (ℕ × ℕ)) → Fit fs → At b p (fields_bytes fs) → Reads b p fs
Reads-fields_bytes b p [] h a = tt
Reads-fields_bytes b p ((w, v) ∷ fs) (h, hs) a =
    let (e, next) = At-field w b p (p + w) v (fields_bytes fs) refl h a in
    (e, Reads-fields_bytes b (p + w) fs hs next)
