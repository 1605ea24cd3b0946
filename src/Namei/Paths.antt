-- ===== src/Namei/Paths.antt =====
-- The walk of a path looks its components up, one behind the other.
use erofs_utils.Base.{
  ℕ, zero, suc, ◌+◌, ◌≤◌, ◌<◌, ◌≡◌, refl, sym, ap, ap₂, ◌⊎◌, ◌∙◌, inl, inr, true, false, Option,
  none, some, List, [], ◌∷◌, ◌==◌, if◌then◌else◌, length, Bool-cases, Option-cases, arith,
}
use erofs_utils.Base.Errno.{Result, done, fail}
use erofs_utils.Geometry.{SbInfo}
use erofs_utils.Namei.{skip_slashes, scan_component, walk_loop, link_path_walk}

-- The pieces between slashes, empty ones too: the bytes up to the first slash, and the pieces behind.
unfoldable pub split : List ℕ → List ℕ × List (List ℕ)
split [] = ([], [])
split (c ∷ path) =
    let rest = split path in if c == 47 then ([], rest.0 ∷ rest.1) else (c ∷ rest.0, rest.1)

unfoldable pub nonempty : List (List ℕ) → List (List ℕ)
nonempty [] = []
nonempty ([] ∷ ps) = nonempty ps
nonempty ((c ∷ p) ∷ ps) = (c ∷ p) ∷ nonempty ps

unfoldable pub components : List ℕ → List (List ℕ)
components path = let pieces = split path in nonempty (pieces.0 ∷ pieces.1)

module _ (lookup : ℕ → List ℕ → Option (Result ℕ)) where
  -- The components looked up in turn, each in the directory found before.
  unfoldable pub descend : ℕ → List (List ℕ) → Option (Result ℕ)
  descend nid [] = some (done nid)
  descend nid (p ∷ ps) = elim (lookup nid p) [
    | none ↦ none
    | some (fail e) ↦ some (fail e)
    | some (done nid') ↦ descend nid' ps
  ]

skip_slashes-other :
    (c : ℕ) (path : List ℕ) → (c == 47) ≡ false → skip_slashes (c ∷ path) ≡ c ∷ path
unfolding skip_slashes
skip_slashes-other c path e = rw e refl

skip_slashes-slash :
    (c : ℕ) (path : List ℕ) → (c == 47) ≡ true → skip_slashes (c ∷ path) ≡ skip_slashes path
unfolding skip_slashes
skip_slashes-slash c path e = rw e refl

components-slash :
    (c : ℕ) (path : List ℕ) → (c == 47) ≡ true → components (c ∷ path) ≡ components path
unfolding components split nonempty
components-slash c path e = rw e refl

components-skip_slashes : (path : List ℕ) → components (skip_slashes path) ≡ components path
unfolding skip_slashes
components-skip_slashes [] = refl
components-skip_slashes (c ∷ path) = elim (Bool-cases (c == 47)) [
  | inl e ↦
      ap components (skip_slashes-slash c path e)
      ∙ components-skip_slashes path
      ∙ sym (components-slash c path e)
  | inr e ↦ ap components (skip_slashes-other c path e)
]

scan_component-split :
    (path : List ℕ)
    → ((scan_component path).0 ≡ (split path).0)
      × (components (scan_component path).1 ≡ nonempty (split path).1)
unfolding components split nonempty scan_component
scan_component-split [] = (refl, refl)
scan_component-split (c ∷ path) =
    let (piece, pieces) = scan_component-split path in
    elim (Bool-cases (c == 47)) [
      | inl e ↦ rw e (refl, components-slash c path e)
      | inr e ↦ rw e (ap (λ p. c ∷ p) piece, pieces)
    ]

components-scan :
    (c : ℕ) (path : List ℕ)
    → (c == 47) ≡ false
    → components (c ∷ path) ≡ (c ∷ (scan_component path).0) ∷ components (scan_component path).1
unfolding components split nonempty
components-scan c path e =
    let (piece, pieces) = scan_component-split path in
    rw e (ap₂ (λ p ps. (c ∷ p) ∷ ps) (sym piece) (sym pieces))

skip_slashes-first :
    (path : List ℕ)
    → (skip_slashes path ≡ [])
      ⊎ ((c : ℕ) × (name : List ℕ) × (skip_slashes path ≡ c ∷ name)
          × ((c == 47) ≡ false)
          × (length name < length path))
unfolding skip_slashes
skip_slashes-first [] = inl refl
skip_slashes-first (c ∷ path) = elim (Bool-cases (c == 47)) [
  | inr e ↦ inr (c, path, skip_slashes-other c path e, e, omega arith)
  | inl e ↦ elim (skip_slashes-first path) [
    | inl n ↦ inl (skip_slashes-slash c path e ∙ n)
    | inr (c', name, s, k, l) ↦ inr (c', name, skip_slashes-slash c path e ∙ s, k, omega (arith, l))
  ]
]

length-scan_component : (path : List ℕ) → length (scan_component path).1 ≤ length path
unfolding scan_component
length-scan_component [] = omega arith
length-scan_component (c ∷ path) = elim (Bool-cases (c == 47)) [
  | inl e ↦ rw e (omega arith)
  | inr e ↦ rw e (omega (arith, length-scan_component path))
]

components-nil : components [] ≡ []
unfolding components split nonempty
components-nil = refl

walk_loop-descend :
    (lookup : ℕ → List ℕ → Option (Result ℕ)) (fuel nid : ℕ) (path : List ℕ)
    → length path < fuel
    → walk_loop lookup fuel nid (skip_slashes path) ≡ descend lookup nid (components path)
unfolding walk_loop descend
walk_loop-descend lookup zero nid path l = absurd (omega (arith, l))
walk_loop-descend lookup (suc fuel) nid path l = elim (skip_slashes-first path) [
  | inl n ↦
      let none_left : components path ≡ [] =
        sym (components-skip_slashes path) ∙ ap components n ∙ components-nil in
      rw (n, none_left) refl
  | inr (c, name, s, k, shorter) ↦
      let first = c ∷ (scan_component name).0 in
      let rest = (scan_component name).1 in
      let next : components path ≡ first ∷ components rest =
        sym (components-skip_slashes path) ∙ ap components s ∙ components-scan c name k in
      let short = length-scan_component name in
      elim (Option-cases (lookup nid first)) [
        | inl e ↦ ground (arith, s, next, e)
        | inr (fail e, f) ↦ ground (arith, s, next, f)
        | inr (done nid', f) ↦
            let deeper =
              walk_loop-descend lookup fuel nid' rest (omega (arith, l, shorter, short)) in
            ground (arith, s, next, f, deeper)
      ]
]

-- For any lookup of a component in a directory, the walk of a path ends if the lookups do, and does what
-- looking up the components of the path one behind the other from the root does, where the components
-- are what stands between slashes, less the empty ones; it stops at the first lookup that fails.
pub link_path_walk-descend :
    (lookup : ℕ → List ℕ → Option (Result ℕ)) (sbi : SbInfo) (path : List ℕ)
    → link_path_walk lookup sbi path ≡ descend lookup sbi.root_nid (components path)
unfolding link_path_walk
link_path_walk-descend lookup sbi path =
    walk_loop-descend lookup (length path + 1) sbi.root_nid path (omega arith)
