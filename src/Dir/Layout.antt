-- ===== src/Dir/Layout.antt =====
-- What a buffer holds after `fill_dirblock`: each dirent, each name, and zeros behind the names.
use erofs_utils.Base.{
  ℕ, ◌+◌, ◌*◌, ◌^◌, ◌≤◌, ◌<◌, ◌≡◌, refl, ◌∙◌, List, [], ◌∷◌, ◌⊎◌, inl, inr, length, All, arith,
}
use erofs_utils.Base.Memory.{Buf, store, memset, At, At-frame, At-store, store_outside}
use erofs_utils.Base.Words.{sub32}
use erofs_utils.Dir.{Dentry, dirent_size, dirent_bytes, name_max, fill_loop, fill_dirblock}

abbrev pub name_bytes : List Dentry → ℕ
name_bytes [] = 0
name_bytes (d ∷ ds) = length d.name + name_bytes ds

-- A dentry as mkfs makes them: a nid of 64 bits, a type of 8, and a C string of 1 to 255 bytes.
pub record IsDentry (d : Dentry) : Type 0 where
  pub nid_fits : d.nid < 2 ^ 64
  pub name_nonempty : 0 < length d.name
  pub name_short : length d.name ≤ name_max
  pub name_no_nul : All (λ x. 0 < x) d.name

-- From `p` on stand the dirents, and from `q` on the names, of `ds`; behind them zeros up to `size`.
abbrev pub Holds : Buf → ℕ → ℕ → ℕ → List Dentry → Type 0
Holds b p q size [] = (i : ℕ) → q ≤ i → i < size → b i ≡ 0
Holds b p q size (d ∷ ds) =
    At b p (dirent_bytes d q)
    × At b q d.name
    × Holds b (p + dirent_size) (q + length d.name) size ds

length-dirent_bytes : (d : Dentry) (q : ℕ) → length (dirent_bytes d q) ≡ dirent_size
length-dirent_bytes d q = refl

end-fill_loop : (ds : List Dentry) (b : Buf) (p q : ℕ) → (fill_loop ds b p q).1 ≡ q + name_bytes ds
unfolding fill_loop
end-fill_loop [] b p q = omega arith
end-fill_loop (d ∷ ds) b p q = omega (
  arith,
  end-fill_loop ds (store (store b p (dirent_bytes d q)) q d.name) (p + dirent_size)
      (q + length d.name),
)

-- Only the dirents' own bytes and what lies from `q` on are written.
fill_loop_frame :
    (ds : List Dentry) (b : Buf) (p q i : ℕ)
    → (i < p) ⊎ (p + dirent_size * length ds ≤ i)
    → i < q
    → (fill_loop ds b p q).0 i ≡ b i
unfolding fill_loop
fill_loop_frame [] b p q i h l = refl
fill_loop_frame (d ∷ ds) b p q i h l =
    fill_loop_frame ds _ (p + dirent_size) (q + length d.name) i (omega arith) (omega arith)
    ∙ store_outside _ q d.name i (inl l)
    ∙ store_outside b p (dirent_bytes d q) i (omega arith)

-- what `fill_dirblock` does after its loop
abbrev finish : ℕ → Buf × ℕ → Buf
finish size (b, q) = memset b q 0 (sub32 size q)

finish_below : (size : ℕ) (b : Buf) (q i : ℕ) → i < q → finish size (b, q) i ≡ b i
unfolding memset
finish_below size b q i h = ground arith

finish_tail :
    (size : ℕ) (b : Buf) (q i : ℕ) → q ≤ i → i < size → size < 2 ^ 32 → finish size (b, q) i ≡ 0
unfolding memset
finish_tail size b q i lo hi fits = ground arith

module _ (size : ℕ) (fits : size < 2 ^ 32) where
  fill_loop-Holds :
      (ds : List Dentry) (b : Buf) (p q : ℕ)
      → p + dirent_size * length ds ≤ q
      → q + name_bytes ds ≤ size
      → Holds (finish size (fill_loop ds b p q)) p q size ds
  unfolding fill_loop
  fill_loop-Holds [] b p q hp hq = λ i lo hi. finish_tail size b q i lo hi fits
  fill_loop-Holds (d ∷ ds) b p q hp hq = (
    At-frame b₁ (finish size r) p (dirent_bytes d q)
        (λ i lo hi.
          kept i (inl (omega (arith, length-dirent_bytes d q)))
            (omega (arith, length-dirent_bytes d q))
          ∙ store_outside b₁ q d.name i (inl (omega (arith, length-dirent_bytes d q))))
        (At-store b p (dirent_bytes d q)),
    At-frame b₂ (finish size r) q d.name (λ i lo hi. kept i (inr (omega arith)) hi)
        (At-store b₁ q d.name),
    fill_loop-Holds ds b₂ (p + dirent_size) (q + length d.name) (omega arith) (omega arith),
  )
    where
      b₁ : Buf
      b₁ = store b p (dirent_bytes d q)

      b₂ : Buf
      b₂ = store b₁ q d.name

      r : Buf × ℕ
      r = fill_loop ds b₂ (p + dirent_size) (q + length d.name)

      kept :
          (i : ℕ)
          → (i < p + dirent_size) ⊎ (p + dirent_size + dirent_size * length ds ≤ i)
          → i < q + length d.name
          → finish size r i ≡ b₂ i
      kept i h l =
          finish_below size r.0 r.1 i
            (omega (arith, end-fill_loop ds b₂ (p + dirent_size) (q + length d.name)))
          ∙ fill_loop_frame ds b₂ (p + dirent_size) (q + length d.name) i h l

  pub fill_dirblock-Holds :
      (ds : List Dentry) (b : Buf)
      → dirent_size * length ds + name_bytes ds ≤ size
      → Holds
          (fill_dirblock b size (dirent_size * length ds) ds)
          0
          (dirent_size * length ds)
          size
          ds
  unfolding fill_dirblock
  fill_dirblock-Holds ds b h =
      fill_loop-Holds ds b 0 (dirent_size * length ds) (omega arith) (omega arith)
