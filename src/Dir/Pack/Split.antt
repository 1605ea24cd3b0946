-- ===== src/Dir/Pack/Split.antt =====
-- The blocks that a directory is packed into hold all its dentries in order, and each block fits.
use erofs_utils.Base.{
  ℕ, ◌+◌, ◌*◌, ◌^◌, ◌≤◌, ◌<◌, ◌≡◌, inl, inr, refl, sym, ap, ◌∙◌, none, some, List, [], ◌∷◌, ◌++◌,
  ltb, ◌==◌, length, All, Bool-cases, ==→eq, ==→ne, ltb→lt, ltb→le, arith,
}
use erofs_utils.Base.Words.{add32}
use mathlib.Core.List.{append-nil, append_assoc}
use erofs_utils.Geometry.{SbInfo, blksiz}
use erofs_utils.Dir.{Dentry, dirent_size}
use erofs_utils.Dir.Layout.{name_bytes, IsDentry}
use erofs_utils.Dir.Pack.{Block, Packed, pack_rest, pack_loop, write_dir_file}

-- the dentries of a list of blocks, and of the tail
unfoldable pub written_dentries : List Block → List Dentry
written_dentries [] = []
written_dentries (k ∷ ks) = k.dentries ++ written_dentries ks

unfoldable pub packed_dentries : Packed → List Dentry
packed_dentries p = written_dentries p.written ++ elim p.idata [ none ↦ [] | some k ↦ k.dentries ]

-- `q` counts the dirents, and dirents and names fit into `size` bytes, some at least.
pub record IsBlock (size : ℕ) (k : Block) : Type 0 where
  pub header : k.q ≡ dirent_size * length k.dentries
  pub some_dentries : 0 < length k.dentries
  pub fits : dirent_size * length k.dentries + name_bytes k.dentries ≤ size

-- The blocks written are blocks of the image, and the tail is one of its own size, less than a block.
pub record IsPacked (sbi : SbInfo) (p : Packed) : Type 0 where
  pub full : All (IsBlock (blksiz sbi)) p.written
  pub tail : (k : Block) → p.idata ≡ some k → IsBlock p.idata_size k
  pub short : p.idata_size < blksiz sbi

name_bytes-append : (ds es : List Dentry) → name_bytes (ds ++ es) ≡ name_bytes ds + name_bytes es
name_bytes-append [] es = omega arith
name_bytes-append (d ∷ ds) es = omega (arith, name_bytes-append ds es)

length_snoc : (ds : List Dentry) (d : Dentry) → length (ds ++ (d ∷ [])) ≡ length ds + 1
length_snoc [] d = refl
length_snoc (e ∷ ds) d = omega (arith, length_snoc ds d)

-- What the loop knows: `used` are the bytes of `head`, and `q` its dirents'.
pub record Counts (head : List Dentry) (q used : ℕ) : Type 0 where
  pub header : q ≡ dirent_size * length head
  pub bytes : used ≡ dirent_size * length head + name_bytes head

some_dentries_lem :
    (head : List Dentry) (q used : ℕ) → Counts head q used → 0 < used → 0 < length head
some_dentries_lem [] q used c h = absurd (omega (arith, c.bytes, h))
some_dentries_lem (d ∷ ds) q used c h = omega arith

empty_lem : (head : List Dentry) (q used : ℕ) → Counts head q used → used ≡ 0 → head ≡ []
empty_lem [] q used c h = refl
empty_lem (d ∷ ds) q used c h = absurd (omega (arith, c.bytes, h))

Counts-snoc :
    (head : List Dentry) (q used : ℕ) (d : Dentry)
    → Counts head q used
    → Counts (head ++ (d ∷ [])) (q + dirent_size) (used + (length d.name + dirent_size))
Counts-snoc head q used d c = record {
  header = omega (arith, c.header, length_snoc head d);
  bytes = omega (arith, c.bytes, length_snoc head d, name_bytes-append head (d ∷ []));
}

packed_dentries-write :
    (q : ℕ) (head : List Dentry) (after : Packed)
    → packed_dentries (record after { written = record { q = q; dentries = head } ∷ after.written })
      ≡ head ++ packed_dentries after
unfolding packed_dentries written_dentries
packed_dentries-write q head after =
    append_assoc head (written_dentries after.written)
      (elim after.idata [ none ↦ [] | some k ↦ k.dentries ])

module _ (sbi : SbInfo) (b : 267 ≤ blksiz sbi) (f : blksiz sbi ≤ 2 ^ 16) where
  Counts-IsBlock :
      (size : ℕ) (head : List Dentry) (q used : ℕ)
      → Counts head q used
      → 0 < used
      → used ≤ size
      → IsBlock size (record { q = q; dentries = head })
  Counts-IsBlock size head q used c h l = record {
    header = c.header;
    some_dentries = some_dentries_lem head q used c h;
    fits = omega (arith, c.bytes, l);
  }

  pack_rest-IsPacked :
      (head : List Dentry) (q used : ℕ)
      → Counts head q used
      → used ≤ blksiz sbi
      → IsPacked sbi (pack_rest sbi head q used)
        × (packed_dentries (pack_rest sbi head q used) ≡ head)
  unfolding pack_rest packed_dentries written_dentries
  pack_rest-IsPacked head q used c h = elim (Bool-cases (used == blksiz sbi)) [
    | inl e ↦
        let full = ==→eq used (blksiz sbi) e in
        rw e (
          record {
            full = (Counts-IsBlock (blksiz sbi) head q used c (omega (arith, full, b)) h, tt);
            tail = λ k n. absurd (ground (arith, n));
            short = omega (arith, b);
          },
          append-nil (head ++ []) ∙ append-nil head,
        )
    | inr e ↦ elim (Bool-cases (used == 0)) [
      | inl z ↦
          let nothing : head ≡ [] = empty_lem head q used c (==→eq used 0 z) in
          rw (e, z)
            (
              record {
                full = tt;
                tail = λ k n. absurd (ground (arith, n));
                short = omega (arith, b);
              },
              sym nothing,
            )
      | inr z ↦
          let some_used : 0 < used = omega (arith, ==→ne used 0 z) in
          rw (e, z)
            (
              record {
                full = tt;
                tail = λ k n.
                    let last : Block = record { q = q; dentries = head } in
                    let kept : some last ≡ some k = n in
                    let same : last ≡ k = ground (arith, kept) in
                    rw (← same) (Counts-IsBlock used head q used c some_used (omega arith));
                short = omega (arith, h, ==→ne used (blksiz sbi) e);
              },
              refl,
            )
    ]
  ]

  pack_loop-IsPacked :
      (ds head : List Dentry) (q used : ℕ)
      → All IsDentry ds
      → Counts head q used
      → used ≤ blksiz sbi
      → IsPacked sbi (pack_loop sbi head q used ds)
        × (packed_dentries (pack_loop sbi head q used ds) ≡ head ++ ds)
  unfolding pack_loop
  pack_loop-IsPacked [] head q used v c h =
      let (packed, all) = pack_rest-IsPacked head q used c h in
      (packed, all ∙ sym (append-nil head))
  pack_loop-IsPacked (d ∷ ds) head q used (v, vs) c h =
      let len = length d.name + 12 in
      let first : Counts (d ∷ []) 12 len = record { header = refl; bytes = omega arith } in
      elim (Bool-cases (ltb (blksiz sbi) (add32 used len))) [
        | inl e ↦
            let (packed, all) =
              pack_loop-IsPacked ds (d ∷ []) 12 len vs first (omega (arith, v.name_short, b)) in
            let here =
              Counts-IsBlock (blksiz sbi) head q used c
                (omega (arith, ltb→lt (blksiz sbi) (add32 used len) e, v.name_short, b, h, f)) h in
            rw e (
              record { full = (here, packed.full); tail = packed.tail; short = packed.short },
              packed_dentries-write q head (pack_loop sbi (d ∷ []) 12 len ds)
                  ∙ ap (λ es. head ++ es) all,
            )
        | inr e ↦
            let on : add32 used len ≡ used + len = omega (arith, h, v.name_short, b, f) in
            let on_q : add32 q 12 ≡ q + 12 = omega (arith, c.header, c.bytes, h, f) in
            let fits = ltb→le (blksiz sbi) (add32 used len) e in
            let counts = Counts-snoc head q used d c in
            let (packed, all) =
              pack_loop-IsPacked ds (head ++ (d ∷ [])) (q + 12) (used + len) vs counts
                (omega (arith, on, fits)) in
            rw (e, on, on_q) (packed, all ∙ append_assoc head (d ∷ []) ds)
      ]

-- Of dentries of mkfs and blocks of 267 to 65536 bytes: the blocks that erofs_write_dir_file writes and
-- the tail that it keeps hold the dentries of the directory, all of them in their order; each has at least
-- one dentry, its names start behind its dirents, and dirents and names fit into the block, or fit the
-- tail's own size, which is less than a block.
pub write_dir_file-IsPacked :
    (sbi : SbInfo) (ds : List Dentry)
    → All IsDentry ds
    → 267 ≤ blksiz sbi
    → blksiz sbi ≤ 2 ^ 16
    → IsPacked sbi (write_dir_file sbi ds) × (packed_dentries (write_dir_file sbi ds) ≡ ds)
unfolding write_dir_file
write_dir_file-IsPacked sbi ds v b f =
    pack_loop-IsPacked sbi b f ds [] 0 0 v (record { header = refl; bytes = refl }) (omega arith)
