-- ===== src/Cache/Layout/Extents.antt =====
-- Where the buffers stand: erofs_btell, with the layout.
use erofs_utils.Base.{
  ℕ, ◌+◌, ◌*◌, ◌^◌, ◌≤◌, ◌<◌, ◌≡◌, ap, subst, arith, ◌⊎◌, inl, inr, Bool, true, false, some, List,
  [], ◌∷◌, ◌==◌, if◌then◌else◌, Bool-cases, Option-cases,
}
use erofs_utils.Base.Words.{add64}
use erofs_utils.Geometry.{SbInfo, blksiz, pos, blk_round_up}
use erofs_utils.Geometry.Laws.{pos-mul, blk_round_up_bounds}
use erofs_utils.Cache.{Bh, BufferHead, BufferBlock, BufMgr, null_addr, null_addr_ul, blocks, deref}
use erofs_utils.Cache.Place.{head_off, next_off, btell}
use erofs_utils.Cache.Layout.{IsChain, IsHeads, IsBlock, IsLaidOut, end_block}
use erofs_utils.Cache.Layout.Attach.{place_of}
use erofs_utils.Cache.Layout.Fits.{size_le}
use erofs_utils.Cache.Layout.Lists.{deref_address, All-deref, IsChain-deref}
use native.Mathlib.Nat.{add-mul, mul-le-mul}

module _ (sbi : SbInfo) where
  deref_lower :
      (lo hi a : ℕ) (bs : List BufferBlock) (b : BufferBlock)
      → deref a bs ≡ some b
      → IsChain sbi lo bs hi
      → lo ≤ b.blkaddr
  unfolding deref
  deref_lower lo hi a [] b d c = cc
  deref_lower lo hi a (x ∷ bs) b d c = elim (Bool-cases (x.address == a)) [
    | inl t ↦
        let same : x ≡ b = ground (arith, t) in
        omega (arith, c.0, ap (λ (y : BufferBlock). y.blkaddr) same)
    | inr f ↦ omega (arith, c.0, deref_lower (end_block sbi x) hi a bs b (ground (arith, f)) c.1)
  ]

  -- Of two blocks, one ends before the other begins.
  blocks_apart :
      (lo hi a a' : ℕ) (bs : List BufferBlock) (b b' : BufferBlock)
      → (a == a') ≡ false
      → deref a bs ≡ some b
      → deref a' bs ≡ some b'
      → IsChain sbi lo bs hi
      → (end_block sbi b ≤ b'.blkaddr) ⊎ (end_block sbi b' ≤ b.blkaddr)
  unfolding deref
  blocks_apart lo hi a a' [] b b' n d d' c = cc
  blocks_apart lo hi a a' (x ∷ bs) b b' n d d' c = elim (Bool-cases (x.address == a)) [
    | inl t ↦
        let same : x ≡ b = ground (arith, t) in
        let later : deref a' bs ≡ some b' = ground (arith, t, n) in
        inl (
          omega (
            arith,
            ap (λ (y : BufferBlock). end_block sbi y) same,
            deref_lower (end_block sbi x) hi a' bs b' later c.1,
          ))
    | inr f ↦ elim (Bool-cases (x.address == a')) [
      | inl t ↦
          let same : x ≡ b' = ground (arith, t) in
          inr (
            omega (
              arith,
              ap (λ (y : BufferBlock). end_block sbi y) same,
              deref_lower (end_block sbi x) hi a bs b (ground (arith, f)) c.1,
            ))
      | inr g ↦
          blocks_apart (end_block sbi x) hi a a' bs b b' n (ground (arith, f)) (ground (arith, g))
            c.1
    ]
  ]

IsHeads-le : (lo hi : ℕ) (hs : List BufferHead) → IsHeads lo hs hi → lo ≤ hi
IsHeads-le lo hi [] c = c
IsHeads-le lo hi (h ∷ hs) c = omega (arith, c.0, IsHeads-le h.off hi hs c.1)

-- the part of a block that a head takes
head_bounds :
    (lo end a s e : ℕ) (hs : List BufferHead)
    → head_off a hs ≡ some s
    → next_off a end hs ≡ some e
    → IsHeads lo hs end
    → (lo ≤ s) × (s ≤ e) × (e ≤ end)
unfolding head_off next_off
head_bounds lo end a s e [] h n c = cc
head_bounds lo end a s e (x ∷ []) h n c = ground (arith, c)
head_bounds lo end a s e (x ∷ y ∷ hs) h n c = elim (Bool-cases (x.address == a)) [
  | inl t ↦ ground (arith, t, c.0, c.1.0, IsHeads-le y.off end hs c.1.1)
  | inr f ↦
      let r = head_bounds x.off end a s e (y ∷ hs) (ground (arith, f)) (ground (arith, f)) c.1 in
      (omega (arith, c.0, r.0), r.1, r.2)
]

-- Of two heads of a block, one ends before the other begins.
heads_apart :
    (lo end a a' s e s' e' : ℕ) (hs : List BufferHead)
    → (a == a') ≡ false
    → head_off a hs ≡ some s
    → next_off a end hs ≡ some e
    → head_off a' hs ≡ some s'
    → next_off a' end hs ≡ some e'
    → IsHeads lo hs end
    → (e ≤ s') ⊎ (e' ≤ s)
unfolding head_off next_off
heads_apart lo end a a' s e s' e' [] d h n h' n' c = cc
heads_apart lo end a a' s e s' e' (x ∷ []) d h n h' n' c = ground (arith, d)
heads_apart lo end a a' s e s' e' (x ∷ y ∷ hs) d h n h' n' c = elim (Bool-cases (x.address == a)) [
  | inl t ↦
      let g : (x.address == a') ≡ false = ground (arith, t, d) in
      let r =
        head_bounds y.off end a' s' e' (y ∷ hs) (ground (arith, g)) (ground (arith, g))
          (omega arith, c.1.1) in
      let next : e ≡ y.off = ground (arith, t, n) in inl (omega (arith, next, r.0))
  | inr f ↦ elim (Bool-cases (x.address == a')) [
    | inl t ↦
        let r =
          head_bounds y.off end a s e (y ∷ hs) (ground (arith, f)) (ground (arith, f))
            (omega arith, c.1.1) in
        let next : e' ≡ y.off = ground (arith, t, n') in inr (omega (arith, next, r.0))
    | inr g ↦
        heads_apart x.off end a a' s e s' e' (y ∷ hs) d (ground (arith, f)) (ground (arith, f))
          (ground (arith, g)) (ground (arith, g)) c.1
  ]
]

-- A buffer with a place, from byte `s` to byte `e` of the device.
abbrev pub Range : BufMgr → Bh → ℕ → ℕ → Type 0
Range m bh s e = (btell m bh false ≡ some s) × (btell m bh true ≡ some e) × (s < null_addr_ul)

record IsPlaced (m : BufMgr) (bh : Bh) (s e : ℕ) : Type 0 where
  bb : BufferBlock
  from : ℕ
  to : ℕ
  found : deref bh.block m.mapped ≡ some bb
  start : head_off bh.head bb.heads ≡ some from
  end : next_off bh.head bb.off bb.heads ≡ some to
  first : s ≡ add64 (pos m.sbi bb.blkaddr) from
  last : e ≡ add64 (pos m.sbi bb.blkaddr) to

-- what erofs_btell says of a block and the offset in it
tell_cases :
    (m : BufMgr) (bh : Bh) (end : Bool) (v : ℕ)
    → btell m bh end ≡ some v
    → (bb : BufferBlock) × (deref bh.block (blocks m) ≡ some bb)
      × (off : ℕ) × ((if end then next_off bh.head bb.off bb.heads else head_off bh.head bb.heads)
          ≡ some off)
      × (((bb.blkaddr ≡ null_addr) × (v ≡ null_addr_ul))
          ⊎ (((bb.blkaddr == null_addr) ≡ false) × (v ≡ add64 (pos m.sbi bb.blkaddr) off)))
unfolding btell
tell_cases m bh end v h = elim (Option-cases (deref bh.block (blocks m))) [
  | inl n ↦ absurd (ground (arith, n))
  | inr (bb, d) ↦
      elim (Option-cases
        (if end then next_off bh.head bb.off bb.heads else head_off bh.head bb.heads)) [
          | inl n ↦ absurd (ground (arith, d, n))
          | inr (off, o) ↦ (bb, d, off, o, ground (arith, d, o))
        ]
]

btell-IsPlaced : (m : BufMgr) (bh : Bh) (s e : ℕ) → IsLaidOut m → Range m bh s e → IsPlaced m bh s e
btell-IsPlaced m bh s e l r =
    let (bb, d, from, o, v) = tell_cases m bh false s r.0 in
    let (bb', d', to, o', v') = tell_cases m bh true e r.1 in
    let same : bb' ≡ bb = ground (arith, d, d') in
    let at_end = subst (λ (b : BufferBlock). next_off bh.head b.off b.heads ≡ some to) same o' in
    elim v [
      | inl n ↦ absurd (omega (arith, n.1, r.2))
      | inr (n, f) ↦ elim (place_of m l bb bh.block d) [
        | inr h ↦ absurd (ground (arith, h.2, n))
        | inl h ↦ elim v' [
          | inl z ↦ absurd (ground (arith, n, ap (λ (b : BufferBlock). b.blkaddr) same, z.0))
          | inr (z, g) ↦ record {
            bb = bb;
            from = from;
            to = to;
            found =
                subst (λ (x : ℕ). deref x m.mapped ≡ some bb)
                  (deref_address bh.block (blocks m) bb d) h.0;
            start = o;
            end = at_end;
            first = f;
            last = subst (λ (b : BufferBlock). e ≡ add64 (pos m.sbi b.blkaddr) to) same g;
          }
        ]
      ]
    ]

-- In bytes: where a block begins and ends, with nothing wrapped.
block_bytes :
    (m : BufMgr) (l : IsLaidOut m) (a : ℕ) (bb : BufferBlock) (off : ℕ)
    → deref a m.mapped ≡ some bb
    → off ≤ bb.off
    → (add64 (pos m.sbi bb.blkaddr) off ≡ bb.blkaddr * blksiz m.sbi + off)
      × (bb.blkaddr * blksiz m.sbi + off ≤ end_block m.sbi bb * blksiz m.sbi)
block_bytes m l a bb off d o =
    let k = All-deref IsBlock a m.mapped bb d l.mapped_blocks in
    let end = IsChain-deref m.sbi 0 m.tail_blkaddr a m.mapped bb d l.chain in
    let size = size_le m.sbi l.largest in
    let most : bb.blkaddr * blksiz m.sbi ≤ 2 ^ 32 * 2 ^ 16 =
      mul-le-mul {n₁ = bb.blkaddr} {m₁ = blksiz m.sbi} {n₂ = 2 ^ 32} {m₂ = 2 ^ 16}
        (omega (arith, end, l.tail)) size in
    let start = pos-mul m.sbi bb.blkaddr (omega (arith, most)) in
    (
      omega (arith, start, k.small, most),
      omega (
        arith,
        blk_round_up_bounds m.sbi bb.off (omega (arith, k.small, size)),
        add-mul bb.blkaddr (blk_round_up m.sbi bb.off) (blksiz m.sbi),
      ),
    )

-- With the layout: two buffers that both have a place, in different blocks or at different addresses in
-- one block, take bytes of the device that do not overlap.
pub btell-IsLaidOut :
    (m : BufMgr) (x y : Bh) (s e s' e' : ℕ)
    → IsLaidOut m
    → ((x.block == y.block) ≡ false) ⊎ ((x.block ≡ y.block) × ((x.head == y.head) ≡ false))
    → Range m x s e
    → Range m y s' e'
    → (s ≤ e) × (s' ≤ e') × ((e ≤ s') ⊎ (e' ≤ s))
btell-IsLaidOut m x y s e s' e' l n r r' =
    let p = btell-IsPlaced m x s e l r in
    let q = btell-IsPlaced m y s' e' l r' in
    let k = All-deref IsBlock x.block m.mapped p.bb p.found l.mapped_blocks in
    let k' = All-deref IsBlock y.block m.mapped q.bb q.found l.mapped_blocks in
    let h = head_bounds 0 p.bb.off x.head p.from p.to p.bb.heads p.start p.end k.heads in
    let h' = head_bounds 0 q.bb.off y.head q.from q.to q.bb.heads q.start q.end k'.heads in
    let b = block_bytes m l x.block p.bb p.from p.found (omega (arith, h)) in
    let c = block_bytes m l x.block p.bb p.to p.found (omega (arith, h)) in
    let b' = block_bytes m l y.block q.bb q.from q.found (omega (arith, h')) in
    let c' = block_bytes m l y.block q.bb q.to q.found (omega (arith, h')) in
    (
      omega (arith, p.first, p.last, b.0, c.0, h.1),
      omega (arith, q.first, q.last, b'.0, c'.0, h'.1),
      elim n [
        | inl d ↦
            elim (blocks_apart m.sbi 0 m.tail_blkaddr x.block y.block m.mapped p.bb q.bb d p.found
              q.found l.chain) [
                | inl z ↦ inl (
                    omega (
                      arith,
                      p.last,
                      q.first,
                      c,
                      b',
                      mul-le-mul {n₁ = end_block m.sbi p.bb} {m₁ = blksiz m.sbi} {n₂ = q.bb.blkaddr}
                          {m₂ = blksiz m.sbi} z (omega arith),
                    ))
                | inr z ↦ inr (
                    omega (
                      arith,
                      q.last,
                      p.first,
                      c',
                      b,
                      mul-le-mul {n₁ = end_block m.sbi q.bb} {m₁ = blksiz m.sbi} {n₂ = p.bb.blkaddr}
                          {m₂ = blksiz m.sbi} z (omega arith),
                    ))
              ]
        | inr d ↦
            let same : q.bb ≡ p.bb = ground (arith, p.found, q.found, d.0) in
            let base = ap (λ (t : BufferBlock). t.blkaddr * blksiz m.sbi) same in
            elim (heads_apart 0 p.bb.off x.head y.head p.from p.to q.from q.to p.bb.heads d.1
              p.start p.end
              (subst (λ (t : BufferBlock). head_off y.head t.heads ≡ some q.from) same q.start)
              (subst (λ (t : BufferBlock). next_off y.head t.off t.heads ≡ some q.to) same q.end)
              k.heads) [
                | inl z ↦ inl (omega (arith, p.last, q.first, c.0, b'.0, base, z))
                | inr z ↦ inr (omega (arith, q.last, p.first, c'.0, b.0, base, z))
              ]
      ],
    )
