-- ===== src/Cache/Layout/Lists.antt =====
-- The lists of blocks and heads: what a store, a removal and an addition keep in order.
use erofs_utils.Base.{
  ℕ, ◌≤◌, ◌<◌, ◌≡◌, refl, ap, subst, ◌⊎◌, inl, inr, true, false, Option, none, some, List, [], ◌∷◌,
  ◌++◌, All, ◌==◌, Bool-cases, arith,
}
use erofs_utils.Geometry.{SbInfo, blk_round_up}
use erofs_utils.Cache.{
  BufferHead, BufferBlock, null_addr, deref, assign, is_at, first_blkaddr, next_blkaddr,
  attach_heads,
}
use erofs_utils.Cache.Place.{remove, drop_head}
use erofs_utils.Cache.Layout.{IsChain, IsHeads, end_block}

module _ (sbi : SbInfo) where
  pub IsChain-lower :
      (lo lo' hi : ℕ) (bs : List BufferBlock)
      → lo' ≤ lo
      → IsChain sbi lo bs hi
      → IsChain sbi lo' bs hi
  IsChain-lower lo lo' hi [] l c = omega arith
  IsChain-lower lo lo' hi (b ∷ bs) l c = (omega (arith, c.0), c.1)

  pub IsChain-le : (lo hi : ℕ) (bs : List BufferBlock) → IsChain sbi lo bs hi → lo ≤ hi
  IsChain-le lo hi [] c = c
  IsChain-le lo hi (b ∷ bs) c = omega (arith, c.0, IsChain-le (end_block sbi b) hi bs c.1)

  pub IsChain-upper :
      (lo hi hi' : ℕ) (bs : List BufferBlock)
      → hi ≤ hi'
      → IsChain sbi lo bs hi
      → IsChain sbi lo bs hi'
  IsChain-upper lo hi hi' [] l c = omega arith
  IsChain-upper lo hi hi' (b ∷ bs) l c = (c.0, IsChain-upper (end_block sbi b) hi hi' bs l c.1)

  pub IsChain-append :
      (lo hi hi' : ℕ) (bs : List BufferBlock) (b : BufferBlock)
      → IsChain sbi lo bs hi
      → hi ≤ b.blkaddr
      → end_block sbi b ≤ hi'
      → IsChain sbi lo (bs ++ (b ∷ [])) hi'
  IsChain-append lo hi hi' [] b c l g = (omega arith, g)
  IsChain-append lo hi hi' (x ∷ bs) b c l g =
      (c.0, IsChain-append (end_block sbi x) hi hi' bs b c.1 l g)

  -- a block that ends no later than before
  pub IsChain-assign :
      (lo hi : ℕ) (bs : List BufferBlock) (old b : BufferBlock)
      → deref b.address bs ≡ some old
      → b.blkaddr ≡ old.blkaddr
      → blk_round_up sbi b.off ≤ blk_round_up sbi old.off
      → IsChain sbi lo bs hi
      → IsChain sbi lo (assign b bs) hi
  unfolding deref assign
  IsChain-assign lo hi [] old b d e l c = c
  IsChain-assign lo hi (x ∷ bs) old b d e l c = elim (Bool-cases (x.address == b.address)) [
    | inl t ↦ rw t (
        let same : x ≡ old = ground (arith, t) in
        (
          omega (arith, c.0, ap (λ (y : BufferBlock). y.blkaddr) same),
          IsChain-lower (end_block sbi x) (end_block sbi b) hi bs
              (omega (arith, ap (λ (y : BufferBlock). end_block sbi y) same)) c.1,
        ))
    | inr f ↦ rw f (c.0, IsChain-assign (end_block sbi x) hi bs old b (ground (arith, f)) e l c.1)
  ]

  last_alone :
      (lo hi : ℕ) (bs un : List BufferBlock)
      → first_blkaddr (bs ++ un) ≡ null_addr
      → hi < null_addr
      → IsChain sbi lo bs hi
      → bs ≡ []
  unfolding first_blkaddr
  last_alone lo hi [] un n l c = refl
  last_alone lo hi (b ∷ bs) un n l c =
      absurd (omega (arith, n, IsChain-le (end_block sbi b) hi bs c.1))

  -- A block that is followed by none with a place is the last that has one.
  pub IsChain-assign_last :
      (lo hi : ℕ) (bs un : List BufferBlock) (old b : BufferBlock)
      → deref b.address bs ≡ some old
      → b.blkaddr ≡ old.blkaddr
      → next_blkaddr b.address (bs ++ un) ≡ null_addr
      → hi < null_addr
      → IsChain sbi lo bs hi
      → IsChain sbi lo (assign b bs) (end_block sbi b)
  unfolding deref assign next_blkaddr first_blkaddr
  IsChain-assign_last lo hi [] un old b d e n l c = cc
  IsChain-assign_last lo hi (x ∷ bs) un old b d e n l c =
      elim (Bool-cases (x.address == b.address)) [
        | inl t ↦
            let place : b.blkaddr ≡ x.blkaddr = ground (arith, t, e) in
            let alone : bs ≡ [] = last_alone (end_block sbi x) hi bs un (ground (arith, t)) l c.1 in
            rw (t, alone) (omega (arith, c.0, place), omega arith)
        | inr f ↦ rw f (
          c.0,
          IsChain-assign_last (end_block sbi x) hi bs un old b (ground (arith, f)) e
              (ground (arith, f)) l c.1,
        )
      ]

  pub IsChain-remove :
      (lo hi a : ℕ) (bs : List BufferBlock) → IsChain sbi lo bs hi → IsChain sbi lo (remove a bs) hi
  unfolding remove
  IsChain-remove lo hi a [] c = c
  IsChain-remove lo hi a (x ∷ bs) c = elim (Bool-cases (x.address == a)) [
    | inl t ↦ rw t (IsChain-lower (end_block sbi x) lo hi bs (omega (arith, c.0)) c.1)
    | inr f ↦ rw f (c.0, IsChain-remove (end_block sbi x) hi a bs c.1)
  ]

  pub IsChain-remove_last :
      (lo hi a : ℕ) (bs un : List BufferBlock) (old : BufferBlock)
      → deref a bs ≡ some old
      → next_blkaddr a (bs ++ un) ≡ null_addr
      → hi < null_addr
      → IsChain sbi lo bs hi
      → IsChain sbi lo (remove a bs) old.blkaddr
  unfolding deref remove next_blkaddr first_blkaddr
  IsChain-remove_last lo hi a [] un old d n l c = cc
  IsChain-remove_last lo hi a (x ∷ bs) un old d n l c = elim (Bool-cases (x.address == a)) [
    | inl t ↦
        let same : x ≡ old = ground (arith, t) in
        let alone : bs ≡ [] = last_alone (end_block sbi x) hi bs un (ground (arith, t)) l c.1 in
        rw (t, alone) (omega (arith, c.0, ap (λ (y : BufferBlock). y.blkaddr) same))
    | inr f ↦ rw f (
      c.0,
      IsChain-remove_last (end_block sbi x) hi a bs un old (ground (arith, f)) (ground (arith, f)) l
          c.1,
    )
  ]

  -- a block that has a place ends before the tail
  pub IsChain-deref :
      (lo hi a : ℕ) (bs : List BufferBlock) (b : BufferBlock)
      → deref a bs ≡ some b
      → IsChain sbi lo bs hi
      → end_block sbi b ≤ hi
  unfolding deref
  IsChain-deref lo hi a [] b d c = cc
  IsChain-deref lo hi a (x ∷ bs) b d c = elim (Bool-cases (x.address == a)) [
    | inl t ↦
        let same : x ≡ b = ground (arith, t) in
        omega (
          arith,
          ap (λ (y : BufferBlock). end_block sbi y) same,
          IsChain-le (end_block sbi x) hi bs c.1,
        )
    | inr f ↦ IsChain-deref (end_block sbi x) hi a bs b (ground (arith, f)) c.1
  ]

module _ (P : BufferBlock → Type 0) where
  pub All-deref :
      (a : ℕ) (bs : List BufferBlock) (b : BufferBlock) → deref a bs ≡ some b → All P bs → P b
  unfolding deref
  All-deref a [] b d h = cc
  All-deref a (x ∷ bs) b d h = elim (Bool-cases (x.address == a)) [
    | inl t ↦ let same : x ≡ b = ground (arith, t) in subst P same h.0
    | inr f ↦ All-deref a bs b (ground (arith, f)) h.1
  ]

  pub All-assign : (b : BufferBlock) (bs : List BufferBlock) → P b → All P bs → All P (assign b bs)
  unfolding assign
  All-assign b [] p h = h
  All-assign b (x ∷ bs) p h = elim (Bool-cases (x.address == b.address)) [
    | inl t ↦ rw t (p, h.1)
    | inr f ↦ rw f (h.0, All-assign b bs p h.1)
  ]

  pub All-remove : (a : ℕ) (bs : List BufferBlock) → All P bs → All P (remove a bs)
  unfolding remove
  All-remove a [] h = h
  All-remove a (x ∷ bs) h = elim (Bool-cases (x.address == a)) [
    | inl t ↦ rw t h.1
    | inr f ↦ rw f (h.0, All-remove a bs h.1)
  ]

  pub All-snoc : (b : BufferBlock) (bs : List BufferBlock) → P b → All P bs → All P (bs ++ (b ∷ []))
  All-snoc b [] p h = (p, tt)
  All-snoc b (x ∷ bs) p h = (h.0, All-snoc b bs p h.1)

pub IsHeads-lower :
    (lo lo' hi : ℕ) (hs : List BufferHead) → lo' ≤ lo → IsHeads lo hs hi → IsHeads lo' hs hi
IsHeads-lower lo lo' hi [] l c = omega arith
IsHeads-lower lo lo' hi (h ∷ hs) l c = (omega (arith, c.0), c.1)

pub IsHeads-upper :
    (lo hi hi' : ℕ) (hs : List BufferHead) → hi ≤ hi' → IsHeads lo hs hi → IsHeads lo hs hi'
IsHeads-upper lo hi hi' [] l c = omega arith
IsHeads-upper lo hi hi' (h ∷ hs) l c = (c.0, IsHeads-upper h.off hi hi' hs l c.1)

pub IsHeads-drop_head :
    (lo hi a : ℕ) (hs : List BufferHead) → IsHeads lo hs hi → IsHeads lo (drop_head a hs) hi
unfolding drop_head
IsHeads-drop_head lo hi a [] c = c
IsHeads-drop_head lo hi a (h ∷ hs) c = elim (Bool-cases (h.address == a)) [
  | inl t ↦ rw t (IsHeads-lower h.off lo hi hs (omega (arith, c.0)) c.1)
  | inr f ↦ rw f (c.0, IsHeads-drop_head h.off hi a hs c.1)
]

-- a head at `off`, which is not before the end so far
pub IsHeads-attach_heads :
    (bh : Option BufferHead) (lo hi off hi' : ℕ) (hs : List BufferHead)
    → IsHeads lo hs hi
    → hi ≤ off
    → off ≤ hi'
    → IsHeads lo (attach_heads bh off hs) hi'
unfolding attach_heads
IsHeads-attach_heads none lo hi off hi' hs c l g = IsHeads-upper lo hi hi' hs (omega arith) c
IsHeads-attach_heads (some bh) lo hi off hi' [] c l g = (omega (arith, c), g)
IsHeads-attach_heads (some bh) lo hi off hi' (h ∷ hs) c l g =
    (c.0, IsHeads-attach_heads (some bh) h.off hi off hi' hs c.1 l g)

pub deref_address :
    (a : ℕ) (bs : List BufferBlock) (b : BufferBlock) → deref a bs ≡ some b → b.address ≡ a
unfolding deref
deref_address a [] b d = cc
deref_address a (x ∷ bs) b d = ground (arith, deref_address a bs b)

-- where in two lists a block is found
pub deref-append :
    (a : ℕ) (bs un : List BufferBlock) (b : BufferBlock)
    → deref a (bs ++ un) ≡ some b
    → (deref a bs ≡ some b) ⊎ ((deref a bs ≡ none) × (deref a un ≡ some b))
unfolding deref
deref-append a [] un b d = inr (refl, d)
deref-append a (x ∷ bs) un b d = elim (Bool-cases (x.address == a)) [
  | inl t ↦ inl (ground (arith, t))
  | inr f ↦ rw f (deref-append a bs un b (ground (arith, f)))
]

pub is_at-some :
    (a : ℕ) (bs : List BufferBlock) (b : BufferBlock) → deref a bs ≡ some b → is_at a bs ≡ true
unfolding is_at
is_at-some a bs b d = rw (is_at, d) refl

pub is_at-none : (a : ℕ) (bs : List BufferBlock) → deref a bs ≡ none → is_at a bs ≡ false
unfolding is_at
is_at-none a bs d = rw (is_at, d) refl
