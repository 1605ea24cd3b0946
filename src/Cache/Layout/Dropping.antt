-- ===== src/Cache/Layout/Dropping.antt =====
-- Dropping a buffer keeps the layout.
use erofs_utils.Base.{
  ℕ, ◌≡◌, ap, arith, refl, ◌⊎◌, inl, inr, Bool, true, false, Option, none, some, List, [], ◌∷◌,
  ◌==◌, ==_self, Bool-cases, Option-cases,
}
use erofs_utils.Cache.{
  assign, Bh, BufferHead, BufferBlock, BufMgr, null_addr, blocks, deref, is_at, next_blkaddr,
  update, data_type,
}
use erofs_utils.Cache.Place.{drop_block, remove, bfree, drop_head, count_meta, bdrop}
use erofs_utils.Cache.Layout.{IsBlock, IsLaidOut}
use erofs_utils.Cache.Layout.Lists.{
  IsChain-remove, IsChain-deref, IsChain-remove_last, All-remove, IsHeads-drop_head, deref_address,
  is_at-some,
}
use erofs_utils.Cache.Layout.Attach.{Place, place_of, sound, update-IsLaidOut}

bfree-IsLaidOut : (a : ℕ) (m : BufMgr) → IsLaidOut m → IsLaidOut (bfree a m)
unfolding bfree
bfree-IsLaidOut a m l = elim (Bool-cases (is_at a m.mapped)) [
  | inl t ↦ rw t (record {
    smallest = l.smallest;
    largest = l.largest;
    chain = IsChain-remove m.sbi 0 m.tail_blkaddr a m.mapped l.chain;
    waiting = l.waiting;
    mapped_blocks = All-remove IsBlock a m.mapped l.mapped_blocks;
    unmapped_blocks = l.unmapped_blocks;
    tail = l.tail;
  })
  | inr f ↦ rw f (record {
    smallest = l.smallest;
    largest = l.largest;
    chain = l.chain;
    waiting = All-remove (λ (b : BufferBlock). b.blkaddr ≡ null_addr) a m.unmapped l.waiting;
    mapped_blocks = l.mapped_blocks;
    unmapped_blocks = All-remove IsBlock a m.unmapped l.unmapped_blocks;
    tail = l.tail;
  })
]

count_meta-IsLaidOut : (b : BufferBlock) (m : BufMgr) → IsLaidOut m → IsLaidOut (count_meta b m)
unfolding count_meta
count_meta-IsLaidOut b m l = elim (Bool-cases (b.type == data_type)) [
  | inl t ↦ rw t l
  | inr f ↦ rw f (record {
    smallest = l.smallest;
    largest = l.largest;
    chain = l.chain;
    waiting = l.waiting;
    mapped_blocks = l.mapped_blocks;
    unmapped_blocks = l.unmapped_blocks;
    tail = l.tail;
  })
]

remove-assign :
    (b : BufferBlock) (bs : List BufferBlock) → remove b.address (assign b bs) ≡ remove b.address bs
unfolding remove assign
remove-assign b [] = refl
remove-assign b (x ∷ bs) = elim (Bool-cases (x.address == b.address)) [
  | inl t ↦ rw t (ground (arith, ==_self b.address))
  | inr f ↦ rw f (rw f (ap (λ (y : List BufferBlock). x ∷ y) (remove-assign b bs)))
]

deref-assign :
    (b old : BufferBlock) (bs : List BufferBlock)
    → deref b.address bs ≡ some old
    → deref b.address (assign b bs) ≡ some b
unfolding deref assign
deref-assign b old [] d = cc
deref-assign b old (x ∷ bs) d = elim (Bool-cases (x.address == b.address)) [
  | inl t ↦ rw t (ground (arith, ==_self b.address))
  | inr f ↦ rw f (rw f (deref-assign b old bs (ground (arith, f))))
]

freed_mapped :
    (m : BufMgr) (bb b : BufferBlock)
    → deref b.address m.mapped ≡ some bb
    → (bfree b.address (update b m)).mapped ≡ remove b.address m.mapped
unfolding bfree update
freed_mapped m bb b d = rw (is_at-some b.address m.mapped bb d) (
    rw (is_at-some b.address (assign b m.mapped) b (deref-assign b bb m.mapped d))
      (remove-assign b m.mapped))

bfree_sbi : (a : ℕ) (m : BufMgr) → (bfree a m).sbi ≡ m.sbi
unfolding bfree
bfree_sbi a m = ground arith

update_sbi : (b : BufferBlock) (m : BufMgr) → (update b m).sbi ≡ m.sbi
unfolding update
update_sbi b m = ground arith

-- When the tail is to be rolled back, no block with a place follows.
abbrev pub IsRevocable : BufMgr → Bh → Bool → Type 0
IsRevocable m bh tryrevoke = (tryrevoke ≡ false) ⊎ (next_blkaddr bh.block (blocks m) ≡ null_addr)

abbrev pub Left : Option BufMgr → Type 0
Left none = Unit
Left (some n) = IsLaidOut n

module _ (m : BufMgr) (l : IsLaidOut m) (bb : BufferBlock) (p : Place m l bb) where
  abbrev dropped : List BufferHead → BufferBlock
  dropped heads = record bb { heads = heads }

  dropped-IsLaidOut : (a : ℕ) → IsLaidOut (update (dropped (drop_head a bb.heads)) m)
  dropped-IsLaidOut a =
      let k = sound m l bb p in
      update-IsLaidOut m l bb (dropped (drop_head a bb.heads)) p refl refl
        (record { heads = IsHeads-drop_head 0 bb.off a bb.heads k.heads; small = k.small })
        (inl (omega arith))

  rolled_back :
      (heads : List BufferHead)
      → IsLaidOut (bfree bb.address (update (dropped heads) m))
      → deref bb.address m.mapped ≡ some bb
      → next_blkaddr bb.address (blocks m) ≡ null_addr
      → IsLaidOut
          (record (bfree bb.address (update (dropped heads) m)) { tail_blkaddr = bb.blkaddr })
  rolled_back heads k d n =
      let c = dropped heads in
      let chain =
        IsChain-remove_last m.sbi 0 m.tail_blkaddr bb.address m.mapped m.unmapped bb d n l.tail
          l.chain in
      record {
        smallest = k.smallest;
        largest = k.largest;
        chain = rw (freed_mapped m bb c d, bfree_sbi bb.address (update c m), update_sbi c m) chain;
        waiting = k.waiting;
        mapped_blocks = k.mapped_blocks;
        unmapped_blocks = k.unmapped_blocks;
        tail =
            omega (
              arith,
              IsChain-deref m.sbi 0 m.tail_blkaddr bb.address m.mapped bb d l.chain,
              l.tail,
            );
      }

  drop_block-IsLaidOut :
      (heads : List BufferHead) (rollback : Bool)
      → IsLaidOut (update (dropped heads) m)
      → (rollback ≡ false)
        ⊎ ((deref bb.address m.mapped ≡ some bb) × (next_blkaddr bb.address (blocks m) ≡ null_addr))
      → IsLaidOut (drop_block rollback (dropped heads) (update (dropped heads) m))
  unfolding drop_block
  drop_block-IsLaidOut (h ∷ hs) rollback k v = k
  drop_block-IsLaidOut [] false k v =
      bfree-IsLaidOut bb.address _ (count_meta-IsLaidOut (dropped []) _ k)
  drop_block-IsLaidOut [] true k (inl f) = cc
  drop_block-IsLaidOut [] true k (inr v) = rolled_back [] (bfree-IsLaidOut bb.address _ k) v.0 v.1

pub bdrop-Kept :
    (m : BufMgr) (bh : Bh) (tryrevoke : Bool)
    → IsLaidOut m
    → IsRevocable m bh tryrevoke
    → Left (bdrop m bh tryrevoke)
unfolding bdrop
bdrop-Kept m bh tryrevoke l v = elim (Option-cases (deref bh.block (blocks m))) [
  | inl n ↦ rw (bdrop, n) tt
  | inr (bb, d) ↦
      let p = place_of m l bb bh.block d in
      let a : bb.address ≡ bh.block = deref_address bh.block (blocks m) bb d in
      rw (bdrop, d)
        (drop_block-IsLaidOut m l bb p (drop_head bh.head bb.heads) _
          (dropped-IsLaidOut m l bb p bh.head)
          (elim v [
            | inl f ↦ inl (rw f refl)
            | inr n ↦ elim p [ inl h ↦ inr (h.0, rw a n) | inr h ↦ inl (ground (arith, h.2)) ]
          ]))
]
