-- ===== src/Cache/Layout/Attach.antt =====
-- __erofs_battach keeps the layout.
use erofs_utils.Base.{
  ℕ, ◌+◌, ◌/◌, ◌^◌, ◌≤◌, ◌<◌, ◌≡◌, ap, subst, arith, ◌∙◌, sym, refl, ◌⊎◌, inl, inr, Bool, true,
  false, Option, none, some, All, ◌==◌, if◌then◌else◌, Bool-cases, ==→eq,
}
use erofs_utils.Base.Words.{add64}
use erofs_utils.Base.Errno.{done}
use erofs_utils.Geometry.{blksiz, roundup, blk_round_up}
use erofs_utils.Cache.{
  BufferHead, BufferBlock, BufMgr, null_addr, blocks, deref, next_blkaddr, update, bupdate_mapped,
  attach_used, at_tail, attach_check, attach_heads, attach_write,
}
use erofs_utils.Cache.Layout.{IsBlock, IsLaidOut, end_block}
use erofs_utils.Cache.Layout.Lists.{
  IsChain-assign, IsChain-assign_last, IsChain-deref, All-deref, All-assign, IsHeads-attach_heads,
  deref_address, deref-append, is_at-some, is_at-none,
}
use erofs_utils.Cache.Layout.Fits.{
  IsAlignment, new_end, new_end_blocks, blk_round_up_mono, attach_within,
}

-- The device and the blocks have room for `incr` bytes more: the number of the last block stays below
-- NULL_ADDR, and no block grows to 2 ^ 48 bytes.
pub record HasRoom (m : BufMgr) (incr : ℕ) : Type 0 where
  pub device : m.tail_blkaddr + incr / blksiz m.sbi + 2 < null_addr
  pub mapped : All (λ b. b.off + incr + 2 ^ 17 < 2 ^ 48) m.mapped
  pub unmapped : All (λ b. b.off + incr + 2 ^ 17 < 2 ^ 48) m.unmapped

-- a block with a place that ends at the tail
abbrev pub IsEnd : BufMgr → BufferBlock → Type 0
IsEnd m bb = ((bb.blkaddr == null_addr) ≡ false) × (at_tail m bb ≡ true)

-- What __erofs_battach lets through: what the last block has room for; or a block without a place; or
-- the last of all, whose end is the tail.
pub attach_check_cases :
    (m : BufMgr) (bb : BufferBlock) (incr a extra : ℕ) (t : Bool)
    → attach_check m bb incr a extra ≡ done t
    → ((attach_used m bb incr a extra ≤ blksiz m.sbi) × ((t ≡ false) ⊎ IsEnd m bb))
      ⊎ (((bb.blkaddr ≡ null_addr) × (t ≡ false))
          ⊎ ((next_blkaddr bb.address (blocks m) ≡ null_addr) × (t ≡ true) × IsEnd m bb))
unfolding attach_check
attach_check_cases m bb incr a extra t h = ground arith

-- buckets play no part
pub bupdate_mapped-IsLaidOut :
    (b : BufferBlock) (m : BufMgr) → IsLaidOut m → IsLaidOut (bupdate_mapped b m)
unfolding bupdate_mapped
bupdate_mapped-IsLaidOut b m l = elim (Bool-cases (b.blkaddr == null_addr)) [
  | inl t ↦ rw t l
  | inr f ↦ rw f (record {
    smallest = l.smallest;
    largest = l.largest;
    chain = l.chain;
    waiting = l.waiting;
    mapped_blocks = l.mapped_blocks;
    unmapped_blocks = l.unmapped_blocks;
    tail = l.tail;
  })
]

module _ (m : BufMgr) (l : IsLaidOut m) (bb : BufferBlock) where
  abbrev pub Place : Type 0
  Place =
      ((deref bb.address m.mapped ≡ some bb) × (end_block m.sbi bb ≤ m.tail_blkaddr))
      ⊎ ((deref bb.address m.mapped ≡ none)
          × (deref bb.address m.unmapped ≡ some bb)
          × (bb.blkaddr ≡ null_addr))

  pub place_of : (a : ℕ) → deref a (blocks m) ≡ some bb → Place
  place_of a d =
      let e : a ≡ bb.address = sym (deref_address a (blocks m) bb d) in
      elim (deref-append bb.address m.mapped m.unmapped bb
        (subst (λ (x : ℕ). deref x (blocks m) ≡ some bb) e d)) [
          | inl h ↦ inl (h, IsChain-deref m.sbi 0 m.tail_blkaddr bb.address m.mapped bb h l.chain)
          | inr h ↦ inr (
            h.0,
            h.1,
            All-deref (λ b. b.blkaddr ≡ null_addr) bb.address m.unmapped bb h.1 l.waiting,
          )
        ]

  -- what is in the block is in order
  pub sound : Place → IsBlock bb
  sound (inl h) = All-deref IsBlock bb.address m.mapped bb h.0 l.mapped_blocks
  sound (inr h) = All-deref IsBlock bb.address m.unmapped bb h.1 l.unmapped_blocks

  -- A store to a block that ends no later than before, or has no place.
  pub update-IsLaidOut :
      (b : BufferBlock)
      → Place
      → b.address ≡ bb.address
      → b.blkaddr ≡ bb.blkaddr
      → IsBlock b
      → ((blk_round_up m.sbi b.off ≤ blk_round_up m.sbi bb.off) ⊎ (bb.blkaddr ≡ null_addr))
      → IsLaidOut (update b m)
  unfolding update
  update-IsLaidOut b (inl h) a e k s =
      let found : deref b.address m.mapped ≡ some bb = rw a h.0 in
      rw (is_at-some b.address m.mapped bb found) (record {
        smallest = l.smallest;
        largest = l.largest;
        chain =
            IsChain-assign m.sbi 0 m.tail_blkaddr m.mapped bb b found e
              (elim s [ inl x ↦ x | inr n ↦ absurd (omega (arith, h.1, l.tail, n)) ]) l.chain;
        waiting = l.waiting;
        mapped_blocks = All-assign IsBlock b m.mapped k l.mapped_blocks;
        unmapped_blocks = l.unmapped_blocks;
        tail = l.tail;
      })
  update-IsLaidOut b (inr h) a e k s = rw (is_at-none b.address m.mapped (rw a h.0)) (record {
    smallest = l.smallest;
    largest = l.largest;
    chain = l.chain;
    waiting =
        All-assign (λ (y : BufferBlock). y.blkaddr ≡ null_addr) b m.unmapped (e ∙ h.2) l.waiting;
    mapped_blocks = l.mapped_blocks;
    unmapped_blocks = All-assign IsBlock b m.unmapped k l.unmapped_blocks;
    tail = l.tail;
  })

  -- A store to the last block that has a place moves the tail behind it.
  pub update-tail-IsLaidOut :
      (b : BufferBlock)
      → deref bb.address m.mapped ≡ some bb
      → b.address ≡ bb.address
      → b.blkaddr ≡ bb.blkaddr
      → IsBlock b
      → next_blkaddr bb.address (blocks m) ≡ null_addr
      → end_block m.sbi b < null_addr
      → IsLaidOut (record (update b m) { tail_blkaddr = end_block m.sbi b })
  unfolding update
  update-tail-IsLaidOut b h a e k n s =
      let found : deref b.address m.mapped ≡ some bb = rw a h in
      rw (is_at-some b.address m.mapped bb found) (record {
        smallest = l.smallest;
        largest = l.largest;
        chain =
            IsChain-assign_last m.sbi 0 m.tail_blkaddr m.mapped m.unmapped bb b found e (rw a n)
              l.tail l.chain;
        waiting = l.waiting;
        mapped_blocks = All-assign IsBlock b m.mapped k l.mapped_blocks;
        unmapped_blocks = l.unmapped_blocks;
        tail = s;
      })

  update_tail_blkaddr : (b : BufferBlock) → (update b m).tail_blkaddr ≡ m.tail_blkaddr
  unfolding update
  update_tail_blkaddr b = ground arith

  same_tail :
      (n : BufMgr) (x : ℕ)
      → IsLaidOut n
      → x ≡ n.tail_blkaddr
      → IsLaidOut (record n { tail_blkaddr = x })
  same_tail n x k e = record {
    smallest = k.smallest;
    largest = k.largest;
    chain = rw e k.chain;
    waiting = k.waiting;
    mapped_blocks = k.mapped_blocks;
    unmapped_blocks = k.unmapped_blocks;
    tail = rw e k.tail;
  }

  room_in : (incr : ℕ) → Place → HasRoom m incr → bb.off + incr + 2 ^ 17 < 2 ^ 48
  room_in incr (inl h) r =
      All-deref (λ (b : BufferBlock). b.off + incr + 2 ^ 17 < 2 ^ 48) bb.address m.mapped bb h.0
        r.mapped
  room_in incr (inr h) r =
      All-deref (λ (b : BufferBlock). b.off + incr + 2 ^ 17 < 2 ^ 48) bb.address m.unmapped bb h.1
        r.unmapped

  ends : Place → bb.off < 2 ^ 48 → IsEnd m bb → m.tail_blkaddr ≡ end_block m.sbi bb
  unfolding at_tail
  ends (inl h) s t = omega (arith, h.1, l.tail, ==→eq _ _ t.1)
  ends (inr h) s t = absurd (ground (arith, h.2, t.0))

  mapped_of : Place → IsEnd m bb → deref bb.address m.mapped ≡ some bb
  mapped_of (inl h) t = h.0
  mapped_of (inr h) t = absurd (ground (arith, h.2, t.0))

  either_tail :
      (t : Bool) (n : BufMgr) (x : ℕ)
      → IsLaidOut n
      → x ≡ n.tail_blkaddr
      → IsLaidOut (if t then record n { tail_blkaddr = x } else n)
  either_tail true n x k e = same_tail n x k e
  either_tail false n x k e = k

  -- the block as __erofs_battach stores it
  abbrev attached : Option BufferHead → ℕ → ℕ → BufferBlock
  attached bh incr a = record bb {
    off = add64 (roundup bb.off a) incr;
    heads = attach_heads bh (roundup bb.off a) bb.heads;
  }

  attached-IsBlock :
      (bh : Option BufferHead) (incr a : ℕ)
      → Place
      → IsAlignment m.sbi a
      → HasRoom m incr
      → IsBlock (attached bh incr a)
  attached-IsBlock bh incr a p g r =
      let (e, lo, hi) = new_end m.sbi l.largest a bb.off incr g (room_in incr p r) in
      record {
        heads =
            IsHeads-attach_heads bh 0 bb.off (roundup bb.off a) _ bb.heads (sound p).heads lo
              (omega (arith, e));
        small = omega (arith, e, hi, room_in incr p r);
      }

  attached-same :
      (bh : Option BufferHead) (incr a extra : ℕ) (t : Bool)
      → Place
      → IsAlignment m.sbi a
      → HasRoom m incr
      → extra < 2 ^ 32
      → attach_used m bb incr a extra ≤ blksiz m.sbi
      → (t ≡ false) ⊎ IsEnd m bb
      → IsLaidOut (update (attached bh incr a) m)
        × ((t ≡ false) ⊎ (end_block m.sbi (attached bh incr a) ≡ m.tail_blkaddr))
  unfolding attach_used
  attached-same bh incr a extra t p g r x u s =
      let (e, lo, hi) = new_end m.sbi l.largest a bb.off incr g (room_in incr p r) in
      let within = attach_within m.sbi l.largest a bb.off incr extra g (room_in incr p r) x u in
      let new = ap (blk_round_up m.sbi) e in
      let more =
        blk_round_up_mono m.sbi l.largest bb.off (add64 (roundup bb.off a) incr)
          (omega (arith, e, lo)) (omega (arith, e, hi, room_in incr p r)) in
      (
        update-IsLaidOut (attached bh incr a) p refl refl (attached-IsBlock bh incr a p g r)
            (inl (omega (arith, within, new))),
        elim s [
          | inl f ↦ inl f
          | inr y ↦ inr (omega (arith, ends p (sound p).small y, within, new, more))
        ],
      )

  pub attach_write-IsLaidOut :
      (place : ℕ) (bh : Option BufferHead) (incr a extra : ℕ) (t : Bool)
      → deref place (blocks m) ≡ some bb
      → IsAlignment m.sbi a
      → HasRoom m incr
      → extra < 2 ^ 32
      → attach_check m bb incr a extra ≡ done t
      → IsLaidOut (attach_write m bb bh incr a t)
  unfolding attach_write
  attach_write-IsLaidOut place bh incr a extra t d g r x c =
      let p = place_of place d in
      let b = attached bh incr a in
      let (e, lo, hi) = new_end m.sbi l.largest a bb.off incr g (room_in incr p r) in
      let k = attached-IsBlock bh incr a p g r in
      bupdate_mapped-IsLaidOut b _ (elim (attach_check_cases m bb incr a extra t c) [
        | inl (u, s) ↦
            let (kept, tail) = attached-same bh incr a extra t p g r x u s in
            elim tail [
              | inl f ↦ rw f kept
              | inr y ↦
                  either_tail t (update b m) _ kept
                    (omega (arith, y, l.tail, update_tail_blkaddr b))
            ]
        | inr (inl (n, f)) ↦ rw f (update-IsLaidOut b p refl refl k (inr n))
        | inr (inr (n, y, z)) ↦
            let end = ends p (sound p).small z in
            let few = new_end_blocks m.sbi l.largest a bb.off incr g (room_in incr p r) in
            let new = ap (blk_round_up m.sbi) e in
            let tail : end_block m.sbi b < null_addr = omega (arith, end, few, new, r.device) in
            rw y (
              subst (λ (x : ℕ). IsLaidOut (record (update b m) { tail_blkaddr = x }))
                {x = end_block m.sbi b} (omega (arith, tail))
                (update-tail-IsLaidOut b (mapped_of p z) refl refl k n tail))
      ])
