-- ===== src/Cache/Layout/Calls.antt =====
-- The calls of the buffer manager keep the layout.
use erofs_utils.Base.{
  ℕ, ◌+◌, ◌^◌, ◌≤◌, ◌<◌, ◌≡◌, arith, refl, inl, inr, false, Option, none, some, [], ◌==◌,
  Bool-cases, Option-cases,
}
use erofs_utils.Base.Errno.{Result-cases}
use erofs_utils.Geometry.{SbInfo}
use erofs_utils.Cache.{
  Bh, drop_directly, is_last, BufferHead, BufferBlock, BufMgr, null_addr, blocks, deref, data_type,
  attach_check, attach, bh_balloon, get_alignsize, buffer_init,
}
use erofs_utils.Cache.Alloc.{add_block, attach_new, bfind_for_attach, balloc, battach}
use erofs_utils.Cache.Layout.{IsBlock, IsLaidOut}
use erofs_utils.Cache.Layout.Lists.{All-snoc}
use erofs_utils.Cache.Layout.Fits.{IsAlignment, two_pow-IsAlignment, get_alignsize-IsAlignment}
use erofs_utils.Cache.Layout.Attach.{HasRoom, attach_write-IsLaidOut}

pub buffer_init-IsLaidOut :
    (sbi : SbInfo) (startblk metablkcnt : ℕ)
    → 9 ≤ sbi.blkszbits
    → sbi.blkszbits ≤ 16
    → startblk < null_addr
    → IsLaidOut (buffer_init sbi startblk metablkcnt)
unfolding buffer_init
buffer_init-IsLaidOut sbi startblk metablkcnt s g t = record {
  smallest = s;
  largest = g;
  chain = omega arith;
  waiting = tt;
  mapped_blocks = tt;
  unmapped_blocks = tt;
  tail = t;
}

attach-IsLaidOut :
    (m : BufMgr) (bb : BufferBlock) (place : ℕ) (bh : Option BufferHead) (incr a extra : ℕ)
    → IsLaidOut m
    → deref place (blocks m) ≡ some bb
    → IsAlignment m.sbi a
    → HasRoom m incr
    → extra < 2 ^ 32
    → IsLaidOut (attach m bb bh incr a extra false).1
unfolding attach
attach-IsLaidOut m bb place bh incr a extra l d g r x =
    elim (Result-cases (attach_check m bb incr a extra)) [
      | inl (e, c) ↦ rw (attach, c) l
      | inr (t, c) ↦
          rw (attach, c) (attach_write-IsLaidOut m l bb place bh incr a extra t d g r x c)
    ]

-- what a call leaves, unless it follows a stale pointer
abbrev pub Kept : {R : Type 0} → Option (R × BufMgr) → Type 0
Kept none = Unit
Kept (some r) = IsLaidOut r.1

add_block-IsLaidOut :
    (m : BufMgr) (address type : ℕ) → IsLaidOut m → IsLaidOut (add_block m address type)
unfolding add_block
add_block-IsLaidOut m address type l =
    let bb : BufferBlock = record {
      address = address;
      blkaddr = null_addr;
      type = type;
      off = 0;
      heads = [];
    } in
    let k : IsBlock bb = record { heads = omega arith; small = omega arith } in
    elim (Bool-cases (type == data_type)) [
      | inl t ↦ rw t (record {
        smallest = l.smallest;
        largest = l.largest;
        chain = l.chain;
        waiting = (refl, l.waiting);
        mapped_blocks = l.mapped_blocks;
        unmapped_blocks = (k, l.unmapped_blocks);
        tail = l.tail;
      })
      | inr f ↦ rw f (record {
        smallest = l.smallest;
        largest = l.largest;
        chain = l.chain;
        waiting =
            All-snoc (λ (b : BufferBlock). b.blkaddr ≡ null_addr) bb m.unmapped refl l.waiting;
        mapped_blocks = l.mapped_blocks;
        unmapped_blocks = All-snoc IsBlock bb m.unmapped k l.unmapped_blocks;
        tail = l.tail;
      })
    ]

pub bh_balloon-Kept :
    (m : BufMgr) (bh : Bh) (incr : ℕ) → IsLaidOut m → HasRoom m incr → Kept (bh_balloon m bh incr)
unfolding bh_balloon
bh_balloon-Kept m bh incr l r = elim (Option-cases (deref bh.block (blocks m))) [
  | inl n ↦ rw (bh_balloon, n) tt
  | inr (bb, d) ↦
      rw (bh_balloon, d)
        (elim (Bool-cases (is_last bh.head bb.heads)) [
          | inl t ↦
              rw (bh_balloon, t)
                (attach-IsLaidOut m bb bh.block none incr 1 0 l d
                  (two_pow-IsAlignment m.sbi 0 (omega arith)) r (omega arith))
          | inr f ↦ rw (bh_balloon, f) l
        ])
]

attach_new-Kept :
    (m : BufMgr) (block : ℕ) (new_bh : Option ℕ) (size a extra : ℕ)
    → IsLaidOut m
    → IsAlignment m.sbi a
    → HasRoom m size
    → extra < 2 ^ 32
    → Kept (attach_new m block new_bh size a extra)
unfolding attach_new
attach_new-Kept m block none size a extra l g r x = l
attach_new-Kept m block (some h) size a extra l g r x =
    elim (Option-cases (deref block (blocks m))) [
      | inl n ↦ rw (attach_new, n) tt
      | inr (bb, d) ↦
          let bh : BufferHead = record { address = h; off = 0; op = drop_directly } in
          let k = attach-IsLaidOut m bb block (some bh) size a extra l d g r x in
          rw (attach_new, d)
            (elim (Result-cases (attach m bb (some bh) size a extra false).0) [
              | inl (e, c) ↦ rw (attach_new, c) k
              | inr (t, c) ↦ rw (attach_new, c) k
            ])
    ]

add_block-HasRoom :
    (m : BufMgr) (address type size : ℕ)
    → size + 2 ^ 17 < 2 ^ 48
    → HasRoom m size
    → HasRoom (add_block m address type) size
unfolding add_block
add_block-HasRoom m address type size s r = elim (Bool-cases (type == data_type)) [
  | inl t ↦
      rw t (record { device = r.device; mapped = r.mapped; unmapped = (omega arith, r.unmapped) })
  | inr f ↦ rw f (record {
    device = r.device;
    mapped = r.mapped;
    unmapped =
        All-snoc (λ (b : BufferBlock). b.off + size + 2 ^ 17 < 2 ^ 48) _ m.unmapped (omega arith)
          r.unmapped;
  })
]

add_block_sbi : (m : BufMgr) (address type : ℕ) → (add_block m address type).sbi ≡ m.sbi
unfolding add_block
add_block_sbi m address type = ground arith

pub balloc-Kept :
    (m : BufMgr) (type size required_ext inline_ext : ℕ) (new_bb new_bh : Option ℕ)
    → IsLaidOut m
    → HasRoom m size
    → size + 2 ^ 17 < 2 ^ 48
    → Kept (balloc m type size required_ext inline_ext new_bb new_bh)
unfolding balloc
balloc-Kept m type size required_ext inline_ext new_bb new_bh l r s =
    elim (Result-cases (get_alignsize m.sbi type)) [
      | inl (e, c) ↦ rw (balloc, c) l
      | inr (at, c) ↦
          let g = get_alignsize-IsAlignment m.sbi type at.0 at.1 l.smallest c in
          rw (balloc, c)
            (elim (Result-cases (bfind_for_attach m at.1 size required_ext inline_ext at.0)) [
              | inl (e, f) ↦ rw (balloc, f) l
              | inr (some a, f) ↦
                  rw (balloc, f) (attach_new-Kept m a new_bh size at.0 _ l g r (omega arith))
              | inr (none, f) ↦
                  rw (balloc, f)
                    (elim (Option-cases new_bb) [
                      | inl z ↦ rw z l
                      | inr (a, z) ↦ rw z (elim (Option-cases new_bh) [
                        | inl y ↦ rw y (add_block-IsLaidOut m a at.1 l)
                        | inr (h, y) ↦ rw y (
                            attach_new-Kept (add_block m a at.1) a (some h) size at.0 _
                              (add_block-IsLaidOut m a at.1 l) (rw (add_block_sbi m a at.1) g)
                              (add_block-HasRoom m a at.1 size s r) (omega arith))
                      ])
                    ])
            ])
    ]

pub battach-Kept :
    (m : BufMgr) (bh : Bh) (type size : ℕ) (new_bh : Option ℕ)
    → IsLaidOut m
    → HasRoom m size
    → Kept (battach m bh type size new_bh)
unfolding battach
battach-Kept m bh type size new_bh l r = elim (Option-cases (deref bh.block (blocks m))) [
  | inl n ↦ rw (battach, n) tt
  | inr (bb, d) ↦
      rw (battach, d)
        (elim (Result-cases (get_alignsize m.sbi type)) [
          | inl (e, c) ↦ rw (battach, c) l
          | inr (at, c) ↦
              let g = get_alignsize-IsAlignment m.sbi type at.0 at.1 l.smallest c in
              rw (battach, c)
                (elim (Bool-cases (is_last bh.head bb.heads)) [
                  | inl t ↦
                      rw (battach, t)
                        (attach_new-Kept m bh.block new_bh size at.0 0 l g r (omega arith))
                  | inr f ↦ rw (battach, f) l
                ])
        ])
]
