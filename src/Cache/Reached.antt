-- ===== src/Cache/Reached.antt =====
-- lib/cache.c: the states of a buffer manager that the calls of its interface lead to.
use erofs_utils.Base.{ℕ, ◌+◌, ◌^◌, ◌≤◌, ◌<◌, ◌≡◌, subst, ◌⊎◌, Bool, false, Option, none, some, ◌==◌}
use erofs_utils.Base.Errno.{Result}
use erofs_utils.Geometry.{SbInfo}
use erofs_utils.Cache.{Bh, BufMgr, null_addr, buffer_init, bh_balloon}
use erofs_utils.Cache.Alloc.{balloc, battach}
use erofs_utils.Cache.Place.{mapbh, bdrop}
use erofs_utils.Cache.Layout.{IsLaidOut}
use erofs_utils.Cache.Layout.Attach.{HasRoom}
use erofs_utils.Cache.Layout.Calls.{
  Kept, buffer_init-IsLaidOut, bh_balloon-Kept, balloc-Kept, battach-Kept,
}
use erofs_utils.Cache.Layout.Placing.{demand, mapbh-IsLaidOut}
use erofs_utils.Cache.Layout.Extents.{Range, btell-IsLaidOut}
use erofs_utils.Cache.Layout.Dropping.{Left, IsRevocable, bdrop-Kept}

-- One call, in any order and with any arguments, as long as the image does not outgrow the numbers of
-- blocks. Two calls are left out: erofs_balloc, where malloc gives a block and then no head, since the freed
-- block stays in the list; and erofs_bdrop that may roll the tail back, where a block with a place follows.
pub data Call (m n : BufMgr) : Type 0 where
  by_balloc :
      (type size required_ext inline_ext : ℕ) (new_bb new_bh : Option ℕ) (r : Result Bh)
      → HasRoom m size
      → size + 2 ^ 17 < 2 ^ 48
      → (new_bh ≡ none → new_bb ≡ none)
      → balloc m type size required_ext inline_ext new_bb new_bh ≡ some (r, n)
      → Call m n
  by_battach :
      (bh : Bh) (type size : ℕ) (new_bh : Option ℕ) (r : Result Bh)
      → HasRoom m size
      → battach m bh type size new_bh ≡ some (r, n)
      → Call m n
  by_balloon :
      (bh : Bh) (incr : ℕ) (r : Result ℕ)
      → HasRoom m incr
      → bh_balloon m bh incr ≡ some (r, n)
      → Call m n
  by_mapbh :
      (bb : Option ℕ) (blkaddr : ℕ)
      → m.tail_blkaddr + demand m.sbi m.unmapped < null_addr
      → mapbh m bb ≡ (blkaddr, n)
      → Call m n
  by_bdrop :
      (bh : Bh) (tryrevoke : Bool)
      → IsRevocable m bh tryrevoke
      → bdrop m bh tryrevoke ≡ some n
      → Call m n

-- after erofs_buffer_init(sbi, startblk) and any sequence of calls
pub data Reached (sbi : SbInfo) (startblk : ℕ) : BufMgr → Type 0 where
  start : (metablkcnt : ℕ) → Reached sbi startblk (buffer_init sbi startblk metablkcnt)
  call : {m n : BufMgr} → Reached sbi startblk m → Call m n → Reached sbi startblk n

Call-IsLaidOut : (m n : BufMgr) → IsLaidOut m → Call m n → IsLaidOut n
Call-IsLaidOut m n l (by_balloc type size required_ext inline_ext new_bb new_bh r h s f e) =
    subst Kept e (balloc-Kept m type size required_ext inline_ext new_bb new_bh l h s)
Call-IsLaidOut m n l (by_battach bh type size new_bh r h e) =
    subst Kept e (battach-Kept m bh type size new_bh l h)
Call-IsLaidOut m n l (by_balloon bh incr r h e) = subst Kept e (bh_balloon-Kept m bh incr l h)
Call-IsLaidOut m n l (by_mapbh bb blkaddr r e) =
    subst (λ (x : ℕ × BufMgr). IsLaidOut x.1) e (mapbh-IsLaidOut m bb l r)
Call-IsLaidOut m n l (by_bdrop bh tryrevoke v e) = subst Left e (bdrop-Kept m bh tryrevoke l v)

-- With blocks of 512 bytes to 64 KiB and a first block below NULL_ADDR: after erofs_buffer_init and any
-- sequence of successful or refused calls of erofs_balloc, erofs_battach, erofs_bh_balloon, erofs_mapbh
-- and erofs_bdrop that leaves room (block numbers stay below NULL_ADDR and no block grows to 2 ^ 48 bytes), in which no erofs_balloc gets memory for a new block and then none for its
-- head, and erofs_bdrop is called with tryrevoke only for a buffer whose block no block with a place follows:
-- the blocks with a place are in order on the device and end before
-- the tail, the blocks behind last_mapped_block have no place, and the heads of each block are in order.
pub Reached-IsLaidOut :
    (sbi : SbInfo) (startblk : ℕ) (m : BufMgr)
    → 9 ≤ sbi.blkszbits
    → sbi.blkszbits ≤ 16
    → startblk < null_addr
    → Reached sbi startblk m
    → IsLaidOut m
Reached-IsLaidOut sbi startblk _ s g t (start k) = buffer_init-IsLaidOut sbi startblk k s g t
Reached-IsLaidOut sbi startblk n s g t (call {m} r c) =
    Call-IsLaidOut m n (Reached-IsLaidOut sbi startblk m s g t r) c

-- With blocks of 512 bytes to 64 KiB and a first block below NULL_ADDR, after erofs_buffer_init and any
-- sequence of successful or refused calls of erofs_balloc, erofs_battach, erofs_bh_balloon, erofs_mapbh
-- and erofs_bdrop that leaves room (block numbers stay below NULL_ADDR and no block grows to 2 ^ 48 bytes), in
-- which no erofs_balloc gets memory for a new block and then none for its head, and erofs_bdrop is called with
-- tryrevoke only for a buffer whose block no block with a place follows: two buffers that have a place, in different blocks or at different addresses in
-- one block, take bytes of the device that do not overlap, as erofs_btell reports them.
pub Reached-btell :
    (sbi : SbInfo) (startblk : ℕ) (m : BufMgr) (x y : Bh) (s e s' e' : ℕ)
    → 9 ≤ sbi.blkszbits
    → sbi.blkszbits ≤ 16
    → startblk < null_addr
    → Reached sbi startblk m
    → ((x.block == y.block) ≡ false) ⊎ ((x.block ≡ y.block) × ((x.head == y.head) ≡ false))
    → Range m x s e
    → Range m y s' e'
    → (s ≤ e) × (s' ≤ e') × ((e ≤ s') ⊎ (e' ≤ s))
Reached-btell sbi startblk m x y s e s' e' l g t r =
    btell-IsLaidOut m x y s e s' e' (Reached-IsLaidOut sbi startblk m l g t r)
