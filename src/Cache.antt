-- ===== src/Cache.antt =====
-- lib/cache.c and include/erofs/cache.h: the buffer manager, which gives every piece of the image its
-- place. An address of a block or a head is the number malloc returned; malloc is a parameter, and fails
-- as none. The list of blocks is split where last_mapped_block points: `mapped` ends with that block, and
-- is empty where it points to the list's head. A function that follows a stale pointer returns none.
pub mod Alloc
pub mod Place
pub mod Layout
pub mod Reached
use erofs_utils.Base.{
  ℕ, zero, suc, ◌+◌, ◌-◌, ◌^◌, Bool, true, false, not, ◌&&◌, ◌||◌, Option, none, some, List, [],
  ◌∷◌, ◌++◌, drop, ltb, leb, ◌==◌, if◌then◌else◌,
}
use erofs_utils.Base.Words.{add32, add64, sub64}
use erofs_utils.Base.Errno.{Result, done, fail, einval, enomem, enospc}
use erofs_utils.Geometry.{SbInfo, blksiz, blkoff, pos, roundup, rounddown, blk_round_up}

-- DATA, META, INODE, DIRA, XATTR and DEVT
abbrev pub data_type : ℕ
data_type = 0

abbrev pub meta_type : ℕ
meta_type = 1

abbrev pub null_addr : ℕ
null_addr = 2 ^ 32 - 1

abbrev pub null_addr_ul : ℕ
null_addr_ul = 2 ^ 64 - 1

-- The table of operations that `bh->op` points to: erofs_drop_directly_bhops, erofs_skip_write_bhops,
-- or a writer of the module that owns the buffer.
pub data BhOps : Type 0 where
  drop_directly : BhOps
  skip_write : BhOps
  writer : ℕ → BhOps

-- `struct erofs_buffer_head`, less `block`, which is the block whose list it is in
pub record BufferHead : Type 0 where
  pub address : ℕ
  pub off : ℕ
  pub op : BhOps

-- `struct erofs_buffer_block`; `off` is buffers.off, and `heads` is the list buffers.list
pub record BufferBlock : Type 0 where
  pub address : ℕ
  pub blkaddr : ℕ
  pub type : ℕ
  pub off : ℕ
  pub heads : List BufferHead

-- `struct erofs_bufmgr`; a bucket lists the addresses of its blocks
pub record BufMgr : Type 0 where
  pub sbi : SbInfo
  pub mapped_buckets : ℕ → ℕ → List ℕ
  pub mapped : List BufferBlock
  pub unmapped : List BufferBlock
  pub tail_blkaddr : ℕ
  pub metablkcnt : ℕ

-- a pointer to a buffer head, with the block that it points back to
pub record Bh : Type 0 where
  pub block : ℕ
  pub head : ℕ

-- The size to align to, and the type of the block: META for all that is not DATA.
unfoldable pub get_alignsize : SbInfo → ℕ → Result (ℕ × ℕ)
get_alignsize sbi type =
    if type == 0
    then done (blksiz sbi, 0)
    else if type == 2
    then done (32, 1)
    else if type == 3
    then done (blksiz sbi, 1)
    else if type == 4
    then done (4, 1)
    else if type == 5
    then done (128, 1)
    else if type == 1
    then done (1, 1)
    else fail einval

-- The manager that erofs_buffer_init returns, where malloc succeeds; `metablkcnt` is what the memory held, since
-- that field is not set.
unfoldable pub buffer_init : SbInfo → ℕ → ℕ → BufMgr
buffer_init sbi startblk metablkcnt = record {
  sbi = sbi;
  mapped_buckets = λ type used. [];
  mapped = [];
  unmapped = [];
  tail_blkaddr = startblk;
  metablkcnt = metablkcnt;
}

abbrev pub blocks : BufMgr → List BufferBlock
blocks m = m.mapped ++ m.unmapped

-- the block at an address
unfoldable pub deref : ℕ → List BufferBlock → Option BufferBlock
deref a [] = none
deref a (b ∷ bs) = let rest = deref a bs in if b.address == a then some b else rest

-- what is stored through a pointer to a block
unfoldable pub assign : BufferBlock → List BufferBlock → List BufferBlock
assign b [] = []
assign b (c ∷ cs) = let rest = assign b cs in if c.address == b.address then b ∷ cs else c ∷ rest

unfoldable pub is_at : ℕ → List BufferBlock → Bool
is_at a bs = elim (deref a bs) [ none ↦ false | some b ↦ true ]

unfoldable pub update : BufferBlock → BufMgr → BufMgr
update b m =
    if is_at b.address m.mapped
    then record m { mapped = assign b m.mapped }
    else record m { unmapped = assign b m.unmapped }

unfoldable pub first_blkaddr : List BufferBlock → ℕ
first_blkaddr [] = null_addr
first_blkaddr (b ∷ bs) = b.blkaddr

-- list_next_entry(bb, list)->blkaddr; that of the list's head is NULL_ADDR
unfoldable pub next_blkaddr : ℕ → List BufferBlock → ℕ
next_blkaddr a [] = null_addr
next_blkaddr a (b ∷ bs) =
    let rest = next_blkaddr a bs in if b.address == a then first_blkaddr bs else rest

-- list_del of a block's mapped_list
unfoldable pub unlist : ℕ → List ℕ → List ℕ
unlist a [] = []
unlist a (x ∷ xs) = let rest = unlist a xs in if x == a then rest else x ∷ rest

unfoldable pub bupdate_mapped : BufferBlock → BufMgr → BufMgr
bupdate_mapped bb m = if bb.blkaddr == null_addr then m else record m {
  mapped_buckets = λ type used.
      let bkt = unlist bb.address (m.mapped_buckets type used) in
      if type == bb.type && used == blkoff m.sbi bb.off then bkt ++ (bb.address ∷ []) else bkt;
}

-- The bytes of the last block that are used, once what is asked for is there too.
unfoldable pub attach_used : BufMgr → BufferBlock → ℕ → ℕ → ℕ → ℕ
attach_used m bb incr alignsize extrasize =
    add64 (add64 (roundup (blkoff m.sbi (sub64 bb.off 1) + 1) alignsize) incr) extrasize

-- whether the end of the block is the end of all
unfoldable pub at_tail : BufMgr → BufferBlock → Bool
at_tail m bb = m.tail_blkaddr == add64 bb.blkaddr (blk_round_up m.sbi bb.off)

-- The refusals, and whether the tail moves.
unfoldable pub attach_check : BufMgr → BufferBlock → ℕ → ℕ → ℕ → Result Bool
attach_check m bb incr alignsize extrasize =
    let used = attach_used m bb incr alignsize extrasize in
    let over = ltb (blksiz m.sbi) used in
    if ltb used (blksiz m.sbi)
    then done false
    else if over && not (next_blkaddr bb.address (blocks m) == null_addr)
    then fail einval
    else if bb.blkaddr == null_addr
    then done false
    else if over && not (at_tail m bb)
    then fail einval
    else done (at_tail m bb)

unfoldable pub attach_heads : Option BufferHead → ℕ → List BufferHead → List BufferHead
attach_heads none alignedoffset heads = heads
attach_heads (some bh) alignedoffset heads = heads ++ (record bh { off = alignedoffset } ∷ [])

unfoldable pub attach_write : BufMgr → BufferBlock → Option BufferHead → ℕ → ℕ → Bool → BufMgr
attach_write m bb bh incr alignsize tailupdate =
    let alignedoffset = roundup bb.off alignsize in
    let boff = add64 alignedoffset incr in
    let b = record bb { off = boff; heads = attach_heads bh alignedoffset bb.heads } in
    let n = update b m in
    let t =
      if tailupdate
      then record n { tail_blkaddr = add32 bb.blkaddr (blk_round_up m.sbi boff) }
      else n in
    bupdate_mapped b t

-- the occupied bytes in the last block
unfoldable pub attach_occupied : BufMgr → BufferBlock → ℕ → ℕ → ℕ
attach_occupied m bb incr alignsize =
    blkoff m.sbi (sub64 (add64 (roundup bb.off alignsize) incr) 1) + 1

unfoldable pub attach :
    BufMgr → BufferBlock → Option BufferHead → ℕ → ℕ → ℕ → Bool → Result ℕ × BufMgr
attach m bb bh incr alignsize extrasize dryrun = elim (attach_check m bb incr alignsize extrasize) [
  | fail e ↦ (fail e, m)
  | done tailupdate ↦ (
    done (attach_occupied m bb incr alignsize),
    if dryrun then m else attach_write m bb bh incr alignsize tailupdate,
  )
]

-- bh->list.next == &bb->buffers.list
unfoldable pub is_last : ℕ → List BufferHead → Bool
is_last a [] = false
is_last a (h ∷ []) = h.address == a
is_last a (h ∷ k ∷ hs) = is_last a (k ∷ hs)

unfoldable pub bh_balloon : BufMgr → Bh → ℕ → Option (Result ℕ × BufMgr)
bh_balloon m bh incr = elim (deref bh.block (blocks m)) [
  | none ↦ none
  | some bb ↦
      some (if is_last bh.head bb.heads then attach m bb none incr 1 0 false else (fail einval, m))
]
