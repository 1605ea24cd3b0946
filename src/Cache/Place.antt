-- ===== src/Cache/Place.antt =====
-- lib/cache.c: placing the blocks on the device, flushing and dropping buffers, and where a buffer stands. What
-- a writer does with a buffer, and erofs_dev_fillzero, are parameters.
use erofs_utils.Base.{
  ℕ, ◌-◌, Bool, true, false, not, ◌&&◌, Option, none, some, List, [], ◌∷◌, ◌++◌, drop, ltb, ◌==◌,
  if◌then◌else◌,
}
use erofs_utils.Base.Words.{add32, add64, sub64}
use erofs_utils.Geometry.{blksiz, blkoff, pos, blk_round_up}
use erofs_utils.Cache.{
  data_type, null_addr, null_addr_ul, BufferHead, BufferBlock, BufMgr, Bh, blocks, deref, is_at,
  update, unlist, bupdate_mapped, at_tail, drop_directly, skip_write, writer,
}

-- the block with the place that __erofs_mapbh gives it: the end of all
unfoldable pub placed : BufMgr → BufferBlock → BufferBlock
placed m bb = if bb.blkaddr == null_addr then record bb { blkaddr = m.tail_blkaddr } else bb

-- `bb` is the block behind last_mapped_block, and becomes last_mapped_block.
unfoldable pub map_new : BufMgr → BufferBlock → BufMgr
map_new m bb =
    bupdate_mapped bb (record m { mapped = m.mapped ++ (bb ∷ []); unmapped = drop 1 m.unmapped })

unfoldable pub raise_tail : ℕ → BufMgr → BufMgr
raise_tail blkaddr m = if ltb m.tail_blkaddr blkaddr then record m { tail_blkaddr = blkaddr } else m

-- __erofs_mapbh
unfoldable pub map_one : BufMgr → BufferBlock → ℕ × BufMgr
map_one m bb =
    let b = placed m bb in
    let blkaddr = add32 b.blkaddr (blk_round_up m.sbi b.off) in
    (blkaddr, raise_tail blkaddr (if bb.blkaddr == null_addr then map_new m b else m))

unfoldable pub points_to : Option ℕ → BufferBlock → Bool
points_to none t = false
points_to (some a) t = t.address == a

-- the blocks from the one behind last_mapped_block to `bb`
unfoldable pub map_until : Option ℕ → List BufferBlock → BufMgr → BufMgr
map_until bb [] m = m
map_until bb (t ∷ ts) m =
    let n = (map_one m t).1 in let rest = map_until bb ts n in if points_to bb t then n else rest

unfoldable pub blkaddr_of : Option ℕ → BufMgr → ℕ
blkaddr_of none m = null_addr
blkaddr_of (some a) m = elim (deref a (blocks m)) [ none ↦ null_addr | some bb ↦ bb.blkaddr ]

unfoldable pub mapbh : BufMgr → Option ℕ → ℕ × BufMgr
mapbh m bb =
    let n = map_until bb m.unmapped m in
    if blkaddr_of bb m == null_addr then (n.tail_blkaddr, n) else (blkaddr_of bb m, m)

-- list_del of a block
unfoldable pub remove : ℕ → List BufferBlock → List BufferBlock
remove a [] = []
remove a (b ∷ bs) = let rest = remove a bs in if b.address == a then bs else b ∷ rest

unfoldable pub bfree : ℕ → BufMgr → BufMgr
bfree a m =
    let n = record m { mapped_buckets = λ type used. unlist a (m.mapped_buckets type used) } in
    if is_at a m.mapped
    then record n { mapped = remove a m.mapped }
    else record n { unmapped = remove a m.unmapped }

-- list_del of a head
unfoldable pub drop_head : ℕ → List BufferHead → List BufferHead
drop_head a [] = []
drop_head a (h ∷ hs) = let rest = drop_head a hs in if h.address == a then hs else h ∷ rest

unfoldable pub count_meta : BufferBlock → BufMgr → BufMgr
count_meta bb m =
    if bb.type == data_type
    then m
    else record m { metablkcnt = add32 m.metablkcnt (blk_round_up m.sbi bb.off) }

-- the end of erofs_bdrop: a block without buffers is freed, and the tail rolled back to it
unfoldable pub drop_block : Bool → BufferBlock → BufMgr → BufMgr
drop_block rollback bb m =
    let freed = bfree bb.address (if rollback then m else count_meta bb m) in
    elim bb.heads [
      | h ∷ hs ↦ m
      | [] ↦ if rollback then record freed { tail_blkaddr = bb.blkaddr } else freed
    ]

unfoldable pub bdrop : BufMgr → Bh → Bool → Option BufMgr
bdrop m bh tryrevoke = elim (deref bh.block (blocks m)) [
  | none ↦ none
  | some bb ↦
      let rollback = tryrevoke && not (bb.blkaddr == null_addr) && at_tail m bb in
      let b = record bb { heads = drop_head bh.head bb.heads } in
      some (drop_block rollback b (update b m))
]

unfoldable pub head_off : ℕ → List BufferHead → Option ℕ
head_off a [] = none
head_off a (h ∷ hs) = let rest = head_off a hs in if h.address == a then some h.off else rest

-- list_next_entry(bh, list)->off: that of the next head, or buffers.off
unfoldable pub next_off : ℕ → ℕ → List BufferHead → Option ℕ
next_off a end [] = none
next_off a end (h ∷ []) = if h.address == a then some end else none
next_off a end (h ∷ k ∷ hs) =
    let rest = next_off a end (k ∷ hs) in if h.address == a then some k.off else rest

unfoldable pub btell : BufMgr → Bh → Bool → Option ℕ
btell m bh end = elim (deref bh.block (blocks m)) [
  | none ↦ none
  | some bb ↦ elim (if end then next_off bh.head bb.off bb.heads else head_off bh.head bb.heads) [
    | none ↦ none
    | some off ↦
        if bb.blkaddr == null_addr
        then some null_addr_ul
        else some (add64 (pos m.sbi bb.blkaddr) off)
  ]
]

module _ {D : Type 0} (flush : ℕ → BufferHead → D → Option ℕ × D) (fillzero : ℕ → ℕ → D → D) where
  -- What a pass over the heads of a block leaves: an error number, the heads that stay, whether one of
  -- them skips the write, and the device.
  pub record Flushed : Type 0 where
    pub error : Option ℕ
    pub kept : List BufferHead
    pub skip : Bool
    pub dev : D

  unfoldable pub flush_heads : List BufferHead → D → Flushed
  flush_heads [] d = record { error = none; kept = []; skip = false; dev = d }
  flush_heads (bh ∷ nbh) d = elim bh.op [
    | skip_write ↦ let r = flush_heads nbh d in record r { kept = bh ∷ r.kept; skip = true }
    | drop_directly ↦ flush_heads nbh d
    | writer w ↦
        let f = flush w bh d in
        elim f.0 [
          | some e ↦ record { error = some e; kept = bh ∷ nbh; skip = false; dev = f.1 }
          | none ↦ flush_heads nbh f.1
        ]
  ]

  unfoldable pub pad : BufMgr → BufferBlock → ℕ → D → D
  pad m p blkaddr d =
      let padding = blksiz m.sbi - blkoff m.sbi p.off in
      if padding == blksiz m.sbi then d else fillzero (sub64 (pos m.sbi blkaddr) padding) padding d

  unfoldable pub flush_loop : Option ℕ → List BufferBlock → BufMgr → D → Option ℕ × BufMgr × D
  flush_loop bb [] m d = (none, m, d)
  flush_loop bb (p ∷ n) m d =
      let (blkaddr, mapped) = map_one m p in
      let b = placed m p in
      let f = flush_heads p.heads d in
      let left = update (record b { heads = f.kept }) mapped in
      if points_to bb p then (none, m, d) else elim f.error [
        | some e ↦ (some e, left, f.dev)
        | none ↦ elim f.skip [
          | true ↦ flush_loop bb n left f.dev
          | false ↦ flush_loop bb n (bfree p.address (count_meta b left)) (pad left b blkaddr f.dev)
        ]
      ]

  unfoldable pub bflush : BufMgr → Option ℕ → D → Option ℕ × BufMgr × D
  bflush m bb d = flush_loop bb (blocks m) m d
