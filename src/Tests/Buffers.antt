-- ===== src/Tests/Buffers.antt =====
-- Three buffers on 512-byte blocks: an inode with a tail behind it, and a block of data.
use erofs_utils.Base.{◌≤◌, refl, inr, ◌⊎◌, Option, none, some, arith}
use erofs_utils.Base.Errno.{Result, done}
use erofs_utils.Geometry.{blkoff, pos, roundup, rounddown, blk_round_up}
use erofs_utils.Cache.{
  Bh, BufMgr, buffer_init, get_alignsize, deref, assign, is_at, update, first_blkaddr, next_blkaddr,
  unlist, bupdate_mapped, attach_used, at_tail, attach_check, attach_heads, attach_write,
  attach_occupied, attach, is_last,
}
use erofs_utils.Cache.Alloc.{
  fit_mapped, fit_used, fit_scan, last_mapped, bfind_for_attach, add_block, attach_new, balloc,
  battach,
}
use erofs_utils.Cache.Place.{
  placed, map_new, raise_tail, map_one, points_to, map_until, blkaddr_of, mapbh, head_off, next_off,
  btell,
}
use erofs_utils.Cache.Layout.{IsLaidOut}
use erofs_utils.Cache.Reached.{
  Reached, start, call, by_balloc, by_battach, by_mapbh, Reached-IsLaidOut, Reached-btell,
}
use erofs_utils.Tests.Image.{sbi}

abbrev after : BufMgr → Option (Result Bh × BufMgr) → BufMgr
after m none = m
after m (some r) = r.1

abbrev inode : Bh
inode = record { block = 100; head = 101 }

abbrev tail : Bh
tail = record { block = 100; head = 102 }

abbrev data_block : Bh
data_block = record { block = 200; head = 201 }

-- erofs_balloc(bmgr, INODE, 64, 0, 100): an inode with room for its tail
abbrev m1 : BufMgr
m1 = after (buffer_init sbi 1 77) (balloc (buffer_init sbi 1 77) 2 64 0 100 (some 100) (some 101))

-- erofs_battach(inode, META, 100): the tail
abbrev m2 : BufMgr
m2 = after m1 (battach m1 inode 1 100 (some 102))

-- erofs_balloc(bmgr, DATA, 512, 0, 0): a block of data, before the inodes
abbrev m3 : BufMgr
m3 = after m2 (balloc m2 0 512 0 0 (some 200) (some 201))

-- erofs_mapbh(bmgr, the inode's block)
abbrev m4 : BufMgr
m4 = (mapbh m3 (some 100)).1

m4-Reached : Reached sbi 1 m4
unfolding buffer_init get_alignsize deref assign is_at update first_blkaddr next_blkaddr unlist
    bupdate_mapped attach_used at_tail attach_check attach_heads attach_write attach_occupied attach
    is_last fit_mapped fit_used fit_scan last_mapped bfind_for_attach add_block attach_new balloc
    battach placed map_new raise_tail map_one points_to map_until blkaddr_of mapbh head_off next_off
    btell roundup rounddown blk_round_up blkoff pos
m4-Reached =
    call {m = m3}
      (call {m = m2}
        (call {m = m1}
          (call {m = buffer_init sbi 1 77} (start 77) (
            by_balloc 2 64 0 100 (some 100) (some 101) (done inode)
              (record { device = omega arith; mapped = tt; unmapped = tt }) (omega arith)
              (λ z. absurd cc) refl))
          (by_battach inode 1 100 (some 102) (done tail)
            (record { device = omega arith; mapped = tt; unmapped = (omega arith, tt) }) refl))
        (by_balloc 0 512 0 0 (some 200) (some 201) (done data_block)
          (record { device = omega arith; mapped = tt; unmapped = (omega arith, tt) }) (omega arith)
          (λ z. absurd cc) refl))
      (by_mapbh (some 100) 3 (omega arith) refl)

Reached-IsLaidOut_example : IsLaidOut m4
Reached-IsLaidOut_example =
    Reached-IsLaidOut sbi 1 m4 (omega arith) (omega arith) (omega arith) m4-Reached

Reached-btell_example : (1024 ≤ 1088) × (1088 ≤ 1188) × ((1088 ≤ 1088) ⊎ (1188 ≤ 1024))
unfolding buffer_init get_alignsize deref assign is_at update first_blkaddr next_blkaddr unlist
    bupdate_mapped attach_used at_tail attach_check attach_heads attach_write attach_occupied attach
    is_last fit_mapped fit_used fit_scan last_mapped bfind_for_attach add_block attach_new balloc
    battach placed map_new raise_tail map_one points_to map_until blkaddr_of mapbh head_off next_off
    btell roundup rounddown blk_round_up blkoff pos
Reached-btell_example =
    Reached-btell sbi 1 m4 inode tail 1024 1088 1088 1188 (omega arith) (omega arith) (omega arith)
      m4-Reached (inr (refl, refl)) (refl, refl, omega arith) (refl, refl, omega arith)
