-- ===== src/Tests/Compressed.antt =====
-- The mapping of a compressed file whose indexes are whatever bytes stand behind its inode.
use erofs_utils.Base.{inr, true, false, arith}
use erofs_utils.Base.Memory.{Buf}
use erofs_utils.Inode.{Inode, compressed_full}
use erofs_utils.Zmap.Iter.{fresh_map, map_blocks_iter}
use erofs_utils.Zmap.Ends.{Ends}
use erofs_utils.Zmap.Halts.{map_blocks_iter-Ends}
use erofs_utils.Tests.Image.{sbi, devices, vi}

abbrev stale : Buf
stale i = 0

abbrev compressed : Inode
compressed = record vi { datalayout = compressed_full; z_logical_clusterbits = 9 }

map_blocks_iter-Ends_example :
    Ends (map_blocks_iter sbi devices compressed (fresh_map stale) true false stale 602)
map_blocks_iter-Ends_example =
    map_blocks_iter-Ends sbi devices compressed (omega arith) (fresh_map stale) true false stale 602
      (omega arith) (omega arith) (inr (omega arith))
