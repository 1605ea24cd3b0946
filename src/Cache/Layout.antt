-- ===== src/Cache/Layout.antt =====
-- lib/cache.c: how the blocks of the buffer manager lie on the device, as an invariant of its state.
pub mod Lists
pub mod Fits
pub mod Attach
pub mod Calls
pub mod Placing
pub mod Dropping
pub mod Extents
use erofs_utils.Base.{ℕ, ◌+◌, ◌-◌, ◌^◌, ◌≤◌, ◌<◌, ◌≡◌, List, [], ◌∷◌, All}
use erofs_utils.Geometry.{SbInfo, blk_round_up}
use erofs_utils.Cache.{BufferHead, BufferBlock, BufMgr, null_addr}

-- the block behind the last one that `b` takes
abbrev pub end_block : SbInfo → BufferBlock → ℕ
end_block sbi b = b.blkaddr + blk_round_up sbi b.off

-- From block `lo` on the blocks stand one behind the other, and end at block `hi` at most.
abbrev pub IsChain : SbInfo → ℕ → List BufferBlock → ℕ → Type 0
IsChain sbi lo [] hi = lo ≤ hi
IsChain sbi lo (b ∷ bs) hi = (lo ≤ b.blkaddr) × IsChain sbi (end_block sbi b) bs hi

-- The heads of a block stand in the order of their offsets.
abbrev pub IsHeads : ℕ → List BufferHead → ℕ → Type 0
IsHeads lo [] hi = lo ≤ hi
IsHeads lo (h ∷ hs) hi = (lo ≤ h.off) × IsHeads h.off hs hi

pub record IsBlock (b : BufferBlock) : Type 0 where
  pub heads : IsHeads 0 b.heads b.off
  pub small : b.off < 2 ^ 48

-- Blocks of 512 bytes to 64 KiB; the mapped ones are in order and end before the tail; the others have
-- no place.
pub record IsLaidOut (m : BufMgr) : Type 0 where
  pub smallest : 9 ≤ m.sbi.blkszbits
  pub largest : m.sbi.blkszbits ≤ 16
  pub chain : IsChain m.sbi 0 m.mapped m.tail_blkaddr
  pub waiting : All (λ b. b.blkaddr ≡ null_addr) m.unmapped
  pub mapped_blocks : All IsBlock m.mapped
  pub unmapped_blocks : All IsBlock m.unmapped
  pub tail : m.tail_blkaddr < null_addr
