-- ===== src/Data/Loop.antt =====
-- The read loop, for any mapping of file offsets whose rounds are right: it ends, and every byte of the
-- buffer is the file's.
use erofs_utils.Base.{
  ℕ, zero, suc, ◌+◌, ◌≤◌, ◌<◌, ◌≡◌, refl, ◌∙◌, true, false, some, ltb, Bool-cases, inl, inr, arith,
  ltb→lt, ltb→le,
}
use erofs_utils.Base.Memory.{Buf}
use erofs_utils.Base.Errno.{done, ok}
use erofs_utils.Geometry.{SbInfo}
use erofs_utils.Device.{Devices}
use erofs_utils.Inode.{Inode}
use erofs_utils.Data.{MapBlocks, map_blocks, round_end, read_round, read_raw_loop, end}

-- `c` has the file's bytes `lo` to `hi`, from `offset` on, and is `b` elsewhere.
pub record Filled (file : ℕ → ℕ) (offset lo hi : ℕ) (b c : Buf) : Type 0 where
  pub inside : (i : ℕ) → lo ≤ offset + i → offset + i < hi → c i ≡ file (offset + i)
  pub below : (i : ℕ) → offset + i < lo → c i ≡ b i
  pub above : (i : ℕ) → hi ≤ offset + i → c i ≡ b i

pub Filled-append :
    (file : ℕ → ℕ) (offset lo mid hi : ℕ) (b c d : Buf)
    → lo ≤ mid
    → mid ≤ hi
    → Filled file offset lo mid b c
    → Filled file offset mid hi c d
    → Filled file offset lo hi b d
Filled-append file offset lo mid hi b c d h k f g = record {
  inside = λ i lo_le lt. elim (Bool-cases (ltb (offset + i) mid)) [
    | inl e ↦ g.below i (ltb→lt _ _ e) ∙ f.inside i lo_le (ltb→lt _ _ e)
    | inr e ↦ g.inside i (ltb→le _ _ e) lt
  ];
  below = λ i lt. g.below i (omega arith) ∙ f.below i lt;
  above = λ i le. g.above i le ∙ f.above i (omega arith);
}

module _ (sbi : SbInfo) (devices : Devices) (vi : Inode) (size offset : ℕ) (file : ℕ → ℕ) where
  -- What one round of the loop must do, started at `ptr` with a map `map`.
  pub record RoundFills (b : Buf) (ptr : ℕ) (map : MapBlocks) : Type 0 where
    pub next : MapBlocks
    pub buffer : Buf
    pub mapped : map_blocks sbi devices vi (record map { m_la = ptr }) ≡ (ok, next)
    pub round : read_round sbi devices vi size offset b ptr next ≡ done buffer
    pub grows : ptr < round_end sbi devices vi size offset next
    pub stays : round_end sbi devices vi size offset next ≤ end sbi devices vi size offset
    pub filled : Filled file offset ptr (round_end sbi devices vi size offset next) b buffer

  loop_stop :
      (fuel : ℕ) (b : Buf) (ptr : ℕ) (map : MapBlocks)
      → ltb ptr (end sbi devices vi size offset) ≡ false
      → read_raw_loop sbi devices vi size offset (suc fuel) b ptr map ≡ some (done b)
  unfolding read_raw_loop
  loop_stop fuel b ptr map h = rw (h, read_raw_loop)

  loop_next :
      (fuel : ℕ) (b : Buf) (ptr : ℕ) (map : MapBlocks)
      → ltb ptr (end sbi devices vi size offset) ≡ true
      → (r : RoundFills b ptr map)
      → read_raw_loop sbi devices vi size offset (suc fuel) b ptr map
        ≡ read_raw_loop sbi devices vi size offset fuel r.buffer
            (round_end sbi devices vi size offset r.next)
            r.next
  unfolding read_raw_loop
  loop_next fuel b ptr map h r = ground (arith, r.mapped, r.round)

  pub read_raw_loop-Filled :
      (rounds : (b : Buf) (ptr : ℕ) (map : MapBlocks)
        → offset ≤ ptr
        → ptr < end sbi devices vi size offset
        → RoundFills b ptr map)
      (fuel : ℕ) (b : Buf) (ptr : ℕ) (map : MapBlocks)
      → offset ≤ ptr
      → ptr ≤ end sbi devices vi size offset
      → end sbi devices vi size offset < fuel + ptr
      → (c : Buf) × (read_raw_loop sbi devices vi size offset fuel b ptr map ≡ some (done c))
        × Filled file offset ptr (end sbi devices vi size offset) b c
  read_raw_loop-Filled rounds zero b ptr map lo hi enough = absurd (omega arith)
  read_raw_loop-Filled rounds (suc fuel) b ptr map lo hi enough =
      elim (Bool-cases (ltb ptr (end sbi devices vi size offset))) [
        | inr e ↦ (
          b,
          loop_stop fuel b ptr map e,
          record {
            inside =
                λ i le lt. absurd (omega (arith, ltb→le ptr (end sbi devices vi size offset) e));
            below = λ i lt. refl;
            above = λ i le. refl;
          },
        )
        | inl e ↦
            let r = rounds b ptr map lo (ltb→lt ptr (end sbi devices vi size offset) e) in
            let (c, run, filled) =
              read_raw_loop-Filled rounds fuel r.buffer
                (round_end sbi devices vi size offset r.next) r.next (omega (arith, r.grows))
                r.stays (omega (arith, r.grows)) in
            (
              c,
              loop_next fuel b ptr map e r ∙ run,
              Filled-append file offset ptr (round_end sbi devices vi size offset r.next)
                  (end sbi devices vi size offset) b r.buffer c (omega (arith, r.grows)) r.stays
                  r.filled filled,
            )
      ]
