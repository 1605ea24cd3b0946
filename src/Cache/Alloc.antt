-- ===== src/Cache/Alloc.antt =====
-- lib/cache.c: where a new buffer goes, in a block that has room or in a new block.
use erofs_utils.Base.{
  ℕ, zero, suc, ◌-◌, true, false, not, ◌&&◌, ◌||◌, Option, none, some, List, [], ◌∷◌, ◌++◌, ltb,
  leb, ◌==◌, if◌then◌else◌,
}
use erofs_utils.Base.Words.{add32, add64}
use erofs_utils.Base.Errno.{Result, done, fail, einval, enomem, enospc}
use erofs_utils.Geometry.{blksiz, blkoff, rounddown}
use erofs_utils.Cache.{
  data_type, null_addr, BufferHead, BufferBlock, BufMgr, Bh, get_alignsize, blocks, deref,
  next_blkaddr, attach, is_last, drop_directly,
}

-- The most fitting block of the buckets that is mapped and not the last: its address, and the bytes
-- used. `n` counts used_before down.
unfoldable pub fit_mapped : BufMgr → ℕ → ℕ → ℕ → ℕ → ℕ → Option (ℕ × ℕ)
fit_mapped m type size alignsize ext zero = none
fit_mapped m type size alignsize ext (suc n) =
    let rest = fit_mapped m type size alignsize ext n in
    elim (m.mapped_buckets type (suc n)) [
      | [] ↦ rest
      | a ∷ bt ↦ elim (deref a (blocks m)) [
        | none ↦ rest
        | some cur ↦
            if next_blkaddr cur.address (blocks m) == null_addr
            then rest
            else elim (attach m cur none size alignsize ext true).0 [
              | fail e ↦ rest
              | done ret ↦ some (cur.address, add32 ret ext)
            ]
      ]
    ]

-- the bytes used in `cur` with the new buffer, where that is allowed and wastes no space
unfoldable pub fit_used : BufMgr → ℕ → ℕ → ℕ → ℕ → ℕ → ℕ → BufferBlock → Option ℕ
fit_used m type size required_ext inline_ext alignsize used0 cur =
    let used_before = blkoff m.sbi cur.off in
    if used_before == 0 || not (cur.type == type)
    then none
    else elim (attach m cur none size alignsize (add32 required_ext inline_ext) true).0 [
      | fail e ↦ none
      | done ret ↦
          let used = add32 (blkoff m.sbi (add32 ret required_ext)) inline_ext in
          if ltb (blksiz m.sbi) used || (ltb used used_before && ltb used used0)
          then none
          else some used
    ]

-- the scan from last_mapped_block on, with the best block so far
unfoldable pub fit_scan :
    BufMgr → ℕ → ℕ → ℕ → ℕ → ℕ → ℕ → Option ℕ → ℕ → List BufferBlock → Option ℕ
fit_scan m type size required_ext inline_ext alignsize used0 bb usedmax [] = bb
fit_scan m type size required_ext inline_ext alignsize used0 bb usedmax (cur ∷ bs) =
    elim (fit_used m type size required_ext inline_ext alignsize used0 cur) [
      | none ↦ fit_scan m type size required_ext inline_ext alignsize used0 bb usedmax bs
      | some used ↦
          if ltb usedmax used
          then fit_scan m type size required_ext inline_ext alignsize used0 (some cur.address) used
              bs
          else fit_scan m type size required_ext inline_ext alignsize used0 bb usedmax bs
    ]

unfoldable pub last_mapped : List BufferBlock → List BufferBlock
last_mapped [] = []
last_mapped (b ∷ []) = b ∷ []
last_mapped (b ∷ c ∷ bs) = last_mapped (c ∷ bs)

unfoldable pub bfind_for_attach : BufMgr → ℕ → ℕ → ℕ → ℕ → ℕ → Result (Option ℕ)
bfind_for_attach m type size required_ext inline_ext alignsize =
    let used0 = add32 (blkoff m.sbi (add64 size required_ext)) inline_ext in
    let total = add64 (add64 size required_ext) inline_ext in
    if ltb (blksiz m.sbi) used0
    then fail enospc
    else if used0 == 0 || alignsize == blksiz m.sbi
    then done none
    else let first =
        if leb (blksiz m.sbi) total
        then none
        else fit_mapped m type size alignsize (add32 required_ext inline_ext)
            (rounddown (blksiz m.sbi - total) alignsize) in
      let scan = λ (bb : Option ℕ) (usedmax : ℕ).
        fit_scan m type size required_ext inline_ext alignsize used0 bb usedmax
          (last_mapped m.mapped ++ m.unmapped) in
      done (elim first [ none ↦ scan none 0 | some (a, used) ↦ scan (some a) used ])

-- a new block at the place that its type asks for
unfoldable pub add_block : BufMgr → ℕ → ℕ → BufMgr
add_block m address type =
    let bb : BufferBlock = record {
      address = address;
      blkaddr = null_addr;
      type = type;
      off = 0;
      heads = [];
    } in
    if type == data_type
    then record m { unmapped = bb ∷ m.unmapped }
    else record m { unmapped = m.unmapped ++ (bb ∷ []) }

-- bh and its attachment
unfoldable pub attach_new : BufMgr → ℕ → Option ℕ → ℕ → ℕ → ℕ → Option (Result Bh × BufMgr)
attach_new m block new_bh size alignsize extrasize = elim new_bh [
  | none ↦ some (fail enomem, m)
  | some h ↦ elim (deref block (blocks m)) [
    | none ↦ none
    | some bb ↦
        let bh : BufferHead = record { address = h; off = 0; op = drop_directly } in
        let r = attach m bb (some bh) size alignsize extrasize false in
        elim r.0 [
          | fail e ↦ some (fail e, r.1)
          | done ret ↦ some (done (record { block = block; head = h }), r.1)
        ]
  ]
]

-- Where malloc of the head fails, the new block is freed but stays in the list; what a freed block holds is
-- kept here.
unfoldable pub balloc : BufMgr → ℕ → ℕ → ℕ → ℕ → Option ℕ → Option ℕ → Option (Result Bh × BufMgr)
balloc m type size required_ext inline_ext new_bb new_bh =
    let ext = add32 required_ext inline_ext in
    elim (get_alignsize m.sbi type) [
      | fail e ↦ some (fail e, m)
      | done (alignsize, t) ↦ elim (bfind_for_attach m t size required_ext inline_ext alignsize) [
        | fail e ↦ some (fail e, m)
        | done (some a) ↦ attach_new m a new_bh size alignsize ext
        | done none ↦ elim new_bb [
          | none ↦ some (fail enomem, m)
          | some a ↦ elim new_bh [
            | none ↦ some (fail enomem, add_block m a t)
            | some h ↦ attach_new (add_block m a t) a (some h) size alignsize ext
          ]
        ]
      ]
    ]

unfoldable pub battach : BufMgr → Bh → ℕ → ℕ → Option ℕ → Option (Result Bh × BufMgr)
battach m bh type size new_bh = elim (deref bh.block (blocks m)) [
  | none ↦ none
  | some bb ↦ elim (get_alignsize m.sbi type) [
    | fail e ↦ some (fail e, m)
    | done (alignsize, t) ↦
        if is_last bh.head bb.heads
        then attach_new m bh.block new_bh size alignsize 0
        else some (fail einval, m)
  ]
]
