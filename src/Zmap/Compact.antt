-- ===== src/Zmap/Compact.antt =====
-- lib/zmap.c: the compacted indexes, packs of 2 or 16 logical clusters whose entries are bit fields in
-- front of the block number of the pack.
use erofs_utils.Base.{
  ℕ, zero, suc, ◌+◌, ◌-◌, ◌*◌, ◌/◌, ◌%◌, ◌^◌, bit_and, Bool, not, ◌&&◌, ◌||◌, Option, none, some,
  ltb, leb, ◌==◌, if◌then◌else◌,
}
use erofs_utils.Base.Memory.{Buf, le}
use erofs_utils.Base.Words.{add32, sub32, add64}
use erofs_utils.Base.Errno.{Result, done, fail, einval, eopnotsupp, efscorrupted}
use erofs_utils.Geometry.{SbInfo, blknr, blkoff, rounddown, blk_round_up}
use erofs_utils.Device.{Devices}
use erofs_utils.Inode.{Inode, iloc, compressed_full, compressed_compact}
use erofs_utils.Zmap.{
  MapRecorder, nonhead, d0_cblkcnt, has_bit, compacted_2b, big_pcluster_1, round_up64,
  reload_indexes, legacy_load_cluster,
}

-- The low field of the entry at bit `pos` of the bytes from `base` on, and its type.
unfoldable pub decode_compactedbits : ℕ → Buf → ℕ → ℕ → ℕ × ℕ
decode_compactedbits lobits in_ base pos =
    let v = le 4 in_ (base + pos / 8) / 2 ^ (pos % 8) in
    (bit_and v (2 ^ lobits - 1), bit_and (v / 2 ^ lobits) 3)

-- The distance to the next head; `n` entries of the pack are left, the one at `i` first.
unfoldable pub get_compacted_la_distance : ℕ → ℕ → Buf → ℕ → ℕ → ℕ → ℕ → ℕ
get_compacted_la_distance lobits encodebits in_ base zero i d1 = d1
get_compacted_la_distance lobits encodebits in_ base (suc n) i d1 =
    let rest = get_compacted_la_distance lobits encodebits in_ base n (i + 1) (d1 + 1) in
    let (lo, type) = decode_compactedbits lobits in_ base (encodebits * i) in
    if not (type == nonhead)
    then d1
    else if not (n == 0)
    then rest
    else if has_bit lo 11
    then d1 + 1
    else sub32 (add32 (d1 + 1) lo) 1

-- The blocks that the heads before entry `i` take, without big pclusters; `n` bounds the rounds.
unfoldable pub count_heads : ℕ → ℕ → Buf → ℕ → ℕ → ℕ → ℕ → ℕ
count_heads lobits encodebits in_ base zero i nblk = nblk
count_heads lobits encodebits in_ base (suc n) i nblk =
    let (lo, type) = decode_compactedbits lobits in_ base (encodebits * (i - 1)) in
    let back = if type == nonhead then lo else 0 in
    let rest = count_heads lobits encodebits in_ base n (i - 1 - back) (nblk + 1) in
    if i == 0 || ltb (i - 1) back then nblk else rest

-- The same with big pclusters, which say how many blocks they take.
unfoldable pub count_blocks : ℕ → ℕ → Buf → ℕ → ℕ → ℕ → ℕ → Result ℕ
count_blocks lobits encodebits in_ base zero i nblk = done nblk
count_blocks lobits encodebits in_ base (suc n) i nblk =
    let (lo, type) = decode_compactedbits lobits in_ base (encodebits * (i - 1)) in
    let head = not (type == nonhead) in
    let counted = has_bit lo 11 in
    let skip = if head then 0 else if counted then 1 else lo - 2 in
    let more = if head then 1 else if counted then lo - d0_cblkcnt else 0 in
    let rest = count_blocks lobits encodebits in_ base n (i - 1 - skip) (add32 nblk more) in
    if i == 0
    then done nblk
    else if not head && not counted && leb lo 1
    then fail efscorrupted
    else rest

-- delta[0] of the last entry of a pack, from the entry before it
unfoldable pub last_distance : ℕ → ℕ → Buf → ℕ → ℕ → ℕ
last_distance lobits encodebits in_ base i =
    let (lo, type) = decode_compactedbits lobits in_ base (encodebits * (i - 1)) in
    if not (type == nonhead) then 1 else if has_bit lo 11 then 2 else lo + 1

-- An entry that is no head.
unfoldable pub compacted_nonhead :
    Inode → MapRecorder → ℕ → ℕ → ℕ → ℕ → ℕ → Bool → ℕ → Option ℕ × MapRecorder
compacted_nonhead vi m vcnt lobits encodebits base i lookahead lo =
    let d1 =
      if lookahead
      then get_compacted_la_distance lobits encodebits m.mpage base (vcnt - i) i 0 % 2 ^ 16
      else m.delta.1 in
    let n = record m {
      clusterofs = 2 ^ vi.z_logical_clusterbits % 2 ^ 16;
      delta = (m.delta.0, d1);
    } in
    if has_bit lo 11
    then if big_pcluster_1 vi
      then (none, record n { compressedblks = lo - d0_cblkcnt; delta = (1, d1) })
      else (some efscorrupted, n)
    else if not (i + 1 == vcnt)
    then (none, record n { delta = (lo % 2 ^ 16, d1) })
    else (none, record n { delta = (last_distance lobits encodebits m.mpage base i % 2 ^ 16, d1) })

-- A head: its block follows the blocks of the heads before it in the pack.
unfoldable pub compacted_head : Inode → MapRecorder → ℕ → ℕ → ℕ → ℕ → ℕ → ℕ → Option ℕ × MapRecorder
compacted_head vi m packsize lobits encodebits base i lo =
    let n = record m { clusterofs = lo % 2 ^ 16; delta = (0, m.delta.1) } in
    let nblk =
      if big_pcluster_1 vi
      then count_blocks lobits encodebits m.mpage base i i 0
      else done (count_heads lobits encodebits m.mpage base i i 1) in
    elim nblk [
      | fail e ↦ (some e, n)
      | done k ↦ (none, record n { pblk = add32 (le 4 m.mpage (base + packsize - 4)) k })
    ]

-- the number of entries of a pack
unfoldable pub pack_count : ℕ → ℕ → Option ℕ
pack_count amortizedshift lclusterbits =
    if amortizedshift == 2 && leb lclusterbits 14
    then some 2
    else if amortizedshift == 1 && leb lclusterbits 12
    then some 16
    else none

module _ (sbi : SbInfo) (devices : Devices) where
  unfoldable pub unpack_compacted_index :
      Inode → MapRecorder → ℕ → ℕ → Bool → Option ℕ × MapRecorder
  unpack_compacted_index vi m amortizedshift pos lookahead =
      elim (pack_count amortizedshift vi.z_logical_clusterbits) [
        | none ↦ (some eopnotsupp, m)
        | some vcnt ↦
            let packsize = vcnt * 2 ^ amortizedshift in
            let lobits = if ltb 12 vi.z_logical_clusterbits then vi.z_logical_clusterbits else 12 in
            let encodebits = (packsize - 4) * 8 / vcnt in
            let eofs = blkoff sbi pos in
            let base = eofs - eofs % packsize in
            let i = (eofs - base) / 2 ^ amortizedshift in
            let (lo, type) = decode_compactedbits lobits m.mpage base (encodebits * i) in
            let n = record m { nextpackoff = add64 (pos - pos % packsize) packsize; type = type } in
            if type == nonhead
            then compacted_nonhead vi n vcnt lobits encodebits base i lookahead lo
            else compacted_head vi n packsize lobits encodebits base i lo
      ]

  -- where the entry of a logical cluster stands, and the bytes that an entry takes, as a shift
  unfoldable pub compacted_place : Inode → ℕ → ℕ → ℕ × ℕ
  compacted_place vi totalidx lcn =
      let ebase =
        add64 (round_up64 (add64 (add64 (iloc sbi vi) vi.inode_isize) vi.xattr_isize) 8) 8 in
      let initial = if ebase % 32 == 0 then 0 else (32 - ebase % 32) / 4 in
      let twos =
        if compacted_2b vi && ltb initial totalidx then rounddown (totalidx - initial) 16 else 0 in
      if ltb lcn initial
      then (add64 ebase (lcn * 4), 2)
      else if ltb (lcn - initial) twos
      then (add64 ebase (initial * 4 + (lcn - initial) * 2), 1)
      else (add64 ebase (initial * 4 + twos * 2 + (lcn - initial - twos) * 4), 2)

  unfoldable pub compacted_load_cluster : Inode → MapRecorder → ℕ → Bool → Option ℕ × MapRecorder
  compacted_load_cluster vi m lcn lookahead =
      let totalidx = blk_round_up sbi vi.i_size % 2 ^ 32 in
      let (pos, amortizedshift) = compacted_place vi totalidx lcn in
      let r = reload_indexes sbi devices (record m { lcn = lcn }) (blknr sbi pos % 2 ^ 32) in
      if leb totalidx lcn then (some einval, m) else elim r.0 [
        | some e ↦ r
        | none ↦ unpack_compacted_index vi r.1 amortizedshift pos lookahead
      ]

  -- z_erofs_load_cluster_from_disk: `lcn` is an unsigned int
  unfoldable pub load_cluster : Inode → MapRecorder → ℕ → Bool → Option ℕ × MapRecorder
  load_cluster vi m lcn lookahead =
      if vi.datalayout == compressed_full
      then legacy_load_cluster sbi devices vi m (lcn % 2 ^ 32)
      else if vi.datalayout == compressed_compact
      then compacted_load_cluster vi m (lcn % 2 ^ 32) lookahead
      else (some einval, m)
