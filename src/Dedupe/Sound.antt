-- ===== src/Dedupe/Sound.antt =====
-- A match of z_erofs_dedupe_match is a duplicate of data that z_erofs_dedupe_insert was given.
use erofs_utils.Base.{
  ℕ, zero, suc, ◌+◌, ◌-◌, ◌%◌, ◌^◌, ◌≤◌, ◌<◌, ◌≡◌, sym, ap, ◌∙◌, inl, inr, ◌⊎◌, min, false, ◌&&◌,
  Option, none, some, List, [], ◌∷◌, ltb, leb, ◌==◌, if◌then◌else◌, list_eq, list_eq→eq, All,
  Bool-cases, Option-cases, arith,
}
use erofs_utils.Base.Words.{sub32}
use erofs_utils.Base.Memory.{Buf, bytes_at, IsBytes}
use erofs_utils.Base.Errno.{ok}
use erofs_utils.Dedupe.Rolling.{ℤ}
use erofs_utils.Dedupe.Memcmp.Count.{IsPrefix, memcmp2-IsPrefix}
use erofs_utils.Dedupe.{
  Ctx, Item, Dedupe, bucket, hash_eq, find_item, next_hash, match_at, take_match, match_loop,
  dedupe_match,
}

find_item-All :
    (P : Item → Type 0) (hash : ℤ) (csum : ℕ) (p : List Item) (e : Item)
    → All P p
    → find_item hash csum p ≡ some e
    → P e
unfolding find_item
find_item-All P hash csum [] e a h = cc
find_item-All P hash csum (k ∷ p) e (pk, a) h =
    elim (Bool-cases (hash_eq k.hash hash && k.prefix_xxh64 == csum)) [
      | inl t ↦ let same : k ≡ e = ground (arith, t, h) in rw (← same) pk
      | inr t ↦ find_item-All P hash csum p e a (ground (arith, t, h))
    ]

module _ (sha256 : List ℕ → List ℕ) (xxh64 : List ℕ → ℕ) (Stored : ℕ → ℕ → ℕ → Buf → Type 0)
    (w : ℕ) where
  -- The item stands for `original_length` bytes `original`, which its blocks store.
  pub record Genuine (e : Item) : Type 0 where
    pub original : Buf
    pub stored : Stored e.compressed_blkaddr e.compressed_blks e.original_length original
    pub long : w ≤ e.original_length
    pub prefix : e.prefix_sha256 ≡ sha256 (bytes_at original 0 w)
    pub extra :
        (i : ℕ) → i < e.original_length - w → e.extra_data (e.address + i) ≡ original (w + i)
    pub bytes : IsBytes e.extra_data

  -- What a match promises of the context before and after.
  pub record Duplicate (mem : Buf) (ctx ctx' : Ctx) : Type 0 where
    pub original_length : ℕ
    pub original : Buf
    pub stored : Stored ctx'.e.blkaddr ctx'.e.compressedblks original_length original
    pub window : sha256 (bytes_at mem ctx'.cur w) ≡ sha256 (bytes_at original 0 w)
    pub rest : (i : ℕ) → w ≤ i → i < ctx'.e.length → mem (ctx'.cur + i) ≡ original i
    pub inside : ctx'.e.length ≤ original_length
    pub starts : ctx.start ≤ ctx'.cur
    pub ends : ctx'.cur + ctx'.e.length ≤ ctx.end
    pub reaches : ctx.cur < ctx'.cur + ctx'.e.length

  module _ (d : Dedupe) (size : d.window_size ≡ w) (ctx : Ctx) (mem : Buf)
      (bytes : IsBytes mem) where
    take_match-Duplicate :
        (cur : ℕ) (e : Item) (extra : ℕ)
        → Genuine e
        → ctx.start ≤ cur
        → cur + w ≤ ctx.end
        → sha256 (bytes_at mem cur d.window_size) ≡ e.prefix_sha256
        → IsPrefix mem e.extra_data
            (cur + d.window_size)
            e.address
            (min ((ctx.end - cur - d.window_size) % 2 ^ 32) (sub32 e.original_length d.window_size))
            extra
        → leb ((d.window_size + extra) % 2 ^ 32) (ctx.cur - cur) ≡ false
        → Duplicate mem ctx (take_match ctx cur e ((d.window_size + extra) % 2 ^ 32))
    unfolding take_match
    take_match-Duplicate cur e extra g lo hi same p longer =
        let further : ctx.cur - cur < (d.window_size + extra) % 2 ^ 32 = ground (arith, longer) in
        record {
          original_length = e.original_length;
          original = g.original;
          stored = g.stored;
          window = ap (λ (n : ℕ). sha256 (bytes_at mem cur n)) (sym size) ∙ same ∙ g.prefix;
          rest = λ i l h.
              ap mem {x = cur + i} {y = cur + d.window_size + (i - w)} (omega (arith, size, l))
              ∙ p.same (i - w) (omega (arith, size, l, h))
              ∙ g.extra (i - w) (omega (arith, size, l, h, p.within))
              ∙ ap g.original {x = w + (i - w)} {y = i} (omega (arith, l));
          inside = omega (arith, size, p.within, g.long);
          starts = lo;
          ends = omega (arith, size, p.within, hi);
          reaches = omega (arith, further);
        }

    match_at-Duplicate :
        (cur : ℕ) (hash : ℤ) (e : Item) (length : ℕ)
        → All Genuine (d.dedupe_tree (bucket hash))
        → ctx.start ≤ cur
        → cur + w ≤ ctx.end
        → match_at sha256 xxh64 d ctx mem cur hash ≡ some (e, length)
        → Duplicate mem ctx (take_match ctx cur e length)
    unfolding match_at
    match_at-Duplicate cur hash e length all lo hi h =
        let window = bytes_at mem cur d.window_size in
        elim (Option-cases (find_item hash (xxh64 window) (d.dedupe_tree (bucket hash)))) [
          | inl n ↦ absurd (ground (arith, n, h))
          | inr (e₀, f) ↦
              let g =
                find_item-All Genuine hash (xxh64 window) (d.dedupe_tree (bucket hash)) e₀ all f in
              elim (Bool-cases (list_eq (sha256 window) e₀.prefix_sha256)) [
                | inr n ↦ absurd (ground (arith, f, n, h))
                | inl same ↦
                    let size₀ =
                      min ((ctx.end - cur - d.window_size) % 2 ^ 32)
                        (sub32 e₀.original_length d.window_size) in
                    let (extra, m, p) =
                      memcmp2-IsPrefix mem e₀.extra_data (cur + d.window_size) e₀.address size₀
                        bytes g.bytes in
                    elim (Bool-cases (leb ((d.window_size + extra) % 2 ^ 32) (ctx.cur - cur))) [
                      | inl n ↦ absurd (ground (arith, f, same, m, n, h))
                      | inr n ↦
                          let item : e₀ ≡ e = ground (arith, f, same, m, n, h) in
                          let count : (d.window_size + extra) % 2 ^ 32 ≡ length =
                            ground (arith, f, same, m, n, h) in
                          rw (← item, ← count)
                            (take_match-Duplicate cur e₀ extra g lo hi
                              (list_eq→eq (sha256 window) e₀.prefix_sha256 same) p n)
                    ]
              ]
        ]

    match_loop-Duplicate :
        ((i : ℕ) → All Genuine (d.dedupe_tree i))
        → (previous : Option ℤ) (n : ℕ) (ctx' : Ctx) → (n ≡ 0) ⊎ (ctx.start + n + w ≤ suc ctx.end)
        → match_loop sha256 xxh64 d ctx mem previous n ≡ (ok, ctx')
        → Duplicate mem ctx ctx'
    unfolding match_loop
    match_loop-Duplicate all previous zero ctx' inside h = absurd (ground (arith, h))
    match_loop-Duplicate all previous (suc n) ctx' inside h =
        let cur = ctx.start + n in
        let hash = next_hash d mem previous cur in
        elim (Option-cases (match_at sha256 xxh64 d ctx mem cur hash)) [
          | inl e ↦
              match_loop-Duplicate all (some hash) n ctx' (ground (arith, inside))
                (ground (arith, e, h))
          | inr ((e, length), f) ↦
              let same : take_match ctx cur e length ≡ ctx' = ground (arith, f, h) in
              rw (← same) (
                match_at-Duplicate cur hash e length (all (bucket hash)) (omega arith)
                  (omega (arith, inside)) f)
        ]

    -- Whatever the memory holds, and whatever checksums and hash functions are used, while the items of
    -- all buckets stand for data their blocks store: when z_erofs_dedupe_match returns 0, the blocks of
    -- the extent it hands back store data whose window has the sha256 of the window at the new `cur`, and
    -- whose bytes behind the window are those in memory, up to the length handed back, which is not more
    -- than was stored; the range lies between ctx->start and ctx->end and reaches behind the old `cur`.
    pub dedupe_match-Duplicate :
        ((i : ℕ) → All Genuine (d.dedupe_tree i))
        → (ctx' : Ctx) → dedupe_match sha256 xxh64 d ctx mem ≡ (ok, ctx')
        → Duplicate mem ctx ctx'
    unfolding dedupe_match
    dedupe_match-Duplicate all ctx' h =
        let n =
          if ltb ctx.end (ctx.cur + d.window_size)
          then suc ctx.end - (ctx.start + d.window_size)
          else suc ctx.cur - ctx.start in
        let places : (n ≡ 0) ⊎ (ctx.start + n + w ≤ suc ctx.end) = ground (arith, size) in
        match_loop-Duplicate all none n ctx' places (ground (arith, h))
