-- ===== src/Dedupe.antt =====
-- lib/dedupe.c and include/erofs/dedupe.h: finding data that was compressed before. sha256 (a copy of a
-- cryptographic library) and xxh64 are parameters, and so is malloc, which returns the address of an
-- item's extra_data and the stale bytes there, or fails. An item is told from others by that address.
pub mod Rolling
pub mod Memcmp
pub mod Sound
pub mod Kept
pub mod Search
use erofs_utils.Base.{
  ℕ, zero, suc, ◌+◌, ◌-◌, ◌%◌, ◌^◌, min, bit_and, Bool, true, false, not, ◌&&◌, ◌||◌, Option, none,
  some, List, [], ◌∷◌, ◌++◌, ltb, leb, ◌==◌, if◌then◌else◌, list_eq,
}
use erofs_utils.Base.Words.{sub32}
use erofs_utils.Base.Memory.{Buf, bytes_at}
use erofs_utils.Base.Errno.{Ret, ok, err, enoent, enomem}
use erofs_utils.Device.{blit}
use erofs_utils.Dedupe.Rolling.{
  ℤ, pos, negsuc, init_backwards, rolling_hash_advance, rollinghash_calc_rm,
}
use erofs_utils.Dedupe.Memcmp.{memcmp2}

-- `struct z_erofs_inmem_extent`
pub record InmemExtent : Type 0 where
  pub blkaddr : ℕ
  pub compressedblks : ℕ
  pub length : ℕ
  pub raw : Bool
  pub partial : Bool
  pub inlined : Bool

-- `struct z_erofs_dedupe_ctx`; the pointers are addresses in the memory `data`
pub record Ctx : Type 0 where
  pub start : ℕ
  pub end : ℕ
  pub cur : ℕ
  pub e : InmemExtent

-- `struct z_erofs_dedupe_item`, less the two links: `extra_data` is a memory with the bytes at `address`
pub record Item : Type 0 where
  pub address : ℕ
  pub hash : ℤ
  pub prefix_sha256 : List ℕ
  pub prefix_xxh64 : ℕ
  pub compressed_blkaddr : ℕ
  pub compressed_blks : ℕ
  pub original_length : ℕ
  pub partial : Bool
  pub raw : Bool
  pub extra_data : Buf

-- The file's static variables: the buckets in list order, and dedupe_subtree as the items on its chain.
pub record Dedupe : Type 0 where
  pub window_size : ℕ
  pub rollinghash_rm : ℕ
  pub dedupe_tree : ℕ → List Item
  pub dedupe_subtree : List Item

unfoldable pub hash_eq : ℤ → ℤ → Bool
hash_eq (pos a) (pos b) = a == b
hash_eq (pos a) (negsuc b) = false
hash_eq (negsuc a) (pos b) = false
hash_eq (negsuc a) (negsuc b) = a == b

-- hash & (ARRAY_SIZE(dedupe_tree) - 1), in two's complement
unfoldable pub bucket : ℤ → ℕ
bucket (pos a) = bit_and a 65535
bucket (negsuc a) = 65535 - bit_and a 65535

-- the scan of a bucket for a hash and a checksum
unfoldable pub find_item : ℤ → ℕ → List Item → Option Item
find_item hash xxh64_csum [] = none
find_item hash xxh64_csum (e ∷ p) =
    let rest = find_item hash xxh64_csum p in
    if hash_eq e.hash hash && e.prefix_xxh64 == xxh64_csum then some e else rest

unfoldable pub same_prefix : ℕ → List Item → Bool
same_prefix xxh64_csum [] = false
same_prefix xxh64_csum (k ∷ p) = k.prefix_xxh64 == xxh64_csum || same_prefix xxh64_csum p

-- list_del: out of whatever list the item is in
unfoldable pub list_del : ℕ → List Item → List Item
list_del address [] = []
list_del address (k ∷ p) =
    let rest = list_del address p in if k.address == address then rest else k ∷ rest

unfoldable pub del_items : List Item → (ℕ → List Item) → ℕ → List Item
del_items [] tree i = tree i
del_items (di ∷ chain) tree i = del_items chain (λ j. list_del di.address (tree j)) i

unfoldable pub dedupe_commit : Bool → Dedupe → Dedupe
dedupe_commit drop d =
    let tree = if drop then del_items d.dedupe_subtree d.dedupe_tree else d.dedupe_tree in
    record d { dedupe_tree = tree; dedupe_subtree = [] }

unfoldable pub dedupe_init : ℕ → Dedupe → Dedupe
dedupe_init wsiz d = record d {
  window_size = wsiz;
  rollinghash_rm = rollinghash_calc_rm wsiz;
  dedupe_tree = λ i. [];
}

unfoldable pub dedupe_exit : Dedupe → Dedupe
dedupe_exit d =
    if d.window_size == 0
    then d
    else record (dedupe_commit true d) { dedupe_tree = λ i. []; dedupe_subtree = [] }

unfoldable pub take_match : Ctx → ℕ → Item → ℕ → Ctx
take_match ctx cur e length = record ctx {
  cur = cur;
  e = record {
    blkaddr = e.compressed_blkaddr;
    compressedblks = e.compressed_blks;
    length = length;
    raw = e.raw;
    partial = e.partial || ltb length e.original_length;
    inlined = false;
  };
}

-- The hash of the window at `cur`: afresh at the first place, else from the hash of the window behind.
unfoldable pub next_hash : Dedupe → Buf → Option ℤ → ℕ → ℤ
next_hash d mem none cur = pos (init_backwards mem cur 0 d.window_size)
next_hash d mem (some h) cur =
    rolling_hash_advance h d.rollinghash_rm (mem (cur + d.window_size)) (mem cur)

module _ (sha256 : List ℕ → List ℕ) (xxh64 : List ℕ → ℕ) where
  unfoldable pub new_item : Dedupe → InmemExtent → Buf → ℕ → ℕ → Buf → Item
  new_item d e mem original_data address stale =
      let window = bytes_at mem original_data d.window_size in
      record {
        address = address;
        hash = pos (init_backwards mem original_data 0 d.window_size);
        prefix_sha256 = sha256 window;
        prefix_xxh64 = xxh64 window;
        compressed_blkaddr = e.blkaddr;
        compressed_blks = e.compressedblks;
        original_length = e.length;
        partial = e.partial;
        raw = e.raw;
        extra_data =
            blit stale address (λ i. mem (original_data + d.window_size + i))
              (e.length - d.window_size);
      }

  unfoldable pub dedupe_insert : Option (ℕ × Buf) → Dedupe → InmemExtent → Buf → ℕ → Ret × Dedupe
  dedupe_insert malloc d e mem original_data =
      if d.window_size == 0 || ltb e.length d.window_size then (ok, d) else elim malloc [
        | none ↦ (err enomem, d)
        | some (address, stale) ↦
            let di = new_item d e mem original_data address stale in
            let p = bucket di.hash in
            if same_prefix di.prefix_xxh64 (d.dedupe_tree p) then (ok, d) else (
              ok,
              record d {
                dedupe_tree = λ i. if i == p then d.dedupe_tree i ++ (di ∷ []) else d.dedupe_tree i;
                dedupe_subtree = di ∷ d.dedupe_subtree;
              },
            )
      ]

  -- What the search does at `cur` once the hash is known: the item and the length, `none` to go on.
  unfoldable pub match_at : Dedupe → Ctx → Buf → ℕ → ℤ → Option (Item × ℕ)
  match_at d ctx mem cur hash =
      let window = bytes_at mem cur d.window_size in
      elim (find_item hash (xxh64 window) (d.dedupe_tree (bucket hash))) [
        | none ↦ none
        | some e ↦
            if not (list_eq (sha256 window) e.prefix_sha256)
            then none
            else elim (memcmp2 mem e.extra_data (cur + d.window_size) e.address (
                min ((ctx.end - cur - d.window_size) % 2 ^ 32)
                  (sub32 e.original_length d.window_size))) [
                    | none ↦ none
                    | some extra ↦
                        if leb ((d.window_size + extra) % 2 ^ 32) (ctx.cur - cur)
                        then none
                        else some (e, (d.window_size + extra) % 2 ^ 32)
                  ]
      ]

  -- The search backwards over the `n` places from ctx->start on; `hash` is that of the place behind.
  unfoldable pub match_loop : Dedupe → Ctx → Buf → Option ℤ → ℕ → Ret × Ctx
  match_loop d ctx mem previous zero = (err enoent, ctx)
  match_loop d ctx mem previous (suc n) =
      let cur = ctx.start + n in
      let hash = next_hash d mem previous cur in
      let rest = match_loop d ctx mem (some hash) n in
      elim (match_at d ctx mem cur hash) [
        | some (e, length) ↦ (ok, take_match ctx cur e length)
        | none ↦ rest
      ]

  -- The places: from ctx->start to ctx->cur or the last whole window before ctx->end, none where that
  -- lies in front of ctx->start.
  unfoldable pub dedupe_match : Dedupe → Ctx → Buf → Ret × Ctx
  dedupe_match d ctx mem =
      if d.window_size == 0
      then (err enoent, ctx)
      else match_loop d ctx mem none (
          if ltb ctx.end (ctx.cur + d.window_size)
          then suc ctx.end - (ctx.start + d.window_size)
          else suc ctx.cur - ctx.start)
