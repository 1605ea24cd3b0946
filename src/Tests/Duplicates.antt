-- ===== src/Tests/Duplicates.antt =====
-- Twelve bytes that were stored once, and a copy of them that is searched for.
use erofs_utils.Base.{
  ap, list_eq, ℕ, ◌+◌, ◌%◌, ◌≡◌, refl, false, none, some, Option, List, [], arith,
}
use erofs_utils.Base.Memory.{Buf, IsBytes}
use erofs_utils.Dedupe.{
  same_prefix, match_loop, match_at, find_item, bucket, next_hash, new_item, hash_eq, take_match,
  InmemExtent, Ctx, Dedupe, dedupe_init, dedupe_insert, dedupe_match,
}
use erofs_utils.Dedupe.Rolling.{
  rem_long, add_long, mul_long, sub_int, sub_long, calc_rm_loop, pos, init_backwards,
  rolling_hash_advance, rollinghash_calc_rm,
}
use erofs_utils.Dedupe.Rolling.Window.{rolling_hash_advance-init_backwards}
use erofs_utils.Dedupe.Memcmp.{
  memcmp2, align_loop, byte_loop, memcmp2_words, skip, unaligned_loop, word_loop,
}
use erofs_utils.Device.{blit}
use erofs_utils.Dedupe.Memcmp.Count.{IsPrefix, memcmp2-IsPrefix}
use erofs_utils.Dedupe.Sound.{Duplicate}
use erofs_utils.Dedupe.Kept.{Reached, dedupe_match-Reached}
use erofs_utils.Dedupe.Search.{search, dedupe_match-search}

-- a text of period 20
abbrev text : Buf
text i = i % 20

text-IsBytes : IsBytes text
text-IsBytes i = omega arith

abbrev zeros : Buf
zeros i = 0

abbrev blank : Dedupe
blank = record { window_size = 0; rollinghash_rm = 0; dedupe_tree = λ i. []; dedupe_subtree = [] }

-- stands for SHA-256 and xxh64
abbrev sha256 : List ℕ → List ℕ
sha256 xs = xs

abbrev xxh64 : List ℕ → ℕ
xxh64 xs = 7

abbrev extent : InmemExtent
extent = record {
  blkaddr = 9;
  compressedblks = 1;
  length = 12;
  raw = false;
  partial = false;
  inlined = false;
}

-- block 9 stores the text from 3 on
abbrev Stored : ℕ → ℕ → ℕ → Buf → Type 0
Stored blkaddr blks length original = (i : ℕ) → original i ≡ text (3 + i)

abbrev malloc : Option (ℕ × Buf)
malloc = some (100, zeros)

abbrev malloc_bytes : Option (ℕ × Buf) → Buf
malloc_bytes none = zeros
malloc_bytes (some x) = x.1

abbrev filled : Dedupe
filled = (dedupe_insert sha256 xxh64 malloc (dedupe_init 4 blank) extent text 3).1

abbrev ctx : Ctx
ctx = record { start = 20; end = 50; cur = 24; e = extent }

filled-Reached : Reached sha256 xxh64 Stored 4 filled
filled-Reached =
    Reached.insert (dedupe_init 4 blank) malloc extent text 3 (Reached.init blank) (record {
      stored = λ i. refl;
      bytes = text-IsBytes;
      stale = λ address b e. rw (← ap malloc_bytes e) (λ i. omega arith);
    })

rolling_hash_advance-init_backwards_example :
    rolling_hash_advance (pos (init_backwards text 6 0 4)) (rollinghash_calc_rm 4) (text 9) (text 5)
    ≡ pos (init_backwards text 5 0 4)
rolling_hash_advance-init_backwards_example =
    rolling_hash_advance-init_backwards text 5 4 text-IsBytes (omega arith)

memcmp2-IsPrefix_example :
    (r : ℕ) × (memcmp2 text text 3 63 30 ≡ some r) × IsPrefix text text 3 63 30 r
memcmp2-IsPrefix_example = memcmp2-IsPrefix text text 3 63 30 text-IsBytes text-IsBytes

dedupe_match-search_example :
    dedupe_match sha256 xxh64 filled ctx text ≡ search sha256 xxh64 filled ctx text 5
unfolding dedupe_insert dedupe_init same_prefix rollinghash_calc_rm calc_rm_loop
dedupe_match-search_example =
    dedupe_match-search sha256 xxh64 4 filled ctx text (record { size = refl; rm = refl })
      (omega arith) text-IsBytes

dedupe_match-Reached_example :
    Duplicate sha256 xxh64 Stored 4 text ctx (dedupe_match sha256 xxh64 filled ctx text).1
unfolding dedupe_match dedupe_insert dedupe_init same_prefix match_loop match_at find_item bucket
    next_hash init_backwards new_item rolling_hash_advance rem_long add_long mul_long sub_int
    sub_long list_eq align_loop byte_loop memcmp2 memcmp2_words skip unaligned_loop word_loop
    calc_rm_loop rollinghash_calc_rm hash_eq take_match blit
dedupe_match-Reached_example =
    dedupe_match-Reached sha256 xxh64 Stored 4 filled ctx
      (dedupe_match sha256 xxh64 filled ctx text).1 text filled-Reached text-IsBytes refl
