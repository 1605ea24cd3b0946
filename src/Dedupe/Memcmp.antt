-- ===== src/Dedupe/Memcmp.antt =====
-- lib/dedupe.c: erofs_memcmp2, which compares a word at a time where it can. A pointer is an address in a
-- memory of its own, so that the two ranges may lie in one object or in two; `long` has 8 bytes. The
-- loops over words run on fuel: 8 rounds to the next word, and over the words one round more than there
-- are bytes.
pub mod Prefix
pub mod Count
use erofs_utils.Base.{
  Option, none, some, ℕ, zero, suc, ◌+◌, ◌-◌, Bool, true, false, not, ltb, leb, ◌==◌, if◌then◌else◌,
  bit_and,
}
use erofs_utils.Base.Memory.{Buf, le}

-- the locals s1, s2 and sz
pub record Cursor : Type 0 where
  pub s1 : ℕ
  pub s2 : ℕ
  pub sz : ℕ

abbrev pub sizeof_long : ℕ
sizeof_long = 8

unfoldable pub skip : ℕ → Cursor → Cursor
skip n c = record { s1 = c.s1 + n; s2 = c.s2 + n; sz = c.sz - n }

-- to the next word of s1
unfoldable pub align_loop : Buf → Buf → ℕ → Cursor → Option Cursor
align_loop m1 m2 zero c = none
align_loop m1 m2 (suc fuel) c =
    let rest = align_loop m1 m2 fuel (skip 1 c) in
    if bit_and c.s1 (sizeof_long - 1) == 0
    then some c
    else if not (m1 c.s1 == m2 c.s2)
    then some c
    else rest

-- while (sz >= sizeof(long))
unfoldable pub word_loop : Buf → Buf → ℕ → Cursor → Option Cursor
word_loop m1 m2 zero c = none
word_loop m1 m2 (suc fuel) c =
    let rest = word_loop m1 m2 fuel (skip sizeof_long c) in
    if leb sizeof_long c.sz
    then if not (le sizeof_long m1 c.s1 == le sizeof_long m2 c.s2) then some c else rest
    else some c

-- do ... while (sz >= sizeof(long)), on words that are not aligned
unfoldable pub unaligned_loop : Buf → Buf → ℕ → Cursor → Option Cursor
unaligned_loop m1 m2 zero c = none
unaligned_loop m1 m2 (suc fuel) c =
    let next = skip sizeof_long c in
    let rest = unaligned_loop m1 m2 fuel next in
    if not (le sizeof_long m1 c.s1 == le sizeof_long m2 c.s2)
    then some c
    else if leb sizeof_long next.sz
    then rest
    else some next

-- the loop at out_bytes, over the `sz` bytes that are left
unfoldable pub byte_loop : Buf → Buf → ℕ → ℕ → ℕ → ℕ
byte_loop m1 m2 s1 s2 zero = zero
byte_loop m1 m2 s1 s2 (suc sz) =
    let rest = byte_loop m1 m2 (s1 + 1) (s2 + 1) sz in if not (m1 s1 == m2 s2) then suc sz else rest

unfoldable pub memcmp2_words : Buf → Buf → Cursor → Option Cursor
memcmp2_words m1 m2 c =
    if bit_and c.s1 (sizeof_long - 1) == bit_and c.s2 (sizeof_long - 1)
    then elim (align_loop m1 m2 sizeof_long c) [
      | none ↦ none
      | some c' ↦ word_loop m1 m2 (c'.sz + 1) c'
    ]
    else unaligned_loop m1 m2 (c.sz + 1) c

-- The count of equal bytes in front, `none` if a loop runs out of fuel.
unfoldable pub memcmp2 : Buf → Buf → ℕ → ℕ → ℕ → Option ℕ
memcmp2 m1 m2 s1 s2 sz =
    let c : Cursor = record { s1 = s1; s2 = s2; sz = sz } in
    elim (if ltb sz sizeof_long then some c else memcmp2_words m1 m2 c) [
      | none ↦ none
      | some c' ↦ some (sz - byte_loop m1 m2 c'.s1 c'.s2 c'.sz)
    ]
