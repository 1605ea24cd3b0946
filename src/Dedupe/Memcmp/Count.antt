-- ===== src/Dedupe/Memcmp/Count.antt =====
-- erofs_memcmp2 counts the equal bytes in front.
use erofs_utils.Base.{
  some, Bool-cases, ==→eq, ==→ne, ltb→le, ℕ, zero, suc, ◌+◌, ◌-◌, ◌≤◌, ◌<◌, ◌≡◌, ◌≢◌, ◌⊎◌, inl, inr,
  ap, ◌∙◌, ltb, ◌==◌, arith,
}
use erofs_utils.Base.Memory.{Buf, IsBytes}
use erofs_utils.Dedupe.Memcmp.Prefix.{Passed, memcmp2_words-Ends}
use erofs_utils.Dedupe.Memcmp.{Cursor, sizeof_long, byte_loop, memcmp2}

-- The first `r` bytes of the two ranges of `n` bytes are equal, and the next ones differ.
pub record IsPrefix (m1 m2 : Buf) (s1 s2 n r : ℕ) : Type 0 where
  pub within : r ≤ n
  pub same : (i : ℕ) → i < r → m1 (s1 + i) ≡ m2 (s2 + i)
  pub differ : r < n → m1 (s1 + r) ≢ m2 (s2 + r)

IsPrefix-append :
    (m1 m2 : Buf) (s1 s2 n r : ℕ) (bytes1 : IsBytes m1) (bytes2 : IsBytes m2) (c : Cursor)
    (p : Passed m1 m2 s1 s2 n bytes1 bytes2 c)
    → IsPrefix m1 m2 c.s1 c.s2 c.sz r
    → IsPrefix m1 m2 s1 s2 n (p.k + r)
IsPrefix-append m1 m2 s1 s2 n r bytes1 bytes2 c p q = record {
  within = omega (arith, p.left, q.within);
  same = λ i h.
      let where_is : (i < p.k) ⊎ (p.k ≤ i) = ground arith in
      elim where_is [
        | inl before ↦ p.same i before
        | inr behind ↦
            ap m1 {x = s1 + i} {y = c.s1 + (i - p.k)} (omega (arith, behind, p.first))
            ∙ q.same (i - p.k) (omega (arith, behind, h))
            ∙ ap m2 {x = c.s2 + (i - p.k)} {y = s2 + i} (omega (arith, behind, p.second))
      ];
  differ = λ h e. q.differ (omega (arith, h, p.left)) (
      ap m1 {x = c.s1 + r} {y = s1 + (p.k + r)} (omega (arith, p.first))
      ∙ e
      ∙ ap m2 {x = s2 + (p.k + r)} {y = c.s2 + r} (omega (arith, p.second)));
}

start :
    (m1 m2 : Buf) (s1 s2 n : ℕ) (bytes1 : IsBytes m1) (bytes2 : IsBytes m2)
    → Passed m1 m2 s1 s2 n bytes1 bytes2 (record { s1 = s1; s2 = s2; sz = n })
start m1 m2 s1 s2 n bytes1 bytes2 = record {
  k = 0;
  first = omega arith;
  second = omega arith;
  left = omega arith;
  same = λ i h. absurd (omega (arith, h));
}

byte_loop-le : (m1 m2 : Buf) (s1 s2 sz : ℕ) → byte_loop m1 m2 s1 s2 sz ≤ sz
unfolding byte_loop
byte_loop-le m1 m2 s1 s2 zero = omega arith
byte_loop-le m1 m2 s1 s2 (suc sz) = ground (arith, byte_loop-le m1 m2 (s1 + 1) (s2 + 1) sz)

byte_loop-IsPrefix :
    (m1 m2 : Buf) (s1 s2 sz : ℕ)
    → IsBytes m1
    → IsBytes m2
    → IsPrefix m1 m2 s1 s2 sz (sz - byte_loop m1 m2 s1 s2 sz)
unfolding byte_loop
byte_loop-IsPrefix m1 m2 s1 s2 zero bytes1 bytes2 = record {
  within = omega arith;
  same = λ i h. absurd (omega (arith, h));
  differ = λ h. absurd (omega (arith, h));
}
byte_loop-IsPrefix m1 m2 s1 s2 (suc sz) bytes1 bytes2 = elim (Bool-cases (m1 s1 == m2 s2)) [
  | inl e ↦
      let same = ==→eq (m1 s1) (m2 s2) e in
      let first : Cursor = record { s1 = s1 + 1; s2 = s2 + 1; sz = sz } in
      let left = byte_loop m1 m2 (s1 + 1) (s2 + 1) sz in
      let le = byte_loop-le m1 m2 (s1 + 1) (s2 + 1) sz in
      let rest = byte_loop-IsPrefix m1 m2 (s1 + 1) (s2 + 1) sz bytes1 bytes2 in
      let p : Passed m1 m2 s1 s2 (suc sz) bytes1 bytes2 first = record {
        k = 1;
        first = omega arith;
        second = omega arith;
        left = omega arith;
        same = λ i h.
            ap m1 {x = s1 + i} {y = s1} (omega (arith, h))
            ∙ same
            ∙ ap m2 {x = s2} {y = s2 + i} (omega (arith, h));
      } in
      let whole = IsPrefix-append m1 m2 s1 s2 (suc sz) (sz - left) bytes1 bytes2 first p rest in
      let count : suc sz - left ≡ 1 + (sz - left) = omega (arith, le) in rw (e, count) whole
  | inr e ↦
      let none_left : suc sz - suc sz ≡ 0 = omega arith in
      rw (e, none_left)
        (record {
          within = omega arith;
          same = λ i h. absurd (omega (arith, h));
          differ = λ h d. absurd (
              omega (
                arith,
                ==→ne (m1 s1) (m2 s2) e,
                ap m1 {x = s1} {y = s1 + 0} (omega arith),
                ap m2 {x = s2} {y = s2 + 0} (omega arith),
                d,
              ));
        })
]

byte_loop-Passed :
    (m1 m2 : Buf) (s1 s2 sz : ℕ) (bytes1 : IsBytes m1) (bytes2 : IsBytes m2) (c : Cursor)
    (p : Passed m1 m2 s1 s2 sz bytes1 bytes2 c)
    → IsPrefix m1 m2 s1 s2 sz (sz - byte_loop m1 m2 c.s1 c.s2 c.sz)
byte_loop-Passed m1 m2 s1 s2 sz bytes1 bytes2 c p =
    let left = byte_loop m1 m2 c.s1 c.s2 c.sz in
    let count : sz - left ≡ p.k + (c.sz - left) =
      omega (arith, p.left, byte_loop-le m1 m2 c.s1 c.s2 c.sz) in
    rw count (
      IsPrefix-append m1 m2 s1 s2 sz (c.sz - left) bytes1 bytes2 c p
        (byte_loop-IsPrefix m1 m2 c.s1 c.s2 c.sz bytes1 bytes2))

-- Of any two ranges of bytes, however they are aligned: erofs_memcmp2 ends and returns the number of
-- equal bytes in front, so that the first bytes behind them, if there are any, differ.
pub memcmp2-IsPrefix :
    (m1 m2 : Buf) (s1 s2 sz : ℕ)
    → IsBytes m1
    → IsBytes m2
    → (r : ℕ) × (memcmp2 m1 m2 s1 s2 sz ≡ some r) × IsPrefix m1 m2 s1 s2 sz r
unfolding memcmp2
memcmp2-IsPrefix m1 m2 s1 s2 sz bytes1 bytes2 =
    let c : Cursor = record { s1 = s1; s2 = s2; sz = sz } in
    let whole = start m1 m2 s1 s2 sz bytes1 bytes2 in
    elim (Bool-cases (ltb sz sizeof_long)) [
      | inl e ↦ (
        sz - byte_loop m1 m2 s1 s2 sz,
        ground (arith, e),
        byte_loop-Passed m1 m2 s1 s2 sz bytes1 bytes2 c whole,
      )
      | inr e ↦
          let (c', ends, p) =
            memcmp2_words-Ends m1 m2 s1 s2 sz bytes1 bytes2 c (ltb→le sz sizeof_long e) whole in
          (
            sz - byte_loop m1 m2 c'.s1 c'.s2 c'.sz,
            ground (arith, e, ends),
            byte_loop-Passed m1 m2 s1 s2 sz bytes1 bytes2 c' p,
          )
    ]
