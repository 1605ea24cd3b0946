-- ===== src/Dedupe/Memcmp/Prefix.antt =====
-- The loops of erofs_memcmp2 over words end, and pass equal bytes only.
use erofs_utils.Base.{
  Option, some, Bool-cases, ==→eq, ==→ne, leb→le, ℕ, zero, suc, ◌+◌, ◌-◌, ◌%◌, ◌≤◌, ◌<◌, ◌≡◌, ◌⊎◌,
  inl, inr, refl, ap, ◌∙◌, leb, ◌==◌, bit_and, arith,
}
use erofs_utils.Base.Memory.{Buf, le, IsBytes}
use erofs_utils.Base.Bits.{bit_and_mask}
use erofs_utils.Dedupe.Memcmp.{
  Cursor, sizeof_long, skip, align_loop, word_loop, unaligned_loop, memcmp2_words,
}

-- The bytes of equal words are equal.
le-injective :
    (w : ℕ) (b c : Buf) (p q : ℕ)
    → IsBytes b
    → IsBytes c
    → le w b p ≡ le w c q
    → (i : ℕ) → i < w
    → b (p + i) ≡ c (q + i)
le-injective zero b c p q h k e i l = absurd (omega (arith, l))
le-injective (suc w) b c p q h k e zero l =
    ap b {x = p + 0} {y = p} (omega arith)
    ∙ omega (arith, e, h p, k q)
    ∙ ap c {x = q} {y = q + 0} (omega arith)
le-injective (suc w) b c p q h k e (suc i) l =
    ap b {x = p + suc i} {y = p + 1 + i} (omega arith)
    ∙ le-injective w b c (p + 1) (q + 1) h k (omega (arith, e, h p, k q)) i (omega (arith, l))
    ∙ ap c {x = q + 1 + i} {y = q + suc i} (omega arith)

module _ (m1 m2 : Buf) (s1 s2 n : ℕ) (bytes1 : IsBytes m1) (bytes2 : IsBytes m2) where
  -- The cursor stands `k` bytes on, and those are equal.
  pub record Passed (c : Cursor) : Type 0 where
    pub k : ℕ
    pub first : c.s1 ≡ s1 + k
    pub second : c.s2 ≡ s2 + k
    pub left : c.sz + k ≡ n
    pub same : (i : ℕ) → i < k → m1 (s1 + i) ≡ m2 (s2 + i)

  Passed-skip :
      (m : ℕ) (c : Cursor)
      → Passed c
      → m ≤ c.sz
      → ((i : ℕ) → i < m → m1 (c.s1 + i) ≡ m2 (c.s2 + i))
      → Passed (skip m c)
  unfolding skip
  Passed-skip m c p l e = record {
    k = p.k + m;
    first = omega (arith, p.first);
    second = omega (arith, p.second);
    left = omega (arith, p.left, l);
    same = λ i h.
        let where_is : (i < p.k) ⊎ (p.k ≤ i) = ground arith in
        elim where_is [
          | inl before ↦ p.same i before
          | inr behind ↦
              ap m1 {x = s1 + i} {y = c.s1 + (i - p.k)} (omega (arith, behind, p.first))
              ∙ e (i - p.k) (omega (arith, behind, h))
              ∙ ap m2 {x = c.s2 + (i - p.k)} {y = s2 + i} (omega (arith, behind, p.second))
        ];
  }

  Passed-byte : (c : Cursor) → Passed c → 1 ≤ c.sz → m1 c.s1 ≡ m2 c.s2 → Passed (skip 1 c)
  Passed-byte c p l e = Passed-skip 1 c p l (λ i h.
      ap m1 {x = c.s1 + i} {y = c.s1} (omega (arith, h))
      ∙ e
      ∙ ap m2 {x = c.s2} {y = c.s2 + i} (omega (arith, h)))

  -- A loop ends, at a cursor that has passed equal bytes only.
  abbrev pub Ends : Option Cursor → Type 0
  Ends o = (c : Cursor) × (o ≡ some c) × Passed c

  word_same :
      (c : Cursor)
      → le sizeof_long m1 c.s1 ≡ le sizeof_long m2 c.s2
      → (i : ℕ) → i < sizeof_long
      → m1 (c.s1 + i) ≡ m2 (c.s2 + i)
  word_same c e = le-injective sizeof_long m1 m2 c.s1 c.s2 bytes1 bytes2 e

  align_loop-Ends :
      (fuel : ℕ) (c : Cursor)
      → (sizeof_long - c.s1 % 8) % 8 < fuel
      → fuel ≤ c.sz
      → Passed c
      → Ends (align_loop m1 m2 fuel c)
  unfolding align_loop skip
  align_loop-Ends zero c f l p = absurd (omega (arith, f))
  align_loop-Ends (suc fuel) c f l p =
      let mask : bit_and c.s1 7 ≡ c.s1 % 8 = bit_and_mask 3 c.s1 in
      elim (Bool-cases (bit_and c.s1 7 == 0)) [
        | inl e ↦ (c, rw e refl, p)
        | inr e ↦ elim (Bool-cases (m1 c.s1 == m2 c.s2)) [
          | inr d ↦ (c, rw (e, d) refl, p)
          | inl d ↦
              let same = ==→eq (m1 c.s1) (m2 c.s2) d in
              let next = Passed-byte c p (omega (arith, l)) same in
              let (c', ends, p') =
                align_loop-Ends fuel (skip 1 c) (omega (arith, f, mask, ==→ne (bit_and c.s1 7) 0 e))
                  (omega (arith, l)) next in
              (c', rw (e, d) ends, p')
        ]
      ]

  word_loop-Ends : (fuel : ℕ) (c : Cursor) → c.sz < fuel → Passed c → Ends (word_loop m1 m2 fuel c)
  unfolding word_loop skip
  word_loop-Ends zero c f p = absurd (omega (arith, f))
  word_loop-Ends (suc fuel) c f p = elim (Bool-cases (leb sizeof_long c.sz)) [
    | inr e ↦ (c, rw e refl, p)
    | inl e ↦ elim (Bool-cases (le sizeof_long m1 c.s1 == le sizeof_long m2 c.s2)) [
      | inr d ↦ (c, rw (e, d) refl, p)
      | inl d ↦
          let l = leb→le sizeof_long c.sz e in
          let same = ==→eq (le sizeof_long m1 c.s1) (le sizeof_long m2 c.s2) d in
          let (c', ends, p') =
            word_loop-Ends fuel (skip sizeof_long c) (omega (arith, f, l))
              (Passed-skip sizeof_long c p l (word_same c same)) in
          (c', rw (e, d) ends, p')
    ]
  ]

  unaligned_loop-Ends :
      (fuel : ℕ) (c : Cursor)
      → c.sz < fuel
      → sizeof_long ≤ c.sz
      → Passed c
      → Ends (unaligned_loop m1 m2 fuel c)
  unfolding unaligned_loop skip
  unaligned_loop-Ends zero c f l p = absurd (omega (arith, f))
  unaligned_loop-Ends (suc fuel) c f l p =
      elim (Bool-cases (le sizeof_long m1 c.s1 == le sizeof_long m2 c.s2)) [
        | inr d ↦ (c, rw d refl, p)
        | inl d ↦
            let same = ==→eq (le sizeof_long m1 c.s1) (le sizeof_long m2 c.s2) d in
            let next = Passed-skip sizeof_long c p l (word_same c same) in
            elim (Bool-cases (leb sizeof_long (c.sz - sizeof_long))) [
              | inr e ↦ (skip sizeof_long c, rw (d, e) refl, next)
              | inl e ↦
                  let (c', ends, p') =
                    unaligned_loop-Ends fuel (skip sizeof_long c) (omega (arith, f, l))
                      (leb→le sizeof_long (c.sz - sizeof_long) e) next in
                  (c', rw (d, e) ends, p')
            ]
      ]

  pub memcmp2_words-Ends :
      (c : Cursor) → sizeof_long ≤ c.sz → Passed c → Ends (memcmp2_words m1 m2 c)
  unfolding memcmp2_words
  memcmp2_words-Ends c l p = elim (Bool-cases (bit_and c.s1 7 == bit_and c.s2 7)) [
    | inr e ↦
        let (c', ends, p') = unaligned_loop-Ends (c.sz + 1) c (omega arith) l p in
        (c', rw e ends, p')
    | inl e ↦
        let (c₁, ends₁, p₁) = align_loop-Ends 8 c (omega arith) l p in
        let (c₂, ends₂, p₂) = word_loop-Ends (c₁.sz + 1) c₁ (omega arith) p₁ in
        (c₂, rw (e, ends₁) ends₂, p₂)
  ]
