-- ===== src/Zmap/Total.antt =====
-- lib/zmap.c: the mapping of an offset ends on any image.
use erofs_utils.Base.{
  ℕ, zero, suc, ◌+◌, ◌-◌, ◌*◌, ◌/◌, ◌^◌, ◌≤◌, ◌<◌, ◌≡◌, ◌∙◌, bit_and, refl, subst, ◌⊎◌, inl, inr,
  Bool, true, false, Option, none, some, leb, ◌==◌, Bool-cases, Option-cases, ==→ne, leb→lt, arith,
}
use erofs_utils.Base.Bits.{two_pow_le, two_pow-pos}
use erofs_utils.Base.Words.{add64, shl64}
use erofs_utils.Geometry.{SbInfo}
use erofs_utils.Device.{Devices}
use erofs_utils.Inode.{Inode}
use erofs_utils.Zmap.{MapRecorder, nonhead}
use erofs_utils.Zmap.Compact.{load_cluster}
use erofs_utils.Zmap.Extent.{
  target_ofs, note_packoff, mapped_encoded, finish_map, PagedMap, extent_lookback,
  decompressed_loop, get_extent_decompressedlen, look_back, find_head, find_data, find_format,
  find_length, do_map_blocks, is_head, set_extent, note_tail, get_extent_compressedlen,
  counted_plen, start_recorder,
}
use erofs_utils.Zmap.Small.{Small, load_cluster-Small, load_cluster_delta}
use erofs_utils.Zmap.Ends.{Ends, lookback_step, extent_lookback-Ends}
use native.Mathlib.Nat.{
  div-add-mod', mul-le-mul, add-mul, lt_of_mul-lt-mul_right, mod-lt, div-le_self,
}

-- The next cluster is nearer to the end, and its position does not wrap.
next_cluster :
    (b i_size lcn d fuel : ℕ)
    → i_size < 2 ^ 63
    → b ≤ 30
    → lcn * 2 ^ b < i_size
    → 0 < d
    → d < 2 ^ 16
    → i_size / 2 ^ b + 1 - lcn < suc fuel
    → (add64 lcn d * 2 ^ b < 2 ^ 64) × (i_size / 2 ^ b + 1 - add64 lcn d < fuel)
next_cluster b i_size lcn d fuel s k l p q f =
    let low : lcn * 1 ≤ lcn * 2 ^ b =
      mul-le-mul {n₁ = lcn} {m₁ = 1} {n₂ = lcn} {m₂ = 2 ^ b} (omega arith)
        (omega (arith, two_pow-pos b)) in
    let plain_sum : add64 lcn d ≡ lcn + d = omega (arith, low, l) in
    let step : d * 2 ^ b ≤ 2 ^ 16 * 2 ^ 30 =
      mul-le-mul {n₁ = d} {m₁ = 2 ^ b} {n₂ = 2 ^ 16} {m₂ = 2 ^ 30} (omega arith)
        (two_pow_le 30 b k) in
    let before : lcn < i_size / 2 ^ b + 1 =
      lt_of_mul-lt-mul_right (2 ^ b) {m = lcn} {n = i_size / 2 ^ b + 1} (
        omega (
          arith,
          l,
          div-add-mod' i_size (2 ^ b),
          mod-lt i_size (two_pow-pos b),
          add-mul (i_size / 2 ^ b) 1 (2 ^ b),
        )) in
    (
      rw plain_sum (omega (arith, add-mul lcn d (2 ^ b), step, l)),
      rw plain_sum (omega (arith, before, f)),
    )

abbrev Settled : Option (Option ℕ × MapRecorder) → Type 0
Settled none = Unit
Settled (some (some e, n)) = Unit
Settled (some (none, n)) = Small n

abbrev Headed : Option (Option ℕ × MapRecorder × ℕ) → Type 0
Headed none = ⊥
Headed (some (some e, n, end)) = Unit
Headed (some (none, n, end)) = Small n

-- what the mapping hands back of the inode
abbrev pub Mapped : Inode → Option (Option ℕ × Inode × PagedMap) → Type 0
Mapped vi none = ⊥
Mapped vi (some (e, w, s)) =
    (w.i_size ≡ vi.i_size) × (w.z_logical_clusterbits ≡ vi.z_logical_clusterbits)

note_packoff_kept :
    (vi : Inode) (findtail : Bool) (m : MapRecorder)
    → ((note_packoff vi findtail m).i_size ≡ vi.i_size)
      × ((note_packoff vi findtail m).z_logical_clusterbits ≡ vi.z_logical_clusterbits)
unfolding note_packoff
note_packoff_kept vi findtail m = ground arith

note_tail_kept :
    (vi : Inode) (findtail : Bool) (m : MapRecorder)
    → ((note_tail vi findtail m).i_size ≡ vi.i_size)
      × ((note_tail vi findtail m).z_logical_clusterbits ≡ vi.z_logical_clusterbits)
unfolding note_tail
note_tail_kept vi findtail m = ground arith

Mapped-trans :
    (vi w : Inode) (r : Option (Option ℕ × Inode × PagedMap))
    → (w.i_size ≡ vi.i_size) × (w.z_logical_clusterbits ≡ vi.z_logical_clusterbits)
    → Mapped w r
    → Mapped vi r
Mapped-trans vi w none e h = h
Mapped-trans vi w (some r) e h = (h.0 ∙ e.0, h.1 ∙ e.1)

module _ (sbi : SbInfo) (devices : Devices) where
  -- The search for the next head ends, since each round goes on by a cluster at least.
  decompressed_loop-Ends :
      (vi : Inode) (headlcn fuel : ℕ) (m : MapRecorder) (lcn : ℕ)
      → vi.i_size < 2 ^ 63
      → vi.z_logical_clusterbits ≤ 30
      → m.delta.1 < 2 ^ 16
      → lcn * 2 ^ vi.z_logical_clusterbits < 2 ^ 64
      → vi.i_size / 2 ^ vi.z_logical_clusterbits + 1 - lcn < fuel
      → Ends (decompressed_loop sbi devices vi headlcn fuel m lcn)
  unfolding decompressed_loop
  decompressed_loop-Ends vi headlcn zero m lcn s b d w f = absurd (omega arith)
  decompressed_loop-Ends vi headlcn (suc fuel) m lcn s b d w f =
      let bits = vi.z_logical_clusterbits in
      let r = load_cluster sbi devices vi m lcn true in
      let small = load_cluster_delta sbi devices vi m lcn true d in
      let before : leb vi.i_size (shl64 lcn bits) ≡ false → lcn * 2 ^ bits < vi.i_size =
        λ t. omega (arith, leb→lt vi.i_size (shl64 lcn bits) t, w) in
      let next =
        λ (d1 : ℕ) (p : 0 < d1) (q : d1 < 2 ^ 16) (t : leb vi.i_size (shl64 lcn bits) ≡ false).
          let (x, y) = next_cluster bits vi.i_size lcn d1 fuel s b (before t) p q f in
          decompressed_loop-Ends vi headlcn fuel (record r.1 { delta = (r.1.delta.0, d1) })
            (add64 lcn d1) s b q x y in
      elim (Bool-cases (leb vi.i_size (shl64 lcn bits))) [
        | inl t ↦ rw t tt
        | inr t ↦ rw t (elim (Option-cases r.0) [
          | inr (e, h) ↦ rw h tt
          | inl h ↦ rw h (elim (Bool-cases (r.1.type == nonhead)) [
            | inl n ↦ rw n (elim (Bool-cases (r.1.delta.1 == 0)) [
              | inl z ↦ rw z tt
              | inr z ↦ rw z (next r.1.delta.1 (omega (arith, ==→ne r.1.delta.1 0 z)) small t)
            ])
            | inr n ↦ rw n (elim (Bool-cases (is_head r.1.type)) [
              | inr y ↦ rw y tt
              | inl y ↦ rw y (elim (Bool-cases (lcn == headlcn)) [
                | inl z ↦ rw z (next 1 (omega arith) (omega arith) t)
                | inr z ↦ rw z tt
              ])
            ])
          ])
        ])
      ]

  extent_lookback-Settled :
      (vi : Inode) (fuel : ℕ) (m : MapRecorder) (distance : ℕ)
      → m.delta.1 < 2 ^ 16
      → Settled (extent_lookback sbi devices vi fuel m distance)
  unfolding extent_lookback
  extent_lookback-Settled vi zero m distance d = tt
  extent_lookback-Settled vi (suc fuel) m distance d =
      lookback_step sbi devices Settled vi fuel m distance (λ e n. tt)
        (λ h. load_cluster-Small sbi devices vi m (m.lcn - distance) false d h)
        (λ t h z.
          extent_lookback-Settled vi fuel _ _
            (load_cluster_delta sbi devices vi m (m.lcn - distance) false d))

  look_back-Headed :
      (vi : Inode) (m : MapRecorder) (end : ℕ)
      → m.delta.1 < 2 ^ 16
      → Headed (look_back sbi devices vi m end)
  unfolding look_back
  look_back-Headed vi m end d =
      let ends = extent_lookback-Ends sbi devices vi m in
      let settled = extent_lookback-Settled vi (m.lcn + 2) m m.delta.0 d in
      elim (Option-cases (extent_lookback sbi devices vi (m.lcn + 2) m m.delta.0)) [
        | inl n ↦ absurd (subst Ends n ends)
        | inr ((some e, n), f) ↦ rw (look_back, f) tt
        | inr ((none, n), f) ↦ rw (look_back, f) (subst Settled f settled)
      ]

  find_head-Headed :
      (vi : Inode) (m : MapRecorder) (endoff : ℕ)
      → Small m
      → Headed (find_head sbi devices vi m endoff)
  unfolding find_head
  find_head-Headed vi m endoff s = elim (Bool-cases (m.type == nonhead)) [
    | inl t ↦ rw (find_head, t) (look_back-Headed vi m _ s.1)
    | inr t ↦
        rw (find_head, t)
          (elim (Bool-cases (is_head m.type)) [
            | inr y ↦ rw y tt
            | inl y ↦ rw y (elim (Bool-cases (leb m.clusterofs endoff)) [
              | inl z ↦ rw z s
              | inr z ↦ rw z (elim (Bool-cases (m.lcn == 0)) [
                | inl x ↦ rw x tt
                | inr x ↦ rw x (look_back-Headed vi _ _ s.1)
              ])
            ])
          ])
  ]

  get_extent_compressedlen-Small :
      (vi : Inode) (m : MapRecorder)
      → Small m
      → (get_extent_compressedlen sbi devices vi m).0 ≡ none
      → Small (get_extent_compressedlen sbi devices vi m).1
  unfolding get_extent_compressedlen counted_plen
  get_extent_compressedlen-Small vi m s h =
      grind (arith, load_cluster-Small sbi devices vi m (m.lcn + 1) false s.1)

  find_data-Small :
      (vi : Inode) (m : MapRecorder)
      → Small m
      → (find_data sbi devices vi m).0 ≡ none
      → Small (find_data sbi devices vi m).1
  unfolding find_data
  find_data-Small vi m s h = grind (arith, get_extent_compressedlen-Small)

  find_format-Small : (vi : Inode) (m : MapRecorder) → Small m → Small (find_format vi m).1
  unfolding find_format
  find_format-Small vi m s = ground arith

  find_length-Ends :
      (vi : Inode) (fiemap : Bool) (fuel : ℕ) (m : MapRecorder)
      → vi.i_size < 2 ^ 63
      → vi.z_logical_clusterbits ≤ 30
      → Small m
      → (fiemap ≡ false) ⊎ (vi.i_size + 2 ≤ fuel)
      → Ends (find_length sbi devices vi fiemap fuel m)
  unfolding find_length get_extent_decompressedlen
  find_length-Ends vi false fuel m s b l f = tt
  find_length-Ends vi true fuel m s b l f =
      let enough : vi.i_size + 2 ≤ fuel = elim f [ inl x ↦ cc | inr x ↦ x ] in
      let inside : m.lcn * 2 ^ vi.z_logical_clusterbits ≤ m.lcn * 2 ^ 30 =
        mul-le-mul {n₁ = m.lcn} {m₁ = 2 ^ vi.z_logical_clusterbits} {n₂ = m.lcn} {m₂ = 2 ^ 30}
          (omega arith) (two_pow_le 30 vi.z_logical_clusterbits b) in
      let rounds : vi.i_size / 2 ^ vi.z_logical_clusterbits ≤ vi.i_size =
        div-le_self vi.i_size (2 ^ vi.z_logical_clusterbits) in
      let ends =
        decompressed_loop-Ends vi (m.map.m_la / 2 ^ vi.z_logical_clusterbits) fuel m m.lcn s b l.1
          (omega (arith, inside, l.0)) (omega (arith, rounds, enough)) in
      elim (Option-cases (
        decompressed_loop sbi devices vi (m.map.m_la / 2 ^ vi.z_logical_clusterbits) fuel m
          m.lcn)) [
            | inl n ↦ absurd (subst Ends n ends)
            | inr ((some e, n), h) ↦ rw (find_length, h) tt
            | inr ((none, n), h) ↦ rw (find_length, h) tt
          ]

  finish_map-Mapped :
      (vi : Inode) (fiemap : Bool) (fuel : ℕ) (m : MapRecorder)
      → vi.i_size < 2 ^ 63
      → vi.z_logical_clusterbits ≤ 30
      → Small m
      → (fiemap ≡ false) ⊎ (vi.i_size + 2 ≤ fuel)
      → Mapped vi (finish_map sbi devices vi fiemap fuel m)
  unfolding finish_map
  finish_map-Mapped vi fiemap fuel m s b l f =
      let d = find_data sbi devices vi m in
      let g = find_format vi d.1 in
      elim (Option-cases d.0) [
        | inr (e, h) ↦ rw (finish_map, h) (refl, refl)
        | inl h ↦
            let small = find_format-Small vi d.1 (find_data-Small vi m l h) in
            let ends = find_length-Ends vi fiemap fuel g.1 s b small f in
            rw (finish_map, h)
              (elim (Option-cases g.0) [
                | inr (e, k) ↦ rw k (refl, refl)
                | inl k ↦ rw k (elim (Option-cases (find_length sbi devices vi fiemap fuel g.1)) [
                  | inl n ↦ absurd (subst Ends n ends)
                  | inr (x, y) ↦ rw y (refl, refl)
                ])
              ])
      ]

  pub do_map_blocks-Mapped :
      (vi : Inode) (s : PagedMap) (fiemap findtail : Bool) (fuel : ℕ)
      → vi.i_size < 2 ^ 63
      → vi.z_logical_clusterbits ≤ 30
      → (fiemap ≡ false) ⊎ (vi.i_size + 2 ≤ fuel)
      → Mapped vi (do_map_blocks sbi devices vi s fiemap findtail fuel)
  unfolding do_map_blocks start_recorder mapped_encoded set_extent
  do_map_blocks-Mapped vi s fiemap findtail fuel z b f =
      let ofs = target_ofs vi s findtail in
      let lcn = ofs / 2 ^ vi.z_logical_clusterbits in
      let endoff = bit_and ofs (2 ^ vi.z_logical_clusterbits - 1) in
      let r = load_cluster sbi devices vi (start_recorder s) lcn false in
      let w = note_packoff vi findtail r.1 in
      let p = note_packoff_kept vi findtail r.1 in
      elim (Option-cases r.0) [
        | inr (e, h) ↦ rw (do_map_blocks, h) (refl, refl)
        | inl h ↦
            let small =
              load_cluster-Small sbi devices vi (start_recorder s) lcn false (omega arith) h in
            let headed = find_head-Headed w (mapped_encoded r.1) endoff small in
            rw (do_map_blocks, h)
              (elim (Option-cases (find_head sbi devices w (mapped_encoded r.1) endoff)) [
                | inl n ↦ absurd (subst Headed n headed)
                | inr ((some e, n, end), k) ↦ rw k p
                | inr ((none, n, end), k) ↦
                    let q = note_tail_kept w findtail n in
                    rw k (
                      Mapped-trans vi (note_tail w findtail n) _ (q.0 ∙ p.0, q.1 ∙ p.1)
                        (finish_map-Mapped (note_tail w findtail n) fiemap fuel (set_extent n end)
                          (rw (q.0, p.0) z) (rw (q.1, p.1) b) (subst Headed k headed)
                          (rw (q.0, p.0) f)))
              ])
      ]
