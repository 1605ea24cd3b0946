-- ===== src/Zmap/Ends.antt =====
-- lib/zmap.c: the searches over the indexes end on any image.
use erofs_utils.Base.{
  ℕ, zero, suc, ◌+◌, ◌-◌, ◌%◌, ◌^◌, ◌≤◌, ◌<◌, ◌≡◌, inl, inr, Bool, false, Option, none, some, ltb,
  ◌==◌, Bool-cases, Option-cases, subst, sym, ltb→le, ==→ne, arith,
}
use erofs_utils.Geometry.{SbInfo}
use erofs_utils.Device.{Devices}
use erofs_utils.Inode.{Inode}
use erofs_utils.Zmap.{
  MapRecorder, nonhead, reload_indexes, full_nonhead, full_head, legacy_load_cluster, legacy_index,
}
use erofs_utils.Zmap.Compact.{
  compacted_nonhead, compacted_head, unpack_compacted_index, compacted_load_cluster, load_cluster,
}
use erofs_utils.Zmap.Extent.{extent_lookback, is_head, cluster_pos}

-- a search that has not run out of fuel
abbrev pub Ends {ℓ} : {A : Type ℓ} → Option A → Type 0
Ends none = ⊥
Ends (some a) = Unit

full_nonhead_lcn :
    (vi : Inode) (m : MapRecorder) (d0 d1 : ℕ) → (full_nonhead vi m d0 d1).1.lcn ≡ m.lcn
unfolding full_nonhead
full_nonhead_lcn vi m d0 d1 = ground arith

compacted_nonhead_lcn :
    (vi : Inode) (m : MapRecorder) (vcnt lobits encodebits base i : ℕ) (lookahead : Bool) (lo : ℕ)
    → (compacted_nonhead vi m vcnt lobits encodebits base i lookahead lo).1.lcn ≡ m.lcn
unfolding compacted_nonhead
compacted_nonhead_lcn vi m vcnt lobits encodebits base i lookahead lo = ground arith

compacted_head_lcn :
    (vi : Inode) (m : MapRecorder) (packsize lobits encodebits base i lo : ℕ)
    → (compacted_head vi m packsize lobits encodebits base i lo).1.lcn ≡ m.lcn
unfolding compacted_head
compacted_head_lcn vi m packsize lobits encodebits base i lo = ground arith

module _ (sbi : SbInfo) (devices : Devices) where
  reload_indexes_lcn :
      (m : MapRecorder) (eblk : ℕ) → (reload_indexes sbi devices m eblk).1.lcn ≡ m.lcn
  unfolding reload_indexes
  reload_indexes_lcn m eblk = ground arith

  legacy_load_cluster_lcn :
      (vi : Inode) (m : MapRecorder) (lcn : ℕ)
      → (legacy_load_cluster sbi devices vi m lcn).0 ≡ none
      → (legacy_load_cluster sbi devices vi m lcn).1.lcn ≡ lcn
  unfolding legacy_load_cluster legacy_index full_head
  legacy_load_cluster_lcn vi m lcn h = grind (arith, full_nonhead_lcn)

  unpack_compacted_index_lcn :
      (vi : Inode) (m : MapRecorder) (shift pos : ℕ) (lookahead : Bool)
      → (unpack_compacted_index sbi devices vi m shift pos lookahead).1.lcn ≡ m.lcn
  unfolding unpack_compacted_index
  unpack_compacted_index_lcn vi m shift pos lookahead =
      grind (arith, compacted_nonhead_lcn, compacted_head_lcn)

  compacted_load_cluster_lcn :
      (vi : Inode) (m : MapRecorder) (lcn : ℕ) (lookahead : Bool)
      → (compacted_load_cluster sbi devices vi m lcn lookahead).0 ≡ none
      → (compacted_load_cluster sbi devices vi m lcn lookahead).1.lcn ≡ lcn
  unfolding compacted_load_cluster
  compacted_load_cluster_lcn vi m lcn lookahead h =
      grind (arith, unpack_compacted_index_lcn, reload_indexes_lcn)

  pub load_cluster_lcn :
      (vi : Inode) (m : MapRecorder) (lcn : ℕ) (lookahead : Bool)
      → (load_cluster sbi devices vi m lcn lookahead).0 ≡ none
      → (load_cluster sbi devices vi m lcn lookahead).1.lcn ≡ lcn % 2 ^ 32
  unfolding load_cluster
  load_cluster_lcn vi m lcn lookahead h = ground (
    arith,
    legacy_load_cluster_lcn vi m (lcn % 2 ^ 32),
    compacted_load_cluster_lcn vi m (lcn % 2 ^ 32) lookahead,
  )

  -- One round of the search back: it fails, or finds the head, or goes on.
  pub lookback_step :
      (P : Option (Option ℕ × MapRecorder) → Type 0) (vi : Inode) (fuel : ℕ) (m : MapRecorder)
      (distance : ℕ)
      → let r = load_cluster sbi devices vi m (m.lcn - distance) false in
        ((e : ℕ) (n : MapRecorder) → P (some (some e, n)))
        → (r.0 ≡ none
            → P (
                some (
                  none,
                  record r.1 {
                    headtype = r.1.type;
                    map = record r.1.map {
                      m_la = cluster_pos vi (m.lcn - distance) r.1.clusterofs;
                    };
                  },
                )))
        → (distance ≤ m.lcn
            → r.0 ≡ none
            → 0 < r.1.delta.0
            → P (extent_lookback sbi devices vi fuel r.1 r.1.delta.0))
        → P (extent_lookback sbi devices vi (suc fuel) m distance)
  unfolding extent_lookback
  lookback_step P vi fuel m distance fails heads rest =
      let lcn = m.lcn - distance in
      let r = load_cluster sbi devices vi m lcn false in
      elim (Bool-cases (ltb m.lcn distance)) [
        | inl t ↦ rw t (fails _ _)
        | inr t ↦ rw t (elim (Option-cases r.0) [
          | inr (e, h) ↦ rw h (subst (λ (x : Option ℕ). P (some (x, r.1))) (sym h) (fails e r.1))
          | inl h ↦ rw h (elim (Bool-cases (r.1.type == nonhead)) [
            | inr n ↦ rw n (elim (Bool-cases (is_head r.1.type)) [
              | inl y ↦ rw y (heads h)
              | inr y ↦ rw y (fails _ _)
            ])
            | inl n ↦ rw n (elim (Bool-cases (r.1.delta.0 == 0)) [
              | inl z ↦ rw z (fails _ _)
              | inr z ↦
                  rw z (rest (ltb→le m.lcn distance t) h (omega (arith, ==→ne r.1.delta.0 0 z)))
            ])
          ])
        ])
      ]

  -- A distance that is not 0 leads to an earlier cluster.
  lookback_on :
      (vi : Inode) (fuel : ℕ) (m : MapRecorder) (distance : ℕ)
      → m.lcn < fuel
      → 0 < distance
      → Ends (extent_lookback sbi devices vi fuel m distance)
  lookback_on vi zero m distance f d = absurd (omega arith)
  lookback_on vi (suc fuel) m distance f d =
      lookback_step Ends vi fuel m distance (λ e n. tt) (λ h. tt)
        (λ t h z.
          lookback_on vi fuel _ _
            (omega (arith, t, load_cluster_lcn vi m (m.lcn - distance) false h)) z)

  -- Two rounds more than the number of the cluster are enough.
  pub extent_lookback-Ends :
      (vi : Inode) (m : MapRecorder) → Ends (extent_lookback sbi devices vi (m.lcn + 2) m m.delta.0)
  extent_lookback-Ends vi m =
      let fuel : suc (suc m.lcn) ≡ m.lcn + 2 = omega arith in
      subst (λ (n : ℕ). Ends (extent_lookback sbi devices vi n m m.delta.0)) fuel
        (lookback_step Ends vi (suc m.lcn) m m.delta.0 (λ e n. tt) (λ h. tt)
          (λ t h z.
            lookback_on vi (suc m.lcn) _ _
              (omega (arith, load_cluster_lcn vi m (m.lcn - m.delta.0) false h)) z))
