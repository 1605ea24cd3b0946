-- ===== src/Zmap/Halts.antt =====
-- lib/zmap.c: z_erofs_map_blocks_iter ends on any image.
use erofs_utils.Base.{
  ℕ, ◌+◌, ◌^◌, ◌≤◌, ◌<◌, ◌≡◌, refl, sym, ◌∙◌, subst, ◌⊎◌, inl, inr, Bool, true, false, ◌||◌, ◌&&◌,
  Option, none, some, ltb, leb, ◌==◌, Bool-cases, Option-cases, arith,
}
use erofs_utils.Base.Memory.{Buf, le}
use erofs_utils.Base.Bits.{bit_and_mask}
use erofs_utils.Base.Words.{add64}
use erofs_utils.Base.Errno.{Result-cases}
use erofs_utils.Geometry.{SbInfo, blksiz, blkoff}
use erofs_utils.Device.{Devices, dev_read}
use erofs_utils.Inode.{Inode, iloc}
use erofs_utils.Zmap.{has_bit, inline_pcluster, fragment_pcluster, round_up64}
use erofs_utils.Zmap.Extent.{PagedMap, do_map_blocks}
use erofs_utils.Zmap.Iter.{
  fresh_map, read_mapheader, find_inline, find_fragment, fill_inode_lazy, map_blocks_iter,
}
use erofs_utils.Zmap.Ends.{Ends}
use erofs_utils.Zmap.Total.{Mapped, do_map_blocks-Mapped}

module _ (vi : Inode) where
  -- an inode as the header leaves it
  abbrev IsKept : Inode → Type 0
  IsKept w = (w.i_size ≡ vi.i_size) × (w.z_logical_clusterbits ≤ 30)

  abbrev Filled : Option (Option ℕ × Inode) → Type 0
  Filled none = ⊥
  Filled (some (some e, w)) = Unit
  Filled (some (none, w)) = IsKept w

  Mapped-IsKept :
      (w v : Inode) (r : Option (Option ℕ × Inode × PagedMap))
      → IsKept w
      → v.i_size ≡ w.i_size
      → v.z_logical_clusterbits ≡ w.z_logical_clusterbits
      → Mapped v r
      → (x : Option ℕ × Inode × PagedMap) × (r ≡ some x) × IsKept x.1
  Mapped-IsKept w v none k a b m = absurd m
  Mapped-IsKept w v (some x) k a b m = (x, refl, (m.0 ∙ a ∙ k.0, omega (arith, m.1, b, k.1)))

module _ (sbi : SbInfo) (devices : Devices) (vi : Inode) (size : vi.i_size < 2 ^ 63) where
  find_inline-Filled :
      (w : Inode) (h stale : Buf) → IsKept vi w → Filled vi (find_inline sbi devices w h stale)
  unfolding find_inline
  find_inline-Filled w h stale k = elim (Bool-cases (inline_pcluster w)) [
    | inr n ↦ rw (find_inline, n) k
    | inl y ↦
        let v : Inode = record w { z_idata_size = le 2 h 2 } in
        let (x, e, l) =
          Mapped-IsKept vi w v (do_map_blocks sbi devices v (fresh_map stale) false true 0) k refl
            refl
            (do_map_blocks-Mapped sbi devices v (fresh_map stale) false true 0
              (omega (arith, k.0, size)) k.1 (inl refl)) in
        rw (find_inline, y)
          (rw e
            (elim (Bool-cases (
              x.2.map.m_plen == 0
              || ltb (blksiz sbi) (add64 (blkoff sbi x.2.map.m_pa) x.2.map.m_plen))) [
                | inl t ↦ rw t tt
                | inr f ↦ rw f (elim (Option-cases x.0) [
                  | inl o ↦ subst (λ (u : Option ℕ). Filled vi (some (u, x.1))) (sym o) l
                  | inr (b, o) ↦ subst (λ (u : Option ℕ). Filled vi (some (u, x.1))) (sym o) tt
                ])
              ]))
  ]

  find_fragment-Filled :
      (w : Inode) (h stale : Buf) → IsKept vi w → Filled vi (find_fragment sbi devices w h stale)
  unfolding find_fragment
  find_fragment-Filled w h stale k = elim (Bool-cases (fragment_pcluster w)) [
    | inr n ↦ rw (find_fragment, n) k
    | inl y ↦
        let v : Inode = record w { fragmentoff = le 4 h 0 } in
        let (x, e, l) =
          Mapped-IsKept vi w v (do_map_blocks sbi devices v (fresh_map stale) false true 0) k refl
            refl
            (do_map_blocks-Mapped sbi devices v (fresh_map stale) false true 0
              (omega (arith, k.0, size)) k.1 (inl refl)) in
        rw (find_fragment, y)
          (rw e (elim (Option-cases x.0) [
            | inl o ↦ subst (λ (u : Option ℕ). Filled vi (some (u, x.1))) (sym o) l
            | inr (b, o) ↦ subst (λ (u : Option ℕ). Filled vi (some (u, x.1))) (sym o) tt
          ]))
  ]

  read_mapheader-IsKept :
      (h : Buf)
      → sbi.blkszbits ≤ 23
      → (read_mapheader sbi devices vi h).0 ≡ none
      → IsKept vi (read_mapheader sbi devices vi h).1
  unfolding read_mapheader
  read_mapheader-IsKept h b e = ground (arith, bit_and_mask 3 (h 7))

  fill_inode_lazy-Filled :
      (stale : Buf)
      → sbi.blkszbits ≤ 23
      → vi.z_logical_clusterbits ≤ 30
      → Filled vi (fill_inode_lazy sbi devices vi stale)
  unfolding fill_inode_lazy dev_read round_up64 iloc
  fill_inode_lazy-Filled stale b l =
      let pos = round_up64 (add64 (add64 (iloc sbi vi) vi.inode_isize) vi.xattr_isize) 8 in
      elim (Bool-cases vi.z_inited) [
        | inl y ↦ rw (fill_inode_lazy, y) (refl, l)
        | inr n ↦ elim (Result-cases (dev_read sbi devices 0 pos 8)) [
          | inl (e, d) ↦ rw (fill_inode_lazy, n, d) tt
          | inr (h, d) ↦
              rw (fill_inode_lazy, n, d)
                (elim (Bool-cases (has_bit (h 7) 7)) [
                  | inl t ↦ rw t (refl, l)
                  | inr f ↦
                      let r = read_mapheader sbi devices vi h in
                      rw f (elim (Option-cases r.0) [
                        | inr (e, x) ↦ rw x tt
                        | inl x ↦
                            let k = read_mapheader-IsKept h b x in
                            let inline = find_inline-Filled r.1 h stale k in
                            rw x (elim (Option-cases (find_inline sbi devices r.1 h stale)) [
                              | inl z ↦ absurd (subst (Filled vi) z inline)
                              | inr ((some e, w), z) ↦ rw z tt
                              | inr ((none, w), z) ↦
                                  let kept = subst (Filled vi) z inline in
                                  let fragment = find_fragment-Filled w h stale kept in
                                  rw z (elim (Option-cases (find_fragment sbi devices w h stale)) [
                                    | inl u ↦ absurd (subst (Filled vi) u fragment)
                                    | inr ((some e, v), u) ↦ rw u tt
                                    | inr ((none, v), u) ↦ rw u (subst (Filled vi) u fragment)
                                  ])
                            ])
                      ])
                ])
        ]
      ]

  -- On any image, with blocks of at most 8 MiB, a file of less than 2 ^ 63 bytes and an inode whose
  -- z_logical_clusterbits is at most 30, for any state of the map: z_erofs_map_blocks_iter ends. Two rounds more than the file has bytes are enough for the search
  -- for the end of an extent, and none are needed without EROFS_GET_BLOCKS_FIEMAP.
  pub map_blocks_iter-Ends :
      (s : PagedMap) (fiemap findtail : Bool) (stale : Buf) (fuel : ℕ)
      → sbi.blkszbits ≤ 23
      → vi.z_logical_clusterbits ≤ 30
      → (fiemap ≡ false) ⊎ (vi.i_size + 2 ≤ fuel)
      → Ends (map_blocks_iter sbi devices vi s fiemap findtail stale fuel)
  unfolding map_blocks_iter
  map_blocks_iter-Ends s fiemap findtail stale fuel b l f =
      let filled = fill_inode_lazy-Filled stale b l in
      elim (Bool-cases (leb vi.i_size s.map.m_la)) [
        | inl y ↦ rw (map_blocks_iter, y) tt
        | inr n ↦
            rw (map_blocks_iter, n)
              (elim (Option-cases (fill_inode_lazy sbi devices vi stale)) [
                | inl z ↦ absurd (subst (Filled vi) z filled)
                | inr ((some e, w), z) ↦ rw z tt
                | inr ((none, w), z) ↦
                    let k = subst (Filled vi) z filled in
                    let mapped =
                      do_map_blocks-Mapped sbi devices w s fiemap findtail fuel (rw k.0 size) k.1
                        (rw k.0 f) in
                    rw z (elim (Bool-cases (fragment_pcluster w && w.z_tailextent_headlcn == 0)) [
                      | inl t ↦ rw t tt
                      | inr t ↦
                          rw t
                            (elim (Option-cases
                              (do_map_blocks sbi devices w s fiemap findtail fuel)) [
                                | inl u ↦ absurd (subst (Mapped w) u mapped)
                                | inr (x, u) ↦ rw u tt
                              ])
                    ])
              ])
      ]
