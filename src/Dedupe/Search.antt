-- ===== src/Dedupe/Search.antt =====
-- The rolling hash finds what hashing every window afresh finds.
use erofs_utils.Base.{
  ℕ, zero, suc, ◌+◌, ◌-◌, ◌≤◌, ◌≡◌, refl, ap, ◌∙◌, inl, inr, ◌⊎◌, min, false, Option, none, some,
  List, ltb, ◌==◌, if◌then◌else◌, arith,
}
use erofs_utils.Base.Memory.{Buf, IsBytes}
use erofs_utils.Base.Errno.{Ret, ok, err, enoent}
use erofs_utils.Dedupe.Rolling.{ℤ, pos, init_backwards, rollinghash_calc_rm}
use erofs_utils.Dedupe.Rolling.Window.{rolling_hash_advance-init_backwards}
use erofs_utils.Dedupe.{Ctx, Dedupe, next_hash, match_at, take_match, match_loop, dedupe_match}

-- What z_erofs_dedupe_init(w) sets up and no other function changes.
pub record IsReady (w : ℕ) (d : Dedupe) : Type 0 where
  pub size : d.window_size ≡ w
  pub rm : d.rollinghash_rm ≡ rollinghash_calc_rm w

module _ (sha256 : List ℕ → List ℕ) (xxh64 : List ℕ → ℕ) where
  -- The search with a fresh hash of the window at every place, the specification of the rolling hash.
  unfoldable pub search : Dedupe → Ctx → Buf → ℕ → Ret × Ctx
  search d ctx mem zero = (err enoent, ctx)
  search d ctx mem (suc n) =
      let cur = ctx.start + n in
      let rest = search d ctx mem n in
      elim (match_at sha256 xxh64 d ctx mem cur (pos (init_backwards mem cur 0 d.window_size))) [
        | some (e, length) ↦ (ok, take_match ctx cur e length)
        | none ↦ rest
      ]

  next_hash-init :
      (w : ℕ) (d : Dedupe) (mem : Buf) (previous : Option ℤ) (cur : ℕ)
      → IsReady w d
      → 1 ≤ w
      → IsBytes mem
      → (previous ≡ none) ⊎ (previous ≡ some (pos (init_backwards mem (cur + 1) 0 d.window_size)))
      → next_hash d mem previous cur ≡ pos (init_backwards mem cur 0 d.window_size)
  unfolding next_hash
  next_hash-init w d mem previous cur s l b p = elim p [
    | inl e ↦ rw e refl
    | inr e ↦ rw (e, s.rm, s.size) (rolling_hash_advance-init_backwards mem cur w b l)
  ]

  match_loop-search :
      (w : ℕ) (d : Dedupe) (ctx : Ctx) (mem : Buf) (previous : Option ℤ) (n : ℕ)
      → IsReady w d
      → 1 ≤ w
      → IsBytes mem
      → (previous ≡ none)
        ⊎ (previous ≡ some (pos (init_backwards mem (ctx.start + n) 0 d.window_size)))
      → match_loop sha256 xxh64 d ctx mem previous n ≡ search d ctx mem n
  unfolding match_loop search
  match_loop-search w d ctx mem previous zero s l b p = refl
  match_loop-search w d ctx mem previous (suc n) s l b p =
      let cur = ctx.start + n in
      let hash = next_hash-init w d mem previous cur s l b (elim p [
        | inl e ↦ inl e
        | inr e ↦ inr (
            e
            ∙ ap (λ (t : ℕ). some (pos (init_backwards mem t 0 d.window_size)))
                {x = ctx.start + suc n} {y = cur + 1} (omega arith))
      ]) in
      let rest =
        match_loop-search w d ctx mem (some (next_hash d mem previous cur)) n s l b
          (inr (ap some hash)) in
      ground (arith, hash, rest)

  -- With the window and its power of the radix set up, and a window of at least one byte:
  -- z_erofs_dedupe_match does what the search with fresh hashes does, over all places at which a whole
  -- window lies before ctx->end, from the first at or before ctx->cur down to ctx->start.
  pub dedupe_match-search :
      (w : ℕ) (d : Dedupe) (ctx : Ctx) (mem : Buf)
      → IsReady w d
      → 1 ≤ w
      → IsBytes mem
      → dedupe_match sha256 xxh64 d ctx mem
        ≡ search d ctx mem (min (suc ctx.cur - ctx.start) (suc ctx.end - (ctx.start + w)))
  unfolding dedupe_match
  dedupe_match-search w d ctx mem s l b =
      let n =
        if ltb ctx.end (ctx.cur + d.window_size)
        then suc ctx.end - (ctx.start + d.window_size)
        else suc ctx.cur - ctx.start in
      let count : n ≡ min (suc ctx.cur - ctx.start) (suc ctx.end - (ctx.start + w)) =
        ground (arith, s.size) in
      let nonzero : (d.window_size == 0) ≡ false = ground (arith, s.size, l) in
      rw nonzero
        (match_loop-search w d ctx mem none n s l b (inl refl) ∙ ap (search d ctx mem) count)
