-- ===== src/Dedupe/Kept.antt =====
-- The operations of lib/dedupe.c keep the items true: every state that they lead to.
use erofs_utils.Base.{
  ℕ, zero, suc, ◌+◌, ◌-◌, ◌≤◌, ◌<◌, ◌≡◌, refl, sym, ap, ap₂, ◌∙◌, inl, inr, Bool, true, false, ◌||◌,
  Option, some, List, [], ◌∷◌, ◌++◌, ltb, ◌==◌, All, Bool-cases, Option-cases, arith,
}
use erofs_utils.Base.Memory.{Buf, bytes_at, IsBytes}
use erofs_utils.Base.Errno.{ok}
use erofs_utils.Device.{blit}
use erofs_utils.Dedupe.Rolling.{rollinghash_calc_rm}
use erofs_utils.Dedupe.Sound.{Genuine, Duplicate, dedupe_match-Duplicate}
use erofs_utils.Dedupe.{
  InmemExtent, Ctx, Item, Dedupe, bucket, same_prefix, list_del, del_items, dedupe_commit,
  dedupe_init, dedupe_exit, new_item, dedupe_insert, dedupe_match,
}

list_del-All :
    (P : Item → Type 0) (address : ℕ) (p : List Item) → All P p → All P (list_del address p)
unfolding list_del
list_del-All P address [] a = tt
list_del-All P address (k ∷ p) (h, a) = elim (Bool-cases (k.address == address)) [
  | inl e ↦ rw e (list_del-All P address p a)
  | inr e ↦ rw e (h, list_del-All P address p a)
]

del_items-All :
    (P : Item → Type 0) (chain : List Item) (tree : ℕ → List Item)
    → ((i : ℕ) → All P (tree i))
    → (i : ℕ) → All P (del_items chain tree i)
unfolding del_items
del_items-All P [] tree a i = a i
del_items-All P (di ∷ chain) tree a i =
    del_items-All P chain (λ j. list_del di.address (tree j))
      (λ j. list_del-All P di.address (tree j) (a j)) i

All-last : (P : Item → Type 0) (p : List Item) (k : Item) → All P p → P k → All P (p ++ (k ∷ []))
All-last P [] k a h = (h, tt)
All-last P (x ∷ p) k (px, a) h = (px, All-last P p k a h)

bytes_at-shift :
    (b : Buf) (p q r n : ℕ) → p + q ≡ r → bytes_at (λ i. b (p + i)) q n ≡ bytes_at b r n
bytes_at-shift b p q r zero e = refl
bytes_at-shift b p q r (suc n) e =
    ap₂ ◌∷◌ (ap b e) (bytes_at-shift b p (q + 1) (r + 1) n (omega (arith, e)))

blit-inside : (b : Buf) (p : ℕ) (f : Buf) (n i : ℕ) → i < n → blit b p f n (p + i) ≡ f i
unfolding blit
blit-inside b p f n i h = ground (arith, h, ap f {x = p + i - p} {y = i} (omega arith))

blit-IsBytes : (b : Buf) (p : ℕ) (f : Buf) (n : ℕ) → IsBytes b → IsBytes f → IsBytes (blit b p f n)
unfolding blit
blit-IsBytes b p f n h k i = ground (arith, h i, k (i - p))

module _ (sha256 : List ℕ → List ℕ) (xxh64 : List ℕ → ℕ) (Stored : ℕ → ℕ → ℕ → Buf → Type 0)
    (w : ℕ) where
  -- The caller's data is bytes, and the blocks of its extent store it; malloc hands out bytes.
  pub record Given (malloc : Option (ℕ × Buf)) (e : InmemExtent) (mem : Buf) (original_data : ℕ)
      : Type 0 where
    pub stored : Stored e.blkaddr e.compressedblks e.length (λ i. mem (original_data + i))
    pub bytes : IsBytes mem
    pub stale : (address : ℕ) (b : Buf) → malloc ≡ some (address, b) → IsBytes b

  -- The states that calls of the file's functions lead to from z_erofs_dedupe_init(w) on.
  pub data Reached : Dedupe → Type 0 where
    init : (d : Dedupe) → Reached (dedupe_init w d)
    insert :
        (d : Dedupe) (malloc : Option (ℕ × Buf)) (e : InmemExtent) (mem : Buf) (original_data : ℕ)
        → Reached d
        → Given malloc e mem original_data
        → Reached ((dedupe_insert sha256 xxh64 malloc d e mem original_data).1)
    commit : (d : Dedupe) (drop : Bool) → Reached d → Reached (dedupe_commit drop d)
    exit : (d : Dedupe) → Reached d → Reached (dedupe_exit d)

  abbrev AllGenuine : Dedupe → Type 0
  AllGenuine d = (i : ℕ) → All (Genuine sha256 xxh64 Stored w) (d.dedupe_tree i)

  new_item-Genuine :
      (d : Dedupe) (e : InmemExtent) (mem : Buf) (original_data address : ℕ) (stale : Buf)
      → d.window_size ≡ w
      → w ≤ e.length
      → Stored e.blkaddr e.compressedblks e.length (λ i. mem (original_data + i))
      → IsBytes mem
      → IsBytes stale
      → Genuine sha256 xxh64 Stored w (new_item sha256 xxh64 d e mem original_data address stale)
  unfolding new_item
  new_item-Genuine d e mem original_data address stale size l s b k = record {
    original = λ i. mem (original_data + i);
    stored = s;
    long = l;
    prefix =
        ap (λ (n : ℕ). sha256 (bytes_at mem original_data n)) size
        ∙ ap sha256 (sym (bytes_at-shift mem original_data 0 original_data w (omega arith)));
    extra = λ i h.
        blit-inside stale address (λ j. mem (original_data + d.window_size + j))
          (e.length - d.window_size) i (omega (arith, size, h))
        ∙ ap mem {x = original_data + d.window_size + i} {y = original_data + (w + i)}
            (omega (arith, size));
    bytes =
        blit-IsBytes stale address (λ j. mem (original_data + d.window_size + j))
          (e.length - d.window_size) k (λ j. b (original_data + d.window_size + j));
  }

  dedupe_insert-size :
      (d : Dedupe) (malloc : Option (ℕ × Buf)) (e : InmemExtent) (mem : Buf) (original_data : ℕ)
      → let d' = (dedupe_insert sha256 xxh64 malloc d e mem original_data).1 in
        (d'.window_size ≡ d.window_size) × (d'.rollinghash_rm ≡ d.rollinghash_rm)
  unfolding dedupe_insert
  dedupe_insert-size d malloc e mem original_data =
      elim (Bool-cases (d.window_size == 0 || ltb e.length d.window_size)) [
        | inl t ↦ rw t (refl, refl)
        | inr t ↦ elim (Option-cases malloc) [
          | inl n ↦ rw (t, n) (refl, refl)
          | inr ((address, stale), m) ↦
              let di = new_item sha256 xxh64 d e mem original_data address stale in
              elim (Bool-cases (same_prefix di.prefix_xxh64 (d.dedupe_tree (bucket di.hash)))) [
                | inl k ↦ rw (t, m, k) (refl, refl)
                | inr k ↦ rw (t, m, k) (refl, refl)
              ]
        ]
      ]

  dedupe_insert-AllGenuine :
      (d : Dedupe) (malloc : Option (ℕ × Buf)) (e : InmemExtent) (mem : Buf) (original_data : ℕ)
      → d.window_size ≡ w
      → AllGenuine d
      → Given malloc e mem original_data
      → AllGenuine ((dedupe_insert sha256 xxh64 malloc d e mem original_data).1)
  unfolding dedupe_insert
  dedupe_insert-AllGenuine d malloc e mem original_data size all given i =
      elim (Bool-cases (d.window_size == 0 || ltb e.length d.window_size)) [
        | inl t ↦ rw t (all i)
        | inr t ↦ elim (Option-cases malloc) [
          | inl n ↦ rw (t, n) (all i)
          | inr ((address, stale), m) ↦
              let di = new_item sha256 xxh64 d e mem original_data address stale in
              let p = bucket di.hash in
              let l : w ≤ e.length = ground (arith, t, size) in
              let g =
                new_item-Genuine d e mem original_data address stale size l given.stored given.bytes
                  (given.stale address stale m) in
              elim (Bool-cases (same_prefix di.prefix_xxh64 (d.dedupe_tree p))) [
                | inl k ↦ rw (t, m, k) (all i)
                | inr k ↦ elim (Bool-cases (i == p)) [
                  | inl here ↦
                      rw (t, m, k, here)
                        (All-last (Genuine sha256 xxh64 Stored w) (d.dedupe_tree i) di (all i) g)
                  | inr there ↦ rw (t, m, k, there) (all i)
                ]
              ]
        ]
      ]

  dedupe_commit-AllGenuine :
      (d : Dedupe) (drop : Bool) → AllGenuine d → AllGenuine (dedupe_commit drop d)
  unfolding dedupe_commit
  dedupe_commit-AllGenuine d true all =
      del_items-All (Genuine sha256 xxh64 Stored w) d.dedupe_subtree d.dedupe_tree all
  dedupe_commit-AllGenuine d false all = all

  dedupe_exit-AllGenuine : (d : Dedupe) → AllGenuine d → AllGenuine (dedupe_exit d)
  unfolding dedupe_exit
  dedupe_exit-AllGenuine d all i = elim (Bool-cases (d.window_size == 0)) [
    | inl e ↦ rw e (all i)
    | inr e ↦ rw e tt
  ]

  dedupe_exit-size :
      (d : Dedupe)
      → ((dedupe_exit d).window_size ≡ d.window_size)
        × ((dedupe_exit d).rollinghash_rm ≡ d.rollinghash_rm)
  unfolding dedupe_exit dedupe_commit
  dedupe_exit-size d = elim (Bool-cases (d.window_size == 0)) [
    | inl e ↦ rw e (refl, refl)
    | inr e ↦ rw e (refl, refl)
  ]

  -- The window is the one set up, with its power of the radix, and every item is genuine.
  pub record Sound (d : Dedupe) : Type 0 where
    pub size : d.window_size ≡ w
    pub rm : d.rollinghash_rm ≡ rollinghash_calc_rm w
    pub genuine : (i : ℕ) → All (Genuine sha256 xxh64 Stored w) (d.dedupe_tree i)

  pub Reached-Sound : (d : Dedupe) → Reached d → Sound d
  unfolding dedupe_init dedupe_commit
  Reached-Sound d (init d₀) = record { size = refl; rm = refl; genuine = λ i. tt }
  Reached-Sound d (insert d₀ malloc e mem original_data r given) =
      let s = Reached-Sound d₀ r in
      let (size, rm) = dedupe_insert-size d₀ malloc e mem original_data in
      record {
        size = size ∙ s.size;
        rm = rm ∙ s.rm;
        genuine = dedupe_insert-AllGenuine d₀ malloc e mem original_data s.size s.genuine given;
      }
  Reached-Sound d (commit d₀ drop r) =
      let s = Reached-Sound d₀ r in
      record { size = s.size; rm = s.rm; genuine = dedupe_commit-AllGenuine d₀ drop s.genuine }
  Reached-Sound d (exit d₀ r) =
      let s = Reached-Sound d₀ r in
      let (size, rm) = dedupe_exit-size d₀ in
      record { size = size ∙ s.size; rm = rm ∙ s.rm; genuine = dedupe_exit-AllGenuine d₀ s.genuine }

  -- In every state that calls of z_erofs_dedupe_insert, z_erofs_dedupe_commit and z_erofs_dedupe_exit lead
  -- to after z_erofs_dedupe_init(w), where each insert was given data that the blocks of its extent store:
  -- when z_erofs_dedupe_match returns 0, the blocks it hands back store data whose window has the sha256 of
  -- the window at the new `cur` and whose bytes behind the window are those in memory, up to the length
  -- handed back, which is not more than was stored; the range lies between ctx->start and ctx->end and
  -- reaches behind the old `cur`.
  pub dedupe_match-Reached :
      (d : Dedupe) (ctx ctx' : Ctx) (mem : Buf)
      → Reached d
      → IsBytes mem
      → dedupe_match sha256 xxh64 d ctx mem ≡ (ok, ctx')
      → Duplicate sha256 xxh64 Stored w mem ctx ctx'
  dedupe_match-Reached d ctx ctx' mem r bytes =
      let s = Reached-Sound d r in
      dedupe_match-Duplicate sha256 xxh64 Stored w d s.size ctx mem bytes s.genuine ctx'
