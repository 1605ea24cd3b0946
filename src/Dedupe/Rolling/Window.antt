-- ===== src/Dedupe/Rolling/Window.antt =====
-- Sliding the window back by one byte is hashing the new window.
use erofs_utils.Base.{ℕ, zero, suc, ◌+◌, ◌-◌, ◌*◌, ◌/◌, ◌%◌, ◌^◌, ◌≤◌, ◌<◌, ◌≡◌, ap, ◌∙◌, arith}
use native.Mathlib.Nat.{pow-suc}
use erofs_utils.Base.Memory.{Buf, IsBytes}
use erofs_utils.Dedupe.Rolling.{
  pos, sub_int, sub_long, rem_long, mul_long, add_long, prime_number, init_backwards,
  rolling_hash_advance, calc_rm_loop, rollinghash_calc_rm,
}

-- The window as one number, its last byte the highest digit.
unfoldable digits : Buf → ℕ → ℕ → ℕ
digits b p zero = 0
digits b p (suc n) = b p + 256 * digits b (p + 1) n

digits-last : (b : Buf) (p n : ℕ) → digits b p (suc n) ≡ digits b p n + b (p + n) * 256 ^ n
unfolding digits
digits-last b p zero = let e : b (p + 0) ≡ b p = ap b (omega arith) in omega (arith, e)
digits-last b p (suc n) =
    let x = b (p + suc n) in
    let e : b (p + 1 + n) ≡ x = ap b {x = p + 1 + n} {y = p + suc n} (omega arith) in
    let top : b (p + 1 + n) * 256 ^ n ≡ x * 256 ^ n = ap (λ (t : ℕ). t * 256 ^ n) e in
    let weight : x * 256 ^ suc n ≡ x * (256 * 256 ^ n) =
      ap (λ (t : ℕ). x * t) {x = 256 ^ suc n} {y = 256 * 256 ^ n} (omega (arith, pow-suc 256 n)) in
    let rest = digits-last b (p + 1) n in omega (arith, rest, top, weight)

init_backwards-digits :
    (b : Buf) (p n h : ℕ)
    → init_backwards b p (h % prime_number) n ≡ (digits b p n + h * 256 ^ n) % prime_number
unfolding init_backwards digits
init_backwards-digits b p zero h = omega arith
init_backwards-digits b p (suc n) h =
    let x = b (p + n) in
    let step = init_backwards-digits b p n (256 * (h % prime_number) + x) in
    let parts : h * 256 ^ n ≡ (prime_number * (h / prime_number) + h % prime_number) * 256 ^ n =
      ap (λ (t : ℕ). t * 256 ^ n) {x = h} {y = prime_number * (h / prime_number) + h % prime_number}
        (omega arith) in
    let weight : h * 256 ^ suc n ≡ h * (256 * 256 ^ n) =
      ap (λ (t : ℕ). h * t) {x = 256 ^ suc n} {y = 256 * 256 ^ n} (omega (arith, pow-suc 256 n)) in
    omega (arith, step, parts, weight, digits-last b p n)

calc_rm_loop-pow : (n r : ℕ) → calc_rm_loop (r % prime_number) n ≡ r * 256 ^ n % prime_number
unfolding calc_rm_loop
calc_rm_loop-pow zero r = omega arith
calc_rm_loop-pow (suc n) r =
    let step = calc_rm_loop-pow n (r % prime_number * 256) in
    let parts : r * 256 ^ n ≡ (prime_number * (r / prime_number) + r % prime_number) * 256 ^ n =
      ap (λ (t : ℕ). t * 256 ^ n) {x = r} {y = prime_number * (r / prime_number) + r % prime_number}
        (omega arith) in
    let weight : r * 256 ^ suc n ≡ r * (256 * 256 ^ n) =
      ap (λ (t : ℕ). r * t) {x = 256 ^ suc n} {y = 256 * 256 ^ n} (omega (arith, pow-suc 256 n)) in
    omega (arith, step, parts, weight)

-- one step in modular arithmetic: `top` is the digit to remove times its weight
advance-mod :
    (rest top old rm c a : ℕ)
    → old ≡ (rest + top) % prime_number
    → c * rm % prime_number ≡ top % prime_number
    → a < 256
    → rolling_hash_advance (pos old) rm c a ≡ pos ((a + 256 * rest) % prime_number)
unfolding rolling_hash_advance rem_long mul_long sub_int sub_long add_long
advance-mod rest top old rm c a e t h = ground (arith, e, t, h)

-- Of a window of at least one byte: taking the hash of the window one byte on, removing that window's
-- last byte and adding the byte in front gives the hash of the window in front, as
-- erofs_rolling_hash_init computes it from the bytes alone.
pub rolling_hash_advance-init_backwards :
    (b : Buf) (cur window_size : ℕ)
    → IsBytes b
    → 1 ≤ window_size
    → rolling_hash_advance
        (pos (init_backwards b (cur + 1) 0 window_size))
        (rollinghash_calc_rm window_size)
        (b (cur + window_size))
        (b cur)
      ≡ pos (init_backwards b cur 0 window_size)
unfolding rollinghash_calc_rm digits
rolling_hash_advance-init_backwards b cur zero h w = absurd (omega (arith, w))
rolling_hash_advance-init_backwards b cur (suc n) h w =
    let c = b (cur + suc n) in
    let rest = digits b (cur + 1) n in
    let e : b (cur + 1 + n) ≡ c = ap b {x = cur + 1 + n} {y = cur + suc n} (omega arith) in
    let top : b (cur + 1 + n) * 256 ^ n ≡ c * 256 ^ n = ap (λ (t : ℕ). t * 256 ^ n) e in
    let old = init_backwards-digits b (cur + 1) (suc n) 0 in
    let new = init_backwards-digits b cur (suc n) 0 in
    let rm : rollinghash_calc_rm (suc n) ≡ 256 ^ n % prime_number =
      ap (calc_rm_loop 1) {x = suc n - 1} {y = n} (omega arith)
      ∙ calc_rm_loop-pow n 1
      ∙ omega arith in
    let parts : c * 256 ^ n
        ≡ c * (prime_number * (256 ^ n / prime_number) + rollinghash_calc_rm (suc n)) =
      ap (λ (t : ℕ). c * t) {x = 256 ^ n}
        {y = prime_number * (256 ^ n / prime_number) + rollinghash_calc_rm (suc n)}
        (omega (arith, rm)) in
    let removed : c * rollinghash_calc_rm (suc n) % prime_number ≡ c * 256 ^ n % prime_number =
      omega (arith, parts) in
    advance-mod rest (c * 256 ^ n) (init_backwards b (cur + 1) 0 (suc n))
      (rollinghash_calc_rm (suc n)) c (b cur) (omega (arith, old, top, digits-last b (cur + 1) n))
      removed (h cur)
    ∙ ap pos (omega (arith, new))
