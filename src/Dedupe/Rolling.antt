-- ===== src/Dedupe/Rolling.antt =====
-- lib/rolling_hash.h. `long long` is a signed number here: no step leaves 64 bits, since every value is
-- below 2 ^ 40 in size.
pub mod Window
use erofs_utils.Base.{ℕ, zero, suc, ◌+◌, ◌-◌, ◌*◌, ◌%◌, leb, if◌then◌else◌}
use erofs_utils.Base.Memory.{Buf}

-- `negsuc n` is -(n + 1)
pub data ℤ : Type 0 where
  pos : ℕ → ℤ
  negsuc : ℕ → ℤ

-- a - b of two numbers that are not negative
unfoldable pub sub_long : ℕ → ℕ → ℤ
sub_long a b = if leb b a then pos (a - b) else negsuc (b - a - 1)

-- z - n
unfoldable pub sub_int : ℤ → ℕ → ℤ
sub_int (pos a) n = sub_long a n
sub_int (negsuc a) n = negsuc (a + n)

-- z % n, with the sign of z, as C has it
unfoldable pub rem_long : ℤ → ℕ → ℤ
rem_long (pos a) n = pos (a % n)
rem_long (negsuc a) n = sub_long 0 ((a + 1) % n)

-- n * z
unfoldable pub mul_long : ℕ → ℤ → ℤ
mul_long n (pos a) = pos (n * a)
mul_long n (negsuc a) = sub_long 0 (n * (a + 1))

-- z + n
unfoldable pub add_long : ℤ → ℕ → ℤ
add_long (pos a) n = pos (a + n)
add_long (negsuc a) n = sub_long n (a + 1)

abbrev pub prime_number : ℕ
prime_number = 4294967295

abbrev pub radix : ℕ
radix = 256

-- erofs_rolling_hash_init, backwards: `len` bytes from `input` on, the last first
unfoldable pub init_backwards : Buf → ℕ → ℕ → ℕ → ℕ
init_backwards b input hash zero = hash
init_backwards b input hash (suc len) =
    init_backwards b input ((radix * hash + b (input + len)) % prime_number) len

-- forwards, the first first
unfoldable pub init_forwards : Buf → ℕ → ℕ → ℕ → ℕ
init_forwards b input hash zero = hash
init_forwards b input hash (suc len) =
    init_forwards b (input + 1) ((radix * hash + b input) % prime_number) len

unfoldable pub rolling_hash_advance : ℤ → ℕ → ℕ → ℕ → ℤ
rolling_hash_advance old_hash rm to_remove to_add =
    let to_remove_val = to_remove * rm % prime_number in
    let hash = rem_long (mul_long radix (sub_int old_hash to_remove_val)) prime_number in
    let hash' = rem_long (add_long hash to_add) prime_number in
    elim hash' [ pos h ↦ pos h | negsuc h ↦ add_long (negsuc h) prime_number ]

-- the loop of erofs_rollinghash_calc_rm over `n` rounds
unfoldable pub calc_rm_loop : ℕ → ℕ → ℕ
calc_rm_loop rm zero = rm
calc_rm_loop rm (suc n) = calc_rm_loop (rm * radix % prime_number) n

unfoldable pub rollinghash_calc_rm : ℕ → ℕ
rollinghash_calc_rm window_size = calc_rm_loop 1 (window_size - 1)
