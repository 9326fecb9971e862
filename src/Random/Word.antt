-- ===== src/Random/Word.antt =====
-- 64-bit integers of random/random.go and random/random2.go: a value is its bit pattern.
use touch_go_core.Prelude.{ℕ, ◌+◌, ◌-◌, ◌*◌, ◌/◌, ◌%◌, ◌^◌, Bool, if◌then◌else◌, ltb, leb}

abbrev pub two_64 : ℕ
two_64 = 18446744073709551616

abbrev pub two_63 : ℕ
two_63 = 9223372036854775808

unfoldable pub add_64 : ℕ → ℕ → ℕ
add_64 a b = (a + b) % two_64

unfoldable pub mul_64 : ℕ → ℕ → ℕ
mul_64 a b = a * b % two_64

-- The signed order.
unfoldable pub le_64 : ℕ → ℕ → Bool
le_64 a b = leb ((a + two_63) % two_64) ((b + two_63) % two_64)

-- The remainder of a signed number by a positive one, with the sign of the first.
unfoldable pub rem_64 : ℕ → ℕ → ℕ
rem_64 a m = if ltb a two_63 then a % m else (two_64 - (two_64 - a) % m) % two_64

unfoldable pub shift_left : ℕ → ℕ → ℕ
shift_left a k = a * 2 ^ k % two_64

unfoldable pub shift_right : ℕ → ℕ → ℕ
shift_right a k = a / 2 ^ k
