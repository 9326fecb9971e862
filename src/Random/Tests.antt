-- ===== src/Random/Tests.antt =====
-- The generators of the random package at concrete seeds and numbers.
use touch_go_core.Prelude.{ℕ, ◌^◌, ◌<◌, ◌≤◌, some, ◌>>=◌, false, ◌≡◌, refl, arith}
use touch_go_core.Random.{Random, new_random, nth_number}
use touch_go_core.Random.Word.{add_64, mul_64, le_64, rem_64}
use touch_go_core.Random.Lcg.{
  MonteCarlo, is_prime, is_prime_from, gcd, are_coprime, new_monte_carlo, skip_numbers, next_int64,
  find_next_prime, find_next_prime_from, modulus_of,
}
use touch_go_core.Random.Prime.{Decides, is_prime-IsPrime}
use touch_go_core.Random.Start.{new_monte_carlo-skip_numbers}
use touch_go_core.Random.Range.{new_random-nth_number}

composite : is_prime 4 15 ≡ some false
unfolding is_prime is_prime_from le_64 mul_64 add_64 rem_64
composite = refl

is_prime-IsPrime_example : Decides (is_prime 4 17) 17
is_prime-IsPrime_example = is_prime-IsPrime 4 17 (omega arith) (omega arith) (omega arith)

-- The state behind the first 20 numbers of the seed 1.
first_state : new_monte_carlo 6 1 >>= (λ r. some r.0.next_time) ≡ some 25069
unfolding new_monte_carlo find_next_prime find_next_prime_from is_prime is_prime_from gcd
    are_coprime le_64 mul_64 add_64 rem_64 modulus_of skip_numbers next_int64
first_state = refl

new_monte_carlo-skip_numbers_example :
    (mc : MonteCarlo) × (seed' : ℕ) × (new_monte_carlo 6 1 ≡ some (mc, seed'))
    × (2 ^ 17 ≤ mc.m)
    × (mc.m ≤ 2 ^ 24)
    × (mc.next_time < mc.m)
    × ((y : ℕ) → y < mc.m → (n : ℕ) × (n < mc.m) × ((skip_numbers n mc seed').0.next_time ≡ y))
new_monte_carlo-skip_numbers_example = new_monte_carlo-skip_numbers 6 1 (omega arith) (omega arith)

new_random-nth_number_example :
    (r : Random) × (v : ℕ) × (new_random 6 42 ≡ some r)
    × (nth_number 1000 r ≡ some v)
    × (v < 2 ^ 62)
new_random-nth_number_example = new_random-nth_number 6 42 1000 (omega arith) (omega arith)
