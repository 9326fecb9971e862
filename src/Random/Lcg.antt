-- ===== src/Random/Lcg.antt =====
-- random/random2.go: the linear congruential generator, and the search for its parameters. The seed that the
-- generators share is passed along; a loop runs on fuel.
use touch_go_core.Prelude.{
  ℕ, zero, suc, ◌+◌, ◌/◌, ◌%◌, ◌^◌, Option, none, some, ◌>>=◌, Bool, true, false, if◌then◌else◌,
  ◌==◌,
}
use touch_go_core.Random.Word.{two_63, add_64, mul_64, le_64, rem_64}

-- The trial divisions from `i` on.
unfoldable pub is_prime_from : (fuel : ℕ) → (i n : ℕ) → Option Bool
is_prime_from zero i n = none
is_prime_from (suc k) i n =
    let rest = is_prime_from k (add_64 i 1) n in
    if le_64 (mul_64 i i) n then if rem_64 n i == 0 then some false else rest else some true

unfoldable pub is_prime : (fuel : ℕ) → ℕ → Option Bool
is_prime fuel n = if le_64 n 1 then some false else is_prime_from fuel 2 n

unfoldable pub gcd : (fuel : ℕ) → (a b : ℕ) → Option ℕ
gcd zero a b = none
gcd (suc k) a b = let rest = gcd k b (rem_64 a b) in if b == 0 then some a else rest

unfoldable pub are_coprime : (fuel : ℕ) → (a b : ℕ) → Option Bool
are_coprime fuel a b = gcd fuel a b >>= λ d. some (d == 1)

-- From the exponent `i` on. The powers are exact here, as floating-point numbers are below 2 ^ 53.
unfoldable pub find_next_prime_from : (fuel : ℕ) → (i mc : ℕ) → Option ℕ
find_next_prime_from zero i mc = none
find_next_prime_from (suc k) i mc = do
  let a = add_64 (mul_64 (5 ^ i) 4) 1
  let rest = find_next_prime_from k (suc i) mc
  let coprime = are_coprime (suc k) a mc
  prime ← is_prime (suc k) a
  both ← if prime then coprime else some false
  if both then some (5 ^ i) else rest

unfoldable pub find_next_prime : (fuel : ℕ) → ℕ → Option ℕ
find_next_prime fuel mc = find_next_prime_from fuel 0 mc

pub record MonteCarlo : Type 0 where
  pub q : ℕ
  pub p : ℕ
  pub m : ℕ
  pub next_time : ℕ

-- The number, and what the generator and the seed are then. A zero modulus panics, which is recovered.
unfoldable pub next_int64 : MonteCarlo → (seed : ℕ) → ℕ × MonteCarlo × ℕ
next_int64 mc seed =
    let next = rem_64 (add_64 (mul_64 mc.next_time mc.p) mc.q) mc.m in
    if mc.m == 0
    then (0, mc, seed)
    else (next % two_63, record mc { next_time = next }, add_64 seed (next % 65536))

-- So many numbers, which are thrown away.
unfoldable pub skip_numbers : ℕ → MonteCarlo → (seed : ℕ) → MonteCarlo × ℕ
skip_numbers zero mc seed = (mc, seed)
skip_numbers (suc n) mc seed = let next = next_int64 mc seed in skip_numbers n next.1 next.2

unfoldable pub modulus_of : (seed : ℕ) → ℕ
modulus_of seed = 2 ^ (seed / 4 % 8 + 17)

unfoldable pub new_monte_carlo : (fuel : ℕ) → (seed : ℕ) → Option (MonteCarlo × ℕ)
new_monte_carlo fuel seed = do
  let m = modulus_of seed
  p ← find_next_prime fuel m
  let mc : MonteCarlo = record {
    q = add_64 (mul_64 (add_64 p 1) 2) 1;
    p = add_64 (mul_64 p 4) 1;
    m = m;
    next_time = seed;
  }
  some (skip_numbers 20 mc seed)
