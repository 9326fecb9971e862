-- ===== src/Random/Start.antt =====
-- NewMonteCarlo of random/random2.go: the parameters that init finds, and the period of the generator.
use mathlib.Core.Path.{subst}
use native.Mathlib.Nat.{pow-le-pow_right}
use touch_go_core.Prelude.{
  ℕ, zero, suc, ◌+◌, ◌-◌, ◌*◌, ◌/◌, ◌%◌, ◌^◌, ◌<◌, ◌≤◌, some, ◌≡◌, refl, arith,
}
use touch_go_core.Random.Word.{two_63, add_64, mul_64, le_64, rem_64}
use touch_go_core.Random.Lcg.{
  MonteCarlo, skip_numbers, new_monte_carlo, find_next_prime, find_next_prime_from, is_prime,
  is_prime_from, gcd, are_coprime, modulus_of,
}
use touch_go_core.Random.Period.{Ready, skip_numbers-reaches, skip_numbers-below, skip_numbers-iter}

-- 5 is prime and coprime to a power of two, so that the search ends at once with the power 1.
find_next_prime-power :
    (n r : ℕ)
    → r < 8
    → find_next_prime (suc (suc (suc (suc (suc (suc n)))))) (2 ^ (r + 17)) ≡ some 1
unfolding find_next_prime find_next_prime_from is_prime is_prime_from gcd are_coprime le_64 mul_64
    add_64 rem_64
find_next_prime-power n zero h = refl
find_next_prime-power n (suc zero) h = refl
find_next_prime-power n (suc (suc zero)) h = refl
find_next_prime-power n (suc (suc (suc zero))) h = refl
find_next_prime-power n (suc (suc (suc (suc zero)))) h = refl
find_next_prime-power n (suc (suc (suc (suc (suc zero))))) h = refl
find_next_prime-power n (suc (suc (suc (suc (suc (suc zero)))))) h = refl
find_next_prime-power n (suc (suc (suc (suc (suc (suc (suc zero))))))) h = refl
find_next_prime-power n (suc (suc (suc (suc (suc (suc (suc (suc r)))))))) h = absurd (omega arith)

enough : (fuel r : ℕ) → 6 ≤ fuel → r < 8 → find_next_prime fuel (2 ^ (r + 17)) ≡ some 1
enough fuel r h k =
    let e : suc (suc (suc (suc (suc (suc (fuel - 6)))))) ≡ fuel = omega (arith, h) in
    subst (λ f. find_next_prime f (2 ^ (r + 17)) ≡ some 1) e (find_next_prime-power (fuel - 6) r k)

abbrev first_state : ℕ → MonteCarlo
first_state seed = record { q = 5; p = 5; m = modulus_of seed; next_time = seed }

new_monte_carlo_run :
    (fuel seed : ℕ)
    → find_next_prime fuel (modulus_of seed) ≡ some 1
    → new_monte_carlo fuel seed ≡ some (skip_numbers 20 (first_state seed) seed)
unfolding new_monte_carlo add_64 mul_64
new_monte_carlo_run fuel seed e = rw e

first_parameter : (fuel seed : ℕ) → 6 ≤ fuel → find_next_prime fuel (modulus_of seed) ≡ some 1
unfolding modulus_of
first_parameter fuel seed f = enough fuel (seed / 4 % 8) f (omega arith)

abbrev exponent : ℕ → ℕ
exponent seed = seed / 4 % 8 + 17

first_state-Ready : (seed : ℕ) → seed * 5 + 5 < two_63 → Ready (first_state seed) (exponent seed)
unfolding modulus_of
first_state-Ready seed h =
    let high : exponent seed ≤ 24 = omega arith in
    let bound : 2 ^ exponent seed ≤ 2 ^ 24 = pow-le-pow_right (omega arith) high in
    record {
      by_five = refl;
      plus_five = refl;
      power = refl;
      small = omega (arith, bound);
      room = h;
    }

pub new_monte_carlo-ends :
    (fuel seed : ℕ)
    → 6 ≤ fuel
    → (mc : MonteCarlo) × (seed' : ℕ) × (new_monte_carlo fuel seed ≡ some (mc, seed'))
new_monte_carlo-ends fuel seed f =
    let made = skip_numbers 20 (first_state seed) seed in
    (made.0, made.1, new_monte_carlo_run fuel seed (first_parameter fuel seed f))

-- With fuel of 6, `NewMonteCarlo` of a seed that is not negative and for which five times the seed and 5 more fit 63
-- bits ends. Of its generator every number below the modulus, which is from 2 ^ 17 to 2 ^ 24, is the state after
-- fewer numbers than the modulus: the generator has the full period.
pub new_monte_carlo-skip_numbers :
    (fuel seed : ℕ)
    → 6 ≤ fuel
    → seed * 5 + 5 < two_63
    → (mc : MonteCarlo) × (seed' : ℕ) × (new_monte_carlo fuel seed ≡ some (mc, seed'))
      × (2 ^ 17 ≤ mc.m)
      × (mc.m ≤ 2 ^ 24)
      × (mc.next_time < mc.m)
      × ((y : ℕ) → y < mc.m → (n : ℕ) × (n < mc.m) × ((skip_numbers n mc seed').0.next_time ≡ y))
new_monte_carlo-skip_numbers fuel seed f h =
    let k = exponent seed in
    let mc0 = first_state seed in
    let r0 = first_state-Ready seed h in
    let made = skip_numbers 20 mc0 seed in
    let (_, r) = skip_numbers-iter 20 mc0 seed k r0 in
    let low = skip_numbers-below 19 mc0 seed k r0 in
    let low_k : 17 ≤ k = omega arith in
    let high_k : k ≤ 24 = omega arith in
    let at_least : 2 ^ 17 ≤ 2 ^ k = pow-le-pow_right (omega arith) low_k in
    let at_most : 2 ^ k ≤ 2 ^ 24 = pow-le-pow_right (omega arith) high_k in
    (
      made.0,
      made.1,
      new_monte_carlo_run fuel seed (first_parameter fuel seed f),
      omega (arith, r.power, at_least),
      omega (arith, r.power, at_most),
      omega (arith, r.power, low),
      (λ y e.
          let (n, small, there) =
            skip_numbers-reaches made.0 made.1 k y r low (omega (arith, r.power, e)) in
          (n, omega (arith, r.power, small), there)),
    )
