-- ===== src/Random/Range.antt =====
-- The numbers of random/interface.go: there is always one, and it is below 2 ^ 62.
use mathlib.Core.Path.{subst}
use touch_go_core.Prelude.{ℕ, zero, suc, ◌^◌, ◌%◌, ◌/◌, ◌<◌, ◌≤◌, some, ◌≡◌, refl, sym, ◌∙◌, arith}
use touch_go_core.Random.{Random, next_sum, next_int64, new_random, nth_number}
use touch_go_core.Random.Word.{two_63, two_64, add_64}
use touch_go_core.Random.Lcg.{MonteCarlo, new_monte_carlo}
use touch_go_core.Random.Lcg
use touch_go_core.Random.Twister.{MersenneTwister, new_mersenne_twister}
use touch_go_core.Random.Twister
use touch_go_core.Random.Start.{new_monte_carlo-ends}
use touch_go_core.Random.Bounds.{WellFormed, next_int64-WellFormed, new_mersenne_twister-WellFormed}

next_run :
    (r : Random) (v : ℕ) (tw : MersenneTwister) (seed : ℕ)
    → Twister.next_int64 r.twister r.seed ≡ some (v, tw, seed)
    → (x : ℕ) × (r' : Random) × (next_int64 r ≡ some (x % two_63 / 2, r')) × (r'.twister ≡ tw)
unfolding next_int64 next_sum
next_run r v tw seed e =
    let b = Lcg.next_int64 r.carlo (seed % two_63) in
    (add_64 (v % two_63) b.0, record { twister = tw; carlo = b.1; seed = b.2 % two_63 }, rw e, refl)

next_int64-range :
    (r : Random)
    → WellFormed r.twister
    → (v : ℕ) × (r' : Random) × (next_int64 r ≡ some (v, r')) × (v < 2 ^ 62) × WellFormed r'.twister
next_int64-range r w =
    let (v, tw, seed, run, _, w') = next_int64-WellFormed r.twister r.seed w in
    let (x, r', made, same) = next_run r v tw seed run in
    (x % two_63 / 2, r', made, omega arith, subst WellFormed (sym same) w')

new_random_run :
    (fuel seed seed1 seed2 : ℕ) (tw : MersenneTwister) (mc : MonteCarlo)
    → new_mersenne_twister seed ≡ some (tw, seed1)
    → new_monte_carlo fuel seed1 ≡ some (mc, seed2)
    → new_random fuel seed ≡ some (record { twister = tw; carlo = mc; seed = seed2 })
unfolding new_random
new_random_run fuel seed seed1 seed2 tw mc a b = rw (a, b)

nth_number_first :
    (r r' : Random) (v : ℕ) → next_int64 r ≡ some (v, r') → nth_number zero r ≡ some v
unfolding nth_number
nth_number_first r r' v e = rw (nth_number, e)

nth_number_next :
    (n : ℕ) (r r' : Random) (v : ℕ)
    → next_int64 r ≡ some (v, r')
    → nth_number (suc n) r ≡ nth_number n r'
unfolding nth_number
nth_number_next n r r' v e = rw (nth_number, e)

nth_number-range :
    (n : ℕ) (r : Random) → WellFormed r.twister → (v : ℕ) × (nth_number n r ≡ some v) × (v < 2 ^ 62)
nth_number-range zero r w =
    let (v, r', run, small, _) = next_int64-range r w in (v, nth_number_first r r' v run, small)
nth_number-range (suc n) r w =
    let (v, r1, run, _, w1) = next_int64-range r w in
    let (u, on, small) = nth_number-range n r1 w1 in (u, nth_number_next n r r1 v run ∙ on, small)

-- With fuel of 6, `New` of any seed of 64 bits ends, and so does every later `NextInt64`, which gives a number below
-- 2 ^ 62.
pub new_random-nth_number :
    (fuel seed n : ℕ)
    → 6 ≤ fuel
    → seed < two_64
    → (r : Random) × (v : ℕ) × (new_random fuel seed ≡ some r)
      × (nth_number n r ≡ some v)
      × (v < 2 ^ 62)
new_random-nth_number fuel seed n f h =
    let (tw, seed1, made, w) = new_mersenne_twister-WellFormed seed h in
    let (mc, seed2, made') = new_monte_carlo-ends fuel seed1 f in
    let r : Random = record { twister = tw; carlo = mc; seed = seed2 } in
    let (v, run, small) = nth_number-range n r w in
    (r, v, new_random_run fuel seed seed1 seed2 tw mc made made', run, small)
