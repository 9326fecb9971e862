-- ===== src/Random.antt =====
-- random/interface.go: the sum of two generators that share a seed. Its children are about random/random.go and
-- random/random2.go.
pub mod Word
pub mod Lcg
pub mod Cycle
pub mod Prime
pub mod Period
pub mod Start
pub mod Bits
pub mod Twister
pub mod Bounds
pub mod Range
mod Tests
use touch_go_core.Prelude.{ℕ, zero, suc, ◌%◌, ◌/◌, Option, none, some, ◌>>=◌}
use Word.{two_63, add_64}
use Lcg.{MonteCarlo, new_monte_carlo}
use Twister.{MersenneTwister, new_mersenne_twister}

pub record Random : Type 0 where
  pub twister : MersenneTwister
  pub carlo : MonteCarlo
  pub seed : ℕ

-- The sum, and the seed, are cut to 63 bits behind each generator.
unfoldable pub next_sum : Random → Option (ℕ × Random)
next_sum r = do
  a ← Twister.next_int64 r.twister r.seed
  let b = Lcg.next_int64 r.carlo (a.2 % two_63)
  some (
    add_64 (a.0 % two_63) b.0 % two_63,
    record { twister = a.1; carlo = b.1; seed = b.2 % two_63 },
  )

unfoldable pub next_int64 : Random → Option (ℕ × Random)
next_int64 r = next_sum r >>= λ s. some (s.0 / 2, s.1)

unfoldable pub new_random : (fuel : ℕ) → (seed : ℕ) → Option Random
new_random fuel seed = do
  a ← new_mersenne_twister seed
  b ← new_monte_carlo fuel a.1
  some (record { twister = a.0; carlo = b.0; seed = b.1 })

-- `New` of a generator there is.
unfoldable pub renew : (fuel : ℕ) → Random → Option Random
renew fuel r = new_random fuel r.seed

-- `NextInt64` of the package, whose generator is made at the first call, from the time.
unfoldable pub next_default : (fuel : ℕ) → (now : ℕ) → Option Random → Option (ℕ × Random)
next_default fuel now none = new_random fuel now >>= λ r. next_int64 r
next_default fuel now (some r) = next_int64 r

-- The number behind `n` other ones.
unfoldable pub nth_number : (n : ℕ) → Random → Option ℕ
nth_number zero r = next_int64 r >>= λ a. some a.0
nth_number (suc n) r = next_int64 r >>= λ a. nth_number n a.1
