-- ===== src/Random/Period.antt =====
-- The generator of random/random2.go that its init makes: its parameters, and that its state runs through all
-- remainders by its modulus.
use mathlib.Core.Path.{subst}
use native.Mathlib.Nat.{
  mod-lt, mod-eq_of_lt, add-mul-mod_self_right, mod-add-div', mod-mod, one-le-pow,
}
use touch_go_core.Prelude.{
  ℕ, zero, suc, ◌+◌, ◌*◌, ◌/◌, ◌%◌, ◌^◌, ◌<◌, ◌≤◌, true, false, ◌==◌, ltb, ◌≡◌, refl, sym, ap, ◌∙◌,
  arith,
}
use touch_go_core.Random.Word.{two_63, two_64, add_64, mul_64, rem_64}
use touch_go_core.Random.Lcg.{MonteCarlo, next_int64, skip_numbers}
use touch_go_core.Random.Cycle.{grow, iter, Same, reaches}

grow-mod : (z m : ℕ) → grow (z % m) % m ≡ grow z % m
grow-mod z m =
    let e : grow z ≡ grow (z % m) + z / m * 5 * m = omega (arith, mod-add-div' z m) in
    sym (ap (λ v. v % m) e ∙ add-mul-mod_self_right (grow (z % m)) (z / m * 5) m)

iter-mod : (n x m : ℕ) → iter n (x % m) % m ≡ iter n x % m
iter-mod zero x m = mod-mod x m
iter-mod (suc n) x m =
    sym (grow-mod (iter n (x % m)) m)
    ∙ ap (λ v. grow v % m) (iter-mod n x m)
    ∙ grow-mod (iter n x) m

iter-grow : (n x : ℕ) → iter n (grow x) ≡ grow (iter n x)
iter-grow zero x = refl
iter-grow (suc n) x = ap grow (iter-grow n x)

Same-mod : (m z y : ℕ) → y < m → Same m z y → z % m ≡ y
Same-mod m z y h (s, t, e) =
    sym (add-mul-mod_self_right z s m)
    ∙ ap (λ v. v % m) e
    ∙ add-mul-mod_self_right y t m
    ∙ mod-eq_of_lt h

-- The parameters that init chooses, with room for one step in 63 bits.
pub record Ready (mc : MonteCarlo) (k : ℕ) : Type 0 where
  pub by_five : mc.p ≡ 5
  pub plus_five : mc.q ≡ 5
  pub power : mc.m ≡ 2 ^ k
  pub small : 2 ^ k * 5 + 5 ≤ two_63
  pub room : mc.next_time * 5 + 5 < two_63

next_int64-step :
    (mc : MonteCarlo) (seed v : ℕ)
    → (mc.m == 0) ≡ false
    → rem_64 (add_64 (mul_64 mc.next_time mc.p) mc.q) mc.m ≡ v
    → (next_int64 mc seed).1 ≡ record mc { next_time = v }
unfolding next_int64
next_int64-step mc seed v h e = rw (h, e)

small_step : (x m : ℕ) → x * 5 + 5 < two_63 → rem_64 (add_64 (mul_64 x 5) 5) m ≡ grow x % m
unfolding rem_64 add_64 mul_64
small_step x m h =
    let product : x * 5 % two_64 ≡ x * 5 = omega (arith, h) in
    let sum : (x * 5 + 5) % two_64 ≡ x * 5 + 5 = omega (arith, h) in
    let positive : ltb (x * 5 + 5) two_63 ≡ true = ground (arith, h) in rw (product, sum, positive)

-- One number, from any state that has room.
next_int64-grow :
    (mc : MonteCarlo) (seed k : ℕ)
    → Ready mc k
    → ((next_int64 mc seed).1.next_time ≡ grow mc.next_time % 2 ^ k)
      × Ready (next_int64 mc seed).1 k
next_int64-grow mc seed k r =
    let x = mc.next_time in
    let v = grow x % 2 ^ k in
    let positive : 0 < 2 ^ k = one-le-pow k 2 (omega arith) in
    let same : rem_64 (add_64 (mul_64 x mc.p) mc.q) mc.m ≡ v =
      ap (λ p. rem_64 (add_64 (mul_64 x p) mc.q) mc.m) r.by_five
      ∙ ap (λ q. rem_64 (add_64 (mul_64 x 5) q) mc.m) r.plus_five
      ∙ ap (rem_64 (add_64 (mul_64 x 5) 5)) r.power
      ∙ small_step x (2 ^ k) r.room in
    let step = next_int64-step mc seed v (ground (arith, r.power, positive)) same in
    let below = mod-lt (grow x) positive in
    (
      ap (λ (n : MonteCarlo). n.next_time) step,
      subst (λ n. Ready n k) (sym step)
          (record {
            by_five = r.by_five;
            plus_five = r.plus_five;
            power = r.power;
            small = r.small;
            room = omega (arith, below, r.small);
          }),
    )

pub skip_numbers-iter :
    (n : ℕ) (mc : MonteCarlo) (seed k : ℕ)
    → Ready mc k
    → ((skip_numbers n mc seed).0.next_time % 2 ^ k ≡ iter n mc.next_time % 2 ^ k)
      × Ready (skip_numbers n mc seed).0 k
unfolding skip_numbers
skip_numbers-iter zero mc seed k r = (refl, r)
skip_numbers-iter (suc n) mc seed k r =
    let (step, r1) = next_int64-grow mc seed k r in
    let (e, r') = skip_numbers-iter n (next_int64 mc seed).1 (next_int64 mc seed).2 k r1 in
    (
      e
          ∙ ap (λ x. iter n x % 2 ^ k) step
          ∙ iter-mod n (grow mc.next_time) (2 ^ k)
          ∙ ap (λ x. x % 2 ^ k) (iter-grow n mc.next_time),
      r',
    )

skip_numbers-low :
    (n : ℕ) (mc : MonteCarlo) (seed k : ℕ)
    → Ready mc k
    → mc.next_time < 2 ^ k
    → (skip_numbers n mc seed).0.next_time < 2 ^ k
unfolding skip_numbers
skip_numbers-low zero mc seed k r low = low
skip_numbers-low (suc n) mc seed k r low =
    let (step, r1) = next_int64-grow mc seed k r in
    skip_numbers-low n (next_int64 mc seed).1 (next_int64 mc seed).2 k r1 (
      subst (λ v. v < 2 ^ k) (sym step) (mod-lt (grow mc.next_time) (one-le-pow k 2 (omega arith))))

pub skip_numbers-below :
    (n : ℕ) (mc : MonteCarlo) (seed k : ℕ)
    → Ready mc k
    → (skip_numbers (suc n) mc seed).0.next_time < 2 ^ k
unfolding skip_numbers
skip_numbers-below n mc seed k r =
    let (step, r1) = next_int64-grow mc seed k r in
    skip_numbers-low n (next_int64 mc seed).1 (next_int64 mc seed).2 k r1 (
      subst (λ v. v < 2 ^ k) (sym step) (mod-lt (grow mc.next_time) (one-le-pow k 2 (omega arith))))

-- From a state below the modulus every number below it is a later state, in fewer steps than the modulus.
pub skip_numbers-reaches :
    (mc : MonteCarlo) (seed k y : ℕ)
    → Ready mc k
    → mc.next_time < 2 ^ k
    → y < 2 ^ k
    → (n : ℕ) × (n < 2 ^ k) × ((skip_numbers n mc seed).0.next_time ≡ y)
skip_numbers-reaches mc seed k y r low h =
    let (n, small, same) = reaches k mc.next_time y in
    let (e, _) = skip_numbers-iter n mc seed k r in
    (
      n,
      small,
      sym (mod-eq_of_lt (skip_numbers-low n mc seed k r low)) ∙ e ∙ Same-mod (2 ^ k) _ y h same,
    )
