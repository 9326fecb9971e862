-- ===== src/Random/Prime.antt =====
-- isPrime of random/random2.go decides whether a number is prime.
use mathlib.Core.Path.{subst}
use native.Mathlib.Nat.{mod-add-div', mul-mod_right, mul-le-mul, mul-le-mul_right}
use touch_go_core.Prelude.{
  ℕ, zero, suc, ◌+◌, ◌*◌, ◌/◌, ◌%◌, ◌<◌, ◌≤◌, Option, some, Bool, true, false, ◌==◌, ltb, leb, ◌≡◌,
  ◌≢◌, ◌↔◌, inl, inr, Bool-cases, refl, sym, ap, ◌∙◌, arith,
}
use touch_go_core.Prelude.Ptr.{==-eq}
use touch_go_core.Random.Word.{two_63, two_64, add_64, mul_64, le_64, rem_64}
use touch_go_core.Random.Lcg.{is_prime, is_prime_from}

abbrev NoDivisor : ℕ → ℕ → Type 0
NoDivisor n i = (d : ℕ) → 1 < d → d < i → n % d ≢ 0

abbrev pub IsPrime : ℕ → Type 0
IsPrime n = (1 < n) × NoDivisor n n

-- The greatest number whose square fits 63 bits.
abbrev pub root_63 : ℕ
root_63 = 3037000499

le_64_small : (a b : ℕ) → a < two_63 → b < two_63 → le_64 a b ≡ leb a b
unfolding le_64
le_64_small a b h k =
    let e : (a + two_63) % two_64 ≡ a + two_63 = omega (arith, h) in
    let f : (b + two_63) % two_64 ≡ b + two_63 = omega (arith, k) in rw (e, f) (ground arith)

square_small : (i : ℕ) → i ≤ root_63 → i * i < two_63
square_small i h = omega (arith, mul-le-mul h h)

root_small : (i n : ℕ) → i * i ≤ n → n < root_63 * root_63 → i < root_63
root_small i n h k = elim (Bool-cases (ltb i root_63)) [
  | inl e ↦ ground (arith, e)
  | inr e ↦
      let high : root_63 ≤ i = ground (arith, e) in
      absurd (omega (arith, h, k, mul-le-mul high high))
]

-- A proper divisor has one of which the square is not above the number.
no_divisor : (n i : ℕ) → n < i * i → NoDivisor n i → NoDivisor n n
no_divisor n i h clear d big small divides = elim (Bool-cases (ltb d i)) [
  | inl e ↦ clear d big (ground (arith, e)) divides
  | inr e ↦
      let high : i ≤ d = ground (arith, e) in
      let c = n / d in
      let whole : n ≡ c * d = omega (arith, mod-add-div' n d, divides) in
      clear c (proper c d whole small) (below c d whole high)
        (ap (λ v. v % c) whole ∙ mul-mod_right c d)
]
  where
    below : (c d : ℕ) → n ≡ c * d → i ≤ d → c < i
    below c d e high = elim (Bool-cases (ltb c i)) [
      | inl b ↦ ground (arith, b)
      | inr b ↦
          let same : i ≤ c = ground (arith, b) in absurd (omega (arith, e, h, mul-le-mul same high))
    ]

    proper : (c d : ℕ) → n ≡ c * d → d < n → 1 < c
    proper c d e less = elim (Bool-cases (ltb 1 c)) [
      | inl b ↦ ground (arith, b)
      | inr b ↦
          let one : c ≤ 1 = ground (arith, b) in
          absurd (omega (arith, e, less, mul-le-mul_right d one))
    ]

abbrev pub Decides : Option Bool → ℕ → Type 0
Decides o n = (b : Bool) × (o ≡ some b) × ((b ≡ true) ↔ IsPrime n)

divides_step :
    (k i n : ℕ)
    → le_64 (mul_64 i i) n ≡ true
    → rem_64 n i ≡ 0
    → is_prime_from (suc k) i n ≡ some false
unfolding is_prime_from
divides_step k i n h e =
    let zero_rest : (rem_64 n i == 0) ≡ true = ground (arith, e) in rw (is_prime_from, h, zero_rest)

next_step :
    (k i n : ℕ)
    → le_64 (mul_64 i i) n ≡ true
    → (rem_64 n i == 0) ≡ false
    → is_prime_from (suc k) i n ≡ is_prime_from k (add_64 i 1) n
unfolding is_prime_from
next_step k i n h e = rw (is_prime_from, h, e)

last_step : (k i n : ℕ) → le_64 (mul_64 i i) n ≡ false → is_prime_from (suc k) i n ≡ some true
unfolding is_prime_from
last_step k i n h = rw (is_prime_from, h)

-- The arithmetic of a turn does not wrap.
turn_exact :
    (i n : ℕ)
    → i ≤ root_63
    → n < root_63 * root_63
    → (le_64 (mul_64 i i) n ≡ leb (i * i) n) × (rem_64 n i ≡ n % i) × (add_64 i 1 ≡ suc i)
unfolding mul_64 rem_64 add_64
turn_exact i n h k =
    let square = square_small i h in
    let exact : i * i % two_64 ≡ i * i = omega (arith, square) in
    let positive : ltb n two_63 ≡ true = ground (arith, k) in
    (rw exact (le_64_small (i * i) n square (omega (arith, k))), rw positive refl, omega (arith, h))

clear_next : (n i : ℕ) → n % i ≢ 0 → NoDivisor n i → NoDivisor n (suc i)
clear_next n i here clear d big small = elim (Bool-cases (d == i)) [
  | inl e ↦ λ z. here (ap (λ v. n % v) (sym (==-eq e)) ∙ z)
  | inr e ↦ clear d big (ground (arith, small, e))
]

-- A turn at `i`, below which there is no divisor.
turn :
    (k i n : ℕ)
    → 1 < i
    → i ≤ root_63
    → 1 < n
    → n < root_63 * root_63
    → NoDivisor n i
    → (i * i ≤ n → NoDivisor n (suc i) → Decides (is_prime_from k (suc i) n) n)
    → Decides (is_prime_from (suc k) i n) n
turn k i n two root one bound clear further =
    let (square, remainder, more) = turn_exact i n root bound in
    elim (Bool-cases (leb (i * i) n)) [
      | inr e ↦ (
        true,
        last_step k i n (square ∙ e),
        ((λ _. (one, no_divisor n i (ground (arith, e)) clear)), (λ _. refl)),
      )
      | inl e ↦ elim (Bool-cases (n % i == 0)) [
        | inl z ↦
            let divides : n % i ≡ 0 = ground (arith, z) in
            let above : i * i ≤ n = ground (arith, e) in
            let proper : i < n = omega (arith, two, above, mul-le-mul_right i two) in
            (
              false,
              divides_step k i n (square ∙ e) (remainder ∙ divides),
              ((λ h. absurd (ground (arith, h))), (λ h. absurd (h.1 i two proper divides))),
            )
        | inr z ↦
            let no : n % i ≢ 0 = ground (arith, z) in
            let (b, run, iff) = further (ground (arith, e)) (clear_next n i no clear) in
            (
              b,
              next_step k i n (square ∙ e) (ap (λ v. v == 0) remainder ∙ z)
                  ∙ ap (λ j. is_prime_from k j n) more
                  ∙ run,
              iff,
            )
      ]
    ]

loop :
    (k i n : ℕ)
    → 1 < i
    → i ≤ root_63
    → 1 < n
    → n < root_63 * root_63
    → n < (i + k) * (i + k)
    → NoDivisor n i
    → Decides (is_prime_from (suc k) i n) n
loop zero i n two root one bound fuel clear = turn zero i n two root one bound clear (λ above _.
    let same : i + 0 ≡ i = omega arith in
    let low : n < i * i = subst (λ j. n < j * j) same fuel in absurd (omega (arith, above, low)))
loop (suc k) i n two root one bound fuel clear =
    turn (suc k) i n two root one bound clear (λ above next.
      let same : i + suc k ≡ suc i + k = omega arith in
      let small = root_small i n above bound in
      loop k (suc i) n (omega (arith, two)) (omega (arith, small)) one bound
        (subst (λ j. n < j * j) same fuel) next)

start_low : (fuel n : ℕ) → le_64 n 1 ≡ true → is_prime fuel n ≡ some false
unfolding is_prime
start_low fuel n h = rw h

start_loop : (fuel n : ℕ) → le_64 n 1 ≡ false → is_prime fuel n ≡ is_prime_from fuel 2 n
unfolding is_prime
start_loop fuel n h = rw h

-- On fuel whose successor has a square above the number, `isPrime` of a number below 3037000499 squared
-- ends, and says yes exactly when the number is at least 2 and has no proper divisor but 1.
pub is_prime-IsPrime :
    (fuel n : ℕ)
    → 0 < fuel
    → n < suc fuel * suc fuel
    → n < root_63 * root_63
    → Decides (is_prime fuel n) n
is_prime-IsPrime zero n some_fuel enough bound = absurd (omega arith)
is_prime-IsPrime (suc k) n some_fuel enough bound = elim (Bool-cases (leb n 1)) [
  | inl e ↦ (
    false,
    start_low (suc k) n (le_64_small n 1 (omega (arith, bound)) (omega arith) ∙ e),
    ((λ h. absurd (ground (arith, h))), (λ h. absurd (ground (arith, h.0, e)))),
  )
  | inr e ↦
      let (b, run, iff) =
        loop k 2 n (omega arith) (omega arith) (ground (arith, e)) bound
          (subst (λ j. n < j * j) (omega arith) enough) (λ d big small. absurd (omega arith)) in
      (
        b,
        start_loop (suc k) n (le_64_small n 1 (omega (arith, bound)) (omega arith) ∙ e) ∙ run,
        iff,
      )
]
