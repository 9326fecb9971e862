-- ===== src/Random/Bounds.antt =====
-- The generators of random/random.go and random/interface.go never run out of their arrays, and their numbers are in
-- range.
use Prim.Native.Nat.{bit_xor, bit_and}
use mathlib.Core.Path.{subst}
use native.Mathlib.Nat.{mod-lt, div-le_self}
use touch_go_core.Prelude.{
  ℕ, zero, suc, ◌+◌, ◌-◌, ◌*◌, ◌%◌, ◌^◌, ◌<◌, ◌≤◌, List, [], ◌∷◌, length, length-set, Option, some,
  true, false, if◌then◌else◌, ◌==◌, ltb, get_elem?, set, Bool-cases, inl, inr, ◌≡◌, refl, sym, ap,
  ◌∙◌, arith,
}
use touch_go_core.Random.Word.{two_63, two_64, add_64, mul_64, shift_left, shift_right}
use touch_go_core.Random.Bits.{bit_xor-bound, bit_and-bound}
use touch_go_core.Random.Twister.{
  MersenneTwister, n_words, m_words, matrix_a, mask, upper_mask, lower_mask, mask_b, mask_c,
  seed_words, twisted_word, twist_from, twist, temper, draw, next_int64, skip_numbers,
  new_mersenne_twister,
}

abbrev AllWords : List ℕ → Type 0
AllWords [] = Unit {0}
AllWords (w ∷ ws) = (w < two_64) × AllWords ws

get_word :
    (ws : List ℕ) (i : ℕ)
    → AllWords ws
    → i < length ws
    → (w : ℕ) × (get_elem? ws i ≡ some w) × (w < two_64)
get_word [] i all h = absurd (omega (arith, h))
get_word (w ∷ ws) zero all h = (w, refl, all.0)
get_word (w ∷ ws) (suc i) all h = get_word ws i all.1 (omega (arith, h))

set-AllWords : (ws : List ℕ) (i w : ℕ) → AllWords ws → w < two_64 → AllWords (set ws i w)
set-AllWords [] i w all h = tt
set-AllWords (v ∷ ws) zero w all h = (h, all.1)
set-AllWords (v ∷ ws) (suc i) w all h = (all.0, set-AllWords ws i w all.1 h)

xor_word : (a b : ℕ) → a < two_64 → b < two_64 → bit_xor a b < two_64
xor_word a b h k = bit_xor-bound 64 a b h k

and_word : (a b : ℕ) → a < two_64 → b < two_64 → bit_and a b < two_64
and_word a b h k = bit_and-bound 64 a b h k

left_word : (a k : ℕ) → shift_left a k < two_64
unfolding shift_left
left_word a k = mod-lt (a * 2 ^ k) (omega arith)

right_word : (a k : ℕ) → a < two_64 → shift_right a k < two_64
unfolding shift_right
right_word a k h = omega (arith, h, div-le_self a (2 ^ k))

temper_word : (y : ℕ) → y < two_64 → temper y < two_64
unfolding temper
temper_word y h =
    let y1 = xor_word y (shift_right y 29) h (right_word y 29 h) in
    let a = bit_xor y (shift_right y 29) in
    let y2 =
      xor_word a (bit_and (shift_left a 17) mask_b) y1
        (and_word (shift_left a 17) mask_b (left_word a 17) (omega arith)) in
    let b = bit_xor a (bit_and (shift_left a 17) mask_b) in
    let y3 =
      xor_word b (bit_and (shift_left b 37) mask_c) y2
        (and_word (shift_left b 37) mask_c (left_word b 37) (omega arith)) in
    let c = bit_xor b (bit_and (shift_left b 37) mask_c) in
    xor_word c (shift_right c 43) y3 (right_word c 43 y3)

abbrev half_of : ℕ → ℕ
half_of x = let xa = shift_right x 1 in if x % 2 == 0 then xa else bit_xor xa matrix_a

half_word : (x : ℕ) → x < two_64 → half_of x < two_64
half_word x h = elim (Bool-cases (x % 2 == 0)) [
  | inl e ↦ rw e (right_word x 1 h)
  | inr e ↦ rw e (xor_word (shift_right x 1) matrix_a (right_word x 1 h) (omega arith))
]

sum_word : (a b : ℕ) → add_64 a b < two_64
unfolding add_64
sum_word a b = mod-lt (a + b) (omega arith)

abbrev pub Array : List ℕ → Type 0
Array ws = (length ws ≡ n_words) × AllWords ws

twisted_word_run :
    (ws : List ℕ) (i upper lower far : ℕ)
    → get_elem? ws i ≡ some upper
    → get_elem? ws ((i + 1) % n_words) ≡ some lower
    → get_elem? ws ((i + m_words) % n_words) ≡ some far
    → twisted_word ws i
      ≡ some (bit_xor far (half_of (add_64 (bit_and upper upper_mask) (bit_and lower lower_mask))))
unfolding twisted_word
twisted_word_run ws i upper lower far a b c = rw (a, b, c)

twisted :
    (ws : List ℕ) (i : ℕ)
    → Array ws
    → i < n_words
    → (w : ℕ) × (twisted_word ws i ≡ some w) × (w < two_64)
twisted ws i (len, all) h =
    let (upper, e1, b1) = get_word ws i all (omega (arith, len, h)) in
    let (lower, e2, b2) = get_word ws ((i + 1) % n_words) all (omega (arith, len)) in
    let (far, e3, b3) = get_word ws ((i + m_words) % n_words) all (omega (arith, len)) in
    let x = add_64 (bit_and upper upper_mask) (bit_and lower lower_mask) in
    (
      bit_xor far (half_of x),
      twisted_word_run ws i upper lower far e1 e2 e3,
      xor_word far (half_of x) b3
          (half_word x (sum_word (bit_and upper upper_mask) (bit_and lower lower_mask))),
    )

twist_from-suc :
    (n i w : ℕ) (ws : List ℕ)
    → twisted_word ws i ≡ some w
    → twist_from (suc n) i ws ≡ twist_from n (suc i) (set ws i w)
unfolding twist_from
twist_from-suc n i w ws e = rw (twist_from, e)

twist_from_done : (i : ℕ) (ws : List ℕ) → twist_from zero i ws ≡ some ws
unfolding twist_from
twist_from_done i ws = refl

set-Array : (ws : List ℕ) (i w : ℕ) → Array ws → w < two_64 → Array (set ws i w)
set-Array ws i w (len, all) h = (length-set ws i w ∙ len, set-AllWords ws i w all h)

twist_from-Array :
    (n i : ℕ) (ws : List ℕ)
    → i + n ≤ n_words
    → Array ws
    → (ws' : List ℕ) × (twist_from n i ws ≡ some ws') × Array ws'
twist_from-Array zero i ws h array = (ws, twist_from_done i ws, array)
twist_from-Array (suc n) i ws h array =
    let (w, e, b) = twisted ws i array (omega (arith, h)) in
    let (ws', run, array') =
      twist_from-Array n (suc i) (set ws i w) (omega (arith, h)) (set-Array ws i w array b) in
    (ws', twist_from-suc n i w ws e ∙ run, array')

-- What a generator of `NewMersenneTwister` is.
abbrev pub WellFormed : MersenneTwister → Type 0
WellFormed tw = Array tw.mt × (tw.index ≤ n_words)

-- What a number comes with.
abbrev pub Draws : Option (ℕ × MersenneTwister × ℕ) → Type 0
Draws o =
    (v : ℕ) × (tw' : MersenneTwister) × (seed' : ℕ) × (o ≡ some (v, tw', seed'))
    × (v < two_63)
    × WellFormed tw'

draw_run :
    (i : ℕ) (tw : MersenneTwister) (seed y : ℕ)
    → get_elem? tw.mt i ≡ some y
    → draw i tw seed
      ≡ some (
        temper y % two_63,
        record tw { mt = set tw.mt i (temper y) },
        add_64 seed (temper y % 65536),
      )
unfolding draw
draw_run i tw seed y e = rw e

draw-Draws :
    (i : ℕ) (tw : MersenneTwister) (seed : ℕ) → i < n_words → WellFormed tw → Draws (draw i tw seed)
draw-Draws i tw seed h ((len, all), high) =
    let (y, e, b) = get_word tw.mt i all (omega (arith, len, h)) in
    (
      temper y % two_63,
      record tw { mt = set tw.mt i (temper y) },
      add_64 seed (temper y % 65536),
      draw_run i tw seed y e,
      mod-lt (temper y) (omega arith),
      (set-Array tw.mt i (temper y) (len, all) (temper_word y b), high),
    )

next_plain :
    (tw : MersenneTwister) (seed : ℕ)
    → ltb tw.index n_words ≡ true
    → next_int64 tw seed ≡ draw tw.index (record tw { index = tw.index + 1 }) seed
unfolding next_int64
next_plain tw seed h = rw h

next_again :
    (tw : MersenneTwister) (seed : ℕ) (ws : List ℕ)
    → ltb tw.index n_words ≡ false
    → twist_from n_words 0 tw.mt ≡ some ws
    → next_int64 tw seed ≡ draw 0 (record { mt = ws; index = 0 }) seed
unfolding next_int64 twist
next_again tw seed ws h e = rw (h, e)

-- The twister of 312 words of 64 bits with an index of at most 312 always gives a number, of at most 63 bits, and is
-- one again; neither the numbers nor a twist leave the array.
pub next_int64-WellFormed :
    (tw : MersenneTwister) (seed : ℕ) → WellFormed tw → Draws (next_int64 tw seed)
next_int64-WellFormed tw seed (array, high) = elim (Bool-cases (ltb tw.index n_words)) [
  | inl e ↦
      let low : tw.index < n_words = ground (arith, e) in
      subst Draws (sym (next_plain tw seed e)) (
        draw-Draws tw.index (record tw { index = tw.index + 1 }) seed low
          (array, omega (arith, low)))
  | inr e ↦
      let (ws, run, array') = twist_from-Array n_words 0 tw.mt (omega arith) array in
      subst Draws (sym (next_again tw seed ws e run))
        (draw-Draws 0 (record { mt = ws; index = 0 }) seed (omega arith) (array', omega arith))
]

skip_numbers_run :
    (n : ℕ) (tw tw' : MersenneTwister) (seed seed' v : ℕ)
    → next_int64 tw seed ≡ some (v, tw', seed')
    → skip_numbers (suc n) tw seed ≡ skip_numbers n tw' seed'
unfolding skip_numbers
skip_numbers_run n tw tw' seed seed' v e = rw (skip_numbers, e)

skip_numbers_done : (tw : MersenneTwister) (seed : ℕ) → skip_numbers zero tw seed ≡ some (tw, seed)
unfolding skip_numbers
skip_numbers_done tw seed = refl

skip_numbers-WellFormed :
    (n : ℕ) (tw : MersenneTwister) (seed : ℕ)
    → WellFormed tw
    → (tw' : MersenneTwister) × (seed' : ℕ) × (skip_numbers n tw seed ≡ some (tw', seed'))
      × WellFormed tw'
skip_numbers-WellFormed zero tw seed w = (tw, seed, skip_numbers_done tw seed, w)
skip_numbers-WellFormed (suc n) tw seed w =
    let (v, tw1, seed1, run, _, w1) = next_int64-WellFormed tw seed w in
    let (tw', seed', on, w') = skip_numbers-WellFormed n tw1 seed1 w1 in
    (tw', seed', skip_numbers_run n tw tw1 seed seed1 v run ∙ on, w')

product_word : (a b : ℕ) → mul_64 a b < two_64
unfolding mul_64
product_word a b = mod-lt (a * b) (omega arith)

seed_words-Array :
    (n i before : ℕ) → (length (seed_words n i before) ≡ n) × AllWords (seed_words n i before)
unfolding seed_words
seed_words-Array zero i before = (refl, tt)
seed_words-Array (suc n) i before =
    let w = mul_64 mask (add_64 (bit_xor before (shift_right before 62)) i) in
    let (len, all) = seed_words-Array n (suc i) w in
    (ap suc len, (product_word mask (add_64 (bit_xor before (shift_right before 62)) i), all))

-- A new twister of any seed.
pub new_mersenne_twister-WellFormed :
    (seed : ℕ)
    → seed < two_64
    → (tw : MersenneTwister) × (seed' : ℕ) × (new_mersenne_twister seed ≡ some (tw, seed'))
      × WellFormed tw
unfolding new_mersenne_twister
new_mersenne_twister-WellFormed seed h =
    let (len, all) = seed_words-Array (n_words - 1) 1 seed in
    skip_numbers-WellFormed n_words
      (record { mt = seed ∷ seed_words (n_words - 1) 1 seed; index = 0 }) seed
      ((omega (arith, len), (h, all)), omega arith)
