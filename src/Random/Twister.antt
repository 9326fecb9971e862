-- ===== src/Random/Twister.antt =====
-- random/random.go: the Mersenne twister. A word is a number below 2 ^ 64; the seed that the generators share is
-- passed along; `none` is an index out of range, where the code panics.
use Prim.Native.Nat.{bit_xor, bit_and}
use touch_go_core.Prelude.{
  ℕ, zero, suc, ◌+◌, ◌-◌, ◌%◌, List, [], ◌∷◌, Option, some, ◌>>=◌, if◌then◌else◌, ◌==◌, ltb,
  get_elem?, set,
}
use touch_go_core.Random.Word.{two_63, add_64, mul_64, shift_left, shift_right}

abbrev pub n_words : ℕ
n_words = 312

abbrev pub m_words : ℕ
m_words = 156

abbrev pub matrix_a : ℕ
matrix_a = 0xb5026f5aa96619e9

abbrev pub mask : ℕ
mask = 6364136223846793005

abbrev pub upper_mask : ℕ
upper_mask = 2147483647

abbrev pub lower_mask : ℕ
lower_mask = 2147483647

abbrev pub mask_b : ℕ
mask_b = 0x71d67fffeda60000

abbrev pub mask_c : ℕ
mask_c = 0xfff7eee000000000

pub record MersenneTwister : Type 0 where
  pub mt : List ℕ
  pub index : ℕ

-- The words from the index `i` on, behind the word `before`.
unfoldable pub seed_words : (count i before : ℕ) → List ℕ
seed_words zero i before = []
seed_words (suc n) i before =
    let w = mul_64 mask (add_64 (bit_xor before (shift_right before 62)) i) in
    w ∷ seed_words n (suc i) w

-- The new word at the index `i`.
unfoldable pub twisted_word : List ℕ → ℕ → Option ℕ
twisted_word mt i = do
  upper ← get_elem? mt i
  lower ← get_elem? mt ((i + 1) % n_words)
  far ← get_elem? mt ((i + m_words) % n_words)
  let x = add_64 (bit_and upper upper_mask) (bit_and lower lower_mask)
  let xa = shift_right x 1
  some (bit_xor far (if x % 2 == 0 then xa else bit_xor xa matrix_a))

-- The loop from the index `i` on.
unfoldable pub twist_from : (count i : ℕ) → List ℕ → Option (List ℕ)
twist_from zero i mt = some mt
twist_from (suc n) i mt = do w ← twisted_word mt i; twist_from n (suc i) (set mt i w)

unfoldable pub twist : MersenneTwister → Option MersenneTwister
twist tw = do mt ← twist_from n_words 0 tw.mt; some (record { mt = mt; index = 0 })

-- The four changes of a word.
unfoldable pub temper : ℕ → ℕ
temper y =
    let y1 = bit_xor y (shift_right y 29) in
    let y2 = bit_xor y1 (bit_and (shift_left y1 17) mask_b) in
    let y3 = bit_xor y2 (bit_and (shift_left y2 37) mask_c) in bit_xor y3 (shift_right y3 43)

-- The word at the index, which stays changed.
unfoldable pub draw : ℕ → MersenneTwister → (seed : ℕ) → Option (ℕ × MersenneTwister × ℕ)
draw i tw seed = do
  y ← get_elem? tw.mt i
  let w = temper y
  some (w % two_63, record tw { mt = set tw.mt i w }, add_64 seed (w % 65536))

-- The number, and what the generator and the seed are then.
unfoldable pub next_int64 : MersenneTwister → (seed : ℕ) → Option (ℕ × MersenneTwister × ℕ)
next_int64 tw seed =
    let next = draw tw.index (record tw { index = tw.index + 1 }) seed in
    let again = twist tw >>= λ t. draw 0 t seed in if ltb tw.index n_words then next else again

unfoldable pub skip_numbers : ℕ → MersenneTwister → (seed : ℕ) → Option (MersenneTwister × ℕ)
skip_numbers zero tw seed = some (tw, seed)
skip_numbers (suc n) tw seed = do next ← next_int64 tw seed; skip_numbers n next.1 next.2

unfoldable pub new_mersenne_twister : (seed : ℕ) → Option (MersenneTwister × ℕ)
new_mersenne_twister seed =
    skip_numbers n_words (record { mt = seed ∷ seed_words (n_words - 1) 1 seed; index = 0 }) seed
