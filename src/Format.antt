-- ===== src/Format.antt =====
-- util/string.go: Sprintf, which puts arguments in the places of the question marks of a text.
pub mod Fill
use mathlib.Core.Option
use touch_go_core.Prelude.{
  ℕ, zero, suc, ◌+◌, ◌/◌, ◌%◌, List, [], ◌∷◌, ◌++◌, Option, none, some, ◌==◌, if◌then◌else◌, ltb,
  Bytes,
}
use touch_go_core.Prelude.Int.{ℤ, pos, negsuc}

-- A value of an `interface{}`. A float stands as the text that `%f` makes of it, a time as the text
-- of its format.
pub data Value : Type 0 where
  text : Bytes → Value
  time : Bytes → Value
  real : Bytes → Value
  number : ℤ → Value

abbrev pub question_mark : ℕ
question_mark = 63

abbrev pub percent : ℕ
percent = 37

abbrev pub quote : ℕ
quote = 39

-- The decimal digits; a number has at most as many as its successor.
unfoldable pub digits : (fuel : ℕ) → ℕ → Bytes
digits zero n = []
digits (suc k) n =
    let high = digits k (n / 10) in if ltb n 10 then (48 + n) ∷ [] else high ++ (48 + n % 10) ∷ []

unfoldable pub decimal : ℤ → Bytes
decimal (pos n) = digits (suc n) n
decimal (negsuc n) = 45 ∷ digits (suc (suc n)) (suc n)

unfoldable pub quoted : Bytes → Bytes
quoted b = quote ∷ b ++ quote ∷ []

-- What the verb that stands for the value prints.
unfoldable pub render : Value → Bytes
render (text b) = quoted b
render (time b) = quoted b
render (real b) = b
render (number z) = decimal z

-- The pass over the format, and `fmt.Sprintf` of its result. `none`: a percent sign of the format,
-- which `fmt.Sprintf` would read as a verb.
unfoldable pub fill : Bytes → List Value → Option Bytes
fill [] args = some []
fill (c ∷ cs) [] =
    let rest = fill cs [] in if c == percent then none else Option.map (λ r. c ∷ r) rest
fill (c ∷ cs) (a ∷ args) =
    let next = fill cs args in
    let same = fill cs (a ∷ args) in
    if c == question_mark
    then Option.map (λ r. render a ++ r) next
    else if c == percent
    then none
    else Option.map (λ r. c ∷ r) same

unfoldable pub sprintf : Bytes → List Value → Option Bytes
sprintf format [] = some format
sprintf format (a ∷ args) = fill format (a ∷ args)
