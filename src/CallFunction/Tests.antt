-- ===== src/CallFunction/Tests.antt =====
-- Concrete functions, and the theorem at them.
use touch_go_core.Prelude.{ℕ, true, none, some, List, [], ◌∷◌, ◌≡◌, refl, ◌++◌}
use touch_go_core.CallFunction.{Fn, Reflection, register, do_calls}
use touch_go_core.CallFunction.Order.{Answers, functions_of, do_calls-register}

-- Arguments are numbers of one type, all valid; the state is what the functions have written.
abbrev numbers : Reflection ℕ (Unit {0})
numbers = record {
  is_valid = λ v. true;
  assignable_to = λ v t. true;
  convertible_to = λ v t. true;
  convert = λ v t. v;
  zero = λ t. 0;
}

abbrev writer : ℕ → Fn ℕ (Unit {0}) (List ℕ)
writer tag = record { in_types = tt ∷ []; call = λ args s. (some (some args), s ++ tag ∷ args) }

abbrev one_function : List (ℕ × List (Fn ℕ (Unit {0}) (List ℕ)))
one_function = (5, writer 100 ∷ []) ∷ []

do_calls-register_example :
    Answers numbers
      (7 ∷ 8 ∷ [])
      (functions_of 5 one_function ++ writer 200 ∷ [])
      none
      []
      (do_calls numbers 5 (7 ∷ 8 ∷ []) (register 5 (writer 200) one_function) [])
    × (do_calls numbers 6 (7 ∷ 8 ∷ []) (register 5 (writer 200) one_function) []
        ≡ do_calls numbers 6 (7 ∷ 8 ∷ []) one_function [])
do_calls-register_example =
    do_calls-register numbers 5 6 (writer 200) (7 ∷ 8 ∷ []) one_function [] refl
