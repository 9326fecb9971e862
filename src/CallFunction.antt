-- ===== src/CallFunction.antt =====
-- util/callback.go: functions registered under a key, and Do, which calls them. Keys are tokens. The
-- functions and what the reflection tells of values and types are parameters; a nil result of a call
-- is none.
pub mod Order
mod Tests
use touch_go_core.Prelude.{
  ℕ, Bool, true, false, not, ◌&&◌, Option, none, some, List, [], ◌∷◌, ◌++◌, ◌==◌, if◌then◌else◌,
  ltb, length, take, ◌>>=◌,
}

-- What `reflect` says: a nil argument is not valid, and its `Type` panics.
pub record Reflection (V Ty : Type 0) : Type 0 where
  pub is_valid : V → Bool
  pub assignable_to : V → Ty → Bool
  pub convertible_to : V → Ty → Bool
  pub convert : V → Ty → V
  pub zero : Ty → V

-- A call gives its results and the new state of the program; `none` is a panic.
pub record Fn (V Ty S : Type 0) : Type 0 where
  pub in_types : List Ty
  pub call : List V → S → Option (Option (List V)) × S

module _ {V Ty S : Type 0} where
  -- The entries: for each key the functions in the order of their registration.
  unfoldable pub load : ℕ → List (ℕ × List (Fn V Ty S)) → Option (List (Fn V Ty S))
  load k [] = none
  load k (e ∷ es) = if k == e.0 then some e.1 else load k es

  unfoldable pub register :
      ℕ → Fn V Ty S → List (ℕ × List (Fn V Ty S)) → List (ℕ × List (Fn V Ty S))
  register k f [] = (k, f ∷ []) ∷ []
  register k f (e ∷ es) = if k == e.0 then (k, e.1 ++ f ∷ []) ∷ es else e ∷ register k f es

module _ {V Ty : Type 0} (reflection : Reflection V Ty) where
  -- An argument for a parameter; `none` is the panic of `Type` on a nil argument.
  unfoldable pub convert_arg : V → Ty → Option V
  convert_arg v t =
      if reflection.is_valid v && reflection.assignable_to v t
      then some v
      else if reflection.is_valid v && reflection.convertible_to v t
      then some (reflection.convert v t)
      else if reflection.is_valid v
      then some (reflection.zero t)
      else none

  unfoldable pub convert_args : List V → List Ty → Option (List V)
  convert_args vs [] = some []
  convert_args [] (t ∷ ts) = none
  convert_args (v ∷ vs) (t ∷ ts) = do
    a ← convert_arg v t
    rest ← convert_args vs ts
    some (a ∷ rest)

-- After a panic no further function is called.
abbrev pub go_on :
    {V S : Type 0}
    → (Option (List V) → S → Option (Option (List V)) × S)
    → Option (Option (List V)) × S
    → Option (Option (List V)) × S
go_on next (none, s) = (none, s)
go_on next (some last, s) = next last s

-- The recovery makes a panic, and a nil result, the answer `(nil, false)`.
unfoldable pub answer : {V : Type 0} → Option (Option (List V)) → Option (List V)
answer none = none
answer (some last) = last

module _ {V Ty S : Type 0} (reflection : Reflection V Ty) where
  -- One turn of the loop: the last result, or `none` for a panic, and the state.
  unfoldable pub call_one : List V → Fn V Ty S → Option (List V) → S → Option (Option (List V)) × S
  call_one args f last s =
      if ltb (length args) (length f.in_types)
      then (some last, s)
      else elim (convert_args reflection (take (length f.in_types) args) f.in_types) [
        | none ↦ (none, s)
        | some converted ↦ f.call converted s
      ]

  unfoldable pub call_all :
      List V → List (Fn V Ty S) → Option (List V) → S → Option (Option (List V)) × S
  call_all args [] last s = (some last, s)
  call_all args (f ∷ fs) last s = go_on (call_all args fs) (call_one args f last s)

  -- `Do`: the results with true, or `none` for `(nil, false)`.
  unfoldable pub do_calls : ℕ → List V → List (ℕ × List (Fn V Ty S)) → S → Option (List V) × S
  do_calls k args entries s = elim (load k entries) [
    | none ↦ (none, s)
    | some fs ↦ let r = call_all args fs none s in (answer r.0, r.1)
  ]
