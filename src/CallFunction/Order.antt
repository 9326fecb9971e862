-- ===== src/CallFunction/Order.antt =====
-- The order in which Do of util/callback.go calls the functions of a key.
use touch_go_core.Prelude.{
  ◌⊎◌, ◌>>=◌, ltb, ℕ, true, false, ◌<◌, ◌≤◌, length, take, Option, none, some, List, [], ◌∷◌, ◌++◌,
  ◌==◌, ◌≡◌, refl, arith, Bool-cases, inl, inr,
}
use touch_go_core.Prelude.Ptr.{==-refl}
use touch_go_core.CallFunction.{
  Fn, Reflection, load, register, convert_arg, convert_args, call_one, call_all, answer, do_calls,
  go_on,
}

abbrev all_of : {V Ty S : Type 0} → Option (List (Fn V Ty S)) → List (Fn V Ty S)
all_of none = []
all_of (some fs) = fs

-- The functions of a key; a key with none has the empty list.
unfoldable pub functions_of : {V Ty S : Type 0} → ℕ → List (ℕ × List (Fn V Ty S)) → List (Fn V Ty S)
functions_of k entries = all_of (load k entries)

module _ {V Ty S : Type 0} where
  load-register :
      (k : ℕ) (f : Fn V Ty S) (es : List (ℕ × List (Fn V Ty S)))
      → load k (register k f es) ≡ some (functions_of k es ++ f ∷ [])
  unfolding load register functions_of
  load-register k f [] = rw (==-refl k)
  load-register k f (e ∷ es) = elim (Bool-cases (k == e.0)) [
    | inl h ↦ rw (functions_of, h, ==-refl k)
    | inr h ↦ rw (functions_of, h) (rw h (load-register k f es))
  ]

  load-register_ne :
      (k j : ℕ) (f : Fn V Ty S) (es : List (ℕ × List (Fn V Ty S)))
      → (j == k) ≡ false
      → load j (register k f es) ≡ load j es
  unfolding load register
  load-register_ne k j f [] ne = rw ne
  load-register_ne k j f (e ∷ es) ne = elim (Bool-cases (k == e.0)) [
    | inl h ↦ let apart : (j == e.0) ≡ false = ground (arith, h, ne) in rw (h, ne, apart)
    | inr h ↦ rw (h, load-register_ne k j f es ne)
  ]

module _ {V Ty : Type 0} (reflection : Reflection V Ty) where
  -- What a parameter of the type `t` gets for the argument `v`; a nil argument has no such value.
  pub data Passed (v : V) (t : Ty) : V → Type 0 where
    assigned : reflection.is_valid v ≡ true → reflection.assignable_to v t ≡ true → Passed v t v
    converted :
        reflection.is_valid v ≡ true
        → reflection.assignable_to v t ≡ false
        → reflection.convertible_to v t ≡ true
        → Passed v t (reflection.convert v t)
    zeroed :
        reflection.is_valid v ≡ true
        → reflection.assignable_to v t ≡ false
        → reflection.convertible_to v t ≡ false
        → Passed v t (reflection.zero t)

  -- The arguments for the parameters, from the first ones on; `none` when one of them is nil.
  pub data Arguments : List V → List Ty → Option (List V) → Type 0 where
    no_more : (vs : List V) → Arguments vs [] (some [])
    passed :
        (v a : V) (t : Ty) (vs bs : List V) (ts : List Ty)
        → Passed v t a
        → Arguments vs ts (some bs)
        → Arguments (v ∷ vs) (t ∷ ts) (some (a ∷ bs))
    nil_now :
        (v : V) (t : Ty) (vs : List V) (ts : List Ty)
        → reflection.is_valid v ≡ false
        → Arguments (v ∷ vs) (t ∷ ts) none
    nil_later :
        (v a : V) (t : Ty) (vs : List V) (ts : List Ty)
        → Passed v t a
        → Arguments vs ts none
        → Arguments (v ∷ vs) (t ∷ ts) none

  -- What a run of the functions from a last result and a state answers: a function that wants more
  -- arguments than there are is passed over, a nil argument and a panic end the run, and the result of
  -- a call is the last one from there on.
  pub data Answers {S : Type 0} (args : List V)
      : List (Fn V Ty S) → Option (List V) → S → Option (List V) × S → Type 0 where
    ended : (last : Option (List V)) (s : S) → Answers args [] last s (last, s)
    too_few :
        (f : Fn V Ty S) (fs : List (Fn V Ty S)) (last : Option (List V)) (s : S)
        (r : Option (List V) × S)
        → length args < length f.in_types
        → Answers args fs last s r
        → Answers args (f ∷ fs) last s r
    nil_argument :
        (f : Fn V Ty S) (fs : List (Fn V Ty S)) (last : Option (List V)) (s : S)
        → length f.in_types ≤ length args
        → Arguments args f.in_types none
        → Answers args (f ∷ fs) last s (none, s)
    panicked :
        (f : Fn V Ty S) (fs : List (Fn V Ty S)) (last : Option (List V)) (s s' : S) (bs : List V)
        → length f.in_types ≤ length args
        → Arguments args f.in_types (some bs)
        → f.call bs s ≡ (none, s')
        → Answers args (f ∷ fs) last s (none, s')
    called :
        (f : Fn V Ty S) (fs : List (Fn V Ty S)) (last result : Option (List V)) (s s' : S)
        (bs : List V) (r : Option (List V) × S)
        → length f.in_types ≤ length args
        → Arguments args f.in_types (some bs)
        → f.call bs s ≡ (some result, s')
        → Answers args fs result s' r
        → Answers args (f ∷ fs) last s r

module _ {V Ty : Type 0} (reflection : Reflection V Ty) where
  convert_arg-Passed :
      (v : V) (t : Ty)
      → ((a : V) × (convert_arg reflection v t ≡ some a) × Passed reflection v t a)
        ⊎ ((convert_arg reflection v t ≡ none) × (reflection.is_valid v ≡ false))
  unfolding convert_arg
  convert_arg-Passed v t = elim (Bool-cases (reflection.is_valid v)) [
    | inr i ↦ inr (rw i refl, i)
    | inl i ↦ elim (Bool-cases (reflection.assignable_to v t)) [
      | inl a ↦ inl (v, rw (i, a) refl, assigned i a)
      | inr a ↦ elim (Bool-cases (reflection.convertible_to v t)) [
        | inl c ↦ inl (reflection.convert v t, rw (i, a, c) refl, converted i a c)
        | inr c ↦ inl (reflection.zero t, rw (i, a, c) refl, zeroed i a c)
      ]
    ]
  ]

  with_rest :
      (v a : V) (t : Ty) (vs : List V) (ts : List Ty) (o : Option (List V))
      → Passed reflection v t a
      → Arguments reflection vs ts o
      → Arguments reflection (v ∷ vs) (t ∷ ts) (o >>= (λ bs. some (a ∷ bs)))
  with_rest v a t vs ts none h k = nil_later v a t vs ts h k
  with_rest v a t vs ts (some bs) h k = passed v a t vs bs ts h k

  convert_args-Arguments :
      (vs : List V) (ts : List Ty)
      → length ts ≤ length vs
      → Arguments reflection vs ts (convert_args reflection (take (length ts) vs) ts)
  unfolding convert_args
  convert_args-Arguments vs [] h = no_more vs
  convert_args-Arguments [] (t ∷ ts) h = absurd (omega arith)
  convert_args-Arguments (v ∷ vs) (t ∷ ts) h =
      let rest = convert_args-Arguments vs ts (omega arith) in
      elim (convert_arg-Passed v t) [
        | inl w ↦ rw (w.1) (with_rest v w.0 t vs ts _ w.2 rest)
        | inr w ↦ rw (w.0) (nil_now v t vs ts w.1)
      ]

  module _ {S : Type 0} where
    -- The rest of a run behind one call.
    behind_call :
        (args : List V) (f : Fn V Ty S) (fs : List (Fn V Ty S)) (last : Option (List V)) (s : S)
        (bs : List V) (r : Option (Option (List V)) × S)
        → length f.in_types ≤ length args
        → Arguments reflection args f.in_types (some bs)
        → f.call bs s ≡ r
        → ((l : Option (List V)) (s' : S)
            → let q = call_all reflection args fs l s' in
              Answers reflection args fs l s' (answer q.0, q.1))
        → let q = go_on (call_all reflection args fs) r in
          Answers reflection args (f ∷ fs) last s (answer q.0, q.1)
    unfolding answer
    behind_call args f fs last s bs (none, s') h k e ih = panicked f fs last s s' bs h k e
    behind_call args f fs last s bs (some l, s') h k e ih =
        called f fs last l s s' bs _ h k e (ih l s')

    with-Arguments :
        (args : List V) (f : Fn V Ty S) (fs : List (Fn V Ty S)) (last : Option (List V)) (s : S)
        (o : Option (List V))
        → length f.in_types ≤ length args
        → Arguments reflection args f.in_types o
        → ((l : Option (List V)) (s' : S)
            → let q = call_all reflection args fs l s' in
              Answers reflection args fs l s' (answer q.0, q.1))
        → let q =
            go_on
              (call_all reflection args fs)
              (elim o [ none ↦ (none, s) | some bs ↦ f.call bs s ]) in
          Answers reflection args (f ∷ fs) last s (answer q.0, q.1)
    unfolding answer
    with-Arguments args f fs last s none h k ih = nil_argument f fs last s h k
    with-Arguments args f fs last s (some bs) h k ih =
        behind_call args f fs last s bs (f.call bs s) h k refl ih

    call_all-Answers :
        (args : List V) (fs : List (Fn V Ty S)) (last : Option (List V)) (s : S)
        → let q = call_all reflection args fs last s in
          Answers reflection args fs last s (answer q.0, q.1)
    unfolding call_all call_one answer
    call_all-Answers args [] last s = ended last s
    call_all-Answers args (f ∷ fs) last s =
        elim (Bool-cases (ltb (length args) (length f.in_types))) [
          | inl few ↦
              rw few (too_few f fs last s _ (ground arith) (call_all-Answers args fs last s))
          | inr few ↦ rw few (
              with-Arguments args f fs last s _ (ground arith)
                (convert_args-Arguments args f.in_types (ground arith))
                (λ l s'. call_all-Answers args fs l s'))
        ]

  -- Do of a key under which a function was registered runs the functions that were there before, in
  -- their order, and behind them this one. Do of another key is as before.
  pub do_calls-register :
      {S : Type 0} (k j : ℕ) (f : Fn V Ty S) (args : List V) (es : List (ℕ × List (Fn V Ty S)))
      (s : S)
      → (j == k) ≡ false
      → Answers reflection args
          (functions_of k es ++ f ∷ [])
          none
          s
          (do_calls reflection k args (register k f es) s)
        × (do_calls reflection j args (register k f es) s ≡ do_calls reflection j args es s)
  unfolding do_calls
  do_calls-register k j f args es s ne = (
    rw (do_calls, load-register k f es)
        (call_all-Answers args (functions_of k es ++ f ∷ []) none s),
    rw (do_calls, load-register_ne k j f es ne),
  )
