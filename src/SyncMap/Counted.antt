-- ===== src/SyncMap/Counted.antt =====
-- The count of syncmap/map.go, through any sequence of operations that run one after the other.
use touch_go_core.Prelude.{
  ℕ, suc, ◌+◌, ◌-◌, ◌%◌, true, List, [], ◌∷◌, ◌==◌, if◌then◌else◌, ◌≡◌, refl, sym, ap, ◌∙◌, arith,
  length, Bool-cases, Option-cases, inl, inr,
}
use touch_go_core.SyncMap.{
  Map, Operation, store_op, delete_op, clear_op, load_or_store_op, word, load, put, take_out,
  present, store, delete, clear_all, load_or_store, run, run_all, length_of,
}

up : (n : ℕ) → (n % word + 1) % word ≡ suc n % word
up n = omega arith

down : (n : ℕ) → (suc n % word + (word - 1)) % word ≡ n % word
down n = omega arith

module _ {V : Type 0} where
  length-put :
      (k : ℕ) (v : V) (es : List (ℕ × V))
      → length (put k v es) ≡ (if present (load k es) then length es else suc (length es))
  unfolding put load present
  length-put k v [] = refl
  length-put k v (e ∷ es) = elim (Bool-cases (k == e.0)) [
    | inl h ↦ rw h
    | inr h ↦
        rw (h, length-put k v es)
          (elim (Bool-cases (present (load k es))) [ inl p ↦ rw p | inr p ↦ rw p ])
  ]

  length-take_out :
      (k : ℕ) (es : List (ℕ × V))
      → present (load k es) ≡ true
      → suc (length (take_out k es)) ≡ length es
  unfolding take_out load present
  length-take_out k [] p = absurd (ground arith)
  length-take_out k (e ∷ es) p = elim (Bool-cases (k == e.0)) [
    | inl h ↦ rw h
    | inr h ↦ rw h (ap suc (length-take_out k es (rw h at p)))
  ]

  abbrev pub Counted : Map V → Type 0
  Counted m = m.num ≡ length m.entries % word

  store-Counted : (k : ℕ) (v : V) (m : Map V) → Counted m → Counted (store k v m)
  unfolding store
  store-Counted k v m h = elim (Bool-cases (present (load k m.entries))) [
    | inl p ↦ rw (length-put k v m.entries, p) h
    | inr p ↦ rw (length-put k v m.entries, p) (rw h (up (length m.entries)))
  ]

  delete-Counted : (k : ℕ) (m : Map V) → Counted m → Counted (delete k m)
  unfolding delete
  delete-Counted k m h = elim (Bool-cases (present (load k m.entries))) [
    | inl p ↦
        let l = length-take_out k m.entries p in
        rw p (
          ap (λ c. (c + (word - 1)) % word) (h ∙ ap (λ n. n % word) (sym l))
          ∙ down (length (take_out k m.entries)))
    | inr p ↦ rw p h
  ]

  load_or_store-Counted : (k : ℕ) (v : V) (m : Map V) → Counted m → Counted (load_or_store k v m).1
  unfolding load_or_store present
  load_or_store-Counted k v m h = elim (Option-cases (load k m.entries)) [
    | inl e ↦ rw (load_or_store, e, length-put k v m.entries, e) (rw h (up (length m.entries)))
    | inr (old, e) ↦ rw (load_or_store, e) h
  ]

  run-Counted : (o : Operation V) (m : Map V) → Counted m → Counted (run o m)
  unfolding run clear_all
  run-Counted (store_op k v) m h = store-Counted k v m h
  run-Counted (delete_op k) m h = delete-Counted k m h
  run-Counted clear_op m h = refl
  run-Counted (load_or_store_op k v) m h = load_or_store-Counted k v m h

  -- After any sequence of operations, each of which runs alone, Length is the number of the entries,
  -- as a 32-bit number.
  pub run_all-Counted :
      (os : List (Operation V)) (m : Map V)
      → Counted m
      → length_of (run_all os m) ≡ length (run_all os m).entries % word
  unfolding run_all length_of
  run_all-Counted [] m h = h
  run_all-Counted (o ∷ os) m h = run_all-Counted os (run o m) (run-Counted o m h)
