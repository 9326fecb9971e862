-- ===== src/Ranking/Tree/Mapping.antt =====
-- The map from ids to infos of a RankTree of ranking/ranking.go.
use touch_go_core.Prelude.{
  List, [], ◌∷◌, Option, none, some, if◌then◌else◌, true, false, ◌≡◌, refl, ap, ◌∙◌, arith,
  Bool-cases, inl, inr,
}
use touch_go_core.Prelude.Int.{ℤ, eq_ℤ}
use touch_go_core.Prelude.Ptr.{Ptr}
use touch_go_core.Ranking.Tree.{load, store, delete}
use touch_go_core.Ranking.Tree.Entries.{eq_ℤ-eq}

abbrev pub DistinctKeys : List (ℤ × Ptr) → Type 0
DistinctKeys [] = Unit {0}
DistinctKeys (e ∷ es) = (load e.0 es ≡ none) × DistinctKeys es

pub load-store :
    (v uid : ℤ) (p : Ptr) (m : List (ℤ × Ptr))
    → load v (store uid p m) ≡ (if eq_ℤ v uid then some p else load v m)
unfolding load store
load-store v uid p [] = refl
load-store v uid p (e ∷ es) = elim (Bool-cases (eq_ℤ uid e.0)) [
  | inl b ↦ rw b (same_key b (load v es))
  | inr b ↦ rw (b, load-store v uid p es) (other_key b (load v es))
]
  where
    same_key :
        eq_ℤ uid e.0 ≡ true
        → (o : Option Ptr)
        → (if eq_ℤ v uid then some p else o)
          ≡ (if eq_ℤ v uid then some p else if eq_ℤ v e.0 then some e.1 else o)
    same_key b o = ground (arith, b)

    other_key :
        eq_ℤ uid e.0 ≡ false
        → (o : Option Ptr)
        → (if eq_ℤ v e.0 then some e.1 else if eq_ℤ v uid then some p else o)
          ≡ (if eq_ℤ v uid then some p else if eq_ℤ v e.0 then some e.1 else o)
    other_key b o = ground (arith, b)

pub load-delete :
    (v uid : ℤ) (m : List (ℤ × Ptr))
    → DistinctKeys m
    → load v (delete uid m) ≡ (if eq_ℤ v uid then none else load v m)
unfolding load delete
load-delete v uid [] d = ground arith
load-delete v uid (e ∷ es) d = elim (Bool-cases (eq_ℤ uid e.0)) [
  | inl b ↦ rw b (gone b (load v es) (λ k. ap (λ z. load z es) (eq_ℤ-eq v e.0 k) ∙ d.0))
  | inr b ↦ rw (b, load-delete v uid es d.1) (apart b (load v es))
]
  where
    gone :
        eq_ℤ uid e.0 ≡ true
        → (o : Option Ptr) → (eq_ℤ v e.0 ≡ true → o ≡ none)
        → o ≡ (if eq_ℤ v uid then none else if eq_ℤ v e.0 then some e.1 else o)
    gone b o h = ground (arith, b, h)

    apart :
        eq_ℤ uid e.0 ≡ false
        → (o : Option Ptr)
        → (if eq_ℤ v e.0 then some e.1 else if eq_ℤ v uid then none else o)
          ≡ (if eq_ℤ v uid then none else if eq_ℤ v e.0 then some e.1 else o)
    apart b o = ground (arith, b)

store_here :
    (uid : ℤ) (p : Ptr) (e : ℤ × Ptr) (es : List (ℤ × Ptr))
    → eq_ℤ uid e.0 ≡ true
    → store uid p (e ∷ es) ≡ (uid, p) ∷ es
unfolding store
store_here uid p e es b = rw b

store_past :
    (uid : ℤ) (p : Ptr) (e : ℤ × Ptr) (es : List (ℤ × Ptr))
    → eq_ℤ uid e.0 ≡ false
    → store uid p (e ∷ es) ≡ e ∷ store uid p es
unfolding store
store_past uid p e es b = rw b

pub store-DistinctKeys :
    (uid : ℤ) (p : Ptr) (m : List (ℤ × Ptr)) → DistinctKeys m → DistinctKeys (store uid p m)
unfolding load store
store-DistinctKeys uid p [] d = (refl, tt)
store-DistinctKeys uid p (e ∷ es) d = elim (Bool-cases (eq_ℤ uid e.0)) [
  | inl b ↦ rw (store_here uid p e es b) (ap (λ z. load z es) (eq_ℤ-eq uid e.0 b) ∙ d.0, d.1)
  | inr b ↦
      let apart : eq_ℤ e.0 uid ≡ false = ground (arith, b) in
      rw (store_past uid p e es b)
        (load-store e.0 uid p es ∙ rw (apart, d.0), store-DistinctKeys uid p es d.1)
]

pub delete-DistinctKeys :
    (uid : ℤ) (m : List (ℤ × Ptr)) → DistinctKeys m → DistinctKeys (delete uid m)
unfolding load delete
delete-DistinctKeys uid [] d = tt
delete-DistinctKeys uid (e ∷ es) d = elim (Bool-cases (eq_ℤ uid e.0)) [
  | inl b ↦ rw b d.1
  | inr b ↦
      let apart : eq_ℤ e.0 uid ≡ false = ground (arith, b) in
      rw b (load-delete e.0 uid es d.1 ∙ rw (apart, d.0), delete-DistinctKeys uid es d.1)
]
