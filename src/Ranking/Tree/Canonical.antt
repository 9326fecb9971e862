-- ===== src/Ranking/Tree/Canonical.antt =====
-- An ordered list of entries is given by what it holds for each id, in whatever order they are added.
use mathlib.Core.Path.{subst}
use touch_go_core.Prelude.{
  List, [], ◌∷◌, Option, none, some, if◌then◌else◌, true, false, ◌≡◌, inl, inr, refl, sym, ap, ◌∙◌,
  arith, Bool-cases,
}
use touch_go_core.Prelude.Int.{ℤ, eq_ℤ}
use touch_go_core.Ranking.Tree.Entries.{
  Entry, entry_before, FirstOf, Ordered, find, DistinctIds, place, add_entry, add_entry-none,
  find-place, Ordered-place, DistinctIds-place, eq_ℤ_refl, eq_ℤ-eq, before_trans, find-head,
  find-behind,
}

-- The entries added one after the other.
abbrev pub add_all : List Entry → List Entry → List Entry
add_all [] es = es
add_all (r ∷ rs) es = add_all rs (add_entry r es)

abbrev pub or_find : Option Entry → Option Entry → Option Entry
or_find none o = o
or_find (some e) o = some e

-- None of the ids is in the list.
abbrev pub Absent : List Entry → List Entry → Type 0
Absent [] es = Unit {0}
Absent (r ∷ rs) es = (find r.id es ≡ none) × Absent rs es

Absent-place :
    (r : Entry) (rs es : List Entry)
    → find r.id rs ≡ none
    → find r.id es ≡ none
    → Absent rs es
    → Absent rs (place r es)
Absent-place r [] es h k a = tt
Absent-place r (x ∷ rs) es h k a =
    let apart : eq_ℤ x.id r.id ≡ false = ground (arith, find-head r.id x rs h) in
    (find-place x.id r es k ∙ rw (apart, a.0), Absent-place r rs es (find-behind r.id x rs h) k a.1)

pub record Added (rs es made : List Entry) : Type 0 where
  pub ordered : Ordered made
  pub ids : DistinctIds made
  pub finds : (uid : ℤ) → find uid made ≡ or_find (find uid rs) (find uid es)

pub add_all-Added :
    (rs es : List Entry)
    → DistinctIds rs
    → Absent rs es
    → Ordered es
    → DistinctIds es
    → Added rs es (add_all rs es)
add_all-Added [] es d a o i = record { ordered = o; ids = i; finds = λ uid. refl }
add_all-Added (r ∷ rs) es d a o i =
    let placed = add_entry-none r es a.0 in
    let rest =
      add_all-Added rs (place r es) d.1 (Absent-place r rs es d.0 a.0 a.1)
        (Ordered-place r es a.0 o) (DistinctIds-place r es a.0 i) in
    subst (λ l. Added (r ∷ rs) es (add_all rs l)) (sym placed)
      (record {
        ordered = rest.ordered;
        ids = rest.ids;
        finds = λ uid.
            rest.finds uid
            ∙ ap (or_find (find uid rs)) (find-place uid r es a.0)
            ∙ swap uid (find uid rs) (find uid es) (find-same uid);
      })
  where
    find-same : (uid : ℤ) → eq_ℤ uid r.id ≡ true → find uid rs ≡ none
    find-same uid e = ap (λ z. find z rs) (eq_ℤ-eq uid r.id e) ∙ d.0

    swap :
        (uid : ℤ) (o o' : Option Entry)
        → (eq_ℤ uid r.id ≡ true → o ≡ none)
        → or_find o (if eq_ℤ uid r.id then some r else o')
          ≡ or_find (if eq_ℤ uid r.id then some r else o) o'
    swap uid o o' h = elim (Bool-cases (eq_ℤ uid r.id)) [ inl e ↦ rw (e, h e) | inr e ↦ rw e ]

before_self : (a : Entry) → entry_before a a ≡ false
before_self a = ground arith

before_asym : (a b : Entry) → entry_before a b ≡ true → entry_before b a ≡ true → ⊥
before_asym a b h k = ground (arith, before_self a, before_trans a b a h k)

some_entry : (a b : Entry) → some a ≡ some b → a ≡ b
some_entry a b h = ap (λ (o : Option Entry). elim o [ none ↦ b | some x ↦ x ]) h

find-here :
    (uid : ℤ) (e : Entry) (es : List Entry) → eq_ℤ uid e.id ≡ true → find uid (e ∷ es) ≡ some e
find-here uid e es h = rw h

find-past :
    (uid : ℤ) (e : Entry) (es : List Entry)
    → eq_ℤ uid e.id ≡ false
    → find uid (e ∷ es) ≡ find uid es
find-past uid e es h = rw h

-- The entry that a list holds for an id is not before the first one.
FirstOf-find :
    (a x : Entry) (es : List Entry) (uid : ℤ)
    → FirstOf a es
    → find uid es ≡ some x
    → entry_before a x ≡ true
FirstOf-find a x [] uid h k = absurd (ground (arith, k))
FirstOf-find a x (e ∷ es) uid h k = elim (Bool-cases (eq_ℤ uid e.id)) [
  | inl b ↦
      let same : e ≡ x = some_entry e x (sym (find-here uid e es b) ∙ k) in
      subst (λ z. entry_before a z ≡ true) same h.0
  | inr b ↦ FirstOf-find a x es uid h.1 (sym (find-past uid e es b) ∙ k)
]

pub Ordered-unique :
    (xs ys : List Entry)
    → Ordered xs
    → Ordered ys
    → DistinctIds xs
    → DistinctIds ys
    → ((uid : ℤ) → find uid xs ≡ find uid ys)
    → xs ≡ ys
Ordered-unique [] [] o p d e h = refl
Ordered-unique [] (y ∷ ys) o p d e h =
    let k = h y.id ∙ find-here y.id y ys (eq_ℤ_refl y.id) in absurd (ground (arith, k))
Ordered-unique (x ∷ xs) [] o p d e h =
    let k = sym (find-here x.id x xs (eq_ℤ_refl x.id)) ∙ h x.id in absurd (ground (arith, k))
Ordered-unique (x ∷ xs) (y ∷ ys) o p d e h = elim (Bool-cases (eq_ℤ x.id y.id)) [
  | inl b ↦
      let same : x ≡ y =
        some_entry x y
          (sym (find-here x.id x xs (eq_ℤ_refl x.id)) ∙ h x.id ∙ find-here x.id y ys b) in
      ap (λ z. z ∷ xs) same
      ∙ ap (λ zs. y ∷ zs) (Ordered-unique xs ys o.1 p.1 d.1 e.1 (λ uid. tails uid b))
  | inr b ↦
      let b' : eq_ℤ y.id x.id ≡ false = ground (arith, b) in
      let in_xs = sym (find-past y.id x xs b') ∙ h y.id ∙ find-here y.id y ys (eq_ℤ_refl y.id) in
      let in_ys =
        sym (find-past x.id y ys b) ∙ sym (h x.id) ∙ find-here x.id x xs (eq_ℤ_refl x.id) in
      absurd
        (before_asym x y (FirstOf-find x y xs y.id o.0 in_xs) (FirstOf-find y x ys x.id p.0 in_ys))
]
  where
    tails : (uid : ℤ) → eq_ℤ x.id y.id ≡ true → find uid xs ≡ find uid ys
    tails uid b = elim (Bool-cases (eq_ℤ uid x.id)) [
      | inl c ↦
          let c' : eq_ℤ uid y.id ≡ true = ground (arith, b, c) in
          ap (λ z. find z xs) (eq_ℤ-eq uid x.id c)
          ∙ d.0
          ∙ sym (ap (λ z. find z ys) (eq_ℤ-eq uid y.id c') ∙ e.0)
      | inr c ↦
          let c' : eq_ℤ uid y.id ≡ false = ground (arith, b, c) in
          sym (find-past uid x xs c) ∙ h uid ∙ find-past uid y ys c'
    ]
