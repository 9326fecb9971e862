-- ===== src/Ranking/Tree/Entries.antt =====
-- The ranking of ranking/ranking.go as its callers see it: the entries in order, by value downwards,
-- then by time, then by id, with one entry of each id.
use touch_go_core.Prelude.{
  ℕ, suc, List, [], ◌∷◌, Option, none, some, if◌then◌else◌, Bool, true, false, ◌||◌, ◌&&◌, ◌≡◌,
  refl, ap, ◌∙◌, arith, Bool-cases, inl, inr,
}
use touch_go_core.Prelude.Int.{ℤ, ltb_ℤ, eq_ℤ, eq_of_parts}

pub record Entry : Type 0 where
  pub id : ℤ
  pub value : ℤ
  pub timestamp : ℤ

abbrev pub entry_before : Entry → Entry → Bool
entry_before a b =
    ltb_ℤ b.value a.value
    || (eq_ℤ a.value b.value
        && (ltb_ℤ a.timestamp b.timestamp || (eq_ℤ a.timestamp b.timestamp && ltb_ℤ a.id b.id)))

abbrev pub FirstOf : Entry → List Entry → Type 0
FirstOf e [] = Unit {0}
FirstOf e (x ∷ xs) = (entry_before e x ≡ true) × FirstOf e xs

abbrev pub Ordered : List Entry → Type 0
Ordered [] = Unit {0}
Ordered (x ∷ xs) = FirstOf x xs × Ordered xs

abbrev pub find : ℤ → List Entry → Option Entry
find uid [] = none
find uid (e ∷ es) = if eq_ℤ uid e.id then some e else find uid es

abbrev pub DistinctIds : List Entry → Type 0
DistinctIds [] = Unit {0}
DistinctIds (e ∷ es) = (find e.id es ≡ none) × DistinctIds es

-- The entry at its place.
abbrev pub place : Entry → List Entry → List Entry
place e [] = e ∷ []
place e (x ∷ xs) = if entry_before x e then x ∷ place e xs else e ∷ x ∷ xs

abbrev pub drop_id : ℤ → List Entry → List Entry
drop_id uid [] = []
drop_id uid (e ∷ es) = if eq_ℤ uid e.id then es else e ∷ drop_id uid es

-- How many entries stand in front of the one of the id.
abbrev pub position : ℤ → List Entry → ℕ
position uid [] = 0
position uid (e ∷ es) = if eq_ℤ uid e.id then 0 else suc (position uid es)

-- A new value for an id, unless it has that value.
abbrev pub add_entry : Entry → List Entry → List Entry
add_entry e es = elim (find e.id es) [
  | none ↦ place e es
  | some old ↦ if eq_ℤ old.value e.value then es else place e (drop_id e.id es)
]

pub eq_ℤ-eq : (a b : ℤ) → eq_ℤ a b ≡ true → a ≡ b
eq_ℤ-eq a b h = eq_of_parts a b (ground (arith, h))

pub eq_ℤ_refl : (a : ℤ) → eq_ℤ a a ≡ true
eq_ℤ_refl a = ground arith

-- A lexicographic order, downwards and upwards in its first part.
down_trans :
    (a b c : ℤ) (p q r : Bool)
    → (p ≡ true → q ≡ true → r ≡ true)
    → (ltb_ℤ b a || (eq_ℤ a b && p)) ≡ true
    → (ltb_ℤ c b || (eq_ℤ b c && q)) ≡ true
    → (ltb_ℤ c a || (eq_ℤ a c && r)) ≡ true
down_trans a b c p q r f h k = ground (arith, f, h, k)

up_trans :
    (a b c : ℤ) (p q r : Bool)
    → (p ≡ true → q ≡ true → r ≡ true)
    → (ltb_ℤ a b || (eq_ℤ a b && p)) ≡ true
    → (ltb_ℤ b c || (eq_ℤ b c && q)) ≡ true
    → (ltb_ℤ a c || (eq_ℤ a c && r)) ≡ true
up_trans a b c p q r f h k = ground (arith, f, h, k)

less_trans : (a b c : ℤ) → ltb_ℤ a b ≡ true → ltb_ℤ b c ≡ true → ltb_ℤ a c ≡ true
less_trans a b c h k = ground (arith, h, k)

pub before_trans :
    (a b c : Entry) → entry_before a b ≡ true → entry_before b c ≡ true → entry_before a c ≡ true
before_trans a b c =
    down_trans a.value b.value c.value _ _ _
      (up_trans a.timestamp b.timestamp c.timestamp _ _ _ (less_trans a.id b.id c.id))

pub before_total :
    (a b : Entry) → eq_ℤ b.id a.id ≡ false → entry_before a b ≡ false → entry_before b a ≡ true
before_total a b h k = ground (arith, h, k)

pub find-head :
    (uid : ℤ) (x : Entry) (es : List Entry) → find uid (x ∷ es) ≡ none → eq_ℤ uid x.id ≡ false
find-head uid x es h = ground (arith, h)

pub find-behind :
    (uid : ℤ) (x : Entry) (es : List Entry) → find uid (x ∷ es) ≡ none → find uid es ≡ none
find-behind uid x es h = ground (arith, h, find-head uid x es h)

FirstOf-trans :
    (a b : Entry) (es : List Entry) → entry_before a b ≡ true → FirstOf b es → FirstOf a es
FirstOf-trans a b [] h k = tt
FirstOf-trans a b (e ∷ es) h k = (before_trans a b e h k.0, FirstOf-trans a b es h k.1)

FirstOf-place :
    (a e : Entry) (es : List Entry)
    → entry_before a e ≡ true
    → FirstOf a es
    → FirstOf a (place e es)
FirstOf-place a e [] h k = (h, tt)
FirstOf-place a e (x ∷ es) h k = elim (Bool-cases (entry_before x e)) [
  | inl b ↦ rw b (k.0, FirstOf-place a e es h k.1)
  | inr b ↦ rw b (h, k)
]

pub find-place :
    (uid : ℤ) (e : Entry) (es : List Entry)
    → find e.id es ≡ none
    → find uid (place e es) ≡ (if eq_ℤ uid e.id then some e else find uid es)
find-place uid e [] h = refl
find-place uid e (x ∷ es) h = elim (Bool-cases (entry_before x e)) [
  | inl b ↦
      rw (b, find-place uid e es (find-behind e.id x es h))
        (swap_tests uid e x (find uid es) (find-head e.id x es h))
  | inr b ↦ rw b
]
  where
    swap_tests :
        (uid : ℤ) (e x : Entry) (o : Option Entry)
        → eq_ℤ e.id x.id ≡ false
        → (if eq_ℤ uid x.id then some x else if eq_ℤ uid e.id then some e else o)
          ≡ (if eq_ℤ uid e.id then some e else if eq_ℤ uid x.id then some x else o)
    swap_tests uid e x o h = ground (arith, h)

pub DistinctIds-place :
    (e : Entry) (es : List Entry) → find e.id es ≡ none → DistinctIds es → DistinctIds (place e es)
DistinctIds-place e [] h d = (refl, tt)
DistinctIds-place e (x ∷ es) h d = elim (Bool-cases (entry_before x e)) [
  | inl b ↦
      let apart : eq_ℤ x.id e.id ≡ false = ground (arith, find-head e.id x es h) in
      rw b (
        find-place x.id e es (find-behind e.id x es h) ∙ rw (apart, d.0),
        DistinctIds-place e es (find-behind e.id x es h) d.1,
      )
  | inr b ↦ rw b (h, d)
]

pub find-drop_id :
    (uid v : ℤ) (es : List Entry)
    → DistinctIds es
    → find uid (drop_id v es) ≡ (if eq_ℤ uid v then none else find uid es)
find-drop_id uid v [] d = ground arith
find-drop_id uid v (e ∷ es) d = elim (Bool-cases (eq_ℤ v e.id)) [
  | inl b ↦ rw b (gone (find uid es) (find-same uid e.id es d.0) b)
  | inr b ↦ rw (b, find-drop_id uid v es d.1) (apart (find uid es) b)
]
  where
    find-same : (u w : ℤ) (xs : List Entry) → find w xs ≡ none → eq_ℤ u w ≡ true → find u xs ≡ none
    find-same u w xs h k = ap (λ z. find z xs) (eq_ℤ-eq u w k) ∙ h

    gone :
        (o : Option Entry)
        → (eq_ℤ uid e.id ≡ true → o ≡ none)
        → eq_ℤ v e.id ≡ true
        → o ≡ (if eq_ℤ uid v then none else if eq_ℤ uid e.id then some e else o)
    gone o h b = ground (arith, h, b)

    apart :
        (o : Option Entry)
        → eq_ℤ v e.id ≡ false
        → (if eq_ℤ uid e.id then some e else if eq_ℤ uid v then none else o)
          ≡ (if eq_ℤ uid v then none else if eq_ℤ uid e.id then some e else o)
    apart o b = ground (arith, b)

FirstOf-drop_id : (a : Entry) (v : ℤ) (es : List Entry) → FirstOf a es → FirstOf a (drop_id v es)
FirstOf-drop_id a v [] h = tt
FirstOf-drop_id a v (e ∷ es) h = elim (Bool-cases (eq_ℤ v e.id)) [
  | inl b ↦ rw b h.1
  | inr b ↦ rw b (h.0, FirstOf-drop_id a v es h.1)
]

pub Ordered-drop_id : (v : ℤ) (es : List Entry) → Ordered es → Ordered (drop_id v es)
Ordered-drop_id v [] h = tt
Ordered-drop_id v (e ∷ es) h = elim (Bool-cases (eq_ℤ v e.id)) [
  | inl b ↦ rw b h.1
  | inr b ↦ rw b (FirstOf-drop_id e v es h.0, Ordered-drop_id v es h.1)
]

pub DistinctIds-drop_id : (v : ℤ) (es : List Entry) → DistinctIds es → DistinctIds (drop_id v es)
DistinctIds-drop_id v [] d = tt
DistinctIds-drop_id v (e ∷ es) d = elim (Bool-cases (eq_ℤ v e.id)) [
  | inl b ↦ rw b d.1
  | inr b ↦ rw b (find-drop_id e.id v es d.1 ∙ ground (arith, d.0), DistinctIds-drop_id v es d.1)
]

pub Ordered-place :
    (e : Entry) (es : List Entry) → find e.id es ≡ none → Ordered es → Ordered (place e es)
Ordered-place e [] h k = (tt, tt)
Ordered-place e (x ∷ es) h k = elim (Bool-cases (entry_before x e)) [
  | inl b ↦ rw b (FirstOf-place x e es b k.0, Ordered-place e es (find-behind e.id x es h) k.1)
  | inr b ↦
      let first = before_total x e (find-head e.id x es h) b in
      rw b ((first, FirstOf-trans e x es first k.0), k)
]

pub add_entry-none :
    (e : Entry) (es : List Entry) → find e.id es ≡ none → add_entry e es ≡ place e es
add_entry-none e es h = rw (add_entry, h)

pub add_entry-some :
    (e old : Entry) (es : List Entry)
    → find e.id es ≡ some old
    → add_entry e es ≡ (if eq_ℤ old.value e.value then es else place e (drop_id e.id es))
add_entry-some e old es h = rw (add_entry, h)
