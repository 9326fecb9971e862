-- ===== src/Format/Fill.antt =====
-- What Sprintf of util/string.go makes of a text in parts.
use mathlib.Core.Option
use touch_go_core.Prelude.{
  ℕ, suc, ◌+◌, List, [], ◌∷◌, ◌++◌, Option, none, some, ◌==◌, if◌then◌else◌, Bytes, ◌≡◌, refl, sym,
  ap, arith, Bool-cases, inl, inr, length, false,
}
use touch_go_core.Prelude.Ptr.{has}
use mathlib.Core.List.{append_assoc}
use touch_go_core.Format.{Value, fill, render, question_mark, percent}

unfoldable pub marks : Bytes → ℕ
marks [] = 0
marks (c ∷ cs) = if c == question_mark then suc (marks cs) else marks cs

-- The places of a text, filled, and a second text behind it.
abbrev pub both : Option Bytes → Option Bytes → Option Bytes
both none b = none
both (some x) none = none
both (some x) (some y) = some (x ++ y)

pub marks-append : (a b : Bytes) → marks (a ++ b) ≡ marks a + marks b
unfolding marks
marks-append [] b = omega arith
marks-append (c ∷ a) b = ground (arith, marks-append a b)

both-map_one :
    (x : Bytes) (o p : Option Bytes)
    → Option.map (λ r. x ++ r) (both o p) ≡ both (Option.map (λ r. x ++ r) o) p
both-map_one x none p = refl
both-map_one x (some y) none = refl
both-map_one x (some y) (some z) = ap some (sym (append_assoc x y z))

both-nil : (o : Option Bytes) → both (some []) o ≡ o
both-nil none = refl
both-nil (some x) = refl

marks-none : (c : ℕ) (a : Bytes) → marks (c ∷ a) ≡ 0 → (c == question_mark) ≡ false
unfolding marks
marks-none c a h = ground arith

marks-rest :
    (c : ℕ) (a : Bytes) (xs : List Value)
    → marks (c ∷ a) ≡ length xs
    → (c == question_mark) ≡ false
    → marks a ≡ length xs
unfolding marks
marks-rest c a xs h e = rw e at h

-- A text with as many question marks as arguments takes just these, whatever follows.
pub fill-append :
    (a b : Bytes) (xs ys : List Value)
    → marks a ≡ length xs
    → fill (a ++ b) (xs ++ ys) ≡ both (fill a xs) (fill b ys)
unfolding fill marks
fill-append [] b [] ys h = sym (both-nil (fill b ys))
fill-append [] b (x ∷ xs) ys h = absurd (omega arith)
fill-append (c ∷ a) b [] [] h =
    let step = fill-append a b [] [] (marks-rest c a [] h (marks-none c a h)) in
    elim (Bool-cases (c == percent)) [
      | inl p ↦ rw p
      | inr p ↦ rw (p, step) (both-map_one (c ∷ []) (fill a []) (fill b []))
    ]
fill-append (c ∷ a) b [] (y ∷ ys) h =
    let e = marks-none c a h in
    let step = fill-append a b [] (y ∷ ys) (marks-rest c a [] h e) in
    elim (Bool-cases (c == percent)) [
      | inl p ↦ rw (e, p)
      | inr p ↦ rw (e, p, step) (both-map_one (c ∷ []) (fill a []) (fill b (y ∷ ys)))
    ]
fill-append (c ∷ a) b (x ∷ xs) ys h = elim (Bool-cases (c == question_mark)) [
  | inl e ↦
      rw (e, fill-append a b xs ys (ground arith)) (both-map_one (render x) (fill a xs) (fill b ys))
  | inr e ↦ elim (Bool-cases (c == percent)) [
    | inl p ↦ rw (e, p)
    | inr p ↦
        rw (e, p, fill-append a b (x ∷ xs) ys (marks-rest c a (x ∷ xs) h e))
          (both-map_one (c ∷ []) (fill a (x ∷ xs)) (fill b ys))
  ]
]

-- A text with nothing to fill in.
abbrev pub Plain : Bytes → Type 0
Plain a = (has question_mark a ≡ false) × (has percent a ≡ false)

pub fill-Plain : (a : Bytes) (xs : List Value) → Plain a → fill a xs ≡ some a
unfolding fill
fill-Plain [] xs h = refl
fill-Plain (c ∷ a) [] h =
    let p : (c == percent) ≡ false = ground (arith, h.1) in
    rw (p, fill-Plain a [] (ground (arith, h.0), ground (arith, h.1)))
fill-Plain (c ∷ a) (x ∷ xs) h =
    let e : (c == question_mark) ≡ false = ground (arith, h.0) in
    let p : (c == percent) ≡ false = ground (arith, h.1) in
    rw (e, p, fill-Plain a (x ∷ xs) (ground (arith, h.0), ground (arith, h.1)))

pub marks-Plain : (a : Bytes) → has question_mark a ≡ false → marks a ≡ 0
unfolding marks
marks-Plain [] h = refl
marks-Plain (c ∷ a) h = ground (arith, marks-Plain a)
