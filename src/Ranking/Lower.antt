-- ===== src/Ranking/Lower.antt =====
-- The level of the skip list of ranking/ranking.go behind a removal.
use mathlib.Core.Path.{subst}
use touch_go_core.Prelude.{
  ℕ, zero, suc, ◌<◌, ◌≤◌, List, [], ◌∷◌, some, ◌==◌, ltb, true, false, ◌≡◌, refl, sym, ap, ◌∙◌,
  arith, Bool-cases, inl, inr,
}
use touch_go_core.Prelude.Ptr.{Ptr, null, has, ==-eq}
use touch_go_core.Ranking.{SkipList, SkipListLevel, level_of, lower_level}
use touch_go_core.Ranking.Walk.{tall, next_at, distance}
use touch_go_core.Ranking.Levels.{NoneTall, height}
use touch_go_core.Ranking.Splice.{link}
use touch_go_core.Ranking.Shape.{Bones}

lower_level_stop :
    (n : ℕ) (sl : SkipList) (l : SkipListLevel)
    → level_of sl sl.header (suc n) ≡ some l
    → (l.forward == null) ≡ false
    → lower_level (suc (suc n)) sl ≡ some (suc (suc n))
unfolding lower_level
lower_level_stop n sl l e h = rw (lower_level, e, h)

lower_level_go :
    (n : ℕ) (sl : SkipList) (l : SkipListLevel)
    → level_of sl sl.header (suc n) ≡ some l
    → (l.forward == null) ≡ true
    → lower_level (suc (suc n)) sl ≡ lower_level (suc n) sl
unfolding lower_level
lower_level_go n sl l e h = rw (lower_level, e, h)

lower_level_one : (sl : SkipList) → lower_level 1 sl ≡ some 1
unfolding lower_level
lower_level_one sl = refl

-- The level that is left, and that no node is linked above it.
pub lower_level-lowered :
    (n : ℕ) (sl : SkipList) (xs : List Ptr)
    → 0 < n
    → ((i : ℕ)
        → i < n
        → level_of sl sl.header i
          ≡ some (record { forward = next_at sl i xs; span = distance sl i xs }))
    → (level : ℕ) × (lower_level n sl ≡ some level)
      × (0 < level)
      × (level ≤ n)
      × ((i : ℕ) → level ≤ i → i < n → next_at sl i xs ≡ null)
lower_level-lowered zero sl xs some_level links = absurd (omega arith)
lower_level-lowered (suc zero) sl xs some_level links =
    (1, lower_level_one sl, omega arith, omega arith, λ i a b. absurd (omega arith))
lower_level-lowered (suc (suc n)) sl xs some_level links =
    let l : SkipListLevel = record {
      forward = next_at sl (suc n) xs;
      span = distance sl (suc n) xs;
    } in
    let here = links (suc n) (omega arith) in
    elim (Bool-cases (next_at sl (suc n) xs == null)) [
      | inr e ↦ (
        suc (suc n),
        lower_level_stop n sl l here e,
        omega arith,
        omega arith,
        λ i a b. absurd (omega arith),
      )
      | inl e ↦
          let (level, run, low, high, none) =
            lower_level-lowered (suc n) sl xs (omega arith) (λ i h. links i (omega arith)) in
          (
            level,
            lower_level_go n sl l here e ∙ run,
            low,
            omega arith,
            λ i a b. elim (Bool-cases (suc n == i)) [
              | inl h ↦ subst (λ j. next_at sl j xs ≡ null) (==-eq h) (==-eq e)
              | inr h ↦ none i a (ground (arith, b, h))
            ],
          )
    ]

next_at-null :
    (sl : SkipList) (i : ℕ) (xs : List Ptr)
    → next_at sl i xs ≡ null
    → has null xs ≡ false
    → NoneTall sl i xs
next_at-null sl i [] e h = tt
next_at-null sl i (y ∷ ys) e h = elim (Bool-cases (tall sl i y)) [
  | inl t ↦ absurd (ground (arith, past t, h))
  | inr t ↦ (t, next_at-null sl i ys (behind t) (ground (arith, h)))
]
  where
    past : tall sl i y ≡ true → y ≡ null
    past t = sym (rw t refl) ∙ e

    behind : tall sl i y ≡ false → next_at sl i ys ≡ null
    behind t = sym (rw t refl) ∙ e

NoneTall-height :
    (sl : SkipList) (i : ℕ) (xs : List Ptr) (y : Ptr)
    → NoneTall sl i xs
    → has y xs ≡ true
    → height sl y ≤ i
NoneTall-height sl i [] y h m = absurd (ground (arith, m))
NoneTall-height sl i (x ∷ xs) y h m = elim (Bool-cases (y == x)) [
  | inl e ↦ subst (λ z. height sl z ≤ i) (sym (==-eq e)) (ground (arith, h.0))
  | inr e ↦ NoneTall-height sl i xs y h.1 (ground (arith, m, e))
]

-- The levels that go are empty.
pub Bones-lower :
    (sl : SkipList) (n level : ℕ) (xs : List Ptr)
    → Bones sl n xs
    → ((i : ℕ)
        → i < n
        → level_of sl sl.header i
          ≡ some (record { forward = next_at sl i xs; span = distance sl i xs }))
    → 0 < level
    → level ≤ n
    → ((i : ℕ) → level ≤ i → i < n → next_at sl i xs ≡ null)
    → Bones sl level xs
Bones-lower sl n level xs b links low high none = record {
  level_min = low;
  level_max = omega (arith, high, b.level_max);
  header_height = b.header_height;
  empty_above = λ j l h. elim (Bool-cases (ltb j n)) [
    | inl e ↦ (
      distance sl j xs,
      links j (ground (arith, e))
          ∙ ap (λ f. some (link f (distance sl j xs))) (none j l (ground (arith, e))),
    )
    | inr e ↦ b.empty_above j (ground (arith, e)) h
  ];
  heights = λ y m. ((b.heights y m).0, lower_height y m);
  alive = b.alive;
  distinct = b.distinct;
}
  where
    lower_height : (y : Ptr) → has y xs ≡ true → height sl y ≤ level
    lower_height y m = elim (Bool-cases (ltb level n)) [
      | inl e ↦
          NoneTall-height sl level xs y
            (next_at-null sl level xs (none level (omega arith) (ground (arith, e)))
              (ground (arith, b.alive)))
            m
      | inr e ↦ let old = (b.heights y m).1 in ground (arith, e, old)
    ]
