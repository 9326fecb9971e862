-- ===== src/Ranking/Shape.antt =====
-- The shape of the skip list of ranking/ranking.go, on all its levels, and what reads it.
use mathlib.Core.Path.{subst}
use touch_go_core.Prelude.{
  ℕ, ◌<◌, ◌≤◌, List, [], ◌∷◌, ltb, true, false, length, get_elem?, ◌≡◌, refl, sym, ap, ◌∙◌, arith,
}
use touch_go_core.Prelude.Ptr.{Ptr, null, has, Distinct}
use touch_go_core.Ranking.{SkipList, level_of, skip_list_max_level, word}
use touch_go_core.Ranking.Walk.{next_at, distance, AllLinked}
use touch_go_core.Ranking.Levels.{NodesAt, NoneTall, NodesAt-same, height, has-head, has-tail}
use touch_go_core.Ranking.LevelLoop.{SameRest, SameAbove}
use touch_go_core.Ranking.Raise.{NoneAbove}
use touch_go_core.Ranking.Lookup.{Linked}

-- The header and the nodes, with the levels they reach, when the list has `level` levels.
pub record Bones (sl : SkipList) (level : ℕ) (xs : List Ptr) : Type 0 where
  pub level_min : 0 < level
  pub level_max : level ≤ skip_list_max_level
  pub header_height : height sl sl.header ≡ skip_list_max_level
  pub empty_above : NoneAbove sl level skip_list_max_level
  pub heights : (y : Ptr) → has y xs ≡ true → (0 < height sl y) × (height sl y ≤ level)
  pub alive : has null (sl.header ∷ xs) ≡ false
  pub distinct : Distinct (sl.header ∷ xs)

-- The skip list has the nodes `xs`, linked at every level, and counts them.
pub record Shape (sl : SkipList) (xs : List Ptr) : Type 0 where
  pub bones : Bones sl sl.level xs
  pub linked : (i : ℕ) → i < sl.level → NodesAt sl i (sl.header ∷ xs)
  pub counted : sl.length_32 ≡ length xs
  pub size : length xs < word

-- Nothing of this reads the number of levels or of nodes.
pub NodesAt-nodes :
    (sl sl' : SkipList) (i : ℕ) (xs : List Ptr)
    → sl'.nodes ≡ sl.nodes
    → NodesAt sl i xs
    → NodesAt sl' i xs
unfolding level_of
NodesAt-nodes sl sl' i xs e h =
    NodesAt-same sl sl' i xs (λ y _. ap (λ f. ltb i (length (f y).levels)) e)
      (λ y _. ap (λ f. get_elem? (f y).levels i) e) h

-- A change of links below the level `level`.
pub Bones-same :
    (sl sl' : SkipList) (level : ℕ) (xs : List Ptr)
    → SameRest sl sl'
    → SameAbove sl sl' level
    → Bones sl level xs
    → Bones sl' level xs
Bones-same sl sl' level xs same above b = record {
  level_min = b.level_min;
  level_max = b.level_max;
  header_height = ap (height sl') same.header ∙ same.heights sl.header ∙ b.header_height;
  empty_above = λ j l h.
      let (n, e) = b.empty_above j l h in
      (n, ap (λ x. level_of sl' x j) same.header ∙ above sl.header j l ∙ e);
  heights = λ y h.
      let (a, c) = b.heights y h in
      (omega (arith, a, same.heights y), omega (arith, c, same.heights y));
  alive = subst (λ x. has null (x ∷ xs) ≡ false) (sym same.header) b.alive;
  distinct = subst (λ x. Distinct (x ∷ xs)) (sym same.header) b.distinct;
}

pub Bones-fields :
    (sl : SkipList) (level length_32 l : ℕ) (xs : List Ptr)
    → Bones sl l xs
    → Bones (record sl { level = level; length_32 = length_32 }) l xs
unfolding level_of
Bones-fields sl level length_32 l xs b = record {
  level_min = b.level_min;
  level_max = b.level_max;
  header_height = b.header_height;
  empty_above = b.empty_above;
  heights = b.heights;
  alive = b.alive;
  distinct = b.distinct;
}

-- A list that is linked, with the numbers of its levels and nodes.
pub counted-Shape :
    (sl : SkipList) (level count : ℕ) (header : Ptr) (xs : List Ptr)
    → sl.header ≡ header
    → Bones sl level xs
    → ((i : ℕ) → i < level → NodesAt sl i (header ∷ xs))
    → count ≡ length xs
    → length xs < word
    → Shape (record sl { level = level; length_32 = count }) xs
counted-Shape sl level count header xs same_header bones linked counted size = record {
  bones = Bones-fields sl level count level xs bones;
  linked = λ i h.
      NodesAt-nodes sl (record sl { level = level; length_32 = count }) i (sl.header ∷ xs) refl
        (subst (λ x. NodesAt sl i (x ∷ xs)) (sym same_header) (linked i h));
  counted = counted;
  size = size;
}

-- A list no node of which reaches the level.
pub NoneTall-heights :
    (sl : SkipList) (i : ℕ) (xs : List Ptr)
    → ((y : Ptr) → has y xs ≡ true → height sl y ≤ i)
    → NoneTall sl i xs
NoneTall-heights sl i [] h = tt
NoneTall-heights sl i (y ∷ ys) h =
    (ground (arith, h y (has-head y ys)), NoneTall-heights sl i ys (λ z e. h z (has-tail z y ys e)))

pub next_at-none :
    (sl : SkipList) (i : ℕ) (xs : List Ptr)
    → NoneTall sl i xs
    → (next_at sl i xs ≡ null) × (distance sl i xs ≡ length xs)
next_at-none sl i [] h = (refl, refl)
next_at-none sl i (y ∷ ys) h = let (n, d) = next_at-none sl i ys h.1 in (rw (h.0, n), rw (h.0, d))

pub NodesAt-none : (sl : SkipList) (i : ℕ) (xs : List Ptr) → NoneTall sl i xs → NodesAt sl i xs
NodesAt-none sl i [] h = tt
NodesAt-none sl i (y ∷ ys) h = ((λ e. absurd (ground (arith, h.0, e))), NodesAt-none sl i ys h.1)

-- The links of the searches.
tails_linked :
    (sl : SkipList) (level : ℕ) (xs : List Ptr)
    → ((y : Ptr) → has y xs ≡ true → (0 < height sl y) × (height sl y ≤ level))
    → has null xs ≡ false
    → ((i : ℕ) → i < level → NodesAt sl i xs)
    → AllLinked sl xs
tails_linked sl level [] heights alive linked = tt
tails_linked sl level (y ∷ ys) heights alive linked =
    let (low, high) = heights y (has-head y ys) in
    (
      (λ e. absurd (ground (arith, e, alive))),
      low,
      (λ i h. (linked i (omega (arith, h, high))).0 (ground (arith, h))),
      tails_linked sl level ys (λ z e. heights z (has-tail z y ys e)) (ground (arith, alive))
          (λ i h. (linked i h).1),
    )

pub Shape-Linked : (sl : SkipList) (xs : List Ptr) → Shape sl xs → Linked sl xs
Shape-Linked sl xs s =
    let b = s.bones in
    record {
      some_level = b.level_min;
      from_header = λ i h. (s.linked i h).0 (ground (arith, b.header_height, b.level_max, h));
      nodes_linked =
          tails_linked sl sl.level xs b.heights (ground (arith, b.alive)) (λ i h. (s.linked i h).1);
      size = s.size;
    }
