-- ===== src/Ranking/Levels.antt =====
-- The levels of the skip list of ranking/ranking.go, each by itself: the links that a list of nodes
-- wants at one level, and what a change of one node's link does to them.
use touch_go_core.Prelude.{
  ℕ, ◌+◌, ◌<◌, List, [], ◌∷◌, ◌++◌, some, ◌==◌, true, false, length, get_elem?, length-set,
  get_elem?-set_self, get_elem?-set_ne, ◌≡◌, ◌≢◌, refl, sym, ap, ◌∙◌, arith, Bool-cases, inl, inr,
}
use touch_go_core.Prelude.Ptr.{Ptr, has, ==-refl, ==-eq}
use touch_go_core.Ranking.{SkipList, SkipListLevel, level_of, put_level}
use touch_go_core.Ranking.Walk.{tall, next_at, distance}

-- The link of `x` at the level when the nodes `rest` follow.
abbrev pub LinkAt : SkipList → ℕ → Ptr → List Ptr → Type 0
LinkAt sl i x rest =
    level_of sl x i ≡ some (record { forward = next_at sl i rest; span = distance sl i rest })

-- Each node of the list that reaches the level is linked there to the ones behind it.
abbrev pub NodesAt : SkipList → ℕ → List Ptr → Type 0
NodesAt sl i [] = Unit {0}
NodesAt sl i (y ∷ ys) = (tall sl i y ≡ true → LinkAt sl i y ys) × NodesAt sl i ys

abbrev pub NoneTall : SkipList → ℕ → List Ptr → Type 0
NoneTall sl i [] = Unit {0}
NoneTall sl i (y ∷ ys) = (tall sl i y ≡ false) × NoneTall sl i ys

abbrev pub height : SkipList → Ptr → ℕ
height sl y = length (sl.nodes y).levels

-- Agreement of two heaps on the nodes of a list, at one level.
abbrev pub SameTall : SkipList → SkipList → ℕ → List Ptr → Type 0
SameTall sl sl' i xs = (y : Ptr) → has y xs ≡ true → tall sl' i y ≡ tall sl i y

abbrev pub SameLinks : SkipList → SkipList → ℕ → List Ptr → Type 0
SameLinks sl sl' i xs = (y : Ptr) → has y xs ≡ true → level_of sl' y i ≡ level_of sl y i

pub has-head : (y : Ptr) (ys : List Ptr) → has y (y ∷ ys) ≡ true
has-head y ys = rw (==-refl y)

pub has-tail : (x y : Ptr) (ys : List Ptr) → has x ys ≡ true → has x (y ∷ ys) ≡ true
has-tail x y ys h = ground (arith, h)

pub next_at-same :
    (sl sl' : SkipList) (i : ℕ) (xs : List Ptr)
    → SameTall sl sl' i xs
    → (next_at sl' i xs ≡ next_at sl i xs) × (distance sl' i xs ≡ distance sl i xs)
next_at-same sl sl' i [] same = (refl, refl)
next_at-same sl sl' i (y ∷ ys) same =
    let (n, d) = next_at-same sl sl' i ys (λ x h. same x (has-tail x y ys h)) in
    (rw (same y (has-head y ys), n), rw (same y (has-head y ys), d))

pub NodesAt-same :
    (sl sl' : SkipList) (i : ℕ) (xs : List Ptr)
    → SameTall sl sl' i xs
    → SameLinks sl sl' i xs
    → NodesAt sl i xs
    → NodesAt sl' i xs
NodesAt-same sl sl' i [] t l h = tt
NodesAt-same sl sl' i (y ∷ ys) t l h =
    let (n, d) = next_at-same sl sl' i ys (λ x k. t x (has-tail x y ys k)) in
    (
      (λ e. l y (has-head y ys) ∙ h.0 (sym (t y (has-head y ys)) ∙ e) ∙ rw (n, d)),
      NodesAt-same sl sl' i ys (λ x k. t x (has-tail x y ys k)) (λ x k. l x (has-tail x y ys k))
          h.1,
    )

-- Nodes that do not reach the level are passed over.
pub next_at-NoneTall :
    (sl : SkipList) (i : ℕ) (mid w : List Ptr)
    → NoneTall sl i mid
    → (next_at sl i (mid ++ w) ≡ next_at sl i w)
      × (distance sl i (mid ++ w) ≡ length mid + distance sl i w)
next_at-NoneTall sl i [] w h = (refl, omega arith)
next_at-NoneTall sl i (y ∷ mid) w h =
    let (n, d) = next_at-NoneTall sl i mid w h.1 in (rw (h.0, n), rw (h.0, d) (omega arith))

pub NodesAt-NoneTall :
    (sl : SkipList) (i : ℕ) (mid w : List Ptr)
    → NoneTall sl i mid
    → NodesAt sl i w
    → NodesAt sl i (mid ++ w)
NodesAt-NoneTall sl i [] w h k = k
NodesAt-NoneTall sl i (y ∷ mid) w h k =
    ((λ e. absurd (ground (arith, h.0, e))), NodesAt-NoneTall sl i mid w h.1 k)

-- In front of a node that reaches the level nothing depends on what is behind it.
next_at-front :
    (sl : SkipList) (i : ℕ) (front w w' : List Ptr) (u : Ptr)
    → tall sl i u ≡ true
    → (next_at sl i (front ++ u ∷ w) ≡ next_at sl i (front ++ u ∷ w'))
      × (distance sl i (front ++ u ∷ w) ≡ distance sl i (front ++ u ∷ w'))
next_at-front sl i [] w w' u t = (rw t, rw t)
next_at-front sl i (y ∷ front) w w' u t =
    let (n, d) = next_at-front sl i front w w' u t in (rw n, rw d)

pub NodesAt-drop :
    (sl : SkipList) (i : ℕ) (front w : List Ptr) → NodesAt sl i (front ++ w) → NodesAt sl i w
NodesAt-drop sl i [] w h = h
NodesAt-drop sl i (y ∷ front) w h = NodesAt-drop sl i front w h.1

-- A new list behind `u`.
pub NodesAt-rewire :
    (sl sl' : SkipList) (i : ℕ) (front w w' : List Ptr) (u : Ptr)
    → tall sl i u ≡ true
    → SameTall sl sl' i (front ++ u ∷ [])
    → SameLinks sl sl' i front
    → NodesAt sl i (front ++ u ∷ w)
    → NodesAt sl' i (u ∷ w')
    → NodesAt sl' i (front ++ u ∷ w')
NodesAt-rewire sl sl' i [] w w' u t same links h k = k
NodesAt-rewire sl sl' i (y ∷ front) w w' u t same links h k =
    let at_tail : SameTall sl sl' i (front ++ u ∷ []) =
      λ x e. same x (has-tail x y (front ++ u ∷ []) e) in
    let t' : tall sl' i u ≡ true = same u (has-last (y ∷ front)) ∙ t in
    let (n, d) = next_at-front sl i front w [] u t in
    let (n1, d1) = next_at-same sl sl' i (front ++ u ∷ []) at_tail in
    let (n2, d2) = next_at-front sl' i front [] w' u t' in
    (
      (λ e.
          links y (has-head y front)
          ∙ h.0 (sym (same y (has-head y (front ++ u ∷ []))) ∙ e)
          ∙ rw (n, d, ← n1, ← d1, n2, d2)),
      NodesAt-rewire sl sl' i front w w' u t at_tail (λ x e. links x (has-tail x y front e)) h.1 k,
    )
  where
    has-last : (xs : List Ptr) → has u (xs ++ u ∷ []) ≡ true
    has-last [] = has-head u []
    has-last (x ∷ xs) = has-tail u x (xs ++ u ∷ []) (has-last xs)

-- One link written.
pub height-put_level :
    (sl : SkipList) (x y : Ptr) (j : ℕ) (l : SkipListLevel)
    → height (put_level x j l sl) y ≡ height sl y
height-put_level sl x y j l = elim (Bool-cases (x == y)) [
  | inl e ↦ rw e (length-set (sl.nodes x).levels j l ∙ ap (height sl) (==-eq e))
  | inr e ↦ rw e
]

pub put_level_self :
    (sl : SkipList) (x : Ptr) (j : ℕ) (l : SkipListLevel)
    → j < height sl x
    → level_of (put_level x j l sl) x j ≡ some l
unfolding level_of
put_level_self sl x j l h = rw (==-refl x) (get_elem?-set_self (sl.nodes x).levels j l h)

pub put_level_other :
    (sl : SkipList) (x y : Ptr) (i j : ℕ) (l : SkipListLevel)
    → (x == y) ≡ false
    → level_of (put_level x j l sl) y i ≡ level_of sl y i
unfolding level_of
put_level_other sl x y i j l h = rw h

pub put_level_ne :
    (sl : SkipList) (x y : Ptr) (i j : ℕ) (l : SkipListLevel)
    → j ≢ i
    → level_of (put_level x j l sl) y i ≡ level_of sl y i
unfolding level_of
put_level_ne sl x y i j l h = elim (Bool-cases (x == y)) [
  | inl e ↦ rw e (
      get_elem?-set_ne (sl.nodes x).levels l h
      ∙ ap (λ z. get_elem? (sl.nodes z).levels i) (==-eq e))
  | inr e ↦ rw e
]
