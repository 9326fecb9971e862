-- ===== src/Ranking/Splice.antt =====
-- One turn of the loops over the levels of ranking/ranking.go: a node put in, passed over, or taken
-- out at one level.
use mathlib.Core.List.{append_assoc}
use mathlib.Core.Path.{subst}
use touch_go_core.Prelude.{
  ℕ, suc, ◌+◌, ◌≤◌, List, [], ◌∷◌, ◌++◌, some, ◌==◌, true, false, length, length-append, ◌≡◌, refl,
  sym, ap, ◌∙◌, arith,
}
use touch_go_core.Prelude.Ptr.{Ptr, has, has-append, Distinct, ==-swap}
use touch_go_core.Ranking.{SkipList, SkipListLevel, level_of, put_level}
use touch_go_core.Ranking.Walk.{tall, next_at, distance}
use touch_go_core.Ranking.Levels.{
  NodesAt, NoneTall, NodesAt-same, NodesAt-drop, NodesAt-rewire, NodesAt-NoneTall, next_at-NoneTall,
  next_at-same, put_level_self, put_level_other,
}
use touch_go_core.Ranking.LevelLoop.{
  SameRest, SameRest-tall, OnlyLevel, OnlyLevel-put_level, TraceAt,
}

-- A node stands once in a list of distinct ones.
pub Distinct-front :
    (front w : List Ptr) (u : Ptr) → Distinct (front ++ u ∷ w) → has u front ≡ false
Distinct-front [] w u d = refl
Distinct-front (y ∷ front) w u d =
    ground (arith, Distinct-front front w u d.1, has-append y front (u ∷ w), ==-swap u y, d.0)

pub Distinct-drop : (front w : List Ptr) → Distinct (front ++ w) → Distinct w
Distinct-drop [] w d = d
Distinct-drop (y ∷ front) w d = Distinct-drop front w d.1

pub ne-has : (x y : Ptr) (xs : List Ptr) → has x xs ≡ false → has y xs ≡ true → (x == y) ≡ false
ne-has x y [] h k = absurd (ground arith)
ne-has x y (z ∷ xs) h k = ground (arith, ne-has x y xs)

pub NoneTall-same :
    (sl sl' : SkipList) (i : ℕ) (mid : List Ptr)
    → ((y : Ptr) → tall sl' i y ≡ tall sl i y)
    → NoneTall sl i mid
    → NoneTall sl' i mid
NoneTall-same sl sl' i [] same h = tt
NoneTall-same sl sl' i (y ∷ mid) same h = (same y ∙ h.0, NoneTall-same sl sl' i mid same h.1)

abbrev pub link : Ptr → ℕ → SkipListLevel
link p n = record { forward = p; span = n }

-- The node `u` gets the link to `w'`, behind nodes `mid` that do not reach the level.
pub splice :
    (sl sl' : SkipList) (i : ℕ) (front mid w w' : List Ptr) (u : Ptr)
    → SameRest sl sl'
    → NoneTall sl i mid
    → tall sl i u ≡ true
    → ((y : Ptr) → has y front ≡ true → level_of sl' y i ≡ level_of sl y i)
    → NodesAt sl i (front ++ u ∷ (mid ++ w))
    → level_of sl' u i
      ≡ some (record { forward = next_at sl i w'; span = length mid + distance sl i w' })
    → NodesAt sl' i w'
    → NodesAt sl' i (front ++ u ∷ (mid ++ w'))
splice sl sl' i front mid w w' u rest none t in_front linked e back =
    let tall_same = SameRest-tall rest i in
    let none' = NoneTall-same sl sl' i mid tall_same none in
    let (n, d) = next_at-NoneTall sl' i mid w' none' in
    let (n', d') = next_at-same sl sl' i w' (λ y _. tall_same y) in
    NodesAt-rewire sl sl' i front (mid ++ w) (mid ++ w') u t (λ y _. tall_same y) in_front linked
      ((λ _. e ∙ rw (n, d, n', d')), NodesAt-NoneTall sl' i mid w' none' back)

-- What a turn at the level `i` meets.
pub record Turn (sl : SkipList) (i : ℕ) (ys w : List Ptr) (s : Ptr × ℕ) : Type 0 where
  pub front : List Ptr
  pub mid : List Ptr
  pub parts : ys ++ w ≡ front ++ s.0 ∷ (mid ++ w)
  pub whole : (w' : List Ptr) → ys ++ w' ≡ front ++ s.0 ∷ (mid ++ w')
  pub rank : s.1 ≡ length front
  pub size : length ys ≡ suc (length front + length mid)
  pub none : NoneTall sl i mid
  pub reaches : tall sl i s.0 ≡ true
  pub link :
      level_of sl s.0 i
      ≡ some (record { forward = next_at sl i w; span = length mid + distance sl i w })
  pub linked : NodesAt sl i (front ++ s.0 ∷ (mid ++ w))
  pub once_front : has s.0 front ≡ false
  pub once_back : has s.0 w ≡ false

pub meet :
    (base sl : SkipList) (i : ℕ) (ys w : List Ptr) (s : Ptr × ℕ)
    → SameRest base sl
    → TraceAt base ys i s
    → Distinct (ys ++ w)
    → NodesAt sl i (ys ++ w)
    → Turn sl i ys w s
meet base sl i ys w s same tr d linked =
    let whole =
      λ (w' : List Ptr). ap (λ v. v ++ w') tr.parts ∙ append_assoc tr.front (s.0 ∷ tr.mid) w' in
    let none = NoneTall-same base sl i tr.mid (SameRest-tall same i) tr.none in
    let reaches = SameRest-tall same i s.0 ∙ tr.reaches in
    let linked' = subst (NodesAt sl i) (whole w) linked in
    let d' = subst Distinct (whole w) d in
    let (n, dist) = next_at-NoneTall sl i tr.mid w none in
    let back = (Distinct-drop tr.front (s.0 ∷ (tr.mid ++ w)) d').0 in
    record {
      front = tr.front;
      mid = tr.mid;
      parts = whole w;
      whole = whole;
      rank = tr.rank;
      size = ap length tr.parts ∙ length-append tr.front (s.0 ∷ tr.mid) ∙ omega arith;
      none = none;
      reaches = reaches;
      link = (NodesAt-drop sl i tr.front (s.0 ∷ (tr.mid ++ w)) linked').0 reaches ∙ rw (n, dist);
      linked = linked';
      once_front = Distinct-front tr.front (tr.mid ++ w) s.0 d';
      once_back = ground (arith, back, has-append s.0 tr.mid w);
    }

pub distance-bound : (sl : SkipList) (i : ℕ) (xs : List Ptr) → distance sl i xs ≤ length xs
distance-bound sl i [] = omega arith
distance-bound sl i (y ∷ ys) = ground (arith, distance-bound sl i ys)

-- A link of the node at which the turn stands, to a list behind it that is linked already.
pub one_write :
    (sl : SkipList) (i : ℕ) (ys w w' : List Ptr) (s : Ptr × ℕ) (t : Turn sl i ys w s)
    (l : SkipListLevel)
    → l ≡ link (next_at sl i w') (length t.mid + distance sl i w')
    → has s.0 w' ≡ false
    → NodesAt sl i w'
    → OnlyLevel i sl (put_level s.0 i l sl) × NodesAt (put_level s.0 i l sl) i (ys ++ w')
one_write sl i ys w w' s t l e apart back =
    let sl' = put_level s.0 i l sl in
    let only = OnlyLevel-put_level sl s.0 i l in
    let tall_same = SameRest-tall only.rest i in
    let elsewhere : (y : Ptr) → (s.0 == y) ≡ false → level_of sl' y i ≡ level_of sl y i =
      λ y h. put_level_other sl s.0 y i i l h in
    (
      only,
      subst (NodesAt sl' i) (sym (t.whole w')) (
          splice sl sl' i t.front t.mid w w' s.0 only.rest t.none t.reaches
            (λ y h. elsewhere y (ne-has s.0 y t.front t.once_front h)) t.linked
            (put_level_self sl s.0 i l (ground (arith, t.reaches)) ∙ ap some e)
            (NodesAt-same sl sl' i w' (λ y _. tall_same y)
              (λ y h. elsewhere y (ne-has s.0 y w' apart h)) back)),
    )
