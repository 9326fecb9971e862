-- ===== src/Ranking/LevelLoop.antt =====
-- The loops of insert and remove over the levels of the skip list of ranking/ranking.go: each turn
-- changes the links of one level only.
use mathlib.Core.Path.{subst}
use touch_go_core.Prelude.{
  ℕ, suc, ◌+◌, ◌<◌, ◌≤◌, List, [], ◌∷◌, ◌++◌, Option, some, ◌==◌, if◌then◌else◌, ltb, true, false,
  length, ◌≡◌, ◌≢◌, refl, sym, ap, ◌∙◌, arith, Bool-cases, inl, inr,
}
use touch_go_core.Prelude.Ptr.{Ptr, ==-eq}
use touch_go_core.Ranking.{SkipList, SkipListLevel, level_of, put_level}
use touch_go_core.Ranking.Walk.{tall}
use touch_go_core.Ranking.Levels.{
  NodesAt, NoneTall, NodesAt-same, height, height-put_level, put_level_ne,
}

-- What a change of links leaves alone.
pub record SameRest (sl sl' : SkipList) : Type 0 where
  pub heights : (y : Ptr) → height sl' y ≡ height sl y
  pub keys : (y : Ptr) → (sl'.nodes y).key ≡ (sl.nodes y).key
  pub node_infos : (y : Ptr) → (sl'.nodes y).info ≡ (sl.nodes y).info
  pub infos : sl'.infos ≡ sl.infos
  pub header : sl'.header ≡ sl.header
  pub level : sl'.level ≡ sl.level
  pub length_32 : sl'.length_32 ≡ sl.length_32

pub SameRest-refl : (sl : SkipList) → SameRest sl sl
SameRest-refl sl = record {
  heights = λ y. refl;
  keys = λ y. refl;
  node_infos = λ y. refl;
  infos = refl;
  header = refl;
  level = refl;
  length_32 = refl;
}

pub SameRest-trans : {a b c : SkipList} → SameRest a b → SameRest b c → SameRest a c
SameRest-trans f g = record {
  heights = λ y. g.heights y ∙ f.heights y;
  keys = λ y. g.keys y ∙ f.keys y;
  node_infos = λ y. g.node_infos y ∙ f.node_infos y;
  infos = g.infos ∙ f.infos;
  header = g.header ∙ f.header;
  level = g.level ∙ f.level;
  length_32 = g.length_32 ∙ f.length_32;
}

pub SameRest-tall :
    {sl sl' : SkipList} → SameRest sl sl' → (i : ℕ) (y : Ptr) → tall sl' i y ≡ tall sl i y
SameRest-tall f i y = ap (ltb i) (f.heights y)

pub SameRest-put_level :
    (sl : SkipList) (x : Ptr) (j : ℕ) (l : SkipListLevel) → SameRest sl (put_level x j l sl)
SameRest-put_level sl x j l = record {
  heights = λ y. height-put_level sl x y j l;
  keys = λ y. field_same y;
  node_infos = λ y. info_same y;
  infos = refl;
  header = refl;
  level = refl;
  length_32 = refl;
}
  where
    field_same : (y : Ptr) → ((put_level x j l sl).nodes y).key ≡ (sl.nodes y).key
    field_same y = elim (Bool-cases (x == y)) [
      | inl e ↦ rw e (ap (λ z. (sl.nodes z).key) (==-eq e))
      | inr e ↦ rw e
    ]

    info_same : (y : Ptr) → ((put_level x j l sl).nodes y).info ≡ (sl.nodes y).info
    info_same y = elim (Bool-cases (x == y)) [
      | inl e ↦ rw e (ap (λ z. (sl.nodes z).info) (==-eq e))
      | inr e ↦ rw e
    ]

-- Only links at the level `i` change.
pub record OnlyLevel (i : ℕ) (sl sl' : SkipList) : Type 0 where
  pub rest : SameRest sl sl'
  pub others : (y : Ptr) (j : ℕ) → i ≢ j → level_of sl' y j ≡ level_of sl y j

pub OnlyLevel-trans :
    {i : ℕ} {a b c : SkipList} → OnlyLevel i a b → OnlyLevel i b c → OnlyLevel i a c
OnlyLevel-trans f g = record {
  rest = SameRest-trans f.rest g.rest;
  others = λ y j ne. g.others y j ne ∙ f.others y j ne;
}

pub OnlyLevel-put_level :
    (sl : SkipList) (x : Ptr) (i : ℕ) (l : SkipListLevel) → OnlyLevel i sl (put_level x i l sl)
OnlyLevel-put_level sl x i l = record {
  rest = SameRest-put_level sl x i l;
  others = λ y j ne. put_level_ne sl x y j i l ne;
}

-- Where the descent stopped at the level: `ys` are the header and the nodes before the place.
pub record TraceAt (base : SkipList) (ys : List Ptr) (i : ℕ) (s : Ptr × ℕ) : Type 0 where
  pub front : List Ptr
  pub mid : List Ptr
  pub parts : ys ≡ front ++ s.0 ∷ mid
  pub rank : s.1 ≡ length front
  pub none : NoneTall base i mid
  pub reaches : tall base i s.0 ≡ true

abbrev pub AllTrace : SkipList → List Ptr → ℕ → List (Ptr × ℕ) → Type 0
AllTrace base ys i [] = Unit {0}
AllTrace base ys i (s ∷ ss) = TraceAt base ys i s × AllTrace base ys (suc i) ss

-- Below the level `i` the new list is linked, from it on the old one.
abbrev pub LinkedUpTo : SkipList → ℕ → (old new : List Ptr) → ℕ → Type 0
LinkedUpTo sl level old new i = (j : ℕ) → j < level → NodesAt sl j (if ltb j i then new else old)

pub LinkedUpTo-start :
    (sl : SkipList) (level : ℕ) (old new : List Ptr)
    → ((j : ℕ) → j < level → NodesAt sl j old)
    → LinkedUpTo sl level old new 0
LinkedUpTo-start sl level old new h j e =
    let t : ltb j 0 ≡ false = ground arith in
    subst (λ b. NodesAt sl j (if b then new else old)) (sym t) (h j e)

pub LinkedUpTo-end :
    (sl : SkipList) (level : ℕ) (old new : List Ptr)
    → LinkedUpTo sl level old new level
    → (j : ℕ) → j < level
    → NodesAt sl j new
LinkedUpTo-end sl level old new h j e =
    let t : ltb j level ≡ true = ground (arith, e) in
    subst (λ b. NodesAt sl j (if b then new else old)) t (h j e)

-- From the level `i` on no link differs.
abbrev pub SameAbove : SkipList → SkipList → ℕ → Type 0
SameAbove sl sl' i = (y : Ptr) (j : ℕ) → i ≤ j → level_of sl' y j ≡ level_of sl y j

module _ (loop : ℕ → List (Ptr × ℕ) → SkipList → Option SkipList) (base : SkipList)
    (ys old new : List Ptr) (level bottom top : ℕ)
    (done : (i : ℕ) (sl : SkipList) → loop i [] sl ≡ some sl)
    (turn : (i : ℕ) (s : Ptr × ℕ) (ss : List (Ptr × ℕ)) (sl : SkipList)
      → bottom ≤ i
      → i < top
      → SameRest base sl
      → TraceAt base ys i s
      → NodesAt sl i old
      → (sl' : SkipList) × (loop i (s ∷ ss) sl ≡ loop (suc i) ss sl')
        × OnlyLevel i sl sl'
        × NodesAt sl' i new) where
  -- The loop over the levels from `i` to `top` ends, and has linked the new list there.
  pub level_loop :
      (i : ℕ) (ss : List (Ptr × ℕ)) (sl : SkipList)
      → bottom ≤ i
      → i + length ss ≡ top
      → top ≤ level
      → SameRest base sl
      → AllTrace base ys i ss
      → LinkedUpTo sl level old new i
      → (sl' : SkipList) × (loop i ss sl ≡ some sl')
        × SameRest base sl'
        × SameAbove sl sl' top
        × LinkedUpTo sl' level old new top
  level_loop i [] sl low e high same trace linked = (
    sl,
    done i sl,
    same,
    (λ y j h. refl),
    (λ j h. subst (λ n. NodesAt sl j (if ltb j n then new else old)) (omega arith) (linked j h)),
  )
  level_loop i (s ∷ ss) sl low e high same trace linked =
      let below : ltb i i ≡ false = ground arith in
      let here : NodesAt sl i old = subst (NodesAt sl i) (rw below) (linked i (omega arith)) in
      let (sl1, step, only, now) = turn i s ss sl low (omega arith) same trace.0 here in
      let (sl', run, rest, above, all) =
        level_loop (suc i) ss sl1 (omega arith) (omega arith) high (SameRest-trans same only.rest)
          trace.1 (turned sl1 only now) in
      (sl', step ∙ run, rest, (λ y j h. above y j h ∙ only.others y j (omega arith)), all)
    where
      turned :
          (sl1 : SkipList)
          → OnlyLevel i sl sl1
          → NodesAt sl1 i new
          → LinkedUpTo sl1 level old new (suc i)
      turned sl1 only now j h = elim (Bool-cases (i == j)) [
        | inl e ↦
            let below : ltb j (suc i) ≡ true = ground (arith, e) in
            rw below (subst (λ n. NodesAt sl1 n new) (==-eq e) now)
        | inr e ↦
            let same_side : ltb j (suc i) ≡ ltb j i = ground (arith, e) in
            rw same_side (
              NodesAt-same sl sl1 j _ (λ y _. SameRest-tall only.rest j y)
                (λ y _. only.others y j (ground (arith, e))) (linked j h))
      ]
