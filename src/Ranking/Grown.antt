-- ===== src/Ranking/Grown.antt =====
-- The heap of insert of ranking/ranking.go in front of its loops over the levels.
use touch_go_core.Prelude.{
  ℕ, suc, ◌+◌, ◌<◌, ◌≤◌, List, [], ◌∷◌, ◌++◌, ◌==◌, ltb, true, false, length, length-append, ◌≡◌,
  ◌≢◌, refl, ap, ◌∙◌, arith, Bool-cases, inl, inr,
}
use touch_go_core.Prelude.Ptr.{Ptr, null, has, Distinct, ==-swap, ==-refl, has-append}
use touch_go_core.Ranking.{SkipList, SkipListNode, level_of, skip_list_max_level, put_node, lowest}
use touch_go_core.Ranking.Walk.{tall}
use touch_go_core.Ranking.Levels.{NodesAt, NoneTall, NodesAt-same, height}
use touch_go_core.Ranking.LevelLoop.{SameRest-tall, AllTrace}
use touch_go_core.Ranking.Splice.{ne-has, NoneTall-same}
use touch_go_core.Ranking.Raise.{Raised}
use touch_go_core.Ranking.Shape.{Bones, Bones-same, NoneTall-heights, next_at-none, NodesAt-none}

abbrev pub grown : SkipList → ℕ → Ptr → SkipListNode → SkipList
grown sl level p n = put_node p n (record sl { level = level })

Raised-above :
    (sl raised : SkipList) (top i : ℕ) (xs : List Ptr)
    → NoneTall sl i xs
    → sl.length_32 ≡ length xs
    → Raised sl sl.level top raised
    → sl.level ≤ i
    → i < top
    → NodesAt raised i (sl.header ∷ xs)
Raised-above sl raised top i xs none counted r low high =
    let none' : NoneTall raised i xs = NoneTall-same sl raised i xs (SameRest-tall r.rest i) none in
    let (n, d) = next_at-none raised i xs none' in
    ((λ _. r.spans i low high ∙ rw (n, d, counted)), NodesAt-none raised i xs none')

-- The header at the levels that are new is linked past all nodes.
pub Raised-linked :
    (sl raised : SkipList) (top : ℕ) (xs : List Ptr)
    → Bones sl sl.level xs
    → ((i : ℕ) → i < sl.level → NodesAt sl i (sl.header ∷ xs))
    → sl.length_32 ≡ length xs
    → Raised sl sl.level top raised
    → (i : ℕ) → i < top
    → NodesAt raised i (sl.header ∷ xs)
Raised-linked sl raised top xs b linked counted r i high = elim (Bool-cases (ltb i sl.level)) [
  | inl e ↦
      NodesAt-same sl raised i (sl.header ∷ xs) (λ y _. SameRest-tall r.rest i y)
        (λ y _. r.below y i (ground (arith, e))) (linked i (ground (arith, e)))
  | inr e ↦
      Raised-above sl raised top i xs
        (NoneTall-heights sl i xs (λ y h. ground (arith, (b.heights y h).1, e))) counted r
        (ground (arith, e)) high
]

pub Raised-Bones :
    (sl raised : SkipList) (top : ℕ) (xs : List Ptr)
    → Bones sl sl.level xs
    → sl.level ≤ top
    → top ≤ skip_list_max_level
    → Raised sl sl.level top raised
    → Bones raised top xs
Raised-Bones sl raised top xs b low high r = Bones-same sl raised top xs r.rest r.above (record {
  level_min = omega (arith, b.level_min, low);
  level_max = high;
  header_height = b.header_height;
  empty_above = λ j l h. b.empty_above j (omega (arith, low, l)) h;
  heights = λ y h. let (a, c) = b.heights y h in (a, omega (arith, c, low));
  alive = b.alive;
  distinct = b.distinct;
})

-- The new node changes nothing of the others.
pub grown-tall :
    (sl : SkipList) (level i : ℕ) (p y : Ptr) (n : SkipListNode)
    → (p == y) ≡ false
    → tall (grown sl level p n) i y ≡ tall sl i y
grown-tall sl level i p y n e = rw e

grown-link :
    (sl : SkipList) (level i : ℕ) (p y : Ptr) (n : SkipListNode)
    → (p == y) ≡ false
    → level_of (grown sl level p n) y i ≡ level_of sl y i
unfolding level_of
grown-link sl level i p y n e = rw e

pub grown-linked :
    (sl : SkipList) (level i : ℕ) (p : Ptr) (n : SkipListNode) (ys : List Ptr)
    → has p ys ≡ false
    → NodesAt sl i ys
    → NodesAt (grown sl level p n) i ys
grown-linked sl level i p n ys h =
    NodesAt-same sl (grown sl level p n) i ys
      (λ y m. grown-tall sl level i p y n (ne-has p y ys h m))
      (λ y m. grown-link sl level i p y n (ne-has p y ys h m))

Distinct-insert :
    (p : Ptr) (ps zs : List Ptr)
    → Distinct (ps ++ zs)
    → has p (ps ++ zs) ≡ false
    → Distinct (ps ++ p ∷ zs)
Distinct-insert p [] zs d h = (h, d)
Distinct-insert p (y ∷ ps) zs d h = (
  ground (arith, d.0, has-append y ps zs, has-append y ps (p ∷ zs), h, ==-swap y p),
  Distinct-insert p ps zs d.1 (ground (arith, h)),
)

pub grown-Bones :
    (sl : SkipList) (level : ℕ) (p : Ptr) (n : SkipListNode) (ps zs : List Ptr)
    → Bones sl level (ps ++ zs)
    → has p (sl.header ∷ (ps ++ zs)) ≡ false
    → p ≢ null
    → 0 < length n.levels
    → length n.levels ≤ level
    → Bones (grown sl level p n) level (ps ++ p ∷ zs)
grown-Bones sl level p n ps zs b fresh live low high =
    let apart : (p == sl.header) ≡ false = ground (arith, fresh) in
    record {
      level_min = b.level_min;
      level_max = b.level_max;
      header_height = rw apart b.header_height;
      empty_above = λ j l h.
          let (m, e) = b.empty_above j l h in (m, grown-link sl level j p sl.header n apart ∙ e);
      heights = λ y h. elim (Bool-cases (p == y)) [
        | inl e ↦ rw e (low, high)
        | inr e ↦ rw e (
            b.heights y
              (ground (arith, h, e, ==-swap y p e, has-append y ps zs, has-append y ps (p ∷ zs))))
      ];
      alive = ground (arith, b.alive, live, has-append null ps zs, has-append null ps (p ∷ zs));
      distinct = Distinct-insert p (sl.header ∷ ps) zs b.distinct fresh;
    }

-- At the lowest level the search stops right in front of the place.
pub lowest-rank :
    (base : SkipList) (x d : Ptr) (ps : List Ptr) (trace : List (Ptr × ℕ))
    → 0 < length trace
    → AllTrace base (x ∷ ps) 0 trace
    → ((y : Ptr) → has y (x ∷ ps) ≡ true → 0 < height base y)
    → (lowest d trace).1 ≡ length ps
lowest-rank base x d ps [] h all high = absurd (omega (arith, h))
lowest-rank base x d ps (s ∷ ss) h all high =
    let t = all.0 in
    let size : suc (length ps) ≡ length t.front + suc (length t.mid) =
      ap length t.parts ∙ length-append t.front (s.0 ∷ t.mid) in
    t.rank ∙ omega (arith, size, ap length (none_left t.front t.mid t.parts t.none))
  where
    none_left :
        (front mid : List Ptr) → x ∷ ps ≡ front ++ s.0 ∷ mid → NoneTall base 0 mid → mid ≡ []
    none_left front [] e none = refl
    none_left front (m ∷ mid) e none =
        let member : has m (x ∷ ps) ≡ true =
          ap (has m) e ∙ has-append m front (s.0 ∷ (m ∷ mid)) ∙ ground (arith, ==-refl m) in
        let tall_m = high m member in absurd (ground (arith, tall_m, none.0))
