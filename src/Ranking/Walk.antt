-- ===== src/Ranking/Walk.antt =====
-- The search loops of ranking/ranking.go on a list that is linked as its nodes stand in order.
use mathlib.Core.List.{append_assoc}
use mathlib.Core.Path.{subst}
use touch_go_core.Prelude.{
  ℕ, zero, suc, ◌+◌, ◌<◌, List, [], ◌∷◌, ◌++◌, some, ◌==◌, if◌then◌else◌, ltb, Bool, true, false,
  length, length-append, ◌≡◌, ◌≢◌, refl, sym, ap, ◌∙◌, arith, Bool-cases, inl, inr, ◌⊎◌,
}
use touch_go_core.Prelude.Int.{ℤ}
use touch_go_core.Prelude.Ptr.{Ptr, null, last_of, last_of-append}
use touch_go_core.Ranking.{
  SkipList, SkipListLevel, RankInfo, level_of, walk_level, goes_before, add_32, word,
}

pub add_32_small : (a b : ℕ) → a + b < word → add_32 a b ≡ a + b
unfolding add_32
add_32_small a b h = omega arith

module _ (sl : SkipList) where
  -- The node is linked at the level `i`.
  abbrev pub tall : ℕ → Ptr → Bool
  tall i y = ltb i (length (sl.nodes y).levels)

  -- The next node at the level, and the number of steps to it, or to the end.
  abbrev pub next_at : ℕ → List Ptr → Ptr
  next_at i [] = null
  next_at i (y ∷ ys) = if tall i y then y else next_at i ys

  abbrev pub distance : ℕ → List Ptr → ℕ
  distance i [] = 0
  distance i (y ∷ ys) = suc (if tall i y then 0 else distance i ys)

  -- The links of `x`, behind which the nodes `rest` follow, at the levels below `h`.
  abbrev pub LinksTo : ℕ → Ptr → List Ptr → Type 0
  LinksTo h x rest =
      (i : ℕ)
      → i < h
      → level_of sl x i ≡ some (record { forward = next_at i rest; span = distance i rest })

  abbrev pub AllLinked : List Ptr → Type 0
  AllLinked [] = Unit {0}
  AllLinked (y ∷ ys) =
      (y ≢ null)
      × (0 < length (sl.nodes y).levels)
      × LinksTo (length (sl.nodes y).levels) y ys
      × AllLinked ys

  -- Where the next node at a level stands.
  pub next_at_split :
      (i : ℕ) (rest : List Ptr)
      → AllLinked rest
      → ((next_at i rest ≡ null) × (distance i rest ≡ length rest))
        ⊎ ((mid : List Ptr) × (ys : List Ptr) × (rest ≡ mid ++ next_at i rest ∷ ys)
            × (distance i rest ≡ suc (length mid))
            × (tall i (next_at i rest) ≡ true)
            × AllLinked (next_at i rest ∷ ys))
  next_at_split i [] all = inl (refl, refl)
  next_at_split i (y ∷ ys) all = elim (Bool-cases (tall i y)) [
    | inl t ↦ inr ([], ys, rw t, rw t, rw (t, t), rw t all)
    | inr t ↦ elim (next_at_split i ys all.3) [
      | inl (n, d) ↦ inl (rw t n, rw (t, d))
      | inr (mid, zs, e, d, k, a) ↦
          inr (y ∷ mid, zs, rw t (ap (λ v. y ∷ v) e), rw (t, d), rw t k, rw t a)
    ]
  ]

  module _ (key : ℤ) (info : RankInfo) where
    abbrev pub before : Ptr → Bool
    before p = goes_before sl p key info

    abbrev pub AllAre : Bool → List Ptr → Type 0
    AllAre b [] = Unit {0}
    AllAre b (y ∷ ys) = (before y ≡ b) × AllAre b ys

    -- The nodes that stand before the place come first.
    abbrev pub Prefix : List Ptr → Type 0
    Prefix [] = Unit {0}
    Prefix (y ∷ ys) = (before y ≡ false → AllAre false ys) × Prefix ys

    all_middle : (b : Bool) (mid ys : List Ptr) (f : Ptr) → AllAre b (mid ++ f ∷ ys) → before f ≡ b
    all_middle b [] ys f h = h.0
    all_middle b (y ∷ mid) ys f h = all_middle b mid ys f h.1

    Prefix-before :
        (mid ys : List Ptr) (f : Ptr)
        → Prefix (mid ++ f ∷ ys)
        → before f ≡ true
        → AllAre true mid × Prefix ys
    Prefix-before [] ys f h t = (tt, h.1)
    Prefix-before (y ∷ mid) ys f h t =
        let (all, rest) = Prefix-before mid ys f h.1 t in
        (
          (
            (elim (Bool-cases (before y)) [
              | inl e ↦ e
              | inr e ↦ absurd (ground (arith, all_middle false mid ys f (h.0 e), t))
            ]),
            all,
          ),
          rest,
        )

    pub AllAre-append :
        (b : Bool) (xs ys : List Ptr) → AllAre b xs → AllAre b ys → AllAre b (xs ++ ys)
    AllAre-append b [] ys h k = k
    AllAre-append b (x ∷ xs) ys h k = (h.0, AllAre-append b xs ys h.1 k)

    -- Where a walk at the levels down to `i` stops: at the last of the passed nodes, all of which
    -- stand before the place, with their number added to the rank.
    pub record Stopped (i : ℕ) (x : Ptr) (rest : List Ptr) (r : ℕ) (stop : Ptr × ℕ) : Type 0 where
      pub passed : List Ptr
      pub left : List Ptr
      pub parts : rest ≡ passed ++ left
      pub all_before : AllAre true passed
      pub at : stop.0 ≡ last_of x passed
      pub counted : stop.1 ≡ r + length passed
      pub links : LinksTo (suc i) stop.0 left
      pub linked : AllLinked left
      pub sorted : Prefix left
      pub ended : (next_at i left ≡ null) ⊎ (before (next_at i left) ≡ false)

    walk_level-null :
        (k i : ℕ) (x : Ptr) (r : ℕ) (l : SkipListLevel)
        → level_of sl x i ≡ some l
        → (l.forward == null) ≡ true
        → walk_level (suc k) sl i key info x r ≡ some (x, r)
    unfolding walk_level
    walk_level-null k i x r l e n = rw (walk_level, e, n)

    walk_level_stop :
        (k i : ℕ) (x : Ptr) (r : ℕ) (l : SkipListLevel)
        → level_of sl x i ≡ some l
        → before l.forward ≡ false
        → walk_level (suc k) sl i key info x r ≡ some (x, r)
    unfolding walk_level
    walk_level_stop k i x r l e b = elim (Bool-cases (l.forward == null)) [
      | inl n ↦ walk_level-null k i x r l e n
      | inr n ↦ rw (walk_level, e, n, b)
    ]

    walk_level_go :
        (k i : ℕ) (x : Ptr) (r : ℕ) (l : SkipListLevel)
        → level_of sl x i ≡ some l
        → (l.forward == null) ≡ false
        → before l.forward ≡ true
        → walk_level (suc k) sl i key info x r
          ≡ walk_level k sl i key info l.forward (add_32 r l.span)
    unfolding walk_level
    walk_level_go k i x r l e n b = rw (walk_level, e, n, b)

    -- With one step more than the nodes that follow, the walk stops where the place is.
    pub walk_level-stops :
        (k i : ℕ) (x : Ptr) (rest : List Ptr) (r : ℕ)
        → length rest < k
        → r + length rest < word
        → LinksTo (suc i) x rest
        → AllLinked rest
        → Prefix rest
        → (stop : Ptr × ℕ) × (walk_level k sl i key info x r ≡ some stop) × Stopped i x rest r stop
    walk_level-stops zero i x rest r fuel bound links linked sorted = absurd (omega arith)
    walk_level-stops (suc k) i x rest r fuel bound links linked sorted =
        let f = next_at i rest in
        let l : SkipListLevel = record { forward = f; span = distance i rest } in
        let e = links i (omega arith) in
        let here =
          λ (w : (f ≡ null) ⊎ (before f ≡ false)). stop_here i x rest r links linked sorted w in
        elim (next_at_split i rest linked) [
          | inl (n, d) ↦ ((x, r), walk_level-null k i x r l e (ground (arith, n)), here (inl n))
          | inr (mid, ys, parts, d, t, all) ↦ elim (Bool-cases (before f)) [
            | inr b ↦ ((x, r), walk_level_stop k i x r l e b, here (inr b))
            | inl b ↦
                let (before_mid, sorted') = Prefix-before mid ys f (subst Prefix parts sorted) b in
                let size : length rest ≡ length mid + suc (length ys) =
                  ap length parts ∙ length-append mid (f ∷ ys) in
                let step : add_32 r (distance i rest) ≡ r + suc (length mid) =
                  add_32_small r (distance i rest) (omega (arith, d, size)) ∙ ap (λ n. r + n) d in
                let (stop, run, out) =
                  walk_level-stops k i f ys (r + suc (length mid)) (omega (arith, size))
                    (omega (arith, size)) (λ j h. all.2 j (ground (arith, t))) all.3 sorted' in
                (
                  stop,
                  walk_level_go k i x r l e (ground (arith, all.0)) b
                      ∙ ap (walk_level k sl i key info f) step
                      ∙ run,
                  further i x rest r mid ys f stop parts before_mid b out,
                )
          ]
        ]
      where
        stop_here :
            (i : ℕ) (x : Ptr) (rest : List Ptr) (r : ℕ)
            → LinksTo (suc i) x rest
            → AllLinked rest
            → Prefix rest
            → (next_at i rest ≡ null) ⊎ (before (next_at i rest) ≡ false)
            → Stopped i x rest r (x, r)
        stop_here i x rest r links linked sorted w = record {
          passed = [];
          left = rest;
          parts = refl;
          all_before = tt;
          at = refl;
          counted = omega arith;
          links = links;
          linked = linked;
          sorted = sorted;
          ended = w;
        }

        further :
            (i : ℕ) (x : Ptr) (rest : List Ptr) (r : ℕ) (mid ys : List Ptr) (f : Ptr)
            (stop : Ptr × ℕ)
            → rest ≡ mid ++ f ∷ ys
            → AllAre true mid
            → before f ≡ true
            → Stopped i f ys (r + suc (length mid)) stop
            → Stopped i x rest r stop
        further i x rest r mid ys f stop parts before_mid b out = record {
          passed = mid ++ f ∷ out.passed;
          left = out.left;
          parts =
              parts
              ∙ ap (λ v. mid ++ f ∷ v) out.parts
              ∙ sym (append_assoc mid (f ∷ out.passed) out.left);
          all_before = AllAre-append true mid (f ∷ out.passed) before_mid (b, out.all_before);
          at = out.at ∙ sym (last_of-append x f mid out.passed);
          counted = omega (arith, out.counted, length-append mid (f ∷ out.passed));
          links = out.links;
          linked = out.linked;
          sorted = out.sorted;
          ended = out.ended;
        }

    last_of-join : (x : Ptr) (p q : List Ptr) → last_of x (p ++ q) ≡ last_of (last_of x p) q
    last_of-join x [] q = refl
    last_of-join x (y ∷ p) q = last_of-join y p q

    pub Stopped-join :
        (i j : ℕ) (x : Ptr) (rest : List Ptr) (r : ℕ) (stop low : Ptr × ℕ)
        → (out : Stopped i x rest r stop) → Stopped j stop.0 out.left stop.1 low
        → Stopped j x rest r low
    Stopped-join i j x rest r stop low out on = record {
      passed = out.passed ++ on.passed;
      left = on.left;
      parts =
          out.parts
          ∙ ap (λ v. out.passed ++ v) on.parts
          ∙ sym (append_assoc out.passed on.passed on.left);
      all_before = AllAre-append true out.passed on.passed out.all_before on.all_before;
      at = on.at ∙ ap (λ v. last_of v on.passed) out.at ∙ sym (last_of-join x out.passed on.passed);
      counted = omega (arith, on.counted, out.counted, length-append out.passed on.passed);
      links = on.links;
      linked = on.linked;
      sorted = on.sorted;
      ended = on.ended;
    }
