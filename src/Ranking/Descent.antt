-- ===== src/Ranking/Descent.antt =====
-- The descent of ranking/ranking.go: at every level it stops in front of the place.
use mathlib.Core.List.{append_assoc}
use mathlib.Core.Path.{subst}
use touch_go_core.Prelude.{
  ℕ, zero, suc, ◌+◌, ◌<◌, List, [], ◌∷◌, ◌++◌, some, ltb, true, false, length, length-append,
  get_elem?, ◌≡◌, refl, sym, ap, ◌∙◌, arith, Bool-cases, inl, inr, ◌⊎◌,
}
use touch_go_core.Prelude.Int.{ℤ}
use touch_go_core.Prelude.Ptr.{Ptr, null, last_of}
use touch_go_core.Ranking.{SkipList, SkipListLevel, RankInfo, walk_level, descend, word, level_of}
use touch_go_core.Ranking.Walk.{
  LinksTo, AllLinked, AllAre, Prefix, Stopped, Stopped-join, walk_level-stops, tall, next_at,
  distance, before,
}
use touch_go_core.Ranking.Levels.{NoneTall}
use touch_go_core.Ranking.LevelLoop.{TraceAt, AllTrace}

module _ (sl : SkipList) (key : ℤ) (info : RankInfo) where
  -- A search for the place stopped at each level.
  abbrev pub AllStopped : Ptr → List Ptr → ℕ → ℕ → List (Ptr × ℕ) → Type 0
  AllStopped x rest r i [] = Unit {0}
  AllStopped x rest r i (s ∷ ss) = Stopped sl key info i x rest r s × AllStopped x rest r (suc i) ss

  AllStopped-join :
      (i j : ℕ) (x : Ptr) (rest : List Ptr) (r : ℕ) (stop : Ptr × ℕ) (ss : List (Ptr × ℕ))
      → (out : Stopped sl key info i x rest r stop) → AllStopped stop.0 out.left stop.1 j ss
      → AllStopped x rest r j ss
  AllStopped-join i j x rest r stop [] out all = tt
  AllStopped-join i j x rest r stop (s ∷ ss) out all = (
    Stopped-join sl key info i j x rest r stop s out all.0,
    AllStopped-join i (suc j) x rest r stop ss out all.1,
  )

  AllStopped-snoc :
      (i j : ℕ) (x : Ptr) (rest : List Ptr) (r : ℕ) (stop : Ptr × ℕ) (ss : List (Ptr × ℕ))
      → j + length ss ≡ i
      → AllStopped x rest r j ss
      → Stopped sl key info i x rest r stop
      → AllStopped x rest r j (ss ++ stop ∷ [])
  AllStopped-snoc i j x rest r stop [] e all out =
      (subst (λ n. Stopped sl key info n x rest r stop) (omega arith) out, tt)
  AllStopped-snoc i j x rest r stop (s ∷ ss) e all out =
      (all.0, AllStopped-snoc i (suc j) x rest r stop ss (omega arith) all.1 out)

  descend_none : (k : ℕ) (stop : Ptr × ℕ) → descend k zero sl key info stop.0 stop.1 ≡ some []
  unfolding descend
  descend_none k stop = refl

  descend_last :
      (k i : ℕ) (x : Ptr) (r : ℕ) (stop : Ptr × ℕ) (lower : List (Ptr × ℕ))
      → walk_level k sl i key info x r ≡ some stop
      → descend k i sl key info stop.0 stop.1 ≡ some lower
      → descend k (suc i) sl key info x r ≡ some (lower ++ stop ∷ [])
  unfolding descend
  descend_last k i x r stop lower e d = rw (e, d)

  -- The descent ends, and stops at each level in front of the place.
  pub descend-stops :
      (k n : ℕ) (x : Ptr) (rest : List Ptr) (r : ℕ)
      → length rest < k
      → r + length rest < word
      → LinksTo sl n x rest
      → AllLinked sl rest
      → Prefix sl key info rest
      → (trace : List (Ptr × ℕ)) × (descend k n sl key info x r ≡ some trace)
        × (length trace ≡ n)
        × AllStopped x rest r 0 trace
  descend-stops k zero x rest r fuel bound links linked sorted =
      ([], descend_none k (x, r), refl, tt)
  descend-stops k (suc i) x rest r fuel bound links linked sorted =
      let (stop, run, out) =
        walk_level-stops sl key info k i x rest r fuel bound links linked sorted in
      let size : length rest ≡ length out.passed + length out.left =
        ap length out.parts ∙ length-append out.passed out.left in
      let (lower, on, count, all) =
        descend-stops k i stop.0 out.left stop.1 (omega (arith, size))
          (omega (arith, size, out.counted)) (λ j h. out.links j (omega arith)) out.linked
          out.sorted in
      (
        lower ++ stop ∷ [],
        descend_last k i x r stop lower run on,
        length-append lower (stop ∷ []) ∙ omega (arith, count),
        AllStopped-snoc i 0 x rest r stop lower (omega (arith, count))
            (AllStopped-join i 0 x rest r stop lower out all) out,
      )

  -- The passed nodes are the first of those in front of the place.
  passed_part :
      (passed left ps zs : List Ptr)
      → passed ++ left ≡ ps ++ zs
      → AllAre sl key info true passed
      → AllAre sl key info false zs
      → (mid : List Ptr) × (ps ≡ passed ++ mid) × (left ≡ mid ++ zs)
  passed_part [] left ps zs e h k = (ps, refl, e)
  passed_part (q ∷ passed) left [] [] e h k = absurd (ground (arith, e))
  passed_part (q ∷ passed) left [] (z ∷ zs) e h k = absurd (ground (arith, e, h.0, k.0))
  passed_part (q ∷ passed) left (y ∷ ps) zs e h k =
      let (mid, a, b) = passed_part passed left ps zs (ground (arith, e)) h.1 k in
      (mid, ground (arith, e, a), b)

  next_at-tall : (i : ℕ) (y : Ptr) (ys : List Ptr) → tall sl i y ≡ true → next_at sl i (y ∷ ys) ≡ y
  next_at-tall i y ys t = rw t

  next_at-short :
      (i : ℕ) (y : Ptr) (ys : List Ptr)
      → tall sl i y ≡ false
      → next_at sl i (y ∷ ys) ≡ next_at sl i ys
  next_at-short i y ys t = rw t

  -- Between the stop and the place no node reaches the level.
  none_between :
      (i : ℕ) (mid zs : List Ptr)
      → AllAre sl key info true mid
      → AllLinked sl (mid ++ zs)
      → (next_at sl i (mid ++ zs) ≡ null) ⊎ (before sl key info (next_at sl i (mid ++ zs)) ≡ false)
      → NoneTall sl i mid
  none_between i [] zs h all w = tt
  none_between i (y ∷ mid) zs h all w = elim (Bool-cases (tall sl i y)) [
    | inl t ↦ absurd (elim w [
      | inl n ↦ all.0 (sym (next_at-tall i y (mid ++ zs) t) ∙ n)
      | inr b ↦
          let b' = sym (ap (before sl key info) (next_at-tall i y (mid ++ zs) t)) ∙ b in
          ground (arith, h.0, b')
    ])
    | inr t ↦ (
      t,
      none_between i mid zs h.1 all.3 (
          subst (λ f. (f ≡ null) ⊎ (before sl key info f ≡ false)) (next_at-short i y (mid ++ zs) t)
            w),
    )
  ]

  AllAre-behind :
      (xs ys : List Ptr) → AllAre sl key info true (xs ++ ys) → AllAre sl key info true ys
  AllAre-behind [] ys h = h
  AllAre-behind (x ∷ xs) ys h = AllAre-behind xs ys h.1

  level_of-tall :
      (i : ℕ) (y : Ptr) (l : SkipListLevel) → level_of sl y i ≡ some l → tall sl i y ≡ true
  unfolding level_of
  level_of-tall i y l e = in_range (sl.nodes y).levels i e
    where
      in_range :
          (ls : List SkipListLevel) (j : ℕ) → get_elem? ls j ≡ some l → ltb j (length ls) ≡ true
      in_range [] j h = absurd (ground (arith, h))
      in_range (k ∷ ls) zero h = ground arith
      in_range (k ∷ ls) (suc j) h = ground (arith, in_range ls j h)

  last_parts :
      (x : Ptr) (passed : List Ptr)
      → (front : List Ptr) × (x ∷ passed ≡ front ++ last_of x passed ∷ [])
        × (length front ≡ length passed)
  last_parts x [] = ([], refl, refl)
  last_parts x (y ∷ passed) =
      let (front, e, n) = last_parts y passed in (x ∷ front, ap (λ v. x ∷ v) e, ap suc n)

  Stopped-TraceAt :
      (i : ℕ) (x : Ptr) (ps zs : List Ptr) (s : Ptr × ℕ)
      → AllAre sl key info true ps
      → AllAre sl key info false zs
      → Stopped sl key info i x (ps ++ zs) 0 s
      → TraceAt sl (x ∷ ps) i s
  Stopped-TraceAt i x ps zs s h k out =
      let (mid, e, l) = passed_part out.passed out.left ps zs (sym out.parts) out.all_before k in
      let (front, f, n) = last_parts x out.passed in
      record {
        front = front;
        mid = mid;
        parts =
            ap (λ v. x ∷ v) e
            ∙ ap (λ v. v ++ mid) f
            ∙ append_assoc front (last_of x out.passed ∷ []) mid
            ∙ ap (λ v. front ++ v ∷ mid) (sym out.at);
        rank = out.counted ∙ omega (arith, n);
        none =
            none_between i mid zs
              (AllAre-behind out.passed mid (subst (AllAre sl key info true) e h))
              (subst (AllLinked sl) l out.linked)
              (subst (λ v. (next_at sl i v ≡ null) ⊎ (before sl key info (next_at sl i v) ≡ false))
                l out.ended);
        reaches =
            level_of-tall i s.0
              (record { forward = next_at sl i out.left; span = distance sl i out.left })
              (out.links i (omega arith));
      }

  pub AllStopped-AllTrace :
      (i : ℕ) (x : Ptr) (ps zs : List Ptr) (ss : List (Ptr × ℕ))
      → AllAre sl key info true ps
      → AllAre sl key info false zs
      → AllStopped x (ps ++ zs) 0 i ss
      → AllTrace sl (x ∷ ps) i ss
  AllStopped-AllTrace i x ps zs [] h k all = tt
  AllStopped-AllTrace i x ps zs (s ∷ ss) h k all =
      (Stopped-TraceAt i x ps zs s h k all.0, AllStopped-AllTrace (suc i) x ps zs ss h k all.1)
