-- ===== src/Ranking/ByRank.antt =====
-- getFirstByRank and searchByRank of ranking/ranking.go on a linked skip list.
use mathlib.Core.List.{append_assoc}
use mathlib.Core.Path.{subst}
use touch_go_core.Prelude.{
  ℕ, zero, suc, ◌+◌, ◌-◌, ◌<◌, ◌≤◌, List, [], ◌∷◌, ◌++◌, none, some, ◌==◌, if◌then◌else◌, ltb, true,
  false, ◌||◌, length, length-append, get_elem?, ◌≡◌, refl, sym, ap, ◌∙◌, arith, Bool-cases, inl,
  inr, ◌⊎◌,
}
use touch_go_core.Prelude.Int.{pos, ltb_ℤ}
use touch_go_core.Ranking.Tree.{RankTree, query_by_rank}
use touch_go_core.Prelude.Ptr.{Ptr, null, ==-eq}
use touch_go_core.Ranking.{
  SkipList, SkipListLevel, level_of, add_32, gt_32, walk_rank, get_first_by_rank, search_by_rank,
}
use touch_go_core.Ranking.Walk.{
  LinksTo, AllLinked, next_at, distance, tall, next_at_split, add_32_small,
}
use touch_go_core.Ranking.Lookup.{Linked, key_of, first_at, node_ne_null}

-- Below this the bit patterns stand in their order.
abbrev pub half : ℕ
half = 2147483648

gt_32_small : (a b : ℕ) → a < half → b < half → gt_32 a b ≡ ltb b a
unfolding gt_32
gt_32_small a b h k = ground arith

get_elem?-middle : (mid ys : List Ptr) (f : Ptr) → get_elem? (mid ++ f ∷ ys) (length mid) ≡ some f
get_elem?-middle [] ys f = refl
get_elem?-middle (m ∷ mid) ys f = get_elem?-middle mid ys f

get_elem?-past :
    (mid ys : List Ptr) (f : Ptr) (n : ℕ)
    → get_elem? (mid ++ f ∷ ys) (suc (length mid) + n) ≡ get_elem? ys n
get_elem?-past [] ys f n = ap (get_elem? (f ∷ ys)) one_more
  where
    one_more : 1 + n ≡ suc n
    one_more = omega arith
get_elem?-past (m ∷ mid) ys f n =
    ap (get_elem? (m ∷ mid ++ f ∷ ys)) (one_more (length mid)) ∙ get_elem?-past mid ys f n
  where
    one_more : (l : ℕ) → suc (suc l) + n ≡ suc (suc l + n)
    one_more l = omega arith

module _ (sl : SkipList) where
  -- The walk for the node number `n` of `rest` ends at a level before it.
  record Rested (i : ℕ) (rest : List Ptr) (r n : ℕ) (stop : Ptr × ℕ) : Type 0 where
    passed : List Ptr
    left : List Ptr
    parts : rest ≡ passed ++ left
    counted : stop.1 ≡ r + length passed
    short : length passed ≤ n
    links : LinksTo sl (suc i) stop.0 left
    linked : AllLinked sl left
    ended : (next_at sl i left ≡ null) ⊎ (suc n < length passed + distance sl i left)

  abbrev Outcome : ℕ → ℕ → Ptr → List Ptr → ℕ → ℕ → Type 0
  Outcome k i x rest r n =
      ((stop : Ptr × ℕ) × (walk_rank k sl i (r + suc n) x r ≡ some (inl stop))
        × Rested i rest r n stop)
      ⊎ ((p : Ptr) × (walk_rank k sl i (r + suc n) x r ≡ some (inr p))
          × (get_elem? rest n ≡ some p))

  walk_rank-stop :
      (k i rank : ℕ) (x : Ptr) (r : ℕ) (l : SkipListLevel)
      → level_of sl x i ≡ some l
      → (l.forward == null || gt_32 (add_32 r l.span) rank) ≡ true
      → walk_rank (suc k) sl i rank x r ≡ some (inl (x, r))
  unfolding walk_rank
  walk_rank-stop k i rank x r l e h = rw (walk_rank, e, h)

  walk_rank-hit :
      (k i rank : ℕ) (x : Ptr) (r : ℕ) (l : SkipListLevel)
      → level_of sl x i ≡ some l
      → (l.forward == null || gt_32 (add_32 r l.span) rank) ≡ false
      → (add_32 r l.span == rank) ≡ true
      → walk_rank (suc k) sl i rank x r ≡ some (inr l.forward)
  unfolding walk_rank
  walk_rank-hit k i rank x r l e h t = rw (walk_rank, e, h, t)

  walk_rank-go :
      (k i rank : ℕ) (x : Ptr) (r : ℕ) (l : SkipListLevel)
      → level_of sl x i ≡ some l
      → (l.forward == null || gt_32 (add_32 r l.span) rank) ≡ false
      → (add_32 r l.span == rank) ≡ false
      → walk_rank (suc k) sl i rank x r ≡ walk_rank k sl i rank l.forward (add_32 r l.span)
  unfolding walk_rank
  walk_rank-go k i rank x r l e h t = rw (walk_rank, e, h, t)

  rest_here :
      (i : ℕ) (x : Ptr) (rest : List Ptr) (r n : ℕ)
      → LinksTo sl (suc i) x rest
      → AllLinked sl rest
      → (next_at sl i rest ≡ null) ⊎ (suc n < distance sl i rest)
      → Rested i rest r n (x, r)
  rest_here i x rest r n links linked w = record {
    passed = [];
    left = rest;
    parts = refl;
    counted = omega arith;
    short = omega arith;
    links = links;
    linked = linked;
    ended = elim w [ inl e ↦ inl e | inr h ↦ inr (omega arith) ];
  }

  -- A step to `f`, over the nodes `mid`, in front of what is left.
  rest_further :
      (i : ℕ) (rest mid ys : List Ptr) (f : Ptr) (r n : ℕ) (stop : Ptr × ℕ)
      → rest ≡ mid ++ f ∷ ys
      → Rested i ys (r + suc (length mid)) n stop
      → Rested i rest r (suc (length mid) + n) stop
  rest_further i rest mid ys f r n stop parts out = record {
    passed = mid ++ f ∷ out.passed;
    left = out.left;
    parts =
        parts ∙ ap (λ v. mid ++ f ∷ v) out.parts ∙ sym (append_assoc mid (f ∷ out.passed) out.left);
    counted = omega (arith, out.counted, length-append mid (f ∷ out.passed));
    short = omega (arith, out.short, length-append mid (f ∷ out.passed));
    links = out.links;
    linked = out.linked;
    ended = elim out.ended [
      | inl e ↦ inl e
      | inr h ↦ inr (omega (arith, h, length-append mid (f ∷ out.passed)))
    ];
  }

  further-Outcome :
      (k i : ℕ) (x : Ptr) (rest mid ys : List Ptr) (f : Ptr) (r n : ℕ)
      → rest ≡ mid ++ f ∷ ys
      → walk_rank (suc k) sl i (r + suc (suc (length mid) + n)) x r
        ≡ walk_rank k sl i (r + suc (length mid) + suc n) f (r + suc (length mid))
      → Outcome k i f ys (r + suc (length mid)) n
      → Outcome (suc k) i x rest r (suc (length mid) + n)
  further-Outcome k i x rest mid ys f r n parts run (inl (stop, e, out)) =
      inl (stop, run ∙ e, rest_further i rest mid ys f r n stop parts out)
  further-Outcome k i x rest mid ys f r n parts run (inr (p, e, at)) = inr (
    p,
    run ∙ e,
    ap (λ v. get_elem? v (suc (length mid) + n)) parts ∙ get_elem?-past mid ys f n ∙ at,
  )

  last_step :
      (mid : List Ptr) (r d n : ℕ) → d ≡ suc (length mid) → r + d ≡ r + suc n → n ≡ length mid
  last_step mid r d n h e = omega arith

  steps_left :
      (mid : List Ptr) (r d n : ℕ)
      → d ≡ suc (length mid)
      → ltb (r + suc n) (r + d) ≡ false
      → (r + d == r + suc n) ≡ false
      → suc (length mid) + (n - suc (length mid)) ≡ n
  steps_left mid r d n h fits miss = ground arith

  walk_rank-Outcome :
      (k i : ℕ) (x : Ptr) (rest : List Ptr) (r n : ℕ)
      → length rest < k
      → r + length rest < half
      → r + suc n < half
      → LinksTo sl (suc i) x rest
      → AllLinked sl rest
      → Outcome k i x rest r n
  walk_rank-Outcome zero i x rest r n fuel bound target links linked = absurd (omega arith)
  walk_rank-Outcome (suc k) i x rest r n fuel bound target links linked =
      let f = next_at sl i rest in
      let d = distance sl i rest in
      let l : SkipListLevel = record { forward = f; span = d } in
      let e = links i (omega arith) in
      elim (next_at_split sl i rest linked) [
        | inl (nil, _) ↦ inl (
          (x, r),
          walk_rank-stop k i (r + suc n) x r l e (ground (arith, nil)),
          rest_here i x rest r n links linked (inl nil),
        )
        | inr (mid, ys, parts, dist, t, all) ↦
            let size : length rest ≡ length mid + suc (length ys) =
              ap length parts ∙ length-append mid (f ∷ ys) in
            let sum : add_32 r d ≡ r + d = add_32_small r d (omega (arith, dist, size)) in
            let ne : (f == null) ≡ false = ground (arith, all.0) in
            let compared : gt_32 (add_32 r d) (r + suc n) ≡ ltb (r + suc n) (r + d) =
              ap (λ v. gt_32 v (r + suc n)) sum
              ∙ gt_32_small (r + d) (r + suc n) (omega (arith, dist, size)) target in
            elim (Bool-cases (ltb (r + suc n) (r + d))) [
              | inl over ↦ inl (
                (x, r),
                walk_rank-stop k i (r + suc n) x r l e (rw (ne, compared, over)),
                rest_here i x rest r n links linked (inr (ground (arith, over))),
              )
              | inr fits ↦
                  let within : (f == null || gt_32 (add_32 r d) (r + suc n)) ≡ false =
                    rw (ne, compared, fits) in
                  elim (Bool-cases (add_32 r d == r + suc n)) [
                    | inl hit ↦ inr (
                      f,
                      walk_rank-hit k i (r + suc n) x r l e within hit,
                      ap (λ v. get_elem? v n) parts
                          ∙ ap (get_elem? (mid ++ f ∷ ys))
                              (last_step mid r d n dist (sym sum ∙ ==-eq hit))
                          ∙ get_elem?-middle mid ys f,
                    )
                    | inr miss ↦
                        let m = n - suc (length mid) in
                        let more : suc (length mid) + m ≡ n =
                          steps_left mid r d n dist fits
                            (ap (λ v. v == r + suc n) (sym sum) ∙ miss) in
                        subst (Outcome (suc k) i x rest r) more (
                          further-Outcome k i x rest mid ys f r m parts
                            (walk_rank-go k i (r + suc (suc (length mid) + m)) x r l e
                                (ap (λ v. f == null || gt_32 (add_32 r d) (r + suc v)) more
                                  ∙ within)
                                (ap (λ v. add_32 r d == r + suc v) more ∙ miss)
                              ∙ ap (walk_rank k sl i (r + suc (suc (length mid) + m)) f)
                                  (sum ∙ ap (λ v. r + v) dist)
                              ∙ ap (λ v. walk_rank k sl i v f (r + suc (length mid))) (omega arith))
                            (walk_rank-Outcome k i f ys (r + suc (length mid)) m
                              (omega (arith, size)) (omega (arith, size))
                              (omega (arith, target, more)) (λ j h. all.2 j (ground (arith, t)))
                              all.3))
                  ]
            ]
      ]

  get_first_by_rank-hit :
      (k i rank : ℕ) (x : Ptr) (r : ℕ) (p : Ptr)
      → walk_rank k sl i rank x r ≡ some (inr p)
      → get_first_by_rank k (suc i) sl rank x r ≡ some p
  unfolding get_first_by_rank
  get_first_by_rank-hit k i rank x r p e = rw e

  get_first_by_rank-lower :
      (k i rank : ℕ) (x : Ptr) (r : ℕ) (stop : Ptr × ℕ)
      → walk_rank k sl i rank x r ≡ some (inl stop)
      → get_first_by_rank k (suc i) sl rank x r ≡ get_first_by_rank k i sl rank stop.0 stop.1
  unfolding get_first_by_rank
  get_first_by_rank-lower k i rank x r stop e = rw e

  -- The lowest level does not end before the node.
  not_at_end :
      (passed left : List Ptr) (n : ℕ)
      → AllLinked sl left
      → length passed ≤ n
      → n < length passed + length left
      → (next_at sl 0 left ≡ null) ⊎ (suc n < length passed + distance sl 0 left)
      → ⊥
  not_at_end passed [] n all short inside w = omega arith
  not_at_end passed (f ∷ more) n all short inside (inl nil) =
      all.0 (sym (first_at sl (f ∷ more) all) ∙ nil)
  not_at_end passed (f ∷ more) n all short inside (inr far) =
      let one_step : distance sl 0 (f ∷ more) ≡ 1 =
        let t : tall sl 0 f ≡ true = ground (arith, all.1) in rw t in
      omega (arith, far, one_step)

  get_elem?-left :
      (passed left : List Ptr) (n : ℕ)
      → length passed ≤ n
      → get_elem? (passed ++ left) n ≡ get_elem? left (n - length passed)
  get_elem?-left [] left n h = ap (get_elem? left) (omega arith)
  get_elem?-left (p ∷ passed) left zero h = absurd (omega arith)
  get_elem?-left (p ∷ passed) left (suc n) h =
      get_elem?-left passed left n (omega arith) ∙ ap (get_elem? left) (shifted (length passed) n)
    where
      shifted : (l n : ℕ) → n - l ≡ suc n - suc l
      shifted l n = omega arith

  -- Of the levels from `i` down, one reaches the node number `n`.
  get_first_by_rank-levels :
      (k i : ℕ) (x : Ptr) (rest : List Ptr) (r n : ℕ)
      → length rest < k
      → r + length rest < half
      → n < length rest
      → LinksTo sl (suc i) x rest
      → AllLinked sl rest
      → get_first_by_rank k (suc i) sl (r + suc n) x r ≡ get_elem? rest n
  get_first_by_rank-levels k zero x rest r n fuel bound inside links linked =
      elim (walk_rank-Outcome k 0 x rest r n fuel bound (omega arith) links linked) [
        | inr (p, e, at) ↦ get_first_by_rank-hit k 0 (r + suc n) x r p e ∙ sym at
        | inl (stop, e, out) ↦
            let size : length rest ≡ length out.passed + length out.left =
              ap length out.parts ∙ length-append out.passed out.left in
            absurd (
              not_at_end out.passed out.left n out.linked out.short (omega (arith, size)) out.ended)
      ]
  get_first_by_rank-levels k (suc i) x rest r n fuel bound inside links linked =
      elim (walk_rank-Outcome k (suc i) x rest r n fuel bound (omega arith) links linked) [
        | inr (p, e, at) ↦ get_first_by_rank-hit k (suc i) (r + suc n) x r p e ∙ sym at
        | inl (stop, e, out) ↦
            let size : length rest ≡ length out.passed + length out.left =
              ap length out.parts ∙ length-append out.passed out.left in
            let m = n - length out.passed in
            let lower =
              get_first_by_rank-levels k i stop.0 out.left stop.1 m (omega (arith, size))
                (omega (arith, size, out.counted)) (omega (arith, size, out.short))
                (λ j h. out.links j (omega arith)) out.linked in
            get_first_by_rank-lower k (suc i) (r + suc n) x r stop e
            ∙ ap (λ v. get_first_by_rank k (suc i) sl v stop.0 stop.1)
                (omega (arith, out.counted, out.short))
            ∙ lower
            ∙ sym
                (ap (λ v. get_elem? v n) out.parts ∙ get_elem?-left out.passed out.left n out.short)
      ]

-- In a linked skip list with fewer than 2 ^ 31 nodes, the search by rank gives the key and the info
-- of the node that stands at the rank, counted from 1.
pub search_by_rank-position :
    (fuel : ℕ) (sl : SkipList) (p : Ptr) (ys zs : List Ptr)
    → Linked sl (ys ++ p ∷ zs)
    → length (ys ++ p ∷ zs) < half
    → length (ys ++ p ∷ zs) < fuel
    → search_by_rank fuel sl (suc (length ys)) ≡ some (some (key_of sl p, (sl.nodes p).info))
unfolding search_by_rank
search_by_rank-position fuel sl p ys zs lk small enough =
    let at = by_level sl.level lk.some_level lk.from_header in
    let ne : (p == null) ≡ false = ground (arith, node_ne_null sl p ys zs lk.nodes_linked) in
    rw (at, ne)
  where
    by_level :
        (n : ℕ)
        → 0 < n
        → LinksTo sl n sl.header (ys ++ p ∷ zs)
        → get_first_by_rank fuel n sl (suc (length ys)) sl.header 0 ≡ some p
    by_level zero some_level links = absurd (omega arith)
    by_level (suc i) some_level links =
        ap (λ v. get_first_by_rank fuel (suc i) sl v sl.header 0) (omega arith)
        ∙ get_first_by_rank-levels sl fuel i sl.header (ys ++ p ∷ zs) 0 (length ys) enough
            (omega (arith, small)) (omega (arith, length-append ys (p ∷ zs))) links lk.nodes_linked
        ∙ get_elem?-middle ys zs p

-- QueryByRank of a linked list with fewer than 2 ^ 31 nodes gives the info at the rank when its key
-- is not negative, and nil when it is.
pub query_by_rank-position :
    (fuel : ℕ) (rt : RankTree) (p : Ptr) (ys zs : List Ptr)
    → Linked rt.sl (ys ++ p ∷ zs)
    → length (ys ++ p ∷ zs) < half
    → length (ys ++ p ∷ zs) < fuel
    → query_by_rank fuel (suc (length ys)) rt
      ≡ some (if ltb_ℤ (key_of rt.sl p) (pos 0) then none else some (rt.sl.nodes p).info)
unfolding query_by_rank
query_by_rank-position fuel rt p ys zs lk small enough =
    rw (search_by_rank-position fuel rt.sl p ys zs lk small enough)
