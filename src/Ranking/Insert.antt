-- ===== src/Ranking/Insert.antt =====
-- insert of ranking/ranking.go: it puts the new node at its place and keeps the shape of the list.
use mathlib.Core.Path.{subst}
use touch_go_core.Prelude.{
  ℕ, suc, ◌+◌, ◌-◌, ◌<◌, ◌≤◌, List, ◌∷◌, ◌++◌, some, ◌==◌, if◌then◌else◌, ltb, true, false, length,
  length-append, ◌≡◌, ◌≢◌, sym, ap, ◌∙◌, arith, Bool-cases, inl, inr, replicate, length-replicate,
}
use touch_go_core.Prelude.Int.{ℤ}
use touch_go_core.Prelude.Ptr.{Ptr, null, has, Distinct, has-append, ==-eq, ==-swap, ==-refl}
use touch_go_core.Ranking.{
  SkipList, skip_list_max_level, word, lowest, insert, descend, raise_header, split_trace,
  link_levels, widen_levels, new_skip_list_node, add_32, zero_level,
}
use touch_go_core.Ranking.Walk.{add_32_small, AllAre}
use touch_go_core.Ranking.Levels.{NodesAt, SameTall, height}
use touch_go_core.Ranking.LevelLoop.{
  SameRest, SameAbove, SameRest-refl, SameRest-tall, AllTrace, LinkedUpTo-start, LinkedUpTo-end,
  level_loop,
}
use touch_go_core.Ranking.Splice.{ne-has}
use touch_go_core.Ranking.Link.{link_turn, widen_turn, link_levels_none, widen_levels_none}
use touch_go_core.Ranking.Descent.{descend-stops, AllStopped-AllTrace}
use touch_go_core.Ranking.Raise.{
  raise_header-Raised, split_trace-AllTrace, AllTrace-append, AllTrace-raised, AllTrace-same,
}
use touch_go_core.Ranking.Shape.{
  Bones, Bones-same, Shape, Shape-Linked, counted-Shape, NoneTall-heights,
}
use touch_go_core.Ranking.Grown.{
  grown, Raised-linked, Raised-Bones, grown-tall, grown-linked, grown-Bones, lowest-rank,
}
use touch_go_core.Ranking.Lookup.{Prefix-parts}

-- The new node, and that nothing else of the nodes and infos is new.
pub record Placed (sl sl' : SkipList) (p : Ptr) (key : ℤ) (at : Ptr) : Type 0 where
  pub new_key : (sl'.nodes p).key ≡ key
  pub new_info : (sl'.nodes p).info ≡ at
  pub keys : (y : Ptr) → (p == y) ≡ false → (sl'.nodes y).key ≡ (sl.nodes y).key
  pub node_infos : (y : Ptr) → (p == y) ≡ false → (sl'.nodes y).info ≡ (sl.nodes y).info
  pub infos : sl'.infos ≡ sl.infos
  pub header : sl'.header ≡ sl.header

insert_run :
    (fuel : ℕ) (p : Ptr) (level top : ℕ) (key : ℤ) (at : Ptr) (sl raised linked widened : SkipList)
    (trace us : List (Ptr × ℕ))
    → (if ltb sl.level level then level else sl.level) ≡ top
    → descend fuel sl.level sl key (sl.infos at) sl.header 0 ≡ some trace
    → raise_header (level - sl.level) sl.level sl ≡ some (us, raised)
    → link_levels 0
        (lowest sl.header trace).1
        p
        (split_trace level (trace ++ us)).0
        (grown raised top p (new_skip_list_node level key at))
      ≡ some linked
    → widen_levels level (split_trace level (trace ++ us)).1 linked ≡ some widened
    → insert fuel p level key at sl
      ≡ some (record widened { length_32 = add_32 widened.length_32 1 })
unfolding insert
insert_run fuel p level top key at sl raised linked widened trace us t d r l w = rw (d, r, t, l, w)

-- The loops over the levels, on the heap `base` in which the new node stands alone.
insert_loops :
    (base : SkipList) (x p : Ptr) (ps zs : List Ptr) (level top rank_0 : ℕ) (us vs : List (Ptr × ℕ))
    → height base p ≡ level
    → level ≤ top
    → Distinct (x ∷ (ps ++ zs))
    → has p (x ∷ (ps ++ zs)) ≡ false
    → suc (length (ps ++ zs)) < word
    → length ps ≡ rank_0
    → length us ≡ level
    → level + length vs ≡ top
    → AllTrace base (x ∷ ps) 0 us
    → AllTrace base (x ∷ ps) level vs
    → ((i : ℕ) → i < top → NodesAt base i (x ∷ (ps ++ zs)))
    → (linked : SkipList) × (widened : SkipList) × (link_levels 0 rank_0 p us base ≡ some linked)
      × (widen_levels level vs linked ≡ some widened)
      × SameRest base widened
      × SameAbove base widened top
      × ((i : ℕ) → i < top → NodesAt widened i (x ∷ (ps ++ p ∷ zs)))
insert_loops base x p ps zs level top rank_0 us vs tall_p low distinct fresh small rank n m tu tv
      start =
    let ys : List Ptr = x ∷ ps in
    let (linked, run, same, above, upto) =
      level_loop (λ i ss sl. link_levels i rank_0 p ss sl) base ys (ys ++ zs) (ys ++ p ∷ zs) top 0
        level (λ i sl. link_levels_none i rank_0 p sl)
        (λ i s ss sl _ reach same tr here.
          link_turn base ys zs p rank_0 distinct fresh small (omega (arith, rank)) i s ss sl
            (omega (arith, tall_p, reach)) same tr here)
        0 us base (omega arith) (omega (arith, n)) low (SameRest-refl base) tu
        (LinkedUpTo-start base top (ys ++ zs) (ys ++ p ∷ zs) start) in
    let (widened, run', same', above', upto') =
      level_loop widen_levels base ys (ys ++ zs) (ys ++ p ∷ zs) top level top widen_levels_none
        (λ i s ss sl over _ same tr here.
          widen_turn base ys zs p distinct fresh small i s ss sl (ground (arith, tall_p, over)) same
            tr here)
        level vs linked (omega arith) m (omega arith) same tv upto in
    (
      linked,
      widened,
      run,
      run',
      same',
      (λ y j h. above' y j h ∙ above y j (omega (arith, low, h))),
      LinkedUpTo-end widened top (ys ++ zs) (ys ++ p ∷ zs) upto',
    )

-- The trace and the heap with which the loops start.
record Start (fuel : ℕ) (p : Ptr) (level : ℕ) (key : ℤ) (at : Ptr) (sl : SkipList)
    (ps zs : List Ptr) : Type 0 where
  trace : List (Ptr × ℕ)
  raised : SkipList
  run : descend fuel sl.level sl key (sl.infos at) sl.header 0 ≡ some trace
  run_raised :
      raise_header (level - sl.level) sl.level sl
      ≡ some (replicate (level - sl.level) (sl.header, 0), raised)
  same : SameRest sl raised
  size : length trace ≡ sl.level
  bones : Bones raised (sl.level + (level - sl.level)) (ps ++ zs)
  linked : (i : ℕ) → i < sl.level + (level - sl.level) → NodesAt raised i (sl.header ∷ (ps ++ zs))
  all : AllTrace sl (sl.header ∷ ps) 0 (trace ++ replicate (level - sl.level) (sl.header, 0))
  rank : (lowest sl.header trace).1 ≡ length ps

start :
    (fuel : ℕ) (p : Ptr) (level : ℕ) (key : ℤ) (at : Ptr) (sl : SkipList) (ps zs : List Ptr)
    → Shape sl (ps ++ zs)
    → level ≤ skip_list_max_level
    → length (ps ++ zs) < fuel
    → AllAre sl key (sl.infos at) true ps
    → AllAre sl key (sl.infos at) false zs
    → Start fuel p level key at sl ps zs
start fuel p level key at sl ps zs s level_max enough h k =
    let b = s.bones in
    let lk = Shape-Linked sl (ps ++ zs) s in
    let n = level - sl.level in
    let (trace, run, size, stops) =
      descend-stops sl key (sl.infos at) fuel sl.level sl.header (ps ++ zs) 0 enough
        (omega (arith, s.size)) lk.from_header lk.nodes_linked
        (Prefix-parts sl key (sl.infos at) ps zs h k) in
    let (raised, run', r) =
      raise_header-Raised n sl.level sl (omega (arith, b.level_max, b.header_height, level_max))
        (λ j l e. b.empty_above j l (omega (arith, e, b.level_max, level_max))) in
    let low = AllStopped-AllTrace sl key (sl.infos at) 0 sl.header ps zs trace h k stops in
    record {
      trace = trace;
      raised = raised;
      run = run;
      run_raised = run';
      same = r.rest;
      size = size;
      bones =
          Raised-Bones sl raised (sl.level + n) (ps ++ zs) b (omega arith)
            (omega (arith, b.level_max, level_max)) r;
      linked = Raised-linked sl raised (sl.level + n) (ps ++ zs) b s.linked s.counted r;
      all = AllTrace-append sl (sl.header ∷ ps) 0 trace (replicate n (sl.header, 0)) low (
          subst (λ m. AllTrace sl (sl.header ∷ ps) m (replicate n (sl.header, 0)))
            (omega (arith, size))
            (AllTrace-raised sl sl.header ps n sl.level
              (omega (arith, b.level_max, b.header_height, level_max))
              (λ j e. NoneTall-heights sl j ps (λ y m.
                omega (arith, e, (b.heights y (ground (arith, m, has-append y ps zs))).1)))));
      rank =
          lowest-rank sl sl.header sl.header ps trace (omega (arith, size, b.level_min)) low
            (λ y m. high_enough y m);
    }
  where
    high_enough : (y : Ptr) → has y (sl.header ∷ ps) ≡ true → 0 < height sl y
    high_enough y m = elim (Bool-cases (sl.header == y)) [
      | inl e ↦ subst (λ z. 0 < height sl z) (==-eq e) (omega (arith, s.bones.header_height))
      | inr e ↦
          (s.bones.heights y (ground (arith, m, e, ==-swap y sl.header, has-append y ps zs))).0
    ]

node_height :
    (sl : SkipList) (top : ℕ) (p : Ptr) (level : ℕ) (key : ℤ) (at : Ptr)
    → (height (grown sl top p (new_skip_list_node level key at)) p ≡ level)
      × (length (new_skip_list_node level key at).levels ≡ level)
unfolding new_skip_list_node
node_height sl top p level key at =
    (rw (==-refl p) (length-replicate level zero_level), length-replicate level zero_level)

insert-Placed :
    (sl raised widened : SkipList) (top : ℕ) (p : Ptr) (level : ℕ) (key : ℤ) (at : Ptr) (n : ℕ)
    → SameRest sl raised
    → SameRest (grown raised top p (new_skip_list_node level key at)) widened
    → Placed sl (record widened { length_32 = n }) p key at
unfolding new_skip_list_node
insert-Placed sl raised widened top p level key at n f g = record {
  new_key = g.keys p ∙ rw (==-refl p);
  new_info = g.node_infos p ∙ rw (==-refl p);
  keys = λ y e. g.keys y ∙ rw e (f.keys y);
  node_infos = λ y e. g.node_infos y ∙ rw e (f.node_infos y);
  infos = g.infos ∙ f.infos;
  header = g.header ∙ f.header;
}

-- In a list of the right shape with fewer than 2 ^ 32 - 1 nodes, `insert` of a fresh node of a level
-- from 1 to 32 ends: the nodes are then the ones that stand before the new one, the new one and the
-- others, linked with the right spans at every level and counted, and nothing else has changed.
pub insert-Shape :
    (fuel : ℕ) (p : Ptr) (level : ℕ) (key : ℤ) (at : Ptr) (sl : SkipList) (ps zs : List Ptr)
    → Shape sl (ps ++ zs)
    → has p (sl.header ∷ (ps ++ zs)) ≡ false
    → p ≢ null
    → 0 < level
    → level ≤ skip_list_max_level
    → suc (length (ps ++ zs)) < word
    → length (ps ++ zs) < fuel
    → AllAre sl key (sl.infos at) true ps
    → AllAre sl key (sl.infos at) false zs
    → (sl' : SkipList) × (insert fuel p level key at sl ≡ some sl')
      × Shape sl' (ps ++ p ∷ zs)
      × Placed sl sl' p key at
insert-Shape fuel p level key at sl ps zs s fresh live low high small enough h k =
    let st = start fuel p level key at sl ps zs s high enough h k in
    let n = level - sl.level in
    let top = sl.level + n in
    let node = new_skip_list_node level key at in
    let us = st.trace ++ replicate n (sl.header, 0) in
    let count : length us ≡ top =
      length-append st.trace (replicate n (sl.header, 0))
      ∙ omega (arith, st.size, length-replicate {A = Ptr × ℕ} n (sl.header, 0)) in
    let (tu, tv, c, d) =
      split_trace-AllTrace sl (sl.header ∷ ps) level 0 us (omega (arith, count)) st.all in
    let base = grown st.raised top p node in
    let (tall_p, node_levels) = node_height st.raised top p level key at in
    let same_tall : (j : ℕ) → SameTall sl base j (sl.header ∷ ps) = λ j y m.
      grown-tall st.raised top j p y node
        (ne-has p y (sl.header ∷ ps) (ground (arith, fresh, has-append p ps zs)) m)
      ∙ SameRest-tall st.same j y in
    let (linked, widened, run, run', same, above, done) =
      insert_loops base sl.header p ps zs level top (lowest sl.header st.trace).1
        (split_trace level us).0 (split_trace level us).1 tall_p (omega arith) s.bones.distinct
        fresh small (sym st.rank) c (omega (arith, d, count))
        (AllTrace-same sl base (sl.header ∷ ps) 0 (split_trace level us).0 same_tall tu)
        (subst (λ m. AllTrace base (sl.header ∷ ps) m (split_trace level us).1) (omega arith)
          (AllTrace-same sl base (sl.header ∷ ps) (0 + level) (split_trace level us).1 same_tall
            tv))
        (λ i e.
          grown-linked st.raised top i p node (sl.header ∷ (ps ++ zs)) fresh (st.linked i e)) in
    let bones = Bones-same base widened top (ps ++ p ∷ zs) same above (
      grown-Bones st.raised top p node ps zs st.bones
        (subst (λ x. has p (x ∷ (ps ++ zs)) ≡ false) (sym st.same.header) fresh) live
        (omega (arith, low, node_levels)) (omega (arith, node_levels))) in
    let more : suc (length (ps ++ zs)) ≡ length (ps ++ p ∷ zs) =
      omega (arith, length-append ps zs, length-append ps (p ∷ zs)) in
    (
      record widened { length_32 = add_32 widened.length_32 1 },
      insert_run fuel p level top key at sl st.raised linked widened st.trace
          (replicate n (sl.header, 0)) (ground arith) st.run st.run_raised run run',
      counted-Shape widened widened.level (add_32 widened.length_32 1) sl.header (ps ++ p ∷ zs)
          (same.header ∙ st.same.header)
          (subst (λ l. Bones widened l (ps ++ p ∷ zs)) (sym same.level) bones)
          (λ i e. done i (omega (arith, e, same.level)))
          (ap (λ m. add_32 m 1) (same.length_32 ∙ st.same.length_32 ∙ s.counted)
            ∙ add_32_small (length (ps ++ zs)) 1 (omega (arith, small))
            ∙ omega (arith, more))
          (omega (arith, more, small)),
      insert-Placed sl st.raised widened top p level key at (add_32 widened.length_32 1) st.same
          same,
    )
