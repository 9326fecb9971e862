-- ===== src/Ranking/Link.antt =====
-- One turn of the loops of insert of ranking/ranking.go: the new node put in, or passed over, at one
-- level.
use mathlib.Core.Path.{subst}
use touch_go_core.Prelude.{
  ℕ, suc, ◌+◌, ◌<◌, List, [], ◌∷◌, ◌++◌, some, ◌==◌, true, false, length, length-append, ◌≡◌, refl,
  sym, ap, ◌∙◌, arith,
}
use touch_go_core.Prelude.Ptr.{Ptr, has, has-append, Distinct, ==-swap}
use touch_go_core.Ranking.{
  SkipList, SkipListLevel, level_of, put_level, add_32, sub_32, word, link_levels, widen_levels,
}
use touch_go_core.Ranking.Walk.{tall, next_at, distance, add_32_small}
use touch_go_core.Ranking.Levels.{
  NodesAt, NodesAt-same, NodesAt-drop, next_at-same, height, put_level_self, put_level_other,
  height-put_level,
}
use touch_go_core.Ranking.LevelLoop.{
  SameRest, SameRest-tall, OnlyLevel, OnlyLevel-trans, OnlyLevel-put_level, TraceAt,
}
use touch_go_core.Ranking.Splice.{meet, splice, one_write, link, ne-has, distance-bound}

sub_32_part : (a b : ℕ) → a + b < word → sub_32 (a + b) a ≡ b
unfolding sub_32
sub_32_part a b h = omega arith

span_behind : (m d : ℕ) → m + d < word → add_32 (sub_32 (m + d) (suc m)) 1 ≡ d
unfolding add_32 sub_32
span_behind m d h = omega arith

-- The link to a node that reaches the level.
to_next :
    (sl : SkipList) (i : ℕ) (p : Ptr) (zs : List Ptr) (m : ℕ)
    → tall sl i p ≡ true
    → link p (suc m) ≡ link (next_at sl i (p ∷ zs)) (m + distance sl i (p ∷ zs))
to_next sl i p zs m t = rw t (ap (link p) (omega arith))

link_levels_turn :
    (i rank_0 span behind : ℕ) (p : Ptr) (s : Ptr × ℕ) (ss : List (Ptr × ℕ)) (sl : SkipList)
    (l : SkipListLevel)
    → level_of sl s.0 i ≡ some l
    → add_32 (sub_32 rank_0 s.1) 1 ≡ span
    → add_32 (sub_32 l.span span) 1 ≡ behind
    → link_levels i rank_0 p (s ∷ ss) sl
      ≡ link_levels (suc i) rank_0 p ss (
          put_level s.0 i
            (record { forward = p; span = span })
            (put_level p i (record { forward = l.forward; span = behind }) sl))
unfolding link_levels
link_levels_turn i rank_0 span behind p s ss sl l e r b = rw (link_levels, e, r, b)

pub link_levels_none :
    (i rank_0 : ℕ) (p : Ptr) (sl : SkipList) → link_levels i rank_0 p [] sl ≡ some sl
unfolding link_levels
link_levels_none i rank_0 p sl = refl

pub widen_levels_none : (i : ℕ) (sl : SkipList) → widen_levels i [] sl ≡ some sl
unfolding widen_levels
widen_levels_none i sl = refl

widen_levels_turn :
    (i : ℕ) (s : Ptr × ℕ) (ss : List (Ptr × ℕ)) (sl : SkipList) (l : SkipListLevel)
    → level_of sl s.0 i ≡ some l
    → widen_levels i (s ∷ ss) sl
      ≡ widen_levels (suc i) ss (put_level s.0 i (link l.forward (add_32 l.span 1)) sl)
unfolding widen_levels
widen_levels_turn i s ss sl l e = rw (widen_levels, e)

module _ (base : SkipList) (ys zs : List Ptr) (p : Ptr) where
  pub link_turn :
      (rank_0 : ℕ)
      → Distinct (ys ++ zs)
      → has p (ys ++ zs) ≡ false
      → length (ys ++ zs) < word
      → length ys ≡ suc rank_0
      → (i : ℕ) (s : Ptr × ℕ) (ss : List (Ptr × ℕ)) (sl : SkipList) → i < height base p
      → SameRest base sl
      → TraceAt base ys i s
      → NodesAt sl i (ys ++ zs)
      → (sl' : SkipList) × (link_levels i rank_0 p (s ∷ ss) sl
          ≡ link_levels (suc i) rank_0 p ss sl')
        × OnlyLevel i sl sl'
        × NodesAt sl' i (ys ++ p ∷ zs)
  link_turn rank_0 distinct absent small counted i s ss sl reach same tr linked =
      let t = meet base sl i ys zs s same tr distinct linked in
      let m = length t.mid in
      let d = distance sl i zs in
      let total : length ys + length zs < word = omega (arith, small, length-append ys zs) in
      let fits : m + d < word = omega (arith, total, t.size, distance-bound sl i zs) in
      let new_rank : add_32 (sub_32 rank_0 s.1) 1 ≡ suc m =
        ap (λ r. add_32 (sub_32 rank_0 r) 1) t.rank
        ∙ ap (λ r. add_32 (sub_32 r (length t.front)) 1) (omega (arith, counted, t.size))
        ∙ ap (λ r. add_32 r 1) (sub_32_part (length t.front) m (omega (arith, total, t.size)))
        ∙ add_32_small m 1 (omega (arith, total, t.size))
        ∙ omega arith in
      let own : SkipListLevel = record { forward = next_at sl i zs; span = d } in
      let to_p : SkipListLevel = record { forward = p; span = suc m } in
      let placed = put_level p i own sl in
      let sl' = put_level s.0 i to_p placed in
      let only =
        OnlyLevel-trans (OnlyLevel-put_level sl p i own) (OnlyLevel-put_level placed s.0 i to_p) in
      let in_whole : has p (t.front ++ s.0 ∷ (t.mid ++ zs)) ≡ false =
        subst (λ v. has p v ≡ false) t.parts absent in
      let p_front : has p t.front ≡ false =
        ground (arith, in_whole, has-append p t.front (s.0 ∷ (t.mid ++ zs))) in
      let p_u : (p == s.0) ≡ false =
        ground (arith, in_whole, has-append p t.front (s.0 ∷ (t.mid ++ zs))) in
      let p_back : has p zs ≡ false = ground (arith, absent, has-append p ys zs) in
      let tall_same = SameRest-tall only.rest i in
      let p_tall : tall sl' i p ≡ true =
        tall_same p ∙ SameRest-tall same i p ∙ ground (arith, reach) in
      let elsewhere : (y : Ptr)
          → (p == y) ≡ false
          → (s.0 == y) ≡ false
          → level_of sl' y i ≡ level_of sl y i =
        λ y a b. put_level_other placed s.0 y i i to_p b ∙ put_level_other sl p y i i own a in
      let u_height : i < height placed s.0 =
        ground (arith, height-put_level sl p s.0 i own, t.reaches) in
      let p_height : i < height sl p = ground (arith, same.heights p, reach) in
      let (n, dist) = next_at-same sl sl' i zs (λ y _. tall_same y) in
      (
        sl',
        link_levels_turn i rank_0 (suc m) d p s ss sl
            (record { forward = next_at sl i zs; span = m + d }) t.link new_rank
            (span_behind m d fits),
        only,
        subst (NodesAt sl' i) (sym (t.whole (p ∷ zs))) (
            splice sl sl' i t.front t.mid zs (p ∷ zs) s.0 only.rest t.none t.reaches
              (λ y h.
                elsewhere y (ne-has p y t.front p_front h) (ne-has s.0 y t.front t.once_front h))
              t.linked
              (put_level_self placed s.0 i to_p u_height
                ∙ ap some (to_next sl i p zs m (SameRest-tall same i p ∙ ground (arith, reach))))
              (
                (λ _.
                    put_level_other placed s.0 p i i to_p (==-swap s.0 p p_u)
                    ∙ put_level_self sl p i own p_height
                    ∙ rw (n, dist)),
                NodesAt-same sl sl' i zs (λ y _. tall_same y)
                    (λ y h. elsewhere y (ne-has p y zs p_back h) (ne-has s.0 y zs t.once_back h))
                    (NodesAt-drop sl i t.mid zs
                      (NodesAt-drop sl i t.front (s.0 ∷ (t.mid ++ zs)) t.linked).1),
              )),
      )

  pub widen_turn :
      Distinct (ys ++ zs)
      → has p (ys ++ zs) ≡ false
      → length (ys ++ zs) < word
      → (i : ℕ) (s : Ptr × ℕ) (ss : List (Ptr × ℕ)) (sl : SkipList) → tall base i p ≡ false
      → SameRest base sl
      → TraceAt base ys i s
      → NodesAt sl i (ys ++ zs)
      → (sl' : SkipList) × (widen_levels i (s ∷ ss) sl ≡ widen_levels (suc i) ss sl')
        × OnlyLevel i sl sl'
        × NodesAt sl' i (ys ++ p ∷ zs)
  widen_turn distinct absent small i s ss sl short same tr linked =
      let t = meet base sl i ys zs s same tr distinct linked in
      let m = length t.mid in
      let d = distance sl i zs in
      let fits : suc (m + d) < word =
        omega (arith, small, length-append ys zs, t.size, distance-bound sl i zs) in
      let p_short : tall sl i p ≡ false = SameRest-tall same i p ∙ short in
      let in_whole : has p (t.front ++ s.0 ∷ (t.mid ++ zs)) ≡ false =
        subst (λ v. has p v ≡ false) t.parts absent in
      let p_u : (p == s.0) ≡ false =
        ground (arith, in_whole, has-append p t.front (s.0 ∷ (t.mid ++ zs))) in
      let back =
        NodesAt-drop sl i t.mid zs (NodesAt-drop sl i t.front (s.0 ∷ (t.mid ++ zs)) t.linked).1 in
      let (only, now) =
        one_write sl i ys zs (p ∷ zs) s t (link (next_at sl i zs) (add_32 (m + d) 1))
          (past_p sl i m p_short (add_32_small (m + d) 1 (omega (arith, fits))))
          (ground (arith, ==-swap s.0 p p_u, t.once_back))
          ((λ e. absurd (ground (arith, e, p_short))), back) in
      (
        put_level s.0 i (link (next_at sl i zs) (add_32 (m + d) 1)) sl,
        widen_levels_turn i s ss sl (link (next_at sl i zs) (m + d)) t.link,
        only,
        now,
      )
    where
      past_p :
          (sl : SkipList) (i m : ℕ)
          → tall sl i p ≡ false
          → add_32 (m + distance sl i zs) 1 ≡ m + distance sl i zs + 1
          → link (next_at sl i zs) (add_32 (m + distance sl i zs) 1)
            ≡ link (next_at sl i (p ∷ zs)) (m + distance sl i (p ∷ zs))
      past_p sl i m short e = rw (short, e) (ap (link (next_at sl i zs)) (omega arith))
