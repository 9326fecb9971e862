-- ===== src/Ranking/Unlink.antt =====
-- One turn of the loop of remove of ranking/ranking.go: the node taken out at one level.
use touch_go_core.Prelude.{
  ℕ, suc, ◌+◌, ◌<◌, ◌≤◌, List, [], ◌∷◌, ◌++◌, some, ◌==◌, false, length, length-append, ◌≡◌, ◌≢◌,
  refl, ap, ◌∙◌, arith, Bool-cases, inl, inr,
}
use touch_go_core.Prelude.Ptr.{Ptr, null, has, Distinct, ==-refl}
use touch_go_core.Ranking.{
  SkipList, SkipListLevel, level_of, put_level, add_32, sub_32, word, unlink_levels, unlink_level,
}
use touch_go_core.Ranking.Walk.{tall, next_at, distance}
use touch_go_core.Ranking.Levels.{NodesAt, NodesAt-drop}
use touch_go_core.Ranking.LevelLoop.{SameRest, OnlyLevel, TraceAt}
use touch_go_core.Ranking.Splice.{meet, one_write, link, distance-bound, Distinct-drop}

span_joined : (m d : ℕ) → suc (m + d) < word → add_32 (m + 1) (sub_32 d 1) ≡ m + d
unfolding add_32 sub_32
span_joined m d h = omega arith

span_less : (m d : ℕ) → suc (m + d) < word → sub_32 (m + suc d) 1 ≡ m + d
unfolding sub_32
span_less m d h = omega arith

pub unlink_levels_none : (i : ℕ) (p : Ptr) (sl : SkipList) → unlink_levels i p [] sl ≡ some sl
unfolding unlink_levels
unlink_levels_none i p sl = refl

unlink_levels_turn :
    (i : ℕ) (p : Ptr) (s : Ptr × ℕ) (ss : List (Ptr × ℕ)) (sl : SkipList) (l l' : SkipListLevel)
    → level_of sl s.0 i ≡ some l
    → unlink_level sl p i l ≡ some l'
    → unlink_levels i p (s ∷ ss) sl ≡ unlink_levels (suc i) p ss (put_level s.0 i l' sl)
unfolding unlink_levels
unlink_levels_turn i p s ss sl l l' e u = rw (unlink_levels, e, u)

unlink_level_here :
    (i : ℕ) (p : Ptr) (sl : SkipList) (n : ℕ) (own : SkipListLevel)
    → level_of sl p i ≡ some own
    → unlink_level sl p i (link p n) ≡ some (link own.forward (add_32 n (sub_32 own.span 1)))
unfolding unlink_level
unlink_level_here i p sl n own e = rw (==-refl p, e)

unlink_level_past :
    (i : ℕ) (p : Ptr) (sl : SkipList) (f : Ptr) (n : ℕ)
    → (f == p) ≡ false
    → unlink_level sl p i (link f n) ≡ some (link f (sub_32 n 1))
unfolding unlink_level
unlink_level_past i p sl f n e = rw e

next_at-absent :
    (sl : SkipList) (i : ℕ) (p : Ptr) (zs : List Ptr)
    → p ≢ null
    → has p zs ≡ false
    → (next_at sl i zs == p) ≡ false
next_at-absent sl i p [] ne h = ground (arith, ne)
next_at-absent sl i p (z ∷ zs) ne h = ground (arith, next_at-absent sl i p zs ne, h)

module _ (base : SkipList) (ys zs : List Ptr) (p : Ptr) where
  pub unlink_turn :
      Distinct (ys ++ p ∷ zs)
      → p ≢ null
      → length (ys ++ p ∷ zs) ≤ word
      → (i : ℕ) (s : Ptr × ℕ) (ss : List (Ptr × ℕ)) (sl : SkipList) → SameRest base sl
      → TraceAt base ys i s
      → NodesAt sl i (ys ++ p ∷ zs)
      → (sl' : SkipList) × (unlink_levels i p (s ∷ ss) sl ≡ unlink_levels (suc i) p ss sl')
        × OnlyLevel i sl sl'
        × NodesAt sl' i (ys ++ zs)
  unlink_turn distinct ne small i s ss sl same tr linked =
      let t = meet base sl i ys (p ∷ zs) s same tr distinct linked in
      let m = length t.mid in
      let d = distance sl i zs in
      let fits : suc (m + d) < word =
        omega (arith, small, length-append ys (p ∷ zs), t.size, distance-bound sl i zs) in
      let behind = NodesAt-drop sl i ys (p ∷ zs) linked in
      let absent : has p zs ≡ false = (Distinct-drop ys (p ∷ zs) distinct).0 in
      let apart : has s.0 zs ≡ false = ground (arith, t.once_back) in
      let l' = link (next_at sl i zs) (m + d) in
      let unlinked : unlink_level sl p i (link (next_at sl i (p ∷ zs)) (m + distance sl i (p ∷ zs)))
          ≡ some l' =
        elim (Bool-cases (tall sl i p)) [
          | inl e ↦ rw e (
              unlink_level_here i p sl (m + 1) (link (next_at sl i zs) d) (behind.0 e)
              ∙ ap (λ n. some (link (next_at sl i zs) n)) (span_joined m d fits))
          | inr e ↦ rw e (
              unlink_level_past i p sl (next_at sl i zs) (m + suc d)
                (next_at-absent sl i p zs ne absent)
              ∙ ap (λ n. some (link (next_at sl i zs) n)) (span_less m d fits))
        ] in
      let (only, now) = one_write sl i ys (p ∷ zs) zs s t l' refl apart behind.1 in
      (put_level s.0 i l' sl, unlink_levels_turn i p s ss sl _ l' t.link unlinked, only, now)
