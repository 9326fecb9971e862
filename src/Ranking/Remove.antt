-- ===== src/Ranking/Remove.antt =====
-- remove of ranking/ranking.go: it takes the node out, lowers the level, and keeps the shape.
use touch_go_core.Prelude.{
  ℕ, suc, ◌+◌, ◌<◌, List, [], ◌∷◌, ◌++◌, some, true, false, length, length-append, ◌≡◌, ◌≢◌, sym,
  ap, ◌∙◌, arith,
}
use touch_go_core.Prelude.Int.{ℤ}
use touch_go_core.Prelude.Ptr.{Ptr, null, first, Distinct, has-append}
use touch_go_core.Ranking.{
  SkipList, RankInfo, level_of, word, lowest, remove, remove_node, descend, unlink_levels,
  lower_level, sub_32, found,
}
use touch_go_core.Ranking.Walk.{tall, next_at, distance, AllAre, AllLinked}
use touch_go_core.Ranking.Levels.{NodesAt}
use touch_go_core.Ranking.LevelLoop.{
  SameRest-refl, AllTrace, LinkedUpTo-start, LinkedUpTo-end, level_loop,
}
use touch_go_core.Ranking.Splice.{link, meet}
use touch_go_core.Ranking.Unlink.{unlink_turn, unlink_levels_none}
use touch_go_core.Ranking.Descent.{descend-stops, AllStopped-AllTrace}
use touch_go_core.Ranking.Shape.{Bones, Bones-same, Shape, Shape-Linked, counted-Shape}
use touch_go_core.Ranking.Lower.{lower_level-lowered, Bones-lower}
use touch_go_core.Ranking.Lookup.{Prefix-parts, first_at}

-- What a change of nothing but links and counts leaves alone.
pub record Kept (sl sl' : SkipList) : Type 0 where
  pub keys : (y : Ptr) → (sl'.nodes y).key ≡ (sl.nodes y).key
  pub node_infos : (y : Ptr) → (sl'.nodes y).info ≡ (sl.nodes y).info
  pub infos : sl'.infos ≡ sl.infos
  pub header : sl'.header ≡ sl.header

Distinct-without : (p : Ptr) (ps zs : List Ptr) → Distinct (ps ++ p ∷ zs) → Distinct (ps ++ zs)
Distinct-without p [] zs d = d.1
Distinct-without p (y ∷ ps) zs d = (
  ground (arith, d.0, has-append y ps zs, has-append y ps (p ∷ zs)),
  Distinct-without p ps zs d.1,
)

Bones-without :
    (sl : SkipList) (level : ℕ) (p : Ptr) (ps zs : List Ptr)
    → Bones sl level (ps ++ p ∷ zs)
    → Bones sl level (ps ++ zs)
Bones-without sl level p ps zs b = record {
  level_min = b.level_min;
  level_max = b.level_max;
  header_height = b.header_height;
  empty_above = b.empty_above;
  heights = λ y m. b.heights y (ground (arith, m, has-append y ps zs, has-append y ps (p ∷ zs)));
  alive = ground (arith, b.alive, has-append null ps zs, has-append null ps (p ∷ zs));
  distinct = Distinct-without p (sl.header ∷ ps) zs b.distinct;
}

sub_32_one : (n : ℕ) → suc n < word → sub_32 (suc n) 1 ≡ n
unfolding sub_32
sub_32_one n h = omega arith

-- Where the search for the place ends, with the link of its lowest stop.
record Reached (fuel : ℕ) (key : ℤ) (info : RankInfo) (sl : SkipList) (ps zs : List Ptr)
    : Type 0 where
  trace : List (Ptr × ℕ)
  run : descend fuel sl.level sl key info sl.header 0 ≡ some trace
  size : length trace ≡ sl.level
  all : AllTrace sl (sl.header ∷ ps) 0 trace
  span : ℕ
  next : level_of sl (lowest sl.header trace).0 0 ≡ some (link (first zs null) span)

reach :
    (fuel : ℕ) (key : ℤ) (info : RankInfo) (sl : SkipList) (ps zs : List Ptr)
    → Shape sl (ps ++ zs)
    → length (ps ++ zs) < fuel
    → AllAre sl key info true ps
    → AllAre sl key info false zs
    → Reached fuel key info sl ps zs
reach fuel key info sl ps zs s enough h k =
    let lk = Shape-Linked sl (ps ++ zs) s in
    let (trace, run, size, stops) =
      descend-stops sl key info fuel sl.level sl.header (ps ++ zs) 0 enough (omega (arith, s.size))
        lk.from_header lk.nodes_linked (Prefix-parts sl key info ps zs h k) in
    let all = AllStopped-AllTrace sl key info 0 sl.header ps zs trace h k stops in
    let (span, next) = next_of trace (omega (arith, size, lk.some_level)) all in
    record { trace = trace; run = run; size = size; all = all; span = span; next = next }
  where
    zs_linked : (ps : List Ptr) → AllLinked sl (ps ++ zs) → AllLinked sl zs
    zs_linked [] all = all
    zs_linked (y ∷ ps) all = zs_linked ps all.3

    next_of :
        (trace : List (Ptr × ℕ))
        → 0 < length trace
        → AllTrace sl (sl.header ∷ ps) 0 trace
        → (span : ℕ) × (level_of sl (lowest sl.header trace).0 0 ≡ some (link (first zs null) span))
    next_of [] some_level all = absurd (omega (arith, some_level))
    next_of (u ∷ us) some_level all =
        let t =
          meet sl sl 0 (sl.header ∷ ps) zs u (SameRest-refl sl) all.0 s.bones.distinct
            (s.linked 0 s.bones.level_min) in
        let lk = Shape-Linked sl (ps ++ zs) s in
        (
          length t.mid + distance sl 0 zs,
          t.link
              ∙ ap (λ f. some (link f (length t.mid + distance sl 0 zs)))
                  (first_at sl zs (zs_linked ps lk.nodes_linked)),
        )

remove_run :
    (fuel : ℕ) (key : ℤ) (info : RankInfo) (sl unlinked : SkipList) (p : Ptr) (span level : ℕ)
    (trace : List (Ptr × ℕ))
    → descend fuel sl.level sl key info sl.header 0 ≡ some trace
    → level_of sl (lowest sl.header trace).0 0 ≡ some (link p span)
    → found sl p key info ≡ true
    → unlink_levels 0 p trace sl ≡ some unlinked
    → lower_level unlinked.level unlinked ≡ some level
    → remove fuel key info sl
      ≡ some (true, record unlinked { level = level; length_32 = sub_32 unlinked.length_32 1 })
unfolding remove remove_node
remove_run fuel key info sl unlinked p span level trace d n f u l = rw (d, n, f, u, l)

remove_missing :
    (fuel : ℕ) (key : ℤ) (info : RankInfo) (sl : SkipList) (p : Ptr) (span : ℕ)
    (trace : List (Ptr × ℕ))
    → descend fuel sl.level sl key info sl.header 0 ≡ some trace
    → level_of sl (lowest sl.header trace).0 0 ≡ some (link p span)
    → found sl p key info ≡ false
    → remove fuel key info sl ≡ some (false, sl)
unfolding remove
remove_missing fuel key info sl p span trace d n f = rw (d, n, f)

-- In a list of the right shape, `remove` of a key and an info that no node has ends, returns false
-- and changes nothing.
pub remove-absent :
    (fuel : ℕ) (key : ℤ) (info : RankInfo) (sl : SkipList) (ps zs : List Ptr)
    → Shape sl (ps ++ zs)
    → length (ps ++ zs) < fuel
    → AllAre sl key info true ps
    → AllAre sl key info false zs
    → found sl (first zs null) key info ≡ false
    → remove fuel key info sl ≡ some (false, sl)
remove-absent fuel key info sl ps zs s enough h k f =
    let r = reach fuel key info sl ps zs s enough h k in
    remove_missing fuel key info sl (first zs null) r.span r.trace r.run r.next f

unlinked_links :
    (sl : SkipList) (top : ℕ) (header : Ptr) (xs : List Ptr)
    → sl.header ≡ header
    → Bones sl top xs
    → ((i : ℕ) → i < top → NodesAt sl i (header ∷ xs))
    → (i : ℕ) → i < top
    → level_of sl sl.header i ≡ some (link (next_at sl i xs) (distance sl i xs))
unlinked_links sl top header xs e b linked i h =
    ap (λ x. level_of sl x i) e
    ∙ (linked i h).0 (ap (tall sl i) (sym e) ∙ ground (arith, b.header_height, b.level_max, h))

-- In a list of the right shape, `remove` of the key and the info that the node behind the place has
-- ends and returns true: the nodes are then the others, linked with the right spans at every level
-- and counted, and nothing else of them has changed.
pub remove-Shape :
    (fuel : ℕ) (key : ℤ) (info : RankInfo) (sl : SkipList) (p : Ptr) (ps zs : List Ptr)
    → Shape sl (ps ++ p ∷ zs)
    → length (ps ++ p ∷ zs) < fuel
    → AllAre sl key info true ps
    → AllAre sl key info false (p ∷ zs)
    → found sl p key info ≡ true
    → (sl' : SkipList) × (remove fuel key info sl ≡ some (true, sl'))
      × Shape sl' (ps ++ zs)
      × Kept sl sl'
remove-Shape fuel key info sl p ps zs s enough h k f =
    let r = reach fuel key info sl ps (p ∷ zs) s enough h k in
    let ys : List Ptr = sl.header ∷ ps in
    let live : p ≢ null =
      λ e. absurd (ground (arith, e, s.bones.alive, has-append null ps (p ∷ zs))) in
    let (unlinked, run, same, above, upto) =
      level_loop (λ i ss t. unlink_levels i p ss t) sl ys (ys ++ p ∷ zs) (ys ++ zs) sl.level 0
        sl.level (λ i t. unlink_levels_none i p t)
        (λ i u us t _ _ same tr here.
          unlink_turn sl ys zs p s.bones.distinct live (omega (arith, s.size)) i u us t same tr
            here)
        0 r.trace sl (omega arith) (omega (arith, r.size)) (omega arith) (SameRest-refl sl) r.all
        (LinkedUpTo-start sl sl.level (ys ++ p ∷ zs) (ys ++ zs) s.linked) in
    let linked = LinkedUpTo-end unlinked sl.level (ys ++ p ∷ zs) (ys ++ zs) upto in
    let bones =
      Bones-same sl unlinked sl.level (ps ++ zs) same above
        (Bones-without sl sl.level p ps zs s.bones) in
    let links = unlinked_links unlinked sl.level sl.header (ps ++ zs) same.header bones linked in
    let (level, lowered, low, high, none) =
      lower_level-lowered sl.level unlinked (ps ++ zs) s.bones.level_min links in
    let more : suc (length (ps ++ zs)) ≡ length (ps ++ p ∷ zs) =
      omega (arith, length-append ps zs, length-append ps (p ∷ zs)) in
    (
      record unlinked { level = level; length_32 = sub_32 unlinked.length_32 1 },
      remove_run fuel key info sl unlinked p r.span level r.trace r.run r.next f run
          (ap (λ n. lower_level n unlinked) same.level ∙ lowered),
      counted-Shape unlinked level (sub_32 unlinked.length_32 1) sl.header (ps ++ zs) same.header
          (Bones-lower unlinked sl.level level (ps ++ zs) bones links low high none)
          (λ i e. linked i (omega (arith, e, high)))
          (ap (λ m. sub_32 m 1) (same.length_32 ∙ s.counted ∙ sym more)
            ∙ sub_32_one (length (ps ++ zs)) (omega (arith, more, s.size)))
          (omega (arith, more, s.size)),
      record {
        keys = same.keys;
        node_infos = same.node_infos;
        infos = same.infos;
        header = same.header;
      },
    )
