-- ===== src/Ranking/Tree/History.antt =====
-- The histories of a RankTree of ranking/ranking.go: whatever is done to it, it holds its nodes, and
-- lists what the same calls make of an ordered list.
use mathlib.Core.Path.{subst}
use touch_go_core.Prelude.{
  ℕ, zero, get_elem?, replicate, length-replicate, suc, ◌<◌, List, [], ◌∷◌, Option, none, some,
  Bool, ◌≡◌, ◌≢◌, refl, sym, ap, ◌∙◌, arith, length,
}
use touch_go_core.Prelude.Int.{ℤ}
use touch_go_core.Prelude.Ptr.{Ptr, null, ==-refl}
use touch_go_core.Ranking.{SkipList, RankInfo, skip_list_max_level}
use touch_go_core.Ranking.Tree.{RankTree, load, add_rank_info, remove_rank_info, new_rank_tree}
use touch_go_core.Ranking.Tree.Entries.{Entry, drop_id, add_entry, drop_id}
use touch_go_core.Ranking.Tree.View.{entry_of, view, find_at-Holder}
use touch_go_core.Ranking.Tree.Listing.{Apart}
use touch_go_core.Ranking.Tree.Add.{Holds, Room}
use touch_go_core.Ranking.Tree.{query_rank_info}
use touch_go_core.Ranking.{level_of, new_skip_list, new_skip_list_node, zero_level}
use touch_go_core.Ranking.Shape.{Shape}
use touch_go_core.Ranking.Tree.Refine.{add_rank_info-add_entry}
use touch_go_core.Ranking.Tree.Drop.{remove_rank_info-drop_id}
use touch_go_core.Ranking.Tree.Query.{query_rank_info-position, some_eq}
use touch_go_core.Ranking.{SkipListNode, SkipListLevel}
use touch_go_core.Ranking.Splice.{link}
use touch_go_core.Ranking.Levels.{height}

get_elem?-replicate : (n i : ℕ) (l : SkipListLevel) → i < n → get_elem? (replicate n l) i ≡ some l
get_elem?-replicate zero i l h = absurd (omega arith)
get_elem?-replicate (suc n) zero l h = refl
get_elem?-replicate (suc n) (suc i) l h = get_elem?-replicate n i l (omega arith)

empty_level :
    (header : Ptr) (nodes : Ptr → SkipListNode) (infos : Ptr → RankInfo) (i : ℕ)
    → i < skip_list_max_level
    → level_of (new_skip_list header nodes infos) header i ≡ some (link null 0)
unfolding level_of new_skip_list new_skip_list_node
empty_level header nodes infos i h =
    rw (==-refl header) (get_elem?-replicate skip_list_max_level i zero_level h)

empty_height :
    (header : Ptr) (nodes : Ptr → SkipListNode) (infos : Ptr → RankInfo)
    → height (new_skip_list header nodes infos) header ≡ skip_list_max_level
unfolding new_skip_list new_skip_list_node
empty_height header nodes infos =
    rw (==-refl header) (length-replicate skip_list_max_level zero_level)

empty-Shape :
    (header : Ptr) (nodes : Ptr → SkipListNode) (infos : Ptr → RankInfo)
    → header ≢ null
    → Shape (new_skip_list header nodes infos) []
unfolding new_skip_list
empty-Shape header nodes infos live = record {
  bones = record {
    level_min = omega arith;
    level_max = omega arith;
    header_height = empty_height header nodes infos;
    empty_above = λ j l h. (0, empty_level header nodes infos j h);
    heights = λ y m. absurd (ground (arith, m));
    alive = ground (arith, live);
    distinct = (refl, tt);
  };
  linked = λ i h. ((λ _. empty_level header nodes infos i (omega (arith, h))), tt);
  counted = refl;
  size = omega arith;
}

-- A new tree is empty.
pub new_rank_tree-Holds :
    (header : Ptr) (nodes : Ptr → SkipListNode) (infos : Ptr → RankInfo)
    → header ≢ null
    → Holds (new_rank_tree header nodes infos) []
unfolding new_rank_tree load
new_rank_tree-Holds header nodes infos live = record {
  listing = record {
    shape = empty-Shape header nodes infos live;
    keyed = λ y m. absurd (ground (arith, m));
    ordered = tt;
    ids = tt;
  };
  agrees = λ v. refl;
  keys = tt;
}

query_none :
    (fuel : ℕ) (uid : ℤ) (rt : RankTree)
    → load uid rt.entry_mapping ≡ none
    → query_rank_info fuel uid rt ≡ some (none, rt)
unfolding query_rank_info
query_none fuel uid rt e = rw (query_rank_info, e)

-- The calls of one tree, each with what the same call makes of a list of entries. The addresses that
-- `AddRankInfo` gets are fresh, and the fuel is more than the number of nodes.
pub data History : RankTree → List Entry → Type 0 where
  created :
      (header : Ptr) (nodes : Ptr → SkipListNode) (infos : Ptr → RankInfo)
      → header ≢ null
      → History (new_rank_tree header nodes infos) []
  added :
      {rt rt' : RankTree} {es : List Entry}
      → History rt es
      → (fuel : ℕ) (fresh p : Ptr) (level : ℕ) (uid val timestamp : ℤ)
      → ((xs : List Ptr) → Holds rt xs → Room fuel p level rt.sl xs × Apart rt.sl fresh xs)
      → add_rank_info fuel fresh p level uid val timestamp rt ≡ some rt'
      → History rt' (add_entry (record { id = uid; value = val; timestamp = timestamp }) es)
  removed :
      {rt rt' : RankTree} {es : List Entry}
      → History rt es
      → (fuel : ℕ) (uid : ℤ) (was : Bool) → length es < fuel
      → remove_rank_info fuel uid rt ≡ some (was, rt')
      → History rt' (drop_id uid es)
  asked :
      {rt rt' : RankTree} {es : List Entry}
      → History rt es
      → (fuel : ℕ) (uid : ℤ) (answer : Option Ptr) → length es < fuel
      → query_rank_info fuel uid rt ≡ some (answer, rt')
      → History rt' es

length-view : (sl : SkipList) (xs : List Ptr) → length (view sl xs) ≡ length xs
length-view sl [] = refl
length-view sl (x ∷ xs) = ap suc (length-view sl xs)

abbrev pub Lists : RankTree → List Entry → Type 0
Lists rt es = (xs : List Ptr) × Holds rt xs × (view rt.sl xs ≡ es)

-- `QueryRankInfo` of any id ends, and lists the same entries.
asked-Lists :
    (fuel : ℕ) (uid : ℤ) (rt : RankTree) (xs : List Ptr)
    → Holds rt xs
    → length xs < fuel
    → (answer : Option Ptr) × (rt' : RankTree) × (query_rank_info fuel uid rt ≡ some (answer, rt'))
      × Lists rt' (view rt.sl xs)
asked-Lists fuel uid rt xs h enough = by_lookup (load uid rt.entry_mapping) refl
  where
    by_lookup :
        (o : Option Ptr)
        → load uid rt.entry_mapping ≡ o
        → (answer : Option Ptr) × (rt' : RankTree) × (query_rank_info fuel uid rt
            ≡ some (answer, rt'))
          × Lists rt' (view rt.sl xs)
    by_lookup none l = (none, rt, query_none fuel uid rt l, (xs, h, refl))
    by_lookup (some at) l =
        let it = find_at-Holder rt.sl uid at xs (sym (h.agrees uid) ∙ l) in
        let (a, rt', run, _, _, h', same) =
          query_rank_info-position fuel uid rt xs (entry_of rt.sl it.node) h enough it.entry in
        (some a, rt', run, (xs, h', same))

in_fuel :
    (sl : SkipList) (xs : List Ptr) (es : List Entry)
    → view sl xs ≡ es
    → (fuel : ℕ) → length es < fuel
    → length xs < fuel
in_fuel sl xs es e fuel h = omega (arith, h, ap length e, length-view sl xs)

tree_eq : {A : Type 0} (x y : A × RankTree) → some x ≡ some y → x.1 ≡ y.1
tree_eq {A} x y h = ap (λ (z : A × RankTree). z.1) (some_eq x y h)

-- Whatever calls of `AddRankInfo`, `RemoveRankInfo` and `QueryRankInfo` a new tree has seen, it holds
-- its nodes, and they list what the same calls have made of an empty list of entries.
pub History-Lists : (rt : RankTree) (es : List Entry) → History rt es → Lists rt es
History-Lists _ _ (created header nodes infos live) =
    ([], new_rank_tree-Holds header nodes infos live, refl)
History-Lists rt' _ (added {rt} {es = es} before fuel fresh p level uid val timestamp room made) =
    let (xs, h, e) = History-Lists rt es before in
    let (space, apart) = room xs h in
    let (rt1, xs1, run, h1, e1) =
      add_rank_info-add_entry fuel fresh p level uid val timestamp rt xs h space apart in
    let new : Entry = record { id = uid; value = val; timestamp = timestamp } in
    subst (λ t. Lists t (add_entry new es)) (some_eq rt1 rt' (sym run ∙ made))
      (xs1, h1, e1 ∙ ap (add_entry new) e)
History-Lists rt' _ (removed {rt} {es = es} before fuel uid was enough made) =
    let (xs, h, e) = History-Lists rt es before in
    let (rt1, xs1, run, h1, e1) =
      remove_rank_info-drop_id fuel uid rt xs h (in_fuel rt.sl xs es e fuel enough) in
    subst (λ t. Lists t (drop_id uid es)) (tree_eq (_, rt1) (was, rt') (sym run ∙ made))
      (xs1, h1, e1 ∙ ap (drop_id uid) e)
History-Lists rt' es (asked {rt} before fuel uid answer enough made) =
    let (xs, h, e) = History-Lists rt es before in
    let (a, rt1, run, lists) = asked-Lists fuel uid rt xs h (in_fuel rt.sl xs es e fuel enough) in
    subst (Lists rt') e
      (subst (λ t. Lists t (view rt.sl xs)) (tree_eq (a, rt1) (answer, rt') (sym run ∙ made)) lists)
