-- ===== src/Ranking/Tests/Trees.antt =====
-- The calls of a RankTree at the tree with the two entries.
use mathlib.Core.Path.{subst}
use touch_go_core.Prelude.{
  ℕ, List, [], ◌∷◌, some, ◌==◌, true, false, ◌≡◌, refl, sym, arith, Bool-cases, inl, inr,
}
use touch_go_core.Prelude.Int.{pos}
use touch_go_core.Prelude.Ptr.{Ptr, null, has, ==-eq}
use touch_go_core.Ranking.{SkipListNode, new_skip_list}
use touch_go_core.Ranking.Lookup.{key_of, info_of}
use touch_go_core.Ranking.Tree.{RankTree, load, add_rank_info, remove_rank_info, new_rank_tree}
use touch_go_core.Ranking.Tree.Entries.{Entry, add_entry, drop_id}
use touch_go_core.Ranking.Tree.View.{view}
use touch_go_core.Ranking.Tree.Listing.{Apart}
use touch_go_core.Ranking.Tree.Add.{Holds, Room}
use touch_go_core.Ranking.Tree.Refine.{add_rank_info-add_entry}
use touch_go_core.Ranking.Tree.Drop.{remove_rank_info-drop_id}
use touch_go_core.Ranking.Tree.Query.{query_rank_info-position, Answer}
use touch_go_core.Ranking.Tree.History.{
  History, History-Lists, Lists, new_rank_tree-Holds, created, added,
}
use touch_go_core.Ranking.Tests.{two, node, entries}
use touch_go_core.Ranking.Tests.Shapes.{two-Shape}

abbrev tree : RankTree
tree = record { sl = two; entry_mapping = (pos 20, 2) ∷ (pos 30, 3) ∷ [] }

abbrev row : (id value : ℕ) → Entry
row id value = record { id = pos id; value = pos value; timestamp = pos 0 }

-- A fact of both nodes.
both : (P : Ptr → Type 0) → P 2 → P 3 → (y : Ptr) → has y (2 ∷ 3 ∷ []) ≡ true → P y
both P a b y m = elim (Bool-cases (y == 2)) [
  | inl e ↦ subst P (sym (==-eq e)) a
  | inr e ↦ elim (Bool-cases (y == 3)) [
    | inl f ↦ subst P (sym (==-eq f)) b
    | inr f ↦ absurd (ground (arith, m, e, f))
  ]
]

tree-Holds : Holds tree (2 ∷ 3 ∷ [])
unfolding load
tree-Holds = record {
  listing = record {
    shape = two-Shape;
    keyed = both (λ y. key_of two y ≡ (info_of two y).value) refl refl;
    ordered = ((refl, tt), (tt, tt));
    ids = (refl, (refl, tt));
  };
  agrees = λ v. refl;
  keys = (refl, (refl, tt));
}

fresh_node : Room 3 14 2 two (2 ∷ 3 ∷ [])
fresh_node = record {
  fresh = refl;
  live = omega arith;
  level_min = omega arith;
  level_max = omega arith;
  small = omega arith;
  enough = omega arith;
}

fresh_info : Apart two 9 (2 ∷ 3 ∷ [])
fresh_info = both (λ y. (9 == (two.nodes y).info) ≡ false) refl refl

-- The entry of the id 30 moves in front of the other.
add_rank_info-add_entry_example :
    (rt' : RankTree) × (xs' : List Ptr) × (add_rank_info 3 9 14 2 (pos 30) (pos 95) (pos 0) tree
      ≡ some rt')
    × Holds rt' xs'
    × (view rt'.sl xs' ≡ add_entry (row 30 95) (row 20 90 ∷ row 30 70 ∷ []))
add_rank_info-add_entry_example =
    add_rank_info-add_entry 3 9 14 2 (pos 30) (pos 95) (pos 0) tree (2 ∷ 3 ∷ []) tree-Holds
      fresh_node fresh_info

remove_rank_info-drop_id_example :
    (rt' : RankTree) × (xs' : List Ptr) × (remove_rank_info 3 (pos 20) tree ≡ some (true, rt'))
    × Holds rt' xs'
    × (view rt'.sl xs' ≡ drop_id (pos 20) (row 20 90 ∷ row 30 70 ∷ []))
remove_rank_info-drop_id_example =
    remove_rank_info-drop_id 3 (pos 20) tree (2 ∷ 3 ∷ []) tree-Holds (omega arith)

query_rank_info-position_example : Answer 3 (pos 30) tree (2 ∷ 3 ∷ []) (row 30 70)
query_rank_info-position_example =
    query_rank_info-position 3 (pos 30) tree (2 ∷ 3 ∷ []) (row 30 70) tree-Holds (omega arith) refl

-- One call on a new tree.
abbrev no_nodes : Ptr → SkipListNode
no_nodes p = node (pos 0) null []

abbrev new_tree : RankTree
new_tree = new_rank_tree 1 no_nodes entries

new_tree-empty : (xs : List Ptr) → Holds new_tree xs → xs ≡ []
unfolding new_rank_tree new_skip_list
new_tree-empty [] h = refl
new_tree-empty (x ∷ xs) h = absurd (omega (arith, h.listing.shape.counted))

first-Room :
    (xs : List Ptr) → Holds new_tree xs → Room 3 14 2 new_tree.sl xs × Apart new_tree.sl 9 xs
unfolding new_rank_tree new_skip_list
first-Room xs h =
    subst (λ ys. Room 3 14 2 new_tree.sl ys × Apart new_tree.sl 9 ys) (sym (new_tree-empty xs h))
      (
        record {
          fresh = refl;
          live = omega arith;
          level_min = omega arith;
          level_max = omega arith;
          small = omega arith;
          enough = omega arith;
        },
        (λ y m. absurd (ground (arith, m))),
      )

new_tree-Holds : Holds new_tree []
new_tree-Holds = new_rank_tree-Holds 1 no_nodes entries (omega arith)

-- The tree with one entry.
first_call :
    (rt' : RankTree) × (xs' : List Ptr) × (add_rank_info 3 9 14 2 (pos 20) (pos 90) (pos 0) new_tree
      ≡ some rt')
    × Holds rt' xs'
    × (view rt'.sl xs' ≡ row 20 90 ∷ [])
first_call =
    let (room, apart) = first-Room [] new_tree-Holds in
    add_rank_info-add_entry 3 9 14 2 (pos 20) (pos 90) (pos 0) new_tree [] new_tree-Holds room apart

one_call : History first_call.0 (row 20 90 ∷ [])
one_call =
    added (created 1 no_nodes entries (omega arith)) 3 9 14 2 (pos 20) (pos 90) (pos 0) first-Room
      first_call.2

History-Lists_example : Lists first_call.0 (row 20 90 ∷ [])
History-Lists_example = History-Lists first_call.0 (row 20 90 ∷ []) one_call
