-- ===== src/Ranking/Tests/Saved.antt =====
-- Loading what was saved, at a tree with one entry.
use mathlib.Core.Path.{subst}
use touch_go_core.Prelude.{
  ℕ, zero, suc, ◌<◌, ◌≤◌, List, [], ◌∷◌, ◌==◌, if◌then◌else◌, replicate, true, ◌≡◌, refl, sym,
  arith, Bool-cases, inl, inr,
}
use touch_go_core.Prelude.Int.{pos, negsuc}
use touch_go_core.Prelude.Ptr.{Ptr, null, has, ==-eq}
use touch_go_core.Ranking.{SkipListNode, level_of, new_skip_list, skip_list_max_level, zero_level}
use touch_go_core.Ranking.Levels.{height, NodesAt}
use touch_go_core.Ranking.Raise.{NoneAbove}
use touch_go_core.Ranking.Lookup.{key_of, info_of}
use touch_go_core.Ranking.Tree.{RankTree, load, new_rank_tree, save_entries}
use touch_go_core.Ranking.Tree.Listing.{Apart}
use touch_go_core.Ranking.Tree.Add.{Holds, Room}
use touch_go_core.Ranking.Trees.{Fresh, new_tree}
use touch_go_core.Ranking.Trees.Load.{Fits, Loads, load_rank_trees-save_entries}
use touch_go_core.Ranking.Tests.{link, node, entries}
use touch_go_core.Ranking.Tests.Shapes.{rest_empty}

abbrev one_heap : Ptr → SkipListNode
one_heap p =
    if p == 1
    then node (negsuc 0) null (link 2 1 ∷ replicate 31 zero_level)
    else node (pos 90) 2 (link null 0 ∷ [])

abbrev one : RankTree
one = record {
  sl = record {
    nodes = one_heap;
    infos = entries;
    header = 1;
    tail = null;
    length_32 = 1;
    level = 1;
  };
  entry_mapping = (pos 20, 2) ∷ [];
}

the_one : (P : Ptr → Type 0) → P 2 → (y : Ptr) → has y (2 ∷ []) ≡ true → P y
the_one P a y m = elim (Bool-cases (y == 2)) [
  | inl e ↦ subst P (sym (==-eq e)) a
  | inr e ↦ absurd (ground (arith, m, e))
]

one_above : NoneAbove one.sl 1 skip_list_max_level
unfolding level_of
one_above zero l h = absurd (omega arith)
one_above (suc j) l h = (0, rest_empty 31 j (omega (arith, h)))

one_linked : (i : ℕ) → i < 1 → NodesAt one.sl i (1 ∷ 2 ∷ [])
unfolding level_of
one_linked zero h = ((λ _. refl), ((λ _. refl), tt))
one_linked (suc i) h = absurd (omega arith)

one-Holds : Holds one (2 ∷ [])
unfolding load
one-Holds = record {
  listing = record {
    shape = record {
      bones = record {
        level_min = omega arith;
        level_max = omega arith;
        header_height = refl;
        empty_above = one_above;
        heights =
            the_one (λ y. (0 < height one.sl y) × (height one.sl y ≤ 1)) (omega arith, omega arith);
        alive = refl;
        distinct = (refl, (refl, tt));
      };
      linked = one_linked;
      counted = refl;
      size = omega arith;
    };
    keyed = the_one (λ y. key_of one.sl y ≡ (info_of one.sl y).value) refl;
    ordered = (tt, tt);
    ids = (refl, tt);
  };
  agrees = λ v. refl;
  keys = (refl, tt);
}

abbrev fresh : ℕ → Fresh
fresh n = record {
  nodes = λ p. node (pos 0) null [];
  infos = entries;
  header = 1;
  info = 9;
  node = 14;
  level = 2;
}

no_node : (xs : List Ptr) → Holds (new_tree (fresh 0)) xs → xs ≡ []
unfolding new_tree new_rank_tree new_skip_list
no_node [] h = refl
no_node (x ∷ xs) h = absurd (omega (arith, h.listing.shape.counted))

Room-for_one :
    (xs : List Ptr)
    → Holds (new_tree (fresh 0)) xs
    → Room 2 14 2 (new_tree (fresh 0)).sl xs × Apart (new_tree (fresh 0)).sl 9 xs
unfolding new_tree new_rank_tree new_skip_list
Room-for_one xs h =
    subst (λ ys. Room 2 14 2 (new_tree (fresh 0)).sl ys × Apart (new_tree (fresh 0)).sl 9 ys)
      (sym (no_node xs h))
      (
        record {
          fresh = refl;
          live = omega arith;
          level_min = omega arith;
          level_max = omega arith;
          small = omega arith;
          enough = omega arith;
        },
        (λ y m. absurd (ground (arith, m))),
      )

one_row-Fits : Fits 2 fresh 0 (save_entries (pos 7) one.entry_mapping one.sl) (new_tree (fresh 0))
unfolding save_entries
one_row-Fits = (Room-for_one, (λ rt' e. tt))

load_rank_trees-save_entries_example :
    Loads 2 fresh
      (pos 7)
      (save_entries (pos 7) one.entry_mapping one.sl)
      (record { id = pos 20; value = pos 90; timestamp = pos 0 } ∷ [])
load_rank_trees-save_entries_example =
    load_rank_trees-save_entries 2 fresh (pos 7) one (2 ∷ []) one-Holds (omega arith) one_row-Fits
