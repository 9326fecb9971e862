-- ===== src/Ranking/Tests.antt =====
-- A concrete skip list of two nodes on two levels, and the theorems at it.
pub mod Shapes
pub mod Trees
pub mod Saved
use touch_go_core.Prelude.{
  none, replicate, ℕ, zero, suc, List, [], ◌∷◌, Option, some, ◌==◌, if◌then◌else◌, true, ◌≡◌, refl,
  arith, ◌>>=◌,
}
use touch_go_core.Prelude.Int.{ℤ, pos, negsuc}
use touch_go_core.Prelude.Ptr.{Ptr, null}
use touch_go_core.Ranking.{
  SkipList, SkipListNode, RankInfo, SkipListLevel, search, rank_of, new_skip_list, insert, remove,
  search_by_rank, level_of, walk_level, descend, goes_before, older, found, candidate, add_32,
  sub_32, gt_32, new_skip_list_node, raise_header, link_levels, widen_levels, unlink_level,
  unlink_levels, lower_level, remove_node, walk_rank, get_first_by_rank, zero_level,
}
use touch_go_core.Ranking.ByRank.{search_by_rank-position, query_by_rank-position}
use touch_go_core.Ranking.Tree.{query_by_rank}
use touch_go_core.Ranking.Walk.{LinksTo}
use touch_go_core.Ranking.Lookup.{Linked, Sorted, key_of, info_of, rank_of-position}

-- What the runs below unfold.
program : Unit {0}
unfolding level_of walk_level descend goes_before older found candidate search rank_of add_32 sub_32
    gt_32 new_skip_list new_skip_list_node insert raise_header link_levels widen_levels remove
    unlink_level unlink_levels lower_level remove_node walk_rank get_first_by_rank search_by_rank
program = tt

abbrev pub link : Ptr → ℕ → SkipListLevel
link p n = record { forward = p; span = n }

abbrev pub node : ℤ → Ptr → List SkipListLevel → SkipListNode
node key info levels = record { key = key; info = info; levels = levels }

abbrev pub entry : (id value : ℕ) → RankInfo
entry id value = record { id = pos id; value = pos value; rank = 0; timestamp = pos 0 }

abbrev pub heap : Ptr → SkipListNode
heap p =
    if p == 1
    then node (negsuc 0) null (link 2 1 ∷ link 3 2 ∷ replicate 30 zero_level)
    else if p == 2
    then node (pos 90) 2 (link 3 1 ∷ [])
    else node (pos 70) 3 (link null 0 ∷ link null 0 ∷ [])

abbrev pub entries : Ptr → RankInfo
entries p = if p == 2 then entry 20 90 else if p == 3 then entry 30 70 else entry 40 80

abbrev pub two : SkipList
two = record { nodes = heap; infos = entries; header = 1; tail = null; length_32 = 2; level = 2 }

pub header_links : LinksTo two 2 1 (2 ∷ 3 ∷ [])
unfolding program
header_links zero h = refl
header_links (suc zero) h = refl
header_links (suc (suc i)) h = absurd (omega arith)

pub first_links : LinksTo two 1 2 (3 ∷ [])
unfolding program
first_links zero h = refl
first_links (suc i) h = absurd (omega arith)

pub last_links : LinksTo two 2 3 []
unfolding program
last_links zero h = refl
last_links (suc zero) h = refl
last_links (suc (suc i)) h = absurd (omega arith)

two-Linked : Linked two (2 ∷ 3 ∷ [])
two-Linked = record {
  some_level = omega arith;
  from_header = header_links;
  nodes_linked =
      (omega arith, omega arith, first_links, (omega arith, omega arith, last_links, tt));
  size = omega arith;
}

two-Sorted : Sorted two (2 ∷ 3 ∷ [])
unfolding program
two-Sorted = ((refl, tt), (tt, tt))

rank_of-position_example :
    (search 3 two (key_of two 3) (info_of two 3) ≡ some true)
    × (rank_of 3 two (key_of two 3) (info_of two 3) ≡ some 1)
rank_of-position_example = rank_of-position 3 two 3 (2 ∷ []) [] two-Linked two-Sorted (omega arith)

-- Three inserts, one on two levels, and what is then at the rank 2.
abbrev three_inserts : Option SkipList
three_inserts =
    insert 9 12 1 (pos 90) 2 (new_skip_list 1 (λ p. node (pos 0) null []) entries)
    >>= insert 9 13 2 (pos 70) 3
    >>= insert 9 14 1 (pos 80) 4

second_of_three : three_inserts >>= (λ sl. search_by_rank 9 sl 2) ≡ some (some (pos 80, 4))
unfolding program
second_of_three = refl

last_without_second :
    three_inserts
      >>= (λ sl. remove 9 (pos 80) (entry 40 80) sl)
      >>= (λ r. rank_of 9 r.1 (pos 70) (entry 30 70))
    ≡ some 1
unfolding program
last_without_second = refl

search_by_rank-position_example : search_by_rank 3 two 2 ≡ some (some (key_of two 3, 3))
search_by_rank-position_example =
    search_by_rank-position 3 two 3 (2 ∷ []) [] two-Linked (omega arith) (omega arith)

-- An entry with a negative value, alone.
abbrev minus : SkipList
minus = record two {
  nodes = λ p.
      if p == 1 then node (negsuc 0) null (link 2 1 ∷ []) else node (negsuc 4) 2 (link null 0 ∷ []);
  level = 1;
  length_32 = 1;
}

minus_header : LinksTo minus 1 1 (2 ∷ [])
unfolding program
minus_header zero h = refl
minus_header (suc i) h = absurd (omega arith)

minus_last : LinksTo minus 1 2 []
unfolding program
minus_last zero h = refl
minus_last (suc i) h = absurd (omega arith)

minus-Linked : Linked minus (2 ∷ [])
minus-Linked = record {
  some_level = omega arith;
  from_header = minus_header;
  nodes_linked = (omega arith, omega arith, minus_last, tt);
  size = omega arith;
}

query_by_rank-position_example :
    query_by_rank 2 1 (record { sl = minus; entry_mapping = (pos 20, 2) ∷ [] }) ≡ some none
query_by_rank-position_example =
    query_by_rank-position 2 (record { sl = minus; entry_mapping = (pos 20, 2) ∷ [] }) 2 [] []
      minus-Linked (omega arith) (omega arith)
