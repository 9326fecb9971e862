-- ===== src/Ranking/Tree.antt =====
-- RankTree of ranking/ranking.go: the skip list with the entry of each user. The map is a sequence of
-- its entries; the entries share their infos with the nodes of the skip list.
pub mod Entries
pub mod View
pub mod Mapping
pub mod Listing
pub mod Add
pub mod Refine
pub mod Drop
pub mod Query
pub mod History
pub mod Canonical
pub mod Saved
use mathlib.Core.Option
use touch_go_core.Prelude.{
  ℕ, zero, suc, List, [], ◌∷◌, ◌++◌, Option, none, some, ◌==◌, if◌then◌else◌, Bool, true, false,
  ◌>>=◌,
}
use touch_go_core.Prelude.Int.{ℤ, pos, negsuc, ltb_ℤ, eq_ℤ}
use touch_go_core.Prelude.Ptr.{Ptr, null, update}
use touch_go_core.Ranking.{
  level_of, SkipList, SkipListNode, RankInfo, insert, remove, rank_of, search_by_rank,
  search_by_rank_range, new_skip_list, gt_32, add_32,
}

pub record RankTree : Type 0 where
  pub sl : SkipList
  pub entry_mapping : List (ℤ × Ptr)

unfoldable pub new_rank_tree : (header : Ptr) → (Ptr → SkipListNode) → (Ptr → RankInfo) → RankTree
new_rank_tree header nodes infos = record {
  sl = new_skip_list header nodes infos;
  entry_mapping = [];
}

unfoldable pub load : ℤ → List (ℤ × Ptr) → Option Ptr
load uid [] = none
load uid (e ∷ es) = if eq_ℤ uid e.0 then some e.1 else load uid es

unfoldable pub store : ℤ → Ptr → List (ℤ × Ptr) → List (ℤ × Ptr)
store uid p [] = (uid, p) ∷ []
store uid p (e ∷ es) = if eq_ℤ uid e.0 then (uid, p) ∷ es else e ∷ store uid p es

unfoldable pub delete : ℤ → List (ℤ × Ptr) → List (ℤ × Ptr)
delete uid [] = []
delete uid (e ∷ es) = if eq_ℤ uid e.0 then es else e ∷ delete uid es

abbrev pub put_info : Ptr → RankInfo → SkipList → SkipList
put_info p info sl = record sl { infos = update sl.infos p info }

-- The new value, or the new entry, in the skip list and in the map. `p` and `level` are of the new
-- node.
unfoldable pub place_entry :
    (fuel : ℕ)
    → (p : Ptr) → (level : ℕ) → ℤ
    → Ptr
    → RankInfo
    → SkipList
    → RankTree
    → Option RankTree
place_entry fuel p level uid at info sl rt = do
  sl' ← insert fuel p level info.value at (put_info at info sl)
  some (record { sl = sl'; entry_mapping = store uid at rt.entry_mapping })

-- `AddRankInfo`, with the addresses and the level of what it may make.
unfoldable pub add_rank_info :
    (fuel : ℕ)
    → (fresh p : Ptr) → (level : ℕ) → (uid val timestamp : ℤ) → RankTree
    → Option RankTree
add_rank_info fuel fresh p level uid val timestamp rt = elim (load uid rt.entry_mapping) [
  | none ↦
      place_entry fuel p level uid fresh
        (record { id = uid; value = val; rank = 0; timestamp = timestamp }) rt.sl rt
  | some at ↦
      let info = rt.sl.infos at in
      let moved = remove fuel info.value info rt.sl >>= λ r.
      place_entry fuel p level uid at (record info { value = val; timestamp = timestamp }) r.1 rt in
      if eq_ℤ info.value val then some rt else moved
]

unfoldable pub remove_rank_info : (fuel : ℕ) → ℤ → RankTree → Option (Bool × RankTree)
remove_rank_info fuel uid rt = elim (load uid rt.entry_mapping) [
  | none ↦ some (false, rt)
  | some at ↦
      let info = rt.sl.infos at in
      Option.map
        (λ (r : Bool × SkipList).
          (true, record { sl = r.1; entry_mapping = delete uid rt.entry_mapping }))
        (remove fuel info.value info rt.sl)
]

-- `QueryRankInfo`: the address of the info, whose rank is written.
unfoldable pub query_rank_info : (fuel : ℕ) → ℤ → RankTree → Option (Option Ptr × RankTree)
query_rank_info fuel uid rt = elim (load uid rt.entry_mapping) [
  | none ↦ some (none, rt)
  | some at ↦
      let info = rt.sl.infos at in
      Option.map
        (λ (r : ℕ).
          (some at, record rt { sl = put_info at (record info { rank = add_32 r 1 }) rt.sl }))
        (rank_of fuel rt.sl info.value info)
]

unfoldable pub query_by_rank_range :
    (fuel : ℕ) → (min max : ℕ) → RankTree → Option (Option (List RankInfo) × RankTree)
query_by_rank_range fuel min max rt =
    let from = if gt_32 min 0 then min else 1 in
    let to = if gt_32 max rt.sl.length_32 then rt.sl.length_32 else max in
    let answer =
      Option.map (λ (r : List RankInfo × SkipList). (some r.0, record rt { sl = r.1 }))
        (search_by_rank_range fuel from to rt.sl) in
    if gt_32 min max then some (none, rt) else answer

-- `QueryByRank`: the address of the info, `none` for nil.
unfoldable pub query_by_rank : (fuel : ℕ) → (rank : ℕ) → RankTree → Option (Option Ptr)
query_by_rank fuel rank rt =
    Option.map (λ (r : Option (ℤ × Ptr)). r >>= λ e. if ltb_ℤ e.0 (pos 0) then none else some e.1)
      (search_by_rank fuel rt.sl rank)

unfoldable pub update_rank_info :
    (fuel : ℕ)
    → (fresh p : Ptr) → (level : ℕ) → (uid val timestamp : ℤ) → RankTree
    → Option RankTree
update_rank_info fuel fresh p level uid val timestamp rt =
    add_rank_info fuel fresh p level uid val timestamp rt

unfoldable pub rank_length : RankTree → ℕ
rank_length rt = rt.sl.length_32

-- `foreach` from the node `p` on: the callback gets each key and info, and the variables of its
-- closure.
unfoldable pub foreach_from :
    {C : Type 0} → (fuel : ℕ) → (ℤ → Ptr → C → C) → Ptr → SkipList → C → Option C
foreach_from zero do_each p sl c = none
foreach_from (suc k) do_each p sl c =
    let c' = do_each (sl.nodes p).key (sl.nodes p).info c in
    let rest = level_of sl p 0 >>= λ l. foreach_from k do_each l.forward sl c' in
    if p == null then some c else rest

unfoldable pub foreach : {C : Type 0} → (fuel : ℕ) → (ℤ → Ptr → C → C) → SkipList → C → Option C
foreach fuel do_each sl c =
    level_of sl sl.header 0 >>= λ l. foreach_from fuel do_each l.forward sl c

-- `Compare`, with the signs of its results.
unfoldable pub compare_info : RankInfo → RankInfo → ℤ
compare_info a b =
    if eq_ℤ a.id b.id
    then pos 0
    else if ltb_ℤ a.timestamp b.timestamp
    then negsuc 0
    else if ltb_ℤ b.timestamp a.timestamp
    then pos 1
    else if ltb_ℤ a.id b.id
    then negsuc 0
    else if ltb_ℤ b.id a.id
    then pos 1
    else pos 0

-- A row of the database.
pub record DbRankInfo : Type 0 where
  pub rank_type : ℤ
  pub id : ℤ
  pub val : ℤ
  pub timestamp : ℤ

-- What `saveRankTrees` collects of one tree of the type `rank_type`.
unfoldable pub save_entries : ℤ → List (ℤ × Ptr) → SkipList → List DbRankInfo
save_entries rank_type [] sl = []
save_entries rank_type (e ∷ es) sl =
    let info = sl.infos e.1 in
    record { rank_type = rank_type; id = info.id; val = info.value; timestamp = info.timestamp }
    ∷ save_entries rank_type es sl

unfoldable pub save_rank_trees : List (ℤ × RankTree) → List DbRankInfo
save_rank_trees [] = []
save_rank_trees (t ∷ ts) = save_entries t.0 t.1.entry_mapping t.1.sl ++ save_rank_trees ts
