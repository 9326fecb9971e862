-- ===== src/Ranking/Trees.antt =====
-- The trees by type of ranking/ranking.go, and what it reads from and writes to a file. A Go map is the sequence of
-- its entries; the file and its format are not modelled.
pub mod Load
use touch_go_core.Prelude.{
  ℕ, suc, List, [], ◌∷◌, ◌++◌, Option, none, some, ◌>>=◌, Bool, true, false, if◌then◌else◌,
}
use touch_go_core.Prelude.Int.{ℤ, eq_ℤ}
use touch_go_core.Prelude.Ptr.{Ptr}
use touch_go_core.Ranking.{RankInfo, SkipListNode}
use touch_go_core.Ranking.Tree.{
  RankTree, DbRankInfo, new_rank_tree, update_rank_info, place_entry, foreach,
}

-- What one call may allocate: the heaps and the header of a new tree, an info, and a node with its level.
pub record Fresh : Type 0 where
  pub nodes : Ptr → SkipListNode
  pub infos : Ptr → RankInfo
  pub header : Ptr
  pub info : Ptr
  pub node : Ptr
  pub level : ℕ

unfoldable pub find_tree : ℤ → List (ℤ × RankTree) → Option RankTree
find_tree rtype [] = none
find_tree rtype (t ∷ ts) = if eq_ℤ rtype t.0 then some t.1 else find_tree rtype ts

unfoldable pub put_tree : ℤ → RankTree → List (ℤ × RankTree) → List (ℤ × RankTree)
put_tree rtype rt [] = (rtype, rt) ∷ []
put_tree rtype rt (t ∷ ts) = if eq_ℤ rtype t.0 then (rtype, rt) ∷ ts else t ∷ put_tree rtype rt ts

unfoldable pub new_tree : Fresh → RankTree
new_tree f = new_rank_tree f.header f.nodes f.infos

unfoldable pub tree_or_new : Fresh → Option RankTree → RankTree
tree_or_new f none = new_tree f
tree_or_new f (some rt) = rt

-- `LoadRankTrees` from the row `n` on, with what each row may allocate.
unfoldable pub load_rank_trees :
    (fuel : ℕ)
    → (ℕ → Fresh)
    → ℕ
    → List DbRankInfo
    → List (ℤ × RankTree)
    → Option (List (ℤ × RankTree))
load_rank_trees fuel fresh n [] rts = some rts
load_rank_trees fuel fresh n (row ∷ rows) rts = do
  let f = fresh n
  let rt = tree_or_new f (find_tree row.rank_type rts)
  rt' ← update_rank_info fuel f.info f.node f.level row.id row.val row.timestamp rt
  load_rank_trees fuel fresh (suc n) rows (put_tree row.rank_type rt' rts)

unfoldable pub get_rank_tree : Fresh → ℤ → List (ℤ × RankTree) → RankTree × List (ℤ × RankTree)
get_rank_tree f rtype rts = elim (find_tree rtype rts) [
  | none ↦ (new_tree f, put_tree rtype (new_tree f) rts)
  | some rt ↦ (rt, rts)
]

unfoldable pub has_rank_tree : ℤ → List (ℤ × RankTree) → Bool
has_rank_tree rtype rts = elim (find_tree rtype rts) [ none ↦ false | some rt ↦ true ]

unfoldable pub reset_rank_tree : Fresh → ℤ → List (ℤ × RankTree) → List (ℤ × RankTree)
reset_rank_tree f rtype rts = put_tree rtype (new_tree f) rts

-- What `SaveRanking` collects, in the order of the ranks.
unfoldable pub saved_infos : (fuel : ℕ) → RankTree → Option (List RankInfo)
saved_infos fuel rt =
    foreach fuel (λ key info (infos : List RankInfo). infos ++ rt.sl.infos info ∷ []) rt.sl []

-- What `LoadRanking` makes of the infos from the number `n` on.
unfoldable pub load_infos :
    (fuel : ℕ) → (ℕ → Fresh) → ℕ → List RankInfo → RankTree → Option RankTree
load_infos fuel fresh n [] rt = some rt
load_infos fuel fresh n (info ∷ infos) rt = do
  let f = fresh n
  rt' ← place_entry fuel f.node f.level info.id f.info info rt.sl rt
  load_infos fuel fresh (suc n) infos rt'
