-- ===== src/Ranking/Trees/Load.antt =====
-- LoadRankTrees of ranking/ranking.go on the rows that saveRankTrees makes of a tree.
use mathlib.Core.Path.{subst}
use touch_go_core.Prelude.{ℕ, suc, List, [], ◌∷◌, Option, some, ◌≡◌, ◌≢◌, refl, sym, ap, ◌∙◌}
use touch_go_core.Prelude.Int.{ℤ}
use touch_go_core.Prelude.Ptr.{Ptr, null}
use touch_go_core.Ranking.{SkipList}
use touch_go_core.Ranking.Tree.{RankTree, DbRankInfo, update_rank_info, add_rank_info, save_entries}
use touch_go_core.Ranking.Tree.Entries.{Entry, add_entry, eq_ℤ_refl}
use touch_go_core.Ranking.Tree.View.{view}
use touch_go_core.Ranking.Tree.Listing.{Apart}
use touch_go_core.Ranking.Tree.Add.{Holds, Room}
use touch_go_core.Ranking.Tree.Refine.{add_rank_info-add_entry}
use touch_go_core.Ranking.Tree.History.{History, History-Lists, Lists, created, added}
use touch_go_core.Ranking.Tree.Canonical.{add_all}
use touch_go_core.Ranking.Tree.Saved.{row_entry, row_entries, History-save_entries}
use touch_go_core.Ranking.Trees.{
  Fresh, find_tree, put_tree, new_tree, tree_or_new, load_rank_trees, get_rank_tree,
}

abbrev update_row : ℕ → Fresh → DbRankInfo → RankTree → Option RankTree
update_row fuel f row rt =
    update_rank_info fuel f.info f.node f.level row.id row.val row.timestamp rt

-- Each row has fresh addresses, and room, when its turn comes.
abbrev pub Fits : (fuel : ℕ) → (ℕ → Fresh) → ℕ → List DbRankInfo → RankTree → Type 0
Fits fuel fresh n [] rt = Unit {0}
Fits fuel fresh n (row ∷ rows) rt =
    ((xs : List Ptr)
      → Holds rt xs
      → Room fuel (fresh n).node (fresh n).level rt.sl xs × Apart rt.sl (fresh n).info xs)
    × ((rt' : RankTree)
        → update_row fuel (fresh n) row rt ≡ some rt'
        → Fits fuel fresh (suc n) rows rt')

abbrev OfType : ℤ → List DbRankInfo → Type 0
OfType t [] = Unit {0}
OfType t (row ∷ rows) = (row.rank_type ≡ t) × OfType t rows

-- The trees of the one type.
abbrev Only : ℤ → RankTree → Fresh → List (ℤ × RankTree) → Type 0
Only t rt f rts =
    (tree_or_new f (find_tree t rts) ≡ rt) × ((rt' : RankTree) → put_tree t rt' rts ≡ (t, rt') ∷ [])

Only-one : (t : ℤ) (rt : RankTree) (f : Fresh) → Only t rt f ((t, rt) ∷ [])
unfolding tree_or_new find_tree put_tree
Only-one t rt f = (rw (eq_ℤ_refl t), λ rt'. rw (eq_ℤ_refl t))

Only-new : (t : ℤ) (f : Fresh) → Only t (new_tree f) f []
unfolding tree_or_new find_tree put_tree
Only-new t f = (refl, λ rt'. refl)

load_step :
    (fuel : ℕ) (fresh : ℕ → Fresh) (n : ℕ) (row : DbRankInfo) (rows : List DbRankInfo) (t : ℤ)
    (rt rt' : RankTree) (rts : List (ℤ × RankTree))
    → row.rank_type ≡ t
    → Only t rt (fresh n) rts
    → update_row fuel (fresh n) row rt ≡ some rt'
    → load_rank_trees fuel fresh n (row ∷ rows) rts
      ≡ load_rank_trees fuel fresh (suc n) rows ((t, rt') ∷ [])
unfolding load_rank_trees
load_step fuel fresh n row rows t rt rt' rts same only made =
    let found : tree_or_new (fresh n) (find_tree row.rank_type rts) ≡ rt =
      ap (λ z. tree_or_new (fresh n) (find_tree z rts)) same ∙ only.0 in
    let written : put_tree row.rank_type rt' rts ≡ (t, rt') ∷ [] =
      ap (λ z. put_tree z rt' rts) same ∙ only.1 rt' in
    rw (load_rank_trees, found, made, written)

load_done :
    (fuel : ℕ) (fresh : ℕ → Fresh) (n : ℕ) (rts : List (ℤ × RankTree))
    → load_rank_trees fuel fresh n [] rts ≡ some rts
unfolding load_rank_trees
load_done fuel fresh n rts = refl

update_made :
    (fuel : ℕ) (f : Fresh) (row : DbRankInfo) (rt : RankTree) (xs : List Ptr)
    → Holds rt xs
    → Room fuel f.node f.level rt.sl xs
    → Apart rt.sl f.info xs
    → (rt' : RankTree) × (add_rank_info fuel f.info f.node f.level row.id row.val row.timestamp rt
        ≡ some rt')
      × (update_row fuel f row rt ≡ some rt')
unfolding update_rank_info
update_made fuel f row rt xs h room apart =
    let (rt', _, run, _, _) =
      add_rank_info-add_entry fuel f.info f.node f.level row.id row.val row.timestamp rt xs h room
        apart in
    (rt', run, run)

load_rows :
    (fuel : ℕ) (fresh : ℕ → Fresh) (n : ℕ) (rows : List DbRankInfo) (t : ℤ) (rt : RankTree)
    (es : List Entry) (rts : List (ℤ × RankTree)) (row : DbRankInfo)
    → OfType t (row ∷ rows)
    → Only t rt (fresh n) rts
    → History rt es
    → Fits fuel fresh n (row ∷ rows) rt
    → (rt' : RankTree) × (load_rank_trees fuel fresh n (row ∷ rows) rts ≡ some ((t, rt') ∷ []))
      × History rt' (add_all (row_entries (row ∷ rows)) es)
load_rows fuel fresh n [] t rt es rts row same only history fits =
    let (xs, h, _) = History-Lists rt es history in
    let (room, apart) = fits.0 xs h in
    let f = fresh n in
    let (rt1, made, run) = update_made fuel f row rt xs h room apart in
    (
      rt1,
      load_step fuel fresh n row [] t rt rt1 rts same.0 only run
          ∙ load_done fuel fresh (suc n) ((t, rt1) ∷ []),
      added history fuel f.info f.node f.level row.id row.val row.timestamp fits.0 made,
    )
load_rows fuel fresh n (r ∷ rows) t rt es rts row same only history fits =
    let (xs, h, _) = History-Lists rt es history in
    let (room, apart) = fits.0 xs h in
    let f = fresh n in
    let (rt1, made, run) = update_made fuel f row rt xs h room apart in
    let (rt', on, later) =
      load_rows fuel fresh (suc n) rows t rt1 (add_entry (row_entry row) es) ((t, rt1) ∷ []) r
        same.1 (Only-one t rt1 (fresh (suc n)))
        (added history fuel f.info f.node f.level row.id row.val row.timestamp fits.0 made)
        (fits.1 rt1 run) in
    (rt', load_step fuel fresh n row (r ∷ rows) t rt rt1 rts same.0 only run ∙ on, later)

save_entries-OfType : (t : ℤ) (m : List (ℤ × Ptr)) (sl : SkipList) → OfType t (save_entries t m sl)
unfolding save_entries
save_entries-OfType t [] sl = tt
save_entries-OfType t (e ∷ es) sl = (refl, save_entries-OfType t es sl)

find_only : (t : ℤ) (rt : RankTree) → find_tree t ((t, rt) ∷ []) ≡ some rt
unfolding find_tree
find_only t rt = rw (eq_ℤ_refl t)

get_found : (f : Fresh) (t : ℤ) (rt : RankTree) → (get_rank_tree f t ((t, rt) ∷ [])).0 ≡ rt
unfolding get_rank_tree find_tree
get_found f t rt = rw (get_rank_tree, find_only t rt)

get_new : (f : Fresh) (t : ℤ) → (get_rank_tree f t []).0 ≡ new_tree f
unfolding get_rank_tree find_tree
get_new f t = refl

-- What `GetRankTree` gives of the trees that `LoadRankTrees` makes.
abbrev pub Loads : ℕ → (ℕ → Fresh) → ℤ → List DbRankInfo → List Entry → Type 0
Loads fuel fresh t rows es =
    (rts : List (ℤ × RankTree)) × (load_rank_trees fuel fresh 0 rows [] ≡ some rts)
    × Lists (get_rank_tree (fresh 0) t rts).0 es

new_History : (f : Fresh) → f.header ≢ null → History (new_tree f) []
unfolding new_tree
new_History f live = created f.header f.nodes f.infos live

loaded :
    (fuel : ℕ) (fresh : ℕ → Fresh) (t : ℤ) (rows : List DbRankInfo)
    → (fresh 0).header ≢ null
    → OfType t rows
    → Fits fuel fresh 0 rows (new_tree (fresh 0))
    → (rts : List (ℤ × RankTree)) × (load_rank_trees fuel fresh 0 rows [] ≡ some rts)
      × History (get_rank_tree (fresh 0) t rts).0 (add_all (row_entries rows) [])
loaded fuel fresh t [] live same fits = (
  [],
  load_done fuel fresh 0 [],
  subst (λ z. History z []) (sym (get_new (fresh 0) t)) (new_History (fresh 0) live),
)
loaded fuel fresh t (row ∷ rows) live same fits =
    let (rt', run, history) =
      load_rows fuel fresh 0 rows t (new_tree (fresh 0)) [] [] row same (Only-new t (fresh 0))
        (new_History (fresh 0) live) fits in
    (
      (t, rt') ∷ [],
      run,
      subst (λ z. History z (add_all (row_entries (row ∷ rows)) []))
          (sym (get_found (fresh 0) t rt')) history,
    )

-- For the rows that `saveRankTrees` makes of a tree that holds its nodes, in any order that its map has, and with
-- fresh addresses for each row, `LoadRankTrees` ends, and `GetRankTree` of the type then gives a tree that lists the
-- same entries.
pub load_rank_trees-save_entries :
    (fuel : ℕ) (fresh : ℕ → Fresh) (t : ℤ) (rt : RankTree) (xs : List Ptr)
    → Holds rt xs
    → (fresh 0).header ≢ null
    → Fits fuel fresh 0 (save_entries t rt.entry_mapping rt.sl) (new_tree (fresh 0))
    → Loads fuel fresh t (save_entries t rt.entry_mapping rt.sl) (view rt.sl xs)
load_rank_trees-save_entries fuel fresh t rt xs h live fits =
    let rows = save_entries t rt.entry_mapping rt.sl in
    let (rts, run, history) =
      loaded fuel fresh t rows live (save_entries-OfType t rt.entry_mapping rt.sl) fits in
    (rts, run, History-save_entries t rt (get_rank_tree (fresh 0) t rts).0 xs h history)
