-- ===== src/Ranking/Tree/Saved.antt =====
-- saveRankTrees and LoadRankTrees of ranking/ranking.go: a tree that is made from the rows of another one lists the
-- same entries.
use mathlib.Core.Path.{subst}
use touch_go_core.Prelude.{
  List, [], ◌∷◌, Option, none, some, true, false, ◌≡◌, inl, inr, refl, sym, ap, ◌∙◌, arith,
  Bool-cases,
}
use touch_go_core.Prelude.Int.{ℤ, eq_ℤ}
use touch_go_core.Prelude.Ptr.{Ptr, has}
use touch_go_core.Ranking.{SkipList}
use touch_go_core.Ranking.Levels.{has-head, has-tail}
use touch_go_core.Ranking.Lookup.{key_of, info_of}
use touch_go_core.Ranking.Tree.{RankTree, DbRankInfo, load, save_entries}
use touch_go_core.Ranking.Tree.Entries.{Entry, find, DistinctIds, eq_ℤ-eq, eq_ℤ_refl}
use touch_go_core.Ranking.Tree.View.{wanted, view, find_at, find_at-Holder}
use touch_go_core.Ranking.Tree.Mapping.{DistinctKeys}
use touch_go_core.Ranking.Tree.Add.{Holds}
use touch_go_core.Ranking.Tree.History.{History, History-Lists, Lists}
use touch_go_core.Ranking.Tree.Canonical.{add_all, add_all-Added, Absent, or_find, Ordered-unique}

-- The entry of a row of the database.
abbrev pub row_entry : DbRankInfo → Entry
row_entry r = record { id = r.id; value = r.val; timestamp = r.timestamp }

abbrev pub row_entries : List DbRankInfo → List Entry
row_entries [] = []
row_entries (r ∷ rs) = row_entry r ∷ row_entries rs

-- The map leads from each key to an info with that id.
abbrev Keyed : SkipList → List (ℤ × Ptr) → Type 0
Keyed sl [] = Unit {0}
Keyed sl (e ∷ es) = (eq_ℤ e.0 (sl.infos e.1).id ≡ true) × Keyed sl es

abbrev entry_at : SkipList → Option Ptr → Option Entry
entry_at sl none = none
entry_at sl (some at) = some (wanted (sl.infos at).value (sl.infos at))

load_here :
    (uid : ℤ) (e : ℤ × Ptr) (es : List (ℤ × Ptr))
    → eq_ℤ uid e.0 ≡ true
    → load uid (e ∷ es) ≡ some e.1
unfolding load
load_here uid e es h = rw h

load_past :
    (uid : ℤ) (e : ℤ × Ptr) (es : List (ℤ × Ptr))
    → eq_ℤ uid e.0 ≡ false
    → load uid (e ∷ es) ≡ load uid es
unfolding load
load_past uid e es h = rw h

load-Keyed :
    (sl : SkipList) (m : List (ℤ × Ptr))
    → DistinctKeys m
    → ((uid : ℤ) (at : Ptr) → load uid m ≡ some at → eq_ℤ uid (sl.infos at).id ≡ true)
    → Keyed sl m
load-Keyed sl [] d h = tt
load-Keyed sl (e ∷ es) d h = (
  h e.0 e.1 (load_here e.0 e es (eq_ℤ_refl e.0)),
  load-Keyed sl es d.1 (λ uid at k. elim (Bool-cases (eq_ℤ uid e.0)) [
    | inl b ↦
        let gone = ap (λ z. load z es) (eq_ℤ-eq uid e.0 b) ∙ d.0 in absurd (ground (arith, k, gone))
    | inr b ↦ h uid at (load_past uid e es b ∙ k)
  ]),
)

-- What the rows hold for an id.
find-row_entries :
    (sl : SkipList) (rank_type uid : ℤ) (m : List (ℤ × Ptr))
    → Keyed sl m
    → find uid (row_entries (save_entries rank_type m sl)) ≡ entry_at sl (load uid m)
unfolding save_entries load
find-row_entries sl rank_type uid [] k = refl
find-row_entries sl rank_type uid (e ∷ es) k = elim (Bool-cases (eq_ℤ uid e.0)) [
  | inl b ↦ let same : eq_ℤ uid (sl.infos e.1).id ≡ true = ground (arith, b, k.0) in rw (b, same)
  | inr b ↦
      let other : eq_ℤ uid (sl.infos e.1).id ≡ false = ground (arith, b, k.0) in
      rw (b, other) (find-row_entries sl rank_type uid es k.1)
]

rows-DistinctIds :
    (sl : SkipList) (rank_type : ℤ) (m : List (ℤ × Ptr))
    → Keyed sl m
    → DistinctKeys m
    → DistinctIds (row_entries (save_entries rank_type m sl))
unfolding save_entries
rows-DistinctIds sl rank_type [] k d = tt
rows-DistinctIds sl rank_type (e ∷ es) k d = (
  find-row_entries sl rank_type (sl.infos e.1).id es k.1
      ∙ ap (λ z. entry_at sl (load z es)) (sym (eq_ℤ-eq e.0 (sl.infos e.1).id k.0))
      ∙ ap (entry_at sl) d.0,
  rows-DistinctIds sl rank_type es k.1 d.1,
)

find-view_at :
    (sl : SkipList) (uid : ℤ) (xs : List Ptr)
    → ((y : Ptr) → has y xs ≡ true → key_of sl y ≡ (info_of sl y).value)
    → find uid (view sl xs) ≡ entry_at sl (find_at sl uid xs)
find-view_at sl uid [] k = refl
find-view_at sl uid (x ∷ xs) k = elim (Bool-cases (eq_ℤ uid (info_of sl x).id)) [
  | inl b ↦ rw b (ap (λ v. some (wanted v (info_of sl x))) (k x (has-head x xs)))
  | inr b ↦ rw b (find-view_at sl uid xs (λ y m. k y (has-tail y x xs m)))
]

Absent-empty : (rs : List Entry) → Absent rs []
Absent-empty [] = tt
Absent-empty (r ∷ rs) = (refl, Absent-empty rs)

-- The rows of a tree, in any order that its map has, make the list of its entries.
pub save_entries-view :
    (rank_type : ℤ) (rt : RankTree) (xs : List Ptr)
    → Holds rt xs
    → add_all (row_entries (save_entries rank_type rt.entry_mapping rt.sl)) [] ≡ view rt.sl xs
save_entries-view rank_type rt xs h =
    let sl = rt.sl in
    let m = rt.entry_mapping in
    let rows = row_entries (save_entries rank_type m sl) in
    let keyed = load-Keyed sl m h.keys (λ uid at k. holder_id uid at (sym (h.agrees uid) ∙ k)) in
    let added =
      add_all-Added rows [] (rows-DistinctIds sl rank_type m keyed h.keys) (Absent-empty rows) tt
        tt in
    Ordered-unique (add_all rows []) (view sl xs) added.ordered h.listing.ordered added.ids
      h.listing.ids
      (λ uid.
        added.finds uid
        ∙ or_none (find uid rows)
        ∙ find-row_entries sl rank_type uid m keyed
        ∙ ap (entry_at sl) (h.agrees uid)
        ∙ sym (find-view_at sl uid xs h.listing.keyed))
  where
    holder_id :
        (uid : ℤ) (at : Ptr) → find_at rt.sl uid xs ≡ some at → eq_ℤ uid (rt.sl.infos at).id ≡ true
    holder_id uid at k =
        let it = find_at-Holder rt.sl uid at xs k in
        ap (λ a. eq_ℤ uid (rt.sl.infos a).id) (sym it.address) ∙ it.is

    or_none : (o : Option Entry) → or_find o none ≡ o
    or_none none = refl
    or_none (some e) = refl

-- A tree to which the calls of `LoadRankTrees` for the rows that `saveRankTrees` makes of a tree have been
-- made lists the entries of that tree.
pub History-save_entries :
    (rank_type : ℤ) (rt rt' : RankTree) (xs : List Ptr)
    → Holds rt xs
    → History rt' (add_all (row_entries (save_entries rank_type rt.entry_mapping rt.sl)) [])
    → Lists rt' (view rt.sl xs)
History-save_entries rank_type rt rt' xs h history =
    subst (Lists rt') (save_entries-view rank_type rt xs h) (History-Lists rt' _ history)
