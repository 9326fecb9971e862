-- ===== src/Ranking/Tree/Drop.antt =====
-- RemoveRankInfo and QueryRankInfo of ranking/ranking.go on the ordered list, and the empty tree.
use touch_go_core.Prelude.{
  ℕ, ◌<◌, List, [], ◌∷◌, ◌++◌, Option, none, some, if◌then◌else◌, true, false, ◌≡◌, refl, sym, ap,
  ◌∙◌, arith, Bool-cases, inl, inr, length,
}
use touch_go_core.Prelude.Int.{ℤ, eq_ℤ}
use touch_go_core.Prelude.Ptr.{Ptr}
use touch_go_core.Ranking.{SkipList, remove}
use touch_go_core.Ranking.Tree.{RankTree, load, delete, remove_rank_info}
use touch_go_core.Ranking.Tree.Entries.{Entry, find, drop_id, drop_id}
use touch_go_core.Ranking.Tree.View.{view, find-view, find_at-Holder}
use touch_go_core.Ranking.Tree.Mapping.{load-delete, delete-DistinctKeys}
use touch_go_core.Ranking.Tree.Listing.{remove-Listing}
use touch_go_core.Ranking.Tree.Add.{Holds}

remove_run :
    (fuel : ℕ) (uid : ℤ) (rt : RankTree) (at : Ptr) (sl : SkipList)
    → load uid rt.entry_mapping ≡ some at
    → remove fuel (rt.sl.infos at).value (rt.sl.infos at) rt.sl ≡ some (true, sl)
    → remove_rank_info fuel uid rt
      ≡ some (true, record { sl = sl; entry_mapping = delete uid rt.entry_mapping })
unfolding remove_rank_info
remove_run fuel uid rt at sl e r = rw (remove_rank_info, e, r)

remove_none :
    (fuel : ℕ) (uid : ℤ) (rt : RankTree)
    → load uid rt.entry_mapping ≡ none
    → remove_rank_info fuel uid rt ≡ some (false, rt)
unfolding remove_rank_info
remove_none fuel uid rt e = rw (remove_rank_info, e)

drop_id-absent : (uid : ℤ) (es : List Entry) → find uid es ≡ none → drop_id uid es ≡ es
drop_id-absent uid [] h = refl
drop_id-absent uid (e ∷ es) h = elim (Bool-cases (eq_ℤ uid e.id)) [
  | inl b ↦ absurd (ground (arith, b, h))
  | inr b ↦ rw b (ap (λ v. e ∷ v) (drop_id-absent uid es (ground (arith, b, h))))
]

-- In a tree that holds its nodes, `RemoveRankInfo` ends in a tree that holds its nodes, whose entries
-- are the ones before without the one of the id; it returns whether there was one.
pub remove_rank_info-drop_id :
    (fuel : ℕ) (uid : ℤ) (rt : RankTree) (xs : List Ptr)
    → Holds rt xs
    → length xs < fuel
    → (rt' : RankTree) × (xs' : List Ptr) × (remove_rank_info fuel uid rt
        ≡ some (elim (find uid (view rt.sl xs)) [ none ↦ false | some e ↦ true ], rt'))
      × Holds rt' xs'
      × (view rt'.sl xs' ≡ drop_id uid (view rt.sl xs))
remove_rank_info-drop_id fuel uid rt xs h enough = by_lookup (load uid rt.entry_mapping) refl
  where
    by_lookup :
        (o : Option Ptr)
        → load uid rt.entry_mapping ≡ o
        → (rt' : RankTree) × (xs' : List Ptr) × (remove_rank_info fuel uid rt
            ≡ some (elim (find uid (view rt.sl xs)) [ none ↦ false | some e ↦ true ], rt'))
          × Holds rt' xs'
          × (view rt'.sl xs' ≡ drop_id uid (view rt.sl xs))
    by_lookup none l =
        let absent = find-view rt.sl uid xs (sym (h.agrees uid) ∙ l) in
        (
          rt,
          xs,
          remove_none fuel uid rt l ∙ rw absent refl,
          h,
          sym (drop_id-absent uid (view rt.sl xs) absent),
        )
    by_lookup (some at) l =
        let it = find_at-Holder rt.sl uid at xs (sym (h.agrees uid) ∙ l) in
        let (sl, run, l', listed, finds, q) =
          remove-Listing fuel uid at rt.sl xs h.listing it enough in
        (
          record { sl = sl; entry_mapping = delete uid rt.entry_mapping },
          it.front ++ it.back,
          remove_run fuel uid rt at sl l run ∙ rw it.entry refl,
          record {
            listing = l';
            agrees = λ v.
                load-delete v uid rt.entry_mapping h.keys
                ∙ ap (λ o. if eq_ℤ v uid then none else o) (h.agrees v)
                ∙ sym (finds v);
            keys = delete-DistinctKeys uid rt.entry_mapping h.keys;
          },
          listed,
        )
