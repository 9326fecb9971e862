-- ===== src/Ranking/Tree/Refine.antt =====
-- AddRankInfo and RemoveRankInfo of ranking/ranking.go refine the addition and the removal of an entry
-- of an ordered list.
use mathlib.Core.Path.{subst}
use touch_go_core.Prelude.{
  ℕ, suc, List, ◌∷◌, ◌++◌, Option, none, some, true, false, ◌≡◌, refl, sym, ap, ◌∙◌, arith,
  Bool-cases, inl, inr, length, length-append,
}
use touch_go_core.Prelude.Int.{ℤ, eq_ℤ}
use touch_go_core.Prelude.Ptr.{Ptr, has, has-append}
use touch_go_core.Ranking.{SkipList, RankInfo, remove}
use touch_go_core.Ranking.Tree.{RankTree, load, place_entry, add_rank_info}
use touch_go_core.Ranking.Tree.Entries.{
  Entry, place, find, drop_id, add_entry, add_entry-none, add_entry-some, drop_id, eq_ℤ_refl,
  eq_ℤ-eq,
}
use touch_go_core.Ranking.Tree.View.{entry_of, view, find_at, find-view, Holder, find_at-Holder}
use touch_go_core.Ranking.Tree.Listing.{Apart, remove-Listing, Holder-info}
use touch_go_core.Ranking.Tree.Add.{Holds, Room, place_entry-Holds, Apart-absent}

add_new :
    (fuel : ℕ) (fresh p : Ptr) (level : ℕ) (uid val timestamp : ℤ) (rt : RankTree)
    → load uid rt.entry_mapping ≡ none
    → add_rank_info fuel fresh p level uid val timestamp rt
      ≡ place_entry fuel p level uid fresh
          (record { id = uid; value = val; rank = 0; timestamp = timestamp })
          rt.sl
          rt
unfolding add_rank_info
add_new fuel fresh p level uid val timestamp rt e = rw (add_rank_info, e)

add_same :
    (fuel : ℕ) (fresh p : Ptr) (level : ℕ) (uid val timestamp : ℤ) (rt : RankTree) (at : Ptr)
    → load uid rt.entry_mapping ≡ some at
    → eq_ℤ (rt.sl.infos at).value val ≡ true
    → add_rank_info fuel fresh p level uid val timestamp rt ≡ some rt
unfolding add_rank_info
add_same fuel fresh p level uid val timestamp rt at e h = rw (add_rank_info, e, h)

add_moved :
    (fuel : ℕ) (fresh p : Ptr) (level : ℕ) (uid val timestamp : ℤ) (rt : RankTree) (at : Ptr)
    (sl : SkipList)
    → load uid rt.entry_mapping ≡ some at
    → eq_ℤ (rt.sl.infos at).value val ≡ false
    → remove fuel (rt.sl.infos at).value (rt.sl.infos at) rt.sl ≡ some (true, sl)
    → add_rank_info fuel fresh p level uid val timestamp rt
      ≡ place_entry fuel p level uid at
          (record (rt.sl.infos at) { value = val; timestamp = timestamp })
          sl
          rt
unfolding add_rank_info
add_moved fuel fresh p level uid val timestamp rt at sl e h r = rw (add_rank_info, e, h, r)

-- The room is also there without one node.
Room-without :
    (fuel : ℕ) (p : Ptr) (level : ℕ) (sl sl' : SkipList) (xs front back : List Ptr) (node : Ptr)
    → xs ≡ front ++ node ∷ back
    → sl'.header ≡ sl.header
    → Room fuel p level sl xs
    → Room fuel p level sl' (front ++ back)
Room-without fuel p level sl sl' xs front back node e h room =
    let size : length xs ≡ suc (length (front ++ back)) =
      ap length e ∙ length-append front (node ∷ back) ∙ omega (arith, length-append front back) in
    let apart : has p (sl.header ∷ (front ++ node ∷ back)) ≡ false =
      subst (λ v. has p (sl.header ∷ v) ≡ false) e room.fresh in
    record {
      fresh =
          ap (λ x. has p (x ∷ (front ++ back))) h
          ∙ ground (arith, apart, has-append p front back, has-append p front (node ∷ back));
      live = room.live;
      level_min = room.level_min;
      level_max = room.level_max;
      small = omega (arith, size, room.small);
      enough = omega (arith, size, room.enough);
    }

-- What a call makes of the tree.
abbrev Refines : Option RankTree → List Entry → Type 0
Refines made es =
    (rt' : RankTree) × (xs' : List Ptr) × (made ≡ some rt') × Holds rt' xs' × (view rt'.sl xs' ≡ es)

add_moved-Refines :
    (fuel : ℕ) (fresh p : Ptr) (level : ℕ) (uid val timestamp : ℤ) (rt : RankTree) (xs : List Ptr)
    (at : Ptr)
    → Holds rt xs
    → Room fuel p level rt.sl xs
    → (it : Holder rt.sl uid at xs) → load uid rt.entry_mapping ≡ some at
    → eq_ℤ (rt.sl.infos at).value val ≡ false
    → Refines (add_rank_info fuel fresh p level uid val timestamp rt) (
        place
          (record { id = uid; value = val; timestamp = timestamp })
          (drop_id uid (view rt.sl xs)))
add_moved-Refines fuel fresh p level uid val timestamp rt xs at h room it found differs =
    let info = rt.sl.infos at in
    let moved = record info { value = val; timestamp = timestamp } in
    let (sl1, run, l, listed, finds, q) =
      remove-Listing fuel uid at rt.sl xs h.listing it room.enough in
    let ys = it.front ++ it.back in
    let same_info : sl1.infos at ≡ info = ap (λ (f : Ptr → RankInfo). f at) q.infos in
    let uid_is : eq_ℤ uid info.id ≡ true =
      ap (λ a. eq_ℤ uid (rt.sl.infos a).id) (sym it.address) ∙ it.is in
    let uid_eq = eq_ℤ-eq uid info.id uid_is in
    let gone : find_at sl1 uid ys ≡ none = finds uid ∙ rw (eq_ℤ_refl uid) in
    let (rt', xs', made, h', listed') =
      place_entry-Holds fuel p level uid at moved sl1 rt ys l
        (Apart-absent sl1 uid at ys (ap (λ (i : RankInfo). eq_ℤ uid i.id) same_info ∙ uid_is) gone)
        (Room-without fuel p level rt.sl sl1 xs it.front it.back it.node it.parts q.header room)
        (ap (λ z. find z (view sl1 ys)) (sym uid_eq) ∙ find-view sl1 uid ys gone) uid_eq h.keys
        (λ v e. h.agrees v ∙ sym (finds v ∙ rw e)) in
    (
      rt',
      xs',
      add_moved fuel fresh p level uid val timestamp rt at sl1 found differs run ∙ made,
      h',
      listed'
          ∙ ap (λ z. place (record { id = z; value = val; timestamp = timestamp }) (view sl1 ys))
              (sym uid_eq)
          ∙ ap (place (record { id = uid; value = val; timestamp = timestamp })) listed,
    )

-- In a tree that holds its nodes, with room for one more, `AddRankInfo` ends in a tree that holds its
-- nodes, whose entries are the ones before with the new value in its place.
pub add_rank_info-add_entry :
    (fuel : ℕ) (fresh p : Ptr) (level : ℕ) (uid val timestamp : ℤ) (rt : RankTree) (xs : List Ptr)
    → Holds rt xs
    → Room fuel p level rt.sl xs
    → Apart rt.sl fresh xs
    → (rt' : RankTree) × (xs' : List Ptr) × (add_rank_info fuel fresh p level uid val timestamp rt
        ≡ some rt')
      × Holds rt' xs'
      × (view rt'.sl xs'
          ≡ add_entry (record { id = uid; value = val; timestamp = timestamp }) (view rt.sl xs))
add_rank_info-add_entry fuel fresh p level uid val timestamp rt xs h room apart =
    by_lookup (load uid rt.entry_mapping) refl
  where
    e : Entry
    e = record { id = uid; value = val; timestamp = timestamp }

    by_lookup :
        (o : Option Ptr)
        → load uid rt.entry_mapping ≡ o
        → Refines
            (add_rank_info fuel fresh p level uid val timestamp rt)
            (add_entry e (view rt.sl xs))
    by_lookup none l =
        let absent = find-view rt.sl uid xs (sym (h.agrees uid) ∙ l) in
        let (rt', xs', made, h', listed) =
          place_entry-Holds fuel p level uid fresh
            (record { id = uid; value = val; rank = 0; timestamp = timestamp }) rt.sl rt xs
            h.listing apart room absent refl h.keys (λ v _. h.agrees v) in
        (
          rt',
          xs',
          add_new fuel fresh p level uid val timestamp rt l ∙ made,
          h',
          listed ∙ sym (add_entry-none e (view rt.sl xs) absent),
        )
    by_lookup (some at) l =
        let it = find_at-Holder rt.sl uid at xs (sym (h.agrees uid) ∙ l) in
        let old = add_entry-some e (entry_of rt.sl it.node) (view rt.sl xs) it.entry in
        let (_, value) = Holder-info rt.sl uid at xs h.listing it in
        elim (Bool-cases (eq_ℤ (rt.sl.infos at).value val)) [
          | inl b ↦ (
            rt,
            xs,
            add_same fuel fresh p level uid val timestamp rt at l b,
            h,
            sym (old ∙ rw (ap (λ z. eq_ℤ z val) value ∙ b)),
          )
          | inr b ↦
              let (rt', xs', made, h', listed) =
                add_moved-Refines fuel fresh p level uid val timestamp rt xs at h room it l b in
              (rt', xs', made, h', listed ∙ sym (old ∙ rw (ap (λ z. eq_ℤ z val) value ∙ b)))
        ]
