-- ===== src/Ranking/Tree/Add.antt =====
-- AddRankInfo of ranking/ranking.go refines the addition of an entry to an ordered list.
use mathlib.Core.Path.{subst}
use touch_go_core.Prelude.{
  ℕ, suc, ◌<◌, ◌≤◌, List, [], ◌∷◌, none, some, if◌then◌else◌, true, false, ◌≡◌, ◌≢◌, refl, sym, ap,
  ◌∙◌, arith, Bool-cases, inl, inr, ◌==◌, length,
}
use touch_go_core.Prelude.Int.{ℤ, eq_ℤ}
use touch_go_core.Prelude.Ptr.{Ptr, null, has, ==-refl, ==-eq}
use touch_go_core.Ranking.{SkipList, RankInfo, insert, skip_list_max_level, word}
use touch_go_core.Ranking.Lookup.{info_of}
use touch_go_core.Ranking.Tree.{RankTree, load, store, put_info, place_entry}
use touch_go_core.Ranking.Tree.Entries.{place, find}
use touch_go_core.Ranking.Tree.View.{wanted, view, find_at}
use touch_go_core.Ranking.Tree.Mapping.{DistinctKeys, load-store, store-DistinctKeys}
use touch_go_core.Ranking.Tree.Listing.{
  Listing, Apart, view-put_info, find_at-put_info, put_info-Listing, insert-Listing,
}

-- The skip list has the nodes `xs`, and the map leads from each id to the info of its node.
pub record Holds (rt : RankTree) (xs : List Ptr) : Type 0 where
  pub listing : Listing rt.sl xs
  pub agrees : (uid : ℤ) → load uid rt.entry_mapping ≡ find_at rt.sl uid xs
  pub keys : DistinctKeys rt.entry_mapping

-- What `insert` asks of the node at `p` and of the size of the list.
pub record Room (fuel : ℕ) (p : Ptr) (level : ℕ) (sl : SkipList) (xs : List Ptr) : Type 0 where
  pub fresh : has p (sl.header ∷ xs) ≡ false
  pub live : p ≢ null
  pub level_min : 0 < level
  pub level_max : level ≤ skip_list_max_level
  pub small : suc (length xs) < word
  pub enough : length xs < fuel

put_info_at : (sl : SkipList) (at : Ptr) (info : RankInfo) → (put_info at info sl).infos at ≡ info
put_info_at sl at info = rw (==-refl at)

-- What `insert` of the info at the address makes of the list.
abbrev Inserted : ℕ → Ptr → ℕ → Ptr → SkipList → List Ptr → RankInfo → Type 0
Inserted fuel p level at sl xs info =
    (sl' : SkipList) × (xs' : List Ptr) × (insert fuel p level info.value at sl ≡ some sl')
    × Listing sl' xs'
    × (view sl' xs' ≡ place (wanted info.value info) (view sl xs))
    × ((v : ℤ) → find_at sl' v xs' ≡ (if eq_ℤ v info.id then some at else find_at sl v xs))

insert_written :
    (fuel : ℕ) (p : Ptr) (level : ℕ) (at : Ptr) (info : RankInfo) (sl : SkipList) (xs : List Ptr)
    → Listing sl xs
    → Apart sl at xs
    → Room fuel p level sl xs
    → find info.id (view sl xs) ≡ none
    → Inserted fuel p level at (put_info at info sl) xs info
insert_written fuel p level at info sl xs l apart room absent =
    let e = put_info_at sl at info in
    let absent' : find ((put_info at info sl).infos at).id (view (put_info at info sl) xs) ≡ none =
      ap (λ (i : RankInfo). find i.id (view (put_info at info sl) xs)) e
      ∙ ap (find info.id) (view-put_info sl at info xs apart)
      ∙ absent in
    subst (Inserted fuel p level at (put_info at info sl) xs) e (
      insert-Listing fuel p level at (put_info at info sl) xs
        (put_info-Listing sl at info xs apart l) room.fresh room.live room.level_min room.level_max
        room.small room.enough absent')

place_entry_run :
    (fuel : ℕ) (p : Ptr) (level : ℕ) (uid : ℤ) (at : Ptr) (info : RankInfo) (sl sl' : SkipList)
    (rt : RankTree)
    → insert fuel p level info.value at (put_info at info sl) ≡ some sl'
    → place_entry fuel p level uid at info sl rt
      ≡ some (record { sl = sl'; entry_mapping = store uid at rt.entry_mapping })
unfolding place_entry
place_entry_run fuel p level uid at info sl sl' rt e = rw e

-- An entry put at its place, in a tree that agrees with the list `sl` on the other ids.
pub place_entry-Holds :
    (fuel : ℕ) (p : Ptr) (level : ℕ) (uid : ℤ) (at : Ptr) (info : RankInfo) (sl : SkipList)
    (rt : RankTree) (xs : List Ptr)
    → Listing sl xs
    → Apart sl at xs
    → Room fuel p level sl xs
    → find info.id (view sl xs) ≡ none
    → uid ≡ info.id
    → DistinctKeys rt.entry_mapping
    → ((v : ℤ) → eq_ℤ v uid ≡ false → load v rt.entry_mapping ≡ find_at sl v xs)
    → (rt' : RankTree) × (xs' : List Ptr) × (place_entry fuel p level uid at info sl rt ≡ some rt')
      × Holds rt' xs'
      × (view rt'.sl xs' ≡ place (wanted info.value info) (view sl xs))
place_entry-Holds fuel p level uid at info sl rt xs l apart room absent same keys agrees =
    let (sl', xs', run, l', listed, finds) =
      insert_written fuel p level at info sl xs l apart room absent in
    (
      record { sl = sl'; entry_mapping = store uid at rt.entry_mapping },
      xs',
      place_entry_run fuel p level uid at info sl sl' rt run,
      record {
        listing = l';
        agrees = λ v.
            load-store v uid at rt.entry_mapping
            ∙ other v
            ∙ sym (
                finds v
                ∙ ap (λ o. if eq_ℤ v info.id then some at else o)
                    (find_at-put_info sl at info v xs apart));
        keys = store-DistinctKeys uid at rt.entry_mapping keys;
      },
      listed ∙ ap (place (wanted info.value info)) (view-put_info sl at info xs apart),
    )
  where
    other :
        (v : ℤ)
        → (if eq_ℤ v uid then some at else load v rt.entry_mapping)
          ≡ (if eq_ℤ v info.id then some at else find_at sl v xs)
    other v = elim (Bool-cases (eq_ℤ v uid)) [
      | inl e ↦ rw e (sym (rw (sym (ap (eq_ℤ v) same) ∙ e) refl))
      | inr e ↦ rw (e, sym (ap (eq_ℤ v) same) ∙ e) (agrees v e)
    ]

-- An id that no entry has.
pub Apart-absent :
    (sl : SkipList) (uid : ℤ) (at : Ptr) (xs : List Ptr)
    → eq_ℤ uid (sl.infos at).id ≡ true
    → find_at sl uid xs ≡ none
    → Apart sl at xs
Apart-absent sl uid at [] e h y m = absurd (ground (arith, m))
Apart-absent sl uid at (x ∷ xs) e h y m = elim (Bool-cases (eq_ℤ uid (info_of sl x).id)) [
  | inl b ↦ absurd (ground (arith, b, h))
  | inr b ↦ elim (Bool-cases (y == x)) [
    | inl z ↦ subst (λ w. (at == (sl.nodes w).info) ≡ false) (sym (==-eq z)) (elsewhere b)
    | inr z ↦ Apart-absent sl uid at xs e (ground (arith, b, h)) y (ground (arith, m, z))
  ]
]
  where
    elsewhere : eq_ℤ uid (info_of sl x).id ≡ false → (at == (sl.nodes x).info) ≡ false
    elsewhere b = elim (Bool-cases (at == (sl.nodes x).info)) [
      | inl z ↦
          let same = ap (λ w. eq_ℤ uid (sl.infos w).id) (==-eq z) in
          absurd (ground (arith, b, e, same))
      | inr z ↦ z
    ]
