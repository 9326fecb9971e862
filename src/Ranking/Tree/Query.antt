-- ===== src/Ranking/Tree/Query.antt =====
-- QueryRankInfo of ranking/ranking.go on the ordered list.
use mathlib.Core.Path.{subst}
use touch_go_core.Prelude.{
  ℕ, suc, ◌<◌, List, ◌∷◌, Option, none, some, ◌≡◌, refl, sym, ap, ◌∙◌, arith, Bool-cases, inl, inr,
  ◌==◌, length, length-append,
}
use touch_go_core.Prelude.Int.{ℤ}
use touch_go_core.Prelude.Ptr.{Ptr, ==-refl, ==-eq}
use touch_go_core.Ranking.{SkipList, RankInfo}
use touch_go_core.Ranking.Lookup.{key_of, info_of}
use touch_go_core.Ranking.Tree.{RankTree, load, put_info}
use touch_go_core.Ranking.Tree.Entries.{Entry, Ordered, DistinctIds, find, position}
use touch_go_core.Ranking.Tree.View.{
  wanted, entry_of, view, view-same, find_at-same, Sorted-Ordered, find-view, find_at-Holder,
}
use touch_go_core.Ranking.Tree.Listing.{Shape-put_info, Holder-info}
use touch_go_core.Ranking.Tree.Add.{Holds}
use touch_go_core.Ranking.Tree.{query_rank_info}
use touch_go_core.Ranking.{rank_of, add_32}
use touch_go_core.Ranking.Lookup.{rank_of-position, Sorted, Linked}
use touch_go_core.Ranking.Walk.{add_32_small}
use touch_go_core.Ranking.Shape.{Shape-Linked}

-- The rank of an info is not part of its entry.
abbrev SameEntry : RankInfo → RankInfo → Type 0
SameEntry a b = (a.id ≡ b.id) × (a.value ≡ b.value) × (a.timestamp ≡ b.timestamp)

ranked : SkipList → Ptr → ℕ → SkipList
ranked sl at r = put_info at (record (sl.infos at) { rank = r }) sl

ranked-SameEntry :
    (sl : SkipList) (at : Ptr) (r : ℕ) (y : Ptr)
    → SameEntry (info_of (ranked sl at r) y) (info_of sl y)
unfolding ranked
ranked-SameEntry sl at r y = elim (Bool-cases (at == (sl.nodes y).info)) [
  | inl e ↦
      let same = ap sl.infos (==-eq e) in
      rw e (
        ap (λ (i : RankInfo). i.id) same,
        ap (λ (i : RankInfo). i.value) same,
        ap (λ (i : RankInfo). i.timestamp) same,
      )
  | inr e ↦ rw e (refl, refl, refl)
]

ranked-Holds :
    (rt : RankTree) (xs : List Ptr) (at : Ptr) (r : ℕ)
    → Holds rt xs
    → Holds (record rt { sl = ranked rt.sl at r }) xs
      × (view (ranked rt.sl at r) xs ≡ view rt.sl xs)
unfolding ranked
ranked-Holds rt xs at r h =
    let sl = rt.sl in
    let listed = view-same sl (ranked sl at r) xs (λ y m. same_entry y) in
    (
      record {
        listing = record {
          shape = Shape-put_info sl at (record (sl.infos at) { rank = r }) xs h.listing.shape;
          keyed = λ y m. h.listing.keyed y m ∙ sym (ranked-SameEntry sl at r y).1;
          ordered = subst Ordered (sym listed) h.listing.ordered;
          ids = subst DistinctIds (sym listed) h.listing.ids;
        };
        agrees = λ v.
            h.agrees v
            ∙ sym (
                find_at-same sl (ranked sl at r) v xs (λ y m. (ranked-SameEntry sl at r y).0)
                  (λ y m. refl));
        keys = h.keys;
      },
      listed,
    )
  where
    same_entry : (y : Ptr) → entry_of (ranked rt.sl at r) y ≡ entry_of rt.sl y
    same_entry y =
        let (i, v, t) = ranked-SameEntry rt.sl at r y in
        ap
          (λ z. record {
            id = z;
            value = key_of rt.sl y;
            timestamp = (info_of (ranked rt.sl at r) y).timestamp;
          })
          i
        ∙ ap (λ z. record { id = (info_of rt.sl y).id; value = key_of rt.sl y; timestamp = z }) t

query_run :
    (fuel : ℕ) (uid : ℤ) (rt : RankTree) (at : Ptr) (r : ℕ)
    → load uid rt.entry_mapping ≡ some at
    → rank_of fuel rt.sl (rt.sl.infos at).value (rt.sl.infos at) ≡ some r
    → query_rank_info fuel uid rt ≡ some (some at, record rt { sl = ranked rt.sl at (add_32 r 1) })
unfolding query_rank_info ranked
query_run fuel uid rt at r e h = rw (query_rank_info, e, h)

ranked_at :
    (sl : SkipList) (at : Ptr) (r : ℕ)
    → (ranked sl at r).infos at ≡ record (sl.infos at) { rank = r }
unfolding ranked
ranked_at sl at r = rw (==-refl at)

pub some_eq : {A : Type 0} (a b : A) → some a ≡ some b → a ≡ b
some_eq {A} a b h = ap (λ (o : Option A). elim o [ none ↦ b | some x ↦ x ]) h

-- The answer of `QueryRankInfo` of the id of the entry `e`.
abbrev pub Answer : ℕ → ℤ → RankTree → List Ptr → Entry → Type 0
Answer fuel uid rt xs e =
    (at : Ptr) × (rt' : RankTree) × (query_rank_info fuel uid rt ≡ some (some at, rt'))
    × (wanted (rt'.sl.infos at).value (rt'.sl.infos at) ≡ e)
    × ((rt'.sl.infos at).rank ≡ suc (position uid (view rt.sl xs)))
    × Holds rt' xs
    × (view rt'.sl xs ≡ view rt.sl xs)

-- In a tree that holds its nodes, `QueryRankInfo` of the id of an entry returns that entry with its
-- rank, counted from 1, and leaves all entries as they are.
pub query_rank_info-position :
    (fuel : ℕ) (uid : ℤ) (rt : RankTree) (xs : List Ptr) (e : Entry)
    → Holds rt xs
    → length xs < fuel
    → find uid (view rt.sl xs) ≡ some e
    → Answer fuel uid rt xs e
query_rank_info-position fuel uid rt xs e h enough f = by_lookup (load uid rt.entry_mapping) refl
  where
    by_lookup : (o : Option Ptr) → load uid rt.entry_mapping ≡ o → Answer fuel uid rt xs e
    by_lookup none l =
        let absent = find-view rt.sl uid xs (sym (h.agrees uid) ∙ l) in
        absurd (ground (arith, absent, f))
    by_lookup (some at) l =
        let it = find_at-Holder rt.sl uid at xs (sym (h.agrees uid) ∙ l) in
        let (i, k) = Holder-info rt.sl uid at xs h.listing it in
        let r = add_32 (length it.front) 1 in
        let p = it.node in
        let there : rank_of fuel rt.sl (rt.sl.infos at).value (rt.sl.infos at)
            ≡ some (length it.front) =
          sym (
            ap (λ z. rank_of fuel rt.sl z (info_of rt.sl p)) k
            ∙ ap (rank_of fuel rt.sl (rt.sl.infos at).value) i)
          ∙ (rank_of-position fuel rt.sl p it.front it.back
              (subst (Linked rt.sl) it.parts (Shape-Linked rt.sl xs h.listing.shape))
              (subst (Sorted rt.sl) it.parts (Sorted-Ordered rt.sl xs h.listing.ordered))
              (subst (λ v. length v < fuel) it.parts enough)).1 in
        let (h', listed) = ranked-Holds rt xs at r h in
        (
          at,
          record rt { sl = ranked rt.sl at r },
          query_run fuel uid rt at (length it.front) l there,
          ap (λ (n : RankInfo). wanted n.value n) (ranked_at rt.sl at r)
              ∙ sym (ap (λ z. wanted z (info_of rt.sl p)) k ∙ ap (wanted (rt.sl.infos at).value) i)
              ∙ some_eq (entry_of rt.sl p) e (sym it.entry ∙ f),
          ap (λ (n : RankInfo). n.rank) (ranked_at rt.sl at r)
              ∙ add_32_small (length it.front) 1 (
                  omega (
                    arith,
                    h.listing.shape.size,
                    ap length it.parts,
                    length-append it.front (p ∷ it.back),
                  ))
              ∙ omega (arith, it.counted),
          h',
          listed,
        )
