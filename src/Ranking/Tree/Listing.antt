-- ===== src/Ranking/Tree/Listing.antt =====
-- insert and remove of the skip list of ranking/ranking.go on the entries that its nodes list.
use mathlib.Core.Path.{subst}
use touch_go_core.Prelude.{
  ℕ, suc, ◌<◌, ◌≤◌, List, ◌∷◌, ◌++◌, Option, none, some, if◌then◌else◌, Bool, true, false, ◌≡◌, ◌≢◌,
  refl, sym, ap, ◌∙◌, arith, Bool-cases, inl, inr, ◌==◌, length,
}
use touch_go_core.Prelude.Int.{ℤ, eq_ℤ}
use touch_go_core.Prelude.Ptr.{Ptr, null, has, has-append, ==-swap, ==-eq}
use touch_go_core.Ranking.{SkipList, RankInfo, insert, remove, skip_list_max_level, word, level_of}
use touch_go_core.Ranking.Levels.{has-head}
use touch_go_core.Ranking.Lookup.{key_of, info_of, Sorted, Sorted-AllAre, found_self}
use touch_go_core.Ranking.Splice.{ne-has}
use touch_go_core.Ranking.Shape.{Shape, NodesAt-nodes}
use touch_go_core.Ranking.Insert.{Placed, insert-Shape}
use touch_go_core.Ranking.Remove.{Kept, remove-Shape}
use touch_go_core.Ranking.Tree.{put_info}
use touch_go_core.Ranking.Tree.Entries.{
  Ordered, DistinctIds, place, find, drop_id, Ordered-place, DistinctIds-place, Ordered-drop_id,
  DistinctIds-drop_id, find-drop_id, eq_ℤ_refl, eq_ℤ-eq,
}
use touch_go_core.Ranking.Tree.View.{
  wanted, entry_of, view, find_at, or_else, view-append, view-same, find_at-same, find_at-append,
  find_at-view, Holder, split, Sorted-Ordered,
}

-- A skip list of the right shape whose nodes list entries in order, with one for each id, and are
-- keyed by the values.
pub record Listing (sl : SkipList) (xs : List Ptr) : Type 0 where
  pub shape : Shape sl xs
  pub keyed : (y : Ptr) → has y xs ≡ true → key_of sl y ≡ (info_of sl y).value
  pub ordered : Ordered (view sl xs)
  pub ids : DistinctIds (view sl xs)

-- No node has its info at the address.
abbrev pub Apart : SkipList → Ptr → List Ptr → Type 0
Apart sl at xs = (y : Ptr) → has y xs ≡ true → (at == (sl.nodes y).info) ≡ false

pub Shape-put_info :
    (sl : SkipList) (at : Ptr) (info : RankInfo) (xs : List Ptr)
    → Shape sl xs
    → Shape (put_info at info sl) xs
unfolding level_of
Shape-put_info sl at info xs s =
    let b = s.bones in
    record {
      bones = record {
        level_min = b.level_min;
        level_max = b.level_max;
        header_height = b.header_height;
        empty_above = b.empty_above;
        heights = b.heights;
        alive = b.alive;
        distinct = b.distinct;
      };
      linked = λ i h. NodesAt-nodes sl (put_info at info sl) i (sl.header ∷ xs) refl (s.linked i h);
      counted = s.counted;
      size = s.size;
    }

pub put_info-same :
    (sl : SkipList) (at : Ptr) (info : RankInfo) (y : Ptr)
    → (at == (sl.nodes y).info) ≡ false
    → info_of (put_info at info sl) y ≡ info_of sl y
put_info-same sl at info y h = rw h

pub view-put_info :
    (sl : SkipList) (at : Ptr) (info : RankInfo) (xs : List Ptr)
    → Apart sl at xs
    → view (put_info at info sl) xs ≡ view sl xs
view-put_info sl at info xs h =
    view-same sl (put_info at info sl) xs
      (λ y m. ap (wanted (key_of sl y)) (put_info-same sl at info y (h y m)))

pub find_at-put_info :
    (sl : SkipList) (at : Ptr) (info : RankInfo) (uid : ℤ) (xs : List Ptr)
    → Apart sl at xs
    → find_at (put_info at info sl) uid xs ≡ find_at sl uid xs
find_at-put_info sl at info uid xs h =
    find_at-same sl (put_info at info sl) uid xs
      (λ y m. ap (λ (i : RankInfo). i.id) (put_info-same sl at info y (h y m))) (λ y m. refl)

pub put_info-Listing :
    (sl : SkipList) (at : Ptr) (info : RankInfo) (xs : List Ptr)
    → Apart sl at xs
    → Listing sl xs
    → Listing (put_info at info sl) xs
put_info-Listing sl at info xs apart l =
    let e = sym (view-put_info sl at info xs apart) in
    record {
      shape = Shape-put_info sl at info xs l.shape;
      keyed = λ y m.
          l.keyed y m
          ∙ sym (ap (λ (i : RankInfo). i.value) (put_info-same sl at info y (apart y m)));
      ordered = subst Ordered e l.ordered;
      ids = subst DistinctIds e l.ids;
    }

-- One entry between others, whose id they have not.
between :
    (o o' : Option Ptr) (b : Bool) (at : Ptr)
    → (b ≡ true → o ≡ none)
    → or_else o (if b then some at else o') ≡ (if b then some at else or_else o o')
between none o' b at h = refl
between (some a) o' true at h = absurd (ground (arith, h refl))
between (some a) o' false at h = refl

none_front : (o o' : Option Ptr) → or_else o o' ≡ none → o ≡ none
none_front none o' h = refl
none_front (some a) o' h = absurd (ground (arith, h))

-- The other nodes keep their infos.
info-Placed :
    (sl sl' : SkipList) (p : Ptr) (key : ℤ) (at y : Ptr)
    → Placed sl sl' p key at
    → (p == y) ≡ false
    → info_of sl' y ≡ info_of sl y
info-Placed sl sl' p key at y q e =
    ap sl'.infos (q.node_infos y e) ∙ ap (λ (f : Ptr → RankInfo). f (sl.nodes y).info) q.infos

new_entry :
    (sl sl' : SkipList) (p : Ptr) (key : ℤ) (at : Ptr)
    → Placed sl sl' p key at
    → (info_of sl' p ≡ sl.infos at) × (entry_of sl' p ≡ wanted key (sl.infos at))
new_entry sl sl' p key at q =
    let i = ap sl'.infos q.new_info ∙ ap (λ (f : Ptr → RankInfo). f at) q.infos in
    (i, ap (λ k. wanted k (info_of sl' p)) q.new_key ∙ ap (wanted key) i)

view-Placed :
    (sl sl' : SkipList) (p : Ptr) (key : ℤ) (at : Ptr) (xs : List Ptr)
    → Placed sl sl' p key at
    → has p xs ≡ false
    → view sl' xs ≡ view sl xs
view-Placed sl sl' p key at xs q h = view-same sl sl' xs (λ y m.
    let e = ne-has p y xs h m in
    ap (λ k. wanted k (info_of sl' y)) (q.keys y e)
    ∙ ap (wanted (key_of sl y)) (info-Placed sl sl' p key at y q e))

find_at-Placed :
    (sl sl' : SkipList) (p : Ptr) (key : ℤ) (at : Ptr) (v : ℤ) (xs : List Ptr)
    → Placed sl sl' p key at
    → has p xs ≡ false
    → find_at sl' v xs ≡ find_at sl v xs
find_at-Placed sl sl' p key at v xs q h =
    find_at-same sl sl' v xs
      (λ y m. ap (λ (i : RankInfo). i.id) (info-Placed sl sl' p key at y q (ne-has p y xs h m)))
      (λ y m. q.node_infos y (ne-has p y xs h m))

insert-view :
    (sl sl' : SkipList) (p at : Ptr) (front back : List Ptr)
    → has p (front ++ back) ≡ false
    → Placed sl sl' p (sl.infos at).value at
    → view sl' (front ++ p ∷ back)
      ≡ view sl front ++ wanted (sl.infos at).value (sl.infos at) ∷ view sl back
insert-view sl sl' p at front back fresh q =
    view-append sl' front (p ∷ back)
    ∙ rw
        (
          view-Placed sl sl' p (sl.infos at).value at front q
              (ground (arith, fresh, has-append p front back)),
          view-Placed sl sl' p (sl.infos at).value at back q
              (ground (arith, fresh, has-append p front back)),
        )
        (ap (λ e. view sl front ++ e ∷ view sl back)
          (new_entry sl sl' p (sl.infos at).value at q).1)

insert-find_at :
    (sl sl' : SkipList) (p at : Ptr) (front back : List Ptr) (v : ℤ)
    → has p (front ++ back) ≡ false
    → Placed sl sl' p (sl.infos at).value at
    → find_at sl (sl.infos at).id (front ++ back) ≡ none
    → find_at sl' v (front ++ p ∷ back)
      ≡ (if eq_ℤ v (sl.infos at).id then some at else find_at sl v (front ++ back))
insert-find_at sl sl' p at front back v fresh q absent =
    let id = (sl.infos at).id in
    let (i, _) = new_entry sl sl' p (sl.infos at).value at q in
    let same_id = ap (λ (i : RankInfo). i.id) i in
    let in_front =
      find_at-Placed sl sl' p (sl.infos at).value at v front q
        (ground (arith, fresh, has-append p front back)) in
    let in_back =
      find_at-Placed sl sl' p (sl.infos at).value at v back q
        (ground (arith, fresh, has-append p front back)) in
    let absent_front : eq_ℤ v id ≡ true → find_at sl v front ≡ none = λ b.
      ap (λ z. find_at sl z front) (eq_ℤ-eq v id b)
      ∙ none_front (find_at sl id front) (find_at sl id back)
          (sym (find_at-append sl id front back) ∙ absent) in
    find_at-append sl' v front (p ∷ back)
    ∙ rw (in_front, in_back, same_id, q.new_info)
        (between (find_at sl v front) (find_at sl v back) (eq_ℤ v id) at absent_front
          ∙ ap (λ o. if eq_ℤ v id then some at else o) (sym (find_at-append sl v front back)))

keyed_after :
    (sl sl' : SkipList) (p at : Ptr) (front back : List Ptr)
    → Placed sl sl' p (sl.infos at).value at
    → ((y : Ptr) → has y (front ++ back) ≡ true → key_of sl y ≡ (info_of sl y).value)
    → (y : Ptr) → has y (front ++ p ∷ back) ≡ true
    → key_of sl' y ≡ (info_of sl' y).value
keyed_after sl sl' p at front back q h y m = elim (Bool-cases (p == y)) [
  | inl e ↦
      subst (λ z. key_of sl' z ≡ (info_of sl' z).value) (==-eq e)
        (q.new_key
          ∙ sym (ap (λ (i : RankInfo). i.value) (new_entry sl sl' p (sl.infos at).value at q).0))
  | inr e ↦
      q.keys y e
      ∙ h y (
          ground
            (arith, m, e, ==-swap y p e, has-append y front back, has-append y front (p ∷ back)))
      ∙ sym (ap (λ (i : RankInfo). i.value) (info-Placed sl sl' p (sl.infos at).value at y q e))
]

-- `insert` puts the entry at its place among the others.
pub insert-Listing :
    (fuel : ℕ) (p : Ptr) (level : ℕ) (at : Ptr) (sl : SkipList) (xs : List Ptr)
    → Listing sl xs
    → has p (sl.header ∷ xs) ≡ false
    → p ≢ null
    → 0 < level
    → level ≤ skip_list_max_level
    → suc (length xs) < word
    → length xs < fuel
    → find (sl.infos at).id (view sl xs) ≡ none
    → (sl' : SkipList) × (xs' : List Ptr) × (insert fuel p level (sl.infos at).value at sl
        ≡ some sl')
      × Listing sl' xs'
      × (view sl' xs' ≡ place (wanted (sl.infos at).value (sl.infos at)) (view sl xs))
      × ((v : ℤ)
          → find_at sl' v xs' ≡ (if eq_ℤ v (sl.infos at).id then some at else find_at sl v xs))
insert-Listing fuel p level at sl xs l fresh live low high small enough absent =
    let info = sl.infos at in
    let at_place = split sl info.value info xs l.ordered in
    let front = at_place.front in
    let back = at_place.back in
    let e = at_place.parts in
    let (sl', run, shape, q) =
      insert-Shape fuel p level info.value at sl front back (subst (Shape sl) e l.shape)
        (subst (λ v. has p (sl.header ∷ v) ≡ false) e fresh) live low high
        (subst (λ v. suc (length v) < word) e small) (subst (λ v. length v < fuel) e enough)
        at_place.all_before at_place.none_before in
    let apart = subst (λ v. has p v ≡ false) e (ground (arith, fresh)) in
    let listed = insert-view sl sl' p at front back apart q ∙ sym at_place.placed in
    (
      sl',
      front ++ p ∷ back,
      run,
      record {
        shape = shape;
        keyed = keyed_after sl sl' p at front back q (
            subst (λ v. (y : Ptr) → has y v ≡ true → key_of sl y ≡ (info_of sl y).value) e l.keyed);
        ordered =
            subst Ordered (sym listed)
              (Ordered-place (wanted info.value info) (view sl xs) absent l.ordered);
        ids =
            subst DistinctIds (sym listed)
              (DistinctIds-place (wanted info.value info) (view sl xs) absent l.ids);
      },
      listed,
      (λ v.
          insert-find_at sl sl' p at front back v apart q
            (ap (find_at sl info.id) (sym e) ∙ find_at-view sl info.id xs absent)
          ∙ ap (λ zs. if eq_ℤ v info.id then some at else find_at sl v zs) (sym e)),
    )

info-Kept : (sl sl' : SkipList) (y : Ptr) → Kept sl sl' → info_of sl' y ≡ info_of sl y
info-Kept sl sl' y q =
    ap sl'.infos (q.node_infos y) ∙ ap (λ (f : Ptr → RankInfo). f (sl.nodes y).info) q.infos

view-Kept : (sl sl' : SkipList) (xs : List Ptr) → Kept sl sl' → view sl' xs ≡ view sl xs
view-Kept sl sl' xs q = view-same sl sl' xs (λ y m.
    ap (λ k. wanted k (info_of sl' y)) (q.keys y)
    ∙ ap (wanted (key_of sl y)) (info-Kept sl sl' y q))

find_at-Kept :
    (sl sl' : SkipList) (v : ℤ) (xs : List Ptr) → Kept sl sl' → find_at sl' v xs ≡ find_at sl v xs
find_at-Kept sl sl' v xs q =
    find_at-same sl sl' v xs (λ y m. ap (λ (i : RankInfo). i.id) (info-Kept sl sl' y q))
      (λ y m. q.node_infos y)

-- Without one node, the other ids are found as before.
find_at-without :
    (sl : SkipList) (uid v : ℤ) (node : Ptr) (front back : List Ptr)
    → eq_ℤ uid (info_of sl node).id ≡ true
    → find_at sl uid (front ++ back) ≡ none
    → find_at sl v (front ++ back)
      ≡ (if eq_ℤ v uid then none else find_at sl v (front ++ node ∷ back))
find_at-without sl uid v node front back is absent = elim (Bool-cases (eq_ℤ v uid)) [
  | inl b ↦ rw b (ap (λ z. find_at sl z (front ++ back)) (eq_ℤ-eq v uid b) ∙ absent)
  | inr b ↦
      let other : eq_ℤ v (info_of sl node).id ≡ false = ground (arith, b, is) in
      rw (b, find_at-append sl v front back, find_at-append sl v front (node ∷ back), other)
]

pub member-without :
    (y p : Ptr) (xs front back : List Ptr)
    → xs ≡ front ++ p ∷ back
    → has y (front ++ back) ≡ true
    → has y xs ≡ true
member-without y p xs front back e m =
    ap (has y) e ∙ ground (arith, m, has-append y front back, has-append y front (p ∷ back))

-- The node of an id has the info at the address, and its value for a key.
pub Holder-info :
    (sl : SkipList) (uid : ℤ) (at : Ptr) (xs : List Ptr)
    → Listing sl xs
    → (it : Holder sl uid at xs)
    → (info_of sl it.node ≡ sl.infos at) × (key_of sl it.node ≡ (sl.infos at).value)
Holder-info sl uid at xs l it =
    let member : has it.node xs ≡ true =
      ap (has it.node) it.parts
      ∙ ground (arith, has-append it.node it.front (it.node ∷ it.back), has-head it.node it.back) in
    (ap sl.infos it.address, l.keyed it.node member ∙ ap (λ a. (sl.infos a).value) it.address)

remove-node :
    (fuel : ℕ) (uid : ℤ) (at : Ptr) (sl : SkipList) (xs : List Ptr)
    → Listing sl xs
    → (it : Holder sl uid at xs) → length xs < fuel
    → (sl' : SkipList) × (remove fuel (sl.infos at).value (sl.infos at) sl ≡ some (true, sl'))
      × Shape sl' (it.front ++ it.back)
      × Kept sl sl'
remove-node fuel uid at sl xs l it enough =
    let p = it.node in
    let e = it.parts in
    let sorted = subst (Sorted sl) e (Sorted-Ordered sl xs l.ordered) in
    let (t, f) = Sorted-AllAre sl p it.front it.back sorted in
    let s = subst (Shape sl) e l.shape in
    let live : p ≢ null =
      λ z. absurd (ground (arith, z, s.bones.alive, has-append null it.front (p ∷ it.back))) in
    let (i, k) = Holder-info sl uid at xs l it in
    let same =
      ap (λ z. remove fuel z (info_of sl p) sl) k
      ∙ ap (λ i. remove fuel (sl.infos at).value i sl) i in
    let (sl', run, shape, q) =
      remove-Shape fuel (key_of sl p) (info_of sl p) sl p it.front it.back s
        (subst (λ v. length v < fuel) e enough) t f (found_self sl p live) in
    (sl', sym same ∙ run, shape, q)

-- `remove` of the entry of an id takes it out and returns true.
pub remove-Listing :
    (fuel : ℕ) (uid : ℤ) (at : Ptr) (sl : SkipList) (xs : List Ptr)
    → Listing sl xs
    → (it : Holder sl uid at xs) → length xs < fuel
    → (sl' : SkipList) × (remove fuel (sl.infos at).value (sl.infos at) sl ≡ some (true, sl'))
      × Listing sl' (it.front ++ it.back)
      × (view sl' (it.front ++ it.back) ≡ drop_id uid (view sl xs))
      × ((v : ℤ)
          → find_at sl' v (it.front ++ it.back) ≡ (if eq_ℤ v uid then none else find_at sl v xs))
      × Kept sl sl'
remove-Listing fuel uid at sl xs l it enough =
    let p = it.node in
    let e = it.parts in
    let (sl', run, shape, q) = remove-node fuel uid at sl xs l it enough in
    let listed = view-Kept sl sl' (it.front ++ it.back) q ∙ sym it.dropped in
    let absent = find_at-view sl uid (it.front ++ it.back) (
      ap (find uid) (sym it.dropped)
      ∙ find-drop_id uid uid (view sl xs) l.ids
      ∙ rw (eq_ℤ_refl uid)) in
    (
      sl',
      run,
      record {
        shape = shape;
        keyed = λ y m.
            q.keys y
            ∙ l.keyed y (member-without y p xs it.front it.back e m)
            ∙ sym (ap (λ (i : RankInfo). i.value) (info-Kept sl sl' y q));
        ordered = subst Ordered (sym listed) (Ordered-drop_id uid (view sl xs) l.ordered);
        ids = subst DistinctIds (sym listed) (DistinctIds-drop_id uid (view sl xs) l.ids);
      },
      listed,
      (λ v.
          find_at-Kept sl sl' v (it.front ++ it.back) q
          ∙ find_at-without sl uid v p it.front it.back it.is absent
          ∙ ap (λ zs. if eq_ℤ v uid then none else find_at sl v zs) (sym e)),
      q,
    )
