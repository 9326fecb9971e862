-- ===== src/Ranking/Tree/View.antt =====
-- What the nodes of the skip list of ranking/ranking.go list: the entries, and the addresses of their
-- infos.
use touch_go_core.Prelude.{
  suc, List, [], ◌∷◌, ◌++◌, Option, none, some, if◌then◌else◌, Bool, true, false, ◌≡◌, refl, ap,
  ◌∙◌, arith, Bool-cases, inl, inr, length,
}
use touch_go_core.Prelude.Int.{ℤ, eq_ℤ}
use touch_go_core.Prelude.Ptr.{Ptr, has}
use touch_go_core.Ranking.{SkipList, RankInfo, goes_before, older}
use touch_go_core.Ranking.Walk.{AllAre}
use touch_go_core.Ranking.Levels.{has-head, has-tail}
use touch_go_core.Ranking.Lookup.{key_of, info_of, BeforeAll, Sorted}
use touch_go_core.Ranking.Tree.Entries.{
  Entry, entry_before, FirstOf, Ordered, place, find, drop_id, position, before_trans,
}

abbrev pub wanted : ℤ → RankInfo → Entry
wanted key info = record { id = info.id; value = key; timestamp = info.timestamp }

abbrev pub entry_of : SkipList → Ptr → Entry
entry_of sl y = wanted (key_of sl y) (info_of sl y)

abbrev pub view : SkipList → List Ptr → List Entry
view sl [] = []
view sl (y ∷ ys) = entry_of sl y ∷ view sl ys

-- The address of the info of an id.
abbrev pub find_at : SkipList → ℤ → List Ptr → Option Ptr
find_at sl uid [] = none
find_at sl uid (y ∷ ys) =
    if eq_ℤ uid (info_of sl y).id then some (sl.nodes y).info else find_at sl uid ys

abbrev pub or_else : Option Ptr → Option Ptr → Option Ptr
or_else none o = o
or_else (some at) o = some at

-- The order of the code is the one of the entries.
pub goes_before-entry_before :
    (sl : SkipList) (y : Ptr) (key : ℤ) (info : RankInfo)
    → goes_before sl y key info ≡ entry_before (entry_of sl y) (wanted key info)
unfolding goes_before older
goes_before-entry_before sl y key info = ground arith

pub view-append : (sl : SkipList) (xs ys : List Ptr) → view sl (xs ++ ys) ≡ view sl xs ++ view sl ys
view-append sl [] ys = refl
view-append sl (x ∷ xs) ys = ap (λ v. entry_of sl x ∷ v) (view-append sl xs ys)

pub view-same :
    (sl sl' : SkipList) (xs : List Ptr)
    → ((y : Ptr) → has y xs ≡ true → entry_of sl' y ≡ entry_of sl y)
    → view sl' xs ≡ view sl xs
view-same sl sl' [] h = refl
view-same sl sl' (x ∷ xs) h =
    let e = h x (has-head x xs) in
    let es = view-same sl sl' xs (λ y m. h y (has-tail y x xs m)) in
    ap (λ v. v ∷ view sl' xs) e ∙ ap (λ v. entry_of sl x ∷ v) es

pub find_at-same :
    (sl sl' : SkipList) (uid : ℤ) (xs : List Ptr)
    → ((y : Ptr) → has y xs ≡ true → (info_of sl' y).id ≡ (info_of sl y).id)
    → ((y : Ptr) → has y xs ≡ true → (sl'.nodes y).info ≡ (sl.nodes y).info)
    → find_at sl' uid xs ≡ find_at sl uid xs
find_at-same sl sl' uid [] h k = refl
find_at-same sl sl' uid (x ∷ xs) h k = rw (
  h x (has-head x xs),
  k x (has-head x xs),
  find_at-same sl sl' uid xs (λ y m. h y (has-tail y x xs m)) (λ y m. k y (has-tail y x xs m)),
)

pub find_at-append :
    (sl : SkipList) (uid : ℤ) (xs ys : List Ptr)
    → find_at sl uid (xs ++ ys) ≡ or_else (find_at sl uid xs) (find_at sl uid ys)
find_at-append sl uid [] ys = refl
find_at-append sl uid (x ∷ xs) ys = elim (Bool-cases (eq_ℤ uid (info_of sl x).id)) [
  | inl e ↦ rw e
  | inr e ↦ rw e (find_at-append sl uid xs ys)
]

pub find-view :
    (sl : SkipList) (uid : ℤ) (xs : List Ptr)
    → find_at sl uid xs ≡ none
    → find uid (view sl xs) ≡ none
find-view sl uid [] h = refl
find-view sl uid (x ∷ xs) h = elim (Bool-cases (eq_ℤ uid (info_of sl x).id)) [
  | inl e ↦ absurd (ground (arith, e, h))
  | inr e ↦ rw e (find-view sl uid xs (ground (arith, e, h)))
]

pub find_at-view :
    (sl : SkipList) (uid : ℤ) (xs : List Ptr)
    → find uid (view sl xs) ≡ none
    → find_at sl uid xs ≡ none
find_at-view sl uid [] h = refl
find_at-view sl uid (x ∷ xs) h = elim (Bool-cases (eq_ℤ uid (info_of sl x).id)) [
  | inl e ↦ absurd (ground (arith, e, h))
  | inr e ↦ rw e (find_at-view sl uid xs (ground (arith, e, h)))
]

-- The node of an id.
pub record Holder (sl : SkipList) (uid : ℤ) (at : Ptr) (xs : List Ptr) : Type 0 where
  pub front : List Ptr
  pub node : Ptr
  pub back : List Ptr
  pub parts : xs ≡ front ++ node ∷ back
  pub address : (sl.nodes node).info ≡ at
  pub is : eq_ℤ uid (info_of sl node).id ≡ true
  pub first : find_at sl uid front ≡ none
  pub entry : find uid (view sl xs) ≡ some (entry_of sl node)
  pub dropped : drop_id uid (view sl xs) ≡ view sl (front ++ back)
  pub counted : position uid (view sl xs) ≡ length front

pub find_at-Holder :
    (sl : SkipList) (uid : ℤ) (at : Ptr) (xs : List Ptr)
    → find_at sl uid xs ≡ some at
    → Holder sl uid at xs
find_at-Holder sl uid at [] h = absurd (ground (arith, h))
find_at-Holder sl uid at (x ∷ xs) h = elim (Bool-cases (eq_ℤ uid (info_of sl x).id)) [
  | inl e ↦ record {
    front = [];
    node = x;
    back = xs;
    parts = refl;
    address = ground (arith, e, h);
    is = e;
    first = refl;
    entry = rw e;
    dropped = rw e;
    counted = rw e;
  }
  | inr e ↦
      let it = find_at-Holder sl uid at xs (ground (arith, e, h)) in
      record {
        front = x ∷ it.front;
        node = it.node;
        back = it.back;
        parts = ap (λ v. x ∷ v) it.parts;
        address = it.address;
        is = it.is;
        first = rw e it.first;
        entry = rw e it.entry;
        dropped = rw e (ap (λ v. entry_of sl x ∷ v) it.dropped);
        counted = rw e (ap suc it.counted);
      }
]

-- The place of a new entry among the nodes.
pub record Split (sl : SkipList) (key : ℤ) (info : RankInfo) (xs : List Ptr) : Type 0 where
  pub front : List Ptr
  pub back : List Ptr
  pub parts : xs ≡ front ++ back
  pub all_before : AllAre sl key info true front
  pub none_before : AllAre sl key info false back
  pub placed :
      place (wanted key info) (view sl xs) ≡ view sl front ++ wanted key info ∷ view sl back

after_all :
    (sl : SkipList) (key : ℤ) (info : RankInfo) (x : Ptr) (xs : List Ptr)
    → entry_before (entry_of sl x) (wanted key info) ≡ false
    → FirstOf (entry_of sl x) (view sl xs)
    → AllAre sl key info false xs
after_all sl key info x [] h k = tt
after_all sl key info x (y ∷ ys) h k = (
  goes_before-entry_before sl y key info
      ∙ not_before (entry_before (entry_of sl y) (wanted key info))
          (before_trans (entry_of sl x) (entry_of sl y) (wanted key info) k.0),
  after_all sl key info x ys h k.1,
)
  where
    not_before :
        (b : Bool) → (b ≡ true → entry_before (entry_of sl x) (wanted key info) ≡ true) → b ≡ false
    not_before true f = absurd (ground (arith, f refl, h))
    not_before false f = refl

pub split :
    (sl : SkipList) (key : ℤ) (info : RankInfo) (xs : List Ptr)
    → Ordered (view sl xs)
    → Split sl key info xs
split sl key info [] o = record {
  front = [];
  back = [];
  parts = refl;
  all_before = tt;
  none_before = tt;
  placed = refl;
}
split sl key info (x ∷ xs) o =
    let same = goes_before-entry_before sl x key info in
    elim (Bool-cases (entry_before (entry_of sl x) (wanted key info))) [
      | inl b ↦
          let it = split sl key info xs o.1 in
          record {
            front = x ∷ it.front;
            back = it.back;
            parts = ap (λ v. x ∷ v) it.parts;
            all_before = (same ∙ b, it.all_before);
            none_before = it.none_before;
            placed = rw b (ap (λ v. entry_of sl x ∷ v) it.placed);
          }
      | inr b ↦ record {
        front = [];
        back = x ∷ xs;
        parts = refl;
        all_before = tt;
        none_before = (same ∙ b, after_all sl key info x xs b o.0);
        placed = rw b;
      }
    ]

BeforeAll-FirstOf :
    (sl : SkipList) (y : Ptr) (ys : List Ptr)
    → FirstOf (entry_of sl y) (view sl ys)
    → BeforeAll sl y ys
BeforeAll-FirstOf sl y [] h = tt
BeforeAll-FirstOf sl y (z ∷ zs) h = (
  goes_before-entry_before sl y (key_of sl z) (info_of sl z) ∙ h.0,
  BeforeAll-FirstOf sl y zs h.1,
)

pub Sorted-Ordered : (sl : SkipList) (xs : List Ptr) → Ordered (view sl xs) → Sorted sl xs
Sorted-Ordered sl [] o = tt
Sorted-Ordered sl (x ∷ xs) o = (BeforeAll-FirstOf sl x xs o.0, Sorted-Ordered sl xs o.1)
