-- ===== src/Ranking/Lookup.antt =====
-- rank and search of ranking/ranking.go on a list that is linked and sorted.
use touch_go_core.Prelude.{
  ℕ, zero, suc, ◌<◌, List, [], ◌∷◌, ◌++◌, some, if◌then◌else◌, true, false, length, ◌≡◌, ◌≢◌, refl,
  sym, ap, ◌∙◌, arith, inl, inr, ◌⊎◌,
}
use touch_go_core.Prelude.Int.{ℤ}
use touch_go_core.Prelude.Ptr.{Ptr, null, first}
use touch_go_core.Ranking.{
  SkipList, RankInfo, goes_before, older, found, candidate, search, rank_of, word, descend,
}
use touch_go_core.Ranking.Walk.{LinksTo, AllLinked, AllAre, Prefix, Stopped, next_at, tall, before}
use touch_go_core.Ranking.Descent.{descend-stops, AllStopped}

-- The nodes of the skip list, in order.
pub record Linked (sl : SkipList) (xs : List Ptr) : Type 0 where
  pub some_level : 0 < sl.level
  pub from_header : LinksTo sl sl.level sl.header xs
  pub nodes_linked : AllLinked sl xs
  pub size : length xs < word

-- The nodes `ys` stand before the place, the nodes `zs` do not.
pub Prefix-parts :
    (sl : SkipList) (key : ℤ) (info : RankInfo) (ys zs : List Ptr)
    → AllAre sl key info true ys
    → AllAre sl key info false zs
    → Prefix sl key info (ys ++ zs)
Prefix-parts sl key info [] [] h k = tt
Prefix-parts sl key info [] (z ∷ zs) h k = (λ _. k.1, Prefix-parts sl key info [] zs tt k.1)
Prefix-parts sl key info (y ∷ ys) zs h k =
    (λ e. absurd (ground (arith, h.0)), Prefix-parts sl key info ys zs h.1 k)

pub first_at : (sl : SkipList) (xs : List Ptr) → AllLinked sl xs → next_at sl 0 xs ≡ first xs null
first_at sl [] h = refl
first_at sl (y ∷ ys) h = let t : tall sl 0 y ≡ true = ground (arith, h.1) in rw t

module _ (sl : SkipList) (key : ℤ) (info : RankInfo) where
  -- How many nodes stand before the place, and the nodes that do not.
  leading : List Ptr → ℕ
  leading [] = 0
  leading (y ∷ ys) = if before sl key info y then suc (leading ys) else 0

  behind : List Ptr → List Ptr
  behind [] = []
  behind (y ∷ ys) = if before sl key info y then behind ys else y ∷ ys

  abbrev EndsAt : List Ptr → Type 0
  EndsAt [] = Unit {0}
  EndsAt (f ∷ more) = before sl key info f ≡ false

  parts_of :
      (ys zs : List Ptr)
      → AllAre sl key info true ys
      → EndsAt zs
      → (leading (ys ++ zs) ≡ length ys) × (behind (ys ++ zs) ≡ zs)
  unfolding leading behind
  parts_of [] [] h k = (refl, refl)
  parts_of [] (z ∷ zs) h k = (rw k, rw k)
  parts_of (y ∷ ys) zs h k = let (l, b) = parts_of ys zs h.1 k in (rw (h.0, l), rw (h.0, b))

  AllAre-EndsAt : (zs : List Ptr) → AllAre sl key info false zs → EndsAt zs
  AllAre-EndsAt [] h = tt
  AllAre-EndsAt (z ∷ zs) h = h.0

  ended-EndsAt :
      (left : List Ptr)
      → AllLinked sl left
      → (next_at sl 0 left ≡ null) ⊎ (before sl key info (next_at sl 0 left) ≡ false)
      → EndsAt left
  ended-EndsAt [] all w = tt
  ended-EndsAt (f ∷ more) all (inl n) = absurd (all.0 (sym (first_at sl (f ∷ more) all) ∙ n))
  ended-EndsAt (f ∷ more) all (inr b) =
      sym (ap (before sl key info) (first_at sl (f ∷ more) all)) ∙ b

  lowest_of :
      (rest : List Ptr) (n : ℕ) (trace : List (Ptr × ℕ))
      → length trace ≡ suc n
      → AllStopped sl key info sl.header rest 0 0 trace
      → (low : Ptr × ℕ) × (more : List (Ptr × ℕ)) × (trace ≡ low ∷ more)
        × Stopped sl key info 0 sl.header rest 0 low
  lowest_of rest n [] count all = absurd (ground (arith, count))
  lowest_of rest n (low ∷ more) count all = (low, more, refl, all.0)

  -- The search for a place between `ys` and `zs` ends there.
  candidate-place :
      (fuel : ℕ) (ys zs : List Ptr)
      → Linked sl (ys ++ zs)
      → length (ys ++ zs) < fuel
      → AllAre sl key info true ys
      → AllAre sl key info false zs
      → candidate fuel sl key info ≡ some (first zs null, length ys)
  unfolding candidate
  candidate-place fuel ys zs lk enough h k =
      let (low, more, run, out) = at_levels sl.level lk.some_level lk.from_header in
      let e =
        parts_of out.passed out.left out.all_before (ended-EndsAt out.left out.linked out.ended) in
      let e' = parts_of ys zs h (AllAre-EndsAt zs k) in
      let left_zs : out.left ≡ zs = sym e.1 ∙ ap behind (sym out.parts) ∙ e'.1 in
      let passed_ys : length out.passed ≡ length ys = sym e.0 ∙ ap leading (sym out.parts) ∙ e'.0 in
      let next : next_at sl 0 out.left ≡ first zs null =
        first_at sl out.left out.linked ∙ ap (λ v. first v null) left_zs in
      rw (run, out.links 0 (omega arith), next, out.counted, passed_ys)
        (ap some (ap (λ n. (first zs null, n)) (omega arith)))
    where
      at_levels :
          (n : ℕ)
          → 0 < n
          → LinksTo sl n sl.header (ys ++ zs)
          → (low : Ptr × ℕ) × (more : List (Ptr × ℕ)) × (descend fuel n sl key info sl.header 0
              ≡ some (low ∷ more))
            × Stopped sl key info 0 sl.header (ys ++ zs) 0 low
      at_levels zero some_level links = absurd (omega arith)
      at_levels (suc n) some_level links =
          let (trace, run, count, all) =
            descend-stops sl key info fuel (suc n) sl.header (ys ++ zs) 0 enough
              (omega (arith, lk.size)) links lk.nodes_linked (Prefix-parts sl key info ys zs h k) in
          let (low, more, e, out) = lowest_of (ys ++ zs) n trace count all in
          (low, more, run ∙ ap some e, out)

-- The key and the info of a node.
abbrev pub key_of : SkipList → Ptr → ℤ
key_of sl p = (sl.nodes p).key

abbrev pub info_of : SkipList → Ptr → RankInfo
info_of sl p = sl.infos (sl.nodes p).info

-- The node `y` ranks before the node `z`.
abbrev pub RanksBefore : SkipList → Ptr → Ptr → Type 0
RanksBefore sl y z = goes_before sl y (key_of sl z) (info_of sl z) ≡ true

abbrev pub BeforeAll : SkipList → Ptr → List Ptr → Type 0
BeforeAll sl y [] = Unit {0}
BeforeAll sl y (z ∷ zs) = RanksBefore sl y z × BeforeAll sl y zs

-- By key downwards, then by time, then by id, with no two equal.
abbrev pub Sorted : SkipList → List Ptr → Type 0
Sorted sl [] = Unit {0}
Sorted sl (y ∷ ys) = BeforeAll sl y ys × Sorted sl ys

goes_before_self : (sl : SkipList) (p : Ptr) → goes_before sl p (key_of sl p) (info_of sl p) ≡ false
unfolding goes_before older
goes_before_self sl p = ground arith

goes_before_swap :
    (sl : SkipList) (y z : Ptr)
    → RanksBefore sl y z
    → goes_before sl z (key_of sl y) (info_of sl y) ≡ false
unfolding goes_before older
goes_before_swap sl y z h = ground arith

BeforeAll-last :
    (sl : SkipList) (y p : Ptr) (ys zs : List Ptr)
    → BeforeAll sl y (ys ++ p ∷ zs)
    → RanksBefore sl y p
BeforeAll-last sl y p [] zs h = h.0
BeforeAll-last sl y p (x ∷ ys) zs h = BeforeAll-last sl y p ys zs h.1

after_all :
    (sl : SkipList) (p : Ptr) (zs : List Ptr)
    → BeforeAll sl p zs
    → AllAre sl (key_of sl p) (info_of sl p) false zs
after_all sl p [] h = tt
after_all sl p (z ∷ zs) h = (goes_before_swap sl p z h.0, after_all sl p zs h.1)

pub Sorted-AllAre :
    (sl : SkipList) (p : Ptr) (ys zs : List Ptr)
    → Sorted sl (ys ++ p ∷ zs)
    → AllAre sl (key_of sl p) (info_of sl p) true ys
      × AllAre sl (key_of sl p) (info_of sl p) false (p ∷ zs)
Sorted-AllAre sl p [] zs h = (tt, (goes_before_self sl p, after_all sl p zs h.0))
Sorted-AllAre sl p (y ∷ ys) zs h =
    let (t, f) = Sorted-AllAre sl p ys zs h.1 in ((BeforeAll-last sl y p ys zs h.0, t), f)

pub found_self :
    (sl : SkipList) (p : Ptr) → p ≢ null → found sl p (key_of sl p) (info_of sl p) ≡ true
unfolding found
found_self sl p ne = ground arith

pub node_ne_null :
    (sl : SkipList) (p : Ptr) (ys zs : List Ptr) → AllLinked sl (ys ++ p ∷ zs) → p ≢ null
node_ne_null sl p [] zs h = h.0
node_ne_null sl p (y ∷ ys) zs h = node_ne_null sl p ys zs h.3

-- In a linked and sorted skip list with fewer than 2 ^ 32 nodes, the search for the key and the info
-- of a node finds it, and its rank is the number of the nodes in front of it, on fuel for one step
-- more than there are nodes.
pub rank_of-position :
    (fuel : ℕ) (sl : SkipList) (p : Ptr) (ys zs : List Ptr)
    → Linked sl (ys ++ p ∷ zs)
    → Sorted sl (ys ++ p ∷ zs)
    → length (ys ++ p ∷ zs) < fuel
    → (search fuel sl (key_of sl p) (info_of sl p) ≡ some true)
      × (rank_of fuel sl (key_of sl p) (info_of sl p) ≡ some (length ys))
unfolding search rank_of
rank_of-position fuel sl p ys zs lk sorted enough =
    let (t, f) = Sorted-AllAre sl p ys zs sorted in
    let there = candidate-place sl (key_of sl p) (info_of sl p) fuel ys (p ∷ zs) lk enough t f in
    let is = found_self sl p (node_ne_null sl p ys zs lk.nodes_linked) in
    (rw (there, is), rw (there, is))

-- No node of the list has the key, the time and the id.
abbrev pub Lacks : SkipList → ℤ → RankInfo → List Ptr → Type 0
Lacks sl key info [] = Unit {0}
Lacks sl key info (y ∷ ys) =
    (¬ (
      (key_of sl y ≡ key)
      × ((info_of sl y).timestamp ≡ info.timestamp)
      × ((info_of sl y).id ≡ info.id)))
    × Lacks sl key info ys
