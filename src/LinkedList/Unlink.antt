-- ===== src/LinkedList/Unlink.antt =====
-- removeNodeLocked of list/list.go: the list loses exactly the node.
use touch_go_core.Prelude.{
  ◌≡◌, ◌≢◌, sym, ap, ◌∙◌, true, false, List, ◌∷◌, ◌++◌, arith, ◌==◌, if◌then◌else◌, inl, inr,
  length-append,
}
use mathlib.Core.Path.{subst}
use touch_go_core.Prelude.Int.{pos, ◌-ℤ◌}
use touch_go_core.Prelude.Ptr.{
  Ptr, null, has, has-eq, Distinct, first, last_of, last_of_cases, first_cases, first_without,
  last_without,
}
use touch_go_core.LinkedList.{Store, remove_node_locked}
use touch_go_core.LinkedList.Chain.{
  Sits, Seg, Seg-split, Seg-join, Seg-member, Seg-set_next, Seg-set_pre, IsList, Distinct-append,
}

-- The nodes after the removal of a node that sits in the list `l`.
module _ (s : Store) (l n : Ptr) {pre next : Ptr} (sits : Sits s.nodes l pre n next) (a : Ptr) where
  remove-nodes :
      pre ≢ n
      → next ≢ n
      → a ≢ n
      → (pre ≡ next → pre ≡ null)
      → a ≢ null
      → (remove_node_locked l n s).nodes a ≡ (
          if a == pre
          then record (s.nodes a) { next = next }
          else if a == next
          then record (s.nodes a) { pre = pre }
          else s.nodes a)
  unfolding remove_node_locked
  remove-nodes h1 h2 h3 h4 h5 = ground (arith, sits.pre_eq, sits.next_eq, sits.list_eq)

-- The header after it.
remove-header :
    (s : Store) (l n : Ptr) {pre next : Ptr}
    → Sits s.nodes l pre n next
    → pre ≢ n
    → (remove_node_locked l n s).lists l ≡ record (s.lists l) {
      head = if pre == null then next else (s.lists l).head;
      tail = if next == null then pre else (s.lists l).tail;
      len = (s.lists l).len -ℤ pos 1;
    }
unfolding remove_node_locked
remove-header s l n sits h = ground (arith, sits.pre_eq, sits.next_eq, sits.list_eq)

module _ (s : Store) (l n : Ptr) (ys zs : List Ptr) (is : IsList s l (ys ++ n ∷ zs)) where
  halves : Seg s.nodes l null ys n × Seg s.nodes l (last_of null ys) (n ∷ zs) null
  halves = Seg-split s.nodes l null ys n zs null is.chain

  sits : Sits s.nodes l (last_of null ys) n (first zs null)
  sits = halves.1.0

  apart :
      Distinct ys
      × ((has n zs ≡ false) × Distinct zs)
      × ((a : Ptr) → has a ys ≡ true → has a (n ∷ zs) ≡ false)
  apart = (Distinct-append ys (n ∷ zs)).0 is.distinct

  in_front : (a : Ptr) → has a ys ≡ true → (a ≢ null) × ((s.nodes a).list ≡ l)
  in_front a m = Seg-member s.nodes l null n a ys halves.0 m

  behind : (a : Ptr) → has a zs ≡ true → (a ≢ null) × ((s.nodes a).list ≡ l)
  behind a m = Seg-member s.nodes l n null a zs halves.1.1 m

  n-ne_null : n ≢ null
  n-ne_null = sits.ne_null

  front_ne : (a : Ptr) → has a ys ≡ true → (a ≢ n) × (has a zs ≡ false)
  front_ne a m = ground (arith, apart.2 a m)

  pre-ne : last_of null ys ≢ n
  pre-ne = elim (last_of_cases ys) [
    | inl e ↦ rw e (λ h. n-ne_null (sym h))
    | inr m ↦ (front_ne _ m).0
  ]

  behind_ne : (a : Ptr) → has a zs ≡ true → a ≢ n
  behind_ne a m = ground (arith, has-eq n a zs apart.1.0 m)

  next-ne : first zs null ≢ n
  next-ne = elim (first_cases zs) [ inl e ↦ rw e (λ h. n-ne_null (sym h)) | inr m ↦ behind_ne _ m ]

  ends : last_of null ys ≡ first zs null → last_of null ys ≡ null
  ends e = elim (last_of_cases ys) [
    | inl h ↦ h
    | inr m ↦ elim (first_cases zs) [ inl h ↦ e ∙ h | inr k ↦ cc ((front_ne _ m).1) ]
  ]

  node_after :
      (a : Ptr)
      → a ≢ n
      → a ≢ null
      → (remove_node_locked l n s).nodes a ≡ (
          if a == last_of null ys
          then record (s.nodes a) { next = first zs null }
          else if a == first zs null
          then record (s.nodes a) { pre = last_of null ys }
          else s.nodes a)
  node_after a h k = remove-nodes s l n sits a pre-ne next-ne h ends k

  front-ne-first : (a : Ptr) → has a ys ≡ true → (a == first zs null) ≡ false
  front-ne-first a m = elim (first_cases zs) [
    | inl e ↦ rw e (ground (arith, in_front a m))
    | inr k ↦ has-eq a _ zs (front_ne a m).1 k
  ]

  behind-ne-last : (a : Ptr) → has a zs ≡ true → (a == last_of null ys) ≡ false
  behind-ne-last a m = elim (last_of_cases ys) [
    | inl e ↦ rw e (ground (arith, behind a m))
    | inr k ↦ ground (arith, has-eq _ a zs (front_ne _ k).1 m)
  ]

  front-chain : Seg (remove_node_locked l n s).nodes l null ys (first zs null)
  front-chain =
      Seg-set_next s.nodes l _ null n (first zs null) ys apart.0 halves.0
        λ a m. node_after a (front_ne a m).0 (in_front a m).0 ∙ rw (front-ne-first a m)

  back-chain : Seg (remove_node_locked l n s).nodes l (last_of null ys) zs null
  back-chain =
      Seg-set_pre s.nodes l _ n (last_of null ys) null zs apart.1.1 halves.1.1
        λ a m. node_after a (behind_ne a m) (behind a m).0 ∙ rw (behind-ne-last a m)

  Distinct-after : Distinct (ys ++ zs)
  Distinct-after = (Distinct-append ys zs).1 (apart.0, apart.1.1, λ a m. (front_ne a m).1)

  -- A node of another list is not touched.
  pub unlinked-other :
      (a : Ptr) → a ≢ null → (s.nodes a).list ≢ l → (remove_node_locked l n s).nodes a ≡ s.nodes a
  unlinked-other a h k =
      node_after a (λ e. k (subst (λ x. (s.nodes x).list ≡ l) (sym e) sits.list_eq)) h
      ∙ rw (other-last, other-first)
    where
      other-last : (a == last_of null ys) ≡ false
      other-last = elim (last_of_cases ys) [
        | inl e ↦ rw e (ground arith)
        | inr m ↦ ground (arith, in_front _ m)
      ]

      other-first : (a == first zs null) ≡ false
      other-first = elim (first_cases zs) [
        | inl e ↦ rw e (ground arith)
        | inr m ↦ ground (arith, behind _ m)
      ]

  ys-ne_null : (a : Ptr) → has a ys ≡ true → (a == null) ≡ false
  ys-ne_null a m = ground (arith, in_front a m)

  zs-ne_null : (a : Ptr) → has a zs ≡ true → (a == null) ≡ false
  zs-ne_null a m = ground (arith, behind a m)

  -- The list loses the node and keeps the others in order.
  pub unlinked-IsList : IsList (remove_node_locked l n s) l (ys ++ zs)
  unfolding ◌-ℤ◌
  unlinked-IsList =
      let header = remove-header s l n sits pre-ne in
      record {
        chain = Seg-join _ l null ys zs null front-chain back-chain;
        distinct = Distinct-after;
        head = ap (λ h. h.head) header ∙ rw is.head (first_without n ys zs ys-ne_null);
        tail = ap (λ h. h.tail) header ∙ rw is.tail (last_without n ys zs zs-ne_null);
        len =
            ap (λ h. h.len) header
            ∙ rw is.len (ground (arith, length-append ys zs, length-append ys (n ∷ zs)));
      }

-- What the removal leaves alone: the other headers, and the list of every other node.
pub remove_node_locked-lists :
    (s : Store) (l n k : Ptr) → (k == l) ≡ false → (remove_node_locked l n s).lists k ≡ s.lists k
unfolding remove_node_locked
remove_node_locked-lists s l n k h = ground arith

pub remove_node_locked-list :
    (s : Store) (l n a : Ptr)
    → (s.nodes n).list ≡ l
    → ((remove_node_locked l n s).nodes a).list ≡ (if a == n then null else (s.nodes a).list)
unfolding remove_node_locked
remove_node_locked-list s l n a h = ground arith

-- A node of another list is left as it is.
pub remove_node_locked-other :
    (s : Store) (l n : Ptr) → ((s.nodes n).list == l) ≡ false → remove_node_locked l n s ≡ s
unfolding remove_node_locked
remove_node_locked-other s l n h = rw h

pub remove_node_locked-dellock :
    (s : Store) (l n : Ptr) → ((remove_node_locked l n s).lists l).dellock ≡ (s.lists l).dellock
unfolding remove_node_locked
remove_node_locked-dellock s l n = ground arith
