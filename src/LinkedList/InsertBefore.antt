-- ===== src/LinkedList/InsertBefore.antt =====
-- The links that InsertBefore of list/node.go sets.
use mathlib.Core.Path.{subst}
use touch_go_core.Prelude.{
  ℕ, ◌≡◌, ◌≢◌, refl, ap, ◌∙◌, true, false, List, [], ◌∷◌, ◌++◌, arith, ◌==◌, if◌then◌else◌, inl,
  inr,
}
use touch_go_core.Prelude.Int.{pos, ◌+ℤ◌}
use touch_go_core.Prelude.Ptr.{
  Ptr, null, has, ==-swap, ==-refl, has-append, first, last_of, last_of-append, last_of_cases,
  last_of-member,
}
use touch_go_core.LinkedList.{Store, next_id, settle, link_before}
use touch_go_core.LinkedList.Chain.{Sits, Sits-cong, Seg-member, Distinct-append, ne-last}
use touch_go_core.LinkedList.Insert.{
  Inserted, made, settle-node, settle_self, settle-header, link_before-node, link_before-header,
  Around, sits, p-ne-n, n-ne-p, p-ne_null, member-ne_null, member-ne-p,
}

head_before :
    (n p : ℕ) (ys zs : List ℕ)
    → ((a : ℕ) → has a ys ≡ true → (a == null) ≡ false)
    → (if last_of null ys == null then p else first (ys ++ n ∷ zs) null) ≡ first ys p
head_before n p [] zs h = refl
head_before n p (y ∷ ys) zs h = rw (h (last_of y ys) (last_of-member y ys))

module _ (s : Store) (l n p : Ptr) (value now : ℕ) (ys zs : List Ptr)
    (h : Around s l n p ys zs) where
  open h use {is, list_ne, ne, typed, new}

  in_ys : (a : Ptr) → has a ys ≡ true → has a (ys ++ n ∷ zs) ≡ true
  in_ys a m = ground (arith, has-append a ys (n ∷ zs))

  in_ws : (a : Ptr) → has a (n ∷ zs) ≡ true → has a (ys ++ n ∷ zs) ≡ true
  in_ws a m = ground (arith, has-append a ys (n ∷ zs))

  abbrev mid_before : Store
  mid_before = settle p l (s.nodes n).pre n value now (made p n s)

  abbrev before : Store
  before = link_before l n p mid_before

  mid_before-node : (a : Ptr) → (a == p) ≡ false → mid_before.nodes a ≡ s.nodes a
  mid_before-node a e = settle-node p l _ n value now (made p n s) a e ∙ rw (==-swap p a e)

  mid_before-pre : (mid_before.nodes n).pre ≡ last_of null ys
  mid_before-pre = rw (mid_before-node n (n-ne-p h)) (sits h).pre_eq

  ys-ne-n : (a : Ptr) → has a ys ≡ true → (a == n) ≡ false
  ys-ne-n a m = ground (arith, ((Distinct-append ys (n ∷ zs)).0 is.distinct).2 a m)

  last-ne-n : (last_of null ys == n) ≡ false
  last-ne-n = elim (last_of_cases ys) [
    | inl e ↦ rw e (ground (arith, (sits h).ne_null))
    | inr m ↦ ys-ne-n _ m
  ]

  last-ne-p : (last_of null ys == p) ≡ false
  last-ne-p = elim (last_of_cases ys) [
    | inl e ↦ rw e (==-swap null p ne)
    | inr m ↦ member-ne-p h _ (in_ys _ m)
  ]

  before-node :
      (a : Ptr)
      → has a (ys ++ n ∷ zs) ≡ true
      → before.nodes a ≡ (
          if a == n
          then record (s.nodes a) { pre = p }
          else if a == last_of null ys
          then record (s.nodes a) { next = p }
          else s.nodes a)
  before-node a m =
      link_before-node l n p mid_before a (rw mid_before-pre last-ne-n) (member-ne_null h a m)
      ∙ rw (mid_before-pre, mid_before-node a (member-ne-p h a m))

  before_self : before.nodes p ≡ mid_before.nodes p
  before_self =
      link_before-node l n p mid_before p (rw mid_before-pre last-ne-n) ne
      ∙ rw ((p-ne-n h), mid_before-pre, ==-swap p _ last-ne-p)

  before-header : before.lists l ≡ record (s.lists l) {
    head = if last_of null ys == null then p else (s.lists l).head;
    len = (s.lists l).len +ℤ pos 1;
    next_id = next_id (s.lists l).next_id now;
  }
  before-header =
      link_before-header l n p mid_before l
      ∙ rw (
        ==-refl l,
        mid_before-pre,
        settle-header p l (s.nodes n).pre n value now (made p n s) l,
        ==-refl l,
      )

  pub before-Inserted : Inserted s before l p ys (n ∷ zs)
  before-Inserted = record {
    sits =
        subst (λ q. Sits before.nodes l q p n) (sits h).pre_eq
          (Sits-cong (settle_self p l (s.nodes n).pre n value now (made p n s) (p-ne_null h))
            before_self);
    front = λ a m. before-node a (in_ys a m) ∙ rw (ys-ne-n a m);
    back = λ a m.
        before-node a (in_ws a m)
        ∙ rw (ne-last a ys (n ∷ zs) is.distinct m (member-ne_null h a (in_ws a m)));
    head =
        ap (λ v. v.head) before-header
        ∙ rw is.head (head_before n p ys zs (λ a m. member-ne_null h a (in_ys a m)));
    tail = ap (λ v. v.tail) before-header ∙ is.tail ∙ last_of-append null n ys zs;
    len = ap (λ v. v.len) before-header;
  }

  -- A node outside the list is not touched.
  pub before-other :
      (a : Ptr)
      → (a == null) ≡ false
      → (a == p) ≡ false
      → (s.nodes a).list ≢ l
      → before.nodes a ≡ s.nodes a
  before-other a h1 h2 h3 =
      link_before-node l n p mid_before a (rw mid_before-pre last-ne-n) h1
      ∙ rw (not-n, mid_before-pre, not-last, mid_before-node a h2)
    where
      not-n : (a == n) ≡ false
      not-n = ground (arith, (sits h).list_eq)

      not-last : (a == last_of null ys) ≡ false
      not-last = elim (last_of_cases ys) [
        | inl e ↦ rw e h1
        | inr m ↦ ground (
          arith,
          Seg-member s.nodes l null null (last_of null ys) (ys ++ n ∷ zs) is.chain (in_ys _ m),
        )
      ]
