-- ===== src/LinkedList/InsertAfter.antt =====
-- The links that InsertAfter of list/node.go sets.
use mathlib.Core.Path.{subst}
use mathlib.Core.List.{append_assoc}
use touch_go_core.Prelude.{
  ℕ, ◌≡◌, ◌≢◌, refl, sym, ap, ◌∙◌, true, false, List, [], ◌∷◌, ◌++◌, arith, ◌==◌, if◌then◌else◌,
  inl, inr,
}
use touch_go_core.Prelude.Int.{pos, ◌+ℤ◌}
use touch_go_core.Prelude.Ptr.{
  Ptr, null, has, has-eq, ==-swap, ==-refl, has-append, Distinct, first, last_of, last_of-append,
  first-append, first_cases,
}
use touch_go_core.LinkedList.{Store, next_id, settle, link_after}
use touch_go_core.LinkedList.Chain.{Sits, Sits-cong, Seg-member, Distinct-append, ne-first, ne-last}
use touch_go_core.LinkedList.Insert.{
  Inserted, made, settle-node, settle_self, settle-header, link_after-node, link_after-header,
  Around, sits, p-ne-n, n-ne-p, p-ne_null, member-ne_null, member-ne-p,
}

tail_after :
    (n p : ℕ) (zs : List ℕ)
    → ((a : ℕ) → has a zs ≡ true → (a == null) ≡ false)
    → (if first zs null == null then p else last_of n zs) ≡ last_of p zs
tail_after n p [] h = refl
tail_after n p (z ∷ zs) h = rw (h z (ground arith))

module _ (s : Store) (l n p : Ptr) (value now : ℕ) (ys zs : List Ptr)
    (h : Around s l n p ys zs) where
  open h use {is, list_ne, ne, typed, new}

  around : (ys ++ n ∷ []) ++ zs ≡ ys ++ n ∷ zs
  around = append_assoc ys (n ∷ []) zs

  cut-Distinct : Distinct ((ys ++ n ∷ []) ++ zs)
  cut-Distinct = rw around is.distinct

  in_us : (a : Ptr) → has a (ys ++ n ∷ []) ≡ true → has a (ys ++ n ∷ zs) ≡ true
  in_us a m = ground (arith, has-append a ys (n ∷ []), has-append a ys (n ∷ zs))

  in_zs : (a : Ptr) → has a zs ≡ true → has a (ys ++ n ∷ zs) ≡ true
  in_zs a m = ground (arith, has-append a ys (n ∷ zs))

  abbrev mid_after : Store
  mid_after = settle p l n (s.nodes n).next value now (made p n s)

  abbrev after : Store
  after = link_after l n p mid_after

  mid_after-node : (a : Ptr) → (a == p) ≡ false → mid_after.nodes a ≡ s.nodes a
  mid_after-node a e = settle-node p l n _ value now (made p n s) a e ∙ rw (==-swap p a e)

  mid_after-next : (mid_after.nodes n).next ≡ first zs null
  mid_after-next = rw (mid_after-node n (n-ne-p h)) (sits h).next_eq

  first-ne-n : (first zs null == n) ≡ false
  first-ne-n = elim (first_cases zs) [
    | inl e ↦ rw e (ground (arith, (sits h).ne_null))
    | inr m ↦ ==-swap _ n (has-eq n _ zs ((Distinct-append ys (n ∷ zs)).0 is.distinct).1.0 m)
  ]

  first-ne-p : (first zs null == p) ≡ false
  first-ne-p = elim (first_cases zs) [
    | inl e ↦ rw e (==-swap null p ne)
    | inr m ↦ member-ne-p h _ (ground (arith, has-append (first zs null) ys (n ∷ zs)))
  ]

  after-node :
      (a : Ptr)
      → has a (ys ++ n ∷ zs) ≡ true
      → after.nodes a ≡ (
          if a == n
          then record (s.nodes a) { next = p }
          else if a == first zs null
          then record (s.nodes a) { pre = p }
          else s.nodes a)
  after-node a m =
      link_after-node l n p mid_after a (rw mid_after-next first-ne-n) (member-ne_null h a m)
      ∙ rw (mid_after-next, mid_after-node a (member-ne-p h a m))

  after_self : after.nodes p ≡ mid_after.nodes p
  after_self =
      link_after-node l n p mid_after p (rw mid_after-next first-ne-n) ne
      ∙ rw ((p-ne-n h), mid_after-next, ==-swap p _ first-ne-p)

  after-header : after.lists l ≡ record (s.lists l) {
    tail = if first zs null == null then p else (s.lists l).tail;
    len = (s.lists l).len +ℤ pos 1;
    next_id = next_id (s.lists l).next_id now;
  }
  after-header =
      link_after-header l n p mid_after l
      ∙ rw (
        ==-refl l,
        mid_after-next,
        settle-header p l n (s.nodes n).next value now (made p n s) l,
        ==-refl l,
      )

  pub after-Inserted : Inserted s after l p (ys ++ n ∷ []) zs
  after-Inserted = record {
    sits = rw (last_of-append null n ys []) (
        subst (λ q. Sits after.nodes l n p q) (sits h).next_eq
          (Sits-cong (settle_self p l n (s.nodes n).next value now (made p n s) (p-ne_null h))
            after_self));
    front = λ a m.
        after-node a (in_us a m)
        ∙ rw (
          last_of-append null n ys [],
          ne-first a (ys ++ n ∷ []) zs cut-Distinct m (member-ne_null h a (in_us a m)),
        );
    back = λ a m.
        after-node a (in_zs a m)
        ∙ rw (
            rw (last_of-append null n ys []) at
              (ne-last a (ys ++ n ∷ []) zs cut-Distinct m (member-ne_null h a (in_zs a m))));
    head =
        ap (λ v. v.head) after-header
        ∙ is.head
        ∙ first-append null n ys zs
        ∙ sym (first-append p n ys []);
    tail =
        ap (λ v. v.tail) after-header
        ∙ rw (is.tail, last_of-append) (tail_after n p zs (λ a m. member-ne_null h a (in_zs a m)));
    len = ap (λ v. v.len) after-header;
  }

  -- A node outside the list is not touched.
  pub after-other :
      (a : Ptr)
      → (a == null) ≡ false
      → (a == p) ≡ false
      → (s.nodes a).list ≢ l
      → after.nodes a ≡ s.nodes a
  after-other a h1 h2 h3 =
      link_after-node l n p mid_after a (rw mid_after-next first-ne-n) h1
      ∙ rw (not-n, mid_after-next, not-first, mid_after-node a h2)
    where
      not-n : (a == n) ≡ false
      not-n = ground (arith, (sits h).list_eq)

      not-first : (a == first zs null) ≡ false
      not-first = elim (first_cases zs) [
        | inl e ↦ rw e h1
        | inr m ↦ ground (
          arith,
          Seg-member s.nodes l null null (first zs null) (ys ++ n ∷ zs) is.chain (in_zs _ m),
        )
      ]
