-- ===== src/LinkedList/Append.antt =====
-- The second half of Add of list/list.go: a node of no list becomes the last one.
use touch_go_core.Prelude.{
  ℕ, ◌≡◌, ◌≢◌, refl, sym, ap, ◌∙◌, Bool, true, false, List, [], ◌∷◌, ◌++◌, arith, ◌==◌,
  if◌then◌else◌, length-append,
}
use touch_go_core.Prelude.Int.{pos, ◌+ℤ◌}
use touch_go_core.Prelude.Ptr.{
  Ptr, null, has, has-eq, first, last_of, last_of-member, last_of-append, first-append, ==-refl,
  ==-swap,
}
use touch_go_core.LinkedList.{ListNode, Store, next_id, adopt, link_last}
use touch_go_core.LinkedList.Chain.{Seg-append, Seg-member, Seg-set_next, IsList, Distinct-append}

-- The node as it stands behind `pre`.
abbrev pub placed : ListNode → (self l id pre : Ptr) → ListNode
placed node self l id pre = record {
  id = id;
  pre = pre;
  next = null;
  value = node.value;
  list = l;
  node_type = if node.node_type == null then self else node.node_type;
}

-- The two ends of a list that is not empty.
module _ {s : Store} {l x : Ptr} {xs : List Ptr} (is : IsList s l (x ∷ xs)) where
  head_ne : ((s.lists l).head == null) ≡ false
  head_ne = ground (arith, is.head, is.chain.0.ne_null)

  last_ne : (last_of x xs == null) ≡ false
  last_ne = ground (
    arith,
    (Seg-member s.nodes l null null (last_of x xs) (x ∷ xs) is.chain (last_of-member x xs)).0,
  )

module _ (s : Store) (l n : Ptr) (now : ℕ) where
  abbrev pub fresh_id : ℕ
  fresh_id = next_id (s.lists l).next_id now

  abbrev pub appended : Bool × Store
  appended = link_last l n (adopt l n now s)

  -- Behind the tail `last` of a list that is not empty.
  module _ (last : Ptr) (has_head : ((s.lists l).head == null) ≡ false)
      (is_tail : (s.lists l).tail ≡ last) (has_tail : (last == null) ≡ false) where
    behind-true : appended.0 ≡ true
    unfolding link_last adopt
    behind-true = ground arith

    behind-node :
        (n == last) ≡ false
        → (a : Ptr)
        → appended.1.nodes a ≡ (
            if a == n
            then placed (s.nodes n) n l fresh_id last
            else if a == last
            then record (s.nodes a) { next = n }
            else s.nodes a)
    unfolding link_last adopt
    behind-node h a = ground arith

    behind-header :
        (k : Ptr)
        → appended.1.lists k ≡ (
            if k == l
            then record (s.lists l) { tail = n; len = (s.lists l).len +ℤ pos 1; next_id = fresh_id }
            else s.lists k)
    unfolding link_last adopt
    behind-header k = ground arith

  -- On the empty list.
  alone-node :
      ((s.lists l).head == null) ≡ true
      → (a : Ptr)
      → appended.1.nodes a ≡ (if a == n then placed (s.nodes n) n l fresh_id null else s.nodes a)
  unfolding link_last adopt
  alone-node h a = ground arith

  alone-header :
      ((s.lists l).head == null) ≡ true
      → (k : Ptr)
      → appended.1.lists k ≡ (
          if k == l
          then record (s.lists l) {
            head = n;
            tail = n;
            len = (s.lists l).len +ℤ pos 1;
            next_id = fresh_id;
          }
          else s.lists k)
  unfolding link_last adopt
  alone-header h k = ground arith

  pub append-true : (xs : List Ptr) → IsList s l xs → appended.0 ≡ true
  unfolding link_last adopt
  append-true [] is = ground (arith, is.head)
  append-true (x ∷ xs) is = behind-true (last_of x xs) (head_ne is) is.tail (last_ne is)

  pub append-other :
      (xs : List Ptr)
      → IsList s l xs
      → has n xs ≡ false
      → (a : Ptr) → (a == n) ≡ false
      → (s.nodes a).list ≢ l
      → appended.1.nodes a ≡ s.nodes a
  append-other [] is h a k m = alone-node (ground (arith, is.head)) a ∙ rw k
  append-other (x ∷ xs) is h a k m =
      behind-node (last_of x xs) (head_ne is) is.tail (last_ne is)
        (has-eq n (last_of x xs) (x ∷ xs) h (last_of-member x xs)) a
      ∙ rw (k, not_last)
    where
      not_last : (a == last_of x xs) ≡ false
      not_last = ground (
        arith,
        Seg-member s.nodes l null null (last_of x xs) (x ∷ xs) is.chain (last_of-member x xs),
      )

  append_self :
      (xs : List Ptr)
      → IsList s l xs
      → has n xs ≡ false
      → appended.1.nodes n ≡ placed (s.nodes n) n l fresh_id (last_of null xs)
  append_self [] is h = alone-node (ground (arith, is.head)) n ∙ rw (==-refl n)
  append_self (x ∷ xs) is h =
      behind-node (last_of x xs) (head_ne is) is.tail (last_ne is)
        (has-eq n (last_of x xs) (x ∷ xs) h (last_of-member x xs)) n
      ∙ rw (==-refl n)

  append-member :
      (xs : List Ptr)
      → IsList s l xs
      → has n xs ≡ false
      → (a : Ptr) → has a xs ≡ true
      → appended.1.nodes a
        ≡ (if a == last_of null xs then record (s.nodes a) { next = n } else s.nodes a)
  append-member [] is h a m = absurd (ground arith)
  append-member (x ∷ xs) is h a m =
      behind-node (last_of x xs) (head_ne is) is.tail (last_ne is)
        (has-eq n (last_of x xs) (x ∷ xs) h (last_of-member x xs)) a
      ∙ rw (==-swap a n (has-eq n a (x ∷ xs) h m))

  pub append-header :
      (xs : List Ptr)
      → IsList s l xs
      → (k : Ptr)
      → appended.1.lists k ≡ (
          if k == l
          then record (s.lists l) {
            head = first xs n;
            tail = n;
            len = (s.lists l).len +ℤ pos 1;
            next_id = fresh_id;
          }
          else s.lists k)
  append-header [] is k = alone-header (ground (arith, is.head)) k
  append-header (x ∷ xs) is k =
      behind-header (last_of x xs) (head_ne is) is.tail (last_ne is) k ∙ ground (arith, is.head)

  append-own_header :
      (xs : List Ptr)
      → IsList s l xs
      → appended.1.lists l ≡ record (s.lists l) {
        head = first xs n;
        tail = n;
        len = (s.lists l).len +ℤ pos 1;
        next_id = fresh_id;
      }
  append-own_header xs is = append-header xs is l ∙ rw (==-refl l)

  pub append-IsList :
      (xs : List Ptr)
      → IsList s l xs
      → n ≢ null
      → has n xs ≡ false
      → IsList appended.1 l (xs ++ n ∷ [])
  unfolding ◌+ℤ◌
  append-IsList xs is ne h =
      let self = append_self xs is h in
      let header = append-own_header xs is in
      record {
        chain =
            Seg-append _ l null xs n [] null
              (Seg-set_next s.nodes l _ null null n xs is.distinct is.chain (append-member xs is h))
              (
                record {
                  ne_null = ne;
                  pre_eq = ap (λ v. v.pre) self;
                  next_eq = ap (λ v. v.next) self;
                  list_eq = ap (λ v. v.list) self;
                },
                tt,
              );
        distinct =
            (Distinct-append xs (n ∷ [])).1
              (is.distinct, (refl, tt), λ a m. ground (arith, has-eq n a xs h m));
        head = ap (λ v. v.head) header ∙ sym (first-append null n xs []);
        tail = ap (λ v. v.tail) header ∙ sym (last_of-append null n xs []);
        len = ap (λ v. v.len) header ∙ rw is.len (ground (arith, length-append xs (n ∷ [])));
      }

  -- Only the node changes its list.
  pub append-list_self : (a : Ptr) → (a == n) ≡ true → (appended.1.nodes a).list ≡ l
  unfolding link_last adopt
  append-list_self a h = ground arith

  pub append-list_ne : (a : Ptr) → (a == n) ≡ false → (appended.1.nodes a).list ≡ (s.nodes a).list
  unfolding link_last adopt
  append-list_ne a h = ground arith
