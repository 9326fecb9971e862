-- ===== src/LinkedList/Insert.antt =====
-- InsertAfter and InsertBefore of list/node.go.
use touch_go_core.Prelude.{
  ℕ, ◌+◌, ◌≡◌, ◌≢◌, sym, ◌∙◌, true, false, List, [], ◌∷◌, ◌++◌, arith, ◌==◌, if◌then◌else◌, length,
  length-append,
}
use touch_go_core.Prelude.Int.{pos, ◌+ℤ◌, pos-add_one}
use touch_go_core.Prelude.Ptr.{
  Ptr, null, has, has-eq, ==-swap, has-append, Distinct, first, last_of, last_of-append,
  first-append,
}
use touch_go_core.LinkedList.{
  Store, zero_node, put_node, next_id, settle, link_after, link_before, new_like, insert_after,
  insert_before,
}
use touch_go_core.LinkedList.Chain.{
  Sits, Seg, Seg-append, Seg-cut, Seg-split, Seg-member, Seg-set_next, Seg-set_pre, IsList,
  Distinct-append,
}

-- The store `t` is `s` with the node `p` linked in between `us` and `ws`.
pub record Inserted (s t : Store) (l p : Ptr) (us ws : List Ptr) : Type 0 where
  pub sits : Sits t.nodes l (last_of null us) p (first ws null)
  pub front :
      (a : Ptr)
      → has a us ≡ true
      → t.nodes a ≡ (if a == last_of null us then record (s.nodes a) { next = p } else s.nodes a)
  pub back :
      (a : Ptr)
      → has a ws ≡ true
      → t.nodes a ≡ (if a == first ws null then record (s.nodes a) { pre = p } else s.nodes a)
  pub head : (t.lists l).head ≡ first us p
  pub tail : (t.lists l).tail ≡ last_of p ws
  pub len : (t.lists l).len ≡ (s.lists l).len +ℤ pos 1

Distinct-insert :
    (p : ℕ) (us ws : List ℕ)
    → Distinct (us ++ ws)
    → has p (us ++ ws) ≡ false
    → Distinct (us ++ p ∷ ws)
Distinct-insert p [] ws d h = (h, d)
Distinct-insert p (u ∷ us) ws d h = (
  ground (arith, has-append u us ws, has-append u us (p ∷ ws)),
  Distinct-insert p us ws d.1 (ground arith),
)

length-insert : (p : ℕ) (us ws : List ℕ) → length (us ++ p ∷ ws) ≡ length (us ++ ws) + 1
length-insert p us ws = omega (arith, length-append us ws, length-append us (p ∷ ws))

pub Inserted-IsList :
    (s t : Store) (l p : Ptr) (us ws : List Ptr)
    → IsList s l (us ++ ws)
    → has p (us ++ ws) ≡ false
    → Inserted s t l p us ws
    → IsList t l (us ++ p ∷ ws)
Inserted-IsList s t l p us ws is new ins =
    let (front, back) = Seg-cut s.nodes l null us ws null is.chain in
    let (d, e, apart) = (Distinct-append us ws).0 is.distinct in
    record {
      chain =
          Seg-append t.nodes l null us p ws null
            (Seg-set_next s.nodes l t.nodes null _ p us d front ins.front)
            (ins.sits, Seg-set_pre s.nodes l t.nodes _ p null ws e back ins.back);
      distinct = Distinct-insert p us ws is.distinct new;
      head = ins.head ∙ sym (first-append null p us ws);
      tail = ins.tail ∙ sym (last_of-append null p us ws);
      len = ins.len ∙ rw (is.len, length-insert p us ws) (pos-add_one (length (us ++ ws)));
    }

-- The store with the new node, before the fields are set.
abbrev pub made : (p n : Ptr) → Store → Store
made p n s = put_node p (record zero_node { node_type = (s.nodes n).node_type }) s

module _ (s : Store) (l n p : Ptr) (value now : ℕ) (typed : ((s.nodes n).node_type == null) ≡ false)
    (listed : (s.nodes n).list ≡ l) (list_ne : (l == null) ≡ false) (ne : (p == null) ≡ false)
    (apart : (p == n) ≡ false) where
  pub insert_after-eq :
      insert_after p n value now s
      ≡ (p, link_after l n p (settle p l n (s.nodes n).next value now (made p n s)))
  unfolding insert_after new_like
  insert_after-eq = rw (typed, ne, apart, listed, list_ne)

  pub insert_before-eq :
      insert_before p n value now s
      ≡ (p, link_before l n p (settle p l (s.nodes n).pre n value now (made p n s)))
  unfolding insert_before new_like
  insert_before-eq = rw (typed, ne, apart, listed, list_ne)

module _ (p l pre next : Ptr) (value now : ℕ) (s : Store) where
  pub settle-node :
      (a : Ptr) → (a == p) ≡ false → (settle p l pre next value now s).nodes a ≡ s.nodes a
  unfolding settle
  settle-node a h = ground arith

  pub settle-list :
      (a : Ptr) → (a == p) ≡ true → ((settle p l pre next value now s).nodes a).list ≡ l
  unfolding settle
  settle-list a h = ground arith

  pub settle-value : ((settle p l pre next value now s).nodes p).value ≡ value
  unfolding settle
  settle-value = ground arith

  pub settle_self : p ≢ null → Sits (settle p l pre next value now s).nodes l pre p next
  unfolding settle
  settle_self ne = record {
    ne_null = ne;
    pre_eq = ground arith;
    next_eq = ground arith;
    list_eq = ground arith;
  }

  pub settle-header :
      (k : Ptr)
      → (settle p l pre next value now s).lists k ≡ (
          if k == l
          then record (s.lists l) { next_id = next_id (s.lists l).next_id now }
          else s.lists k)
  unfolding settle
  settle-header k = ground arith

module _ (l n p : Ptr) (s : Store) where
  pub link_after-list : (a : Ptr) → ((link_after l n p s).nodes a).list ≡ (s.nodes a).list
  unfolding link_after
  link_after-list a = ground arith

  pub link_before-list : (a : Ptr) → ((link_before l n p s).nodes a).list ≡ (s.nodes a).list
  unfolding link_before
  link_before-list a = ground arith

  pub link_after-value : (a : Ptr) → ((link_after l n p s).nodes a).value ≡ (s.nodes a).value
  unfolding link_after
  link_after-value a = ground arith

  pub link_before-value : (a : Ptr) → ((link_before l n p s).nodes a).value ≡ (s.nodes a).value
  unfolding link_before
  link_before-value a = ground arith

  pub link_after-node :
      (a : Ptr)
      → ((s.nodes n).next == n) ≡ false
      → (a == null) ≡ false
      → (link_after l n p s).nodes a ≡ (
          if a == n
          then record (s.nodes a) { next = p }
          else if a == (s.nodes n).next
          then record (s.nodes a) { pre = p }
          else s.nodes a)
  unfolding link_after
  link_after-node a h k = ground arith

  pub link_after-header :
      (k : Ptr)
      → (link_after l n p s).lists k ≡ (
          if k == l
          then record (s.lists l) {
            tail = if (s.nodes n).next == null then p else (s.lists l).tail;
            len = (s.lists l).len +ℤ pos 1;
          }
          else s.lists k)
  unfolding link_after
  link_after-header k = ground arith

  pub link_before-node :
      (a : Ptr)
      → ((s.nodes n).pre == n) ≡ false
      → (a == null) ≡ false
      → (link_before l n p s).nodes a ≡ (
          if a == n
          then record (s.nodes a) { pre = p }
          else if a == (s.nodes n).pre
          then record (s.nodes a) { next = p }
          else s.nodes a)
  unfolding link_before
  link_before-node a h k = ground arith

  pub link_before-header :
      (k : Ptr)
      → (link_before l n p s).lists k ≡ (
          if k == l
          then record (s.lists l) {
            head = if (s.nodes n).pre == null then p else (s.lists l).head;
            len = (s.lists l).len +ℤ pos 1;
          }
          else s.lists k)
  unfolding link_before
  link_before-header k = ground arith

-- A node `n` of a list that stands for `ys ++ n ∷ zs`, and a new node `p`.
pub record Around (s : Store) (l n p : Ptr) (ys zs : List Ptr) : Type 0 where
  pub is : IsList s l (ys ++ n ∷ zs)
  pub list_ne : (l == null) ≡ false
  pub ne : (p == null) ≡ false
  pub typed : ((s.nodes n).node_type == null) ≡ false
  pub new : has p (ys ++ n ∷ zs) ≡ false

module _ {s : Store} {l n p : Ptr} {ys zs : List Ptr} (h : Around s l n p ys zs) where
  open h use {is, list_ne, ne, typed, new}

  pub halves : Seg s.nodes l null ys n × Seg s.nodes l (last_of null ys) (n ∷ zs) null
  halves = Seg-split s.nodes l null ys n zs null is.chain

  pub sits : Sits s.nodes l (last_of null ys) n (first zs null)
  sits = halves.1.0

  pub p-ne-n : (p == n) ≡ false
  p-ne-n = ground (arith, has-append p ys (n ∷ zs))

  pub n-ne-p : (n == p) ≡ false
  n-ne-p = ==-swap n p p-ne-n

  pub p-ne_null : p ≢ null
  p-ne_null = ground arith

  pub member-ne_null : (a : Ptr) → has a (ys ++ n ∷ zs) ≡ true → (a == null) ≡ false
  member-ne_null a m =
      ground (arith, (Seg-member s.nodes l null null a (ys ++ n ∷ zs) is.chain m).0)

  pub member-ne-p : (a : Ptr) → has a (ys ++ n ∷ zs) ≡ true → (a == p) ≡ false
  member-ne-p a m = ==-swap a p (has-eq p a (ys ++ n ∷ zs) new m)
