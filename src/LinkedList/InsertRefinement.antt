-- ===== src/LinkedList/InsertRefinement.antt =====
-- InsertAfter and InsertBefore of list/node.go against the sequences.
use mathlib.Core.Path.{subst}
use mathlib.Core.List.{append_assoc}
use touch_go_core.Prelude.{
  ℕ, ◌≡◌, ◌≢◌, refl, sym, ap, ◌∙◌, true, false, List, [], ◌∷◌, ◌++◌, arith, ◌==◌, if◌then◌else◌,
  inl, inr, Bool-cases,
}
use touch_go_core.Prelude.Ptr.{Ptr, null, has, ==-eq, ==-refl, ==-swap, update, split_at}
use touch_go_core.LinkedList.{Store, settle, link_after, link_before, insert_after, insert_before}
use touch_go_core.LinkedList.Chain.{IsList, Refines, Distinct-append}
use touch_go_core.LinkedList.Refinement.{IsList-frame, member_facts}
use touch_go_core.LinkedList.Insert.{
  Around, Inserted-IsList, made, insert_after-eq, insert_before-eq, link_after-list,
  link_before-list, settle-list, settle-node, link_after-value, link_before-value, settle-value,
  link_after-header, link_before-header, settle-header,
}
use touch_go_core.LinkedList.InsertAfter.{after-Inserted, after-other}
use touch_go_core.LinkedList.InsertBefore.{before-Inserted, before-other}

-- The new element behind, and in front of, the first `n`.
unfoldable pub insert_behind : (n p : ℕ) → List ℕ → List ℕ
insert_behind n p [] = []
insert_behind n p (x ∷ xs) = if n == x then x ∷ p ∷ xs else x ∷ insert_behind n p xs

unfoldable pub insert_ahead : (n p : ℕ) → List ℕ → List ℕ
insert_ahead n p [] = []
insert_ahead n p (x ∷ xs) = if n == x then p ∷ x ∷ xs else x ∷ insert_ahead n p xs

module _ (n p : ℕ) where
  insert_behind-append :
      (ys zs : List ℕ) → has n ys ≡ false → insert_behind n p (ys ++ n ∷ zs) ≡ ys ++ n ∷ p ∷ zs
  unfolding insert_behind
  insert_behind-append [] zs h = rw (==-refl n)
  insert_behind-append (y ∷ ys) zs h = ground (arith, insert_behind-append ys zs)

  insert_ahead-append :
      (ys zs : List ℕ) → has n ys ≡ false → insert_ahead n p (ys ++ n ∷ zs) ≡ ys ++ p ∷ n ∷ zs
  unfolding insert_ahead
  insert_ahead-append [] zs h = rw (==-refl n)
  insert_ahead-append (y ∷ ys) zs h = ground (arith, insert_ahead-append ys zs)

  has-insert_behind : (a : ℕ) (xs : List ℕ) → has a xs ≡ true → has a (insert_behind n p xs) ≡ true
  unfolding insert_behind
  has-insert_behind a [] h = h
  has-insert_behind a (x ∷ xs) h = ground (arith, has-insert_behind a xs)

  has-insert_behind_self : (xs : List ℕ) → has n xs ≡ true → has p (insert_behind n p xs) ≡ true
  unfolding insert_behind
  has-insert_behind_self [] h = absurd (ground arith)
  has-insert_behind_self (x ∷ xs) h = ground (arith, has-insert_behind_self xs)

  has-insert_ahead : (a : ℕ) (xs : List ℕ) → has a xs ≡ true → has a (insert_ahead n p xs) ≡ true
  unfolding insert_ahead
  has-insert_ahead a [] h = h
  has-insert_ahead a (x ∷ xs) h = ground (arith, has-insert_ahead a xs)

  has-insert_ahead_self : (xs : List ℕ) → has n xs ≡ true → has p (insert_ahead n p xs) ≡ true
  unfolding insert_ahead
  has-insert_ahead_self [] h = absurd (ground arith)
  has-insert_ahead_self (x ∷ xs) h = ground (arith, has-insert_ahead_self xs)

-- A list in which one sequence changes, and every node but `p` stays in its list.
module _ {s t : Store} {view : Ptr → List Ptr} (ref : Refines s view) (l p : Ptr) (xs : List Ptr)
    (list_ne : l ≢ null) (own : IsList t l xs) (free : (s.nodes p).list ≡ null)
    (header : (k : Ptr) → (k == l) ≡ false → t.lists k ≡ s.lists k)
    (other : (a : Ptr)
      → (a == null) ≡ false
      → (a == p) ≡ false
      → (s.nodes a).list ≢ l
      → t.nodes a ≡ s.nodes a)
    (self_list : (a : Ptr) → (a == p) ≡ true → (t.nodes a).list ≡ l)
    (same_list : (a : Ptr) → (a == p) ≡ false → (t.nodes a).list ≡ (s.nodes a).list)
    (has_new : has p xs ≡ true)
    (has_old : (a : Ptr) → has a (view l) ≡ true → has a xs ≡ true) where
  changed-IsList : (k : Ptr) → k ≢ null → IsList t k (update view l xs k)
  changed-IsList k ne = elim (Bool-cases (l == k)) [
    | inl e ↦ subst (λ k. IsList t k (update view l xs k)) (==-eq e) (rw (==-refl l) own)
    | inr e ↦ rw e (
        IsList-frame (ref.is_list k ne) (header k (==-swap k l e)) λ a m.
          let facts = member_facts ref k a ne m in
          other a (ground arith) (ground arith) (ground arith))
  ]

  changed_complete :
      (a : Ptr) → (t.nodes a).list ≢ null → has a (update view l xs (t.nodes a).list) ≡ true
  changed_complete a h = elim (Bool-cases (a == p)) [
    | inl e ↦ rw (self_list a e) (rw (==-refl l) (ground arith))
    | inr e ↦ rw (same_list a e) (kept (rw (same_list a e) at h))
  ]
    where
      kept : (s.nodes a).list ≢ null → has a (update view l xs (s.nodes a).list) ≡ true
      kept h = elim (Bool-cases (l == (s.nodes a).list)) [
        | inl k ↦ rw k (has_old a (rw (==-eq k) (ref.complete a h)))
        | inr k ↦ rw k (ref.complete a h)
      ]

  changed-Refines : Refines t (update view l xs)
  changed-Refines = record { is_list = changed-IsList; complete = changed_complete }

-- What the code asks of an insertion: `n` is in a list and has a prototype, and `p` is new.
pub record CanInsert (s : Store) (n p : Ptr) : Type 0 where
  pub listed : (s.nodes n).list ≢ null
  pub typed : (s.nodes n).node_type ≢ null
  pub ne_null : p ≢ null
  pub free : (s.nodes p).list ≡ null

module _ (s : Store) (view : Ptr → List Ptr) (n p : Ptr) (value now : ℕ) (ref : Refines s view)
    (can : CanInsert s n p) where
  open can use {listed, typed, ne_null, free}

  abbrev own : Ptr
  own = (s.nodes n).list

  p-absent : (xs : List Ptr) → xs ≡ view own → has p xs ≡ false
  p-absent xs e = elim (Bool-cases (has p xs)) [
    | inl m ↦
        absurd
          (listed (sym (member_facts ref own p listed (subst (λ v. has p v ≡ true) e m)).1 ∙ free))
    | inr h ↦ h
  ]

  around : (ys zs : List Ptr) → view own ≡ ys ++ n ∷ zs → Around s own n p ys zs
  around ys zs e = record {
    is = subst (IsList s own) e (ref.is_list own listed);
    list_ne = ground arith;
    ne = ground arith;
    typed = ground arith;
    new = p-absent (ys ++ n ∷ zs) (sym e);
  }

  p-ne-n : (p == n) ≡ false
  p-ne-n = ground arith

  -- The store after `InsertAfter`.
  after-eq :
      insert_after p n value now s
      ≡ (p, link_after own n p (settle p own n (s.nodes n).next value now (made p n s)))
  after-eq =
      insert_after-eq s own n p value now (ground arith) refl (ground arith) (ground arith) p-ne-n

  before-eq :
      insert_before p n value now s
      ≡ (p, link_before own n p (settle p own (s.nodes n).pre n value now (made p n s)))
  before-eq =
      insert_before-eq s own n p value now (ground arith) refl (ground arith) (ground arith) p-ne-n

  absent : (ys zs : List Ptr) → view own ≡ ys ++ n ∷ zs → has n ys ≡ false
  absent ys zs e =
      ground (arith, ((Distinct-append ys (n ∷ zs)).0 (around ys zs e).is.distinct).2 n)

  abbrev made_after : Store
  made_after = link_after own n p (settle p own n (s.nodes n).next value now (made p n s))

  abbrev made_before : Store
  made_before = link_before own n p (settle p own (s.nodes n).pre n value now (made p n s))

  after-own :
      (ys zs : List Ptr)
      → view own ≡ ys ++ n ∷ zs
      → IsList made_after own (insert_behind n p (view own))
  after-own ys zs e =
      let h = around ys zs e in
      rw (e, insert_behind-append n p ys zs (absent ys zs e), ← append_assoc ys (n ∷ []) (p ∷ zs))
        (Inserted-IsList s _ own p (ys ++ n ∷ []) zs (rw append_assoc h.is) (rw append_assoc h.new)
          (after-Inserted s own n p value now ys zs h))

  before-own :
      (ys zs : List Ptr)
      → view own ≡ ys ++ n ∷ zs
      → IsList made_before own (insert_ahead n p (view own))
  before-own ys zs e =
      let h = around ys zs e in
      rw (e, insert_ahead-append n p ys zs (absent ys zs e))
        (Inserted-IsList s _ own p ys (n ∷ zs) h.is h.new
          (before-Inserted s own n p value now ys zs h))

  made-list : (a : Ptr) → (a == p) ≡ false → ((made p n s).nodes a) ≡ s.nodes a
  made-list a e = rw (==-swap p a e)

  after-Refines : Refines made_after (update view own (insert_behind n p (view own)))
  after-Refines =
      let (ys, zs, e, _) = split_at n (view own) (ref.complete n listed) in
      changed-Refines ref own p (insert_behind n p (view own)) listed (after-own ys zs e) free
        (λ k h.
          link_after-header own n p _ k
          ∙ rw h (settle-header p own n _ value now (made p n s) k ∙ rw h))
        (after-other s own n p value now ys zs (around ys zs e))
        (λ a h. link_after-list own n p _ a ∙ settle-list p own n _ value now (made p n s) a h)
        (λ a h.
          link_after-list own n p _ a
          ∙ ap (λ v. v.list) (settle-node p own n _ value now (made p n s) a h ∙ made-list a h))
        (has-insert_behind_self n p (view own) (ref.complete n listed))
        (λ a. has-insert_behind n p a (view own))

  before-Refines : Refines made_before (update view own (insert_ahead n p (view own)))
  before-Refines =
      let (ys, zs, e, _) = split_at n (view own) (ref.complete n listed) in
      changed-Refines ref own p (insert_ahead n p (view own)) listed (before-own ys zs e) free
        (λ k h.
          link_before-header own n p _ k
          ∙ rw h (settle-header p own _ n value now (made p n s) k ∙ rw h))
        (before-other s own n p value now ys zs (around ys zs e))
        (λ a h. link_before-list own n p _ a ∙ settle-list p own _ n value now (made p n s) a h)
        (λ a h.
          link_before-list own n p _ a
          ∙ ap (λ v. v.list) (settle-node p own _ n value now (made p n s) a h ∙ made-list a h))
        (has-insert_ahead_self n p (view own) (ref.complete n listed))
        (λ a. has-insert_ahead n p a (view own))

-- InsertAfter at a node of a list, with a new address, puts a node with the value right behind it;
-- the rest of the list and the other lists stay.
pub insert_after-Refines :
    (s : Store) (view : Ptr → List Ptr) (n p : Ptr) (value now : ℕ)
    → Refines s view
    → CanInsert s n p
    → ((insert_after p n value now s).0 ≡ p)
      × (((insert_after p n value now s).1.nodes p).value ≡ value)
      × Refines
          (insert_after p n value now s).1
          (update view (s.nodes n).list (insert_behind n p (view (s.nodes n).list)))
insert_after-Refines s view n p value now ref can = rw (after-eq s view n p value now ref can) (
  refl,
  link_after-value _ n p _ p ∙ settle-value p _ n _ value now (made p n s),
  after-Refines s view n p value now ref can,
)

-- InsertBefore at a node of a list, with a new address, puts a node with the value right in front of
-- it; the rest of the list and the other lists stay.
pub insert_before-Refines :
    (s : Store) (view : Ptr → List Ptr) (n p : Ptr) (value now : ℕ)
    → Refines s view
    → CanInsert s n p
    → ((insert_before p n value now s).0 ≡ p)
      × (((insert_before p n value now s).1.nodes p).value ≡ value)
      × Refines
          (insert_before p n value now s).1
          (update view (s.nodes n).list (insert_ahead n p (view (s.nodes n).list)))
insert_before-Refines s view n p value now ref can = rw (before-eq s view n p value now ref can) (
  refl,
  link_before-value _ n p _ p ∙ settle-value p _ _ n value now (made p n s),
  before-Refines s view n p value now ref can,
)
