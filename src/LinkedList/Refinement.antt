-- ===== src/LinkedList/Refinement.antt =====
-- The lists of a store as sequences: Remove and Add of list/list.go and list/node.go against the
-- sequences.
use touch_go_core.Prelude.{
  ℕ, ◌≡◌, ◌≢◌, refl, sym, ◌∙◌, true, false, List, [], ◌∷◌, ◌++◌, arith, ◌==◌, if◌then◌else◌, inl,
  inr, Bool-cases,
}
use mathlib.Core.Path.{subst}
use touch_go_core.Prelude.Ptr.{
  Ptr, null, has, erase, split_at, has-eq, has-erase_ne, has-append, update, ==-refl, ==-eq,
  ==-swap,
}
use touch_go_core.LinkedList.{Store, remove_node_locked, remove, add}
use touch_go_core.LinkedList.Chain.{Seg-member, Seg-frame, IsList, Refines}
use touch_go_core.LinkedList.Append.{
  appended, append-true, append-other, append-header, append-IsList, append-list_self,
  append-list_ne,
}
use touch_go_core.LinkedList.Unlink.{
  unlinked-IsList, unlinked-other, remove_node_locked-lists, remove_node_locked-list,
}

-- An unchanged list of a changed store.
pub IsList-frame :
    {s s' : Store} {l : Ptr} {xs : List Ptr}
    → IsList s l xs
    → s'.lists l ≡ s.lists l
    → ((a : Ptr) → has a xs ≡ true → s'.nodes a ≡ s.nodes a)
    → IsList s' l xs
IsList-frame {s} {s'} {l} {xs} is e same = record {
  chain = Seg-frame s.nodes l s'.nodes null null xs is.chain same;
  distinct = is.distinct;
  head = rw e is.head;
  tail = rw e is.tail;
  len = rw e is.len;
}

-- The sequences without the node `n`, which stands in the list `l`, if in any.
abbrev pub without : Ptr → Ptr → (Ptr → List Ptr) → Ptr → List Ptr
without n l view = if l == null then view else update view l (erase n (view l))

-- The sequences with `n` behind the list `l`.
abbrev pub push_back : Ptr → Ptr → (Ptr → List Ptr) → Ptr → List Ptr
push_back l n view = update view l (view l ++ n ∷ [])

module _ {s : Store} {view : Ptr → List Ptr} (ref : Refines s view) where
  pub member_facts :
      (l a : Ptr) → l ≢ null → has a (view l) ≡ true → (a ≢ null) × ((s.nodes a).list ≡ l)
  member_facts l a ne m = Seg-member s.nodes l null null a (view l) (ref.is_list l ne).chain m

  module _ (n : Ptr) (linked : (s.nodes n).list ≢ null) where
    abbrev own : Ptr
    own = (s.nodes n).list

    abbrev t : Store
    t = remove_node_locked own n s

    own-IsList : IsList t own (erase n (view own))
    own-IsList =
        let (ys, zs, e, f) = split_at n (view own) (ref.complete n linked) in
        rw f (unlinked-IsList s own n ys zs (subst (IsList s own) e (ref.is_list own linked)))

    other-node : (a : Ptr) → a ≢ null → (s.nodes a).list ≢ own → t.nodes a ≡ s.nodes a
    other-node a h k =
        let (ys, zs, e, f) = split_at n (view own) (ref.complete n linked) in
        unlinked-other s own n ys zs (subst (IsList s own) e (ref.is_list own linked)) a h k

    other-IsList : (k : Ptr) → k ≢ null → (own == k) ≡ false → IsList t k (view k)
    other-IsList k ne h =
        IsList-frame (ref.is_list k ne) (remove_node_locked-lists s own n k (==-swap k own h))
          λ a m. other-node a (member_facts k a ne m).0 (ground (arith, member_facts k a ne m))

    IsList-after : (k : Ptr) → k ≢ null → IsList t k (update view own (erase n (view own)) k)
    IsList-after k ne = elim (Bool-cases (own == k)) [
      | inl e ↦
          subst (λ k. IsList t k (update view own (erase n (view own)) k)) (==-eq e)
            (rw (==-refl own) own-IsList)
      | inr e ↦ rw e (other-IsList k ne e)
    ]

    complete-after :
        (a : Ptr)
        → (t.nodes a).list ≢ null
        → has a (update view own (erase n (view own)) (t.nodes a).list) ≡ true
    complete-after a h = elim (Bool-cases (a == n)) [
      | inl e ↦ absurd (h (remove_node_locked-list s own n a refl ∙ rw e))
      | inr e ↦
          let same = remove_node_locked-list s own n a refl ∙ rw e in
          rw same (stays a e (rw same at h))
    ]
      where
        stays :
            (a : Ptr)
            → (a == n) ≡ false
            → (s.nodes a).list ≢ null
            → has a (update view own (erase n (view own)) (s.nodes a).list) ≡ true
        stays a e h = elim (Bool-cases (own == (s.nodes a).list)) [
          | inl k ↦ rw k (has-erase_ne a n (view own) e ∙ rw (==-eq k) (ref.complete a h))
          | inr k ↦ rw k (ref.complete a h)
        ]

    pub unlink-Refines : Refines t (update view own (erase n (view own)))
    unlink-Refines = record { is_list = IsList-after; complete = complete-after }

-- The same at the list that the node names.
pub unlink_from-Refines :
    {s : Store} {view : Ptr → List Ptr} (l n : Ptr)
    → Refines s view
    → l ≢ null
    → (s.nodes n).list ≡ l
    → Refines (remove_node_locked l n s) (update view l (erase n (view l)))
unlink_from-Refines {s} {view} l n ref ne e =
    subst (λ k. Refines (remove_node_locked k n s) (update view k (erase n (view k)))) e
      (unlink-Refines ref n (λ h. ne (sym e ∙ h)))

-- Remove outside a traversal takes the node out of its list, keeps the order of the others and
-- leaves the other lists alone; a node of no list is left as it is.
pub remove-Refines :
    (s : Store) (view : Ptr → List Ptr) (n : Ptr)
    → Refines s view
    → (s.lists (s.nodes n).list).dellock ≡ false
    → Refines (remove n s) (without n (s.nodes n).list view)
unfolding remove
remove-Refines s view n ref open_list = elim (Bool-cases ((s.nodes n).list == null)) [
  | inl e ↦ rw e ref
  | inr e ↦ rw (e, open_list) (unlink-Refines ref n (ground arith))
]

-- Remove during a traversal of the list changes no sequence, and notes the node for the end.
pub remove-noted :
    (s : Store) (view : Ptr → List Ptr) (n : Ptr)
    → Refines s view
    → (s.nodes n).list ≢ null
    → (s.lists (s.nodes n).list).dellock ≡ true
    → Refines (remove n s) view
      × (((remove n s).lists (s.nodes n).list).range_del_list
          ≡ (s.lists (s.nodes n).list).range_del_list ++ n ∷ [])
unfolding remove
remove-noted s view n ref linked locked =
    let ne : ((s.nodes n).list == null) ≡ false = ground arith in
    rw (ne, locked)
      (
        record {
          is_list = λ k h. record {
            chain = (ref.is_list k h).chain;
            distinct = (ref.is_list k h).distinct;
            head = ground (arith, (ref.is_list k h).head);
            tail = ground (arith, (ref.is_list k h).tail);
            len = ground (arith, (ref.is_list k h).len);
          };
          complete = ref.complete;
        },
        rw (==-refl (s.nodes n).list),
      )

-- Afterwards the node is in no list.
remove-detached :
    (s : Store) (n : Ptr)
    → (s.lists (s.nodes n).list).dellock ≡ false
    → ((remove n s).nodes n).list ≡ null
unfolding remove
remove-detached s n open_list = elim (Bool-cases ((s.nodes n).list == null)) [
  | inl e ↦ rw e (==-eq e)
  | inr e ↦ rw (e, open_list) (remove_node_locked-list s (s.nodes n).list n n refl ∙ rw (==-refl n))
]

module _ {s : Store} {view : Ptr → List Ptr} (ref : Refines s view) (l n : Ptr) (now : ℕ)
    (ne : n ≢ null) (list_ne : l ≢ null) (free : (s.nodes n).list ≡ null) where
  not-member : (k : Ptr) → k ≢ null → has n (view k) ≡ false
  not-member k k_ne = elim (Bool-cases (has n (view k))) [
    | inl m ↦ absurd (k_ne (sym (member_facts ref k n k_ne m).1 ∙ free))
    | inr e ↦ e
  ]

  abbrev after : Store
  after = (appended s l n now).1

  appended-IsList : (k : Ptr) → k ≢ null → IsList after k (push_back l n view k)
  appended-IsList k k_ne = elim (Bool-cases (l == k)) [
    | inl e ↦
        subst (λ k. IsList after k (push_back l n view k)) (==-eq e)
          (rw (==-refl l)
            (append-IsList s l n now (view l) (ref.is_list l list_ne) ne (not-member l list_ne)))
    | inr e ↦ rw e (
        IsList-frame (ref.is_list k k_ne)
          (append-header s l n now (view l) (ref.is_list l list_ne) k ∙ rw (==-swap k l e))
          λ a m.
            append-other s l n now (view l) (ref.is_list l list_ne) (not-member l list_ne) a
              (==-swap a n (has-eq n a (view k) (not-member k k_ne) m))
              (ground (arith, member_facts ref k a k_ne m)))
  ]

  appended_complete :
      (a : Ptr)
      → (after.nodes a).list ≢ null
      → has a (push_back l n view (after.nodes a).list) ≡ true
  appended_complete a h = elim (Bool-cases (a == n)) [
    | inl e ↦ rw (append-list_self s l n now a e) (rw (==-refl l) (added a e))
    | inr e ↦ rw (append-list_ne s l n now a e) (kept a (rw (append-list_ne s l n now a e) at h))
  ]
    where
      added : (a : Ptr) → (a == n) ≡ true → has a (view l ++ n ∷ []) ≡ true
      added a e = ground (arith, has-append a (view l) (n ∷ []))

      kept :
          (a : Ptr) → (s.nodes a).list ≢ null → has a (push_back l n view (s.nodes a).list) ≡ true
      kept a h = elim (Bool-cases (l == (s.nodes a).list)) [
        | inl k ↦ rw (k, has-append, ==-eq k) (ground (arith, ref.complete a h))
        | inr k ↦ rw k (ref.complete a h)
      ]

  pub appended-Refines : Refines after (push_back l n view)
  appended-Refines = record { is_list = appended-IsList; complete = appended_complete }

-- Outside a traversal of the node's list, Add moves the node behind the last node of a list: it leaves
-- its old list, the order of all other nodes stays, and every other list stays.
pub add-Refines :
    (s : Store) (view : Ptr → List Ptr) (l n : Ptr) (now : ℕ)
    → Refines s view
    → n ≢ null
    → l ≢ null
    → (s.lists (s.nodes n).list).dellock ≡ false
    → ((add l n now s).0 ≡ true)
      × Refines (add l n now s).1 (push_back l n (without n (s.nodes n).list view))
unfolding add
add-Refines s view l n now ref ne list_ne open_list =
    let ref' = remove-Refines s view n ref open_list in
    let free = remove-detached s n open_list in
    let test : (n == null) ≡ false = ground arith in
    (
      rw test (append-true (remove n s) l n now _ (ref'.is_list l list_ne)),
      rw test (appended-Refines ref' l n now ne list_ne free),
    )
