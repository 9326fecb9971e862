-- ===== src/LinkedList/Traversal.antt =====
-- Range and Get of list/list.go: what a traversal visits, and the removals that wait for its end.
use mathlib.Core.Path.{subst}
use mathlib.Core.Option
use touch_go_core.Prelude.{
  ℕ, zero, suc, ◌<◌, ◌≡◌, ◌≢◌, refl, sym, ap, ◌∙◌, Bool, true, false, some, List, [], ◌∷◌, arith,
  ◌==◌, if◌then◌else◌, inl, inr, Bool-cases, length,
}
use touch_go_core.Prelude.Ptr.{
  Ptr, null, first, has, erase, erase_all, erase-absent, update, update_idem, update-update,
  ==-refl, ==-eq,
}
use touch_go_core.LinkedList.{
  Store, ListNode, Callback, put_list, remove_node_locked, remove_all, end_range, set_dellock,
  range_loop, range,
}
use touch_go_core.LinkedList.Chain.{Seg, IsList, Refines}
use touch_go_core.LinkedList.Unlink.{remove_node_locked-other, remove_node_locked-dellock}
use touch_go_core.LinkedList.Refinement.{unlink_from-Refines, member_facts}

-- The visits of a traversal of `xs`: in order, until the callback says no.
unfoldable pub walk : {C : Type 0} → Callback C → List Ptr → C → Store → C × Store
walk f [] c s = (c, s)
walk f (x ∷ xs) c s =
    let (more, c', s') = f x c s in let rest = walk f xs c' s' in if more then rest else (c', s')

-- At the nodes of `D` the callback leaves the links alone and keeps `Inv`, which may depend on the
-- nodes that are still to be visited.
abbrev pub KeepsLinks :
    {C : Type 0} → (Ptr → Type 0) → (List Ptr → C → Store → Type 0) → Callback C → Type 0
KeepsLinks {C} D Inv f =
    (p : Ptr) (xs : List Ptr) (c : C) (s : Store)
    → D p
    → Inv (p ∷ xs) c s
    → Inv xs (f p c s).1 (f p c s).2 × ((a : Ptr) → ((f p c s).2.nodes a).next ≡ (s.nodes a).next)

-- The addresses `xs` follow one another up to the end.
abbrev Follows : (Ptr → ListNode) → List Ptr → Type 0
Follows nodes [] = Unit {0}
Follows nodes (x ∷ xs) = (x ≢ null) × ((nodes x).next ≡ first xs null) × Follows nodes xs

Seg-Follows :
    (nodes : Ptr → ListNode) (l pre : Ptr) (xs : List Ptr)
    → Seg nodes l pre xs null
    → Follows nodes xs
Seg-Follows nodes l pre [] h = tt
Seg-Follows nodes l pre (x ∷ xs) h = (h.0.ne_null, h.0.next_eq, Seg-Follows nodes l x xs h.1)

Follows-frame :
    (nodes nodes' : Ptr → ListNode) (xs : List Ptr)
    → ((a : Ptr) → (nodes' a).next ≡ (nodes a).next)
    → Follows nodes xs
    → Follows nodes' xs
Follows-frame nodes nodes' [] same h = tt
Follows-frame nodes nodes' (x ∷ xs) same h =
    (h.0, same x ∙ h.1, Follows-frame nodes nodes' xs same h.2)

module _ {C : Type 0} (D : Ptr → Type 0) (Inv : List Ptr → C → Store → Type 0) (f : Callback C)
    (keeps : KeepsLinks D Inv f) where
  range_loop-walk :
      (fuel : ℕ) (xs : List Ptr) (c : C) (s : Store)
      → ((a : Ptr) → has a xs ≡ true → D a)
      → Inv xs c s
      → Follows s.nodes xs
      → length xs < fuel
      → range_loop fuel f (first xs null) c s ≡ some (walk f xs c s)
  unfolding range_loop walk
  range_loop-walk zero xs c s d inv h enough = absurd (omega arith)
  range_loop-walk (suc k) [] c s d inv h enough = refl
  range_loop-walk (suc k) (x ∷ xs) c s d inv h enough =
      let ne : (x == null) ≡ false = ground (arith, h.0) in
      let (inv', same) = keeps x xs c s (d x (ground arith)) inv in
      let rest =
        range_loop-walk k xs (f x c s).1 (f x c s).2 (λ a m. d a (ground arith)) inv'
          (Follows-frame s.nodes (f x c s).2.nodes xs same h.2) (omega arith) in
      rw (ne, same x, h.1, rest) (elim (Bool-cases (f x c s).0) [ inl e ↦ rw e | inr e ↦ rw e ])

  -- A traversal whose callback leaves the links alone visits the nodes of the list in order, from
  -- the first, until the callback says no, and then applies the removals; it ends.
  pub range-walk :
      (fuel : ℕ) (l : Ptr) (xs : List Ptr) (c : C) (s : Store)
      → ((a : Ptr) → has a xs ≡ true → D a)
      → Inv xs c (set_dellock l true s)
      → IsList s l xs
      → length xs < fuel
      → range fuel l f c s
        ≡ some (
          (walk f xs c (set_dellock l true s)).0,
          end_range l (walk f xs c (set_dellock l true s)).1,
        )
  unfolding range
  range-walk fuel l xs c s d inv is enough =
      let s1 = set_dellock l true s in
      let at_head : (s1.lists l).head ≡ first xs null = rw (==-refl l) is.head in
      ap (Option.map (λ (r : C × Store). (r.0, end_range l r.1))) (
        ap (λ h. range_loop fuel f h c s1) at_head
        ∙ range_loop-walk fuel xs c s1 d inv (Seg-Follows s.nodes l null xs is.chain) enough)

-- A noted node, once: a node of another list, or of none, is passed over.
skip-Refines :
    {s : Store} {view : Ptr → List Ptr} (l d : Ptr)
    → Refines s view
    → has d (view l) ≡ false
    → Refines s (update view l (erase d (view l)))
skip-Refines {s} {view} l d ref h =
    subst (Refines s) (sym (ap (update view l) (erase-absent d (view l) h) ∙ update_idem view l))
      ref

remove_noted-Refines :
    (l d : Ptr) (s : Store) (view : Ptr → List Ptr)
    → Refines s view
    → l ≢ null
    → Refines (if d == null then s else remove_node_locked l d s) (update view l (erase d (view l)))
remove_noted-Refines l d s view ref ne = elim (Bool-cases (d == null)) [
  | inl e ↦ rw e (skip-Refines l d ref (absent (λ h m. h.0 (==-eq e))))
  | inr e ↦ elim (Bool-cases ((s.nodes d).list == l)) [
    | inl k ↦ rw e (unlink_from-Refines l d ref ne (==-eq k))
    | inr k ↦
        rw (e, remove_node_locked-other s l d k)
          (skip-Refines l d ref (absent λ h m. ground (arith, h.1)))
  ]
]
  where
    absent :
        ((d ≢ null) × ((s.nodes d).list ≡ l) → has d (view l) ≡ true → ⊥) → has d (view l) ≡ false
    absent no_member = elim (Bool-cases (has d (view l))) [
      | inl m ↦ absurd (no_member (member_facts ref l d ne m) m)
      | inr h ↦ h
    ]

remove_all-Refines :
    (l : Ptr) (ds : List Ptr) (s : Store) (view : Ptr → List Ptr)
    → Refines s view
    → l ≢ null
    → Refines (remove_all l ds s) (update view l (erase_all ds (view l)))
unfolding remove_all erase_all
remove_all-Refines l [] s view ref ne = subst (Refines s) (sym (update_idem view l)) ref
remove_all-Refines l (d ∷ ds) s view ref ne =
    subst (λ xs. Refines (remove_all l (d ∷ ds) s) (update view l (erase_all ds xs)))
      (rw (==-refl l))
      (subst (Refines _) (update-update view l _ _)
        (remove_all-Refines l ds _ _ (remove_noted-Refines l d s view ref ne) ne))

remove_all-dellock :
    (l : Ptr) (ds : List Ptr) (s : Store)
    → ((remove_all l ds s).lists l).dellock ≡ (s.lists l).dellock
unfolding remove_all
remove_all-dellock l [] s = refl
remove_all-dellock l (d ∷ ds) s =
    remove_all-dellock l ds _ ∙ ground (arith, remove_node_locked-dellock s l d)

pub header-Refines :
    {s : Store} {view : Ptr → List Ptr} (l : Ptr) (locked : Bool) (ds : List Ptr)
    → Refines s view
    → Refines (put_list l (record (s.lists l) { dellock = locked; range_del_list = ds }) s) view
header-Refines {s} {view} l locked ds ref = record {
  is_list = λ k h. record {
    chain = (ref.is_list k h).chain;
    distinct = (ref.is_list k h).distinct;
    head = ground (arith, (ref.is_list k h).head);
    tail = ground (arith, (ref.is_list k h).tail);
    len = ground (arith, (ref.is_list k h).len);
  };
  complete = ref.complete;
}

-- When a traversal ends, the list loses exactly the noted nodes that are still in it, the others
-- keep their order, and no removal is left over.
pub end_range-Refines :
    (l : Ptr) (s : Store) (view : Ptr → List Ptr)
    → Refines s view
    → l ≢ null
    → Refines (end_range l s) (update view l (erase_all (s.lists l).range_del_list (view l)))
      × (((end_range l s).lists l).range_del_list ≡ [])
      × (((end_range l s).lists l).dellock ≡ false)
unfolding end_range
end_range-Refines l s view ref ne =
    let ds = (s.lists l).range_del_list in
    let done = remove_all-Refines l ds _ view (header-Refines l false ds ref) ne in
    let lock = remove_all-dellock l ds (set_dellock l false s) in
    (header-Refines l _ [] done, rw (==-refl l), rw (==-refl l) (lock ∙ rw (==-refl l)))
