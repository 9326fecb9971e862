-- ===== src/LinkedList/Removal.antt =====
-- Range of list/list.go with a callback that removes nodes, as the timer wheels use it.
use mathlib.Core.Path.{subst, fun_ext}
use mathlib.Core.List.{append-nil, append_assoc}
use touch_go_core.Prelude.{
  ℕ, ◌<◌, ◌≡◌, ◌≢◌, refl, sym, ap, ◌∙◌, Bool, true, false, some, List, [], ◌∷◌, ◌++◌, arith, ◌==◌,
  if◌then◌else◌, inl, inr, Bool-cases, length,
}
use touch_go_core.Prelude.Ptr.{
  Ptr, null, has, Distinct, erase, erase_all, update, update_idem, ==-refl, ==-swap,
}
use touch_go_core.LinkedList.{Store, Callback, put_list, remove, end_range, set_dellock, range}
use touch_go_core.LinkedList.Chain.{Refines}
use touch_go_core.LinkedList.Refinement.{member_facts}
use touch_go_core.LinkedList.Traversal.{
  KeepsLinks, walk, range-walk, end_range-Refines, header-Refines,
}

unfoldable pub select : (Ptr → Bool) → List Ptr → List Ptr
select test [] = []
select test (x ∷ xs) = if test x then x ∷ select test xs else select test xs

unfoldable pub reject : (Ptr → Bool) → List Ptr → List Ptr
reject test [] = []
reject test (x ∷ xs) = if test x then reject test xs else x ∷ reject test xs

-- The store with the noted nodes `ds`.
abbrev noted : Ptr → List Ptr → Store → Store
noted l ds s = put_list l (record (s.lists l) { range_del_list = ds }) s

record Traversed (l : Ptr) (members : Ptr → Type 0) (s : Store) : Type 0 where
  locked : (s.lists l).dellock ≡ true
  inside : (a : Ptr) → members a → (s.nodes a).list ≡ l

remove-locked :
    (l p : Ptr) (s : Store)
    → (l == null) ≡ false
    → (s.lists l).dellock ≡ true
    → (s.nodes p).list ≡ l
    → remove p s ≡ noted l ((s.lists l).range_del_list ++ p ∷ []) s
unfolding remove
remove-locked l p s ne locked e = rw (e, ne, locked)

noted-noted : (l : Ptr) (a b : List Ptr) (s : Store) → noted l b (noted l a s) ≡ noted l b s
noted-noted l a b s = ap (λ f. record s { lists = f }) (fun_ext λ q. ground arith)

noted_same : (l : Ptr) (s : Store) → noted l (s.lists l).range_del_list s ≡ s
noted_same l s = ap (λ f. record s { lists = f }) (update_idem s.lists l)

noted-list : (l : Ptr) (ds : List Ptr) (s : Store) → ((noted l ds s).lists l).range_del_list ≡ ds
noted-list l ds s = rw (==-refl l)

Traversed-noted :
    (l x : Ptr) (xs ds : List Ptr) (s : Store)
    → Traversed l (λ a. has a (x ∷ xs) ≡ true) s
    → Traversed l (λ a. has a xs ≡ true) (noted l ds s)
Traversed-noted l x xs ds s h = record {
  locked = rw (==-refl l) h.locked;
  inside = λ a m. h.inside a (ground arith);
}

erase_all-cons :
    (x : ℕ) (ds xs : List ℕ) → has x ds ≡ false → erase_all ds (x ∷ xs) ≡ x ∷ erase_all ds xs
unfolding erase_all erase
erase_all-cons x [] xs h = refl
erase_all-cons x (d ∷ ds) xs h =
    rw (==-swap d x (ground arith)) (erase_all-cons x ds (erase d xs) (ground arith))

erase_all-drop : (x : ℕ) (ds xs : List ℕ) → erase_all (x ∷ ds) (x ∷ xs) ≡ erase_all ds xs
unfolding erase_all erase
erase_all-drop x ds xs = rw (==-refl x)

has-select :
    (a : ℕ) (test : ℕ → Bool) (xs : List ℕ) → has a xs ≡ false → has a (select test xs) ≡ false
unfolding select
has-select a test [] h = refl
has-select a test (x ∷ xs) h = ground (arith, has-select a test xs)

erase_all-select :
    (test : ℕ → Bool) (xs : List ℕ) → Distinct xs → erase_all (select test xs) xs ≡ reject test xs
unfolding erase_all select reject erase
erase_all-select test [] d = refl
erase_all-select test (x ∷ xs) d = elim (Bool-cases (test x)) [
  | inl e ↦ rw e (erase_all-drop x (select test xs) xs ∙ erase_all-select test xs d.1)
  | inr e ↦ rw e (
      erase_all-cons x (select test xs) xs (has-select x test xs d.0)
      ∙ ap (λ v. x ∷ v) (erase_all-select test xs d.1))
]

-- The values that the nodes leave behind, one after the other.
unfoldable pub visit_all : {C : Type 0} → (Ptr → C → C) → List Ptr → C → C
visit_all g [] c = c
visit_all g (x ∷ xs) c = visit_all g xs (g x c)

-- While `Inv` holds of the nodes to come, the callback removes the nodes that pass `test`, as the
-- timer wheels do, and goes on.
abbrev pub Removes :
    {C : Type 0} → Callback C → (Ptr → Bool) → (Ptr → C → C) → (List Ptr → C → Type 0) → Type 0
Removes {C} f test g Inv =
    (p : Ptr) (xs : List Ptr) (c : C) (s : Store)
    → Inv (p ∷ xs) c
    → (f p c s ≡ (true, g p c, if test p then remove p s else s)) × Inv xs (g p c)

module _ {C : Type 0} (f : Callback C) (test : Ptr → Bool) (g : Ptr → C → C)
    (Inv : List Ptr → C → Type 0) (removes : Removes f test g Inv) where
  walk-removes :
      (l : Ptr) (xs : List Ptr) (c : C) (s : Store)
      → (l == null) ≡ false
      → Inv xs c
      → Traversed l (λ a. has a xs ≡ true) s
      → walk f xs c s ≡ (visit_all g xs c, noted l ((s.lists l).range_del_list ++ select test xs) s)
  unfolding walk select visit_all
  walk-removes l [] c s ne inv h = rw append-nil (ap (λ t. (c, t)) (sym (noted_same l s)))
  walk-removes l (x ∷ xs) c s ne inv h =
      let (step, inv') = removes x xs c s inv in
      elim (Bool-cases (test x)) [
        | inl e ↦
            let ds = (s.lists l).range_del_list ++ x ∷ [] in
            let end = visit_all g xs (g x c) in
            rw (step, e, remove-locked l x s ne h.locked (h.inside x (ground arith)))
              (walk-removes l xs (g x c) (noted l ds s) ne inv' (Traversed-noted l x xs ds s h)
                ∙ ap (λ t. (end, t))
                    (noted-noted l ds _ s
                      ∙ ap (λ v. noted l v s)
                          (ap (λ v. v ++ select test xs) (noted-list l ds s)
                            ∙ append_assoc (s.lists l).range_del_list (x ∷ []) (select test xs))))
        | inr e ↦
            rw (step, e)
              (walk-removes l xs (g x c) s ne inv'
                (record { locked = h.locked; inside = λ a m. h.inside a (ground arith) }))
      ]

  removes_keeps :
      (l : Ptr) (members : Ptr → Type 0)
      → (l == null) ≡ false
      → KeepsLinks members (λ xs c s. Inv xs c × Traversed l members s) f
  removes_keeps l members ne p xs c s d h =
      let (step, inv') = removes p xs c s h.0 in
      elim (Bool-cases (test p)) [
        | inl e ↦
            rw (step, e, remove-locked l p s ne h.1.locked (h.1.inside p d))
              (
                (inv', record { locked = rw (==-refl l) h.1.locked; inside = h.1.inside }),
                λ a. refl,
              )
        | inr e ↦ rw (step, e) ((inv', h.1), λ a. refl)
      ]

  -- A callback may remove nodes in the middle of a traversal: the traversal still meets every node,
  -- it ends, the list then holds just the nodes that fail the test, in order, and the other lists
  -- are as before.
  pub range-removes :
      (s : Store) (view : Ptr → List Ptr) (l fuel : ℕ) (c : C)
      → Refines s view
      → l ≢ null
      → (s.lists l).range_del_list ≡ []
      → length (view l) < fuel
      → Inv (view l) c
      → (t : Store) × (range fuel l f c s ≡ some (visit_all g (view l) c, t))
        × Refines t (update view l (reject test (view l)))
  unfolding erase_all
  range-removes s view l fuel c ref ne none_noted enough inv =
      let s1 = set_dellock l true s in
      let ds = select test (view l) in
      let end = visit_all g (view l) c in
      let test_ne : (l == null) ≡ false = ground arith in
      let member = λ (a : Ptr). has a (view l) ≡ true in
      let start : Traversed l member s1 = record {
        locked = rw (==-refl l);
        inside = λ a m. (member_facts ref l a ne m).1;
      } in
      let run =
        range-walk member (λ xs c s. Inv xs c × Traversed l member s) f
          (removes_keeps l member test_ne) fuel l (view l) c s (λ a m. m) (inv, start)
          (ref.is_list l ne) enough in
      let before : (s1.lists l).range_del_list ≡ [] = rw (==-refl l) none_noted in
      let visited =
        walk-removes l (view l) c s1 test_ne inv start
        ∙ ap (λ v. (end, noted l (v ++ ds) s1)) before in
      let ended =
        end_range-Refines l (noted l ds s1) view
          (header-Refines l (s1.lists l).dellock ds
            (header-Refines l true (s.lists l).range_del_list ref))
          ne in
      let left : erase_all ((noted l ds s1).lists l).range_del_list (view l)
          ≡ reject test (view l) =
        rw (noted-list l ds s1) (erase_all-select test (view l) (ref.is_list l ne).distinct) in
      (
        end_range l (noted l ds s1),
        run ∙ rw visited,
        subst (λ v. Refines (end_range l (noted l ds s1)) (update view l v)) left ended.0,
      )

-- The callback that only removes.
unfoldable pub remove_if : (Ptr → Bool) → Callback (Unit {0})
remove_if test p c s = (true, c, if test p then remove p s else s)

visit_all-unit : (xs : List Ptr) (c : Unit {0}) → visit_all (λ _ c. c) xs c ≡ c
unfolding visit_all
visit_all-unit [] c = refl
visit_all-unit (x ∷ xs) c = visit_all-unit xs c

remove_if-Removes : (test : Ptr → Bool) → Removes (remove_if test) test (λ _ c. c) (λ _ _. Unit {0})
unfolding remove_if
remove_if-Removes test p xs c s _ = (refl, tt)

-- With no removal pending in the list, as outside another traversal of it, a callback that removes the
-- nodes passing a test can do so in the middle of a traversal: it meets every node, the list then
-- holds just the nodes that fail the test, in order, and the other lists are as before.
pub range-remove_if :
    (s : Store) (view : Ptr → List Ptr) (l fuel : ℕ) (test : Ptr → Bool)
    → Refines s view
    → l ≢ null
    → (s.lists l).range_del_list ≡ []
    → length (view l) < fuel
    → (t : Store) × (range fuel l (remove_if test) tt s ≡ some (tt, t))
      × Refines t (update view l (reject test (view l)))
range-remove_if s view l fuel test ref ne none_noted enough =
    let (t, run, after) =
      range-removes (remove_if test) test (λ _ c. c) (λ _ _. Unit {0}) (remove_if-Removes test) s
        view l fuel tt ref ne none_noted enough tt in
    (t, run ∙ rw (visit_all-unit (view l) tt), after)
