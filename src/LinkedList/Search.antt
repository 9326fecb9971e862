-- ===== src/LinkedList/Search.antt =====
-- Two uses of Range: Get of list/list.go, and a callback that removes nodes.
use mathlib.Core.Path.{subst}
use touch_go_core.Prelude.{
  ℕ, ◌<◌, ◌≡◌, ◌≢◌, refl, ◌∙◌, true, some, List, [], ◌∷◌, arith, ◌==◌, if◌then◌else◌, inl, inr,
  Bool-cases, length,
}
use touch_go_core.Prelude.Ptr.{Ptr, null, erase_all, update, update_idem, ==-refl}
use touch_go_core.LinkedList.{Store, ListNode, end_range, set_dellock, get_callback, get}
use touch_go_core.LinkedList.Chain.{Refines}
use touch_go_core.LinkedList.Traversal.{walk, range-walk, end_range-Refines, header-Refines}

-- The first node with the ID, or nil.
unfoldable pub find_node : (Ptr → ListNode) → ℕ → List Ptr → Ptr
find_node nodes id [] = null
find_node nodes id (x ∷ xs) = if (nodes x).id == id then x else find_node nodes id xs

walk-get_callback :
    (id : ℕ) (xs : List Ptr) (s : Store)
    → walk (get_callback id) xs null s ≡ (find_node s.nodes id xs, s)
unfolding walk get_callback find_node
walk-get_callback id [] s = refl
walk-get_callback id (x ∷ xs) s = elim (Bool-cases ((s.nodes x).id == id)) [
  | inl e ↦ rw e
  | inr e ↦ rw e (walk-get_callback id xs s)
]

get_callback_keeps :
    (id : ℕ) (p : Ptr) (xs : List Ptr) (c : Ptr) (s : Store)
    → Unit {0}
    → Unit {0}
    → Unit {0} × ((a : Ptr) → ((get_callback id p c s).2.nodes a).next ≡ (s.nodes a).next)
unfolding get_callback
get_callback_keeps id p xs c s _ _ = (tt, λ a. ground arith)

-- With no removal pending in the list, as outside a traversal of it, Get ends, returns the first node
-- of the list with the ID, or nil, and changes no list.
pub get-find_node :
    (s : Store) (view : Ptr → List Ptr) (l id fuel : ℕ)
    → Refines s view
    → l ≢ null
    → (s.lists l).range_del_list ≡ []
    → length (view l) < fuel
    → (t : Store) × (get fuel l id s ≡ some (find_node s.nodes id (view l), t)) × Refines t view
unfolding get erase_all
get-find_node s view l id fuel ref ne none_noted enough =
    let s1 = set_dellock l true s in
    let run =
      range-walk (λ _. Unit {0}) (λ _ _ _. Unit {0}) (get_callback id) (get_callback_keeps id) fuel
        l (view l) null s (λ _ _. tt) tt (ref.is_list l ne) enough in
    let nothing : update view l (erase_all (s1.lists l).range_del_list (view l)) ≡ view =
      rw (==-refl l, none_noted) (update_idem view l) in
    (
      end_range l s1,
      run ∙ rw (walk-get_callback id (view l) s1),
      subst (Refines _) nothing
          (end_range-Refines l s1 view (header-Refines l true (s.lists l).range_del_list ref) ne).0,
    )
