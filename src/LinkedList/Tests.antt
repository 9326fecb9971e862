-- ===== src/LinkedList/Tests.antt =====
-- A store with the list 1 of the nodes 10, 11, 12 and the empty list 2, what the code does on it, and
-- the theorems at it.
use mathlib.Core.Path.{subst}
use touch_go_core.Prelude.{
  ℕ, zero, suc, ◌≡◌, ◌≢◌, refl, sym, inl, inr, Bool-cases, true, false, some, List, [], ◌∷◌, arith,
  ◌==◌, if◌then◌else◌,
}
use touch_go_core.Prelude.Int.{pos, ◌+ℤ◌, ◌-ℤ◌}
use touch_go_core.Prelude.Ptr.{Ptr, null, erase, update, ==-eq}
use touch_go_core.LinkedList.{
  Store, ListNode, set_dellock, new_list, zero_node, remove_node_locked, remove, add, adopt,
  link_last, insert_after, insert_before, new_like, settle, link_after, link_before, range,
  range_loop, remove_all, end_range, get, get_callback, clear, clear_loop,
}
use touch_go_core.LinkedList.Chain.{IsList, Refines}
use touch_go_core.LinkedList.Refinement.{without, push_back, add-Refines, remove-Refines}
use touch_go_core.LinkedList.InsertRefinement.{
  CanInsert, insert_behind, insert_ahead, insert_after-Refines, insert_before-Refines,
}
use touch_go_core.LinkedList.Clear.{Ends, clear-Refines}
use touch_go_core.LinkedList.Search.{find_node, get-find_node}
use touch_go_core.LinkedList.Removal.{remove_if, reject, range-remove_if}

abbrev pub node_of : (id pre next list : ℕ) → ListNode
node_of id pre next list = record zero_node {
  id = id;
  pre = pre;
  next = next;
  list = list;
  node_type = 9;
}

abbrev pub three : Store
three = record {
  nodes = λ p.
      if p == 10
      then node_of 100 0 11 1
      else if p == 11
      then node_of 101 10 12 1
      else if p == 12
      then node_of 102 11 0 1
      else record zero_node { node_type = 9 };
  lists = λ l.
      if l == 1
      then record {
        head = 10;
        tail = 12;
        len = pos 3;
        range_del_list = [];
        dellock = false;
        next_id = 102;
      }
      else new_list;
}

abbrev pub three_view : Ptr → List Ptr
three_view l = if l == 1 then 10 ∷ 11 ∷ 12 ∷ [] else []

three-IsList : IsList three 1 (10 ∷ 11 ∷ 12 ∷ [])
three-IsList = record {
  chain = (
    record { ne_null = omega arith; pre_eq = refl; next_eq = refl; list_eq = refl },
    (
      record { ne_null = omega arith; pre_eq = refl; next_eq = refl; list_eq = refl },
      (record { ne_null = omega arith; pre_eq = refl; next_eq = refl; list_eq = refl }, tt),
    ),
  );
  distinct = (refl, (refl, (refl, tt)));
  head = refl;
  tail = refl;
  len = refl;
}

three_lists : (l : Ptr) → l ≢ null → IsList three l (three_view l)
three_lists l ne = elim (Bool-cases (l == 1)) [
  | inl e ↦ subst (λ k. IsList three k (three_view k)) (sym (==-eq e)) three-IsList
  | inr e ↦ rw e (record { chain = tt; distinct = tt; head = rw e; tail = rw e; len = rw e })
]

pub three-Refines : Refines three three_view
three-Refines = record { is_list = three_lists; complete = λ n h. ground arith }

program : Unit {0}
unfolding remove_node_locked remove add adopt link_last insert_after insert_before new_like settle
    link_after link_before range range_loop remove_all end_range get get_callback clear clear_loop
    erase ◌+ℤ◌ ◌-ℤ◌
program = tt

-- The nodes of a list, from its head.
follow : ℕ → Store → Ptr → List Ptr
follow zero s p = []
follow (suc k) s p = if p == null then [] else p ∷ follow k s (s.nodes p).next

members : Ptr → Store → List Ptr
members l s = follow 9 s (s.lists l).head

add_moves : members 2 (add 2 11 500 three).1 ≡ 11 ∷ []
unfolding program members follow
add_moves = refl

add-Refines_example :
    ((add 2 11 500 three).0 ≡ true)
    × Refines (add 2 11 500 three).1 (push_back 2 11 (without 11 1 three_view))
add-Refines_example =
    add-Refines three three_view 2 11 500 three-Refines (omega arith) (omega arith) refl

remove-Refines_example : Refines (remove 11 three) (without 11 1 three_view)
remove-Refines_example = remove-Refines three three_view 11 three-Refines refl

can_insert : CanInsert three 11 20
can_insert = record {
  listed = omega arith;
  typed = omega arith;
  ne_null = omega arith;
  free = refl;
}

insert_after-Refines_example :
    ((insert_after 20 11 7 500 three).0 ≡ 20)
    × (((insert_after 20 11 7 500 three).1.nodes 20).value ≡ 7)
    × Refines
        (insert_after 20 11 7 500 three).1
        (update three_view 1 (insert_behind 11 20 (three_view 1)))
insert_after-Refines_example =
    insert_after-Refines three three_view 11 20 7 500 three-Refines can_insert

insert_before-Refines_example :
    ((insert_before 20 11 7 500 three).0 ≡ 20)
    × (((insert_before 20 11 7 500 three).1.nodes 20).value ≡ 7)
    × Refines
        (insert_before 20 11 7 500 three).1
        (update three_view 1 (insert_ahead 11 20 (three_view 1)))
insert_before-Refines_example =
    insert_before-Refines three three_view 11 20 7 500 three-Refines can_insert

insert_before_order : members 1 (insert_before 20 11 7 500 three).1 ≡ 10 ∷ 20 ∷ 11 ∷ 12 ∷ []
unfolding program members follow
insert_before_order = refl

clear-Refines_example : Ends (λ t. Refines t (update three_view 1 [])) (clear 4 1 three)
clear-Refines_example = clear-Refines three three_view 1 4 three-Refines (omega arith) (omega arith)

get-find_node_example :
    (t : Store) × (get 4 1 101 three ≡ some (find_node three.nodes 101 (three_view 1), t))
    × Refines t three_view
get-find_node_example =
    get-find_node three three_view 1 101 4 three-Refines (omega arith) refl (omega arith)

range-remove_if_example :
    (t : Store) × (range 4 1 (remove_if (λ p. p == 11)) tt three ≡ some (tt, t))
    × Refines t (update three_view 1 (reject (λ p. p == 11) (three_view 1)))
range-remove_if_example =
    range-remove_if three three_view 1 4 (λ p. p == 11) three-Refines (omega arith) refl
      (omega arith)

-- A node that is added again while its own list is traversed leaves a cycle behind: the last node is
-- its own successor, and no traversal of the list ends.
abbrev broken : Store
broken = (add 1 12 500 (set_dellock 1 true three)).1

broken_links : (broken.nodes 12).next ≡ 12
unfolding program
broken_links = refl
