-- ===== src/LinkedList/Clear.antt =====
-- Clear of list/list.go.
use touch_go_core.Prelude.{
  ℕ, zero, suc, ◌<◌, ◌≡◌, ◌≢◌, refl, sym, ap, ◌∙◌, false, Option, some, List, [], ◌∷◌, arith, ◌==◌,
  inl, inr, Bool-cases, length,
}
use mathlib.Core.Path.{subst}
use touch_go_core.Prelude.Ptr.{Ptr, null, first, erase, update, update_idem, update-update, ==-refl}
use touch_go_core.LinkedList.{Store, clear_loop, reset_list, clear}
use touch_go_core.LinkedList.Chain.{IsList, Refines}
use touch_go_core.LinkedList.Refinement.{unlink_from-Refines, IsList-frame}

-- What a loop that has ended leaves.
abbrev pub Ends : (Store → Type 0) → Option Store → Type 0
Ends P r = (s : Store) × (r ≡ some s) × P s

module _ (l : Ptr) (list_ne : l ≢ null) where
  clear_loop-Refines :
      (fuel : ℕ) (xs : List Ptr) (s : Store) (view : Ptr → List Ptr)
      → Refines s view
      → view l ≡ xs
      → length xs < fuel
      → Ends (λ t. Refines t (update view l [])) (clear_loop fuel l (first xs null) s)
  unfolding clear_loop erase
  clear_loop-Refines zero xs s view ref e enough = absurd (omega arith)
  clear_loop-Refines (suc k) [] s view ref e enough =
      (s, refl, subst (Refines s) (sym (ap (update view l) (sym e) ∙ update_idem view l)) ref)
  clear_loop-Refines (suc k) (x ∷ xs) s view ref e enough =
      let is = subst (IsList s l) e (ref.is_list l list_ne) in
      let chain = is.chain in
      let ne : (x == null) ≡ false = ground (arith, chain.0.ne_null) in
      let ref' = unlink_from-Refines l x ref list_ne chain.0.list_eq in
      let rest : update view l (erase x (view l)) l ≡ xs = rw (==-refl l, e, erase, ==-refl x) in
      let (t, ends, all_gone) = clear_loop-Refines k xs _ _ ref' rest (omega arith) in
      (t, rw (ne, chain.0.next_eq) ends, subst (Refines t) (update-update view l _ []) all_gone)

reset-Refines :
    (t : Store) (view : Ptr → List Ptr) (l : Ptr)
    → Refines t (update view l [])
    → Refines (reset_list l t) (update view l [])
reset-Refines t view l gone = record { is_list = lists; complete = gone.complete }
  where
    lists : (k : Ptr) → k ≢ null → IsList (reset_list l t) k (update view l [] k)
    lists k ne = elim (Bool-cases (l == k)) [
      | inl e ↦ rw e (record { chain = tt; distinct = tt; head = rw e; tail = rw e; len = rw e })
      | inr e ↦ IsList-frame (gone.is_list k ne) (rw e) (λ a m. refl)
    ]

-- Clear empties the list, leaves the others alone, and ends: a round for each node is enough.
pub clear-Refines :
    (s : Store) (view : Ptr → List Ptr) (l : Ptr) (fuel : ℕ)
    → Refines s view
    → l ≢ null
    → length (view l) < fuel
    → Ends (λ t. Refines t (update view l [])) (clear fuel l s)
unfolding clear
clear-Refines s view l fuel ref ne enough =
    let (t, ends, gone) = clear_loop-Refines l ne fuel (view l) s view ref refl enough in
    (reset_list l t, rw ((ref.is_list l ne).head, ends), reset-Refines t view l gone)
