-- ===== src/Ranking/Tests/Shapes.antt =====
-- insert and remove of the skip list at the concrete list of two nodes.
use mathlib.Core.Path.{subst}
use touch_go_core.Prelude.{
  ℕ, zero, suc, ◌<◌, ◌≤◌, [], ◌∷◌, some, ◌==◌, true, ◌≡◌, refl, sym, arith, Bool-cases, inl, inr,
  replicate, get_elem?,
}
use touch_go_core.Prelude.Int.{pos}
use touch_go_core.Prelude.Ptr.{Ptr, null, has, ==-eq}
use touch_go_core.Ranking.{
  SkipList, insert, remove, level_of, goes_before, older, found, skip_list_max_level, zero_level,
}
use touch_go_core.Ranking.Levels.{NodesAt, height}
use touch_go_core.Ranking.Shape.{Shape}
use touch_go_core.Ranking.Raise.{NoneAbove}
use touch_go_core.Ranking.Insert.{insert-Shape, Placed}
use touch_go_core.Ranking.Remove.{remove-Shape, Kept}
use touch_go_core.Ranking.Tests.{two, link, entry, header_links, first_links, last_links}

pub rest_empty : (n i : ℕ) → i < n → get_elem? (replicate n zero_level) i ≡ some (link null 0)
rest_empty zero i h = absurd (omega arith)
rest_empty (suc n) zero h = refl
rest_empty (suc n) (suc i) h = rest_empty n i (omega arith)

empty_above : NoneAbove two 2 skip_list_max_level
unfolding level_of
empty_above zero l h = absurd (omega arith)
empty_above (suc zero) l h = absurd (omega arith)
empty_above (suc (suc j)) l h = (0, rest_empty 30 j (omega (arith, h)))

two_heights : (y : Ptr) → has y (2 ∷ 3 ∷ []) ≡ true → (0 < height two y) × (height two y ≤ 2)
two_heights y m = elim (Bool-cases (y == 2)) [
  | inl e ↦
      subst (λ z. (0 < height two z) × (height two z ≤ 2)) (sym (==-eq e))
        (omega arith, omega arith)
  | inr e ↦ elim (Bool-cases (y == 3)) [
    | inl f ↦
        subst (λ z. (0 < height two z) × (height two z ≤ 2)) (sym (==-eq f))
          (omega arith, omega arith)
    | inr f ↦ absurd (ground (arith, m, e, f))
  ]
]

two_linked : (i : ℕ) → i < 2 → NodesAt two i (1 ∷ 2 ∷ 3 ∷ [])
two_linked zero h = (
  (λ _. header_links 0 (omega arith)),
  ((λ _. first_links 0 (omega arith)), ((λ _. last_links 0 (omega arith)), tt)),
)
two_linked (suc zero) h = (
  (λ _. header_links 1 (omega arith)),
  ((λ t. absurd (ground (arith, t))), ((λ _. last_links 1 (omega arith)), tt)),
)
two_linked (suc (suc i)) h = absurd (omega arith)

pub two-Shape : Shape two (2 ∷ 3 ∷ [])
two-Shape = record {
  bones = record {
    level_min = omega arith;
    level_max = omega arith;
    header_height = refl;
    empty_above = empty_above;
    heights = two_heights;
    alive = refl;
    distinct = (refl, (refl, (refl, tt)));
  };
  linked = two_linked;
  counted = refl;
  size = omega arith;
}

-- A node on three levels between the two.
insert-Shape_example :
    (sl' : SkipList) × (insert 3 14 3 (pos 80) 4 two ≡ some sl')
    × Shape sl' (2 ∷ 14 ∷ 3 ∷ [])
    × Placed two sl' 14 (pos 80) 4
unfolding goes_before older
insert-Shape_example =
    insert-Shape 3 14 3 (pos 80) 4 two (2 ∷ []) (3 ∷ []) two-Shape refl (omega arith) (omega arith)
      (omega arith) (omega arith) (omega arith) (refl, tt) (refl, tt)

-- The node that alone is on the second level.
remove-Shape_example :
    (sl' : SkipList) × (remove 3 (pos 70) (entry 30 70) two ≡ some (true, sl'))
    × Shape sl' (2 ∷ [])
    × Kept two sl'
unfolding goes_before older found
remove-Shape_example =
    remove-Shape 3 (pos 70) (entry 30 70) two 3 (2 ∷ []) [] two-Shape (omega arith) (refl, tt)
      (refl, tt) refl
