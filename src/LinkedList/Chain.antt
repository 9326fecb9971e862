-- ===== src/LinkedList/Chain.antt =====
-- What a list stands for: the sequence of its nodes.
use touch_go_core.Prelude.{
  ℕ, ◌≡◌, ◌≢◌, inl, inr, true, false, List, [], ◌∷◌, ◌++◌, arith, ◌==◌, if◌then◌else◌, Bool-cases,
  length, ◌↔◌,
}
use mathlib.Core.List.{append-nil}
use touch_go_core.Prelude.Int.{pos}
use touch_go_core.Prelude.Ptr.{
  Ptr, null, has, Distinct, first, last_of, has-append, ne-last_of, first_cases, last_of_cases,
  has-eq, ==-swap,
}
use touch_go_core.LinkedList.{ListNode, Store}

-- A node of the list `l` between its two neighbours.
pub record Sits (nodes : Ptr → ListNode) (l pre x next : Ptr) : Type 0 where
  pub ne_null : x ≢ null
  pub pre_eq : (nodes x).pre ≡ pre
  pub next_eq : (nodes x).next ≡ next
  pub list_eq : (nodes x).list ≡ l

-- The nodes `xs` of the list `l`, linked both ways, behind `pre` and in front of `next`.
abbrev pub Seg : (Ptr → ListNode) → Ptr → Ptr → List Ptr → Ptr → Type 0
Seg nodes l pre [] next = Unit {0}
Seg nodes l pre (x ∷ xs) next = Sits nodes l pre x (first xs next) × Seg nodes l x xs next

pub Sits-cong :
    {nodes nodes' : Ptr → ListNode} {l pre x next : Ptr}
    → Sits nodes l pre x next
    → nodes' x ≡ nodes x
    → Sits nodes' l pre x next
Sits-cong h e = record {
  ne_null = h.ne_null;
  pre_eq = rw e h.pre_eq;
  next_eq = rw e h.next_eq;
  list_eq = rw e h.list_eq;
}

module _ (nodes : Ptr → ListNode) (l : Ptr) where
  pub Seg-append :
      (pre : Ptr) (xs : List Ptr) (y : Ptr) (ys : List Ptr) (next : Ptr)
      → Seg nodes l pre xs y
      → Seg nodes l (last_of pre xs) (y ∷ ys) next
      → Seg nodes l pre (xs ++ y ∷ ys) next
  Seg-append pre [] y ys next h k = k
  Seg-append pre (x ∷ []) y ys next h k = (h.0, k)
  Seg-append pre (x ∷ x' ∷ xs) y ys next h k = (h.0, Seg-append x (x' ∷ xs) y ys next h.1 k)

  pub Seg-split :
      (pre : Ptr) (xs : List Ptr) (y : Ptr) (ys : List Ptr) (next : Ptr)
      → Seg nodes l pre (xs ++ y ∷ ys) next
      → Seg nodes l pre xs y × Seg nodes l (last_of pre xs) (y ∷ ys) next
  Seg-split pre [] y ys next h = (tt, h)
  Seg-split pre (x ∷ []) y ys next h = ((h.0, tt), h.1)
  Seg-split pre (x ∷ x' ∷ xs) y ys next h =
      let (a, b) = Seg-split x (x' ∷ xs) y ys next h.1 in ((h.0, a), b)

  pub Seg-join :
      (pre : Ptr) (xs ys : List Ptr) (next : Ptr)
      → Seg nodes l pre xs (first ys next)
      → Seg nodes l (last_of pre xs) ys next
      → Seg nodes l pre (xs ++ ys) next
  Seg-join pre xs [] next h k = rw append-nil h
  Seg-join pre xs (y ∷ ys) next h k = Seg-append pre xs y ys next h k

  pub Seg-cut :
      (pre : Ptr) (xs ys : List Ptr) (next : Ptr)
      → Seg nodes l pre (xs ++ ys) next
      → Seg nodes l pre xs (first ys next) × Seg nodes l (last_of pre xs) ys next
  Seg-cut pre [] ys next h = (tt, h)
  Seg-cut pre (x ∷ []) [] next h = (h, tt)
  Seg-cut pre (x ∷ []) (y ∷ ys) next h = ((h.0, tt), h.1)
  Seg-cut pre (x ∷ x' ∷ xs) ys next h =
      let (a, b) = Seg-cut x (x' ∷ xs) ys next h.1 in ((h.0, a), b)

  -- A member of the list is a node that names it.
  pub Seg-member :
      (pre next a : Ptr) (xs : List Ptr)
      → Seg nodes l pre xs next
      → has a xs ≡ true
      → (a ≢ null) × ((nodes a).list ≡ l)
  Seg-member pre next a [] h m = absurd (ground arith)
  Seg-member pre next a (x ∷ xs) h m = elim (Bool-cases (a == x)) [
    | inl e ↦ ground arith
    | inr e ↦ Seg-member x next a xs h.1 (ground arith)
  ]

  -- The chain survives a change that spares its nodes.
  pub Seg-frame :
      (nodes' : Ptr → ListNode) (pre next : Ptr) (xs : List Ptr)
      → Seg nodes l pre xs next
      → ((a : Ptr) → has a xs ≡ true → nodes' a ≡ nodes a)
      → Seg nodes' l pre xs next
  Seg-frame nodes' pre next [] h same = tt
  Seg-frame nodes' pre next (x ∷ xs) h same = (
    Sits-cong h.0 (same x (ground arith)),
    Seg-frame nodes' x next xs h.1 (λ a m. same a (ground arith)),
  )

  -- The last node is given another successor.
  pub Seg-set_next :
      (nodes' : Ptr → ListNode) (pre old next : Ptr) (xs : List Ptr)
      → Distinct xs
      → Seg nodes l pre xs old
      → ((a : Ptr)
          → has a xs ≡ true
          → nodes' a ≡ (if a == last_of null xs then record (nodes a) { next = next } else nodes a))
      → Seg nodes' l pre xs next
  Seg-set_next nodes' pre old next [] d h same = tt
  Seg-set_next nodes' pre old next (x ∷ []) d h same = (
    record {
      ne_null = h.0.ne_null;
      pre_eq = ground (arith, same x);
      next_eq = ground (arith, same x);
      list_eq = ground (arith, same x);
    },
    tt,
  )
  Seg-set_next nodes' pre old next (x ∷ x' ∷ xs) d h same = (
    Sits-cong h.0 (rw (ne-last_of x x' xs d) at (same x (ground arith))),
    Seg-set_next nodes' x old next (x' ∷ xs) d.1 h.1 (λ a m. same a (ground arith)),
  )

  -- The first node is given another predecessor.
  pub Seg-set_pre :
      (nodes' : Ptr → ListNode) (old pre next : Ptr) (xs : List Ptr)
      → Distinct xs
      → Seg nodes l old xs next
      → ((a : Ptr)
          → has a xs ≡ true
          → nodes' a ≡ (if a == first xs null then record (nodes a) { pre = pre } else nodes a))
      → Seg nodes' l pre xs next
  Seg-set_pre nodes' old pre next [] d h same = tt
  Seg-set_pre nodes' old pre next (x ∷ xs) d h same = (
    record {
      ne_null = h.0.ne_null;
      pre_eq = ground (arith, same x);
      next_eq = ground (arith, same x, h.0.next_eq);
      list_eq = ground (arith, same x, h.0.list_eq);
    },
    Seg-frame nodes' x next xs h.1 (λ a m. ground (arith, same a)),
  )

pub record IsList (s : Store) (l : Ptr) (xs : List Ptr) : Type 0 where
  pub chain : Seg s.nodes l null xs null
  pub distinct : Distinct xs
  pub head : (s.lists l).head ≡ first xs null
  pub tail : (s.lists l).tail ≡ last_of null xs
  pub len : (s.lists l).len ≡ pos (length xs)

-- Every list of the store stands for a sequence, and every node that names a list is in it.
pub record Refines (s : Store) (view : Ptr → List Ptr) : Type 0 where
  pub is_list : (l : Ptr) → l ≢ null → IsList s l (view l)
  pub complete : (n : Ptr) → (s.nodes n).list ≢ null → has n (view (s.nodes n).list) ≡ true

pub Distinct-append :
    (xs ys : List ℕ)
    → Distinct (xs ++ ys)
      ↔ (Distinct xs × Distinct ys × ((a : ℕ) → has a xs ≡ true → has a ys ≡ false))
Distinct-append [] ys = (λ h. (tt, h, λ a m. absurd (ground arith)), λ h. h.1)
Distinct-append (x ∷ xs) ys = (
  λ (h, k).
      let (d, e, f) = (Distinct-append xs ys).0 k in
      ((ground (arith, has-append x xs ys), d), e, λ a m. ground (arith, has-append x xs ys, f a)),
  λ ((h, k), e, f). (
    ground (arith, has-append x xs ys, f x),
    (Distinct-append xs ys).1 (k, e, λ a m. f a (ground arith)),
  ),
)

-- A member in front of the cut is not the first behind it, and the other way round.
pub ne-first :
    (a : ℕ) (us ws : List ℕ)
    → Distinct (us ++ ws)
    → has a us ≡ true
    → (a == null) ≡ false
    → (a == first ws null) ≡ false
ne-first a us ws d m h = elim (first_cases ws) [
  | inl e ↦ rw e h
  | inr k ↦ has-eq a _ ws (((Distinct-append us ws).0 d).2 a m) k
]

pub ne-last :
    (a : ℕ) (us ws : List ℕ)
    → Distinct (us ++ ws)
    → has a ws ≡ true
    → (a == null) ≡ false
    → (a == last_of null us) ≡ false
ne-last a us ws d m h = elim (last_of_cases us) [
  | inl e ↦ rw e h
  | inr k ↦ ==-swap a _ (has-eq _ a ws (((Distinct-append us ws).0 d).2 _ k) m)
]
