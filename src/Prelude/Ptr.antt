-- ===== src/Prelude/Ptr.antt =====
-- Pointers: a non-nil pointer of the program always refers to an allocated object, so a heap is a
-- total function, and only `null` is special.
use touch_go_core.Prelude.{
  ℕ, ◌≡◌, refl, ◌⊎◌, inl, inr, Bool, true, false, ◌||◌, List, [], ◌∷◌, ◌++◌, arith, ◌==◌,
  if◌then◌else◌, Bool-cases,
}
use mathlib.Core.Path.{fun_ext}
use mathlib.Core.List.{append-nil}

abbrev pub Ptr : Type 0
Ptr = ℕ

abbrev pub null : Ptr
null = 0

abbrev pub update {ℓ} : {A : Type ℓ} → (ℕ → A) → ℕ → A → ℕ → A
update f p v q = if p == q then v else f q

abbrev pub has : ℕ → List ℕ → Bool
has a [] = false
has a (x ∷ xs) = (a == x) || has a xs

abbrev pub Distinct : List ℕ → Type 0
Distinct [] = Unit {0}
Distinct (x ∷ xs) = (has x xs ≡ false) × Distinct xs

-- The first element, and the last one, with a default.
abbrev pub first : List ℕ → ℕ → ℕ
first [] d = d
first (x ∷ xs) d = x

abbrev pub last_of : ℕ → List ℕ → ℕ
last_of d [] = d
last_of d (x ∷ xs) = last_of x xs

-- The list without the first occurrence.
unfoldable pub erase : ℕ → List ℕ → List ℕ
erase a [] = []
erase a (x ∷ xs) = if a == x then xs else x ∷ erase a xs

pub ==-refl : (a : ℕ) → (a == a) ≡ true
==-refl a = ground arith

pub ==-eq : {a b : ℕ} → (a == b) ≡ true → a ≡ b
==-eq h = ground arith

pub ==-swap : (a b : ℕ) → (b == a) ≡ false → (a == b) ≡ false
==-swap a b h = ground arith

pub has-append : (a : ℕ) (xs ys : List ℕ) → has a (xs ++ ys) ≡ (has a xs || has a ys)
has-append a [] ys = refl
has-append a (x ∷ xs) ys = ground (arith, has-append a xs ys)

pub last_of-append : (d x : ℕ) (xs ys : List ℕ) → last_of d (xs ++ x ∷ ys) ≡ last_of x ys
last_of-append d x [] ys = refl
last_of-append d x (y ∷ xs) ys = last_of-append y x xs ys

pub first-append : (d x : ℕ) (xs ys : List ℕ) → first (xs ++ x ∷ ys) d ≡ first xs x
first-append d x [] ys = refl
first-append d x (y ∷ xs) ys = refl

pub has-eq : (a b : ℕ) (xs : List ℕ) → has a xs ≡ false → has b xs ≡ true → (a == b) ≡ false
has-eq a b [] h m = absurd (ground arith)
has-eq a b (x ∷ xs) h m = ground (arith, has-eq a b xs)

pub last_of-member : (x : ℕ) (xs : List ℕ) → has (last_of x xs) (x ∷ xs) ≡ true
last_of-member x [] = ground arith
last_of-member x (y ∷ xs) = ground (arith, last_of-member y xs)

pub last_of_cases : (xs : List ℕ) → (last_of null xs ≡ null) ⊎ (has (last_of null xs) xs ≡ true)
last_of_cases [] = inl refl
last_of_cases (x ∷ xs) = inr (last_of-member x xs)

pub first_cases : (xs : List ℕ) → (first xs null ≡ null) ⊎ (has (first xs null) xs ≡ true)
first_cases [] = inl refl
first_cases (x ∷ xs) = inr (ground arith)

-- In a list with no repetition the first element is not the last one too.
pub ne-last_of : (x y : ℕ) (ys : List ℕ) → Distinct (x ∷ y ∷ ys) → (x == last_of y ys) ≡ false
ne-last_of x y ys d = ground (arith, has-eq x (last_of y ys) (y ∷ ys) d.0 (last_of-member y ys))

-- The ends of a list that loses a middle element.
pub first_without :
    (n : ℕ) (ys zs : List ℕ)
    → ((a : ℕ) → has a ys ≡ true → (a == null) ≡ false)
    → (if last_of null ys == null then first zs null else first (ys ++ n ∷ zs) null)
      ≡ first (ys ++ zs) null
first_without n [] zs h = refl
first_without n (y ∷ ys) zs h = rw (h (last_of y ys) (last_of-member y ys))

pub last_without :
    (n : ℕ) (ys zs : List ℕ)
    → ((a : ℕ) → has a zs ≡ true → (a == null) ≡ false)
    → (if first zs null == null then last_of null ys else last_of null (ys ++ n ∷ zs))
      ≡ last_of null (ys ++ zs)
last_without n ys [] h = rw append-nil
last_without n ys (z ∷ zs) h =
    rw (h z (ground arith), last_of-append null n ys (z ∷ zs), last_of-append null z ys zs)

pub erase-absent : (a : ℕ) (xs : List ℕ) → has a xs ≡ false → erase a xs ≡ xs
unfolding erase
erase-absent a [] h = refl
erase-absent a (x ∷ xs) h = ground (arith, erase-absent a xs)

pub has-erase : (a b : ℕ) (xs : List ℕ) → has a xs ≡ false → has a (erase b xs) ≡ false
unfolding erase
has-erase a b [] h = refl
has-erase a b (x ∷ xs) h = ground (arith, has-erase a b xs)

pub has-erase_ne : (a b : ℕ) (xs : List ℕ) → (a == b) ≡ false → has a (erase b xs) ≡ has a xs
unfolding erase
has-erase_ne a b [] h = refl
has-erase_ne a b (x ∷ xs) h = ground (arith, has-erase_ne a b xs)

-- The empty list, or a list with a last element.
pub snoc_cases : (xs : List ℕ) → (xs ≡ []) ⊎ ((ys : List ℕ) × (y : ℕ) × (xs ≡ ys ++ y ∷ []))
snoc_cases [] = inl refl
snoc_cases (x ∷ xs) = elim (snoc_cases xs) [
  | inl e ↦ inr ([], x, rw e)
  | inr (ys, y, e) ↦ inr (x ∷ ys, y, rw e)
]

-- Where an element stands, and what is left without it.
pub split_at :
    (a : ℕ) (xs : List ℕ)
    → has a xs ≡ true
    → (ys : List ℕ) × (zs : List ℕ) × (xs ≡ ys ++ a ∷ zs) × (erase a xs ≡ ys ++ zs)
unfolding erase
split_at a [] h = absurd (ground arith)
split_at a (x ∷ xs) h = elim (Bool-cases (a == x)) [
  | inl e ↦ ([], xs, ground arith, ground arith)
  | inr e ↦ let (ys, zs, p, q) = split_at a xs (ground arith) in (x ∷ ys, zs, rw p, rw (e, q))
]

-- All of `ds` taken out, one after the other.
unfoldable pub erase_all : List ℕ → List ℕ → List ℕ
erase_all [] xs = xs
erase_all (d ∷ ds) xs = erase_all ds (erase d xs)

pub update_idem {ℓ} : {A : Type ℓ} (f : ℕ → A) (p : ℕ) → update f p (f p) ≡ f
update_idem f p = fun_ext λ q. elim (Bool-cases (p == q)) [ inl e ↦ rw (e, ==-eq e) | inr e ↦ rw e ]

pub update-update {ℓ} :
    {A : Type ℓ} (f : ℕ → A) (p : ℕ) (a b : A) → update (update f p a) p b ≡ update f p b
update-update f p a b = fun_ext λ q. ground arith
