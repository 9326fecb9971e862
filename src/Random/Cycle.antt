-- ===== src/Random/Cycle.antt =====
-- Why x ↦ 5 x + 5 runs through all remainders by a power of two, as random/random2.go uses it.
use mathlib.Core.Path.{subst}
use native.Mathlib.Nat.{pow-suc}
use touch_go_core.Prelude.{
  ℕ, zero, suc, ◌+◌, ◌*◌, ◌^◌, ◌<◌, ◌≡◌, ◌⊎◌, inl, inr, sym, ap, ◌∙◌, arith,
}

abbrev pub grow : ℕ → ℕ
grow x = x * 5 + 5

abbrev pub iter : ℕ → ℕ → ℕ
iter zero x = x
iter (suc n) x = grow (iter n x)

iter-add : (m n x : ℕ) → iter (m + n) x ≡ iter m (iter n x)
iter-add zero n x = let e : zero + n ≡ n = omega arith in ap (λ k. iter k x) e
iter-add (suc m) n x =
    let e : suc m + n ≡ suc (m + n) = omega arith in ap (λ k. iter k x) e ∙ ap grow (iter-add m n x)

-- 2 ^ k steps add an odd multiple of 2 ^ k, and a multiple of 4 of it that depends on `x`.
abbrev Jump : ℕ → Type 0
Jump p = (a : ℕ) × (c : ℕ) × ((x : ℕ) → iter p x ≡ x + p * (4 * a * x + 2 * c + 1))

Jump-twice : (p : ℕ) → Jump p → Jump (p + p)
Jump-twice p (a, c, h) = (
  a + 2 * a * a * p,
  c + a * p * (2 * c + 1),
  λ x.
      iter-add p p x ∙ h (iter p x) ∙ ap (λ y. y + p * (4 * a * y + 2 * c + 1)) (h x) ∙ omega arith,
)

jump : (k : ℕ) → Jump (2 ^ k)
jump zero = (1, 2, λ x. omega arith)
jump (suc k) = subst Jump (omega (arith, pow-suc 2 k)) (Jump-twice (2 ^ k) (jump k))

-- The same remainder by `p`.
abbrev pub Same : ℕ → ℕ → ℕ → Type 0
Same p z y = (s : ℕ) × (t : ℕ) × (z + s * p ≡ y + t * p)

half_cases : (n : ℕ) → ((m : ℕ) × (n ≡ m + m)) ⊎ ((m : ℕ) × (n ≡ suc (m + m)))
half_cases zero = inl (0, omega arith)
half_cases (suc n) = elim (half_cases n) [
  | inl (m, e) ↦ inr (m, omega (arith, e))
  | inr (m, e) ↦ inl (suc m, omega (arith, e))
]

-- Every remainder is reached, in fewer steps than there are remainders.
abbrev Reaches : ℕ → Type 0
Reaches p = (x y : ℕ) → (n : ℕ) × (n < p) × Same p (iter n x) y

Reaches-twice : (p : ℕ) → Jump p → Reaches p → Reaches (p + p)
Reaches-twice p (a, c, h) reach x y =
    let (n, small, (s, t, e)) = reach x y in by_halves n small s t e (half_cases s) (half_cases t)
  where
    -- With one jump more.
    further : (n : ℕ) → iter (p + n) x ≡ iter n x + p * (4 * a * iter n x + 2 * c + 1)
    further n = iter-add p n x ∙ h (iter n x)

    Half : ℕ → Type 0
    Half s = ((m : ℕ) × (s ≡ m + m)) ⊎ ((m : ℕ) × (s ≡ suc (m + m)))

    by_halves :
        (n : ℕ)
        → n < p
        → (s t : ℕ) → iter n x + s * p ≡ y + t * p
        → Half s
        → Half t
        → (n : ℕ) × (n < p + p) × Same (p + p) (iter n x) y
    by_halves n small s t e (inl (m, u)) (inl (k, v)) =
        let e' = sym (ap (λ w. iter n x + w * p) u) ∙ e ∙ ap (λ w. y + w * p) v in
        (n, omega (arith, small), (m, k, omega (arith, e')))
    by_halves n small s t e (inr (m, u)) (inr (k, v)) =
        let e' = sym (ap (λ w. iter n x + w * p) u) ∙ e ∙ ap (λ w. y + w * p) v in
        (n, omega (arith, small), (suc m, suc k, omega (arith, e')))
    by_halves n small s t e (inl (m, u)) (inr (k, v)) =
        let e' = sym (ap (λ w. iter n x + w * p) u) ∙ e ∙ ap (λ w. y + w * p) v in
        (
          p + n,
          omega (arith, small),
          (m, k + 2 * a * iter n x + c + 1, omega (arith, e', further n)),
        )
    by_halves n small s t e (inr (m, u)) (inl (k, v)) =
        let e' = sym (ap (λ w. iter n x + w * p) u) ∙ e ∙ ap (λ w. y + w * p) v in
        (
          p + n,
          omega (arith, small),
          (suc m, k + 2 * a * iter n x + c + 1, omega (arith, e', further n)),
        )

pub reaches : (k : ℕ) → Reaches (2 ^ k)
reaches zero = λ x y. (0, omega arith, (y, x, omega arith))
reaches (suc k) =
    subst Reaches (omega (arith, pow-suc 2 k)) (Reaches-twice (2 ^ k) (jump k) (reaches k))
