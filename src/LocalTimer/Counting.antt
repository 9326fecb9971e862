-- ===== src/LocalTimer/Counting.antt =====
-- HasNext, Init, SetCount and GetRemainingCount of localtimer/time.go: how often a timer runs.
use touch_go_core.Prelude.{
  ℕ, zero, suc, ◌-◌, ◌≤◌, ◌<◌, ◌^◌, ◌≡◌, ◌≢◌, refl, ap, ◌∙◌, ◌||◌, true, false, arith,
  if◌then◌else◌, Bool-cases, inl, inr,
}
use touch_go_core.Prelude.Int.{
  ℤ, pos, negsuc, ◌+ℤ◌, ◌-ℤ◌, ltb_ℤ, eq_ℤ, ◌≤ℤ◌, pos_part, neg_part, wrap_64,
}
use touch_go_core.Prelude.Ptr.{Ptr}
use touch_go_core.LocalTimer.{
  Timer, init, count_down, has_next, set_count, get_remaining_count, infinite_count,
  count_correction_value,
}

-- The times of `clock`, one for each execution.
unfoldable pub turns : ℕ → (ℕ → ℤ) → Timer → ℕ
turns zero clock t = 0
turns (suc k) clock t =
    let r = has_next t (clock k) in let rest = turns k clock r.1 in if r.0 then suc rest else 0

count_down_pos : (n : ℕ) → suc n < 2 ^ 63 → count_down (pos (suc (suc n))) ≡ (pos (suc n), true)
unfolding count_down ◌-ℤ◌ ◌+ℤ◌ wrap_64
count_down_pos n h = ground arith

count_down_last :
    (c : ℤ)
    → c ≤ℤ pos 1
    → neg_part c < 2 ^ 63
    → c ≢ count_correction_value
    → (count_down c).1 ≡ false
unfolding count_down ◌-ℤ◌ ◌+ℤ◌ wrap_64
count_down_last c h fits ne = ground arith

has_next_some :
    (t : Timer) (now : ℤ) (left : ℤ)
    → t.is_active ≡ true
    → count_down t.count ≡ (left, true)
    → has_next t now ≡ (true, record t { count = left; next_time = wrap_64 (now +ℤ t.interval) })
unfolding has_next
has_next_some t now left a e = rw (a, e)

has_next_none : (t : Timer) (now : ℤ) → (count_down t.count).1 ≡ false → (has_next t now).0 ≡ false
unfolding has_next
has_next_none t now e = elim (Bool-cases (t.is_active)) [ inl a ↦ rw (a, e) | inr a ↦ rw a ]

-- An active timer with a positive count n runs n - 1 more times after the present one: HasNext says
-- yes exactly n - 1 times, and then no, whatever the clock says.
pub turns-count :
    (n fuel : ℕ) (clock : ℕ → ℤ) (t : Timer)
    → t.is_active ≡ true
    → t.count ≡ pos (suc n)
    → suc n < 2 ^ 63
    → n < fuel
    → turns fuel clock t ≡ n
unfolding turns
turns-count n zero clock t a c fits h = absurd (omega arith)
turns-count zero (suc k) clock t a c fits h = rw (
    has_next_none t (clock k) (
      ap (λ v. (count_down v).1) c
      ∙ count_down_last (pos 1) (omega arith) (omega arith) (λ e. ground arith)))
turns-count (suc n) (suc k) clock t a c fits h =
    let e =
      has_next_some t (clock k) (pos (suc n)) a
        (ap count_down c ∙ count_down_pos n (omega arith)) in
    rw (
      e,
      turns-count n k clock
          (record t { count = pos (suc n); next_time = wrap_64 (clock k +ℤ t.interval) }) a refl
          (omega arith) (omega arith),
    )

count_down_infinite : count_down count_correction_value ≡ (count_correction_value, true)
unfolding count_down
count_down_infinite = refl

turns-infinite :
    (fuel : ℕ) (clock : ℕ → ℤ) (t : Timer)
    → t.is_active ≡ true
    → t.count ≡ count_correction_value
    → turns fuel clock t ≡ fuel
unfolding turns
turns-infinite zero clock t a c = refl
turns-infinite (suc k) clock t a c =
    let e =
      has_next_some t (clock k) count_correction_value a (ap count_down c ∙ count_down_infinite) in
    rw (
      e,
      turns-infinite k clock
          (record t { count = count_correction_value; next_time = wrap_64 (clock k +ℤ t.interval) })
          a refl,
    )

turns-none :
    (fuel : ℕ) (clock : ℕ → ℤ) (t : Timer)
    → t.count ≤ℤ pos 1
    → neg_part t.count < 2 ^ 63
    → t.count ≢ count_correction_value
    → turns fuel clock t ≡ 0
unfolding turns
turns-none zero clock t c fits ne = refl
turns-none (suc k) clock t c fits ne =
    rw (has_next_none t (clock k) (count_down_last t.count c fits ne))

-- How often HasNext says yes before it says no, for at most `fuel` calls. -1, and its representation,
-- are no limit.
unfoldable pub promised : ℕ → ℤ → ℕ
promised fuel c =
    if eq_ℤ c infinite_count || eq_ℤ c count_correction_value then fuel else pos_part c - 1

init_ok :
    (t : Timer) (interval count : ℤ) (self : Ptr) (now : ℤ)
    → ltb_ℤ (pos 0) interval ≡ true
    → ((init t interval count self now).1.is_active ≡ true)
      × ((init t interval count self now).1.count
          ≡ (if eq_ℤ count infinite_count then count_correction_value else count))
unfolding init
init_ok t interval count self now h = rw h (refl, refl)

-- After an Init that succeeds with a positive count n of 64 bits, HasNext says yes n - 1 times, and the
-- next time no, whatever the clock says. With -1 or -999999 it says yes each time. With 0 or another
-- negative count, the least number of 64 bits apart, the first HasNext says no.
pub turns-init :
    (t : Timer) (interval count : ℤ) (self : Ptr) (now : ℤ) (fuel : ℕ) (clock : ℕ → ℤ)
    → ltb_ℤ (pos 0) interval ≡ true
    → pos_part count < 2 ^ 63
    → neg_part count < 2 ^ 63
    → pos_part count ≤ fuel
    → 0 < fuel
    → turns fuel clock (init t interval count self now).1 ≡ promised fuel count
unfolding promised
turns-init t interval count self now fuel clock h below above enough some_fuel =
    let t' = (init t interval count self now).1 in
    let (a, c) = init_ok t interval count self now h in
    elim (Bool-cases (eq_ℤ count infinite_count)) [
      | inl e ↦ rw e (turns-infinite fuel clock t' a (c ∙ rw e))
      | inr e ↦ elim (Bool-cases (eq_ℤ count count_correction_value)) [
        | inl k ↦ rw (e, k) (turns-infinite fuel clock t' a (c ∙ rw e (ground arith)))
        | inr k ↦ rw (e, k) (by_sign count t' e k a (c ∙ rw e) below above enough)
      ]
    ]
  where
    by_sign :
        (count : ℤ) (t' : Timer)
        → eq_ℤ count infinite_count ≡ false
        → eq_ℤ count count_correction_value ≡ false
        → t'.is_active ≡ true
        → t'.count ≡ count
        → pos_part count < 2 ^ 63
        → neg_part count < 2 ^ 63
        → pos_part count ≤ fuel
        → turns fuel clock t' ≡ pos_part count - 1
    by_sign (pos (suc n)) t' e k a c below above enough =
        turns-count n fuel clock t' a c below (omega arith) ∙ omega arith
    by_sign (pos zero) t' e k a c below above enough =
        turns-none fuel clock t' (rw c (omega arith)) (rw c (omega arith)) (λ u. ground arith)
    by_sign (negsuc n) t' e k a c below above enough =
        turns-none fuel clock t' (rw c (omega arith)) (rw c (omega arith)) (λ u. ground arith)

-- GetRemainingCount gives back the count of a successful Init, and that of a SetCount on the timer.
pub get_remaining_count-init :
    (t : Timer) (interval count later : ℤ) (self : Ptr) (now : ℤ)
    → ltb_ℤ (pos 0) interval ≡ true
    → count ≢ count_correction_value
    → later ≢ count_correction_value
    → (get_remaining_count (init t interval count self now).1 ≡ count)
      × (get_remaining_count (set_count (init t interval count self now).1 later) ≡ later)
unfolding get_remaining_count set_count
get_remaining_count-init t interval count later self now h ne ne' =
    let (a, c) = init_ok t interval count self now h in
    (rw c (decoded count ne), rw a (decoded later ne'))
  where
    decoded :
        (c : ℤ)
        → c ≢ count_correction_value
        → (if eq_ℤ
              (if eq_ℤ c infinite_count then count_correction_value else c)
              count_correction_value
            then infinite_count
            else if eq_ℤ c infinite_count
            then count_correction_value
            else c)
          ≡ c
    decoded c ne = ground arith
