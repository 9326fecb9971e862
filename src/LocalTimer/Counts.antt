-- ===== src/LocalTimer/Counts.antt =====
-- GetTimerCount of localtimer/time.go, through AddTimer and through a migration between two wheels.
use touch_go_core.Prelude.{
  ℕ, zero, suc, ◌≤◌, ◌<◌, ◌≡◌, ◌≢◌, refl, sym, ap, ◌∙◌, Bool, true, false, Option, none, some,
  arith, ltb, leb, ◌==◌, if◌then◌else◌, Bool-cases, inl, inr, length,
}
use touch_go_core.Prelude.Int.{ℤ, pos, negsuc, ◌+ℤ◌, ◌-ℤ◌, int_laws}
use touch_go_core.Prelude.Ptr.{Ptr, null, update, ==-eq}
use touch_go_core.LinkedList.{Store}
use touch_go_core.LocalTimer.{
  TimerError, TimerWheel, Timers, to_index, add_timer, get_timer_count, sum_counts, migrate,
  send_timer, remove_from_manager, wheel_num, max_add_timer_channel_num, get_type, manager_closed,
  nil_parent,
}
use touch_go_core.LocalTimer.Wheels.{add_timer_open, remove_from_manager-wheels, registered, bound}

sum_counts-out :
    (n i : ℕ) (f : ℕ → TimerWheel) (w : TimerWheel)
    → n ≤ i
    → sum_counts n (update f i w) ≡ sum_counts n f
unfolding sum_counts
sum_counts-out zero i f w h = refl
sum_counts-out (suc n) i f w h =
    let ne : (i == n) ≡ false = ground arith in rw (ne, sum_counts-out n i f w (omega arith))

-- A wheel that counts `d` more makes the total `d` more.
sum_counts-update :
    (n i : ℕ) (f : ℕ → TimerWheel) (w : TimerWheel) (d : ℤ)
    → i < n
    → w.timer_count ≡ (f i).timer_count +ℤ d
    → sum_counts n (update f i w) ≡ sum_counts n f +ℤ d
unfolding sum_counts
sum_counts-update zero i f w d h e = absurd (omega arith)
sum_counts-update (suc n) i f w d h e = elim (Bool-cases (i == n)) [
  | inl k ↦
      let same : i ≡ n = ==-eq k in
      let at : (f i).timer_count ≡ (f n).timer_count = ap (λ j. (f j).timer_count) same in
      rw (k, sum_counts-out n i f w (omega arith), e, at)
        (shift (sum_counts n f) (f n).timer_count d)
  | inr k ↦
      rw (k, sum_counts-update n i f w d (ground arith) e)
        (swap (sum_counts n f) d (f n).timer_count)
]
  where
    shift : (a b c : ℤ) → a +ℤ (b +ℤ c) ≡ a +ℤ b +ℤ c
    shift a b c = omega int_laws

    swap : (a b c : ℤ) → a +ℤ b +ℤ c ≡ a +ℤ c +ℤ b
    swap a b c = omega int_laws

unfoldable pub counted : Option TimerError → ℤ → ℤ
counted none c = c +ℤ pos 1
counted (some e) c = c

send_timer-count :
    (i : ℕ) (p : Ptr) (m : Timers)
    → i < wheel_num
    → sum_counts wheel_num (send_timer i p m).1.wheels
      ≡ counted (send_timer i p m).0 (sum_counts wheel_num m.wheels)
unfolding send_timer counted
send_timer-count i p m h =
    elim (Bool-cases (ltb (length (m.wheels i).add_timer_chan) max_add_timer_channel_num)) [
      | inl e ↦ rw e (sum_counts-update wheel_num i m.wheels _ (pos 1) h refl)
      | inr e ↦ rw e
    ]

index_bound : (i : ℕ) → leb wheel_num i ≡ false → i < wheel_num
index_bound i h = ground arith

add_timer-opened :
    (p : Ptr) (now : ℤ) (m : Timers) (s : Store)
    → m.is_closed ≡ false
    → (p == null) ≡ false
    → let r = add_timer p now m s in get_timer_count r.1 ≡ counted r.0 (get_timer_count m)
unfolding get_timer_count registered
add_timer-opened p now m s h ne =
    let r = remove_from_manager false p (registered p m) s in
    let i = to_index (get_type (r.0.timers p) now) in
    let whole = λ (q : Option TimerError × Timers × Store). sum_counts wheel_num q.1.wheels in
    let e = add_timer_open p now m s h ne in
    ap whole e
    ∙ send_timer-count i p r.0 (index_bound i (bound (get_type (r.0.timers p) now)))
    ∙ ap (λ w. counted (send_timer i p r.0).0 (sum_counts wheel_num w))
        (remove_from_manager-wheels p (registered p m) s)
    ∙ ap (λ o. counted o (sum_counts wheel_num m.wheels))
        (sym (ap (λ (q : Option TimerError × Timers × Store). q.0) e))

first_branch {ℓ} : {A : Type ℓ} (a : Bool) (x y : A) → a ≡ true → (if a then x else y) ≡ x
first_branch a x y h = rw h

add_timer_closed :
    (p : Ptr) (now : ℤ) (m : Timers) (s : Store)
    → m.is_closed ≡ true
    → add_timer p now m s ≡ (some manager_closed, m, s)
unfolding add_timer
add_timer_closed p now m s h = first_branch _ _ _ h

add_timer-null :
    (p : Ptr) (now : ℤ) (m : Timers) (s : Store)
    → m.is_closed ≡ false
    → (p == null) ≡ true
    → add_timer p now m s ≡ (some nil_parent, m, s)
unfolding add_timer
add_timer-null p now m s h e = rw h (first_branch _ _ _ e)

refused :
    (p : Ptr) (now : ℤ) (m : Timers) (s : Store) (e : TimerError)
    → add_timer p now m s ≡ (some e, m, s)
    → let r = add_timer p now m s in get_timer_count r.1 ≡ counted r.0 (get_timer_count m)
unfolding counted
refused p now m s e h = rw h

-- Whatever an AddTimer meets, the number of timers that GetTimerCount reports grows by one when it
-- gives no error, and stays when it gives one.
pub add_timer-get_timer_count :
    (p : Ptr) (now : ℤ) (m : Timers) (s : Store)
    → let r = add_timer p now m s in get_timer_count r.1 ≡ counted r.0 (get_timer_count m)
add_timer-get_timer_count p now m s = elim (Bool-cases m.is_closed) [
  | inl c ↦ refused p now m s manager_closed (add_timer_closed p now m s c)
  | inr c ↦ elim (Bool-cases (p == null)) [
    | inl e ↦ refused p now m s nil_parent (add_timer-null p now m s c e)
    | inr e ↦ add_timer-opened p now m s c e
  ]
]

plus_zero : (a : ℤ) → a ≡ a +ℤ pos 0
plus_zero a = omega int_laws

minus_one : (a : ℤ) → a -ℤ pos 1 ≡ a +ℤ negsuc 0
minus_one a = omega int_laws

back_again : (a : ℤ) → a +ℤ negsuc 0 +ℤ pos 1 ≡ a
back_again a = omega int_laws

-- The wheels after the timer has left the wheel `i`.
abbrev left_wheel : ℕ → (ℕ → TimerWheel) → ℕ → TimerWheel
left_wheel i f = update f i (record (f i) { timer_count = (f i).timer_count -ℤ pos 1 })

sum_counts-left :
    (i : ℕ) (f : ℕ → TimerWheel)
    → i < wheel_num
    → sum_counts wheel_num (left_wheel i f) ≡ sum_counts wheel_num f +ℤ negsuc 0
sum_counts-left i f h = sum_counts-update wheel_num i f _ (negsuc 0) h (minus_one (f i).timer_count)

-- A migration into a channel with room: GetTimerCount loses one, though the timer still waits for
-- its new wheel. When the channel is full the timer returns and the total stays.
pub migrate-get_timer_count :
    (i j : ℕ) (p : Ptr) (clock : ℕ) (m : Timers) (s : Store)
    → i < wheel_num
    → j < wheel_num
    → i ≢ j
    → get_timer_count (migrate i j p clock m s).0 ≡ (
        if ltb (length (m.wheels j).add_timer_chan) max_add_timer_channel_num
        then get_timer_count m -ℤ pos 1
        else get_timer_count m)
unfolding migrate get_timer_count
migrate-get_timer_count i j p clock m s hi hj ne =
    let apart : (i == j) ≡ false = ground arith in
    let room = ltb (length (m.wheels j).add_timer_chan) max_add_timer_channel_num in
    elim (Bool-cases room) [
      | inl e ↦
          rw (apart, e)
            (sum_counts-update wheel_num j (left_wheel i m.wheels) _ (pos 0) hj
                (rw apart (plus_zero (m.wheels j).timer_count))
              ∙ sym (plus_zero _)
              ∙ sum_counts-left i m.wheels hi
              ∙ sym (minus_one _))
      | inr e ↦
          rw (apart, e)
            (sum_counts-update wheel_num i (left_wheel i m.wheels) _ (pos 1) hi refl
              ∙ ap (λ c. c +ℤ pos 1) (sum_counts-left i m.wheels hi)
              ∙ back_again _)
    ]
