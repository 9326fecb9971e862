-- ===== src/LocalTimer/Wheels.antt =====
-- The wheels of localtimer/time.go: which wheel an interval belongs to, AddTimer, Close and the
-- counts.
use touch_go_core.Prelude.{
  ℕ, zero, suc, ◌≤◌, if◌then◌else◌, ◌<◌, ◌≡◌, ◌≢◌, refl, ap, ◌∙◌, Bool, true, false, Option, some,
  arith, ltb, leb, ◌==◌, Bool-cases, inl, inr, length,
}
use touch_go_core.Prelude.Int.{ℤ, pos, ◌+ℤ◌, ltb_ℤ, ◌≤ℤ◌}
use touch_go_core.Prelude.Ptr.{Ptr, null, ==-refl}
use touch_go_core.LinkedList.{Store}
use touch_go_core.LocalTimer.{
  Timer, TimerError, TimerType, Timers, to_index, type_of_interval, wheel_config_of, close,
  TimerWheel, close_wheel, close_wheels, put_wheel, add_timer, handle_timer_add, send_timer,
  remove_from_manager, manager_closed, get_type, millisecond, second, minute, ten_minute, hour,
  wheel_num, max_add_timer_channel_num, put_timer, manager,
}

-- An interval belongs to the coarsest wheel that is not longer than it: it is at least the wheel's
-- period, except on the first wheel, and less than the period of the next one.
pub type_of_interval-wheel_config_of :
    (v : ℤ)
    → let i = to_index (type_of_interval v) in
      (0 < i → pos (wheel_config_of i) ≤ℤ v)
      × (i < 4 → ltb_ℤ v (pos (wheel_config_of (suc i))) ≡ true)
unfolding type_of_interval wheel_config_of to_index
type_of_interval-wheel_config_of v = ground arith

pub bound : (c : TimerType) → leb wheel_num (to_index c) ≡ false
unfolding to_index
bound millisecond = refl
bound second = refl
bound minute = refl
bound ten_minute = refl
bound hour = refl

get_type-bound : (t : Timer) (now : ℤ) → leb wheel_num (to_index (get_type t now)) ≡ false
get_type-bound t now = bound (get_type t now)

-- A wheel that has stopped, with its channel closed.
abbrev pub Stopped : TimerWheel → Type 0
Stopped w = (w.is_running ≡ false) × (w.add_timer_chan_closed ≡ true)

close_wheel_run :
    (i : ℕ) (m : Timers)
    → (m.wheels i).add_timer_chan_closed ≡ false
    → close_wheel i m
      ≡ some
          (put_wheel i (record (m.wheels i) { is_running = false; add_timer_chan_closed = true }) m)
unfolding close_wheel
close_wheel_run i m h = rw h refl

-- The loop closes the first n wheels and no other.
close_wheels-Stopped :
    (n : ℕ) (m : Timers)
    → ((i : ℕ) → i < n → (m.wheels i).add_timer_chan_closed ≡ false)
    → (m' : Timers) × (close_wheels n m ≡ some m')
      × (m'.is_closed ≡ m.is_closed)
      × ((i : ℕ) → i < n → Stopped (m'.wheels i))
      × ((i : ℕ) → n ≤ i → m'.wheels i ≡ m.wheels i)
unfolding close_wheels
close_wheels-Stopped zero m h = (m, refl, refl, λ i k. absurd (omega arith), λ i k. refl)
close_wheels-Stopped (suc n) m h =
    let (m1, run, flag, stopped, others) = close_wheels-Stopped n m (λ i k. h i (omega arith)) in
    let w : TimerWheel = record (m1.wheels n) {
      is_running = false;
      add_timer_chan_closed = true;
    } in
    let open_n : (m1.wheels n).add_timer_chan_closed ≡ false =
      ap (λ (v : TimerWheel). v.add_timer_chan_closed) (others n (omega arith))
      ∙ h n (omega arith) in
    (
      put_wheel n w m1,
      rw run (close_wheel_run n m1 open_n),
      flag,
      λ i k. elim (Bool-cases (n == i)) [
        | inl e ↦ rw e (refl, refl)
        | inr e ↦ rw e (stopped i (ground arith))
      ],
      λ i k. let apart : (n == i) ≡ false = ground arith in rw apart (others i (omega arith)),
    )

-- Close of an open manager whose channels are open ends without a panic and leaves every wheel
-- stopped and its channel closed. A second Close does not panic and changes nothing, and AddTimer
-- then fails with the manager's error and changes nothing.
pub close-add_timer :
    (m : Timers) (s : Store) (p : Ptr) (now : ℤ)
    → m.is_closed ≡ false
    → m.close_chan_closed ≡ false
    → ((i : ℕ) → i < wheel_num → (m.wheels i).add_timer_chan_closed ≡ false)
    → (m' : Timers) × (close m ≡ some m')
      × (close m' ≡ some m')
      × (add_timer p now m' s ≡ (some manager_closed, m', s))
      × ((i : ℕ) → i < wheel_num → Stopped (m'.wheels i))
unfolding close add_timer
close-add_timer m s p now h free wheels_open =
    let closing = record m { is_closed = true; close_chan_closed = true } in
    let (m', run, flag, stopped, others) = close_wheels-Stopped wheel_num closing wheels_open in
    (m', rw (h, free) run, rw flag refl, rw flag refl, stopped)

remove_from_manager-is_active :
    (p : Ptr) (m : Timers) (s : Store)
    → ((remove_from_manager false p m s).0.timers p).is_active ≡ false
unfolding remove_from_manager
remove_from_manager-is_active p m s = elim (Bool-cases ((m.timers p).is_active)) [
  | inl e ↦ rw (e, ==-refl p)
  | inr e ↦ rw (e, e)
]

pub remove_from_manager-wheels :
    (p : Ptr) (m : Timers) (s : Store) → (remove_from_manager false p m s).0.wheels ≡ m.wheels
unfolding remove_from_manager
remove_from_manager-wheels p m s = elim (Bool-cases ((m.timers p).is_active)) [
  | inl e ↦ rw e
  | inr e ↦ rw e
]

send_timer-timers : (i : ℕ) (p : Ptr) (m : Timers) → (send_timer i p m).1.timers ≡ m.timers
unfolding send_timer
send_timer-timers i p m =
    elim (Bool-cases (ltb (length (m.wheels i).add_timer_chan) max_add_timer_channel_num)) [
      | inl e ↦ rw e
      | inr e ↦ rw e
    ]

past {ℓ} :
    {A : Type ℓ} (a b c : Bool) (x y z w : A)
    → a ≡ false
    → b ≡ false
    → c ≡ false
    → (if a then x else if b then y else if c then z else w) ≡ w
past a b c x y z w p q r = rw (p, q, r)

-- The part of `add_timer` behind its guards.
unfoldable pub registered : Ptr → Timers → Timers
registered p m =
    let uid = m.max_timer_uid +ℤ pos 1 in
    put_timer p (record (m.timers p) { uid = uid; mgr = manager })
      (record m { max_timer_uid = uid })

pub add_timer_open :
    (p : Ptr) (now : ℤ) (m : Timers) (s : Store)
    → m.is_closed ≡ false
    → (p == null) ≡ false
    → let r = remove_from_manager false p (registered p m) s in
      let q = send_timer (to_index (get_type (r.0.timers p) now)) p r.0 in
      add_timer p now m s ≡ (q.0, q.1, r.1)
unfolding add_timer registered
add_timer_open p now m s h ne = past _ _ _ _ _ _ _ h ne (get_type-bound _ now)

-- The two outcomes of an AddTimer of an open manager, by the room in the wheel's channel.
add_timer_inactive :
    (p : Ptr) (now : ℤ) (m : Timers) (s : Store)
    → m.is_closed ≡ false
    → (p == null) ≡ false
    → ((add_timer p now m s).1.timers p).is_active ≡ false
add_timer_inactive p now m s h ne =
    ap (λ (r : Option TimerError × Timers × Store). (r.1.timers p).is_active)
      (add_timer_open p now m s h ne)
    ∙ ap (λ (f : Ptr → Timer). (f p).is_active) (send_timer-timers _ p _)
    ∙ remove_from_manager-is_active p (registered p m) s

handle_timer_add_inactive :
    (i : ℕ) (p : Ptr) (clock : ℕ) (m : Timers) (s : Store)
    → (m.timers p).is_active ≡ false
    → handle_timer_add i p clock m s ≡ (m, s)
unfolding handle_timer_add
handle_timer_add_inactive i p clock m s h = ground arith

-- An AddTimer of an open manager leaves the timer inactive, so that the wheel that takes it from the
-- channel drops it: no wheel ever links the timer, whichever wheel looks and at whatever time.
pub add_timer-handle_timer_add :
    (p : Ptr) (now : ℤ) (m : Timers) (s : Store)
    → m.is_closed ≡ false
    → p ≢ null
    → (i clock : ℕ) → let r = add_timer p now m s in handle_timer_add i p clock r.1 r.2 ≡ (r.1, r.2)
add_timer-handle_timer_add p now m s h ne i clock =
    let r = add_timer p now m s in
    handle_timer_add_inactive i p clock r.1 r.2 (add_timer_inactive p now m s h (ground arith))
