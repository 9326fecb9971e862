-- ===== src/LocalTimer/Tests.antt =====
-- Concrete timers and managers, and the theorems at them.
use touch_go_core.Prelude.{
  ℕ, suc, ◌≡◌, refl, true, some, [], ◌==◌, if◌then◌else◌, ◌<◌, ltb, arith, length, ◌++◌,
}
use touch_go_core.Prelude.Int.{pos, negsuc, ◌-ℤ◌, ◌≤ℤ◌, ltb_ℤ}
use touch_go_core.Prelude.Ptr.{Ptr, null, update}
use touch_go_core.LinkedList.{Store}
use touch_go_core.LinkedList.Chain.{Refines}
use touch_go_core.LinkedList.Removal.{select, reject}
use touch_go_core.LinkedList.Tests.{three, three_view, three-Refines}
use touch_go_core.LocalTimer.{
  Timer, Timers, Tick, new_timer_manager, init, add_timer, handle_timer_add, close, get_timer_count,
  migrate, process_wheel_tick, manager_closed, type_of_interval, to_index, wheel_config_of,
  set_count, get_remaining_count, to_index, max_add_timer_channel_num, wheel_num,
}
use touch_go_core.LocalTimer.Counting.{turns, promised, turns-init, get_remaining_count-init}
use touch_go_core.LocalTimer.Wheels.{
  type_of_interval-wheel_config_of, Stopped, close-add_timer, add_timer-handle_timer_add,
}
use touch_go_core.LocalTimer.Counts.{counted, add_timer-get_timer_count, migrate-get_timer_count}
use touch_go_core.LocalTimer.Ticks.{due, leaves, sends, process_wheel_tick-Refines}

abbrev timer_at : (next_time : ℕ) → (active : ℕ) → Timer
timer_at next_time active = record {
  uid = pos 0;
  next_time = pos next_time;
  interval = pos 100;
  count = pos 3;
  mgr = null;
  wheel = null;
  self = null;
  is_active = active == 1;
}

abbrev some_timers : Ptr → Timer
some_timers p =
    if p == 10 then timer_at 100 1 else if p == 11 then timer_at 5000 1 else timer_at 100 0

abbrev some_manager : Timers
some_manager = new_timer_manager some_timers

abbrev idle : Tick
idle p m s = (m, s)

turns-init_example :
    turns 9 (λ k. pos 50) (init (timer_at 0 0) (pos 100) (pos 3) 10 (pos 7)).1 ≡ promised 9 (pos 3)
turns-init_example =
    turns-init (timer_at 0 0) (pos 100) (pos 3) 10 (pos 7) 9 (λ k. pos 50) refl (omega arith)
      (omega arith) (omega arith) (omega arith)

promised_three : promised 9 (pos 3) ≡ 2
unfolding promised
promised_three = refl

get_remaining_count-init_example :
    (get_remaining_count (init (timer_at 0 0) (pos 100) (negsuc 0) 10 (pos 7)).1 ≡ negsuc 0)
    × (get_remaining_count
          (set_count (init (timer_at 0 0) (pos 100) (negsuc 0) 10 (pos 7)).1 (pos 4))
        ≡ pos 4)
get_remaining_count-init_example =
    get_remaining_count-init (timer_at 0 0) (pos 100) (negsuc 0) (pos 4) 10 (pos 7) refl
      (λ e. ground arith) (λ e. ground arith)

type_of_interval-wheel_config_of_example :
    let i = to_index (type_of_interval (pos 5000)) in
    (0 < i → pos (wheel_config_of i) ≤ℤ pos 5000)
    × (i < 4 → ltb_ℤ (pos 5000) (pos (wheel_config_of (suc i))) ≡ true)
type_of_interval-wheel_config_of_example = type_of_interval-wheel_config_of (pos 5000)

close-add_timer_example :
    (m' : Timers) × (close some_manager ≡ some m')
    × (close m' ≡ some m')
    × (add_timer 10 (pos 5) m' three ≡ (some manager_closed, m', three))
    × ((i : ℕ) → i < wheel_num → Stopped (m'.wheels i))
unfolding new_timer_manager
close-add_timer_example = close-add_timer some_manager three 10 (pos 5) refl refl (λ i below. refl)

add_timer-handle_timer_add_example :
    let r = add_timer 10 (pos 5) some_manager three in
    handle_timer_add 0 10 500 r.1 r.2 ≡ (r.1, r.2)
unfolding new_timer_manager
add_timer-handle_timer_add_example =
    add_timer-handle_timer_add 10 (pos 5) some_manager three refl (omega arith) 0 500

add_timer-get_timer_count_example :
    let r = add_timer 10 (pos 5) some_manager three in
    get_timer_count r.1 ≡ counted r.0 (get_timer_count some_manager)
add_timer-get_timer_count_example = add_timer-get_timer_count 10 (pos 5) some_manager three

migrate-get_timer_count_example : get_timer_count (migrate 1 0 10 500 some_manager three).0 ≡ (
    if ltb (length (some_manager.wheels 0).add_timer_chan) max_add_timer_channel_num
    then get_timer_count some_manager -ℤ pos 1
    else get_timer_count some_manager)
migrate-get_timer_count_example =
    migrate-get_timer_count 1 0 10 500 some_manager three (omega arith) (omega arith) (omega arith)

process_wheel_tick-Refines_example :
    (m' : Timers) × (s' : Store) × (process_wheel_tick 4 idle 0
        (pos 200)
        (pos 201)
        500
        some_manager
        three
      ≡ some (m', s'))
    × Refines s' (
        update three_view 1
          (reject (λ q. leaves 0 (pos 200) (pos 201) (some_timers q)) (three_view 1)))
    × (m'.timer_channel
        ≡ [] ++ select (λ q. due 0 (pos 200) (pos 201) (some_timers q)) (three_view 1))
    × ((j : ℕ)
        → (m'.wheels j).add_timer_chan
          ≡ [] ++ select (sends 0 (pos 200) (pos 201) some_manager j) (three_view 1))
unfolding new_timer_manager
process_wheel_tick-Refines_example =
    process_wheel_tick-Refines 0 (pos 200) (pos 201) 4 idle 500 some_manager three three_view
      three-Refines (omega arith) refl (omega arith) (omega arith, λ j. omega arith)
