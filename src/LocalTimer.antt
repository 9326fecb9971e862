-- ===== src/LocalTimer.antt =====
-- localtimer/time.go: timers, and the wheels of one timer manager. The lists of the wheels are those
-- of list/list.go. Each call of the clock is an argument; the locks are not modelled.
pub mod Counting
pub mod Wheels
pub mod Counts
pub mod Ticks
mod Tests
use touch_go_core.Prelude.{
  ℕ, suc, ◌+◌, Bool, true, false, not, ◌&&◌, ◌||◌, Option, none, some, List, [], ◌∷◌, ◌++◌, ltb,
  leb, ◌==◌, if◌then◌else◌, length, ◌⊎◌, inl, inr, ◌>>=◌,
}
use touch_go_core.Prelude.Int.{ℤ, pos, negsuc, ◌+ℤ◌, ◌-ℤ◌, ltb_ℤ, eq_ℤ, wrap_64}
use touch_go_core.Prelude.Ptr.{Ptr, null, update}
use touch_go_core.LinkedList.{Store, Callback}
use touch_go_core.LinkedList

pub data TimerError : Type 0 where
  invalid_interval invalid_type manager_closed channel_full system_not_ready nil_parent : TimerError

pub data TimerType : Type 0 where
  millisecond second minute ten_minute hour : TimerType

-- The number behind a `TimerType`, which is also the index of its wheel.
unfoldable pub to_index : TimerType → ℕ
to_index millisecond = 0
to_index second = 1
to_index minute = 2
to_index ten_minute = 3
to_index hour = 4

abbrev pub max_timer_channel_num : ℕ
max_timer_channel_num = 100000

abbrev pub max_add_timer_channel_num : ℕ
max_add_timer_channel_num = 10000

abbrev pub infinite_count : ℤ
infinite_count = negsuc 0

abbrev pub count_correction_value : ℤ
count_correction_value = negsuc 999998

abbrev pub timer_migration_offset : ℤ
timer_migration_offset = pos 5

-- `list.ListNode` of the embedding is the node at the timer's address.
pub record Timer : Type 0 where
  pub uid : ℤ
  pub next_time : ℤ
  pub interval : ℤ
  pub count : ℤ
  pub mgr : Ptr
  pub wheel : Ptr
  pub self : Ptr
  pub is_active : Bool

-- `Init`; the error leaves the timer as it is.
unfoldable pub init :
    Timer → (interval count : ℤ) → (self : Ptr) → (now : ℤ) → Option TimerError × Timer
init t interval count self now =
    if not (ltb_ℤ (pos 0) interval) then (some invalid_interval, t) else (
      none,
      record t {
        uid = pos 0;
        next_time = wrap_64 (now +ℤ interval);
        interval = interval;
        count = if eq_ℤ count infinite_count then count_correction_value else count;
        self = self;
        is_active = true;
      },
    )

-- The first half of `HasNext`: `none` is a timer with no execution left.
unfoldable pub count_down : ℤ → ℤ × Bool
count_down count =
    if eq_ℤ count count_correction_value
    then (count, true)
    else let left = wrap_64 (count -ℤ pos 1) in (left, ltb_ℤ (pos 0) left)

unfoldable pub has_next : Timer → (now : ℤ) → Bool × Timer
has_next t now =
    if not t.is_active
    then (false, t)
    else let (left, more) = count_down t.count in
      if more
      then (true, record t { count = left; next_time = wrap_64 (now +ℤ t.interval) })
      else (false, record t { count = left })

unfoldable pub set_count : Timer → ℤ → Timer
set_count t count =
    if not t.is_active
    then t
    else record t { count = if eq_ℤ count infinite_count then count_correction_value else count }

unfoldable pub get_remaining_count : Timer → ℤ
get_remaining_count t = if eq_ℤ t.count count_correction_value then infinite_count else t.count

-- `calculateType`, by the limits of util/const.go.
unfoldable pub type_of_interval : ℤ → TimerType
type_of_interval interval =
    if ltb_ℤ interval (pos 1000)
    then millisecond
    else if ltb_ℤ interval (pos 60000)
    then second
    else if ltb_ℤ interval (pos 600000)
    then minute
    else if ltb_ℤ interval (pos 3600000)
    then ten_minute
    else hour

unfoldable pub calculate_type : Timer → (interval now : ℤ) → TimerType
calculate_type t interval now = type_of_interval (
    if eq_ℤ interval (pos 0 -ℤ count_correction_value)
    then wrap_64 (t.next_time -ℤ now)
    else interval)

unfoldable pub get_type : Timer → (now : ℤ) → TimerType
get_type t now = calculate_type t (pos 0 -ℤ count_correction_value) now

-- `tick_wheel` is the address of the wheel's list; a channel is the sequence that waits in it.
pub record TimerWheel : Type 0 where
  pub wheel_config : ℕ
  pub tick_wheel : Ptr
  pub add_timer_chan : List Ptr
  pub add_timer_chan_closed : Bool
  pub is_running : Bool
  pub timer_count : ℤ

pub record TimerStats : Type 0 where
  pub timers_added : ℤ
  pub timers_removed : ℤ
  pub timers_executed : ℤ
  pub wheel_migrations : ℤ

-- The manager with its timers, the pool of free timers and the channel of due ones.
pub record Timers : Type 0 where
  pub timers : Ptr → Timer
  pub wheels : ℕ → TimerWheel
  pub max_timer_uid : ℤ
  pub is_closed : Bool
  pub close_chan_closed : Bool
  pub stats : TimerStats
  pub timer_channel : List Ptr
  pub pool : List Ptr

abbrev pub wheel_num : ℕ
wheel_num = 5

abbrev pub manager : Ptr
manager = 1

abbrev pub put_timer : Ptr → Timer → Timers → Timers
put_timer p t m = record m { timers = update m.timers p t }

abbrev pub put_wheel : ℕ → TimerWheel → Timers → Timers
put_wheel i w m = record m { wheels = update m.wheels i w }

unfoldable pub wheel_config_of : ℕ → ℕ
wheel_config_of i =
    if i == 0
    then 1
    else if i == 1
    then 1000
    else if i == 2
    then 60000
    else if i == 3
    then 600000
    else 3600000

-- `NewTimerManager`: five wheels, each with an empty list. The list of the wheel `i` is at `i + 1`.
unfoldable pub new_timer_manager : (Ptr → Timer) → Timers
unfolding wheel_config_of
new_timer_manager timers = record {
  timers = timers;
  wheels = λ i. record {
    wheel_config = wheel_config_of i;
    tick_wheel = i + 1;
    add_timer_chan = [];
    add_timer_chan_closed = false;
    is_running = true;
    timer_count = pos 0;
  };
  max_timer_uid = pos 0;
  is_closed = false;
  close_chan_closed = false;
  stats = record {
    timers_added = pos 0;
    timers_removed = pos 0;
    timers_executed = pos 0;
    wheel_migrations = pos 0;
  };
  timer_channel = [];
  pool = [];
}

unfoldable pub remove_from_manager : Bool → Ptr → Timers → Store → Timers × Store
remove_from_manager clean_pool p m s =
    let t = m.timers p in
    if not t.is_active
    then (m, s)
    else let m' = put_timer p (record t { is_active = false }) m in
      let s' = LinkedList.remove p s in
      if clean_pool && not (t.self == null)
      then (record m' { pool = m'.pool ++ t.self ∷ [] }, s')
      else (m', s')

-- The send of `AddTimer`, which does not wait, to an open channel.
unfoldable pub send_timer : ℕ → Ptr → Timers → Option TimerError × Timers
send_timer i p m =
    let w = m.wheels i in
    if ltb (length w.add_timer_chan) max_add_timer_channel_num
    then (
      none,
      put_wheel i
          (record w {
            add_timer_chan = w.add_timer_chan ++ p ∷ [];
            timer_count = w.timer_count +ℤ pos 1;
          })
          (record m { stats = record (m.stats) { timers_added = m.stats.timers_added +ℤ pos 1 } }),
    )
    else (some channel_full, m)

unfoldable pub add_timer : Ptr → (now : ℤ) → Timers → Store → Option TimerError × Timers × Store
add_timer p now m s =
    if m.is_closed
    then (some manager_closed, m, s)
    else if p == null
    then (some nil_parent, m, s)
    else let uid = m.max_timer_uid +ℤ pos 1 in
      let m1 =
        put_timer p (record (m.timers p) { uid = uid; mgr = manager })
          (record m { max_timer_uid = uid }) in
      let (m2, s2) = remove_from_manager false p m1 s in
      let i = to_index (get_type (m2.timers p) now) in
      if leb wheel_num i
      then (some invalid_type, m2, s2)
      else let (e, m3) = send_timer i p m2 in (e, m3, s2)

-- The close of a closed channel panics, which is none.
unfoldable pub close_wheel : ℕ → Timers → Option Timers
close_wheel i m =
    let w = m.wheels i in
    if w.add_timer_chan_closed
    then none
    else some (put_wheel i (record w { is_running = false; add_timer_chan_closed = true }) m)

-- The loop over the first wheels.
unfoldable pub close_wheels : ℕ → Timers → Option Timers
close_wheels ℕ.zero m = some m
close_wheels (suc n) m = close_wheels n m >>= close_wheel n

unfoldable pub close : Timers → Option Timers
close m =
    if m.is_closed
    then some m
    else if m.close_chan_closed
    then none
    else close_wheels wheel_num (record m { is_closed = true; close_chan_closed = true })

unfoldable pub sum_counts : ℕ → (ℕ → TimerWheel) → ℤ
sum_counts ℕ.zero wheels = pos 0
sum_counts (suc n) wheels = sum_counts n wheels +ℤ (wheels n).timer_count

unfoldable pub get_timer_count : Timers → ℤ
get_timer_count m = sum_counts wheel_num m.wheels

unfoldable pub handle_timer_add : ℕ → Ptr → (clock : ℕ) → Timers → Store → Timers × Store
handle_timer_add i p clock m s =
    let t = m.timers p in
    if p == null || not t.is_active then (m, s) else (
      put_timer p (record t { wheel = i + 1 }) m,
      (LinkedList.add (m.wheels i).tick_wheel p clock s).1,
    )

-- `Tick` of the user's type, which may call anything of the manager.
abbrev pub Tick : Type 0
Tick = Ptr → Timers → Store → Timers × Store

abbrev pub leave_wheel : ℕ → Timers → Timers
leave_wheel i m =
    put_wheel i (record (m.wheels i) { timer_count = (m.wheels i).timer_count -ℤ pos 1 }) m

abbrev pub count_executed : Timers → Timers
count_executed m = record m {
  stats = record (m.stats) { timers_executed = m.stats.timers_executed +ℤ pos 1 };
}

abbrev pub count_migration : Timers → Timers
count_migration m = record m {
  stats = record (m.stats) { wheel_migrations = m.stats.wheel_migrations +ℤ pos 1 };
}

-- The run of a timer at once, and its next turn.
unfoldable pub run_timer : Tick → Ptr → (now : ℤ) → Timers → Store → Timers × Store
run_timer tick p now m s =
    let (m1, s1) = tick p m s in
    let (more, t) = has_next (m1.timers p) now in
    let m2 = put_timer p t m1 in
    let again = add_timer p now m2 s1 in if more then (again.1, again.2) else (m2, s1)

-- A due timer leaves the wheel for the channel of due timers; when that is full it runs at once.
unfoldable pub fire : Tick → ℕ → Ptr → (now : ℤ) → Timers → Store → Timers × Store
fire tick i p now m s =
    let s1 = LinkedList.remove p s in
    let m1 = count_executed (leave_wheel i m) in
    if ltb (length m1.timer_channel) max_timer_channel_num
    then (record m1 { timer_channel = m1.timer_channel ++ p ∷ [] }, s1)
    else run_timer tick p now m1 s1

-- A timer that belongs to the wheel `j` waits in that wheel's channel; when that is full it returns.
-- The channel is open: the send to a closed one, a panic, is left out.
unfoldable pub migrate : ℕ → ℕ → Ptr → (clock : ℕ) → Timers → Store → Timers × Store
migrate i j p clock m s =
    let s1 = LinkedList.remove p s in
    let m1 =
      count_migration (put_timer p (record (m.timers p) { wheel = null }) (leave_wheel i m)) in
    let w = m1.wheels j in
    if ltb (length w.add_timer_chan) max_add_timer_channel_num
    then (put_wheel j (record w { add_timer_chan = w.add_timer_chan ++ p ∷ [] }) m1, s1)
    else let back = m1.wheels i in
      (
        put_wheel i (record back { timer_count = back.timer_count +ℤ pos 1 }) m1,
        (LinkedList.add back.tick_wheel p clock s1).1,
      )

-- The callback of `processWheelTick`. `later` is the clock when `calculateType` reads it.
unfoldable pub tick_node : Tick → ℕ → (now later : ℤ) → (clock : ℕ) → Callback Timers
tick_node tick i now later clock p m s =
    let t = m.timers p in
    if not t.is_active
    then (true, m, s)
    else if not (ltb_ℤ now t.next_time)
    then (let r = fire tick i p now m s in (true, r.0, r.1))
    else let j = to_index (
        calculate_type t (wrap_64 (wrap_64 (t.next_time -ℤ now) -ℤ timer_migration_offset))
          later) in
      if not (j == i) && ltb j wheel_num
      then (let r = migrate i j p clock m s in (true, r.0, r.1))
      else (true, m, s)

unfoldable pub process_wheel_tick :
    (fuel : ℕ) → Tick → ℕ → (now later : ℤ) → (clock : ℕ) → Timers → Store → Option (Timers × Store)
process_wheel_tick fuel tick i now later clock m s =
    LinkedList.range fuel (m.wheels i).tick_wheel (tick_node tick i now later clock) m s

-- The callback of `cleanupWheel`.
unfoldable pub cleanup_node : Tick → (now : ℤ) → Callback Timers
cleanup_node tick now p m s =
    if not (ltb_ℤ now (m.timers p).next_time)
    then (let r = tick p m s in (true, count_executed r.0, r.1))
    else (true, m, s)

unfoldable pub empty_wheel : ℕ → Timers → Timers
empty_wheel i m =
    let removed = (m.wheels i).timer_count in
    put_wheel i (record (m.wheels i) { timer_count = pos 0 })
      (record m { stats = record (m.stats) { timers_removed = m.stats.timers_removed +ℤ removed } })

unfoldable pub cleanup_wheel :
    (fuel : ℕ) → Tick → ℕ → (now : ℤ) → Timers → Store → Option (Timers × Store)
cleanup_wheel fuel tick i now m s = do
  r ← LinkedList.range fuel (m.wheels i).tick_wheel (cleanup_node tick now) m s
  s' ← LinkedList.clear fuel (r.0.wheels i).tick_wheel r.1
  some (empty_wheel i r.0, s')

-- What `runWheel` may see next: the signal to stop, a timer in the channel, or the ticker.
pub data WheelEvent : Type 0 where
  close_signal timer_added ticked : WheelEvent

-- One turn of the loop of `runWheel`. A channel that is empty and open gives no turn.
unfoldable pub run_wheel_step :
    (fuel : ℕ)
    → Tick
    → ℕ
    → (now later : ℤ) → (clock : ℕ) → WheelEvent
    → Timers
    → Store
    → Option (Timers × Store)
run_wheel_step fuel tick i now later clock close_signal m s =
    cleanup_wheel fuel tick i now (put_wheel i (record (m.wheels i) { is_running = false }) m) s
run_wheel_step fuel tick i now later clock timer_added m s = elim ((m.wheels i).add_timer_chan) [
  | [] ↦ if (m.wheels i).add_timer_chan_closed then some (m, s) else none
  | p ∷ rest ↦
      some (
        handle_timer_add i p clock (put_wheel i (record (m.wheels i) { add_timer_chan = rest }) m)
          s)
]
run_wheel_step fuel tick i now later clock ticked m s =
    process_wheel_tick fuel tick i now later clock m s

-- `AddTimer` of the package: `none` is no default manager.
unfoldable pub add_timer_default :
    (default : Option (Timers × Store))
    → Ptr
    → (now : ℤ) → Option TimerError × Option (Timers × Store)
add_timer_default none p now = (some system_not_ready, none)
add_timer_default (some r) p now =
    if p == null
    then (some nil_parent, some r)
    else let r' = add_timer p now r.0 r.1 in (r'.0, some (r'.1, r'.2))

-- `NewTimer`. `p` is what the pool gives, the same pointer as its parent.
unfoldable pub new_timer :
    (interval count : ℤ)
    → (p : Ptr) → (now : ℤ) → (Ptr → Timer)
    → (TimerError ⊎ Ptr) × (Ptr → Timer)
new_timer interval count p now timers =
    if p == null
    then (inl invalid_type, timers)
    else if not (ltb_ℤ (pos 0) interval)
    then (inl invalid_interval, timers)
    else let (e, t) = init (timers p) interval count p now in
      (elim e [ some err ↦ inl err | none ↦ inr p ], update timers p t)
