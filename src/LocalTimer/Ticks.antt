-- ===== src/LocalTimer/Ticks.antt =====
-- processWheelTick of localtimer/time.go: what one tick of a wheel does to its timers when the
-- channels have room for them.
use mathlib.Core.List.{append-nil, append_assoc}
use touch_go_core.Prelude.{
  ℕ, ◌+◌, ◌≤◌, ◌<◌, ◌≡◌, ◌≢◌, refl, sym, ap, ◌∙◌, Bool, true, false, not, ◌&&◌, ◌||◌, some, List,
  [], ◌∷◌, ◌++◌, arith, ltb, ◌==◌, if◌then◌else◌, Bool-cases, inl, inr, length, length-append,
}
use touch_go_core.Prelude.Int.{ℤ, ◌-ℤ◌, ltb_ℤ, wrap_64}
use touch_go_core.Prelude.Ptr.{Ptr, null, update, ==-eq}
use touch_go_core.LinkedList.{Store, remove}
use touch_go_core.LinkedList.Chain.{Refines}
use touch_go_core.LinkedList.Removal.{Removes, range-removes, visit_all, select, reject}
use touch_go_core.LocalTimer.{
  Timer, Timers, Tick, to_index, calculate_type, timer_migration_offset, tick_node, fire, migrate,
  process_wheel_tick, wheel_num, max_add_timer_channel_num, max_timer_channel_num, put_wheel,
  put_timer, leave_wheel, count_executed, count_migration,
}
use touch_go_core.LocalTimer.Wheels.{bound}

module _ (i : ℕ) (now later : ℤ) where
  unfoldable pub due : Timer → Bool
  due t = t.is_active && not (ltb_ℤ now t.next_time)

  -- The wheel of a timer that is not due.
  unfoldable pub target : Timer → ℕ
  target t =
      to_index
        (calculate_type t (wrap_64 (wrap_64 (t.next_time -ℤ now) -ℤ timer_migration_offset)) later)

  unfoldable pub moves : Timer → Bool
  moves t = t.is_active && ltb_ℤ now t.next_time && not (target t == i)

  unfoldable pub leaves : Timer → Bool
  leaves t = due t || moves t

  -- The manager after a timer is sent to the channel of due timers, or to the wheel `j`.
  fired : Ptr → Timers → Timers
  fired p m =
      let m1 = count_executed (leave_wheel i m) in
      record m1 { timer_channel = m1.timer_channel ++ p ∷ [] }

  moved : ℕ → Ptr → Timers → Timers
  moved j p m =
      let m1 =
        count_migration (put_timer p (record (m.timers p) { wheel = null }) (leave_wheel i m)) in
      put_wheel j (record (m1.wheels j) { add_timer_chan = (m1.wheels j).add_timer_chan ++ p ∷ [] })
        m1

  visited : Ptr → Timers → Timers
  visited p m =
      let t = m.timers p in if due t then fired p m else if moves t then moved (target t) p m else m

  fire-fired :
      (tick : Tick) (p : Ptr) (m : Timers) (s : Store)
      → length m.timer_channel < max_timer_channel_num
      → fire tick i p now m s ≡ (fired p m, remove p s)
  unfolding fire fired
  fire-fired tick p m s h =
      let e : ltb (length m.timer_channel) max_timer_channel_num ≡ true = ground arith in rw e

  migrate-moved :
      (j : ℕ) (p : Ptr) (clock : ℕ) (m : Timers) (s : Store)
      → (i == j) ≡ false
      → length (m.wheels j).add_timer_chan < max_add_timer_channel_num
      → migrate i j p clock m s ≡ (moved j p m, remove p s)
  unfolding migrate moved
  migrate-moved j p clock m s ne h =
      let e : ltb (length (m.wheels j).add_timer_chan) max_add_timer_channel_num ≡ true =
        ground arith in
      rw (ne, e)

  -- The node's branch of the callback.
  abbrev pub Room : List Ptr → Timers → Type 0
  Room xs m =
      (length m.timer_channel + length xs ≤ max_timer_channel_num)
      × ((j : ℕ) → length (m.wheels j).add_timer_chan + length xs ≤ max_add_timer_channel_num)

  outcome : Ptr → Timers → Store → Bool × Timers × Store
  outcome p m s = (true, visited p m, if leaves (m.timers p) then remove p s else s)

  outcome-due :
      (p : Ptr) (m : Timers) (s : Store)
      → due (m.timers p) ≡ true
      → outcome p m s ≡ (true, fired p m, remove p s)
  unfolding outcome visited leaves
  outcome-due p m s h = rw h

  outcome-moves :
      (p : Ptr) (m : Timers) (s : Store)
      → due (m.timers p) ≡ false
      → moves (m.timers p) ≡ true
      → outcome p m s ≡ (true, moved (target (m.timers p)) p m, remove p s)
  unfolding outcome visited leaves
  outcome-moves p m s d h = rw (d, h)

  outcome-stays :
      (p : Ptr) (m : Timers) (s : Store)
      → due (m.timers p) ≡ false
      → moves (m.timers p) ≡ false
      → outcome p m s ≡ (true, m, s)
  unfolding outcome visited leaves
  outcome-stays p m s d h = rw (d, h)

  cascade {ℓ} :
      {A : Type ℓ} (active before same : Bool) (x y z : A)
      → (if not active then x else if not before then y else if not same && true then z else x)
        ≡ (if active && not before then y else if active && before && not same then z else x)
  cascade false before same x y z = refl
  cascade true false same x y z = refl
  cascade true true same x y z = ground arith

  tick_node-cascade :
      (tick : Tick) (clock : ℕ) (p : Ptr) (m : Timers) (s : Store)
      → let t = m.timers p in
        let r = fire tick i p now m s in
        let q = migrate i (target t) p clock m s in
        tick_node tick i now later clock p m s
        ≡ (if due t then (true, r.0, r.1) else if moves t then (true, q.0, q.1) else (true, m, s))
  unfolding tick_node due moves target
  tick_node-cascade tick clock p m s =
      let j = target (m.timers p) in
      let in_range : ltb j wheel_num ≡ true = ground (
        arith,
        bound (
            calculate_type (m.timers p)
              (wrap_64 (wrap_64 ((m.timers p).next_time -ℤ now) -ℤ timer_migration_offset)) later),
      ) in
      ap
        (λ b.
          if not (m.timers p).is_active
          then (true, m, s)
          else if not (ltb_ℤ now (m.timers p).next_time)
          then (true, (fire tick i p now m s).0, (fire tick i p now m s).1)
          else if not (j == i) && b
          then (true, (migrate i j p clock m s).0, (migrate i j p clock m s).1)
          else (true, m, s))
        in_range
      ∙ cascade (m.timers p).is_active (ltb_ℤ now (m.timers p).next_time) (j == i) _ _ _

  moves-apart : (t : Timer) → moves t ≡ true → (i == target t) ≡ false
  unfolding moves
  moves-apart t h = ground arith

  tick_node-outcome :
      (tick : Tick) (clock : ℕ) (p : Ptr) (xs : List Ptr) (m : Timers) (s : Store)
      → Room (p ∷ xs) m
      → tick_node tick i now later clock p m s ≡ outcome p m s
  tick_node-outcome tick clock p xs m s room =
      let start = tick_node-cascade tick clock p m s in
      let t = m.timers p in
      elim (Bool-cases (due t)) [
        | inl d ↦
            start
            ∙ rw (d, fire-fired tick p m s (omega (arith, room.0))) (sym (outcome-due p m s d))
        | inr d ↦ elim (Bool-cases (moves t)) [
          | inl h ↦
              start
              ∙ rw
                  (
                    d,
                    h,
                    migrate-moved (target t) p clock m s (moves-apart t h)
                        (omega (arith, room.1 (target t))),
                  )
                  (sym (outcome-moves p m s d h))
          | inr h ↦ start ∙ rw (d, h) (sym (outcome-stays p m s d h))
        ]
      ]

  -- What a visit does to the channels.
  visited-timer_channel :
      (p : Ptr) (m : Timers)
      → (visited p m).timer_channel ≡ m.timer_channel ++ (if due (m.timers p) then p ∷ [] else [])
  unfolding visited fired moved
  visited-timer_channel p m = elim (Bool-cases (due (m.timers p))) [
    | inl d ↦ rw d
    | inr d ↦ elim (Bool-cases (moves (m.timers p))) [
      | inl h ↦ rw (d, h, append-nil)
      | inr h ↦ rw (d, h, append-nil)
    ]
  ]

  due-moves : (t : Timer) → due t ≡ true → moves t ≡ false
  unfolding due moves
  due-moves t h = ground arith

  -- Leaving the wheel `i` changes no channel.
  left-add_timer_chan :
      (m : Timers) (j : ℕ)
      → ((leave_wheel i m).wheels j).add_timer_chan ≡ (m.wheels j).add_timer_chan
  left-add_timer_chan m j = elim (Bool-cases (i == j)) [
    | inl e ↦ rw e (ap (λ k. (m.wheels k).add_timer_chan) (==-eq e))
    | inr e ↦ rw e
  ]

  moved-add_timer_chan :
      (k : ℕ) (p : Ptr) (m : Timers) (j : ℕ)
      → ((moved k p m).wheels j).add_timer_chan
        ≡ (m.wheels j).add_timer_chan ++ (if k == j then p ∷ [] else [])
  unfolding moved
  moved-add_timer_chan k p m j = elim (Bool-cases (k == j)) [
    | inl e ↦ rw e (
        ap (λ c. c ++ p ∷ [])
          (left-add_timer_chan m k ∙ ap (λ n. (m.wheels n).add_timer_chan) (==-eq e)))
    | inr e ↦ rw (e, append-nil) (left-add_timer_chan m j)
  ]

  visited-add_timer_chan :
      (p : Ptr) (m : Timers) (j : ℕ)
      → ((visited p m).wheels j).add_timer_chan
        ≡ (m.wheels j).add_timer_chan
          ++ (if moves (m.timers p) && (target (m.timers p) == j) then p ∷ [] else [])
  unfolding visited fired
  visited-add_timer_chan p m j = elim (Bool-cases (due (m.timers p))) [
    | inl d ↦ rw (d, due-moves (m.timers p) d, append-nil) (left-add_timer_chan m j)
    | inr d ↦ elim (Bool-cases (moves (m.timers p))) [
      | inl h ↦ rw (d, h) (moved-add_timer_chan (target (m.timers p)) p m j)
      | inr h ↦ rw (d, h, append-nil)
    ]
  ]

  -- The fields that decide what happens to a timer.
  abbrev pub Same : Timer → Timer → Type 0
  Same t u = (t.is_active ≡ u.is_active) × (t.next_time ≡ u.next_time)

  due-Same : (t u : Timer) → Same t u → due t ≡ due u
  unfolding due
  due-Same t u h = rw (h.0, h.1)

  target-Same : (t u : Timer) → Same t u → target t ≡ target u
  unfolding target calculate_type
  target-Same t u h = rw h.1

  moves-Same : (t u : Timer) → Same t u → moves t ≡ moves u
  unfolding moves
  moves-Same t u h = rw (target-Same t u h, h.0, h.1)

  leaves-Same : (t u : Timer) → Same t u → leaves t ≡ leaves u
  unfolding leaves
  leaves-Same t u h = rw (due-Same t u h, moves-Same t u h)

  visited-Same : (p q : Ptr) (m : Timers) → Same ((visited p m).timers q) (m.timers q)
  unfolding visited fired moved
  visited-Same p q m = elim (Bool-cases (due (m.timers p))) [
    | inl d ↦ rw d (refl, refl)
    | inr d ↦ elim (Bool-cases (moves (m.timers p))) [
      | inl h ↦
          rw (d, h)
            (elim (Bool-cases (p == q)) [
              | inl e ↦ rw e (
                ap (λ k. (m.timers k).is_active) (==-eq e),
                ap (λ k. (m.timers k).next_time) (==-eq e),
              )
              | inr e ↦ rw e (refl, refl)
            ])
      | inr h ↦ rw (d, h) (refl, refl)
    ]
  ]

  abbrev pub SameTimers : Timers → Timers → Type 0
  SameTimers m m' = (q : Ptr) → Same (m'.timers q) (m.timers q)

  visited-SameTimers : (p : Ptr) (m m' : Timers) → SameTimers m m' → SameTimers m (visited p m')
  visited-SameTimers p m m' same q =
      let v = visited-Same p q m' in (v.0 ∙ (same q).0, v.1 ∙ (same q).1)

  extra_room : (b : Bool) (p : Ptr) → length (if b then p ∷ [] else []) ≤ 1
  extra_room b p = ground arith

  visited-Room : (p : Ptr) (xs : List Ptr) (m : Timers) → Room (p ∷ xs) m → Room xs (visited p m)
  visited-Room p xs m room = (
    rw (visited-timer_channel p m, length-append)
        (omega (arith, room.0, extra_room (due (m.timers p)) p)),
    λ j.
        rw (visited-add_timer_chan p m j, length-append)
          (omega
            (arith, room.1 j, extra_room (moves (m.timers p) && (target (m.timers p) == j)) p)),
  )

  unfoldable pub sends : Timers → ℕ → Ptr → Bool
  sends m j p = moves (m.timers p) && (target (m.timers p) == j)

  sends-Same :
      (m m' : Timers) (j : ℕ) (p : Ptr)
      → SameTimers m m'
      → (moves (m'.timers p) && (target (m'.timers p) == j)) ≡ sends m j p
  unfolding sends
  sends-Same m m' j p same = rw (
    moves-Same (m'.timers p) (m.timers p) (same p),
    target-Same (m'.timers p) (m.timers p) (same p),
  )

  select-step :
      (test : Ptr → Bool) (b : Bool) (x : Ptr) (xs c : List Ptr)
      → b ≡ test x
      → c ++ (if b then x ∷ [] else []) ++ select test xs ≡ c ++ select test (x ∷ xs)
  unfolding select
  select-step test b x xs c h = elim (Bool-cases (test x)) [
    | inl e ↦ rw (h, e) (append_assoc c (x ∷ []) (select test xs))
    | inr e ↦ rw (h, e, append-nil)
  ]

  -- The channels after all the nodes are visited.
  visit_all-channels :
      (xs : List Ptr) (m m' : Timers)
      → SameTimers m m'
      → let last = visit_all visited xs m' in
        (last.timer_channel ≡ m'.timer_channel ++ select (λ q. due (m.timers q)) xs)
        × ((j : ℕ)
            → (last.wheels j).add_timer_chan
              ≡ (m'.wheels j).add_timer_chan ++ select (sends m j) xs)
  unfolding visit_all select
  visit_all-channels [] m m' same = (rw append-nil, λ j. rw append-nil)
  visit_all-channels (x ∷ xs) m m' same =
      let (channel, chans) =
        visit_all-channels xs m (visited x m') (visited-SameTimers x m m' same) in
      (
        channel
            ∙ rw (visited-timer_channel x m') (
                select-step (λ q. due (m.timers q)) _ x xs m'.timer_channel
                  (due-Same (m'.timers x) (m.timers x) (same x))),
        λ j.
            chans j
            ∙ rw (visited-add_timer_chan x m' j) (
                select-step (sends m j) _ x xs (m'.wheels j).add_timer_chan
                  (sends-Same m m' j x same)),
      )

  -- The traversal's invariant, and that the callback keeps it.
  abbrev Ticking : Timers → List Ptr → Timers → Type 0
  Ticking m xs m' = SameTimers m m' × Room xs m'

  tick_node-Removes :
      (tick : Tick) (clock : ℕ) (m : Timers)
      → Removes (tick_node tick i now later clock) (λ q. leaves (m.timers q)) visited (Ticking m)
  unfolding outcome
  tick_node-Removes tick clock m p xs m' s inv = (
    tick_node-outcome tick clock p xs m' s inv.1
        ∙ ap (λ b. (true, visited p m', if b then remove p s else s))
            (leaves-Same (m'.timers p) (m.timers p) (inv.0 p)),
    (visited-SameTimers p m m' inv.0, visited-Room p xs m' inv.1),
  )

  -- A tick of a wheel whose timers have room in the channels ends; the wheel then holds, in order,
  -- the timers that are neither due nor of another wheel; the due ones are, in order, behind those
  -- that waited for their run; and each wheel's channel has gained, in order, the timers that are its.
  pub process_wheel_tick-Refines :
      (fuel : ℕ) (tick : Tick) (clock : ℕ) (m : Timers) (s : Store) (view : Ptr → List Ptr)
      → Refines s view
      → (m.wheels i).tick_wheel ≢ null
      → (s.lists (m.wheels i).tick_wheel).range_del_list ≡ []
      → length (view (m.wheels i).tick_wheel) < fuel
      → Room (view (m.wheels i).tick_wheel) m
      → let l = (m.wheels i).tick_wheel in
        (m' : Timers) × (s' : Store) × (process_wheel_tick fuel tick i now later clock m s
          ≡ some (m', s'))
        × Refines s' (update view l (reject (λ q. leaves (m.timers q)) (view l)))
        × (m'.timer_channel ≡ m.timer_channel ++ select (λ q. due (m.timers q)) (view l))
        × ((j : ℕ)
            → (m'.wheels j).add_timer_chan
              ≡ (m.wheels j).add_timer_chan ++ select (sends m j) (view l))
  unfolding process_wheel_tick
  process_wheel_tick-Refines fuel tick clock m s view ref ne none_noted enough room =
      let l = (m.wheels i).tick_wheel in
      let same : SameTimers m m = λ q. (refl, refl) in
      let (s', run, after) =
        range-removes (tick_node tick i now later clock) (λ q. leaves (m.timers q)) visited
          (Ticking m) (tick_node-Removes tick clock m) s view l fuel m ref ne none_noted enough
          (same, room) in
      let (channel, chans) = visit_all-channels (view l) m m same in
      (visit_all visited (view l) m, s', run, after, channel, chans)
