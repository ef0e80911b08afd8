-- ===== src/Collection/TimingWheel/Tests.antt =====
-- Small wheels, with the theorems at them and the cases that go wrong.
use go_zero.Prelude.{
  ℕ, ◌+◌, ◌==◌, ◌≡◌, ◌↔◌, ==_iff, refl, true, if◌then◌else◌, [], ◌∷◌, some, none, arith, lookup,
  insert, erase, replicate, Among,
}
use go_zero.Collection.TimingWheel.{
  Entry, TimingWheel, new_timing_wheel, set_task, move_task, remove_task, on_tick, drain_all,
  drain_slots, drain_slot, scan_and_run_tasks, scan_one, place, set_timer_position,
  get_position_and_circle, without,
}
use go_zero.Collection.TimingWheel.Home.{Homed}
use go_zero.Collection.TimingWheel.Ahead.{pending, pending_in, timer_due, due, has, after_tick}
use go_zero.Collection.TimingWheel.Turn.{on_tick-pending}
use go_zero.Collection.TimingWheel.Calls.{set_task-pending, remove_task-pending}
use go_zero.Collection.TimingWheel.Moved.{MovedTo}
use go_zero.Collection.TimingWheel.Moves.{move_task-moves}
use go_zero.Collection.TimingWheel.Life.{ticks, new_timing_wheel-Homed, set_task-executes}
use go_zero.Collection.TimingWheel.Drained.{drain_all-pending}

-- Ten slots, an interval of one.
abbrev memory : ℕ → Entry ℕ ℕ
memory _ = record { key = 0; value = 0; circle = 0; diff = 0; removed = true }

abbrev wheel : TimingWheel ℕ ℕ
wheel = record {
  interval = 1;
  num_slots = 10;
  ticked_pos = 9;
  slots = replicate 10 [];
  timers = [];
  items = memory;
  fresh = 0;
}

made : new_timing_wheel ◌==◌ 1 10 memory ≡ some wheel
unfolding new_timing_wheel
made = refl

wheel-Homed : Homed ◌==◌ wheel
wheel-Homed = (new_timing_wheel-Homed ◌==◌ 1 10 memory wheel made).0

-- The key 7 is set to three steps.
abbrev one_task : TimingWheel ℕ ℕ
one_task = (set_task ◌==◌ wheel 7 70 3).0

one_task-Homed : Homed ◌==◌ one_task
unfolding lookup
one_task-Homed = (set_task-pending ◌==◌ ==_iff wheel 7 70 3 wheel-Homed (omega arith) refl).0

set_task-executes_example :
    Among (7, 70) (on_tick ◌==◌ (ticks ◌==◌ 2 (set_task ◌==◌ wheel 7 70 3).0)).1
    ↔ (◌≡◌ {A = ℕ} 3 3 × ◌≡◌ {A = ℕ} 70 70)
unfolding lookup
set_task-executes_example =
    set_task-executes ◌==◌ ==_iff wheel 7 70 3 2 70 wheel-Homed (omega arith) refl

third_tick : (on_tick ◌==◌ (ticks ◌==◌ 2 one_task)).1 ≡ (7, 70) ∷ []
unfolding ticks on_tick scan_and_run_tasks scan_one set_task place set_timer_position
    get_position_and_circle without lookup insert erase
third_tick = refl

on_tick-pending_example :
    Homed ◌==◌ (on_tick ◌==◌ one_task).0
    × ((k : ℕ) → pending ◌==◌ (on_tick ◌==◌ one_task).0 k ≡ after_tick (pending ◌==◌ one_task k))
    × ((k v : ℕ) → Among (k, v) (on_tick ◌==◌ one_task).1 ↔ (pending ◌==◌ one_task k ≡ some (v, 1)))
on_tick-pending_example = on_tick-pending ◌==◌ ==_iff one_task one_task-Homed

set_task-pending_example :
    Homed ◌==◌ one_task
    × ((set_task ◌==◌ wheel 7 70 3).1 ≡ [])
    × ((k : ℕ) → pending ◌==◌ one_task k ≡ (if 7 == k then some (70, 3) else pending ◌==◌ wheel k))
unfolding lookup
set_task-pending_example = set_task-pending ◌==◌ ==_iff wheel 7 70 3 wheel-Homed (omega arith) refl

remove_task-pending_example :
    Homed ◌==◌ (remove_task ◌==◌ one_task 7)
    × ((k : ℕ)
        → pending ◌==◌ (remove_task ◌==◌ one_task 7) k
          ≡ (if 7 == k then none else pending ◌==◌ one_task k))
remove_task-pending_example = remove_task-pending ◌==◌ ==_iff one_task 7 one_task-Homed

drain_all-pending_example :
    Among (7, 70) (drain_all ◌==◌ one_task).1 ↔ ((n : ℕ) × (pending ◌==◌ one_task 7 ≡ some (70, n)))
drain_all-pending_example = drain_all-pending ◌==◌ one_task 7 70 one_task-Homed

-- After a tick the hand is at 0, and a task of ten steps is in its slot.
abbrev turned : TimingWheel ℕ ℕ
turned = record wheel { ticked_pos = 0 }

abbrev ten_steps : TimingWheel ℕ ℕ
ten_steps = (set_task ◌==◌ turned 7 70 10).0

ten_steps-Homed : Homed ◌==◌ ten_steps
unfolding on_tick scan_and_run_tasks lookup
ten_steps-Homed =
    (set_task-pending ◌==◌ ==_iff turned 7 70 10 (on_tick-pending ◌==◌ ==_iff wheel wheel-Homed).0
      (omega arith) refl).0

-- It is moved to three steps: the task is executed by the thirteenth tick.
abbrev moved_late : TimingWheel ℕ ℕ
moved_late = (move_task ◌==◌ ten_steps 7 3).0

move_task-moves_example :
    Homed ◌==◌ moved_late
    × ((move_task ◌==◌ ten_steps 7 3).1 ≡ [])
    × (x : ℕ) × MovedTo ◌==◌ ==_iff ten_steps moved_late 7 70 x
    × (x + 0 ≡ 3 + 10)
unfolding set_task place set_timer_position get_position_and_circle lookup insert
move_task-moves_example =
    move_task-moves ◌==◌ ==_iff ten_steps 7 (record { pos = 0; item = 0 }) ten_steps-Homed refl 3
      (omega arith) (omega arith)

late_tick :
    ((on_tick ◌==◌ (ticks ◌==◌ 2 moved_late)).1 ≡ [])
    × ((on_tick ◌==◌ (ticks ◌==◌ 12 moved_late)).1 ≡ (7, 70) ∷ [])
unfolding ticks on_tick scan_and_run_tasks scan_one set_task move_task place set_timer_position
    get_position_and_circle without lookup insert erase
late_tick = (refl, refl)

-- A task of three steps is moved to twenty: it is executed by the tenth tick.
early_tick :
    (on_tick ◌==◌ (ticks ◌==◌ 9 (move_task ◌==◌ (set_task ◌==◌ turned 7 70 3).0 7 20).0)).1
    ≡ (7, 70) ∷ []
unfolding ticks on_tick scan_and_run_tasks scan_one set_task move_task place set_timer_position
    get_position_and_circle without lookup insert erase
early_tick = refl

-- A task that is set again after `drainAll` is in no slot.
set_after_drain : (set_task ◌==◌ (drain_all ◌==◌ one_task).0 7 71 3).0.slots ≡ replicate 10 []
unfolding drain_all drain_slots drain_slot set_task move_task place set_timer_position
    get_position_and_circle lookup insert
set_after_drain = refl

-- A move to less than an interval executes the task, and leaves it to be executed again.
moved_soon :
    (let w = record one_task { interval = 2 } in
      ((move_task ◌==◌ w 7 1).1 ≡ (7, 70) ∷ [])
      × (pending ◌==◌ (move_task ◌==◌ w 7 1).0 7 ≡ some (70, 3)))
unfolding set_task move_task place set_timer_position get_position_and_circle pending pending_in
    timer_due due has lookup insert
moved_soon = (refl, refl)
