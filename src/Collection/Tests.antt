-- ===== src/Collection/Tests.antt =====
-- Runs of the collections at small inputs, and the theorems at inputs that meet their hypotheses.
use go_zero.Prelude.{ℕ, ◌+◌, ◌≡◌, refl, List, [], ◌∷◌, ◌++◌, false, some, none, arith, replicate}
use go_zero.Collection.Ring.{Ring, new_ring, take_all, add_each}
use go_zero.Collection.Ring.Latest.{take_all-latest}
use go_zero.Collection.Fifo.{
  Call, call_empty, call_put, call_take, is_empty, done, taken, new_queue, empty, put, take_first,
  run,
}
use go_zero.Collection.Fifo.Refine.{replies, run_refines}
use go_zero.Collection.Bucket.{fresh, new_buckets, add_at, reset_at, visit}
use go_zero.Collection.RollingWindow.{
  RollingWindow, new_rolling_window, span, reset_expired, update_offset, add, reduce,
}
use go_zero.Collection.RollingWindow.Tally.{Event, add_events, history, tally, tallies}
use go_zero.Collection.RollingWindow.History.{reduce-history}

abbrev two_slots : Ring ℕ
two_slots = record { elements = 0 ∷ 0 ∷ []; index = 0 }

ring_keeps_two : take_all 0 (add_each 0 two_slots (1 ∷ 2 ∷ 3 ∷ [])) ≡ 2 ∷ 3 ∷ []
unfolding take_all add_each
ring_keeps_two = refl

take_all-latest_example : take_all 0 (add_each 0 two_slots (1 ∷ 2 ∷ 3 ∷ [])) ≡ 2 ∷ 3 ∷ []
unfolding new_ring
take_all-latest_example = take_all-latest 0 2 (1 ∷ 2 ∷ 3 ∷ []) two_slots refl (omega arith)

-- Two puts fill the slice of one slot, so the second one grows it.
abbrev calls : List (Call ℕ)
calls = call_put 1 ∷ call_put 2 ∷ call_take ∷ call_empty ∷ call_take ∷ call_take ∷ []

queue_grows :
    run 0 (new_queue 0 1) calls
    ≡ some (done ∷ done ∷ taken (some 1) ∷ is_empty false ∷ taken (some 2) ∷ taken none ∷ [])
unfolding run new_queue empty put take_first
queue_grows = refl

run_refines_example :
    run 0 (new_queue 0 1) calls
    ≡ some (done ∷ done ∷ taken (some 1) ∷ is_empty false ∷ taken (some 2) ∷ taken none ∷ [])
unfolding replies
run_refines_example = run_refines 0 1 calls (omega arith)

-- Two buckets of 10, made at 100: the events at 105 and 118 are 1 and 2 intervals before 121.
abbrev two_buckets : RollingWindow ℕ
two_buckets = record {
  size = 2;
  win = record { buckets = replicate 2 (fresh 0 ◌+◌); size = 2 };
  interval = 10;
  offset = 0;
  ignore_current = false;
  last_time = 100;
}

abbrev events : List (Event ℕ)
events =
    record { since = 105; now = 105; value = 7 }
    ∷ record { since = 118; now = 119; value = 5 }
    ∷ record { since = 119; now = 119; value = 6 }
    ∷ []

window_forgets :
    reduce 0 ◌+◌ (add_events 0 ◌+◌ two_buckets events) 121 ≡ record { sum = 11; count = 2 } ∷ []
unfolding reduce add_events add update_offset span reset_expired add_at reset_at visit
window_forgets = refl

reduce-history_example :
    (empties : ℕ) × (reduce 0 ◌+◌ (add_events 0 ◌+◌ two_buckets events) 121
        ++ replicate empties (fresh 0 ◌+◌)
      ≡ record { sum = 11; count = 2 } ∷ record { sum = 0; count = 0 } ∷ [])
unfolding new_rolling_window new_buckets history tally tallies
reduce-history_example =
    reduce-history 0 ◌+◌ 2 10 100 121 false two_buckets events (omega arith) (omega arith) refl
      (omega arith)
