-- ===== src/Collection/TimingWheel.antt =====
-- core/collection/timingwheel.go: the state and the handlers of the goroutine `run`, which owns the
-- wheel. Pointers to entries are numbers, and `items` is the memory behind them; `timers` is a
-- SafeMap, by the one map that it refines. A `*positionEntry` is reached by `timers` only, so it is
-- kept there by value. Tasks that are handed to other goroutines are results.
pub mod Home
pub mod Kept
pub mod Linked
pub mod Ahead
pub mod Scan
pub mod Shift
pub mod Tick
pub mod Turn
pub mod Calls
pub mod Moved
pub mod Moves
pub mod Life
pub mod Drained
mod Tests
use go_zero.Prelude.{
  ℕ, ◌+◌, ◌-◌, ◌/◌, ◌%◌, ◌==◌, ltb, leb, ◌||◌, if◌then◌else◌, Bool, true, false, List, [], ◌∷◌,
  ◌++◌, Option, none, some, get_or, set, replicate, lookup, insert, erase,
}

-- `timingEntry`; its delay is used before it is put into a slot only.
pub record Entry (K V : Type 0) : Type 0 where
  pub key : K
  pub value : V
  pub circle : ℕ
  pub diff : ℕ
  pub removed : Bool

-- `positionEntry`
pub record Position : Type 0 where
  pub pos : ℕ
  pub item : ℕ

-- `TimingWheel`; the entries from `fresh` on are not allocated.
pub record TimingWheel (K V : Type 0) : Type 0 where
  pub interval : ℕ
  pub num_slots : ℕ
  pub ticked_pos : ℕ
  pub slots : List (List ℕ)
  pub timers : List (K × Position)
  pub items : ℕ → Entry K V
  pub fresh : ℕ

-- A write to memory.
abbrev pub write {ℓ} : {A : Type ℓ} → (ℕ → A) → ℕ → A → ℕ → A
write f p a q = if p == q then a else f q

-- `l.Remove(e)`; a list has an entry once.
unfoldable pub without : ℕ → List ℕ → List ℕ
without id [] = []
without id (x ∷ xs) = if x == id then without id xs else x ∷ without id xs

module _ {K V : Type 0} (same : K → K → Bool) where
  -- `NewTimingWheel`, given some memory; `none` is the error.
  unfoldable pub new_timing_wheel : ℕ → ℕ → (ℕ → Entry K V) → Option (TimingWheel K V)
  new_timing_wheel interval num_slots memory =
      if (interval == 0) || (num_slots == 0)
      then none
      else some (record {
        interval = interval;
        num_slots = num_slots;
        ticked_pos = num_slots - 1;
        slots = replicate num_slots [];
        timers = [];
        items = memory;
        fresh = 0;
      })

  abbrev pub slot : TimingWheel K V → ℕ → List ℕ
  slot w p = get_or w.slots p []

  -- `getPositionAndCircle`, for a delay of at least the interval
  unfoldable pub get_position_and_circle : TimingWheel K V → ℕ → ℕ × ℕ
  get_position_and_circle w d =
      let steps = d / w.interval in
      ((w.ticked_pos + steps) % w.num_slots, (steps - 1) / w.num_slots)

  -- `setTimerPosition`: a new position, or new fields of the one that is there
  unfoldable pub set_timer_position : TimingWheel K V → ℕ → ℕ → TimingWheel K V
  set_timer_position w pos id = record w {
    timers = insert same (w.items id).key (record { pos = pos; item = id }) w.timers;
  }

  -- `tw.slots[pos].PushBack(task)`
  abbrev pub push_back : TimingWheel K V → ℕ → ℕ → TimingWheel K V
  push_back w pos id = record w { slots = set w.slots pos (slot w pos ++ (id ∷ [])) }

  abbrev pub store_item : TimingWheel K V → ℕ → Entry K V → TimingWheel K V
  store_item w id e = record w { items = write w.items id e }

  -- `timer.item.removed = true`
  abbrev pub mark_removed : TimingWheel K V → ℕ → TimingWheel K V
  mark_removed w id = store_item w id (record (w.items id) { removed = true })

  -- A new entry in memory, put into a slot and into `timers`.
  unfoldable pub place : TimingWheel K V → ℕ → Entry K V → TimingWheel K V
  place w pos e =
      set_timer_position
        (push_back (record w { items = write w.items w.fresh e; fresh = w.fresh + 1 }) pos w.fresh)
        pos w.fresh

  -- `moveTask`, and the tasks that it executes
  unfoldable pub move_task : TimingWheel K V → K → ℕ → TimingWheel K V × List (K × V)
  move_task w key delay = elim (lookup same key w.timers) [
    | none ↦ (w, [])
    | some timer ↦
        let item = w.items timer.item in
        if ltb delay w.interval
        then (w, (item.key, item.value) ∷ [])
        else (let (pos, circle) = get_position_and_circle w delay in
            if leb timer.pos pos
            then (
              store_item w timer.item (record item { circle = circle; diff = pos - timer.pos }),
              [],
            )
            else (if ltb 0 circle
                then (
                  store_item w timer.item
                      (record item { circle = circle - 1; diff = (w.num_slots + pos) - timer.pos }),
                  [],
                )
                else (
                  place (mark_removed w timer.item) pos (record {
                    key = key;
                    value = item.value;
                    circle = 0;
                    diff = 0;
                    removed = false;
                  }),
                  [],
                )))
  ]

  -- `setTask`
  unfoldable pub set_task : TimingWheel K V → K → V → ℕ → TimingWheel K V × List (K × V)
  set_task w key value delay =
      let delay' = if ltb delay w.interval then w.interval else delay in
      elim (lookup same key w.timers) [
        | some entry ↦
            move_task (store_item w entry.item (record (w.items entry.item) { value = value })) key
              delay'
        | none ↦
            let (pos, circle) = get_position_and_circle w delay' in
            (
              place w pos
                  (record { key = key; value = value; circle = circle; diff = 0; removed = false }),
              [],
            )
      ]

  -- `removeTask`
  unfoldable pub remove_task : TimingWheel K V → K → TimingWheel K V
  remove_task w key = elim (lookup same key w.timers) [
    | none ↦ w
    | some timer ↦ record (mark_removed w timer.item) { timers = erase same key w.timers }
  ]

  abbrev pub unlink : TimingWheel K V → ℕ → TimingWheel K V
  unlink w id = record w { slots = set w.slots w.ticked_pos (without id (slot w w.ticked_pos)) }

  -- The body of the loop of `scanAndRunTasks` for one entry of the slot, and the task it collects
  unfoldable pub scan_one : TimingWheel K V → ℕ → TimingWheel K V × List (K × V)
  scan_one w id =
      let task = w.items id in
      if task.removed
      then (unlink w id, [])
      else (if ltb 0 task.circle
          then (store_item w id (record task { circle = task.circle - 1 }), [])
          else (if ltb 0 task.diff
              then (let pos = (w.ticked_pos + task.diff) % w.num_slots in
                  let w' = set_timer_position (push_back (unlink w id) pos id) pos id in
                  (store_item w' id (record task { diff = 0 }), []))
              else (
                record (unlink w id) { timers = erase same task.key w.timers },
                (task.key, task.value) ∷ [],
              )))

  -- The loop. A task with a `diff` goes to another slot, so the entries are those at the start.
  unfoldable pub scan_and_run_tasks : TimingWheel K V → List ℕ → TimingWheel K V × List (K × V)
  scan_and_run_tasks w [] = (w, [])
  scan_and_run_tasks w (id ∷ ids) =
      let (w', tasks) = scan_one w id in
      let (w'', more) = scan_and_run_tasks w' ids in (w'', tasks ++ more)

  -- `onTick`
  unfoldable pub on_tick : TimingWheel K V → TimingWheel K V × List (K × V)
  on_tick w =
      let w' = record w { ticked_pos = (w.ticked_pos + 1) % w.num_slots } in
      scan_and_run_tasks w' (slot w' w'.ticked_pos)

  -- `drainAll`: the slots one after the other, and in a slot the entries that are not removed
  unfoldable pub drain_slot : (ℕ → Entry K V) → List ℕ → List (K × V)
  drain_slot items [] = []
  drain_slot items (id ∷ ids) =
      let rest = drain_slot items ids in
      if (items id).removed then rest else ((items id).key, (items id).value) ∷ rest

  unfoldable pub drain_slots : (ℕ → Entry K V) → List (List ℕ) → List (List ℕ) × List (K × V)
  drain_slots items [] = ([], [])
  drain_slots items (l ∷ slots) =
      let (left, tasks) = drain_slots items slots in ([] ∷ left, drain_slot items l ++ tasks)

  unfoldable pub drain_all : TimingWheel K V → TimingWheel K V × List (K × V)
  drain_all w =
      let (left, tasks) = drain_slots w.items w.slots in (record w { slots = left }, tasks)
