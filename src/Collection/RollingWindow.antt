-- ===== src/Collection/RollingWindow.antt =====
-- core/collection/rollingwindow.go: `RollingWindow`. A clock reading is an argument of the method
-- that takes it; `Add` takes two, one in `span` and one in `updateOffset`.
pub mod Slots
pub mod Tally
pub mod Advance
pub mod Calls
pub mod History
use go_zero.Prelude.{
  ℕ, zero, suc, ◌+◌, ◌-◌, ◌/◌, ◌%◌, ltb, leb, ◌==◌, ◌&&◌, if◌then◌else◌, Bool, List, [], ◌∷◌,
  Option, none, some,
}
use go_zero.Collection.Bucket.{Bucket, Buckets, new_buckets, add_at, reset_at, visit}

pub record RollingWindow {ℓ} (V : Type ℓ) : Type ℓ where
  pub size : ℕ
  pub win : Buckets V
  pub interval : ℕ
  pub offset : ℕ
  pub ignore_current : Bool
  pub last_time : ℕ

-- `int(timex.Since(rw.lastTime) / rw.interval)`, with Go's division towards zero; `none` is a
-- negative result.
abbrev pub elapsed : ℕ → ℕ → ℕ → Option ℕ
elapsed now last interval =
    if leb last now
    then some ((now - last) / interval)
    else if (last - now) / interval == 0
    then some 0
    else none

-- `now - (now-rw.lastTime)%rw.interval`; the remainder has the sign of the dividend.
abbrev pub align : ℕ → ℕ → ℕ → ℕ
align now last interval =
    if leb last now then now - (now - last) % interval else now + (last - now) % interval

module _ {ℓ} {V : Type ℓ} (nought : V) (plus : V → V → V) where
  -- `NewRollingWindow`, the option `IgnoreCurrentBucket` as a flag; `none` is the panic.
  unfoldable pub new_rolling_window : ℕ → ℕ → Bool → ℕ → Option (RollingWindow V)
  new_rolling_window size interval ignore now =
      if ltb size 1
      then none
      else some (record {
        size = size;
        win = new_buckets nought plus size;
        interval = interval;
        offset = 0;
        ignore_current = ignore;
        last_time = now;
      })

  unfoldable pub span : RollingWindow V → ℕ → ℕ
  span rw now = elim (elapsed now rw.last_time rw.interval) [
    | none ↦ rw.size
    | some offset ↦ if ltb offset rw.size then offset else rw.size
  ]

  -- The loop of `updateOffset` over the expired buckets, `i` rounds left; `s` is `offset + i + 1`.
  unfoldable pub reset_expired : Buckets V → ℕ → ℕ → ℕ → Buckets V
  reset_expired w size s zero = w
  reset_expired w size s (suc i) = reset_expired (reset_at nought plus w (s % size)) size (s + 1) i

  unfoldable pub update_offset : RollingWindow V → ℕ → ℕ → RollingWindow V
  update_offset rw since now =
      let expired = span rw since in
      if leb expired 0 then rw else record rw {
        win = reset_expired rw.win rw.size (rw.offset + 1) expired;
        offset = (rw.offset + expired) % rw.size;
        last_time = align now rw.last_time rw.interval;
      }

  unfoldable pub add : RollingWindow V → ℕ → ℕ → V → RollingWindow V
  add rw since now v =
      let rw' = update_offset rw since now in
      record rw' { win = add_at nought plus rw'.win rw'.offset v }

  -- `Reduce`: the buckets that `fn` is called on, in order.
  unfoldable pub reduce : RollingWindow V → ℕ → List (Bucket V)
  reduce rw now =
      let spanned = span rw now in
      let diff = if (spanned == 0) && rw.ignore_current then rw.size - 1 else rw.size - spanned in
      if ltb 0 diff then visit nought plus rw.win ((rw.offset + spanned + 1) % rw.size) diff else []
