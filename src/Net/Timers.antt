-- ===== src/Net/Timers.antt =====
-- The timer wheel of net.c (`TW`, twTick, twArm, setTimeout, setInterval, clearTimeout) and the one
-- timer of pol.c that drives it (`pol.timer`, `pol._timer`). Times are whole nanoseconds, delays
-- whole milliseconds. Each reading of `pol.now` is a value of `clock`, in the order of the readings.
pub mod Wake
pub mod Stuck
pub mod Ids
pub mod Fired
use quickjab.Prelude.{
  ℕ, zero, suc, ◌+◌, ◌-◌, ◌*◌, ◌/◌, ◌%◌, ◌^◌, max, Bool, true, false, not, List, [], ◌∷◌, ◌++◌,
  Option, none, some, ltb, leb, ◌==◌, if◌then◌else◌,
}
use quickjab.Int.{ℤ, pos, negsuc}
use quickjab.Outcome.{Outcome, ok, err, ◌>>=◌}

-- An entry of `TW`; the callback is known by the id.
pub record Timer : Type 0 where
  pub id : ℕ
  pub due : ℕ
  pub period : ℕ

pub record Wheel : Type 0 where
  -- `TW`, in its insertion order.
  pub timers : List Timer
  pub next_id : ℕ
  -- `twOn`
  pub on : Bool
  -- The variable `timer` of pol.c: twTick, or null.
  pub polled : Bool
  -- How often the clock was read.
  pub reads : ℕ
  -- The arguments of pol.sooner as 32 bits, and the callbacks run; the last first.
  pub sooner : List ℕ
  pub fired : List ℕ

abbrev pub ms_ns : ℕ
ms_ns = 1000000

abbrev pub one_hour : ℕ
one_hour = 3600000

-- `ms | 0`
abbrev pub to_int32 : ℕ → ℤ
to_int32 n =
    if ltb (n % 2 ^ 32) (2 ^ 31) then pos (n % 2 ^ 32) else negsuc (2 ^ 32 - 1 - n % 2 ^ 32)

-- `twArm`
unfoldable pub arm : ℕ → Wheel → Wheel
arm ms w = record w {
  on = true;
  polled = if w.on then w.polled else true;
  sooner = (if ltb ms 1 then 1 else ms % 2 ^ 32) ∷ w.sooner;
}

-- `TW.delete(id)`
unfoldable pub remove : ℕ → List Timer → List Timer
remove i [] = []
remove i (t ∷ ts) = let rest = remove i ts in if t.id == i then rest else t ∷ rest

-- `t.dueNs = due` on the entry of `TW` with this id, if it is still there.
unfoldable pub postpone : ℕ → ℕ → List Timer → List Timer
postpone i due [] = []
postpone i due (t ∷ ts) =
    let rest = postpone i due ts in (if t.id == i then record t { due = due } else t) ∷ rest

-- The entries that are due, in order.
unfoldable pub due_at : ℕ → List Timer → List Timer
due_at now [] = []
due_at now (t ∷ ts) = let rest = due_at now ts in if leb t.due now then t ∷ rest else rest

-- The earliest of a due time and those of the entries.
unfoldable pub soonest : ℕ → List Timer → ℕ
soonest s [] = s
soonest s (t ∷ ts) = soonest (if ltb t.due s then t.due else s) ts

-- `Math.ceil((soon - now) / MS)`, and 1 where that is less.
unfoldable pub wait_ms : ℕ → ℕ → ℕ
wait_ms soon now = let ms = (soon - now + (ms_ns - 1)) / ms_ns in if ltb ms 1 then 1 else ms

unfoldable pub clear_timeout : ℕ → Wheel → Wheel
unfolding remove
clear_timeout i w = record w { timers = remove i w.timers }

module _ (clock : ℕ → ℕ) where
  abbrev pub add_timer : ℕ → ℕ → Wheel → ℕ × Wheel
  add_timer ms period w = (
    w.next_id,
    arm ms (record w {
      timers =
          w.timers
          ++ (record { id = w.next_id; due = clock w.reads + ms * ms_ns; period = period } ∷ []);
      next_id = w.next_id + 1;
      reads = w.reads + 1;
    }),
  )

  unfoldable pub set_timeout : ℕ → Wheel → ℕ × Wheel
  unfolding arm
  set_timeout ms w = add_timer ms 0 w

  unfoldable pub set_interval : ℕ → Wheel → ℕ × Wheel
  unfolding arm
  set_interval ms w = add_timer (max 1 ms) (max 1 ms * ms_ns) w

  -- What comes before the callback of a due entry.
  unfoldable pub settle : Timer → Wheel → Wheel
  unfolding remove postpone
  settle t w =
      if ltb 0 t.period
      then record w {
        timers = postpone t.id (clock w.reads + t.period) w.timers;
        reads = w.reads + 1;
      }
      else record w { timers = remove t.id w.timers }

  -- What twTick returns once the callbacks ran, by the entries that are left.
  abbrev pub wake_for : List Timer → Wheel → ℕ × Wheel
  wake_for [] w = (one_hour + 1, record w { on = false })
  wake_for (t ∷ ts) w =
      (wait_ms (soonest t.due ts) (clock w.reads), record w { reads = w.reads + 1 })

  unfoldable pub next_wake : Wheel → ℕ × Wheel
  next_wake w = wake_for w.timers w

  module _ (callback : ℕ → Wheel → Outcome Wheel) where
    -- The callbacks of the due entries; one that throws ends the tick.
    unfoldable pub run_due : List Timer → Wheel → Outcome Wheel
    unfolding settle
    run_due [] w = ok w
    run_due (t ∷ ts) w =
        let before = settle t w in
        callback t.id (record before { fired = t.id ∷ before.fired }) >>= λ after. run_due ts after

    -- `twTick`
    unfoldable pub tick : Wheel → Outcome (ℕ × Wheel)
    unfolding run_due due_at next_wake
    tick w = run_due (due_at (clock w.reads) w.timers) (record w { reads = w.reads + 1 }) >>= λ v.
        ok (next_wake v)

    abbrev pub routed : ℕ × Wheel → ℤ × Wheel
    routed (ms, w) = elim (to_int32 ms) [
      | pos n ↦ (pos n, if leb one_hour n then record w { polled = false } else w)
      | negsuc n ↦ (negsuc n, w)
    ]

    -- `pol._timer`, which the C timer calls.
    unfoldable pub pol_timer : Wheel → Outcome (ℤ × Wheel)
    unfolding tick
    pol_timer w = if not w.polled then ok (pos (one_hour + 1), w) else tick w >>= λ r. ok (routed r)
