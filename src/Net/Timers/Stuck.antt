-- ===== src/Net/Timers/Stuck.antt =====
-- A wait of an hour or more switches the wheel off for good.
use quickjab.Prelude.{
  if◌then◌else◌, not, ap, ◌∙◌, ℕ, ◌+◌, ◌≤◌, ◌<◌, ◌≡◌, refl, List, [], ◌∷◌, arith, true, false,
}
use quickjab.Int.{ℤ, pos}
use quickjab.Outcome.{◌>>=◌, Outcome, ok}
use quickjab.Net.Timers.{
  routed, Timer, Wheel, ms_ns, one_hour, to_int32, next_wake, tick, pol_timer, set_timeout,
  set_interval, clear_timeout, run_due, due_at, wait_ms, soonest,
}

-- What a program calls between ticks.
pub data Command : Type 0 where
  timeout : ℕ → Command
  interval : ℕ → Command
  clear : ℕ → Command

module _ (clock : ℕ → ℕ) where
  abbrev pub obey : List Command → Wheel → Wheel
  obey [] w = w
  obey (timeout ms ∷ cs) w = obey cs (set_timeout clock ms w).1
  obey (interval ms ∷ cs) w = obey cs (set_interval clock ms w).1
  obey (clear i ∷ cs) w = obey cs (clear_timeout i w)

  -- The wheel believes that the poll loop calls it, and the poll loop does not.
  abbrev pub IsStuck : Wheel → Type 0
  IsStuck w = (w.on ≡ true) × (w.polled ≡ false)

  obey-IsStuck : (cs : List Command) (w : Wheel) → IsStuck w → IsStuck (obey cs w)
  unfolding set_timeout set_interval clear_timeout quickjab.Net.Timers.arm
  obey-IsStuck [] w h = h
  obey-IsStuck (timeout ms ∷ cs) w h = obey-IsStuck cs _ (refl, ground (arith, h))
  obey-IsStuck (interval ms ∷ cs) w h = obey-IsStuck cs _ (refl, ground (arith, h))
  obey-IsStuck (clear i ∷ cs) w h = obey-IsStuck cs _ h

  abbrev route : (ℕ → Wheel → Outcome Wheel) → Outcome (ℕ × Wheel) → Outcome (ℤ × Wheel)
  route callback o = o >>= λ r. ok (routed clock callback r)

  pol_timer_driven :
      (callback : ℕ → Wheel → Outcome Wheel) (w : Wheel)
      → w.polled ≡ true
      → pol_timer clock callback w ≡ route callback (tick clock callback w)
  unfolding pol_timer
  pol_timer_driven callback w h =
      ap (λ b. if not b then ok (pos (one_hour + 1), w) else route callback (tick clock callback w))
        h

  pol_timer_idle :
      (callback : ℕ → Wheel → Outcome Wheel) (w : Wheel)
      → w.polled ≡ false
      → pol_timer clock callback w ≡ ok (pos (one_hour + 1), w)
  unfolding pol_timer
  pol_timer_idle callback w h =
      ap (λ b. if not b then ok (pos (one_hour + 1), w) else route callback (tick clock callback w))
        h

  routed_long :
      (callback : ℕ → Wheel → Outcome Wheel) (ms : ℕ) (v : Wheel)
      → one_hour ≤ ms
      → ms < 2147483648
      → routed clock callback (ms, v) ≡ (pos ms, record v { polled = false })
  routed_long callback ms v long short = ground (arith, long, short)

  module _ (callback : ℕ → Wheel → Outcome Wheel) where
    -- Once a tick of the wheel asks for an hour or more (and less than 2^31 milliseconds) while
    -- `twOn` is set, no callback ever runs again, whatever timers the program sets or clears
    -- after it: the poll loop's timer calls nothing.
    pub long_wait_stuck :
        (w v : Wheel) (ms : ℕ) (cs : List Command)
        → w.polled ≡ true
        → tick clock callback w ≡ ok (ms, v)
        → v.on ≡ true
        → one_hour ≤ ms
        → ms < 2147483648
        → (u : Wheel) × (pol_timer clock callback w ≡ ok (pos ms, u))
          × (pol_timer clock callback (obey cs u) ≡ ok (pos (one_hour + 1), obey cs u))
          × (u.timers ≡ v.timers)
    long_wait_stuck w v ms cs driven ticked on long short =
        let u : Wheel = record v { polled = false } in
        let stuck = obey-IsStuck cs u (on, refl) in
        (
          u,
          pol_timer_driven callback w driven
              ∙ ap (route callback) ticked
              ∙ ap ok (routed_long callback ms v long short),
          pol_timer_idle callback (obey cs u) stuck.1,
          refl,
        )
