-- ===== src/Tests/NetRuns.antt =====
-- Runs of the socket and of the timer wheel.
use quickjab.Prelude.{
  ◌≢◌, All, subst, ap, sym, ℕ, ◌+◌, ◌≡◌, refl, [], ◌∷◌, ◌++◌, map, none, some, true, false, ltb,
  arith, length,
}
use mathlib.Core.List.{List, reverse}
use quickjab.Int.{pos}
use quickjab.Outcome.{Outcome, ok}
use quickjab.Buf.{Buf, size, data_view}
use quickjab.Buf.Inv.{IsBuf}
use quickjab.Net.Socket.{
  Env, Socket, Event, Ready, took, nothing_yet, got, drain, write, send_loop, flush, poll, destroy,
  end, note, asked_out,
}
use quickjab.Net.Socket.Fifo.{write_appends}
use quickjab.Net.Socket.Flush.{Drains, IsDone, IsKernel, send_loop-Drains}
use quickjab.Net.Socket.Fin.{FinLast, flush_shut_empty, drain_end_cut}
use quickjab.Net.Socket.Once.{IsOnce, destroy-IsOnce, poll-IsOnce}
use quickjab.Net.Timers.{
  remove, Timer, Wheel, ms_ns, one_hour, due_at, tick, next_wake, pol_timer, set_timeout,
  set_interval, clear_timeout,
}
use quickjab.Net.Timers.Stuck.{timeout, obey, long_wait_stuck}
use quickjab.Net.Timers.Ids.{IsWheel, All-remove}
use quickjab.Net.Timers.Fired.{IsClient, IsGone, Picks, tick_fired}

-- A kernel that takes all, and listeners that do nothing.
abbrev still : Env
still = record {
  send = λ h x. took (length x);
  recv = λ h. nothing_yet;
  more = λ h. ok tt;
  listen = λ e s. s;
}

still-IsKernel : IsKernel still
still-IsKernel h [] n some_bytes e = absurd (some_bytes refl)
still-IsKernel h (c ∷ x) n some_bytes e = ground (arith, e)

abbrev two_waiting : Buf
two_waiting = record { bytes = 8 ∷ 9 ∷ 0 ∷ []; data_at = 0; idle_at = 2; cap = 3 }

two_waiting-IsBuf : IsBuf two_waiting
two_waiting-IsBuf = record { ordered = omega arith; within = omega arith; sized = refl }

abbrev nothing_waiting : Buf
nothing_waiting = record two_waiting { data_at = 2 }

nothing_waiting-IsBuf : IsBuf nothing_waiting
nothing_waiting-IsBuf = record { ordered = omega arith; within = omega arith; sized = refl }

abbrev fresh : Buf → Socket
fresh wb = record {
  wb = wb;
  read_ended = false;
  ending = false;
  wr_shut = false;
  closed = false;
  history = [];
}

abbrev leaving : Socket
leaving = record (fresh two_waiting) { ending = true }

write_appends_example :
    (c : Buf) × (write still (1 ∷ 2 ∷ 3 ∷ []) (fresh two_waiting)
      ≡ (note asked_out (record (fresh two_waiting) { wb = c }), ok (ltb (size c) 262144)))
    × (data_view c ≡ data_view two_waiting ++ (1 ∷ 2 ∷ 3 ∷ []))
    × IsBuf c
write_appends_example =
    write_appends still (fresh two_waiting) two_waiting-IsBuf (1 ∷ 2 ∷ 3 ∷ []) refl refl refl

send_loop-Drains_example :
    Drains leaving (send_loop still 2 leaving).0
    × ((send_loop still 2 leaving).1 ≡ none → IsDone (send_loop still 2 leaving).0)
send_loop-Drains_example =
    send_loop-Drains still still-IsKernel 2 leaving two_waiting-IsBuf (omega arith)

leaving_shut : (flush still leaving).wr_shut ≡ true
unfolding flush quickjab.Buf.skip
leaving_shut = refl

flush_shut_empty_example : FinLast (data_view two_waiting) (flush still leaving)
flush_shut_empty_example =
    flush_shut_empty still still-IsKernel (λ e s. refl) leaving two_waiting-IsBuf refl leaving_shut

abbrev last_words : Event → Socket → Socket
last_words drain s = (end still (some (7 ∷ [])) s).0
last_words _ s = s

drain_end_cut_example :
    ((flush (record still { listen = last_words }) (fresh nothing_waiting)).wr_shut ≡ true)
    × (data_view (flush (record still { listen = last_words }) (fresh nothing_waiting)).wb ≡ 7 ∷ [])
drain_end_cut_example =
    drain_end_cut (record still { listen = last_words }) still (fresh nothing_waiting) (7 ∷ [])
      nothing_waiting-IsBuf refl refl refl refl (λ t. refl) refl

-- Its listeners destroy the socket at every event.
abbrev hasty : Env
hasty = record still { recv = λ h. got (5 ∷ []); listen = λ e s. destroy still s }

abbrev readable : Ready
readable = record { failed = false; out = true; into = true; hup = false }

poll-IsOnce_example : IsOnce (poll hasty readable leaving).0
poll-IsOnce_example =
    poll-IsOnce hasty (λ e s v. destroy-IsOnce still (λ d t u. u) s v) readable leaving
      (record { close_once = refl; shut_once = refl; end_once = refl })

-- A one-shot and a periodic timer.
abbrev two_timers : Wheel
two_timers = record {
  timers =
      record { id = 1; due = 500; period = 0 }
      ∷ record { id = 2; due = 9000000; period = 7000000 }
      ∷ [];
  next_id = 3;
  on = true;
  polled = true;
  reads = 0;
  sooner = [];
  fired = [];
}

abbrev clock : ℕ → ℕ
clock n = 1000 + n

two_timers-IsWheel : IsWheel two_timers
two_timers-IsWheel = record {
  below = (omega arith, (omega arith, tt));
  apart = ((omega arith, tt), (tt, tt));
}

-- The callback of each timer clears the periodic one.
abbrev clearing : ℕ → Wheel → Outcome Wheel
clearing i w = ok (clear_timeout 2 w)

-- Both timers are due, and the first callback clears the second timer.
abbrev late : ℕ → ℕ
late n = 9500000 + n

abbrev ticked : Wheel
ticked = record two_timers { timers = []; on = false; reads = 2; fired = 2 ∷ 1 ∷ [] }

late-tick : tick late clearing two_timers ≡ ok (one_hour + 1, ticked)
unfolding tick clear_timeout
late-tick = refl

cleared : (w v : Wheel) → clear_timeout 2 w ≡ v → v.timers ≡ remove 2 w.timers
unfolding clear_timeout
cleared w v e = sym (ap (λ (u : Wheel). u.timers) e)

clearing-IsClient : IsClient late clearing
unfolding clear_timeout
clearing-IsClient = record {
  runs_none =
      λ i w v e. sym (ap (λ (u : Wheel). u.fired) (let f : clear_timeout 2 w ≡ v = cc e in f));
  hands_out = λ i w v e.
      omega (arith, ap (λ (u : Wheel). u.next_id) (let f : clear_timeout 2 w ≡ v = cc e in f));
  stays_gone = λ i w v e j l h.
      subst (All (λ t. t.id ≢ j)) (sym (cleared w v (cc e)))
        (All-remove (λ t. t.id ≢ j) 2 w.timers h);
}

tick_fired_example :
    (due : List Timer) × Picks late clearing (late 0) two_timers.timers due
    × (ticked.fired ≡ reverse (map (λ (t : Timer). t.id) due) ++ [])
    × All (λ t. t.period ≡ 0 → IsGone late clearing t.id ticked) due
tick_fired_example =
    tick_fired late clearing clearing-IsClient two_timers ticked two_timers-IsWheel (one_hour + 1)
      late-tick

-- One timer, to fire in two hours.
abbrev far : Wheel
far = record two_timers { timers = record { id = 1; due = 7200000001001; period = 0 } ∷ [] }

far-tick : tick clock (λ i w. ok w) far ≡ ok (7200000, record far { reads = 2 })
unfolding tick quickjab.Net.Timers.wait_ms quickjab.Net.Timers.soonest
far-tick = refl

long_wait_stuck_example :
    (u : Wheel) × (pol_timer clock (λ i w. ok w) far ≡ ok (pos 7200000, u))
    × (pol_timer clock (λ i w. ok w) (obey clock (timeout 5 ∷ []) u)
        ≡ ok (pos (one_hour + 1), obey clock (timeout 5 ∷ []) u))
    × (u.timers ≡ far.timers)
long_wait_stuck_example =
    long_wait_stuck clock (λ i w. ok w) far (record far { reads = 2 }) 7200000 (timeout 5 ∷ []) refl
      far-tick refl (omega arith) (omega arith)
