-- ===== src/Tests/PolRuns.antt =====
-- Runs of the poll bridge.
use quickjab.Prelude.{
  ℕ, ◌<◌, ◌≡◌, refl, Bool, true, false, List, [], ◌∷◌, Option, none, some, String, arith,
  if◌then◌else◌, ◌==◌,
}
use quickjab.Int.{negsuc, ℤ, pos}
use quickjab.Outcome.{Outcome, ok, err}
use quickjab.Arg.{Double, whole}
use quickjab.Pol.{
  Pol, PolLib, Handlers, fd_trampoline, timer_trampoline, table_get, watch, run, init,
}
use quickjab.Pol.Run.{Steps, ended, called_fd, called_timer}
use quickjab.Pol.Router.{fd_trampoline_agrees}
use quickjab.Pol.Deaf.{init_refused_clears}

-- A loop that knows only whether it was stopped.
abbrev flag : PolLib Bool
flag = record {
  track_events = λ fd ev l. (true, l);
  add_events = λ fd ev l. (true, l);
  ignore_events = λ fd l. l;
  track_time = λ l. (true, l);
  add_time = λ ms l. l;
  ignore_time = λ l. l;
  stop = λ l. true;
  stopped = λ l. l;
  free = λ l. false;
  init = λ mx l. (true, false);
  any = λ l. true;
  now = λ l. 0;
  sleep = λ n l. l;
}

-- Handler 1 throws, any other answers the mask 4.
abbrev first_throw : ℤ → String
first_throw (pos n) = if n == 1 then "first" else "later"
first_throw (negsuc n) = "later"

abbrev throws_at_one : Handlers Bool
throws_at_one = record {
  on_fd = λ h fd ev p. (if h == 1 then err (first_throw ev) else ok (whole (pos 4)), p);
  on_time = λ f ns p. (ok (whole (pos 10)), p);
  jobs = λ p. p;
}

abbrev idle : Pol Bool
idle = record {
  lib = false;
  table = (whole (pos 7), 1) ∷ ((whole (pos 8), 2) ∷ []);
  default = none;
  timer = none;
  exc = none;
  running = false;
  thrown = [];
}

-- Two events on the descriptor 7, the second after the stop.
abbrev two_events : Option ℕ → Pol Bool → Pol Bool
two_events n p =
    (fd_trampoline flag throws_at_one (pos 7) (pos 2)
      (fd_trampoline flag throws_at_one (pos 7) (pos 1) p).1).1

abbrev ran : Outcome (Unit {0}) × Pol Bool
ran = run flag throws_at_one two_events (whole (pos 1000)) idle

-- Handler 1 throws its event, and the run throws the first.
ran_throws : (ran.0 ≡ err "first") × (ran.1.thrown ≡ "later" ∷ "first" ∷ [])
unfolding run fd_trampoline
ran_throws = (refl, refl)

has_two : table_get (whole (pos 8)) idle.table ≡ some 2
unfolding table_get
has_two = refl

fd_trampoline_agrees_example :
    (t : List (Double × ℕ)) × (fd_trampoline flag throws_at_one (pos 8) (pos 1) idle
      ≡ (pos 4, record idle { table = t }))
    × (◌≡◌ {A = ℕ} 4 0 → table_get (whole (pos 8)) t ≡ none)
    × (0 < 4 → t ≡ idle.table)
fd_trampoline_agrees_example =
    fd_trampoline_agrees flag throws_at_one (pos 8) (pos 1) 2 4 (whole (pos 4)) idle idle has_two
      refl refl (omega arith)

abbrev with_nine : Pol Bool
with_nine = record idle {
  table = (whole (pos 7), 1) ∷ ((whole (pos 8), 2) ∷ ((whole (pos 9), 2) ∷ []));
}

watched :
    watch flag throws_at_one (whole (pos 9)) (whole (pos 1)) (some 2) idle ≡ (ok tt, with_nine)
unfolding watch
watched = refl

abbrev inside : Pol Bool
inside = record idle { running = true }

-- What the loop then serves: the timer, and an event on the descriptor 8, which had a handler.
abbrev refused : Pol Bool
refused = (init flag throws_at_one (whole (pos 64)) inside).1

abbrev served : Pol Bool
served =
    (fd_trampoline flag throws_at_one (pos 8) (pos 1)
      (timer_trampoline flag throws_at_one 5 refused).1).1

served-Steps : Steps flag throws_at_one refused served
served-Steps =
    called_timer refused 5
      (called_fd (timer_trampoline flag throws_at_one 5 refused).1 (pos 8) (pos 1) (ended served))

init_refused_clears_example :
    ((init flag throws_at_one (whole (pos 64)) inside).0
      ≡ err "pol.init: called from inside the loop")
    × (refused.lib ≡ false)
    × (served.table ≡ [])
    × (served.default ≡ none)
    × (served.timer ≡ none)
    × (served.thrown ≡ [])
    × (fd_trampoline flag throws_at_one (pos 9) (pos 1) served ≡ (pos 0, served))
    × (timer_trampoline flag throws_at_one 9 served ≡ (3600001, served))
init_refused_clears_example =
    init_refused_clears flag throws_at_one (λ p. refl) (whole (pos 64)) inside refl served
      served-Steps (pos 9) (pos 1) 9
