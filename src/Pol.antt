-- ===== src/Pol.antt =====
-- The poll bridge of pol.c: the table of handlers in its JS bundle, the two routers, the C
-- trampolines that call them, the native leaves, and the exception that is kept while the loop runs.
-- The loop of abc/POL and its calls are a parameter (PolLib), and so are the handlers (Handlers).
pub mod Run
pub mod Router
pub mod Deaf
use quickjab.Prelude.{
  ℕ, zero, suc, ◌+◌, ◌-◌, ◌%◌, ◌^◌, Bool, true, false, not, ◌&&◌, ◌||◌, List, [], ◌∷◌, Option, none,
  some, String, ltb, leb, ◌==◌, if◌then◌else◌,
}
use quickjab.Int.{ℤ, pos, negsuc}
use quickjab.Outcome.{Outcome, ok, err}
use quickjab.Arg.{Double, nan, infinity, minus_infinity, whole, between, to_i64, to_u64}

-- abc/POL: its state, and its calls; a Bool is whether the code returned is OK. Events and masks are
-- 16 bits, descriptors 32-bit integers.
pub record PolLib (L : Type 0) : Type 0 where
  pub track_events : ℤ → ℕ → L → Bool × L
  pub add_events : ℤ → ℤ → L → Bool × L
  pub ignore_events : ℤ → L → L
  pub track_time : L → Bool × L
  pub add_time : ℤ → L → L
  pub ignore_time : L → L
  pub stop : L → L
  pub stopped : L → Bool
  pub free : L → L
  pub init : ℤ → L → Bool × L
  pub any : L → Bool
  pub now : L → ℕ
  pub sleep : ℕ → L → L

-- What `timer` holds: the function given to pol.timer, or one of those that pol.every and pol.after
-- make. JS functions are numbers.
pub data TimerFn : Type 0 where
  raw : ℕ → TimerFn
  every_ms : Double → ℕ → TimerFn
  once : ℕ → TimerFn

pub record Pol (L : Type 0) : Type 0 where
  pub lib : L
  -- `table`, the key a JS number
  pub table : List (Double × ℕ)
  -- `pol.default`
  pub default : Option ℕ
  pub timer : Option TimerFn
  -- JABC_POL_EXC, where JABC_POL_THREW is set
  pub exc : Option String
  -- JABC_POL_RUNNING
  pub running : Bool
  -- What the handlers that C called threw, the last first.
  pub thrown : List String

-- The JS functions: a handler gets a descriptor and events, a timer function the deadline. Each may
-- call anything of `pol`. `jobs` is JABCDrainJobs.
pub record Handlers (L : Type 0) : Type 0 where
  pub on_fd : ℕ → ℤ → ℤ → Pol L → Outcome Double × Pol L
  pub on_time : ℕ → ℕ → Pol L → Outcome Double × Pol L
  pub jobs : Pol L → Pol L

abbrev pub same_int : ℤ → ℤ → Bool
same_int (pos a) (pos b) = a == b
same_int (negsuc a) (negsuc b) = a == b
same_int _ _ = false

-- The SameValueZero of a Map's keys
abbrev pub same_key : Double → Double → Bool
same_key nan nan = true
same_key infinity infinity = true
same_key minus_infinity minus_infinity = true
same_key (whole a) (whole b) = same_int a b
same_key (between a) (between b) = same_int a b
same_key _ _ = false

unfoldable pub table_get : Double → List (Double × ℕ) → Option ℕ
table_get k [] = none
table_get k ((j, h) ∷ t) = let rest = table_get k t in if same_key j k then some h else rest

unfoldable pub table_delete : Double → List (Double × ℕ) → List (Double × ℕ)
table_delete k [] = []
table_delete k ((j, h) ∷ t) =
    let rest = table_delete k t in if same_key j k then rest else (j, h) ∷ rest

unfoldable pub table_set : Double → ℕ → List (Double × ℕ) → List (Double × ℕ)
table_set k h [] = (k, h) ∷ []
table_set k h ((j, g) ∷ t) =
    let rest = table_set k h t in if same_key j k then (j, h) ∷ t else (j, g) ∷ rest

-- The low 32 bits as a signed number
abbrev pub wrap32 : ℤ → ℤ
wrap32 (pos n) =
    if ltb (n % 2 ^ 32) (2 ^ 31) then pos (n % 2 ^ 32) else negsuc (2 ^ 32 - 1 - n % 2 ^ 32)
wrap32 (negsuc n) =
    if ltb (n % 2 ^ 32) (2 ^ 31) then negsuc (n % 2 ^ 32) else pos (2 ^ 32 - 1 - n % 2 ^ 32)

-- `d | 0`, and JS_ToInt32: 0 for NaN and the infinities.
abbrev pub int32_of : Double → ℤ
int32_of d = wrap32 (to_i64 d)

-- The low 16 bits, as `(u16)` and as `(short)`
abbrev pub low16 : ℤ → ℕ
low16 (pos n) = n % 2 ^ 16
low16 (negsuc n) = 2 ^ 16 - 1 - n % 2 ^ 16

abbrev pub short_of : ℤ → ℤ
short_of z = if ltb (low16 z) (2 ^ 15) then pos (low16 z) else negsuc (2 ^ 16 - 1 - low16 z)

module _ {L : Type 0} (lib : PolLib L) (js : Handlers L) where
  abbrev pub first_of : Option String → String → Option String
  first_of none e = some e
  first_of (some f) e = some f

  -- JABCPolStash
  unfoldable pub stash : String → Pol L → Pol L
  stash e p = record p { exc = first_of p.exc e; lib = lib.stop p.lib; thrown = e ∷ p.thrown }

  -- JABCPolCall, from what the router did: its number, or -1 where it threw.
  unfoldable pub pol_call : Outcome ℤ × Pol L → ℤ × Pol L
  unfolding stash
  pol_call (ok m, p) = (m, js.jobs p)
  pol_call (err e, p) = (negsuc 0, js.jobs (stash e p))

  abbrev pub after_handler : Double → Outcome Double × Pol L → Outcome ℤ × Pol L
  after_handler fd (err e, p) = (err e, p)
  after_handler fd (ok d, p) = (
    ok (int32_of d),
    if same_int (int32_of d) (pos 0) then record p { table = table_delete fd p.table } else p,
  )

  abbrev pub handler_of : Option ℕ → Option ℕ → Option ℕ
  handler_of (some h) d = some h
  handler_of none d = d

  abbrev pub routed_to : Option ℕ → ℤ → ℤ → Pol L → Outcome ℤ × Pol L
  routed_to none fd revents p = (ok (pos 0), record p { table = table_delete (whole fd) p.table })
  routed_to (some h) fd revents p = after_handler (whole fd) (js.on_fd h fd revents p)

  -- `pol._fd`
  unfoldable pub fd_router : ℤ → ℤ → Pol L → Outcome ℤ × Pol L
  unfolding table_get table_delete
  fd_router fd revents p =
      routed_to (handler_of (table_get (whole fd) p.table) p.default) fd revents p

  abbrev pub mask_of : ℤ × Pol L → ℤ × Pol L
  mask_of (negsuc n, p) = (pos 0, p)
  mask_of (pos n, p) = (short_of (pos n), p)

  -- JABCPolFd
  unfoldable pub fd_trampoline : ℤ → ℤ → Pol L → ℤ × Pol L
  unfolding pol_call fd_router
  fd_trampoline fd revents p = mask_of (pol_call (fd_router fd revents p))

  abbrev pub kept : Double → Outcome Double × Pol L → Outcome Double × Pol L
  kept d (ok _, p) = (ok d, p)
  kept d (err e, p) = (err e, p)

  -- `timer(ns)`, of the functions that pol.timer, pol.every and pol.after set.
  unfoldable pub call_timer : TimerFn → ℕ → Pol L → Outcome Double × Pol L
  call_timer (raw f) ns p = js.on_time f ns p
  call_timer (every_ms ms f) ns p = kept ms (js.on_time f ns p)
  call_timer (once f) ns p = kept (whole (pos 3600001)) (js.on_time f ns p)

  abbrev pub is_hour : ℤ → Bool
  is_hour (pos n) = leb 3600000 n
  is_hour (negsuc n) = false

  abbrev pub after_timer : Outcome Double × Pol L → Outcome ℤ × Pol L
  after_timer (err e, p) = (err e, p)
  after_timer (ok d, p) =
      (ok (int32_of d), if is_hour (int32_of d) then record p { timer = none } else p)

  abbrev pub timed_by : Option TimerFn → ℕ → Pol L → Outcome ℤ × Pol L
  timed_by none ns p = (ok (pos 3600001), p)
  timed_by (some t) ns p = after_timer (call_timer t ns p)

  -- `pol._timer`
  unfoldable pub timer_router : ℕ → Pol L → Outcome ℤ × Pol L
  unfolding call_timer
  timer_router ns p = timed_by p.timer ns p

  abbrev pub period_of : ℤ × Pol L → ℕ × Pol L
  period_of (negsuc n, p) = (3600000, p)
  period_of (pos n, p) = (n, p)

  -- JABCPolTimer
  unfoldable pub timer_trampoline : ℕ → Pol L → ℕ × Pol L
  unfolding pol_call timer_router
  timer_trampoline ns p = period_of (pol_call (timer_router ns p))

  -- A leaf's code and the state of the loop after it; a code that is not OK is thrown.
  abbrev pub done : String → Pol L → Bool × L → Outcome (Unit {0}) × Pol L
  done message p (true, l) = (ok tt, record p { lib = l })
  done message p (false, l) = (err message, record p { lib = l })

  -- `pol.watch`, with JABCPolWatch; the handler is optional.
  unfoldable pub watch : Double → Double → Option ℕ → Pol L → Outcome (Unit {0}) × Pol L
  unfolding table_set
  watch fd events none p =
      done "pol.watch failed" p (lib.track_events (int32_of fd) (low16 (int32_of events)) p.lib)
  watch fd events (some h) p =
      done "pol.watch failed" (record p { table = table_set fd h p.table })
        (lib.track_events (int32_of fd) (low16 (int32_of events)) p.lib)

  -- `pol.more`, with JABCPolMore
  unfoldable pub more : Double → Double → Pol L → Outcome (Unit {0}) × Pol L
  more fd events p =
      done "pol.more: fd not tracked" p
        (lib.add_events (int32_of fd) (short_of (int32_of events)) p.lib)

  -- `pol.unwatch`, with JABCPolUnwatch
  unfoldable pub unwatch : Double → Pol L → Pol L
  unfolding table_delete
  unwatch fd p = record p {
    table = table_delete fd p.table;
    lib = lib.ignore_events (int32_of fd) p.lib;
  }

  -- `pol.timer`, with JABCPolEvery
  unfoldable pub set_timer : TimerFn → Pol L → Outcome (Unit {0}) × Pol L
  set_timer t p = done "pol.every failed" (record p { timer = some t }) (lib.track_time p.lib)

  -- JABCPolSooner
  unfoldable pub sooner : Double → Pol L → Pol L
  sooner ms p = record p { lib = lib.add_time (int32_of ms) p.lib }

  abbrev pub soon_after : Double → Outcome (Unit {0}) × Pol L → Outcome (Unit {0}) × Pol L
  soon_after ms (ok _, p) = (ok tt, sooner ms p)
  soon_after ms (err e, p) = (err e, p)

  unfoldable pub every : Double → ℕ → Pol L → Outcome (Unit {0}) × Pol L
  unfolding set_timer
  every ms f p = set_timer (every_ms ms f) p

  unfoldable pub after : Double → ℕ → Pol L → Outcome (Unit {0}) × Pol L
  unfolding set_timer
  after ms f p = soon_after ms (set_timer (once f) p)

  -- `pol.untimer`, with JABCPolUntimer
  unfoldable pub untimer : Pol L → Pol L
  untimer p = record p { timer = none; lib = lib.ignore_time p.lib }

  -- JABCPolSleep
  unfoldable pub sleep : Double → Pol L → Pol L
  sleep d p = elim d [
    | whole (pos n) ↦ if ltb 0 n then record p { lib = lib.sleep n p.lib } else p
    | between (pos n) ↦ record p { lib = lib.sleep n p.lib }
    | _ ↦ p
  ]

  -- JABCPolInit, where the argument is `(maxfd | 0) || 4096`
  unfoldable pub init_leaf : ℤ → Pol L → Outcome (Unit {0}) × Pol L
  init_leaf mx p =
      if p.running
      then (err "pol.init: called from inside the loop", p)
      else done "pol.init failed" p (lib.init mx (lib.free p.lib))

  -- `pol.init`
  unfoldable pub init : Double → Pol L → Outcome (Unit {0}) × Pol L
  unfolding init_leaf
  init maxfd p =
      init_leaf (if same_int (int32_of maxfd) (pos 0) then pos 4096 else int32_of maxfd)
        (record p { table = []; timer = none; default = none })

  -- The nanoseconds of JABCPolRun; `none` is POLNever.
  abbrev pub run_ns : Double → Option ℕ
  run_ns (whole (pos n)) = some n
  run_ns (between (pos n)) = some n
  run_ns d = none

  -- What follows POLLoop.
  abbrev pub surface : Option String → Pol L → Outcome (Unit {0}) × Pol L
  surface none p = (ok tt, record p { running = false })
  surface (some e) p = (err e, record p { running = false; exc = none })

  abbrev pub surfaced : Pol L → Outcome (Unit {0}) × Pol L
  surfaced p = surface p.exc p

  -- `pol.run`, with JABCPolRun, where POLLoop is `loop`
  unfoldable pub run : (Option ℕ → Pol L → Pol L) → Double → Pol L → Outcome (Unit {0}) × Pol L
  run loop ns p = surfaced (loop (run_ns ns) (record p { running = true }))

  -- JABCUninstallPol, of what concerns the kept exception and the loop
  unfoldable pub uninstall : Pol L → Pol L
  uninstall p = record p { exc = none; lib = lib.free p.lib }
