-- ===== src/Pol/Run.antt =====
-- A run of the loop as a sequence of steps, and what becomes of an exception in it.
use quickjab.Prelude.{
  ℕ, ◌≡◌, refl, sym, ap, ◌∙◌, ◌⊎◌, true, false, if_cases, subst, List, [], ◌∷◌, ◌++◌, Option, none,
  some, String,
}
use quickjab.Int.{ℤ}
use quickjab.Outcome.{Outcome, ok, err}
use quickjab.Arg.{Double}
use quickjab.Pol.{
  Pol, PolLib, first_of, Handlers, TimerFn, raw, every_ms, once, stash, pol_call, mask_of,
  period_of, fd_router, fd_trampoline, timer_router, timer_trampoline, call_timer, routed_to,
  after_handler, after_timer, is_hour, int32_of, kept, same_int, timed_by,
}

module _ {L : Type 0} (lib : PolLib L) (js : Handlers L) where
  -- What POLLoop does from one state of the bridge to another: it waits, which changes its own state
  -- and does not take a stop back, and it calls the trampolines.
  pub data Steps : Pol L → Pol L → Type 0 where
    ended : (p : Pol L) → Steps p p
    waited :
        (p : Pol L) (l : L) {q : Pol L}
        → (lib.stopped p.lib ≡ true → lib.stopped l ≡ true)
        → Steps (record p { lib = l }) q
        → Steps p q
    called_fd :
        (p : Pol L) (fd revents : ℤ) {q : Pol L}
        → Steps (fd_trampoline lib js fd revents p).1 q
        → Steps p q
    called_timer :
        (p : Pol L) (ns : ℕ) {q : Pol L} → Steps (timer_trampoline lib js ns p).1 q → Steps p q

  -- Two states with the same kept exception, after the same throws, where a stop is not taken back.
  abbrev pub IsAsQuiet : Pol L → Pol L → Type 0
  IsAsQuiet p q =
      (q.exc ≡ p.exc)
      × (q.thrown ≡ p.thrown)
      × (lib.stopped p.lib ≡ true → lib.stopped q.lib ≡ true)

  -- The handlers and the jobs do not run the loop themselves, nor take a stop back; POLStop stops.
  pub record IsQuiet : Type 0 where
    pub on_fd : (h : ℕ) (fd ev : ℤ) (p : Pol L) → IsAsQuiet p (js.on_fd h fd ev p).1
    pub on_time : (f ns : ℕ) (p : Pol L) → IsAsQuiet p (js.on_time f ns p).1
    pub jobs : (p : Pol L) → IsAsQuiet p (js.jobs p)
    pub stop_stops : (l : L) → lib.stopped (lib.stop l) ≡ true

  -- Nothing was thrown; or the first that was thrown is kept, and the loop is stopped.
  pub data KeepsFirst (exc : Option String) (thrown : List String) (l : L) : Type 0 where
    calm : exc ≡ none → thrown ≡ [] → KeepsFirst exc thrown l
    held :
        (e : String) (later : List String)
        → exc ≡ some e
        → thrown ≡ later ++ (e ∷ [])
        → lib.stopped l ≡ true
        → KeepsFirst exc thrown l

  abbrev pub IsHeld : Pol L → Type 0
  IsHeld p = KeepsFirst p.exc p.thrown p.lib

  kept_on : (p q : Pol L) → IsAsQuiet p q → IsHeld p → IsHeld q
  kept_on p q (x, t, s) (calm a b) = calm (x ∙ a) (t ∙ b)
  kept_on p q (x, t, s) (held e later a b c) = held e later (x ∙ a) (t ∙ b) (s c)

  mask_same : (r : ℤ × Pol L) → (mask_of lib js r).1 ≡ r.1
  mask_same (quickjab.Int.pos n, p) = refl
  mask_same (quickjab.Int.negsuc n, p) = refl

  period_same : (r : ℤ × Pol L) → (period_of lib js r).1 ≡ r.1
  period_same (quickjab.Int.pos n, p) = refl
  period_same (quickjab.Int.negsuc n, p) = refl

  -- What pol.run did, by what was thrown in it.
  abbrev pub Surfaced : Outcome (Unit {0}) × Pol L → Type 0
  Surfaced r =
      (((r.1.thrown ≡ []) × (r.0 ≡ ok tt))
        ⊎ ((e : String) × (later : List String) × (r.1.thrown ≡ later ++ (e ∷ []))
            × (r.0 ≡ err e)
            × (lib.stopped r.1.lib ≡ true)))
      × (r.1.exc ≡ none)
      × (r.1.running ≡ false)

  module _ (quiet : IsQuiet) where
    stash-IsHeld : (e : String) (p : Pol L) → IsHeld p → IsHeld (stash lib js e p)
    unfolding stash
    stash-IsHeld e p (calm a b) =
        held e [] (ap (λ x. first_of lib js x e) a) (ap (λ l. e ∷ l) b) (quiet.stop_stops p.lib)
    stash-IsHeld e p (held f later a b c) =
        held f (e ∷ later) (ap (λ x. first_of lib js x e) a) (ap (λ l. e ∷ l) b)
          (quiet.stop_stops p.lib)

    pol_call-IsHeld : (r : Outcome ℤ × Pol L) → IsHeld r.1 → IsHeld (pol_call lib js r).1
    unfolding pol_call
    pol_call-IsHeld (ok m, p) c = kept_on p (js.jobs p) (quiet.jobs p) c
    pol_call-IsHeld (err e, p) c =
        let s = stash lib js e p in kept_on s (js.jobs s) (quiet.jobs s) (stash-IsHeld e p c)

    after_handler-IsHeld :
        (fd : Double) (r : Outcome Double × Pol L)
        → IsHeld r.1
        → IsHeld (after_handler lib js fd r).1
    after_handler-IsHeld fd (err e, p) c = c
    after_handler-IsHeld fd (ok d, p) c =
        if_cases IsHeld (same_int (int32_of d) (quickjab.Int.pos 0)) (λ e. c) (λ e. c)

    routed_to-IsHeld :
        (h : Option ℕ) (fd ev : ℤ) (p : Pol L) → IsHeld p → IsHeld (routed_to lib js h fd ev p).1
    routed_to-IsHeld none fd ev p c = c
    routed_to-IsHeld (some h) fd ev p c =
        after_handler-IsHeld (quickjab.Arg.whole fd) (js.on_fd h fd ev p)
          (kept_on p (js.on_fd h fd ev p).1 (quiet.on_fd h fd ev p) c)

    kept-IsHeld :
        (d : Double) (r : Outcome Double × Pol L) → IsHeld r.1 → IsHeld (kept lib js d r).1
    kept-IsHeld d (ok x, p) c = c
    kept-IsHeld d (err e, p) c = c

    call_timer-IsHeld :
        (t : TimerFn) (ns : ℕ) (p : Pol L) → IsHeld p → IsHeld (call_timer lib js t ns p).1
    unfolding call_timer
    call_timer-IsHeld (raw f) ns p c = kept_on p (js.on_time f ns p).1 (quiet.on_time f ns p) c
    call_timer-IsHeld (every_ms d f) ns p c =
        kept-IsHeld _ _ (kept_on p (js.on_time f ns p).1 (quiet.on_time f ns p) c)
    call_timer-IsHeld (once f) ns p c =
        kept-IsHeld _ _ (kept_on p (js.on_time f ns p).1 (quiet.on_time f ns p) c)

    after_timer-IsHeld : (r : Outcome Double × Pol L) → IsHeld r.1 → IsHeld (after_timer lib js r).1
    after_timer-IsHeld (err e, p) c = c
    after_timer-IsHeld (ok d, p) c = if_cases IsHeld (is_hour lib js (int32_of d)) (λ e. c) (λ e. c)

    timed_by-IsHeld :
        (t : Option TimerFn) (ns : ℕ) (p : Pol L) → IsHeld p → IsHeld (timed_by lib js t ns p).1
    timed_by-IsHeld none ns p c = c
    timed_by-IsHeld (some t) ns p c =
        after_timer-IsHeld (call_timer lib js t ns p) (call_timer-IsHeld t ns p c)

    fd_trampoline-IsHeld :
        (fd ev : ℤ) (p : Pol L) → IsHeld p → IsHeld (fd_trampoline lib js fd ev p).1
    unfolding fd_trampoline fd_router
    fd_trampoline-IsHeld fd ev p c =
        subst IsHeld (sym (mask_same (pol_call lib js (fd_router lib js fd ev p))))
          (pol_call-IsHeld (fd_router lib js fd ev p) (routed_to-IsHeld _ fd ev p c))

    timer_trampoline-IsHeld :
        (ns : ℕ) (p : Pol L) → IsHeld p → IsHeld (timer_trampoline lib js ns p).1
    unfolding timer_trampoline timer_router
    timer_trampoline-IsHeld ns p c =
        subst IsHeld (sym (period_same (pol_call lib js (timer_router lib js ns p))))
          (pol_call-IsHeld (timer_router lib js ns p) (timed_by-IsHeld p.timer ns p c))

    waited-IsHeld :
        (p : Pol L) (l : L)
        → (lib.stopped p.lib ≡ true → lib.stopped l ≡ true)
        → IsHeld p
        → IsHeld (record p { lib = l })
    waited-IsHeld p l k (calm a b) = calm a b
    waited-IsHeld p l k (held e later a b s) = held e later a b (k s)

    pub Steps-IsHeld : {p q : Pol L} → Steps p q → IsHeld p → IsHeld q
    Steps-IsHeld (ended p) h = h
    Steps-IsHeld (waited p l k s) h = Steps-IsHeld s (waited-IsHeld p l k h)
    Steps-IsHeld (called_fd p fd ev s) h = Steps-IsHeld s (fd_trampoline-IsHeld fd ev p h)
    Steps-IsHeld (called_timer p ns s) h = Steps-IsHeld s (timer_trampoline-IsHeld ns p h)
