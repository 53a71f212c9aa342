-- ===== src/Pol/Deaf.antt =====
-- What is left of the loop of pol.c once pol.init was refused inside it.
use quickjab.Prelude.{◌∙◌, ap, sym, subst, ℕ, ◌≡◌, refl, true, [], none}
use quickjab.Int.{ℤ, pos}
use quickjab.Outcome.{err}
use quickjab.Arg.{Double, whole}
use quickjab.Pol.{
  Option, Pol, PolLib, Handlers, init, init_leaf, fd_router, fd_trampoline, pol_call, timer_router,
  mask_of, routed_to, handler_of, period_of, timed_by, timer_trampoline, table_get, table_delete,
}
use quickjab.Pol.Run.{Steps, ended, waited, called_fd, called_timer}

module _ {L : Type 0} (lib : PolLib L) (js : Handlers L) where
  -- No handler is there to call.
  abbrev IsDeaf : Pol L → Type 0
  IsDeaf p = (p.table ≡ []) × (p.default ≡ none) × (p.timer ≡ none)

  module _ (no_jobs : (p : Pol L) → js.jobs p ≡ p) where
    deaf_fd :
        (fd revents : ℤ) (p : Pol L) → IsDeaf p → fd_trampoline lib js fd revents p ≡ (pos 0, p)
    unfolding fd_trampoline pol_call fd_router table_get table_delete
    deaf_fd fd revents p (t, d, k) =
        let emptied : record p { table = table_delete (whole fd) p.table } ≡ p =
          ap (λ x. record p { table = table_delete (whole fd) x }) t
          ∙ ap (λ x. record p { table = x }) (sym t) in
        let routed : Option ℕ → ℤ × Pol L =
          λ o. mask_of lib js (pol_call lib js (routed_to lib js o fd revents p)) in
        ap (λ x. routed (handler_of lib js (table_get (whole fd) x) p.default)) t
        ∙ ap routed d
        ∙ ap (λ r. (pos 0, r)) (no_jobs _ ∙ emptied)

    deaf_timer : (ns : ℕ) (p : Pol L) → IsDeaf p → timer_trampoline lib js ns p ≡ (3600001, p)
    unfolding timer_trampoline pol_call timer_router
    deaf_timer ns p (t, d, k) =
        ap (λ o. period_of lib js (pol_call lib js (timed_by lib js o ns p))) k
        ∙ ap (λ r. (3600001, r)) (no_jobs p)

    Steps-IsDeaf : {p q : Pol L} → Steps lib js p q → IsDeaf p → IsDeaf q × (q.thrown ≡ p.thrown)
    Steps-IsDeaf (ended p) h = (h, refl)
    Steps-IsDeaf (waited p l k s) h = Steps-IsDeaf s h
    Steps-IsDeaf (called_fd p fd ev s) h =
        let same = deaf_fd fd ev p h in
        let (g, t) = Steps-IsDeaf s (subst IsDeaf (sym (ap (λ r. r.1) same)) h) in
        (g, t ∙ ap (λ r. r.1.thrown) same)
    Steps-IsDeaf (called_timer p ns s) h =
        let same = deaf_timer ns p h in
        let (g, t) = Steps-IsDeaf s (subst IsDeaf (sym (ap (λ r. r.1) same)) h) in
        (g, t ∙ ap (λ r. r.1.thrown) same)

    refuses :
        (maxfd : Double) (p : Pol L)
        → p.running ≡ true
        → init lib js maxfd p ≡ (
          err "pol.init: called from inside the loop",
          record p { table = []; timer = none; default = none },
        )
    unfolding init init_leaf
    refuses maxfd p inside = rw inside refl

    -- Inside the loop pol.init throws and leaves the loop as it is, but every handler, the default and
    -- the timer are gone: whatever the loop serves from then on, none is set again and no throw is
    -- added, each event on a descriptor is answered with 0 and the timer with more than an hour, at
    -- which the loop drops them. No jobs are pending.
    pub init_refused_clears :
        (maxfd : Double) (p : Pol L)
        → p.running ≡ true
        → (q : Pol L) → Steps lib js (init lib js maxfd p).1 q
        → (fd revents : ℤ) (ns : ℕ)
        → ((init lib js maxfd p).0 ≡ err "pol.init: called from inside the loop")
          × ((init lib js maxfd p).1.lib ≡ p.lib)
          × (q.table ≡ [])
          × (q.default ≡ none)
          × (q.timer ≡ none)
          × (q.thrown ≡ p.thrown)
          × (fd_trampoline lib js fd revents q ≡ (pos 0, q))
          × (timer_trampoline lib js ns q ≡ (3600001, q))
    init_refused_clears maxfd p inside q steps fd revents ns =
        let cleared : Pol L = record p { table = []; timer = none; default = none } in
        let refused : init lib js maxfd p ≡ (err "pol.init: called from inside the loop", cleared) =
          refuses maxfd p inside in
        let (deaf, same) =
          Steps-IsDeaf steps (subst IsDeaf (sym (ap (λ r. r.1) refused)) (refl, refl, refl)) in
        (
          ap (λ r. r.0) refused,
          ap (λ r. r.1.lib) refused,
          deaf.0,
          deaf.1,
          deaf.2,
          same ∙ ap (λ r. r.1.thrown) refused,
          deaf_fd fd revents q deaf,
          deaf_timer ns q deaf,
        )
