-- ===== src/Pol/Router.antt =====
-- How the table of handlers and the masks that C gets agree, and what becomes of the timer.
use quickjab.Prelude.{
  ℕ, ◌≡◌, ◌^◌, ◌<◌, refl, sym, ap, ◌∙◌, inl, inr, Bool, true, false, List, [], ◌∷◌, none, some,
  String, Bool-cases, arith, ◌==◌,
}
use quickjab.Int.{ℤ, pos, negsuc}
use quickjab.Outcome.{Outcome, ok}
use quickjab.Arg.{Double, nan, infinity, minus_infinity, whole, between}
use quickjab.Pol.{
  Pol, PolLib, Handlers, once, pol_call, fd_router, fd_trampoline, timer_router, call_timer,
  routed_to, handler_of, after_handler, int32_of, short_of, done, same_key, table_get, table_set,
  table_delete, watch, unwatch,
}

same_key_refl : (k : Double) → same_key k k ≡ true
same_key_refl nan = refl
same_key_refl infinity = refl
same_key_refl minus_infinity = refl
same_key_refl (whole (pos n)) = ground arith
same_key_refl (whole (negsuc n)) = ground arith
same_key_refl (between (pos n)) = ground arith
same_key_refl (between (negsuc n)) = ground arith

table_get-table_set :
    (k : Double) (h : ℕ) (t : List (Double × ℕ)) → table_get k (table_set k h t) ≡ some h
unfolding table_get table_set
table_get-table_set k h [] = rw (same_key_refl k) refl
table_get-table_set k h ((j, g) ∷ t) = elim (Bool-cases (same_key j k)) [
  | inl e ↦ rw (e, e) refl
  | inr e ↦ rw (e, e) (table_get-table_set k h t)
]

table_get-table_delete :
    (k : Double) (t : List (Double × ℕ)) → table_get k (table_delete k t) ≡ none
unfolding table_get table_delete
table_get-table_delete k [] = refl
table_get-table_delete k ((j, g) ∷ t) = elim (Bool-cases (same_key j k)) [
  | inl e ↦ rw e (table_get-table_delete k t)
  | inr e ↦ rw (e, e) (table_get-table_delete k t)
]

module _ {L : Type 0} (lib : PolLib L) (js : Handlers L) where
  done_table :
      (message : String) (p : Pol L) (r : Bool × L) (q : Pol L)
      → done lib js message p r ≡ (ok tt, q)
      → q.table ≡ p.table
  done_table message p (true, l) q e =
      let f : record p { lib = l } ≡ q = ap (λ r. r.1) e in ap (λ (x : Pol L). x.table) (sym f)
  done_table message p (false, l) q e =
      let f : Outcome.err message ≡ ok tt = ap (λ r. r.0) e in absurd (cc f)

  -- Once a descriptor is watched with a handler, its events go to that handler, whatever was watched
  -- before it and whether or not there is a default; once it is unwatched, they go to the default.
  pub watch-unwatch_routes :
      (fd revents : ℤ) (events : Double) (h : ℕ) (p q : Pol L)
      → watch lib js (whole fd) events (some h) p ≡ (ok tt, q)
      → (fd_router lib js fd revents q ≡ after_handler lib js (whole fd) (js.on_fd h fd revents q))
        × (let u = unwatch lib js (whole fd) q in
            fd_router lib js fd revents u ≡ routed_to lib js u.default fd revents u)
  unfolding fd_router unwatch watch
  watch-unwatch_routes fd revents events h p q e =
      let found : table_get (whole fd) q.table ≡ some h =
        ap (λ t. table_get (whole fd) t)
          (done_table _ (record p { table = table_set (whole fd) h p.table }) _ q e)
        ∙ table_get-table_set (whole fd) h p.table in
      let u = unwatch lib js (whole fd) q in
      (
        ap (λ o. routed_to lib js (handler_of lib js o q.default) fd revents q) found,
        ap (λ o. routed_to lib js (handler_of lib js o q.default) fd revents u)
            (table_get-table_delete (whole fd) q.table),
      )

  -- A handler that answers a mask below 2^15 keeps the table and the loop together: the loop gets just
  -- that mask, and where it is 0 the table has no handler for the descriptor any more, while it is as
  -- the handler left it where the mask is not 0.
  pub fd_trampoline_agrees :
      (fd revents : ℤ) (h m : ℕ) (d : Double) (p q : Pol L)
      → table_get (whole fd) p.table ≡ some h
      → js.on_fd h fd revents p ≡ (ok d, q)
      → int32_of d ≡ pos m
      → m < 2 ^ 15
      → (t : List (Double × ℕ)) × (fd_trampoline lib js fd revents p
          ≡ (pos m, js.jobs (record q { table = t })))
        × (m ≡ 0 → table_get (whole fd) t ≡ none)
        × (0 < m → t ≡ q.table)
  unfolding fd_trampoline pol_call fd_router
  fd_trampoline_agrees fd revents h m d p q f e i s =
      let short : short_of (pos m) ≡ pos m = ground (arith, s) in
      elim (Bool-cases (m == 0)) [
        | inl z ↦ (
          table_delete (whole fd) q.table,
          rw (f, e, i, z, short) refl,
          λ zero. table_get-table_delete (whole fd) q.table,
          λ more. absurd (ground (arith, z, more)),
        )
        | inr z ↦ (
          q.table,
          rw (f, e, i, z, short) refl,
          λ zero. absurd (ground (arith, z, zero)),
          λ more. refl,
        )
      ]

  -- A handler that answers a negative mask leaves them apart: the loop drops the descriptor, and the
  -- table keeps what the handler left in it.
  pub fd_trampoline_negative :
      (fd revents : ℤ) (h n : ℕ) (d : Double) (p q : Pol L)
      → table_get (whole fd) p.table ≡ some h
      → js.on_fd h fd revents p ≡ (ok d, q)
      → int32_of d ≡ negsuc n
      → fd_trampoline lib js fd revents p ≡ (pos 0, js.jobs q)
  unfolding fd_trampoline pol_call fd_router
  fd_trampoline_negative fd revents h n d p q f e i = rw (f, e, i) refl

  -- When the timer of pol.after fires and its function returns, no timer is set any more, also where
  -- the function set one.
  pub after_fires_clears :
      (f ns : ℕ) (d : Double) (p q : Pol L)
      → js.on_time f ns (record p { timer = some (once f) }) ≡ (ok d, q)
      → timer_router lib js ns (record p { timer = some (once f) })
        ≡ (ok (pos 3600001), record q { timer = none })
  unfolding timer_router call_timer
  after_fires_clears f ns d p q e = rw e refl
