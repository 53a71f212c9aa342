-- ===== src/Net/Timers/Fired.antt =====
-- A tick runs the callbacks that were due when it began, and drops the one-shots among them.
use quickjab.Prelude.{
  inl, String, ◌≢◌, ◌≤◌, leb, All-map, inr, subst, ℕ, ◌+◌, ◌<◌, ◌≡◌, refl, sym, ap, ◌∙◌, List, [],
  ◌∷◌, ◌++◌, map, append_assoc, All, arith, if_cases, ltb, ◌==◌,
}
use mathlib.Core.List.{reverse, reverse-cons}
use quickjab.Outcome.{Outcome, ok, err, ◌>>=◌, Outcome-cases}
use quickjab.Net.Timers.{wake_for, Timer, Wheel, tick, run_due, due_at, remove, settle, next_wake}
use quickjab.Net.Timers.Ids.{IsWheel, All-remove, All-postpone}

threw :
    {A : Type 0} {B : Type 0} (k : A → Outcome B) {o : Outcome A} {x : String} {b : B}
    → o ≡ err x
    → (o >>= k) ≡ ok b
    → ⊥
threw k f e = cc (sym (ap (λ p. p >>= k) f) ∙ e)

module _ (clock : ℕ → ℕ) where
  settle_fired : (t : Timer) (w : Wheel) → (settle clock t w).fired ≡ w.fired
  unfolding settle
  settle_fired t w =
      if_cases (λ (v : Wheel). v.fired ≡ w.fired) (ltb 0 t.period) (λ e. refl) (λ e. refl)

  wake_for_fired : (ts : List Timer) (w : Wheel) → (wake_for clock ts w).1.fired ≡ w.fired
  wake_for_fired [] w = refl
  wake_for_fired (t ∷ ts) w = refl

  wake_for_timers : (ts : List Timer) (w : Wheel) → (wake_for clock ts w).1.timers ≡ w.timers
  wake_for_timers [] w = refl
  wake_for_timers (t ∷ ts) w = refl

  module _ (callback : ℕ → Wheel → Outcome Wheel) where
    run_due_log :
        ((i : ℕ) (w v : Wheel) → callback i w ≡ ok v → v.fired ≡ w.fired)
        → (ts : List Timer) (w v : Wheel) → run_due clock callback ts w ≡ ok v
        → v.fired ≡ reverse (map (λ (t : Timer). t.id) ts) ++ w.fired
    unfolding run_due
    run_due_log keeps [] w v e = ap (λ (u : Wheel). u.fired) (let f : v ≡ w = cc e in f)
    run_due_log keeps (t ∷ ts) w v e =
        let before : Wheel = record (settle clock t w) {
          fired = t.id ∷ (settle clock t w).fired;
        } in
        elim (Outcome-cases (callback t.id before)) [
          | inr (x, f) ↦ absurd (threw (λ after. run_due clock callback ts after) f e)
          | inl (after, f) ↦
              run_due_log keeps ts after v
                (sym (ap (λ o. o >>= λ u. run_due clock callback ts u) f) ∙ e)
              ∙ ap (λ l. reverse (map (λ (u : Timer). u.id) ts) ++ l)
                  (keeps t.id before after f ∙ ap (λ l. t.id ∷ l) (settle_fired t w))
              ∙ sym (append_assoc (reverse (map (λ (u : Timer). u.id) ts)) (t.id ∷ []) w.fired)
              ∙ ap (λ l. l ++ w.fired) (sym (reverse-cons t.id (map (λ (u : Timer). u.id) ts)))
        ]

    -- No entry has the id.
    abbrev pub IsGone : ℕ → Wheel → Type 0
    IsGone i w = All (λ t. t.id ≢ i) w.timers

    -- A callback sets and clears timers; it does not run the wheel, and an id that was handed out and
    -- has no entry gets none.
    pub record IsClient : Type 0 where
      pub runs_none : (i : ℕ) (w v : Wheel) → callback i w ≡ ok v → v.fired ≡ w.fired
      pub hands_out : (i : ℕ) (w v : Wheel) → callback i w ≡ ok v → w.next_id ≤ v.next_id
      pub stays_gone :
          (i : ℕ) (w v : Wheel)
          → callback i w ≡ ok v
          → (j : ℕ) → j < w.next_id
          → IsGone j w
          → IsGone j v

    settle_next_id : (t : Timer) (w : Wheel) → (settle clock t w).next_id ≡ w.next_id
    unfolding settle
    settle_next_id t w =
        if_cases (λ (v : Wheel). v.next_id ≡ w.next_id) (ltb 0 t.period) (λ e. refl) (λ e. refl)

    settle-IsGone : (j : ℕ) (t : Timer) (w : Wheel) → IsGone j w → IsGone j (settle clock t w)
    unfolding settle
    settle-IsGone j t w h =
        if_cases (IsGone j) (ltb 0 t.period) (λ e. All-postpone (λ k. k ≢ j) t.id _ w.timers h)
          (λ e. All-remove (λ u. u.id ≢ j) t.id w.timers h)

    remove_gone : (i : ℕ) (ts : List Timer) → All (λ u. u.id ≢ i) (remove i ts)
    unfolding remove
    remove_gone i [] = tt
    remove_gone i (t ∷ ts) =
        if_cases (All (λ u. u.id ≢ i)) (t.id == i) (λ e. remove_gone i ts)
          (λ e. (λ same. ground (arith, e, same), remove_gone i ts))

    -- A one-shot is gone once it is settled.
    settled-IsGone : (t : Timer) (w : Wheel) → t.period ≡ 0 → IsGone t.id (settle clock t w)
    unfolding settle
    settled-IsGone t w once = rw once (remove_gone t.id w.timers)

    -- The first callback of a pass, and the rest.
    first_ran :
        (t : Timer) (ts : List Timer) (w v : Wheel)
        → run_due clock callback (t ∷ ts) w ≡ ok v
        → (after : Wheel) × (callback t.id
              (record (settle clock t w) { fired = t.id ∷ (settle clock t w).fired })
            ≡ ok after)
          × (run_due clock callback ts after ≡ ok v)
    unfolding run_due
    first_ran t ts w v e =
        let before : Wheel = record (settle clock t w) {
          fired = t.id ∷ (settle clock t w).fired;
        } in
        elim (Outcome-cases (callback t.id before)) [
          | inr (x, f) ↦ absurd (threw (λ after. run_due clock callback ts after) f e)
          | inl (after, f) ↦
              (after, f, sym (ap (λ o. o >>= λ u. run_due clock callback ts u) f) ∙ e)
        ]

    module _ (client : IsClient) where
      keeps_IsGone :
          (ts : List Timer) (j : ℕ) (w v : Wheel)
          → run_due clock callback ts w ≡ ok v
          → j < w.next_id
          → IsGone j w
          → IsGone j v
      unfolding run_due
      keeps_IsGone [] j w v e l h = subst (IsGone j) (let f : w ≡ v = cc e in f) h
      keeps_IsGone (t ∷ ts) j w v e l h =
          let (after, f, rest) = first_ran t ts w v e in
          let on = client.hands_out t.id _ after f in
          let kept = l in
          keeps_IsGone ts j after v rest (omega (arith, l, on, settle_next_id t w)) (
            client.stays_gone t.id _ after f j (omega (arith, l, settle_next_id t w))
              (settle-IsGone j t w h))

      one_shots-IsGone :
          (ts : List Timer) (w v : Wheel)
          → All (λ t. t.id < w.next_id) ts
          → run_due clock callback ts w ≡ ok v
          → All (λ t. t.period ≡ 0 → IsGone t.id v) ts
      one_shots-IsGone [] w v b e = tt
      one_shots-IsGone (t ∷ ts) w v b e =
          let (after, f, rest) = first_ran t ts w v e in
          let on = client.hands_out t.id _ after f in
          let more : w.next_id ≤ after.next_id = omega (arith, on, settle_next_id t w) in
          (
            λ once. keeps_IsGone ts t.id after v rest (omega (arith, b.0, more)) (
                client.stays_gone t.id _ after f t.id (omega (arith, b.0, settle_next_id t w))
                  (settled-IsGone t w once)),
            one_shots-IsGone ts after v
                (All-map (λ u. u.id < w.next_id) (λ u. u.id < after.next_id) ts
                  (λ u h. omega (arith, h, on, settle_next_id t w)) b.1)
                rest,
          )

    -- The entries whose due time is reached, in their order.
    pub data Picks (now : ℕ) : List Timer → List Timer → Type 0 where
      no_more : Picks now [] []
      reached :
          (t : Timer) {ts us : List Timer}
          → t.due ≤ now
          → Picks now ts us
          → Picks now (t ∷ ts) (t ∷ us)
      waits :
          (t : Timer) {ts us : List Timer} → now < t.due → Picks now ts us → Picks now (t ∷ ts) us

    due_at-Picks : (now : ℕ) (ts : List Timer) → Picks now ts (due_at now ts)
    unfolding due_at
    due_at-Picks now [] = no_more
    due_at-Picks now (t ∷ ts) =
        if_cases (Picks now (t ∷ ts)) (leb t.due now)
          (λ e. reached t (ground (arith, e)) (due_at-Picks now ts))
          (λ e. waits t (ground (arith, e)) (due_at-Picks now ts))

    Picks-All :
        (P : Timer → Type 0) {now : ℕ} {ts us : List Timer} → Picks now ts us → All P ts → All P us
    Picks-All P no_more h = tt
    Picks-All P (reached t l p) h = (h.0, Picks-All P p h.1)
    Picks-All P (waits t l p) h = Picks-All P p h.1

    -- A tick that returns ran the callback of every timer whose due time was reached when it began,
    -- and of no other, once each, in the order in which they were set, also of those that a callback
    -- before it cleared; and no one-shot among them is in the wheel any more. A callback may set and
    -- clear timers; it does not run the wheel itself, and no id is handed out again.
    pub tick_fired :
        IsClient
        → (w v : Wheel) → IsWheel w
        → (ms : ℕ) → tick clock callback w ≡ ok (ms, v)
        → (due : List Timer) × Picks (clock w.reads) w.timers due
          × (v.fired ≡ reverse (map (λ (t : Timer). t.id) due) ++ w.fired)
          × All (λ t. t.period ≡ 0 → IsGone t.id v) due
    unfolding tick next_wake
    tick_fired client w v wheel ms e =
        let due = due_at (clock w.reads) w.timers in
        let picks = due_at-Picks (clock w.reads) w.timers in
        let began : Wheel = record w { reads = w.reads + 1 } in
        elim (Outcome-cases (run_due clock callback due began)) [
          | inr (x, f) ↦ absurd (threw (λ u. ok (next_wake clock u)) f e)
          | inl (u, f) ↦
              let g : ok (next_wake clock u) ≡ ok (ms, v) =
                sym (ap (λ o. o >>= λ r. ok (next_wake clock r)) f) ∙ e in
              let k : v ≡ (next_wake clock u).1 = cc g in
              (
                due,
                picks,
                ap (λ (r : Wheel). r.fired) k
                    ∙ wake_for_fired u.timers u
                    ∙ run_due_log client.runs_none due began u f,
                subst (λ (r : List Timer). All (λ t. t.period ≡ 0 → All (λ x. x.id ≢ t.id) r) due)
                    (sym (ap (λ (r : Wheel). r.timers) k ∙ wake_for_timers u.timers u))
                    (one_shots-IsGone client due began u
                      (Picks-All (λ t. t.id < w.next_id) picks wheel.below) f),
              )
        ]
