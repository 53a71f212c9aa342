-- ===== src/Net/Timers/Wake.antt =====
-- When a tick asks to be woken.
use quickjab.Prelude.{
  if_cases, sym, inr, inl, get_elem?, ◌⊎◌, ◌≢◌, ℕ, ◌+◌, ◌-◌, ◌*◌, ◌≤◌, ◌<◌, ◌≡◌, List, [], ◌∷◌, All,
  arith, refl,
}
use quickjab.Net.Timers.{suc, some, ltb, Timer, Wheel, ms_ns, soonest, wait_ms, next_wake}

-- The wait covers the time to go and exceeds it by less than a millisecond, but is 1 at least.
wait_ms_lem :
    (soon now : ℕ)
    → (1 ≤ wait_ms soon now)
      × (soon ≤ now + wait_ms soon now * ms_ns)
      × (1 < wait_ms soon now → now + (wait_ms soon now - 1) * ms_ns < soon)
unfolding wait_ms
wait_ms_lem soon now = (ground arith, ground arith, λ h. ground (arith, h))

soonest_lem : (s : ℕ) (ts : List Timer) → (soonest s ts ≤ s) × All (λ t. soonest s ts ≤ t.due) ts
unfolding soonest
soonest_lem s [] = (omega arith, tt)
soonest_lem s (t ∷ ts) =
    if_cases
      (λ r. (soonest r ts ≤ s) × ((soonest r ts ≤ t.due) × All (λ e. soonest r ts ≤ e.due) ts))
      (ltb t.due s) {x = t.due} {y = s}
      (λ b. let r = soonest_lem t.due ts in (ground (arith, b, r.0), (r.0, r.1)))
      (λ b. let r = soonest_lem s ts in (r.0, (ground (arith, b, r.0), r.1)))

soonest_found :
    (s : ℕ) (ts : List Timer)
    → (soonest s ts ≡ s)
      ⊎ ((i : ℕ) × (e : Timer) × (get_elem? ts i ≡ some e) × (e.due ≡ soonest s ts))
unfolding soonest
soonest_found s [] = inl refl
soonest_found s (t ∷ ts) =
    if_cases
      (λ r.
        (soonest r ts ≡ s)
        ⊎ ((i : ℕ) × (e : Timer) × (get_elem? (t ∷ ts) i ≡ some e) × (e.due ≡ soonest r ts)))
      (ltb t.due s)
      (λ b. elim (soonest_found t.due ts) [
        | inl e ↦ inr (0, t, refl, sym e)
        | inr (i, e, at, same) ↦ inr (suc i, e, at, same)
      ])
      (λ b. elim (soonest_found s ts) [
        | inl e ↦ inl e
        | inr (i, e, at, same) ↦ inr (suc i, e, at, same)
      ])

later :
    (now ms s : ℕ) (ts : List Timer)
    → now + (ms - 1) * ms_ns < s
    → All (λ t. s ≤ t.due) ts
    → All (λ t. now + (ms - 1) * ms_ns < t.due) ts
later now ms s [] h k = tt
later now ms s (t ∷ ts) h k = (omega (arith, k.0), later now ms s ts h k.1)

-- The tick asks for a wait of at least a millisecond, after which the earliest timer is due, and
-- all but the last millisecond of which passes before any timer is.
pub next_wake_lem :
    (clock : ℕ → ℕ) (w : Wheel)
    → w.timers ≢ []
    → let ms = (next_wake clock w).0 in
      let now = clock w.reads in
      (1 ≤ ms)
      × ((i : ℕ) × (e : Timer) × (get_elem? w.timers i ≡ some e) × (e.due ≤ now + ms * ms_ns))
      × (1 < ms → All (λ t. now + (ms - 1) * ms_ns < t.due) w.timers)
unfolding next_wake
next_wake_lem clock w h = go w.timers h
  where
    now : ℕ
    now = clock w.reads

    go :
        (l : List Timer)
        → l ≢ []
        → let ms = (next_wake clock (record w { timers = l })).0 in
          (1 ≤ ms)
          × ((i : ℕ) × (e : Timer) × (get_elem? l i ≡ some e) × (e.due ≤ now + ms * ms_ns))
          × (1 < ms → All (λ t. now + (ms - 1) * ms_ns < t.due) l)
    go [] k = absurd (k refl)
    go (t ∷ ts) k =
        let (some_wait, covers, tight) = wait_ms_lem (soonest t.due ts) now in
        let (first, others) = soonest_lem t.due ts in
        (
          some_wait,
          elim (soonest_found t.due ts) [
            | inl e ↦ (0, t, refl, omega arith)
            | inr (i, e, at, same) ↦ (suc i, e, at, omega arith)
          ],
          λ m.
              later now (wait_ms (soonest t.due ts) now) (soonest t.due ts) (t ∷ ts) (tight m)
                (first, others),
        )
