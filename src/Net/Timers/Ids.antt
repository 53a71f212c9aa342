-- ===== src/Net/Timers/Ids.antt =====
-- Ids are never reused.
use quickjab.Prelude.{
  subst, ℕ, ◌+◌, ◌<◌, ◌≡◌, refl, sym, List, [], ◌∷◌, ◌++◌, All, All-append, arith, if_cases, ltb,
  if◌then◌else◌, ◌==◌,
}
use quickjab.Net.Timers.{
  Timer, Wheel, remove, postpone, settle, set_timeout, set_interval, clear_timeout, arm, add_timer,
}

-- Every entry has an id that was handed out, and no two have the same.
abbrev pub AreApart : List Timer → Type 0
AreApart [] = Unit
AreApart (t ∷ ts) = All (λ u. t.id < u.id) ts × AreApart ts

pub record IsWheel (w : Wheel) : Type 0 where
  pub below : All (λ t. t.id < w.next_id) w.timers
  pub apart : AreApart w.timers

pub All-remove : (P : Timer → Type 0) (i : ℕ) (ts : List Timer) → All P ts → All P (remove i ts)
unfolding remove
All-remove P i [] h = tt
All-remove P i (t ∷ ts) h =
    if_cases (All P) (t.id == i) (λ e. All-remove P i ts h.1) (λ e. (h.0, All-remove P i ts h.1))

AreApart-remove : (i : ℕ) (ts : List Timer) → AreApart ts → AreApart (remove i ts)
unfolding remove
AreApart-remove i [] h = tt
AreApart-remove i (t ∷ ts) h =
    if_cases AreApart (t.id == i) (λ e. AreApart-remove i ts h.1)
      (λ e. (All-remove (λ u. t.id < u.id) i ts h.0, AreApart-remove i ts h.1))

postponed_id : (i due : ℕ) (t : Timer) → (if t.id == i then record t { due = due } else t).id ≡ t.id
postponed_id i due t = if_cases (λ (u : Timer). u.id ≡ t.id) (t.id == i) (λ e. refl) (λ e. refl)

pub All-postpone :
    (P : ℕ → Type 0) (i due : ℕ) (ts : List Timer)
    → All (λ t. P t.id) ts
    → All (λ t. P t.id) (postpone i due ts)
unfolding postpone
All-postpone P i due [] h = tt
All-postpone P i due (t ∷ ts) h =
    (subst P (sym (postponed_id i due t)) h.0, All-postpone P i due ts h.1)

AreApart-postpone : (i due : ℕ) (ts : List Timer) → AreApart ts → AreApart (postpone i due ts)
unfolding postpone
AreApart-postpone i due [] h = tt
AreApart-postpone i due (t ∷ ts) h = (
  subst (λ k. All (λ u. k < u.id) (postpone i due ts)) (sym (postponed_id i due t))
      (All-postpone (λ k. t.id < k) i due ts h.0),
  AreApart-postpone i due ts h.1,
)

AreApart-append :
    (ts : List Timer) (u : Timer)
    → AreApart ts
    → All (λ t. t.id < u.id) ts
    → AreApart (ts ++ (u ∷ []))
AreApart-append [] u h k = (tt, tt)
AreApart-append (t ∷ ts) u h k =
    (All-append (λ v. t.id < v.id) ts (u ∷ []) h.0 (k.0, tt), AreApart-append ts u h.1 k.1)

All-below : (n : ℕ) (ts : List Timer) → All (λ t. t.id < n) ts → All (λ t. t.id < n + 1) ts
All-below n [] h = tt
All-below n (t ∷ ts) h = (omega (arith, h.0), All-below n ts h.1)

clear_timeout-IsWheel : (i : ℕ) (w : Wheel) → IsWheel w → IsWheel (clear_timeout i w)
unfolding clear_timeout
clear_timeout-IsWheel i w v = record {
  below = All-remove (λ t. t.id < w.next_id) i w.timers v.below;
  apart = AreApart-remove i w.timers v.apart;
}

module _ (clock : ℕ → ℕ) where
  add_timer-IsWheel :
      (ms period : ℕ) (w : Wheel) → IsWheel w → IsWheel (add_timer clock ms period w).1
  unfolding arm
  add_timer-IsWheel ms period w v = record {
    below =
        All-append (λ t. t.id < w.next_id + 1) w.timers _ (All-below w.next_id w.timers v.below)
          (omega arith, tt);
    apart = AreApart-append w.timers _ v.apart v.below;
  }

  settle-IsWheel : (t : Timer) (w : Wheel) → IsWheel w → IsWheel (settle clock t w)
  unfolding settle
  settle-IsWheel t w v =
      if_cases IsWheel (ltb 0 t.period)
        (λ again. record {
          below = All-postpone (λ k. k < w.next_id) t.id _ w.timers v.below;
          apart = AreApart-postpone t.id _ w.timers v.apart;
        })
        (λ over. record {
          below = All-remove (λ u. u.id < w.next_id) t.id w.timers v.below;
          apart = AreApart-remove t.id w.timers v.apart;
        })

  -- Setting and clearing timers keeps the ids apart, and a new timer gets an id that no entry has.
  pub commands-IsWheel :
      (ms i : ℕ) (w : Wheel)
      → IsWheel w
      → IsWheel (set_timeout clock ms w).1
        × IsWheel (set_interval clock ms w).1
        × IsWheel (clear_timeout i w)
        × All (λ t. t.id < (set_timeout clock ms w).0) w.timers
  unfolding set_timeout set_interval
  commands-IsWheel ms i w v =
      (add_timer-IsWheel _ _ w v, add_timer-IsWheel _ _ w v, clear_timeout-IsWheel i w v, v.below)
