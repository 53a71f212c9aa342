-- ===== src/Pup/Views.antt =====
-- The views of a handle: every ArrayBuffer that is still attached is recorded, so that a change of the
-- stack detaches them all.
use quickjab.Prelude.{
  ℕ, zero, suc, ◌+◌, ◌≡◌, ◌≢◌, refl, ◌∙◌, List, [], ◌∷◌, Option, none, some, arith, ◌==◌, ◌⊎◌, inl,
  inr, Bool-cases, length, get_elem?, set, map, length-map,
}
use quickjab.Pup.Table.{Mapping, RunView, Slot, detach_all, unview, max_runs}

unfoldable pub live_views : List (Option RunView) → ℕ
live_views [] = 0
live_views (none ∷ vs) = live_views vs
live_views (some v ∷ vs) = suc (live_views vs)

abbrev pub IsDetached : List (Option Mapping) → ℕ → Type 0
IsDetached buffers id = (m : Mapping) → get_elem? buffers id ≢ some (some m)

set_none-IsDetached : (bs : List (Option Mapping)) (id : ℕ) → IsDetached (set bs id none) id
set_none-IsDetached [] id m e = cc e
set_none-IsDetached (b ∷ bs) zero m e = cc e
set_none-IsDetached (b ∷ bs) (suc id) m e = set_none-IsDetached bs id m e

pub set-IsDetached :
    (bs : List (Option Mapping)) (j id : ℕ) → IsDetached bs id → IsDetached (set bs j none) id
set-IsDetached [] j id h m e = h m e
set-IsDetached (b ∷ bs) zero zero h m e = cc e
set-IsDetached (b ∷ bs) zero (suc id) h m e = h m e
set-IsDetached (b ∷ bs) (suc j) zero h m e = h m e
set-IsDetached (b ∷ bs) (suc j) (suc id) h m e = set-IsDetached bs j id h m e

detach_all-IsDetached :
    (vs : List (Option RunView)) (bs : List (Option Mapping)) (id : ℕ)
    → IsDetached bs id
    → IsDetached (detach_all vs bs) id
unfolding detach_all
detach_all-IsDetached [] bs id h = h
detach_all-IsDetached (none ∷ vs) bs id h = detach_all-IsDetached vs bs id h
detach_all-IsDetached (some v ∷ vs) bs id h =
    detach_all-IsDetached vs (set bs v.buffer none) id (set-IsDetached bs v.buffer id h)

-- Every buffer that a view records is detached.
detach_all-member :
    (vs : List (Option RunView)) (bs : List (Option Mapping)) (i : ℕ) (v : RunView)
    → get_elem? vs i ≡ some (some v)
    → IsDetached (detach_all vs bs) v.buffer
unfolding detach_all
detach_all-member [] bs i v e = cc e
detach_all-member (none ∷ vs) bs zero v e = cc e
detach_all-member (none ∷ vs) bs (suc i) v e = detach_all-member vs bs i v e
detach_all-member (some w ∷ vs) bs zero v e =
    let same : w ≡ v = cc e in
    rw same
      (detach_all-IsDetached vs (set bs v.buffer none) v.buffer (set_none-IsDetached bs v.buffer))
detach_all-member (some w ∷ vs) bs (suc i) v e = detach_all-member vs (set bs w.buffer none) i v e

pub set_back :
    (bs : List (Option Mapping)) (j id : ℕ) (m : Mapping)
    → get_elem? (set bs j none) id ≡ some (some m)
    → get_elem? bs id ≡ some (some m)
set_back [] j id m e = e
set_back (b ∷ bs) zero zero m e = cc e
set_back (b ∷ bs) zero (suc id) m e = e
set_back (b ∷ bs) (suc j) zero m e = e
set_back (b ∷ bs) (suc j) (suc id) m e = set_back bs j id m e

detach_all_back :
    (vs : List (Option RunView)) (bs : List (Option Mapping)) (id : ℕ) (m : Mapping)
    → get_elem? (detach_all vs bs) id ≡ some (some m)
    → get_elem? bs id ≡ some (some m)
unfolding detach_all
detach_all_back [] bs id m e = e
detach_all_back (none ∷ vs) bs id m e = detach_all_back vs bs id m e
detach_all_back (some v ∷ vs) bs id m e =
    set_back bs v.buffer id m (detach_all_back vs (set bs v.buffer none) id m e)

live_views_none :
    (vs : List (Option RunView)) (i : ℕ) (v : RunView)
    → live_views vs ≡ 0
    → get_elem? vs i ≢ some (some v)
unfolding live_views
live_views_none [] i v z e = cc e
live_views_none (none ∷ vs) zero v z e = cc e
live_views_none (none ∷ vs) (suc i) v z e = live_views_none vs i v z e
live_views_none (some w ∷ vs) i v z e = omega (arith, z)

live_views-map-none : (vs : List (Option RunView)) → live_views (map (λ v. none) vs) ≡ 0
unfolding live_views
live_views-map-none [] = refl
live_views-map-none (v ∷ vs) = live_views-map-none vs

pub live_views-set-some :
    (vs : List (Option RunView)) (i : ℕ) (v : RunView)
    → get_elem? vs i ≡ some none
    → live_views (set vs i (some v)) ≡ live_views vs + 1
unfolding live_views
live_views-set-some [] i v e = cc e
live_views-set-some (none ∷ vs) zero v e = omega arith
live_views-set-some (some w ∷ vs) zero v e = cc e
live_views-set-some (none ∷ vs) (suc i) v e = live_views-set-some vs i v e
live_views-set-some (some w ∷ vs) (suc i) v e = omega (arith, live_views-set-some vs i v e)

pub live_views-set-none :
    (vs : List (Option RunView)) (i : ℕ) (v : RunView)
    → get_elem? vs i ≡ some (some v)
    → live_views (set vs i none) + 1 ≡ live_views vs
unfolding live_views
live_views-set-none [] i v e = cc e
live_views-set-none (none ∷ vs) zero v e = cc e
live_views-set-none (some w ∷ vs) zero v e = omega arith
live_views-set-none (none ∷ vs) (suc i) v e = live_views-set-none vs i v e
live_views-set-none (some w ∷ vs) (suc i) v e = omega (arith, live_views-set-none vs i v e)

-- No view is live, and no ArrayBuffer of the handle is attached.
pub record IsBlank {Stack : Type 0} (s : Slot Stack) : Type 0 where
  pub sized : length s.views ≡ max_runs
  pub counted : s.nview ≡ 0
  pub none_live : live_views s.views ≡ 0
  pub detached : (id : ℕ) → IsDetached s.buffers id

-- The views of a slot, where `run_of` tells what run dog has under an index: they are counted, each
-- wraps its run, its ArrayBuffer wraps that or is detached, and every attached ArrayBuffer is the one
-- of a view.
pub record IsLent {Stack : Type 0} (run_of : Stack → ℕ → Option Mapping) (s : Slot Stack)
    : Type 0 where
  pub sized : length s.views ≡ max_runs
  pub counted : s.nview ≡ live_views s.views
  pub mapped :
      (i : ℕ) (v : RunView)
      → get_elem? s.views i ≡ some (some v)
      → run_of s.stack i ≡ some v.mapping
  pub held :
      (i : ℕ) (v : RunView)
      → get_elem? s.views i ≡ some (some v)
      → (get_elem? s.buffers v.buffer ≡ some (some v.mapping))
        ⊎ (get_elem? s.buffers v.buffer ≡ some none)
  pub recorded :
      (id : ℕ) (m : Mapping)
      → get_elem? s.buffers id ≡ some (some m)
      → (i : ℕ) × (get_elem? s.views i ≡ some (some (record { buffer = id; mapping = m })))

module _ {Stack : Type 0} (run_of : Stack → ℕ → Option Mapping) where
  -- A blank slot is in order, whatever its stack.
  pub IsBlank-IsLent : (s : Slot Stack) → IsBlank s → IsLent run_of s
  IsBlank-IsLent s b = record {
    sized = b.sized;
    counted = omega (arith, b.counted, b.none_live);
    mapped = λ i v e. absurd (live_views_none s.views i v b.none_live e);
    held = λ i v e. absurd (live_views_none s.views i v b.none_live e);
    recorded = λ id m e. absurd (b.detached id m e);
  }

  -- Where the views are in order, a slot that has moved has none of them left attached.
  pub unview-IsBlank : (s : Slot Stack) → IsLent run_of s → IsBlank (unview s)
  unfolding unview
  unview-IsBlank s l = elim (Bool-cases (s.nview == 0)) [
    | inl idle ↦
        let zero_views : live_views s.views ≡ 0 = ground (arith, idle, l.counted) in
        rw idle (record {
          sized = l.sized;
          counted = ground (arith, idle);
          none_live = zero_views;
          detached =
              λ id m e. let (i, f) = l.recorded id m e in live_views_none s.views i _ zero_views f;
        })
    | inr some_live ↦ rw some_live (record {
      sized = length-map s.views (λ v. none) ∙ l.sized;
      counted = refl;
      none_live = live_views-map-none s.views;
      detached = λ id m e.
          let (i, f) = l.recorded id m (detach_all_back s.views s.buffers id m e) in
          detach_all-member s.views s.buffers i (record { buffer = id; mapping = m }) f m e;
    })
  ]
