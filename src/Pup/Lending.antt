-- ===== src/Pup/Lending.antt =====
-- A view that is asked for keeps the views of the slot in order.
use quickjab.Prelude.{
  if_cases, ℕ, zero, suc, ◌≡◌, ◌≢◌, ◌<◌, refl, sym, ap, ◌∙◌, Bool, true, false, List, [], ◌∷◌, ◌++◌,
  Option, none, some, arith, ◌==◌, ◌&&◌, ◌⊎◌, inl, inr, Bool-cases, Option-cases, length, get_elem?,
  set, get_elem?-set_self, get_elem?-set_ne, length-set, subst,
}
use quickjab.Pup.Table.{
  Mapping, RunView, Slot, pup_view, is_current, wraps, same_mapping, minted, forgotten, max_runs,
}
use quickjab.Pup.Views.{IsDetached, IsLent, live_views-set-some, live_views-set-none}

-- An entry of a list lies within it.
pub within : {A : Type 0} (xs : List A) (i : ℕ) {a : A} → get_elem? xs i ≡ some a → i < length xs
within [] i e = cc e
within (x ∷ xs) zero e = omega arith
within (x ∷ xs) (suc i) e = omega (arith, within xs i e)

present : {A : Type 0} (xs : List A) (i : ℕ) → i < length xs → get_elem? xs i ≢ none
present [] i h e = omega (arith, h)
present (x ∷ xs) zero h e = cc e
present (x ∷ xs) (suc i) h e = present xs i (omega (arith, h)) e

module _ {A : Type 0} (x : A) where
  append_old :
      (xs : List A) (i : ℕ) {y : A}
      → get_elem? xs i ≡ some y
      → get_elem? (xs ++ (x ∷ [])) i ≡ some y
  append_old [] i e = cc e
  append_old (z ∷ xs) zero e = e
  append_old (z ∷ xs) (suc i) e = append_old xs i e

  append-cases :
      (xs : List A) (i : ℕ) {y : A}
      → get_elem? (xs ++ (x ∷ [])) i ≡ some y
      → (get_elem? xs i ≡ some y) ⊎ ((i ≡ length xs) × (x ≡ y))
  append-cases [] zero e = inr (refl, cc e)
  append-cases [] (suc i) e = cc e
  append-cases (z ∷ xs) zero e = inl e
  append-cases (z ∷ xs) (suc i) e = elim (append-cases xs i e) [
    | inl f ↦ inl f
    | inr f ↦ inr (ap suc f.0, f.1)
  ]

  append_last : (xs : List A) → get_elem? (xs ++ (x ∷ [])) (length xs) ≡ some x
  append_last [] = refl
  append_last (z ∷ xs) = append_last xs

pub set-cases :
    {A : Type 0} (xs : List A) (i j : ℕ) (v : A) {y : A}
    → get_elem? (set xs i v) j ≡ some y
    → ((i ≡ j) × (v ≡ y)) ⊎ ((i ≢ j) × (get_elem? xs j ≡ some y))
set-cases xs i j v {y} e = elim (Bool-cases (i == j)) [
  | inl same ↦
      let f : i ≡ j = ground (arith, same) in
      let e' = subst (λ k. get_elem? (set xs i v) k ≡ some y) (sym f) e in
      let inside : i < length xs = omega (arith, within (set xs i v) i e', length-set xs i v) in
      inl (f, cc (get_elem?-set_self xs i v inside, e'))
  | inr other ↦
      let n : i ≢ j = λ f. ground (arith, other, f) in inr (n, sym (get_elem?-set_ne xs v n) ∙ e)
]

module _ {Stack : Type 0} (run_of : Stack → ℕ → Option Mapping) (s : Slot Stack)
    (l : IsLent run_of s) (i : ℕ) where
  minted-IsLent :
      (run : Mapping)
      → run_of s.stack i ≡ some run
      → get_elem? s.views i ≡ some none
      → IsLent run_of (minted i run s).1
  minted-IsLent run e free = record {
    sized = length-set s.views i (some new) ∙ l.sized;
    counted = omega (arith, l.counted, live_views-set-some s.views i new free);
    mapped = λ j v f. elim (set-cases s.views i j (some new) f) [
      | inl (same, is) ↦
          let w : new ≡ v = cc is in rw (sym same) (e ∙ ap (λ (u : RunView). some u.mapping) w)
      | inr (other, old) ↦ l.mapped j v old
    ];
    held = λ j v f. elim (set-cases s.views i j (some new) f) [
      | inl (same, is) ↦
          let w : new ≡ v = cc is in
          inl (
            subst
              (λ (u : RunView).
                get_elem? (s.buffers ++ (some run ∷ [])) u.buffer ≡ some (some u.mapping))
              w (append_last (some run) s.buffers))
      | inr (other, old) ↦ elim (l.held j v old) [
        | inl at ↦ inl (append_old (some run) s.buffers v.buffer at)
        | inr gone ↦ inr (append_old (some run) s.buffers v.buffer gone)
      ]
    ];
    recorded = λ id m f. elim (append-cases (some run) s.buffers id f) [
      | inl old ↦
          let (j, g) = l.recorded id m old in
          let n : i ≢ j = λ q. cc (free, g, q) in (j, get_elem?-set_ne s.views (some new) n ∙ g)
      | inr (at, is) ↦
          (i, get_elem?-set_self s.views i (some new) (within s.views i free) ∙ cc (at, is))
    ];
  }
    where
      new : RunView
      new = record { buffer = length s.buffers; mapping = run }

module _ {Stack : Type 0} (run_of : Stack → ℕ → Option Mapping) (s : Slot Stack)
    (l : IsLent run_of s) (i : ℕ) where
  -- A record whose ArrayBuffer is detached can be dropped.
  forgotten-IsLent :
      (v : RunView)
      → get_elem? s.views i ≡ some (some v)
      → IsDetached s.buffers v.buffer
      → IsLent run_of (forgotten i s)
  forgotten-IsLent v e gone = record {
    sized = length-set s.views i none ∙ l.sized;
    counted = omega (arith, l.counted, live_views-set-none s.views i v e);
    mapped = λ j w f. elim (set-cases s.views i j none f) [
      | inl (same, is) ↦ cc is
      | inr (other, old) ↦ l.mapped j w old
    ];
    held = λ j w f. elim (set-cases s.views i j none f) [
      | inl (same, is) ↦ cc is
      | inr (other, old) ↦ l.held j w old
    ];
    recorded = λ id m f.
        let (j, g) = l.recorded id m f in
        (j, get_elem?-set_ne s.views none (λ same. absurd (attached id m f j g same)) ∙ g);
  }
    where
      attached :
          (id : ℕ) (m : Mapping)
          → get_elem? s.buffers id ≡ some (some m)
          → (j : ℕ) → get_elem? s.views j ≡ some (some (record { buffer = id; mapping = m }))
          → i ≡ j
          → ⊥
      attached id m f j g same =
          let w : v ≡ record { buffer = id; mapping = m } = cc (
            e,
            subst (λ k. get_elem? s.views k ≡ some (some (record { buffer = id; mapping = m })))
                (sym same) g,
          ) in
          gone m (ap (λ (u : RunView). get_elem? s.buffers u.buffer) w ∙ f)

  same_mapping_refl : (m : Mapping) → same_mapping m m ≡ true
  same_mapping_refl m = ground arith

  stale :
      (v : RunView) (run : Mapping)
      → get_elem? s.views i ≡ some (some v)
      → run_of s.stack i ≡ some run
      → is_current v run s.buffers ≡ false
      → IsDetached s.buffers v.buffer
  stale v run f e c m g = elim (l.held i v f) [
    | inr gone ↦ cc (gone, g)
    | inl at ↦
        let same : v.mapping ≡ run = cc (l.mapped i v f, e) in
        let wrapped : wraps (get_elem? s.buffers v.buffer) v.mapping ≡ true =
          ap (λ b. wraps b v.mapping) at ∙ same_mapping_refl v.mapping in
        let kept : same_mapping v.mapping run ≡ true =
          ap (λ r. same_mapping v.mapping r) (sym same) ∙ same_mapping_refl v.mapping in
        absurd (both wrapped kept c)
  ]
    where
      both : {a b : Bool} → a ≡ true → b ≡ true → (a && b) ≡ false → ⊥
      both p q r = ground (arith, p, q, r)

  -- A view of the run that dog has under the index keeps the views in order.
  pub pup_view-IsLent :
      (run : Mapping)
      → run_of s.stack i ≡ some run
      → i < max_runs
      → IsLent run_of (pup_view i run s).1
  unfolding pup_view
  pup_view-IsLent run e small = elim (Option-cases (get_elem? s.views i)) [
    | inl missing ↦ absurd (present s.views i (omega (arith, l.sized, small)) missing)
    | inr (none, f) ↦ rw f (minted-IsLent run_of s l i run e f)
    | inr (some v, f) ↦ rw f (
        if_cases (λ (r : ℕ × Slot Stack). IsLent run_of r.1) (is_current v run s.buffers) (λ c. l)
          (λ c.
            minted-IsLent run_of (forgotten i s) (forgotten-IsLent v f (stale v run f e c)) i run e
              (get_elem?-set_self s.views i none (within s.views i f))))
  ]
