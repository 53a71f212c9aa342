-- ===== src/Arg/RunList.antt =====
-- `JABCRunsOf` of arg.c: an array of runs is collected, where JS may run, and then unwrapped.
use quickjab.Prelude.{ℕ, zero, suc, ◌≡◌, refl, sym, ap, List, [], ◌∷◌, length, map}
use quickjab.Outcome.{Outcome, ok, err, ◌>>=◌}
use quickjab.Arg.{Array, View, view_of}

-- `State` is the heap of the engine, `get` is JS_GetPropertyUint32 of the array, which may run JS, and
-- `array_of` is how an object stands in a heap.
module _ {State : Type 0} {Object : Type 0} (get : ℕ → State → Outcome Object × State)
    (array_of : State → Object → Array) where
  abbrev pub gotten :
      Outcome Object × State
      → (State → Outcome (List Object) × State)
      → Outcome (List Object) × State
  gotten (err e, s) rest = (err e, s)
  gotten (ok r, s) rest = let (rs, t) = rest s in (rs >>= λ l. ok (r ∷ l), t)

  -- The first pass, from an index on.
  unfoldable pub collect : ℕ → ℕ → State → Outcome (List Object) × State
  collect i zero s = (ok [], s)
  collect i (suc n) s = gotten (get i s) (collect (suc i) n)

  -- The second pass, in one heap.
  unfoldable pub unwrap : State → List Object → Outcome (List View)
  unwrap s [] = ok []
  unwrap s (r ∷ rs) =
      let rest = unwrap s rs in view_of (array_of s r) >>= λ v. rest >>= λ vs. ok (v ∷ vs)

  abbrev pub unwrapped : Outcome (List Object) × State → Outcome (List View) × State
  unwrapped (err e, s) = (err e, s)
  unwrapped (ok rs, s) = (unwrap s rs, s)

  -- `JABCRunsOf`
  unfoldable pub runs_of : ℕ → State → Outcome (List View) × State
  unfolding collect unwrap
  runs_of n s = unwrapped (collect 0 n s)

  length-collect :
      (n i : ℕ) (s t : State) (rs : List Object) → collect i n s ≡ (ok rs, t) → length rs ≡ n
  unfolding collect
  length-collect zero i s t rs e = cc e
  length-collect (suc n) i s t rs e = from (get i s) (λ u v l g. length-collect n (suc i) u v l g) e
    where
      more :
          (r : Object) (o : Outcome (List Object) × State)
          → ((l : List Object) → o.0 ≡ ok l → length l ≡ n)
          → ((o.0 >>= λ l. ok (r ∷ l)) ≡ ok rs)
          → length rs ≡ suc n
      more r (ok l, u) h f = cc (f, h l refl)
      more r (err x, u) h f = cc f

      from :
          (o : Outcome Object × State)
          → ((u v : State) (l : List Object) → collect (suc i) n u ≡ (ok l, v) → length l ≡ n)
          → gotten o (collect (suc i) n) ≡ (ok rs, t)
          → length rs ≡ suc n
      from (err x, u) ih f = cc f
      from (ok r, u) ih f =
          more r (collect (suc i) n u)
            (λ l g. ih u (collect (suc i) n u).1 l (ap (λ o. (o, (collect (suc i) n u).1)) g))
            (ap (λ p. p.0) f)

  unwrap_current :
      (s : State) (rs : List Object) (vs : List View)
      → unwrap s rs ≡ ok vs
      → map (λ r. view_of (array_of s r)) rs ≡ map ok vs
  unfolding unwrap
  unwrap_current s [] [] e = refl
  unwrap_current s [] (v ∷ vs) e = cc e
  unwrap_current s (r ∷ rs) vs e =
      from (view_of (array_of s r)) (unwrap s rs) refl (λ l g. unwrap_current s rs l g) e
    where
      from :
          (o : Outcome View) (p : Outcome (List View))
          → view_of (array_of s r) ≡ o
          → ((l : List View) → p ≡ ok l → map (λ q. view_of (array_of s q)) rs ≡ map ok l)
          → (o >>= λ v. p >>= λ l. ok (v ∷ l)) ≡ ok vs
          → map (λ q. view_of (array_of s q)) (r ∷ rs) ≡ map ok vs
      from (ok v) (ok l) a b f = cc (a, b l refl, f)
      from (ok v) (err x) a b f = cc f
      from (err x) p a b f = cc f

  -- The views that `JABCRunsOf` answers with are of n objects as they stand in the heap that it
  -- leaves: what JS did to an object while a later one was collected shows in its view.
  pub runs_of_current :
      (n : ℕ) (s t : State) (vs : List View)
      → runs_of n s ≡ (ok vs, t)
      → (rs : List Object) × (length rs ≡ n) × (map (λ r. view_of (array_of t r)) rs ≡ map ok vs)
  unfolding runs_of
  runs_of_current n s t vs e = from (collect 0 n s) (λ l u g. length-collect n 0 s u l g) e
    where
      from :
          (o : Outcome (List Object) × State)
          → ((l : List Object) (u : State) → o ≡ (ok l, u) → length l ≡ n)
          → unwrapped o ≡ (ok vs, t)
          → (rs : List Object) × (length rs ≡ n)
            × (map (λ r. view_of (array_of t r)) rs ≡ map ok vs)
      from (err x, u) h f = cc f
      from (ok l, u) h f =
          let same : u ≡ t = ap (λ p. p.1) f in
          (l, h l u refl, unwrap_current t l vs (rw (sym same) (ap (λ p. p.0) f)))
