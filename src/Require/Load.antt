-- ===== src/Require/Load.antt =====
-- `load` of require.c: the module cache, and the evaluation of a module. A module that a script
-- evaluates may call require again: that is inside `evaluate`, which goes from loader to loader.
use quickjab.Prelude.{
  Option-cases, ℕ, ◌≡◌, refl, ◌∙◌, Bool, true, List, [], ◌∷◌, ◌++◌, Option, none, some, String,
  length, get_or, if◌then◌else◌, Bool-cases, inl, inr, ◌⊎◌,
}
use quickjab.Outcome.{Outcome, ok, err}
use quickjab.Require.Path.{FilePath}
use quickjab.Require.Resolve.{World, Pins, path_eq, is_explicit, pin_base}
use quickjab.Require.Resolve.Inside.{path_eq_refl}
use quickjab.Require.Memo.{Resolver, resolve_memo}

-- `cache[abs]`, a module object by its number
unfoldable pub cached : FilePath → List (FilePath × ℕ) → Option ℕ
cached k [] = none
cached k ((l, id) ∷ m) = let rest = cached k m in if path_eq l k then some id else rest

-- `delete cache[abs]`
unfoldable pub delete_entry : FilePath → List (FilePath × ℕ) → List (FilePath × ℕ)
delete_entry k [] = []
delete_entry k ((l, id) ∷ m) =
    let rest = delete_entry k m in if path_eq l k then rest else (l, id) ∷ rest

-- `modules` has the exports of every module object, by its number.
pub record Loader (X : Type 0) : Type 0 where
  pub resolver : Resolver
  pub cache : List (FilePath × ℕ)
  pub modules : List X

-- The variables after a resolution that threw: the base may have been set before.
abbrev pub thrown_pins : World → Pins → FilePath → Pins
thrown_pins w s spec =
    if is_explicit spec then s else (elim (pin_base w s) [ ok a ↦ a.1 | err e ↦ s ])

-- Given are the fresh exports object, undefined, the names that the cache inherits from
-- Object.prototype (none of whose values has exports), the text of a file, and the compilation and
-- the call of a module, whose answer is not used.
module _ {X : Type 0} {Src : Type 0} (fresh undefined : X) (is_inherited : FilePath → Bool)
    (source : FilePath → Outcome Src)
    (evaluate : Src → FilePath → ℕ → Loader X → Outcome Bool × Loader X) where
  abbrev pub exports_of : ℕ → Loader X → X
  exports_of id l = get_or l.modules id undefined

  -- `cache[abs] = module`
  abbrev pub inserted : FilePath → Loader X → Loader X
  inserted abs l = record l {
    cache = (abs, length l.modules) ∷ l.cache;
    modules = l.modules ++ (fresh ∷ []);
  }

  -- A throw deletes the entry and goes on.
  abbrev pub evaluated : FilePath → ℕ → Outcome Bool × Loader X → Outcome X × Loader X
  evaluated abs id (ok u, l) = (ok (exports_of id l), l)
  evaluated abs id (err e, l) = (err e, record l { cache = delete_entry abs l.cache })

  abbrev pub first_load : FilePath → Outcome Src → Loader X → Outcome X × Loader X
  first_load abs (err e) l = (err e, l)
  first_load abs (ok src) l =
      evaluated abs (length l.modules) (evaluate src abs (length l.modules) (inserted abs l))

  abbrev pub load_entry : FilePath → Option ℕ → Loader X → Outcome X × Loader X
  load_entry abs (some id) l = (ok (exports_of id l), l)
  load_entry abs none l =
      if is_inherited abs then (ok undefined, l) else first_load abs (source abs) l

  -- `load`, of a resolved path
  unfoldable pub load_path : FilePath → Loader X → Outcome X × Loader X
  unfolding cached delete_entry
  load_path abs l = load_entry abs (cached abs l.cache) l

  abbrev pub load_resolved :
      World → FilePath → Outcome (FilePath × Resolver) → Loader X → Outcome X × Loader X
  load_resolved w spec (ok a) l = load_path a.0 (record l { resolver = a.1 })
  load_resolved w spec (err e) l = (
    err e,
    record l { resolver = record l.resolver { pins = thrown_pins w l.resolver.pins spec } },
  )

  -- `load`
  unfoldable pub load :
      (ℕ → FilePath) → World → FilePath → FilePath → Loader X → Outcome X × Loader X
  load decimal w spec base_dir l =
      load_resolved w spec (resolve_memo decimal w l.resolver spec base_dir) l

  -- The scripts leave the entry of a module that they are part of in `req.cache`.
  pub record KeepsEntries : Type 0 where
    pub keeps :
        (src : Src) (abs : FilePath) (id : ℕ) (l : Loader X)
        → cached abs (evaluate src abs id l).1.cache ≡ cached abs l.cache

cached-delete_entry : (k : FilePath) (m : List (FilePath × ℕ)) → cached k (delete_entry k m) ≡ none
unfolding cached delete_entry
cached-delete_entry k [] = refl
cached-delete_entry k ((l, id) ∷ m) = elim (Bool-cases (path_eq l k)) [
  | inl e ↦ rw e (cached-delete_entry k m)
  | inr e ↦ rw (e, e) (cached-delete_entry k m)
]

module _ {X : Type 0} {Src : Type 0} (fresh undefined : X) (is_inherited : FilePath → Bool)
    (source : FilePath → Outcome Src)
    (evaluate : Src → FilePath → ℕ → Loader X → Outcome Bool × Loader X)
    (kept : KeepsEntries fresh undefined is_inherited source evaluate) where
  -- What a load leaves behind.
  abbrev pub Settled : FilePath → Outcome X × Loader X → Type 0
  Settled abs r =
      ((cached abs r.1.cache ≡ none) × (e : String) × (r.0 ≡ err e))
      ⊎ ((load_path fresh undefined is_inherited source evaluate abs r.1 ≡ r)
          × (v : X) × (r.0 ≡ ok v))

  again :
      (abs : FilePath) (id : ℕ) (l : Loader X)
      → cached abs l.cache ≡ some id
      → load_path fresh undefined is_inherited source evaluate abs l
        ≡ (ok (exports_of fresh undefined is_inherited source evaluate id l), l)
  unfolding load_path
  again abs id l e = rw e refl

  inherited :
      (abs : FilePath) (l : Loader X)
      → cached abs l.cache ≡ none
      → is_inherited abs ≡ true
      → load_path fresh undefined is_inherited source evaluate abs l ≡ (ok undefined, l)
  unfolding load_path
  inherited abs l h e = rw (h, e) refl

  kept_entry :
      (abs : FilePath) (src : Src) (l : Loader X)
      → cached abs
          (evaluate src abs
            (length l.modules)
            (inserted fresh undefined is_inherited source evaluate abs l)).1.cache
        ≡ some (length l.modules)
  unfolding cached
  kept_entry abs src l =
      kept.keeps src abs (length l.modules)
        (inserted fresh undefined is_inherited source evaluate abs l)
      ∙ rw (path_eq_refl abs) refl

  evaluated-Settled :
      (abs : FilePath) (id : ℕ) (o : Outcome Bool × Loader X)
      → cached abs o.1.cache ≡ some id
      → Settled abs (evaluated fresh undefined is_inherited source evaluate abs id o)
  evaluated-Settled abs id (ok u, m) h =
      inr (again abs id m h, exports_of fresh undefined is_inherited source evaluate id m, refl)
  evaluated-Settled abs id (err e, m) h = inl (cached-delete_entry abs m.cache, e, refl)

  first_load-Settled :
      (abs : FilePath) (o : Outcome Src) (l : Loader X)
      → cached abs l.cache ≡ none
      → Settled abs (first_load fresh undefined is_inherited source evaluate abs o l)
  first_load-Settled abs (err e) l h = inl (h, e, refl)
  first_load-Settled abs (ok src) l h =
      evaluated-Settled abs (length l.modules)
        (evaluate src abs (length l.modules)
          (inserted fresh undefined is_inherited source evaluate abs l))
        (kept_entry abs src l)

  load_entry-Settled :
      (abs : FilePath) (l : Loader X)
      → cached abs l.cache ≡ none
      → Settled abs (load_entry fresh undefined is_inherited source evaluate abs none l)
  load_entry-Settled abs l h = elim (Bool-cases (is_inherited abs)) [
    | inl e ↦ rw e (inr (inherited abs l h e, undefined, refl))
    | inr e ↦ rw e (first_load-Settled abs (source abs) l h)
  ]

  -- A load of a path either throws and leaves no entry of it, so that the next load evaluates it
  -- again, or it answers, and then a second load gives the same exports and changes nothing: it
  -- evaluates nothing. The scripts must leave the entries of the cache in place.
  pub load_path-Settled :
      (abs : FilePath) (l : Loader X)
      → Settled abs (load_path fresh undefined is_inherited source evaluate abs l)
  unfolding load_path
  load_path-Settled abs l = elim (Option-cases (cached abs l.cache)) [
    | inl e ↦ rw e (load_entry-Settled abs l e)
    | inr (id, e) ↦
        rw e (
          inr
            (again abs id l e, exports_of fresh undefined is_inherited source evaluate id l, refl))
  ]
