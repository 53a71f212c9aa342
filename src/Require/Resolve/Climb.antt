-- ===== src/Require/Resolve/Climb.antt =====
-- The climb ends, and finds the nearest jsrc/ at or above the directory it starts from.
use quickjab.Prelude.{
  Option-cases, ℕ, zero, suc, ◌≤◌, ◌<◌, ◌≡◌, ◌≢◌, refl, ◌⊎◌, inl, inr, true, false, [], ◌∷◌, ◌++◌,
  Option, none, some, arith, length, Bool-cases, ◌||◌,
}
use quickjab.Require.Path.{FilePath, slash, is_absolute, normalize}
use quickjab.Require.Resolve.{
  World, path_eq, slash_jsrc, before_last_slash, dirname, climb, climb_jsrc, ceiling_of,
}

-- `dirname` taken k times.
abbrev pub ancestor : ℕ → FilePath → FilePath
ancestor zero dir = dir
ancestor (suc k) dir = ancestor k (dirname dir)

before_last_slash-length :
    (p : FilePath) {d : FilePath} → before_last_slash p ≡ some d → length d < length p
unfolding before_last_slash
before_last_slash-length [] e = ground (arith, e)
before_last_slash-length (c ∷ p) {d} e = elim (Option-cases (before_last_slash p)) [
  | inl n ↦ ground (arith, e, n)
  | inr (d', f) ↦ ground (arith, e, f, before_last_slash-length p f)
]

rooted_parent :
    (p : FilePath)
    → p ≢ []
    → (is_absolute (dirname (slash ∷ p)) ≡ true)
      × (length (dirname (slash ∷ p)) < length (slash ∷ p))
unfolding dirname before_last_slash is_absolute
rooted_parent [] h = absurd (h refl)
rooted_parent (x ∷ p) h = elim (Option-cases (before_last_slash (x ∷ p))) [
  | inl n ↦ ground (arith, n)
  | inr (d, f) ↦ ground (arith, f, before_last_slash-length (x ∷ p) f)
]

root_ends : (p : FilePath) → p ≡ [] → path_eq (slash ∷ p) (slash ∷ []) ≡ true
unfolding path_eq
root_ends [] h = refl
root_ends (x ∷ p) h = cc

module _ (w : World) (ceiling : FilePath) where
  -- There is no jsrc/ in the first k + 1 directories, and none of the first k is the ceiling.
  abbrev pub Bare : ℕ → FilePath → Type 0
  Bare k dir =
      (i : ℕ)
      → i < k
      → (w.is_dir (ancestor i dir ++ slash_jsrc) ≡ false)
        × (path_eq (ancestor i dir) ceiling ≡ false)

  -- The climb finds a jsrc/ in the directory k steps up, and there is none nearer.
  abbrev pub Finds : FilePath → Option (Option FilePath) → Type 0
  Finds dir r =
      (k : ℕ) × (r ≡ some (some (ancestor k dir ++ slash_jsrc)))
      × (w.is_dir (ancestor k dir ++ slash_jsrc) ≡ true)
      × Bare k dir

  -- The climb stops at the ceiling or the root, k steps up, with no jsrc/ there or below.
  abbrev pub Stops : FilePath → Option (Option FilePath) → Type 0
  Stops dir r =
      (k : ℕ) × (r ≡ some none)
      × ((path_eq (ancestor k dir) ceiling || path_eq (ancestor k dir) (slash ∷ [])) ≡ true)
      × (w.is_dir (ancestor k dir ++ slash_jsrc) ≡ false)
      × Bare k dir

  Bare-up :
      (k : ℕ) (dir : FilePath)
      → w.is_dir (dir ++ slash_jsrc) ≡ false
      → path_eq dir ceiling ≡ false
      → Bare k (dirname dir)
      → Bare (suc k) dir
  Bare-up k dir bare goes rest zero h = (bare, goes)
  Bare-up k dir bare goes rest (suc i) h = rest i (omega arith)

  climb_round :
      (fuel : ℕ) (dir : FilePath)
      → (path_eq dir (slash ∷ []) ≡ false
          → Finds (dirname dir) (climb w ceiling fuel (dirname dir))
            ⊎ Stops (dirname dir) (climb w ceiling fuel (dirname dir)))
      → Finds dir (climb w ceiling (suc fuel) dir) ⊎ Stops dir (climb w ceiling (suc fuel) dir)
  unfolding climb
  climb_round fuel dir rest = elim (Bool-cases (w.is_dir (dir ++ slash_jsrc))) [
    | inl here ↦ inl (0, ground (arith, here), here, λ i h. elim h [ ])
    | inr bare ↦ elim (Bool-cases (path_eq dir ceiling || path_eq dir (slash ∷ []))) [
      | inl ends ↦ inr (0, ground (arith, bare, ends), ends, bare, λ i h. elim h [ ])
      | inr goes ↦ elim (rest (ground (arith, goes))) [
        | inl (k, e, is, none_nearer) ↦ inl (
          suc k,
          ground (arith, bare, goes, e),
          is,
          Bare-up k dir bare (ground (arith, goes)) none_nearer,
        )
        | inr (k, e, ends, none_there, none_nearer) ↦ inr (
          suc k,
          ground (arith, bare, goes, e),
          ends,
          none_there,
          Bare-up k dir bare (ground (arith, goes)) none_nearer,
        )
      ]
    ]
  ]

  climb_cases :
      (fuel : ℕ) (dir : FilePath)
      → is_absolute dir ≡ true
      → length dir ≤ fuel
      → Finds dir (climb w ceiling fuel dir) ⊎ Stops dir (climb w ceiling fuel dir)
  unfolding is_absolute
  climb_cases fuel [] a h = cc
  climb_cases zero (c ∷ dir) a h = elim h [ ]
  climb_cases (suc fuel) (c ∷ []) a h =
      climb_round fuel (c ∷ []) (λ n. ground (arith, n, a, root_ends [] refl))
  climb_cases (suc fuel) (c ∷ x ∷ dir) a h =
      let up = rooted_parent (x ∷ dir) (λ n. cc) in
      let same : c ≡ slash = ground (arith, a) in
      climb_round fuel (c ∷ x ∷ dir)
        (λ n. rw same (climb_cases fuel (dirname (slash ∷ x ∷ dir)) up.0 (omega (arith, up))))

normalize-is_absolute : (p : FilePath) → is_absolute p ≡ true → is_absolute (normalize p) ≡ true
unfolding normalize is_absolute
normalize-is_absolute p h = rw h

-- From an absolute working directory the climb always ends: with the nearest jsrc/ at or above it
-- and not above the ceiling, or, where there is none, at the ceiling or the root.
pub climb_jsrc_nearest :
    (w : World)
    → is_absolute w.cwd ≡ true
    → Finds w (ceiling_of w) (normalize w.cwd) (climb_jsrc w)
      ⊎ Stops w (ceiling_of w) (normalize w.cwd) (climb_jsrc w)
unfolding climb_jsrc
climb_jsrc_nearest w h =
    climb_cases w (ceiling_of w) (length (normalize w.cwd)) (normalize w.cwd)
      (normalize-is_absolute w.cwd h) (omega arith)
