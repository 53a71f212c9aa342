-- ===== src/Require/Path/Normal.antt =====
-- What the loop of `normalize` leaves: names, and in a relative path `..` parts in front of them.
use quickjab.Prelude.{
  All, ==_false, ==_true, ℕ_discrete, ℕ, ◌≡◌, refl, ◌≢◌, ◌⊎◌, inl, inr, Bool, true, false, List, [],
  ◌∷◌, ◌==◌, if◌then◌else◌, Bool-cases,
}
use quickjab.Require.Path.{
  FilePath, slash, dot_dot, cons_first, split, is_skipped, is_up, up, step, walk,
}

abbrev pub NoSlash : FilePath → Type 0
NoSlash [] = Unit
NoSlash (c ∷ p) = (c ≢ slash) × NoSlash p

-- A part that names a directory entry: not empty, not `.`, not `..`, with no slash inside.
pub record IsName (s : FilePath) : Type 0 where
  pub no_slash : NoSlash s
  pub kept : is_skipped s ≡ false
  pub down : is_up s ≡ false

abbrev pub AreUps : List FilePath → Type 0
AreUps [] = Unit
AreUps (s ∷ ss) = (is_up s ≡ true) × AreUps ss

-- The stack of the loop, last part first.
abbrev pub IsStack : Bool → List FilePath → Type 0
IsStack abs [] = Unit
IsStack abs (s ∷ ss) = (IsName s × IsStack abs ss) ⊎ ((abs ≡ false) × AreUps (s ∷ ss))

prepend-AllNoSlash :
    (c : ℕ) (rest : List FilePath)
    → All NoSlash rest
    → All NoSlash (if c == slash then [] ∷ rest else cons_first c rest)
prepend-AllNoSlash c [] h = elim (ℕ_discrete c slash) [
  | yes e ↦ rw (==_true c slash e) (tt, h)
  | no ne ↦ rw (==_false c slash ne) ((ne, tt), h)
]
prepend-AllNoSlash c (s ∷ ss) h = elim (ℕ_discrete c slash) [
  | yes e ↦ rw (==_true c slash e) (tt, h)
  | no ne ↦ rw (==_false c slash ne) ((ne, h.0), h.1)
]

pub split-AllNoSlash : (p : FilePath) → All NoSlash (split p)
unfolding split
split-AllNoSlash [] = (tt, tt)
split-AllNoSlash (c ∷ p) = prepend-AllNoSlash c (split p) (split-AllNoSlash p)

pub dot_dot-up : is_up dot_dot ≡ true
unfolding is_up
dot_dot-up = refl

up-IsStack : (abs : Bool) (out : List FilePath) → IsStack abs out → IsStack abs (up abs out)
up-IsStack true [] h = h
up-IsStack false [] h = inr (refl, (dot_dot-up, tt))
up-IsStack true (t ∷ out) (inl (name, rest)) = rw (name.down) rest
up-IsStack false (t ∷ out) (inl (name, rest)) = rw (name.down) rest
up-IsStack true (t ∷ out) (inr (no_abs, ups)) = cc
up-IsStack false (t ∷ out) (inr (no_abs, ups)) = rw (ups.0) (inr (refl, (dot_dot-up, ups)))

pub step-IsStack :
    (abs : Bool) (out : List FilePath) (s : FilePath)
    → IsStack abs out
    → NoSlash s
    → IsStack abs (step abs out s)
unfolding step
step-IsStack abs out s h n = elim (Bool-cases (is_skipped s)) [
  | inl skipped ↦ rw skipped h
  | inr kept ↦ elim (Bool-cases (is_up s)) [
    | inl is ↦ rw (kept, is) (up-IsStack abs out h)
    | inr down ↦ rw (kept, down) (inl (record { no_slash = n; kept = kept; down = down }, h))
  ]
]

pub walk-IsStack :
    (abs : Bool) (out ss : List FilePath)
    → IsStack abs out
    → All NoSlash ss
    → IsStack abs (walk abs out ss)
unfolding walk
walk-IsStack abs out [] h n = h
walk-IsStack abs out (s ∷ ss) h n =
    walk-IsStack abs (step abs out s) ss (step-IsStack abs out s h n.0) n.1
