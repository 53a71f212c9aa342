-- ===== src/Require/Resolve/Inside.antt =====
-- A bareword stays inside the require base.
use quickjab.Prelude.{
  take, drop, length, take-append-drop, sym, All-map, ◌∙◌, ap, if◌then◌else◌, ◌++◌, ◌==◌, subst,
  All, ℕ, ◌≡◌, ◌≢◌, refl, ◌⊎◌, List, Bool-cases, All-reverse, inl, inr, true, arith,
}
use mathlib.Core.List.{[], ◌∷◌, append_assoc}
use quickjab.Outcome.{ok}
use quickjab.Require.Path.{
  FilePath, slash, split, join, cons_first, walk, is_absolute, parts, normalize,
}
use quickjab.Require.Path.Normal.{NoSlash, IsName, IsStack, walk-IsStack, split-AllNoSlash}
use quickjab.Require.Path.Idempotent.{split-join}
use quickjab.Require.Resolve.{World, path_eq, try_under}

pub path_eq-eq : (p q : FilePath) → path_eq p q ≡ true → p ≡ q
unfolding path_eq
path_eq-eq [] [] h = refl
path_eq-eq [] (d ∷ q) h = cc
path_eq-eq (c ∷ p) [] h = cc
path_eq-eq (c ∷ p) (d ∷ q) h = ground (arith, path_eq-eq p q)

pub path_eq_refl : (p : FilePath) → path_eq p p ≡ true
unfolding path_eq
path_eq_refl [] = refl
path_eq_refl (c ∷ p) = ground (arith, path_eq_refl p)

-- Splitting at a slash between two texts.
split_prepend :
    (c : ℕ) (ss ts : List FilePath)
    → ss ≢ []
    → (if c == slash then [] ∷ (ss ++ ts) else cons_first c (ss ++ ts))
      ≡ (if c == slash then [] ∷ ss else cons_first c ss) ++ ts
split_prepend c [] ts h = absurd (h refl)
split_prepend c (s ∷ ss) ts h = ground arith

prepend-ne-nil :
    (c : ℕ) (ss : List FilePath) → (if c == slash then [] ∷ ss else cons_first c ss) ≢ []
prepend-ne-nil c [] h = ground (arith, h)
prepend-ne-nil c (s ∷ ss) h = ground (arith, h)

split-ne-nil : (p : FilePath) → split p ≢ []
unfolding split
split-ne-nil [] h = cc
split-ne-nil (c ∷ p) h = prepend-ne-nil c (split p) h

split-append : (p q : FilePath) → split (p ++ (slash ∷ q)) ≡ split p ++ split q
unfolding split
split-append [] q = refl
split-append (c ∷ p) q =
    ap (λ r. if c == slash then [] ∷ r else cons_first c r) (split-append p q)
    ∙ split_prepend c (split p) (split q) (split-ne-nil p)

stack-IsName : (out : List FilePath) → IsStack true out → All IsName out
stack-IsName [] h = tt
stack-IsName (s ∷ out) (inl (name, rest)) = (name, stack-IsName out rest)
stack-IsName (s ∷ out) (inr (no_abs, ups)) = cc

-- The parts of an absolute path's normal form are names: no `..`, no `.`, nothing empty.
pub parts-IsName : (p : FilePath) → is_absolute p ≡ true → All IsName (parts p)
unfolding parts
parts-IsName p h = All-reverse IsName (walk (is_absolute p) [] (split p)) (
    stack-IsName _ (
      subst (λ b. IsStack b (walk (is_absolute p) [] (split p))) h
        (walk-IsStack (is_absolute p) [] (split p) tt (split-AllNoSlash p))))

-- What the normal form splits into, after its leading slash.
split-rooted :
    (l : List FilePath) → All IsName l → (split (slash ∷ join l) ≡ [] ∷ l) ⊎ (join l ≡ [])
unfolding split join
split-rooted [] h = inr refl
split-rooted (s ∷ l) h = inl (
    ap (λ r. [] ∷ r)
      (split-join s l (h.0.no_slash, All-map IsName NoSlash l (λ t n. n.no_slash) h.1)))

split-normalize :
    (p : FilePath)
    → is_absolute p ≡ true
    → (split (normalize p) ≡ [] ∷ parts p) ⊎ (normalize p ≡ slash ∷ [])
unfolding normalize
split-normalize p h = rw h (elim (split-rooted (parts p) (parts-IsName p h)) [
  | inl e ↦ inl e
  | inr e ↦ inr (ap (λ r. slash ∷ r) e)
])

All-suffix : (ss ts : List FilePath) → All IsName (ss ++ ts) → All IsName ss × All IsName ts
All-suffix [] ts h = (tt, h)
All-suffix (s ∷ ss) ts h = ((h.0, (All-suffix ss ts h.1).0), (All-suffix ss ts h.1).1)

split-slash : (base : FilePath) → split (slash ∷ base) ≡ [] ∷ split base
unfolding split
split-slash base = refl

append-ne-nil : (p q : FilePath) (c : ℕ) → p ++ (c ∷ q) ≢ []
append-ne-nil [] q c h = cc
append-ne-nil (d ∷ p) q c h = cc

-- A normal form that goes on behind an absolute base: below the base there are only names, and
-- the base itself is in normal form.
below_base :
    (base p tail : FilePath)
    → is_absolute p ≡ true
    → normalize p ≡ slash ∷ (base ++ (slash ∷ tail))
    → All IsName (split base) × All IsName (split tail)
below_base base p tail hp e = elim (split-normalize p hp) [
  | inl f ↦
      let g : [] ∷ parts p ≡ [] ∷ (split base ++ split tail) =
        sym f
        ∙ ap split e
        ∙ split-slash (base ++ (slash ∷ tail))
        ∙ ap (λ r. [] ∷ r) (split-append base tail) in
      All-suffix (split base) (split tail) (
        subst (All IsName) (let i : parts p ≡ split base ++ split tail = cc g in i)
          (parts-IsName p hp))
  | inr f ↦
      absurd (append-ne-nil base tail slash (let i : base ++ (slash ∷ tail) ≡ [] = cc (f, e) in i))
]

prefix-append : (c u : FilePath) → path_eq (take (length u) c) u ≡ true → c ≡ u ++ drop (length u) c
prefix-append c u h =
    sym (take-append-drop (length u) c) ∙ ap (λ t. t ++ drop (length u) c) (path_eq-eq _ _ h)

-- What a loop over candidates under an absolute base returns is a regular file of the file system,
-- it is the base, a slash, and names only (no `..` part, no `.`, none empty); and the base was
-- itself in normal form, or nothing would have been returned.
pub try_under-Below :
    (w : World) (root : FilePath) (ss : List FilePath) {c : FilePath}
    → try_under w (slash ∷ root) ss ≡ ok c
    → (tail : FilePath) × (c ≡ (slash ∷ root) ++ (slash ∷ tail))
      × All IsName (split tail)
      × (w.is_file c ≡ true)
      × All IsName (split root)
unfolding try_under is_absolute
try_under-Below w root [] e = ground (arith, e)
try_under-Below w root (s ∷ ss) {c} e =
    elim (Bool-cases (path_eq (take (length under) found) under)) [
      | inl is ↦ elim (Bool-cases (w.is_file found)) [
        | inl reg ↦
            let same : found ≡ c = ground (arith, e) in
            let joined : found ≡ (slash ∷ root) ++ (slash ∷ drop (length under) found) =
              prefix-append found under is
              ∙ append_assoc (slash ∷ root) (slash ∷ []) (drop (length under) found) in
            let names = below_base root (under ++ s) (drop (length under) found) rooted joined in
            (drop (length under) found, sym same ∙ joined, names.1, rw same at reg, names.0)
        | inr other ↦ try_under-Below w root ss (ground (arith, e))
      ]
      | inr escapes ↦ absurd (ground (arith, e))
    ]
  where
    under : FilePath
    under = (slash ∷ root) ++ (slash ∷ [])

    found : FilePath
    found = normalize (under ++ s)

    rooted : is_absolute (under ++ s) ≡ true
    rooted = refl
