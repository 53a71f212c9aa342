-- ===== src/Require/Path/Idempotent.antt =====
-- A normal form is its own normal form.
use quickjab.Prelude.{
  ap₂, All, All-reverse, subst, ◌≡◌, refl, sym, ap, ◌∙◌, inl, inr, Bool, true, false, List, [], ◌∷◌,
  ◌++◌, if◌then◌else◌, arith, ==_false,
}
use mathlib.Core.List.{reverse, reverse-cons, reverse-reverse}
use quickjab.Require.Path.{
  FilePath, slash, dot_dot, split, join, is_skipped, is_up, step, walk, is_absolute, parts,
  normalize,
}
use quickjab.Require.Path.Normal.{NoSlash, IsName, AreUps, IsStack, walk-IsStack, split-AllNoSlash}

up-dot_dot : (s : FilePath) → is_up s ≡ true → s ≡ dot_dot
unfolding is_up
up-dot_dot [] h = cc
up-dot_dot (c ∷ []) h = cc
up-dot_dot (c ∷ d ∷ []) h = ground arith
up-dot_dot (c ∷ d ∷ e ∷ s) h = cc

up-NoSlash : (s : FilePath) → is_up s ≡ true → NoSlash s
up-NoSlash s h = rw (up-dot_dot s h) (omega arith, (omega arith, tt))

split_name : (s : FilePath) → NoSlash s → split s ≡ s ∷ []
unfolding split
split_name [] h = refl
split_name (c ∷ s) h = rw (split_name s h.1, ==_false c slash h.0)

split-append : (s p : FilePath) → NoSlash s → split (s ++ (slash ∷ p)) ≡ s ∷ split p
unfolding split
split-append [] p h = refl
split-append (c ∷ s) p h = rw (split-append s p h.1, ==_false c slash h.0)

-- Splitting undoes joining, but for the empty list.
pub split-join :
    (s : FilePath) (ss : List FilePath) → All NoSlash (s ∷ ss) → split (join (s ∷ ss)) ≡ s ∷ ss
unfolding join
split-join s [] h = split_name s h.0
split-join s (t ∷ ss) h = split-append s (join (t ∷ ss)) h.0 ∙ ap (λ r. s ∷ r) (split-join t ss h.1)

AreUps-AllNoSlash : (ss : List FilePath) → AreUps ss → All NoSlash ss
AreUps-AllNoSlash [] h = tt
AreUps-AllNoSlash (s ∷ ss) h = (up-NoSlash s h.0, AreUps-AllNoSlash ss h.1)

pub IsStack-AllNoSlash : (abs : Bool) (out : List FilePath) → IsStack abs out → All NoSlash out
IsStack-AllNoSlash abs [] h = tt
IsStack-AllNoSlash abs (s ∷ out) (inl (name, rest)) =
    (name.no_slash, IsStack-AllNoSlash abs out rest)
IsStack-AllNoSlash abs (s ∷ out) (inr (no_abs, ups)) = AreUps-AllNoSlash (s ∷ out) ups

walk-append :
    (abs : Bool) (out xs ys : List FilePath)
    → walk abs out (xs ++ ys) ≡ walk abs (walk abs out xs) ys
unfolding walk
walk-append abs out [] ys = refl
walk-append abs out (x ∷ xs) ys = walk-append abs (step abs out x) xs ys

step_name : (abs : Bool) (out : List FilePath) (s : FilePath) → IsName s → step abs out s ≡ s ∷ out
unfolding step
step_name abs out s n = rw (n.kept, n.down)

step_up :
    (out : List FilePath) (s : FilePath) → is_up s ≡ true → AreUps out → step false out s ≡ s ∷ out
unfolding step
step_up [] s h k = rw (up-dot_dot s h)
step_up (t ∷ out) s h k = rw (up-dot_dot s h, k.0)

walk_last :
    (abs : Bool) (s : FilePath) (xs : List FilePath)
    → walk abs [] (reverse (s ∷ xs)) ≡ step abs (walk abs [] (reverse xs)) s
unfolding walk
walk_last abs s xs = rw reverse-cons (walk-append abs [] (reverse xs) (s ∷ []))

walk_ups : (ss : List FilePath) → AreUps ss → walk false [] (reverse ss) ≡ ss
unfolding walk
walk_ups [] h = refl
walk_ups (s ∷ ss) h = rw (walk_last false s ss, walk_ups ss h.1) (step_up ss s h.0 h.1)

-- The loop rebuilds any stack that it could leave.
walk-reverse :
    (abs : Bool) (out : List FilePath) → IsStack abs out → walk abs [] (reverse out) ≡ out
unfolding walk
walk-reverse abs [] h = refl
walk-reverse abs (s ∷ out) (inl (name, rest)) =
    rw (walk_last abs s out, walk-reverse abs out rest) (step_name abs out s name)
walk-reverse true (s ∷ out) (inr (no_abs, ups)) = cc
walk-reverse false (s ∷ out) (inr (no_abs, ups)) = walk_ups (s ∷ out) ups

-- ... also from the joined text.
walk-split-join :
    (abs : Bool) (out : List FilePath)
    → IsStack abs out
    → (l : List FilePath) → reverse out ≡ l
    → walk abs [] (split (join l)) ≡ out
unfolding walk split join is_skipped
walk-split-join abs out h [] e =
    let back : out ≡ [] = sym (reverse-reverse out) ∙ ap reverse e in sym back
walk-split-join abs out h (s ∷ l) e =
    ap (walk abs []) (
      split-join s l
        (subst (All NoSlash) e (All-reverse NoSlash out (IsStack-AllNoSlash abs out h)))
      ∙ sym e)
    ∙ walk-reverse abs out h

-- A part: no slash in it, and not empty.
abbrev IsPart : FilePath → Type 0
IsPart s = NoSlash s × (is_skipped s ≡ false)

AreUps-AreParts : (ss : List FilePath) → AreUps ss → All IsPart ss
unfolding is_skipped
AreUps-AreParts [] h = tt
AreUps-AreParts (s ∷ ss) h = ((up-NoSlash s h.0, rw (up-dot_dot s h.0)), AreUps-AreParts ss h.1)

IsStack-AreParts : (abs : Bool) (out : List FilePath) → IsStack abs out → All IsPart out
IsStack-AreParts abs [] h = tt
IsStack-AreParts abs (s ∷ out) (inl (name, rest)) =
    ((name.no_slash, name.kept), IsStack-AreParts abs out rest)
IsStack-AreParts abs (s ∷ out) (inr (no_abs, ups)) = AreUps-AreParts (s ∷ out) ups

-- Joined parts do not begin with a slash.
join-relative : (ss : List FilePath) → All IsPart ss → is_absolute (join ss) ≡ false
unfolding is_absolute join is_skipped
join-relative [] h = refl
join-relative ([] ∷ []) h = cc
join-relative ((c ∷ s) ∷ []) h = ==_false c slash h.0.0.0
join-relative ([] ∷ t ∷ ss) h = cc
join-relative ((c ∷ s) ∷ t ∷ ss) h = ==_false c slash h.0.0.0

walk-slash :
    (out : List FilePath)
    → IsStack true out
    → walk true [] (split (slash ∷ join (reverse out))) ≡ out
unfolding split walk is_skipped
walk-slash out h = walk-split-join true out h (reverse out) refl

-- A normal form with its own parts: what `normalize` gives, whatever stack is left.
pub rejoin :
    (abs : Bool) (out : List FilePath)
    → IsStack abs out
    → let p = (if abs then slash ∷ [] else []) ++ join (reverse out) in
      (is_absolute p ≡ abs) × (parts p ≡ reverse out)
unfolding is_absolute parts
rejoin true out h = (refl, ap reverse (walk-slash out h))
rejoin false out h =
    let relative =
      join-relative (reverse out) (All-reverse IsPart out (IsStack-AreParts false out h)) in
    (relative, rw relative (ap reverse (walk-split-join false out h (reverse out) refl)))

-- `normalize` is idempotent, on absolute and on relative paths.
pub normalize_idem : (p : FilePath) → normalize (normalize p) ≡ normalize p
unfolding normalize parts
normalize_idem p =
    let again =
      rejoin (is_absolute p) (walk (is_absolute p) [] (split p))
        (walk-IsStack (is_absolute p) [] (split p) tt (split-AllNoSlash p)) in
    ap₂ (λ b l. (if b then slash ∷ [] else []) ++ join l) again.0 again.1
