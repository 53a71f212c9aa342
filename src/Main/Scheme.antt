-- ===== src/Main/Scheme.antt =====
-- What counts as a `scheme:` token.
use quickjab.Prelude.{
  ap, ap₂, ◌∙◌, Bool, ◌&&◌, ℕ_discrete, ℕ, ◌≡◌, refl, ◌↔◌, [], ◌∷◌, ◌++◌, All, true, arith,
}
use quickjab.Main.{Arg, is_alpha, is_scheme_char, scheme_ends, has_scheme}

abbrev colon : ℕ
colon = b':'

-- Letters, digits, `+`, `-` and `.` up to a colon.
abbrev HasEnd : Arg → Type 0
HasEnd p =
    (name : Arg) × (rest : Arg) × (p ≡ name ++ (colon ∷ rest))
    × All (λ c. is_scheme_char c ≡ true) name

and_left : (a b : Bool) → (a && b) ≡ true → a ≡ true
and_left a b h = ground (arith, h)

and_right : (a b : Bool) → (a && b) ≡ true → b ≡ true
and_right a b h = ground (arith, h)

scheme_ends_sound : (p : Arg) → scheme_ends p ≡ true → HasEnd p
unfolding scheme_ends
scheme_ends_sound [] h = cc
scheme_ends_sound (c ∷ p) h = elim (ℕ_discrete c colon) [
  | yes e ↦ ([], p, ap (λ d. d ∷ p) e, tt)
  | no ne ↦
      let (name, rest, e, chars) = scheme_ends_sound p (ground (arith, h)) in
      (c ∷ name, rest, ap (λ q. c ∷ q) e, (ground (arith, h), chars))
]

scheme_ends_complete :
    (name rest : Arg)
    → All (λ c. is_scheme_char c ≡ true) name
    → scheme_ends (name ++ (colon ∷ rest)) ≡ true
unfolding scheme_ends
scheme_ends_complete [] rest h = refl
scheme_ends_complete (c ∷ name) rest h = ground (arith, h.0, scheme_ends_complete name rest h.1)

-- A token has a scheme exactly when it is a letter, then letters, digits, `+`, `-` and `.`, then a
-- colon, whatever follows.
pub has_scheme_iff :
    (s : Arg)
    → (has_scheme s ≡ true) ↔ (
        (c : ℕ) × (name : Arg) × (rest : Arg) × (s ≡ c ∷ (name ++ (colon ∷ rest)))
        × (is_alpha c ≡ true)
        × All (λ d. is_scheme_char d ≡ true) name)
unfolding has_scheme
has_scheme_iff s = (sound s, λ h. complete s h)
  where
    sound :
        (t : Arg)
        → has_scheme t ≡ true
        → (c : ℕ) × (name : Arg) × (rest : Arg) × (t ≡ c ∷ (name ++ (colon ∷ rest)))
          × (is_alpha c ≡ true)
          × All (λ d. is_scheme_char d ≡ true) name
    sound [] h = cc
    sound (c ∷ p) h =
        let (name, rest, e, chars) =
          scheme_ends_sound p (and_right (is_alpha c) (scheme_ends p) h) in
        (c, name, rest, ap (λ q. c ∷ q) e, and_left (is_alpha c) (scheme_ends p) h, chars)

    complete :
        (t : Arg)
        → ((c : ℕ) × (name : Arg) × (rest : Arg) × (t ≡ c ∷ (name ++ (colon ∷ rest)))
            × (is_alpha c ≡ true)
            × All (λ d. is_scheme_char d ≡ true) name)
        → has_scheme t ≡ true
    complete t (c, name, rest, e, alpha, chars) =
        ap has_scheme e ∙ ap₂ (λ a b. a && b) alpha (scheme_ends_complete name rest chars)
