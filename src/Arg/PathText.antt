-- ===== src/Arg/PathText.antt =====
-- `JABCPath` of arg.c: a JS string to a path for the operating system.
use quickjab.Prelude.{
  ℕ, ◌+◌, ◌≡◌, ◌≢◌, ◌<◌, ◌↔◌, refl, Bool, true, false, ◌||◌, List, [], ◌∷◌, Option, none, some,
  length, All, arith, ltb, leb, ◌==◌, if◌then◌else◌, Bool-cases, inl, inr,
}

-- `u8csFind(scan, 0) == OK`
unfoldable pub has_nul : List ℕ → Bool
has_nul [] = false
has_nul (c ∷ cs) = let rest = has_nul cs in if c == 0 then true else rest

-- `none` where it is refused. The text is `none` where the value is not a string; given are PAGESIZE
-- and the room of the buffer.
unfoldable pub path_of : ℕ → ℕ → Option (List ℕ) → Option (List ℕ)
unfolding has_nul
path_of page_size room none = none
path_of page_size room (some s) =
    if ltb (length s) 1 || leb page_size (length s + 1) || has_nul s || ltb room (length s)
    then none
    else some s

has_nul-false : (s : List ℕ) → (has_nul s ≡ false) ↔ All (λ c. c ≢ 0) s
unfolding has_nul
has_nul-false [] = (λ e. tt, λ h. refl)
has_nul-false (c ∷ cs) = elim (Bool-cases (c == 0)) [
  | inl zero_byte ↦ rw zero_byte (λ e. cc e, λ h. ground (arith, h.0, zero_byte))
  | inr other ↦
      rw other (λ e. (ground (arith, other), (has_nul-false cs).0 e), λ h. (has_nul-false cs).1 h.1)
]

-- A path that is accepted is the text itself: it is not empty, has no NUL at which the operating
-- system would cut it, and is short enough; and every such text is accepted.
pub path_of_iff :
    (page_size room : ℕ) (s t : List ℕ)
    → (path_of page_size room (some s) ≡ some t) ↔ (
        (s ≡ t)
        × (0 < length s)
        × (length s + 1 < page_size)
        × (length s < room + 1)
        × All (λ c. c ≢ 0) s)
unfolding path_of
path_of_iff page_size room s t = (sound, complete)
  where
    sound :
        (path_of page_size room (some s) ≡ some t)
        → (s ≡ t)
          × (0 < length s)
          × (length s + 1 < page_size)
          × (length s < room + 1)
          × All (λ c. c ≢ 0) s
    sound e = (
      ground (arith, e),
      ground (arith, e),
      ground (arith, e),
      ground (arith, e),
      (has_nul-false s).0 (ground (arith, e)),
    )

    complete :
        (s ≡ t)
          × (0 < length s)
          × (length s + 1 < page_size)
          × (length s < room + 1)
          × All (λ c. c ≢ 0) s
        → path_of page_size room (some s) ≡ some t
    complete h = ground (arith, h.0, h.1, h.2, h.3, (has_nul-false s).1 h.4)
