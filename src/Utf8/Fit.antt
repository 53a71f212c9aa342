-- ===== src/Utf8/Fit.antt =====
-- encodeInto copies whole characters: the longest run of them that fits.
use quickjab.Prelude.{
  ℕ, zero, suc, ◌+◌, ◌-◌, ◌≤◌, ◌<◌, ◌≡◌, refl, true, false, List, [], ◌∷◌, ◌++◌, arith, leb, le→leb,
  lt→leb_false, take-append, Bool-cases, inl, inr, if◌then◌else◌, length, get_or, take,
  length-append, ℕ_discrete, dec_le, ◌∙◌, ap,
}
use quickjab.Outcome.{ok}
use quickjab.Bytes.{overwrite}
use quickjab.Abc.{Abc, IsLawful}
use quickjab.Utf8.{is_continuation, back_off, cut_at, encode_into}

abbrev pub concat : List (List ℕ) → List ℕ
concat [] = []
concat (c ∷ cs) = c ++ concat cs

abbrev pub Continues : List ℕ → Type 0
Continues [] = Unit
Continues (x ∷ xs) = (is_continuation x ≡ true) × Continues xs

-- One character: a byte that starts it, then continuation bytes.
abbrev pub IsChar : List ℕ → Type 0
IsChar [] = ⊥
IsChar (x ∷ xs) = (is_continuation x ≡ false) × Continues xs

abbrev pub AreChars : List (List ℕ) → Type 0
AreChars [] = Unit
AreChars (c ∷ cs) = IsChar c × AreChars cs

-- The longest run of leading characters that takes at most `cap` bytes.
unfoldable pub fitting : ℕ → List (List ℕ) → List (List ℕ)
fitting cap [] = []
fitting cap (c ∷ cs) =
    let rest = fitting (cap - length c) cs in if leb (length c) cap then c ∷ rest else []

back_off_lem :
    (s : List ℕ) (m n : ℕ)
    → m ≤ n
    → n < length s
    → is_continuation (get_or s m 0) ≡ false
    → ((j : ℕ) → m < j → j ≤ n → is_continuation (get_or s j 0) ≡ true)
    → back_off s n ≡ m
unfolding back_off
back_off_lem s m zero h k start inside = omega arith
back_off_lem s m (suc n) h k start inside = elim (ℕ_discrete m (suc n)) [
  | yes e ↦ ground arith
  | no ne ↦ ground (
    arith,
    inside (suc n),
    back_off_lem s m n (omega arith) (omega arith) start (λ j a b. inside j a (omega arith)),
  )
]

get_or-append_left :
    (xs ys : List ℕ) (i d : ℕ) → i < length xs → get_or (xs ++ ys) i d ≡ get_or xs i d
get_or-append_left [] ys i d h = elim h [ ]
get_or-append_left (x ∷ xs) ys zero d h = refl
get_or-append_left (x ∷ xs) ys (suc i) d h = get_or-append_left xs ys i d (omega arith)

get_or-append_right :
    (xs ys : List ℕ) (i d : ℕ) → length xs ≤ i → get_or (xs ++ ys) i d ≡ get_or ys (i - length xs) d
get_or-append_right [] ys i d h = ap (λ k. get_or ys k d) (omega arith)
get_or-append_right (x ∷ xs) ys zero d h = elim h [ ]
get_or-append_right (x ∷ xs) ys (suc i) d h =
    get_or-append_right xs ys i d (omega arith) ∙ ap (λ k. get_or ys k d) (omega arith)

Continues-get_or :
    (xs : List ℕ) (i : ℕ) → Continues xs → i < length xs → is_continuation (get_or xs i 0) ≡ true
Continues-get_or [] i h k = elim k [ ]
Continues-get_or (x ∷ xs) zero h k = h.0
Continues-get_or (x ∷ xs) (suc i) h k = Continues-get_or xs i h.1 (omega arith)

-- Where not all fits, the cut falls inside the first character that does not.
record Straddles (s : List ℕ) (m cap : ℕ) : Type 0 where
  below : m ≤ cap
  starts : is_continuation (get_or s m 0) ≡ false
  inside : (j : ℕ) → m < j → j ≤ cap → is_continuation (get_or s j 0) ≡ true

Straddles-append :
    (c t : List ℕ) {m cap : ℕ}
    → length c ≤ cap
    → Straddles t m (cap - length c)
    → Straddles (c ++ t) (length c + m) cap
Straddles-append c t {m} {cap} h k = record {
  below = ground (arith, k.below);
  starts = ground (arith, k.starts, get_or-append_right c t (length c + m) 0);
  inside = λ j a b. ground (arith, k.inside (j - length c), get_or-append_right c t j 0);
}

Straddles-first :
    (x : ℕ) (xs t : List ℕ) {cap : ℕ}
    → IsChar (x ∷ xs)
    → cap < length (x ∷ xs)
    → Straddles ((x ∷ xs) ++ t) 0 cap
Straddles-first x xs t {cap} h k = record { below = omega arith; starts = h.0; inside = inner }
  where
    inner : (j : ℕ) → 0 < j → j ≤ cap → is_continuation (get_or ((x ∷ xs) ++ t) j 0) ≡ true
    inner zero a b = elim a [ ]
    inner (suc j) a b =
        rw (get_or-append_left xs t j 0 (omega arith)) (Continues-get_or xs j h.1 (omega arith))

fitting-Straddles :
    (cap : ℕ) (cs : List (List ℕ))
    → AreChars cs
    → cap < length (concat cs)
    → Straddles (concat cs) (length (concat (fitting cap cs))) cap
unfolding fitting
fitting-Straddles cap [] h k = elim k [ ]
fitting-Straddles cap ([] ∷ cs) h k = absurd h.0
fitting-Straddles cap ((x ∷ xs) ∷ cs) h k = elim (dec_le (suc (length xs)) cap) [
  | yes fits ↦
      rw
        (
          le→leb (suc (length xs)) cap fits,
          length-append (x ∷ xs) (concat (fitting (cap - suc (length xs)) cs)),
        )
        (Straddles-append (x ∷ xs) (concat cs) fits (
          fitting-Straddles (cap - suc (length xs)) cs h.1
            (omega (arith, length-append (x ∷ xs) (concat cs)))))
  | no over ↦
      rw (lt→leb_false (suc (length xs)) cap (omega arith))
        (Straddles-first x xs (concat cs) h.0 (omega arith))
]

-- If all of it fits, all is taken.
fitting_all : (cap : ℕ) (cs : List (List ℕ)) → length (concat cs) ≤ cap → fitting cap cs ≡ cs
unfolding fitting
fitting_all cap [] h = refl
fitting_all cap (c ∷ cs) h =
    ground (arith, length-append c (concat cs), fitting_all (cap - length c) cs)

-- The taken characters are a front of all.
take-fitting :
    (cap : ℕ) (cs : List (List ℕ))
    → take (length (concat (fitting cap cs))) (concat cs) ≡ concat (fitting cap cs)
unfolding fitting
take-fitting cap [] = refl
take-fitting cap (c ∷ cs) = elim (Bool-cases (leb (length c) cap)) [
  | inl fits ↦
      rw (fits, length-append c (concat (fitting (cap - length c) cs)))
        (take-append c (concat cs) _ ∙ ap (λ t. c ++ t) (take-fitting (cap - length c) cs))
  | inr over ↦ rw over
]

back_off_end : (s : List ℕ) → back_off s (length s) ≡ length s
unfolding back_off
back_off_end [] = refl
back_off_end (x ∷ s) = ground arith

cut_at-fitting :
    (cap : ℕ) (cs : List (List ℕ))
    → AreChars cs
    → cut_at (concat cs) cap ≡ length (concat (fitting cap cs))
unfolding cut_at
cut_at-fitting cap cs h = elim (dec_le (length (concat cs)) cap) [
  | yes fits ↦ ground (arith, fitting_all cap cs fits, back_off_end (concat cs))
  | no over ↦
      let st = fitting-Straddles cap cs h (omega arith) in
      ground (
        arith,
        back_off_lem (concat cs) (length (concat (fitting cap cs))) cap st.below (omega arith)
            st.starts st.inside,
      )
]

pub fitting-le : (cap : ℕ) (cs : List (List ℕ)) → length (concat (fitting cap cs)) ≤ cap
unfolding fitting
fitting-le cap [] = omega arith
fitting-le cap (c ∷ cs) =
    ground (
      arith,
      length-append c (concat (fitting (cap - length c) cs)),
      fitting-le (cap - length c) cs,
    )

module _ {abc : Abc} (lawful : IsLawful abc) where
  -- On a string of whole characters, with a u8bFeed that behaves as documented, encodeInto never
  -- fails: it copies exactly the longest run of whole characters that fits the
  -- array, returns its length in bytes, and leaves the rest of the array as it was.
  pub encode_into-fitting :
      (cs : List (List ℕ)) (dst : List ℕ)
      → AreChars cs
      → let text = concat (fitting (length dst) cs) in
        encode_into abc (concat cs) dst ≡ ok (length text, overwrite dst 0 text)
  unfolding encode_into
  encode_into-fitting cs dst h =
      let text = concat (fitting (length dst) cs) in
      ground (
        arith,
        cut_at-fitting (length dst) cs h,
        take-fitting (length dst) cs,
        fitting-le (length dst) cs,
        lawful.feed_fits (record { mem = dst; data_at = 0; idle_at = 0 }) text,
      )
