-- ===== src/Arg/Numbers.antt =====
-- The number gates let through exactly the whole numbers of their range.
use quickjab.Prelude.{ℕ, suc, ◌≤◌, ◌≡◌, ◌↔◌, arith, String, ltb, if◌then◌else◌, inl, inr}
use quickjab.Int.{ℤ, pos, negsuc}
use quickjab.Outcome.{ok, err, Outcome-cases}
use quickjab.Arg.{
  Value, object, number, unconvertible, nan, infinity, minus_infinity, whole, between, max_safe,
  u64_of, i64_of, u32_of, fd_of, u8_of, limited,
}

u64_of_sound : (v : Value) {n : ℕ} → u64_of v ≡ ok n → (v ≡ number (whole (pos n))) × (n ≤ max_safe)
unfolding u64_of
u64_of_sound object e = ground arith
u64_of_sound (unconvertible x) e = ground arith
u64_of_sound (number nan) e = ground arith
u64_of_sound (number infinity) e = ground arith
u64_of_sound (number minus_infinity) e = ground arith
u64_of_sound (number (whole (pos m))) e = ground arith
u64_of_sound (number (whole (negsuc m))) e = ground arith
u64_of_sound (number (between (pos m))) e = ground arith
u64_of_sound (number (between (negsuc m))) e = ground arith

u64_of_complete : (n : ℕ) → n ≤ max_safe → u64_of (number (whole (pos n))) ≡ ok n
unfolding u64_of
u64_of_complete n h = ground arith

-- JABCu64Of accepts a value as n exactly when it is the whole number n and n is at most 2^53 - 1:
-- no NaN, no infinity, no fraction, nothing negative, no object.
pub u64_of_iff :
    (v : Value) (n : ℕ) → (u64_of v ≡ ok n) ↔ ((v ≡ number (whole (pos n))) × (n ≤ max_safe))
u64_of_iff v n = (u64_of_sound v, λ h. rw (h.0) (u64_of_complete n h.1))

abbrev pub magnitude : ℤ → ℕ
magnitude (pos n) = n
magnitude (negsuc n) = suc n

i64_of_sound :
    (v : Value) {z : ℤ} → i64_of v ≡ ok z → (v ≡ number (whole z)) × (magnitude z ≤ max_safe)
unfolding i64_of
i64_of_sound object e = ground arith
i64_of_sound (unconvertible x) e = ground arith
i64_of_sound (number nan) e = ground arith
i64_of_sound (number infinity) e = ground arith
i64_of_sound (number minus_infinity) e = ground arith
i64_of_sound (number (whole (pos m))) e = ground arith
i64_of_sound (number (whole (negsuc m))) e = ground arith
i64_of_sound (number (between (pos m))) e = ground arith
i64_of_sound (number (between (negsuc m))) e = ground arith

i64_of_complete : (z : ℤ) → magnitude z ≤ max_safe → i64_of (number (whole z)) ≡ ok z
unfolding i64_of
i64_of_complete (pos n) h = ground arith
i64_of_complete (negsuc n) h = ground arith

-- JABCi64Of accepts a value as z exactly when it is the whole number z, of either sign, and its
-- magnitude is at most 2^53 - 1.
i64_of_iff :
    (v : Value) (z : ℤ) → (i64_of v ≡ ok z) ↔ ((v ≡ number (whole z)) × (magnitude z ≤ max_safe))
i64_of_iff v z = (i64_of_sound v, λ h. rw (h.0) (i64_of_complete z h.1))

limited_iff :
    (limit : ℕ) (message : String) (v : Value) (n : ℕ)
    → limit ≤ max_safe
    → (limited limit message v ≡ ok n) ↔ ((v ≡ number (whole (pos n))) × (n ≤ limit))
limited_iff limit message v n small = (forth, back)
  where
    forth : limited limit message v ≡ ok n → (v ≡ number (whole (pos n))) × (n ≤ limit)
    forth e = elim (Outcome-cases (u64_of v)) [
      | inl (m, f) ↦
          let g : (if ltb limit m then err message else ok m) ≡ ok n = rw (f, limited) at e in
          ground (arith, u64_of_sound v f, g)
      | inr (x, f) ↦ let g : err x ≡ ok n = rw (f, limited) at e in ground (arith, g)
    ]

    back : (v ≡ number (whole (pos n))) × (n ≤ limit) → limited limit message v ≡ ok n
    back h = rw (h.0, u64_of_complete n (omega arith)) (ground arith)

-- The narrower gates accept exactly the whole numbers of 32 bits, of a descriptor, of a byte.
narrow_gates_iff :
    (v : Value) (n : ℕ)
    → ((u32_of v ≡ ok n) ↔ ((v ≡ number (whole (pos n))) × (n ≤ 0xffffffff)))
      × ((fd_of v ≡ ok n) ↔ ((v ≡ number (whole (pos n))) × (n ≤ 0x7fffffff)))
      × ((u8_of v ≡ ok n) ↔ ((v ≡ number (whole (pos n))) × (n ≤ 0xff)))
unfolding u32_of fd_of u8_of
narrow_gates_iff v n = (
  limited_iff _ _ v n (omega arith),
  limited_iff _ _ v n (omega arith),
  limited_iff _ _ v n (omega arith),
)
