-- ===== src/Cfold/Roundtrip.antt =====
-- A hashlet reads back as its id.
use quickjab.Prelude.{
  ap₂, ◌++◌, ℕ, zero, suc, ◌+◌, ◌*◌, ◌/◌, ◌%◌, ◌^◌, ◌<◌, ◌≡◌, refl, ap, ◌∙◌, List, [], ◌∷◌, some,
  arith, length,
}
use quickjab.Cfold.{take_digit, digit_of, hex_digit, read_hex, hi64, write_hex, hashlet}

digit_of-hex_digit : (d : ℕ) → d < 16 → digit_of (hex_digit d) ≡ some d
unfolding digit_of
digit_of-hex_digit d h = ground arith

-- What the reader made of the characters read so far, once k digits of h follow.
abbrev shifted : ℕ → ℕ → ℕ → ℕ
shifted zero a h = a + h
shifted (suc k) a h = shifted k a (h / 16) * 16 + h % 16

read_one :
    (m v d : ℕ) (cs : List ℕ)
    → v * 16 + d < 2 ^ 64
    → d < 16
    → read_hex (suc m) v (hex_digit d ∷ cs) ≡ read_hex m (v * 16 + d) cs
unfolding read_hex
read_one m v d cs small fits =
    ap (take_digit (λ n. read_hex m n cs) v) (digit_of-hex_digit d fits)
    ∙ ap (λ n. read_hex m n cs) (omega arith)

read_hex-write_hex :
    (k m a h : ℕ) (cs : List ℕ)
    → shifted k a h < 2 ^ 64
    → h < 16 ^ k
    → read_hex (k + m) a (write_hex k h cs) ≡ read_hex m (shifted k a h) cs
unfolding read_hex write_hex
read_hex-write_hex zero m a h cs small fits =
    ap₂ (λ n v. read_hex n v cs) {x = 0 + m} {y = m} {u = a} {v = a + h} (omega arith) (omega arith)
read_hex-write_hex (suc k) m a h cs small fits =
    ap (λ n. read_hex n a (write_hex (suc k) h cs)) (omega arith)
    ∙ read_hex-write_hex k (suc m) a (h / 16) (hex_digit (h % 16) ∷ cs) (omega arith) (omega arith)
    ∙ read_one m (shifted k a (h / 16)) (h % 16) cs (omega arith) (omega arith)

shifted_zero : (k h : ℕ) → shifted k 0 h ≡ h
shifted_zero zero h = omega arith
shifted_zero (suc k) h = omega (arith, shifted_zero k (h / 16))

length-write_hex : (k h : ℕ) (cs : List ℕ) → length (write_hex k h cs) ≡ k + length cs
unfolding write_hex
length-write_hex zero h cs = omega arith
length-write_hex (suc k) h cs = length-write_hex k (h / 16) (hex_digit (h % 16) ∷ cs) ∙ omega arith

append-write_hex :
    (k h : ℕ) (cs more : List ℕ) → write_hex k h cs ++ more ≡ write_hex k h (cs ++ more)
unfolding write_hex
append-write_hex zero h cs more = refl
append-write_hex (suc k) h cs more = append-write_hex k (h / 16) (hex_digit (h % 16) ∷ cs) more

-- Every id of 64 bits is written as 16 characters, which read back as the id, whatever follows
-- them.
pub hi64-hashlet :
    (h : ℕ) (more : List ℕ)
    → h < 2 ^ 64
    → (hi64 (hashlet h ++ more) ≡ h) × (length (hashlet h) ≡ 16)
unfolding hi64 hashlet
hi64-hashlet h more small = (
  ap (read_hex 16 0) (append-write_hex 16 h [] more)
      ∙ read_hex-write_hex 16 0 0 h more (omega (arith, shifted_zero 16 h)) small
      ∙ shifted_zero 16 h,
  length-write_hex 16 h [],
)
