-- ===== src/Cfold.antt =====
-- The hashlets of cfold.c: a 64-bit id as 16 hexadecimal characters, and back.
pub mod Roundtrip
use quickjab.Prelude.{
  ℕ, zero, suc, ◌+◌, ◌-◌, ◌*◌, ◌/◌, ◌%◌, ◌^◌, Bool, ◌&&◌, List, [], ◌∷◌, Option, none, some, ltb,
  leb, if◌then◌else◌,
}

-- The value of a hexadecimal digit, or `none` for any other character.
unfoldable pub digit_of : ℕ → Option ℕ
digit_of c =
    if leb b'0' c && leb c b'9'
    then some (c - b'0')
    else if leb b'a' c && leb c b'f'
    then some (c - b'a' + 10)
    else if leb b'A' c && leb c b'F'
    then some (c - b'A' + 10)
    else none

-- `HX[d]`
abbrev pub hex_digit : ℕ → ℕ
hex_digit d = if ltb d 10 then b'0' + d else b'a' + (d - 10)

-- `(h << 4) | d` of a u64 and a digit.
abbrev pub shift_in : ℕ → ℕ → ℕ
shift_in h d = (h * 16) % 2 ^ 64 + d

-- One character of the loop of JABCcfoldHi64; `next` is the rest.
abbrev pub take_digit : (ℕ → ℕ) → ℕ → Option ℕ → ℕ
take_digit next h none = h
take_digit next h (some d) = next (shift_in h d)

-- The loop of JABCcfoldHi64: at most `left` more characters are read.
unfoldable pub read_hex : ℕ → ℕ → List ℕ → ℕ
read_hex zero h cs = h
read_hex (suc left) h [] = h
read_hex (suc left) h (c ∷ cs) = take_digit (λ v. read_hex left v cs) h (digit_of c)

-- JABCcfoldHi64 of a string.
unfoldable pub hi64 : List ℕ → ℕ
unfolding read_hex
hi64 s = read_hex 16 0 s

-- The loop of JABCcfoldHashlet, from the last character to the first.
unfoldable pub write_hex : ℕ → ℕ → List ℕ → List ℕ
write_hex zero h cs = cs
write_hex (suc left) h cs = write_hex left (h / 16) (hex_digit (h % 16) ∷ cs)

unfoldable pub hashlet : ℕ → List ℕ
unfolding write_hex
hashlet h = write_hex 16 h []
