-- ===== src/Utf8.antt =====
-- utf8.encodeInto of utf8.c. A string is given by its UTF-8 bytes, as the engine hands it over;
-- the typed array by its bytes. u8bFeed of the abc library is a parameter.
pub mod Fit
use Prim.Native.Nat.{bit_and}
use quickjab.Prelude.{
  ℕ, zero, suc, Bool, ◌&&◌, List, none, some, ltb, ◌==◌, if◌then◌else◌, length, get_or, take,
}
use quickjab.Outcome.{Outcome, ok, err}
use quickjab.Abc.{Abc}

-- `(c & 0xC0) == 0x80`
unfoldable pub is_continuation : ℕ → Bool
is_continuation c = bit_and c 0xC0 == 0x80

-- `while (n > 0 && n < len && (s[n] & 0xC0) == 0x80) n--;`
unfoldable pub back_off : List ℕ → ℕ → ℕ
back_off s zero = zero
back_off s (suc n) =
    let rest = back_off s n in
    if ltb (suc n) (length s) && is_continuation (get_or s (suc n) 0) then rest else suc n

-- The number of bytes that are copied into `cap` bytes.
unfoldable pub cut_at : List ℕ → ℕ → ℕ
cut_at s cap = back_off s (if ltb (length s) cap then length s else cap)

unfoldable pub encode_into : Abc → List ℕ → List ℕ → Outcome (ℕ × List ℕ)
encode_into abc s dst =
    let n = cut_at s (length dst) in
    elim (abc.feed (record { mem = dst; data_at = 0; idle_at = 0 }) (take n s)) [
      | none ↦ err "utf8.encodeInto(): the target buffer is too small"
      | some b ↦ ok (n, b.mem)
    ]
