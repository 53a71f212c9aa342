-- ===== src/Buf.antt =====
-- The Buf cursor class of buf.c: a Uint8Array with the boundaries PAST | DATA | IDLE.
-- A method returns what it gives back and the new object, or throws before it changes anything.
-- Counts given by the caller are whole numbers (ℤ).
pub mod Inv
pub mod Queue
pub mod Ops
pub mod Refine
pub mod Splice
pub mod Text
pub mod Io
use quickjab.Prelude.{
  ℕ, ◌+◌, ◌-◌, ◌%◌, ◌^◌, Bool, true, false, ◌||◌, List, Option, none, some, ltb, leb, ◌==◌,
  if◌then◌else◌, length, get_elem?, set, replicate,
}
use quickjab.Int.{ℤ, pos, negsuc}
use quickjab.Outcome.{Outcome, ok, err, ◌>>=◌}
use quickjab.Bytes.{slice, set_at, copy_within}

pub record Buf : Type 0 where
  pub bytes : List ℕ
  pub data_at : ℕ
  pub idle_at : ℕ
  pub cap : ℕ

-- `x | 0` of a length; `none` where the result is negative (lengths of 2 GiB and more).
abbrev pub int32 : ℕ → Option ℕ
int32 n = if ltb (n % 2 ^ 32) (2 ^ 31) then some (n % 2 ^ 32) else none

-- The constructor, called by `over` and `into` with both cursors given.
abbrev pub new_buf : List ℕ → ℕ → ℕ → Option Buf
new_buf bytes d i = elim (int32 d) [
  | none ↦ none
  | some d' ↦ elim (int32 i) [
    | none ↦ none
    | some i' ↦ some (record { bytes = bytes; data_at = d'; idle_at = i'; cap = length bytes })
  ]
]

unfoldable pub over : List ℕ → Option Buf
over u8 = new_buf u8 0 (length u8)

unfoldable pub into : List ℕ → Option Buf
into u8 = new_buf u8 0 0

abbrev pub size : Buf → ℕ
size b = b.idle_at - b.data_at

abbrev pub room : Buf → ℕ
room b = b.cap - b.idle_at

abbrev pub is_empty : Buf → Bool
is_empty b = b.idle_at == b.data_at

abbrev pub data_view : Buf → List ℕ
data_view b = slice b.bytes b.data_at b.idle_at

abbrev pub idle_view : Buf → List ℕ
idle_view b = slice b.bytes b.idle_at b.cap

abbrev pub past_view : Buf → List ℕ
past_view b = slice b.bytes 0 b.data_at

-- `n < 0 || n > limit`
abbrev pub outside : ℤ → ℕ → Bool
outside (pos n) limit = ltb limit n
outside (negsuc n) limit = true

abbrev pub is_negative : ℤ → Bool
is_negative (pos n) = false
is_negative (negsuc n) = true

abbrev pub count_of : ℤ → ℕ
count_of (pos n) = n
count_of (negsuc n) = 0

unfoldable pub feed : List ℕ → Buf → Outcome (ℕ × Buf)
feed s b =
    if ltb (room b) (length s)
    then err "NOROOM"
    else (set_at b.bytes b.idle_at s >>= λ bytes.
        ok (length s, record b { bytes = bytes; idle_at = b.idle_at + length s }))

unfoldable pub feed1 : ℕ → Buf → Outcome (ℕ × Buf)
feed1 x b =
    if ltb (room b) 1
    then err "NOROOM"
    else ok (1, record b { bytes = set b.bytes b.idle_at (x % 256); idle_at = b.idle_at + 1 })

-- `g.utf8.encodeInto` is given: from a string and a view, the count and the view's new bytes.
unfoldable pub feed_str :
    (List ℕ → List ℕ → Outcome (ℕ × List ℕ)) → List ℕ → Buf → Outcome (ℕ × Buf)
feed_str encode_into str b = encode_into str (idle_view b) >>= λ r.
    set_at b.bytes b.idle_at r.1 >>= λ bytes.
    ok (r.0, record b { bytes = bytes; idle_at = b.idle_at + r.0 })

unfoldable pub fed : ℤ → Buf → Outcome Buf
fed n b =
    if outside n (room b) then err "BADARG" else ok (record b { idle_at = b.idle_at + count_of n })

unfoldable pub take_front : ℤ → Buf → Outcome (List ℕ × Buf)
take_front n b =
    if outside n (size b)
    then err "BADARG"
    else ok (
      slice b.bytes b.data_at (b.data_at + count_of n),
      record b { data_at = b.data_at + count_of n },
    )

unfoldable pub skip : ℤ → Buf → Outcome Buf
skip n b =
    if outside n (size b) then err "BADARG" else ok (record b { data_at = b.data_at + count_of n })

unfoldable pub shed : ℤ → Buf → Outcome Buf
shed n b =
    if outside n (size b) then err "BADARG" else ok (record b { idle_at = b.idle_at - count_of n })

-- `none` is an `undefined` read past the array.
unfoldable pub pop : Buf → Outcome (Option ℕ × Buf)
pop b =
    if is_empty b
    then err "NODATA"
    else ok (get_elem? b.bytes (b.idle_at - 1), record b { idle_at = b.idle_at - 1 })

unfoldable pub reset : Buf → Buf
reset b = record b { data_at = 0; idle_at = 0 }

unfoldable pub shift : Buf → Buf
shift b = if b.data_at == 0 then b else record b {
  bytes = copy_within b.bytes 0 b.data_at b.idle_at;
  idle_at = b.idle_at - b.data_at;
  data_at = 0;
}

-- The two writes of `splice`; `_idle += delta` adds before it subtracts.
unfoldable pub splice_at : ℕ → ℕ → List ℕ → Buf → Outcome Buf
splice_at o c p b =
    set_at (copy_within b.bytes (b.data_at + o + length p) (b.data_at + o + c) b.idle_at)
      (b.data_at + o) p
    >>= λ bytes. ok (record b { bytes = bytes; idle_at = b.idle_at + length p - c })

-- `delta > room` is `p.length > room + cut`.
unfoldable pub splice : ℤ → ℤ → List ℕ → Buf → Outcome Buf
splice off cut p b =
    if is_negative off || is_negative cut || ltb (size b) (count_of off + count_of cut)
    then err "BADARG"
    else if ltb (room b + count_of cut) (length p)
    then err "NOROOM"
    else splice_at (count_of off) (count_of cut) p b

-- An array of zeros replaces the bytes; the hook for mapped memory is absent.
unfoldable pub grow : ℕ → Buf → Outcome Buf
grow n b =
    if leb n b.cap
    then ok b
    else (set_at (replicate n 0) 0 (slice b.bytes 0 b.idle_at) >>= λ bytes.
        ok (record b { bytes = bytes; cap = n }))
