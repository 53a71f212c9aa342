-- ===== src/Arg.antt =====
-- The argument boundary of arg.c: the gates that turn a JS value into a C number, and those that
-- place the DATA and IDLE boundaries of an abc buffer. The u8b calls are a parameter (Abc).
pub mod RunList
pub mod PathText
pub mod Numbers
pub mod Buffers
use quickjab.Prelude.{
  ℕ, zero, suc, ◌+◌, ◌-◌, ◌^◌, Bool, true, false, not, ◌&&◌, ◌||◌, List, [], Option, none, some,
  String, ltb, leb, ◌==◌, if◌then◌else◌, length,
}
use quickjab.Int.{ℤ, pos, negsuc}
use quickjab.Outcome.{Outcome, ok, err, ◌>>=◌}
use quickjab.Bytes.{slice}
use quickjab.Abc.{Abc, U8b}

-- A double as the gates tell doubles apart: `whole z` is the integer z, `between z` lies strictly
-- between z and z + 1. Both zeros are `whole (pos 0)`.
pub data Double : Type 0 where
  nan : Double
  infinity : Double
  minus_infinity : Double
  whole : ℤ → Double
  between : ℤ → Double

-- A JS value as the gates tell them apart: an object, whose conversion would run JS code; a
-- primitive that the engine converts to a double; one whose conversion throws the text given.
pub data Value : Type 0 where
  object : Value
  number : Double → Value
  unconvertible : String → Value

abbrev pub max_safe : ℕ
max_safe = 9007199254740991

-- `d >= 0`
abbrev pub at_least_zero : Double → Bool
at_least_zero infinity = true
at_least_zero (whole (pos n)) = true
at_least_zero (between (pos n)) = true
at_least_zero _ = false

-- `d > m` for a whole m that is not negative
abbrev pub above : ℕ → Double → Bool
above m infinity = true
above m (whole (pos n)) = ltb m n
above m (between (pos n)) = leb m n
above m _ = false

-- `d < -m`
abbrev pub below_minus : ℕ → Double → Bool
below_minus m minus_infinity = true
below_minus m (whole (negsuc n)) = ltb m (suc n)
below_minus m (between (negsuc n)) = leb m n
below_minus m _ = false

-- `d == (double)(u64)d`, and so for i64: the cast cuts a fraction off.
abbrev pub is_whole : Double → Bool
is_whole (whole z) = true
is_whole _ = false

-- `(u64)d` where the tests before it hold.
abbrev pub to_u64 : Double → ℕ
to_u64 (whole (pos n)) = n
to_u64 (between (pos n)) = n
to_u64 _ = 0

abbrev pub to_i64 : Double → ℤ
to_i64 (whole z) = z
to_i64 (between (pos n)) = pos n
to_i64 (between (negsuc zero)) = pos 0
to_i64 (between (negsuc (suc n))) = negsuc n
to_i64 _ = pos 0

-- JABCScalar, then JS_ToFloat64.
unfoldable pub scalar : Value → Outcome Double
scalar object = err "expected a number, not an object"
scalar (unconvertible e) = err e
scalar (number d) = ok d

unfoldable pub u64_of : Value → Outcome ℕ
unfolding scalar
u64_of v = scalar v >>= λ d.
    if not (at_least_zero d) || (above max_safe d || not (is_whole d))
    then err "expected a whole non-negative number"
    else ok (to_u64 d)

-- `d >= -max && d <= max`, false of NaN.
abbrev pub within_safe : Double → Bool
within_safe nan = false
within_safe d = not (below_minus max_safe d) && not (above max_safe d)

unfoldable pub i64_of : Value → Outcome ℤ
unfolding scalar
i64_of v = scalar v >>= λ d.
    if not (within_safe d) || not (is_whole d) then err "expected a whole number" else ok (to_i64 d)

-- JABCu32Of, JABCFdOf and JABCu8Of: the gate above with a lower limit and its own message.
abbrev pub limited : ℕ → String → Value → Outcome ℕ
limited limit message v = u64_of v >>= λ n. if ltb limit n then err message else ok n

unfoldable pub u32_of : Value → Outcome ℕ
unfolding u64_of
u32_of = limited 0xffffffff "number does not fit 32 bits"

unfoldable pub fd_of : Value → Outcome ℕ
unfolding u64_of
fd_of = limited 0x7fffffff "expected a file descriptor"

unfoldable pub u8_of : Value → Outcome ℕ
unfolding u64_of
u8_of = limited 0xff "number does not fit a byte"

-- An argument where a typed array is wanted: something else, or a view on `n` bytes at `off` of a
-- buffer, which is detached (`none`) or lies at an address with its bytes.
pub data Array : Type 0 where
  not_array : Array
  view_on : Option (ℕ × List ℕ) → ℕ → ℕ → Array

-- What JABCViewOf hands out: where the view begins, and its bytes.
pub record View : Type 0 where
  pub base : ℕ
  pub mem : List ℕ

unfoldable pub view_of : Array → Outcome View
view_of not_array = err "expected a typed array"
view_of (view_on none off n) =
    if n == 0 then ok (record { base = off; mem = [] }) else err "detached buffer"
view_of (view_on (some (address, store)) off n) =
    ok (record { base = address + off; mem = slice store off (off + n) })

unfoldable pub view_same : Array → ℕ → ℕ → Outcome (Unit {0})
unfolding view_of
view_same arg base len = view_of arg >>= λ now.
    if not (now.base == base) || not (length now.mem == len)
    then err "the buffer moved while the call was running"
    else ok tt

-- `u8csLen(u8bDataC(buf))` and `u8csLen(u8bIdleC(buf))`
abbrev pub data_length : U8b → ℕ
data_length b = b.idle_at - b.data_at

abbrev pub idle_length : U8b → ℕ
idle_length b = length b.mem - b.idle_at

-- A JS-given position inside a slice of `len` bytes.
unfoldable pub off_of : ℕ → Value → Outcome ℕ
unfolding u64_of
off_of len v =
    u64_of v >>= λ n. if ltb len n then err "offset is past the end of the buffer" else ok n

-- A JS Buf argument: not an object, or its three properties.
pub data BufArg : Type 0 where
  not_object : BufArg
  buf_arg : Value → Value → Array → BufArg

module _ (abc : Abc) where
  abbrev pub checked : U8b → Outcome U8b
  checked b = if abc.sane b then ok b else err "bad buffer bounds"

  -- The whole view is DATA.
  unfoldable pub data_of : Array → Outcome U8b
  unfolding view_of
  data_of arg =
      view_of arg >>= λ w. checked (record { mem = w.mem; data_at = 0; idle_at = length w.mem })

  -- The whole view is IDLE.
  unfoldable pub idle_of : Array → Outcome U8b
  unfolding view_of
  idle_of arg = view_of arg >>= λ w. checked (record { mem = w.mem; data_at = 0; idle_at = 0 })

  abbrev pub placed : Option U8b → Outcome U8b
  placed none = err "offset is past the end of the buffer"
  placed (some b) = ok b

  unfoldable pub buf_at : U8b → Value → Outcome U8b
  unfolding off_of
  buf_at b v = off_of (data_length b) v >>= λ off. placed (abc.used b off)

  unfoldable pub buf_fed_at : U8b → ℕ → Outcome U8b
  buf_fed_at b off =
      if ltb (idle_length b) off
      then err "offset is past the end of the buffer"
      else placed (abc.fed b off)

  unfoldable pub buf_fed : U8b → Value → Outcome U8b
  unfolding u64_of buf_fed_at
  buf_fed b v = u64_of v >>= λ off. buf_fed_at b off

  -- `u8bFed(buf, idle) != OK || u8bUsed(buf, data) != OK`: the second call sees the first's buffer.
  abbrev pub place_cursors : U8b → ℕ → ℕ → Option U8b
  place_cursors b data_pos idle_pos = elim (abc.fed b idle_pos) [
    | none ↦ none
    | some fed ↦ abc.used fed data_pos
  ]

  abbrev pub cursors : U8b → ℕ → ℕ → Outcome U8b
  cursors b data_pos idle_pos =
      if ltb idle_pos data_pos
      then err "the buffer's cursor is out of range"
      else (elim (place_cursors b data_pos idle_pos) [
        | none ↦ err "the buffer's cursor is out of range"
        | some c ↦ ok c
      ])

  unfoldable pub buf_of : BufArg → Outcome U8b
  unfolding u64_of idle_of
  buf_of not_object = err "expected a Buf"
  buf_of (buf_arg data_value idle_value bytes) =
      u64_of data_value >>= λ d. u64_of idle_value >>= λ i. idle_of bytes >>= λ b. cursors b d i

-- The cursors handed back to the JS object.
unfoldable pub buf_back : U8b → Array → BufArg
buf_back b bytes = buf_arg (number (whole (pos b.data_at))) (number (whole (pos b.idle_at))) bytes
