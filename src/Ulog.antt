-- ===== src/Ulog.antt =====
-- The ULOG, an append-only log of rows in a byte array: the leaves `_ulog_feed`, `_ulog_next` and the
-- scan of `_ulog_seek*` of ulog.c, and the verbs that cont.c puts on the container. The row codec of
-- the dog library, and its RON and URI functions, are a parameter (UlogLib).
pub mod Rows
pub mod Scan
pub mod Runs
pub mod Cursor
pub mod Fed
use quickjab.Prelude.{
  ℕ, zero, suc, ◌+◌, ◌-◌, ◌%◌, ◌^◌, Bool, true, false, not, ◌&&◌, ◌||◌, List, [], ◌∷◌, Option, none,
  some, ltb, leb, ◌==◌, if◌then◌else◌, length, take, get_or,
}
use quickjab.Int.{ℤ, pos, negsuc}
use quickjab.Outcome.{Outcome, ok, err, ◌>>=◌}
use quickjab.Abc.{Abc, U8b}
use quickjab.Bytes.{slice}
use quickjab.Net.Timers.{to_int32}
use quickjab.Arg.{
  Value, number, whole, Array, view_on, u64_of, off_of, data_of, idle_of, buf_fed, data_length,
}

-- A row: its time and verb as numbers, and the text of its URI that URIMake builds.
pub record Row : Type 0 where
  pub ts : ℕ
  pub row_verb : ℕ
  pub uri : List ℕ

pub record UlogLib : Type 0 where
  -- ULOGu8sDrain: the row at the head of the bytes, where the code is OK, and how many it consumed.
  pub drain : List ℕ → Option Row × ℕ
  -- ULOGu8sFeed into the IDLE of a buffer, u8csSub of a slice; `none` is a code other than OK.
  pub append : U8b → Row → Option U8b
  pub sub : List ℕ → ℕ → ℕ → Option (List ℕ)
  -- RONutf8sDrain of a verb, URILexer with DOGCanonURI, RONNow.
  pub verb_of : List ℕ → ℕ
  pub canon : List ℕ → Option (List ℕ)
  pub now : ℕ

-- The URI text where it fits into `cap` bytes; URIMake fails on a longer one, and none is left.
abbrev pub uri_text : ℕ → Row → List ℕ
uri_text cap r = if ltb cap (length r.uri) then [] else r.uri

-- The walk of JABCulogPrevRow down from j.
unfoldable pub row_start : List ℕ → ℕ → ℕ
row_start base zero = 0
row_start base (suc j) =
    let rest = row_start base j in if get_or base j 0 == 10 then suc j else rest

-- JABCulogPrevRow; `none` is SIZE_MAX.
unfoldable pub prev_row : List ℕ → ℕ → Option ℕ
unfolding row_start
prev_row base off = if off == 0 then none else some (row_start base (off - 1))

-- `kind`, with what is sought.
pub data Key : Type 0 where
  by_verb : ℕ → Key
  by_time : ℕ → Key
  by_uri : List ℕ → Key

abbrev pub same_bytes : List ℕ → List ℕ → Bool
same_bytes [] [] = true
same_bytes (a ∷ x) (b ∷ y) = (a == b) && same_bytes x y
same_bytes _ _ = false

-- The tests of JABCulogScan on a row.
unfoldable pub is_hit : Bool → Key → Row → Bool
is_hit rev (by_verb v) r = r.row_verb == v
is_hit rev (by_time t) r = if rev then leb r.ts t else leb t r.ts
is_hit rev (by_uri p) r =
    leb (length p) (length (uri_text 2048 r)) && same_bytes (take (length p) (uri_text 2048 r)) p

abbrev pub hit_in : Bool → Key → Option Row → Bool
hit_in rev key none = false
hit_in rev key (some r) = is_hit rev key r

abbrev pub as_view : List ℕ → Array
as_view mem = view_on (some (0, mem)) 0 (length mem)

abbrev pub minus_one : ℤ
minus_one = negsuc 0

abbrev pub row_end : ℕ → Option Row × ℕ → ℤ
row_end off (none, n) = minus_one
row_end off (some r, n) = pos (off + n)

abbrev pub gated_row : ℕ → ℕ → Option (List ℕ) → Outcome Row
gated_row ts verb none = err "Error: ulog._feed: malformed uri"
gated_row ts verb (some u) = ok (record { ts = ts; row_verb = verb; uri = u })

abbrev pub appended : Option U8b → Outcome (ℕ × List ℕ)
appended none = err "Error: ulog: feed (full?)"
appended (some c) = ok (data_length c, c.mem)

-- The container: its bytes, `buffer.watermark`, `_read`, `_rec` and `_lastTs`.
pub record Log : Type 0 where
  pub mem : List ℕ
  pub watermark : ℕ
  pub read : ℕ
  pub rec : ℤ
  pub last_ts : Option ℕ

-- `this._lastTs != null && t <= this._lastTs ? this._lastTs + 1n : t`
unfoldable pub monotonic : Option ℕ → ℕ → ℕ
monotonic none t = t
monotonic (some last) t = if leb t last then last + 1 else t

abbrev pub written : ℕ → Log → Outcome (ℕ × List ℕ) → Outcome ℕ × Log
written t l (ok (n, mem)) =
    (ok l.watermark, record l { mem = mem; watermark = n; last_ts = some t })
written t l (err e) = (err e, record l { last_ts = some t })

-- `n | 0` as an argument
abbrev pub int_value : ℕ → Value
int_value n = number (whole (to_int32 n))

unfoldable pub rewind : Log → Log
rewind l = record l { read = 0; rec = minus_one }

abbrev pub moved_to : ℤ → Log → Outcome ℤ → Outcome Bool × Log
moved_to at l (err e) = (err e, l)
moved_to at l (ok (negsuc n)) = (ok false, l)
moved_to at l (ok (pos e)) = (ok true, record l { rec = at; read = e })

-- The argument of a seek, a string where it is text.
pub data Sought : Type 0 where
  verb_text : List ℕ → Sought
  time_value : Outcome ℕ → Sought
  uri_prefix : List ℕ → Sought

-- What the three seek leaves read: a verb is cut to 15 bytes and a prefix to 2047; a time passed
-- JABCBigU64Of.
unfoldable pub key_of : UlogLib → Sought → Outcome Key
key_of lib (verb_text s) = ok (by_verb (lib.verb_of (take 15 s)))
key_of lib (time_value o) = o >>= λ t. ok (by_time t)
key_of lib (uri_prefix s) = ok (by_uri (take 2047 s))

module _ (abc : Abc) (lib : UlogLib) where
  -- The forward loop of JABCulogScan from `cur`; `none` is SIZE_MAX. Each turn but the last moves on.
  unfoldable pub scan_forward : ℕ → List ℕ → ℕ → Key → ℕ → Option ℕ
  unfolding is_hit
  scan_forward zero base dl key cur = none
  scan_forward (suc fuel) base dl key cur =
      let drained = lib.drain (slice base cur dl) in
      let rest = scan_forward fuel base dl key (cur + drained.1) in
      if not (ltb cur dl)
      then none
      else if hit_in false key drained.0
      then some cur
      else if drained.1 == 0
      then none
      else rest

  -- The reverse loop of JABCulogScan from `cur`.
  unfoldable pub scan_reverse : ℕ → List ℕ → ℕ → Key → ℕ → Option ℕ
  unfolding is_hit row_start
  scan_reverse zero base dl key cur = none
  scan_reverse (suc fuel) base dl key cur =
      let rs = row_start base (cur - 1) in
      let rest = scan_reverse fuel base dl key rs in
      if cur == 0
      then none
      else if hit_in true key (lib.drain (slice base rs dl)).0
      then some rs
      else rest

  -- JABCulogScan
  unfoldable pub scan : List ℕ → ℕ → ℕ → Bool → Key → Option ℕ
  unfolding scan_forward scan_reverse
  scan base off dl rev key =
      if rev then scan_reverse off base dl key off else scan_forward dl base dl key off

  abbrev pub drained_at : ℕ → Option (List ℕ) → Outcome ℤ
  drained_at off none = err "Error: ulog: the row range is out of range"
  drained_at off (some bytes) = ok (row_end off (lib.drain bytes))

  abbrev pub row_range : U8b → ℕ → ℕ → Outcome ℤ
  row_range c off dl =
      if leb dl off
      then ok minus_one
      else if ltb 0xffffffff dl
      then err "Error: ulog: the row range is out of range"
      else drained_at off (lib.sub (slice c.mem c.data_at c.idle_at) off dl)

  -- JABCulogNext on the log's own bytes
  unfoldable pub next_leaf : List ℕ → Value → Value → Outcome ℤ
  unfolding data_of off_of
  next_leaf mem offv dlv = data_of abc (as_view mem) >>= λ c.
      off_of (data_length c) offv >>= λ off. off_of (data_length c) dlv >>= λ dl. row_range c off dl

  -- JABCulogFeed with a verb and a URI that are strings, and a time: the new write head, and the bytes.
  -- JABChunkArgU8 cuts a string to one byte less than its room, 16 for a verb and `path_max` for a URI.
  unfoldable pub feed_leaf : ℕ → List ℕ → Value → List ℕ → List ℕ → ℕ → Outcome (ℕ × List ℕ)
  unfolding idle_of buf_fed
  feed_leaf path_max mem off verb uri ts = idle_of abc (as_view mem) >>= λ b.
      buf_fed abc b off >>= λ c.
      gated_row ts (lib.verb_of (take 15 verb)) (lib.canon (take (path_max - 1) uri)) >>= λ r.
      appended (lib.append c r)

  abbrev pub asked_time : Option ℕ → ℕ
  asked_time none = lib.now
  asked_time (some t) = t

  -- `P.feed`, which returns the row's offset; JABCBigU64Of takes the low 64 bits of the time.
  unfoldable pub feed : ℕ → List ℕ → List ℕ → Option ℕ → Log → Outcome ℕ × Log
  unfolding feed_leaf monotonic
  feed path_max verb uri ts l =
      let t = monotonic l.last_ts (asked_time ts) in
      written t l
        (feed_leaf path_max l.mem (number (whole (pos l.watermark))) verb uri (t % 2 ^ 64))

  -- `P.next`
  unfoldable pub next : Log → Outcome Bool × Log
  unfolding next_leaf
  next l = moved_to (to_int32 l.read) l (next_leaf l.mem (int_value l.read) (int_value l.watermark))

  -- `P.seek` of a whole number
  unfoldable pub seek : ℕ → Log → Outcome Bool × Log
  unfolding next_leaf
  seek off l =
      moved_to (pos off) l (next_leaf l.mem (number (whole (pos off))) (int_value l.watermark))

  abbrev pub found_at : Log → Option ℕ → ℤ × Log
  found_at l none = (minus_one, l)
  found_at l (some o) = (pos o, (seek o l).1)

  -- `_ulog_seekVerb`, `_ulog_seekTime` and `_ulog_seekURI`, then `mkseek`: the offset or -1, and the
  -- cursor on a hit.
  unfoldable pub seek_row : ℕ → Bool → Sought → Log → Outcome (ℤ × Log)
  unfolding scan off_of data_of seek key_of
  seek_row off rev sought l = data_of abc (as_view l.mem) >>= λ c.
      off_of (data_length c) (number (whole (pos off))) >>= λ o.
      off_of (data_length c) (int_value l.watermark) >>= λ dl.
      key_of lib sought >>= λ key. ok (found_at l (scan c.mem o dl rev key))
