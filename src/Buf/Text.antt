-- ===== src/Buf/Text.antt =====
-- `feedStr` over the encodeInto of utf8.c.
use quickjab.Prelude.{ℕ, ◌+◌, ◌≤◌, ◌≡◌, List, ◌++◌, arith, length}
use quickjab.Outcome.{ok}
use quickjab.Bytes.{overwrite}
use quickjab.Bytes.Laws.{length-slice, length-overwrite, overwrite-slice, slice-overwrite_extend}
use quickjab.Abc.{Abc, IsLawful}
use quickjab.Utf8.{encode_into}
use quickjab.Utf8.Fit.{concat, fitting, fitting-le, AreChars, encode_into-fitting}
use quickjab.Buf.{Buf, feed_str, data_view, idle_view, room}
use quickjab.Buf.Inv.{IsBuf}

module _ {abc : Abc} (lawful : IsLawful abc) {b : Buf} (v : IsBuf b) where
  -- The Buf after `text` was fed.
  fed_text : List ℕ → Buf
  fed_text text = record b {
    bytes = overwrite b.bytes b.idle_at text;
    idle_at = b.idle_at + length text;
  }

  fed_text_lem :
      (text : List ℕ)
      → length text ≤ room b
      → (data_view (fed_text text) ≡ data_view b ++ text) × IsBuf (fed_text text)
  unfolding fed_text
  fed_text_lem text h = ground (
    arith,
    slice-overwrite_extend b.bytes b.data_at b.idle_at text,
    length-overwrite b.bytes b.idle_at text,
  )

  -- With a u8bFeed that behaves as documented, feeding a string of whole characters to a well-formed
  -- Buf appends the longest run of its characters that fits the room, whole
  -- characters only; it never throws, and the boundaries stay in order.
  pub feed_str-fitting :
      (cs : List (List ℕ))
      → AreChars cs
      → let text = concat (fitting (room b) cs) in
        (c : Buf) × (feed_str (encode_into abc) (concat cs) b ≡ ok (length text, c))
        × (data_view c ≡ data_view b ++ text)
        × IsBuf c
  unfolding feed_str fed_text
  feed_str-fitting cs h =
      let text = concat (fitting (room b) cs) in
      let fits : length text ≤ room b = fitting-le (room b) cs in
      let idle : length (idle_view b) ≡ room b =
        length-slice b.bytes b.idle_at b.cap (omega arith) in
      let written = overwrite (idle_view b) 0 text in
      (
        fed_text text,
        rw (encode_into-fitting lawful cs (idle_view b) h, idle)
            (ground (
              arith,
              length-overwrite (idle_view b) 0 text,
              overwrite-slice b.bytes b.idle_at b.cap text,
            )),
        (fed_text_lem text fits).0,
        (fed_text_lem text fits).1,
      )
