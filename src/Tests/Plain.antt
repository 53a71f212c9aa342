-- ===== src/Tests/Plain.antt =====
-- A concrete u8b library, which shows that what the bindings rely on can hold.
use quickjab.Prelude.{◌+◌, none, some, ltb, leb, ◌&&◌, if◌then◌else◌, length, arith}
use quickjab.Bytes.{overwrite}
use quickjab.Abc.{Abc, IsLawful}

abbrev pub plain : Abc
plain = record {
  feed = λ b s.
      if ltb (length b.mem) (b.idle_at + length s)
      then none
      else some (record b { mem = overwrite b.mem b.idle_at s; idle_at = b.idle_at + length s });
  fed = λ b n.
      if ltb (length b.mem) (b.idle_at + n)
      then none
      else some (record b { idle_at = b.idle_at + n });
  used = λ b n.
      if ltb b.idle_at (b.data_at + n) then none else some (record b { data_at = b.data_at + n });
  sane = λ b. leb b.data_at b.idle_at && leb b.idle_at (length b.mem);
}

pub plain-IsLawful : IsLawful plain
plain-IsLawful = record {
  feed_fits = λ b s h. ground arith;
  feed_full = λ b s h. ground arith;
  fed_fits = λ b n h. ground arith;
  fed_past = λ b n h. ground arith;
  used_fits = λ b n h. ground arith;
  used_past = λ b n h. ground arith;
  sane_layout = λ b h k. ground arith;
}
