-- ===== src/Tests/LogRuns.antt =====
-- Runs of the log, with a row codec that writes a row as its time, its verb and its text with a count.
use quickjab.Prelude.{
  false, ℕ, ◌+◌, ◌≡◌, refl, ap, ◌∙◌, List, [], ◌∷◌, ◌++◌, map, Option, none, some, arith, leb,
  if◌then◌else◌, ◌&&◌, length, take, replicate, take-append_length,
}
use quickjab.Int.{pos}
use quickjab.Outcome.{ok}
use quickjab.Bytes.{slice, overwrite}
use quickjab.Ulog.{Row, UlogLib, Log, Key, by_verb, by_uri, scan, rewind, minus_one}
use quickjab.Ulog.Rows.{IsUlogLib, IsRows, no_more, then_row, IsLog}
use quickjab.Ulog.Runs.{visit, feed_all, IsRising}
use quickjab.Ulog.Scan.{IsFirst, scan-IsFirst}
use quickjab.Ulog.Fed.{feed_all_visited}
use quickjab.Tests.Plain.{plain, plain-IsLawful}

abbrev encode : Row → List ℕ
encode r = r.ts ∷ (r.row_verb ∷ (length r.uri ∷ r.uri))

abbrev drain : List ℕ → Option Row × ℕ
drain (t ∷ v ∷ n ∷ rest) =
    (some (record { ts = t; row_verb = v; uri = take n rest }), 3 + length (take n rest))
drain _ = (none, 0)

abbrev counted : UlogLib
counted = record {
  drain = drain;
  append = λ b r.
      if leb (b.idle_at + length (encode r)) (length b.mem)
      then some (record b {
        mem = overwrite b.mem b.idle_at (encode r);
        idle_at = b.idle_at + length (encode r);
      })
      else none;
  sub = λ s a b. if leb a b && leb b (length s) then some (slice s a b) else none;
  verb_of = length;
  canon = λ u. some u;
  now = 50;
}

counted-IsUlogLib : IsUlogLib encode counted
counted-IsUlogLib = record {
  encode_some = λ r. omega arith;
  drain_row = λ r rest.
      ap (λ x. (some (record r { uri = x }), 3 + length x)) (take-append_length r.uri rest)
      ∙ ap (λ (k : ℕ). (some r, k)) (omega arith);
  append_fits = λ b r h. ground (arith, h);
  append_full = λ b r h. ground (arith, h);
  sub_fits = λ s a b h k. ground (arith, h, k);
}

abbrev entries : List (List ℕ × List ℕ × Option ℕ)
entries = (1 ∷ [], 97 ∷ [], some 20) ∷ ((1 ∷ 2 ∷ [], 98 ∷ 99 ∷ [], some 20) ∷ [])

abbrev empty_log : Log
empty_log = record {
  mem = replicate 16 0;
  watermark = 0;
  read = 0;
  rec = minus_one;
  last_ts = none;
}

abbrev full_log : Log
full_log = record empty_log {
  mem = (20 ∷ 1 ∷ 1 ∷ 97 ∷ 21 ∷ 2 ∷ 2 ∷ 98 ∷ 99 ∷ []) ++ replicate 7 0;
  watermark = 9;
  last_ts = some 21;
}

fed : feed_all plain counted 1024 entries empty_log ≡ (ok (0 ∷ 4 ∷ []), full_log)
unfolding feed_all quickjab.Ulog.feed
fed = refl

feed_all_visited_example :
    (visit plain counted 3 (rewind full_log) ≡ some (pos 0 ∷ pos 4 ∷ []))
    × ((rows : List (ℕ × Row)) × IsLog encode full_log rows
        × (map (λ (x : ℕ × Row). x.0) rows ≡ 0 ∷ 4 ∷ [])
        × IsRising none rows)
feed_all_visited_example =
    feed_all_visited plain-IsLawful counted-IsUlogLib 1024 entries (replicate 16 0) full_log
      (0 ∷ 4 ∷ []) (omega arith) fed (omega arith)

abbrev row_a : Row
row_a = record { ts = 20; row_verb = 1; uri = 97 ∷ [] }

abbrev row_b : Row
row_b = record { ts = 21; row_verb = 2; uri = 98 ∷ 99 ∷ [] }

full_log-IsRows : IsRows encode full_log.mem 9 0 ((0, row_a) ∷ ((4, row_b) ∷ []))
full_log-IsRows = then_row 0 row_a (omega arith) refl (then_row 4 row_b (omega arith) refl no_more)

scan-IsFirst_example :
    IsFirst
      (by_verb 2)
      ((0, row_a) ∷ ((4, row_b) ∷ []))
      (scan plain counted full_log.mem 0 9 false (by_verb 2))
scan-IsFirst_example =
    scan-IsFirst plain counted-IsUlogLib full_log.mem 9 (by_verb 2) 0
      ((0, row_a) ∷ ((4, row_b) ∷ [])) (omega arith) full_log-IsRows
      (omega arith, (omega arith, tt))

scans_to_b : scan plain counted full_log.mem 0 9 false (by_uri (98 ∷ [])) ≡ some 4
unfolding scan
scans_to_b = refl
