-- ===== src/Ulog/Runs.antt =====
-- Loops over a log: all its rows visited by `next`, and feed after feed.
use quickjab.Prelude.{
  ℕ, zero, suc, ◌<◌, ◌%◌, ◌^◌, ◌≡◌, Bool, true, false, List, [], ◌∷◌, Option, none, some,
}
use quickjab.Int.{ℤ}
use quickjab.Outcome.{Outcome, ok, err}
use quickjab.Abc.{Abc}
use quickjab.Ulog.{Row, UlogLib, Log, feed, next}

-- The times of the rows are the low 64 bits of numbers that rise strictly, the first above one that
-- may be given.
abbrev pub IsRising : Option ℕ → List (ℕ × Row) → Type 0
IsRising _ [] = Unit
IsRising none ((o, r) ∷ rows) = (t : ℕ) × (r.ts ≡ t % 2 ^ 64) × IsRising (some t) rows
IsRising (some last) ((o, r) ∷ rows) =
    (t : ℕ) × (r.ts ≡ t % 2 ^ 64) × (last < t) × IsRising (some t) rows

module _ (abc : Abc) (lib : UlogLib) where
  -- The offsets that `while (log.next()) visit(log.offset)` visits, `none` where it throws or does not
  -- end within this many calls of next.
  abbrev pub prepended : ℤ → Option (List ℤ) → Option (List ℤ)
  prepended z none = none
  prepended z (some zs) = some (z ∷ zs)

  abbrev pub visited : Outcome Bool × Log → (Log → Option (List ℤ)) → Option (List ℤ)
  visited (err e, l) k = none
  visited (ok false, l) k = some []
  visited (ok true, l) k = prepended l.rec (k l)

  unfoldable pub visit : ℕ → Log → Option (List ℤ)
  visit zero l = none
  visit (suc fuel) l = visited (next abc lib l) (visit fuel)

  -- Feed after feed; one that throws ends it.
  abbrev pub with_offset : ℕ → Outcome (List ℕ) × Log → Outcome (List ℕ) × Log
  with_offset o (err e, l) = (err e, l)
  with_offset o (ok os, l) = (ok (o ∷ os), l)

  abbrev pub fed_then : Outcome ℕ × Log → (Log → Outcome (List ℕ) × Log) → Outcome (List ℕ) × Log
  fed_then (err e, l) k = (err e, l)
  fed_then (ok o, l) k = with_offset o (k l)

  unfoldable pub feed_all : ℕ → List (List ℕ × List ℕ × Option ℕ) → Log → Outcome (List ℕ) × Log
  feed_all path_max [] l = (ok [], l)
  feed_all path_max ((verb, uri, ts) ∷ es) l =
      fed_then (feed abc lib path_max verb uri ts l) (feed_all path_max es)
