-- ===== src/Tests/BufRuns.antt =====
-- Runs of the Buf class and of encodeInto.
use quickjab.Prelude.{ℕ, ◌≡◌, refl, List, [], ◌∷◌, ◌++◌, arith, length}
use quickjab.Int.{pos}
use quickjab.Outcome.{ok}
use quickjab.Utf8.{encode_into}
use quickjab.Utf8.Fit.{AreChars, concat, fitting, encode_into-fitting}
use quickjab.Buf.{Buf, feed_str, data_view, room}
use quickjab.Buf.Inv.{IsBuf}
use quickjab.Buf.Ops.{Op, call, run, run_queue, call-IsBuf, run_refines}
use quickjab.Buf.Refine.{view}
use quickjab.Buf.Io.{Job, wrote, write_again, write_failed, write_all}
use quickjab.Buf.Io.Whole.{Moves, write_all-Moves}
use quickjab.Buf.Text.{feed_str-fitting}
use quickjab.Tests.Plain.{plain, plain-IsLawful}

-- One byte consumed, two live, three free.
abbrev sample : Buf
sample = record { bytes = 7 ∷ 8 ∷ 9 ∷ 0 ∷ 0 ∷ 0 ∷ []; data_at = 1; idle_at = 3; cap = 6 }

sample-IsBuf : IsBuf sample
sample-IsBuf = record { ordered = omega arith; within = omega arith; sized = refl }

-- `a`, then e with an acute accent, then the euro sign.
abbrev chars : List (List ℕ)
chars = (97 ∷ []) ∷ (195 ∷ 169 ∷ []) ∷ (226 ∷ 130 ∷ 172 ∷ []) ∷ []

chars-AreChars : AreChars chars
unfolding quickjab.Utf8.is_continuation
chars-AreChars = ((refl, tt), ((refl, (refl, tt)), ((refl, (refl, (refl, tt))), tt)))

abbrev ops : List Op
ops =
    Op.feed (1 ∷ 2 ∷ [])
    ∷ Op.splice (pos 1) (pos 1) (5 ∷ 6 ∷ [])
    ∷ Op.take_front (pos 2)
    ∷ Op.shift
    ∷ Op.skip (pos 9)
    ∷ Op.pop
    ∷ Op.grow 9
    ∷ []

run_refines_example : run ops sample ≡ run_queue ops (view sample)
run_refines_example = run_refines ops sample-IsBuf

call-IsBuf_example : IsBuf (call (Op.splice (pos 1) (pos 1) (5 ∷ 6 ∷ [])) sample).1
call-IsBuf_example = call-IsBuf (Op.splice (pos 1) (pos 1) (5 ∷ 6 ∷ [])) sample-IsBuf

encode_into-fitting_example :
    encode_into plain (concat chars) (0 ∷ 0 ∷ 0 ∷ 0 ∷ []) ≡ ok (3, 97 ∷ 195 ∷ 169 ∷ 0 ∷ [])
unfolding fitting
encode_into-fitting_example =
    encode_into-fitting plain-IsLawful chars (0 ∷ 0 ∷ 0 ∷ 0 ∷ []) chars-AreChars

feed_str-fitting_example :
    (c : Buf) × (feed_str (encode_into plain) (concat chars) sample
      ≡ ok (length (concat (fitting (room sample) chars)), c))
    × (data_view c ≡ data_view sample ++ concat (fitting (room sample) chars))
    × IsBuf c
feed_str-fitting_example = feed_str-fitting plain-IsLawful sample-IsBuf chars chars-AreChars

abbrev job : Job
job = record { buf = sample; total = 0; passed = [] }

write_all-Moves_example :
    Moves job (write_all (wrote 1 ∷ write_again ∷ write_failed "EPIPE" ∷ []) job).0
write_all-Moves_example =
    write_all-Moves (wrote 1 ∷ write_again ∷ write_failed "EPIPE" ∷ []) job sample-IsBuf
      (omega arith, tt)
