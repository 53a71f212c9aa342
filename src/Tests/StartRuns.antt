-- ===== src/Tests/StartRuns.antt =====
-- Runs of the program's start and of the hashlets.
use quickjab.Prelude.{Bool, List, ◌≡◌, refl, [], ◌∷◌, ◌++◌, some, true, false, arith, length}
use quickjab.Cfold.{hi64, hashlet}
use quickjab.Cfold.Roundtrip.{hi64-hashlet}
use quickjab.Require.Resolve.{path_eq, dot_js}
use quickjab.Main.{
  Script, pin_script, eval_of, ends_with_js, has_scheme, Arg, Start, flag_version, flag_eval,
  run_start,
}
use quickjab.Main.Entry.{run_start-plan, RunsOut, plan}

hi64-hashlet_example :
    (hi64 (hashlet 0x1234567890abcdef ++ (120 ∷ [])) ≡ 0x1234567890abcdef)
    × (length (hashlet 0x1234567890abcdef) ≡ 16)
hi64-hashlet_example = hi64-hashlet 0x1234567890abcdef (120 ∷ []) (omega arith)

abbrev log_word : Arg
log_word = b'l' ∷ b'o' ∷ b'g' ∷ []

abbrev diff_uri : Arg
diff_uri = b'd' ∷ b':' ∷ b'x' ∷ dot_js

no_version : path_eq log_word flag_version ≡ false
unfolding path_eq
no_version = refl

no_eval : path_eq log_word flag_eval ≡ false
unfolding path_eq
no_eval = refl

abbrev script_start : Start
script_start = record {
  eval_code = some log_word;
  script_file = some (b'x' ∷ dot_js);
  tail = log_word ∷ [];
}

-- The pin of the script's directory fails, so that neither the script nor the event loop runs.
abbrev no_pin : List Script → Script → Bool
no_pin past (pin_script f) = false
no_pin past _ = true

run_start-plan_example : RunsOut no_pin [] (plan script_start) (run_start no_pin script_start)
run_start-plan_example = run_start-plan no_pin script_start

fails_to_pin :
    run_start no_pin script_start
    ≡ record { ran = pin_script (b'x' ∷ dot_js) ∷ eval_of log_word ∷ []; rc = 1 }
unfolding run_start ends_with_js has_scheme path_eq
fails_to_pin = refl
