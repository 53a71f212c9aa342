-- ===== src/Main/Entry.antt =====
-- What main runs, and the words that the program sees.
use quickjab.Prelude.{
  ◌≡◌, refl, ap, ◌∙◌, sym, List, [], ◌∷◌, ◌++◌, Option, none, some, Bool, true, false, not, ◌&&◌,
  ◌⊎◌, if_cases, if◌then◌else◌, subst, append_assoc, ◌==◌, Bool-cases, inl, inr,
}
use mathlib.Core.List.{reverse, reverse-cons}
use quickjab.Require.Resolve.{path_eq}
use quickjab.Main.{
  run_loop, Arg, Start, go, Script, Run, eval_of, pin_script, file_of, main_loop, pol_run,
  flag_version, flag_eval, parse_args, process_argv, main_argv, ends_with_js, has_scheme, attempt,
  if_well, run_eval, run_entry, run_start,
}

-- Whether the first word is the bundle's argument or a script makes no difference to main.js: it
-- sees every word from the first one that is not an option at process.argv[2].
pub main_argv-words :
    (packed : Bool) (a : Arg) (rest : List Arg) (abs : Arg)
    → path_eq a flag_version ≡ false
    → path_eq a flag_eval ≡ false
    → (s : Start) × (parse_args packed none (a ∷ rest) ≡ go s)
      × (main_argv abs (process_argv s) ≡ (b'j' ∷ b'a' ∷ b'b' ∷ []) ∷ abs ∷ a ∷ rest)
unfolding parse_args
main_argv-words true a [] abs v e =
    (record { eval_code = none; script_file = none; tail = a ∷ [] }, rw (v, e), refl)
main_argv-words true a (b ∷ rest) abs v e =
    (record { eval_code = none; script_file = none; tail = a ∷ b ∷ rest }, rw (v, e), refl)
main_argv-words false a [] abs v e =
    (record { eval_code = none; script_file = some a; tail = [] }, rw (v, e), refl)
main_argv-words false a (b ∷ rest) abs v e =
    (record { eval_code = none; script_file = some a; tail = b ∷ rest }, rw (v, e), refl)

-- The scripts of a start, in order: the code of --eval; then the script file with its directory
-- pinned, or, without --eval, the main loop; then the event loop.
abbrev pub loop_plan : Option Arg → List Script
loop_plan none = main_loop ∷ []
loop_plan (some code) = []

abbrev pub entry_plan : Option Arg → Option Arg → List Script
entry_plan code none = loop_plan code
entry_plan code (some f) =
    if ends_with_js f && not (has_scheme f) then pin_script f ∷ file_of f ∷ [] else loop_plan code

abbrev pub eval_plan : Option Arg → List Script
eval_plan none = []
eval_plan (some code) = eval_of code ∷ []

abbrev pub plan : Start → List Script
plan s = eval_plan s.eval_code ++ (entry_plan s.eval_code s.script_file ++ (pol_run ∷ []))

module _ (works : List Script → Script → Bool) where
  -- Scripts run one after the other until one fails.
  unfoldable pub run_all : List Script → Run → Run
  run_all [] r = r
  run_all (x ∷ xs) r = let rest = run_all xs (attempt works x r) in if r.rc == 0 then rest else r

  run_all_failed : (xs : List Script) (r : Run) → (r.rc == 0) ≡ false → run_all xs r ≡ r
  unfolding run_all
  run_all_failed [] r h = refl
  run_all_failed (x ∷ xs) r h = rw h

  run_all-append :
      (xs ys : List Script) (r : Run) → run_all (xs ++ ys) r ≡ run_all ys (run_all xs r)
  unfolding run_all
  run_all-append [] ys r = refl
  run_all-append (x ∷ xs) ys r = elim (Bool-cases (r.rc == 0)) [
    | inl well ↦ rw well (run_all-append xs ys (attempt works x r))
    | inr failed ↦ rw failed (sym (run_all_failed ys r failed))
  ]

  run_eval_plan :
      (code : Option Arg)
      → run_eval works code (record { ran = []; rc = 0 })
        ≡ run_all (eval_plan code) (record { ran = []; rc = 0 })
  unfolding run_all
  run_eval_plan none = refl
  run_eval_plan (some code) = refl

  run_loop_plan :
      (code : Option Arg) (r : Run)
      → if_well works (run_loop works code) r ≡ run_all (loop_plan code) r
  unfolding run_all
  run_loop_plan none r = refl
  run_loop_plan (some code) r = if_cases (λ t. t ≡ r) (r.rc == 0) (λ e. refl) (λ e. refl)

  run_entry_plan :
      (code script : Option Arg) (r : Run)
      → if_well works (run_entry works code script) r ≡ run_all (entry_plan code script) r
  unfolding run_all
  run_entry_plan code none r = run_loop_plan code r
  run_entry_plan code (some f) r = elim (Bool-cases (ends_with_js f && not (has_scheme f))) [
    | inl js ↦ rw js
    | inr other ↦ rw other (run_loop_plan code r)
  ]

  run_start_all : (s : Start) → run_start works s ≡ run_all (plan s) (record { ran = []; rc = 0 })
  unfolding run_start run_all
  run_start_all s =
      let began : Run = record { ran = []; rc = 0 } in
      let entry = entry_plan s.eval_code s.script_file in
      ap (if_well works (attempt works pol_run)) (
        run_entry_plan s.eval_code s.script_file (run_eval works s.eval_code began)
        ∙ ap (run_all entry) (run_eval_plan s.eval_code))
      ∙ sym (run_all-append entry (pol_run ∷ []) (run_all (eval_plan s.eval_code) began))
      ∙ sym (run_all-append (eval_plan s.eval_code) (entry ++ (pol_run ∷ [])) began)

  -- Each of the scripts works when it runs behind those in `past`, the last first.
  abbrev pub AllWork : List Script → List Script → Type 0
  AllWork past [] = Unit {0}
  AllWork past (x ∷ xs) = (works past x ≡ true) × AllWork (x ∷ past) xs

  -- All scripts ran and worked, and the code is 0; or the last that ran is the first that failed,
  -- and the code is 1.
  abbrev pub RunsOut : List Script → List Script → Run → Type 0
  RunsOut past xs r =
      (AllWork past xs × (r.ran ≡ reverse xs ++ past) × (r.rc ≡ 0))
      ⊎ ((done : List Script) × (x : Script) × (rest : List Script) × (xs ≡ done ++ (x ∷ rest))
          × AllWork past done
          × (works (reverse done ++ past) x ≡ false)
          × (r.ran ≡ x ∷ (reverse done ++ past))
          × (r.rc ≡ 1))

  onto : (x : Script) (xs past : List Script) → reverse (x ∷ xs) ++ past ≡ reverse xs ++ (x ∷ past)
  onto x xs past = ap (λ l. l ++ past) (reverse-cons x xs) ∙ append_assoc (reverse xs) (x ∷ []) past

  one_more :
      (past xs : List Script) (x : Script) (r : Run)
      → works past x ≡ true
      → RunsOut (x ∷ past) xs r
      → RunsOut past (x ∷ xs) r
  one_more past xs x r w (inl (all, ran, zero_rc)) =
      inl ((w, all), ran ∙ sym (onto x xs past), zero_rc)
  one_more past xs x r w (inr (done, y, rest, split, all, fails, ran, code)) = inr (
    x ∷ done,
    y,
    rest,
    ap (λ l. x ∷ l) split,
    (w, all),
    ap (λ l. works l y) (onto x done past) ∙ fails,
    ran ∙ ap (λ l. y ∷ l) (sym (onto x done past)),
    code,
  )

  run_all_out :
      (xs past : List Script) → RunsOut past xs (run_all xs (record { ran = past; rc = 0 }))
  unfolding run_all attempt
  run_all_out [] past = inl (tt, refl, refl)
  run_all_out (x ∷ xs) past =
      let code : Bool → Run = λ b. record { ran = x ∷ past; rc = if b then 0 else 1 } in
      elim (Bool-cases (works past x)) [
        | inl w ↦
            subst (λ r. RunsOut past (x ∷ xs) (run_all xs r)) (sym (ap code w))
              (one_more past xs x _ w (run_all_out xs (x ∷ past)))
        | inr fails ↦
            let stays = run_all_failed xs (record { ran = x ∷ past; rc = 1 }) refl in
            subst (λ r. RunsOut past (x ∷ xs) (run_all xs r)) (sym (ap code fails))
              (subst (RunsOut past (x ∷ xs)) (sym stays)
                (inr ([], x, xs, refl, tt, fails, refl, refl)))
      ]

  -- main runs the scripts of the plan in this order: all of them, and the exit code is 0, where each
  -- works when its turn comes; or up to the first that fails, which is the last that runs, and the
  -- exit code is 1.
  pub run_start-plan : (s : Start) → RunsOut [] (plan s) (run_start works s)
  run_start-plan s = subst (RunsOut [] (plan s)) (sym (run_start_all s)) (run_all_out (plan s) [])
