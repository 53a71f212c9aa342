-- ===== src/Main.antt =====
-- The start of the program, main.c: the command line, the choice of the entry, `process.argv`, and
-- the exit code. An argument is the list of its character codes; the scripts that run are given.
pub mod Scheme
pub mod Entry
use quickjab.Prelude.{
  ℕ, zero, suc, ◌-◌, Bool, true, false, not, ◌&&◌, ◌||◌, List, [], ◌∷◌, ◌++◌, Option, none, some,
  leb, ◌==◌, if◌then◌else◌, length, drop,
}
use quickjab.Require.Path.{FilePath, slash}
use quickjab.Require.Resolve.{path_eq, dot_js}

abbrev pub Arg : Type 0
Arg = List ℕ

abbrev pub flag_version : Arg
flag_version = b'-' ∷ b'-' ∷ b'v' ∷ b'e' ∷ b'r' ∷ b's' ∷ b'i' ∷ b'o' ∷ b'n' ∷ []

abbrev pub flag_eval : Arg
flag_eval = b'-' ∷ b'-' ∷ b'e' ∷ b'v' ∷ b'a' ∷ b'l' ∷ []

-- JABCEndsWithJs
unfoldable pub ends_with_js : Arg → Bool
ends_with_js s = leb 3 (length s) && path_eq (drop (length s - 3) s) dot_js

abbrev pub is_alpha : ℕ → Bool
is_alpha c = (leb b'a' c && leb c b'z') || (leb b'A' c && leb c b'Z')

abbrev pub is_scheme_char : ℕ → Bool
is_scheme_char c = is_alpha c || (leb b'0' c && leb c b'9') || c == b'+' || c == b'-' || c == b'.'

-- The loop of JABCHasScheme.
unfoldable pub scheme_ends : Arg → Bool
scheme_ends [] = false
scheme_ends (c ∷ p) =
    let rest = scheme_ends p in
    if c == b':'
    then true
    else if c == slash
    then false
    else if is_scheme_char c
    then rest
    else false

-- JABCHasScheme
unfoldable pub has_scheme : Arg → Bool
unfolding scheme_ends
has_scheme [] = false
has_scheme (c ∷ p) = is_alpha c && scheme_ends p

-- What the loop over the arguments leaves.
pub record Start : Type 0 where
  pub eval_code : Option Arg
  pub script_file : Option Arg
  pub tail : List Arg

-- It returns from main at --version (0) and at an --eval without code (1).
pub data Parsed : Type 0 where
  leave : ℕ → Parsed
  go : Start → Parsed

-- The loop over the arguments behind argv[0]; `packed` is JABCJsrcPacked().
unfoldable pub parse_args : Bool → Option Arg → List Arg → Parsed
parse_args packed code [] = go (record { eval_code = code; script_file = none; tail = [] })
parse_args packed code (a ∷ []) =
    if path_eq a flag_version
    then leave 0
    else if path_eq a flag_eval
    then leave 1
    else if packed
    then go (record { eval_code = code; script_file = none; tail = a ∷ [] })
    else go (record { eval_code = code; script_file = some a; tail = [] })
parse_args packed code (a ∷ b ∷ rest) =
    let more = parse_args packed (some b) rest in
    if path_eq a flag_version
    then leave 0
    else if path_eq a flag_eval
    then more
    else if packed
    then go (record { eval_code = code; script_file = none; tail = a ∷ b ∷ rest })
    else go (record { eval_code = code; script_file = some a; tail = b ∷ rest })

-- JABCArgvArray: the heads that are there, then the tail.
abbrev pub argv_array : List Arg → Option Arg → Option Arg → List Arg
argv_array tail (some h) (some k) = h ∷ k ∷ tail
argv_array tail (some h) none = h ∷ tail
argv_array tail none (some k) = k ∷ tail
argv_array tail none none = tail

-- `process.argv` and `args` of JABCInstallArgv.
abbrev pub process_argv : Start → List Arg
process_argv s = argv_array s.tail (some (b'j' ∷ b'a' ∷ b'b' ∷ [])) s.script_file

abbrev pub args : Start → List Arg
args s = argv_array s.tail none none

-- `process.argv` that `__main` of require.c leaves, with its own path spliced in.
abbrev pub main_argv : Arg → List Arg → List Arg
main_argv abs [] = abs ∷ []
main_argv abs (a ∷ rest) = a ∷ abs ∷ rest

-- The scripts that main runs.
pub data Script : Type 0 where
  eval_of : Arg → Script
  pin_script : Arg → Script
  file_of : Arg → Script
  main_loop : Script
  pol_run : Script

-- What ran, the last first, and the exit code.
pub record Run : Type 0 where
  pub ran : List Script
  pub rc : ℕ

module _ (works : List Script → Script → Bool) where
  -- One JABCRun or JABCRunFile, with `rc = 1` where it fails.
  unfoldable pub attempt : Script → Run → Run
  attempt x r = record { ran = x ∷ r.ran; rc = if works r.ran x then r.rc else 1 }

  abbrev pub if_well : (Run → Run) → Run → Run
  if_well next r = if r.rc == 0 then next r else r

  -- `!JABCRun("__pinScript(__mainSpec)") || !JABCRunFile(script_file)`
  abbrev pub run_script : Arg → Run → Run
  run_script f r = if_well (attempt (file_of f)) (attempt (pin_script f) r)

  abbrev pub run_loop : Option Arg → Run → Run
  run_loop none r = attempt main_loop r
  run_loop (some code) r = r

  abbrev pub run_entry : Option Arg → Option Arg → Run → Run
  run_entry code none r = run_loop code r
  run_entry code (some f) r =
      if ends_with_js f && not (has_scheme f) then run_script f r else run_loop code r

  abbrev pub run_eval : Option Arg → Run → Run
  run_eval none r = r
  run_eval (some code) r = attempt (eval_of code) r

  -- What main does between the set-up and the tear-down.
  unfoldable pub run_start : Start → Run
  unfolding attempt ends_with_js has_scheme
  run_start s = if_well (attempt pol_run) (
      if_well (run_entry s.eval_code s.script_file)
        (run_eval s.eval_code (record { ran = []; rc = 0 })))
