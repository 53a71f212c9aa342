-- ===== src/Require/Resolve.antt =====
-- How require.c turns a spec into a file: isExplicit, dirname, climbJsrc, pinBase, resolveJsrc and
-- resolve. The file system, the environment and the unpacked bundle are given by `World`.
pub mod Inside
pub mod Bareword
pub mod Climb
use quickjab.Prelude.{
  ℕ, zero, suc, Bool, true, false, not, ◌&&◌, ◌||◌, List, [], ◌∷◌, ◌++◌, Option, none, some, ◌==◌,
  if◌then◌else◌, length, take, String,
}
use quickjab.Outcome.{Outcome, ok, err, ◌>>=◌}
use quickjab.Require.Path.{FilePath, slash, dot, normalize, is_absolute}

-- What `io` and the bundle answer while one call runs.
pub record World : Type 0 where
  pub is_file : FilePath → Bool
  pub is_dir : FilePath → Bool
  pub home : Option FilePath
  pub cwd : FilePath
  -- packExtract: no bundle, the directory that it was unpacked to, or a throw.
  pub bundle : Outcome (Option FilePath)

-- `a === b`
unfoldable pub path_eq : FilePath → FilePath → Bool
path_eq [] [] = true
path_eq [] (d ∷ q) = false
path_eq (c ∷ p) [] = false
path_eq (c ∷ p) (d ∷ q) = c == d && path_eq p q

abbrev pub dot_js : FilePath
dot_js = b'.' ∷ b'j' ∷ b's' ∷ []

abbrev pub slash_index_js : FilePath
slash_index_js = slash ∷ b'i' ∷ b'n' ∷ b'd' ∷ b'e' ∷ b'x' ∷ dot_js

abbrev pub slash_jsrc : FilePath
slash_jsrc = slash ∷ b'j' ∷ b's' ∷ b'r' ∷ b'c' ∷ []

unfoldable pub is_explicit : FilePath → Bool
unfolding path_eq is_absolute
is_explicit spec =
    is_absolute spec
    || path_eq (take 2 spec) (dot ∷ slash ∷ [])
    || path_eq (take 3 spec) (dot ∷ dot ∷ slash ∷ [])

-- `p.slice(0, p.lastIndexOf("/"))`, or `none` if there is no slash.
unfoldable pub before_last_slash : FilePath → Option FilePath
before_last_slash [] = none
before_last_slash (c ∷ p) = elim (before_last_slash p) [
  | some d ↦ some (c ∷ d)
  | none ↦ if c == slash then some [] else none
]

unfoldable pub dirname : FilePath → FilePath
unfolding before_last_slash
dirname p = elim (before_last_slash p) [
  | none ↦ dot ∷ []
  | some [] ↦ slash ∷ []
  | some (c ∷ d) ↦ c ∷ d
]

-- The loop of climbJsrc; the outer `none` is the end of the fuel.
unfoldable pub climb : World → FilePath → ℕ → FilePath → Option (Option FilePath)
climb w ceiling zero dir = none
climb w ceiling (suc fuel) dir =
    let rest = climb w ceiling fuel (dirname dir) in
    if w.is_dir (dir ++ slash_jsrc)
    then some (some (dir ++ slash_jsrc))
    else if path_eq dir ceiling || path_eq dir (slash ∷ [])
    then some none
    else rest

abbrev pub ceiling_of : World → FilePath
ceiling_of w = elim w.home [
  | none ↦ slash ∷ []
  | some h ↦ if path_eq h [] then slash ∷ [] else normalize h
]

-- With as much fuel as the directory has characters.
unfoldable pub climb_jsrc : World → Option (Option FilePath)
unfolding climb
climb_jsrc w = let dir = normalize w.cwd in climb w (ceiling_of w) (length dir) dir

-- The two variables of the bundle: the base once it is pinned, and the entry script's directory.
pub record Pins : Type 0 where
  pub require_base : Option FilePath
  pub script_dir : Option FilePath

-- A throw leaves the variables as they were.
unfoldable pub pin_base : World → Pins → Outcome (FilePath × Pins)
unfolding climb_jsrc
pin_base w s = elim s.require_base [
  | some base ↦ ok (base, s)
  | none ↦ w.bundle >>= λ bundle. elim bundle [
    | some dir ↦ ok (dir, record s { require_base = some dir })
    | none ↦ elim s.script_dir [
      | some dir ↦ ok (dir, record s { require_base = some dir })
      | none ↦ elim (climb_jsrc w) [
        | some (some dir) ↦ ok (dir, record s { require_base = some dir })
        | _ ↦ err "require: cannot find: there is no jsrc/ directory"
      ]
    ]
  ]
]

-- The loop of resolveJsrc over its two candidates.
unfoldable pub try_under : World → FilePath → List FilePath → Outcome FilePath
try_under w base [] = err "require: cannot find"
try_under w base (s ∷ ss) =
    let rest = try_under w base ss in
    let under = base ++ (slash ∷ []) in
    let c = normalize (under ++ s) in
    if not (path_eq (take (length under) c) under)
    then err "require: escapes the require base"
    else if w.is_file c
    then ok c
    else rest

unfoldable pub resolve_jsrc : World → Pins → FilePath → Outcome (FilePath × Pins)
resolve_jsrc w s spec =
    pin_base w s >>= λ r. try_under w r.0 (spec ∷ (spec ++ dot_js) ∷ []) >>= λ c. ok (c, r.1)

-- The loop of resolve over its three candidates.
unfoldable pub try_files : World → List FilePath → Outcome FilePath
try_files w [] = err "require: cannot find"
try_files w (c ∷ cs) = let rest = try_files w cs in if w.is_file c then ok c else rest

unfoldable pub resolve : World → Pins → FilePath → FilePath → Outcome (FilePath × Pins)
resolve w s spec base_dir =
    if not (is_explicit spec)
    then resolve_jsrc w s spec
    else (let base = normalize (if is_absolute spec then spec else base_dir ++ (slash ∷ spec)) in
        try_files w (base ∷ (base ++ dot_js) ∷ (base ++ slash_index_js) ∷ []) >>= λ c. ok (c, s))
