-- ===== src/Require/Path.antt =====
-- `normalize` and `dirname` of require.c. A path is the list of its character codes.
pub mod Normal
pub mod Idempotent
use quickjab.Prelude.{ℕ, Bool, true, false, not, ◌&&◌, List, [], ◌∷◌, ◌++◌, ◌==◌, if◌then◌else◌}
use mathlib.Core.List.{reverse}

abbrev pub FilePath : Type 0
FilePath = List ℕ

abbrev pub slash : ℕ
slash = b'/'

abbrev pub dot : ℕ
dot = b'.'

-- `c` put before the first part of a split.
abbrev pub cons_first : ℕ → List FilePath → List FilePath
cons_first c [] = (c ∷ []) ∷ []
cons_first c (s ∷ ss) = (c ∷ s) ∷ ss

-- `p.split("/")`
unfoldable pub split : FilePath → List FilePath
split [] = [] ∷ []
split (c ∷ p) = let rest = split p in if c == slash then [] ∷ rest else cons_first c rest

-- `out.join("/")`
unfoldable pub join : List FilePath → FilePath
join [] = []
join (s ∷ []) = s
join (s ∷ t ∷ ss) = s ++ (slash ∷ join (t ∷ ss))

-- `s === "" || s === "."`
unfoldable pub is_skipped : FilePath → Bool
is_skipped [] = true
is_skipped (c ∷ []) = c == dot
is_skipped (c ∷ d ∷ s) = false

-- `s === ".."`
unfoldable pub is_up : FilePath → Bool
is_up (c ∷ d ∷ []) = c == dot && d == dot
is_up _ = false

abbrev pub dot_dot : FilePath
dot_dot = dot ∷ dot ∷ []

-- One round of the loop over the parts. The array `out` is held last part first.
abbrev pub up : Bool → List FilePath → List FilePath
up abs [] = if abs then [] else dot_dot ∷ []
up abs (t ∷ out) = if not (is_up t) then out else if abs then t ∷ out else dot_dot ∷ t ∷ out

unfoldable pub step : Bool → List FilePath → FilePath → List FilePath
unfolding is_skipped is_up
step abs out s = if is_skipped s then out else if is_up s then up abs out else s ∷ out

unfoldable pub walk : Bool → List FilePath → List FilePath → List FilePath
unfolding step
walk abs out [] = out
walk abs out (s ∷ ss) = walk abs (step abs out s) ss

-- `p[0] === "/"`
unfoldable pub is_absolute : FilePath → Bool
is_absolute [] = false
is_absolute (c ∷ p) = c == slash

-- The parts of the normal form, in order.
unfoldable pub parts : FilePath → List FilePath
parts p = reverse (walk (is_absolute p) [] (split p))

unfoldable pub normalize : FilePath → FilePath
normalize p = (if is_absolute p then slash ∷ [] else []) ++ join (parts p)
