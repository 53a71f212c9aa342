-- ===== src/Require/Memo.antt =====
-- `resolveMemo` of require.c: the memo of resolutions, consulted before `resolve`. The engine's text
-- of a number is given.
pub mod Key
pub mod Transparent
use quickjab.Prelude.{
  ℕ, ◌+◌, Bool, true, false, not, ◌&&◌, List, [], ◌∷◌, ◌++◌, Option, none, some, length,
  if◌then◌else◌,
}
use quickjab.Outcome.{Outcome, ok, err, ◌>>=◌}
use quickjab.Require.Path.{FilePath, is_absolute}
use quickjab.Require.Resolve.{World, Pins, path_eq, is_explicit, resolve}

-- The Map `resolved`; a key is set only where it is missing.
unfoldable pub lookup : FilePath → List (FilePath × FilePath) → Option FilePath
lookup k [] = none
lookup k ((l, abs) ∷ m) = let rest = lookup k m in if path_eq l k then some abs else rest

pub record Resolver : Type 0 where
  pub pins : Pins
  pub resolved : List (FilePath × FilePath)

-- A relative spec off a relative base depends on the working directory.
abbrev pub depends_on_cwd : FilePath → FilePath → Bool
depends_on_cwd spec base_dir =
    is_explicit spec && (not (is_absolute spec) && not (is_absolute base_dir))

module _ (decimal : ℕ → FilePath) where
  -- `spec.length + ":" + spec + baseDir`
  unfoldable pub memo_key : FilePath → FilePath → FilePath
  memo_key spec base_dir = decimal (length spec) ++ (b':' ∷ (spec ++ base_dir))

  -- What is set where the key was missing; a throw sets nothing.
  abbrev pub memoize :
      World → Resolver → FilePath → FilePath → Option FilePath → Outcome (FilePath × Resolver)
  memoize w r spec base_dir (some abs) = ok (abs, r)
  memoize w r spec base_dir none = resolve w r.pins spec base_dir >>= λ a.
      ok (a.0, record { pins = a.1; resolved = (memo_key spec base_dir, a.0) ∷ r.resolved })

  unfoldable pub resolve_memo :
      World → Resolver → FilePath → FilePath → Outcome (FilePath × Resolver)
  unfolding memo_key lookup
  resolve_memo w r spec base_dir =
      if depends_on_cwd spec base_dir
      then (resolve w r.pins spec base_dir >>= λ a. ok (a.0, record r { pins = a.1 }))
      else memoize w r spec base_dir (lookup (memo_key spec base_dir) r.resolved)
