-- ===== src/Require/Memo/Transparent.antt =====
-- The memo changes no answer while the file system stays as it is.
use quickjab.Prelude.{ℕ, ◌≡◌, some}
use quickjab.Outcome.{Outcome, ok, err}
use quickjab.Require.Path.{FilePath}
use quickjab.Require.Resolve.{World, resolve}
use quickjab.Require.Memo.{Resolver, lookup, memo_key}
use quickjab.Require.Memo.Key.{IsDecimal}

abbrev pub answer : {A : Type 0} → Outcome (FilePath × A) → Outcome FilePath
answer (ok (abs, a)) = ok abs
answer (err x) = err x

-- Every memo is what `resolve` answers now.
abbrev pub IsMemo : (ℕ → FilePath) → World → Resolver → Type 0
IsMemo decimal w r =
    (spec base abs : FilePath)
    → lookup (memo_key decimal spec base) r.resolved ≡ some abs
    → resolve w r.pins spec base ≡ ok (abs, r.pins)

abbrev with_pins : {A : Type 0} {B : Type 0} → Outcome A → B → Outcome (A × B)
with_pins (ok a) s = ok (a, s)
with_pins (err x) s = err x

module _ {decimal : ℕ → FilePath} (d : IsDecimal decimal) (w : World) (r : Resolver) {b : FilePath}
    (pinned : (r.pins).require_base ≡ some b) (memo : IsMemo decimal w r) where
  abbrev Agrees : FilePath → FilePath → Outcome (FilePath × Resolver) → Type 0
  Agrees spec base o =
      (answer o ≡ answer (resolve w r.pins spec base))
      × ((abs : FilePath) (u : Resolver) → o ≡ ok (abs, u) → (u.pins ≡ r.pins) × IsMemo decimal w u)
