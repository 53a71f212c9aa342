-- ===== src/Tests/RequireRuns.antt =====
-- Runs of the module resolution.
use quickjab.Prelude.{
  set, Bool, ℕ, zero, suc, arith, arith, ◌⊎◌, ◌≡◌, refl, [], ◌∷◌, ◌++◌, none, some, true, false,
  inl, All, String,
}
use quickjab.Outcome.{Outcome, ok, err}
use quickjab.Require.Path.{dot, is_absolute, FilePath, slash, split, join, normalize}
use quickjab.Require.Path.Idempotent.{normalize_idem}
use quickjab.Require.Path.Normal.{IsName}
use quickjab.Require.Resolve.{World, Pins, path_eq, pin_base, resolve_jsrc, climb_jsrc}
use quickjab.Require.Memo.{Resolver}
use quickjab.Require.Load.{Loader, load_path, KeepsEntries, Settled, load_path-Settled}
use quickjab.Require.Resolve.Climb.{Finds, Stops, climb_jsrc_nearest}
use quickjab.Require.Resolve.Bareword.{resolve_jsrc_inside, odd_base_refused, bareword_found}

abbrev name_a : FilePath
name_a = b'a' ∷ []

abbrev name_b : FilePath
name_b = b'b' ∷ []

-- A file system with the regular file /a/b.
abbrev world : World
world = record {
  is_file = path_eq (slash ∷ join (name_a ∷ name_b ∷ []));
  is_dir = λ p. false;
  home = none;
  cwd = slash ∷ name_a;
  bundle = ok none;
}

-- The entry script is in /a.
abbrev entry : Pins
entry = record { require_base = none; script_dir = some (slash ∷ name_a) }

abbrev pinned : Pins
pinned = record { require_base = some (slash ∷ name_a); script_dir = some (slash ∷ name_a) }

entry-pinned : pin_base world entry ≡ ok (slash ∷ name_a, pinned)
unfolding pin_base
entry-pinned = refl

found_b : resolve_jsrc world entry name_b ≡ ok (slash ∷ join (name_a ∷ name_b ∷ []), pinned)
unfolding resolve_jsrc pin_base quickjab.Require.Resolve.try_under path_eq normalize
    quickjab.Require.Path.is_absolute join quickjab.Require.Path.parts quickjab.Require.Path.walk
    split
found_b = refl

-- `b` has no `/` in it and is no dot part.
name_a-IsName : IsName name_a
unfolding quickjab.Require.Path.is_skipped quickjab.Require.Path.is_up
name_a-IsName = record { no_slash = (omega arith, tt); kept = refl; down = refl }

name_b-IsName : IsName name_b
unfolding quickjab.Require.Path.is_skipped quickjab.Require.Path.is_up
name_b-IsName = record { no_slash = (omega arith, tt); kept = refl; down = refl }

abbrev file_b : FilePath
file_b = slash ∷ join (name_a ∷ name_b ∷ [])

file_b-is_file : world.is_file file_b ≡ true
unfolding path_eq join
file_b-is_file = refl

resolve_jsrc_inside_example :
    (tail : FilePath) × (file_b ≡ (slash ∷ name_a) ++ (slash ∷ tail))
    × All IsName (split tail)
    × (world.is_file file_b ≡ true)
    × (pinned ≡ pinned)
resolve_jsrc_inside_example = resolve_jsrc_inside world entry name_b name_a entry-pinned found_b

joined_a : join (name_a ∷ []) ≡ name_a
unfolding join
joined_a = refl

bareword_found_example :
    resolve_jsrc world entry (join (name_b ∷ []))
    ≡ ok ((slash ∷ join (name_a ∷ [])) ++ (slash ∷ join (name_b ∷ [])), pinned)
unfolding join path_eq pin_base
bareword_found_example =
    bareword_found world entry (name_a ∷ []) (name_b ∷ []) (name_a-IsName, tt) (name_b-IsName, tt)
      (λ e. cc) (λ e. cc) refl refl

-- The entry script is in the root directory.
abbrev root_entry : Pins
root_entry = record { require_base = none; script_dir = some (slash ∷ []) }

root_pinned :
    pin_base world root_entry
    ≡ ok (slash ∷ [], record { require_base = some (slash ∷ []); script_dir = some (slash ∷ []) })
unfolding pin_base
root_pinned = refl

odd_base_refused_example : (e : String) × (resolve_jsrc world root_entry name_b ≡ err e)
odd_base_refused_example = odd_base_refused world root_entry name_b [] (inl refl) root_pinned

world_absolute : is_absolute world.cwd ≡ true
unfolding is_absolute
world_absolute = refl

climb_jsrc_nearest_example :
    Finds world (slash ∷ []) (normalize world.cwd) (climb_jsrc world)
    ⊎ Stops world (slash ∷ []) (normalize world.cwd) (climb_jsrc world)
climb_jsrc_nearest_example = climb_jsrc_nearest world world_absolute

normalize_idem_example :
    normalize (normalize (dot ∷ slash ∷ dot ∷ dot ∷ slash ∷ name_a))
    ≡ normalize (dot ∷ slash ∷ dot ∷ dot ∷ slash ∷ name_a)
normalize_idem_example = normalize_idem (dot ∷ slash ∷ dot ∷ dot ∷ slash ∷ name_a)

-- Any text without a colon that tells the number would do.
abbrev strokes : ℕ → FilePath
strokes zero = []
strokes (suc n) = b'1' ∷ strokes n

abbrev empty_memo : Resolver
empty_memo = record { pins = pinned; resolved = [] }

-- A module of exports 5 that evaluates without a throw, and one that throws.
abbrev plain_module : ℕ → FilePath → ℕ → Loader ℕ → Outcome Bool × Loader ℕ
plain_module src abs id l = (ok true, record l { modules = set l.modules id src })

abbrev throwing_module : ℕ → FilePath → ℕ → Loader ℕ → Outcome Bool × Loader ℕ
throwing_module src abs id l = (err "thrown", record l { modules = set l.modules id src })

abbrev no_modules : Loader ℕ
no_modules = record { resolver = empty_memo; cache = []; modules = [] }

abbrev one_module : Loader ℕ
one_module = record { resolver = empty_memo; cache = (name_a, 0) ∷ []; modules = 5 ∷ [] }

loaded_a :
    load_path 0 7 (λ p. false) (λ p. ok 5) plain_module name_a no_modules ≡ (ok 5, one_module)
unfolding load_path quickjab.Require.Load.cached
loaded_a = refl

threw_a :
    load_path 0 7 (λ p. false) (λ p. ok 5) throwing_module name_a no_modules
    ≡ (err "thrown", record no_modules { modules = 5 ∷ [] })
unfolding load_path quickjab.Require.Load.cached quickjab.Require.Load.delete_entry path_eq
threw_a = refl

plain_module-KeepsEntries : KeepsEntries 0 7 (λ p. false) (λ p. ok 5) plain_module
plain_module-KeepsEntries = record { keeps = λ src abs id l. refl }

load_path-Settled_example :
    Settled 0 7
      (λ p. false)
      (λ p. ok 5)
      plain_module
      plain_module-KeepsEntries
      name_a
      (load_path 0 7 (λ p. false) (λ p. ok 5) plain_module name_a no_modules)
load_path-Settled_example =
    load_path-Settled 0 7 (λ p. false) (λ p. ok 5) plain_module plain_module-KeepsEntries name_a
      no_modules
