-- ===== src/Bytes.antt =====
-- The typed-array operations that the bundles call on a Uint8Array, over lists of bytes:
-- subarray, set and copyWithin, and their laws.
pub mod Laws
use quickjab.Prelude.{
  ℕ, ◌+◌, ◌-◌, ◌≤◌, min, List, [], ◌++◌, String, leb, if◌then◌else◌, length, take, drop,
}
use quickjab.Outcome.{Outcome, ok, err}

module _ {ℓ} {A : Type ℓ} where
  -- `xs.subarray(a, b)`: both ends are clamped to the length.
  abbrev pub slice : List A → ℕ → ℕ → List A
  slice xs a b = take (b - a) (drop a xs)

  -- What `xs.set(s, off)` leaves, where it fits.
  abbrev pub overwrite : List A → ℕ → List A → List A
  overwrite xs off s = take off xs ++ (s ++ drop (off + length s) xs)

  -- `xs.set(s, off)`
  abbrev pub set_at : List A → ℕ → List A → Outcome (List A)
  set_at xs off s =
      if leb (off + length s) (length xs) then ok (overwrite xs off s) else err "RangeError"

  -- `xs.copyWithin(target, start, end)`: clamped, and as if through a copy.
  abbrev pub copy_within : List A → ℕ → ℕ → ℕ → List A
  copy_within xs target start end =
      let to = min target (length xs) in
      let from = min start (length xs) in
      let count = min (min end (length xs) - from) (length xs - to) in
      overwrite xs to (slice xs from (from + count))
