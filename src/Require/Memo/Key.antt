-- ===== src/Require/Memo/Key.antt =====
-- No two pairs of a spec and a directory share a key.
use quickjab.Prelude.{
  ℕ, ◌≡◌, ◌≢◌, refl, sym, ap₂, ◌∙◌, [], ◌∷◌, ◌++◌, length, take, drop, take-append_length,
  drop-append_length, All,
}
use quickjab.Require.Path.{FilePath}
use quickjab.Require.Memo.{memo_key}

-- The text of a number has no colon in it, and tells the number.
pub record IsDecimal (decimal : ℕ → FilePath) : Type 0 where
  pub no_colon : (n : ℕ) → All (λ c. c ≢ b':') (decimal n)
  pub injective : (m n : ℕ) → decimal m ≡ decimal n → m ≡ n

first_colon :
    (xs ys u v : FilePath)
    → All (λ c. c ≢ b':') xs
    → All (λ c. c ≢ b':') ys
    → xs ++ (b':' ∷ u) ≡ ys ++ (b':' ∷ v)
    → (xs ≡ ys) × (u ≡ v)
first_colon [] [] u v h k e = (refl, cc e)
first_colon [] (y ∷ ys) u v h k e = absurd (k.0 (let f : y ≡ b':' = cc e in f))
first_colon (x ∷ xs) [] u v h k e = absurd (h.0 (let f : x ≡ b':' = cc e in f))
first_colon (x ∷ xs) (y ∷ ys) u v h k e =
    let same : x ≡ y = cc e in
    let (rest, tail) =
      first_colon xs ys u v h.1 k.1 (let f : xs ++ (b':' ∷ u) ≡ ys ++ (b':' ∷ v) = cc e in f) in
    (ap₂ (λ a l. a ∷ l) same rest, tail)

-- A key tells its spec and its directory, whatever characters they hold.
pub memo_key-injective :
    {decimal : ℕ → FilePath} (d : IsDecimal decimal) (spec base spec' base' : FilePath)
    → memo_key decimal spec base ≡ memo_key decimal spec' base'
    → (spec ≡ spec') × (base ≡ base')
unfolding memo_key
memo_key-injective d spec base spec' base' e =
    let (digits, rest) =
      first_colon _ _ _ _ (d.no_colon (length spec)) (d.no_colon (length spec')) e in
    let long : length spec ≡ length spec' = d.injective _ _ digits in
    (
      sym (take-append_length spec base)
          ∙ ap₂ (λ n l. take n l) long rest
          ∙ take-append_length spec' base',
      sym (drop-append_length spec base)
          ∙ ap₂ (λ n l. drop n l) long rest
          ∙ drop-append_length spec' base',
    )
