-- ===== src/Cont/Pack.antt =====
-- The pack log of cont.c: its cursor, the getters of a record, and the scratch memory that is grown
-- until a record fits. The native leaves on the pack are a parameter.
use quickjab.Prelude.{
  ◌%◌, if_cases, ℕ, zero, suc, ◌+◌, ◌-◌, ◌*◌, ◌^◌, ◌≤◌, ◌<◌, ◌≡◌, refl, ap, ◌∙◌, inl, inr, Bool,
  true, false, Option, none, some, String, arith, ltb, Bool-cases, ltb→lt, if◌then◌else◌, subst,
}
use quickjab.Int.{ℤ, pos, negsuc}
use quickjab.Outcome.{Outcome, ok, err}
use quickjab.Net.Timers.{to_int32}
use quickjab.Hash.Shape.{pow_grows}

-- The lengths of `_bsc` and `_dsc`; 0 where there are none.
pub record Scratch : Type 0 where
  pub base : ℕ
  pub delta : ℕ

abbrev pub scratch_min : ℕ
scratch_min = 65536

-- `need ? (need | 0) : SCRATCH_MIN`, and not below SCRATCH_MIN
abbrev pub at_least_min : ℤ → ℕ
at_least_min (pos n) = if ltb n scratch_min then scratch_min else n
at_least_min (negsuc n) = scratch_min

-- `P._scratch`
unfoldable pub scratch : ℕ → Scratch → Scratch
scratch need s =
    let n = at_least_min (to_int32 need) in
    if ltb s.base n then record { base = n; delta = 2 * n } else s

module _ {A : Type 0} (op : Scratch → Outcome A) (is_noroom : String → Bool) where
  abbrev pub grown : Outcome A → Scratch → (Scratch → Outcome A × Scratch) → Outcome A × Scratch
  grown (ok a) s again = (ok a, s)
  grown (err e) s again = if is_noroom e then again (scratch (s.base * 2) s) else (err e, s)

  -- The loop of `P._grow`, with its tries.
  unfoldable pub attempts : ℕ → Scratch → Outcome A × Scratch
  unfolding scratch
  attempts zero s = (err "pack: scratch exhausted", s)
  attempts (suc tries) s = grown (op s) s (attempts tries)

  -- `P._grow`
  unfoldable pub grow_scratch : ℕ → Scratch → Outcome A × Scratch
  unfolding attempts scratch
  grow_scratch need s = attempts 40 (scratch need s)

scratch_doubles :
    (s : Scratch)
    → scratch_min ≤ s.base
    → s.base < 2 ^ 30
    → (scratch (s.base * 2) s).base ≡ s.base * 2
unfolding scratch
scratch_doubles s a b = ground (arith, a, b)

scratch_min_lem : (need : ℕ) (s : Scratch) → scratch_min ≤ (scratch need s).base
unfolding scratch
scratch_min_lem need s = from (at_least_min (to_int32 need)) (least (to_int32 need))
  where
    least : (z : ℤ) → scratch_min ≤ at_least_min z
    least (pos n) = ground arith
    least (negsuc n) = omega arith

    from :
        (n : ℕ)
        → scratch_min ≤ n
        → scratch_min ≤ (if ltb s.base n then record { base = n; delta = 2 * n } else s).base
    from n h =
        if_cases (λ (t : Scratch). scratch_min ≤ t.base) (ltb s.base n) (λ e. h)
          (λ e. ground (arith, h, e))

module _ {A : Type 0} (op : Scratch → Outcome A) (is_noroom : String → Bool) (enough : ℕ) where
  -- The operation succeeds where the base scratch is large enough, and reports no room elsewhere.
  pub record IsSized : Type 0 where
    pub fits : (s : Scratch) → enough ≤ s.base → (a : A) × (op s ≡ ok a)
    pub too_small :
        (s : Scratch) → s.base < enough → (e : String) × (op s ≡ err e) × (is_noroom e ≡ true)

  -- At a scratch that is large enough.
  fitting :
      (tries : ℕ) (s : Scratch)
      → IsSized
      → enough ≤ s.base
      → (a : A) × ((attempts op is_noroom (suc tries) s).0 ≡ ok a)
  unfolding attempts
  fitting tries s sized h =
      let (a, f) = sized.fits s h in
      (a, ap (λ o. (grown op is_noroom o s (attempts op is_noroom tries)).0) f)

  attempts_lem :
      (tries k : ℕ) (s : Scratch)
      → IsSized
      → enough ≤ 2 ^ 30
      → 30 ≤ k + tries
      → scratch_min ≤ s.base
      → 2 ^ k ≤ s.base
      → (a : A) × ((attempts op is_noroom (suc tries) s).0 ≡ ok a)
  unfolding attempts
  attempts_lem zero k s sized small t least m =
      let back : 30 + (k - 30) ≡ k = omega (arith, t) in
      let large : 2 ^ 30 ≤ 2 ^ k = subst (λ j. 2 ^ 30 ≤ 2 ^ j) back (pow_grows 30 (k - 30)) in
      fitting 0 s sized (omega (arith, small, large, m))
  attempts_lem (suc tries) k s sized small t least m = elim (Bool-cases (ltb s.base enough)) [
    | inr e ↦ fitting (suc tries) s sized (ground (arith, e))
    | inl e ↦
        let below = ltb→lt s.base enough e in
        let (x, f, g) = sized.too_small s below in
        let d = scratch_doubles s least (omega (arith, below, small)) in
        let (a, r) =
          attempts_lem tries (suc k) (scratch (s.base * 2) s) sized small (omega (arith, t))
            (omega (arith, d, least)) (omega (arith, d, m)) in
        let next : Outcome A × Scratch =
          attempts op is_noroom (suc tries) (scratch (s.base * 2) s) in
        (
          a,
          ap (λ o. (grown op is_noroom o s (attempts op is_noroom (suc tries))).0) f
              ∙ ap (λ b. (if b then next else (err x, s)).0) g
              ∙ r,
        )
  ]

  -- `P._grow` returns what the operation does once its scratch is large enough, if 1 GiB is: whatever
  -- it starts from, 40 tries are enough. The operation reports no room until then.
  pub grow_scratch_succeeds :
      (need : ℕ) (s : Scratch)
      → IsSized
      → enough ≤ 2 ^ 30
      → (a : A) × ((grow_scratch op is_noroom need s).0 ≡ ok a)
  unfolding grow_scratch
  grow_scratch_succeeds need s sized small =
      let m = scratch_min_lem need s in
      attempts_lem 39 16 (scratch need s) sized small (omega arith) m (omega (arith, m))

-- The cursor of a pack: `_read`, `_rec` and `buffer.watermark`.
pub record PackCursor : Type 0 where
  pub read : ℕ
  pub rec : ℤ
  pub watermark : ℕ

abbrev pub off_record : ℤ
off_record = negsuc 0

-- `P.rewind` of a pack: behind its 12 bytes of header.
unfoldable pub pack_rewind : PackCursor → PackCursor
pack_rewind c = record c { read = 12; rec = off_record }

abbrev pub stepped : ℤ → PackCursor → Outcome ℤ → Outcome Bool × PackCursor
stepped at c (err e) = (err e, c)
stepped at c (ok (negsuc n)) = (ok false, c)
stepped at c (ok (pos e)) = (ok true, record c { rec = at; read = e })

-- A refused offset leaves the cursor on no record.
abbrev pub sought_at : ℤ → PackCursor → Outcome ℤ → Outcome Bool × PackCursor
sought_at at c (err e) = (err e, c)
sought_at at c (ok (negsuc n)) = (ok false, record c { rec = off_record })
sought_at at c (ok (pos e)) = (ok true, record c { rec = at; read = e })

-- `z | 0`
abbrev pub low_word : ℤ → ℤ
low_word (pos n) = to_int32 n
low_word (negsuc n) = to_int32 (2 ^ 32 - 1 - n % 2 ^ 32)

-- `P._at`
abbrev pub is_positioned : PackCursor → Bool
is_positioned c = elim (low_word c.rec) [ pos n ↦ true | negsuc n ↦ false ]

-- A getter of the record under the cursor, where `field` is its native leaf; `none` is undefined.
unfoldable pub record_field : {A : Type 0} → (ℤ → A) → PackCursor → Option A
record_field field c = if is_positioned c then some (field c.rec) else none

abbrev pub not_negative : Option ℤ → Option ℕ
not_negative (some (pos n)) = some n
not_negative _ = none

-- `baseOffset`, where -1 of the leaf is undefined too
unfoldable pub base_offset : (ℤ → ℤ) → PackCursor → Option ℕ
unfolding record_field
base_offset leaf c = not_negative (record_field leaf c)

-- `_pack_next` on the pack, of an offset and of `watermark | 0`
module _ (leaf : ℤ → ℤ → Outcome ℤ) where
  -- `P.next`
  unfoldable pub pack_next : PackCursor → Outcome Bool × PackCursor
  pack_next c = stepped (to_int32 c.read) c (leaf (to_int32 c.read) (to_int32 c.watermark))

  -- `P.seek` of a whole number
  unfoldable pub pack_seek : ℤ → PackCursor → Outcome Bool × PackCursor
  pack_seek off c = sought_at off c (leaf off (to_int32 c.watermark))

  -- An offset that the pack refuses takes the cursor off its record: whatever it was on before, every
  -- getter is then undefined, and the next step goes on from where the cursor would have gone.
  pub pack_seek_refused :
      {A : Type 0} (off : ℤ) (c : PackCursor) (n : ℕ) (field : ℤ → A) (base : ℤ → ℤ)
      → leaf off (to_int32 c.watermark) ≡ ok (negsuc n)
      → let r = pack_seek off c in
        (r.0 ≡ ok false)
        × (record_field field r.1 ≡ none)
        × (base_offset base r.1 ≡ none)
        × (r.1.read ≡ c.read)
  unfolding pack_seek record_field base_offset
  pack_seek_refused off c n field base e = rw e (refl, refl, refl, refl)
