-- ===== src/Ulog/Scan.antt =====
-- The forward seek finds the first row that matches.
use quickjab.Prelude.{
  ◌&&◌, drop, take-append_length, take-append-drop, length-append, ◌⊎◌, Bool, take, All, inr, leb,
  Bool-cases, subst, inl, if_cases, ℕ, zero, suc, ◌+◌, ◌≤◌, ◌≡◌, refl, sym, ap, ◌∙◌, true, false,
  List, [], ◌∷◌, ◌++◌, Option, none, some, arith, length, lt→ltb, if◌then◌else◌, ltb, ◌==◌,
}
use quickjab.Bytes.{slice}
use quickjab.Bytes.Laws.{slice-append-slice}
use quickjab.Abc.{Abc}
use quickjab.Ulog.{
  Row, UlogLib, Key, by_verb, by_time, by_uri, same_bytes, uri_text, is_hit, scan, scan_forward,
}
use quickjab.Ulog.Rows.{IsUlogLib, IsRows, no_more, then_row}

-- What a forward seek looks for.
abbrev pub Matches : Key → Row → Type 0
Matches (by_verb v) r = r.row_verb ≡ v
Matches (by_time t) r = t ≤ r.ts
Matches (by_uri p) r = (rest : List ℕ) × (r.uri ≡ p ++ rest)

-- The answer is the offset of the first row that matches, or none where none does.
abbrev pub IsFirst : Key → List (ℕ × Row) → Option ℕ → Type 0
IsFirst key rows answer =
    ((before : List (ℕ × Row)) × (o : ℕ) × (r : Row) × (after : List (ℕ × Row)) × (rows
        ≡ before ++ ((o, r) ∷ after))
      × All (λ x. ¬ Matches key x.1) before
      × Matches key r
      × (answer ≡ some o))
    ⊎ (All (λ x. ¬ Matches key x.1) rows × (answer ≡ none))

abbrev pub AllShort : List (ℕ × Row) → Type 0
AllShort rows = All (λ x. length x.1.uri ≤ 2048) rows

same_bytes-eq : (a b : List ℕ) → same_bytes a b ≡ true → a ≡ b
same_bytes-eq [] [] e = refl
same_bytes-eq [] (y ∷ b) e = cc e
same_bytes-eq (x ∷ a) [] e = cc e
same_bytes-eq (x ∷ a) (y ∷ b) e = elim (Bool-cases (x == y)) [
  | inl h ↦
      let same : x ≡ y = ground (arith, h) in
      let rest : a ≡ b = same_bytes-eq a b (ap (λ c. c && same_bytes a b) (sym h) ∙ e) in
      cc (same, rest)
  | inr h ↦ absurd (cc (ap (λ c. c && same_bytes a b) (sym h) ∙ e))
]

same_bytes_refl : (a : List ℕ) → same_bytes a a ≡ true
same_bytes_refl [] = refl
same_bytes_refl (x ∷ a) =
    let h : (x == x) ≡ true = ground arith in ap (λ c. c && same_bytes a a) h ∙ same_bytes_refl a

short_text : (r : Row) → length r.uri ≤ 2048 → uri_text 2048 r ≡ r.uri
short_text r h =
    if_cases (λ l. l ≡ r.uri) (ltb 2048 (length r.uri)) (λ e. absurd (ground (arith, h, e)))
      (λ e. refl)

and_right : (a b : Bool) → (a && b) ≡ true → b ≡ true
and_right true b e = e
and_right false b e = cc e

hit-Matches :
    (key : Key) (r : Row) → length r.uri ≤ 2048 → is_hit false key r ≡ true → Matches key r
unfolding is_hit
hit-Matches (by_verb v) r h e = ground (arith, e)
hit-Matches (by_time t) r h e = ground (arith, e)
hit-Matches (by_uri p) r h e =
    let f : (leb (length p) (length r.uri) && same_bytes (take (length p) r.uri) p) ≡ true =
      ap (λ u. leb (length p) (length u) && same_bytes (take (length p) u) p) (sym (short_text r h))
      ∙ e in
    let front : take (length p) r.uri ≡ p =
      same_bytes-eq (take (length p) r.uri) p (and_right _ _ f) in
    (
      drop (length p) r.uri,
      sym (take-append-drop (length p) r.uri) ∙ ap (λ l. l ++ drop (length p) r.uri) front,
    )

Matches-hit :
    (key : Key) (r : Row) → length r.uri ≤ 2048 → Matches key r → is_hit false key r ≡ true
unfolding is_hit
Matches-hit (by_verb v) r h m = ground (arith, m)
Matches-hit (by_time t) r h m = ground (arith, m)
Matches-hit (by_uri p) r h (rest, m) =
    let fits : leb (length p) (length (p ++ rest)) ≡ true = ground (arith, length-append p rest) in
    ap (λ u. leb (length p) (length u) && same_bytes (take (length p) u) p) (short_text r h ∙ m)
    ∙ ap (λ c. c && same_bytes (take (length p) (p ++ rest)) p) fits
    ∙ ap (λ l. same_bytes l p) (take-append_length p rest)
    ∙ same_bytes_refl p

-- The offset of the first row that the forward tests of a key accept.
abbrev pub first_hit : Key → List (ℕ × Row) → Option ℕ
first_hit key [] = none
first_hit key ((o, r) ∷ rows) = if is_hit false key r then some o else first_hit key rows

one_on :
    (key : Key) (o : ℕ) (r : Row) (rows : List (ℕ × Row)) (answer : Option ℕ)
    → ¬ Matches key r
    → IsFirst key rows answer
    → IsFirst key ((o, r) ∷ rows) answer
one_on key o r rows answer miss (inl (before, q, s, after, split, none_of, hit, is)) =
    inl ((o, r) ∷ before, q, s, after, ap (λ l. (o, r) ∷ l) split, (miss, none_of), hit, is)
one_on key o r rows answer miss (inr (none_of, is)) = inr ((miss, none_of), is)

first_hit-IsFirst :
    (key : Key) (rows : List (ℕ × Row)) → AllShort rows → IsFirst key rows (first_hit key rows)
first_hit-IsFirst key [] h = inr (tt, refl)
first_hit-IsFirst key ((o, r) ∷ rows) h = elim (Bool-cases (is_hit false key r)) [
  | inl hit ↦ inl (
    [],
    o,
    r,
    rows,
    refl,
    tt,
    hit-Matches key r h.0 hit,
    ap (λ c. if c then some o else first_hit key rows) hit,
  )
  | inr miss ↦
      let missed : ¬ Matches key r = λ m. cc (miss, Matches-hit key r h.0 m) in
      let on : first_hit key ((o, r) ∷ rows) ≡ first_hit key rows =
        ap (λ c. if c then some o else first_hit key rows) miss in
      subst (IsFirst key ((o, r) ∷ rows)) (sym on)
        (one_on key o r rows (first_hit key rows) missed (first_hit-IsFirst key rows h.1))
]

module _ {encode : Row → List ℕ} (abc : Abc) {lib : UlogLib} (codec : IsUlogLib encode lib) where
  -- What is read at a row.
  pub drain_at :
      (mem : List ℕ) (dl o : ℕ) (r : Row)
      → o + length (encode r) ≤ dl
      → dl ≤ length mem
      → slice mem o (o + length (encode r)) ≡ encode r
      → lib.drain (slice mem o dl) ≡ (some r, length (encode r))
  drain_at mem dl o r h m e =
      let split = slice-append-slice mem o (o + length (encode r)) dl (omega arith) h m in
      ap lib.drain (sym split ∙ ap (λ s. s ++ slice mem (o + length (encode r)) dl) e)
      ∙ codec.drain_row r (slice mem (o + length (encode r)) dl)

  scan_forward_lem :
      (fuel : ℕ) (mem : List ℕ) (dl : ℕ) (key : Key) (o : ℕ) (rows : List (ℕ × Row))
      → dl ≤ length mem
      → dl ≤ o + fuel
      → IsRows encode mem dl o rows
      → scan_forward abc lib fuel mem dl key o ≡ first_hit key rows
  unfolding scan_forward
  scan_forward_lem zero mem dl key _ _ m f no_more = refl
  scan_forward_lem (suc fuel) mem dl key _ _ m f no_more = ground arith
  scan_forward_lem zero mem dl key _ _ m f (then_row o r h e rest) =
      absurd (omega (arith, f, h, codec.encode_some r))
  scan_forward_lem (suc fuel) mem dl key _ _ m f (then_row o r {rest} h e more) =
      let d = drain_at mem dl o r h m e in
      let n = codec.encode_some r in
      let on =
        scan_forward_lem fuel mem dl key (o + length (encode r)) rest m (omega (arith, f, n))
          more in
      let inside : ltb o dl ≡ true = lt→ltb o dl (omega (arith, h, n)) in
      let moves : (length (encode r) == 0) ≡ false = ground (arith, n) in
      rw (d, inside, moves, on) refl

  -- A forward seek from a row of a log whose rows are laid up to `dl` returns the offset of the first
  -- row from there on that matches, and nothing where none does: a verb is equal, a time is not
  -- below the one sought, a URI begins with the prefix. The codec reads back what it writes, and no
  -- URI is longer than 2048 bytes.
  pub scan-IsFirst :
      (mem : List ℕ) (dl : ℕ) (key : Key) (o : ℕ) (rows : List (ℕ × Row))
      → dl ≤ length mem
      → IsRows encode mem dl o rows
      → AllShort rows
      → IsFirst key rows (scan abc lib mem o dl false key)
  unfolding scan
  scan-IsFirst mem dl key o rows m i short =
      subst (IsFirst key rows) (sym (scan_forward_lem dl mem dl key o rows m (omega arith) i))
        (first_hit-IsFirst key rows short)
