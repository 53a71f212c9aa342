-- ===== src/Ulog/Rows.antt =====
-- The rows that a log holds, and that a feed adds one.
use quickjab.Prelude.{
  ℕ, ◌%◌, ◌^◌, ◌+◌, ◌-◌, ◌≤◌, ◌<◌, ◌≡◌, refl, sym, ap, ◌∙◌, subst, inl, inr, List, [], ◌∷◌, ◌++◌,
  Option, none, some, arith, length, take, Bool-cases, leb→le, if◌then◌else◌, ltb, leb,
}
use quickjab.Bytes.{slice, overwrite}
use quickjab.Bytes.Laws.{slice-overwrite_apart, slice-overwrite_self, slice_all, length-overwrite}
use quickjab.Int.{pos}
use quickjab.Outcome.{Outcome, ok, err, ◌>>=◌}
use quickjab.Abc.{Abc, IsLawful, U8b}
use quickjab.Arg.{view_of, number, whole, max_safe, u64_of, buf_fed}
use quickjab.Arg.Numbers.{u64_of_iff}
use quickjab.Arg.Buffers.{IsLayout, data_idle_of, buf_fed_number}
use quickjab.Ulog.{
  Row, UlogLib, Log, feed, feed_leaf, gated_row, appended, written, monotonic, asked_time, as_view,
}

-- What the dog library promises of its row codec: a row is written as some bytes, where there is room
-- for them, and read back from them whatever follows.
pub record IsUlogLib (encode : Row → List ℕ) (lib : UlogLib) : Type 0 where
  pub encode_some : (r : Row) → 0 < length (encode r)
  pub drain_row :
      (r : Row) (rest : List ℕ) → lib.drain (encode r ++ rest) ≡ (some r, length (encode r))
  pub append_fits :
      (b : U8b) (r : Row)
      → b.idle_at + length (encode r) ≤ length b.mem
      → lib.append b r
        ≡ some (record b {
          mem = overwrite b.mem b.idle_at (encode r);
          idle_at = b.idle_at + length (encode r);
        })
  pub append_full :
      (b : U8b) (r : Row) → length b.mem < b.idle_at + length (encode r) → lib.append b r ≡ none
  pub sub_fits : (s : List ℕ) (a b : ℕ) → a ≤ b → b ≤ length s → lib.sub s a b ≡ some (slice s a b)

-- From an offset up to `dl` there are just these rows, each at its offset.
pub data IsRows (encode : Row → List ℕ) (mem : List ℕ) (dl : ℕ) : ℕ → List (ℕ × Row) → Type 0 where
  no_more : IsRows encode mem dl dl []
  then_row :
      (o : ℕ) (r : Row) {rest : List (ℕ × Row)}
      → o + length (encode r) ≤ dl
      → slice mem o (o + length (encode r)) ≡ encode r
      → IsRows encode mem dl (o + length (encode r)) rest
      → IsRows encode mem dl o ((o, r) ∷ rest)

-- A log holds these rows, in memory of a size that a JS number counts.
pub record IsLog (encode : Row → List ℕ) (l : Log) (rows : List (ℕ × Row)) : Type 0 where
  pub laid : IsRows encode l.mem l.watermark 0 rows
  pub within : l.watermark ≤ length l.mem
  pub small : length l.mem ≤ max_safe

ok_pair :
    {A B : Type 0} {a c : A} {b d : B}
    → ◌≡◌ {A = Outcome (A × B)} (ok (a, b)) (ok (c, d))
    → (a ≡ c) × (b ≡ d)
ok_pair e = (cc e, cc e)

module _ (encode : Row → List ℕ) where
  -- A row written behind the rows is one more.
  IsRows-overwrite :
      (mem : List ℕ) (dl : ℕ) (o : ℕ) (r : Row) {rows : List (ℕ × Row)}
      → dl + length (encode r) ≤ length mem
      → IsRows encode mem dl o rows
      → IsRows encode
          (overwrite mem dl (encode r))
          (dl + length (encode r))
          o
          (rows ++ ((dl, r) ∷ []))
  IsRows-overwrite mem dl _ r m no_more =
      then_row dl r (omega arith) (slice-overwrite_self mem dl (encode r) m) no_more
  IsRows-overwrite mem dl _ r m (then_row o q e s rest) =
      then_row o q (omega (arith, e))
        (slice-overwrite_apart mem o (o + length (encode q)) dl (encode r) m (inl e) ∙ s)
        (IsRows-overwrite mem dl _ r m rest)

  fits :
      (b : U8b) (n : ℕ)
      → n ≤ length b.mem - 0
      → (if ltb (length b.mem - 0) n then err "offset is past the end of the buffer" else ok b)
        ≡ ok b
  fits b n h = ground (arith, h)

  module _ {abc : Abc} {lib : UlogLib} (lawful : IsLawful abc) (codec : IsUlogLib encode lib) where
    pub view_of-as_view :
        (mem : List ℕ) → view_of (as_view mem) ≡ ok (record { base = 0; mem = mem })
    unfolding view_of
    view_of-as_view mem =
        let e : 0 + length mem ≡ length mem = omega arith in
        ap (λ k. ok (record { base = 0; mem = slice mem 0 k })) e
        ∙ ap (λ m. ok (record { base = 0; mem = m })) (slice_all mem)

    u64_of-whole : (n : ℕ) → n ≤ max_safe → u64_of (number (whole (pos n))) ≡ ok n
    u64_of-whole n h = (u64_of_iff (number (whole (pos n))) n).1 (refl, h)

    fed_at :
        (mem : List ℕ) (n : ℕ)
        → n ≤ length mem
        → length mem ≤ max_safe
        → buf_fed abc (record { mem = mem; data_at = 0; idle_at = 0 }) (number (whole (pos n)))
          ≡ ok (record { mem = mem; data_at = 0; idle_at = n })
    fed_at mem n h m =
        let b : U8b = record { mem = mem; data_at = 0; idle_at = 0 } in
        let layout : IsLayout b = record { ordered = omega arith; within = omega arith } in
        buf_fed_number lawful b (number (whole (pos n))) layout
          (u64_of-whole n (omega (arith, h, m)))
        ∙ fits (record { mem = mem; data_at = 0; idle_at = 0 + n }) n (omega (arith, h))
        ∙ ap (λ (k : ℕ). ok (record { mem = mem; data_at = 0; idle_at = k })) (omega arith)

    feed_leaf_lem :
        (path_max : ℕ) (mem : List ℕ) (n : ℕ) (verb uri : List ℕ) (ts : ℕ)
        → n ≤ length mem
        → length mem ≤ max_safe
        → feed_leaf abc lib path_max mem (number (whole (pos n))) verb uri ts ≡ (
            gated_row ts (lib.verb_of (take 15 verb)) (lib.canon (take (path_max - 1) uri)) >>= λ r.
            appended (lib.append (record { mem = mem; data_at = 0; idle_at = n }) r))
    unfolding feed_leaf
    feed_leaf_lem path_max mem n verb uri ts h m =
        let then_append : U8b → Outcome (ℕ × List ℕ) = λ c.
          gated_row ts (lib.verb_of (take 15 verb)) (lib.canon (take (path_max - 1) uri)) >>= λ r.
          appended (lib.append c r) in
        ap (λ o. o >>= λ b. buf_fed abc b (number (whole (pos n))) >>= then_append)
          (data_idle_of lawful (as_view mem) _ (view_of-as_view mem)).1
        ∙ ap (λ o. o >>= then_append) (fed_at mem n h m)

    row_added :
        (l : Log) (r : Row) (rows : List (ℕ × Row)) (n : ℕ) (mem : List ℕ)
        → IsLog encode l rows
        → appended (lib.append (record { mem = l.mem; data_at = 0; idle_at = l.watermark }) r)
          ≡ ok (n, mem)
        → (n ≡ l.watermark + length (encode r))
          × (mem ≡ overwrite l.mem l.watermark (encode r))
          × (l.watermark + length (encode r) ≤ length l.mem)
    row_added l r rows n mem i e =
        elim (Bool-cases (leb (l.watermark + length (encode r)) (length l.mem))) [
          | inl f ↦
              let room = leb→le (l.watermark + length (encode r)) (length l.mem) f in
              let g = ap appended (
                codec.append_fits (record { mem = l.mem; data_at = 0; idle_at = l.watermark }) r
                  room) in
              let h : Outcome.ok
                    (l.watermark + length (encode r) - 0, overwrite l.mem l.watermark (encode r))
                  ≡ ok (n, mem) =
                sym g ∙ e in
              let (size, bytes) = ok_pair h in (sym size ∙ omega arith, sym bytes, room)
          | inr f ↦
              let g = ap appended (
                codec.append_full (record { mem = l.mem; data_at = 0; idle_at = l.watermark }) r
                  (ground (arith, f))) in
              let h : Outcome.err "Error: ulog: feed (full?)" ≡ ok (n, mem) = sym g ∙ e in
              absurd (cc h)
        ]

    from_append :
        (l g : Log) (o t : ℕ) (rows : List (ℕ × Row)) (r : Row) (a : Outcome (ℕ × List ℕ))
        → IsLog encode l rows
        → appended (lib.append (record { mem = l.mem; data_at = 0; idle_at = l.watermark }) r) ≡ a
        → written t l a ≡ (ok o, g)
        → (o ≡ l.watermark)
          × IsLog encode g (rows ++ ((l.watermark, r) ∷ []))
          × (g.last_ts ≡ some t)
    from_append l g o t rows r (err x) i a e =
        let f : Outcome.err x ≡ ok o = ap (λ p. p.0) e in absurd (cc f)
    from_append l g o t rows r (ok (n, mem)) i a e =
        let (size, bytes, room) = row_added l r rows n mem i a in
        let f : Outcome.ok l.watermark ≡ ok o = ap (λ p. p.0) e in
        let after : Log = record l { mem = mem; watermark = n; last_ts = some t } in
        let h : after ≡ g = ap (λ p. p.1) e in
        let kept : IsLog encode after (rows ++ ((l.watermark, r) ∷ [])) = record {
          laid = rw (size, bytes) (IsRows-overwrite l.mem l.watermark 0 r room i.laid);
          within = omega (
            arith,
            size,
            room,
            ap length bytes,
            length-overwrite l.mem l.watermark (encode r) room,
          );
          small =
              omega (
                arith,
                i.small,
                ap length bytes,
                length-overwrite l.mem l.watermark (encode r) room,
              );
        } in
        (
          let w : l.watermark ≡ o = cc f in sym w,
          subst (λ k. IsLog encode k (rows ++ ((l.watermark, r) ∷ []))) h kept,
          ap (λ (k : Log). k.last_ts) (sym h),
        )

    from_canon :
        (l g : Log) (o t low v : ℕ) (rows : List (ℕ × Row)) (u : Option (List ℕ))
        → IsLog encode l rows
        → written t l (
            gated_row low v u >>= λ r.
            appended (lib.append (record { mem = l.mem; data_at = 0; idle_at = l.watermark }) r))
          ≡ (ok o, g)
        → (r : Row) × (r.ts ≡ low)
          × (o ≡ l.watermark)
          × IsLog encode g (rows ++ ((l.watermark, r) ∷ []))
          × (g.last_ts ≡ some t)
    from_canon l g o t low v rows none i e =
        let f : Outcome.err "Error: ulog._feed: malformed uri" ≡ ok o = ap (λ p. p.0) e in
        absurd (cc f)
    from_canon l g o t low v rows (some u) i e =
        let r : Row = record { ts = low; row_verb = v; uri = u } in
        let (w, kept, last) = from_append l g o t rows r _ i refl e in (r, refl, w, kept, last)

    -- A feed that returns, returns where the log ended, and leaves it with one row more there, at the
    -- low 64 bits of the time that `monotonic` gives.
    pub feed_lem :
        (path_max : ℕ) (verb uri : List ℕ) (ts : Option ℕ) (l g : Log) (o : ℕ)
        (rows : List (ℕ × Row))
        → IsLog encode l rows
        → feed abc lib path_max verb uri ts l ≡ (ok o, g)
        → (r : Row) × (r.ts ≡ monotonic l.last_ts (asked_time abc lib ts) % 2 ^ 64)
          × (o ≡ l.watermark)
          × IsLog encode g (rows ++ ((l.watermark, r) ∷ []))
          × (g.last_ts ≡ some (monotonic l.last_ts (asked_time abc lib ts)))
    unfolding feed
    feed_lem path_max verb uri ts l g o rows i e =
        let t = monotonic l.last_ts (asked_time abc lib ts) in
        from_canon l g o t (t % 2 ^ 64) (lib.verb_of (take 15 verb)) rows
          (lib.canon (take (path_max - 1) uri)) i
          (ap (written t l) (
              sym (feed_leaf_lem path_max l.mem l.watermark verb uri (t % 2 ^ 64) i.within i.small))
            ∙ e)
