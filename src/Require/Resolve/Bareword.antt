-- ===== src/Require/Resolve/Bareword.antt =====
-- What a bareword resolves to, and the bases under which none resolves.
use quickjab.Prelude.{
  ap₂, All-append, ◌⊎◌, All, All-reverse, if◌then◌else◌, ◌≡◌, ◌≢◌, refl, sym, ap, ◌∙◌, subst, true,
  inl, inr, String, arith, length, take, ◌++◌, take-append_length,
}
use mathlib.Core.List.{List, [], ◌∷◌, reverse, append_assoc, reverse-reverse}
use quickjab.Outcome.{ok, err, ◌>>=◌, Outcome-cases}
use quickjab.Require.Path.{FilePath, slash, split, join, is_absolute, is_skipped, parts, normalize}
use quickjab.Require.Path.Normal.{IsName, IsStack}
use quickjab.Require.Path.Idempotent.{rejoin}
use quickjab.Require.Resolve.{
  World, Pins, path_eq, pin_base, try_under, resolve_jsrc, dot_js, slash_jsrc,
}
use quickjab.Require.Resolve.Inside.{path_eq_refl, try_under-Below}

odd_not_normal : (root : FilePath) → (root ≡ []) ⊎ (root ≡ slash_jsrc) → ¬ (All IsName (split root))
unfolding split is_skipped
odd_not_normal root (inl e) h = let n : All IsName (split []) = rw e at h in cc (n.0.kept)
odd_not_normal root (inr e) h = let n : All IsName (split slash_jsrc) = rw e at h in cc (n.0.kept)

names-IsStack : (l : List FilePath) → All IsName l → IsStack true l
names-IsStack [] h = tt
names-IsStack (s ∷ l) h = inl (h.0, names-IsStack l h.1)

-- A path of names behind a slash is its own normal form.
normalize_names : (l : List FilePath) → All IsName l → normalize (slash ∷ join l) ≡ slash ∷ join l
unfolding normalize
normalize_names l h =
    subst (λ k. normalize (slash ∷ join k) ≡ slash ∷ join k) (reverse-reverse l)
      (ap₂ (λ b k. (if b then slash ∷ [] else []) ++ join k) again.0 again.1)
  where
    again :
        (is_absolute (slash ∷ join (reverse (reverse l))) ≡ true)
        × (parts (slash ∷ join (reverse (reverse l))) ≡ reverse (reverse l))
    again = rejoin true (reverse l) (names-IsStack (reverse l) (All-reverse IsName l h))

join-append :
    (bs ns : List FilePath) → bs ≢ [] → ns ≢ [] → join (bs ++ ns) ≡ join bs ++ (slash ∷ join ns)
unfolding join
join-append [] ns h k = absurd (h refl)
join-append (b ∷ []) [] h k = absurd (k refl)
join-append (b ∷ []) (n ∷ ns) h k = refl
join-append (b ∷ c ∷ bs) ns h k =
    ap (λ r. b ++ (slash ∷ r)) (join-append (c ∷ bs) ns (λ e. cc) k)
    ∙ sym (append_assoc b (slash ∷ join (c ∷ bs)) (slash ∷ join ns))

module _ (w : World) (s : Pins) (spec : FilePath) where
  resolve_jsrc_pinned :
      (base : FilePath) (t : Pins)
      → pin_base w s ≡ ok (base, t)
      → resolve_jsrc w s spec ≡ (try_under w base (spec ∷ (spec ++ dot_js) ∷ []) >>= λ c. ok (c, t))
  unfolding resolve_jsrc
  resolve_jsrc_pinned base t e = rw e

  resolved_by_try :
      (base : FilePath) (t : Pins) {c : FilePath} {u : Pins}
      → pin_base w s ≡ ok (base, t)
      → resolve_jsrc w s spec ≡ ok (c, u)
      → (try_under w base (spec ∷ (spec ++ dot_js) ∷ []) ≡ ok c) × (u ≡ t)
  resolved_by_try base t {c} {u} pinned e =
      elim (Outcome-cases (try_under w base (spec ∷ (spec ++ dot_js) ∷ []))) [
        | inl (d, f) ↦
            let g : ok (d, t) ≡ ok (c, u) = rw (resolve_jsrc_pinned base t pinned, f, ◌>>=◌) at e in
            (f ∙ ap ok (cc g), cc g)
        | inr (x, f) ↦
            let g : err x ≡ ok (c, u) = rw (resolve_jsrc_pinned base t pinned, f, ◌>>=◌) at e in
            absurd (ground (arith, g))
      ]

  -- A bareword that resolves, resolves inside the require base: to a regular file whose path is the
  -- base, a slash, and names (no `..`, no `.`, nothing empty). This holds for an absolute base.
  pub resolve_jsrc_inside :
      (root : FilePath) {t : Pins} {c : FilePath} {u : Pins}
      → pin_base w s ≡ ok (slash ∷ root, t)
      → resolve_jsrc w s spec ≡ ok (c, u)
      → (tail : FilePath) × (c ≡ (slash ∷ root) ++ (slash ∷ tail))
        × All IsName (split tail)
        × (w.is_file c ≡ true)
        × (u ≡ t)
  resolve_jsrc_inside root {t} pinned e =
      let tried = resolved_by_try (slash ∷ root) t pinned e in
      let below = try_under-Below w root (spec ∷ (spec ++ dot_js) ∷ []) tried.0 in
      (below.0, below.1, below.2, below.3, tried.1)

  -- Where the base is `/` (a script in the root directory) or `//jsrc` (a jsrc/ there), every
  -- bareword is refused, whatever files there are.
  pub odd_base_refused :
      (root : FilePath) {t : Pins}
      → (root ≡ []) ⊎ (root ≡ slash_jsrc)
      → pin_base w s ≡ ok (slash ∷ root, t)
      → (e : String) × (resolve_jsrc w s spec ≡ err e)
  odd_base_refused root {t} odd pinned = elim (Outcome-cases (resolve_jsrc w s spec)) [
    | inr (x, e) ↦ (x, e)
    | inl (r, e) ↦ absurd (
        odd_not_normal root odd
          (try_under-Below w root (spec ∷ (spec ++ dot_js) ∷ [])
            (resolved_by_try (slash ∷ root) t {c = r.0} {u = r.1} pinned e).0).4)
  ]

-- A bareword of names that is a file under an absolute base of names, at least one of each, resolves
-- to that file.
pub bareword_found :
    (w : World) (s : Pins) (bs ns : List FilePath) {t : Pins}
    → All IsName bs
    → All IsName ns
    → bs ≢ []
    → ns ≢ []
    → pin_base w s ≡ ok (slash ∷ join bs, t)
    → w.is_file ((slash ∷ join bs) ++ (slash ∷ join ns)) ≡ true
    → resolve_jsrc w s (join ns) ≡ ok ((slash ∷ join bs) ++ (slash ∷ join ns), t)
unfolding try_under
bareword_found w s bs ns {t} hb hn nb nn pinned file =
    rw (resolve_jsrc_pinned w s (join ns) (slash ∷ join bs) t pinned, whole, prefixed, file)
  where
    under : FilePath
    under = (slash ∷ join bs) ++ (slash ∷ [])

    glue : under ++ join ns ≡ slash ∷ join (bs ++ ns)
    glue =
        append_assoc (slash ∷ join bs) (slash ∷ []) (join ns)
        ∙ ap (λ r. slash ∷ r) (sym (join-append bs ns nb nn))

    whole : normalize (under ++ join ns) ≡ (slash ∷ join bs) ++ (slash ∷ join ns)
    whole =
        ap normalize glue
        ∙ normalize_names (bs ++ ns) (All-append IsName bs ns hb hn)
        ∙ ap (λ r. slash ∷ r) (join-append bs ns nb nn)

    prefixed : path_eq (take (length under) ((slash ∷ join bs) ++ (slash ∷ join ns))) under ≡ true
    prefixed =
        ap (λ p. path_eq (take (length under) p) under)
          (sym (append_assoc (slash ∷ join bs) (slash ∷ []) (join ns)))
        ∙ ap (λ p. path_eq p under) (take-append_length under (join ns))
        ∙ path_eq_refl under
