-- ===== src/Buf/Splice.antt =====
-- `splice` edits the live bytes in place: the kept front, the pasted bytes, the kept rest.
use quickjab.Prelude.{ℕ, ◌+◌, ◌-◌, ◌≤◌, ◌≡◌, refl, ◌∙◌, inl, List, ◌++◌, arith, length}
use quickjab.Int.{ℤ, pos, negsuc}
use quickjab.Outcome.{ok}
use quickjab.Bytes.{slice, overwrite}
use quickjab.Bytes.Laws.{
  length-slice, length-overwrite, slice-overwrite_apart, take-slice, drop-slice, copy_within_fits,
  slice-copy-overwrite,
}
use quickjab.Buf.{Buf, splice, splice_at, room, size, past_view}
use quickjab.Buf.Inv.{IsBuf}
use quickjab.Buf.Queue
use quickjab.Buf.Refine.{view, seen_state, live_length}

module _ {b : Buf} (v : IsBuf b) where
  spliced : ℕ → ℕ → List ℕ → List ℕ
  spliced o c p =
      overwrite
        (overwrite b.bytes (b.data_at + o + length p) (slice b.bytes (b.data_at + o + c) b.idle_at))
        (b.data_at + o) p

  splice_at_lem :
      (o c : ℕ) (p : List ℕ)
      → o + c ≤ size b
      → length p ≤ room b + c
      → splice_at o c p b
        ≡ ok (record b { bytes = spliced o c p; idle_at = b.idle_at + length p - c })
  unfolding splice_at spliced
  splice_at_lem o c p h k =
      rw
        (copy_within_fits b.bytes (b.data_at + o + length p) (b.data_at + o + c) b.idle_at
          (omega arith) (omega arith) (omega arith))
        (ground (
          arith,
          length-overwrite b.bytes (b.data_at + o + length p)
              (slice b.bytes (b.data_at + o + c) b.idle_at),
          length-slice b.bytes (b.data_at + o + c) b.idle_at,
        ))

  spliced_views :
      (o c : ℕ) (p : List ℕ)
      → o + c ≤ size b
      → length p ≤ room b + c
      → (length (spliced o c p) ≡ length b.bytes)
        × (slice (spliced o c p) 0 b.data_at ≡ past_view b)
        × (slice (spliced o c p) b.data_at (b.idle_at + length p - c)
            ≡ slice b.bytes b.data_at (b.data_at + o)
              ++ (p ++ slice b.bytes (b.data_at + o + c) b.idle_at))
  unfolding spliced
  spliced_views o c p h k =
      (ground (arith, fits), ground (arith, fits, before), ground (arith, fits, middle))
    where
      open b use {data_at, idle_at, bytes}

      tail : List ℕ
      tail = slice bytes (data_at + o + c) idle_at

      tail_length : length tail ≡ idle_at - (data_at + o + c)
      tail_length = length-slice bytes (data_at + o + c) idle_at (omega arith)

      moved : List ℕ
      moved = overwrite bytes (data_at + o + length p) tail

      moved_length : length moved ≡ length bytes
      moved_length =
          length-overwrite bytes (data_at + o + length p) tail (omega (arith, tail_length))

      fits : length (spliced o c p) ≡ length bytes
      fits = length-overwrite moved (data_at + o) p (omega (arith, moved_length)) ∙ moved_length

      before : slice (spliced o c p) 0 data_at ≡ slice bytes 0 data_at
      before =
          slice-overwrite_apart moved 0 data_at (data_at + o) p (omega (arith, moved_length))
            (inl (omega arith))
          ∙ slice-overwrite_apart bytes 0 data_at (data_at + o + length p) tail
              (omega (arith, tail_length)) (inl (omega arith))

      middle :
          slice (spliced o c p) data_at (data_at + o + length p + (idle_at - (data_at + o + c)))
          ≡ slice bytes data_at (data_at + o) ++ (p ++ tail)
      middle =
          slice-copy-overwrite bytes data_at (data_at + o) (data_at + o + length p)
            (data_at + o + c) idle_at p (omega arith) refl (omega arith) (omega arith) (omega arith)
            (omega arith)

  pub splice_refines :
      (off cut : ℤ) (p : List ℕ) → seen_state (splice off cut p b) ≡ Queue.splice off cut p (view b)
  unfolding splice Queue.splice
  splice_refines (pos o) (pos c) p = ground (
    arith,
    live_length v,
    splice_at_lem o c p,
    spliced_views o c p,
    take-slice b.bytes b.data_at b.idle_at o,
    drop-slice b.bytes b.data_at b.idle_at (o + c),
  )
  splice_refines (pos o) (negsuc c) p = refl
  splice_refines (negsuc o) cut p = refl

  pub splice-IsBuf : (off cut : ℤ) (p : List ℕ) {c : Buf} → splice off cut p b ≡ ok c → IsBuf c
  unfolding splice
  splice-IsBuf (pos o) (pos c) p e = ground (arith, splice_at_lem o c p, spliced_views o c p)
  splice-IsBuf (pos o) (negsuc c) p e = ground arith
  splice-IsBuf (negsuc o) cut p e = ground arith
