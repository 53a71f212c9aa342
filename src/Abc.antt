-- ===== src/Abc.antt =====
-- The u8b buffer of the abc library, which is not part of this repository: its layout
-- (PAST | DATA | IDLE inside one block of memory), the calls that the bindings make on it, and
-- what buf.c and arg.c document of those calls. Other files take the calls as a parameter.
use quickjab.Prelude.{ℕ, ◌+◌, ◌≤◌, ◌<◌, ◌≡◌, List, Bool, true, Option, none, some, length}
use quickjab.Bytes.{overwrite}

-- `mem` is the block, PAST is [0, data), DATA is [data, idle), IDLE is [idle, length mem).
pub record U8b : Type 0 where
  pub mem : List ℕ
  pub data_at : ℕ
  pub idle_at : ℕ

-- `none` is a return code other than OK.
pub record Abc : Type 0 where
  pub feed : U8b → List ℕ → Option U8b
  pub fed : U8b → ℕ → Option U8b
  pub used : U8b → ℕ → Option U8b
  pub sane : U8b → Bool

-- u8bFeed appends to DATA or reports no room, u8bFed commits IDLE bytes, u8bUsed consumes DATA,
-- u8bOK accepts boundaries in their order.
pub record IsLawful (a : Abc) : Type 0 where
  pub feed_fits :
      (b : U8b) (s : List ℕ)
      → b.idle_at + length s ≤ length b.mem
      → a.feed b s
        ≡ some (record b { mem = overwrite b.mem b.idle_at s; idle_at = b.idle_at + length s })
  pub feed_full : (b : U8b) (s : List ℕ) → length b.mem < b.idle_at + length s → a.feed b s ≡ none
  pub fed_fits :
      (b : U8b) (n : ℕ)
      → b.idle_at + n ≤ length b.mem
      → a.fed b n ≡ some (record b { idle_at = b.idle_at + n })
  pub fed_past : (b : U8b) (n : ℕ) → length b.mem < b.idle_at + n → a.fed b n ≡ none
  pub used_fits :
      (b : U8b) (n : ℕ)
      → b.data_at + n ≤ b.idle_at
      → a.used b n ≡ some (record b { data_at = b.data_at + n })
  pub used_past : (b : U8b) (n : ℕ) → b.idle_at < b.data_at + n → a.used b n ≡ none
  pub sane_layout : (b : U8b) → b.data_at ≤ b.idle_at → b.idle_at ≤ length b.mem → a.sane b ≡ true
