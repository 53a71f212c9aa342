-- ===== src/Buf/Io.antt =====
-- `io.readAll` and `io.writeAll` of buf.c on a Buf, over the leaves of io.c, which repeat a call that
-- a signal interrupted. What read(2) and write(2) answer is given, call by call.
pub mod Whole
use quickjab.Prelude.{ℕ, ◌+◌, List, [], ◌∷◌, ◌++◌, String, ltb, ◌==◌, if◌then◌else◌, length, take}
use quickjab.Bytes.{overwrite}
use quickjab.Buf.{Buf, size, room, data_view}

-- An answer to write(2): a count, EINTR, or another error with its text.
pub data Written : Type 0 where
  wrote : ℕ → Written
  write_again : Written
  write_failed : String → Written

-- An answer to read(2): the bytes (none at the end), EINTR, or another error with its text.
pub data Gotten : Type 0 where
  read_bytes : List ℕ → Gotten
  read_again : Gotten
  read_failed : String → Gotten

-- How a loop ended: it returned, it threw, or the answers given ended first.
pub data End : Type 0 where
  returned : End
  threw : String → End
  unanswered : End

-- The Buf, the total, and the bytes that went out or came in, so far.
pub record Job : Type 0 where
  pub buf : Buf
  pub total : ℕ
  pub passed : List ℕ

-- `b._data += n`, with the n bytes that went out.
abbrev pub wrote_some : ℕ → Job → Job
wrote_some n j = record {
  buf = record (j.buf) { data_at = (j.buf).data_at + n };
  total = j.total + n;
  passed = j.passed ++ take n (data_view j.buf);
}

-- `while (b.size > 0) { n = io.write(fd, b); if (n <= 0) break; t += n; }`
unfoldable pub write_all : List Written → Job → Job × End
write_all [] j = if size j.buf == 0 then (j, returned) else (j, unanswered)
write_all (write_again ∷ k) j =
    let rest = write_all k j in if size j.buf == 0 then (j, returned) else rest
write_all (write_failed e ∷ k) j = if size j.buf == 0 then (j, returned) else (j, threw e)
write_all (wrote n ∷ k) j =
    let rest = write_all k (wrote_some n j) in
    if size j.buf == 0 then (j, returned) else if n == 0 then (j, returned) else rest

-- The bytes are in IDLE, and `b._idle += n`.
abbrev pub read_some : List ℕ → Job → Job
read_some x j = record {
  buf = record (j.buf) {
    bytes = overwrite (j.buf).bytes (j.buf).idle_at x;
    idle_at = (j.buf).idle_at + length x;
  };
  total = j.total + length x;
  passed = j.passed ++ x;
}

-- `while (b.room > 0 && (n = io.read(fd, b)) > 0) t += n;`
unfoldable pub read_all : List Gotten → Job → Job × End
read_all [] j = if room j.buf == 0 then (j, returned) else (j, unanswered)
read_all (read_again ∷ k) j =
    let rest = read_all k j in if room j.buf == 0 then (j, returned) else rest
read_all (read_failed e ∷ k) j = if room j.buf == 0 then (j, returned) else (j, threw e)
read_all (read_bytes x ∷ k) j =
    let rest = read_all k (read_some x j) in
    if room j.buf == 0 then (j, returned) else if length x == 0 then (j, returned) else rest
