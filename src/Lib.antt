-- ===== src/Lib.antt =====
-- quickjab: a JavaScript runtime around QuickJS. Its C files are leaves over the abc and dog
-- libraries, and JavaScript bundles that are kept in C string literals and run at start. This
-- development models the parts with logic of their own, each from the code itself, JavaScript or C.
--
-- The parts and their files:
-- * Buf (Buf.antt, from buf.c): the cursor class, a byte array with the boundaries PAST, DATA and
--   IDLE. Each method is a function from the object to its answer and the new object, or the text
--   thrown. Buf/Inv has the invariant, Buf/Queue the abstract queue, Buf/Refine and Buf/Splice one
--   lemma for each method, Buf/Ops sequences of calls, Buf/Text `feedStr`, Buf/Io the loops of
--   io.readAll and io.writeAll over the leaves of io.c.
-- * Argument gates (Arg.antt, from arg.c): JS values to C numbers, and typed arrays to buffers. The
--   u8b calls of abc are a parameter (Abc.antt), with what the code relies on of them.
--   Arg/RunList has the arrays of runs, Arg/PathText the paths.
-- * Encoding (Utf8.antt, from utf8.c): `encodeInto`, the copy that is cut between characters.
-- * Modules (Require/, from require.c): Require/Path has `normalize`, Require/Resolve the require
--   base, the climb to a jsrc/ directory, and resolution, Require/Memo the memo of resolutions, Require/Load
--   the cache of modules, where the evaluation of a module is a parameter. The file system is a
--   parameter (World).
-- * HEAP containers (Heap.antt, from heap.c and the prototypes of cont.c): push, pop, feed and peek of
--   an array whose watermark the JS side keeps. Heap/Lanes has the marshal shapes, Heap/Verbs what one
--   call does, Heap/Order and Heap/Feed sequences of calls. A lane is a parameter, and so is the HEAP
--   template of abc (HeapLib).
-- * HASH containers (Hash.antt, from hash.c): put, get, del, and the shape of a table (Hash/Shape). The
--   HASH template is a parameter (HashLib).
-- * Containers (Cont.antt, from cont.c): the lanes, how heap.c and hash.c instantiate them (Cont/Lanes),
--   the bytes of a family (Cont/Size), the
--   constructors, `abc.close` (Cont/Close), and the cursor and the scratch memory of a pack
--   (Cont/Pack). The mapping calls of io.c are a parameter (Io).
-- * Logs (Ulog.antt, from ulog.c and the ULOG prototype of cont.c): rows appended to an array, the
--   cursor (Ulog/Cursor), the scan of the seeks (Ulog/Scan), feed after feed (Ulog/Fed). The row codec
--   of dog is a parameter (UlogLib).
-- * Index leaves (Pup.antt, from pup.c): the page table of a run (Pup/Page, Pup/Window, Pup/Lookup), the
--   table of open stacks and the ArrayBuffers lent to JS (Pup/Table, Pup/Views), the leaves that change
--   it (Pup/Leaves) and those that read in order (Pup/Scan, Pup/RangeRows), what a program can do with
--   them (Pup/Program), also during a scan and with all lanes (Pup/Scanned, Pup/ScanMark). DOGPup of dog, with its disk, and the merge heap HIT of abc are parameters.
-- * Poll bridge (Pol.antt, from pol.c): the table of handlers, the routers, the trampolines that C calls,
--   and the exception that is kept while the loop runs. The loop of abc/POL is a step relation (Pol/Run).
-- * Sockets (Net/Socket, from net.c): the Socket class with its write FIFO, which is the Buf above;
--   the kernel, `pol.more` and the listeners are a parameter (Env), and what happened is a history.
-- * Timers (Net/Timers, from net.c and pol.c): the timer wheel, and the one poll timer that drives it.
-- * Start (Main.antt, from main.c): the command line, the entry, `process.argv` and the exit code.
-- * Hashlets (Cfold.antt, from cfold.c): 64-bit ids as hexadecimal text.
-- Prelude, Outcome, Int and Bytes hold what the parts share; Tests has runs on concrete inputs.
--
-- Conventions: a throw is an `err` with its text (where the code adds names to the text, its
-- beginning). A JS number that counts bytes or entries is a natural number or a whole number; a
-- double is told apart only as the number gates do it. The 32-bit conversion of `x | 0` and the
-- 64-bit shift are written out.
--
-- Loops: the climb takes as fuel the length of the directory, since each step makes it shorter; the
-- loop of `_flush` takes the count of waiting bytes, since each send takes one at least; the
-- loop of `pow2up` takes the count of slots, since each turn doubles a number that is at least 16; the
-- scans of a log take its length or the offset they start from; all other loops follow a list or a
-- count of characters.
--
-- Not modelled: rpmalloc.c (another project), system calls and their error texts (io.c, tty.c,
-- fsw.c), leaves that only hand their arguments to a library (pack.c, git.c, index.c, http.c and the
-- like), reference counts, and listeners that throw.
pub mod Prelude
pub mod Outcome
pub mod Bytes
pub mod Int
pub mod Abc
pub mod Buf
pub mod Utf8
pub mod Arg
pub mod Require
pub mod Heap
pub mod Hash
pub mod Cont
pub mod Ulog
pub mod Pup
pub mod Pol
pub mod Net
pub mod Cfold
pub mod Main
pub mod Tests
