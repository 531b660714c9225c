-- ===== src/Outbox/File.antt =====
-- gateway/app/metering.py: the file of the outbox (_wal_append, _wal_entries, _wal_compact).
use mlops_lite.Base.{ℕ, List, [], ◌∷◌, ◌++◌, Option, none, some, Bool, not, map, select, contains}

-- A record of the log: a charge of GPU-seconds, or a release. The time is left out.
pub data Entry : Type 0 where
  charge : (op seconds : ℕ) → Entry
  refund : (op : ℕ) → Entry

abbrev pub op_of : Entry → ℕ
op_of (charge op seconds) = op
op_of (refund op) = op

pub data Line : Type 0 where
  parsed : Entry → Line
  unparseable : Line

-- The terminated lines, and what a crash left after the last of them.
pub record File : Type 0 where
  pub lines : List Line
  pub fragment : Option Line

abbrev pub empty : File
empty = record { lines = []; fragment = none }

-- What is written after a fragment stands on its line, which is no JSON value then.
abbrev pub after_fragment : Option Line → Line → Line
after_fragment none line = line
after_fragment (some _) line = unparseable

unfoldable pub append : Entry → File → File
append e f = record {
  lines = f.lines ++ after_fragment f.fragment (parsed e) ∷ [];
  fragment = none;
}

-- A crash or an exception inside _wal_append: a part of the line is written, or all of it but its end.
unfoldable pub tear : Line → File → File
tear part f = record f { fragment = some (after_fragment f.fragment part) }

-- What a call of _wal_append comes to: it returns, or it raises with nothing of the line in the file, with
-- a part of it, or with the whole line.
pub data Append : Type 0 where
  appended nothing_written whole_written : Append
  torn : Line → Append

unfoldable pub append_until : Append → Entry → File → File
append_until appended e f = append e f
append_until nothing_written e f = f
append_until whole_written e f = append e f
append_until (torn part) e f = tear part f

unfoldable pub readable : List Line → List Entry
readable [] = []
readable (parsed e ∷ ls) = e ∷ readable ls
readable (unparseable ∷ ls) = readable ls

abbrev pub last_line : Option Line → List Line
last_line none = []
last_line (some line) = line ∷ []

unfoldable pub entries : File → List Entry
entries f = readable (f.lines ++ last_line f.fragment)

abbrev pub is_pending : (done : List ℕ) → Entry → Bool
is_pending done e = not (contains (op_of e) done)

-- No writer sets `done` in a record, so the test is on the op ids alone.
unfoldable pub compact : (done : List ℕ) → File → File
compact done f = record {
  lines = map parsed (select (is_pending done) (entries f));
  fragment = none;
}
