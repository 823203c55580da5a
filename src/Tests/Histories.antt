-- ===== src/Tests/Histories.antt =====
-- The history provider in memory, with two logs.
use gopherbot.Prelude.{◌≡◌, refl, false, some, [], ◌∷◌, ◌++◌, arith, length, replicate, ℕ_discrete}
use gopherbot.Prelude.Assoc.{lookup, insert}
use gopherbot.Prelude.Bytes.{Text, codes, bytes_eq}
use gopherbot.LineBuffer.{Buffer, ends_line, write_line}
use gopherbot.LineBuffer.Contents.{contents}
use gopherbot.LineBuffer.Lines.{split_lines, evict}
use gopherbot.LineBuffer.Discard.{lines}
use gopherbot.LineBuffer.WriteLine.{IsValid, Stores, need}
use gopherbot.MemHistory.{Entry, Logger, Histories, line, get_log}
use gopherbot.MemHistory.Logs.{get_log-line}

abbrev small : Buffer
small = record {
  buf = replicate 8 0;
  size = 8;
  linesize = 4;
  trunc = b'~' ∷ b'\n' ∷ [];
  start = 0;
  len = 0;
  closed = false;
}

small-IsValid : IsValid small
small-IsValid = record {
  ring = record { storage = refl; start_in = omega arith; len_in = omega arith };
  lines_fit = omega arith;
  trunc_fits = omega arith;
  trunc_ends = unfold ends_line in refl;
  whole = tt;
}

abbrev build : Entry
build = record { tag = codes "build"; index = 1 }

abbrev test : Entry
test = record { tag = codes "test"; index = 1 }

abbrev two_logs : Histories
two_logs = record {
  config = record { buffer_size = 8; max_line_length = 4; truncated = b'~' ∷ [] };
  logs = (build, 0) ∷ (test, 1) ∷ [];
  heap = (0, small) ∷ (1, small) ∷ [];
  next = 2;
}

abbrev logger : Logger
logger = record { entry = build; log = 0 }

get_log-line_example :
    (s' : Histories) × (b' : Buffer) × (l : Text) × (line logger (codes "ab") two_logs ≡ some s')
    × (get_log build s' ≡ some (contents b'))
    × (lines b' ≡ evict (need small (length l)) (lines small) ++ split_lines l)
    × Stores small (codes "ab") l
    × IsValid b'
get_log-line_example =
    get_log-line logger (codes "ab") two_logs small (unfold lookup bytes_eq ℕ_discrete in refl)
      (unfold lookup ℕ_discrete in refl) small-IsValid refl

abbrev after : Histories
after = record two_logs {
  heap =
      (0, record small { buf = b'a' ∷ b'b' ∷ b'\n' ∷ 0 ∷ 0 ∷ 0 ∷ 0 ∷ 0 ∷ []; len = 3 })
      ∷ (1, small)
      ∷ [];
}

written : line logger (codes "ab") two_logs ≡ some after
unfolding line lookup insert write_line ℕ_discrete ends_line
written = refl
