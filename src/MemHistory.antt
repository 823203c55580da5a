-- ===== src/MemHistory.antt =====
-- bot/memhistory.go: the provider of history logs in memory. A log is a line buffer that its logger
-- and the provider's table share by a pointer, here an address of the heap. `none` is a panic.
pub mod Logs
use gopherbot.Prelude.{
  ℕ, suc, ◌+◌, ◌≡◌, ap, Option, none, some, List, [], ◌∷◌, ◌++◌, ltb, if◌then◌else◌, ℕ_discrete,
}
use gopherbot.Prelude.Assoc.{lookup, insert, delete}
use gopherbot.Prelude.Bytes.{Text, Bytes_discrete, is_empty, codes}
use gopherbot.LineBuffer.{Buffer, new, close, write_line, reader, snapshot}

-- `memlogentry`
pub record Entry : Type 0 where
  pub tag : Text
  pub index : ℕ

abbrev pub Entry_discrete : Discrete Entry
Entry_discrete a b = elim (Bytes_discrete a.tag b.tag) [
  | no h ↦ no (λ e. h (ap (λ (x : Entry). x.tag) e))
  | yes p ↦ elim (ℕ_discrete a.index b.index) [
    | no h ↦ no (λ e. h (ap (λ (x : Entry). x.index) e))
    | yes q ↦ yes (λ i. record { tag = p i; index = q i })
  ]
]

-- `memlog`
pub record Logger : Type 0 where
  pub entry : Entry
  pub log : ℕ

-- `memHistoryConfig`
pub record HistoryConfig : Type 0 where
  pub buffer_size : ℕ
  pub max_line_length : ℕ
  pub truncated : Text

-- `memHistories` with the buffers that its loggers point to.
pub record Histories : Type 0 where
  pub config : HistoryConfig
  pub logs : List (Entry × ℕ)
  pub heap : List (ℕ × Buffer)
  pub next : ℕ

-- `mhprovider`, from what GetHistoryConfig fills in
unfoldable pub provider : HistoryConfig → Histories
provider c = record {
  config = record {
    buffer_size = if ltb c.buffer_size 4096 then 4096 else c.buffer_size;
    max_line_length = if ltb c.max_line_length 1024 then 1024 else c.max_line_length;
    truncated = if is_empty c.truncated then codes "<... truncated>" else c.truncated;
  };
  logs = [];
  heap = [];
  next = 0;
}

abbrev pub add_log : Histories → Entry → Option Buffer → Option (Logger × Histories)
add_log s e none = none
add_log s e (some b) = some (
  record { entry = e; log = s.next },
  record s {
    logs = insert Entry_discrete e s.next s.logs;
    heap = insert ℕ_discrete s.next b s.heap;
    next = suc s.next;
  },
)

unfoldable pub new_log : Entry → Histories → Option (Logger × Histories)
new_log e s = add_log s e (new s.config.buffer_size s.config.max_line_length s.config.truncated)

abbrev pub deref : ℕ → Histories → Option Buffer
deref a s = lookup ℕ_discrete a s.heap

abbrev pub put : ℕ → Histories → Option Buffer → Option Histories
put a s none = none
put a s (some b) = some (record s { heap = insert ℕ_discrete a b s.heap })

abbrev pub write_to : ℕ → Histories → Text → Option Buffer → Option Histories
write_to a s text none = none
write_to a s text (some b) = put a s (write_line b text)

-- `Line`
unfoldable pub line : Logger → Text → Histories → Option Histories
line m text s = write_to m.log s text (deref m.log s)

-- `Log`, with the time as text
unfoldable pub log : Logger → Text → Text → Histories → Option Histories
unfolding line
log m stamp text s = line m (stamp ++ (codes " " ++ text)) s

abbrev pub close_at : ℕ → Histories → Option Buffer → Option Histories
close_at a s none = none
close_at a s (some b) = put a s (some (close b))

unfoldable pub close_log : Logger → Histories → Option Histories
close_log m s = close_at m.log s (deref m.log s)

unfoldable pub finalize : Logger → Histories → Histories
finalize m s = record s { logs = delete Entry_discrete m.entry s.logs }

abbrev pub read : Option Buffer → Option Text
read none = none
read (some b) = elim (reader b) [ none ↦ some (snapshot b) | some bytes ↦ some bytes ]

-- The buffer that an entry of the table points to.
abbrev pub buffer_of : Histories → Option ℕ → Option Buffer
buffer_of s none = none
buffer_of s (some a) = deref a s

-- `GetLog`: the bytes of the reader, or `none` for the error "not found"
unfoldable pub get_log : Entry → Histories → Option Text
get_log e s = read (buffer_of s (lookup Entry_discrete e s.logs))
