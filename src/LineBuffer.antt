-- ===== src/LineBuffer.antt =====
-- modules/linebuffer/linebuffer.go: the line-oriented circular buffer behind the history logs.
-- A byte is a number, a string a list of bytes. `none` is a panic. The mutex makes each method
-- one step, so a method is a function from the buffer to the buffer that it leaves.
pub mod Contents
pub mod Lines
pub mod Discard
pub mod Write
pub mod WriteLine
pub mod Log
use gopherbot.Prelude.{
  ℕ, zero, suc, ◌+◌, ◌-◌, ◌%◌, Bool, true, false, Option, none, some, List, [], ◌∷◌, ◌++◌, ltb, leb,
  ◌==◌, if◌then◌else◌, length, take, drop, replicate,
}
use mathlib.Core.Option

abbrev pub newline : ℕ
newline = b'\n'

pub record Buffer : Type 0 where
  pub buf : List ℕ
  pub size : ℕ
  pub linesize : ℕ
  pub trunc : List ℕ
  pub start : ℕ
  pub len : ℕ
  pub closed : Bool

-- strings.HasSuffix(line, "\n")
unfoldable pub ends_line : List ℕ → Bool
ends_line [] = false
ends_line (c ∷ []) = c == newline
ends_line (c ∷ d ∷ cs) = ends_line (d ∷ cs)

-- `New`; a `linesize` above `buffsize` panics.
pub new : ℕ → ℕ → List ℕ → Option Buffer
unfolding ends_line
new buffsize linesize truncstr =
    if ltb buffsize linesize
    then none
    else some (record {
      buf = replicate buffsize 0;
      size = buffsize;
      linesize = linesize;
      trunc = if ends_line truncstr then truncstr else truncstr ++ (newline ∷ []);
      start = 0;
      len = 0;
      closed = false;
    })

pub close : Buffer → Buffer
close b = record b { closed = true }

pub normalize_line : List ℕ → List ℕ
normalize_line line = if ends_line line then line else line ++ (newline ∷ [])

-- Panics where the truncation string is longer than a line may be.
pub truncate_line : Buffer → List ℕ → Option (List ℕ)
truncate_line b line =
    if ltb b.linesize (length line)
    then (if ltb b.linesize (length b.trunc)
        then none
        else some (take (b.linesize - length b.trunc) line ++ b.trunc))
    else some line

-- bytes.IndexByte(s, '\n'), with `none` for -1
pub index_byte : List ℕ → Option ℕ
index_byte [] = none
index_byte (c ∷ cs) = if c == newline then some 0 else Option.map suc (index_byte cs)

-- s[from:to]
abbrev pub slice : List ℕ → ℕ → ℕ → List ℕ
slice s from to = take (to - from) (drop from s)

-- The end of the stored bytes, where the next line goes.
abbrev pub end_of : Buffer → ℕ
end_of b = (b.start + b.len) % b.size

pub index_of_newline : Buffer → Option ℕ
unfolding index_byte
index_of_newline b =
    if b.len == 0
    then none
    else if ltb b.start (end_of b)
    then index_byte (slice b.buf b.start (end_of b))
    else elim (index_byte (drop b.start b.buf)) [
      | some part1 ↦ some part1
      | none ↦ Option.map (λ part2. b.size - b.start + part2) (index_byte (take (end_of b) b.buf))
    ]

-- One round of the loop in `discardLines`: the oldest line goes, or everything if no newline is
-- found.
pub discard_line : Buffer → Option ℕ → Buffer
discard_line b none = record b { start = 0; len = 0 }
discard_line b (some end_line) = record b {
  start = (b.start + (end_line + 1)) % b.size;
  len = b.len - (end_line + 1);
}

-- `discardLines` on fuel. The counter `spaceNeeded` may pass below zero in the source, where only
-- `spaceNeeded > 0` is asked: the truncated difference answers that alike.
pub discard_lines : ℕ → Buffer → ℕ → Buffer
unfolding index_of_newline discard_line
discard_lines zero b space_needed = b
discard_lines (suc fuel) b space_needed = elim (ltb 0 space_needed) [
  | false ↦ b
  | true ↦ elim (ltb 0 b.len) [
    | false ↦ b
    | true ↦ elim (index_of_newline b) [
      | none ↦ discard_line b none
      | some end_line ↦
          discard_lines fuel (discard_line b (some end_line)) (space_needed - (end_line + 1))
    ]
  ]
]

-- Each round drops at least one byte, so as many rounds as bytes are enough.
pub ensure_space : Buffer → ℕ → Buffer
unfolding discard_lines
ensure_space b lsize =
    if leb (b.len + lsize) b.size then b else discard_lines b.len b (b.len + lsize - b.size)

-- copy(dst, src): as many bytes as both have
pub copy : List ℕ → List ℕ → List ℕ
copy [] src = []
copy (d ∷ dst) [] = d ∷ dst
copy (d ∷ dst) (c ∷ src) = c ∷ copy dst src

-- copy(buf[end:], line), and the rest of the line at the front if it did not fit
pub write_bytes : Buffer → List ℕ → Buffer
unfolding copy
write_bytes b line =
    let room = length (drop (end_of b) b.buf) in
    let tail = take (end_of b) b.buf ++ copy (drop (end_of b) b.buf) line in
    record b {
      buf = if ltb room (length line) then copy tail (drop room line) else tail;
      len = b.len + length line;
    }

unfoldable pub write_line : Buffer → List ℕ → Option Buffer
unfolding normalize_line truncate_line ensure_space write_bytes
write_line b line =
    if b.closed
    then some b
    else Option.map (λ l. write_bytes (ensure_space b (length l)) l)
        (truncate_line b (normalize_line line))

-- `Snapshot`: the bytes of the reader that it returns. `snap` has room for `length` bytes, so the
-- two copies move no more than that.
pub snapshot : Buffer → List ℕ
snapshot b =
    if ltb 0 b.len
    then (if ltb b.start (end_of b)
        then slice b.buf b.start (end_of b)
        else take b.len (drop b.start b.buf ++ take (end_of b) b.buf))
    else []

-- `Reader`: `none` is the error "buffer not closed"
unfoldable pub reader : Buffer → Option (List ℕ)
unfolding snapshot
reader b = if b.closed then some (snapshot b) else none
