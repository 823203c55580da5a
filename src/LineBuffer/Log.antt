-- ===== src/LineBuffer/Log.antt =====
-- About a buffer over its life: made by `New`, written to, closed and read.
use gopherbot.Prelude.{
  ℕ, ◌≤◌, ◌<◌, ◌≡◌, refl, sym, ap, ◌∙◌, true, false, Option, none, some, List, [], ◌∷◌, ◌++◌, arith,
  Bool-cases, ◌⊎◌, inl, inr, length, ◌↔◌, length-replicate, append_assoc, append-nil, replicate,
  if◌then◌else◌,
}
use mathlib.Core.Option
use gopherbot.LineBuffer.{
  Buffer, newline, ends_line, new, close, normalize_line, truncate_line, write_line, reader,
}
use gopherbot.LineBuffer.Contents.{IsRing, contents, snapshot-eq-contents}
use gopherbot.LineBuffer.Lines.{
  split_lines, join_lines, join_lines-split_lines, evict, Evicts, evict-minimal,
}
use gopherbot.LineBuffer.Discard.{lines}
use gopherbot.LineBuffer.WriteLine.{
  IsValid, Stores, stored_form, need, write_line_lem, ends_line-append,
}

abbrev pub with_newline : List ℕ → List ℕ
with_newline t = if ends_line t then t else t ++ newline ∷ []

abbrev fresh : ℕ → ℕ → List ℕ → Buffer
fresh buffsize linesize truncstr = record {
  buf = replicate buffsize 0;
  size = buffsize;
  linesize = linesize;
  trunc = with_newline truncstr;
  start = 0;
  len = 0;
  closed = false;
}

with_newline-ends : (t : List ℕ) → ends_line (with_newline t) ≡ true
with_newline-ends t = elim (Bool-cases (ends_line t)) [
  | inl e ↦ rw e e
  | inr e ↦ rw e (ends_line-append t)
]

fresh-IsValid :
    (buffsize linesize : ℕ) (truncstr : List ℕ)
    → linesize ≤ buffsize
    → 0 < buffsize
    → length (with_newline truncstr) ≤ linesize
    → IsValid (fresh buffsize linesize truncstr)
fresh-IsValid buffsize linesize truncstr h p t = record {
  ring = record { storage = length-replicate buffsize 0; start_in = p; len_in = omega arith };
  lines_fit = h;
  trunc_fits = t;
  trunc_ends = with_newline-ends truncstr;
  whole = tt;
}

new-fresh :
    (buffsize linesize : ℕ) (truncstr : List ℕ)
    → linesize ≤ buffsize
    → new buffsize linesize truncstr ≡ some (fresh buffsize linesize truncstr)
unfolding new
new-fresh buffsize linesize truncstr h = ground arith

-- `New` gives a valid, empty, open buffer, where the buffer has room for a byte and for a line, and a
-- line has room for the truncation string.
pub new-IsValid :
    (buffsize linesize : ℕ) (truncstr : List ℕ)
    → linesize ≤ buffsize
    → 0 < buffsize
    → length (with_newline truncstr) ≤ linesize
    → (b : Buffer) × (new buffsize linesize truncstr ≡ some b)
      × (lines b ≡ [])
      × (b.closed ≡ false)
      × IsValid b
new-IsValid buffsize linesize truncstr room some_room line_room = (
  fresh buffsize linesize truncstr,
  new-fresh buffsize linesize truncstr room,
  unfold split_lines in refl,
  refl,
  fresh-IsValid buffsize linesize truncstr room some_room line_room,
)

pub contents-nil_of_lines : (b : Buffer) → lines b ≡ [] → contents b ≡ []
unfolding join_lines
contents-nil_of_lines b e = sym (join_lines-split_lines (contents b)) ∙ ap join_lines e

-- A write panics exactly when the buffer is open, the line must be cut, and the truncation string
-- is longer than a line may be.
pub write_line-eq-none :
    (b : Buffer) (line : List ℕ)
    → (write_line b line ≡ none) ↔ (
        (b.closed ≡ false)
        × (b.linesize < length (normalize_line line))
        × (b.linesize < length b.trunc))
unfolding write_line truncate_line
write_line-eq-none b line = (λ h. ground arith, λ h. ground arith)

-- The lines of a pipeline run, written one after the other.
pub write_all : Buffer → List (List ℕ) → Option Buffer
write_all b [] = some b
write_all b (line ∷ rest) = Option.bind (write_line b line) (λ b'. write_all b' rest)

closed-write_all : (b : Buffer) (rest : List (List ℕ)) → write_all (close b) rest ≡ some (close b)
unfolding write_all Option.bind write_line close
closed-write_all b [] = refl
closed-write_all b (line ∷ rest) = closed-write_all b rest

-- After a buffer whose indices are in range is closed, whatever is written changes nothing, and
-- the reader gives the stored bytes.
pub close_lem :
    (b : Buffer) (rest : List (List ℕ))
    → IsRing b
    → (write_all (close b) rest ≡ some (close b)) × (reader (close b) ≡ some (contents b))
unfolding close reader
close_lem b rest v = (closed-write_all b rest, ap some (snapshot-eq-contents (close b) ring))
  where
    ring : IsRing (close b)
    ring = record { storage = v.storage; start_in = v.start_in; len_in = v.len_in }

abbrev pub AllStores : Buffer → List (List ℕ) → List (List ℕ) → Type 0
AllStores b [] [] = Unit {0}
AllStores b [] (l ∷ ls) = ⊥
AllStores b (line ∷ rest) [] = ⊥
AllStores b (line ∷ rest) (l ∷ ls) = Stores b line l × AllStores b rest ls

abbrev pub split_all : List (List ℕ) → List (List ℕ)
split_all [] = []
split_all (l ∷ ls) = split_lines l ++ split_all ls

evict-suffix : (n : ℕ) (ls : List (List ℕ)) → (d : List (List ℕ)) × (ls ≡ d ++ evict n ls)
evict-suffix n ls = go (evict-minimal n ls)
  where
    go : (evict n ls ≡ ls) ⊎ Evicts n ls (evict n ls) → (d : List (List ℕ)) × (ls ≡ d ++ evict n ls)
    go (inl e) = ([], sym e)
    go (inr (d, l, e, h)) = (d ++ l ∷ [], e ∙ sym (append_assoc d (l ∷ []) (evict n ls)))

Stores-limits :
    (b c : Buffer) (line l : List ℕ)
    → c.linesize ≡ b.linesize
    → c.trunc ≡ b.trunc
    → Stores c line l
    → Stores b line l
Stores-limits b c line l e f h = record {
  bounded = omega (arith, h.bounded);
  whole = h.whole;
  form =
      h.form ∙ ap (λ n. stored_form n c.trunc line) e ∙ ap (λ t. stored_form b.linesize t line) f;
}

AllStores-limits :
    (b c : Buffer) (rest ls : List (List ℕ))
    → c.linesize ≡ b.linesize
    → c.trunc ≡ b.trunc
    → AllStores c rest ls
    → AllStores b rest ls
AllStores-limits b c [] [] e f h = tt
AllStores-limits b c [] (l ∷ ls) e f h = h
AllStores-limits b c (line ∷ rest) [] e f h = h
AllStores-limits b c (line ∷ rest) (l ∷ ls) e f h =
    (Stores-limits b c line l e f h.0, AllStores-limits b c rest ls e f h.1)

-- Whatever is written to an open, valid buffer, no write panics, and what the buffer holds at the
-- end is the newest part of the lines that it held and of those written, each of them as it was
-- stored; and the buffer is valid.
pub write_all_lem :
    (rest : List (List ℕ)) (b : Buffer)
    → IsValid b
    → b.closed ≡ false
    → (b' : Buffer) × (stored : List (List ℕ)) × (dropped : List (List ℕ)) × (write_all b rest
        ≡ some b')
      × AllStores b rest stored
      × (lines b ++ split_all stored ≡ dropped ++ lines b')
      × IsValid b'
unfolding write_all Option.bind
write_all_lem [] b v o = (b, [], [], refl, tt, append-nil (lines b), v)
write_all_lem (line ∷ rest) b v o =
    let (l, c, e, s, k, v', el, et, o') = write_line_lem b line v o in
    let (b', stored, dropped, e', s', k', v'') = write_all_lem rest c v' o' in
    let (d, de) = evict-suffix (need b (length l)) (lines b) in
    (
      b',
      l ∷ stored,
      d ++ dropped,
      ground (arith, e, e'),
      (s, AllStores-limits b c rest stored el et s'),
      ap (λ x. x ++ split_all (l ∷ stored)) de
          ∙ append_assoc d (evict (need b (length l)) (lines b)) (split_all (l ∷ stored))
          ∙ ap (◌++◌ d) (
              sym (
                append_assoc (evict (need b (length l)) (lines b)) (split_lines l)
                  (split_all stored))
              ∙ ap (λ x. x ++ split_all stored) (sym k)
              ∙ k')
          ∙ sym (append_assoc d dropped (lines b')),
      v'',
    )
