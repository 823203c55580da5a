-- ===== src/MemHistory/Logs.antt =====
-- About bot/memhistory.go: GetLog beside the calls that change the logs.
use gopherbot.Prelude.{
  ◌⊎◌, ℕ, suc, ◌≤◌, ◌<◌, ◌≡◌, refl, sym, ap, ◌∙◌, false, Option, none, some, [], ◌++◌, ◌≢◌, length,
  inl, inr, if_cases, ℕ_discrete,
}
use mathlib.Core.Logic.{if_pos, if_neg}
use gopherbot.Prelude.Assoc.{lookup, insert, delete, lookup-insert, lookup-delete}
use gopherbot.Prelude.Bytes.{Text}
use gopherbot.LineBuffer.{Buffer, write_line, reader, snapshot}
use gopherbot.LineBuffer.Contents.{contents, snapshot-eq-contents}
use gopherbot.LineBuffer.Lines.{split_lines, evict}
use gopherbot.LineBuffer.Discard.{lines}
use gopherbot.LineBuffer.WriteLine.{IsValid, Stores, need, write_line_lem}
use gopherbot.LineBuffer.Log.{with_newline, new-IsValid, contents-nil_of_lines}
use gopherbot.MemHistory.{
  Entry, Entry_discrete, Logger, Histories, add_log, new_log, deref, put, write_to, line, finalize,
  read, buffer_of, get_log,
}

reader-cases : (b : Buffer) → read (some b) ≡ some (snapshot b)
unfolding reader
reader-cases b =
    if_cases
      (λ (o : Option Text).
        ◌≡◌ {A = Option Text} (elim o [ none ↦ some (snapshot b) | some bytes ↦ some bytes ])
          (some (snapshot b)))
      b.closed _ _ (λ _. refl) (λ _. refl)

heap_here :
    (a : ℕ) (b : Buffer) (s : Histories)
    → lookup ℕ_discrete a (insert ℕ_discrete a b s.heap) ≡ some b
heap_here a b s = lookup-insert ℕ_discrete a a b s.heap ∙ if_pos (ℕ_discrete a a) refl _ _

heap_other :
    (a a' : ℕ) (b : Buffer) (s : Histories)
    → a ≢ a'
    → lookup ℕ_discrete a' (insert ℕ_discrete a b s.heap) ≡ deref a' s
heap_other a a' b s h = lookup-insert ℕ_discrete a a' b s.heap ∙ if_neg (ℕ_discrete a a') h _ _

-- A line goes to the log that GetLog reads: where the logger's entry points to its open, valid buffer,
-- nothing panics, and GetLog then gives the bytes of a valid buffer that holds the line, in its
-- stored form, behind the lines that the eviction keeps.
pub get_log-line :
    (m : Logger) (text : Text) (s : Histories) (b : Buffer)
    → lookup Entry_discrete m.entry s.logs ≡ some m.log
    → deref m.log s ≡ some b
    → IsValid b
    → b.closed ≡ false
    → (s' : Histories) × (b' : Buffer) × (l : Text) × (line m text s ≡ some s')
      × (get_log m.entry s' ≡ some (contents b'))
      × (lines b' ≡ evict (need b (length l)) (lines b) ++ split_lines l)
      × Stores b text l
      × IsValid b'
unfolding line get_log
get_log-line m text s b listed found v o =
    let (l, b', written, stores, kept, v', _, _, _) = write_line_lem b text v o in
    (
      record s { heap = insert ℕ_discrete m.log b' s.heap },
      b',
      l,
      ap (write_to m.log s text) found ∙ ap (put m.log s) written,
      ap (λ a. read (buffer_of (record s { heap = insert ℕ_discrete m.log b' s.heap }) a)) listed
          ∙ ap read (heap_here m.log b' s)
          ∙ reader-cases b'
          ∙ ap some (snapshot-eq-contents b' v'.ring),
      kept,
      stores,
      v',
    )

-- A line of one logger never changes what GetLog gives for an entry that points to another log.
pub get_log-line_other :
    (m : Logger) (text : Text) (s s' : Histories) (e : Entry) (a : ℕ)
    → line m text s ≡ some s'
    → lookup Entry_discrete e s.logs ≡ some a
    → m.log ≢ a
    → get_log e s' ≡ get_log e s
unfolding line get_log
get_log-line_other m text s s' e a done listed other = step (deref m.log s) done
  where
    wrote :
        (o : Option Buffer)
        → put m.log s o ≡ some s'
        → read (buffer_of s' (lookup Entry_discrete e s'.logs))
          ≡ read (buffer_of s (lookup Entry_discrete e s.logs))
    wrote none p = absurd (cc)
    wrote (some b) p =
        ap (λ o. got o) (sym p)
        ∙ ap (λ a'. read (buffer_of (record s { heap = insert ℕ_discrete m.log b s.heap }) a'))
            listed
        ∙ ap read (heap_other m.log a b s other)
        ∙ ap (λ a'. read (buffer_of s a')) (sym listed)
      where
        got : Option Histories → Option Text
        got none = none
        got (some t) = read (buffer_of t (lookup Entry_discrete e t.logs))

    step :
        (o : Option Buffer)
        → write_to m.log s text o ≡ some s'
        → read (buffer_of s' (lookup Entry_discrete e s'.logs))
          ≡ read (buffer_of s (lookup Entry_discrete e s.logs))
    step none p = absurd (cc)
    step (some b) p = wrote (write_line b text) p

-- After Finalize, GetLog finds nothing under the logger's entry, and the same as before elsewhere.
pub get_log-finalize :
    (m : Logger) (s : Histories) (e : Entry)
    → (get_log m.entry (finalize m s) ≡ none)
      × ((m.entry ≡ e) ⊎ (get_log e (finalize m s) ≡ get_log e s))
unfolding get_log finalize
get_log-finalize m s e = (
  ap (λ a. read (buffer_of s a))
      (lookup-delete Entry_discrete m.entry m.entry s.logs
        ∙ if_pos (Entry_discrete m.entry m.entry) refl _ _),
  elsewhere (Entry_discrete m.entry e),
)
  where
    elsewhere :
        Dec (m.entry ≡ e)
        → (m.entry ≡ e)
          ⊎ (read (buffer_of s (lookup Entry_discrete e (delete Entry_discrete m.entry s.logs)))
              ≡ read (buffer_of s (lookup Entry_discrete e s.logs)))
    elsewhere (yes p) = inl p
    elsewhere (no h) = inr (
        ap (λ a. read (buffer_of s a))
          (lookup-delete Entry_discrete m.entry e s.logs ∙ if_neg (Entry_discrete m.entry e) h _ _))

-- Where a line fits the buffer and the truncation string a line, NewHistory does not panic, and
-- GetLog gives an empty log for the new entry, whose logger points to it.
pub get_log-new_log :
    (e : Entry) (s : Histories)
    → s.config.max_line_length ≤ s.config.buffer_size
    → 0 < s.config.buffer_size
    → length (with_newline s.config.truncated) ≤ s.config.max_line_length
    → (m : Logger) × (s' : Histories) × (new_log e s ≡ some (m, s'))
      × (lookup Entry_discrete e s'.logs ≡ some m.log)
      × (get_log e s' ≡ some [])
unfolding new_log get_log
get_log-new_log e s room some_room line_room =
    let (b, made, empty, o, v) =
      new-IsValid s.config.buffer_size s.config.max_line_length s.config.truncated room some_room
        line_room in
    let s' : Histories = record s {
      logs = insert Entry_discrete e s.next s.logs;
      heap = insert ℕ_discrete s.next b s.heap;
      next = suc s.next;
    } in
    let listed : lookup Entry_discrete e s'.logs ≡ some s.next =
      lookup-insert Entry_discrete e e s.next s.logs ∙ if_pos (Entry_discrete e e) refl _ _ in
    (
      record { entry = e; log = s.next },
      s',
      ap (add_log s e) made,
      listed,
      ap (λ a. read (buffer_of s' a)) listed
          ∙ ap read (heap_here s.next b s)
          ∙ reader-cases b
          ∙ ap some (snapshot-eq-contents b v.ring ∙ contents-nil_of_lines b empty),
    )
