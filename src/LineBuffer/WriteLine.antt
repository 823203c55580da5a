-- ===== src/LineBuffer/WriteLine.antt =====
-- About `WriteLine` of modules/linebuffer/linebuffer.go: the queue of lines before and after.
use gopherbot.Prelude.{
  ℕ, ◌+◌, ◌-◌, ◌≤◌, ◌≡◌, refl, sym, ap, ◌∙◌, true, false, some, List, [], ◌∷◌, ◌++◌, arith, ltb,
  if◌then◌else◌, Bool-cases, inl, inr, length, take, length-append, length-take, subst, ◌≢◌,
}
use gopherbot.LineBuffer.{
  Buffer, newline, ends_line, normalize_line, truncate_line, write_bytes, ensure_space, write_line,
}
use gopherbot.LineBuffer.Contents.{IsRing, contents, length-contents}
use gopherbot.LineBuffer.Lines.{
  split_lines, join_lines, evict, IsWhole, IsWhole-append, split_lines-append,
  join_lines-split_lines, evict-frees,
}
use gopherbot.LineBuffer.Discard.{lines, ensure_space-Leaves}
use gopherbot.LineBuffer.Write.{write_bytes-IsRing, contents-write_bytes}

-- The invariant: a ring of whole lines whose limits are consistent.
pub record IsValid (b : Buffer) : Type 0 where
  pub ring : IsRing b
  pub lines_fit : b.linesize ≤ b.size
  pub trunc_fits : length b.trunc ≤ b.linesize
  pub trunc_ends : ends_line b.trunc ≡ true
  pub whole : IsWhole (contents b)

IsWhole-of_ends : (cs : List ℕ) → ends_line cs ≡ true → IsWhole cs
IsWhole-of_ends [] h = tt
IsWhole-of_ends (c ∷ cs) h = h

pub ends_line-append : (xs : List ℕ) → ends_line (xs ++ newline ∷ []) ≡ true
unfolding ends_line
ends_line-append [] = refl
ends_line-append (x ∷ []) = refl
ends_line-append (x ∷ y ∷ xs) = ends_line-append (y ∷ xs)

pub normalize_line-IsWhole : (line : List ℕ) → IsWhole (normalize_line line)
unfolding normalize_line
normalize_line-IsWhole line = elim (Bool-cases (ends_line line)) [
  | inl e ↦ rw e (IsWhole-of_ends line e)
  | inr e ↦ rw e (IsWhole-of_ends (line ++ newline ∷ []) (ends_line-append line))
]

IsWhole-append_right : (xs ys : List ℕ) → ys ≢ [] → IsWhole ys → IsWhole (xs ++ ys)
unfolding ends_line
IsWhole-append_right [] ys n h = h
IsWhole-append_right (x ∷ []) [] n h = absurd (n refl)
IsWhole-append_right (x ∷ []) (y ∷ ys) n h = h
IsWhole-append_right (x ∷ d ∷ xs) ys n h = IsWhole-append_right (d ∷ xs) ys n h

-- The line itself if it fits, or else its front with the truncation string behind it.
abbrev pub stored_form : ℕ → List ℕ → List ℕ → List ℕ
stored_form linesize trunc line =
    if ltb linesize (length (normalize_line line))
    then take (linesize - length trunc) (normalize_line line) ++ trunc
    else normalize_line line

-- What is stored for a line: at most `linesize` bytes of whole lines.
pub record Stores (b : Buffer) (line l : List ℕ) : Type 0 where
  pub bounded : length l ≤ b.linesize
  pub whole : IsWhole l
  pub form : l ≡ stored_form b.linesize b.trunc line

ne-nil_of_ends : (cs : List ℕ) → ends_line cs ≡ true → cs ≢ []
unfolding ends_line
ne-nil_of_ends [] h = cc
ne-nil_of_ends (c ∷ cs) h = λ e. cc

truncate_line-Stores :
    (b : Buffer) (line : List ℕ)
    → IsValid b
    → (l : List ℕ) × (truncate_line b (normalize_line line) ≡ some l) × Stores b line l
unfolding truncate_line
truncate_line-Stores b line v = elim (Bool-cases (ltb b.linesize (length (normalize_line line)))) [
  | inr fits ↦ (
    normalize_line line,
    rw fits,
    record { bounded = ground arith; whole = normalize_line-IsWhole line; form = rw fits refl },
  )
  | inl long ↦ (
    take (b.linesize - length b.trunc) (normalize_line line) ++ b.trunc,
    ground arith,
    record {
      bounded = omega (
        arith,
        v.trunc_fits,
        length-append (take (b.linesize - length b.trunc) (normalize_line line)) b.trunc,
        length-take (b.linesize - length b.trunc) (normalize_line line),
      );
      whole =
          IsWhole-append_right (take (b.linesize - length b.trunc) (normalize_line line)) b.trunc
            (ne-nil_of_ends b.trunc v.trunc_ends) (IsWhole-of_ends b.trunc v.trunc_ends);
      form = rw long refl;
    },
  )
]

-- The room that a line of `n` bytes needs.
abbrev pub need : Buffer → ℕ → ℕ
need b n = b.len + n - b.size

room_made : (b : Buffer) (n : ℕ) → IsRing b → n ≤ b.size → (ensure_space b n).len + n ≤ b.size
room_made b n v h =
    let r = ensure_space-Leaves b n v in
    let small : length (contents b) ≡ b.len = length-contents b v in
    let left : length (contents (ensure_space b n)) ≡ (ensure_space b n).len =
      length-contents (ensure_space b n) r.ring in
    let free =
      evict-frees (need b n) (lines b)
        (omega (arith, small, ap length (join_lines-split_lines (contents b)))) in
    omega (
      arith,
      free,
      ap (λ ls. length (join_lines ls)) r.kept,
      ap length (join_lines-split_lines (contents b)),
      ap length (join_lines-split_lines (contents (ensure_space b n))),
    )

limits-write_bytes :
    (c : Buffer) (l : List ℕ)
    → ((write_bytes c l).linesize ≡ c.linesize)
      × ((write_bytes c l).size ≡ c.size)
      × ((write_bytes c l).trunc ≡ c.trunc)
      × ((write_bytes c l).closed ≡ c.closed)
unfolding write_bytes
limits-write_bytes c l = (refl, refl, refl, refl)

stored-IsValid :
    (b : Buffer) (l : List ℕ)
    → IsValid b
    → length l ≤ b.linesize
    → IsWhole l
    → let b' = write_bytes (ensure_space b (length l)) l in
      IsValid b' × (lines b' ≡ evict (need b (length l)) (lines b) ++ split_lines l)
stored-IsValid b l v h w =
    let r = ensure_space-Leaves b (length l) v.ring in
    let c = ensure_space b (length l) in
    let room : c.len + length l ≤ c.size =
      omega (arith, room_made b (length l) v.ring (omega (arith, v.lines_fit)), r.same_size) in
    let grown : contents (write_bytes c l) ≡ contents c ++ l =
      contents-write_bytes c l r.ring room in
    let limits = limits-write_bytes c l in
    (
      record {
        ring = write_bytes-IsRing c l r.ring room;
        lines_fit = omega (arith, limits, r.same_size, r.linesize, v.lines_fit);
        trunc_fits =
            omega (arith, limits, r.linesize, ap length (limits.2 ∙ r.trunc), v.trunc_fits);
        trunc_ends = ap ends_line (limits.2 ∙ r.trunc) ∙ v.trunc_ends;
        whole = subst IsWhole (sym grown) (IsWhole-append (contents c) l (r.whole v.whole) w);
      },
      ap split_lines grown
          ∙ split_lines-append (contents c) l (r.whole v.whole)
          ∙ ap (λ ls. ls ++ split_lines l) r.kept,
    )

-- A write to an open, valid buffer never panics. It stores one bounded line behind the lines that
-- are left when the oldest are evicted for the room that is missing, and the buffer stays valid
-- and open, with the same limits.
pub write_line_lem :
    (b : Buffer) (line : List ℕ)
    → IsValid b
    → b.closed ≡ false
    → (l : List ℕ) × (b' : Buffer) × (write_line b line ≡ some b')
      × Stores b line l
      × (lines b' ≡ evict (need b (length l)) (lines b) ++ split_lines l)
      × IsValid b'
      × (b'.linesize ≡ b.linesize)
      × (b'.trunc ≡ b.trunc)
      × (b'.closed ≡ false)
unfolding write_line
write_line_lem b line v open_ =
    let t = truncate_line-Stores b line v in
    let l = t.0 in
    let s = stored-IsValid b l v t.2.bounded t.2.whole in
    let r = ensure_space-Leaves b (length l) v.ring in
    let limits = limits-write_bytes (ensure_space b (length l)) l in
    (
      l,
      write_bytes (ensure_space b (length l)) l,
      ground (arith, t.1),
      t.2,
      s.1,
      s.0,
      limits.0 ∙ r.linesize,
      limits.2 ∙ r.trunc,
      limits.3 ∙ r.closed ∙ open_,
    )
