-- ===== src/LineBuffer/Discard.antt =====
-- About `indexOfNewline` and `discardLines`, in terms of the lines that are stored.
use gopherbot.Prelude.{
  ℕ, zero, suc, ◌+◌, ◌-◌, ◌%◌, ◌≤◌, ◌<◌, ◌≡◌, refl, sym, ap, ◌∙◌, true, false, none, some, List, [],
  ◌∷◌, ◌++◌, arith, dec_lt, ltb, leb, ltb→lt, subst, length-take, Bool-cases, Option-cases, ◌⊎◌,
  inl, inr, length, take, drop, length-drop, drop-append_le, drop-append_ge, take-append_le,
  drop-drop, drop-take,
}
use native.Mathlib.Nat.{mod-eq_of_lt, mod-eq-sub-mod}
use native.Mathlib.Numerals.{add-one}
use gopherbot.LineBuffer.{
  Buffer, index_byte, index_of_newline, discard_line, discard_lines, ensure_space,
}
use gopherbot.LineBuffer.Contents.{
  IsRing, contents, end_of_low, end_of_high, contents_low, contents_high, index_byte-append,
  index_byte-lt, length-contents,
}
use gopherbot.LineBuffer.Lines.{
  split_lines, evict, split_lines-some, split_lines-none, IsWhole, IsWhole-drop,
}

abbrev pub lines : Buffer → List (List ℕ)
lines b = split_lines (contents b)

newline_low :
    (b : Buffer)
    → IsRing b
    → 0 < b.len
    → b.start + b.len < b.size
    → index_of_newline b ≡ index_byte (contents b)
unfolding index_of_newline
newline_low b v p low = ground (
  arith,
  end_of_low b low,
  contents_low b v (omega arith),
  ap (λ n. take n (drop b.start b.buf)) {x = b.start + b.len - b.start} {y = b.len} (omega arith),
)

newline_high :
    (b : Buffer)
    → IsRing b
    → 0 < b.len
    → b.size ≤ b.start + b.len
    → index_of_newline b ≡ index_byte (contents b)
unfolding index_of_newline
newline_high b v p high = ground (
  arith,
  end_of_high b v high,
  contents_high b v high,
  length-drop b.start b.buf,
  index_byte-append (drop b.start b.buf) (take (b.start + b.len - b.size) b.buf),
)

-- Where a buffer's indices are in range and it is not empty, the search in two parts finds the
-- first newline of the stored bytes.
pub index_of_newline_lem :
    (b : Buffer) → IsRing b → 0 < b.len → index_of_newline b ≡ index_byte (contents b)
index_of_newline_lem b v p = elim (dec_lt (b.start + b.len) b.size) [
  | yes low ↦ newline_low b v p low
  | no high ↦ newline_high b v p (omega arith)
]

pub discard_line-IsRing :
    (b : Buffer) (e : ℕ) → IsRing b → e < b.len → IsRing (discard_line b (some e))
unfolding discard_line
discard_line-IsRing b e v h = grind arith

contents-start :
    (b : Buffer) (s n : ℕ)
    → IsRing b
    → s ≤ b.size
    → s + n ≤ b.size
    → take n (drop s (b.buf ++ b.buf)) ≡ take n (drop s b.buf)
contents-start b s n v h k =
    ap (take n) (drop-append_le s b.buf b.buf (omega arith))
    ∙ take-append_le n (drop s b.buf) b.buf (omega (arith, length-drop s b.buf))

drop-contents :
    (b : Buffer) (n : ℕ)
    → drop n (contents b) ≡ take (b.len - n) (drop (b.start + n) (b.buf ++ b.buf))
drop-contents b n =
    drop-take n b.len (drop b.start (b.buf ++ b.buf))
    ∙ ap (take (b.len - n)) (drop-drop n b.start (b.buf ++ b.buf))

start_wrapped :
    (b : Buffer) (n : ℕ)
    → IsRing b
    → n ≤ b.len
    → b.size ≤ b.start + n
    → (b.start + n) % b.size ≡ b.start + n - b.size
start_wrapped b n v h k = omega (
  arith,
  mod-eq-sub-mod {n = b.start + n} {m = b.size} k,
  mod-eq_of_lt {n = b.start + n - b.size} {m = b.size} (omega arith),
)

-- Dropping the oldest line drops its bytes from the front.
pub contents-discard_line :
    (b : Buffer) (e : ℕ)
    → IsRing b
    → e < b.len
    → contents (discard_line b (some e)) ≡ drop (e + 1) (contents b)
unfolding discard_line
contents-discard_line b e v h = elim (dec_lt (b.start + (e + 1)) b.size) [
  | yes low ↦
      rw (mod-eq_of_lt {n = b.start + (e + 1)} {m = b.size} low) (sym (drop-contents b (e + 1)))
  | no high ↦
      let s : ℕ = b.start + (e + 1) - b.size in
      ap (λ k. take (b.len - (e + 1)) (drop k (b.buf ++ b.buf)))
        (start_wrapped b (e + 1) v (omega arith) (omega arith))
      ∙ contents-start b s (b.len - (e + 1)) v (omega arith) (omega arith)
      ∙ ap (λ k. take (b.len - (e + 1)) (drop k b.buf)) {x = s} (omega arith)
      ∙ sym (
          ap (take (b.len - (e + 1)))
            (drop-append_ge (b.start + (e + 1)) b.buf b.buf (omega arith)))
      ∙ sym (drop-contents b (e + 1))
]

-- What a discarding loop leaves: a ring that holds the lines that the eviction keeps.
pub record Leaves (b : Buffer) (need : ℕ) (b' : Buffer) : Type 0 where
  pub ring : IsRing b'
  pub kept : lines b' ≡ evict need (lines b)
  pub same_size : b'.size ≡ b.size
  pub whole : IsWhole (contents b) → IsWhole (contents b')
  pub linesize : b'.linesize ≡ b.linesize
  pub trunc : b'.trunc ≡ b.trunc
  pub closed : b'.closed ≡ b.closed

Leaves-refl : (b : Buffer) (need : ℕ) → IsRing b → evict need (lines b) ≡ lines b → Leaves b need b
Leaves-refl b need v e = record {
  ring = v;
  kept = sym e;
  same_size = refl;
  whole = λ w. w;
  linesize = refl;
  trunc = refl;
  closed = refl;
}

evict_unneeded : (need : ℕ) (ls : List (List ℕ)) → ltb 0 need ≡ false → evict need ls ≡ ls
unfolding evict
evict_unneeded need [] h = refl
evict_unneeded need (l ∷ ls) h = rw h

discard_line_fuel :
    (b : Buffer) (i fuel : ℕ) → b.len ≤ suc fuel → (discard_line b (some i)).len ≤ fuel
unfolding discard_line
discard_line_fuel b i fuel h = omega arith

contents-nil : (b : Buffer) → b.len ≡ 0 → contents b ≡ []
contents-nil b e = ap (λ n. take n (drop b.start (b.buf ++ b.buf))) e

lines_empty : (b : Buffer) (need : ℕ) → b.len ≡ 0 → evict need (lines b) ≡ lines b
unfolding evict split_lines
lines_empty b need e = rw (contents-nil b e)

evict-none :
    (need : ℕ) (cs : List ℕ) → 0 < need → index_byte cs ≡ none → evict need (split_lines cs) ≡ []
unfolding evict split_lines
evict-none need [] n h = refl
evict-none need (c ∷ cs) n h = rw (split_lines-none c cs h) (ground arith)

evict-some :
    (need e : ℕ) (cs : List ℕ)
    → 0 < need
    → index_byte cs ≡ some e
    → evict need (split_lines cs) ≡ evict (need - (e + 1)) (split_lines (drop (e + 1) cs))
unfolding evict
evict-some need e cs n h =
    let size : length (take (suc e) cs) ≡ e + 1 =
      omega (arith, length-take (suc e) cs, index_byte-lt cs e h) in
    rw (split_lines-some cs e h, add-one) (ground (arith, size))

-- Without a newline all that is stored is one line, and the loop clears the buffer.
Leaves-none :
    (b : Buffer) (need : ℕ)
    → IsRing b
    → 0 < need
    → 0 < b.len
    → index_byte (contents b) ≡ none
    → Leaves b need (discard_line b none)
unfolding discard_line split_lines
Leaves-none b need v n p h = record {
  ring = grind arith;
  kept = sym (evict-none need (contents b) n h);
  same_size = refl;
  whole = λ w. tt;
  linesize = refl;
  trunc = refl;
  closed = refl;
}

Leaves-some :
    (b b' : Buffer) (need e : ℕ)
    → IsRing b
    → 0 < need
    → index_byte (contents b) ≡ some e
    → e < b.len
    → Leaves (discard_line b (some e)) (need - (e + 1)) b'
    → Leaves b need b'
unfolding discard_line
Leaves-some b b' need e v n h lt r = record {
  ring = r.ring;
  kept =
      r.kept
      ∙ ap (λ cs. evict (need - (e + 1)) (split_lines cs)) (contents-discard_line b e v lt)
      ∙ sym (evict-some need e (contents b) n h);
  same_size = r.same_size;
  whole = λ w.
      r.whole (
        subst IsWhole (sym (contents-discard_line b e v lt)) (IsWhole-drop (e + 1) (contents b) w));
  linesize = r.linesize;
  trunc = r.trunc;
  closed = r.closed;
}

module _ (fuel : ℕ) (b : Buffer) (need : ℕ) where
  discard_lines-done :
      (ltb 0 need ≡ false) ⊎ (ltb 0 b.len ≡ false) → discard_lines (suc fuel) b need ≡ b
  unfolding discard_lines
  discard_lines-done (inl e) = ground arith
  discard_lines-done (inr e) = ground arith

  discard_lines-none :
      ltb 0 need ≡ true
      → ltb 0 b.len ≡ true
      → index_of_newline b ≡ none
      → discard_lines (suc fuel) b need ≡ discard_line b none
  unfolding discard_lines
  discard_lines-none n p e = ground arith

  discard_lines-some :
      (i : ℕ)
      → ltb 0 need ≡ true
      → ltb 0 b.len ≡ true
      → index_of_newline b ≡ some i
      → discard_lines (suc fuel) b need
        ≡ discard_lines fuel (discard_line b (some i)) (need - (i + 1))
  unfolding discard_lines
  discard_lines-some i n p e = ground arith

-- With as much fuel as bytes, the loop drops the lines that the eviction drops, and keeps the ring.
pub discard_lines-Leaves :
    (fuel : ℕ) (b : Buffer) (need : ℕ)
    → IsRing b
    → b.len ≤ fuel
    → Leaves b need (discard_lines fuel b need)
unfolding discard_lines
discard_lines-Leaves zero b need v h = Leaves-refl b need v (lines_empty b need (omega arith))
discard_lines-Leaves (suc fuel) b need v h = elim (Bool-cases (ltb 0 need)) [
  | inr e ↦
      rw (discard_lines-done fuel b need (inl e))
        (Leaves-refl b need v (evict_unneeded need (lines b) e))
  | inl n ↦ elim (Bool-cases (ltb 0 b.len)) [
    | inr e ↦
        rw (discard_lines-done fuel b need (inr e))
          (Leaves-refl b need v (lines_empty b need (ground arith)))
    | inl p ↦ elim (Option-cases (index_of_newline b)) [
      | inl e ↦ rw (discard_lines-none fuel b need n p e) (
          Leaves-none b need v (ltb→lt _ _ n) (ltb→lt _ _ p)
            (sym (index_of_newline_lem b v (ltb→lt _ _ p)) ∙ e))
      | inr (i, e) ↦
          let found : index_byte (contents b) ≡ some i =
            sym (index_of_newline_lem b v (ltb→lt _ _ p)) ∙ e in
          let lt : i < b.len =
            subst (λ k. i < k) (length-contents b v) (index_byte-lt (contents b) i found) in
          rw (discard_lines-some fuel b need i n p e) (
            Leaves-some b _ need i v (ltb→lt _ _ n) found lt (
              discard_lines-Leaves fuel (discard_line b (some i)) (need - (i + 1))
                (discard_line-IsRing b i v lt) (discard_line_fuel b i fuel h)))
    ]
  ]
]

-- `ensureSpace` drops as few of the oldest lines as make room for `lsize` bytes.
pub ensure_space-Leaves :
    (b : Buffer) (lsize : ℕ) → IsRing b → Leaves b (b.len + lsize - b.size) (ensure_space b lsize)
unfolding ensure_space
ensure_space-Leaves b lsize v = elim (Bool-cases (leb (b.len + lsize) b.size)) [
  | inl fits ↦ rw fits (Leaves-refl b _ v (evict_unneeded _ (lines b) (ground arith)))
  | inr full ↦ rw full (discard_lines-Leaves b.len b _ v (omega arith))
]
