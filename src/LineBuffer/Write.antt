-- ===== src/LineBuffer/Write.antt =====
-- About `writeBytes`, in terms of the stored bytes.
use gopherbot.Prelude.{
  ℕ, suc, ◌+◌, ◌-◌, ◌≤◌, ◌<◌, ◌≡◌, refl, sym, ap, ◌∙◌, List, [], ◌∷◌, ◌++◌, arith, dec_lt, length,
  take, drop, length-append, length-take, length-drop, take-append-drop, take-append_le,
  take-append_ge, drop-append_le, drop-append_ge, take_all, drop-drop, drop-take, append_assoc,
  append-nil, drop_all,
}
use gopherbot.LineBuffer.{Buffer, end_of, copy, write_bytes}
use gopherbot.LineBuffer.Contents.{
  IsRing, contents, end_of_low, end_of_high, contents_low, contents_high, copy_lem,
}

-- A list written over at a position, as far as it reaches.
abbrev splice : List ℕ → ℕ → List ℕ → List ℕ
splice buf at line = take at buf ++ (line ++ drop (at + length line) buf)

-- A line that fits before the end of the storage.
write_bytes-fits :
    (b : Buffer) (line : List ℕ)
    → length line ≤ length (drop (end_of b) b.buf)
    → (write_bytes b line).buf ≡ splice b.buf (end_of b) line
unfolding write_bytes
write_bytes-fits b line h = ground (
  arith,
  copy_lem (drop (end_of b) b.buf) line,
  take_all (length (drop (end_of b) b.buf)) line h,
  drop-drop (length line) (end_of b) b.buf,
)

-- A line that goes on at the front of the storage.
write_bytes-wraps :
    (b : Buffer) (line : List ℕ)
    → let room = length (drop (end_of b) b.buf) in
      room < length line
      → length (drop room line) ≤ end_of b
      → end_of b ≤ length b.buf
      → (write_bytes b line).buf
        ≡ drop room line
          ++ (drop (length (drop room line)) (take (end_of b) b.buf) ++ take room line)
unfolding write_bytes
write_bytes-wraps b line h k m = ground (
  arith,
  copy_lem (drop (end_of b) b.buf) line,
  copy_lem (take (end_of b) b.buf ++ take (length (drop (end_of b) b.buf)) line)
      (drop (length (drop (end_of b) b.buf)) line),
  drop_all (length line) (drop (end_of b) b.buf) (omega arith),
  append-nil (take (length (drop (end_of b) b.buf)) line),
  drop-append_le (length (drop (length (drop (end_of b) b.buf)) line)) (take (end_of b) b.buf)
      (take (length (drop (end_of b) b.buf)) line),
  length-take (end_of b) b.buf,
  length-drop (end_of b) b.buf,
  length-append (take (end_of b) b.buf) (take (length (drop (end_of b) b.buf)) line),
  take_all (length (take (end_of b) b.buf ++ take (length (drop (end_of b) b.buf)) line))
      (drop (length (drop (end_of b) b.buf)) line),
)

module _ (buf line : List ℕ) (s e : ℕ) (inside : e ≤ length buf) where
  take-splice : take (e + length line) (splice buf e line) ≡ take e buf ++ line
  take-splice =
      take-append_ge (e + length line) (take e buf) (line ++ drop (e + length line) buf)
        (omega (arith, length-take e buf))
      ∙ ap (λ k. take e buf ++ take k (line ++ drop (e + length line) buf))
          (omega (arith, length-take e buf))
      ∙ ap (◌++◌ (take e buf)) (
          take-append_le (length line) line (drop (e + length line) buf) (omega arith)
          ∙ take_all (length line) line (omega arith))

  drop-splice : e + length line ≤ s → drop s (splice buf e line) ≡ drop s buf
  drop-splice h =
      drop-append_ge s (take e buf) (line ++ drop (e + length line) buf)
        (omega (arith, length-take e buf))
      ∙ drop-append_ge (s - length (take e buf)) line (drop (e + length line) buf)
          (omega (arith, length-take e buf))
      ∙ drop-drop (s - length (take e buf) - length line) (e + length line) buf
      ∙ ap (λ k. drop k buf) (omega (arith, length-take e buf))

  window-splice :
      s ≤ e
      → take (e - s + length line) (drop s (splice buf e line)) ≡ take (e - s) (drop s buf) ++ line
  window-splice h =
      sym (ap (λ k. take k (drop s (splice buf e line))) {x = e + length line - s} (omega arith))
      ∙ sym (drop-take s (e + length line) (splice buf e line))
      ∙ ap (drop s) take-splice
      ∙ drop-append_le s (take e buf) line (omega (arith, length-take e buf))
      ∙ ap (λ l. l ++ line) (drop-take s e buf)

-- The wrapped storage: the line's end in front, its start at the back.
abbrev wrap : List ℕ → List ℕ → ℕ → ℕ → List ℕ
wrap buf line e room =
    drop room line ++ (drop (length (drop room line)) (take e buf) ++ take room line)

module _ (buf line : List ℕ) (s e room : ℕ) (inside : e + room ≡ length buf) where
  take-wrapped : take (length (drop room line)) (wrap buf line e room) ≡ drop room line
  take-wrapped =
      take-append_le (length (drop room line)) (drop room line)
        (drop (length (drop room line)) (take e buf) ++ take room line) (omega arith)
      ∙ take_all (length (drop room line)) (drop room line) (omega arith)

  drop-wrapped :
      s ≤ e
      → length (drop room line) ≤ s
      → drop s (wrap buf line e room) ≡ take (e - s) (drop s buf) ++ take room line
  drop-wrapped h k =
      let front : List ℕ = take e buf in
      let over : ℕ = length (drop room line) in
      drop-append_ge s (drop room line) (drop over front ++ take room line) k
      ∙ drop-append_le (s - over) (drop over front) (take room line)
          (omega (arith, length-drop over front, length-take e buf))
      ∙ ap (λ l. l ++ take room line)
          (drop-drop (s - over) over front
            ∙ ap (λ n. drop n front) {x = over + (s - over)} (omega arith)
            ∙ drop-take s e buf)

  window-wrapped :
      s ≤ e
      → length (drop room line) ≤ s
      → drop s (wrap buf line e room) ++ take (length (drop room line)) (wrap buf line e room)
        ≡ take (e - s) (drop s buf) ++ line
  window-wrapped h k =
      rw (take-wrapped, drop-wrapped h k)
        (append_assoc (take (e - s) (drop s buf)) (take room line) (drop room line)
          ∙ ap (◌++◌ (take (e - s) (drop s buf))) (take-append-drop room line))

length-copy : (dst src : List ℕ) → length (copy dst src) ≡ length dst
unfolding copy
length-copy [] src = refl
length-copy (d ∷ dst) [] = refl
length-copy (d ∷ dst) (c ∷ src) = ap suc (length-copy dst src)

length-write_bytes : (b : Buffer) (line : List ℕ) → length (write_bytes b line).buf ≡ length b.buf
unfolding write_bytes
length-write_bytes b line =
    let room : ℕ = length (drop (end_of b) b.buf) in
    let tail : List ℕ = take (end_of b) b.buf ++ copy (drop (end_of b) b.buf) line in
    ground (
      arith,
      length-copy tail (drop room line),
      length-copy (drop (end_of b) b.buf) line,
      length-append (take (end_of b) b.buf) (copy (drop (end_of b) b.buf) line),
      length-append (take (end_of b) b.buf) (drop (end_of b) b.buf),
      take-append-drop (end_of b) b.buf,
    )

pub write_bytes-IsRing :
    (b : Buffer) (line : List ℕ)
    → IsRing b
    → b.len + length line ≤ b.size
    → IsRing (write_bytes b line)
unfolding write_bytes
write_bytes-IsRing b line v h = record {
  storage = length-write_bytes b line ∙ v.storage;
  start_in = v.start_in;
  len_in = h;
}

module _ (b : Buffer) (line : List ℕ) (v : IsRing b) (fits : b.len + length line ≤ b.size) where
  contents-before :
      b.start + b.len < b.size
      → b.start + b.len + length line ≤ b.size
      → contents (write_bytes b line) ≡ contents b ++ line
  unfolding write_bytes
  contents-before low h =
      let e : ℕ = b.start + b.len in
      let e' : end_of b ≡ e = end_of_low b low in
      contents_low (write_bytes b line) (write_bytes-IsRing b line v fits) (omega arith)
      ∙ ap (λ l. take (b.len + length line) (drop b.start l))
          (write_bytes-fits b line (omega (arith, length-drop (end_of b) b.buf)))
      ∙ ap (λ k. take (b.len + length line) (drop b.start (splice b.buf k line))) e'
      ∙ ap (λ k. take k (drop b.start (splice b.buf e line))) {y = e - b.start + length line}
          (omega arith)
      ∙ window-splice b.buf line b.start e (omega arith) (omega arith)
      ∙ ap (λ k. take k (drop b.start b.buf) ++ line) {y = b.len} (omega arith)
      ∙ ap (λ l. l ++ line) (sym (contents_low b v (omega arith)))

  contents-over :
      b.start + b.len < b.size
      → b.size < b.start + b.len + length line
      → contents (write_bytes b line) ≡ contents b ++ line
  unfolding write_bytes
  contents-over low h =
      let e : ℕ = b.start + b.len in
      let room : ℕ = length (drop (end_of b) b.buf) in
      let e' : end_of b ≡ e = end_of_low b low in
      let room' : room + e ≡ b.size = omega (arith, length-drop (end_of b) b.buf) in
      let over : length (drop room line) ≡ length line - room = length-drop room line in
      contents_high (write_bytes b line) (write_bytes-IsRing b line v fits) (omega arith)
      ∙ ap (λ l. drop b.start l ++ take (b.start + (b.len + length line) - b.size) l)
          (write_bytes-wraps b line (omega arith) (omega arith) (omega arith))
      ∙ ap
          (λ k.
            drop b.start (wrap b.buf line k room)
            ++ take (b.start + (b.len + length line) - b.size) (wrap b.buf line k room))
          e'
      ∙ ap (λ k. drop b.start (wrap b.buf line e room) ++ take k (wrap b.buf line e room))
          {y = length (drop room line)} (omega arith)
      ∙ window-wrapped b.buf line b.start e room (omega arith) (omega arith) (omega arith)
      ∙ ap (λ k. take k (drop b.start b.buf) ++ line) {y = b.len} (omega arith)
      ∙ ap (λ l. l ++ line) (sym (contents_low b v (omega arith)))

  contents-after : b.size ≤ b.start + b.len → contents (write_bytes b line) ≡ contents b ++ line
  unfolding write_bytes
  contents-after high =
      let e : ℕ = b.start + b.len - b.size in
      let e' : end_of b ≡ e = end_of_high b v high in
      contents_high (write_bytes b line) (write_bytes-IsRing b line v fits) (omega arith)
      ∙ ap (λ l. drop b.start l ++ take (b.start + (b.len + length line) - b.size) l)
          (write_bytes-fits b line (omega (arith, length-drop (end_of b) b.buf)))
      ∙ ap
          (λ k.
            drop b.start (splice b.buf k line)
            ++ take (b.start + (b.len + length line) - b.size) (splice b.buf k line))
          e'
      ∙ ap (λ k. drop b.start (splice b.buf e line) ++ take k (splice b.buf e line))
          {y = e + length line} (omega arith)
      ∙ ap (λ l. l ++ take (e + length line) (splice b.buf e line))
          (drop-splice b.buf line b.start e (omega arith) (omega arith))
      ∙ ap (◌++◌ (drop b.start b.buf)) (take-splice b.buf line b.start e (omega arith))
      ∙ sym (append_assoc (drop b.start b.buf) (take e b.buf) line)
      ∙ ap (λ l. l ++ line) (sym (contents_high b v high))

  -- Where a buffer's indices are in range, a line that fits into the free room goes to the end of
  -- the stored bytes, wherever the storage wraps.
  pub contents-write_bytes : contents (write_bytes b line) ≡ contents b ++ line
  contents-write_bytes = elim (dec_lt (b.start + b.len) b.size) [
    | no high ↦ contents-after (omega arith)
    | yes low ↦ elim (dec_lt b.size (b.start + b.len + length line)) [
      | yes over ↦ contents-over low over
      | no within ↦ contents-before low (omega arith)
    ]
  ]
