-- ===== src/LineBuffer/Contents.antt =====
-- The stored bytes as one list: the window of `length` bytes on the storage laid end to end.
use gopherbot.Prelude.{
  ℕ, ◌+◌, ◌-◌, ◌≤◌, ◌<◌, ◌≡◌, refl, ap, ◌∙◌, none, some, List, [], ◌∷◌, ◌++◌, arith, dec_lt, length,
  take, drop, length-append, length-take, length-drop, take-append_le, take-append_ge,
  drop-append_le, take_all,
}
use native.Mathlib.Nat.{mod-eq_of_lt, mod-eq-sub-mod}
use mathlib.Core.Option
use gopherbot.LineBuffer.{Buffer, end_of, index_byte, copy, snapshot}

abbrev pub contents : Buffer → List ℕ
contents b = take b.len (drop b.start (b.buf ++ b.buf))

-- What the arithmetic on indices relies on.
pub record IsRing (b : Buffer) : Type 0 where
  pub storage : length b.buf ≡ b.size
  pub start_in : b.start < b.size
  pub len_in : b.len ≤ b.size

-- Where the end lies: past the start, or wrapped round to the front.
pub end_of_low : (b : Buffer) → b.start + b.len < b.size → end_of b ≡ b.start + b.len
end_of_low b h = mod-eq_of_lt h

pub end_of_high :
    (b : Buffer) → IsRing b → b.size ≤ b.start + b.len → end_of b ≡ b.start + b.len - b.size
end_of_high b v h = omega (
  arith,
  mod-eq-sub-mod {n = b.start + b.len} {m = b.size} h,
  mod-eq_of_lt {n = b.start + b.len - b.size} {m = b.size} (omega arith),
)

pub contents_low :
    (b : Buffer)
    → IsRing b
    → b.start + b.len ≤ b.size
    → contents b ≡ take b.len (drop b.start b.buf)
contents_low b v h =
    ap (take b.len) (drop-append_le b.start b.buf b.buf (omega arith))
    ∙ take-append_le b.len (drop b.start b.buf) b.buf (omega (arith, length-drop b.start b.buf))

pub contents_high :
    (b : Buffer)
    → IsRing b
    → b.size ≤ b.start + b.len
    → contents b ≡ drop b.start b.buf ++ take (b.start + b.len - b.size) b.buf
contents_high b v h =
    ap (take b.len) (drop-append_le b.start b.buf b.buf (omega arith))
    ∙ take-append_ge b.len (drop b.start b.buf) b.buf (omega (arith, length-drop b.start b.buf))
    ∙ ap (λ k. drop b.start b.buf ++ take k b.buf) (omega (arith, length-drop b.start b.buf))

pub length-contents : (b : Buffer) → IsRing b → length (contents b) ≡ b.len
length-contents b v = omega (
  arith,
  length-take b.len (drop b.start (b.buf ++ b.buf)),
  length-drop b.start (b.buf ++ b.buf),
  length-append b.buf b.buf,
)

snapshot_empty : (b : Buffer) → ¬ (0 < b.len) → snapshot b ≡ contents b
unfolding snapshot
snapshot_empty b p =
    ground
      (arith, ap (λ n. take n (drop b.start (b.buf ++ b.buf))) {x = b.len} {y = 0} (omega arith))

snapshot_low :
    (b : Buffer) → IsRing b → 0 < b.len → b.start + b.len < b.size → snapshot b ≡ contents b
unfolding snapshot
snapshot_low b v p low = ground (
  arith,
  end_of_low b low,
  contents_low b v (omega arith),
  ap (λ n. take n (drop b.start b.buf)) {x = b.start + b.len - b.start} {y = b.len} (omega arith),
)

snapshot_high :
    (b : Buffer) → IsRing b → 0 < b.len → b.size ≤ b.start + b.len → snapshot b ≡ contents b
unfolding snapshot
snapshot_high b v p high = ground (
  arith,
  end_of_high b v high,
  contents_high b v high,
  take_all b.len (drop b.start b.buf ++ take (b.start + b.len - b.size) b.buf) (
      omega (
        arith,
        length-append (drop b.start b.buf) (take (b.start + b.len - b.size) b.buf),
        length-drop b.start b.buf,
        length-take (b.start + b.len - b.size) b.buf,
      )),
)

-- Where a buffer's indices are in range, a snapshot gives the stored bytes in order.
pub snapshot-eq-contents : (b : Buffer) → IsRing b → snapshot b ≡ contents b
snapshot-eq-contents b v = elim (dec_lt 0 b.len) [
  | no p ↦ snapshot_empty b p
  | yes p ↦ elim (dec_lt (b.start + b.len) b.size) [
    | yes low ↦ snapshot_low b v p low
    | no high ↦ snapshot_high b v p (omega arith)
  ]
]

pub index_byte-append :
    (xs ys : List ℕ)
    → index_byte (xs ++ ys) ≡ elim (index_byte xs) [
      | some i ↦ some i
      | none ↦ Option.map (λ j. length xs + j) (index_byte ys)
    ]
unfolding index_byte
index_byte-append [] ys = ground arith
index_byte-append (x ∷ xs) ys = ground (arith, index_byte-append xs ys)

pub index_byte-lt : (xs : List ℕ) (i : ℕ) → index_byte xs ≡ some i → i < length xs
unfolding index_byte
index_byte-lt [] i h = cc
index_byte-lt (x ∷ xs) i h = grind (arith, index_byte-lt xs)

pub copy_lem : (dst src : List ℕ) → copy dst src ≡ take (length dst) src ++ drop (length src) dst
unfolding copy
copy_lem [] [] = refl
copy_lem [] (x ∷ src) = refl
copy_lem (d ∷ dst) [] = refl
copy_lem (d ∷ dst) (x ∷ src) = ap (◌∷◌ x) (copy_lem dst src)
