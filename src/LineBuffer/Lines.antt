-- ===== src/LineBuffer/Lines.antt =====
-- The abstract view of a buffer: the lines that it holds, oldest first, and the eviction of as few
-- of the oldest lines as free the room that is needed.
use gopherbot.Prelude.{
  ℕ, zero, suc, ◌+◌, ◌-◌, ◌≤◌, ◌<◌, ◌≡◌, refl, sym, ap, true, none, some, List, [], ◌∷◌, ◌++◌,
  arith, ltb, ◌==◌, if◌then◌else◌, Bool-cases, length, take, drop, length-append, ◌⊎◌, inl, inr,
  ◌≢◌,
}
use gopherbot.LineBuffer.{newline, ends_line, index_byte}

abbrev cons_head : ℕ → List (List ℕ) → List (List ℕ)
cons_head c [] = (c ∷ []) ∷ []
cons_head c (l ∷ ls) = (c ∷ l) ∷ ls

-- Each line with its newline; what follows the last newline is a line too.
unfoldable pub split_lines : List ℕ → List (List ℕ)
split_lines [] = []
split_lines (c ∷ cs) =
    if c == newline then (c ∷ []) ∷ split_lines cs else cons_head c (split_lines cs)

unfoldable pub join_lines : List (List ℕ) → List ℕ
join_lines [] = []
join_lines (l ∷ ls) = l ++ join_lines ls

-- Drop lines from the front while room is needed.
unfoldable pub evict : ℕ → List (List ℕ) → List (List ℕ)
evict need [] = []
evict need (l ∷ ls) = if ltb 0 need then evict (need - length l) ls else l ∷ ls

join_lines-cons_head :
    (c : ℕ) (ls : List (List ℕ)) → join_lines (cons_head c ls) ≡ c ∷ join_lines ls
unfolding join_lines
join_lines-cons_head c [] = refl
join_lines-cons_head c (l ∷ ls) = refl

pub join_lines-split_lines : (cs : List ℕ) → join_lines (split_lines cs) ≡ cs
unfolding join_lines split_lines
join_lines-split_lines [] = refl
join_lines-split_lines (c ∷ cs) =
    ground (arith, join_lines-split_lines cs, join_lines-cons_head c (split_lines cs))

-- The first newline ends the first line.
pub split_lines-some :
    (cs : List ℕ) (e : ℕ)
    → index_byte cs ≡ some e
    → split_lines cs ≡ take (suc e) cs ∷ split_lines (drop (suc e) cs)
unfolding split_lines index_byte
split_lines-some [] e h = cc
split_lines-some (c ∷ cs) zero h = ground arith
split_lines-some (c ∷ cs) (suc e) h = ground (arith, split_lines-some cs e)

pub split_lines-none :
    (c : ℕ) (cs : List ℕ) → index_byte (c ∷ cs) ≡ none → split_lines (c ∷ cs) ≡ (c ∷ cs) ∷ []
unfolding split_lines index_byte
split_lines-none c [] h = ground arith
split_lines-none c (d ∷ cs) h = ground (arith, split_lines-none d cs)

-- A text of whole lines: empty, or closed by a newline.
abbrev pub IsWhole : List ℕ → Type 0
IsWhole [] = Unit {0}
IsWhole (c ∷ cs) = ends_line (c ∷ cs) ≡ true

cons_head-append :
    (c : ℕ) (xs ys : List (List ℕ)) → xs ≢ [] → cons_head c (xs ++ ys) ≡ cons_head c xs ++ ys
cons_head-append c [] ys h = absurd (h refl)
cons_head-append c (x ∷ xs) ys h = refl

cons_head-ne-nil : (c : ℕ) (xs : List (List ℕ)) → cons_head c xs ≢ []
cons_head-ne-nil c [] h = cc
cons_head-ne-nil c (x ∷ xs) h = cc

split_lines-ne-nil : (c : ℕ) (cs : List ℕ) → split_lines (c ∷ cs) ≢ []
unfolding split_lines
split_lines-ne-nil c cs h = ground (arith, cons_head-ne-nil c (split_lines cs))

pub split_lines-append :
    (xs ys : List ℕ) → IsWhole xs → split_lines (xs ++ ys) ≡ split_lines xs ++ split_lines ys
unfolding split_lines ends_line
split_lines-append [] ys w = refl
split_lines-append (x ∷ []) ys w = ground arith
split_lines-append (x ∷ d ∷ xs) ys w = ground (
  arith,
  split_lines-append (d ∷ xs) ys w,
  cons_head-append x (split_lines (d ∷ xs)) (split_lines ys) (split_lines-ne-nil d xs),
)

pub IsWhole-append : (xs ys : List ℕ) → IsWhole xs → IsWhole ys → IsWhole (xs ++ ys)
unfolding ends_line
IsWhole-append [] ys h k = k
IsWhole-append (x ∷ []) [] h k = h
IsWhole-append (x ∷ []) (y ∷ ys) h k = k
IsWhole-append (x ∷ d ∷ xs) ys h k = IsWhole-append (d ∷ xs) ys h k

pub IsWhole-drop : (n : ℕ) (xs : List ℕ) → IsWhole xs → IsWhole (drop n xs)
unfolding ends_line
IsWhole-drop zero xs h = h
IsWhole-drop (suc n) [] h = tt
IsWhole-drop (suc zero) (x ∷ []) h = tt
IsWhole-drop (suc (suc n)) (x ∷ []) h = tt
IsWhole-drop (suc n) (x ∷ d ∷ xs) h = IsWhole-drop n (d ∷ xs) h

-- Eviction frees the room asked for, or everything.
pub evict-frees :
    (need : ℕ) (ls : List (List ℕ))
    → need ≤ length (join_lines ls)
    → length (join_lines (evict need ls)) + need ≤ length (join_lines ls)
unfolding join_lines evict
evict-frees need [] h = omega arith
evict-frees need (l ∷ ls) h =
    ground (arith, length-append l (join_lines ls), evict-frees (need - length l) ls)

abbrev pub Evicts : ℕ → List (List ℕ) → List (List ℕ) → Type 0
Evicts need ls kept =
    (dropped : List (List ℕ)) × (l : List ℕ) × (ls ≡ dropped ++ (l ∷ kept))
    × (length (join_lines dropped) < need)

evict_step :
    (need : ℕ) (l : List ℕ) (ls : List (List ℕ))
    → ltb 0 need ≡ true
    → (evict (need - length l) ls ≡ ls) ⊎ Evicts (need - length l) ls (evict (need - length l) ls)
    → Evicts need (l ∷ ls) (evict (need - length l) ls)
unfolding join_lines
evict_step need l ls needed (inl e) = ([], l, ap (◌∷◌ l) (sym e), ground arith)
evict_step need l ls needed (inr (d, k, e, h)) =
    (l ∷ d, k, ap (◌∷◌ l) e, omega (arith, length-append l (join_lines d)))

-- Eviction keeps the newest lines: what it drops is a front part of the lines, and its last line
-- was still needed.
pub evict-minimal :
    (need : ℕ) (ls : List (List ℕ)) → (evict need ls ≡ ls) ⊎ Evicts need ls (evict need ls)
unfolding evict
evict-minimal need [] = inl refl
evict-minimal need (l ∷ ls) = elim (Bool-cases (ltb 0 need)) [
  | inr no_need ↦ inl (rw no_need)
  | inl needed ↦ rw needed (inr (evict_step need l ls needed (evict-minimal (need - length l) ls)))
]
