-- ===== src/Tests/Buffers.antt =====
-- The line buffer, at a buffer of eight bytes whose lines have at most four.
use gopherbot.Prelude.{ℕ, ◌≡◌, refl, false, some, List, [], ◌∷◌, ◌++◌, arith}
use gopherbot.LineBuffer.{Buffer, ends_line}
use gopherbot.LineBuffer.Contents.{IsRing}
use gopherbot.LineBuffer.Discard.{lines}
use gopherbot.LineBuffer.WriteLine.{IsValid}
use gopherbot.LineBuffer.Log.{write_all, AllStores, split_all, write_all_lem}

-- "\nab\n" from the sixth byte on, wrapped round to the front: the lines are "ab" and "c".
abbrev wrapped : Buffer
wrapped = record {
  buf = b'\n' ∷ b'c' ∷ b'\n' ∷ 0 ∷ 0 ∷ 0 ∷ b'a' ∷ b'b' ∷ [];
  size = 8;
  linesize = 4;
  trunc = b'~' ∷ b'\n' ∷ [];
  start = 6;
  len = 5;
  closed = false;
}

wrapped-IsRing : IsRing wrapped
wrapped-IsRing = record { storage = refl; start_in = omega arith; len_in = omega arith }

wrapped-IsValid : IsValid wrapped
wrapped-IsValid = record {
  ring = wrapped-IsRing;
  lines_fit = omega arith;
  trunc_fits = omega arith;
  trunc_ends = unfold ends_line in refl;
  whole = unfold ends_line in refl;
}

abbrev long_line : List ℕ
long_line = b'd' ∷ b'e' ∷ b'f' ∷ b'g' ∷ b'h' ∷ []

abbrev three_lines : List (List ℕ)
three_lines = long_line ∷ (b'x' ∷ []) ∷ long_line ∷ []

write_all_lem_example :
    (b' : Buffer) × (stored : List (List ℕ)) × (dropped : List (List ℕ)) × (write_all wrapped
        three_lines
      ≡ some b')
    × AllStores wrapped three_lines stored
    × (lines wrapped ++ split_all stored ≡ dropped ++ lines b')
    × IsValid b'
write_all_lem_example = write_all_lem three_lines wrapped wrapped-IsValid refl
