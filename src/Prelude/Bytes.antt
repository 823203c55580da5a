-- ===== src/Prelude/Bytes.antt =====
-- Go strings as the bytes that they are: comparison, search, hexadecimal digits, and the bytes of a
-- text.
use Prim.Native.Nat.{ℕ, ◌+◌, ◌/◌, ◌%◌}
use Prim.Native.Char.{code}
use Prim.Native.String.{String}
use mathlib.Core.Path.{◌≡◌, refl}
use mathlib.Core.Logic.{◌↔◌}
use mathlib.Core.Bool.{Bool, true, false, ◌&&◌, ◌||◌}
use mathlib.Core.List.{List, [], ◌∷◌}
use native.Mathlib.Omega.{arith}
use gopherbot.Prelude.Tests.{◌==◌, leb, ltb, dec_of, if◌then◌else◌}

abbrev pub Text : Type 0
Text = List ℕ

-- The bytes of an ASCII text.
abbrev pub codes : String → List ℕ
codes String.[] = []
codes (String.◌∷◌ c s) = code c ∷ codes s

unfoldable pub bytes_eq : List ℕ → List ℕ → Bool
bytes_eq [] [] = true
bytes_eq [] (y ∷ ys) = false
bytes_eq (x ∷ xs) [] = false
bytes_eq (x ∷ xs) (y ∷ ys) = (x == y) && bytes_eq xs ys

pub bytes_eq_iff : (xs ys : List ℕ) → (bytes_eq xs ys ≡ true) ↔ (xs ≡ ys)
unfolding bytes_eq
bytes_eq_iff [] [] = (λ h. refl, λ h. refl)
bytes_eq_iff [] (y ∷ ys) = (λ h. cc, λ h. cc)
bytes_eq_iff (x ∷ xs) [] = (λ h. cc, λ h. cc)
bytes_eq_iff (x ∷ xs) (y ∷ ys) =
    (λ h. ground (arith, bytes_eq_iff xs ys), λ h. ground (arith, bytes_eq_iff xs ys))

abbrev pub Bytes_discrete : Discrete (List ℕ)
Bytes_discrete xs ys = dec_of (bytes_eq xs ys) (bytes_eq_iff xs ys)

-- strings.HasPrefix(s, prefix)
unfoldable pub has_prefix : List ℕ → List ℕ → Bool
has_prefix s [] = true
has_prefix [] (p ∷ ps) = false
has_prefix (c ∷ s) (p ∷ ps) = (c == p) && has_prefix s ps

-- strings.Contains(s, sub)
unfoldable pub contains : List ℕ → List ℕ → Bool
unfolding has_prefix
contains [] sub = has_prefix [] sub
contains (c ∷ s) sub = has_prefix (c ∷ s) sub || contains s sub

hex_digit : ℕ → ℕ
hex_digit n = if ltb n 10 then b'0' + n else 87 + n

-- fmt.Sprintf("%x", bytes)
unfoldable pub hex : List ℕ → List ℕ
unfolding hex_digit
hex [] = []
hex (b ∷ bs) = hex_digit (b / 16) ∷ hex_digit (b % 16) ∷ hex bs

-- \w of Go's regular expressions: ASCII letters, digits and the underscore
unfoldable pub is_word : ℕ → Bool
is_word c =
    (leb b'0' c && leb c b'9')
    || (leb b'A' c && leb c b'Z')
    || (leb b'a' c && leb c b'z')
    || c == b'_'

-- `value == ""`
abbrev pub is_empty : Text → Bool
is_empty t = bytes_eq t []

-- The loops that look for a value in a slice.
unfoldable pub is_listed : Text → List Text → Bool
is_listed x [] = false
is_listed x (y ∷ ys) = bytes_eq x y || is_listed x ys

-- `len(values) > 0`
abbrev pub is_nonempty : List Text → Bool
is_nonempty [] = false
is_nonempty (x ∷ xs) = true

pub is_nonempty_of_is_listed :
    (x : Text) (l : List Text) → is_listed x l ≡ true → is_nonempty l ≡ true
unfolding is_listed
is_nonempty_of_is_listed x [] e = e
is_nonempty_of_is_listed x (y ∷ l) e = refl
