-- ===== src/Text.antt =====
-- Texts as the indexer treats them: `str::escape_default`, `str::trim` and prefixes, from the
-- standard library of Rust.
pub mod Printable
mod Tests
use Prim.Native.Char.{Char, code}
use Prim.Native.String.{String, [], ◌∷◌}
use near_indexer_for_explore.Base.{
  ℕ, zero, suc, ◌/◌, ◌%◌, Bool, true, false, Option, none, some, List, ◌&&◌, ◌||◌, leb, eqb,
  if◌then◌else◌,
}
use mathlib.Core.List

abbrev pub hex_table : List Char
hex_table = List.◌∷◌ "0" (
    List.◌∷◌ "1" (
      List.◌∷◌ "2" (
        List.◌∷◌ "3" (
          List.◌∷◌ "4" (
            List.◌∷◌ "5" (
              List.◌∷◌ "6" (
                List.◌∷◌ "7" (
                  List.◌∷◌ "8" (
                    List.◌∷◌ "9" (
                      List.◌∷◌ "a" (
                        List.◌∷◌ "b" (
                          List.◌∷◌ "c"
                            (List.◌∷◌ "d" (List.◌∷◌ "e" (List.◌∷◌ "f" List.[])))))))))))))))

-- The entry at an index, or a zero.
abbrev pub digit_at : List Char → ℕ → Char
digit_at List.[] i = "0"
digit_at (List.◌∷◌ c cs) zero = c
digit_at (List.◌∷◌ c cs) (suc i) = digit_at cs i

-- Hexadecimal digits before `rest`; a code point has at most six.
hex : ℕ → ℕ → String → String
hex zero n rest = rest
hex (suc fuel) n rest =
    let more = hex fuel (n / 16) (digit_at hex_table (n % 16) ∷ rest) in
    if eqb (n / 16) 0 then digit_at hex_table (n % 16) ∷ rest else more

-- `to_string` of an integer below 2 ^ 128, which has at most 39 digits.
unfoldable pub digits : ℕ → ℕ → String → String
digits zero n rest = rest
digits (suc fuel) n rest =
    let more = digits fuel (n / 10) (digit_at hex_table (n % 10) ∷ rest) in
    if eqb (n / 10) 0 then digit_at hex_table (n % 10) ∷ rest else more

unfoldable pub decimal : ℕ → String
unfolding digits
decimal n = digits 39 n []

-- `hex::encode`.
unfoldable pub hex_bytes : List ℕ → String
hex_bytes List.[] = []
hex_bytes (List.◌∷◌ b bs) =
    digit_at hex_table (b / 16 % 16) ∷ digit_at hex_table (b % 16) ∷ hex_bytes bs

abbrev pub is_printable : ℕ → Bool
is_printable n = leb 0x20 n && leb n 0x7e

-- `char::escape_default`, before `rest`.
pub escape_char : Char → String → String
unfolding hex
escape_char c rest =
    let n = code c in
    if eqb n 9
    then "\\" ∷ "t" ∷ rest
    else if eqb n 13
    then "\\" ∷ "r" ∷ rest
    else if eqb n 10
    then "\\" ∷ "n" ∷ rest
    else if eqb n 0x27 || (eqb n 0x22 || eqb n 0x5c)
    then "\\" ∷ c ∷ rest
    else if is_printable n
    then c ∷ rest
    else "\\" ∷ "u" ∷ "{" ∷ hex 6 n ("}" ∷ rest)

unfoldable pub escape_default : String → String
unfolding escape_char
escape_default [] = []
escape_default (c ∷ s) = escape_char c (escape_default s)

-- The white space of Unicode.
abbrev pub is_whitespace : Char → Bool
is_whitespace c =
    let n = code c in
    (leb 9 n && leb n 13)
    || (eqb n 0x20
        || (eqb n 0x85
            || (eqb n 0xa0
                || (eqb n 0x1680
                    || ((leb 0x2000 n && leb n 0x200a)
                        || (eqb n 0x2028
                            || (eqb n 0x2029
                                || (eqb n 0x202f || (eqb n 0x205f || eqb n 0x3000)))))))))

abbrev pub trim_start : String → String
trim_start [] = []
trim_start (c ∷ s) = if is_whitespace c then trim_start s else c ∷ s

-- A character in front of what is left of a text whose end is trimmed.
abbrev keep_char : Char → String → String
keep_char c [] = if is_whitespace c then [] else c ∷ []
keep_char c (d ∷ s) = c ∷ d ∷ s

abbrev pub trim_end : String → String
trim_end [] = []
trim_end (c ∷ s) = keep_char c (trim_end s)

unfoldable pub trim : String → String
trim s = trim_end (trim_start s)

-- What follows a prefix: `starts_with` and the slice behind it.
unfoldable pub strip_prefix : String → String → Option String
strip_prefix [] s = some s
strip_prefix (c ∷ p) [] = none
strip_prefix (c ∷ p) (d ∷ s) = if eqb (code c) (code d) then strip_prefix p s else none
