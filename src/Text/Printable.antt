-- ===== src/Text/Printable.antt =====
-- The characters of escaped texts and of printed numbers.
use Prim.Native.Char.{Char, code}
use Prim.Native.String.{String, [], ◌∷◌}
use near_indexer_for_explore.Base.{
  ℕ, zero, suc, ◌/◌, ◌%◌, ◌≤◌, ◌≡◌, refl, ap, ◌∙◌, All, true, false, List, ◌||◌, arith, eqb,
  Bool-cases, inl, inr,
}
use near_indexer_for_explore.Text.{
  hex_table, digit_at, hex, digits, decimal, hex_bytes, is_printable, escape_char, escape_default,
}

abbrev pub PrintableChar : Char → Type 0
PrintableChar c = (0x20 ≤ code c) × (code c ≤ 0x7e)

abbrev pub Printable : String → Type 0
Printable [] = Unit
Printable (c ∷ s) = PrintableChar c × Printable s

entry_printable : (cs : List Char) (i : ℕ) → All PrintableChar cs → PrintableChar (digit_at cs i)
entry_printable List.[] i h = omega arith
entry_printable (List.◌∷◌ c cs) zero h = h.0
entry_printable (List.◌∷◌ c cs) (suc i) h = entry_printable cs i h.1

table_printable : (i : ℕ) → PrintableChar (digit_at hex_table i)
table_printable i = entry_printable hex_table i (omega arith)

hex-Printable : (fuel n : ℕ) (rest : String) → Printable rest → Printable (hex fuel n rest)
unfolding hex
hex-Printable zero n rest h = h
hex-Printable (suc fuel) n rest h =
    let here = table_printable (n % 16) in
    elim (Bool-cases (eqb (n / 16) 0)) [
      | inl last ↦ rw last (here, h)
      | inr more ↦ rw more (hex-Printable fuel (n / 16) _ (here, h))
    ]

escape_char-Printable : (c : Char) (rest : String) → Printable rest → Printable (escape_char c rest)
unfolding escape_char
escape_char-Printable c rest h = elim (Bool-cases (eqb (code c) 9)) [
  | inl tab ↦ rw tab (omega arith, (omega arith, h))
  | inr e1 ↦ elim (Bool-cases (eqb (code c) 13)) [
    | inl cr ↦ rw (e1, cr) (omega arith, (omega arith, h))
    | inr e2 ↦ elim (Bool-cases (eqb (code c) 10)) [
      | inl lf ↦ rw (e1, e2, lf) (omega arith, (omega arith, h))
      | inr e3 ↦ elim (Bool-cases (eqb (code c) 0x27 || (eqb (code c) 0x22 || eqb (code c) 0x5c))) [
        | inl quote ↦ rw (e1, e2, e3, quote) (omega arith, (ground arith, h))
        | inr e4 ↦ elim (Bool-cases (is_printable (code c))) [
          | inl plain ↦ rw (e1, e2, e3, e4, plain) (ground arith, h)
          | inr other ↦
              rw (e1, e2, e3, e4, other)
                (
                  omega arith,
                  (
                    omega arith,
                    (omega arith, hex-Printable 6 (code c) ("}" ∷ rest) (omega arith, h)),
                  ),
                )
        ]
      ]
    ]
  ]
]

-- Whatever the text, `escape_default` gives one of printable ASCII characters only, so that no
-- null character reaches the database.
pub escape_default-Printable : (s : String) → Printable (escape_default s)
unfolding escape_default
escape_default-Printable [] = tt
escape_default-Printable (c ∷ s) =
    escape_char-Printable c (escape_default s) (escape_default-Printable s)

-- Text of printable characters without quotes and backslashes.
abbrev pub IsPlain : String → Type 0
IsPlain [] = Unit
IsPlain (c ∷ s) =
    (is_printable (code c) ≡ true)
    × ((eqb (code c) 0x27 || (eqb (code c) 0x22 || eqb (code c) 0x5c)) ≡ false)
    × IsPlain s

escape_char_plain :
    (c : Char) (rest : String)
    → is_printable (code c) ≡ true
    → (eqb (code c) 0x27 || (eqb (code c) 0x22 || eqb (code c) 0x5c)) ≡ false
    → escape_char c rest ≡ c ∷ rest
unfolding escape_char
escape_char_plain c rest p q =
    let e1 : eqb (code c) 9 ≡ false = ground arith in
    let e2 : eqb (code c) 13 ≡ false = ground arith in
    let e3 : eqb (code c) 10 ≡ false = ground arith in rw (e1, e2, e3, q, p)

-- Plain text is escaped to itself.
pub escape_default-plain : (s : String) → IsPlain s → escape_default s ≡ s
unfolding escape_default
escape_default-plain [] h = refl
escape_default-plain (c ∷ s) (p, q, h) =
    escape_char_plain c (escape_default s) p q ∙ ap (◌∷◌ c) (escape_default-plain s h)

digits-Printable : (fuel n : ℕ) (rest : String) → Printable rest → Printable (digits fuel n rest)
unfolding digits
digits-Printable zero n rest h = h
digits-Printable (suc fuel) n rest h =
    let here = table_printable (n % 10) in
    elim (Bool-cases (eqb (n / 10) 0)) [
      | inl last ↦ rw last (here, h)
      | inr more ↦ rw more (digits-Printable fuel (n / 10) _ (here, h))
    ]

pub decimal-Printable : (n : ℕ) → Printable (decimal n)
unfolding decimal
decimal-Printable n = digits-Printable 39 n [] tt

pub hex_bytes-Printable : (bs : List ℕ) → Printable (hex_bytes bs)
unfolding hex_bytes
hex_bytes-Printable List.[] = tt
hex_bytes-Printable (List.◌∷◌ b bs) =
    (table_printable (b / 16 % 16), (table_printable (b % 16), hex_bytes-Printable bs))
