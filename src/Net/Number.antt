-- ===== src/Net/Number.antt =====
-- `Number(text)` of JavaScript, as far as the source asks: the natural number that the text stands
-- for, if it stands for one. White space around it is skipped, the empty text is 0, and a decimal
-- literal may have a sign, a point and an exponent; its value is taken exactly.
use wp_open_omega.Common.{
  ℕ, ◌+◌, ◌-◌, ◌*◌, ◌/◌, ◌%◌, ◌^◌, Bool, true, false, not, ◌&&◌, ◌||◌, Option, none, some, [], ◌∷◌,
  ◌++◌, leb, ltb, ◌==◌, if◌then◌else◌, length, Text, is_nil, is_digit, trim, decimal, digits_prefix,
  after_digits,
}

-- The value of a digit in a base up to 16.
unfoldable digit_value : ℕ → Option ℕ
digit_value c =
    if is_digit c
    then some (c - b'0')
    else if leb b'a' c && leb c b'f'
    then some (c - b'a' + 10)
    else if leb b'A' c && leb c b'F'
    then some (c - b'A' + 10)
    else none

unfoldable radix_from : ℕ → ℕ → Text → Option ℕ
unfolding digit_value
radix_from base n [] = some n
radix_from base n (c ∷ s) = elim (digit_value c) [
  | none ↦ none
  | some d ↦ if ltb d base then radix_from base (n * base + d) s else none
]

unfoldable radix : ℕ → Text → Option ℕ
unfolding radix_from
radix base [] = none
radix base (c ∷ s) = radix_from base 0 (c ∷ s)

-- An exponent: its sign and size.
unfoldable exponent : Text → Option (Bool × ℕ)
unfolding decimal after_digits
exponent [] = some (false, 0)
exponent (e ∷ s) = if not (e == b'e' || e == b'E') then none else elim s [
  | [] ↦ none
  | c ∷ t ↦
      let digits = if c == b'-' || c == b'+' then t else c ∷ t in
      if is_nil digits || not (is_nil (after_digits digits))
      then none
      else some (c == b'-', decimal digits)
]

unfoldable scaled : Bool → ℕ → ℕ → Bool × ℕ → Option ℕ
scaled negative mantissa places (down, e) =
    let above = if down then mantissa else mantissa * 10 ^ e in
    let below = if down then 10 ^ (places + e) else 10 ^ places in
    if not (above % below == 0)
    then none
    else if negative && not (above / below == 0)
    then none
    else some (above / below)

unfoldable literal : Bool → Text → Text → Text → Option ℕ
unfolding decimal exponent scaled
literal negative whole fraction rest =
    if is_nil whole && is_nil fraction then none else elim (exponent rest) [
      | none ↦ none
      | some e ↦ scaled negative (decimal (whole ++ fraction)) (length fraction) e
    ]

unfoldable unsigned : Bool → Text → Option ℕ
unfolding digits_prefix after_digits literal
unsigned negative s = elim (after_digits s) [
  | [] ↦ literal negative (digits_prefix s) [] []
  | c ∷ rest ↦
      if c == b'.'
      then literal negative (digits_prefix s) (digits_prefix rest) (after_digits rest)
      else literal negative (digits_prefix s) [] (c ∷ rest)
]

unfoldable signed : Text → Option ℕ
unfolding unsigned
signed [] = some 0
signed (c ∷ s) =
    if c == b'-'
    then unsigned true s
    else if c == b'+'
    then unsigned false s
    else unsigned false (c ∷ s)

unfoldable pub to_number : Text → Option ℕ
unfolding trim radix signed
to_number s = elim (trim s) [
  | [] ↦ some 0
  | c ∷ [] ↦ signed (c ∷ [])
  | c ∷ d ∷ t ↦
      if c == b'0' && (d == b'x' || d == b'X')
      then radix 16 t
      else if c == b'0' && (d == b'o' || d == b'O')
      then radix 8 t
      else if c == b'0' && (d == b'b' || d == b'B')
      then radix 2 t
      else signed (c ∷ d ∷ t)
]
