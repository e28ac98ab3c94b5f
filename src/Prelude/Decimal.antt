-- ===== src/Prelude/Decimal.antt =====
-- Integers and their decimal texts: what the code uses of the package strconv.
pub mod RoundTrip
use rom_server_poc.Prelude.{
  ℕ, zero, suc, ◌+◌, ◌-◌, ◌*◌, ◌/◌, ◌%◌, ◌^◌, Bool, true, false, ◌&&◌, Option, none, some, List, [],
  ◌∷◌, ◌++◌, ◌==◌, leb, ltb, if◌then◌else◌,
}

-- `negsuc n` is -(n + 1).
pub data ℤ : Type 0 where
  pos negsuc : ℕ → ℤ

unfoldable pub is_digit : ℕ → Bool
is_digit c = leb b'0' c && leb c b'9'

unfoldable pub parse_digits : ℕ → List ℕ → Option ℕ
unfolding is_digit
parse_digits acc [] = some acc
parse_digits acc (c ∷ cs) =
    let rest = parse_digits (acc * 10 + (c - b'0')) cs in if is_digit c then rest else none

-- One digit at least.
unfoldable pub parse_nat : List ℕ → Option ℕ
unfolding parse_digits
parse_nat [] = none
parse_nat (c ∷ cs) = parse_digits 0 (c ∷ cs)

abbrev pub negate : ℕ → ℤ
negate zero = pos 0
negate (suc n) = negsuc n

abbrev in_range : Bool → ℕ → Option ℤ
in_range true n = if leb n (2 ^ 63) then some (negate n) else none
in_range false n = if ltb n (2 ^ 63) then some (pos n) else none

abbrev ranged : Bool → Option ℕ → Option ℤ
ranged negative none = none
ranged negative (some n) = in_range negative n

-- strconv.ParseInt(s, 10, 64) and strconv.Atoi: none is either of their errors.
unfoldable pub parse_int : List ℕ → Option ℤ
unfolding parse_nat
parse_int [] = none
parse_int (c ∷ cs) =
    if c == b'-'
    then ranged true (parse_nat cs)
    else if c == b'+'
    then ranged false (parse_nat cs)
    else ranged false (parse_nat (c ∷ cs))

-- The digits of a number below `fuel`.
unfoldable pub digits : ℕ → ℕ → List ℕ
digits zero n = []
digits (suc fuel) n =
    let high = digits fuel (n / 10) in
    if ltb n 10 then (b'0' + n) ∷ [] else high ++ (b'0' + n % 10) ∷ []

-- strconv.FormatInt(i, 10) and strconv.Itoa
unfoldable pub format_int : ℤ → List ℕ
unfolding digits
format_int (pos n) = digits (suc n) n
format_int (negsuc n) = b'-' ∷ digits (suc (suc n)) (suc n)
