-- ===== src/Std/Decimal.antt =====
-- Numbers as text: `std::to_string`, `std::stoi` and `std::stoul`. A leading run of white space
-- and a sign are read, and what follows the last digit is ignored.
pub mod RoundTrip
use stateline.Prelude.{
  ℕ, zero, suc, ◌+◌, ◌-◌, ◌*◌, ◌/◌, ◌%◌, Bool, true, false, ◌&&◌, ◌||◌, List, [], ◌∷◌, ◌++◌, ltb,
  leb, ◌==◌, if◌then◌else◌, ℤ, pos, negsuc, int_max, ulong_mod, Result, ok, err, ◌>>=◌,
  invalid_argument, out_of_range,
}
use stateline.Std.Key.{Str}

-- The decimal digits of a number below the fuel.
to_digits : ℕ → ℕ → Str
to_digits zero n = []
to_digits (suc fuel) n =
    let rest = to_digits fuel (n / 10) in
    if ltb n 10 then (b'0' + n) ∷ [] else rest ++ (b'0' + n % 10) ∷ []

-- `std::to_string` of an unsigned number.
unfoldable pub to_string : ℕ → Str
unfolding to_digits
to_string n = to_digits (suc n) n

abbrev pub is_digit : ℕ → Bool
is_digit c = leb b'0' c && leb c b'9'

abbrev is_space : ℕ → Bool
is_space c = c == b' ' || leb 9 c && leb c 13

skip_spaces : Str → Str
skip_spaces [] = []
skip_spaces (c ∷ s) = let rest = skip_spaces s in if is_space c then rest else c ∷ s

-- Whether a minus sign was read, and what follows the sign.
sign : Str → Bool × Str
sign [] = (false, [])
sign (c ∷ s) = if c == b'-' then (true, s) else if c == b'+' then (false, s) else (false, c ∷ s)

starts_with_digit : Str → Bool
starts_with_digit [] = false
starts_with_digit (c ∷ s) = is_digit c

read_digits : ℕ → Str → ℕ
read_digits acc [] = acc
read_digits acc (c ∷ s) =
    let rest = read_digits (acc * 10 + (c - b'0')) s in if is_digit c then rest else acc

-- The sign and the magnitude of the number that a text begins with.
parse_number : Str → Result (Bool × ℕ)
unfolding skip_spaces sign starts_with_digit read_digits
parse_number s =
    let (negative, t) = sign (skip_spaces s) in
    if starts_with_digit t then ok (negative, read_digits 0 t) else err invalid_argument

to_int : Bool × ℕ → Result ℤ
to_int (false, n) = if leb n int_max then ok (pos n) else err out_of_range
to_int (true, zero) = ok (pos 0)
to_int (true, suc n) = if leb n int_max then ok (negsuc n) else err out_of_range

-- `std::stoi`.
unfoldable pub stoi : Str → Result ℤ
unfolding parse_number to_int
stoi s = parse_number s >>= to_int

to_ulong : Bool × ℕ → Result ℕ
to_ulong (negative, n) =
    if ltb n ulong_mod
    then (if negative then ok ((ulong_mod - n) % ulong_mod) else ok n)
    else err out_of_range

-- `std::stoul`, which takes a minus sign and wraps.
unfoldable pub stoul : Str → Result ℕ
unfolding parse_number to_ulong
stoul s = parse_number s >>= to_ulong
