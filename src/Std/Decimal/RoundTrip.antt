-- ===== src/Std/Decimal/RoundTrip.antt =====
-- A printed number is read back, prints differently from every other, and has digits only.
use stateline.Prelude.{
  ℕ, zero, suc, ◌+◌, ◌/◌, ◌%◌, ◌≤◌, ◌<◌, ◌≡◌, ap, ◌∙◌, ◌≢◌, true, false, [], ◌∷◌, ◌++◌,
  append_assoc, append-nil, arith, All, All-append, ltb, ◌==◌, Bool-cases, inl, inr, pos, int_max,
  ulong_mod, ok, All-mono,
}
use stateline.Std.Key.{Str}
use stateline.Std.Decimal.{to_digits, to_string, is_digit, read_digits, parse_number, stoi, stoul}

read_digits-to_digits :
    (f n : ℕ) (t : Str) → n < f → read_digits 0 (to_digits f n ++ t) ≡ read_digits n t
unfolding to_digits read_digits
read_digits-to_digits zero n t h = absurd (omega arith)
read_digits-to_digits (suc f) n t h = elim (Bool-cases (ltb n 10)) [
  | inl small ↦ rw (small, to_digits) (ground arith)
  | inr big ↦
      let last : Str = (b'0' + n % 10) ∷ [] in
      rw (big, to_digits)
        (rw append_assoc
          (rw (read_digits-to_digits f (n / 10) (last ++ t) (ground arith)) (ground arith)))
]

-- The digits of a printed number.
All-digits : (f n : ℕ) → All (λ c. is_digit c ≡ true) (to_digits f n)
unfolding to_digits
All-digits zero n = tt
All-digits (suc f) n = elim (Bool-cases (ltb n 10)) [
  | inl small ↦ rw (small, to_digits) (ground arith)
  | inr big ↦
      rw (big, to_digits)
        (All-append (λ c. is_digit c ≡ true) (to_digits f (n / 10)) ((b'0' + n % 10) ∷ [])
          (All-digits f (n / 10)) (ground arith))
]

abbrev StartsWithDigit : Str → Type 0
StartsWithDigit s = (c : ℕ) × (t : Str) × (s ≡ c ∷ t) × (is_digit c ≡ true)

StartsWithDigit-append : (s t : Str) → StartsWithDigit s → StartsWithDigit (s ++ t)
StartsWithDigit-append s t (c, u, e, d) = (c, u ++ t, ap (λ x. x ++ t) e, d)

to_digits-StartsWithDigit : (f n : ℕ) → n < f → StartsWithDigit (to_digits f n)
unfolding to_digits
to_digits-StartsWithDigit zero n h = absurd (omega arith)
to_digits-StartsWithDigit (suc f) n h = elim (Bool-cases (ltb n 10)) [
  | inl small ↦ (b'0' + n, [], rw (small, to_digits), ground arith)
  | inr big ↦
      rw (big, to_digits)
        (StartsWithDigit-append (to_digits f (n / 10)) _
          (to_digits-StartsWithDigit f (n / 10) (ground arith)))
]

parse_number-digits : (s : Str) → StartsWithDigit s → parse_number s ≡ ok (false, read_digits 0 s)
unfolding parse_number
parse_number-digits s (c, t, e, d) = rw e (ground arith)

parse_number-to_string : (n : ℕ) → parse_number (to_string n) ≡ ok (false, n)
unfolding to_string read_digits
parse_number-to_string n =
    parse_number-digits (to_digits (suc n) n) (to_digits-StartsWithDigit (suc n) n (omega arith))
    ∙ ap (λ (k : ℕ). ok (false, k)) (read_back n)
  where
    read_back : (n : ℕ) → read_digits 0 (to_digits (suc n) n) ≡ n
    read_back n =
        rw (← append-nil (to_digits (suc n) n)) (read_digits-to_digits (suc n) n [] (omega arith))

pub stoi-to_string : (n : ℕ) → n ≤ int_max → stoi (to_string n) ≡ ok (pos n)
unfolding stoi
stoi-to_string n h = rw (parse_number-to_string n) (ground arith)

pub stoul-to_string : (n : ℕ) → n < ulong_mod → stoul (to_string n) ≡ ok n
unfolding stoul
stoul-to_string n h = rw (parse_number-to_string n) (ground arith)

pub to_string_injective : (m n : ℕ) → to_string m ≡ to_string n → m ≡ n
to_string_injective m n e =
    ground (arith, parse_number-to_string m, parse_number-to_string n, ap parse_number e)

below_digits : (c d : ℕ) → is_digit c ≡ true → d < b'0' → (c == d) ≡ false
below_digits c d h low = ground arith

not_digit : (c : ℕ) → is_digit c ≡ true → (c == b':') ≡ false
not_digit c h = ground arith

All-to_string :
    (d : ℕ) (n : ℕ)
    → ((c : ℕ) → is_digit c ≡ true → (c == d) ≡ false)
    → All (λ c. (c == d) ≡ false) (to_string n)
unfolding to_string
All-to_string d n other =
    All-mono (λ c. is_digit c ≡ true) (λ c. (c == d) ≡ false) other (to_digits (suc n) n)
      (All-digits (suc n) n)

pub to_string_no_colon : (n : ℕ) → All (λ c. (c == b':') ≡ false) (to_string n)
to_string_no_colon n = All-to_string b':' n not_digit

pub to_string_no_low : (d n : ℕ) → d < b'0' → All (λ c. (c == d) ≡ false) (to_string n)
to_string_no_low d n low = All-to_string d n (λ c h. below_digits c d h low)

pub to_string-ne-nil : (n : ℕ) → to_string n ≢ []
unfolding to_string
to_string-ne-nil n e = let (c, t, f, d) = to_digits-StartsWithDigit (suc n) n (omega arith) in cc
