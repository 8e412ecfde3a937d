-- ===== src/Std/Key.antt =====
-- The order of a map's keys. A `std::string` is the list of its bytes and is ordered
-- lexicographically; a `uint` key is a number.
use stateline.Prelude.{
  ℕ, ◌≡◌, refl, ◌↔◌, Bool, true, false, ◌&&◌, ◌||◌, List, [], ◌∷◌, arith, ltb, ◌==◌ as nat_eq,
  ==_iff,
}

-- A `std::string`, by its bytes.
abbrev pub Str : Type 0
Str = List ℕ

pub record Key (K : Type 0) : Type 0 where
  pub eq : K → K → Bool
  pub lt : K → K → Bool
  pub eq_iff : (a b : K) → (eq a b ≡ true) ↔ (a ≡ b)
  pub lt_irrefl : (a : K) → lt a a ≡ false
  pub lt_trans : (a b c : K) → lt a b ≡ true → lt b c ≡ true → lt a c ≡ true
  pub lt_total : (a b : K) → lt a b ≡ false → eq a b ≡ false → lt b a ≡ true

pub ltb_irrefl : (a : ℕ) → ltb a a ≡ false
ltb_irrefl a = ground arith

pub ltb_trans : (a b c : ℕ) → ltb a b ≡ true → ltb b c ≡ true → ltb a c ≡ true
ltb_trans a b c p q = ground arith

pub ltb_total : (a b : ℕ) → ltb a b ≡ false → nat_eq a b ≡ false → ltb b a ≡ true
ltb_total a b p q = ground arith

instance abbrev pub nat_key : Key ℕ
nat_key = record {
  eq = nat_eq;
  lt = ltb;
  eq_iff = ==_iff;
  lt_irrefl = ltb_irrefl;
  lt_trans = ltb_trans;
  lt_total = ltb_total;
}

-- `std::string::operator==`.
abbrev pub str_eq : Str → Str → Bool
str_eq [] [] = true
str_eq [] (d ∷ t) = false
str_eq (c ∷ s) [] = false
str_eq (c ∷ s) (d ∷ t) = nat_eq c d && str_eq s t

-- `std::string::operator<`.
abbrev pub str_lt : Str → Str → Bool
str_lt [] [] = false
str_lt [] (d ∷ t) = true
str_lt (c ∷ s) [] = false
str_lt (c ∷ s) (d ∷ t) = ltb c d || nat_eq c d && str_lt s t

pub str_eq_iff : (s t : Str) → (str_eq s t ≡ true) ↔ (s ≡ t)
str_eq_iff [] [] = (λ _. refl, λ _. refl)
str_eq_iff [] (d ∷ t) = (λ e. cc, λ e. cc)
str_eq_iff (c ∷ s) [] = (λ e. cc, λ e. cc)
str_eq_iff (c ∷ s) (d ∷ t) = ground (arith, str_eq_iff s t)

pub str_lt_irrefl : (s : Str) → str_lt s s ≡ false
str_lt_irrefl [] = refl
str_lt_irrefl (c ∷ s) = ground (arith, str_lt_irrefl s)

pub str_lt_trans : (s t u : Str) → str_lt s t ≡ true → str_lt t u ≡ true → str_lt s u ≡ true
str_lt_trans [] [] u p q = cc
str_lt_trans [] (d ∷ t) [] p q = cc
str_lt_trans [] (d ∷ t) (e ∷ u) p q = refl
str_lt_trans (c ∷ s) [] u p q = cc
str_lt_trans (c ∷ s) (d ∷ t) [] p q = cc
str_lt_trans (c ∷ s) (d ∷ t) (e ∷ u) p q = ground (arith, str_lt_trans s t u)

pub str_lt_total : (s t : Str) → str_lt s t ≡ false → str_eq s t ≡ false → str_lt t s ≡ true
str_lt_total [] [] p q = cc
str_lt_total [] (d ∷ t) p q = cc
str_lt_total (c ∷ s) [] p q = refl
str_lt_total (c ∷ s) (d ∷ t) p q = ground (arith, str_lt_total s t)

instance abbrev pub str_key : Key Str
str_key = record {
  eq = str_eq;
  lt = str_lt;
  eq_iff = str_eq_iff;
  lt_irrefl = str_lt_irrefl;
  lt_trans = str_lt_trans;
  lt_total = str_lt_total;
}
