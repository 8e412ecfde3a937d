-- ===== src/Comms/Requester/TypeSets.antt =====
-- Sets of job types: as numbers in rising order, and as the texts of the numbers in the order of the
-- texts, where "10" stands before "9".
use stateline.Prelude.{
  ℕ, suc, ◌<◌, ◌≡◌, refl, ap, Bool, false, ◌||◌, List, [], ◌∷◌, arith, length, map, All, ◌==◌,
  if◌then◌else◌,
}
use stateline.Std.Key.{Str, str_eq, str_lt, str_key, nat_key}
use stateline.Std.Map.{set_insert}
use stateline.Std.Decimal.{to_string}
use stateline.Std.Decimal.RoundTrip.{to_string_injective}

abbrev pub has : ℕ → List ℕ → Bool
has n [] = false
has n (x ∷ xs) = (n == x) || has n xs

-- The numbers rise.
abbrev pub IsRising : List ℕ → Type 0
IsRising [] = Unit {0}
IsRising (x ∷ xs) = All (λ y. x < y) xs × IsRising xs

has_below : (x : ℕ) (ys : List ℕ) → All (λ y. x < y) ys → has x ys ≡ false
has_below x [] h = refl
has_below x (y ∷ ys) h = ground (arith, has_below x ys h.1)

All-below : (x y : ℕ) (ys : List ℕ) → x < y → All (λ z. y < z) ys → All (λ z. x < z) ys
All-below x y [] h all = tt
All-below x y (z ∷ ys) h all = (omega (arith, all.0), All-below x y ys h all.1)

-- A set of numbers in rising order is known by its members.
pub IsRising-unique :
    (xs ys : List ℕ) → IsRising xs → IsRising ys → ((n : ℕ) → has n xs ≡ has n ys) → xs ≡ ys
IsRising-unique [] [] a b h = refl
IsRising-unique [] (y ∷ ys) a b h = absurd (ground (arith, h y))
IsRising-unique (x ∷ xs) [] a b h = absurd (ground (arith, h x))
IsRising-unique (x ∷ xs) (y ∷ ys) a b h =
    let same : x ≡ y = ground (
      arith,
      h x,
      h y,
      has_below x ys,
      has_below y xs,
      All-below x y ys,
      All-below y x xs,
      a.0,
      b.0,
    ) in
    let rest : (n : ℕ) → has n xs ≡ has n ys =
      λ n. ground (arith, h n, same, has_below x xs a.0, has_below y ys b.0) in
    rw same (ap (◌∷◌ y) (IsRising-unique xs ys a.1 b.1 rest))

pub has-set_insert : (n k : ℕ) (s : List ℕ) → has n (set_insert k s) ≡ (n == k) || has n s
unfolding set_insert
has-set_insert n k [] = refl
has-set_insert n k (j ∷ s) = ground (arith, has-set_insert n k s)

All-set_insert :
    (x k : ℕ) (s : List ℕ) → x < k → All (λ y. x < y) s → All (λ y. x < y) (set_insert k s)
unfolding set_insert
All-set_insert x k [] h all = (h, tt)
All-set_insert x k (j ∷ s) h all = ground (arith, All-set_insert x k s h all.1)

pub set_insert-IsRising : (k : ℕ) (s : List ℕ) → IsRising s → IsRising (set_insert k s)
unfolding set_insert
set_insert-IsRising k [] r = (tt, tt)
set_insert-IsRising k (j ∷ s) r =
    ground (arith, set_insert-IsRising k s r.1, All-set_insert j k s, All-below k j s, r.0)

-- `set_insert` on the texts of numbers, as an operation on the numbers.
pub insert_text : ℕ → List ℕ → List ℕ
insert_text k [] = k ∷ []
insert_text k (j ∷ s) =
    if str_eq (to_string k) (to_string j)
    then j ∷ s
    else if str_lt (to_string k) (to_string j)
    then k ∷ j ∷ s
    else j ∷ insert_text k s

abbrev pub texts : List ℕ → List Str
texts = map (λ (t : ℕ). to_string t)

pub set_insert-texts :
    (k : ℕ) (s : List ℕ) → set_insert (to_string k) (texts s) ≡ texts (insert_text k s)
unfolding set_insert insert_text
set_insert-texts k [] = refl
set_insert-texts k (j ∷ s) = ground (arith, set_insert-texts k s)

pub has-insert_text : (n k : ℕ) (s : List ℕ) → has n (insert_text k s) ≡ (n == k) || has n s
unfolding insert_text
has-insert_text n k [] = refl
has-insert_text n k (j ∷ s) = ground (
  arith,
  has-insert_text n k s,
  str_key.eq_iff (to_string k) (to_string j),
  to_string_injective k j,
)

pub length-insert_text :
    (k : ℕ) (s : List ℕ) → has k s ≡ false → length (insert_text k s) ≡ suc (length s)
unfolding insert_text
length-insert_text k [] h = refl
length-insert_text k (j ∷ s) h = ground (
  arith,
  length-insert_text k s,
  str_key.eq_iff (to_string k) (to_string j),
  to_string_injective k j,
)
