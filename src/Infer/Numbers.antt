-- ===== src/Infer/Numbers.antt =====
-- Numbers in place of `double`, and lists of them for vectors: the arithmetic of the tests.
use stateline.Prelude.{
  ℕ, ◌+◌, ◌-◌, ◌*◌, ◌/◌, ℤ, pos, negsuc, Bool, true, false, List, [], ◌∷◌, map, length, ltb, set,
  get_elem?, none, some, replicate, ◌&&◌,
}
use stateline.Infer.Doubles.{Doubles}

abbrev nat_of : ℤ → ℕ
nat_of (pos n) = n
nat_of (negsuc n) = 0

abbrev get_or : {A : Type 0} → A → List A → ℕ → A
get_or d xs i = elim (get_elem? xs i) [ none ↦ d | some x ↦ x ]

abbrev zip : (ℕ → ℕ → ℕ) → List ℕ → List ℕ → List ℕ
zip f [] ys = []
zip f (x ∷ xs) [] = []
zip f (x ∷ xs) (y ∷ ys) = f x y ∷ zip f xs ys

abbrev rows_add : List (List ℕ) → List (List ℕ) → List (List ℕ)
rows_add [] ys = []
rows_add (x ∷ xs) [] = []
rows_add (x ∷ xs) (y ∷ ys) = zip (λ a b. a + b) x y ∷ rows_add xs ys

abbrev sum : List ℕ → ℕ
sum [] = 0
sum (x ∷ xs) = x + sum xs

abbrev all_below : List ℕ → ℕ → Bool
all_below [] n = true
all_below (x ∷ xs) n = ltb x n && all_below xs n

abbrev pub numbers : Doubles
numbers = record {
  Real = ℕ;
  Vector = List ℕ;
  Matrix = List (List ℕ);
  literal = λ digits places. digits;
  of_nat = λ n. n;
  of_int = λ n. nat_of n;
  truncate = λ n. pos n;
  zero_real = 0;
  minus_one = 1;
  infinity = 1000000;
  add = λ a b. a + b;
  sub = λ a b. a - b;
  mul = λ a b. a * b;
  div = λ a b. a / b;
  neg = λ a. a;
  exp = λ a. a;
  log = λ a. a;
  sqrt = λ a. a;
  less = λ a b. ltb a b;
  is_inf = λ a. false;
  size = λ v. length v;
  coeff = λ v i. get_or 0 v i;
  set_coeff = λ v i x. set v i x;
  vector3 = λ a b c. a ∷ b ∷ c ∷ [];
  zero_vector = λ n. replicate n 0;
  vector_add = λ v w. zip (λ a b. a + b) v w;
  vector_sub = λ v w. zip (λ a b. a - b) v w;
  vector_mul = λ v w. zip (λ a b. a * b) v w;
  vector_quotient = λ v w. zip (λ a b. a / b) v w;
  vector_scale = λ v x. map (λ a. a * x) v;
  vector_div = λ v x. map (λ a. a / x) v;
  vector_shift = λ v x. map (λ a. a + x) v;
  vector_sqrt = λ v. v;
  vector_all_less = λ v x. all_below v x;
  norm = λ v. sum v;
  zero_matrix = λ n. replicate n (replicate n 0);
  entry = λ m i j. get_or 0 (get_or [] m i) j;
  set_entry = λ m i j x. set m i (set (get_or [] m i) j x);
  set_diagonal = λ m v. m;
  shift_diagonal = λ m x. m;
  matrix_add = λ m n. rows_add m n;
  matrix_scale = λ m x. map (λ r. map (λ a. a * x) r) m;
  matrix_vector = λ m v. map (λ r. sum (zip (λ a b. a * b) r v)) m;
  matrix_norm = λ m. sum (map (λ r. sum r) m);
  outer = λ v w. map (λ a. map (λ b. a * b) w) v;
  solve = λ m v. v;
}
