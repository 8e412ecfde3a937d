-- ===== src/Infer/Doubles.antt =====
-- What the code uses of `double` and of Eigen's vectors and matrices: a parameter. No law is
-- assumed. A vector or matrix is read and written by `coeff`, `entry` and their setters; the
-- arithmetic on it is Eigen's.
use stateline.Prelude.{ℕ, ℤ, Bool, if◌then◌else◌}

pub record Doubles : Type 1 where
  pub Real : Type 0
  pub Vector : Type 0
  pub Matrix : Type 0
  -- A literal, as its digits and the number of them behind the point, and conversions.
  pub literal : (digits places : ℕ) → Real
  pub of_nat : ℕ → Real
  pub of_int : ℤ → Real
  pub truncate : Real → ℤ
  pub zero_real : Real
  pub minus_one : Real
  pub infinity : Real
  pub add : Real → Real → Real
  pub sub : Real → Real → Real
  pub mul : Real → Real → Real
  pub div : Real → Real → Real
  pub neg : Real → Real
  pub exp : Real → Real
  pub log : Real → Real
  pub sqrt : Real → Real
  pub less : Real → Real → Bool
  pub is_inf : Real → Bool
  pub size : Vector → ℕ
  pub coeff : Vector → ℕ → Real
  pub set_coeff : Vector → ℕ → Real → Vector
  pub vector3 : Real → Real → Real → Vector
  pub zero_vector : ℕ → Vector
  pub vector_add : Vector → Vector → Vector
  pub vector_sub : Vector → Vector → Vector
  pub vector_mul : Vector → Vector → Vector
  pub vector_quotient : Vector → Vector → Vector
  pub vector_scale : Vector → Real → Vector
  pub vector_div : Vector → Real → Vector
  pub vector_shift : Vector → Real → Vector
  pub vector_sqrt : Vector → Vector
  pub vector_all_less : Vector → Real → Bool
  pub norm : Vector → Real
  pub zero_matrix : ℕ → Matrix
  pub entry : Matrix → (row column : ℕ) → Real
  pub set_entry : Matrix → (row column : ℕ) → Real → Matrix
  pub set_diagonal : Matrix → Vector → Matrix
  pub shift_diagonal : Matrix → Real → Matrix
  pub matrix_add : Matrix → Matrix → Matrix
  pub matrix_scale : Matrix → Real → Matrix
  pub matrix_vector : Matrix → Vector → Vector
  pub matrix_norm : Matrix → Real
  pub outer : Vector → Vector → Matrix
  -- `colPivHouseholderQr().solve`.
  pub solve : Matrix → Vector → Vector

module _ (F : Doubles) where
  open F use {Real, less, of_nat}

  abbrev pub one : Real
  one = of_nat 1

  -- `std::max` and `std::min`.
  abbrev pub real_max : Real → Real → Real
  real_max a b = if less a b then b else a

  abbrev pub real_min : Real → Real → Real
  real_min a b = if less b a then b else a
