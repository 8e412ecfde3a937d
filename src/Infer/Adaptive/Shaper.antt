-- ===== src/Infer/Adaptive/Shaper.antt =====
-- infer/adaptive.cpp: `ProposalShaper`, with the bounds of infer/datatypes.hpp.
use stateline.Prelude.{ℕ, zero, suc, ◌+◌, ◌*◌, List, replicate, wrap, Result, ok, ◌>>=◌}
use stateline.Std.Vector.{at, put}
use stateline.Infer.Doubles.{Doubles, one, real_max}

pub record ProposalBounds (F : Doubles) : Type 0 where
  pub lower : F.Vector
  pub upper : F.Vector

-- The Cholesky factor of each chain's proposals, and a normalised version of it.
pub record ProposalShaper (F : Doubles) : Type 0 where
  pub ndims : ℕ
  pub prop_norm : F.Real
  pub counts : List ℕ
  pub factors : List F.Matrix
  pub normalised : List F.Matrix

module _ (F : Doubles) where
  open F use {
    Real, Vector, Matrix, literal, of_nat, add, sub, mul, div, sqrt, coeff, set_coeff, vector_sub,
    vector_div, norm, zero_matrix, entry, set_entry, set_diagonal, shift_diagonal, matrix_scale,
    matrix_norm,
  }

  -- The inner loop, for `n` rows from `j` on: a rotation of column `k` and the vector.
  unfoldable pub rotate_rows : (n j k : ℕ) → (c s : Real) → Matrix × Vector → Matrix × Vector
  rotate_rows zero j k c s (r, x) = (r, x)
  rotate_rows (suc n) j k c s (r, x) =
      let rotated = div (add (entry r j k) (mul s (coeff x j))) c in
      rotate_rows n (suc j) k c s
        (set_entry r j k rotated, set_coeff x j (sub (mul c (coeff x j)) (mul s rotated)))

  -- The outer loop, for `n` columns from `k` on.
  unfoldable pub rotate_columns : (n k : ℕ) → Matrix × Vector → Matrix × Vector
  unfolding rotate_rows
  rotate_columns zero k (r, x) = (r, x)
  rotate_columns (suc n) k (r, x) =
      let v = real_max F (literal 1 18) (entry r k k) in
      let pivot = sqrt (add (mul v v) (mul (coeff x k) (coeff x k))) in
      rotate_columns n (suc k)
        (rotate_rows n (suc k) k (div pivot v) (div (coeff x k) v) (set_entry r k k pivot, x))

module _ {F : Doubles} where
  open F use {
    Real, Vector, Matrix, literal, of_nat, add, sub, mul, div, sqrt, coeff, set_coeff, vector_sub,
    vector_div, norm, zero_matrix, entry, set_entry, set_diagonal, shift_diagonal, matrix_scale,
    matrix_norm,
  }

  unfoldable pub create :
      (n_stacks n_temps n_dims : ℕ) → ProposalBounds F → (initial_count : ℕ) → ProposalShaper F
  create n_stacks n_temps n_dims bounds initial_count =
      let range = vector_div (vector_sub bounds.upper bounds.lower) (of_nat 4) in
      let n = wrap (n_stacks * n_temps) in
      record {
        ndims = n_dims;
        prop_norm = norm range;
        counts = replicate n initial_count;
        factors = replicate n (set_diagonal (zero_matrix n_dims) range);
        normalised =
            replicate n (set_diagonal (zero_matrix n_dims) (vector_div range (norm range)));
      }

  unfoldable pub update : ℕ → Vector → ProposalShaper F → Result (ProposalShaper F)
  unfolding rotate_columns
  update i sample s = do
    old_count ← at s.counts i
    let count = wrap (old_count + 1)
    counts ← put s.counts i count
    old_factor ← at s.factors i
    let n : Real = of_nat count
    let x : Vector = vector_div sample (sqrt n)
    let scaled : Matrix = matrix_scale old_factor (sqrt (div (sub n (one F)) n))
    let r : Matrix = (rotate_columns F s.ndims 0 (scaled, x)).0
    factors ← put s.factors i r
    let shrink : Real = div s.prop_norm (real_max F (matrix_norm r) (literal 1 18))
    normalised ← put s.normalised i (shift_diagonal (matrix_scale r shrink) (literal 1 4))
    ok (record s { counts = counts; factors = factors; normalised = normalised })
