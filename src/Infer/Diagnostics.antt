-- ===== src/Infer/Diagnostics.antt =====
-- infer/diagnostics.hpp and infer/diagnostics.cpp: the convergence test of the coldest chains. The
-- columns of `M_` and `S_` are lists of vectors; a count of samples is an `int`, of which 1 more than the greatest is undefined.
pub mod Counts
use stateline.Prelude.{
  ℕ, ◌+◌, ◌/◌, ◌%◌, ◌==◌, Bool, List, [], ◌∷◌, foldl, map, replicate, min, if◌then◌else◌, Result,
  ok, err, ◌>>=◌, assertion_failed, int_max, guard, ltb, undefined_behaviour, ◌>>◌,
}
use stateline.Std.Vector.{at, put}
use stateline.Infer.Doubles.{Doubles, one}
use stateline.Infer.ChainArray.State.{State}

pub record EpsrDiagnostic (F : Doubles) : Type 0 where
  pub nstacks : ℕ
  pub nchains : ℕ
  pub ndims : ℕ
  pub means : List F.Vector
  pub squares : List F.Vector
  pub num_samples : List ℕ
  pub threshold : F.Real

-- `minCoeff`, which asserts that there is a coefficient.
unfoldable pub min_coeff : List ℕ → Result ℕ
min_coeff [] = err assertion_failed
min_coeff (n ∷ ns) = ok (foldl min n ns)

abbrev pub vector_sum : (F : Doubles) → ℕ → List F.Vector → F.Vector
vector_sum F n vs = foldl F.vector_add (F.zero_vector n) vs

module _ {F : Doubles} where
  open F use {
    Real, Vector, literal, of_nat, sub, div, mul, zero_vector, vector_add, vector_sub, vector_mul,
    vector_quotient, vector_scale, vector_div, vector_shift, vector_sqrt, vector_all_less,
  }

  unfoldable pub create : (n_stacks n_chains n_dims : ℕ) → (threshold : Real) → EpsrDiagnostic F
  create n_stacks n_chains n_dims threshold = record {
    nstacks = n_stacks;
    nchains = n_chains;
    ndims = n_dims;
    means = replicate n_stacks (zero_vector n_dims);
    squares = replicate n_stacks (zero_vector n_dims);
    num_samples = replicate n_stacks 0;
    threshold = threshold;
  }

  -- The body of `update`'s test, for the column of a stack.
  unfoldable pub update_stack : ℕ → State F → EpsrDiagnostic F → Result (EpsrDiagnostic F)
  update_stack id state d = do
    count ← at d.num_samples id
    guard (ltb count int_max) undefined_behaviour
    let n = count + 1
    let x : Vector = state.sample
    mean ← at d.means id
    let new_mean : Vector = vector_add mean (vector_div (vector_sub x mean) (of_nat n))
    square ← at d.squares id
    squares ←
        put d.squares id
          (vector_add square (vector_mul (vector_sub x mean) (vector_sub x new_mean)))
    means ← put d.means id new_mean
    num_samples ← put d.num_samples id n
    ok (record d { means = means; squares = squares; num_samples = num_samples })

  unfoldable pub update : ℕ → State F → EpsrDiagnostic F → Result (EpsrDiagnostic F)
  unfolding update_stack
  update id state d = if id % d.nchains == 0 then update_stack (id / d.nchains) state d else ok d

  unfoldable pub r_hat : EpsrDiagnostic F → Result Vector
  unfolding min_coeff
  r_hat d = do
    least ← min_coeff d.num_samples
    let n : Real = of_nat least
    let m : Real = of_nat d.nstacks
    let overall : Vector = vector_div (vector_sum F d.ndims d.means) m
    let deviations : List Vector =
        map (λ v. vector_mul (vector_sub v overall) (vector_sub v overall)) d.means
    let b : Vector = vector_scale (vector_sum F d.ndims deviations) (div n (sub m (one F)))
    let within : List Vector =
        map (λ v. vector_div (vector_scale v (div (one F) m)) (sub n (one F))) d.squares
    let w : Vector = vector_sum F d.ndims within
    let v_hat : Vector =
        vector_add (vector_scale w (div (sub n (one F)) n)) (vector_scale b (div (one F) n))
    ok (vector_sqrt (vector_quotient v_hat (vector_shift w (literal 1 30))))

  unfoldable pub has_converged : EpsrDiagnostic F → Result Bool
  unfolding r_hat
  has_converged d = do r ← r_hat d; ok (vector_all_less r d.threshold)
