-- ===== src/Infer/Proposal.antt =====
-- infer/sampler.cpp: `bouncyBounds` and `GaussianProposal`. The normal draws are an argument.
pub mod Shape
use stateline.Prelude.{
  ℕ, zero, suc, ◌+◌, ◌-◌, ◌*◌, ◌/◌, ◌%◌, ◌==◌, ℤ, pos, negsuc, Bool, true, false, ◌&&◌,
  if◌then◌else◌, Result, ok, ◌>>=◌,
}
use stateline.Std.Vector.{at, put}
use stateline.Infer.Doubles.{Doubles}
use stateline.Infer.Adaptive.Shaper.{ProposalBounds, ProposalShaper}
use stateline.Infer.Adaptive.Shaper

-- `n % 2 == 0`.
abbrev is_even : ℤ → Bool
is_even (pos n) = n % 2 == 0
is_even (negsuc n) = (n + 1) % 2 == 0

module _ (F : Doubles) where
  open F use {
    Real, Vector, of_int, truncate, sub, mul, div, add, less, size, coeff, set_coeff, vector_sub,
  }

  -- A value that stands `step` beyond one bound comes back from it, or from the other bound, by what
  -- is left after whole widths.
  unfoldable pub bounce : (step width : Real) → (even odd : Real → Real) → Real
  bounce step width even odd =
      let n_steps = truncate (div step width) in
      let still_to_go = sub step (mul (of_int n_steps) width) in
      if is_even n_steps then even still_to_go else odd still_to_go

  -- The body of the loop of `bouncyBounds`: the coefficient `r` of the result, for the value `v`.
  unfoldable pub bounce_coeff : (v lower upper r : Real) → Real
  unfolding bounce
  bounce_coeff v lower upper r =
      let delta = sub upper lower in
      let after_big =
        if less upper v
        then bounce (sub v upper) delta (λ d. sub upper d) (λ d. add lower d)
        else r in
      if less v lower
      then bounce (sub lower v) delta (λ d. add lower d) (λ d. sub upper d)
      else after_big

  unfoldable pub bounce_from : (n i : ℕ) → (val lower upper result : Vector) → Vector
  unfolding bounce_coeff
  bounce_from zero i val lower upper result = result
  bounce_from (suc n) i val lower upper result = bounce_from n (suc i) val lower upper (
      set_coeff result i
        (bounce_coeff (coeff val i) (coeff lower i) (coeff upper i) (coeff result i)))

  unfoldable pub bouncy_bounds : (val lower upper : Vector) → Vector
  unfolding bounce_from
  bouncy_bounds val lower upper = bounce_from (size val) 0 val lower upper val

-- `proposeFn_` is the Boolean `bounded`.
pub record GaussianProposal (F : Doubles) : Type 0 where
  pub bounds : ProposalBounds F
  pub shaper : ProposalShaper F
  pub bounded : Bool

module _ {F : Doubles} where
  open F use {Real, Vector, size, vector_add, vector_sub, vector_scale, matrix_vector}

  unfoldable pub create :
      (n_stacks n_chains n_dims : ℕ) → ProposalBounds F → (init_length : ℕ) → GaussianProposal F
  create n_stacks n_chains n_dims bounds init_length = record {
    bounds = bounds;
    shaper = Shaper.create n_stacks n_chains n_dims bounds init_length;
    bounded = size bounds.lower == n_dims && size bounds.upper == n_dims;
  }

  -- `propose`, with the vector of normal draws.
  unfoldable pub propose :
      (randn : Vector) → ℕ → (sample : Vector) → (sigma : Real) → GaussianProposal F → Result Vector
  propose randn id sample sigma p = do
    n ← at p.shaper.normalised id
    ok (vector_add sample (vector_scale (matrix_vector n randn) sigma))

  -- `operator()`.
  unfoldable pub call :
      (randn : Vector) → ℕ → (sample : Vector) → (sigma : Real) → GaussianProposal F → Result Vector
  unfolding propose bouncy_bounds
  call randn id sample sigma p = do
    x ← propose randn id sample sigma p
    ok (if p.bounded then bouncy_bounds F x p.bounds.lower p.bounds.upper else x)

  unfoldable pub update : ℕ → (stepv : Vector) → GaussianProposal F → Result (GaussianProposal F)
  update id stepv p = do shaper ← Shaper.update id stepv p.shaper; ok (record p { shaper = shaper })
