-- ===== src/App/ServerWrapper.antt =====
-- app/serverwrapper.hpp and app/serverwrapper.cpp: `runSampler`, which sets up the chains and samples
-- until enough states of coldest chains have come. What the API is told is left out.
use stateline.Prelude.{
  ℕ, zero, suc, ◌+◌, ◌*◌, ◌%◌, ◌==◌, ltb, negsuc, Bool, List, [], ◌∷◌, if◌then◌else◌, wrap, Result,
  ok, err, ◌>>=◌, blocked, Option, or_fault, invalid_argument, undefined_behaviour, guard, ◌>>◌,
  ◌&&◌,
}
use stateline.Std.Key.{Str}
use stateline.Std.Vector.{at}
use stateline.Infer.Doubles.{Doubles}
use stateline.Infer.ChainArray.State.{ChainArray, State, initialise}
use stateline.Infer.ChainArray.State
use stateline.Infer.Adaptive.Regression.{RegressionAdapter, compute_beta_stack}
use stateline.Infer.Adaptive.Regression
use stateline.Infer.Adaptive.Shaper.{ProposalBounds}
use stateline.Infer.Proposal.{GaussianProposal, bouncy_bounds}
use stateline.Infer.Proposal
use stateline.Infer.Sampler.{Sampler, Draws, step, flush, total_energy}
use stateline.Infer.Sampler
use stateline.Infer.TableLog.{TableLogger}
use stateline.Infer.TableLog

pub record StatelineSettings (F : Doubles) : Type 0 where
  pub ndims : ℕ
  pub nstacks : ℕ
  pub ntemps : ℕ
  pub nsamples : ℕ
  pub swap_interval : ℕ
  pub ms_logging_refresh : ℕ
  pub n_job_types : ℕ
  pub use_initial : Bool
  pub initial : F.Vector
  pub optimal_accept_rate : F.Real
  pub optimal_swap_rate : F.Real
  pub output_path : Str
  pub proposal_bounds : ProposalBounds F

-- For the first state of a chain: the random vector, and the results of its jobs, if they are numbers.
pub record First (F : Doubles) : Type 0 where
  pub random : F.Vector
  pub factors : Option (List F.Real)

-- What a round of the main loop finds: `running` is false, the requester throws, or a result comes.
pub data Event (F : Doubles) : Type 0 where
  stopped thrown : Event F
  arrived : Draws F → (id : ℕ) → (factors : List F.Real) → (now : ℕ) → Event F

-- What comes from outside until the main loop ends: the time of the start, the first results, the
-- constructor's draws, and the events of the loop.
pub record Outside (F : Doubles) : Type 0 where
  pub start_time : ℕ
  pub firsts : ℕ → First F
  pub normals : ℕ → F.Vector
  pub unset : F.Vector
  pub events : List (Event F)

module _ {F : Doubles} where
  open F use {Real, Vector, of_nat, of_int, zero_real, size}

  -- The joins of `submit` are undefined for no job types or an empty sample; `retrieve` throws, and
  -- nothing catches it, if a result is no number.
  unfoldable pub generate_initial_sample : StatelineSettings F → First F → Result (Vector × Real)
  generate_initial_sample s first = do
    let raw : Vector = if s.use_initial then s.initial else first.random
    let sample : Vector = bouncy_bounds F raw s.proposal_bounds.lower s.proposal_bounds.upper
    guard (ltb 0 s.n_job_types && ltb 0 (size sample)) undefined_behaviour
    factors ← or_fault first.factors invalid_argument
    ok (sample, total_energy F factors)

  -- The loop that initialises the chains, for `n` chains from `i` on.
  unfoldable pub initialise_chains :
      StatelineSettings F
      → (ℕ → First F)
      → (sigma_adapter : RegressionAdapter F) → (n i : ℕ) → RegressionAdapter F × ChainArray F
      → Result (RegressionAdapter F × ChainArray F)
  unfolding generate_initial_sample
  initialise_chains s firsts sigma_adapter zero i (beta_adapter, chains) = ok (beta_adapter, chains)
  initialise_chains s firsts sigma_adapter (suc n) i (beta_adapter, chains) = do
    (sample, energy) ← generate_initial_sample s (firsts i)
    beta_adapter' ← if i % s.ntemps == 0 then compute_beta_stack i beta_adapter else ok beta_adapter
    sigma ← at sigma_adapter.values i
    beta ← at beta_adapter'.values i
    chains' ← initialise i sample energy sigma beta chains
    initialise_chains s firsts sigma_adapter n (suc i) (beta_adapter', chains')

  -- The main loop. An exception of `step` is one of `retrieve`, before the sampler has changed, and
  -- ends the loop.
  unfoldable pub main_loop :
      StatelineSettings F
      → List (Event F)
      → (nsamples : ℕ) → Sampler F × TableLogger F
      → Result (ℕ × (Sampler F × TableLogger F))
  main_loop s [] nsamples state =
      if ltb nsamples s.nsamples then err blocked else ok (nsamples, state)
  main_loop s (stopped ∷ events) nsamples state = ok (nsamples, state)
  main_loop s (thrown ∷ events) nsamples state = ok (nsamples, state)
  main_loop s (arrived draws id factors now ∷ events) nsamples (sampler, logger) =
      if ltb nsamples s.nsamples
      then (do
        ((id', state), sampler') ← step draws (id, factors) sampler
        logger' ← TableLog.update now id' state logger
        main_loop s events (if id' % s.ntemps == 0 then wrap (nsamples + 1) else nsamples)
            (sampler', logger'))
      else ok (nsamples, (sampler, logger))

  -- `runSampler` up to its main loop: the count of samples, the sampler and the table log.
  unfoldable pub set_up : StatelineSettings F → Outside F → Result (ℕ × (Sampler F × TableLogger F))
  unfolding initialise_chains
  set_up s o = do
    let max_log_ratio : Real = of_nat 4
    let min_log_ratio : Real = of_int (negsuc 7)
    let sigma_adapter =
        Regression.create {F = F} s.nstacks s.ntemps s.optimal_accept_rate min_log_ratio
          max_log_ratio
    let beta_adapter =
        Regression.create {F = F} s.nstacks s.ntemps s.optimal_swap_rate zero_real max_log_ratio
    let proposal = Proposal.create s.nstacks s.ntemps s.ndims s.proposal_bounds 1000
    let chains = State.create s.nstacks s.ntemps o.start_time
    (beta_adapter', chains') ←
        initialise_chains s o.firsts sigma_adapter (wrap (s.nstacks * s.ntemps)) 0
          (beta_adapter, chains)
    sampler ←
        Sampler.create o.normals o.unset chains' proposal sigma_adapter beta_adapter'
          s.swap_interval
    let logger = TableLog.create s.nstacks s.ntemps s.ndims s.ms_logging_refresh
    ok (0, (sampler, logger))

  unfoldable pub sample_all :
      StatelineSettings F → Outside F → Result (ℕ × (Sampler F × TableLogger F))
  unfolding set_up main_loop
  sample_all s o = do (nsamples, state) ← set_up s o; main_loop s o.events nsamples state

  -- `runSampler`, with the results for its last flush.
  unfoldable pub run_sampler :
      StatelineSettings F
      → Outside F
      → (last_results : List ((ℕ × Option (List Real)) × (Real × ℕ)))
      → Result (ℕ × (Sampler F × TableLogger F))
  unfolding sample_all
  run_sampler s o last_results = do
    (nsamples, (sampler, logger)) ← sample_all s o
    flushed ← flush last_results sampler
    ok (nsamples, (flushed, logger))
