-- ===== src/Infer/Sampler.antt =====
-- infer/sampler.hpp and infer/sampler.cpp: the sampler. The requester is the list of the ids whose
-- batches are submitted and not retrieved yet; the results and the random draws are arguments.
pub mod Ladder
pub mod Outstanding
pub mod Shows
pub mod Swaps
pub mod Refinement
pub mod Histories
pub mod Progress
pub mod Draining
pub mod Finishing
pub mod Tests
use stateline.Prelude.{
  ℕ, zero, suc, ◌+◌, ◌-◌, ◌*◌, ◌%◌, ◌==◌, ltb, Bool, true, false, not, ◌&&◌, List, [], ◌∷◌, ◌++◌,
  foldl, replicate, if◌then◌else◌, uint_mod, wrap, Result, ok, err, ◌>>=◌, ◌>>◌, guard, blocked,
  undefined_behaviour, length, Option, or_fault, invalid_argument,
}
use stateline.Std.Vector.{at, put}
use stateline.Infer.Doubles.{Doubles}
use stateline.Infer.ChainArray.State.{
  ChainArray, State, SwapType, accept, chain_index, is_hottest_in_stack, is_coldest_in_stack,
  num_total_chains, chain_length, last_state, set_sigma, set_beta,
}
use stateline.Infer.ChainArray.Storage.{flush_from}
use stateline.Infer.ChainArray.Moves.{append, swap}
use stateline.Infer.Adaptive.Regression.{
  RegressionAdapter, compute_sigma, compute_beta_stack, beta_update,
}
use stateline.Infer.Adaptive.Regression
use stateline.Infer.Proposal.{GaussianProposal, call}
use stateline.Infer.Proposal

pub record Sampler (F : Doubles) : Type 0 where
  pub chains : ChainArray F
  pub proposal : GaussianProposal F
  pub sigma_adapter : RegressionAdapter F
  pub beta_adapter : RegressionAdapter F
  pub prop_states : List F.Vector
  pub swap_interval : ℕ
  pub num_outstanding_jobs : ℕ
  pub locked : List Bool
  pub have_flushed : Bool
  pub outstanding : List ℕ

-- What one call of `step` draws: for the acceptance, the swap, and the normals of its proposals; and
-- the time that it reads.
pub record Draws (F : Doubles) : Type 0 where
  pub accept_draw : F.Real
  pub swap_draw : F.Real
  pub upper_normals : F.Vector
  pub own_normals : F.Vector
  pub now : ℕ

-- The list without the first occurrence of a number.
unfoldable pub remove_one : ℕ → List ℕ → List ℕ
remove_one id [] = []
remove_one id (j ∷ js) = if j == id then js else j ∷ remove_one id js

unfoldable pub is_member : ℕ → List ℕ → Bool
is_member id [] = false
is_member id (j ∷ js) = if j == id then true else is_member id js

abbrev pub is_accept : SwapType → Bool
is_accept accept = true
is_accept _ = false

-- Whether a cascade of swaps starts at a chain of length `len`: the conditions of `step` in their
-- order. A division by an interval of 0 is undefined.
unfoldable pub starts_cascade : (ntemps swap_interval id len : ℕ) → Result Bool
unfolding is_hottest_in_stack
starts_cascade ntemps swap_interval id len =
    if is_hottest_in_stack ntemps id
    then (if swap_interval == 0
        then err undefined_behaviour
        else ok (len % swap_interval == 0 && ltb 1 ntemps))
    else ok false

abbrev pub total_energy : (F : Doubles) → List F.Real → F.Real
total_energy F factors = foldl F.add F.zero_real factors

module _ {F : Doubles} where
  open F use {Real, Vector, zero_real, add, neg, log, vector_sub}

  -- Of `requester_.submit` this is the id that joins those outstanding: its joins of the job types and
  -- of the sample are undefined if one of them is empty, and they are taken not to be.
  unfoldable pub propose : (normals : Vector) → ℕ → Sampler F → Result (Sampler F)
  propose normals id s = do
    sigma ← at s.sigma_adapter.values id
    last ← last_state id s.chains
    x ← call normals id last.sample sigma s.proposal
    prop_states ← put s.prop_states id x
    ok (record s {
      prop_states = prop_states;
      outstanding = s.outstanding ++ id ∷ [];
      num_outstanding_jobs = wrap (s.num_outstanding_jobs + 1);
    })

  -- The constructor's loop, for `n` chains from `n - 1` down. Each has its draws.
  unfoldable pub propose_all : (n : ℕ) → (ℕ → Vector) → Sampler F → Result (Sampler F)
  unfolding propose
  propose_all zero normals s = ok s
  propose_all (suc n) normals s = propose (normals n) n s >>= propose_all n normals

  unfoldable pub create :
      (normals : ℕ → Vector)
      → (unset : Vector) → ChainArray F
      → GaussianProposal F
      → (sigma_adapter beta_adapter : RegressionAdapter F) → (swap_interval : ℕ)
      → Result (Sampler F)
  unfolding propose_all num_total_chains
  create normals unset chains proposal sigma_adapter beta_adapter swap_interval =
      let n = wrap (chains.nstacks * chains.ntemps) in
      propose_all (num_total_chains chains) normals (record {
        chains = chains;
        proposal = proposal;
        sigma_adapter = sigma_adapter;
        beta_adapter = beta_adapter;
        prop_states = replicate n unset;
        swap_interval = swap_interval;
        num_outstanding_jobs = 0;
        locked = replicate n false;
        have_flushed = true;
        outstanding = [];
      })

  -- `requester_.retrieve()`, which waits while the batch is not there.
  unfoldable pub retrieve : ℕ → Sampler F → Result (Sampler F)
  retrieve id s = do
    guard (is_member id s.outstanding) blocked
    ok (record s { outstanding = remove_one id s.outstanding })

  -- `sigmaAdapter_.update`, `setSigma` and `proposal_.update` for the new last state of a chain.
  unfoldable pub adapt : ℕ → (previous state : State F) → Sampler F → Result (Sampler F)
  adapt id previous state s = do
    let logtemper : Real = neg (log state.beta)
    updated ← Regression.update id (log state.sigma) logtemper state.accepted s.sigma_adapter
    (sigma, sigma_adapter) ← compute_sigma id logtemper updated
    chains ← set_sigma id sigma s.chains
    proposal ←
        if state.accepted
        then Proposal.update id (vector_sub state.sample previous.sample) s.proposal
        else ok s.proposal
    ok (record s { sigma_adapter = sigma_adapter; chains = chains; proposal = proposal })

  -- `locked_[id - 1] = true`.
  unfoldable pub lock_lower : ℕ → Sampler F → Result (Sampler F)
  lock_lower id s = do
    locked ← put s.locked (wrap (id + (uint_mod - 1))) true
    ok (record s { locked = locked })

  -- The end of `unlock`: a chain that is not the coldest waits for the one below.
  unfoldable pub wait_or_propose : Draws F → ℕ → Sampler F → Result (Sampler F)
  unfolding lock_lower propose chain_index
  wait_or_propose draws id s =
      if chain_index s.chains.ntemps id == 0
      then propose draws.own_normals id s
      else lock_lower id s

  unfoldable pub unlock : Draws F → ℕ → Sampler F → Result (Sampler F)
  unfolding propose wait_or_propose
  unlock draws id s = do
    locked ← put s.locked id false
    s₁ ← propose draws.upper_normals (id + 1) (record s { locked = locked })
    wait_or_propose draws id s₁

  -- The branch of `step` in which the chain above is waiting.
  unfoldable pub swap_with_upper : Draws F → ℕ → Sampler F → Result (Sampler F)
  unfolding unlock is_coldest_in_stack
  swap_with_upper draws id s = do
    (outcome, chains) ← swap draws.swap_draw id (id + 1) s.chains
    s₁ ← unlock draws id (record s { chains = chains })
    bl ← at s₁.chains.betas id
    bh ← at s₁.chains.betas (id + 1)
    updated ← beta_update id bl bh (is_accept outcome) s₁.beta_adapter
    beta_adapter ←
        if is_coldest_in_stack s₁.chains.ntemps id
        then compute_beta_stack id updated
        else ok updated
    beta ← at beta_adapter.values (id + 1)
    chains' ← set_beta (id + 1) beta s₁.chains
    ok (record s₁ { chains = chains'; beta_adapter = beta_adapter })

  -- The swapping logic of `step`.
  unfoldable pub continue_unlocked : Draws F → ℕ → Sampler F → Result (Sampler F)
  unfolding starts_cascade lock_lower propose
  continue_unlocked draws id s = do
    len ← chain_length id s.chains
    starts ← starts_cascade s.chains.ntemps s.swap_interval id len
    (if starts then lock_lower id s else propose draws.own_normals id s)

  unfoldable pub continue_chain : Draws F → ℕ → Sampler F → Result (Sampler F)
  unfolding swap_with_upper continue_unlocked
  continue_chain draws id s = do
    is_locked ← at s.locked id
    (if is_locked then swap_with_upper draws id s else continue_unlocked draws id s)

  unfoldable pub step : Draws F → ℕ × List Real → Sampler F → Result ((ℕ × State F) × Sampler F)
  unfolding retrieve adapt continue_chain
  step draws (id, factors) s = do
    s₁ ← retrieve id s
    let counted = wrap (s₁.num_outstanding_jobs + (uint_mod - 1))
    previous ← last_state id s₁.chains
    x ← at s₁.prop_states id
    (accepted, chains) ← append draws.accept_draw draws.now id x (total_energy F factors) s₁.chains
    state ← last_state id chains
    s₂ ←
        adapt id previous state
          (record s₁ { num_outstanding_jobs = counted; chains = chains; have_flushed = false })
    s₃ ← continue_chain draws id s₂
    result ← last_state id s₃.chains
    ok ((id, result), s₃)

  -- The body of the loop of `flush`: one result, with a draw and the time. The texts of the result may
  -- be no numbers, and then `retrieve` throws.
  unfoldable pub drain_one : (ℕ × Option (List Real)) × (Real × ℕ) → Sampler F → Result (Sampler F)
  unfolding retrieve
  drain_one ((id, numbers), (u, now)) s = do
    s₁ ← retrieve id s
    factors ← or_fault numbers invalid_argument
    x ← at s₁.prop_states id
    (accepted, chains) ← append u now id x (total_energy F factors) s₁.chains
    ok (record s₁ { chains = chains })

  -- The loop of `flush` for `n` jobs, which waits when no more results come.
  unfoldable pub drain :
      (n : ℕ) → List ((ℕ × Option (List Real)) × (Real × ℕ)) → Sampler F → Result (Sampler F)
  unfolding drain_one
  drain zero results s = ok s
  drain (suc n) [] s = err blocked
  drain (suc n) (result ∷ rest) s = drain_one result s >>= drain n rest

  -- `flush`: the loop takes as many results as jobs are outstanding, and its last decrement takes the
  -- counter below 0.
  unfoldable pub flush :
      List ((ℕ × Option (List Real)) × (Real × ℕ)) → Sampler F → Result (Sampler F)
  unfolding drain num_total_chains
  flush results s = do
    s₁ ← drain s.num_outstanding_jobs results (record s { have_flushed = true })
    chains ← flush_from (num_total_chains s₁.chains) 0 s₁.chains
    ok (record s₁ { chains = chains; num_outstanding_jobs = uint_mod - 1 })

  -- The destructor.
  unfoldable pub destroy :
      List ((ℕ × Option (List Real)) × (Real × ℕ)) → Sampler F → Result (Sampler F)
  unfolding flush
  destroy results s = if s.have_flushed then ok s else flush results s
