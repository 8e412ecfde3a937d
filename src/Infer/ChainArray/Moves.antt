-- ===== src/Infer/ChainArray/Moves.antt =====
-- infer/chainarray.cpp: the steps of the chains. The clock and the random draws are arguments.
use stateline.Prelude.{ℕ, max, min, Bool, true, false, if◌then◌else◌, Result, ok, ◌>>=◌}
use stateline.Std.Vector.{at, put, set_back}
use stateline.Infer.Doubles.{Doubles}
use stateline.Infer.ChainArray.State.{
  ChainArray, State, SwapType, no_attempt, accept, reject, last_state, push_state,
}
use stateline.Infer.ChainArray.Storage.{flush_if_due}

module _ {F : Doubles} where
  open F use {Real, Vector, zero_real, minus_one, sub, mul, exp, less, is_inf}

  -- `acceptProposal`, with `u` the number that the generator draws.
  unfoldable pub accept_proposal : Real → State F → State F → Real → Bool
  accept_proposal u new_state old_state beta =
      if is_inf new_state.energy
      then false
      else less u (exp (mul (mul minus_one beta) (sub new_state.energy old_state.energy)))

  unfoldable pub accept_swap : Real → State F → State F → Real → Real → Bool
  accept_swap u state_low state_high beta_low beta_high =
      less u (exp (mul (sub state_high.energy state_low.energy) (sub beta_high beta_low)))

  -- The state that `append` pushes.
  unfoldable pub appended_state : Bool → State F → State F → State F
  appended_state accepted new_state last =
      if accepted
      then record new_state { accepted = true; swap_type = no_attempt }
      else record last { accepted = false; swap_type = no_attempt }

  unfoldable pub append : Real → ℕ → ℕ → Vector → Real → ChainArray F → Result (Bool × ChainArray F)
  unfolding accept_proposal appended_state push_state flush_if_due last_state
  append u now id sample energy c = do
    sigma ← at c.sigmas id
    beta ← at c.betas id
    let new_state : State F = record {
      sample = sample;
      energy = energy;
      sigma = sigma;
      beta = beta;
      accepted = false;
      swap_type = no_attempt;
    }
    last ← last_state id c
    let accepted = accept_proposal u new_state last beta
    c₁ ← push_state id (appended_state accepted new_state last) c
    c₂ ← flush_if_due now c₁
    ok (accepted, c₂)

  -- `cache_[id].back() = state`.
  unfoldable pub set_last_state : ℕ → State F → ChainArray F → Result (ChainArray F)
  set_last_state id state c = do
    cached ← at c.cache id
    cached' ← set_back cached state
    cache ← put c.cache id cached'
    ok (record c { cache = cache })

  -- The two states after `std::swap` of their samples, energies and flags.
  abbrev pub with_point_of : State F → State F → State F
  with_point_of a b = record a { sample = b.sample; energy = b.energy; accepted = b.accepted }

  -- The writes of `swap`, for the outcome of the draw.
  unfoldable pub swap_states :
      Bool → (h_id l_id : ℕ) → State F → State F → ChainArray F → Result (ChainArray F)
  unfolding set_last_state
  swap_states true h_id l_id state_h state_l c = do
    c₁ ← set_last_state h_id (with_point_of state_h state_l) c
    set_last_state l_id
        (record state_l {
          sample = state_h.sample;
          energy = state_h.energy;
          accepted = state_h.accepted;
          swap_type = accept;
        })
        c₁
  swap_states false h_id l_id state_h state_l c =
      set_last_state l_id (record state_l { swap_type = reject }) c

  unfoldable pub swap : Real → ℕ → ℕ → ChainArray F → Result (SwapType × ChainArray F)
  unfolding swap_states accept_swap last_state
  swap u id1 id2 c = do
    let h_id = max id1 id2
    let l_id = min id1 id2
    state_h ← last_state h_id c
    state_l ← last_state l_id c
    beta_h ← at c.betas h_id
    beta_l ← at c.betas l_id
    let swapped = accept_swap u state_h state_l beta_h beta_l
    c' ← swap_states swapped h_id l_id state_h state_l c
    ok (if swapped then accept else reject, c')
