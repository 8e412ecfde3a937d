-- ===== src/Infer/ChainArray/State.antt =====
-- infer/datatypes.hpp, infer/chainarray.hpp: the chains, and the operations on one entry of each
-- vector. A file is the list of the states written to it.
use stateline.Prelude.{
  ℕ, ◌+◌, ◌-◌, ◌*◌, ◌/◌, ◌%◌, Bool, true, List, [], ◌∷◌, ◌++◌, length, replicate, ◌==◌, uint_mod,
  wrap, Result, ok, ◌>>=◌,
}
use stateline.Std.Vector.{at, put, back}
use stateline.Infer.Doubles.{Doubles}

pub data SwapType : Type 0 where
  no_attempt accept reject : SwapType

pub record State (F : Doubles) : Type 0 where
  pub sample : F.Vector
  pub energy : F.Real
  pub sigma : F.Real
  pub beta : F.Real
  pub accepted : Bool
  pub swap_type : SwapType

pub record ChainArray (F : Doubles) : Type 0 where
  pub files : List (List (State F))
  pub nstacks : ℕ
  pub ntemps : ℕ
  pub length_on_disk : List ℕ
  pub betas : List F.Real
  pub sigmas : List F.Real
  pub cache : List (List (State F))
  pub last_flush_time : ℕ

-- `id / numTemps()` and `id % numTemps()`.
unfoldable pub stack_index : (ntemps id : ℕ) → ℕ
stack_index ntemps id = id / ntemps

unfoldable pub chain_index : (ntemps id : ℕ) → ℕ
chain_index ntemps id = id % ntemps

unfoldable pub is_hottest_in_stack : (ntemps id : ℕ) → Bool
unfolding chain_index
is_hottest_in_stack ntemps id = chain_index ntemps id == wrap (ntemps + (uint_mod - 1))

unfoldable pub is_coldest_in_stack : (ntemps id : ℕ) → Bool
unfolding chain_index
is_coldest_in_stack ntemps id = chain_index ntemps id == 0

module _ {F : Doubles} where
  open F use {Real, Vector, zero_real, minus_one, sub, mul, exp, less, is_inf}

  unfoldable pub num_total_chains : ChainArray F → ℕ
  num_total_chains c = wrap (c.ntemps * c.nstacks)

  unfoldable pub create : (n_stacks n_temps now : ℕ) → ChainArray F
  create n_stacks n_temps now =
      let n = wrap (n_stacks * n_temps) in
      record {
        files = replicate n_stacks [];
        nstacks = n_stacks;
        ntemps = n_temps;
        length_on_disk = replicate n 0;
        betas = replicate n zero_real;
        sigmas = replicate n zero_real;
        cache = replicate n [];
        last_flush_time = now;
      }

  -- `ChainArray::length`.
  unfoldable pub chain_length : ℕ → ChainArray F → Result ℕ
  chain_length id c = do
    disk ← at c.length_on_disk id
    cached ← at c.cache id
    ok (wrap (disk + length cached))

  unfoldable pub last_state : ℕ → ChainArray F → Result (State F)
  last_state id c = do cached ← at c.cache id; back cached

  unfoldable pub set_sigma : ℕ → Real → ChainArray F → Result (ChainArray F)
  set_sigma id value c = do sigmas ← put c.sigmas id value; ok (record c { sigmas = sigmas })

  unfoldable pub set_beta : ℕ → Real → ChainArray F → Result (ChainArray F)
  set_beta id value c = do betas ← put c.betas id value; ok (record c { betas = betas })

  -- `cache_[id].push_back(state)`.
  unfoldable pub push_state : ℕ → State F → ChainArray F → Result (ChainArray F)
  push_state id state c = do
    cached ← at c.cache id
    cache ← put c.cache id (cached ++ state ∷ [])
    ok (record c { cache = cache })

  unfoldable pub initialise : ℕ → Vector → Real → Real → Real → ChainArray F → Result (ChainArray F)
  unfolding set_sigma set_beta push_state
  initialise id sample energy sigma beta c = do
    c₁ ← set_sigma id sigma c
    c₂ ← set_beta id beta c₁
    sigma' ← at c₂.sigmas id
    beta' ← at c₂.betas id
    let state : State F = record {
      sample = sample;
      energy = energy;
      sigma = sigma';
      beta = beta';
      accepted = true;
      swap_type = no_attempt;
    }
    push_state id state c₂
