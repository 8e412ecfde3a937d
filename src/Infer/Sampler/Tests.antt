-- ===== src/Infer/Sampler/Tests.antt =====
-- The theorems on the sampler at a stack of two chains.
use stateline.Prelude.{ℕ, ◌/◌, ◌≤◌, ◌<◌, ◌≡◌, refl, true, [], ◌∷◌, arith, ok, Returns, zero, suc}
use stateline.Std.Vector.{at, back}
use stateline.Infer.Numbers.{numbers}
use stateline.Infer.ChainArray.State.{ChainArray, State, no_attempt, last_state}
use stateline.Infer.Adaptive.Regression.{RegressionAdapter}
use stateline.Infer.Adaptive.Regression
use stateline.Infer.Adaptive.Regression.Shape.{IsSound, create-IsSound}
use stateline.Infer.Proposal.{GaussianProposal}
use stateline.Infer.Proposal
use stateline.Infer.Proposal.Shape.{IsSized, create-IsSized}
use stateline.Infer.Sampler.{Draws, create, step, is_member, flush}
use stateline.Infer.Sampler.Ladder.{at_start}
use stateline.Infer.Sampler.Ladder.Fairness.{at_start-IsFair}
use stateline.Infer.Sampler.Outstanding.{occurrences, is_member-occurrences}
use stateline.Infer.Sampler.Shows.{IsReady, Shows}
use stateline.Infer.Sampler.Refinement.{Stepped, step-Stepped}
use stateline.Infer.Sampler.Histories.{Reach, begins, then_steps, create-Shows}
use stateline.Infer.Sampler.Progress.{someone_outstanding, flush_returns}
use stateline.Infer.Sampler.Draining.{Results, ids, as_read}
use stateline.Infer.Sampler.Finishing.{Flushed}

abbrev point : ℕ → State numbers
point n = record {
  sample = n ∷ [];
  energy = n;
  sigma = 1;
  beta = 1;
  accepted = true;
  swap_type = no_attempt;
}

abbrev two_chains : ChainArray numbers
two_chains = record {
  files = [] ∷ [];
  nstacks = 1;
  ntemps = 2;
  length_on_disk = 0 ∷ 0 ∷ [];
  betas = 1 ∷ 1 ∷ [];
  sigmas = 1 ∷ 1 ∷ [];
  cache = (point 4 ∷ []) ∷ (point 5 ∷ []) ∷ [];
  last_flush_time = 0;
}

two_chains-has_state : (j : ℕ) → j < 2 → (st : State numbers) × (last_state j two_chains ≡ ok st)
unfolding last_state at back
two_chains-has_state zero inside = (point 4, refl)
two_chains-has_state (suc zero) inside = (point 5, refl)
two_chains-has_state (suc (suc j)) inside = absurd (omega arith)

ready : IsReady 1 2 two_chains
ready = record {
  shaped = record {
    positive = omega arith;
    small = omega arith;
    files_length = refl;
    disk_length = refl;
    beta_length = refl;
    sigma_length = refl;
    cache_length = refl;
  };
  nstacks_eq = refl;
  ntemps_eq = refl;
  has_state = two_chains-has_state;
}

abbrev adapter : RegressionAdapter numbers
adapter = Regression.create 1 2 2 0 9

sound : IsSound 1 2 adapter
sound = create-IsSound 1 2 2 0 9 (omega arith)

abbrev gaussian : GaussianProposal numbers
gaussian = Proposal.create 1 2 1 (record { lower = 0 ∷ []; upper = 8 ∷ [] }) 1

sized : IsSized 2 gaussian
sized = create-IsSized 1 2 1 (record { lower = 0 ∷ []; upper = 8 ∷ [] }) 1 (omega arith)

abbrev normals : ℕ → numbers.Vector
normals i = i ∷ []

abbrev begun :
    Returns (Shows 1 2 (at_start 2)) (create normals [] two_chains gaussian adapter adapter 2)
begun =
    create-Shows 1 2 normals [] two_chains gaussian adapter adapter 2 ready sound sound sized
      (omega arith)

abbrev draws : Draws numbers
draws = record {
  accept_draw = 0;
  swap_draw = 0;
  upper_normals = 1 ∷ [];
  own_normals = 2 ∷ [];
  now = 3;
}

-- The result of the hotter chain has come.
step-Stepped_example : Returns (Stepped 1 2 1 (at_start 2)) (step draws (1, 6 ∷ 7 ∷ []) begun.value)
step-Stepped_example =
    step-Stepped 1 2 draws 1 (6 ∷ 7 ∷ []) (at_start 2) begun.value (at_start-IsFair 2 2) begun.holds
      (omega arith)

start_outstanding : (j : ℕ) → j < 2 → is_member j begun.value.outstanding ≡ true
start_outstanding j inside =
    is_member-occurrences j begun.value.outstanding (ground (arith, begun.holds.agrees.counted j))

abbrev stepped : Returns (Stepped 1 2 1 (at_start 2)) (step draws (1, 6 ∷ 7 ∷ []) begun.value)
stepped =
    step-Stepped 1 2 draws 1 (6 ∷ 7 ∷ []) (at_start 2) begun.value (at_start-IsFair 2 2) begun.holds
      (omega arith)

abbrev one_step : Reach begun.value stepped.value.1
one_step =
    then_steps draws 1 (6 ∷ 7 ∷ []) stepped.value.0 begun.value stepped.value.1 begins
      (start_outstanding 1 (omega arith)) stepped.run

someone_outstanding_example :
    (i : ℕ) × (i ≤ 1) × (i / 2 ≡ 1 / 2) × (is_member i stepped.value.1.outstanding ≡ true)
someone_outstanding_example =
    someone_outstanding 1 2 normals [] two_chains gaussian adapter adapter 2 ready sound sound sized
      (omega arith) begun.value stepped.value.1 begun.run one_step 1 (omega arith)

-- The results of the two chains of a sampler that has just begun, the colder one's first.
abbrev last_results : Results numbers
last_results = ((0, 6 ∷ []), (0, 9)) ∷ ((1, 7 ∷ []), (0, 9)) ∷ []

two_outstanding :
    (j : ℕ) → occurrences j (ids numbers last_results) ≡ occurrences j begun.value.outstanding
two_outstanding j = ground (arith, begun.holds.agrees.counted j)

flush_returns_example :
    Returns (Flushed 1 2 begun.value) (flush (as_read numbers last_results) begun.value)
flush_returns_example =
    flush_returns 1 2 normals [] two_chains gaussian adapter adapter 2 ready sound sound sized
      (omega arith) begun.value begun.value begun.run begins last_results two_outstanding
