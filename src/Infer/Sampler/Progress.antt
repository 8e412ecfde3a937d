-- ===== src/Infer/Sampler/Progress.antt =====
-- What holds of a sampler at every point of a history that begins with its constructor.
use stateline.Prelude.{
  ℕ, ◌*◌, ◌/◌, ◌%◌, ◌≤◌, ◌<◌, ◌≡◌, refl, true, arith, ok, Returns-value, Returns,
}
use stateline.Infer.Doubles.{Doubles}
use stateline.Infer.ChainArray.State.{ChainArray}
use stateline.Infer.Adaptive.Regression.{RegressionAdapter}
use stateline.Infer.Adaptive.Regression.Shape.{IsSound}
use stateline.Infer.Proposal.{GaussianProposal}
use stateline.Infer.Proposal.Shape.{IsSized}
use stateline.Infer.Sampler.{Sampler, create, is_member, flush}
use stateline.Infer.Sampler.Draining.{Results, ids, as_read}
use stateline.Infer.Sampler.Finishing.{Flushed, Running-flush}
use stateline.Infer.Sampler.Ladder.Fairness.{someone_runs}
use stateline.Infer.Sampler.Outstanding.{occurrences, is_member-occurrences}
use stateline.Infer.Sampler.Shows.{IsReady}
use stateline.Infer.Sampler.Histories.{Reach, Running, Reach-Running, create-Shows}

module _ {F : Doubles} (nstacks ntemps : ℕ) (normals : ℕ → F.Vector) (unset : F.Vector)
    (chains : ChainArray F) (proposal : GaussianProposal F)
    (sigma_adapter beta_adapter : RegressionAdapter F) (swap_interval : ℕ)
    (ready : IsReady nstacks ntemps chains) (sigma : IsSound nstacks ntemps sigma_adapter)
    (beta : IsSound nstacks ntemps beta_adapter) (sized : IsSized (nstacks * ntemps) proposal)
    (interval : 0 < swap_interval) (start s : Sampler F)
    (created : create normals unset chains proposal sigma_adapter beta_adapter swap_interval
      ≡ ok start)
    (history : Reach start s) where
  pos : 0 < ntemps
  pos = rw (← ready.ntemps_eq) ready.shaped.positive

  running : Running nstacks ntemps s
  running =
      Reach-Running nstacks ntemps start pos
        (Returns-value _ start
          (create-Shows nstacks ntemps normals unset chains proposal sigma_adapter beta_adapter
            swap_interval ready sigma beta sized interval)
          created)
        s history

  -- For every chain of a sampler that has run from its constructor, the chain or a colder one of its
  -- stack has a batch outstanding: the sampler never waits for a stack that has no work.
  pub someone_outstanding :
      (j : ℕ)
      → j < nstacks * ntemps
      → (i : ℕ) × (i ≤ j) × (i / ntemps ≡ j / ntemps) × (is_member i s.outstanding ≡ true)
  someone_outstanding j inside =
      let (i, le, stack, one) =
        someone_runs ntemps (nstacks * ntemps) running.ladder pos running.fair (j % ntemps) j inside
          refl in
      (
        i,
        le,
        stack,
        is_member-occurrences i s.outstanding (omega (arith, running.shows.agrees.counted i, one)),
      )

  -- `flush` of a sampler that has run from its constructor, which had chains with a state, adapters and
  -- proposals of their sizes and a swap interval above 0: when the results of the outstanding batches
  -- come in any order and are numbers, it returns. Then no batch is outstanding, every chain has a
  -- state, the sampler is marked as flushed and its counter of jobs is left at 2 ^ 32 - 1. The length
  -- of every chain has grown by the number of its batches, unless it wraps around.
  pub flush_returns :
      (results : Results F)
      → ((j : ℕ) → occurrences j (ids F results) ≡ occurrences j s.outstanding)
      → Returns (Flushed nstacks ntemps s) (flush (as_read F results) s)
  flush_returns results same = Running-flush nstacks ntemps results s running same
