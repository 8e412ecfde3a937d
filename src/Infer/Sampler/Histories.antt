-- ===== src/Infer/Sampler/Histories.antt =====
-- Histories of a sampler: the constructor, then a `step` for each result that comes.
use native.Mathlib.Nat.{mul_comm}
use stateline.Prelude.{
  ℕ, zero, suc, ◌*◌, ◌≤◌, ◌<◌, ◌≡◌, refl, ap, ◌∙◌, true, false, List, [], arith, ltb, leb, ◌&&◌,
  replicate, length-replicate, if◌then◌else◌, wrap, ok, Returns, Returns-ok, Returns-bind,
  Returns-value,
}
use stateline.Std.Vector.{at-replicate}
use stateline.Infer.Doubles.{Doubles}
use stateline.Infer.ChainArray.State.{ChainArray, State, num_total_chains}
use stateline.Infer.Adaptive.Regression.{RegressionAdapter}
use stateline.Infer.Adaptive.Regression.Shape.{IsSound}
use stateline.Infer.Proposal.{GaussianProposal}
use stateline.Infer.Proposal.Shape.{IsSized}
use stateline.Infer.Sampler.{Sampler, Draws, create, propose_all, step, is_member}
use stateline.Infer.Sampler.Ladder.{Ladder, IsFair, at_start}
use stateline.Infer.Sampler.Ladder.Fairness.{at_start-IsFair, Move-IsFair}
use stateline.Infer.Sampler.Outstanding.{occurrences-is_member}
use stateline.Infer.Sampler.Shows.{IsReady, Shows, propose-Shows, small_total}
use stateline.Infer.Sampler.Refinement.{step-Stepped}

-- The ladder in the constructor's loop, when the chains below `n` have no batch yet.
started : (n total : ℕ) → Ladder
started n total = record {
  locked = λ j. false;
  pending = λ j. if leb n j && ltb j total then 1 else 0;
}

-- Where a chain may be found: in a sampler that was created, or after a result for an outstanding batch.
pub data Reach {F : Doubles} (start : Sampler F) : Sampler F → Type 0 where
  begins : Reach start start
  then_steps :
      (draws : Draws F) (id : ℕ) (factors : List F.Real) (r : ℕ × State F) (s s' : Sampler F)
      → Reach start s
      → is_member id s.outstanding ≡ true
      → step draws (id, factors) s ≡ ok (r, s')
      → Reach start s'

module _ {F : Doubles} (nstacks ntemps : ℕ) where
  same-Shows :
      (l l' : Ladder) (s : Sampler F)
      → ((j : ℕ) → l.locked j ≡ l'.locked j)
      → ((j : ℕ) → l.pending j ≡ l'.pending j)
      → Shows nstacks ntemps l s
      → Shows nstacks ntemps l' s
  same-Shows l l' s locks batches h = record {
    ready = h.ready;
    sigma_sound = h.sigma_sound;
    beta_sound = h.beta_sound;
    sized = h.sized;
    prop_length = h.prop_length;
    interval = h.interval;
    agrees = record {
      locked_length = h.agrees.locked_length;
      locked_at = λ j inside. h.agrees.locked_at j inside ∙ ap ok (locks j);
      counted = λ j. h.agrees.counted j ∙ batches j;
      jobs_eq = h.agrees.jobs_eq;
    };
  }

  propose_all-Shows :
      (n : ℕ) (normals : ℕ → F.Vector) (s : Sampler F)
      → n ≤ nstacks * ntemps
      → Shows nstacks ntemps (started n (nstacks * ntemps)) s
      → Returns (Shows nstacks ntemps (at_start (nstacks * ntemps))) (propose_all n normals s)
  unfolding propose_all started
  propose_all-Shows zero normals s room h =
      Returns-ok s (same-Shows _ _ s (λ j. refl) (λ j. ground arith) h)
  propose_all-Shows (suc n) normals s room h =
      Returns-bind _ _ (propose-Shows nstacks ntemps (normals n) n _ s (omega arith) h) (λ s₁ h₁.
        propose_all-Shows n normals s₁ (omega arith)
          (same-Shows _ _ s₁ (λ j. refl) (λ j. ground (arith, room)) h₁))

  created_from :
      (n m : ℕ) (normals : ℕ → F.Vector) (unset : F.Vector) (chains : ChainArray F)
      (proposal : GaussianProposal F) (sigma_adapter beta_adapter : RegressionAdapter F)
      (swap_interval : ℕ)
      → n ≡ nstacks * ntemps
      → m ≡ nstacks * ntemps
      → IsReady nstacks ntemps chains
      → IsSound nstacks ntemps sigma_adapter
      → IsSound nstacks ntemps beta_adapter
      → IsSized (nstacks * ntemps) proposal
      → 0 < swap_interval
      → Shows nstacks ntemps (started m (nstacks * ntemps)) (record {
        chains = chains;
        proposal = proposal;
        sigma_adapter = sigma_adapter;
        beta_adapter = beta_adapter;
        prop_states = replicate n unset;
        swap_interval = swap_interval;
        num_outstanding_jobs = 0;
        locked = replicate n false;
        have_flushed = true;
        outstanding = [];
      })
  unfolding started
  created_from n m normals unset chains proposal sigma_adapter beta_adapter swap_interval e e' ready
        sigma beta sized interval =
      record {
        ready = ready;
        sigma_sound = sigma;
        beta_sound = beta;
        sized = sized;
        prop_length = length-replicate n unset ∙ e;
        interval = interval;
        agrees = record {
          locked_length = length-replicate n false ∙ e;
          locked_at = λ j inside. at-replicate n j false (omega arith);
          counted = λ j. ground (arith, e');
          jobs_eq = refl;
        };
      }

  -- The constructor.
  pub create-Shows :
      (normals : ℕ → F.Vector) (unset : F.Vector) (chains : ChainArray F)
      (proposal : GaussianProposal F) (sigma_adapter beta_adapter : RegressionAdapter F)
      (swap_interval : ℕ)
      → IsReady nstacks ntemps chains
      → IsSound nstacks ntemps sigma_adapter
      → IsSound nstacks ntemps beta_adapter
      → IsSized (nstacks * ntemps) proposal
      → 0 < swap_interval
      → Returns
          (Shows nstacks ntemps (at_start (nstacks * ntemps)))
          (create normals unset chains proposal sigma_adapter beta_adapter swap_interval)
  unfolding create num_total_chains started
  create-Shows normals unset chains proposal sigma_adapter beta_adapter swap_interval ready sigma
        beta sized interval =
      let total : chains.nstacks * chains.ntemps ≡ nstacks * ntemps =
        rw ready.nstacks_eq (rw ready.ntemps_eq refl) in
      let small = small_total nstacks ntemps chains ready in
      let n : wrap (chains.nstacks * chains.ntemps) ≡ nstacks * ntemps =
        omega (arith, total, small) in
      let m : wrap (chains.ntemps * chains.nstacks) ≡ nstacks * ntemps =
        omega (arith, total, small, mul_comm chains.ntemps chains.nstacks) in
      propose_all-Shows (wrap (chains.ntemps * chains.nstacks)) normals _ (omega (arith, m)) (
        created_from _ _ normals unset chains proposal sigma_adapter beta_adapter swap_interval n m
          ready sigma beta sized interval)

  pub record Running (s : Sampler F) : Type 0 where
    pub ladder : Ladder
    pub fair : IsFair ntemps (nstacks * ntemps) ladder
    pub shows : Shows nstacks ntemps ladder s

  -- Every sampler of a history that starts with the constructor shows a fair ladder.
  module _ (start : Sampler F) (pos : 0 < ntemps)
      (begun : Shows nstacks ntemps (at_start (nstacks * ntemps)) start) where
    pub Reach-Running : (s : Sampler F) → Reach start s → Running s
    Reach-Running s begins = record {
      ladder = at_start (nstacks * ntemps);
      fair = at_start-IsFair ntemps (nstacks * ntemps);
      shows = begun;
    }
    Reach-Running _ (then_steps draws id factors r s s' before here run) =
        let old = Reach-Running s before in
        let p : 0 < old.ladder.pending id =
          rw (← old.shows.agrees.counted id) (occurrences-is_member id s.outstanding here) in
        let done = step-Stepped nstacks ntemps draws id factors old.ladder s old.fair old.shows p in
        let new = Returns-value _ (r, s') done run in
        record {
          ladder = new.moved.ladder;
          fair = Move-IsFair ntemps nstacks old.ladder _ pos old.fair new.moved.move;
          shows = new.moved.shows;
        }
