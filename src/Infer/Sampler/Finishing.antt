-- ===== src/Infer/Sampler/Finishing.antt =====
-- The `flush` of a sampler: the results of its batches, and the states of all chains.
use native.Mathlib.Nat.{mul_comm}
use native.Mathlib.Decide.{dec_lt}
use stateline.Prelude.{
  ℕ, ◌+◌, ◌-◌, ◌*◌, ◌≤◌, ◌<◌, ◌≡◌, refl, ◌∙◌, true, [], arith, length, uint_mod, wrap, Returns,
  Returns-ok, Returns-bind,
}
use stateline.Infer.Doubles.{Doubles}
use stateline.Infer.ChainArray.State.{ChainArray, num_total_chains, chain_length}
use stateline.Infer.ChainArray.Storage.{flush_from}
use stateline.Infer.ChainArray.FlushAll.{flush_from_ok}
use stateline.Infer.Sampler.{Sampler, flush}
use stateline.Infer.Sampler.Ladder.Fairness.{pending_total}
use stateline.Infer.Sampler.Outstanding.{occurrences, length-of_once}
use stateline.Infer.Sampler.Shows.{IsReady, small_total}
use stateline.Infer.Sampler.Histories.{Running}
use stateline.Infer.Sampler.Draining.{IsDrainable, Results, ids, as_read, Grows, Returns-drain}

module _ {F : Doubles} (nstacks ntemps : ℕ) where
  Running-IsDrainable : (s : Sampler F) → Running nstacks ntemps s → IsDrainable nstacks ntemps s
  Running-IsDrainable s h = record {
    ready = h.shows.ready;
    prop_length = h.shows.prop_length;
    below = λ j p.
        pending_total ntemps (nstacks * ntemps) j h.ladder h.fair
          (rw (← h.shows.agrees.counted j) p);
  }

  once_outstanding :
      (s : Sampler F) → Running nstacks ntemps s → (j : ℕ) → occurrences j s.outstanding ≤ 1
  once_outstanding s h j = elim (dec_lt j (nstacks * ntemps)) [
    | yes inside ↦ ground (arith, h.shows.agrees.counted j, h.fair.one_batch j inside)
    | no beyond ↦
        omega (arith, h.shows.agrees.counted j, h.fair.none_beyond j (omega (arith, beyond)))
  ]

  Returns-flush_from :
      (c : ChainArray F)
      → IsReady nstacks ntemps c
      → Returns
          (λ c'. IsReady nstacks ntemps c' × ((j : ℕ) → chain_length j c' ≡ chain_length j c))
          (flush_from (num_total_chains c) 0 c)
  unfolding num_total_chains
  Returns-flush_from c h =
      let small = h.shaped.small in
      let n : 0 + wrap (c.ntemps * c.nstacks) ≤ c.nstacks * c.ntemps =
        omega (arith, small, mul_comm c.ntemps c.nstacks) in
      let (c', run, same) = flush_from_ok (wrap (c.ntemps * c.nstacks)) 0 c h.shaped n in
      record {
        value = c';
        run = run;
        holds = (
          record {
            shaped = same.shaped;
            nstacks_eq = same.nstacks_same ∙ h.nstacks_eq;
            ntemps_eq = same.ntemps_same ∙ h.ntemps_eq;
            has_state =
                λ j inside. let (st, e) = h.has_state j inside in (st, same.last_same j ∙ e);
          },
          same.length_same,
        );
      }

  -- What `flush` leaves of a sampler.
  pub record Flushed (s s' : Sampler F) : Type 0 where
    pub ready : IsReady nstacks ntemps s'.chains
    pub none_left : s'.outstanding ≡ []
    pub grows : Grows s.outstanding s.chains s'.chains
    pub marked : s'.have_flushed ≡ true
    pub counter_at_end : s'.num_outstanding_jobs ≡ uint_mod - 1

  Running-few : (s : Sampler F) → Running nstacks ntemps s → length s.outstanding < uint_mod
  Running-few s h =
      let few =
        length-of_once (nstacks * ntemps) s.outstanding (λ j. once_outstanding s h j)
          (Running-IsDrainable s h).below in
      omega (arith, few, small_total nstacks ntemps s.chains h.shows.ready)

  pub Running-flush :
      (results : Results F) (s : Sampler F)
      → Running nstacks ntemps s
      → ((j : ℕ) → occurrences j (ids F results) ≡ occurrences j s.outstanding)
      → Returns (Flushed s) (flush (as_read F results) s)
  unfolding flush
  Running-flush results s h same =
      let d = Running-IsDrainable s h in
      let n : s.num_outstanding_jobs ≡ length s.outstanding =
        omega (arith, h.shows.agrees.jobs_eq, Running-few s h) in
      Returns-bind _ _
        (Returns-drain nstacks ntemps results s.num_outstanding_jobs
          (record s { have_flushed = true })
          (record { ready = d.ready; prop_length = d.prop_length; below = d.below }) n same)
        (λ s₁ drained. Returns-bind _ _ (Returns-flush_from s₁.chains drained.ready) (λ chains p.
          Returns-ok _ (record {
            ready = p.0;
            none_left = drained.none_left;
            grows = λ j k l fits. p.1 j ∙ drained.grows j k l fits;
            marked = drained.mark_same;
            counter_at_end = refl;
          })))
