-- ===== src/Infer/Sampler/Shows.antt =====
-- What it means that a sampler shows a ladder, and its operations on the way.
use stateline.Prelude.{
  ℕ, ◌+◌, ◌-◌, ◌*◌, ◌<◌, ◌≡◌, ◌∙◌, Bool, true, List, [], ◌∷◌, ◌++◌, arith, length, if◌then◌else◌,
  uint_mod, wrap, ok, Returns, Returns-ok, Returns-bind, length-append, Returns-if,
}
use stateline.Std.Vector.{at, put, at-put, length-put, Returns-at, Returns-put}
use stateline.Infer.Doubles.{Doubles}
use stateline.Infer.ChainArray.State.{ChainArray, State, last_state}
use stateline.Infer.ChainArray.Views.{IsShaped}
use stateline.Infer.ChainArray.Swapping.{SameChains, Returns-set_sigma}
use stateline.Infer.Adaptive.Regression.Shape.{IsSound, update-IsSound, compute_sigma-IsSound}
use stateline.Infer.Proposal.{GaussianProposal}
use stateline.Infer.Proposal
use stateline.Infer.Proposal.Shape.{IsSized, Returns-call, update-IsSized}
use stateline.Infer.Sampler.{Sampler, propose, retrieve, adapt, lock_lower, is_member, remove_one}
use stateline.Infer.Sampler.Ladder.{Ladder, lock_at, submit_at, take_at}
use stateline.Infer.Sampler.Outstanding.{
  occurrences, occurrences-append, is_member-occurrences, occurrences-remove_one, length-remove_one,
}

-- The vector of locks and the submitted batches are those of the ladder; the counter counts them.
pub record Agrees (total : ℕ) (l : Ladder) (locked : List Bool) (outstanding : List ℕ) (jobs : ℕ)
    : Type 0 where
  pub locked_length : length locked ≡ total
  pub locked_at : (j : ℕ) → j < total → at locked j ≡ ok (l.locked j)
  pub counted : (j : ℕ) → occurrences j outstanding ≡ l.pending j
  pub jobs_eq : jobs ≡ wrap (length outstanding)

module _ (total : ℕ) where
  -- A write to one lock.
  pub put_locked :
      (id : ℕ) (b : Bool) (l : Ladder) (locked locked' : List Bool) (outstanding : List ℕ)
      (jobs : ℕ)
      → Agrees total l locked outstanding jobs
      → put locked id b ≡ ok locked'
      → Agrees total (lock_at id b l) locked' outstanding jobs
  put_locked id b l locked locked' outstanding jobs h e = record {
    locked_length = length-put locked locked' id b e ∙ h.locked_length;
    locked_at = λ j inside. ground (arith, at-put locked locked' id j b e, h.locked_at j inside);
    counted = h.counted;
    jobs_eq = h.jobs_eq;
  }

  submitted :
      (id : ℕ) (l : Ladder) (locked : List Bool) (outstanding : List ℕ) (jobs : ℕ)
      → Agrees total l locked outstanding jobs
      → Agrees total (submit_at id l) locked (outstanding ++ id ∷ []) (wrap (jobs + 1))
  submitted id l locked outstanding jobs h = record {
    locked_length = h.locked_length;
    locked_at = h.locked_at;
    counted = λ j. ground (arith, occurrences-append outstanding id j, h.counted j);
    jobs_eq = omega (arith, h.jobs_eq, length-append outstanding (id ∷ []));
  }

  taken :
      (id : ℕ) (l : Ladder) (locked : List Bool) (outstanding : List ℕ) (jobs : ℕ)
      → Agrees total l locked outstanding jobs
      → is_member id outstanding ≡ true
      → Agrees total
          (take_at id l)
          locked
          (remove_one id outstanding)
          (wrap (jobs + (uint_mod - 1)))
  taken id l locked outstanding jobs h here = record {
    locked_length = h.locked_length;
    locked_at = h.locked_at;
    counted = λ j. ground (arith, occurrences-remove_one id j outstanding here, h.counted j);
    jobs_eq = omega (arith, h.jobs_eq, length-remove_one id outstanding here);
  }

module _ {F : Doubles} (nstacks ntemps : ℕ) where
  -- The chains have their sizes and every chain has a state.
  pub record IsReady (c : ChainArray F) : Type 0 where
    pub shaped : IsShaped c
    pub nstacks_eq : c.nstacks ≡ nstacks
    pub ntemps_eq : c.ntemps ≡ ntemps
    pub has_state : (j : ℕ) → j < nstacks * ntemps → (st : State F) × (last_state j c ≡ ok st)

  pub record Shows (l : Ladder) (s : Sampler F) : Type 0 where
    pub ready : IsReady s.chains
    pub sigma_sound : IsSound nstacks ntemps s.sigma_adapter
    pub beta_sound : IsSound nstacks ntemps s.beta_adapter
    pub sized : IsSized (nstacks * ntemps) s.proposal
    pub prop_length : length s.prop_states ≡ nstacks * ntemps
    pub interval : 0 < s.swap_interval
    pub agrees : Agrees (nstacks * ntemps) l s.locked s.outstanding s.num_outstanding_jobs

module _ {F : Doubles} (nstacks ntemps : ℕ) where
  pub small_total : (c : ChainArray F) → IsReady nstacks ntemps c → nstacks * ntemps < uint_mod
  small_total c h = rw (← h.nstacks_eq) (rw (← h.ntemps_eq) h.shaped.small)

  pub inside_chains :
      (id : ℕ) (c : ChainArray F)
      → IsReady nstacks ntemps c
      → id < nstacks * ntemps
      → id < c.nstacks * c.ntemps
  inside_chains id c h inside = rw h.nstacks_eq (rw h.ntemps_eq inside)

  pub SameChains-IsReady :
      (c c' : ChainArray F) → IsReady nstacks ntemps c → SameChains c c' → IsReady nstacks ntemps c'
  SameChains-IsReady c c' h same = record {
    shaped = same.shaped;
    nstacks_eq = same.nstacks_same ∙ h.nstacks_eq;
    ntemps_eq = same.ntemps_same ∙ h.ntemps_eq;
    has_state = λ j inside. let (st, e) = h.has_state j inside in (st, same.last_same j ∙ e);
  }

  -- `propose` submits a batch for the chain.
  pub propose-Shows :
      (normals : F.Vector) (id : ℕ) (l : Ladder) (s : Sampler F)
      → id < nstacks * ntemps
      → Shows nstacks ntemps l s
      → Returns (Shows nstacks ntemps (submit_at id l)) (propose normals id s)
  unfolding propose
  propose-Shows normals id l s inside h =
      let (last, e) = h.ready.has_state id inside in
      Returns-bind _ _
        (Returns-at s.sigma_adapter.values id (rw h.sigma_sound.values_length inside))
        (λ sigma _.
          Returns-bind {P = λ st. Unit {0}} _ _ (record { value = last; run = e; holds = tt })
            (λ st _.
              Returns-bind _ _
                (Returns-call (nstacks * ntemps) normals id st.sample sigma s.proposal inside
                  h.sized)
                (λ x _.
                  Returns-bind _ _ (Returns-put s.prop_states id x (rw h.prop_length inside))
                    (λ prop_states p. Returns-ok _ (record {
                      ready = h.ready;
                      sigma_sound = h.sigma_sound;
                      beta_sound = h.beta_sound;
                      sized = h.sized;
                      prop_length = length-put s.prop_states prop_states id x p ∙ h.prop_length;
                      interval = h.interval;
                      agrees =
                          submitted (nstacks * ntemps) id l s.locked s.outstanding
                            s.num_outstanding_jobs h.agrees;
                    })))))

  -- `locked_[id - 1] = true` for a chain that is not the first.
  pub lock_lower-Shows :
      (id : ℕ) (l : Ladder) (s : Sampler F)
      → 0 < id
      → id < nstacks * ntemps
      → Shows nstacks ntemps l s
      → Returns (Shows nstacks ntemps (lock_at (id - 1) true l)) (lock_lower id s)
  unfolding lock_lower
  lock_lower-Shows id l s positive inside h =
      let small = small_total s.chains h.ready in
      let same : wrap (id + (uint_mod - 1)) ≡ id - 1 = omega (arith, small, inside, positive) in
      rw same (
        Returns-bind _ _
          (Returns-put s.locked (id - 1) true (rw h.agrees.locked_length (omega arith)))
          (λ locked p. Returns-ok _ (record {
            ready = h.ready;
            sigma_sound = h.sigma_sound;
            beta_sound = h.beta_sound;
            sized = h.sized;
            prop_length = h.prop_length;
            interval = h.interval;
            agrees =
                put_locked (nstacks * ntemps) (id - 1) true l s.locked locked s.outstanding
                  s.num_outstanding_jobs h.agrees p;
          })))

  -- `retrieve`, with the decrement of the counter that follows it, takes a batch that is pending.
  pub retrieve-Shows :
      (id : ℕ) (l : Ladder) (s : Sampler F)
      → 0 < l.pending id
      → Shows nstacks ntemps l s
      → Returns
          (λ s'.
            Shows nstacks ntemps (take_at id l) (record s' {
              num_outstanding_jobs = wrap (s'.num_outstanding_jobs + (uint_mod - 1));
            }))
          (retrieve id s)
  unfolding retrieve
  retrieve-Shows id l s p h =
      let here = is_member-occurrences id s.outstanding (rw (h.agrees.counted id) p) in
      record {
        value = record s { outstanding = remove_one id s.outstanding };
        run = rw here;
        holds = record {
          ready = h.ready;
          sigma_sound = h.sigma_sound;
          beta_sound = h.beta_sound;
          sized = h.sized;
          prop_length = h.prop_length;
          interval = h.interval;
          agrees =
              taken (nstacks * ntemps) id l s.locked s.outstanding s.num_outstanding_jobs h.agrees
                here;
        };
      }

  adapt_proposal :
      (id : ℕ) (accepted : Bool) (v : F.Vector) (p : GaussianProposal F)
      → id < nstacks * ntemps
      → IsSized (nstacks * ntemps) p
      → Returns (IsSized (nstacks * ntemps)) (if accepted then Proposal.update id v p else ok p)
  adapt_proposal id accepted v p inside h =
      Returns-if accepted _ _ (λ _. update-IsSized (nstacks * ntemps) id v p inside h)
        (λ _. Returns-ok p h)

  -- The adaption leaves the ladder.
  pub adapt-Shows :
      (id : ℕ) (previous state : State F) (l : Ladder) (s : Sampler F)
      → id < nstacks * ntemps
      → Shows nstacks ntemps l s
      → Returns (Shows nstacks ntemps l) (adapt id previous state s)
  unfolding adapt
  adapt-Shows id previous state l s inside h =
      let pos : 0 < ntemps = rw (← h.ready.ntemps_eq) h.ready.shaped.positive in
      Returns-bind _ _
        (update-IsSound nstacks ntemps pos id _ _ state.accepted s.sigma_adapter inside
          h.sigma_sound)
        (λ updated sound.
          Returns-bind _ _ (compute_sigma-IsSound nstacks ntemps pos id _ updated inside sound)
            (λ computed sound'.
              Returns-bind _ _
                (Returns-set_sigma id computed.0 s.chains h.ready.shaped
                  (inside_chains id s.chains h.ready inside))
                (λ chains same.
                  Returns-bind _ _ (adapt_proposal id state.accepted _ s.proposal inside h.sized)
                    (λ proposal sized. Returns-ok _ (record {
                      ready = SameChains-IsReady s.chains chains h.ready same;
                      sigma_sound = sound';
                      beta_sound = h.beta_sound;
                      sized = sized;
                      prop_length = h.prop_length;
                      interval = h.interval;
                      agrees = h.agrees;
                    })))))
