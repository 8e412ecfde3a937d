-- ===== src/Infer/Sampler/Swaps.antt =====
-- The branch of the sampler's `step` in which the chain above waits.
use stateline.Prelude.{
  ℕ, ◌+◌, ◌-◌, ◌*◌, ◌/◌, ◌%◌, ◌≤◌, ◌<◌, ◌≡◌, ap, ◌∙◌, max, min, Bool, true, false, inl, inr, arith,
  ◌==◌, if◌then◌else◌, Bool-cases, ==_iff, ok, Returns, Returns-ok, Returns-if, Returns-bind,
  Returns-choice,
}
use native.Mathlib.Nat.{div-lt_iff_lt-mul}
use stateline.Std.Vector.{at_ok, Returns-at, Returns-put}
use stateline.Infer.Doubles.{Doubles}
use stateline.Infer.ChainArray.State.{ChainArray, State, chain_index, is_coldest_in_stack}
use stateline.Infer.ChainArray.Moves.{swap}
use stateline.Infer.ChainArray.Swapping.{
  Swapped, swap_ok, lower_after, upper_after, Returns-set_beta,
}
use stateline.Infer.Adaptive.Regression.{RegressionAdapter, compute_beta_stack}
use stateline.Infer.Adaptive.Regression.Shape.{
  IsSound, beta_update-IsSound, compute_beta_stack-IsSound,
}
use stateline.Infer.Sampler.{Sampler, Draws, wait_or_propose, unlock, swap_with_upper}
use stateline.Infer.Sampler.Ladder.{Ladder, lock_at, submit_at, climb_down}
use stateline.Infer.Sampler.Ladder.Fairness.{pred_mod}
use stateline.Infer.Sampler.Shows.{
  IsReady, Shows, put_locked, inside_chains, SameChains-IsReady, propose-Shows, lock_lower-Shows,
}

-- A coldest chain has room for its whole stack.
stack_room :
    (ntemps nstacks id : ℕ)
    → 0 < ntemps
    → id < nstacks * ntemps
    → id % ntemps ≡ 0
    → id + ntemps ≤ nstacks * ntemps
stack_room ntemps nstacks id pos inside cold =
    let below : id / ntemps < nstacks = (div-lt_iff_lt-mul pos).1 inside in grind arith

module _ {F : Doubles} (nstacks ntemps : ℕ) where
  Swapped-IsReady :
      (b : Bool) (h_id l_id : ℕ) (state_h state_l : State F) (c c' : ChainArray F)
      → IsReady nstacks ntemps c
      → Swapped b h_id l_id state_h state_l c c'
      → IsReady nstacks ntemps c'
  Swapped-IsReady b h_id l_id state_h state_l c c' h w = record {
    shaped = w.shaped;
    nstacks_eq = w.nstacks_same ∙ h.nstacks_eq;
    ntemps_eq = w.ntemps_same ∙ h.ntemps_eq;
    has_state = λ j inside. elim (Bool-cases (l_id == j)) [
      | inl low ↦ (lower_after b state_h state_l, w.last_at j ∙ rw low)
      | inr other ↦ elim (Bool-cases (h_id == j)) [
        | inl high ↦ (upper_after b state_h state_l, w.last_at j ∙ rw other (rw high))
        | inr rest ↦ let (st, e) = h.has_state j inside in (st, w.last_at j ∙ rw other (rw rest e))
      ]
    ];
  }

  Returns-swap :
      (u : F.Real) (id : ℕ) (c : ChainArray F)
      → id + 1 < nstacks * ntemps
      → IsReady nstacks ntemps c
      → Returns (λ r. IsReady nstacks ntemps r.1) (swap u id (id + 1) c)
  Returns-swap u id c inside h =
      let high : max id (id + 1) < nstacks * ntemps = omega arith in
      let low : min id (id + 1) < nstacks * ntemps = omega arith in
      let (state_h, eh) = h.has_state (max id (id + 1)) high in
      let (state_l, el) = h.has_state (min id (id + 1)) low in
      let (bh, ebh) =
        at_ok c.betas (max id (id + 1))
          (rw h.shaped.beta_length (inside_chains nstacks ntemps _ c h high)) in
      let (bl, ebl) =
        at_ok c.betas (min id (id + 1))
          (rw h.shaped.beta_length (inside_chains nstacks ntemps _ c h low)) in
      let done =
        swap_ok u id (id + 1) state_h state_l bh bl c h.shaped
          (inside_chains nstacks ntemps _ c h high) (λ e. omega arith) eh el ebh ebl in
      record {
        value = done.value;
        run = done.run;
        holds = Swapped-IsReady _ _ _ state_h state_l c done.value.1 h done.holds.1;
      }

  wait_or_propose-Shows :
      (draws : Draws F) (id : ℕ) (l : Ladder) (s : Sampler F)
      → id < nstacks * ntemps
      → Shows nstacks ntemps l s
      → Returns
          (Shows nstacks ntemps
            (if id % ntemps == 0 then submit_at id l else lock_at (id - 1) true l))
          (wait_or_propose draws id s)
  unfolding wait_or_propose chain_index
  wait_or_propose-Shows draws id l s inside h =
      let pos : 0 < ntemps = rw (← h.ready.ntemps_eq) h.ready.shaped.positive in
      Returns-choice (Shows nstacks ntemps) (id % ntemps == 0) _ _ _
        (ap (λ n. id % n == 0) h.ready.ntemps_eq)
        (λ t. propose-Shows nstacks ntemps draws.own_normals id l s inside h)
        (λ f.
          lock_lower-Shows nstacks ntemps id l s
            (omega (arith, pred_mod ntemps id pos (λ z. ground (arith, z, f)))) inside h)

  unlock-Shows :
      (draws : Draws F) (id : ℕ) (l : Ladder) (s : Sampler F)
      → id + 1 < nstacks * ntemps
      → Shows nstacks ntemps l s
      → Returns (Shows nstacks ntemps (climb_down ntemps id l)) (unlock draws id s)
  unfolding unlock
  unlock-Shows draws id l s inside h =
      Returns-bind _ _ (Returns-put s.locked id false (rw h.agrees.locked_length (omega arith)))
        (λ locked p.
          let freed : Shows nstacks ntemps (lock_at id false l) (record s { locked = locked }) =
            record {
              ready = h.ready;
              sigma_sound = h.sigma_sound;
              beta_sound = h.beta_sound;
              sized = h.sized;
              prop_length = h.prop_length;
              interval = h.interval;
              agrees =
                  put_locked (nstacks * ntemps) id false l s.locked locked s.outstanding
                    s.num_outstanding_jobs h.agrees p;
            } in
          Returns-bind _ _
            (propose-Shows nstacks ntemps draws.upper_normals (id + 1) (lock_at id false l)
              (record s { locked = locked }) inside freed)
            (λ s₁ h₁.
              wait_or_propose-Shows draws id (submit_at (id + 1) (lock_at id false l)) s₁
                (omega arith) h₁))

  pub adapt_stack :
      (id : ℕ) (n : ℕ) (a : RegressionAdapter F)
      → 0 < ntemps
      → id < nstacks * ntemps
      → n ≡ ntemps
      → IsSound nstacks ntemps a
      → Returns
          (IsSound nstacks ntemps)
          (if is_coldest_in_stack n id then compute_beta_stack id a else ok a)
  unfolding is_coldest_in_stack chain_index
  adapt_stack id n a pos inside same h =
      Returns-if (id % n == 0) _ _
        (λ t.
          compute_beta_stack-IsSound nstacks ntemps pos id a
            (stack_room ntemps nstacks id pos inside (rw (← same) ((==_iff (id % n) 0).0 t))) h)
        (λ f. Returns-ok a h)

  -- The branch frees the chain above and moves the wait one chain down.
  pub swap_with_upper-Shows :
      (draws : Draws F) (id : ℕ) (l : Ladder) (s : Sampler F)
      → id + 1 < nstacks * ntemps
      → Shows nstacks ntemps l s
      → Returns (Shows nstacks ntemps (climb_down ntemps id l)) (swap_with_upper draws id s)
  unfolding swap_with_upper
  swap_with_upper-Shows draws id l s inside h =
      let pos : 0 < ntemps = rw (← h.ready.ntemps_eq) h.ready.shaped.positive in
      let here : id < nstacks * ntemps = omega arith in
      Returns-bind _ _ (Returns-swap draws.swap_draw id s.chains inside h.ready) (λ swapped ready.
        Returns-bind _ _
          (unlock-Shows draws id l (record s { chains = swapped.1 }) inside
            (record {
              ready = ready;
              sigma_sound = h.sigma_sound;
              beta_sound = h.beta_sound;
              sized = h.sized;
              prop_length = h.prop_length;
              interval = h.interval;
              agrees = h.agrees;
            }))
          (λ s₁ h₁.
            let c = s₁.chains in
            let betas = h₁.ready.shaped.beta_length in
            Returns-bind _ _
              (Returns-at c.betas id (rw betas (inside_chains nstacks ntemps id c h₁.ready here)))
              (λ bl _.
                Returns-bind _ _
                  (Returns-at c.betas (id + 1)
                    (rw betas (inside_chains nstacks ntemps (id + 1) c h₁.ready inside)))
                  (λ bh _.
                    Returns-bind _ _
                      (beta_update-IsSound nstacks ntemps pos id bl bh _ s₁.beta_adapter here
                        h₁.beta_sound)
                      (λ updated sound.
                        Returns-bind _ _
                          (adapt_stack id c.ntemps updated pos here h₁.ready.ntemps_eq sound)
                          (λ beta_adapter sound'.
                            Returns-bind _ _
                              (Returns-at beta_adapter.values (id + 1)
                                (rw sound'.values_length inside))
                              (λ beta _.
                                Returns-bind _ _
                                  (Returns-set_beta (id + 1) beta c h₁.ready.shaped
                                    (inside_chains nstacks ntemps (id + 1) c h₁.ready inside))
                                  (λ chains same. Returns-ok _ (record {
                                    ready =
                                        SameChains-IsReady nstacks ntemps c chains h₁.ready same;
                                    sigma_sound = h₁.sigma_sound;
                                    beta_sound = sound';
                                    sized = h₁.sized;
                                    prop_length = h₁.prop_length;
                                    interval = h₁.interval;
                                    agrees = h₁.agrees;
                                  })))))))))
