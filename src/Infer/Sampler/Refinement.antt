-- ===== src/Infer/Sampler/Refinement.antt =====
-- The sampler's `step` and the moves of the ladder.
use stateline.Prelude.{
  ℕ, zero, suc, ◌+◌, ◌-◌, ◌*◌, ◌%◌, ◌≤◌, ◌<◌, ◌≡◌, refl, ◌∙◌, true, false, List, inl, inr, arith,
  ◌==◌, ltb, Bool-cases, Result, ok, Returns, Returns-ok, Returns-if, Returns-bind, uint_mod, wrap,
  ◌&&◌,
}
use stateline.Std.Vector.{Returns-at}
use stateline.Infer.Doubles.{Doubles}
use stateline.Infer.ChainArray.State.{
  ChainArray, State, chain_index, is_hottest_in_stack, chain_length, last_state,
}
use stateline.Infer.ChainArray.Moves.{append}
use stateline.Infer.ChainArray.Appending.{Appended, append_ok}
use stateline.Infer.Sampler.{
  Sampler, Draws, step, continue_chain, continue_unlocked, starts_cascade, total_energy,
  swap_with_upper,
}
use stateline.Infer.Sampler.Ladder.{Ladder, take_at, Move, swaps, starts, goes_on, IsFair}
use stateline.Infer.Sampler.Ladder.Fairness.{above_total, pending_total}
use stateline.Infer.Sampler.Shows.{
  IsReady, Shows, inside_chains, small_total, propose-Shows, lock_lower-Shows, retrieve-Shows,
  adapt-Shows,
}
use stateline.Infer.Sampler.Swaps.{swap_with_upper-Shows}

temps_le : (nstacks ntemps id : ℕ) → id < nstacks * ntemps → ntemps ≤ nstacks * ntemps
temps_le zero ntemps id inside = grind arith
temps_le (suc n) ntemps id inside = grind arith

-- A cascade starts at a hottest chain that is not alone in its stack.
Returns-starts_cascade :
    (n ntemps interval id len : ℕ)
    → n ≡ ntemps
    → 0 < ntemps
    → ntemps < uint_mod
    → 0 < interval
    → Returns
        (λ b. b ≡ true → (id % ntemps + 1 ≡ ntemps) × (1 < ntemps))
        (starts_cascade n interval id len)
unfolding starts_cascade is_hottest_in_stack chain_index
Returns-starts_cascade n ntemps interval id len same pos small positive = rw same (
    Returns-if (id % ntemps == wrap (ntemps + (uint_mod - 1))) _ _
      (λ hot.
        Returns-if (interval == 0) _ _ (λ z. absurd (ground (arith, z, positive)))
          (λ f.
            Returns-ok (len % interval == 0 && ltb 1 ntemps)
              (λ both. (ground (arith, hot, pos, small), ground (arith, both)))))
      (λ not_hot. Returns-ok false (λ e. absurd cc)))

module _ {F : Doubles} (nstacks ntemps : ℕ) where
  pub Appended-IsReady :
      (id : ℕ) (state : State F) (c c' : ChainArray F)
      → IsReady nstacks ntemps c
      → Appended id state c c'
      → IsReady nstacks ntemps c'
  Appended-IsReady id state c c' h a = record {
    shaped = a.shaped;
    nstacks_eq = a.nstacks_same ∙ h.nstacks_eq;
    ntemps_eq = a.ntemps_same ∙ h.ntemps_eq;
    has_state = λ j inside. elim (Bool-cases (id == j)) [
      | inl same ↦ (state, a.last_at j ∙ rw same)
      | inr other ↦ let (st, e) = h.has_state j inside in (st, a.last_at j ∙ rw other e)
    ];
  }

  pub Returns-append :
      (u : F.Real) (now id : ℕ) (x : F.Vector) (energy : F.Real) (c : ChainArray F)
      → id < nstacks * ntemps
      → IsReady nstacks ntemps c
      → Returns (λ r. IsReady nstacks ntemps r.1) (append u now id x energy c)
  Returns-append u now id x energy c inside h =
      let (last, e) = h.has_state id inside in
      let (sigma, beta, c', es, eb, done) =
        append_ok u now id x energy last c h.shaped (inside_chains nstacks ntemps id c h inside)
          e in
      record { value = (_, c'); run = done.0; holds = Appended-IsReady id _ c c' h done.1 }

  Returns-last_state :
      (id : ℕ) (c : ChainArray F)
      → id < nstacks * ntemps
      → IsReady nstacks ntemps c
      → Returns (λ st. last_state id c ≡ ok st) (last_state id c)
  Returns-last_state id c inside h =
      let (st, e) = h.has_state id inside in record { value = st; run = e; holds = e }

  Returns-chain_length :
      (id : ℕ) (c : ChainArray F)
      → id < nstacks * ntemps
      → IsReady nstacks ntemps c
      → Returns (λ n. Unit {0}) (chain_length id c)
  unfolding chain_length
  Returns-chain_length id c inside h =
      let there = inside_chains nstacks ntemps id c h inside in
      Returns-bind _ _ (Returns-at c.length_on_disk id (rw h.shaped.disk_length there)) (λ disk _.
        Returns-bind _ _ (Returns-at c.cache id (rw h.shaped.cache_length there))
          (λ cached _. Returns-ok _ tt))

  -- A sampler after a move of the ladder.
  pub record Moved (l : Ladder) (s : Sampler F) : Type 0 where
    pub ladder : Ladder
    pub move : Move ntemps l ladder
    pub shows : Shows nstacks ntemps ladder s

  Returns-Moved :
      {l l' : Ladder} {m : Result (Sampler F)}
      → Move ntemps l l'
      → Returns (Shows nstacks ntemps l') m
      → Returns (Moved l) m
  Returns-Moved move done = record {
    value = done.value;
    run = done.run;
    holds = record { ladder = _; move = move; shows = done.holds };
  }

  -- A sampler from which a batch for `id` was just taken.
  module _ (draws : Draws F) (id : ℕ) (l : Ladder) (s : Sampler F)
      (fair : IsFair ntemps (nstacks * ntemps) l) (p : 0 < l.pending id)
      (h : Shows nstacks ntemps (take_at id l) s) where
    is_inside : id < nstacks * ntemps
    is_inside = pending_total ntemps (nstacks * ntemps) id l fair p

    continue_unlocked-Moved : l.locked id ≡ false → Returns (Moved l) (continue_unlocked draws id s)
    unfolding continue_unlocked
    continue_unlocked-Moved free =
        let pos : 0 < ntemps = rw (← h.ready.ntemps_eq) h.ready.shaped.positive in
        let small : ntemps < uint_mod =
          omega
            (arith, temps_le nstacks ntemps id is_inside, small_total nstacks ntemps _ h.ready) in
        Returns-bind _ _ (Returns-chain_length id s.chains is_inside h.ready) (λ len _.
          Returns-bind {P = λ b. b ≡ true → (id % ntemps + 1 ≡ ntemps) × (1 < ntemps)} _ _
            (Returns-starts_cascade s.chains.ntemps ntemps s.swap_interval id len h.ready.ntemps_eq
              pos small h.interval)
            (λ b hot.
              Returns-if b _ _
                (λ t.
                  let (hottest, many) = hot t in
                  let above : 0 < id % ntemps = omega arith in
                  let positive : 0 < id = grind arith in
                  Returns-Moved (starts id p free hottest many)
                    (lock_lower-Shows nstacks ntemps id (take_at id l) s positive is_inside h))
                (λ f. Returns-Moved (goes_on id p free) (
                  propose-Shows nstacks ntemps draws.own_normals id (take_at id l) s is_inside h))))

    continue_swap-Moved : l.locked id ≡ true → Returns (Moved l) (swap_with_upper draws id s)
    continue_swap-Moved held =
        let total = above_total ntemps nstacks id is_inside (fair.not_hottest id held) in
        Returns-Moved (swaps id p held)
          (swap_with_upper-Shows nstacks ntemps draws id (take_at id l) s total h)

    continue_chain-Moved : Returns (Moved l) (continue_chain draws id s)
    unfolding continue_chain
    continue_chain-Moved =
        Returns-bind _ _
          (record { value = l.locked id; run = h.agrees.locked_at id is_inside; holds = refl })
          (λ b (e : l.locked id ≡ b).
            Returns-if b _ _ (λ t. continue_swap-Moved (e ∙ t))
              (λ f. continue_unlocked-Moved (e ∙ f)))

  -- What `step` returns: the id, the last state of its chain, and a sampler that has moved.
  pub record Stepped (id : ℕ) (l : Ladder) (r : (ℕ × State F) × Sampler F) : Type 0 where
    pub id_same : r.0.0 ≡ id
    pub state_last : last_state id r.1.chains ≡ ok r.0.1
    pub moved : Moved l r.1

  -- `step` of a sampler that shows a fair ladder, for a batch that is pending in it: it does not fault,
  -- it returns the id with the last state of its chain, and the sampler then shows a ladder that one
  -- move of the protocol leads to.
  pub step-Stepped :
      (draws : Draws F) (id : ℕ) (factors : List F.Real) (l : Ladder) (s : Sampler F)
      → IsFair ntemps (nstacks * ntemps) l
      → Shows nstacks ntemps l s
      → 0 < l.pending id
      → Returns (Stepped id l) (step draws (id, factors) s)
  unfolding step
  step-Stepped draws id factors l s fair h p =
      let inside = pending_total ntemps (nstacks * ntemps) id l fair p in
      Returns-bind _ _ (retrieve-Shows nstacks ntemps id l s p h) (λ s₁ h₁.
        Returns-bind _ _ (Returns-last_state id s₁.chains inside h₁.ready) (λ previous _.
          Returns-bind _ _ (Returns-at s₁.prop_states id (rw h₁.prop_length inside)) (λ x _.
            Returns-bind _ _
              (Returns-append draws.accept_draw draws.now id x (total_energy F factors) s₁.chains
                inside h₁.ready)
              (λ appended ready.
                Returns-bind _ _ (Returns-last_state id appended.1 inside ready) (λ state _.
                  Returns-bind _ _
                    (adapt-Shows nstacks ntemps id previous state (take_at id l) _ inside (record {
                      ready = ready;
                      sigma_sound = h₁.sigma_sound;
                      beta_sound = h₁.beta_sound;
                      sized = h₁.sized;
                      prop_length = h₁.prop_length;
                      interval = h₁.interval;
                      agrees = h₁.agrees;
                    }))
                    (λ s₂ h₂.
                      Returns-bind _ _ (continue_chain-Moved draws id l s₂ fair p h₂) (λ s₃ m.
                        Returns-bind _ _ (Returns-last_state id s₃.chains inside m.shows.ready)
                          (λ result e.
                            Returns-ok _
                              (record { id_same = refl; state_last = e; moved = m })))))))))
