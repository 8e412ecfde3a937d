-- ===== src/Infer/ChainArray/Swapping.antt =====
-- `swap` and the setters of a chain array: what a reader of the chains sees afterwards.
use stateline.Prelude.{
  ℕ, ◌*◌, ◌<◌, ◌≡◌, refl, ◌∙◌, ◌≢◌, max, min, Bool, true, false, List, [], ◌∷◌, ◌++◌, arith, ◌==◌,
  if◌then◌else◌, ok, Bool-cases, inl, inr, ==_iff, Returns, Returns-ok, Returns-bind, >>=-eq-ok,
}
use stateline.Std.Vector.{
  at, back, all_but_last, at-put, length-put, back-append, set_back_some, Returns-put,
}
use stateline.Infer.Doubles.{Doubles}
use stateline.Infer.ChainArray.State.{
  ChainArray, State, accept, reject, last_state, set_sigma, set_beta,
}
use stateline.Infer.ChainArray.Moves.{accept_swap, set_last_state, with_point_of, swap_states, swap}
use stateline.Infer.ChainArray.Views.{IsShaped}

-- The rule for a swap of two states at their inverse temperatures, with a draw `u`.
abbrev pub is_exchanged : (F : Doubles) (u energy_h energy_l beta_h beta_l : F.Real) → Bool
is_exchanged F u energy_h energy_l beta_h beta_l =
    F.less u (F.exp (F.mul (F.sub energy_l energy_h) (F.sub beta_l beta_h)))

module _ {F : Doubles} where
  open F use {Real}

  -- A write to the step sizes or temperatures leaves the chains.
  pub record SameChains (c c' : ChainArray F) : Type 0 where
    pub shaped : IsShaped c'
    pub nstacks_same : c'.nstacks ≡ c.nstacks
    pub ntemps_same : c'.ntemps ≡ c.ntemps
    pub last_same : (j : ℕ) → last_state j c' ≡ last_state j c

  pub Returns-set_sigma :
      (id : ℕ) (value : Real) (c : ChainArray F)
      → IsShaped c
      → id < c.nstacks * c.ntemps
      → Returns (SameChains c) (set_sigma id value c)
  unfolding set_sigma last_state
  Returns-set_sigma id value c h inside =
      Returns-bind _ _ (Returns-put c.sigmas id value (rw h.sigma_length inside)) (λ sigmas e.
        Returns-ok _ (record {
          shaped = record {
            positive = h.positive;
            small = h.small;
            files_length = h.files_length;
            disk_length = h.disk_length;
            beta_length = h.beta_length;
            sigma_length = length-put c.sigmas sigmas id value e ∙ h.sigma_length;
            cache_length = h.cache_length;
          };
          nstacks_same = refl;
          ntemps_same = refl;
          last_same = λ j. refl;
        }))

  pub Returns-set_beta :
      (id : ℕ) (value : Real) (c : ChainArray F)
      → IsShaped c
      → id < c.nstacks * c.ntemps
      → Returns (SameChains c) (set_beta id value c)
  unfolding set_beta last_state
  Returns-set_beta id value c h inside =
      Returns-bind _ _ (Returns-put c.betas id value (rw h.beta_length inside)) (λ betas e.
        Returns-ok _ (record {
          shaped = record {
            positive = h.positive;
            small = h.small;
            files_length = h.files_length;
            disk_length = h.disk_length;
            beta_length = length-put c.betas betas id value e ∙ h.beta_length;
            sigma_length = h.sigma_length;
            cache_length = h.cache_length;
          };
          nstacks_same = refl;
          ntemps_same = refl;
          last_same = λ j. refl;
        }))

  -- The array with another last state for the chain `id`.
  pub record Replaced (id : ℕ) (state : State F) (c c' : ChainArray F) : Type 0 where
    pub shaped : IsShaped c'
    pub nstacks_same : c'.nstacks ≡ c.nstacks
    pub ntemps_same : c'.ntemps ≡ c.ntemps
    pub last_at : (j : ℕ) → last_state j c' ≡ (if id == j then ok state else last_state j c)

  cached_of :
      (id : ℕ) (last : State F) (c : ChainArray F)
      → last_state id c ≡ ok last
      → (cached : List (State F)) × (at c.cache id ≡ ok cached) × (back cached ≡ ok last)
  unfolding last_state
  cached_of id last c e = >>=-eq-ok (at c.cache id) back e

  pub Returns-set_last_state :
      (id : ℕ) (state last : State F) (c : ChainArray F)
      → IsShaped c
      → id < c.nstacks * c.ntemps
      → last_state id c ≡ ok last
      → Returns (Replaced id state c) (set_last_state id state c)
  unfolding set_last_state last_state
  Returns-set_last_state id state last c h inside l =
      let (cached, e, b) = cached_of id last c l in
      let longer = all_but_last cached ++ state ∷ [] in
      let p = Returns-put c.cache id longer (rw h.cache_length inside) in
      record {
        value = record c { cache = p.value };
        run = rw e (rw (set_back_some cached last state b) (rw p.run));
        holds = record {
          shaped = record {
            positive = h.positive;
            small = h.small;
            files_length = h.files_length;
            disk_length = h.disk_length;
            beta_length = h.beta_length;
            sigma_length = h.sigma_length;
            cache_length = length-put c.cache p.value id longer p.run ∙ h.cache_length;
          };
          nstacks_same = refl;
          ntemps_same = refl;
          last_at = λ j. elim (Bool-cases (id == j)) [
            | inl same ↦
                rw (at-put c.cache p.value id j longer p.run)
                  (rw same (back-append (all_but_last cached) state))
            | inr other ↦ rw (at-put c.cache p.value id j longer p.run) (rw other)
          ];
        };
      }

  -- The two chains after a swap, or after an attempt that was rejected. The scale and the temperature
  -- stay with the chain, and the outcome is noted on the lower one.
  abbrev pub upper_after : Bool → (state_h state_l : State F) → State F
  upper_after true state_h state_l = record {
    sample = state_l.sample;
    energy = state_l.energy;
    sigma = state_h.sigma;
    beta = state_h.beta;
    accepted = state_l.accepted;
    swap_type = state_h.swap_type;
  }
  upper_after false state_h state_l = state_h

  abbrev pub lower_after : Bool → (state_h state_l : State F) → State F
  lower_after true state_h state_l = record {
    sample = state_h.sample;
    energy = state_h.energy;
    sigma = state_l.sigma;
    beta = state_l.beta;
    accepted = state_h.accepted;
    swap_type = accept;
  }
  lower_after false state_h state_l = record state_l { swap_type = reject }

  pub record Swapped (swapped : Bool) (h_id l_id : ℕ) (state_h state_l : State F)
      (c c' : ChainArray F) : Type 0 where
    pub shaped : IsShaped c'
    pub nstacks_same : c'.nstacks ≡ c.nstacks
    pub ntemps_same : c'.ntemps ≡ c.ntemps
    pub last_at :
        (j : ℕ)
        → last_state j c' ≡ (
            if l_id == j
            then ok (lower_after swapped state_h state_l)
            else (if h_id == j then ok (upper_after swapped state_h state_l) else last_state j c))

  Returns-swap_states :
      (swapped : Bool) (h_id l_id : ℕ) (state_h state_l : State F) (c : ChainArray F)
      → IsShaped c
      → h_id < c.nstacks * c.ntemps
      → l_id < h_id
      → last_state h_id c ≡ ok state_h
      → last_state l_id c ≡ ok state_l
      → Returns
          (Swapped swapped h_id l_id state_h state_l c)
          (swap_states swapped h_id l_id state_h state_l c)
  unfolding swap_states
  Returns-swap_states true h_id l_id state_h state_l c h inside below eh el =
      Returns-bind _ _
        (Returns-set_last_state h_id (with_point_of state_h state_l) state_h c h inside eh)
        (λ c₁ r.
          let el₁ : last_state l_id c₁ ≡ ok state_l =
            r.last_at l_id ∙ rw (el) (ground (arith, below)) in
          let inside₁ : l_id < c₁.nstacks * c₁.ntemps =
            rw r.nstacks_same (rw r.ntemps_same (omega arith)) in
          let done =
            Returns-set_last_state l_id (lower_after true state_h state_l) state_l c₁ r.shaped
              inside₁ el₁ in
          record {
            value = done.value;
            run = done.run;
            holds = record {
              shaped = done.holds.shaped;
              nstacks_same = done.holds.nstacks_same ∙ r.nstacks_same;
              ntemps_same = done.holds.ntemps_same ∙ r.ntemps_same;
              last_at = λ j. done.holds.last_at j ∙ rw (r.last_at j);
            };
          })
  Returns-swap_states false h_id l_id state_h state_l c h inside below eh el =
      let done =
        Returns-set_last_state l_id (lower_after false state_h state_l) state_l c h (omega arith)
          el in
      record {
        value = done.value;
        run = done.run;
        holds = record {
          shaped = done.holds.shaped;
          nstacks_same = done.holds.nstacks_same;
          ntemps_same = done.holds.ntemps_same;
          last_at = λ j. elim (Bool-cases (h_id == j)) [
            | inl same ↦
                let here : h_id ≡ j = (==_iff h_id j).0 same in
                done.holds.last_at j ∙ rw same (rw (rw here at eh))
            | inr other ↦ done.holds.last_at j ∙ rw other
          ];
        };
      }

  -- `swap` of two different chains that have states, in a well-shaped array: it does not fault and
  -- returns whether the draw is below exp((energy_l - energy_h) * (beta_l - beta_h)), for the states of the higher and the
  -- lower of the two ids. If it is, the two last states exchange sample, energy and acceptance;
  -- if not, they stay. The lower one notes the outcome. Sigma and beta stay with their chains, and the
  -- other chains stay.
  pub swap_ok :
      (u : Real) (id1 id2 : ℕ) (state_h state_l : State F) (beta_h beta_l : Real) (c : ChainArray F)
      → IsShaped c
      → max id1 id2 < c.nstacks * c.ntemps
      → id1 ≢ id2
      → last_state (max id1 id2) c ≡ ok state_h
      → last_state (min id1 id2) c ≡ ok state_l
      → at c.betas (max id1 id2) ≡ ok beta_h
      → at c.betas (min id1 id2) ≡ ok beta_l
      → let swapped = is_exchanged F u state_h.energy state_l.energy beta_h beta_l in
        Returns
          (λ r.
            (r.0 ≡ (if swapped then accept else reject))
            × Swapped swapped (max id1 id2) (min id1 id2) state_h state_l c r.1)
          (swap u id1 id2 c)
  unfolding swap accept_swap
  swap_ok u id1 id2 state_h state_l beta_h beta_l c h inside ne eh el bh bl =
      let swapped = is_exchanged F u state_h.energy state_l.energy beta_h beta_l in
      let done =
        Returns-swap_states swapped (max id1 id2) (min id1 id2) state_h state_l c h inside
          (ground (arith, ne)) eh el in
      record {
        value = (if swapped then accept else reject, done.value);
        run = rw eh (rw el (rw bh (rw bl (rw done.run))));
        holds = (refl, done.holds);
      }
