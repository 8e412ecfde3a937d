-- ===== src/Infer/ChainArray/Appending.antt =====
-- `append`: one more state for one chain, and the flush of all chains when it is due.
use stateline.Prelude.{
  ℕ, ◌+◌, ◌*◌, ◌/◌, ◌<◌, ◌≡◌, refl, sym, ap, ◌∙◌, false, List, [], ◌∷◌, ◌++◌, append_assoc, arith,
  length-append, set, length-set, ◌==◌, if◌then◌else◌, wrap, ok, ◌>>=◌, Bool-cases, inl, inr,
  ==_iff, ==_refl, Bool, true, not, ◌&&◌,
}
use stateline.Std.Vector.{at, at_ok, put_ok, at-put, back-append}
use stateline.Infer.Doubles.{Doubles}
use stateline.Infer.ChainArray.State.{
  ChainArray, State, no_attempt, chain_index, chain_length, last_state, push_state,
}
use stateline.Infer.ChainArray.Moves.{accept_proposal, appended_state, append}
use stateline.Infer.ChainArray.Views.{id_in_files, IsShaped, recorded}
use stateline.Infer.ChainArray.Flushing.{SameRecord}
use stateline.Infer.ChainArray.FlushAll.{flush_if_due_ok}

-- The rule of Metropolis for a proposal of some energy at the inverse temperature `beta`, with a draw
-- `u`: infinite energies are refused.
abbrev pub is_accepted : (F : Doubles) (u energy old_energy beta : F.Real) → Bool
is_accepted F u energy old_energy beta =
    not (F.is_inf energy)
    && F.less u (F.exp (F.mul (F.mul F.minus_one beta) (F.sub energy old_energy)))

module _ {F : Doubles} where
  open F use {Real, Vector}

  -- The array with one more state for the chain `id`, seen by a reader of the chains.
  pub record Appended (id : ℕ) (state : State F) (c c' : ChainArray F) : Type 0 where
    pub shaped : IsShaped c'
    pub nstacks_same : c'.nstacks ≡ c.nstacks
    pub ntemps_same : c'.ntemps ≡ c.ntemps
    pub last_at : (j : ℕ) → last_state j c' ≡ (if id == j then ok state else last_state j c)
    pub length_at :
        (j : ℕ)
        → chain_length j c'
          ≡ (if id == j then (chain_length j c >>= λ n. ok (wrap (n + 1))) else chain_length j c)
    pub recorded_at :
        (j : ℕ)
        → chain_index c.ntemps j ≡ 0
        → recorded j c'
          ≡ (if id == j then (recorded j c >>= λ l. ok (l ++ state ∷ [])) else recorded j c)

  Appended-SameRecord :
      (id : ℕ) (state : State F) (a b c : ChainArray F)
      → b.ntemps ≡ a.ntemps
      → Appended id state a b
      → SameRecord b c
      → Appended id state a c
  Appended-SameRecord id state a b c temps p s = record {
    shaped = s.shaped;
    nstacks_same = s.nstacks_same ∙ p.nstacks_same;
    ntemps_same = s.ntemps_same ∙ p.ntemps_same;
    last_at = λ j. s.last_same j ∙ p.last_at j;
    length_at = λ j. s.length_same j ∙ p.length_at j;
    recorded_at = λ j cold. s.recorded_same j (rw temps cold) ∙ p.recorded_at j cold;
  }

  module _ (id : ℕ) (state : State F) (cached : List (State F)) (c c' : ChainArray F)
      (temps : c'.ntemps ≡ c.ntemps) (files : c'.files ≡ c.files)
      (disks : c'.length_on_disk ≡ c.length_on_disk) (held : at c.cache id ≡ ok cached)
      (cache_at : (j : ℕ)
        → at c'.cache j ≡ (if id == j then ok (cached ++ state ∷ []) else at c.cache j)) where
    pushed_here : at c'.cache id ≡ ok (cached ++ state ∷ [])
    pushed_here = cache_at id ∙ rw (==_refl id)

    pushed-last_state : (j : ℕ) → last_state j c' ≡ (if id == j then ok state else last_state j c)
    unfolding last_state
    pushed-last_state j = elim (Bool-cases (id == j)) [
      | inl same ↦ rw (cache_at j) (rw same (back-append cached state))
      | inr other ↦ rw (cache_at j) (rw other)
    ]

    pushed-chain_length :
        (disk j : ℕ)
        → at c.length_on_disk id ≡ ok disk
        → chain_length j c'
          ≡ (if id == j then (chain_length j c >>= λ n. ok (wrap (n + 1))) else chain_length j c)
    unfolding chain_length
    pushed-chain_length disk j d = elim (Bool-cases (id == j)) [
      | inl same ↦
          let here : id ≡ j = (==_iff id j).0 same in
          rw disks (
            rw (cache_at j) (
              rw same (
                rw (← here)
                  (rw d (rw held (ap ok (omega (arith, length-append cached (state ∷ [])))))))))
      | inr other ↦ rw disks (rw (cache_at j) (rw other))
    ]

    pushed-recorded :
        (file : List (State F)) (j : ℕ)
        → at c.files (id / c.ntemps) ≡ ok file
        → recorded j c'
          ≡ (if id == j then (recorded j c >>= λ l. ok (l ++ state ∷ [])) else recorded j c)
    unfolding recorded
    pushed-recorded file j g = elim (Bool-cases (id == j)) [
      | inl same ↦
          let here : id ≡ j = (==_iff id j).0 same in
          rw files (
            rw temps (
              rw (cache_at j) (
                rw same (
                  rw (← here)
                    (rw g (rw held (ap ok (sym (append_assoc file cached (state ∷ []))))))))))
      | inr other ↦ rw files (rw temps (rw (cache_at j) (rw other)))
    ]

  pub push_state_ok :
      (id : ℕ) (state : State F) (c : ChainArray F)
      → IsShaped c
      → id < c.nstacks * c.ntemps
      → (c' : ChainArray F) × (push_state id state c ≡ ok c')
        × (c'.ntemps ≡ c.ntemps)
        × Appended id state c c'
  unfolding push_state
  push_state_ok id state c h inside =
      let (cached, e) = at_ok c.cache id (rw h.cache_length inside) in
      let longer = cached ++ state ∷ [] in
      let p = put_ok c.cache id longer (rw h.cache_length inside) in
      let (file, g) = at_ok c.files (id / c.ntemps) (id_in_files id c h inside) in
      let (disk, d) = at_ok c.length_on_disk id (rw h.disk_length inside) in
      let c' = record c { cache = set c.cache id longer } in
      let q : (j : ℕ) → at c'.cache j ≡ (if id == j then ok longer else at c.cache j) =
        λ j. at-put c.cache c'.cache id j longer p in
      (
        c',
        rw e (rw p),
        refl,
        record {
          shaped = record {
            positive = h.positive;
            small = h.small;
            files_length = h.files_length;
            disk_length = h.disk_length;
            beta_length = h.beta_length;
            sigma_length = h.sigma_length;
            cache_length = length-set c.cache id longer ∙ h.cache_length;
          };
          nstacks_same = refl;
          ntemps_same = refl;
          last_at = λ j. pushed-last_state id state cached c c' refl refl refl e q j;
          length_at = λ j. pushed-chain_length id state cached c c' refl refl refl e q disk j d;
          recorded_at = λ j cold. pushed-recorded id state cached c c' refl refl refl e q file j g;
        },
      )

  -- What the chain holds then: the proposal with the chain's sigma and beta, or its last state again.
  abbrev pub settled :
      (accepted : Bool) (sample : Vector) (energy sigma beta : Real) → State F → State F
  settled true sample energy sigma beta last = record {
    sample = sample;
    energy = energy;
    sigma = sigma;
    beta = beta;
    accepted = true;
    swap_type = no_attempt;
  }
  settled false sample energy sigma beta last = record {
    sample = last.sample;
    energy = last.energy;
    sigma = last.sigma;
    beta = last.beta;
    accepted = false;
    swap_type = no_attempt;
  }

  accept_proposal-is_accepted :
      (u beta : Real) (new_state last : State F)
      → accept_proposal u new_state last beta ≡ is_accepted F u new_state.energy last.energy beta
  unfolding accept_proposal
  accept_proposal-is_accepted u beta new_state last =
      elim (Bool-cases (F.is_inf new_state.energy)) [ inl h ↦ rw h | inr h ↦ rw h ]

  appended_state-settled :
      (accepted : Bool) (new_state last : State F)
      → appended_state accepted new_state last
        ≡ settled accepted new_state.sample new_state.energy new_state.sigma new_state.beta last
  unfolding appended_state
  appended_state-settled true new_state last = refl
  appended_state-settled false new_state last = refl

  -- `append` to a chain that has a state, in a well-shaped array: it does not fault, and it returns
  -- whether the rule of Metropolis accepts the proposal. The chain has one state more, whether or not
  -- all chains are flushed: the proposed sample and energy with the chain's sigma and beta, marked as
  -- accepted, or a copy of its last state that is not. The other chains have their states.
  pub append_ok :
      (u : Real) (now id : ℕ) (sample : Vector) (energy : Real) (last : State F) (c : ChainArray F)
      → IsShaped c
      → id < c.nstacks * c.ntemps
      → last_state id c ≡ ok last
      → (sigma beta : Real) × (c' : ChainArray F) × (at c.sigmas id ≡ ok sigma)
        × (at c.betas id ≡ ok beta)
        × (let accepted = is_accepted F u energy last.energy beta in
            (append u now id sample energy c ≡ ok (accepted, c'))
            × Appended id (settled accepted sample energy sigma beta last) c c')
  unfolding append
  append_ok u now id sample energy last c h inside l =
      let (sigma, es) = at_ok c.sigmas id (rw h.sigma_length inside) in
      let (beta, eb) = at_ok c.betas id (rw h.beta_length inside) in
      let new_state : State F = record {
        sample = sample;
        energy = energy;
        sigma = sigma;
        beta = beta;
        accepted = false;
        swap_type = no_attempt;
      } in
      let accepted = is_accepted F u energy last.energy beta in
      let state = settled accepted sample energy sigma beta last in
      let (c₁, e₁, temps, a) = push_state_ok id state c h inside in
      let (c₂, e₂, s) = flush_if_due_ok now c₁ a.shaped in
      (
        sigma,
        beta,
        c₂,
        es,
        eb,
        (
          rw es (
              rw eb (
                rw l (
                  rw (accept_proposal-is_accepted u beta new_state last)
                    (rw (appended_state-settled accepted new_state last) (rw e₁ (rw e₂)))))),
          Appended-SameRecord id state c c₁ c₂ temps a s,
        ),
      )
