-- ===== src/Infer/ChainArray/Clock.antt =====
-- The time of an `append`, and what a reader of the chains sees.
use stateline.Prelude.{ℕ, ◌*◌, ◌<◌, ◌≡◌, sym, ◌∙◌, Bool, ok}
use stateline.Infer.Doubles.{Doubles}
use stateline.Infer.ChainArray.State.{ChainArray, State, last_state, chain_length, chain_index}
use stateline.Infer.ChainArray.Moves.{append}
use stateline.Infer.ChainArray.Views.{IsShaped, recorded}
use stateline.Infer.ChainArray.Appending.{Appended, append_ok}

module _ {F : Doubles} where
  -- Two arrays with the same last states and lengths, and the same states recorded for the cold chains of
  -- an array of `ntemps` temperatures.
  pub record ReadsSame (ntemps : ℕ) (c c' : ChainArray F) : Type 0 where
    pub last_same : (j : ℕ) → last_state j c ≡ last_state j c'
    pub length_same : (j : ℕ) → chain_length j c ≡ chain_length j c'
    pub recorded_same : (j : ℕ) → chain_index ntemps j ≡ 0 → recorded j c ≡ recorded j c'

  Appended-ReadsSame :
      (id : ℕ) (state : State F) (c c₁ c₂ : ChainArray F)
      → Appended id state c c₁
      → Appended id state c c₂
      → ReadsSame c.ntemps c₁ c₂
  Appended-ReadsSame id state c c₁ c₂ a b = record {
    last_same = λ j. a.last_at j ∙ sym (b.last_at j);
    length_same = λ j. a.length_at j ∙ sym (b.length_at j);
    recorded_same = λ j cold. a.recorded_at j cold ∙ sym (b.recorded_at j cold);
  }

  -- `append` of the same proposal at two times, to a chain that has a state in a well-shaped array: both
  -- return and decide alike, and the arrays read the same, whichever of the two flushes the chains.
  pub append-ReadsSame :
      (u : F.Real) (now now' id : ℕ) (sample : F.Vector) (energy : F.Real) (last : State F)
      (c : ChainArray F)
      → IsShaped c
      → id < c.nstacks * c.ntemps
      → last_state id c ≡ ok last
      → (accepted : Bool) × (c₁ : ChainArray F) × (c₂ : ChainArray F) × (append u now id sample
            energy c
          ≡ ok (accepted, c₁))
        × (append u now' id sample energy c ≡ ok (accepted, c₂))
        × ReadsSame c.ntemps c₁ c₂
  append-ReadsSame u now now' id sample energy last c h inside l =
      let (sigma, beta, c₁, es, eb, done) = append_ok u now id sample energy last c h inside l in
      let (sigma', beta', c₂, es', eb', done') =
        append_ok u now' id sample energy last c h inside l in
      let same_sigma : sigma' ≡ sigma = cc (es, es') in
      let same_beta : beta' ≡ beta = cc (eb, eb') in
      let done'' = rw (same_sigma, same_beta) at done' in
      (_, c₁, c₂, done.0, done''.0, Appended-ReadsSame id _ c c₁ c₂ done.1 done''.1)
