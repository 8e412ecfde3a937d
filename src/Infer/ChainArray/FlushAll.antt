-- ===== src/Infer/ChainArray/FlushAll.antt =====
-- Flushing all chains, as `append` does when it is due.
use stateline.Prelude.{
  ℕ, zero, suc, ◌+◌, ◌*◌, ◌≤◌, ◌≡◌, refl, ◌∙◌, arith, leb, wrap, elapsed, ok, Bool-cases, inl, inr,
}
use stateline.Infer.Doubles.{Doubles}
use stateline.Infer.ChainArray.State.{ChainArray, chain_length, last_state}
use stateline.Infer.ChainArray.Storage.{flush_from, flush_if_due, flush_time}
use stateline.Infer.ChainArray.Views.{IsShaped, recorded}
use stateline.Infer.ChainArray.Flushing.{SameRecord, flush_to_disk_ok}

module _ {F : Doubles} where
  SameRecord-trans : (a b c : ChainArray F) → SameRecord a b → SameRecord b c → SameRecord a c
  SameRecord-trans a b c r s = record {
    shaped = s.shaped;
    nstacks_same = s.nstacks_same ∙ r.nstacks_same;
    ntemps_same = s.ntemps_same ∙ r.ntemps_same;
    last_same = λ j. s.last_same j ∙ r.last_same j;
    length_same = λ j. s.length_same j ∙ r.length_same j;
    recorded_same = λ j cold. s.recorded_same j (rw r.ntemps_same cold) ∙ r.recorded_same j cold;
  }

  SameRecord-clock :
      (now : ℕ) (c : ChainArray F) → IsShaped c → SameRecord c (record c { last_flush_time = now })
  unfolding last_state chain_length recorded
  SameRecord-clock now c h = record {
    shaped = record {
      positive = h.positive;
      small = h.small;
      files_length = h.files_length;
      disk_length = h.disk_length;
      beta_length = h.beta_length;
      sigma_length = h.sigma_length;
      cache_length = h.cache_length;
    };
    nstacks_same = refl;
    ntemps_same = refl;
    last_same = λ j. refl;
    length_same = λ j. refl;
    recorded_same = λ j cold. refl;
  }

  SameRecord-refl : (c : ChainArray F) → IsShaped c → SameRecord c c
  SameRecord-refl c h = record {
    shaped = h;
    nstacks_same = refl;
    ntemps_same = refl;
    last_same = λ j. refl;
    length_same = λ j. refl;
    recorded_same = λ j cold. refl;
  }

  pub flush_from_ok :
      (n id : ℕ) (c : ChainArray F)
      → IsShaped c
      → id + n ≤ c.nstacks * c.ntemps
      → (c' : ChainArray F) × (flush_from n id c ≡ ok c') × SameRecord c c'
  unfolding flush_from
  flush_from_ok zero id c h low = (c, refl, SameRecord-refl c h)
  flush_from_ok (suc n) id c h low =
      let (c₁, e₁, s₁) = flush_to_disk_ok id c h (omega arith) in
      let low₁ : suc id + n ≤ c₁.nstacks * c₁.ntemps =
        rw s₁.nstacks_same (rw s₁.ntemps_same (omega arith)) in
      let (c₂, e₂, s₂) = flush_from_ok n (suc id) c₁ s₁.shaped low₁ in
      (c₂, rw e₁ e₂, SameRecord-trans c c₁ c₂ s₁ s₂)

  pub flush_if_due_ok :
      (now : ℕ) (c : ChainArray F)
      → IsShaped c
      → (c' : ChainArray F) × (flush_if_due now c ≡ ok c') × SameRecord c c'
  unfolding flush_if_due
  flush_if_due_ok now c h =
      let clocked = record c { last_flush_time = now } in
      let s = SameRecord-clock now c h in
      let (c', e, s') =
        flush_from_ok (wrap (c.nstacks * c.ntemps)) 0 clocked s.shaped (omega (arith, h.small)) in
      elim (Bool-cases (leb flush_time (elapsed 1000000000 c.last_flush_time now))) [
        | inl due ↦ (c', rw due e, SameRecord-trans c clocked c' s s')
        | inr early ↦ (c, rw early, SameRecord-refl c h)
      ]
