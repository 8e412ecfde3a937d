-- ===== src/Infer/Proposal/Shape.antt =====
-- The proposals and the sizes of the shaper's vectors.
use stateline.Prelude.{
  ℕ, ◌*◌, ◌<◌, ◌≡◌, ◌∙◌, arith, length, Returns, Returns-ok, Returns-bind, uint_mod, wrap,
  length-replicate,
}
use stateline.Std.Vector.{length-put, Returns-at, Returns-put}
use stateline.Infer.Doubles.{Doubles}
use stateline.Infer.Adaptive.Shaper.{ProposalShaper, ProposalBounds}
use stateline.Infer.Adaptive.Shaper
use stateline.Infer.Proposal
use stateline.Infer.Proposal.{GaussianProposal, propose, call, update}

module _ {F : Doubles} where
  -- An entry for each of `n` chains.
  pub record IsSized (n : ℕ) (p : GaussianProposal F) : Type 0 where
    pub counts_length : length p.shaper.counts ≡ n
    pub factors_length : length p.shaper.factors ≡ n
    pub normalised_length : length p.shaper.normalised ≡ n

  -- A new proposal has an entry for each chain.
  pub create-IsSized :
      (nstacks ntemps ndims : ℕ) (bounds : ProposalBounds F) (init_length : ℕ)
      → nstacks * ntemps < uint_mod
      → IsSized (nstacks * ntemps) (Proposal.create nstacks ntemps ndims bounds init_length)
  unfolding Proposal.create Shaper.create
  create-IsSized nstacks ntemps ndims bounds init_length small =
      let n : wrap (nstacks * ntemps) ≡ nstacks * ntemps = omega (arith, small) in
      record {
        counts_length = length-replicate _ _ ∙ n;
        factors_length = length-replicate _ _ ∙ n;
        normalised_length = length-replicate _ _ ∙ n;
      }

  pub Returns-call :
      (n : ℕ) (randn : F.Vector) (id : ℕ) (sample : F.Vector) (sigma : F.Real)
      (p : GaussianProposal F)
      → id < n
      → IsSized n p
      → Returns (λ x. Unit {0}) (call randn id sample sigma p)
  unfolding call propose
  Returns-call n randn id sample sigma p inside h =
      Returns-bind {P = λ x. Unit {0}} _ _
        (Returns-bind _ _ (Returns-at p.shaper.normalised id (rw h.normalised_length inside))
          (λ m _. Returns-ok _ tt))
        (λ x _. Returns-ok _ tt)

  pub update-IsSized :
      (n id : ℕ) (stepv : F.Vector) (p : GaussianProposal F)
      → id < n
      → IsSized n p
      → Returns (IsSized n) (update id stepv p)
  unfolding update Shaper.update
  update-IsSized n id stepv p inside h =
      Returns-bind {P = λ s. IsSized n (record p { shaper = s })} _ _
        (Returns-bind _ _ (Returns-at p.shaper.counts id (rw h.counts_length inside)) (λ old _.
          Returns-bind _ _ (Returns-put p.shaper.counts id _ (rw h.counts_length inside))
            (λ counts e₁.
              Returns-bind _ _ (Returns-at p.shaper.factors id (rw h.factors_length inside))
                (λ old' _.
                  Returns-bind _ _ (Returns-put p.shaper.factors id _ (rw h.factors_length inside))
                    (λ factors e₂.
                      Returns-bind _ _
                        (Returns-put p.shaper.normalised id _ (rw h.normalised_length inside))
                        (λ normalised e₃. Returns-ok _ (record {
                          counts_length =
                              length-put p.shaper.counts counts id _ e₁ ∙ h.counts_length;
                          factors_length =
                              length-put p.shaper.factors factors id _ e₂ ∙ h.factors_length;
                          normalised_length =
                              length-put p.shaper.normalised normalised id _ e₃
                              ∙ h.normalised_length;
                        })))))))
        (λ s hs. Returns-ok _ hs)
