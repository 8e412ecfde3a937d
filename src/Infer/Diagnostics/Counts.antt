-- ===== src/Infer/Diagnostics/Counts.antt =====
-- What the convergence test counts.
use stateline.Prelude.{
  ℕ, ◌+◌, ◌*◌, ◌/◌, ◌%◌, ◌<◌, ◌≡◌, refl, ◌∙◌, ◌==◌, arith, length, if◌then◌else◌, length-replicate,
  ok, Returns, Returns-ok, Returns-if, Returns-bind, ==_iff, Returns-guard, int_max, lt→ltb,
}
use native.Mathlib.Nat.{div-lt_iff_lt-mul}
use stateline.Std.Vector.{at, at-put, length-put, Returns-at, Returns-put}
use stateline.Infer.Doubles.{Doubles}
use stateline.Infer.ChainArray.State.{State}
use stateline.Infer.Diagnostics.{EpsrDiagnostic, update_stack, update}
use stateline.Infer.Diagnostics

module _ {F : Doubles} where
  -- A column and a count for each stack.
  pub record HasColumns (nstacks : ℕ) (d : EpsrDiagnostic F) : Type 0 where
    pub means_length : length d.means ≡ nstacks
    pub squares_length : length d.squares ≡ nstacks
    pub samples_length : length d.num_samples ≡ nstacks

  -- The stack of the chain `id` has counted fewer samples than the greatest `int`.
  abbrev pub HasRoom : ℕ → EpsrDiagnostic F → Type 0
  HasRoom id d = (n : ℕ) → at d.num_samples (id / d.nchains) ≡ ok n → n < int_max

  -- After a state of the chain `id`.
  pub record Counted (nstacks id : ℕ) (d d' : EpsrDiagnostic F) : Type 0 where
    pub columns : HasColumns nstacks d'
    pub nchains_same : d'.nchains ≡ d.nchains
    pub count_at :
        (stack n : ℕ)
        → at d.num_samples stack ≡ ok n
        → at d'.num_samples stack
          ≡ ok (if id % d.nchains == 0 then (if id / d.nchains == stack then n + 1 else n) else n)

  pub create-HasColumns :
      (nstacks ntemps ndims : ℕ) (threshold : F.Real)
      → HasColumns nstacks (Diagnostics.create {F = F} nstacks ntemps ndims threshold)
  unfolding Diagnostics.create
  create-HasColumns nstacks ntemps ndims threshold = record {
    means_length = length-replicate nstacks _;
    squares_length = length-replicate nstacks _;
    samples_length = length-replicate nstacks _;
  }

  update_stack-Counted :
      (nstacks id : ℕ) (state : State F) (d : EpsrDiagnostic F)
      → id / d.nchains < nstacks
      → id % d.nchains ≡ 0
      → HasColumns nstacks d
      → HasRoom id d
      → Returns (Counted nstacks id d) (update_stack (id / d.nchains) state d)
  unfolding update_stack
  update_stack-Counted nstacks id state d inside cold h room =
      Returns-bind _ _ (Returns-at d.num_samples (id / d.nchains) (rw h.samples_length inside))
        (λ count c. Returns-guard _ _ _ (lt→ltb _ _ (room count c)) (
          Returns-bind _ _ (Returns-at d.means (id / d.nchains) (rw h.means_length inside))
            (λ mean _.
              Returns-bind _ _ (Returns-at d.squares (id / d.nchains) (rw h.squares_length inside))
                (λ square _.
                  Returns-bind _ _
                    (Returns-put d.squares (id / d.nchains) _ (rw h.squares_length inside))
                    (λ squares p₁.
                      Returns-bind _ _
                        (Returns-put d.means (id / d.nchains) _ (rw h.means_length inside))
                        (λ means p₂.
                          Returns-bind _ _
                            (Returns-put d.num_samples (id / d.nchains) (count + 1)
                              (rw h.samples_length inside))
                            (λ num_samples p₃. Returns-ok _ (record {
                              nchains_same = refl;
                              columns = record {
                                means_length = length-put d.means means _ _ p₂ ∙ h.means_length;
                                squares_length =
                                    length-put d.squares squares _ _ p₁ ∙ h.squares_length;
                                samples_length =
                                    length-put d.num_samples num_samples _ _ p₃ ∙ h.samples_length;
                              };
                              count_at = λ stack n e. ground (
                                arith,
                                at-put d.num_samples num_samples (id / d.nchains) stack (count + 1)
                                    p₃,
                                c,
                                e,
                                cold,
                              );
                            }))))))))

  -- `update` returns for every chain of a stack that has counted fewer than 2 ^ 31 - 1 samples, which is
  -- the greatest `int`, if the diagnostic has a column and a count for each stack and
  -- stacks of at least one chain. A state of a coldest chain adds one to the count of its stack,
  -- and no other count changes; a state of a hotter chain changes none.
  pub update-Counted :
      (nstacks id : ℕ) (state : State F) (d : EpsrDiagnostic F)
      → 0 < d.nchains
      → id < nstacks * d.nchains
      → HasColumns nstacks d
      → HasRoom id d
      → Returns (Counted nstacks id d) (update id state d)
  unfolding update
  update-Counted nstacks id state d pos inside h room =
      let below : id / d.nchains < nstacks = (div-lt_iff_lt-mul pos).1 inside in
      (Returns-if (id % d.nchains == 0) _ _
        (λ cold.
          update_stack-Counted nstacks id state d below ((==_iff (id % d.nchains) 0).0 cold) h room)
        (λ hotter. Returns-ok d (record {
          columns = h;
          nchains_same = refl;
          count_at = λ stack n e. ground (arith, e, hotter);
        })))
