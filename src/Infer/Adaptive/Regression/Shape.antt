-- ===== src/Infer/Adaptive/Regression/Shape.antt =====
-- The operations of a regression adapter, the sizes of its vectors and the sums of its windows.
use stateline.Prelude.{
  ℕ, zero, suc, ◌+◌, ◌-◌, ◌*◌, ◌%◌, ◌≤◌, ◌<◌, ◌≡◌, refl, ◌∙◌, Bool, List, [], ◌∷◌, ◌++◌, arith,
  length, if◌then◌else◌, ok, Returns, Returns-ok, Returns-bind, length-append, uint_mod, wrap,
  length-replicate,
}
use native.Mathlib.Nat.{mod-lt, mul_comm}
use stateline.Std.Vector.{at, length-put, Returns-at, Returns-put, at-put, replicate-at}
use stateline.Infer.Doubles.{Doubles}
use stateline.Infer.Adaptive.Regression
use stateline.Infer.Adaptive.Regression.{
  RegressionAdapter, update_model, update_rate, update, drop_oldest, predict, beta_update,
  beta_stack_from, compute_beta_stack, compute_sigma, n_window,
}

abbrev pub sum : List ℕ → ℕ
sum [] = 0
sum (x ∷ xs) = x + sum xs

sum-append : (xs ys : List ℕ) → sum (xs ++ ys) ≡ sum xs + sum ys
sum-append [] ys = omega arith
sum-append (x ∷ xs) ys = omega (arith, sum-append xs ys)

-- What is kept of a window is its sum's window, and is short of a full one.
drop_oldest-sum :
    (entries : List ℕ) (total : ℕ)
    → total ≡ sum entries
    → length entries ≤ n_window
    → ((drop_oldest entries total).1 ≡ sum (drop_oldest entries total).0)
      × (length (drop_oldest entries total).0 < n_window)
unfolding drop_oldest
drop_oldest-sum [] total e h = (e, omega arith)
drop_oldest-sum (oldest ∷ rest) total e h = ground arith

module _ {F : Doubles} where
  pub record IsSound (nstacks ntemps : ℕ) (a : RegressionAdapter F) : Type 0 where
    pub ntemps_eq : a.ntemps ≡ ntemps
    pub xy_length : length a.mu_xy ≡ ntemps
    pub xx_length : length a.mu_xx ≡ ntemps
    pub weight_length : length a.weight ≡ ntemps
    pub counts_length : length a.counts ≡ ntemps
    pub window_length : length a.window ≡ nstacks * ntemps
    pub sum_length : length a.window_sum ≡ nstacks * ntemps
    pub rates_length : length a.rates ≡ nstacks * ntemps
    pub values_length : length a.values ≡ nstacks * ntemps
    pub tallied :
        (id : ℕ) (entries : List ℕ) (total : ℕ)
        → at a.window id ≡ ok entries
        → at a.window_sum id ≡ ok total
        → (total ≡ sum entries) × (length entries < n_window)

  -- A new adapter is sound: its windows are empty and their sums are 0.
  pub create-IsSound :
      (nstacks ntemps : ℕ) (optimal min_cap max_cap : F.Real)
      → nstacks * ntemps < uint_mod
      → IsSound nstacks ntemps (Regression.create {F = F} nstacks ntemps optimal min_cap max_cap)
  unfolding Regression.create
  create-IsSound nstacks ntemps optimal min_cap max_cap small =
      let n : wrap (ntemps * nstacks) ≡ nstacks * ntemps =
        omega (arith, small, mul_comm ntemps nstacks) in
      record {
        ntemps_eq = refl;
        xy_length = length-replicate ntemps _;
        xx_length = length-replicate ntemps _;
        weight_length = length-replicate ntemps _;
        counts_length = length-replicate ntemps _;
        window_length = length-replicate _ _ ∙ n;
        sum_length = length-replicate _ _ ∙ n;
        rates_length = length-replicate _ _ ∙ n;
        values_length = length-replicate _ _ ∙ n;
        tallied = λ id entries total ew et.
            let empty : entries ≡ [] = replicate-at _ id [] entries ew in
            let none : total ≡ 0 = replicate-at _ id 0 total et in rw empty (none, omega arith);
      }

module _ {F : Doubles} (nstacks ntemps : ℕ) (pos : 0 < ntemps) where
  temp_lt : (id : ℕ) (a : RegressionAdapter F) → IsSound nstacks ntemps a → id % a.ntemps < ntemps
  temp_lt id a h = rw h.ntemps_eq (mod-lt id pos)

  update_model-IsSound :
      (id : ℕ) (logval side : F.Real) (acc : Bool) (a : RegressionAdapter F)
      → IsSound nstacks ntemps a
      → Returns (IsSound nstacks ntemps) (update_model id logval side acc a)
  unfolding update_model
  update_model-IsSound id logval side acc a h =
      let t = temp_lt id a h in
      Returns-bind _ _ (Returns-at a.counts (id % a.ntemps) (rw h.counts_length t)) (λ old_count _.
        Returns-bind _ _ (Returns-put a.counts (id % a.ntemps) _ (rw h.counts_length t))
          (λ counts e₁.
            Returns-bind _ _ (Returns-at a.mu_xx (id % a.ntemps) (rw h.xx_length t)) (λ old_xx _.
              Returns-bind _ _ (Returns-put a.mu_xx (id % a.ntemps) _ (rw h.xx_length t))
                (λ mu_xx e₂.
                  Returns-bind _ _ (Returns-at a.mu_xy (id % a.ntemps) (rw h.xy_length t))
                    (λ old_xy _.
                      Returns-bind _ _ (Returns-put a.mu_xy (id % a.ntemps) _ (rw h.xy_length t))
                        (λ mu_xy e₃.
                          Returns-bind _ _
                            (Returns-put a.weight (id % a.ntemps) _ (rw h.weight_length t))
                            (λ weight e₄. Returns-ok _ (record {
                              ntemps_eq = h.ntemps_eq;
                              xy_length =
                                  length-put a.mu_xy mu_xy (id % a.ntemps) _ e₃ ∙ h.xy_length;
                              xx_length =
                                  length-put a.mu_xx mu_xx (id % a.ntemps) _ e₂ ∙ h.xx_length;
                              weight_length =
                                  length-put a.weight weight (id % a.ntemps) _ e₄ ∙ h.weight_length;
                              counts_length =
                                  length-put a.counts counts (id % a.ntemps) _ e₁ ∙ h.counts_length;
                              window_length = h.window_length;
                              sum_length = h.sum_length;
                              rates_length = h.rates_length;
                              values_length = h.values_length;
                              tallied = h.tallied;
                            }))))))))

  update_rate-IsSound :
      (id : ℕ) (acc : Bool) (a : RegressionAdapter F)
      → id < nstacks * ntemps
      → IsSound nstacks ntemps a
      → Returns (IsSound nstacks ntemps) (update_rate id acc a)
  unfolding update_rate
  update_rate-IsSound id acc a inside h =
      Returns-bind _ _ (Returns-at a.window id (rw h.window_length inside)) (λ entries e₀.
        Returns-bind _ _ (Returns-at a.window_sum id (rw h.sum_length inside)) (λ total e₁.
          let ia : ℕ = if acc then 1 else 0 in
          let pushed = entries ++ ia ∷ [] in
          let kept = drop_oldest pushed (total + ia) in
          let old = h.tallied id entries total e₀ e₁ in
          let new =
            drop_oldest-sum pushed (total + ia) (omega (arith, old, sum-append entries (ia ∷ [])))
              (omega (arith, old, length-append entries (ia ∷ []))) in
          Returns-bind _ _ (Returns-put a.window id kept.0 (rw h.window_length inside))
            (λ window e₂.
              Returns-bind _ _ (Returns-put a.window_sum id kept.1 (rw h.sum_length inside))
                (λ window_sum e₃.
                  Returns-bind _ _ (Returns-put a.rates id _ (rw h.rates_length inside))
                    (λ rates e₄. Returns-ok _ (record {
                      ntemps_eq = h.ntemps_eq;
                      xy_length = h.xy_length;
                      xx_length = h.xx_length;
                      weight_length = h.weight_length;
                      counts_length = h.counts_length;
                      window_length = length-put a.window window id _ e₂ ∙ h.window_length;
                      sum_length = length-put a.window_sum window_sum id _ e₃ ∙ h.sum_length;
                      rates_length = length-put a.rates rates id _ e₄ ∙ h.rates_length;
                      values_length = h.values_length;
                      tallied = λ j w t ew et. ground (
                        arith,
                        at-put a.window window id j kept.0 e₂,
                        at-put a.window_sum window_sum id j kept.1 e₃,
                        h.tallied j w t,
                        new,
                      );
                    }))))))

  -- `update` of a sound adapter returns a sound adapter: the sizes stay, and each window still is
  -- shorter than `n_window` and has its own sum beside it.
  pub update-IsSound :
      (id : ℕ) (logval side : F.Real) (acc : Bool) (a : RegressionAdapter F)
      → id < nstacks * ntemps
      → IsSound nstacks ntemps a
      → Returns (IsSound nstacks ntemps) (update id logval side acc a)
  unfolding update
  update-IsSound id logval side acc a inside h =
      Returns-bind _ _ (update_model-IsSound id logval side acc a h)
        (λ b hb. update_rate-IsSound id acc b inside hb)

  pub beta_update-IsSound :
      (id : ℕ) (bl bh : F.Real) (acc : Bool) (a : RegressionAdapter F)
      → id < nstacks * ntemps
      → IsSound nstacks ntemps a
      → Returns (IsSound nstacks ntemps) (beta_update id bl bh acc a)
  unfolding beta_update
  beta_update-IsSound id bl bh acc a inside h = update-IsSound id _ _ acc a inside h

  Returns-predict :
      (id : ℕ) (side : F.Real) (a : RegressionAdapter F)
      → IsSound nstacks ntemps a
      → Returns (λ x. Unit {0}) (predict id side a)
  unfolding predict
  Returns-predict id side a h =
      Returns-bind _ _ (Returns-at a.weight (id % a.ntemps) (rw h.weight_length (temp_lt id a h)))
        (λ w _. Returns-ok _ tt)

  with_values :
      (values : List F.Real) (a : RegressionAdapter F)
      → length values ≡ nstacks * ntemps
      → IsSound nstacks ntemps a
      → IsSound nstacks ntemps (record a { values = values })
  with_values values a e h = record {
    ntemps_eq = h.ntemps_eq;
    xy_length = h.xy_length;
    xx_length = h.xx_length;
    weight_length = h.weight_length;
    counts_length = h.counts_length;
    window_length = h.window_length;
    sum_length = h.sum_length;
    rates_length = h.rates_length;
    values_length = e;
    tallied = h.tallied;
  }

  beta_stack_from-IsSound :
      (n i id : ℕ) (logbeta : F.Real) (a : RegressionAdapter F)
      → id + i + n ≤ nstacks * ntemps
      → IsSound nstacks ntemps a
      → Returns (IsSound nstacks ntemps) (beta_stack_from n i id logbeta a)
  unfolding beta_stack_from
  beta_stack_from-IsSound zero i id logbeta a room h = Returns-ok a h
  beta_stack_from-IsSound (suc n) i id logbeta a room h =
      Returns-bind _ _ (Returns-predict (i - 1) logbeta a h) (λ ratio _.
        Returns-bind _ _ (Returns-put a.values (id + i) _ (rw h.values_length (omega arith)))
          (λ values e.
            beta_stack_from-IsSound n (suc i) id _ (record a { values = values }) (omega arith)
              (with_values values a (length-put a.values values (id + i) _ e ∙ h.values_length) h)))

  -- `computeBetaStack` of a coldest chain returns a sound adapter: it writes the values of its stack.
  pub compute_beta_stack-IsSound :
      (id : ℕ) (a : RegressionAdapter F)
      → id + ntemps ≤ nstacks * ntemps
      → IsSound nstacks ntemps a
      → Returns (IsSound nstacks ntemps) (compute_beta_stack id a)
  unfolding compute_beta_stack
  compute_beta_stack-IsSound id a room h =
      beta_stack_from-IsSound (a.ntemps - 1) 1 id F.zero_real a (omega (arith, h.ntemps_eq)) h

  pub compute_sigma-IsSound :
      (id : ℕ) (t : F.Real) (a : RegressionAdapter F)
      → id < nstacks * ntemps
      → IsSound nstacks ntemps a
      → Returns (λ r. IsSound nstacks ntemps r.1) (compute_sigma id t a)
  unfolding compute_sigma
  compute_sigma-IsSound id t a inside h = Returns-bind _ _ (Returns-predict id t a h) (λ p _.
      Returns-bind _ _ (Returns-put a.values id _ (rw h.values_length inside)) (λ values e.
        Returns-ok _
          (with_values values a (length-put a.values values id _ e ∙ h.values_length) h)))
