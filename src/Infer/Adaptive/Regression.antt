-- ===== src/Infer/Adaptive/Regression.antt =====
-- infer/adaptive.cpp: `RegressionAdapter`. The windows hold 0 and 1, so that an `int` of them is a
-- number; the subtraction from a window's sum is written as it is in the code.
pub mod Shape
use stateline.Prelude.{
  ℕ, zero, suc, ◌+◌, ◌-◌, ◌%◌, Bool, true, false, List, [], ◌∷◌, ◌++◌, length, replicate, leb,
  if◌then◌else◌, wrap, Result, ok, err, ◌>>=◌, undefined_behaviour, ◌*◌,
}
use stateline.Std.Vector.{at, put}
use stateline.Infer.Doubles.{Doubles, one, real_max, real_min}

abbrev pub n_window : ℕ
n_window = 1000

-- A window and its sum after the oldest entry was dropped, if the window has `n_window` entries.
unfoldable pub drop_oldest : List ℕ → ℕ → List ℕ × ℕ
drop_oldest [] total = ([], total)
drop_oldest (oldest ∷ rest) total =
    if leb n_window (length (oldest ∷ rest)) then (rest, total - oldest) else (oldest ∷ rest, total)

pub record RegressionAdapter (F : Doubles) : Type 0 where
  pub nstacks : ℕ
  pub ntemps : ℕ
  pub min_cap : F.Real
  pub max_cap : F.Real
  pub optimal_rate : F.Real
  pub mu_xy : List F.Vector
  pub mu_xx : List F.Matrix
  pub weight : List F.Vector
  pub counts : List F.Real
  pub window : List (List ℕ)
  pub window_sum : List ℕ
  pub rates : List F.Real
  pub values : List F.Real

module _ {F : Doubles} where
  open F use {
    Real, Vector, Matrix, literal, of_nat, zero_real, add, sub, mul, div, neg, exp, log, coeff,
    vector3, vector_add, vector_scale, set_entry, matrix_add, matrix_scale, outer, solve,
  }

  unfoldable pub create :
      (n_stacks n_temps : ℕ) → (optimal min_cap max_cap : Real) → RegressionAdapter F
  create n_stacks n_temps optimal min_cap max_cap =
      let half = literal 5 1 in
      let bound_rej = vector3 min_cap zero_real (one F) in
      let bound_acc = vector3 max_cap zero_real (one F) in
      let mu_xx =
        set_entry
          (matrix_add (outer (vector_scale bound_rej half) bound_rej)
            (outer (vector_scale bound_acc half) bound_acc))
          1 1 (of_nat 10) in
      let mu_xy = vector_scale bound_acc half in
      let n = wrap (n_temps * n_stacks) in
      record {
        nstacks = n_stacks;
        ntemps = n_temps;
        min_cap = min_cap;
        max_cap = max_cap;
        optimal_rate = optimal;
        mu_xy = replicate n_temps mu_xy;
        mu_xx = replicate n_temps mu_xx;
        weight = replicate n_temps mu_xy;
        counts = replicate n_temps (of_nat 10);
        window = replicate n [];
        window_sum = replicate n 0;
        rates = replicate n zero_real;
        values = replicate n (one F);
      }

  -- The first half of `update`: the weights of the chain's temperature.
  unfoldable pub update_model :
      ℕ → (logval side : Real) → Bool → RegressionAdapter F → Result (RegressionAdapter F)
  update_model chain_id logval side acc a = do
    let temp_id = chain_id % a.ntemps
    let capped : Real = real_min F (real_max F logval a.min_cap) a.max_cap
    let x : Vector = vector3 (neg capped) side (one F)
    let y : Real = if acc then one F else zero_real
    old_count ← at a.counts temp_id
    let count : Real = add old_count (one F)
    counts ← put a.counts temp_id count
    let alpha : Real = div (one F) count
    let rest : Real = sub (one F) alpha
    old_xx ← at a.mu_xx temp_id
    let xx : Matrix = matrix_add (matrix_scale old_xx rest) (matrix_scale (outer x x) alpha)
    mu_xx ← put a.mu_xx temp_id xx
    old_xy ← at a.mu_xy temp_id
    let xy : Vector = vector_add (vector_scale old_xy rest) (vector_scale (vector_scale x y) alpha)
    mu_xy ← put a.mu_xy temp_id xy
    weight ← put a.weight temp_id (solve xx xy)
    ok (record a { counts = counts; mu_xx = mu_xx; mu_xy = mu_xy; weight = weight })

  -- The second half of `update`: the rate of acceptance of the chain.
  unfoldable pub update_rate : ℕ → Bool → RegressionAdapter F → Result (RegressionAdapter F)
  unfolding drop_oldest
  update_rate chain_id acc a = do
    let ia : ℕ = if acc then 1 else 0
    entries ← at a.window chain_id
    total ← at a.window_sum chain_id
    let pushed = entries ++ ia ∷ []
    let n = length pushed
    let (kept, kept_total) = drop_oldest pushed (total + ia)
    window ← put a.window chain_id kept
    window_sum ← put a.window_sum chain_id kept_total
    rates ← put a.rates chain_id (div (of_nat kept_total) (of_nat n))
    ok (record a { window = window; window_sum = window_sum; rates = rates })

  unfoldable pub update :
      ℕ → (logval side : Real) → Bool → RegressionAdapter F → Result (RegressionAdapter F)
  unfolding update_model update_rate
  update chain_id logval side acc a =
      update_model chain_id logval side acc a >>= update_rate chain_id acc

  unfoldable pub predict : ℕ → (side : Real) → RegressionAdapter F → Result Real
  predict chain_id side a = do
    w ← at a.weight (chain_id % a.ntemps)
    let denom : Real = real_max F (literal 1 3) (coeff w 0)
    let numer : Real = neg (sub (sub a.optimal_rate (mul (coeff w 1) side)) (coeff w 2))
    let limited : Real = real_max F (real_min F numer (mul denom a.max_cap)) (mul denom a.min_cap)
    ok (div limited denom)

  unfoldable pub beta_update :
      ℕ → (bl bh : Real) → Bool → RegressionAdapter F → Result (RegressionAdapter F)
  unfolding update
  beta_update chain_id bl bh acc a = update chain_id (sub (log bl) (log bh)) (log bl) acc a

  -- The loop of `computeBetaStack`, for `n` temperatures from `i` on.
  unfoldable pub beta_stack_from :
      (n i chain_id : ℕ) → (logbeta : Real) → RegressionAdapter F → Result (RegressionAdapter F)
  unfolding predict
  beta_stack_from zero i chain_id logbeta a = ok a
  beta_stack_from (suc n) i chain_id logbeta a = do
    ratio ← predict (i - 1) logbeta a
    let next : Real = sub logbeta ratio
    values ← put a.values (chain_id + i) (exp next)
    beta_stack_from n (suc i) chain_id next (record a { values = values })

  unfoldable pub compute_beta_stack : ℕ → RegressionAdapter F → Result (RegressionAdapter F)
  unfolding beta_stack_from
  compute_beta_stack chain_id a = beta_stack_from (a.ntemps - 1) 1 chain_id zero_real a

  unfoldable pub compute_sigma :
      ℕ → (t : Real) → RegressionAdapter F → Result (Real × RegressionAdapter F)
  unfolding predict
  compute_sigma chain_id t a = do
    p ← predict chain_id t a
    values ← put a.values chain_id (exp p)
    ok (exp p, record a { values = values })
