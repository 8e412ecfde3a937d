-- ===== src/Comms/Delegator/Choice.antt =====
-- `bestWorker`: it does not fault on good workers, and it chooses an eligible worker with the
-- least estimate.
use stateline.Prelude.{
  ℕ, ◌-◌, ◌≤◌, ◌<◌, ◌≡◌, refl, ◌⊎◌, inl, inr, true, false, [], ◌∷◌, Option, none, some, arith,
  uint_mod, ok, Bool-cases, >>=-eq-ok, ap, sym, ◌∙◌,
}
use stateline.Std.Key.{Str, str_eq, str_key, nat_key}
use stateline.Std.Map.Order.{Above, IsSorted}
use stateline.Std.Map.{Map, find}
use stateline.Comms.Delegator.State.{Worker}
use stateline.Comms.Delegator.Schedule.{us_till_done, eligible, consider, best_from, best_worker}

-- An entry of the list of workers that is eligible, with its estimate.
abbrev Candidate : (job_type most : ℕ) → Str → ℕ → Map Str Worker → Type 0
Candidate job_type most k d [] = ⊥
Candidate job_type most k d ((i, w) ∷ ws) =
    ((i ≡ k) × (eligible job_type most w ≡ true) × (us_till_done w job_type ≡ ok d))
    ⊎ Candidate job_type most k d ws

-- What the loop has found after the workers `ws`, from `(b₀, t₀)` on.
record Found (job_type most : ℕ) (ws : Map Str Worker) (b₀ : Option Str) (t₀ : ℕ) (b : Option Str)
    (t : ℕ) : Type 0 where
  source : ((b ≡ b₀) × (t ≡ t₀)) ⊎ ((k : Str) × (b ≡ some k) × Candidate job_type most k t ws)
  below : t ≤ t₀
  least : (k : Str) (d : ℕ) → Candidate job_type most k d ws → t ≤ d

-- The three ways through the body of the loop.
consider_cases :
    (job_type most : ℕ) (k : Str) (w : Worker) (b b' : Option Str) (t t' : ℕ)
    → consider job_type most k w (b, t) ≡ ok (b', t')
    → ((eligible job_type most w ≡ false) × (b' ≡ b) × (t' ≡ t))
      ⊎ ((eligible job_type most w ≡ true)
          × ((d : ℕ) × (us_till_done w job_type ≡ ok d)
              × (((d < t) × (b' ≡ some k) × (t' ≡ d)) ⊎ ((t ≤ d) × (b' ≡ b) × (t' ≡ t)))))
unfolding consider
consider_cases job_type most k w b b' t t' e = ground arith

-- One more worker in front of those that were looked at.
Found-cons :
    (job_type most : ℕ) (k : Str) (w : Worker) (ws : Map Str Worker) (b₀ b₁ b : Option Str)
    (t₀ t₁ t : ℕ)
    → consider job_type most k w (b₀, t₀) ≡ ok (b₁, t₁)
    → Found job_type most ws b₁ t₁ b t
    → Found job_type most ((k, w) ∷ ws) b₀ t₀ b t
Found-cons job_type most k w ws b₀ b₁ b t₀ t₁ t e f =
    elim (consider_cases job_type most k w b₀ b₁ t₀ t₁ e) [
      | inl (out, same_b, same_t) ↦ record {
        source = elim f.source [
          | inl (p, q) ↦ inl (p ∙ same_b, q ∙ same_t)
          | inr (i, p, c) ↦ inr (i, p, inr c)
        ];
        below = omega (arith, f.below);
        least = λ i d. elim [
          | inl (_, fits, _) ↦ absurd (ground (arith, out, fits))
          | inr c ↦ f.least i d c
        ];
      }
      | inr (fits, (d, est, inl (better, now_k, now_d))) ↦ record {
        source = elim f.source [
          | inl (p, q) ↦ inr (k, p ∙ now_k, inl (refl, fits, est ∙ ap ok (sym (q ∙ now_d))))
          | inr (i, p, c) ↦ inr (i, p, inr c)
        ];
        below = omega (arith, f.below);
        least = λ i x. elim [
          | inl (_, _, est') ↦ ground (arith, est, est', f.below)
          | inr c ↦ f.least i x c
        ];
      }
      | inr (fits, (d, est, inr (no_better, same_b, same_t))) ↦ record {
        source = elim f.source [
          | inl (p, q) ↦ inl (p ∙ same_b, q ∙ same_t)
          | inr (i, p, c) ↦ inr (i, p, inr c)
        ];
        below = omega (arith, f.below);
        least = λ i x. elim [
          | inl (_, _, est') ↦ ground (arith, est, est', f.below)
          | inr c ↦ f.least i x c
        ];
      }
    ]

best_from-Found :
    (job_type most : ℕ) (ws : Map Str Worker) (b₀ b : Option Str) (t₀ t : ℕ)
    → best_from job_type most (b₀, t₀) ws ≡ ok (b, t)
    → Found job_type most ws b₀ t₀ b t
unfolding best_from
best_from-Found job_type most [] b₀ b t₀ t e = record {
  source = inl (ground arith, ground arith);
  below = ground arith;
  least = λ k d c. absurd c;
}
best_from-Found job_type most ((k, w) ∷ ws) b₀ b t₀ t e =
    let ((b₁, t₁), e₁, e₂) = >>=-eq-ok (consider job_type most k w (b₀, t₀)) _ e in
    Found-cons job_type most k w ws b₀ b₁ b t₀ t₁ t e₁
      (best_from-Found job_type most ws b₁ b t₁ t e₂)

Candidate-of_find :
    (job_type most : ℕ) (k : Str) (w : Worker) (d : ℕ) (ws : Map Str Worker)
    → find k ws ≡ some w
    → eligible job_type most w ≡ true
    → us_till_done w job_type ≡ ok d
    → Candidate job_type most k d ws
unfolding find
Candidate-of_find job_type most k w d [] e fits est = cc
Candidate-of_find job_type most k w d ((i, u) ∷ ws) e fits est = elim (Bool-cases (str_eq k i)) [
  | inl hit ↦
      inl (
        sym ((str_key.eq_iff k i).0 hit),
        ground (arith, e, hit, fits),
        ground (arith, e, hit, est),
      )
  | inr miss ↦ inr (Candidate-of_find job_type most k w d ws (rw miss at e) fits est)
]

Above-ne :
    (i k : Str) (w : Worker) (ws : Map Str Worker)
    → Above i ws
    → find k ws ≡ some w
    → str_eq k i ≡ false
unfolding find
Above-ne i k w [] a e = cc
Above-ne i k w ((j, u) ∷ ws) a e =
    ground
      (arith, Above-ne i k w ws a.1, str_key.eq_iff k j, str_key.eq_iff k i, str_key.lt_irrefl i)

find_of_Candidate :
    (job_type most : ℕ) (k : Str) (d : ℕ) (ws : Map Str Worker)
    → IsSorted ws
    → Candidate job_type most k d ws
    → (w : Worker) × (find k ws ≡ some w)
      × (eligible job_type most w ≡ true)
      × (us_till_done w job_type ≡ ok d)
unfolding find
find_of_Candidate job_type most k d [] s c = absurd c
find_of_Candidate job_type most k d ((i, w) ∷ ws) s (inl (e, fits, est)) =
    (w, rw ((str_key.eq_iff k i).1 (sym e)), fits, est)
find_of_Candidate job_type most k d ((i, u) ∷ ws) s (inr c) =
    let (w, e, fits, est) = find_of_Candidate job_type most k d ws s.1 c in
    (w, rw (Above-ne i k w ws s.0 e) e, fits, est)

-- The chosen worker is eligible, and no eligible worker has a smaller estimate.
pub record IsBest (job_type most : ℕ) (ws : Map Str Worker) (k : Str) : Type 0 where
  pub worker : Worker
  pub found : find k ws ≡ some worker
  pub fits : eligible job_type most worker ≡ true
  pub estimate : ℕ
  pub estimated : us_till_done worker job_type ≡ ok estimate
  pub least :
      (i : Str) (v : Worker) (d : ℕ)
      → find i ws ≡ some v
      → eligible job_type most v ≡ true
      → us_till_done v job_type ≡ ok d
      → estimate ≤ d

-- `bestWorker` returns a best worker. It returns none only if the estimate of every eligible
-- worker is at least the greatest `uint`.
abbrev pub IsChoice : (job_type most : ℕ) → Map Str Worker → Option Str → Type 0
IsChoice job_type most ws (some k) = IsBest job_type most ws k
IsChoice job_type most ws none =
    (i : Str) (v : Worker) (d : ℕ)
    → find i ws ≡ some v
    → eligible job_type most v ≡ true
    → us_till_done v job_type ≡ ok d
    → uint_mod - 1 ≤ d

IsChoice-of_Found :
    (job_type most : ℕ) (ws : Map Str Worker) (b : Option Str) (t : ℕ)
    → IsSorted ws
    → Found job_type most ws none (uint_mod - 1) b t
    → IsChoice job_type most ws b
IsChoice-of_Found job_type most ws none t s f = λ i v d e fits est. elim f.source [
  | inl (_, top) ↦ omega (arith, f.least i d (Candidate-of_find job_type most i v d ws e fits est))
  | inr (k, p, c) ↦ cc
]
IsChoice-of_Found job_type most ws (some k) t s f = elim f.source [
  | inl (p, _) ↦ cc
  | inr (i, p, c) ↦
      let (w, e, fits, est) = find_of_Candidate job_type most i t ws s c in
      let same : k ≡ i = ground (arith, p) in
      record {
        worker = w;
        found = rw same e;
        fits = fits;
        estimate = t;
        estimated = est;
        least = λ i v d e' fits' est'.
            f.least i d (Candidate-of_find job_type most i v d ws e' fits' est');
      }
]

-- Whenever `best_worker` returns, what it returns is a choice.
pub best_worker-IsChoice :
    (job_type most : ℕ) (ws : Map Str Worker) (b : Option Str)
    → IsSorted ws
    → best_worker job_type most ws ≡ ok b
    → IsChoice job_type most ws b
unfolding best_worker
best_worker-IsChoice job_type most ws b s e =
    let ((b', t), e₁, e₂) = >>=-eq-ok (best_from job_type most (none, uint_mod - 1) ws) _ e in
    let same : b' ≡ b = ground (arith, e₂) in
    IsChoice-of_Found job_type most ws b t s
      (best_from-Found job_type most ws none b (uint_mod - 1) t (e₁ ∙ ap (λ x. ok (x, t)) same))
