-- ===== src/Infer/Sampler/Ladder/Fairness.antt =====
-- The moves of the ladder, and the chains that wait or run in it.
use native.Mathlib.Nat.{mod-lt, div-lt_iff_lt-mul}
use stateline.Prelude.{
  ℕ, zero, suc, ◌+◌, ◌-◌, ◌*◌, ◌/◌, ◌%◌, ◌≤◌, ◌<◌, ◌≡◌, refl, ◌∙◌, sym, ap, ◌⊎◌, inl, inr, Bool,
  true, false, arith, ◌==◌, if◌then◌else◌, Bool-cases, ==_iff,
}
use native.Mathlib.Decide.{dec_lt}
use stateline.Infer.ChainArray.Ids.{mod_step, div_step}
use stateline.Infer.Sampler.Ladder.{
  Ladder, lock_at, submit_at, take_at, climb_down, Move, swaps, starts, goes_on, IsFair, at_start,
}

pub at_start-IsFair : (ntemps total : ℕ) → IsFair ntemps total (at_start total)
at_start-IsFair ntemps total = record {
  one_batch = λ j h. ground arith;
  none_beyond = λ j h. ground arith;
  not_hottest = λ j h. cc;
}

if-holds {ℓ κ} :
    {A : Type ℓ} {x y : A} (P : A → Type κ) (b : Bool)
    → (b ≡ true → P x)
    → (b ≡ false → P y)
    → P (if b then x else y)
if-holds P true h g = h refl
if-holds P false h g = g refl

-- A chain that is not the coldest of its stack has its predecessor's place, plus one.
pub pred_mod :
    (ntemps j : ℕ)
    → 0 < ntemps
    → (j % ntemps ≡ 0 → ⊥)
    → ((j - 1) % ntemps + 1 ≡ j % ntemps) × (0 < j)
pred_mod ntemps j pos ne = grind arith

pub coldest_or_above :
    (ntemps j : ℕ)
    → 0 < ntemps
    → (j % ntemps ≡ 0) ⊎ ((0 < j % ntemps) × (0 < j) × ((j - 1) % ntemps + 1 ≡ j % ntemps))
coldest_or_above ntemps j pos = elim (dec_lt 0 (j % ntemps)) [
  | yes above ↦
      let (before, positive) = pred_mod ntemps j pos (λ e. omega arith) in
      inr (above, positive, before)
  | no coldest ↦ inl (omega arith)
]

pub pending_total :
    (ntemps total id : ℕ) (l : Ladder) → IsFair ntemps total l → 0 < l.pending id → id < total
pending_total ntemps total id l h p = elim (dec_lt id total) [
  | yes inside ↦ inside
  | no outside ↦ absurd (omega (arith, h.none_beyond id (omega arith)))
]

pub above_total :
    (ntemps nstacks id : ℕ)
    → id < nstacks * ntemps
    → id % ntemps + 1 < ntemps
    → id + 1 < nstacks * ntemps
above_total ntemps nstacks id inside below =
    let pos : 0 < ntemps = omega arith in
    let inside' : id / ntemps < nstacks = (div-lt_iff_lt-mul pos).1 inside in
    (div-lt_iff_lt-mul pos).0 (rw (div_step ntemps id below) inside')

module _ (ntemps nstacks : ℕ) (pos : 0 < ntemps) (l : Ladder)
    (h : IsFair ntemps (nstacks * ntemps) l) where
  goes_on-IsFair :
      (id : ℕ) → 0 < l.pending id → IsFair ntemps (nstacks * ntemps) (submit_at id (take_at id l))
  goes_on-IsFair id p = record {
    one_batch = λ j inside. ground (arith, h.one_batch j inside, p);
    none_beyond = λ j outside. ground (arith, h.none_beyond j outside, p);
    not_hottest = λ j e. h.not_hottest j e;
  }

  starts-IsFair :
      (id : ℕ)
      → 0 < l.pending id
      → id % ntemps + 1 ≡ ntemps
      → 1 < ntemps
      → IsFair ntemps (nstacks * ntemps) (lock_at (id - 1) true (take_at id l))
  starts-IsFair id p hot many =
      let own = coldest_or_above ntemps id pos in
      record {
        one_batch = λ j inside.
            ground (arith, h.one_batch j inside, coldest_or_above ntemps j pos, own, p, hot, many);
        none_beyond = λ j outside. ground (arith, h.none_beyond j outside);
        not_hottest = λ j e. ground (arith, h.not_hottest j, e, own, hot, many);
      }

  -- The chain above a locked chain waits.
  above_waits : (id : ℕ) → 0 < l.pending id → l.locked id ≡ true → l.pending (id + 1) ≡ 0
  above_waits id p e =
      let below = h.not_hottest id e in
      let next = mod_step ntemps id below in
      let total =
        above_total ntemps nstacks id (pending_total ntemps (nstacks * ntemps) id l h p) below in
      ground (arith, h.one_batch (id + 1) total, next, e)

  module _ (id : ℕ) (p : 0 < l.pending id) (e : l.locked id ≡ true)
      (next : (id + 1) % ntemps ≡ id % ntemps + 1) (total : id + 1 < nstacks * ntemps) where
    swaps_coldest-IsFair :
        id % ntemps ≡ 0
        → IsFair ntemps
            (nstacks * ntemps)
            (submit_at id (submit_at (id + 1) (lock_at id false (take_at id l))))
    swaps_coldest-IsFair coldest = record {
      one_batch = λ j inside. ground (
        arith,
        h.one_batch j inside,
        coldest_or_above ntemps j pos,
        coldest,
        next,
        p,
        e,
        above_waits id p e,
      );
      none_beyond = λ j outside. ground (arith, h.none_beyond j outside, total, p);
      not_hottest = λ j e'. ground (arith, h.not_hottest j, e');
    }

    swaps_others-IsFair :
        (id % ntemps ≡ 0 → ⊥)
        → IsFair ntemps
            (nstacks * ntemps)
            (lock_at (id - 1) true (submit_at (id + 1) (lock_at id false (take_at id l))))
    swaps_others-IsFair other =
        let (before, positive) = pred_mod ntemps id pos other in
        record {
          one_batch = λ j inside. ground (
            arith,
            h.one_batch j inside,
            coldest_or_above ntemps j pos,
            before,
            positive,
            other,
            next,
            p,
            e,
            above_waits id p e,
          );
          none_beyond = λ j outside. ground (arith, h.none_beyond j outside, total, p);
          not_hottest = λ j e'. ground (arith, h.not_hottest j, h.not_hottest id e, before, e');
        }

  swaps-IsFair :
      (id : ℕ)
      → 0 < l.pending id
      → l.locked id ≡ true
      → IsFair ntemps (nstacks * ntemps) (climb_down ntemps id (take_at id l))
  swaps-IsFair id p e =
      let below = h.not_hottest id e in
      let next = mod_step ntemps id below in
      let total =
        above_total ntemps nstacks id (pending_total ntemps (nstacks * ntemps) id l h p) below in
      if-holds (IsFair ntemps (nstacks * ntemps)) (id % ntemps == 0)
        (λ t. swaps_coldest-IsFair id p e next total ((==_iff (id % ntemps) 0).0 t))
        (λ f. swaps_others-IsFair id p e next total (λ z. ground (arith, f, z)))

-- Every move of the ladder keeps it fair.
pub Move-IsFair :
    (ntemps nstacks : ℕ) (l l' : Ladder)
    → 0 < ntemps
    → IsFair ntemps (nstacks * ntemps) l
    → Move ntemps l l'
    → IsFair ntemps (nstacks * ntemps) l'
Move-IsFair ntemps nstacks l l' pos h (swaps id p e) = swaps-IsFair ntemps nstacks pos l h id p e
Move-IsFair ntemps nstacks l l' pos h (starts id p e hot many) =
    starts-IsFair ntemps nstacks pos l h id p hot many
Move-IsFair ntemps nstacks l l' pos h (goes_on id p e) = goes_on-IsFair ntemps nstacks pos l h id p

-- The batch that a chain of a fair ladder waits for: its own, or one of a colder chain of its stack.
pub someone_runs :
    (ntemps total : ℕ) (l : Ladder)
    → 0 < ntemps
    → IsFair ntemps total l
    → (k j : ℕ) → j < total
    → j % ntemps ≡ k
    → (i : ℕ) × (i ≤ j) × (i / ntemps ≡ j / ntemps) × (l.pending i ≡ 1)
someone_runs ntemps total l pos h zero j inside place =
    (j, omega arith, refl, ground (arith, h.one_batch j inside, place))
someone_runs ntemps total l pos h (suc k) j inside place = elim (Bool-cases (l.locked (j - 1))) [
  | inl held ↦
      let (before, positive) = pred_mod ntemps j pos (λ z. omega arith) in
      let (i, le, stack, one) =
        someone_runs ntemps total l pos h k (j - 1) (omega arith) (omega arith) in
      let whole : j - 1 + 1 ≡ j = omega arith in
      let same : j / ntemps ≡ (j - 1) / ntemps =
        ap (λ x. x / ntemps) (sym whole) ∙ div_step ntemps (j - 1) (omega (arith, mod-lt j pos)) in
      (i, omega arith, stack ∙ sym same, one)
  | inr free ↦ (j, omega arith, refl, ground (arith, h.one_batch j inside, place, free))
]
