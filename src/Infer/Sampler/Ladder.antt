-- ===== src/Infer/Sampler/Ladder.antt =====
-- The protocol of the sampler, without the chains' contents: which chains are locked, and which have a
-- batch at the workers. A locked chain keeps the chain above it waiting, until its own next result
-- has come and the two have tried to swap.
use native.Mathlib.Nat.{div-lt_iff_lt-mul}
pub mod Fairness
use stateline.Prelude.{
  ℕ, zero, suc, ◌+◌, ◌-◌, ◌*◌, ◌/◌, ◌%◌, ◌≤◌, ◌<◌, ◌≡◌, refl, ◌∙◌, sym, ap, ◌≢◌, ◌⊎◌, inl, inr,
  Bool, true, false, not, ◌&&◌, arith, ◌==◌, if◌then◌else◌, Bool-cases, ==_iff, ltb,
}
use native.Mathlib.Decide.{dec_lt}
use stateline.Infer.ChainArray.Ids.{mod_step, div_step}

pub record Ladder : Type 0 where
  pub locked : ℕ → Bool
  pub pending : ℕ → ℕ

abbrev pub lock_at : ℕ → Bool → Ladder → Ladder
lock_at i b l = record l { locked = λ j. if i == j then b else l.locked j }

abbrev pub submit_at : ℕ → Ladder → Ladder
submit_at i l = record l { pending = λ j. if i == j then l.pending j + 1 else l.pending j }

abbrev pub take_at : ℕ → Ladder → Ladder
take_at i l = record l { pending = λ j. if i == j then l.pending j - 1 else l.pending j }

-- The chain above is freed; the chain itself waits for the one below, if there is one.
abbrev pub climb_down : (ntemps id : ℕ) → Ladder → Ladder
climb_down ntemps id l =
    let freed = submit_at (id + 1) (lock_at id false l) in
    if id % ntemps == 0 then submit_at id freed else lock_at (id - 1) true freed

-- What a result for one chain leads to: a swap with the chain above, the start of a cascade at the
-- hottest chain, or the next proposal.
pub data Move (ntemps : ℕ) (l : Ladder) : Ladder → Type 0 where
  swaps :
      (id : ℕ)
      → 0 < l.pending id
      → l.locked id ≡ true
      → Move ntemps l (climb_down ntemps id (take_at id l))
  starts :
      (id : ℕ)
      → 0 < l.pending id
      → l.locked id ≡ false
      → id % ntemps + 1 ≡ ntemps
      → 1 < ntemps
      → Move ntemps l (lock_at (id - 1) true (take_at id l))
  goes_on :
      (id : ℕ)
      → 0 < l.pending id
      → l.locked id ≡ false
      → Move ntemps l (submit_at id (take_at id l))

-- Whether a chain waits for the one below it.
abbrev pub waits : (ntemps : ℕ) → Ladder → ℕ → Bool
waits ntemps l j = if j % ntemps == 0 then false else l.locked (j - 1)

-- Each chain has one batch at the workers, or none while it waits; a hottest chain is never locked.
pub record IsFair (ntemps total : ℕ) (l : Ladder) : Type 0 where
  pub one_batch : (j : ℕ) → j < total → l.pending j ≡ (if waits ntemps l j then 0 else 1)
  pub none_beyond : (j : ℕ) → total ≤ j → l.pending j ≡ 0
  pub not_hottest : (j : ℕ) → l.locked j ≡ true → j % ntemps + 1 < ntemps

-- At the start every chain has a batch and none is locked.
abbrev pub at_start : ℕ → Ladder
at_start total = record { locked = λ j. false; pending = λ j. if ltb j total then 1 else 0 }
