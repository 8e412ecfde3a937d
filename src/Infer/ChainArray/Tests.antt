-- ===== src/Infer/ChainArray/Tests.antt =====
-- The theorems on the chain array at small inputs.
use stateline.Infer.Numbers.{numbers}
use stateline.Std.Vector.{at, back}
use stateline.Infer.ChainArray.Clock.{ReadsSame, append-ReadsSame}
use stateline.Infer.ChainArray.Appending.{Appended, append_ok, is_accepted, settled}
use stateline.Infer.ChainArray.Moves.{append, swap}
use stateline.Prelude.{ℕ, ◌≡◌, refl, true, [], ◌∷◌, ok, arith, Returns, if◌then◌else◌, Bool}
use stateline.Infer.ChainArray.State.{ChainArray, State, no_attempt, last_state, accept, reject}
use stateline.Infer.ChainArray.Swapping.{Swapped, swap_ok, is_exchanged}
use stateline.Infer.ChainArray.Storage.{flush_to_disk}
use stateline.Infer.ChainArray.Views.{IsShaped}
use stateline.Infer.ChainArray.Flushing.{SameRecord, flush_to_disk_ok}

abbrev point : ℕ → State numbers
point n = record {
  sample = n ∷ [];
  energy = n;
  sigma = 1;
  beta = 1;
  accepted = true;
  swap_type = no_attempt;
}

-- Two stacks of two chains; the first chain has three states in memory and one in its file.
abbrev four_chains : ChainArray numbers
four_chains = record {
  files = (point 1 ∷ []) ∷ [] ∷ [];
  nstacks = 2;
  ntemps = 2;
  length_on_disk = 1 ∷ 0 ∷ 0 ∷ 0 ∷ [];
  betas = 1 ∷ 1 ∷ 1 ∷ 1 ∷ [];
  sigmas = 1 ∷ 1 ∷ 1 ∷ 1 ∷ [];
  cache =
      (point 2 ∷ point 3 ∷ point 4 ∷ []) ∷ (point 5 ∷ []) ∷ (point 6 ∷ []) ∷ (point 7 ∷ []) ∷ [];
  last_flush_time = 0;
}

four_chains-IsShaped : IsShaped four_chains
four_chains-IsShaped = record {
  positive = omega arith;
  small = omega arith;
  files_length = refl;
  disk_length = refl;
  beta_length = refl;
  sigma_length = refl;
  cache_length = refl;
}

flush_to_disk_ok_example :
    (c' : ChainArray numbers) × (flush_to_disk 0 four_chains ≡ ok c') × SameRecord four_chains c'
flush_to_disk_ok_example = flush_to_disk_ok 0 four_chains four_chains-IsShaped (omega arith)

append_ok_example :
    (sigma beta : ℕ) × (c' : ChainArray numbers) × (at four_chains.sigmas 0 ≡ ok sigma)
    × (at four_chains.betas 0 ≡ ok beta)
    × (let accepted = is_accepted numbers 0 8 4 beta in
        (append 0 20000000000 0 (9 ∷ []) 8 four_chains ≡ ok (accepted, c'))
        × Appended 0 (settled accepted (9 ∷ []) 8 sigma beta (point 4)) four_chains c')
unfolding last_state at back
append_ok_example =
    append_ok 0 20000000000 0 (9 ∷ []) 8 (point 4) four_chains four_chains-IsShaped (omega arith)
      refl

swap_ok_example :
    let swapped = is_exchanged numbers 0 7 6 1 1 in
    Returns
      (λ r.
        (r.0 ≡ (if swapped then accept else reject))
        × Swapped swapped 3 2 (point 7) (point 6) four_chains r.1)
      (swap 0 2 3 four_chains)
unfolding last_state at back
swap_ok_example =
    swap_ok 0 2 3 (point 7) (point 6) 1 1 four_chains four_chains-IsShaped (omega arith)
      (λ e. omega arith) refl refl refl refl

append-ReadsSame_example :
    (accepted : Bool) × (c₁ : ChainArray numbers) × (c₂ : ChainArray numbers) × (append 0 1 0
        (9 ∷ [])
        8
        four_chains
      ≡ ok (accepted, c₁))
    × (append 0 20000000000 0 (9 ∷ []) 8 four_chains ≡ ok (accepted, c₂))
    × ReadsSame 2 c₁ c₂
unfolding last_state at back
append-ReadsSame_example =
    append-ReadsSame 0 1 20000000000 0 (9 ∷ []) 8 (point 4) four_chains four_chains-IsShaped
      (omega arith) refl
