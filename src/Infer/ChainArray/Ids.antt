-- ===== src/Infer/ChainArray/Ids.antt =====
-- infer/chainarray.cpp: the numbering of the chains by stack and temperature.
use native.Mathlib.Numerals.{add-one}
use stateline.Prelude.{ℕ, suc, ◌+◌, ◌*◌, ◌/◌, ◌%◌, ◌<◌, ◌≡◌, false, arith, uint_mod, sym, ap, ◌∙◌}
use native.Mathlib.Nat.{div-add-mod, mod-lt, suc-mod, mod-eq_of_lt, mul-div_cancel_left}
use stateline.Infer.ChainArray.State.{
  stack_index, chain_index, is_hottest_in_stack, is_coldest_in_stack,
}

-- A chain of `nstacks * ntemps` has a stack and a place in it, which give its id back.
pub index-bounds :
    (nstacks ntemps id : ℕ)
    → 0 < ntemps
    → id < nstacks * ntemps
    → (stack_index ntemps id < nstacks)
      × (chain_index ntemps id < ntemps)
      × (stack_index ntemps id * ntemps + chain_index ntemps id ≡ id)
unfolding stack_index chain_index
index-bounds nstacks ntemps id pos h = (grind arith, grind arith, grind arith)

pub mod_step : (n id : ℕ) → id % n + 1 < n → (id + 1) % n ≡ id % n + 1
mod_step n id h =
    let step : (id + 1) % n ≡ suc (id % n) % n = rw add-one (suc-mod id n) in
    step ∙ mod-eq_of_lt (omega arith) ∙ sym (add-one (id % n))

pub div_step : (n id : ℕ) → id % n + 1 < n → (id + 1) / n ≡ id / n
div_step n id h =
    let pos : 0 < n = omega arith in
    let same : n * ((id + 1) / n) ≡ n * (id / n) =
      omega (arith, div-add-mod (id + 1) n, div-add-mod id n, mod_step n id h) in
    sym (mul-div_cancel_left ((id + 1) / n) pos)
    ∙ ap (λ x. x / n) same
    ∙ mul-div_cancel_left (id / n) pos

-- The chain above a chain that is not the hottest of its stack stands in the same stack, one place
-- further, and is not the coldest.
pub next_chain :
    (ntemps id : ℕ)
    → 0 < ntemps
    → ntemps < uint_mod
    → is_hottest_in_stack ntemps id ≡ false
    → (stack_index ntemps (id + 1) ≡ stack_index ntemps id)
      × (chain_index ntemps (id + 1) ≡ chain_index ntemps id + 1)
      × (is_coldest_in_stack ntemps (id + 1) ≡ false)
unfolding stack_index chain_index is_hottest_in_stack is_coldest_in_stack
next_chain ntemps id pos small h =
    let below : id % ntemps + 1 < ntemps = ground (arith, mod-lt id pos, h) in
    (div_step ntemps id below, mod_step ntemps id below, ground (arith, mod_step ntemps id below))

-- Two cold chains of one stack are the same chain.
pub cold_unique :
    (ntemps i j : ℕ)
    → chain_index ntemps i ≡ 0
    → chain_index ntemps j ≡ 0
    → i / ntemps ≡ j / ntemps
    → i ≡ j
unfolding chain_index
cold_unique ntemps i j p q e = grind arith
