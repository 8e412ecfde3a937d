-- ===== src/Infer/TableLog.antt =====
-- infer/logging.hpp and infer/logging.cpp: the counters of the table log. What is printed is left
-- out, but for the time of the last print.
pub mod Counters
use stateline.Prelude.{
  ℕ, ◌+◌, ◌-◌, ◌*◌, ◌/◌, Bool, true, false, List, replicate, ltb, if◌then◌else◌, wrap, Result, ok,
  ◌>>=◌,
}
use stateline.Std.Vector.{at, put}
use stateline.Infer.Doubles.{Doubles, real_min}
use stateline.Infer.ChainArray.State.{State, SwapType, no_attempt, accept, reject}
use stateline.Infer.Sampler.{is_accept}
use stateline.Infer.Diagnostics.{EpsrDiagnostic}
use stateline.Infer.Diagnostics

pub record TableLogger (F : Doubles) : Type 0 where
  pub last_print_time : ℕ
  pub ms_refresh : ℕ
  pub nstacks : ℕ
  pub nchains : ℕ
  pub lengths : List ℕ
  pub min_energies : List F.Real
  pub energies : List F.Real
  pub n_accepts : List ℕ
  pub n_swaps : List ℕ
  pub n_swap_attempts : List ℕ
  pub diagnostic : EpsrDiagnostic F

-- A Boolean as it is added to a `uint`.
abbrev pub as_uint : Bool → ℕ
as_uint true = 1
as_uint false = 0

abbrev pub is_attempt : SwapType → Bool
is_attempt no_attempt = false
is_attempt _ = true

-- `v[id] += n`.
unfoldable pub add_at : List ℕ → ℕ → ℕ → Result (List ℕ)
add_at v id n = do old ← at v id; put v id (wrap (old + n))

module _ {F : Doubles} where
  open F use {Real, literal, zero_real, infinity}

  unfoldable pub create : (nstacks nchains ndims ms_refresh : ℕ) → TableLogger F
  create nstacks nchains ndims ms_refresh =
      let n = wrap (nstacks * nchains) in
      record {
        last_print_time = 0;
        ms_refresh = ms_refresh;
        nstacks = nstacks;
        nchains = nchains;
        lengths = replicate n 1;
        min_energies = replicate n infinity;
        energies = replicate n zero_real;
        n_accepts = replicate n 1;
        n_swaps = replicate n 0;
        n_swap_attempts = replicate n 1;
        diagnostic = Diagnostics.create nstacks nchains ndims (literal 11 1);
      }

  unfoldable pub update : (now id : ℕ) → State F → TableLogger F → Result (TableLogger F)
  unfolding add_at
  update now id s t = do
    lengths ← add_at t.lengths id 1
    least ← at t.min_energies id
    min_energies ← put t.min_energies id (real_min F least s.energy)
    energies ← put t.energies id s.energy
    n_accepts ← add_at t.n_accepts id (as_uint s.accepted)
    n_swaps ← add_at t.n_swaps id (as_uint (is_accept s.swap_type))
    n_swap_attempts ← add_at t.n_swap_attempts id (as_uint (is_attempt s.swap_type))
    diagnostic ← Diagnostics.update id s t.diagnostic
    let due = ltb t.ms_refresh ((now - t.last_print_time) / 1000000)
    ok (record t {
      last_print_time = if due then now else t.last_print_time;
      lengths = lengths;
      min_energies = min_energies;
      energies = energies;
      n_accepts = n_accepts;
      n_swaps = n_swaps;
      n_swap_attempts = n_swap_attempts;
      diagnostic = diagnostic;
    })
