-- ===== src/App/Settings.antt =====
-- app/jsonsettings.hpp, and the readers of settings in app/serverwrapper.hpp and infer/sampler.hpp. The
-- JSON library is a parameter: what `get` of a field gives, or nothing where it throws. A field's name
-- is the list of its bytes.
pub mod Reading
use stateline.Prelude.{
  ℕ, zero, suc, ◌+◌, ◌==◌, ℤ, to_uint, Bool, Option, none, some, List, [], ◌∷◌, length,
  if◌then◌else◌, wrap, Result, ok, err, ◌>>=◌, program_exit,
}
use stateline.Std.Key.{Str}
use stateline.Infer.Doubles.{Doubles}
use stateline.Infer.Adaptive.Shaper.{ProposalBounds}
use stateline.App.ServerWrapper.{StatelineSettings}

-- `j[field].get<T>()` for the types that are read.
pub record Json (F : Doubles) : Type 1 where
  pub Value : Type 0
  pub get_uint : Value → Str → Option ℕ
  pub get_double : Value → Str → Option F.Real
  pub get_bool : Value → Str → Option Bool
  pub get_text : Value → Str → Option Str
  pub get_doubles : Value → Str → Option (List F.Real)

-- The names of the fields, by their bytes.
-- nStacks
abbrev pub n_stacks_field : Str
n_stacks_field = 110 ∷ 83 ∷ 116 ∷ 97 ∷ 99 ∷ 107 ∷ 115 ∷ []

-- nTemperatures
abbrev pub n_temperatures_field : Str
n_temperatures_field =
    110 ∷ 84 ∷ 101 ∷ 109 ∷ 112 ∷ 101 ∷ 114 ∷ 97 ∷ 116 ∷ 117 ∷ 114 ∷ 101 ∷ 115 ∷ []

-- nSamplesTotal
abbrev pub n_samples_total_field : Str
n_samples_total_field = 110 ∷ 83 ∷ 97 ∷ 109 ∷ 112 ∷ 108 ∷ 101 ∷ 115 ∷ 84 ∷ 111 ∷ 116 ∷ 97 ∷ 108 ∷ []

-- swapInterval
abbrev pub swap_interval_field : Str
swap_interval_field = 115 ∷ 119 ∷ 97 ∷ 112 ∷ 73 ∷ 110 ∷ 116 ∷ 101 ∷ 114 ∷ 118 ∷ 97 ∷ 108 ∷ []

-- loggingRateSec
abbrev pub logging_rate_sec_field : Str
logging_rate_sec_field =
    108 ∷ 111 ∷ 103 ∷ 103 ∷ 105 ∷ 110 ∷ 103 ∷ 82 ∷ 97 ∷ 116 ∷ 101 ∷ 83 ∷ 101 ∷ 99 ∷ []

-- nJobTypes
abbrev pub n_job_types_field : Str
n_job_types_field = 110 ∷ 74 ∷ 111 ∷ 98 ∷ 84 ∷ 121 ∷ 112 ∷ 101 ∷ 115 ∷ []

-- outputPath
abbrev pub output_path_field : Str
output_path_field = 111 ∷ 117 ∷ 116 ∷ 112 ∷ 117 ∷ 116 ∷ 80 ∷ 97 ∷ 116 ∷ 104 ∷ []

-- optimalAcceptRate
abbrev pub optimal_accept_rate_field : Str
optimal_accept_rate_field =
    111 ∷ 112 ∷ 116 ∷ 105 ∷ 109 ∷ 97 ∷ 108 ∷ 65 ∷ 99 ∷ 99 ∷ 101 ∷ 112 ∷ 116 ∷ 82 ∷ 97 ∷ 116 ∷ 101
    ∷ []

-- optimalSwapRate
abbrev pub optimal_swap_rate_field : Str
optimal_swap_rate_field =
    111 ∷ 112 ∷ 116 ∷ 105 ∷ 109 ∷ 97 ∷ 108 ∷ 83 ∷ 119 ∷ 97 ∷ 112 ∷ 82 ∷ 97 ∷ 116 ∷ 101 ∷ []

-- useInitial
abbrev pub use_initial_field : Str
use_initial_field = 117 ∷ 115 ∷ 101 ∷ 73 ∷ 110 ∷ 105 ∷ 116 ∷ 105 ∷ 97 ∷ 108 ∷ []

-- initial
abbrev pub initial_field : Str
initial_field = 105 ∷ 110 ∷ 105 ∷ 116 ∷ 105 ∷ 97 ∷ 108 ∷ []

-- min
abbrev pub lower_field : Str
lower_field = 109 ∷ 105 ∷ 110 ∷ []

-- max
abbrev pub upper_field : Str
upper_field = 109 ∷ 97 ∷ 120 ∷ []

-- `readSettings`.
unfoldable pub read_settings {ℓ} : {T : Type ℓ} → Option T → Result T
read_settings none = err program_exit
read_settings (some value) = ok value

module _ {F : Doubles} (json : Json F) where
  open F use {Real, Vector, of_nat, truncate, mul, size, set_coeff, zero_vector}

  -- The loop that copies a vector's entries, from `i` on.
  unfoldable pub copy_from : (i : ℕ) → List Real → Vector → Vector
  copy_from i [] v = v
  copy_from i (x ∷ xs) v = copy_from (suc i) xs (set_coeff v i x)

  unfoldable pub to_vector : List Real → Vector
  unfolding copy_from
  to_vector xs = copy_from 0 xs (zero_vector (length xs))

  -- `ProposalBoundsFromJSON`. A fatal log entry ends the program.
  unfoldable pub proposal_bounds_from_json : json.Value → Result (ProposalBounds F)
  unfolding read_settings to_vector
  proposal_bounds_from_json j = do
    vmin ← read_settings (json.get_doubles j lower_field)
    vmax ← read_settings (json.get_doubles j upper_field)
    (if length vmin == length vmax
        then ok (record { lower = to_vector vmin; upper = to_vector vmax })
        else err program_exit)

  -- The initial sample is read only if it is used; `unset` stands for it otherwise.
  unfoldable pub initial_from_json : json.Value → Bool → (unset : Vector) → Result Vector
  unfolding read_settings to_vector
  initial_from_json j use_initial unset =
      if use_initial
      then (do tmp ← read_settings (json.get_doubles j initial_field); ok (to_vector tmp))
      else ok unset

  unfoldable pub from_json : json.Value → (unset : Vector) → Result (StatelineSettings F)
  unfolding read_settings initial_from_json proposal_bounds_from_json
  from_json j unset = do
    nstacks ← read_settings (json.get_uint j n_stacks_field)
    ntemps ← read_settings (json.get_uint j n_temperatures_field)
    nsamples ← read_settings (json.get_uint j n_samples_total_field)
    swap_interval ← read_settings (json.get_uint j swap_interval_field)
    rate ← read_settings (json.get_double j logging_rate_sec_field)
    n_job_types ← read_settings (json.get_uint j n_job_types_field)
    output_path ← read_settings (json.get_text j output_path_field)
    optimal_accept_rate ← read_settings (json.get_double j optimal_accept_rate_field)
    optimal_swap_rate ← read_settings (json.get_double j optimal_swap_rate_field)
    use_initial ← read_settings (json.get_bool j use_initial_field)
    initial ← initial_from_json j use_initial unset
    proposal_bounds ← proposal_bounds_from_json j
    ok (record {
      ndims = wrap (size proposal_bounds.lower);
      nstacks = nstacks;
      ntemps = ntemps;
      nsamples = nsamples;
      swap_interval = swap_interval;
      ms_logging_refresh = to_uint (truncate (mul rate (of_nat 1000)));
      n_job_types = n_job_types;
      use_initial = use_initial;
      initial = initial;
      optimal_accept_rate = optimal_accept_rate;
      optimal_swap_rate = optimal_swap_rate;
      output_path = output_path;
      proposal_bounds = proposal_bounds;
    })
