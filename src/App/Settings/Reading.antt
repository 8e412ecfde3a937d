-- ===== src/App/Settings/Reading.antt =====
-- The fields that settings are read from.
use stateline.Prelude.{
  ◌≡◌, refl, sym, ap, ◌==◌, to_uint, Bool-cases, inl, inr, Option, none, some, List, length, ==_iff,
  Result, ok, ◌>>=◌, >>=-eq-ok, Bool, true, false, wrap,
}
use mathlib.Core.Path.{subst}
use stateline.Infer.Doubles.{Doubles}
use stateline.Infer.Adaptive.Shaper.{ProposalBounds}
use stateline.App.ServerWrapper.{StatelineSettings}
use stateline.App.Settings.{
  Json, read_settings, to_vector, proposal_bounds_from_json, initial_from_json, from_json,
  n_stacks_field, n_temperatures_field, n_samples_total_field, swap_interval_field,
  logging_rate_sec_field, n_job_types_field, output_path_field, optimal_accept_rate_field,
  optimal_swap_rate_field, use_initial_field, lower_field, upper_field, initial_field,
}

-- To show a consequence of two calls that return, of which the first reads a field.
field_read {κ ℓ μ} :
    {T : Type κ} {S : Type ℓ} {C : Type μ} (o : Option T) (next : T → Result S) {last : S}
    → (read_settings o >>= next) ≡ ok last
    → ((value : T) → o ≡ some value → next value ≡ ok last → C)
    → C
unfolding read_settings
field_read none next e done = absurd cc
field_read (some value) next e done = done value refl e

ok_injective {ℓ} : {T : Type ℓ} {a b : T} → ok a ≡ ok b → a ≡ b
ok_injective e = cc

module _ {F : Doubles} (json : Json F) where
  -- Where the initial sample comes from, by whether it is used.
  abbrev pub IsInitial : json.Value → (unset : F.Vector) → Bool → F.Vector → Type 0
  IsInitial j unset true initial =
      (xs : List F.Real) × (json.get_doubles j initial_field ≡ some xs)
      × (initial ≡ to_vector json xs)
  IsInitial j unset false initial = initial ≡ unset

  initial_from_json-IsInitial :
      (j : json.Value) (used : Bool) (unset initial : F.Vector)
      → initial_from_json json j used unset ≡ ok initial
      → IsInitial j unset used initial
  unfolding initial_from_json
  initial_from_json-IsInitial j true unset initial e =
      field_read (json.get_doubles j initial_field) _ e
        (λ xs read done. (xs, read, sym (ok_injective done)))
  initial_from_json-IsInitial j false unset initial e = sym (ok_injective e)

  -- Where the fields of settings come from; `unset` is an initial sample that was never assigned.
  pub record IsRead (j : json.Value) (unset : F.Vector) (s : StatelineSettings F) : Type 0 where
    pub rate : F.Real
    pub vmin : List F.Real
    pub vmax : List F.Real
    pub stacks_read : json.get_uint j n_stacks_field ≡ some s.nstacks
    pub temps_read : json.get_uint j n_temperatures_field ≡ some s.ntemps
    pub samples_read : json.get_uint j n_samples_total_field ≡ some s.nsamples
    pub interval_read : json.get_uint j swap_interval_field ≡ some s.swap_interval
    pub rate_read : json.get_double j logging_rate_sec_field ≡ some rate
    pub refresh_eq : s.ms_logging_refresh ≡ to_uint (F.truncate (F.mul rate (F.of_nat 1000)))
    pub types_read : json.get_uint j n_job_types_field ≡ some s.n_job_types
    pub path_read : json.get_text j output_path_field ≡ some s.output_path
    pub accept_read : json.get_double j optimal_accept_rate_field ≡ some s.optimal_accept_rate
    pub swap_read : json.get_double j optimal_swap_rate_field ≡ some s.optimal_swap_rate
    pub initial_read : json.get_bool j use_initial_field ≡ some s.use_initial
    pub initial_eq : IsInitial j unset s.use_initial s.initial
    pub min_read : json.get_doubles j lower_field ≡ some vmin
    pub max_read : json.get_doubles j upper_field ≡ some vmax
    pub same_length : length vmin ≡ length vmax
    pub lower_eq : s.proposal_bounds.lower ≡ to_vector json vmin
    pub upper_eq : s.proposal_bounds.upper ≡ to_vector json vmax
    pub ndims_eq : s.ndims ≡ wrap (F.size (to_vector json vmin))

  bounds_read :
      (j : json.Value) (b : ProposalBounds F)
      → proposal_bounds_from_json json j ≡ ok b
      → (vmin vmax : List F.Real) × (json.get_doubles j lower_field ≡ some vmin)
        × (json.get_doubles j upper_field ≡ some vmax)
        × (length vmin ≡ length vmax)
        × (b.lower ≡ to_vector json vmin)
        × (b.upper ≡ to_vector json vmax)
  unfolding proposal_bounds_from_json
  bounds_read j b e = field_read (json.get_doubles j lower_field) _ e (λ vmin e₁ r₁.
      field_read (json.get_doubles j upper_field) _ r₁ (λ vmax e₂ r₂.
        elim (Bool-cases (length vmin == length vmax)) [
          | inl same ↦
              let read : ProposalBounds F = record {
                lower = to_vector json vmin;
                upper = to_vector json vmax;
              } in
              let both : read ≡ b = cc (rw same at r₂) in
              (
                vmin,
                vmax,
                e₁,
                e₂,
                (==_iff (length vmin) (length vmax)).0 same,
                ap (λ p. p.lower) (sym both),
                ap (λ p. p.upper) (sym both),
              )
          | inr differ ↦ absurd (cc (rw differ at r₂))
        ]))

  -- If `fromJSON` returns settings, every field that it reads is there and is what the settings have,
  -- the initial sample among them if the file says that it is used; the bounds are two lists of the
  -- same length, and the number of dimensions is the size of the lower one, modulo 2 ^ 32.
  pub from_json-IsRead :
      (j : json.Value) (unset : F.Vector) (s : StatelineSettings F)
      → from_json json j unset ≡ ok s
      → IsRead j unset s
  unfolding from_json
  from_json-IsRead j unset s e = field_read (json.get_uint j n_stacks_field) _ e (λ nstacks e₁ r₁.
      field_read (json.get_uint j n_temperatures_field) _ r₁ (λ ntemps e₂ r₂.
        field_read (json.get_uint j n_samples_total_field) _ r₂ (λ nsamples e₃ r₃.
          field_read (json.get_uint j swap_interval_field) _ r₃ (λ interval e₄ r₄.
            field_read (json.get_double j logging_rate_sec_field) _ r₄ (λ rate e₅ r₅.
              field_read (json.get_uint j n_job_types_field) _ r₅ (λ types e₆ r₆.
                field_read (json.get_text j output_path_field) _ r₆ (λ path e₇ r₇.
                  field_read (json.get_double j optimal_accept_rate_field) _ r₇ (λ accept e₈ r₈.
                    field_read (json.get_double j optimal_swap_rate_field) _ r₈ (λ swap e₉ r₉.
                      field_read (json.get_bool j use_initial_field) _ r₉ (λ used e₁₀ r₁₀.
                        (let (initial, first, r₁₁) =
                            >>=-eq-ok (initial_from_json json j used unset) _ r₁₀ in
                          let (bounds, b, r₁₂) =
                            >>=-eq-ok (proposal_bounds_from_json json j) _ r₁₁ in
                          let (vmin, vmax, m₁, m₂, same, lower, upper) = bounds_read j bounds b in
                          subst (IsRead j unset) (ok_injective r₁₂) (record {
                            rate = rate;
                            vmin = vmin;
                            vmax = vmax;
                            stacks_read = e₁;
                            temps_read = e₂;
                            samples_read = e₃;
                            interval_read = e₄;
                            rate_read = e₅;
                            refresh_eq = refl;
                            types_read = e₆;
                            path_read = e₇;
                            accept_read = e₈;
                            swap_read = e₉;
                            initial_read = e₁₀;
                            initial_eq = initial_from_json-IsInitial j used unset initial first;
                            min_read = m₁;
                            max_read = m₂;
                            same_length = same;
                            lower_eq = lower;
                            upper_eq = upper;
                            ndims_eq = ap (λ v. wrap (F.size v)) lower;
                          }))))))))))))
