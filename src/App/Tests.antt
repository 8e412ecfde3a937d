-- ===== src/App/Tests.antt =====
-- The theorems on the run of the sampler, its settings and the resources at small inputs.
use stateline.Comms.Delegator.Scenario.{busy_worker, first_job, second_job}
use stateline.Comms.Delegator.State.{Job}
use stateline.Comms.Delegator.Polling.{job_message}
use stateline.Comms.Minion.{hello_range, read_sample}
use stateline.Comms.Messages.{Message, bytes}
use stateline.Common.Text.{split_vector}
use stateline.Std.Decimal.{stoul}
use stateline.Std.Key.{Str}
use stateline.Comms.Pipeline.Sample.{read_number, print_number, five_more}
use stateline.App.WorkerWrapper.{run_minion}
use stateline.App.WorkerWrapper.Loop.{Matches, run_minion_ok}
use stateline.Prelude.{map, ok}
use stateline.Prelude.{ℕ, ◌≡◌, refl, true, List, [], ◌∷◌, arith, ◌+◌, some}
use stateline.Infer.Numbers.{numbers}
use stateline.App.ServerWrapper.{StatelineSettings}
use stateline.App.Api.{set, get}
use stateline.App.Api.Resources.{get-set}
use stateline.App.Settings.{Json, from_json}
use stateline.App.Settings.Reading.{IsRead, from_json-IsRead}

-- `a` is set to 7, whose text is the byte 55.
get-set_example :
    (get (97 ∷ []) (set (λ n. (n + 48) ∷ []) (97 ∷ []) 7 (record { resources = [] }))).0 ≡ 55 ∷ []
get-set_example = get-set (λ n. (n + 48) ∷ []) (97 ∷ []) (97 ∷ []) 7 (record { resources = [] })

-- A file in which every number is 2 and every list is 0, 8.
abbrev two_json : Json numbers
two_json = record {
  Value = ℕ;
  get_uint = λ j name. some 2;
  get_double = λ j name. some 2;
  get_bool = λ j name. some true;
  get_text = λ j name. some [];
  get_doubles = λ j name. some (0 ∷ 8 ∷ []);
}

abbrev two_settings : StatelineSettings numbers
two_settings = record {
  ndims = 2;
  nstacks = 2;
  ntemps = 2;
  nsamples = 2;
  swap_interval = 2;
  ms_logging_refresh = 2000;
  n_job_types = 2;
  use_initial = true;
  initial = 0 ∷ 8 ∷ [];
  optimal_accept_rate = 2;
  optimal_swap_rate = 2;
  output_path = [];
  proposal_bounds = record { lower = 0 ∷ 8 ∷ []; upper = 0 ∷ 8 ∷ [] };
}

from_json-IsRead_example : IsRead two_json 0 [] two_settings
unfolding from_json
from_json-IsRead_example = from_json-IsRead two_json 0 [] two_settings refl

abbrev two_jobs : List (Job × Str)
two_jobs = (first_job, bytes "2") ∷ (second_job, bytes "3") ∷ []

run_minion_ok_example :
    (results : List Message) × (run_minion read_number print_number five_more
        (0, 2)
        (map (λ (p : Job × Str). job_message busy_worker p.0 p.1) two_jobs)
      ≡ ok (hello_range (0, 2) ∷ results))
    × Matches read_number print_number five_more two_jobs results
unfolding read_sample split_vector stoul
run_minion_ok_example =
    run_minion_ok read_number print_number five_more busy_worker (0, 2) two_jobs
      ((omega arith, (2 ∷ [], refl)), ((omega arith, (3 ∷ [], refl)), tt))
