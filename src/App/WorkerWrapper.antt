-- ===== src/App/WorkerWrapper.antt =====
-- app/workerwrapper.cpp: `runMinion`. The likelihood is a parameter, and so are `std::stod` and
-- `std::to_string` of a `double`. The messages are those that arrive while `running` is set.
pub mod Loop
use stateline.Prelude.{ℕ, List, [], ◌∷◌, Result, ok, ◌>>=◌}
use stateline.Std.Key.{Str}
use stateline.Comms.Messages.{Message}
use stateline.Comms.Minion.{Minion, hello_range, next_job, submit_result}

module _ {Real : Type 0} (stod : Str → Result Real) (print : Real → Str)
    (likelihood : ℕ → List Real → Real) where
  -- The messages that the loop sends.
  unfoldable pub minion_loop : List Message → Minion → Result (List Message)
  minion_loop [] minion = ok []
  minion_loop (r ∷ rs) minion = do
    ((job_type, sample), minion') ← next_job stod r minion
    results ← minion_loop rs minion'
    ok (submit_result print (likelihood job_type sample) minion' ∷ results)

  -- With the message of the minion's constructor.
  unfoldable pub run_minion : ℕ × ℕ → List Message → Result (List Message)
  unfolding minion_loop
  run_minion range rs = do
    results ← minion_loop rs (record { current_job = [] })
    ok (hello_range range ∷ results)
