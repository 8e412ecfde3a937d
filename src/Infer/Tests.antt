-- ===== src/Infer/Tests.antt =====
-- The theorems on the convergence test and the table log at small inputs.
use stateline.Prelude.{ℕ, true, [], ◌∷◌, arith, Returns, ◌≡◌, ok, ◌<◌, int_max}
use stateline.Std.Vector.{at}
use stateline.Infer.Numbers.{numbers}
use stateline.Infer.ChainArray.State.{State, reject}
use stateline.Infer.Diagnostics.{EpsrDiagnostic, update}
use stateline.Infer.Diagnostics
use stateline.Infer.Diagnostics.Counts.{Counted, HasRoom, create-HasColumns, update-Counted}
use stateline.Infer.TableLog.{TableLogger}
use stateline.Infer.TableLog
use stateline.Infer.TableLog.Counters.{Logged, create-HasRows, update-Logged}

abbrev point : State numbers
point = record {
  sample = 3 ∷ [];
  energy = 4;
  sigma = 1;
  beta = 1;
  accepted = true;
  swap_type = reject;
}

-- Two stacks of three chains.
abbrev diagnostic : EpsrDiagnostic numbers
diagnostic = Diagnostics.create 2 3 1 2

zero-room : (n : ℕ) → at (0 ∷ 0 ∷ []) 1 ≡ ok n → n < int_max
unfolding at
zero-room n e = let none : 0 ≡ n = cc e in omega (arith, none)

diagnostic-HasRoom : HasRoom 3 diagnostic
unfolding Diagnostics.create
diagnostic-HasRoom n e = zero-room n e

update-Counted_example : Returns (Counted 2 3 diagnostic) (update 3 point diagnostic)
unfolding Diagnostics.create
update-Counted_example =
    update-Counted 2 3 point diagnostic (omega arith) (omega arith) (create-HasColumns 2 3 1 2)
      diagnostic-HasRoom

abbrev log : TableLogger numbers
log = TableLog.create 2 3 1 500

log-HasRoom : HasRoom 4 log.diagnostic
unfolding TableLog.create Diagnostics.create
log-HasRoom n e = zero-room n e

update-Logged_example : Returns (Logged 2 3 4 1 0 1 log) (TableLog.update 9 4 point log)
update-Logged_example =
    update-Logged 2 3 9 4 point log (omega arith) (omega arith)
      (create-HasRows 2 3 1 500 (omega arith)) log-HasRoom
