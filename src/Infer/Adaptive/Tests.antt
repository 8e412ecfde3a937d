-- ===== src/Infer/Adaptive/Tests.antt =====
-- The theorems on the adapters at a stack of two chains.
use stateline.Prelude.{true, arith, Returns}
use stateline.Infer.Numbers.{numbers}
use stateline.Infer.Adaptive.Regression.{RegressionAdapter, update}
use stateline.Infer.Adaptive.Regression
use stateline.Infer.Adaptive.Regression.Shape.{IsSound, create-IsSound, update-IsSound}

abbrev adapter : RegressionAdapter numbers
adapter = Regression.create 1 2 2 0 9

update-IsSound_example : Returns (IsSound 1 2) (update 1 3 4 true adapter)
update-IsSound_example =
    update-IsSound 1 2 (omega arith) 1 3 4 true adapter (omega arith)
      (create-IsSound 1 2 2 0 9 (omega arith))
