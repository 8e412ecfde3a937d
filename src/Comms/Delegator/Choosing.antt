-- ===== src/Comms/Delegator/Choosing.antt =====
-- `bestWorker` returns, and what it returns is a best worker.
use stateline.Comms.Delegator.Estimates.{us_till_done_ok, eligible-InRange}
use stateline.Prelude.{
  ℕ, ◌-◌, ◌≡◌, refl, inl, inr, [], ◌∷◌, Option, none, some, ltb, if◌then◌else◌, uint_mod, ok,
  Bool-cases,
}
use stateline.Std.Key.{Str, str_key, nat_key}
use stateline.Std.Map.Order.{IsSorted}
use stateline.Std.Map.{Map}
use stateline.Std.Map.Laws.{Entries}
use stateline.Comms.Delegator.State.{Worker}
use stateline.Comms.Delegator.Schedule.{eligible, consider, best_from, best_worker}
use stateline.Comms.Delegator.Count.{WorkerOk}
use stateline.Comms.Delegator.Choice.{IsChoice, best_worker-IsChoice}

consider_ok :
    (job_type most : ℕ) (k : Str) (w : Worker) (best : Option Str × ℕ)
    → WorkerOk k w
    → (r : Option Str × ℕ) × (consider job_type most k w best ≡ ok r)
unfolding consider
consider_ok job_type most k w (b, t) h = elim (Bool-cases (eligible job_type most w)) [
  | inl fits ↦
      let (d, e) =
        us_till_done_ok w job_type h.timed h.placed (eligible-InRange job_type most w fits).0 in
      (if ltb d t then (some k, d) else (b, t), rw fits (rw e))
  | inr out ↦ ((b, t), rw out)
]

best_from_ok :
    (job_type most : ℕ) (ws : Map Str Worker) (best : Option Str × ℕ)
    → Entries WorkerOk ws
    → (r : Option Str × ℕ) × (best_from job_type most best ws ≡ ok r)
unfolding best_from
best_from_ok job_type most [] best h = (best, refl)
best_from_ok job_type most ((k, w) ∷ ws) best h =
    let (r, e) = consider_ok job_type most k w best h.0 in
    let (r', e') = best_from_ok job_type most ws r h.1 in (r', rw e e')

-- On good workers `best_worker` returns.
best_worker_ok :
    (job_type most : ℕ) (ws : Map Str Worker)
    → Entries WorkerOk ws
    → (b : Option Str) × (best_worker job_type most ws ≡ ok b)
unfolding best_worker
best_worker_ok job_type most ws h =
    let (r, e) = best_from_ok job_type most ws (none, uint_mod - 1) h in (r.0, rw e)

-- On a sorted map of well-formed workers `bestWorker` returns. It returns an eligible worker with
-- the least estimated time among the eligible ones, or none if the estimate of each eligible
-- worker is the greatest `uint` at least.
pub best_worker_chooses :
    (job_type most : ℕ) (ws : Map Str Worker)
    → IsSorted ws
    → Entries WorkerOk ws
    → (b : Option Str) × (best_worker job_type most ws ≡ ok b) × IsChoice job_type most ws b
best_worker_chooses job_type most ws sorted h =
    let (b, e) = best_worker_ok job_type most ws h in
    (b, e, best_worker-IsChoice job_type most ws b sorted e)
