-- ===== src/Comms/Delegator/Schedule.antt =====
-- comms/delegator.cpp: the estimates of a worker's remaining time, and the choice of a worker.
use stateline.Prelude.{
  ℕ, ◌+◌, ◌-◌, ◌/◌, Bool, ◌&&◌, List, [], ◌∷◌, Option, none, some, length, ltb, leb, if◌then◌else◌,
  uint_mod, wrap, Result, ok, ◌>>=◌, or_fault, out_of_range,
}
use stateline.Std.Key.{Str, nat_key}
use stateline.Std.Map.{Map, find}
use stateline.Common.CircularBuffer.{CircularBuffer, size}
use stateline.Comms.Delegator.State.{Job, Worker}

-- `std::accumulate` from 0.
unfoldable pub accumulate : ℕ → List ℕ → ℕ
accumulate total [] = total
accumulate total (x ∷ xs) = accumulate (wrap (total + x)) xs

unfoldable pub average : CircularBuffer ℕ → ℕ
unfolding accumulate size
average times = if ltb 0 (size times) then accumulate 0 times.buffer / size times else 5

unfoldable pub time_for_job : Worker → ℕ → Result ℕ
unfolding average
time_for_job w job_type = do
  times ← or_fault (find job_type w.times) out_of_range
  ok (average times)

-- The loop of `usTillDone` over the work in progress.
unfoldable pub add_times : Worker → ℕ → Map Str Job → Result ℕ
unfolding time_for_job
add_times w t [] = ok t
add_times w t ((_, j) ∷ jobs) = do d ← time_for_job w j.type; add_times w (wrap (t + d)) jobs

unfoldable pub us_till_done : Worker → ℕ → Result ℕ
unfolding add_times
us_till_done w job_type = do
  t ← add_times w 0 w.work_in_progress
  d ← time_for_job w job_type
  ok (wrap (t + d))

-- The guard of `bestWorker`.
unfoldable pub eligible : (job_type max_jobs : ℕ) → Worker → Bool
eligible job_type max_jobs w =
    leb w.job_types_range.0 job_type
    && ltb job_type w.job_types_range.1
    && ltb (length w.work_in_progress) max_jobs

-- The body of its loop, on the best worker so far and its time. A worker is named by its key.
unfoldable pub consider :
    (job_type max_jobs : ℕ) → Str → Worker → Option Str × ℕ → Result (Option Str × ℕ)
unfolding us_till_done
consider job_type max_jobs k w (best, best_time) =
    if eligible job_type max_jobs w
    then (do
      t ← us_till_done w job_type
      ok (if ltb t best_time then (some k, t) else (best, best_time)))
    else ok (best, best_time)

unfoldable pub best_from :
    (job_type max_jobs : ℕ) → Option Str × ℕ → Map Str Worker → Result (Option Str × ℕ)
unfolding consider
best_from job_type max_jobs best [] = ok best
best_from job_type max_jobs best ((k, w) ∷ workers) = do
  better ← consider job_type max_jobs k w best
  best_from job_type max_jobs better workers

unfoldable pub best_worker : (job_type max_jobs : ℕ) → Map Str Worker → Result (Option Str)
unfolding best_from eligible
best_worker job_type max_jobs workers = do
  best ← best_from job_type max_jobs (none, uint_mod - 1) workers
  ok best.0
