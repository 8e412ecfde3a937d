-- ===== src/Comms/Delegator/Estimates.antt =====
-- comms/delegator.cpp: the time estimates of a worker whose maps are complete.
use stateline.Prelude.{ℕ, ◌+◌, ◌<◌, ◌≡◌, refl, true, [], ◌∷◌, arith, length, wrap, ok}
use stateline.Std.Key.{Str, str_key, nat_key}
use stateline.Std.Map.{Map}
use stateline.Std.Map.Laws.{Entries}
use stateline.Comms.Delegator.State.{Job, Worker}
use stateline.Comms.Delegator.Schedule.{average, time_for_job, add_times, us_till_done, eligible}
use stateline.Comms.Delegator.Count.{InRange, IsPlaced, IsTimed}

time_for_job_ok :
    (w : Worker) (t : ℕ) → IsTimed w → InRange w t → (d : ℕ) × (time_for_job w t ≡ ok d)
unfolding time_for_job
time_for_job_ok w t timed r = let (b, e, _, _) = timed t r in (average b, rw e)

add_times_ok :
    (w : Worker) (t : ℕ) (m : Map Str Job)
    → IsTimed w
    → Entries (IsPlaced w) m
    → (d : ℕ) × (add_times w t m ≡ ok d)
unfolding add_times
add_times_ok w t [] timed h = (t, refl)
add_times_ok w t ((k, j) ∷ m) timed h =
    let (d, e) = time_for_job_ok w j.type timed h.0.1 in
    let (d', e') = add_times_ok w (wrap (t + d)) m timed h.1 in (d', rw e e')

-- The estimate of a good worker for a type that it takes is a number.
pub us_till_done_ok :
    (w : Worker) (t : ℕ)
    → IsTimed w
    → Entries (IsPlaced w) w.work_in_progress
    → InRange w t
    → (d : ℕ) × (us_till_done w t ≡ ok d)
unfolding us_till_done
us_till_done_ok w t timed h r =
    let (d, e) = add_times_ok w 0 w.work_in_progress timed h in
    let (d', e') = time_for_job_ok w t timed r in (wrap (d + d'), rw (e, e'))

pub eligible-InRange :
    (t most : ℕ) (w : Worker)
    → eligible t most w ≡ true
    → InRange w t × (length w.work_in_progress < most)
unfolding eligible
eligible-InRange t most w h = ground arith
