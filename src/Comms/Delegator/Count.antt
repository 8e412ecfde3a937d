-- ===== src/Comms/Delegator/Count.antt =====
-- The jobs that the delegator holds, queued or in progress, counted by a weight `p`, and the
-- invariant of its state in terms of such counts.
use stateline.Prelude.{
  ℕ, ◌+◌, ◌≤◌, ◌<◌, ◌≡◌, refl, true, false, ◌&&◌, List, [], ◌∷◌, ◌++◌, none, some, arith, length,
  leb, if◌then◌else◌, uint_mod, ok,
}
use mathlib.Core.List.{Memᴰ}
use stateline.Std.Key.{Str, str_eq, str_key, nat_key}
use stateline.Std.Map.{Map, find}
use stateline.Std.Map.Order.{IsSorted}
use stateline.Std.Map.Laws.{sum_values, Entries}
use stateline.Std.Decimal.{to_string}
use stateline.Common.CircularBuffer.{CircularBuffer, IsFull}
use stateline.Comms.Delegator.State.{Job, Request, Worker, Delegator, to_network, front}
use stateline.Comms.Delegator.Handlers.{requeue}
use stateline.Comms.Delegator.Polling.{max_jobs, job_message}

abbrev pub Weight : Type 0
Weight = Job → ℕ

abbrev pub sum_list : Weight → List Job → ℕ
sum_list p [] = 0
sum_list p (j ∷ js) = p j + sum_list p js

-- The weight of a worker's jobs in progress.
abbrev pub working : Weight → Worker → ℕ
working p w = sum_values p w.work_in_progress

-- The weight of all jobs, queued and in progress.
unfoldable pub count : Weight → Delegator → ℕ
count p s = sum_list p s.job_queue + sum_values (working p) s.workers

-- The jobs of a request, those of one id, and those of a request with an index from `n` on.
abbrev pub owned : Str → Weight
owned id j = if str_eq j.requester_id id then 1 else 0

abbrev pub named : Str → Weight
named id j = if str_eq j.id id then 1 else 0

abbrev pub beyond : Str → ℕ → Weight
beyond id n j = if str_eq j.requester_id id && leb n j.requester_index then 1 else 0

-- A weight that does not look at the start time.
abbrev pub IsTimeless : Weight → Type 0
IsTimeless p = (j : Job) (t : ℕ) → p (record j { start_time = t }) ≡ p j

abbrev pub InRange : Worker → ℕ → Type 0
InRange w t = (w.job_types_range.0 ≤ t) × (t < w.job_types_range.1)

-- A job in progress stands under its own id, and the worker takes its type.
abbrev pub IsPlaced : Worker → Str → Job → Type 0
IsPlaced w id j = (j.id ≡ id) × InRange w j.type

abbrev pub IsTimed : Worker → Type 0
IsTimed w =
    (t : ℕ)
    → InRange w t
    → (b : CircularBuffer ℕ) × (find t w.times ≡ some b) × IsFull b × (b.capacity ≡ 10)

pub record WorkerOk (k : Str) (w : Worker) : Type 0 where
  pub address_ok : front w.address ≡ ok k
  pub timed : IsTimed w
  pub placed : Entries (IsPlaced w) w.work_in_progress
  pub jobs_sorted : IsSorted w.work_in_progress
  pub bounded : length w.work_in_progress ≤ max_jobs

-- What a pending request promises: the jobs done and the jobs outstanding add up, and each
-- outstanding job has a slot for its result.
pub record RequestOk (s : Delegator) (id : Str) (r : Request) : Type 0 where
  pub counted : r.n_done + count (owned id) s ≡ length r.job_types
  pub slots : count (beyond id (length r.results)) s ≡ 0
  pub pending : r.n_done < length r.job_types
  pub few : length r.job_types < uint_mod

-- Each job in progress was sent to its worker in a JOB message, with the data of its request.
abbrev pub AllTold : Delegator → Type 0
AllTold s =
    (k job_id : Str) (w : Worker) (j : Job) (r : Request)
    → find k s.workers ≡ some w
    → find job_id w.work_in_progress ≡ some j
    → find j.requester_id s.requests ≡ some r
    → Memᴰ (to_network (job_message w j r.content)) s.sent

pub record Inv (s : Delegator) : Type 0 where
  pub workers_sorted : IsSorted s.workers
  pub requests_sorted : IsSorted s.requests
  pub workers_ok : Entries WorkerOk s.workers
  pub requests_ok : (id : Str) (r : Request) → find id s.requests ≡ some r → RequestOk s id r
  pub no_orphans : (id : Str) → find id s.requests ≡ none → count (owned id) s ≡ 0
  pub unique : (id : Str) → count (named id) s ≤ 1
  pub fresh : (n : ℕ) → s.next_job_id ≤ n → count (named (to_string n)) s ≡ 0
  pub told : AllTold s

pub sum_list-append :
    (p : Weight) (xs ys : List Job) → sum_list p (xs ++ ys) ≡ sum_list p xs + sum_list p ys
sum_list-append p [] ys = omega arith
sum_list-append p (x ∷ xs) ys = omega (arith, sum_list-append p xs ys)

pub sum_list-requeue :
    (p : Weight) (m : Map Str Job) (q : List Job)
    → sum_list p (requeue m q) ≡ sum_values p m + sum_list p q
unfolding requeue
sum_list-requeue p [] q = omega arith
sum_list-requeue p ((k, j) ∷ m) q = omega (arith, sum_list-requeue p m (j ∷ q))

-- What a worker has in progress is part of the whole.
pub working-le :
    (p : Weight) (k : Str) (w : Worker) (m : Map Str Worker)
    → find k m ≡ some w
    → working p w ≤ sum_values (working p) m
unfolding find
working-le p k w [] e = cc
working-le p k w ((i, u) ∷ m) e = ground (arith, working-le p k w m)

pub weight-le :
    (p : Weight) (k : Str) (j : Job) (m : Map Str Job) → find k m ≡ some j → p j ≤ sum_values p m
unfolding find
weight-le p k j [] e = cc
weight-le p k j ((i, u) ∷ m) e = ground (arith, weight-le p k j m)

pub str_eq_refl : (s : Str) → str_eq s s ≡ true
str_eq_refl s = (str_key.eq_iff s s).1 refl

-- A job in progress is among the jobs that are counted.
pub weight-le-count :
    (p : Weight) (k job_id : Str) (w : Worker) (j : Job) (s : Delegator)
    → find k s.workers ≡ some w
    → find job_id w.work_in_progress ≡ some j
    → p j ≤ count p s
unfolding count
weight-le-count p k job_id w j s e f =
    omega (arith, working-le p k w s.workers e, weight-le p job_id j w.work_in_progress f)

pub owned_self : (j : Job) → owned j.requester_id j ≡ 1
owned_self j = rw (str_eq_refl j.requester_id)

-- A job that is placed under `id` counts as named `id`.
pub find-none_of_named :
    (w : Worker) (id : Str) (m : Map Str Job)
    → Entries (IsPlaced w) m
    → sum_values (named id) m ≡ 0
    → find id m ≡ none
unfolding find
find-none_of_named w id [] h e = refl
find-none_of_named w id ((i, j) ∷ m) h e =
    ground (arith, find-none_of_named w id m h.1, str_key.eq_iff id i, str_key.eq_iff j.id id)

-- A greater weight gives a greater count.
module _ (p q : Weight) (le : (j : Job) → p j ≤ q j) where
  pub sum_list_mono : (js : List Job) → sum_list p js ≤ sum_list q js
  sum_list_mono [] = omega arith
  sum_list_mono (j ∷ js) = omega (arith, le j, sum_list_mono js)

  sum_jobs_mono : (m : Map Str Job) → sum_values p m ≤ sum_values q m
  sum_jobs_mono [] = omega arith
  sum_jobs_mono ((k, j) ∷ m) = omega (arith, le j, sum_jobs_mono m)

  sum_workers_mono : (m : Map Str Worker) → sum_values (working p) m ≤ sum_values (working q) m
  sum_workers_mono [] = omega arith
  sum_workers_mono ((k, w) ∷ m) =
      omega (arith, sum_jobs_mono w.work_in_progress, sum_workers_mono m)

  pub count_mono : (s : Delegator) → count p s ≤ count q s
  unfolding count
  count_mono s = omega (arith, sum_list_mono s.job_queue, sum_workers_mono s.workers)

pub str_ne_sym : (s t : Str) → str_eq s t ≡ false → str_eq t s ≡ false
str_ne_sym s t h = ground (arith, str_key.eq_iff s t, str_key.eq_iff t s)
