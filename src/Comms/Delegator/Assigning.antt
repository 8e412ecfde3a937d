-- ===== src/Comms/Delegator/Assigning.antt =====
-- One job of `onPoll` is sent to a worker.
use stateline.Comms.Socket.{send}
use stateline.Comms.Delegator.Keeping.{
  SameJobs, Inv-of_SameJobs, KeepsWork, replies-append, replies,
}
use stateline.Prelude.{
  ℕ, ◌<◌, ◌≡◌, refl, ◌∙◌, inl, inr, true, List, [], ◌∷◌, ◌++◌, append-nil, none, some, arith,
  length, ok, Bool-cases,
}
use mathlib.Core.List.{Memᴰ}
use mathlib.Core.List.Memᴰ
use stateline.Std.Key.{Str, str_eq, str_key}
use stateline.Std.Map.{find, insert, update}
use stateline.Std.Map.Order.{update-IsSorted, insert-IsSorted}
use stateline.Std.Map.Laws.{
  sum_values-update, sum_values-insert, find-Entries, find-insert, find-update, update-Entries,
  insert-Entries, length-insert, at_or_insert_found,
}
use stateline.Comms.Messages.{Message}
use stateline.Comms.Delegator.State.{
  Job, Request, Worker, Delegator, Zmq, to_network, default_request,
}
use stateline.Comms.Delegator.Polling.{job_message, assign, max_jobs}
use stateline.Comms.Delegator.Count.{
  count, working, named, InRange, IsPlaced, WorkerOk, Inv, AllTold, sum_list-append, working-le,
  find-none_of_named, str_eq_refl,
}

-- The state while the loop runs, with the jobs in front of the iterator put back.
abbrev pub pause : Delegator → List Job → Delegator
pause s jobs = record s { job_queue = s.job_queue ++ jobs }

abbrev pub AcceptsNetwork : Zmq → Type 0
AcceptsNetwork zmq = (m : Message) → zmq.accepts_network m ≡ true

abbrev pub start : ℕ → Job → Job
start now j = record j { start_time = now }

abbrev pub with_job : ℕ → Job → Worker → Worker
with_job now j w = record w { work_in_progress = insert j.id (start now j) w.work_in_progress }

-- The state after the job was sent to the worker.
abbrev pub assigned : ℕ → Job → Str → Worker → Request → Delegator → Delegator
assigned now j k w r s = record s {
  workers = update k (with_job now j w) s.workers;
  sent = s.sent ++ to_network (job_message w j r.content) ∷ [];
}

pub assign_ok :
    (zmq : Zmq) (now : ℕ) (j : Job) (k : Str) (w : Worker) (r : Request) (s : Delegator)
    → zmq.accepts_network (job_message w j r.content) ≡ true
    → find k s.workers ≡ some w
    → find j.requester_id s.requests ≡ some r
    → assign zmq now j k s ≡ ok (assigned now j k w r s)
unfolding assign send
assign_ok zmq now j k w r s accepts e f =
    rw (at_or_insert_found j.requester_id default_request r s.requests f, assign) (ground arith)

module _ (now : ℕ) (j : Job) (k : Str) (w : Worker) (r : Request) (s : Delegator) (jobs : List Job)
    (v : Inv (pause s (j ∷ jobs))) (e : find k s.workers ≡ some w) where
  -- The job is not in progress yet: its id is unique.
  not_in_progress : find j.id w.work_in_progress ≡ none
  unfolding count
  not_in_progress =
      find-none_of_named w j.id w.work_in_progress
        (find-Entries WorkerOk k w s.workers v.workers_ok e).placed
        (omega (
          arith,
          v.unique j.id,
          sum_list-append (named j.id) s.job_queue (j ∷ jobs),
          working-le (named j.id) k w s.workers e,
          named_self,
        ))
    where
      named_self : named j.id j ≡ 1
      named_self = rw (str_eq_refl j.id)

  assigned-SameJobs : SameJobs (pause s (j ∷ jobs)) (pause (assigned now j k w r s) jobs)
  unfolding count
  assigned-SameJobs p timeless = omega (
    arith,
    sum_list-append p s.job_queue (j ∷ jobs),
    sum_list-append p s.job_queue jobs,
    sum_values-update (working p) k (with_job now j w) w s.workers e,
    sum_values-insert p j.id (start now j) w.work_in_progress not_in_progress,
    timeless j now,
  )

  pub assigned-KeepsWork : KeepsWork (pause s (j ∷ jobs)) (pause (assigned now j k w r s) jobs)
  unfolding replies
  assigned-KeepsWork = record {
    same_jobs = assigned-SameJobs;
    same_requests = refl;
    same_replies = replies-append s.sent _ ∙ append-nil (replies s.sent);
  }

  with_job-WorkerOk :
      InRange w j.type → length w.work_in_progress < max_jobs → WorkerOk k (with_job now j w)
  with_job-WorkerOk fits room =
      let old = find-Entries WorkerOk k w s.workers v.workers_ok e in
      record {
        address_ok = old.address_ok;
        timed = old.timed;
        placed =
            insert-Entries (IsPlaced w) j.id (start now j) w.work_in_progress (refl, fits)
              old.placed;
        jobs_sorted = insert-IsSorted j.id (start now j) w.work_in_progress old.jobs_sorted;
        bounded =
            omega (arith, length-insert j.id (start now j) w.work_in_progress not_in_progress);
      }

  -- The new job was just sent, and the others before.
  job_told :
      find j.requester_id s.requests ≡ some r
      → (n : Str) (j' : Job) (r' : Request) → find n (with_job now j w).work_in_progress ≡ some j'
      → find j'.requester_id s.requests ≡ some r'
      → Memᴰ
          (to_network (job_message w j' r'.content))
          (s.sent ++ to_network (job_message w j r.content) ∷ [])
  job_told q n j' r' f' q' =
      let found = rw (find-insert n j.id (start now j) w.work_in_progress not_in_progress) at f' in
      elim (Bool-cases (str_eq n j.id)) [
        | inl same ↦
            let mine : start now j ≡ j' = ground (arith, rw same at found) in
            let asked : r ≡ r' = ground (arith, q, rw (← mine) at q') in
            Memᴰ.append_right s.sent (Memᴰ.head (rw (← mine, ← asked) refl))
        | inr other ↦ Memᴰ.append_left _ (v.told k n w j' r' e (rw other at found) q')
      ]

  assigned_told :
      find j.requester_id s.requests ≡ some r → AllTold (pause (assigned now j k w r s) jobs)
  assigned_told q i n w' j' r' e' f' q' =
      let found = rw (find-update i k (with_job now j w) w s.workers e) at e' in
      elim (Bool-cases (str_eq i k)) [
        | inl same ↦
            let mine : with_job now j w ≡ w' = ground (arith, rw same at found) in
            rw (← mine) (job_told q n j' r' (rw (← mine) at f') q')
        | inr other ↦ Memᴰ.append_left _ (v.told i n w' j' r' (rw other at found) f' q')
      ]

  pub assigned-Inv :
      find j.requester_id s.requests ≡ some r
      → InRange w j.type
      → length w.work_in_progress < max_jobs
      → Inv (pause (assigned now j k w r s) jobs)
  assigned-Inv q fits room =
      Inv-of_SameJobs (pause s (j ∷ jobs)) (pause (assigned now j k w r s) jobs) v refl refl
        assigned-SameJobs (update-IsSorted k (with_job now j w) s.workers v.workers_sorted)
        (update-Entries WorkerOk k (with_job now j w) s.workers (with_job-WorkerOk fits room)
          v.workers_ok)
        (assigned_told q)
