-- ===== src/Comms/Delegator/Polling.antt =====
-- comms/delegator.cpp: `onPoll`, which hands the queued jobs to workers.
use stateline.Prelude.{
  ℕ, List, [], ◌∷◌, ◌++◌, none, some, Result, ok, ◌>>=◌, or_fault, undefined_behaviour,
}
use stateline.Std.Key.{Str, str_key, nat_key}
use stateline.Std.Map.{find, insert, update, at_or_insert}
use stateline.Std.Decimal.{to_string}
use stateline.Comms.Messages.{Message, job}
use stateline.Comms.Delegator.State.{Job, Worker, Delegator, Zmq, default_request}
use stateline.Comms.Delegator.Schedule.{best_worker}
use stateline.Comms.Delegator.Handlers.{network_send}

abbrev pub max_jobs : ℕ
max_jobs = 10

abbrev pub job_message : Worker → Job → Str → Message
job_message w j content = record {
  address = w.address;
  subject = job;
  frames = to_string j.type ∷ j.id ∷ content ∷ [];
}

-- The body of the loop of `onPoll` for a job and the worker that was chosen. The worker is a
-- pointer into the map: it is read again after the send, which may have erased it.
unfoldable pub assign : Zmq → ℕ → Job → Str → Delegator → Result Delegator
unfolding network_send
assign zmq now j worker_id s = do
  let (r, requests) = at_or_insert j.requester_id default_request s.requests
  w ← or_fault (find worker_id s.workers) undefined_behaviour
  s' ← network_send zmq (job_message w j r.content) (record s { requests = requests })
  w' ← or_fault (find worker_id s'.workers) undefined_behaviour
  let started = record j { start_time = now }
  ok (record s' {
    workers =
        update worker_id (record w' { work_in_progress = insert j.id started w'.work_in_progress })
          s'.workers;
  })

-- The loop of `onPoll`. `job_queue` holds the jobs that the iterator has passed and left in the
-- list; those in front of it are the argument.
unfoldable pub visit : Zmq → ℕ → Job → Delegator → Result Delegator
unfolding assign
visit zmq now j s = do
  best ← best_worker j.type max_jobs s.workers
  elim best [
    | none ↦ ok (record s { job_queue = s.job_queue ++ j ∷ [] })
    | some worker_id ↦ assign zmq now j worker_id s
  ]

unfoldable pub visit_all : Zmq → ℕ → List Job → Delegator → Result Delegator
unfolding visit
visit_all zmq now [] s = ok s
visit_all zmq now (j ∷ jobs) s = visit zmq now j s >>= visit_all zmq now jobs

unfoldable pub on_poll : Zmq → ℕ → Delegator → Result Delegator
unfolding visit_all
on_poll zmq now s = visit_all zmq now s.job_queue (record s { job_queue = [] })
