-- ===== src/Comms/Delegator/Faults.antt =====
-- Where the handlers of the delegator end in a fault, and what they pass over.
use stateline.Prelude.{
  ℕ, ◌≡◌, false, List, [], ◌∷◌, none, some, arith, if◌then◌else◌, ok, err, out_of_range,
  undefined_behaviour,
}
use stateline.Std.Key.{Str, str_key, nat_key}
use stateline.Std.Map.{find, contains}
use stateline.Std.Map.Order.{find-erase_self, IsSorted}
use stateline.Std.Map.Laws.{at_or_insert_found, at_or_insert_missing, find-Entries}
use stateline.Comms.Messages.{Message}
use stateline.Comms.Socket.{send}
use stateline.Comms.Delegator.State.{
  Job, Request, Worker, Delegator, Zmq, default_job, default_request, front, frame,
}
use stateline.Comms.Delegator.Handlers.{receive_result, accept_result}
use stateline.Comms.Delegator.Schedule.{best_worker}
use stateline.Comms.Delegator.Polling.{job_message, assign, max_jobs, on_poll}
use stateline.Comms.Delegator.Count.{WorkerOk, Inv}

-- The result of a worker that is not connected is passed over.
pub receive_result_unknown_worker :
    (zmq : Zmq) (now : ℕ) (k : Str) (msg : Message) (s : Delegator)
    → front msg.address ≡ ok k
    → find k s.workers ≡ none
    → receive_result zmq now msg s ≡ ok s
unfolding receive_result
receive_result_unknown_worker zmq now k msg s a e = ground arith

accept_result_unknown_job :
    (zmq : Zmq) (now : ℕ) (k job_id text : Str) (w : Worker) (msg : Message) (s : Delegator)
    → frame msg.frames 0 ≡ ok job_id
    → frame msg.frames 1 ≡ ok text
    → find job_id w.work_in_progress ≡ none
    → find [] s.requests ≡ none
    → accept_result zmq now k w msg s
      ≡ err (if contains 0 w.times then undefined_behaviour else out_of_range)
unfolding accept_result contains
accept_result_unknown_job zmq now k job_id text w msg s f₀ f₁ e q =
    rw (f₀, accept_result)
      (rw (at_or_insert_missing job_id default_job w.work_in_progress e)
        (rw (at_or_insert_missing [] default_request s.requests q) (ground arith)))

-- While no request with the empty id is pending, a connected worker's result for a job that it does
-- not have in progress ends the handler in a fault: the empty job that `operator[]` makes up has type
-- 0 and belongs to the request with the empty id, which is made up too and has no slot.
pub receive_result_unknown_job :
    (zmq : Zmq) (now : ℕ) (k job_id text : Str) (w : Worker) (msg : Message) (s : Delegator)
    → front msg.address ≡ ok k
    → frame msg.frames 0 ≡ ok job_id
    → frame msg.frames 1 ≡ ok text
    → find k s.workers ≡ some w
    → find job_id w.work_in_progress ≡ none
    → find [] s.requests ≡ none
    → receive_result zmq now msg s
      ≡ err (if contains 0 w.times then undefined_behaviour else out_of_range)
unfolding receive_result
receive_result_unknown_job zmq now k job_id text w msg s a f₀ f₁ e f q =
    ground (arith, accept_result_unknown_job zmq now k job_id text w msg s f₀ f₁ f q)

assign_refused :
    (zmq : Zmq) (now : ℕ) (j : Job) (k : Str) (w : Worker) (r : Request) (s : Delegator)
    → IsSorted s.workers
    → WorkerOk k w
    → zmq.accepts_network (job_message w j r.content) ≡ false
    → find k s.workers ≡ some w
    → find j.requester_id s.requests ≡ some r
    → assign zmq now j k s ≡ err undefined_behaviour
unfolding assign send
assign_refused zmq now j k w r s sorted ok_w refused e f = ground (
  arith,
  at_or_insert_found j.requester_id default_request r s.requests f,
  find-erase_self k s.workers sorted,
  ok_w.address_ok,
)

-- If ZeroMQ refuses the JOB message for the first job of the queue, `onPoll` ends in a fault: the
-- fallback of the send disconnects the worker, whose record the loop then uses.
pub on_poll_refused :
    (zmq : Zmq) (now : ℕ) (j : Job) (jobs : List Job) (k : Str) (w : Worker) (r : Request)
    (s : Delegator)
    → Inv s
    → s.job_queue ≡ j ∷ jobs
    → best_worker j.type max_jobs s.workers ≡ ok (some k)
    → find k s.workers ≡ some w
    → find j.requester_id s.requests ≡ some r
    → zmq.accepts_network (job_message w j r.content) ≡ false
    → on_poll zmq now s ≡ err undefined_behaviour
unfolding on_poll
on_poll_refused zmq now j jobs k w r s v q b e f refused = rw q (
    rw b (
      rw (
        assign_refused zmq now j k w r (record s { job_queue = [] }) v.workers_sorted
          (find-Entries WorkerOk k w s.workers v.workers_ok e) refused e f)))
