-- ===== src/Comms/Delegator/Handlers.antt =====
-- comms/delegator.cpp: the handlers of messages. `now` is the time at which a handler runs.
use stateline.Prelude.{
  ℕ, zero, suc, ◌+◌, ◌-◌, max, List, [], ◌∷◌, ◌++◌, none, some, length, set, replicate, ltb, ◌==◌,
  if◌then◌else◌, uint_mod, wrap, to_uint, Result, ok, ◌>>=◌, ◌>>◌, guard, or_fault,
  undefined_behaviour, assertion_failed, out_of_range,
}
use stateline.Std.Key.{Str, str_eq, str_key, nat_key}
use stateline.Std.Map.{Map, find, insert, update, erase, at_or_insert, set_insert}
use stateline.Std.Decimal.{to_string, stoi}
use stateline.Common.Text.{join_str, split_vector, split_set}
use stateline.Common.CircularBuffer.{CircularBuffer}
use stateline.Common.CircularBuffer
use stateline.Comms.Messages.{Message, result}
use stateline.Comms.Socket.{send}
use stateline.Comms.Router.{Callback}
use stateline.Comms.Delegator.State.{
  Job, Request, Worker, to_requester, to_heartbeat, to_network, Delegator, Zmq, default_job,
  default_request, log_sent, front, frame, micros_since,
}

-- `times.emplace(i, CircularBuffer<uint>{10})` for `n` numbers from `i` on.
unfoldable pub emplace_times : ℕ → ℕ → Map ℕ (CircularBuffer ℕ) → Map ℕ (CircularBuffer ℕ)
emplace_times zero i times = times
emplace_times (suc n) i times =
    emplace_times n (suc i) (insert i (CircularBuffer.create 0 10) times)

-- The range of job types that a HELLO message names.
unfoldable pub parse_range : ℕ → Str → Result (ℕ × ℕ)
parse_range n_job_types text = if str_eq text [] then ok (0, n_job_types) else (do
  let job_types = split_vector text b':'
  guard (length job_types == 2) assertion_failed
  first ← frame job_types 0 >>= stoi
  second ← frame job_types 1 >>= stoi
  ok (to_uint first, to_uint second))

unfoldable pub connect_worker : ℕ → Callback Delegator
unfolding parse_range emplace_times front frame
connect_worker now msg s = do
  text ← frame msg.frames 0
  range ← parse_range s.n_job_types text
  id ← front msg.address
  let w : Worker = record {
    address = msg.address;
    job_types_range = range;
    work_in_progress = [];
    times = emplace_times (range.1 - range.0) range.0 [];
    last_result_time = now;
  }
  ok (record s { workers = insert id w s.workers; worker_count = wrap (s.worker_count + 1) })

-- `std::transform` of the job types into a set of numbers.
unfoldable pub transform_types : List Str → List ℕ → Result (List ℕ)
transform_types [] types = ok types
transform_types (t ∷ ts) types = do n ← stoi t; transform_types ts (set_insert (to_uint n) types)

-- The loop of `receiveRequest`: one job for each type, with running ids and indices.
unfoldable pub enqueue_jobs : Str → ℕ → List ℕ → Delegator → Delegator
enqueue_jobs id idx [] s = s
enqueue_jobs id idx (t ∷ types) s =
    let j : Job = record {
      type = t;
      id = to_string s.next_job_id;
      requester_id = id;
      requester_index = idx;
      start_time = 0;
    } in
    enqueue_jobs id (wrap (idx + 1)) types
      (record s { job_queue = s.job_queue ++ j ∷ []; next_job_id = wrap (s.next_job_id + 1) })

unfoldable pub receive_request : Callback Delegator
unfolding transform_types enqueue_jobs frame
receive_request msg s = do
  id ← join_str msg.address (b':' ∷ [])
  text ← frame msg.frames 0
  let job_types = split_set text b':'
  types ← transform_types job_types []
  content ← frame msg.frames 1
  let r : Request = record {
    address = msg.address;
    job_types = types;
    content = content;
    results = replicate (length job_types) [];
    n_done = 0;
  }
  ok (enqueue_jobs id 0 types (record s { requests = insert id r s.requests }))

-- The end of `receiveResult` for the request: the answer is sent when every job is done.
unfoldable pub finish_request : Zmq → Str → Request → Delegator → Result Delegator
finish_request zmq id r s =
    if r.n_done == length r.job_types
    then (do
      let answer : Message = record { address = r.address; subject = result; frames = r.results }
      s' ← send (zmq.accepts_requester answer) (log_sent (to_requester answer) s) none answer
      ok (record s' { requests = erase id s'.requests }))
    else ok s

-- What `receiveResult` does for a worker that is connected.
unfoldable pub accept_result : Zmq → ℕ → Str → Worker → Callback Delegator
unfolding finish_request frame micros_since
accept_result zmq now worker_id w msg s = do
  job_id ← frame msg.frames 0
  let (j, in_progress) = at_or_insert job_id default_job w.work_in_progress
  let usecs = micros_since (max j.start_time w.last_result_time) now
  times ← or_fault (find j.type w.times) out_of_range
  let (r, requests) = at_or_insert j.requester_id default_request s.requests
  text ← frame msg.frames 1
  guard (ltb j.requester_index (length r.results)) undefined_behaviour
  let r' : Request = record r {
    results = set r.results j.requester_index text;
    n_done = wrap (r.n_done + 1);
  }
  let w' : Worker = record w {
    work_in_progress = erase job_id in_progress;
    times = update j.type (CircularBuffer.push_back times usecs) w.times;
    last_result_time = now;
  }
  finish_request zmq j.requester_id r' (record s {
    workers = update worker_id w' s.workers;
    requests = update j.requester_id r' requests;
  })

unfoldable pub receive_result : Zmq → ℕ → Callback Delegator
unfolding accept_result front
receive_result zmq now msg s = do
  worker_id ← front msg.address
  elim (find worker_id s.workers) [ none ↦ ok s | some w ↦ accept_result zmq now worker_id w msg s ]

-- `jobQueue_.push_front` for each job in progress.
unfoldable pub requeue : Map Str Job → List Job → List Job
requeue [] queue = queue
requeue ((_, j) ∷ jobs) queue = requeue jobs (j ∷ queue)

unfoldable pub disconnect_worker : Callback Delegator
unfolding requeue front
disconnect_worker msg s = do
  worker_id ← front msg.address
  elim (find worker_id s.workers) [
    | none ↦ ok s
    | some w ↦ ok (record s {
      workers = erase worker_id s.workers;
      job_queue = requeue w.work_in_progress s.job_queue;
      worker_count = wrap (s.worker_count + (uint_mod - 1));
    })
  ]

-- `network_.send`, whose fallback is `sendFailed`: it disconnects the worker.
unfoldable pub network_send : Zmq → Callback Delegator
unfolding disconnect_worker
network_send zmq msg s =
    send (zmq.accepts_network msg) (log_sent (to_network msg) s) (some (λ m. disconnect_worker m s))
      msg

unfoldable pub heartbeat_send : Zmq → Callback Delegator
heartbeat_send zmq msg s = send (zmq.accepts_heartbeat msg) (log_sent (to_heartbeat msg) s) none msg
