-- ===== src/Comms/Delegator/Answering.antt =====
-- `receiveResult` for a job that is in progress: the result goes to its slot, and the request is
-- answered with its last result.
use stateline.Prelude.{
  ℕ, ◌+◌, ◌<◌, ◌≡◌, ◌∙◌, inl, inr, some, arith, length, set, ◌==◌, max, wrap, ok, Bool-cases,
}
use stateline.Std.Key.{Str, str_key, nat_key}
use stateline.Std.Map.{find, update, erase}
use stateline.Std.Map.Order.{erase-IsSorted}
use stateline.Std.Map.Laws.{
  sum_values-update, sum_values-erase, erase-Entries, length-erase, at_or_insert_found, find-update,
}
use stateline.Common.CircularBuffer.{CircularBuffer, IsFull, push_back-IsFull, capacity-push_back}
use stateline.Common.CircularBuffer
use stateline.Comms.Messages.{Message, result}
use stateline.Comms.Delegator.State.{
  Job, Request, Worker, Delegator, Zmq, default_job, default_request, front, frame, micros_since,
}
use stateline.Comms.Delegator.Handlers.{receive_result, accept_result, finish_request}
use stateline.Comms.Delegator.Count.{Weight, count, working, IsPlaced, IsTimed, WorkerOk}

-- The request with the result of job `j` in its slot.
abbrev pub filled : Job → Str → Request → Request
filled j text r = record r {
  results = set r.results j.requester_index text;
  n_done = wrap (r.n_done + 1);
}

-- The worker without the job, with the time that it took.
abbrev pub relieved : ℕ → Str → Job → CircularBuffer ℕ → Worker → Worker
relieved now job_id j b w = record w {
  work_in_progress = erase job_id w.work_in_progress;
  times =
      update j.type
        (CircularBuffer.push_back b (micros_since (max j.start_time w.last_result_time) now))
        w.times;
  last_result_time = now;
}

abbrev pub recorded :
    ℕ → Str → Str → Worker → Job → CircularBuffer ℕ → Request → Str → Delegator → Delegator
recorded now k job_id w j b r text s = record s {
  workers = update k (relieved now job_id j b w) s.workers;
  requests = update j.requester_id (filled j text r) s.requests;
}

abbrev pub answer : Request → Message
answer r = record { address = r.address; subject = result; frames = r.results }

module _ (zmq : Zmq) (now : ℕ) (k job_id : Str) (w : Worker) (j : Job) (b : CircularBuffer ℕ)
    (r : Request) (text : Str) (msg : Message) (s : Delegator) where
  pub accept_result_found :
      frame msg.frames 0 ≡ ok job_id
      → frame msg.frames 1 ≡ ok text
      → find job_id w.work_in_progress ≡ some j
      → find j.type w.times ≡ some b
      → find j.requester_id s.requests ≡ some r
      → j.requester_index < length r.results
      → accept_result zmq now k w msg s
        ≡ finish_request zmq j.requester_id (filled j text r) (recorded now k job_id w j b r text s)
  unfolding accept_result
  accept_result_found f₀ f₁ e t f fits =
      rw (f₀, accept_result)
        (rw (at_or_insert_found job_id default_job j w.work_in_progress e)
          (rw (at_or_insert_found j.requester_id default_request r s.requests f) (ground arith)))

  -- The worker has one job less; everything else stays where it is.
  pub recorded-count :
      (p : Weight)
      → find k s.workers ≡ some w
      → find job_id w.work_in_progress ≡ some j
      → count p s ≡ p j + count p (recorded now k job_id w j b r text s)
  unfolding count
  recorded-count p e f = omega (
    arith,
    sum_values-update (working p) k (relieved now job_id j b w) w s.workers e,
    sum_values-erase p job_id j w.work_in_progress f,
  )

  relieved-IsTimed :
      IsTimed w
      → find j.type w.times ≡ some b
      → IsFull b
      → b.capacity ≡ 10
      → IsTimed (relieved now job_id j b w)
  relieved-IsTimed timed e full cap t range = elim (Bool-cases (t == j.type)) [
    | inl same ↦
        let usecs = micros_since (max j.start_time w.last_result_time) now in
        (
          CircularBuffer.push_back b usecs,
          rw (find-update t j.type (CircularBuffer.push_back b usecs) b w.times e) (rw same),
          push_back-IsFull b usecs full,
          capacity-push_back b usecs ∙ cap,
        )
    | inr other ↦
        let (c, e', full', cap') = timed t range in
        (c, rw (find-update t j.type _ b w.times e) (rw other e'), full', cap')
  ]

  pub relieved-WorkerOk :
      WorkerOk k w
      → find job_id w.work_in_progress ≡ some j
      → find j.type w.times ≡ some b
      → IsFull b
      → b.capacity ≡ 10
      → WorkerOk k (relieved now job_id j b w)
  relieved-WorkerOk ok_w f e full cap = record {
    address_ok = ok_w.address_ok;
    timed = relieved-IsTimed ok_w.timed e full cap;
    placed = erase-Entries (IsPlaced w) job_id w.work_in_progress ok_w.placed;
    jobs_sorted = erase-IsSorted job_id w.work_in_progress ok_w.jobs_sorted;
    bounded = omega (arith, ok_w.bounded, length-erase job_id j w.work_in_progress f);
  }

  pub receive_result_connected :
      front msg.address ≡ ok k
      → find k s.workers ≡ some w
      → receive_result zmq now msg s ≡ accept_result zmq now k w msg s
  unfolding receive_result
  receive_result_connected a e = ground arith
