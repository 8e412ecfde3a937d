-- ===== src/Comms/Delegator/Receiving.antt =====
-- `receiveResult`, for jobs in progress and for anything else.
use stateline.Comms.Delegator.Answered.{IsAnswered}
use stateline.Comms.Delegator.Recording.{finish_request_ok}
use stateline.Comms.Delegator.Answering.{accept_result_found, receive_result_connected}
use stateline.Prelude.{
  ℕ, ◌+◌, ◌≤◌, ◌<◌, ◌≡◌, ◌∙◌, inl, inr, true, some, arith, length, ok, Option-cases,
}
use stateline.Std.Key.{Str, str_key, nat_key}
use stateline.Std.Map.{find}
use stateline.Std.Map.Laws.{find-Entries}
use stateline.Comms.Messages.{Message}
use stateline.Comms.Delegator.State.{Job, Request, Worker, Delegator, Zmq, front, frame}
use stateline.Comms.Delegator.Handlers.{receive_result}
use stateline.Comms.Delegator.Telling.{NoNewWork}
use stateline.Comms.Delegator.Count.{
  Weight, count, owned, beyond, IsPlaced, WorkerOk, Inv, weight-le-count, str_eq_refl,
}

-- The request and the slot of a job in progress.
pub job_has_slot :
    (k job_id : Str) (w : Worker) (j : Job) (s : Delegator)
    → Inv s
    → find k s.workers ≡ some w
    → find job_id w.work_in_progress ≡ some j
    → (r : Request) × (find j.requester_id s.requests ≡ some r)
      × (j.requester_index < length r.results)
job_has_slot k job_id w j s v e f = elim (Option-cases (find j.requester_id s.requests)) [
  | inl q ↦ absurd (omega (arith, v.no_orphans j.requester_id q, held (owned j.requester_id), mine))
  | inr (r, q) ↦ (r, q, slot r (v.requests_ok j.requester_id r q).slots)
]
  where
    mine : owned j.requester_id j ≡ 1
    mine = rw (str_eq_refl j.requester_id)

    held : (p : Weight) → p j ≤ count p s
    held p = weight-le-count p k job_id w j s e f

    slot :
        (r : Request)
        → count (beyond j.requester_id (length r.results)) s ≡ 0
        → j.requester_index < length r.results
    slot r none_beyond = ground (
      arith,
      none_beyond,
      held (beyond j.requester_id (length r.results)),
      str_eq_refl j.requester_id,
    )

-- A RESULT message of a connected worker for a job that it has in progress, in a state where the
-- invariant holds and while ZeroMQ accepts the messages to the requesters: the handler does not
-- fault, the invariant holds afterwards, the job alone is gone, no worker has a job in progress that
-- it did not have before, and the request of the job is answered exactly if this was its last job,
-- with the results of all slots.
pub receive_result_ok :
    (zmq : Zmq) (now : ℕ) (k job_id text : Str) (w : Worker) (j : Job) (msg : Message)
    (s : Delegator)
    → ((m : Message) → zmq.accepts_requester m ≡ true)
    → Inv s
    → front msg.address ≡ ok k
    → frame msg.frames 0 ≡ ok job_id
    → frame msg.frames 1 ≡ ok text
    → find k s.workers ≡ some w
    → find job_id w.work_in_progress ≡ some j
    → (r : Request) × (s' : Delegator) × (find j.requester_id s.requests ≡ some r)
      × (receive_result zmq now msg s ≡ ok s')
      × Inv s'
      × IsAnswered j text r s s'
      × ((p : Weight) → count p s ≡ p j + count p s')
      × NoNewWork s.workers s'.workers
receive_result_ok zmq now k job_id text w j msg s accepts v a f₀ f₁ e f =
    let (r, q, fits) = job_has_slot k job_id w j s v e f in
    let ok_w = find-Entries WorkerOk k w s.workers v.workers_ok e in
    let placed = find-Entries (IsPlaced w) job_id j w.work_in_progress ok_w.placed f in
    let (b, t, full, cap) = ok_w.timed j.type placed.1 in
    let (s', done, v', answered, shrunk, no_new) =
      finish_request_ok zmq now k job_id w j b r text s v e f t q full cap (accepts _) in
    (
      r,
      s',
      q,
      receive_result_connected zmq now k job_id w j b r text msg s a e
          ∙ accept_result_found zmq now k job_id w j b r text msg s f₀ f₁ f t q fits
          ∙ done,
      v',
      answered,
      shrunk,
      no_new,
    )
