-- ===== src/Comms/Delegator/Connecting.antt =====
-- HELLO messages: `fNewWorker` and `connectWorker` keep the invariant.
use stateline.Prelude.{
  ℕ, zero, suc, ◌+◌, ◌-◌, ◌≤◌, ◌<◌, ◌≡◌, refl, sym, append-nil, ◌∷◌, ◌∙◌, inl, inr, true, [], none,
  some, arith, ◌==◌, if◌then◌else◌, wrap, ok, Bool-cases,
}
use stateline.Std.Key.{Str, str_key, nat_key}
use stateline.Std.Map.{Map, find, insert, contains}
use stateline.Std.Map.Order.{insert-IsSorted}
use stateline.Std.Map.Laws.{find-insert, sum_values-insert, insert-Entries, contains-false}
use stateline.Common.CircularBuffer.{CircularBuffer, create-IsFull, create}
use stateline.Comms.Messages.{Message}
use stateline.Comms.Socket.{send}
use stateline.Comms.Delegator.State.{
  Worker, Delegator, Zmq, Sent, to_heartbeat, front, frame, log_sent,
}
use stateline.Comms.Delegator.Handlers.{emplace_times, parse_range, connect_worker, heartbeat_send}
use stateline.Comms.Delegator.Wiring.{new_worker}
use stateline.Comms.Delegator.Count.{count, working, WorkerOk, Inv}
use stateline.Comms.Delegator.Telling.{
  AllTold-of_NoNewWork, NoNewWork-insert, NoNewWork-same, known_of_same,
}
use stateline.Comms.Delegator.Keeping.{
  Inv-of_SameJobs, KeepsWork, KeepsWork-trans, log_sent-KeepsWork, replies,
}

abbrev Times : Type 0
Times = Map ℕ (CircularBuffer ℕ)

-- No entry from `i` on.
abbrev FreeFrom : ℕ → Times → Type 0
FreeFrom i times = (t : ℕ) → i ≤ t → find t times ≡ none

insert-FreeFrom :
    (i : ℕ) (b : CircularBuffer ℕ) (times : Times)
    → FreeFrom i times
    → FreeFrom (suc i) (insert i b times)
insert-FreeFrom i b times free t h =
    rw (find-insert t i b times (free i (omega arith))) (ground (arith, free t))

find-emplace_below :
    (n i t : ℕ) (times : Times)
    → FreeFrom i times
    → t < i
    → find t (emplace_times n i times) ≡ find t times
unfolding emplace_times
find-emplace_below zero i t times free h = refl
find-emplace_below (suc n) i t times free h =
    find-emplace_below n (suc i) t _ (insert-FreeFrom i (create 0 10) times free) (omega arith)
    ∙ rw (find-insert t i (create 0 10) times (free i (omega arith))) (ground arith)

-- Each number of the range gets a buffer.
find-emplace :
    (n i t : ℕ) (times : Times)
    → FreeFrom i times
    → i ≤ t
    → t < i + n
    → find t (emplace_times n i times) ≡ some (create 0 10)
unfolding emplace_times
find-emplace zero i t times free low high = absurd (omega arith)
find-emplace (suc n) i t times free low high =
    let free' = insert-FreeFrom i (create 0 10) times free in
    elim (Bool-cases (t == i)) [
      | inl same ↦
          find-emplace_below n (suc i) t _ free' (ground arith)
          ∙ rw (find-insert t i (create 0 10) times (free i (omega arith))) (rw same)
      | inr other ↦ find-emplace n (suc i) t _ free' (ground arith) (omega arith)
    ]

-- A worker as it is stored when it connects.
abbrev pub joined : ℕ → Message → ℕ × ℕ → Worker
joined now msg range = record {
  address = msg.address;
  job_types_range = range;
  work_in_progress = [];
  times = emplace_times (range.1 - range.0) range.0 [];
  last_result_time = now;
}

abbrev pub connected : ℕ → Message → Str → ℕ × ℕ → Delegator → Delegator
connected now msg id range s = record s {
  workers = insert id (joined now msg range) s.workers;
  worker_count = wrap (s.worker_count + 1);
}

joined-WorkerOk :
    (now : ℕ) (msg : Message) (id : Str) (range : ℕ × ℕ)
    → front msg.address ≡ ok id
    → WorkerOk id (joined now msg range)
unfolding create find
joined-WorkerOk now msg id range a = record {
  address_ok = a;
  timed = λ t h. (
    create 0 10,
    find-emplace (range.1 - range.0) range.0 t [] (λ u g. refl) h.0 (omega arith),
    create-IsFull {T = ℕ} 0 10,
    refl,
  );
  placed = tt;
  jobs_sorted = tt;
  bounded = omega arith;
}

-- A new worker changes no job, request or answer.
pub connected-KeepsWork :
    (now : ℕ) (msg : Message) (id : Str) (range : ℕ × ℕ) (s : Delegator)
    → find id s.workers ≡ none
    → KeepsWork s (connected now msg id range s)
unfolding count
connected-KeepsWork now msg id range s q = record {
  same_jobs =
      λ p t. omega (arith, sum_values-insert (working p) id (joined now msg range) s.workers q);
  same_requests = refl;
  same_replies = refl;
}

pub connected-Inv :
    (now : ℕ) (msg : Message) (id : Str) (range : ℕ × ℕ) (s : Delegator)
    → Inv s
    → front msg.address ≡ ok id
    → find id s.workers ≡ none
    → Inv (connected now msg id range s)
connected-Inv now msg id range s v a q =
    let w = joined now msg range in
    Inv-of_SameJobs s (connected now msg id range s) v refl refl
      (connected-KeepsWork now msg id range s q).same_jobs
      (insert-IsSorted id w s.workers v.workers_sorted)
      (insert-Entries WorkerOk id w s.workers (joined-WorkerOk now msg id range a) v.workers_ok)
      (AllTold-of_NoNewWork s (connected now msg id range s) [] v.told
        (NoNewWork-insert id w s.workers q refl) (sym (append-nil s.sent))
        (known_of_same s (connected now msg id range s) refl))

pub connect_worker_ok :
    (now : ℕ) (msg : Message) (id text : Str) (range : ℕ × ℕ) (s : Delegator)
    → front msg.address ≡ ok id
    → frame msg.frames 0 ≡ ok text
    → parse_range s.n_job_types text ≡ ok range
    → connect_worker now msg s ≡ ok (connected now msg id range s)
unfolding connect_worker
connect_worker_ok now msg id text range s a f p = ground arith

-- Writing to the log of sent messages keeps the invariant.
pub log_sent-Inv : (m : Sent) (s : Delegator) → Inv s → Inv (log_sent m s)
unfolding count
log_sent-Inv m s v =
    Inv-of_SameJobs s (log_sent m s) v refl refl (λ p t. refl) v.workers_sorted v.workers_ok
      (AllTold-of_NoNewWork s (log_sent m s) (m ∷ []) v.told (NoNewWork-same s.workers) refl
        (known_of_same s (log_sent m s) refl))

-- A HELLO message whose range of job types is readable, in a state where the invariant holds and
-- when ZeroMQ accepts the copy for the heartbeat thread: it is passed on to the heartbeat thread,
-- a new worker is stored with the range and an empty record for each type, a worker that is
-- connected already stays as it is, and the invariant holds afterwards.
pub new_worker_ok :
    (zmq : Zmq) (now : ℕ) (msg : Message) (id text : Str) (range : ℕ × ℕ) (s : Delegator)
    → Inv s
    → zmq.accepts_heartbeat msg ≡ true
    → front msg.address ≡ ok id
    → frame msg.frames 0 ≡ ok text
    → parse_range s.n_job_types text ≡ ok range
    → let s₁ = log_sent (to_heartbeat msg) s in
      let s' = if contains id s.workers then s₁ else connected now msg id range s₁ in
      (new_worker zmq now msg s ≡ ok s') × Inv s'
unfolding new_worker heartbeat_send send
new_worker_ok zmq now msg id text range s v accepts a f p =
    let s₁ = log_sent (to_heartbeat msg) s in
    let v₁ = log_sent-Inv (to_heartbeat msg) s v in
    let joins = connect_worker_ok now msg id text range s₁ a f p in
    elim (Bool-cases (contains id s.workers)) [
      | inl known ↦ (ground arith, rw known v₁)
      | inr new ↦ (
        ground (arith, joins),
        rw new (connected-Inv now msg id range s₁ v₁ a (contains-false id s.workers new)),
      )
    ]

pub new_worker-KeepsWork :
    (now : ℕ) (msg : Message) (id : Str) (range : ℕ × ℕ) (s : Delegator)
    → let s₁ = log_sent (to_heartbeat msg) s in
      KeepsWork s (if contains id s.workers then s₁ else connected now msg id range s₁)
unfolding replies
new_worker-KeepsWork now msg id range s =
    let s₁ = log_sent (to_heartbeat msg) s in
    let logged = log_sent-KeepsWork (to_heartbeat msg) s refl in
    elim (Bool-cases (contains id s.workers)) [
      | inl known ↦ rw known logged
      | inr new ↦ rw new (
          KeepsWork-trans s s₁ (connected now msg id range s₁) logged
            (connected-KeepsWork now msg id range s₁ (contains-false id s.workers new)))
    ]
