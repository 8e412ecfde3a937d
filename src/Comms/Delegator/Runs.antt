-- ===== src/Comms/Delegator/Runs.antt =====
-- Whole runs of the delegator: what the requesters get for what they asked.
use stateline.Prelude.{ℕ, ◌+◌, ◌≤◌, ◌≡◌, refl, sym, ◌∙◌, List, [], ◌∷◌, some, arith, All, ok, ap}
use mathlib.Core.List.{Memᴰ}
use stateline.Std.Key.{Str, str_key}
use stateline.Std.Map.{Map, find}
use stateline.Std.Map.Laws.{sum_values}
use stateline.Comms.Messages.{Address, Message, result, job}
use stateline.Std.Decimal.{to_string}
use stateline.Std.Map.Laws.{find-Entries}
use stateline.Comms.Delegator.Polling.{job_message}
use stateline.Comms.Delegator.State.{to_network, Job, Request, Delegator, Zmq, front, frame, create}
use stateline.Comms.Delegator.Count.{count}
use stateline.Comms.Delegator.Keeping.{KeepsWork, replies}
use stateline.Comms.Delegator.Receiving.{job_has_slot}
use stateline.Comms.Delegator.Events.{Event, arrives, perform, AcceptsAll, Allowed}
use stateline.Comms.Delegator.Effects.{noted, Effect, moves, opens, records, perform_effect}
use stateline.Comms.Delegator.Histories.{create-Inv}
use stateline.Comms.Delegator.Count.{
  Inv, WorkerOk, IsPlaced, weight-le-count, Weight, owned, count_mono, str_eq_refl,
}
use stateline.Comms.Delegator.Answers.{mistyped, at_slot, sum_messages, RightAnswer, IsRight}
use stateline.Comms.Delegator.Answers.Opening.{requested-IsRight}
use stateline.Comms.Delegator.Answers.Filling.{answered-IsRight}

-- A worker is honest: what it gives as the result of a job is a value of the type and the data in
-- each JOB message with the id of the job that was sent to it.
abbrev pub IsHonest : (ℕ → Str → Str → Type 0) → Delegator → Event → Type 0
IsHonest IsValue s e =
    (now t : ℕ) (msg m : Message) (k job_id text content : Str)
    → e ≡ arrives 2 now msg
    → msg.subject ≡ result
    → front msg.address ≡ ok k
    → frame msg.frames 0 ≡ ok job_id
    → frame msg.frames 1 ≡ ok text
    → Memᴰ (to_network m) s.sent
    → m.subject ≡ job
    → front m.address ≡ ok k
    → m.frames ≡ to_string t ∷ job_id ∷ content ∷ []
    → IsValue t content text

module _ (IsValue : ℕ → Str → Str → Type 0) where
  moved-IsRight :
      (asked : List Message) (s s' : Delegator)
      → KeepsWork s s'
      → IsRight IsValue asked s
      → IsRight IsValue asked s'
  moved-IsRight asked s s' kept h = record {
    requests_right = λ id r e.
        let old = h.requests_right id r (rw kept.same_requests at e) in
        record {
          source = old.source;
          typed = kept.same_jobs (mistyped id r.job_types) (λ j t. refl) ∙ old.typed;
          right = λ i t found gone.
              old.right i t found (sym (kept.same_jobs (at_slot id i) (λ j u. refl)) ∙ gone);
        };
    answers_right = rw kept.same_replies h.answers_right;
    conserved = λ p. rw (kept.same_replies, kept.same_requests) (h.conserved p);
  }

  Effect-IsRight :
      (asked : List Message) (s s' : Delegator) (e : Event)
      → Inv s
      → IsRight IsValue asked s
      → IsHonest IsValue s e
      → Effect s s' e
      → IsRight IsValue (noted e asked) s'
  Effect-IsRight asked s s' e v h honest (moves same kept) =
      rw (same asked) (moved-IsRight asked s s' kept h)
  Effect-IsRight asked s s' e v h honest (opens now msg id text content types f₀ ts f₁ q done) =
      rw done (requested-IsRight IsValue msg asked id text content types s v h f₀ ts f₁ q)
  Effect-IsRight asked s s' e v h honest
        (records now msg k job_id text w j r t a f₀ f₁ q f found answered shrunk) =
      let (r', found', fits) = job_has_slot k job_id w j s v q f in
      let same : r' ≡ r = ground (arith, found, found') in
      let ok_w = find-Entries WorkerOk k w s.workers v.workers_ok q in
      let (its_id, _) = find-Entries (IsPlaced w) job_id j w.work_in_progress ok_w.placed f in
      let true_text =
        honest now j.type msg (job_message w j r.content) k job_id text r.content refl t a f₀ f₁
          (v.told k job_id w j r q f found) refl ok_w.address_ok
          (ap (λ (x : Str). to_string j.type ∷ x ∷ r.content ∷ []) its_id) in
      answered-IsRight IsValue asked j r text s s' v h found (rw (← same) fits)
        (λ p. weight-le-count p k job_id w j s q f) shrunk true_text answered

  -- The runs from a new delegator, with the REQUEST messages that came in: each event keeps to the
  -- protocol, and the workers are honest.
  pub data Run (zmq : Zmq) (n_job_types c : ℕ) : List Message → Delegator → Type 0 where
    starts :
        {asked : List Message} {s : Delegator}
        → asked ≡ []
        → s ≡ create n_job_types c
        → Run zmq n_job_types c asked s
    goes_on :
        {asked asked' : List Message} {s s' : Delegator} (e : Event)
        → Run zmq n_job_types c asked s
        → Allowed s e
        → IsHonest IsValue s e
        → perform zmq e s ≡ ok s'
        → asked' ≡ noted e asked
        → Run zmq n_job_types c asked' s'

  create-IsRight : (n_job_types c : ℕ) → IsRight IsValue [] (create n_job_types c)
  unfolding create find replies
  create-IsRight n_job_types c = record {
    requests_right = λ id r e. cc;
    answers_right = tt;
    conserved = λ p. refl;
  }

  Run-IsRight :
      {zmq : Zmq} {n_job_types c : ℕ} {asked : List Message} {s : Delegator}
      → AcceptsAll zmq
      → Run zmq n_job_types c asked s
      → Inv s × IsRight IsValue asked s
  Run-IsRight {n_job_types} {c} z (starts e₁ e₂) =
      rw (e₁, e₂) (create-Inv n_job_types c, create-IsRight n_job_types c)
  Run-IsRight {zmq} z (goes_on {asked} {asked'} {s} {s'} e run a honest done more) =
      let (v, h) = Run-IsRight z run in
      let (s₁, done', v', effect) = perform_effect zmq s e z v a in
      let same : s₁ ≡ s' = ground (arith, done, done') in
      rw (more, ← same) (v', Effect-IsRight asked s s₁ e v h honest effect)

-- Every job counts one.
abbrev pub each : Weight
each j = 1

owned-le-each : (id : Str) (j : Job) → owned id j ≤ each j
owned-le-each id j = ground arith

find_first : (id : Str) (r : Request) (m : Map Str Request) → find id ((id, r) ∷ m) ≡ some r
unfolding find
find_first id r m = rw (str_eq_refl id)

-- Without an outstanding job no request is pending.
none_pending : (s : Delegator) → Inv s → count each s ≡ 0 → s.requests ≡ []
none_pending s v h = all_gone s.requests refl
  where
    all_gone : (m : Map Str Request) → s.requests ≡ m → s.requests ≡ []
    all_gone [] e = e
    all_gone ((id, r) ∷ m) e =
        let found : find id s.requests ≡ some r = rw e (find_first id r m) in
        let old = v.requests_ok id r found in
        absurd (
          omega
            (arith, old.counted, old.pending, count_mono (owned id) each (owned-le-each id) s, h))

module _ (IsValue : ℕ → Str → Str → Type 0) {zmq : Zmq} {n_job_types c : ℕ} {asked : List Message}
    {s : Delegator} (z : AcceptsAll zmq) (run : Run IsValue zmq n_job_types c asked s) where
  -- In a run in which ZeroMQ accepts every message, every event keeps to the protocol and the workers
  -- are honest, their results being values of the types and data in the JOB messages sent to them: each answer that was sent goes to the address of a REQUEST message that came in,
  -- has one frame for each text that this message names a type with, and at the index of each of its
  -- types a value of that type on its content.
  pub answers_right : All (RightAnswer IsValue asked) (replies s.sent)
  answers_right = (Run-IsRight IsValue z run).1.answers_right

  -- In a run in which ZeroMQ accepts every message, every event keeps to the protocol and the workers
  -- are honest, no request is lost and none is answered twice: the answers sent and the requests
  -- pending, by any count of their addresses, add up to the REQUEST messages that came in.
  pub answers_conserved :
      (p : Address → ℕ)
      → sum_messages p (replies s.sent) + sum_values (λ (r : Request). p r.address) s.requests
        ≡ sum_messages p asked
  answers_conserved p = (Run-IsRight IsValue z run).1.conserved p

  -- In a run in which ZeroMQ accepts every message, every event keeps to the protocol and the workers
  -- are honest: when no job is queued or in progress, no request is pending and, by any count of their
  -- addresses, as many answers were sent as REQUEST messages came in.
  pub all_answered :
      count each s ≡ 0
      → (s.requests ≡ [])
        × ((p : Address → ℕ) → sum_messages p (replies s.sent) ≡ sum_messages p asked)
  all_answered h =
      let (v, right) = Run-IsRight IsValue z run in
      let gone = none_pending s v h in (gone, λ p. omega (arith, rw gone at (right.conserved p)))
