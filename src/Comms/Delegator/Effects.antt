-- ===== src/Comms/Delegator/Effects.antt =====
-- What an event that keeps to the protocol does to the requests and the answers.
use stateline.Prelude.{ℕ, ◌<◌, ◌≡◌, refl, ◌∙◌, inl, inr, true, some, arith, ok}
use stateline.Std.Key.{Str, str_key}
use stateline.Std.Map.{find}
use stateline.Comms.Messages.{Message, Subject, hello, heartbeat, request, result, goodbye}
use stateline.Comms.Socket.{send}
use stateline.Comms.Router.{Callback, Router}
use stateline.Comms.Router
use stateline.Comms.Delegator.State.{Delegator, Zmq, to_network, to_heartbeat, front, log_sent}
use stateline.Comms.Delegator.Handlers.{
  receive_request, receive_result, disconnect_worker, network_send, heartbeat_send,
}
use stateline.Comms.Delegator.Polling.{on_poll}
use stateline.Comms.Delegator.Wiring.{router, new_worker, forward_and_disconnect}
use stateline.Comms.Delegator.Count.{count, Inv}
use stateline.Comms.Delegator.Keeping.{
  disconnect_worker_cases, without-Inv, without-KeepsWork, KeepsWork, KeepsWork-trans, unmoved,
  log_sent-KeepsWork, replies,
}
use stateline.Comms.Delegator.Answered.{IsAnswered}
use stateline.Comms.Delegator.Count.{Weight}
use stateline.Common.Text.{split_set}
use stateline.Prelude.{none, List, [], ◌∷◌, ◌+◌, ◌==◌, if◌then◌else◌, length}
use stateline.Comms.Delegator.Handlers.{transform_types}
use stateline.Comms.Delegator.State.{frame, Job, Request, Worker}
use stateline.Comms.Delegator.Assignment.{on_poll_ok}
use stateline.Comms.Delegator.Receiving.{receive_result_ok}
use stateline.Comms.Delegator.Faults.{receive_result_unknown_worker}
use stateline.Comms.Delegator.Submitting.{receive_request_ok, opened, requested}
use stateline.Comms.Delegator.Connecting.{new_worker_ok, log_sent-Inv, new_worker-KeepsWork}
use stateline.Comms.Delegator.Routing.{handler, IsNamed, route-handler}
use stateline.Comms.Delegator.Events.{
  Event, arrives, polls, perform, AcceptsAll, Allowed, says_hello, asks, answers, answers_late,
  leaves, is_lost, beats, is_beaten, has_polled,
}

-- The messages that came to the requesters' socket, the last one first.
abbrev pub noted : Event → List Message → List Message
noted (arrives socket now msg) asked = if socket == 0 then msg ∷ asked else asked
noted (polls now) asked = asked

-- An event moves jobs about, brings a request, or brings the result of a job.
pub data Effect (s s' : Delegator) : Event → Type 0 where
  moves :
      {e : Event}
      → ((asked : List Message) → noted e asked ≡ asked)
      → KeepsWork s s'
      → Effect s s' e
  opens :
      (now : ℕ) (msg : Message) (id text content : Str) (types : List ℕ)
      → frame msg.frames 0 ≡ ok text
      → transform_types (split_set text b':') [] ≡ ok types
      → frame msg.frames 1 ≡ ok content
      → find id s.requests ≡ none
      → s' ≡ requested id (opened msg types content (length (split_set text b':'))) s
      → Effect s s' (arrives 0 now msg)
  records :
      (now : ℕ) (msg : Message) (k job_id text : Str) (w : Worker) (j : Job) (r : Request)
      → msg.subject ≡ result
      → front msg.address ≡ ok k
      → frame msg.frames 0 ≡ ok job_id
      → frame msg.frames 1 ≡ ok text
      → find k s.workers ≡ some w
      → find job_id w.work_in_progress ≡ some j
      → find j.requester_id s.requests ≡ some r
      → IsAnswered j text r s s'
      → ((p : Weight) → count p s ≡ p j + count p s')
      → Effect s s' (arrives 2 now msg)

abbrev Ends : Zmq → Event → Delegator → Type 0
Ends zmq e s = (s' : Delegator) × (perform zmq e s ≡ ok s') × Inv s' × Effect s s' e

routed :
    (zmq : Zmq) (socket now : ℕ) (msg : Message) (t : Subject) (f : Callback Delegator)
    (s : Delegator)
    → socket < 3
    → msg.subject ≡ t
    → IsNamed t
    → handler zmq now socket t ≡ some f
    → perform zmq (arrives socket now msg) s ≡ f msg s
unfolding perform
routed zmq socket now msg t f s h e n b =
    route-handler zmq now socket msg s h (rw e n) ∙ rw e (rw b)

disconnect_safe :
    (msg : Message) (k : Str) (s : Delegator)
    → Inv s
    → front msg.address ≡ ok k
    → (s' : Delegator) × (disconnect_worker msg s ≡ ok s') × Inv s' × KeepsWork s s'
disconnect_safe msg k s v a = elim (disconnect_worker_cases msg k s a) [
  | inl (_, e) ↦ (s, e, v, unmoved s)
  | inr (w, q, e) ↦ (_, e, without-Inv k w s v q, without-KeepsWork k w s q)
]

heartbeat_send_ok :
    (zmq : Zmq) (msg : Message) (s : Delegator)
    → zmq.accepts_heartbeat msg ≡ true
    → heartbeat_send zmq msg s ≡ ok (log_sent (to_heartbeat msg) s)
unfolding heartbeat_send send
heartbeat_send_ok zmq msg s h = rw h

network_send_ok :
    (zmq : Zmq) (msg : Message) (s : Delegator)
    → zmq.accepts_network msg ≡ true
    → network_send zmq msg s ≡ ok (log_sent (to_network msg) s)
unfolding network_send send
network_send_ok zmq msg s h = rw h

perform-polls :
    (zmq : Zmq) (now : ℕ) (s : Delegator) → perform zmq (polls now) s ≡ on_poll zmq now s
unfolding perform router Router.create Router.bind Router.bind_on_poll Router.index
perform-polls zmq now s = refl

-- While ZeroMQ accepts every message, an event that keeps to the protocol ends without a fault,
-- in a state that satisfies the invariant again and differs as the event says.
pub perform_effect :
    (zmq : Zmq) (s : Delegator) (e : Event) → AcceptsAll zmq → Inv s → Allowed s e → Ends zmq e s
unfolding forward_and_disconnect replies
perform_effect zmq s e z v (says_hello now msg id text range t a f p) =
    let (done, v') = new_worker_ok zmq now msg id text range s v (z.1 msg) a f p in
    (
      _,
      routed zmq 2 now msg hello (new_worker zmq now) s (omega arith) t tt refl ∙ done,
      v',
      moves (λ x. refl) (new_worker-KeepsWork now msg id range s),
    )
perform_effect zmq s e z v (asks now msg id text content types t a f₀ ts f₁ q some_types small) =
    let (done, v', _) =
      receive_request_ok msg s id text content types v a f₀ ts f₁ q some_types small in
    (
      _,
      routed zmq 0 now msg request receive_request s (omega arith) t tt refl ∙ done,
      v',
      opens now msg id text content types f₀ ts f₁ q refl,
    )
perform_effect zmq s e z v (answers now msg k job_id text w j t a f₀ f₁ q f) =
    let (r, s', found, done, v', answered, shrunk, _) =
      receive_result_ok zmq now k job_id text w j msg s z.0 v a f₀ f₁ q f in
    (
      s',
      routed zmq 2 now msg result (receive_result zmq now) s (omega arith) t tt refl ∙ done,
      v',
      records now msg k job_id text w j r t a f₀ f₁ q f found answered shrunk,
    )
perform_effect zmq s e z v (answers_late now msg k t a q) = (
  s,
  routed zmq 2 now msg result (receive_result zmq now) s (omega arith) t tt refl
      ∙ receive_result_unknown_worker zmq now k msg s a q,
  v,
  moves (λ x. refl) (unmoved s),
)
perform_effect zmq s e z v (leaves now msg k t a) =
    let s₁ = log_sent (to_heartbeat msg) s in
    let (s', done, v', kept) = disconnect_safe msg k s₁ (log_sent-Inv (to_heartbeat msg) s v) a in
    let sent = heartbeat_send_ok zmq msg s (z.1 msg) in
    (
      s',
      routed zmq 2 now msg goodbye (forward_and_disconnect zmq) s (omega arith) t tt refl
          ∙ rw (sent, forward_and_disconnect) done,
      v',
      moves (λ x. refl)
          (KeepsWork-trans s s₁ s' (log_sent-KeepsWork (to_heartbeat msg) s refl) kept),
    )
perform_effect zmq s e z v (is_lost now msg k t a) =
    let (s', done, v', kept) = disconnect_safe msg k s v a in
    (
      s',
      routed zmq 1 now msg goodbye disconnect_worker s (omega arith) t tt refl ∙ done,
      v',
      moves (λ x. refl) kept,
    )
perform_effect zmq s e z v (beats now msg t) = (
  _,
  routed zmq 2 now msg heartbeat (heartbeat_send zmq) s (omega arith) t tt refl
      ∙ heartbeat_send_ok zmq msg s (z.1 msg),
  log_sent-Inv (to_heartbeat msg) s v,
  moves (λ x. refl) (log_sent-KeepsWork (to_heartbeat msg) s refl),
)
perform_effect zmq s e z v (is_beaten now msg t) = (
  _,
  routed zmq 1 now msg heartbeat (network_send zmq) s (omega arith) t tt refl
      ∙ network_send_ok zmq msg s (z.2 msg),
  log_sent-Inv (to_network msg) s v,
  moves (λ x. refl) (log_sent-KeepsWork (to_network msg) s refl),
)
perform_effect zmq s e z v (has_polled now) =
    let (s', done, v', kept) = on_poll_ok zmq now s z.2 v in
    (s', perform-polls zmq now s ∙ done, v', moves (λ x. refl) kept)
