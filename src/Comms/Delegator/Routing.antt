-- ===== src/Comms/Delegator/Routing.antt =====
-- Which handler of the delegator serves a message.
use stateline.Prelude.{
  ℕ, zero, suc, ◌+◌, ◌-◌, ◌≤◌, ◌<◌, ◌≡◌, refl, Option, none, some, List, [], ◌∷◌, arith, length,
  get_elem?, err, ◌>>=◌, wrap, uint_mod, bad_function_call, undefined_behaviour,
}
use stateline.Comms.Messages.{
  Message, Subject, hello, heartbeat, request, job, result, goodbye, unnamed,
}
use stateline.Comms.Router.{Callback, Router}
use stateline.Comms.Router
use stateline.Comms.Delegator.State.{Delegator, Zmq}
use stateline.Comms.Delegator.Handlers.{
  receive_request, receive_result, disconnect_worker, network_send, heartbeat_send,
}
use stateline.Comms.Delegator.Wiring.{new_worker, forward_and_disconnect, router}

-- What the delegator does with a message from one of its sockets.
unfoldable pub route : Zmq → ℕ → ℕ → Callback Delegator
route zmq now socket msg s = do r ← router zmq now; Router.dispatch r socket msg s

-- The handler that the constructor binds for each socket and subject.
abbrev pub handler : Zmq → ℕ → ℕ → Subject → Option (Callback Delegator)
handler zmq now zero request = some receive_request
handler zmq now (suc zero) heartbeat = some (network_send zmq)
handler zmq now (suc zero) goodbye = some disconnect_worker
handler zmq now (suc (suc zero)) hello = some (new_worker zmq now)
handler zmq now (suc (suc zero)) heartbeat = some (heartbeat_send zmq)
handler zmq now (suc (suc zero)) result = some (receive_result zmq now)
handler zmq now (suc (suc zero)) goodbye = some (forward_and_disconnect zmq)
handler zmq now _ _ = none

abbrev pub IsNamed : Subject → Type 0
IsNamed (unnamed n) = ⊥
IsNamed _ = Unit

abbrev pub serve : Option (Callback Delegator) → Callback Delegator
serve none msg s = err bad_function_call
serve (some f) msg s = f msg s

route_by_subject :
    (zmq : Zmq) (now socket : ℕ) (t : Subject) (msg : Message) (s : Delegator)
    → socket < 3
    → IsNamed t
    → route zmq now socket (record msg { subject = t }) s
      ≡ serve (handler zmq now socket t) (record msg { subject = t }) s
unfolding route router Router.create Router.bind Router.bind_on_poll Router.dispatch Router.index
route_by_subject zmq now zero hello msg s h n = refl
route_by_subject zmq now zero heartbeat msg s h n = refl
route_by_subject zmq now zero request msg s h n = refl
route_by_subject zmq now zero job msg s h n = refl
route_by_subject zmq now zero result msg s h n = refl
route_by_subject zmq now zero goodbye msg s h n = refl
route_by_subject zmq now (suc zero) hello msg s h n = refl
route_by_subject zmq now (suc zero) heartbeat msg s h n = refl
route_by_subject zmq now (suc zero) request msg s h n = refl
route_by_subject zmq now (suc zero) job msg s h n = refl
route_by_subject zmq now (suc zero) result msg s h n = refl
route_by_subject zmq now (suc zero) goodbye msg s h n = refl
route_by_subject zmq now (suc (suc zero)) hello msg s h n = refl
route_by_subject zmq now (suc (suc zero)) heartbeat msg s h n = refl
route_by_subject zmq now (suc (suc zero)) request msg s h n = refl
route_by_subject zmq now (suc (suc zero)) job msg s h n = refl
route_by_subject zmq now (suc (suc zero)) result msg s h n = refl
route_by_subject zmq now (suc (suc zero)) goodbye msg s h n = refl
route_by_subject zmq now (suc (suc (suc i))) t msg s h n = absurd (omega arith)
route_by_subject zmq now i (unnamed m) msg s h n = absurd n

-- Every message with a subject of the enum reaches the handler that the table names for its
-- socket and subject, and where the table names none the router throws `bad_function_call`.
pub route-handler :
    (zmq : Zmq) (now socket : ℕ) (msg : Message) (s : Delegator)
    → socket < 3
    → IsNamed msg.subject
    → route zmq now socket msg s ≡ serve (handler zmq now socket msg.subject) msg s
route-handler zmq now socket msg s h n = route_by_subject zmq now socket msg.subject msg s h n

get_elem?_beyond {ℓ} : {A : Type ℓ} (xs : List A) (i : ℕ) → length xs ≤ i → get_elem? xs i ≡ none
get_elem?_beyond [] i h = refl
get_elem?_beyond (x ∷ xs) zero h = absurd (omega arith)
get_elem?_beyond (x ∷ xs) (suc i) h = get_elem?_beyond xs i (omega arith)

-- A message from the network whose subject number is from 6 to 2 ^ 32 - 13 as a `uint`, that is any
-- that the enum does not name but -12 to -1, makes the router read beyond its vector of callbacks.
pub route_unnamed :
    (zmq : Zmq) (now n : ℕ) (msg : Message) (s : Delegator)
    → msg.subject ≡ unnamed n
    → 6 ≤ n
    → n < uint_mod - 12
    → route zmq now 2 msg s ≡ err undefined_behaviour
unfolding route router Router.create Router.bind Router.bind_on_poll Router.dispatch Router.index
route_unnamed zmq now n msg s e low high =
    let beyond : 18 ≤ wrap (12 + n) = omega arith in
    rw e (rw (get_elem?_beyond _ (wrap (12 + n)) beyond))
