-- ===== src/Comms/Delegator/Scenario.antt =====
-- A small run of the delegator: a worker joins, a client asks for two jobs, and one is answered.
use stateline.Comms.Delegator.Submitting.{opened}
use stateline.Comms.Delegator.Connecting.{joined}
use stateline.Comms.Delegator.Schedule.{best_worker}
use stateline.Common.Text.{join_str, split_set}
use stateline.Std.Map.{contains, insert, update}
use stateline.Std.Decimal.{stoi, to_string}
use stateline.Comms.Socket.{send}
use stateline.Comms.Delegator.Routing.{route}
use stateline.Comms.Delegator.Histories.{Reach, here, next}
use stateline.Comms.Delegator.Events.{
  Event, arrives, polls, perform, AcceptsAll, Allowed, says_hello, asks, answers, has_polled,
}
use stateline.Prelude.{◌≡◌, refl, true, [], ◌∷◌, ok, err, arith}
use stateline.Std.Key.{str_key, nat_key}
use stateline.Comms.Messages.{Message, hello, request, result, bytes}
use stateline.Comms.Delegator.State.{Delegator, Zmq, create, Job, Request, Worker}
use stateline.Comms.Delegator.Handlers.{receive_request, receive_result}
use stateline.Comms.Delegator.Polling.{on_poll}
use stateline.Comms.Delegator.Wiring.{new_worker, router}
use stateline.Comms.Router
use stateline.Common.CircularBuffer

abbrev pub accepting : Zmq
accepting = record {
  accepts_requester = λ m. true;
  accepts_heartbeat = λ m. true;
  accepts_network = λ m. true;
}

abbrev pub hello_message : Message
hello_message = record { address = bytes "W" ∷ []; subject = hello; frames = bytes "" ∷ [] }

abbrev pub request_message : Message
request_message = record {
  address = bytes "7" ∷ bytes "R" ∷ [];
  subject = request;
  frames = bytes "0:1" ∷ bytes "2" ∷ [];
}

abbrev pub result_message : Message
result_message = record {
  address = bytes "W" ∷ [];
  subject = result;
  frames = bytes "0" ∷ bytes "7" ∷ [];
}

abbrev pub accepts_all : AcceptsAll accepting
accepts_all = (λ m. refl, λ m. refl, λ m. refl)

abbrev pub hello_event : Event
hello_event = arrives 2 1000 hello_message

abbrev pub request_event : Event
request_event = arrives 0 1500 request_message

abbrev pub result_event : Event
result_event = arrives 2 5000000 result_message

-- The state after an event.
abbrev after : Event → Delegator → Delegator
after e s = elim (perform accepting e s) [ ok s' ↦ s' | err f ↦ s ]

abbrev pub idle : Delegator
idle = create 2 0

abbrev pub joined_once : Delegator
joined_once = after hello_event idle

abbrev pub asked : Delegator
asked = after request_event joined_once

abbrev pub assigned_once : Delegator
assigned_once = after (polls 2000) asked

abbrev pub first_job : Job
first_job = record {
  type = 0;
  id = bytes "0";
  requester_id = bytes "7:R";
  requester_index = 0;
  start_time = 0;
}

abbrev pub second_job : Job
second_job = record {
  type = 1;
  id = bytes "1";
  requester_id = bytes "7:R";
  requester_index = 1;
  start_time = 0;
}

abbrev pub free_worker : Worker
free_worker = joined 1000 hello_message (0, 2)

abbrev pub busy_worker : Worker
busy_worker = record free_worker {
  work_in_progress =
      (bytes "0", record first_job { start_time = 2000 })
      ∷ (bytes "1", record second_job { start_time = 2000 })
      ∷ [];
}

abbrev pub the_request : Request
the_request = opened request_message (0 ∷ 1 ∷ []) (bytes "2") 2

pub joins : perform accepting hello_event idle ≡ ok joined_once
unfolding perform route router Router.create Router.bind Router.bind_on_poll Router.dispatch
    Router.index send stoi contains insert update join_str split_set best_worker
    CircularBuffer.create new_worker receive_request receive_result on_poll create to_string
joins = refl

pub requests : perform accepting request_event joined_once ≡ ok asked
unfolding perform route router Router.create Router.bind Router.bind_on_poll Router.dispatch
    Router.index send stoi contains insert update join_str split_set best_worker
    CircularBuffer.create new_worker receive_request receive_result on_poll create to_string
requests = refl

pub hands_out : perform accepting (polls 2000) asked ≡ ok assigned_once
unfolding perform route router Router.create Router.bind Router.bind_on_poll Router.dispatch
    Router.index send stoi contains insert update join_str split_set best_worker
    CircularBuffer.create new_worker receive_request receive_result on_poll create to_string
hands_out = refl

pub hello-Allowed : Allowed idle hello_event
unfolding perform route router Router.create Router.bind Router.bind_on_poll Router.dispatch
    Router.index send stoi contains insert update join_str split_set best_worker
    CircularBuffer.create new_worker receive_request receive_result on_poll create to_string
hello-Allowed = says_hello 1000 hello_message (bytes "W") [] (0, 2) refl refl refl refl

pub request-Allowed : Allowed joined_once request_event
unfolding perform route router Router.create Router.bind Router.bind_on_poll Router.dispatch
    Router.index send stoi contains insert update join_str split_set best_worker
    CircularBuffer.create new_worker receive_request receive_result on_poll create to_string
request-Allowed =
    asks 1500 request_message (bytes "7:R") (bytes "0:1") (bytes "2") (0 ∷ 1 ∷ []) refl refl refl
      refl refl refl (omega arith) (omega arith)

pub has_joined : Reach accepting 2 0 joined_once
has_joined = next hello_event here hello-Allowed joins

pub has_asked : Reach accepting 2 0 asked
has_asked = next request_event has_joined request-Allowed requests

pub has_assigned : Reach accepting 2 0 assigned_once
has_assigned = next (polls 2000) has_asked (has_polled 2000) hands_out

pub result-Allowed : Allowed assigned_once result_event
unfolding perform route router Router.create Router.bind Router.bind_on_poll Router.dispatch
    Router.index send stoi contains insert update join_str split_set best_worker
    CircularBuffer.create new_worker receive_request receive_result on_poll create to_string
result-Allowed =
    answers 5000000 result_message (bytes "W") (bytes "0") (bytes "7") busy_worker
      (record first_job { start_time = 2000 }) refl refl refl refl refl refl
