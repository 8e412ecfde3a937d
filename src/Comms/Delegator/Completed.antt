-- ===== src/Comms/Delegator/Completed.antt =====
-- The small run of the delegator to its end: both jobs are answered.
use stateline.Prelude.{ℕ, ◌≡◌, refl, ap, [], ◌∷◌, ok, err, arith}
use stateline.Comms.Delegator.Scenario.{
  accepting, hello_event, request_event, request_message, result_event, result_message, idle,
  joined_once, asked, assigned_once, second_job, hello-Allowed, request-Allowed, result-Allowed,
  joins, requests, hands_out,
}
use stateline.Comms.Delegator.Schedule.{best_worker}
use stateline.Common.Text.{join_str, split_set}
use stateline.Std.Map.{contains, insert, update, at_or_insert, erase}
use stateline.Std.Decimal.{stoi, to_string}
use stateline.Std.Key.{Str, str_key, nat_key}
use stateline.Comms.Socket.{send}
use stateline.Comms.Delegator.Routing.{route}
use stateline.Comms.Delegator.Events.{Event, arrives, polls, perform, Allowed, answers, has_polled}
use stateline.Comms.Delegator.Runs.{Run, starts, goes_on, IsHonest}
use stateline.Comms.Messages.{Message, result, bytes}
use stateline.Comms.Delegator.State.{Delegator, create, frame}
use stateline.Comms.Delegator.Handlers.{receive_request, receive_result}
use stateline.Comms.Delegator.Polling.{on_poll}
use stateline.Comms.Delegator.Wiring.{new_worker, router}
use stateline.Comms.Router
use stateline.Common.CircularBuffer

abbrev after : Event → Delegator → Delegator
after e s = elim (perform accepting e s) [ ok s' ↦ s' | err f ↦ s ]

abbrev pub second_result : Message
second_result = record {
  address = bytes "W" ∷ [];
  subject = result;
  frames = bytes "1" ∷ bytes "7" ∷ [];
}

abbrev pub second_event : Event
second_event = arrives 2 6000000 second_result

abbrev pub answered_once : Delegator
answered_once = after result_event assigned_once

abbrev pub answered_twice : Delegator
answered_twice = after second_event answered_once

first_result : perform accepting result_event assigned_once ≡ ok answered_once
unfolding perform route router Router.create Router.bind Router.bind_on_poll Router.dispatch
    Router.index send stoi contains insert update join_str split_set best_worker
    CircularBuffer.create CircularBuffer.push_back new_worker receive_request receive_result on_poll
    create to_string at_or_insert erase
first_result = refl

last_result : perform accepting second_event answered_once ≡ ok answered_twice
unfolding perform route router Router.create Router.bind Router.bind_on_poll Router.dispatch
    Router.index send stoi contains insert update join_str split_set best_worker
    CircularBuffer.create CircularBuffer.push_back new_worker receive_request receive_result on_poll
    create to_string at_or_insert erase
last_result = refl

second-Allowed : Allowed answered_once second_event
unfolding perform route router Router.create Router.bind Router.bind_on_poll Router.dispatch
    Router.index send stoi contains insert update join_str split_set best_worker
    CircularBuffer.create CircularBuffer.push_back new_worker receive_request receive_result on_poll
    create to_string at_or_insert erase
second-Allowed =
    answers 6000000 second_result (bytes "W") (bytes "1") (bytes "7") _
      (record second_job { start_time = 2000 }) refl refl refl refl refl refl

module _ (IsValue : ℕ → Str → Str → Type 0) where
  hello-IsHonest : IsHonest IsValue idle hello_event
  hello-IsHonest now t msg m k job_id text content e r a f₀ f₁ h b c d = absurd (ground arith)

  request-IsHonest : IsHonest IsValue joined_once request_event
  request-IsHonest now t msg m k job_id text content e r a f₀ f₁ h b c d = absurd (ground arith)

  polls-IsHonest : IsHonest IsValue asked (polls 2000)
  polls-IsHonest now t msg m k job_id text content e r a f₀ f₁ h b c d = absurd (ground arith)

  -- The whole run.
  pub completed :
      IsHonest IsValue assigned_once result_event
      → IsHonest IsValue answered_once second_event
      → Run IsValue accepting 2 0 (request_message ∷ []) answered_twice
  completed first second =
      goes_on second_event
        (goes_on result_event
          (goes_on (polls 2000)
            (goes_on request_event
              (goes_on hello_event (starts refl refl) hello-Allowed hello-IsHonest joins refl)
              request-Allowed request-IsHonest requests refl)
            (has_polled 2000) polls-IsHonest hands_out refl)
          result-Allowed first first_result refl)
        second-Allowed second last_result refl

abbrev pub message_of : Event → Message
message_of (arrives socket now msg) = msg
message_of (polls now) = result_message

-- Every job in the run gives the text "7".
abbrev pub IsSeven : ℕ → Str → Str → Type 0
IsSeven t content text = text ≡ bytes "7"

IsHonest-of_text :
    (s : Delegator) (now : ℕ) (msg : Message)
    → frame msg.frames 1 ≡ ok (bytes "7")
    → IsHonest IsSeven s (arrives 2 now msg)
IsHonest-of_text s now msg h now' t msg' m k job_id text content e r a f₀ f₁ listed b c d =
    let same : msg ≡ msg' = ap message_of e in ground (arith, f₁, rw same at h)

pub completed_sevens : Run IsSeven accepting 2 0 (request_message ∷ []) answered_twice
unfolding frame
completed_sevens =
    completed IsSeven (IsHonest-of_text assigned_once 5000000 result_message refl)
      (IsHonest-of_text answered_once 6000000 second_result refl)
