-- ===== src/Comms/Delegator/Tests.antt =====
-- The theorems on the delegator at a small run.
use stateline.Comms.Messages.{Address, bytes, result, unnamed}
use stateline.Comms.Socket.{send}
use stateline.Comms.Router
use stateline.Common.CircularBuffer
use stateline.Common.Text.{join_str, split_set}
use stateline.Std.Decimal.{stoi, to_string}
use stateline.Std.Map.{find, contains, insert, update}
use stateline.Std.Key.{Str, str_key, nat_key}
use stateline.Comms.Delegator.Schedule.{best_worker}
use stateline.Comms.Delegator.Polling.{on_poll}
use stateline.Comms.Delegator.Handlers.{receive_request, receive_result, disconnect_worker}
use stateline.Comms.Delegator.Wiring.{router, new_worker}
use stateline.Comms.Delegator.Routing.{route, route-handler, route_unnamed, serve, handler}
use stateline.Comms.Delegator.Faults.{on_poll_refused, receive_result_unknown_job}
use stateline.Comms.Delegator.Choice.{IsChoice}
use stateline.Comms.Delegator.Choosing.{best_worker_chooses}
use stateline.Comms.Delegator.Connecting.{new_worker_ok, connected}
use stateline.Comms.Delegator.Submitting.{receive_request_ok, opened, requested}
use stateline.Comms.Delegator.Keeping.{KeepsWork, replies, SameJobs, disconnect_worker_ok, without}
use stateline.Comms.Delegator.Assignment.{on_poll_ok}
use stateline.Comms.Delegator.Telling.{NoNewWork}
use stateline.Comms.Delegator.Runs.{answers_right, answers_conserved, all_answered}
use stateline.Comms.Delegator.Answers.{sum_messages, RightAnswer}
use stateline.Comms.Delegator.Completed.{IsSeven, completed_sevens, answered_twice}
use stateline.Std.Map.{at_or_insert, erase}
use stateline.Std.Map.Laws.{sum_values}
use stateline.Prelude.{ℕ, ◌+◌, All}
use stateline.Comms.Delegator.Answered.{IsAnswered}
use stateline.Comms.Delegator.Receiving.{receive_result_ok}
use stateline.Comms.Delegator.Histories.{Reach-IsSafe, create-Inv}
use stateline.Comms.Delegator.Count.{Inv, Weight, count}
use stateline.Comms.Delegator.Events.{IsSafe, polls, has_polled, perform}
use stateline.Comms.Delegator.State.{Zmq, Job, Request, Delegator, create, log_sent, to_heartbeat}
use stateline.Comms.Delegator.Scenario.{
  accepting, accepts_all, hello_message, request_message, result_message, result_event, idle,
  joined_once, asked, assigned_once, has_joined, has_asked, has_assigned, result-Allowed, first_job,
  second_job, free_worker, busy_worker, the_request,
}
use stateline.Prelude.{
  ◌≡◌, refl, false, [], ◌∷◌, ok, err, Option, some, none, arith, if◌then◌else◌, undefined_behaviour,
  out_of_range, ◌+◌,
}

-- A network that takes no message.
abbrev refusing : Zmq
refusing = record accepting { accepts_network = λ m. false }

abbrev started_job : Job
started_job = record first_job { start_time = 2000 }

Reach-IsSafe_example : Inv assigned_once × IsSafe accepting result_event assigned_once
Reach-IsSafe_example = Reach-IsSafe result_event accepts_all has_assigned result-Allowed

assigned_once-Inv : Inv assigned_once
assigned_once-Inv = (Reach-IsSafe (polls 0) accepts_all has_assigned (has_polled 0)).0

joined_once-Inv : Inv joined_once
joined_once-Inv = (Reach-IsSafe (polls 0) accepts_all has_joined (has_polled 0)).0

asked-Inv : Inv asked
asked-Inv = (Reach-IsSafe (polls 0) accepts_all has_asked (has_polled 0)).0

receive_result_ok_example :
    (r : Request) × (s' : Delegator) × (find (bytes "7:R") assigned_once.requests ≡ some r)
    × (receive_result accepting 5000000 result_message assigned_once ≡ ok s')
    × Inv s'
    × IsAnswered started_job (bytes "7") r assigned_once s'
    × ((p : Weight) → count p assigned_once ≡ p started_job + count p s')
    × NoNewWork assigned_once.workers s'.workers
unfolding perform route router Router.create Router.bind Router.bind_on_poll Router.dispatch
    Router.index send stoi contains insert update join_str split_set best_worker
    CircularBuffer.create new_worker receive_request receive_result on_poll create to_string
receive_result_ok_example =
    receive_result_ok accepting 5000000 (bytes "W") (bytes "0") (bytes "7") busy_worker started_job
      result_message assigned_once (λ m. refl) assigned_once-Inv refl refl refl refl refl

on_poll_ok_example :
    (s' : Delegator) × (on_poll accepting 2000 asked ≡ ok s') × Inv s' × KeepsWork asked s'
on_poll_ok_example = on_poll_ok accepting 2000 asked (λ m. refl) asked-Inv

receive_request_ok_example :
    let r = opened request_message (0 ∷ 1 ∷ []) (bytes "2") 2 in
    (receive_request request_message joined_once ≡ ok (requested (bytes "7:R") r joined_once))
    × Inv (requested (bytes "7:R") r joined_once)
    × (find (bytes "7:R") (requested (bytes "7:R") r joined_once).requests ≡ some r)
unfolding perform route router Router.create Router.bind Router.bind_on_poll Router.dispatch
    Router.index send stoi contains insert update join_str split_set best_worker
    CircularBuffer.create new_worker receive_request receive_result on_poll create to_string
receive_request_ok_example =
    receive_request_ok request_message joined_once (bytes "7:R") (bytes "0:1") (bytes "2")
      (0 ∷ 1 ∷ []) joined_once-Inv refl refl refl refl refl (omega arith) (omega arith)

new_worker_ok_example :
    let s₁ = log_sent (to_heartbeat hello_message) idle in
    let s' =
      if contains (bytes "W") idle.workers
      then s₁
      else connected 1000 hello_message (bytes "W") (0, 2) s₁ in
    (new_worker accepting 1000 hello_message idle ≡ ok s') × Inv s'
unfolding perform route router Router.create Router.bind Router.bind_on_poll Router.dispatch
    Router.index send stoi contains insert update join_str split_set best_worker
    CircularBuffer.create new_worker receive_request receive_result on_poll create to_string
new_worker_ok_example =
    new_worker_ok accepting 1000 hello_message (bytes "W") [] (0, 2) idle (create-Inv 2 0) refl refl
      refl refl

best_worker_chooses_example :
    (b : Option Str) × (best_worker 1 10 assigned_once.workers ≡ ok b)
    × IsChoice 1 10 assigned_once.workers b
best_worker_chooses_example =
    best_worker_chooses 1 10 assigned_once.workers assigned_once-Inv.workers_sorted
      assigned_once-Inv.workers_ok

disconnect_worker_ok_example :
    let s' = without (bytes "W") busy_worker assigned_once in
    (disconnect_worker hello_message assigned_once ≡ ok s')
    × Inv s'
    × SameJobs assigned_once s'
    × (find (bytes "W") s'.workers ≡ none)
unfolding perform route router Router.create Router.bind Router.bind_on_poll Router.dispatch
    Router.index send stoi contains insert update join_str split_set best_worker
    CircularBuffer.create new_worker receive_request receive_result on_poll create to_string
disconnect_worker_ok_example =
    disconnect_worker_ok hello_message (bytes "W") busy_worker assigned_once assigned_once-Inv refl
      refl

on_poll_refused_example : on_poll refusing 2000 asked ≡ err undefined_behaviour
unfolding perform route router Router.create Router.bind Router.bind_on_poll Router.dispatch
    Router.index send stoi contains insert update join_str split_set best_worker
    CircularBuffer.create new_worker receive_request receive_result on_poll create to_string
on_poll_refused_example =
    on_poll_refused refusing 2000 first_job (second_job ∷ []) (bytes "W") free_worker the_request
      asked asked-Inv refl refl refl refl refl

receive_result_unknown_job_example :
    receive_result accepting 5000000 result_message joined_once
    ≡ err (if contains 0 free_worker.times then undefined_behaviour else out_of_range)
unfolding perform route router Router.create Router.bind Router.bind_on_poll Router.dispatch
    Router.index send stoi contains insert update join_str split_set best_worker
    CircularBuffer.create new_worker receive_request receive_result on_poll create to_string
receive_result_unknown_job_example =
    receive_result_unknown_job accepting 5000000 (bytes "W") (bytes "0") (bytes "7") free_worker
      result_message joined_once refl refl refl refl refl refl

route-handler_example :
    route accepting 2000 2 result_message assigned_once
    ≡ serve (handler accepting 2000 2 result) result_message assigned_once
route-handler_example = route-handler accepting 2000 2 result_message assigned_once (omega arith) tt

route_unnamed_example :
    route accepting 2000 2 (record hello_message { subject = unnamed 6 }) idle
    ≡ err undefined_behaviour
route_unnamed_example =
    route_unnamed accepting 2000 6 (record hello_message { subject = unnamed 6 }) idle refl
      (omega arith) (omega arith)

answers_right_example :
    All (RightAnswer IsSeven (request_message ∷ [])) (replies answered_twice.sent)
answers_right_example = answers_right IsSeven accepts_all completed_sevens

answers_conserved_example :
    sum_messages (λ a. 1) (replies answered_twice.sent)
      + sum_values (λ (r : Request). 1) answered_twice.requests
    ≡ sum_messages (λ a. 1) (request_message ∷ [])
answers_conserved_example = answers_conserved IsSeven accepts_all completed_sevens (λ a. 1)

all_answered_example :
    (answered_twice.requests ≡ [])
    × ((p : Address → ℕ)
        → sum_messages p (replies answered_twice.sent) ≡ sum_messages p (request_message ∷ []))
unfolding perform route router Router.create Router.bind Router.bind_on_poll Router.dispatch
    Router.index send stoi contains insert update join_str split_set best_worker
    CircularBuffer.create CircularBuffer.push_back new_worker receive_request receive_result on_poll
    create to_string at_or_insert erase count
all_answered_example = all_answered IsSeven accepts_all completed_sevens refl
