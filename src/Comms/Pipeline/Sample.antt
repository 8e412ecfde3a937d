-- ===== src/Comms/Pipeline/Sample.antt =====
-- A small run whose workers have minions. A number stands for a `double`; it is printed as its last
-- digit.
use stateline.Prelude.{ℕ, ◌+◌, ◌%◌, ◌≡◌, refl, ap, [], ◌∷◌, List, Result, ok, arith}
use mathlib.Core.List.{Memᴰ}
use stateline.Comms.Delegator.Scenario.{
  accepting, request_message, hello_message, result_message, assigned_once, busy_worker, first_job,
  second_job,
}
use stateline.Comms.Delegator.Completed.{
  completed, answered_once, answered_twice, second_result, message_of,
}
use stateline.Comms.Delegator.Runs.{Run, IsHonest}
use stateline.Comms.Delegator.Events.{arrives, perform}
use stateline.Comms.Delegator.Polling.{on_poll, job_message}
use stateline.Comms.Delegator.Schedule.{best_worker}
use stateline.Comms.Delegator.State.{Delegator, Sent, to_heartbeat, to_network, create, frame}
use stateline.Comms.Delegator.Handlers.{receive_request, receive_result}
use stateline.Comms.Delegator.Wiring.{new_worker, router}
use stateline.Comms.Delegator.Routing.{route}
use stateline.Comms.Messages.{Message, bytes}
use stateline.Comms.Minion.{Minion, next_job, submit_result}
use stateline.Comms.Pipeline.Computed.{IsComputed}
use stateline.Comms.Router
use stateline.Comms.Socket.{send}
use stateline.Common.CircularBuffer
use stateline.Common.Text.{join_str, split_set, split_vector}
use stateline.Std.Decimal.{stoi, stoul, to_string}
use stateline.Std.Decimal.RoundTrip.{stoul-to_string}
use stateline.Std.Key.{Str, str_key, nat_key}
use stateline.Std.Map.{contains, insert, update, at_or_insert, erase}

abbrev pub read_number : Str → Result ℕ
read_number text = stoul text

abbrev pub print_number : ℕ → Str
print_number x = to_string (x % 10)

abbrev pub last_digit : ℕ → ℕ
last_digit x = x % 10

abbrev pub five_more : ℕ → List ℕ → ℕ
five_more type [] = 5
five_more type (x ∷ xs) = x + 5

pub read_printed : (x : ℕ) → read_number (print_number x) ≡ ok (last_digit x)
read_printed x = stoul-to_string (x % 10) (omega arith)

abbrev IsFive : ℕ → Str → Str → Type 0
IsFive = IsComputed read_number print_number five_more

abbrev idle_minion : Minion
idle_minion = record { current_job = [] }

abbrev sent_jobs : List Sent
sent_jobs =
    to_heartbeat hello_message
    ∷ to_network (job_message busy_worker first_job (bytes "2"))
    ∷ to_network (job_message busy_worker second_job (bytes "2"))
    ∷ []

sent_once : assigned_once.sent ≡ sent_jobs
unfolding perform route router Router.create Router.bind Router.bind_on_poll Router.dispatch
    Router.index send stoi contains insert update join_str split_set best_worker
    CircularBuffer.create CircularBuffer.push_back new_worker receive_request receive_result on_poll
    create to_string at_or_insert erase
sent_once = refl

sent_twice : answered_once.sent ≡ sent_jobs
unfolding perform route router Router.create Router.bind Router.bind_on_poll Router.dispatch
    Router.index send stoi contains insert update join_str split_set best_worker
    CircularBuffer.create CircularBuffer.push_back new_worker receive_request receive_result on_poll
    create to_string at_or_insert erase
sent_twice = refl

-- What an idle minion gives for a JOB message whose data are the number 2.
computed_seven :
    (m : Message) (t type : ℕ) (job_id content : Str) (after : Minion)
    → m.frames ≡ to_string t ∷ job_id ∷ content ∷ []
    → next_job read_number m idle_minion ≡ ok ((type, 2 ∷ []), after)
    → IsFive t content (bytes "7")
unfolding submit_result frame to_string
computed_seven m t type job_id content after f e = record {
  message = m;
  job_id = job_id;
  frames_are = f;
  before = idle_minion;
  after = after;
  type = type;
  sample = 2 ∷ [];
  reads = e;
  sends = refl;
}

first_seen :
    next_job read_number (job_message busy_worker first_job (bytes "2")) idle_minion
    ≡ ok ((0, 2 ∷ []), record { current_job = bytes "0" })
unfolding next_job stoi stoul split_vector to_string frame
first_seen = refl

second_seen :
    next_job read_number (job_message busy_worker second_job (bytes "2")) idle_minion
    ≡ ok ((1, 2 ∷ []), record { current_job = bytes "1" })
unfolding next_job stoi stoul split_vector to_string frame
second_seen = refl

abbrev sent_message : Message → Sent → Message
sent_message m (to_network x) = x
sent_message m s = m

computed_listed :
    (m : Message) (t : ℕ) (job_id content : Str)
    → Memᴰ (to_network m) sent_jobs
    → m.frames ≡ to_string t ∷ job_id ∷ content ∷ []
    → IsFive t content (bytes "7")
computed_listed m t job_id content (Memᴰ.head e) f = absurd (ground (arith, e))
computed_listed m t job_id content (Memᴰ.tail (Memᴰ.head e)) f =
    let same : m ≡ job_message busy_worker first_job (bytes "2") = ap (sent_message m) e in
    computed_seven m t 0 job_id content (record { current_job = bytes "0" }) f (rw same first_seen)
computed_listed m t job_id content (Memᴰ.tail (Memᴰ.tail (Memᴰ.head e))) f =
    let same : m ≡ job_message busy_worker second_job (bytes "2") = ap (sent_message m) e in
    computed_seven m t 1 job_id content (record { current_job = bytes "1" }) f (rw same second_seen)
computed_listed m t job_id content (Memᴰ.tail (Memᴰ.tail (Memᴰ.tail d))) f = elim d [ ]

IsHonest-of_minion :
    (s : Delegator) (now : ℕ) (msg : Message)
    → s.sent ≡ sent_jobs
    → frame msg.frames 1 ≡ ok (bytes "7")
    → IsHonest IsFive s (arrives 2 now msg)
IsHonest-of_minion s now msg sent h now' t msg' m k job_id text content e r a f₀ f₁ listed b c d =
    let same : msg ≡ msg' = ap message_of e in
    let seven : text ≡ bytes "7" = ground (arith, f₁, rw same at h) in
    rw seven (computed_listed m t job_id content (rw sent at listed) d)

pub minions-Run : Run IsFive accepting 2 0 (request_message ∷ []) answered_twice
unfolding frame
minions-Run =
    completed IsFive (IsHonest-of_minion assigned_once 5000000 result_message sent_once refl)
      (IsHonest-of_minion answered_once 6000000 second_result sent_twice refl)
