-- ===== src/Comms/Pipeline/Tests.antt =====
-- A batch of the requester, answered in the small run.
use stateline.Prelude.{ℕ, ◌≤◌, ◌≡◌, refl, ap, true, [], ◌∷◌, length, arith, int_max, ok}
use mathlib.Core.List.{Memᴰ}
use stateline.Comms.Delegator.Count.{count}
use stateline.Comms.Delegator.Completed.{answered_twice}
use stateline.Comms.Delegator.Events.{perform}
use stateline.Comms.Delegator.Handlers.{receive_request, receive_result, transform_types}
use stateline.Comms.Delegator.Keeping.{replies}
use stateline.Comms.Delegator.Polling.{on_poll}
use stateline.Comms.Delegator.Routing.{route}
use stateline.Comms.Delegator.Scenario.{accepts_all, request_message}
use stateline.Comms.Delegator.Schedule.{best_worker}
use stateline.Comms.Delegator.State.{create}
use stateline.Comms.Delegator.Wiring.{new_worker, router}
use stateline.Comms.Messages.{Message, bytes, request, result}
use stateline.Comms.Pipeline.Runs.{Run-retrieve, Run-completes}
use stateline.Comms.Pipeline.Sample.{
  read_number, print_number, last_digit, five_more, read_printed, minions-Run,
}
use stateline.Comms.Requester.{retrieve, submit}
use stateline.Comms.Requester.TypeSets.{has, texts}
use stateline.Comms.Requester.Types.{transform_types-join_str}
use stateline.Comms.Router
use stateline.Comms.Socket.{send}
use stateline.Common.CircularBuffer
use stateline.Common.Text.{join_str, split_set}
use stateline.Std.Decimal.{stoi, to_string}
use stateline.Std.Decimal.RoundTrip.{to_string_no_colon, to_string-ne-nil}
use stateline.Std.Key.{Str, str_key, nat_key}
use stateline.Std.Map.{contains, insert, update, at_or_insert, erase}

abbrev batch : Message
batch = record {
  address = bytes "7" ∷ [];
  subject = request;
  frames = bytes "0:1" ∷ bytes "2" ∷ [];
}

abbrev sevens : Message
sevens = record {
  address = bytes "7" ∷ bytes "R" ∷ [];
  subject = result;
  frames = bytes "7" ∷ bytes "7" ∷ [];
}

small_types : (n : ℕ) → has n (0 ∷ 1 ∷ []) ≡ true → n ≤ int_max
small_types n h = ground arith

submits : submit print_number 7 (0 ∷ 1 ∷ []) (2 ∷ []) ≡ ok batch
unfolding submit join_str to_string
submits = refl

answered : Memᴰ sevens (replies answered_twice.sent)
unfolding perform route router Router.create Router.bind Router.bind_on_poll Router.dispatch
    Router.index send stoi contains insert update join_str split_set best_worker
    CircularBuffer.create CircularBuffer.push_back new_worker receive_request receive_result on_poll
    create to_string at_or_insert erase replies
answered = Memᴰ.head refl

only_batch : (x : Message) → Memᴰ x (request_message ∷ []) → x.frames ≡ batch.frames
only_batch x (Memᴰ.head e) = ap (λ (m : Message). m.frames) e
only_batch x (Memᴰ.tail d) = elim d [ ]

all_done : count (λ j. 1) answered_twice ≡ 0
unfolding perform route router Router.create Router.bind Router.bind_on_poll Router.dispatch
    Router.index send stoi contains insert update join_str split_set best_worker
    CircularBuffer.create CircularBuffer.push_back new_worker receive_request receive_result on_poll
    create to_string at_or_insert erase count
all_done = refl

Run-retrieve_example : retrieve read_number sevens ≡ ok (7, 7 ∷ 7 ∷ [])
Run-retrieve_example =
    Run-retrieve read_number print_number last_digit five_more read_printed
      (λ x. to_string_no_colon (last_digit x)) (λ x. to_string-ne-nil (last_digit x)) 7 0 (1 ∷ []) 2
      [] (bytes "R" ∷ []) sevens batch accepts_all minions-Run answered (omega arith) (omega arith)
      small_types submits refl (λ x d a. only_batch x d)

Run-completes_example :
    (m : Message) × Memᴰ m (replies answered_twice.sent)
    × (m.address ≡ bytes "7" ∷ bytes "R" ∷ [])
    × (retrieve read_number m ≡ ok (7, 7 ∷ 7 ∷ []))
Run-completes_example =
    Run-completes read_number print_number last_digit five_more read_printed
      (λ x. to_string_no_colon (last_digit x)) (λ x. to_string-ne-nil (last_digit x)) 7 0 (1 ∷ []) 2
      [] (bytes "R" ∷ []) batch accepts_all minions-Run all_done (omega arith) (omega arith)
      small_types submits (Memᴰ.head refl) (λ x d a. only_batch x d)

transform_types-join_str_example :
    (text : Str) × (join_str (texts (9 ∷ 10 ∷ [])) (b':' ∷ []) ≡ ok text)
    × (transform_types (split_set text b':') [] ≡ ok (9 ∷ 10 ∷ []))
    × (length (split_set text b':') ≡ length {A = ℕ} (9 ∷ 10 ∷ []))
transform_types-join_str_example =
    transform_types-join_str 9 (10 ∷ []) (omega arith) (λ n h. ground arith)
