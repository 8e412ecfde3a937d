-- ===== src/Comms/Delegator/Events.antt =====
-- The events of the delegator, and those that keep to the protocol.
use stateline.Prelude.{
  ℕ, ◌+◌, ◌<◌, ◌≡◌, true, List, [], ◌∷◌, none, some, length, uint_mod, Result, ok, ◌>>=◌,
}
use stateline.Std.Key.{Str, str_key}
use stateline.Std.Map.{find}
use stateline.Common.Text.{join_str, split_set}
use stateline.Comms.Messages.{Message, hello, heartbeat, request, result, goodbye}
use stateline.Comms.Delegator.State.{Job, Worker, Delegator, Zmq, front, frame}
use stateline.Comms.Delegator.Handlers.{parse_range, transform_types}
use stateline.Comms.Delegator.Wiring.{router}
use stateline.Comms.Delegator.Count.{Inv}
use stateline.Comms.Delegator.Routing.{route}

pub data Event : Type 0 where
  arrives : (socket now : ℕ) → Message → Event
  polls : (now : ℕ) → Event

-- One event, through the router that the constructor sets up.
unfoldable pub perform : Zmq → Event → Delegator → Result Delegator
perform zmq (arrives socket now msg) s = route zmq now socket msg s
perform zmq (polls now) s = do r ← router zmq now; r.on_poll s

abbrev pub AcceptsAll : Zmq → Type 0
AcceptsAll zmq =
    ((m : Message) → zmq.accepts_requester m ≡ true)
    × ((m : Message) → zmq.accepts_heartbeat m ≡ true)
    × ((m : Message) → zmq.accepts_network m ≡ true)

-- The events that keep to the protocol in a state: a readable HELLO, a readable REQUEST with an
-- id that is not pending, a RESULT of a connected worker for a job that it has in progress or of a
-- worker that is not connected, GOODBYE and HEARTBEAT from either side, and polling.
pub data Allowed (s : Delegator) : Event → Type 0 where
  says_hello :
      (now : ℕ) (msg : Message) (id text : Str) (range : ℕ × ℕ)
      → msg.subject ≡ hello
      → front msg.address ≡ ok id
      → frame msg.frames 0 ≡ ok text
      → parse_range s.n_job_types text ≡ ok range
      → Allowed s (arrives 2 now msg)
  asks :
      (now : ℕ) (msg : Message) (id text content : Str) (types : List ℕ)
      → msg.subject ≡ request
      → join_str msg.address (b':' ∷ []) ≡ ok id
      → frame msg.frames 0 ≡ ok text
      → transform_types (split_set text b':') [] ≡ ok types
      → frame msg.frames 1 ≡ ok content
      → find id s.requests ≡ none
      → 0 < length types
      → s.next_job_id + length types < uint_mod
      → Allowed s (arrives 0 now msg)
  answers :
      (now : ℕ) (msg : Message) (k job_id text : Str) (w : Worker) (j : Job)
      → msg.subject ≡ result
      → front msg.address ≡ ok k
      → frame msg.frames 0 ≡ ok job_id
      → frame msg.frames 1 ≡ ok text
      → find k s.workers ≡ some w
      → find job_id w.work_in_progress ≡ some j
      → Allowed s (arrives 2 now msg)
  answers_late :
      (now : ℕ) (msg : Message) (k : Str)
      → msg.subject ≡ result
      → front msg.address ≡ ok k
      → find k s.workers ≡ none
      → Allowed s (arrives 2 now msg)
  leaves :
      (now : ℕ) (msg : Message) (k : Str)
      → msg.subject ≡ goodbye
      → front msg.address ≡ ok k
      → Allowed s (arrives 2 now msg)
  is_lost :
      (now : ℕ) (msg : Message) (k : Str)
      → msg.subject ≡ goodbye
      → front msg.address ≡ ok k
      → Allowed s (arrives 1 now msg)
  beats : (now : ℕ) (msg : Message) → msg.subject ≡ heartbeat → Allowed s (arrives 2 now msg)
  is_beaten : (now : ℕ) (msg : Message) → msg.subject ≡ heartbeat → Allowed s (arrives 1 now msg)
  has_polled : (now : ℕ) → Allowed s (polls now)

-- The event ends without a fault, in a state with the invariant.
abbrev pub IsSafe : Zmq → Event → Delegator → Type 0
IsSafe zmq e s = (s' : Delegator) × (perform zmq e s ≡ ok s') × Inv s'
