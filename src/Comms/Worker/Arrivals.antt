-- ===== src/Comms/Worker/Arrivals.antt =====
-- What a worker can receive, and the jobs that pass through it.
use stateline.Prelude.{◌≡◌, true, false, List, [], ◌∷◌, ◌++◌, Result, ok, ◌>>=◌, ◌⊎◌}
use stateline.Std.Key.{Str}
use stateline.Comms.Messages.{Message, Address, Subject, hello, heartbeat, job, result, goodbye}
use stateline.Comms.Worker.{Worker, Sent, to_minion, Sockets, handle}

-- The messages that the worker serves: a socket, a subject that is bound for it, and the rest.
pub data Arrival : Type 0 where
  minion_result minion_hello heartbeat_beat heartbeat_goodbye : Address → List Str → Arrival
  network_job network_beat network_hello network_goodbye : Address → List Str → Arrival

abbrev pub with_subject : Subject → Address → List Str → Message
with_subject t a ds = record { address = a; subject = t; frames = ds }

unfoldable pub take : Sockets → Arrival → Worker → Result Worker
take z (minion_result a ds) s = handle z 0 (with_subject result a ds) s
take z (minion_hello a ds) s = handle z 0 (with_subject hello a ds) s
take z (heartbeat_beat a ds) s = handle z 1 (with_subject heartbeat a ds) s
take z (heartbeat_goodbye a ds) s = handle z 1 (with_subject goodbye a ds) s
take z (network_job a ds) s = handle z 2 (with_subject job a ds) s
take z (network_beat a ds) s = handle z 2 (with_subject heartbeat a ds) s
take z (network_hello a ds) s = handle z 2 (with_subject hello a ds) s
take z (network_goodbye a ds) s = handle z 2 (with_subject goodbye a ds) s

unfoldable pub take_all : Sockets → List Arrival → Worker → Result Worker
take_all z [] s = ok s
take_all z (a ∷ rest) s = take z a s >>= take_all z rest

-- The jobs among the arrivals until the process ends, and those that were sent to the minion.
abbrev pub arrived : List Arrival → List Message
arrived [] = []
arrived (network_job a ds ∷ rest) = with_subject job a ds ∷ arrived rest
arrived (heartbeat_goodbye a ds ∷ rest) = []
arrived (_ ∷ rest) = arrived rest

abbrev pub given : List Sent → List Message
given [] = []
given (to_minion m ∷ ms) = m ∷ given ms
given (_ ∷ ms) = given ms

-- A minion that waits has left no job in the queue.
abbrev pub IsSteady : Worker → Type 0
IsSteady s = (s.minion_waiting ≡ false) ⊎ (s.queue ≡ [])

abbrev pub AcceptsAll : Sockets → Type 0
AcceptsAll z =
    ((m : Message) → z.accepts_minion m ≡ true)
    × ((m : Message) → z.accepts_heartbeat m ≡ true)
    × ((m : Message) → z.accepts_network m ≡ true)

-- All jobs that came so far, in order: the minion's, then those in the queue.
abbrev pub all_jobs : Worker → List Message
all_jobs s = given s.sent ++ s.queue
