-- ===== src/Comms/Delegator/State.antt =====
-- comms/delegator.hpp: the records of the delegator. A time point is a number of nanoseconds.
-- The messages that were sent stand in `sent`, the latest last. `Zmq` says which messages each
-- socket accepts while one handler runs.
use stateline.Prelude.{
  ℕ, Bool, List, [], ◌∷◌, ◌++◌, Result, ok, err, undefined_behaviour, get_elem?, or_fault, elapsed,
}
use stateline.Std.Key.{Str}
use stateline.Std.Map.{Map}
use stateline.Common.CircularBuffer.{CircularBuffer}
use stateline.Comms.Messages.{Address, Message}

pub record Job : Type 0 where
  pub type : ℕ
  pub id : Str
  pub requester_id : Str
  pub requester_index : ℕ
  pub start_time : ℕ

-- The field `data` is called `content`.
pub record Request : Type 0 where
  pub address : Address
  pub job_types : List ℕ
  pub content : Str
  pub results : List Str
  pub n_done : ℕ

pub record Worker : Type 0 where
  pub address : Address
  pub job_types_range : ℕ × ℕ
  pub work_in_progress : Map Str Job
  pub times : Map ℕ (CircularBuffer ℕ)
  pub last_result_time : ℕ

pub data Sent : Type 0 where
  to_requester to_heartbeat to_network : Message → Sent

pub record Delegator : Type 0 where
  pub workers : Map Str Worker
  pub requests : Map Str Request
  pub job_queue : List Job
  pub next_job_id : ℕ
  pub n_job_types : ℕ
  pub worker_count : ℕ
  pub sent : List Sent

pub record Zmq : Type 0 where
  pub accepts_requester : Message → Bool
  pub accepts_heartbeat : Message → Bool
  pub accepts_network : Message → Bool

-- The constructor. It leaves `workerCount_` as it finds it: `count` is what stands there.
unfoldable pub create : (n_job_types count : ℕ) → Delegator
create n_job_types count = record {
  workers = [];
  requests = [];
  job_queue = [];
  next_job_id = 0;
  n_job_types = n_job_types;
  worker_count = count;
  sent = [];
}

-- `Job()` and `Request()`, which `operator[]` of a map inserts for a missing key.
abbrev pub default_job : Job
default_job = record { type = 0; id = []; requester_id = []; requester_index = 0; start_time = 0 }

abbrev pub default_request : Request
default_request = record { address = []; job_types = []; content = []; results = []; n_done = 0 }

abbrev pub log_sent : Sent → Delegator → Delegator
log_sent m s = record s { sent = s.sent ++ m ∷ [] }

-- `address.front()`, undefined on an empty address.
unfoldable pub front : Address → Result Str
front [] = err undefined_behaviour
front (a ∷ rest) = ok a

-- `data[i]`, undefined beyond the end.
unfoldable pub frame : List Str → ℕ → Result Str
frame frames i = or_fault (get_elem? frames i) undefined_behaviour

-- `duration_cast<microseconds>(now - since).count()` as a `uint`.
unfoldable pub micros_since : (since now : ℕ) → ℕ
unfolding elapsed
micros_since since now = elapsed 1000 since now
