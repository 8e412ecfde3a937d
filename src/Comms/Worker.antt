-- ===== src/Comms/Worker.antt =====
-- comms/worker.hpp and comms/worker.cpp: the worker, which queues the jobs for its minion. A call of
-- `exit` is recorded, and nothing is handled after it.
pub mod Arrivals
pub mod Order
use stateline.Prelude.{
  ℕ, Bool, true, false, none, List, [], ◌∷◌, ◌++◌, if◌then◌else◌, Result, ok, err, ◌>>=◌,
}
use stateline.Comms.Messages.{Message, hello, heartbeat, job, result, goodbye}
use stateline.Comms.Socket.{send}
use stateline.Comms.Router.{Callback, Router}
use stateline.Comms.Router

pub data Sent : Type 0 where
  to_minion to_heartbeat to_network : Message → Sent

pub record Worker : Type 0 where
  pub queue : List Message
  pub minion_waiting : Bool
  pub exited : Bool
  pub sent : List Sent

-- Which messages ZeroMQ accepts on each socket.
pub record Sockets : Type 0 where
  pub accepts_minion : Message → Bool
  pub accepts_heartbeat : Message → Bool
  pub accepts_network : Message → Bool

-- The constructor.
unfoldable pub create : Worker
create = record { queue = []; minion_waiting = true; exited = false; sent = [] }

unfoldable pub minion_send : Sockets → Callback Worker
minion_send z msg s =
    send (z.accepts_minion msg) (record s { sent = s.sent ++ to_minion msg ∷ [] }) none msg

unfoldable pub forward_to_hb : Sockets → Callback Worker
forward_to_hb z msg s =
    send (z.accepts_heartbeat msg) (record s { sent = s.sent ++ to_heartbeat msg ∷ [] }) none msg

unfoldable pub network_send : Sockets → Callback Worker
network_send z msg s =
    send (z.accepts_network msg) (record s { sent = s.sent ++ to_network msg ∷ [] }) none msg

unfoldable pub on_job_from_network : Sockets → Callback Worker
unfolding minion_send
on_job_from_network z msg s =
    if s.minion_waiting
    then (do s' ← minion_send z msg s; ok (record s' { minion_waiting = false }))
    else ok (record s { queue = s.queue ++ msg ∷ [] })

-- What is done after the result was sent: the front of the queue goes to the minion.
unfoldable pub next_job : Sockets → List Message → Worker → Result Worker
unfolding minion_send
next_job z [] s = ok (record s { minion_waiting = true })
next_job z (m ∷ queue) s = do s' ← minion_send z m s; ok (record s' { queue = queue })

unfoldable pub on_result_from_minion : Sockets → Callback Worker
unfolding network_send next_job
on_result_from_minion z msg s = do s' ← network_send z msg s; next_job z s'.queue s'

-- The address is left out.
unfoldable pub forward_to_network : Sockets → Callback Worker
unfolding network_send
forward_to_network z msg s =
    network_send z (record { address = []; subject = msg.subject; frames = msg.frames }) s

unfoldable pub disconnect : Callback Worker
disconnect msg s = ok (record s { exited = true })

-- The bindings of the constructor: socket 0 is the minion's, 1 the heartbeat's, 2 the network's.
unfoldable pub router : Sockets → Result (Router Worker)
router z = do
  r₁ ← Router.bind 0 result (on_result_from_minion z) (Router.create 3)
  r₂ ← Router.bind 0 hello (forward_to_network z) r₁
  r₃ ← Router.bind 1 heartbeat (forward_to_network z) r₂
  r₄ ← Router.bind 1 goodbye disconnect r₃
  r₅ ← Router.bind 2 job (on_job_from_network z) r₄
  r₆ ← Router.bind 2 heartbeat (forward_to_hb z) r₅
  r₇ ← Router.bind 2 hello (forward_to_hb z) r₆
  Router.bind 2 goodbye (forward_to_hb z) r₇

-- What the worker does with a message from one of its sockets.
unfoldable pub handle : Sockets → ℕ → Callback Worker
handle z socket msg s = if s.exited then ok s else (do r ← router z; Router.dispatch r socket msg s)
