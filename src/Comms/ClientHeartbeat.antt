-- ===== src/Comms/ClientHeartbeat.antt =====
-- comms/clientheartbeat.hpp and comms/clientheartbeat.cpp: the heartbeat of a worker. The clock is
-- read once for each handler.
pub mod Rate
use stateline.Prelude.{
  ℕ, Bool, true, false, none, List, [], ◌∷◌, ◌++◌, if◌then◌else◌, Result, ok, ◌>>=◌,
}
use stateline.Comms.Messages.{Message, heartbeat, goodbye}
use stateline.Comms.Socket.{send}
use stateline.Comms.Router.{Callback, Router}
use stateline.Comms.Router
use stateline.Comms.ServerHeartbeat.{is_due}

pub record ClientHeartbeat : Type 0 where
  pub last_send_time : ℕ
  pub last_received_time : ℕ
  pub running : Bool
  pub sent : List Message

-- `start`, which reads the clock.
unfoldable pub create : (now : ℕ) → ClientHeartbeat
create now = record { last_send_time = now; last_received_time = now; running = true; sent = [] }

unfoldable pub heartbeat_arrived : ℕ → Callback ClientHeartbeat
heartbeat_arrived now m s = ok (record s { last_received_time = now })

unfoldable pub goodbye_arrived : Callback ClientHeartbeat
goodbye_arrived m s = ok (record s { running = false })

abbrev pub beat : Message
beat = record { address = []; subject = heartbeat; frames = [] }

unfoldable pub send_heartbeat :
    (accepts : Message → Bool) (frequency now : ℕ) → ClientHeartbeat → Result ClientHeartbeat
unfolding is_due
send_heartbeat accepts frequency now s =
    if is_due frequency now s.last_send_time
    then (do
      s' ← send (accepts beat) (record s { sent = s.sent ++ beat ∷ [] }) none beat
      ok (record s' { last_send_time = now }))
    else ok s

-- The bindings of the constructor.
unfoldable pub router : (accepts : Message → Bool) (rate now : ℕ) → Result (Router ClientHeartbeat)
router accepts rate now = do
  r₁ ← Router.bind 0 heartbeat (heartbeat_arrived now) (Router.create 1)
  r₂ ← Router.bind 0 goodbye goodbye_arrived r₁
  ok (Router.bind_on_poll (send_heartbeat accepts rate now) r₂)
