-- ===== src/Comms/Delegator/Wiring.antt =====
-- comms/delegator.cpp: the callbacks that the constructor binds, and their router.
use stateline.Prelude.{ℕ, if◌then◌else◌, Result, ok, ◌>>=◌}
use stateline.Std.Key.{str_key, nat_key}
use stateline.Std.Map.{contains}
use stateline.Comms.Messages.{hello, heartbeat, request, result, goodbye}
use stateline.Comms.Router.{Callback, Router}
use stateline.Comms.Router
use stateline.Comms.Delegator.State.{Delegator, Zmq, front}
use stateline.Comms.Delegator.Handlers.{
  connect_worker, receive_request, receive_result, disconnect_worker, network_send, heartbeat_send,
}
use stateline.Comms.Delegator.Polling.{on_poll}

-- `fNewWorker`.
unfoldable pub new_worker : Zmq → ℕ → Callback Delegator
unfolding heartbeat_send connect_worker
new_worker zmq now msg s = do
  s' ← heartbeat_send zmq msg s
  worker ← front msg.address
  if contains worker s'.workers then ok s' else connect_worker now msg s'

-- `fForwardToHBAndDisconnect`.
unfoldable pub forward_and_disconnect : Zmq → Callback Delegator
unfolding heartbeat_send disconnect_worker
forward_and_disconnect zmq msg s = heartbeat_send zmq msg s >>= disconnect_worker msg

abbrev pub requester_socket : ℕ
requester_socket = 0

abbrev pub hb_socket : ℕ
hb_socket = 1

abbrev pub network_socket : ℕ
network_socket = 2

-- The bindings of the constructor, in its order.
unfoldable pub router : Zmq → ℕ → Result (Router Delegator)
router zmq now = do
  r₁ ← Router.bind requester_socket request receive_request (Router.create 3)
  r₂ ← Router.bind network_socket hello (new_worker zmq now) r₁
  r₃ ← Router.bind network_socket result (receive_result zmq now) r₂
  r₄ ← Router.bind network_socket heartbeat (heartbeat_send zmq) r₃
  r₅ ← Router.bind network_socket goodbye (forward_and_disconnect zmq) r₄
  r₆ ← Router.bind hb_socket heartbeat (network_send zmq) r₅
  r₇ ← Router.bind hb_socket goodbye disconnect_worker r₆
  ok (Router.bind_on_poll (on_poll zmq now) r₇)
