-- ===== src/Comms/ServerHeartbeat.antt =====
-- comms/serverheartbeat.hpp and comms/serverheartbeat.cpp: the monitoring of the connected clients.
-- A `std::set` of clients is a map to `Unit`. The clock is read once for each handler,
-- but once for each client where timeouts are looked for.
pub mod Timeouts
use stateline.Prelude.{
  ℕ, ◌-◌, ◌/◌, Bool, true, false, Option, none, some, List, [], ◌∷◌, ◌++◌, foldl, ltb, leb, ◌==◌,
  if◌then◌else◌, Result, ok, err, ◌>>=◌, ◌>>◌, guard, undefined_behaviour, ◌&&◌,
}
use stateline.Std.Key.{Str, str_key}
use stateline.Std.Map.{Map, find, contains, insert, update, erase, at_or_insert}
use stateline.Std.Vector.{back}
use stateline.Comms.Messages.{Message, Subject, hello, heartbeat, goodbye}
use stateline.Comms.Socket.{send}
use stateline.Comms.Router.{Callback, Router}
use stateline.Comms.Router

pub record ServerHeartbeat : Type 0 where
  pub clients : Map Str (Unit {0})
  pub last_heartbeats : Map Str ℕ
  pub last_send_time : ℕ
  pub sent : List Message

-- The constructor and `start`, which reads the clock first.
unfoldable pub create : (now : ℕ) → ServerHeartbeat
create now = record { clients = []; last_heartbeats = []; last_send_time = now; sent = [] }

unfoldable pub insert_client : ℕ → Callback ServerHeartbeat
insert_client now m s = do
  address ← back m.address
  ok (record s {
    clients = insert address tt s.clients;
    last_heartbeats = insert address now s.last_heartbeats;
  })

-- `clients.erase(clients.find(address))` is undefined when the client is not there.
unfoldable pub delete_client : Callback ServerHeartbeat
delete_client m s = do
  address ← back m.address
  guard (contains address s.clients) undefined_behaviour
  ok (record s {
    clients = erase address s.clients;
    last_heartbeats = erase address s.last_heartbeats;
  })

unfoldable pub receive_heartbeat : ℕ → Callback ServerHeartbeat
receive_heartbeat now m s = do
  address ← back m.address
  let (last, times) = at_or_insert address 0 s.last_heartbeats
  ok (record s { last_heartbeats = update address now times })

-- `msElapsed > msTimeout`. The elapsed time may be negative, and then it is not greater.
unfoldable pub is_silent : (timeout now last : ℕ) → Bool
is_silent timeout now last = ltb timeout ((now - last) / 1000000)

-- A message to or on behalf of one client.
abbrev pub about : Str → Subject → Message
about address t = record { address = address ∷ []; subject = t; frames = [] }

unfoldable pub hb_send : (Message → Bool) → Callback ServerHeartbeat
hb_send accepts m s = send (accepts m) (record s { sent = s.sent ++ m ∷ [] }) none m

-- The first loop of `monitorTimeouts`, with the clients that it will remove. `clock` gives the
-- time that is read for a client.
unfoldable pub check_clients :
    (accepts : Message → Bool) (timeout : ℕ) (clock : Str → ℕ)
    → Map Str (Unit {0})
    → ServerHeartbeat
    → Result (ServerHeartbeat × List Str)
unfolding is_silent hb_send
check_clients accepts timeout clock [] s = ok (s, [])
check_clients accepts timeout clock ((address, _) ∷ rest) s =
    let (last, times) = at_or_insert address 0 s.last_heartbeats in
    if is_silent timeout (clock address) last
    then (do
      s' ← hb_send accepts (about address goodbye) (record s { last_heartbeats = times })
      (s'', to_remove) ←
          check_clients accepts timeout clock rest
            (record s' { last_heartbeats = erase address s'.last_heartbeats })
      ok (s'', address ∷ to_remove))
    else check_clients accepts timeout clock rest (record s { last_heartbeats = times })

unfoldable pub remove_all : List Str → Map Str (Unit {0}) → Map Str (Unit {0})
remove_all [] clients = clients
remove_all (address ∷ rest) clients = remove_all rest (erase address clients)

unfoldable pub monitor_timeouts :
    (accepts : Message → Bool) (timeout : ℕ) (clock : Str → ℕ)
    → ServerHeartbeat
    → Result ServerHeartbeat
unfolding check_clients remove_all
monitor_timeouts accepts timeout clock s = do
  (s', to_remove) ← check_clients accepts timeout clock s.clients s
  ok (record s' { clients = remove_all to_remove s'.clients })

-- `timeSinceLastHb >= milliseconds(msFrequency)`, where the time rounds towards zero.
unfoldable pub is_due : (frequency now last : ℕ) → Bool
is_due frequency now last =
    if leb last now
    then leb frequency ((now - last) / 1000000)
    else frequency == 0 && (last - now) / 1000000 == 0

unfoldable pub beat_clients :
    (accepts : Message → Bool) (now : ℕ)
    → Map Str (Unit {0})
    → ServerHeartbeat
    → Result ServerHeartbeat
unfolding hb_send
beat_clients accepts now [] s = ok s
beat_clients accepts now ((address, _) ∷ rest) s = do
  s' ← hb_send accepts (about address heartbeat) s
  beat_clients accepts now rest (record s' { last_send_time = now })

unfoldable pub send_heartbeats :
    (accepts : Message → Bool) (frequency now : ℕ) → ServerHeartbeat → Result ServerHeartbeat
unfolding is_due beat_clients
send_heartbeats accepts frequency now s =
    if is_due frequency now s.last_send_time then beat_clients accepts now s.clients s else ok s

-- The bindings of the constructor.
unfoldable pub router :
    (accepts : Message → Bool) (timeout rate : ℕ) (clock : Str → ℕ) (now : ℕ)
    → Result (Router ServerHeartbeat)
router accepts timeout rate clock now = do
  r₁ ← Router.bind 0 hello (insert_client now) (Router.create 1)
  r₂ ← Router.bind 0 goodbye delete_client r₁
  r₃ ← Router.bind 0 heartbeat (receive_heartbeat now) r₂
  ok (
      Router.bind_on_poll
        (λ s. monitor_timeouts accepts timeout clock s >>= send_heartbeats accepts rate now) r₃)
