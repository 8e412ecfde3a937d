-- ===== src/Comms/Tests.antt =====
-- The theorems on sockets and routers at small inputs.
use stateline.Comms.ClientHeartbeat.Rate.{send_at, send_at_ok}
use stateline.Comms.ClientHeartbeat.{ClientHeartbeat}
use stateline.Comms.Minion.Exchange.{parse_range-range_text}
use stateline.Comms.Minion.{range_text}
use stateline.Comms.Delegator.Handlers.{parse_range}
use stateline.Std.Key.{str_key}
use stateline.Std.Map.{find}
use stateline.Std.Vector.{back}
use stateline.Comms.ServerHeartbeat.Timeouts.{
  awake_among, silent_among, goodbyes, monitor_timeouts_ok, delete_client-monitor_timeouts,
}
use stateline.Comms.ServerHeartbeat.{ServerHeartbeat, monitor_timeouts, delete_client, about}
use stateline.Comms.Worker.Order.{take_all_ok}
use stateline.Comms.Worker.Arrivals.{
  Arrival, minion_result, heartbeat_goodbye, network_job, take_all, arrived, IsSteady, all_jobs,
}
use stateline.Comms.ClientHeartbeat
use stateline.Comms.Worker
use stateline.Comms.Worker.{Worker, Sockets}
use stateline.Prelude.{
  ℕ, ◌≡◌, refl, [], ◌∷◌, ◌++◌, ok, err, arith, ◌+◌, true, inr, List, undefined_behaviour, length,
  ◌*◌, ◌≤◌,
}
use stateline.Comms.Messages.{Message, bytes, result, goodbye, code, subject_of}
use stateline.Comms.Socket.{send_parts, receive}
use stateline.Comms.Socket.RoundTrip.{receive-send_parts}

abbrev reply : Message
reply = record {
  address = bytes "7" ∷ bytes "R" ∷ [];
  subject = result;
  frames = bytes "1.5" ∷ bytes "" ∷ [];
}

receive-send_parts_example :
    receive (send_parts reply ++ send_parts reply) ≡ ok (reply, send_parts reply)
unfolding code subject_of
receive-send_parts_example =
    receive-send_parts reply (send_parts reply) (record {
      filled = (λ e. cc, (λ e. cc, tt));
      subject_fits = omega arith;
      subject_cast = refl;
    })

abbrev accepting_sockets : Sockets
accepting_sockets = record {
  accepts_minion = λ m. true;
  accepts_heartbeat = λ m. true;
  accepts_network = λ m. true;
}

-- Two jobs come before the first result.
abbrev busy_day : List Arrival
busy_day =
    network_job [] (bytes "0" ∷ [])
    ∷ network_job [] (bytes "1" ∷ [])
    ∷ minion_result [] (bytes "0" ∷ [])
    ∷ heartbeat_goodbye [] []
    ∷ network_job [] (bytes "2" ∷ [])
    ∷ []

take_all_ok_example :
    (s' : Worker) × (take_all accepting_sockets busy_day Worker.create ≡ ok s')
    × IsSteady s'
    × (all_jobs s' ≡ all_jobs Worker.create ++ arrived busy_day)
unfolding Worker.create
take_all_ok_example =
    take_all_ok accepting_sockets busy_day Worker.create (λ m. refl, λ m. refl, λ m. refl)
      (inr refl) refl

-- A client that was last heard at 1 ms, and one at 9 ms.
abbrev two_clients : ServerHeartbeat
two_clients = record {
  clients = (bytes "A", tt) ∷ (bytes "B", tt) ∷ [];
  last_heartbeats = (bytes "A", 1000000) ∷ (bytes "B", 9000000) ∷ [];
  last_send_time = 0;
  sent = [];
}

monitor_timeouts_ok_example :
    (s' : ServerHeartbeat) × (monitor_timeouts (λ m. true) 5 (λ a. 10000000) two_clients ≡ ok s')
    × (s'.clients ≡ awake_among 5 (λ a. 10000000) two_clients.last_heartbeats two_clients.clients)
    × (s'.sent
        ≡ two_clients.sent
          ++ goodbyes
              (silent_among 5 (λ a. 10000000) two_clients.last_heartbeats two_clients.clients))
monitor_timeouts_ok_example =
    monitor_timeouts_ok (λ m. true) 5 (λ a. 10000000) two_clients (λ m. refl) ((refl, tt), (tt, tt))

delete_client-monitor_timeouts_example :
    (s' : ServerHeartbeat) × (monitor_timeouts (λ m. true) 5 (λ a. 10000000) two_clients ≡ ok s')
    × (delete_client (about (bytes "A") goodbye) s' ≡ err undefined_behaviour)
unfolding back find
delete_client-monitor_timeouts_example =
    delete_client-monitor_timeouts (λ m. true) 5 (λ a. 10000000) (about (bytes "A") goodbye)
      (bytes "A") two_clients (λ m. refl) ((refl, tt), (tt, tt)) refl refl

parse_range-range_text_example : parse_range 9 (range_text (2, 5)) ≡ ok (2, 5)
parse_range-range_text_example = parse_range-range_text 9 2 5 (omega arith) (omega arith)

send_at_ok_example :
    let start : ClientHeartbeat = ClientHeartbeat.create 0 in
    (s' : ClientHeartbeat) × (n : ℕ) × (send_at
        (λ m. true)
        2
        (1000000 ∷ 2500000 ∷ 9000000 ∷ [])
        start
      ≡ ok s')
    × (length s'.sent ≡ length start.sent + n)
    × (start.last_send_time + n * (2 * 1000000) ≤ s'.last_send_time)
send_at_ok_example =
    send_at_ok (λ m. true) 2 (1000000 ∷ 2500000 ∷ 9000000 ∷ []) (ClientHeartbeat.create 0)
      (λ m. refl) (omega arith)
