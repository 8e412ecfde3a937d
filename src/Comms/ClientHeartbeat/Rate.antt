-- ===== src/Comms/ClientHeartbeat/Rate.antt =====
-- How often a worker sends its heartbeat.
use stateline.Prelude.{
  ℕ, ◌+◌, ◌*◌, ◌≤◌, ◌<◌, ◌≡◌, refl, Bool, true, List, [], ◌∷◌, ◌++◌, arith, length, length-append,
  Result, ok, ◌>>=◌, Bool-cases, inl, inr,
}
use stateline.Comms.Messages.{Message}
use stateline.Comms.Socket.{send}
use stateline.Comms.ServerHeartbeat.{is_due}
use stateline.Comms.ClientHeartbeat.{ClientHeartbeat, beat, send_heartbeat}

-- The rounds of polling at the given times.
unfoldable pub send_at :
    (accepts : Message → Bool) (frequency : ℕ) → List ℕ → ClientHeartbeat → Result ClientHeartbeat
send_at accepts frequency [] s = ok s
send_at accepts frequency (now ∷ times) s =
    send_heartbeat accepts frequency now s >>= send_at accepts frequency times

due_gap :
    (frequency now last : ℕ)
    → 0 < frequency
    → is_due frequency now last ≡ true
    → last + frequency * 1000000 ≤ now
unfolding is_due
due_gap frequency now last pos due = ground (arith, due, pos)

-- While ZeroMQ accepts every message, polling at any times ends without a fault, and the heartbeats
-- that are sent meanwhile take at least a period of `frequency` milliseconds each: so many periods
-- lie between the old and the new time of the last heartbeat. The frequency must not be 0.
pub send_at_ok :
    (accepts : Message → Bool) (frequency : ℕ) (times : List ℕ) (s : ClientHeartbeat)
    → ((m : Message) → accepts m ≡ true)
    → 0 < frequency
    → (s' : ClientHeartbeat) × (n : ℕ) × (send_at accepts frequency times s ≡ ok s')
      × (length s'.sent ≡ length s.sent + n)
      × (s.last_send_time + n * (frequency * 1000000) ≤ s'.last_send_time)
unfolding send_at send_heartbeat send
send_at_ok accepts frequency [] s acc pos = (s, 0, refl, omega arith, omega arith)
send_at_ok accepts frequency (now ∷ times) s acc pos =
    elim (Bool-cases (is_due frequency now s.last_send_time)) [
      | inl due ↦
          let beaten = record s { sent = s.sent ++ beat ∷ []; last_send_time = now } in
          let (s', n, e, more, gap) = send_at_ok accepts frequency times beaten acc pos in
          let step = due_gap frequency now s.last_send_time pos due in
          (
            s',
            n + 1,
            rw due (rw (acc beat) e),
            omega (arith, more, length-append s.sent (beat ∷ [])),
            grind (arith, gap, step),
          )
      | inr early ↦
          let (s', n, e, more, gap) = send_at_ok accepts frequency times s acc pos in
          (s', n, rw early e, more, gap)
    ]
