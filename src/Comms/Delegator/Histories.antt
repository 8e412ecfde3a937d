-- ===== src/Comms/Delegator/Histories.antt =====
-- Histories of the delegator: messages that keep to the protocol and rounds of polling.
use stateline.Prelude.{ℕ, ◌≡◌, refl, arith, ok}
use stateline.Std.Key.{str_key}
use stateline.Std.Map.{find}
use stateline.Comms.Delegator.State.{Delegator, Zmq, create}
use stateline.Comms.Delegator.Count.{count, Inv}
use stateline.Comms.Delegator.Effects.{perform_effect}
use stateline.Comms.Delegator.Events.{Event, perform, AcceptsAll, Allowed, IsSafe}

-- While ZeroMQ accepts every message, an event that keeps to the protocol ends without a fault,
-- in a state that satisfies the invariant again.
pub perform-IsSafe :
    (zmq : Zmq) (s : Delegator) (e : Event) → AcceptsAll zmq → Inv s → Allowed s e → IsSafe zmq e s
perform-IsSafe zmq s e z v a =
    let (s', done, v', _) = perform_effect zmq s e z v a in (s', done, v')

pub create-Inv : (n_job_types c : ℕ) → Inv (create n_job_types c)
unfolding create count find
create-Inv n_job_types c = record {
  workers_sorted = tt;
  requests_sorted = tt;
  workers_ok = tt;
  requests_ok = λ id r e. cc;
  no_orphans = λ id e. refl;
  unique = λ id. omega arith;
  fresh = λ n h. refl;
  told = λ k n w j r e. cc;
}

-- The states that a delegator can be in after events that keep to the protocol.
pub data Reach (zmq : Zmq) (n_job_types c : ℕ) : Delegator → Type 0 where
  here : Reach zmq n_job_types c (create n_job_types c)
  next :
      {s s' : Delegator} (e : Event)
      → Reach zmq n_job_types c s
      → Allowed s e
      → perform zmq e s ≡ ok s'
      → Reach zmq n_job_types c s'

Reach-Inv :
    {zmq : Zmq} {n_job_types c : ℕ} {s : Delegator}
    → AcceptsAll zmq
    → Reach zmq n_job_types c s
    → Inv s
Reach-Inv {n_job_types} {c} z here = create-Inv n_job_types c
Reach-Inv {zmq} z (next {s} {s'} e r a done) =
    let (s₁, done', v) = perform-IsSafe zmq s e z (Reach-Inv z r) a in
    let same : s₁ ≡ s' = ground (arith, done, done') in rw (← same) v

-- After any history of events that keep to the protocol, with ZeroMQ accepting every message, the
-- invariant holds, and a further event that keeps to the protocol ends without a fault, in a state
-- that satisfies the invariant again.
pub Reach-IsSafe :
    {zmq : Zmq} {n_job_types c : ℕ} {s : Delegator} (e : Event)
    → AcceptsAll zmq
    → Reach zmq n_job_types c s
    → Allowed s e
    → Inv s × IsSafe zmq e s
Reach-IsSafe {zmq} {s} e z r a = (Reach-Inv z r, perform-IsSafe zmq s e z (Reach-Inv z r) a)
