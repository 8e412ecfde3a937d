-- ===== src/Comms/Router.antt =====
-- comms/router.cpp. Handlers work on a state `S`. What a poll finds on each socket is an argument.
pub mod Dispatch
use stateline.Prelude.{
  ℕ, suc, ◌+◌, ◌*◌, Bool, true, false, Option, none, some, List, [], ◌∷◌, length, get_elem?, set,
  replicate, ltb, if◌then◌else◌, wrap, Result, ok, err, ◌>>=◌, or_fault, bad_function_call,
  undefined_behaviour,
}
use stateline.Comms.Messages.{Message, Subject, subject_size, code}

abbrev pub Callback : Type 0 → Type 0
Callback S = Message → S → Result S

pub record Router (S : Type 0) : Type 0 where
  pub callbacks : List (Option (Callback S))
  pub on_poll : S → Result S

unfoldable pub index : ℕ → Subject → ℕ
unfolding code
index socket_index s = wrap (subject_size * socket_index + code s)

module _ {S : Type 0} where
  -- The constructor, for a number of sockets.
  unfoldable pub create : ℕ → Router S
  create n_sockets = record {
    callbacks = replicate (subject_size * n_sockets) none;
    on_poll = λ s. ok s;
  }

  -- A write beyond the vector is undefined.
  unfoldable pub bind : ℕ → Subject → Callback S → Router S → Result (Router S)
  unfolding index
  bind socket_index s f r =
      if ltb (index socket_index s) (length r.callbacks)
      then ok (record r { callbacks = set r.callbacks (index socket_index s) (some f) })
      else err undefined_behaviour

  unfoldable pub bind_on_poll : (S → Result S) → Router S → Router S
  bind_on_poll f r = record r { on_poll = f }

  -- `callbacks_[index(i, msg.subject)](msg)`.
  unfoldable pub dispatch : Router S → ℕ → Message → S → Result S
  unfolding index
  dispatch r i msg s = do
    slot ← or_fault (get_elem? r.callbacks (index i msg.subject)) undefined_behaviour
    callback ← or_fault slot bad_function_call
    callback msg s

  -- The loop over the sockets, from socket `i` on.
  receive_from : Router S → ℕ → List (Option Message) → S → Result S
  unfolding dispatch
  receive_from r i [] s = ok s
  receive_from r i (none ∷ arrivals) s = receive_from r (suc i) arrivals s
  receive_from r i (some msg ∷ arrivals) s = do
    s' ← dispatch r i msg s
    receive_from r (suc i) arrivals s'

  -- One round of the polling loop.
  unfoldable pub poll_once : Router S → List (Option Message) → S → Result S
  unfolding receive_from
  poll_once r arrivals s = do s' ← receive_from r 0 arrivals s; r.on_poll s'

  -- The polling loop over the rounds that the environment offers.
  unfoldable pub poll : Router S → (S → Bool) → List (List (Option Message)) → S → Result S
  unfolding poll_once
  poll r running [] s = ok s
  poll r running (arrivals ∷ rounds) s =
      let next = poll_once r arrivals s >>= poll r running rounds in
      if running s then next else ok s
