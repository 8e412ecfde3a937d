-- ===== src/Comms/ServerHeartbeat/Timeouts.antt =====
-- Which clients a round of the heartbeat drops.
use stateline.Std.Vector.{back}
use stateline.Comms.Socket.{send}
use stateline.Std.Map.Laws.{at_or_insert_missing, at_or_insert_found, find-insert, find-erase_ne}
use stateline.Std.Map.Order.{Above, IsSorted}
use stateline.Prelude.{
  ℕ, ◌≡◌, refl, sym, ap, ◌∙◌, Bool, true, false, Option, none, some, List, [], ◌∷◌, ◌++◌,
  append_assoc, append-nil, arith, if◌then◌else◌, ok, err, Bool-cases, Option-cases, inl, inr, All,
  undefined_behaviour, leb, ◌+◌, ◌*◌,
}
use stateline.Std.Key.{Str, str_key, str_eq, str_lt}
use stateline.Std.Map.{Map, find, contains, erase, at_or_insert}
use stateline.Comms.Messages.{Message, goodbye}
use stateline.Comms.ServerHeartbeat.{
  ServerHeartbeat, delete_client, is_silent, about, hb_send, check_clients, remove_all,
  monitor_timeouts,
}

abbrev or_epoch : Option ℕ → ℕ
or_epoch none = 0
or_epoch (some t) = t

-- When the client was heard last, 0 if never.
abbrev pub last_heard : Str → Map Str ℕ → ℕ
last_heard a times = or_epoch (find a times)

-- Whether more than the timeout, in whole milliseconds, has passed since a time.
abbrev pub is_long_ago : (timeout now last : ℕ) → Bool
is_long_ago timeout now last = leb (last + (timeout + 1) * 1000000) now

is_silent-is_long_ago :
    (timeout now last : ℕ) → is_silent timeout now last ≡ is_long_ago timeout now last
unfolding is_silent
is_silent-is_long_ago timeout now last = ground arith

-- The clients that were heard too long ago, in order; `clock` is the time that is read for a client.
abbrev pub silent_among :
    (timeout : ℕ) (clock : Str → ℕ) → Map Str ℕ → Map Str (Unit {0}) → List Str
silent_among timeout clock times [] = []
silent_among timeout clock times ((a, _) ∷ rest) =
    if is_long_ago timeout (clock a) (last_heard a times)
    then a ∷ silent_among timeout clock times rest
    else silent_among timeout clock times rest

-- The entries of the other clients.
abbrev pub awake_among :
    (timeout : ℕ) (clock : Str → ℕ) → Map Str ℕ → Map Str (Unit {0}) → Map Str (Unit {0})
awake_among timeout clock times [] = []
awake_among timeout clock times ((a, u) ∷ rest) =
    if is_long_ago timeout (clock a) (last_heard a times)
    then awake_among timeout clock times rest
    else (a, u) ∷ awake_among timeout clock times rest

abbrev pub goodbyes : List Str → List Message
goodbyes [] = []
goodbyes (a ∷ rest) = about a goodbye ∷ goodbyes rest

Above-ne : (a b : Str) → str_lt a b ≡ true → (str_eq a b ≡ false) × (str_eq b a ≡ false)
Above-ne a b h = ground (arith, str_key.eq_iff a b, str_key.eq_iff b a, str_key.lt_irrefl a)

at_or_insert-last_heard :
    (a : Str) (times : Map Str ℕ) → (at_or_insert a 0 times).0 ≡ last_heard a times
unfolding at_or_insert
at_or_insert-last_heard a times = ground arith

-- What `operator[]` for one client leaves for the others.
last_heard-at_or_insert :
    (a b : Str) (times : Map Str ℕ)
    → str_eq b a ≡ false
    → last_heard b (at_or_insert a 0 times).1 ≡ last_heard b times
last_heard-at_or_insert a b times ne = elim (Option-cases (find a times)) [
  | inl e ↦ rw (at_or_insert_missing a 0 times e) (rw (find-insert b a 0 times e) (rw ne))
  | inr (t, e) ↦ rw (at_or_insert_found a 0 t times e)
]

last_heard-erase :
    (a b : Str) (times : Map Str ℕ)
    → str_eq b a ≡ false
    → last_heard b (erase a times) ≡ last_heard b times
last_heard-erase a b times ne = rw (find-erase_ne b a times ne)

-- Two tables that agree on the clients above `a` find the same ones silent there.
silent_among-agree :
    (timeout : ℕ) (clock : Str → ℕ) (a : Str) (times times' : Map Str ℕ) (rest : Map Str (Unit {0}))
    → ((b : Str) → str_eq b a ≡ false → last_heard b times' ≡ last_heard b times)
    → Above a rest
    → silent_among timeout clock times' rest ≡ silent_among timeout clock times rest
silent_among-agree timeout clock a times times' [] same above = refl
silent_among-agree timeout clock a times times' ((b, _) ∷ rest) same above =
    rw (same b (Above-ne a b above.0).1)
      (rw (silent_among-agree timeout clock a times times' rest same above.1))

check_clients_ok :
    (accepts : Message → Bool) (timeout : ℕ) (clock : Str → ℕ) (rest : Map Str (Unit {0}))
    (s : ServerHeartbeat)
    → ((m : Message) → accepts m ≡ true)
    → IsSorted rest
    → let silent = silent_among timeout clock s.last_heartbeats rest in
      (s' : ServerHeartbeat) × (check_clients accepts timeout clock rest s ≡ ok (s', silent))
      × (s'.clients ≡ s.clients)
      × (s'.sent ≡ s.sent ++ goodbyes silent)
unfolding check_clients hb_send send
check_clients_ok accepts timeout clock [] s acc sorted = (s, refl, refl, sym (append-nil s.sent))
check_clients_ok accepts timeout clock ((a, _) ∷ rest) s acc sorted =
    let spec = is_silent-is_long_ago timeout (clock a) (last_heard a s.last_heartbeats) in
    elim (Bool-cases (is_long_ago timeout (clock a) (last_heard a s.last_heartbeats))) [
      | inl silent ↦
          let (s', e, same, sent) =
            check_clients_ok accepts timeout clock rest
              (record s {
                last_heartbeats = erase a (at_or_insert a 0 s.last_heartbeats).1;
                sent = s.sent ++ about a goodbye ∷ [];
              })
              acc sorted.1 in
          let agree =
            silent_among-agree timeout clock a s.last_heartbeats
              (erase a (at_or_insert a 0 s.last_heartbeats).1) rest
              (λ b ne.
                last_heard-erase a b (at_or_insert a 0 s.last_heartbeats).1 ne
                ∙ last_heard-at_or_insert a b s.last_heartbeats ne)
              sorted.0 in
          (
            s',
            rw (at_or_insert-last_heard a s.last_heartbeats) (
                rw spec
                  (rw silent (rw (acc (about a goodbye)) (rw e (ap (λ l. ok (s', a ∷ l)) agree))))),
            same,
            rw silent (
                sent
                ∙ append_assoc s.sent (about a goodbye ∷ []) _
                ∙ ap (λ l. s.sent ++ about a goodbye ∷ goodbyes l) agree),
          )
      | inr awake ↦
          let (s', e, same, sent) =
            check_clients_ok accepts timeout clock rest
              (record s { last_heartbeats = (at_or_insert a 0 s.last_heartbeats).1 }) acc
              sorted.1 in
          let agree =
            silent_among-agree timeout clock a s.last_heartbeats
              (at_or_insert a 0 s.last_heartbeats).1 rest
              (λ b ne. last_heard-at_or_insert a b s.last_heartbeats ne) sorted.0 in
          (
            s',
            rw (at_or_insert-last_heard a s.last_heartbeats)
                (rw spec (rw awake (e ∙ ap (λ l. ok (s', l)) agree))),
            same,
            rw awake (sent ∙ ap (λ l. s.sent ++ goodbyes l) agree),
          )
    ]

-- Removing clients that stand above the first one leaves the first one.
remove_all-cons :
    (l : List Str) (a : Str) (u : Unit {0}) (rest : Map Str (Unit {0}))
    → All (λ b. str_eq b a ≡ false) l
    → remove_all l ((a, u) ∷ rest) ≡ (a, u) ∷ remove_all l rest
unfolding remove_all erase
remove_all-cons [] a u rest h = refl
remove_all-cons (b ∷ l) a u rest h = rw h.0 (remove_all-cons l a u (erase b rest) h.1)

silent_among-All :
    (timeout : ℕ) (clock : Str → ℕ) (times : Map Str ℕ) (a : Str) (rest : Map Str (Unit {0}))
    → Above a rest
    → All (λ b. str_eq b a ≡ false) (silent_among timeout clock times rest)
silent_among-All timeout clock times a [] above = tt
silent_among-All timeout clock times a ((b, _) ∷ rest) above =
    elim (Bool-cases (is_long_ago timeout (clock b) (last_heard b times))) [
      | inl silent ↦
          rw silent ((Above-ne a b above.0).1, silent_among-All timeout clock times a rest above.1)
      | inr awake ↦ rw awake (silent_among-All timeout clock times a rest above.1)
    ]

erase_first : (a : Str) (u : Unit {0}) (rest : Map Str (Unit {0})) → erase a ((a, u) ∷ rest) ≡ rest
unfolding erase
erase_first a u rest = let same : str_eq a a ≡ true = (str_key.eq_iff a a).1 refl in rw same

remove_all-silent_among :
    (timeout : ℕ) (clock : Str → ℕ) (times : Map Str ℕ) (clients : Map Str (Unit {0}))
    → IsSorted clients
    → remove_all (silent_among timeout clock times clients) clients
      ≡ awake_among timeout clock times clients
unfolding remove_all erase
remove_all-silent_among timeout clock times [] sorted = refl
remove_all-silent_among timeout clock times ((a, u) ∷ rest) sorted =
    elim (Bool-cases (is_long_ago timeout (clock a) (last_heard a times))) [
      | inl silent ↦ rw silent (
          ap (remove_all (silent_among timeout clock times rest)) (erase_first a u rest)
          ∙ remove_all-silent_among timeout clock times rest sorted.1)
      | inr awake ↦ rw awake (
          remove_all-cons (silent_among timeout clock times rest) a u rest
            (silent_among-All timeout clock times a rest sorted.0)
          ∙ ap (λ m. (a, u) ∷ m) (remove_all-silent_among timeout clock times rest sorted.1))
    ]

-- While ZeroMQ accepts every message and for a sorted set of clients, a round of `monitorTimeouts` ends
-- without a fault, whatever times it reads. The clients whose last heartbeat is at least one
-- millisecond longer ago than the timeout, at the time that is read for them, are dropped, in one
-- pass, and a GOODBYE is sent on behalf of each of them, in order; the other clients stay.
pub monitor_timeouts_ok :
    (accepts : Message → Bool) (timeout : ℕ) (clock : Str → ℕ) (s : ServerHeartbeat)
    → ((m : Message) → accepts m ≡ true)
    → IsSorted s.clients
    → (s' : ServerHeartbeat) × (monitor_timeouts accepts timeout clock s ≡ ok s')
      × (s'.clients ≡ awake_among timeout clock s.last_heartbeats s.clients)
      × (s'.sent ≡ s.sent ++ goodbyes (silent_among timeout clock s.last_heartbeats s.clients))
unfolding monitor_timeouts
monitor_timeouts_ok accepts timeout clock s acc sorted =
    let (s', e, same, sent) = check_clients_ok accepts timeout clock s.clients s acc sorted in
    let silent = silent_among timeout clock s.last_heartbeats s.clients in
    (
      record s' { clients = remove_all silent s'.clients },
      rw e,
      ap (remove_all silent) same
          ∙ remove_all-silent_among timeout clock s.last_heartbeats s.clients sorted,
      sent,
    )

-- A client that was heard too long ago is not among the others.
find-awake_among :
    (timeout : ℕ) (clock : Str → ℕ) (a : Str) (times : Map Str ℕ) (clients : Map Str (Unit {0}))
    → is_long_ago timeout (clock a) (last_heard a times) ≡ true
    → find a (awake_among timeout clock times clients) ≡ none
unfolding find
find-awake_among timeout clock a times [] long = refl
find-awake_among timeout clock a times ((b, u) ∷ rest) long =
    let later = find-awake_among timeout clock a times rest long in
    elim (Bool-cases (is_long_ago timeout (clock b) (last_heard b times))) [
      | inl silent ↦ rw silent later
      | inr awake ↦ elim (Bool-cases (str_eq a b)) [
        | inl same ↦
            let here : a ≡ b = (str_key.eq_iff a b).0 same in
            let silent = ap (λ c. is_long_ago timeout (clock c) (last_heard c times)) here in
            absurd (cc (awake, silent, long))
        | inr other ↦ rw awake (rw other later)
      ]
    ]

-- While ZeroMQ accepts every message and for a sorted set of clients: when a round of
-- `monitorTimeouts` finds a client's last heartbeat at least one millisecond longer ago than the
-- timeout, a GOODBYE of this client that comes after the round ends in undefined behaviour, since the
-- code then erases the end of the set.
pub delete_client-monitor_timeouts :
    (accepts : Message → Bool) (timeout : ℕ) (clock : Str → ℕ) (m : Message) (address : Str)
    (s : ServerHeartbeat)
    → ((m : Message) → accepts m ≡ true)
    → IsSorted s.clients
    → is_long_ago timeout (clock address) (last_heard address s.last_heartbeats) ≡ true
    → back m.address ≡ ok address
    → (s' : ServerHeartbeat) × (monitor_timeouts accepts timeout clock s ≡ ok s')
      × (delete_client m s' ≡ err undefined_behaviour)
unfolding delete_client contains
delete_client-monitor_timeouts accepts timeout clock m address s acc sorted long a =
    let (s', e, clients, sent) = monitor_timeouts_ok accepts timeout clock s acc sorted in
    let gone : find address s'.clients ≡ none =
      ap (find address) clients
      ∙ find-awake_among timeout clock address s.last_heartbeats s.clients long in
    (s', e, ground (arith, a, gone))
