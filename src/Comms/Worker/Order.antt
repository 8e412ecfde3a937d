-- ===== src/Comms/Worker/Order.antt =====
-- The order in which a worker hands on its jobs.
use stateline.Prelude.{
  ◌≡◌, refl, sym, ap, ◌∙◌, Bool, true, false, List, [], ◌∷◌, ◌++◌, append_assoc, append-nil,
  if◌then◌else◌, ok, Bool-cases, inl, inr,
}
use stateline.Comms.Messages.{Message, hello, heartbeat, job, result, goodbye}
use stateline.Comms.Socket.{send}
use stateline.Comms.Router
use stateline.Comms.Worker.{
  Worker, Sent, to_minion, to_heartbeat, to_network, Sockets, minion_send, forward_to_hb,
  network_send, on_job_from_network, next_job, on_result_from_minion, forward_to_network,
  disconnect, router, handle,
}
use stateline.Comms.Worker.Arrivals.{
  Arrival, minion_result, minion_hello, heartbeat_beat, heartbeat_goodbye, network_job,
  network_beat, network_hello, network_goodbye, with_subject, take, take_all, arrived, given,
  IsSteady, AcceptsAll, all_jobs,
}

given-append : (ms ns : List Sent) → given (ms ++ ns) ≡ given ms ++ given ns
given-append [] ns = refl
given-append (to_minion m ∷ ms) ns = ap (◌∷◌ m) (given-append ms ns)
given-append (to_heartbeat m ∷ ms) ns = given-append ms ns
given-append (to_network m ∷ ms) ns = given-append ms ns

abbrev ends : Arrival → Bool
ends (heartbeat_goodbye a ds) = true
ends _ = false

-- What one arrival does to a worker.
abbrev Taken : Sockets → Arrival → Worker → Type 0
Taken z a s =
    (s' : Worker) × (take z a s ≡ ok s')
    × IsSteady s'
    × (all_jobs s' ≡ all_jobs s ++ arrived (a ∷ []))
    × (s'.exited ≡ ends a)

abbrev noted : Sent → Worker → Worker
noted m s = record s { sent = s.sent ++ m ∷ [] }

-- A message that is passed on to the heartbeat or to the network.
passed-on : (m : Sent) (s : Worker) → given (m ∷ []) ≡ [] → all_jobs (noted m s) ≡ all_jobs s ++ []
passed-on m s none_given =
    rw (given-append s.sent (m ∷ []), none_given, append-nil (given s.sent))
      (sym (append-nil (all_jobs s)))

job_ok :
    (z : Sockets) (m : Message) (s : Worker)
    → AcceptsAll z
    → IsSteady s
    → s.exited ≡ false
    → (s' : Worker) × (on_job_from_network z m s ≡ ok s')
      × IsSteady s'
      × (all_jobs s' ≡ all_jobs s ++ m ∷ [])
      × (s'.exited ≡ false)
unfolding on_job_from_network minion_send send
job_ok z m s acc st run = elim (Bool-cases s.minion_waiting) [
  | inl waits ↦
      let given_now : s.queue ≡ [] = elim st [ inl busy ↦ cc | inr nothing ↦ nothing ] in
      (
        record (noted (to_minion m) s) { minion_waiting = false },
        rw waits (rw (acc.0 m)),
        inl refl,
        rw given_now (
            rw (given-append s.sent (to_minion m ∷ []))
              (rw (append-nil (given s.sent)) (append-nil (given s.sent ++ m ∷ [])))),
        run,
      )
  | inr busy ↦ (
    record s { queue = s.queue ++ m ∷ [] },
    rw busy,
    inl busy,
    sym (append_assoc (given s.sent) s.queue (m ∷ [])),
    run,
  )
]

result_ok :
    (z : Sockets) (m : Message) (s : Worker) (queue : List Message)
    → AcceptsAll z
    → IsSteady s
    → s.exited ≡ false
    → s.queue ≡ queue
    → (s' : Worker) × (on_result_from_minion z m s ≡ ok s')
      × IsSteady s'
      × (all_jobs s' ≡ all_jobs s ++ [])
      × (s'.exited ≡ false)
unfolding on_result_from_minion network_send next_job minion_send send
result_ok z m s [] acc st run q = (
  record (noted (to_network m) s) { minion_waiting = true },
  rw (acc.2 m) (rw q),
  inr q,
  passed-on (to_network m) s refl,
  run,
)
result_ok z m s (j ∷ queue) acc st run q =
    let sent_on = noted (to_network m) s in
    (
      record (noted (to_minion j) sent_on) { queue = queue },
      rw (acc.2 m) (rw q (rw (acc.0 j))),
      elim st [ inl busy ↦ inl busy | inr nothing ↦ cc (q, nothing) ],
      (rw q (
          rw (given-append (s.sent ++ to_network m ∷ []) (to_minion j ∷ [])) (
            rw (given-append s.sent (to_network m ∷ [])) (
              rw (append-nil (given s.sent)) (
                append_assoc (given s.sent) (j ∷ []) queue
                ∙ sym (append-nil (given s.sent ++ j ∷ queue))))))),
      run,
    )

take_ok :
    (z : Sockets) (a : Arrival) (s : Worker)
    → AcceptsAll z
    → IsSteady s
    → s.exited ≡ false
    → Taken z a s
unfolding take handle router Router.create Router.bind Router.dispatch Router.index send
    network_send forward_to_network forward_to_hb disconnect
take_ok z (minion_result a ds) s acc st run =
    let m = with_subject result a ds in
    let (s', e, st', all, run') = result_ok z m s s.queue acc st run refl in
    (s', ap (λ (b : Bool). if b then ok s else on_result_from_minion z m s) run ∙ e, st', all, run')
take_ok z (minion_hello a ds) s acc st run =
    let m = to_network (with_subject hello [] ds) in
    (noted m s, rw run (rw (acc.2 (with_subject hello [] ds))), st, passed-on m s refl, run)
take_ok z (heartbeat_beat a ds) s acc st run =
    let m = to_network (with_subject heartbeat [] ds) in
    (noted m s, rw run (rw (acc.2 (with_subject heartbeat [] ds))), st, passed-on m s refl, run)
take_ok z (heartbeat_goodbye a ds) s acc st run =
    (record s { exited = true }, rw run, st, sym (append-nil (all_jobs s)), refl)
take_ok z (network_job a ds) s acc st run =
    let m = with_subject job a ds in
    let (s', e, st', all, run') = job_ok z m s acc st run in
    (s', ap (λ (b : Bool). if b then ok s else on_job_from_network z m s) run ∙ e, st', all, run')
take_ok z (network_beat a ds) s acc st run =
    let m = to_heartbeat (with_subject heartbeat a ds) in
    (noted m s, rw run (rw (acc.1 (with_subject heartbeat a ds))), st, passed-on m s refl, run)
take_ok z (network_hello a ds) s acc st run =
    let m = to_heartbeat (with_subject hello a ds) in
    (noted m s, rw run (rw (acc.1 (with_subject hello a ds))), st, passed-on m s refl, run)
take_ok z (network_goodbye a ds) s acc st run =
    let m = to_heartbeat (with_subject goodbye a ds) in
    (noted m s, rw run (rw (acc.1 (with_subject goodbye a ds))), st, passed-on m s refl, run)

-- Nothing is handled after the process has ended.
take_exited : (z : Sockets) (a : Arrival) (s : Worker) → s.exited ≡ true → take z a s ≡ ok s
unfolding take handle
take_exited z (minion_result a ds) s h = rw h
take_exited z (minion_hello a ds) s h = rw h
take_exited z (heartbeat_beat a ds) s h = rw h
take_exited z (heartbeat_goodbye a ds) s h = rw h
take_exited z (network_job a ds) s h = rw h
take_exited z (network_beat a ds) s h = rw h
take_exited z (network_hello a ds) s h = rw h
take_exited z (network_goodbye a ds) s h = rw h

take_all_exited :
    (z : Sockets) (arrivals : List Arrival) (s : Worker)
    → s.exited ≡ true
    → take_all z arrivals s ≡ ok s
unfolding take_all
take_all_exited z [] s h = refl
take_all_exited z (a ∷ rest) s h = rw (take_exited z a s h) (take_all_exited z rest s h)

arrived-cons :
    (a : Arrival) (rest : List Arrival)
    → arrived (a ∷ rest) ≡ (if ends a then [] else arrived (a ∷ []) ++ arrived rest)
arrived-cons (minion_result a ds) rest = refl
arrived-cons (minion_hello a ds) rest = refl
arrived-cons (heartbeat_beat a ds) rest = refl
arrived-cons (heartbeat_goodbye a ds) rest = refl
arrived-cons (network_job a ds) rest = refl
arrived-cons (network_beat a ds) rest = refl
arrived-cons (network_hello a ds) rest = refl
arrived-cons (network_goodbye a ds) rest = refl

arrived-ends : (a : Arrival) → ends a ≡ true → arrived (a ∷ []) ≡ []
arrived-ends (minion_result a ds) h = refl
arrived-ends (minion_hello a ds) h = refl
arrived-ends (heartbeat_beat a ds) h = refl
arrived-ends (heartbeat_goodbye a ds) h = refl
arrived-ends (network_job a ds) h = cc
arrived-ends (network_beat a ds) h = refl
arrived-ends (network_hello a ds) h = refl
arrived-ends (network_goodbye a ds) h = refl

-- While ZeroMQ accepts every message, a running worker in which a waiting minion has left no job in
-- the queue serves any sequence of arrivals without a fault. The jobs given to the minion, followed
-- by those in the queue, are then the earlier ones followed by the jobs that arrived, in order, up
-- to the GOODBYE of the heartbeat, and a waiting minion has again left no job in the queue.
pub take_all_ok :
    (z : Sockets) (arrivals : List Arrival) (s : Worker)
    → AcceptsAll z
    → IsSteady s
    → s.exited ≡ false
    → (s' : Worker) × (take_all z arrivals s ≡ ok s')
      × IsSteady s'
      × (all_jobs s' ≡ all_jobs s ++ arrived arrivals)
unfolding take_all
take_all_ok z [] s acc st run = (s, refl, st, sym (append-nil (all_jobs s)))
take_all_ok z (a ∷ rest) s acc st run =
    let (s₁, e₁, st₁, all₁, exits) = take_ok z a s acc st run in
    elim (Bool-cases (ends a)) [
      | inl stops ↦ (
        s₁,
        rw e₁ (take_all_exited z rest s₁ (exits ∙ stops)),
        st₁,
        all₁
            ∙ ap (λ l. all_jobs s ++ l)
                (arrived-ends a stops ∙ sym (arrived-cons a rest ∙ rw stops)),
      )
      | inr goes_on ↦
          let (s₂, e₂, st₂, all₂) = take_all_ok z rest s₁ acc st₁ (exits ∙ goes_on) in
          (
            s₂,
            rw e₁ e₂,
            st₂,
            all₂
                ∙ ap (λ l. l ++ arrived rest) all₁
                ∙ append_assoc (all_jobs s) (arrived (a ∷ [])) (arrived rest)
                ∙ ap (λ l. all_jobs s ++ l) (sym (arrived-cons a rest ∙ rw goes_on)),
          )
    ]
