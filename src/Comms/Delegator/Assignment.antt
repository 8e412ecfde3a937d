-- ===== src/Comms/Delegator/Assignment.antt =====
-- A round of `onPoll` whose sends are accepted: it does not fault, keeps the invariant and every
-- job, and gives a worker no more than `max_jobs`.
use stateline.Comms.Delegator.Assigning.{
  pause, AcceptsNetwork, assigned, assign_ok, assigned-KeepsWork, assigned-Inv,
}
use stateline.Comms.Delegator.Choosing.{best_worker_chooses}
use stateline.Comms.Delegator.Estimates.{eligible-InRange}
use stateline.Comms.Delegator.Schedule.{best_worker}
use stateline.Comms.Delegator.Choice.{IsChoice}
use stateline.Comms.Delegator.Keeping.{KeepsWork, KeepsWork-trans, unmoved}
use stateline.Prelude.{
  ℕ, ◌<◌, ◌≡◌, refl, inl, inr, List, [], ◌∷◌, ◌++◌, append_assoc, append-nil, Option, none, some,
  arith, ok, Option-cases,
}
use stateline.Std.Key.{Str, str_key}
use stateline.Std.Map.{find}
use stateline.Comms.Delegator.State.{Job, Request, Delegator, Zmq}
use stateline.Comms.Delegator.Polling.{visit, visit_all, on_poll, max_jobs}
use stateline.Comms.Delegator.Count.{count, owned, Inv, sum_list-append, str_eq_refl}

-- The request of a job that the delegator holds is pending.
pub request_of_job :
    (s : Delegator) (j : Job)
    → Inv s
    → 0 < count (owned j.requester_id) s
    → (r : Request) × (find j.requester_id s.requests ≡ some r)
request_of_job s j v held = elim (Option-cases (find j.requester_id s.requests)) [
  | inl e ↦ absurd (omega (arith, v.no_orphans j.requester_id e))
  | inr found ↦ found
]

queued-held :
    (s : Delegator) (j : Job) (jobs : List Job)
    → 0 < count (owned j.requester_id) (pause s (j ∷ jobs))
unfolding count
queued-held s j jobs =
    let mine : owned j.requester_id j ≡ 1 = rw (str_eq_refl j.requester_id) in
    omega (arith, sum_list-append (owned j.requester_id) s.job_queue (j ∷ jobs))

visit_ok :
    (zmq : Zmq) (now : ℕ) (j : Job) (jobs : List Job) (s : Delegator)
    → AcceptsNetwork zmq
    → Inv (pause s (j ∷ jobs))
    → (s' : Delegator) × (visit zmq now j s ≡ ok s')
      × Inv (pause s' jobs)
      × KeepsWork (pause s (j ∷ jobs)) (pause s' jobs)
unfolding visit
visit_ok zmq now j jobs s accepts v =
    let (b, e, best) =
      best_worker_chooses j.type max_jobs s.workers v.workers_sorted v.workers_ok in
    chosen b e best
  where
    chosen :
        (b : Option Str)
        → best_worker j.type max_jobs s.workers ≡ ok b
        → IsChoice j.type max_jobs s.workers b
        → (s' : Delegator) × (visit zmq now j s ≡ ok s')
          × Inv (pause s' jobs)
          × KeepsWork (pause s (j ∷ jobs)) (pause s' jobs)
    chosen none e c =
        let back = append_assoc s.job_queue (j ∷ []) jobs in
        (
          record s { job_queue = s.job_queue ++ j ∷ [] },
          rw e,
          rw back v,
          rw back (unmoved (pause s (j ∷ jobs))),
        )
    chosen (some k) e c =
        let (r, f) = request_of_job (pause s (j ∷ jobs)) j v (queued-held s j jobs) in
        let (fits, room) = eligible-InRange j.type max_jobs c.worker c.fits in
        (
          assigned now j k c.worker r s,
          rw e (assign_ok zmq now j k c.worker r s (accepts _) c.found f),
          assigned-Inv now j k c.worker r s jobs v c.found f fits room,
          assigned-KeepsWork now j k c.worker r s jobs v c.found,
        )

visit_all_ok :
    (zmq : Zmq) (now : ℕ) (jobs : List Job) (s : Delegator)
    → AcceptsNetwork zmq
    → Inv (pause s jobs)
    → (s' : Delegator) × (visit_all zmq now jobs s ≡ ok s') × Inv s' × KeepsWork (pause s jobs) s'
unfolding visit_all
visit_all_ok zmq now [] s accepts v =
    let none_left = append-nil s.job_queue in (s, refl, rw none_left at v, rw none_left (unmoved s))
visit_all_ok zmq now (j ∷ jobs) s accepts v =
    let (s₁, e₁, v₁, same₁) = visit_ok zmq now j jobs s accepts v in
    let (s₂, e₂, v₂, same₂) = visit_all_ok zmq now jobs s₁ accepts v₁ in
    (s₂, rw e₁ e₂, v₂, KeepsWork-trans _ _ _ same₁ same₂)

-- A round of `onPoll` in which every send is accepted ends without a fault, in a state that
-- satisfies the invariant and holds the same jobs as before, whatever their start times, and the
-- same requests; no answer is sent.
pub on_poll_ok :
    (zmq : Zmq) (now : ℕ) (s : Delegator)
    → AcceptsNetwork zmq
    → Inv s
    → (s' : Delegator) × (on_poll zmq now s ≡ ok s') × Inv s' × KeepsWork s s'
unfolding on_poll
on_poll_ok zmq now s accepts v =
    visit_all_ok zmq now s.job_queue (record s { job_queue = [] }) accepts v
