-- ===== src/Comms/Delegator/Keeping.antt =====
-- Steps that only move jobs about keep the invariant: a disconnection, and one round of `onPoll`.
use stateline.Prelude.{
  ◌+◌, ◌-◌, ◌≡◌, refl, sym, ap, ◌∙◌, List, [], ◌∷◌, ◌++◌, append-nil, ◌⊎◌, inl, inr, none, some,
  arith, length, uint_mod, wrap, ok, Option-cases,
}
use stateline.Std.Key.{Str, str_key}
use stateline.Std.Map.{find, erase}
use stateline.Std.Map.Order.{IsSorted, erase-IsSorted, find-erase_self}
use stateline.Std.Map.Laws.{sum_values-erase, Entries, erase-Entries}
use stateline.Comms.Messages.{Message}
use stateline.Comms.Delegator.State.{
  Worker, Delegator, Sent, to_requester, to_heartbeat, to_network, front, log_sent,
}
use stateline.Comms.Delegator.Handlers.{disconnect_worker, requeue}
use stateline.Comms.Delegator.Telling.{AllTold-of_NoNewWork, NoNewWork-erase, known_of_same}
use stateline.Comms.Delegator.Count.{
  Weight, count, working, owned, named, beyond, IsTimeless, WorkerOk, Inv, AllTold,
  sum_list-requeue,
}

-- The same jobs, up to their start times.
abbrev pub SameJobs : Delegator → Delegator → Type 0
SameJobs s s' = (p : Weight) → IsTimeless p → count p s' ≡ count p s

-- The answers among the messages that were sent.
unfoldable pub replies : List Sent → List Message
replies [] = []
replies (to_requester m ∷ sent) = m ∷ replies sent
replies (to_heartbeat m ∷ sent) = replies sent
replies (to_network m ∷ sent) = replies sent

pub replies-append : (xs ys : List Sent) → replies (xs ++ ys) ≡ replies xs ++ replies ys
unfolding replies
replies-append [] ys = refl
replies-append (to_requester m ∷ xs) ys = ap (λ rest. m ∷ rest) (replies-append xs ys)
replies-append (to_heartbeat m ∷ xs) ys = replies-append xs ys
replies-append (to_network m ∷ xs) ys = replies-append xs ys

-- A step that only moves jobs about: the same jobs, requests and answers as before.
pub record KeepsWork (s s' : Delegator) : Type 0 where
  pub same_jobs : SameJobs s s'
  pub same_requests : s'.requests ≡ s.requests
  pub same_replies : replies s'.sent ≡ replies s.sent

pub unmoved : (s : Delegator) → KeepsWork s s
unmoved s = record { same_jobs = λ p t. refl; same_requests = refl; same_replies = refl }

pub KeepsWork-trans : (s t u : Delegator) → KeepsWork s t → KeepsWork t u → KeepsWork s u
KeepsWork-trans s t u a b = record {
  same_jobs = λ p h. b.same_jobs p h ∙ a.same_jobs p h;
  same_requests = b.same_requests ∙ a.same_requests;
  same_replies = b.same_replies ∙ a.same_replies;
}

-- A message to a worker or to the heartbeat thread is no answer.
pub log_sent-KeepsWork :
    (m : Sent) (s : Delegator) → replies (m ∷ []) ≡ [] → KeepsWork s (log_sent m s)
unfolding count
log_sent-KeepsWork m s h = record {
  same_jobs = λ p t. refl;
  same_requests = refl;
  same_replies = replies-append s.sent (m ∷ []) ∙ (rw h (append-nil (replies s.sent)));
}

pub Inv-of_SameJobs :
    (s s' : Delegator)
    → Inv s
    → s'.requests ≡ s.requests
    → s'.next_job_id ≡ s.next_job_id
    → SameJobs s s'
    → IsSorted s'.workers
    → Entries WorkerOk s'.workers
    → AllTold s'
    → Inv s'
Inv-of_SameJobs s s' v req next same sorted workers told = record {
  workers_sorted = sorted;
  requests_sorted = rw req v.requests_sorted;
  workers_ok = workers;
  requests_ok = λ id r e.
      let old = v.requests_ok id r (rw req at e) in
      record {
        counted = rw (same (owned id) (λ j t. refl)) old.counted;
        slots = rw (same (beyond id (length r.results)) (λ j t. refl)) old.slots;
        pending = old.pending;
        few = old.few;
      };
  no_orphans = λ id e. rw (same (owned id) (λ j t. refl)) (v.no_orphans id (rw req at e));
  unique = λ id. rw (same (named id) (λ j t. refl)) (v.unique id);
  fresh = λ n h. rw (same (named _) (λ j t. refl)) (v.fresh n (rw next at h));
  told = told;
}

-- The state after a known worker was disconnected.
abbrev pub without : Str → Worker → Delegator → Delegator
without k w s = record s {
  workers = erase k s.workers;
  job_queue = requeue w.work_in_progress s.job_queue;
  worker_count = wrap (s.worker_count + (uint_mod - 1));
}

without-SameJobs :
    (k : Str) (w : Worker) (s : Delegator) → find k s.workers ≡ some w → SameJobs s (without k w s)
unfolding count
without-SameJobs k w s e p timeless = omega (
  arith,
  sum_list-requeue p w.work_in_progress s.job_queue,
  sum_values-erase (working p) k w s.workers e,
)

pub without-KeepsWork :
    (k : Str) (w : Worker) (s : Delegator) → find k s.workers ≡ some w → KeepsWork s (without k w s)
without-KeepsWork k w s e = record {
  same_jobs = without-SameJobs k w s e;
  same_requests = refl;
  same_replies = refl;
}

pub without-Inv :
    (k : Str) (w : Worker) (s : Delegator) → Inv s → find k s.workers ≡ some w → Inv (without k w s)
without-Inv k w s v e =
    Inv-of_SameJobs s (without k w s) v refl refl (without-SameJobs k w s e)
      (erase-IsSorted k s.workers v.workers_sorted)
      (erase-Entries WorkerOk k s.workers v.workers_ok)
      (AllTold-of_NoNewWork s (without k w s) [] v.told
        (NoNewWork-erase k s.workers v.workers_sorted) (sym (append-nil s.sent))
        (known_of_same s (without k w s) refl))

-- A message from or to a worker that is gone changes nothing.
pub disconnect_worker_cases :
    (msg : Message) (k : Str) (s : Delegator)
    → front msg.address ≡ ok k
    → ((find k s.workers ≡ none) × (disconnect_worker msg s ≡ ok s))
      ⊎ ((w : Worker) × (find k s.workers ≡ some w)
          × (disconnect_worker msg s ≡ ok (without k w s)))
unfolding disconnect_worker
disconnect_worker_cases msg k s f = elim (Option-cases (find k s.workers)) [
  | inl e ↦ inl (e, ground arith)
  | inr (w, e) ↦ inr (w, e, ground arith)
]

-- A message that disconnects a connected worker: the handler does not fault, the worker alone is
-- gone, all jobs that it had in progress are queued again, none is lost or doubled, and the
-- invariant holds afterwards.
pub disconnect_worker_ok :
    (msg : Message) (k : Str) (w : Worker) (s : Delegator)
    → Inv s
    → front msg.address ≡ ok k
    → find k s.workers ≡ some w
    → (disconnect_worker msg s ≡ ok (without k w s))
      × Inv (without k w s)
      × SameJobs s (without k w s)
      × (find k (without k w s).workers ≡ none)
unfolding disconnect_worker
disconnect_worker_ok msg k w s v a e = (
  ground arith,
  without-Inv k w s v e,
  without-SameJobs k w s e,
  find-erase_self k s.workers v.workers_sorted,
)
