-- ===== src/Comms/Delegator/Answered.antt =====
-- The request of a job whose result came in, and the invariant for the other requests.
use stateline.Comms.Delegator.Answering.{filled, answer}
use stateline.Prelude.{
  ◌+◌, ◌<◌, ◌≡◌, sym, ◌∙◌, ◌⊎◌, inl, inr, false, [], ◌∷◌, ◌++◌, none, some, arith, length,
  Bool-cases,
}
use stateline.Std.Key.{Str, str_eq, str_key, nat_key}
use stateline.Std.Map.{find, erase, update}
use stateline.Std.Map.Order.{IsSorted}
use stateline.Std.Map.Laws.{Entries}
use stateline.Comms.Delegator.State.{Job, Request, Delegator, to_requester}
use stateline.Comms.Delegator.Telling.{NoNewWork}
use stateline.Comms.Delegator.Count.{
  Weight, count, owned, named, beyond, WorkerOk, RequestOk, Inv, AllTold,
}

-- What happens to the request when one of its jobs is done: it is answered with the last one,
-- and keeps the result before that.
abbrev pub IsAnswered : Job → Str → Request → Delegator → Delegator → Type 0
IsAnswered j text r s s' =
    ((r.n_done + 1 ≡ length r.job_types)
      × (s'.sent ≡ s.sent ++ to_requester (answer (filled j text r)) ∷ [])
      × (s'.requests ≡ erase j.requester_id (update j.requester_id (filled j text r) s.requests))
      × (find j.requester_id s'.requests ≡ none))
    ⊎ ((r.n_done + 1 < length r.job_types)
        × (s'.sent ≡ s.sent)
        × (s'.requests ≡ update j.requester_id (filled j text r) s.requests)
        × (find j.requester_id s'.requests ≡ some (filled j text r)))

not_owned : (id : Str) (j : Job) → str_eq id j.requester_id ≡ false → owned id j ≡ 0
not_owned id j h =
    ground (arith, str_key.eq_iff id j.requester_id, str_key.eq_iff j.requester_id id)

-- The invariant after a result was recorded, for every request but the job's own.
pub record Others (j : Job) (s s' : Delegator) : Type 0 where
  pub shrunk : (p : Weight) → count p s ≡ p j + count p s'
  pub next_same : s'.next_job_id ≡ s.next_job_id
  pub workers_sorted : IsSorted s'.workers
  pub workers_ok : Entries WorkerOk s'.workers
  pub requests_sorted : IsSorted s'.requests
  pub no_new : NoNewWork s.workers s'.workers
  pub told : AllTold s'
  pub others :
      (id : Str) → str_eq id j.requester_id ≡ false → find id s'.requests ≡ find id s.requests

pub Inv-of_Others :
    (j : Job) (s s' : Delegator)
    → Inv s
    → Others j s s'
    → ((r' : Request) → find j.requester_id s'.requests ≡ some r' → RequestOk s' j.requester_id r')
    → (find j.requester_id s'.requests ≡ none → count (owned j.requester_id) s' ≡ 0)
    → Inv s'
Inv-of_Others j s s' v o own gone = record {
  workers_sorted = o.workers_sorted;
  requests_sorted = o.requests_sorted;
  workers_ok = o.workers_ok;
  requests_ok = λ id r' e. elim (Bool-cases (str_eq id j.requester_id)) [
    | inl same ↦ let e' = (str_key.eq_iff id j.requester_id).0 same in rw e' (own r' (rw e' at e))
    | inr other ↦
        let old = v.requests_ok id r' (sym (o.others id other) ∙ e) in
        record {
          counted = omega (arith, old.counted, o.shrunk (owned id), not_owned id j other);
          slots = omega (arith, old.slots, o.shrunk (beyond id (length r'.results)));
          pending = old.pending;
          few = old.few;
        }
  ];
  no_orphans = λ id e. elim (Bool-cases (str_eq id j.requester_id)) [
    | inl same ↦ let e' = (str_key.eq_iff id j.requester_id).0 same in rw e' (gone (rw e' at e))
    | inr other ↦ omega (arith, v.no_orphans id (sym (o.others id other) ∙ e), o.shrunk (owned id))
  ];
  unique = λ id. omega (arith, v.unique id, o.shrunk (named id));
  fresh = λ n h. omega (
    arith,
    v.fresh n (rw o.next_same at h),
    o.shrunk (named (stateline.Std.Decimal.to_string n)),
  );
  told = o.told;
}
