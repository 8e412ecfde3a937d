-- ===== src/Comms/Delegator/Submitting.antt =====
-- `receiveRequest` keeps the invariant, for a request whose id is not pending.
use stateline.Comms.Delegator.Requesting.{
  new_jobs, enqueue_jobs-new_jobs, sum_owned, sum_owned_other, sum_beyond, sum_beyond_other,
  NamedOnce, sum_named, length-transform_types,
}
use stateline.Prelude.{
  ℕ, ◌+◌, ◌≤◌, ◌<◌, ◌≡◌, refl, sym, append-nil, ap, inl, inr, false, List, [], ◌∷◌, ◌++◌, none,
  some, arith, length, length-replicate, replicate, uint_mod, ok, Bool-cases,
}
use stateline.Std.Key.{Str, str_eq, str_key, nat_key}
use stateline.Std.Map.{find, insert}
use stateline.Std.Map.Order.{insert-IsSorted}
use stateline.Std.Map.Laws.{find-insert}
use stateline.Std.Decimal.{to_string}
use stateline.Std.Decimal.RoundTrip.{to_string_injective}
use stateline.Common.Text.{join_str, split_set}
use stateline.Comms.Messages.{Message}
use stateline.Comms.Delegator.State.{Job, Request, Worker, Delegator, frame}
use stateline.Comms.Delegator.Handlers.{receive_request, transform_types}
use stateline.Comms.Delegator.Telling.{AllTold-of_NoNewWork, NoNewWork-same}
use stateline.Comms.Delegator.Count.{
  Weight, count, sum_list, owned, named, beyond, RequestOk, Inv, sum_list-append, str_eq_refl,
  count_mono, str_ne_sym, AllTold, weight-le-count, owned_self,
}

-- The request as it is stored: no result yet, a slot for each text that names a type.
abbrev pub opened : Message → List ℕ → Str → ℕ → Request
opened msg types content slots = record {
  address = msg.address;
  job_types = types;
  content = content;
  results = replicate slots [];
  n_done = 0;
}

abbrev pub requested : Str → Request → Delegator → Delegator
requested id r s = record s {
  requests = insert id r s.requests;
  job_queue = s.job_queue ++ new_jobs id 0 s.next_job_id r.job_types;
  next_job_id = s.next_job_id + length r.job_types;
}

pub requested-count :
    (id : Str) (r : Request) (s : Delegator) (p : Weight)
    → count p (requested id r s) ≡ count p s + sum_list p (new_jobs id 0 s.next_job_id r.job_types)
unfolding count
requested-count id r s p =
    omega (arith, sum_list-append p s.job_queue (new_jobs id 0 s.next_job_id r.job_types))

module _ (id : Str) (r : Request) (s : Delegator) (v : Inv s) (q : find id s.requests ≡ none)
    (started : r.n_done ≡ 0) (some_types : 0 < length r.job_types)
    (room : length r.job_types ≤ length r.results)
    (small : s.next_job_id + length r.job_types < uint_mod) where
  abbrev jobs : List Job
  jobs = new_jobs id 0 s.next_job_id r.job_types

  none_owned : count (owned id) s ≡ 0
  none_owned = v.no_orphans id q

  beyond-le-owned : (n : ℕ) → count (beyond id n) s ≤ count (owned id) s
  beyond-le-owned n = count_mono (beyond id n) (owned id) (λ j. ground arith) s

  own_ok : RequestOk (requested id r s) id r
  own_ok = record {
    counted = omega (
      arith,
      requested-count id r s (owned id),
      none_owned,
      sum_owned id 0 s.next_job_id r.job_types,
      started,
    );
    slots = omega (
      arith,
      requested-count id r s (beyond id (length r.results)),
      beyond-le-owned (length r.results),
      none_owned,
      sum_beyond id id 0 s.next_job_id (length r.results) r.job_types,
    );
    pending = omega (arith, started, some_types);
    few = omega (arith, small);
  }

  other_ok :
      (other : Str) (r' : Request)
      → str_eq id other ≡ false
      → RequestOk s other r'
      → RequestOk (requested id r s) other r'
  other_ok other r' ne old = record {
    counted = omega (
      arith,
      old.counted,
      requested-count id r s (owned other),
      sum_owned_other id other 0 s.next_job_id r.job_types ne,
    );
    slots = omega (
      arith,
      old.slots,
      requested-count id r s (beyond other (length r'.results)),
      sum_beyond_other id other 0 s.next_job_id (length r'.results) r.job_types ne,
    );
    pending = old.pending;
    few = old.few;
  }

  named_after : (i : Str) → NamedOnce i s.next_job_id (s.next_job_id + length r.job_types) jobs
  named_after i = sum_named i id 0 s.next_job_id r.job_types

  stored : find id (requested id r s).requests ≡ some r
  stored = rw (find-insert id id r s.requests q) (rw (str_eq_refl id))

  -- A job that was in progress before is not of this request, whose id was free.
  still_known :
      (k job_id : Str) (w : Worker) (j : Job) (r' : Request)
      → find k s.workers ≡ some w
      → find job_id w.work_in_progress ≡ some j
      → find j.requester_id (insert id r s.requests) ≡ some r'
      → (r₀ : Request) × (find j.requester_id s.requests ≡ some r₀) × (r'.content ≡ r₀.content)
  still_known k job_id w j r' e f found = elim (Bool-cases (str_eq j.requester_id id)) [
    | inl same ↦ absurd (
        omega (
          arith,
          rw (← (str_key.eq_iff j.requester_id id).0 same) at none_owned,
          weight-le-count (owned j.requester_id) k job_id w j s e f,
          owned_self j,
        ))
    | inr other ↦
        (r', rw other at (rw (find-insert j.requester_id id r s.requests q) at found), refl)
  ]

  requested_told : AllTold (requested id r s)
  requested_told =
      AllTold-of_NoNewWork s (requested id r s) [] v.told (NoNewWork-same s.workers)
        (sym (append-nil s.sent)) still_known

  requested-Inv : Inv (requested id r s)
  requested-Inv = record {
    workers_sorted = v.workers_sorted;
    requests_sorted = insert-IsSorted id r s.requests v.requests_sorted;
    workers_ok = v.workers_ok;
    requests_ok = λ i r' e. elim (Bool-cases (str_eq i id)) [
      | inl same ↦
          let i_id = (str_key.eq_iff i id).0 same in
          let mine : r ≡ r' = ground (arith, stored, rw i_id at e) in rw i_id (rw (← mine) own_ok)
      | inr other ↦
          other_ok i r' (str_ne_sym i id other)
            (v.requests_ok i r' (rw other at (rw (find-insert i id r s.requests q) at e)))
    ];
    no_orphans = λ i e. elim (Bool-cases (str_eq i id)) [
      | inl same ↦ let i_id = (str_key.eq_iff i id).0 same in cc (stored, rw i_id at e)
      | inr other ↦ omega (
        arith,
        requested-count id r s (owned i),
        v.no_orphans i (rw other at (rw (find-insert i id r s.requests q) at e)),
        sum_owned_other id i 0 s.next_job_id r.job_types (str_ne_sym i id other),
      )
    ];
    unique = λ i. elim (named_after i) [
      | inl no_new ↦ omega (arith, v.unique i, requested-count id r s (named i))
      | inr (m, e, low, high, once) ↦
          omega (arith, rw (← e) at (v.fresh m low), requested-count id r s (named i))
    ];
    fresh = λ n h. elim (named_after (to_string n)) [
      | inl no_new ↦ omega (arith, v.fresh n, requested-count id r s (named (to_string n)))
      | inr (m, e, low, high, once) ↦ absurd (omega (arith, to_string_injective n m e))
    ];
    told = requested_told;
  }

-- A REQUEST message with a fresh id, job types that `stoi` can read and at least one of them: the
-- handler does not fault, the invariant holds afterwards, the request is stored, and one new job
-- for each type stands at the end of the queue. The job counter must not wrap.
pub receive_request_ok :
    (msg : Message) (s : Delegator) (id text content : Str) (types : List ℕ)
    → Inv s
    → join_str msg.address (b':' ∷ []) ≡ ok id
    → frame msg.frames 0 ≡ ok text
    → transform_types (split_set text b':') [] ≡ ok types
    → frame msg.frames 1 ≡ ok content
    → find id s.requests ≡ none
    → 0 < length types
    → s.next_job_id + length types < uint_mod
    → let r = opened msg types content (length (split_set text b':')) in
      (receive_request msg s ≡ ok (requested id r s))
      × Inv (requested id r s)
      × (find id (requested id r s).requests ≡ some r)
unfolding receive_request
receive_request_ok msg s id text content types v a f₀ ts f₁ q some_types small =
    let slots = length (split_set text b':') in
    let r = opened msg types content slots in
    let room : length types ≤ length r.results = omega (
      arith,
      length-transform_types (split_set text b':') [] types ts,
      length-replicate {A = Str} slots [],
    ) in
    (
      rw (a, receive_request)
          (rw (f₀, receive_request)
            (rw (ts, receive_request)
              (rw (f₁, receive_request)
                (ap ok (
                  enqueue_jobs-new_jobs id 0 s.next_job_id types
                    (record s { requests = insert id r s.requests }) refl (omega arith) small))))),
      requested-Inv id r s v q refl some_types room small,
      stored id r s v q refl some_types room small,
    )
