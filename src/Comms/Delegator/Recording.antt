-- ===== src/Comms/Delegator/Recording.antt =====
-- The end of `receiveResult`: the invariant holds, and a request is answered with its last result.
use stateline.Comms.Delegator.Answered.{IsAnswered, Others, Inv-of_Others}
use stateline.Comms.Delegator.Answering.{
  filled, relieved, recorded, answer, recorded-count, relieved-WorkerOk,
}
use stateline.Prelude.{
  ℕ, ◌+◌, ◌<◌, ◌≡◌, refl, sym, append-nil, ◌∙◌, inl, inr, true, [], ◌∷◌, ◌++◌, none, some, arith,
  length, length-set, ◌==◌, wrap, ok, Bool-cases,
}
use stateline.Std.Key.{Str, str_eq, str_key, nat_key}
use stateline.Std.Map.{find, erase}
use stateline.Std.Map.Order.{update-IsSorted, erase-IsSorted, find-erase_self}
use stateline.Std.Map.Laws.{find-Entries, update-Entries, find-update, find-erase_ne}
use stateline.Common.CircularBuffer.{CircularBuffer, IsFull}
use stateline.Comms.Messages.{Message}
use stateline.Comms.Socket.{send}
use stateline.Comms.Delegator.State.{Job, Request, Worker, Delegator, Zmq, to_requester}
use stateline.Comms.Delegator.Handlers.{finish_request}
use stateline.Comms.Delegator.Telling.{
  NoNewWork, NoNewWork-update, AllTold-of_NoNewWork, find-of_erase,
}
use stateline.Comms.Delegator.Count.{Weight, count, owned, beyond, WorkerOk, Inv, str_eq_refl}

module _ (zmq : Zmq) (now : ℕ) (k job_id : Str) (w : Worker) (j : Job) (b : CircularBuffer ℕ)
    (r : Request) (text : Str) (s : Delegator) (v : Inv s) (e : find k s.workers ≡ some w)
    (f : find job_id w.work_in_progress ≡ some j) (t : find j.type w.times ≡ some b)
    (q : find j.requester_id s.requests ≡ some r) where
  abbrev pub after : Delegator
  after = recorded now k job_id w j b r text s

  abbrev pub closed : Delegator
  closed = record after {
    requests = erase j.requester_id after.requests;
    sent = s.sent ++ to_requester (answer (filled j text r)) ∷ [];
  }

  after_no_new : NoNewWork s.workers after.workers
  after_no_new =
      NoNewWork-update k job_id (relieved now job_id j b w) w s.workers e refl refl
        (find-Entries WorkerOk k w s.workers v.workers_ok e).jobs_sorted

  -- A request keeps its data.
  after_known :
      (id : Str) (r' : Request)
      → find id after.requests ≡ some r'
      → (r₀ : Request) × (find id s.requests ≡ some r₀) × (r'.content ≡ r₀.content)
  after_known id r' f' =
      let found = rw (find-update id j.requester_id (filled j text r) r s.requests q) at f' in
      elim (Bool-cases (str_eq id j.requester_id)) [
        | inl same ↦
            let mine : filled j text r ≡ r' = ground (arith, rw same at found) in
            (r, rw ((str_key.eq_iff id j.requester_id).0 same) q, rw (← mine) refl)
        | inr other ↦ (r', rw other at found, refl)
      ]

  after_ok : IsFull b → b.capacity ≡ 10 → Others j s after
  after_ok full cap =
      let ok_w = find-Entries WorkerOk k w s.workers v.workers_ok e in
      let w' = relieved now job_id j b w in
      record {
        shrunk = λ p. recorded-count zmq now k job_id w j b r text msg s p e f;
        next_same = refl;
        workers_sorted = update-IsSorted k w' s.workers v.workers_sorted;
        workers_ok =
            update-Entries WorkerOk k w' s.workers
              (relieved-WorkerOk zmq now k job_id w j b r text msg s ok_w f t full cap)
              v.workers_ok;
        requests_sorted =
            update-IsSorted j.requester_id (filled j text r) s.requests v.requests_sorted;
        no_new = after_no_new;
        told =
            AllTold-of_NoNewWork s after [] v.told after_no_new (sym (append-nil s.sent))
              (λ k' n w' j' r' e' f' q'. after_known j'.requester_id r' q');
        others = λ id other.
            rw (find-update id j.requester_id (filled j text r) r s.requests q) (rw other);
      }
    where
      msg : Message
      msg = answer r

  closed_ok : IsFull b → b.capacity ≡ 10 → Others j s closed
  unfolding count
  closed_ok full cap =
      let o = after_ok full cap in
      record {
        shrunk = o.shrunk;
        next_same = refl;
        workers_sorted = o.workers_sorted;
        workers_ok = o.workers_ok;
        requests_sorted = erase-IsSorted j.requester_id after.requests o.requests_sorted;
        no_new = after_no_new;
        told =
            AllTold-of_NoNewWork s closed (to_requester (answer (filled j text r)) ∷ []) v.told
              after_no_new refl
              (λ k' n w' j' r' e' f' q'. after_known j'.requester_id r' (
                find-of_erase j'.requester_id j.requester_id r' after.requests o.requests_sorted
                  q'));
        others =
            λ id other. find-erase_ne id j.requester_id after.requests other ∙ o.others id other;
      }

  mine : owned j.requester_id j ≡ 1
  mine = rw (str_eq_refl j.requester_id)

  closed_gone : find j.requester_id closed.requests ≡ none
  closed_gone =
      find-erase_self j.requester_id after.requests
        (update-IsSorted j.requester_id (filled j text r) s.requests v.requests_sorted)

  after_found : find j.requester_id after.requests ≡ some (filled j text r)
  after_found =
      rw (find-update j.requester_id j.requester_id (filled j text r) r s.requests q)
        (rw (str_eq_refl j.requester_id))

  -- The last result closes the request.
  closed-Inv : IsFull b → b.capacity ≡ 10 → r.n_done + 1 ≡ length r.job_types → Inv closed
  closed-Inv full cap last =
      let o = closed_ok full cap in
      let old = v.requests_ok j.requester_id r q in
      Inv-of_Others j s closed v o (λ r' e'. cc closed_gone)
        (λ e'. omega (arith, old.counted, o.shrunk (owned j.requester_id), mine, last))

  -- Any other result leaves it pending.
  after-Inv : IsFull b → b.capacity ≡ 10 → r.n_done + 1 < length r.job_types → Inv after
  after-Inv full cap more =
      let o = after_ok full cap in
      let old = v.requests_ok j.requester_id r q in
      Inv-of_Others j s after v o
        (λ r' e'.
          let same : filled j text r ≡ r' = ground (arith, after_found, e') in
          rw (← same) (record {
            counted = omega (arith, old.counted, old.few, o.shrunk (owned j.requester_id), mine);
            slots =
                rw (length-set r.results j.requester_index text)
                  (omega (arith, old.slots, o.shrunk (beyond j.requester_id (length r.results))));
            pending = omega (arith, old.few);
            few = old.few;
          }))
        (λ e'. cc after_found)

  pub finish_request_ok :
      IsFull b
      → b.capacity ≡ 10
      → zmq.accepts_requester (answer (filled j text r)) ≡ true
      → (s' : Delegator) × (finish_request zmq j.requester_id (filled j text r) after ≡ ok s')
        × Inv s'
        × IsAnswered j text r s s'
        × ((p : Weight) → count p s ≡ p j + count p s')
        × NoNewWork s.workers s'.workers
  unfolding finish_request send
  finish_request_ok full cap accepts =
      let old = v.requests_ok j.requester_id r q in
      elim (Bool-cases (wrap (r.n_done + 1) == length r.job_types)) [
        | inl last ↦
            let last' : r.n_done + 1 ≡ length r.job_types =
              ground (arith, last, old.few, old.pending) in
            (
              closed,
              rw last (rw accepts),
              closed-Inv full cap last',
              inl (last', refl, refl, closed_gone),
              (closed_ok full cap).shrunk,
              after_no_new,
            )
        | inr more ↦
            let more' : r.n_done + 1 < length r.job_types =
              ground (arith, more, old.few, old.pending) in
            (
              after,
              rw more,
              after-Inv full cap more',
              inr (more', refl, refl, after_found),
              (after_ok full cap).shrunk,
              after_no_new,
            )
      ]
