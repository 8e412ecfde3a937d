-- ===== src/Comms/Delegator/Answers/Filling.antt =====
-- `receiveResult`: a right text in its slot keeps the answers right.
use stateline.Comms.Delegator.Answers.{
  mistyped, at_slot, sum_messages, RightRequest, RightAnswer, IsRight,
}
use stateline.Comms.Delegator.Answers.Slots.{at_slot-le-owned, get_elem?-of_typed}
use stateline.Prelude.{
  ℕ, ◌+◌, ◌≤◌, ◌<◌, ◌≡◌, sym, ◌∙◌, inl, inr, Bool-cases, false, List, [], ◌∷◌, ◌++◌, some, arith,
  length, length-set, get_elem?, get_elem?-set, All, All-append, ◌==◌,
}
use mathlib.Core.Path.{subst}
use stateline.Std.Key.{Str, str_eq, str_key}
use stateline.Std.Map.{find, update}
use stateline.Std.Map.Laws.{
  find-update, find-erase_ne, sum_values-update, sum_values-erase, sum_values,
}
use stateline.Comms.Messages.{Address, Message}
use stateline.Comms.Delegator.State.{Job, Request, Delegator, to_requester}
use stateline.Comms.Delegator.Count.{Weight, count, owned, Inv, count_mono, str_ne_sym, str_eq_refl}
use stateline.Comms.Delegator.Answering.{filled, answer}
use stateline.Comms.Delegator.Answered.{IsAnswered}
use stateline.Comms.Delegator.Keeping.{replies, replies-append}

sum_messages-append :
    (p : Address → ℕ) (xs ys : List Message)
    → sum_messages p (xs ++ ys) ≡ sum_messages p xs + sum_messages p ys
sum_messages-append p [] ys = omega arith
sum_messages-append p (x ∷ xs) ys = omega (arith, sum_messages-append p xs ys)

module _ (IsValue : ℕ → Str → Str → Type 0) (asked : List Message) (j : Job) (r : Request)
    (text : Str) (s s' : Delegator) (v : Inv s) (h : IsRight IsValue asked s)
    (q : find j.requester_id s.requests ≡ some r) (fits : j.requester_index < length r.results)
    (held : (p : Weight) → p j ≤ count p s) (shrunk : (p : Weight) → count p s ≡ p j + count p s')
    (true_text : IsValue j.type r.content text) where
  old : RightRequest IsValue asked s j.requester_id r
  old = h.requests_right j.requester_id r q

  has_type : get_elem? r.job_types j.requester_index ≡ some j.type
  has_type =
      get_elem?-of_typed r.job_types j
        (omega (arith, old.typed, held (mistyped j.requester_id r.job_types)))

  -- The slot of the job has the text, and the others have what they had.
  filled_right :
      (i t : ℕ)
      → get_elem? r.job_types i ≡ some t
      → count (at_slot j.requester_id i) s' ≡ 0
      → (x : Str) × (get_elem? (filled j text r).results i ≡ some x) × IsValue t r.content x
  filled_right i t e gone = elim (Bool-cases (j.requester_index == i)) [
    | inl here ↦
        let same : j.type ≡ t = ground (arith, e, has_type, here) in
        (
          text,
          get_elem?-set r.results j.requester_index i text fits ∙ rw here,
          subst (λ (u : ℕ). IsValue u r.content text) same true_text,
        )
    | inr elsewhere ↦
        let free : at_slot j.requester_id i j ≡ 0 = ground (arith, elsewhere) in
        let (x, e', ok_x) =
          old.right i t e (omega (arith, gone, free, shrunk (at_slot j.requester_id i))) in
        let kept : get_elem? (filled j text r).results i ≡ get_elem? r.results i =
          get_elem?-set r.results j.requester_index i text fits ∙ rw elsewhere in
        (x, kept ∙ e', ok_x)
  ]

  filled-RightRequest : RightRequest IsValue asked s' j.requester_id (filled j text r)
  filled-RightRequest = record {
    source = record {
      question = old.source.question;
      listed = old.source.listed;
      same_address = old.source.same_address;
      text = old.source.text;
      first = old.source.first;
      types_read = old.source.types_read;
      second = old.source.second;
      same_slots = length-set r.results j.requester_index text ∙ old.source.same_slots;
    };
    typed = omega (arith, old.typed, shrunk (mistyped j.requester_id r.job_types));
    right = filled_right;
  }

  -- With the last job gone every slot has its text.
  answer-RightAnswer :
      r.n_done + 1 ≡ length r.job_types → RightAnswer IsValue asked (answer (filled j text r))
  answer-RightAnswer last =
      let left = (v.requests_ok j.requester_id r q).counted in
      let mine : owned j.requester_id j ≡ 1 = rw (str_eq_refl j.requester_id) in
      record {
        types = r.job_types;
        content = r.content;
        source = filled-RightRequest.source;
        right = λ i t e. filled_right i t e (
            omega (
              arith,
              count_mono (at_slot j.requester_id i) (owned j.requester_id)
                  (at_slot-le-owned j.requester_id i) s',
              shrunk (owned j.requester_id),
              left,
              mine,
              last,
            ));
      }

  not_mine :
      (p : Str → Weight)
      → ((i : Str) (k : Job) → p i k ≤ owned i k)
      → (i : Str) → str_eq i j.requester_id ≡ false
      → count (p i) s' ≡ count (p i) s
  not_mine p le i other = ground (arith, shrunk (p i), le i j, str_ne_sym i j.requester_id other)

  other_right :
      (i : Str) (r' : Request)
      → str_eq i j.requester_id ≡ false
      → RightRequest IsValue asked s i r'
      → RightRequest IsValue asked s' i r'
  other_right i r' other o = record {
    source = o.source;
    typed = omega (arith, o.typed, shrunk (mistyped i r'.job_types));
    right = λ n t e gone.
        o.right n t e
          (omega (arith, gone, not_mine (λ x. at_slot x n) (λ x. at_slot-le-owned x n) i other));
  }

  same_others :
      IsAnswered j text r s s'
      → (i : Str) → str_eq i j.requester_id ≡ false
      → find i s'.requests ≡ find i s.requests
  same_others (inl (_, _, e, _)) i other = rw e (
      find-erase_ne i j.requester_id _ other
      ∙ find-update i j.requester_id (filled j text r) r s.requests q
      ∙ rw other)
  same_others (inr (_, _, e, _)) i other =
      rw e (find-update i j.requester_id (filled j text r) r s.requests q ∙ rw other)

  still_right :
      IsAnswered j text r s s'
      → (i : Str) (r' : Request) → find i s'.requests ≡ some r'
      → RightRequest IsValue asked s' i r'
  still_right a i r' e = elim (Bool-cases (str_eq i j.requester_id)) [
    | inl same ↦
        let i_id = (str_key.eq_iff i j.requester_id).0 same in
        let e' : find j.requester_id s'.requests ≡ some r' = rw i_id at e in
        elim a [
          | inl (_, _, _, gone) ↦ cc
          | inr (_, _, _, kept) ↦
              let mine : filled j text r ≡ r' = ground (arith, kept, e') in
              rw i_id (rw (← mine) filled-RightRequest)
        ]
    | inr other ↦ other_right i r' other (h.requests_right i r' (sym (same_others a i other) ∙ e))
  ]

  still_answered : IsAnswered j text r s s' → All (RightAnswer IsValue asked) (replies s'.sent)
  unfolding replies
  still_answered (inl (last, e, _, _)) = rw e (
      rw (replies-append s.sent (to_requester (answer (filled j text r)) ∷ [])) (
        All-append (RightAnswer IsValue asked) (replies s.sent) _ h.answers_right
          (answer-RightAnswer last, tt)))
  still_answered (inr (_, e, _, _)) = rw e h.answers_right

  still_conserved :
      IsAnswered j text r s s'
      → (p : Address → ℕ)
      → sum_messages p (replies s'.sent) + sum_values (λ (u : Request). p u.address) s'.requests
        ≡ sum_messages p asked
  unfolding replies
  still_conserved (inl (_, sent, req, _)) p =
      let updated =
        sum_values-update (λ (u : Request). p u.address) j.requester_id (filled j text r) r
          s.requests q in
      let found : find j.requester_id (update j.requester_id (filled j text r) s.requests)
          ≡ some (filled j text r) =
        find-update j.requester_id j.requester_id (filled j text r) r s.requests q
        ∙ rw (str_eq_refl j.requester_id) in
      let erased =
        sum_values-erase (λ (u : Request). p u.address) j.requester_id (filled j text r) _ found in
      rw (sent, req)
        (rw (replies-append s.sent (to_requester (answer (filled j text r)) ∷ [])) (
          omega (
            arith,
            h.conserved p,
            updated,
            erased,
            sum_messages-append p (replies s.sent) (answer (filled j text r) ∷ []),
          )))
  still_conserved (inr (_, sent, req, _)) p =
      let updated =
        sum_values-update (λ (u : Request). p u.address) j.requester_id (filled j text r) r
          s.requests q in
      rw (sent, req) (omega (arith, h.conserved p, updated))

  pub answered-IsRight : IsAnswered j text r s s' → IsRight IsValue asked s'
  answered-IsRight a = record {
    requests_right = still_right a;
    answers_right = still_answered a;
    conserved = still_conserved a;
  }
