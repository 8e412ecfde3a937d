-- ===== src/Comms/Delegator/Answers/Opening.antt =====
-- `receiveRequest`: the answers stay right, and the new request is right.
use stateline.Comms.Delegator.Answers.{
  IsAsked, mistyped, at_slot, RightRequest, RightAnswer, IsRight,
}
use stateline.Comms.Delegator.Answers.Slots.{
  mistyped-le-owned, sum_mistyped, sum_at_slot, get_elem?-lt,
}
use stateline.Prelude.{
  ℕ, ◌≡◌, refl, ap, inl, inr, Bool-cases, false, List, [], ◌∷◌, none, some, arith, length,
  length-replicate, get_elem?, All-mono, ok,
}
use mathlib.Core.List.{Memᴰ}
use stateline.Std.Key.{Str, str_eq, str_key}
use stateline.Std.Map.{find}
use stateline.Std.Map.Laws.{find-insert, sum_values-insert}
use stateline.Common.Text.{split_set}
use stateline.Comms.Messages.{Address, Message}
use stateline.Comms.Delegator.State.{Request, Delegator, frame}
use stateline.Comms.Delegator.Handlers.{transform_types}
use stateline.Comms.Delegator.Count.{owned, Inv, sum_list_mono, count_mono, str_ne_sym, str_eq_refl}
use stateline.Comms.Delegator.Requesting.{new_jobs, sum_owned_other}
use stateline.Comms.Delegator.Submitting.{opened, requested, requested-count}
use stateline.Comms.Delegator.Keeping.{replies}

-- A further REQUEST message takes nothing away.
IsAsked-cons :
    {address : Address} {types : List ℕ} {content : Str} {slots : ℕ} (msg : Message)
    (asked : List Message)
    → IsAsked asked address types content slots
    → IsAsked (msg ∷ asked) address types content slots
IsAsked-cons msg asked q = record {
  question = q.question;
  listed = Memᴰ.tail q.listed;
  same_address = q.same_address;
  text = q.text;
  first = q.first;
  types_read = q.types_read;
  second = q.second;
  same_slots = q.same_slots;
}

module _ (IsValue : ℕ → Str → Str → Type 0) (msg : Message) (asked : List Message)
    (id text content : Str) (types : List ℕ) (s : Delegator) (v : Inv s)
    (h : IsRight IsValue asked s) (f₀ : frame msg.frames 0 ≡ ok text)
    (ts : transform_types (split_set text b':') [] ≡ ok types)
    (f₁ : frame msg.frames 1 ≡ ok content) (q : find id s.requests ≡ none) where
  abbrev new : Request
  new = opened msg types content (length (split_set text b':'))

  abbrev after : Delegator
  after = requested id new s

  own_right : RightRequest IsValue (msg ∷ asked) after id new
  own_right = record {
    source = record {
      question = msg;
      listed = Memᴰ.head refl;
      same_address = refl;
      text = text;
      first = f₀;
      types_read = ts;
      second = f₁;
      same_slots = length-replicate {A = Str} (length (split_set text b':')) [];
    };
    typed = omega (
      arith,
      requested-count id new s (mistyped id types),
      count_mono (mistyped id types) (owned id) (mistyped-le-owned id types) s,
      v.no_orphans id q,
      sum_mistyped id 0 s.next_job_id types types (λ i. ap (get_elem? types) (omega arith)),
    );
    right = λ i t e gone. absurd (
        omega (
          arith,
          requested-count id new s (at_slot id i),
          sum_at_slot id 0 s.next_job_id i types (omega arith)
              (omega (arith, get_elem?-lt types i t e)),
        ));
  }

  other_right :
      (i : Str) (r : Request)
      → str_eq id i ≡ false
      → RightRequest IsValue asked s i r
      → RightRequest IsValue (msg ∷ asked) after i r
  other_right i r other old = record {
    source = IsAsked-cons msg asked old.source;
    typed = omega (
      arith,
      old.typed,
      requested-count id new s (mistyped i r.job_types),
      sum_list_mono (mistyped i r.job_types) (owned i) (mistyped-le-owned i r.job_types)
          (new_jobs id 0 s.next_job_id types),
      sum_owned_other id i 0 s.next_job_id types other,
    );
    right =
        λ n t e gone. old.right n t e (omega (arith, gone, requested-count id new s (at_slot i n)));
  }

  stored : find id after.requests ≡ some new
  stored = rw (find-insert id id new s.requests q) (rw (str_eq_refl id))

  pub requested-IsRight : IsRight IsValue (msg ∷ asked) after
  requested-IsRight = record {
    requests_right = λ i r e. elim (Bool-cases (str_eq i id)) [
      | inl same ↦
          let i_id = (str_key.eq_iff i id).0 same in
          let mine : new ≡ r = ground (arith, stored, rw i_id at e) in
          rw i_id (rw (← mine) own_right)
      | inr other ↦
          other_right i r (str_ne_sym i id other)
            (h.requests_right i r (rw other at (rw (find-insert i id new s.requests q) at e)))
    ];
    answers_right =
        All-mono (RightAnswer IsValue asked) (RightAnswer IsValue (msg ∷ asked))
          (λ m a. record {
            types = a.types;
            content = a.content;
            source = IsAsked-cons msg asked a.source;
            right = a.right;
          })
          (replies s.sent) h.answers_right;
    conserved = λ p. omega (
      arith,
      h.conserved p,
      sum_values-insert (λ (r : Request). p r.address) id new s.requests q,
    );
  }
