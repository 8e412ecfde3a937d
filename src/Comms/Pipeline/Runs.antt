-- ===== src/Comms/Pipeline/Runs.antt =====
-- What the requester reads of the answers to its messages.
use stateline.Prelude.{
  ℕ, ◌≤◌, ◌<◌, ◌≡◌, ◌≢◌, sym, ap, ◌∙◌, true, List, [], ◌∷◌, ◌++◌, some, arith, length, get_elem?,
  map, All, int_max, uint_mod, wrap, Result, ok,
}
use mathlib.Core.Path.{subst}
use mathlib.Core.List.{Memᴰ}
use stateline.Std.Key.{Str}
use stateline.Std.Decimal.{to_string}
use stateline.Std.Decimal.RoundTrip.{stoul-to_string}
use stateline.Common.Text.{split_set}
use stateline.Common.Text.RoundTrip.{Without, between}
use stateline.Comms.Pipeline.Computed.{
  IsComputed, computed_text, frames-eq-map, has-of_get_elem?, read_values, read_sample-print,
  submit_ok,
}
use stateline.Comms.Messages.{Address, Message}
use stateline.Comms.Delegator.State.{Delegator, Zmq, frame}
use stateline.Comms.Delegator.Events.{AcceptsAll}
use stateline.Comms.Delegator.Keeping.{replies}
use stateline.Comms.Delegator.Answers.{RightAnswer}
use stateline.Comms.Delegator.Runs.{Run, answers_right, each}
use stateline.Comms.Delegator.Completion.{answer_sent}
use stateline.Comms.Delegator.Count.{count}
use stateline.Comms.Requester.{submit, retrieve}
use stateline.Comms.Requester.TypeSets.{has, IsRising}

All-lookup : (P : Message → Type 0) (m : Message) (ms : List Message) → Memᴰ m ms → All P ms → P m
All-lookup P m [] d h = elim d [ ]
All-lookup P m (x ∷ ms) (Memᴰ.head e) h = rw e h.0
All-lookup P m (x ∷ ms) (Memᴰ.tail d) h = All-lookup P m ms d h.1

module _ {Real : Type 0} (stod : Str → Result Real) (print : Real → Str) (rounded : Real → Real)
    (likelihood : ℕ → List Real → Real) (reads : (x : Real) → stod (print x) ≡ ok (rounded x))
    (plain : (x : Real) → Without b':' (print x)) (filled : (x : Real) → print x ≢ []) where
  abbrev Computed : ℕ → Str → Str → Type 0
  Computed = IsComputed stod print likelihood

  -- An answer that is right for the types and the data of a request.
  retrieve-right :
      (id t : ℕ) (ts : List ℕ) (v : Real) (vs : List Real) (who : Address) (m : Message)
      → id < uint_mod
      → ((n : ℕ) → has n (t ∷ ts) ≡ true → n ≤ int_max)
      → m.address ≡ to_string id ∷ who
      → length m.frames ≡ length (t ∷ ts)
      → ((i u : ℕ)
          → get_elem? (t ∷ ts) i ≡ some u
          → (text : Str) × (get_elem? m.frames i ≡ some text)
            × Computed u (between b':' (print v) (map print vs)) text)
      → retrieve stod m ≡ ok (id, map (λ u. rounded (likelihood u (map rounded (v ∷ vs)))) (t ∷ ts))
  unfolding retrieve frame
  retrieve-right id t ts v vs who m small_id small a slots right =
      let g : ℕ → Str = λ u. print (likelihood u (map rounded (v ∷ vs))) in
      let fits : wrap id ≡ id = omega (arith, small_id) in
      let frames : m.frames ≡ map g (t ∷ ts) = frames-eq-map g m.frames (t ∷ ts) slots (λ i u e.
        let (text, found, computed) = right i u e in
        found
        ∙ ap some (
            computed_text stod print likelihood u _ text (map rounded (v ∷ vs))
              (small u (has-of_get_elem? (t ∷ ts) i u e))
              (read_values stod print likelihood rounded reads plain filled v vs) computed)) in
      rw (a, retrieve)
        (rw (stoul-to_string id (omega (arith, small_id))) (
          rw frames (
            rw
              (read_sample-print stod print likelihood rounded reads plain filled
                (λ u. likelihood u (map rounded (v ∷ vs))) (t ∷ ts))
              (rw fits))))

  -- An answer in a run, to an address from which only the message of `submit` came.
  right-retrieve :
      (asked : List Message) (id t : ℕ) (ts : List ℕ) (v : Real) (vs : List Real) (who : Address)
      (m q : Message)
      → id < uint_mod
      → IsRising (t ∷ ts)
      → ((n : ℕ) → has n (t ∷ ts) ≡ true → n ≤ int_max)
      → submit print id (t ∷ ts) (v ∷ vs) ≡ ok q
      → m.address ≡ q.address ++ who
      → ((x : Message) → Memᴰ x asked → x.address ≡ m.address → x.frames ≡ q.frames)
      → RightAnswer Computed asked m
      → retrieve stod m ≡ ok (id, map (λ u. rounded (likelihood u (map rounded (v ∷ vs)))) (t ∷ ts))
  unfolding frame
  right-retrieve asked id t ts v vs who m q small_id rising small e a only answer =
      let (text, sent, types_read, slots) =
        submit_ok stod print likelihood rounded reads plain filled id t ts v vs rising small in
      let src = answer.source in
      let frames : src.question.frames ≡ text ∷ between b':' (print v) (map print vs) ∷ [] =
        only src.question src.listed (sym src.same_address) ∙ ground (arith, sent, e) in
      let same_text : src.text ≡ text = ground (arith, src.first, frames) in
      let same_content : answer.content ≡ between b':' (print v) (map print vs) =
        ground (arith, src.second, frames) in
      let same_types : answer.types ≡ t ∷ ts =
        ground (arith, rw same_text at src.types_read, types_read) in
      let own_address : q.address ≡ to_string id ∷ [] = ground (arith, sent, e) in
      let address : m.address ≡ to_string id ∷ who = a ∙ ap (λ x. x ++ who) own_address in
      let all_slots = src.same_slots ∙ ap (λ x. length (split_set x b':')) same_text ∙ slots in
      retrieve-right id t ts v vs who m small_id small address all_slots (λ i u e'.
        let (x, found, computed) =
          answer.right i u (ap (λ types. get_elem? types i) same_types ∙ e') in
        (x, found, subst (λ (c : Str). Computed u c x) same_content computed))

  -- In a run of the delegator in which ZeroMQ accepts every message, every event keeps to the
  -- protocol and the workers give as the result of a job what their minion sends for a JOB message
  -- with its type and data: if `submit` of a batch with rising types that fit an `int` and at least
  -- one value made the only REQUEST messages that came from an address, and an answer was sent to
  -- this address, then `retrieve` on it gives the id of the batch and, for each type in order, the
  -- likelihood of the type at the values, values and likelihoods as they are read after printing.
  -- `std::to_string` of a `double` is taken to print no colon and no empty text, which `std::stod`
  -- can read.
  pub Run-retrieve :
      {zmq : Zmq} {n_job_types c : ℕ} {asked : List Message} {s : Delegator} (id t : ℕ)
      (ts : List ℕ) (v : Real) (vs : List Real) (who : Address) (m q : Message)
      → AcceptsAll zmq
      → Run Computed zmq n_job_types c asked s
      → Memᴰ m (replies s.sent)
      → id < uint_mod
      → IsRising (t ∷ ts)
      → ((n : ℕ) → has n (t ∷ ts) ≡ true → n ≤ int_max)
      → submit print id (t ∷ ts) (v ∷ vs) ≡ ok q
      → m.address ≡ q.address ++ who
      → ((x : Message) → Memᴰ x asked → x.address ≡ m.address → x.frames ≡ q.frames)
      → retrieve stod m ≡ ok (id, map (λ u. rounded (likelihood u (map rounded (v ∷ vs)))) (t ∷ ts))
  Run-retrieve {asked} {s} id t ts v vs who m q z run listed small_id rising small e a only =
      right-retrieve asked id t ts v vs who m q small_id rising small e a only (
        All-lookup (RightAnswer Computed asked) m (replies s.sent) listed
          (answers_right Computed z run))

  -- In a run of the delegator in which ZeroMQ accepts every message, every event keeps to the
  -- protocol and the workers give as the result of a job what their minion sends for a JOB message
  -- with its type and data: if `submit` of a batch with rising types that fit an `int` and at least
  -- one value made the only REQUEST messages that came from an address, one of them came in, and no
  -- job is queued or in progress, then an answer was sent to this address, and `retrieve` on it gives
  -- the id of the batch and, for each type in order, the likelihood of the type at the values, values
  -- and likelihoods as they are read after printing. `std::to_string` of a `double` is taken to print
  -- no colon and no empty text, which `std::stod` can read.
  pub Run-completes :
      {zmq : Zmq} {n_job_types c : ℕ} {asked : List Message} {s : Delegator} (id t : ℕ)
      (ts : List ℕ) (v : Real) (vs : List Real) (who : Address) (q : Message)
      → AcceptsAll zmq
      → Run Computed zmq n_job_types c asked s
      → count each s ≡ 0
      → id < uint_mod
      → IsRising (t ∷ ts)
      → ((n : ℕ) → has n (t ∷ ts) ≡ true → n ≤ int_max)
      → submit print id (t ∷ ts) (v ∷ vs) ≡ ok q
      → Memᴰ (record q { address = q.address ++ who }) asked
      → ((x : Message) → Memᴰ x asked → x.address ≡ q.address ++ who → x.frames ≡ q.frames)
      → (m : Message) × Memᴰ m (replies s.sent)
        × (m.address ≡ q.address ++ who)
        × (retrieve stod m
            ≡ ok (id, map (λ u. rounded (likelihood u (map rounded (v ∷ vs)))) (t ∷ ts)))
  Run-completes id t ts v vs who q z run idle small_id rising small e listed only =
      let (m, sent, a) =
        answer_sent Computed (record q { address = q.address ++ who }) z run idle listed in
      (
        m,
        sent,
        a,
        Run-retrieve id t ts v vs who m q z run sent small_id rising small e a
            (λ x d b. only x d (b ∙ a)),
      )
