-- ===== src/Comms/Pipeline/Computed.antt =====
-- What a minion computes for a JOB message, and what the delegator and the minion read of a message
-- of the requester. `likelihood` is what the minions compute; a number that is printed and read
-- again is `rounded`.
use stateline.Prelude.{
  ℕ, zero, suc, ◌≤◌, ◌≡◌, ◌≢◌, refl, true, List, [], ◌∷◌, ◌++◌, some, arith, length, get_elem?, map,
  All, int_max, wrap, Result, ok,
}
use stateline.Std.Key.{Str}
use stateline.Std.Decimal.{to_string}
use stateline.Std.Decimal.RoundTrip.{stoi-to_string}
use stateline.Common.Text.{split_vector, split_set}
use stateline.Common.Text.RoundTrip.{
  Without, EndsFull, between, join_str-between, split_str-between, foldl-snoc,
}
use stateline.Comms.Messages.{Message, request}
use stateline.Comms.Delegator.State.{frame}
use stateline.Comms.Delegator.Handlers.{transform_types}
use stateline.Comms.Minion.{Minion, read_sample, next_job, submit_result}
use stateline.Comms.Requester.{submit}
use stateline.Comms.Requester.TypeSets.{has, IsRising}
use stateline.Comms.Requester.Types.{transform_types-join_str}

-- Frames that have a text for each type.
pub frames-eq-map :
    (g : ℕ → Str) (frames : List Str) (types : List ℕ)
    → length frames ≡ length types
    → ((i t : ℕ) → get_elem? types i ≡ some t → get_elem? frames i ≡ some (g t))
    → frames ≡ map g types
frames-eq-map g [] [] e h = refl
frames-eq-map g [] (t ∷ types) e h = absurd (omega (arith, e))
frames-eq-map g (f ∷ frames) [] e h = absurd (omega (arith, e))
frames-eq-map g (f ∷ frames) (t ∷ types) e h =
    let here : f ≡ g t = ground (arith, h 0 t) in
    let rest = frames-eq-map g frames types (omega (arith, e)) (λ i u x. h (suc i) u x) in
    rw (here, rest)

pub has-of_get_elem? : (xs : List ℕ) (i n : ℕ) → get_elem? xs i ≡ some n → has n xs ≡ true
has-of_get_elem? [] i n e = cc
has-of_get_elem? (x ∷ xs) zero n e = ground arith
has-of_get_elem? (x ∷ xs) (suc i) n e = ground (arith, has-of_get_elem? xs i n e)

module _ {Real : Type 0} (stod : Str → Result Real) (print : Real → Str)
    (likelihood : ℕ → List Real → Real) where
  -- What a minion sends for a JOB message with the type and the data.
  pub record IsComputed (t : ℕ) (content text : Str) : Type 0 where
    pub message : Message
    pub job_id : Str
    pub frames_are : message.frames ≡ to_string t ∷ job_id ∷ content ∷ []
    pub before : Minion
    pub after : Minion
    pub type : ℕ
    pub sample : List Real
    pub reads : next_job stod message before ≡ ok ((type, sample), after)
    pub sends : frame (submit_result print (likelihood type sample) after).frames 1 ≡ ok text

  pub next_job-frames :
      (message : Message) (t : ℕ) (job_id content : Str) (sample : List Real) (m : Minion)
      → message.frames ≡ to_string t ∷ job_id ∷ content ∷ []
      → t ≤ int_max
      → read_sample stod (split_vector content b':') ≡ ok sample
      → next_job stod message m ≡ ok ((t, sample), record { current_job = job_id })
  unfolding next_job frame
  next_job-frames message t job_id content sample m f small e =
      let fits : wrap t ≡ t = omega (arith, small) in
      rw f (rw e (rw (stoi-to_string t small) (rw fits)))

  pub computed_text :
      (t : ℕ) (content text : Str) (sample : List Real)
      → t ≤ int_max
      → read_sample stod (split_vector content b':') ≡ ok sample
      → IsComputed t content text
      → text ≡ print (likelihood t sample)
  unfolding submit_result frame
  computed_text t content text sample small e c =
      let known =
        next_job-frames c.message t c.job_id content sample c.before c.frames_are small e in
      let same = c.reads in ground (arith, known, same, c.sends)

  module _ (rounded : Real → Real) (reads : (x : Real) → stod (print x) ≡ ok (rounded x))
      (plain : (x : Real) → Without b':' (print x)) (filled : (x : Real) → print x ≢ []) where
    pub read_sample-print :
        {A : Type 0} (g : A → Real) (xs : List A)
        → read_sample stod (map (λ x. print (g x)) xs) ≡ ok (map (λ x. rounded (g x)) xs)
    unfolding read_sample
    read_sample-print g [] = refl
    read_sample-print g (x ∷ xs) = rw (reads (g x)) (rw (read_sample-print g xs))

    prints-Without : (vs : List Real) → All (Without b':') (map print vs)
    prints-Without [] = tt
    prints-Without (v ∷ vs) = (plain v, prints-Without vs)

    prints-EndsFull : (v : Real) (vs : List Real) → EndsFull (print v) (map print vs)
    prints-EndsFull v [] = filled v
    prints-EndsFull v (w ∷ vs) = prints-EndsFull w vs

    -- The data of a request, as a minion reads them.
    pub read_values :
        (v : Real) (vs : List Real)
        → read_sample stod (split_vector (between b':' (print v) (map print vs)) b':')
          ≡ ok (map rounded (v ∷ vs))
    unfolding split_vector
    read_values v vs =
        rw
          (split_str-between (λ out s. out ++ s ∷ []) [] b':' (print v) (map print vs)
            (prints-Without (v ∷ vs)) (prints-EndsFull v vs))
          (rw (foldl-snoc [] (map print (v ∷ vs))) (read_sample-print (λ x. x) (v ∷ vs)))

    -- What `submit` sends, and what the delegator reads from it.
    pub submit_ok :
        (id t : ℕ) (ts : List ℕ) (v : Real) (vs : List Real)
        → IsRising (t ∷ ts)
        → ((n : ℕ) → has n (t ∷ ts) ≡ true → n ≤ int_max)
        → (text : Str) × (submit print id (t ∷ ts) (v ∷ vs)
            ≡ ok (record {
              address = to_string id ∷ [];
              subject = request;
              frames = text ∷ between b':' (print v) (map print vs) ∷ [];
            }))
          × (transform_types (split_set text b':') [] ≡ ok (t ∷ ts))
          × (length (split_set text b':') ≡ length (t ∷ ts))
    unfolding submit
    submit_ok id t ts v vs rising small =
        let (text, joined, types_read, slots) = transform_types-join_str t ts rising small in
        (
          text,
          rw joined (rw (join_str-between b':' (print v) (map print vs)) refl),
          types_read,
          slots,
        )
