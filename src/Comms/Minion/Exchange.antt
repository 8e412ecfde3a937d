-- ===== src/Comms/Minion/Exchange.antt =====
-- What a minion and the delegator understand of each other's messages.
use stateline.Prelude.{
  ℕ, ◌≤◌, ◌≡◌, refl, false, List, [], ◌∷◌, ◌++◌, arith, int_max, wrap, Result, ok,
}
use stateline.Std.Key.{Str, str_key, str_eq}
use stateline.Std.Decimal.{to_string}
use stateline.Std.Decimal.RoundTrip.{stoi-to_string, to_string_no_colon, to_string-ne-nil}
use stateline.Common.Text.{split_vector}
use stateline.Common.Text.RoundTrip.{split_str-between}
use stateline.Comms.Messages.{result}
use stateline.Comms.Delegator.State.{Job, Worker, frame}
use stateline.Comms.Delegator.Handlers.{parse_range}
use stateline.Comms.Delegator.Polling.{job_message}
use stateline.Comms.Minion.{Minion, range_text, read_sample, next_job, submit_result}

range_parts : (a b : ℕ) → split_vector (range_text (a, b)) b':' ≡ to_string a ∷ to_string b ∷ []
unfolding split_vector range_text
range_parts a b =
    split_str-between (λ out s. out ++ s ∷ []) [] b':' (to_string a) (to_string b ∷ [])
      (to_string_no_colon a, (to_string_no_colon b, tt)) (to_string-ne-nil b)

str_eq-filled : (s : Str) (c : ℕ) (t : Str) → str_eq (s ++ c ∷ t) [] ≡ false
str_eq-filled [] c t = refl
str_eq-filled (d ∷ s) c t = refl

range_text-filled : (a b : ℕ) → str_eq (range_text (a, b)) [] ≡ false
unfolding range_text
range_text-filled a b = str_eq-filled (to_string a) b':' (to_string b)

-- The range that a minion writes into its HELLO is the range that the delegator reads there, if both
-- of its bounds are at most 2 ^ 31 - 1, the greatest number that `stoi` reads.
pub parse_range-range_text :
    (n_job_types a b : ℕ)
    → a ≤ int_max
    → b ≤ int_max
    → parse_range n_job_types (range_text (a, b)) ≡ ok (a, b)
unfolding parse_range frame
parse_range-range_text n a b ha hb =
    let small_a : wrap a ≡ a = omega (arith, ha) in
    let small_b : wrap b ≡ b = omega (arith, hb) in
    rw (range_text-filled a b) (
      rw (range_parts a b)
        (rw (stoi-to_string a ha) (rw (stoi-to_string b hb) (rw small_a (rw small_b)))))

-- For a JOB message of the delegator whose data the minion can read, `nextJob` gives the type of the
-- job and its data, and the message that `submitResult` then sends is a RESULT with the id of the
-- job and the result.
pub submit_result-next_job :
    {Real : Type 0} (stod : Str → Result Real) (print : Real → Str) (w : Worker) (j : Job)
    (content : Str) (sample : List Real) (m : Minion) (x : Real)
    → j.type ≤ int_max
    → read_sample stod (split_vector content b':') ≡ ok sample
    → (m' : Minion) × (next_job stod (job_message w j content) m ≡ ok ((j.type, sample), m'))
      × (submit_result print x m'
          ≡ record { address = []; subject = result; frames = j.id ∷ print x ∷ [] })
unfolding next_job submit_result frame
submit_result-next_job stod print w j content sample m x small e =
    let fits : wrap j.type ≡ j.type = omega (arith, small) in
    (record { current_job = j.id }, rw e (rw (stoi-to_string j.type small) (rw fits)), refl)
