-- ===== src/Db/Tests.antt =====
-- Two files of states whose numbers are natural numbers.
use stateline.Prelude.{ℕ, ◌≡◌, refl, true, List, [], ◌∷◌, map, arith, ok}
use stateline.Std.Key.{Str}
use stateline.Std.Decimal.{to_string}
use stateline.Std.Decimal.RoundTrip.{to_string_no_low}
use stateline.Comms.Messages.{bytes}
use stateline.Std.Vector.{at, put}
use stateline.Infer.Numbers.{numbers}
use stateline.Infer.ChainArray.State.{State, reject}
use stateline.Infer.ChainArray.Storage.{write_states}
use stateline.Db.{append, state_text}
use stateline.Db.Rows.{rows, fields}
use stateline.Db.Files.{file_text, append-rows}

abbrev print_number : ℕ → Str
print_number n = to_string n

abbrev point : ℕ → State numbers
point n = record {
  sample = n ∷ 7 ∷ [];
  energy = n;
  sigma = 1;
  beta = 1;
  accepted = true;
  swap_type = reject;
}

abbrev before : List (List (State numbers))
before = (point 1 ∷ []) ∷ (point 2 ∷ []) ∷ []

abbrev after : List (List (State numbers))
after = (point 1 ∷ []) ∷ (point 2 ∷ point 3 ∷ point 14 ∷ []) ∷ []

line_of_state : state_text numbers print_number (point 14) ≡ bytes "14,7,14,1,1,1,2"
unfolding state_text to_string
line_of_state = refl

writes : write_states 1 (point 3 ∷ point 14 ∷ []) before ≡ ok after
unfolding write_states at put
writes = refl

append-rows_example :
    (append numbers print_number 1
        (point 3 ∷ point 14 ∷ [])
        (map (file_text numbers print_number) before)
      ≡ ok (map (file_text numbers print_number) after))
    × (map rows (map (file_text numbers print_number) after)
        ≡ map (map (fields numbers print_number)) after)
append-rows_example =
    append-rows numbers print_number 1 (point 3 ∷ point 14 ∷ []) before after
      (λ n. to_string_no_low b',' n (omega arith)) (λ n. to_string_no_low b'\n' n (omega arith))
      writes
