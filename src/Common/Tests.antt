-- ===== src/Common/Tests.antt =====
-- The theorems on the helpers at small inputs.
use stateline.Prelude.{ℕ, ◌≡◌, ◌>>=◌, refl, List, [], ◌∷◌, ◌++◌, foldl, ok}
use stateline.Std.Key.{Str}
use stateline.Comms.Messages.{bytes}
use stateline.Common.CircularBuffer
use stateline.Common.CircularBuffer.{CircularBuffer, IsFull, push_back, create-IsFull}
use stateline.Common.Text.{join_str, split_str}
use stateline.Common.Text.RoundTrip.{split_str-join_str}

abbrev three : CircularBuffer ℕ
three = CircularBuffer.create 0 3

abbrev append_segment : List Str → Str → List Str
append_segment out v = out ++ v ∷ []

split_str-join_str_example :
    (join_str (bytes "a" ∷ bytes "" ∷ bytes "bc" ∷ []) (b':' ∷ []) >>= λ s.
    ok (split_str append_segment [] s b':'))
    ≡ ok (foldl append_segment [] (bytes "a" ∷ bytes "" ∷ bytes "bc" ∷ []))
split_str-join_str_example =
    split_str-join_str append_segment [] b':' (bytes "a") (bytes "" ∷ bytes "bc" ∷ [])
      ((refl, tt), (tt, ((refl, (refl, tt)), tt))) (λ e. cc)
