-- ===== src/Comms/Requester.antt =====
-- comms/requester.hpp and comms/requester.cpp: the messages of a client of the delegator.
-- `std::stod` and `std::to_string` of a `double` are parameters.
pub mod Batches
pub mod TypeSets
pub mod Types
use stateline.Prelude.{
  ℕ, List, [], ◌∷◌, map, wrap, Option, none, some, get_elem?, or_fault, undefined_behaviour, Result,
  ok, ◌>>=◌,
}
use stateline.Std.Key.{Str}
use stateline.Std.Decimal.{to_string, stoul}
use stateline.Common.Text.{join_str}
use stateline.Comms.Messages.{Message, request}
use stateline.Comms.Delegator.State.{frame}
use stateline.Comms.Minion.{read_sample}

module _ {Real : Type 0} where
  -- The message that `submit` sends.
  unfoldable pub submit :
      (print : Real → Str) (id : ℕ) (job_types : List ℕ) (values : List Real) → Result Message
  submit print id job_types values = do
    types_text ← join_str (map (λ t. to_string t) job_types) (b':' ∷ [])
    values_text ← join_str (map print values) (b':' ∷ [])
    ok (record {
      address = to_string id ∷ [];
      subject = request;
      frames = types_text ∷ values_text ∷ [];
    })

  -- `retrieve` on the message that it receives.
  unfoldable pub retrieve : (stod : Str → Result Real) → Message → Result (ℕ × List Real)
  unfolding frame read_sample
  retrieve stod r = do
    text ← frame r.address 0
    id ← stoul text
    results ← read_sample stod r.frames
    ok (wrap id, results)
