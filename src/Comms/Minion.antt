-- ===== src/Comms/Minion.antt =====
-- comms/minion.hpp and comms/minion.cpp: the likelihood side of a worker. `std::stod` and
-- `std::to_string` of a `double` are parameters. The messages that it sends are results of its
-- functions, those that it receives are arguments.
pub mod Exchange
use stateline.Prelude.{ℕ, List, [], ◌∷◌, ◌++◌, to_uint, Result, ok, ◌>>=◌}
use stateline.Std.Key.{Str}
use stateline.Std.Decimal.{to_string, stoi}
use stateline.Common.Text.{split_vector}
use stateline.Comms.Messages.{Message, hello, result}
use stateline.Comms.Delegator.State.{frame}

pub record Minion : Type 0 where
  pub current_job : Str

-- What the constructors send: no range of job types, or a range.
abbrev pub hello_any : Message
hello_any = record { address = []; subject = hello; frames = [] ∷ [] }

unfoldable pub range_text : ℕ × ℕ → Str
range_text (first, second) = to_string first ++ b':' ∷ to_string second

unfoldable pub hello_range : ℕ × ℕ → Message
unfolding range_text
hello_range range = record { address = []; subject = hello; frames = range_text range ∷ [] }

module _ {Real : Type 0} where
  unfoldable pub read_sample : (stod : Str → Result Real) → List Str → Result (List Real)
  read_sample stod [] = ok []
  read_sample stod (t ∷ ts) = do x ← stod t; xs ← read_sample stod ts; ok (x ∷ xs)

  -- `nextJob` on the message that it receives.
  unfoldable pub next_job :
      (stod : Str → Result Real) → Message → Minion → Result ((ℕ × List Real) × Minion)
  unfolding read_sample frame
  next_job stod r m = do
    current ← frame r.frames 1
    text ← frame r.frames 2
    sample ← read_sample stod (split_vector text b':')
    type_text ← frame r.frames 0
    type ← stoi type_text
    ok ((to_uint type, sample), record { current_job = current })

  -- The message that `submitResult` sends.
  unfoldable pub submit_result : (print : Real → Str) → Real → Minion → Message
  submit_result print x m = record {
    address = [];
    subject = result;
    frames = m.current_job ∷ print x ∷ [];
  }
