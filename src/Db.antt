-- ===== src/Db.antt =====
-- db/db.cpp: the text of the states in the files of the chains. `print` is how a stream prints a
-- `double`.
pub mod Rows
pub mod Files
mod Tests
use stateline.Prelude.{
  ℕ, zero, suc, Bool, true, false, List, [], ◌∷◌, ◌++◌, length, ltb, Result, ok, ◌>>=◌, ◌>>◌, guard,
  assertion_failed,
}
use stateline.Std.Key.{Str}
use stateline.Std.Decimal.{to_string}
use stateline.Std.Vector.{at, put}
use stateline.Infer.Doubles.{Doubles}
use stateline.Infer.ChainArray.State.{State, SwapType, no_attempt, accept, reject}

-- `(int)s.swapType`.
abbrev pub swap_code : SwapType → ℕ
swap_code no_attempt = 0
swap_code accept = 1
swap_code reject = 2

-- A `bool` as a stream prints it.
abbrev pub bool_code : Bool → ℕ
bool_code true = 1
bool_code false = 0

module _ (F : Doubles) (print : F.Real → Str) where
  -- `n` numbers of a sample from the `i`-th on, each with a comma behind it.
  unfoldable pub sample_text : (n i : ℕ) → F.Vector → Str
  sample_text zero i v = []
  sample_text (suc n) i v = print (F.coeff v i) ++ b',' ∷ sample_text n (suc i) v

  -- `operator<<` of a state.
  unfoldable pub state_text : State F → Str
  unfolding sample_text
  state_text s =
      sample_text (F.size s.sample) 0 s.sample
      ++ (print s.energy
          ++ b','
            ∷ (print s.sigma
                ++ b','
                  ∷ (print s.beta
                      ++ b','
                        ∷ (to_string (bool_code s.accepted)
                            ++ b',' ∷ to_string (swap_code s.swap_type)))))

  -- The loop of `append`.
  unfoldable pub write_lines : Str → List (State F) → Str
  unfolding state_text
  write_lines file [] = file
  write_lines file (s ∷ ss) = write_lines (file ++ (state_text s ++ b'\n' ∷ [])) ss

  -- `append`, on the texts of the files.
  unfoldable pub append : ℕ → List (State F) → List Str → Result (List Str)
  unfolding write_lines
  append id states files = do
    guard (ltb id (length files)) assertion_failed
    file ← at files id
    put files id (write_lines file states)
