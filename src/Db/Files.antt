-- ===== src/Db/Files.antt =====
-- `append` on the texts of the files and on the states that they hold.
use stateline.Prelude.{
  ℕ, zero, suc, ◌≡◌, refl, ap, List, [], ◌∷◌, ◌++◌, arith, length, map, set, ltb, ok, guard,
  assertion_failed, >>=-eq-ok,
}
use stateline.Std.Key.{Str}
use stateline.Std.Vector.{at, put}
use stateline.Common.Text.RoundTrip.{Without}
use stateline.Infer.Doubles.{Doubles}
use stateline.Infer.ChainArray.State.{State}
use stateline.Infer.ChainArray.Storage.{write_states}
use stateline.Db.{write_lines, append}
use stateline.Db.Rows.{rows, fields, rows-write_lines, write_lines-append}

module _ {A B : Type 0} (f : A → B) where
  length-map : (xs : List A) → length (map f xs) ≡ length xs
  length-map [] = refl
  length-map (x ∷ xs) = ap suc (length-map xs)

  map-set : (xs : List A) (i : ℕ) (a : A) → map f (set xs i a) ≡ set (map f xs) i (f a)
  map-set [] i a = refl
  map-set (x ∷ xs) zero a = refl
  map-set (x ∷ xs) (suc i) a = ap (◌∷◌ (f x)) (map-set xs i a)

  at-map : (xs : List A) (i : ℕ) (a : A) → at xs i ≡ ok a → at (map f xs) i ≡ ok (f a)
  unfolding at
  at-map [] i a e = absurd (ground (arith, e))
  at-map (x ∷ xs) zero a e = ground (arith, e)
  at-map (x ∷ xs) (suc i) a e = at-map xs i a e

  put-map :
      (xs ys : List A) (i : ℕ) (a : A) → put xs i a ≡ ok ys → put (map f xs) i (f a) ≡ ok (map f ys)
  unfolding put
  put-map xs ys i a e = ground (arith, length-map xs, map-set xs i a, e)

module _ (F : Doubles) (print : F.Real → Str) where
  -- The text of a file with the states.
  abbrev pub file_text : List (State F) → Str
  file_text = write_lines F print []

  pub append-file_text :
      (id : ℕ) (states : List (State F)) (files files' : List (List (State F)))
      → write_states id states files ≡ ok files'
      → append F print id states (map file_text files) ≡ ok (map file_text files')
  unfolding append write_states
  append-file_text id states files files' e =
      let (_, inside, e₁) = >>=-eq-ok (guard (ltb id (length files)) assertion_failed) _ e in
      let (file, found, e₂) = >>=-eq-ok (at files id) _ e₁ in
      rw (length-map file_text files) (
        rw inside (
          rw (at-map file_text files id file found, append)
            (rw (write_lines-append F print [] file states)
              (put-map file_text files files' id (file ++ states) e₂))))

  map-rows :
      ((x : F.Real) → Without b',' (print x))
      → ((x : F.Real) → Without b'\n' (print x))
      → (files : List (List (State F)))
      → map rows (map file_text files) ≡ map (map (fields F print)) files
  map-rows no_comma no_newline [] = refl
  map-rows no_comma no_newline (file ∷ files) =
      rw (rows-write_lines F print no_comma no_newline file, map-rows no_comma no_newline files)

  -- Where `append` on the lists of states writes the states of a chain, `append` on the texts of the
  -- files writes the texts of the same states, and a text split at its newlines and commas has a row
  -- for each state that was written to its file, in order, with the sample, energy, step size and
  -- inverse temperature as they are printed, the acceptance and the type of swap. The printed numbers
  -- hold no comma and no newline.
  pub append-rows :
      (id : ℕ) (states : List (State F)) (files files' : List (List (State F)))
      → ((x : F.Real) → Without b',' (print x))
      → ((x : F.Real) → Without b'\n' (print x))
      → write_states id states files ≡ ok files'
      → (append F print id states (map file_text files) ≡ ok (map file_text files'))
        × (map rows (map file_text files') ≡ map (map (fields F print)) files')
  append-rows id states files files' no_comma no_newline e =
      (append-file_text id states files files' e, map-rows no_comma no_newline files')
