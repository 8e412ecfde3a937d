-- ===== src/Db/Rows.antt =====
-- What the files of the chains hold, line by line and field by field.
use stateline.Prelude.{
  ℕ, zero, suc, ◌<◌, ◌≡◌, refl, sym, ap, ◌∙◌, false, List, [], ◌∷◌, ◌++◌, append_assoc, append-nil,
  arith, map, ◌==◌, All, All-append,
}
use stateline.Std.Key.{Str}
use stateline.Std.Decimal.{to_string}
use stateline.Std.Decimal.RoundTrip.{to_string_no_low, to_string-ne-nil}
use stateline.Common.Text.{split_vector}
use stateline.Common.Text.RoundTrip.{
  Without, EndsFull, between, ended, foldl-snoc, split_str-between, split_str-ended,
}
use stateline.Infer.Doubles.{Doubles}
use stateline.Infer.ChainArray.State.{State}
use stateline.Db.{swap_code, bool_code, sample_text, state_text, write_lines}

-- Fields with a comma between them.
abbrev commas : List Str → Str
commas [] = []
commas (v ∷ vs) = between b',' v vs

abbrev Ends : List Str → Type 0
Ends [] = ⊥
Ends (v ∷ vs) = EndsFull v vs

-- A text of a file, as rows of fields.
abbrev pub rows : Str → List (List Str)
rows text = map (λ (line : Str). split_vector line b',') (split_vector text b'\n')

split-commas :
    (fs : List Str) → All (Without b',') fs → Ends fs → split_vector (commas fs) b',' ≡ fs
unfolding split_vector
split-commas [] h e = absurd e
split-commas (f ∷ fs) h e =
    split_str-between (λ out s. out ++ s ∷ []) [] b',' f fs h e ∙ foldl-snoc [] (f ∷ fs)

split-ended : (d : ℕ) (ls : List Str) → All (Without d) ls → split_vector (ended d ls) d ≡ ls
unfolding split_vector
split-ended d ls h = split_str-ended (λ out s. out ++ s ∷ []) [] d ls h ∙ foldl-snoc [] ls

between-Without :
    (d : ℕ) (f : Str) (fs : List Str)
    → (b',' == d) ≡ false
    → All (Without d) (f ∷ fs)
    → Without d (between b',' f fs)
between-Without d f [] ne h = h.0
between-Without d f (g ∷ fs) ne h =
    All-append (λ c. (c == d) ≡ false) f _ h.0 (ne, between-Without d g fs ne h.1)

module _ (F : Doubles) (print : F.Real → Str) where
  abbrev samples : (n i : ℕ) → F.Vector → List Str
  samples zero i v = []
  samples (suc n) i v = print (F.coeff v i) ∷ samples n (suc i) v

  -- The fields of a state: its sample, energy, step size and inverse temperature, whether it was
  -- accepted, and the type of its swap.
  abbrev pub fields : State F → List Str
  fields s =
      samples (F.size s.sample) 0 s.sample
      ++ print s.energy
        ∷ print s.sigma
        ∷ print s.beta
        ∷ to_string (bool_code s.accepted)
        ∷ to_string (swap_code s.swap_type)
        ∷ []

  sample_text-commas :
      (n i : ℕ) (v : F.Vector) (a : Str) (rest : List Str)
      → sample_text F print n i v ++ between b',' a rest ≡ commas (samples n i v ++ a ∷ rest)
  unfolding sample_text
  sample_text-commas zero i v a rest = refl
  sample_text-commas (suc zero) i v a rest = append_assoc (print (F.coeff v i)) (b',' ∷ []) _
  sample_text-commas (suc (suc n)) i v a rest =
      append_assoc (print (F.coeff v i)) (b',' ∷ sample_text F print (suc n) (suc i) v) _
      ∙ ap (λ x. print (F.coeff v i) ++ b',' ∷ x) (sample_text-commas (suc n) (suc i) v a rest)

  samples-Ends :
      (n i : ℕ) (v : F.Vector) (a : Str) (rest : List Str)
      → EndsFull a rest
      → Ends (samples n i v ++ a ∷ rest)
  samples-Ends zero i v a rest e = e
  samples-Ends (suc zero) i v a rest e = e
  samples-Ends (suc (suc n)) i v a rest e = samples-Ends (suc n) (suc i) v a rest e

  state_text-commas : (s : State F) → state_text F print s ≡ commas (fields s)
  unfolding state_text
  state_text-commas s = sample_text-commas (F.size s.sample) 0 s.sample (print s.energy) _

  module _ (d : ℕ) (low : d < b'0') (plain : (x : F.Real) → Without d (print x)) where
    samples-Without : (n i : ℕ) (v : F.Vector) → All (Without d) (samples n i v)
    samples-Without zero i v = tt
    samples-Without (suc n) i v = (plain (F.coeff v i), samples-Without n (suc i) v)

    fields-Without : (s : State F) → All (Without d) (fields s)
    fields-Without s =
        All-append (Without d) (samples (F.size s.sample) 0 s.sample) _
          (samples-Without (F.size s.sample) 0 s.sample)
          (
            plain s.energy,
            (
              plain s.sigma,
              (
                plain s.beta,
                (
                  to_string_no_low d (bool_code s.accepted) low,
                  (to_string_no_low d (swap_code s.swap_type) low, tt),
                ),
              ),
            ),
          )

    commas-Without :
        (b',' == d) ≡ false → (fs : List Str) → All (Without d) fs → Ends fs → Without d (commas fs)
    commas-Without ne [] h e = absurd e
    commas-Without ne (f ∷ fs) h e = between-Without d f fs ne h

  fields-Ends : (s : State F) → Ends (fields s)
  fields-Ends s =
      samples-Ends (F.size s.sample) 0 s.sample (print s.energy) _
        (to_string-ne-nil (swap_code s.swap_type))

  lines : List (State F) → List Str
  lines = map (λ (s : State F). state_text F print s)

  write_lines-ended :
      (file : Str) (ss : List (State F))
      → write_lines F print file ss ≡ file ++ ended b'\n' (lines ss)
  unfolding write_lines lines
  write_lines-ended file [] = sym (append-nil file)
  write_lines-ended file (s ∷ ss) =
      write_lines-ended (file ++ (state_text F print s ++ b'\n' ∷ [])) ss
      ∙ append_assoc file (state_text F print s ++ b'\n' ∷ []) (ended b'\n' (lines ss))
      ∙ ap (λ x. file ++ x)
          (append_assoc (state_text F print s) (b'\n' ∷ []) (ended b'\n' (lines ss)))

  module _ (no_comma : (x : F.Real) → Without b',' (print x))
      (no_newline : (x : F.Real) → Without b'\n' (print x)) where
    lines-Without : (ss : List (State F)) → All (Without b'\n') (lines ss)
    unfolding lines
    lines-Without [] = tt
    lines-Without (s ∷ ss) = (
      rw (state_text-commas s) (
          commas-Without b'\n' (omega arith) no_newline refl (fields s)
            (fields-Without b'\n' (omega arith) no_newline s) (fields-Ends s)),
      lines-Without ss,
    )

    rows-lines :
        (ss : List (State F))
        → map (λ (line : Str). split_vector line b',') (lines ss) ≡ map fields ss
    unfolding lines
    rows-lines [] = refl
    rows-lines (s ∷ ss) =
        let here : split_vector (state_text F print s) b',' ≡ fields s =
          ap (λ x. split_vector x b',') (state_text-commas s)
          ∙ split-commas (fields s) (fields-Without b',' (omega arith) no_comma s)
              (fields-Ends s) in
        rw (here, rows-lines ss)

    -- The text of a file has the fields of each state that was written to it.
    pub rows-write_lines : (ss : List (State F)) → rows (write_lines F print [] ss) ≡ map fields ss
    rows-write_lines ss =
        ap rows (write_lines-ended [] ss)
        ∙ ap (map (λ (line : Str). split_vector line b','))
            (split-ended b'\n' (lines ss) (lines-Without ss))
        ∙ rows-lines ss

  pub write_lines-append :
      (file : Str) (xs ys : List (State F))
      → write_lines F print (write_lines F print file xs) ys ≡ write_lines F print file (xs ++ ys)
  unfolding write_lines
  write_lines-append file [] ys = refl
  write_lines-append file (x ∷ xs) ys =
      write_lines-append (file ++ (state_text F print x ++ b'\n' ∷ [])) xs ys
