-- ===== src/Common/CircularBuffer/History.antt =====
-- What a full `CircularBuffer` holds after any number of pushes.
use stateline.Prelude.{
  ℕ, zero, suc, ◌≡◌, refl, sym, ap, ◌∙◌, List, [], ◌∷◌, ◌++◌, append_assoc, append-nil, foldl,
  arith, length, length-append, ltb, if◌then◌else◌,
}
use stateline.Common.CircularBuffer.{CircularBuffer, IsFull, push_back, push_back-IsFull}
use stateline.Common.CircularBuffer

module _ {ℓ} {T : Type ℓ} where
  -- The list without its first `n` entries.
  abbrev pub drop : ℕ → List T → List T
  drop zero xs = xs
  drop (suc n) [] = []
  drop (suc n) (x ∷ xs) = drop n xs

  -- One push drops one entry of what was pushed onto.
  push_back-drop :
      (b : CircularBuffer T) (v : T)
      → IsFull b
      → (push_back b v).buffer ≡ drop 1 (b.buffer ++ v ∷ [])
  unfolding push_back CircularBuffer.pop_front
  push_back-drop b v full = drops b.buffer full
    where
      drops :
          (xs : List T)
          → length xs ≡ b.capacity
          → (if ltb b.capacity (length (xs ++ v ∷ []))
              then CircularBuffer.pop_front (xs ++ v ∷ [])
              else xs ++ v ∷ [])
            ≡ drop 1 (xs ++ v ∷ [])
      drops [] e = ground arith
      drops (x ∷ xs) e = ground (arith, length-append xs (v ∷ []))

  -- After the values `vs` were pushed, a full buffer is full, and holds the last ones of its entries
  -- followed by `vs`, in order: as many entries are dropped from the front as there are values.
  pub push_back-last :
      (vs : List T) (b : CircularBuffer T)
      → IsFull b
      → IsFull (foldl push_back b vs)
        × ((foldl push_back b vs).buffer ≡ drop (length vs) (b.buffer ++ vs))
  push_back-last [] b full = (full, sym (append-nil b.buffer))
  push_back-last (v ∷ vs) b full =
      let (full', e) = push_back-last vs (push_back b v) (push_back-IsFull b v full) in
      (full', e ∙ rw (push_back-drop b v full) (shift b.buffer))
    where
      shift :
          (xs : List T)
          → drop (length vs) (drop 1 (xs ++ v ∷ []) ++ vs) ≡ drop (suc (length vs)) (xs ++ v ∷ vs)
      shift [] = refl
      shift (x ∷ xs) = ap (drop (length vs)) (append_assoc xs (v ∷ []) vs)
