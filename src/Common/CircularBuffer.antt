-- ===== src/Common/CircularBuffer.antt =====
-- common/circularbuffer.hpp. The deque of the buffer is the list of its entries, oldest first.
pub mod History
use stateline.Prelude.{
  ℕ, ◌≡◌, refl, List, [], ◌∷◌, ◌++◌, arith, length, replicate, length-append, length-replicate, ltb,
  if◌then◌else◌,
}

pub record CircularBuffer {ℓ} (T : Type ℓ) : Type ℓ where
  pub buffer : List T
  pub capacity : ℕ

module _ {ℓ} {T : Type ℓ} where
  -- `buffer_(size)` fills the deque with `size` values, all `zero_value`.
  unfoldable pub create : T → ℕ → CircularBuffer T
  create zero_value n = record { buffer = replicate n zero_value; capacity = n }

  pop_front : List T → List T
  pop_front [] = []
  pop_front (x ∷ xs) = xs

  unfoldable pub push_back : CircularBuffer T → T → CircularBuffer T
  unfolding pop_front
  push_back b v =
      let pushed = b.buffer ++ v ∷ [] in
      record b { buffer = if ltb b.capacity (length pushed) then pop_front pushed else pushed }

  -- `size()` is the capacity, whatever was pushed.
  unfoldable pub size : CircularBuffer T → ℕ
  size b = b.capacity

  -- The buffer is always full.
  abbrev pub IsFull : CircularBuffer T → Type 0
  IsFull b = length b.buffer ≡ b.capacity

  pub create-IsFull : (v : T) (n : ℕ) → IsFull (create v n)
  unfolding create
  create-IsFull v n = length-replicate n v

  pub push_back-IsFull : (b : CircularBuffer T) (v : T) → IsFull b → IsFull (push_back b v)
  unfolding push_back
  push_back-IsFull b v full = kept b.buffer full
    where
      kept :
          (xs : List T)
          → length xs ≡ b.capacity
          → length (
              if ltb b.capacity (length (xs ++ v ∷ []))
              then pop_front (xs ++ v ∷ [])
              else xs ++ v ∷ [])
            ≡ b.capacity
      kept [] e = ground arith
      kept (x ∷ xs) e = ground (arith, length-append xs (v ∷ []))

  pub capacity-push_back : (b : CircularBuffer T) (v : T) → (push_back b v).capacity ≡ b.capacity
  unfolding push_back
  capacity-push_back b v = refl
