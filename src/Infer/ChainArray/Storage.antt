-- ===== src/Infer/ChainArray/Storage.antt =====
-- infer/chainarray.cpp and db/db.cpp: moving the cached states of a chain to its file.
use stateline.Prelude.{
  ℕ, zero, suc, ◌+◌, ◌-◌, ◌*◌, ◌/◌, List, [], ◌∷◌, ◌++◌, length, ltb, leb, ◌==◌, if◌then◌else◌,
  uint_mod, wrap, elapsed, Result, ok, ◌>>=◌, ◌>>◌, guard, assertion_failed,
}
use stateline.Std.Vector.{at, put, back, all_but_last}
use stateline.Infer.Doubles.{Doubles}
use stateline.Infer.ChainArray.State.{ChainArray, State, chain_index}

abbrev pub flush_time : ℕ
flush_time = 10

module _ {F : Doubles} where
  open F use {Real, Vector, zero_real, minus_one, sub, mul, exp, less, is_inf}

  -- `CSVChainArrayWriter::append`.
  unfoldable pub write_states :
      ℕ → List (State F) → List (List (State F)) → Result (List (List (State F)))
  write_states id states files = do
    guard (ltb id (length files)) assertion_failed
    file ← at files id
    put files id (file ++ states)

  -- What `flushToDisk` writes: the chains of the lowest temperature only.
  unfoldable pub write_cold : ℕ → List (State F) → ChainArray F → Result (List (List (State F)))
  unfolding write_states chain_index
  write_cold id cached c =
      if chain_index c.ntemps id == 0
      then write_states (id / c.ntemps) (all_but_last cached) c.files
      else ok c.files

  -- `flushToDisk` for a cache that is not empty.
  unfoldable pub flush_cached : ℕ → List (State F) → ChainArray F → Result (ChainArray F)
  unfolding write_cold
  flush_cached id cached c = do
    disk ← at c.length_on_disk id
    files ← write_cold id cached c
    length_on_disk ← put c.length_on_disk id (wrap (disk + length cached + (uint_mod - 1)))
    recent ← back cached
    cache ← put c.cache id (recent ∷ [])
    ok (record c { files = files; length_on_disk = length_on_disk; cache = cache })

  unfoldable pub flush_to_disk : ℕ → ChainArray F → Result (ChainArray F)
  unfolding flush_cached
  flush_to_disk id c = do
    cached ← at c.cache id
    elim cached [ [] ↦ ok c | x ∷ xs ↦ flush_cached id (x ∷ xs) c ]

  -- The loops over all chains, of `append`, of the destructor and of `Sampler::flush`.
  unfoldable pub flush_from : (n id : ℕ) → ChainArray F → Result (ChainArray F)
  unfolding flush_to_disk
  flush_from zero id c = ok c
  flush_from (suc n) id c = flush_to_disk id c >>= flush_from n (suc id)

  -- The end of `append`: every so often all chains are flushed.
  unfoldable pub flush_if_due : ℕ → ChainArray F → Result (ChainArray F)
  unfolding flush_from
  flush_if_due now c =
      if leb flush_time (elapsed 1000000000 c.last_flush_time now)
      then flush_from (wrap (c.nstacks * c.ntemps)) 0 (record c { last_flush_time = now })
      else ok c
