-- ===== src/Infer/ChainArray/Flushing.antt =====
-- `flushToDisk` does not fault, and moves states from memory to disk without losing any.
use stateline.Prelude.{
  ℕ, ◌*◌, ◌/◌, ◌<◌, ◌≡◌, refl, sym, ap, ◌∙◌, true, false, List, [], ◌∷◌, ◌++◌, append_assoc, arith,
  length, ◌==◌, ok, Bool-cases, inl, inr, ==_iff, ==_refl,
}
use stateline.Std.Vector.{at, back, all_but_last, at_ok, all_but_last-back}
use stateline.Infer.Doubles.{Doubles}
use stateline.Infer.ChainArray.State.{ChainArray, State, chain_index, chain_length, last_state}
use stateline.Infer.ChainArray.Storage.{flush_to_disk}
use stateline.Infer.ChainArray.Ids.{cold_unique}
use stateline.Infer.ChainArray.Views.{id_in_files, IsShaped, Flushed, recorded, flush_cached_ok}

module _ {F : Doubles} where
  -- Nothing that a reader of the chains sees has changed: the last states, the lengths, and all
  -- states recorded for the cold chains.
  pub record SameRecord (c c' : ChainArray F) : Type 0 where
    pub shaped : IsShaped c'
    pub nstacks_same : c'.nstacks ≡ c.nstacks
    pub ntemps_same : c'.ntemps ≡ c.ntemps
    pub last_same : (j : ℕ) → last_state j c' ≡ last_state j c
    pub length_same : (j : ℕ) → chain_length j c' ≡ chain_length j c
    pub recorded_same : (j : ℕ) → chain_index c.ntemps j ≡ 0 → recorded j c' ≡ recorded j c

  Flushed-last_state :
      (id disk : ℕ) (cached : List (State F)) (recent : State F) (c c' : ChainArray F) (j : ℕ)
      → at c.cache id ≡ ok cached
      → back cached ≡ ok recent
      → Flushed id disk cached recent c c'
      → last_state j c' ≡ last_state j c
  unfolding last_state back
  Flushed-last_state id disk cached recent c c' j e b f = elim (Bool-cases (id == j)) [
    | inl same ↦
        let here : id ≡ j = (==_iff id j).0 same in
        rw (f.cache_at j) (rw same (rw (← here) (rw e (sym b))))
    | inr other ↦ rw (f.cache_at j) (rw other)
  ]

  Flushed-chain_length :
      (id disk : ℕ) (cached : List (State F)) (recent : State F) (c c' : ChainArray F) (j : ℕ)
      → at c.cache id ≡ ok cached
      → 0 < length cached
      → at c.length_on_disk id ≡ ok disk
      → Flushed id disk cached recent c c'
      → chain_length j c' ≡ chain_length j c
  unfolding chain_length
  Flushed-chain_length id disk cached recent c c' j e some_cached d f =
      elim (Bool-cases (id == j)) [
        | inl same ↦
            let here : id ≡ j = (==_iff id j).0 same in
            rw (f.disk_at j) (
              rw same
                (rw (f.cache_at j) (rw same (rw (← here) (rw d (rw e (ap ok (omega arith))))))))
        | inr other ↦ rw (f.disk_at j) (rw other (rw (f.cache_at j) (rw other)))
      ]

  -- The chain's own record: what left the memory is in the file.
  recorded_here :
      (id disk : ℕ) (cached file : List (State F)) (recent : State F) (c c' : ChainArray F)
      → at c.cache id ≡ ok cached
      → back cached ≡ ok recent
      → at c.files (id / c.ntemps) ≡ ok file
      → Flushed id disk cached recent c c'
      → (chain_index c.ntemps id == 0) ≡ true
      → recorded id c' ≡ recorded id c
  unfolding recorded
  recorded_here id disk cached file recent c c' e b g f cold =
      let joined : (file ++ all_but_last cached) ++ (recent ∷ []) ≡ file ++ cached =
        append_assoc file (all_but_last cached) (recent ∷ [])
        ∙ ap (λ l. file ++ l) (all_but_last-back cached recent b) in
      rw f.ntemps_same (
        rw (f.files_cold file cold g)
          (rw (f.cache_at id) (rw (==_refl id) (rw g (rw e (ap ok joined))))))

  -- The record of another cold chain: neither its file nor its cache is touched.
  recorded_elsewhere :
      (id disk : ℕ) (cached : List (State F)) (recent : State F) (c c' : ChainArray F) (j : ℕ)
      → Flushed id disk cached recent c c'
      → (id == j) ≡ false
      → at c'.files (j / c.ntemps) ≡ at c.files (j / c.ntemps)
      → recorded j c' ≡ recorded j c
  unfolding recorded
  recorded_elsewhere id disk cached recent c c' j f other same_file =
      rw f.ntemps_same (rw same_file (rw (f.cache_at j) (rw other)))

  -- A cold chain keeps its file when another chain is flushed.
  file_kept :
      (id disk : ℕ) (cached : List (State F)) (recent : State F) (c c' : ChainArray F) (j : ℕ)
      → Flushed id disk cached recent c c'
      → chain_index c.ntemps j ≡ 0
      → (id == j) ≡ false
      → at c'.files (j / c.ntemps) ≡ at c.files (j / c.ntemps)
  file_kept id disk cached recent c c' j f cold other =
      elim (Bool-cases (chain_index c.ntemps id == 0)) [
        | inr is_warm ↦ f.files_warm (j / c.ntemps) is_warm
        | inl is_cold ↦ elim (Bool-cases (id / c.ntemps == j / c.ntemps)) [
          | inr apart ↦ f.files_other (j / c.ntemps) apart
          | inl same_stack ↦
              let same : id ≡ j =
                cold_unique c.ntemps id j ((==_iff (chain_index c.ntemps id) 0).0 is_cold) cold
                  ((==_iff (id / c.ntemps) (j / c.ntemps)).0 same_stack) in
              let again : (id == j) ≡ true = (==_iff id j).1 same in cc
        ]
      ]

  Flushed-recorded :
      (id disk : ℕ) (cached : List (State F)) (recent : State F) (c c' : ChainArray F) (j : ℕ)
      → IsShaped c
      → id < c.nstacks * c.ntemps
      → at c.cache id ≡ ok cached
      → back cached ≡ ok recent
      → Flushed id disk cached recent c c'
      → chain_index c.ntemps j ≡ 0
      → recorded j c' ≡ recorded j c
  Flushed-recorded id disk cached recent c c' j h inside e b f cold = elim (Bool-cases (id == j)) [
    | inl same ↦
        let here : id ≡ j = (==_iff id j).0 same in
        let (file, g) = at_ok c.files (id / c.ntemps) (id_in_files id c h inside) in
        let at_zero : (chain_index c.ntemps id == 0) ≡ true =
          (==_iff (chain_index c.ntemps id) 0).1 (ap (chain_index c.ntemps) here ∙ cold) in
        let own = recorded_here id disk cached file recent c c' e b g f at_zero in
        ap (λ i. recorded i c') (sym here) ∙ own ∙ ap (λ i. recorded i c) here
    | inr other ↦
        recorded_elsewhere id disk cached recent c c' j f other
          (file_kept id disk cached recent c c' j f cold other)
  ]

  SameRecord-of_Flushed :
      (id disk : ℕ) (cached : List (State F)) (recent : State F) (c c' : ChainArray F)
      → IsShaped c
      → id < c.nstacks * c.ntemps
      → at c.cache id ≡ ok cached
      → 0 < length cached
      → at c.length_on_disk id ≡ ok disk
      → back cached ≡ ok recent
      → Flushed id disk cached recent c c'
      → SameRecord c c'
  SameRecord-of_Flushed id disk cached recent c c' h inside e some_cached d b f = record {
    shaped = f.shaped;
    nstacks_same = f.nstacks_same;
    ntemps_same = f.ntemps_same;
    last_same = λ j. Flushed-last_state id disk cached recent c c' j e b f;
    length_same = λ j. Flushed-chain_length id disk cached recent c c' j e some_cached d f;
    recorded_same = λ j cold. Flushed-recorded id disk cached recent c c' j h inside e b f cold;
  }

  -- Flushing any chain of a well-shaped array succeeds, and leaves a well-shaped array with the
  -- same last state and the same length for each chain, and with the same sequence of recorded
  -- states, those of the file before those of the cache, for each coldest chain of a stack.
  pub flush_to_disk_ok :
      (id : ℕ) (c : ChainArray F)
      → IsShaped c
      → id < c.nstacks * c.ntemps
      → (c' : ChainArray F) × (flush_to_disk id c ≡ ok c') × SameRecord c c'
  unfolding flush_to_disk
  flush_to_disk_ok id c h inside =
      let (cached, e) = at_ok c.cache id (rw h.cache_length inside) in flush_with cached e
    where
      unchanged : SameRecord c c
      unchanged = record {
        shaped = h;
        nstacks_same = refl;
        ntemps_same = refl;
        last_same = λ j. refl;
        length_same = λ j. refl;
        recorded_same = λ j cold. refl;
      }

      flush_with :
          (cached : List (State F))
          → at c.cache id ≡ ok cached
          → (c' : ChainArray F) × (flush_to_disk id c ≡ ok c') × SameRecord c c'
      flush_with [] e = (c, rw e, unchanged)
      flush_with (x ∷ xs) e =
          let (disk, recent, c', d, b, run, f) =
            flush_cached_ok id (x ∷ xs) c h inside (omega arith) in
          (
            c',
            rw e run,
            SameRecord-of_Flushed id disk (x ∷ xs) recent c c' h inside e (omega arith) d b f,
          )
