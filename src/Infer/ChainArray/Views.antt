-- ===== src/Infer/ChainArray/Views.antt =====
-- The record of a chain across its file and its cache, and that flushing does not change it.
use native.Mathlib.Nat.{div-lt_iff_lt-mul}
use stateline.Prelude.{
  ℕ, ◌+◌, ◌-◌, ◌*◌, ◌/◌, ◌<◌, ◌≡◌, refl, ◌∙◌, true, false, List, [], ◌∷◌, ◌++◌, length, ◌==◌, set,
  length-set, if◌then◌else◌, uint_mod, wrap, Result, ok, ◌>>=◌, Bool-cases, inl, inr, lt→ltb,
  ==_refl,
}
use stateline.Std.Vector.{at, back, all_but_last, at-put, at_ok, put_ok, back_some}
use stateline.Infer.Doubles.{Doubles}
use stateline.Infer.ChainArray.State.{ChainArray, State, chain_index}
use stateline.Infer.ChainArray.Storage.{write_cold, flush_cached}

module _ {F : Doubles} where
  -- The vectors have an entry for each chain, and there is a file for each stack.
  pub record IsShaped (c : ChainArray F) : Type 0 where
    pub positive : 0 < c.ntemps
    pub small : c.nstacks * c.ntemps < uint_mod
    pub files_length : length c.files ≡ c.nstacks
    pub disk_length : length c.length_on_disk ≡ c.nstacks * c.ntemps
    pub beta_length : length c.betas ≡ c.nstacks * c.ntemps
    pub sigma_length : length c.sigmas ≡ c.nstacks * c.ntemps
    pub cache_length : length c.cache ≡ c.nstacks * c.ntemps

  -- All states recorded for a cold chain: those in its file, then those in memory.
  unfoldable pub recorded : ℕ → ChainArray F → Result (List (State F))
  recorded id c = do file ← at c.files (id / c.ntemps); cached ← at c.cache id; ok (file ++ cached)

  -- What `flushToDisk` does to a chain with `cached` in memory: its last state alone stays there,
  -- the length on disk grows by the rest, and the rest goes to the file if the chain is cold.
  pub record Flushed (id disk : ℕ) (cached : List (State F)) (recent : State F)
      (c c' : ChainArray F) : Type 0 where
    pub nstacks_same : c'.nstacks ≡ c.nstacks
    pub ntemps_same : c'.ntemps ≡ c.ntemps
    pub cache_at : (j : ℕ) → at c'.cache j ≡ (if id == j then ok (recent ∷ []) else at c.cache j)
    pub disk_at :
        (j : ℕ)
        → at c'.length_on_disk j ≡ (
            if id == j
            then ok (wrap (disk + length cached + (uint_mod - 1)))
            else at c.length_on_disk j)
    pub shaped : IsShaped c'
    pub files_other : (k : ℕ) → (id / c.ntemps == k) ≡ false → at c'.files k ≡ at c.files k
    pub files_warm : (k : ℕ) → (chain_index c.ntemps id == 0) ≡ false → at c'.files k ≡ at c.files k
    pub files_cold :
        (file : List (State F))
        → (chain_index c.ntemps id == 0) ≡ true
        → at c.files (id / c.ntemps) ≡ ok file
        → at c'.files (id / c.ntemps) ≡ ok (file ++ all_but_last cached)

  -- What is written for the chain.
  record Written (id : ℕ) (cached : List (State F)) (c : ChainArray F)
      (files : List (List (State F))) : Type 0 where
    length_same : length files ≡ length c.files
    other : (k : ℕ) → (id / c.ntemps == k) ≡ false → at files k ≡ at c.files k
    warm : (k : ℕ) → (chain_index c.ntemps id == 0) ≡ false → at files k ≡ at c.files k
    cold :
        (file : List (State F))
        → (chain_index c.ntemps id == 0) ≡ true
        → at c.files (id / c.ntemps) ≡ ok file
        → at files (id / c.ntemps) ≡ ok (file ++ all_but_last cached)

  write_cold_ok :
      (id : ℕ) (cached : List (State F)) (c : ChainArray F)
      → id / c.ntemps < length c.files
      → (files : List (List (State F))) × (write_cold id cached c ≡ ok files)
        × Written id cached c files
  unfolding write_cold
  write_cold_ok id cached c h = elim (Bool-cases (chain_index c.ntemps id == 0)) [
    | inl is_cold ↦
        let (file, e) = at_ok c.files (id / c.ntemps) h in
        let added = file ++ all_but_last cached in
        let p = put_ok c.files (id / c.ntemps) added h in
        let files = set c.files (id / c.ntemps) added in
        (
          files,
          rw is_cold (rw (lt→ltb _ _ h) (rw e p)),
          record {
            length_same = length-set c.files (id / c.ntemps) added;
            other = λ k ne. at-put c.files files (id / c.ntemps) k added p ∙ rw ne;
            warm = λ k not_cold. cc;
            cold = λ file' _ e'.
                at-put c.files files (id / c.ntemps) (id / c.ntemps) added p
                ∙ rw (==_refl (id / c.ntemps)) (cc (e, e'));
          },
        )
    | inr is_warm ↦ (
      c.files,
      rw is_warm,
      record {
        length_same = refl;
        other = λ k ne. refl;
        warm = λ k not_cold. refl;
        cold = λ file is_cold e. cc;
      },
    )
  ]

  pub id_in_files :
      (id : ℕ) (c : ChainArray F)
      → IsShaped c
      → id < c.nstacks * c.ntemps
      → id / c.ntemps < length c.files
  id_in_files id c h inside = rw h.files_length ((div-lt_iff_lt-mul h.positive).1 inside)

  pub flush_cached_ok :
      (id : ℕ) (cached : List (State F)) (c : ChainArray F)
      → IsShaped c
      → id < c.nstacks * c.ntemps
      → 0 < length cached
      → (disk : ℕ) × (recent : State F) × (c' : ChainArray F) × (at c.length_on_disk id ≡ ok disk)
        × (back cached ≡ ok recent)
        × (flush_cached id cached c ≡ ok c')
        × Flushed id disk cached recent c c'
  unfolding flush_cached
  flush_cached_ok id cached c h inside some_cached =
      let (disk, d) = at_ok c.length_on_disk id (rw h.disk_length inside) in
      let (recent, b) = back_some cached some_cached in
      let (files, w, written) = write_cold_ok id cached c (id_in_files id c h inside) in
      let grown = wrap (disk + length cached + (uint_mod - 1)) in
      let p = put_ok c.length_on_disk id grown (rw h.disk_length inside) in
      let q = put_ok c.cache id (recent ∷ []) (rw h.cache_length inside) in
      (
        disk,
        recent,
        record c {
          files = files;
          length_on_disk = set c.length_on_disk id grown;
          cache = set c.cache id (recent ∷ []);
        },
        d,
        b,
        rw d (rw w (rw p (rw b (rw q)))),
        record {
          nstacks_same = refl;
          ntemps_same = refl;
          cache_at = λ j. at-put c.cache _ id j (recent ∷ []) q;
          disk_at = λ j. at-put c.length_on_disk _ id j grown p;
          shaped = record {
            positive = h.positive;
            small = h.small;
            files_length = written.length_same ∙ h.files_length;
            disk_length = length-set c.length_on_disk id grown ∙ h.disk_length;
            beta_length = h.beta_length;
            sigma_length = h.sigma_length;
            cache_length = length-set c.cache id (recent ∷ []) ∙ h.cache_length;
          };
          files_other = written.other;
          files_warm = written.warm;
          files_cold = written.cold;
        },
      )
