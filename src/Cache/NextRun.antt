-- ===== src/Cache/NextRun.antt =====
-- A whole run, from load over updates to commitGeneration, seen by the run after it.
use virus_detector.Base.{
  ℕ, suc, ◌+◌, ◌-◌, ◌^◌, ◌<◌, ◌≡◌, refl, sym, ap, ◌∙◌, subst, Bool, true, false, Option, some, List,
  [], ◌∷◌, Bytes, bytes_eq, All, ◌==◌, arith, if◌then◌else◌,
}
use virus_detector.Cache.{
  FileMetadata, CacheEntry, to_signed, bind_row, Database, CacheManager, new_manager, map_row,
  last_completed, verdict_for, load_all, upserts, upsert_batch, load, cached_verdict,
  commit_generation, opening, committing,
}
use virus_detector.Cache.Writer.{upserts-append, upsert_batch_commits}
use virus_detector.Cache.Rows.{
  IsWord, updates, latest, stamp, stamps, updates-state, newest, newest-if, latest-IsWord, IsPast,
  expected, after_delete, verdict-newest,
}

module _ {D : Type 0} (db : Database D) where
  pub row-upserts :
      (p : Bytes) (g : ℕ) (es : List CacheEntry) (d : D)
      → db.row p (upserts db (stamps g es) d) ≡ newest g (latest p es) (db.row p d)
  unfolding upserts stamps latest bind_row
  row-upserts p g [] d = unfold newest in refl
  row-upserts p g (e ∷ es) d =
      ap (db.row p) (upserts-append db (stamps g es) (stamp g e ∷ []) d)
      ∙ db.row-upsert p (bind_row (stamp g e)) (upserts db (stamps g es) d)
      ∙ newest-if (bytes_eq e.path p) g e (latest p es) (db.row p d) _ (row-upserts p g es d)

  -- A manager that a new process has loaded, and one that has done a whole run from there.
  abbrev pub loaded : D → Option ℕ → CacheManager D
  loaded d file = (load db opening (new_manager d file)).0

  abbrev pub ran : Bool → List CacheEntry → D → Option ℕ → CacheManager D
  ran full es d file = commit_generation db committing full (updates es (loaded d file))

  load_kept :
      (m : CacheManager D)
      → (last_completed m.generation_file == 2 ^ 64 - 1) ≡ false
      → (load db opening m).0 ≡ record m {
        cache_entries = load_all db m.storage;
        current_generation = suc (last_completed m.generation_file);
      }
  unfolding load
  load_kept m e =
      let more : last_completed m.generation_file + 1 ≡ suc (last_completed m.generation_file) =
        omega arith in
      rw (e, more) refl

  pub loaded_next :
      (d : D) (file : Option ℕ)
      → suc (last_completed file) < 2 ^ 63
      → loaded d file ≡ record (new_manager d file) {
        cache_entries = load_all db d;
        current_generation = suc (last_completed file);
      }
  loaded_next d file h = load_kept (new_manager d file) (ground arith)

  abbrev pub begun : D → Option ℕ → CacheManager D
  begun d file = record (new_manager d file) {
    cache_entries = load_all db d;
    current_generation = suc (last_completed file);
  }

  written-row :
      (full : Bool) (g : ℕ) (q : List CacheEntry) (d : D) (p : Bytes)
      → let written = (upsert_batch db true q d).0 in
        db.row p (if full then db.delete_older (to_signed g) written else written)
        ≡ after_delete full g (db.row p (upserts db q d))
  unfolding after_delete
  written-row true g q d p =
      ap (λ z. db.row p (db.delete_older (to_signed g) z.0)) (upsert_batch_commits db q d)
      ∙ db.row-delete_older p (to_signed g) (upserts db q d)
  written-row false g q d p = ap (λ z. db.row p z.0) (upsert_batch_commits db q d)

  commit_generation-row :
      (full : Bool) (m : CacheManager D) (g : ℕ) (q : List CacheEntry) (d : D) (p : Bytes)
      → m.writer ≡ record { upsert_queue = q; stop = false }
      → m.storage ≡ d
      → m.current_generation ≡ g
      → db.row p (commit_generation db committing full m).storage
        ≡ after_delete full g (db.row p (upserts db q d))
  unfolding commit_generation
  commit_generation-row full m g q d p w s c = rw (w, s, c) (written-row full g q d p)

  commit_generation-file :
      (full : Bool) (m : CacheManager D)
      → (commit_generation db committing full m).generation_file ≡ some m.current_generation
  unfolding commit_generation
  commit_generation-file full m = refl

  ran-row :
      (full : Bool) (es : List CacheEntry) (d : D) (file : Option ℕ) (p : Bytes)
      → suc (last_completed file) < 2 ^ 63
      → let g = suc (last_completed file) in
        db.row p (ran full es d file).storage
        ≡ after_delete full g (newest g (latest p es) (db.row p d))
  ran-row full es d file p h =
      let g = suc (last_completed file) in
      let (w, s, c) = updates-state d file (load_all db d) g es in
      ap (λ m. db.row p (commit_generation db committing full (updates es m)).storage)
        (loaded_next d file h)
      ∙ commit_generation-row full (updates es (begun d file)) g (stamps g es) d p w s c
      ∙ ap (after_delete full g) (row-upserts p g es d)

  ran-generation :
      (full : Bool) (es : List CacheEntry) (d : D) (file : Option ℕ)
      → suc (last_completed file) < 2 ^ 63
      → (ran full es d file).generation_file ≡ some (suc (last_completed file))
  ran-generation full es d file h =
      let g = suc (last_completed file) in
      let (w, s, c) = updates-state d file (load_all db d) g es in
      ap (λ m. (commit_generation db committing full (updates es m)).generation_file)
        (loaded_next d file h)
      ∙ commit_generation-file full (updates es (begun d file))
      ∙ ap some c

  -- The next run's lookup, where the latest update of the path has a 64-bit size.
  pub ran_lookup :
      (full : Bool) (es : List CacheEntry) (d : D) (file : Option ℕ) (p : Bytes)
      (metadata : FileMetadata)
      → suc (suc (last_completed file)) < 2 ^ 63
      → ((e : CacheEntry) → latest p es ≡ some e → IsWord e.metadata.size)
      → IsPast (last_completed file) (db.row p d)
      → let after = ran full es d file in
        cached_verdict p metadata (loaded after.storage after.generation_file)
        ≡ expected full metadata (latest p es) (cached_verdict p metadata (loaded d file))
  unfolding cached_verdict load_all last_completed
  ran_lookup full es d file p metadata h size past =
      let after = ran full es d file in
      let g = ran-generation full es d file (omega arith) in
      ap (λ m. verdict_for metadata (m.cache_entries p))
        (loaded_next after.storage after.generation_file
          (subst (λ z. suc (last_completed z) < 2 ^ 63) (sym g) h))
      ∙ ap (λ z. verdict_for metadata (map_row z)) (ran-row full es d file p (omega arith))
      ∙ verdict-newest full metadata (last_completed file) (latest p es) (db.row p d) (omega arith)
          size past
      ∙ ap (λ m. expected full metadata (latest p es) (verdict_for metadata (m.cache_entries p)))
          (sym (loaded_next d file (omega arith)))

  -- After a run that loaded the database, made the updates and committed its generation, with every
  -- write succeeding, the next run finds for a path and metadata: what the latest update of that path
  -- says, if the metadata are the same; with no update, nothing if the run scanned the whole system,
  -- and otherwise what that run itself found. The generation file then has the next number. The
  -- conditions: generations below 2^63, 64-bit sizes, and for each row one completed before.
  pub ran-cached_verdict :
      (full : Bool) (es : List CacheEntry) (d : D) (file : Option ℕ) (p : Bytes)
      (metadata : FileMetadata)
      → suc (suc (last_completed file)) < 2 ^ 63
      → All (λ e. IsWord e.metadata.size) es
      → IsPast (last_completed file) (db.row p d)
      → let after = ran full es d file in
        (cached_verdict p metadata (loaded after.storage after.generation_file)
          ≡ expected full metadata (latest p es) (cached_verdict p metadata (loaded d file)))
        × (after.generation_file ≡ some (suc (last_completed file)))
  ran-cached_verdict full es d file p metadata h sizes past = (
    ran_lookup full es d file p metadata h (λ e at_p. latest-IsWord p es e sizes at_p) past,
    ran-generation full es d file (omega arith),
  )
