-- ===== src/Cache/Failing.antt =====
-- A run whose commit fails in parts, seen by the run after it.
use virus_detector.Base.{
  All-take, All-drop, take, drop, In, All-In, All-append, bytes_eq, bytes_eq→eq, ℤ, ℕ, suc, ◌^◌,
  ◌<◌, ◌≡◌, refl, sym, ap, ◌∙◌, subst, ◌⊎◌, inl, inr, Bool, true, false, Option, none, some, List,
  [], ◌∷◌, Bytes, All, arith, if◌then◌else◌, Bool-cases,
}
use virus_detector.Cache.{
  FileMetadata, CacheEntry, Row, to_signed, bind_row, Database, CacheManager, Committing,
  last_completed, is_older, map_row, verdict_for, load_all, upserts, upsert_batch, upsert_batches,
  metadata_eq, cached_verdict, commit_generation,
}
use virus_detector.Cache.Writer.{upsert_batch_commits}
use virus_detector.Cache.Rows.{IsWord, updates, stamp, stamps, updates-state, read_row-bind_row}
use virus_detector.Cache.InRun.{metadata_eq_iff}
use virus_detector.Cache.NextRun.{loaded, begun, loaded_next}

module _ {D : Type 0} (db : Database D) where
  -- A queued entry is an update of the run, with the run's generation.
  abbrev IsUpdate : ℕ → List CacheEntry → CacheEntry → Type 0
  IsUpdate g es c = (e : CacheEntry) × In e es × (c ≡ stamp g e)

  -- What is left of a row: that of an update of its path, the old one, or none.
  abbrev IsLeft : ℕ → Bytes → List CacheEntry → D → D → Type 0
  IsLeft g p es d after =
      ((e : CacheEntry) × In e es × (e.path ≡ p) × (db.row p after ≡ some (bind_row (stamp g e))))
      ⊎ (db.row p after ≡ db.row p d)
      ⊎ (db.row p after ≡ none)

  same_row :
      (g : ℕ) (p : Bytes) (es : List CacheEntry) (d w v : D)
      → db.row p v ≡ db.row p w
      → IsLeft g p es d w
      → IsLeft g p es d v
  same_row g p es d w v same (inl (e, m, at_p, k)) = inl (e, m, at_p, same ∙ k)
  same_row g p es d w v same (inr (inl k)) = inr (inl (same ∙ k))
  same_row g p es d w v same (inr (inr k)) = inr (inr (same ∙ k))

  upserts-IsLeft :
      (g : ℕ) (p : Bytes) (es : List CacheEntry) (d : D) (q : List CacheEntry) (w : D)
      → All (IsUpdate g es) q
      → IsLeft g p es d w
      → IsLeft g p es d (upserts db q w)
  unfolding upserts bind_row
  upserts-IsLeft g p es d [] w h l = l
  upserts-IsLeft g p es d (c ∷ q) w ((e, m, at_c), h) l =
      upserts-IsLeft g p es d q (db.upsert (bind_row c) w) h
        (elim (Bool-cases (bytes_eq c.path p)) [
          | inl hit ↦ inl (
            e,
            m,
            ap (λ z. z.path) (sym at_c) ∙ bytes_eq→eq c.path p hit,
            db.row-upsert p (bind_row c) w ∙ rw hit (ap (λ z. some (bind_row z)) at_c),
          )
          | inr miss ↦
              same_row g p es d w (db.upsert (bind_row c) w)
                (db.row-upsert p (bind_row c) w ∙ rw miss refl) l
        ])

  batch-IsLeft :
      (b : Bool) (g : ℕ) (p : Bytes) (es : List CacheEntry) (d : D) (q : List CacheEntry) (w : D)
      → All (IsUpdate g es) q
      → IsLeft g p es d w
      → IsLeft g p es d (upsert_batch db b q w).0
  batch-IsLeft true g p es d q w h l =
      subst (λ z. IsLeft g p es d z.0) (sym (upsert_batch_commits db q w))
        (upserts-IsLeft g p es d q w h l)
  batch-IsLeft false g p es d [] w h l = unfold upsert_batch in l
  batch-IsLeft false g p es d (c ∷ q) w h l = unfold upsert_batch in l

  -- However the queue falls into batches.
  batches-IsLeft :
      (batches : List (ℕ × Bool)) (last : Bool) (g : ℕ) (p : Bytes) (es : List CacheEntry) (d : D)
      (q : List CacheEntry) (w : D)
      → All (IsUpdate g es) q
      → IsLeft g p es d w
      → IsLeft g p es d (upsert_batches db batches last q w)
  unfolding upsert_batches
  batches-IsLeft [] last g p es d q w h l = batch-IsLeft last g p es d q w h l
  batches-IsLeft ((n, b) ∷ batches) last g p es d q w h l =
      batches-IsLeft batches last g p es d (drop n q) (upsert_batch db b (take n q) w).0
        (All-drop (IsUpdate g es) n q h)
        (batch-IsLeft b g p es d (take n q) w (All-take (IsUpdate g es) n q h) l)

  stamps-IsUpdate :
      (g : ℕ) (all es : List CacheEntry)
      → ((e : CacheEntry) → In e es → In e all)
      → All (IsUpdate g all) (stamps g es)
  unfolding stamps
  stamps-IsUpdate g all [] h = tt
  stamps-IsUpdate g all (e ∷ es) h =
      All-append (IsUpdate g all) (stamps g es) (stamp g e ∷ [])
        (stamps-IsUpdate g all es (λ c m. h c (inr m))) ((e, h e (inl refl), refl), tt)

  deleted-IsLeft :
      (full deletes : Bool) (s : ℤ) (g : ℕ) (p : Bytes) (es : List CacheEntry) (d w : D)
      → IsLeft g p es d w
      → IsLeft g p es d (if full then if deletes then db.delete_older s w else w else w)
  deleted-IsLeft false deletes s g p es d w h = h
  deleted-IsLeft true false s g p es d w h = h
  deleted-IsLeft true true s g p es d w h = elim (Bool-cases (is_older s (db.row p w))) [
    | inl old ↦ inr (inr (db.row-delete_older p s w ∙ rw old refl))
    | inr new ↦
        same_row g p es d w (db.delete_older s w) (db.row-delete_older p s w ∙ rw new refl) h
  ]

  commit_generation-IsLeft :
      (k : Committing) (full : Bool) (m : CacheManager D) (g : ℕ) (es : List CacheEntry) (d : D)
      (p : Bytes)
      → m.writer ≡ record { upsert_queue = stamps g es; stop = false }
      → m.storage ≡ d
      → m.current_generation ≡ g
      → IsLeft g p es d (commit_generation db k full m).storage
  unfolding commit_generation
  commit_generation-IsLeft k full m g es d p w s c =
      rw (w, s, c)
        (deleted-IsLeft full k.deletes (to_signed g) g p es d
          (upsert_batches db k.batches k.commits (stamps g es) d)
          (batches-IsLeft k.batches k.commits g p es d (stamps g es) d
            (stamps-IsUpdate g es es (λ e m. m)) (inr (inl refl))))

  updates-generation_file :
      (es : List CacheEntry) (m : CacheManager D)
      → (updates es m).generation_file ≡ m.generation_file
  unfolding updates virus_detector.Cache.update
  updates-generation_file [] m = refl
  updates-generation_file (e ∷ es) m = updates-generation_file es m

  committed_last :
      (k : Committing) (full : Bool) (m : CacheManager D) (n : ℕ)
      → last_completed m.generation_file < n
      → m.current_generation < n
      → last_completed (commit_generation db k full m).generation_file < n
  unfolding commit_generation last_completed
  committed_last k full m n old new = elim (Bool-cases k.writes) [
    | inl e ↦ rw e new
    | inr e ↦ rw e old
  ]

  -- A run over the loaded cache whose commit meets `k`.
  abbrev pub ran_with : Committing → Bool → List CacheEntry → D → Option ℕ → CacheManager D
  ran_with k full es d file = commit_generation db k full (updates es (loaded db d file))

  -- Whichever writes of a commit fail, and however its queue falls into transactions that each commit
  -- or fail, the next run finds for a path and metadata the verdict that an update of this path with
  -- these metadata recorded, or what this run found when it had loaded, or nothing. Generations are
  -- below 2^63, sizes have 64 bits.
  pub failing-cached_verdict :
      (k : Committing) (full : Bool) (es : List CacheEntry) (d : D) (file : Option ℕ) (p : Bytes)
      (metadata : FileMetadata)
      → suc (suc (last_completed file)) < 2 ^ 63
      → All (λ e. IsWord e.metadata.size) es
      → let after = ran_with k full es d file in
        let found = cached_verdict p metadata (loaded db after.storage after.generation_file) in
        ((e : CacheEntry) × In e es
          × (e.path ≡ p)
          × (e.metadata ≡ metadata)
          × (found ≡ some e.verdict))
        ⊎ (found ≡ cached_verdict p metadata (loaded db d file))
        ⊎ (found ≡ none)
  unfolding cached_verdict load_all verdict_for map_row last_completed
  failing-cached_verdict k full es d file p metadata h sizes =
      let g = suc (last_completed file) in
      let m = updates es (begun db d file) in
      let (w, s, c) = updates-state d file (load_all db d) g es in
      let after = commit_generation db k full m in
      let start : loaded db d file ≡ begun db d file = loaded_next db d file (omega arith) in
      let last : suc (last_completed after.generation_file) < 2 ^ 63 = omega (
        arith,
        committed_last k full m (suc g)
            (omega (arith, ap last_completed (updates-generation_file es (begun db d file))))
            (omega (arith, c)),
      ) in
      let found : cached_verdict p metadata (
            loaded db (ran_with k full es d file).storage
              (ran_with k full es d file).generation_file)
          ≡ verdict_for metadata (map_row (db.row p after.storage)) =
        ap
          (λ z.
            let a = commit_generation db k full (updates es z) in
            cached_verdict p metadata (loaded db a.storage a.generation_file))
          start
        ∙ ap (λ z. verdict_for metadata (z.cache_entries p))
            (loaded_next db after.storage after.generation_file last) in
      elim (commit_generation-IsLeft k full m g es d p w s c) [
        | inl (e, m, at_p, at_row) ↦
            let recorded =
              found
              ∙ ap (λ z. verdict_for metadata (map_row z)) at_row
              ∙ ap (λ z. verdict_for metadata (some z))
                  (read_row-bind_row (stamp g e) (All-In (λ c. IsWord c.metadata.size) e es sizes m)
                    (omega arith)) in
            elim (Bool-cases (metadata_eq e.metadata metadata)) [
              | inl same ↦ inl (
                e,
                m,
                at_p,
                (metadata_eq_iff e.metadata metadata).0 same,
                recorded ∙ rw same refl,
              )
              | inr other ↦ inr (inr (recorded ∙ rw other refl))
            ]
        | inr (inl same) ↦ inr (
            inl (
              found
              ∙ ap (λ z. verdict_for metadata (map_row z)) same
              ∙ ap (λ z. verdict_for metadata (z.cache_entries p)) (sym start)))
        | inr (inr gone) ↦ inr (inr (found ∙ ap (λ z. verdict_for metadata (map_row z)) gone))
      ]
