-- ===== src/Pipeline/Ran.antt =====
-- A task keeps the account of Judged.
use virus_detector.Base.{
  ℕ, ◌≤◌, ◌≡◌, ◌≢◌, refl, sym, ap, ◌∙◌, subst, inl, inr, Bool, Option, none, some, List, [], ◌∷◌,
  ◌++◌, Bytes, ℤ, In, map, All, arith,
}
use virus_detector.Automaton.{Automaton}
use virus_detector.FileProcessor.{process}
use virus_detector.Metadata.{Json}
use virus_detector.Cache.{clean, malicious, CacheEntry, CacheManager, update}
use virus_detector.Cache.Rows.{updates, latest}
use virus_detector.Files.{Files}
use virus_detector.Quarantine.{Outcome, returns, throws, QuarantineManager, quarantine}
use virus_detector.Quarantine.Frame.{quarantine-others}
use virus_detector.Traversal.{FileInfo}
use virus_detector.Pipeline.{
  Task, ScanPipeline, Running, entry_of, read_file, count_clean, after_quarantine,
  handle_scan_result, handle_processed, run_task,
}
use virus_detector.Pipeline.Schedule.{
  Scan, Ending, unread, judged, threw, ending, quarantine_ending, faulty, thrown_by, after_task,
}
use virus_detector.Pipeline.Judged.{
  times, times_one, paths, queued, latest_other, latest_same, verdict_of, IsSettled, IsQueued,
  IsJudged, settle,
}
use virus_detector.Pipeline.Judging.{was_read, queued_without, infos_without, All-without}

-- The state after a task, from what its handlers leave and how it ends.
abbrev ended :
    {D T : Type 0} → Task → List Task → Scan D T → ScanPipeline D T → Ending → Option ℕ → Scan D T
ended t rest s p e b = record s {
  pipeline = record p { tasks = rest };
  faults = faulty e b t.info.path s.faults;
  thrown = thrown_by e t.info.relative_path s.thrown;
}

module _ {D T : Type 0} (a : Automaton) (signatures : List Bytes) (time : ℤ) (c : CacheManager D)
    (files : Files) (listing : List FileInfo) (distinct : (p : Bytes) → times p (paths listing) ≤ 1)
    (s : Scan D T) (j : IsJudged a signatures time c files listing s) (before after : List Task)
    (t : Task) (at_t : s.pipeline.tasks ≡ before ++ t ∷ after) where
  -- What is known of the task's file.
  task_open :
      (latest t.info.path j.made ≡ none)
      × (s.pipeline.quarantine_manager.files t.info.path ≡ files t.info.path)
  task_open = j.untouched t.info.path (
      omega (
        arith,
        ap (λ ts. times t.info.path (queued ts)) at_t,
        queued_without t.info.path t before after,
        times_one t.info.path [],
      ))

  task-IsQueued :
      IsQueued a signatures time c files t
      × All (IsQueued a signatures time c files) (before ++ after)
  task-IsQueued =
      All-without (IsQueued a signatures time c files) t before after
        (subst (All (IsQueued a signatures time c files)) at_t j.waiting)

  -- The task leaves the queue: with an entry of its verdict, or as a fault.
  task_settled :
      (p : ScanPipeline D T) (e : Ending) (b : Option ℕ) (made' : List CacheEntry)
      → p.cache_manager ≡ updates made' c
      → ((x : Bytes) → x ≢ t.info.path → latest x made' ≡ latest x j.made)
      → ((x : Bytes)
          → 1 ≤ times x (paths listing)
          → x ≢ t.info.path
          → p.quarantine_manager.files x ≡ s.pipeline.quarantine_manager.files x)
      → IsSettled a signatures time c files made' (faulty e b t.info.path s.faults) t.info
      → IsJudged a signatures time c files listing (ended t (before ++ after) s p e b)
  task_settled p e b made' cache other kept right =
      settle a signatures time c files listing s (ended t (before ++ after) s p e b) t.info j made'
        distinct
        (λ x. omega (arith, ap (λ ts. times x (queued ts)) at_t, queued_without x t before after))
        (λ i m. elim m [
          | inr n ↦ inr (inr n)
          | inl n ↦
              elim (infos_without i t before after
                (subst (λ ts. In i (map (λ t. t.info) ts)) at_t n)) [
                  | inl e ↦ inl e
                  | inr o ↦ inr (inl o)
                ]
        ])
        task-IsQueued.1 cache other (grows e b) kept right
    where
      grows :
          (e : Ending) (b : Option ℕ) (x : Bytes)
          → In x s.faults
          → In x (faulty e b t.info.path s.faults)
      grows unread b x m = inr m
      grows judged none x m = m
      grows judged (some n) x m = inr m
      grows threw b x m = inr m

  -- The entry that a judged file gets, unless a read error cut it short.
  entry_right :
      (r : List Bytes) (opens : Bool) (b : Option ℕ)
      → process a signatures (read_file opens b (s.pipeline.quarantine_manager.files t.info.path))
        ≡ some r
      → IsSettled a signatures time c files
          (entry_of t.info t.metadata (verdict_of r) ∷ j.made)
          (faulty judged b t.info.path s.faults)
          t.info
  entry_right r opens (some n) e = inl (inl refl)
  entry_right r opens none e =
      let (f, there, found) =
        was_read a signatures opens (s.pipeline.quarantine_manager.files t.info.path) r e in
      let (same, missed) = task-IsQueued.0 in
      inr (
        verdict_of r,
        latest_same (entry_of t.info t.metadata (verdict_of r)) j.made
            ∙ ap (λ d. some (entry_of t.info d (verdict_of r))) same,
        inr (missed, (f, r, sym task_open.1 ∙ there, found, refl)),
      )

  quarantined-IsJudged :
      (w opens : Bool) (b : Option ℕ) (g : Bytes) (gs : List Bytes)
      (x : QuarantineManager T × Outcome)
      → process a signatures (read_file opens b (s.pipeline.quarantine_manager.files t.info.path))
        ≡ some (g ∷ gs)
      → ((p : Bytes)
          → 1 ≤ times p (paths listing)
          → p ≢ t.info.path
          → x.0.files p ≡ s.pipeline.quarantine_manager.files p)
      → IsJudged a signatures time c files listing (
          ended t
            (before ++ after)
            s
            (after_quarantine w t.info t.metadata s.pipeline x)
            (quarantine_ending x.1)
            b)
  unfolding after_quarantine quarantine_ending updates verdict_of
  quarantined-IsJudged w opens b g gs (q, throws) e kept =
      task_settled (after_quarantine w t.info t.metadata s.pipeline (q, throws)) threw b j.made
        j.cache (λ x ne. refl) kept (inl (inl refl))
  quarantined-IsJudged w opens b g gs (q, returns done) e kept =
      let entry = entry_of t.info t.metadata malicious in
      task_settled (after_quarantine w t.info t.metadata s.pipeline (q, returns done)) judged b
        (entry ∷ j.made) (ap (update entry) j.cache) (latest_other entry j.made) kept
        (entry_right (g ∷ gs) opens b e)

  processed-IsJudged :
      {J : Type 0} (json : Json J T) (k : Running) (r : Option (List Bytes))
      → process a signatures
          (read_file k.opens k.breaks (s.pipeline.quarantine_manager.files t.info.path))
        ≡ r
      → times k.quarantining.destination (paths listing) ≡ 0
      → IsJudged a signatures time c files listing (
          ended t
            (before ++ after)
            s
            (handle_processed json k t r s.pipeline)
            (ending json k t r s.pipeline)
            k.breaks)
  unfolding handle_processed handle_scan_result ending count_clean updates verdict_of
  processed-IsJudged json k none e outside =
      task_settled (handle_processed json k t none s.pipeline) unread k.breaks j.made j.cache
        (λ x ne. refl) (λ p m ne. refl) (inl (inl refl))
  processed-IsJudged json k (some []) e outside =
      let entry = entry_of t.info t.metadata clean in
      task_settled (handle_processed json k t (some []) s.pipeline) judged k.breaks (entry ∷ j.made)
        (ap (update entry) j.cache) (latest_other entry j.made) (λ p m ne. refl)
        (entry_right [] k.opens k.breaks e)
  processed-IsJudged json k (some (g ∷ gs)) e outside =
      quarantined-IsJudged k.writable k.opens k.breaks g gs
        (quarantine json k.quarantining t.info.path (g ∷ gs) s.pipeline.quarantine_manager) e
        (λ p m ne.
          quarantine-others json k.quarantining t.info.path (g ∷ gs) s.pipeline.quarantine_manager p
            ne (λ at_d. omega (arith, m, outside, ap (λ z. times z (paths listing)) at_d)))

  pub runs-IsJudged :
      {J : Type 0} (json : Json J T) (k : Running)
      → times k.quarantining.destination (paths listing) ≡ 0
      → IsJudged a signatures time c files listing
          (after_task json a signatures time k t (before ++ after) s)
  unfolding run_task
  runs-IsJudged json k outside = processed-IsJudged json k _ refl outside
