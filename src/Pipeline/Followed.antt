-- ===== src/Pipeline/Followed.antt =====
-- Each step of a scan as calls on the checkpoint's manager.
use virus_detector.Base.{
  ◌≡◌, refl, sym, ap, subst, ◌⊎◌, inl, inr, Bool, true, Option, none, some, List, [], ◌∷◌, ◌++◌,
  Bytes, ℤ, pos, In, In-append_left, In-append_right, map, All, Option-cases, map-append,
}
use virus_detector.Automaton.{Automaton}
use virus_detector.FileProcessor.{process}
use virus_detector.Metadata.{Json}
use virus_detector.Quarantine.{Outcome, returns, throws, QuarantineManager, quarantine}
use virus_detector.Cache.{FileMetadata, cached_verdict}
use virus_detector.Resume.Manager.{ResumeManager, discovery_finished}
use virus_detector.Resume.Tracking.{Call, adds, completes, finishes, step, run, IsPending}
use virus_detector.Resume.Completing.{CanWrite}
use virus_detector.Traversal.{FileInfo}
use virus_detector.Pipeline.{
  Task, ScanPipeline, Running, handle_cache_hit, handle_cache_miss, handle_discovered_file,
  count_clean, after_quarantine, handle_scan_result, handle_processed, run_task, metadata_of,
  read_file,
}
use virus_detector.Pipeline.Discovered.{discovered_hit, discovered_miss}
use virus_detector.Pipeline.Schedule.{
  Scan, Ending, unread, judged, threw, ending, quarantine_ending, thrown_by, finishes, after_task,
}

abbrev pub paths_of : List Task → List Bytes
paths_of = map (λ t. t.info.relative_path)

-- The checkpoint's manager has had a history of calls, in which only files that are queued, or whose
-- task threw, are pending.
pub record IsFollowed {D T : Type 0} (m : ResumeManager) (s : ScanPipeline D T)
    (thrown : List Bytes) : Type 0 where
  pub history : List Call
  pub writes : All CanWrite history
  pub manager : s.resume_manager ≡ run history m
  pub pending : (x : Bytes) → IsPending history x → In x (paths_of s.tasks) ⊎ In x thrown

-- The call that a task makes.
abbrev pub called : Ending → Bool → Bytes → List Call → List Call
called unread w p cs = completes w p ∷ cs
called judged w p cs = completes w p ∷ cs
called threw w p cs = cs

called-CanWrite :
    (e : Ending) (p : Bytes) (cs : List Call) → All CanWrite cs → All CanWrite (called e true p cs)
called-CanWrite unread p cs h = (refl, h)
called-CanWrite judged p cs h = (refl, h)
called-CanWrite threw p cs h = h

-- Without the task that ran, only its own path can be missing.
pub In-without :
    (x : Bytes) (t : Task) (before after : List Task)
    → In x (paths_of (before ++ t ∷ after))
    → (x ≡ t.info.relative_path) ⊎ In x (paths_of (before ++ after))
In-without x t [] after (inl e) = inl e
In-without x t [] after (inr n) = inr n
In-without x t (b ∷ before) after (inl e) = inr (inl e)
In-without x t (b ∷ before) after (inr n) = elim (In-without x t before after n) [
  | inl e ↦ inl e
  | inr o ↦ inr (inr o)
]

task_pending :
    (e : Ending) (w : Bool) (t : Task) (cs : List Call) (before after : List Task)
    (thrown : List Bytes)
    → ((x : Bytes) → IsPending cs x → In x (paths_of (before ++ t ∷ after)) ⊎ In x thrown)
    → (x : Bytes) → IsPending (called e w t.info.relative_path cs) x
    → In x (paths_of (before ++ after)) ⊎ In x (thrown_by e t.info.relative_path thrown)
task_pending unread w t cs before after thrown h x (o, ne) = elim (h x o) [
  | inr n ↦ inr n
  | inl n ↦ elim (In-without x t before after n) [ inl e ↦ absurd (ne e) | inr l ↦ inl l ]
]
task_pending judged w t cs before after thrown h x (o, ne) = elim (h x o) [
  | inr n ↦ inr n
  | inl n ↦ elim (In-without x t before after n) [ inl e ↦ absurd (ne e) | inr l ↦ inl l ]
]
task_pending threw w t cs before after thrown h x o = elim (h x o) [
  | inr n ↦ inr (inr n)
  | inl n ↦ elim (In-without x t before after n) [ inl e ↦ inr (inl e) | inr l ↦ inl l ]
]

module _ {D T : Type 0} (m : ResumeManager) where
  after_quarantine-run :
      (w : Bool) (info : FileInfo) (d : FileMetadata) (s : ScanPipeline D T)
      (r : QuarantineManager T × Outcome) (cs : List Call)
      → s.resume_manager ≡ run cs m
      → (after_quarantine w info d s r).resume_manager
        ≡ run (called (quarantine_ending r.1) w info.relative_path cs) m
  unfolding after_quarantine quarantine_ending
  after_quarantine-run w info d s (q, throws) cs e = e
  after_quarantine-run w info d s (q, returns done) cs e = unfold run step in rw e refl

  pub handle_processed-run :
      {J : Type 0} (json : Json J T) (c : Running) (t : Task) (r : Option (List Bytes))
      (s : ScanPipeline D T) (cs : List Call)
      → s.resume_manager ≡ run cs m
      → (handle_processed json c t r s).resume_manager
        ≡ run (called (ending json c t r s) c.writable t.info.relative_path cs) m
  unfolding handle_processed handle_scan_result count_clean ending
  handle_processed-run json c t none s cs e = unfold run step in rw e refl
  handle_processed-run json c t (some []) s cs e = unfold run step in rw e refl
  handle_processed-run json c t (some (g ∷ gs)) s cs e =
      after_quarantine-run c.writable t.info t.metadata s
        (quarantine json c.quarantining t.info.path (g ∷ gs) s.quarantine_manager) cs e

  pub discovers-IsFollowed :
      (time : ℤ) (info : FileInfo) (s : ScanPipeline D T) (thrown : List Bytes)
      → IsFollowed m s thrown
      → IsFollowed m (handle_discovered_file true time info s) thrown
  discovers-IsFollowed time info s thrown h =
      let d = metadata_of info time in
      elim (Option-cases (cached_verdict info.path d s.cache_manager)) [
        | inr (v, e) ↦
            subst (λ z. IsFollowed m z thrown) (sym (discovered_hit true time info s v e))
              (record {
                history = completes true info.relative_path ∷ adds info.relative_path ∷ h.history;
                writes = (refl, (tt, h.writes));
                manager = unfold handle_cache_hit run step in rw h.manager refl;
                pending = λ x (o, ne).
                    unfold handle_cache_hit in
                    elim o [ inl q ↦ absurd (ne q) | inr n ↦ h.pending x n ];
              })
        | inl e ↦
            subst (λ z. IsFollowed m z thrown) (sym (discovered_miss true time info s e))
              (let t : Task = record { info = info; metadata = d } in
                record {
                  history = adds info.relative_path ∷ h.history;
                  writes = (tt, h.writes);
                  manager = unfold handle_cache_miss run step in rw h.manager refl;
                  pending = λ x o.
                      unfold handle_cache_miss in
                      rw (map-append (λ t. t.info.relative_path) s.tasks (t ∷ [])) (elim o [
                        | inl q ↦ inl (In-append_right x (paths_of s.tasks) _ (inl q))
                        | inr n ↦ elim (h.pending x n) [
                          | inl l ↦ inl (In-append_left x (paths_of s.tasks) _ l)
                          | inr r ↦ inr r
                        ]
                      ]);
                })
      ]

  pub finishes-IsFollowed :
      (w : Bool) (s : ScanPipeline D T) (thrown : List Bytes)
      → w ≡ true
      → IsFollowed m s thrown
      → IsFollowed m
          (record s { resume_manager = (discovery_finished w s.resume_manager).0 })
          thrown
  finishes-IsFollowed w s thrown e h = record {
    history = finishes w ∷ h.history;
    writes = (e, h.writes);
    manager = unfold run step in ap (λ r. (discovery_finished w r).0) h.manager;
    pending = h.pending;
  }

  pub runs-IsFollowed :
      {J : Type 0} (json : Json J T) (a : Automaton) (signatures : List Bytes) (k : Running)
      (before after : List Task) (t : Task) (s : Scan D T)
      → k.writable ≡ true
      → s.pipeline.tasks ≡ before ++ t ∷ after
      → IsFollowed m s.pipeline s.thrown
      → let s' = after_task json a signatures (pos 0) k t (before ++ after) s in
        IsFollowed m s'.pipeline s'.thrown
  runs-IsFollowed json a signatures k before after t s w e h =
      let result =
        process a signatures
          (read_file k.opens k.breaks (s.pipeline.quarantine_manager.files t.info.path)) in
      let end = ending json k t result s.pipeline in
      record {
        history = called end k.writable t.info.relative_path h.history;
        writes =
            subst (λ b. All CanWrite (called end b t.info.relative_path h.history)) (sym w)
              (called-CanWrite end t.info.relative_path h.history h.writes);
        manager =
            unfold run_task in handle_processed-run json k t result s.pipeline h.history h.manager;
        pending = task_pending end k.writable t h.history before after s.thrown (
            subst (λ ts. (x : Bytes) → IsPending h.history x → In x (paths_of ts) ⊎ In x s.thrown) e
              h.pending);
      }
