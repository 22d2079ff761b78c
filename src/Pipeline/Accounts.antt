-- ===== src/Pipeline/Accounts.antt =====
-- The counters of a scan, over any interleaving of the walk and the tasks.
use virus_detector.Base.{
  ℕ, suc, ◌+◌, ◌≤◌, ◌≡◌, sym, ap, subst, inl, inr, Bool, true, false, Option, none, some, List, [],
  ◌∷◌, ◌++◌, Bytes, ℤ, length, length-append, arith, Option-cases,
}
use virus_detector.Automaton.{Automaton}
use virus_detector.Metadata.{Json}
use virus_detector.Quarantine.{Outcome, returns, throws, QuarantineManager, quarantine}
use virus_detector.Cache.{
  FileVerdict, clean, malicious, error, FileMetadata, CacheManager, cached_verdict,
}
use virus_detector.Resume.Manager.{ResumeManager}
use virus_detector.Traversal.{FileInfo}
use virus_detector.Pipeline.{
  ScanSummary, Task, ScanPipeline, Running, handle_cache_hit, handle_cache_miss,
  handle_discovered_file, count_malicious, count_clean, after_quarantine, handle_scan_result,
  handle_processed, run_task, metadata_of,
}
use virus_detector.Pipeline.Discovered.{discovered_hit, discovered_miss}
use virus_detector.Pipeline.Schedule.{Scan, Reach, here, next, discovers, finishes, runs, start}

-- Every discovered file is cached, scanned, failed or still queued, and the others are in order.
pub record IsAccounted (m : ScanSummary) (queued : ℕ) : Type 0 where
  pub all : m.discovered ≡ m.cached + m.scanned + m.failed + queued
  pub judged : m.malicious ≤ m.cached + m.scanned
  pub moved : m.quarantined ≤ m.malicious

runs-length :
    (tasks before after : List Task) (t : Task)
    → tasks ≡ before ++ t ∷ after
    → length tasks ≡ suc (length (before ++ after))
runs-length tasks before after t e =
    omega (arith, ap length e, length-append before (t ∷ after), length-append before after)

module _ {D T : Type 0} where
  hit-IsAccounted :
      (writable : Bool) (info : FileInfo) (v : FileVerdict) (d : FileMetadata)
      (s : ScanPipeline D T) (n : ℕ)
      → IsAccounted s.summary n
      → let counted : ScanPipeline D T = record s {
        summary = record (s.summary) { discovered = s.summary.discovered + 1 };
      } in
        IsAccounted (handle_cache_hit writable info v d counted).summary n
  unfolding handle_cache_hit
  hit-IsAccounted writable info clean d s n a = record {
    all = omega (arith, a.all);
    judged = omega (arith, a.judged);
    moved = a.moved;
  }
  hit-IsAccounted writable info malicious d s n a = record {
    all = omega (arith, a.all);
    judged = omega (arith, a.judged);
    moved = omega (arith, a.moved);
  }
  hit-IsAccounted writable info error d s n a = record {
    all = omega (arith, a.all);
    judged = omega (arith, a.judged);
    moved = a.moved;
  }

  after_quarantine-IsAccounted :
      (w : Bool) (info : FileInfo) (d : FileMetadata) (s : ScanPipeline D T)
      (r : QuarantineManager T × Outcome) (n : ℕ)
      → IsAccounted s.summary (suc n)
      → IsAccounted (after_quarantine w info d s r).summary n
  unfolding after_quarantine count_malicious
  after_quarantine-IsAccounted w info d s (q, throws) n a = record {
    all = omega (arith, a.all);
    judged = omega (arith, a.judged);
    moved = omega (arith, a.moved);
  }
  after_quarantine-IsAccounted w info d s (q, returns true) n a = record {
    all = omega (arith, a.all);
    judged = omega (arith, a.judged);
    moved = omega (arith, a.moved);
  }
  after_quarantine-IsAccounted w info d s (q, returns false) n a = record {
    all = omega (arith, a.all);
    judged = omega (arith, a.judged);
    moved = omega (arith, a.moved);
  }

  task-IsAccounted :
      {J : Type 0} (json : Json J T) (c : Running) (t : Task) (r : Option (List Bytes))
      (s : ScanPipeline D T) (n : ℕ)
      → IsAccounted s.summary (suc n)
      → IsAccounted (handle_processed json c t r s).summary n
  unfolding handle_processed handle_scan_result count_clean
  task-IsAccounted json c t none s n a = record {
    all = omega (arith, a.all);
    judged = a.judged;
    moved = a.moved;
  }
  task-IsAccounted json c t (some []) s n a = record {
    all = omega (arith, a.all);
    judged = omega (arith, a.judged);
    moved = a.moved;
  }
  task-IsAccounted json c t (some (g ∷ gs)) s n a =
      after_quarantine-IsAccounted c.writable t.info t.metadata s
        (quarantine json c.quarantining t.info.path (g ∷ gs) s.quarantine_manager) n a

  Accounted : ScanPipeline D T → Type 0
  Accounted s = IsAccounted s.summary (length s.tasks)

  discovers-Accounted :
      (writable : Bool) (time : ℤ) (info : FileInfo) (s : ScanPipeline D T)
      → Accounted s
      → Accounted (handle_discovered_file writable time info s)
  unfolding Accounted
  discovers-Accounted writable time info s a =
      elim (Option-cases (cached_verdict info.path (metadata_of info time) s.cache_manager)) [
        | inr (v, e) ↦ subst Accounted (sym (discovered_hit writable time info s v e)) (
            unfold handle_cache_hit in
            hit-IsAccounted writable info v (metadata_of info time) s (length s.tasks) a)
        | inl e ↦
            let m = metadata_of info time in
            subst Accounted (sym (discovered_miss writable time info s e)) (
              unfold handle_cache_miss in
              record {
                all = omega (
                  arith,
                  a.all,
                  length-append s.tasks (record { info = info; metadata = m } ∷ []),
                );
                judged = a.judged;
                moved = a.moved;
              })
      ]

module _ {D J T : Type 0} (json : Json J T) (a : Automaton) (signatures : List Bytes) (time : ℤ)
    (Writes : Bool → Type 0) (Meets : Running → Type 0) (c : CacheManager D) (m : ResumeManager)
    (q : QuarantineManager T) (listing : List FileInfo) where
  -- In every state that a scan reaches, the discovered files are the cached, scanned, failed and queued
  -- ones; at most the cached and scanned are malicious, and at most the malicious quarantined.
  pub Reach-IsAccounted :
      (s : Scan D T)
      → Reach json a signatures time Writes Meets (start c m q listing) s
      → IsAccounted s.pipeline.summary (length s.pipeline.tasks)
  unfolding Accounted run_task
  Reach-IsAccounted s here = record { all = omega arith; judged = omega arith; moved = omega arith }
  Reach-IsAccounted s (next {t = r} path (discovers writable info rest w e)) =
      discovers-Accounted writable time info r.pipeline (Reach-IsAccounted r path)
  Reach-IsAccounted s (next {t = r} path (finishes writable w e)) = Reach-IsAccounted r path
  Reach-IsAccounted s (next {t = r} path (runs c before after t w meets e)) =
      task-IsAccounted json c t _ r.pipeline (length (before ++ after)) (
        subst (IsAccounted r.pipeline.summary) (runs-length r.pipeline.tasks before after t e)
          (Reach-IsAccounted r path))

  -- In a state that a scan reaches with no task left, each discovered file was answered from the cache,
  -- scanned or counted as failed, once.
  pub ended-summary :
      (s : Scan D T)
      → Reach json a signatures time Writes Meets (start c m q listing) s
      → s.pipeline.tasks ≡ []
      → s.pipeline.summary.discovered
        ≡ s.pipeline.summary.cached + s.pipeline.summary.scanned + s.pipeline.summary.failed
  ended-summary s r e = omega (arith, (Reach-IsAccounted s r).all, ap length e)
