-- ===== src/Pipeline.antt =====
-- Scan/Pipeline/ScanPipeline.{h,cpp} and ScanSummary.h: what is done with each discovered file, on
-- the walker's thread and in the pool's tasks. Which system calls succeed comes with each step.
pub mod Schedule
pub mod Discovered
pub mod Judged
pub mod Accounts
pub mod Judging
pub mod Ran
pub mod Verdicts
pub mod Whole
pub mod Again
pub mod Followed
pub mod Finish
pub mod Unfinished
pub mod Undamaged
pub mod Prepared
pub mod Killed
pub mod Rescanned
pub mod Tree
pub mod Cut
pub mod Tests
use virus_detector.Base.{
  ℕ, suc, ◌+◌, ◌≡◌, Bool, true, false, Option, none, some, List, [], ◌∷◌, ◌++◌, Bytes, ℤ, take,
  if◌then◌else◌,
}
use virus_detector.Cache.{
  FileVerdict, clean, malicious, error, FileMetadata, CacheEntry, CacheManager, cached_verdict,
  update,
}
use virus_detector.Resume.Manager.{ResumeManager, add_file, file_completed}
use virus_detector.Traversal.{FileInfo}
use virus_detector.Automaton.{Automaton}
use virus_detector.FileProcessor.{process}
use virus_detector.Metadata.{Json}
use virus_detector.Files.{RegularFile}
use virus_detector.Quarantine.{
  Outcome, returns, throws, QuarantineManager, Quarantining, quarantine,
}

-- No operation counts an excluded file.
pub record ScanSummary : Type 0 where
  pub discovered : ℕ
  pub scanned : ℕ
  pub cached : ℕ
  pub excluded : ℕ
  pub malicious : ℕ
  pub quarantined : ℕ
  pub failed : ℕ

abbrev pub no_files : ScanSummary
no_files = record {
  discovered = 0;
  scanned = 0;
  cached = 0;
  excluded = 0;
  malicious = 0;
  quarantined = 0;
  failed = 0;
}

pub record Task : Type 0 where
  pub info : FileInfo
  pub metadata : FileMetadata

-- The parts that the handlers change; `tasks` are those enqueued and not yet run to their end.
pub record ScanPipeline (D T : Type 0) : Type 0 where
  pub summary : ScanSummary
  pub cache_manager : CacheManager D
  pub resume_manager : ResumeManager
  pub quarantine_manager : QuarantineManager T
  pub tasks : List Task

-- What a task meets: whether the checkpoint can be written and the file opened, how many bytes come
-- before a read error, if there is one, and the calls of a quarantine.
pub record Running : Type 0 where
  pub writable : Bool
  pub opens : Bool
  pub breaks : Option ℕ
  pub quarantining : Quarantining

abbrev pub metadata_of : FileInfo → ℤ → FileMetadata
metadata_of info signatures_last_modified = record {
  last_modified = info.last_modified;
  size = info.size;
  signatures_last_modified = signatures_last_modified;
}

abbrev pub entry_of : FileInfo → FileMetadata → FileVerdict → CacheEntry
entry_of info metadata verdict = record {
  path = info.path;
  metadata = metadata;
  verdict = verdict;
  generation = 0;
}

abbrev pub if_malicious : {A : Type 0} → FileVerdict → A → A → A
if_malicious clean a b = b
if_malicious malicious a b = a
if_malicious error a b = b

-- The counters of a malicious file: `done` says whether it was quarantined.
unfoldable pub count_malicious : Bool → ScanSummary → ScanSummary
count_malicious done m = record m {
  scanned = m.scanned + 1;
  malicious = m.malicious + 1;
  quarantined = if done then m.quarantined + 1 else m.quarantined;
}

-- The content, or what comes before a read error.
unfoldable pub delivered : Option ℕ → Bytes → Bytes
delivered none content = content
delivered (some n) content = take n content

-- What the stream of a file delivers: `breaks` has the number of bytes before a read error, if any.
unfoldable pub read_file : Bool → Option ℕ → Option RegularFile → Option Bytes
unfolding delivered
read_file opens breaks none = none
read_file opens breaks (some f) = if opens then some (delivered breaks f.content) else none

module _ {D T : Type 0} where
  unfoldable pub handle_cache_hit :
      Bool → FileInfo → FileVerdict → FileMetadata → ScanPipeline D T → ScanPipeline D T
  handle_cache_hit writable info verdict metadata s =
      let counted : ScanSummary = record (s.summary) { cached = s.summary.cached + 1 } in
      record s {
        summary =
            if_malicious verdict (record counted { malicious = s.summary.malicious + 1 }) counted;
        cache_manager = update (entry_of info metadata verdict) s.cache_manager;
        resume_manager =
            (file_completed writable info.relative_path
              (add_file info.relative_path s.resume_manager)).0;
      }

  unfoldable pub handle_cache_miss : FileInfo → FileMetadata → ScanPipeline D T → ScanPipeline D T
  handle_cache_miss info metadata s = record s {
    resume_manager = add_file info.relative_path s.resume_manager;
    tasks = s.tasks ++ record { info = info; metadata = metadata } ∷ [];
  }

  unfoldable pub handle_discovered_file : Bool → ℤ → FileInfo → ScanPipeline D T → ScanPipeline D T
  unfolding handle_cache_hit handle_cache_miss
  handle_discovered_file writable signatures_last_modified info s =
      let metadata = metadata_of info signatures_last_modified in
      let counted : ScanPipeline D T = record s {
        summary = record (s.summary) { discovered = s.summary.discovered + 1 };
      } in
      elim (cached_verdict info.path metadata s.cache_manager) [
        | some verdict ↦ handle_cache_hit writable info verdict metadata counted
        | none ↦ handle_cache_miss info metadata counted
      ]

  -- The rest of handleScanResult once quarantine has come back; where it throws, the exception leaves
  -- the task, and the worker swallows it.
  unfoldable pub after_quarantine :
      Bool
      → FileInfo
      → FileMetadata
      → ScanPipeline D T
      → QuarantineManager T × Outcome
      → ScanPipeline D T
  after_quarantine writable info metadata s (q, throws) = record s {
    summary = count_malicious false s.summary;
    quarantine_manager = q;
  }
  after_quarantine writable info metadata s (q, returns done) = record s {
    summary = count_malicious done s.summary;
    quarantine_manager = q;
    cache_manager = update (entry_of info metadata malicious) s.cache_manager;
    resume_manager = (file_completed writable info.relative_path s.resume_manager).0;
  }

  unfoldable pub count_clean : Bool → FileInfo → FileMetadata → ScanPipeline D T → ScanPipeline D T
  count_clean writable info metadata s = record s {
    summary = record (s.summary) { scanned = s.summary.scanned + 1 };
    cache_manager = update (entry_of info metadata clean) s.cache_manager;
    resume_manager = (file_completed writable info.relative_path s.resume_manager).0;
  }

module _ {D J T : Type 0} (json : Json J T) where
  unfoldable pub handle_scan_result :
      Running → FileInfo → FileMetadata → List Bytes → ScanPipeline D T → ScanPipeline D T
  unfolding count_clean after_quarantine
  handle_scan_result c info metadata [] s = count_clean c.writable info metadata s
  handle_scan_result c info metadata (g ∷ gs) s =
      after_quarantine c.writable info metadata s
        (quarantine json c.quarantining info.path (g ∷ gs) s.quarantine_manager)

  -- The task that handleCacheMiss enqueues, from the result of FileProcessor::process on.
  unfoldable pub handle_processed :
      Running → Task → Option (List Bytes) → ScanPipeline D T → ScanPipeline D T
  unfolding handle_scan_result
  handle_processed c t none s = record s {
    summary = record (s.summary) { failed = s.summary.failed + 1 };
    resume_manager = (file_completed c.writable t.info.relative_path s.resume_manager).0;
  }
  handle_processed c t (some signatures) s = handle_scan_result c t.info t.metadata signatures s

  unfoldable pub run_task :
      Automaton → List Bytes → Running → Task → ScanPipeline D T → ScanPipeline D T
  unfolding handle_processed
  run_task a signatures c t s =
      handle_processed c t
        (process a signatures (read_file c.opens c.breaks (s.quarantine_manager.files t.info.path)))
        s
