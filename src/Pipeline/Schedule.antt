-- ===== src/Pipeline/Schedule.antt =====
-- A scan as an interleaving: the walker's thread hands over the files of its listing in order and then
-- calls discoveryFinished; meanwhile queued tasks run, in any order. A task is one step: the counters
-- are atomic and the managers lock themselves.
use virus_detector.Base.{ℕ, ◌≡◌, Bool, Option, none, some, List, [], ◌∷◌, ◌++◌, Bytes, ℤ}
use virus_detector.Automaton.{Automaton}
use virus_detector.FileProcessor.{process}
use virus_detector.Metadata.{Json}
use virus_detector.Quarantine.{Outcome, returns, throws, QuarantineManager, quarantine}
use virus_detector.Cache.{CacheManager}
use virus_detector.Resume.Manager.{ResumeManager, discovery_finished}
use virus_detector.Traversal.{FileInfo}
use virus_detector.Pipeline.{
  no_files, Task, ScanPipeline, Running, read_file, handle_discovered_file, run_task,
}

-- The pipeline with what was handed over, what is left of the listing, and the paths of the files
-- whose tasks could not open them, met a read error or threw; and of these the relative paths of those that threw.
pub record Scan (D T : Type 0) : Type 0 where
  pub pipeline : ScanPipeline D T
  pub seen : List FileInfo
  pub left : List FileInfo
  pub faults : List Bytes
  pub thrown : List Bytes

-- Whether a task reads its file, and what its quarantine comes to.
pub data Ending : Type 0 where
  unread judged threw : Ending

unfoldable pub quarantine_ending : Outcome → Ending
quarantine_ending throws = threw
quarantine_ending (returns done) = judged

module _ {D J T : Type 0} (json : Json J T) where
  unfoldable pub ending : Running → Task → Option (List Bytes) → ScanPipeline D T → Ending
  ending c t none s = unread
  ending c t (some []) s = judged
  ending c t (some (g ∷ gs)) s =
      quarantine_ending (quarantine json c.quarantining t.info.path (g ∷ gs) s.quarantine_manager).1

-- The path is added where the task could not read the whole file, or its quarantine threw.
abbrev pub faulty : Ending → Option ℕ → Bytes → List Bytes → List Bytes
faulty unread b p ps = p ∷ ps
faulty judged none p ps = ps
faulty judged (some n) p ps = p ∷ ps
faulty threw b p ps = p ∷ ps

abbrev pub thrown_by : Ending → Bytes → List Bytes → List Bytes
thrown_by unread p ps = ps
thrown_by judged p ps = ps
thrown_by threw p ps = p ∷ ps

module _ {D J T : Type 0} (json : Json J T) (a : Automaton) (signatures : List Bytes)
    (time : ℤ) where
  -- The state after a task, with the other tasks left.
  abbrev pub after_task : Running → Task → List Task → Scan D T → Scan D T
  after_task c t rest s =
      let result =
        process a signatures
          (read_file c.opens c.breaks (s.pipeline.quarantine_manager.files t.info.path)) in
      let e = ending json c t result s.pipeline in
      record s {
        pipeline = record (run_task json a signatures c t s.pipeline) { tasks = rest };
        faults = faulty e c.breaks t.info.path s.faults;
        thrown = thrown_by e t.info.relative_path s.thrown;
      }

  abbrev pub after_discovery : Bool → FileInfo → List FileInfo → Scan D T → Scan D T
  after_discovery writable info rest s = record s {
    pipeline = handle_discovered_file writable time info s.pipeline;
    seen = s.seen ++ info ∷ [];
    left = rest;
  }

  abbrev pub after_finish : Bool → Scan D T → Scan D T
  after_finish writable s = record s {
    pipeline = record (s.pipeline) {
      resume_manager = (discovery_finished writable s.pipeline.resume_manager).0;
    };
  }

  -- `Writes` and `Meets` bound what the checkpoint file and the tasks meet.
  pub data Step (Writes : Bool → Type 0) (Meets : Running → Type 0) (s : Scan D T)
      : Scan D T → Type 0 where
    discovers :
        (writable : Bool) (info : FileInfo) (rest : List FileInfo)
        → Writes writable
        → s.left ≡ info ∷ rest
        → Step Writes Meets s (after_discovery writable info rest s)
    finishes :
        (writable : Bool)
        → Writes writable
        → s.left ≡ []
        → Step Writes Meets s (after_finish writable s)
    runs :
        (c : Running) (before after : List Task) (t : Task)
        → Writes c.writable
        → Meets c
        → s.pipeline.tasks ≡ before ++ t ∷ after
        → Step Writes Meets s (after_task c t (before ++ after) s)

  pub data Reach (Writes : Bool → Type 0) (Meets : Running → Type 0) (s : Scan D T)
      : Scan D T → Type 0 where
    here : Reach Writes Meets s s
    next :
        {t u : Scan D T} → Reach Writes Meets s t → Step Writes Meets t u → Reach Writes Meets s u

-- The scan before the first file, over a listing.
abbrev pub start :
    {D T : Type 0} → CacheManager D → ResumeManager → QuarantineManager T → List FileInfo → Scan D T
start c m q listing = record {
  pipeline = record {
    summary = no_files;
    cache_manager = c;
    resume_manager = m;
    quarantine_manager = q;
    tasks = [];
  };
  seen = [];
  left = listing;
  faults = [];
  thrown = [];
}
