-- ===== src/Pipeline/Whole.antt =====
-- ScanPipeline::scan around its walk: what it loads and builds before, and the commit after.
use virus_detector.Base.{
  ◌≡◌, refl, ◌⊎◌, inl, inr, Bool, true, false, Option, none, some, List, [], Bytes, codes, path_eq,
  ℤ, All, arith, Bool-cases, if◌then◌else◌,
}
use virus_detector.Automaton.{Automaton, build}
use virus_detector.Automaton.Insert.{AreBytes}
use virus_detector.Automaton.Correct.{build-IsAutomaton}
use virus_detector.Metadata.{Json}
use virus_detector.Cache.{
  Opening, Committing, Database, CacheManager, load as load_cache, commit_generation,
}
use virus_detector.Quarantine.{QuarantineManager, load as load_quarantine}
use virus_detector.Resume.Manager.{ResumeManager, begin}
use virus_detector.Resume.Tracking.{begin-no_files}
use virus_detector.Signature.{SignatureLoader, load as load_signatures}
use virus_detector.Traversal.{FileInfo}
use virus_detector.Pipeline.Schedule.{Scan, start}

-- What the loads meet: the content and the time of the signature file, how the database opens, whether
-- the quarantine's directory can be made and its metadata opened, and the checkpoint be written.
pub record Preparing : Type 0 where
  pub signature_file : Option Bytes
  pub write_time : Option ℤ
  pub database : Opening
  pub makes : Bool
  pub metadata_opens : Bool
  pub writable : Bool

pub record Prepared (D T : Type 0) : Type 0 where
  pub automaton : Automaton
  pub loader : SignatureLoader
  pub resumed_at : Bytes
  pub started : Scan D T

module _ {D J T : Type 0} (db : Database D) (json : Json J T) where
  -- From the signatures and their automaton on. `listing` is what the walk hands over from a resume
  -- point. The results of the loads of the cache and of the quarantine are ignored, as in the source.
  unfoldable pub prepare_with :
      Preparing
      → Bytes
      → (Bytes → List FileInfo)
      → CacheManager D
      → ResumeManager
      → QuarantineManager T
      → SignatureLoader
      → Automaton
      → Prepared D T
  prepare_with p root listing c m q loader a =
      let (m', resumed, _) = begin p.writable root m in
      let from = if resumed then m'.next_file else [] in
      record {
        automaton = a;
        loader = loader;
        resumed_at = from;
        started =
            start (load_cache db p.database c).0 m'
              (load_quarantine json p.makes p.metadata_opens q).0 (listing from);
      }

  -- `none`: aborted without signatures.
  unfoldable pub prepare :
      Preparing
      → Bytes
      → (Bytes → List FileInfo)
      → CacheManager D
      → ResumeManager
      → QuarantineManager T
      → Option (Prepared D T)
  unfolding prepare_with
  prepare p root listing c m q =
      let (loader, found) = load_signatures p.signature_file p.write_time in
      if found
      then elim (build loader.signatures) [
        | none ↦ none
        | some a ↦ some (prepare_with p root listing c m q loader a)
      ]
      else none

-- commitGeneration, with a prune after a scan of the whole system.
unfoldable pub commit : {D T : Type 0} → Database D → Committing → Bytes → Scan D T → Scan D T
commit db k root s = record s {
  pipeline = record (s.pipeline) {
    cache_manager = commit_generation db k (path_eq root (codes "/")) s.pipeline.cache_manager;
  };
}

-- A scan that is ready to walk.
pub record IsReady {D T : Type 0} (root : Bytes) (listing : Bytes → List FileInfo)
    (c : CacheManager D) (z : Prepared D T) : Type 0 where
  pub built : build z.loader.signatures ≡ some z.automaton
  pub clear : z.started.pipeline.resume_manager.unfinished_files ≡ []
  pub early : z.started.pipeline.resume_manager.discovery_finished ≡ false
  pub rooted : z.started.pipeline.resume_manager.root ≡ root
  pub cache : z.started.pipeline.cache_manager ≡ c
  pub idle : z.started.pipeline.tasks ≡ []
  pub whole : z.started.left ≡ listing z.resumed_at

pub begin_root :
    (writable : Bool) (root : Bytes) (m : ResumeManager)
    → ((begin writable root m).0.root ≡ root)
      × ((begin writable root m).0.discovery_finished ≡ false)
unfolding begin
begin_root true root m = ground arith
begin_root false root m = ground arith

module _ {D J T : Type 0} (db : Database D) (json : Json J T) where
  -- A scan is aborted exactly when the signature file cannot be read or has no signature in it.
  -- Otherwise, whatever the other loads come to, it is ready: the automaton is that of the signatures,
  -- the checkpoint's manager is one for this root with no file unfinished and discovery ahead, and
  -- the walk goes from the resume point. The signatures are of bytes.
  pub prepare-IsReady :
      (p : Preparing) (root : Bytes) (listing : Bytes → List FileInfo) (c : CacheManager D)
      (m : ResumeManager) (q : QuarantineManager T)
      → let loaded = load_signatures p.signature_file p.write_time in
        All AreBytes loaded.0.signatures
        → ((loaded.1 ≡ false) × (prepare db json p root listing c m q ≡ none))
          ⊎ ((z : Prepared D T) × (loaded.1 ≡ true)
              × (prepare db json p root listing c m q ≡ some z)
              × IsReady root listing (load_cache db p.database c).0 z)
  unfolding prepare prepare_with
  prepare-IsReady p root listing c m q small =
      let loaded = load_signatures p.signature_file p.write_time in
      let (a, built, _, _, _) = build-IsAutomaton loaded.0.signatures small in
      let (rooted, early) = begin_root p.writable root m in
      elim (Bool-cases loaded.1) [
        | inr e ↦ inl (e, rw e refl)
        | inl e ↦ inr (
          prepare_with db json p root listing c m q loaded.0 a,
          e,
          rw (e, built) refl,
          record {
            built = built;
            clear = begin-no_files p.writable root m;
            early = early;
            rooted = rooted;
            cache = refl;
            idle = refl;
            whole = refl;
          },
        )
      ]
