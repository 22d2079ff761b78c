-- ===== src/Pipeline/Discovered.antt =====
-- handleDiscoveredFile by what the cache answers.
use virus_detector.Base.{◌+◌, ◌≡◌, refl, Bool, none, some, ℤ}
use virus_detector.Cache.{FileVerdict, cached_verdict}
use virus_detector.Traversal.{FileInfo}
use virus_detector.Pipeline.{
  ScanPipeline, handle_cache_hit, handle_cache_miss, handle_discovered_file, metadata_of,
}

module _ {D T : Type 0} where
  abbrev pub counted : ScanPipeline D T → ScanPipeline D T
  counted s = record s { summary = record (s.summary) { discovered = s.summary.discovered + 1 } }

  pub discovered_hit :
      (writable : Bool) (time : ℤ) (info : FileInfo) (s : ScanPipeline D T) (v : FileVerdict)
      → cached_verdict info.path (metadata_of info time) s.cache_manager ≡ some v
      → handle_discovered_file writable time info s
        ≡ handle_cache_hit writable info v (metadata_of info time) (counted s)
  unfolding handle_discovered_file
  discovered_hit writable time info s v e = rw (e, handle_discovered_file) refl

  pub discovered_miss :
      (writable : Bool) (time : ℤ) (info : FileInfo) (s : ScanPipeline D T)
      → cached_verdict info.path (metadata_of info time) s.cache_manager ≡ none
      → handle_discovered_file writable time info s
        ≡ handle_cache_miss info (metadata_of info time) (counted s)
  unfolding handle_discovered_file
  discovered_miss writable time info s e = rw (e, handle_discovered_file) refl
