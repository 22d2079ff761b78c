-- ===== src/Pipeline/Again.antt =====
-- A whole scan, with the load of the cache before it and the commit after it, and the run after it.
use virus_detector.Base.{
  path_eq, ℕ, suc, ◌^◌, ◌<◌, ◌≤◌, ◌≡◌, refl, sym, ap, ◌∙◌, subst, inl, inr, Bool, Option, some,
  List, [], Bytes, codes, ℤ, In,
}
use mathlib.Core.Option.{some-injective}
use virus_detector.Automaton.{Automaton}
use virus_detector.Metadata.{Json}
use virus_detector.Cache.{
  FileVerdict, Database, cached_verdict, verdict_for, last_completed, commit_generation, committing,
}
use virus_detector.Cache.Rows.{IsWord, IsPast, latest, expected}
use virus_detector.Cache.NextRun.{loaded, ran_lookup}
use virus_detector.Quarantine.{QuarantineManager}
use virus_detector.Resume.Manager.{ResumeManager}
use virus_detector.Traversal.{FileInfo}
use virus_detector.Pipeline.{metadata_of, entry_of}
use virus_detector.Pipeline.Schedule.{Scan, Reach, start}
use virus_detector.Pipeline.Judged.{times, paths, IsSettled, IsJudged}
use virus_detector.Pipeline.Whole.{commit}
use virus_detector.Pipeline.Verdicts.{
  IsOutside, Reach-IsJudged, In-All, left_settled, metadata_eq_refl, found_cached,
}

module _ {D J T : Type 0} (db : Database D) (json : Json J T) (a : Automaton)
    (signatures : List Bytes) (time : ℤ) (Writes : Bool → Type 0) (d : D) (file : Option ℕ)
    (m : ResumeManager) (q : QuarantineManager T) (listing : List FileInfo)
    (distinct : (p : Bytes) → times p (paths listing) ≤ 1) where
  -- The verdict of a scan outlives it: when a scan over the loaded cache has handed over its listing and
  -- has no task left, and commits its generation, then a file that it could read to its end and whose
  -- quarantine did not throw has a verdict there, and the next run, with the same signatures, finds the same one
  -- for the file if its size and time have not changed, whether or not the whole system was scanned.
  -- The listing names no path twice, the quarantine's places are not in it, and the writes of the
  -- commit succeed. Generations are below 2^63, the size has 64 bits, and the file's row was completed
  -- before.
  pub scanned-cached_verdict :
      (s : Scan D T) (root : Bytes) (info : FileInfo)
      → Reach json a signatures time Writes
          (IsOutside listing)
          (start (loaded db d file) m q listing)
          s
      → s.left ≡ []
      → s.pipeline.tasks ≡ []
      → In info listing
      → ¬ In info.path s.faults
      → suc (suc (last_completed file)) < 2 ^ 63
      → IsWord info.size
      → IsPast (last_completed file) (db.row info.path d)
      → let d_info = metadata_of info time in
        let after = (commit db committing root s).pipeline.cache_manager in
        (v : FileVerdict) × (cached_verdict info.path d_info s.pipeline.cache_manager ≡ some v)
        × (cached_verdict info.path d_info (loaded db after.storage after.generation_file) ≡ some v)
  unfolding verdict_for commit
  scanned-cached_verdict s root info path over idle n sound h word past =
      let full = path_eq root (codes "/") in
      let c = loaded db d file in
      let d_info = metadata_of info time in
      let j = Reach-IsJudged json a signatures time Writes c m q listing distinct s path in
      let (v, at_info) =
        elim (In-All (IsSettled a signatures time c q.files j.made s.faults) info j.settled
            (settled j) j.right)
          as (λ z. (v : FileVerdict) × (latest info.path j.made ≡ some (entry_of info d_info v))) [
            | inl fault ↦ absurd (sound fault)
            | inr (v, at_info, right) ↦ (v, at_info)
          ] in
      (
        v,
        found_cached info time v s.pipeline.cache_manager j.made c j.cache at_info,
        ap
              (λ k.
                let after = commit_generation db committing full k in
                cached_verdict info.path d_info (loaded db after.storage after.generation_file))
              j.cache
            ∙ ran_lookup db full j.made d file info.path d_info h
                (λ e at_e.
                  subst (λ z. IsWord z.metadata.size)
                    (some-injective (entry_of info d_info v) e (sym at_info ∙ at_e)) word)
                past
            ∙ ap (λ l. expected full d_info l (cached_verdict info.path d_info c)) at_info
            ∙ rw (metadata_eq_refl d_info) refl,
      )
    where
      settled :
          (j : IsJudged a signatures time (loaded db d file) q.files listing s) → In info j.settled
      settled j =
          left_settled a signatures time (loaded db d file) q.files listing s j info over idle n
