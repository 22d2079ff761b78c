-- ===== src/Pipeline/Cut.antt =====
-- What a read error in the middle of a file comes to.
use virus_detector.Base.{
  ℕ, ◌<◌, All-take, In, ◌≡◌, refl, sym, ap, ◌∙◌, inl, true, some, List, [], ◌∷◌, Bytes,
  bytes_eq_refl, ℤ, All, take,
}
use virus_detector.Automaton.{Automaton, build}
use virus_detector.Automaton.Insert.{AreBytes}
use virus_detector.FileProcessor.{process}
use virus_detector.FileProcessor.Process.{process-IsInfix}
use virus_detector.Metadata.{Json}
use virus_detector.Cache.{clean, cached_verdict}
use virus_detector.Cache.Rows.{updates, latest}
use virus_detector.Cache.InRun.{latest-cached_verdict}
use virus_detector.Files.{RegularFile}
use virus_detector.Pipeline.{
  Task, Running, ScanPipeline, read_file, entry_of, handle_processed, handle_scan_result,
  count_clean, run_task,
}
use virus_detector.Pipeline.Schedule.{Scan, after_task}
use virus_detector.Pipeline.Verdicts.{IsInfected}
use mathlib.Core.Option.{some-injective}

-- Without an infection of what is delivered, process finds nothing.
process_clean :
    (a : Automaton) (signatures : List Bytes) (content : Bytes)
    → build signatures ≡ some a
    → All AreBytes signatures
    → AreBytes content
    → ¬ IsInfected signatures content
    → process a signatures (some content) ≡ some []
process_clean a signatures content built small small_content healthy =
    let (b, built', failed, exact) = process-IsInfix signatures small in
    let (r, found, sorted, members) = exact content small_content in
    ap (λ z. process z signatures (some content)) (some-injective a b (sym built ∙ built'))
    ∙ found
    ∙ ap some
        (nothing r (λ s m. let (i, ne, occurs) = (members s).0 m in healthy (s, i, ne, occurs)))
  where
    nothing : (r : List Bytes) → ((s : Bytes) → ¬ In s r) → r ≡ []
    nothing [] h = refl
    nothing (g ∷ gs) h = absurd (h g (inl refl))

module _ {D J T : Type 0} (json : Json J T) (a : Automaton) (signatures : List Bytes)
    (time : ℤ) where
  -- A file in which nothing is found is cached as clean.
  counted :
      (k : Running) (t : Task) (p : ScanPipeline D T)
      → cached_verdict t.info.path t.metadata (handle_processed json k t (some []) p).cache_manager
        ≡ some clean
  unfolding handle_processed handle_scan_result count_clean updates latest
  counted k t p =
      let entry = entry_of t.info t.metadata clean in
      let listed : latest t.info.path (entry ∷ []) ≡ some entry =
        rw (bytes_eq_refl t.info.path) refl in
      (((latest-cached_verdict (entry ∷ []) p.cache_manager t.info.path t.metadata).0 entry
          listed).0)
        refl

  -- A read error ends the loop of process as the end of the file does: when a task's file is opened and
  -- a read fails before any signature has been delivered whole, the file is cached as clean with its
  -- metadata, also where its content is infected. The automaton is that of the signatures, and these
  -- and the content are of bytes.
  pub cut-cached_verdict :
      (k : Running) (n : ℕ) (t : Task) (rest : List Task) (s : Scan D T) (f : RegularFile)
      → build signatures ≡ some a
      → All AreBytes signatures
      → AreBytes f.content
      → s.pipeline.quarantine_manager.files t.info.path ≡ some f
      → k.opens ≡ true
      → k.breaks ≡ some n
      → ¬ IsInfected signatures (take n f.content)
      → cached_verdict t.info.path t.metadata
          (after_task json a signatures time k t rest s).pipeline.cache_manager
        ≡ some clean
  unfolding run_task read_file
  cut-cached_verdict k n t rest s f built small small_content there opened broken healthy =
      let read : read_file k.opens k.breaks (s.pipeline.quarantine_manager.files t.info.path)
          ≡ some (take n f.content) =
        rw (opened, broken, there) refl in
      let found : process a signatures
            (read_file k.opens k.breaks (s.pipeline.quarantine_manager.files t.info.path))
          ≡ some [] =
        ap (process a signatures) read
        ∙ process_clean a signatures (take n f.content) built small
            (All-take (λ b. b < 256) n f.content small_content) healthy in
      ap
        (λ r.
          cached_verdict t.info.path t.metadata
            (handle_processed json k t r s.pipeline).cache_manager)
        found
      ∙ counted k t s.pipeline
