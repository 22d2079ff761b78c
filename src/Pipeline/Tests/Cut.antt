-- ===== src/Pipeline/Tests/Cut.antt =====
-- A file whose signature is behind the read error.
use virus_detector.Base.{
  ℕ, drop, get_or, ◌≡◌, ◌≢◌, refl, ap, ◌∙◌, inl, inr, true, some, [], ◌∷◌, ◌++◌, Bytes, codes, pos,
  arith, bytes_eq,
}
use virus_detector.Cache.{clean, cached_verdict}
use virus_detector.Metadata.Tests.{values_json}
use virus_detector.Pipeline.{Running}
use virus_detector.Pipeline.Cut.{cut-cached_verdict}
use virus_detector.Pipeline.Schedule.{after_task}
use virus_detector.Pipeline.Verdicts.{IsInfected}
use virus_detector.Pipeline.Tests.{
  bad, built, found, info, quarantining, signatures, signatures-AreBytes, task,
}

-- One byte is read, and the signature is the second.
abbrev cut : Running
cut = record { writable = true; opens = true; breaks = some 1; quarantining = quarantining }

not_empty : (c : ℕ) (x z : Bytes) → [] ≢ x ++ c ∷ z
not_empty c [] z e = cc
not_empty c (d ∷ x) z e = cc

not_within : (x z : Bytes) → 120 ∷ [] ≢ x ++ 69 ∷ z
not_within [] z e = omega (arith, ap (λ s. get_or s 0 0) e)
not_within (c ∷ x) z e = not_empty 69 x z (ap (drop 1) e)

not_delivered : ¬ IsInfected signatures (codes "x")
not_delivered (s, inl same, ne, (x, z, e)) = not_within x z (e ∙ ap (λ s. x ++ (s ++ z)) same)
not_delivered (s, inr m, ne, w) = absurd m

there : (found built.0).pipeline.quarantine_manager.files task.info.path ≡ some bad
unfolding bytes_eq virus_detector.Pipeline.handle_discovered_file
    virus_detector.Pipeline.handle_cache_miss cached_verdict virus_detector.Cache.verdict_for
    virus_detector.Cache.load virus_detector.Cache.last_completed virus_detector.Cache.load_all
    virus_detector.Cache.map_row
there = refl

cut-cached_verdict_example :
    let after = after_task values_json built.0 signatures (pos 7) cut task [] (found built.0) in
    cached_verdict info.path task.metadata after.pipeline.cache_manager ≡ some clean
cut-cached_verdict_example =
    cut-cached_verdict values_json built.0 signatures (pos 7) cut 1 task [] (found built.0) bad
      built.1 signatures-AreBytes (omega arith, (omega arith, tt)) there refl refl not_delivered
