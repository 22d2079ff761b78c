-- ===== src/Pipeline/Prepared.antt =====
-- What prepare makes of a listing and a checkpoint file.
use virus_detector.Base.{
  ◌≡◌, refl, sym, ap, ◌∙◌, subst, inl, inr, none, some, List, [], Bytes, path_parts, Bool-cases,
  Option-cases,
}
use mathlib.Core.Option.{some-injective}
use virus_detector.Automaton.{Automaton, build}
use virus_detector.Metadata.{Json}
use virus_detector.Quarantine.{QuarantineManager}
use virus_detector.Cache.{Database, CacheManager}
use virus_detector.Signature.{load as load_signatures}
use virus_detector.Resume.Manager.{ResumeManager, fresh}
use virus_detector.Resume.Restarted.{fresh_point}
use virus_detector.Traversal.{FileInfo}
use virus_detector.Traversal.Listing.{Listed, kept, kept_all}
use virus_detector.Traversal.InOrder.{handed}
use virus_detector.Pipeline.Whole.{Preparing, Prepared, prepare, prepare_with}

pub kept_none : (fs : List Listed) → kept (path_parts []) fs ≡ fs
unfolding path_parts
kept_none fs = kept_all fs

module _ {D J T : Type 0} (db : Database D) (json : Json J T) where
  pub prepare-some :
      (p : Preparing) (root : Bytes) (listing : Bytes → List FileInfo) (c : CacheManager D)
      (m : ResumeManager) (q : QuarantineManager T) (z : Prepared D T)
      → prepare db json p root listing c m q ≡ some z
      → let loader = (load_signatures p.signature_file p.write_time).0 in
        (a : Automaton) × (z ≡ prepare_with db json p root listing c m q loader a)
  unfolding prepare
  prepare-some p root listing c m q z h =
      let loaded = load_signatures p.signature_file p.write_time in
      elim (Bool-cases loaded.1) [
        | inr e ↦ let bad : none ≡ some z = rw e at h in (cc)
        | inl e ↦ elim (Option-cases (build loaded.0.signatures)) [
          | inl b ↦ let bad : none ≡ some z = rw (e, b) at h in (cc)
          | inr (a, b) ↦ (a, sym (some-injective _ z (rw (e, b) at h)))
        ]
      ]

  -- What is handed over is the listing from the resume point; without a checkpoint file, all of it.
  pub prepared-left :
      (es : List Listed) (p : Preparing) (root : Bytes) (c : CacheManager D)
      (q : QuarantineManager T) (m : ResumeManager) (z : Prepared D T)
      → prepare db json p root (handed es) c m q ≡ some z
      → z.started.left ≡ handed es z.resumed_at
  unfolding prepare_with
  prepared-left es p root c q m z made =
      let (a, at_z) = prepare-some p root (handed es) c m q z made in
      subst (λ y. y.started.left ≡ handed es y.resumed_at) (sym at_z) refl

  pub prepared_first :
      (es : List Listed) (p : Preparing) (root : Bytes) (c : CacheManager D)
      (q : QuarantineManager T) (z : Prepared D T)
      → prepare db json p root (handed es) c (fresh none) q ≡ some z
      → kept (path_parts z.resumed_at) es ≡ es
  unfolding prepare_with
  prepared_first es p root c q z made =
      let (a, at_z) = prepare-some p root (handed es) c (fresh none) q z made in
      subst (λ y. kept (path_parts y.resumed_at) es ≡ es) (sym at_z)
        (ap (λ x. kept (path_parts x) es) (fresh_point p.writable root) ∙ kept_none es)
