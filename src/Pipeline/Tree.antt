-- ===== src/Pipeline/Tree.antt =====
-- A whole scan of a tree, from what it loads to its last task.
use virus_detector.Base.{
  ◌≤◌, ◌≡◌, refl, sym, ap, ◌∙◌, subst, ◌⊎◌, inl, inr, Bool, true, false, none, some, List, [], ◌∷◌,
  Bytes, bytes_eq, bytes_eq→eq, bytes_lt, bytes_lt_irrefl, absolute, path_parts, IsName, In, map,
  All, arith, Bool-cases, not_both,
}
use mathlib.Core.Option.{some-injective}
use virus_detector.Automaton.{build}
use virus_detector.Automaton.Insert.{AreBytes}
use virus_detector.Exclude.{PathRules, is_root_inside_excluded_path}
use virus_detector.Metadata.{Json}
use virus_detector.Files.{RegularFile}
use virus_detector.Quarantine.{QuarantineManager}
use virus_detector.Cache.{FileVerdict, Database, CacheManager, cached_verdict}
use virus_detector.Resume.Manager.{ResumeManager}
use virus_detector.Resume.PathFilter.{before}
use virus_detector.Resume.Checkpoint.{IsBefore, IsAscending}
use virus_detector.Signature.{load as load_signatures}
use virus_detector.Traversal.{FileInfo, Children, lexically_relative}
use virus_detector.Traversal.Listing.{Listed, kept, list_root}
use virus_detector.Traversal.InOrder.{relative_of, handed, kept-IsAscending, In-map}
use virus_detector.Traversal.Walked.{walked, walked-handed}
use virus_detector.Traversal.Tidy.{AreTidy}
use virus_detector.Traversal.Named.{IsNamed, list_root-IsNamed, list_root-IsInOrder}
use virus_detector.Pipeline.{metadata_of}
use virus_detector.Pipeline.Judged.{times, paths}
use virus_detector.Pipeline.Schedule.{Scan, Reach}
use virus_detector.Pipeline.Verdicts.{IsOutside, IsVerdict, ended-cached_verdict}
use virus_detector.Pipeline.Prepared.{prepare-some}
use virus_detector.Pipeline.Whole.{
  Preparing, Prepared, prepare, prepare_with, IsReady, prepare-IsReady,
}

-- Of files in the order of their relative paths, which their paths give, no path is there twice.
module _ (relative : Bytes → Bytes) where
  abbrev Gives : Listed → Type 0
  Gives e = relative_of e ≡ relative e.1.path

  times_missing :
      (e : Listed) (es : List Listed)
      → Gives e
      → All Gives es
      → IsBefore (relative_of e) (map relative_of es)
      → times e.1.path (paths (map (λ f. f.1) es)) ≡ 0
  unfolding times
  times_missing e [] h k b = refl
  times_missing e (f ∷ es) h k b = elim (Bool-cases (bytes_eq f.1.path e.1.path)) [
    | inl same ↦
        let meet : relative_of f ≡ relative_of e =
          k.0 ∙ ap relative (bytes_eq→eq f.1.path e.1.path same) ∙ sym h in
        absurd (
          not_both (bytes_lt (relative_of e) (relative_of e))
            (ap (bytes_lt (relative_of e)) (sym meet) ∙ b.0) (bytes_lt_irrefl (relative_of e)))
    | inr other ↦ rw other (omega (arith, times_missing e es h k.1 b.1))
  ]

  times_ordered :
      (p : Bytes) (es : List Listed)
      → All Gives es
      → IsAscending (map relative_of es)
      → times p (paths (map (λ f. f.1) es)) ≤ 1
  unfolding times
  times_ordered p [] k a = omega arith
  times_ordered p (e ∷ es) k a = elim (Bool-cases (bytes_eq e.1.path p)) [
    | inl same ↦ rw same (
        omega (
          arith,
          times_missing e es k.0 k.1 a.0,
          ap (λ q. times q (paths (map (λ f. f.1) es))) (bytes_eq→eq e.1.path p same),
        ))
    | inr other ↦ rw other (omega (arith, times_ordered p es k.1 a.1))
  ]

kept-All :
    (P : Listed → Type 0) (ps : List Bytes) (es : List Listed) → All P es → All P (kept ps es)
unfolding kept
kept-All P ps [] h = tt
kept-All P ps (e ∷ es) h = elim (Bool-cases (before e.0 ps)) [
  | inl b ↦ rw b (kept-All P ps es h.1)
  | inr b ↦ rw b (h.0, kept-All P ps es h.1)
]

All-map :
    (P Q : Listed → Type 0) (es : List Listed) → ((e : Listed) → P e → Q e) → All P es → All Q es
All-map P Q [] f h = tt
All-map P Q (e ∷ es) f h = (f e h.0, All-map P Q es f h.1)

-- What a scan comes to for a file: its task could not open it or not read it to its end, or its
-- quarantine threw, or it is cached with the right verdict.
abbrev pub IsJudgedRightly : {D T : Type 0} → Prepared D T → Scan D T → FileInfo → Type 0
IsJudgedRightly z s info =
    let d = metadata_of info z.loader.last_modified in
    let begun = z.started.pipeline in
    In info.path s.faults
    ⊎ ((v : FileVerdict) × (cached_verdict info.path d s.pipeline.cache_manager ≡ some v)
        × ((cached_verdict info.path d begun.cache_manager ≡ some v)
            ⊎ ((cached_verdict info.path d begun.cache_manager ≡ none)
                × ((f : RegularFile) × (begun.quarantine_manager.files info.path ≡ some f)
                    × IsVerdict z.loader.signatures f.content v))))

module _ {D J T : Type 0} (db : Database D) (json : Json J T) (Writes : Bool → Type 0)
    (rules : PathRules) (excluded : List Bytes) (rs : List Bytes) (opens : Bool) (cs : Children)
    (names : All IsName rs) (tidy : AreTidy cs) where
  abbrev pub tree_files : List Listed
  tree_files = list_root rules excluded (absolute rs) opens cs

  -- A listing of the tree names no path twice.
  handed-times : (from p : Bytes) → times p (paths (handed tree_files from)) ≤ 1
  handed-times from p =
      let relative : Bytes → Bytes = λ x. lexically_relative x (absolute rs) in
      times_ordered relative p (kept (path_parts from) tree_files)
        (kept-All (Gives relative) (path_parts from) tree_files (
          All-map (IsNamed (absolute rs) []) (Gives relative) tree_files (λ e h. h.2)
            (list_root-IsNamed rules excluded rs names opens cs tidy)))
        (kept-IsAscending (path_parts from) tree_files
          (list_root-IsInOrder rules excluded rs names opens cs tidy))

  -- A state of the scan, of files and signatures of bytes.
  abbrev IsOver : Prepared D T → Scan D T → Type 0
  IsOver z s =
      (build z.loader.signatures ≡ some z.automaton)
      × All AreBytes z.loader.signatures
      × ((p : Bytes) (f : RegularFile)
          → z.started.pipeline.quarantine_manager.files p ≡ some f
          → AreBytes f.content)
      × Reach json z.automaton z.loader.signatures z.loader.last_modified Writes
          (IsOutside z.started.left) z.started s
      × (s.left ≡ [])
      × (s.pipeline.tasks ≡ [])

  judged_with :
      (p : Preparing) (c : CacheManager D) (m : ResumeManager) (q : QuarantineManager T)
      (z : Prepared D T) (s : Scan D T) (e : Listed)
      → prepare db json p (absolute rs) (handed tree_files) c m q ≡ some z
      → IsOver z s
      → In e (kept (path_parts z.resumed_at) tree_files)
      → IsJudgedRightly z s e.1
  unfolding prepare_with
  judged_with p c m q z s e made over listed =
      let loader = (load_signatures p.signature_file p.write_time).0 in
      let (a, at_z) = prepare-some db json p (absolute rs) (handed tree_files) c m q z made in
      subst
        (λ y.
          IsOver y s → In e (kept (path_parts y.resumed_at) tree_files) → IsJudgedRightly y s e.1)
        (sym at_z)
        (λ (built, small, small_files, path, left, idle) n.
          let y = prepare_with db json p (absolute rs) (handed tree_files) c m q loader a in
          ended-cached_verdict json a loader.signatures loader.last_modified Writes
            y.started.pipeline.cache_manager y.started.pipeline.resume_manager
            y.started.pipeline.quarantine_manager (handed tree_files y.resumed_at)
            (handed-times y.resumed_at) s built small small_files path left idle e.1
            (In-map (λ f. f.1) e (kept (path_parts y.resumed_at) tree_files) n))
        over listed

  -- ScanPipeline::scan of a tree, from its loads to its last task. Let it be prepared, and its walk and
  -- its tasks have come to an end, in any interleaving and whichever calls fail. Then each file of the
  -- tree that is not before the resume point either is one that its task could not open or not read to
  -- its end, or whose quarantine threw, or is cached with a verdict: the one that the cache had when it
  -- was loaded, or else `malicious` when one of the signatures loaded occurs in the content that the
  -- file had at the start, and `clean` when none does. The walk is FileTreeWalker::walk of a directory,
  -- which is not refused as a scan root. The tree is tidy: the names beside each other in a directory
  -- differ and have no slash, and none continues that of a directory with a byte below '/'. The root is
  -- an absolute path of names, the quarantine's places are not in what is handed over, and the
  -- signatures and the contents are of bytes.
  pub prepare-cached_verdict :
      (p : Preparing) (c : CacheManager D) (m : ResumeManager) (q : QuarantineManager T)
      (z : Prepared D T) (s : Scan D T) (e : Listed)
      → is_root_inside_excluded_path rules excluded (absolute rs) ≡ false
      → All AreBytes (load_signatures p.signature_file p.write_time).0.signatures
      → prepare db json p (absolute rs) (walked rules excluded (absolute rs) opens cs) c m q
        ≡ some z
      → ((path : Bytes) (f : RegularFile)
          → z.started.pipeline.quarantine_manager.files path ≡ some f
          → AreBytes f.content)
      → Reach json z.automaton z.loader.signatures z.loader.last_modified Writes
          (IsOutside z.started.left)
          z.started
          s
      → s.left ≡ []
      → s.pipeline.tasks ≡ []
      → In e (kept (path_parts z.resumed_at) (list_root rules excluded (absolute rs) opens cs))
      → IsJudgedRightly z s e.1
  unfolding prepare_with
  prepare-cached_verdict p c m q z s e admitted small from_walk small_files path left idle listed =
      let made : prepare db json p (absolute rs) (handed tree_files) c m q ≡ some z =
        subst (λ l. prepare db json p (absolute rs) l c m q ≡ some z)
          (walked-handed rules excluded (absolute rs) opens cs admitted) from_walk in
      let (a, at_z) = prepare-some db json p (absolute rs) (handed tree_files) c m q z made in
      judged_with p c m q z s e made
        (
          is_built made (prepare-IsReady db json p (absolute rs) (handed tree_files) c m q small),
          subst (λ y. All AreBytes y.loader.signatures) (sym at_z) small,
          small_files,
          path,
          left,
          idle,
        )
        listed
    where
      is_built :
          prepare db json p (absolute rs) (handed tree_files) c m q ≡ some z
          → let read = load_signatures p.signature_file p.write_time in
            ((read.1 ≡ false) × (prepare db json p (absolute rs) (handed tree_files) c m q ≡ none))
              ⊎ ((y : Prepared D T) × (read.1 ≡ true)
                  × (prepare db json p (absolute rs) (handed tree_files) c m q ≡ some y)
                  × IsReady
                      (absolute rs)
                      (handed tree_files)
                      (virus_detector.Cache.load db p.database c).0
                      y)
            → build z.loader.signatures ≡ some z.automaton
      is_built made (inl (e, none_made)) = let bad : none ≡ some z = sym none_made ∙ made in (cc)
      is_built made (inr (y, e, made_y, ready)) =
          subst (λ x. build x.loader.signatures ≡ some x.automaton)
            (some-injective y z (sym made_y ∙ made)) ready.built
