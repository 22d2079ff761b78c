-- ===== src/Pipeline/Verdicts.antt =====
-- What a scan makes of each file of its listing, over any interleaving of the walk and the tasks.
use virus_detector.Base.{
  ◌≤◌, ◌≡◌, ◌≢◌, refl, sym, ap, ◌∙◌, subst, ◌⊎◌, inl, inr, Bool, true, false, none, some, List, [],
  ◌∷◌, ◌++◌, ◌↔◌, map, Bytes, ℤ, In, All, arith, int_eq_iff,
}
use mathlib.Core.Option.{some-injective}
use virus_detector.Automaton.{Automaton, build}
use virus_detector.Automaton.Insert.{AreBytes}
use virus_detector.FileProcessor.{process}
use virus_detector.FileProcessor.Process.{process-IsInfix, IsInfix}
use virus_detector.Metadata.{Json}
use virus_detector.Cache.{
  FileVerdict, clean, malicious, FileMetadata, CacheEntry, CacheManager, cached_verdict,
  verdict_for, metadata_eq,
}
use virus_detector.Cache.Rows.{updates, latest, expected}
use virus_detector.Cache.InRun.{updates-cached_verdict}
use virus_detector.Files.{RegularFile, Files}
use virus_detector.Quarantine.{QuarantineManager}
use virus_detector.Resume.Manager.{ResumeManager}
use virus_detector.Traversal.{FileInfo}
use virus_detector.Pipeline.{Running, metadata_of, entry_of}
use virus_detector.Pipeline.Schedule.{Scan, Reach, here, next, discovers, finishes, runs, start}
use virus_detector.Pipeline.Judged.{times, paths, verdict_of, IsSettled, IsJudged}
use virus_detector.Pipeline.Judging.{discovers-IsJudged}
use virus_detector.Pipeline.Ran.{runs-IsJudged}

-- The place of a quarantine is no file of the listing.
abbrev pub IsOutside : List FileInfo → Running → Type 0
IsOutside listing k = times k.quarantining.destination (paths listing) ≡ 0

-- A non-empty signature occurs in the content.
abbrev pub IsInfected : List Bytes → Bytes → Type 0
IsInfected signatures content = (s : Bytes) × In s signatures × (s ≢ []) × IsInfix s content

abbrev pub IsVerdict : List Bytes → Bytes → FileVerdict → Type 0
IsVerdict signatures content v =
    ((v ≡ malicious) × IsInfected signatures content)
    ⊎ ((v ≡ clean) × (¬ IsInfected signatures content))

pub metadata_eq_refl : (d : FileMetadata) → metadata_eq d d ≡ true
unfolding metadata_eq
metadata_eq_refl d =
    rw
      (
        (int_eq_iff d.last_modified d.last_modified).1 refl,
        (int_eq_iff d.signatures_last_modified d.signatures_last_modified).1 refl,
      )
      (ground arith)

pub found_cached :
    {D : Type 0} (info : FileInfo) (time : ℤ) (v : FileVerdict) (m : CacheManager D)
    (es : List CacheEntry) (c : CacheManager D)
    → m ≡ updates es c
    → latest info.path es ≡ some (entry_of info (metadata_of info time) v)
    → cached_verdict info.path (metadata_of info time) m ≡ some v
unfolding verdict_for
found_cached info time v m es c e at_info =
    let d = metadata_of info time in
    ap (cached_verdict info.path d) e
    ∙ updates-cached_verdict es c info.path d
    ∙ ap (λ l. expected false d l (cached_verdict info.path d c)) at_info
    ∙ rw (metadata_eq_refl d) refl

pub process-IsVerdict :
    (a : Automaton) (signatures : List Bytes) (content : Bytes) (r : List Bytes)
    → All AreBytes signatures
    → AreBytes content
    → build signatures ≡ some a
    → process a signatures (some content) ≡ some r
    → IsVerdict signatures content (verdict_of r)
process-IsVerdict a signatures content r small small_content built found =
    let (b, built', failed, exact) = process-IsInfix signatures small in
    let (r', found', sorted, members) = exact content small_content in
    let same : r ≡ r' = some-injective r r' (
      sym found
      ∙ ap (λ z. process z signatures (some content)) (some-injective a b (sym built ∙ built'))
      ∙ found') in
    judge r (λ s.
      subst (λ z. In s z ↔ (In s signatures × (s ≢ []) × IsInfix s content)) (sym same) (members s))
  where
    judge :
        (r : List Bytes)
        → ((s : Bytes) → In s r ↔ (In s signatures × (s ≢ []) × IsInfix s content))
        → IsVerdict signatures content (verdict_of r)
    judge [] members =
        unfold verdict_of in inr (refl, λ (s, m, ne, occurs). (members s).1 (m, ne, occurs))
    judge (g ∷ gs) members =
        unfold verdict_of in
        let (m, ne, occurs) = (members g).0 (inl refl) in inl (refl, (g, m, ne, occurs))

pub In-All : {A : Type 0} (P : A → Type 0) (x : A) (xs : List A) → In x xs → All P xs → P x
In-All P x [] n h = absurd n
In-All P x (y ∷ ys) (inl e) h = subst P (sym e) h.0
In-All P x (y ∷ ys) (inr n) h = In-All P x ys n h.1

-- With nothing left and no task, a file of the listing is settled.
pub left_settled :
    {D T : Type 0} (a : Automaton) (signatures : List Bytes) (time : ℤ) (c : CacheManager D)
    (files : Files) (listing : List FileInfo) (s : Scan D T)
    (j : IsJudged a signatures time c files listing s) (info : FileInfo)
    → s.left ≡ []
    → s.pipeline.tasks ≡ []
    → In info listing
    → In info j.settled
left_settled a signatures time c files listing s j info over idle n = elim (j.members info n) [
  | inl l ↦ l
  | inr (inl l) ↦ absurd (subst (λ ts. In info (map (λ t. t.info) ts)) idle l)
  | inr (inr l) ↦ absurd (subst (In info) over l)
]

module _ {D J T : Type 0} (json : Json J T) (a : Automaton) (signatures : List Bytes) (time : ℤ)
    (Writes : Bool → Type 0) (c : CacheManager D) (m : ResumeManager) (q : QuarantineManager T)
    (listing : List FileInfo) (distinct : (p : Bytes) → times p (paths listing) ≤ 1) where
  pub Reach-IsJudged :
      (s : Scan D T)
      → Reach json a signatures time Writes (IsOutside listing) (start c m q listing) s
      → IsJudged a signatures time c q.files listing s
  Reach-IsJudged s here = record {
    settled = [];
    made = [];
    cache = unfold updates in refl;
    each = λ p. unfold times in omega arith;
    members = λ i n. inr (inr n);
    untouched = λ p h. (unfold latest in refl, refl);
    waiting = tt;
    right = tt;
  }
  Reach-IsJudged s (next {t = r} path (discovers w info rest _ e)) =
      discovers-IsJudged a signatures time c q.files listing distinct w r info rest
        (r.seen ++ info ∷ []) (Reach-IsJudged r path) e
  Reach-IsJudged s (next {t = r} path (finishes w _ e)) =
      let j = Reach-IsJudged r path in
      record {
        settled = j.settled;
        made = j.made;
        cache = j.cache;
        each = j.each;
        members = j.members;
        untouched = j.untouched;
        waiting = j.waiting;
        right = j.right;
      }
  Reach-IsJudged s (next {t = r} path (runs k before after t _ outside e)) =
      runs-IsJudged a signatures time c q.files listing distinct r (Reach-IsJudged r path) before
        after t e json k outside

  -- A scan whose listing names no path twice, and whose quarantine's places are not in it, judges each
  -- file rightly, whatever the order in which tasks run and whichever calls fail. In a state reached
  -- with the listing handed over and no task left, each file of the listing either is one that its task
  -- could not open or not read to its end, or whose quarantine threw, or is cached with a verdict for
  -- its metadata: the one that the cache had before the scan, or else `malicious` when a non-empty
  -- signature occurs in the content that the file had at the start, and `clean` when none does. The
  -- automaton is the one that build makes of the signatures, and these and the contents are of bytes.
  pub ended-cached_verdict :
      (s : Scan D T)
      → build signatures ≡ some a
      → All AreBytes signatures
      → ((p : Bytes) (f : RegularFile) → q.files p ≡ some f → AreBytes f.content)
      → Reach json a signatures time Writes (IsOutside listing) (start c m q listing) s
      → s.left ≡ []
      → s.pipeline.tasks ≡ []
      → (info : FileInfo) → In info listing
      → let d = metadata_of info time in
        In info.path s.faults
        ⊎ ((v : FileVerdict) × (cached_verdict info.path d s.pipeline.cache_manager ≡ some v)
            × ((cached_verdict info.path d c ≡ some v)
                ⊎ ((cached_verdict info.path d c ≡ none)
                    × ((f : RegularFile) × (q.files info.path ≡ some f)
                        × IsVerdict signatures f.content v))))
  ended-cached_verdict s built small small_files path over idle info n =
      let j = Reach-IsJudged s path in
      let settled = left_settled a signatures time c q.files listing s j info over idle n in
      elim (In-All (IsSettled a signatures time c q.files j.made s.faults) info j.settled settled
        j.right) [
          | inl fault ↦ inl fault
          | inr (v, at_info, right) ↦ inr (
            v,
            found_cached info time v s.pipeline.cache_manager j.made c j.cache at_info,
            elim right [
              | inl e ↦ inl e
              | inr (missed, (f, r, at_f, found, e)) ↦ inr (
                missed,
                (
                  f,
                  at_f,
                  subst (IsVerdict signatures f.content) (sym e) (
                      process-IsVerdict a signatures f.content r small
                        (small_files info.path f at_f) built found),
                ),
              )
            ],
          )
        ]
