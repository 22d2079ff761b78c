-- ===== src/Pipeline/Judged.antt =====
-- How a scan stands with each file of its listing: not handed over yet, queued, or judged.
use virus_detector.Base.{
  ℕ, ◌+◌, ◌≤◌, ◌≡◌, ◌≢◌, refl, sym, ap, ◌∙◌, ◌⊎◌, inl, inr, none, some, List, [], ◌∷◌, ◌++◌, Bytes,
  bytes_eq, bytes_eq_refl, ℤ, In, map, All, arith, if◌then◌else◌,
}
use virus_detector.Automaton.{Automaton}
use virus_detector.FileProcessor.{process}
use virus_detector.Cache.{FileVerdict, clean, malicious, CacheEntry, CacheManager, cached_verdict}
use virus_detector.Cache.Rows.{updates, latest}
use virus_detector.Files.{RegularFile, Files}
use virus_detector.Files.Move.{bytes_ne}
use virus_detector.Traversal.{FileInfo}
use virus_detector.Pipeline.{Task, metadata_of, entry_of}
use virus_detector.Pipeline.Schedule.{Scan}

unfoldable pub times : Bytes → List Bytes → ℕ
times p [] = 0
times p (x ∷ xs) = (if bytes_eq x p then 1 else 0) + times p xs

pub times-append : (p : Bytes) (xs ys : List Bytes) → times p (xs ++ ys) ≡ times p xs + times p ys
unfolding times
times-append p [] ys = omega arith
times-append p (x ∷ xs) ys = omega (arith, times-append p xs ys)

pub times_one : (p : Bytes) (xs : List Bytes) → times p (p ∷ xs) ≡ 1 + times p xs
unfolding times
times_one p xs = rw (bytes_eq_refl p) refl

pub times_none : (p x : Bytes) (xs : List Bytes) → times p (x ∷ xs) ≡ 0 → (x ≢ p) × (times p xs ≡ 0)
times_none p x xs h = (
  λ e. omega (arith, h, times_one p xs, ap (λ z. times p (z ∷ xs)) e),
  unfold times in omega (arith, h),
)

times_more : (p x : Bytes) (xs : List Bytes) → times p xs ≤ times p (x ∷ xs)
unfolding times
times_more p x xs = omega arith

pub In-times : (p : Bytes) (xs : List Bytes) → In p xs → 1 ≤ times p xs
In-times p [] m = absurd m
In-times p (x ∷ xs) (inl e) = omega (arith, times_one p xs, ap (λ z. times p (z ∷ xs)) e)
In-times p (x ∷ xs) (inr m) = omega (arith, In-times p xs m, times_more p x xs)

pub latest_other :
    (e : CacheEntry) (es : List CacheEntry) (p : Bytes)
    → p ≢ e.path
    → latest p (e ∷ es) ≡ latest p es
unfolding latest
latest_other e es p ne = rw (bytes_ne e.path p (λ z. ne (sym z))) refl

pub latest_same : (e : CacheEntry) (es : List CacheEntry) → latest e.path (e ∷ es) ≡ some e
unfolding latest
latest_same e es = rw (bytes_eq_refl e.path) refl

abbrev pub paths : List FileInfo → List Bytes
paths = map (λ i. i.path)

abbrev pub queued : List Task → List Bytes
queued = map (λ t. t.info.path)

-- The verdict that the signatures found give.
unfoldable pub verdict_of : List Bytes → FileVerdict
verdict_of [] = clean
verdict_of (g ∷ gs) = malicious

module _ {D : Type 0} (a : Automaton) (signatures : List Bytes) (time : ℤ) (c : CacheManager D)
    (files : Files) where
  -- The verdict that the cache had before the scan, or else that of the content then.
  abbrev pub IsRight : FileInfo → FileVerdict → Type 0
  IsRight info v =
      let before = cached_verdict info.path (metadata_of info time) c in
      (before ≡ some v)
      ⊎ ((before ≡ none)
          × ((f : RegularFile) × (r : List Bytes) × (files info.path ≡ some f)
              × (process a signatures (some f.content) ≡ some r)
              × (v ≡ verdict_of r)))

  -- Its task could not read all of it or threw, or the latest update of its path has the right verdict.
  abbrev pub IsSettled : List CacheEntry → List Bytes → FileInfo → Type 0
  IsSettled es faults info =
      In info.path faults
      ⊎ ((v : FileVerdict) × (latest info.path es ≡ some (entry_of info (metadata_of info time) v))
          × IsRight info v)

  abbrev pub IsQueued : Task → Type 0
  IsQueued t =
      (t.metadata ≡ metadata_of t.info time)
      × (cached_verdict t.info.path (metadata_of t.info time) c ≡ none)

  pub record IsJudged {T : Type 0} (listing : List FileInfo) (s : Scan D T) : Type 0 where
    pub settled : List FileInfo
    pub made : List CacheEntry
    pub cache : s.pipeline.cache_manager ≡ updates made c
    pub each :
        (p : Bytes)
        → times p (paths settled) + times p (queued s.pipeline.tasks) + times p (paths s.left)
          ≡ times p (paths listing)
    pub members :
        (info : FileInfo)
        → In info listing
        → In info settled ⊎ In info (map (λ t. t.info) s.pipeline.tasks) ⊎ In info s.left
    pub untouched :
        (p : Bytes)
        → 1 ≤ times p (queued s.pipeline.tasks) + times p (paths s.left)
        → (latest p made ≡ none) × (s.pipeline.quarantine_manager.files p ≡ files p)
    pub waiting : All IsQueued s.pipeline.tasks
    pub right : All (IsSettled made s.faults) settled

  -- A file that is judged stays so when only other files are judged after it.
  IsSettled-kept :
      (es es' : List CacheEntry) (faults faults' : List Bytes) (p : Bytes) (infos : List FileInfo)
      → ((x : Bytes) → x ≢ p → latest x es' ≡ latest x es)
      → ((x : Bytes) → In x faults → In x faults')
      → times p (paths infos) ≡ 0
      → All (IsSettled es faults) infos
      → All (IsSettled es' faults') infos
  IsSettled-kept es es' faults faults' p [] other more apart h = tt
  IsSettled-kept es es' faults faults' p (i ∷ is) other more apart h =
      let (ne, rest) = times_none p i.path (paths is) apart in
      (
        elim h.0 [
          | inl m ↦ inl (more i.path m)
          | inr (v, at_i, right) ↦ inr (v, other i.path ne ∙ at_i, right)
        ],
        IsSettled-kept es es' faults faults' p is other more rest h.1,
      )

  -- One file leaves the queue or the listing, judged.
  pub settle :
      {T : Type 0} (listing : List FileInfo) (s s' : Scan D T) (info : FileInfo)
      (j : IsJudged listing s) (made' : List CacheEntry)
      → ((p : Bytes) → times p (paths listing) ≤ 1)
      → ((p : Bytes)
          → times p (queued s.pipeline.tasks) + times p (paths s.left)
            ≡ times p (info.path ∷ [])
              + (times p (queued s'.pipeline.tasks) + times p (paths s'.left)))
      → ((i : FileInfo)
          → In i (map (λ t. t.info) s.pipeline.tasks) ⊎ In i s.left
          → (i ≡ info) ⊎ In i (map (λ t. t.info) s'.pipeline.tasks) ⊎ In i s'.left)
      → All IsQueued s'.pipeline.tasks
      → s'.pipeline.cache_manager ≡ updates made' c
      → ((x : Bytes) → x ≢ info.path → latest x made' ≡ latest x j.made)
      → ((x : Bytes) → In x s.faults → In x s'.faults)
      → ((p : Bytes)
          → 1 ≤ times p (paths listing)
          → p ≢ info.path
          → s'.pipeline.quarantine_manager.files p ≡ s.pipeline.quarantine_manager.files p)
      → IsSettled made' s'.faults info
      → IsJudged listing s'
  settle listing s s' info j made' distinct left_over moved waiting cache other more kept right =
      record {
        settled = info ∷ j.settled;
        made = made';
        cache = cache;
        each = λ p. unfold times in omega (arith, j.each p, left_over p);
        members = λ i m. elim (j.members i m) [
          | inl n ↦ inl (inr n)
          | inr n ↦ elim (moved i n) [ inl e ↦ inl (inl e) | inr o ↦ inr o ]
        ];
        untouched = λ p h.
            let ne : p ≢ info.path = λ e. omega (
              arith,
              j.each p,
              left_over p,
              distinct p,
              h,
              times_one p [],
              ap (λ z. times p (z ∷ [])) e,
            ) in
            let (none_made, same) = j.untouched p (omega (arith, left_over p, h)) in
            (other p ne ∙ none_made, kept p (omega (arith, j.each p, left_over p, h)) ne ∙ same);
        waiting = waiting;
        right = (
          right,
          IsSettled-kept j.made made' s.faults s'.faults info.path j.settled other more
              (omega (
                arith,
                j.each info.path,
                left_over info.path,
                distinct info.path,
                times_one info.path [],
              ))
              j.right,
        );
      }
