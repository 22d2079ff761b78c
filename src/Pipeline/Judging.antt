-- ===== src/Pipeline/Judging.antt =====
-- Each step of a scan keeps the account of Judged.
use virus_detector.Base.{
  ◌+◌, ◌≤◌, ◌≡◌, refl, sym, ap, ◌∙◌, subst, ◌⊎◌, inl, inr, Bool, true, false, Option, none, some,
  List, [], ◌∷◌, ◌++◌, Bytes, ℤ, In, In-append_left, In-append_right, map, map-append, All,
  All-append, arith, Option-cases,
}
use virus_detector.Automaton.{Automaton}
use virus_detector.FileProcessor.{process}
use virus_detector.Cache.{
  FileVerdict, FileMetadata, CacheEntry, CacheManager, cached_verdict, update,
}
use virus_detector.Cache.Rows.{updates, latest, expected}
use virus_detector.Cache.InRun.{updates-cached_verdict}
use virus_detector.Files.{RegularFile, Files}
use virus_detector.Traversal.{FileInfo}
use virus_detector.Pipeline.{
  Task, metadata_of, entry_of, read_file, delivered, handle_cache_hit, handle_cache_miss,
  handle_discovered_file,
}
use virus_detector.Pipeline.Discovered.{discovered_hit, discovered_miss, counted}
use virus_detector.Pipeline.Schedule.{Scan}
use virus_detector.Pipeline.Judged.{
  times, times-append, times_one, paths, queued, latest_other, latest_same, IsQueued, IsJudged,
  settle,
}

-- Without a read error, a result came from the content of a file that was there.
pub was_read :
    (a : Automaton) (signatures : List Bytes) (opens : Bool) (o : Option RegularFile)
    (r : List Bytes)
    → process a signatures (read_file opens none o) ≡ some r
    → (f : RegularFile) × (o ≡ some f) × (process a signatures (some f.content) ≡ some r)
unfolding read_file delivered
was_read a signatures opens none r e = absurd (unfold process in cc)
was_read a signatures true (some f) r e = (f, refl, e)
was_read a signatures false (some f) r e = absurd (unfold process in cc)

pub queued_without :
    (p : Bytes) (t : Task) (before after : List Task)
    → times p (queued (before ++ t ∷ after))
      ≡ times p (t.info.path ∷ []) + times p (queued (before ++ after))
unfolding times
queued_without p t before after =
    rw
      (map-append (λ t. t.info.path) before (t ∷ after), map-append (λ t. t.info.path) before after)
      (omega (
        arith,
        times-append p (queued before) (queued (t ∷ after)),
        times-append p (queued before) (queued after),
      ))

pub infos_without :
    (i : FileInfo) (t : Task) (before after : List Task)
    → In i (map (λ t. t.info) (before ++ t ∷ after))
    → (i ≡ t.info) ⊎ In i (map (λ t. t.info) (before ++ after))
infos_without i t [] after (inl e) = inl e
infos_without i t [] after (inr n) = inr n
infos_without i t (b ∷ before) after (inl e) = inr (inl e)
infos_without i t (b ∷ before) after (inr n) = elim (infos_without i t before after n) [
  | inl e ↦ inl e
  | inr o ↦ inr (inr o)
]

pub All-without :
    (P : Task → Type 0) (t : Task) (before after : List Task)
    → All P (before ++ t ∷ after)
    → P t × All P (before ++ after)
All-without P t [] after h = h
All-without P t (b ∷ before) after h =
    let (at_t, rest) = All-without P t before after h.1 in (at_t, (h.0, rest))

before_scan :
    {D : Type 0} (c : CacheManager D) (made : List CacheEntry) (m : CacheManager D) (p : Bytes)
    (d : FileMetadata)
    → m ≡ updates made c
    → latest p made ≡ none
    → cached_verdict p d m ≡ cached_verdict p d c
before_scan c made m p d e none_made =
    ap (cached_verdict p d) e
    ∙ updates-cached_verdict made c p d
    ∙ ap (λ l. expected false d l (cached_verdict p d c)) none_made

module _ {D T : Type 0} (a : Automaton) (signatures : List Bytes) (time : ℤ) (c : CacheManager D)
    (files : Files) (listing : List FileInfo)
    (distinct : (p : Bytes) → times p (paths listing) ≤ 1) where
  abbrev Judged : Scan D T → Type 0
  Judged = IsJudged a signatures time c files listing

  -- The listing's next file is judged at once by a cached verdict.
  hit-IsJudged :
      (w : Bool) (s : Scan D T) (info : FileInfo) (rest seen : List FileInfo) (v : FileVerdict)
      (j : Judged s)
      → s.left ≡ info ∷ rest
      → cached_verdict info.path (metadata_of info time) c ≡ some v
      → Judged (record s {
        pipeline = handle_cache_hit w info v (metadata_of info time) (counted s.pipeline);
        seen = seen;
        left = rest;
      })
  unfolding handle_cache_hit updates
  hit-IsJudged w s info rest seen v j at_left hit =
      let entry = entry_of info (metadata_of info time) v in
      settle a signatures time c files listing s
        (record s {
          pipeline = handle_cache_hit w info v (metadata_of info time) (counted s.pipeline);
          seen = seen;
          left = rest;
        })
        info j (entry ∷ j.made) distinct
        (λ p. unfold times in omega (arith, ap (λ l. times p (paths l)) at_left))
        (λ i m. elim m [
          | inl n ↦ inr (inl n)
          | inr n ↦ elim (subst (In i) at_left n) [ inl e ↦ inl e | inr o ↦ inr (inr o) ]
        ])
        j.waiting (ap (update entry) j.cache) (latest_other entry j.made) (λ x m. m)
        (λ p m ne. refl) (inr (v, latest_same entry j.made, inl hit))

  -- The listing's next file is queued.
  miss-IsJudged :
      (s : Scan D T) (info : FileInfo) (rest seen : List FileInfo) (j : Judged s)
      → s.left ≡ info ∷ rest
      → cached_verdict info.path (metadata_of info time) c ≡ none
      → Judged (record s {
        pipeline = handle_cache_miss info (metadata_of info time) (counted s.pipeline);
        seen = seen;
        left = rest;
      })
  unfolding handle_cache_miss
  miss-IsJudged s info rest seen j at_left miss =
      let t : Task = record { info = info; metadata = metadata_of info time } in
      let more : (p : Bytes)
          → times p (queued (s.pipeline.tasks ++ t ∷ [])) + times p (paths rest)
            ≡ times p (queued s.pipeline.tasks) + times p (paths s.left) =
        λ p. rw (map-append (λ t. t.info.path) s.pipeline.tasks (t ∷ [])) (
          unfold times in
          omega (
            arith,
            ap (λ l. times p (paths l)) at_left,
            times-append p (queued s.pipeline.tasks) (info.path ∷ []),
          )) in
      record {
        settled = j.settled;
        made = j.made;
        cache = j.cache;
        each = λ p. omega (arith, j.each p, more p);
        members = λ i m.
            rw (map-append (λ t. t.info) s.pipeline.tasks (t ∷ [])) (elim (j.members i m) [
              | inl n ↦ inl n
              | inr (inl n) ↦ inr (inl (In-append_left i _ _ n))
              | inr (inr n) ↦ elim (subst (In i) at_left n) [
                | inl e ↦
                    inr (inl (In-append_right i (map (λ t. t.info) s.pipeline.tasks) _ (inl e)))
                | inr o ↦ inr (inr o)
              ]
            ]);
        untouched = λ p h. j.untouched p (omega (arith, h, more p));
        waiting =
            All-append (IsQueued a signatures time c files) s.pipeline.tasks (t ∷ []) j.waiting
              ((refl, miss), tt);
        right = j.right;
      }

  pub discovers-IsJudged :
      (w : Bool) (s : Scan D T) (info : FileInfo) (rest seen : List FileInfo)
      → Judged s
      → s.left ≡ info ∷ rest
      → Judged (record s {
        pipeline = handle_discovered_file w time info s.pipeline;
        seen = seen;
        left = rest;
      })
  discovers-IsJudged w s info rest seen j at_left =
      let d = metadata_of info time in
      let asked : latest info.path j.made ≡ none =
        (j.untouched info.path (
          omega (
            arith,
            ap (λ l. times info.path (paths l)) at_left,
            times_one info.path (paths rest),
          ))).0 in
      let same = before_scan c j.made s.pipeline.cache_manager info.path d j.cache asked in
      elim (Option-cases (cached_verdict info.path d s.pipeline.cache_manager)) [
        | inr (v, e) ↦
            subst (λ z. Judged (record s { pipeline = z; seen = seen; left = rest }))
              (sym (discovered_hit w time info s.pipeline v e))
              (hit-IsJudged w s info rest seen v j at_left (sym same ∙ e))
        | inl e ↦
            subst (λ z. Judged (record s { pipeline = z; seen = seen; left = rest }))
              (sym (discovered_miss w time info s.pipeline e))
              (miss-IsJudged s info rest seen j at_left (sym same ∙ e))
      ]
