-- ===== src/Pipeline/Unfinished.antt =====
-- The files of a scan that a kill would leave unfinished, and each step as calls on the checkpoint's
-- manager that keep the checkpoint safe for them.
use virus_detector.Base.{
  ◌+◌, ◌≤◌, ◌≡◌, sym, ap, subst, ◌⊎◌, inl, inr, true, List, [], ◌∷◌, ◌++◌, Bytes, ℤ, In,
  In-append-cases, map, map-append, All, arith, Option-cases,
}
use virus_detector.Cache.{cached_verdict}
use virus_detector.Resume.Manager.{ResumeManager, add_file, file_completed}
use virus_detector.Resume.Checkpoint.{IsLine}
use virus_detector.Resume.Surviving.{
  IsSurviving, IsSurviving-less, adds-IsSurviving, completes-IsSurviving,
}
use virus_detector.Traversal.{FileInfo}
use virus_detector.Pipeline.{
  Task, ScanPipeline, handle_cache_hit, handle_cache_miss, handle_discovered_file, metadata_of,
}
use virus_detector.Pipeline.Discovered.{discovered_hit, discovered_miss}
use virus_detector.Pipeline.Judged.{times, times-append, times_one, In-times}
use virus_detector.Pipeline.Followed.{paths_of}

abbrev pub relative_paths : List FileInfo → List Bytes
relative_paths = map (λ i. i.relative_path)

-- Queued, or running and then to be lost, or its task threw.
abbrev pub IsOpen : List Task → List Bytes → Bytes → Type 0
IsOpen tasks thrown x = In x (paths_of tasks) ⊎ In x thrown

module _ (from root : Bytes) (listed : List Bytes) where
  -- The checkpoint is safe for what is left and open, and a path is there once.
  pub record IsUndamaged (m : ResumeManager) (tasks : List Task) (thrown : List Bytes)
      (left : List FileInfo) : Type 0 where
    pub surviving : IsSurviving from root listed m (relative_paths left) (IsOpen tasks thrown)
    pub once :
        (x : Bytes) → times x (paths_of tasks) + times x thrown + times x (relative_paths left) ≤ 1

-- The paths of the queue with one task taken out.
pub paths_without :
    (x : Bytes) (t : Task) (before after : List Task)
    → times x (paths_of (before ++ t ∷ after))
      ≡ times x (t.info.relative_path ∷ []) + times x (paths_of (before ++ after))
unfolding times
paths_without x t before after =
    rw
      (
        map-append (λ t. t.info.relative_path) before (t ∷ after),
        map-append (λ t. t.info.relative_path) before after,
      )
      (omega (
        arith,
        times-append x (paths_of before) (paths_of (t ∷ after)),
        times-append x (paths_of before) (paths_of after),
      ))

-- A path that is in one place is not in another.
pub apart :
    (x : Bytes) (tasks : List Task) (thrown : List Bytes)
    → times x (paths_of tasks) + times x thrown ≡ 0
    → ¬ IsOpen tasks thrown x
apart x tasks thrown h (inl m) = omega (arith, h, In-times x (paths_of tasks) m)
apart x tasks thrown h (inr m) = omega (arith, h, In-times x thrown m)

pub In-here :
    (x : Bytes) (before after : List Task) (t : Task)
    → x ≡ t.info.relative_path
    → In x (paths_of (before ++ t ∷ after))
In-here x [] after t e = inl e
In-here x (b ∷ before) after t e = inr (In-here x before after t e)

In-with :
    (x : Bytes) (before after : List Task) (t : Task)
    → In x (paths_of (before ++ after))
    → In x (paths_of (before ++ t ∷ after))
In-with x [] after t m = inr m
In-with x (b ∷ before) after t (inl e) = inl e
In-with x (b ∷ before) after t (inr m) = inr (In-with x before after t m)

pub IsOpen-with :
    (x : Bytes) (before after : List Task) (t : Task) (thrown : List Bytes)
    → IsOpen (before ++ after) thrown x
    → IsOpen (before ++ t ∷ after) thrown x
IsOpen-with x before after t thrown (inl m) = inl (In-with x before after t m)
IsOpen-with x before after t thrown (inr m) = inr m

module _ (from root : Bytes) (listed : List Bytes) (line : IsLine root)
    (lines : All IsLine listed) where
  -- The file that is handed over next is not open yet.
  not_handed_yet :
      (m : ResumeManager) (tasks : List Task) (thrown : List Bytes) (info : FileInfo)
      (rest : List FileInfo)
      → IsUndamaged from root listed m tasks thrown (info ∷ rest)
      → ¬ IsOpen tasks thrown info.relative_path
  not_handed_yet m tasks thrown info rest h =
      apart info.relative_path tasks thrown (
        omega
          (arith, h.once info.relative_path, times_one info.relative_path (relative_paths rest)))

  hit-IsUndamaged :
      (m : ResumeManager) (tasks : List Task) (thrown : List Bytes) (info : FileInfo)
      (rest : List FileInfo)
      → IsUndamaged from root listed m tasks thrown (info ∷ rest)
      → IsUndamaged from root listed
          (file_completed true info.relative_path (add_file info.relative_path m)).0
          tasks
          thrown
          rest
  unfolding times
  hit-IsUndamaged m tasks thrown info rest h =
      let x = info.relative_path in
      record {
        surviving =
            completes-IsSurviving from root listed line lines x (add_file x m) (relative_paths rest)
              (λ y. (y ≡ x) ⊎ IsOpen tasks thrown y) (IsOpen tasks thrown)
              (λ y o. (
                inr o,
                λ e. not_handed_yet m tasks thrown info rest h (subst (IsOpen tasks thrown) e o),
              ))
              (adds-IsSurviving from root listed line lines x m (relative_paths rest)
                (IsOpen tasks thrown) h.surviving);
        once = λ y. omega (arith, h.once y);
      }

  miss-IsUndamaged :
      (m : ResumeManager) (tasks : List Task) (thrown : List Bytes) (t : Task)
      (rest : List FileInfo)
      → IsUndamaged from root listed m tasks thrown (t.info ∷ rest)
      → IsUndamaged from root listed (add_file t.info.relative_path m) (tasks ++ t ∷ []) thrown rest
  unfolding times
  miss-IsUndamaged m tasks thrown t rest h =
      let x = t.info.relative_path in
      let split = map-append (λ t. t.info.relative_path) tasks (t ∷ []) in
      record {
        surviving =
            IsSurviving-less from root listed (add_file x m) (relative_paths rest)
              (λ y. (y ≡ x) ⊎ IsOpen tasks thrown y) (IsOpen (tasks ++ t ∷ []) thrown)
              (λ y o. elim o [
                | inr r ↦ inr (inr r)
                | inl q ↦
                    elim (In-append-cases y (paths_of tasks) (x ∷ []) (subst (In y) split q)) [
                      | inl l ↦ inr (inl l)
                      | inr (inl e) ↦ inl e
                      | inr (inr bad) ↦ absurd bad
                    ]
              ])
              (adds-IsSurviving from root listed line lines x m (relative_paths rest)
                (IsOpen tasks thrown) h.surviving);
        once = λ y.
            omega (arith, h.once y, ap (times y) split, times-append y (paths_of tasks) (x ∷ []));
      }

  pub discovers-IsUndamaged :
      {D T : Type 0} (time : ℤ) (info : FileInfo) (rest : List FileInfo) (s : ScanPipeline D T)
      (thrown : List Bytes)
      → IsUndamaged from root listed s.resume_manager s.tasks thrown (info ∷ rest)
      → let s' = handle_discovered_file true time info s in
        IsUndamaged from root listed s'.resume_manager s'.tasks thrown rest
  discovers-IsUndamaged time info rest s thrown h =
      let d = metadata_of info time in
      elim (Option-cases (cached_verdict info.path d s.cache_manager)) [
        | inr (v, e) ↦
            subst (λ z. IsUndamaged from root listed z.resume_manager z.tasks thrown rest)
              (sym (discovered_hit true time info s v e))
              (unfold handle_cache_hit in
                hit-IsUndamaged s.resume_manager s.tasks thrown info rest h)
        | inl e ↦
            subst (λ z. IsUndamaged from root listed z.resume_manager z.tasks thrown rest)
              (sym (discovered_miss true time info s e))
              (unfold handle_cache_miss in
                miss-IsUndamaged s.resume_manager s.tasks thrown
                  (record { info = info; metadata = d }) rest h)
      ]
