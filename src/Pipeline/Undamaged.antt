-- ===== src/Pipeline/Undamaged.antt =====
-- A task and the end of discovery keep the checkpoint safe for the files of Unfinished.
use virus_detector.Base.{
  ◌≡◌, refl, sym, ap, ◌∙◌, subst, inl, inr, true, List, [], ◌∷◌, ◌++◌, Bytes, pos, All, arith,
}
use virus_detector.Automaton.{Automaton}
use virus_detector.FileProcessor.{process}
use virus_detector.Metadata.{Json}
use virus_detector.Resume.Manager.{ResumeManager, file_completed, discovery_finished}
use virus_detector.Resume.Checkpoint.{IsLine}
use virus_detector.Resume.Tracking.{run, step}
use virus_detector.Resume.Surviving.{IsSurviving-less, completes-IsSurviving, finishes-IsSurviving}
use virus_detector.Traversal.{FileInfo}
use virus_detector.Pipeline.{Task, Running, read_file, run_task}
use virus_detector.Pipeline.Schedule.{
  Scan, Ending, unread, judged, threw, ending, thrown_by, after_task,
}
use virus_detector.Pipeline.Judged.{times, times_one}
use virus_detector.Pipeline.Followed.{called, handle_processed-run}
use virus_detector.Pipeline.Unfinished.{
  relative_paths, IsOpen, IsUndamaged, paths_without, apart, In-here, IsOpen-with,
}

module _ (from root : Bytes) (listed : List Bytes) (line : IsLine root)
    (lines : All IsLine listed) where
  completed-IsUndamaged :
      (m : ResumeManager) (before after : List Task) (t : Task) (thrown : List Bytes)
      (left : List FileInfo)
      → IsUndamaged from root listed m (before ++ t ∷ after) thrown left
      → IsUndamaged from root listed
          (file_completed true t.info.relative_path m).0
          (before ++ after)
          thrown
          left
  unfolding times
  completed-IsUndamaged m before after t thrown left h =
      let x = t.info.relative_path in
      let gone =
        apart x (before ++ after) thrown
          (omega (arith, h.once x, paths_without x t before after, times_one x [])) in
      record {
        surviving =
            completes-IsSurviving from root listed line lines x m (relative_paths left)
              (IsOpen (before ++ t ∷ after) thrown) (IsOpen (before ++ after) thrown)
              (λ y o. (
                IsOpen-with y before after t thrown o,
                λ e. gone (subst (IsOpen (before ++ after) thrown) e o),
              ))
              h.surviving;
        once = λ y. omega (arith, h.once y, paths_without y t before after);
      }

  lost-IsUndamaged :
      (m : ResumeManager) (before after : List Task) (t : Task) (thrown : List Bytes)
      (left : List FileInfo)
      → IsUndamaged from root listed m (before ++ t ∷ after) thrown left
      → IsUndamaged from root listed m (before ++ after) (t.info.relative_path ∷ thrown) left
  unfolding times
  lost-IsUndamaged m before after t thrown left h = record {
    surviving =
        IsSurviving-less from root listed m (relative_paths left)
          (IsOpen (before ++ t ∷ after) thrown)
          (IsOpen (before ++ after) (t.info.relative_path ∷ thrown))
          (λ y o. elim o [
            | inl l ↦ IsOpen-with y before after t thrown (inl l)
            | inr (inl e) ↦ inl (In-here y before after t e)
            | inr (inr r) ↦ inr r
          ])
          h.surviving;
    once = λ y. omega (arith, h.once y, paths_without y t before after);
  }

  -- The call that a task makes, at its end.
  called-IsUndamaged :
      (e : Ending) (m : ResumeManager) (before after : List Task) (t : Task) (thrown : List Bytes)
      (left : List FileInfo)
      → IsUndamaged from root listed m (before ++ t ∷ after) thrown left
      → IsUndamaged from root listed
          (run (called e true t.info.relative_path []) m)
          (before ++ after)
          (thrown_by e t.info.relative_path thrown)
          left
  unfolding run step
  called-IsUndamaged unread m before after t thrown left h =
      completed-IsUndamaged m before after t thrown left h
  called-IsUndamaged judged m before after t thrown left h =
      completed-IsUndamaged m before after t thrown left h
  called-IsUndamaged threw m before after t thrown left h =
      lost-IsUndamaged m before after t thrown left h

  pub runs-IsUndamaged :
      {D J T : Type 0} (json : Json J T) (a : Automaton) (signatures : List Bytes) (k : Running)
      (before after : List Task) (t : Task) (s : Scan D T)
      → k.writable ≡ true
      → s.pipeline.tasks ≡ before ++ t ∷ after
      → IsUndamaged from root listed s.pipeline.resume_manager s.pipeline.tasks s.thrown s.left
      → let s' = after_task json a signatures (pos 0) k t (before ++ after) s in
        IsUndamaged from root listed s'.pipeline.resume_manager s'.pipeline.tasks s'.thrown s'.left
  runs-IsUndamaged json a signatures k before after t s w e h =
      let result =
        process a signatures
          (read_file k.opens k.breaks (s.pipeline.quarantine_manager.files t.info.path)) in
      let end = ending json k t result s.pipeline in
      let rm = s.pipeline.resume_manager in
      let p = t.info.relative_path in
      let called_run : (run_task json a signatures k t s.pipeline).resume_manager
          ≡ run (called end true p []) rm =
        unfold run_task in
        (handle_processed-run rm json k t result s.pipeline [] (unfold run in refl)
          ∙ ap (λ b. run (called end b p []) rm) w) in
      subst
        (λ z.
          IsUndamaged from root listed z (before ++ after)
            (thrown_by end t.info.relative_path s.thrown) s.left)
        (sym called_run)
        (called-IsUndamaged end s.pipeline.resume_manager before after t s.thrown s.left (
          subst (λ ts. IsUndamaged from root listed s.pipeline.resume_manager ts s.thrown s.left) e
            h))

  pub finishes-IsUndamaged :
      (m : ResumeManager) (tasks : List Task) (thrown : List Bytes) (left : List FileInfo)
      → IsUndamaged from root listed m tasks thrown left
      → IsUndamaged from root listed (discovery_finished true m).0 tasks thrown left
  finishes-IsUndamaged m tasks thrown left h = record {
    surviving =
        finishes-IsSurviving from root listed line lines m (relative_paths left)
          (IsOpen tasks thrown) h.surviving;
    once = h.once;
  }
