-- ===== src/Pipeline/Finish.antt =====
-- The checkpoint of a scan whose saves can be written, over any interleaving of the walk and the tasks.
use virus_detector.Base.{
  ◌≡◌, refl, sym, ap, ◌∙◌, subst, inl, inr, true, false, some, List, [], Bytes, ℤ, In, List-cases,
  not_both,
}
use virus_detector.Automaton.{Automaton}
use virus_detector.Metadata.{Json}
use virus_detector.Quarantine.{QuarantineManager}
use virus_detector.Cache.{CacheManager}
use virus_detector.Resume.Manager.{ResumeManager, completed, load}
use virus_detector.Resume.Checkpoint.{IsLine}
use virus_detector.Resume.Tracking.{finishes, run, IsTracking, run-IsTracking}
use virus_detector.Resume.Completing.{run_root, run-IsCompleting}
use virus_detector.Traversal.{FileInfo}
use virus_detector.Pipeline.{Running}
use virus_detector.Pipeline.Schedule.{Scan, Reach, here, next, discovers, finishes, runs, start}
use virus_detector.Pipeline.Followed.{
  paths_of, IsFollowed, discovers-IsFollowed, finishes-IsFollowed, runs-IsFollowed,
}

module _ {D J T : Type 0} (json : Json J T) (a : Automaton) (signatures : List Bytes) (time : ℤ)
    (Meets : Running → Type 0) (c : CacheManager D) (m : ResumeManager) (q : QuarantineManager T)
    (listing : List FileInfo) where
  Reach-IsFollowed :
      (s : Scan D T)
      → Reach json a signatures time (λ w. w ≡ true) Meets (start c m q listing) s
      → IsFollowed m s.pipeline s.thrown
  Reach-IsFollowed s here = record {
    history = [];
    writes = tt;
    manager = unfold run in refl;
    pending = λ x o. absurd o;
  }
  Reach-IsFollowed s (next {t = r} path (discovers true info rest w e)) =
      discovers-IsFollowed m time info r.pipeline r.thrown (Reach-IsFollowed r path)
  Reach-IsFollowed s (next {t = r} path (discovers false info rest w e)) =
      absurd (not_both false w refl)
  Reach-IsFollowed s (next {t = r} path (finishes w_ w e)) =
      finishes-IsFollowed m w_ r.pipeline r.thrown w (Reach-IsFollowed r path)
  Reach-IsFollowed s (next {t = r} path (runs k before after t w meets e)) =
      runs-IsFollowed m json a signatures k before after t r w e (Reach-IsFollowed r path)

  -- A scan over a checkpoint that begin has set up, whose saves can all be written and in which no
  -- quarantine throws: once discovery has finished and no task is left, no file is unfinished and the
  -- checkpoint file says `completed`, whatever the order in which the tasks ran. The root's path has no
  -- newline in it.
  pub finished-checkpoint :
      (s : Scan D T)
      → m.unfinished_files ≡ []
      → m.discovery_finished ≡ false
      → IsLine m.root
      → Reach json a signatures time (λ w. w ≡ true) Meets (start c m q listing) s
      → s.pipeline.resume_manager.discovery_finished ≡ true
      → s.pipeline.tasks ≡ []
      → s.thrown ≡ []
      → (s.pipeline.resume_manager.unfinished_files ≡ [])
        × (load s.pipeline.resume_manager.checkpoint ≡ some (m.root, completed, []))
  finished-checkpoint s clear early line path over idle calm =
      let h = Reach-IsFollowed s path in
      let none_left = nothing h (run-IsTracking h.history m clear) in
      let done = run-IsCompleting h.history m h.writes line (λ o. absurd (not_both _ o early)) in
      (
        ap (λ r. r.unfinished_files) h.manager ∙ none_left,
        rw h.manager (
            done (ap (λ r. r.discovery_finished) (sym h.manager) ∙ over) none_left
            ∙ ap (λ r. some (r, completed, [])) (run_root h.history m)),
      )
    where
      nothing :
          (h : IsFollowed m s.pipeline s.thrown)
          → IsTracking h.history (run h.history m)
          → (run h.history m).unfinished_files ≡ []
      nothing h t = elim (List-cases (run h.history m).unfinished_files) [
        | inl e ↦ e
        | inr (x, xs, e) ↦
            let o = (t.members x).0 (rw e (inl refl)) in
            elim (h.pending x o) [
              | inl n ↦ absurd (subst (λ ts. In x (paths_of ts)) idle n)
              | inr n ↦ absurd (subst (In x) calm n)
            ]
      ]
