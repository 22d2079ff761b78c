-- ===== src/Resume/Tests.antt =====
-- Managers with and without unfinished files.
use virus_detector.Base.{◌≡◌, refl, inl, inr, true, false, none, List, [], ◌∷◌, codes, join, arith}
use virus_detector.Resume.PathFilter.{decide, resume_from, skip_entry}
use virus_detector.Resume.Manager.{ResumeManager, running, completed, save, fresh, begin, add_file}
use virus_detector.Resume.Checkpoint.{save-begin}
use virus_detector.Resume.Tracking.{
  Call, adds, completes, finishes, run, IsTracking, run-IsTracking,
}
use virus_detector.Resume.Order.{resume_skips_unfinished}

abbrev at_x : ResumeManager
at_x = record (fresh none) {
  root = codes "/r";
  next_file = codes "x";
  unfinished_files = codes "x" ∷ [];
}

save-begin_example :
    (begin true (codes "/r") (fresh (save true running at_x).0.checkpoint) ≡ (
      record (fresh (save true running at_x).0.checkpoint) {
        root = codes "/r";
        next_file = codes "x";
      },
      true,
      true,
    ))
    × ((begin true (codes "/r") (fresh (save true completed at_x).0.checkpoint)).1 ≡ false)
save-begin_example =
    save-begin at_x true (λ e. omega (arith, e), (λ e. omega (arith, e), tt))
      (λ e. omega (arith, e), tt)

abbrev two_files : List Call
two_files = finishes true ∷ completes true (codes "a") ∷ adds (codes "b") ∷ adds (codes "a") ∷ []

run-IsTracking_example : IsTracking two_files (run two_files (fresh none))
run-IsTracking_example = run-IsTracking two_files (fresh none) refl

abbrev one_file : List Call
one_file = adds (codes "x") ∷ []

one_file-IsTracking : IsTracking one_file (record at_x { discovery_finished = true })
one_file-IsTracking = record {
  ascending = (tt, tt);
  members = λ x. (λ m. m, λ m. m);
  points = inr (inl refl, λ x m. elim m [ inl e ↦ inl e | inr n ↦ absurd n ]);
}

resume_skips_unfinished_example :
    let both = add_file (codes "a-b") (add_file (join (codes "a" ∷ codes "x" ∷ [])) (fresh none)) in
    (both.next_file ≡ codes "a-b")
    × (both.unfinished_files ≡ codes "a-b" ∷ join (codes "a" ∷ codes "x" ∷ []) ∷ [])
    × (decide (resume_from both.next_file) (codes "a") 0 ≡ skip_entry)
resume_skips_unfinished_example =
    resume_skips_unfinished (fresh none) (codes "a") (codes "x") (codes "b") 45 refl (omega arith)
      (λ e. cc, (λ e. omega (arith, e), tt))
      (λ e. cc, (λ e. omega (arith, e), (λ e. omega (arith, e), (λ e. omega (arith, e), tt))))
