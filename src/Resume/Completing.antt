-- ===== src/Resume/Completing.antt =====
-- When the checkpoint says that the scan is completed.
use virus_detector.Base.{
  ◌≡◌, ◌≢◌, refl, ◌∙◌, Bool, true, false, some, List, [], ◌∷◌, Bytes, arith, sym, subst, All,
}
use virus_detector.Resume.Manager.{
  ResumeManager, completed, save, load, erase_file, insert_file, add_file, file_completed,
  discovery_finished,
}
use virus_detector.Resume.Checkpoint.{IsLine, saved_checkpoint}
use virus_detector.Resume.Tracking.{
  Call, adds, completes, finishes, step, run, completed_files, finished_files,
}

-- Discovery is over and no file is unfinished only if the checkpoint says so.
abbrev pub IsCompleting : ResumeManager → Type 0
IsCompleting m =
    m.discovery_finished ≡ true
    → m.unfinished_files ≡ []
    → load m.checkpoint ≡ some (m.root, completed, [])

-- Whether each call that writes can write.
abbrev pub CanWrite : Call → Type 0
CanWrite (adds f) = Unit
CanWrite (completes writable f) = writable ≡ true
CanWrite (finishes writable) = writable ≡ true

completed_text :
    (m : ResumeManager)
    → IsLine m.root
    → load (save true completed (record m { next_file = [] })).0.checkpoint
      ≡ some (m.root, completed, [])
completed_text m line =
    saved_checkpoint completed (record m { next_file = [] }) line (omega arith) tt

insert_file_some : (f : Bytes) (fs : List Bytes) → insert_file f fs ≢ []
unfolding insert_file
insert_file_some f [] = ground arith
insert_file_some f (g ∷ gs) = ground arith

pub file_completed_root :
    (writable : Bool) (f : Bytes) (m : ResumeManager)
    → ((file_completed writable f m).0.root ≡ m.root)
      × ((file_completed writable f m).0.discovery_finished ≡ m.discovery_finished)
unfolding file_completed
file_completed_root true f m = ground arith
file_completed_root false f m = ground arith

file_completed_last :
    (f : Bytes) (m : ResumeManager)
    → erase_file f m.unfinished_files ≡ []
    → m.discovery_finished ≡ true
    → (file_completed true f m).0.checkpoint
      ≡ (save true completed (record m { next_file = [] })).0.checkpoint
unfolding file_completed save
file_completed_last f m gone over = unfold erase_file in ground arith

pub finished_root :
    (writable : Bool) (m : ResumeManager) → (discovery_finished writable m).0.root ≡ m.root
unfolding discovery_finished
finished_root true m = ground arith
finished_root false m = ground arith

finished_last :
    (m : ResumeManager)
    → m.unfinished_files ≡ []
    → (discovery_finished true m).0.checkpoint
      ≡ (save true completed (record m { next_file = [] })).0.checkpoint
unfolding discovery_finished save
finished_last m e = ground arith

step_root : (c : Call) (m : ResumeManager) → (step c m).root ≡ m.root
unfolding step
step_root (adds f) m = unfold add_file in refl
step_root (completes writable f) m = (file_completed_root writable f m).0
step_root (finishes writable) m = finished_root writable m

-- A checkpoint written as completed says so.
says :
    (m n : ResumeManager)
    → IsLine m.root
    → n.root ≡ m.root
    → n.checkpoint ≡ (save true completed (record m { next_file = [] })).0.checkpoint
    → load n.checkpoint ≡ some (n.root, completed, [])
says m n line e k = rw (e, k) (completed_text m line)

step-IsCompleting :
    (c : Call) (m : ResumeManager)
    → CanWrite c
    → IsLine m.root
    → IsCompleting m
    → IsCompleting (step c m)
unfolding step
step-IsCompleting (adds f) m w line h =
    unfold add_file in λ over none_left. absurd (insert_file_some f m.unfinished_files none_left)
step-IsCompleting (completes true f) m w line h = λ over none_left.
    says m (file_completed true f m).0 line (file_completed_root true f m).0 (
      file_completed_last f m (sym (completed_files true f m) ∙ none_left)
        (sym (file_completed_root true f m).1 ∙ over))
step-IsCompleting (completes false f) m w line h = λ over none_left. cc
step-IsCompleting (finishes true) m w line h = λ over none_left.
    says m (discovery_finished true m).0 line (finished_root true m)
      (finished_last m (sym (finished_files true m).0 ∙ none_left))
step-IsCompleting (finishes false) m w line h = λ over none_left. cc

pub run_root : (cs : List Call) (m : ResumeManager) → (run cs m).root ≡ m.root
unfolding run
run_root [] m = refl
run_root (c ∷ cs) m = step_root c (run cs m) ∙ run_root cs m

-- After any history of calls that can write, from a manager that is still discovering.
pub run-IsCompleting :
    (cs : List Call) (m : ResumeManager)
    → All CanWrite cs
    → IsLine m.root
    → IsCompleting m
    → IsCompleting (run cs m)
unfolding run
run-IsCompleting [] m w line h = h
run-IsCompleting (c ∷ cs) m w line h =
    step-IsCompleting c (run cs m) w.0 (subst IsLine (sym (run_root cs m)) line)
      (run-IsCompleting cs m w.1 line h)
