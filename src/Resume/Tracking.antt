-- ===== src/Resume/Tracking.antt =====
-- ResumeManager over a history of calls: which files are unfinished, and what the resume point is.
use virus_detector.Base.{
  ◌≡◌, refl, ap, ◌∙◌, ◌↔◌, ◌⊎◌, inl, inr, ◌≢◌, Bool, true, false, some, List, [], ◌∷◌, Bytes,
  bytes_lt, In, arith,
}
use virus_detector.Resume.Manager.{
  ResumeManager, completed, save, begin, load, insert_file, erase_file, first_file, add_file,
  file_completed, discovery_finished,
}
use virus_detector.Resume.Checkpoint.{
  IsAscending, IsBefore, IsLine, insert_file-IsAscending, erase_file-IsAscending, In-insert_file,
  In-erase_file, saved_checkpoint,
}

-- A call on the manager, with whether its checkpoint file can be written.
pub data Call : Type 0 where
  adds : Bytes → Call
  completes : Bool → Bytes → Call
  finishes : Bool → Call

unfoldable pub step : Call → ResumeManager → ResumeManager
step (adds f) m = add_file f m
step (completes writable f) m = (file_completed writable f m).0
step (finishes writable) m = (discovery_finished writable m).0

-- The latest call stands first.
unfoldable pub run : List Call → ResumeManager → ResumeManager
run [] m = m
run (c ∷ cs) m = step c (run cs m)

-- Added, and not completed since.
abbrev pub IsPending : List Call → Bytes → Type 0
IsPending [] x = ⊥
IsPending (adds f ∷ cs) x = (x ≡ f) ⊎ IsPending cs x
IsPending (completes writable f ∷ cs) x = IsPending cs x × (x ≢ f)
IsPending (finishes writable ∷ cs) x = IsPending cs x

abbrev pub PointsAtFirst : ResumeManager → Type 0
PointsAtFirst m =
    (m.unfinished_files ≡ [])
    ⊎ (In m.next_file m.unfinished_files
        × ((x : Bytes)
            → In x m.unfinished_files
            → (x ≡ m.next_file) ⊎ (bytes_lt m.next_file x ≡ true)))

pub first-least :
    (files : List Bytes)
    → IsAscending files
    → (files ≡ [])
      ⊎ (In (first_file files) files
          × ((x : Bytes)
              → In x files
              → (x ≡ first_file files) ⊎ (bytes_lt (first_file files) x ≡ true)))
unfolding first_file
first-least [] h = inl refl
first-least (f ∷ fs) h =
    inr (inl refl, λ x m. elim m [ inl e ↦ inl e | inr n ↦ inr (least x fs h.0 n) ])
  where
    least : (x : Bytes) (gs : List Bytes) → IsBefore f gs → In x gs → bytes_lt f x ≡ true
    least x [] k m = absurd m
    least x (g ∷ gs) k (inl e) = ap (bytes_lt f) e ∙ k.0
    least x (g ∷ gs) k (inr m) = least x gs k.1 m

-- What a call leaves of the set and of the resume point.
pub completed_files :
    (writable : Bool) (f : Bytes) (m : ResumeManager)
    → (file_completed writable f m).0.unfinished_files ≡ erase_file f m.unfinished_files
unfolding file_completed
completed_files true f m = unfold erase_file in ground arith
completed_files false f m = unfold erase_file in ground arith

completed_next :
    (writable : Bool) (f : Bytes) (m : ResumeManager)
    → (erase_file f m.unfinished_files ≡ [])
      ⊎ ((file_completed writable f m).0.next_file ≡ first_file (erase_file f m.unfinished_files))
unfolding file_completed
completed_next true f m = ground arith
completed_next false f m = ground arith

pub finished_files :
    (writable : Bool) (m : ResumeManager)
    → ((discovery_finished writable m).0.unfinished_files ≡ m.unfinished_files)
      × ((m.unfinished_files ≡ []) ⊎ ((discovery_finished writable m).0.next_file ≡ m.next_file))
unfolding discovery_finished
finished_files true m = ground arith
finished_files false m = ground arith

pub completed_points :
    (writable : Bool) (f : Bytes) (m : ResumeManager)
    → IsAscending m.unfinished_files
    → PointsAtFirst (file_completed writable f m).0
completed_points writable f m h =
    rw (completed_files writable f m) (elim (completed_next writable f m) [
      | inl e ↦ inl e
      | inr e ↦ rw e (first-least (erase_file f m.unfinished_files) (erase_file-IsAscending f _ h))
    ])

pub finished_points :
    (writable : Bool) (m : ResumeManager)
    → PointsAtFirst m
    → PointsAtFirst (discovery_finished writable m).0
finished_points writable m p =
    let (files, nexts) = finished_files writable m in
    rw files (elim nexts [ inl e ↦ inl e | inr e ↦ rw e p ])

-- What holds of the manager after any history.
pub record IsTracking (cs : List Call) (m : ResumeManager) : Type 0 where
  pub ascending : IsAscending m.unfinished_files
  pub members : (x : Bytes) → In x m.unfinished_files ↔ IsPending cs x
  pub points : PointsAtFirst m

step-IsTracking :
    (c : Call) (cs : List Call) (m : ResumeManager)
    → IsTracking cs m
    → IsTracking (c ∷ cs) (step c m)
unfolding step
step-IsTracking (adds f) cs m t = record {
  ascending = unfold add_file in insert_file-IsAscending f m.unfinished_files t.ascending;
  members = λ x.
      let ins = In-insert_file x f m.unfinished_files in
      unfold add_file in
      (
        λ n. elim (ins.0 n) [ inl e ↦ inl e | inr o ↦ inr ((t.members x).0 o) ],
        λ n. elim n [ inl e ↦ ins.1 (inl e) | inr o ↦ ins.1 (inr ((t.members x).1 o)) ],
      );
  points =
      unfold add_file in
      first-least (insert_file f m.unfinished_files)
        (insert_file-IsAscending f m.unfinished_files t.ascending);
}
step-IsTracking (completes writable f) cs m t = record {
  ascending =
      rw (completed_files writable f m) (erase_file-IsAscending f m.unfinished_files t.ascending);
  members = λ x.
      let gone = In-erase_file x f m.unfinished_files t.ascending in
      rw (completed_files writable f m) (
        λ n. let (o, ne) = gone.0 n in ((t.members x).0 o, ne),
        λ n. gone.1 ((t.members x).1 n.0, n.1),
      );
  points = completed_points writable f m t.ascending;
}
step-IsTracking (finishes writable) cs m t = record {
  ascending = rw ((finished_files writable m).0) t.ascending;
  members = λ x. rw ((finished_files writable m).0) (t.members x);
  points = finished_points writable m t.points;
}

-- From a manager with no unfinished file, such as begin leaves, after any history of calls the
-- unfinished files are exactly those added and not completed since, in ascending order; and if there
-- are any, the next file is the first of them in the order of strings.
pub run-IsTracking :
    (cs : List Call) (m : ResumeManager) → m.unfinished_files ≡ [] → IsTracking cs (run cs m)
unfolding run
run-IsTracking [] m e = record {
  ascending = rw e tt;
  members = λ x. rw e (λ n. n, λ n. n);
  points = inl e;
}
run-IsTracking (c ∷ cs) m e = step-IsTracking c cs (run cs m) (run-IsTracking cs m e)

-- A restart leaves no unfinished file behind, so run-IsTracking applies after begin.
pub begin-no_files :
    (writable : Bool) (root : Bytes) (m : ResumeManager)
    → (begin writable root m).0.unfinished_files ≡ []
unfolding begin
begin-no_files true root m = ground arith
begin-no_files false root m = ground arith

-- When discovery is over and the last pending file completes, the checkpoint written (if it can be
-- written and the root has no newline in it) says `completed`, with no next file.
pub completes-last :
    (cs : List Call) (m : ResumeManager) (f : Bytes)
    → IsTracking cs m
    → m.discovery_finished ≡ true
    → IsLine m.root
    → ((x : Bytes) → IsPending cs x → x ≡ f)
    → load (step (completes true f) m).checkpoint ≡ some (m.root, completed, [])
unfolding step
completes-last cs m f t over line only =
    let gone : erase_file f m.unfinished_files ≡ [] =
      empty (erase_file f m.unfinished_files) (λ x n.
        let (o, ne) = (In-erase_file x f m.unfinished_files t.ascending).0 n in
        ne (only x ((t.members x).0 o))) in
    ap load (last gone over)
    ∙ saved_checkpoint completed (record m { next_file = []; unfinished_files = [] }) line
        (omega arith) tt
  where
    empty : (xs : List Bytes) → ((x : Bytes) → ¬ In x xs) → xs ≡ []
    empty [] h = refl
    empty (x ∷ xs) h = absurd (h x (inl refl))

    last :
        erase_file f m.unfinished_files ≡ []
        → m.discovery_finished ≡ true
        → (file_completed true f m).0.checkpoint
          ≡ (save true completed (record m { next_file = []; unfinished_files = [] })).0.checkpoint
    last g o = unfold file_completed save in ground arith
