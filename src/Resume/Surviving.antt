-- ===== src/Resume/Surviving.antt =====
-- What the checkpoint file says at any moment, for a process that may be killed: resuming from it
-- misses no file that is left to hand over or open, that is, handed over and not completed.
use virus_detector.Base.{
  ◌≡◌, ◌≢◌, sym, ap, ◌∙◌, subst, ◌⊎◌, inl, inr, true, some, List, [], ◌∷◌, Bytes, bytes_lt, In, All,
  All-In,
}
use virus_detector.Resume.Manager.{
  ResumeManager, running, completed, checkpoint_text, insert_file, erase_file, first_file, add_file,
  file_completed, discovery_finished,
}
use virus_detector.Resume.Checkpoint.{
  IsLine, IsAscending, insert_file-IsAscending, erase_file-IsAscending, In-insert_file,
  In-erase_file,
}
use virus_detector.Resume.Tracking.{
  PointsAtFirst, first-least, completed_files, finished_files, completed_points, finished_points,
}
use virus_detector.Resume.Completing.{file_completed_root, finished_root}
use virus_detector.Resume.Safe.{
  completed_saves, finished_saves, IsSafe, IsSafe-less, saved-IsSafe, completed-IsSafe,
  first_not_above,
}

module _ (from root : Bytes) (listed : List Bytes) where
  -- The manager of a scan, with the paths left to hand over, and those handed over and not completed.
  pub record IsSurviving (m : ResumeManager) (left : List Bytes) (Open : Bytes → Type 0)
      : Type 0 where
    pub rooted : m.root ≡ root
    pub ascending : IsAscending m.unfinished_files
    pub unfinished : (x : Bytes) → Open x → In x m.unfinished_files
    pub below : (g x : Bytes) → In g m.unfinished_files → In x left → bytes_lt g x ≡ true
    pub rest : IsAscending left
    pub known : (x : Bytes) → In x m.unfinished_files ⊎ In x left → In x listed
    pub points : PointsAtFirst m
    pub safe : IsSafe from root listed (λ x. In x left ⊎ Open x) m.checkpoint

  pub IsSurviving-less :
      (m : ResumeManager) (left : List Bytes) (Open Open' : Bytes → Type 0)
      → ((x : Bytes) → Open' x → Open x)
      → IsSurviving m left Open
      → IsSurviving m left Open'
  IsSurviving-less m left Open Open' less t = record {
    rooted = t.rooted;
    ascending = t.ascending;
    unfinished = λ x o. t.unfinished x (less x o);
    below = t.below;
    rest = t.rest;
    known = t.known;
    points = t.points;
    safe =
        IsSafe-less from root listed (λ y. In y left ⊎ Open y) _ m.checkpoint
          (λ y o. elim o [ inl l ↦ inl l | inr q ↦ inr (less y q) ]) t.safe;
  }

  module _ (line : IsLine root) (lines : All IsLine listed) where
    pub adds-IsSurviving :
        (x : Bytes) (m : ResumeManager) (rest : List Bytes) (Open : Bytes → Type 0)
        → IsSurviving m (x ∷ rest) Open
        → IsSurviving (add_file x m) rest (λ y. (y ≡ x) ⊎ Open y)
    unfolding add_file
    adds-IsSurviving x m rest Open t = record {
      rooted = t.rooted;
      ascending = ascends;
      unfinished = λ y o. elim o [
        | inl e ↦ (In-insert_file y x m.unfinished_files).1 (inl e)
        | inr p ↦ (In-insert_file y x m.unfinished_files).1 (inr (t.unfinished y p))
      ];
      below = λ g y k l. elim ((In-insert_file g x m.unfinished_files).0 k) [
        | inl e ↦ ap (λ z. bytes_lt z y) e ∙ All-In (λ z. bytes_lt x z ≡ true) y rest t.rest.0 l
        | inr o ↦ t.below g y o (inr l)
      ];
      rest = t.rest.1;
      known = λ y k. elim k [
        | inr l ↦ t.known y (inr (inr l))
        | inl i ↦ elim ((In-insert_file y x m.unfinished_files).0 i) [
          | inl e ↦ t.known y (inr (inl e))
          | inr o ↦ t.known y (inl o)
        ]
      ];
      points = first-least (insert_file x m.unfinished_files) ascends;
      safe =
          IsSafe-less from root listed (λ y. In y (x ∷ rest) ⊎ Open y) _ m.checkpoint
            (λ y o. elim o [
              | inl l ↦ inl (inr l)
              | inr (inl e) ↦ inl (inl e)
              | inr (inr p) ↦ inr p
            ])
            t.safe;
    }
      where
        ascends : IsAscending (insert_file x m.unfinished_files)
        ascends = insert_file-IsAscending x m.unfinished_files t.ascending

    pub completes-IsSurviving :
        (f : Bytes) (m : ResumeManager) (left : List Bytes) (Open Open' : Bytes → Type 0)
        → ((x : Bytes) → Open' x → Open x × (x ≢ f))
        → IsSurviving m left Open
        → IsSurviving (file_completed true f m).0 left Open'
    completes-IsSurviving f m left Open Open' less t = rw-files
      where
        files : List Bytes
        files = erase_file f m.unfinished_files

        kept : (x : Bytes) → In x files → In x m.unfinished_files
        kept x k = ((In-erase_file x f m.unfinished_files t.ascending).0 k).0

        opens : (x : Bytes) → Open' x → In x files
        opens x o =
            let (p, ne) = less x o in
            (In-erase_file x f m.unfinished_files t.ascending).1 (t.unfinished x p, ne)

        ascends : IsAscending files
        ascends = erase_file-IsAscending f m.unfinished_files t.ascending

        under : (g x : Bytes) → In g files → In x left → bytes_lt g x ≡ true
        under g x k l = t.below g x (kept g k) l

        same : (file_completed true f m).0.unfinished_files ≡ files
        same = completed_files true f m

        safe :
            IsSafe from root listed
              (λ x. In x left ⊎ Open' x)
              (file_completed true f m).0.checkpoint
        safe = elim (completed_saves f m) [
          | inl e ↦ subst (IsSafe from root listed (λ x. In x left ⊎ Open' x)) (sym e) (
              IsSafe-less from root listed (λ y. In y left ⊎ Open y) _ m.checkpoint
                (λ y o. elim o [ inl l ↦ inl l | inr q ↦ inr ((less y q).0) ]) t.safe)
          | inr (inl e) ↦
              subst (IsSafe from root listed (λ x. In x left ⊎ Open' x))
                (sym (e ∙ ap (λ r. some (checkpoint_text r completed [])) t.rooted))
                (completed-IsSafe from root listed (λ x. In x left ⊎ Open' x) line)
          | inr (inr (some_left, e)) ↦
              subst (IsSafe from root listed (λ x. In x left ⊎ Open' x))
                (sym (e ∙ ap (λ r. some (checkpoint_text r running (first_file files))) t.rooted))
                (elim (first-least files ascends) [
                  | inl gone ↦ absurd (some_left gone)
                  | inr (here, least) ↦
                      let known = t.known (first_file files) (inl (kept (first_file files) here)) in
                      saved-IsSafe from root listed (λ x. In x left ⊎ Open' x) (first_file files)
                        line (All-In IsLine (first_file files) listed lines known) known
                        (first_not_above from root listed files left Open' (first_file files) opens
                          under here least)
                ])
        ]

        rw-files : IsSurviving (file_completed true f m).0 left Open'
        rw-files = record {
          rooted = (file_completed_root true f m).0 ∙ t.rooted;
          ascending = subst IsAscending (sym same) ascends;
          unfinished = λ x o. subst (In x) (sym same) (opens x o);
          below = λ g x k l. under g x (subst (In g) same k) l;
          rest = t.rest;
          known = λ x k. elim k [
            | inl i ↦ t.known x (inl (kept x (subst (In x) same i)))
            | inr l ↦ t.known x (inr l)
          ];
          points = completed_points true f m t.ascending;
          safe = safe;
        }

    pub finishes-IsSurviving :
        (m : ResumeManager) (left : List Bytes) (Open : Bytes → Type 0)
        → IsSurviving m left Open
        → IsSurviving (discovery_finished true m).0 left Open
    finishes-IsSurviving m left Open t = record {
      rooted = finished_root true m ∙ t.rooted;
      ascending = subst IsAscending (sym same) t.ascending;
      unfinished = λ x o. subst (In x) (sym same) (t.unfinished x o);
      below = λ g x k l. t.below g x (subst (In g) same k) l;
      rest = t.rest;
      known = λ x k. elim k [
        | inl i ↦ t.known x (inl (subst (In x) same i))
        | inr l ↦ t.known x (inr l)
      ];
      points = finished_points true m t.points;
      safe = elim (finished_saves m) [
        | inl e ↦
            subst (IsSafe from root listed (λ x. In x left ⊎ Open x))
              (sym (e ∙ ap (λ r. some (checkpoint_text r completed [])) t.rooted))
              (completed-IsSafe from root listed (λ x. In x left ⊎ Open x) line)
        | inr (some_left, e) ↦
            subst (IsSafe from root listed (λ x. In x left ⊎ Open x))
              (sym (e ∙ ap (λ r. some (checkpoint_text r running m.next_file)) t.rooted))
              (elim t.points [
                | inl gone ↦ absurd (some_left gone)
                | inr (here, least) ↦
                    let known = t.known m.next_file (inl here) in
                    saved-IsSafe from root listed (λ x. In x left ⊎ Open x) m.next_file line
                      (All-In IsLine m.next_file listed lines known) known
                      (first_not_above from root listed m.unfinished_files left Open m.next_file
                        t.unfinished t.below here least)
              ])
      ];
    }
      where
        same : (discovery_finished true m).0.unfinished_files ≡ m.unfinished_files
        same = (finished_files true m).0
