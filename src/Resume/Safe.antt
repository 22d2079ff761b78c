-- ===== src/Resume/Safe.antt =====
-- A checkpoint file from which resuming misses no file that is owed, and what the saves leave in it.
use virus_detector.Base.{
  ◌≡◌, ◌≢◌, ap, ◌∙◌, ◌⊎◌, inl, inr, true, false, Option, some, List, [], Bytes, bytes_lt,
  bytes_lt_irrefl, bytes_lt-asymm, path_eq, In, arith,
}
use virus_detector.Resume.Manager.{
  ResumeManager, running, completed, checkpoint_text, load, save, maybe_save, erase_file,
  first_file, file_completed, discovery_finished,
}
use virus_detector.Resume.Checkpoint.{IsLine, load-checkpoint_text, path_eq_refl}

-- What a completion and the end of discovery leave in the checkpoint file, where they can write it.
pub completed_saves :
    (f : Bytes) (m : ResumeManager)
    → let after = (file_completed true f m).0.checkpoint in
      let files = erase_file f m.unfinished_files in
      (after ≡ m.checkpoint)
      ⊎ (after ≡ some (checkpoint_text m.root completed []))
      ⊎ ((files ≢ []) × (after ≡ some (checkpoint_text m.root running (first_file files))))
unfolding file_completed maybe_save save first_file
completed_saves f m = ground arith

pub finished_saves :
    (m : ResumeManager)
    → let after = (discovery_finished true m).0.checkpoint in
      (after ≡ some (checkpoint_text m.root completed []))
      ⊎ ((m.unfinished_files ≢ []) × (after ≡ some (checkpoint_text m.root running m.next_file)))
unfolding discovery_finished save
finished_saves m = ground arith

module _ (from root : Bytes) (listed : List Bytes) where
  -- Resuming at `n` misses none of the files that are owed.
  abbrev pub IsSafePoint : (Bytes → Type 0) → Bytes → Type 0
  IsSafePoint Owed n = (n ≡ from) ⊎ (In n listed × ((x : Bytes) → Owed x → bytes_lt x n ≡ false))

  -- Such a point is in the checkpoint file, for this root, or the file says `completed`.
  abbrev pub IsSafe : (Bytes → Type 0) → Option Bytes → Type 0
  IsSafe Owed file =
      ((saved : Bytes) × (n : Bytes) × (load file ≡ some (saved, running, n))
        × (path_eq saved root ≡ true)
        × IsSafePoint Owed n)
      ⊎ (load file ≡ some (root, completed, []))

  -- Owing less does no harm.
  pub IsSafe-less :
      (P Q : Bytes → Type 0) (file : Option Bytes)
      → ((x : Bytes) → Q x → P x)
      → IsSafe P file
      → IsSafe Q file
  IsSafe-less P Q file h (inr e) = inr e
  IsSafe-less P Q file h (inl (saved, n, e, p, inl at_from)) = inl (saved, n, e, p, inl at_from)
  IsSafe-less P Q file h (inl (saved, n, e, p, inr (m, ge))) =
      inl (saved, n, e, p, inr (m, λ x o. ge x (h x o)))

  pub saved-IsSafe :
      (Owed : Bytes → Type 0) (n : Bytes)
      → IsLine root
      → IsLine n
      → In n listed
      → ((x : Bytes) → Owed x → bytes_lt x n ≡ false)
      → IsSafe Owed (some (checkpoint_text root running n))
  saved-IsSafe Owed n line line_n known ge = inl (
    root,
    n,
    load-checkpoint_text root running n line (omega arith) line_n,
    path_eq_refl root,
    inr (known, ge),
  )

  pub completed-IsSafe :
      (Owed : Bytes → Type 0) → IsLine root → IsSafe Owed (some (checkpoint_text root completed []))
  completed-IsSafe Owed line = inr (load-checkpoint_text root completed [] line (omega arith) tt)

  -- The first unfinished file is not above a file that is left or open.
  pub first_not_above :
      (files left : List Bytes) (Open : Bytes → Type 0) (n : Bytes)
      → ((x : Bytes) → Open x → In x files)
      → ((g x : Bytes) → In g files → In x left → bytes_lt g x ≡ true)
      → In n files
      → ((x : Bytes) → In x files → (x ≡ n) ⊎ (bytes_lt n x ≡ true))
      → (x : Bytes) → In x left ⊎ Open x
      → bytes_lt x n ≡ false
  first_not_above files left Open n unfinished below here least x (inl l) =
      bytes_lt-asymm n x (below n x here l)
  first_not_above files left Open n unfinished below here least x (inr o) =
      elim (least x (unfinished x o)) [
        | inl e ↦ ap (λ z. bytes_lt z n) e ∙ bytes_lt_irrefl n
        | inr lt ↦ bytes_lt-asymm n x lt
      ]
