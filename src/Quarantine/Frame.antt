-- ===== src/Quarantine/Frame.antt =====
-- A quarantine, whatever its calls do, leaves all files alone but the one and its place.
use virus_detector.Base.{
  ◌≡◌, refl, ap, ◌∙◌, ◌≢◌, inl, inr, true, false, Option, none, some, List, Bytes, Option-cases,
  Bool-cases, if◌then◌else◌,
}
use virus_detector.Metadata.{Json, QuarantineEntry, root_json, add}
use virus_detector.Files.{RegularFile, move_present}
use virus_detector.Files.Others.{move_present-others, move_file-others}
use virus_detector.Quarantine.{
  Outcome, returns, throws, QuarantineManager, Saving, Quarantining, new_entry, save, after_save,
  record_moved, quarantine_present, quarantine,
}

after_save-others :
    {T : Type 0} (c : Quarantining) (e : QuarantineEntry) (r : QuarantineManager T × Outcome)
    (p : Bytes)
    → p ≢ e.quarantine_path
    → p ≢ e.original_path
    → (after_save c e r).0.files p ≡ r.0.files p
unfolding after_save
after_save-others c e (q, throws) p a b = refl
after_save-others c e (q, returns true) p a b = refl
after_save-others c e (q, returns false) p a b =
    move_file-others c.moves_back e.quarantine_path e.original_path p q.files a b

module _ {J T : Type 0} (json : Json J T) where
  saved_files :
      (c : Saving) (q : QuarantineManager T) (text : Option T)
      → let saved : QuarantineManager T × Outcome =
          if c.opens
          then elim text [
            | none ↦ (q, throws)
            | some t ↦
                if c.renames
                then (record q { metadata_file = some t }, returns true)
                else (q, returns false)
          ]
          else (q, returns false) in
        saved.0.files ≡ q.files
  saved_files c q none = elim (Bool-cases c.opens) [ inl e ↦ rw e refl | inr e ↦ rw e refl ]
  saved_files c q (some t) = elim (Bool-cases c.opens) [
    | inr e ↦ rw e refl
    | inl e ↦ elim (Bool-cases c.renames) [ inl r ↦ rw (e, r) refl | inr r ↦ rw (e, r) refl ]
  ]

  save-files : (c : Saving) (q : QuarantineManager T) → (save json c q).0.files ≡ q.files
  unfolding save
  save-files c q = saved_files c q (json.dump (root_json json q.entries))

  quarantine_present-others :
      (c : Quarantining) (file : Bytes) (sigs : List Bytes) (f : RegularFile)
      (q : QuarantineManager T) (p : Bytes)
      → p ≢ file
      → p ≢ c.destination
      → (quarantine_present json c file sigs f q).0.files p ≡ q.files p
  unfolding quarantine_present record_moved new_entry
  quarantine_present-others c file sigs f q p a b =
      let r = move_present c.moves file c.destination f q.files in
      let moved = move_present-others c.moves file c.destination p f q.files a b in
      elim (Bool-cases r.1) [
        | inr e ↦ rw e moved
        | inl e ↦ rw e (
            after_save-others c (new_entry c file sigs f)
              (save json c.saves
                (record q { files = r.0; entries = add (new_entry c file sigs f) q.entries }))
              p b a
            ∙ ap (λ fs. fs p)
                (save-files c.saves
                  (record q { files = r.0; entries = add (new_entry c file sigs f) q.entries }))
            ∙ moved)
      ]

  -- Whatever a quarantine's moves, save and rollback do, each file but the one quarantined and its
  -- place is as it was.
  pub quarantine-others :
      (c : Quarantining) (file : Bytes) (sigs : List Bytes) (q : QuarantineManager T) (p : Bytes)
      → p ≢ file
      → p ≢ c.destination
      → (quarantine json c file sigs q).0.files p ≡ q.files p
  unfolding quarantine
  quarantine-others c file sigs q p a b = elim (Option-cases (q.files file)) [
    | inl e ↦ rw (e, quarantine) refl
    | inr (f, e) ↦ rw (e, quarantine) (quarantine_present-others c file sigs f q p a b)
  ]
