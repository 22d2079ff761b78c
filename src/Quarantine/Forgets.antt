-- ===== src/Quarantine/Forgets.antt =====
-- QuarantineManager::load that fails, as ScanPipeline::scan goes on after it, and a quarantine then.
use virus_detector.Base.{
  ◌<◌, ◌^◌, ◌≡◌, refl, ap, ◌∙◌, true, false, none, some, List, [], ◌∷◌, Bytes, length,
}
use virus_detector.Metadata.{Json, root_json, load_entries, find, add}
use virus_detector.Files.{RegularFile, move_present}
use virus_detector.Files.Move.{IsMoving}
use virus_detector.Quarantine.{
  returns, QuarantineManager, Quarantining, saving, new_entry, after_save, load, save, quarantine,
}
use virus_detector.Quarantine.Restored.{save_done, quarantine_moved, load-quarantine}

module _ {J T : Type 0} (json : Json J T) (c : Quarantining) (s : Bytes) (sigs : List Bytes)
    (q : QuarantineManager T) (f : RegularFile) (old t : T) where
  unopened :
      q.metadata_file ≡ some old → load json true false q ≡ (record q { entries = [] }, false)
  unfolding load load_entries
  unopened e = rw e refl

  alone :
      q.files s ≡ some f
      → q.files c.destination ≡ none
      → IsMoving c.moves
      → c.saves ≡ saving
      → json.dump (root_json json (new_entry c s sigs f ∷ [])) ≡ some t
      → let r = quarantine json c s sigs (record q { entries = [] }) in
        (r.1 ≡ returns true)
        × (r.0.metadata_file ≡ some t)
        × (r.0.entries ≡ new_entry c s sigs f ∷ [])
  unfolding after_save find add
  alone at_s free moving saves dumped =
      let e = new_entry c s sigs f in
      let kept : QuarantineManager T = record q {
        files = (move_present c.moves s c.destination f q.files).0;
        entries = e ∷ [];
      } in
      let done : quarantine json c s sigs (record q { entries = [] })
          ≡ (record kept { metadata_file = some t }, returns true) =
        quarantine_moved json c s sigs (record q { entries = [] }) f at_s free moving refl
        ∙ ap (λ v. after_save c e (save json v kept)) saves
        ∙ ap (after_save c e) (save_done json kept t dumped) in
      (ap (λ r. r.1) done, ap (λ r. r.0.metadata_file) done, ap (λ r. r.0.entries) done)

  -- A load that cannot open the metadata file reports failure and leaves no entry. A scan goes on all
  -- the same: the next file that it quarantines replaces the metadata file, whatever that held, and a
  -- new process then loads one entry, of that file, with success. The quarantine's move and its save
  -- succeed, its place is free, and the size and the permissions are in the range of their types.
  pub quarantine_forgets :
      q.metadata_file ≡ some old
      → q.files s ≡ some f
      → q.files c.destination ≡ none
      → IsMoving c.moves
      → c.saves ≡ saving
      → json.dump (root_json json (new_entry c s sigs f ∷ [])) ≡ some t
      → f.permissions < 4096
      → length f.content < 2 ^ 64
      → let l = load json true false q in
        let r = quarantine json c s sigs l.0 in
        let z = load json true true (record r.0 { entries = [] }) in
        (l.1 ≡ false)
        × (r.1 ≡ returns true)
        × (r.0.metadata_file ≡ some t)
        × (z.1 ≡ true)
        × (z.0.entries ≡ new_entry c s sigs f ∷ [])
  unfolding find add
  quarantine_forgets e at_s free moving saves dumped mode size =
      let (done, text, entries) = alone at_s free moving saves dumped in
      let again =
        load-quarantine json c s sigs (record q { entries = [] }) f at_s free moving refl t saves
          dumped tt mode size in
      rw (unopened e) (refl, done, text, ap (λ z. z.1) again, ap (λ z. z.0.entries) again ∙ entries)
