-- ===== src/Quarantine/Restored.antt =====
-- quarantine and then restore, in one process and over a restart; and quarantine whose metadata
-- cannot be saved.
use virus_detector.Base.{
  ◌^◌, ◌<◌, ◌≡◌, refl, sym, ap, ◌∙◌, ◌≢◌, ◌⊎◌, inl, inr, true, false, none, some, List, [], ◌∷◌,
  Bytes, length, All, All-append,
}
use virus_detector.Metadata.{QuarantineEntry, Json, root_json, find, erase_id, add}
use virus_detector.Metadata.Laws.{IsStorable, load_entries-dump, find-add}
use virus_detector.Files.{RegularFile, is_file, move_present, move_file, move_out, set_permissions}
use virus_detector.Files.Move.{
  IsMoving, move_present-IsMoved, move_file_present, put_back, back_again, apart,
}
use virus_detector.Quarantine.{
  returns, throws, QuarantineManager, Saving, saving, Quarantining, Restoring, new_entry, load,
  save, record_moved, quarantine_present, quarantine, after_save, restore_entry, restore_one,
  restore,
}

abbrev pub IsRestoring : Restoring → Type 0
IsRestoring c = IsMoving c.moves × (c.makes ≡ true) × (c.applies ≡ true)

module _ {J T : Type 0} (json : Json J T) where
  pub save_done :
      (q : QuarantineManager T) (t : T)
      → json.dump (root_json json q.entries) ≡ some t
      → save json saving q ≡ (record q { metadata_file = some t }, returns true)
  unfolding save
  save_done q t e = rw (e, save) refl

  save_thrown :
      (c : Saving) (q : QuarantineManager T)
      → c.opens ≡ true
      → json.dump (root_json json q.entries) ≡ none
      → save json c q ≡ (q, throws)
  unfolding save
  save_thrown c q o e = rw (o, e, save) refl

  -- The file cannot be opened, or not be renamed.
  abbrev pub IsUnsaved : Saving → List QuarantineEntry → Type 0
  IsUnsaved c es =
      (c.opens ≡ false)
      ⊎ ((t : T) × (json.dump (root_json json es) ≡ some t)
          × (c.opens ≡ true)
          × (c.renames ≡ false))

  save_failed :
      (c : Saving) (q : QuarantineManager T)
      → IsUnsaved c q.entries
      → save json c q ≡ (q, returns false)
  unfolding save
  save_failed c q (inl o) = rw o refl
  save_failed c q (inr (t, e, o, r)) = rw (o, e, save, r) refl

module _ {T : Type 0} (b : Restoring) (id : Bytes) (e : QuarantineEntry) (q : QuarantineManager T)
    (able : IsRestoring b) (at_id : find id q.entries ≡ some e)
    (free : q.files e.original_path ≡ none)
    (moved : (move_file b.moves e.quarantine_path e.original_path q.files).1 ≡ true) where
  pub restore_one_moved : restore_one b id q ≡ (
    record q {
      files =
          set_permissions true e.original_path e.original_permissions
            (move_file b.moves e.quarantine_path e.original_path q.files).0;
      entries = erase_id e.id q.entries;
    },
    true,
  )
  unfolding restore_one restore_entry is_file move_out
  restore_one_moved =
      let (_, makes, applies) = able in rw (at_id, restore_one, free, makes, moved, applies) refl

  restore_hit :
      {J : Type 0} (json : Json J T) (t : T)
      → json.dump (root_json json (erase_id e.id q.entries)) ≡ some t
      → restore json b saving id q ≡ (
        record q {
          files =
              set_permissions true e.original_path e.original_permissions
                (move_file b.moves e.quarantine_path e.original_path q.files).0;
          entries = erase_id e.id q.entries;
          metadata_file = some t;
        },
        returns true,
      )
  unfolding restore
  restore_hit json t dumped = rw restore_one_moved (save_done json _ t dumped)

module _ {J T : Type 0} (json : Json J T) (c : Quarantining) (s : Bytes) (sigs : List Bytes)
    (q : QuarantineManager T) (f : RegularFile) (at_s : q.files s ≡ some f)
    (free : q.files c.destination ≡ none) (moving : IsMoving c.moves)
    (new : find c.id q.entries ≡ none) where
  ne : s ≢ c.destination
  ne = apart q.files s c.destination f at_s free

  abbrev pub entry : QuarantineEntry
  entry = new_entry c s sigs f

  abbrev pub held : QuarantineManager T
  held = record q {
    files = (move_present c.moves s c.destination f q.files).0;
    entries = add entry q.entries;
  }

  found :
      (find c.id (add entry q.entries) ≡ some entry)
      × (erase_id c.id (add entry q.entries) ≡ q.entries)
  unfolding new_entry
  found = find-add entry q.entries new

  pub quarantine_moved : quarantine json c s sigs q ≡ after_save c entry (save json c.saves held)
  unfolding quarantine quarantine_present record_moved
  quarantine_moved =
      let (_, moved) = move_present-IsMoved c.moves s c.destination f q.files moving ne free in
      rw (at_s, quarantine, moved) refl

  -- Where the metadata cannot be saved, a rollback that can move the file puts its content back: the
  -- result is a failure that leaves the entries, the metadata and every other file as they were.
  pub quarantine-rollback :
      IsMoving c.moves_back
      → IsUnsaved json c.saves (add entry q.entries)
      → let r = quarantine json c s sigs q in
        (r.1 ≡ returns false)
        × (r.0.entries ≡ q.entries)
        × (r.0.metadata_file ≡ q.metadata_file)
        × ((g : RegularFile) × (r.0.files s ≡ some g) × (g.content ≡ f.content))
        × ((p : Bytes) → p ≢ s → r.0.files p ≡ q.files p)
  unfolding after_save new_entry
  quarantine-rollback moving_back unsaved =
      let (there, _) = move_present-IsMoved c.moves s c.destination f q.files moving ne free in
      let files = held.files in
      let (again, _) =
        move_present-IsMoved c.moves_back c.destination s there.arrived files moving_back
          (λ e. ne (sym e)) there.gone in
      rw
        (
          quarantine_moved,
          save_failed json c.saves held unsaved,
          move_file_present c.moves_back c.destination s there.arrived files there.there,
        )
        (
          refl,
          found.1,
          refl,
          (again.arrived, again.there, again.same ∙ there.same),
          back_again q.files files _ s c.destination f there.arrived at_s free there again,
        )

  -- Where the save throws, the file is gone from its path, its content is at the place in quarantine,
  -- and the metadata file is as it was, without an entry for it.
  pub quarantine_throws :
      c.saves.opens ≡ true
      → json.dump (root_json json (add entry q.entries)) ≡ none
      → let r = quarantine json c s sigs q in
        (r.1 ≡ throws)
        × (r.0.files s ≡ none)
        × ((g : RegularFile) × (r.0.files c.destination ≡ some g) × (g.content ≡ f.content))
        × (r.0.metadata_file ≡ q.metadata_file)
  unfolding after_save
  quarantine_throws o e =
      let (there, _) = move_present-IsMoved c.moves s c.destination f q.files moving ne free in
      rw (quarantine_moved, save_thrown json c.saves held o e)
        (refl, there.gone, (there.arrived, there.there, there.same), refl)

  -- A file that is quarantined, with a new identifier and a free place, is gone from its path; and
  -- restoring it, when the calls and saves succeed, puts it back with its content and permissions,
  -- even where the moves copy it, and leaves all files and the entries as before.
  pub restore-quarantine :
      (b : Restoring) (t u : T)
      → IsRestoring b
      → c.saves ≡ saving
      → json.dump (root_json json (add entry q.entries)) ≡ some t
      → json.dump (root_json json q.entries) ≡ some u
      → let r = quarantine json c s sigs q in
        let z = restore json b saving c.id r.0 in
        (r.1 ≡ returns true)
        × (r.0.files s ≡ none)
        × (z.1 ≡ returns true)
        × ((p : Bytes) → z.0.files p ≡ q.files p)
        × (z.0.entries ≡ q.entries)
        × (z.0.metadata_file ≡ some u)
  unfolding after_save new_entry
  restore-quarantine b t u able saves dumped dumped' =
      let (there, _) = move_present-IsMoved c.moves s c.destination f q.files moving ne free in
      let (again, moved_b) =
        move_present-IsMoved b.moves c.destination s there.arrived held.files able.0
          (λ e. ne (sym e)) there.gone in
      let same_move =
        move_file_present b.moves c.destination s there.arrived held.files there.there in
      let kept : QuarantineManager T = record held { metadata_file = some t } in
      let restored =
        restore_hit b c.id entry kept able found.0 there.gone (ap (λ r. r.1) same_move ∙ moved_b)
          json u (ap (λ es. json.dump (root_json json es)) found.1 ∙ dumped') in
      rw (quarantine_moved, saves, save_done json held t dumped, restored)
        (
          refl,
          there.gone,
          refl,
          λ p.
              ap (λ r. set_permissions true s (some f.permissions) r.0 p) same_move
              ∙ put_back q.files held.files _ s c.destination f there.arrived at_s free there again
                  there.same p,
          found.1,
          refl,
        )

  -- A new process that loads the metadata which a successful quarantine saved has the same entries and
  -- reports success, if the process can make the directory and open the file, and the size and the
  -- permissions are in the range of the types that store them.
  pub load-quarantine :
      (t : T)
      → c.saves ≡ saving
      → json.dump (root_json json (add entry q.entries)) ≡ some t
      → All IsStorable q.entries
      → f.permissions < 4096
      → length f.content < 2 ^ 64
      → let r = quarantine json c s sigs q in
        load json true true (record r.0 { entries = [] }) ≡ (r.0, true)
  unfolding after_save add new_entry load
  load-quarantine t saves dumped storable mode size =
      rw (quarantine_moved, saves, save_done json held t dumped)
        (rw
          (load_entries-dump json (add entry q.entries) t
            (All-append IsStorable q.entries (entry ∷ []) storable
              (record { size = size; mode = mode }, tt))
            dumped)
          refl)
