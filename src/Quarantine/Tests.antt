-- ===== src/Quarantine/Tests.antt =====
-- One file, quarantined by a rename and restored by a copy; one whose name is not UTF-8.
use virus_detector.Base.{
  ◌≡◌, ◌≢◌, refl, inl, inr, true, false, none, some, [], ◌∷◌, Bytes, codes, bytes_eq, arith,
  if◌then◌else◌,
}
use virus_detector.Metadata.{QuarantineEntry, find, add, root_json, to_json}
use virus_detector.Metadata.Tests.{Value, values_json, plain, is_plain, kept}
use virus_detector.Files.{RegularFile, Calls}
use virus_detector.Quarantine.{
  QuarantineManager, Quarantining, Restoring, Saving, saving, returns, throws, new_entry, load,
  quarantine, restore, restore_all,
}
use virus_detector.Quarantine.Forgets.{quarantine_forgets}
use virus_detector.Quarantine.Restored.{quarantine-rollback, quarantine_throws, restore-quarantine}
use virus_detector.Quarantine.All.{AreRestored, restore_all-AreRestored}

abbrev pub bad : RegularFile
bad = record { content = codes "EICAR"; permissions = 493 }

abbrev infected_at : Bytes → QuarantineManager Value
infected_at path = record {
  entries = [];
  metadata_file = none;
  files = λ p. if bytes_eq path p then some bad else none;
}

abbrev pub infected : QuarantineManager Value
infected = infected_at (codes "/a")

abbrev renaming : Calls
renaming = record { renames = true; copies = false; removes = false; copied_permissions = 0 }

abbrev copying : Calls
copying = record { renames = false; copies = true; removes = true; copied_permissions = 420 }

abbrev pub calls : Saving → Quarantining
calls s = record {
  moves = renaming;
  moves_back = copying;
  saves = s;
  id = codes "0f";
  destination = codes "q/0f";
  time = codes "now";
}

abbrev full_disk : Saving
full_disk = record { opens = false; renames = true }

abbrev pub restoring : Restoring
restoring = record { moves = copying; makes = true; applies = true }

quarantine-rollback_example :
    let r = quarantine values_json (calls full_disk) (codes "/a") [] infected in
    (r.1 ≡ returns false)
    × (r.0.entries ≡ infected.entries)
    × (r.0.metadata_file ≡ infected.metadata_file)
    × ((g : RegularFile) × (r.0.files (codes "/a") ≡ some g) × (g.content ≡ bad.content))
    × ((p : Bytes) → p ≢ codes "/a" → r.0.files p ≡ infected.files p)
unfolding find bytes_eq
quarantine-rollback_example =
    quarantine-rollback values_json (calls full_disk) (codes "/a") [] infected bad refl refl
      (inl refl) refl (inr (refl, refl)) (inl refl)

-- A name of one byte that UTF-8 does not have.
quarantine_throws_example :
    let r = quarantine values_json (calls saving) (255 ∷ []) [] (infected_at (255 ∷ [])) in
    (r.1 ≡ throws)
    × (r.0.files (255 ∷ []) ≡ none)
    × ((g : RegularFile) × (r.0.files (codes "q/0f") ≡ some g) × (g.content ≡ bad.content))
    × (r.0.metadata_file ≡ none)
unfolding find bytes_eq plain is_plain root_json to_json new_entry add
    virus_detector.Metadata.permission_fields
quarantine_throws_example =
    quarantine_throws values_json (calls saving) (255 ∷ []) [] (infected_at (255 ∷ [])) bad refl
      refl (inl refl) refl refl refl

abbrev pub entry : QuarantineEntry
entry = record kept { signatures = [] }

restore-quarantine_example :
    let r = quarantine values_json (calls saving) (codes "/a") [] infected in
    let z = restore values_json restoring saving (codes "0f") r.0 in
    (r.1 ≡ returns true)
    × (r.0.files (codes "/a") ≡ none)
    × (z.1 ≡ returns true)
    × ((p : Bytes) → z.0.files p ≡ infected.files p)
    × (z.0.entries ≡ infected.entries)
    × (z.0.metadata_file ≡ some (root_json values_json []))
unfolding find bytes_eq plain is_plain root_json to_json new_entry add
    virus_detector.Metadata.permission_fields
restore-quarantine_example =
    restore-quarantine values_json (calls saving) (codes "/a") [] infected bad refl refl (inl refl)
      refl restoring (root_json values_json (entry ∷ [])) (root_json values_json [])
      (inr (refl, refl), refl, refl) refl refl refl

abbrev held : QuarantineManager Value
held = record {
  entries = kept ∷ [];
  metadata_file = none;
  files = λ p. if bytes_eq (codes "q/0f") p then some bad else none;
}

restore_all-AreRestored_example :
    let r = restore_all values_json (λ id. restoring) saving held in
    (r.1 ≡ returns true)
    × (r.0.entries ≡ [])
    × (r.0.metadata_file ≡ some (root_json values_json []))
    × AreRestored held.files r.0.files held.entries
unfolding bytes_eq plain is_plain root_json
restore_all-AreRestored_example =
    restore_all-AreRestored values_json (λ id. restoring) held (root_json values_json [])
      (λ id. (inr (refl, refl), refl, refl)) ((bad, refl), refl, tt, tt) refl

-- The metadata hold an entry when the load fails.
abbrev unread : QuarantineManager Value
unread = record infected { metadata_file = some (root_json values_json (kept ∷ [])) }

quarantine_forgets_example :
    let l = load values_json true false unread in
    let r = quarantine values_json (calls saving) (codes "/a") [] l.0 in
    let z = load values_json true true (record r.0 { entries = [] }) in
    (l.1 ≡ false)
    × (r.1 ≡ returns true)
    × (r.0.metadata_file ≡ some (root_json values_json (entry ∷ [])))
    × (z.1 ≡ true)
    × (z.0.entries ≡ new_entry (calls saving) (codes "/a") [] bad ∷ [])
unfolding find bytes_eq plain is_plain root_json to_json new_entry add
    virus_detector.Metadata.permission_fields
quarantine_forgets_example =
    quarantine_forgets values_json (calls saving) (codes "/a") [] unread bad
      (root_json values_json (kept ∷ [])) (root_json values_json (entry ∷ [])) refl refl refl
      (inl refl) refl refl (omega arith) (omega arith)
