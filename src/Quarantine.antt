-- ===== src/Quarantine.antt =====
-- Quarantine/QuarantineManager.{h,cpp} and QuarantineRepository::save: malicious files are moved to a
-- directory of their own, and back. Which system calls succeed is an argument of each operation. A
-- save throws where the JSON library does: on text that is not UTF-8.
pub mod Frame
pub mod Restored
pub mod Forgets
pub mod All
pub mod Tests
use virus_detector.Base.{
  ℕ, ◌≡◌, Bool, true, false, ◌&&◌, Option, none, some, List, [], ◌∷◌, Bytes, length, if◌then◌else◌,
}
use virus_detector.Metadata.{QuarantineEntry, Json, root_json, load_entries, find, erase_id, add}
use virus_detector.Files.{
  RegularFile, Files, Calls, is_file, move_present, move_file, move_out, remove_file,
  set_permissions,
}

-- What a call comes to: its result, or an exception.
pub data Outcome : Type 0 where
  returns : Bool → Outcome
  throws : Outcome

-- The manager's repository, its metadata file, and the files.
pub record QuarantineManager (T : Type 0) : Type 0 where
  pub entries : List QuarantineEntry
  pub metadata_file : Option T
  pub files : Files

-- Whether the temporary file opens, and is renamed into place.
pub record Saving : Type 0 where
  pub opens : Bool
  pub renames : Bool

abbrev pub saving : Saving
saving = record { opens = true; renames = true }

-- What a call of quarantine meets: the calls of its move and of a move back, its save, and the
-- identifier, the place and the time of the entry. reserve_destination gives the first two.
pub record Quarantining : Type 0 where
  pub moves : Calls
  pub moves_back : Calls
  pub saves : Saving
  pub id : Bytes
  pub destination : Bytes
  pub time : Bytes

-- What a call of restoreOne meets: whether directories can be made, and permissions set.
pub record Restoring : Type 0 where
  pub moves : Calls
  pub makes : Bool
  pub applies : Bool

unfoldable pub new_entry : Quarantining → Bytes → List Bytes → RegularFile → QuarantineEntry
new_entry c file signatures f = record {
  id = c.id;
  original_path = file;
  quarantine_path = c.destination;
  signatures = signatures;
  file_size = length f.content;
  quarantined_at = c.time;
  original_permissions = some f.permissions;
}

-- Where the save fails, the file is moved back; an exception leaves all as it is.
unfoldable pub after_save :
    {T : Type 0}
    → Quarantining
    → QuarantineEntry
    → QuarantineManager T × Outcome
    → QuarantineManager T × Outcome
after_save c e (q, throws) = (q, throws)
after_save c e (q, returns true) = (q, returns true)
after_save c e (q, returns false) = (
  record q {
    files = (move_file c.moves_back e.quarantine_path e.original_path q.files).0;
    entries = erase_id e.id q.entries;
  },
  returns false,
)

module _ {J T : Type 0} (json : Json J T) where
  unfoldable pub load : Bool → Bool → QuarantineManager T → QuarantineManager T × Bool
  load makes opens q =
      let (entries, done) = load_entries json opens q.metadata_file in
      if makes then (record q { entries = entries }, done) else (q, false)

  unfoldable pub save : Saving → QuarantineManager T → QuarantineManager T × Outcome
  save c q =
      if c.opens
      then elim (json.dump (root_json json q.entries)) [
        | none ↦ (q, throws)
        | some text ↦
            if c.renames
            then (record q { metadata_file = some text }, returns true)
            else (q, returns false)
      ]
      else (q, returns false)

  -- quarantine after the file was moved.
  unfoldable pub record_moved :
      Quarantining → QuarantineEntry → QuarantineManager T → QuarantineManager T × Outcome
  unfolding after_save
  record_moved c e q = after_save c e (save c.saves (record q { entries = add e q.entries }))

  unfoldable pub quarantine_present :
      Quarantining
      → Bytes
      → List Bytes
      → RegularFile
      → QuarantineManager T
      → QuarantineManager T × Outcome
  unfolding record_moved
  quarantine_present c file signatures f q =
      let (files, moved) = move_present c.moves file c.destination f q.files in
      let kept : QuarantineManager T = record q { files = files } in
      let done = record_moved c (new_entry c file signatures f) kept in
      if moved then done else (kept, returns false)

  unfoldable pub quarantine :
      Quarantining → Bytes → List Bytes → QuarantineManager T → QuarantineManager T × Outcome
  unfolding quarantine_present
  quarantine c file signatures q = elim (q.files file) [
    | none ↦ (q, returns false)
    | some f ↦ quarantine_present c file signatures f q
  ]

unfoldable pub restore_entry :
    {T : Type 0} → Restoring → QuarantineEntry → QuarantineManager T → QuarantineManager T × Bool
unfolding is_file
restore_entry {T} c e q =
    let (files, moved) = move_out c.moves c.makes e.quarantine_path e.original_path q.files in
    let restored : QuarantineManager T = record q {
      files = set_permissions c.applies e.original_path e.original_permissions files;
      entries = erase_id e.id q.entries;
    } in
    if is_file (q.files e.original_path)
    then (q, false)
    else if moved
    then (restored, true)
    else (record q { files = files }, false)

unfoldable pub restore_one :
    {T : Type 0} → Restoring → Bytes → QuarantineManager T → QuarantineManager T × Bool
restore_one c id q = elim (find id q.entries) [ none ↦ (q, false) | some e ↦ restore_entry c e q ]

-- The loop of restoreAll over a copy of the entries, and whether all were restored.
unfoldable pub restore_each :
    {T : Type 0}
    → (Bytes → Restoring)
    → List QuarantineEntry
    → Bool
    → QuarantineManager T
    → QuarantineManager T × Bool
unfolding restore_one
restore_each c [] all_ok q = (q, all_ok)
restore_each c (e ∷ es) all_ok q =
    let (q', ok) = restore_one (c e.id) e.id q in restore_each c es (ok && all_ok) q'

unfoldable pub remove_one :
    {T : Type 0} → Bool → Bytes → QuarantineManager T → QuarantineManager T × Bool
remove_one removes id q = elim (find id q.entries) [
  | none ↦ (q, false)
  | some e ↦
      let (files, removed) = remove_file removes e.quarantine_path q.files in
      if removed
      then (record q { files = files; entries = erase_id id q.entries }, true)
      else (q, false)
]

-- A result that only a save that succeeds leaves as it is.
abbrev pub and_outcome : Outcome → Bool → Outcome
and_outcome throws b = throws
and_outcome (returns true) b = returns b
and_outcome (returns false) b = returns false

module _ {J T : Type 0} (json : Json J T) where
  unfoldable pub restore :
      Restoring → Saving → Bytes → QuarantineManager T → QuarantineManager T × Outcome
  restore c saves id q =
      let (q', restored) = restore_one c id q in
      if restored then save json saves q' else (q', returns false)

  unfoldable pub restore_all :
      (Bytes → Restoring) → Saving → QuarantineManager T → QuarantineManager T × Outcome
  restore_all c saves q =
      let (q', all_ok) = restore_each c q.entries true q in
      let (q'', saved) = save json saves q' in (q'', and_outcome saved all_ok)

  unfoldable pub remove :
      Bool → Saving → Bytes → QuarantineManager T → QuarantineManager T × Outcome
  remove removes saves id q =
      let (q', removed) = remove_one removes id q in
      if removed then save json saves q' else (q', returns false)
