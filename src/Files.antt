-- ===== src/Files.antt =====
-- Quarantine/QuarantineFileOperations.{h,cpp} and the calls of std::filesystem that QuarantineManager
-- makes. The regular files are a map from paths; which calls succeed is an argument of each operation.
pub mod Move
pub mod Others
use virus_detector.Base.{
  ℕ, Bool, true, false, not, ◌&&◌, Option, none, some, List, [], ◌∷◌, Bytes, bytes_eq,
  if◌then◌else◌,
}

pub record RegularFile : Type 0 where
  pub content : Bytes
  pub permissions : ℕ

abbrev pub Files : Type 0
Files = Bytes → Option RegularFile

abbrev pub set_file : Bytes → Option RegularFile → Files → Files
set_file path o files p = if bytes_eq path p then o else files p

-- What the calls of moveFile do: whether the rename, the copy and the removal succeed, and the
-- permissions of a copy.
pub record Calls : Type 0 where
  pub renames : Bool
  pub copies : Bool
  pub removes : Bool
  pub copied_permissions : ℕ

unfoldable pub is_file : Option RegularFile → Bool
is_file none = false
is_file (some f) = true

unfoldable pub move_present : Calls → Bytes → Bytes → RegularFile → Files → Files × Bool
unfolding is_file
move_present c source destination f files =
    let copied =
      set_file destination (some (record f { permissions = c.copied_permissions })) files in
    if c.renames
    then (set_file destination (some f) (set_file source none files), true)
    else if c.copies && not (is_file (files destination))
    then if c.removes then (set_file source none copied, true) else (copied, false)
    else (files, false)

unfoldable pub move_file : Calls → Bytes → Bytes → Files → Files × Bool
move_file c source destination files = elim (files source) [
  | none ↦ (files, false)
  | some f ↦ move_present c source destination f files
]

-- The loop of reserveDestination over the identifiers that are generated, with the place of each.
unfoldable pub reserve_destination : List (Bytes × Bytes) → Files → Option (Bytes × Bytes)
unfolding is_file
reserve_destination [] files = none
reserve_destination ((id, destination) ∷ more) files =
    let rest = reserve_destination more files in
    if is_file (files destination) then rest else some (id, destination)

-- moveOut: `makes` says whether the directories above the original path can be made.
unfoldable pub move_out : Calls → Bool → Bytes → Bytes → Files → Files × Bool
unfolding move_file
move_out c makes quarantine_path original_path files =
    if makes then move_file c quarantine_path original_path files else (files, false)

-- fs::remove, which is no error on a missing file.
unfoldable pub remove_file : Bool → Bytes → Files → Files × Bool
remove_file removes path files =
    if removes then (set_file path none files, true) else (files, false)

-- fs::permissions with perm_options::replace.
unfoldable pub set_permissions : Bool → Bytes → Option ℕ → Files → Files
set_permissions applies path none files = files
set_permissions false path (some m) files = files
set_permissions true path (some m) files = elim (files path) [
  | none ↦ files
  | some f ↦ set_file path (some (record f { permissions = m })) files
]
