-- ===== src/Resume/Manager.antt =====
-- Resume/ResumeManager.{h,cpp}: the unfinished files of a scan and the checkpoint file, which is
-- the content last renamed into place. Whether a save can write its file is an argument.
use virus_detector.Base.{
  ℕ, ◌+◌, Bool, true, false, ◌&&◌, Option, none, some, List, [], ◌∷◌, ◌++◌, Bytes, codes, bytes_eq,
  bytes_lt, ltb, if◌then◌else◌, lines, path_eq,
}

abbrev pub checkpoint_interval : ℕ
checkpoint_interval = 200

abbrev pub running : Bytes
running = codes "running"

abbrev pub completed : Bytes
completed = codes "completed"

pub record ResumeManager : Type 0 where
  pub root : Bytes
  pub next_file : Bytes
  pub unfinished_files : List Bytes
  pub discovery_finished : Bool
  pub since_last_save : ℕ
  pub checkpoint : Option Bytes

-- The constructor, in a process that finds this checkpoint file.
abbrev pub fresh : Option Bytes → ResumeManager
fresh found = record {
  root = [];
  next_file = [];
  unfinished_files = [];
  discovery_finished = false;
  since_last_save = 0;
  checkpoint = found;
}

-- The three lines of the checkpoint file.
unfoldable pub checkpoint_text : Bytes → Bytes → Bytes → Bytes
checkpoint_text root status next = root ++ (10 ∷ (status ++ (10 ∷ (next ++ 10 ∷ []))))

unfoldable pub load : Option Bytes → Option (Bytes × Bytes × Bytes)
load none = none
load (some text) = elim (lines text) [
  | [] ↦ none
  | root ∷ [] ↦ none
  | root ∷ status ∷ [] ↦ none
  | root ∷ status ∷ next ∷ rest ↦ some (root, status, next)
]

unfoldable pub save : Bool → Bytes → ResumeManager → ResumeManager × Bool
save false status m = (m, false)
save true status m = (
  record m { checkpoint = some (checkpoint_text m.root status m.next_file); since_last_save = 0 },
  true,
)

unfoldable pub maybe_save : Bool → Bytes → ResumeManager → ResumeManager × Bool
unfolding save
maybe_save writable status m =
    let counted : ResumeManager = record m { since_last_save = m.since_last_save + 1 } in
    if ltb (m.since_last_save + 1) checkpoint_interval
    then (counted, true)
    else save writable status counted

-- A loaded checkpoint of a running scan of the same root is resumed from.
unfoldable pub resumes : Option (Bytes × Bytes × Bytes) → Bytes → Option Bytes
resumes none root = none
resumes (some (saved_root, saved_status, next)) root =
    if bytes_eq saved_status running && path_eq saved_root root then some next else none

-- `root` is fs::absolute(scan_root). The results are `resumed` and the returned value.
unfoldable pub begin : Bool → Bytes → ResumeManager → ResumeManager × Bool × Bool
unfolding resumes save
begin writable root m =
    let reset : ResumeManager = record m {
      unfinished_files = [];
      discovery_finished = false;
      root = root;
    } in
    elim (resumes (load m.checkpoint) root) [
      | some next ↦ (record reset { next_file = next }, true, true)
      | none ↦
          let (m', done) = save writable running (record reset { next_file = [] }) in
          (m', false, done)
    ]

-- std::set<std::string>: sorted, without repetitions.
unfoldable pub insert_file : Bytes → List Bytes → List Bytes
insert_file f [] = f ∷ []
insert_file f (g ∷ gs) =
    if bytes_lt f g then f ∷ g ∷ gs else if bytes_eq f g then g ∷ gs else g ∷ insert_file f gs

unfoldable pub erase_file : Bytes → List Bytes → List Bytes
erase_file f [] = []
erase_file f (g ∷ gs) = if bytes_eq f g then gs else g ∷ erase_file f gs

-- `*unfinished_files_.begin()`, where the set is not empty.
unfoldable pub first_file : List Bytes → Bytes
first_file [] = []
first_file (f ∷ fs) = f

unfoldable pub add_file : Bytes → ResumeManager → ResumeManager
unfolding insert_file first_file
add_file f m =
    let files = insert_file f m.unfinished_files in
    record m { unfinished_files = files; next_file = first_file files }

unfoldable pub file_completed : Bool → Bytes → ResumeManager → ResumeManager × Bool
unfolding erase_file first_file save maybe_save
file_completed writable f m =
    let files = erase_file f m.unfinished_files in
    let erased : ResumeManager = record m { unfinished_files = files } in
    elim files [
      | [] ↦
          if m.discovery_finished
          then save writable completed (record erased { next_file = [] })
          else (erased, true)
      | g ∷ gs ↦ maybe_save writable running (record erased { next_file = g })
    ]

unfoldable pub discovery_finished : Bool → ResumeManager → ResumeManager × Bool
unfolding save
discovery_finished writable m =
    let marked : ResumeManager = record m { discovery_finished = true } in
    elim m.unfinished_files [
      | [] ↦ save writable completed (record marked { next_file = [] })
      | g ∷ gs ↦ save writable running marked
    ]
