-- ===== src/Traversal.antt =====
-- Scan/Traversal: FileInfoBuilder and FileTreeWalker over a tree of directory entries. A handler is
-- a state transformer that says whether to go on. Directory listings are sorted by name; the names
-- of one directory are distinct, so any sort gives the same order.
pub mod Listing
pub mod Resumed
pub mod Walked
pub mod InOrder
pub mod Sorted
pub mod Tidy
pub mod Ordered
pub mod Named
pub mod Tests
use virus_detector.Base.{
  ℕ, zero, suc, ◌+◌, ◌-◌, ◌≡◌, Bool, true, false, not, ◌&&◌, ◌||◌, Option, none, some, List, [],
  ◌∷◌, ◌++◌, Bytes, codes, bytes_eq, bytes_lt, length, ltb, leb, ◌==◌, if◌then◌else◌, ℤ,
  append_name, path_parts, join, drop,
}
use virus_detector.Exclude.{PathRules, is_excluded, is_root_inside_excluded_path}
use virus_detector.Resume.PathFilter.{
  ResumePathFilter, ResumeDecision, skip_entry, continue_toward_resume_point, traverse_normally,
  no_resume, resume_from, decide,
}

-- `none` where the call reports an error.
pub record FileStat : Type 0 where
  pub size : Option ℕ
  pub write_time : Option ℤ

-- What a name stands for. A symbolic link carries what it points to; a directory says whether it
-- can be opened; `unreadable` is an entry whose status cannot be read.
mutual
  pub data Node : Type 0 where
    file : FileStat → Node
    directory : Bool → Children → Node
    symlink : Node → Node
    special unreadable : Node

  pub data Children : Type 0 where
    nil : Children
    cons : Bytes → Node → Children → Children

pub record FileInfo : Type 0 where
  pub path : Bytes
  pub relative_path : Bytes
  pub size : ℕ
  pub last_modified : ℤ

-- path::lexically_relative, on the parts: what is left of the path after the common parts, behind
-- one ".." for each name that is left of the root.
unfoldable pub ups : List Bytes → ℕ
ups [] = 0
ups (p ∷ ps) =
    if bytes_eq p [] || bytes_eq p (codes ".")
    then ups ps
    else if bytes_eq p (codes "..")
    then ups ps - 1
    else suc (ups ps)

unfoldable pub climb : ℕ → List Bytes → List Bytes
climb zero ps = ps
climb (suc n) ps = codes ".." ∷ climb n ps

unfoldable pub relative_parts : List Bytes → List Bytes → List Bytes
relative_parts [] [] = codes "." ∷ []
relative_parts [] (p ∷ ps) = p ∷ ps
relative_parts (r ∷ rs) [] = climb (ups (r ∷ rs)) []
relative_parts (r ∷ rs) (p ∷ ps) =
    let rest = relative_parts rs ps in if bytes_eq r p then rest else climb (ups (r ∷ rs)) (p ∷ ps)

unfoldable pub lexically_relative : Bytes → Bytes → Bytes
unfolding ups climb relative_parts
lexically_relative path root = join (relative_parts (path_parts root) (path_parts path))

-- FileInfoBuilder::build.
unfoldable pub build_info : Bytes → Bytes → FileStat → Option FileInfo
build_info root path stat = elim stat.size [
  | none ↦ none
  | some size ↦ elim stat.write_time [
    | none ↦ none
    | some time ↦ some (record {
      path = path;
      relative_path = lexically_relative path root;
      size = size;
      last_modified = time;
    })
  ]
]

-- std::ranges::sort of the entries by file name.
module _ {A : Type 0} where
  unfoldable pub insert_by_name : Bytes × A → List (Bytes × A) → List (Bytes × A)
  insert_by_name e [] = e ∷ []
  insert_by_name e (f ∷ fs) = if bytes_lt f.0 e.0 then f ∷ insert_by_name e fs else e ∷ f ∷ fs

  unfoldable pub sort_by_name : List (Bytes × A) → List (Bytes × A)
  sort_by_name [] = []
  sort_by_name (e ∷ es) = insert_by_name e (sort_by_name es)

-- What is done for each decision: skip, continue towards the resume point, traverse normally.
abbrev pub by_decision : {A : Type 0} → ResumeDecision → A → A → A → A
by_decision skip_entry a b c = a
by_decision continue_toward_resume_point a b c = b
by_decision traverse_normally a b c = c

-- Entries are visited until one stops the walk.
unfoldable pub run_actions : {S : Type 0} → List (Bytes × (S → S × Bool)) → S → S × Bool
run_actions [] s = (s, true)
run_actions ((n, act) ∷ rest) s =
    let (s', go) = act s in let more = run_actions rest s' in if go then more else (s', false)

module _ (rules : PathRules) (excluded : List Bytes) (root : Bytes) where
  module _ {S : Type 0} (handler : FileInfo → S → S × Bool) where
    unfoldable pub hand_over : Option FileInfo → S → S × Bool
    hand_over none s = (s, true)
    hand_over (some info) s = handler info s

    -- walkDirectory below its guard: open, sort, visit each entry.
    unfoldable pub walk_opened : Bool → List (Bytes × (S → S × Bool)) → S → S × Bool
    walk_opened false actions s = (s, true)
    walk_opened true actions s = run_actions (sort_by_name actions) s

    unfoldable mutual
      -- The body of the loop over the entries, for one entry.
      pub visit : Node → Bytes → Bytes → ResumePathFilter → ℕ → S → S × Bool
      visit (symlink target) name path f depth s = (s, true)
      visit unreadable name path f depth s = (s, true)
      visit special name path f depth s = (s, true)
      visit (file stat) name path f depth s =
          if is_excluded rules excluded path
          then (s, true)
          else by_decision (decide f name depth) (s, true) (hand_over (build_info root path stat) s)
              (hand_over (build_info root path stat) s)
      visit (directory opens cs) name path f depth s =
          if is_excluded rules excluded path
          then (s, true)
          else by_decision (decide f name depth) (s, true)
              (walk_opened opens (entry_actions cs path f (depth + 1)) s)
              (walk_opened opens (entry_actions cs path no_resume 0) s)

      -- What visiting each child would do, in the order of the directory iterator.
      pub entry_actions : Children → Bytes → ResumePathFilter → ℕ → List (Bytes × (S → S × Bool))
      entry_actions nil parent f depth = []
      entry_actions (cons name node cs) parent f depth =
          (name, visit node name (append_name parent name) f depth)
          ∷ entry_actions cs parent f depth

    -- walkDirectory. (A nested call finds its directory not excluded, as `visit` has just seen.)
    unfoldable pub walk_directory : Bool → Children → Bytes → ResumePathFilter → ℕ → S → S × Bool
    walk_directory opens cs path f depth s =
        if is_excluded rules excluded path
        then (s, true)
        else walk_opened opens (entry_actions cs path f depth) s

    -- FileTreeWalker::walk. `none`: the root does not exist. A root that links to a file is read; one
    -- that links to a directory is not walked.
    unfoldable pub walk : Option Node → Bytes → S → S × Bool
    walk none from s = (s, false)
    walk (some node) from s =
        if is_root_inside_excluded_path rules excluded root then (s, true) else elim node [
          | file stat ↦ hand_over (build_info root root stat) s
          | directory opens cs ↦ walk_directory opens cs root (resume_from from) 0 s
          | symlink (file stat) ↦ hand_over (build_info root root stat) s
          | symlink (directory opens cs) ↦ (s, true)
          | _ ↦ (s, false)
        ]
