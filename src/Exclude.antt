-- ===== src/Exclude.antt =====
-- Exclude/ExcludeSet, PathFilter and ScanRootValidator. What the file system says of a path is a
-- parameter: `weakly_canonical` (`none` is an error) and `lexically_normal`.
pub mod Prefix
pub mod Ancestors
pub mod Tests
use virus_detector.Base.{
  ℕ, zero, suc, ◌+◌, ◌≡◌, Bool, true, false, not, ◌&&◌, ◌||◌, Option, none, some, List, [], ◌∷◌,
  ◌++◌, Bytes, codes, bytes_eq, contains, lines, trim, length, get_or, ltb, ◌==◌, if◌then◌else◌,
  slash,
}

abbrev pub default_excluded : List Bytes
default_excluded =
    codes "/proc"
    ∷ codes "/sys"
    ∷ codes "/dev"
    ∷ codes "/run"
    ∷ codes "/tmp"
    ∷ codes "/workspace/virus_detector"
    ∷ codes "/opt/virus-detector"
    ∷ []

pub record PathRules : Type 0 where
  pub weakly_canonical : Bytes → Option Bytes
  pub lexically_normal : Bytes → Bytes

unfoldable pub normalize : PathRules → Bytes → Bytes
normalize rules path = elim (rules.weakly_canonical path) [
  | none ↦ rules.lexically_normal path
  | some canonical ↦ canonical
]

-- std::unordered_set::insert.
unfoldable pub insert_path : Bytes → List Bytes → List Bytes
insert_path p ps = if contains ps p then ps else p ∷ ps

unfoldable pub insert_defaults : PathRules → List Bytes → List Bytes → List Bytes
insert_defaults rules [] excluded = excluded
insert_defaults rules (p ∷ ps) excluded =
    insert_defaults rules ps (insert_path (normalize rules p) excluded)

-- Neither empty nor a comment, and absolute.
unfoldable pub is_exclusion : Bytes → Bool
is_exclusion [] = false
is_exclusion (c ∷ s) = not (c == b'#') && (c == slash)

unfoldable pub insert_lines : PathRules → List Bytes → List Bytes → List Bytes
insert_lines rules [] excluded = excluded
insert_lines rules (line ∷ rest) excluded = insert_lines rules rest (
    if is_exclusion (trim line)
    then insert_path (normalize rules (trim line)) excluded
    else excluded)

-- The excluded paths, and whether the configuration file could be opened.
unfoldable pub load : PathRules → Option Bytes → List Bytes × Bool
unfolding insert_defaults insert_lines
load rules none = (insert_defaults rules default_excluded [], false)
load rules (some content) =
    (insert_lines rules (lines content) (insert_defaults rules default_excluded []), true)

pub starts_with : Bytes → Bytes → Bool
starts_with path [] = true
starts_with [] (c ∷ prefix) = false
starts_with (b ∷ path) (c ∷ prefix) = (b == c) && starts_with path prefix

unfoldable pub is_same_or_descendant : Bytes → Bytes → Bool
unfolding starts_with
is_same_or_descendant path prefix =
    bytes_eq path prefix
    || (ltb (length prefix) (length path)
        && (starts_with path prefix && (get_or path (length prefix) 0 == slash)))

any_ancestor : Bytes → List Bytes → Bool
any_ancestor path [] = false
any_ancestor path (e ∷ es) = let rest = any_ancestor path es in is_same_or_descendant path e || rest

unfoldable pub is_root_inside_excluded_path : PathRules → List Bytes → Bytes → Bool
unfolding any_ancestor
is_root_inside_excluded_path rules excluded root = any_ancestor (normalize rules root) excluded

-- PathFilter::isExcluded.
unfoldable pub is_excluded : PathRules → List Bytes → Bytes → Bool
is_excluded rules excluded path = contains excluded (normalize rules path)
