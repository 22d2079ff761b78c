-- ===== src/Traversal/Listing.antt =====
-- The files that a walk should hand over, listed independently of it: with the names that lead to
-- each from the root, directories in the order of their names.
use virus_detector.Base.{
  ◌≡◌, refl, ap, inl, inr, Bool, true, false, none, some, List, [], ◌∷◌, ◌++◌, Bytes, bytes_lt,
  bytes_eq, append_name, arith, if◌then◌else◌, Bool-cases,
}
use virus_detector.Exclude.{PathRules, is_excluded}
use virus_detector.Traversal.{
  Node, Children, file, directory, symlink, special, unreadable, nil, cons, FileInfo, build_info,
  sort_by_name,
}
use virus_detector.Resume.PathFilter.{before}

abbrev pub Listed : Type 0
Listed = List Bytes × FileInfo

unfoldable pub concat : List (Bytes × List Listed) → List Listed
concat [] = []
concat ((n, l) ∷ ls) = l ++ concat ls

-- The listing of a directory, seen from its parent.
unfoldable pub under : Bytes → List Listed → List Listed
under n [] = []
under n ((ns, info) ∷ es) = (n ∷ ns, info) ∷ under n es

-- What is not before the checkpoint.
unfoldable pub kept : List Bytes → List Listed → List Listed
kept ps [] = []
kept ps (e ∷ es) = if before e.0 ps then kept ps es else e ∷ kept ps es

module _ (rules : PathRules) (excluded : List Bytes) (root : Bytes) where
  unfoldable mutual
    pub list_node : Node → Bytes → Bytes → List Listed
    list_node (symlink target) name path = []
    list_node unreadable name path = []
    list_node special name path = []
    list_node (file stat) name path =
        if is_excluded rules excluded path
        then []
        else elim (build_info root path stat) [ none ↦ [] | some info ↦ (name ∷ [], info) ∷ [] ]
    list_node (directory opens cs) name path =
        if is_excluded rules excluded path then [] else elim opens [
          | false ↦ []
          | true ↦ under name (concat (sort_by_name (list_children cs path)))
        ]

    pub list_children : Children → Bytes → List (Bytes × List Listed)
    list_children nil path = []
    list_children (cons name node cs) path =
        (name, list_node node name (append_name path name)) ∷ list_children cs path

  -- All files below the root directory.
  unfoldable pub list_root : Bool → Children → List Listed
  list_root opens cs =
      if is_excluded rules excluded root
      then []
      else elim opens [ false ↦ [] | true ↦ concat (sort_by_name (list_children cs root)) ]

pub kept-append :
    (ps : List Bytes) (xs ys : List Listed) → kept ps (xs ++ ys) ≡ kept ps xs ++ kept ps ys
unfolding kept
kept-append ps [] ys = refl
kept-append ps (e ∷ xs) ys = ground (arith, kept-append ps xs ys)

pub kept_all : (es : List Listed) → kept [] es ≡ es
unfolding kept before
kept_all [] = refl
kept_all (([], info) ∷ es) = ap (◌∷◌ ([], info)) (kept_all es)
kept_all ((n ∷ ns, info) ∷ es) = ap (◌∷◌ (n ∷ ns, info)) (kept_all es)

module _ (n p : Bytes) (ps : List Bytes) where
  pub kept-under_skip : (es : List Listed) → bytes_lt n p ≡ true → kept (p ∷ ps) (under n es) ≡ []
  unfolding kept under before
  kept-under_skip [] h = refl
  kept-under_skip (e ∷ es) h = ground (arith, kept-under_skip es h)

  pub kept-under_on :
      (es : List Listed)
      → bytes_lt n p ≡ false
      → bytes_eq n p ≡ true
      → kept (p ∷ ps) (under n es) ≡ under n (kept ps es)
  unfolding kept under before
  kept-under_on [] h k = refl
  kept-under_on (e ∷ es) h k = elim (Bool-cases (before e.0 ps)) [
    | inl b ↦ rw (h, k, b) (kept-under_on es h k)
    | inr b ↦ rw (h, k, b) (ap (◌∷◌ (n ∷ e.0, e.1)) (kept-under_on es h k))
  ]

  pub kept-under_past :
      (es : List Listed)
      → bytes_lt n p ≡ false
      → bytes_eq n p ≡ false
      → kept (p ∷ ps) (under n es) ≡ under n es
  unfolding kept under before
  kept-under_past [] h k = refl
  kept-under_past (e ∷ es) h k = rw (h, k) (ap (◌∷◌ (n ∷ e.0, e.1)) (kept-under_past es h k))
