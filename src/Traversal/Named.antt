-- ===== src/Traversal/Named.antt =====
-- The relative path of a listed file is that of the names that lead to it, for a root that is an
-- absolute path of names; so the listing of a tidy tree is in order.
use virus_detector.Base.{
  ◌≡◌, refl, sym, ap, ◌∙◌, Bool, true, false, some, List, [], ◌∷◌, ◌++◌, append_assoc, append-nil,
  Bytes, bytes_eq_refl, bytes_lt_irrefl, slash, join, path_parts, path_parts-join,
  path_parts-absolute, absolute, append_name, append_name-absolute, IsName, All, All-append, arith,
  inl, inr, Bool-cases, Option-cases,
}
use virus_detector.Exclude.{PathRules, is_excluded}
use virus_detector.Resume.PathFilter.{before}
use virus_detector.Traversal.{
  Node, Children, file, directory, symlink, special, unreadable, nil, cons, FileStat, FileInfo,
  build_info, lexically_relative, relative_parts,
}
use virus_detector.Traversal.Listing.{Listed, under, list_node, list_children, list_root}
use virus_detector.Traversal.Sorted.{Comes, IsSorted, All-sorted}
use virus_detector.Traversal.Tidy.{IsTidy, AreTidy}
use virus_detector.Traversal.Ordered.{list_root-IsSorted}
use virus_detector.Traversal.InOrder.{IsInOrder, Follows}

relative_below :
    (rs : List Bytes) (n : Bytes) (ns : List Bytes) → relative_parts rs (rs ++ n ∷ ns) ≡ n ∷ ns
unfolding relative_parts
relative_below [] n ns = refl
relative_below (r ∷ rs) n ns = rw (bytes_eq_refl r) (relative_below rs n ns)

-- path::lexically_relative below an absolute root.
lexically_relative-absolute :
    (rs : List Bytes) (n : Bytes) (ns : List Bytes)
    → All IsName rs
    → All IsName (n ∷ ns)
    → lexically_relative (absolute (rs ++ n ∷ ns)) (absolute rs) ≡ join (n ∷ ns)
unfolding lexically_relative
lexically_relative-absolute rs n ns h k =
    rw (path_parts-absolute rs h, path_parts-absolute (rs ++ n ∷ ns) (All-append IsName rs _ h k))
      (ap join (relative_below ((slash ∷ []) ∷ rs) n ns))

build_info-relative_path :
    (root path : Bytes) (stat : FileStat) (info : FileInfo)
    → build_info root path stat ≡ some info
    → info.relative_path ≡ lexically_relative path root
unfolding build_info
build_info-relative_path root path stat info h = ground arith

build_info-path :
    (root path : Bytes) (stat : FileStat) (info : FileInfo)
    → build_info root path stat ≡ some info
    → info.path ≡ path
unfolding build_info
build_info-path root path stat info h = ground arith

-- The names behind those of its directory give the path, which is that below the root.
abbrev pub IsNamed : Bytes → List Bytes → Listed → Type 0
IsNamed root ds e =
    (e.1.relative_path ≡ join (ds ++ e.0))
    × All IsName e.0
    × (e.1.relative_path ≡ lexically_relative e.1.path root)

under-IsNamed :
    (root : Bytes) (ds : List Bytes) (n : Bytes) (es : List Listed)
    → IsName n
    → All (IsNamed root (ds ++ n ∷ [])) es
    → All (IsNamed root ds) (under n es)
unfolding under
under-IsNamed root ds n [] h k = tt
under-IsNamed root ds n (e ∷ es) h k = (
  (k.0.0 ∙ ap join (append_assoc ds (n ∷ []) e.0), (h, k.0.1), k.0.2),
  under-IsNamed root ds n es h k.1,
)

before_self : (ns : List Bytes) → before ns ns ≡ false
unfolding before
before_self [] = refl
before_self (n ∷ ns) = rw (bytes_lt_irrefl n, bytes_eq_refl n) (before_self ns)

names_after :
    (root : Bytes) (e : Listed) (es : List Listed)
    → IsNamed root [] e
    → All (IsNamed root []) es
    → All (Comes e) es
    → All (Follows e) es
names_after root e [] h k c = tt
names_after root e (f ∷ es) h k c = (
  (
    rw (h.0, k.0.0) (c.0.0),
    ap (λ p. before f.0 (path_parts p)) h.0 ∙ ap (before f.0) (path_parts-join e.0 h.1) ∙ c.0.1,
  ),
  names_after root e es h k.1 c.1,
)

sorted-IsInOrder :
    (root : Bytes) (es : List Listed) → All (IsNamed root []) es → IsSorted es → IsInOrder es
sorted-IsInOrder root [] h k = tt
sorted-IsInOrder root (e ∷ es) h k = (
  ap (λ p. before e.0 (path_parts p)) h.0.0
      ∙ ap (before e.0) (path_parts-join e.0 h.0.1)
      ∙ before_self e.0,
  names_after root e es h.0 h.1 k.0,
  sorted-IsInOrder root es h.1 k.1,
)

module _ (rules : PathRules) (excluded : List Bytes) (rs : List Bytes) (names : All IsName rs) where
  relative_entry :
      (ds : List Bytes) (n : Bytes)
      → All IsName ds
      → IsName n
      → lexically_relative (absolute (rs ++ (ds ++ n ∷ []))) (absolute rs) ≡ join (ds ++ n ∷ [])
  relative_entry [] n h k = lexically_relative-absolute rs n [] names (k, tt)
  relative_entry (d ∷ ds) n h k =
      lexically_relative-absolute rs d (ds ++ n ∷ []) names
        (All-append IsName (d ∷ ds) (n ∷ []) h (k, tt))

  child_path :
      (ds : List Bytes) (n path : Bytes)
      → All IsName ds
      → path ≡ absolute (rs ++ ds)
      → append_name path n ≡ absolute (rs ++ (ds ++ n ∷ []))
  child_path ds n path h e =
      ap (λ p. append_name p n) e
      ∙ append_name-absolute (rs ++ ds) n (All-append IsName rs ds names h)
      ∙ ap absolute (append_assoc rs ds (n ∷ []))

  mutual
    unfolding list_node list_children

    list_node-IsNamed :
        (node : Node) (ds : List Bytes) (n path : Bytes)
        → All IsName ds
        → IsName n
        → IsTidy node
        → path ≡ absolute (rs ++ (ds ++ n ∷ []))
        → All (IsNamed (absolute rs) ds) (list_node rules excluded (absolute rs) node n path)
    list_node-IsNamed (symlink target) ds n path h k t e = tt
    list_node-IsNamed unreadable ds n path h k t e = tt
    list_node-IsNamed special ds n path h k t e = tt
    list_node-IsNamed (file stat) ds n path h k t e =
        elim (Bool-cases (is_excluded rules excluded path)) [
          | inl out ↦ rw out tt
          | inr in_tree ↦ elim (Option-cases (build_info (absolute rs) path stat)) [
            | inl o ↦ rw (in_tree, o) tt
            | inr (info, o) ↦
                let relative : info.relative_path ≡ join (ds ++ n ∷ []) =
                  build_info-relative_path (absolute rs) path stat info o
                  ∙ ap (λ p. lexically_relative p (absolute rs)) e
                  ∙ relative_entry ds n h k in
                let below : info.relative_path ≡ lexically_relative info.path (absolute rs) =
                  build_info-relative_path (absolute rs) path stat info o
                  ∙ ap (λ p. lexically_relative p (absolute rs))
                      (sym (build_info-path (absolute rs) path stat info o)) in
                rw (in_tree, o) ((relative, (k, tt), below), tt)
          ]
        ]
    list_node-IsNamed (directory false cs) ds n path h k t e =
        elim (Bool-cases (is_excluded rules excluded path)) [
          | inl out ↦ rw out tt
          | inr in_tree ↦ rw in_tree tt
        ]
    list_node-IsNamed (directory true cs) ds n path h k t e =
        elim (Bool-cases (is_excluded rules excluded path)) [
          | inl out ↦ rw out tt
          | inr in_tree ↦ rw in_tree (
              under-IsNamed (absolute rs) ds n _ k (
                All-sorted (IsNamed (absolute rs) (ds ++ n ∷ []))
                  (list_children rules excluded (absolute rs) cs path)
                  (children-IsNamed cs (ds ++ n ∷ []) path (All-append IsName ds (n ∷ []) h (k, tt))
                    t e)))
        ]

    children-IsNamed :
        (cs : Children) (ds : List Bytes) (path : Bytes)
        → All IsName ds
        → AreTidy cs
        → path ≡ absolute (rs ++ ds)
        → All
            (λ a. All (IsNamed (absolute rs) ds) a.1)
            (list_children rules excluded (absolute rs) cs path)
    children-IsNamed nil ds path h t e = tt
    children-IsNamed (cons n node cs) ds path h t e = (
      list_node-IsNamed node ds n (append_name path n) h t.0 t.1 (child_path ds n path h e),
      children-IsNamed cs ds path h t.3 e,
    )

  pub list_root-IsNamed :
      (opens : Bool) (cs : Children)
      → AreTidy cs
      → All (IsNamed (absolute rs) []) (list_root rules excluded (absolute rs) opens cs)
  unfolding list_root
  list_root-IsNamed false cs t = elim (Bool-cases (is_excluded rules excluded (absolute rs))) [
    | inl out ↦ rw out tt
    | inr in_tree ↦ rw in_tree tt
  ]
  list_root-IsNamed true cs t = elim (Bool-cases (is_excluded rules excluded (absolute rs))) [
    | inl out ↦ rw out tt
    | inr in_tree ↦ rw in_tree (
        All-sorted (IsNamed (absolute rs) [])
          (list_children rules excluded (absolute rs) cs (absolute rs))
          (children-IsNamed cs [] (absolute rs) tt t (ap absolute (sym (append-nil rs)))))
  ]

  -- The listing of a tidy tree below an absolute root is in order.
  pub list_root-IsInOrder :
      (opens : Bool) (cs : Children)
      → AreTidy cs
      → IsInOrder (list_root rules excluded (absolute rs) opens cs)
  list_root-IsInOrder opens cs t =
      sorted-IsInOrder (absolute rs) (list_root rules excluded (absolute rs) opens cs)
        (list_root-IsNamed opens cs t) (list_root-IsSorted rules excluded (absolute rs) opens cs t)
