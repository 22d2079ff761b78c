-- ===== src/Traversal/Ordered.antt =====
-- The listing of a tidy tree is in the order of its names and of its strings.
use virus_detector.Base.{
  ◌≡◌, refl, ap, inl, inr, Bool, true, false, List, [], ◌∷◌, Bytes, append_name, IsName, All,
  All-In, Bool-cases, Option-cases,
}
use virus_detector.Exclude.{PathRules, is_excluded}
use virus_detector.Traversal.{
  Node, Children, file, directory, symlink, special, unreadable, nil, cons, build_info,
}
use virus_detector.Traversal.Listing.{Listed, under, list_node, list_children, list_root}
use virus_detector.Traversal.Sorted.{
  IsSorted, Precedes, Comparable, AreComparable, concat-sort_by_name-IsSorted, All-sorted, IsBelow,
  under-IsSorted,
}
use virus_detector.Traversal.Tidy.{
  IsFirst, IsApart, IsTidy, AreTidy, name_lt, IsAt, IsAt-IsBelow, entries_across,
}

pub All-imp :
    {A : Type 0} (P Q : A → Type 0) (xs : List A) → ((x : A) → P x → Q x) → All P xs → All Q xs
All-imp P Q [] h k = tt
All-imp P Q (x ∷ xs) h k = (h x k.0, All-imp P Q xs h k.1)

-- Below a directory each listed file has a name first.
under_at :
    (n : Bytes) (es : List Listed)
    → All IsBelow es
    → All (λ e. (x : Bytes) × (xs : List Bytes) × (e.0 ≡ n ∷ x ∷ xs)) (under n es)
unfolding under
under_at n [] h = tt
under_at n (e ∷ es) h = let (x, xs, q) = h.0 in ((x, xs, ap (◌∷◌ n) q), under_at n es h.1)

module _ (rules : PathRules) (excluded : List Bytes) (root : Bytes) where
  mutual
    unfolding list_node list_children

    list_node-IsAt :
        (node : Node) (n path : Bytes)
        → All (IsAt node n) (list_node rules excluded root node n path)
    list_node-IsAt (symlink target) n path = tt
    list_node-IsAt unreadable n path = tt
    list_node-IsAt special n path = tt
    list_node-IsAt (file stat) n path = elim (Bool-cases (is_excluded rules excluded path)) [
      | inl out ↦ rw out tt
      | inr in_tree ↦ elim (Option-cases (build_info root path stat)) [
        | inl e ↦ rw (in_tree, e) tt
        | inr (info, e) ↦ rw (in_tree, e) (refl, tt)
      ]
    ]
    list_node-IsAt (directory false cs) n path =
        elim (Bool-cases (is_excluded rules excluded path)) [
          | inl out ↦ rw out tt
          | inr in_tree ↦ rw in_tree tt
        ]
    list_node-IsAt (directory true cs) n path =
        elim (Bool-cases (is_excluded rules excluded path)) [
          | inl out ↦ rw out tt
          | inr in_tree ↦ rw in_tree (
              under_at n _ (
                All-sorted IsBelow (list_children rules excluded root cs path)
                  (children-IsBelow cs path)))
        ]

    children-IsBelow :
        (cs : Children) (path : Bytes)
        → All (λ a. All IsBelow a.1) (list_children rules excluded root cs path)
    children-IsBelow nil path = tt
    children-IsBelow (cons n node cs) path = (
      All-imp (IsAt node n) IsBelow _ (IsAt-IsBelow node n)
          (list_node-IsAt node n (append_name path n)),
      children-IsBelow cs path,
    )

  precedes :
      (node other : Node) (n m path path' : Bytes)
      → IsName m
      → IsFirst node n m
      → Precedes
          (n, list_node rules excluded root node n path)
          (m, list_node rules excluded root other m path')
  precedes node other n m path path' name h = (
    name_lt node n m h,
    λ e f k l.
        entries_across node other n m e f name.1 h
          (All-In (IsAt node n) e _ (list_node-IsAt node n path) k)
          (All-In (IsAt other m) f _ (list_node-IsAt other m path') l),
  )

  entry-Comparable :
      (n : Bytes) (node : Node) (cs : Children) (path path' : Bytes)
      → IsName n
      → IsApart n node cs
      → AreTidy cs
      → All
          (Comparable (n, list_node rules excluded root node n path))
          (list_children rules excluded root cs path')
  unfolding list_children
  entry-Comparable n node nil path path' name h k = tt
  entry-Comparable n node (cons m other cs) path path' name h k = (
    elim h.0 [
      | inl first ↦ inl (precedes node other n m path (append_name path' m) k.0 first)
      | inr last ↦ inr (precedes other node m n (append_name path' m) path name last)
    ],
    entry-Comparable n node cs path path' name h.1 k.3,
  )

  children-AreComparable :
      (cs : Children) (path : Bytes)
      → AreTidy cs
      → AreComparable (list_children rules excluded root cs path)
  unfolding list_children
  children-AreComparable nil path h = tt
  children-AreComparable (cons n node cs) path h = (
    entry-Comparable n node cs (append_name path n) path h.0 h.2 h.3,
    children-AreComparable cs path h.3,
  )

  mutual
    unfolding list_node list_children

    list_node-IsSorted :
        (node : Node) (n path : Bytes)
        → IsTidy node
        → IsSorted (list_node rules excluded root node n path)
    list_node-IsSorted (symlink target) n path h = tt
    list_node-IsSorted unreadable n path h = tt
    list_node-IsSorted special n path h = tt
    list_node-IsSorted (file stat) n path h = elim (Bool-cases (is_excluded rules excluded path)) [
      | inl out ↦ rw out tt
      | inr in_tree ↦ elim (Option-cases (build_info root path stat)) [
        | inl e ↦ rw (in_tree, e) tt
        | inr (info, e) ↦ rw (in_tree, e) (tt, tt)
      ]
    ]
    list_node-IsSorted (directory false cs) n path h =
        elim (Bool-cases (is_excluded rules excluded path)) [
          | inl out ↦ rw out tt
          | inr in_tree ↦ rw in_tree tt
        ]
    list_node-IsSorted (directory true cs) n path h =
        elim (Bool-cases (is_excluded rules excluded path)) [
          | inl out ↦ rw out tt
          | inr in_tree ↦ rw in_tree (
              under-IsSorted n _
                (All-sorted IsBelow (list_children rules excluded root cs path)
                  (children-IsBelow cs path))
                (concat-sort_by_name-IsSorted (list_children rules excluded root cs path)
                  (children-AreComparable cs path h) (children-IsSorted cs path h)))
        ]

    children-IsSorted :
        (cs : Children) (path : Bytes)
        → AreTidy cs
        → All (λ a. IsSorted a.1) (list_children rules excluded root cs path)
    children-IsSorted nil path h = tt
    children-IsSorted (cons n node cs) path h =
        (list_node-IsSorted node n (append_name path n) h.1, children-IsSorted cs path h.3)

  pub list_root-IsSorted :
      (opens : Bool) (cs : Children)
      → AreTidy cs
      → IsSorted (list_root rules excluded root opens cs)
  unfolding list_root
  list_root-IsSorted false cs h = elim (Bool-cases (is_excluded rules excluded root)) [
    | inl out ↦ rw out tt
    | inr in_tree ↦ rw in_tree tt
  ]
  list_root-IsSorted true cs h = elim (Bool-cases (is_excluded rules excluded root)) [
    | inl out ↦ rw out tt
    | inr in_tree ↦ rw in_tree (
        concat-sort_by_name-IsSorted (list_children rules excluded root cs root)
          (children-AreComparable cs root h) (children-IsSorted cs root h))
  ]
