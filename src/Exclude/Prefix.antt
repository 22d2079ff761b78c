-- ===== src/Exclude/Prefix.antt =====
-- Which scan roots are refused, and which paths the configuration file excludes.
use virus_detector.Base.{
  ℕ, ◌≡◌, refl, sym, ap, ◌↔◌, ◌⊎◌, inl, inr, ◌≢◌, true, false, ◌&&◌, List, [], ◌∷◌, ◌++◌, Bytes,
  bytes_eq, bytes_eq_refl, bytes_eq→eq, length, get_or, ltb, ◌==◌, slash, In, arith, Bool-cases,
}
use virus_detector.Exclude.{
  PathRules, normalize, starts_with, is_same_or_descendant, any_ancestor,
  is_root_inside_excluded_path,
}

-- The path itself, or one that continues it by '/'.
abbrev pub IsBelow : Bytes → Bytes → Type 0
IsBelow path prefix = (path ≡ prefix) ⊎ ((rest : Bytes) × (path ≡ prefix ++ slash ∷ rest))

descendant_cases :
    (path prefix : Bytes)
    → (ltb (length prefix) (length path)
        && (starts_with path prefix && (get_or path (length prefix) 0 == slash)))
      ≡ true
    → (rest : Bytes) × (path ≡ prefix ++ slash ∷ rest)
unfolding starts_with
descendant_cases [] [] h = ground arith
descendant_cases [] (c ∷ prefix) h = ground arith
descendant_cases (b ∷ path) [] h = (path, ground arith)
descendant_cases (b ∷ path) (c ∷ prefix) h =
    let (rest, e) = descendant_cases path prefix (ground arith) in (rest, ground (arith, e))

descendant-append :
    (prefix rest : Bytes)
    → (ltb (length prefix) (length (prefix ++ slash ∷ rest))
        && (starts_with (prefix ++ slash ∷ rest) prefix
            && (get_or (prefix ++ slash ∷ rest) (length prefix) 0 == slash)))
      ≡ true
unfolding starts_with
descendant-append [] rest = ground arith
descendant-append (c ∷ prefix) rest = ground (arith, descendant-append prefix rest)

pub is_same_or_descendant_iff :
    (path prefix : Bytes) → (is_same_or_descendant path prefix ≡ true) ↔ IsBelow path prefix
unfolding is_same_or_descendant
is_same_or_descendant_iff path prefix = (forth, back)
  where
    forth : is_same_or_descendant path prefix ≡ true → IsBelow path prefix
    forth h = elim (Bool-cases (bytes_eq path prefix)) [
      | inl same ↦ inl (bytes_eq→eq path prefix same)
      | inr other ↦ inr (descendant_cases path prefix (rw other at h))
    ]

    back : IsBelow path prefix → is_same_or_descendant path prefix ≡ true
    back (inl e) = ground (arith, bytes_eq_refl prefix, ap (λ x. bytes_eq x prefix) e)
    back (inr (rest, e)) = elim (Bool-cases (bytes_eq path prefix)) [
      | inl same ↦ ground arith
      | inr other ↦ rw other (rw e (descendant-append prefix rest))
    ]

-- A scan root is refused exactly when its normal form is an excluded path or continues one by '/'.
pub is_root_inside_excluded_path_iff :
    (rules : PathRules) (excluded : List Bytes) (root : Bytes)
    → (is_root_inside_excluded_path rules excluded root ≡ true)
      ↔ ((e : Bytes) × In e excluded × IsBelow (normalize rules root) e)
unfolding is_root_inside_excluded_path
is_root_inside_excluded_path_iff rules excluded root = go (normalize rules root) excluded
  where
    go :
        (path : Bytes) (es : List Bytes)
        → (any_ancestor path es ≡ true) ↔ ((e : Bytes) × In e es × IsBelow path e)
    go path [] = (λ h. cc, λ (e, m, b). absurd m)
    go path (x ∷ es) =
        let ih = go path es in
        let one = is_same_or_descendant_iff path x in
        elim (Bool-cases (is_same_or_descendant path x)) [
          | inl here ↦ (λ h. (x, inl refl, one.0 here), λ _. ground arith)
          | inr past ↦ (
            λ h. let (e, m, b) = ih.0 (ground arith) in (e, inr m, b),
            λ (e, m, b). elim m [
              | inl same ↦
                  let hit : is_same_or_descendant path x ≡ true = one.1 (rw (sym same) b) in
                  ground arith
              | inr later ↦ let rest = ih.1 (e, later, b) in ground arith
            ],
          )
        ]

-- A path that starts with one '/' and goes on is not taken for a descendant of the path "/".
pub root_excludes_nothing_below :
    (c : ℕ) (rest : Bytes)
    → c ≢ slash
    → is_same_or_descendant (slash ∷ c ∷ rest) (slash ∷ []) ≡ false
unfolding is_same_or_descendant bytes_eq
root_excludes_nothing_below c rest h = ground arith
