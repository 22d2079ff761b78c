-- ===== src/Traversal/Resumed.antt =====
-- The walk hands over exactly the listed files that are not before the checkpoint, in their order.
use virus_detector.Base.{
  ℕ, zero, suc, ◌+◌, ◌≡◌, refl, sym, ap, ◌∙◌, inl, inr, Bool, true, false, Option, none, some, List,
  [], ◌∷◌, ◌++◌, Bytes, bytes_lt, bytes_eq, append_name, arith, Bool-cases, drop, path_parts,
}
use mathlib.Core.Path.{ap₂}
use virus_detector.Exclude.{PathRules, is_excluded, is_root_inside_excluded_path}
use virus_detector.Resume.PathFilter.{no_resume, decide_at, decide-decide_at, before}
use virus_detector.Traversal.{
  Node, Children, file, directory, symlink, special, unreadable, nil, cons, FileInfo, build_info,
  insert_by_name, sort_by_name, run_actions, hand_over, walk_opened, visit, entry_actions,
  walk_directory, walk, by_decision,
}
use virus_detector.Traversal.Listing.{
  Listed, concat, under, kept, list_node, list_children, list_root, kept-append, kept_all,
  kept-under_skip, kept-under_on, kept-under_past,
}

drop-suc :
    (ps : List Bytes) (depth : ℕ) (p : Bytes) (qs : List Bytes)
    → drop depth ps ≡ p ∷ qs
    → drop (suc depth) ps ≡ qs
drop-suc [] zero p qs e = cc
drop-suc [] (suc depth) p qs e = cc
drop-suc (q ∷ ps) zero p qs e = cc
drop-suc (q ∷ ps) (suc depth) p qs e = drop-suc ps depth p qs e

under_opens :
    (opens : Bool) (name : Bytes) (ls : List (Bytes × List Listed))
    → under name (elim opens [ false ↦ [] | true ↦ concat (sort_by_name ls) ])
      ≡ elim opens as (λ b. List Listed) [
        | false ↦ []
        | true ↦ under name (concat (sort_by_name ls))
      ]
unfolding under
under_opens false name ls = refl
under_opens true name ls = refl

module _ (rules : PathRules) (excluded : List Bytes) (root : Bytes) {S : Type 0}
    (h : FileInfo → S → S) where
  -- A handler that always goes on, as that of a scan does.
  abbrev pub on : FileInfo → S → S × Bool
  on info s = (h info s, true)

  unfoldable pub feed : List Listed → S → S
  feed [] s = s
  feed (e ∷ es) s = feed es (h e.1 s)

  feed-append : (xs ys : List Listed) (s : S) → feed (xs ++ ys) s ≡ feed ys (feed xs s)
  unfolding feed
  feed-append [] ys s = refl
  feed-append (e ∷ xs) ys s = feed-append xs ys (h e.1 s)

  feed-under : (n : Bytes) (es : List Listed) (s : S) → feed (under n es) s ≡ feed es s
  unfolding feed under
  feed-under n [] s = refl
  feed-under n (e ∷ es) s = feed-under n es (h e.1 s)

  -- Actions and listings, entry by entry.
  Agree : List Bytes → List (Bytes × (S → S × Bool)) → List (Bytes × List Listed) → Type 0
  Agree ps [] [] = Unit
  Agree ps [] (l ∷ ls) = ⊥
  Agree ps (a ∷ acts) [] = ⊥
  Agree ps (a ∷ acts) (l ∷ ls) =
      (a.0 ≡ l.0) × ((s : S) → a.1 s ≡ (feed (kept ps l.1) s, true)) × Agree ps acts ls

  Agree-insert :
      (ps : List Bytes) (a : Bytes × (S → S × Bool)) (l : Bytes × List Listed)
      (acts : List (Bytes × (S → S × Bool))) (ls : List (Bytes × List Listed))
      → a.0 ≡ l.0
      → ((s : S) → a.1 s ≡ (feed (kept ps l.1) s, true))
      → Agree ps acts ls
      → Agree ps (insert_by_name a acts) (insert_by_name l ls)
  unfolding Agree insert_by_name
  Agree-insert ps a l [] [] e r g = (e, r, tt)
  Agree-insert ps a l [] (m ∷ ls) e r g = absurd g
  Agree-insert ps a l (b ∷ acts) [] e r g = absurd g
  Agree-insert ps a l (b ∷ acts) (m ∷ ls) e r g = elim (Bool-cases (bytes_lt b.0 a.0)) [
    | inl lt ↦
        let lt' : bytes_lt m.0 l.0 ≡ true = ap₂ bytes_lt (sym g.0) (sym e) ∙ lt in
        rw (lt, lt') (g.0, g.1, Agree-insert ps a l acts ls e r g.2)
    | inr ge ↦
        let ge' : bytes_lt m.0 l.0 ≡ false = ap₂ bytes_lt (sym g.0) (sym e) ∙ ge in
        rw (ge, ge') (e, r, g)
  ]

  Agree-sort :
      (ps : List Bytes) (acts : List (Bytes × (S → S × Bool))) (ls : List (Bytes × List Listed))
      → Agree ps acts ls
      → Agree ps (sort_by_name acts) (sort_by_name ls)
  unfolding Agree sort_by_name
  Agree-sort ps [] [] g = tt
  Agree-sort ps [] (l ∷ ls) g = absurd g
  Agree-sort ps (a ∷ acts) [] g = absurd g
  Agree-sort ps (a ∷ acts) (l ∷ ls) g =
      Agree-insert ps a l (sort_by_name acts) (sort_by_name ls) g.0 g.1 (Agree-sort ps acts ls g.2)

  Agree-run :
      (ps : List Bytes) (acts : List (Bytes × (S → S × Bool))) (ls : List (Bytes × List Listed))
      (s : S)
      → Agree ps acts ls
      → run_actions acts s ≡ (feed (kept ps (concat ls)) s, true)
  unfolding Agree run_actions concat
  Agree-run ps [] [] s g = unfold kept feed in refl
  Agree-run ps [] (l ∷ ls) s g = absurd g
  Agree-run ps (a ∷ acts) [] s g = absurd g
  Agree-run ps (a ∷ acts) (l ∷ ls) s g = rw (g.1 s) (
      Agree-run ps acts ls (feed (kept ps l.1) s) g.2
      ∙ ap (λ x. (x, true))
          (sym (
            ap (λ es. feed es s) (kept-append ps l.1 (concat ls))
            ∙ feed-append (kept ps l.1) (kept ps (concat ls)) s)))

  -- Opened or not, a directory hands over what its listing keeps.
  walk_opened-feed :
      (ps : List Bytes) (opens : Bool) (acts : List (Bytes × (S → S × Bool)))
      (ls : List (Bytes × List Listed)) (s : S)
      → Agree ps acts ls
      → walk_opened rules excluded root on opens acts s
        ≡ (feed (kept ps (elim opens [ false ↦ [] | true ↦ concat (sort_by_name ls) ])) s, true)
  unfolding walk_opened
  walk_opened-feed ps false acts ls s g = unfold kept feed in refl
  walk_opened-feed ps true acts ls s g =
      Agree-run ps (sort_by_name acts) (sort_by_name ls) s (Agree-sort ps acts ls g)

  -- One file, whatever the filter decides.
  file-feed :
      (ps : List Bytes) (name : Bytes) (o : Option FileInfo) (s : S)
      → by_decision {A = S × Bool}
          (decide_at ps name)
          (s, true)
          (hand_over rules excluded root on o s)
          (hand_over rules excluded root on o s)
        ≡ (feed (kept ps (elim o [ none ↦ [] | some info ↦ (name ∷ [], info) ∷ [] ])) s, true)
  unfolding decide_at hand_over feed kept before
  file-feed [] name none s = refl
  file-feed [] name (some i) s = refl
  file-feed (p ∷ []) name none s = ground arith
  file-feed (p ∷ []) name (some i) s = ground arith
  file-feed (p ∷ q ∷ ps) name none s = ground arith
  file-feed (p ∷ q ∷ ps) name (some i) s = ground arith

  -- One directory, entered on the way to the checkpoint or in full.
  directory-feed :
      (ps : List Bytes) (name : Bytes) (toward full : S → S × Bool) (es : List Listed) (s : S)
      → ((p : Bytes) (qs : List Bytes) → ps ≡ p ∷ qs → toward s ≡ (feed (kept qs es) s, true))
      → full s ≡ (feed (kept [] es) s, true)
      → by_decision {A = S × Bool} (decide_at ps name) (s, true) (toward s) (full s)
        ≡ (feed (kept ps (under name es)) s, true)
  unfolding decide_at
  directory-feed [] name toward full es s on_path whole =
      whole
      ∙ ap (λ x. (x, true))
          (ap (λ l. feed l s) (kept_all es)
            ∙ sym (ap (λ l. feed l s) (kept_all (under name es)) ∙ feed-under name es s))
  directory-feed (p ∷ ps) name toward full es s on_path whole =
      elim (Bool-cases (bytes_lt name p)) [
        | inl lt ↦ skips ps lt ∙ ap (λ l. (feed l s, true)) (sym (kept-under_skip name p ps es lt))
        | inr ge ↦ elim (Bool-cases (bytes_eq name p)) [
          | inl same ↦
              enters ps ge same (on_path p ps refl)
              ∙ ap (λ x. (x, true))
                  (sym (
                    ap (λ l. feed l s) (kept-under_on name p ps es ge same)
                    ∙ feed-under name (kept ps es) s))
          | inr other ↦
              passes ps ge other
              ∙ ap (λ x. (x, true))
                  (ap (λ l. feed l s) (kept_all es)
                    ∙ sym (
                        ap (λ l. feed l s) (kept-under_past name p ps es ge other)
                        ∙ feed-under name es s))
        ]
      ]
    where
      skips :
          (qs : List Bytes)
          → bytes_lt name p ≡ true
          → by_decision {A = S × Bool} (decide_at (p ∷ qs) name) (s, true) (toward s) (full s)
            ≡ (feed [] s, true)
      skips [] lt = unfold feed in ground arith
      skips (q ∷ qs) lt = unfold feed in ground arith

      enters :
          (qs : List Bytes)
          → bytes_lt name p ≡ false
          → bytes_eq name p ≡ true
          → toward s ≡ (feed (kept qs es) s, true)
          → by_decision {A = S × Bool} (decide_at (p ∷ qs) name) (s, true) (toward s) (full s)
            ≡ (feed (kept qs es) s, true)
      enters [] ge same e = rw (ge, decide_at) whole
      enters (q ∷ qs) ge same e = rw (ge, same, decide_at) e

      passes :
          (qs : List Bytes)
          → bytes_lt name p ≡ false
          → bytes_eq name p ≡ false
          → by_decision {A = S × Bool} (decide_at (p ∷ qs) name) (s, true) (toward s) (full s)
            ≡ (feed (kept [] es) s, true)
      passes [] ge other = rw (ge, decide_at) whole
      passes (q ∷ qs) ge other = rw (ge, other, decide_at) whole

  drop-suc_add : (depth : ℕ) (qs : List Bytes) → drop (depth + 1) qs ≡ drop (suc depth) qs
  drop-suc_add depth qs = ap (λ d. drop d qs) {y = suc depth} (omega arith)

  nothing-feed :
      (ps : List Bytes) (s : S) → ◌≡◌ {A = S × Bool} (s, true) (feed (kept ps []) s, true)
  unfolding kept feed
  nothing-feed ps s = refl

  mutual
    unfolding visit entry_actions list_node list_children Agree

    visit-feed :
        (node : Node) (name path : Bytes) (qs : List Bytes) (depth : ℕ) (s : S)
        → visit rules excluded root on node name path (record { parts = qs }) depth s
          ≡ (feed (kept (drop depth qs) (list_node rules excluded root node name path)) s, true)
    visit-feed (symlink target) name path qs depth s = nothing-feed (drop depth qs) s
    visit-feed unreadable name path qs depth s = nothing-feed (drop depth qs) s
    visit-feed special name path qs depth s = nothing-feed (drop depth qs) s
    visit-feed (file stat) name path qs depth s =
        elim (Bool-cases (is_excluded rules excluded path)) [
          | inl out ↦ rw out (nothing-feed (drop depth qs) s)
          | inr in_tree ↦
              rw (in_tree, decide-decide_at qs name depth)
                (file-feed (drop depth qs) name (build_info root path stat) s)
        ]
    visit-feed (directory opens cs) name path qs depth s =
        elim (Bool-cases (is_excluded rules excluded path)) [
          | inl out ↦ rw out (nothing-feed (drop depth qs) s)
          | inr in_tree ↦
              let ls = list_children rules excluded root cs path in
              let es : List Listed = elim opens [ false ↦ [] | true ↦ concat (sort_by_name ls) ] in
              rw (in_tree, decide-decide_at qs name depth)
                (directory-feed (drop depth qs) name
                    (walk_opened rules excluded root on opens (
                      entry_actions rules excluded root on cs path (record { parts = qs })
                        (depth + 1)))
                    (walk_opened rules excluded root on opens
                      (entry_actions rules excluded root on cs path no_resume 0))
                    es s
                    (λ p r e.
                      walk_opened-feed (drop (depth + 1) qs) opens _ ls s
                        (actions-Agree cs path qs (depth + 1))
                      ∙ ap (λ k. (feed (kept k es) s, true))
                          (drop-suc_add depth qs ∙ drop-suc qs depth p r e))
                    (walk_opened-feed [] opens _ ls s (actions-Agree cs path [] 0))
                  ∙ ap (λ l. (feed (kept (drop depth qs) l) s, true)) (under_opens opens name ls))
        ]

    actions-Agree :
        (cs : Children) (path : Bytes) (qs : List Bytes) (depth : ℕ)
        → Agree
            (drop depth qs)
            (entry_actions rules excluded root on cs path (record { parts = qs }) depth)
            (list_children rules excluded root cs path)
    actions-Agree nil path qs depth = tt
    actions-Agree (cons name node cs) path qs depth = (
      refl,
      λ s. visit-feed node name (append_name path name) qs depth s,
      actions-Agree cs path qs depth,
    )

  -- For a root that is not refused and a handler that always goes on, walking a directory tree
  -- from the checkpoint `from` hands over, in the order of the listing, exactly the files whose
  -- names are not before the checkpoint's parts.
  pub walk-kept :
      (opens : Bool) (cs : Children) (from : Bytes) (s : S)
      → is_root_inside_excluded_path rules excluded root ≡ false
      → walk rules excluded root on (some (directory opens cs)) from s
        ≡ (feed (kept (path_parts from) (list_root rules excluded root opens cs)) s, true)
  unfolding walk walk_directory list_root
  walk-kept opens cs from s outside =
      rw outside (elim (Bool-cases (is_excluded rules excluded root)) [
        | inl out ↦ rw out (nothing-feed (path_parts from) s)
        | inr in_tree ↦ rw in_tree (
            walk_opened-feed (path_parts from) opens _ (list_children rules excluded root cs root) s
              (actions-Agree cs root (path_parts from) 0))
      ])
