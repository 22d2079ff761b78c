-- ===== src/Automaton/Goto.antt =====
-- The transitions and failure links that the builder has to reach, as functions of the trie, and
-- the recurrences by which it computes them.
use virus_detector.Base.{
  ℕ, suc, ◌+◌, ◌<◌, ◌≤◌, ◌≡◌, refl, sym, ap, ◌∙◌, ◌⊎◌, inl, inr, ◌≢◌, none, some, [], ◌∷◌, ◌++◌,
  Bytes, length, arith, length-append, Option-cases,
}
use virus_detector.Automaton.{Nodes, next, output}
use virus_detector.Automaton.Words.{
  IsTrie, walk, walk_from, longest, collected, walk-append, walk_one, longest_lt, longest_of_walk,
  longest-snoc, longest_miss, longest-word, collected_hit, collected-word-longest,
  length-word-longest-le,
}

abbrev pub tail : Bytes → Bytes
tail [] = []
tail (a ∷ u) = u

pub snoc-cases : (u : Bytes) → (u ≡ []) ⊎ ((v : Bytes) × (c : ℕ) × (u ≡ v ++ c ∷ []))
snoc-cases [] = inl refl
snoc-cases (a ∷ u) = elim (snoc-cases u) [
  | inl e ↦ inr ([], a, ap (◌∷◌ a) e)
  | inr (v, c, e) ↦ inr (a ∷ v, c, ap (◌∷◌ a) e)
]

cons-cases : (u : Bytes) → (u ≡ []) ⊎ ((a : ℕ) × (v : Bytes) × (u ≡ a ∷ v))
cons-cases [] = inl refl
cons-cases (a ∷ u) = inr (a, u, refl)

module _ (tr : Nodes) (word : ℕ → Bytes) where
  -- The state that byte `b` must lead to from state `s`, and the failure link of `s`.
  unfoldable pub goto : ℕ → ℕ → ℕ
  goto s b = longest tr (word s ++ b ∷ [])

  unfoldable pub fail : ℕ → ℕ
  fail s = longest tr (tail (word s))

  unfoldable pub depth : ℕ → ℕ
  depth s = length (word s)

module _ (tr : Nodes) (word : ℕ → Bytes) (trie : IsTrie tr word) where
  pub goto_lt : (s b : ℕ) → goto tr word s b < length tr
  unfolding goto
  goto_lt s b = longest_lt tr word trie (word s ++ b ∷ [])

  pub fail_lt : (s : ℕ) → fail tr word s < length tr
  unfolding fail
  fail_lt s = longest_lt tr word trie (tail (word s))

  walk-word-snoc : (s b : ℕ) → s < length tr → walk tr 0 (word s ++ b ∷ []) ≡ next tr s b
  unfolding walk_from
  walk-word-snoc s b h =
      walk-append tr 0 (word s) (b ∷ [])
      ∙ ap (λ o. walk_from tr o (b ∷ [])) (trie.reach s h)
      ∙ walk_one tr s b

  word-ne-nil : (s : ℕ) → s < length tr → s ≢ 0 → (a : ℕ) × (v : Bytes) × (word s ≡ a ∷ v)
  word-ne-nil s h ne = elim (cons-cases (word s)) [
    | inl e ↦ absurd (
        ne (
          sym (longest-word tr word trie s h)
          ∙ ap (longest tr) e
          ∙ longest_of_walk tr word trie [] 0 (unfold walk in refl)))
    | inr r ↦ r
  ]

  pub goto_child : (s b t : ℕ) → s < length tr → next tr s b ≡ some t → goto tr word s b ≡ t
  unfolding goto
  goto_child s b t h e =
      longest_of_walk tr word trie (word s ++ b ∷ []) t (walk-word-snoc s b h ∙ e)

  pub goto_root_miss : (b : ℕ) → next tr 0 b ≡ none → goto tr word 0 b ≡ 0
  unfolding goto
  goto_root_miss b e =
      ap (λ x. longest tr (x ++ b ∷ [])) trie.root
      ∙ longest_miss tr b []
          (ap (λ x. walk tr 0 (x ++ b ∷ [])) (sym trie.root) ∙ walk-word-snoc 0 b trie.nonempty ∙ e)
      ∙ unfold longest in refl

  pub goto_miss :
      (s b : ℕ)
      → s < length tr
      → s ≢ 0
      → next tr s b ≡ none
      → goto tr word s b ≡ goto tr word (fail tr word s) b
  unfolding goto fail
  goto_miss s b h ne e =
      let (a, v, w) = word-ne-nil s h ne in
      ap (λ x. longest tr (x ++ b ∷ [])) w
      ∙ longest_miss tr a (v ++ b ∷ [])
          (ap (λ x. walk tr 0 (x ++ b ∷ [])) (sym w) ∙ walk-word-snoc s b h ∙ e)
      ∙ longest-snoc tr word trie v b
      ∙ ap (λ x. longest tr (word (longest tr (tail x)) ++ b ∷ [])) (sym w)

  pub fail_root_child : (b t : ℕ) → next tr 0 b ≡ some t → fail tr word t ≡ 0
  unfolding fail
  fail_root_child b t e =
      ap (λ x. longest tr (tail x)) ((trie.child 0 b t e).1 ∙ ap (λ x. x ++ b ∷ []) trie.root)
      ∙ unfold longest in refl

  pub fail_child :
      (s b t : ℕ)
      → s < length tr
      → s ≢ 0
      → next tr s b ≡ some t
      → fail tr word t ≡ goto tr word (fail tr word s) b
  unfolding goto fail
  fail_child s b t h ne e =
      let (a, v, w) = word-ne-nil s h ne in
      ap (λ x. longest tr (tail x)) ((trie.child s b t e).1 ∙ ap (λ x. x ++ b ∷ []) w)
      ∙ longest-snoc tr word trie v b
      ∙ ap (λ x. longest tr (word (longest tr (tail x)) ++ b ∷ [])) (sym w)

  pub collected_state :
      (t : ℕ)
      → t < length tr
      → t ≢ 0
      → collected tr (word t) ≡ output tr t ++ collected tr (word (fail tr word t))
  unfolding fail
  collected_state t h ne =
      let (a, v, w) = word-ne-nil t h ne in
      ap (collected tr) w
      ∙ collected_hit tr a t v (ap (walk tr 0) (sym w) ∙ trie.reach t h)
      ∙ ap (◌++◌ (output tr t)) (
          sym (collected-word-longest tr word trie v)
          ∙ ap (λ x. collected tr (word (longest tr (tail x)))) (sym w))

  pub depth-fail-lt :
      (s : ℕ) → s < length tr → s ≢ 0 → depth tr word (fail tr word s) < depth tr word s
  unfolding depth fail
  depth-fail-lt s h ne =
      let (a, v, w) = word-ne-nil s h ne in
      omega (
        arith,
        length-word-longest-le tr word trie (tail (word s)),
        ap length w,
        ap (λ x. length (tail x)) w,
      )

  pub depth-goto-le : (s b : ℕ) → depth tr word (goto tr word s b) ≤ depth tr word s + 1
  unfolding depth goto
  depth-goto-le s b = omega (
    arith,
    length-word-longest-le tr word trie (word s ++ b ∷ []),
    length-append (word s) (b ∷ []),
  )

  pub depth-child : (s b t : ℕ) → next tr s b ≡ some t → depth tr word t ≡ suc (depth tr word s)
  unfolding depth
  depth-child s b t e =
      omega (arith, ap length (trie.child s b t e).1, length-append (word s) (b ∷ []))

  pub child-ne-zero : (s b t : ℕ) → next tr s b ≡ some t → t ≢ 0
  unfolding depth
  child-ne-zero s b t e z =
      let deep = depth-child s b t e in omega (arith, deep, ap length (ap word z ∙ trie.root))

  -- Every state but the root is a child.
  pub parent : (t : ℕ) → t < length tr → t ≢ 0 → (s : ℕ) × (b : ℕ) × (next tr s b ≡ some t)
  parent t h ne = elim (snoc-cases (word t)) [
    | inl e ↦ let (a, v, w) = word-ne-nil t h ne in let bad : [] ≡ a ∷ v = sym e ∙ w in cc
    | inr (v, c, e) ↦ elim (Option-cases (walk tr 0 v)) [
      | inl q ↦
          let bad : none ≡ some t =
            unfold walk_from in
            sym (walk-append tr 0 v (c ∷ []) ∙ ap (λ o. walk_from tr o (c ∷ [])) q)
            ∙ ap (walk tr 0) (sym e)
            ∙ trie.reach t h in
          cc
      | inr (s, q) ↦ (
        s,
        c,
        unfold walk_from in
            sym
              (walk-append tr 0 v (c ∷ []) ∙ ap (λ o. walk_from tr o (c ∷ [])) q ∙ walk_one tr s c)
            ∙ ap (walk tr 0) (sym e)
            ∙ trie.reach t h,
      )
    ]
  ]
