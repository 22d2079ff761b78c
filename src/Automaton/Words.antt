-- ===== src/Automaton/Words.antt =====
-- The trie as a set of words, and the two functions of a text that the failure links are about:
-- the state of its longest suffix in the trie, and the outputs of all its suffixes.
use virus_detector.Base.{
  ℕ, ◌<◌, ◌≤◌, ◌≡◌, refl, sym, ap, ◌∙◌, inl, inr, Option, none, some, List, [], ◌∷◌, ◌++◌, Bytes,
  length, arith, Option-cases, append_assoc, append-nil,
}
use mathlib.Core.Option.{some-injective}
use virus_detector.Automaton.{Nodes, next, output}

-- Follow the children of the trie.
unfoldable pub walk : Nodes → ℕ → Bytes → Option ℕ
walk ns s [] = some s
walk ns s (b ∷ u) = elim (next ns s b) [ none ↦ none | some t ↦ walk ns t u ]

unfoldable pub walk_from : Nodes → Option ℕ → Bytes → Option ℕ
walk_from ns none u = none
walk_from ns (some s) u = walk ns s u

-- The state of the longest suffix of a text that is a word of the trie.
unfoldable pub longest : Nodes → Bytes → ℕ
longest ns [] = 0
longest ns (a ∷ u) = elim (walk ns 0 (a ∷ u)) [ none ↦ longest ns u | some t ↦ t ]

-- The own outputs of all its suffixes, the longest suffix first.
unfoldable pub collected : Nodes → Bytes → List ℕ
collected ns [] = []
collected ns (a ∷ u) = elim (walk ns 0 (a ∷ u)) [
  | none ↦ collected ns u
  | some t ↦ output ns t ++ collected ns u
]

-- `word t` spells the path to `t`.
pub record IsTrie (ns : Nodes) (word : ℕ → Bytes) : Type 0 where
  pub nonempty : 0 < length ns
  pub root : word 0 ≡ []
  pub child :
      (s b t : ℕ) → next ns s b ≡ some t → (t < length ns) × (word t ≡ word s ++ b ∷ []) × (b < 256)
  pub reach : (t : ℕ) → t < length ns → walk ns 0 (word t) ≡ some t

module _ (ns : Nodes) where
  walk_miss : (s b : ℕ) (u : Bytes) → next ns s b ≡ none → walk ns s (b ∷ u) ≡ none
  unfolding walk
  walk_miss s b u e = rw (e, walk)

  walk_hit : (s b t : ℕ) (u : Bytes) → next ns s b ≡ some t → walk ns s (b ∷ u) ≡ walk ns t u
  unfolding walk
  walk_hit s b t u e = rw (e, walk)

  pub longest_miss :
      (a : ℕ) (u : Bytes) → walk ns 0 (a ∷ u) ≡ none → longest ns (a ∷ u) ≡ longest ns u
  unfolding longest
  longest_miss a u e = rw (e, longest)

  longest_hit : (a t : ℕ) (u : Bytes) → walk ns 0 (a ∷ u) ≡ some t → longest ns (a ∷ u) ≡ t
  unfolding longest
  longest_hit a t u e = rw (e, longest)

  pub collected_miss :
      (a : ℕ) (u : Bytes) → walk ns 0 (a ∷ u) ≡ none → collected ns (a ∷ u) ≡ collected ns u
  unfolding collected
  collected_miss a u e = rw (e, collected)

  pub collected_hit :
      (a t : ℕ) (u : Bytes)
      → walk ns 0 (a ∷ u) ≡ some t
      → collected ns (a ∷ u) ≡ output ns t ++ collected ns u
  unfolding collected
  collected_hit a t u e = rw (e, collected)

  pub walk-append : (s : ℕ) (u v : Bytes) → walk ns s (u ++ v) ≡ walk_from ns (walk ns s u) v
  unfolding walk_from
  walk-append s [] v = unfold walk in refl
  walk-append s (b ∷ u) v = elim (Option-cases (next ns s b)) [
    | inl e ↦ rw (walk_miss s b u e) (walk_miss s b (u ++ v) e)
    | inr (t, e) ↦ rw (walk_hit s b t u e) (walk_hit s b t (u ++ v) e ∙ walk-append t u v)
  ]

  pub walk_one : (s b : ℕ) → walk ns s (b ∷ []) ≡ next ns s b
  walk_one s b = elim (Option-cases (next ns s b)) [
    | inl e ↦ walk_miss s b [] e ∙ sym e
    | inr (t, e) ↦ walk_hit s b t [] e ∙ unfold walk in sym e
  ]

module _ (ns : Nodes) (word : ℕ → Bytes) (trie : IsTrie ns word) where
  walk_word :
      (s t : ℕ) (u : Bytes)
      → s < length ns
      → walk ns s u ≡ some t
      → (t < length ns) × (word t ≡ word s ++ u)
  walk_word s t [] h e =
      let same : s ≡ t = unfold walk in some-injective s t e in
      (rw (← same) h, rw (← same, append-nil (word s)))
  walk_word s t (b ∷ u) h e = elim (Option-cases (next ns s b)) [
    | inl q ↦ let bad : none ≡ some t = sym (walk_miss ns s b u q) ∙ e in cc
    | inr (r, q) ↦
        let (r_lt, r_word, _) = trie.child s b r q in
        let (t_lt, t_word) = walk_word r t u r_lt (sym (walk_hit ns s b r u q) ∙ e) in
        (t_lt, t_word ∙ ap (λ x. x ++ u) r_word ∙ append_assoc (word s) (b ∷ []) u)
  ]

  pub longest_lt : (u : Bytes) → longest ns u < length ns
  longest_lt [] = unfold longest in trie.nonempty
  longest_lt (a ∷ u) = elim (Option-cases (walk ns 0 (a ∷ u))) [
    | inl e ↦ rw (longest_miss ns a u e) (longest_lt u)
    | inr (t, e) ↦ rw (longest_hit ns a t u e) (walk_word 0 t (a ∷ u) trie.nonempty e).0
  ]

  pub longest_of_walk : (u : Bytes) (t : ℕ) → walk ns 0 u ≡ some t → longest ns u ≡ t
  longest_of_walk [] t e = unfold walk longest in some-injective 0 t e
  longest_of_walk (a ∷ u) t e = longest_hit ns a t u e

  pub longest-word : (t : ℕ) → t < length ns → longest ns (word t) ≡ t
  longest-word t h = longest_of_walk (word t) t (trie.reach t h)

  -- The word that a walk from the root spells.
  pub word_of_walk : (u : Bytes) (t : ℕ) → walk ns 0 u ≡ some t → word t ≡ u
  word_of_walk u t e = (walk_word 0 t u trie.nonempty e).1 ∙ ap (λ x. x ++ u) trie.root

  -- Only the longest suffix matters for what one more byte leads to.
  pub longest-snoc :
      (u : Bytes) (b : ℕ) → longest ns (u ++ b ∷ []) ≡ longest ns (word (longest ns u) ++ b ∷ [])
  longest-snoc [] b = ap (λ x. longest ns (x ++ b ∷ [])) (sym trie.root ∙ unfold longest in refl)
  longest-snoc (a ∷ u) b = elim (Option-cases (walk ns 0 (a ∷ u))) [
    | inl e ↦
        longest_miss ns a (u ++ b ∷ []) (
          walk-append ns 0 (a ∷ u) (b ∷ [])
          ∙ unfold walk_from in ap (λ o. walk_from ns o (b ∷ [])) e)
        ∙ longest-snoc u b
        ∙ ap (λ s. longest ns (word s ++ b ∷ [])) (sym (longest_miss ns a u e))
    | inr (t, e) ↦
        ap (λ x. longest ns (x ++ b ∷ []))
          (sym (ap word (longest_hit ns a t u e) ∙ word_of_walk (a ∷ u) t e))
  ]

  pub collected-word-longest : (u : Bytes) → collected ns (word (longest ns u)) ≡ collected ns u
  collected-word-longest [] = unfold longest in ap (collected ns) trie.root
  collected-word-longest (a ∷ u) = elim (Option-cases (walk ns 0 (a ∷ u))) [
    | inl e ↦ rw (longest_miss ns a u e) (collected-word-longest u ∙ sym (collected_miss ns a u e))
    | inr (t, e) ↦ ap (collected ns) (ap word (longest_hit ns a t u e) ∙ word_of_walk (a ∷ u) t e)
  ]

  pub length-word-longest-le : (u : Bytes) → length (word (longest ns u)) ≤ length u
  length-word-longest-le [] = unfold longest in rw (trie.root) (omega arith)
  length-word-longest-le (a ∷ u) = elim (Option-cases (walk ns 0 (a ∷ u))) [
    | inl e ↦ rw (longest_miss ns a u e) (omega (arith, length-word-longest-le u))
    | inr (t, e) ↦
        omega (arith, ap length (ap word (longest_hit ns a t u e) ∙ word_of_walk (a ∷ u) t e))
  ]
