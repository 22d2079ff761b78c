-- ===== src/Automaton/Trie.antt =====
-- addSignature builds a trie whose states spell the signatures' prefixes and whose outputs are the
-- indexes of the signatures that end there.
use virus_detector.Base.{
  ℕ, suc, ◌<◌, ◌≤◌, ◌≡◌, refl, sym, ap, ◌∙◌, inl, inr, none, some, [], ◌∷◌, ◌++◌, Bytes, length,
  arith, All, ◌==◌, ◌&&◌, if◌then◌else◌, Bool-cases, Option-cases, ==_iff, length-append,
  append_assoc, append-nil,
}
use virus_detector.Automaton.{Nodes, new_node, next, output, set_next, add_bytes}
use virus_detector.Automaton.Store.{
  next-set_next, output-set_next, length-set_next, next-append_new, output-append_new,
}
use virus_detector.Automaton.Words.{IsTrie, walk, walk_from, walk-append, walk_one}
use virus_detector.Automaton.Links.{next-some-lt}

-- More children, more walks.
pub walk-grow :
    (ns ns' : Nodes)
    → ((r c t : ℕ) → next ns r c ≡ some t → next ns' r c ≡ some t)
    → (s t : ℕ) (u : Bytes) → walk ns s u ≡ some t
    → walk ns' s u ≡ some t
unfolding walk
walk-grow ns ns' grow s t [] e = e
walk-grow ns ns' grow s t (b ∷ u) e = elim (Option-cases (next ns s b)) [
  | inl q ↦ ground arith
  | inr (r, q) ↦
      let below = walk-grow ns ns' grow r t u (ground arith) in ground (arith, grow s b r q)
]

-- What the insertion of some bytes below state `s` leaves.
pub record IsGrown (ns : Nodes) (word : ℕ → Bytes) (s : ℕ) (bs : Bytes) (r : Nodes × ℕ)
    : Type 0 where
  pub word' : ℕ → Bytes
  pub trie : IsTrie r.0 word'
  pub end_lt : r.1 < length r.0
  pub spells : word' r.1 ≡ word s ++ bs
  pub kept : (v : ℕ) → v < length ns → word' v ≡ word v
  pub outputs : (v : ℕ) → output r.0 v ≡ output ns v
  pub longer : length ns ≤ length r.0
  pub walks : (t : ℕ) (u : Bytes) → walk ns 0 u ≡ some t → walk r.0 0 u ≡ some t

module _ (ns : Nodes) (word : ℕ → Bytes) (trie : IsTrie ns word) (s b : ℕ) (s_lt : s < length ns)
    (byte : b < 256) (absent : next ns s b ≡ none) where
  abbrev grown : Nodes
  grown = set_next (ns ++ new_node ∷ []) s b (some (length ns))

  abbrev grown_word : ℕ → Bytes
  grown_word v = if v == length ns then word s ++ b ∷ [] else word v

  length-grown : length grown ≡ suc (length ns)
  length-grown =
      length-set_next (ns ++ new_node ∷ []) s b (some (length ns))
      ∙ length-append ns (new_node ∷ [])
      ∙ omega arith

  wide : s < length (ns ++ new_node ∷ [])
  wide = omega (arith, length-append ns (new_node ∷ []))

  next-grown :
      (r c : ℕ) → next grown r c ≡ (if (r == s) && (c == b) then some (length ns) else next ns r c)
  next-grown r c =
      next-set_next (ns ++ new_node ∷ []) s wide b (some (length ns)) r c
      ∙ ap (λ o. if (r == s) && (c == b) then some (length ns) else o) (next-append_new ns r c)

  next-grow : (r c t : ℕ) → next ns r c ≡ some t → next grown r c ≡ some t
  next-grow r c t e = ground (arith, next-grown r c)

  grown_word_old : (v : ℕ) → v < length ns → grown_word v ≡ word v
  grown_word_old v h = ground arith

  grown_word_new : grown_word (length ns) ≡ word s ++ b ∷ []
  grown_word_new = ground arith

  grown-IsTrie : IsTrie grown grown_word
  grown-IsTrie = record {
    nonempty = omega (arith, length-grown);
    root = grown_word_old 0 trie.nonempty ∙ trie.root;
    child = λ r c t e. elim (Bool-cases ((r == s) && (c == b))) [
      | inl hit ↦
          let t_new : t ≡ length ns = ground (arith, next-grown r c) in
          let r_s : r ≡ s = ground arith in
          let c_b : c ≡ b = ground arith in
          (
            omega (arith, length-grown, t_new),
            ap grown_word t_new
                ∙ grown_word_new
                ∙ ap (λ x. x ++ b ∷ []) (sym (grown_word_old s s_lt))
                ∙ ap (λ x. grown_word x ++ b ∷ []) (sym r_s)
                ∙ ap (λ x. grown_word r ++ x ∷ []) (sym c_b),
            omega (arith, c_b),
          )
      | inr miss ↦
          let old : next ns r c ≡ some t = ground (arith, next-grown r c) in
          let (t_lt, spelled, small) = trie.child r c t old in
          (
            omega (arith, length-grown),
            grown_word_old t t_lt
                ∙ spelled
                ∙ ap (λ x. x ++ c ∷ []) (sym (grown_word_old r (next-some-lt ns r c t old))),
            small,
          )
    ];
    reach = λ t h. elim (Bool-cases (t == length ns)) [
      | inl same ↦
          let e = (==_iff t (length ns)).0 same in
          ap (λ x. walk grown 0 (grown_word x)) e
          ∙ ap (walk grown 0) grown_word_new
          ∙ walk-append grown 0 (word s) (b ∷ [])
          ∙ unfold walk_from in
            ap (λ o. walk_from grown o (b ∷ []))
              (walk-grow ns grown next-grow 0 s (word s) (trie.reach s s_lt))
            ∙ walk_one grown s b
            ∙ ground (arith, next-grown s b)
            ∙ ap some (sym e)
      | inr other ↦
          let t_lt : t < length ns = ground (arith, length-grown) in
          ap (walk grown 0) (grown_word_old t t_lt)
          ∙ walk-grow ns grown next-grow 0 t (word t) (trie.reach t t_lt)
    ];
  }

  output-grown : (v : ℕ) → output grown v ≡ output ns v
  output-grown v =
      output-set_next (ns ++ new_node ∷ []) s wide b (some (length ns)) v ∙ output-append_new ns v

add_bytes_miss :
    (ns : Nodes) (s b : ℕ) (bs : Bytes)
    → next ns s b ≡ none
    → add_bytes ns s (b ∷ bs)
      ≡ add_bytes (set_next (ns ++ new_node ∷ []) s b (some (length ns))) (length ns) bs
unfolding add_bytes
add_bytes_miss ns s b bs e = rw (e, add_bytes)

add_bytes_hit :
    (ns : Nodes) (s b t : ℕ) (bs : Bytes)
    → next ns s b ≡ some t
    → add_bytes ns s (b ∷ bs) ≡ add_bytes ns t bs
unfolding add_bytes
add_bytes_hit ns s b t bs e = rw (e, add_bytes)

pub add_bytes-IsGrown :
    (ns : Nodes) (word : ℕ → Bytes) (s : ℕ) (bs : Bytes)
    → IsTrie ns word
    → s < length ns
    → All (λ b. b < 256) bs
    → IsGrown ns word s bs (add_bytes ns s bs)
add_bytes-IsGrown ns word s [] trie h small =
    unfold add_bytes in
    record {
      word' = word;
      trie = trie;
      end_lt = h;
      spells = sym (append-nil (word s));
      kept = λ v k. refl;
      outputs = λ v. refl;
      longer = omega arith;
      walks = λ t u e. e;
    }
add_bytes-IsGrown ns word s (b ∷ bs) trie h small = elim (Option-cases (next ns s b)) [
  | inl e ↦
      let more = length-grown ns word trie s b h small.0 e in
      let rest =
        add_bytes-IsGrown (grown ns word trie s b h small.0 e)
          (grown_word ns word trie s b h small.0 e) (length ns) bs
          (grown-IsTrie ns word trie s b h small.0 e) (omega (arith, more)) small.1 in
      rw (add_bytes_miss ns s b bs e) (record {
        word' = rest.word';
        trie = rest.trie;
        end_lt = rest.end_lt;
        spells =
            rest.spells
            ∙ ap (λ x. x ++ bs) (grown_word_new ns word trie s b h small.0 e)
            ∙ append_assoc (word s) (b ∷ []) bs;
        kept = λ v k.
            rest.kept v (omega (arith, more)) ∙ grown_word_old ns word trie s b h small.0 e v k;
        outputs = λ v. rest.outputs v ∙ output-grown ns word trie s b h small.0 e v;
        longer = omega (arith, more, rest.longer);
        walks = λ t u k.
            rest.walks t u (walk-grow ns _ (next-grow ns word trie s b h small.0 e) 0 t u k);
      })
  | inr (t, e) ↦
      let (t_lt, spelled, _) = trie.child s b t e in
      let rest = add_bytes-IsGrown ns word t bs trie t_lt small.1 in
      rw (add_bytes_hit ns s b t bs e) (record {
        word' = rest.word';
        trie = rest.trie;
        end_lt = rest.end_lt;
        spells = rest.spells ∙ ap (λ x. x ++ bs) spelled ∙ append_assoc (word s) (b ∷ []) bs;
        kept = rest.kept;
        outputs = rest.outputs;
        longer = rest.longer;
        walks = rest.walks;
      })
]
