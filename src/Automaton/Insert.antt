-- ===== src/Automaton/Insert.antt =====
-- The loop of build over the signatures: state `t` ends up with the indexes of exactly the
-- signatures that spell it.
use virus_detector.Base.{
  ℕ, zero, suc, ◌<◌, ◌≡◌, refl, sym, ap, ◌∙◌, inl, inr, ◌≢◌, none, some, List, [], ◌∷◌, ◌++◌, Bytes,
  length, arith, In, All, ◌==◌, if◌then◌else◌, Bool-cases, ==_iff, append_assoc, append-nil,
  get_elem?, In-append-cases, In-append_left, In-append_right, length-append, ltb, ltb→lt,
}
use virus_detector.Automaton.{
  Nodes, new_node, next, output, append_output, add_signature, add_signatures,
}
use virus_detector.Automaton.Store.{
  next-append_output, output-append_output, length-append_output, output_beyond,
}
use virus_detector.Automaton.Words.{IsTrie, walk}
use virus_detector.Automaton.Trie.{IsGrown, walk-grow, add_bytes-IsGrown}

-- The outputs of the trie are the positions in `done` of the words of its states.
pub record IsFilled (ns : Nodes) (word : ℕ → Bytes) (done : List Bytes) : Type 0 where
  pub trie : IsTrie ns word
  pub sound : (t i : ℕ) → In i (output ns t) → (get_elem? done i ≡ some (word t)) × (word t ≢ [])
  pub complete :
      (i : ℕ) (u : Bytes)
      → get_elem? done i ≡ some u
      → u ≢ []
      → (t : ℕ) × (walk ns 0 u ≡ some t) × In i (output ns t)

get_elem?-snoc :
    (done : List Bytes) (x : Bytes) (i : ℕ)
    → get_elem? (done ++ x ∷ []) i ≡ (if i == length done then some x else get_elem? done i)
get_elem?-snoc [] x zero = refl
get_elem?-snoc [] x (suc i) = ground arith
get_elem?-snoc (y ∷ done) x zero = ground arith
get_elem?-snoc (y ∷ done) x (suc i) = ground (arith, get_elem?-snoc done x i)

get_elem?_lt : (done : List Bytes) (i : ℕ) (u : Bytes) → get_elem? done i ≡ some u → i < length done
get_elem?_lt [] i u e = cc
get_elem?_lt (x ∷ done) zero u e = omega arith
get_elem?_lt (x ∷ done) (suc i) u e = omega (arith, get_elem?_lt done i u e)

get_elem?_old :
    (done : List Bytes) (x : Bytes) (i : ℕ) (u : Bytes)
    → get_elem? done i ≡ some u
    → get_elem? (done ++ x ∷ []) i ≡ some u
get_elem?_old done x i u e = ground (arith, get_elem?-snoc done x i, get_elem?_lt done i u e)

-- An empty signature is counted as seen and changes nothing.
skip-IsFilled :
    (ns : Nodes) (word : ℕ → Bytes) (done : List Bytes)
    → IsFilled ns word done
    → IsFilled ns word (done ++ [] ∷ [])
skip-IsFilled ns word done f = record {
  trie = f.trie;
  sound = λ t i m. let (at_i, ne) = f.sound t i m in (get_elem?_old done [] i (word t) at_i, ne);
  complete = λ i u e ne. elim (Bool-cases (i == length done)) [
    | inl hit ↦ absurd (ne (ground (arith, get_elem?-snoc done [] i)))
    | inr miss ↦ f.complete i u (ground (arith, get_elem?-snoc done [] i)) ne
  ];
}

module _ (ns : Nodes) (word : ℕ → Bytes) (done : List Bytes) (x : Bytes) (x_ne : x ≢ [])
    (f : IsFilled ns word done) (ms : Nodes) (e : ℕ) (g : IsGrown ns word 0 x (ms, e)) where
  abbrev outed : Nodes
  outed = append_output ms e (length done ∷ [])

  spelled : g.word' e ≡ x
  spelled = g.spells ∙ ap (λ y. y ++ x) f.trie.root

  same_next : (r c : ℕ) → next outed r c ≡ next ms r c
  same_next r c = next-append_output ms e g.end_lt (length done ∷ []) r c

  same_walk : (s t : ℕ) (u : Bytes) → walk ms s u ≡ some t → walk outed s u ≡ some t
  same_walk = walk-grow ms outed (λ r c t q. same_next r c ∙ q)

  outed-IsTrie : IsTrie outed g.word'
  outed-IsTrie = record {
    nonempty = rw (length-append_output ms e (length done ∷ [])) g.trie.nonempty;
    root = g.trie.root;
    child = λ s b t q.
        rw (length-append_output ms e (length done ∷ []))
          (g.trie.child s b t (sym (same_next s b) ∙ q));
    reach = λ t h.
        same_walk 0 t (g.word' t)
          (g.trie.reach t (rw (length-append_output ms e (length done ∷ [])) at h));
  }

  outputs_at :
      (t : ℕ) → output outed t ≡ (if t == e then output ns t ++ length done ∷ [] else output ns t)
  outputs_at t =
      output-append_output ms e g.end_lt (length done ∷ []) t
      ∙ ap (λ o. if t == e then o ++ length done ∷ [] else o) (g.outputs t)

  old_output :
      (t i : ℕ)
      → In i (output ns t)
      → (get_elem? (done ++ x ∷ []) i ≡ some (g.word' t)) × (g.word' t ≢ [])
  old_output t i m = elim (Bool-cases (ltb t (length ns))) [
    | inl inside ↦
        let (at_i, ne) = f.sound t i m in
        let same = g.kept t (ltb→lt t (length ns) inside) in
        (get_elem?_old done x i (g.word' t) (at_i ∙ ap some (sym same)), λ q. ne (sym same ∙ q))
    | inr outside ↦ absurd (rw (output_beyond ns t (ground arith)) at m)
  ]

  outed-IsFilled : IsFilled outed g.word' (done ++ x ∷ [])
  outed-IsFilled = record {
    trie = outed-IsTrie;
    sound = λ t i m. elim (Bool-cases (t == e)) [
      | inl same ↦
          let here : output outed t ≡ output ns t ++ length done ∷ [] = rw same at (outputs_at t) in
          elim (In-append-cases i (output ns t) (length done ∷ []) (rw here at m)) [
            | inl old ↦ old_output t i old
            | inr (inl new) ↦
                let word_t : g.word' t ≡ x = ap g.word' ((==_iff t e).0 same) ∙ spelled in
                (ground (arith, get_elem?-snoc done x i), λ q. x_ne (sym word_t ∙ q))
            | inr (inr nothing) ↦ absurd nothing
          ]
      | inr other ↦
          let here : output outed t ≡ output ns t = rw other at (outputs_at t) in
          old_output t i (rw here at m)
    ];
    complete = λ i u q ne. elim (Bool-cases (i == length done)) [
      | inl new ↦
          let i_new = (==_iff i (length done)).0 new in
          let u_x : u ≡ x = ground (arith, get_elem?-snoc done x i) in
          let at_e : output outed e ≡ output ns e ++ length done ∷ [] =
            ground (arith, outputs_at e) in
          (
            e,
            ap (walk outed 0) (u_x ∙ sym spelled)
                ∙ same_walk 0 e (g.word' e) (g.trie.reach e g.end_lt),
            rw at_e (In-append_right i (output ns e) (length done ∷ []) (inl i_new)),
          )
      | inr old ↦
          let (t, reached, m) = f.complete i u (ground (arith, get_elem?-snoc done x i)) ne in
          (t, same_walk 0 t u (g.walks t u reached), kept_output t i m)
    ];
  }
    where
      kept_output : (t i : ℕ) → In i (output ns t) → In i (output outed t)
      kept_output t i m = elim (Bool-cases (t == e)) [
        | inl same ↦
            let here : output outed t ≡ output ns t ++ length done ∷ [] =
              rw same at (outputs_at t) in
            rw here (In-append_left i (output ns t) (length done ∷ []) m)
        | inr other ↦
            let here : output outed t ≡ output ns t = rw other at (outputs_at t) in rw here m
      ]

abbrev pub AreBytes : Bytes → Type 0
AreBytes = All (λ b. b < 256)

pub add_signatures-IsFilled :
    (ns : Nodes) (word : ℕ → Bytes) (done rest : List Bytes) (count i : ℕ)
    → i ≡ length done
    → IsFilled ns word done
    → All AreBytes rest
    → (word' : ℕ → Bytes) × IsFilled (add_signatures ns count i rest).0 word' (done ++ rest)
unfolding add_signatures add_signature
add_signatures-IsFilled ns word done [] count i e f small = (word, rw (append-nil done) f)
add_signatures-IsFilled ns word done ([] ∷ rest) count i e f small =
    rw (sym (append_assoc done ([] ∷ []) rest)) (
      add_signatures-IsFilled ns word (done ++ [] ∷ []) rest count (suc i)
        (omega (arith, length-append done ([] ∷ []))) (skip-IsFilled ns word done f) small.1)
add_signatures-IsFilled ns word done ((b ∷ bs) ∷ rest) count i e f small =
    let g = add_bytes-IsGrown ns word 0 (b ∷ bs) f.trie f.trie.nonempty small.0 in
    rw (sym (append_assoc done ((b ∷ bs) ∷ []) rest)) (
      add_signatures-IsFilled (add_signature ns (b ∷ bs) i) g.word' (done ++ (b ∷ bs) ∷ []) rest
        (suc count) (suc i) (omega (arith, length-append done ((b ∷ bs) ∷ [])))
        (rw e (outed-IsFilled ns word done (b ∷ bs) (λ q. cc) f _ _ g)) small.1)

fresh-next : (s b : ℕ) → next (new_node ∷ []) s b ≡ none
unfolding next
fresh-next zero b = refl
fresh-next (suc s) b = refl

fresh-output : (s : ℕ) → output (new_node ∷ []) s ≡ []
unfolding output
fresh-output zero = refl
fresh-output (suc s) = refl

-- The builder starts from the root alone.
pub start-IsFilled : IsFilled (new_node ∷ []) (λ t. []) []
start-IsFilled = record {
  trie = record {
    nonempty = omega arith;
    root = refl;
    child = λ s b t e. let bad : none ≡ some t = sym (fresh-next s b) ∙ e in cc;
    reach = λ t h. unfold walk in ap some (omega arith);
  };
  sound = λ t i m. absurd (rw (fresh-output t) at m);
  complete = λ i u e ne. cc;
}

pub IsFilled-silent :
    (ns : Nodes) (word : ℕ → Bytes) (done : List Bytes) → IsFilled ns word done → output ns 0 ≡ []
IsFilled-silent ns word done f = go (output ns 0) (λ i m. (f.sound 0 i m).1 f.trie.root)
  where
    go : (is : List ℕ) → ((i : ℕ) → ¬ In i is) → is ≡ []
    go [] h = refl
    go (i ∷ is) h = absurd (h i (inl refl))
