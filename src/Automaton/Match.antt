-- ===== src/Automaton/Match.antt =====
-- The automaton that build makes finds exactly the signatures that occur in the scanned bytes, in
-- however many chunks these come.
use virus_detector.Base.{
  ℕ, ◌≡◌, refl, sym, ap, ◌∙◌, ◌⊎◌, inl, inr, ◌≢◌, ◌↔◌, some, List, [], ◌∷◌, ◌++◌, Bytes, In, ◌==◌,
  Bool-cases, Option-cases, ==_iff, append_assoc, append-nil, get_elem?, In-append-cases,
  In-append_left, In-append_right,
}
use virus_detector.Automaton.{
  Automaton, Nodes, output, index, step, outputs, insert_index, insert_all, scan_chunk,
}
use virus_detector.Automaton.Words.{
  walk, longest, collected, collected_hit, collected_miss, longest-snoc, longest_lt, word_of_walk,
  collected-word-longest,
}
use virus_detector.Automaton.Goto.{goto, snoc-cases}
use virus_detector.Automaton.Links.{snoc-injective}
use virus_detector.Automaton.Loop.{IsLinked}
use virus_detector.Automaton.Insert.{IsFilled, AreBytes}

-- Signature number `i` occurs in the bytes.
abbrev pub Occurs : List Bytes → ℕ → Bytes → Type 0
Occurs signatures i bytes =
    (x : Bytes) × (y : Bytes) × (z : Bytes) × (bytes ≡ x ++ (y ++ z))
    × (get_elem? signatures i ≡ some y)
    × (y ≢ [])

-- … and ends where the bytes end.
abbrev OccursLast : List Bytes → ℕ → Bytes → Type 0
OccursLast signatures i bytes =
    (x : Bytes) × (y : Bytes) × (bytes ≡ x ++ y) × (get_elem? signatures i ≡ some y) × (y ≢ [])

In-insert_index : (i j : ℕ) (js : List ℕ) → In i (insert_index j js) ↔ ((i ≡ j) ⊎ In i js)
unfolding insert_index
In-insert_index i j [] = (λ m. m, λ m. m)
In-insert_index i j (k ∷ js) = elim (Bool-cases (j == k)) [
  | inl same ↦
      let e = (==_iff j k).0 same in
      rw (same) (λ m. inr m, λ m. elim m [ inl p ↦ inl (p ∙ e) | inr q ↦ q ])
  | inr other ↦
      let ih = In-insert_index i j js in
      rw (other) (
        λ m. elim m [
          | inl p ↦ inr (inl p)
          | inr q ↦ elim (ih.0 q) [ inl p ↦ inl p | inr r ↦ inr (inr r) ]
        ],
        λ m. elim m [
          | inl p ↦ inr (ih.1 (inl p))
          | inr (inl p) ↦ inl p
          | inr (inr q) ↦ inr (ih.1 (inr q))
        ],
      )
]

In-insert_all :
    (i : ℕ) (is matched : List ℕ) → In i (insert_all is matched) ↔ (In i is ⊎ In i matched)
unfolding insert_all
In-insert_all i [] matched = (λ m. inr m, λ m. elim m [ inl p ↦ absurd p | inr q ↦ q ])
In-insert_all i (j ∷ is) matched =
    let ih = In-insert_all i is (insert_index j matched) in
    let one = In-insert_index i j matched in
    (
      λ m. elim (ih.0 m) [
        | inl p ↦ inl (inr p)
        | inr q ↦ elim (one.0 q) [ inl e ↦ inl (inl e) | inr r ↦ inr r ]
      ],
      λ m. elim m [
        | inl (inl e) ↦ ih.1 (inr (one.1 (inl e)))
        | inl (inr p) ↦ ih.1 (inl p)
        | inr q ↦ ih.1 (inr (one.1 (inr q)))
      ],
    )

module _ (tr : Nodes) (word : ℕ → Bytes) (sigs : List Bytes) (f : IsFilled tr word sigs) where
  -- The outputs of all suffixes of a text are the signatures that end with it.
  collected→OccursLast : (i : ℕ) (u : Bytes) → In i (collected tr u) → OccursLast sigs i u
  collected→OccursLast i [] m = unfold collected in absurd m
  collected→OccursLast i (a ∷ u) m = elim (Option-cases (walk tr 0 (a ∷ u))) [
    | inl e ↦ longer a (collected→OccursLast i u (rw (collected_miss tr a u e) at m))
    | inr (t, e) ↦
        elim (In-append-cases i (output tr t) (collected tr u)
          (rw (collected_hit tr a t u e) at m)) [
            | inl own ↦
                let (at_i, ne) = f.sound t i own in
                let w = word_of_walk tr word f.trie (a ∷ u) t e in
                ([], a ∷ u, refl, at_i ∙ ap some w, λ q. cc)
            | inr rest ↦ longer a (collected→OccursLast i u rest)
          ]
  ]
    where
      longer : (b : ℕ) {v : Bytes} → OccursLast sigs i v → OccursLast sigs i (b ∷ v)
      longer b o = let (x, y, e, at_i, ne) = o in (b ∷ x, y, ap (◌∷◌ b) e, at_i, ne)

  collected_cons : (i a : ℕ) (u : Bytes) → In i (collected tr u) → In i (collected tr (a ∷ u))
  collected_cons i a u m = elim (Option-cases (walk tr 0 (a ∷ u))) [
    | inl e ↦ rw (collected_miss tr a u e) m
    | inr (t, e) ↦
        rw (collected_hit tr a t u e) (In-append_right i (output tr t) (collected tr u) m)
  ]

  collected_signature :
      (i : ℕ) (y : Bytes) → get_elem? sigs i ≡ some y → y ≢ [] → In i (collected tr y)
  collected_signature i [] e ne = absurd (ne refl)
  collected_signature i (a ∷ u) e ne =
      let (t, reached, m) = f.complete i (a ∷ u) e ne in
      rw (collected_hit tr a t u reached) (In-append_left i (output tr t) (collected tr u) m)

  OccursLast→collected :
      (i : ℕ) (x y : Bytes) → get_elem? sigs i ≡ some y → y ≢ [] → In i (collected tr (x ++ y))
  OccursLast→collected i [] y e ne = collected_signature i y e ne
  OccursLast→collected i (a ∷ x) y e ne =
      collected_cons i a (x ++ y) (OccursLast→collected i x y e ne)

  -- One byte more: what occurred before, and what ends with the new byte.
  Occurs-snoc :
      (i : ℕ) (u : Bytes) (b : ℕ)
      → Occurs sigs i (u ++ b ∷ []) ↔ (Occurs sigs i u ⊎ In i (collected tr (u ++ b ∷ [])))
  Occurs-snoc i u b = (forth, back)
    where
      forth : Occurs sigs i (u ++ b ∷ []) → Occurs sigs i u ⊎ In i (collected tr (u ++ b ∷ []))
      forth o =
          let (x, y, z, e, at_i, ne) = o in
          elim (snoc-cases z) [
            | inl q ↦ inr (rw (e, q, append-nil y) (OccursLast→collected i x y at_i ne))
            | inr (z', c, q) ↦ inl (
              x,
              y,
              z',
              (snoc-injective u (x ++ (y ++ z')) b c (
                  e
                  ∙ ap (λ w. x ++ (y ++ w)) q
                  ∙ sym (
                      append_assoc x (y ++ z') (c ∷ [])
                      ∙ ap (◌++◌ x) (append_assoc y z' (c ∷ []))))).0,
              at_i,
              ne,
            )
          ]

      back : Occurs sigs i u ⊎ In i (collected tr (u ++ b ∷ [])) → Occurs sigs i (u ++ b ∷ [])
      back (inl o) =
          let (x, y, z, e, at_i, ne) = o in
          (
            x,
            y,
            z ++ b ∷ [],
            ap (λ w. w ++ b ∷ []) e
                ∙ append_assoc x (y ++ z) (b ∷ [])
                ∙ ap (◌++◌ x) (append_assoc y z (b ∷ [])),
            at_i,
            ne,
          )
      back (inr m) =
          let (x, y, e, at_i, ne) = collected→OccursLast i (u ++ b ∷ []) m in
          (x, y, [], e ∙ ap (◌++◌ x) (sym (append-nil y)), at_i, ne)

  -- A scan in progress, with `u` read: its state and the indexes found.
  pub record IsScanned (u : Bytes) (s : ℕ) (matched : List ℕ) : Type 0 where
    pub state : s ≡ longest tr u
    pub found : (i : ℕ) → In i matched ↔ Occurs sigs i u

  module _ (a : Automaton) (linked : IsLinked tr word a.nodes) where
    pub scan_chunk-IsScanned :
        (bytes u : Bytes) (s : ℕ) (matched : List ℕ)
        → AreBytes bytes
        → IsScanned u s matched
        → IsScanned (u ++ bytes) (scan_chunk a bytes s matched).0 (scan_chunk a bytes s matched).1
    unfolding scan_chunk
    scan_chunk-IsScanned [] u s matched small k = rw (append-nil u) k
    scan_chunk-IsScanned (b ∷ bytes) u s matched small k =
        rw (sym (append_assoc u (b ∷ []) bytes)) (
          scan_chunk-IsScanned bytes (u ++ b ∷ []) (index (step a s b))
            (insert_all (outputs a (index (step a s b))) matched) small.1
            (record {
              state = arrives;
              found = λ i.
                  let ins = In-insert_all i (outputs a (index (step a s b))) matched in
                  let occ = Occurs-snoc i u b in
                  (
                    λ m. elim (ins.0 m) [
                      | inl new ↦ occ.1 (inr (rw reports at new))
                      | inr old ↦ occ.1 (inl ((k.found i).0 old))
                    ],
                    λ o. elim (occ.0 o) [
                      | inl old ↦ ins.1 (inr ((k.found i).1 old))
                      | inr new ↦ ins.1 (inl (rw reports new))
                    ],
                  );
            }))
      where
        arrives : index (step a s b) ≡ longest tr (u ++ b ∷ [])
        arrives =
            unfold step index goto in
            ap index (linked.nexts s b (rw (k.state) (longest_lt tr word f.trie u)) small.0)
            ∙ ap (λ v. longest tr (word v ++ b ∷ [])) k.state
            ∙ sym (longest-snoc tr word f.trie u b)

        reports : outputs a (index (step a s b)) ≡ collected tr (u ++ b ∷ [])
        reports =
            unfold outputs in
            ap (output a.nodes) arrives
            ∙ linked.outputs _ (longest_lt tr word f.trie (u ++ b ∷ []))
            ∙ collected-word-longest tr word f.trie (u ++ b ∷ [])
