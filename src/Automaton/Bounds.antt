-- ===== src/Automaton/Bounds.antt =====
-- The indexes that the scanner uses: states, and signatures in the outputs.
use virus_detector.Base.{
  ℕ, zero, suc, ◌+◌, ◌<◌, ◌≤◌, ◌≡◌, ap, subst, inl, inr, some, List, [], ◌∷◌, ◌++◌, Bytes, length,
  length-append, get_elem?, arith, In, All, Option-cases, In-append-cases,
}
use virus_detector.Automaton.{
  Automaton, Nodes, new_node, next, set_next, output, append_output, add_bytes, add_signature,
  add_signatures, build, step, outputs, index, node_count, scan_chunk,
}
use virus_detector.Automaton.Words.{collected, walk}
use virus_detector.Automaton.Store.{length-set_next, length-append_output}
use virus_detector.Automaton.Goto.{goto_lt}
use virus_detector.Automaton.Insert.{AreBytes}
use virus_detector.Automaton.Correct.{IsAutomaton, build-IsAutomaton}

-- The bytes of all signatures.
unfoldable pub total_length : List Bytes → ℕ
total_length [] = 0
total_length (s ∷ sigs) = length s + total_length sigs

add_bytes-size :
    (ns : Nodes) (s : ℕ) (bs : Bytes) → length (add_bytes ns s bs).0 ≤ length ns + length bs
unfolding add_bytes
add_bytes-size ns s [] = omega arith
add_bytes-size ns s (b ∷ bs) = elim (Option-cases (next ns s b)) [
  | inl e ↦
      let grown = set_next (ns ++ new_node ∷ []) s b (some (length ns)) in
      rw (e, add_bytes)
        (omega (
          arith,
          add_bytes-size grown (length ns) bs,
          length-set_next (ns ++ new_node ∷ []) s b (some (length ns)),
          length-append ns (new_node ∷ []),
        ))
  | inr (t, e) ↦ rw (e, add_bytes) (omega (arith, add_bytes-size ns t bs))
]

add_signatures-size :
    (ns : Nodes) (count i : ℕ) (rest : List Bytes)
    → length (add_signatures ns count i rest).0 ≤ length ns + total_length rest
unfolding add_signatures add_signature total_length
add_signatures-size ns count i [] = omega arith
add_signatures-size ns count i ([] ∷ rest) =
    omega (arith, add_signatures-size ns count (suc i) rest)
add_signatures-size ns count i ((b ∷ bs) ∷ rest) =
    let r = add_bytes ns 0 (b ∷ bs) in
    omega (
      arith,
      add_signatures-size (append_output r.0 r.1 (i ∷ [])) (suc count) (suc i) rest,
      length-append_output r.0 r.1 (i ∷ []),
      add_bytes-size ns 0 (b ∷ bs),
    )

-- Indexes collected for a word are own outputs of some state.
In-collected :
    (ns : Nodes) (u : Bytes) (i : ℕ) → In i (collected ns u) → (t : ℕ) × In i (output ns t)
unfolding collected
In-collected ns [] i m = absurd m
In-collected ns (a ∷ u) i m = elim (Option-cases (walk ns 0 (a ∷ u))) [
  | inl e ↦ In-collected ns u i (rw (e, collected) at m)
  | inr (t, e) ↦ elim (In-append-cases i (output ns t) (collected ns u) (rw (e, collected) at m)) [
    | inl o ↦ (t, o)
    | inr n ↦ In-collected ns u i n
  ]
]

get_elem?_lt : (xs : List Bytes) (i : ℕ) (x : Bytes) → get_elem? xs i ≡ some x → i < length xs
get_elem?_lt [] i x e = cc
get_elem?_lt (y ∷ ys) zero x e = omega arith
get_elem?_lt (y ∷ ys) (suc i) x e = omega (arith, get_elem?_lt ys i x e)

module _ (sigs : List Bytes) (a : Automaton) (k : IsAutomaton sigs a) where
  step_lt :
      (s b : ℕ) → s < node_count a → b < 256 → (t : ℕ) × (step a s b ≡ some t) × (t < node_count a)
  unfolding node_count step
  step_lt s b s_lt b_lt = (
    _,
    k.linked.nexts s b (omega (arith, k.linked.size, s_lt)) b_lt,
    omega (arith, k.linked.size, goto_lt k.trie k.word k.filled.trie s b),
  )

  outputs_lt : (s i : ℕ) → s < node_count a → In i (outputs a s) → i < length sigs
  unfolding node_count outputs
  outputs_lt s i s_lt m =
      let (t, n) =
        In-collected k.trie (k.word s) i
          (subst (In i) (k.linked.outputs s (omega (arith, k.linked.size, s_lt))) m) in
      get_elem?_lt sigs i (k.word t) (k.filled.sound t i n).0

  scan_chunk_lt :
      (bytes : Bytes) (s : ℕ) (matched : List ℕ)
      → AreBytes bytes
      → s < node_count a
      → (scan_chunk a bytes s matched).0 < node_count a
  unfolding scan_chunk index
  scan_chunk_lt [] s matched small s_lt = s_lt
  scan_chunk_lt (b ∷ bytes) s matched small s_lt =
      let (t, e, t_lt) = step_lt s b s_lt small.0 in scan_chunk_lt bytes _ _ small.1 (rw e t_lt)

-- The automaton of signatures of bytes has at most one state more than the signatures have bytes. From
-- each of its states, a byte leads to another of its states, so that a scan never steps to -1 or beyond
-- the nodes and ends in one of them; and the outputs of a state are numbers of signatures.
pub build_bounds :
    (sigs : List Bytes)
    → All AreBytes sigs
    → (a : Automaton) × (build sigs ≡ some a)
      × (node_count a ≤ 1 + total_length sigs)
      × ((s b : ℕ)
          → s < node_count a
          → b < 256
          → (t : ℕ) × (step a s b ≡ some t) × (t < node_count a))
      × ((s i : ℕ) → s < node_count a → In i (outputs a s) → i < length sigs)
      × ((bytes : Bytes) (matched : List ℕ)
          → AreBytes bytes
          → (scan_chunk a bytes 0 matched).0 < node_count a)
build_bounds sigs small =
    let (a, built, k, _, some_node) = build-IsAutomaton sigs small in
    (
      a,
      built,
      unfold node_count in
          omega
            (arith, k.linked.size, ap length k.made, add_signatures-size (new_node ∷ []) 0 0 sigs),
      step_lt sigs a k,
      outputs_lt sigs a k,
      λ bytes matched bytes_small.
          scan_chunk_lt sigs a k bytes 0 matched bytes_small (unfold node_count in some_node),
    )
