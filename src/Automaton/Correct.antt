-- ===== src/Automaton/Correct.antt =====
-- AutomatonBuilder::build followed by AutomatonScanner::scanChunk, against substring search.
use virus_detector.Base.{
  true, ℕ, suc, ◌+◌, ◌<◌, ◌≡◌, refl, ◌↔◌, some, List, [], ◌∷◌, ◌++◌, Bytes, length, arith, In, All,
}
use virus_detector.Automaton.{
  Automaton, Nodes, new_node, add_signature, add_signatures, build, scan_chunk,
}
use virus_detector.Automaton.Words.{longest}
use virus_detector.Automaton.Loop.{IsLinked, build_failure_links-IsLinked}
use virus_detector.Automaton.Insert.{
  IsFilled, AreBytes, add_signatures-IsFilled, start-IsFilled, IsFilled-silent,
}
use virus_detector.Automaton.Match.{Occurs, IsScanned, scan_chunk-IsScanned}

-- A built automaton together with the trie that it came from.
pub record IsAutomaton (sigs : List Bytes) (a : Automaton) : Type 0 where
  pub trie : Nodes
  pub word : ℕ → Bytes
  pub made : trie ≡ (add_signatures (new_node ∷ []) 0 0 sigs).0
  pub filled : IsFilled trie word sigs
  pub linked : IsLinked trie word a.nodes

-- The loop of build over non-empty signatures counts them.
pub non_empty : List Bytes → ℕ
non_empty [] = 0
non_empty ([] ∷ rest) = non_empty rest
non_empty ((b ∷ bs) ∷ rest) = suc (non_empty rest)

add_signatures-count :
    (ns : Nodes) (count i : ℕ) (rest : List Bytes)
    → (add_signatures ns count i rest).1 ≡ count + non_empty rest
unfolding add_signatures non_empty
add_signatures-count ns count i [] = omega arith
add_signatures-count ns count i ([] ∷ rest) = add_signatures-count ns count (suc i) rest
add_signatures-count ns count i ((b ∷ bs) ∷ rest) =
    omega (arith, add_signatures-count (add_signature ns (b ∷ bs) i) (suc count) (suc i) rest)

-- For signatures of bytes, build ends with an automaton whose nodes are the trie of the signatures,
-- with every transition and every output set as the longest suffix in the trie demands, and so every
-- failure link but the root's; it counts the non-empty signatures, and has at least the root.
pub build-IsAutomaton :
    (sigs : List Bytes)
    → All AreBytes sigs
    → (a : Automaton) × (build sigs ≡ some a)
      × IsAutomaton sigs a
      × (a.signature_count ≡ non_empty sigs)
      × (0 < length a.nodes)
unfolding build
build-IsAutomaton sigs small =
    let (word, filled) =
      add_signatures-IsFilled (new_node ∷ []) (λ t. []) [] sigs 0 0 refl start-IsFilled small in
    let (ns, done, linked) =
      build_failure_links-IsLinked ns0 word filled.trie (IsFilled-silent ns0 word sigs filled) in
    (
      record {
        nodes = ns;
        signature_count = (add_signatures (new_node ∷ []) 0 0 sigs).1;
        built = true;
      },
      rw (done, build),
      record { trie = ns0; word = word; made = refl; filled = filled; linked = linked },
      omega (arith, add_signatures-count (new_node ∷ []) 0 0 sigs),
      rw (linked.size) filled.trie.nonempty,
    )
  where
    ns0 : Nodes
    ns0 = (add_signatures (new_node ∷ []) 0 0 sigs).0

-- A scan before its first byte.
start-IsScanned :
    (sigs : List Bytes) (a : Automaton) (k : IsAutomaton sigs a)
    → IsScanned k.trie k.word sigs k.filled [] 0 []
start-IsScanned sigs a k = record {
  state = unfold longest in refl;
  found = λ i. (λ m. absurd m, λ o. let (x, y, z, e, at_i, ne) = o in ne (empty_middle x y z e));
}
  where
    empty_middle : (x y z : Bytes) → [] ≡ x ++ (y ++ z) → y ≡ []
    empty_middle [] [] z e = refl
    empty_middle [] (b ∷ y) z e = cc
    empty_middle (a ∷ x) y z e = cc

-- For signatures and data of bytes, build gives an automaton, and a scan of the data from the root
-- finds exactly the indexes of the non-empty signatures that occur in it.
pub scan_chunk-Occurs :
    (sigs : List Bytes)
    → All AreBytes sigs
    → (a : Automaton) × (build sigs ≡ some a)
      × ((bytes : Bytes)
          → AreBytes bytes
          → (i : ℕ) → In i (scan_chunk a bytes 0 []).1 ↔ Occurs sigs i bytes)
scan_chunk-Occurs sigs small =
    let (a, built, k, _, _) = build-IsAutomaton sigs small in
    (
      a,
      built,
      λ bytes small_bytes i.
          (scan_chunk-IsScanned k.trie k.word sigs k.filled a k.linked bytes [] 0 [] small_bytes
              (start-IsScanned sigs a k)).found
            i,
    )

-- Two chunks scanned one after the other are scanned as one.
pub scan_chunk-append :
    (a : Automaton) (xs ys : Bytes) (s : ℕ) (matched : List ℕ)
    → scan_chunk a (xs ++ ys) s matched
      ≡ scan_chunk a ys (scan_chunk a xs s matched).0 (scan_chunk a xs s matched).1
unfolding scan_chunk
scan_chunk-append a [] ys s matched = refl
scan_chunk-append a (b ∷ xs) ys s matched = scan_chunk-append a xs ys _ _

pub scan_chunk-nil :
    (a : Automaton) (s : ℕ) (matched : List ℕ) → scan_chunk a [] s matched ≡ (s, matched)
unfolding scan_chunk
scan_chunk-nil a s matched = refl
