-- ===== src/Automaton/Tests.antt =====
-- The automaton of the signatures "ab" and "bc".
use virus_detector.Base.{
  ◌≤◌, ◌+◌, ℕ, ◌<◌, ◌≡◌, refl, ◌↔◌, Bool, true, ◌&&◌, some, List, [], ◌∷◌, Bytes, codes, All, In,
  ltb, arith, length,
}
use virus_detector.Automaton.{node_count, step, outputs, Automaton, build, scan_chunk}
use virus_detector.Automaton.Bounds.{total_length, build_bounds}
use virus_detector.Automaton.Insert.{AreBytes}
use virus_detector.Automaton.Match.{Occurs}
use virus_detector.Automaton.Correct.{IsAutomaton, build-IsAutomaton, scan_chunk-Occurs, non_empty}

abbrev pub two : List Bytes
two = codes "ab" ∷ codes "bc" ∷ []

abbrev pub all_below : Bytes → Bool
all_below [] = true
all_below (b ∷ s) = ltb b 256 && all_below s

pub all_below-AreBytes : (s : Bytes) → all_below s ≡ true → AreBytes s
all_below-AreBytes [] h = tt
all_below-AreBytes (b ∷ s) h = (ground arith, all_below-AreBytes s (ground arith))

pub two-AreBytes : All AreBytes two
two-AreBytes = (all_below-AreBytes (codes "ab") refl, (all_below-AreBytes (codes "bc") refl, tt))

pub text-AreBytes : AreBytes (codes "xabc")
text-AreBytes = all_below-AreBytes (codes "xabc") refl

scan_chunk-Occurs_example :
    (a : Automaton) × (build two ≡ some a)
    × ((bytes : Bytes)
        → AreBytes bytes
        → (i : ℕ) → In i (scan_chunk a bytes 0 []).1 ↔ Occurs two i bytes)
scan_chunk-Occurs_example = scan_chunk-Occurs two two-AreBytes

build-IsAutomaton_example :
    (a : Automaton) × (build two ≡ some a)
    × IsAutomaton two a
    × (a.signature_count ≡ non_empty two)
    × (0 < length a.nodes)
build-IsAutomaton_example = build-IsAutomaton two two-AreBytes

build_bounds_example :
    (a : Automaton) × (build two ≡ some a)
    × (node_count a ≤ 1 + total_length two)
    × ((s b : ℕ)
        → s < node_count a
        → b < 256
        → (t : ℕ) × (step a s b ≡ some t) × (t < node_count a))
    × ((s i : ℕ) → s < node_count a → In i (outputs a s) → i < length two)
    × ((bytes : Bytes) (matched : List ℕ)
        → AreBytes bytes
        → (scan_chunk a bytes 0 matched).0 < node_count a)
build_bounds_example = build_bounds two two-AreBytes
