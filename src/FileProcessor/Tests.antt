-- ===== src/FileProcessor/Tests.antt =====
-- Files that hold the signatures "ab" and "bc", across a chunk boundary too.
use virus_detector.Base.{◌≡◌, ◌≢◌, ◌↔◌, none, some, List, [], Bytes, codes, In, arith}
use virus_detector.Automaton.{Automaton, build, scan_chunk}
use virus_detector.Automaton.Insert.{AreBytes}
use virus_detector.Automaton.Tests.{two, two-AreBytes}
use virus_detector.FileProcessor.{process, read_loop}
use virus_detector.FileProcessor.Sort.{IsSorted}
use virus_detector.FileProcessor.Process.{process-IsInfix, read_loop-scan_chunk, IsInfix}

process-IsInfix_example :
    (a : Automaton) × (build two ≡ some a)
    × (process a two none ≡ none)
    × ((file : Bytes)
        → AreBytes file
        → (r : List Bytes) × (process a two (some file) ≡ some r)
          × IsSorted r
          × ((s : Bytes) → In s r ↔ (In s two × (s ≢ []) × IsInfix s file)))
process-IsInfix_example = process-IsInfix two two-AreBytes

abbrev two_automaton : Automaton
two_automaton = (process-IsInfix two two-AreBytes).0

read_loop-scan_chunk_example :
    read_loop 5 2 two_automaton (codes "xabc") 0 []
    ≡ (scan_chunk two_automaton (codes "xabc") 0 []).1
read_loop-scan_chunk_example =
    read_loop-scan_chunk 5 1 two_automaton (codes "xabc") 0 [] (omega arith)
