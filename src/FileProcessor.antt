-- ===== src/FileProcessor.antt =====
-- Scan/FileProcessor.{h,cpp}: one file is read in chunks, each chunk is scanned, and the indexes
-- found become the sorted signature strings. A file is what its stream delivers: `none` if it
-- cannot be opened, else the bytes read before the end (or before a read error, which the loop
-- takes for the end).
pub mod Sort
pub mod Process
pub mod Tests
use virus_detector.Base.{
  ℕ, zero, suc, ◌+◌, ◌*◌, Option, none, some, List, [], ◌∷◌, Bytes, bytes_lt, length, get_elem?,
  ltb, if◌then◌else◌, take, drop,
}
use virus_detector.Automaton.{Automaton, scan_chunk}

abbrev pub chunk_size : ℕ
chunk_size = 1024 * 1024

-- The `while (true)` of process: read up to `size` bytes, stop at the first read that gives none.
unfoldable pub read_loop : ℕ → ℕ → Automaton → Bytes → ℕ → List ℕ → List ℕ
read_loop zero size a file state matched = matched
read_loop (suc fuel) size a file state matched =
    let chunk = take size file in
    let (state', matched') = scan_chunk a chunk state matched in
    let rest = read_loop fuel size a (drop size file) state' matched' in
    elim chunk [ [] ↦ matched | b ∷ bs ↦ rest ]

-- The strings of the indexes that are in range.
unfoldable pub lookup_signatures : List Bytes → List ℕ → List Bytes
lookup_signatures signatures [] = []
lookup_signatures signatures (i ∷ is) = elim (get_elem? signatures i) [
  | none ↦ lookup_signatures signatures is
  | some s ↦ s ∷ lookup_signatures signatures is
]

-- std::ranges::sort on strings: equal strings cannot be told apart, so any sort gives this list.
unfoldable pub insert_sorted : Bytes → List Bytes → List Bytes
insert_sorted s [] = s ∷ []
insert_sorted s (t ∷ ts) = if bytes_lt t s then t ∷ insert_sorted s ts else s ∷ t ∷ ts

unfoldable pub sort : List Bytes → List Bytes
sort [] = []
sort (s ∷ ss) = insert_sorted s (sort ss)

unfoldable pub matched_signatures : List Bytes → List ℕ → List Bytes
matched_signatures signatures matches = sort (lookup_signatures signatures matches)

-- Each round but the last takes a byte at least, so one more round than bytes is enough.
unfoldable pub process : Automaton → List Bytes → Option Bytes → Option (List Bytes)
process a signatures none = none
process a signatures (some file) =
    some (matched_signatures signatures (read_loop (suc (length file)) chunk_size a file 0 []))
