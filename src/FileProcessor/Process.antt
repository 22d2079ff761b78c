-- ===== src/FileProcessor/Process.antt =====
-- What process returns: which strings, in which order, and that the chunk size does not matter.
use virus_detector.Base.{
  ◌*◌, ◌-◌, ℕ, zero, suc, ◌<◌, ◌≤◌, ◌≡◌, refl, sym, ap, subst, ◌∙◌, ◌↔◌, inl, inr, ◌≢◌, none, some,
  List, [], ◌∷◌, ◌++◌, Bytes, length, In, All, arith, get_elem?, take, drop, take-append-drop,
}
use virus_detector.Automaton.{Automaton, build, scan_chunk}
use virus_detector.Automaton.Insert.{AreBytes}
use virus_detector.Automaton.Correct.{scan_chunk-nil, scan_chunk-append, scan_chunk-Occurs}
use mathlib.Core.Option.{some-injective}
use virus_detector.FileProcessor.{
  chunk_size, read_loop, lookup_signatures, sort, matched_signatures, process,
}
use virus_detector.FileProcessor.Sort.{IsSorted, In-sort, sort-IsSorted, In-lookup_signatures}

-- `s` stands somewhere in the bytes.
abbrev pub IsInfix : Bytes → Bytes → Type 0
IsInfix s bytes = (x : Bytes) × (z : Bytes) × (bytes ≡ x ++ (s ++ z))

length-drop-lt : (n : ℕ) (b : ℕ) (bs : Bytes) → length (drop (suc n) (b ∷ bs)) < length (b ∷ bs)
length-drop-lt n b bs = omega (arith, length-drop-le n bs)
  where
    length-drop-le : (k : ℕ) (xs : Bytes) → length (drop k xs) ≤ length xs
    length-drop-le zero xs = omega arith
    length-drop-le (suc k) [] = omega arith
    length-drop-le (suc k) (x ∷ xs) = omega (arith, length-drop-le k xs)

-- With a chunk size above 0, and more fuel than bytes, reading a file in chunks finds what one scan
-- of the whole file finds: a signature that crosses a chunk boundary is not missed.
pub read_loop-scan_chunk :
    (fuel size : ℕ) (a : Automaton) (file : Bytes) (state : ℕ) (matched : List ℕ)
    → length file < fuel
    → read_loop fuel (suc size) a file state matched ≡ (scan_chunk a file state matched).1
unfolding read_loop
read_loop-scan_chunk zero size a file state matched h = elim h [ ]
read_loop-scan_chunk (suc fuel) size a [] state matched h =
    ap (λ r. r.1) (sym (scan_chunk-nil a state matched))
read_loop-scan_chunk (suc fuel) size a (b ∷ bs) state matched h =
    read_loop-scan_chunk fuel size a (drop (suc size) (b ∷ bs)) _ _
      (omega (arith, length-drop-lt size b bs))
    ∙ ap (λ r. r.1)
        (sym
          (scan_chunk-append a (take (suc size) (b ∷ bs)) (drop (suc size) (b ∷ bs)) state matched))
    ∙ ap (λ file. (scan_chunk a file state matched).1) (take-append-drop (suc size) (b ∷ bs))

get_elem?→In : (sigs : List Bytes) (i : ℕ) (s : Bytes) → get_elem? sigs i ≡ some s → In s sigs
get_elem?→In [] i s e = cc
get_elem?→In (x ∷ sigs) zero s e = inl (cc)
get_elem?→In (x ∷ sigs) (suc i) s e = inr (get_elem?→In sigs i s e)

In→get_elem? : (sigs : List Bytes) (s : Bytes) → In s sigs → (i : ℕ) × (get_elem? sigs i ≡ some s)
In→get_elem? [] s m = absurd m
In→get_elem? (x ∷ sigs) s (inl e) = (zero, ap some (sym e))
In→get_elem? (x ∷ sigs) s (inr m) = let (i, e) = In→get_elem? sigs s m in (suc i, e)

-- For signatures of bytes, build gives an automaton with which process returns, for every file of
-- bytes, the sorted list of exactly the non-empty signatures that occur in the file; and nothing if
-- the file cannot be opened.
pub process-IsInfix :
    (sigs : List Bytes)
    → All AreBytes sigs
    → (a : Automaton) × (build sigs ≡ some a)
      × (process a sigs none ≡ none)
      × ((file : Bytes)
          → AreBytes file
          → (r : List Bytes) × (process a sigs (some file) ≡ some r)
            × IsSorted r
            × ((s : Bytes) → In s r ↔ (In s sigs × (s ≢ []) × IsInfix s file)))
unfolding process matched_signatures
process-IsInfix sigs small =
    let (a, built, exact) = scan_chunk-Occurs sigs small in
    (
      a,
      built,
      refl,
      λ file small_file.
          let found = read_loop (suc (length file)) chunk_size a file 0 [] in
          let whole : found ≡ (scan_chunk a file 0 []).1 =
            read_loop-scan_chunk (suc (length file)) (1024 * 1024 - 1) a file 0 [] (omega arith) in
          (
            sort (lookup_signatures sigs found),
            refl,
            sort-IsSorted (lookup_signatures sigs found),
            λ s. (
              λ m.
                  let (i, at_i, e) = (In-lookup_signatures s sigs found).0 ((In-sort s _).0 m) in
                  let (x, y, z, split, e', ne) =
                    (exact file small_file i).0 (subst (In i) whole at_i) in
                  let same : some y ≡ some s = sym e' ∙ e in
                  let y_s : y ≡ s = some-injective y s same in
                  (
                    get_elem?→In sigs i s e,
                    λ q. ne (y_s ∙ q),
                    (x, z, split ∙ ap (λ w. x ++ (w ++ z)) y_s),
                  ),
              λ (m, ne, occurs).
                  let (x, z, split) = occurs in
                  let (i, e) = In→get_elem? sigs s m in
                  (In-sort s _).1 (
                    (In-lookup_signatures s sigs found).1
                      (i, rw whole ((exact file small_file i).1 (x, s, z, split, e, ne)), e)),
            ),
          ),
    )
