-- ===== src/Output/Console.antt =====
-- What can be read back from the texts for the user: the counters of a scan, and the identifiers of the
-- quarantine's list.
use virus_detector.Base.{
  ℕ, ◌≡◌, ◌≢◌, refl, sym, ap, ◌∙◌, true, false, Option, none, some, List, [], ◌∷◌, ◌++◌, append-nil,
  append_assoc, Bytes, codes, lines, map, All, All-append, ◌==◌, ◌||◌, arith, Bool-cases, inl, inr,
}
use virus_detector.Metadata.{QuarantineEntry}
use virus_detector.Resume.Checkpoint.{IsLine}
use virus_detector.Pipeline.{ScanSummary}
use virus_detector.Output.{
  quoted, escaped, to_log_line, print_scan_summary, print_signatures, signature_list, print_entries,
  print_quarantine_list,
}
use virus_detector.Output.Lines.{unlines, lines-unlines, unlines-append}
use virus_detector.Output.Decimal.{
  decimal, is_digit, numbers, numbers_after, numbers-decimal, numbers-decimal_end, decimal-IsLine,
}

-- A number, a byte that is no digit, and what the rest shows.
shows :
    (n c : ℕ) (rest : Bytes) (ns : List ℕ)
    → is_digit c ≡ false
    → numbers rest ≡ ns
    → numbers (decimal n ++ c ∷ rest) ≡ n ∷ ns
shows n c rest ns h e = numbers-decimal n c rest h ∙ ap (◌∷◌ n) e

-- The numbers of the log's summary line are the counters of the scan, and those of the summary on the
-- console are all of them but the discovered and the excluded, in this order.
pub summary-numbers :
    (s : ScanSummary)
    → (numbers (to_log_line s)
        ≡ s.discovered ∷ s.scanned ∷ s.cached ∷ s.excluded ∷ s.malicious ∷ s.quarantined ∷ s.failed
          ∷ [])
      × (numbers (print_scan_summary s)
          ≡ s.scanned ∷ s.cached ∷ s.malicious ∷ s.quarantined ∷ s.failed ∷ [])
unfolding to_log_line print_scan_summary numbers_after
summary-numbers s = (
  shows s.discovered _ _ _ refl (
      shows s.scanned _ _ _ refl (
        shows s.cached _ _ _ refl (
          shows s.excluded _ _ _ refl (
            shows s.malicious _ _ _ refl
              (shows s.quarantined _ _ _ refl (numbers-decimal_end s.failed)))))),
  shows s.scanned _ _ _ refl (
      shows s.cached _ _ _ refl (
        shows s.malicious _ _ _ refl
          (shows s.quarantined _ _ _ refl (shows s.failed _ _ _ refl refl)))),
)

-- The rest of a line that begins so.
abbrev strip_prefix : Bytes → Bytes → Option Bytes
strip_prefix [] s = some s
strip_prefix (c ∷ p) [] = none
strip_prefix (c ∷ p) (d ∷ s) = elim (c == d) [ true ↦ strip_prefix p s | false ↦ none ]

-- What a reader of the list takes for the identifiers.
abbrev pub listed_ids : List Bytes → List Bytes
listed_ids [] = []
listed_ids (l ∷ ls) = elim (strip_prefix (codes "  ID:       ") l) [
  | none ↦ listed_ids ls
  | some id ↦ id ∷ listed_ids ls
]

-- No text of the entry has a newline in it.
abbrev pub IsOnLines : QuarantineEntry → Type 0
IsOnLines e =
    IsLine e.id × IsLine e.original_path × All IsLine e.signatures × IsLine e.quarantined_at

-- The lines of the list, for the entries of the quarantine.
abbrev pub signature_lines : List Bytes → List Bytes
signature_lines [] = codes "  Signatures: (none)" ∷ []
signature_lines (g ∷ gs) = codes "  Signatures:" ∷ map (λ s. codes "    - " ++ s) (g ∷ gs)

abbrev pub entry_lines : QuarantineEntry → List Bytes
entry_lines e =
    (codes "  ID:       " ++ e.id)
    ∷ (codes "  Original: " ++ quoted e.original_path)
    ∷ (signature_lines e.signatures
        ++ (codes "  Size:     " ++ decimal e.file_size)
          ∷ (codes "  Date:     " ++ e.quarantined_at)
          ∷ []
          ∷ [])

abbrev pub all_lines : List QuarantineEntry → List Bytes
all_lines [] = []
all_lines (e ∷ es) = entry_lines e ++ all_lines es

print_signatures-unlines :
    (gs : List Bytes) → print_signatures gs ≡ unlines (map (λ s. codes "    - " ++ s) gs)
unfolding print_signatures
print_signatures-unlines [] = refl
print_signatures-unlines (g ∷ gs) =
    ap (λ s. codes "    - " ++ (g ++ (codes "\n" ++ s)))
      (append-nil (print_signatures gs) ∙ print_signatures-unlines gs)

signature_list-unlines :
    (gs : List Bytes) (rest : Bytes)
    → codes "  Signatures:" ++ (signature_list gs ++ rest) ≡ unlines (signature_lines gs) ++ rest
unfolding signature_list
signature_list-unlines [] rest = refl
signature_list-unlines (g ∷ gs) rest =
    ap (λ s. codes "  Signatures:\n" ++ (s ++ rest)) (print_signatures-unlines (g ∷ gs))

print_entries-unlines : (es : List QuarantineEntry) → print_entries es ≡ unlines (all_lines es)
unfolding print_entries
print_entries-unlines [] = refl
print_entries-unlines (e ∷ es) =
    let end : List Bytes =
      (codes "  Size:     " ++ decimal e.file_size)
      ∷ (codes "  Date:     " ++ e.quarantined_at)
      ∷ []
      ∷ [] in
    let signed = signature_lines e.signatures in
    ap
      (λ s.
        codes "  ID:       "
        ++ (e.id ++ (codes "\n  Original: " ++ (quoted e.original_path ++ (10 ∷ s)))))
      (signature_list-unlines e.signatures _
        ∙ ap
            (λ s.
              unlines signed
              ++ (codes "  Size:     "
                  ++ (decimal e.file_size
                      ++ (codes "\n  Date:     " ++ (e.quarantined_at ++ (10 ∷ 10 ∷ s))))))
            (append-nil (print_entries es) ∙ print_entries-unlines es)
        ∙ sym (unlines-append signed (end ++ all_lines es))
        ∙ ap unlines (sym (append_assoc signed end (all_lines es))))

-- Quoting brings no newline in.
escaped-IsLine : (p : Bytes) → IsLine p → IsLine (escaped p)
unfolding escaped
escaped-IsLine [] h = tt
escaped-IsLine (c ∷ cs) h = elim (Bool-cases ((c == 34) || (c == 92))) [
  | inl special ↦ rw special (omega arith, (h.0, escaped-IsLine cs h.1))
  | inr plain ↦ rw plain (h.0, escaped-IsLine cs h.1)
]

quoted-IsLine : (p : Bytes) → IsLine p → IsLine (quoted p)
unfolding quoted
quoted-IsLine p h = (
  omega arith,
  All-append (λ c. c ≢ 10) (escaped p) (34 ∷ []) (escaped-IsLine p h) (omega arith, tt),
)

-- Each line of an entry stays one.
module _ (e : QuarantineEntry) (h : IsOnLines e) where
  titled : (title s : Bytes) → IsLine title → IsLine s → IsLine (title ++ s)
  titled title s k l = All-append (λ c. c ≢ 10) title s k l

  signature_lines-IsLine : (gs : List Bytes) → All IsLine gs → All IsLine (signature_lines gs)
  signature_lines-IsLine [] k = (omega arith, tt)
  signature_lines-IsLine (g ∷ gs) k = (omega arith, each (g ∷ gs) k)
    where
      each : (gs : List Bytes) → All IsLine gs → All IsLine (map (λ s. codes "    - " ++ s) gs)
      each [] k = tt
      each (g ∷ gs) k = (titled (codes "    - ") g (omega arith) k.0, each gs k.1)

  entry_lines-IsLine : All IsLine (entry_lines e)
  entry_lines-IsLine =
      let size =
        titled (codes "  Size:     ") (decimal e.file_size) (omega arith)
          (decimal-IsLine e.file_size) in
      let date = titled (codes "  Date:     ") e.quarantined_at (omega arith) h.3 in
      (
        titled (codes "  ID:       ") e.id (omega arith) h.0,
        (
          titled (codes "  Original: ") (quoted e.original_path) (omega arith)
              (quoted-IsLine e.original_path h.1),
          All-append IsLine (signature_lines e.signatures) _
              (signature_lines-IsLine e.signatures h.2) (size, (date, (tt, tt))),
        ),
      )

  -- Only its first line is taken for an identifier.
  entry_ids : (ls : List Bytes) → listed_ids (entry_lines e ++ ls) ≡ e.id ∷ listed_ids ls
  entry_ids ls = ap (◌∷◌ e.id) (signed e.signatures)
    where
      items :
          (gs : List Bytes) (ks : List Bytes)
          → listed_ids ((map (λ s. codes "    - " ++ s) gs ++ ks) ++ ls) ≡ listed_ids (ks ++ ls)
      items [] ks = refl
      items (g ∷ gs) ks = items gs ks

      signed :
          (gs : List Bytes)
          → listed_ids (
              (signature_lines gs
                ++ (codes "  Size:     " ++ decimal e.file_size)
                  ∷ (codes "  Date:     " ++ e.quarantined_at)
                  ∷ []
                  ∷ [])
              ++ ls)
            ≡ listed_ids ls
      signed [] = refl
      signed (g ∷ gs) = items (g ∷ gs) _

all_lines-IsLine : (es : List QuarantineEntry) → All IsOnLines es → All IsLine (all_lines es)
all_lines-IsLine [] h = tt
all_lines-IsLine (e ∷ es) h =
    All-append IsLine (entry_lines e) (all_lines es) (entry_lines-IsLine e h.0)
      (all_lines-IsLine es h.1)

all_lines_ids :
    (es : List QuarantineEntry) → All IsOnLines es → listed_ids (all_lines es) ≡ map (λ e. e.id) es
all_lines_ids [] h = refl
all_lines_ids (e ∷ es) h = entry_ids e h.0 (all_lines es) ∙ ap (◌∷◌ e.id) (all_lines_ids es h.1)

-- The identifiers read off the printed list of the quarantine are those of its entries, in their order,
-- if no text of an entry has a newline in it.
pub ids-print_quarantine_list :
    (es : List QuarantineEntry)
    → All IsOnLines es
    → listed_ids (lines (print_quarantine_list es)) ≡ map (λ e. e.id) es
unfolding print_quarantine_list
ids-print_quarantine_list [] h = unfold lines in refl
ids-print_quarantine_list (e ∷ es) h =
    ap (λ s. listed_ids (lines (codes "Quarantined files:\n" ++ s)))
      (print_entries-unlines (e ∷ es))
    ∙ ap listed_ids (
        lines-unlines (codes "Quarantined files:" ∷ all_lines (e ∷ es))
          (omega arith, all_lines-IsLine (e ∷ es) h))
    ∙ all_lines_ids (e ∷ es) h
