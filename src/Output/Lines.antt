-- ===== src/Output/Lines.antt =====
-- A text as its lines, each with its newline.
use virus_detector.Base.{
  ◌≡◌, ◌≢◌, refl, sym, ap, ◌∙◌, List, [], ◌∷◌, ◌++◌, append_assoc, Bytes, codes, lines, All,
  All-append,
}
use virus_detector.Output.{stream}
use virus_detector.Resume.Checkpoint.{IsLine, lines-append}

abbrev pub unlines : List Bytes → Bytes
unlines [] = []
unlines (l ∷ ls) = l ++ (codes "\n" ++ unlines ls)

pub lines-unlines : (ls : List Bytes) → All IsLine ls → lines (unlines ls) ≡ ls
lines-unlines [] h = unfold lines in refl
lines-unlines (l ∷ ls) h = lines-append l (unlines ls) h.0 ∙ ap (◌∷◌ l) (lines-unlines ls h.1)

pub unlines-end :
    (ls : List Bytes) (l : Bytes) → unlines ls ++ (l ++ codes "\n") ≡ unlines (ls ++ l ∷ [])
unlines-end [] l = refl
unlines-end (k ∷ ls) l =
    append_assoc k (10 ∷ unlines ls) (l ++ codes "\n") ∙ ap (λ s. k ++ (10 ∷ s)) (unlines-end ls l)

pub unlines-append : (ls ks : List Bytes) → unlines (ls ++ ks) ≡ unlines ls ++ unlines ks
unlines-append [] ks = refl
unlines-append (l ∷ ls) ks =
    ap (λ s. l ++ (10 ∷ s)) (unlines-append ls ks)
    ∙ sym (append_assoc l (10 ∷ unlines ls) (unlines ks))

pub stream-IsLine : (xs : List Bytes) → All IsLine xs → IsLine (stream xs)
stream-IsLine [] h = tt
stream-IsLine (x ∷ xs) h = All-append (λ c. c ≢ 10) x (stream xs) h.0 (stream-IsLine xs h.1)
