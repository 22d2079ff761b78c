-- ===== src/Signature/Tests.antt =====
-- A signature file with a comment, an empty line and spaces.
use virus_detector.Base.{
  ◌≡◌, ◌≢◌, ◌↔◌, true, false, none, some, [], Bytes, codes, In, lines, trim, HasCleanEnds, pos,
}
use virus_detector.Signature.{load, load-In, starts_with_hash}

abbrev text : Bytes
text = codes "# list\n\n  EICAR \nab\n"

load-In_example :
    ((s : Bytes)
      → In s (load (some text) (some (pos 7))).0.signatures ↔ (
          (line : Bytes) × In line (lines text)
          × (s ≡ trim line)
          × (s ≢ [])
          × (starts_with_hash s ≡ false)))
    × ((s : Bytes) → In s (load (some text) (some (pos 7))).0.signatures → HasCleanEnds s)
    × (((load (some text) (some (pos 7))).1 ≡ true)
        ↔ ((s : Bytes) × In s (load (some text) (some (pos 7))).0.signatures))
    × ((load none (some (pos 7))).1 ≡ false)
load-In_example = load-In text (some (pos 7))
