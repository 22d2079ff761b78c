-- ===== src/Files/Others.antt =====
-- A move, whatever its calls do, leaves the files at all other paths alone.
use virus_detector.Base.{
  ◌≡◌, refl, ◌∙◌, ◌≢◌, inl, inr, Bool, true, false, not, ◌&&◌, none, some, Bytes, Option-cases,
  if◌then◌else◌,
}
use virus_detector.Files.{RegularFile, Files, Calls, is_file, set_file, move_present, move_file}
use virus_detector.Files.Move.{set_file_miss, move_file_present}

-- The files after a move whose tests are decided.
moved_others :
    (renames copies removes : Bool) (s d p : Bytes) (f g : RegularFile) (files : Files)
    → p ≢ s
    → p ≢ d
    → let moved : Files × Bool =
        if renames
        then (set_file d (some f) (set_file s none files), true)
        else if copies
        then if removes
          then (set_file s none (set_file d (some g) files), true)
          else (set_file d (some g) files, false)
        else (files, false) in
      moved.0 p ≡ files p
moved_others true copies removes s d p f g files a b =
    set_file_miss d p (some f) (set_file s none files) b ∙ set_file_miss s p none files a
moved_others false true true s d p f g files a b =
    set_file_miss s p none (set_file d (some g) files) a ∙ set_file_miss d p (some g) files b
moved_others false true false s d p f g files a b = set_file_miss d p (some g) files b
moved_others false false removes s d p f g files a b = refl

pub move_present-others :
    (c : Calls) (s d p : Bytes) (f : RegularFile) (files : Files)
    → p ≢ s
    → p ≢ d
    → (move_present c s d f files).0 p ≡ files p
unfolding move_present
move_present-others c s d p f files a b =
    moved_others c.renames (c.copies && not (is_file (files d))) c.removes s d p f
      (record f { permissions = c.copied_permissions }) files a b

move_file_absent :
    (c : Calls) (s d : Bytes) (files : Files)
    → files s ≡ none
    → move_file c s d files ≡ (files, false)
unfolding move_file
move_file_absent c s d files e = rw (e, move_file) refl

pub move_file-others :
    (c : Calls) (s d p : Bytes) (files : Files)
    → p ≢ s
    → p ≢ d
    → (move_file c s d files).0 p ≡ files p
move_file-others c s d p files a b = elim (Option-cases (files s)) [
  | inl e ↦ rw (move_file_absent c s d files e) refl
  | inr (f, e) ↦ rw (move_file_present c s d f files e) (move_present-others c s d p f files a b)
]
