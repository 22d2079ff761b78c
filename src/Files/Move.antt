-- ===== src/Files/Move.antt =====
-- moveFile: a move that succeeds, by renaming or by copying, puts the content at its destination.
use virus_detector.Base.{
  ℕ, not_both, ◌≡◌, refl, sym, ap, ◌∙◌, ◌≢◌, ◌⊎◌, inl, inr, true, false, Option, none, some, Bytes,
  bytes_eq, bytes_eq_refl, bytes_eq→eq, Bool-cases,
}
use virus_detector.Files.{
  RegularFile, Files, set_file, Calls, is_file, move_present, move_file, set_permissions,
}

-- The move can be made one way or the other.
abbrev pub IsMoving : Calls → Type 0
IsMoving c = (c.renames ≡ true) ⊎ ((c.copies ≡ true) × (c.removes ≡ true))

pub record IsMoved (files files' : Files) (source destination : Bytes) (f : RegularFile)
    : Type 0 where
  pub arrived : RegularFile
  pub same : arrived.content ≡ f.content
  pub there : files' destination ≡ some arrived
  pub gone : files' source ≡ none
  pub others : (p : Bytes) → p ≢ source → p ≢ destination → files' p ≡ files p

pub bytes_ne : (s t : Bytes) → s ≢ t → bytes_eq s t ≡ false
bytes_ne s t h = elim (Bool-cases (bytes_eq s t)) [
  | inl e ↦ absurd (h (bytes_eq→eq s t e))
  | inr e ↦ e
]

pub set_file_hit : (s : Bytes) (o : Option RegularFile) (files : Files) → set_file s o files s ≡ o
set_file_hit s o files = rw (bytes_eq_refl s) refl

pub set_file_miss :
    (s p : Bytes) (o : Option RegularFile) (files : Files) → p ≢ s → set_file s o files p ≡ files p
set_file_miss s p o files h = rw (bytes_ne s p (λ e. h (sym e))) refl

move_present_renamed :
    (c : Calls) (s d : Bytes) (f : RegularFile) (files : Files)
    → c.renames ≡ true
    → move_present c s d f files ≡ (set_file d (some f) (set_file s none files), true)
unfolding move_present
move_present_renamed c s d f files e = rw e refl

move_present_copied :
    (c : Calls) (s d : Bytes) (f : RegularFile) (files : Files)
    → c.renames ≡ false
    → c.copies ≡ true
    → c.removes ≡ true
    → files d ≡ none
    → move_present c s d f files ≡ (
      set_file s none (set_file d (some (record f { permissions = c.copied_permissions })) files),
      true,
    )
unfolding move_present is_file
move_present_copied c s d f files e k r free = rw (e, k, free, r) refl

pub move_present-IsMoved :
    (c : Calls) (s d : Bytes) (f : RegularFile) (files : Files)
    → IsMoving c
    → s ≢ d
    → files d ≡ none
    → IsMoved files (move_present c s d f files).0 s d f × ((move_present c s d f files).1 ≡ true)
move_present-IsMoved c s d f files moving ne free = elim (Bool-cases c.renames) [
  | inl e ↦ rw (move_present_renamed c s d f files e) (
    record {
      arrived = f;
      same = refl;
      there = set_file_hit d (some f) (set_file s none files);
      gone = set_file_miss d s (some f) (set_file s none files) ne ∙ set_file_hit s none files;
      others = λ p a b.
          set_file_miss d p (some f) (set_file s none files) b ∙ set_file_miss s p none files a;
    },
    refl,
  )
  | inr e ↦
      let (k, r) = elim moving as (λ z. (c.copies ≡ true) × (c.removes ≡ true)) [
        | inl z ↦ absurd (not_both c.renames z e)
        | inr z ↦ z
      ] in
      let copy : RegularFile = record f { permissions = c.copied_permissions } in
      rw (move_present_copied c s d f files e k r free) (
        record {
          arrived = copy;
          same = refl;
          there =
              set_file_miss s d none (set_file d (some copy) files) (λ z. ne (sym z))
              ∙ set_file_hit d (some copy) files;
          gone = set_file_hit s none (set_file d (some copy) files);
          others = λ p a b.
              set_file_miss s p none (set_file d (some copy) files) a
              ∙ set_file_miss d p (some copy) files b;
        },
        refl,
      )
]

pub move_file_present :
    (c : Calls) (s d : Bytes) (f : RegularFile) (files : Files)
    → files s ≡ some f
    → move_file c s d files ≡ move_present c s d f files
unfolding move_file
move_file_present c s d f files e = rw (e, move_file) refl

pub set_permissions_present :
    (s : Bytes) (m : ℕ) (g : RegularFile) (files : Files)
    → files s ≡ some g
    → set_permissions true s (some m) files ≡ set_file s (some (record g { permissions = m })) files
unfolding set_permissions
set_permissions_present s m g files e = rw (e, set_permissions) refl

-- The paths that a move and the move back leave alone, and the two that they do not.
pub back_again :
    (files moved back : Files) (s d : Bytes) (f g : RegularFile)
    → files s ≡ some f
    → files d ≡ none
    → IsMoved files moved s d f
    → IsMoved moved back d s g
    → (p : Bytes) → p ≢ s
    → back p ≡ files p
back_again files moved back s d f g at_s free there again p ne = elim (Bool-cases (bytes_eq p d)) [
  | inl e ↦ let same = bytes_eq→eq p d e in ap back same ∙ again.gone ∙ sym (ap files same ∙ free)
  | inr e ↦
      let other : p ≢ d =
        λ z. not_both (bytes_eq p d) (ap (bytes_eq p) (sym z) ∙ bytes_eq_refl p) e in
      again.others p other ne ∙ there.others p ne other
]

pub put_back :
    (files moved back : Files) (s d : Bytes) (f g : RegularFile)
    → files s ≡ some f
    → files d ≡ none
    → IsMoved files moved s d f
    → IsMoved moved back d s g
    → g.content ≡ f.content
    → (p : Bytes) → set_permissions true s (some f.permissions) back p ≡ files p
put_back files moved back s d f g at_s free there again same p =
    ap (λ z. z p) (set_permissions_present s f.permissions again.arrived back again.there)
    ∙ elim (Bool-cases (bytes_eq s p)) [
      | inl e ↦ rw e (
          ap (λ c. some (record { content = c; permissions = f.permissions })) (again.same ∙ same)
          ∙ sym at_s
          ∙ ap files (bytes_eq→eq s p e))
      | inr e ↦ rw e (
          back_again files moved back s d f g at_s free there again p
            (λ z. not_both (bytes_eq s p) (ap (bytes_eq s) z ∙ bytes_eq_refl s) e))
    ]

pub apart :
    (files : Files) (s d : Bytes) (f : RegularFile) → files s ≡ some f → files d ≡ none → s ≢ d
apart files s d f at_s free e = clash (sym at_s ∙ ap files e ∙ free)
  where
    clash : some f ≢ none
    clash h = cc
