-- ===== src/Signature.antt =====
-- Signature/SignatureLoader.{h,cpp}: the signature strings of a text file. The file is its content,
-- or `none` if it cannot be opened; its write time is `none` if it cannot be read.
use virus_detector.Base.{
  ℕ, ◌≡◌, refl, sym, ap, ◌∙◌, ◌↔◌, ◌⊎◌, inl, inr, ◌≢◌, Bool, true, false, not, ◌&&◌, Option, none,
  some, List, [], ◌∷◌, Bytes, In, All, arith, ◌==◌, if◌then◌else◌, lines, trim, trim_split,
  HasCleanEnds, Bool-cases, ℤ, pos, length,
}
pub mod Tests

pub record SignatureLoader : Type 0 where
  pub signatures : List Bytes
  pub last_modified : ℤ

unfoldable pub starts_with_hash : Bytes → Bool
starts_with_hash [] = false
starts_with_hash (c ∷ s) = c == b'#'

unfoldable pub is_empty : Bytes → Bool
is_empty [] = true
is_empty (c ∷ s) = false

unfoldable pub is_valid_signature : Bytes → Bool
unfolding starts_with_hash is_empty
is_valid_signature line = not (is_empty line) && not (starts_with_hash line)

-- The loop over the lines of the file.
unfoldable pub load_lines : List Bytes → List Bytes
load_lines [] = []
load_lines (line ∷ rest) =
    if is_valid_signature (trim line) then trim line ∷ load_lines rest else load_lines rest

unfoldable pub load : Option Bytes → Option ℤ → SignatureLoader × Bool
unfolding is_empty
load none write_time = (record { signatures = []; last_modified = pos 0 }, false)
load (some content) write_time =
    let signatures = load_lines (lines content) in
    let last_modified : ℤ = elim write_time [ none ↦ pos 0 | some t ↦ t ] in
    (
      record { signatures = signatures; last_modified = last_modified },
      elim signatures [ [] ↦ false | s ∷ ss ↦ true ],
    )

pub count : SignatureLoader → ℕ
count l = length l.signatures

In-load_lines :
    (s : Bytes) (ls : List Bytes)
    → In s (load_lines ls)
      ↔ ((line : Bytes) × In line ls × (s ≡ trim line) × (is_valid_signature s ≡ true))
unfolding load_lines
In-load_lines s [] = (λ m. absurd m, λ (l, m, e, v). absurd m)
In-load_lines s (line ∷ ls) =
    let ih = In-load_lines s ls in
    elim (Bool-cases (is_valid_signature (trim line))) [
      | inl valid ↦ rw valid (
        λ m. elim m [
          | inl e ↦ (line, inl refl, e, ap is_valid_signature e ∙ valid)
          | inr n ↦ let (l, at_l, e, v) = ih.0 n in (l, inr at_l, e, v)
        ],
        λ (l, m, e, v). elim m [
          | inl same ↦ inl (e ∙ ap trim same)
          | inr n ↦ inr (ih.1 (l, n, e, v))
        ],
      )
      | inr invalid ↦ rw invalid (
        λ m. let (l, at_l, e, v) = ih.0 m in (l, inr at_l, e, v),
        λ (l, m, e, v). elim m [
          | inl same ↦
              let bad : true ≡ false = sym v ∙ ap is_valid_signature (e ∙ ap trim same) ∙ invalid in
              cc
          | inr n ↦ ih.1 (l, n, e, v)
        ],
      )
    ]

-- The signatures loaded from a file are its trimmed lines that are neither empty nor a comment,
-- and none has a space at an end. The loader reports success exactly if there is one, and failure
-- if the file cannot be opened.
pub load-In :
    (content : Bytes) (write_time : Option ℤ)
    → ((s : Bytes)
        → In s (load (some content) write_time).0.signatures ↔ (
            (line : Bytes) × In line (lines content)
            × (s ≡ trim line)
            × (s ≢ [])
            × (starts_with_hash s ≡ false)))
      × ((s : Bytes) → In s (load (some content) write_time).0.signatures → HasCleanEnds s)
      × (((load (some content) write_time).1 ≡ true)
          ↔ ((s : Bytes) × In s (load (some content) write_time).0.signatures))
      × ((load none write_time).1 ≡ false)
unfolding load
load-In content write_time = (
  λ s.
      let all = In-load_lines s (lines content) in
      (
        λ m.
            let (l, at_l, e, v) = all.0 m in (l, at_l, e, (valid_parts s v).0, (valid_parts s v).1),
        λ (l, at_l, e, ne, nh). all.1 (l, at_l, e, valid_whole s ne nh),
      ),
  λ s m.
      let (l, at_l, e, v) = (In-load_lines s (lines content)).0 m in
      let (pre, post, split, a, b, clean) = trim_split l in rw e clean,
  some_loaded (load_lines (lines content)),
  refl,
)
  where
    valid_parts :
        (s : Bytes) → is_valid_signature s ≡ true → (s ≢ []) × (starts_with_hash s ≡ false)
    valid_parts [] v = unfold is_valid_signature in cc
    valid_parts (c ∷ s) v = (λ e. cc, unfold is_valid_signature in ground arith)

    valid_whole : (s : Bytes) → s ≢ [] → starts_with_hash s ≡ false → is_valid_signature s ≡ true
    valid_whole [] ne nh = absurd (ne refl)
    valid_whole (c ∷ s) ne nh = unfold is_valid_signature in ground arith

    some_loaded :
        (ss : List Bytes)
        → ((elim ss as (λ x. Bool) [ [] ↦ false | s ∷ r ↦ true ]) ≡ true) ↔ ((s : Bytes) × In s ss)
    some_loaded [] = (λ e. cc, λ (s, m). absurd m)
    some_loaded (s ∷ ss) = (λ e. (s, inl refl), λ m. refl)
