-- ===== src/Metadata/Laws.antt =====
-- The metadata file gives back the entries that were saved.
use virus_detector.Base.{
  ℕ, ◌%◌, ◌^◌, ◌<◌, ◌≡◌, refl, sym, ap, ◌∙◌, true, Option, none, some, List, [], ◌∷◌, map, Bytes,
  codes, bytes_eq, All, arith, if◌then◌else◌, Bool-cases, inl, inr, bytes_eq_refl, ◌≢◌,
}
use virus_detector.Metadata.{
  QuarantineEntry, Json, lookup, each, permission_fields, to_json, text_at, number_at,
  read_signatures, read_permissions, from_json, root_json, read_entries, read_root, load_entries,
  find, erase_id, add,
}

abbrev pub IsMode : Option ℕ → Type 0
IsMode none = Unit
IsMode (some n) = n < 4096

-- What the code puts into an entry: a 64-bit size, and permissions within their mask.
pub record IsStorable (e : QuarantineEntry) : Type 0 where
  pub size : e.file_size < 2 ^ 64
  pub mode : IsMode e.original_permissions

module _ {J T : Type 0} (json : Json J T) where
  texts : (ss : List Bytes) → each json.get_text (map json.of_text ss) ≡ some ss
  unfolding each
  texts [] = refl
  texts (s ∷ ss) = rw (json.get_text-of_text s, texts ss) refl

  permissions :
      (m : Option ℕ)
      → IsMode m
      → read_permissions json (lookup (codes "permissions") (permission_fields json m)) ≡ some m
  unfolding read_permissions permission_fields lookup bytes_eq
  permissions none h = refl
  permissions (some n) h =
      let small : (n % 4096) % 4096 ≡ n = omega arith in
      rw (json.get_number-of_number (n % 4096) (omega arith)) (ap (λ z. some (some z)) small)

  -- An entry with a 64-bit size and permissions within their mask is read back from its JSON as it was.
  pub from_json-to_json :
      (e : QuarantineEntry) → IsStorable e → from_json json (to_json json e) ≡ some e
  unfolding from_json to_json text_at number_at lookup bytes_eq read_signatures
  from_json-to_json e v = simp (
    json.at-of_object,
    json.get_text-of_text,
    json.get_array-of_array,
    texts,
    json.get_number-of_number e.file_size v.size,
    permissions e.original_permissions v.mode,
  )

  entries :
      (es : List QuarantineEntry)
      → All IsStorable es
      → each (from_json json) (map (to_json json) es) ≡ some es
  unfolding each
  entries [] h = refl
  entries (e ∷ es) (v, h) = rw (from_json-to_json e v, entries es h) refl

  read_root-dump :
      (es : List QuarantineEntry) (t : T)
      → All IsStorable es
      → json.dump (root_json json es) ≡ some t
      → read_root json t ≡ some es
  unfolding read_root root_json read_entries lookup bytes_eq
  read_root-dump es t h e = simp (
    json.parse-dump (root_json json es) t e,
    json.at-of_object,
    json.get_array-of_array,
    entries es h,
  )

  -- Metadata that could be written are loaded as the entries that they were written from.
  pub load_entries-dump :
      (es : List QuarantineEntry) (t : T)
      → All IsStorable es
      → json.dump (root_json json es) ≡ some t
      → load_entries json true (some t) ≡ (es, true)
  unfolding load_entries
  load_entries-dump es t h e = rw (read_root-dump es t h e, load_entries) refl

pub find-add :
    (e : QuarantineEntry) (es : List QuarantineEntry)
    → find e.id es ≡ none
    → (find e.id (add e es) ≡ some e) × (erase_id e.id (add e es) ≡ es)
unfolding find erase_id add
find-add e [] h = rw (bytes_eq_refl e.id) (refl, refl)
find-add e (x ∷ es) h = elim (Bool-cases (bytes_eq x.id e.id)) [
  | inl same ↦ absurd (some_ne_none x (sym (ap (λ b. if b then some x else find e.id es) same) ∙ h))
  | inr other ↦
      let (a, b) = find-add e es (sym (ap (λ b. if b then some x else find e.id es) other) ∙ h) in
      rw other (a, ap (◌∷◌ x) b)
]
  where
    some_ne_none : (x : QuarantineEntry) → some x ≢ none
    some_ne_none x h = cc
