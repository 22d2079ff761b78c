-- ===== src/Metadata.antt =====
-- Quarantine/QuarantineEntry.h, QuarantineEntryJson.h and QuarantineRepository.{h,cpp}: the records of
-- quarantined files and the JSON that keeps them. The JSON library is an interface over its values `J`
-- and its texts `T`: `none` is an exception that it throws.
pub mod Laws
pub mod Tests
use virus_detector.Base.{
  ℕ, ◌+◌, ◌%◌, ◌^◌, ◌<◌, ◌≡◌, Bool, true, false, Option, none, some, List, [], ◌∷◌, ◌++◌, map,
  Bytes, codes, bytes_eq, if◌then◌else◌,
}

-- `none` is perms::unknown.
pub record QuarantineEntry : Type 0 where
  pub id : Bytes
  pub original_path : Bytes
  pub quarantine_path : Bytes
  pub signatures : List Bytes
  pub file_size : ℕ
  pub quarantined_at : Bytes
  pub original_permissions : Option ℕ

-- The value that an object has for a key: of two equal keys the first counts.
unfoldable pub lookup : {A : Type 0} → Bytes → List (Bytes × A) → Option A
lookup k [] = none
lookup k ((j, v) ∷ fields) = if bytes_eq j k then some v else lookup k fields

-- The calls of nlohmann::json, with what its manual says of them. `at` fails on a missing key, each
-- `get` on a value of another kind, `dump` on text that is not UTF-8.
pub record Json (J T : Type 0) : Type 0 where
  pub of_text : Bytes → J
  pub of_number : ℕ → J
  pub of_array : List J → J
  pub of_object : List (Bytes × J) → J
  pub get_text : J → Option Bytes
  pub get_number : J → Option ℕ
  pub get_array : J → Option (List J)
  pub at : J → Bytes → Option J
  pub dump : J → Option T
  pub parse : T → Option J
  pub get_text-of_text : (s : Bytes) → get_text (of_text s) ≡ some s
  pub get_number-of_number : (n : ℕ) → n < 2 ^ 64 → get_number (of_number n) ≡ some n
  pub get_array-of_array : (js : List J) → get_array (of_array js) ≡ some js
  pub at-of_object :
      (fields : List (Bytes × J)) (k : Bytes) → at (of_object fields) k ≡ lookup k fields
  pub parse-dump : (j : J) (t : T) → dump j ≡ some t → parse t ≡ some j

infixl 5 ◌>>=◌
abbrev pub ◌>>=◌ : {A B : Type 0} → Option A → (A → Option B) → Option B
none >>= f = none
some a >>= f = f a

-- Each element, if none throws.
unfoldable pub each : {A B : Type 0} → (A → Option B) → List A → Option (List B)
each f [] = some []
each f (a ∷ as') = do b ← f a; bs ← each f as'; some (b ∷ bs)

-- perms::mask is 07777.
abbrev pub mask : ℕ → ℕ
mask n = n % 4096

module _ {J T : Type 0} (json : Json J T) where
  unfoldable pub permission_fields : Option ℕ → List (Bytes × J)
  permission_fields none = []
  permission_fields (some n) = (codes "permissions", json.of_number (mask n)) ∷ []

  unfoldable pub to_json : QuarantineEntry → J
  unfolding permission_fields
  to_json e = json.of_object (
      (codes "id", json.of_text e.id)
      ∷ (codes "original_path", json.of_text e.original_path)
      ∷ (codes "quarantine_path", json.of_text e.quarantine_path)
      ∷ (codes "signatures", json.of_array (map json.of_text e.signatures))
      ∷ (codes "file_size", json.of_number e.file_size)
      ∷ (codes "quarantined_at", json.of_text e.quarantined_at)
      ∷ permission_fields e.original_permissions)

  unfoldable pub text_at : J → Bytes → Option Bytes
  text_at j k = do v ← json.at j k; json.get_text v

  unfoldable pub number_at : J → Bytes → Option ℕ
  number_at j k = do v ← json.at j k; json.get_number v

  -- The fields that may be missing.
  unfoldable pub read_signatures : Option J → Option (List Bytes)
  read_signatures none = some []
  read_signatures (some v) = do vs ← json.get_array v; each json.get_text vs

  unfoldable pub read_permissions : Option J → Option (Option ℕ)
  read_permissions none = some none
  read_permissions (some v) = do n ← json.get_number v; some (some (mask n))

  unfoldable pub from_json : J → Option QuarantineEntry
  unfolding text_at number_at read_signatures read_permissions
  from_json j = do
    id ← text_at j (codes "id")
    original ← text_at j (codes "original_path")
    place ← text_at j (codes "quarantine_path")
    signatures ← read_signatures (json.at j (codes "signatures"))
    size ← number_at j (codes "file_size")
    time ← text_at j (codes "quarantined_at")
    permissions ← read_permissions (json.at j (codes "permissions"))
    some (record {
      id = id;
      original_path = original;
      quarantine_path = place;
      signatures = signatures;
      file_size = size;
      quarantined_at = time;
      original_permissions = permissions;
    })

  unfoldable pub root_json : List QuarantineEntry → J
  root_json entries = json.of_object ((codes "entries", json.of_array (map (to_json) entries)) ∷ [])

  unfoldable pub read_entries : Option J → Option (List QuarantineEntry)
  read_entries none = some []
  read_entries (some v) = do vs ← json.get_array v; each from_json vs

  unfoldable pub read_root : T → Option (List QuarantineEntry)
  unfolding read_entries
  read_root t = do root ← json.parse t; read_entries (json.at root (codes "entries"))

  -- QuarantineRepository::load: the entries, and whether the metadata are in order. `none` is a
  -- missing file, `opens` whether one that is there can be opened.
  unfoldable pub load_entries : Bool → Option T → List QuarantineEntry × Bool
  unfolding read_root
  load_entries opens none = ([], true)
  load_entries false (some t) = ([], false)
  load_entries true (some t) = elim (read_root t) [
    | none ↦ ([], false)
    | some entries ↦ (entries, true)
  ]

unfoldable pub find : Bytes → List QuarantineEntry → Option QuarantineEntry
find id [] = none
find id (e ∷ es) = if bytes_eq e.id id then some e else find id es

-- removeById: the entries that are left.
unfoldable pub erase_id : Bytes → List QuarantineEntry → List QuarantineEntry
erase_id id [] = []
erase_id id (e ∷ es) = if bytes_eq e.id id then erase_id id es else e ∷ erase_id id es

unfoldable pub add : QuarantineEntry → List QuarantineEntry → List QuarantineEntry
add e es = es ++ e ∷ []
