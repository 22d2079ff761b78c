-- ===== src/Metadata/Tests.antt =====
-- A JSON library whose texts are its values, and an entry in it.
use virus_detector.Base.{
  ℕ, ◌≡◌, refl, ap, ltb, ◌&&◌, Bool, true, Option, none, some, List, [], ◌∷◌, Bytes, codes, arith,
  bytes_eq, if◌then◌else◌,
}
use virus_detector.Metadata.{QuarantineEntry, Json, lookup}
use virus_detector.Metadata.Laws.{IsStorable}

mutual
  pub data Value : Type 0 where
    text : Bytes → Value
    number : ℕ → Value
    array : Items → Value
    object : Fields → Value

  pub data Items : Type 0 where
    nil : Items
    cons : Value → Items → Items

  pub data Fields : Type 0 where
    end : Fields
    field : Bytes → Value → Fields → Fields

abbrev pub items : List Value → Items
items [] = nil
items (v ∷ vs) = cons v (items vs)

abbrev pub values : Items → List Value
values nil = []
values (cons v vs) = v ∷ values vs

abbrev pub fields : List (Bytes × Value) → Fields
fields [] = end
fields ((k, v) ∷ kvs) = field k v (fields kvs)

abbrev pub field_of : Bytes → Fields → Option Value
field_of k end = none
field_of k (field j v fs) = if bytes_eq j k then some v else field_of k fs

pub values-items : (vs : List Value) → values (items vs) ≡ vs
values-items [] = refl
values-items (v ∷ vs) = ap (◌∷◌ v) (values-items vs)

pub field_of-fields :
    (kvs : List (Bytes × Value)) (k : Bytes) → field_of k (fields kvs) ≡ lookup k kvs
unfolding lookup
field_of-fields [] k = refl
field_of-fields ((j, v) ∷ kvs) k =
    ap (λ o. if bytes_eq j k then some v else o) (field_of-fields kvs k)

abbrev pub as_text : Value → Option Bytes
as_text (text s) = some s
as_text (number n) = none
as_text (array vs) = none
as_text (object fs) = none

abbrev pub as_number : Value → Option ℕ
as_number (number n) = some n
as_number (text s) = none
as_number (array vs) = none
as_number (object fs) = none

abbrev pub as_array : Value → Option (List Value)
as_array (array vs) = some (values vs)
as_array (text s) = none
as_array (number n) = none
as_array (object fs) = none

abbrev pub at_key : Value → Bytes → Option Value
at_key (object fs) k = field_of k fs
at_key (text s) k = none
at_key (number n) k = none
at_key (array vs) k = none

-- Text of ASCII bytes, which UTF-8 leaves as they are.
unfoldable pub is_plain : Bytes → Bool
is_plain [] = true
is_plain (b ∷ s) = ltb b 128 && is_plain s

unfoldable mutual
  pub plain : Value → Bool
  plain (text s) = is_plain s
  plain (number n) = true
  plain (array vs) = plain_items vs
  plain (object fs) = plain_fields fs

  pub plain_items : Items → Bool
  plain_items nil = true
  plain_items (cons v vs) = plain v && plain_items vs

  pub plain_fields : Fields → Bool
  plain_fields end = true
  plain_fields (field k v fs) = is_plain k && (plain v && plain_fields fs)

abbrev pub dumped : Value → Option Value
dumped v = if plain v then some v else none

pub parse-dumped : (v t : Value) → dumped v ≡ some t → some t ≡ some v
parse-dumped v t e = ground arith

abbrev pub values_json : Json Value Value
values_json = record {
  of_text = text;
  of_number = number;
  of_array = λ vs. array (items vs);
  of_object = λ kvs. object (fields kvs);
  get_text = as_text;
  get_number = as_number;
  get_array = as_array;
  at = at_key;
  dump = dumped;
  parse = λ v. some v;
  get_text-of_text = λ s. refl;
  get_number-of_number = λ n h. refl;
  get_array-of_array = λ vs. ap some (values-items vs);
  at-of_object = λ kvs k. field_of-fields kvs k;
  parse-dump = parse-dumped;
}

abbrev pub kept : QuarantineEntry
kept = record {
  id = codes "0f";
  original_path = codes "/a";
  quarantine_path = codes "q/0f";
  signatures = codes "ab" ∷ codes "bc" ∷ [];
  file_size = 5;
  quarantined_at = codes "now";
  original_permissions = some 493;
}

abbrev pub kept-IsStorable : IsStorable kept
kept-IsStorable = record { size = omega arith; mode = omega arith }
