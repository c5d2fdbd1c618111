-- ===== src/Evidence/Json.antt =====
-- sanitizer.go: sanitizeJSONMap and sanitizeJSONSlice.
pub mod Clean
use nexus_hunter_ai.Prelude.{
  ℕ, ◌+◌, String, Bool, true, false, ◌||◌, List, [], ◌∷◌, ◌++◌, if◌then◌else◌,
}
use nexus_hunter_ai.Prelude.Texts.{Text, codes, to_lower}
use nexus_hunter_ai.Prelude.Decimal.{decimal}
use nexus_hunter_ai.Jobs.Values.{
  Value, nil, nil_object, object, array, strings, ints, text, int, boolean, Items, no_items, item,
  Fields, no_fields, field,
}
use nexus_hunter_ai.Evidence.Redactor.{Redactor, is_sensitive_header, is_sensitive_query}

-- a key that is redacted whatever it holds
unfoldable pub is_sensitive_key : String → Bool
is_sensitive_key k =
    is_sensitive_query (to_lower (codes k)) || is_sensitive_header (to_lower (codes k))

abbrev pub redacted_text : Value
redacted_text = text "[REDACTED]"

abbrev pub field_path : Text → String → Text
field_path prefix k = prefix ++ (codes "." ++ codes k)

abbrev pub item_path : Text → ℕ → Text
item_path prefix i = prefix ++ (codes "[" ++ (decimal i ++ codes "]"))

-- the case `string` of a map's entry
unfoldable pub redact_string : Redactor → (path : Text) → String → Value × List Text
redact_string rx path s =
    if rx.has_jwt (codes s)
    then (text "[REDACTED_JWT]", path ∷ [])
    else if rx.has_bearer (codes s)
    then (text "Bearer [REDACTED]", path ∷ [])
    else (text s, [])

-- the case `string` of a slice's entry
unfoldable pub redact_item_string : Redactor → (path : Text) → String → Value × List Text
redact_item_string rx path s =
    if rx.has_jwt (codes s) then (text "[REDACTED_JWT]", path ∷ []) else (text s, [])

unfoldable mutual
  -- one entry of a map under a key that is not sensitive
  pub sanitize_json_value : Redactor → (path : Text) → Value → Value × List Text
  sanitize_json_value rx path (object m) = let r = sanitize_json_map rx path m in (object r.0, r.1)
  sanitize_json_value rx path (array xs) =
      let r = sanitize_json_slice rx path 0 xs in (array r.0, r.1)
  sanitize_json_value rx path (text s) = redact_string rx path s
  sanitize_json_value rx path nil = (nil, [])
  sanitize_json_value rx path nil_object = (object no_fields, [])
  sanitize_json_value rx path (strings xs) = (strings xs, [])
  sanitize_json_value rx path (ints xs) = (ints xs, [])
  sanitize_json_value rx path (int n) = (int n, [])
  sanitize_json_value rx path (boolean b) = (boolean b, [])

  -- one entry of a slice
  pub sanitize_json_item : Redactor → (path : Text) → Value → Value × List Text
  sanitize_json_item rx path (object m) = let r = sanitize_json_map rx path m in (object r.0, r.1)
  sanitize_json_item rx path (text s) = redact_item_string rx path s
  sanitize_json_item rx path (array xs) = (array xs, [])
  sanitize_json_item rx path nil = (nil, [])
  sanitize_json_item rx path nil_object = (object no_fields, [])
  sanitize_json_item rx path (strings xs) = (strings xs, [])
  sanitize_json_item rx path (ints xs) = (ints xs, [])
  sanitize_json_item rx path (int n) = (int n, [])
  sanitize_json_item rx path (boolean b) = (boolean b, [])

  -- sanitizeJSONMap
  pub sanitize_json_map : Redactor → (prefix : Text) → Fields → Fields × List Text
  sanitize_json_map rx prefix no_fields = (no_fields, [])
  sanitize_json_map rx prefix (field k v m) =
      let path = field_path prefix k in
      let rest = sanitize_json_map rx prefix m in
      let here = sanitize_json_value rx path v in
      if is_sensitive_key k
      then (field k redacted_text rest.0, path ∷ rest.1)
      else (field k here.0 rest.0, here.1 ++ rest.1)

  -- sanitizeJSONSlice, from the index i on
  pub sanitize_json_slice : Redactor → (prefix : Text) → ℕ → Items → Items × List Text
  sanitize_json_slice rx prefix i no_items = (no_items, [])
  sanitize_json_slice rx prefix i (item v xs) =
      let here = sanitize_json_item rx (item_path prefix i) v in
      let rest = sanitize_json_slice rx prefix (i + 1) xs in (item here.0 rest.0, here.1 ++ rest.1)
