-- ===== src/Evidence/Json/Clean.antt =====
-- What the redaction of a JSON map leaves in it.
use nexus_hunter_ai.Prelude.{ℕ, ◌+◌, String, true, false, ◌≡◌, refl, ◌⊎◌, inl, inr, Bool-cases}
use nexus_hunter_ai.Prelude.Texts.{Text, codes}
use nexus_hunter_ai.Jobs.Values.{
  Value, nil, nil_object, object, array, strings, ints, text, int, boolean, Items, no_items, item,
  Fields, no_fields, field,
}
use nexus_hunter_ai.Evidence.Redactor.{Redactor}
use nexus_hunter_ai.Evidence.Json.{
  is_sensitive_key, redacted_text, field_path, item_path, redact_string, redact_item_string,
  sanitize_json_value, sanitize_json_item, sanitize_json_map, sanitize_json_slice,
}

module _ (rx : Redactor) where
  -- a string that a map may hold: a mark of redaction, or one without a token
  abbrev pub IsCleanString : String → Type 0
  IsCleanString s =
      (s ≡ "[REDACTED_JWT]")
      ⊎ (s ≡ "Bearer [REDACTED]")
      ⊎ ((rx.has_jwt (codes s) ≡ false) × (rx.has_bearer (codes s) ≡ false))

  abbrev pub IsCleanItemString : String → Type 0
  IsCleanItemString s = (s ≡ "[REDACTED_JWT]") ⊎ (rx.has_jwt (codes s) ≡ false)

  -- Under a sensitive key stands the mark of redaction, and every other entry is clean, down to any
  -- depth that maps, and slices of maps, reach. A slice in a slice may hold anything.
  mutual
    pub IsCleanValue : Value → Type 0
    IsCleanValue (object m) = IsCleanMap m
    IsCleanValue (array xs) = IsCleanSlice xs
    IsCleanValue (text s) = IsCleanString s
    IsCleanValue nil = Unit
    IsCleanValue nil_object = Unit
    IsCleanValue (strings xs) = Unit
    IsCleanValue (ints xs) = Unit
    IsCleanValue (int n) = Unit
    IsCleanValue (boolean b) = Unit

    pub IsCleanItem : Value → Type 0
    IsCleanItem (object m) = IsCleanMap m
    IsCleanItem (text s) = IsCleanItemString s
    IsCleanItem (array xs) = Unit
    IsCleanItem nil = Unit
    IsCleanItem nil_object = Unit
    IsCleanItem (strings xs) = Unit
    IsCleanItem (ints xs) = Unit
    IsCleanItem (int n) = Unit
    IsCleanItem (boolean b) = Unit

    pub IsCleanMap : Fields → Type 0
    IsCleanMap no_fields = Unit
    IsCleanMap (field k v m) =
        ((is_sensitive_key k ≡ true) × (v ≡ redacted_text)
          ⊎ (is_sensitive_key k ≡ false) × IsCleanValue v)
        × IsCleanMap m

    pub IsCleanSlice : Items → Type 0
    IsCleanSlice no_items = Unit
    IsCleanSlice (item v xs) = IsCleanItem v × IsCleanSlice xs

  redact_string-clean : (path : Text) (s : String) → IsCleanValue (redact_string rx path s).0
  unfolding IsCleanValue redact_string
  redact_string-clean path s = elim (Bool-cases (rx.has_jwt (codes s))) [
    | inl x ↦ rw x (inl refl)
    | inr x ↦ elim (Bool-cases (rx.has_bearer (codes s))) [
      | inl y ↦ rw (x, y) (inr (inl refl))
      | inr y ↦ rw (x, y) (inr (inr (x, y)))
    ]
  ]

  redact_item_string-clean :
      (path : Text) (s : String) → IsCleanItem (redact_item_string rx path s).0
  unfolding IsCleanItem redact_item_string
  redact_item_string-clean path s = elim (Bool-cases (rx.has_jwt (codes s))) [
    | inl x ↦ rw x (inl refl)
    | inr x ↦ rw x (inr x)
  ]

  mutual
    unfolding IsCleanValue IsCleanItem IsCleanMap IsCleanSlice sanitize_json_value
        sanitize_json_item sanitize_json_map sanitize_json_slice

    value_clean : (path : Text) (v : Value) → IsCleanValue (sanitize_json_value rx path v).0
    value_clean path (object m) = map_clean path m
    value_clean path (array xs) = slice_clean path 0 xs
    value_clean path (text s) = redact_string-clean path s
    value_clean path nil = tt
    value_clean path nil_object = tt
    value_clean path (strings xs) = tt
    value_clean path (ints xs) = tt
    value_clean path (int n) = tt
    value_clean path (boolean b) = tt

    item_clean : (path : Text) (v : Value) → IsCleanItem (sanitize_json_item rx path v).0
    item_clean path (object m) = map_clean path m
    item_clean path (text s) = redact_item_string-clean path s
    item_clean path (array xs) = tt
    item_clean path nil = tt
    item_clean path nil_object = tt
    item_clean path (strings xs) = tt
    item_clean path (ints xs) = tt
    item_clean path (int n) = tt
    item_clean path (boolean b) = tt

    map_clean : (prefix : Text) (m : Fields) → IsCleanMap (sanitize_json_map rx prefix m).0
    map_clean prefix no_fields = tt
    map_clean prefix (field k v m) = elim (Bool-cases (is_sensitive_key k)) [
      | inl e ↦ rw e (inl (e, refl), map_clean prefix m)
      | inr e ↦ rw e (inr (e, value_clean (field_path prefix k) v), map_clean prefix m)
    ]

    slice_clean :
        (prefix : Text) (i : ℕ) (xs : Items) → IsCleanSlice (sanitize_json_slice rx prefix i xs).0
    slice_clean prefix i no_items = tt
    slice_clean prefix i (item v xs) =
        (item_clean (item_path prefix i) v, slice_clean prefix (i + 1) xs)

  -- After sanitizeJSONMap every sensitive key, at any depth that maps and slices of maps reach, holds the
  -- mark of redaction, no string directly in a map holds a JWT or a bearer token, and no string
  -- directly in a slice holds a JWT.
  pub sanitize_json_map-IsCleanMap :
      (prefix : Text) (m : Fields) → IsCleanMap (sanitize_json_map rx prefix m).0
  sanitize_json_map-IsCleanMap prefix m = map_clean prefix m
