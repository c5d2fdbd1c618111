-- ===== src/Jobs/Values.antt =====
-- jobs.go: deepCopyMap and deepCopyValue, over the JSON-like values that metadata and payloads hold.
-- Floating-point numbers are left out of the values: the copy passes every scalar on as it is.
use nexus_hunter_ai.Prelude.{String, Bool, Option, none, some, List, [], ◌∷◌, ◌≡◌, refl}
use nexus_hunter_ai.Prelude.Int.{ℤ}

-- interface{}: the dynamic types that the copy tells apart, and scalars
mutual
  pub data Value : Type 0 where
    nil : Value
    nil_object : Value
    object : Fields → Value
    array : Items → Value
    strings : List String → Value
    ints : List ℤ → Value
    text : String → Value
    int : ℤ → Value
    boolean : Bool → Value

  pub data Items : Type 0 where
    no_items : Items
    item : Value → Items → Items

  pub data Fields : Type 0 where
    no_fields : Fields
    field : String → Value → Fields → Fields

-- copy(res, val) into a new slice of the same length
abbrev copy_slice {ℓ} : {A : Type ℓ} → List A → List A
copy_slice [] = []
copy_slice (x ∷ xs) = x ∷ copy_slice xs

unfoldable mutual
  pub deep_copy_value : Value → Value
  deep_copy_value nil = nil
  deep_copy_value nil_object = nil_object
  deep_copy_value (object m) = object (deep_copy_fields m)
  deep_copy_value (array xs) = array (deep_copy_items xs)
  deep_copy_value (strings xs) = strings (copy_slice xs)
  deep_copy_value (ints xs) = ints (copy_slice xs)
  deep_copy_value (text s) = text s
  deep_copy_value (int n) = int n
  deep_copy_value (boolean b) = boolean b

  pub deep_copy_items : Items → Items
  deep_copy_items no_items = no_items
  deep_copy_items (item v xs) = item (deep_copy_value v) (deep_copy_items xs)

  pub deep_copy_fields : Fields → Fields
  deep_copy_fields no_fields = no_fields
  deep_copy_fields (field k v m) = field k (deep_copy_value v) (deep_copy_fields m)

-- a nil map is copied to nil
unfoldable pub deep_copy_map : Option Fields → Option Fields
unfolding deep_copy_fields
deep_copy_map none = none
deep_copy_map (some m) = some (deep_copy_fields m)

copy_slice_lem {ℓ} : {A : Type ℓ} (xs : List A) → copy_slice xs ≡ xs
copy_slice_lem [] = refl
copy_slice_lem (x ∷ xs) = cc (copy_slice_lem xs)

mutual
  unfolding deep_copy_value deep_copy_items deep_copy_fields

  copy_value_same : (v : Value) → deep_copy_value v ≡ v
  copy_value_same nil = refl
  copy_value_same nil_object = refl
  copy_value_same (object m) = cc (copy_fields_same m)
  copy_value_same (array xs) = cc (copy_items_same xs)
  copy_value_same (strings xs) = cc (copy_slice_lem xs)
  copy_value_same (ints xs) = cc (copy_slice_lem xs)
  copy_value_same (text s) = refl
  copy_value_same (int n) = refl
  copy_value_same (boolean b) = refl

  copy_items_same : (xs : Items) → deep_copy_items xs ≡ xs
  copy_items_same no_items = refl
  copy_items_same (item v xs) = cc (copy_value_same v, copy_items_same xs)

  copy_fields_same : (m : Fields) → deep_copy_fields m ≡ m
  copy_fields_same no_fields = refl
  copy_fields_same (field k v m) = cc (copy_value_same v, copy_fields_same m)

-- A deep copy holds the same values, nested ones and a nil map included.
pub deep_copy_map_lem : (m : Option Fields) → deep_copy_map m ≡ m
unfolding deep_copy_map
deep_copy_map_lem none = refl
deep_copy_map_lem (some m) = cc (copy_fields_same m)

-- a map literal
abbrev pub fields : List (String × Value) → Fields
fields [] = no_fields
fields (e ∷ m) = field e.0 e.1 (fields m)
