-- ===== src/Evidence/Headers.antt =====
-- diff.go: volatileHeaders and compareHeaders.
pub mod Laws
use nexus_hunter_ai.Prelude.{
  Bool, true, false, ◌&&◌, Option, none, some, List, [], ◌∷◌, ◌++◌, if◌then◌else◌, not, any,
}
use nexus_hunter_ai.Prelude.Texts.{Text, codes, text_eq, to_lower, trim_space}
use nexus_hunter_ai.Prelude.TextMaps.{TextMap, look, store}

abbrev pub volatile_headers : List Text
volatile_headers =
    codes "date"
    ∷ codes "age"
    ∷ codes "expires"
    ∷ codes "last-modified"
    ∷ codes "etag"
    ∷ codes "cf-ray"
    ∷ codes "cf-cache-status"
    ∷ codes "x-request-id"
    ∷ codes "x-amz-cf-id"
    ∷ codes "x-trace-id"
    ∷ codes "server-timing"
    ∷ []

-- filterNoise && volatileHeaders[k]
unfoldable pub is_skipped : Bool → Text → Bool
is_skipped filter_noise k = filter_noise && any (text_eq k) volatile_headers

-- the first two loops: the headers under their names in lower case
unfoldable pub normalized : TextMap Text → TextMap Text
normalized [] = []
normalized (e ∷ m) = store (normalized m) (to_lower (trim_space e.0)) e.1

-- the loop over normB: the added headers, and the modified ones
unfoldable pub added_modified :
    (filter_noise : Bool) (norm_a : TextMap Text) → TextMap Text → TextMap Text × TextMap Text
added_modified filter_noise norm_a [] = ([], [])
added_modified filter_noise norm_a (e ∷ norm_b) =
    let rest = added_modified filter_noise norm_a norm_b in
    if is_skipped filter_noise e.0 then rest else elim (look norm_a e.0) [
      | none ↦ (store rest.0 e.0 e.1, rest.1)
      | some v_a ↦
          if text_eq v_a e.1
          then rest
          else (rest.0, store rest.1 e.0 (v_a ++ (codes " -> " ++ e.1)))
    ]

-- the loop over normA
unfoldable pub removed : (filter_noise : Bool) (norm_b : TextMap Text) → TextMap Text → TextMap Text
removed filter_noise norm_b [] = []
removed filter_noise norm_b (e ∷ norm_a) =
    let rest = removed filter_noise norm_b norm_a in
    if is_skipped filter_noise e.0
    then rest
    else elim (look norm_b e.0) [ none ↦ store rest e.0 e.1 | some v ↦ rest ]

pub record HeaderChanges : Type 0 where
  pub added : TextMap Text
  pub removed : TextMap Text
  pub modified : TextMap Text

-- compareHeaders
unfoldable pub compare_headers : (h_a h_b : TextMap Text) (filter_noise : Bool) → HeaderChanges
compare_headers h_a h_b filter_noise =
    let norm_a = normalized h_a in
    let norm_b = normalized h_b in
    let forward = added_modified filter_noise norm_a norm_b in
    record { added = forward.0; removed = removed filter_noise norm_b norm_a; modified = forward.1 }
