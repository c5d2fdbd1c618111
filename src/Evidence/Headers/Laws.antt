-- ===== src/Evidence/Headers/Laws.antt =====
-- What compareHeaders reports of one header.
use nexus_hunter_ai.Prelude.{
  Bool, true, false, Option, none, some, [], ◌∷◌, ◌++◌, ◌≡◌, arith, if◌then◌else◌, Option-cases,
  inl, inr,
}
use nexus_hunter_ai.Prelude.Texts.{Text, codes, text_eq, text_eq_iff, to_lower, trim_space}
use nexus_hunter_ai.Prelude.TextMaps.{TextMap, look, Unique, look-store, store-Unique}
use nexus_hunter_ai.Evidence.Headers.{
  is_skipped, normalized, added_modified, removed, compare_headers,
}

-- the report on a header that the second side has with the value given, and the first perhaps not
abbrev pub report_added : Option Text → Option Text → Option Text
report_added none b = b
report_added (some v) b = none

abbrev pub report_modified : Option Text → Option Text → Option Text
report_modified none b = none
report_modified (some v) none = none
report_modified (some v) (some w) = if text_eq v w then none else some (v ++ (codes " -> " ++ w))

abbrev pub unless_skipped : Bool → Option Text → Option Text
unless_skipped true o = none
unless_skipped false o = o

normalized-Unique : (m : TextMap Text) → Unique (normalized m)
unfolding normalized
normalized-Unique [] = tt
normalized-Unique (e ∷ m) =
    store-Unique (normalized m) (to_lower (trim_space e.0)) e.1 (normalized-Unique m)

module _ (f : Bool) (other : TextMap Text) where
  look-removed :
      (m : TextMap Text) (k : Text)
      → look (removed f other m) k
        ≡ unless_skipped (is_skipped f k) (report_added (look other k) (look m k))
  unfolding removed look
  look-removed [] k = ground arith
  look-removed (e ∷ m) k =
      ground (arith, text_eq_iff e.0 k, look-store (removed f other m) e.0 k e.1, look-removed m k)

  look-added :
      (m : TextMap Text) (k : Text)
      → look (added_modified f other m).0 k
        ≡ unless_skipped (is_skipped f k) (report_added (look other k) (look m k))
  unfolding added_modified look
  look-added [] k = ground arith
  look-added (e ∷ m) k =
      ground (
        arith,
        text_eq_iff e.0 k,
        look-store (added_modified f other m).0 e.0 k e.1,
        look-added m k,
      )

  look-modified :
      (m : TextMap Text) (k : Text)
      → Unique m
      → look (added_modified f other m).1 k
        ≡ unless_skipped (is_skipped f k) (report_modified (look other k) (look m k))
  unfolding added_modified look
  look-modified [] k u = ground arith
  look-modified (e ∷ m) k u = elim (Option-cases (look other e.0)) [
    | inl q ↦ ground (arith, text_eq_iff e.0 k, u.0, look-modified m k u.1)
    | inr (v, q) ↦ ground (
      arith,
      text_eq_iff e.0 k,
      u.0,
      look-store (added_modified f other m).1 e.0 k (v ++ (codes " -> " ++ e.1)),
      look-modified m k u.1,
    )
  ]

-- For every header name, compareHeaders reports the header as added exactly with the value that it has
-- on the second side only, as removed exactly with the value that it has on the first side only, and as
-- modified exactly with both values where they differ; and nothing of it where it is noise that is to
-- be filtered.
pub compare_headers_lem :
    (h_a h_b : TextMap Text) (filter_noise : Bool) (k : Text)
    → let c = compare_headers h_a h_b filter_noise in
      let a = look (normalized h_a) k in
      let b = look (normalized h_b) k in
      let skip = is_skipped filter_noise k in
      (look c.added k ≡ unless_skipped skip (report_added a b))
      × (look c.removed k ≡ unless_skipped skip (report_added b a))
      × (look c.modified k ≡ unless_skipped skip (report_modified a b))
unfolding compare_headers
compare_headers_lem h_a h_b filter_noise k = (
  look-added filter_noise (normalized h_a) (normalized h_b) k,
  look-removed filter_noise (normalized h_b) (normalized h_a) k,
  look-modified filter_noise (normalized h_a) (normalized h_b) k (normalized-Unique h_b),
)
