-- ===== src/Scope/Hosts.antt =====
-- scope.go: isValidHostname, matchesPattern, matchesPathPattern.
use nexus_hunter_ai.Prelude.{
  ℕ, Bool, true, false, ◌&&◌, ◌||◌, List, [], ◌∷◌, ◌++◌, if◌then◌else◌, leb, ltb, nat_eq, length,
  all,
}
use mathlib.Core.List.{reverse}
use nexus_hunter_ai.Prelude.Texts.{
  Text, codes, text_eq, has_prefix, has_suffix, trim_prefix, to_lower, is_empty,
}
use nexus_hunter_ai.Scope.Platform.{Platform}

-- strings.TrimSuffix(s, p)
unfoldable pub trim_suffix : Text → Text → Text
unfolding trim_prefix
trim_suffix s p = reverse (trim_prefix (reverse s) (reverse p))

abbrev is_alnum : ℕ → Bool
is_alnum c = (leb b'a' c && leb c b'z') || (leb b'A' c && leb c b'Z') || (leb b'0' c && leb c b'9')

abbrev is_label_byte : ℕ → Bool
is_label_byte c = is_alnum c || nat_eq c b'-'

abbrev starts_alnum : Text → Bool
starts_alnum [] = false
starts_alnum (c ∷ s) = is_alnum c

-- one label of hostnameRegex: 1 to 63 letters, digits and dashes, no dash at either end
unfoldable pub is_label : Text → Bool
is_label s = all is_label_byte s && starts_alnum s && starts_alnum (reverse s) && leb (length s) 63

-- the labels between the dots
unfoldable pub labels_from : Text → Text → List Text
labels_from label [] = reverse label ∷ []
labels_from label (c ∷ s) = elim (nat_eq c b'.') [
  | true ↦ reverse label ∷ labels_from [] s
  | false ↦ labels_from (c ∷ label) s
]

-- hostnameRegex.MatchString
unfoldable pub matches_hostname_regex : Text → Bool
unfolding labels_from is_label
matches_hostname_regex h = all is_label (labels_from [] h)

module _ (pf : Platform) where
  unfoldable pub is_valid_hostname : Text → Bool
  unfolding trim_suffix matches_hostname_regex
  is_valid_hostname name =
      let h = trim_suffix name (codes ".") in
      if is_empty h || ltb 253 (length h)
      then false
      else if pf.is_ip h
      then true
      else matches_hostname_regex h

-- the host is the base, or ends with a dot and the base
unfoldable pub under_base : Text → Text → Bool
under_base host base = text_eq host base || has_suffix host (codes "." ++ base)

unfoldable pub matches_pattern : Text → Text → Bool
unfolding under_base
matches_pattern target pattern =
    let p = to_lower pattern in
    let t = to_lower target in
    if text_eq p t
    then true
    else if has_prefix p (codes "*.")
    then under_base t (trim_prefix p (codes "*."))
    else false

unfoldable pub matches_path_pattern : Text → Text → Bool
unfolding trim_suffix
matches_path_pattern path pattern =
    if text_eq pattern (codes "/*") || text_eq pattern (codes "*")
    then true
    else if has_suffix pattern (codes "/*")
    then has_prefix path (trim_suffix pattern (codes "/*"))
    else if has_suffix pattern (codes "*")
    then has_prefix path (trim_suffix pattern (codes "*"))
    else has_prefix path pattern
