-- ===== src/Evidence/Canonical/Ranges.antt =====
-- canonical.go: when the order of Go's loops over headers does not show in the canonical form.
use nexus_hunter_ai.Prelude.{
  ℕ, suc, true, Option, none, some, List, [], ◌∷◌, Has, map, ◌≡◌, refl, sym, ◌∙◌, ap, inl, inr,
  Bool-cases, Option-cases,
}
use nexus_hunter_ai.Prelude.Texts.{Text, text_eq, text_eq_iff, trim_space}
use nexus_hunter_ai.Prelude.TextMaps.{TextMap}
use nexus_hunter_ai.Jobs.Repository.{bytes_less}
use nexus_hunter_ai.Evidence.Data.{Evidence, HttpRequestContext, HttpResponseContext}
use nexus_hunter_ai.Prelude.Sorts.{sort_by}
use nexus_hunter_ai.Evidence.Canonical.{
  Ranging, build_canonical_map, canonical_request, canonical_response, header_name,
  normalize_headers, pick, pick_each, store_picked,
}

-- headers whose names differ in case and outer spaces only have the same trimmed value
abbrev pub Agree : TextMap Text → Type 0
Agree h =
    (a b : Text × Text)
    → Has a h
    → Has b h
    → header_name a ≡ header_name b
    → trim_space a.1 ≡ trim_space b.1

abbrev pub AgreeRequest : Option HttpRequestContext → Type 0
AgreeRequest none = Unit
AgreeRequest (some r) = Agree r.headers

abbrev pub AgreeResponse : Option HttpResponseContext → Type 0
AgreeResponse none = Unit
AgreeResponse (some r) = Agree r.headers

-- so do the headers of the request, those of the response and the relevant ones
abbrev pub AgreeAll : Evidence → Type 0
AgreeAll ev = AgreeRequest ev.request × AgreeResponse ev.response × Agree ev.relevant_headers

pick-Has :
    (name v : Text) (h : TextMap Text)
    → pick name h ≡ some v
    → (e : Text × Text) × Has e h × (header_name e ≡ name) × (trim_space e.1 ≡ v)
unfolding pick
pick-Has name v [] e = absurd (cc e)
pick-Has name v (x ∷ h) e = elim (Bool-cases (text_eq (header_name x) name)) [
  | inl b ↦ (x, inl refl, (text_eq_iff (header_name x) name).0 b, cc (rw b at e))
  | inr n ↦
      let (y, there, named, value) = pick-Has name v h (rw n at e) in (y, inr there, named, value)
]

pick-none : (e : Text × Text) (h : TextMap Text) → pick (header_name e) h ≡ none → Has e h → ⊥
unfolding pick
pick-none e [] p k = k
pick-none e (x ∷ h) p (inl same) =
    let b : text_eq (header_name x) (header_name e) ≡ true =
      (text_eq_iff (header_name x) (header_name e)).1 (ap header_name (sym same)) in
    cc (rw b at p)
pick-none e (x ∷ h) p (inr k) = elim (Bool-cases (text_eq (header_name x) (header_name e))) [
  | inl b ↦ cc (rw b at p)
  | inr n ↦ pick-none e h (rw n at p) k
]

-- which headers are met decides, in whichever order
pick_same :
    (name : Text) (h xs ys : TextMap Text)
    → Agree h
    → ((e : Text × Text) → Has e xs → Has e h)
    → ((e : Text × Text) → Has e ys → Has e h)
    → ((e : Text × Text) → Has e xs → Has e ys)
    → ((e : Text × Text) → Has e ys → Has e xs)
    → pick name xs ≡ pick name ys
pick_same name h xs ys agree xs_h ys_h xs_ys ys_xs = elim (Option-cases (pick name xs)) [
  | inl none_x ↦ elim (Option-cases (pick name ys)) [
    | inl none_y ↦ none_x ∙ sym none_y
    | inr (w, some_y) ↦
        let (b, at, named, value) = pick-Has name w ys some_y in
        absurd (pick-none b xs (ap (λ n. pick n xs) named ∙ none_x) (ys_xs b at))
  ]
  | inr (v, some_x) ↦
      let (a, there, a_named, a_value) = pick-Has name v xs some_x in
      elim (Option-cases (pick name ys)) [
        | inl none_y ↦
            absurd (pick-none a ys (ap (λ n. pick n ys) a_named ∙ none_y) (xs_ys a there))
        | inr (w, some_y) ↦
            let (b, at, b_named, b_value) = pick-Has name w ys some_y in
            let same : v ≡ w =
              sym a_value
              ∙ agree a b (xs_h a there) (ys_h b at) (a_named ∙ sym b_named)
              ∙ b_value in
            some_x ∙ ap some same ∙ sym some_y
      ]
]

pick_each_same :
    (f g : ℕ → TextMap Text) (i : ℕ) (names : List Text) (norm : TextMap Text)
    → ((name : Text) (j : ℕ) → pick name (f j) ≡ pick name (g j))
    → pick_each f i names norm ≡ pick_each g i names norm
unfolding pick_each
pick_each_same f g i [] norm h = refl
pick_each_same f g i (name ∷ names) norm h =
    ap (λ o. pick_each f (suc i) names (store_picked norm name o)) (h name i)
    ∙ pick_each_same f g (suc i) names (store_picked norm name (pick name (g i))) h

module _ (rg rg' : Ranging) where
  pub normalize_headers_same :
      (site : ℕ) (h : TextMap Text)
      → Agree h
      → normalize_headers rg site h ≡ normalize_headers rg' site h
  unfolding normalize_headers
  normalize_headers_same site h agree =
      pick_each_same (λ i. rg.range site i h) (λ i. rg'.range site i h) 0
        (sort_by bytes_less (map header_name h)) []
        λ name j.
          pick_same name h (rg.range site j h) (rg'.range site j h) agree (rg.range_sound site j h)
            (rg'.range_sound site j h)
            (λ e k. rg'.range_complete site j h e (rg.range_sound site j h e k))
            (λ e k. rg.range_complete site j h e (rg'.range_sound site j h e k))

  request_same :
      (r : Option HttpRequestContext)
      → AgreeRequest r
      → canonical_request rg r ≡ canonical_request rg' r
  request_same none agree = refl
  request_same (some r) agree = rw (normalize_headers_same 0 r.headers agree) refl

  response_same :
      (r : Option HttpResponseContext)
      → AgreeResponse r
      → canonical_response rg r ≡ canonical_response rg' r
  response_same none agree = refl
  response_same (some r) agree = rw (normalize_headers_same 1 r.headers agree) refl

  -- Where headers of one name agree, the canonical form does not depend on the orders of the loops.
  pub build_canonical_map_same :
      (ev : Evidence) → AgreeAll ev → build_canonical_map rg ev ≡ build_canonical_map rg' ev
  unfolding build_canonical_map
  build_canonical_map_same ev (req, resp, relevant) =
      rw
        (
          request_same ev.request req,
          response_same ev.response resp,
          normalize_headers_same 2 ev.relevant_headers relevant,
        )
        refl
