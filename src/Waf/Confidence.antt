-- ===== src/Waf/Confidence.antt =====
-- What the detector's confidence rests on.
use nexus_hunter_ai.Prelude.{
  String, true, ◌&&◌, List, [], ◌∷◌, ◌==◌, ◌≡◌, ◌≢◌, refl, leb, nat_eq, any, Bool-cases, inl, inr,
  ◌↔◌,
}
use nexus_hunter_ai.Prelude.Texts.{Text}
use nexus_hunter_ai.Waf.Detector.{WafSignature, Response, provider_matches, classify}

-- a signature of the list has two points: two headers, or a phrase of the body
abbrev pub Convincing : Response → Text → List WafSignature → Type 0
Convincing resp body sigs = any (λ s. leb 2 (provider_matches resp body s)) sigs ≡ true

classify_sound :
    (resp : Response) (body : Text) (sigs : List WafSignature) (found : String × String)
    → found.1 ≢ "HIGH"
    → (classify resp body sigs found).1 ≡ "HIGH"
    → Convincing resp body sigs
unfolding classify
classify_sound resp body [] found low h = absurd (low h)
classify_sound resp body (sig ∷ sigs) (p, c) low h =
    elim (Bool-cases (leb 2 (provider_matches resp body sig))) [
      | inl t ↦ rw t refl
      | inr f ↦
          elim (Bool-cases (nat_eq (provider_matches resp body sig) 1 && p == "None Detected")) [
            | inl k ↦ rw f (
                classify_sound resp body sigs (sig.provider, "MEDIUM") (λ e. cc e) (rw (f, k) at h))
            | inr k ↦ rw f (classify_sound resp body sigs (p, c) low (rw (f, k) at h))
          ]
    ]

classify_complete :
    (resp : Response) (body : Text) (sigs : List WafSignature) (found : String × String)
    → Convincing resp body sigs
    → (classify resp body sigs found).1 ≡ "HIGH"
unfolding classify
classify_complete resp body [] found h = cc h
classify_complete resp body (sig ∷ sigs) (p, c) h =
    elim (Bool-cases (leb 2 (provider_matches resp body sig))) [
      | inl t ↦ rw t refl
      | inr f ↦ rw f (classify_complete resp body sigs _ (rw f at h))
    ]

-- The loop over the signatures, which starts with LOW, ends with the confidence HIGH exactly when some
-- signature of the list has at least two points.
pub classify_high_iff :
    (resp : Response) (body : Text) (sigs : List WafSignature)
    → ((classify resp body sigs ("None Detected", "LOW")).1 ≡ "HIGH") ↔ Convincing resp body sigs
classify_high_iff resp body sigs = (
  classify_sound resp body sigs ("None Detected", "LOW") (λ e. cc e),
  classify_complete resp body sigs ("None Detected", "LOW"),
)
