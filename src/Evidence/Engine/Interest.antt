-- ===== src/Evidence/Engine/Interest.antt =====
-- engine.go: SynthesizeAssetInterest.
use nexus_hunter_ai.Prelude.{
  ℕ, ◌+◌, ◌≤◌, String, Option, none, some, List, [], ◌∷◌, ◌++◌, map, length, ltb, if◌then◌else◌,
  ◌≡◌, refl, arith,
}
use nexus_hunter_ai.Evidence.Data.{Evidence}
use nexus_hunter_ai.Evidence.Store.{EvidenceStore, SecurityContradiction, SecurityOutlier}

-- the sentences of the field Description, with the number that they quote
pub data InterestDescription : Type 0 where
  contradictions_identified outliers_relative evidence_backed : ℕ → InterestDescription

pub record InterestReason : Type 0 where
  pub factor_name : String
  pub description : InterestDescription
  pub evidence_refs : List String
  pub weight : ℕ

pub record AssetInterestSummary : Type 0 where
  pub asset_id : String
  pub hostname : String
  pub target_id : String
  pub score : ℕ
  pub reasons : List InterestReason
  pub linked_evidence_ids : List String
  pub evaluated_at : ℕ

abbrev refs_of {ℓ} : {A : Type ℓ} → (A → List String) → List A → List String
refs_of refs [] = []
refs_of refs (x ∷ xs) = refs x ++ refs_of refs xs

-- one of the three blocks `if len(list) > 0`: a reason, and what is added to the score
unfoldable pub with_reason {ℓ} :
    {A : Type ℓ}
    → List A
    → (reason : InterestReason) (points : ℕ) → AssetInterestSummary
    → AssetInterestSummary
with_reason [] reason points summary = summary
with_reason (x ∷ xs) reason points summary = record summary {
  reasons = summary.reasons ++ reason ∷ [];
  score = summary.score + points;
}

abbrev clamped : AssetInterestSummary → AssetInterestSummary
clamped summary = if ltb 100 summary.score then record summary { score = 100 } else summary

-- the summary of the three lists
unfoldable pub interest_of :
    (now : ℕ) (target_id asset_id hostname : String)
    → List Evidence
    → List SecurityContradiction
    → List SecurityOutlier
    → AssetInterestSummary
unfolding with_reason
interest_of now target_id asset_id hostname evidence contradictions outliers =
    let linked = map (λ ev. ev.id) evidence in
    clamped (
      with_reason evidence
        (record {
          factor_name = "EVIDENCE_BACKED_OBSERVATIONS";
          description = evidence_backed (length evidence);
          evidence_refs = linked;
          weight = 15;
        })
        15
        (with_reason outliers
          (record {
            factor_name = "BEHAVIORAL_OUTLIER";
            description = outliers_relative (length outliers);
            evidence_refs = refs_of (λ o. o.evidence_refs) outliers;
            weight = 25;
          })
          25
          (with_reason contradictions
            (record {
              factor_name = "CONTRADICTION_IDENTIFIED";
              description = contradictions_identified (length contradictions);
              evidence_refs = refs_of (λ c. c.evidence_refs) contradictions;
              weight = 30;
            })
            30
            (record {
              asset_id = asset_id;
              hostname = hostname;
              target_id = target_id;
              score = 0;
              reasons = [];
              linked_evidence_ids = linked;
              evaluated_at = now;
            }))))

module _ (S : EvidenceStore) where
  -- SynthesizeAssetInterest
  unfoldable pub synthesize_asset_interest :
      (now : ℕ) → Option S.State → (target_id asset_id hostname : String) → AssetInterestSummary
  unfolding interest_of
  synthesize_asset_interest now none target_id asset_id hostname = record {
    asset_id = asset_id;
    hostname = hostname;
    target_id = target_id;
    score = 0;
    reasons = [];
    linked_evidence_ids = [];
    evaluated_at = now;
  }
  synthesize_asset_interest now (some s) target_id asset_id hostname =
      interest_of now target_id asset_id hostname (S.list_evidence_by_asset s asset_id)
        (S.list_security_contradictions s target_id asset_id)
        (S.list_security_outliers s target_id asset_id)

abbrev pub total_weight : List InterestReason → ℕ
total_weight [] = 0
total_weight (r ∷ rs) = r.weight + total_weight rs

-- the score is what the reasons weigh, and small
abbrev pub IsWeighed : AssetInterestSummary → Type 0
IsWeighed summary = (summary.score ≡ total_weight summary.reasons) × (summary.score ≤ 70)

interest_of-IsWeighed :
    (now : ℕ) (target_id asset_id hostname : String) (evidence : List Evidence)
    (contradictions : List SecurityContradiction) (outliers : List SecurityOutlier)
    → IsWeighed (interest_of now target_id asset_id hostname evidence contradictions outliers)
unfolding interest_of with_reason
interest_of-IsWeighed now t a h [] [] [] = (refl, ground arith)
interest_of-IsWeighed now t a h [] [] (o ∷ os) = (refl, ground arith)
interest_of-IsWeighed now t a h [] (c ∷ cs) [] = (refl, ground arith)
interest_of-IsWeighed now t a h [] (c ∷ cs) (o ∷ os) = (refl, ground arith)
interest_of-IsWeighed now t a h (e ∷ es) [] [] = (refl, ground arith)
interest_of-IsWeighed now t a h (e ∷ es) [] (o ∷ os) = (refl, ground arith)
interest_of-IsWeighed now t a h (e ∷ es) (c ∷ cs) [] = (refl, ground arith)
interest_of-IsWeighed now t a h (e ∷ es) (c ∷ cs) (o ∷ os) = (refl, ground arith)

module _ (S : EvidenceStore) where
  -- The score of an asset is the sum of the weights of the reasons listed with it, and at most 70:
  -- the limit of 100 never acts.
  pub synthesize_asset_interest-IsWeighed :
      (now : ℕ) (store : Option S.State) (target_id asset_id hostname : String)
      → IsWeighed (synthesize_asset_interest S now store target_id asset_id hostname)
  unfolding synthesize_asset_interest
  synthesize_asset_interest-IsWeighed now none target_id asset_id hostname = (refl, ground arith)
  synthesize_asset_interest-IsWeighed now (some s) target_id asset_id hostname =
      interest_of-IsWeighed now target_id asset_id hostname _ _ _
