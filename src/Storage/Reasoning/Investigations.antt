-- ===== src/Storage/Reasoning/Investigations.antt =====
-- memory.go: investigations, trust boundaries, permissions, controls and runs of the reasoning.
use nexus_hunter_ai.Prelude.{
  ℕ, String, ◌==◌, Bool, ◌||◌, some, List, [], ◌∷◌, filter, ltb, Result, ok, if◌then◌else◌,
}
use nexus_hunter_ai.Prelude.Maps.{find, put, values}
use nexus_hunter_ai.Prelude.Sorts.{sort_by}
use nexus_hunter_ai.Prelude.Texts.{Text, is_empty}
use nexus_hunter_ai.Storage.Data.{StorageError, looked_up}
use nexus_hunter_ai.Storage.Upserts.{listed}
use nexus_hunter_ai.Storage.Reasoning.{is_asked, append_all}
use nexus_hunter_ai.Storage.Reasoning.Data.{
  Investigation, PermissionMatrixEntry, ReasoningMemory, ReasoningRun, SecurityControlRecord,
  TrustBoundary, or_now,
}

unfoldable pub save_investigation : (now : ℕ) → Investigation → ReasoningMemory → ReasoningMemory
save_investigation now inv m = record m {
  investigations =
      put m.investigations inv.id (record inv { created_at = or_now inv.created_at now });
}

unfoldable pub get_investigation : String → ReasoningMemory → Result StorageError Investigation
get_investigation id m = looked_up (find m.investigations id) ok

unfoldable pub list_investigations : (target_id : String) → ReasoningMemory → List Investigation
unfolding sort_by
list_investigations target_id m =
    sort_by (λ a b. ltb b.created_at a.created_at)
      (filter (λ inv. is_asked target_id inv.target_id) (values m.investigations))

abbrev is_ended : String → Bool
is_ended status = status == "COMPLETED" || status == "CANCELLED" || status == "FAILED"

unfoldable pub update_investigation_status :
    (now : ℕ) (id status : String) (result : Text)
    → ReasoningMemory
    → Result StorageError ReasoningMemory
update_investigation_status now id status result m = looked_up (find m.investigations id) λ inv.
    ok (record m {
      investigations = put m.investigations id (record inv {
        status = status;
        result_summary = if is_empty result then inv.result_summary else result;
        completed_at = if is_ended status then some now else inv.completed_at;
      });
    })

unfoldable pub save_trust_boundary : (now : ℕ) → TrustBoundary → ReasoningMemory → ReasoningMemory
unfolding append_all
save_trust_boundary now tb m = record m {
  trust_boundaries =
      append_all m.trust_boundaries tb.target_id
        (record tb { created_at = or_now tb.created_at now } ∷ []);
}

unfoldable pub list_trust_boundaries :
    (target_id asset_id : String) → ReasoningMemory → List TrustBoundary
list_trust_boundaries target_id asset_id m =
    filter (λ tb. is_asked asset_id tb.asset_id) (listed (find m.trust_boundaries target_id))

unfoldable pub save_permission_matrix_entry :
    (now : ℕ) → PermissionMatrixEntry → ReasoningMemory → ReasoningMemory
unfolding append_all
save_permission_matrix_entry now entry m = record m {
  permission_matrix =
      append_all m.permission_matrix entry.target_id
        (record entry { observed_at = or_now entry.observed_at now } ∷ []);
}

unfoldable pub list_permission_matrix :
    (target_id asset_id : String) → ReasoningMemory → List PermissionMatrixEntry
list_permission_matrix target_id asset_id m =
    filter (λ entry. is_asked asset_id entry.asset_id) (listed (find m.permission_matrix target_id))

unfoldable pub save_security_control :
    (now : ℕ) → SecurityControlRecord → ReasoningMemory → ReasoningMemory
unfolding append_all
save_security_control now sc m = record m {
  security_controls =
      append_all m.security_controls sc.target_id
        (record sc { evaluated_at = or_now sc.evaluated_at now } ∷ []);
}

unfoldable pub list_security_controls :
    (target_id asset_id : String) → ReasoningMemory → List SecurityControlRecord
list_security_controls target_id asset_id m =
    filter (λ sc. is_asked asset_id sc.asset_id) (listed (find m.security_controls target_id))

unfoldable pub record_reasoning_run : (now : ℕ) → ReasoningRun → ReasoningMemory → ReasoningMemory
record_reasoning_run now run m = record m {
  reasoning_runs =
      put m.reasoning_runs run.id (record run { created_at = or_now run.created_at now });
}
