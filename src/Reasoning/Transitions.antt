-- ===== src/Reasoning/Transitions.antt =====
-- engine.go: ValidateHypothesisTransition, ValidateSignalTransition, ValidateInvestigationTransition.
-- A status is a string; any string but the named ones takes no transition.
use nexus_hunter_ai.Prelude.{String, Bool, true, false, ◌||◌, ◌==◌, if◌then◌else◌}

-- models.HypothesisStatus, models.SignalStatus and models.InvestigationStatus
abbrev pub hypothesized : String
hypothesized = "HYPOTHESIZED"

abbrev pub investigating : String
investigating = "INVESTIGATING"

abbrev pub supported : String
supported = "SUPPORTED"

abbrev pub falsified : String
falsified = "FALSIFIED"

abbrev pub dismissed : String
dismissed = "DISMISSED"

abbrev pub unknown : String
unknown = "UNKNOWN"

abbrev pub open_signal : String
open_signal = "OPEN"

abbrev pub correlated : String
correlated = "CORRELATED"

abbrev pub superseded : String
superseded = "SUPERSEDED"

abbrev pub planned : String
planned = "PLANNED"

abbrev pub queued : String
queued = "QUEUED"

abbrev pub running : String
running = "RUNNING"

abbrev pub completed : String
completed = "COMPLETED"

abbrev pub failed : String
failed = "FAILED"

abbrev pub cancelled : String
cancelled = "CANCELLED"

unfoldable pub validate_hypothesis_transition : String → String → Bool
validate_hypothesis_transition current next =
    if current == next
    then true
    else if current == hypothesized
    then next == investigating || next == dismissed
    else if current == investigating
    then next == supported || next == falsified || next == unknown || next == dismissed
    else if current == supported
    then next == investigating || next == dismissed
    else if current == falsified
    then next == investigating || next == dismissed
    else if current == unknown
    then next == investigating || next == dismissed
    else if current == dismissed
    then next == hypothesized
    else false

unfoldable pub validate_signal_transition : String → String → Bool
validate_signal_transition current next =
    if current == next
    then true
    else if current == open_signal
    then next == correlated || next == dismissed
    else if current == correlated
    then next == superseded || next == dismissed
    else if current == superseded
    then next == open_signal
    else if current == dismissed
    then next == open_signal
    else false

unfoldable pub validate_investigation_transition : String → String → Bool
validate_investigation_transition current next =
    if current == next
    then true
    else if current == planned
    then next == queued || next == cancelled
    else if current == queued
    then next == running || next == cancelled
    else if current == running
    then next == completed || next == failed || next == cancelled
    else if current == failed
    then next == queued || next == cancelled
    else if current == cancelled
    then next == planned
    else if current == completed
    then false
    else false
