-- ===== src/Planner/Rejections.antt =====
-- `rejection_retry_feedback`: whether a rejection of the planner is worth another attempt.
use glassrail.Common.{
  Bool, Option, String, [], contains_any, if◌then◌else◌, none, not, some, ◌&&◌, ◌==◌, ◌∷◌,
  string_eq,
}

abbrev pub vague_feedback : String
vague_feedback =
    "The request is vague or underspecified, but that is answerable. Emit a result node whose description asks one focused clarifying question or offers safe next steps. Do not emit a rejection."

abbrev pub unknown_feedback : String
unknown_feedback =
    "The exact value may be unknown or unknowable, but that is answerable. Emit a result node whose description says the exact value is unknown or unknowable, explains why, and avoids fabrication. Do not emit a rejection."

-- Python's `str.lower`
module _ (lower : String → String) where
  -- `_looks_like_missing_capability_rejection`
  unfoldable pub looks_like_missing_capability_rejection : String → Bool
  looks_like_missing_capability_rejection text =
      contains_any
        ("send_email" ∷ "registered tool" ∷ "tool is not registered" ∷ "not registered"
          ∷ "required tool" ∷ "no suitable tools" ∷ "available tools" ∷ [])
        text
      && not (
          contains_any
            ("calibrated uncertainty" ∷ "clarifying" ∷ "too vague" ∷ "vague" ∷ "unknown"
              ∷ "unknowable" ∷ [])
            text)

  -- The answer for a reason in lower case.
  unfoldable pub answerable_feedback : String → Option String
  answerable_feedback text =
      if contains_any
        ("too vague" ∷ "vague" ∷ "underspecified" ∷ "clarifying" ∷ "please specify"
          ∷ "safe next steps" ∷ [])
        text
      then some vague_feedback
      else if contains_any
          ("unknown" ∷ "unknowable" ∷ "future" ∷ "private" ∷ "random" ∷ "cannot be predicted"
            ∷ "cannot predict" ∷ "uncertainty" ∷ "calibrated" ∷ "do not fabricate" ∷ "not knowable"
            ∷ "unverifiable" ∷ [])
          text
      then some unknown_feedback
      else none

  unfoldable pub rejection_retry_feedback : Option String → Option String
  unfolding looks_like_missing_capability_rejection answerable_feedback
  rejection_retry_feedback none = none
  rejection_retry_feedback (some reason) =
      if reason == ""
      then none
      else if looks_like_missing_capability_rejection (lower reason)
      then none
      else answerable_feedback (lower reason)
