-- ===== src/Executor/Approval.antt =====
-- src/glassrail/executor/tool_approval.py, and the executor's use of it: the approval of tool calls
-- and the tool node. Publishing the request is not modelled; the ids of requests are parameters.
pub mod Policies
use glassrail.Common.{
  Bool, Dict, List, Option, String, [], add, elem, false, if◌then◌else◌, insert, lookup, none, some,
  true, ◌==◌, ◌∷◌, string_eq,
}
use glassrail.Core.{ToolRisk}
use glassrail.Config.{Settings, ToolApprovalPolicy, ToolApprovalMode}
use glassrail.Harness.{ToolHarness, risk_for}

-- The broker: a future is open (none) or has its answer.
pub record ToolApprovalBroker : Type 0 where
  pub pending : Dict String (Option Bool)
  pub always_allow : List String

unfoldable pub is_always_allowed : ToolApprovalBroker → String → Bool
is_always_allowed b tool_name = elem tool_name b.always_allow

unfoldable pub remember_allow : String → ToolApprovalBroker → ToolApprovalBroker
remember_allow tool_name b = record b { always_allow = add tool_name b.always_allow }

-- `request`, up to the wait for the future
unfoldable pub request : String → ToolApprovalBroker → ToolApprovalBroker
request id b = record b { pending = insert id none b.pending }

unfoldable pub resolve : String → Bool → ToolApprovalBroker → ToolApprovalBroker
resolve id approved b = elim (lookup id b.pending) [
  | none ↦ b
  | some none ↦ record b { pending = insert id (some approved) b.pending }
  | some (some old) ↦ b
]

unfoldable pub cancel : String → ToolApprovalBroker → ToolApprovalBroker
cancel id = resolve id false

unfoldable pub forget : String → Dict String (Option Bool) → Dict String (Option Bool)
forget id [] = []
forget id ((k, f) ∷ m) = let rest = forget id m in if k == id then rest else (k, f) ∷ rest

-- `request`, when the future has its answer: the answer, and the broker without the request
unfoldable pub finish_request : String → ToolApprovalBroker → Option Bool × ToolApprovalBroker
finish_request id b = (
  elim (lookup id b.pending) [ none ↦ none | some f ↦ f ],
  record b { pending = forget id b.pending },
)

abbrev is_risky : ToolRisk → Bool
is_risky ToolRisk.write = true
is_risky ToolRisk.execute = true
is_risky _ = false

-- `_effective_tool_policy`
unfoldable pub effective_tool_policy : Settings → ToolHarness → String → ToolApprovalPolicy
effective_tool_policy s h tool_name = elim (lookup tool_name s.tool_approval.overrides) [
  | some p ↦ p
  | none ↦
      if is_risky (risk_for h tool_name) then ToolApprovalPolicy.ask else s.tool_approval.default
]

-- The tests of `_approve_tool_call`, for a policy and a mode; the user's answer, when there is a
-- channel and it is asked, is a parameter.
unfoldable pub approve_by :
    ToolApprovalPolicy
    → ToolApprovalMode
    → Option ToolApprovalBroker
    → (answer : Bool) → String
    → Bool
approve_by ToolApprovalPolicy.deny mode broker answer tool_name = false
approve_by ToolApprovalPolicy.allow mode broker answer tool_name = true
approve_by ToolApprovalPolicy.ask ToolApprovalMode.auto broker answer tool_name = true
approve_by ToolApprovalPolicy.ask ToolApprovalMode.interactive none answer tool_name = false
approve_by ToolApprovalPolicy.ask ToolApprovalMode.interactive (some b) answer tool_name =
    if is_always_allowed b tool_name then true else answer

-- `_approve_tool_call`
unfoldable pub approve_tool_call :
    Settings → ToolHarness → Option ToolApprovalBroker → (answer : Bool) → String → Bool
unfolding approve_by
approve_tool_call s h broker answer tool_name =
    approve_by (effective_tool_policy s h tool_name) s.tool_approval.mode broker answer tool_name
