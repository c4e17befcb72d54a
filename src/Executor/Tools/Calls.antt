-- ===== src/Executor/Tools/Calls.antt =====
-- When a tool node calls its tool, and what becomes of the node.
use glassrail.Common.{
  Bool-cases, List, Option, Option-cases, Result, String, [], ap, arith, err, if◌then◌else◌, inl,
  inr, ok, refl, some, true, ◌∙◌, ◌∷◌, ◌≡◌, ◌⊎◌,
}
use glassrail.Core.{Node, NodeResult, NodeStatus, Json, Members, is_empty_output}
use glassrail.Config.{Settings}
use glassrail.Harness.{ToolHarness, HarnessError, execute}
use glassrail.Executor.Approval.{ToolApprovalBroker, approve_tool_call}
use glassrail.Executor.Tools.{
  Surroundings, call_args, check_output, after_call, call_tool, execute_tool,
}

-- The status that an outcome of the tool leads to.
abbrev pub status_after : Result HarnessError Json → NodeStatus
status_after (err e) = NodeStatus.failed
status_after (ok output) = if is_empty_output output then NodeStatus.empty else NodeStatus.completed

check_output-status :
    (w : Surroundings) (n : Node) (args : Members) (output : Json)
    → (check_output w n args output).status
      ≡ (if is_empty_output output then NodeStatus.empty else NodeStatus.completed)
unfolding check_output
check_output-status w n args output = elim (Option-cases (w.shape_issue output)) [
  | inl e ↦ ground (arith, e)
  | inr (issue, e) ↦ ground (arith, e)
]

after_call-status :
    (w : Surroundings) (n : Node) (args : Members) (r : Result HarnessError Json)
    → (after_call w n args r).status ≡ status_after r
unfolding after_call
after_call-status w n args (err e) = refl
after_call-status w n args (ok output) = check_output-status w n args output

-- `c` is the one call of the tool that the node names, after it was approved.
abbrev pub IsCall :
    Settings
    → ToolHarness
    → Option ToolApprovalBroker
    → Surroundings
    → Node
    → NodeResult × List (String × Members)
    → String
    → Type 0
IsCall s h broker w n c tool =
    (n.tool ≡ some tool)
    × (approve_tool_call s h broker w.answer tool ≡ true)
    × (c.1 ≡ (tool, call_args w n) ∷ [])
    × (c.0.status ≡ status_after (execute h tool (call_args w n)))

-- A tool node either fails without a call, or it calls the tool that it names, exactly once and
-- only after the call was approved; then it fails if the tool raises, it is empty if the tool
-- returns nothing, and it completes otherwise.
pub execute_tool_lem :
    (s : Settings) (h : ToolHarness) (broker : Option ToolApprovalBroker) (w : Surroundings)
    (n : Node)
    → (((execute_tool s h broker w n).1 ≡ [])
        × ((execute_tool s h broker w n).0.status ≡ NodeStatus.failed))
      ⊎ ((tool : String) × IsCall s h broker w n (execute_tool s h broker w n) tool)
unfolding execute_tool
execute_tool_lem s h broker w n = elim (Option-cases n.tool) [
  | inl e ↦ inl (ground (arith, e), ground (arith, e))
  | inr (tool, e) ↦ elim (Bool-cases (approve_tool_call s h broker w.answer tool)) [
    | inr no_leave ↦ inl (ground (arith, e, no_leave), ground (arith, e, no_leave))
    | inl leave ↦
        let run : execute_tool s h broker w n ≡ call_tool h w n tool (call_args w n) =
          ground (arith, e, leave) in
        inr
          (tool, (e, leave, ap (λ c. c.1) run ∙ calls tool, ap (λ c. c.0.status) run ∙ status tool))
  ]
]
  where
    calls : (tool : String) → (call_tool h w n tool (call_args w n)).1 ≡ (tool, call_args w n) ∷ []
    calls tool = unfold call_tool in refl

    status :
        (tool : String)
        → (call_tool h w n tool (call_args w n)).0.status
          ≡ status_after (execute h tool (call_args w n))
    status tool =
        unfold call_tool in after_call-status w n (call_args w n) (execute h tool (call_args w n))
