-- ===== src/Executor/Approval/Policies.antt =====
-- When a tool call is approved, and which answer counts.
use glassrail.Common.{
  Bool, Dict, Option, String, [], arith, beq_refl, false, if◌then◌else◌, inl, inr, insert, lookup,
  lookup-insert, none, refl, some, true, ◌==◌, ◌||◌, ◌↔◌, ◌∷◌, ◌≡◌, ◌⊎◌, string_eq,
}
use glassrail.Core.{ToolRisk}
use glassrail.Config.{Settings, ToolApprovalPolicy, ToolApprovalMode}
use glassrail.Harness.{ToolHarness, risk_for}
use glassrail.Executor.Approval.{
  ToolApprovalBroker, is_always_allowed, request, resolve, cancel, finish_request, forget,
  effective_tool_policy, approve_by, approve_tool_call,
}

-- The conditions under which a call is approved.
abbrev pub Allowed :
    ToolApprovalPolicy → ToolApprovalMode → Option ToolApprovalBroker → Bool → String → Type 0
Allowed policy mode broker answer tool_name =
    (policy ≡ ToolApprovalPolicy.allow)
    ⊎ (policy ≡ ToolApprovalPolicy.ask)
      × ((mode ≡ ToolApprovalMode.auto)
          ⊎ ((b : ToolApprovalBroker) × (broker ≡ some b)
              × ((is_always_allowed b tool_name || answer) ≡ true)))

approve_by_iff :
    (p : ToolApprovalPolicy) (m : ToolApprovalMode) (broker : Option ToolApprovalBroker)
    (answer : Bool) (tool_name : String)
    → (approve_by p m broker answer tool_name ≡ true) ↔ Allowed p m broker answer tool_name
unfolding approve_by
approve_by_iff ToolApprovalPolicy.deny m broker answer tool_name = ground arith
approve_by_iff ToolApprovalPolicy.allow m broker answer tool_name = ground arith
approve_by_iff ToolApprovalPolicy.ask ToolApprovalMode.auto broker answer tool_name = ground arith
approve_by_iff ToolApprovalPolicy.ask ToolApprovalMode.interactive none answer tool_name = (
  λ h. absurd (ground arith),
  λ h. elim h [
    | inl e ↦ absurd (ground arith)
    | inr (e, inl f) ↦ absurd (ground arith)
    | inr (e, inr (b, f, k)) ↦ absurd (ground arith)
  ],
)
approve_by_iff ToolApprovalPolicy.ask ToolApprovalMode.interactive (some b) answer tool_name = (
  λ h. inr (refl, inr (b, refl, ground arith)),
  λ h. elim h [
    | inl e ↦ absurd (ground arith)
    | inr (e, inl f) ↦ absurd (ground arith)
    | inr (e, inr (b', f, k)) ↦ ground arith
  ],
)

-- A call of a tool is approved exactly if the tool's policy allows it, or the policy is to ask and
-- either the mode is automatic, or there is a channel, on which the tool was allowed for good or
-- the user says yes.
pub approve_tool_call_iff :
    (s : Settings) (h : ToolHarness) (broker : Option ToolApprovalBroker) (answer : Bool)
    (tool_name : String)
    → (approve_tool_call s h broker answer tool_name ≡ true)
      ↔ Allowed (effective_tool_policy s h tool_name) s.tool_approval.mode broker answer tool_name
unfolding approve_tool_call
approve_tool_call_iff s h broker answer tool_name =
    approve_by_iff (effective_tool_policy s h tool_name) s.tool_approval.mode broker answer
      tool_name

-- A tool that writes or executes, and for which no policy is configured, is run in interactive mode
-- only if there is a channel on which it was allowed for good, or the user says yes.
pub risky_needs_approval :
    (s : Settings) (h : ToolHarness) (broker : Option ToolApprovalBroker) (answer : Bool)
    (tool_name : String)
    → (risk_for h tool_name ≡ ToolRisk.write) ⊎ (risk_for h tool_name ≡ ToolRisk.execute)
    → lookup tool_name s.tool_approval.overrides ≡ none
    → s.tool_approval.mode ≡ ToolApprovalMode.interactive
    → approve_tool_call s h broker answer tool_name ≡ true
    → (b : ToolApprovalBroker) × (broker ≡ some b)
      × ((is_always_allowed b tool_name || answer) ≡ true)
unfolding effective_tool_policy
risky_needs_approval s h broker answer tool_name risk no_override mode approved =
    elim ((approve_tool_call_iff s h broker answer tool_name).0 approved) [
      | inl e ↦ absurd (ground (arith, asks, e))
      | inr (e, inl f) ↦ absurd (ground arith)
      | inr (e, inr k) ↦ k
    ]
  where
    asks : effective_tool_policy s h tool_name ≡ ToolApprovalPolicy.ask
    asks = ground (arith, no_override, risk)

lookup-forget :
    (id k : String) (m : Dict String (Option Bool))
    → lookup k (forget id m) ≡ (if id == k then none else lookup k m)
unfolding forget lookup
lookup-forget id k [] = ground arith
lookup-forget id k ((i, f) ∷ m) = ground (
  arith,
  lookup-forget id k m,
  string_eq.beq_iff i id,
  string_eq.beq_iff i k,
  string_eq.beq_iff id k,
)

resolve_open :
    (id : String) (x : Bool) (b : ToolApprovalBroker)
    → lookup id b.pending ≡ some none
    → resolve id x b ≡ record b { pending = insert id (some x) b.pending }
unfolding resolve
resolve_open id x b h = ground (arith, h)

resolve_closed :
    (id : String) (x old : Bool) (b : ToolApprovalBroker)
    → lookup id b.pending ≡ some (some old)
    → resolve id x b ≡ b
unfolding resolve
resolve_closed id x old b h = ground (arith, h)

module _ (id : String) (first : Bool) (b : ToolApprovalBroker) where
  opened : lookup id (request id b).pending ≡ some none
  unfolding request
  opened = ground (arith, lookup-insert id id none b.pending, beq_refl id)

  answered : lookup id (resolve id first (request id b)).pending ≡ some (some first)
  answered =
      rw (resolve_open id first (request id b) opened)
        (ground (arith, lookup-insert id id (some first) (request id b).pending, beq_refl id))

  answered_other :
      (other : String)
      → (id == other) ≡ false
      → lookup other (resolve id first (request id b)).pending ≡ lookup other b.pending
  unfolding request
  answered_other other h = rw (resolve_open id first (request id b) opened) (
      ground (
        arith,
        lookup-insert id other (some first) (insert id none b.pending),
        lookup-insert id other none b.pending,
      ))

  still :
      (second : Bool)
      → cancel id (resolve id second (resolve id first (request id b)))
        ≡ resolve id first (request id b)
  unfolding cancel
  still second =
      rw (resolve_closed id second first (resolve id first (request id b)) answered)
        (resolve_closed id false first (resolve id first (request id b)) answered)

-- The life of a request: it is open when it is made; the first answer counts, and no later one,
-- nor a cancellation; when it is finished it gives that answer, and it is gone; and another
-- request is not touched.
pub request_lem :
    (id other : String) (first second : Bool) (b : ToolApprovalBroker)
    → (id == other) ≡ false
    → let answers : ToolApprovalBroker =
        cancel id (resolve id second (resolve id first (request id b))) in
      (lookup id (request id b).pending ≡ some none)
      × ((finish_request id answers).0 ≡ some first)
      × (lookup id (finish_request id answers).1.pending ≡ none)
      × (lookup other (finish_request id answers).1.pending ≡ lookup other b.pending)
unfolding finish_request
request_lem id other first second b h = rw (still id first b second) (
  opened id first b,
  ground (arith, answered id first b),
  ground (arith, lookup-forget id id (resolve id first (request id b)).pending, beq_refl id),
  ground (
    arith,
    lookup-forget id other (resolve id first (request id b)).pending,
    answered_other id first b other h,
  ),
)
