-- ===== src/State/Sqlite/Finite.antt =====
-- States without NaN and infinities. pydantic writes those as null, so that only a state without them is
-- read back as it was written.
use glassrail.Common.{Bool, Option, all, false, none, some, true, ◌&&◌}
use glassrail.Core.{
  Float, Json, Items, Members, Plan, Nodes, Subplan, NodeResult, PlanningAttempt, ExecutionState,
}

abbrev is_finite : Float → Bool
is_finite Float.nan = false
is_finite Float.inf = false
is_finite Float.neg_inf = false
is_finite (Float.finite m e) = true

unfoldable mutual
  pub json_finite : Json → Bool
  json_finite (Json.float f) = is_finite f
  json_finite (Json.arr vs) = items_finite vs
  json_finite (Json.obj ms) = members_finite ms
  json_finite other = true

  pub items_finite : Items → Bool
  items_finite Items.nil = true
  items_finite (Items.cons v vs) = json_finite v && items_finite vs

  pub members_finite : Members → Bool
  members_finite Members.end = true
  members_finite (Members.member key v ms) = json_finite v && members_finite ms

abbrev object_finite : Option Members → Bool
object_finite none = true
object_finite (some ms) = members_finite ms

unfoldable mutual
  unfolding members_finite

  pub plan_finite : Plan → Bool
  plan_finite (Plan.plan ns ids) = nodes_finite ns

  pub nodes_finite : Nodes → Bool
  nodes_finite Nodes.nil = true
  nodes_finite (Nodes.cons h p ns) =
      object_finite h.args_template && subplan_finite p && nodes_finite ns

  pub subplan_finite : Subplan → Bool
  subplan_finite Subplan.absent = true
  subplan_finite (Subplan.nested p) = plan_finite p

abbrev maybe_plan_finite : Option Plan → Bool
maybe_plan_finite none = true
maybe_plan_finite (some p) = plan_finite p

abbrev result_finite : NodeResult → Bool
result_finite r = is_finite r.confidence && json_finite r.output && object_finite r.args_used

abbrev attempt_finite : PlanningAttempt → Bool
attempt_finite a = object_finite a.parsed && maybe_plan_finite a.plan

-- Every number of the state is finite.
unfoldable pub state_finite : ExecutionState → Bool
unfolding json_finite members_finite plan_finite all
state_finite st =
    maybe_plan_finite st.plan
    && all (λ e. result_finite e.1) st.results
    && all (λ e. is_finite e.confidence) st.branch_log
    && all attempt_finite st.planning_attempts
