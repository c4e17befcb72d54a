-- ===== src/Gateways/Acp.antt =====
-- src/glassrail/gateways/acp/mapping.py: the plan as an editor shows it, with the status of each node.
pub mod Loading
pub mod Entries
use Prim.Native.String.{◌++◌ as text_append}
use glassrail.Common.{
  Bool, Dict, List, Option, String, [], add, elem, false, if◌then◌else◌, insert, lookup, map, none,
  some, true, ℤ, ◌++◌, ◌==◌, ◌∷◌, int_eq,
}
use glassrail.Core.{NodeStatus, Members}
use glassrail.Executor.Plans.{is_status}

-- The status of an entry.
pub data AcpStatus : Type 0 where
  pending in_progress completed : AcpStatus

-- `acp_plan_status`
unfoldable pub acp_plan_status : Option NodeStatus → (running : Bool) → AcpStatus
acp_plan_status none true = AcpStatus.in_progress
acp_plan_status none false = AcpStatus.pending
acp_plan_status (some NodeStatus.pending) true = AcpStatus.in_progress
acp_plan_status (some NodeStatus.pending) false = AcpStatus.pending
acp_plan_status (some NodeStatus.completed) running = AcpStatus.completed
acp_plan_status (some NodeStatus.skipped) running = AcpStatus.completed
acp_plan_status (some NodeStatus.empty) running = AcpStatus.completed
acp_plan_status (some NodeStatus.failed) running = AcpStatus.completed

-- A node of a serialised plan.
pub record SerialNode : Type 0 where
  pub id : ℤ
  pub kind : String
  pub description : String
  pub tool : Option String
  pub args_template : Option Members

pub record PlanTracker : Type 0 where
  pub desc : Dict ℤ String
  pub kinds : Dict ℤ String
  pub tools : Dict ℤ (Option String)
  pub args : Dict ℤ Members
  pub order : List ℤ
  pub statuses : Dict ℤ NodeStatus
  pub running : List ℤ

abbrev empty_tracker : PlanTracker
empty_tracker = record {
  desc = [];
  kinds = [];
  tools = [];
  args = [];
  order = [];
  statuses = [];
  running = [];
}

abbrev pub table : List SerialNode → Dict ℤ SerialNode → Dict ℤ SerialNode
table [] d = d
table (n ∷ ns) d = table ns (insert n.id n d)

-- `plan.get("sorted_node_ids") or [n["id"] for n in nodes]`
abbrev pub load_ids : List SerialNode → List ℤ → List ℤ
load_ids ns [] = map (λ n. n.id) ns
load_ids ns (i ∷ is) = i ∷ is

-- `str.strip` is a parameter.
module _ (strip : String → String) where
  -- What the loop of `load` does for one node.
  unfoldable pub load_node : SerialNode → PlanTracker → PlanTracker
  unfolding insert
  load_node n t = record t {
    desc =
        insert n.id (strip (text_append "[" (text_append n.kind (text_append "] " n.description))))
          t.desc;
    kinds = insert n.id n.kind t.kinds;
    tools = insert n.id n.tool t.tools;
    args = insert n.id (elim n.args_template [ none ↦ Members.end | some m ↦ m ]) t.args;
    order = t.order ++ n.id ∷ [];
  }

  unfoldable pub load_order : Dict ℤ SerialNode → List ℤ → PlanTracker → PlanTracker
  unfolding load_node lookup
  load_order nodes_by_id [] t = t
  load_order nodes_by_id (i ∷ is) t =
      load_order nodes_by_id is (elim (lookup i nodes_by_id) [ none ↦ t | some n ↦ load_node n t ])

  -- `load`, on a tracker that may show another plan
  unfoldable pub load :
      (nodes : List SerialNode) (sorted_node_ids : List ℤ) → PlanTracker → PlanTracker
  unfolding load_order
  load ns is t = load_order (table ns []) (load_ids ns is) (record t {
    desc = [];
    kinds = [];
    tools = [];
    args = [];
    order = [];
    statuses = [];
    running = [];
  })

-- `self._running.discard(node_id)`
unfoldable pub stop_running : ℤ → List ℤ → List ℤ
stop_running i [] = []
stop_running i (x ∷ xs) = let rest = stop_running i xs in if x == i then rest else x ∷ rest

unfoldable pub start : ℤ → PlanTracker → PlanTracker
unfolding add
start i t = record t { running = add i t.running }

unfoldable pub finish : ℤ → NodeStatus → PlanTracker → PlanTracker
unfolding insert stop_running
finish i status t = record t {
  running = stop_running i t.running;
  statuses = insert i status t.statuses;
}

pub record Entry : Type 0 where
  pub node_id : ℤ
  pub content : String
  pub status : AcpStatus

-- The content of an entry: a node that was skipped or that failed says so.
unfoldable pub content_of : String → Option NodeStatus → String
content_of desc (some NodeStatus.skipped) = text_append desc " (skipped)"
content_of desc (some NodeStatus.failed) = text_append desc " (failed)"
content_of desc _ = desc

abbrev pub described : Option String → String
described none = ""
described (some d) = d

unfoldable pub entry : PlanTracker → ℤ → Entry
unfolding lookup content_of acp_plan_status elem
entry t i = record {
  node_id = i;
  content = content_of (described (lookup i t.desc)) (lookup i t.statuses);
  status = acp_plan_status (lookup i t.statuses) (elem i t.running);
}

unfoldable pub entries : PlanTracker → List Entry
unfolding entry
entries t = map (entry t) t.order
