-- ===== src/Core/Execution.antt =====
-- src/glassrail/core/execution.py. The timestamps and the measured times are not modelled.
use glassrail.Common.{ℤ, ℕ, ◌+◌, String, Bool, ◌&&◌, Option, List, [], ◌∷◌, Dict, is_some, is_none}
use glassrail.Core.Floats.{Float}
use glassrail.Core.Values.{Json, Members}
use glassrail.Core.Plans.{Plan}

pub data NodeStatus : Type 0 where
  pending completed skipped failed empty : NodeStatus

pub record NodeResult : Type 0 where
  pub node_id : ℤ
  pub status : NodeStatus
  pub output : Json
  pub branch_taken : Option String
  pub args_used : Option Members
  pub confidence : Float
  pub flagged : Bool
  pub tokens_used : ℕ
  pub retries : ℕ
  pub error : Option String
  pub tier_used : Option ℤ

pub record BranchLogEntry : Type 0 where
  pub node_id : ℤ
  pub condition : Option String
  pub branch_taken : Option String
  pub confidence : Float

pub data ErrorType : Type 0 where
  timeout stall json schema rejection validation : ErrorType

pub record PlanningAttempt : Type 0 where
  pub attempt : ℕ
  pub raw_output : String
  pub parsed : Option Members
  pub plan : Option Plan
  pub error : Option String
  pub error_type : Option ErrorType
  pub error_detail : Option String
  pub tokens_used : ℕ
  pub filepath : Option String

pub data TaskStatus : Type 0 where
  planning awaiting_confirmation resuming executing completed failed paused cancelled : TaskStatus
  rejected : TaskStatus

pub record ExecutionState : Type 0 where
  pub task_id : String
  pub user_request : String
  pub plan : Option Plan
  pub results : Dict ℤ NodeResult
  pub completed_nodes : List ℤ
  pub skipped_nodes : List ℤ
  pub branch_log : List BranchLogEntry
  pub planning_attempts : List PlanningAttempt
  pub status : TaskStatus
  pub replan_count : ℕ
  pub final_output : Option String
  pub error : Option String

-- `plan is not None and error is None`
unfoldable pub valid : PlanningAttempt → Bool
valid a = is_some a.plan && is_none a.error

sum_attempts : List PlanningAttempt → ℕ
sum_attempts [] = 0
sum_attempts (a ∷ as') = a.tokens_used + sum_attempts as'

sum_results : Dict ℤ NodeResult → ℕ
sum_results [] = 0
sum_results ((k, r) ∷ rs) = r.tokens_used + sum_results rs

unfoldable pub total_tokens : ExecutionState → ℕ
unfolding sum_attempts sum_results
total_tokens s = sum_attempts s.planning_attempts + sum_results s.results
