-- ===== src/Validator/Errors.antt =====
-- `PlanValidationError`: one constructor for each message, with the values that it shows.
use glassrail.Common.{ℕ, ℤ, String, List, Result}

pub data ValidationError : Type 0 where
  too_many_nodes : (count : ℕ) (limit : ℤ) → ValidationError
  no_tool extra_tool decision_fields no_nested_plan extra_nested_plan : ℤ → ValidationError
  no_condition no_branches branch_names default_not_a_branch : ℤ → ValidationError
  unknown_tools : List String → ValidationError
  tier_out_of_range : (node tier : ℤ) → ValidationError
  missing_dependency : (node dep : ℤ) → ValidationError
  missing_branch_node : (node : ℤ) (branch : String) (target : ℤ) → ValidationError
  cycle : ValidationError
  nesting_too_deep : (node : ℤ) (depth : ℕ) → ValidationError
  too_many_subplans : ℕ → ValidationError
  -- no error of the program: the fuel of the nesting check ran out
  out_of_fuel : ValidationError

abbrev pub Checked : Type 0 → Type 0
Checked A = Result ValidationError A
