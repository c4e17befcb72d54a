-- ===== src/Harness.antt =====
-- src/glassrail/harness/registry.py: `ToolHarness`, the registry of tools. A tool is a function
-- that returns a value or raises, with its text; a tool's own effects are outside the model.
use glassrail.Common.{
  Dict, List, Option, Result, String, [], err, if◌then◌else◌, insert, is_some, lookup, map, none,
  ok, some, truthy, ℕ, ◌+◌, ◌∷◌, string_eq,
}
use glassrail.Core.{Json, Members, ToolRisk}

pub data HarnessError : Type 0 where
  -- ToolRegistrationError
  already_registered : String → HarnessError
  -- ToolExecutionError
  unknown_tool : String → HarnessError
  tool_raised : (name message : String) → HarnessError

abbrev pub ToolFunc : Type 0
ToolFunc = Members → Result String Json

pub record ToolSchema : Type 0 where
  pub name : String
  pub description : String
  pub parameters : Members
  pub risk : ToolRisk

pub record ToolHarness : Type 0 where
  pub funcs : Dict String ToolFunc
  pub schemas : Dict String ToolSchema
  pub risks : Dict String ToolRisk

abbrev pub new : ToolHarness
new = record { funcs = []; schemas = []; risks = [] }

-- `_register`
unfoldable pub register : ToolSchema → ToolFunc → ToolHarness → Result HarnessError ToolHarness
register schema func h =
    if is_some (lookup schema.name h.funcs)
    then err (already_registered schema.name)
    else ok (record {
      funcs = insert schema.name func h.funcs;
      schemas = insert schema.name schema h.schemas;
      risks = insert schema.name schema.risk h.risks;
    })

-- An entry point as `load_entry_points` sees it: what `ep.load()` gives.
pub data Loaded : Type 0 where
  load_failed not_callable : Loaded
  callable : (doc : String) → ToolFunc → Loaded

-- `load_entry_points`: the plugins are a parameter, and so is the empty parameter schema. A name
-- that is there is skipped, so `register` cannot raise.
module _ (empty_parameters : Members) (strip : String → String) where
  abbrev pub plugin_schema : String → String → ToolSchema
  plugin_schema name doc = record {
    name = name;
    description = if truthy (some (strip doc)) then strip doc else name;
    parameters = empty_parameters;
    risk = ToolRisk.read;
  }

  pub load_entry_point : String → Loaded → ToolHarness × ℕ → ToolHarness × ℕ
  unfolding register
  load_entry_point name load_failed (h, n) = (h, n)
  load_entry_point name not_callable (h, n) = (h, n)
  load_entry_point name (callable doc func) (h, n) =
      elim (register (plugin_schema name doc) func h) [ ok h' ↦ (h', n + 1) | err e ↦ (h, n) ]

  unfoldable pub load_entry_points : List (String × Loaded) → ToolHarness × ℕ → ToolHarness × ℕ
  unfolding load_entry_point
  load_entry_points [] s = s
  load_entry_points ((name, ep) ∷ eps) s = load_entry_points eps (load_entry_point name ep s)

unfoldable pub schema_for : ToolHarness → String → Option ToolSchema
schema_for h name = lookup name h.schemas

unfoldable pub risk_for : ToolHarness → String → ToolRisk
risk_for h name = elim (lookup name h.risks) [ none ↦ ToolRisk.read | some r ↦ r ]

unfoldable pub all_schemas : ToolHarness → List ToolSchema
all_schemas h = map (λ e. e.1) h.schemas

unfoldable pub all_names : ToolHarness → List String
all_names h = map (λ e. e.0) h.funcs

unfoldable pub unknown_names : ToolHarness → List (Option String) → List String
unknown_names h [] = []
unknown_names h (none ∷ names) = unknown_names h names
unknown_names h (some n ∷ names) =
    let rest = unknown_names h names in if is_some (lookup n h.funcs) then rest else n ∷ rest

-- `execute`
unfoldable pub execute : ToolHarness → String → Members → Result HarnessError Json
execute h name args = elim (lookup name h.funcs) [
  | none ↦ err (unknown_tool name)
  | some func ↦ elim (func args) [ ok v ↦ ok v | err message ↦ err (tool_raised name message) ]
]
