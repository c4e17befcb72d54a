-- ===== src/Core/Values.antt =====
-- The values of `json.loads`, and of tools: what `Any` stands for in the domain types.
use glassrail.Common.{ℤ, String, Bool, true, false}
use glassrail.Core.Floats.{Float}

mutual
  pub data Json : Type 0 where
    null : Json
    bool : Bool → Json
    int : ℤ → Json
    float : Float → Json
    str : String → Json
    arr : Items → Json
    obj : Members → Json

  pub data Items : Type 0 where
    nil : Items
    cons : Json → Items → Items

  pub data Members : Type 0 where
    end : Members
    member : String → Json → Members → Members

-- `raw_output is None or raw_output in ({}, [])`
unfoldable pub is_empty_output : Json → Bool
is_empty_output null = true
is_empty_output (arr nil) = true
is_empty_output (obj end) = true
is_empty_output other = false
