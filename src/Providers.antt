-- ===== src/Providers.antt =====
-- src/glassrail/providers/router.py: `TierRouter`. What a provider does is a parameter: whether it
-- is healthy, and how it answers a request. The messages are passed on, so they are not modelled;
-- neither are the spans and the log.
pub mod Routing
use glassrail.Common.{
  Bool, List, Option, String, [], false, filter, if◌then◌else◌, int_leb, none, not, some, true, ℤ,
  ◌&&◌, ◌∷◌,
}

-- How a provider's stream begins, and ends.
pub data Stream (C : Type 0) : Type 0 where
  -- ProviderUnavailableError before the first chunk
  unavailable : Stream C
  -- another exception before the first chunk
  broken : Stream C
  empty : Stream C
  -- the chunks, and whether an exception follows them
  chunks : (first : C) → (later : List C) → (breaks : Bool) → Stream C

pub record Provider (C : Type 0) : Type 0 where
  pub name : String
  pub tier : ℤ
  -- none: the provider has no `is_healthy`
  pub is_healthy : Option Bool
  pub complete : (json_mode : Bool) → (max_tokens : ℤ) → Stream C

pub data RouterError : Type 0 where
  -- ProviderError: no providers for the tier range
  no_providers : RouterError
  -- ProviderUnavailableError
  exhausted : RouterError
  -- the provider's own exception
  raised : RouterError

-- What a call of `complete` yields, from which provider, and how it ends.
pub record Served (C : Type 0) : Type 0 where
  pub by : Option (Provider C)
  pub yielded : List C
  pub error : Option RouterError

-- the generation ceiling
unfoldable pub clamp_tokens : Option ℤ → ℤ → ℤ
clamp_tokens none max_tokens = max_tokens
clamp_tokens (some ceiling) max_tokens =
    if not (int_leb max_tokens ceiling) then ceiling else max_tokens

abbrev pub no_items {ℓ} : {A : Type ℓ} → List A → Bool
no_items [] = true
no_items (x ∷ xs) = false

module _ {C : Type 0} where
  unfoldable pub is_eligible : ℤ → Option ℤ → Provider C → Bool
  is_eligible min_tier max_tier p =
      int_leb min_tier p.tier && elim max_tier [ none ↦ true | some t ↦ int_leb p.tier t ]

  abbrev pub failed : RouterError → Served C
  failed e = record { by = none; yielded = []; error = some e }

  -- The body of `for provider in eligible`, with the rest of the loop.
  unfoldable pub attempt : Provider C → Stream C → Served C → Served C
  attempt p unavailable next = next
  attempt p broken next = failed raised
  attempt p empty next = next
  attempt p (chunks first later breaks) next = record {
    by = some p;
    yielded = first ∷ later;
    error = if breaks then some raised else none;
  }

  -- `hasattr(provider, "is_healthy") and not await provider.is_healthy()`
  unfoldable pub fails_health_check : Provider C → Bool
  fails_health_check p = elim p.is_healthy [ none ↦ false | some b ↦ not b ]

  unfoldable pub try_each : Bool → ℤ → List (Provider C) → Served C
  unfolding attempt fails_health_check
  try_each json_mode max_tokens [] = failed exhausted
  try_each json_mode max_tokens (p ∷ ps) =
      let next = try_each json_mode max_tokens ps in
      if fails_health_check p then next else attempt p (p.complete json_mode max_tokens) next

  unfoldable pub complete :
      (ceiling : Option ℤ) (providers : List (Provider C)) (min_tier : ℤ) (max_tier : Option ℤ)
      (json_mode : Bool) (max_tokens : ℤ)
      → Served C
  unfolding is_eligible clamp_tokens try_each
  complete ceiling providers min_tier max_tier json_mode max_tokens =
      let eligible = filter (is_eligible min_tier max_tier) providers in
      if no_items eligible
      then failed no_providers
      else try_each json_mode (clamp_tokens ceiling max_tokens) eligible
